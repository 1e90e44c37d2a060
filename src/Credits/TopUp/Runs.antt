-- ===== src/Credits/TopUp/Runs.antt =====
-- Runs of the top-up that interleave (src/credits/auto-topup-usage.ts).
use platform_core.Base.{
  ℕ, suc, ◌≤◌, ◌≡◌, refl, ◌∙◌, ap, Bool, true, false, not, ◌||◌, Option, none, some, leb,
  if◌then◌else◌, if_ind, arith,
}
use platform_core.Base.Int.{ℤ}
use platform_core.Credits.Credit.{less_than}
use platform_core.Credits.TopUp.{
  AutoTopupSettings, begin_topup, finish_topup, try_acquire_usage_in_flight,
  increment_usage_failures, reset_usage_failures, disable_usage, set_usage_charge_in_flight,
  count_failure, max_consecutive_failures,
}

-- The runs that have acquired the flag and have not ended, after a run began.
abbrev pub charging_after : Bool → ℕ → ℕ
charging_after acquired n = if acquired then suc n else n

-- The row and the number of runs that are charging. A run may go by any settings it read before.
pub data Runs : AutoTopupSettings → ℕ → Type 0 where
  idle :
      (s : AutoTopupSettings)
      → s.usage_charge_in_flight ≡ false
      → s.usage_consecutive_failures ≡ 0
      → Runs s 0
  begins :
      {s : AutoTopupSettings} {n : ℕ} (read : Option AutoTopupSettings) (may_charge : Bool)
      (balance : ℤ)
      → Runs s n
      → Runs
          (begin_topup read may_charge balance s).1
          (charging_after (begin_topup read may_charge balance s).0 n)
  finishes :
      {s : AutoTopupSettings} {n : ℕ} (answer : Option Bool)
      → Runs s (suc n)
      → Runs (finish_topup answer s) n

-- The flag says whether a run is charging, there is one at most, and while the top-up is enabled fewer
-- than three charges in a row have failed.
abbrev pub IsGuarded : AutoTopupSettings → ℕ → Type 0
IsGuarded s n =
    (n ≡ (if s.usage_charge_in_flight then 1 else 0))
    × (s.usage_enabled ≡ true → suc s.usage_consecutive_failures ≤ max_consecutive_failures)

begin_topup-IsGuarded :
    (read : Option AutoTopupSettings) (may_charge : Bool) (balance : ℤ) (s : AutoTopupSettings)
    (n : ℕ)
    → IsGuarded s n
    → IsGuarded
        (begin_topup read may_charge balance s).1
        (charging_after (begin_topup read may_charge balance s).0 n)
unfolding begin_topup try_acquire_usage_in_flight
begin_topup-IsGuarded none may_charge balance s n h = h
begin_topup-IsGuarded (some read) may_charge balance s n (f, e) =
    if_ind (λ (x : Bool × AutoTopupSettings). IsGuarded x.1 (charging_after x.0 n))
      (not read.usage_enabled || not may_charge || not (less_than balance read.usage_threshold))
      (false, s) _ (λ _. (f, e))
      (λ _.
        if_ind (λ (x : Bool × AutoTopupSettings). IsGuarded x.1 (charging_after x.0 n))
          s.usage_charge_in_flight (false, s) (true, record s { usage_charge_in_flight = true })
          (λ _. (f, e)) (λ b. (ap suc (f ∙ rw b refl), e)))

-- The run that ends was the only one.
only_run : (b : Bool) (n : ℕ) → suc n ≡ (if b then 1 else 0) → n ≡ 0
only_run b n h = ground arith

-- A failure leaves an enabled top-up below the maximum.
count_failure-enabled :
    (s : AutoTopupSettings)
    → (count_failure s).usage_enabled ≡ true
    → suc (count_failure s).usage_consecutive_failures ≤ max_consecutive_failures
unfolding count_failure increment_usage_failures disable_usage
count_failure-enabled s =
    let s' = record s { usage_consecutive_failures = suc s.usage_consecutive_failures } in
    if_ind
      (λ (x : AutoTopupSettings).
        x.usage_enabled ≡ true → suc x.usage_consecutive_failures ≤ max_consecutive_failures)
      (leb max_consecutive_failures (suc s.usage_consecutive_failures))
      (record s' { usage_enabled = false }) s' (λ _ h. absurd cc)
      (λ b _. room s.usage_consecutive_failures b)
  where
    room : (n : ℕ) → leb 3 (suc n) ≡ false → suc (suc n) ≤ 3
    room n b = ground arith

finish_topup-IsGuarded :
    (answer : Option Bool) (s : AutoTopupSettings) (n : ℕ)
    → IsGuarded s (suc n)
    → IsGuarded (finish_topup answer s) n
unfolding finish_topup reset_usage_failures set_usage_charge_in_flight
finish_topup-IsGuarded (some true) s n (f, e) =
    (only_run s.usage_charge_in_flight n f, λ _. omega arith)
finish_topup-IsGuarded (some false) s n (f, e) =
    (only_run s.usage_charge_in_flight n f, count_failure-enabled s)
finish_topup-IsGuarded none s n (f, e) =
    (only_run s.usage_charge_in_flight n f, count_failure-enabled s)

-- However runs interleave, and whatever settings each of them read before, from a row with no
-- charge in flight and no failure counted: at most one run is charging, exactly while the flag is
-- set, and while the top-up is enabled fewer than three charges in a row have failed.
pub Runs-IsGuarded : {s : AutoTopupSettings} {n : ℕ} → Runs s n → IsGuarded s n
Runs-IsGuarded (idle s f c) = (rw f refl, λ _. rw c (omega arith))
Runs-IsGuarded (begins {s} {n} read may_charge balance r) =
    begin_topup-IsGuarded read may_charge balance s n (Runs-IsGuarded r)
Runs-IsGuarded (finishes {s} {n} answer r) = finish_topup-IsGuarded answer s n (Runs-IsGuarded r)
