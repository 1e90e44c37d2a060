-- ===== src/Gateway/CreditGate/Check.antt =====
-- Whom the gate lets through (src/gateway/credit-gate.ts).
use platform_core.Base.{
  ℕ, ◌≡◌, refl, ap, ◌↔◌, ◌⊎◌, inl, inr, Bool, true, false, ◌||◌, not, Option, none, if◌then◌else◌,
  arith,
}
use platform_core.Base.Int.{ℤ, pos, ◌-ℤ◌, ◌≤ℤ◌, ◌<ℤ◌}
use platform_core.Credits.Types.{Db, Result, ok, err}
use platform_core.Credits.Credit.{from_cents}
use platform_core.Credits.Ledger.{balance}
use mathlib.Core.Option.{get_or}
use platform_core.Gateway.CreditGate.{
  CreditGateDeps, GatewayTenant, CreditError, at_least_zero, check_credit, credit_balance_check,
}

-- A balance that is let through: in debt by less than the grace buffer, or not in debt and enough for
-- the estimated cost.
abbrev pub IsEnough : ℕ → ℤ → ℤ → Type 0
IsEnough grace required current =
    (from_cents (pos 0 -ℤ pos grace) <ℤ current)
    × ((current <ℤ pos 0) ⊎ (from_cents required ≤ℤ current))

abbrev value : Result (Option CreditError) → Option CreditError
value (ok x) = x
value (err e) = none

check_credit-IsEnough :
    (grace : ℕ) (required current : ℤ)
    → (check_credit grace required current ≡ none) ↔ IsEnough grace required current
unfolding check_credit
check_credit-IsEnough grace required current = ground arith

-- Where the balance can be read, the gate lets a request through exactly if there is no ledger, the
-- tenant is a platform service or is metered, or its balance is above the grace buffer's debt and is either
-- a debt or covers the estimated cost; without a grace buffer a balance of zero does not pass.
pub credit_balance_check-IsEnough :
    (deps : CreditGateDeps) (tenant : GatewayTenant) (estimated current : ℤ) (db : Db)
    → balance tenant.id db ≡ ok current
    → (credit_balance_check deps tenant estimated db ≡ ok none) ↔ (
        ((not deps.has_ledger || tenant.is_platform_service || tenant.is_metered) ≡ true)
        ⊎ IsEnough (get_or deps.grace_buffer_cents 50) (at_least_zero estimated) current)
unfolding credit_balance_check
credit_balance_check-IsEnough deps tenant estimated current db h =
    rw (h, credit_balance_check)
      (gate (not deps.has_ledger || tenant.is_platform_service || tenant.is_metered)
        (check_credit (get_or deps.grace_buffer_cents 50) (at_least_zero estimated) current)
        (check_credit-IsEnough (get_or deps.grace_buffer_cents 50) (at_least_zero estimated)
          current))
  where
    gate :
        {P : Type 0} (b : Bool) (x : Option CreditError)
        → (x ≡ none) ↔ P
        → ((if b then ok none else ok x) ≡ ok none) ↔ ((b ≡ true) ⊎ P)
    gate true x (f, g) = (λ _. inl refl, λ _. refl)
    gate false x (f, g) = (
      λ e. inr (f (ap (λ (r : Result (Option CreditError)). value r) e)),
      λ s. elim s [ inl e ↦ absurd cc | inr p ↦ ap ok (g p) ],
    )
