-- ===== src/Fleet/Rollout/Termination.antt =====
-- The end of a rollout's loop (src/fleet/rollout-orchestrator.ts).
use platform_core.Base.{
  ℕ, zero, suc, ◌+◌, ◌-◌, ◌*◌, ◌≤◌, ◌≡◌, refl, ap, inl, inr, Bool, true, false, not, ◌||◌, Option,
  some, List, [], ◌∷◌, ◌++◌, map, length, filter, includes, take, ◌==◌, if◌then◌else◌, nat_eq,
  arith, Bool-cases, ==_refl, All, if_ind,
}
use platform_core.Fleet.Rollout.Strategy.{BotProfile, Strategy, max_retries, next_batch, wave_size}
use platform_core.Fleet.Rollout.Orchestrator.{
  Services, BotUpdateResult, Rollout, process_batch, remaining_after, run_waves, start,
  RolloutResult, rollout, already_rolling, summary,
}
use platform_core.Fleet.Rollout.Potential.{
  total, total-append, total-Grows, Lowers, process_batch-Lowers,
}

take-append : (n : ℕ) (bs : List BotProfile) → (rest : List BotProfile) × (bs ≡ take n bs ++ rest)
take-append zero bs = (bs, refl)
take-append (suc n) [] = ([], refl)
take-append (suc n) (b ∷ bs) = let (rest, e) = take-append n bs in (rest, ap (λ xs. b ∷ xs) e)

append_nil : (bs : List BotProfile) → bs ≡ bs ++ []
append_nil [] = refl
append_nil (b ∷ bs) = ap (λ xs. b ∷ xs) (append_nil bs)

-- A batch of bots that are left is not empty and is taken from the front.
pub next_batch-append :
    (s : Strategy) (b : BotProfile) (bs : List BotProfile)
    → (c : BotProfile) × (cs rest : List BotProfile) × (next_batch s (b ∷ bs) ≡ c ∷ cs)
      × (b ∷ bs ≡ (c ∷ cs) ++ rest)
unfolding next_batch
next_batch-append (Strategy.rolling_wave p w m t) b bs =
    front (wave_size (suc (length bs)) p) (ground arith)
  where
    front :
        (n : ℕ)
        → 1 ≤ n
        → (c : BotProfile) × (cs rest : List BotProfile) × (take n (b ∷ bs) ≡ c ∷ cs)
          × (b ∷ bs ≡ (c ∷ cs) ++ rest)
    front zero h = absurd (omega arith)
    front (suc n) h =
        let (rest, e) = take-append n bs in (b, take n bs, rest, refl, ap (λ xs. b ∷ xs) e)
next_batch-append Strategy.single_bot b bs = (b, [], bs, refl, refl)
next_batch-append Strategy.immediate b bs = (b, bs, [], refl, ap (λ xs. b ∷ xs) (append_nil bs))

abbrev pub ids : List BotProfile → List ℕ
ids bs = map (λ (c : BotProfile). c.id) bs

includes-more :
    (i : ℕ) (is : List ℕ) (bs : List BotProfile)
    → All (λ (b : BotProfile). includes is b.id ≡ true) bs
    → All (λ (b : BotProfile). includes (i ∷ is) b.id ≡ true) bs
includes-more i is [] h = tt
includes-more i is (b ∷ bs) (f, h) = (rw f (or_true (i == b.id)), includes-more i is bs h)
  where
    or_true : (x : Bool) → (x || true) ≡ true
    or_true true = refl
    or_true false = refl

-- The bots of a batch are among its ids.
pub includes-ids :
    (bs : List BotProfile) → All (λ (b : BotProfile). includes (ids bs) b.id ≡ true) bs
includes-ids [] = tt
includes-ids (b ∷ bs) = (rw (==_refl b.id) refl, includes-more b.id (ids bs) bs (includes-ids bs))

All-not :
    (p : BotProfile → Bool) (bs : List BotProfile)
    → All (λ (b : BotProfile). p b ≡ true) bs
    → All (λ (b : BotProfile). not (p b) ≡ false) bs
All-not p [] h = tt
All-not p (b ∷ bs) (f, h) = (rw f refl, All-not p bs h)

total-kept :
    (tries : ℕ) (rs : List BotUpdateResult) (keep : BotProfile → Bool)
    (batch rest : List BotProfile)
    → All (λ (b : BotProfile). keep b ≡ false) batch
    → total tries rs (filter keep (batch ++ rest)) ≤ total tries rs rest
total-kept tries rs keep [] [] h = omega arith
total-kept tries rs keep [] (b ∷ bs) h =
    if_ind (λ xs. total tries rs xs ≤ total tries rs (b ∷ bs)) (keep b) (b ∷ filter keep bs)
      (filter keep bs) (λ _. omega (arith, total-kept tries rs keep [] bs tt))
      (λ _. omega (arith, total-kept tries rs keep [] bs tt))
total-kept tries rs keep (c ∷ cs) rest (f, h) = rw f (total-kept tries rs keep cs rest h)

module _ {W : Type 0} (sv : Services W) where
  -- A wave that does not abort lowers the measure of what is left.
  wave-total :
      (st out : Rollout W) (c : BotProfile) (left cs rest : List BotProfile)
      → out ≡ process_batch sv (c ∷ cs) (record st { retries = [] })
      → left ≡ (c ∷ cs) ++ rest
      → out.aborted ≡ false
      → suc (
          total
            (max_retries out.strategy)
            out.results
            (remaining_after sv (c ∷ cs) out.retries left))
        ≤ total (max_retries st.strategy) st.results left
  wave-total st out c left cs rest o e go = rw (e, m) (bound low)
    where
      lowers :
          Lowers sv
            (record st { retries = [] })
            out
            (total (max_retries st.strategy) st.results (c ∷ cs))
            (suc (length cs))
      lowers = rw o (process_batch-Lowers sv (c ∷ cs) (record st { retries = [] }))

      m : max_retries out.strategy ≡ max_retries st.strategy
      m = lowers.1

      low :
          total (max_retries st.strategy) out.results out.retries + suc (length cs)
          ≤ 0 + total (max_retries st.strategy) st.results (c ∷ cs)
      low = elim lowers.2 [ inl a ↦ absurd cc | inr h ↦ h ]

      keep : BotProfile → Bool
      keep x = not (includes (ids (c ∷ cs)) x.id)

      bound :
          total (max_retries st.strategy) out.results out.retries + suc (length cs)
            ≤ 0 + total (max_retries st.strategy) st.results (c ∷ cs)
          → suc (
              total
                (max_retries st.strategy)
                out.results
                (filter keep ((c ∷ cs) ++ rest) ++ out.retries))
            ≤ total (max_retries st.strategy) st.results ((c ∷ cs) ++ rest)
      bound h = omega (
        arith,
        h,
        total-append (max_retries st.strategy) out.results (filter keep ((c ∷ cs) ++ rest))
            out.retries,
        total-append (max_retries st.strategy) st.results (c ∷ cs) rest,
        total-kept (max_retries st.strategy) out.results keep (c ∷ cs) rest (
            All-not (λ (x : BotProfile). includes (ids (c ∷ cs)) x.id) (c ∷ cs)
              (includes-ids (c ∷ cs))),
        total-Grows (max_retries st.strategy) st.results out.results rest lowers.0,
      )

  -- Fuel of the measure is enough.
  run_waves-total :
      (fuel : ℕ) (bs : List BotProfile) (st : Rollout W)
      → total (max_retries st.strategy) st.results bs ≤ fuel
      → (out : Rollout W) × (run_waves sv fuel bs st ≡ some out)
  unfolding run_waves
  run_waves-total fuel [] st h = (st, refl)
  run_waves-total zero (b ∷ bs) st h = absurd (omega arith)
  run_waves-total (suc fuel) (b ∷ bs) st h =
      let (c, cs, rest, n, e) = next_batch-append st.strategy b bs in
      let out = process_batch sv (c ∷ cs) (record st { retries = [] }) in
      let more = run_waves sv fuel (remaining_after sv (c ∷ cs) out.retries (b ∷ bs)) out in
      rw (n, run_waves)
        (branch out out.aborted more (λ go.
          run_waves-total fuel (remaining_after sv (c ∷ cs) out.retries (b ∷ bs)) out
            (omega (arith, wave-total st out c (b ∷ bs) cs rest refl e go))))
    where
      branch :
          (o : Rollout W) (a : Bool) (more : Option (Rollout W))
          → (a ≡ false → (out : Rollout W) × (more ≡ some out))
          → (out : Rollout W) × ((if a then some o else more) ≡ some out)
      branch o true more f = (o, refl)
      branch o false more f = f refl

  total-start : (tries : ℕ) (bs : List BotProfile) → total tries [] bs ≤ length bs * suc tries
  total-start tries [] = omega arith
  total-start tries (b ∷ bs) = step (length bs) (total-start tries bs)
    where
      step :
          (n : ℕ)
          → total tries [] bs ≤ n * suc tries
          → suc (tries - 0) + total tries [] bs ≤ suc n * suc tries
      step n h = omega (arith, h)

  -- A rollout returns a result, whatever the updater and the snapshot manager answer: fuel of as many
  -- waves as bots times one more than the strategy's number of tries is enough.
  pub rollout-total :
      (fuel : ℕ) (rolling : Bool) (s : Strategy) (bs : List BotProfile) (w : W)
      → length bs * suc (max_retries s) ≤ fuel
      → (r : RolloutResult) × (s' : Strategy) × (w' : W) × (rollout sv fuel rolling s bs w
          ≡ some (r, s', w'))
  unfolding rollout
  rollout-total fuel rolling s bs w h =
      let (st, e) =
        run_waves-total fuel bs (start sv s w) (omega (arith, h, total-start (max_retries s) bs)) in
      elim (Bool-cases rolling) [
        | inl b ↦ (already_rolling sv, s, w, rw b refl)
        | inr b ↦ (summary sv (length bs) st, st.strategy, st.world, rw (b, e, rollout) refl)
      ]
