-- ===== src/Fleet/Rollout/Potential.antt =====
-- A measure of what a rollout has left to do (src/fleet/rollout-orchestrator.ts): a bot that is left
-- counts once, and once for each failure that its strategy would still retry.
use platform_core.Base.{
  ℕ, suc, ◌+◌, ◌-◌, ◌≤◌, ◌≡◌, refl, ◌∙◌, ap, ◌⊎◌, inl, inr, Bool, true, false, not, ◌&&◌, Option,
  none, some, List, [], ◌∷◌, ◌++◌, length, filter, ◌==◌, if◌then◌else◌, nat_eq, arith, Bool-cases,
  ==_refl, length-append, if_ind,
}
use platform_core.Fleet.Rollout.Strategy.{
  BotProfile, Strategy, FailureAction, max_retries, on_bot_failure,
}
use platform_core.Fleet.Rollout.Orchestrator.{
  Services, BotUpdateResult, Rollout, fail_count, settle, take_snapshots, update_bot, with_action,
  after_update, process_batch,
}

abbrev pub weight : ℕ → List BotUpdateResult → BotProfile → ℕ
weight tries rs b = suc (tries - fail_count b.id rs)

abbrev pub total : ℕ → List BotUpdateResult → List BotProfile → ℕ
total tries rs [] = 0
total tries rs (b ∷ bs) = weight tries rs b + total tries rs bs

pub total-append :
    (tries : ℕ) (rs : List BotUpdateResult) (xs bs : List BotProfile)
    → total tries rs (xs ++ bs) ≡ total tries rs xs + total tries rs bs
total-append tries rs [] bs = omega arith
total-append tries rs (a ∷ xs) bs = omega (arith, total-append tries rs xs bs)

filter-append :
    {A : Type 0} (p : A → Bool) (xs ys : List A) → filter p (xs ++ ys) ≡ filter p xs ++ filter p ys
filter-append p [] ys = refl
filter-append p (x ∷ xs) ys = elim (Bool-cases (p x)) [
  | inl b ↦ rw (b, filter-append p xs ys) refl
  | inr b ↦ rw (b, filter-append p xs ys) refl
]

-- The failures of a bot, with one more result.
pub fail_count-append :
    (id : ℕ) (rs : List BotUpdateResult) (r : BotUpdateResult)
    → fail_count id (rs ++ (r ∷ []))
      ≡ fail_count id rs + (if (r.bot_id == id) && not r.success then 1 else 0)
fail_count-append id rs r =
    ap length (filter-append failed rs (r ∷ []))
    ∙ length-append (filter failed rs) (filter failed (r ∷ []))
    ∙ ap (λ n. fail_count id rs + n) (one ((r.bot_id == id) && not r.success))
  where
    failed : BotUpdateResult → Bool
    failed q = (q.bot_id == id) && not q.success

    one : (b : Bool) → length (if b then r ∷ [] else []) ≡ (if b then 1 else 0)
    one true = refl
    one false = refl

-- More results never raise the measure.
abbrev pub Grows : List BotUpdateResult → List BotUpdateResult → Type 0
Grows rs rs' = (id : ℕ) → fail_count id rs ≤ fail_count id rs'

pub total-Grows :
    (tries : ℕ) (rs rs' : List BotUpdateResult) (bs : List BotProfile)
    → Grows rs rs'
    → total tries rs' bs ≤ total tries rs bs
total-Grows tries rs rs' [] g = omega arith
total-Grows tries rs rs' (b ∷ bs) g = omega (arith, g b.id, total-Grows tries rs rs' bs g)

pub Grows-one : (rs : List BotUpdateResult) (r : BotUpdateResult) → Grows rs (rs ++ (r ∷ []))
Grows-one rs r id = omega (arith, fail_count-append id rs r)

-- A failed result of a bot counts.
pub failed_one :
    (id : ℕ) (rs : List BotUpdateResult) (r : BotUpdateResult)
    → r.bot_id ≡ id
    → r.success ≡ false
    → fail_count id (rs ++ (r ∷ [])) ≡ suc (fail_count id rs)
failed_one id rs r i bad = fail_count-append id rs r ∙ rw (i, ==_refl id, bad) (omega arith)

-- A strategy retries only below its number of tries, which it keeps.
pub on_bot_failure-max_retries :
    (s : Strategy) (attempt : ℕ) → max_retries (on_bot_failure s attempt).1 ≡ max_retries s
unfolding on_bot_failure
on_bot_failure-max_retries (Strategy.rolling_wave b p m t) attempt = ground arith
on_bot_failure-max_retries Strategy.single_bot attempt = ground arith
on_bot_failure-max_retries Strategy.immediate attempt = refl

pub on_bot_failure-retry :
    (s : Strategy) (attempt : ℕ)
    → (on_bot_failure s attempt).0 ≡ FailureAction.retry
    → suc attempt ≤ max_retries s
unfolding on_bot_failure
on_bot_failure-retry (Strategy.rolling_wave b p m t) attempt h = ground arith
on_bot_failure-retry Strategy.single_bot attempt h = ground arith
on_bot_failure-retry Strategy.immediate attempt h = absurd cc

module _ {W : Type 0} (sv : Services W) where
  pub update_bot-bot_id : (p : BotProfile) (w : W) → (update_bot sv p w).0.bot_id ≡ p.id
  unfolding update_bot
  update_bot-bot_id p w =
      settled (take_snapshots sv p.volume_name w).0
        (sv.update_container p.id (take_snapshots sv p.volume_name w).1).0
        (sv.update_container p.id (take_snapshots sv p.volume_name w).1).1
    where
      settled : (is : List ℕ) (o : Option Bool) (v : W) → (settle sv p.id is o v).0.bot_id ≡ p.id
      settled is none v = refl
      settled is (some true) v = refl
      settled is (some false) v = refl

  -- What an update does to the measure: it grows the results, keeps the number of tries, and lowers
  -- the measure of the bot and of those to retry, or aborts.
  abbrev pub Lowers : Rollout W → Rollout W → ℕ → ℕ → Type 0
  Lowers st st' before n =
      Grows st.results st'.results
      × (max_retries st'.strategy ≡ max_retries st.strategy)
      × ((st'.aborted ≡ true)
          ⊎ (total (max_retries st.strategy) st'.results st'.retries + n
              ≤ total (max_retries st.strategy) st.results st.retries + before))

  with_action-Lowers :
      (p : BotProfile) (st : Rollout W) (rs : List BotUpdateResult) (w : W)
      (act : FailureAction × Strategy)
      → Grows st.results rs
      → max_retries act.1 ≡ max_retries st.strategy
      → (act.0 ≡ FailureAction.retry → suc (fail_count p.id rs) ≤ max_retries st.strategy)
      → fail_count p.id rs ≡ suc (fail_count p.id st.results)
      → Lowers st
          (with_action sv p act (record st { results = rs; world = w }))
          (weight (max_retries st.strategy) st.results p)
          1
  with_action-Lowers p st rs w (FailureAction.abort, s) g m c f = (g, m, inl refl)
  with_action-Lowers p st rs w (FailureAction.skip, s) g m c f =
      (g, m, inr (omega (arith, total-Grows (max_retries st.strategy) st.results rs st.retries g)))
  with_action-Lowers p st rs w (FailureAction.retry, s) g m c f = (g, m, inr (retried (c refl)))
    where
      retried :
          suc (fail_count p.id rs) ≤ max_retries st.strategy
          → total (max_retries st.strategy) rs (st.retries ++ (p ∷ [])) + 1
            ≤ total (max_retries st.strategy) st.results st.retries
              + weight (max_retries st.strategy) st.results p
      retried room = omega (
        arith,
        f,
        room,
        total-append (max_retries st.strategy) rs st.retries (p ∷ []),
        total-Grows (max_retries st.strategy) st.results rs st.retries g,
      )

  pub after_update-Lowers :
      (p : BotProfile) (st : Rollout W)
      → Lowers st (after_update sv p st) (weight (max_retries st.strategy) st.results p) 1
  unfolding after_update
  after_update-Lowers p st =
      let r = (update_bot sv p st.world).0 in
      let rs = st.results ++ (r ∷ []) in
      let g : Grows st.results rs = Grows-one st.results r in
      elim (Bool-cases r.success) [
        | inl ok ↦ rw ok (
          g,
          refl,
          inr (omega (arith, total-Grows (max_retries st.strategy) st.results rs st.retries g)),
        )
        | inr bad ↦ rw bad (
            with_action-Lowers p st rs (update_bot sv p st.world).1
              (on_bot_failure st.strategy (fail_count p.id rs)) g
              (on_bot_failure-max_retries st.strategy (fail_count p.id rs))
              (on_bot_failure-retry st.strategy (fail_count p.id rs))
              (failed_one p.id st.results r (update_bot-bot_id p st.world) bad))
      ]

  pub process_batch-aborted :
      (ps : List BotProfile) (st : Rollout W)
      → st.aborted ≡ true
      → (process_batch sv ps st).aborted ≡ true
  unfolding process_batch
  process_batch-aborted [] st a = a
  process_batch-aborted (p ∷ ps) st a = rw a refl

  Lowers-trans :
      (st st1 st2 : Rollout W) (p : BotProfile) (ps : List BotProfile)
      → (st1.aborted ≡ true → st2.aborted ≡ true)
      → Lowers st st1 (weight (max_retries st.strategy) st.results p) 1
      → Lowers st1 st2 (total (max_retries st1.strategy) st1.results ps) (length ps)
      → Lowers st st2 (total (max_retries st.strategy) st.results (p ∷ ps)) (suc (length ps))
  Lowers-trans st st1 st2 p ps stays (g1, m1, h1) (g2, m2, h2) =
      (λ id. omega (arith, g1 id, g2 id), m2 ∙ m1, joined h1 h2)
    where
      joined :
          ((st1.aborted ≡ true)
            ⊎ (total (max_retries st.strategy) st1.results st1.retries + 1
                ≤ total (max_retries st.strategy) st.results st.retries
                  + weight (max_retries st.strategy) st.results p))
          → ((st2.aborted ≡ true)
              ⊎ (total (max_retries st1.strategy) st2.results st2.retries + length ps
                  ≤ total (max_retries st1.strategy) st1.results st1.retries
                    + total (max_retries st1.strategy) st1.results ps))
          → ((st2.aborted ≡ true)
              ⊎ (total (max_retries st.strategy) st2.results st2.retries + suc (length ps)
                  ≤ total (max_retries st.strategy) st.results st.retries
                    + total (max_retries st.strategy) st.results (p ∷ ps)))
      joined (inl a) k = inl (stays a)
      joined (inr h) (inl a) = inl a
      joined (inr h) (inr k) =
          let k' = rw m1 at k in
          inr (
            omega
              (arith, h, k', total-Grows (max_retries st.strategy) st.results st1.results ps g1))

  -- The same of a batch, each of whose bots is worth one at least.
  pub process_batch-Lowers :
      (batch : List BotProfile) (st : Rollout W)
      → Lowers st
          (process_batch sv batch st)
          (total (max_retries st.strategy) st.results batch)
          (length batch)
  unfolding process_batch
  process_batch-Lowers [] st = (λ id. omega arith, refl, inr (omega arith))
  process_batch-Lowers (p ∷ ps) st =
      if_ind
        (λ (out : Rollout W).
          Lowers st out (total (max_retries st.strategy) st.results (p ∷ ps)) (suc (length ps)))
        st.aborted st (process_batch sv ps (after_update sv p st))
        (λ a. (λ id. omega arith, refl, inl a))
        (λ _.
          Lowers-trans st (after_update sv p st) (process_batch sv ps (after_update sv p st)) p ps
            (process_batch-aborted ps (after_update sv p st)) (after_update-Lowers p st)
            (process_batch-Lowers ps (after_update sv p st)))
