-- ===== src/Fleet/Rollout/Outcome.antt =====
-- What a rollout that is not aborted has done for every bot (src/fleet/rollout-orchestrator.ts,
-- src/fleet/rollout-strategy.ts).
use mathlib.Core.Option.{get_or}
use platform_core.Base.{
  ⊤, ℕ, zero, suc, ◌≡◌, refl, sym, ◌∙◌, ap, ◌⊎◌, inl, inr, Bool, true, false, not, ◌&&◌, Option,
  some, List, [], ◌∷◌, ◌++◌, filter, includes, ◌==◌, ==_iff, if◌then◌else◌, nat_eq, Bool-cases,
  ==_refl, if_ind, ltb,
}
use platform_core.Fleet.Rollout.Strategy.{BotProfile, Strategy, FailureAction, on_bot_failure}
use platform_core.Fleet.Rollout.Orchestrator.{
  Services, BotUpdateResult, Rollout, fail_count, update_bot, with_action, after_update,
  process_batch, remaining_after, run_waves, start,
}
use platform_core.Fleet.Rollout.Potential.{update_bot-bot_id}
use platform_core.Fleet.Rollout.Termination.{next_batch-append, ids}
use platform_core.Fleet.Rollout.Coverage.{
  any-append, any-append_right, any-filter, covered, pending, Settled, Settles,
  process_batch-Settled, process_batch-Good, process_batch-batch,
}

module _ {W : Type 0} (sv : Services W) (mark : BotUpdateResult → Bool) where
  -- A bot is dealt with or still to come.
  abbrev Open : ℕ → List BotProfile → Rollout W → Type 0
  Open id bs st = (covered mark id st.results ≡ true) ⊎ (pending id bs ≡ true)

  pending-kept :
      (id : ℕ) (batch bs : List BotProfile)
      → includes (ids batch) id ≡ false
      → pending id bs ≡ true
      → pending id (filter (λ (b : BotProfile). not (includes (ids batch) b.id)) bs) ≡ true
  pending-kept id batch bs out h =
      any-filter (λ (b : BotProfile). b.id == id)
        (λ (b : BotProfile). not (includes (ids batch) b.id)) bs
        (λ b e. rw ((==_iff b.id id).0 e, out) refl) h

  -- After a wave that does not abort.
  wave-Open :
      (Good : Strategy → Type 0) (id : ℕ) (batch bs : List BotProfile) (st : Rollout W)
      → Settles sv mark Good
      → Good st.strategy
      → (process_batch sv batch (record st { retries = [] })).aborted ≡ false
      → Open id bs st
      → Open id
          (remaining_after sv batch
            (process_batch sv batch (record st { retries = [] })).retries
            bs)
          (process_batch sv batch (record st { retries = [] }))
  wave-Open Good id batch bs st law g go (inl c) =
      settled (process_batch-Settled sv mark id batch (record st { retries = [] }) (inl c))
    where
      settled :
          Settled sv mark id (process_batch sv batch (record st { retries = [] }))
          → Open id
              (remaining_after sv batch
                (process_batch sv batch (record st { retries = [] })).retries
                bs)
              (process_batch sv batch (record st { retries = [] }))
      settled (inl x) = inl x
      settled (inr x) = inr (
          any-append_right (λ (b : BotProfile). b.id == id)
            (filter (λ (b : BotProfile). not (includes (ids batch) b.id)) bs) _ x)
  wave-Open Good id batch bs st law g go (inr p) = elim (Bool-cases (includes (ids batch) id)) [
    | inl b ↦
        settled (process_batch-batch sv mark Good id batch (record st { retries = [] }) law g b)
    | inr b ↦ inr (
        any-append (λ (b : BotProfile). b.id == id)
          (filter (λ (b : BotProfile). not (includes (ids batch) b.id)) bs) _
          (pending-kept id batch bs b p))
  ]
    where
      settled :
          ((process_batch sv batch (record st { retries = [] })).aborted ≡ true)
            ⊎ Settled sv mark id (process_batch sv batch (record st { retries = [] }))
          → Open id
              (remaining_after sv batch
                (process_batch sv batch (record st { retries = [] })).retries
                bs)
              (process_batch sv batch (record st { retries = [] }))
      settled (inl a) = absurd cc
      settled (inr (inl x)) = inl x
      settled (inr (inr x)) = inr (
          any-append_right (λ (b : BotProfile). b.id == id)
            (filter (λ (b : BotProfile). not (includes (ids batch) b.id)) bs) _ x)

  -- A rollout that ends and is not aborted has dealt with each bot that was open.
  pub run_waves-covered :
      (Good : Strategy → Type 0) (fuel id : ℕ) (bs : List BotProfile) (st : Rollout W)
      {out : Rollout W}
      → Settles sv mark Good
      → Good st.strategy
      → run_waves sv fuel bs st ≡ some out
      → out.aborted ≡ false
      → Open id bs st
      → covered mark id out.results ≡ true
  unfolding run_waves
  run_waves-covered Good fuel id [] st law g h go (inl c) =
      sym (ap (λ (o : Option (Rollout W)). covered mark id (get_or o st).results) h) ∙ c
  run_waves-covered Good fuel id [] st law g h go (inr c) = absurd cc
  run_waves-covered Good zero id (b ∷ bs) st law g h go o = absurd cc
  run_waves-covered Good (suc fuel) id (b ∷ bs) st {out} law g h go o =
      let (c, cs, rest, n, e) = next_batch-append st.strategy b bs in
      let end = process_batch sv (c ∷ cs) (record st { retries = [] }) in
      let more = run_waves sv fuel (remaining_after sv (c ∷ cs) end.retries (b ∷ bs)) end in
      branch end end.aborted more (rw (n, run_waves) at h) (λ a q. absurd (clash end a q))
        (λ a k.
          run_waves-covered Good fuel id (remaining_after sv (c ∷ cs) end.retries (b ∷ bs)) end law
            (process_batch-Good sv mark Good (c ∷ cs) (record st { retries = [] }) law g) k go
            (wave-Open Good id (c ∷ cs) (b ∷ bs) st law g a o))
    where
      branch :
          (end : Rollout W) (a : Bool) (more : Option (Rollout W)) {P : Type 0}
          → (if a then some end else more) ≡ some out
          → (a ≡ true → end ≡ out → P)
          → (a ≡ false → more ≡ some out → P)
          → P
      branch end true more h f k = f refl (ap (λ (o : Option (Rollout W)). get_or o end) h)
      branch end false more h f k = k refl h

      clash : (end : Rollout W) → end.aborted ≡ true → end ≡ out → ⊥
      clash end a q =
          let x : true ≡ false = sym a ∙ ap (λ (o : Rollout W). o.aborted) q ∙ go in absurd cc

-- The last result covers its bot.
covered_last :
    (mark : BotUpdateResult → Bool) (id : ℕ) (rs : List BotUpdateResult) (r : BotUpdateResult)
    → r.bot_id ≡ id
    → mark r ≡ true
    → covered mark id (rs ++ (r ∷ [])) ≡ true
covered_last mark id rs r i m =
    any-append_right (λ (q : BotUpdateResult). (q.bot_id == id) && mark q) rs (r ∷ [])
      (rw (m, i, ==_refl id) refl)

with_action-results :
    {W : Type 0} (sv : Services W) (p : BotProfile) (act : FailureAction × Strategy)
    (st : Rollout W)
    → (with_action sv p act st).results ≡ st.results
with_action-results sv p (FailureAction.abort, s) st = refl
with_action-results sv p (FailureAction.skip, s) st = refl
with_action-results sv p (FailureAction.retry, s) st = refl

-- Every update leaves a result of its bot.
update-Settles : {W : Type 0} (sv : Services W) → Settles sv (λ _. true) (λ _. ⊤)
unfolding after_update
update-Settles {W} sv p st g =
    let (r, w) = update_bot sv p st.world in
    let st' : Rollout W = record st { results = st.results ++ (r ∷ []); world = w } in
    let act = on_bot_failure st.strategy (fail_count p.id st'.results) in
    let c = covered_last (λ _. true) p.id st.results r (update_bot-bot_id sv p st.world) refl in
    (
      tt,
      inr (
          inl (
            if_ind (λ (out : Rollout W). covered (λ _. true) p.id out.results ≡ true) r.success st'
              (with_action sv p act st') (λ _. c) (λ _. rw (with_action-results sv p act st') c))),
    )

-- A rollout that is not aborted has a result for each bot that was to be updated, whatever the
-- strategy: none is dropped without an attempt.
pub run_waves-attempts_all :
    {W : Type 0} (sv : Services W) (fuel : ℕ) (s : Strategy) (bs : List BotProfile) (w : W) (id : ℕ)
    {out : Rollout W}
    → run_waves sv fuel bs (start sv s w) ≡ some out
    → out.aborted ≡ false
    → pending id bs ≡ true
    → covered (λ _. true) id out.results ≡ true
run_waves-attempts_all sv fuel s bs w id h go p =
    run_waves-covered sv (λ _. true) (λ _. ⊤) fuel id bs (start sv s w) (update-Settles sv) tt h go
      (inr p)

-- The single-bot strategy retries or aborts.
abbrev IsSingle : Strategy → Type 0
IsSingle s = s ≡ Strategy.single_bot

abbrev SingleStep : {W : Type 0} → Services W → BotProfile → Rollout W → Type 0
SingleStep sv p out =
    IsSingle out.strategy × ((out.aborted ≡ true) ⊎ Settled sv (λ r. r.success) p.id out)

single_failure :
    {W : Type 0} (sv : Services W) (p : BotProfile) (n : ℕ) (s : Strategy) (st : Rollout W)
    → s ≡ Strategy.single_bot
    → SingleStep sv p (with_action sv p (on_bot_failure s n) st)
unfolding on_bot_failure
single_failure sv p n s st g = elim (Bool-cases (ltb n 3)) [
  | inl b ↦
      rw (g, b)
        (
          refl,
          inr (
              inr (
                any-append_right (λ (b : BotProfile). b.id == p.id) st.retries (p ∷ [])
                  (rw (==_refl p.id) refl))),
        )
  | inr b ↦ rw (g, b) (refl, inl refl)
]

IsSingle-Settles : {W : Type 0} (sv : Services W) → Settles sv (λ r. r.success) IsSingle
unfolding after_update
IsSingle-Settles {W} sv p st g =
    let (r, w) = update_bot sv p st.world in
    let st' : Rollout W = record st { results = st.results ++ (r ∷ []); world = w } in
    let n = fail_count p.id st'.results in
    if_ind (SingleStep sv p) r.success st' (with_action sv p (on_bot_failure st.strategy n) st')
      (λ ok. (
        g,
        inr (
            inl (
              covered_last (λ q. q.success) p.id st.results r (update_bot-bot_id sv p st.world)
                ok)),
      ))
      (λ _. single_failure sv p n st.strategy st' g)

-- A rollout of the single-bot strategy that is not aborted has updated every bot with success.
pub run_waves-single_bot :
    {W : Type 0} (sv : Services W) (fuel : ℕ) (bs : List BotProfile) (w : W) (id : ℕ)
    {out : Rollout W}
    → run_waves sv fuel bs (start sv Strategy.single_bot w) ≡ some out
    → out.aborted ≡ false
    → pending id bs ≡ true
    → covered (λ r. r.success) id out.results ≡ true
run_waves-single_bot sv fuel bs w id h go p =
    run_waves-covered sv (λ r. r.success) IsSingle fuel id bs (start sv Strategy.single_bot w)
      (IsSingle-Settles sv) refl h go (inr p)
