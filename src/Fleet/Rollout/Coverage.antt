-- ===== src/Fleet/Rollout/Coverage.antt =====
-- What a rollout that is not aborted has done for every bot (src/fleet/rollout-orchestrator.ts).
use platform_core.Base.{
  ℕ, ◌≡◌, refl, sym, ◌⊎◌, inl, inr, Bool, true, ◌&&◌, List, [], ◌∷◌, ◌++◌, filter, includes, any,
  ◌==◌, ==_iff, nat_eq, Bool-cases, if_ind,
}
use platform_core.Fleet.Rollout.Strategy.{BotProfile, Strategy, FailureAction, on_bot_failure}
use platform_core.Fleet.Rollout.Orchestrator.{
  Services, BotUpdateResult, Rollout, fail_count, update_bot, with_action, after_update,
  process_batch,
}
use platform_core.Fleet.Rollout.Potential.{process_batch-aborted}
use platform_core.Fleet.Rollout.Termination.{ids}

module _ {A : Type 0} (p : A → Bool) where
  pub any-append : (xs ys : List A) → any p xs ≡ true → any p (xs ++ ys) ≡ true
  any-append [] ys h = absurd cc
  any-append (x ∷ xs) ys h = elim (Bool-cases (p x)) [
    | inl b ↦ rw b refl
    | inr b ↦ rw b (any-append xs ys (rw b at h))
  ]

  pub any-append_right : (xs ys : List A) → any p ys ≡ true → any p (xs ++ ys) ≡ true
  any-append_right [] ys h = h
  any-append_right (x ∷ xs) ys h = elim (Bool-cases (p x)) [
    | inl b ↦ rw b refl
    | inr b ↦ rw b (any-append_right xs ys h)
  ]

  pub any-filter :
      (q : A → Bool) (xs : List A)
      → ((x : A) → p x ≡ true → q x ≡ true)
      → any p xs ≡ true
      → any p (filter q xs) ≡ true
  any-filter q [] k h = h
  any-filter q (x ∷ xs) k h = elim (Bool-cases (p x)) [
    | inl b ↦ rw (k x b, b) refl
    | inr b ↦
        if_ind (λ ys. any p ys ≡ true) (q x) (x ∷ filter q xs) (filter q xs)
          (λ _. rw b (any-filter q xs k (rw b at h))) (λ _. any-filter q xs k (rw b at h))
  ]

-- Whether a bot has a result of a kind, and whether it is in a list.
abbrev pub covered : (BotUpdateResult → Bool) → ℕ → List BotUpdateResult → Bool
covered mark id rs = any (λ (r : BotUpdateResult). (r.bot_id == id) && mark r) rs

abbrev pub pending : ℕ → List BotProfile → Bool
pending id bs = any (λ (b : BotProfile). b.id == id) bs

module _ {W : Type 0} (sv : Services W) (mark : BotUpdateResult → Bool) where
  abbrev pub Settled : ℕ → Rollout W → Type 0
  Settled id st = (covered mark id st.results ≡ true) ⊎ (pending id st.retries ≡ true)

  with_action-Settled :
      (id : ℕ) (p : BotProfile) (act : FailureAction × Strategy) (st : Rollout W)
      → Settled id st
      → Settled id (with_action sv p act st)
  with_action-Settled id p (FailureAction.abort, s) st h = h
  with_action-Settled id p (FailureAction.skip, s) st h = h
  with_action-Settled id p (FailureAction.retry, s) st (inl h) = inl h
  with_action-Settled id p (FailureAction.retry, s) st (inr h) =
      inr (any-append (λ (b : BotProfile). b.id == id) st.retries (p ∷ []) h)

  -- What is settled stays so.
  after_update-Settled :
      (id : ℕ) (p : BotProfile) (st : Rollout W) → Settled id st → Settled id (after_update sv p st)
  unfolding after_update
  after_update-Settled id p st h =
      let (r, w) = update_bot sv p st.world in
      let st' : Rollout W = record st { results = st.results ++ (r ∷ []); world = w } in
      let h' : Settled id st' = more r h in
      if_ind (Settled id) r.success st'
        (with_action sv p (on_bot_failure st.strategy (fail_count p.id st'.results)) st') (λ _. h')
        (λ _.
          with_action-Settled id p (on_bot_failure st.strategy (fail_count p.id st'.results)) st'
            h')
    where
      more :
          (r : BotUpdateResult)
          → Settled id st
          → (covered mark id (st.results ++ (r ∷ [])) ≡ true) ⊎ (pending id st.retries ≡ true)
      more r (inl c) =
          inl
            (any-append (λ (q : BotUpdateResult). (q.bot_id == id) && mark q) st.results (r ∷ []) c)
      more r (inr c) = inr c

  pub process_batch-Settled :
      (id : ℕ) (ps : List BotProfile) (st : Rollout W)
      → Settled id st
      → Settled id (process_batch sv ps st)
  unfolding process_batch
  process_batch-Settled id [] st h = h
  process_batch-Settled id (p ∷ ps) st h =
      if_ind (Settled id) st.aborted st (process_batch sv ps (after_update sv p st)) (λ _. h)
        (λ _. process_batch-Settled id ps (after_update sv p st) (after_update-Settled id p st h))

  -- A strategy that settles each bot it updates, or aborts, and keeps doing so.
  abbrev pub Settles : (Strategy → Type 0) → Type 0
  Settles Good =
      (p : BotProfile) (st : Rollout W)
      → Good st.strategy
      → Good (after_update sv p st).strategy
        × (((after_update sv p st).aborted ≡ true) ⊎ Settled p.id (after_update sv p st))

  pub process_batch-Good :
      (Good : Strategy → Type 0) (ps : List BotProfile) (st : Rollout W)
      → Settles Good
      → Good st.strategy
      → Good (process_batch sv ps st).strategy
  unfolding process_batch
  process_batch-Good Good [] st law g = g
  process_batch-Good Good (p ∷ ps) st law g =
      if_ind (λ (out : Rollout W). Good out.strategy) st.aborted st
        (process_batch sv ps (after_update sv p st)) (λ _. g)
        (λ _. process_batch-Good Good ps (after_update sv p st) law (law p st g).0)

  Settled-eq : (i j : ℕ) (st : Rollout W) → i ≡ j → Settled i st → Settled j st
  Settled-eq i j st e h = rw (sym e) h

  -- A batch that does not abort settles its bots.
  pub process_batch-batch :
      (Good : Strategy → Type 0) (id : ℕ) (ps : List BotProfile) (st : Rollout W)
      → Settles Good
      → Good st.strategy
      → includes (ids ps) id ≡ true
      → ((process_batch sv ps st).aborted ≡ true) ⊎ Settled id (process_batch sv ps st)
  unfolding process_batch
  process_batch-batch Good id [] st law g h = absurd cc
  process_batch-batch Good id (p ∷ ps) st law g h =
      if_ind (λ (out : Rollout W). (out.aborted ≡ true) ⊎ Settled id out) st.aborted st
        (process_batch sv ps (after_update sv p st)) (λ a. inl a)
        (λ _. elim (Bool-cases (p.id == id)) [
          | inl b ↦ first ((==_iff p.id id).0 b) (law p st g).1
          | inr b ↦
              process_batch-batch Good id ps (after_update sv p st) law (law p st g).0 (rw b at h)
        ])
    where
      first :
          p.id ≡ id
          → ((after_update sv p st).aborted ≡ true) ⊎ Settled p.id (after_update sv p st)
          → ((process_batch sv ps (after_update sv p st)).aborted ≡ true)
            ⊎ Settled id (process_batch sv ps (after_update sv p st))
      first i (inl a) = inl (process_batch-aborted sv ps (after_update sv p st) a)
      first i (inr s) = inr (
          process_batch-Settled id ps (after_update sv p st)
            (Settled-eq p.id id (after_update sv p st) i s))
