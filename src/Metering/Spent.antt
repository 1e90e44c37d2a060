-- ===== src/Metering/Spent.antt =====
-- What becomes of each event of a batch that fails (the catch of `flush`, src/metering/emitter.ts).
use platform_core.Base.{
  ℕ, ◌≡◌, refl, sym, ap, ◌∙◌, Bool, true, false, not, ◌==◌, List, [], ◌∷◌, ◌++◌, filter, includes,
  leb, nat_eq, arith, All, Bool-cases, inl, inr,
}
use platform_core.Base.Dict.{Dict, lookup, upsert, lookup-upsert, lookup-remove}
use platform_core.Base.Loops.{for_each}
use platform_core.Metering.Types.{IdEvent, ids}
use platform_core.Metering.Wal.{without, read_all}
use platform_core.Metering.WalLaws.{read_all-remove}
use platform_core.Metering.Dlq
use platform_core.Metering.Dlq.{DlqEntry, dead_ids}
use platform_core.Metering.Repository.{exists_by_id}
use platform_core.Metering.Flush.{clashes, append_shift}
use platform_core.Metering.Emitter.{Config, Emitter, Failures, fail_event, fail_batch, retries_of}
use mathlib.Core.List.{append-nil}

-- With this failure the event has failed as often as it may.
abbrev pub is_spent : Config → Dict ℕ ℕ → IdEvent → Bool
is_spent cfg counts e = leb cfg.max_retries (retries_of counts e.id)

abbrev pub spent : Config → Dict ℕ ℕ → List IdEvent → List IdEvent
spent cfg counts = filter (is_spent cfg counts)

abbrev pub to_try : Config → Dict ℕ ℕ → List IdEvent → List IdEvent
to_try cfg counts = filter (λ (e : IdEvent). not (is_spent cfg counts e))

dead_ids-append :
    (now retries : ℕ) (q : List DlqEntry) (e : IdEvent)
    → dead_ids (Dlq.append e now retries q) ≡ dead_ids q ++ e.id ∷ []
unfolding Dlq.append
dead_ids-append now retries [] e = refl
dead_ids-append now retries (d ∷ q) e =
    ap (λ (is : List ℕ). d.event.id ∷ is) (dead_ids-append now retries q e)

grown {ℓ} :
    {A : Type ℓ} {ys zs : List A} (xs : List A) (y : A) (rest : List A)
    → ys ≡ xs ++ y ∷ []
    → zs ≡ ys ++ rest
    → zs ≡ xs ++ y ∷ rest
grown xs y rest p q = q ∙ ap (λ ws. ws ++ rest) p ∙ append_shift xs y rest

module _ (cfg : Config) (now : ℕ) where
  fail_event-other :
      (e : IdEvent) (x : Failures) (i : ℕ)
      → (e.id == i) ≡ false
      → lookup i (fail_event cfg now e x).retry_count ≡ lookup i x.retry_count
  unfolding fail_event
  fail_event-other e x i b =
      let counts = upsert e.id (retries_of x.retry_count e.id) x.retry_count in
      let kept : (lookup i counts ≡ lookup i x.retry_count) =
        lookup-upsert e.id i (retries_of x.retry_count e.id) x.retry_count ∙ rw b refl in
      elim (Bool-cases (leb cfg.max_retries (retries_of x.retry_count e.id))) [
        | inl late ↦ rw late (lookup-remove e.id i counts ∙ rw b kept)
        | inr early ↦ rw early kept
      ]

  fail_event-late :
      (e : IdEvent) (x : Failures)
      → leb cfg.max_retries (retries_of x.retry_count e.id) ≡ true
      → let y = fail_event cfg now e x in
        (y.to_retry ≡ x.to_retry)
        × (y.to_dlq ≡ x.to_dlq ++ e ∷ [])
        × (dead_ids y.dlq ≡ dead_ids x.dlq ++ e.id ∷ [])
  unfolding fail_event
  fail_event-late e x b =
      rw b (refl, refl, dead_ids-append now (retries_of x.retry_count e.id) x.dlq e)

  fail_event-early :
      (e : IdEvent) (x : Failures)
      → leb cfg.max_retries (retries_of x.retry_count e.id) ≡ false
      → let y = fail_event cfg now e x in
        (y.to_retry ≡ x.to_retry ++ e ∷ [])
        × (y.to_dlq ≡ x.to_dlq)
        × (dead_ids y.dlq ≡ dead_ids x.dlq)
  unfolding fail_event
  fail_event-early e x b = rw b (refl, refl, refl)

  module _ (counts : Dict ℕ ℕ) where
    -- The counters of these events are as they were before the batch failed.
    Agrees : List IdEvent → Failures → Type 0
    Agrees es x = All (λ (d : IdEvent). lookup d.id x.retry_count ≡ lookup d.id counts) es

    fail_event-Agrees :
        (e : IdEvent) (es : List IdEvent) (x : Failures)
        → includes (ids es) e.id ≡ false
        → Agrees es x
        → Agrees es (fail_event cfg now e x)
    unfolding Agrees
    fail_event-Agrees e [] x n h = tt
    fail_event-Agrees e (d ∷ es) x n (q, h) =
        (fail_event-other e x d.id (ground arith) ∙ q, fail_event-Agrees e es x (ground arith) h)

    -- What a failing batch adds.
    Adds : List IdEvent → Failures → Failures → Type 0
    Adds es x y =
        (y.to_retry ≡ x.to_retry ++ to_try cfg counts es)
        × (y.to_dlq ≡ x.to_dlq ++ spent cfg counts es)
        × (dead_ids y.dlq ≡ dead_ids x.dlq ++ ids (spent cfg counts es))

    for_each-Adds :
        (es : List IdEvent) (x : Failures)
        → clashes es [] ≡ false
        → Agrees es x
        → Adds es x (for_each (fail_event cfg now) es x)
    unfolding for_each Agrees exists_by_id Adds
    for_each-Adds [] x n h =
        (sym (append-nil x.to_retry), sym (append-nil x.to_dlq), sym (append-nil (dead_ids x.dlq)))
    for_each-Adds (e ∷ es) x n (q, h) = joined (
        for_each-Adds es (fail_event cfg now e x) (ground arith)
          (fail_event-Agrees e es x (ground arith) h))
      where
        y : Failures
        y = for_each (fail_event cfg now) es (fail_event cfg now e x)

        joined : Adds es (fail_event cfg now e x) y → Adds (e ∷ es) x y
        joined (r, d, l) = elim (Bool-cases (is_spent cfg counts e)) [
          | inl late ↦
              let (r₀, d₀, l₀) = fail_event-late e x (rw q late) in
              rw late (
                r ∙ ap (λ (es' : List IdEvent). es' ++ to_try cfg counts es) r₀,
                grown x.to_dlq e (spent cfg counts es) d₀ d,
                grown (dead_ids x.dlq) e.id (ids (spent cfg counts es)) l₀ l,
              )
          | inr early ↦
              let (r₀, d₀, l₀) = fail_event-early e x (rw q early) in
              rw early (
                grown x.to_retry e (to_try cfg counts es) r₀ r,
                d ∙ ap (λ (es' : List IdEvent). es' ++ spent cfg counts es) d₀,
                l ∙ ap (λ (is : List ℕ). is ++ ids (spent cfg counts es)) l₀,
              )
        ]

  Agrees-itself : (es : List IdEvent) (x : Failures) → Agrees x.retry_count es x
  unfolding Agrees
  Agrees-itself [] x = tt
  Agrees-itself (e ∷ es) x = (refl, Agrees-itself es x)

  pub fail_batch-splits :
      (batch : List IdEvent) (s : Emitter)
      → clashes batch [] ≡ false
      → let t = fail_batch cfg now batch s in
        (t.buffer ≡ to_try cfg s.retry_count batch ++ s.buffer)
        × (read_all t.wal ≡ without (ids (spent cfg s.retry_count batch)) (read_all s.wal))
        × (dead_ids t.dlq ≡ dead_ids s.dlq ++ ids (spent cfg s.retry_count batch))
  unfolding fail_batch Adds
  fail_batch-splits batch s n =
      let x : Failures = record {
        retry_count = s.retry_count;
        dlq = s.dlq;
        to_retry = [];
        to_dlq = [];
      } in
      let (r, d, l) = for_each-Adds s.retry_count batch x n (Agrees-itself batch x) in
      let off = (for_each (fail_event cfg now) batch x).to_dlq in
      (
        ap (λ (es : List IdEvent). es ++ s.buffer) r,
        read_all-remove (ids off) s.wal
            ∙ ap (λ (es : List IdEvent). without (ids es) (read_all s.wal)) d,
        l,
      )
