-- ===== src/Metering/Failing.antt =====
-- A batch that fails (the catch of `flush`): each of its events is retried or dead.
use platform_core.Base.{
  ℕ, ◌≡◌, refl, Bool, true, ◌||◌, ◌⊎◌, ◌==◌, List, [], ◌∷◌, includes, leb, nat_eq, arith,
  Bool-cases, inl, inr,
}
use platform_core.Base.Loops.{for_each}
use platform_core.Metering.Types.{IdEvent, ids}
use platform_core.Metering.Dlq.{dead_ids}
use platform_core.Metering.Members.{includes-ids-append, includes-dead_ids-append}
use platform_core.Metering.Emitter.{Config, Failures, fail_event, retries_of}

abbrev pub retried : ℕ → Failures → Bool
retried i x = includes (ids x.to_retry) i

abbrev pub taken_off : ℕ → Failures → Bool
taken_off i x = includes (ids x.to_dlq) i

abbrev pub dead : ℕ → Failures → Bool
dead i x = includes (dead_ids x.dlq) i

-- An event `e` that fails is retried, or taken off the log and dead.
abbrev pub FailsOne : ℕ → IdEvent → Failures → Failures → Type 0
FailsOne i e x y =
    ((retried i y ≡ (retried i x || (e.id == i)))
      × (taken_off i y ≡ taken_off i x)
      × (dead i y ≡ dead i x))
    ⊎ ((retried i y ≡ retried i x)
        × (taken_off i y ≡ (taken_off i x || (e.id == i)))
        × (dead i y ≡ (dead i x || (e.id == i))))

-- The id of a batch that fails is dead or retried, and what is taken off the log is dead.
abbrev pub FailsAll : ℕ → List IdEvent → Failures → Failures → Type 0
FailsAll i batch x y =
    (retried i x ≡ true → retried i y ≡ true)
    × (dead i x ≡ true → dead i y ≡ true)
    × (includes (ids batch) i ≡ true → (dead i y || retried i y) ≡ true)
    × ((taken_off i x ≡ true → dead i x ≡ true) → taken_off i y ≡ true → dead i y ≡ true)

FailsAll-cons :
    (i : ℕ) (e : IdEvent) (es : List IdEvent) (x x' y : Failures)
    → FailsOne i e x x'
    → FailsAll i es x' y
    → FailsAll i (e ∷ es) x y
FailsAll-cons i e es x x' y (inl (r, t, d)) (hr, hd, hb, ht) =
    (λ h. hr (ground arith), λ h. hd (ground arith), λ h. ground arith, λ k. ht (λ h. ground arith))
FailsAll-cons i e es x x' y (inr (r, t, d)) (hr, hd, hb, ht) =
    (λ h. hr (ground arith), λ h. hd (ground arith), λ h. ground arith, λ k. ht (λ h. ground arith))

module _ (cfg : Config) (now : ℕ) (i : ℕ) where
  fail_event-FailsOne : (e : IdEvent) (x : Failures) → FailsOne i e x (fail_event cfg now e x)
  unfolding fail_event
  fail_event-FailsOne e x =
      elim (Bool-cases (leb cfg.max_retries (retries_of x.retry_count e.id))) [
        | inl late ↦ inr (
          rw late refl,
          rw late (ground (arith, includes-ids-append x.to_dlq (e ∷ []) i)),
          rw late (includes-dead_ids-append now _ x.dlq e i),
        )
        | inr early ↦ inl (
          rw early (ground (arith, includes-ids-append x.to_retry (e ∷ []) i)),
          rw early refl,
          rw early refl,
        )
      ]

  pub for_each-FailsAll :
      (batch : List IdEvent) (x : Failures)
      → FailsAll i batch x (for_each (fail_event cfg now) batch x)
  unfolding for_each
  for_each-FailsAll [] x = (λ h. h, λ h. h, λ h. cc, λ h. h)
  for_each-FailsAll (e ∷ es) x =
      FailsAll-cons i e es x (fail_event cfg now e x)
        (for_each (fail_event cfg now) es (fail_event cfg now e x)) (fail_event-FailsOne e x)
        (for_each-FailsAll es (fail_event cfg now e x))
