-- ===== src/Gateway/CircuitBreaker/Race.antt =====
-- Requests of an instance whose statements interleave (src/gateway/circuit-breaker.ts,
-- src/gateway/drizzle-circuit-breaker-repository.ts).
use platform_core.Base.{
  ℕ, zero, suc, ◌+◌, ◌-◌, ◌≡◌, ◌≤◌, refl, ◌∙◌, inl, inr, true, false, Option, none, some, List, ltb,
  leb, arith, All, Bool-cases, Option-cases, ==_refl, nat_eq,
}
use platform_core.Base.Dict.{lookup, upsert, lookup-upsert}
use platform_core.Gateway.Requests.{Request, requests_of, min}
use platform_core.Gateway.CircuitBreaker.{
  CircuitBreakerEntry, States, get, fresh, store_count, increment_or_reset, reset,
  CircuitBreakerConfig, Answer, admit, open_since, circuit_breaker, Phase, advance,
}
use platform_core.Gateway.CircuitBreaker.Window.{passes, is_over}
use platform_core.Gateway.CircuitBreaker.Limit.{InWindow, passes-live}

-- So many statements of one request.
unfoldable steps : CircuitBreakerConfig → ℕ → ℕ → ℕ → Phase × States → Phase × States
unfolding advance
steps cfg instance_id now zero (p, s) = (p, s)
steps cfg instance_id now (suc n) (p, s) =
    steps cfg instance_id now n (advance cfg instance_id now p s)

steps-answered :
    (cfg : CircuitBreakerConfig) (i now n : ℕ) (a : Answer) (s : States)
    → steps cfg i now n (Phase.answered a, s) ≡ (Phase.answered a, s)
unfolding steps advance
steps-answered cfg i now zero a s = refl
steps-answered cfg i now (suc n) a s = steps-answered cfg i now n a s

steps-selecting :
    (cfg : CircuitBreakerConfig) (i now n : ℕ) (s : States)
    → steps cfg i now (suc (suc (suc n))) (Phase.selecting, s)
      ≡ (Phase.answered (admit cfg i now s).0, (admit cfg i now s).1)
unfolding steps advance admit increment_or_reset
steps-selecting cfg i now n s =
    elim (Bool-cases
      (ltb cfg.max_requests_per_window (store_count (lookup i s) i cfg.window_ms now s).0.count)) [
        | inl b ↦ rw b (steps-answered cfg i now n _ _)
        | inr b ↦ rw b (steps-answered cfg i now n _ _)
      ]

-- A request whose five statements follow each other is handled as `circuit_breaker` says.
steps-circuit_breaker :
    (cfg : CircuitBreakerConfig) (i now : ℕ) (s : States)
    → let (answer, s') = circuit_breaker cfg i now s in
      steps cfg i now 5 (Phase.arrived, s) ≡ (Phase.answered answer, s')
unfolding steps advance circuit_breaker
steps-circuit_breaker cfg i now s = elim (Option-cases (open_since (get i s))) [
  | inl e ↦ rw (e, circuit_breaker) (steps-selecting cfg i now 1 s)
  | inr (at, e) ↦ elim (Bool-cases (leb (at + cfg.pause_duration_ms) now)) [
    | inl over ↦ rw (e, over, circuit_breaker) (steps-selecting cfg i now 0 (reset i now s))
    | inr held ↦ rw (e, held, circuit_breaker) (steps-answered cfg i now 4 _ s)
  ]
]

store_count-over :
    (cfg : CircuitBreakerConfig) (i now : ℕ) (o : Option CircuitBreakerEntry) (s : States)
    → open_since o ≡ none
    → is_over cfg now o ≡ true
    → store_count o i cfg.window_ms now s ≡ (fresh now, upsert i (fresh now) s)
unfolding store_count
store_count-over cfg i now none s c h = refl
store_count-over cfg i now (some e) s c h =
    rw (not_live (e.window_start + cfg.window_ms) now (rw c at h)) refl
  where
    not_live : (a b : ℕ) → leb a b ≡ true → ltb b a ≡ false
    not_live a b h' = ground arith

-- Two requests of an instance take turns, the one that arrives at `now` first, for so many statements
-- of each.
unfoldable pub race :
    CircuitBreakerConfig → ℕ → (now now' : ℕ) → ℕ → Phase → Phase → States → Phase × Phase × States
unfolding advance
race cfg instance_id now now' zero p q s = (p, q, s)
race cfg instance_id now now' (suc n) p q s =
    let (p', s₁) = advance cfg instance_id now p s in
    let (q', s₂) = advance cfg instance_id now' q s₁ in race cfg instance_id now now' n p' q' s₂

-- Two requests of an instance that find no row, or a closed circuit whose window is over, and whose
-- statements take turns are both let through and both counted as the first of a window. The second
-- begins the window that counts: of the requests that follow in it, handled one after another, one less
-- than `maxRequestsPerWindow` still pass, so that of a window's requests one too many passes. The
-- maximum is not zero and the pause is at least as long as the window.
pub race-over :
    (cfg : CircuitBreakerConfig) (k now now' : ℕ) (rs : List Request) (s : States)
    → 1 ≤ cfg.max_requests_per_window
    → cfg.window_ms ≤ cfg.pause_duration_ms
    → open_since (lookup k s) ≡ none
    → is_over cfg now (lookup k s) ≡ true
    → is_over cfg now' (lookup k s) ≡ true
    → All (InWindow cfg now') rs
    → let (p, q, t) = race cfg k now now' 3 Phase.arrived Phase.arrived s in
      (p ≡ Phase.answered Answer.next)
      × (q ≡ Phase.answered Answer.next)
      × (passes cfg k rs t ≡ min (requests_of k rs) (cfg.max_requests_per_window - 1))
unfolding race advance get
race-over cfg k now now' rs s one long c o o' within =
    rw
      (
        c,
        store_count-over cfg k now (lookup k s) s c o,
        store_count-over cfg k now' (lookup k s) (upsert k (fresh now) s) c o',
        allowed cfg.max_requests_per_window one,
      )
      (
        refl,
        refl,
        passes-live cfg k 1 now' rs (upsert k (fresh now') (upsert k (fresh now) s)) long
            (lookup-upsert k k (fresh now') (upsert k (fresh now) s) ∙ rw (==_refl k) refl) within,
      )
  where
    allowed : (max : ℕ) → 1 ≤ max → ltb max 1 ≡ false
    allowed max h = ground arith
