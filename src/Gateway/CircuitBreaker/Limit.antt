-- ===== src/Gateway/CircuitBreaker/Limit.antt =====
-- How many requests of an instance pass in a window of the circuit breaker
-- (src/gateway/circuit-breaker.ts).
use platform_core.Base.{
  ℕ, suc, ◌+◌, ◌-◌, ◌≡◌, ◌<◌, ◌≤◌, refl, ◌∙◌, ap, inl, inr, true, false, Option, none, some, List,
  [], ◌∷◌, ◌==◌, ltb, leb, if◌then◌else◌, arith, All, Bool-cases, Option-cases, ==_iff, ==_refl,
  lt→ltb, nat_eq,
}
use platform_core.Base.Dict.{lookup, lookup-upsert}
use platform_core.Gateway.Requests.{Request, requests_of, min, one_more, first_one}
use platform_core.Gateway.CircuitBreaker.{
  CircuitBreakerEntry, States, get, reset, CircuitBreakerConfig, admit, open_since, circuit_breaker,
}
use platform_core.Gateway.CircuitBreaker.Window.{
  incremented, passes, lookup-admit, is_next-admit, is_over, opened, circuit_breaker-other,
  circuit_breaker-closed, passes-open,
}

abbrev pub closed : ℕ → ℕ → CircuitBreakerEntry
closed count start = record { count = count; window_start = start; tripped_at = none }

abbrev pub InWindow : CircuitBreakerConfig → ℕ → Request → Type 0
InWindow cfg start r = (start ≤ r.now) × (r.now < start + cfg.window_ms)

incremented_live :
    (cfg : CircuitBreakerConfig) (count start now : ℕ)
    → now < start + cfg.window_ms
    → incremented (some (closed count start)) cfg.window_ms now ≡ closed (suc count) start
incremented_live cfg count start now w = rw (lt→ltb now (start + cfg.window_ms) w) refl

-- The circuit that opens in a window stays open in it, if the pause is at least as long.
paused_within :
    (cfg : CircuitBreakerConfig) (start now : ℕ) (rs : List Request)
    → cfg.window_ms ≤ cfg.pause_duration_ms
    → start ≤ now
    → All (InWindow cfg start) rs
    → All (λ (r : Request). r.now < now + cfg.pause_duration_ms) rs
paused_within cfg start now [] p h within = tt
paused_within cfg start now (r ∷ rs) p h ((a, b), within) =
    (omega arith, paused_within cfg start now rs p h within)

-- What follows a request that found a row with a count and whose window had room or not.
after_admit :
    (cfg : CircuitBreakerConfig) (k now count start : ℕ) (rs : List Request) (s s' : States)
    → cfg.window_ms ≤ cfg.pause_duration_ms
    → start ≤ now
    → All (InWindow cfg start) rs
    → lookup k s'
      ≡ some (
          if ltb cfg.max_requests_per_window (suc count)
          then record { count = suc count; window_start = start; tripped_at = some now }
          else closed (suc count) start)
    → (lookup k s' ≡ some (closed (suc count) start)
        → passes cfg k rs s' ≡ min (requests_of k rs) (cfg.max_requests_per_window - suc count))
    → passes cfg k rs s' ≡ min (requests_of k rs) (cfg.max_requests_per_window - suc count)
after_admit cfg k now count start rs s s' p h within row live =
    elim (Bool-cases (ltb cfg.max_requests_per_window (suc count))) [
      | inr b ↦ live (row ∙ rw b refl)
      | inl b ↦
          passes-open cfg k now rs s' (rw (row, b) refl) (paused_within cfg start now rs p h within)
          ∙ none_left cfg.max_requests_per_window (requests_of k rs) b
    ]
  where
    none_left : (max n : ℕ) → ltb max (suc count) ≡ true → 0 ≡ min n (max - suc count)
    none_left max n b = ground arith

-- While a closed circuit's window lasts, the breaker lets through the first requests of the instance,
-- as many as the count leaves of the maximum, and no more, whatever requests of other instances come
-- between; the pause must be at least as long as the window.
pub passes-live :
    (cfg : CircuitBreakerConfig) (k count start : ℕ) (rs : List Request) (s : States)
    → cfg.window_ms ≤ cfg.pause_duration_ms
    → lookup k s ≡ some (closed count start)
    → All (InWindow cfg start) rs
    → passes cfg k rs s ≡ min (requests_of k rs) (cfg.max_requests_per_window - count)
unfolding passes
passes-live cfg k count start [] s p row within = ground arith
passes-live cfg k count start (r ∷ rs) s p row ((h, w), within) = elim (Bool-cases (r.key == k)) [
  | inl b ↦
      let i = (==_iff r.key k).0 b in
      let inc =
        ap (λ o. incremented o cfg.window_ms r.now) row
        ∙ incremented_live cfg count start r.now w in
      rw
        (
          i,
          ==_refl k,
          circuit_breaker-closed cfg k r.now s (ap open_since row),
          is_next-admit cfg k r.now s,
          inc,
        )
        (one_more cfg.max_requests_per_window count (requests_of k rs)
          (passes cfg k rs (admit cfg k r.now s).1)
          (after_admit cfg k r.now count start rs s (admit cfg k r.now s).1 p h within
            (lookup-admit cfg k r.now k s ∙ rw (==_refl k, inc) refl)
            (λ row'. passes-live cfg k (suc count) start rs (admit cfg k r.now s).1 p row' within)))
  | inr b ↦ rw b (
      passes-live cfg k count start rs (circuit_breaker cfg r.key r.now s).1 p
        (circuit_breaker-other cfg r.key r.now k s b ∙ row) within)
]

incremented_over :
    (cfg : CircuitBreakerConfig) (now : ℕ) (e : CircuitBreakerEntry)
    → e.tripped_at ≡ none
    → is_over cfg now (some e) ≡ true
    → incremented (some e) cfg.window_ms now ≡ opened now
incremented_over cfg now e t h =
    rw (leb-ltb (e.window_start + cfg.window_ms) now (cases e.tripped_at t h)) refl
  where
    leb-ltb : (a b : ℕ) → leb a b ≡ true → ltb b a ≡ false
    leb-ltb a b h' = ground arith

    cases :
        (o : Option ℕ)
        → o ≡ none
        → (elim o [
          | none ↦ leb (e.window_start + cfg.window_ms) now
          | some at ↦ leb (at + cfg.pause_duration_ms) now
        ])
          ≡ true
        → leb (e.window_start + cfg.window_ms) now ≡ true
    cases none q h' = h'
    cases (some at) q h' = cc

pause_over :
    (cfg : CircuitBreakerConfig) (now at : ℕ) (e : CircuitBreakerEntry)
    → e.tripped_at ≡ some at
    → is_over cfg now (some e) ≡ true
    → leb (at + cfg.pause_duration_ms) now ≡ true
pause_over cfg now at e t h = rw t at h

incremented_reset :
    (cfg : CircuitBreakerConfig) (now : ℕ)
    → incremented (some (closed 0 now)) cfg.window_ms now ≡ opened now
incremented_reset cfg now = elim (Bool-cases (ltb now (now + cfg.window_ms))) [
  | inl b ↦ rw b refl
  | inr b ↦ rw b refl
]

-- A request that starts a new window is counted as its first.
counted_first :
    (cfg : CircuitBreakerConfig) (k now : ℕ) (s : States)
    → is_over cfg now (lookup k s) ≡ true
    → (s' : States) × (circuit_breaker cfg k now s ≡ admit cfg k now s')
      × (incremented (lookup k s') cfg.window_ms now ≡ opened now)
unfolding circuit_breaker get reset
counted_first cfg k now s over = split (lookup k s) refl over
  where
    split :
        (o : Option CircuitBreakerEntry)
        → lookup k s ≡ o
        → is_over cfg now o ≡ true
        → (s' : States) × (circuit_breaker cfg k now s ≡ admit cfg k now s')
          × (incremented (lookup k s') cfg.window_ms now ≡ opened now)
    split none e h = (s, rw (e, circuit_breaker) refl, rw e refl)
    split (some e) q h = elim (Option-cases e.tripped_at) [
      | inl t ↦ (s, rw (q, t, circuit_breaker) refl, rw q (incremented_over cfg now e t h))
      | inr (at, t) ↦ (
        reset k now s,
        rw (q, t, pause_over cfg now at e t h, circuit_breaker) refl,
        rw (lookup-upsert k k (closed 0 now) s, ==_refl k) (incremented_reset cfg now),
      )
    ]

-- For requests that are handled one after another: a request that finds no row, a window that is
-- over, or an open circuit whose pause is over, begins a window. If the pause is at least as long as
-- the window, then of this request and of those that follow before the window is over, at times not
-- before it, the breaker lets through the first `maxRequestsPerWindow` of the instance and no more,
-- whatever requests of other instances come between.
pub passes-window :
    (cfg : CircuitBreakerConfig) (k now : ℕ) (rs : List Request) (s : States)
    → cfg.window_ms ≤ cfg.pause_duration_ms
    → is_over cfg now (lookup k s) ≡ true
    → All (InWindow cfg now) rs
    → passes cfg k (record { key = k; now = now } ∷ rs) s
      ≡ min (suc (requests_of k rs)) cfg.max_requests_per_window
unfolding passes
passes-window cfg k now rs s p over within =
    let (s', e, inc) = counted_first cfg k now s over in
    rw (==_refl k, e, is_next-admit cfg k now s', inc)
      (first_one cfg.max_requests_per_window (requests_of k rs)
        (passes cfg k rs (admit cfg k now s').1)
        (after_admit cfg k now 0 now rs s' (admit cfg k now s').1 p (omega arith) within
          (lookup-admit cfg k now k s' ∙ rw (==_refl k, inc) refl)
          (λ row. passes-live cfg k 1 now rs (admit cfg k now s').1 p row within)))
