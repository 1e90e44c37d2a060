-- ===== src/Gateway/CircuitBreaker/Window.antt =====
-- What the circuit breaker promises of an instance (src/gateway/circuit-breaker.ts).
use platform_core.Base.{
  ℕ, suc, ◌+◌, ◌≡◌, ◌<◌, refl, ◌∙◌, ap, inl, inr, Bool, true, false, ◌&&◌, Option, none, some, List,
  [], ◌∷◌, ◌==◌, ltb, leb, if◌then◌else◌, arith, All, Bool-cases, Option-cases, ==_iff, ==_refl,
  nat_eq,
}
use platform_core.Base.Dict.{lookup, upsert, lookup-upsert}
use platform_core.Gateway.Requests.{Request}
use platform_core.Gateway.CircuitBreaker.{
  CircuitBreakerEntry, States, get, fresh, store_count, increment_or_reset, tripped, trip, reset,
  CircuitBreakerConfig, Answer, admit, open_since, circuit_breaker,
}

abbrev pub is_next : Answer → Bool
is_next Answer.next = true
is_next (Answer.paused _ _) = false
is_next (Answer.trips _ _) = false

-- What `incrementOrReset` leaves in the row.
abbrev pub incremented : Option CircuitBreakerEntry → ℕ → ℕ → CircuitBreakerEntry
incremented none window_ms now = fresh now
incremented (some e) window_ms now =
    if ltb now (e.window_start + window_ms) then record e { count = suc e.count } else fresh now

increment_or_reset_lem :
    (i w now : ℕ) (s : States)
    → increment_or_reset i w now s
      ≡ (incremented (lookup i s) w now, upsert i (incremented (lookup i s) w now) s)
unfolding increment_or_reset store_count
increment_or_reset_lem i w now s = split (lookup i s) refl
  where
    split :
        (o : Option CircuitBreakerEntry)
        → lookup i s ≡ o
        → store_count o i w now s ≡ (incremented o w now, upsert i (incremented o w now) s)
    split none q = refl
    split (some e) q = elim (Bool-cases (ltb now (e.window_start + w))) [
      | inl live ↦ rw (live, q) refl
      | inr over ↦ rw over refl
    ]

-- How many requests of an instance the breaker lets through, of requests of any instances that are
-- handled one after another.
unfoldable pub passes : CircuitBreakerConfig → ℕ → List Request → States → ℕ
passes cfg instance_id [] s = 0
passes cfg instance_id (r ∷ rs) s =
    let out = circuit_breaker cfg r.key r.now s in
    let rest = passes cfg instance_id rs out.1 in
    if (r.key == instance_id) && is_next out.0 then suc rest else rest

-- The row of an instance that `admit` leaves.
abbrev pub admitted : CircuitBreakerConfig → ℕ → Option CircuitBreakerEntry → CircuitBreakerEntry
admitted cfg now o =
    let e = incremented o cfg.window_ms now in
    if ltb cfg.max_requests_per_window e.count then record e { tripped_at = some now } else e

lookup-trip :
    (i now k : ℕ) (e : CircuitBreakerEntry) (s : States)
    → lookup k (trip i now (upsert i e s))
      ≡ (if i == k then some (record e { tripped_at = some now }) else lookup k s)
unfolding trip
lookup-trip i now k e s =
    lookup-upsert i k (tripped (lookup i (upsert i e s)) now) (upsert i e s)
    ∙ rw (lookup-upsert i k e s, lookup-upsert i i e s, ==_refl i) (twice (i == k))
  where
    twice :
        (b : Bool)
        → (if b
            then some (record e { tripped_at = some now })
            else (if b then some e else lookup k s))
          ≡ (if b then some (record e { tripped_at = some now }) else lookup k s)
    twice true = refl
    twice false = refl

pub lookup-admit :
    (cfg : CircuitBreakerConfig) (i now k : ℕ) (s : States)
    → lookup k (admit cfg i now s).1
      ≡ (if i == k then some (admitted cfg now (lookup i s)) else lookup k s)
unfolding admit trip
lookup-admit cfg i now k s =
    let e = incremented (lookup i s) cfg.window_ms now in
    elim (Bool-cases (ltb cfg.max_requests_per_window e.count)) [
      | inl b ↦ rw (increment_or_reset_lem i cfg.window_ms now s, b) (lookup-trip i now k e s)
      | inr b ↦ rw (increment_or_reset_lem i cfg.window_ms now s, b) (lookup-upsert i k e s)
    ]

pub is_next-admit :
    (cfg : CircuitBreakerConfig) (i now : ℕ) (s : States)
    → is_next (admit cfg i now s).0
      ≡ leb (incremented (lookup i s) cfg.window_ms now).count cfg.max_requests_per_window
unfolding admit
is_next-admit cfg i now s =
    let e = incremented (lookup i s) cfg.window_ms now in
    elim (Bool-cases (ltb cfg.max_requests_per_window e.count)) [
      | inl b ↦ rw (increment_or_reset_lem i cfg.window_ms now s, b) (not_leb _ _ b)
      | inr b ↦ rw (increment_or_reset_lem i cfg.window_ms now s, b) (is_leb _ _ b)
    ]
  where
    not_leb : (m n : ℕ) → ltb m n ≡ true → false ≡ leb n m
    not_leb m n h = ground arith

    is_leb : (m n : ℕ) → ltb m n ≡ false → true ≡ leb n m
    is_leb m n h = ground arith

-- A row at which a request starts a new window: there is none, the circuit is closed and its window
-- is over, or it is open and its pause is over.
abbrev pub is_over : CircuitBreakerConfig → ℕ → Option CircuitBreakerEntry → Bool
is_over cfg now none = true
is_over cfg now (some e) = elim e.tripped_at [
  | none ↦ leb (e.window_start + cfg.window_ms) now
  | some at ↦ leb (at + cfg.pause_duration_ms) now
]

abbrev pub opened : ℕ → CircuitBreakerEntry
opened now = record { count = 1; window_start = now; tripped_at = none }

-- The requests of other instances leave an instance's row.
pub circuit_breaker-other :
    (cfg : CircuitBreakerConfig) (i now k : ℕ) (s : States)
    → (i == k) ≡ false
    → lookup k (circuit_breaker cfg i now s).1 ≡ lookup k s
unfolding circuit_breaker get reset
circuit_breaker-other cfg i now k s b = elim (Option-cases (open_since (lookup i s))) [
  | inl e ↦ rw (e, circuit_breaker) (lookup-admit cfg i now k s ∙ rw b refl)
  | inr (at, e) ↦
      rw (e, circuit_breaker)
        (elim (Bool-cases (leb (at + cfg.pause_duration_ms) now)) [
          | inr w ↦ rw w refl
          | inl w ↦ rw w (
              lookup-admit cfg i now k
                (upsert i (record { count = 0; window_start = now; tripped_at = none }) s)
              ∙ rw b (
                  lookup-upsert i k (record { count = 0; window_start = now; tripped_at = none }) s
                  ∙ rw b refl))
        ])
]

-- A request of an open circuit is held back and leaves its row.
pub circuit_breaker-open :
    (cfg : CircuitBreakerConfig) (i now at : ℕ) (s : States)
    → open_since (lookup i s) ≡ some at
    → now < at + cfg.pause_duration_ms
    → (is_next (circuit_breaker cfg i now s).0 ≡ false) × ((circuit_breaker cfg i now s).1 ≡ s)
unfolding circuit_breaker get
circuit_breaker-open cfg i now at s e w =
    rw (e, circuit_breaker, lt-leb now (at + cfg.pause_duration_ms) w) (refl, refl)
  where
    lt-leb : (a b : ℕ) → a < b → leb b a ≡ false
    lt-leb a b h = ground arith

-- A request of a closed circuit is counted.
pub circuit_breaker-closed :
    (cfg : CircuitBreakerConfig) (i now : ℕ) (s : States)
    → open_since (lookup i s) ≡ none
    → circuit_breaker cfg i now s ≡ admit cfg i now s
unfolding circuit_breaker get
circuit_breaker-closed cfg i now s e = rw (e, circuit_breaker) refl

-- Of requests that are handled one after another and all come before an open circuit's pause is over,
-- none of the instance passes.
pub passes-open :
    (cfg : CircuitBreakerConfig) (k at : ℕ) (rs : List Request) (s : States)
    → open_since (lookup k s) ≡ some at
    → All (λ (r : Request). r.now < at + cfg.pause_duration_ms) rs
    → passes cfg k rs s ≡ 0
unfolding passes
passes-open cfg k at [] s e within = refl
passes-open cfg k at (r ∷ rs) s e (w, within) = elim (Bool-cases (r.key == k)) [
  | inl b ↦
      let i = (==_iff r.key k).0 b in
      let (held, same) = circuit_breaker-open cfg k r.now at s e w in
      rw (i, ==_refl k, held, same) (passes-open cfg k at rs s e within)
  | inr b ↦ rw b (
      passes-open cfg k at rs (circuit_breaker cfg r.key r.now s).1
        (ap open_since (circuit_breaker-other cfg r.key r.now k s b) ∙ e) within)
]
