-- ===== src/Gateway/CircuitBreaker.antt =====
-- The circuit breaker of a bot instance (src/gateway/circuit-breaker.ts,
-- src/gateway/drizzle-circuit-breaker-repository.ts). Times are milliseconds; a request and what it
-- calls read the clock once. `now - start < w` is written `now < start + w`.
use platform_core.Base.{
  ℕ, suc, ◌+◌, ◌-◌, ◌/◌, Bool, true, false, ◌&&◌, Option, none, some, List, length, filter, ltb,
  leb, if◌then◌else◌, nat_eq, is_some, not,
}
use mathlib.Core.Option.{get_or}
use platform_core.Base.Dict.{Dict, lookup, upsert}
pub mod Window
pub mod Limit
pub mod Race

-- A row of `circuit_breaker_states`, under its instance.
pub record CircuitBreakerEntry : Type 0 where
  pub count : ℕ
  pub window_start : ℕ
  pub tripped_at : Option ℕ

abbrev pub States : Type 0
States = Dict ℕ CircuitBreakerEntry

unfoldable pub get : ℕ → States → Option CircuitBreakerEntry
get instance_id s = lookup instance_id s

abbrev pub fresh : ℕ → CircuitBreakerEntry
fresh now = record { count = 1; window_start = now; tripped_at = none }

-- `UPDATE ... SET count = count + 1 RETURNING`, and what stands in for a row that is gone.
abbrev pub counted :
    CircuitBreakerEntry → ℕ → Option CircuitBreakerEntry → States → CircuitBreakerEntry × States
counted existing instance_id none s = (record existing { count = suc existing.count }, s)
counted existing instance_id (some row) s =
    let entry = record row { count = suc row.count } in (entry, upsert instance_id entry s)

-- The second statement of `incrementOrReset`, with the row that the first has read.
unfoldable pub store_count :
    Option CircuitBreakerEntry → ℕ → ℕ → ℕ → States → CircuitBreakerEntry × States
store_count none instance_id window_ms now s = (fresh now, upsert instance_id (fresh now) s)
store_count (some existing) instance_id window_ms now s =
    if ltb now (existing.window_start + window_ms)
    then counted existing instance_id (lookup instance_id s) s
    else (fresh now, upsert instance_id (fresh now) s)

-- Both statements, with no other request between them.
unfoldable pub increment_or_reset : ℕ → ℕ → ℕ → States → CircuitBreakerEntry × States
unfolding store_count
increment_or_reset instance_id window_ms now s =
    store_count (lookup instance_id s) instance_id window_ms now s

abbrev pub tripped : Option CircuitBreakerEntry → ℕ → CircuitBreakerEntry
tripped none now = record { count = 1; window_start = now; tripped_at = some now }
tripped (some e) now = record e { tripped_at = some now }

unfoldable pub trip : ℕ → ℕ → States → States
trip instance_id now s = upsert instance_id (tripped (lookup instance_id s) now) s

unfoldable pub reset : ℕ → ℕ → States → States
reset instance_id now s =
    upsert instance_id (record { count = 0; window_start = now; tripped_at = none }) s

-- Rows of an old window that are not tripped are deleted: `window_start < now - window_ms`.
unfoldable pub purge_stale : ℕ → ℕ → States → ℕ × States
purge_stale window_ms now s =
    let kept = filter (λ (r : ℕ × CircuitBreakerEntry). not (is_stale r.1)) s in
    (length s - length kept, kept)
  where
    is_stale : CircuitBreakerEntry → Bool
    is_stale e = ltb (e.window_start + window_ms) now && not (is_some e.tripped_at)

pub record CircuitBreakerConfig : Type 0 where
  pub max_requests_per_window : ℕ
  pub window_ms : ℕ
  pub pause_duration_ms : ℕ

abbrev pub default_circuit_breaker_config : CircuitBreakerConfig
default_circuit_breaker_config = record {
  max_requests_per_window = 100;
  window_ms = 10_000;
  pause_duration_ms = 300_000;
}

-- What the middleware answers: the next handler, or 429, `paused` while the circuit is open and `trips`
-- when this request opens it, which also calls `onTrip` with the count.
pub data Answer : Type 0 where
  next : Answer
  paused : (paused_until remaining_ms : ℕ) → Answer
  trips : (count paused_until : ℕ) → Answer

-- `Math.ceil(ms / 1000)`.
abbrev pub seconds : ℕ → ℕ
seconds ms = (ms + 999) / 1000

-- The count of a request that the circuit does not hold back, with no other request in between.
unfoldable pub admit : CircuitBreakerConfig → ℕ → ℕ → States → Answer × States
admit cfg instance_id now s =
    let (updated, s') = increment_or_reset instance_id cfg.window_ms now s in
    if ltb cfg.max_requests_per_window updated.count
    then (
      Answer.trips updated.count (seconds (now + cfg.pause_duration_ms)),
      trip instance_id now s',
    )
    else (Answer.next, s')

-- When the row says that the circuit is open.
abbrev pub open_since : Option CircuitBreakerEntry → Option ℕ
open_since none = none
open_since (some e) = e.tripped_at

-- A request from its arrival to its answer, with no other request in between.
unfoldable pub circuit_breaker : CircuitBreakerConfig → ℕ → ℕ → States → Answer × States
circuit_breaker cfg instance_id now s = elim (open_since (get instance_id s)) [
  | none ↦ admit cfg instance_id now s
  | some at ↦
      if leb (at + cfg.pause_duration_ms) now
      then admit cfg instance_id now (reset instance_id now s)
      else (
        Answer.paused (seconds (at + cfg.pause_duration_ms)) ((at + cfg.pause_duration_ms) - now),
        s,
      )
]

-- Where a request waits: for `get`, for `reset`, for either statement of `incrementOrReset`, or for `trip`.
pub data Phase : Type 0 where
  arrived : Phase
  closing : Phase
  selecting : Phase
  storing : Option CircuitBreakerEntry → Phase
  tripping : ℕ → Phase
  answered : Answer → Phase

abbrev pub gated : CircuitBreakerConfig → ℕ → Option ℕ → Phase
gated cfg now none = selecting
gated cfg now (some at) =
    if leb (at + cfg.pause_duration_ms) now
    then closing
    else answered
        (Answer.paused (seconds (at + cfg.pause_duration_ms)) ((at + cfg.pause_duration_ms) - now))

abbrev pub judged : CircuitBreakerConfig → CircuitBreakerEntry → Phase
judged cfg updated =
    if ltb cfg.max_requests_per_window updated.count
    then tripping updated.count
    else answered Answer.next

-- One statement of the database, between which statements of other requests may come.
unfoldable pub advance : CircuitBreakerConfig → ℕ → ℕ → Phase → States → Phase × States
unfolding store_count
advance cfg instance_id now arrived s = (gated cfg now (open_since (get instance_id s)), s)
advance cfg instance_id now closing s = (selecting, reset instance_id now s)
advance cfg instance_id now selecting s = (storing (lookup instance_id s), s)
advance cfg instance_id now (storing existing) s =
    let (updated, s') = store_count existing instance_id cfg.window_ms now s in
    (judged cfg updated, s')
advance cfg instance_id now (tripping count) s =
    (answered (Answer.trips count (seconds (now + cfg.pause_duration_ms))), trip instance_id now s)
advance cfg instance_id now (answered a) s = (answered a, s)

-- A circuit's pause that is left, for `getCircuitStates`.
unfoldable pub remaining_pause_ms : ℕ → ℕ → CircuitBreakerEntry → ℕ
remaining_pause_ms pause_duration_ms now e = elim e.tripped_at [
  | none ↦ 0
  | some at ↦ (at + pause_duration_ms) - now
]
