-- ===== src/Metering/Runs.antt =====
-- Runs of the emitter, its process and its waits (src/metering/emitter.ts).
use platform_core.Base.{
  ℕ, ◌≡◌, Bool, true, false, ◌||◌, Option, none, some, List, [], ◌∷◌, ◌++◌, includes, if◌then◌else◌,
  nat_eq,
}
use platform_core.Metering.Types.{MeterEvent, IdEvent, ids}
use platform_core.Metering.Wal.{pieces, read_all}
use platform_core.Metering.WalLaws.{IsWhole}
use platform_core.Metering.Dlq.{dead_ids}
use platform_core.Metering.Repository.{exists_by_id}
use platform_core.Metering.Emitter.{
  Config, Emitter, Outcome, begin_emit, end_emit, begin_flush, end_flush, close, restart,
  end_replay,
}

-- An emitter and the ids that it has accepted, those that its first log held included. Any batch may be
-- the next that the database answers. A process may end between any two of these steps, which `restarts`
-- stands for, but not inside a write to the log: its first log has whole lines, and no line is cut.
pub data Runs (cfg : Config) : Emitter → List ℕ → Type 0 where
  starts : (s : Emitter) → IsWhole (pieces s.wal) → Runs cfg (restart s) (ids (read_all s.wal))
  emits :
      {s : Emitter} {accepted : List ℕ} (id : ℕ) (event : MeterEvent)
      → Runs cfg s accepted
      → Runs cfg (begin_emit id event s) (if s.closed then accepted else id ∷ accepted)
  pushes :
      {s : Emitter} {accepted : List ℕ} → Runs cfg s accepted → Runs cfg (end_emit cfg s) accepted
  ticks :
      {s : Emitter} {accepted : List ℕ} → Runs cfg s accepted → Runs cfg (begin_flush s) accepted
  answers :
      {s : Emitter} {accepted : List ℕ} (outcome : Outcome) (now : ℕ) (before : List (List IdEvent))
      (batch : List IdEvent) (after : List (List IdEvent))
      → Runs cfg s accepted
      → s.in_flight ≡ before ++ batch ∷ after
      → Runs cfg
          (end_flush cfg outcome now batch (record s { in_flight = before ++ after }))
          accepted
  replays :
      {s : Emitter} {accepted : List ℕ} (flushed : Option ℕ)
      → Runs cfg s accepted
      → Runs cfg (end_replay flushed s) accepted
  closes : {s : Emitter} {accepted : List ℕ} → Runs cfg s accepted → Runs cfg (close s) accepted
  restarts : {s : Emitter} {accepted : List ℕ} → Runs cfg s accepted → Runs cfg (restart s) accepted

-- Where an event can be.
abbrev pub in_wal : ℕ → Emitter → Bool
in_wal i s = includes (ids (read_all s.wal)) i

abbrev pub in_table : ℕ → Emitter → Bool
in_table i s = exists_by_id i s.table

abbrev pub in_dlq : ℕ → Emitter → Bool
in_dlq i s = includes (dead_ids s.dlq) i

abbrev pub in_batches : List (List IdEvent) → ℕ → Bool
in_batches [] i = false
in_batches (b ∷ bs) i = includes (ids b) i || in_batches bs i

abbrev pub in_memory : ℕ → Emitter → Bool
in_memory i s = includes (ids s.appended) i || includes (ids s.buffer) i || in_batches s.in_flight i

abbrev pub found_ids : Option (List ℕ) → List ℕ
found_ids none = []
found_ids (some is) = is

-- An accepted event is recorded, logged or dead; one that is logged is recorded, dead or on its way; and
-- what a replay takes off the log is recorded.
pub record IsSafe (i : ℕ) (s : Emitter) (accepted : List ℕ) : Type 0 where
  pub whole : IsWhole (pieces s.wal)
  pub kept : includes accepted i ≡ true → (in_table i s || in_wal i s || in_dlq i s) ≡ true
  pub pending : in_wal i s ≡ true → (in_table i s || in_dlq i s || in_memory i s) ≡ true
  pub replayed : includes (found_ids s.replaying) i ≡ true → in_table i s ≡ true
