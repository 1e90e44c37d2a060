-- ===== src/Metering/Emitter.antt =====
-- The emitter (src/metering/emitter.ts). Each method is cut where it waits: `emit` after the append to
-- the log, `flush` while the database works on the batch, and the replay while it flushes. What follows
-- a wait up to the end of a method is one step; the clock is an argument.
use platform_core.Base.{
  ℕ, suc, ◌+◌, Bool, true, false, not, Option, none, some, List, [], ◌∷◌, ◌++◌, length, filter, leb,
  if◌then◌else◌, nat_eq, zero,
}
use platform_core.Base.Dict.{Dict, lookup, upsert, remove}
use platform_core.Metering.Types.{MeterEvent, IdEvent, MeterEventInsert, ids}
use platform_core.Metering.Wal
use platform_core.Metering.Wal.{File}
use platform_core.Metering.Dlq
use platform_core.Metering.Dlq.{DlqEntry}
use platform_core.Metering.Repository.{exists_by_id, insert_batch}
use platform_core.Base.Loops.{for_each}
use mathlib.Core.Option

pub record Config : Type 0 where
  pub batch_size : ℕ
  pub max_retries : ℕ

-- The two files and the table outlive the process; the rest is its memory. `appended` are the events
-- that are in the log and not yet pushed on the buffer, `in_flight` the batches that the database works
-- on, and `replaying` the ids that a replay found in the table and has not yet taken off the log.
pub record Emitter : Type 0 where
  pub wal : File
  pub dlq : List DlqEntry
  pub table : List MeterEventInsert
  pub appended : List IdEvent
  pub buffer : List IdEvent
  pub retry_count : Dict ℕ ℕ
  pub in_flight : List (List IdEvent)
  pub replaying : Option (List ℕ)
  pub closed : Bool

abbrev pub send : List IdEvent → Emitter → Emitter
send [] s = s
send (e ∷ es) s = record s { buffer = []; in_flight = s.in_flight ++ (e ∷ es) ∷ [] }

-- `flush` up to the insert: the whole buffer is one batch. The timer runs it too.
unfoldable pub begin_flush : Emitter → Emitter
begin_flush s = send s.buffer s

-- `emit` up to the wait for the log, which gives the event its id.
unfoldable pub begin_emit : ℕ → MeterEvent → Emitter → Emitter
begin_emit id event s =
    if s.closed
    then s
    else (let e : IdEvent = record { id = id; event = event } in
        record s { wal = Wal.append e s.wal; appended = s.appended ++ e ∷ [] })

abbrev pub push : Config → List IdEvent → Emitter → Emitter
push cfg [] s = s
push cfg (e ∷ es) s =
    let s' = record s { appended = es; buffer = s.buffer ++ e ∷ [] } in
    if leb cfg.batch_size (length s'.buffer) then begin_flush s' else s'

-- `emit` from there on, for the first event that waits.
unfoldable pub end_emit : Config → Emitter → Emitter
unfolding begin_flush
end_emit cfg s = push cfg s.appended s

-- What the catch of `flush` has built.
pub record Failures : Type 0 where
  pub retry_count : Dict ℕ ℕ
  pub dlq : List DlqEntry
  pub to_retry : List IdEvent
  pub to_dlq : List IdEvent

-- The retries of an event, this one included.
abbrev pub retries_of : Dict ℕ ℕ → ℕ → ℕ
retries_of counts id = Option.get_or (lookup id counts) 0 + 1

unfoldable pub fail_event : Config → ℕ → IdEvent → Failures → Failures
fail_event cfg now e x =
    let retries = retries_of x.retry_count e.id in
    let counts = upsert e.id retries x.retry_count in
    if leb cfg.max_retries retries
    then record x {
      retry_count = remove e.id counts;
      dlq = Dlq.append e now retries x.dlq;
      to_dlq = x.to_dlq ++ e ∷ [];
    }
    else record x { retry_count = counts; to_retry = x.to_retry ++ e ∷ [] }

unfoldable pub fail_batch : Config → ℕ → List IdEvent → Emitter → Emitter
unfolding fail_event
fail_batch cfg now batch s =
    let x =
      for_each (fail_event cfg now) batch
        (record { retry_count = s.retry_count; dlq = s.dlq; to_retry = []; to_dlq = [] }) in
    record s {
      wal = Wal.remove (ids x.to_dlq) s.wal;
      dlq = x.dlq;
      retry_count = x.retry_count;
      buffer = x.to_retry ++ s.buffer;
    }

abbrev pub forget : List ℕ → Dict ℕ ℕ → Dict ℕ ℕ
forget [] counts = counts
forget (i ∷ is) counts = forget is (remove i counts)

unfoldable pub succeed_batch : List IdEvent → Emitter → Emitter
succeed_batch batch s = record s {
  wal = Wal.remove (ids batch) s.wal;
  retry_count = forget (ids batch) s.retry_count;
}

-- How the insert of a batch ends. It may also be carried out while its answer, or the rewrite of the
-- log after it, fails.
pub data Outcome : Type 0 where
  answered : Outcome
  refused : Outcome
  unanswered : Outcome

abbrev pub on_answer :
    Config → ℕ → List IdEvent → Emitter → Option (List MeterEventInsert) → Emitter
on_answer cfg now batch s none = fail_batch cfg now batch s
on_answer cfg now batch s (some table) = succeed_batch batch (record s { table = table })

abbrev pub on_no_answer :
    Config → ℕ → List IdEvent → Emitter → Option (List MeterEventInsert) → Emitter
on_no_answer cfg now batch s none = fail_batch cfg now batch s
on_no_answer cfg now batch s (some table) = fail_batch cfg now batch (record s { table = table })

-- `flush` from the insert on, for a batch taken off those in flight.
unfoldable pub end_flush : Config → Outcome → ℕ → List IdEvent → Emitter → Emitter
end_flush cfg answered now batch s = on_answer cfg now batch s (insert_batch batch s.table)
end_flush cfg refused now batch s = fail_batch cfg now batch s
end_flush cfg unanswered now batch s = on_no_answer cfg now batch s (insert_batch batch s.table)

unfoldable pub close : Emitter → Emitter
unfolding begin_flush
close s = begin_flush (record s { closed = true })

abbrev pub existing : List MeterEventInsert → List IdEvent → List IdEvent
existing table = filter (λ (e : IdEvent). exists_by_id e.id table)

abbrev pub to_replay : List MeterEventInsert → List IdEvent → List IdEvent
to_replay table = filter (λ (e : IdEvent). not (exists_by_id e.id table))

-- A process that ends, at whatever point, and one that starts: the constructor with `replayWAL` up to
-- the wait for its flush.
unfoldable pub restart : Emitter → Emitter
unfolding begin_flush
restart s =
    let events = Wal.read_all s.wal in
    begin_flush (record {
      wal = s.wal;
      dlq = s.dlq;
      table = s.table;
      appended = [];
      buffer = to_replay s.table events;
      retry_count = [];
      in_flight = [];
      replaying = some (ids (existing s.table events));
      closed = false;
    })

abbrev pub take_off : Option (List ℕ) → Emitter → Emitter
take_off none s = s
take_off (some found) s = record s { wal = Wal.remove found s.wal; replaying = none }

-- `replayWALAsync` after its flush, with what `flush` returned, none where nothing was to be replayed.
unfoldable pub end_replay : Option ℕ → Emitter → Emitter
end_replay (some zero) s = record s { replaying = none }
end_replay (some (suc n)) s = take_off s.replaying s
end_replay none s = take_off s.replaying s
