-- ===== src/Metering/Tests.antt =====
-- The emitter on a few events.
use platform_core.Base.{ℕ, ⊤, ◌≡◌, refl, false, none, some, [], ◌∷◌, ◌++◌, nat_eq}
use platform_core.Base.Dict.{lookup, upsert, remove}
use platform_core.Base.Loops.{for_each}
use platform_core.Base.Int.{pos}
use platform_core.Metering.Types.{MeterEvent, IdEvent}
use platform_core.Metering.Wal
use platform_core.Metering.Wal.{line, torn, read_all, read_lines, without}
use platform_core.Metering.WalLaws.{append-after_torn}
use platform_core.Metering.Dlq
use platform_core.Metering.Repository.{insert_batch, exists_by_id}
use platform_core.Metering.Emitter.{
  Config, Emitter, answered, refused, unanswered, begin_emit, end_emit, begin_flush, end_flush,
  fail_batch, fail_event, succeed_batch, close, restart, end_replay,
}
use platform_core.Metering.Runs.{Runs}
use platform_core.Metering.Flush.{rows_of, clashes, end_flush-answered, unanswered_refuses}

metering_run : ⊤
unfolding read_all read_lines Wal.append Wal.remove Dlq.append insert_batch exists_by_id begin_emit
    end_emit begin_flush end_flush fail_batch fail_event succeed_batch restart close end_replay
    lookup upsert remove for_each
metering_run = tt

abbrev call : MeterEvent
call = record {
  tenant = 7;
  cost = pos 3;
  charge = pos 4;
  capability = 1;
  provider = 2;
  timestamp = 1000;
  session_id = none;
  duration = none;
  usage = none;
  tier = none;
  metadata = none;
}

abbrev event : ℕ → IdEvent
event i = record { id = i; event = call }

abbrev config : Config
config = record { batch_size = 1; max_retries = 2 }

abbrev fresh : Emitter
fresh = record {
  wal = none;
  dlq = [];
  table = [];
  appended = [];
  buffer = [];
  retry_count = [];
  in_flight = [];
  replaying = none;
  closed = false;
}

-- An event is logged, buffered and sent; the insert fails twice.
abbrev sent : Emitter
sent = end_emit config (begin_emit 1 call (restart fresh))

abbrev failed : Emitter
failed = end_flush config refused 5 (event 1 ∷ []) (record sent { in_flight = [] })

failed_once : (failed.buffer ≡ event 1 ∷ []) × (read_all failed.wal ≡ event 1 ∷ [])
unfolding metering_run
failed_once = (refl, refl)

abbrev failed_again : Emitter
failed_again =
    end_flush config refused 6 (event 1 ∷ []) (record (begin_flush failed) { in_flight = [] })

dead_after_two :
    (failed_again.buffer ≡ [])
    × (read_all failed_again.wal ≡ [])
    × (Dlq.dead_ids failed_again.dlq ≡ 1 ∷ [])
unfolding metering_run
dead_after_two = (refl, refl, refl)

append-after_torn_example :
    read_all (Wal.append (event 2) (some ((line (event 1) ∷ []) ++ torn ∷ [])))
    ≡ read_all (some (line (event 1) ∷ []))
append-after_torn_example = append-after_torn (line (event 1) ∷ []) (event 2)

two_new : clashes (event 1 ∷ event 2 ∷ []) fresh.table ≡ false
unfolding metering_run
two_new = refl

end_flush-answered_example :
    let t = end_flush config answered 5 (event 1 ∷ event 2 ∷ []) fresh in
    (t.table ≡ [] ++ rows_of (event 1 ∷ event 2 ∷ []))
    × (read_all t.wal ≡ without (1 ∷ 2 ∷ []) (read_all none))
    × (t.buffer ≡ [])
    × (t.dlq ≡ [])
end_flush-answered_example = end_flush-answered config 5 (event 1 ∷ event 2 ∷ []) fresh two_new

unanswered_refuses_example :
    (end_flush config answered 6
      (event 2 ∷ event 3 ∷ [])
      (end_flush config unanswered 5 (event 1 ∷ event 2 ∷ []) fresh)).table
    ≡ (end_flush config unanswered 5 (event 1 ∷ event 2 ∷ []) fresh).table
unanswered_refuses_example =
    unanswered_refuses config 5 (event 1 ∷ event 2 ∷ []) fresh two_new 2 6 (event 2 ∷ event 3 ∷ [])
      refl refl
