-- ===== src/Metering/Batches.antt =====
-- Emits and flushes lose no event (src/metering/emitter.ts).
use platform_core.Base.{
  ℕ, ◌≡◌, refl, ap, Bool, true, false, not, ◌&&◌, ◌||◌, ◌==◌, Option, none, some, List, [], ◌∷◌,
  ◌++◌, includes, leb, length, if◌then◌else◌, nat_eq, arith, if_ind,
}
use platform_core.Metering.Types.{MeterEvent, IdEvent, MeterEventInsert, ids}
use platform_core.Metering.Wal
use platform_core.Metering.Wal.{File, pieces, read_all}
use platform_core.Metering.WalLaws.{
  IsWhole, read_all-append, read_all-remove, append-IsWhole, remove-IsWhole,
}
use platform_core.Metering.Repository.{insert_batch}
use platform_core.Metering.Members.{
  includes-ids-append, includes-ids-without, exists_by_id-insert_batch,
}
use platform_core.Metering.Emitter.{
  Config, Emitter, Failures, Outcome, answered, refused, unanswered, begin_emit, end_emit,
  begin_flush, end_flush, fail_batch, succeed_batch, send, push, on_answer, on_no_answer,
}
use platform_core.Metering.Failing.{FailsAll, for_each-FailsAll}
use platform_core.Metering.Runs.{in_wal, in_table, in_dlq, in_memory, in_batches, found_ids, IsSafe}

pub in_batches-append :
    (bs cs : List (List IdEvent)) (i : ℕ)
    → in_batches (bs ++ cs) i ≡ (in_batches bs i || in_batches cs i)
in_batches-append [] cs i = refl
in_batches-append (b ∷ bs) cs i = ground (arith, in_batches-append bs cs i)

pub in_wal-append :
    (i : ℕ) (e : IdEvent) (f : File)
    → IsWhole (pieces f)
    → includes (ids (read_all (Wal.append e f))) i ≡ (includes (ids (read_all f)) i || (e.id == i))
in_wal-append i e f h =
    rw (read_all-append e f h) (ground (arith, includes-ids-append (read_all f) (e ∷ []) i))

pub in_wal-remove :
    (i : ℕ) (is : List ℕ) (f : File)
    → includes (ids (read_all (Wal.remove is f))) i
      ≡ (includes (ids (read_all f)) i && not (includes is i))
in_wal-remove i is f = rw (read_all-remove is f) (includes-ids-without is (read_all f) i)

-- The same for a state from which a batch was taken.
pub record IsSafeBut (i : ℕ) (batch : List IdEvent) (s : Emitter) (accepted : List ℕ) : Type 0 where
  pub whole : IsWhole (pieces s.wal)
  pub kept : includes accepted i ≡ true → (in_table i s || in_wal i s || in_dlq i s) ≡ true
  pub pending :
      in_wal i s ≡ true
      → (in_table i s || in_dlq i s || in_memory i s || includes (ids batch) i) ≡ true
  pub replayed : includes (found_ids s.replaying) i ≡ true → in_table i s ≡ true

module _ (cfg : Config) (i : ℕ) where
  pub begin_flush-IsSafe :
      (s : Emitter) (accepted : List ℕ) → IsSafe i s accepted → IsSafe i (begin_flush s) accepted
  unfolding begin_flush
  begin_flush-IsSafe s accepted h = sent s.buffer refl
    where
      sent : (es : List IdEvent) → s.buffer ≡ es → IsSafe i (send es s) accepted
      sent [] q = h
      sent (e ∷ es) q = record {
        whole = h.whole;
        kept = h.kept;
        pending = λ k.
            ground
              (arith, h.pending k, q, ap ids q, in_batches-append s.in_flight ((e ∷ es) ∷ []) i);
        replayed = h.replayed;
      }

  pub begin_emit-IsSafe :
      (id : ℕ) (event : MeterEvent) (s : Emitter) (accepted : List ℕ)
      → IsSafe i s accepted
      → IsSafe i (begin_emit id event s) (if s.closed then accepted else id ∷ accepted)
  unfolding begin_emit
  begin_emit-IsSafe id event s accepted h = emitted s.closed
    where
      e : IdEvent
      e = record { id = id; event = event }

      emitted :
          (b : Bool)
          → IsSafe i
              (if b
                then s
                else record s { wal = Wal.append e s.wal; appended = s.appended ++ e ∷ [] })
              (if b then accepted else id ∷ accepted)
      emitted true = h
      emitted false = record {
        whole = append-IsWhole e s.wal h.whole;
        kept = λ k. ground (arith, h.kept, in_wal-append i e s.wal h.whole);
        pending = λ k. ground (
          arith,
          h.pending,
          in_wal-append i e s.wal h.whole,
          includes-ids-append s.appended (e ∷ []) i,
        );
        replayed = h.replayed;
      }

  pub end_emit-IsSafe :
      (s : Emitter) (accepted : List ℕ) → IsSafe i s accepted → IsSafe i (end_emit cfg s) accepted
  unfolding end_emit
  end_emit-IsSafe s accepted h = pushed s.appended refl
    where
      pushed : (es : List IdEvent) → s.appended ≡ es → IsSafe i (push cfg es s) accepted
      pushed [] q = h
      pushed (e ∷ es) q =
          let s' = record s { appended = es; buffer = s.buffer ++ e ∷ [] } in
          let h' : IsSafe i s' accepted = record {
            whole = h.whole;
            kept = h.kept;
            pending =
                λ k. ground (arith, h.pending k, ap ids q, includes-ids-append s.buffer (e ∷ []) i);
            replayed = h.replayed;
          } in
          if_ind (λ x. IsSafe i x accepted) (leb cfg.batch_size (length s'.buffer)) (begin_flush s')
            s' (λ _. begin_flush-IsSafe s' accepted h') (λ _. h')

  fail_batch-IsSafe :
      (now : ℕ) (batch : List IdEvent) (s : Emitter) (accepted : List ℕ)
      → IsSafeBut i batch s accepted
      → IsSafe i (fail_batch cfg now batch s) accepted
  unfolding fail_batch
  fail_batch-IsSafe now batch s accepted h = failed _ (
      for_each-FailsAll cfg now i batch
        (record { retry_count = s.retry_count; dlq = s.dlq; to_retry = []; to_dlq = [] }))
    where
      failed :
          (y : Failures)
          → FailsAll i batch
              (record { retry_count = s.retry_count; dlq = s.dlq; to_retry = []; to_dlq = [] })
              y
          → IsSafe i
              (record s {
                wal = Wal.remove (ids y.to_dlq) s.wal;
                dlq = y.dlq;
                retry_count = y.retry_count;
                buffer = y.to_retry ++ s.buffer;
              })
              accepted
      failed y (hr, hd, hb, ht) = record {
        whole = remove-IsWhole (ids y.to_dlq) s.wal h.whole;
        kept = λ k. ground (arith, h.kept k, in_wal-remove i (ids y.to_dlq) s.wal, ht (λ c. cc));
        pending = λ k. ground (
          arith,
          h.pending,
          in_wal-remove i (ids y.to_dlq) s.wal,
          includes-ids-append y.to_retry s.buffer i,
        );
        replayed = h.replayed;
      }

  succeed_batch-IsSafe :
      (batch : List IdEvent) (s : Emitter) (accepted : List ℕ)
      → IsSafeBut i batch s accepted
      → (includes (ids batch) i ≡ true → in_table i s ≡ true)
      → IsSafe i (succeed_batch batch s) accepted
  unfolding succeed_batch
  succeed_batch-IsSafe batch s accepted h recorded = record {
    whole = remove-IsWhole (ids batch) s.wal h.whole;
    kept = λ k. ground (arith, h.kept k, in_wal-remove i (ids batch) s.wal);
    pending = λ k. ground (arith, h.pending, in_wal-remove i (ids batch) s.wal);
    replayed = h.replayed;
  }

  -- A batch that the database takes only adds to the table.
  insert_batch-IsSafeBut :
      (batch : List IdEvent) (s : Emitter) (accepted : List ℕ) (table : List MeterEventInsert)
      → insert_batch batch s.table ≡ some table
      → IsSafeBut i batch s accepted
      → IsSafeBut i batch (record s { table = table }) accepted
  insert_batch-IsSafeBut batch s accepted table q h = record {
    whole = h.whole;
    kept = λ k. ground (arith, h.kept k, exists_by_id-insert_batch batch s.table i q);
    pending = λ k. ground (arith, h.pending k, exists_by_id-insert_batch batch s.table i q);
    replayed = λ k. ground (arith, h.replayed k, exists_by_id-insert_batch batch s.table i q);
  }

  pub end_flush-IsSafe :
      (outcome : Outcome) (now : ℕ) (batch : List IdEvent) (s : Emitter) (accepted : List ℕ)
      → IsSafeBut i batch s accepted
      → IsSafe i (end_flush cfg outcome now batch s) accepted
  unfolding end_flush
  end_flush-IsSafe answered now batch s accepted h = settled (insert_batch batch s.table) refl
    where
      settled :
          (o : Option (List MeterEventInsert))
          → insert_batch batch s.table ≡ o
          → IsSafe i (on_answer cfg now batch s o) accepted
      settled none q = fail_batch-IsSafe now batch s accepted h
      settled (some table) q =
          succeed_batch-IsSafe batch (record s { table = table }) accepted
            (insert_batch-IsSafeBut batch s accepted table q h)
            (λ k. ground (arith, exists_by_id-insert_batch batch s.table i q))
  end_flush-IsSafe refused now batch s accepted h = fail_batch-IsSafe now batch s accepted h
  end_flush-IsSafe unanswered now batch s accepted h = settled (insert_batch batch s.table) refl
    where
      settled :
          (o : Option (List MeterEventInsert))
          → insert_batch batch s.table ≡ o
          → IsSafe i (on_no_answer cfg now batch s o) accepted
      settled none q = fail_batch-IsSafe now batch s accepted h
      settled (some table) q =
          fail_batch-IsSafe now batch (record s { table = table }) accepted
            (insert_batch-IsSafeBut batch s accepted table q h)
