-- ===== src/Metering/Flush.antt =====
-- What a flush leaves (src/metering/emitter.ts, src/metering/meter-event-repository.ts).
use platform_core.Base.{
  ℕ, ◌≡◌, refl, sym, ap, Bool, true, false, ◌||◌, ◌==◌, ==_iff, Option, none, some, List, [], ◌∷◌,
  ◌++◌, includes, if◌then◌else◌, nat_eq, arith, Bool-cases, inl, inr,
}
use platform_core.Metering.Types.{IdEvent, MeterEventInsert, insert_of, ids}
use platform_core.Metering.Wal.{without, read_all}
use platform_core.Metering.WalLaws.{read_all-remove}
use platform_core.Metering.Repository.{row_ids, exists_by_id, insert_batch}
use platform_core.Metering.Members.{includes-row_ids-append}
use platform_core.Metering.Emitter.{
  Config, Emitter, answered, unanswered, end_flush, fail_batch, succeed_batch, on_answer,
  on_no_answer,
}
use mathlib.Core.List.{append-nil}
use mathlib.Core.Path.{subst}

-- An id stands twice in the batch, or is in the table already.
abbrev pub clashes : List IdEvent → List MeterEventInsert → Bool
clashes [] rows = false
clashes (e ∷ es) rows = exists_by_id e.id rows || includes (ids es) e.id || clashes es rows

abbrev pub rows_of : List IdEvent → List MeterEventInsert
rows_of [] = []
rows_of (e ∷ es) = insert_of e ∷ rows_of es

pub append_shift {ℓ} :
    {A : Type ℓ} (xs : List A) (y : A) (ys : List A) → (xs ++ y ∷ []) ++ ys ≡ xs ++ y ∷ ys
append_shift [] y ys = refl
append_shift (x ∷ xs) y ys = ap (λ zs. x ∷ zs) (append_shift xs y ys)

clashes-snoc :
    (e : IdEvent) (es : List IdEvent) (rows : List MeterEventInsert)
    → clashes es (rows ++ insert_of e ∷ []) ≡ (includes (ids es) e.id || clashes es rows)
unfolding exists_by_id
clashes-snoc e [] rows = refl
clashes-snoc e (d ∷ es) rows = ground (
  arith,
  clashes-snoc e es rows,
  includes-row_ids-append rows e d.id,
  ==_iff e.id d.id,
  ==_iff d.id e.id,
)

-- An insert of a batch takes all of it or nothing.
insert_batch_lem :
    (es : List IdEvent) (rows : List MeterEventInsert)
    → insert_batch es rows ≡ (if clashes es rows then none else some (rows ++ rows_of es))
unfolding insert_batch
insert_batch_lem [] rows = ap some (sym (append-nil rows))
insert_batch_lem (e ∷ es) rows = elim (Bool-cases (exists_by_id e.id rows)) [
  | inl taken ↦ rw taken refl
  | inr free ↦
      rw
        (
          free,
          insert_batch_lem es (rows ++ insert_of e ∷ []),
          clashes-snoc e es rows,
          append_shift rows (insert_of e) (rows_of es),
        )
        refl
]

taken-clashes :
    (i : ℕ) (es : List IdEvent) (rows : List MeterEventInsert)
    → includes (ids es) i ≡ true
    → exists_by_id i rows ≡ true
    → clashes es rows ≡ true
taken-clashes i [] rows h k = cc
taken-clashes i (e ∷ es) rows h k = elim (Bool-cases (e.id == i)) [
  | inl same ↦ rw ((==_iff e.id i).0 same, k) refl
  | inr other ↦ ground (arith, taken-clashes i es rows)
]

exists_by_id-rows_of :
    (i : ℕ) (es : List IdEvent) (rows : List MeterEventInsert)
    → includes (ids es) i ≡ true
    → exists_by_id i (rows ++ rows_of es) ≡ true
unfolding exists_by_id
exists_by_id-rows_of i es [] h = held es h
  where
    held :
        (fs : List IdEvent) → includes (ids fs) i ≡ true → includes (row_ids (rows_of fs)) i ≡ true
    held [] k = k
    held (f ∷ fs) k = ground (arith, held fs)
exists_by_id-rows_of i es (r ∷ rows) h = ground (arith, exists_by_id-rows_of i es rows h)

module _ (cfg : Config) (now : ℕ) (batch : List IdEvent) (s : Emitter)
    (new : clashes batch s.table ≡ false) where
  taken : insert_batch batch s.table ≡ some (s.table ++ rows_of batch)
  taken = rw (insert_batch_lem batch s.table, new) refl

  -- A batch of new events, no id of which stands twice, is recorded when the database answers: its rows
  -- are added to the table, its events are taken off the log, which keeps all others in their order, and
  -- the buffer and the dead-letter queue stay as they are.
  pub end_flush-answered :
      let t = end_flush cfg answered now batch s in
      (t.table ≡ s.table ++ rows_of batch)
      × (read_all t.wal ≡ without (ids batch) (read_all s.wal))
      × (t.buffer ≡ s.buffer)
      × (t.dlq ≡ s.dlq)
  unfolding end_flush succeed_batch
  end_flush-answered =
      subst
        (λ (o : Option (List MeterEventInsert)).
          let t = on_answer cfg now batch s o in
          (t.table ≡ s.table ++ rows_of batch)
          × (read_all t.wal ≡ without (ids batch) (read_all s.wal))
          × (t.buffer ≡ s.buffer)
          × (t.dlq ≡ s.dlq))
        (sym taken) (refl, read_all-remove (ids batch) s.wal, refl, refl)

  unanswered_table : (end_flush cfg unanswered now batch s).table ≡ s.table ++ rows_of batch
  unfolding end_flush fail_batch
  unanswered_table =
      subst
        (λ (o : Option (List MeterEventInsert)).
          (on_no_answer cfg now batch s o).table ≡ s.table ++ rows_of batch)
        (sym taken) refl

  -- Once a batch of new events was inserted and the answer, or the rewrite of the log, failed, a later
  -- batch that holds one of its events again inserts none of its events, new ones included: the table
  -- stays as it was.
  pub unanswered_refuses :
      (i now' : ℕ) (later : List IdEvent)
      → includes (ids batch) i ≡ true
      → includes (ids later) i ≡ true
      → (end_flush cfg answered now' later (end_flush cfg unanswered now batch s)).table
        ≡ (end_flush cfg unanswered now batch s).table
  unanswered_refuses i now' later h k =
      refused_table (end_flush cfg unanswered now batch s) unanswered_table
    where
      refused_table :
          (t : Emitter)
          → t.table ≡ s.table ++ rows_of batch
          → (end_flush cfg answered now' later t).table ≡ t.table
      refused_table t q =
          let c : (insert_batch later t.table ≡ none) =
            rw
              (
                insert_batch_lem later t.table,
                taken-clashes i later t.table k (rw q (exists_by_id-rows_of i batch s.table h)),
              )
              refl in
          unfold end_flush fail_batch in
          subst
            (λ (o : Option (List MeterEventInsert)). (on_answer cfg now' later t o).table ≡ t.table)
            (sym c) refl
