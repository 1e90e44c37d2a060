-- ===== src/Metering/Members.antt =====
-- Which ids a list of events, the log, the table and the dead-letter queue hold.
use platform_core.Base.{
  ℕ, ◌≡◌, refl, ap, not, ◌&&◌, ◌||◌, some, List, [], ◌∷◌, ◌++◌, ◌==◌, includes, nat_eq, ==_iff,
  arith, Bool-cases, inl, inr,
}
use platform_core.Metering.Types.{IdEvent, MeterEventInsert, insert_of, ids}
use platform_core.Metering.Wal.{without}
use platform_core.Metering.Dlq
use platform_core.Metering.Dlq.{DlqEntry, dead_ids}
use platform_core.Metering.Repository.{row_ids, exists_by_id, insert_batch}
use platform_core.Metering.Emitter.{existing, to_replay}

pub includes-ids-append :
    (es fs : List IdEvent) (i : ℕ)
    → includes (ids (es ++ fs)) i ≡ (includes (ids es) i || includes (ids fs) i)
includes-ids-append [] fs i = refl
includes-ids-append (e ∷ es) fs i = ground (arith, includes-ids-append es fs i)

pub includes-row_ids-append :
    (rs : List MeterEventInsert) (e : IdEvent) (i : ℕ)
    → includes (row_ids (rs ++ insert_of e ∷ [])) i ≡ (includes (row_ids rs) i || (e.id == i))
includes-row_ids-append [] e i = ground arith
includes-row_ids-append (r ∷ rs) e i = ground (arith, includes-row_ids-append rs e i)

pub includes-dead_ids-append :
    (now retries : ℕ) (q : List DlqEntry) (e : IdEvent) (i : ℕ)
    → includes (dead_ids (Dlq.append e now retries q)) i ≡ (includes (dead_ids q) i || (e.id == i))
unfolding Dlq.append
includes-dead_ids-append now retries [] e i = ground arith
includes-dead_ids-append now retries (d ∷ q) e i =
    ground (arith, includes-dead_ids-append now retries q e i)

pub includes-ids-without :
    (is : List ℕ) (es : List IdEvent) (i : ℕ)
    → includes (ids (without is es)) i ≡ (includes (ids es) i && not (includes is i))
includes-ids-without is [] i = refl
includes-ids-without is (e ∷ es) i = elim (Bool-cases (e.id == i)) [
  | inl same ↦ ground (
    arith,
    includes-ids-without is es i,
    ==_iff e.id i,
    ap (includes is) ((==_iff e.id i).0 same),
  )
  | inr other ↦ ground (arith, includes-ids-without is es i)
]

pub includes-ids-existing :
    (table : List MeterEventInsert) (es : List IdEvent) (i : ℕ)
    → includes (ids (existing table es)) i ≡ (includes (ids es) i && exists_by_id i table)
includes-ids-existing table [] i = refl
includes-ids-existing table (e ∷ es) i = elim (Bool-cases (e.id == i)) [
  | inl same ↦ ground (
    arith,
    includes-ids-existing table es i,
    ap (λ (j : ℕ). exists_by_id j table) ((==_iff e.id i).0 same),
  )
  | inr other ↦ ground (arith, includes-ids-existing table es i)
]

pub includes-ids-to_replay :
    (table : List MeterEventInsert) (es : List IdEvent) (i : ℕ)
    → includes (ids (to_replay table es)) i ≡ (includes (ids es) i && not (exists_by_id i table))
includes-ids-to_replay table [] i = refl
includes-ids-to_replay table (e ∷ es) i = elim (Bool-cases (e.id == i)) [
  | inl same ↦ ground (
    arith,
    includes-ids-to_replay table es i,
    ap (λ (j : ℕ). exists_by_id j table) ((==_iff e.id i).0 same),
  )
  | inr other ↦ ground (arith, includes-ids-to_replay table es i)
]

-- A batch that is inserted adds its ids to the table.
pub exists_by_id-insert_batch :
    (es : List IdEvent) (rows : List MeterEventInsert) {rows' : List MeterEventInsert} (i : ℕ)
    → insert_batch es rows ≡ some rows'
    → exists_by_id i rows' ≡ (exists_by_id i rows || includes (ids es) i)
unfolding insert_batch exists_by_id
exists_by_id-insert_batch [] rows i h = ground arith
exists_by_id-insert_batch (e ∷ es) rows {rows'} i h = elim (Bool-cases (exists_by_id e.id rows)) [
  | inl taken ↦ absurd (ground arith)
  | inr free ↦ ground (
    arith,
    exists_by_id-insert_batch es (rows ++ insert_of e ∷ []) i (rw free at h),
    includes-row_ids-append rows e i,
  )
]
