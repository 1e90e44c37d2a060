-- ===== src/Credits/Ledger/References.antt =====
-- Reference ids and `post` (src/credits/ledger.ts, `hasReferenceId` and the unique index
-- `idx_je_reference`).
use platform_core.Base.{ℕ, ◌≡◌, refl, ◌∙◌, ap, true, false, some, arith}
use platform_core.Credits.Types.{
  Ref, ref_eq_iff, EntryRow, JournalEntry, PostEntryInput, Db, Error, Result, ok, err,
}
use platform_core.Credits.Ledger.Accounts.{has_reference_id, insert_entry}
use platform_core.Credits.Ledger.Post.{entry_row, post}
use platform_core.Credits.Ledger.Posting.{post-Posted, post-eq-err}
use platform_core.Credits.Ledger.Recorded.{IsFresh}

pub IsFresh-has_reference_id :
    (row : EntryRow) (db : Db) (r : Ref)
    → row.reference_id ≡ some r
    → IsFresh row db
    → has_reference_id r db ≡ false
unfolding insert_entry
IsFresh-has_reference_id row db r e (u, db', h) = ground arith

-- A reference id that the journal has is refused: `post` throws and changes nothing. One that `post`
-- accepts was not in the journal before, and is afterwards.
pub post-reference_id :
    (i now : ℕ) (input : PostEntryInput) (db : Db) (r : Ref)
    → input.reference_id ≡ some r
    → (has_reference_id r db ≡ true → ((e : Error) × (post i now input db ≡ (err e, db))))
      × ((entry : JournalEntry) (db' : Db)
          → post i now input db ≡ (ok entry, db')
          → (has_reference_id r db ≡ false) × (has_reference_id r db' ≡ true))
post-reference_id i now input db r given =
    (λ used. refused used (post i now input db) refl, λ entry db' h. accepted h)
  where
    accepted :
        {entry : JournalEntry} {db' : Db}
        → post i now input db ≡ (ok entry, db')
        → (has_reference_id r db ≡ false) × (has_reference_id r db' ≡ true)
    accepted {entry} {db'} h =
        let p = post-Posted i now input db h in
        (
          IsFresh-has_reference_id (entry_row i now input) db r given p.fresh,
          unfold has_reference_id in
              rw (p.recorded.entries, given) (ground (arith, ref_eq_iff r r)),
        )

    refused :
        has_reference_id r db ≡ true
        → (x : Result JournalEntry × Db) → post i now input db ≡ x
        → (e : Error) × (post i now input db ≡ (err e, db))
    refused used (err e, d) h = (e, h ∙ ap (λ (y : Db). (err e, y)) (post-eq-err i now input db h))
    refused used (ok entry, d) h = let (fresh, _) = accepted h in cc
