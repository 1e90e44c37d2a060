-- ===== src/Credits/Ledger/Posting.antt =====
-- `post` as a whole (src/credits/ledger.ts): what a posted entry has met and changed, and what a refused
-- one leaves.
use platform_core.Base.{
  ◌≡◌, refl, sym, ◌∙◌, ap, List, arith, if◌then◌else◌, ℕ, inl, inr, Bool-cases, ◌≤◌, length, ltb,
}
use platform_core.Base.Int.{ℤ, pos, eqb_ℤ, eqb_ℤ→eq, zero_+ℤ}
use platform_core.Credits.Types.{
  Side, JournalLine, PostEntryInput, EntryRow, JournalEntry, Db, Error, Result, ok, err,
}
use platform_core.Credits.Ledger.Tx.{transaction}
use platform_core.Credits.Ledger.Post.{check_lines, entry_row, post_tx, post}
use platform_core.Credits.Ledger.Lines.{line_total, check_lines_sound}
use platform_core.Credits.Ledger.Consistency.{IsConsistent}
use platform_core.Credits.Ledger.Recorded.{Recorded, Posted, post_tx-Recorded}

pub transaction-eq-ok :
    {A : Type 0} (m : Db → Result (A × Db)) (db : Db) {a : A} {db' : Db}
    → transaction m db ≡ (ok a, db')
    → m db ≡ ok (a, db')
transaction-eq-ok m db h = ground arith

-- A transaction that throws leaves the tables as they were.
pub transaction-eq-err :
    {A : Type 0} (m : Db → Result (A × Db)) (db : Db) {e : Error} {db' : Db}
    → transaction m db ≡ (err e, db')
    → db' ≡ db
transaction-eq-err m db h = ground arith

-- An entry is posted only if it has two lines or more, all of positive amounts that balance, and if
-- the balance covers what `balanceCheck` asks for, and its id and reference id are new; it then adds to the
-- journal exactly its row, and exactly its lines under the entry's id, in the order of their accounts.
pub post-Posted :
    (i now : ℕ) (input : PostEntryInput) (db : Db) {entry : JournalEntry} {db' : Db}
    → post i now input db ≡ (ok entry, db')
    → Posted i now input db db'
unfolding post
post-Posted i now input db {entry} {db'} h = elim (Bool-cases (ltb (length input.lines) 2)) [
  | inl few ↦ absurd (ground arith)
  | inr enough ↦
      even_or_not (check_lines input.lines (pos 0) (pos 0)) refl (rw enough at h) (ground arith)
]
  where
    even_or_not :
        (r : Result (ℤ × ℤ))
        → check_lines input.lines (pos 0) (pos 0) ≡ r
        → elim r [
          | err e ↦ (err e, db)
          | ok (total_debit, total_credit) ↦
              if eqb_ℤ total_debit total_credit
              then transaction (post_tx i now input) db
              else (err Error.unbalanced_entry, db)
        ]
          ≡ (ok entry, db')
        → 2 ≤ length input.lines
        → Posted i now input db db'
    even_or_not (err e) c k two = absurd (ground arith)
    even_or_not (ok (d, t)) c k two = elim (Bool-cases (eqb_ℤ d t)) [
      | inr uneven ↦ absurd (ground arith)
      | inl even ↦
          let (dd, cc', ps) = check_lines_sound input.lines (pos 0) (pos 0) c in
          let (cov, new, rec, rows) =
            post_tx-Recorded i now input db {entry = entry} {db' = db'}
              (transaction-eq-ok (post_tx i now input) db (rw even at k)) in
          record {
            two_lines = two;
            positive = ps;
            balanced = sym (zero_+ℤ _) ∙ sym dd ∙ eqb_ℤ→eq d t even ∙ cc' ∙ zero_+ℤ _;
            covered = cov;
            fresh = new;
            recorded = rec;
            lines = rows;
          }
    ]

-- A refused entry changes nothing.
pub post_error_unchanged :
    (i now : ℕ) (input : PostEntryInput) (db : Db) {e : Error}
    → (post i now input db).0 ≡ err e
    → (post i now input db).1 ≡ db
unfolding post
post_error_unchanged i now input db h = ground arith

-- A recorded entry whose sides are equal keeps the books consistent.
pub Recorded-IsConsistent :
    (row : EntryRow) (ls : List JournalLine) (db db' : Db)
    → line_total Side.debit ls ≡ line_total Side.credit ls
    → Recorded row ls db db'
    → IsConsistent db
    → IsConsistent db'
Recorded-IsConsistent row ls db db' e r v = record {
  balanced = r.totals Side.debit ∙ rw (e, v.balanced) (sym (r.totals Side.credit));
  materialized = r.materialized v.materialized;
}

pub post-eq-err :
    (i now : ℕ) (input : PostEntryInput) (db : Db) {e : Error} {db' : Db}
    → post i now input db ≡ (err e, db')
    → db' ≡ db
post-eq-err i now input db h =
    sym (ap (λ (y : Result JournalEntry × Db). y.1) h)
    ∙ post_error_unchanged i now input db (ap (λ (y : Result JournalEntry × Db). y.0) h)

-- On consistent books `post` leaves consistent books, whether it returns or throws.
pub post-IsConsistent :
    (i now : ℕ) (input : PostEntryInput) (db : Db)
    → IsConsistent db
    → IsConsistent (post i now input db).1
post-IsConsistent i now input db v = go (post i now input db) refl
  where
    go : (x : Result JournalEntry × Db) → post i now input db ≡ x → IsConsistent x.1
    go (ok entry, db') e =
        let p = post-Posted i now input db e in
        Recorded-IsConsistent (entry_row i now input) input.lines db db' p.balanced p.recorded v
    go (err x, db') e = rw (post-eq-err i now input db e) v
