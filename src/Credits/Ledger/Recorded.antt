-- ===== src/Credits/Ledger/Recorded.antt =====
-- The transaction of `post` (src/credits/ledger.ts): what it has met and what it has recorded.
use mathlib.Core.Path.{subst}
use platform_core.Base.{
  ◌≡◌, refl, ◌∙◌, ap, none, some, List, [], ◌∷◌, arith, Option, ℕ, ⊤, All, ◌≤◌, length,
}
use platform_core.Base.Int.{◌+ℤ◌, ◌≤ℤ◌}
use platform_core.Credits.Types.{
  Side, Code, JournalLine, LineRow, BalanceCheck, PostEntryInput, EntryRow, JournalEntry, Db, ok,
}
use platform_core.Credits.Credit.{from_raw}
use platform_core.Credits.Ledger.Tx.{>>=-eq-ok, ◌>>=◌, ◌>>◌, pure}
use platform_core.Credits.Ledger.Accounts.{insert_entry}
use platform_core.Credits.Ledger.Post.{
  post_line, write_line, sort_lines, lock_lines, check_balance, post_lines, stored_balance,
  entry_row, post_tx,
}
use platform_core.Credits.Ledger.Queries.{side_total, account_total}
use platform_core.Credits.Ledger.Lines.{
  IsPositive, line_total, line_account_total, line_total-sort_lines, line_account_total-sort_lines,
}
use platform_core.Credits.Ledger.Rows.{post_line-eq-ok, insert_entry-eq-ok, check_balance-eq-ok}
use platform_core.Credits.Ledger.Consistency.{IsMaterialized}
use platform_core.Credits.Ledger.Locks.{Locked, lock_lines-Locked}
use platform_core.Credits.Ledger.Writes.{Written, post_lines-Written}

-- The tables after the entry with this row and these lines.
pub record Recorded (row : EntryRow) (ls : List JournalLine) (db db' : Db) : Type 0 where
  pub entries : db'.entries ≡ row ∷ db.entries
  pub totals :
      (s : Side) → side_total s db'.journal_lines ≡ line_total s ls +ℤ side_total s db.journal_lines
  pub account_totals :
      (s : Side) (c : Code)
      → account_total s c db'.journal_lines
        ≡ line_account_total s c ls +ℤ account_total s c db.journal_lines
  pub materialized : IsMaterialized db → IsMaterialized db'

-- The rows of an entry's lines, the last on top.
abbrev pub line_rows : ℕ → List JournalLine → List LineRow → List LineRow
line_rows entry_id [] rows = rows
line_rows entry_id (l ∷ ls) rows = line_rows entry_id ls (
    record {
      journal_entry_id = entry_id;
      account = l.account_code;
      amount = l.amount;
      side = l.side;
    }
    ∷ rows)

post_lines-rows :
    (i : ℕ) (ls : List JournalLine) (db : Db) {u : ⊤} {db' : Db}
    → post_lines i ls db ≡ ok (u, db')
    → db'.journal_lines ≡ line_rows i ls db.journal_lines
unfolding post_lines
post_lines-rows i [] db h = ground arith
post_lines-rows i (l ∷ ls) db h =
    let (u, d, e, r) = >>=-eq-ok (post_line i l) (λ _. post_lines i ls) db h in
    let (a, _, q) = post_line-eq-ok i l db e in
    post_lines-rows i ls d r
    ∙ ap (λ (x : Db). line_rows i ls x.journal_lines) q
    ∙ (unfold write_line in refl)

-- What `balanceCheck` demands of the balance before the entry.
abbrev pub IsCovered : Option BalanceCheck → Db → Type 0
IsCovered none db = ⊤
IsCovered (some c) db = c.amount ≤ℤ stored_balance (Code.tenant c.tenant_id) db

-- The journal has neither the row's id nor its reference id.
abbrev pub IsFresh : EntryRow → Db → Type 0
IsFresh row db = (u : ⊤) × (db' : Db) × (insert_entry row db ≡ ok (u, db'))

pub record Posted (i now : ℕ) (input : PostEntryInput) (db db' : Db) : Type 0 where
  pub two_lines : 2 ≤ length input.lines
  pub positive : All IsPositive input.lines
  pub balanced : line_total Side.debit input.lines ≡ line_total Side.credit input.lines
  pub covered : IsCovered input.balance_check db
  pub fresh : IsFresh (entry_row i now input) db
  pub recorded : Recorded (entry_row i now input) input.lines db db'
  pub lines : db'.journal_lines ≡ line_rows i (sort_lines input.lines) db.journal_lines

pub check_balance-IsCovered :
    (c : Option BalanceCheck) (db : Db) {u : ⊤} {db' : Db}
    → check_balance c db ≡ ok (u, db')
    → IsCovered c db
unfolding check_balance from_raw
check_balance-IsCovered none db h = tt
check_balance-IsCovered (some c) db h = ground arith

pub IsCovered-locked :
    (c : Option BalanceCheck) (db db' : Db)
    → ((j : Code) → stored_balance j db' ≡ stored_balance j db)
    → IsCovered c db'
    → IsCovered c db
IsCovered-locked none db db' e h = tt
IsCovered-locked (some c) db db' e h = rw (e (Code.tenant c.tenant_id)) at h

-- The insert of the row, the locks and the writes, in this order, record the entry.
pub steps-Recorded :
    (row : EntryRow) (ls : List JournalLine) {db db1 db2 db3 : Db}
    → db1 ≡ record db { entries = row ∷ db.entries }
    → Locked db1 db2
    → Written ls db2 db3
    → Recorded row ls db db3
steps-Recorded row ls {db} {db1} {db2} {db3} e k w = record {
  entries = w.same_entries ∙ k.same_entries ∙ ap (λ (d : Db). d.entries) e;
  totals = λ s. w.totals s ∙ ap (λ l. line_total s ls +ℤ side_total s l) lines;
  account_totals = λ s c.
      w.account_totals s c ∙ ap (λ l. line_account_total s c ls +ℤ account_total s c l) lines;
  materialized = λ m. w.materialized (k.materialized (rw e (same m)));
}
  where
    lines : db2.journal_lines ≡ db.journal_lines
    lines = k.same_lines ∙ ap (λ (d : Db). d.journal_lines) e

    same : IsMaterialized db → IsMaterialized (record db { entries = row ∷ db.entries })
    same m = record {
      known = unfold stored_balance in m.known;
      unknown = unfold stored_balance in m.unknown;
      tenant_side = m.tenant_side;
    }

pub Recorded-sort_lines :
    (row : EntryRow) (ls : List JournalLine) {db db' : Db}
    → Recorded row (sort_lines ls) db db'
    → Recorded row ls db db'
Recorded-sort_lines row ls {db} {db'} r = record {
  entries = r.entries;
  totals =
      λ s. r.totals s ∙ ap (λ t. t +ℤ side_total s db.journal_lines) (line_total-sort_lines s ls);
  account_totals = λ s c.
      r.account_totals s c
      ∙ ap (λ t. t +ℤ account_total s c db.journal_lines) (line_account_total-sort_lines s c ls);
  materialized = r.materialized;
}

pub post_tx-Recorded :
    (i now : ℕ) (input : PostEntryInput) (db : Db) {entry : JournalEntry} {db' : Db}
    → post_tx i now input db ≡ ok (entry, db')
    → IsCovered input.balance_check db
      × IsFresh (entry_row i now input) db
      × Recorded (entry_row i now input) input.lines db db'
      × (db'.journal_lines ≡ line_rows i (sort_lines input.lines) db.journal_lines)
unfolding post_tx
post_tx-Recorded i now input db {entry = entry} {db' = db'} h =
    let row = entry_row i now input in
    let ls = sort_lines input.lines in
    let finish = λ (_ : ⊤). pure (record { header = row; lines = ls }) in
    let (u1, db1, h1, r1) =
      >>=-eq-ok (insert_entry row)
        (λ _. lock_lines ls >> (check_balance input.balance_check >> (post_lines i ls >>= finish)))
        db h in
    let (u2, db2, h2, r2) =
      >>=-eq-ok (lock_lines ls)
        (λ _. check_balance input.balance_check >> (post_lines i ls >>= finish)) db1 r1 in
    let (u3, db3, h3, r3) =
      >>=-eq-ok (check_balance input.balance_check) (λ _. post_lines i ls >>= finish) db2 r2 in
    let (u4, db4, h4, r4) = >>=-eq-ok (post_lines i ls) finish db3 r3 in
    let e1 = insert_entry-eq-ok row db h1 in
    let (k, rows) = lock_lines-Locked ls db1 h2 in
    let same : (j : Code) → stored_balance j db2 ≡ stored_balance j db =
      λ j. k.same_balances j ∙ (rw e1 (unfold stored_balance in refl)) in
    let w =
      post_lines-Written i ls db2
        (subst (λ (d : Db). post_lines i ls d ≡ ok (u4, db4))
          (check_balance-eq-ok input.balance_check db2 h3) h4)
        rows in
    let last : db' ≡ db4 = ground arith in
    (
      IsCovered-locked input.balance_check db db2 same
          (check_balance-IsCovered input.balance_check db2 h3),
      (u1, db1, h1),
      rw last (Recorded-sort_lines row input.lines (steps-Recorded row ls e1 k w)),
      ap (λ (d : Db). d.journal_lines) last
          ∙ post_lines-rows i ls db3 h4
          ∙ ap (λ (d : Db). line_rows i ls d.journal_lines)
              (check_balance-eq-ok input.balance_check db2 h3)
          ∙ ap (line_rows i ls) (k.same_lines ∙ ap (λ (d : Db). d.journal_lines) e1),
    )
