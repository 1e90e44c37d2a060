-- ===== src/Credits/Ledger/Writes.antt =====
-- What writing the lines of an entry does to the stored balances and the journal
-- (src/credits/ledger.ts, `post`, phase 3).
use platform_core.Base.{
  ◌≡◌, refl, ◌∙◌, Bool, true, false, none, some, List, [], ◌∷◌, arith, if◌then◌else◌, ℕ, ⊤, ◌&&◌,
}
use platform_core.Base.Int.{ℤ, pos, ◌+ℤ◌, int_laws}
use platform_core.Base.Dict.{lookup, lookup-update}
use platform_core.Credits.Types.{
  Side, Code, code_eq, code_eq_iff, code_Eq, JournalLine, Db, Account, ok,
}
use platform_core.Credits.Ledger.Tx.{>>=-eq-ok}
use platform_core.Credits.Ledger.Post.{
  side_eq, delta, write_line, post_line, post_lines, stored_balance,
}
use platform_core.Credits.Ledger.Queries.{side_total, account_total}
use platform_core.Credits.Ledger.Lines.{line_total, line_account_total}
use platform_core.Credits.Ledger.Rows.{post_line-eq-ok}
use platform_core.Credits.Ledger.Consistency.{net, IsMaterialized, HasRow}
use platform_core.Credits.Ledger.Locks.{AllRows, AllRows-mono}

pub HasRow-write_line :
    (n : Side) (i : ℕ) (l : JournalLine) (j : Code) (db : Db)
    → HasRow j db
    → HasRow j (write_line n i l db)
unfolding write_line
HasRow-write_line n i l j db h =
    ground (arith, lookup-update l.account_code j (λ b. b +ℤ delta n l.side l.amount) db.balances)

pub stored_balance-write_line :
    (n : Side) (i : ℕ) (l : JournalLine) (j : Code) (db : Db)
    → HasRow l.account_code db
    → stored_balance j (write_line n i l db) ≡ (
        if code_eq l.account_code j
        then stored_balance j db +ℤ delta n l.side l.amount
        else stored_balance j db)
unfolding write_line stored_balance
stored_balance-write_line n i l j db h = ground (
  arith,
  lookup-update l.account_code j (λ b. b +ℤ delta n l.side l.amount) db.balances,
  code_eq_iff l.account_code j,
)

account_total-write_line :
    (s n : Side) (i : ℕ) (l : JournalLine) (j : Code) (db : Db)
    → account_total s j (write_line n i l db).journal_lines ≡ (
        if side_eq l.side s && code_eq l.account_code j
        then l.amount +ℤ account_total s j db.journal_lines
        else account_total s j db.journal_lines)
unfolding write_line account_total
account_total-write_line s n i l j db = refl

net-write_line :
    (s n : Side) (i : ℕ) (l : JournalLine) (j : Code) (db : Db)
    → net s j (write_line n i l db).journal_lines ≡ (
        if code_eq l.account_code j
        then net s j db.journal_lines +ℤ delta s l.side l.amount
        else net s j db.journal_lines)
unfolding write_line account_total
net-write_line s n i l j db = grind int_laws

write_line-known :
    (a : Account) (i : ℕ) (l : JournalLine) (db : Db) (j : Code) (b : Account)
    → lookup l.account_code db.accounts ≡ some a
    → HasRow l.account_code db
    → IsMaterialized db
    → lookup j db.accounts ≡ some b
    → stored_balance j (write_line a.normal_side i l db)
      ≡ net b.normal_side j (write_line a.normal_side i l db).journal_lines
write_line-known a i l db j b acct row m e = ground (
  arith,
  stored_balance-write_line a.normal_side i l j db row,
  net-write_line b.normal_side a.normal_side i l j db,
  code_eq_iff l.account_code j,
  m.known j b e,
)

write_line-unknown :
    (n s : Side) (i : ℕ) (l : JournalLine) (db : Db) (j : Code) (a : Account)
    → lookup l.account_code db.accounts ≡ some a
    → lookup j db.accounts ≡ none
    → account_total s j (write_line n i l db).journal_lines ≡ account_total s j db.journal_lines
write_line-unknown n s i l db j a acct e =
    ground (arith, account_total-write_line s n i l j db, code_eq_iff l.account_code j)

pub write_line-IsMaterialized :
    (a : Account) (i : ℕ) (l : JournalLine) (db : Db)
    → lookup l.account_code db.accounts ≡ some a
    → HasRow l.account_code db
    → IsMaterialized db
    → IsMaterialized (write_line a.normal_side i l db)
write_line-IsMaterialized a i l db acct row m = record {
  known = λ j b e. write_line-known a i l db j b acct row m (unfold write_line in e);
  unknown = λ j e. unknown' j (unfold write_line in e);
  tenant_side = unfold write_line in m.tenant_side;
}
  where
    unknown' :
        (j : Code)
        → lookup j db.accounts ≡ none
        → (stored_balance j (write_line a.normal_side i l db) ≡ pos 0)
          × (account_total Side.debit j (write_line a.normal_side i l db).journal_lines ≡ pos 0)
          × (account_total Side.credit j (write_line a.normal_side i l db).journal_lines ≡ pos 0)
    unknown' j e =
        let (z, d, c) = m.unknown j e in
        (
          ground (
            arith,
            stored_balance-write_line a.normal_side i l j db row,
            code_eq_iff l.account_code j,
          ),
          write_line-unknown a.normal_side Side.debit i l db j a acct e ∙ d,
          write_line-unknown a.normal_side Side.credit i l db j a acct e ∙ c,
        )

-- What the lines of an entry leave behind.
pub record Written (ls : List JournalLine) (db db' : Db) : Type 0 where
  pub same_entries : db'.entries ≡ db.entries
  pub same_accounts : db'.accounts ≡ db.accounts
  pub materialized : IsMaterialized db → IsMaterialized db'
  pub totals :
      (s : Side) → side_total s db'.journal_lines ≡ line_total s ls +ℤ side_total s db.journal_lines
  pub account_totals :
      (s : Side) (c : Code)
      → account_total s c db'.journal_lines
        ≡ line_account_total s c ls +ℤ account_total s c db.journal_lines

side_total-write_line :
    (s n : Side) (i : ℕ) (l : JournalLine) (db : Db)
    → side_total s (write_line n i l db).journal_lines ≡ (
        if side_eq l.side s
        then l.amount +ℤ side_total s db.journal_lines
        else side_total s db.journal_lines)
unfolding write_line side_total
side_total-write_line s n i l db = refl

totals_step :
    (b : Bool) (x t old new r : ℤ)
    → r ≡ t +ℤ new
    → new ≡ (if b then x +ℤ old else old)
    → r ≡ (if b then x +ℤ t else t) +ℤ old
totals_step true x t old new r p q = p ∙ (rw q (omega int_laws))
totals_step false x t old new r p q = p ∙ (rw q)

pub write_line-Written :
    (a : Account) (i : ℕ) (l : JournalLine) (ls : List JournalLine) (db : Db) {db' : Db}
    → lookup l.account_code db.accounts ≡ some a
    → HasRow l.account_code db
    → Written ls (write_line a.normal_side i l db) db'
    → Written (l ∷ ls) db db'
unfolding line_total line_account_total
write_line-Written a i l ls db {db'} acct row w = record {
  same_entries = w.same_entries ∙ (unfold write_line in refl);
  same_accounts = w.same_accounts ∙ (unfold write_line in refl);
  materialized = λ m. w.materialized (write_line-IsMaterialized a i l db acct row m);
  totals = λ s.
      totals_step (side_eq l.side s) l.amount _ _ _ _ (w.totals s)
        (side_total-write_line s a.normal_side i l db);
  account_totals = λ s c.
      totals_step (side_eq l.side s && code_eq l.account_code c) l.amount _ _ _ _
        (w.account_totals s c) (account_total-write_line s a.normal_side i l c db);
}

pub Written-nil : (db : Db) → Written [] db db
unfolding line_total line_account_total
Written-nil db = record {
  same_entries = refl;
  same_accounts = refl;
  materialized = λ m. m;
  totals = λ s. omega int_laws;
  account_totals = λ s c. omega int_laws;
}

pub post_lines-Written :
    (i : ℕ) (ls : List JournalLine) (db : Db) {u : ⊤} {db' : Db}
    → post_lines i ls db ≡ ok (u, db')
    → AllRows ls db
    → Written ls db db'
unfolding post_lines
post_lines-Written i [] db {u} {db'} h rows =
    let e : db' ≡ db = ground arith in rw e (Written-nil db)
post_lines-Written i (l ∷ ls) db {u} {db'} h (row, rows) =
    let (v, db1, h1, h2) = >>=-eq-ok (post_line i l) (λ _. post_lines i ls) db h in
    let (a, acct, e) = post_line-eq-ok i l db h1 in
    let keep =
      AllRows-mono ls db (write_line a.normal_side i l db)
        (λ j. HasRow-write_line a.normal_side i l j db) rows in
    write_line-Written a i l ls db acct row
      (post_lines-Written i ls (write_line a.normal_side i l db) (rw e at h2) keep)
