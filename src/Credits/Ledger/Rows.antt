-- ===== src/Credits/Ledger/Rows.antt =====
-- What each step of a ledger transaction does to the tables when it succeeds.
use platform_core.Base.{◌≡◌, none, some, ◌∷◌, arith, Option, ℕ, Option-cases, ⊤, inl, inr}
use platform_core.Base.Dict.{lookup}
use platform_core.Credits.Types.{code_Eq, JournalLine, EntryRow, Db, Account, ok, BalanceCheck}
use platform_core.Credits.Credit.{from_raw}
use platform_core.Credits.Ledger.Accounts.{insert_entry}
use platform_core.Credits.Ledger.Post.{check_balance, write_line, post_line}

-- An insert into `journal_entries` adds the row and nothing else.
pub insert_entry-eq-ok :
    (row : EntryRow) (db : Db) {u : ⊤} {db' : Db}
    → insert_entry row db ≡ ok (u, db')
    → db' ≡ record db { entries = row ∷ db.entries }
unfolding insert_entry
insert_entry-eq-ok row db h = ground arith

pub post_line-eq-ok :
    (i : ℕ) (l : JournalLine) (db : Db) {u : ⊤} {db' : Db}
    → post_line i l db ≡ ok (u, db')
    → (a : Account) × (lookup l.account_code db.accounts ≡ some a)
      × (db' ≡ write_line a.normal_side i l db)
unfolding post_line
post_line-eq-ok i l db h = elim (Option-cases (lookup l.account_code db.accounts)) [
  | inl e ↦ absurd (ground arith)
  | inr (a, e) ↦ (a, e, ground arith)
]

pub check_balance-eq-ok :
    (c : Option BalanceCheck) (db : Db) {u : ⊤} {db' : Db}
    → check_balance c db ≡ ok (u, db')
    → db' ≡ db
unfolding check_balance from_raw
check_balance-eq-ok none db h = ground arith
check_balance-eq-ok (some c) db h = ground arith

pub post_line_known :
    (i : ℕ) (l : JournalLine) (db : Db) (a : Account)
    → lookup l.account_code db.accounts ≡ some a
    → post_line i l db ≡ ok (tt, write_line a.normal_side i l db)
unfolding post_line
post_line_known i l db a e = rw (e, post_line)
