-- ===== src/Credits/Ledger/Total.antt =====
-- When `post` posts an entry (src/credits/ledger.ts).
use platform_core.Base.{
  ℕ, ◌≤◌, ◌≡◌, refl, ◌∙◌, true, false, Option, some, none, arith, ⊤, ◌∷◌, All, length, ltb,
}
use platform_core.Base.Int.{pos, ◌+ℤ◌, ◌≤ℤ◌, eqb_ℤ, eqb_ℤ_refl}
use platform_core.Credits.Types.{
  Side, Code, code_Eq, JournalLine, BalanceCheck, PostEntryInput, JournalEntry, Db, ok,
}
use platform_core.Credits.Credit.{max_safe, from_raw}
use platform_core.Credits.Ledger.Tx.{>>=_ok, ◌>>=◌, ◌>>◌, pure, transaction}
use platform_core.Credits.Ledger.Accounts.{insert_entry}
use platform_core.Credits.Ledger.Post.{
  sort_lines, lock_lines, check_balance, post_lines, entry_row, post_tx, post, stored_balance,
}
use platform_core.Credits.Ledger.Lines.{IsPositive, line_total}
use platform_core.Credits.Ledger.Rows.{insert_entry-eq-ok}
use platform_core.Credits.Ledger.Recorded.{IsFresh}
use platform_core.Credits.Ledger.TotalSteps.{
  check_lines_complete, All-sort_lines, CanLock, AllCanLock, AllCanLock-entries, lock_lines_total,
  post_lines_total,
}

-- What `balanceCheck` asks for, of a balance that a `Credit` can hold.
abbrev pub IsAffordable : Option BalanceCheck → Db → Type 0
IsAffordable none db = ⊤
IsAffordable (some c) db =
    let b = stored_balance (Code.tenant c.tenant_id) db in (c.amount ≤ℤ b) × (b ≤ℤ pos max_safe)

check_balance_total :
    (c : Option BalanceCheck) (db db' : Db)
    → ((j : Code) → stored_balance j db' ≡ stored_balance j db)
    → IsAffordable c db
    → check_balance c db' ≡ ok (tt, db')
unfolding check_balance from_raw
check_balance_total none db db' same h = refl
check_balance_total (some c) db db' same h = ground (arith, same (Code.tenant c.tenant_id))

post_tx_total :
    (i now : ℕ) (input : PostEntryInput) (db : Db)
    → IsFresh (entry_row i now input) db
    → All (λ (l : JournalLine). CanLock l.account_code db) input.lines
    → IsAffordable input.balance_check db
    → (entry : JournalEntry) × (db' : Db) × (post_tx i now input db ≡ ok (entry, db'))
unfolding post_tx
post_tx_total i now input db (u, db1, new) can pay =
    let row = entry_row i now input in
    let ls = sort_lines input.lines in
    let entry : JournalEntry = record { header = row; lines = ls } in
    let e1 = insert_entry-eq-ok row db new in
    let db_new = record db { entries = row ∷ db.entries } in
    let can' : AllCanLock ls db1 = rw e1 (
      All-sort_lines (λ (l : JournalLine). CanLock l.account_code db_new) input.lines
        (AllCanLock-entries (row ∷ db.entries) input.lines db can)) in
    let (u2, db2, e2, k, found) = lock_lines_total ls db1 can' in
    let same : (j : Code) → stored_balance j db2 ≡ stored_balance j db =
      λ j. k.same_balances j ∙ (rw e1 (unfold stored_balance in refl)) in
    let e3 = check_balance_total input.balance_check db db2 same pay in
    let (u4, db4, e4) = post_lines_total i ls db2 found in
    let finish = λ (_ : ⊤). pure entry in
    (
      entry,
      db4,
      >>=_ok (insert_entry row)
          (λ _.
            lock_lines ls >> (check_balance input.balance_check >> (post_lines i ls >>= finish)))
          db new
          (>>=_ok (lock_lines ls)
            (λ _. check_balance input.balance_check >> (post_lines i ls >>= finish)) db1 e2
            (>>=_ok (check_balance input.balance_check) (λ _. post_lines i ls >>= finish) db2 e3
              (>>=_ok (post_lines i ls) finish db2 e4 refl))),
    )

-- An entry of two lines or more, of positive amounts that balance, with a fresh id and reference id,
-- on accounts that exist or are tenants', is posted, provided that where `balanceCheck` is given the balance
-- covers it and is at most MAX_SAFE_INTEGER.
pub post_total :
    (i now : ℕ) (input : PostEntryInput) (db : Db)
    → 2 ≤ length input.lines
    → All IsPositive input.lines
    → line_total Side.debit input.lines ≡ line_total Side.credit input.lines
    → IsFresh (entry_row i now input) db
    → All (λ (l : JournalLine). CanLock l.account_code db) input.lines
    → IsAffordable input.balance_check db
    → (entry : JournalEntry) × (db' : Db) × (post i now input db ≡ (ok entry, db'))
unfolding post
post_total i now input db two ps even new can pay =
    let (entry, db', e) = post_tx_total i now input db new can pay in
    let enough : ltb (length input.lines) 2 ≡ false = ground arith in
    let d = line_total Side.debit input.lines in
    let same : eqb_ℤ (pos 0 +ℤ d) (pos 0 +ℤ line_total Side.credit input.lines) ≡ true =
      rw even (eqb_ℤ_refl (pos 0 +ℤ line_total Side.credit input.lines)) in
    (
      entry,
      db',
      rw (enough, check_lines_complete input.lines (pos 0) (pos 0) ps)
          (rw same (rw (e, transaction))),
    )
