-- ===== src/Credits/Ledger/CappedSteps.antt =====
-- The steps of `debitCapped` (src/credits/ledger.ts): its locks, and what it writes.
use platform_core.Base.{
  ◌≡◌, ◌≢◌, refl, ◌∙◌, none, some, [], ◌∷◌, arith, Option, if◌then◌else◌, ℕ, inl, inr, Bool-cases,
  ◌⊎◌,
}
use platform_core.Base.Int.{ℤ, pos, eqb_ℤ→eq}
use platform_core.Base.Dict.{lookup}
use platform_core.Credits.Types.{
  Side, DebitType, Code, JournalLine, EntryRow, code_Eq, code_lt, JournalEntry, Db, Account, ok,
  err, Result,
}
use platform_core.Credits.Credit.{is_zero, less_than, from_raw}
use platform_core.Credits.Ledger.Tx.{>>=-eq-ok, ◌>>◌}
use platform_core.Credits.Ledger.Accounts.{debit_type_account, lock_account, insert_entry}
use platform_core.Credits.Ledger.Post.{stored_balance, write_line, post_line}
use platform_core.Credits.Ledger.Methods.{
  debit_lines, DebitOpts, capped_row, write_capped, capped_line, capped_writes, take_capped,
  debit_capped_tx, debit_capped,
}
use platform_core.Credits.Ledger.Rows.{insert_entry-eq-ok}
use platform_core.Credits.Ledger.Consistency.{IsMaterialized, HasRow}
use platform_core.Credits.Ledger.Locks.{
  Locked, Locked-refl, Locked-trans, lock_account-Locked, lock_account_found,
}
use platform_core.Credits.Ledger.Writes.{
  Written, Written-nil, write_line-Written, HasRow-write_line,
}
use platform_core.Credits.Ledger.Posting.{transaction-eq-ok}
use platform_core.Credits.Ledger.Recorded.{Recorded, steps-Recorded}

pub pair-Written :
    (a b : Account) (i : ℕ) (l k : JournalLine) (db : Db)
    → lookup l.account_code db.accounts ≡ some a
    → lookup k.account_code db.accounts ≡ some b
    → HasRow l.account_code db
    → HasRow k.account_code db
    → Written (l ∷ k ∷ []) db (write_line b.normal_side i k (write_line a.normal_side i l db))
pair-Written a b i l k db acct acct' row row' = write_line-Written a i l (k ∷ []) db acct row (
    write_line-Written b i k [] (write_line a.normal_side i l db) (unfold write_line in acct')
      (HasRow-write_line a.normal_side i l k.account_code db row') (Written-nil _))

pub pair-Recorded :
    (er : EntryRow) (a b : Account) (i : ℕ) (l k : JournalLine) (db : Db)
    → lookup l.account_code db.accounts ≡ some a
    → lookup k.account_code db.accounts ≡ some b
    → HasRow l.account_code db
    → HasRow k.account_code db
    → Recorded er (l ∷ k ∷ []) db (
        write_line b.normal_side i k
          (write_line a.normal_side i l (record db { entries = er ∷ db.entries })))
pair-Recorded er a b i l k db acct acct' row row' =
    let db1 = record db { entries = er ∷ db.entries } in
    steps-Recorded er (l ∷ k ∷ []) refl (Locked-refl db1)
      (pair-Written a b i l k db1 acct acct' row row')

pub capped_writes-eq-ok :
    (i : ℕ) (l k : JournalLine) (e0 : JournalEntry) (db : Db) (b : Account) {entry : JournalEntry}
    {db' : Db}
    → lookup k.account_code db.accounts ≡ some b
    → capped_writes i l k e0 db ≡ ok (entry, db')
    → db' ≡ write_line b.normal_side i k (write_line Side.credit i l db)
unfolding capped_writes post_line write_line
capped_writes-eq-ok i l k e0 db b e h = ground arith

pub write_capped-eq-ok :
    (i now t : ℕ) (amount : ℤ) (type : DebitType) (opts : DebitOpts) (db : Db) (b : Account)
    {entry : JournalEntry} {db' : Db}
    → lookup (debit_type_account type) db.accounts ≡ some b
    → write_capped i now t amount type opts db ≡ ok (entry, db')
    → db'
      ≡ write_line b.normal_side i (capped_line (debit_type_account type) amount Side.credit) (
          write_line Side.credit i
            (capped_line (Code.tenant t) amount Side.debit)
            (record db { entries = capped_row i now t type opts ∷ db.entries }))
unfolding write_capped
write_capped-eq-ok i now t amount type opts db b {entry} {db'} e h =
    let er = capped_row i now t type opts in
    let l = capped_line (Code.tenant t) amount Side.debit in
    let k = capped_line (debit_type_account type) amount Side.credit in
    let e0 : JournalEntry = record { header = er; lines = debit_lines t type amount } in
    let (u1, db1, h1, r1) = >>=-eq-ok (insert_entry er) (λ _. capped_writes i l k e0) db h in
    let e1 = insert_entry-eq-ok er db h1 in
    capped_writes-eq-ok i l k e0 (record db { entries = er ∷ db.entries }) b e (rw e1 at r1)

capped_writes-entry :
    (i : ℕ) (l k : JournalLine) (e0 : JournalEntry) (db : Db) {entry : JournalEntry} {db' : Db}
    → capped_writes i l k e0 db ≡ ok (entry, db')
    → entry.lines ≡ e0.lines
unfolding capped_writes post_line
capped_writes-entry i l k e0 db h = ground arith

-- The entry that is returned.
pub write_capped-lines :
    (i now t : ℕ) (amount : ℤ) (type : DebitType) (opts : DebitOpts) (db : Db)
    {entry : JournalEntry} {db' : Db}
    → write_capped i now t amount type opts db ≡ ok (entry, db')
    → entry.lines ≡ debit_lines t type amount
unfolding write_capped
write_capped-lines i now t amount type opts db {entry} {db'} h =
    let er = capped_row i now t type opts in
    let l = capped_line (Code.tenant t) amount Side.debit in
    let k = capped_line (debit_type_account type) amount Side.credit in
    let e0 : JournalEntry = record { header = er; lines = debit_lines t type amount } in
    let (u1, db1, h1, r1) = >>=-eq-ok (insert_entry er) (λ _. capped_writes i l k e0) db h in
    capped_writes-entry i l k e0 db1 r1

-- Once both accounts are locked, the writes of `debitCapped` record its row and its two lines.
pub write_capped-Recorded :
    (i now t : ℕ) (amount : ℤ) (type : DebitType) (opts : DebitOpts) (db : Db) (a b : Account)
    {entry : JournalEntry} {db' : Db}
    → IsMaterialized db
    → lookup (Code.tenant t) db.accounts ≡ some a
    → lookup (debit_type_account type) db.accounts ≡ some b
    → HasRow (Code.tenant t) db
    → HasRow (debit_type_account type) db
    → write_capped i now t amount type opts db ≡ ok (entry, db')
    → Recorded (capped_row i now t type opts) (debit_lines t type amount) db db'
write_capped-Recorded i now t amount type opts db a b m acct acct' row row' h =
    let er = capped_row i now t type opts in
    let l = capped_line (Code.tenant t) amount Side.debit in
    let k = capped_line (debit_type_account type) amount Side.credit in
    rw (write_capped-eq-ok i now t amount type opts db b acct' h)
      (rw (m.tenant_side t a acct) at (pair-Recorded er a b i l k db acct acct' row row'))

abbrev pub capped_amount : ℤ → ℤ → ℤ
capped_amount b most = if less_than b most then b else most

abbrev pub returned : Result (JournalEntry × Db) → Result (Option JournalEntry × Db)
returned w = elim w [ ok (entry, d) ↦ ok (some entry, d) | err e ↦ err e ]

-- What `debitCapped` does once both accounts are locked: nothing at a balance of zero, and else the
-- writes, with the lesser of the balance and the maximum.
pub take_capped-eq-ok :
    (i now t : ℕ) (most : ℤ) (type : DebitType) (opts : DebitOpts) (db : Db)
    {r : Option JournalEntry} {db' : Db}
    → take_capped i now t most type opts db ≡ ok (r, db')
    → let b = stored_balance (Code.tenant t) db in
      ((b ≡ pos 0) × (r ≡ none) × (db' ≡ db))
      ⊎ ((entry : JournalEntry) × (r ≡ some entry)
          × (b ≢ pos 0)
          × (write_capped i now t (capped_amount b most) type opts db ≡ ok (entry, db')))
unfolding take_capped from_raw
take_capped-eq-ok i now t most type opts db {r} {db'} h =
    let b = stored_balance (Code.tenant t) db in
    elim (Bool-cases (is_zero b)) [
      | inl z ↦ inl (eqb_ℤ→eq b (pos 0) z, ground arith, ground arith)
      | inr nz ↦ inr (
          writes (write_capped i now t (capped_amount b most) type opts db) refl (ground arith)
            (ground arith))
    ]
  where
    writes :
        (w : Result (JournalEntry × Db))
        → write_capped i now t (capped_amount (stored_balance (Code.tenant t) db) most) type opts db
          ≡ w
        → stored_balance (Code.tenant t) db ≢ pos 0
        → returned w ≡ ok (r, db')
        → (entry : JournalEntry) × (r ≡ some entry)
          × (stored_balance (Code.tenant t) db ≢ pos 0)
          × (write_capped i now t
                (capped_amount (stored_balance (Code.tenant t) db) most)
                type
                opts
                db
              ≡ ok (entry, db'))
    writes (ok (entry, d)) e nz k = (entry, ground arith, nz, e ∙ ground arith)
    writes (err x) e nz k = absurd (ground arith)

-- Both locks, in either order.
pub debit_capped-locks :
    (i now t : ℕ) (most : ℤ) (type : DebitType) (opts : DebitOpts) (db : Db)
    {r : Option JournalEntry} {db' : Db}
    → debit_capped i now t most type opts db ≡ (ok r, db')
    → (d : Db) × Locked db d
      × HasRow (Code.tenant t) d
      × HasRow (debit_type_account type) d
      × ((a : Account) × (lookup (Code.tenant t) d.accounts ≡ some a))
      × ((b : Account) × (lookup (debit_type_account type) d.accounts ≡ some b))
      × (take_capped i now t most type opts d ≡ ok (r, db'))
unfolding debit_capped debit_capped_tx
debit_capped-locks i now t most type opts db {r} {db'} h =
    let c = Code.tenant t in
    let k = debit_type_account type in
    elim (Bool-cases (code_lt k c)) [
      | inl before ↦
          let (d, l, (row1, a1), (row2, a2), rest) = locks k c (
            transaction-eq-ok
              (lock_account k >> (lock_account c >> take_capped i now t most type opts)) db
              (rw before at h)) in
          (d, l, row2, row1, a2, a1, rest)
      | inr after ↦
          let (d, l, (row1, a1), (row2, a2), rest) = locks c k (
            transaction-eq-ok
              (lock_account c >> (lock_account k >> take_capped i now t most type opts)) db
              (rw after at h)) in
          (d, l, row1, row2, a1, a2, rest)
    ]
  where
    locks :
        (c k : Code)
        → (lock_account c >> (lock_account k >> take_capped i now t most type opts)) db
          ≡ ok (r, db')
        → (d : Db) × Locked db d
          × (HasRow c d × ((a : Account) × (lookup c d.accounts ≡ some a)))
          × (HasRow k d × ((b : Account) × (lookup k d.accounts ≡ some b)))
          × (take_capped i now t most type opts d ≡ ok (r, db'))
    locks c k e =
        let (u1, d1, e1, r1) =
          >>=-eq-ok (lock_account c) (λ _. lock_account k >> take_capped i now t most type opts) db
            e in
        let (u2, d2, e2, r2) =
          >>=-eq-ok (lock_account k) (λ _. take_capped i now t most type opts) d1 r1 in
        let (l1, row1) = lock_account-Locked c db e1 in
        let (l2, row2) = lock_account-Locked k d1 e2 in
        let (a, found) = lock_account_found c db e1 in
        (
          d2,
          Locked-trans l1 l2,
          (l2.keeps_rows c row1, (a, l2.keeps_accounts c a found)),
          (row2, lock_account_found k d1 e2),
          r2,
        )
