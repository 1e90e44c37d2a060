-- ===== src/Credits/Ledger/TotalSteps.antt =====
-- When each step of `post` succeeds (src/credits/ledger.ts).
use platform_core.Base.{
  ℕ, ◌≡◌, refl, true, some, arith, ⊤, List, [], ◌∷◌, All, is_some, if◌then◌else◌, Option-cases,
  Bool-cases, inl, inr,
}
use mathlib.Core.Option.{get_or}
use platform_core.Base.Int.{ℤ, ◌+ℤ◌, +ℤ_zero, +ℤ_assoc}
use platform_core.Base.Dict.{lookup, lookup-insert_new}
use platform_core.Credits.Types.{
  Side, Code, code_eq_iff, code_Eq, code_lt, JournalLine, Account, EntryRow, Db, ok,
}
use platform_core.Credits.Ledger.Tx.{>>=_ok}
use platform_core.Credits.Ledger.Accounts.{
  lock_account, resolve_account_locked, ensure_tenant_account_locked, insert_account,
  tenant_account, ensure_balance,
}
use platform_core.Credits.Ledger.Post.{
  side_eq, check_lines, insert_line, sort_lines, lock_lines, write_line, post_line, post_lines,
}
use platform_core.Credits.Ledger.Lines.{IsPositive, line_total}
use platform_core.Credits.Ledger.Locks.{
  Locked, Locked-refl, Locked-trans, lock_account-Locked, lock_account_found,
  resolve_account_locked_known,
}
use platform_core.Credits.Ledger.Rows.{post_line_known}

pub check_lines_complete :
    (ls : List JournalLine) (d c : ℤ)
    → All IsPositive ls
    → check_lines ls d c ≡ ok (d +ℤ line_total Side.debit ls, c +ℤ line_total Side.credit ls)
unfolding check_lines line_total
check_lines_complete [] d c h = rw (+ℤ_zero d, +ℤ_zero c)
check_lines_complete (l ∷ ls) d c (p, ps) = ground (
  arith,
  check_lines_complete ls (if side_eq l.side Side.debit then d +ℤ l.amount else d)
      (if side_eq l.side Side.debit then c else c +ℤ l.amount) ps,
  +ℤ_assoc d l.amount (line_total Side.debit ls),
  +ℤ_assoc c l.amount (line_total Side.credit ls),
)

pub All-insert_line :
    (P : JournalLine → Type 0) (l : JournalLine) (ls : List JournalLine)
    → P l
    → All P ls
    → All P (insert_line l ls)
unfolding insert_line
All-insert_line P l [] p h = (p, tt)
All-insert_line P l (m ∷ ms) p (q, h) = elim (Bool-cases (code_lt m.account_code l.account_code)) [
  | inl below ↦ rw below (q, All-insert_line P l ms p h)
  | inr above ↦ rw above (p, (q, h))
]

pub All-sort_lines :
    (P : JournalLine → Type 0) (ls : List JournalLine) → All P ls → All P (sort_lines ls)
unfolding sort_lines
All-sort_lines P [] h = tt
All-sort_lines P (l ∷ ls) (p, h) = All-insert_line P l (sort_lines ls) p (All-sort_lines P ls h)

-- The account exists, or is a tenant's, which is made on the first use.
abbrev pub CanLock : Code → Db → Type 0
CanLock (Code.tenant t) db = ⊤
CanLock (Code.system n) db = is_some (lookup (Code.system n) db.accounts) ≡ true

pub CanLock-Locked : (c : Code) (db db' : Db) → Locked db db' → CanLock c db → CanLock c db'
CanLock-Locked (Code.tenant t) db db' l h = tt
CanLock-Locked (Code.system n) db db' l h =
    elim (Option-cases (lookup (Code.system n) db.accounts)) [
      | inl e ↦ absurd (ground arith)
      | inr (a, e) ↦ rw (l.keeps_accounts (Code.system n) a e)
    ]

pub tenant_found :
    (t : ℕ) (db : Db)
    → (a : Account) × (lookup
          (Code.tenant t)
          (insert_account (Code.tenant t) (tenant_account t) db).accounts
        ≡ some a)
unfolding insert_account
tenant_found t db = (
  get_or (lookup (Code.tenant t) db.accounts) (tenant_account t),
  ground (
    arith,
    lookup-insert_new (Code.tenant t) (Code.tenant t) (tenant_account t) db.accounts,
    code_eq_iff (Code.tenant t) (Code.tenant t),
  ),
)

pub lock_account_total :
    (c : Code) (db : Db) → CanLock c db → (u : ⊤) × (db' : Db) × (lock_account c db ≡ ok (u, db'))
unfolding lock_account ensure_tenant_account_locked resolve_account_locked
lock_account_total (Code.system n) db h = elim (Option-cases (lookup (Code.system n) db.accounts)) [
  | inl e ↦ absurd (ground arith)
  | inr (a, e) ↦ (tt, ensure_balance (Code.system n) db, ground arith)
]
lock_account_total (Code.tenant t) db h =
    let db1 = insert_account (Code.tenant t) (tenant_account t) db in
    let (a, e) = tenant_found t db in
    (tt, ensure_balance (Code.tenant t) db1, resolve_account_locked_known (Code.tenant t) a db1 e)

abbrev pub AllFound : List JournalLine → Db → Type 0
AllFound ls db =
    All (λ (l : JournalLine). (a : Account) × (lookup l.account_code db.accounts ≡ some a)) ls

pub AllFound-mono :
    (ls : List JournalLine) (db db' : Db)
    → ((j : Code) (a : Account) → lookup j db.accounts ≡ some a → lookup j db'.accounts ≡ some a)
    → AllFound ls db
    → AllFound ls db'
AllFound-mono [] db db' keep h = tt
AllFound-mono (l ∷ ls) db db' keep ((a, e), h) =
    ((a, keep l.account_code a e), AllFound-mono ls db db' keep h)

abbrev pub AllCanLock : List JournalLine → Db → Type 0
AllCanLock ls db = All (λ (l : JournalLine). CanLock l.account_code db) ls

pub AllCanLock-Locked :
    (ls : List JournalLine) (db db' : Db) → Locked db db' → AllCanLock ls db → AllCanLock ls db'
AllCanLock-Locked [] db db' l h = tt
AllCanLock-Locked (m ∷ ms) db db' l (p, h) =
    (CanLock-Locked m.account_code db db' l p, AllCanLock-Locked ms db db' l h)

pub CanLock-entries :
    (es : List EntryRow) (c : Code) (db : Db)
    → CanLock c db
    → CanLock c (record db { entries = es })
CanLock-entries es (Code.tenant t) db h = tt
CanLock-entries es (Code.system n) db h = h

pub AllCanLock-entries :
    (es : List EntryRow) (ls : List JournalLine) (db : Db)
    → AllCanLock ls db
    → AllCanLock ls (record db { entries = es })
AllCanLock-entries es [] db h = tt
AllCanLock-entries es (l ∷ ls) db (p, ps) =
    (CanLock-entries es l.account_code db p, AllCanLock-entries es ls db ps)

pub lock_lines_total :
    (ls : List JournalLine) (db : Db)
    → AllCanLock ls db
    → (u : ⊤) × (db' : Db) × (lock_lines ls db ≡ ok (u, db')) × Locked db db' × AllFound ls db'
unfolding lock_lines
lock_lines_total [] db h = (tt, db, refl, Locked-refl db, tt)
lock_lines_total (l ∷ ls) db (p, ps) =
    let (u1, db1, e1) = lock_account_total l.account_code db p in
    let (k1, row) = lock_account-Locked l.account_code db e1 in
    let (a, found) = lock_account_found l.account_code db e1 in
    let (u2, db2, e2, k2, rest) = lock_lines_total ls db1 (AllCanLock-Locked ls db db1 k1 ps) in
    (
      u2,
      db2,
      >>=_ok (lock_account l.account_code) (λ _. lock_lines ls) db e1 e2,
      Locked-trans k1 k2,
      ((a, k2.keeps_accounts l.account_code a found), rest),
    )

pub post_lines_total :
    (i : ℕ) (ls : List JournalLine) (db : Db)
    → AllFound ls db
    → (u : ⊤) × (db' : Db) × (post_lines i ls db ≡ ok (u, db'))
unfolding post_lines
post_lines_total i [] db h = (tt, db, refl)
post_lines_total i (l ∷ ls) db ((a, e), rest) =
    let w = write_line a.normal_side i l db in
    let (u, db', e') =
      post_lines_total i ls w (AllFound-mono ls db w (λ j b k. unfold write_line in k) rest) in
    (u, db', >>=_ok (post_line i l) (λ _. post_lines i ls) db (post_line_known i l db a e) e')
