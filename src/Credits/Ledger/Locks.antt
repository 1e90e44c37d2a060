-- ===== src/Credits/Ledger/Locks.antt =====
-- What locking the accounts of an entry does to the tables (src/credits/ledger.ts,
-- `ensureTenantAccountLocked`, `resolveAccountLocked`).
use platform_core.Base.{
  ◌≡◌, refl, ◌∙◌, some, List, [], ◌∷◌, arith, ℕ, Option-cases, ⊤, inl, inr, All,
}
use platform_core.Base.Dict.{lookup, lookup-insert_new}
use platform_core.Credits.Types.{Code, code_eq_iff, code_Eq, JournalLine, Db, Account, ok}
use platform_core.Credits.Ledger.Tx.{>>=-eq-ok}
use platform_core.Credits.Ledger.Accounts.{
  insert_account, ensure_balance, resolve_account_locked, ensure_tenant_account_locked,
  lock_account, tenant_account,
}
use platform_core.Credits.Ledger.Post.{lock_lines, stored_balance}
use platform_core.Credits.Ledger.Consistency.{
  IsMaterialized, HasRow, stored_balance-ensure_balance, HasRow-ensure_balance,
  HasRow-ensure_balance_self, ensure_balance-IsMaterialized, insert_account-IsMaterialized,
}

pub record Locked (db db' : Db) : Type 0 where
  pub same_lines : db'.journal_lines ≡ db.journal_lines
  pub same_entries : db'.entries ≡ db.entries
  pub same_balances : (j : Code) → stored_balance j db' ≡ stored_balance j db
  pub keeps_rows : (j : Code) → HasRow j db → HasRow j db'
  pub keeps_accounts :
      (j : Code) (a : Account) → lookup j db.accounts ≡ some a → lookup j db'.accounts ≡ some a
  pub materialized : IsMaterialized db → IsMaterialized db'

pub Locked-refl : (db : Db) → Locked db db
Locked-refl db = record {
  same_lines = refl;
  same_entries = refl;
  same_balances = λ j. refl;
  keeps_rows = λ j h. h;
  keeps_accounts = λ j a h. h;
  materialized = λ m. m;
}

pub Locked-trans : {a b c : Db} → Locked a b → Locked b c → Locked a c
Locked-trans p q = record {
  same_lines = q.same_lines ∙ p.same_lines;
  same_entries = q.same_entries ∙ p.same_entries;
  same_balances = λ j. q.same_balances j ∙ p.same_balances j;
  keeps_rows = λ j h. q.keeps_rows j (p.keeps_rows j h);
  keeps_accounts = λ j a h. q.keeps_accounts j a (p.keeps_accounts j a h);
  materialized = λ m. q.materialized (p.materialized m);
}

ensure_balance-Locked : (c : Code) (db : Db) → Locked db (ensure_balance c db)
unfolding ensure_balance
ensure_balance-Locked c db = record {
  same_lines = refl;
  same_entries = refl;
  same_balances = λ j. stored_balance-ensure_balance c j db;
  keeps_rows = λ j h. HasRow-ensure_balance c j db h;
  keeps_accounts = λ j a h. h;
  materialized = λ m. ensure_balance-IsMaterialized c db m;
}

insert_account-Locked :
    (t : ℕ) (db : Db) → Locked db (insert_account (Code.tenant t) (tenant_account t) db)
unfolding insert_account stored_balance
insert_account-Locked t db = record {
  same_lines = refl;
  same_entries = refl;
  same_balances = λ j. refl;
  keeps_rows = λ j h. h;
  keeps_accounts = λ j a h. ground (
    arith,
    lookup-insert_new (Code.tenant t) j (tenant_account t) db.accounts,
    code_eq_iff (Code.tenant t) j,
  );
  materialized =
      λ m. insert_account-IsMaterialized (Code.tenant t) (tenant_account t) db (λ s e. refl) m;
}

resolve_account_locked-eq-ok :
    (c : Code) (db : Db) {u : ⊤} {db' : Db}
    → resolve_account_locked c db ≡ ok (u, db')
    → db' ≡ ensure_balance c db
unfolding resolve_account_locked
resolve_account_locked-eq-ok c db h = ground arith

-- A system account that exists resolves, and so does every tenant's.
pub resolve_account_locked_known :
    (c : Code) (a : Account) (db : Db)
    → lookup c db.accounts ≡ some a
    → resolve_account_locked c db ≡ ok (tt, ensure_balance c db)
unfolding resolve_account_locked
resolve_account_locked_known c a db h = rw (h, resolve_account_locked)

pub lock_account-Locked :
    (c : Code) (db : Db) {u : ⊤} {db' : Db}
    → lock_account c db ≡ ok (u, db')
    → Locked db db' × HasRow c db'
unfolding lock_account ensure_tenant_account_locked
lock_account-Locked (Code.system n) db {u} {db'} h =
    let e = resolve_account_locked-eq-ok (Code.system n) db h in
    rw e (ensure_balance-Locked (Code.system n) db, HasRow-ensure_balance_self (Code.system n) db)
lock_account-Locked (Code.tenant t) db {u} {db'} h =
    let db1 = insert_account (Code.tenant t) (tenant_account t) db in
    let e = resolve_account_locked-eq-ok (Code.tenant t) db1 h in
    rw e (
      Locked-trans (insert_account-Locked t db) (ensure_balance-Locked (Code.tenant t) db1),
      HasRow-ensure_balance_self (Code.tenant t) db1,
    )

-- Every account that a line names has a row.
abbrev pub AllRows : List JournalLine → Db → Type 0
AllRows ls db = All (λ (l : JournalLine). HasRow l.account_code db) ls

pub AllRows-mono :
    (ls : List JournalLine) (db db' : Db)
    → ((j : Code) → HasRow j db → HasRow j db')
    → AllRows ls db
    → AllRows ls db'
AllRows-mono [] db db' keep h = tt
AllRows-mono (l ∷ ls) db db' keep h = (keep l.account_code h.0, AllRows-mono ls db db' keep h.1)

pub lock_lines-Locked :
    (ls : List JournalLine) (db : Db) {u : ⊤} {db' : Db}
    → lock_lines ls db ≡ ok (u, db')
    → Locked db db' × AllRows ls db'
unfolding lock_lines
lock_lines-Locked [] db {u} {db'} h = let e : db' ≡ db = ground arith in rw e (Locked-refl db, tt)
lock_lines-Locked (l ∷ ls) db {u} {db'} h =
    let (v, db1, h1, h2) = >>=-eq-ok (lock_account l.account_code) (λ _. lock_lines ls) db h in
    let (k1, row) = lock_account-Locked l.account_code db h1 in
    let (k2, rows) = lock_lines-Locked ls db1 h2 in
    (Locked-trans k1 k2, (k2.keeps_rows l.account_code row, rows))

-- A lock that is taken leaves the account in place.
pub lock_account_found :
    (c : Code) (db : Db) {u : ⊤} {db' : Db}
    → lock_account c db ≡ ok (u, db')
    → (a : Account) × (lookup c db'.accounts ≡ some a)
unfolding lock_account ensure_tenant_account_locked resolve_account_locked ensure_balance
    insert_account
lock_account_found (Code.system n) db {u} {db'} h =
    elim (Option-cases (lookup (Code.system n) db.accounts)) [
      | inl e ↦ absurd (ground arith)
      | inr (a, e) ↦ (a, ground arith)
    ]
lock_account_found (Code.tenant t) db {u} {db'} h =
    let d = lookup-insert_new (Code.tenant t) (Code.tenant t) (tenant_account t) db.accounts in
    elim (Option-cases (lookup (Code.tenant t) db.accounts)) [
      | inl e ↦ (tenant_account t, ground (arith, d, code_eq_iff (Code.tenant t) (Code.tenant t)))
      | inr (a, e) ↦ (a, ground (arith, d, code_eq_iff (Code.tenant t) (Code.tenant t)))
    ]
