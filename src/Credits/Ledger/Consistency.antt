-- ===== src/Credits/Ledger/Consistency.antt =====
-- The invariant of the ledger's tables, and each step of a transaction against it: the stored
-- balances are the sums of the journal lines, and the two sides of the journal are equal
-- (src/credits/ledger.ts; src/db/schema/ledger.ts, `accountBalances`).
use platform_core.Base.{◌≡◌, ◌∙◌, true, none, some, List, arith, is_some, ℕ, Option-cases, inl, inr}
use platform_core.Base.Int.{ℤ, pos, ◌-ℤ◌, int_laws}
use platform_core.Base.Dict.{lookup, insert_new, lookup-insert_new}
use platform_core.Credits.Types.{Side, Code, code_eq_iff, code_Eq, LineRow, Db, Account}
use platform_core.Credits.Ledger.Accounts.{insert_account, ensure_balance}
use platform_core.Credits.Ledger.Post.{stored_balance}
use platform_core.Credits.Ledger.Queries.{side_total, account_total}

-- The balance of an account's lines, in the account's normal direction.
abbrev pub net : Side → Code → List LineRow → ℤ
net Side.debit c ls = account_total Side.debit c ls -ℤ account_total Side.credit c ls
net Side.credit c ls = account_total Side.credit c ls -ℤ account_total Side.debit c ls

pub record IsMaterialized (db : Db) : Type 0 where
  pub known :
      (c : Code) (a : Account)
      → lookup c db.accounts ≡ some a
      → stored_balance c db ≡ net a.normal_side c db.journal_lines
  pub unknown :
      (c : Code)
      → lookup c db.accounts ≡ none
      → (stored_balance c db ≡ pos 0)
        × (account_total Side.debit c db.journal_lines ≡ pos 0)
        × (account_total Side.credit c db.journal_lines ≡ pos 0)
  pub tenant_side :
      (t : ℕ) (a : Account)
      → lookup (Code.tenant t) db.accounts ≡ some a
      → a.normal_side ≡ Side.credit

abbrev pub IsBalanced : Db → Type 0
IsBalanced db = side_total Side.debit db.journal_lines ≡ side_total Side.credit db.journal_lines

pub record IsConsistent (db : Db) : Type 0 where
  pub balanced : IsBalanced db
  pub materialized : IsMaterialized db

-- The account has a row in `account_balances`.
abbrev pub HasRow : Code → Db → Type 0
HasRow c db = is_some (lookup c db.balances) ≡ true

pub stored_balance-ensure_balance :
    (c j : Code) (db : Db) → stored_balance j (ensure_balance c db) ≡ stored_balance j db
unfolding stored_balance ensure_balance
stored_balance-ensure_balance c j db =
    ground (arith, lookup-insert_new c j (pos 0) db.balances, code_eq_iff c j)

pub HasRow-ensure_balance : (c j : Code) (db : Db) → HasRow j db → HasRow j (ensure_balance c db)
unfolding ensure_balance
HasRow-ensure_balance c j db h =
    ground (arith, lookup-insert_new c j (pos 0) db.balances, code_eq_iff c j)

pub HasRow-ensure_balance_self : (c : Code) (db : Db) → HasRow c (ensure_balance c db)
unfolding ensure_balance
HasRow-ensure_balance_self c db =
    ground (arith, lookup-insert_new c c (pos 0) db.balances, code_eq_iff c c)

pub ensure_balance-IsMaterialized :
    (c : Code) (db : Db) → IsMaterialized db → IsMaterialized (ensure_balance c db)
unfolding ensure_balance
ensure_balance-IsMaterialized c db m = record {
  known = λ j a e. stored_balance-ensure_balance c j db ∙ m.known j a e;
  unknown =
      λ j e. let (b, d, k) = m.unknown j e in (stored_balance-ensure_balance c j db ∙ b, d, k);
  tenant_side = m.tenant_side;
}

-- An account that is new has no lines yet.
insert_account-known :
    (c : Code) (n : Account) (db : Db) (j : Code) (a : Account)
    → IsMaterialized db
    → lookup j (insert_new c n db.accounts) ≡ some a
    → stored_balance j db ≡ net a.normal_side j db.journal_lines
insert_account-known c n db j a m e = elim (Option-cases (lookup j db.accounts)) [
  | inl new ↦
      grind (int_laws, lookup-insert_new c j n db.accounts, code_eq_iff c j, m.unknown j new)
  | inr (b, old) ↦
      ground (arith, lookup-insert_new c j n db.accounts, code_eq_iff c j, m.known j b old)
]

insert_account-tenant_side :
    (c : Code) (n : Account) (db : Db) (t : ℕ) (a : Account)
    → IsMaterialized db
    → ((s : ℕ) → c ≡ Code.tenant s → n.normal_side ≡ Side.credit)
    → lookup (Code.tenant t) (insert_new c n db.accounts) ≡ some a
    → a.normal_side ≡ Side.credit
insert_account-tenant_side c n db t a m side e =
    elim (Option-cases (lookup (Code.tenant t) db.accounts)) [
      | inl new ↦ ground (
        arith,
        lookup-insert_new c (Code.tenant t) n db.accounts,
        code_eq_iff c (Code.tenant t),
        side t,
      )
      | inr (b, old) ↦ ground (
        arith,
        lookup-insert_new c (Code.tenant t) n db.accounts,
        code_eq_iff c (Code.tenant t),
        m.tenant_side t b old,
      )
    ]

pub insert_account-IsMaterialized :
    (c : Code) (n : Account) (db : Db)
    → ((s : ℕ) → c ≡ Code.tenant s → n.normal_side ≡ Side.credit)
    → IsMaterialized db
    → IsMaterialized (insert_account c n db)
unfolding insert_account stored_balance
insert_account-IsMaterialized c n db side m = record {
  known = λ j a e. unfold stored_balance in insert_account-known c n db j a m e;
  unknown =
      λ j e. m.unknown j (ground (arith, lookup-insert_new c j n db.accounts, code_eq_iff c j));
  tenant_side = λ t a e. insert_account-tenant_side c n db t a m side e;
}
