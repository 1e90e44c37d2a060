-- ===== src/Credits/Ledger/Accounts.antt =====
-- Accounts and entry rows: the code tables, the seeds, the locked resolution of an account, and
-- the insert into `journal_entries` under its unique indexes (src/credits/ledger.ts).
use platform_core.Base.{
  ℕ, Bool, false, ◌||◌, none, some, List, [], ◌∷◌, any, if◌then◌else◌, ◌==◌, ⊤,
}
use platform_core.Base.Int.{pos}
use platform_core.Base.Dict.{lookup, insert_new}
use platform_core.Base.Loops.{for_each}
use platform_core.Credits.Types.{
  Side, code_Eq, AccountType, CreditType, DebitType, EntryType, Code, Ref, ref_eq, EntryRow,
  Account, Db, Error, ok, err,
}
use platform_core.Credits.Ledger.Tx.{Tx}

-- `CREDIT_TYPE_ACCOUNT`.
unfoldable pub credit_type_account : CreditType → Code
credit_type_account CreditType.purchase = Code.system 1000
credit_type_account CreditType.signup_grant = Code.system 5000
credit_type_account CreditType.admin_grant = Code.system 5010
credit_type_account CreditType.promo = Code.system 5020
credit_type_account CreditType.referral = Code.system 5030
credit_type_account CreditType.affiliate_bonus = Code.system 5040
credit_type_account CreditType.affiliate_match = Code.system 5040
credit_type_account CreditType.bounty = Code.system 5050
credit_type_account CreditType.community_dividend = Code.system 5060
credit_type_account CreditType.correction = Code.system 5070

-- `DEBIT_TYPE_ACCOUNT`.
unfoldable pub debit_type_account : DebitType → Code
debit_type_account DebitType.bot_runtime = Code.system 4000
debit_type_account DebitType.adapter_usage = Code.system 4010
debit_type_account DebitType.addon = Code.system 4020
debit_type_account DebitType.storage_upgrade = Code.system 4030
debit_type_account DebitType.resource_upgrade = Code.system 4040
debit_type_account DebitType.onboarding_llm = Code.system 4050
debit_type_account DebitType.credit_expiry = Code.system 4060
debit_type_account DebitType.refund = Code.system 1000
debit_type_account DebitType.correction = Code.system 5070

-- The strings themselves, as entry types.
unfoldable pub credit_entry_type : CreditType → EntryType
credit_entry_type CreditType.purchase = EntryType.purchase
credit_entry_type CreditType.signup_grant = EntryType.signup_grant
credit_entry_type CreditType.admin_grant = EntryType.admin_grant
credit_entry_type CreditType.promo = EntryType.promo
credit_entry_type CreditType.referral = EntryType.referral
credit_entry_type CreditType.affiliate_bonus = EntryType.affiliate_bonus
credit_entry_type CreditType.affiliate_match = EntryType.affiliate_match
credit_entry_type CreditType.bounty = EntryType.bounty
credit_entry_type CreditType.community_dividend = EntryType.community_dividend
credit_entry_type CreditType.correction = EntryType.correction

unfoldable pub debit_entry_type : DebitType → EntryType
debit_entry_type DebitType.bot_runtime = EntryType.bot_runtime
debit_entry_type DebitType.adapter_usage = EntryType.adapter_usage
debit_entry_type DebitType.addon = EntryType.addon
debit_entry_type DebitType.storage_upgrade = EntryType.storage_upgrade
debit_entry_type DebitType.resource_upgrade = EntryType.resource_upgrade
debit_entry_type DebitType.onboarding_llm = EntryType.onboarding_llm
debit_entry_type DebitType.credit_expiry = EntryType.credit_expiry
debit_entry_type DebitType.refund = EntryType.refund
debit_entry_type DebitType.correction = EntryType.correction

abbrev system_account : ℕ → AccountType → Side → Code × Account
system_account code type side =
    (Code.system code, record { account_type = type; normal_side = side; tenant_id = none })

-- `SYSTEM_ACCOUNTS`.
abbrev pub system_accounts : List (Code × Account)
system_accounts =
    system_account 1000 AccountType.asset Side.debit
    ∷ system_account 1100 AccountType.asset Side.debit
    ∷ system_account 3000 AccountType.equity Side.credit
    ∷ system_account 4000 AccountType.revenue Side.credit
    ∷ system_account 4010 AccountType.revenue Side.credit
    ∷ system_account 4020 AccountType.revenue Side.credit
    ∷ system_account 4030 AccountType.revenue Side.credit
    ∷ system_account 4040 AccountType.revenue Side.credit
    ∷ system_account 4050 AccountType.revenue Side.credit
    ∷ system_account 4060 AccountType.revenue Side.credit
    ∷ system_account 5000 AccountType.expense Side.debit
    ∷ system_account 5010 AccountType.expense Side.debit
    ∷ system_account 5020 AccountType.expense Side.debit
    ∷ system_account 5030 AccountType.expense Side.debit
    ∷ system_account 5040 AccountType.expense Side.debit
    ∷ system_account 5050 AccountType.expense Side.debit
    ∷ system_account 5060 AccountType.expense Side.debit
    ∷ system_account 5070 AccountType.expense Side.debit
    ∷ []

-- `INSERT INTO accounts ... ON CONFLICT (code) DO NOTHING`.
unfoldable pub insert_account : Code → Account → Db → Db
insert_account code a db = record db { accounts = insert_new code a db.accounts }

unfoldable pub seed_account : Code × Account → Db → Db
seed_account (code, a) db = insert_account code a db

unfoldable pub seed_system_accounts : Db → Db
seed_system_accounts = for_each seed_account system_accounts

unfoldable pub ensure_balance : Code → Db → Db
ensure_balance code db = record db { balances = insert_new code (pos 0) db.balances }

-- `resolveAccountLocked`: the account must exist; its balance row is made if it is missing.
unfoldable pub resolve_account_locked : Code → Tx ⊤
resolve_account_locked code db = elim (lookup code db.accounts) [
  | none ↦ err (Error.account_not_found code)
  | some _ ↦ ok (tt, ensure_balance code db)
]

abbrev pub tenant_account : ℕ → Account
tenant_account t = record {
  account_type = AccountType.liability;
  normal_side = Side.credit;
  tenant_id = some t;
}

-- `ensureTenantAccountLocked`.
unfoldable pub ensure_tenant_account_locked : ℕ → Tx ⊤
ensure_tenant_account_locked t db =
    resolve_account_locked (Code.tenant t) (insert_account (Code.tenant t) (tenant_account t) db)

-- The branch on `code.startsWith("2000:")` in `post` and `debitCapped`.
unfoldable pub lock_account : Code → Tx ⊤
lock_account (Code.tenant t) = ensure_tenant_account_locked t
lock_account (Code.system n) = resolve_account_locked (Code.system n)

abbrev pub same_ref : Ref → EntryRow → Bool
same_ref r row = elim row.reference_id [ none ↦ false | some r' ↦ ref_eq r r' ]

-- `hasReferenceId`.
unfoldable pub has_reference_id : Ref → Db → Bool
has_reference_id r db = any (same_ref r) db.entries

abbrev pub same_id : ℕ → EntryRow → Bool
same_id i row = row.id == i

-- An insert into `journal_entries`: the primary key and `idx_je_reference` are unique.
unfoldable pub insert_entry : EntryRow → Tx ⊤
insert_entry row db =
    if any (same_id row.id) db.entries
      || elim row.reference_id [ none ↦ false | some r ↦ has_reference_id r db ]
    then err Error.unique_violation
    else ok (tt, record db { entries = row ∷ db.entries })
