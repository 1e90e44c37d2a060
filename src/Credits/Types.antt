-- ===== src/Credits/Types.antt =====
-- The ledger's data (src/credits/ledger.ts, src/db/schema/ledger.ts).
-- Tenant, entry and user ids are only compared, so they are numbers. An account code is a system
-- account's four digits or `2000:<tenant>`. A reference id is the string that a caller builds, one
-- constructor for each prefix. Times are numbers in the order of the ISO strings.
use platform_core.Base.{
  ℕ, ◌≡◌, ◌↔◌, refl, Bool, true, false, Option, List, ◌==◌, ltb, Eq, arith, ℕ_discrete,
}
use platform_core.Base.Int.{ℤ}
use platform_core.Base.Dict.{Dict}

pub data Side : Type 0 where
  debit credit : Side

pub data AccountType : Type 0 where
  asset liability equity revenue expense : AccountType

pub data CreditType : Type 0 where
  signup_grant admin_grant purchase bounty referral : CreditType
  promo community_dividend affiliate_bonus affiliate_match correction : CreditType

pub data DebitType : Type 0 where
  bot_runtime adapter_usage addon refund correction : DebitType
  resource_upgrade storage_upgrade onboarding_llm credit_expiry : DebitType

-- `entryType` is a string: `correction` is one of both kinds, `other` one of neither.
pub data EntryType : Type 0 where
  signup_grant admin_grant purchase bounty referral : EntryType
  promo community_dividend affiliate_bonus affiliate_match correction : EntryType
  bot_runtime adapter_usage addon refund : EntryType
  resource_upgrade storage_upgrade onboarding_llm credit_expiry : EntryType
  other : ℕ → EntryType

pub data Code : Type 0 where
  system tenant : ℕ → Code

abbrev pub code_eq : Code → Code → Bool
code_eq (Code.system a) (Code.system b) = a == b
code_eq (Code.tenant a) (Code.tenant b) = a == b
code_eq _ _ = false

pub code_eq_iff : (a b : Code) → (code_eq a b ≡ true) ↔ (a ≡ b)
code_eq_iff (Code.system a) (Code.system b) = ground arith
code_eq_iff (Code.system a) (Code.tenant b) = ground arith
code_eq_iff (Code.tenant a) (Code.system b) = ground arith
code_eq_iff (Code.tenant a) (Code.tenant b) = ground arith

instance abbrev pub code_Eq : Eq Code
code_Eq = record { beq = code_eq; beq_iff = code_eq_iff }

-- `a.accountCode < b.accountCode`, on the strings.
abbrev pub code_lt : Code → Code → Bool
code_lt (Code.system a) (Code.system b) = ltb a b
code_lt (Code.system a) (Code.tenant b) = ltb a 2001
code_lt (Code.tenant a) (Code.system b) = ltb 2000 b
code_lt (Code.tenant a) (Code.tenant b) = ltb a b

pub data Ref : Type 0 where
  payment signup expiry : ℕ → Ref
  runtime runtime_tier runtime_storage runtime_addon dividend : ℕ → ℕ → Ref
  promo : ℕ → ℕ → ℕ → Ref
  crypto btc : ℕ → Ref
  eth : ℕ → ℕ → Ref
  evm : ℕ → ℕ → ℕ → Ref

unfoldable pub Ref-discrete : Discrete Ref
Ref-discrete = hlevel ℕ_discrete

unfoldable pub ref_eq : Ref → Ref → Bool
ref_eq a b = elim (Ref-discrete a b) [ yes _ ↦ true | no _ ↦ false ]

pub ref_eq_iff : (a b : Ref) → (ref_eq a b ≡ true) ↔ (a ≡ b)
unfolding ref_eq
ref_eq_iff a b =
    elim (Ref-discrete a b) as (λ d. ((elim d [ yes _ ↦ true | no _ ↦ false ]) ≡ true) ↔ (a ≡ b)) [
      | yes p ↦ (λ _. p, λ _. refl)
      | no q ↦ (λ h. cc, λ p. absurd (q p))
    ]

-- What later queries read of an entry's JSON metadata.
pub record Metadata : Type 0 where
  pub attributed_user_id : Option ℕ
  pub expires_at : Option ℕ

-- A line of an entry, as it is given and as it is stored.
pub record JournalLine : Type 0 where
  pub account_code : Code
  pub amount : ℤ
  pub side : Side

pub record BalanceCheck : Type 0 where
  pub tenant_id : ℕ
  pub amount : ℤ

pub record PostEntryInput : Type 0 where
  pub entry_type : EntryType
  pub tenant_id : ℕ
  pub reference_id : Option Ref
  pub metadata : Metadata
  pub posted_at : Option ℕ
  pub lines : List JournalLine
  pub balance_check : Option BalanceCheck

-- A row of `journal_entries`.
pub record EntryRow : Type 0 where
  pub id : ℕ
  pub posted_at : ℕ
  pub entry_type : EntryType
  pub tenant_id : ℕ
  pub reference_id : Option Ref
  pub metadata : Metadata

pub record JournalEntry : Type 0 where
  pub header : EntryRow
  pub lines : List JournalLine

-- A row of `journal_lines`: the account is named by its code, which is unique like its id.
pub record LineRow : Type 0 where
  pub journal_entry_id : ℕ
  pub account : Code
  pub amount : ℤ
  pub side : Side

-- A row of `accounts`, under its code.
pub record Account : Type 0 where
  pub account_type : AccountType
  pub normal_side : Side
  pub tenant_id : Option ℕ

pub record Db : Type 0 where
  pub accounts : Dict Code Account
  pub balances : Dict Code ℤ
  pub entries : List EntryRow
  pub journal_lines : List LineRow

pub data Error : Type 0 where
  range_error too_few_lines non_positive_line unbalanced_entry non_positive_amount : Error
  account_not_found missing_normal_side : Code → Error
  insufficient_balance : ℤ → ℤ → Error
  unique_violation unresolved_accounts : Error
  other : ℕ → Error

pub data Result {ℓ} (A : Type ℓ) : Type ℓ where
  ok : A → Result A
  err : Error → Result A
