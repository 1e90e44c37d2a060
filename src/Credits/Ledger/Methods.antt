-- ===== src/Credits/Ledger/Methods.antt =====
-- `credit`, `debit` and `debitCapped` (src/credits/ledger.ts). The entry's random id and the clock's
-- time are arguments.
use platform_core.Base.{ℕ, Bool, ◌||◌, Option, none, some, List, [], ◌∷◌, if◌then◌else◌}
use platform_core.Base.Int.{ℤ}
use platform_core.Credits.Types.{
  Side, code_Eq, CreditType, DebitType, Code, code_lt, Ref, JournalLine, PostEntryInput, EntryRow,
  JournalEntry, Error, err,
}
use platform_core.Credits.Credit.{from_raw, is_zero, is_negative, less_than}
use platform_core.Credits.Ledger.Tx.{Tx, Action, ◌>>=◌, ◌>>◌, pure, lift, gets, modify, transaction}
use platform_core.Credits.Ledger.Accounts.{
  credit_type_account, debit_type_account, credit_entry_type, debit_entry_type, lock_account,
  insert_entry,
}
use platform_core.Credits.Ledger.Post.{stored_balance, write_line, post_line, post}

pub record CreditOpts : Type 0 where
  pub reference_id : Option Ref
  pub attributed_user_id : Option ℕ
  pub expires_at : Option ℕ

pub record DebitOpts : Type 0 where
  pub reference_id : Option Ref
  pub allow_negative : Bool
  pub attributed_user_id : Option ℕ

abbrev pub credit_lines : ℕ → CreditType → ℤ → List JournalLine
credit_lines tenant type amount =
    record { account_code = credit_type_account type; amount = amount; side = Side.debit }
    ∷ record { account_code = Code.tenant tenant; amount = amount; side = Side.credit }
    ∷ []

abbrev pub credit_input : ℕ → ℤ → CreditType → CreditOpts → PostEntryInput
credit_input tenant amount type opts = record {
  entry_type = credit_entry_type type;
  tenant_id = tenant;
  reference_id = opts.reference_id;
  metadata = record { attributed_user_id = opts.attributed_user_id; expires_at = opts.expires_at };
  posted_at = none;
  lines =
      record { account_code = credit_type_account type; amount = amount; side = Side.debit }
      ∷ record { account_code = Code.tenant tenant; amount = amount; side = Side.credit }
      ∷ [];
  balance_check = none;
}

unfoldable pub credit : ℕ → ℕ → ℕ → ℤ → CreditType → CreditOpts → Action JournalEntry
credit entry_id now tenant amount type opts db =
    if is_zero amount || is_negative amount
    then (err Error.non_positive_amount, db)
    else post entry_id now (credit_input tenant amount type opts) db

abbrev pub debit_lines : ℕ → DebitType → ℤ → List JournalLine
debit_lines tenant type amount =
    record { account_code = Code.tenant tenant; amount = amount; side = Side.debit }
    ∷ record { account_code = debit_type_account type; amount = amount; side = Side.credit }
    ∷ []

abbrev pub debit_input : ℕ → ℤ → DebitType → DebitOpts → PostEntryInput
debit_input tenant amount type opts = record {
  entry_type = debit_entry_type type;
  tenant_id = tenant;
  reference_id = opts.reference_id;
  metadata = record { attributed_user_id = opts.attributed_user_id; expires_at = none };
  posted_at = none;
  lines =
      record { account_code = Code.tenant tenant; amount = amount; side = Side.debit }
      ∷ record { account_code = debit_type_account type; amount = amount; side = Side.credit }
      ∷ [];
  balance_check =
      if opts.allow_negative then none else some (record { tenant_id = tenant; amount = amount });
}

unfoldable pub debit : ℕ → ℕ → ℕ → ℤ → DebitType → DebitOpts → Action JournalEntry
debit entry_id now tenant amount type opts db =
    if is_zero amount || is_negative amount
    then (err Error.non_positive_amount, db)
    else post entry_id now (debit_input tenant amount type opts) db

abbrev pub capped_row : ℕ → ℕ → ℕ → DebitType → DebitOpts → EntryRow
capped_row entry_id now tenant type opts = record {
  id = entry_id;
  posted_at = now;
  entry_type = debit_entry_type type;
  tenant_id = tenant;
  reference_id = opts.reference_id;
  metadata = record { attributed_user_id = opts.attributed_user_id; expires_at = none };
}

abbrev pub capped_line : Code → ℤ → Side → JournalLine
capped_line c amount side = record { account_code = c; amount = amount; side = side }

-- Steps 6 to 8 of `debitCapped`. The balance of the tenant's account, a liability, falls by the
-- amount; the other account's normal side is looked up.
unfoldable pub capped_writes : ℕ → JournalLine → JournalLine → JournalEntry → Tx JournalEntry
capped_writes entry_id debit_side credit_side entry = do
  modify (write_line Side.credit entry_id debit_side)
  post_line entry_id credit_side
  pure entry

-- Steps 4 to 8.
unfoldable pub write_capped : ℕ → ℕ → ℕ → ℤ → DebitType → DebitOpts → Tx JournalEntry
write_capped entry_id now tenant amount type opts = do
  insert_entry (capped_row entry_id now tenant type opts)
  capped_writes entry_id (capped_line (Code.tenant tenant) amount Side.debit)
      (capped_line (debit_type_account type) amount Side.credit)
      (record {
        header = capped_row entry_id now tenant type opts;
        lines = debit_lines tenant type amount;
      })

-- `[tenantAccountCode, creditAccountCode].sort()`.
abbrev pub sorted_codes : Code → Code → Code × Code
sorted_codes a b = if code_lt b a then (b, a) else (a, b)

-- Steps 2 to 8, with both accounts locked.
unfoldable pub take_capped : ℕ → ℕ → ℕ → ℤ → DebitType → DebitOpts → Tx (Option JournalEntry)
take_capped entry_id now tenant max_amount type opts = do
  current ← gets (stored_balance (Code.tenant tenant))
  current_balance ← lift (from_raw current)
  if is_zero current_balance then pure none else do
    entry ←
        write_capped entry_id now tenant
          (if less_than current_balance max_amount then current_balance else max_amount) type opts
    pure (some entry)

unfoldable pub debit_capped_tx : ℕ → ℕ → ℕ → ℤ → DebitType → DebitOpts → Tx (Option JournalEntry)
debit_capped_tx entry_id now tenant max_amount type opts = do
  let codes = sorted_codes (Code.tenant tenant) (debit_type_account type)
  lock_account codes.0
  lock_account codes.1
  take_capped entry_id now tenant max_amount type opts

unfoldable pub debit_capped : ℕ → ℕ → ℕ → ℤ → DebitType → DebitOpts → Action (Option JournalEntry)
debit_capped entry_id now tenant max_amount type opts =
    transaction (debit_capped_tx entry_id now tenant max_amount type opts)
