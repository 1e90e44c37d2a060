-- ===== src/Credits/Ledger/Queries.antt =====
-- The ledger's reads (src/credits/ledger.ts).
use platform_core.Base.{ℕ, Bool, ◌&&◌, ◌||◌, List, [], ◌∷◌, if◌then◌else◌}
use platform_core.Base.Int.{ℤ, pos, ◌+ℤ◌, ◌-ℤ◌, eqb_ℤ, ltb_ℤ}
use platform_core.Credits.Types.{Side, code_Eq, Code, code_eq, LineRow, Db, Error, Result, ok, err}
use platform_core.Credits.Credit.{max_safe, from_raw}
use platform_core.Credits.Ledger.Post.{side_eq, stored_balance}

-- `balance` and `accountBalance`: the stored balance, 0 for an account with no row.
unfoldable pub account_balance : Code → Db → Result ℤ
account_balance code db = from_raw (stored_balance code db)

unfoldable pub balance : ℕ → Db → Result ℤ
balance tenant db = account_balance (Code.tenant tenant) db

-- `SUM(amount)` of the lines on one side.
unfoldable pub side_total : Side → List LineRow → ℤ
side_total s [] = pos 0
side_total s (l ∷ ls) = if side_eq l.side s then l.amount +ℤ side_total s ls else side_total s ls

-- `SUM(amount)` of an account's lines on one side.
unfoldable pub account_total : Side → Code → List LineRow → ℤ
account_total s c [] = pos 0
account_total s c (l ∷ ls) =
    if side_eq l.side s && code_eq l.account c
    then l.amount +ℤ account_total s c ls
    else account_total s c ls

pub record TrialBalance : Type 0 where
  pub total_debits : ℤ
  pub total_credits : ℤ
  pub balanced : Bool
  pub difference : ℤ

-- The totals of the two sides, compared.
abbrev pub trial_of : ℤ → ℤ → Result TrialBalance
trial_of debits credits =
    if ltb_ℤ (pos max_safe) debits || ltb_ℤ (pos max_safe) credits
    then err Error.range_error
    else ok (record {
      total_debits = debits;
      total_credits = credits;
      balanced = eqb_ℤ debits credits;
      difference = if ltb_ℤ credits debits then debits -ℤ credits else credits -ℤ debits;
    })

unfoldable pub trial_balance : Db → Result TrialBalance
trial_balance db =
    trial_of (side_total Side.debit db.journal_lines) (side_total Side.credit db.journal_lines)

unfoldable pub lifetime_spend : ℕ → Db → Result ℤ
lifetime_spend tenant db =
    let raw = account_total Side.debit (Code.tenant tenant) db.journal_lines in
    if ltb_ℤ (pos max_safe) raw then err Error.range_error else from_raw raw
