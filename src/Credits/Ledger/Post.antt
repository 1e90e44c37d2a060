-- ===== src/Credits/Ledger/Post.antt =====
-- `post`, which every mutation of the ledger calls (src/credits/ledger.ts). The entry's random id and
-- the clock's time are arguments.
use platform_core.Base.{
  ℕ, Bool, true, false, ◌||◌, Option, none, some, List, [], ◌∷◌, length, if◌then◌else◌, ltb, ⊤,
}
use mathlib.Core.Option.{get_or}
use platform_core.Base.Int.{ℤ, pos, ◌+ℤ◌, ◌-ℤ◌, eqb_ℤ}
use platform_core.Base.Dict.{lookup, update}
use platform_core.Credits.Types.{
  Side, code_Eq, Code, code_lt, JournalLine, BalanceCheck, PostEntryInput, EntryRow, JournalEntry,
  Db, Error, Result, ok, err,
}
use platform_core.Credits.Credit.{from_raw, is_zero, is_negative, less_than}
use platform_core.Credits.Ledger.Tx.{Tx, Action, ◌>>=◌, ◌>>◌, pure, throw, lift, gets, transaction}
use platform_core.Credits.Ledger.Accounts.{lock_account, insert_entry}

abbrev pub side_eq : Side → Side → Bool
side_eq Side.debit Side.debit = true
side_eq Side.credit Side.credit = true
side_eq _ _ = false

-- The loop that adds up the two sides, in big integers.
unfoldable pub check_lines : List JournalLine → ℤ → ℤ → Result (ℤ × ℤ)
check_lines [] total_debit total_credit = ok (total_debit, total_credit)
check_lines (l ∷ ls) total_debit total_credit =
    let rest =
      check_lines ls (if side_eq l.side Side.debit then total_debit +ℤ l.amount else total_debit)
        (if side_eq l.side Side.debit then total_credit else total_credit +ℤ l.amount) in
    if is_zero l.amount || is_negative l.amount then err Error.non_positive_line else rest

-- `[...lines].sort(...)` by account code, which is stable.
unfoldable pub insert_line : JournalLine → List JournalLine → List JournalLine
insert_line l [] = l ∷ []
insert_line l (m ∷ ms) =
    if code_lt m.account_code l.account_code then m ∷ insert_line l ms else l ∷ m ∷ ms

unfoldable pub sort_lines : List JournalLine → List JournalLine
sort_lines [] = []
sort_lines (l ∷ ls) = insert_line l (sort_lines ls)

-- Phase 1.
unfoldable pub lock_lines : List JournalLine → Tx ⊤
lock_lines [] = pure tt
lock_lines (l ∷ ls) = lock_account l.account_code >> lock_lines ls

-- The stored balance of an account, 0 where there is no row.
unfoldable pub stored_balance : Code → Db → ℤ
stored_balance code db = get_or (lookup code db.balances) (pos 0)

-- Phase 2.
unfoldable pub check_balance : Option BalanceCheck → Tx ⊤
check_balance none = pure tt
check_balance (some c) = do
  current ← gets (stored_balance (Code.tenant c.tenant_id))
  current_balance ← lift (from_raw current)
  if less_than current_balance c.amount
      then throw (Error.insufficient_balance current_balance c.amount)
      else pure tt

-- What a line of an entry does to its account's balance, in the account's normal direction.
abbrev pub delta : Side → Side → ℤ → ℤ
delta normal_side side amount = if side_eq side normal_side then amount else pos 0 -ℤ amount

-- The insert of a line and the update of its account's balance.
unfoldable pub write_line : Side → ℕ → JournalLine → Db → Db
write_line normal_side entry_id l db = record db {
  journal_lines =
      record {
        journal_entry_id = entry_id;
        account = l.account_code;
        amount = l.amount;
        side = l.side;
      }
      ∷ db.journal_lines;
  balances = update l.account_code (λ b. b +ℤ delta normal_side l.side l.amount) db.balances;
}

-- One round of phase 3.
unfoldable pub post_line : ℕ → JournalLine → Tx ⊤
post_line entry_id l db = elim (lookup l.account_code db.accounts) [
  | none ↦ err (Error.missing_normal_side l.account_code)
  | some a ↦ ok (tt, write_line a.normal_side entry_id l db)
]

-- Phase 3.
unfoldable pub post_lines : ℕ → List JournalLine → Tx ⊤
post_lines entry_id [] = pure tt
post_lines entry_id (l ∷ ls) = post_line entry_id l >> post_lines entry_id ls

abbrev pub entry_row : ℕ → ℕ → PostEntryInput → EntryRow
entry_row entry_id now input = record {
  id = entry_id;
  posted_at = get_or input.posted_at now;
  entry_type = input.entry_type;
  tenant_id = input.tenant_id;
  reference_id = input.reference_id;
  metadata = input.metadata;
}

-- The transaction of `post`.
unfoldable pub post_tx : ℕ → ℕ → PostEntryInput → Tx JournalEntry
post_tx entry_id now input = do
  insert_entry (entry_row entry_id now input)
  let sorted_lines = sort_lines input.lines
  lock_lines sorted_lines
  check_balance input.balance_check
  post_lines entry_id sorted_lines
  pure (record { header = entry_row entry_id now input; lines = sorted_lines })

unfoldable pub post : ℕ → ℕ → PostEntryInput → Action JournalEntry
post entry_id now input db =
    if ltb (length input.lines) 2
    then (err Error.too_few_lines, db)
    else elim (check_lines input.lines (pos 0) (pos 0)) [
      | err e ↦ (err e, db)
      | ok (total_debit, total_credit) ↦
          if eqb_ℤ total_debit total_credit
          then transaction (post_tx entry_id now input) db
          else (err Error.unbalanced_entry, db)
    ]
