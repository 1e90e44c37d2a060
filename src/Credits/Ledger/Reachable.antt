-- ===== src/Credits/Ledger/Reachable.antt =====
-- The states of the ledger that its methods can reach from empty tables, and their trial balance
-- (src/credits/ledger.ts).
use platform_core.Base.{
  ◌≡◌, refl, Bool, true, false, List, [], ◌∷◌, arith, ℕ, inl, inr, Bool-cases, ◌&&◌, ◌||◌,
}
use platform_core.Base.Int.{ℤ, pos, -ℤ_self}
use platform_core.Base.Loops.{for_each}
use platform_core.Base.Dict.{lookup}
use platform_core.Credits.Types.{
  Side, CreditType, DebitType, Code, Account, Db, code_Eq, PostEntryInput, ok,
}
use platform_core.Credits.Credit.{is_zero, is_negative}
use platform_core.Credits.Ledger.Accounts.{
  system_accounts, seed_account, seed_system_accounts, insert_account,
}
use platform_core.Credits.Ledger.Post.{post, stored_balance}
use platform_core.Credits.Ledger.Methods.{
  CreditOpts, DebitOpts, credit_input, debit_input, credit, debit, debit_capped,
}
use platform_core.Credits.Ledger.Queries.{
  TrialBalance, trial_of, trial_balance, side_total, account_total,
}
use platform_core.Credits.Ledger.Consistency.{IsConsistent, insert_account-IsMaterialized}
use platform_core.Credits.Ledger.Posting.{post-IsConsistent}
use platform_core.Credits.Ledger.Capped.{debit_capped-IsConsistent}

abbrev pub empty_db : Db
empty_db = record { accounts = []; balances = []; entries = []; journal_lines = [] }

-- One call of a method, which returns or throws.
pub data Step (db : Db) : Db → Type 0 where
  seeds : Step db (seed_system_accounts db)
  posts : (i now : ℕ) (input : PostEntryInput) → Step db (post i now input db).1
  credits :
      (i now t : ℕ) (amount : ℤ) (type : CreditType) (opts : CreditOpts)
      → Step db (credit i now t amount type opts db).1
  debits :
      (i now t : ℕ) (amount : ℤ) (type : DebitType) (opts : DebitOpts)
      → Step db (debit i now t amount type opts db).1
  caps :
      (i now t : ℕ) (most : ℤ) (type : DebitType) (opts : DebitOpts)
      → Step db (debit_capped i now t most type opts db).1

pub data Reachable : Db → Type 0 where
  empty : Reachable empty_db
  next : {db db' : Db} → Reachable db → Step db db' → Reachable db'

empty_db-IsConsistent : IsConsistent empty_db
unfolding side_total account_total stored_balance lookup
empty_db-IsConsistent = record {
  balanced = refl;
  materialized = record {
    known = λ c a e. cc;
    unknown = λ c e. (refl, refl, refl);
    tenant_side = λ t a e. cc;
  };
}

abbrev is_system : Code → Bool
is_system (Code.system n) = true
is_system (Code.tenant t) = false

abbrev all_system : List (Code × Account) → Bool
all_system [] = true
all_system (x ∷ xs) = is_system x.0 && all_system xs

seed_account-IsConsistent :
    (x : Code × Account) (db : Db)
    → is_system x.0 ≡ true
    → IsConsistent db
    → IsConsistent (seed_account x db)
unfolding seed_account
seed_account-IsConsistent (c, a) db h v = record {
  balanced = unfold insert_account in v.balanced;
  materialized = insert_account-IsMaterialized c a db (λ s e. absurd (ground arith)) v.materialized;
}

seed_all-IsConsistent :
    (xs : List (Code × Account)) (db : Db)
    → all_system xs ≡ true
    → IsConsistent db
    → IsConsistent (for_each seed_account xs db)
unfolding for_each
seed_all-IsConsistent [] db h v = v
seed_all-IsConsistent (x ∷ xs) db h v =
    seed_all-IsConsistent xs (seed_account x db) (ground arith)
      (seed_account-IsConsistent x db (ground arith) v)

seed_system_accounts-IsConsistent :
    (db : Db) → IsConsistent db → IsConsistent (seed_system_accounts db)
unfolding seed_system_accounts
seed_system_accounts-IsConsistent db v = seed_all-IsConsistent system_accounts db refl v

pub credit-IsConsistent :
    (i now t : ℕ) (amount : ℤ) (type : CreditType) (opts : CreditOpts) (db : Db)
    → IsConsistent db
    → IsConsistent (credit i now t amount type opts db).1
unfolding credit
credit-IsConsistent i now t amount type opts db v =
    elim (Bool-cases (is_zero amount || is_negative amount)) [
      | inl refused ↦ rw refused v
      | inr positive ↦ rw positive (post-IsConsistent i now (credit_input t amount type opts) db v)
    ]

pub debit-IsConsistent :
    (i now t : ℕ) (amount : ℤ) (type : DebitType) (opts : DebitOpts) (db : Db)
    → IsConsistent db
    → IsConsistent (debit i now t amount type opts db).1
unfolding debit
debit-IsConsistent i now t amount type opts db v =
    elim (Bool-cases (is_zero amount || is_negative amount)) [
      | inl refused ↦ rw refused v
      | inr positive ↦ rw positive (post-IsConsistent i now (debit_input t amount type opts) db v)
    ]

Step-IsConsistent : {db db' : Db} → Step db db' → IsConsistent db → IsConsistent db'
Step-IsConsistent {db = db} seeds v = seed_system_accounts-IsConsistent db v
Step-IsConsistent {db = db} (posts i now input) v = post-IsConsistent i now input db v
Step-IsConsistent {db = db} (credits i now t amount type opts) v =
    credit-IsConsistent i now t amount type opts db v
Step-IsConsistent {db = db} (debits i now t amount type opts) v =
    debit-IsConsistent i now t amount type opts db v
Step-IsConsistent {db = db} (caps i now t most type opts) v =
    debit_capped-IsConsistent i now t most type opts db v

-- After any calls of `seedSystemAccounts`, `post`, `credit`, `debit` and `debitCapped` on empty
-- tables, whether they return or throw, the journal's debits equal its credits, and the stored
-- balance of every account is the sum of its lines in the account's normal direction.
pub Reachable-IsConsistent : {db : Db} → Reachable db → IsConsistent db
Reachable-IsConsistent empty = empty_db-IsConsistent
Reachable-IsConsistent (next r s) = Step-IsConsistent s (Reachable-IsConsistent r)

-- On reachable books, a trial balance that is returned has equal totals, says that the books balance,
-- and shows a difference of zero.
pub trial_balance-Reachable :
    {db : Db} {tb : TrialBalance}
    → Reachable db
    → trial_balance db ≡ ok tb
    → (tb.balanced ≡ true) × (tb.total_debits ≡ tb.total_credits) × (tb.difference ≡ pos 0)
trial_balance-Reachable {db} {tb} r h =
    balanced (side_total Side.debit db.journal_lines) (side_total Side.credit db.journal_lines)
      (Reachable-IsConsistent r).balanced (unfold trial_balance in h)
  where
    balanced :
        (d c : ℤ)
        → d ≡ c
        → trial_of d c ≡ ok tb
        → (tb.balanced ≡ true) × (tb.total_debits ≡ tb.total_credits) × (tb.difference ≡ pos 0)
    balanced d c e k = ground (arith, -ℤ_self c, -ℤ_self d)
