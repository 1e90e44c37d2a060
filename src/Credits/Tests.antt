-- ===== src/Credits/Tests.antt =====
-- Runs of the ledger's methods on small books, and the theorems at these books.
use platform_core.Base.{
  ◌≡◌, refl, Bool, true, false, Option, none, some, List, [], ◌∷◌, arith, ⊤, ℕ_discrete,
}
use platform_core.Base.Int.{pos, negsuc, ◌+ℤ◌, ◌-ℤ◌}
use platform_core.Base.Dict.{lookup, insert_new, update}
use platform_core.Base.Loops.{for_each}
use platform_core.Credits.Types.{
  Side, CreditType, DebitType, EntryType, Code, Ref, ref_eq, Ref-discrete, PostEntryInput,
  JournalEntry, Db, Error, Result, ok, err,
}
use platform_core.Credits.Credit.{from_raw}
use platform_core.Credits.Ledger.{
  credit_type_account, debit_type_account, credit_entry_type, debit_entry_type,
  seed_system_accounts, seed_account, insert_account, ensure_balance, resolve_account_locked,
  ensure_tenant_account_locked, lock_account, insert_entry, has_reference_id, check_lines,
  sort_lines, insert_line, lock_lines, stored_balance, check_balance, write_line, post_line,
  post_lines, post_tx, post, CreditOpts, DebitOpts, credit, debit, capped_writes, debit_lines,
  write_capped, take_capped, debit_capped_tx, debit_capped, TrialBalance, trial_balance, side_total,
  entry_row,
}
use platform_core.Credits.Ledger.Lines.{line_total}
use platform_core.Credits.Ledger.Consistency.{IsConsistent}
use platform_core.Credits.Ledger.Recorded.{Posted}
use platform_core.Credits.Ledger.Posting.{post-Posted}
use platform_core.Credits.Ledger.Capped.{
  CappedOutcome, debit_capped_outcome, debit_capped_forgives_debt,
}
use platform_core.Credits.Ledger.Reachable.{
  Reachable, Step, empty_db, Reachable-IsConsistent, trial_balance-Reachable,
}
use platform_core.Credits.Ledger.References.{post-reference_id}
use platform_core.Credits.Ledger.Total.{post_total}
use platform_core.Credits.Ledger.Wallets.{wallets, Call, credits, debits, caps, Trace, run}
use platform_core.Credits.Ledger.Refinement.{run-Trace}

-- All that a method of the ledger calls.
run_methods : ⊤
unfolding credit_type_account debit_type_account credit_entry_type debit_entry_type
    seed_system_accounts seed_account insert_account ensure_balance resolve_account_locked
    ensure_tenant_account_locked lock_account insert_entry has_reference_id check_lines sort_lines
    insert_line lock_lines stored_balance check_balance write_line post_line post_lines post_tx post
    credit debit capped_writes write_capped take_capped debit_capped_tx debit_capped trial_balance
    side_total lookup insert_new update for_each from_raw ◌+ℤ◌ ◌-ℤ◌ ref_eq Ref-discrete ℕ_discrete
run_methods = tt

abbrev is_ok : {A : Type 0} → Result A → Bool
is_ok (ok a) = true
is_ok (err e) = false

abbrev value_or : {A : Type 0} → Result A → A → A
value_or (ok a) d = a
value_or (err e) d = d

returns :
    {A : Type 0} (x : Result A × Db) (d : A) → is_ok x.0 ≡ true → x ≡ (ok (value_or x.0 d), x.1)
returns (ok a, db) d h = refl
returns (err e, db) d h = cc

abbrev purchase_opts : CreditOpts
purchase_opts = record {
  reference_id = some (Ref.payment 1);
  attributed_user_id = none;
  expires_at = some 50;
}

abbrev usage_opts : DebitOpts
usage_opts = record { reference_id = none; allow_negative = false; attributed_user_id = some 3 }

abbrev overdraft_opts : DebitOpts
overdraft_opts = record { reference_id = none; allow_negative = true; attributed_user_id = none }

abbrev db0 : Db
db0 = seed_system_accounts empty_db

-- Tenant 7 buys 500 units, spends 120, and then overdraws to -120.
abbrev db1 : Db
db1 = (credit 1 10 7 (pos 500) CreditType.purchase purchase_opts db0).1

abbrev db2 : Db
db2 = (debit 2 20 7 (pos 120) DebitType.bot_runtime usage_opts db1).1

abbrev db3 : Db
db3 = (debit 3 30 7 (pos 500) DebitType.adapter_usage overdraft_opts db2).1

balances_run :
    (stored_balance (Code.tenant 7) db1 ≡ pos 500)
    × (stored_balance (Code.tenant 7) db2 ≡ pos 380)
    × (stored_balance (Code.tenant 7) db3 ≡ negsuc 119)
    × (stored_balance (Code.system 1000) db3 ≡ pos 500)
unfolding run_methods
balances_run = (refl, refl, refl, refl)

overdraft_refused :
    (debit 3 30 7 (pos 500) DebitType.adapter_usage usage_opts db2).0
    ≡ err (Error.insufficient_balance (pos 380) (pos 500))
unfolding run_methods
overdraft_refused = refl

db1-Reachable : Reachable db1
db1-Reachable =
    Reachable.next (Reachable.next Reachable.empty Step.seeds)
      (Step.credits 1 10 7 (pos 500) CreditType.purchase purchase_opts)

db2-Reachable : Reachable db2
db2-Reachable =
    Reachable.next db1-Reachable (Step.debits 2 20 7 (pos 120) DebitType.bot_runtime usage_opts)

db3-Reachable : Reachable db3
db3-Reachable =
    Reachable.next db2-Reachable
      (Step.debits 3 30 7 (pos 500) DebitType.adapter_usage overdraft_opts)

Reachable-IsConsistent_example : IsConsistent db3
Reachable-IsConsistent_example = Reachable-IsConsistent db3-Reachable

no_entry : JournalEntry
unfolding run_methods
no_entry = record {
  header = entry_row 0 0 (record {
    entry_type = EntryType.other 0;
    tenant_id = 0;
    reference_id = none;
    metadata = record { attributed_user_id = none; expires_at = none };
    posted_at = none;
    lines = [];
    balance_check = none;
  });
  lines = [];
}

-- Tenant 7 buys and spends, is refused twice, and is drained of what is left.
abbrev calls : List Call
calls =
    credits 1 10 7 (pos 500) CreditType.purchase purchase_opts
    ∷ debits 2 20 7 (pos 120) DebitType.bot_runtime usage_opts
    ∷ debits 3 30 7 (pos 500) DebitType.adapter_usage usage_opts
    ∷ credits 4 40 7 (pos 500) CreditType.purchase purchase_opts
    ∷ caps 5 50 7 (pos 1000) DebitType.credit_expiry usage_opts
    ∷ []

answers_run : (run calls db0).0 ≡ true ∷ true ∷ false ∷ false ∷ true ∷ []
unfolding run_methods
answers_run = refl

run-Trace_example : Trace calls (run calls db0).0 (wallets db0) (wallets (run calls db0).1)
run-Trace_example =
    run-Trace calls db0 (tt, (tt, (tt, (tt, (omega arith, tt)))))
      (Reachable-IsConsistent (Reachable.next Reachable.empty Step.seeds))

-- `debitCapped` of at most 1000, on a balance of 380 and on a debt of 120.
abbrev capped_at : Db → Result (Option JournalEntry) × Db
capped_at db = debit_capped 4 40 7 (pos 1000) DebitType.credit_expiry usage_opts db

debit_capped_outcome_example :
    CappedOutcome 7 (pos 1000) db2 (value_or (capped_at db2).0 none) (capped_at db2).1
unfolding run_methods
debit_capped_outcome_example =
    debit_capped_outcome 4 40 7 (pos 1000) DebitType.credit_expiry usage_opts db2
      (Reachable-IsConsistent db2-Reachable) (omega arith) (returns (capped_at db2) none refl)

debit_capped_forgives_debt_example :
    (stored_balance (Code.tenant 7) (capped_at db3).1 ≡ pos 0)
    × ((entry : JournalEntry) × (value_or (capped_at db3).0 none ≡ some entry)
        × (entry.lines
            ≡ debit_lines 7 DebitType.credit_expiry (stored_balance (Code.tenant 7) db3)))
unfolding run_methods
debit_capped_forgives_debt_example =
    debit_capped_forgives_debt 4 40 7 (pos 1000) DebitType.credit_expiry usage_opts db3
      (Reachable-IsConsistent db3-Reachable) (omega arith) (omega arith)
      (returns (capped_at db3) none refl)

abbrev no_trial : TrialBalance
no_trial = record {
  total_debits = pos 0;
  total_credits = pos 0;
  balanced = false;
  difference = pos 0;
}

trial_balance-Reachable_example :
    let tb = value_or (trial_balance db3) no_trial in
    (tb.balanced ≡ true) × (tb.total_debits ≡ tb.total_credits) × (tb.difference ≡ pos 0)
unfolding run_methods
trial_balance-Reachable_example = trial_balance-Reachable db3-Reachable refl

abbrev transfer_input : PostEntryInput
transfer_input = record {
  entry_type = EntryType.other 1;
  tenant_id = 7;
  reference_id = some (Ref.payment 2);
  metadata = record { attributed_user_id = none; expires_at = none };
  posted_at = none;
  lines =
      record { account_code = Code.tenant 7; amount = pos 30; side = Side.debit }
      ∷ record { account_code = Code.tenant 8; amount = pos 10; side = Side.credit }
      ∷ record { account_code = Code.system 1000; amount = pos 20; side = Side.credit }
      ∷ [];
  balance_check = some (record { tenant_id = 7; amount = pos 30 });
}

abbrev transferred : JournalEntry
transferred = value_or (post 5 50 transfer_input db2).0 no_entry

post-Posted_example : Posted 5 50 transfer_input db2 (post 5 50 transfer_input db2).1
unfolding run_methods
post-Posted_example =
    post-Posted 5 50 transfer_input db2 {entry = transferred}
      {db' = (post 5 50 transfer_input db2).1}
      (returns (post 5 50 transfer_input db2) no_entry refl)

post_total_example :
    (entry : JournalEntry) × (db' : Db) × (post 5 50 transfer_input db2 ≡ (ok entry, db'))
unfolding run_methods line_total
post_total_example =
    post_total 5 50 transfer_input db2 (omega arith) (omega arith) refl (tt, _, refl)
      (tt, (tt, (refl, tt))) (omega arith)

post-reference_id_example :
    (has_reference_id (Ref.payment 2) db2 ≡ true
      → ((e : Error) × (post 5 50 transfer_input db2 ≡ (err e, db2))))
    × ((entry : JournalEntry) (db' : Db)
        → post 5 50 transfer_input db2 ≡ (ok entry, db')
        → (has_reference_id (Ref.payment 2) db2 ≡ false)
          × (has_reference_id (Ref.payment 2) db' ≡ true))
post-reference_id_example = post-reference_id 5 50 transfer_input db2 (Ref.payment 2) refl
