-- ===== src/Credits/Jobs/Tests.antt =====
-- The jobs' theorems on small books.
use platform_core.Base.{
  ⊤, ◌≡◌, refl, false, none, some, List, [], ◌∷◌, length, ◌+◌, arith, ℕ_discrete,
}
use platform_core.Base.Int.{pos, ◌+ℤ◌, ◌-ℤ◌}
use platform_core.Base.Dict.{lookup, insert_new, update}
use platform_core.Base.Loops.{for_each}
use platform_core.Credits.Types.{CreditType, Code, ref_eq, Ref-discrete, Db, ok}
use platform_core.Credits.Credit.{from_raw}
use platform_core.Credits.Ledger.{
  credit_type_account, debit_type_account, credit_entry_type, debit_entry_type,
  seed_system_accounts, seed_account, insert_account, ensure_balance, resolve_account_locked,
  ensure_tenant_account_locked, lock_account, insert_entry, has_reference_id, check_lines,
  sort_lines, insert_line, lock_lines, stored_balance, check_balance, write_line, post_line,
  post_lines, post_tx, post, CreditOpts, credit, capped_writes, write_capped, take_capped,
  debit_capped_tx, debit_capped,
}
use platform_core.Credits.Ledger.Consistency.{IsConsistent}
use platform_core.Credits.Ledger.Reachable.{
  empty, next, seeds, credits, empty_db, Reachable-IsConsistent,
}
use platform_core.Credits.Ledger.Journal.{same, after}
use platform_core.Credits.Jobs.Signup.{grant_signup_credits}
use platform_core.Credits.Jobs.SignupLaws.{
  GrantOutcome, grant_signup_credits-GrantOutcome, grant_signup_credits-twice,
}
use platform_core.Credits.Jobs.Expiry.{
  Grant, CreditExpiryCronResult, is_expirable, granted, expired_of, expired_credits, sweep,
  run_credit_expiry_cron,
}
use platform_core.Credits.Jobs.ExpiryLaws.{Reclaims, count, sweep-Reclaims}

run_jobs : ⊤
unfolding credit_type_account debit_type_account credit_entry_type debit_entry_type
    seed_system_accounts seed_account insert_account ensure_balance resolve_account_locked
    ensure_tenant_account_locked lock_account insert_entry has_reference_id check_lines sort_lines
    insert_line lock_lines stored_balance check_balance write_line post_line post_lines post_tx post
    credit capped_writes write_capped take_capped debit_capped_tx debit_capped lookup insert_new
    update for_each from_raw ◌+ℤ◌ ◌-ℤ◌ ref_eq Ref-discrete ℕ_discrete grant_signup_credits
    is_expirable granted expired_of expired_credits sweep run_credit_expiry_cron
run_jobs = tt

abbrev seeded : Db
seeded = seed_system_accounts empty_db

seeded-IsConsistent : IsConsistent seeded
seeded-IsConsistent = Reachable-IsConsistent (next empty seeds)

grant_signup_credits-GrantOutcome_example :
    GrantOutcome 7 seeded
      (grant_signup_credits 1 10 7 seeded).0
      (grant_signup_credits 1 10 7 seeded).1
grant_signup_credits-GrantOutcome_example =
    grant_signup_credits-GrantOutcome 1 10 7 seeded seeded-IsConsistent

abbrev plain_opts : CreditOpts
plain_opts = record { reference_id = none; attributed_user_id = none; expires_at = none }

-- The tenant buys between two grants.
abbrev granted_once : Db
granted_once =
    (credit 2 20 7 (pos 500) CreditType.purchase plain_opts
      (grant_signup_credits 1 10 7 seeded).1).1

grant_signup_credits-twice_example :
    grant_signup_credits 3 30 7 granted_once ≡ (ok false, granted_once)
unfolding run_jobs
grant_signup_credits-twice_example =
    grant_signup_credits-twice 1 10 3 30 7 seeded seeded-IsConsistent refl
      (after same (credits 2 20 7 (pos 500) CreditType.purchase plain_opts))

-- Tenant 7 buys 500 units that expire at 50.
abbrev promo_opts : CreditOpts
promo_opts = record { reference_id = none; attributed_user_id = none; expires_at = some 50 }

abbrev bought : Db
bought = (credit 1 10 7 (pos 500) CreditType.purchase promo_opts seeded).1

bought-IsConsistent : IsConsistent bought
bought-IsConsistent =
    Reachable-IsConsistent
      (next (next empty seeds) (credits 1 10 7 (pos 500) CreditType.purchase promo_opts))

abbrev due : List Grant
due = record { entry_id = 1; tenant_id = 7; amount = pos 500 } ∷ []

-- The purchase is found at its time, and a sweep takes it back.
expired_run : expired_credits 50 bought ≡ ok due
unfolding run_jobs
expired_run = refl

abbrev blank : CreditExpiryCronResult
blank = record { processed = 0; expired = []; errors = []; skipped_zero_balance = 0 }

sweep_run : stored_balance (Code.tenant 7) (sweep 9 60 due blank bought).1 ≡ pos 0
unfolding run_jobs
sweep_run = refl

sweep-Reclaims_example :
    Reclaims bought (sweep 9 60 due blank bought).1
    × (count (sweep 9 60 due blank bought).0 ≡ count blank + length due)
sweep-Reclaims_example = sweep-Reclaims 9 60 due blank bought bought-IsConsistent (omega arith, tt)
