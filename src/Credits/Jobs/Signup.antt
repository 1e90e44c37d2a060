-- ===== src/Credits/Jobs/Signup.antt =====
-- The signup grant (src/credits/signup-grant.ts). The entry's random id and the clock's time are
-- arguments.
use platform_core.Base.{ℕ, Bool, true, false, none, some, if◌then◌else◌}
use platform_core.Base.Int.{ℤ, pos}
use platform_core.Credits.Types.{CreditType, Ref, Error, ok, err}
use platform_core.Credits.Ledger.{Action, CreditOpts, credit, has_reference_id}

-- `Credit.fromDollars(5)`.
abbrev pub signup_amount : ℤ
signup_amount = pos 5_000_000_000

abbrev pub is_unique_constraint_violation : Error → Bool
is_unique_constraint_violation Error.unique_violation = true
is_unique_constraint_violation _ = false

abbrev pub signup_opts : ℕ → CreditOpts
signup_opts tenant = record {
  reference_id = some (Ref.signup tenant);
  attributed_user_id = none;
  expires_at = none;
}

-- True if the grant was applied, false if it had been.
unfoldable pub grant_signup_credits : ℕ → ℕ → ℕ → Action Bool
grant_signup_credits entry_id now tenant db =
    let out =
      credit entry_id now tenant signup_amount CreditType.signup_grant (signup_opts tenant) db in
    if has_reference_id (Ref.signup tenant) db then (ok false, db) else elim out.0 [
      | ok _ ↦ (ok true, out.1)
      | err e ↦ (if is_unique_constraint_violation e then ok false else err e, out.1)
    ]
