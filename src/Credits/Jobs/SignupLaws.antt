-- ===== src/Credits/Jobs/SignupLaws.antt =====
-- What the signup grant does, once and again (src/credits/signup-grant.ts).
use platform_core.Base.{
  ℕ, ◌≡◌, refl, ◌⊎◌, inl, inr, Bool, true, false, if◌then◌else◌, ◌==◌, Bool-cases, if_ind,
}
use platform_core.Base.Int.{◌+ℤ◌}
use platform_core.Credits.Types.{CreditType, Code, Ref, JournalEntry, Db, Error, Result, ok, err}
use platform_core.Credits.Ledger.{credit, has_reference_id, stored_balance, credit_input}
use platform_core.Credits.Ledger.Consistency.{IsConsistent}
use platform_core.Credits.Ledger.Effects.{credit-post, credit-eq-err, credit_moves_balance}
use platform_core.Credits.Ledger.Journal.{Later, Has-Later}
use platform_core.Credits.Ledger.References.{post-reference_id}
use platform_core.Credits.Jobs.Signup.{
  signup_amount, is_unique_constraint_violation, signup_opts, grant_signup_credits,
}

-- What a grant may come to.
abbrev pub GrantOutcome : ℕ → Db → Result Bool → Db → Type 0
GrantOutcome t db r db' =
    ((r ≡ ok true)
      × (has_reference_id (Ref.signup t) db ≡ false)
      × (has_reference_id (Ref.signup t) db' ≡ true)
      × ((j : ℕ)
          → stored_balance (Code.tenant j) db' ≡ (
              if t == j
              then stored_balance (Code.tenant j) db +ℤ signup_amount
              else stored_balance (Code.tenant j) db)))
    ⊎ ((db' ≡ db) × ((r ≡ ok false) ⊎ ((e : Error) × (r ≡ err e))))

applied :
    (i now t : ℕ) (db : Db) {entry : JournalEntry} {db' : Db}
    → IsConsistent db
    → credit i now t signup_amount CreditType.signup_grant (signup_opts t) db ≡ (ok entry, db')
    → GrantOutcome t db (ok true) db'
applied i now t db {entry} {db'} v h =
    let (p, q) = credit-post i now t signup_amount CreditType.signup_grant (signup_opts t) db h in
    let (before, after) =
      (post-reference_id i now
          (credit_input t signup_amount CreditType.signup_grant (signup_opts t)) db (Ref.signup t)
          refl).1
        entry db' q in
    let (_, moves) =
      credit_moves_balance i now t signup_amount CreditType.signup_grant (signup_opts t) db v h in
    inl (refl, before, after, moves)

refused :
    (t : ℕ) (db : Db) (e : Error)
    → GrantOutcome t db (if is_unique_constraint_violation e then ok false else err e) db
refused t db e = elim (Bool-cases (is_unique_constraint_violation e)) [
  | inl b ↦ rw b (inr (refl, inl refl))
  | inr b ↦ rw b (inr (refl, inr (e, refl)))
]

-- On consistent books, a grant that returns true was the tenant's first: the journal had no signup
-- reference of the tenant and has it afterwards, the tenant's balance rises by the five dollars and no
-- other tenant's balance changes. A grant that returns false or throws changes nothing.
pub grant_signup_credits-GrantOutcome :
    (i now t : ℕ) (db : Db)
    → IsConsistent db
    → GrantOutcome t db (grant_signup_credits i now t db).0 (grant_signup_credits i now t db).1
unfolding grant_signup_credits
grant_signup_credits-GrantOutcome i now t db v =
    if_ind (λ (x : Result Bool × Db). GrantOutcome t db x.0 x.1)
      (has_reference_id (Ref.signup t) db) (ok false, db) _ (λ _. inr (refl, inl refl))
      (λ _. after (credit i now t signup_amount CreditType.signup_grant (signup_opts t) db) refl)
  where
    after :
        (x : Result JournalEntry × Db)
        → credit i now t signup_amount CreditType.signup_grant (signup_opts t) db ≡ x
        → GrantOutcome t db
            (elim x.0 as (λ _. Result Bool × Db) [
              | ok _ ↦ (ok true, x.1)
              | err e ↦ (if is_unique_constraint_violation e then ok false else err e, x.1)
            ]).0
            (elim x.0 as (λ _. Result Bool × Db) [
              | ok _ ↦ (ok true, x.1)
              | err e ↦ (if is_unique_constraint_violation e then ok false else err e, x.1)
            ]).1
    after (ok entry, d) h = applied i now t db v h
    after (err e, d) h =
        let same : d ≡ db =
          credit-eq-err i now t signup_amount CreditType.signup_grant (signup_opts t) db h in
        rw same (refused t db e)

-- After a grant that returned true, whatever the ledger is called for then, another grant for the tenant
-- returns false and changes nothing, whatever entry id and time it draws.
pub grant_signup_credits-twice :
    (i now i' now' t : ℕ) (db : Db) {db' : Db}
    → IsConsistent db
    → (grant_signup_credits i now t db).0 ≡ ok true
    → Later (grant_signup_credits i now t db).1 db'
    → grant_signup_credits i' now' t db' ≡ (ok false, db')
grant_signup_credits-twice i now i' now' t db {db'} v h later =
    elim (grant_signup_credits-GrantOutcome i now t db v) [
      | inl (_, _, used, _) ↦ known i' now' t db' (Has-Later (Ref.signup t) later used)
      | inr (_, inl f) ↦ absurd (clash (grant_signup_credits i now t db).0 h f)
      | inr (_, inr (e, f)) ↦ absurd (thrown (grant_signup_credits i now t db).0 e h f)
    ]
  where
    known :
        (i now t : ℕ) (db : Db)
        → has_reference_id (Ref.signup t) db ≡ true
        → grant_signup_credits i now t db ≡ (ok false, db)
    known i now t db used = unfold grant_signup_credits in rw used refl

    clash : (r : Result Bool) → r ≡ ok true → r ≡ ok false → ⊥
    clash r a b = cc

    thrown : (r : Result Bool) (e : Error) → r ≡ ok true → r ≡ err e → ⊥
    thrown r e a b = cc
