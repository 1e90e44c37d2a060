-- ===== src/Credits/Ledger/Effects.antt =====
-- What `credit` and `debit` do to the balance of every tenant, and when `debit` refuses
-- (src/credits/ledger.ts).
use platform_core.Base.{
  ◌≡◌, refl, sym, ap, ◌||◌, ◌∙◌, Bool, true, false, List, arith, if◌then◌else◌, ℕ, Option-cases,
  inl, inr, ◌==◌,
}
use platform_core.Base.Int.{ℤ, pos, ◌+ℤ◌, ◌-ℤ◌, ◌≤ℤ◌, int_laws, +ℤ_zero}
use platform_core.Base.Dict.{lookup}
use platform_core.Credits.Types.{
  Side, CreditType, DebitType, Code, JournalLine, EntryRow, code_Eq, JournalEntry, Db, Error,
  Result, ok, err,
}
use platform_core.Credits.Credit.{is_zero, is_negative}
use platform_core.Credits.Ledger.Accounts.{credit_type_account, debit_type_account}
use platform_core.Credits.Ledger.Post.{stored_balance, post}
use platform_core.Credits.Ledger.Methods.{
  credit_lines, debit_lines, CreditOpts, DebitOpts, credit_input, debit_input, credit, debit,
}
use platform_core.Credits.Ledger.Queries.{account_total}
use platform_core.Credits.Ledger.Lines.{line_account_total}
use platform_core.Credits.Ledger.Consistency.{IsMaterialized, IsConsistent}
use platform_core.Credits.Ledger.Posting.{post-Posted, post-eq-err}
use platform_core.Credits.Ledger.Recorded.{Recorded}

-- Whether its account exists yet or not, a tenant's balance is its credits less its debits.
pub stored_balance-tenant :
    (t : ℕ) (db : Db)
    → IsMaterialized db
    → stored_balance (Code.tenant t) db
      ≡ account_total Side.credit (Code.tenant t) db.journal_lines
        -ℤ account_total Side.debit (Code.tenant t) db.journal_lines
stored_balance-tenant t db m = elim (Option-cases (lookup (Code.tenant t) db.accounts)) [
  | inl e ↦ let (b, d, c) = m.unknown (Code.tenant t) e in rw (b, d, c) (omega int_laws)
  | inr (a, e) ↦ m.known (Code.tenant t) a e ∙ rw (m.tenant_side t a e)
]

regroup : (a b c d : ℤ) → (a +ℤ b) -ℤ (c +ℤ d) ≡ (b -ℤ d) +ℤ (a -ℤ c)
regroup a b c d = omega int_laws

-- A recorded entry moves a tenant's balance by its lines on that tenant's account.
pub Recorded-balance :
    (t : ℕ) (row : EntryRow) (ls : List JournalLine) (db db' : Db)
    → IsMaterialized db
    → Recorded row ls db db'
    → stored_balance (Code.tenant t) db'
      ≡ stored_balance (Code.tenant t) db
        +ℤ (line_account_total Side.credit (Code.tenant t) ls
            -ℤ line_account_total Side.debit (Code.tenant t) ls)
Recorded-balance t row ls db db' m r =
    rw
      (
        stored_balance-tenant t db' (r.materialized m),
        stored_balance-tenant t db m,
        r.account_totals Side.credit (Code.tenant t),
        r.account_totals Side.debit (Code.tenant t),
      )
      (regroup _ _ _ _)

pub credit_type_account-system :
    (type : CreditType) → (n : ℕ) × (credit_type_account type ≡ Code.system n)
unfolding credit_type_account
credit_type_account-system CreditType.purchase = (1000, refl)
credit_type_account-system CreditType.signup_grant = (5000, refl)
credit_type_account-system CreditType.admin_grant = (5010, refl)
credit_type_account-system CreditType.promo = (5020, refl)
credit_type_account-system CreditType.referral = (5030, refl)
credit_type_account-system CreditType.affiliate_bonus = (5040, refl)
credit_type_account-system CreditType.affiliate_match = (5040, refl)
credit_type_account-system CreditType.bounty = (5050, refl)
credit_type_account-system CreditType.community_dividend = (5060, refl)
credit_type_account-system CreditType.correction = (5070, refl)

pub debit_type_account-system :
    (type : DebitType) → (n : ℕ) × (debit_type_account type ≡ Code.system n)
unfolding debit_type_account
debit_type_account-system DebitType.bot_runtime = (4000, refl)
debit_type_account-system DebitType.adapter_usage = (4010, refl)
debit_type_account-system DebitType.addon = (4020, refl)
debit_type_account-system DebitType.storage_upgrade = (4030, refl)
debit_type_account-system DebitType.resource_upgrade = (4040, refl)
debit_type_account-system DebitType.onboarding_llm = (4050, refl)
debit_type_account-system DebitType.credit_expiry = (4060, refl)
debit_type_account-system DebitType.refund = (1000, refl)
debit_type_account-system DebitType.correction = (5070, refl)

-- The lines that `debit` and `debitCapped` write, and those of `credit`.
pub debit_lines_net :
    (t j : ℕ) (type : DebitType) (amount : ℤ)
    → line_account_total Side.credit (Code.tenant j) (debit_lines t type amount)
        -ℤ line_account_total Side.debit (Code.tenant j) (debit_lines t type amount)
      ≡ (if t == j then pos 0 -ℤ amount else pos 0)
unfolding line_account_total
debit_lines_net t j type amount =
    let (n, e) = debit_type_account-system type in rw e (grind int_laws)

pub credit_lines_net :
    (t j : ℕ) (type : CreditType) (amount : ℤ)
    → line_account_total Side.credit (Code.tenant j) (credit_lines t type amount)
        -ℤ line_account_total Side.debit (Code.tenant j) (credit_lines t type amount)
      ≡ (if t == j then amount else pos 0)
unfolding line_account_total
credit_lines_net t j type amount =
    let (n, e) = credit_type_account-system type in rw e (grind int_laws)

pub credit-post :
    (i now t : ℕ) (amount : ℤ) (type : CreditType) (opts : CreditOpts) (db : Db)
    {entry : JournalEntry} {db' : Db}
    → credit i now t amount type opts db ≡ (ok entry, db')
    → (pos 1 ≤ℤ amount) × (post i now (credit_input t amount type opts) db ≡ (ok entry, db'))
unfolding credit
credit-post i now t amount type opts db h = ground arith

pub debit-post :
    (i now t : ℕ) (amount : ℤ) (type : DebitType) (opts : DebitOpts) (db : Db)
    {entry : JournalEntry} {db' : Db}
    → debit i now t amount type opts db ≡ (ok entry, db')
    → (pos 1 ≤ℤ amount) × (post i now (debit_input t amount type opts) db ≡ (ok entry, db'))
unfolding debit
debit-post i now t amount type opts db h = ground arith

-- A guard that throws before a call that changes nothing when it throws.
guard-eq-err :
    (b : Bool) (thrown : Error) (db : Db) (y : Result JournalEntry × Db) {e : Error} {db' : Db}
    → (y ≡ (err e, db') → db' ≡ db)
    → (if b then (err thrown, db) else y) ≡ (err e, db')
    → db' ≡ db
guard-eq-err true thrown db y k h = sym (ap (λ (x : Result JournalEntry × Db). x.1) h)
guard-eq-err false thrown db y k h = k h

-- A call that throws leaves the books as they are.
pub credit-eq-err :
    (i now t : ℕ) (amount : ℤ) (type : CreditType) (opts : CreditOpts) (db : Db) {e : Error}
    {db' : Db}
    → credit i now t amount type opts db ≡ (err e, db')
    → db' ≡ db
unfolding credit
credit-eq-err i now t amount type opts db h =
    guard-eq-err (is_zero amount || is_negative amount) Error.non_positive_amount db
      (post i now (credit_input t amount type opts) db)
      (post-eq-err i now (credit_input t amount type opts) db) h

pub debit-eq-err :
    (i now t : ℕ) (amount : ℤ) (type : DebitType) (opts : DebitOpts) (db : Db) {e : Error}
    {db' : Db}
    → debit i now t amount type opts db ≡ (err e, db')
    → db' ≡ db
unfolding debit
debit-eq-err i now t amount type opts db h =
    guard-eq-err (is_zero amount || is_negative amount) Error.non_positive_amount db
      (post i now (debit_input t amount type opts) db)
      (post-eq-err i now (debit_input t amount type opts) db) h

add_if : (b : Bool) (x y : ℤ) → x +ℤ (if b then y else pos 0) ≡ (if b then x +ℤ y else x)
add_if true x y = refl
add_if false x y = +ℤ_zero x

pub sub_if :
    (b : Bool) (x y : ℤ) → x +ℤ (if b then pos 0 -ℤ y else pos 0) ≡ (if b then x -ℤ y else x)
sub_if true x y = omega int_laws
sub_if false x y = +ℤ_zero x

-- On consistent books, a credit that returns had a positive amount; it raises that tenant's balance
-- by the amount and leaves every other tenant's balance as it was.
pub credit_moves_balance :
    (i now t : ℕ) (amount : ℤ) (type : CreditType) (opts : CreditOpts) (db : Db)
    {entry : JournalEntry} {db' : Db}
    → IsConsistent db
    → credit i now t amount type opts db ≡ (ok entry, db')
    → (pos 1 ≤ℤ amount)
      × ((j : ℕ)
          → stored_balance (Code.tenant j) db' ≡ (
              if t == j
              then stored_balance (Code.tenant j) db +ℤ amount
              else stored_balance (Code.tenant j) db))
credit_moves_balance i now t amount type opts db {entry} {db'} v h =
    let (p, h') = credit-post i now t amount type opts db h in
    let posted = post-Posted i now (credit_input t amount type opts) db h' in
    (
      p,
      λ j.
          Recorded-balance j _ (credit_lines t type amount) db db' v.materialized posted.recorded
          ∙ rw (credit_lines_net t j type amount) (add_if (t == j) _ amount),
    )

-- On consistent books, a debit that returns had a positive amount; it lowers that tenant's balance by
-- the amount and leaves every other tenant's balance as it was; and unless `allowNegative` is set the
-- balance had covered the amount.
pub debit_moves_balance :
    (i now t : ℕ) (amount : ℤ) (type : DebitType) (opts : DebitOpts) (db : Db)
    {entry : JournalEntry} {db' : Db}
    → IsConsistent db
    → debit i now t amount type opts db ≡ (ok entry, db')
    → (pos 1 ≤ℤ amount)
      × ((j : ℕ)
          → stored_balance (Code.tenant j) db' ≡ (
              if t == j
              then stored_balance (Code.tenant j) db -ℤ amount
              else stored_balance (Code.tenant j) db))
      × (opts.allow_negative ≡ false → amount ≤ℤ stored_balance (Code.tenant t) db)
debit_moves_balance i now t amount type opts db {entry} {db'} v h =
    let (p, h') = debit-post i now t amount type opts db h in
    let posted = post-Posted i now (debit_input t amount type opts) db h' in
    (
      p,
      λ j.
          Recorded-balance j _ (debit_lines t type amount) db db' v.materialized posted.recorded
          ∙ rw (debit_lines_net t j type amount) (sub_if (t == j) _ amount),
      λ e. rw e at posted.covered,
    )
