-- ===== src/Gateway/CreditGate.antt =====
-- The gateway's credit gate (src/gateway/credit-gate.ts), on the ledger. The charge, `withMargin` of a
-- cost in floating-point dollars, is an argument; a callback is a flag that says whether it is given,
-- and an event when it is called.
use platform_core.Base.{
  ℕ, Bool, true, false, ◌&&◌, ◌||◌, not, Option, none, some, List, [], ◌∷◌, ◌++◌, if◌then◌else◌,
}
use mathlib.Core.Option.{get_or}
use platform_core.Base.Int.{ℤ, pos, ◌-ℤ◌, eqb_ℤ}
use platform_core.Credits.Types.{DebitType, JournalEntry, Db, Result, ok, err}
use platform_core.Credits.Credit.{from_cents, add, is_zero, is_negative, greater_than, less_than}
use platform_core.Credits.Ledger.{DebitOpts, debit, balance}
pub mod Debits
pub mod Check

pub record CreditGateDeps : Type 0 where
  pub has_ledger : Bool
  pub grace_buffer_cents : Option ℕ
  pub on_balance_exhausted : Bool
  pub on_debit_complete : Bool
  pub on_spend_alert_crossed : Bool

pub record GatewayTenant : Type 0 where
  pub id : ℕ
  pub is_platform_service : Bool
  pub is_metered : Bool

-- The refusals, with the balance and the cost in cents that they report.
pub data CreditError : Type 0 where
  credits_exhausted insufficient_credits : (balance required_cents : ℤ) → CreditError

-- `Math.max(0, cents)`.
abbrev pub at_least_zero : ℤ → ℤ
at_least_zero a = if is_negative a then pos 0 else a

-- The checks on a balance that was read.
unfoldable pub check_credit : ℕ → ℤ → ℤ → Option CreditError
check_credit grace_buffer required current =
    let floor = from_cents (pos 0 -ℤ pos grace_buffer) in
    if less_than current floor || eqb_ℤ current floor
    then some (CreditError.credits_exhausted current required)
    else if not (is_negative current) && less_than current (from_cents required)
    then some (CreditError.insufficient_credits current required)
    else none

-- The balance that is read may throw.
unfoldable pub credit_balance_check :
    CreditGateDeps → GatewayTenant → ℤ → Db → Result (Option CreditError)
credit_balance_check deps tenant estimated_cost_cents db =
    if not deps.has_ledger || tenant.is_platform_service || tenant.is_metered
    then ok none
    else elim (balance tenant.id db) [
      | err e ↦ err e
      | ok current ↦ ok (
          check_credit (get_or deps.grace_buffer_cents 50) (at_least_zero estimated_cost_cents)
            current)
    ]

-- What `debitCredits` calls: the callbacks, and the counter of failures.
pub data Event : Type 0 where
  balance_exhausted : ℤ → Event
  debit_complete spend_alert_crossed deduction_failure : Event

abbrev pub debit_opts : Option ℕ → DebitOpts
debit_opts attributed_user_id = record {
  reference_id = none;
  allow_negative = true;
  attributed_user_id = attributed_user_id;
}

-- The zero crossing: the balance was positive before the charge and is not any more.
unfoldable pub exhaustion : CreditGateDeps → ℕ → ℤ → Db → Result (List Event)
exhaustion deps tenant charge db =
    if deps.on_balance_exhausted
    then elim (balance tenant db) [
      | err e ↦ err e
      | ok new_balance ↦ elim (add new_balance charge) [
        | err e ↦ err e
        | ok before ↦
            if greater_than before (pos 0) && (is_negative new_balance || is_zero new_balance)
            then ok (Event.balance_exhausted new_balance ∷ [])
            else ok []
      ]
    ]
    else ok []

abbrev pub when : Bool → Event → List Event
when b e = if b then e ∷ [] else []

-- The rest of the try block after the debit, and its catch.
abbrev pub notify : CreditGateDeps → Result (List Event) → List Event
notify deps (err e) = Event.deduction_failure ∷ []
notify deps (ok events) =
    events
    ++ when deps.on_debit_complete Event.debit_complete
    ++ when deps.on_spend_alert_crossed Event.spend_alert_crossed

-- How the debit ends: there is none, it throws, or it returns.
pub data Debited : Type 0 where
  skipped : Debited
  threw : Debited
  done : Debited

abbrev pub debited : Result JournalEntry × Db → Debited × Db
debited (err e, db) = (threw, db)
debited (ok entry, db) = (done, db)

-- `debitCredits` up to the end of the debit.
unfoldable pub begin_debit : ℕ → ℕ → CreditGateDeps → ℕ → ℤ → Option ℕ → Db → Debited × Db
begin_debit entry_id now deps tenant charge attributed_user_id db =
    if not deps.has_ledger || is_zero charge || is_negative charge
    then (skipped, db)
    else debited (
        debit entry_id now tenant charge DebitType.adapter_usage (debit_opts attributed_user_id) db)

-- The rest, which reads the balance again, from the books as they are by then.
unfoldable pub end_debit : CreditGateDeps → ℕ → ℤ → Debited → Db → List Event
end_debit deps tenant charge skipped db = []
end_debit deps tenant charge threw db = Event.deduction_failure ∷ []
end_debit deps tenant charge done db = notify deps (exhaustion deps tenant charge db)

-- `others` is what other transactions do between the two.
unfoldable pub debit_credits :
    ℕ → ℕ → CreditGateDeps → ℕ → ℤ → Option ℕ → (Db → Db) → Db → List Event × Db
unfolding begin_debit end_debit
debit_credits entry_id now deps tenant charge attributed_user_id others db =
    let (x, db') = begin_debit entry_id now deps tenant charge attributed_user_id db in
    (end_debit deps tenant charge x (others db'), others db')
