-- ===== src/Gateway/Tests.antt =====
-- The guards' theorems on short sequences of requests.
use platform_core.Base.{
  ◌↔◌, ◌⊎◌, ◌||◌, not, true, false, none, some, ◌≡◌, refl, List, [], ◌∷◌, nat_eq, arith,
}
use platform_core.Base.Dict.{lookup}
use platform_core.Gateway.Requests.{Request}
use platform_core.Gateway.RateLimit.{RateLimitConfig}
use platform_core.Gateway.RateLimit.Window.{admissions, admissions-window}
use platform_core.Gateway.CircuitBreaker.{CircuitBreakerConfig, States, Answer, Phase}
use platform_core.Gateway.CircuitBreaker.Window.{passes, passes-open}
use platform_core.Gateway.CircuitBreaker.Limit.{passes-window}
use platform_core.Gateway.CircuitBreaker.Race.{race, race-over}
use platform_core.Base.Int.{pos}
use platform_core.Credits.Types.{CreditType, Db, ok}
use platform_core.Credits.Credit.{from_raw}
use platform_core.Credits.Ledger.{
  CreditOpts, credit, seed_system_accounts, balance, account_balance, stored_balance,
}
use platform_core.Credits.Ledger.Consistency.{IsConsistent}
use platform_core.Credits.Ledger.Reachable.{
  empty, next, seeds, credits, empty_db, Reachable-IsConsistent,
}
use platform_core.Gateway.CreditGate.{
  CreditGateDeps, GatewayTenant, credit_balance_check, debit_credits,
}
use platform_core.Gateway.CreditGate.Check.{IsEnough, credit_balance_check-IsEnough}
use platform_core.Gateway.CreditGate.Debits.{DebitOutcome, debit_credits-DebitOutcome}

abbrev limit_two : RateLimitConfig
limit_two = record { max = 2; window_ms = some 100 }

-- Client 7 asks four times in a window, and client 8 once.
abbrev later : List Request
later =
    record { key = 8; now = 510 }
    ∷ record { key = 7; now = 520 }
    ∷ record { key = 7; now = 530 }
    ∷ record { key = 7; now = 599 }
    ∷ []

admissions-window_example : admissions limit_two 0 7 (record { key = 7; now = 500 } ∷ later) [] ≡ 2
unfolding lookup
admissions-window_example =
    admissions-window limit_two 0 7 500 later [] refl
      (omega arith, (omega arith, (omega arith, (omega arith, tt))))

abbrev breaker_two : CircuitBreakerConfig
breaker_two = record { max_requests_per_window = 2; window_ms = 100; pause_duration_ms = 300 }

-- Instance 7 tripped at 150.
abbrev tripped_states : States
tripped_states = (7, record { count = 3; window_start = 100; tripped_at = some 150 }) ∷ []

passes-window_example :
    passes breaker_two 7 (record { key = 7; now = 500 } ∷ later) tripped_states ≡ 2
unfolding lookup
passes-window_example = passes-window breaker_two 7 500 later tripped_states (omega arith) refl (
  (omega arith, omega arith),
  ((omega arith, omega arith), ((omega arith, omega arith), ((omega arith, omega arith), tt))),
)

-- Instance 7 asks three times in the window that the second of two racing requests has begun.
abbrev after_race : List Request
after_race =
    record { key = 7; now = 520 }
    ∷ record { key = 7; now = 530 }
    ∷ record { key = 7; now = 540 }
    ∷ []

race-over_example :
    let (p, q, t) = race breaker_two 7 500 501 3 Phase.arrived Phase.arrived [] in
    (p ≡ Phase.answered Answer.next)
    × (q ≡ Phase.answered Answer.next)
    × (passes breaker_two 7 after_race t ≡ 1)
unfolding lookup
race-over_example =
    race-over breaker_two 7 500 501 after_race [] (omega arith) (omega arith) refl refl refl
      ((omega arith, omega arith), ((omega arith, omega arith), ((omega arith, omega arith), tt)))

abbrev early : List Request
early =
    record { key = 7; now = 160 }
    ∷ record { key = 8; now = 200 }
    ∷ record { key = 7; now = 449 }
    ∷ []

passes-open_example : passes breaker_two 7 early tripped_states ≡ 0
unfolding lookup
passes-open_example =
    passes-open breaker_two 7 150 early tripped_states refl
      (omega arith, (omega arith, (omega arith, tt)))

abbrev gate_deps : CreditGateDeps
gate_deps = record {
  has_ledger = true;
  grace_buffer_cents = none;
  on_balance_exhausted = true;
  on_debit_complete = true;
  on_spend_alert_crossed = false;
}

abbrev prepaid : GatewayTenant
prepaid = record { id = 7; is_platform_service = false; is_metered = false }

abbrev purchase_opts : CreditOpts
purchase_opts = record { reference_id = none; attributed_user_id = none; expires_at = none }

-- Tenant 7 has bought 500 units.
abbrev funded : Db
funded =
    (credit 1 10 7 (pos 500) CreditType.purchase purchase_opts (seed_system_accounts empty_db)).1

funded-IsConsistent : IsConsistent funded
funded-IsConsistent =
    Reachable-IsConsistent
      (next (next empty seeds) (credits 1 10 7 (pos 500) CreditType.purchase purchase_opts))

credit_balance_check-IsEnough_example :
    (credit_balance_check gate_deps prepaid (pos 0) empty_db ≡ ok none)
    ↔ (((not true || false || false) ≡ true) ⊎ IsEnough 50 (pos 0) (pos 0))
unfolding balance account_balance stored_balance lookup from_raw
credit_balance_check-IsEnough_example =
    credit_balance_check-IsEnough gate_deps prepaid (pos 0) (pos 0) empty_db refl

-- The tenant buys more before the balance is read again.
abbrev meanwhile : Db → Db
meanwhile d = (credit 3 30 7 (pos 50) CreditType.purchase purchase_opts d).1

debit_credits-DebitOutcome_example :
    let (events, final) = debit_credits 2 20 gate_deps 7 (pos 600) none meanwhile funded in
    (d : Db) × (final ≡ meanwhile d) × DebitOutcome gate_deps 7 (pos 600) funded events d final
debit_credits-DebitOutcome_example =
    debit_credits-DebitOutcome 2 20 gate_deps 7 (pos 600) none meanwhile funded funded-IsConsistent
      refl (omega arith)
