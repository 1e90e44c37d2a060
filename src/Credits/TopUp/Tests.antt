-- ===== src/Credits/TopUp/Tests.antt =====
-- Runs of the top-up on a small row.
use platform_core.Base.{⊤, ◌≡◌, refl, true, false, none, some, nat_eq}
use platform_core.Base.Int.{pos}
use platform_core.Credits.TopUp.{
  AutoTopupSettings, begin_topup, finish_topup, try_acquire_usage_in_flight,
  increment_usage_failures, reset_usage_failures, disable_usage, set_usage_charge_in_flight,
  count_failure,
}
use platform_core.Credits.TopUp.Runs.{idle, begins, finishes, IsGuarded, Runs-IsGuarded}

run_topup : ⊤
unfolding begin_topup finish_topup try_acquire_usage_in_flight increment_usage_failures
    reset_usage_failures disable_usage set_usage_charge_in_flight count_failure
run_topup = tt

abbrev settings : AutoTopupSettings
settings = record {
  tenant_id = 1;
  usage_enabled = true;
  usage_threshold = pos 100;
  usage_topup = pos 500;
  usage_consecutive_failures = 0;
  usage_charge_in_flight = false;
  schedule_enabled = false;
  schedule_amount = pos 0;
  schedule_interval_hours = 0;
  schedule_next_at = none;
  schedule_consecutive_failures = 0;
}

abbrev began : AutoTopupSettings
began = (begin_topup (some settings) true (pos 20) settings).1

-- A second run that begins while the first is charging does not charge.
second_run : (begin_topup (some settings) true (pos 20) began).0 ≡ false
unfolding run_topup
second_run = refl

Runs-IsGuarded_example : IsGuarded (finish_topup (some false) began) 0
unfolding run_topup
Runs-IsGuarded_example = Runs-IsGuarded (
    finishes {s = began} (some false)
      (begins (some settings) true (pos 20) (idle settings refl refl)))
