-- ===== src/Credits/TopUp.antt =====
-- The top-up that a low balance triggers (src/credits/auto-topup-usage.ts) and the row of a tenant's
-- settings (src/credits/auto-topup-settings-repository.ts). A run is in two halves, up to the
-- compare-and-swap of the in-flight flag and from the charge on, between which other runs may come. The
-- charge and the tenant's status are arguments; a row is that of the tenant at hand.
use platform_core.Base.{
  ℕ, suc, Bool, true, false, ◌&&◌, ◌||◌, not, Option, none, some, leb, if◌then◌else◌,
}
use platform_core.Base.Int.{ℤ}
use platform_core.Credits.Credit.{less_than}
pub mod Runs
mod Tests

-- Without the times of creation and update. Times are numbers.
pub record AutoTopupSettings : Type 0 where
  pub tenant_id : ℕ
  pub usage_enabled : Bool
  pub usage_threshold : ℤ
  pub usage_topup : ℤ
  pub usage_consecutive_failures : ℕ
  pub usage_charge_in_flight : Bool
  pub schedule_enabled : Bool
  pub schedule_amount : ℤ
  pub schedule_interval_hours : ℕ
  pub schedule_next_at : Option ℕ
  pub schedule_consecutive_failures : ℕ

abbrev pub max_consecutive_failures : ℕ
max_consecutive_failures = 3

-- `tryAcquireUsageInFlight`: whether the row was found with the flag unset, which is set then.
unfoldable pub try_acquire_usage_in_flight : AutoTopupSettings → Bool × AutoTopupSettings
try_acquire_usage_in_flight s =
    if s.usage_charge_in_flight
    then (false, s)
    else (true, record s { usage_charge_in_flight = true })

unfoldable pub increment_usage_failures : AutoTopupSettings → ℕ × AutoTopupSettings
increment_usage_failures s = (
  suc s.usage_consecutive_failures,
  record s { usage_consecutive_failures = suc s.usage_consecutive_failures },
)

unfoldable pub reset_usage_failures : AutoTopupSettings → AutoTopupSettings
reset_usage_failures s = record s { usage_consecutive_failures = 0 }

unfoldable pub disable_usage : AutoTopupSettings → AutoTopupSettings
disable_usage s = record s { usage_enabled = false }

unfoldable pub set_usage_charge_in_flight : Bool → AutoTopupSettings → AutoTopupSettings
set_usage_charge_in_flight b s = record s { usage_charge_in_flight = b }

-- Steps 1 to 3: whether the run goes on to the charge. The settings were read earlier than the row that
-- the flag is set on, and may be missing. `may_charge` is false for a banned or suspended tenant.
unfoldable pub begin_topup :
    Option AutoTopupSettings → Bool → ℤ → AutoTopupSettings → Bool × AutoTopupSettings
begin_topup none may_charge balance s = (false, s)
begin_topup (some settings) may_charge balance s =
    if not settings.usage_enabled
      || not may_charge
      || not (less_than balance settings.usage_threshold)
    then (false, s)
    else try_acquire_usage_in_flight s

-- A failure, answered or thrown, is counted, and too many in a row disable the top-up.
unfoldable pub count_failure : AutoTopupSettings → AutoTopupSettings
count_failure s =
    let (failure_count, s') = increment_usage_failures s in
    if leb max_consecutive_failures failure_count then disable_usage s' else s'

-- Steps 4 to 6, on what the charge answers; none where it throws.
unfoldable pub finish_topup : Option Bool → AutoTopupSettings → AutoTopupSettings
finish_topup (some true) s = set_usage_charge_in_flight false (reset_usage_failures s)
finish_topup (some false) s = set_usage_charge_in_flight false (count_failure s)
finish_topup none s = set_usage_charge_in_flight false (count_failure s)
