-- ===== src/Metering/Safe.antt =====
-- No event is lost, whatever the database, the clock and crashes do (src/metering/emitter.ts).
use platform_core.Base.{nat_eq}
use platform_core.Metering.Emitter.{Emitter}
use platform_core.Metering.Runs.{Runs}
