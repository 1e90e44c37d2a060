-- ===== src/Metering/Retries.antt =====
-- How often a batch is tried again (the retry counters of src/metering/emitter.ts).
use platform_core.Base.{ℕ, ◌<◌, ◌≡◌, some, nat_eq}
use platform_core.Base.Dict.{Dict, lookup}
use platform_core.Metering.Emitter.{Config, Emitter}
use platform_core.Metering.Runs.{Runs}

-- Every counter is below the maximum.
abbrev pub IsBelow : ℕ → Dict ℕ ℕ → Type 0
IsBelow max counts = (i n : ℕ) → lookup i counts ≡ some n → n < max

module _ (cfg : Config) where
  abbrev Bounded : Emitter → Type 0
  Bounded s = IsBelow cfg.max_retries s.retry_count
