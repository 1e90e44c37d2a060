-- ===== src/Fleet/Rollout/Strategy.antt =====
-- The rollout strategies (src/fleet/rollout-strategy.ts).
use platform_core.Base.{ℕ, suc, ◌+◌, ◌*◌, ◌/◌, Option, List, length, take, ltb, leb, if◌then◌else◌}
use mathlib.Core.Option.{get_or}

pub record BotProfile : Type 0 where
  pub id : ℕ
  pub volume_name : Option ℕ

pub record RollingWaveOptions : Type 0 where
  pub batch_percent : Option ℕ
  pub pause_ms : Option ℕ
  pub max_failures : Option ℕ

-- A strategy and what it remembers: a rolling wave counts the bots that it gave up.
pub data Strategy : Type 0 where
  rolling_wave : (batch_percent pause_ms max_failures total_failures : ℕ) → Strategy
  single_bot immediate : Strategy

pub data FailureAction : Type 0 where
  abort skip retry : FailureAction

pub data StrategyType : Type 0 where
  rolling_wave_type single_bot_type immediate_type : StrategyType

unfoldable pub create_rollout_strategy : StrategyType → RollingWaveOptions → Strategy
create_rollout_strategy StrategyType.rolling_wave_type options =
    Strategy.rolling_wave (get_or options.batch_percent 25) (get_or options.pause_ms 60_000)
      (get_or options.max_failures 3) 0
create_rollout_strategy StrategyType.single_bot_type options = Strategy.single_bot
create_rollout_strategy StrategyType.immediate_type options = Strategy.immediate

-- `Math.max(1, Math.ceil(n * percent / 100))`.
abbrev pub wave_size : ℕ → ℕ → ℕ
wave_size n batch_percent =
    let count = (n * batch_percent + 99) / 100 in if ltb count 1 then 1 else count

unfoldable pub next_batch : Strategy → List BotProfile → List BotProfile
next_batch (Strategy.rolling_wave batch_percent pause_ms max_failures total_failures) remaining =
    take (wave_size (length remaining) batch_percent) remaining
next_batch Strategy.single_bot remaining = take 1 remaining
next_batch Strategy.immediate remaining = remaining

abbrev pub max_retries : Strategy → ℕ
max_retries (Strategy.rolling_wave _ _ _ _) = 2
max_retries Strategy.single_bot = 3
max_retries Strategy.immediate = 1

unfoldable pub on_bot_failure : Strategy → ℕ → FailureAction × Strategy
on_bot_failure (Strategy.rolling_wave batch_percent pause_ms max_failures total_failures) attempt =
    if ltb attempt 2
    then (
      FailureAction.retry,
      Strategy.rolling_wave batch_percent pause_ms max_failures total_failures,
    )
    else (
      if leb max_failures (suc total_failures) then FailureAction.abort else FailureAction.skip,
      Strategy.rolling_wave batch_percent pause_ms max_failures (suc total_failures),
    )
on_bot_failure Strategy.single_bot attempt =
    if ltb attempt 3
    then (FailureAction.retry, Strategy.single_bot)
    else (FailureAction.abort, Strategy.single_bot)
on_bot_failure Strategy.immediate attempt = (FailureAction.skip, Strategy.immediate)

unfoldable pub reset : Strategy → Strategy
reset (Strategy.rolling_wave batch_percent pause_ms max_failures total_failures) =
    Strategy.rolling_wave batch_percent pause_ms max_failures 0
reset s = s
