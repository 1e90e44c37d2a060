-- ===== src/Fleet/Rollout/Tests.antt =====
-- Rollouts of two bots, with an updater that answers from a list.
use platform_core.Base.{
  ⊤, ◌≡◌, refl, Bool, true, false, Option, none, some, List, [], ◌∷◌, nat_eq, arith,
}
use platform_core.Base.Int.{negsuc, ◌-ℤ◌}
use mathlib.Core.Option.{get_or}
use platform_core.Fleet.Rollout.Strategy.{BotProfile, Strategy, next_batch, on_bot_failure}
use platform_core.Fleet.Rollout.Orchestrator.{
  Services, RolloutResult, Rollout, start, take_snapshots, restore_volumes, cleanup_snapshots,
  update_bot, after_update, process_batch, run_waves, rollout, already_rolling,
}
use platform_core.Fleet.Rollout.Termination.{rollout-total}
use platform_core.Fleet.Rollout.Coverage.{covered}
use platform_core.Fleet.Rollout.Outcome.{run_waves-attempts_all, run_waves-single_bot}

abbrev answer : List Bool → Option Bool × List Bool
answer [] = (none, [])
answer (b ∷ bs) = (some b, bs)

abbrev scripted : Services (List Bool)
scripted = record {
  snapshot = λ volume w. (some volume, w);
  update_container = λ id w. answer w;
  restore = λ i w. (true, w);
  delete_snapshot = λ i w. w;
}

abbrev two_bots : List BotProfile
two_bots = record { id = 1; volume_name = some 4 } ∷ record { id = 2; volume_name = none } ∷ []

-- Bot 1 fails once, and both are updated.
abbrev script : List Bool
script = false ∷ true ∷ true ∷ []

run_rollout : ⊤
unfolding next_batch on_bot_failure take_snapshots restore_volumes cleanup_snapshots update_bot
    after_update process_batch run_waves rollout ◌-ℤ◌
run_rollout = tt

abbrev result_or : Option (RolloutResult × Strategy × List Bool) → RolloutResult
result_or none = already_rolling scripted
result_or (some (r, _, _)) = r

-- The retry makes the number of skipped bots negative.
skipped_run :
    (result_or (rollout scripted 8 false Strategy.single_bot two_bots script)).skipped ≡ negsuc 0
unfolding run_rollout
skipped_run = refl

rollout-total_example :
    (r : RolloutResult) × (s : Strategy) × (w : List Bool) × (rollout scripted 8 false
        Strategy.single_bot two_bots script
      ≡ some (r, s, w))
rollout-total_example =
    rollout-total scripted 8 false Strategy.single_bot two_bots script (omega arith)

abbrev ended : Rollout (List Bool)
ended =
    get_or (run_waves scripted 8 two_bots (start scripted Strategy.single_bot script))
      (start scripted Strategy.single_bot script)

run_waves-attempts_all_example : covered (λ _. true) 2 ended.results ≡ true
unfolding run_rollout
run_waves-attempts_all_example =
    run_waves-attempts_all scripted 8 Strategy.single_bot two_bots script 2 {out = ended} refl refl
      refl

run_waves-single_bot_example : covered (λ r. r.success) 1 ended.results ≡ true
unfolding run_rollout
run_waves-single_bot_example =
    run_waves-single_bot scripted 8 two_bots script 1 {out = ended} refl refl refl
