-- ===== src/Fleet/Rollout/Orchestrator.antt =====
-- The rollout's loop (src/fleet/rollout-orchestrator.ts). The profiles that need an update are an
-- argument. Waves run on fuel.
use platform_core.Base.{
  ℕ, zero, suc, Bool, true, false, not, ◌&&◌, Option, none, some, List, [], ◌∷◌, ◌++◌, map, length,
  filter, includes, ◌==◌, if◌then◌else◌, nat_eq,
}
use platform_core.Base.Int.{ℤ, pos, ◌-ℤ◌}
use platform_core.Fleet.Rollout.Strategy.{
  BotProfile, Strategy, FailureAction, next_batch, on_bot_failure,
}

-- The updater and the snapshot manager: none, or false for a restore, where the call throws.
pub record Services (W : Type 0) : Type 0 where
  pub snapshot : ℕ → W → Option ℕ × W
  pub update_container : ℕ → W → Option Bool × W
  pub restore : ℕ → W → Bool × W
  pub delete_snapshot : ℕ → W → W

pub record BotUpdateResult : Type 0 where
  pub bot_id : ℕ
  pub success : Bool
  pub volume_restored : Bool

-- What `rollout` holds in its variables, the strategy's memory and the world included.
pub record Rollout (W : Type 0) : Type 0 where
  pub strategy : Strategy
  pub results : List BotUpdateResult
  pub retries : List BotProfile
  pub aborted : Bool
  pub world : W

pub record RolloutResult : Type 0 where
  pub total_bots : ℕ
  pub succeeded : ℕ
  pub failed : ℕ
  pub skipped : ℤ
  pub aborted : Bool
  pub already_running : Bool
  pub results : List BotUpdateResult

-- `allResults.filter((r) => r.botId === botId && !r.success).length`.
abbrev pub fail_count : ℕ → List BotUpdateResult → ℕ
fail_count id rs = length (filter (λ (r : BotUpdateResult). (r.bot_id == id) && not r.success) rs)

module _ {W : Type 0} (sv : Services W) where
  -- The snapshot ids after step 1 of `updateBot`.
  unfoldable pub take_snapshots : Option ℕ → W → List ℕ × W
  take_snapshots none w = ([], w)
  take_snapshots (some volume) w =
      let (id, w') = sv.snapshot volume w in elim id [ none ↦ ([], w') | some i ↦ (i ∷ [], w') ]

  unfoldable pub restore_volumes : List ℕ → W → Bool × W
  restore_volumes [] w = (false, w)
  restore_volumes (i ∷ is) w =
      let (restored, w') = sv.restore i w in
      let rest = restore_volumes is w' in if restored then (true, w') else rest

  unfoldable pub cleanup_snapshots : List ℕ → W → W
  cleanup_snapshots [] w = w
  cleanup_snapshots (i ∷ is) w = cleanup_snapshots is (sv.delete_snapshot i w)

  -- The result after the container's update: the snapshots are deleted on success, and restored on
  -- failure or where the updater throws.
  abbrev pub settle : ℕ → List ℕ → Option Bool → W → BotUpdateResult × W
  settle id snapshots (some true) w = (
    record { bot_id = id; success = true; volume_restored = false },
    cleanup_snapshots snapshots w,
  )
  settle id snapshots (some false) w =
      let (restored, w') = restore_volumes snapshots w in
      (record { bot_id = id; success = false; volume_restored = restored }, w')
  settle id snapshots none w =
      let (restored, w') = restore_volumes snapshots w in
      (record { bot_id = id; success = false; volume_restored = restored }, w')

  unfoldable pub update_bot : BotProfile → W → BotUpdateResult × W
  update_bot profile w =
      let (snapshots, w1) = take_snapshots profile.volume_name w in
      let (updated, w2) = sv.update_container profile.id w1 in
      settle profile.id snapshots updated w2

  abbrev pub with_action : BotProfile → FailureAction × Strategy → Rollout W → Rollout W
  with_action p (FailureAction.abort, s) st = record st { strategy = s; aborted = true }
  with_action p (FailureAction.skip, s) st = record st { strategy = s }
  with_action p (FailureAction.retry, s) st = record st {
    strategy = s;
    retries = st.retries ++ (p ∷ []);
  }

  -- The body of the loop over a batch.
  unfoldable pub after_update : BotProfile → Rollout W → Rollout W
  after_update p st =
      let (result, w) = update_bot p st.world in
      let st' = record st { results = st.results ++ (result ∷ []); world = w } in
      if result.success
      then st'
      else with_action p (on_bot_failure st.strategy (fail_count p.id st'.results)) st'

  unfoldable pub process_batch : List BotProfile → Rollout W → Rollout W
  process_batch [] st = st
  process_batch (p ∷ ps) st =
      let rest = process_batch ps (after_update p st) in if st.aborted then st else rest

  -- The bots that are left after a batch, and those to try again.
  abbrev pub remaining_after : List BotProfile → List BotProfile → List BotProfile → List BotProfile
  remaining_after batch retries remaining =
      filter (λ (b : BotProfile). not (includes (map (λ (c : BotProfile). c.id) batch) b.id))
        remaining
      ++ retries

  -- `while (remaining.length > 0 && !aborted)`. None if the fuel is used up.
  unfoldable pub run_waves : ℕ → List BotProfile → Rollout W → Option (Rollout W)
  run_waves fuel [] st = some st
  run_waves zero (b ∷ bs) st = none
  run_waves (suc fuel) (b ∷ bs) st = elim (next_batch st.strategy (b ∷ bs)) [
    | [] ↦ some st
    | c ∷ cs ↦
        let out = process_batch (c ∷ cs) (record st { retries = [] }) in
        let rest = run_waves fuel (remaining_after (c ∷ cs) out.retries (b ∷ bs)) out in
        if out.aborted then some out else rest
  ]

  abbrev pub start : Strategy → W → Rollout W
  start s w = record { strategy = s; results = []; retries = []; aborted = false; world = w }

  abbrev pub summary : ℕ → Rollout W → RolloutResult
  summary total st = record {
    total_bots = total;
    succeeded = length (filter (λ (r : BotUpdateResult). r.success) st.results);
    failed = length (filter (λ (r : BotUpdateResult). not r.success) st.results);
    skipped = pos total -ℤ pos (length st.results);
    aborted = st.aborted;
    already_running = false;
    results = st.results;
  }

  abbrev pub already_rolling : RolloutResult
  already_rolling = record {
    total_bots = 0;
    succeeded = 0;
    failed = 0;
    skipped = pos 0;
    aborted = false;
    already_running = true;
    results = [];
  }

  -- `rollout`, given the flag `rolling`: a second rollout while one runs is refused.
  unfoldable pub rollout :
      ℕ → Bool → Strategy → List BotProfile → W → Option (RolloutResult × Strategy × W)
  rollout fuel rolling s profiles w =
      let ended = run_waves fuel profiles (start s w) in
      if rolling then some (already_rolling, s, w) else elim ended [
        | none ↦ none
        | some st ↦ some (summary (length profiles) st, st.strategy, st.world)
      ]
