-- ===== src/Refresh/Tests.antt =====
-- A refresh run of two targets, of which one cannot be scored, and what the service chooses.
use whidby.Prelude.{
  ◌+◌, ◌≡◌, refl, Bool, true, false, List, [], ◌∷◌, ◌++◌, none, some, String, str_eq, Result, ok,
  raise, value_error, countb, length, All, if◌then◌else◌,
}
use mathlib.Core.List.{Permᴰ}
use whidby.Num.Fixed.{pos, negsuc}
use whidby.Signals.{codes}
use whidby.Refresh.{
  ExploreRefreshFlags, RefreshTarget, QueuedExploreRefreshRun, ScoreRequest, ScoreResult, StoreCall,
  mark_run_complete, mark_item_failed, Services, RunState, city_for_scoring, single_policy_id,
  execute_queued_run, limit_targets,
}
use whidby.Refresh.Counts.{succeeds, execute_queued_run-counts}
use whidby.Refresh.DryRun.{LeavesTargets, execute_queued_run-LeavesTargets}

program : Unit {0}
unfolding execute_queued_run city_for_scoring single_policy_id limit_targets
program = tt

abbrev target : String → RefreshTarget
target name = record {
  id = name;
  policy_id = "policy";
  niche_keyword = name;
  niche_normalized = name;
  cbsa_code = "38060";
  cbsa_name = codes "Phoenix-Mesa, az ";
  state = some (codes "AZ");
  latest_report_id = none;
  latest_scored_at = none;
  next_refresh_at = none;
  latest_opportunity_score = some 50;
}

abbrev flags : Bool → ExploreRefreshFlags
flags dry = record {
  force = false;
  dry_run = dry;
  strategy_profile = "balanced";
  max_items = pos 50;
}

abbrev sample_run : Bool → QueuedExploreRefreshRun
sample_run dry = record {
  run_id = "run";
  targets = target "roofing" ∷ target "unknown" ∷ [];
  flags = flags dry;
  now = 100;
  mode = "manual";
  scope = "selected";
  target_count = 2;
}

abbrev score_known : ScoreRequest → Result ScoreResult
score_known request =
    if str_eq request.niche "unknown"
    then raise value_error
    else ok (record {
      report_id = some "report";
      opportunity_score = 62;
      classification_label = "easy";
    })

abbrev services : Services
services = record { call_store = λ c. ok tt; score = score_known }

abbrev late_first : List RefreshTarget
late_first = target "unknown" ∷ target "roofing" ∷ []

abbrev final : Bool → RunState
final dry = (execute_queued_run services (sample_run dry) late_first).0

returns : execute_queued_run services (sample_run false) late_first ≡ (final false, ok tt)
unfolding program
returns = refl

-- A store that refuses to record failures.
abbrev refuses : Services
refuses = record {
  call_store = λ c. elim c [ mark_item_failed i t e ↦ raise value_error | _ ↦ ok tt ];
  score = score_known;
}

abbrev refused : RunState
refused = (execute_queued_run refuses (sample_run true) late_first).0

refused_raises :
    execute_queued_run refuses (sample_run true) late_first ≡ (refused, raise value_error)
unfolding program
refused_raises = refl

-- Running, the failure, the item of the other target; the run is not completed.
refused_calls_made : length refused.calls ≡ 3
unfolding program
refused_calls_made = refl

-- Running, the failure, the two writes of the success, its item, complete.
calls_made : length (final false).calls ≡ 6
unfolding program
calls_made = refl

dry_calls_made : length (final true).calls ≡ 4
unfolding program
dry_calls_made = refl

execute_queued_run-counts_example :
    ((final false).success_count
      ≡ countb (succeeds services (sample_run false)) ((sample_run false).targets))
    × ((final false).success_count + (final false).failure_count
        ≡ length ((sample_run false).targets))
    × (earlier : List StoreCall) × ((final false).calls
        ≡ earlier
          ++ (mark_run_complete "run" ((final false).success_count) ((final false).failure_count)
              ∷ []))
execute_queued_run-counts_example =
    execute_queued_run-counts services (sample_run false) late_first (final false)
      (Permᴰ.swap refl refl) returns

execute_queued_run-LeavesTargets_example :
    All LeavesTargets ((execute_queued_run refuses (sample_run true) late_first).0.calls)
execute_queued_run-LeavesTargets_example =
    execute_queued_run-LeavesTargets refuses (sample_run true) late_first refl

city : city_for_scoring (codes "Phoenix-Mesa, az ") (some (codes "AZ")) ≡ codes "Phoenix-Mesa"
unfolding program
city = refl

other_state : city_for_scoring (codes "Phoenix, NV") (some (codes "AZ")) ≡ codes "Phoenix, NV"
unfolding program
other_state = refl

policy : single_policy_id (target "a" ∷ target "b" ∷ []) ≡ some "policy"
unfolding program
policy = refl

no_items : limit_targets late_first (record (flags false) { max_items = negsuc 3 }) ≡ []
unfolding program
no_items = refl
