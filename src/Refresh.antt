-- ===== src/Refresh.antt =====
-- src/domain/services/explore_refresh_service.py: refresh runs over cached market targets. The store
-- and the market service are parameters, functions that return or raise; their calls are events. The
-- tasks of a run suspend only while a market is scored, so what follows the score of a target happens
-- at once, and a run is the list of its targets in the order in which their scores arrive. Times are
-- numbers of days, and a semaphore with at least one place changes nothing but that order.
mod Counts
mod DryRun
mod Tests
use whidby.Prelude.{
  ℕ, suc, ◌+◌, Bool, true, false, not, ◌&&◌, ◌||◌, List, [], ◌∷◌, ◌++◌, map, Option, none, some,
  String, str_eq, if◌then◌else◌, Result, ok, raise, ◌>>=◌, Exception, value_error, length, take,
  ◌==◌,
}
use whidby.Num.Fixed.{ℤ, pos, pos_part, neg_part, sub_ℕ}
use whidby.Signals.{codes, text_eq, strip, lower}

-- `max_items` is an int: `pos` and `negsuc` count ones here.
pub record ExploreRefreshFlags : Type 0 where
  pub force : Bool
  pub dry_run : Bool
  pub strategy_profile : String
  pub max_items : ℤ

pub record RefreshTarget : Type 0 where
  pub id : String
  pub policy_id : String
  pub niche_keyword : String
  pub niche_normalized : String
  pub cbsa_code : String
  pub cbsa_name : List ℕ
  pub state : Option (List ℕ)
  pub latest_report_id : Option String
  pub latest_scored_at : Option ℕ
  pub next_refresh_at : Option ℕ
  pub latest_opportunity_score : Option ℕ

pub record QueuedExploreRefreshRun : Type 0 where
  pub run_id : String
  pub targets : List RefreshTarget
  pub flags : ExploreRefreshFlags
  pub now : ℕ
  pub mode : String
  pub scope : String
  pub target_count : ℕ

pub record ScoreRequest : Type 0 where
  pub niche : String
  pub city : List ℕ
  pub state : Option (List ℕ)
  pub strategy_profile : String
  pub dry_run : Bool

-- `report_id` is `none` for an empty id too, which the code treats alike.
pub record ScoreResult : Type 0 where
  pub report_id : Option String
  pub opportunity_score : ℕ
  pub classification_label : String

-- The payloads of the store, without what they copy from the target.
pub data StoreCall : Type 0 where
  mark_run_running : String → StoreCall
  upsert_target_after_success : RefreshTarget → String → ℕ → ℕ → ℕ → Option ℤ → StoreCall
  record_snapshot_from_report : String → RefreshTarget → String → ℕ → Option ℤ → StoreCall
  mark_item_succeeded : String → RefreshTarget → Option String → ℕ → Option ℤ → StoreCall
  mark_item_failed : String → RefreshTarget → Exception → StoreCall
  mark_run_complete : String → ℕ → ℕ → StoreCall

-- What the service is given. How a call ends depends on the call alone: a store or a market service
-- that answers the same call differently each time is left out.
pub record Services : Type 0 where
  pub call_store : StoreCall → Result (Unit {0})
  pub score : ScoreRequest → Result ScoreResult

pub record RunState : Type 0 where
  pub success_count : ℕ
  pub failure_count : ℕ
  pub calls : List StoreCall

abbrev pub default_refresh_cadence_days : ℕ
default_refresh_cadence_days = 30

unfoldable pub target_limit : ExploreRefreshFlags → ℕ
target_limit flags = pos_part flags.max_items

unfoldable pub limit_targets : List RefreshTarget → ExploreRefreshFlags → List RefreshTarget
unfolding target_limit
limit_targets targets flags = take (target_limit flags) targets

-- `{target.policy_id for …}` has one element exactly when all are the first.
abbrev pub all_have_policy : String → List RefreshTarget → Bool
all_have_policy p [] = true
all_have_policy p (t ∷ ts) = str_eq t.policy_id p && all_have_policy p ts

unfoldable pub single_policy_id : List RefreshTarget → Option String
single_policy_id [] = none
single_policy_id (t ∷ ts) = if all_have_policy t.policy_id ts then some t.policy_id else none

unfoldable pub score_delta : Option ℕ → ℕ → Option ℤ
score_delta none after_score = none
score_delta (some before) after_score = some (sub_ℕ after_score before)

-- `name.rsplit(",", 1)`, `none` where there is no comma
unfoldable pub split_last_comma : List ℕ → Option (List ℕ × List ℕ)
split_last_comma [] = none
split_last_comma (c ∷ cs) = elim (split_last_comma cs) [
  | some (a, b) ↦ some (c ∷ a, b)
  | none ↦ if c == b',' then some ([], cs) else none
]

unfoldable pub same_state : List ℕ → List ℕ → Bool
unfolding strip lower
same_state suffix state = text_eq (lower (strip suffix)) (lower (strip state))

-- `upper` on both sides is compared by `lower`, which tells the same ASCII texts apart.
unfoldable pub city_for_scoring : List ℕ → Option (List ℕ) → List ℕ
unfolding strip split_last_comma same_state
city_for_scoring cbsa_name none = strip cbsa_name
city_for_scoring cbsa_name (some state) = elim (split_last_comma (strip cbsa_name)) [
  | none ↦ strip cbsa_name
  | some (city_part, suffix) ↦ elim (strip state) [
    | [] ↦ strip cbsa_name
    | c ∷ cs ↦ if same_state suffix state then strip city_part else strip cbsa_name
  ]
]

module _ (services : Services) where
  open services use {call_store, score}

  unfoldable pub score_target : RefreshTarget → ExploreRefreshFlags → Result ScoreResult
  unfolding city_for_scoring
  score_target target flags = score (record {
    niche = target.niche_keyword;
    city = city_for_scoring target.cbsa_name target.state;
    state = target.state;
    strategy_profile = flags.strategy_profile;
    dry_run = flags.dry_run;
  })

  -- The calls of `_mark_success`, in order.
  unfoldable pub success_calls :
      String → RefreshTarget → ScoreResult → ExploreRefreshFlags → ℕ → List StoreCall
  unfolding score_delta
  success_calls run_id target result flags now =
      let delta = score_delta target.latest_opportunity_score result.opportunity_score in
      let succeeded =
        mark_item_succeeded run_id target result.report_id result.opportunity_score delta ∷ [] in
      elim (result.report_id) [
        | none ↦ succeeded
        | some report ↦
            if not flags.dry_run
            then upsert_target_after_success target report now (now + default_refresh_cadence_days)
                result.opportunity_score delta
              ∷ record_snapshot_from_report run_id target report result.opportunity_score delta
              ∷ succeeded
            else succeeded
      ]

  -- Calls are made until one raises: what was called, and how it ended.
  unfoldable pub make_calls : List StoreCall → List StoreCall × Result (Unit {0})
  make_calls [] = ([], ok tt)
  make_calls (c ∷ cs) = elim (call_store c) [
    | raise e ↦ (c ∷ [], raise e)
    | ok u ↦ let rest = make_calls cs in (c ∷ rest.0, rest.1)
  ]

  -- The `try` block of `_score_one`.
  unfoldable pub attempt :
      QueuedExploreRefreshRun → RefreshTarget → List StoreCall × Result (Unit {0})
  unfolding score_target success_calls make_calls
  attempt run target = elim (score_target target run.flags) [
    | raise e ↦ ([], raise e)
    | ok result ↦ elim (result.report_id) [
      | none ↦
          if not run.flags.dry_run
          then ([], raise value_error)
          else make_calls (success_calls run.run_id target result run.flags run.now)
      | some report ↦ make_calls (success_calls run.run_id target result run.flags run.now)
    ]
  ]

  -- How `_score_one` counts and records the end of its `try` block; an exception of
  -- `mark_item_failed` leaves it. What was called and counted is kept either way.
  unfoldable pub settle :
      QueuedExploreRefreshRun
      → RefreshTarget
      → RunState
      → List StoreCall × Result (Unit {0})
      → RunState × Result (Unit {0})
  settle run target s (made, ok u) =
      (record s { success_count = suc s.success_count; calls = s.calls ++ made }, ok tt)
  settle run target s (made, raise e) = (
    record s {
      failure_count = suc s.failure_count;
      calls = s.calls ++ (made ++ (mark_item_failed run.run_id target e ∷ []));
    },
    call_store (mark_item_failed run.run_id target e),
  )

  unfoldable pub score_one :
      QueuedExploreRefreshRun → RefreshTarget → RunState → RunState × Result (Unit {0})
  unfolding attempt settle
  score_one run target s = settle run target s (attempt run target)

  -- `gather`: it raises the exception that came first, and the other coroutines go on.
  unfoldable pub first_error : Result (Unit {0}) → Result (Unit {0}) → Result (Unit {0})
  first_error (raise e) later = raise e
  first_error (ok u) later = later

  unfoldable pub score_all :
      QueuedExploreRefreshRun → List RefreshTarget → RunState → RunState × Result (Unit {0})
  unfolding score_one first_error
  score_all run [] s = (s, ok tt)
  score_all run (t ∷ ts) s =
      let one = score_one run t s in
      let others = score_all run ts one.0 in (others.0, first_error one.1 others.1)

  -- What follows `gather`.
  unfoldable pub completed :
      QueuedExploreRefreshRun → RunState × Result (Unit {0}) → RunState × Result (Unit {0})
  completed run (s, raise e) = (s, raise e)
  completed run (s, ok u) = (
    record s {
      calls = s.calls ++ (mark_run_complete run.run_id s.success_count s.failure_count ∷ []);
    },
    call_store (mark_run_complete run.run_id s.success_count s.failure_count),
  )

  -- What follows the first call, from how it ended.
  unfoldable pub running :
      QueuedExploreRefreshRun
      → List RefreshTarget
      → RunState
      → Result (Unit {0})
      → RunState × Result (Unit {0})
  unfolding score_all completed
  running run arrivals s (raise e) = (s, raise e)
  running run arrivals s (ok u) = completed run (score_all run arrivals s)

  -- The state after the first call.
  abbrev pub at_start : QueuedExploreRefreshRun → RunState
  at_start run = record {
    success_count = 0;
    failure_count = 0;
    calls = mark_run_running run.run_id ∷ [];
  }

  -- `execute_queued_run`, where the scores arrive in the order of `arrivals`: what it counted and
  -- called, and how it ended. The calls of the coroutines that are left when `gather` raises are among
  -- them.
  unfoldable pub execute_queued_run :
      QueuedExploreRefreshRun → List RefreshTarget → RunState × Result (Unit {0})
  unfolding running
  execute_queued_run run arrivals =
      running run arrivals
        (record { success_count = 0; failure_count = 0; calls = mark_run_running run.run_id ∷ [] })
        (call_store (mark_run_running run.run_id))

-- `queue_selected_targets`, with `create_run` and `create_run_items` of the store.
unfoldable pub queue_selected_targets :
    (Option String → ℕ → Result String)
    → (String → List RefreshTarget → Result (Unit {0}))
    → List RefreshTarget
    → ℕ
    → ExploreRefreshFlags
    → String
    → String
    → Result QueuedExploreRefreshRun
unfolding limit_targets single_policy_id
queue_selected_targets create_run create_run_items targets now flags mode scope = do
  let selected = limit_targets targets flags
  run_id ← create_run (single_policy_id selected) (length selected)
  created ← create_run_items run_id selected
  ok (record {
    run_id = run_id;
    targets = selected;
    flags = flags;
    now = now;
    mode = mode;
    scope = scope;
    target_count = length selected;
  })

-- `queue_due_targets`: the store lists what is due, up to the limit.
unfoldable pub queue_due_targets :
    (ℕ → ℕ → Result (List RefreshTarget))
    → (Option String → ℕ → Result String)
    → (String → List RefreshTarget → Result (Unit {0}))
    → ℕ
    → ExploreRefreshFlags
    → Result QueuedExploreRefreshRun
unfolding target_limit queue_selected_targets
queue_due_targets list_due create_run create_run_items now flags = do
  due ← list_due now (target_limit flags)
  queue_selected_targets create_run create_run_items due now flags "scheduled" "stale"

-- The listings of the store that `resolve_manual_targets` chooses from.
pub record Listings : Type 0 where
  pub by_ids : List String → Result (List RefreshTarget)
  pub by_report_ids : List String → Result (List RefreshTarget)
  pub due : ℕ → Result (List RefreshTarget)
  pub for_filters : List (String × String) → ℕ → Result (List RefreshTarget)

unfoldable pub resolve_manual_targets :
    Listings
    → List ℕ
    → List String
    → List String
    → List (String × String)
    → Bool
    → ExploreRefreshFlags
    → Result (List RefreshTarget)
unfolding limit_targets target_limit strip lower
resolve_manual_targets store scope target_ids report_ids filters force flags =
    let effective_force = force || flags.force in
    let normalized_scope = lower (strip scope) in
    let limited = λ (m : Result (List RefreshTarget)). m >>= λ ts. ok (limit_targets ts flags) in
    elim target_ids [
      | i ∷ is ↦ limited (store.by_ids (i ∷ is))
      | [] ↦ elim report_ids [
        | i ∷ is ↦ limited (store.by_report_ids (i ∷ is))
        | [] ↦
            if text_eq normalized_scope (codes "stale") && not effective_force
            then limited (store.due (target_limit flags))
            else if text_eq normalized_scope (codes "all")
                || text_eq normalized_scope (codes "stale")
                || text_eq normalized_scope (codes "visible")
                || text_eq normalized_scope (codes "filtered")
            then limited (store.for_filters filters (target_limit flags))
            else ok []
      ]
    ]
