-- ===== src/Refresh/DryRun.antt =====
-- explore_refresh_service.py: what a dry run leaves alone.
use whidby.Prelude.{
  ◌≡◌, Bool, true, false, not, if◌then◌else◌, inl, inr, List, [], ◌∷◌, Result, ok, raise, All,
  All-append, Result-cases, Option-cases,
}
use whidby.Refresh.{
  Services, ScoreResult, QueuedExploreRefreshRun, RefreshTarget, RunState, StoreCall,
  upsert_target_after_success, record_snapshot_from_report, attempt, make_calls, success_calls,
  score_target, at_start, settle, score_one, score_all, completed, running, execute_queued_run,
}

-- A call that changes neither a target nor the snapshots.
abbrev pub LeavesTargets : StoreCall → Type 0
LeavesTargets c = elim c [
  | upsert_target_after_success t r a b o d ↦ ⊥
  | record_snapshot_from_report i t r o d ↦ ⊥
  | _ ↦ Unit
]

abbrev AllLeave : List StoreCall → Type 0
AllLeave cs = All LeavesTargets cs

if-AllLeave :
    (b : Bool) (x y : List StoreCall × Result (Unit {0}))
    → AllLeave x.0
    → AllLeave y.0
    → AllLeave ((if b then x else y).0)
if-AllLeave true x y p q = p
if-AllLeave false x y p q = q

module _ (services : Services) (run : QueuedExploreRefreshRun)
    (dry : run.flags.dry_run ≡ true) where
  make_calls-AllLeave : (cs : List StoreCall) → AllLeave cs → AllLeave ((make_calls services cs).0)
  unfolding make_calls
  make_calls-AllLeave [] a = a
  make_calls-AllLeave (c ∷ cs) (a, more) = elim (Result-cases (services.call_store c)) [
    | inl (u, e) ↦ rw (e, make_calls) (a, make_calls-AllLeave cs more)
    | inr (x, e) ↦ rw (e, make_calls) (a, tt)
  ]

  success_calls-AllLeave :
      (t : RefreshTarget) (r : ScoreResult)
      → AllLeave (success_calls services run.run_id t r run.flags run.now)
  unfolding success_calls
  success_calls-AllLeave t r = elim (Option-cases (r.report_id)) [
    | inl e ↦ rw e (tt, tt)
    | inr (i, e) ↦ rw (e, dry) (tt, tt)
  ]

  attempt-AllLeave : (t : RefreshTarget) → AllLeave ((attempt services run t).0)
  unfolding attempt
  attempt-AllLeave t = elim (Result-cases (score_target services t run.flags)) [
    | inr (x, e) ↦ rw (e, attempt) tt
    | inl (r, e) ↦
        let made = make_calls-AllLeave _ (success_calls-AllLeave t r) in
        elim (Option-cases (r.report_id)) [
          | inl d ↦ rw (e, attempt, d) (if-AllLeave (not run.flags.dry_run) _ _ tt made)
          | inr (i, d) ↦ rw (e, attempt, d) made
        ]
  ]

  settle-AllLeave :
      (t : RefreshTarget) (s : RunState) (made : List StoreCall × Result (Unit {0}))
      → AllLeave s.calls
      → AllLeave made.0
      → AllLeave ((settle services run t s made).0.calls)
  unfolding settle
  settle-AllLeave t s (made, ok u) before more = All-append LeavesTargets s.calls made before more
  settle-AllLeave t s (made, raise x) before more =
      All-append LeavesTargets s.calls _ before (All-append LeavesTargets made _ more (tt, tt))

  score_all-AllLeave :
      (ts : List RefreshTarget) (s : RunState)
      → AllLeave s.calls
      → AllLeave ((score_all services run ts s).0.calls)
  unfolding score_all score_one
  score_all-AllLeave [] s before = before
  score_all-AllLeave (t ∷ ts) s before =
      score_all-AllLeave ts _
        (settle-AllLeave t s (attempt services run t) before (attempt-AllLeave t))

  completed-AllLeave :
      (p : RunState × Result (Unit {0}))
      → AllLeave p.0.calls
      → AllLeave ((completed services run p).0.calls)
  unfolding completed
  completed-AllLeave (s, raise e) before = before
  completed-AllLeave (s, ok u) before = All-append LeavesTargets s.calls _ before (tt, tt)

  running-AllLeave :
      (arrivals : List RefreshTarget) (s : RunState) (m : Result (Unit {0}))
      → AllLeave s.calls
      → AllLeave ((running services run arrivals s m).0.calls)
  unfolding running
  running-AllLeave arrivals s (raise e) before = before
  running-AllLeave arrivals s (ok u) before =
      completed-AllLeave (score_all services run arrivals s) (score_all-AllLeave arrivals s before)

-- No call of a dry run writes a target or a snapshot, whatever the market service returns, whichever
-- calls of the store raise, and whether or not the run itself returns.
pub execute_queued_run-LeavesTargets :
    (services : Services) (run : QueuedExploreRefreshRun) (arrivals : List RefreshTarget)
    → run.flags.dry_run ≡ true
    → All LeavesTargets ((execute_queued_run services run arrivals).0.calls)
unfolding execute_queued_run
execute_queued_run-LeavesTargets services run arrivals dry =
    running-AllLeave services run dry arrivals (at_start services run) _ (tt, tt)
