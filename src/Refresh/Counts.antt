-- ===== src/Refresh/Counts.antt =====
-- explore_refresh_service.py: what a run counts, whatever the order in which its scores arrive.
use whidby.Prelude.{
  countb-not, ◌+◌, ◌≡◌, refl, ◌∙◌, sym, ap, Bool, true, false, not, List, [], ◌∷◌, ◌++◌, arith,
  countb, length, Result, ok, raise, if◌then◌else◌,
}
use mathlib.Core.List.{Permᴰ}
use whidby.Refresh.{
  Services, QueuedExploreRefreshRun, RefreshTarget, RunState, StoreCall, mark_run_complete, attempt,
  at_start, settle, score_one, score_all, completed, running, execute_queued_run,
}

-- No call of a `try` block raised.
abbrev pub ended_well : List StoreCall × Result (Unit {0}) → Bool
ended_well (made, ok u) = true
ended_well (made, raise e) = false

pub countb-Perm {ℓ} :
    {A : Type ℓ} (p : A → Bool) {xs ys : List A} → Permᴰ xs ys → countb p xs ≡ countb p ys
countb-Perm p Permᴰ.nil = refl
countb-Perm p (Permᴰ.cons e q) = rw (e, countb-Perm p q) refl
countb-Perm p (Permᴰ.swap e d) = rw (e, d) (omega arith)
countb-Perm p (Permᴰ.trans q r) = countb-Perm p q ∙ countb-Perm p r

module _ (services : Services) (run : QueuedExploreRefreshRun) where
  -- The `try` block of a target ends well.
  abbrev pub succeeds : RefreshTarget → Bool
  succeeds t = ended_well (attempt services run t)

  -- What a run has counted after the targets `ts`, from `s` to `s'`.
  abbrev Counted : List RefreshTarget → RunState → RunState → Type 0
  Counted ts s s' =
      (s'.success_count ≡ s.success_count + countb succeeds ts)
      × (s'.failure_count ≡ s.failure_count + countb (λ t. not (succeeds t)) ts)

  settle-counts :
      (t : RefreshTarget) (s : RunState) (made : List StoreCall × Result (Unit {0}))
      → ((settle services run t s made).0.success_count
          ≡ s.success_count + (if ended_well made then 1 else 0))
        × ((settle services run t s made).0.failure_count
            ≡ s.failure_count + (if ended_well made then 0 else 1))
  unfolding settle
  settle-counts t s (made, ok u) = (omega arith, omega arith)
  settle-counts t s (made, raise x) = (omega arith, omega arith)

  score_all-counts :
      (ts : List RefreshTarget) (s : RunState) → Counted ts s (score_all services run ts s).0
  unfolding score_all score_one
  score_all-counts [] s = (omega arith, omega arith)
  score_all-counts (t ∷ ts) s =
      let first = settle-counts t s (attempt services run t) in
      let later = score_all-counts ts (score_one services run t s).0 in ground (arith, first, later)

  -- What a run that returns did: it scored all its targets, and then completed the run.
  abbrev Completed : RunState → RunState → Type 0
  Completed m s =
      (s.success_count ≡ m.success_count)
      × (s.failure_count ≡ m.failure_count)
      × (s.calls ≡ m.calls ++ (mark_run_complete run.run_id m.success_count m.failure_count ∷ []))

  completed-Completed :
      (p : RunState × Result (Unit {0})) (s : RunState)
      → completed services run p ≡ (s, ok tt)
      → Completed p.0 s
  unfolding completed
  completed-Completed (m, raise x) s e = let bad = ap (λ q. q.1) e in cc
  completed-Completed (m, ok u) s e =
      let same = ap (λ q. q.0) e in
      (
        ap (λ x. x.success_count) (sym same),
        ap (λ x. x.failure_count) (sym same),
        ap (λ x. x.calls) (sym same),
      )

  running-Completed :
      (arrivals : List RefreshTarget) (s t : RunState) (m : Result (Unit {0}))
      → running services run arrivals s m ≡ (t, ok tt)
      → Completed (score_all services run arrivals s).0 t
  unfolding running
  running-Completed arrivals s t (raise x) e = let bad = ap (λ q. q.1) e in cc
  running-Completed arrivals s t (ok u) e =
      completed-Completed (score_all services run arrivals s) t e

-- A run that returns has counted every target of the run once, a success exactly when its `try` block
-- ends well, whatever the order in which the scores arrive, and its last call reports these counts.
pub execute_queued_run-counts :
    (services : Services) (run : QueuedExploreRefreshRun) (arrivals : List RefreshTarget)
    (s : RunState)
    → Permᴰ arrivals run.targets
    → execute_queued_run services run arrivals ≡ (s, ok tt)
    → (s.success_count ≡ countb (succeeds services run) run.targets)
      × (s.success_count + s.failure_count ≡ length run.targets)
      × (earlier : List StoreCall) × (s.calls
          ≡ earlier ++ (mark_run_complete run.run_id s.success_count s.failure_count ∷ []))
unfolding execute_queued_run
execute_queued_run-counts services run arrivals s p e =
    let (wins_kept, losses_kept, calls) =
      running-Completed services run arrivals (at_start services run) s _ e in
    let (good, bad) = score_all-counts services run arrivals (at_start services run) in
    let wins = countb-Perm (succeeds services run) p in
    let losses = countb-Perm (λ t. not (succeeds services run t)) p in
    (
      omega (arith, wins_kept, good, wins),
      omega (
        arith,
        wins_kept,
        losses_kept,
        good,
        bad,
        wins,
        losses,
        countb-not (succeeds services run) run.targets,
      ),
      (score_all services run arrivals (at_start services run)).0.calls,
      rw (wins_kept, losses_kept) calls,
    )
