-- ===== src/Collection/Accounts.antt =====
-- src/pipeline/batch_executor.py: every task of an accepted plan ends with a result or a failure.
use whidby.Prelude.{
  has, keys, has-assign, ◌≡◌, refl, ap, ◌∙◌, true, ◌||◌, Bool-cases, Option-cases, inl, inr, List,
  [], ◌∷◌, ◌++◌, map, String, str_eq, arith, All, ok,
}
use mathlib.Core.List.{Permᴰ}
use whidby.Collection.{CollectionTask, Payload}
use whidby.Collection.Members.{has-append, All-has}
use whidby.Collection.Levels.{joined}
use whidby.Collection.Ids.{ids_of}
use whidby.Collection.Acyclic.{
  IsAcyclic, IsAcyclic-accepted, IsAcyclic-returned, dependency_levels-Within,
}
use whidby.Collection.Executor.{
  Reply, replied, raised, timed_out, FailureRecord, failure_from_message, failure_from_response,
  Client, ApiResponse, timeout_message, normalized_rows, ExecutionState, settle_task, dispatch_task,
  run_task, run_level, run_all, execute_tasks,
}

pub has-Perm : (x : String) {xs ys : List String} → Permᴰ xs ys → has x xs ≡ has x ys
has-Perm x Permᴰ.nil = refl
has-Perm x (Permᴰ.cons e p) = rw (e, has-Perm x p) refl
has-Perm x (Permᴰ.swap e d) = rw (e, d) (ground arith)
has-Perm x (Permᴰ.trans p q) = has-Perm x p ∙ has-Perm x q

abbrev pub failed_ids : List FailureRecord → List String
failed_ids fs = map (λ f. f.task_id) fs

has-failed_ids :
    (x : String) (fs : List FailureRecord) (f : FailureRecord)
    → has x (failed_ids (fs ++ (f ∷ []))) ≡ (has x (failed_ids fs) || str_eq f.task_id x)
has-failed_ids x [] f = ground arith
has-failed_ids x (g ∷ fs) f = ground (arith, has-failed_ids x fs f)

module _ {F : Type 0} where
  -- A task has a result or a failure.
  abbrev pub Settled : ExecutionState F → String → Type 0
  Settled s x = (has x (keys s.task_results) || has x (failed_ids s.failures)) ≡ true

  failure_from_response-task_id :
      (t : CollectionTask Payload) (r : ApiResponse F)
      → (failure_from_response t r).task_id ≡ t.task_id
  unfolding failure_from_response failure_from_message
  failure_from_response-task_id t r = elim (Option-cases (r.error)) [
    | inl e ↦ rw e refl
    | inr (m, e) ↦ elim (Bool-cases (str_eq m "")) [
      | inl f ↦ rw (e, f) refl
      | inr f ↦ rw (e, f) refl
    ]
  ]

  -- What is settled stays settled, and the task becomes settled.
  settle_task-Settled :
      (t : CollectionTask Payload) (reply : Reply F) (s : ExecutionState F) (x : String)
      → ((has x (keys s.task_results) || has x (failed_ids s.failures)) || str_eq t.task_id x)
        ≡ true
      → Settled (settle_task t reply s) x
  unfolding settle_task failure_from_message
  settle_task-Settled t timed_out s x h =
      ground
        (arith, has-failed_ids x s.failures (failure_from_message t (timeout_message t.task_type)))
  settle_task-Settled t (raised m) s x h =
      ground (arith, has-failed_ids x s.failures (failure_from_message t m))
  settle_task-Settled t (replied r) s x h = elim (Bool-cases (str_eq r.status "ok")) [
    | inl e ↦
        rw e (ground (arith, has-assign x t.task_id (normalized_rows r.data_of) s.task_results))
    | inr e ↦ rw e (
        ground (
          arith,
          has-failed_ids x s.failures (failure_from_response t r),
          ap (λ i. str_eq i x) (failure_from_response-task_id t r),
        ))
  ]

module _ {F : Type 0} (client : Client F) where
  run_level-Settled :
      (ts : List (CollectionTask Payload)) (s : ExecutionState F) (x : String)
      → ((has x (keys s.task_results) || has x (failed_ids s.failures)) || has x (ids_of ts)) ≡ true
      → Settled (run_level client ts s) x
  unfolding run_level run_task
  run_level-Settled [] s x h = ground arith
  run_level-Settled (t ∷ ts) s x h =
      let s' = run_task client t s in
      run_level-Settled ts s' x (elim (Bool-cases (has x (ids_of ts))) [
        | inl later ↦ ground arith
        | inr none_later ↦
            let now = settle_task-Settled t (dispatch_task client t) s x (ground arith) in
            ground (arith, now)
      ])

  module _ (arrive : List (CollectionTask Payload) → List (CollectionTask Payload))
      (all_arrive : (l : List (CollectionTask Payload))
        → Permᴰ (ids_of (arrive l)) (ids_of l)) where
    run_all-Settled :
        (ls : List (List (CollectionTask Payload))) (s : ExecutionState F) (x : String)
        → ((has x (keys s.task_results) || has x (failed_ids s.failures))
            || has x (joined (map ids_of ls)))
          ≡ true
        → Settled (run_all client arrive ls s) x
    unfolding run_all
    run_all-Settled [] s x h = ground arith
    run_all-Settled (l ∷ ls) s x h =
        let s' = run_level client (arrive l) s in
        run_all-Settled ls s' x (elim (Bool-cases (has x (joined (map ids_of ls)))) [
          | inl later ↦ ground arith
          | inr none_later ↦
              let now = run_level-Settled (arrive l) s x (
                ground (
                  arith,
                  h,
                  none_later,
                  has-Perm x (all_arrive l),
                  has-append x (ids_of l) (joined (map ids_of ls)),
                )) in
              ground (arith, now)
        ])

-- An acyclic list of tasks is executed to the end: whatever the calls of the client do, and in
-- whatever order the calls of a level return, every task has a result or a failure afterwards.
pub execute_tasks-Settled :
    {F : Type 0} (client : Client F)
    (arrive : List (CollectionTask Payload) → List (CollectionTask Payload))
    (ts : List (CollectionTask Payload)) (s : ExecutionState F)
    → ((l : List (CollectionTask Payload)) → Permᴰ (ids_of (arrive l)) (ids_of l))
    → IsAcyclic ts
    → (s' : ExecutionState F) × (execute_tasks client arrive ts s ≡ ok s')
      × All (Settled s') (ids_of ts)
unfolding execute_tasks
execute_tasks-Settled client arrive [] s p a = (s, refl, tt)
execute_tasks-Settled client arrive (t ∷ ts) s p a =
    let valid = IsAcyclic-accepted (t ∷ ts) a in
    let (levels, e) = IsAcyclic-returned (t ∷ ts) a in
    let all = dependency_levels-Within (t ∷ ts) levels e in
    (
      run_all client arrive levels s,
      rw (valid, e) refl,
      All-has _ (ids_of (t ∷ ts))
          (λ x h. run_all-Settled client arrive p levels s x (ground (arith, all x h))),
    )
