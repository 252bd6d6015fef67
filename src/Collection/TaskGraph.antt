-- ===== src/Collection/TaskGraph.antt =====
-- src/pipeline/task_graph.py: the levels of tasks in the order of their dependencies (Kahn's
-- algorithm), and the validation of a task graph. The dicts are functions of their keys; `indegree`
-- keeps its keys in insertion order as `task_ids`. The loop runs on fuel.
use whidby.Prelude.{
  has, ℕ, zero, suc, ◌+◌, ◌-◌, Bool, true, ◌&&◌, List, [], ◌∷◌, ◌++◌, map, Option, none, some,
  String, str_eq, if◌then◌else◌, Result, ok, raise, ◌>>=◌, key_error, value_error, length, filterb,
  countb, ◌==◌, not,
}
use whidby.Collection.{CollectionTask}

-- From a dependency to the task that needs it.
abbrev pub Edge : Type 0
Edge = String × String

-- `outgoing[dep]`: the list that `append` makes while the edges are read.
unfoldable pub outgoing : List Edge → String → List String
outgoing [] dep = []
outgoing ((d, t) ∷ es) dep = if str_eq d dep then t ∷ outgoing es dep else outgoing es dep

-- `indegree[task]` after the edges are read.
unfoldable pub indegree : List Edge → String → ℕ
indegree es task = countb (λ e. str_eq e.1 task) es

-- `indegree[child] -= 1`. A degree that is 0 stays 0, where the code would go below; neither is 0
-- after the step for the first time.
unfoldable pub decremented : String → (String → ℕ) → String → ℕ
decremented child degree x = if str_eq child x then degree x - 1 else degree x

-- The inner loop over `outgoing[task_id]`, on the degrees and the queue.
unfoldable pub release : List String → (String → ℕ) × List String → (String → ℕ) × List String
unfolding decremented
release [] s = s
release (child ∷ children) (degree, queue) =
    release children
      (decremented child degree, if degree child == 1 then queue ++ (child ∷ []) else queue)

-- The loop over `current_ids`.
unfoldable pub process :
    List Edge → List String → (String → ℕ) × List String → (String → ℕ) × List String
unfolding outgoing release
process es [] s = s
process es (i ∷ ids) s = process es ids (release (outgoing es i) s)

-- `while queue`: the levels, and what is left in the queue when the fuel is used up.
unfoldable pub id_levels :
    List Edge → ℕ → (String → ℕ) → List String → List (List String) × List String
unfolding process
id_levels es zero degree queue = ([], queue)
id_levels es (suc fuel) degree [] = ([], [])
id_levels es (suc fuel) degree (i ∷ ids) =
    let s = process es (i ∷ ids) (degree, []) in
    let rest = id_levels es fuel s.0 s.1 in ((i ∷ ids) ∷ rest.0, rest.1)

abbrev pub sum_lengths {ℓ} : {A : Type ℓ} → List (List A) → ℕ
sum_lengths [] = 0
sum_lengths (l ∷ ls) = length l + sum_lengths ls

module _ {P : Type 0} where
  unfoldable pub edges : List (CollectionTask P) → List Edge
  edges [] = []
  edges (t ∷ ts) = map (λ dep. (dep, t.task_id)) t.depends_on ++ edges ts

  -- The keys of `{task.task_id: … for task in tasks}`, in insertion order.
  unfoldable pub task_ids : List (CollectionTask P) → List String
  task_ids [] = []
  task_ids (t ∷ ts) = t.task_id ∷ filterb (λ x. not (str_eq t.task_id x)) (task_ids ts)

  -- `by_id[task_id]`: the last task with the id.
  unfoldable pub by_id : List (CollectionTask P) → String → Option (CollectionTask P)
  by_id [] i = none
  by_id (t ∷ ts) i = elim (by_id ts i) [
    | some u ↦ some u
    | none ↦ if str_eq t.task_id i then some t else none
  ]

  unfoldable pub level_tasks :
      List (CollectionTask P) → List String → Result (List (CollectionTask P))
  unfolding by_id
  level_tasks tasks [] = ok []
  level_tasks tasks (i ∷ ids) = elim (by_id tasks i) [
    | none ↦ raise key_error
    | some t ↦ level_tasks tasks ids >>= λ ts. ok (t ∷ ts)
  ]

  unfoldable pub all_level_tasks :
      List (CollectionTask P) → List (List String) → Result (List (List (CollectionTask P)))
  unfolding level_tasks
  all_level_tasks tasks [] = ok []
  all_level_tasks tasks (l ∷ ls) = do
    level ← level_tasks tasks l
    levels ← all_level_tasks tasks ls
    ok (level ∷ levels)

  -- The queue before the loop.
  unfoldable pub roots : List (CollectionTask P) → List String
  unfolding edges task_ids indegree
  roots tasks = filterb (λ i. indegree (edges tasks) i == 0) (task_ids tasks)

  -- The loop, with as much fuel as there are tasks.
  unfoldable pub run_levels : List (CollectionTask P) → List (List String) × List String
  unfolding id_levels edges indegree roots
  run_levels tasks = id_levels (edges tasks) (length tasks) (indegree (edges tasks)) (roots tasks)

  unfoldable pub dependency_levels :
      List (CollectionTask P) → Result (List (List (CollectionTask P)))
  unfolding run_levels all_level_tasks
  dependency_levels tasks = do
    levels ← all_level_tasks tasks (run_levels tasks).0
    if sum_lengths levels == length tasks then ok levels else raise value_error

  -- Every dependency is a key of `by_id`.
  abbrev pub all_known : List (CollectionTask P) → List Edge → Bool
  all_known tasks [] = true
  all_known tasks ((dep, t) ∷ es) = has dep (task_ids tasks) && all_known tasks es

  unfoldable pub validate_task_graph : List (CollectionTask P) → Result (Unit {0})
  unfolding edges dependency_levels
  validate_task_graph tasks =
      if all_known tasks (edges tasks)
      then (dependency_levels tasks >>= λ levels. ok tt)
      else raise value_error
