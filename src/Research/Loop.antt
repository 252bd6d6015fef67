-- ===== src/Research/Loop.antt =====
-- src/research_agent/loop/ralph_loop.py: `RalphResearchLoop.run`. The experiment runner and the
-- evaluator are callbacks: functions that return a value or raise. Fresh ids are functions of the
-- iteration. The log of files written is a list of events.
use whidby.Prelude.{
  ℕ, zero, suc, ◌-◌, Bool, true, false, not, ◌&&◌, List, [], ◌∷◌, ◌++◌, Option, none, some, String,
  ltb, if◌then◌else◌, Result, ok, raise, ◌>>=◌, Exception, length, drop, countb,
}
use Prim.Native.String.{◌++◌ as text_append}
use whidby.Num.Order.{Num, decimal, le_num, lt_num, ◌⊕◌, ◌⊖◌}
use whidby.Research.Backlog
use whidby.Research.Backlog.{
  Status, Hypothesis, id_of, pending_from, select_task, set_status, reprioritize,
}
use whidby.Research.Graph
use whidby.Research.Graph.{GraphNode, GraphEdge, Graph, NodeStatus, add_node, add_edge}

pub data StopReason : Type 0 where
  max_iterations convergence budget_exceeded backlog_empty external_halt : StopReason

pub record LoopConfig (F : Type 0) : Type 0 where
  pub max_iterations : ℕ
  pub convergence_window : ℕ
  pub convergence_threshold : F
  pub budget_limit_usd : F

pub record IterationResult (F : Type 0) : Type 0 where
  pub iteration : ℕ
  pub hypothesis_id : String
  pub experiment_id : String
  pub baseline_score : F
  pub candidate_score : F
  pub delta : F
  pub validated : Bool
  pub cost_usd : F
  pub learning : String

pub record LoopOutcome (F : Type 0) : Type 0 where
  pub iterations_completed : ℕ
  pub stop_reason : StopReason
  pub total_cost_usd : F
  pub results : List (IterationResult F)
  pub validated_count : ℕ
  pub invalidated_count : ℕ

-- What the loop writes through `FilesystemStore`; a write that fails is left out.
pub data Event (F E : Type 0) : Type 0 where
  save_backlog : List Hypothesis → Event F E
  save_loop_state : ℕ → String → F → Event F E
  save_experiment_result : String → E → Event F E
  experiment_failed : ℕ → Option String → Exception → Event F E
  append_progress : IterationResult F → Event F E
  save_outcome : LoopOutcome F → Event F E

-- `current_backlog` and the fields of the loop object.
pub record LoopState (F E : Type 0) : Type 0 where
  pub backlog : List Hypothesis
  pub cumulative_cost : F
  pub results : List (IterationResult F)
  pub graph : Graph F
  pub events : List (Event F E)

-- What the loop is given: the callbacks, the baseline snapshot and the source of fresh ids.
-- `cost_usd` is `experiment_result.get("cost_usd", 0.0)` with its addition to the total: it raises
-- where the result of the experiment is no dict or its cost is no number. The scores of an evaluation
-- are numbers, as the type `Evaluator` says.
pub record Callbacks (F E B : Type 0) : Type 0 where
  pub run_experiment : Hypothesis → Result E
  pub cost_usd : E → Result F
  pub evaluate : B → E → Result (F × F × String)
  pub baseline : B
  pub experiment_id : ℕ → String
  pub fresh_node_id : ℕ → String
  pub artifact_path : String → String

-- One turn of the `for` loop: `break` with a reason, or the state after the body.
pub data Turn (F E : Type 0) : Type 0 where
  stop : StopReason → Turn F E
  next : LoopState F E → Turn F E

-- How many results `results[-window:]` leaves out.
unfoldable pub skipped : ℕ → ℕ → ℕ
skipped zero count = 0
skipped (suc w) count = count - suc w

module _ {F : Type 0} ⦃n : Num F⦄ where
  abbrev pub abs_num : F → F
  abs_num d = if lt_num d (decimal 0) then decimal 0 ⊖ d else d

  unfoldable pub all_below : F → List (IterationResult F) → Bool
  all_below t [] = true
  all_below t (r ∷ rs) = lt_num (abs_num r.delta) t && all_below t rs

module _ {F E : Type 0} where
  unfoldable pub outcome_of : StopReason → LoopState F E → LoopOutcome F
  outcome_of reason s = record {
    iterations_completed = length s.results;
    stop_reason = reason;
    total_cost_usd = s.cumulative_cost;
    results = s.results;
    validated_count = countb (λ r. r.validated) s.results;
    invalidated_count = countb (λ r. not r.validated) s.results;
  }

module _ {F E B : Type 0} ⦃n : Num F⦄ (config : LoopConfig F) (calls : Callbacks F E B) where
  open calls use {
    run_experiment, cost_usd, evaluate, baseline, experiment_id, fresh_node_id, artifact_path,
  }

  -- `_check_convergence`; `results[-0:]` is the whole list.
  unfoldable pub check_convergence : List (IterationResult F) → Bool
  unfolding all_below skipped
  check_convergence results =
      if ltb (length results) config.convergence_window
      then false
      else all_below config.convergence_threshold
          (drop (skipped config.convergence_window (length results)) results)

  -- `_promote_to_graph`: the two nodes, and the edge from the experiment to the hypothesis.
  abbrev pub outcome_status : IterationResult F → NodeStatus
  outcome_status r = if r.validated then Graph.validated else Graph.invalidated

  unfoldable pub hypothesis_node : ℕ → Hypothesis → IterationResult F → GraphNode F
  hypothesis_node iteration h result = record {
    id = elim (h.id) [ none ↦ fresh_node_id iteration | some i ↦ i ];
    node_type = Graph.hypothesis;
    title = h.title;
    description = h.description;
    status = outcome_status result;
    confidence = abs_num result.delta;
    provenance_artifact = some (artifact_path result.experiment_id);
  }

  unfoldable pub experiment_node : Hypothesis → IterationResult F → GraphNode F
  experiment_node h result = record {
    id = result.experiment_id;
    node_type = Graph.experiment;
    title = text_append "Experiment for: " h.title;
    description = result.learning;
    status = outcome_status result;
    confidence = abs_num result.delta;
    provenance_artifact = some (artifact_path result.experiment_id);
  }

  unfoldable pub promote_to_graph : ℕ → Hypothesis → IterationResult F → Graph F → Result (Graph F)
  unfolding hypothesis_node experiment_node add_node add_edge
  promote_to_graph iteration h result g =
      let h_node = hypothesis_node iteration h result in
      let exp_node = experiment_node h result in
      add_edge
        (record {
          source_id = exp_node.id;
          target_id = h_node.id;
          edge_type = if result.validated then Graph.supports else Graph.contradicts;
          weight = abs_num result.delta;
        })
        (add_node exp_node (add_node h_node g))

  unfoldable pub iteration_result : ℕ → Hypothesis → F → F × F × String → IterationResult F
  iteration_result iteration h cost (baseline_score, candidate_score, learning) =
      let delta = candidate_score ⊖ baseline_score in
      record {
        iteration = iteration;
        hypothesis_id = id_of h;
        experiment_id = experiment_id iteration;
        baseline_score = baseline_score;
        candidate_score = candidate_score;
        delta = delta;
        validated = lt_num (decimal 0) delta;
        cost_usd = cost;
        learning = learning;
      }

  abbrev pub final_status : IterationResult F → Status
  final_status r = if r.validated then Backlog.validated else Backlog.invalidated

  -- Stages 3 to 5, after an evaluation that returned: the state once the graph has the result.
  unfoldable pub recorded : ℕ → IterationResult F → LoopState F E → Graph F → LoopState F E
  unfolding set_status reprioritize
  recorded place result s graph =
      let marked = set_status place (final_status result) s.backlog in
      let backlog = reprioritize result.validated result.hypothesis_id marked in
      record s {
        backlog = backlog;
        results = s.results ++ (result ∷ []);
        graph = graph;
        events =
            s.events ++ (save_backlog marked ∷ append_progress result ∷ save_backlog backlog ∷ []);
      }

  unfoldable pub record_result :
      ℕ → ℕ → Hypothesis → IterationResult F → LoopState F E → Result (LoopState F E)
  unfolding promote_to_graph recorded
  record_result iteration place h result s = do
    graph ← promote_to_graph iteration h result s.graph
    ok (recorded place result s graph)

  -- A callback raised: the hypothesis gets a status, and the loop goes on.
  unfoldable pub gave_up : ℕ → Status → List (Event F E) → LoopState F E → LoopState F E
  unfolding set_status
  gave_up place status extra s =
      let backlog = set_status place status s.backlog in
      record s { backlog = backlog; events = s.events ++ (save_backlog backlog ∷ extra) }

  -- Stage 3
  unfoldable pub evaluated : ℕ → ℕ → Hypothesis → E → F → LoopState F E → Result (LoopState F E)
  unfolding gave_up iteration_result record_result
  evaluated iteration place h experiment cost s = elim (evaluate baseline experiment) [
    | ok scores ↦ record_result iteration place h (iteration_result iteration h cost scores) s
    | raise e ↦ ok (gave_up place Backlog.eval_failed [] s)
  ]

  -- Stage 1: the hypothesis is taken up.
  unfoldable pub started : ℕ → ℕ → Hypothesis → LoopState F E → LoopState F E
  unfolding set_status
  started iteration place h s =
      let taken = set_status place Backlog.in_progress s.backlog in
      record s {
        backlog = taken;
        events =
            s.events
            ++ (save_backlog taken ∷ save_loop_state iteration (id_of h) s.cumulative_cost ∷ []);
      }

  -- The experiment returned: its cost counts, and its result is saved.
  unfoldable pub paid : ℕ → E → F → LoopState F E → LoopState F E
  paid iteration experiment cost s = record s {
    cumulative_cost = s.cumulative_cost ⊕ cost;
    events = s.events ++ (save_experiment_result (experiment_id iteration) experiment ∷ []);
  }

  -- Stages 1 and 2. The cost is read outside the `try` blocks.
  unfoldable pub run_task : ℕ → ℕ × Hypothesis → LoopState F E → Result (LoopState F E)
  unfolding started paid gave_up evaluated
  run_task iteration (place, h) s =
      elim (run_experiment (record h { status = Backlog.in_progress })) [
        | ok experiment ↦ cost_usd experiment >>= λ cost.
            evaluated iteration place h experiment cost
              (paid iteration experiment cost (started iteration place h s))
        | raise e ↦ ok (
            gave_up place Backlog.failed (experiment_failed iteration h.id e ∷ [])
              (started iteration place h s))
      ]

  -- The stop tests, in order, and the body.
  unfoldable pub turn : ℕ → LoopState F E → Result (Turn F E)
  unfolding pending_from select_task check_convergence run_task
  turn iteration s = elim (pending_from 0 s.backlog) [
    | [] ↦ ok (stop backlog_empty)
    | p ∷ ps ↦
        if le_num config.budget_limit_usd s.cumulative_cost
        then ok (stop budget_exceeded)
        else if check_convergence s.results
        then ok (stop convergence)
        else do s' ← run_task iteration (select_task p ps) s; ok (next s')
  ]

  -- `for iteration in range(…)`, with the iterations that are left
  unfoldable pub loop_from : ℕ → ℕ → LoopState F E → Result (StopReason × LoopState F E)
  unfolding turn
  loop_from zero iteration s = ok (max_iterations, s)
  loop_from (suc left) iteration s = do
    t ← turn iteration s
    elim t [ stop reason ↦ ok (reason, s) | next s' ↦ loop_from left (suc iteration) s' ]

  -- `run(backlog)`, on a loop object that is new.
  unfoldable pub run : List Hypothesis → Graph F → Result (LoopOutcome F × LoopState F E)
  unfolding loop_from outcome_of
  run backlog graph = do
    (reason, s) ← loop_from config.max_iterations 1 (record {
      backlog = backlog;
      cumulative_cost = decimal 0;
      results = [];
      graph = graph;
      events = save_backlog backlog ∷ [];
    })
    let outcome = outcome_of reason s
    ok (outcome, record s { events = s.events ++ (save_outcome outcome ∷ []) })
