-- ===== src/Research/Tests.antt =====
-- A run over three hypotheses, with fixed-point numbers: the experiment of one of them raises.
use whidby.Prelude.{
  filterb, map, length, countb, ℕ, ◌+◌, ◌≤◌, ◌≡◌, refl, ◌⊎◌, true, List, [], ◌∷◌, none, some,
  String, str_eq, ok, raise, value_error, Exception, subst, ok-injective, if◌then◌else◌,
}
use mathlib.Core.List.{Permᴰ}
use whidby.Num.Order.{◌≼◌, ◌⊕◌}
use whidby.Num.Fixed.{ℤ, pos, fixed_num, fixed-IsOrdered}
use whidby.Research.Backlog.{
  Status, pending, validated, Hypothesis, is_pending, priority_of, pending_from, select_task,
}
use whidby.Research.Graph
use whidby.Research.Graph.{Graph, GraphNode, NodeType, hypothesis, experiment, supports, has_node}
use whidby.Research.Queries.{
  Pairs, strongest_evidence_for, Descending, strongest_evidence_for-Descending,
}
use whidby.Research.Listing.{comes_in}
use whidby.Research.Loop.{LoopConfig, Callbacks, LoopState, LoopOutcome, run, max_iterations}
use whidby.Research.Closed.{IsClosed}
use whidby.Research.Counts.{Placed, count_status}
use whidby.Research.Choice.{select_task-max}
use whidby.Research.Accounts.{waits, works, holds, fails}
use whidby.Research.Outcomes.{run_total, run_accounts, run_stops, run_cost, Explained}

abbrev hypothesis_of : String → Status → ℕ → Hypothesis
hypothesis_of i s p = record {
  id = some i;
  title = i;
  description = "";
  status = s;
  priority = some p;
  target_proxy = none;
  related_to = none;
}

abbrev backlog : List Hypothesis
backlog =
    hypothesis_of "density" pending 2
    ∷ hypothesis_of "broken" pending 5
    ∷ hypothesis_of "old" validated 9
    ∷ hypothesis_of "reviews" pending 1
    ∷ []

abbrev empty_graph : Graph ℤ
empty_graph = record { nodes = []; edges = [] }

abbrev config : LoopConfig ℤ
config = record {
  max_iterations = 2;
  convergence_window = 3;
  convergence_threshold = pos 100;
  budget_limit_usd = pos 500_000;
}

abbrev calls : Callbacks ℤ (Unit {0}) (Unit {0})
calls = record {
  run_experiment = λ h. if str_eq h.title "broken" then raise value_error else ok tt;
  cost_usd = λ e. ok (pos 30_000);
  evaluate = λ b e. ok (pos 1_000, pos 5_000, "better");
  baseline = tt;
  experiment_id = λ i. "experiment";
  fresh_node_id = λ i. "node";
  artifact_path = λ i. i;
}

-- The definitions that a run computes with.
program : Unit {0}
unfolding run strongest_evidence_for has_node
program = tt

abbrev finished : LoopOutcome ℤ × LoopState ℤ (Unit {0})
finished =
    elim (run config calls backlog empty_graph) as (λ _. LoopOutcome ℤ × LoopState ℤ (Unit {0})) [
      | ok r ↦ r
      | raise e ↦ (
        record {
          iterations_completed = 0;
          stop_reason = max_iterations;
          total_cost_usd = pos 0;
          results = [];
          validated_count = 0;
          invalidated_count = 0;
        },
        record {
          backlog = [];
          cumulative_cost = pos 0;
          results = [];
          graph = empty_graph;
          events = [];
        },
      )
    ]

ran : run config calls backlog empty_graph ≡ ok finished
unfolding program
ran = refl

cost_of_run : finished.0.total_cost_usd ≡ pos 30_000
unfolding program
cost_of_run = refl

run_total_example :
    ((o : LoopOutcome ℤ) × (s : LoopState ℤ (Unit {0})) × (run config calls backlog empty_graph
        ≡ ok (o, s))
      × IsClosed s.graph)
    ⊎ ((e : Unit {0}) × (x : Exception) × (calls.cost_usd e ≡ raise x)
        × (run config calls backlog empty_graph ≡ raise x))
run_total_example = run_total config calls backlog empty_graph tt

run_accounts_example :
    (finished.0.iterations_completed ≤ 2)
    × (finished.0.validated_count + finished.0.invalidated_count ≡ finished.0.iterations_completed)
    × (count_status works finished.1.backlog ≡ count_status works backlog)
    × (count_status holds finished.1.backlog
        ≡ count_status holds backlog + finished.0.validated_count)
    × (count_status fails finished.1.backlog
        ≡ count_status fails backlog + finished.0.invalidated_count)
run_accounts_example = run_accounts config calls backlog empty_graph tt ran

run_stops_example :
    Explained config calls finished.0.stop_reason (count_status waits backlog) finished.1
run_stops_example = run_stops config calls backlog empty_graph tt ran

run_cost_example :
    (finished.0.total_cost_usd ≡ pos 0) ⊎ (finished.0.total_cost_usd ≼ pos 500_000 ⊕ pos 30_000)
run_cost_example =
    run_cost config calls fixed-IsOrdered (pos 30_000)
      (λ e c h. subst (λ x. x ≼ pos 30_000) (ok-injective h) refl) backlog empty_graph tt ran

-- The pending hypotheses of the backlog, with their places.
abbrev offered : List (ℕ × Hypothesis)
offered = (1, hypothesis_of "broken" pending 5) ∷ (3, hypothesis_of "reviews" pending 1) ∷ []

offers : pending_from 0 backlog ≡ (0, hypothesis_of "density" pending 2) ∷ offered
unfolding program
offers = refl

select_task-max_example :
    Placed
      (select_task (0, hypothesis_of "density" pending 2) offered).0
      (select_task (0, hypothesis_of "density" pending 2) offered).1
      backlog
    × (is_pending (select_task (0, hypothesis_of "density" pending 2) offered).1 ≡ true)
    × ((j : ℕ) (h : Hypothesis)
        → Placed j h backlog
        → is_pending h ≡ true
        → priority_of h
          ≤ priority_of (select_task (0, hypothesis_of "density" pending 2) offered).1)
select_task-max_example =
    select_task-max backlog (0, hypothesis_of "density" pending 2) offered offers

abbrev node_of : String → NodeType → GraphNode ℤ
node_of i t = record {
  id = i;
  node_type = t;
  title = i;
  description = "";
  status = Graph.active;
  confidence = pos 0;
  provenance_artifact = none;
}

abbrev evidence_graph : Graph ℤ
evidence_graph = record {
  nodes = node_of "h" hypothesis ∷ node_of "e" experiment ∷ node_of "f" experiment ∷ [];
  edges =
      record { source_id = "e"; target_id = "h"; edge_type = supports; weight = pos 3 }
      ∷ record { source_id = "f"; target_id = "h"; edge_type = supports; weight = pos 8 }
      ∷ [];
}

evidence_graph-IsClosed : IsClosed evidence_graph
unfolding program
evidence_graph-IsClosed = ((refl, refl), ((refl, refl), tt))

evidence_graph-has_h : has_node "h" evidence_graph.nodes ≡ true
unfolding program
evidence_graph-has_h = refl

evidence_weights : map (λ p. p.1) (strongest_evidence_for "h" evidence_graph) ≡ pos 8 ∷ pos 3 ∷ []
unfolding program
evidence_weights = refl

strongest_evidence_for-Descending_example :
    Descending fixed-IsOrdered (strongest_evidence_for "h" evidence_graph)
    × (length (strongest_evidence_for "h" evidence_graph)
        ≡ countb (comes_in "h" (some supports)) evidence_graph.edges)
    × (pairs : List (GraphNode ℤ × ℤ)) × Permᴰ (strongest_evidence_for "h" evidence_graph) pairs
    × Pairs evidence_graph.nodes (filterb (comes_in "h" (some supports)) evidence_graph.edges) pairs
strongest_evidence_for-Descending_example =
    strongest_evidence_for-Descending fixed-IsOrdered "h" evidence_graph evidence_graph-IsClosed
      evidence_graph-has_h
