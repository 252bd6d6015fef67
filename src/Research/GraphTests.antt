-- ===== src/Research/GraphTests.antt =====
-- The knowledge graph on a small example: a recommendation that derives from an experiment by two
-- ways, and an edge of another type.
use whidby.Prelude.{
  countb, str_eq, map, ◌≡◌, refl, true, List, [], ◌∷◌, none, some, String, ok, has,
}
use whidby.Num.Fixed.{ℤ, pos}
use whidby.Research.Graph.{
  EdgeType, supports, derived_from, NodeType, hypothesis, experiment, observation, recommendation,
  active, invalidated, GraphNode, GraphEdge, Graph, has_node,
}
use whidby.Research.Closed.{IsClosed}
use whidby.Research.Listing.{
  node_type_value, count_at, status_update, title_update, update_node, get_edges,
  invalidated_hypotheses, neighborhood, export_summary,
}
use whidby.Research.Lineage.{ids, lineage}
use whidby.Research.Ancestors.{Ancestor, lineage-Ancestor}
use whidby.Research.Updates.{export_summary-counts}

abbrev graph_node : String → NodeType → GraphNode ℤ
graph_node i t = record {
  id = i;
  node_type = t;
  title = i;
  description = "";
  status = active;
  confidence = pos 0;
  provenance_artifact = none;
}

abbrev graph_edge : String → String → EdgeType → GraphEdge ℤ
graph_edge s t e = record { source_id = s; target_id = t; edge_type = e; weight = pos 1 }

abbrev diamond : Graph ℤ
diamond = record {
  nodes =
      graph_node "advice" recommendation
      ∷ graph_node "left" hypothesis
      ∷ graph_node "right" hypothesis
      ∷ graph_node "source" experiment
      ∷ graph_node "aside" observation
      ∷ [];
  edges =
      graph_edge "advice" "left" derived_from
      ∷ graph_edge "advice" "right" derived_from
      ∷ graph_edge "left" "source" derived_from
      ∷ graph_edge "right" "source" derived_from
      ∷ graph_edge "aside" "advice" supports
      ∷ [];
}

-- The definitions that the tests compute with.
program : Unit {0}
unfolding lineage has_node update_node get_edges invalidated_hypotheses neighborhood export_summary
program = tt

-- A node that is reached by two ways is listed for each.
abbrev listed : List (GraphNode ℤ)
listed =
    graph_node "left" hypothesis
    ∷ graph_node "right" hypothesis
    ∷ graph_node "source" experiment
    ∷ graph_node "source" experiment
    ∷ []

lineage_of_advice : lineage "advice" diamond ≡ some (ok listed)
unfolding program
lineage_of_advice = refl

no_lineage : lineage "source" diamond ≡ some (ok [])
unfolding program
no_lineage = refl

edges_into_source :
    map (λ e. e.source_id) (get_edges "source" "both" none diamond) ≡ "left" ∷ "right" ∷ []
unfolding program
edges_into_source = refl

neighbors :
    neighborhood (λ g i k. "left" ∷ "advice" ∷ "source" ∷ []) "left" 1 diamond
    ≡ ok (graph_node "advice" recommendation ∷ graph_node "source" experiment ∷ [])
unfolding program
neighbors = refl

diamond-IsClosed : IsClosed diamond
unfolding program
diamond-IsClosed =
    ((refl, refl), ((refl, refl), ((refl, refl), ((refl, refl), ((refl, refl), tt)))))

lineage-Ancestor_example :
    (r : List (GraphNode ℤ)) × (lineage "advice" diamond ≡ some (ok r))
    × ((x : String)
        → (has x (ids r) ≡ true → Ancestor diamond "advice" x)
          × (Ancestor diamond "advice" x → has x (ids r) ≡ true))
lineage-Ancestor_example = lineage-Ancestor diamond "advice" diamond-IsClosed

invalidated_after_update :
    map
      (λ v. v.title)
      (invalidated_hypotheses
        (update_node "left" (status_update invalidated ∷ title_update "Left" ∷ []) diamond).0)
    ≡ "Left" ∷ []
unfolding program
invalidated_after_update = refl

export_summary-counts_example :
    count_at "hypothesis" (export_summary diamond).node_type_counts
    ≡ countb (λ v. str_eq (node_type_value v.node_type) "hypothesis") diamond.nodes
export_summary-counts_example = export_summary-counts "hypothesis" diamond

hypotheses_counted : count_at "hypothesis" (export_summary diamond).node_type_counts ≡ 2
unfolding program
hypotheses_counted = refl
