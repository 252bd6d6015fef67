-- ===== src/Research/Listing.antt =====
-- src/research_agent/memory/graph_store.py and models.py: the listings of nodes and of edges, the
-- update of a node, the neighborhood and the summary. They are modelled for a node that is in the
-- graph. `within` is networkx's search of the undirected graph: the ids within a number of hops.
use whidby.Prelude.{
  ℕ, ◌+◌, Bool, true, not, ◌&&◌, ◌||◌, List, [], ◌∷◌, ◌++◌, Option, none, some, String, str_eq,
  filterb, length, assign, lookup, if◌then◌else◌, Result, ok, raise, key_error, ◌>>=◌,
}
use whidby.Research.Graph.{
  NodeType, EdgeType, NodeStatus, hypothesis, experiment, proxy_metric, recommendation, observation,
  supports, contradicts, derived_from, supersedes, tested_by, active, validated, invalidated,
  superseded, pending, GraphNode, GraphEdge, Graph, has_node, put_node,
}

abbrev pub node_type_value : NodeType → String
node_type_value hypothesis = "hypothesis"
node_type_value experiment = "experiment"
node_type_value proxy_metric = "proxy_metric"
node_type_value recommendation = "recommendation"
node_type_value observation = "observation"

abbrev pub edge_type_value : EdgeType → String
edge_type_value supports = "supports"
edge_type_value contradicts = "contradicts"
edge_type_value derived_from = "derived_from"
edge_type_value supersedes = "supersedes"
edge_type_value tested_by = "tested_by"

abbrev pub status_value : NodeStatus → String
status_value active = "active"
status_value validated = "validated"
status_value invalidated = "invalidated"
status_value superseded = "superseded"
status_value pending = "pending"

-- The test of a filter that may be left out.
abbrev pub allows : Option String → String → Bool
allows none value = true
allows (some wanted) value = str_eq value wanted

abbrev pub value_of {ℓ} : {A : Type ℓ} → (A → String) → Option A → Option String
value_of value none = none
value_of value (some a) = some (value a)

-- What `update_node` can change, in the fields that are modelled. A call that passes a new `id` is
-- left out: the source then stores a node under one id whose data name another.
pub data NodeUpdate (F : Type 0) : Type 0 where
  node_type_update : NodeType → NodeUpdate F
  title_update : String → NodeUpdate F
  description_update : String → NodeUpdate F
  status_update : NodeStatus → NodeUpdate F
  confidence_update : F → NodeUpdate F
  provenance_update : Option String → NodeUpdate F

pub record Summary : Type 0 where
  pub total_nodes : ℕ
  pub total_edges : ℕ
  pub node_type_counts : List (String × ℕ)

abbrev pub or_zero : Option ℕ → ℕ
or_zero none = 0
or_zero (some k) = k

abbrev pub count_at : String → List (String × ℕ) → ℕ
count_at key counts = or_zero (lookup key counts)

module _ {F : Type 0} where
  unfoldable pub get_node : String → List (GraphNode F) → Option (GraphNode F)
  get_node i [] = none
  get_node i (v ∷ vs) = if str_eq v.id i then some v else get_node i vs

  unfoldable pub list_nodes : Option NodeType → Option NodeStatus → Graph F → List (GraphNode F)
  list_nodes node_type status g =
      filterb
        (λ v.
          allows (value_of node_type_value node_type) (node_type_value v.node_type)
          && allows (value_of status_value status) (status_value v.status))
        g.nodes

  unfoldable pub invalidated_hypotheses : Graph F → List (GraphNode F)
  unfolding list_nodes
  invalidated_hypotheses g = list_nodes (some hypothesis) (some invalidated) g

  -- The edges out of a node and into it, of one type if it is given.
  abbrev pub goes_out : String → Option EdgeType → GraphEdge F → Bool
  goes_out i t e =
      str_eq e.source_id i && allows (value_of edge_type_value t) (edge_type_value e.edge_type)

  abbrev pub comes_in : String → Option EdgeType → GraphEdge F → Bool
  comes_in i t e =
      str_eq e.target_id i && allows (value_of edge_type_value t) (edge_type_value e.edge_type)

  -- The node is in the graph: networkx takes the characters of an unknown text for nodes.
  unfoldable pub get_edges : String → String → Option EdgeType → Graph F → List (GraphEdge F)
  get_edges i direction t g =
      (if str_eq direction "outgoing" || str_eq direction "both"
        then filterb (goes_out i t) g.edges
        else [])
      ++ (if str_eq direction "incoming" || str_eq direction "both"
          then filterb (comes_in i t) g.edges
          else [])

  unfoldable pub update_field : NodeUpdate F → GraphNode F → GraphNode F
  update_field (node_type_update t) v = record v { node_type = t }
  update_field (title_update t) v = record v { title = t }
  update_field (description_update t) v = record v { description = t }
  update_field (status_update s) v = record v { status = s }
  update_field (confidence_update x) v = record v { confidence = x }
  update_field (provenance_update p) v = record v { provenance_artifact = p }

  unfoldable pub update_fields : List (NodeUpdate F) → GraphNode F → GraphNode F
  unfolding update_field
  update_fields [] v = v
  update_fields (u ∷ us) v = update_fields us (update_field u v)

  -- The graph afterwards, and the node that is returned, from the node that was found.
  unfoldable pub update_found :
      List (NodeUpdate F) → Graph F → Option (GraphNode F) → Graph F × Option (GraphNode F)
  unfolding update_fields put_node
  update_found updates g none = (g, none)
  update_found updates g (some v) =
      let w = update_fields updates v in (record g { nodes = put_node w g.nodes }, some w)

  unfoldable pub update_node :
      String → List (NodeUpdate F) → Graph F → Graph F × Option (GraphNode F)
  unfolding get_node update_found
  update_node i updates g = update_found updates g (get_node i g.nodes)

  -- The nodes with these ids, but for the node asked about.
  unfoldable pub nodes_but : String → List (GraphNode F) → List String → Result (List (GraphNode F))
  unfolding get_node
  nodes_but i nodes [] = ok []
  nodes_but i nodes (j ∷ js) =
      let rest = nodes_but i nodes js in
      if str_eq j i
      then rest
      else elim (get_node j nodes) [ none ↦ raise key_error | some v ↦ rest >>= λ vs. ok (v ∷ vs) ]

  unfoldable pub neighborhood :
      (Graph F → String → ℕ → List String) → String → ℕ → Graph F → Result (List (GraphNode F))
  unfolding has_node nodes_but
  neighborhood within i max_depth g =
      if not (has_node i g.nodes) then ok [] else nodes_but i g.nodes (within g i max_depth)

  -- The loop of `export_summary` on the counts so far.
  unfoldable pub count_types : List (GraphNode F) → List (String × ℕ) → List (String × ℕ)
  count_types [] counts = counts
  count_types (v ∷ vs) counts =
      let key = node_type_value v.node_type in
      count_types vs (assign key (count_at key counts + 1) counts)

  unfoldable pub export_summary : Graph F → Summary
  unfolding count_types
  export_summary g = record {
    total_nodes = length g.nodes;
    total_edges = length g.edges;
    node_type_counts = count_types g.nodes [];
  }
