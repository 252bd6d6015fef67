-- ===== src/Research/Graph.antt =====
-- src/research_agent/memory/graph_store.py and models.py: the nodes and the edges of the directed
-- graph, and the operations that the loop calls. Persistence writes the graph to a file, unchanged.
use whidby.Prelude.{
  Bool, true, false, not, ◌&&◌, List, [], ◌∷◌, Option, String, str_eq, if◌then◌else◌, Result, ok,
  raise, value_error,
}

pub data NodeType : Type 0 where
  hypothesis experiment proxy_metric recommendation observation : NodeType

pub data EdgeType : Type 0 where
  supports contradicts derived_from supersedes tested_by : EdgeType

pub data NodeStatus : Type 0 where
  active validated invalidated superseded pending : NodeStatus

pub record GraphNode (F : Type 0) : Type 0 where
  pub id : String
  pub node_type : NodeType
  pub title : String
  pub description : String
  pub status : NodeStatus
  pub confidence : F
  pub provenance_artifact : Option String

pub record GraphEdge (F : Type 0) : Type 0 where
  pub source_id : String
  pub target_id : String
  pub edge_type : EdgeType
  pub weight : F

pub record Graph (F : Type 0) : Type 0 where
  pub nodes : List (GraphNode F)
  pub edges : List (GraphEdge F)

module _ {F : Type 0} where
  -- `node_id in graph`
  unfoldable pub has_node : String → List (GraphNode F) → Bool
  has_node i [] = false
  has_node i (v ∷ vs) = if str_eq v.id i then true else has_node i vs

  -- `DiGraph.add_node`: a node with the same id takes the new attributes.
  unfoldable pub put_node : GraphNode F → List (GraphNode F) → List (GraphNode F)
  put_node v [] = v ∷ []
  put_node v (w ∷ ws) = if str_eq w.id v.id then v ∷ ws else w ∷ put_node v ws

  unfoldable pub add_node : GraphNode F → Graph F → Graph F
  unfolding put_node
  add_node v g = record g { nodes = put_node v g.nodes }

  -- `DiGraph.add_edge`: there is one edge from a node to another.
  unfoldable pub put_edge : GraphEdge F → List (GraphEdge F) → List (GraphEdge F)
  put_edge e [] = e ∷ []
  put_edge e (d ∷ ds) =
      if str_eq d.source_id e.source_id && str_eq d.target_id e.target_id
      then e ∷ ds
      else d ∷ put_edge e ds

  unfoldable pub add_edge : GraphEdge F → Graph F → Result (Graph F)
  unfolding has_node put_edge
  add_edge e g =
      if not (has_node e.source_id g.nodes)
      then raise value_error
      else if not (has_node e.target_id g.nodes)
      then raise value_error
      else ok (record g { edges = put_edge e g.edges })
