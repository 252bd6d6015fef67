-- ===== src/Research/Closed.antt =====
-- The graph never has an edge to a node that is not there, and promotion never raises.
use whidby.Prelude.{
  ◌&&◌, subst, sym, ◌≡◌, refl, true, Bool-cases, inl, inr, List, [], ◌∷◌, String, str_eq, eq_iff,
  arith, All, ok, ℕ, if◌then◌else◌,
}
use whidby.Num.Order.{Num}
use whidby.Research.Graph.{
  GraphNode, GraphEdge, Graph, has_node, put_node, add_node, put_edge, add_edge,
}
use whidby.Research.Backlog.{Hypothesis}
use whidby.Research.Loop.{
  Callbacks, IterationResult, promote_to_graph, hypothesis_node, experiment_node, LoopConfig,
}

module _ {F : Type 0} where
  abbrev pub Joins : List (GraphNode F) → GraphEdge F → Type 0
  Joins nodes e = (has_node e.source_id nodes ≡ true) × (has_node e.target_id nodes ≡ true)

  abbrev pub IsClosed : Graph F → Type 0
  IsClosed g = All (Joins g.nodes) g.edges

  has_node-put_node :
      (i : String) (v : GraphNode F) (vs : List (GraphNode F))
      → has_node i (put_node v vs) ≡ (if str_eq v.id i then true else has_node i vs)
  unfolding has_node put_node
  has_node-put_node i v [] = refl
  has_node-put_node i v (w ∷ ws) =
      ground (arith, eq_iff w.id v.id, eq_iff v.id i, eq_iff w.id i, has_node-put_node i v ws)

  has_node-put_node_self :
      (v : GraphNode F) (vs : List (GraphNode F)) → has_node v.id (put_node v vs) ≡ true
  has_node-put_node_self v vs = ground (arith, has_node-put_node v.id v vs, eq_iff v.id v.id)

  has_node-put_node_mono :
      (i : String) (v : GraphNode F) (vs : List (GraphNode F))
      → has_node i vs ≡ true
      → has_node i (put_node v vs) ≡ true
  has_node-put_node_mono i v vs h = ground (arith, has_node-put_node i v vs)

  pub All-Joins-put_node :
      (es : List (GraphEdge F)) (v : GraphNode F) (vs : List (GraphNode F))
      → All (Joins vs) es
      → All (Joins (put_node v vs)) es
  All-Joins-put_node [] v vs h = tt
  All-Joins-put_node (e ∷ es) v vs ((p, q), h) = (
    (has_node-put_node_mono _ v vs p, has_node-put_node_mono _ v vs q),
    All-Joins-put_node es v vs h,
  )

  All-put_edge :
      (P : GraphEdge F → Type 0) (e : GraphEdge F) (ds : List (GraphEdge F))
      → P e
      → All P ds
      → All P (put_edge e ds)
  unfolding put_edge
  All-put_edge P e [] p h = (p, tt)
  All-put_edge P e (d ∷ ds) p (q, h) =
      elim (Bool-cases (str_eq d.source_id e.source_id && str_eq d.target_id e.target_id)) [
        | inl t ↦ rw t (p, h)
        | inr t ↦ rw t (q, All-put_edge P e ds p h)
      ]

  -- An edge is added exactly when both its ends are nodes, and then the graph stays closed.
  pub add_edge-IsClosed :
      (e : GraphEdge F) (g : Graph F)
      → IsClosed g
      → Joins g.nodes e
      → (g' : Graph F) × (add_edge e g ≡ ok g') × IsClosed g'
  unfolding add_edge
  add_edge-IsClosed e g h (p, q) = (
    record g { edges = put_edge e g.edges },
    rw (p, q),
    All-put_edge (Joins g.nodes) e g.edges (p, q) h,
  )

  -- An edge between two nodes that were just added.
  linked-IsClosed :
      (v w : GraphNode F) (e : GraphEdge F) (g : Graph F)
      → IsClosed g
      → e.source_id ≡ w.id
      → e.target_id ≡ v.id
      → (g' : Graph F) × (add_edge e (add_node w (add_node v g)) ≡ ok g') × IsClosed g'
  unfolding add_node
  linked-IsClosed v w e g c p q =
      let vs = put_node v g.nodes in
      add_edge-IsClosed e (record g { nodes = put_node w vs })
        (All-Joins-put_node g.edges w vs (All-Joins-put_node g.edges v g.nodes c))
        (
          subst (λ i. has_node i (put_node w vs) ≡ true) (sym p) (has_node-put_node_self w vs),
          subst (λ i. has_node i (put_node w vs) ≡ true) (sym q)
              (has_node-put_node_mono v.id w vs (has_node-put_node_self v g.nodes)),
        )

module _ {F E B : Type 0} ⦃n : Num F⦄ (config : LoopConfig F) (calls : Callbacks F E B) where
  -- Recording a result in the graph never raises, and keeps the graph closed.
  pub promote_to_graph-IsClosed :
      (i : ℕ) (h : Hypothesis) (r : IterationResult F) (g : Graph F)
      → IsClosed g
      → (g' : Graph F) × (promote_to_graph config calls i h r g ≡ ok g') × IsClosed g'
  unfolding promote_to_graph
  promote_to_graph-IsClosed i h r g c =
      linked-IsClosed (hypothesis_node config calls i h r) (experiment_node config calls h r) _ g c
        refl refl
