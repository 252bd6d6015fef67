-- ===== src/Research/Queries.antt =====
-- src/research_agent/memory/graph_store.py: the queries on nodes and edges. They are modelled for a
-- node that is in the graph (for an unknown text networkx takes its characters for nodes); the JSON form of a node and of an edge is left out.
use whidby.Prelude.{
  ◌+◌, ◌≡◌, refl, sym, ap, ◌∙◌, Bool, true, Bool-cases, inl, inr, List, [], ◌∷◌, none, some, String,
  str_eq, arith, length, filterb, countb, All, if◌then◌else◌,
}
use mathlib.Core.List.{Permᴰ}
use mathlib.Core.List.Permᴰ
use whidby.Num.Order.{Num, IsOrdered, lt_num, ◌≼◌}
use whidby.Research.Graph.{supports, GraphNode, GraphEdge, Graph, has_node}
use whidby.Research.Listing.{get_node, get_edges, comes_in}
use whidby.Research.Closed.{Joins, IsClosed}

module _ {F : Type 0} where
  -- `get_edges(node_id, direction="incoming", edge_type=SUPPORTS)`
  unfoldable pub supporting_edges : String → Graph F → List (GraphEdge F)
  unfolding get_edges
  supporting_edges i g = get_edges i "incoming" (some supports) g

  -- The pairs of the loop of `strongest_evidence_for`.
  unfoldable pub evidence_pairs : List (GraphNode F) → List (GraphEdge F) → List (GraphNode F × F)
  unfolding get_node
  evidence_pairs vs [] = []
  evidence_pairs vs (e ∷ es) = elim (get_node e.source_id vs) [
    | none ↦ evidence_pairs vs es
    | some v ↦ (v, e.weight) ∷ evidence_pairs vs es
  ]

module _ {F : Type 0} ⦃n : Num F⦄ where
  -- `sorted(pairs, key=weight, reverse=True)` keeps the order of equal weights.
  unfoldable pub insert_pair : GraphNode F × F → List (GraphNode F × F) → List (GraphNode F × F)
  insert_pair p [] = p ∷ []
  insert_pair p (q ∷ qs) = if lt_num p.1 q.1 then q ∷ insert_pair p qs else p ∷ q ∷ qs

  unfoldable pub sorted_pairs : List (GraphNode F × F) → List (GraphNode F × F)
  unfolding insert_pair
  sorted_pairs [] = []
  sorted_pairs (p ∷ ps) = insert_pair p (sorted_pairs ps)

  unfoldable pub strongest_evidence_for : String → Graph F → List (GraphNode F × F)
  unfolding supporting_edges evidence_pairs sorted_pairs
  strongest_evidence_for i g = sorted_pairs (evidence_pairs g.nodes (supporting_edges i g))

module _ {F : Type 0} where
  pub get_node-has_node :
      (i : String) (vs : List (GraphNode F))
      → has_node i vs ≡ true
      → (v : GraphNode F) × (get_node i vs ≡ some v)
  unfolding get_node has_node
  get_node-has_node i [] h = cc
  get_node-has_node i (v ∷ vs) h = elim (Bool-cases (str_eq v.id i)) [
    | inl e ↦ (v, rw e refl)
    | inr e ↦
        let (w, r) =
          get_node-has_node i vs (ap (λ b. if b then true else has_node i vs) (sym e) ∙ h) in
        (w, rw e r)
  ]

  length-evidence_pairs :
      (vs : List (GraphNode F)) (p : GraphEdge F → Bool) (es : List (GraphEdge F))
      → All (Joins vs) es
      → length (evidence_pairs vs (filterb p es)) ≡ countb p es
  unfolding evidence_pairs
  length-evidence_pairs vs p [] h = refl
  length-evidence_pairs vs p (e ∷ es) ((s, t), h) = elim (Bool-cases (p e)) [
    | inl b ↦
        let (v, r) = get_node-has_node e.source_id vs s in
        rw (b, evidence_pairs, r) (omega (arith, length-evidence_pairs vs p es h))
    | inr b ↦ rw b (omega (arith, length-evidence_pairs vs p es h))
  ]

module _ {F : Type 0} where
  -- One pair for each edge, in order: the node at the source of the edge, and the weight of the edge.
  abbrev pub Pairs : List (GraphNode F) → List (GraphEdge F) → List (GraphNode F × F) → Type 0
  Pairs vs [] [] = Unit
  Pairs vs (e ∷ es) (p ∷ ps) =
      (get_node e.source_id vs ≡ some p.0) × (p.1 ≡ e.weight) × Pairs vs es ps
  Pairs vs _ _ = ⊥

  evidence_pairs-Pairs :
      (vs : List (GraphNode F)) (p : GraphEdge F → Bool) (es : List (GraphEdge F))
      → All (Joins vs) es
      → Pairs vs (filterb p es) (evidence_pairs vs (filterb p es))
  unfolding evidence_pairs
  evidence_pairs-Pairs vs p [] h = tt
  evidence_pairs-Pairs vs p (e ∷ es) ((s, t), h) = elim (Bool-cases (p e)) [
    | inl b ↦
        let (v, r) = get_node-has_node e.source_id vs s in
        rw (b, evidence_pairs, r) (r, refl, evidence_pairs-Pairs vs p es h)
    | inr b ↦ rw b (evidence_pairs-Pairs vs p es h)
  ]

  Perm-insert_pair :
      ⦃n : Num F⦄ (p : GraphNode F × F) (ps : List (GraphNode F × F))
      → Permᴰ (insert_pair p ps) (p ∷ ps)
  unfolding insert_pair
  Perm-insert_pair p [] = Permᴰ.refl (p ∷ [])
  Perm-insert_pair p (q ∷ qs) = elim (Bool-cases (lt_num p.1 q.1)) [
    | inr e ↦ rw (e, insert_pair) (Permᴰ.refl (p ∷ q ∷ qs))
    | inl e ↦
        rw (e, insert_pair)
          (Permᴰ.trans (Permᴰ.cons refl (Perm-insert_pair p qs)) (Permᴰ.swap refl refl))
  ]

  Perm-sorted_pairs : ⦃n : Num F⦄ (ps : List (GraphNode F × F)) → Permᴰ (sorted_pairs ps) ps
  unfolding sorted_pairs
  Perm-sorted_pairs [] = Permᴰ.nil
  Perm-sorted_pairs (p ∷ ps) =
      Permᴰ.trans (Perm-insert_pair p (sorted_pairs ps)) (Permᴰ.cons refl (Perm-sorted_pairs ps))

module _ {F : Type 0} ⦃n : Num F⦄ (laws : IsOrdered F) where
  length-insert_pair :
      (p : GraphNode F × F) (ps : List (GraphNode F × F))
      → length (insert_pair p ps) ≡ length ps + 1
  unfolding insert_pair
  length-insert_pair p [] = omega arith
  length-insert_pair p (q ∷ qs) = ground (arith, length-insert_pair p qs)

  length-sorted_pairs : (ps : List (GraphNode F × F)) → length (sorted_pairs ps) ≡ length ps
  unfolding sorted_pairs
  length-sorted_pairs [] = refl
  length-sorted_pairs (p ∷ ps) =
      omega (arith, length-insert_pair p (sorted_pairs ps), length-sorted_pairs ps)

  -- Each weight is at least those after it.
  abbrev pub Descending : List (GraphNode F × F) → Type 0
  Descending [] = Unit
  Descending (p ∷ ps) = All (λ q. q.1 ≼ p.1) ps × Descending ps

  All-insert_pair :
      (P : GraphNode F × F → Type 0) (p : GraphNode F × F) (ps : List (GraphNode F × F))
      → P p
      → All P ps
      → All P (insert_pair p ps)
  unfolding insert_pair
  All-insert_pair P p [] h a = (h, tt)
  All-insert_pair P p (q ∷ qs) h (k, a) = elim (Bool-cases (lt_num p.1 q.1)) [
    | inl e ↦ rw e (k, All-insert_pair P p qs h a)
    | inr e ↦ rw e (h, (k, a))
  ]

  All-weaker :
      (x y : F) (ps : List (GraphNode F × F))
      → x ≼ y
      → All (λ q. q.1 ≼ x) ps
      → All (λ q. q.1 ≼ y) ps
  All-weaker x y [] h a = tt
  All-weaker x y (q ∷ qs) h (k, a) = (laws.le_trans _ _ _ k h, All-weaker x y qs h a)

  Descending-insert_pair :
      (p : GraphNode F × F) (ps : List (GraphNode F × F))
      → Descending ps
      → Descending (insert_pair p ps)
  unfolding insert_pair
  Descending-insert_pair p [] d = (tt, tt)
  Descending-insert_pair p (q ∷ qs) (a, d) = elim (Bool-cases (lt_num p.1 q.1)) [
    | inl e ↦ rw e (
      All-insert_pair (λ r. r.1 ≼ q.1) p qs (ground (arith, laws.le_total p.1 q.1)) a,
      Descending-insert_pair p qs d,
    )
    | inr e ↦
        let k : q.1 ≼ p.1 = ground (arith, laws.le_total p.1 q.1) in
        rw e ((k, All-weaker q.1 p.1 qs k a), (a, d))
  ]

  Descending-sorted_pairs : (ps : List (GraphNode F × F)) → Descending (sorted_pairs ps)
  unfolding sorted_pairs
  Descending-sorted_pairs [] = tt
  Descending-sorted_pairs (p ∷ ps) =
      Descending-insert_pair p (sorted_pairs ps) (Descending-sorted_pairs ps)

  -- In a graph whose edges join its nodes, the evidence for a node of the graph has, in some order, one
  -- pair for each supporting edge into it, which is the node at the source of that edge with the weight of the
  -- edge; and the weights never increase along the list.
  pub strongest_evidence_for-Descending :
      (i : String) (g : Graph F)
      → IsClosed g
      → has_node i g.nodes ≡ true
      → Descending (strongest_evidence_for i g)
        × (length (strongest_evidence_for i g) ≡ countb (comes_in i (some supports)) g.edges)
        × (pairs : List (GraphNode F × F)) × Permᴰ (strongest_evidence_for i g) pairs
        × Pairs g.nodes (filterb (comes_in i (some supports)) g.edges) pairs
  unfolding strongest_evidence_for supporting_edges
  strongest_evidence_for-Descending i g c inside = (
    Descending-sorted_pairs (evidence_pairs g.nodes (supporting_edges i g)),
    length-sorted_pairs (evidence_pairs g.nodes (supporting_edges i g))
        ∙ length-evidence_pairs g.nodes (comes_in i (some supports)) g.edges c,
    evidence_pairs g.nodes (supporting_edges i g),
    Perm-sorted_pairs (evidence_pairs g.nodes (supporting_edges i g)),
    evidence_pairs-Pairs g.nodes (comes_in i (some supports)) g.edges c,
  )
