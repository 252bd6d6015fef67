-- ===== src/Research/Lineage.antt =====
-- src/research_agent/memory/graph_store.py: the lineage of a node, a search with a stack and a set of
-- visited ids. An iteration pops an id; `left` bounds the iterations, and one for each edge and one
-- more are enough.
use whidby.Prelude.{
  ℕ, zero, suc, ◌+◌, ◌≡◌, refl, sym, ap, ◌∙◌, Bool, true, false, not, ◌&&◌, ◌||◌, Bool-cases, inl,
  inr, List, [], ◌∷◌, ◌++◌, map, Option, none, some, String, str_eq, eq_iff, arith, has, length,
  countb, All, Result, ok, raise, key_error, if◌then◌else◌,
}
use mathlib.Core.Option.{some-injective}
use whidby.Research.Graph.{EdgeType, derived_from, GraphNode, GraphEdge, Graph}
use whidby.Research.Closed.{Joins}
use whidby.Research.Listing.{get_node}
use whidby.Research.Queries.{get_node-has_node}

abbrev pub is_derived_from : EdgeType → Bool
is_derived_from t = elim t [ derived_from ↦ true | _ ↦ false ]

module _ {F : Type 0} where
  abbrev pub ids : List (GraphNode F) → List String
  ids vs = map (λ v. v.id) vs

  -- An edge that the lineage of `i` follows.
  abbrev pub derives : String → GraphEdge F → Bool
  derives i e = str_eq e.source_id i && is_derived_from e.edge_type

  -- The inner loop over the edges out of `current`: the targets join the result and the stack.
  unfoldable pub follow :
      List (GraphNode F)
      → String
      → List (GraphEdge F)
      → List (GraphNode F)
      → List String
      → Result (List (GraphNode F) × List String)
  unfolding get_node
  follow nodes current [] result stack = ok (result, stack)
  follow nodes current (e ∷ es) result stack = elim (derives current e) [
    | false ↦ follow nodes current es result stack
    | true ↦ elim (get_node e.target_id nodes) [
      | none ↦ raise key_error
      | some v ↦ follow nodes current es (result ++ v ∷ []) (e.target_id ∷ stack)
    ]
  ]

  -- `while stack`, with the top of the stack first; none when the iterations are used up.
  unfoldable pub trace :
      ℕ
      → Graph F
      → List String
      → List String
      → List (GraphNode F)
      → Option (Result (List (GraphNode F)))
  unfolding follow
  trace left g visited [] result = some (ok result)
  trace zero g visited (current ∷ stack) result = none
  trace (suc left) g visited (current ∷ stack) result = elim (has current visited) [
    | true ↦ trace left g visited stack result
    | false ↦ elim (follow g.nodes current g.edges result stack) [
      | raise e ↦ some (raise e)
      | ok t ↦ trace left g (current ∷ visited) t.1 t.0
    ]
  ]

  unfoldable pub lineage : String → Graph F → Option (Result (List (GraphNode F)))
  unfolding trace
  lineage i g = trace (suc (length g.edges)) g [] (i ∷ []) []

  pub get_node-id :
      (i : String) (vs : List (GraphNode F)) (v : GraphNode F) → get_node i vs ≡ some v → v.id ≡ i
  unfolding get_node
  get_node-id i [] v e = cc
  get_node-id i (w ∷ vs) v e = elim (Bool-cases (str_eq w.id i)) [
    | inl same ↦
        let q : some w ≡ some v = ap (λ b. if b then some w else get_node i vs) (sym same) ∙ e in
        sym (ap (λ n. n.id) (some-injective w v q)) ∙ (eq_iff w.id i).0 same
    | inr other ↦ get_node-id i vs v (ap (λ b. if b then some w else get_node i vs) (sym other) ∙ e)
  ]

  -- The targets of the edges that the lineage of `i` follows.
  abbrev pub targets : String → List (GraphEdge F) → List String
  targets i [] = []
  targets i (e ∷ es) = if derives i e then e.target_id ∷ targets i es else targets i es

  pub has-ids-append :
      (x : String) (vs ws : List (GraphNode F))
      → has x (ids (vs ++ ws)) ≡ (has x (ids vs) || has x (ids ws))
  has-ids-append x [] ws = refl
  has-ids-append x (v ∷ vs) ws = ground (arith, has-ids-append x vs ws)

  -- What the inner loop returns: the result and the stack with the targets, and as many more ids.
  abbrev pub Followed :
      String
      → List (GraphEdge F)
      → List (GraphNode F)
      → List String
      → List (GraphNode F) × List String
      → Type 0
  Followed current es result stack t =
      ((x : String) → has x (ids t.0) ≡ (has x (ids result) || has x (targets current es)))
      × ((x : String) → has x t.1 ≡ (has x stack || has x (targets current es)))
      × (length t.1 ≡ length stack + countb (derives current) es)

  pub follow-Followed :
      (nodes : List (GraphNode F)) (current : String) (es : List (GraphEdge F))
      (result : List (GraphNode F)) (stack : List String)
      → All (Joins nodes) es
      → (t : List (GraphNode F) × List String) × (follow nodes current es result stack ≡ ok t)
        × Followed current es result stack t
  unfolding follow
  follow-Followed nodes current [] result stack h =
      ((result, stack), refl, (λ x. ground arith, λ x. ground arith, omega arith))
  follow-Followed nodes current (e ∷ es) result stack ((s, t), h) =
      elim (Bool-cases (derives current e)) [
        | inr b ↦
            let (u, f, (p, q, l)) = follow-Followed nodes current es result stack h in
            (u, rw (b, follow) f, (λ x. rw b (p x), λ x. rw b (q x), rw b (omega (arith, l))))
        | inl b ↦
            let (v, found) = get_node-has_node e.target_id nodes t in
            let same = get_node-id e.target_id nodes v found in
            let (u, f, (p, q, l)) =
              follow-Followed nodes current es (result ++ v ∷ []) (e.target_id ∷ stack) h in
            (
              u,
              rw (b, follow, found) f,
              (
                λ x. rw b (ground (arith, p x, has-ids-append x result (v ∷ []), same)),
                λ x. rw b (ground (arith, q x)),
                rw b (omega (arith, l)),
              ),
            )
      ]

  -- The edges that are still to follow.
  abbrev pub remaining : List String → GraphEdge F → Bool
  remaining visited e = is_derived_from e.edge_type && not (has e.source_id visited)

  pub countb-remaining :
      (current : String) (visited : List String) (es : List (GraphEdge F))
      → has current visited ≡ false
      → countb (remaining (current ∷ visited)) es + countb (derives current) es
        ≡ countb (remaining visited) es
  countb-remaining current visited [] h = omega arith
  countb-remaining current visited (e ∷ es) h = ground (
    arith,
    countb-remaining current visited es h,
    eq_iff current e.source_id,
    eq_iff e.source_id current,
  )
