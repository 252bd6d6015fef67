-- ===== src/Research/Ancestors.antt =====
-- src/research_agent/memory/graph_store.py: the lineage of a node against the relation of ancestors.
use whidby.Prelude.{
  ℕ, zero, suc, ◌+◌, ◌≤◌, ◌≡◌, refl, sym, subst, ◌∙◌, ◌⊎◌, Bool, true, false, ◌||◌, Bool-cases, inl,
  inr, List, [], ◌∷◌, some, String, str_eq, eq_iff, arith, has, length, countb, ok,
}
use whidby.Research.Graph.{GraphNode, GraphEdge, Graph}
use whidby.Research.Closed.{IsClosed}
use whidby.Research.Lineage.{
  ids, trace, lineage, targets, Followed, follow-Followed, remaining, countb-remaining,
}

-- Two facts on a Boolean sum, for membership in a list that grew.
either : (a b : Bool) → (a || b) ≡ true → (a ≡ true) ⊎ (b ≡ true)
either true b h = inl refl
either false b h = inr h

module _ {F : Type 0} (g : Graph F) where
  -- The graph has a derived_from edge from the first id to the second.
  abbrev pub Derives : String → String → Type 0
  Derives a b = has b (targets a g.edges) ≡ true

  -- The second id is reached from the first along one or more derived_from edges.
  pub data Ancestor (i : String) : String → Type 0 where
    parent : {a : String} → Derives i a → Ancestor i a
    further : {a b : String} → Ancestor i a → Derives a b → Ancestor i b

  abbrev Reached : String → String → Type 0
  Reached i x = (i ≡ x) ⊎ Ancestor i x

  Reached-Derives : (i a b : String) → Reached i a → Derives a b → Ancestor i b
  Reached-Derives i a b (inl e) d = parent (subst (λ c. Derives c b) (sym e) d)
  Reached-Derives i a b (inr r) d = further r d

  -- What the search has found is reached.
  record IsSound (i : String) (stack : List String) (result : List (GraphNode F)) : Type 0 where
    stacked : (x : String) → has x stack ≡ true → Reached i x
    found : (x : String) → has x (ids result) ≡ true → Ancestor i x

  -- What a visited id derives from is found, and is visited or waits on the stack.
  record IsComplete (i : String) (visited stack : List String) (result : List (GraphNode F))
      : Type 0 where
    start : (has i visited || has i stack) ≡ true
    derived :
        (a b : String)
        → has a visited ≡ true
        → Derives a b
        → (has b (ids result) ≡ true) × ((has b visited || has b stack) ≡ true)

  visit-IsSound :
      (i current : String) (stack : List String) (result : List (GraphNode F))
      (t : List (GraphNode F) × List String)
      → Followed current g.edges result stack t
      → IsSound i (current ∷ stack) result
      → IsSound i t.1 t.0
  visit-IsSound i current stack result t (p, q, l) s =
      let here : Reached i current = s.stacked current (ground (arith, eq_iff current current)) in
      record {
        stacked = λ x h.
            elim (either (has x stack) (has x (targets current g.edges)) (sym (q x) ∙ h)) [
              | inl old ↦ s.stacked x (ground (arith, old))
              | inr new ↦ inr (Reached-Derives i current x here new)
            ];
        found = λ x h.
            elim (either (has x (ids result)) (has x (targets current g.edges)) (sym (p x) ∙ h)) [
              | inl old ↦ s.found x old
              | inr new ↦ Reached-Derives i current x here new
            ];
      }

  visit-IsComplete :
      (i current : String) (visited stack : List String) (result : List (GraphNode F))
      (t : List (GraphNode F) × List String)
      → Followed current g.edges result stack t
      → IsComplete i visited (current ∷ stack) result
      → IsComplete i (current ∷ visited) t.1 t.0
  visit-IsComplete i current visited stack result t (p, q, l) c = record {
    start = ground (arith, c.start, q i);
    derived = λ a b h d. elim (either (str_eq current a) (has a visited) h) [
      | inl same ↦
          let d' = subst (λ x. Derives x b) (sym ((eq_iff current a).0 same)) d in
          (ground (arith, p b, d'), ground (arith, q b, d'))
      | inr old ↦
          let (f, w) = c.derived a b old d in (ground (arith, p b, f), ground (arith, q b, w))
    ];
  }

  skip-IsComplete :
      (i current : String) (visited stack : List String) (result : List (GraphNode F))
      → has current visited ≡ true
      → IsComplete i visited (current ∷ stack) result
      → IsComplete i visited stack result
  skip-IsComplete i current visited stack result seen c = record {
    start = waits i c.start;
    derived = λ a b h d. let (f, w) = c.derived a b h d in (f, waits b w);
  }
    where
      waits :
          (x : String)
          → (has x visited || has x (current ∷ stack)) ≡ true
          → (has x visited || has x stack) ≡ true
      waits x h = elim (Bool-cases (str_eq current x)) [
        | inl same ↦
            let e = subst (λ y. has y visited ≡ true) ((eq_iff current x).0 same) seen in
            ground (arith, e)
        | inr other ↦ ground (arith, h, other)
      ]

  -- The search returns, and then what it found is all that is reached.
  abbrev Traced : String → ℕ → List String → List String → List (GraphNode F) → Type 0
  Traced i left visited stack result =
      (r : List (GraphNode F)) × (trace left g visited stack result ≡ some (ok r))
      × ((x : String)
          → (has x (ids r) ≡ true → Ancestor i x) × (Ancestor i x → has x (ids r) ≡ true))

  closed-Ancestor :
      (i : String) (visited : List String) (result : List (GraphNode F))
      → IsComplete i visited [] result
      → (x : String) → Ancestor i x
      → (has x (ids result) ≡ true) × (has x visited ≡ true)
  closed-Ancestor i visited result c x (parent d) =
      let (f, w) = c.derived i x (ground (arith, c.start)) d in (f, ground (arith, w))
  closed-Ancestor i visited result c x (further {a} r d) =
      let (e, v) = closed-Ancestor i visited result c a r in
      let (f, w) = c.derived a x v d in (f, ground (arith, w))

  trace-Traced :
      IsClosed g
      → (i : String) (left : ℕ) (visited stack : List String) (result : List (GraphNode F))
      → length stack + countb (remaining visited) g.edges ≤ left
      → IsSound i stack result
      → IsComplete i visited stack result
      → Traced i left visited stack result
  unfolding trace
  trace-Traced h i left visited [] result l s c =
      (result, refl, λ x. (s.found x, λ r. (closed-Ancestor i visited result c x r).0))
  trace-Traced h i zero visited (current ∷ stack) result l s c = absurd (omega (arith, l))
  trace-Traced h i (suc left) visited (current ∷ stack) result l s c =
      elim (Bool-cases (has current visited)) [
        | inl seen ↦
            let (r, e, a) =
              trace-Traced h i left visited stack result (omega (arith, l))
                (record { stacked = λ x k. s.stacked x (ground (arith, k)); found = s.found })
                (skip-IsComplete i current visited stack result seen c) in
            (r, rw (seen, trace) e, a)
        | inr fresh ↦
            let (t, f, w) = follow-Followed g.nodes current g.edges result stack h in
            let (p, q, n) = w in
            let k = countb-remaining current visited g.edges fresh in
            let (r, e, a) =
              trace-Traced h i left (current ∷ visited) t.1 t.0 (omega (arith, l, n, k))
                (visit-IsSound i current stack result t w s)
                (visit-IsComplete i current visited stack result t w c) in
            (r, rw (fresh, trace, f) e, a)
      ]

  countb-length : (p : GraphEdge F → Bool) (es : List (GraphEdge F)) → countb p es ≤ length es
  countb-length p [] = omega arith
  countb-length p (e ∷ es) = ground (arith, countb-length p es)

  -- In a graph whose edges join its nodes, the search for the lineage of an id ends within the
  -- iterations given and returns nodes whose ids are exactly the ids that are reached from it along
  -- one or more derived_from edges.
  pub lineage-Ancestor :
      (i : String)
      → IsClosed g
      → (r : List (GraphNode F)) × (lineage i g ≡ some (ok r))
        × ((x : String)
            → (has x (ids r) ≡ true → Ancestor i x) × (Ancestor i x → has x (ids r) ≡ true))
  unfolding lineage
  lineage-Ancestor i h =
      trace-Traced h i (suc (length g.edges)) [] (i ∷ []) []
        (omega (arith, countb-length (remaining []) g.edges))
        (record { stacked = λ x k. inl ((eq_iff i x).0 (ground (arith, k))); found = λ x k. cc })
        (record { start = ground (arith, eq_iff i i); derived = λ a b k d. cc })
