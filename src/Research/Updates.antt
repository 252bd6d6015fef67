-- ===== src/Research/Updates.antt =====
-- src/research_agent/memory/graph_store.py: what an update changes, and what the summary counts.
use whidby.Prelude.{
  ℕ, ◌+◌, ◌≡◌, refl, ap, ◌∙◌, Bool, true, false, List, [], ◌∷◌, Option, none, some, String, str_eq,
  eq_iff, arith, countb, assign, lookup, lookup-assign, if◌then◌else◌,
}
use whidby.Research.Graph.{NodeType, NodeStatus, GraphNode, Graph}
use whidby.Research.Closed.{IsClosed}
use whidby.Research.Listing.{
  node_type_value, NodeUpdate, count_at, get_node, or_zero, count_types, export_summary,
  node_type_update, title_update, description_update, status_update, confidence_update,
  provenance_update,
}

abbrev pub or_old {ℓ} : {A : Type ℓ} → A → Option A → A
or_old old none = old
or_old old (some x) = x

count_at-assign :
    (x key : String) (k : ℕ) (counts : List (String × ℕ))
    → count_at x (assign key k counts) ≡ (if str_eq key x then k else count_at x counts)
count_at-assign x key k counts = ap or_zero (lookup-assign x key k counts) ∙ chosen (str_eq key x)
  where
    chosen :
        (b : Bool)
        → or_zero (if b then some k else lookup x counts) ≡ (if b then k else count_at x counts)
    chosen true = refl
    chosen false = refl

-- The count under a key after one more is counted.
count_at-increment :
    (x key : String) (counts : List (String × ℕ))
    → count_at x (assign key (count_at key counts + 1) counts)
      ≡ count_at x counts + (if str_eq key x then 1 else 0)
count_at-increment x key counts =
    count_at-assign x key (count_at key counts + 1) counts ∙ one (str_eq key x) refl
  where
    one :
        (b : Bool)
        → str_eq key x ≡ b
        → (if b then count_at key counts + 1 else count_at x counts)
          ≡ count_at x counts + (if b then 1 else 0)
    one true e = ap (λ k. count_at k counts + 1) ((eq_iff key x).0 e)
    one false e = omega arith

module _ {F : Type 0} where
  -- The value a field gets from one update, if it is an update of that field.
  abbrev pub new_node_type : NodeUpdate F → Option NodeType
  new_node_type (node_type_update t) = some t
  new_node_type _ = none

  abbrev pub new_title : NodeUpdate F → Option String
  new_title (title_update t) = some t
  new_title _ = none

  abbrev pub new_description : NodeUpdate F → Option String
  new_description (description_update t) = some t
  new_description _ = none

  abbrev pub new_status : NodeUpdate F → Option NodeStatus
  new_status (status_update s) = some s
  new_status _ = none

  abbrev pub new_confidence : NodeUpdate F → Option F
  new_confidence (confidence_update x) = some x
  new_confidence _ = none

  abbrev pub new_provenance : NodeUpdate F → Option (Option String)
  new_provenance (provenance_update p) = some p
  new_provenance _ = none

  -- The last update of a field, or else its old value.
  abbrev pub latest : {A : Type 0} → (NodeUpdate F → Option A) → A → List (NodeUpdate F) → A
  latest new old [] = old
  latest new old (u ∷ us) = latest new (or_old old (new u)) us

  -- Each field of `w` is the last update of that field, or else the field of `v`.
  abbrev pub Updated : GraphNode F → List (NodeUpdate F) → GraphNode F → Type 0
  Updated v us w =
      (w.node_type ≡ latest new_node_type v.node_type us)
      × (w.title ≡ latest new_title v.title us)
      × (w.description ≡ latest new_description v.description us)
      × (w.status ≡ latest new_status v.status us)
      × (w.confidence ≡ latest new_confidence v.confidence us)
      × (w.provenance_artifact ≡ latest new_provenance v.provenance_artifact us)

  -- What updates of the node with id `i` leave; `v` is the node before and `w` the node after them.
  abbrev pub Local :
      String → List (NodeUpdate F) → Graph F → Graph F × Option (GraphNode F) → Type 0
  Local i updates g r =
      (v : GraphNode F) × (get_node i g.nodes ≡ some v)
      × (w : GraphNode F) × (r.1 ≡ some w)
      × Updated v updates w
      × (w.id ≡ i)
      × ((j : String) → get_node j r.0.nodes ≡ (if str_eq i j then some w else get_node j g.nodes))
      × IsClosed r.0

  count_at-count_types :
      (x : String) (vs : List (GraphNode F)) (counts : List (String × ℕ))
      → count_at x (count_types vs counts)
        ≡ count_at x counts + countb (λ v. str_eq (node_type_value v.node_type) x) vs
  unfolding count_types
  count_at-count_types x [] counts = omega arith
  count_at-count_types x (v ∷ vs) counts =
      let key = node_type_value v.node_type in
      let now = assign key (count_at key counts + 1) counts in
      omega (arith, count_at-count_types x vs now, count_at-increment x key counts)

  -- The summary counts, under the value of every node type, the nodes of that type.
  pub export_summary-counts :
      (x : String) (g : Graph F)
      → count_at x (export_summary g).node_type_counts
        ≡ countb (λ v. str_eq (node_type_value v.node_type) x) g.nodes
  unfolding export_summary
  export_summary-counts x g = omega (arith, count_at-count_types x g.nodes [])
