-- ===== src/Costs/Aggregates.antt =====
-- The groups of `cost_by_endpoint`: one for each endpoint, with the counts and the sum of its records.
use whidby.Prelude.{
  ◌+◌, ◌≡◌, refl, ap, ◌∙◌, Bool-cases, inl, inr, List, [], ◌∷◌, Option, none, some, String, str_eq,
  eq_iff, arith, length, filterb, countb, if◌then◌else◌,
}
use whidby.Num.Order.{Num, decimal}
use whidby.Costs.{
  CostRecord, CostTracker, Group, selected, new_group, counted, add_to, grouped, cost_by_endpoint,
  sum_costs,
}

module _ {F : Type 0} ⦃n : Num F⦄ where
  abbrev pub group_of : String → List (String × Group F) → Option (Group F)
  group_of e [] = none
  group_of e ((d, g) ∷ groups) = if str_eq d e then some g else group_of e groups

  -- The records of an endpoint, counted one after another into a group.
  abbrev pub fold_group : List (CostRecord F) → Option (Group F) → Option (Group F)
  fold_group [] o = o
  fold_group (r ∷ rs) o =
      fold_group rs (some (counted r (elim o [ none ↦ new_group | some g ↦ g ])))

  abbrev pub of_endpoint : String → List (CostRecord F) → List (CostRecord F)
  of_endpoint e rs = filterb (λ r. str_eq r.endpoint e) rs

  group_of-add_to :
      (e : String) (r : CostRecord F) (groups : List (String × Group F))
      → group_of e (add_to r groups) ≡ (
          if str_eq r.endpoint e
          then some (counted r (elim (group_of e groups) [ none ↦ new_group | some g ↦ g ]))
          else group_of e groups)
  unfolding add_to
  group_of-add_to e r [] = refl
  group_of-add_to e r ((d, g) ∷ groups) =
      ground
        (arith, eq_iff d r.endpoint, eq_iff r.endpoint e, eq_iff d e, group_of-add_to e r groups)

  group_of-grouped :
      (e : String) (rs : List (CostRecord F)) (groups : List (String × Group F))
      → group_of e (grouped rs groups) ≡ fold_group (of_endpoint e rs) (group_of e groups)
  unfolding grouped
  group_of-grouped e [] groups = refl
  group_of-grouped e (r ∷ rs) groups =
      let xs = of_endpoint e rs in
      let g = group_of e groups in
      let next = some (counted r (elim g [ none ↦ new_group | some h ↦ h ])) in
      group_of-grouped e rs (add_to r groups)
      ∙ (ap (fold_group xs) (group_of-add_to e r groups)
          ∙ elim (Bool-cases (str_eq r.endpoint e)) [ inl t ↦ rw t refl | inr t ↦ rw t refl ])

  -- The group of some records.
  abbrev pub summary : List (CostRecord F) → Group F
  summary rs = record {
    calls = length rs;
    cost = sum_costs (decimal 0) rs;
    cached = countb (λ r. r.cached) rs;
  }

  Group-ext : (a b : Group F) → a.calls ≡ b.calls → a.cost ≡ b.cost → a.cached ≡ b.cached → a ≡ b
  Group-ext a b p q r = λ i. record { calls = p i; cost = q i; cached = r i }

  fold_group-some :
      (rs : List (CostRecord F)) (g : Group F)
      → fold_group rs (some g)
        ≡ some (record {
          calls = g.calls + length rs;
          cost = sum_costs g.cost rs;
          cached = g.cached + countb (λ r. r.cached) rs;
        })
  unfolding sum_costs counted
  fold_group-some [] g = ap some (Group-ext _ _ (omega arith) refl (omega arith))
  fold_group-some (r ∷ rs) g =
      fold_group-some rs (counted r g) ∙ ap some (Group-ext _ _ (omega arith) refl (ground arith))

  folded :
      (rs : List (CostRecord F))
      → fold_group rs none ≡ (elim rs [ [] ↦ none | r ∷ rs' ↦ some (summary (r ∷ rs')) ])
  unfolding counted sum_costs
  folded [] = refl
  folded (r ∷ rs) =
      fold_group-some rs (counted r new_group)
      ∙ ap some (Group-ext _ _ (omega arith) refl (ground arith))

  -- The group of an endpoint has the number of its selected records, the sum of their costs in order
  -- and the number of cached ones; an endpoint with no selected record has no group.
  pub cost_by_endpoint-groups :
      (e : String) (context_id : Option String) (t : CostTracker F)
      → group_of e (cost_by_endpoint context_id t) ≡ (elim (of_endpoint e (selected context_id t)) [
        | [] ↦ none
        | r ∷ rs ↦ some (summary (r ∷ rs))
      ])
  unfolding cost_by_endpoint
  cost_by_endpoint-groups e context_id t =
      group_of-grouped e (selected context_id t) [] ∙ folded (of_endpoint e (selected context_id t))
