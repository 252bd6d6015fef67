-- ===== src/Scoring/Composite.antt =====
-- src/scoring/composite_score.py: the weighted sum of the component scores, the gates on the weakest
-- base component and the floor on AI resilience. A dict of scores or weights is an association list.
use whidby.Prelude.{List, [], ◌∷◌, Option, none, some, String, str_eq, if◌then◌else◌}
use whidby.Num.Order.{Num, decimal, lt_num, min_num, ◌⊕◌, ◌⊗◌}
use whidby.Scoring.Config.{
  m7_threshold_gate_hard_cap, m7_threshold_gate_soft_cap, m7_threshold_gate_hard_min_component,
  m7_threshold_gate_soft_min_component, m7_ai_floor_component_threshold, m7_ai_floor_composite_cap,
}
use whidby.Scoring.Normalization.{clamp100}

abbrev pub Scores : Type 0 → Type 0
Scores F = List (String × F)

-- `_BASE_GATE_COMPONENTS`
abbrev pub base_gate_components : List String
base_gate_components =
    "demand" ∷ "organic_competition" ∷ "local_competition" ∷ "monetization" ∷ "ai_resilience" ∷ []

module _ {F : Type 0} where
  -- `component_scores.get(name)`
  unfoldable pub score_of : String → Scores F → Option F
  score_of name [] = none
  score_of name ((k, v) ∷ scores) = if str_eq k name then some v else score_of name scores

  -- `[component_scores[k] for k in names if k in component_scores]`
  unfoldable pub gate_values : List String → Scores F → List F
  unfolding score_of
  gate_values [] scores = []
  gate_values (k ∷ ks) scores = elim (score_of k scores) [
    | none ↦ gate_values ks scores
    | some v ↦ v ∷ gate_values ks scores
  ]

module _ {F : Type 0} ⦃n : Num F⦄ where
  -- `component_scores.get(name, default)`
  unfoldable pub score_or : F → String → Scores F → F
  unfolding score_of
  score_or d name scores = elim (score_of name scores) [ none ↦ d | some v ↦ v ]

  -- `sum(component_scores.get(name, 0.0) * weight …)`, from `acc`: the sum of Python 3.11, which adds
  -- one by one. From Python 3.12 on, sums of floats carry a compensation, which is left out.
  unfoldable pub weighted_sum : F → Scores F → List (String × F) → F
  unfolding score_or
  weighted_sum acc scores [] = acc
  weighted_sum acc scores ((name, weight) ∷ weights) =
      weighted_sum (acc ⊕ score_or (decimal 0) name scores ⊗ weight) scores weights

  -- `min(x, *xs)`
  unfoldable pub min_of : F → List F → F
  min_of x [] = x
  min_of x (y ∷ ys) = min_of (min_num x y) ys

  unfoldable pub gated : List F → F → F
  unfolding min_of
  gated [] raw = raw
  gated (x ∷ xs) raw =
      let min_component = min_of x xs in
      if lt_num min_component m7_threshold_gate_hard_min_component
      then min_num raw m7_threshold_gate_hard_cap
      else if lt_num min_component m7_threshold_gate_soft_min_component
      then min_num raw m7_threshold_gate_soft_cap
      else raw

  unfoldable pub ai_floored : Scores F → F → F
  unfolding score_or
  ai_floored scores raw =
      if lt_num (score_or (decimal 1_000_000) "ai_resilience" scores)
        m7_ai_floor_component_threshold
      then min_num raw m7_ai_floor_composite_cap
      else raw

  unfoldable pub compute_opportunity_score : Scores F → List (String × F) → F
  unfolding weighted_sum gate_values gated ai_floored
  compute_opportunity_score scores weights =
      let raw = weighted_sum (decimal 0) scores weights in
      clamp100 (ai_floored scores (gated (gate_values base_gate_components scores) raw))
