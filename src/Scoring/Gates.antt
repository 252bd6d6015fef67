-- ===== src/Scoring/Gates.antt =====
-- The gates of the opportunity score, and the score as a function of its components.
use whidby.Prelude.{
  Elem, ℕ, ◌≡◌, refl, Bool, true, false, Option-cases, subst, inl, inr, List, [], ◌∷◌, Option, none,
  some, String, arith, if◌then◌else◌,
}
use whidby.Num.Order.{
  Num, IsOrdered, decimal, min_num, ◌≼◌, ◌≺◌, min_num-le_left, min_num-le_right, min_num_mono,
  max_num-le, lt_of_le_of_lt,
}
use whidby.Scoring.Normalization.{clamp100, clamp}
use whidby.Scoring.Config.{
  m7_threshold_gate_hard_cap, m7_threshold_gate_soft_cap, m7_threshold_gate_hard_min_component,
  m7_threshold_gate_soft_min_component, m7_ai_floor_component_threshold, m7_ai_floor_composite_cap,
}
use whidby.Scoring.Bounds.{InRange, clamp100-InRange}
use whidby.Scoring.Composite.{
  Scores, base_gate_components, score_of, gate_values, score_or, weighted_sum, min_of, gated,
  ai_floored, compute_opportunity_score,
}

module _ {F : Type 0} ⦃n : Num F⦄ where
  -- The same components, each with a score at least as high.
  abbrev pub ScoresLe : Scores F → Scores F → Type 0
  ScoresLe [] [] = Unit
  ScoresLe ((k, v) ∷ s) ((j, w) ∷ t) = (k ≡ j) × (v ≼ w) × ScoresLe s t
  ScoresLe _ _ = ⊥

  abbrev pub OptionLe : Option F → Option F → Type 0
  OptionLe none none = Unit
  OptionLe (some v) (some w) = v ≼ w
  OptionLe _ _ = ⊥

  abbrev pub ListLe : List F → List F → Type 0
  ListLe [] [] = Unit
  ListLe (x ∷ xs) (y ∷ ys) = (x ≼ y) × ListLe xs ys
  ListLe _ _ = ⊥

module _ {F : Type 0} ⦃n : Num F⦄ (laws : IsOrdered F) where
  open laws use {le_refl, le_trans, decimal_mono}

  either_le : (b : Bool) (x y z : F) → x ≼ z → y ≼ z → (if b then x else y) ≼ z
  either_le true x y z h k = h
  either_le false x y z h k = k

  -- A cap on the value under the final clamp is a cap on the score.
  clamp100-le : (x : F) (cap : ℕ) → x ≼ decimal cap → clamp100 x ≼ decimal cap
  unfolding clamp100 clamp
  clamp100-le x cap h =
      max_num-le laws _ _ _ (decimal_mono 0 cap (omega arith))
        (le_trans _ _ _ (min_num-le_right laws _ x) h)

  min_of-le_head : (x : F) (xs : List F) → min_of x xs ≼ x
  unfolding min_of
  min_of-le_head x [] = le_refl x
  min_of-le_head x (y ∷ ys) =
      le_trans _ _ _ (min_of-le_head (min_num x y) ys) (min_num-le_left laws x y)

  pub min_of_mono : (xs ys : List F) (x y : F) → x ≼ y → ListLe xs ys → min_of x xs ≼ min_of y ys
  unfolding min_of
  min_of_mono [] [] x y h l = h
  min_of_mono [] (w ∷ ys) x y h l = absurd l
  min_of_mono (v ∷ xs) [] x y h l = absurd l
  min_of_mono (v ∷ xs) (w ∷ ys) x y h l =
      min_of_mono xs ys (min_num x v) (min_num y w) (min_num_mono laws _ _ _ _ h l.0) l.1

  min_of-le : (xs : List F) (x v : F) → Elem v (x ∷ xs) → min_of x xs ≼ v
  unfolding min_of
  min_of-le [] x v (inl e) = rw e (le_refl x)
  min_of-le [] x v (inr m) = absurd m
  min_of-le (y ∷ ys) x v (inl e) =
      rw e (le_trans _ _ _ (min_of-le_head (min_num x y) ys) (min_num-le_left laws x y))
  min_of-le (y ∷ ys) x v (inr (inl e)) =
      rw e (le_trans _ _ _ (min_of-le_head (min_num x y) ys) (min_num-le_right laws x y))
  min_of-le (y ∷ ys) x v (inr (inr m)) = min_of-le ys (min_num x y) v (inr m)

  -- The gate values are the scores of the gate components that are present.
  gate_values-Elem :
      (name : String) (ks : List String) (scores : Scores F) (v : F)
      → Elem name ks
      → score_of name scores ≡ some v
      → Elem v (gate_values ks scores)
  unfolding gate_values
  gate_values-Elem name [] scores v m e = absurd m
  gate_values-Elem name (k ∷ ks) scores v (inl p) e =
      let e' = subst (λ x. score_of x scores ≡ some v) p e in rw (e', gate_values) (inl refl)
  gate_values-Elem name (k ∷ ks) scores v (inr m) e = elim (Option-cases (score_of k scores)) [
    | inl absent ↦ rw (absent, gate_values) (gate_values-Elem name ks scores v m e)
    | inr (w, present) ↦ rw (present, gate_values) (inr (gate_values-Elem name ks scores v m e))
  ]

  gated-le_hard :
      (vs : List F) (raw v : F)
      → Elem v vs
      → v ≺ m7_threshold_gate_hard_min_component
      → gated vs raw ≼ m7_threshold_gate_hard_cap
  unfolding gated
  gated-le_hard [] raw v m h = absurd m
  gated-le_hard (x ∷ xs) raw v m h =
      let low : min_of x xs ≺ decimal 50_000 = lt_of_le_of_lt laws _ v _ (min_of-le xs x v m) h in
      rw low (min_num-le_right laws raw _)

  gated-le_soft :
      (vs : List F) (raw v : F)
      → Elem v vs
      → v ≺ m7_threshold_gate_soft_min_component
      → gated vs raw ≼ m7_threshold_gate_soft_cap
  unfolding gated
  gated-le_soft [] raw v m h = absurd m
  gated-le_soft (x ∷ xs) raw v m h =
      let low : min_of x xs ≺ decimal 150_000 = lt_of_le_of_lt laws _ v _ (min_of-le xs x v m) h in
      rw low (
        either_le _ _ _ _
          (le_trans _ _ _ (min_num-le_right laws raw _)
            (decimal_mono 200_000 400_000 (omega arith)))
          (min_num-le_right laws raw _))

  ai_floored-le_left : (scores : Scores F) (raw : F) → ai_floored scores raw ≼ raw
  unfolding ai_floored
  ai_floored-le_left scores raw = either_le _ _ _ _ (min_num-le_left laws raw _) (le_refl raw)

  ai_floored-le_cap :
      (scores : Scores F) (raw v : F)
      → score_of "ai_resilience" scores ≡ some v
      → v ≺ m7_ai_floor_component_threshold
      → ai_floored scores raw ≼ m7_ai_floor_composite_cap
  unfolding ai_floored score_or
  ai_floored-le_cap scores raw v e h =
      rw (e, ai_floored, score_or) (rw h (min_num-le_right laws raw _))

  -- Whatever the weights: a base component below 5 caps the opportunity score at 20, one below 15
  -- caps it at 40, and an AI resilience below 20 caps it at 50.
  pub opportunity-caps :
      (scores : Scores F) (weights : List (String × F)) (name : String) (v : F)
      → Elem name base_gate_components
      → score_of name scores ≡ some v
      → (v ≺ m7_threshold_gate_hard_min_component
          → compute_opportunity_score scores weights ≼ m7_threshold_gate_hard_cap)
        × (v ≺ m7_threshold_gate_soft_min_component
            → compute_opportunity_score scores weights ≼ m7_threshold_gate_soft_cap)
        × (name ≡ "ai_resilience"
            → v ≺ m7_ai_floor_component_threshold
            → compute_opportunity_score scores weights ≼ m7_ai_floor_composite_cap)
  unfolding compute_opportunity_score
  opportunity-caps scores weights name v m e = (
    λ low. clamp100-le _ 200_000 (
        le_trans _ _ _ (ai_floored-le_left scores _)
          (gated-le_hard _ raw v (gate_values-Elem name base_gate_components scores v m e) low)),
    λ low. clamp100-le _ 400_000 (
        le_trans _ _ _ (ai_floored-le_left scores _)
          (gated-le_soft _ raw v (gate_values-Elem name base_gate_components scores v m e) low)),
    λ p low.
        clamp100-le _ 500_000
          (ai_floored-le_cap scores _ v (subst (λ k. score_of k scores ≡ some v) p e) low),
  )
    where
      raw : F
      raw = weighted_sum (decimal 0) scores weights

  pub opportunity-InRange :
      (scores : Scores F) (weights : List (String × F))
      → InRange (compute_opportunity_score scores weights)
  unfolding compute_opportunity_score
  opportunity-InRange scores weights = clamp100-InRange laws _
