-- ===== src/Scoring/Opportunity.antt =====
-- The opportunity score as a function of the component scores: it is monotone, through the gates and
-- the floor, and components that are neither gated nor weighted do not count.
use whidby.Prelude.{
  Elem, map, sym, ◌∙◌, inl, inr, ◌≡◌, refl, ◌≢◌, Bool, true, false, List, [], ◌∷◌, Option, none,
  some, String, str_eq, eq_iff, arith, All, if◌then◌else◌, ap, subst,
}
use whidby.Num.Order.{
  Num, IsOrdered, decimal, lt_num, min_num, ◌≼◌, ◌⊕◌, ◌⊗◌, min_num-le_left, min_num_mono,
}
use whidby.Scoring.Config.{m7_ai_floor_component_threshold, m7_ai_floor_composite_cap}
use whidby.Scoring.Normalization.{clamp100}
use whidby.Scoring.Bounds.{clamp100_mono}
use whidby.Scoring.Composite.{
  Scores, base_gate_components, score_of, gate_values, score_or, weighted_sum, gated, ai_floored,
  compute_opportunity_score,
}
use whidby.Scoring.Gates.{ScoresLe, OptionLe, ListLe, min_of_mono}

-- The branches of the gates, over any values: tests that pass on the right pass on the left too.
module _ {F : Type 0} ⦃n : Num F⦄ where
  pick3_mono :
      (b c b' c' : Bool) (p q r p' q' r' : F)
      → (p ≼ p') × (p ≼ q') × (p ≼ r') × (q ≼ q') × (q ≼ r') × (r ≼ r')
      → (b' ≡ true → b ≡ true)
      → (c' ≡ true → c ≡ true)
      → (if b then p else if c then q else r) ≼ (if b' then p' else if c' then q' else r')
  pick3_mono b c b' c' p q r p' q' r' h i j = ground arith

  pick2_mono :
      (b b' : Bool) (p r p' r' : F)
      → (p ≼ p') × (p ≼ r') × (r ≼ r')
      → (b' ≡ true → b ≡ true)
      → (if b then p else r) ≼ (if b' then p' else r')
  pick2_mono b b' p r p' r' h i = ground arith

module _ {F : Type 0} ⦃n : Num F⦄ (laws : IsOrdered F) where
  open laws use {le_refl, le_trans, add_mono, mul_mono, decimal_mono}

  lt_num_anti : (x y c : F) → x ≼ y → lt_num y c ≡ true → lt_num x c ≡ true
  lt_num_anti x y c h e = ground (arith, le_trans c x y)

  gated_mono : (vs ws : List F) (x y : F) → ListLe vs ws → x ≼ y → gated vs x ≼ gated ws y
  unfolding gated
  gated_mono [] [] x y l h = h
  gated_mono [] (w ∷ ws) x y l h = absurd l
  gated_mono (v ∷ vs) [] x y l h = absurd l
  gated_mono (v ∷ vs) (w ∷ ws) x y (p, l) h =
      let low = min_of_mono laws vs ws v w p l in
      pick3_mono {F = F} _ _ _ _ _ _ _ _ _ _
        (
          min_num_mono laws _ _ _ _ h (le_refl _),
          min_num_mono laws _ _ _ _ h (decimal_mono 200_000 400_000 (omega arith)),
          le_trans _ _ _ (min_num-le_left laws x _) h,
          min_num_mono laws _ _ _ _ h (le_refl _),
          le_trans _ _ _ (min_num-le_left laws x _) h,
          h,
        )
        (lt_num_anti _ _ _ low) (lt_num_anti _ _ _ low)

  pick_option :
      (b : Bool) (v w : F) (a c : Option F)
      → v ≼ w
      → OptionLe a c
      → OptionLe (if b then some v else a) (if b then some w else c)
  pick_option true v w a c h l = h
  pick_option false v w a c h l = l

  default_mono :
      (d : F) (a b : Option F)
      → OptionLe a b
      → (elim a as (λ _. F) [ none ↦ d | some v ↦ v ])
        ≼ (elim b as (λ _. F) [ none ↦ d | some v ↦ v ])
  default_mono d none none h = le_refl d
  default_mono d none (some w) h = absurd h
  default_mono d (some v) none h = absurd h
  default_mono d (some v) (some w) h = h

  cons_mono :
      (a b : Option F) (xs ys : List F)
      → OptionLe a b
      → ListLe xs ys
      → ListLe
          (elim a as (λ _. List F) [ none ↦ xs | some v ↦ v ∷ xs ])
          (elim b as (λ _. List F) [ none ↦ ys | some v ↦ v ∷ ys ])
  cons_mono none none xs ys h l = l
  cons_mono none (some w) xs ys h l = absurd h
  cons_mono (some v) none xs ys h l = absurd h
  cons_mono (some v) (some w) xs ys h l = (h, l)

  score_of_mono :
      (name : String) (s t : Scores F) → ScoresLe s t → OptionLe (score_of name s) (score_of name t)
  unfolding score_of
  score_of_mono name [] [] h = tt
  score_of_mono name [] (e ∷ t) h = absurd h
  score_of_mono name (e ∷ s) [] h = absurd h
  score_of_mono name ((k, v) ∷ s) ((j, w) ∷ t) (p, q, h) =
      subst
        (λ i.
          OptionLe (if str_eq k name then some v else score_of name s)
            (if str_eq i name then some w else score_of name t))
        p
        (pick_option (str_eq k name) v w (score_of name s) (score_of name t) q
          (score_of_mono name s t h))

  score_or_mono :
      (d : F) (name : String) (s t : Scores F)
      → ScoresLe s t
      → score_or d name s ≼ score_or d name t
  unfolding score_or
  score_or_mono d name s t h =
      default_mono d (score_of name s) (score_of name t) (score_of_mono name s t h)

  gate_values_mono :
      (ks : List String) (s t : Scores F)
      → ScoresLe s t
      → ListLe (gate_values ks s) (gate_values ks t)
  unfolding gate_values
  gate_values_mono [] s t h = tt
  gate_values_mono (k ∷ ks) s t h =
      cons_mono (score_of k s) (score_of k t) _ _ (score_of_mono k s t h)
        (gate_values_mono ks s t h)

  weighted_sum_mono :
      (weights : List (String × F)) (s t : Scores F) (a b : F)
      → ScoresLe s t
      → All (λ e. decimal 0 ≼ e.1) weights
      → a ≼ b
      → weighted_sum a s weights ≼ weighted_sum b t weights
  unfolding weighted_sum
  weighted_sum_mono [] s t a b h nonneg le = le
  weighted_sum_mono ((name, w) ∷ ws) s t a b h (pos, nonneg) le =
      weighted_sum_mono ws s t _ _ h nonneg
        (add_mono _ _ _ _ le (mul_mono _ _ _ (score_or_mono (decimal 0) name s t h) pos))

  ai_floored_mono :
      (s t : Scores F) (x y : F) → ScoresLe s t → x ≼ y → ai_floored s x ≼ ai_floored t y
  unfolding ai_floored
  ai_floored_mono s t x y l h =
      pick2_mono {F = F} _ _ _ _ _ _
        (min_num_mono laws _ _ _ _ h (le_refl _), le_trans _ _ _ (min_num-le_left laws x _) h, h)
        (lt_num_anti _ _ _ (score_or_mono _ "ai_resilience" s t l))

  -- Raising any component scores, under weights that are not negative, never lowers the opportunity
  -- score: neither a gate nor the floor turns the order round.
  pub opportunity_mono :
      (s t : Scores F) (weights : List (String × F))
      → ScoresLe s t
      → All (λ e. decimal 0 ≼ e.1) weights
      → compute_opportunity_score s weights ≼ compute_opportunity_score t weights
  unfolding compute_opportunity_score
  opportunity_mono s t weights h nonneg = clamp100_mono laws _ _ (
      ai_floored_mono s t _ _ h (
        gated_mono _ _ _ _ (gate_values_mono base_gate_components s t h)
          (weighted_sum_mono weights s t _ _ h nonneg (le_refl _))))

module _ {F : Type 0} ⦃n : Num F⦄ where
  score_of_skip :
      (k name : String) (v : F) (s : Scores F)
      → name ≢ k
      → score_of name ((k, v) ∷ s) ≡ score_of name s
  unfolding score_of
  score_of_skip k name v s h = ground (arith, eq_iff k name)

  score_or_skip :
      (d : F) (k name : String) (v : F) (s : Scores F)
      → name ≢ k
      → score_or d name ((k, v) ∷ s) ≡ score_or d name s
  unfolding score_or
  score_or_skip d k name v s h =
      ap (λ o. elim o as (λ _. F) [ none ↦ d | some x ↦ x ]) (score_of_skip k name v s h)

  ai_floored_skip :
      (k : String) (v : F) (s : Scores F) (raw : F)
      → "ai_resilience" ≢ k
      → ai_floored ((k, v) ∷ s) raw ≡ ai_floored s raw
  unfolding ai_floored
  ai_floored_skip k v s raw h =
      ap
        (λ x.
          if lt_num x m7_ai_floor_component_threshold
          then min_num raw m7_ai_floor_composite_cap
          else raw)
        (score_or_skip (decimal 1_000_000) k "ai_resilience" v s h)

  weighted_sum_skip :
      (weights : List (String × F)) (k : String) (v acc : F) (s : Scores F)
      → ¬ Elem k (map (λ e. e.0) weights)
      → weighted_sum acc ((k, v) ∷ s) weights ≡ weighted_sum acc s weights
  unfolding weighted_sum score_or
  weighted_sum_skip [] k v acc s h = refl
  weighted_sum_skip ((name, w) ∷ ws) k v acc s h =
      weighted_sum_skip ws k v _ s (λ m. h (inr m))
      ∙ ap (λ x. weighted_sum (acc ⊕ x ⊗ w) s ws)
          (score_or_skip (decimal 0) k name v s (λ p. h (inl (sym p))))

  gate_values_skip :
      (ks : List String) (k : String) (v : F) (s : Scores F)
      → ¬ Elem k ks
      → gate_values ks ((k, v) ∷ s) ≡ gate_values ks s
  unfolding gate_values
  gate_values_skip [] k v s h = refl
  gate_values_skip (j ∷ ks) k v s h = λ i.
      elim (score_of_skip k j v s (λ p. h (inl (sym p))) i) as (λ _. List F) [
        | none ↦ gate_values_skip ks k v s (λ m. h (inr m)) i
        | some x ↦ x ∷ gate_values_skip ks k v s (λ m. h (inr m)) i
      ]

  -- A component that is no base component and has no weight leaves the opportunity score alone,
  -- gates and floor included.
  pub opportunity_skip :
      (k : String) (v : F) (s : Scores F) (weights : List (String × F))
      → ¬ Elem k base_gate_components
      → ¬ Elem k (map (λ e. e.0) weights)
      → compute_opportunity_score ((k, v) ∷ s) weights ≡ compute_opportunity_score s weights
  unfolding compute_opportunity_score
  opportunity_skip k v s weights h i = ap clamp100 (
      ai_floored_skip k v s _ (λ p. h (inr (inr (inr (inr (inl (sym p))))))) ∙ λ j. ai_floored s (
        gated (gate_values_skip base_gate_components k v s h j)
          (weighted_sum_skip weights k v (decimal 0) s i j)))
