-- ===== src/Scoring/Bounds.antt =====
-- The helpers of normalization.py stay in their range, and so does every component score.
use whidby.Prelude.{
  ℕ, ◌≤◌, ◌*◌, ◌≡◌, Bool-cases, inl, inr, List, [], ◌∷◌, arith, ok, after-all, ok-injective, subst,
  ◌<◌,
}
use whidby.Num.Order.{
  Num, IsOrdered, decimal, of_int, le_num, ◌≼◌, ◌⊗◌, ◌⊘◌, le-max_num_left, max_num-le,
  min_num-le_left, max_num_mono, min_num_mono, decimal_pos,
}
use whidby.Signals.{Signals, bool_get}
use whidby.Scoring.Normalization.{
  clamp, clamp100, scale, inverse_scale, sorted, rank_in, percentile_rank,
}
use whidby.Scoring.Competition.{
  compute_demand_score, demand_formula, demand_inputs, local_formula, local_inputs,
  compute_organic_competition_score, compute_local_competition_score,
}
use whidby.Scoring.Market.{
  compute_monetization_score, monetization_formula, monetization_inputs, resilience_formula,
  resilience_inputs, gbp_formula, gbp_inputs, compute_ai_resilience_score, compute_gbp_score,
}

module _ {F : Type 0} ⦃n : Num F⦄ where
  -- A score between 0 and 100.
  abbrev pub InRange : F → Type 0
  InRange x = (decimal 0 ≼ x) × (x ≼ decimal 1_000_000)

module _ {F : Type 0} ⦃n : Num F⦄ (laws : IsOrdered F) where
  open laws use {le_refl, le_trans, decimal_mono}

  pub clamp_bounds : (x lo hi : F) → lo ≼ hi → (lo ≼ clamp x lo hi) × (clamp x lo hi ≼ hi)
  unfolding clamp
  clamp_bounds x lo hi h =
      (le-max_num_left laws lo _, max_num-le laws lo _ hi h (min_num-le_left laws hi x))

  pub clamp_mono : (x y lo hi : F) → x ≼ y → clamp x lo hi ≼ clamp y lo hi
  unfolding clamp
  clamp_mono x y lo hi h =
      max_num_mono laws lo _ lo _ (le_refl lo) (min_num_mono laws hi x hi y (le_refl hi) h)

  pub clamp100-InRange : (x : F) → InRange (clamp100 x)
  unfolding clamp100
  clamp100-InRange x = clamp_bounds x _ _ (decimal_mono 0 1_000_000 (omega arith))

  pub clamp100_mono : (x y : F) → x ≼ y → clamp100 x ≼ clamp100 y
  unfolding clamp100
  clamp100_mono x y h = clamp_mono x y _ _ h

  pub scale-InRange : (x floor ceiling : F) → InRange (scale x floor ceiling)
  unfolding scale
  scale-InRange x floor ceiling = elim (Bool-cases (le_num ceiling floor)) [
    | inl e ↦ rw e (le_refl _, decimal_mono 0 1_000_000 (omega arith))
    | inr e ↦ rw e (clamp_bounds _ _ _ (decimal_mono 0 1_000_000 (omega arith)))
  ]

  pub inverse_scale-InRange : (x floor ceiling : F) → InRange (inverse_scale x floor ceiling)
  unfolding inverse_scale
  inverse_scale-InRange x floor ceiling =
      clamp_bounds _ _ _ (decimal_mono 0 1_000_000 (omega arith))

  -- `i / m * 100` for `i <= m`
  fraction-InRange :
      (i m : ℕ) → i ≤ m → 0 < m → InRange {F = F} (of_int i ⊘ of_int m ⊗ decimal 1_000_000)
  fraction-InRange i m h p =
      let pos = decimal_pos laws (m * 10_000) (omega arith) in
      let nonneg = decimal_mono 0 1_000_000 (omega arith) in
      let below =
        le_trans _ _ _
          (laws.div_mono _ _ _ (decimal_mono (i * 10_000) (m * 10_000) (omega arith)) pos)
          (laws.div_self_le _ pos) in
      (
        laws.zero_le_mul _ _ (laws.zero_le_div _ _ (decimal_mono 0 _ (omega arith)) pos) nonneg,
        le_trans _ _ _ (laws.mul_mono _ _ _ below nonneg) (laws.one_mul_le _),
      )

  rank_in-InRange : (value : F) (series : List F) → InRange (rank_in value series)
  unfolding rank_in
  rank_in-InRange value [] = (decimal_mono 0 _ (omega arith), decimal_mono _ _ (omega arith))
  rank_in-InRange value (x ∷ []) = elim (Bool-cases (le_num x value)) [
    | inl e ↦ rw e (decimal_mono 0 1_000_000 (omega arith), le_refl _)
    | inr e ↦ rw e (le_refl _, decimal_mono 0 1_000_000 (omega arith))
  ]
  rank_in-InRange value (x ∷ y ∷ zs) = fraction-InRange _ _ (omega arith) (omega arith)

  -- A percentile rank lies between 0 and 100, for any value and any cohort, the empty one included.
  pub percentile_rank-InRange :
      (value : F) (cohort : List F) → InRange (percentile_rank value cohort)
  unfolding percentile_rank
  percentile_rank-InRange value cohort = rank_in-InRange value (sorted cohort)

  module _ (s : Signals F) {x : F} where
    pub compute_demand_score-InRange :
        (cohort : List (Signals F)) → compute_demand_score s cohort ≡ ok x → InRange x
    unfolding compute_demand_score
    compute_demand_score-InRange cohort =
        after-all InRange demand_formula (demand_inputs s cohort) (λ i. clamp100-InRange _)

    pub compute_local_competition_score-InRange :
        compute_local_competition_score s ≡ ok x → InRange x
    unfolding compute_local_competition_score
    compute_local_competition_score-InRange e =
        elim (Bool-cases (bool_get "local_pack_present" s)) [
          | inl p ↦
              after-all InRange local_formula (local_inputs s) (λ i. clamp100-InRange _) (rw p at e)
          | inr p ↦
              subst InRange (ok-injective (rw p at e))
                (decimal_mono 0 _ (omega arith), decimal_mono _ _ (omega arith))
        ]

    pub compute_monetization_score-InRange : compute_monetization_score s ≡ ok x → InRange x
    unfolding compute_monetization_score
    compute_monetization_score-InRange =
        after-all InRange monetization_formula (monetization_inputs s) (λ i. clamp100-InRange _)

    pub compute_ai_resilience_score-InRange : compute_ai_resilience_score s ≡ ok x → InRange x
    unfolding compute_ai_resilience_score
    compute_ai_resilience_score-InRange =
        after-all InRange resilience_formula (resilience_inputs s) (λ i. clamp100-InRange _)

    pub compute_gbp_score-InRange : compute_gbp_score s ≡ ok x → InRange x
    unfolding compute_gbp_score
    compute_gbp_score-InRange =
        after-all InRange gbp_formula (gbp_inputs s) (λ i. clamp100-InRange _)

  pub compute_organic_competition_score-InRange :
      (s : Signals F) → InRange (compute_organic_competition_score s)
  unfolding compute_organic_competition_score
  compute_organic_competition_score-InRange s = clamp100-InRange _
