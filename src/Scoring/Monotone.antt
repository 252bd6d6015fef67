-- ===== src/Scoring/Monotone.antt =====
-- The direction of every signal in the component scores: which signals raise a score and which
-- lower it, for the whole formula with its scales, caps and clamps.
use whidby.Prelude.{
  ℕ, ◌≤◌, ◌≡◌, Bool, Bool-cases, true, false, inl, inr, List, [], ◌∷◌, arith, refl, subst,
  if◌then◌else◌,
}
use whidby.Num.Order.{
  le-min_num, Num, IsOrdered, decimal, le_num, ◌≼◌, ◌≺◌, ◌⊖◌, ◌⊗◌, min_num_mono, decimal_pos,
}
use whidby.Scoring.Bounds.{clamp_mono, clamp100_mono, percentile_rank-InRange}
use whidby.Scoring.Normalization.{
  scale, inverse_scale, bisect_right, rank_in, percentile_rank, sorted,
}
use whidby.Scoring.Competition.{
  DemandInputs, demand_formula, OrganicInputs, organic_formula, LocalInputs, local_formula,
}
use whidby.Scoring.Market.{ResilienceInputs, resilience_formula}

module _ {F : Type 0} ⦃n : Num F⦄ (laws : IsOrdered F) where
  open laws use {le_refl, le_trans, add_mono, sub_mono, mul_mono, mul_mono_right, decimal_mono}

  -- A summand with a literal weight.
  weigh : (k : ℕ) (a b : F) → a ≼ b → a ⊗ decimal k ≼ b ⊗ decimal k
  weigh k a b h = mul_mono a b (decimal k) h (decimal_mono 0 k (omega arith))

  -- `(1.0 - x) * 100.0`
  complement :
      (a b : F)
      → b ≼ a
      → (decimal 10_000 ⊖ a) ⊗ decimal 1_000_000 ≼ (decimal 10_000 ⊖ b) ⊗ decimal 1_000_000
  complement a b h = weigh 1_000_000 _ _ (sub_mono _ _ a b (le_refl _) h)

  pub scale_mono : (x y lo hi : F) → x ≼ y → scale x lo hi ≼ scale y lo hi
  unfolding scale
  scale_mono x y lo hi h = elim (Bool-cases (le_num hi lo)) [
    | inl e ↦ rw e (le_refl _)
    | inr e ↦ rw e (
        clamp_mono laws _ _ _ _ (
          weigh 1_000_000 _ _
            (laws.div_mono _ _ _ (sub_mono x y lo lo h (le_refl lo)) (laws.zero_lt_sub _ _ e))))
  ]

  pub inverse_scale_anti : (x y lo hi : F) → x ≼ y → inverse_scale y lo hi ≼ inverse_scale x lo hi
  unfolding inverse_scale
  inverse_scale_anti x y lo hi h =
      clamp_mono laws _ _ _ _ (sub_mono _ _ _ _ (le_refl _) (scale_mono x y lo hi h))

  bisect_right_mono :
      (series : List F) (x y : F) → x ≼ y → bisect_right series x ≤ bisect_right series y
  unfolding bisect_right
  bisect_right_mono [] x y h = omega arith
  bisect_right_mono (z ∷ zs) x y h = ground (arith, bisect_right_mono zs x y h, le_trans z x y)

  rank_in_mono : (x y : F) (series : List F) → x ≼ y → rank_in x series ≼ rank_in y series
  unfolding rank_in
  rank_in_mono x y [] h = le_refl _
  rank_in_mono x y (z ∷ []) h = ground (
    arith,
    le_trans z x y,
    le_refl (decimal 0),
    le_refl (decimal 1_000_000),
    decimal_mono 0 1_000_000,
  )
  rank_in_mono x y (z ∷ w ∷ zs) h = weigh 1_000_000 _ _ (
      laws.div_mono _ _ _ (decimal_mono _ _ (omega (arith, bisect_right_mono (z ∷ w ∷ zs) x y h)))
        (decimal_pos laws _ (omega arith)))

  -- Of two markets ranked in one cohort, the larger value has the larger percentile rank.
  pub percentile_rank_mono :
      (x y : F) (cohort : List F) → x ≼ y → percentile_rank x cohort ≼ percentile_rank y cohort
  unfolding percentile_rank
  percentile_rank_mono x y cohort h = rank_in_mono x y (sorted cohort) h

module _ {F : Type 0} ⦃n : Num F⦄ where
  -- `j` is a market with more demand than `i`, in the same cohort.
  pub record DemandLe (i j : DemandInputs F) : Type 0 where
    pub volumes : i.volumes ≡ j.volumes
    pub volume : i.volume ≼ j.volume
    pub paid : decimal 0 ≼ i.avg_cpc
    pub avg_cpc : i.avg_cpc ≼ j.avg_cpc
    pub volume_breadth : i.volume_breadth ≼ j.volume_breadth
    pub transactional_ratio : i.transactional_ratio ≼ j.transactional_ratio

  -- The organic results of `j` are weaker than those of `i`: lower authority, slower pages, fewer
  -- schemas, fewer exact titles, fewer aggregators, and more local businesses.
  pub record OrganicEasier (i j : OrganicInputs F) : Type 0 where
    pub avg_top5_da : j.avg_top5_da ≼ i.avg_top5_da
    pub local_biz_count : i.local_biz_count ≼ j.local_biz_count
    pub lighthouse : j.lighthouse ≼ i.lighthouse
    pub schema_adoption_rate : j.schema_adoption_rate ≼ i.schema_adoption_rate
    pub title_keyword_match_rate : j.title_keyword_match_rate ≼ i.title_keyword_match_rate
    pub aggregator_count : j.aggregator_count ≼ i.aggregator_count

  -- The local pack of `j` is weaker than that of `i` in each of its five signals.
  pub record LocalEasier (i j : LocalInputs F) : Type 0 where
    pub review_count : j.review_count ≼ i.review_count
    pub review_velocity : j.review_velocity ≼ i.review_velocity
    pub gbp_completeness : j.gbp_completeness ≼ i.gbp_completeness
    pub gbp_photo_count : j.gbp_photo_count ≼ i.gbp_photo_count
    pub gbp_posting_activity : j.gbp_posting_activity ≼ i.gbp_posting_activity

  -- `j` is at least as resilient as `i`, both being niches of one type.
  pub record ResilienceLe (i j : ResilienceInputs F) : Type 0 where
    pub is_informational : i.is_informational ≡ j.is_informational
    pub aio_trigger_rate : j.aio_trigger_rate ≼ i.aio_trigger_rate
    pub transactional_ratio : i.transactional_ratio ≼ j.transactional_ratio
    pub local_fulfillment_required : i.local_fulfillment_required ≼ j.local_fulfillment_required
    pub paa_density : j.paa_density ≼ i.paa_density

module _ {F : Type 0} ⦃n : Num F⦄ (laws : IsOrdered F) where
  open laws use {le_refl, le_trans, add_mono, sub_mono, mul_mono, mul_mono_right, decimal_mono}

  -- A penalty that the better side has only where the other has it too.
  penalty_mono :
      (b c : Bool) (x y p : F)
      → x ≼ y
      → decimal 0 ≼ p
      → (c ≡ true → b ≡ true)
      → (if b then x ⊖ p else x) ≼ (if c then y ⊖ p else y)
  penalty_mono true true x y p h pos imp = sub_mono x y p p h (le_refl p)
  penalty_mono true false x y p h pos imp = le_trans _ _ _ (laws.sub_le_self x p pos) h
  penalty_mono false true x y p h pos imp = cc (imp refl)
  penalty_mono false false x y p h pos imp = h

  choice_mono : (b : Bool) (w x y : F) → x ≼ y → (if b then w else x) ≼ (if b then w else y)
  choice_mono true w x y h = le_refl w
  choice_mono false w x y h = h

  volume_mono :
      (i j : DemandInputs F)
      → DemandLe i j
      → percentile_rank i.volume i.volumes ≼ percentile_rank j.volume j.volumes
  volume_mono i j h =
      subst (λ v. percentile_rank i.volume i.volumes ≼ percentile_rank j.volume v) h.volumes
        (percentile_rank_mono laws i.volume j.volume i.volumes h.volume)

  pub demand_formula_mono :
      (i j : DemandInputs F) → DemandLe i j → demand_formula i ≼ demand_formula j
  unfolding demand_formula
  demand_formula_mono i j h = clamp100_mono laws _ _ (
      add_mono _ _ _ _
        (add_mono _ _ _ _
          (le_trans _ _ _
            (mul_mono _ _ _ (weigh laws 6000 _ _ (volume_mono i j h)) (
              le-min_num laws _ _ _ (laws.zero_le_div _ _ h.paid cpc_pos)
                (decimal_mono 0 20_000 (omega arith))))
            (mul_mono_right _ _ _
              (min_num_mono laws _ _ _ _ (laws.div_mono _ _ _ h.avg_cpc cpc_pos) (le_refl _))
              (laws.zero_le_mul _ _ (percentile_rank-InRange laws j.volume j.volumes).0
                (decimal_mono 0 6000 (omega arith)))))
          (weigh laws 2000 _ _ (weigh laws 150_000 _ _ h.volume_breadth)))
        (weigh laws 2000 _ _ (weigh laws 100_000 _ _ h.transactional_ratio)))
    where
      cpc_pos : decimal 0 ≺ n.decimal 50_000
      cpc_pos = decimal_pos laws 50_000 (omega arith)

  pub organic_formula_mono :
      (i j : OrganicInputs F) → OrganicEasier i j → organic_formula i ≼ organic_formula j
  unfolding organic_formula
  organic_formula_mono i j h = clamp100_mono laws _ _ (
      sub_mono _ _ _ _
        (add_mono _ _ _ _
          (add_mono _ _ _ _
            (add_mono _ _ _ _ (weigh laws 3500 _ _ (inverse_scale_anti laws _ _ _ _ h.avg_top5_da))
              (weigh laws 2000 _ _ (
                clamp100_mono laws _ _ (
                  weigh laws 1_000_000 _ _
                    (laws.div_mono _ _ _ h.local_biz_count (decimal_pos laws _ (omega arith)))))))
            (weigh laws 2000 _ _ (
              add_mono _ _ _ _ (weigh laws 5000 _ _ (inverse_scale_anti laws _ _ _ _ h.lighthouse))
                (weigh laws 5000 _ _ (complement laws _ _ h.schema_adoption_rate)))))
          (weigh laws 1500 _ _ (complement laws _ _ h.title_keyword_match_rate)))
        (weigh laws 1000 _ _ (weigh laws 80_000 _ _ h.aggregator_count)))

  pub local_formula_mono :
      (i j : LocalInputs F) → LocalEasier i j → local_formula i ≼ local_formula j
  unfolding local_formula
  local_formula_mono i j h = clamp100_mono laws _ _ (
      add_mono _ _ _ _
        (add_mono _ _ _ _
          (add_mono _ _ _ _
            (add_mono _ _ _ _ (weigh laws 3000 _ _ (inverse_scale_anti laws _ _ _ _ h.review_count))
              (weigh laws 2500 _ _ (inverse_scale_anti laws _ _ _ _ h.review_velocity)))
            (weigh laws 2000 _ _ (complement laws _ _ h.gbp_completeness)))
          (weigh laws 1000 _ _ (inverse_scale_anti laws _ _ _ _ h.gbp_photo_count)))
        (weigh laws 1500 _ _ (complement laws _ _ h.gbp_posting_activity)))

  pub resilience_formula_mono :
      (i j : ResilienceInputs F) → ResilienceLe i j → resilience_formula i ≼ resilience_formula j
  unfolding resilience_formula
  resilience_formula_mono i j h = clamp100_mono laws _ _ (
      penalty_mono _ _ _ _ _
        (add_mono _ _ _ _
          (add_mono _ _ _ _
            (add_mono _ _ _ _
              (weigh laws 4000 _ _ (inverse_scale_anti laws _ _ _ _ h.aio_trigger_rate))
              (weigh laws 2500 _ _ (weigh laws 1_000_000 _ _ h.transactional_ratio)))
            (weigh laws 1500 _ _ (weigh laws 200_000 _ _ required)))
          (weigh laws 2000 _ _ (inverse_scale_anti laws _ _ _ _ h.paa_density)))
        (decimal_mono 0 100_000 (omega arith))
        (λ e. ground (
          arith,
          le_trans i.aio_trigger_rate (decimal 3000) j.aio_trigger_rate,
          le_trans j.aio_trigger_rate i.aio_trigger_rate (decimal 3000),
        )))
    where
      required :
          (if i.is_informational then decimal 0 else i.local_fulfillment_required)
          ≼ (if j.is_informational then decimal 0 else j.local_fulfillment_required)
      required =
          subst
            (λ b.
              (if i.is_informational then decimal 0 else i.local_fulfillment_required)
              ≼ (if b then decimal 0 else j.local_fulfillment_required))
            h.is_informational (choice_mono i.is_informational _ _ _ h.local_fulfillment_required)
