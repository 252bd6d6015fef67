-- ===== src/Classification/Rules.antt =====
-- What the rules of the classification mean: which archetypes stand for a local pack, and the
-- directions of the difficulty tier and of the AI exposure.
use whidby.Prelude.{
  ℕ, ◌≤◌, ◌≡◌, sym, ◌∙◌, subst, Bool, true, false, not, ◌&&◌, List, some, ok, arith, >>=-inv,
  ok-injective, if◌then◌else◌,
}
use whidby.Num.Order.{Num, IsOrdered, decimal, of_int, le_num, ◌≼◌, ◌⊕◌, ◌⊘◌}
use whidby.Signals.{Signals, none_value, get_or, number_get}
use whidby.Scoring.Strategy.{StrategyWeights, resolve_strategy_weights}
use whidby.Scoring.Profiles.{NonNegative, resolve-NonNegative}
use whidby.Classification.{
  DifficultyTier, easy, moderate, hard, very_hard, SerpArchetype, local_pack_fortified,
  local_pack_established, local_pack_vulnerable, AiExposure, ai_shielded, ai_minimal, ai_moderate,
  ai_exposed, as_mapping, tier_from_combined_comp, strategy_signal_view, combined_competition,
  compute_difficulty_tier, SerpInputs, serp_inputs, archetype_rules, classify_serp_archetype,
  exposure_of_rate, classify_ai_exposure,
}

-- How hard a tier is, and how exposed a class.
abbrev pub hardness : DifficultyTier → ℕ
hardness easy = 0
hardness moderate = 1
hardness hard = 2
hardness very_hard = 3

abbrev pub exposure : AiExposure → ℕ
exposure ai_shielded = 0
exposure ai_minimal = 1
exposure ai_moderate = 2
exposure ai_exposed = 3

abbrev pub is_local_pack : SerpArchetype → Bool
is_local_pack a = elim a [
  | local_pack_fortified ↦ true
  | local_pack_established ↦ true
  | local_pack_vulnerable ↦ true
  | _ ↦ false
]

module _ {F : Type 0} ⦃n : Num F⦄ where
  -- `aio_trigger_rate` as the classification reads it.
  abbrev pub rate_of : Signals F → F
  rate_of s =
      number_get "aio_trigger_rate" (decimal 0) (as_mapping (get_or "ai_resilience" none_value s))

module _ {F : Type 0} ⦃n : Num F⦄ (laws : IsOrdered F) where
  open laws use {le_trans, le_total, le_refl, add_mono, mul_mono, decimal_mono, zero_le_div}

  rules_local_pack :
      (i : SerpInputs F)
      → is_local_pack (archetype_rules i).0
        ≡ (not (le_num (decimal 5000) i.agg_ratio) && i.has_local_pack)
  unfolding archetype_rules
  rules_local_pack i = ground (arith, le_total i.review_avg (of_int 30))

  -- A metro is classified by its local pack exactly when it has one and aggregators hold less than
  -- half of its results: with a pack, one of the three pack rules always matches.
  pub classify-local_pack :
      (signals : Signals F)
      → is_local_pack (classify_serp_archetype signals).0 ≡ (
          not (le_num (decimal 5000) (serp_inputs signals).agg_ratio)
          && (serp_inputs signals).has_local_pack)
  unfolding classify_serp_archetype
  classify-local_pack signals = rules_local_pack (serp_inputs signals)

  exposure_mono : (x y : F) → x ≼ y → exposure (exposure_of_rate x) ≤ exposure (exposure_of_rate y)
  unfolding exposure_of_rate
  exposure_mono x y h =
      ground (
        arith,
        le_trans (decimal 500) x y,
        le_trans (decimal 1500) x y,
        le_trans (decimal 3000) x y,
      )

  -- A metro with a higher rate of AI overviews is never classified as less exposed.
  pub classify_ai_exposure_mono :
      (s t : Signals F)
      → rate_of s ≼ rate_of t
      → exposure (classify_ai_exposure s) ≤ exposure (classify_ai_exposure t)
  unfolding classify_ai_exposure
  classify_ai_exposure_mono s t h = exposure_mono _ _ h

  tier_mono :
      (x y : F)
      → x ≼ y
      → hardness (tier_from_combined_comp y) ≤ hardness (tier_from_combined_comp x)
  unfolding tier_from_combined_comp
  tier_mono x y h =
      ground (arith, le_trans (of_int 70) x y, le_trans (of_int 45) x y, le_trans (of_int 25) x y)

  share-NonNegative :
      (x total : F)
      → decimal 0 ≼ x
      → decimal 0 ≼ (if le_num total (of_int 0) then decimal 5000 else x ⊘ total)
  share-NonNegative x total h =
      ground (arith, zero_le_div x total h, decimal_mono 0 5000 (omega arith))

  combined_mono :
      (o l o' l' : F) (w : StrategyWeights F)
      → NonNegative w
      → o ≼ o'
      → l ≼ l'
      → combined_competition o l w ≼ combined_competition o' l' w
  unfolding combined_competition
  combined_mono o l o' l' w (p, q) h k =
      add_mono _ _ _ _ (mul_mono _ _ _ k (share-NonNegative w.local (w.organic ⊕ w.local) q))
        (mul_mono _ _ _ h (share-NonNegative w.organic (w.organic ⊕ w.local) p))

  -- The result of a metro under resolved weights.
  abbrev graded : Signals F → StrategyWeights F → DifficultyTier × F × StrategyWeights F
  graded scores w =
      let combined =
        combined_competition (number_get "organic_competition" (decimal 0) scores)
          (number_get "local_competition" (decimal 0) scores) w in
      (tier_from_combined_comp combined, combined, w)

  tier-graded :
      (scores : Signals F) (profile : List ℕ) (signals : Signals F)
      {a : DifficultyTier × F × StrategyWeights F}
      → compute_difficulty_tier scores profile signals ≡ ok a
      → (w : StrategyWeights F) × (resolve_strategy_weights profile
            (some (strategy_signal_view signals))
          ≡ ok w)
        × (graded scores w ≡ a)
  unfolding compute_difficulty_tier
  tier-graded scores profile signals e =
      let (w, r, x) =
        >>=-inv (resolve_strategy_weights profile (some (strategy_signal_view signals))) _ e in
      (w, r, ok-injective x)

  -- Under the same profile and signals, a metro with at least the organic and the local competition
  -- score of another (a higher score is a weaker competition) is never in a harder tier.
  pub compute_difficulty_tier_mono :
      (scores scores' : Signals F) (profile : List ℕ) (signals : Signals F)
      {a b : DifficultyTier × F × StrategyWeights F}
      → number_get "organic_competition" (decimal 0) scores
        ≼ number_get "organic_competition" (decimal 0) scores'
      → number_get "local_competition" (decimal 0) scores
        ≼ number_get "local_competition" (decimal 0) scores'
      → compute_difficulty_tier scores profile signals ≡ ok a
      → compute_difficulty_tier scores' profile signals ≡ ok b
      → (hardness b.0 ≤ hardness a.0) × (a.1 ≼ b.1)
  compute_difficulty_tier_mono scores scores' profile signals {a} {b} h k e d =
      let (w, r, x) = tier-graded scores profile signals e in
      let (w', r', x') = tier-graded scores' profile signals d in
      let same : w' ≡ w = ok-injective (sym r' ∙ r) in
      let m = combined_mono _ _ _ _ w (resolve-NonNegative laws profile _ r) h k in
      subst (λ y. (hardness b.0 ≤ hardness y.0) × (y.1 ≼ b.1)) x
        (subst (λ y. (hardness y.0 ≤ hardness (graded scores w).0) × ((graded scores w).1 ≼ y.1))
          (subst (λ v. graded scores' v ≡ b) same x') (tier_mono _ _ m, m))
