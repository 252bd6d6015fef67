-- ===== src/Lenses/Strategies.antt =====
-- src/domain/strategy_projection.py: the projections. `round_two` is Python's `round(x, 2)` and
-- `is_finite` is `math.isfinite`.
use whidby.Prelude.{
  ℕ, Bool, true, false, not, ◌||◌, List, [], ◌∷◌, none, some, String, if◌then◌else◌, Result, ok,
  raise, ◌>>=◌, value_error, key_error, after,
}
use whidby.Num.Order.{Num, decimal, of_int, le_num, lt_num, min_num, ◌⊕◌, ◌⊖◌, ◌⊗◌, ◌⊘◌}
use whidby.Signals.{Value, none_value, number, boolean, Signals, end, entry, get, get_or, float_of}
use whidby.Lenses.Projection.{
  StrategyProjection, picked, is_low_label, expand_evidence, clamp_score, number_or_default,
  stopped, guarded, share, gbp_blitz_tests, hijack_tests, hijack_missing_tests, expand_tests,
}

module _ {F : Type 0} ⦃n : Num F⦄ (round_two : F → F) (is_finite : F → Bool) where
  unfoldable pub finite_number : Signals F → String → Result F
  unfolding get float_of
  finite_number row key = elim (get key row) [
    | none ↦ raise key_error
    | some v ↦ float_of v >>= λ x. if not (is_finite x) then raise value_error else ok x
  ]

  unfoldable pub easy_win_score : F → F → F → F → F
  unfolding clamp_score
  easy_win_score demand organic_ease local_ease ai = clamp_score (
      ((demand ⊗ decimal 2_500 ⊕ organic_ease ⊗ decimal 4_500) ⊕ local_ease ⊗ decimal 2_000)
      ⊕ ai ⊗ decimal 1_000)

  -- What a projection reads, in the order of its formula.
  unfoldable pub easy_win_inputs : Signals F → Result (F × F × F × F × Bool)
  unfolding number_or_default get_or float_of is_low_label
  easy_win_inputs row = do
    demand_strength ← number_or_default row "demand_strength" (decimal 0)
    organic ← number_or_default row "organic_difficulty" (of_int 100)
    local_ease ← elim (get_or "local_difficulty" none_value row) [
      | none_value ↦ ok (of_int 65)
      | v ↦ float_of v >>= λ x. ok (of_int 100 ⊖ x)
    ]
    ai ← number_or_default row "ai_resilience" (of_int 50)
    is_low ← is_low_label (get_or "benchmark_confidence" none_value row)
    ok (demand_strength, organic, local_ease, ai, is_low)

  unfoldable pub easy_win_projection : Signals F → F × F × F × F × Bool → StrategyProjection F
  unfolding easy_win_score picked
  easy_win_projection row (demand_strength, organic, local_ease, ai, is_low) = record {
    strategy_id = "easy_win";
    score = round_two (
        easy_win_score (share demand_strength (of_int 140) ⊗ of_int 100) (of_int 100 ⊖ organic)
          local_ease ai);
    evidence =
        picked
          ("demand_strength" ∷ "organic_difficulty" ∷ "local_difficulty" ∷ "ai_resilience" ∷ [])
          row;
    warnings = if is_low then "benchmark_confidence_low" ∷ [] else [];
  }

  unfoldable pub project_easy_win : Signals F → Result (StrategyProjection F)
  unfolding easy_win_inputs easy_win_projection
  project_easy_win row = after (easy_win_projection row) (easy_win_inputs row)

  unfoldable pub gbp_blitz_score : F → F → F → F → F
  unfolding clamp_score
  gbp_blitz_score demand review_floor velocity completeness = clamp_score (
      ((demand ⊗ decimal 2_000 ⊕ (of_int 100 ⊖ min_num review_floor (of_int 100)) ⊗ decimal 4_000)
        ⊕ (of_int 100 ⊖ min_num (velocity ⊗ of_int 25) (of_int 100)) ⊗ decimal 2_000)
      ⊕ ((of_int 1 ⊖ min_num completeness (of_int 1)) ⊗ of_int 100) ⊗ decimal 2_000)

  unfoldable pub gbp_blitz_inputs : Signals F → Result (F × F × F × F)
  unfolding number_or_default
  gbp_blitz_inputs row = do
    demand_strength ← number_or_default row "demand_strength" (decimal 0)
    review_floor ← number_or_default row "top3_review_count_min" (of_int 100)
    velocity ← number_or_default row "top3_review_velocity_avg" (of_int 5)
    completeness ← number_or_default row "gbp_completeness_avg" (of_int 1)
    ok (demand_strength, review_floor, velocity, completeness)

  unfoldable pub gbp_blitz_projection : Signals F → F × F × F × F → StrategyProjection F
  unfolding gbp_blitz_score picked
  gbp_blitz_projection row (demand_strength, review_floor, velocity, completeness) = record {
    strategy_id = "gbp_blitz";
    score = round_two (
        gbp_blitz_score (share demand_strength (of_int 120) ⊗ of_int 100) review_floor velocity
          completeness);
    evidence =
        picked ("top3_review_count_min" ∷ "top3_review_velocity_avg" ∷ "gbp_completeness_avg" ∷ [])
          row;
    warnings = [];
  }

  unfoldable pub project_gbp_blitz : Signals F → Result (StrategyProjection F)
  unfolding guarded gbp_blitz_tests gbp_blitz_inputs gbp_blitz_projection
  project_gbp_blitz row =
      guarded (gbp_blitz_tests row) (after (gbp_blitz_projection row) (gbp_blitz_inputs row))

  unfoldable pub keyword_hijack_score : F → F → F → F
  unfolding clamp_score
  keyword_hijack_score volume cpc intent = clamp_score (
      (share volume (of_int 300) ⊗ of_int 45 ⊕ share cpc (of_int 50) ⊗ of_int 30)
      ⊕ min_num intent (of_int 1) ⊗ of_int 25)

  unfoldable pub hijack_inputs : Signals F → Result (F × F)
  unfolding number_or_default
  hijack_inputs row = do
    cpc ← number_or_default row "cpc_usd" (decimal 0)
    intent ← number_or_default row "commercial_intent_score" (decimal 5_000)
    ok (cpc, intent)

  unfoldable pub hijack_projection : Signals F → F → F × F → StrategyProjection F
  unfolding keyword_hijack_score get_or
  hijack_projection row volume (cpc, intent) = record {
    strategy_id = "keyword_hijack";
    score = round_two (keyword_hijack_score volume cpc intent);
    evidence = entry "search_volume_monthly" (number volume) (
        entry "cpc_usd" (get_or "cpc_usd" none_value row) (
          entry "local_pack_present" (boolean true)
            (entry "exact_match_name_available" (boolean true) end)));
    warnings = [];
  }

  -- The tests of `project_keyword_hijack` on a row that has its three values, and its score.
  unfoldable pub hijack_with_volume : Signals F → F → Result (StrategyProjection F)
  unfolding guarded hijack_tests hijack_inputs hijack_projection
  hijack_with_volume row volume =
      guarded (hijack_tests row volume) (after (hijack_projection row volume) (hijack_inputs row))

  unfoldable pub project_keyword_hijack : Signals F → Result (StrategyProjection F)
  unfolding guarded hijack_missing_tests hijack_with_volume number_or_default
  project_keyword_hijack row =
      guarded (hijack_missing_tests row)
        (number_or_default row "search_volume_monthly" (decimal 0) >>= hijack_with_volume row)

  unfoldable pub expand_conquer_score : F → F → F → F → F → F
  unfolding clamp_score
  expand_conquer_score similarity organic reference_organic local reference_local =
      let percent =
        clamp_score
          (if le_num similarity (of_int 1) then similarity ⊗ of_int 100 else similarity) in
      let margin =
        clamp_score (((reference_organic ⊖ organic) ⊕ (reference_local ⊖ local)) ⊘ of_int 2) in
      clamp_score (percent ⊗ decimal 7_500 ⊕ margin ⊗ decimal 2_500)

  unfoldable pub expand_inputs : Signals F → Result (F × F × F × F × F)
  unfolding finite_number
  expand_inputs row = do
    similarity ← finite_number row "similarity_score"
    organic ← finite_number row "organic_difficulty"
    reference_organic ← finite_number row "reference_organic_difficulty"
    local ← finite_number row "local_difficulty"
    reference_local ← finite_number row "reference_local_difficulty"
    ok (similarity, organic, reference_organic, local, reference_local)

  unfoldable pub expand_projection : Signals F → F × F × F × F × F → StrategyProjection F
  unfolding expand_conquer_score expand_evidence
  expand_projection row (similarity, organic, reference_organic, local, reference_local) =
      let evidence = expand_evidence row organic reference_organic local reference_local in
      if lt_num reference_organic organic || lt_num reference_local local
      then stopped "expand_conquer" evidence "competition_higher_than_reference"
      else record {
        strategy_id = "expand_conquer";
        score =
            round_two
              (expand_conquer_score similarity organic reference_organic local reference_local);
        evidence = evidence;
        warnings = [];
      }

  -- `text_of` is Python's `str`.
  unfoldable pub project_expand_conquer :
      (Value F → List ℕ) → Signals F → Result (StrategyProjection F)
  unfolding guarded expand_tests expand_inputs expand_projection
  project_expand_conquer text_of row =
      guarded (expand_tests text_of row) (after (expand_projection row) (expand_inputs row))

  -- Whether `project_ai_resilience_warning` warns.
  unfoldable pub warns_of_ai_resilience : Signals F → Bool
  unfolding number_or_default
  warns_of_ai_resilience row = elim (number_or_default row "aio_trigger_rate" (decimal 0)) [
    | raise e ↦ false
    | ok rate ↦ elim (number_or_default row "ai_resilience" (of_int 100)) [
      | raise e ↦ false
      | ok score ↦
          if not (is_finite rate) || not (is_finite score)
          then false
          else le_num (decimal 1_500) rate || lt_num score (of_int 65)
    ]
  ]

  -- `_STRATEGY_PROJECTIONS` of discovery_service.py
  unfoldable pub strategy_projections :
      (Value F → List ℕ) → List (String × (Signals F → Result (StrategyProjection F)))
  unfolding project_easy_win project_gbp_blitz project_keyword_hijack project_expand_conquer
  strategy_projections text_of =
      ("easy_win", project_easy_win)
      ∷ ("gbp_blitz", project_gbp_blitz)
      ∷ ("keyword_hijack", project_keyword_hijack)
      ∷ ("expand_conquer", project_expand_conquer text_of)
      ∷ []
