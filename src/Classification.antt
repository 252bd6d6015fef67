-- ===== src/Classification.antt =====
-- src/classification: the difficulty tier, the archetype of the search results and the AI exposure
-- of a metro, from its signals and scores.
mod Rules
mod Tests
use whidby.Prelude.{
  ℕ, Bool, true, false, ◌&&◌, List, [], ◌∷◌, Option, none, some, String, if◌then◌else◌, Result, ok,
  raise, ◌>>=◌, after,
}
use whidby.Num.Order.{Num, decimal, of_int, le_num, lt_num, ◌⊕◌, ◌⊗◌, ◌⊘◌}
use whidby.Signals.{
  Value, Signals, none_value, number, boolean, text, items, mapping, end, entry, get_or, float_of,
  number_get, bool_get,
}
use whidby.Scoring.Strategy.{StrategyWeights, resolve_strategy_weights}

pub data DifficultyTier : Type 0 where
  easy moderate hard very_hard : DifficultyTier

pub data SerpArchetype : Type 0 where
  aggregator_dominated local_pack_fortified local_pack_established local_pack_vulnerable :
      SerpArchetype
  fragmented_weak fragmented_competitive barren mixed : SerpArchetype

pub data AiExposure : Type 0 where
  ai_shielded ai_minimal ai_moderate ai_exposed : AiExposure

-- What the archetype rules read.
pub record SerpInputs (F : Type 0) : Type 0 where
  pub agg_ratio : F
  pub local_ratio : F
  pub avg_top5_da : Option F
  pub has_local_pack : Bool
  pub review_avg : F
  pub velocity_avg : F

module _ {F : Type 0} ⦃n : Num F⦄ where
  -- `_as_mapping`
  unfoldable pub as_mapping : Value F → Signals F
  as_mapping (mapping m) = m
  as_mapping none_value = end
  as_mapping (number x) = end
  as_mapping (boolean b) = end
  as_mapping (text t) = end
  as_mapping (items k) = end

  -- `_optional_float`
  unfoldable pub optional_float : Value F → Option F
  unfolding float_of
  optional_float none_value = none
  optional_float v = elim (float_of v) [ ok x ↦ some x | raise e ↦ none ]

  -- `_tier_from_combined_comp`
  unfoldable pub tier_from_combined_comp : F → DifficultyTier
  tier_from_combined_comp c =
      if le_num (of_int 70) c
      then easy
      else if le_num (of_int 45) c
      then moderate
      else if le_num (of_int 25) c
      then hard
      else very_hard

  -- `_strategy_signal_view`
  unfoldable pub strategy_signal_view : Signals F → Signals F
  unfolding get_or bool_get
  strategy_signal_view signals = elim (get_or "local_competition" none_value signals) [
    | mapping local ↦
        entry "local_pack_present" (boolean (bool_get "local_pack_present" local))
          (entry "local_pack_position" (get_or "local_pack_position" none_value local) end)
    | _ ↦ end
  ]

  -- The two competition scores, weighted by the shares of the resolved weights.
  unfoldable pub combined_competition : F → F → StrategyWeights F → F
  combined_competition organic_comp local_comp w =
      let total = w.organic ⊕ w.local in
      let organic_proportion =
        if le_num total (of_int 0) then decimal 5000 else w.organic ⊘ total in
      let local_proportion = if le_num total (of_int 0) then decimal 5000 else w.local ⊘ total in
      local_comp ⊗ local_proportion ⊕ organic_comp ⊗ organic_proportion

  unfoldable pub compute_difficulty_tier :
      Signals F → List ℕ → Signals F → Result (DifficultyTier × F × StrategyWeights F)
  unfolding number_get strategy_signal_view combined_competition tier_from_combined_comp
  compute_difficulty_tier scores strategy_profile signals = do
    weights ← resolve_strategy_weights strategy_profile (some (strategy_signal_view signals))
    let combined =
        combined_competition (number_get "organic_competition" (decimal 0) scores)
          (number_get "local_competition" (decimal 0) scores) weights
    ok (tier_from_combined_comp combined, combined, weights)

  unfoldable pub serp_inputs : Signals F → SerpInputs F
  unfolding as_mapping optional_float number_get get_or bool_get
  serp_inputs signals =
      let organic = as_mapping (get_or "organic_competition" none_value signals) in
      let local = as_mapping (get_or "local_competition" none_value signals) in
      record {
        agg_ratio = number_get "aggregator_count" (decimal 0) organic ⊘ decimal 100_000;
        local_ratio = number_get "local_biz_count" (decimal 0) organic ⊘ decimal 100_000;
        avg_top5_da = optional_float (get_or "avg_top5_da" none_value organic);
        has_local_pack = bool_get "local_pack_present" local;
        review_avg = number_get "local_pack_review_count_avg" (decimal 0) local;
        velocity_avg = number_get "review_velocity_avg" (decimal 0) local;
      }

  -- `avg_top5_da is not None and local_ratio >= 0.4 and …`
  unfoldable pub fragmented : (F → Bool) → SerpInputs F → Bool
  fragmented test i = elim (i.avg_top5_da) [
    | none ↦ false
    | some da ↦ le_num (decimal 4000) i.local_ratio && test da
  ]

  -- The rules, in order: the first that matches decides, with its id.
  unfoldable pub archetype_rules : SerpInputs F → SerpArchetype × String
  unfolding fragmented
  archetype_rules i =
      if le_num (decimal 5000) i.agg_ratio
      then (aggregator_dominated, "agg_ratio_ge_0_5")
      else if i.has_local_pack
          && lt_num (of_int 100) i.review_avg
          && lt_num (of_int 5) i.velocity_avg
      then (local_pack_fortified, "pack_review_gt_100_and_velocity_gt_5")
      else if i.has_local_pack && lt_num (of_int 30) i.review_avg
      then (local_pack_established, "pack_review_gt_30")
      else if i.has_local_pack && le_num i.review_avg (of_int 30)
      then (local_pack_vulnerable, "pack_review_lte_30")
      else if fragmented (λ da. lt_num da (of_int 25)) i
      then (fragmented_weak, "local_ratio_ge_0_4_and_da_lt_25")
      else if fragmented (λ da. le_num (of_int 25) da) i
      then (fragmented_competitive, "local_ratio_ge_0_4_and_da_gte_25")
      else if lt_num i.local_ratio (decimal 3000) && lt_num i.agg_ratio (decimal 3000)
      then (barren, "local_ratio_lt_0_3_and_agg_ratio_lt_0_3")
      else (mixed, "fallback_mixed")

  unfoldable pub classify_serp_archetype : Signals F → SerpArchetype × String
  unfolding serp_inputs archetype_rules
  classify_serp_archetype signals = archetype_rules (serp_inputs signals)

  unfoldable pub exposure_of_rate : F → AiExposure
  exposure_of_rate rate =
      if lt_num rate (decimal 500)
      then ai_shielded
      else if lt_num rate (decimal 1500)
      then ai_minimal
      else if lt_num rate (decimal 3000)
      then ai_moderate
      else ai_exposed

  unfoldable pub classify_ai_exposure : Signals F → AiExposure
  unfolding as_mapping number_get get_or exposure_of_rate
  classify_ai_exposure signals = exposure_of_rate (
      number_get "aio_trigger_rate" (decimal 0)
        (as_mapping (get_or "ai_resilience" none_value signals)))
