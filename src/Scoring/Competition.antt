-- ===== src/Scoring/Competition.antt =====
-- src/scoring/demand_score.py, organic_competition_score.py and local_competition_score.py: each
-- scorer reads its signals, and a formula over the numbers that were read follows. `float(…)` raises
-- on a value that is no number; `_number(…)` does not.
use whidby.Prelude.{if◌then◌else◌, not, List, [], ◌∷◌, Result, ok, ◌>>=◌, after}
use whidby.Num.Order.{Num, decimal, min_num, ◌⊕◌, ◌⊖◌, ◌⊗◌, ◌⊘◌}
use whidby.Signals.{Signals, float_get, number_get, bool_get}
use whidby.Scoring.Config.{
  median_local_service_cpc, m7_da_ceiling, m7_local_ratio_denominator, m7_photo_count_ceiling,
  m7_review_barrier_ceiling, m7_review_velocity_ceiling, m7_no_local_pack_default_score,
}
use whidby.Scoring.Normalization.{clamp100, inverse_scale, percentile_rank}

pub record DemandInputs (F : Type 0) : Type 0 where
  pub volumes : List F
  pub volume : F
  pub avg_cpc : F
  pub volume_breadth : F
  pub transactional_ratio : F

pub record OrganicInputs (F : Type 0) : Type 0 where
  pub avg_top5_da : F
  pub local_biz_count : F
  pub lighthouse : F
  pub schema_adoption_rate : F
  pub title_keyword_match_rate : F
  pub aggregator_count : F

pub record LocalInputs (F : Type 0) : Type 0 where
  pub review_count : F
  pub review_velocity : F
  pub gbp_completeness : F
  pub gbp_photo_count : F
  pub gbp_posting_activity : F

module _ {F : Type 0} ⦃n : Num F⦄ where
  -- demand_score.py
  unfoldable pub cohort_values : List (Signals F) → Result (List F)
  unfolding float_get
  cohort_values [] = ok []
  cohort_values (metro ∷ metros) = do
    v ← float_get "effective_search_volume" (decimal 0) metro
    vs ← cohort_values metros
    ok (v ∷ vs)

  unfoldable pub demand_inputs : Signals F → List (Signals F) → Result (DemandInputs F)
  unfolding cohort_values float_get
  demand_inputs s cohort = do
    volumes ← cohort_values cohort
    volume ← float_get "effective_search_volume" (decimal 0) s
    avg_cpc ← float_get "avg_cpc" (decimal 0) s
    breadth ← float_get "volume_breadth" (decimal 0) s
    ratio ← float_get "transactional_ratio" (decimal 0) s
    ok (record {
      volumes = volumes;
      volume = volume;
      avg_cpc = avg_cpc;
      volume_breadth = breadth;
      transactional_ratio = ratio;
    })

  unfoldable pub demand_formula : DemandInputs F → F
  demand_formula i =
      let volume_percentile = percentile_rank i.volume i.volumes in
      let cpc_multiplier = min_num (i.avg_cpc ⊘ median_local_service_cpc) (decimal 20_000) in
      let breadth_bonus = i.volume_breadth ⊗ decimal 150_000 in
      let intent_bonus = i.transactional_ratio ⊗ decimal 100_000 in
      clamp100 (
        volume_percentile ⊗ decimal 6000 ⊗ cpc_multiplier
        ⊕ breadth_bonus ⊗ decimal 2000
        ⊕ intent_bonus ⊗ decimal 2000)

  unfoldable pub compute_demand_score : Signals F → List (Signals F) → Result F
  unfolding demand_inputs demand_formula
  compute_demand_score s cohort = after demand_formula (demand_inputs s cohort)

  -- organic_competition_score.py
  unfoldable pub organic_inputs : Signals F → OrganicInputs F
  unfolding number_get
  organic_inputs s = record {
    avg_top5_da = number_get "avg_top5_da" (m7_da_ceiling ⊘ decimal 20_000) s;
    local_biz_count = number_get "local_biz_count" (decimal 0) s;
    lighthouse = number_get "avg_lighthouse_performance" (decimal 500_000) s;
    schema_adoption_rate = number_get "schema_adoption_rate" (decimal 0) s;
    title_keyword_match_rate = number_get "title_keyword_match_rate" (decimal 0) s;
    aggregator_count = number_get "aggregator_count" (decimal 0) s;
  }

  unfoldable pub organic_formula : OrganicInputs F → F
  organic_formula i =
      let da_score = inverse_scale i.avg_top5_da (decimal 0) m7_da_ceiling in
      let local_ratio = i.local_biz_count ⊘ m7_local_ratio_denominator in
      let local_score = clamp100 (local_ratio ⊗ decimal 1_000_000) in
      let tech_weakness =
        inverse_scale i.lighthouse (decimal 0) (decimal 1_000_000) ⊗ decimal 5000
        ⊕ (decimal 10_000 ⊖ i.schema_adoption_rate) ⊗ decimal 1_000_000 ⊗ decimal 5000 in
      let title_weakness = (decimal 10_000 ⊖ i.title_keyword_match_rate) ⊗ decimal 1_000_000 in
      let agg_penalty = i.aggregator_count ⊗ decimal 80_000 in
      clamp100 (
        da_score ⊗ decimal 3500
        ⊕ local_score ⊗ decimal 2000
        ⊕ tech_weakness ⊗ decimal 2000
        ⊕ title_weakness ⊗ decimal 1500
        ⊖ agg_penalty ⊗ decimal 1000)

  unfoldable pub compute_organic_competition_score : Signals F → F
  unfolding organic_inputs organic_formula
  compute_organic_competition_score s = organic_formula (organic_inputs s)

  -- local_competition_score.py
  unfoldable pub local_inputs : Signals F → Result (LocalInputs F)
  unfolding float_get
  local_inputs s = do
    reviews ← float_get "local_pack_review_count_avg" (decimal 0) s
    velocity ← float_get "review_velocity_avg" (decimal 0) s
    completeness ← float_get "gbp_completeness_avg" (decimal 0) s
    photos ← float_get "gbp_photo_count_avg" (decimal 0) s
    posting ← float_get "gbp_posting_activity" (decimal 0) s
    ok (record {
      review_count = reviews;
      review_velocity = velocity;
      gbp_completeness = completeness;
      gbp_photo_count = photos;
      gbp_posting_activity = posting;
    })

  unfoldable pub local_formula : LocalInputs F → F
  local_formula i =
      let review_barrier = inverse_scale i.review_count (decimal 0) m7_review_barrier_ceiling in
      let velocity_score = inverse_scale i.review_velocity (decimal 0) m7_review_velocity_ceiling in
      let gbp_weakness = (decimal 10_000 ⊖ i.gbp_completeness) ⊗ decimal 1_000_000 in
      let photo_weakness = inverse_scale i.gbp_photo_count (decimal 0) m7_photo_count_ceiling in
      let posting_weakness = (decimal 10_000 ⊖ i.gbp_posting_activity) ⊗ decimal 1_000_000 in
      clamp100 (
        review_barrier ⊗ decimal 3000
        ⊕ velocity_score ⊗ decimal 2500
        ⊕ gbp_weakness ⊗ decimal 2000
        ⊕ photo_weakness ⊗ decimal 1000
        ⊕ posting_weakness ⊗ decimal 1500)

  unfoldable pub compute_local_competition_score : Signals F → Result F
  unfolding bool_get local_inputs local_formula
  compute_local_competition_score s =
      if not (bool_get "local_pack_present" s)
      then ok m7_no_local_pack_default_score
      else after local_formula (local_inputs s)
