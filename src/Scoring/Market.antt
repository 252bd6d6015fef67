-- ===== src/Scoring/Market.antt =====
-- src/scoring/monetization_score.py, ai_resilience_score.py and gbp_score.py, read and computed in
-- the same two steps.
use whidby.Prelude.{if◌then◌else◌, Bool, ◌&&◌, ◌||◌, Result, ok, ◌>>=◌, after}
use whidby.Num.Order.{Num, decimal, of_int, lt_num, min_num, ◌⊕◌, ◌⊖◌, ◌⊗◌}
use whidby.Signals.{
  Signals, number, text, codes, text_eq, strip, lower, str_of, get_or, float_of, float_get,
  bool_get,
}
use whidby.Scoring.Config.{
  m7_photo_count_ceiling, m7_paa_density_ceiling, m7_aio_trigger_ceiling, m7_monetization_cpc_floor,
  m7_monetization_cpc_ceiling, m7_density_floor, m7_density_ceiling,
}
use whidby.Scoring.Normalization.{clamp100, scale, inverse_scale}

pub record MonetizationInputs (F : Type 0) : Type 0 where
  pub avg_cpc : F
  pub business_density : F
  pub has_ads : Bool
  pub lsa_present : Bool
  pub aggregator_presence : F
  pub gbp_completeness : F

pub record ResilienceInputs (F : Type 0) : Type 0 where
  pub aio_trigger_rate : F
  pub transactional_ratio : F
  pub is_informational : Bool
  pub local_fulfillment_required : F
  pub paa_density : F

pub record GbpInputs (F : Type 0) : Type 0 where
  pub completeness : F
  pub photo_count : F
  pub posting : F

module _ {F : Type 0} ⦃n : Num F⦄ where
  -- monetization_score.py
  unfoldable pub monetization_inputs : Signals F → Result (MonetizationInputs F)
  unfolding float_get bool_get
  monetization_inputs s = do
    cpc ← float_get "avg_cpc" (decimal 0) s
    density ← float_get "business_density" (decimal 0) s
    aggregators ← float_get "aggregator_presence" (decimal 0) s
    completeness ← float_get "gbp_completeness_avg" (decimal 0) s
    ok (record {
      avg_cpc = cpc;
      business_density = density;
      has_ads = bool_get "ads_top_present" s || bool_get "ads_present" s;
      lsa_present = bool_get "lsa_present" s;
      aggregator_presence = aggregators;
      gbp_completeness = completeness;
    })

  -- `float(b)` of a `bool`
  abbrev pub float_of_bool : Bool → F
  float_of_bool b = if b then of_int 1 else of_int 0

  unfoldable pub monetization_formula : MonetizationInputs F → F
  monetization_formula i =
      let cpc_score = scale i.avg_cpc m7_monetization_cpc_floor m7_monetization_cpc_ceiling in
      let density_score = scale i.business_density m7_density_floor m7_density_ceiling in
      let active_market =
        float_of_bool i.lsa_present ⊗ decimal 300_000
        ⊕ float_of_bool i.has_ads ⊗ decimal 200_000
        ⊕ min_num i.aggregator_presence (decimal 30_000) ⊗ decimal 100_000 in
      let gbp_score = i.gbp_completeness ⊗ decimal 1_000_000 in
      clamp100 (
        cpc_score ⊗ decimal 3500
        ⊕ density_score ⊗ decimal 2500
        ⊕ active_market ⊗ decimal 2500
        ⊕ gbp_score ⊗ decimal 1500)

  unfoldable pub compute_monetization_score : Signals F → Result F
  unfolding monetization_inputs monetization_formula
  compute_monetization_score s = after monetization_formula (monetization_inputs s)

  -- ai_resilience_score.py. `transactional_keyword_ratio` falls back on `transactional_ratio`.
  unfoldable pub resilience_inputs : Signals F → Result (ResilienceInputs F)
  unfolding float_get get_or float_of str_of strip lower
  resilience_inputs s = do
    aio ← float_get "aio_trigger_rate" (decimal 0) s
    ratio ← float_of (
        get_or "transactional_keyword_ratio" (get_or "transactional_ratio" (number (decimal 0)) s)
          s)
    let niche = lower (strip (str_of (get_or "niche_type" (text (codes "local_service")) s)))
    fulfilment ← float_get "local_fulfillment_required" (decimal 10_000) s
    paa ← float_get "paa_density" (decimal 0) s
    ok (record {
      aio_trigger_rate = aio;
      transactional_ratio = ratio;
      is_informational = text_eq niche (codes "informational");
      local_fulfillment_required = fulfilment;
      paa_density = paa;
    })

  unfoldable pub resilience_formula : ResilienceInputs F → F
  resilience_formula i =
      let aio_safety = inverse_scale i.aio_trigger_rate (decimal 0) m7_aio_trigger_ceiling in
      let intent_safety = i.transactional_ratio ⊗ decimal 1_000_000 in
      let required = if i.is_informational then decimal 0 else i.local_fulfillment_required in
      let fulfillment_bonus = required ⊗ decimal 200_000 in
      let paa_safety = inverse_scale i.paa_density (decimal 0) m7_paa_density_ceiling in
      let raw =
        aio_safety ⊗ decimal 4000
        ⊕ intent_safety ⊗ decimal 2500
        ⊕ fulfillment_bonus ⊗ decimal 1500
        ⊕ paa_safety ⊗ decimal 2000 in
      clamp100 (
        if i.is_informational && lt_num (decimal 3000) i.aio_trigger_rate
        then raw ⊖ decimal 100_000
        else raw)

  unfoldable pub compute_ai_resilience_score : Signals F → Result F
  unfolding resilience_inputs resilience_formula
  compute_ai_resilience_score s = after resilience_formula (resilience_inputs s)

  -- gbp_score.py
  unfoldable pub gbp_inputs : Signals F → Result (GbpInputs F)
  unfolding float_get
  gbp_inputs s = do
    completeness ← float_get "gbp_completeness_avg" (decimal 5000) s
    photos ← float_get "gbp_photo_count_avg" (decimal 250_000) s
    posting ← float_get "gbp_posting_activity" (decimal 5000) s
    ok (record { completeness = completeness; photo_count = photos; posting = posting })

  unfoldable pub gbp_formula : GbpInputs F → F
  gbp_formula i =
      let completeness_weakness = (decimal 10_000 ⊖ i.completeness) ⊗ decimal 1_000_000 in
      let photo_weakness = inverse_scale i.photo_count (decimal 0) m7_photo_count_ceiling in
      let posting_weakness = (decimal 10_000 ⊖ i.posting) ⊗ decimal 1_000_000 in
      clamp100 (
        completeness_weakness ⊗ decimal 4000
        ⊕ photo_weakness ⊗ decimal 3000
        ⊕ posting_weakness ⊗ decimal 3000)

  unfoldable pub compute_gbp_score : Signals F → Result F
  unfolding gbp_inputs gbp_formula
  compute_gbp_score s = after gbp_formula (gbp_inputs s)
