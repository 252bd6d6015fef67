-- ===== src/Scoring/Config.antt =====
-- src/config/constants.py: the M7 boundaries, gates and weights, and the field defaults of the code.
use whidby.Num.Order.{Num, decimal}

module _ {F : Type 0} ⦃n : Num F⦄ where
  abbrev pub median_local_service_cpc : F
  median_local_service_cpc = decimal 50_000

  abbrev pub m7_da_ceiling : F
  m7_da_ceiling = decimal 600_000

  abbrev pub m7_local_ratio_denominator : F
  m7_local_ratio_denominator = decimal 100_000

  abbrev pub m7_photo_count_ceiling : F
  m7_photo_count_ceiling = decimal 500_000

  abbrev pub m7_review_barrier_ceiling : F
  m7_review_barrier_ceiling = decimal 2_000_000

  abbrev pub m7_review_velocity_ceiling : F
  m7_review_velocity_ceiling = decimal 200_000

  abbrev pub m7_paa_density_ceiling : F
  m7_paa_density_ceiling = decimal 80_000

  abbrev pub m7_aio_trigger_ceiling : F
  m7_aio_trigger_ceiling = decimal 5000

  abbrev pub m7_monetization_cpc_floor : F
  m7_monetization_cpc_floor = decimal 10_000

  abbrev pub m7_monetization_cpc_ceiling : F
  m7_monetization_cpc_ceiling = decimal 300_000

  abbrev pub m7_density_floor : F
  m7_density_floor = decimal 50_000

  abbrev pub m7_density_ceiling : F
  m7_density_ceiling = decimal 1_000_000

  abbrev pub m7_no_local_pack_default_score : F
  m7_no_local_pack_default_score = decimal 750_000

  abbrev pub m7_threshold_gate_hard_cap : F
  m7_threshold_gate_hard_cap = decimal 200_000

  abbrev pub m7_threshold_gate_soft_cap : F
  m7_threshold_gate_soft_cap = decimal 400_000

  abbrev pub m7_threshold_gate_hard_min_component : F
  m7_threshold_gate_hard_min_component = decimal 50_000

  abbrev pub m7_threshold_gate_soft_min_component : F
  m7_threshold_gate_soft_min_component = decimal 150_000

  abbrev pub m7_ai_floor_component_threshold : F
  m7_ai_floor_component_threshold = decimal 200_000

  abbrev pub m7_ai_floor_composite_cap : F
  m7_ai_floor_composite_cap = decimal 500_000

  -- `FIXED_WEIGHTS`
  abbrev pub demand_weight : F
  demand_weight = decimal 2500

  abbrev pub monetization_weight : F
  monetization_weight = decimal 2000

  abbrev pub ai_resilience_weight : F
  ai_resilience_weight = decimal 1500
