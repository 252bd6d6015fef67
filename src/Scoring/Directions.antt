-- ===== src/Scoring/Directions.antt =====
-- The same directions for the scorers as a whole, from the signals that they read.
use whidby.Prelude.{◌≡◌, true, List, ok, after-both}
use whidby.Num.Order.{Num, IsOrdered, ◌≼◌}
use whidby.Signals.{Signals, bool_get}
use whidby.Scoring.Competition.{
  DemandInputs, demand_inputs, demand_formula, compute_demand_score, organic_inputs,
  compute_organic_competition_score, LocalInputs, local_inputs, local_formula,
  compute_local_competition_score,
}
use whidby.Scoring.Market.{
  ResilienceInputs, resilience_inputs, resilience_formula, compute_ai_resilience_score,
}
use whidby.Scoring.Monotone.{
  DemandLe, OrganicEasier, LocalEasier, ResilienceLe, demand_formula_mono, organic_formula_mono,
  local_formula_mono, resilience_formula_mono,
}

module _ {F : Type 0} ⦃n : Num F⦄ (laws : IsOrdered F) (s t : Signals F) where
  -- In one cohort, a metro with at least the volume, the CPC, the breadth and the transactional ratio
  -- of another (whose CPC is not negative) has at least its demand score.
  pub compute_demand_score_mono :
      (cohort : List (Signals F)) (i j : DemandInputs F) {x y : F}
      → demand_inputs s cohort ≡ ok i
      → demand_inputs t cohort ≡ ok j
      → DemandLe i j
      → compute_demand_score s cohort ≡ ok x
      → compute_demand_score t cohort ≡ ok y
      → x ≼ y
  unfolding compute_demand_score
  compute_demand_score_mono cohort i j p q h e d =
      after-both ◌≼◌ demand_formula (demand_inputs s cohort) (demand_inputs t cohort) i j p q e d
        (demand_formula_mono laws i j h)

  -- A metro whose organic results are weaker in all six signals has at least the organic score.
  pub compute_organic_competition_score_mono :
      OrganicEasier (organic_inputs s) (organic_inputs t)
      → compute_organic_competition_score s ≼ compute_organic_competition_score t
  unfolding compute_organic_competition_score
  compute_organic_competition_score_mono h = organic_formula_mono laws _ _ h

  -- Of two metros with a local pack, the one whose pack is weaker in all five signals has at least
  -- the local score.
  pub compute_local_competition_score_mono :
      (i j : LocalInputs F) {x y : F}
      → bool_get "local_pack_present" s ≡ true
      → bool_get "local_pack_present" t ≡ true
      → local_inputs s ≡ ok i
      → local_inputs t ≡ ok j
      → LocalEasier i j
      → compute_local_competition_score s ≡ ok x
      → compute_local_competition_score t ≡ ok y
      → x ≼ y
  unfolding compute_local_competition_score
  compute_local_competition_score_mono i j ps pt p q h e d =
      after-both ◌≼◌ local_formula (local_inputs s) (local_inputs t) i j p q (rw ps at e)
        (rw pt at d) (local_formula_mono laws i j h)

  -- Of two metros of one niche type, the one with fewer AI overviews, fewer questions, a higher
  -- transactional ratio and more need of local work has at least the resilience score.
  pub compute_ai_resilience_score_mono :
      (i j : ResilienceInputs F) {x y : F}
      → resilience_inputs s ≡ ok i
      → resilience_inputs t ≡ ok j
      → ResilienceLe i j
      → compute_ai_resilience_score s ≡ ok x
      → compute_ai_resilience_score t ≡ ok y
      → x ≼ y
  unfolding compute_ai_resilience_score
  compute_ai_resilience_score_mono i j p q h e d =
      after-both ◌≼◌ resilience_formula (resilience_inputs s) (resilience_inputs t) i j p q e d
        (resilience_formula_mono laws i j h)
