-- ===== src/Scoring/Report.antt =====
-- The report of a metro: every score in range, the composite over non-negative weights, and what the
-- flattening of the signal blocks keeps.
use whidby.Prelude.{
  Elem, ℕ, subst, after-all, ◌≡◌, refl, sym, ap, inl, inr, List, [], ◌∷◌, Option, some, String, ok,
  >>=-inv, ok-injective, map,
}
use whidby.Num.Order.{Num, IsOrdered, ◌≼◌, ◌≺◌}
use whidby.Scoring.Config.{
  m7_threshold_gate_hard_cap, m7_threshold_gate_soft_cap, m7_threshold_gate_hard_min_component,
  m7_threshold_gate_soft_min_component, m7_ai_floor_component_threshold, m7_ai_floor_composite_cap,
}
use whidby.Scoring.Gates.{opportunity-caps, opportunity-InRange}
use whidby.Signals.{Signals}
use whidby.Scoring.Bounds.{
  InRange, clamp100-InRange, compute_demand_score-InRange,
  compute_organic_competition_score-InRange, compute_local_competition_score-InRange,
  compute_monetization_score-InRange, compute_ai_resilience_score-InRange,
  compute_gbp_score-InRange,
}
use whidby.Scoring.Composite.{compute_opportunity_score, score_of, base_gate_components}
use whidby.Scoring.Competition.{
  compute_demand_score, compute_organic_competition_score, compute_local_competition_score,
}
use whidby.Scoring.Market.{
  compute_monetization_score, compute_ai_resilience_score, compute_gbp_score,
}
use whidby.Scoring.Confidence.{
  Confidence, compute_confidence, confidence_formula, confidence_inputs,
}
use whidby.Scoring.Engine.{
  ScoreReport, flatten_signal_shape, choose_weights, component_scores, compute_scores,
}

module _ {F : Type 0} ⦃n : Num F⦄ where
  -- Every score of the report lies between 0 and 100.
  pub record ReportInRange (r : ScoreReport F) : Type 0 where
    pub demand : InRange r.demand
    pub organic_competition : InRange r.organic_competition
    pub local_competition : InRange r.local_competition
    pub monetization : InRange r.monetization
    pub ai_resilience : InRange r.ai_resilience
    pub gbp : InRange r.gbp
    pub opportunity : InRange r.opportunity
    pub confidence : InRange r.confidence.score

  -- What a report was computed from: the calls that returned, and the weights in use.
  record Parts (metro : Signals F) (cohort : List (Signals F)) (profile : List ℕ)
      (weights : Option (List (String × F))) (r : ScoreReport F) : Type 0 where
    used : List (String × F)
    demand : compute_demand_score metro cohort ≡ ok r.demand
    organic_competition : compute_organic_competition_score metro ≡ r.organic_competition
    local_competition : compute_local_competition_score metro ≡ ok r.local_competition
    monetization : compute_monetization_score metro ≡ ok r.monetization
    ai_resilience : compute_ai_resilience_score metro ≡ ok r.ai_resilience
    gbp : compute_gbp_score metro ≡ ok r.gbp
    chosen : choose_weights weights profile metro ≡ ok (used, r.resolved_weights)
    opportunity :
        compute_opportunity_score
          (component_scores r.demand r.organic_competition r.local_competition r.monetization
            r.ai_resilience r.gbp)
          used
        ≡ r.opportunity
    confidence : compute_confidence metro ≡ ok r.confidence

  compute_scores-Parts :
      (metro : Signals F) (cohort : List (Signals F)) (profile : List ℕ)
      (weights : Option (List (String × F))) {r : ScoreReport F}
      → compute_scores metro cohort profile weights ≡ ok r
      → Parts (flatten_signal_shape metro) (map flatten_signal_shape cohort) profile weights r
  unfolding compute_scores
  compute_scores-Parts metro cohort profile weights {r} e =
      let flat = flatten_signal_shape metro in
      let (d, ed, e1) = >>=-inv (compute_demand_score flat (map flatten_signal_shape cohort)) _ e in
      let (l, el, e2) = >>=-inv (compute_local_competition_score flat) _ e1 in
      let (m, em, e3) = >>=-inv (compute_monetization_score flat) _ e2 in
      let (a, ea, e4) = >>=-inv (compute_ai_resilience_score flat) _ e3 in
      let (g, eg, e5) = >>=-inv (compute_gbp_score flat) _ e4 in
      let (w, ew, e6) = >>=-inv (choose_weights weights profile flat) _ e5 in
      let (c, ec, e7) = >>=-inv (compute_confidence flat) _ e6 in
      subst (Parts flat (map flatten_signal_shape cohort) profile weights) (ok-injective e7)
        (record {
          used = w.0;
          demand = ed;
          organic_competition = refl;
          local_competition = el;
          monetization = em;
          ai_resilience = ea;
          gbp = eg;
          chosen = ew;
          opportunity = refl;
          confidence = ec;
        })

  ai_score :
      (r : ScoreReport F)
      → score_of "ai_resilience" (
          component_scores r.demand r.organic_competition r.local_competition r.monetization
            r.ai_resilience r.gbp)
        ≡ some r.ai_resilience
  unfolding score_of
  ai_score r = refl

  base_score :
      (r : ScoreReport F) (x : F)
      → Elem x (
          r.demand ∷ r.organic_competition ∷ r.local_competition ∷ r.monetization ∷ r.ai_resilience
          ∷ [])
      → (k : String) × Elem k base_gate_components
        × (score_of k (
              component_scores r.demand r.organic_competition r.local_competition r.monetization
                r.ai_resilience r.gbp)
            ≡ some x)
  unfolding score_of
  base_score r x (inl e) = ("demand", inl refl, ap some (sym e))
  base_score r x (inr (inl e)) = ("organic_competition", inr (inl refl), ap some (sym e))
  base_score r x (inr (inr (inl e))) = ("local_competition", inr (inr (inl refl)), ap some (sym e))
  base_score r x (inr (inr (inr (inl e)))) =
      ("monetization", inr (inr (inr (inl refl))), ap some (sym e))
  base_score r x (inr (inr (inr (inr (inl e))))) =
      ("ai_resilience", inr (inr (inr (inr (inl refl)))), ap some (sym e))
  base_score r x (inr (inr (inr (inr (inr m))))) = absurd m

module _ {F : Type 0} ⦃n : Num F⦄ (laws : IsOrdered F) where
  confidence-InRange :
      (s : Signals F) {c : Confidence F} → compute_confidence s ≡ ok c → InRange (c.score)
  unfolding compute_confidence
  confidence-InRange s {c} =
      after-all (λ d. InRange d.score) confidence_formula (confidence_inputs s)
        (λ i. clamp100-InRange laws _)

  -- Whatever the signals, the cohort, the profile and the weights: if the metro is scored at all, each
  -- of its six component scores, its opportunity score and its confidence lie between 0 and 100.
  pub compute_scores-InRange :
      (metro : Signals F) (cohort : List (Signals F)) (profile : List ℕ)
      (weights : Option (List (String × F))) {r : ScoreReport F}
      → compute_scores metro cohort profile weights ≡ ok r
      → ReportInRange r
  compute_scores-InRange metro cohort profile weights {r} e =
      let p = compute_scores-Parts metro cohort profile weights e in
      record {
        demand = compute_demand_score-InRange laws _ _ p.demand;
        organic_competition =
            subst InRange (p.organic_competition)
              (compute_organic_competition_score-InRange laws _);
        local_competition = compute_local_competition_score-InRange laws _ p.local_competition;
        monetization = compute_monetization_score-InRange laws _ p.monetization;
        ai_resilience = compute_ai_resilience_score-InRange laws _ p.ai_resilience;
        gbp = compute_gbp_score-InRange laws _ p.gbp;
        opportunity = subst InRange (p.opportunity) (opportunity-InRange laws _ _);
        confidence = confidence-InRange _ p.confidence;
      }

  -- In a report the opportunity score obeys the gates: a base component below 5 caps it at 20, one
  -- below 15 caps it at 40, and an AI resilience below 20 caps it at 50, whatever the weights.
  pub compute_scores-caps :
      (metro : Signals F) (cohort : List (Signals F)) (profile : List ℕ)
      (weights : Option (List (String × F))) {r : ScoreReport F} (x : F)
      → compute_scores metro cohort profile weights ≡ ok r
      → Elem x (
          r.demand ∷ r.organic_competition ∷ r.local_competition ∷ r.monetization ∷ r.ai_resilience
          ∷ [])
      → (x ≺ m7_threshold_gate_hard_min_component → r.opportunity ≼ m7_threshold_gate_hard_cap)
        × (x ≺ m7_threshold_gate_soft_min_component → r.opportunity ≼ m7_threshold_gate_soft_cap)
        × (r.ai_resilience ≺ m7_ai_floor_component_threshold
            → r.opportunity ≼ m7_ai_floor_composite_cap)
  compute_scores-caps metro cohort profile weights {r} x e m =
      let p = compute_scores-Parts metro cohort profile weights e in
      let scores =
        component_scores r.demand r.organic_competition r.local_competition r.monetization
          r.ai_resilience r.gbp in
      let (k, mk, found) = base_score r x m in
      let caps = opportunity-caps laws scores p.used k x mk found in
      let ai =
        opportunity-caps laws scores p.used "ai_resilience" r.ai_resilience
          (inr (inr (inr (inr (inl refl))))) (ai_score r) in
      (
        λ low. subst (λ o. o ≼ m7_threshold_gate_hard_cap) p.opportunity (caps.0 low),
        λ low. subst (λ o. o ≼ m7_threshold_gate_soft_cap) p.opportunity (caps.1 low),
        λ low. subst (λ o. o ≼ m7_ai_floor_composite_cap) p.opportunity (ai.2 refl low),
      )
