-- ===== src/Lenses/Accepted.antt =====
-- src/domain/scoring.py: what a market has that a lens accepts.
use whidby.Prelude.{
  ◌≡◌, refl, ap, sym, ◌∙◌, subst, Bool, true, false, Bool-cases, inl, inr, ◌⊎◌, Option, Ensures,
  Ensures-elim, Result-cases, List, [], ◌∷◌, String, none, some, All, ok, ok-injective, >>=-inv,
  Result, if◌then◌else◌,
}
use whidby.Num.Order.{Num, IsOrdered}
use whidby.Scoring.Bounds.{InRange, clamp100-InRange}
use whidby.Scoring.Composite.{Scores, compute_opportunity_score}
use whidby.Lenses.{Scalar, SignalFilter, ScoringLens}
use whidby.Lenses.Entities.{Market, ScoredMarket}
use whidby.Lenses.Scoring.{
  Outcome, scored, missing_signals, filter_not_met, missing, check_filters, has_key,
  extract_component_scores, extract_filter_value, evaluate_filter, check_filter, score_with,
  score_market,
}

false_or_true : false ≡ true → ⊥
false_or_true e = cc

module _ {F : Type 0} ⦃n : Num F⦄ where
  -- The value of a filter passes its test, or the filter is optional and there is none.
  abbrev pub Meets : Market F → SignalFilter F → Type 0
  Meets market f =
      ((v : Scalar F) × (extract_filter_value market f.signal ≡ ok (some v))
        × (evaluate_filter v f.operator f.value ≡ ok true))
      ⊎ ((extract_filter_value market f.signal ≡ ok none) × (f.required ≡ false))

  check_filter-true :
      (f : SignalFilter F) (found : Option (Scalar F)) (rest : Result Bool)
      → check_filter f found rest ≡ ok true
      → (((v : Scalar F) × (found ≡ some v) × (evaluate_filter v f.operator f.value ≡ ok true))
          ⊎ ((found ≡ none) × (f.required ≡ false)))
        × (rest ≡ ok true)
  unfolding check_filter
  check_filter-true f none rest h = elim (Bool-cases f.required) [
    | inl e ↦
        let wrong : ok false ≡ ok true = ap (λ b. if b then ok false else rest) (sym e) ∙ h in
        absurd (false_or_true (ok-injective wrong))
    | inr e ↦ (inr (refl, e), ap (λ b. if b then ok false else rest) (sym e) ∙ h)
  ]
  check_filter-true f (some v) rest h =
      let (met, e, g) = >>=-inv (evaluate_filter v f.operator f.value) _ h in
      elim (Bool-cases met) [
        | inl m ↦ (inl (v, refl, e ∙ ap ok m), ap (λ b. if b then rest else ok false) (sym m) ∙ g)
        | inr m ↦
            let wrong : ok false ≡ ok true = ap (λ b. if b then rest else ok false) (sym m) ∙ g in
            absurd (false_or_true (ok-injective wrong))
      ]

  check_filters-Meets :
      (market : Market F) (fs : List (SignalFilter F))
      → check_filters market fs ≡ ok true
      → All (Meets market) fs
  unfolding check_filters
  check_filters-Meets market [] h = tt
  check_filters-Meets market (f ∷ fs) h =
      let (found, e, g) = >>=-inv (extract_filter_value market f.signal) _ h in
      let (which, rest) = check_filter-true f found (check_filters market fs) g in
      let meets : Meets market f = elim which [
        | inl (v, k, m) ↦ inl (v, e ∙ ap ok k, m)
        | inr (k, r) ↦ inr (e ∙ ap ok k, r)
      ] in
      (meets, check_filters-Meets market fs rest)

  missing-nil :
      (rs : List String) (scores : Scores F)
      → missing rs scores ≡ []
      → All (λ r. has_key r scores ≡ true) rs
  missing-nil [] scores h = tt
  missing-nil (r ∷ rs) scores h = elim (Bool-cases (has_key r scores)) [
    | inl e ↦ (
      e,
      missing-nil rs scores
          (ap (λ b. if b then missing rs scores else r ∷ missing rs scores) (sym e) ∙ h),
    )
    | inr e ↦
        let wrong : r ∷ missing rs scores ≡ [] =
          ap (λ b. if b then missing rs scores else r ∷ missing rs scores) (sym e) ∙ h in
        cc
  ]

  -- What the result of `score_with` says of a market that is scored.
  abbrev Fits : Market F → ScoringLens F → Scores F → List String → Outcome F → Type 0
  Fits market lens scores lacking (scored s) =
      (lacking ≡ [])
      × All (Meets market) lens.filters
      × (s.market ≡ market)
      × (s.opportunity_score ≡ compute_opportunity_score scores lens.weights)
  Fits market lens scores lacking missing_signals = Unit
  Fits market lens scores lacking filter_not_met = Unit

  score_with-Fits :
      (market : Market F) (lens : ScoringLens F) (scores : Scores F) (lacking : List String)
      → Ensures (Fits market lens scores lacking) (score_with market lens scores lacking)
  unfolding score_with
  score_with-Fits market lens scores (r ∷ rs) = tt
  score_with-Fits market lens scores [] = elim (Result-cases (check_filters market lens.filters)) [
    | inr (x, e) ↦ rw e tt
    | inl (met, e) ↦ elim (Bool-cases met) [
      | inl m ↦
          let all = check_filters-Meets market lens.filters (e ∙ ap ok m) in
          rw (e, m) (refl, all, refl, refl)
      | inr m ↦ rw (e, m) tt
    ]
  ]

module _ {F : Type 0} ⦃n : Num F⦄ (laws : IsOrdered F) where
  -- A market that a lens scores has a component score for every required signal and meets every
  -- filter, an optional filter without a value counting as met; its opportunity score is that of its
  -- component scores under the weights of the lens, within 0 and 100.
  pub score_market-Meets :
      (market : Market F) (lens : ScoringLens F) (s : ScoredMarket F)
      → score_market market lens ≡ ok (scored s)
      → (scores : Scores F) × (extract_component_scores market.signals lens ≡ ok scores)
        × All (λ r. has_key r scores ≡ true) lens.required_signals
        × All (Meets market) lens.filters
        × (s.market ≡ market)
        × (s.opportunity_score ≡ compute_opportunity_score scores lens.weights)
        × InRange s.opportunity_score
  unfolding score_market compute_opportunity_score
  score_market-Meets market lens s h =
      let (scores, e, g) = >>=-inv (extract_component_scores market.signals lens) _ h in
      let lacking = missing lens.required_signals scores in
      let (none_missing, meets, same, opportunity) =
        Ensures-elim (Fits market lens scores lacking) (score_with market lens scores lacking)
          (score_with-Fits market lens scores lacking) g in
      (
        scores,
        e,
        missing-nil lens.required_signals scores none_missing,
        meets,
        same,
        opportunity,
        subst InRange (sym opportunity) (clamp100-InRange laws _),
      )
