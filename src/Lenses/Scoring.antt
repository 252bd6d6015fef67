-- ===== src/Lenses/Scoring.antt =====
-- src/domain/scoring.py: a lens applied to the component scores of a market, and the ranking of a
-- batch. The two errors that the batch catches are results of their own; `raise` is any other
-- exception. The keys of a lens, which the code reads from a set, are read in the order of the lens.
use whidby.Prelude.{
  length, ℕ, suc, Bool, true, false, not, ◌&&◌, ◌||◌, List, [], ◌∷◌, ◌++◌, map, Option, none, some,
  String, str_eq, if◌then◌else◌, Result, ok, raise, ◌>>=◌, value_error,
}
use whidby.Num.Order.{Num, decimal, of_int, le_num, lt_num, ◌⊗◌}
use whidby.Signals.{
  Value, none_value, number, boolean, text, items, mapping, Signals, end, entry, get, float_of,
}
use whidby.Scoring.Composite.{Scores, score_or, compute_opportunity_score}
use whidby.Lenses.Entities.{Service, Market, ScoredMarket}
use whidby.Lenses.{Scalar, float, flag, SignalFilter, ScoringLens}

-- How `score_market` ends, unless it raises another exception.
pub data Outcome (F : Type 0) : Type 0 where
  scored : ScoredMarket F → Outcome F
  missing_signals : Outcome F
  filter_not_met : Outcome F

abbrev pub number_or_none : {F : Type 0} → Option F → Option (Value F)
number_or_none none = none
number_or_none (some x) = some (number x)

-- `getattr(service, name)`, unless it is `None` or there is none
unfoldable pub service_attribute : {F : Type 0} → Service F → String → Option (Value F)
service_attribute s name =
    if str_eq name "acv_estimate"
    then number_or_none s.acv_estimate
    else if str_eq name "ai_resilience_baseline"
    then number_or_none s.ai_resilience_baseline
    else if str_eq name "service_id"
    then some (text s.service_id)
    else if str_eq name "name"
    then some (text s.name)
    else if str_eq name "naics_code"
    then elim (s.naics_code) [ none ↦ none | some t ↦ some (text t) ]
    else if str_eq name "seasonality"
    then (if s.has_seasonality then some (items 1) else none)
    else if str_eq name "fulfillment_type"
    then some (text s.fulfillment_type)
    else if str_eq name "keyword_universe"
    then some (items (length s.keyword_universe))
    else none

abbrev pub has_key : {F : Type 0} → String → Scores F → Bool
has_key name [] = false
has_key name ((k, x) ∷ es) = str_eq k name || has_key name es

-- The ranks, from `i` on
unfoldable pub ranked_from : {F : Type 0} → ℕ → List (ScoredMarket F) → List (ScoredMarket F)
ranked_from i [] = []
ranked_from i (s ∷ ss) = record s { rank = some i } ∷ ranked_from (suc i) ss

module _ {F : Type 0} ⦃n : Num F⦄ where
  -- The score of a bundle, `none` where the loop continues without one.
  unfoldable pub bundle_score : Value F → Result (Option F)
  unfolding get float_of
  bundle_score (mapping bundle) = elim (get "score" bundle) [
    | none ↦ ok none
    | some none_value ↦ ok none
    | some v ↦ float_of v >>= λ x. ok (some x)
  ]
  bundle_score (number x) = ok (some x)
  bundle_score (boolean b) = ok (some (if b then of_int 1 else of_int 0))
  bundle_score _ = ok none

  -- `_extract_component_scores` on the keys that are left.
  unfoldable pub extract_from : Signals F → List String → Result (Scores F)
  unfolding bundle_score get
  extract_from signals [] = ok []
  extract_from signals (key ∷ keys) = do
    score ← elim (get key signals) [ none ↦ ok none | some bundle ↦ bundle_score bundle ]
    scores ← extract_from signals keys
    ok (elim score [ none ↦ scores | some x ↦ (key, x) ∷ scores ])

  unfoldable pub extract_component_scores : Signals F → ScoringLens F → Result (Scores F)
  unfolding extract_from
  extract_component_scores signals lens =
      extract_from signals (map (λ w. w.0) lens.weights ++ lens.required_signals)

  -- `lens.required_signals - set(component_scores.keys())`
  abbrev pub missing : List String → Scores F → List String
  missing [] scores = []
  missing (r ∷ rs) scores = if has_key r scores then missing rs scores else r ∷ missing rs scores

  -- A bool or a number of a bundle.
  abbrev pub plain : Value F → Option (Scalar F)
  plain v = elim v [ boolean b ↦ some (flag b) | number x ↦ some (float x) | _ ↦ none ]

  -- The loop over `market.signals.values()`.
  unfoldable pub in_bundles : String → Signals F → Option (Scalar F)
  unfolding get
  in_bundles name end = none
  in_bundles name (entry key v rest) =
      let later = in_bundles name rest in
      elim v [
        | mapping bundle ↦ elim (get name bundle) [
          | none ↦ later
          | some w ↦ elim (plain w) [ none ↦ later | some s ↦ some s ]
        ]
        | _ ↦ later
      ]

  -- A bool, or `float(v)`
  unfoldable pub scalar_of : Value F → Result (Option (Scalar F))
  unfolding float_of
  scalar_of (boolean b) = ok (some (flag b))
  scalar_of v = float_of v >>= λ x. ok (some (float x))

  unfoldable pub direct_value : Option (Value F) → Result (Option (Scalar F))
  unfolding scalar_of get
  direct_value none = ok none
  direct_value (some (mapping bundle)) = elim (get "value" bundle) [
    | none ↦ ok none
    | some v ↦ scalar_of v
  ]
  direct_value (some v) = ok (plain v)

  unfoldable pub extract_filter_value : Market F → String → Result (Option (Scalar F))
  unfolding in_bundles service_attribute scalar_of direct_value get
  extract_filter_value market name = elim (in_bundles name market.signals) [
    | some s ↦ ok (some s)
    | none ↦ elim (service_attribute market.service name) [
      | some v ↦ scalar_of v
      | none ↦ direct_value (get name market.signals)
    ]
  ]

  -- A bool is compared as the number 1 or 0.
  abbrev pub as_number : Scalar F → F
  as_number s = elim s [ float x ↦ x | flag b ↦ if b then of_int 1 else of_int 0 ]

  abbrev pub equal_num : F → F → Bool
  equal_num x y = le_num x y && le_num y x

  unfoldable pub evaluate_filter : Scalar F → String → Scalar F → Result Bool
  evaluate_filter value operator threshold =
      let v = as_number value in
      let t = as_number threshold in
      if str_eq operator ">"
      then ok (lt_num t v)
      else if str_eq operator "<"
      then ok (lt_num v t)
      else if str_eq operator ">="
      then ok (le_num t v)
      else if str_eq operator "<="
      then ok (le_num v t)
      else if str_eq operator "="
      then ok (equal_num v t)
      else if str_eq operator "!="
      then ok (not (equal_num v t))
      else raise value_error

  -- A round of `_check_filters` with the value found, before the `rest`.
  unfoldable pub check_filter : SignalFilter F → Option (Scalar F) → Result Bool → Result Bool
  unfolding evaluate_filter
  check_filter f none rest = if f.required then ok false else rest
  check_filter f (some value) rest =
      evaluate_filter value f.operator f.value >>= λ met. if met then rest else ok false

  -- `_check_filters`: whether the filters are met.
  unfoldable pub check_filters : Market F → List (SignalFilter F) → Result Bool
  unfolding extract_filter_value check_filter
  check_filters market [] = ok true
  check_filters market (f ∷ fs) =
      let rest = check_filters market fs in
      extract_filter_value market f.signal >>= λ found. check_filter f found rest

  -- `score_market` with the component scores and the signals that are missing.
  unfoldable pub score_with : Market F → ScoringLens F → Scores F → List String → Result (Outcome F)
  unfolding check_filters compute_opportunity_score score_or
  score_with market lens scores (r ∷ rs) = ok missing_signals
  score_with market lens scores [] = check_filters market lens.filters >>= λ met.
      if met
      then ok (
          scored (record {
            market = market;
            opportunity_score = compute_opportunity_score scores lens.weights;
            lens_id = lens.lens_id;
            rank = none;
            score_breakdown = map (λ w. (w.0, score_or (decimal 0) w.0 scores ⊗ w.1)) lens.weights;
            strategy_evidence = end;
            warnings = [];
          }))
      else ok filter_not_met

  unfoldable pub score_market : Market F → ScoringLens F → Result (Outcome F)
  unfolding extract_component_scores score_with
  score_market market lens = extract_component_scores market.signals lens >>= λ scores.
      score_with market lens scores (missing lens.required_signals scores)

  -- The loop of `score_markets_batch`.
  unfoldable pub score_accepted : List (Market F) → ScoringLens F → Result (List (ScoredMarket F))
  unfolding score_market
  score_accepted [] lens = ok []
  score_accepted (m ∷ ms) lens = do
    outcome ← score_market m lens
    rest ← score_accepted ms lens
    ok (elim outcome [ scored s ↦ s ∷ rest | _ ↦ rest ])

  -- `list.sort`, which keeps the order of equal keys, with `reverse` and without.
  abbrev pub goes_after : Bool → ScoredMarket F → ScoredMarket F → Bool
  goes_after descending s t =
      if descending
      then lt_num s.opportunity_score t.opportunity_score
      else lt_num t.opportunity_score s.opportunity_score

  unfoldable pub insert_scored :
      Bool → ScoredMarket F → List (ScoredMarket F) → List (ScoredMarket F)
  insert_scored descending s [] = s ∷ []
  insert_scored descending s (t ∷ ts) =
      let rest = insert_scored descending s ts in
      if goes_after descending s t then t ∷ rest else s ∷ t ∷ ts

  unfoldable pub sort_scored : Bool → List (ScoredMarket F) → List (ScoredMarket F)
  unfolding insert_scored
  sort_scored descending [] = []
  sort_scored descending (s ∷ ss) = insert_scored descending s (sort_scored descending ss)

  unfoldable pub score_markets_batch :
      List (Market F) → ScoringLens F → Result (List (ScoredMarket F))
  unfolding score_accepted sort_scored ranked_from
  score_markets_batch markets lens =
      score_accepted markets lens >>= λ ss. ok (ranked_from 1 (sort_scored lens.sort_descending ss))
