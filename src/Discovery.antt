-- ===== src/Discovery.antt =====
-- src/domain/services/discovery_service.py and src/domain/queries.py: the markets of a store that pass
-- the filters of a query, scored, ranked and cut to a page. `markets` is what the store returned;
-- `Platform` has `round(x, 2)`, `math.isfinite` and `str`. An offset and a limit are not negative.
pub mod Predicates
mod Lists
mod Ranked
mod Found
mod Portfolio
mod Tests
use whidby.Prelude.{
  ℕ, Bool, true, false, not, ◌||◌, List, [], ◌∷◌, ◌++◌, map, Option, none, some, String, str_eq,
  if◌then◌else◌, Result, ok, raise, ◌>>=◌, type_error, value_error, lookup, has, keys, take, drop,
}
use whidby.Num.Order.{Num, of_int, ◌⊕◌, ◌⊖◌}
use whidby.Signals.{Value, mapping, text_eq, Signals, get}
use whidby.Lenses.{ScoringLens}
use whidby.Lenses.Entities.{City, Service, Market, ScoredMarket}
use whidby.Lenses.Scoring.{score_markets_batch, sort_scored, ranked_from}
use whidby.Lenses.Projection.{StrategyProjection}
use whidby.Lenses.Strategies.{strategy_projections, warns_of_ai_resilience}
use whidby.Discovery.Predicates.{Operand, FieldFilter, passes_city_filters, passes_service_filters}

pub record MarketQuery (F : Type 0) : Type 0 where
  pub city_filters : List (FieldFilter F)
  pub service_filters : List (FieldFilter F)
  pub lens : ScoringLens F
  pub portfolio_context : Option (List (Market F))
  pub reference_city : Option (City F)
  pub reference_city_id : Option String
  pub ai_resilience_filter : Bool
  pub limit : ℕ
  pub offset : ℕ

-- The standard library as the code uses it.
pub record Platform (F : Type 0) : Type 0 where
  pub round_two : F → F
  pub is_finite : F → Bool
  pub value_text : Value F → List ℕ
  pub operand_text : Operand F → List ℕ

abbrev pub is_empty {ℓ} : {A : Type ℓ} → List A → Bool
is_empty [] = true
is_empty (x ∷ xs) = false

abbrev pub has_city_filters : {F : Type 0} → MarketQuery F → Bool
has_city_filters query = not (is_empty query.city_filters)

abbrev pub has_service_filters : {F : Type 0} → MarketQuery F → Bool
has_service_filters query = not (is_empty query.service_filters)

abbrev is_some {ℓ} : {A : Type ℓ} → Option A → Bool
is_some none = false
is_some (some a) = true

abbrev pub is_portfolio_query : {F : Type 0} → MarketQuery F → Bool
is_portfolio_query query = is_some query.portfolio_context

abbrev pub is_expansion_query : {F : Type 0} → MarketQuery F → Bool
is_expansion_query query = is_some query.reference_city || is_some query.reference_city_id

-- `[m for m in markets if passes(m)]`, where the test may raise.
unfoldable pub passing {ℓ} : {A : Type ℓ} → (A → Result Bool) → List A → Result (List A)
passing test [] = ok []
passing test (m ∷ ms) = do
  passes ← test m
  rest ← passing test ms
  ok (if passes then m ∷ rest else rest)

-- The loop, unless there is nothing to test.
unfoldable pub passing_if {ℓ} : {A : Type ℓ} → Bool → (A → Result Bool) → List A → Result (List A)
unfolding passing
passing_if tested test ms = if tested then passing test ms else ok ms

-- A text in a set of texts.
abbrev pub has_codes : List ℕ → List (List ℕ) → Bool
has_codes t [] = false
has_codes t (u ∷ us) = text_eq u t || has_codes t us

module _ {F : Type 0} ⦃n : Num F⦄ (platform : Platform F) where
  unfoldable pub projected_market :
      Bool → Market F → Signals F → StrategyProjection F → ScoredMarket F
  unfolding warns_of_ai_resilience
  projected_market ai_resilience_filter market row p = record {
    market = market;
    opportunity_score = p.score;
    lens_id = p.strategy_id;
    rank = none;
    score_breakdown = ("projection_score", p.score) ∷ [];
    strategy_evidence = p.evidence;
    warnings =
        p.warnings
        ++ (if ai_resilience_filter
            then (if warns_of_ai_resilience platform.round_two platform.is_finite row
                then "ai_resilience_risk" ∷ []
                else [])
            else []);
  }

  -- The two exceptions that are caught when a row is projected.
  unfoldable pub projected_or_none :
      Bool → Market F → Signals F → Result (StrategyProjection F) → Result (Option (ScoredMarket F))
  unfolding projected_market
  projected_or_none ai market row (ok p) = ok (some (projected_market ai market row p))
  projected_or_none ai market row (raise type_error) = ok none
  projected_or_none ai market row (raise value_error) = ok none
  projected_or_none ai market row (raise e) = raise e

  -- The projection of the strategy row of a market, if it has one.
  unfoldable pub projected_row :
      Bool
      → Market F
      → (Signals F → Result (StrategyProjection F))
      → Option (Value F)
      → Result (Option (ScoredMarket F))
  unfolding projected_or_none
  projected_row ai market project (some (mapping row)) =
      projected_or_none ai market row (project row)
  projected_row ai market project _ = ok none

  unfoldable pub projected_by :
      Bool
      → Market F
      → Option (Signals F → Result (StrategyProjection F))
      → Result (Option (ScoredMarket F))
  unfolding projected_row get
  projected_by ai market none = ok none
  projected_by ai market (some project) =
      projected_row ai market project (get "strategy_row" market.signals)

  unfoldable pub project_strategy_market :
      String → Bool → Market F → Result (Option (ScoredMarket F))
  unfolding projected_by strategy_projections
  project_strategy_market lens_id ai market = projected_by ai market (
      lookup lens_id
        (strategy_projections platform.round_two platform.is_finite platform.value_text))

  -- The markets that have a projection.
  unfoldable pub project_markets : String → Bool → List (Market F) → Result (List (ScoredMarket F))
  unfolding project_strategy_market
  project_markets lens_id ai [] = ok []
  project_markets lens_id ai (m ∷ ms) = do
    projected ← project_strategy_market lens_id ai m
    rest ← project_markets lens_id ai ms
    ok (elim projected [ none ↦ rest | some s ↦ s ∷ rest ])

  unfoldable pub score_strategy_markets :
      String → Bool → List (Market F) → Result (List (ScoredMarket F))
  unfolding project_markets sort_scored ranked_from
  score_strategy_markets lens_id ai markets =
      project_markets lens_id ai markets >>= λ ss. ok (ranked_from 1 (sort_scored true ss))

module _ {F : Type 0} ⦃n : Num F⦄ where
  -- The bonus for a city of the portfolio, less the penalty for a service of it.
  unfoldable pub portfolio_score : List (Market F) → ScoredMarket F → F
  portfolio_score context s =
      let cities = map (λ m. m.city.city_id) context in
      let services = map (λ m. m.service.service_id) context in
      let bonus = if has s.market.city.city_id cities then of_int 0 ⊕ of_int 5 else of_int 0 in
      s.opportunity_score
      ⊕ (if has_codes s.market.service.service_id services then bonus ⊖ of_int 10 else bonus)

  unfoldable pub adjusted : List (Market F) → ScoredMarket F → ScoredMarket F
  unfolding portfolio_score
  adjusted context s = record s { opportunity_score = portfolio_score context s; rank = none }

  unfoldable pub apply_portfolio_ranking :
      List (ScoredMarket F) → List (Market F) → List (ScoredMarket F)
  unfolding adjusted sort_scored ranked_from
  apply_portfolio_ranking scored [] = scored
  apply_portfolio_ranking scored (m ∷ ms) =
      ranked_from 1 (sort_scored true (map (adjusted (m ∷ ms)) scored))

  -- The ranking of `discover` when there is a portfolio, which may be empty.
  unfoldable pub in_portfolio :
      Option (List (Market F)) → List (ScoredMarket F) → List (ScoredMarket F)
  unfolding apply_portfolio_ranking
  in_portfolio none scored = scored
  in_portfolio (some []) scored = scored
  in_portfolio (some (m ∷ ms)) scored = apply_portfolio_ranking scored (m ∷ ms)

module _ {F : Type 0} ⦃n : Num F⦄ (platform : Platform F) where
  -- The markets that the two loops of filters leave.
  unfoldable pub filter_markets : MarketQuery F → List (Market F) → Result (List (Market F))
  unfolding passing_if passes_city_filters passes_service_filters
  filter_markets query markets =
      passing_if (has_city_filters query)
        (λ m. passes_city_filters platform.operand_text m.city query.city_filters) markets
      >>= passing_if (has_service_filters query)
          (λ m. passes_service_filters platform.operand_text m.service query.service_filters)

  -- `lens_id in _STRATEGY_PROJECTIONS`
  unfoldable pub is_strategy : String → Bool
  unfolding strategy_projections
  is_strategy lens_id =
      has lens_id
        (keys (strategy_projections platform.round_two platform.is_finite platform.value_text))

  -- The scores of the markets that are left, by a projection or by the lens.
  unfoldable pub score_found : MarketQuery F → List (Market F) → Result (List (ScoredMarket F))
  unfolding score_strategy_markets score_markets_batch is_strategy
  score_found query [] = ok []
  score_found query (m ∷ ms) =
      if is_strategy query.lens.lens_id
      then score_strategy_markets platform query.lens.lens_id query.ai_resilience_filter (m ∷ ms)
      else score_markets_batch (m ∷ ms) query.lens

  unfoldable pub discover : MarketQuery F → List (Market F) → Result (List (ScoredMarket F))
  unfolding filter_markets score_found in_portfolio
  discover query markets = do
    found ← filter_markets query markets
    scored ← score_found query found
    ok (take query.limit (drop query.offset (in_portfolio query.portfolio_context scored)))
