-- ===== src/Discovery/Tests.antt =====
-- Two cities and two services: a query with filters, the second page of a query, and a portfolio.
use whidby.Prelude.{
  ℕ, ◌+◌, ◌≤◌, ◌≡◌, refl, true, false, List, [], ◌∷◌, map, none, some, String, Result, ok, raise,
  All, length, value_error,
}
use mathlib.Core.List.{Permᴰ}
use whidby.Num.Fixed.{ℤ, pos, fixed_num, fixed-IsOrdered}
use whidby.Signals.{codes, number, mapping, entry, end}
use whidby.Lenses.{easy_win}
use whidby.Lenses.Entities.{City, Service, Market, ScoredMarket}
use whidby.Lenses.Ranking.{InOrder, RanksFrom, unranked}
use whidby.Discovery.Predicates.{Operand, FieldFilter, atom, list, Atom, evaluate_predicate}
use whidby.Discovery.Predicates as Predicates
use whidby.Discovery.{MarketQuery, Platform, discover, apply_portfolio_ranking}
use whidby.Discovery.Found.{Comes, direction, discover-InOrder}
use whidby.Discovery.Portfolio.{Adjusted, apply_portfolio_ranking-InOrder}

program : Unit {0}
unfolding discover apply_portfolio_ranking easy_win
program = tt

abbrev platform : Platform ℤ
platform = record {
  round_two = λ x. x;
  is_finite = λ x. true;
  value_text = λ v. [];
  operand_text = λ v. [];
}

abbrev city_of : String → City ℤ
city_of name = record {
  city_id = name;
  name = codes name;
  state = none;
  population = none;
  median_income = none;
  homeownership_rate = none;
  housing_age_median = none;
  business_density = [];
  broadband_penetration = none;
  growth_rate = none;
  cbsa_code = none;
  dataforseo_location_codes = [];
  principal_cities = [];
  archetype = none;
  demographics = [];
}

abbrev service_named : String → Service ℤ
service_named name = record {
  service_id = codes name;
  name = codes name;
  naics_code = none;
  acv_estimate = none;
  has_seasonality = false;
  fulfillment_type = codes "physical";
  ai_resilience_baseline = none;
  keyword_universe = [];
}

abbrev market : String → ℕ → String → ℕ → Market ℤ
market city population service demand = record {
  city = record (city_of city) { population = some (pos population) };
  service = service_named service;
  signals = entry "strategy_row" (mapping (entry "demand_strength" (number (pos demand)) end)) end;
}

abbrev store : List (Market ℤ)
store =
    market "mesa" 500 "plumber" 200_000
    ∷ market "tempe" 100 "plumber" 900_000
    ∷ market "mesa" 500 "roofer" 700_000
    ∷ (record (market "yuma" 900 "roofer" 0) { signals = end })
    ∷ []

abbrev large_cities : MarketQuery ℤ
large_cities = record {
  city_filters =
      (record { field = "population"; operator = ">="; value = atom (Predicates.number (pos 300)) })
      ∷ [];
  service_filters = [];
  lens = easy_win;
  portfolio_context = none;
  reference_city = none;
  reference_city_id = none;
  ai_resilience_filter = false;
  limit = 1;
  offset = 1;
}

abbrev or_empty : Result (List (ScoredMarket ℤ)) → List (ScoredMarket ℤ)
or_empty (ok ss) = ss
or_empty (raise e) = []

abbrev page : List (ScoredMarket ℤ)
page = or_empty (discover platform large_cities store)

returned : discover platform large_cities store ≡ ok page
unfolding program
returned = refl

-- The second of the two markets that are left.
services_of_page : map (λ s. s.market.service.name) page ≡ codes "plumber" ∷ []
unfolding program
services_of_page = refl

discover-InOrder_example :
    All (λ s. Comes platform large_cities store s.market) page
    × InOrder (direction platform large_cities) page
    × RanksFrom (1 + 1) page
    × (length page ≤ 1)
discover-InOrder_example =
    discover-InOrder platform fixed-IsOrdered large_cities store page returned

unknown_operator :
    discover platform
      (record large_cities {
        city_filters =
            (record { field = "name"; operator = "~"; value = atom (Predicates.text []) }) ∷ [];
      })
      store
    ≡ raise value_error
unfolding program
unknown_operator = refl

abbrev holding : Market ℤ
holding = market "tempe" 100 "roofer" 0

abbrev ranked : List (ScoredMarket ℤ)
ranked =
    or_empty
      (discover platform (record large_cities { city_filters = []; limit = 9; offset = 0 }) store)

-- The bonus of the city moves tempe up by five and the roofers go down by ten.
scores_adjusted :
    map (λ s. s.opportunity_score) (apply_portfolio_ranking ranked (holding ∷ []))
    ≡ pos 390_700 ∷ pos 215_700 ∷ pos 205_000 ∷ []
unfolding program
scores_adjusted = refl

apply_portfolio_ranking-InOrder_example :
    InOrder true (apply_portfolio_ranking ranked (holding ∷ []))
    × RanksFrom 1 (apply_portfolio_ranking ranked (holding ∷ []))
    × (new : List (ScoredMarket ℤ)) × Permᴰ
        (map unranked (apply_portfolio_ranking ranked (holding ∷ [])))
        (map unranked new)
    × Adjusted (holding ∷ []) ranked new
apply_portfolio_ranking-InOrder_example =
    apply_portfolio_ranking-InOrder fixed-IsOrdered ranked holding []
