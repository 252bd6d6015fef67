-- ===== src/Lenses/Entities.antt =====
-- src/domain/entities.py: cities, services and markets. Of a field that holds a list, the contents
-- are texts or numbers; a dict has texts as keys; of the seasonality of a service it is known whether
-- there is one.
use whidby.Prelude.{ℕ, Bool, List, Option, String}
use whidby.Signals.{Signals}

pub record City (F : Type 0) : Type 0 where
  pub city_id : String
  pub name : List ℕ
  pub state : Option (List ℕ)
  pub population : Option F
  pub median_income : Option F
  pub homeownership_rate : Option F
  pub housing_age_median : Option F
  pub business_density : List (List ℕ × F)
  pub broadband_penetration : Option F
  pub growth_rate : Option F
  pub cbsa_code : Option (List ℕ)
  pub dataforseo_location_codes : List F
  pub principal_cities : List (List ℕ)
  pub archetype : Option (List ℕ)
  pub demographics : List (List ℕ × F)

pub record Service (F : Type 0) : Type 0 where
  pub service_id : List ℕ
  pub name : List ℕ
  pub naics_code : Option (List ℕ)
  pub acv_estimate : Option F
  pub has_seasonality : Bool
  pub fulfillment_type : List ℕ
  pub ai_resilience_baseline : Option F
  pub keyword_universe : List (List ℕ)

pub record Market (F : Type 0) : Type 0 where
  pub city : City F
  pub service : Service F
  pub signals : Signals F

pub record ScoredMarket (F : Type 0) : Type 0 where
  pub market : Market F
  pub opportunity_score : F
  pub lens_id : String
  pub rank : Option ℕ
  pub score_breakdown : List (String × F)
  pub strategy_evidence : Signals F
  pub warnings : List String
