-- ===== src/Lenses.antt =====
-- src/domain/lenses.py: the lenses, which weigh the component scores and filter the markets. The
-- texts that describe a lens are left out.
pub mod Entities
pub mod Scoring
pub mod Ranking
pub mod Accepted
pub mod Projection
pub mod Strategies
mod Projected
mod Tests
use whidby.Prelude.{
  ℕ, ◌*◌, Bool, true, false, List, [], ◌∷◌, Option, none, some, String, str_eq, if◌then◌else◌,
  filterb,
}
use whidby.Num.Order.{Num, decimal, of_int}

-- What a filter compares: a float or a bool.
pub data Scalar (F : Type 0) : Type 0 where
  float : F → Scalar F
  flag : Bool → Scalar F

pub record SignalFilter (F : Type 0) : Type 0 where
  pub signal : String
  pub operator : String
  pub value : Scalar F
  pub required : Bool

pub record ScoringLens (F : Type 0) : Type 0 where
  pub lens_id : String
  pub weights : List (String × F)
  pub filters : List (SignalFilter F)
  pub required_signals : List String
  pub sort_key : String
  pub sort_descending : Bool
  pub phase : String

module _ {F : Type 0} ⦃n : Num F⦄ where
  abbrev at_weight : String → ℕ → String × F
  at_weight name hundredths = (name, n.decimal (hundredths * 100))

  abbrev where_signal : String → String → Scalar F → SignalFilter F
  where_signal signal operator value = record {
    signal = signal;
    operator = operator;
    value = value;
    required = false;
  }

  abbrev launch_lens : String → List (String × F) → List String → ScoringLens F
  launch_lens name weights required = record {
    lens_id = name;
    weights = weights;
    filters = [];
    required_signals = required;
    sort_key = "opportunity";
    sort_descending = true;
    phase = "launch";
  }

  unfoldable pub balanced : ScoringLens F
  balanced =
      launch_lens "balanced"
        (at_weight "demand" 25
          ∷ at_weight "organic_competition" 15
          ∷ at_weight "local_competition" 20
          ∷ at_weight "monetization" 20
          ∷ at_weight "ai_resilience" 15
          ∷ [])
        ("demand" ∷ "organic_competition" ∷ [])

  unfoldable pub easy_win : ScoringLens F
  easy_win =
      launch_lens "easy_win"
        (at_weight "demand" 20
          ∷ at_weight "organic_competition" 25
          ∷ at_weight "local_competition" 20
          ∷ at_weight "monetization" 10
          ∷ at_weight "ai_resilience" 10
          ∷ at_weight "site_quality_gap" 15
          ∷ [])
        ("demand" ∷ "organic_competition" ∷ [])

  unfoldable pub cash_cow : ScoringLens F
  cash_cow =
      record (launch_lens "cash_cow"
        (at_weight "demand" 10
          ∷ at_weight "organic_competition" 10
          ∷ at_weight "local_competition" 10
          ∷ at_weight "monetization" 35
          ∷ at_weight "ai_resilience" 10
          ∷ at_weight "acv_estimate" 25
          ∷ [])
        ("monetization" ∷ [])) {
          filters = where_signal "acv_estimate" ">" (float (of_int 3000)) ∷ [];
          sort_key = "revenue_potential";
          phase = "phase_2";
        }

  unfoldable pub gbp_blitz : ScoringLens F
  gbp_blitz =
      record (launch_lens "gbp_blitz"
        (at_weight "demand" 15
          ∷ at_weight "organic_competition" 10
          ∷ at_weight "local_competition" 30
          ∷ at_weight "monetization" 10
          ∷ at_weight "ai_resilience" 5
          ∷ at_weight "gbp" 30
          ∷ [])
        ("local_competition" ∷ "gbp" ∷ [])) {
          filters = where_signal "avg_reviews" "<" (float (of_int 30)) ∷ [];
        }

  unfoldable pub ai_proof : ScoringLens F
  ai_proof =
      record (launch_lens "ai_proof"
        (at_weight "demand" 15
          ∷ at_weight "organic_competition" 15
          ∷ at_weight "local_competition" 10
          ∷ at_weight "monetization" 15
          ∷ at_weight "ai_resilience" 35
          ∷ at_weight "gbp" 10
          ∷ [])
        ("ai_resilience" ∷ [])) {
          filters = where_signal "aio_trigger_rate" "<" (float (decimal 1_000)) ∷ [];
          phase = "global_modifier";
        }

  unfoldable pub keyword_hijack : ScoringLens F
  keyword_hijack =
      record (launch_lens "keyword_hijack"
        (at_weight "demand" 45
          ∷ at_weight "monetization" 30
          ∷ at_weight "commercial_intent" 25
          ∷ [])
        ("demand" ∷ "monetization" ∷ "gbp" ∷ [])) {
          filters =
              record (where_signal "search_volume_monthly" ">=" (float (of_int 200))) {
                required = true;
              }
              ∷ record (where_signal "local_pack_present" "=" (flag true)) { required = true }
              ∷ record (where_signal "exact_match_name_taken" "=" (flag false)) { required = true }
              ∷ [];
        }

  unfoldable pub blue_ocean : ScoringLens F
  blue_ocean =
      record (launch_lens "blue_ocean"
        (at_weight "demand" 15
          ∷ at_weight "organic_competition" 20
          ∷ at_weight "local_competition" 10
          ∷ at_weight "monetization" 10
          ∷ at_weight "ai_resilience" 5
          ∷ at_weight "establishment_growth" 25
          ∷ at_weight "site_quality_gap" 15
          ∷ [])
        ("organic_competition" ∷ "establishment_growth" ∷ [])) {
          filters = where_signal "establishment_growth" ">" (float (decimal 2_000)) ∷ [];
          phase = "legacy";
        }

  abbrev city_weights : List (String × F)
  city_weights =
      at_weight "demand" 20
      ∷ at_weight "organic_competition" 20
      ∷ at_weight "local_competition" 15
      ∷ at_weight "monetization" 20
      ∷ at_weight "ai_resilience" 10
      ∷ at_weight "gbp" 15
      ∷ []

  unfoldable pub portfolio_builder : ScoringLens F
  portfolio_builder =
      record (launch_lens "portfolio_builder" city_weights
        ("demand" ∷ "organic_competition" ∷ [])) { sort_key = "complementarity"; phase = "legacy" }

  unfoldable pub expand_conquer : ScoringLens F
  expand_conquer =
      record (launch_lens "expand_conquer" city_weights ("demand" ∷ "organic_competition" ∷ [])) {
        sort_key = "similarity";
      }

  unfoldable pub seasonal_arbitrage : ScoringLens F
  seasonal_arbitrage =
      record (launch_lens "seasonal_arbitrage"
        (at_weight "demand" 10
          ∷ at_weight "organic_competition" 25
          ∷ at_weight "local_competition" 15
          ∷ at_weight "monetization" 15
          ∷ at_weight "ai_resilience" 5
          ∷ at_weight "seasonal_timing" 30
          ∷ [])
        ("organic_competition" ∷ "seasonal_timing" ∷ [])) {
          filters = where_signal "months_to_peak" ">" (float (of_int 3)) ∷ [];
          sort_key = "timing_advantage";
          phase = "legacy";
        }

  -- `LENS_REGISTRY`, whose keys are the ids of its lenses.
  unfoldable pub lens_registry : List (ScoringLens F)
  unfolding balanced easy_win cash_cow gbp_blitz ai_proof keyword_hijack blue_ocean
      portfolio_builder expand_conquer seasonal_arbitrage
  lens_registry =
      balanced ∷ easy_win ∷ cash_cow ∷ gbp_blitz ∷ ai_proof ∷ keyword_hijack ∷ blue_ocean
      ∷ portfolio_builder ∷ expand_conquer ∷ seasonal_arbitrage ∷ []

  abbrev pub find_lens : String → List (ScoringLens F) → Option (ScoringLens F)
  find_lens name [] = none
  find_lens name (l ∷ ls) = if str_eq l.lens_id name then some l else find_lens name ls

  unfoldable pub get_lens : String → ScoringLens F
  unfolding lens_registry
  get_lens name = elim (find_lens name lens_registry) [ none ↦ balanced | some l ↦ l ]

  unfoldable pub available_lenses : List (ScoringLens F)
  unfolding lens_registry
  available_lenses = filterb (λ l. str_eq l.phase "launch") lens_registry

unfoldable pub is_discoverable_lens : (F : Type 0) ⦃n : Num F⦄ → String → Bool
unfolding lens_registry
is_discoverable_lens F name = elim (find_lens {F = F} name lens_registry) [
  | none ↦ false
  | some l ↦ str_eq l.phase "launch"
]
