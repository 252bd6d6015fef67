-- ===== src/Lenses/Tests.antt =====
-- Markets under two lenses: one that is filtered out, one that lacks a signal, and two that are ranked.
use whidby.Prelude.{
  lookup, ℕ, ◌≡◌, refl, true, false, List, [], ◌∷◌, map, none, some, String, Result, ok, raise, All,
}
use mathlib.Core.List.{Permᴰ}
use whidby.Num.Fixed.{ℤ, pos, fixed_num, fixed-IsOrdered}
use whidby.Scoring.Bounds.{InRange}
use whidby.Scoring.Composite.{Scores, compute_opportunity_score}
use whidby.Scoring.Normalization.{clamp100}
use whidby.Signals.{put, codes, str_of, boolean, Signals, number, mapping, entry, end}
use whidby.Lenses.{easy_win, cash_cow, get_lens, balanced, available_lenses, is_discoverable_lens}
use whidby.Lenses.Entities.{City, Market, ScoredMarket}
use whidby.Lenses.Scoring.{
  Outcome, scored, missing_signals, filter_not_met, has_key, extract_component_scores, score_market,
  score_accepted, score_markets_batch,
}
use whidby.Lenses.Projection.{StrategyProjection, stopped, clamp_score}
use whidby.Lenses.Strategies.{project_keyword_hijack, strategy_projections}
use whidby.Lenses.Projected.{strategy_projections-InRange}
use whidby.Lenses.Ranking.{InOrder, RanksFrom, unranked, score_markets_batch-InOrder}
use whidby.Lenses.Accepted.{Meets, score_market-Meets}

program : Unit {0}
unfolding score_markets_batch easy_win cash_cow get_lens available_lenses is_discoverable_lens
    clamp100 strategy_projections put clamp_score
program = tt

abbrev bundle : ℕ → Signals ℤ
bundle score = entry "score" (number (pos score)) end

abbrev city_named : String → City ℤ
city_named name = record {
  city_id = name;
  name = codes name;
  state = none;
  population = none;
  median_income = none;
  homeownership_rate = none;
  housing_age_median = none;
  business_density = [];
  broadband_penetration = none;
  growth_rate = none;
  cbsa_code = none;
  dataforseo_location_codes = [];
  principal_cities = [];
  archetype = none;
  demographics = [];
}

abbrev market : String → ℕ → ℕ → Market ℤ
market name demand value = record {
  city = city_named name;
  service = record {
    service_id = [];
    name = [];
    naics_code = none;
    acv_estimate = some (pos value);
    has_seasonality = false;
    fulfillment_type = [];
    ai_resilience_baseline = none;
    keyword_universe = [];
  };
  signals = entry "demand" (mapping (bundle demand)) (
      entry "organic_competition" (number (pos 600_000))
        (entry "monetization" (mapping (bundle 700_000)) end));
}

abbrev unmeasured : Market ℤ
unmeasured = record (market "tucson" 0 0) { signals = end }

-- 4000 passes the filter of the cash cow, 2000 does not.
abbrev dear : Market ℤ
dear = market "mesa" 300_000 40_000_000

abbrev cheap : Market ℤ
cheap = market "phoenix" 800_000 20_000_000

cheap_filtered : score_market cheap cash_cow ≡ ok filter_not_met
unfolding program
cheap_filtered = refl

unmeasured_missing : score_market unmeasured easy_win ≡ ok missing_signals
unfolding program
unmeasured_missing = refl

abbrev scored_or : ScoredMarket ℤ → Result (Outcome ℤ) → ScoredMarket ℤ
scored_or s r = elim r [ ok o ↦ elim o [ scored t ↦ t | _ ↦ s ] | raise e ↦ s ]

abbrev blank : ScoredMarket ℤ
blank = record {
  market = dear;
  opportunity_score = pos 0;
  lens_id = "";
  rank = none;
  score_breakdown = [];
  strategy_evidence = end;
  warnings = [];
}

abbrev dear_scored : ScoredMarket ℤ
dear_scored = scored_or blank (score_market dear cash_cow)

dear-is_scored : score_market dear cash_cow ≡ ok (scored dear_scored)
unfolding program
dear-is_scored = refl

score_market-Meets_example :
    (scores : Scores ℤ) × (extract_component_scores dear.signals cash_cow ≡ ok scores)
    × All (λ r. has_key r scores ≡ true) (cash_cow {F = ℤ}).required_signals
    × All (Meets dear) (cash_cow {F = ℤ}).filters
    × (dear_scored.market ≡ dear)
    × (dear_scored.opportunity_score ≡ compute_opportunity_score scores (cash_cow {F = ℤ}).weights)
    × InRange dear_scored.opportunity_score
score_market-Meets_example =
    score_market-Meets fixed-IsOrdered dear cash_cow dear_scored dear-is_scored

abbrev or_empty : Result (List (ScoredMarket ℤ)) → List (ScoredMarket ℤ)
or_empty (ok ss) = ss
or_empty (raise e) = []

abbrev batch : List (Market ℤ)
batch = dear ∷ unmeasured ∷ cheap ∷ []

abbrev ranked : List (ScoredMarket ℤ)
ranked = or_empty (score_markets_batch batch easy_win)

batch-is_ranked : score_markets_batch batch easy_win ≡ ok ranked
unfolding program
batch-is_ranked = refl

order : map (λ s. s.market.city.city_id) ranked ≡ "phoenix" ∷ "mesa" ∷ []
unfolding program
order = refl

score_markets_batch-InOrder_example :
    InOrder (easy_win {F = ℤ}).sort_descending ranked
    × RanksFrom 1 ranked
    × (accepted : List (ScoredMarket ℤ)) × (score_accepted batch easy_win ≡ ok accepted)
    × Permᴰ (map unranked ranked) (map unranked accepted)
score_markets_batch-InOrder_example =
    score_markets_batch-InOrder fixed-IsOrdered batch easy_win ranked batch-is_ranked

unknown_lens : get_lens {F = ℤ} "nowhere" ≡ balanced
unfolding program
unknown_lens = refl

launched :
    map (λ l. l.lens_id) (available_lenses {F = ℤ})
    ≡ "balanced" ∷ "easy_win" ∷ "gbp_blitz" ∷ "keyword_hijack" ∷ "expand_conquer" ∷ []
unfolding program
launched = refl

not_launched : is_discoverable_lens ℤ "ai_proof" ≡ false
unfolding program
not_launched = refl

-- Fixed point has four digits, so that rounding to two keeps the number here; all are finite.
abbrev projections : List (String × (Signals ℤ → Result (StrategyProjection ℤ)))
projections = strategy_projections (λ x. x) (λ x. true) (str_of)

abbrev hijack_row : Signals ℤ
hijack_row = entry "search_volume_monthly" (number (pos 3_000_000)) (
    entry "local_pack_present" (boolean true)
      (entry "exact_match_name_taken" (boolean false) (entry "cpc_usd" (number (pos 250_000)) end)))

abbrev projected_or : StrategyProjection ℤ → Result (StrategyProjection ℤ) → StrategyProjection ℤ
projected_or p (ok q) = q
projected_or p (raise e) = p

abbrev hijack : Signals ℤ → Result (StrategyProjection ℤ)
hijack = project_keyword_hijack (λ x. x) (λ x. true)

abbrev hijacked : StrategyProjection ℤ
hijacked =
    projected_or (record { strategy_id = ""; score = pos 0; evidence = end; warnings = [] })
      (hijack hijack_row)

hijack-returns : hijack hijack_row ≡ ok hijacked
unfolding program
hijack-returns = refl

-- 45 of the volume, 15 of the cost per click, 12.5 of the intent
hijack_score : hijacked.score ≡ pos 725_000
unfolding program
hijack_score = refl

hijack-is_listed : lookup "keyword_hijack" projections ≡ some hijack
unfolding program
hijack-is_listed = refl

taken_name :
    hijack (put "exact_match_name_taken" (boolean true) hijack_row)
    ≡ ok (
        stopped "keyword_hijack"
          (entry "exact_match_name_available" (boolean false) end)
          "exact_match_gbp_name_taken")
unfolding program
taken_name = refl

strategy_projections-InRange_example : InRange hijacked.score
strategy_projections-InRange_example =
    strategy_projections-InRange fixed-IsOrdered (λ x. x) (λ x. true) (λ x h. h) str_of
      "keyword_hijack" hijack hijack_row hijacked hijack-is_listed hijack-returns
