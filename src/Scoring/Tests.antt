-- ===== src/Scoring/Tests.antt =====
-- Two metros, their reports, and the theorems of this folder at them.
use whidby.Prelude.{
  Elem, ℕ, ◌≡◌, ◌↔◌, refl, true, List, [], ◌∷◌, none, some, ok, inl, inr, arith, String, eq_iff,
}
use whidby.Num.Order.{◌≼◌, ◌≺◌}
use whidby.Num.Fixed.{ℤ, pos, fixed_num, fixed-IsOrdered}
use whidby.Signals.{Signals, number, boolean, text, mapping, end, entry, codes, get, update}
use whidby.Signals.Laws.{or_else}
use whidby.Scoring.Normalization.{percentile_rank, clamp100, scale, inverse_scale}
use whidby.Scoring.Competition.{
  DemandInputs, compute_demand_score, compute_organic_competition_score, LocalInputs,
  compute_local_competition_score,
}
use whidby.Scoring.Market.{
  ResilienceInputs, compute_ai_resilience_score, compute_monetization_score, compute_gbp_score,
}
use whidby.Scoring.Composite.{Scores, score_of, compute_opportunity_score}
use whidby.Scoring.Confidence.{very_low_volume, high_aio_exposure, compute_confidence}
use whidby.Scoring.Strategy.{resolve_strategy_weights}
use whidby.Scoring.Engine.{ScoreReport, flatten_signal_shape, compute_scores, compute_batch_scores}
use whidby.Scoring.Bounds.{InRange, percentile_rank-InRange}
use whidby.Scoring.Monotone.{percentile_rank_mono}
use whidby.Scoring.Gates.{opportunity-caps}
use whidby.Scoring.Opportunity.{opportunity_mono, opportunity_skip}
use whidby.Scoring.Flags.{confidence_anti}
use whidby.Scoring.Penalties.{Concerns, flags_iff}
use whidby.Scoring.Profiles.{NonNegative, resolve-NonNegative}
use whidby.Scoring.Report.{ReportInRange, compute_scores-InRange, compute_scores-caps}
use whidby.Scoring.Batch.{in_block, get-flatten_signal_shape}
use whidby.Scoring.Directions.{
  compute_demand_score_mono, compute_organic_competition_score_mono,
  compute_local_competition_score_mono, compute_ai_resilience_score_mono,
}

program : Unit {0}
unfolding compute_scores compute_demand_score compute_local_competition_score
    compute_monetization_score compute_ai_resilience_score compute_gbp_score compute_confidence
    clamp100 compute_organic_competition_score compute_opportunity_score percentile_rank
    inverse_scale scale get update flatten_signal_shape resolve_strategy_weights
program = tt

-- "phoenix": a strong market; "tiny": hardly any demand and many AI overviews.
abbrev phoenix : Signals ℤ
phoenix =
    entry "demand"
      (mapping (
        entry "effective_search_volume" (number (pos 24_000_000)) (
          entry "avg_cpc" (number (pos 80_000)) (
            entry "volume_breadth" (number (pos 8000))
              (entry "transactional_ratio" (number (pos 6000)) end)))))
      (entry "local_competition"
        (mapping (
          entry "local_pack_present" (boolean true) (
            entry "local_pack_position" (number (pos 20_000))
              (entry "local_pack_review_count_avg" (number (pos 400_000)) end))))
        (entry "avg_top5_da" (number (pos 250_000))
          (entry "niche_type" (text (codes " Local_Service ")) end)))

abbrev tiny : Signals ℤ
tiny = entry "effective_search_volume" (number (pos 100_000)) (
    entry "avg_cpc" (number (pos 100)) (
      entry "aio_trigger_rate" (number (pos 4500)) (
        entry "niche_type" (text (codes "informational"))
          (entry "total_search_volume" (number (pos 100_000)) end))))

-- "phoenix" with a weaker pack, more volume, weaker organic results and fewer AI overviews.
abbrev weaker : Signals ℤ
weaker = entry "effective_search_volume" (number (pos 30_000_000)) (
    entry "avg_cpc" (number (pos 90_000)) (
      entry "volume_breadth" (number (pos 8000)) (
        entry "transactional_ratio" (number (pos 7000)) (
          entry "local_pack_present" (boolean true) (
            entry "local_pack_review_count_avg" (number (pos 100_000))
              (entry "avg_top5_da" (number (pos 150_000)) end))))))

abbrev cohort : List (Signals ℤ)
cohort = phoenix ∷ tiny ∷ []

abbrev phoenix_report : ScoreReport ℤ
phoenix_report = record {
  demand = pos 996_000;
  organic_competition = pos 504_190;
  local_competition = pos 940_000;
  monetization = pos 84_455;
  ai_resilience = pos 780_000;
  gbp = pos 500_000;
  opportunity = pos 400_000;
  confidence = record { score = pos 1_000_000; flags = [] };
  resolved_weights = some (record { organic = pos 800; local = pos 2700 });
}

abbrev tiny_report : ScoreReport ℤ
tiny_report = record {
  demand = pos 0;
  organic_competition = pos 475_000;
  local_competition = pos 750_000;
  monetization = pos 0;
  ai_resilience = pos 140_000;
  gbp = pos 500_000;
  opportunity = pos 200_000;
  confidence = record { score = pos 750_000; flags = very_low_volume ∷ high_aio_exposure ∷ [] };
  resolved_weights = some (record { organic = pos 2500; local = pos 1000 });
}

phoenix_scored : compute_scores phoenix cohort (codes "auto") none ≡ ok phoenix_report
unfolding program
phoenix_scored = refl

tiny_scored : compute_scores tiny cohort (codes "auto") none ≡ ok tiny_report
unfolding program
tiny_scored = refl

compute_scores-InRange_example : ReportInRange phoenix_report
compute_scores-InRange_example =
    compute_scores-InRange fixed-IsOrdered phoenix cohort (codes "auto") none phoenix_scored

-- The monetization of "phoenix" is below 15, and the demand of "tiny" below 5.
compute_scores-caps_example :
    (pos 84_455 ≺ pos 50_000 → pos 400_000 ≼ pos 200_000)
    × (pos 84_455 ≺ pos 150_000 → pos 400_000 ≼ pos 400_000)
    × (pos 780_000 ≺ pos 200_000 → pos 400_000 ≼ pos 500_000)
compute_scores-caps_example =
    compute_scores-caps fixed-IsOrdered phoenix cohort (codes "auto") none (pos 84_455)
      phoenix_scored (inr (inr (inr (inl refl))))

batch_scored :
    compute_batch_scores cohort (codes "auto") none ≡ ok (phoenix_report ∷ tiny_report ∷ [])
unfolding compute_batch_scores program
batch_scored = refl

abbrev low_scores : Scores ℤ
low_scores = ("demand", pos 300_000) ∷ ("monetization", pos 40_000) ∷ []

abbrev high_scores : Scores ℤ
high_scores = ("demand", pos 500_000) ∷ ("monetization", pos 900_000) ∷ []

abbrev two_weights : List (String × ℤ)
two_weights = ("demand", pos 6000) ∷ ("monetization", pos 4000) ∷ []

opportunity_capped :
    (pos 40_000 ≺ pos 50_000 → compute_opportunity_score low_scores two_weights ≼ pos 200_000)
    × (pos 40_000 ≺ pos 150_000 → compute_opportunity_score low_scores two_weights ≼ pos 400_000)
    × (◌≡◌ {A = String} "monetization" "ai_resilience"
        → pos 40_000 ≺ pos 200_000
        → compute_opportunity_score low_scores two_weights ≼ pos 500_000)
unfolding score_of
opportunity_capped =
    opportunity-caps fixed-IsOrdered low_scores two_weights "monetization" (pos 40_000)
      (inr (inr (inr (inl refl)))) refl

opportunity_mono_example :
    compute_opportunity_score low_scores two_weights
    ≼ compute_opportunity_score high_scores two_weights
opportunity_mono_example =
    opportunity_mono fixed-IsOrdered low_scores high_scores two_weights
      (refl, refl, (refl, refl, tt)) (refl, (refl, tt))

opportunity_without_component :
    compute_opportunity_score (("gbp", pos 0) ∷ low_scores) two_weights
    ≡ compute_opportunity_score low_scores two_weights
opportunity_without_component =
    opportunity_skip "gbp" (pos 0) low_scores two_weights
      (λ m. ground (
        arith,
        eq_iff "gbp" "demand",
        eq_iff "gbp" "organic_competition",
        eq_iff "gbp" "local_competition",
        eq_iff "gbp" "monetization",
        eq_iff "gbp" "ai_resilience",
      ))
      (λ m. ground (arith, eq_iff "gbp" "demand", eq_iff "gbp" "monetization"))

higher_percentile :
    percentile_rank (pos 5) (pos 1 ∷ pos 9 ∷ pos 4 ∷ [])
    ≼ percentile_rank (pos 9) (pos 1 ∷ pos 9 ∷ pos 4 ∷ [])
higher_percentile =
    percentile_rank_mono fixed-IsOrdered (pos 5) (pos 9) (pos 1 ∷ pos 9 ∷ pos 4 ∷ []) refl

percentile_in_range : InRange (percentile_rank (pos 5) (pos 1 ∷ pos 9 ∷ pos 4 ∷ []))
percentile_in_range = percentile_rank-InRange fixed-IsOrdered (pos 5) (pos 1 ∷ pos 9 ∷ pos 4 ∷ [])

phoenix_weights : NonNegative (record { organic = pos 800; local = pos 2700 })
unfolding program
phoenix_weights =
    resolve-NonNegative fixed-IsOrdered (codes " Auto") (some (flatten_signal_shape phoenix)) refl

confidence_anti_example :
    (pos 750_000 ≼ pos 1_000_000) × InRange (pos 1_000_000) × InRange (pos 750_000)
unfolding program
confidence_anti_example =
    confidence_anti fixed-IsOrdered weaker tiny (record { score = pos 1_000_000; flags = [] })
      (record { score = pos 750_000; flags = very_low_volume ∷ high_aio_exposure ∷ [] }) refl refl
      (λ f m. absurd m)

flags_iff_example :
    Elem very_low_volume (very_low_volume ∷ high_aio_exposure ∷ []) ↔ Concerns tiny very_low_volume
unfolding program
flags_iff_example =
    flags_iff tiny
      (record { score = pos 750_000; flags = very_low_volume ∷ high_aio_exposure ∷ [] })
      very_low_volume refl

get-flatten_signal_shape_example :
    get "avg_cpc" (flatten_signal_shape phoenix)
    ≡ or_else (in_block "ai_resilience" "avg_cpc" phoenix) (
        or_else (in_block "monetization" "avg_cpc" phoenix) (
          or_else (in_block "local_competition" "avg_cpc" phoenix) (
            or_else
              (in_block "organic_competition" "avg_cpc" phoenix)
              (or_else (in_block "demand" "avg_cpc" phoenix) (get "avg_cpc" phoenix)))))
unfolding program
get-flatten_signal_shape_example =
    get-flatten_signal_shape "avg_cpc" phoenix
      ((refl, (refl, (refl, (refl, tt)))), (tt, ((refl, (refl, (refl, tt))), (tt, (tt, tt)))))

-- The readings of the two markets that the monotonicity theorems compare.
abbrev demand_tiny : DemandInputs ℤ
demand_tiny = record {
  volumes = pos 100_000 ∷ pos 30_000_000 ∷ [];
  volume = pos 100_000;
  avg_cpc = pos 100;
  volume_breadth = pos 0;
  transactional_ratio = pos 0;
}

abbrev demand_weaker : DemandInputs ℤ
demand_weaker = record {
  volumes = pos 100_000 ∷ pos 30_000_000 ∷ [];
  volume = pos 30_000_000;
  avg_cpc = pos 90_000;
  volume_breadth = pos 8000;
  transactional_ratio = pos 7000;
}

demand_follows_volume : pos 0 ≼ pos 1_000_000
unfolding program
demand_follows_volume =
    compute_demand_score_mono fixed-IsOrdered tiny weaker (tiny ∷ weaker ∷ []) demand_tiny
      demand_weaker refl refl
      (record {
        volumes = refl;
        volume = refl;
        paid = refl;
        avg_cpc = refl;
        volume_breadth = refl;
        transactional_ratio = refl;
      })
      refl refl

weaker_organic_results :
    compute_organic_competition_score phoenix ≼ compute_organic_competition_score weaker
unfolding program
weaker_organic_results =
    compute_organic_competition_score_mono fixed-IsOrdered phoenix weaker (record {
      avg_top5_da = refl;
      local_biz_count = refl;
      lighthouse = refl;
      schema_adoption_rate = refl;
      title_keyword_match_rate = refl;
      aggregator_count = refl;
    })

abbrev pack : ℕ → LocalInputs ℤ
pack reviews = record {
  review_count = pos reviews;
  review_velocity = pos 0;
  gbp_completeness = pos 0;
  gbp_photo_count = pos 0;
  gbp_posting_activity = pos 0;
}

weaker_local_results : pos 940_000 ≼ pos 985_000
unfolding program
weaker_local_results =
    compute_local_competition_score_mono fixed-IsOrdered (flatten_signal_shape phoenix) weaker
      (pack 400_000) (pack 100_000) refl refl refl refl
      (record {
        review_count = refl;
        review_velocity = refl;
        gbp_completeness = refl;
        gbp_photo_count = refl;
        gbp_posting_activity = refl;
      })
      refl refl

abbrev resilience : ℕ → ResilienceInputs ℤ
resilience aio = record {
  aio_trigger_rate = pos aio;
  transactional_ratio = pos 0;
  is_informational = true;
  local_fulfillment_required = pos 10_000;
  paa_density = pos 0;
}

abbrev informational : Signals ℤ
informational = entry "niche_type" (text (codes "Informational")) end

informational_resilience : pos 140_000 ≼ pos 600_000
unfolding program
informational_resilience =
    compute_ai_resilience_score_mono fixed-IsOrdered tiny informational (resilience 4500)
      (resilience 0) refl refl
      (record {
        is_informational = refl;
        aio_trigger_rate = refl;
        transactional_ratio = refl;
        local_fulfillment_required = refl;
        paa_density = refl;
      })
      refl refl
