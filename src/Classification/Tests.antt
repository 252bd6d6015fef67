-- ===== src/Classification/Tests.antt =====
-- Two metros, and the theorems of this folder at them.
use whidby.Prelude.{◌≤◌, ◌≡◌, refl, true, not, ◌&&◌, ok}
use whidby.Num.Order.{le_num, ◌≼◌}
use whidby.Num.Fixed.{ℤ, pos, fixed_num, fixed-IsOrdered}
use whidby.Signals.{Signals, number, boolean, text, mapping, end, entry, codes, number_get}
use whidby.Scoring.Strategy.{StrategyWeights, resolve_strategy_weights}
use whidby.Classification.{
  moderate, hard, local_pack_vulnerable, compute_difficulty_tier, serp_inputs,
  classify_serp_archetype, classify_ai_exposure,
}
use whidby.Classification.Rules.{
  hardness, exposure, rate_of, is_local_pack, classify-local_pack, classify_ai_exposure_mono,
  compute_difficulty_tier_mono,
}

program : Unit {0}
unfolding resolve_strategy_weights number_get compute_difficulty_tier classify_serp_archetype
    classify_ai_exposure
program = tt

abbrev tulsa : Signals ℤ
tulsa = entry "organic_competition" (mapping (entry "aggregator_count" (number (pos 20_000)) end)) (
    entry "local_competition"
      (mapping (
        entry "local_pack_present" (boolean true)
          (entry "local_pack_review_count_avg" (text (codes "unknown")) end)))
      (entry "ai_resilience" (mapping (entry "aio_trigger_rate" (number (pos 2000)) end)) end))

abbrev boise : Signals ℤ
boise = entry "ai_resilience" (number (pos 9000)) end

tulsa_archetype : (classify_serp_archetype tulsa).0 ≡ local_pack_vulnerable
unfolding program
tulsa_archetype = refl

classify-local_pack_example :
    is_local_pack (classify_serp_archetype tulsa).0
    ≡ (not (le_num (pos 5000) (serp_inputs tulsa).agg_ratio) && (serp_inputs tulsa).has_local_pack)
classify-local_pack_example = classify-local_pack fixed-IsOrdered tulsa

boise_rate : rate_of boise ≼ rate_of tulsa
unfolding program
boise_rate = refl

more_exposed : exposure (classify_ai_exposure boise) ≤ exposure (classify_ai_exposure tulsa)
more_exposed = classify_ai_exposure_mono fixed-IsOrdered boise tulsa boise_rate

abbrev strong : Signals ℤ
strong =
    entry "organic_competition" (number (pos 300_000))
      (entry "local_competition" (number (pos 400_000)) end)

abbrev weak : Signals ℤ
weak =
    entry "organic_competition" (number (pos 500_000))
      (entry "local_competition" (number (pos 650_000)) end)

abbrev balanced_weights : StrategyWeights ℤ
balanced_weights = record { organic = pos 1500; local = pos 2000 }

strong_tier :
    compute_difficulty_tier strong (codes "balanced") boise
    ≡ ok (hard, pos 357_110, balanced_weights)
unfolding program
strong_tier = refl

weak_tier :
    compute_difficulty_tier weak (codes "balanced") boise
    ≡ ok (moderate, pos 585_660, balanced_weights)
unfolding program
weak_tier = refl

weaker_organic :
    number_get "organic_competition" (pos 0) strong ≼ number_get "organic_competition" (pos 0) weak
unfolding program
weaker_organic = refl

weaker_local :
    number_get "local_competition" (pos 0) strong ≼ number_get "local_competition" (pos 0) weak
unfolding program
weaker_local = refl

harder_competition : (hardness moderate ≤ hardness hard) × (pos 357_110 ≼ pos 585_660)
harder_competition =
    compute_difficulty_tier_mono fixed-IsOrdered strong weak (codes "balanced") boise weaker_organic
      weaker_local strong_tier weak_tier
