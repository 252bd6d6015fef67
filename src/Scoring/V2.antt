-- ===== src/Scoring/V2.antt =====
-- src/scoring/v2.py: the scores of a metro relative to a benchmark cell. `nearest` is `int(round(x))`.
use whidby.Prelude.{
  ℕ, Bool, true, false, not, ◌&&◌, ◌||◌, List, [], ◌∷◌, Option, none, some, String, str_eq, ltb,
  if◌then◌else◌, Result, ok, raise, after,
}
use whidby.Num.Order.{Num, decimal, of_int, le_num, lt_num, min_num, max_num, ◌⊕◌, ◌⊗◌, ◌⊘◌}
use whidby.Signals.{
  Value, Signals, none_value, number, text, mapping, end, entry, codes, strip, get, put, get_or,
  float_of, truthy, str_of, number_get,
}
use whidby.Scoring.Config.{median_local_service_cpc}
use whidby.Scoring.Normalization.{clamp, clamp100}
use whidby.Scoring.Market.{compute_ai_resilience_score}
use whidby.Scoring.Engine.{categories, flatten_blocks}
use whidby.Scoring.Benchmarks.{
  BenchmarkConfidence, high, medium, low, insufficient, SeoBenchmarkCell, confidence_of,
  text_or_empty, is_low, is_undersampled,
}

-- `confidence_order`
abbrev pub confidence_rank : BenchmarkConfidence → ℕ
confidence_rank high = 3
confidence_rank medium = 2
confidence_rank low = 1
confidence_rank insufficient = 0

-- The effective label after one family.
abbrev pub lower_label : BenchmarkConfidence → Option BenchmarkConfidence → BenchmarkConfidence
lower_label effective none = effective
lower_label effective (some l) =
    if ltb (confidence_rank l) (confidence_rank effective) then l else effective

-- `_BENCHMARK_CONFIDENCE_REQUIRED_FAMILIES`
unfoldable pub is_required_family : String → Bool
is_required_family f =
    str_eq f "demand"
    || str_eq f "organic_serp"
    || str_eq f "local_pack"
    || str_eq f "review_velocity"
    || str_eq f "gbp_profile"
    || str_eq f "monetization"
    || str_eq f "ai_serp_displacement"

pub record V2Flags : Type 0 where
  pub no_local_pack_detected : Bool
  pub benchmark_undersampled : Bool
  pub cbp_data_missing : Bool
  pub top3_review_data_low_coverage : Bool
  pub top5_organic_data_low_coverage : Bool

pub record V2Scores (F : Type 0) : Type 0 where
  pub demand_strength : F
  pub organic_difficulty : F
  pub local_difficulty : Option F
  pub monetization_signal : F
  pub ai_resilience : F
  pub population_class : Option (List ℕ)
  pub sample_size : F
  pub confidence_label : BenchmarkConfidence
  pub flags : V2Flags

-- `text or None` and `text or default`
abbrev pub text_or_none : List ℕ → Option (List ℕ)
text_or_none t = elim t [ [] ↦ none | c ∷ cs ↦ some (c ∷ cs) ]

abbrev pub text_or : List ℕ → List ℕ → List ℕ
text_or d t = elim t [ [] ↦ d | c ∷ cs ↦ c ∷ cs ]

module _ {F : Type 0} ⦃n : Num F⦄ where
  abbrev pub default_volume_per_capita : F
  default_volume_per_capita = decimal 25

  abbrev pub default_establishments_per_100k : F
  default_establishments_per_100k = decimal 500_000

  abbrev pub default_review_floor : F
  default_review_floor = decimal 300_000

  abbrev pub default_review_velocity : F
  default_review_velocity = decimal 30_000

  -- `_number(signals.get(key))`
  abbrev pub number_of : String → Signals F → F
  number_of key s = number_get key (decimal 0) s

  -- `_flatten_signals`
  unfoldable pub flatten_signals : Signals F → Signals F
  unfolding flatten_blocks get put number_get clamp
  flatten_signals s =
      let flattened = flatten_blocks categories s s in
      elim (get "commercial_search_volume" flattened) [
        | some v ↦ flattened
        | none ↦
            put "commercial_search_volume"
              (number (
                number_of "total_search_volume" flattened
                ⊗ clamp (number_of "transactional_ratio" flattened) (decimal 0) (decimal 10_000)))
              flattened
      ]

  -- `_optional_number(signals.get(key))`
  unfoldable pub optional_number : String → Signals F → Option F
  unfolding get_or float_of
  optional_number key s = elim (float_of (get_or key none_value s)) [
    | ok x ↦ some x
    | raise e ↦ none
  ]

  -- `_effective_benchmark_confidence`: one family, and all of the rollup
  unfoldable pub family_label : String → Value F → Option BenchmarkConfidence
  unfolding is_required_family confidence_of text_or_empty get_or
  family_label family (mapping m) =
      if is_required_family family
      then confidence_of (text_or_empty (get_or "confidence_label" none_value m))
      else none
  family_label family v = none

  unfoldable pub rolled_up : BenchmarkConfidence → Signals F → BenchmarkConfidence
  unfolding family_label
  rolled_up effective end = effective
  rolled_up effective (entry family v rest) =
      rolled_up (lower_label effective (family_label family v)) rest

  unfoldable pub effective_benchmark_confidence : Option (SeoBenchmarkCell F) → BenchmarkConfidence
  unfolding rolled_up
  effective_benchmark_confidence none = insufficient
  effective_benchmark_confidence (some b) = rolled_up b.confidence_label b.metric_confidence_rollup

  unfoldable pub top5_metric_coverage : String → String → Signals F → F
  unfolding optional_number clamp
  top5_metric_coverage coverage_key value_key s = elim (optional_number coverage_key s) [
    | some c ↦ clamp c (decimal 0) (decimal 10_000)
    | none ↦ elim (optional_number value_key s) [ some v ↦ decimal 10_000 | none ↦ decimal 0 ]
  ]

  unfoldable pub top5_organic_data_low_coverage : Signals F → Bool
  unfolding top5_metric_coverage
  top5_organic_data_low_coverage s =
      lt_num (top5_metric_coverage "top5_da_coverage" "avg_top5_da" s) (decimal 6000)
      || lt_num (top5_metric_coverage "top5_lighthouse_coverage" "avg_top5_lighthouse" s)
          (decimal 6000)

  unfoldable pub positive : Option F → F → F
  positive none d = d
  positive (some x) d = if le_num x (decimal 0) then d else x

  -- The field of the benchmark, if there is one.
  abbrev pub field_of : (SeoBenchmarkCell F → Option F) → Option (SeoBenchmarkCell F) → Option F
  field_of get_field none = none
  field_of get_field (some b) = get_field b

  -- What `_ai_resilience` passes on: floats and a text.
  unfoldable pub sanitized : Signals F → Signals F
  unfolding number_get get_or text_or_empty truthy str_of strip
  sanitized s = entry "aio_trigger_rate" (number (number_of "aio_trigger_rate" s)) (
      entry "transactional_keyword_ratio"
        (number (number_get "transactional_keyword_ratio" (number_of "transactional_ratio" s) s))
        (entry "local_fulfillment_required"
          (number (number_get "local_fulfillment_required" (decimal 10_000) s))
          (entry "paa_density" (number (number_of "paa_density" s)) (
            entry "niche_type"
              (text (
                text_or (codes "local_service") (
                  strip (
                    if truthy (get_or "niche_type" none_value s)
                    then str_of (get_or "niche_type" none_value s)
                    else codes "local_service"))))
              end))))

  unfoldable pub v2_ai_resilience : Signals F → Result F
  unfolding sanitized compute_ai_resilience_score
  v2_ai_resilience s = after n.nearest (compute_ai_resilience_score (sanitized s))

  unfoldable pub v2_demand_strength : Signals F → Option (SeoBenchmarkCell F) → F
  unfolding number_get positive clamp
  v2_demand_strength s b =
      let population = max_num (number_get "population" (decimal 10_000) s) (decimal 10_000) in
      let observed_per_capita = number_of "commercial_search_volume" s ⊘ population in
      let benchmark_per_capita =
        positive (field_of (λ c. c.median_total_volume_per_capita) b) default_volume_per_capita in
      let benchmark_cpc = positive (field_of (λ c. c.median_avg_cpc) b) median_local_service_cpc in
      let volume_score =
        min_num (observed_per_capita ⊘ benchmark_per_capita) (decimal 20_000) ⊗ decimal 1_000_000 in
      let cpc_ratio = number_of "avg_cpc" s ⊘ max_num benchmark_cpc (decimal 100) in
      let cpc_adjustment = clamp cpc_ratio (decimal 5000) (decimal 15_000) in
      n.nearest (clamp (volume_score ⊗ cpc_adjustment) (decimal 0) (decimal 2_000_000))

  unfoldable pub v2_organic_difficulty : Signals F → F
  unfolding number_get optional_number clamp clamp100
  v2_organic_difficulty s =
      let pressure =
        clamp (number_of "aggregator_count" s ⊘ decimal 100_000) (decimal 0) (decimal 10_000) in
      let density =
        clamp (number_of "local_biz_count" s ⊘ decimal 100_000) (decimal 0) (decimal 10_000) in
      let raw = (pressure ⊗ decimal 5500 ⊕ density ⊗ decimal 3000) ⊗ decimal 1_000_000 in
      n.nearest (
        clamp100 (elim (optional_number "avg_top5_da" s) [
          | none ↦ raw
          | some da ↦
              raw ⊗ decimal 8500
              ⊕ clamp (da ⊘ decimal 600_000) (decimal 0) (decimal 10_000)
                ⊗ decimal 1_000_000
                ⊗ decimal 1500
        ]))

  -- `_first_positive` of two signals
  abbrev pub positive_or : Option F → F → F
  positive_or none d = d
  positive_or (some x) d = if lt_num (decimal 0) x then x else d

  unfoldable pub first_positive : String → String → F → Signals F → F
  unfolding optional_number
  first_positive a b d s = positive_or (optional_number a s) (positive_or (optional_number b s) d)

  unfoldable pub v2_local_difficulty : Signals F → Option (SeoBenchmarkCell F) → F
  unfolding positive first_positive clamp100
  v2_local_difficulty s b =
      let benchmark_floor =
        positive (field_of (λ c. c.median_top3_review_count_min) b) default_review_floor in
      let benchmark_velocity =
        positive (field_of (λ c. c.median_top3_review_velocity) b) default_review_velocity in
      let review_floor =
        first_positive "top3_review_count_min" "local_pack_review_count_avg" benchmark_floor s in
      let velocity =
        first_positive "top3_review_velocity_avg" "review_velocity_avg" benchmark_velocity s in
      let review_pressure =
        min_num (review_floor ⊘ max_num benchmark_floor (decimal 10_000)) (decimal 30_000) in
      let velocity_pressure =
        min_num (velocity ⊘ max_num benchmark_velocity (decimal 1000)) (decimal 30_000) in
      n.nearest (
        clamp100 (
          review_pressure ⊘ decimal 30_000 ⊗ decimal 600_000
          ⊕ velocity_pressure ⊘ decimal 30_000 ⊗ decimal 400_000))

  -- `signals.get("cbp_establishments", signals.get("establishments"))`
  abbrev pub establishments_of : Signals F → Value F
  establishments_of s = get_or "cbp_establishments" (get_or "establishments" none_value s) s

  unfoldable pub cbp_score : Signals F → Option (SeoBenchmarkCell F) → F
  unfolding number_get get_or float_of positive
  cbp_score s b = elim (establishments_of s) [
    | none_value ↦ decimal 500_000
    | v ↦
        let population = max_num (number_get "population" (decimal 10_000) s) (decimal 10_000) in
        let count = elim (float_of v) as (λ _. F) [ ok x ↦ x | raise e ↦ decimal 0 ] in
        let benchmark_density =
          positive (field_of (λ c. c.median_establishments_per_100k) b)
            default_establishments_per_100k in
        min_num (count ⊘ population ⊗ decimal 1_000_000_000 ⊘ benchmark_density) (decimal 20_000)
        ⊗ decimal 1_000_000
  ]

  unfoldable pub spend_signal : Signals F → F
  unfolding get_or truthy
  spend_signal s =
      let lsa =
        if truthy (get_or "lsa_present" none_value s)
        then decimal 0 ⊕ decimal 300_000
        else decimal 0 in
      if truthy (get_or "ads_present" none_value s)
        || truthy (get_or "ads_top_present" none_value s)
      then lsa ⊕ decimal 200_000
      else lsa

  unfoldable pub v2_monetization_signal : Signals F → Option (SeoBenchmarkCell F) → F
  unfolding cbp_score spend_signal clamp
  v2_monetization_signal s b = n.nearest (
      clamp (cbp_score s b ⊗ decimal 7000 ⊕ spend_signal s ⊗ decimal 15_000 ⊗ decimal 3000)
        (decimal 0) (decimal 2_000_000))

  abbrev pub is_missing : String → Signals F → Bool
  is_missing key s = elim (get_or key none_value s) [ none_value ↦ true | _ ↦ false ]

  unfoldable pub compute_v2_scores : Signals F → Option (SeoBenchmarkCell F) → Result (V2Scores F)
  unfolding flatten_signals effective_benchmark_confidence top5_organic_data_low_coverage
      v2_demand_strength v2_organic_difficulty v2_local_difficulty v2_monetization_signal
      v2_ai_resilience get_or truthy number_get is_undersampled
  compute_v2_scores metro_signals benchmark =
      let s = flatten_signals metro_signals in
      let no_local_pack = not (truthy (get_or "local_pack_present" none_value s)) in
      let effective = effective_benchmark_confidence benchmark in
      after
        (λ (ai : F). record {
          demand_strength = v2_demand_strength s benchmark;
          organic_difficulty = v2_organic_difficulty s;
          local_difficulty = if no_local_pack then none else some (v2_local_difficulty s benchmark);
          monetization_signal = v2_monetization_signal s benchmark;
          ai_resilience = ai;
          population_class = text_or_none (elim benchmark [
            | some b ↦ b.population_class
            | none ↦ text_or_empty (get_or "population_class" none_value s)
          ]);
          sample_size = elim benchmark [ none ↦ of_int 0 | some b ↦ b.sample_size_metros ];
          confidence_label = effective;
          flags = record {
            no_local_pack_detected = no_local_pack;
            benchmark_undersampled = elim benchmark [
              | none ↦ true
              | some b ↦ is_undersampled b || is_low effective
            ];
            cbp_data_missing = is_missing "cbp_establishments" s && is_missing "establishments" s;
            top3_review_data_low_coverage =
                not no_local_pack
                && (lt_num (number_of "top3_review_count_coverage" s) (decimal 6700)
                    || lt_num (number_of "top3_review_velocity_coverage" s) (decimal 6700));
            top5_organic_data_low_coverage = top5_organic_data_low_coverage s;
          };
        })
        (v2_ai_resilience s)

  -- `compute_v2_scores_with_repository`; the signals are flattened before the class is looked up,
  -- and once more by the scores.
  unfoldable pub compute_v2_scores_with_repository :
      (List ℕ → List ℕ → Result (Option (SeoBenchmarkCell F)))
      → List ℕ
      → Signals F
      → Result (V2Scores F)
  unfolding flatten_signals text_or_empty get_or compute_v2_scores
  compute_v2_scores_with_repository repository_get niche metro_signals =
      let s = flatten_signals metro_signals in
      elim (text_or_empty (get_or "population_class" none_value s)) [
        | [] ↦ compute_v2_scores s none
        | c ∷ cs ↦ elim (repository_get niche (c ∷ cs)) [
          | ok benchmark ↦ compute_v2_scores s benchmark
          | raise e ↦ raise e
        ]
      ]
