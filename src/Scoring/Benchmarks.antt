-- ===== src/Scoring/Benchmarks.antt =====
-- src/scoring/benchmark_repository.py: the benchmark cell of a niche and a population class, read
-- from a database row. The repository itself is a parameter of the scores.
use whidby.Prelude.{
  ℕ, Bool, true, false, ◌||◌, List, [], ◌∷◌, Option, none, some, String, if◌then◌else◌, Result, ok,
  raise, ◌>>=◌, value_error,
}
use whidby.Num.Order.{Num, of_int, lt_num}
use whidby.Signals.{
  Value, Signals, none_value, text, mapping, end, codes, text_eq, strip, get_or, float_of, int_of,
  truthy, str_of,
}

pub data BenchmarkConfidence : Type 0 where
  high medium low insufficient : BenchmarkConfidence

pub data BenchmarkMode : Type 0 where
  exact pooled_population pooled_service_group global_service manual : BenchmarkMode

pub record SeoBenchmarkCell (F : Type 0) : Type 0 where
  pub niche_normalized : List ℕ
  pub population_class : List ℕ
  pub naics_code : Option (List ℕ)
  pub p25_total_volume_per_capita : Option F
  pub median_total_volume_per_capita : Option F
  pub p75_total_volume_per_capita : Option F
  pub p25_avg_cpc : Option F
  pub median_avg_cpc : Option F
  pub p75_avg_cpc : Option F
  pub median_top3_review_count_min : Option F
  pub median_top3_review_velocity : Option F
  pub pct_with_local_pack : Option F
  pub median_aggregator_count : Option F
  pub median_local_biz_count : Option F
  pub median_establishments_per_100k : Option F
  pub median_lsa_present_rate : Option F
  pub median_ads_present_rate : Option F
  pub median_aio_trigger_rate : Option F
  pub sample_size_metros : F
  pub sample_size_observations : F
  pub confidence_label : BenchmarkConfidence
  pub fact_window_start : Option (List ℕ)
  pub fact_window_end : Option (List ℕ)
  pub benchmark_run_id : Option (List ℕ)
  pub benchmark_mode : BenchmarkMode
  pub formula_version : Option (List ℕ)
  pub sample_frame_version : Option (List ℕ)
  pub metric_confidence_rollup : Signals F

-- The label of a text, if it is one of the four.
unfoldable pub confidence_of : List ℕ → Option BenchmarkConfidence
confidence_of t =
    if text_eq t (codes "high")
    then some high
    else if text_eq t (codes "medium")
    then some medium
    else if text_eq t (codes "low")
    then some low
    else if text_eq t (codes "insufficient")
    then some insufficient
    else none

unfoldable pub mode_of : List ℕ → Option BenchmarkMode
mode_of t =
    if text_eq t (codes "exact")
    then some exact
    else if text_eq t (codes "pooled_population")
    then some pooled_population
    else if text_eq t (codes "pooled_service_group")
    then some pooled_service_group
    else if text_eq t (codes "global_service")
    then some global_service
    else if text_eq t (codes "manual")
    then some manual
    else none

unfoldable pub non_empty : List ℕ → Result (List ℕ)
non_empty [] = raise value_error
non_empty (c ∷ cs) = ok (c ∷ cs)

abbrev pub is_low : BenchmarkConfidence → Bool
is_low c = elim c [ low ↦ true | insufficient ↦ true | _ ↦ false ]

module _ {F : Type 0} ⦃n : Num F⦄ where
  unfoldable pub float_or_none : String → Signals F → Result (Option F)
  unfolding get_or float_of
  float_or_none key row = elim (get_or key none_value row) [
    | none_value ↦ ok none
    | v ↦ do x ← float_of v; ok (some x)
  ]

  unfoldable pub int_or_none : String → Signals F → Result (Option F)
  unfolding get_or int_of
  int_or_none key row = elim (get_or key none_value row) [
    | none_value ↦ ok none
    | v ↦ do x ← int_of v; ok (some x)
  ]

  -- An empty text fails the conversion as well, with the same exception.
  unfoldable pub required_int : String → Signals F → Result F
  unfolding get_or int_of
  required_int key row = elim (get_or key none_value row) [
    | none_value ↦ raise value_error
    | text t ↦ elim (strip t) [ [] ↦ raise value_error | _ ↦ int_of (text t) ]
    | v ↦ int_of v
  ]

  unfoldable pub required_text : String → Signals F → Result (List ℕ)
  unfolding get_or str_of strip non_empty
  required_text key row = elim (get_or key none_value row) [
    | none_value ↦ raise value_error
    | v ↦ non_empty (strip (str_of v))
  ]

  -- `str(value or "").strip()`
  unfoldable pub text_or_empty : Value F → List ℕ
  unfolding truthy str_of strip
  text_or_empty v = strip (if truthy v then str_of v else [])

  unfoldable pub confidence : Value F → Result BenchmarkConfidence
  unfolding text_or_empty confidence_of
  confidence v = elim (confidence_of (text_or_empty v)) [ none ↦ raise value_error | some c ↦ ok c ]

  unfoldable pub benchmark_mode : Value F → Result BenchmarkMode
  unfolding str_of strip mode_of
  benchmark_mode none_value = ok exact
  benchmark_mode v = elim (mode_of (strip (str_of v))) [ none ↦ raise value_error | some m ↦ ok m ]

  unfoldable pub mapping_or_empty : Value F → Result (Signals F)
  mapping_or_empty none_value = ok end
  mapping_or_empty (mapping m) = ok m
  mapping_or_empty v = raise value_error

  -- `str(row[key]).strip()` if that is a text, and `str(row[key])` if there is a value
  unfoldable pub optional_code : String → Signals F → Option (List ℕ)
  unfolding get_or str_of strip
  optional_code key row = elim (get_or key none_value row) [
    | none_value ↦ none
    | v ↦ elim (strip (str_of v)) [ [] ↦ none | c ∷ cs ↦ some (c ∷ cs) ]
  ]

  unfoldable pub optional_text : String → Signals F → Option (List ℕ)
  unfolding get_or str_of
  optional_text key row = elim (get_or key none_value row) [
    | none_value ↦ none
    | v ↦ some (str_of v)
  ]

  unfoldable pub from_mapping : Signals F → Result (SeoBenchmarkCell F)
  unfolding required_text optional_code float_or_none int_or_none required_int confidence
      optional_text benchmark_mode mapping_or_empty
  from_mapping row = do
    niche ← required_text "niche_normalized" row
    population ← required_text "population_class" row
    p25_volume ← float_or_none "p25_total_volume_per_capita" row
    median_volume ← float_or_none "median_total_volume_per_capita" row
    p75_volume ← float_or_none "p75_total_volume_per_capita" row
    p25_cpc ← float_or_none "p25_avg_cpc" row
    median_cpc ← float_or_none "median_avg_cpc" row
    p75_cpc ← float_or_none "p75_avg_cpc" row
    reviews ← int_or_none "median_top3_review_count_min" row
    velocity ← float_or_none "median_top3_review_velocity" row
    pack ← float_or_none "pct_with_local_pack" row
    aggregators ← float_or_none "median_aggregator_count" row
    local_biz ← float_or_none "median_local_biz_count" row
    establishments ← float_or_none "median_establishments_per_100k" row
    lsa ← float_or_none "median_lsa_present_rate" row
    ads ← float_or_none "median_ads_present_rate" row
    aio ← float_or_none "median_aio_trigger_rate" row
    metros ← required_int "sample_size_metros" row
    observations ← required_int "sample_size_observations" row
    label ← confidence (get_or "confidence_label" none_value row)
    mode ← benchmark_mode (get_or "benchmark_mode" none_value row)
    rollup ← mapping_or_empty (get_or "metric_confidence_rollup" none_value row)
    ok (record {
      niche_normalized = niche;
      population_class = population;
      naics_code = optional_code "naics_code" row;
      p25_total_volume_per_capita = p25_volume;
      median_total_volume_per_capita = median_volume;
      p75_total_volume_per_capita = p75_volume;
      p25_avg_cpc = p25_cpc;
      median_avg_cpc = median_cpc;
      p75_avg_cpc = p75_cpc;
      median_top3_review_count_min = reviews;
      median_top3_review_velocity = velocity;
      pct_with_local_pack = pack;
      median_aggregator_count = aggregators;
      median_local_biz_count = local_biz;
      median_establishments_per_100k = establishments;
      median_lsa_present_rate = lsa;
      median_ads_present_rate = ads;
      median_aio_trigger_rate = aio;
      sample_size_metros = metros;
      sample_size_observations = observations;
      confidence_label = label;
      fact_window_start = optional_text "fact_window_start" row;
      fact_window_end = optional_text "fact_window_end" row;
      benchmark_run_id = optional_text "benchmark_run_id" row;
      benchmark_mode = mode;
      formula_version = optional_text "formula_version" row;
      sample_frame_version = optional_text "sample_frame_version" row;
      metric_confidence_rollup = rollup;
    })

  unfoldable pub is_undersampled : SeoBenchmarkCell F → Bool
  is_undersampled b = is_low b.confidence_label || lt_num b.sample_size_metros (of_int 8)
