-- ===== src/Scoring/Relative/Tests.antt =====
-- A benchmark row, its cell, and the scores of a metro relative to it.
use whidby.Prelude.{◌≡◌, refl, true, none, some, ok, Result, raise, value_error, Option}
use whidby.Num.Fixed.{ℤ, pos, fixed_num, fixed-IsOrdered}
use whidby.Signals.{Signals, number, boolean, text, mapping, end, entry, codes}
use whidby.Scoring.Benchmarks
use whidby.Scoring.Benchmarks.{SeoBenchmarkCell, from_mapping, medium, low}
use whidby.Scoring.V2.{V2Scores, effective_benchmark_confidence, compute_v2_scores}
use whidby.Scoring.Relative.{
  IsLowest, effective_benchmark_confidence-IsLowest, V2InRange, LocalPack, compute_v2_scores_total,
}

program : Unit {0}
unfolding from_mapping compute_v2_scores
program = tt

abbrev row : Signals ℤ
row = entry "niche_normalized" (text (codes " roofing ")) (
    entry "population_class" (text (codes "metro_1m")) (
      entry "median_avg_cpc" (number (pos 80_000)) (
        entry "sample_size_metros" (number (pos 120_000)) (
          entry "sample_size_observations" (number (pos 900_000)) (
            entry "confidence_label" (text (codes "medium")) (
              entry "metric_confidence_rollup"
                (mapping (
                  entry "local_pack" (mapping (entry "confidence_label" (text (codes "low")) end))
                    end))
                end))))))

abbrev cell : Result (SeoBenchmarkCell ℤ)
cell = from_mapping row

abbrev cell_of : Result (SeoBenchmarkCell ℤ) → Option (SeoBenchmarkCell ℤ)
cell_of (ok c) = some c
cell_of (raise e) = none

-- The family that is less sure than the cell lowers its confidence.
cell_confidence : effective_benchmark_confidence (cell_of cell) ≡ low
unfolding program
cell_confidence = refl

no_cell : from_mapping {F = ℤ} end ≡ raise value_error
unfolding program
no_cell = refl

abbrev sample_cell : SeoBenchmarkCell ℤ
sample_cell = record {
  niche_normalized = codes "roofing";
  population_class = codes "metro_1m";
  naics_code = none;
  p25_total_volume_per_capita = none;
  median_total_volume_per_capita = some (pos 30);
  p75_total_volume_per_capita = none;
  p25_avg_cpc = none;
  median_avg_cpc = some (pos 80_000);
  p75_avg_cpc = none;
  median_top3_review_count_min = none;
  median_top3_review_velocity = none;
  pct_with_local_pack = none;
  median_aggregator_count = none;
  median_local_biz_count = none;
  median_establishments_per_100k = none;
  median_lsa_present_rate = none;
  median_ads_present_rate = none;
  median_aio_trigger_rate = none;
  sample_size_metros = pos 120_000;
  sample_size_observations = pos 900_000;
  confidence_label = medium;
  fact_window_start = none;
  fact_window_end = none;
  benchmark_run_id = none;
  benchmark_mode = Benchmarks.exact;
  formula_version = none;
  sample_frame_version = none;
  metric_confidence_rollup =
      entry "local_pack" (mapping (entry "confidence_label" (text (codes "low")) end)) end;
}

abbrev tulsa : Signals ℤ
tulsa = entry "demand" (mapping (entry "total_search_volume" (number (pos 20_000_000)) end)) (
    entry "local_competition" (mapping (entry "local_pack_present" (boolean true) end))
      (entry "population" (text (codes "unknown")) end))

effective_benchmark_confidence-IsLowest_example :
    IsLowest
      (effective_benchmark_confidence (some sample_cell))
      medium
      (sample_cell.metric_confidence_rollup)
effective_benchmark_confidence-IsLowest_example =
    effective_benchmark_confidence-IsLowest sample_cell

compute_v2_scores_total_example :
    (r : V2Scores ℤ) × (compute_v2_scores tulsa (some sample_cell) ≡ ok r)
    × V2InRange r
    × LocalPack tulsa r
compute_v2_scores_total_example = compute_v2_scores_total fixed-IsOrdered tulsa (some sample_cell)
