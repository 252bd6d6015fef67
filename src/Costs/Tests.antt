-- ===== src/Costs/Tests.antt =====
-- A tracker with the records of two runs.
use whidby.Prelude.{
  ℕ, ◌+◌, ◌≡◌, ◌≢◌, refl, true, false, List, [], ◌∷◌, Option, none, some, String, Result, ok,
  length,
}
use whidby.Num.Fixed.{ℤ, pos, fixed_num}
use whidby.Costs.{
  CostRecord, CostTracker, UsageRow, cost_by_endpoint, selected, records_for_context, drain_context,
  flush_to_supabase,
}
use whidby.Costs.Aggregates.{group_of, of_endpoint, summary, cost_by_endpoint-groups}
use whidby.Costs.Contexts.{drain_context-partition, Flushed, flush_to_supabase-Flushed}

abbrev call_of : String → ℕ → Option String → CostRecord ℤ
call_of e c context = record {
  endpoint = e;
  task_id = "task";
  cost = pos c;
  cached = false;
  latency_ms = 12;
  parameters = [];
  collection_context_id = context;
}

abbrev tracker : CostTracker ℤ
tracker = record {
  records =
      call_of "serp" 6 (some "run-1")
      ∷ call_of "maps" 20 (some "run-2")
      ∷ call_of "serp" 7 (some "run-1")
      ∷ call_of "serp" 9 none
      ∷ [];
  active_context = none;
}

abbrev insert_rows : List (UsageRow ℤ) → Result (Unit {0})
insert_rows rows = ok tt

program : Unit {0}
unfolding cost_by_endpoint flush_to_supabase
program = tt

serp_group :
    group_of "serp" (cost_by_endpoint (some "run-1") tracker)
    ≡ some (record { calls = 2; cost = pos 13; cached = 0 })
unfolding program
serp_group = refl

cost_by_endpoint-groups_example :
    group_of "serp" (cost_by_endpoint (some "run-1") tracker)
    ≡ (elim (of_endpoint "serp" (selected (some "run-1") tracker)) [
      | [] ↦ none
      | r ∷ rs ↦ some (summary (r ∷ rs))
    ])
cost_by_endpoint-groups_example = cost_by_endpoint-groups "serp" (some "run-1") tracker

drain_context-partition_example :
    ((drain_context "run-1" tracker).1 ≡ length (records_for_context "run-1" tracker))
    × (records_for_context "run-1" (drain_context "run-1" tracker).0 ≡ [])
    × ((drain_context "run-1" tracker).1 + length (drain_context "run-1" tracker).0.records ≡ 4)
    × ((d : String)
        → "run-1" ≢ d
        → records_for_context d (drain_context "run-1" tracker).0 ≡ records_for_context d tracker)
drain_context-partition_example = drain_context-partition "run-1" tracker

flush_to_supabase-Flushed_example :
    Flushed "report" "run-1"
      (some insert_rows)
      tracker
      (flush_to_supabase "report" (some "run-1") true (some insert_rows) tracker)
flush_to_supabase-Flushed_example =
    flush_to_supabase-Flushed "report" "run-1" (some insert_rows) tracker
