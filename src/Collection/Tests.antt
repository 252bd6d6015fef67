-- ===== src/Collection/Tests.antt =====
-- Three tasks, of which the last needs the other two, and task lists that are refused.
use whidby.Prelude.{
  has, ◌≡◌, ◌↔◌, refl, true, List, [], ◌∷◌, map, none, some, String, ok, raise, value_error, All,
}
use mathlib.Core.List.Permᴰ
use whidby.Num.Fixed.{ℤ, pos}
use whidby.Signals.{items, mapping, end}
use whidby.Collection.{CollectionTask, Payload, TaskType, keyword_volume, serp_organic, lighthouse}
use whidby.Collection.TaskGraph.{edges, run_levels, dependency_levels, validate_task_graph}
use whidby.Collection.Members.{DistinctIds}
use whidby.Collection.Levels.{joined, Layered}
use whidby.Collection.Ids.{ids_of}
use whidby.Collection.Acyclic.{IsAcyclic, dependency_levels-Layered, validate_task_graph_iff}
use whidby.Collection.Executor.{
  Client, replied, raised, timed_out, rows, ExecutionState, execute_tasks, said, missing_key,
}
use whidby.Collection.Accounts.{Settled, execute_tasks-Settled}

program : Unit {0}
unfolding validate_task_graph execute_tasks dependency_levels
program = tt

abbrev planned : String → TaskType → List String → CollectionTask Payload
planned name kind deps = record {
  task_id = name;
  metro_id = "phoenix";
  task_type = kind;
  payload = record {
    keywords = none;
    keyword = some "roofing";
    location_code = some 3;
    batch_index = none;
    principal_city = none;
    source = none;
    target = none;
    url = none;
    cid = none;
    place_id = none;
    review_retrieval_mode = none;
  };
  depends_on = deps;
  dedup_key = none;
}

abbrev plan : List (CollectionTask Payload)
plan =
    planned "audit" lighthouse ("serp" ∷ "volume" ∷ [])
    ∷ planned "serp" serp_organic ("volume" ∷ [])
    ∷ planned "volume" keyword_volume []
    ∷ []

abbrev plan_levels : List (List (CollectionTask Payload))
plan_levels =
    (planned "volume" keyword_volume [] ∷ [])
    ∷ (planned "serp" serp_organic ("volume" ∷ []) ∷ [])
    ∷ (planned "audit" lighthouse ("serp" ∷ "volume" ∷ []) ∷ [])
    ∷ []

levels_returned : dependency_levels plan ≡ ok plan_levels
unfolding program
levels_returned = refl

cycle_refused :
    validate_task_graph (planned "a" lighthouse ("b" ∷ []) ∷ planned "b" lighthouse ("a" ∷ []) ∷ [])
    ≡ raise value_error
unfolding program
cycle_refused = refl

twice_refused :
    dependency_levels (planned "a" lighthouse [] ∷ planned "a" lighthouse [] ∷ [])
    ≡ raise value_error
unfolding program
twice_refused = refl

unknown_refused : validate_task_graph (planned "a" lighthouse ("b" ∷ []) ∷ []) ≡ raise value_error
unfolding program
unknown_refused = refl

dependency_levels-Layered_example :
    Layered (edges plan) [] (map ids_of plan_levels)
    × DistinctIds (joined (map ids_of plan_levels))
    × All (λ i. has i (joined (map ids_of plan_levels)) ≡ true) (ids_of plan)
    × ((run_levels plan).1 ≡ [])
dependency_levels-Layered_example = dependency_levels-Layered plan plan_levels levels_returned

validate_task_graph_iff_example : (validate_task_graph plan ≡ ok tt) ↔ IsAcyclic plan
validate_task_graph_iff_example = validate_task_graph_iff plan

plan-IsAcyclic : IsAcyclic plan
unfolding program
plan-IsAcyclic = (validate_task_graph_iff plan).0 refl

-- One call answers; two payloads lack a key.
abbrev client : Client ℤ
client = record {
  keyword_volume_call = λ k l. timed_out;
  serp_organic_call = λ k l. replied (record {
    status = "ok";
    data_of = rows (mapping end ∷ items 2 ∷ []);
    cost = pos 20;
    error = none;
  });
  serp_maps_call = λ k l. timed_out;
  business_listings_call = λ k l. timed_out;
  google_reviews_call = λ k l c p. timed_out;
  google_my_business_info_call = λ k l. raised (said "closed");
  backlinks_summary_call = λ t. timed_out;
  lighthouse_call = λ u. timed_out;
}

abbrev empty_state : ExecutionState ℤ
empty_state = record {
  task_results = [];
  task_costs = [];
  task_categories = [];
  task_metros = [];
  task_payloads = [];
  total_api_calls = 0;
  failures = [];
}

execute_tasks-Settled_example :
    (s' : ExecutionState ℤ) × (execute_tasks client (λ l. l) plan empty_state ≡ ok s')
    × All (Settled s') (ids_of plan)
execute_tasks-Settled_example =
    execute_tasks-Settled client (λ l. l) plan empty_state (λ l. Permᴰ.refl (ids_of l))
      plan-IsAcyclic

-- The answer is kept, the missing keywords and the missing URL are failures.
counts :
    (r : ExecutionState ℤ) × (execute_tasks client (λ l. l) plan empty_state ≡ ok r)
    × (r.total_api_calls ≡ 1)
    × (map (λ f. f.message) r.failures ≡ missing_key "keywords" ∷ missing_key "url" ∷ [])
unfolding program
counts = (_, refl, refl, refl)
