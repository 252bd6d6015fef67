-- ===== src/Collection/Executor.antt =====
-- src/pipeline/batch_executor.py: the execution of planned tasks, level by level. The client is a
-- record of calls, each of which replies, raises, or runs into its timeout. The tasks of a level
-- suspend only in their call, so that what follows happens at once; the order in which the calls of
-- a level return is a parameter.
use whidby.Prelude.{
  assign, ℕ, suc, Bool, true, false, not, List, [], ◌∷◌, ◌++◌, Option, none, some, String, str_eq,
  if◌then◌else◌, Result, ok, ◌>>=◌,
}
use whidby.Signals.{Value, mapping, Signals}
use whidby.Collection.{
  TaskType, keyword_volume, serp_organic, serp_maps, business_listings, google_reviews, gbp_info,
  backlinks, lighthouse, CollectionTask, Payload,
}
use whidby.Collection.TaskGraph.{dependency_levels, validate_task_graph}

-- `str(exc)`; a `KeyError` prints its key in quotes.
pub data Message : Type 0 where
  said : String → Message
  missing_key : String → Message

pub record FailureRecord : Type 0 where
  pub task_id : String
  pub task_type : TaskType
  pub metro_id : String
  pub message : Message
  pub is_retryable : Bool

-- The data of a response: a list, or one value.
pub data ResponseData (F : Type 0) : Type 0 where
  rows : List (Value F) → ResponseData F
  single : Value F → ResponseData F

pub record ApiResponse (F : Type 0) : Type 0 where
  pub status : String
  pub data_of : ResponseData F
  pub cost : F
  pub error : Option String

-- How `asyncio.wait_for` ends.
pub data Reply (F : Type 0) : Type 0 where
  replied : ApiResponse F → Reply F
  raised : Message → Reply F
  timed_out : Reply F

pub record Client (F : Type 0) : Type 0 where
  pub keyword_volume_call : List String → ℕ → Reply F
  pub serp_organic_call : String → ℕ → Reply F
  pub serp_maps_call : String → ℕ → Reply F
  pub business_listings_call : String → ℕ → Reply F
  pub google_reviews_call : Option String → ℕ → Option String → Option String → Reply F
  pub google_my_business_info_call : String → ℕ → Reply F
  pub backlinks_summary_call : String → Reply F
  pub lighthouse_call : String → Reply F

-- The dicts by task id are association lists; `task_payloads` copies the payload of the task.
pub record ExecutionState (F : Type 0) : Type 0 where
  pub task_results : List (String × List (Signals F))
  pub task_costs : List (String × F)
  pub task_categories : List (String × TaskType)
  pub task_metros : List (String × String)
  pub task_payloads : List (String × Payload)
  pub total_api_calls : ℕ
  pub failures : List FailureRecord

-- `f"provider task timed out after {timeout:.1f}s"`
unfoldable pub timeout_message : TaskType → Message
timeout_message task_type = elim task_type [
  | keyword_volume ↦ said "provider task timed out after 20.0s"
  | google_reviews ↦ said "provider task timed out after 20.0s"
  | _ ↦ said "provider task timed out after 12.0s"
]

unfoldable pub failure_from_message : CollectionTask Payload → Message → FailureRecord
failure_from_message task message = record {
  task_id = task.task_id;
  task_type = task.task_type;
  metro_id = task.metro_id;
  message = message;
  is_retryable = true;
}

-- `payload[key]`
unfoldable pub with_key : {F A : Type 0} → String → Option A → (A → Reply F) → Reply F
with_key key none call = raised (missing_key key)
with_key key (some v) call = call v

module _ {F : Type 0} where
  unfoldable pub failure_from_response : CollectionTask Payload → ApiResponse F → FailureRecord
  unfolding failure_from_message
  failure_from_response task response = elim (response.error) [
    | none ↦ failure_from_message task (said "unknown API error")
    | some e ↦
        if str_eq e ""
        then failure_from_message task (said "unknown API error")
        else failure_from_message task (said e)
  ]

  -- `[item for item in result_data if isinstance(item, dict)]`
  abbrev pub dicts : List (Value F) → List (Signals F)
  dicts [] = []
  dicts (v ∷ vs) = let rest = dicts vs in elim v [ mapping m ↦ m ∷ rest | _ ↦ rest ]

  unfoldable pub normalized_rows : ResponseData F → List (Signals F)
  normalized_rows (rows vs) = dicts vs
  normalized_rows (single v) = dicts (v ∷ [])

  -- What `_run_task` does with the end of the call.
  unfoldable pub settle_task :
      CollectionTask Payload → Reply F → ExecutionState F → ExecutionState F
  unfolding failure_from_message failure_from_response timeout_message normalized_rows
  settle_task task timed_out s = record s {
    failures = s.failures ++ (failure_from_message task (timeout_message task.task_type) ∷ []);
  }
  settle_task task (raised message) s = record s {
    failures = s.failures ++ (failure_from_message task message ∷ []);
  }
  settle_task task (replied response) s =
      let answered = record s {
        total_api_calls = suc s.total_api_calls;
        task_categories = assign task.task_id task.task_type s.task_categories;
        task_metros = assign task.task_id task.metro_id s.task_metros;
        task_payloads = assign task.task_id task.payload s.task_payloads;
      } in
      if not (str_eq response.status "ok")
      then record answered { failures = s.failures ++ (failure_from_response task response ∷ []) }
      else record answered {
        task_results = assign task.task_id (normalized_rows response.data_of) s.task_results;
        task_costs = assign task.task_id response.cost s.task_costs;
      }

abbrev pub has_mode : String → Payload → Bool
has_mode mode payload = elim (payload.review_retrieval_mode) [
  | none ↦ false
  | some m ↦ str_eq m mode
]

-- `payload.get("keyword") or "local business"`
abbrev pub category_of : Payload → String
category_of payload = elim (payload.keyword) [
  | none ↦ "local business"
  | some k ↦ if str_eq k "" then "local business" else k
]

module _ {F : Type 0} (client : Client F) where
  -- `_dispatch_task`. A task type is one of the eight, so that the last `raise` has no case.
  unfoldable pub dispatch_task : CollectionTask Payload → Reply F
  unfolding with_key
  dispatch_task task =
      let payload = task.payload in
      let at_location =
        λ (call : ℕ → Reply F). with_key "location_code" payload.location_code call in
      let for_keyword = λ (call : String → ℕ → Reply F).
        with_key "keyword" payload.keyword (λ k. at_location (call k)) in
      elim (task.task_type) [
        | keyword_volume ↦
            with_key "keywords" payload.keywords (λ ks. at_location (client.keyword_volume_call ks))
        | serp_organic ↦ for_keyword client.serp_organic_call
        | serp_maps ↦ for_keyword client.serp_maps_call
        | business_listings ↦ at_location (client.business_listings_call (category_of payload))
        | google_reviews ↦ at_location (λ l.
            client.google_reviews_call payload.keyword l
              (if has_mode "cid" payload then payload.cid else none)
              (if has_mode "place_id" payload then payload.place_id else none))
        | gbp_info ↦ for_keyword client.google_my_business_info_call
        | backlinks ↦ with_key "target" payload.target client.backlinks_summary_call
        | lighthouse ↦ with_key "url" payload.url client.lighthouse_call
      ]

  unfoldable pub run_task : CollectionTask Payload → ExecutionState F → ExecutionState F
  unfolding settle_task dispatch_task
  run_task task s = settle_task task (dispatch_task task) s

  -- `gather` of a level, its calls returning in the order of the list.
  unfoldable pub run_level : List (CollectionTask Payload) → ExecutionState F → ExecutionState F
  unfolding run_task
  run_level [] s = s
  run_level (t ∷ ts) s = run_level ts (run_task t s)

  module _ (arrive : List (CollectionTask Payload) → List (CollectionTask Payload)) where
    unfoldable pub run_all :
        List (List (CollectionTask Payload)) → ExecutionState F → ExecutionState F
    unfolding run_level
    run_all [] s = s
    run_all (l ∷ ls) s = run_all ls (run_level (arrive l) s)

    unfoldable pub execute_tasks :
        List (CollectionTask Payload) → ExecutionState F → Result (ExecutionState F)
    unfolding run_all validate_task_graph dependency_levels
    execute_tasks [] s = ok s
    execute_tasks (t ∷ ts) s = do
      valid ← validate_task_graph (t ∷ ts)
      levels ← dependency_levels (t ∷ ts)
      ok (run_all levels s)
