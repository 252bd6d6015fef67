-- ===== src/Collection/Plan.antt =====
-- src/pipeline/collection_plan.py: the tasks of a request. The texts of the task ids are
-- `format_id`, Python's format of a number; a list that the code fills in a loop is the result of the
-- loop here, with the next number.
mod Numbers
mod Batches
mod Total
mod Tests
use whidby.Prelude.{
  ℕ, zero, suc, ◌+◌, Bool, true, false, ◌&&◌, ◌||◌, List, [], ◌∷◌, ◌++◌, map, Option, none, some,
  String, if◌then◌else◌, Result, ok, ◌>>=◌, length, take, drop, filterb, ◌==◌,
}
use whidby.Signals.{codes, lower, text_eq}
use whidby.Collection.{
  TaskType, keyword_volume, serp_organic, serp_maps, business_listings, google_reviews, gbp_info,
  backlinks, lighthouse, CollectionTask, Payload,
}
use whidby.Collection.TaskGraph.{validate_task_graph}

pub record KeywordDescriptor : Type 0 where
  pub keyword : String
  pub tier : ℕ
  pub intent : List ℕ

unfoldable pub is_serp_eligible : KeywordDescriptor → Bool
unfolding lower
is_serp_eligible k =
    (k.tier == 1 || k.tier == 2)
    && (text_eq (lower k.intent) (codes "transactional")
        || text_eq (lower k.intent) (codes "commercial"))

pub record MetroInput : Type 0 where
  pub metro_id : String
  pub location_code : ℕ
  pub principal_city : Option String

pub data CollectionProfile : Type 0 where
  interactive full : CollectionProfile

pub record CollectionRequest : Type 0 where
  pub keywords : List KeywordDescriptor
  pub metros : List MetroInput
  pub collection_profile : CollectionProfile

pub record CollectionPlan : Type 0 where
  pub base_tasks : List (CollectionTask Payload)
  pub dependent_templates : List (CollectionTask Payload)

abbrev pub max_volume_batch_size : ℕ
max_volume_batch_size = 700

abbrev pub m5_interactive_serp_limit : ℕ
m5_interactive_serp_limit = 6

-- `f"{a}{b}"`
abbrev pub followed_by : String → String → String
followed_by String.[] b = b
followed_by (String.◌∷◌ c a) b = String.◌∷◌ c (followed_by a b)

-- The loop of `_chunked`, on fuel: every round takes an item.
unfoldable pub chunks_from {ℓ} : {A : Type ℓ} → ℕ → ℕ → List A → List (List A)
chunks_from zero size xs = []
chunks_from (suc fuel) size [] = []
chunks_from (suc fuel) size (x ∷ xs) =
    take size (x ∷ xs) ∷ chunks_from fuel size (drop size (x ∷ xs))

unfoldable pub chunked {ℓ} : {A : Type ℓ} → List A → ℕ → List (List A)
unfolding chunks_from
chunked xs size = chunks_from (length xs) size xs

-- `next((item for item in keywords if item.tier == 1), None) or keywords[0]`
unfoldable pub select_maps_keyword : KeywordDescriptor → List KeywordDescriptor → KeywordDescriptor
select_maps_keyword first ks = elim (filterb (λ k. k.tier == 1) (first ∷ ks)) [
  | [] ↦ first
  | k ∷ rest ↦ k
]

abbrev pub no_payload : Payload
no_payload = record {
  keywords = none;
  keyword = none;
  location_code = none;
  batch_index = none;
  principal_city = none;
  source = none;
  target = none;
  url = none;
  cid = none;
  place_id = none;
  review_retrieval_mode = none;
}

abbrev pub base_task : String → MetroInput → TaskType → Payload → CollectionTask Payload
base_task task_id metro task_type payload = record {
  task_id = task_id;
  metro_id = metro.metro_id;
  task_type = task_type;
  payload = payload;
  depends_on = [];
  dedup_key = none;
}

-- A template: the ending of its id, its type, its source, what it waits for, its dedup key.
abbrev pub template :
    MetroInput → String → TaskType → String → String → String → CollectionTask Payload
template metro ending task_type source waits_on key = record {
  task_id = followed_by "tmpl-" (followed_by metro.metro_id ending);
  metro_id = metro.metro_id;
  task_type = task_type;
  payload = record no_payload { source = some source };
  depends_on = waits_on ∷ [];
  dedup_key = some (followed_by metro.metro_id key);
}

abbrev pub gbp_template : MetroInput → String → CollectionTask Payload
gbp_template metro maps = template metro "-gbp" gbp_info "serp_maps" maps ":gbp_info"

abbrev pub listings_template : MetroInput → String → CollectionTask Payload
listings_template metro maps =
    template metro "-listings" business_listings "serp_maps" maps ":business_listings"

unfoldable pub templates :
    CollectionProfile → MetroInput → String → String → List (CollectionTask Payload)
templates interactive metro organic maps =
    gbp_template metro maps ∷ listings_template metro maps ∷ []
templates full metro organic maps =
    template metro "-backlinks" backlinks "serp_organic" organic ":backlinks"
    ∷ template metro "-lighthouse" lighthouse "serp_organic" organic ":lighthouse"
    ∷ gbp_template metro maps
    ∷ template metro "-reviews" google_reviews "serp_maps" maps ":google_reviews"
    ∷ listings_template metro maps
    ∷ []

unfoldable pub eligible_keywords : CollectionRequest → List KeywordDescriptor
unfolding is_serp_eligible
eligible_keywords request =
    let eligible = filterb is_serp_eligible request.keywords in
    elim (request.collection_profile) [
      | interactive ↦ take m5_interactive_serp_limit eligible
      | full ↦ eligible
    ]

module _ (format_id : ℕ → String) where
  -- The loop over the batches, from `next_id` and `batch_index`.
  unfoldable pub volume_tasks :
      MetroInput → ℕ → ℕ → List (List String) → List (CollectionTask Payload)
  volume_tasks metro next_id index [] = []
  volume_tasks metro next_id index (batch ∷ batches) =
      base_task (format_id next_id) metro keyword_volume (record no_payload {
        keywords = some batch;
        location_code = some metro.location_code;
        batch_index = some index;
      })
      ∷ volume_tasks metro (suc next_id) (suc index) batches

  -- The loop over the eligible keywords.
  unfoldable pub organic_tasks :
      MetroInput → ℕ → List KeywordDescriptor → List (CollectionTask Payload)
  organic_tasks metro next_id [] = []
  organic_tasks metro next_id (k ∷ ks) =
      base_task (format_id next_id) metro serp_organic (record no_payload {
        keyword = some k.keyword;
        location_code = some metro.location_code;
        principal_city = metro.principal_city;
      })
      ∷ organic_tasks metro (suc next_id) ks

  -- What `if eligible` adds, where `first` is the number of the first organic task and `next_id` the
  -- number of the maps task.
  unfoldable pub maps_tasks :
      MetroInput
      → CollectionProfile
      → ℕ
      → ℕ
      → List KeywordDescriptor
      → List (CollectionTask Payload) × List (CollectionTask Payload)
  unfolding select_maps_keyword templates
  maps_tasks metro profile first next_id [] = ([], [])
  maps_tasks metro profile first next_id (k ∷ ks) = (
    base_task (format_id next_id) metro serp_maps (record no_payload {
      keyword = some (select_maps_keyword k ks).keyword;
      location_code = some metro.location_code;
    })
        ∷ [],
    templates profile metro (format_id first) (format_id next_id),
  )

  -- The loop over the metros, from `next_id`.
  unfoldable pub plan_metros : CollectionRequest → List MetroInput → ℕ → CollectionPlan
  unfolding chunked eligible_keywords volume_tasks organic_tasks maps_tasks
  plan_metros request [] next_id = record { base_tasks = []; dependent_templates = [] }
  plan_metros request (metro ∷ metros) next_id =
      let batches = chunked (map (λ k. k.keyword) request.keywords) max_volume_batch_size in
      let eligible = eligible_keywords request in
      let first = next_id + length batches in
      let maps = first + length eligible in
      let mapped = maps_tasks metro request.collection_profile first maps eligible in
      let rest = plan_metros request metros (maps + length mapped.0) in
      record {
        base_tasks =
            volume_tasks metro next_id 1 batches
            ++ (organic_tasks metro first eligible ++ (mapped.0 ++ rest.base_tasks));
        dependent_templates = mapped.1 ++ rest.dependent_templates;
      }

  unfoldable pub build_collection_plan : CollectionRequest → Result CollectionPlan
  unfolding plan_metros validate_task_graph
  build_collection_plan request =
      let plan = plan_metros request request.metros 1 in
      validate_task_graph plan.base_tasks >>= λ valid. ok plan
