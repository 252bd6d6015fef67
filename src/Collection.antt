-- ===== src/Collection.antt =====
-- src/pipeline/types.py: the tasks that collect the data of the metros.
mod TaskGraph
mod Members
mod Kahn
mod Levels
mod Ids
mod Order
mod Acyclic
mod Executor
mod Plan
mod Accounts
mod Tests
use whidby.Prelude.{ℕ, String, List, Option}

pub data TaskType : Type 0 where
  keyword_volume serp_organic serp_maps business_listings google_reviews gbp_info backlinks
        lighthouse :
      TaskType

-- The dict of a task, whose keys are these; the location codes and the index are not negative.
pub record Payload : Type 0 where
  pub keywords : Option (List String)
  pub keyword : Option String
  pub location_code : Option ℕ
  pub batch_index : Option ℕ
  pub principal_city : Option String
  pub source : Option String
  pub target : Option String
  pub url : Option String
  pub cid : Option String
  pub place_id : Option String
  pub review_retrieval_mode : Option String

pub record CollectionTask (P : Type 0) : Type 0 where
  pub task_id : String
  pub metro_id : String
  pub task_type : TaskType
  pub payload : P
  pub depends_on : List String
  pub dedup_key : Option String
