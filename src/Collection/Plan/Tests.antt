-- ===== src/Collection/Plan/Tests.antt =====
-- The plan of one metro with two eligible keywords, and batches of two.
use whidby.Prelude.{
  ℕ, zero, suc, ◌≡◌, refl, ap, List, [], ◌∷◌, map, none, some, String, ok, All, arith,
}
use whidby.Signals.{codes}
use whidby.Collection.{serp_organic, keyword_volume, serp_maps}
use whidby.Collection.Members.{DistinctIds}
use whidby.Collection.Ids.{ids_of}
use whidby.Collection.Plan.{
  KeywordDescriptor, CollectionRequest, CollectionPlan, interactive, build_collection_plan,
  plan_metros, chunked,
}
use whidby.Collection.Plan.Batches.{flat, IsBatch, chunked-flat}
use whidby.Collection.Plan.Total.{WaitsIn, build_collection_plan_total}

program : Unit {0}
unfolding build_collection_plan chunked
program = tt

-- A format of the numbers: that many strokes.
abbrev strokes : ℕ → String
strokes zero = ""
strokes (suc n) = String.◌∷◌ "|" (strokes n)

abbrev rest_of : String → String
rest_of String.[] = String.[]
rest_of (String.◌∷◌ c s) = s

strokes-injective : (a b : ℕ) → strokes a ≡ strokes b → a ≡ b
strokes-injective zero zero e = refl
strokes-injective zero (suc b) e = cc
strokes-injective (suc a) zero e = cc
strokes-injective (suc a) (suc b) e = ap suc (strokes-injective a b (ap rest_of e))

abbrev described : String → ℕ → KeywordDescriptor
described k tier = record { keyword = k; tier = tier; intent = codes "Commercial" }

abbrev request : CollectionRequest
request = record {
  keywords = described "roof repair" 2 ∷ described "roofer" 1 ∷ described "why roofs" 3 ∷ [];
  metros = record { metro_id = "phoenix"; location_code = 7; principal_city = none } ∷ [];
  collection_profile = interactive;
}

-- One batch, two organic tasks, then the maps task for the keyword of tier one.
types :
    map (λ t. t.task_type) (plan_metros strokes request request.metros 1).base_tasks
    ≡ keyword_volume ∷ serp_organic ∷ serp_organic ∷ serp_maps ∷ []
unfolding program
types = refl

keywords :
    map (λ t. t.payload.keyword) (plan_metros strokes request request.metros 1).base_tasks
    ≡ none ∷ some "roof repair" ∷ some "roofer" ∷ some "roofer" ∷ []
unfolding program
keywords = refl

build_collection_plan_total_example :
    (plan : CollectionPlan) × (build_collection_plan strokes request ≡ ok plan)
    × DistinctIds (ids_of plan.base_tasks)
    × All (WaitsIn (ids_of plan.base_tasks)) plan.dependent_templates
build_collection_plan_total_example = build_collection_plan_total strokes request strokes-injective

abbrev three : List String
three = "a" ∷ "b" ∷ "c" ∷ []

batches : chunked three 2 ≡ ("a" ∷ "b" ∷ []) ∷ ("c" ∷ []) ∷ []
unfolding program
batches = refl

chunked-flat_example : (flat (chunked three 2) ≡ three) × All (IsBatch 2) (chunked three 2)
chunked-flat_example = chunked-flat three 2 (omega arith)
