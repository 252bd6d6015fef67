-- ===== src/Collection/Plan/Total.antt =====
-- collection_plan.py: a request always has a plan, and its templates wait for tasks of the plan.
use whidby.Prelude.{
  has, ℕ, ◌+◌, ◌≡◌, refl, sym, subst, true, ◌||◌, List, [], ◌∷◌, ◌++◌, map, String, eq_iff, arith,
  length, All, All-append, ok,
}
use whidby.Collection.{CollectionTask, Payload}
use whidby.Collection.Members.{DistinctIds, has_self}
use whidby.Collection.Ids.{ids_of}
use whidby.Collection.Acyclic.{IsAcyclic, IsAcyclic-accepted}
use whidby.Collection.Plan.{
  KeywordDescriptor, MetroInput, CollectionProfile, interactive, full, CollectionRequest,
  CollectionPlan, chunked, max_volume_batch_size, eligible_keywords, volume_tasks, organic_tasks,
  maps_tasks, plan_metros, build_collection_plan, templates,
}
use whidby.Collection.Plan.Numbers.{plan_metros-Numbered, Numbered-DistinctIds, Numbered-edges}

has-ids_of_append :
    (x : String) (xs ys : List (CollectionTask Payload))
    → has x (ids_of (xs ++ ys)) ≡ (has x (ids_of xs) || has x (ids_of ys))
has-ids_of_append x [] ys = refl
has-ids_of_append x (t ∷ xs) ys = ground (arith, has-ids_of_append x xs ys)

-- What a task waits for is among `ids`.
abbrev pub WaitsIn : List String → CollectionTask Payload → Type 0
WaitsIn ids t = All (λ d. has d ids ≡ true) t.depends_on

WaitsIn-more :
    (ids ids' : List String) (ts : List (CollectionTask Payload))
    → ((x : String) → has x ids ≡ true → has x ids' ≡ true)
    → All (WaitsIn ids) ts
    → All (WaitsIn ids') ts
WaitsIn-more ids ids' [] h w = tt
WaitsIn-more ids ids' (t ∷ ts) h (a, w) = (more t.depends_on a, WaitsIn-more ids ids' ts h w)
  where
    more : (ds : List String) → All (λ d. has d ids ≡ true) ds → All (λ d. has d ids' ≡ true) ds
    more [] k = tt
    more (d ∷ ds) (i, k) = (h d i, more ds k)

templates-WaitsIn :
    (p : CollectionProfile) (metro : MetroInput) (organic maps : String) (ids : List String)
    → has organic ids ≡ true
    → has maps ids ≡ true
    → All (WaitsIn ids) (templates p metro organic maps)
unfolding templates
templates-WaitsIn interactive metro organic maps ids o m = ((m, tt), ((m, tt), tt))
templates-WaitsIn full metro organic maps ids o m =
    ((o, tt), ((o, tt), ((m, tt), ((m, tt), ((m, tt), tt)))))

-- The numbers that the templates wait for are those of the first organic task and the maps task.
maps_tasks-WaitsIn :
    (format_id : ℕ → String) (metro : MetroInput) (p : CollectionProfile) (first n : ℕ)
    (ks : List KeywordDescriptor) (rest : List (CollectionTask Payload))
    → let mapped = maps_tasks format_id metro p first n ks in
      All (WaitsIn (ids_of (organic_tasks format_id metro first ks ++ (mapped.0 ++ rest)))) mapped.1
unfolding maps_tasks organic_tasks
maps_tasks-WaitsIn format_id metro p first n [] rest = tt
maps_tasks-WaitsIn format_id metro p first n (k ∷ ks) rest =
    let organic = organic_tasks format_id metro first (k ∷ ks) in
    let mapped = (maps_tasks format_id metro p first n (k ∷ ks)).0 in
    templates-WaitsIn p metro (format_id first) (format_id n) (ids_of (organic ++ (mapped ++ rest)))
      (has_self (format_id first) _)
      (ground (
        arith,
        has-ids_of_append (format_id n) organic (mapped ++ rest),
        eq_iff (format_id n) (format_id n),
      ))

plan_metros-WaitsIn :
    (format_id : ℕ → String) (request : CollectionRequest) (metros : List MetroInput) (n : ℕ)
    → let plan = plan_metros format_id request metros n in
      All (WaitsIn (ids_of plan.base_tasks)) plan.dependent_templates
unfolding plan_metros
plan_metros-WaitsIn format_id request [] n = tt
plan_metros-WaitsIn format_id request (metro ∷ metros) n =
    let batches = chunked (map (λ k. k.keyword) request.keywords) max_volume_batch_size in
    let eligible = eligible_keywords request in
    let first = n + length batches in
    let maps = first + length eligible in
    let profile = request.collection_profile in
    let mapped = maps_tasks format_id metro profile first maps eligible in
    let rest = plan_metros format_id request metros (maps + length mapped.0) in
    let volume = volume_tasks format_id metro n 1 batches in
    let organic = organic_tasks format_id metro first eligible in
    let base = volume ++ (organic ++ (mapped.0 ++ rest.base_tasks)) in
    All-append (WaitsIn (ids_of base)) mapped.1 rest.dependent_templates
      (WaitsIn-more _ (ids_of base) mapped.1
        (λ x h.
          ground (arith, h, has-ids_of_append x volume (organic ++ (mapped.0 ++ rest.base_tasks))))
        (maps_tasks-WaitsIn format_id metro profile first maps eligible rest.base_tasks))
      (WaitsIn-more _ (ids_of base) rest.dependent_templates
        (λ x h. ground (
          arith,
          h,
          has-ids_of_append x volume (organic ++ (mapped.0 ++ rest.base_tasks)),
          has-ids_of_append x organic (mapped.0 ++ rest.base_tasks),
          has-ids_of_append x mapped.0 rest.base_tasks,
        ))
        (plan_metros-WaitsIn format_id request metros (maps + length mapped.0)))

-- Every request has a plan, if the format of the numbers is injective: planning never raises, the ids
-- of the base tasks are distinct, and every template waits only for base tasks.
pub build_collection_plan_total :
    (format_id : ℕ → String) (request : CollectionRequest)
    → ((a b : ℕ) → format_id a ≡ format_id b → a ≡ b)
    → (plan : CollectionPlan) × (build_collection_plan format_id request ≡ ok plan)
      × DistinctIds (ids_of plan.base_tasks)
      × All (WaitsIn (ids_of plan.base_tasks)) plan.dependent_templates
unfolding build_collection_plan
build_collection_plan_total format_id request inj =
    let plan = plan_metros format_id request request.metros 1 in
    let numbered = plan_metros-Numbered format_id request request.metros 1 in
    let distinct = Numbered-DistinctIds format_id 1 plan.base_tasks inj numbered in
    let no_edges = Numbered-edges format_id 1 plan.base_tasks numbered in
    let acyclic : IsAcyclic plan.base_tasks = record {
      distinct = distinct;
      known = subst (All _) (sym no_edges) tt;
      rank = λ x. 0;
      forward = subst (All _) (sym no_edges) tt;
    } in
    (
      plan,
      rw (IsAcyclic-accepted plan.base_tasks acyclic) refl,
      distinct,
      plan_metros-WaitsIn format_id request request.metros 1,
    )
