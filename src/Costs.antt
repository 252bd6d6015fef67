-- ===== src/Costs.antt =====
-- src/clients/dataforseo/cost_tracker.py: the cost records of the API calls, by scoring run. The
-- context variable is a field of the state, and the Supabase client is a function that takes the rows
-- and returns or raises. Payload fields that no operation reads are left out.
mod Aggregates
mod Contexts
mod Tests
use whidby.Prelude.{
  ℕ, zero, suc, ◌+◌, ◌-◌, Bool, true, false, not, ◌&&◌, List, [], ◌∷◌, ◌++◌, Option, none, some,
  String, str_eq, length, filterb, countb, map, if◌then◌else◌, Result, ok, raise,
}
use whidby.Num.Order.{Num, decimal, ◌⊕◌}

pub record CostRecord (F : Type 0) : Type 0 where
  pub endpoint : String
  pub task_id : String
  pub cost : F
  pub cached : Bool
  pub latency_ms : ℕ
  pub parameters : List (String × String)
  pub collection_context_id : Option String

-- A row of `api_usage_log`.
pub record UsageRow (F : Type 0) : Type 0 where
  pub endpoint : String
  pub task_id : String
  pub cost : F
  pub cached : Bool
  pub latency_ms : ℕ
  pub parameters : List (String × String)
  pub report_id : String

pub record CostTracker (F : Type 0) : Type 0 where
  pub records : List (CostRecord F)
  pub active_context : Option String

-- The entry of an endpoint: `{"calls": …, "cost": …, "cached": …}`
pub record Group (F : Type 0) : Type 0 where
  pub calls : ℕ
  pub cost : F
  pub cached : ℕ

module _ {F : Type 0} where
  -- `with capture_context(context_id): body`; the variable is reset whether the body returns or raises.
  unfoldable pub capture_context :
      {A : Type 0}
      → String
      → (CostTracker F → Result A × CostTracker F)
      → CostTracker F
      → Result A × CostTracker F
  capture_context context_id body t =
      let r = body (record t { active_context = some context_id }) in
      (r.0, record r.1 { active_context = t.active_context })

  -- `record(…)`: without a context id of its own, a record belongs to the active context.
  unfoldable pub record_call : CostRecord F → CostTracker F → CostTracker F
  record_call r t = record t {
    records =
        t.records
        ++ (record r {
          collection_context_id = elim (r.collection_context_id) [
            | none ↦ t.active_context
            | some c ↦ some c
          ];
        }
            ∷ []);
  }

  -- `record.collection_context_id == context_id`
  unfoldable pub in_context : String → CostRecord F → Bool
  in_context c r = elim (r.collection_context_id) [ none ↦ false | some d ↦ str_eq d c ]

  unfoldable pub records_for_context : String → CostTracker F → List (CostRecord F)
  unfolding in_context
  records_for_context c t = filterb (in_context c) t.records

  unfoldable pub drain_context : String → CostTracker F → CostTracker F × ℕ
  unfolding in_context
  drain_context c t =
      let left = filterb (λ r. not (in_context c r)) t.records in
      (record t { records = left }, length t.records - length left)

  unfoldable pub total_calls : CostTracker F → ℕ
  total_calls t = length t.records

  unfoldable pub cached_calls : CostTracker F → ℕ
  cached_calls t = countb (λ r. r.cached) t.records

  -- `self._records if context_id is None else self.records_for_context(context_id)`
  unfoldable pub selected : Option String → CostTracker F → List (CostRecord F)
  unfolding records_for_context
  selected none t = t.records
  selected (some c) t = records_for_context c t

  unfoldable pub usage_row : String → CostRecord F → UsageRow F
  usage_row report_id r = record {
    endpoint = r.endpoint;
    task_id = r.task_id;
    cost = r.cost;
    cached = r.cached;
    latency_ms = r.latency_ms;
    parameters = r.parameters;
    report_id = report_id;
  }

  -- `flush_to_supabase`; `client` is the insert of the client that is given or made from the
  -- environment, and none when there is no argument and the environment names no database. An
  -- environment whose client cannot be created is left out.
  unfoldable pub flush_to_supabase :
      String
      → Option String
      → Bool
      → Option (List (UsageRow F) → Result (Unit {0}))
      → CostTracker F
      → Result ℕ × CostTracker F
  unfolding selected usage_row drain_context
  flush_to_supabase report_id context_id drain client t = elim (selected context_id t) [
    | [] ↦ (ok 0, t)
    | r ∷ rs ↦ elim client [
      | none ↦ (ok 0, t)
      | some insert ↦ elim (insert (map (usage_row report_id) (r ∷ rs))) [
        | raise e ↦ (raise e, t)
        | ok u ↦ (
          ok (length (r ∷ rs)),
          elim context_id [ none ↦ t | some c ↦ if drain then (drain_context c t).0 else t ],
        )
      ]
    ]
  ]

module _ {F : Type 0} ⦃n : Num F⦄ where
  -- `sum(…)`, from `acc`
  unfoldable pub sum_costs : F → List (CostRecord F) → F
  sum_costs acc [] = acc
  sum_costs acc (r ∷ rs) = sum_costs (acc ⊕ r.cost) rs

  unfoldable pub total_cost : CostTracker F → F
  unfolding sum_costs
  total_cost t = sum_costs (decimal 0) t.records

  -- The group of a new endpoint, and one record counted in a group.
  abbrev pub new_group : Group F
  new_group = record { calls = 0; cost = decimal 0; cached = 0 }

  unfoldable pub counted : CostRecord F → Group F → Group F
  counted r g = record {
    calls = g.calls + 1;
    cost = g.cost ⊕ r.cost;
    cached = if r.cached then g.cached + 1 else g.cached;
  }

  -- `g = groups[r.endpoint]`, changed in place
  unfoldable pub add_to : CostRecord F → List (String × Group F) → List (String × Group F)
  unfolding counted
  add_to r [] = (r.endpoint, counted r new_group) ∷ []
  add_to r ((e, g) ∷ groups) =
      if str_eq e r.endpoint then (e, counted r g) ∷ groups else (e, g) ∷ add_to r groups

  unfoldable pub grouped : List (CostRecord F) → List (String × Group F) → List (String × Group F)
  unfolding add_to
  grouped [] groups = groups
  grouped (r ∷ rs) groups = grouped rs (add_to r groups)

  unfoldable pub cost_by_endpoint : Option String → CostTracker F → List (String × Group F)
  unfolding selected grouped
  cost_by_endpoint context_id t = grouped (selected context_id t) []
