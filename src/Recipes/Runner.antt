-- ===== src/Recipes/Runner.antt =====
-- src/research_agent/recipes/runner.py: the runner, which calls a model in rounds, executes the tools
-- that it asks for through the registry of Plugins, and renders a report. `A` are the inputs of the
-- tools, `R` their results, `D` the JSON dicts. The model is a function of the messages: its prompt and
-- its tools are the same in every round.
use whidby.Prelude.{
  ℕ, zero, suc, Bool, true, false, ◌&&◌, List, [], ◌∷◌, ◌++◌, map, Option, none, some, String,
  str_eq, if◌then◌else◌, Result, ok, raise, ◌>>=◌, runner_error, Exception, has,
}
use whidby.Num.Order.{Num, of_int, ◌⊕◌}
use whidby.Plugins.{list_plugins, PluginRegistry, execute}
use whidby.Recipes.Json.{Block, text, tool_use, unknown, Loaded, extract_json_payload}
use whidby.Recipes.{Recipe}

pub record Response (A : Type 0) : Type 0 where
  pub stop_reason : String
  pub content : List (Block A)

-- A record of a tool call. There can be a result and an error, when the cost of a result is no number.
pub record ToolRecord (F A R : Type 0) : Type 0 where
  pub tool_name : String
  pub arguments : A
  pub result : Option R
  pub error : Option Exception
  pub cost_usd : F

-- The first message, what the model said, and what its tools returned.
pub data ModelMessage (F A R : Type 0) : Type 0 where
  inputs : ModelMessage F A R
  assistant : List (Block A) → ModelMessage F A R
  tool_results : List (ToolRecord F A R) → ModelMessage F A R

-- The model, and `float(result.get("cost_usd", 0.0))`.
pub record ModelServices (F A R : Type 0) : Type 0 where
  pub create : List (ModelMessage F A R) → Result (Response A)
  pub cost_of : R → Result F

pub record RoundsState (F A R : Type 0) : Type 0 where
  pub messages : List (ModelMessage F A R)
  pub tool_calls : List (ToolRecord F A R)
  pub cost : F
  pub last_response : Option (Response A)
  pub rounds_used : ℕ
  pub hit_end_turn : Bool

abbrev pub tool_uses : {A : Type 0} → List (Block A) → List (String × A)
tool_uses [] = []
tool_uses (text t ∷ bs) = tool_uses bs
tool_uses (tool_use name input ∷ bs) = (name, input) ∷ tool_uses bs
tool_uses (unknown ∷ bs) = tool_uses bs

module _ {F A R : Type 0} ⦃n : Num F⦄ (registry : PluginRegistry A R)
    (services : ModelServices F A R) where
  unfoldable pub record_tool : String → A → Result R → ToolRecord F A R
  record_tool name input (raise e) = record {
    tool_name = name;
    arguments = input;
    result = none;
    error = some e;
    cost_usd = of_int 0;
  }
  record_tool name input (ok r) = elim (services.cost_of r) [
    | ok cost ↦ record {
      tool_name = name;
      arguments = input;
      result = some r;
      error = none;
      cost_usd = cost;
    }
    | raise e ↦ record {
      tool_name = name;
      arguments = input;
      result = some r;
      error = some e;
      cost_usd = of_int 0;
    }
  ]

  unfoldable pub execute_tool : String → A → ToolRecord F A R
  unfolding execute record_tool
  execute_tool name input = record_tool name input (execute name input registry)

  abbrev pub executed : List (String × A) → List (ToolRecord F A R)
  executed uses = map (λ u. execute_tool u.0 u.1) uses

  -- The costs, added one by one.
  abbrev pub add_costs : F → List (ToolRecord F A R) → F
  add_costs cost [] = cost
  add_costs cost (r ∷ rs) = add_costs (cost ⊕ r.cost_usd) rs

  -- The state after a response, and whether the loop goes on.
  unfoldable pub answered :
      Response A → List (String × A) → RoundsState F A R → RoundsState F A R × Bool
  unfolding execute_tool
  answered response [] s = (s, false)
  answered response (u ∷ us) s =
      let records = executed (u ∷ us) in
      (
        record s {
          messages = s.messages ++ assistant response.content ∷ tool_results records ∷ [];
          tool_calls = s.tool_calls ++ records;
          cost = add_costs s.cost records;
        },
        true,
      )

  -- A round by its stop reason: the end of the turn, or the use of tools.
  unfoldable pub turned : Bool → Bool → Response A → RoundsState F A R → RoundsState F A R × Bool
  unfolding answered
  turned true uses_tools response seen = (record seen { hit_end_turn = true }, false)
  turned false false response seen = (seen, false)
  turned false true response seen = answered response (tool_uses response.content) seen

  abbrev pub seen_by : Response A → RoundsState F A R → RoundsState F A R
  seen_by response s = record s { last_response = some response; rounds_used = suc s.rounds_used }

  unfoldable pub round_of : Response A → RoundsState F A R → RoundsState F A R × Bool
  unfolding turned
  round_of response s =
      turned (str_eq response.stop_reason "end_turn") (str_eq response.stop_reason "tool_use")
        response (seen_by response s)

  -- The rounds that are left.
  unfoldable pub rounds : ℕ → RoundsState F A R → Result (RoundsState F A R)
  unfolding round_of
  rounds zero s = ok s
  rounds (suc left) s = services.create s.messages >>= λ response.
      let (t, goes_on) = round_of response s in
      let rest = rounds left t in if goes_on then rest else ok t

  abbrev pub first_state : RoundsState F A R
  first_state = record {
    messages = inputs ∷ [];
    tool_calls = [];
    cost = of_int 0;
    last_response = none;
    rounds_used = 0;
    hit_end_turn = false;
  }

pub record RunResult (F A R D : Type 0) : Type 0 where
  pub report_path : String
  pub bytes : ℕ
  pub context : D
  pub collected : D
  pub tool_calls : List (ToolRecord F A R)
  pub cost_usd : F
  pub rounds_used : ℕ
  pub status : String

-- `json.loads`, and the call of `compose_report` with its path and its size.
pub record Output (D : Type 0) : Type 0 where
  pub loads : List ℕ → Loaded D
  pub compose_report : String → String → D → Result (String × ℕ)

-- The required plugins are registered.
abbrev pub all_registered : List String → List String → Bool
all_registered [] names = true
all_registered (p ∷ ps) names = has p names && all_registered ps names

abbrev pub score : {D : Type 0} → Recipe D → D → Result D
score recipe collected = elim (recipe.scoring_fn) [ none ↦ ok collected | some f ↦ f collected ]

module _ {F A R D : Type 0} ⦃n : Num F⦄ where
  unfoldable pub result_of : Recipe D → RoundsState F A R → D → D → String × ℕ → RunResult F A R D
  result_of recipe s collected context (path, size) = record {
    report_path = path;
    bytes = size;
    context = context;
    collected = collected;
    tool_calls = s.tool_calls;
    cost_usd = s.cost;
    rounds_used = s.rounds_used;
    status = if s.hit_end_turn then "ok" else "partial";
  }

  -- What follows the loop, from the last response.
  unfoldable pub finish_run :
      Output D → Recipe D → RoundsState F A R → Option (Response A) → Result (RunResult F A R D)
  unfolding extract_json_payload result_of
  finish_run output recipe s none = raise runner_error
  finish_run output recipe s (some response) = do
    collected ← extract_json_payload output.loads response.content
    context ← score recipe collected
    report ← output.compose_report recipe.recipe_id recipe.template_name context
    ok (result_of recipe s collected context report)

  unfoldable pub run_recipe :
      PluginRegistry A R
      → ModelServices F A R
      → Output D
      → ℕ
      → Recipe D
      → Result (RunResult F A R D)
  unfolding rounds finish_run list_plugins
  run_recipe registry services output max_tool_rounds recipe =
      if all_registered recipe.required_plugins (list_plugins registry)
      then (rounds registry services max_tool_rounds (first_state registry services) >>= λ s.
          finish_run output recipe s s.last_response)
      else raise runner_error
