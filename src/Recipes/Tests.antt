-- ===== src/Recipes/Tests.antt =====
-- A recipe in two rounds: the model uses a tool, and then answers with a JSON object in a fence.
use whidby.Prelude.{
  ℕ, ◌≡◌, refl, ◌≤◌, true, List, [], ◌∷◌, none, some, String, Result, ok, raise, ◌==◌,
  if◌then◌else◌, runner_error, value_error,
}
use whidby.Num.Order.{of_int}
use whidby.Num.Fixed.{ℤ, pos, fixed_num}
use whidby.Signals.{codes}
use whidby.Plugins.{list_plugins, ToolPlugin, PluginRegistry, empty_registry, register_all}
use whidby.Recipes.Json.{
  text, tool_use, Loaded, invalid, dict, scan_balanced_object, extract_json_payload,
}
use whidby.Recipes.{Recipe, register_recipe, get_recipe, list_recipes}
use whidby.Recipes.Runner.{
  Response, ModelMessage, inputs, ModelServices, Output, RunResult, all_registered, add_costs,
  run_recipe,
}
use whidby.Recipes.Conversation.{Talk}
use whidby.Recipes.Rounds.{ends, run_recipe-Explained}

program : Unit {0}
unfolding run_recipe register_all empty_registry register_recipe get_recipe list_recipes
program = tt

abbrev serp_plugin : ToolPlugin ℕ ℕ
serp_plugin = record { name = "serp"; tool_definitions = "search" ∷ []; call_tool = λ tool k. ok k }

abbrev registry : PluginRegistry ℕ ℕ
registry = register_all (serp_plugin ∷ []) empty_registry

-- The texts that are loaded as dicts are those in braces.
abbrev loads : List ℕ → Loaded (List ℕ)
loads [] = invalid
loads (c ∷ cs) = if c == b'{' then dict cs else invalid

abbrev answer : List ℕ
answer = codes "Done. ```json {1} ```"

abbrev model : List (ModelMessage ℤ ℕ ℕ) → Result (Response ℕ)
model (m ∷ []) = ok (record {
  stop_reason = "tool_use";
  content = tool_use "search" 300 ∷ tool_use "missing" 1 ∷ [];
})
model ms = ok (record { stop_reason = "end_turn"; content = text answer ∷ [] })

abbrev services : ModelServices ℤ ℕ ℕ
services = record { create = model; cost_of = λ k. ok (pos k) }

abbrev output : Output (List ℕ)
output = record { loads = loads; compose_report = λ i t d. ok (i, 7) }

abbrev recipe : Recipe (List ℕ)
recipe = record {
  recipe_id = "market";
  audience = "agency";
  required_plugins = "serp" ∷ [];
  optional_plugins = [];
  system_prompt = "";
  template_name = "market.html";
  scoring_fn = none;
}

abbrev blank : RunResult ℤ ℕ ℕ (List ℕ)
blank = record {
  report_path = "";
  bytes = 0;
  context = [];
  collected = [];
  tool_calls = [];
  cost_usd = pos 0;
  rounds_used = 0;
  status = "";
}

abbrev result_or : Result (RunResult ℤ ℕ ℕ (List ℕ)) → RunResult ℤ ℕ ℕ (List ℕ)
result_or (ok x) = x
result_or (raise e) = blank

abbrev ran : RunResult ℤ ℕ ℕ (List ℕ)
ran = result_or (run_recipe registry services output 12 recipe)

returned : run_recipe registry services output 12 recipe ≡ ok ran
unfolding program
returned = refl

run_summary :
    (ran.status ≡ "ok")
    × (ran.rounds_used ≡ 2)
    × (ran.cost_usd ≡ pos 300)
    × (ran.collected ≡ codes "1}")
unfolding program
run_summary = (refl, refl, refl, refl)

run_recipe-Explained_example :
    (all_registered ("serp" ∷ []) (list_plugins registry) ≡ true)
    × (ran.rounds_used ≤ 12)
    × (ran.cost_usd ≡ add_costs registry services (of_int 0) ran.tool_calls)
    × (response : Response ℕ) × Talk registry services 12 ran.rounds_used
        (inputs ∷ [])
        ran.tool_calls
        response
    × (ran.status ≡ (if ends (some response) then "ok" else "partial"))
    × (extract_json_payload loads response.content ≡ ok ran.collected)
run_recipe-Explained_example = run_recipe-Explained registry services output 12 recipe ran returned

-- One round is not enough, and the tool use has no text.
cut_off : run_recipe registry services output 1 recipe ≡ raise runner_error
unfolding program
cut_off = refl

plugin_missing : run_recipe empty_registry services output 12 recipe ≡ raise runner_error
unfolding program
plugin_missing = refl

-- A brace in a string does not count, and the first object that is loaded is taken.
scanned : scan_balanced_object loads (codes "x } {\"}\" 2} {3}") ≡ some (codes "\"}\" 2}")
unfolding program scan_balanced_object
scanned = refl

registered_twice :
    elim (register_recipe recipe []) as (λ _. Result (List (String × Recipe (List ℕ)))) [
      | raise e ↦ raise e
      | ok recipes ↦ register_recipe recipe recipes
    ]
    ≡ raise value_error
unfolding program
registered_twice = refl
