-- ===== src/Plugins/Tests.antt =====
-- Three plugins, of which one takes a tool name that is in use.
use whidby.Prelude.{
  ◌≡◌, refl, List, [], ◌∷◌, some, String, ok, raise, key_error, value_error, lookup,
}
use whidby.Plugins.{
  ToolPlugin, PluginRegistry, empty_registry, register, get_tool_definitions, execute, register_all,
}
use whidby.Plugins.Routes.{register_all-execute}

program : Unit {0}
unfolding register_all execute get_tool_definitions empty_registry
program = tt

-- A plugin that answers with its name.
abbrev plugin : String → List String → ToolPlugin String String
plugin name tools = record { name = name; tool_definitions = tools; call_tool = λ t a. ok name }

abbrev metro : ToolPlugin String String
metro = plugin "metro" ("expand_metros" ∷ "get_metro" ∷ [])

abbrev offered : List (ToolPlugin String String)
offered = metro ∷ plugin "copy" ("other" ∷ "get_metro" ∷ []) ∷ plugin "llm" ("ask" ∷ []) ∷ []

abbrev registry : PluginRegistry String String
registry = register_all offered empty_registry

tools : get_tool_definitions registry ≡ "expand_metros" ∷ "get_metro" ∷ "ask" ∷ []
unfolding program
tools = refl

collision : register (plugin "copy" ("get_metro" ∷ [])) registry ≡ raise value_error
unfolding program
collision = refl

unknown : execute "other" "" registry ≡ raise key_error
unfolding program
unknown = refl

metro-is_registered : lookup "metro" registry.plugins ≡ some metro
unfolding program
metro-is_registered = refl

register_all-execute_example : execute "get_metro" "phoenix" registry ≡ ok "metro"
register_all-execute_example =
    register_all-execute offered "metro" "get_metro" metro "phoenix" metro-is_registered refl
