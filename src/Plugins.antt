-- ===== src/Plugins.antt =====
-- src/research_agent/plugins/base.py: the registry of the tool plugins. A plugin is its name, the names
-- of its tools, and what a call of a tool returns or raises; `A` are the arguments of the calls and
-- `R` their results.
mod Routes
mod Tests
use whidby.Signals.{codes}
use whidby.Prelude.{
  le_text, Bool, true, false, not, ◌||◌, List, [], ◌∷◌, ◌++◌, Option, none, some, String, str_eq,
  if◌then◌else◌, Result, ok, raise, value_error, key_error, has, keys, assign, lookup,
}

pub record ToolPlugin (A R : Type 0) : Type 0 where
  pub name : String
  pub tool_definitions : List String
  pub call_tool : String → A → Result R

pub record PluginRegistry (A R : Type 0) : Type 0 where
  pub plugins : List (String × ToolPlugin A R)
  pub tool_map : List (String × String)

-- One of the names is a key.
abbrev pub collides : List String → List (String × String) → Bool
collides [] tool_map = false
collides (t ∷ ts) tool_map = has t (keys tool_map) || collides ts tool_map

-- `self._tool_map[name] = plugin` for every name
unfoldable pub map_tools : String → List String → List (String × String) → List (String × String)
map_tools plugin [] tool_map = tool_map
map_tools plugin (t ∷ ts) tool_map = map_tools plugin ts (assign t plugin tool_map)

-- `sorted` on texts.
abbrev pub before_id : String → String → Bool
before_id a b = le_text (codes a) (codes b)

unfoldable pub insert_id : String → List String → List String
insert_id a [] = a ∷ []
insert_id a (b ∷ bs) = let rest = insert_id a bs in if before_id a b then a ∷ b ∷ bs else b ∷ rest

unfoldable pub sort_ids : List String → List String
unfolding insert_id
sort_ids [] = []
sort_ids (a ∷ as') = insert_id a (sort_ids as')

module _ {A R : Type 0} where
  unfoldable pub empty_registry : PluginRegistry A R
  empty_registry = record { plugins = []; tool_map = [] }

  unfoldable pub register : ToolPlugin A R → PluginRegistry A R → Result (PluginRegistry A R)
  unfolding map_tools
  register plugin r =
      if has plugin.name (keys r.plugins) || collides plugin.tool_definitions r.tool_map
      then raise value_error
      else ok (record {
        plugins = assign plugin.name plugin r.plugins;
        tool_map = map_tools plugin.name plugin.tool_definitions r.tool_map;
      })

  -- The registry afterwards, and whether the plugin was registered.
  unfoldable pub register_safe : ToolPlugin A R → PluginRegistry A R → PluginRegistry A R × Bool
  unfolding register
  register_safe plugin r = elim (register plugin r) [ ok r' ↦ (r', true) | raise e ↦ (r, false) ]

  -- `self._plugins.values()`, joined
  unfoldable pub tools_of : List (String × ToolPlugin A R) → List String
  tools_of [] = []
  tools_of ((k, p) ∷ ps) = p.tool_definitions ++ tools_of ps

  unfoldable pub get_tool_definitions : PluginRegistry A R → List String
  unfolding tools_of
  get_tool_definitions r = tools_of r.plugins

  unfoldable pub list_plugins : PluginRegistry A R → List String
  unfolding sort_ids
  list_plugins r = sort_ids (keys r.plugins)

  unfoldable pub execute : String → A → PluginRegistry A R → Result R
  execute tool arguments r = elim (lookup tool r.tool_map) [
    | none ↦ raise key_error
    | some name ↦ elim (lookup name r.plugins) [
      | none ↦ raise key_error
      | some plugin ↦ plugin.call_tool tool arguments
    ]
  ]

  -- The registrations of a list of plugins, in order.
  unfoldable pub register_all : List (ToolPlugin A R) → PluginRegistry A R → PluginRegistry A R
  unfolding register_safe
  register_all [] r = r
  register_all (p ∷ ps) r = register_all ps (register_safe p r).0
