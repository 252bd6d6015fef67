-- ===== src/Plugins/Routes.antt =====
-- plugins/base.py: a registry routes every tool that it offers, and no other, to a plugin that has it.
use whidby.Prelude.{
  ◌≡◌, refl, ap, sym, ◌∙◌, subst, Bool, true, false, ◌||◌, Bool-cases, inl, inr, List, [], ◌∷◌,
  Option, some, String, str_eq, eq_iff, arith, if◌then◌else◌, has, keys, assign, lookup,
  lookup-assign,
}
use mathlib.Core.Option.{some-injective}
use whidby.Plugins.{
  ToolPlugin, PluginRegistry, collides, map_tools, empty_registry, register, register_safe, execute,
  register_all,
}

lookup-has {ℓ} :
    {A : Type ℓ} (x : String) (a : A) (es : List (String × A))
    → lookup x es ≡ some a
    → has x (keys es) ≡ true
lookup-has x a [] e = cc
lookup-has x a ((k, b) ∷ es) e = elim (Bool-cases (str_eq k x)) [
  | inl same ↦ ground arith
  | inr other ↦
      let later =
        lookup-has x a es (ap (λ b'. if b' then some b else lookup x es) (sym other) ∙ e) in
      ground (arith, later)
]

collides-has :
    (t : String) (ts : List String) (m : List (String × String))
    → collides ts m ≡ false
    → has t ts ≡ true
    → has t (keys m) ≡ false
collides-has t [] m c h = ground arith
collides-has t (u ∷ us) m c h = elim (Bool-cases (str_eq u t)) [
  | inl same ↦ subst (λ i. has i (keys m) ≡ false) ((eq_iff u t).0 same) (ground arith)
  | inr other ↦ collides-has t us m (ground arith) (ground arith)
]

lookup-map_tools :
    (t name : String) (ts : List String) (m : List (String × String))
    → lookup t (map_tools name ts m) ≡ (if has t ts then some name else lookup t m)
unfolding map_tools
lookup-map_tools t name [] m = refl
lookup-map_tools t name (u ∷ us) m =
    let later = lookup-map_tools t name us (assign u name m) in
    ground (arith, later, lookup-assign t u name m)

module _ {A R : Type 0} where
  -- A tool of a registered plugin is mapped to the plugin.
  abbrev Routed : PluginRegistry A R → Type 0
  Routed r =
      (t k : String) (q : ToolPlugin A R)
      → lookup k r.plugins ≡ some q
      → has t q.tool_definitions ≡ true
      → lookup t r.tool_map ≡ some k

  register-Routed :
      (p : ToolPlugin A R) (r : PluginRegistry A R)
      → collides p.tool_definitions r.tool_map ≡ false
      → Routed r
      → Routed (record {
        plugins = assign p.name p r.plugins;
        tool_map = map_tools p.name p.tool_definitions r.tool_map;
      })
  register-Routed p r c routed t k q e h =
      let choice : Bool → Option (ToolPlugin A R) = λ b. if b then some p else lookup k r.plugins in
      let found = sym (lookup-assign k p.name p r.plugins) ∙ e in
      let mapped = lookup-map_tools t p.name p.tool_definitions r.tool_map in
      let mapping : Bool → Option String = λ b. if b then some p.name else lookup t r.tool_map in
      elim (Bool-cases (str_eq p.name k)) [
        | inl same ↦
            let p_is_q = some-injective p q (ap choice (sym same) ∙ found) in
            let own : has t p.tool_definitions ≡ true =
              ap (λ z. has t z.tool_definitions) p_is_q ∙ h in
            mapped ∙ ap mapping own ∙ ap some ((eq_iff p.name k).0 same)
        | inr other ↦
            let before = routed t k q (ap choice (sym other) ∙ found) h in
            elim (Bool-cases (has t p.tool_definitions)) [
              | inr foreign ↦ mapped ∙ ap mapping foreign ∙ before
              | inl own ↦
                  let absent = collides-has t p.tool_definitions r.tool_map c own in
                  let there = lookup-has t k r.tool_map before in ground (arith, absent, there)
            ]
      ]

  register_safe-Routed :
      (p : ToolPlugin A R) (r : PluginRegistry A R) → Routed r → Routed ((register_safe p r).0)
  unfolding register_safe register
  register_safe-Routed p r routed =
      elim (Bool-cases (has p.name (keys r.plugins) || collides p.tool_definitions r.tool_map)) [
        | inl e ↦ rw (e, register, register_safe) routed
        | inr e ↦ rw (e, register, register_safe) (register-Routed p r (ground (arith, e)) routed)
      ]

  register_all-Routed :
      (ps : List (ToolPlugin A R)) (r : PluginRegistry A R) → Routed r → Routed (register_all ps r)
  unfolding register_all
  register_all-Routed [] r routed = routed
  register_all-Routed (p ∷ ps) r routed =
      register_all-Routed ps ((register_safe p r).0) (register_safe-Routed p r routed)

  -- Whichever plugins were offered for registration, in whatever order, and however many were refused:
  -- a call of a tool of a registered plugin is a call of that plugin.
  pub register_all-execute :
      (ps : List (ToolPlugin A R)) (name tool : String) (q : ToolPlugin A R) (arguments : A)
      → lookup name (register_all ps empty_registry).plugins ≡ some q
      → has tool q.tool_definitions ≡ true
      → execute tool arguments (register_all ps empty_registry) ≡ q.call_tool tool arguments
  unfolding execute empty_registry
  register_all-execute ps name tool q arguments e h =
      let routed = register_all-Routed ps empty_registry (λ t k z none_there k'. cc) in
      rw (routed tool name q e h, execute, e) refl
