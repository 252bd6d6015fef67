-- ===== src/Recipes/Json.antt =====
-- src/research_agent/recipes/runner.py: the JSON object in a response. `loads` is `json.loads`: none
-- where it raises, and `other` for a value that is no dict.
use whidby.Prelude.{
  String, ℕ, zero, suc, Bool, true, false, not, ◌&&◌, List, [], ◌∷◌, Option, none, some,
  starts_with, if◌then◌else◌, ◌==◌, Result, ok, raise, runner_error,
}
use whidby.Signals.{codes, is_space, strip}

pub data Loaded (D : Type 0) : Type 0 where
  invalid other : Loaded D
  dict : D → Loaded D

-- A block of a response, with the name and the input of a tool use.
pub data Block (A : Type 0) : Type 0 where
  text : List ℕ → Block A
  tool_use : String → A → Block A
  unknown : Block A

abbrev prefix_of : ℕ → Option (List ℕ) → Option (List ℕ)
prefix_of c none = none
prefix_of c (some cs) = some (c ∷ cs)

-- The inner loop: the part up to the brace that closes the first, `depth` braces being open. The
-- first character opens one, so that no brace is closed at depth 0.
unfoldable pub balanced_part : ℕ → Bool → Bool → List ℕ → Option (List ℕ)
balanced_part depth in_str escape [] = none
balanced_part depth in_str true (c ∷ cs) = prefix_of c (balanced_part depth in_str false cs)
balanced_part depth in_str false (c ∷ cs) =
    let escaped = balanced_part depth in_str true cs in
    let quoted = balanced_part depth (not in_str) false cs in
    let same = balanced_part depth in_str false cs in
    let deeper = balanced_part (suc depth) in_str false cs in
    let shallower : Option (List ℕ) = elim depth [
      | zero ↦ none
      | suc zero ↦ some []
      | suc (suc d) ↦ balanced_part (suc d) in_str false cs
    ] in
    prefix_of c (
      if c == b'\\'
      then escaped
      else if c == b'"'
      then quoted
      else if in_str
      then same
      else if c == b'{'
      then deeper
      else if c == b'}'
      then shallower
      else same)

-- The rest of a text after its white space.
unfoldable pub skip_spaces : List ℕ → List ℕ
unfolding is_space
skip_spaces [] = []
skip_spaces (c ∷ cs) = let rest = skip_spaces cs in if is_space c then rest else c ∷ cs

unfoldable pub without_prefix : List ℕ → List ℕ → Option (List ℕ)
without_prefix [] cs = some cs
without_prefix (p ∷ ps) [] = none
without_prefix (p ∷ ps) (c ∷ cs) = let rest = without_prefix ps cs in if p == c then rest else none

-- `.*?\}` up to a brace that white space and a fence follow.
unfoldable pub fenced_object : List ℕ → Option (List ℕ)
unfolding skip_spaces
fenced_object [] = none
fenced_object (c ∷ cs) =
    let longer = prefix_of c (fenced_object cs) in
    if c == b'}' && starts_with (codes "```") (skip_spaces cs) then some (c ∷ []) else longer

-- An object that starts after white space.
unfoldable pub object_at : List ℕ → Option (List ℕ)
unfolding fenced_object
object_at [] = none
object_at (c ∷ cs) = if c == b'{' then fenced_object (c ∷ cs) else none

abbrev after_json : List ℕ → List ℕ
after_json cs = elim (without_prefix (codes "json") cs) [ none ↦ cs | some rest ↦ rest ]

-- `_JSON_FENCE_RE.search`, its group.
unfoldable pub fence_search : List ℕ → Option (List ℕ)
unfolding skip_spaces without_prefix object_at
fence_search [] = none
fence_search (c ∷ cs) =
    let next = fence_search cs in
    elim (without_prefix (codes "```") (c ∷ cs)) [
      | none ↦ next
      | some rest ↦ elim (object_at (skip_spaces (after_json rest))) [
        | none ↦ next
        | some t ↦ some t
      ]
    ]

module _ {D : Type 0} (loads : List ℕ → Loaded D) where
  -- A candidate that is loaded as a dict.
  unfoldable pub loaded_dict : Option (List ℕ) → Option D
  loaded_dict none = none
  loaded_dict (some t) = elim (loads t) [ dict d ↦ some d | _ ↦ none ]

  abbrev or_next : Option D → Option D → Option D
  or_next none next = next
  or_next (some d) next = some d

  -- The outer loop over the opening braces.
  unfoldable pub scan_balanced_object : List ℕ → Option D
  unfolding balanced_part loaded_dict
  scan_balanced_object [] = none
  scan_balanced_object (c ∷ cs) =
      let next = scan_balanced_object cs in
      if c == b'{' then or_next (loaded_dict (balanced_part 0 false false (c ∷ cs))) next else next

  -- What one text gives: all of it, its fenced part, or its first balanced object.
  unfoldable pub parsed_text : List ℕ → Option D
  unfolding loaded_dict fence_search scan_balanced_object
  parsed_text t =
      or_next (loaded_dict (some t))
        (or_next (loaded_dict (fence_search t)) (scan_balanced_object t))

  -- A stripped text, unless it is empty, before what the earlier blocks give.
  unfoldable pub parsed_or : List ℕ → Option D → Option D
  unfolding parsed_text
  parsed_or [] next = next
  parsed_or (c ∷ cs) next = or_next (parsed_text (c ∷ cs)) next

  -- The object of the last text block that gives one; `earlier` is what the blocks before gave.
  unfoldable pub last_object : {A : Type 0} → List (Block A) → Option D → Option D
  unfolding parsed_or strip
  last_object [] earlier = earlier
  last_object (text t ∷ bs) earlier = last_object bs (parsed_or (strip t) earlier)
  last_object (tool_use name input ∷ bs) earlier = last_object bs earlier
  last_object (unknown ∷ bs) earlier = last_object bs earlier

  -- The object, or the error that there is none.
  abbrev found_or_error : Option D → Result D
  found_or_error none = raise runner_error
  found_or_error (some d) = ok d

  unfoldable pub extract_json_payload : {A : Type 0} → List (Block A) → Result D
  unfolding last_object
  extract_json_payload content = found_or_error (last_object content none)
