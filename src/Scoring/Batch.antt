-- ===== src/Scoring/Batch.antt =====
-- Which value a scorer sees for a key after the signal blocks are flattened.
use whidby.Prelude.{All, ◌≡◌, refl, ◌∙◌, ap, List, [], ◌∷◌, Option, none, String}
use whidby.Signals.{Signals, Value, none_value, number, boolean, text, items, mapping, get, get_or}
use whidby.Signals.Laws.{IsDict, or_else, get-update}
use whidby.Scoring.Engine.{categories, flatten_block, flatten_blocks, flatten_signal_shape}

module _ {F : Type 0} where
  -- `v[key]` if `v` is a mapping that has it.
  abbrev pub in_value : String → Value F → Option (Value F)
  in_value key (mapping m) = get key m
  in_value key _ = none

  abbrev pub in_block : String → String → Signals F → Option (Value F)
  in_block category key s = in_value key (get_or category none_value s)

  abbrev pub DictValue : Value F → Type 0
  DictValue (mapping m) = IsDict m
  DictValue _ = Unit

  -- The nested blocks are dicts.
  abbrev pub BlocksAreDicts : List String → Signals F → Type 0
  BlocksAreDicts cs s = All (λ c. DictValue (get_or c none_value s)) cs

  get-flatten_block :
      (key : String) (v : Value F) (flat : Signals F)
      → DictValue v
      → get key (flatten_block v flat) ≡ or_else (in_value key v) (get key flat)
  unfolding flatten_block
  get-flatten_block key (mapping m) flat d = get-update key m flat d
  get-flatten_block key none_value flat d = refl
  get-flatten_block key (number x) flat d = refl
  get-flatten_block key (boolean b) flat d = refl
  get-flatten_block key (text t) flat d = refl
  get-flatten_block key (items k) flat d = refl

  -- The last block of the list that has the key wins.
  abbrev last_block : List String → String → Signals F → Option (Value F) → Option (Value F)
  last_block [] key s o = o
  last_block (c ∷ cs) key s o = last_block cs key s (or_else (in_block c key s) o)

  get-flatten_blocks :
      (cs : List String) (key : String) (s flat : Signals F)
      → BlocksAreDicts cs s
      → get key (flatten_blocks cs s flat) ≡ last_block cs key s (get key flat)
  unfolding flatten_blocks
  get-flatten_blocks [] key s flat d = refl
  get-flatten_blocks (c ∷ cs) key s flat (d, ds) =
      get-flatten_blocks cs key s _ ds
      ∙ ap (last_block cs key s) (get-flatten_block key (get_or c none_value s) flat d)

  -- After flattening, a key has the value of the AI block, or else of the monetization, the local, the
  -- organic or the demand block, in that order of precedence, or else the top-level value.
  pub get-flatten_signal_shape :
      (key : String) (s : Signals F)
      → BlocksAreDicts categories s
      → get key (flatten_signal_shape s)
        ≡ or_else (in_block "ai_resilience" key s) (
            or_else (in_block "monetization" key s) (
              or_else (in_block "local_competition" key s) (
                or_else
                  (in_block "organic_competition" key s)
                  (or_else (in_block "demand" key s) (get key s)))))
  unfolding flatten_signal_shape
  get-flatten_signal_shape key s d = get-flatten_blocks categories key s s d
