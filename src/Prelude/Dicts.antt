-- ===== src/Prelude/Dicts.antt =====
-- Lists of ids, and Python dicts by text as association lists in insertion order.
use Prim.Native.String.{String}
use mathlib.Core.Path.{◌≡◌, refl, sym, ap, ◌∙◌, subst}
use mathlib.Core.Logic.{inl, inr}
use mathlib.Core.Bool.{Bool, false, ◌||◌}
use mathlib.Core.List.{List, [], ◌∷◌, map}
use mathlib.Core.Option.{Option, none, some, some-injective}
use native.Mathlib.Omega.{arith}
use text.Mathlib.Text.{◌==◌ as str_eq}
use text.Mathlib.TextEquality.{eq_iff}
use whidby.Prelude.Tests.{if◌then◌else◌, Bool-cases}
use whidby.Prelude.Lists.{All}

-- `x in xs`
abbrev pub has : String → List String → Bool
has x [] = false
has x (y ∷ ys) = str_eq y x || has x ys

abbrev pub keys {ℓ} : {A : Type ℓ} → List (String × A) → List String
keys es = map (λ e. e.0) es

-- `entries[key] = value`
abbrev pub assign {ℓ} : {A : Type ℓ} → String → A → List (String × A) → List (String × A)
assign key a [] = (key, a) ∷ []
assign key a ((k, b) ∷ es) = if str_eq k key then (k, a) ∷ es else (k, b) ∷ assign key a es

-- `entries.get(key)`
abbrev pub lookup {ℓ} : {A : Type ℓ} → String → List (String × A) → Option A
lookup key [] = none
lookup key ((k, a) ∷ es) = if str_eq k key then some a else lookup key es

pub has-assign {ℓ} :
    {A : Type ℓ} (x key : String) (a : A) (es : List (String × A))
    → has x (keys (assign key a es)) ≡ (has x (keys es) || str_eq key x)
has-assign x key a [] = ground arith
has-assign x key a ((k, b) ∷ es) =
    ground (arith, has-assign x key a es, eq_iff k key, eq_iff k x, eq_iff key x)

pub lookup-assign {ℓ} :
    {A : Type ℓ} (x key : String) (a : A) (es : List (String × A))
    → lookup x (assign key a es) ≡ (if str_eq key x then some a else lookup x es)
lookup-assign x key a [] = refl
lookup-assign x key a ((k, b) ∷ es) =
    ground (arith, lookup-assign x key a es, eq_iff k key, eq_iff k x, eq_iff key x)

pub lookup-All {ℓ κ} :
    {A : Type ℓ} (P : A → Type κ) (x : String) {a : A} (es : List (String × A))
    → All (λ e. P e.1) es
    → lookup x es ≡ some a
    → P a
lookup-All P x [] h e = cc
lookup-All P x ((k, b) ∷ es) (p, h) e = elim (Bool-cases (str_eq k x)) [
  | inl same ↦
      subst P (some-injective b _ (ap (λ c. if c then some b else lookup x es) (sym same) ∙ e)) p
  | inr other ↦ lookup-All P x es h (ap (λ c. if c then some b else lookup x es) (sym other) ∙ e)
]
