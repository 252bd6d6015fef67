-- ===== src/Prelude/Texts.antt =====
-- Texts as lists of code points: their order, and a text within a text.
use Prim.Native.Nat.{ℕ}
use mathlib.Core.Path.{◌≡◌, refl}
use mathlib.Core.Bool.{Bool, true, false, ◌&&◌, ◌||◌}
use mathlib.Core.List.{List, [], ◌∷◌}
use native.Mathlib.Omega.{arith}
use whidby.Prelude.Tests.{if◌then◌else◌, ltb, ◌==◌}

pub data Order : Type 0 where
  below equal above : Order

abbrev pub order_codes : List ℕ → List ℕ → Order
order_codes [] [] = equal
order_codes [] (d ∷ ds) = below
order_codes (c ∷ cs) [] = above
order_codes (c ∷ cs) (d ∷ ds) =
    let rest = order_codes cs ds in if ltb c d then below else if ltb d c then above else rest

-- `whole.startswith(part)`
abbrev pub starts_with : List ℕ → List ℕ → Bool
starts_with [] cs = true
starts_with (p ∷ ps) [] = false
starts_with (p ∷ ps) (c ∷ cs) = p == c && starts_with ps cs

-- `part in whole`
abbrev pub occurs : List ℕ → List ℕ → Bool
occurs part [] = starts_with part []
occurs part (c ∷ cs) = starts_with part (c ∷ cs) || occurs part cs

-- `s <= t`
abbrev pub le_text : List ℕ → List ℕ → Bool
le_text [] t = true
le_text (c ∷ cs) [] = false
le_text (c ∷ cs) (d ∷ ds) = ltb c d || c == d && le_text cs ds

pub le_text_total : (s t : List ℕ) → (le_text s t || le_text t s) ≡ true
le_text_total [] t = refl
le_text_total (c ∷ cs) [] = refl
le_text_total (c ∷ cs) (d ∷ ds) = ground (arith, le_text_total cs ds)

pub le_text_trans : (s t u : List ℕ) → le_text s t ≡ true → le_text t u ≡ true → le_text s u ≡ true
le_text_trans [] t u p q = refl
le_text_trans (c ∷ cs) [] u p q = cc
le_text_trans (c ∷ cs) (d ∷ ds) [] p q = cc
le_text_trans (c ∷ cs) (d ∷ ds) (e ∷ es) p q = ground (arith, le_text_trans cs ds es)
