-- ===== src/Collection/Plan/Batches.antt =====
-- collection_plan.py: the batches of `_chunked`.
use whidby.Prelude.{
  ℕ, zero, suc, ◌≤◌, ◌≡◌, refl, ap, ◌∙◌, List, [], ◌∷◌, ◌++◌, arith, length, length-take, take,
  drop, All,
}
use whidby.Collection.Plan.{chunks_from, chunked}

module _ {ℓ} {A : Type ℓ} where
  -- The batches one after the other.
  abbrev pub flat : List (List A) → List A
  flat [] = []
  flat (c ∷ cs) = c ++ flat cs

  append-take-drop : (n : ℕ) (xs : List A) → take n xs ++ drop n xs ≡ xs
  append-take-drop zero xs = refl
  append-take-drop (suc n) [] = refl
  append-take-drop (suc n) (x ∷ xs) = ap (λ r. x ∷ r) (append-take-drop n xs)

  length-drop : (n : ℕ) (xs : List A) → length (drop n xs) ≤ length xs
  length-drop zero xs = omega arith
  length-drop (suc n) [] = omega arith
  length-drop (suc n) (x ∷ xs) = omega (arith, length-drop n xs)

  abbrev pub IsBatch : ℕ → List A → Type 0
  IsBatch size c = (1 ≤ length c) × (length c ≤ size)

  chunks_from-flat :
      (fuel size : ℕ) (xs : List A)
      → 1 ≤ size
      → length xs ≤ fuel
      → (flat (chunks_from fuel size xs) ≡ xs) × All (IsBatch size) (chunks_from fuel size xs)
  unfolding chunks_from
  chunks_from-flat zero size [] s h = (refl, tt)
  chunks_from-flat zero size (x ∷ xs) s h = absurd (omega (arith, h))
  chunks_from-flat (suc fuel) size [] s h = (refl, tt)
  chunks_from-flat (suc fuel) zero (x ∷ xs) s h = absurd (omega (arith, s))
  chunks_from-flat (suc fuel) (suc n) (x ∷ xs) s h =
      let (a, b) =
        chunks_from-flat fuel (suc n) (drop n xs) s (omega (arith, h, length-drop n xs)) in
      (
        ap (λ r. (x ∷ take n xs) ++ r) a ∙ append-take-drop (suc n) (x ∷ xs),
        ((omega (arith, length-take n xs), omega (arith, length-take n xs)), b),
      )

-- The batches of at least one item each hold all items, in order, and none is empty or longer than
-- the size; the fuel is enough.
pub chunked-flat {ℓ} :
    {A : Type ℓ} (xs : List A) (size : ℕ)
    → 1 ≤ size
    → (flat (chunked xs size) ≡ xs) × All (IsBatch size) (chunked xs size)
unfolding chunked
chunked-flat xs size s = chunks_from-flat (length xs) size xs s (omega arith)
