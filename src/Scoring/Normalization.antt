-- ===== src/Scoring/Normalization.antt =====
-- src/scoring/normalization.py.
use whidby.Prelude.{ℕ, suc, ◌-◌, min, List, [], ◌∷◌, length, if◌then◌else◌}
use whidby.Num.Order.{Num, decimal, of_int, le_num, lt_num, min_num, max_num, ◌⊖◌, ◌⊗◌, ◌⊘◌}

module _ {F : Type 0} ⦃n : Num F⦄ where
  unfoldable pub clamp : F → F → F → F
  clamp value lo hi = max_num lo (min_num hi value)

  -- `clamp(value)`, with the default bounds
  unfoldable pub clamp100 : F → F
  unfolding clamp
  clamp100 value = clamp value (decimal 0) (decimal 1_000_000)

  unfoldable pub scale : F → F → F → F
  unfolding clamp
  scale value floor ceiling =
      if le_num ceiling floor
      then decimal 0
      else clamp ((value ⊖ floor) ⊘ (ceiling ⊖ floor) ⊗ decimal 1_000_000) (decimal 0)
          (decimal 1_000_000)

  unfoldable pub inverse_scale : F → F → F → F
  unfolding clamp
  inverse_scale value floor ceiling =
      clamp (decimal 1_000_000 ⊖ scale value floor ceiling) (decimal 0) (decimal 1_000_000)

  -- `sorted`
  unfoldable pub insert_sorted : F → List F → List F
  insert_sorted x [] = x ∷ []
  insert_sorted x (y ∷ ys) = if le_num x y then x ∷ y ∷ ys else y ∷ insert_sorted x ys

  unfoldable pub sorted : List F → List F
  unfolding insert_sorted
  sorted [] = []
  sorted (x ∷ xs) = insert_sorted x (sorted xs)

  -- `bisect_right(series, value)` on a sorted series: the index of the first larger element
  unfoldable pub bisect_right : List F → F → ℕ
  bisect_right [] value = 0
  bisect_right (x ∷ xs) value = if lt_num value x then 0 else suc (bisect_right xs value)

  -- The body after `sorted`. `-` stops at 0, as `max(0, …)` does.
  unfoldable pub rank_in : F → List F → F
  unfolding bisect_right
  rank_in value [] = decimal 500_000
  rank_in value (x ∷ []) = if le_num x value then decimal 1_000_000 else decimal 0
  rank_in value (x ∷ y ∷ zs) =
      let last = length (y ∷ zs) in
      let idx = min (bisect_right (x ∷ y ∷ zs) value - 1) last in
      of_int idx ⊘ of_int last ⊗ decimal 1_000_000

  unfoldable pub percentile_rank : F → List F → F
  unfolding sorted rank_in
  percentile_rank value all_values = rank_in value (sorted all_values)
