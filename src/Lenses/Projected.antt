-- ===== src/Lenses/Projected.antt =====
-- src/domain/strategy_projection.py: the scores of the projections.
use whidby.Prelude.{
  ℕ, ◌≡◌, Bool, true, false, Bool-cases, inl, inr, List, [], ◌∷◌, some, String, arith,
  if◌then◌else◌, Result, ok, raise, after, Ensures, Ensures->>=, Ensures-elim, ◌||◌, All, lookup,
  lookup-All,
}
use whidby.Num.Order.{Num, IsOrdered, decimal, lt_num, max_num-le, min_num-le_left, le-max_num_left}
use whidby.Scoring.Bounds.{InRange}
use whidby.Signals.{Value, Signals}
use whidby.Lenses.Projection.{
  StrategyProjection, guarded, gbp_blitz_tests, hijack_tests, hijack_missing_tests, expand_tests,
  clamp_score, number_or_default,
}
use whidby.Lenses.Strategies.{
  easy_win_inputs, easy_win_projection, project_easy_win, gbp_blitz_inputs, gbp_blitz_projection,
  project_gbp_blitz, hijack_inputs, hijack_projection, hijack_with_volume, project_keyword_hijack,
  expand_inputs, expand_projection, project_expand_conquer, strategy_projections, easy_win_score,
  gbp_blitz_score, keyword_hijack_score, expand_conquer_score,
}

-- What both branches have, the test has.
if-both {ℓ κ} :
    {A : Type ℓ} (P : A → Type κ) (b : Bool) (x y : A) → P x → P y → P (if b then x else y)
if-both P true x y p q = p
if-both P false x y p q = q

Ensures-after {ℓ κ μ} :
    {A : Type ℓ} {B : Type κ} (P : B → Type μ) (f : A → B) (m : Result A)
    → ((a : A) → P (f a))
    → Ensures P (after f m)
Ensures-after P f (ok a) h = h a
Ensures-after P f (raise e) h = tt

guarded-Ensures :
    {F : Type 0} ⦃n : Num F⦄ (P : StrategyProjection F → Type 0)
    (tests : List (Bool × StrategyProjection F)) (m : Result (StrategyProjection F))
    → All (λ t. P t.1) tests
    → Ensures P m
    → Ensures P (guarded tests m)
unfolding guarded
guarded-Ensures P [] m h e = e
guarded-Ensures P ((b, p) ∷ tests) m (q, h) e =
    if-both (Ensures P) b (ok p) (guarded tests m) q (guarded-Ensures P tests m h e)

module _ {F : Type 0} ⦃n : Num F⦄ (laws : IsOrdered F) (round_two : F → F) (is_finite : F → Bool)
    (round-InRange : (x : F) → InRange x → InRange (round_two x)) where
  abbrev Ranged : StrategyProjection F → Type 0
  Ranged p = InRange p.score

  clamp_score-InRange : (x : F) → InRange (clamp_score x)
  unfolding clamp_score
  clamp_score-InRange x = (
    le-max_num_left laws _ _,
    max_num-le laws _ _ _ (laws.decimal_mono 0 1_000_000 (omega arith)) (min_num-le_left laws _ _),
  )

  zero-InRange : InRange (n.decimal 0)
  zero-InRange = (laws.le_refl _, laws.decimal_mono 0 1_000_000 (omega arith))

  easy_win-Ranged : (row : Signals F) → Ensures Ranged (project_easy_win round_two is_finite row)
  unfolding project_easy_win easy_win_projection easy_win_score
  easy_win-Ranged row =
      Ensures-after Ranged (easy_win_projection round_two is_finite row)
        (easy_win_inputs round_two is_finite row) (λ i. round-InRange _ (clamp_score-InRange _))

  gbp_blitz-Ranged : (row : Signals F) → Ensures Ranged (project_gbp_blitz round_two is_finite row)
  unfolding project_gbp_blitz gbp_blitz_tests gbp_blitz_projection gbp_blitz_score
  gbp_blitz-Ranged row =
      guarded-Ensures Ranged (gbp_blitz_tests row) _ (zero-InRange, tt)
        (Ensures-after Ranged (gbp_blitz_projection round_two is_finite row)
          (gbp_blitz_inputs round_two is_finite row) (λ i. round-InRange _ (clamp_score-InRange _)))

  hijack-Ranged :
      (row : Signals F) (volume : F)
      → Ensures Ranged (hijack_with_volume round_two is_finite row volume)
  unfolding hijack_with_volume hijack_tests hijack_projection keyword_hijack_score
  hijack-Ranged row volume =
      guarded-Ensures Ranged (hijack_tests row volume) _
        (zero-InRange, (zero-InRange, (zero-InRange, tt)))
        (Ensures-after Ranged (hijack_projection round_two is_finite row volume)
          (hijack_inputs round_two is_finite row) (λ i. round-InRange _ (clamp_score-InRange _)))

  keyword_hijack-Ranged :
      (row : Signals F) → Ensures Ranged (project_keyword_hijack round_two is_finite row)
  unfolding project_keyword_hijack hijack_missing_tests
  keyword_hijack-Ranged row =
      guarded-Ensures Ranged (hijack_missing_tests row) _
        (zero-InRange, (zero-InRange, (zero-InRange, tt)))
        (Ensures->>= Ranged (number_or_default row "search_volume_monthly" (decimal 0))
          (hijack_with_volume round_two is_finite row) (hijack-Ranged row))

  expand_projection-Ranged :
      (row : Signals F) (i : F × F × F × F × F)
      → Ranged (expand_projection round_two is_finite row i)
  unfolding expand_projection expand_conquer_score
  expand_projection-Ranged row (s, a, b, c, d) = elim (Bool-cases (lt_num b a || lt_num d c)) [
    | inl e ↦ rw e zero-InRange
    | inr e ↦ rw e (round-InRange _ (clamp_score-InRange _))
  ]

  expand_conquer-Ranged :
      (text_of : Value F → List ℕ) (row : Signals F)
      → Ensures Ranged (project_expand_conquer round_two is_finite text_of row)
  unfolding project_expand_conquer expand_tests
  expand_conquer-Ranged text_of row =
      guarded-Ensures Ranged (expand_tests text_of row) _
        (zero-InRange, (zero-InRange, (zero-InRange, tt)))
        (Ensures-after Ranged (expand_projection round_two is_finite row)
          (expand_inputs round_two is_finite row) (expand_projection-Ranged row))

  -- The projection of any row under any of the four strategies that returns has a score within 0 and
  -- 100, if rounding to two digits keeps a number there.
  pub strategy_projections-InRange :
      (text_of : Value F → List ℕ) (lens_id : String)
      (project : Signals F → Result (StrategyProjection F)) (row : Signals F)
      (p : StrategyProjection F)
      → lookup lens_id (strategy_projections round_two is_finite text_of) ≡ some project
      → project row ≡ ok p
      → InRange p.score
  unfolding strategy_projections
  strategy_projections-InRange text_of lens_id project row p found returned =
      let ranged =
        lookup-All (λ f. (r : Signals F) → Ensures Ranged (f r)) lens_id
          (strategy_projections round_two is_finite text_of)
          (
            easy_win-Ranged,
            (gbp_blitz-Ranged, (keyword_hijack-Ranged, (expand_conquer-Ranged text_of, tt))),
          )
          found in
      Ensures-elim Ranged (project row) (ranged row) returned
