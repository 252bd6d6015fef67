-- ===== src/Scoring/Profiles.antt =====
-- The weights that a strategy profile resolves to.
use whidby.Prelude.{
  ℕ, ◌≡◌, Bool, true, false, Bool-cases, inl, inr, List, Option, none, some, arith, ok, Ensures,
  Ensures-elim, Ensures->>=, if◌then◌else◌,
}
use whidby.Num.Order.{Num, IsOrdered, decimal, of_int, le_num, ◌≼◌, ◌⊕◌}
use whidby.Signals.{Signals, codes, text_eq, strip, lower, bool_get}
use whidby.Scoring.Strategy.{
  StrategyWeights, strategy_profile, normalized, weights_from_profile, weights_of, pack_position,
  auto_weights, resolve_auto, resolve_strategy_weights,
}

module _ {F : Type 0} ⦃n : Num F⦄ where
  abbrev pub NonNegative : StrategyWeights F → Type 0
  NonNegative w = (decimal 0 ≼ w.organic) × (decimal 0 ≼ w.local)

module _ {F : Type 0} ⦃n : Num F⦄ (laws : IsOrdered F) where
  open laws use {decimal_mono}

  literal-NonNegative : (o l : ℕ) → NonNegative (weights_of (n.decimal o) (n.decimal l))
  literal-NonNegative o l = (decimal_mono 0 o (omega arith), decimal_mono 0 l (omega arith))

  normalized-NonNegative : (w : StrategyWeights F) → NonNegative w → NonNegative (normalized w)
  unfolding normalized
  normalized-NonNegative w (o, l) = elim (Bool-cases (le_num (w.organic ⊕ w.local) (of_int 0))) [
    | inl e ↦ rw e (literal-NonNegative 1500 2000)
    | inr e ↦ rw e (
        let factor = laws.zero_le_div _ _ (decimal_mono 0 3500 (omega arith)) e in
        (laws.zero_le_mul _ _ o factor, laws.zero_le_mul _ _ l factor))
  ]

  if-NonNegative :
      (b : Bool) (x y : StrategyWeights F)
      → NonNegative x
      → NonNegative y
      → NonNegative (if b then x else y)
  if-NonNegative true x y h k = h
  if-NonNegative false x y h k = k

  -- A looked-up profile, or the default.
  abbrev or_default : StrategyWeights F → Option (StrategyWeights F) → StrategyWeights F
  or_default d o = elim o as (λ _. StrategyWeights F) [ none ↦ d | some w ↦ w ]

  profile-NonNegative :
      (b : Bool) (d w : StrategyWeights F) (o : Option (StrategyWeights F))
      → NonNegative w
      → NonNegative (or_default d o)
      → NonNegative (or_default d (if b then some w else o))
  profile-NonNegative true d w o h k = h
  profile-NonNegative false d w o h k = k

  weights_from_profile-NonNegative :
      (name : List ℕ) → NonNegative {F = F} (weights_from_profile name)
  unfolding weights_from_profile
  weights_from_profile-NonNegative name =
      normalized-NonNegative
        (or_default (weights_of (n.decimal 1500) (n.decimal 2000)) (strategy_profile name))
        (profile-NonNegative (text_eq name (codes "organic_first")) _ _ _
          (literal-NonNegative 2500 1000)
          (profile-NonNegative (text_eq name (codes "balanced")) _ _ _
            (literal-NonNegative 1500 2000)
            (profile-NonNegative (text_eq name (codes "local_dominant")) _ _ _
              (literal-NonNegative 500 3500) (literal-NonNegative 1500 2000))))

  auto_weights-NonNegative : (p : Option F) → NonNegative (auto_weights p)
  unfolding auto_weights
  auto_weights-NonNegative none = weights_from_profile-NonNegative (codes "balanced")
  auto_weights-NonNegative (some p) =
      if-NonNegative (le_num p (of_int 3)) _ (weights_from_profile (codes "balanced"))
        (literal-NonNegative 800 2700) (weights_from_profile-NonNegative (codes "balanced"))

  resolve_auto-NonNegative :
      (signals : Option (Signals F)) → Ensures NonNegative (resolve_auto signals)
  unfolding resolve_auto
  resolve_auto-NonNegative none = weights_from_profile-NonNegative (codes "balanced")
  resolve_auto-NonNegative (some s) = elim (Bool-cases (bool_get "local_pack_present" s)) [
    | inl e ↦ rw e (Ensures->>= NonNegative (pack_position s) _ (λ p. auto_weights-NonNegative p))
    | inr e ↦ rw e (weights_from_profile-NonNegative (codes "organic_first"))
  ]

  -- Every profile, `auto` included, resolves to weights that are not negative.
  pub resolve-NonNegative :
      (profile : List ℕ) (signals : Option (Signals F)) {w : StrategyWeights F}
      → resolve_strategy_weights profile signals ≡ ok w
      → NonNegative w
  unfolding resolve_strategy_weights
  resolve-NonNegative profile signals =
      Ensures-elim NonNegative (resolve_strategy_weights profile signals)
        (elim (Bool-cases (text_eq (lower (strip profile)) (codes "auto"))) [
          | inl e ↦ rw e (resolve_auto-NonNegative signals)
          | inr e ↦ rw e (
              weights_from_profile-NonNegative
                (elim (strategy_profile {F = F} (lower (strip profile))) as (λ _. List ℕ) [
                  | none ↦ codes "balanced"
                  | some _ ↦ lower (strip profile)
                ]))
        ])
