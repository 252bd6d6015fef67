-- ===== src/Scoring/Strategy.antt =====
-- src/scoring/strategy_profiles.py: the organic and local weights of a strategy profile.
use whidby.Prelude.{ℕ, not, List, Option, none, some, if◌then◌else◌, Result, ok, ◌>>=◌}
use whidby.Num.Order.{Num, decimal, of_int, le_num, ◌⊕◌, ◌⊗◌, ◌⊘◌}
use whidby.Signals.{Signals, none_value, codes, text_eq, strip, lower, get_or, float_of, bool_get}

pub record StrategyWeights (F : Type 0) : Type 0 where
  pub organic : F
  pub local : F

module _ {F : Type 0} ⦃n : Num F⦄ where
  abbrev pub weights_of : F → F → StrategyWeights F
  weights_of o l = record { organic = o; local = l }

  -- `STRATEGY_PROFILES`
  unfoldable pub strategy_profile : List ℕ → Option (StrategyWeights F)
  strategy_profile name =
      if text_eq name (codes "organic_first")
      then some (weights_of (decimal 2500) (decimal 1000))
      else if text_eq name (codes "balanced")
      then some (weights_of (decimal 1500) (decimal 2000))
      else if text_eq name (codes "local_dominant")
      then some (weights_of (decimal 500) (decimal 3500))
      else none

  abbrev pub balanced_profile : StrategyWeights F
  balanced_profile = weights_of (decimal 1500) (decimal 2000)

  -- The body of `_weights_from_profile`, after the lookup.
  unfoldable pub normalized : StrategyWeights F → StrategyWeights F
  normalized w =
      let total = w.organic ⊕ w.local in
      if le_num total (of_int 0)
      then weights_of (decimal 1500) (decimal 2000)
      else let factor = decimal 3500 ⊘ total in weights_of (w.organic ⊗ factor) (w.local ⊗ factor)

  unfoldable pub weights_from_profile : List ℕ → StrategyWeights F
  unfolding strategy_profile normalized
  weights_from_profile name =
      normalized (elim (strategy_profile name) [ none ↦ balanced_profile | some w ↦ w ])

  -- `_AUTO_ABOVE_FOLD_WEIGHTS`
  abbrev pub auto_above_fold_weights : StrategyWeights F
  auto_above_fold_weights = weights_of (decimal 800) (decimal 2700)

  -- The position, `none` if it is missing or `None`.
  unfoldable pub pack_position : Signals F → Result (Option F)
  unfolding get_or float_of
  pack_position s = elim (get_or "local_pack_position" none_value s) [
    | none_value ↦ ok none
    | v ↦ do p ← float_of v; ok (some p)
  ]

  unfoldable pub auto_weights : Option F → StrategyWeights F
  unfolding weights_from_profile
  auto_weights none = weights_from_profile (codes "balanced")
  auto_weights (some p) =
      if le_num p (of_int 3)
      then auto_above_fold_weights
      else weights_from_profile (codes "balanced")

  unfoldable pub resolve_auto : Option (Signals F) → Result (StrategyWeights F)
  unfolding weights_from_profile bool_get pack_position auto_weights
  resolve_auto none = ok (weights_from_profile (codes "balanced"))
  resolve_auto (some s) =
      if not (bool_get "local_pack_present" s)
      then ok (weights_from_profile (codes "organic_first"))
      else do p ← pack_position s; ok (auto_weights p)

  unfoldable pub resolve_strategy_weights : List ℕ → Option (Signals F) → Result (StrategyWeights F)
  unfolding resolve_auto weights_from_profile strip lower
  resolve_strategy_weights profile signals =
      let name = lower (strip profile) in
      if text_eq name (codes "auto")
      then resolve_auto signals
      else ok (
          weights_from_profile
            (elim (strategy_profile name) [ none ↦ codes "balanced" | some _ ↦ name ]))
