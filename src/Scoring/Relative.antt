-- ===== src/Scoring/Relative.antt =====
-- The scores relative to a benchmark: they always come out, in their ranges, and the confidence is the
-- lowest of the labels that count.
mod Tests
use whidby.Prelude.{
  ℕ, ◌≤◌, ◌≡◌, refl, sym, subst, ap, ◌∙◌, ◌⊎◌, ◌↔◌, inl, inr, Bool, true, false, not, Bool-cases,
  Option-cases, List, [], ◌∷◌, Option, none, some, String, arith, ltb, if◌then◌else◌, Result, ok,
  after,
}
use whidby.Num.Order.{Num, IsOrdered, decimal, of_int, ◌≼◌}
use whidby.Signals.{Value, Signals, end, entry, get_or, none_value, truthy}
use whidby.Scoring.Normalization.{clamp, clamp100}
use whidby.Scoring.Market.{compute_ai_resilience_score}
use whidby.Scoring.Bounds.{
  InRange, clamp_bounds, clamp100-InRange, compute_ai_resilience_score-InRange,
}
use whidby.Scoring.Benchmarks.{BenchmarkConfidence, SeoBenchmarkCell}
use whidby.Scoring.V2.{
  confidence_rank, V2Scores, flatten_signals, family_label, lower_label, rolled_up,
  effective_benchmark_confidence, sanitized, v2_ai_resilience, v2_demand_strength,
  v2_organic_difficulty, v2_local_difficulty, v2_monetization_signal, compute_v2_scores,
}

lower_label-le :
    (own : BenchmarkConfidence) (o : Option BenchmarkConfidence)
    → confidence_rank (lower_label own o) ≤ confidence_rank own
lower_label-le own none = omega arith
lower_label-le own (some l) = elim (Bool-cases (ltb (confidence_rank l) (confidence_rank own))) [
  | inl e ↦ rw e (ground arith)
  | inr e ↦ rw e (omega arith)
]

lower_label-le_some :
    (own : BenchmarkConfidence) (o : Option BenchmarkConfidence) (l : BenchmarkConfidence)
    → o ≡ some l
    → confidence_rank (lower_label own o) ≤ confidence_rank l
lower_label-le_some own o l e =
    rw e (elim (Bool-cases (ltb (confidence_rank l) (confidence_rank own))) [
      | inl e ↦ rw e (omega arith)
      | inr e ↦ rw e (ground arith)
    ])

lower_label-cases :
    (own : BenchmarkConfidence) (o : Option BenchmarkConfidence)
    → (lower_label own o ≡ own) ⊎ (o ≡ some (lower_label own o))
lower_label-cases own none = inl refl
lower_label-cases own (some l) = elim (Bool-cases (ltb (confidence_rank l) (confidence_rank own))) [
  | inl e ↦ rw e (inr refl)
  | inr e ↦ rw e (inl refl)
]

pack_iff {ℓ} :
    {A : Type ℓ} (b : Bool) (x : A) → ((if not b then none else some x) ≡ none) ↔ (b ≡ false)
pack_iff true x = (λ e. cc, λ e. cc)
pack_iff false x = (λ e. refl, λ e. refl)

module _ {F : Type 0} ⦃n : Num F⦄ where
  -- A score between 0 and 200.
  abbrev pub InRange200 : F → Type 0
  InRange200 x = (decimal 0 ≼ x) × (x ≼ decimal 2_000_000)

  abbrev pub InRangeOption : Option F → Type 0
  InRangeOption none = Unit
  InRangeOption (some x) = InRange x

  pub record V2InRange (r : V2Scores F) : Type 0 where
    pub demand_strength : InRange200 r.demand_strength
    pub organic_difficulty : InRange r.organic_difficulty
    pub local_difficulty : InRangeOption r.local_difficulty
    pub monetization_signal : InRange200 r.monetization_signal
    pub ai_resilience : InRange r.ai_resilience

  -- The truth value of the signal `local_pack_present`; a missing signal counts as false.
  abbrev pub has_local_pack : Signals F → Bool
  has_local_pack metro = truthy (get_or "local_pack_present" none_value (flatten_signals metro))

  abbrev pub LocalPack : Signals F → V2Scores F → Type 0
  LocalPack metro r =
      ((r.local_difficulty ≡ none) ↔ (has_local_pack metro ≡ false))
      × (r.flags.no_local_pack_detected ≡ not (has_local_pack metro))

  abbrev pub InDict : String → Value F → Signals F → Type 0
  InDict k v end = ⊥
  InDict k v (entry j w rest) = (k ≡ j) × (v ≡ w) ⊎ InDict k v rest

  -- `c` is the lowest of the label of the cell and of those of the families that count.
  pub record IsLowest (c : BenchmarkConfidence) (own : BenchmarkConfidence) (rollup : Signals F)
      : Type 0 where
    pub below_own : confidence_rank c ≤ confidence_rank own
    pub below_each :
        (family : String) (v : Value F) (l : BenchmarkConfidence)
        → InDict family v rollup
        → family_label family v ≡ some l
        → confidence_rank c ≤ confidence_rank l
    pub attained :
        (c ≡ own)
        ⊎ ((family : String) × (v : Value F) × InDict family v rollup
            × (family_label family v ≡ some c))

  rolled_up-IsLowest :
      (s : Signals F) (own : BenchmarkConfidence) → IsLowest (rolled_up own s) own s
  unfolding rolled_up
  rolled_up-IsLowest end own = record {
    below_own = omega arith;
    below_each = λ f v l m. absurd m;
    attained = inl refl;
  }
  rolled_up-IsLowest (entry f w rest) own =
      let o = family_label f w in
      let ih = rolled_up-IsLowest rest (lower_label own o) in
      record {
        below_own = omega (arith, ih.below_own, lower_label-le own o);
        below_each = λ g v l m e. elim m [
          | inl (p, q) ↦
              let here : o ≡ some l =
                subst (λ x. family_label x w ≡ some l) p
                  (subst (λ y. family_label g y ≡ some l) q e) in
              omega (arith, ih.below_own, lower_label-le_some own o l here)
          | inr later ↦ ih.below_each g v l later e
        ];
        attained = elim (ih.attained) [
          | inr (g, v, m, e) ↦ inr (g, v, inr m, e)
          | inl kept ↦ elim (lower_label-cases own o) [
            | inl same ↦ inl (kept ∙ same)
            | inr taken ↦ inr (f, w, inl (refl, refl), taken ∙ ap some (sym kept))
          ]
        ];
      }

  -- The effective confidence of a benchmark is the lowest of its own label and of the labels of the
  -- required families of its rollup.
  pub effective_benchmark_confidence-IsLowest :
      (b : SeoBenchmarkCell F)
      → IsLowest
          (effective_benchmark_confidence (some b))
          b.confidence_label
          b.metric_confidence_rollup
  unfolding effective_benchmark_confidence
  effective_benchmark_confidence-IsLowest b =
      rolled_up-IsLowest b.metric_confidence_rollup b.confidence_label

module _ {F : Type 0} ⦃n : Num F⦄ (laws : IsOrdered F) where
  nearest_bounds :
      (x : F) (k : ℕ)
      → decimal 0 ≼ x
      → x ≼ of_int k
      → (decimal 0 ≼ n.nearest x) × (n.nearest x ≼ of_int k)
  nearest_bounds x k h j = (
    subst (λ y. y ≼ n.nearest x) (laws.nearest-of_int 0) (laws.nearest_mono _ _ h),
    subst (λ y. n.nearest x ≼ y) (laws.nearest-of_int k) (laws.nearest_mono _ _ j),
  )

  clamp200 : (x : F) → InRange200 (n.nearest (clamp x (decimal 0) (decimal 2_000_000)))
  clamp200 x =
      let (p, q) = clamp_bounds laws x _ _ (laws.decimal_mono 0 2_000_000 (omega arith)) in
      nearest_bounds _ 200 p q

  nearest-InRange : (x : F) → InRange x → InRange (n.nearest x)
  nearest-InRange x (p, q) = nearest_bounds x 100 p q

  pack-InRange : (c : Bool) (x : F) → InRange x → InRangeOption (if c then none else some x)
  pack-InRange true x h = tt
  pack-InRange false x h = h

  -- The scores of any metro come out, whatever its signals and with or without a benchmark, each in
  -- its range; the local difficulty is missing exactly when the signal `local_pack_present` is not
  -- true, and the flag for a missing local pack is the negation of that signal.
  pub compute_v2_scores_total :
      (metro : Signals F) (benchmark : Option (SeoBenchmarkCell F))
      → (r : V2Scores F) × (compute_v2_scores metro benchmark ≡ ok r)
        × V2InRange r
        × LocalPack metro r
  unfolding compute_v2_scores v2_demand_strength v2_organic_difficulty v2_local_difficulty
      v2_monetization_signal compute_ai_resilience_score
  compute_v2_scores_total metro benchmark =
      let s = flatten_signals metro in
      let b = truthy (get_or "local_pack_present" none_value s) in
      (
        _,
        refl,
        record {
          demand_strength = clamp200 _;
          organic_difficulty = nearest-InRange _ (clamp100-InRange laws _);
          local_difficulty =
              pack-InRange (not b) (v2_local_difficulty s benchmark)
                (nearest-InRange _ (clamp100-InRange laws _));
          monetization_signal = clamp200 _;
          ai_resilience = nearest-InRange _ (clamp100-InRange laws _);
        },
        (pack_iff b (v2_local_difficulty s benchmark), refl),
      )
