-- ===== src/Scoring/Flags.antt =====
-- The confidence of a report: what is left of 100 after the penalties, and no flag for free.
use whidby.Prelude.{
  Elem, ok-injective, after, ◌⊎◌, ◌≤◌, ◌≡◌, refl, ◌↔◌, Bool, true, Bool-cases, inl, inr, List, [],
  ◌∷◌, arith, ok, filterb, after-inv, subst,
}
use whidby.Num.Order.{Num, IsOrdered, ◌≼◌}
use whidby.Signals.{Signals}
use whidby.Scoring.Bounds.{InRange, clamp100-InRange, clamp100_mono}
use whidby.Scoring.Confidence.{
  Flag, all_flags, total_penalty, ConfidenceInputs, Confidence, confidence_inputs, raised,
  confidence_formula, compute_confidence,
}

Elem-filterb :
    {A : Type 0} (p : A → Bool) (xs : List A) (x : A)
    → Elem x xs
    → p x ≡ true
    → Elem x (filterb p xs)
Elem-filterb p [] x m h = m
Elem-filterb p (y ∷ ys) x (inl e) h = rw (← e, h) (inl refl)
Elem-filterb p (y ∷ ys) x (inr m) h = elim (Bool-cases (p y)) [
  | inl t ↦ rw t (inr (Elem-filterb p ys x m h))
  | inr f ↦ rw f (Elem-filterb p ys x m h)
]

filterb-Elem :
    {A : Type 0} (p : A → Bool) (xs : List A) (x : A) → Elem x (filterb p xs) → p x ≡ true
filterb-Elem p [] x m = absurd m
filterb-Elem p (y ∷ ys) x m = elim (Bool-cases (p y)) [
  | inl t ↦
      let m' : (x ≡ y) ⊎ Elem x (filterb p ys) = rw t at m in
      elim m' [ inl e ↦ rw e t | inr k ↦ filterb-Elem p ys x k ]
  | inr f ↦ filterb-Elem p ys x (rw f at m)
]

total_penalty-filterb_mono :
    (p q : Flag → Bool) (fs : List Flag)
    → ((f : Flag) → p f ≡ true → q f ≡ true)
    → total_penalty (filterb p fs) ≤ total_penalty (filterb q fs)
unfolding total_penalty
total_penalty-filterb_mono p q [] h = omega arith
total_penalty-filterb_mono p q (f ∷ fs) h = ground (arith, h f, total_penalty-filterb_mono p q fs h)

Elem-all_flags : (f : Flag) → Elem f all_flags
Elem-all_flags Flag.keyword_expansion_uncertain = inl refl
Elem-all_flags Flag.incomplete_onpage_data = inr (inl refl)
Elem-all_flags Flag.incomplete_backlink_data = inr (inr (inl refl))
Elem-all_flags Flag.no_serp_data = inr (inr (inr (inl refl)))
Elem-all_flags Flag.incomplete_review_data = inr (inr (inr (inr (inl refl))))
Elem-all_flags Flag.incomplete_gbp_data = inr (inr (inr (inr (inr (inl refl)))))
Elem-all_flags Flag.very_low_volume = inr (inr (inr (inr (inr (inr (inl refl))))))
Elem-all_flags Flag.high_aio_exposure = inr (inr (inr (inr (inr (inr (inr (inl refl)))))))

module _ {F : Type 0} ⦃n : Num F⦄ where
  -- The flags of a report are those whose test passes on the values that were read.
  pub flags_raised :
      (s : Signals F) (i : ConfidenceInputs F) (c : Confidence F) (f : Flag)
      → confidence_inputs s ≡ ok i
      → compute_confidence s ≡ ok c
      → Elem f c.flags ↔ (raised i f ≡ true)
  unfolding compute_confidence
  flags_raised s i c f r e =
      subst (λ x. Elem f (x.flags) ↔ (raised i f ≡ true))
        (ok-injective (subst (λ m. after confidence_formula m ≡ ok c) r e))
        (
          filterb-Elem (raised i) all_flags f,
          Elem-filterb (raised i) all_flags f (Elem-all_flags f),
        )

module _ {F : Type 0} ⦃n : Num F⦄ (laws : IsOrdered F) where
  formula_anti :
      (i j : ConfidenceInputs F)
      → ((f : Flag) → raised i f ≡ true → raised j f ≡ true)
      → (confidence_formula j).score ≼ (confidence_formula i).score
  unfolding confidence_formula
  formula_anti i j h = clamp100_mono laws _ _ (
      laws.sub_mono _ _ _ _ (laws.le_refl _) (
        laws.decimal_mono _ _
          (omega (arith, total_penalty-filterb_mono (raised i) (raised j) all_flags h))))

  -- A report with every flag of another has no more confidence than that one.
  pub confidence_anti :
      (s t : Signals F) (c d : Confidence F)
      → compute_confidence s ≡ ok c
      → compute_confidence t ≡ ok d
      → ((f : Flag) → Elem f c.flags → Elem f d.flags)
      → (d.score ≼ c.score) × InRange c.score × InRange d.score
  unfolding compute_confidence
  confidence_anti s t c d p q h =
      let (i, pi, qi) = after-inv confidence_formula (confidence_inputs s) p in
      let (j, pj, qj) = after-inv confidence_formula (confidence_inputs t) q in
      (
        subst (λ x. d.score ≼ x.score) qi
            (subst (λ y. y.score ≼ (confidence_formula i).score) qj
              (formula_anti i j
                (λ f m. (flags_raised t j d f pj q).0 (h f ((flags_raised s i c f pi p).1 m))))),
        subst (λ x. InRange (x.score)) qi (clamp100-InRange laws _),
        subst (λ x. InRange (x.score)) qj (clamp100-InRange laws _),
      )
