-- ===== src/Lenses/Ranking.antt =====
-- src/domain/scoring.py: the ranking of a batch.
use whidby.Prelude.{
  ℕ, suc, ◌≡◌, refl, ap, sym, subst, Bool, true, false, Bool-cases, inl, inr, List, [], ◌∷◌, map,
  none, some, arith, All, ok, ok-injective, >>=-inv,
}
use mathlib.Core.List.{Permᴰ}
use mathlib.Core.List.Permᴰ
use whidby.Num.Order.{Num, IsOrdered, ◌≼◌}
use whidby.Lenses.{ScoringLens}
use whidby.Lenses.Entities.{Market, ScoredMarket}
use whidby.Lenses.Scoring.{
  score_accepted, goes_after, insert_scored, sort_scored, ranked_from, score_markets_batch,
}

module _ {F : Type 0} where
  -- The ranks count up.
  abbrev pub RanksFrom : ℕ → List (ScoredMarket F) → Type 0
  RanksFrom i [] = Unit
  RanksFrom i (s ∷ ss) = (s.rank ≡ some i) × RanksFrom (suc i) ss

  abbrev pub unranked : ScoredMarket F → ScoredMarket F
  unranked s = record s { rank = none }

  Perm-insert_scored :
      ⦃n : Num F⦄ (d : Bool) (s : ScoredMarket F) (ss : List (ScoredMarket F))
      → Permᴰ (insert_scored d s ss) (s ∷ ss)
  unfolding insert_scored
  Perm-insert_scored d s [] = Permᴰ.refl (s ∷ [])
  Perm-insert_scored d s (t ∷ ts) = elim (Bool-cases (goes_after d s t)) [
    | inr e ↦ rw (e, insert_scored) (Permᴰ.refl (s ∷ t ∷ ts))
    | inl e ↦
        rw (e, insert_scored)
          (Permᴰ.trans (Permᴰ.cons refl (Perm-insert_scored d s ts)) (Permᴰ.swap refl refl))
  ]

  pub Perm-sort_scored :
      ⦃n : Num F⦄ (d : Bool) (ss : List (ScoredMarket F)) → Permᴰ (sort_scored d ss) ss
  unfolding sort_scored
  Perm-sort_scored d [] = Permᴰ.nil
  Perm-sort_scored d (s ∷ ss) =
      Permᴰ.trans (Perm-insert_scored d s (sort_scored d ss))
        (Permᴰ.cons refl (Perm-sort_scored d ss))

  pub Perm-unranked :
      (xs ys : List (ScoredMarket F)) → Permᴰ xs ys → Permᴰ (map unranked xs) (map unranked ys)
  Perm-unranked xs ys Permᴰ.nil = Permᴰ.nil
  Perm-unranked xs ys (Permᴰ.cons e p) = Permᴰ.cons (ap unranked e) (Perm-unranked _ _ p)
  Perm-unranked xs ys (Permᴰ.swap e d) = Permᴰ.swap (ap unranked e) (ap unranked d)
  Perm-unranked xs ys (Permᴰ.trans p q) = Permᴰ.trans (Perm-unranked _ _ p) (Perm-unranked _ _ q)

  pub unranked-ranked_from :
      (i : ℕ) (ss : List (ScoredMarket F)) → map unranked (ranked_from i ss) ≡ map unranked ss
  unfolding ranked_from
  unranked-ranked_from i [] = refl
  unranked-ranked_from i (s ∷ ss) = ap (λ r. unranked s ∷ r) (unranked-ranked_from (suc i) ss)

  pub ranked_from-RanksFrom : (i : ℕ) (ss : List (ScoredMarket F)) → RanksFrom i (ranked_from i ss)
  unfolding ranked_from
  ranked_from-RanksFrom i [] = tt
  ranked_from-RanksFrom i (s ∷ ss) = (refl, ranked_from-RanksFrom (suc i) ss)

module _ {F : Type 0} ⦃n : Num F⦄ where
  -- `s` may stand before `t`.
  abbrev pub Before : Bool → ScoredMarket F → ScoredMarket F → Type 0
  Before true s t = t.opportunity_score ≼ s.opportunity_score
  Before false s t = s.opportunity_score ≼ t.opportunity_score

  abbrev pub InOrder : Bool → List (ScoredMarket F) → Type 0
  InOrder d [] = Unit
  InOrder d (s ∷ ss) = All (Before d s) ss × InOrder d ss

  All-ranked_from :
      (d : Bool) (s : ScoredMarket F) (j i : ℕ) (ss : List (ScoredMarket F))
      → All (Before d s) ss
      → All (Before d (record s { rank = some j })) (ranked_from i ss)
  unfolding ranked_from
  All-ranked_from d s j i [] h = tt
  All-ranked_from true s j i (t ∷ ts) (b, h) = (b, All-ranked_from true s j (suc i) ts h)
  All-ranked_from false s j i (t ∷ ts) (b, h) = (b, All-ranked_from false s j (suc i) ts h)

  pub InOrder-ranked_from :
      (d : Bool) (i : ℕ) (ss : List (ScoredMarket F)) → InOrder d ss → InOrder d (ranked_from i ss)
  unfolding ranked_from
  InOrder-ranked_from d i [] h = tt
  InOrder-ranked_from d i (s ∷ ss) (a, h) =
      (All-ranked_from d s i (suc i) ss a, InOrder-ranked_from d (suc i) ss h)

module _ {F : Type 0} ⦃n : Num F⦄ (laws : IsOrdered F) where
  Before-trans : (d : Bool) (s t u : ScoredMarket F) → Before d s t → Before d t u → Before d s u
  Before-trans true s t u a b = laws.le_trans _ _ _ b a
  Before-trans false s t u a b = laws.le_trans _ _ _ a b

  goes_after-Before : (d : Bool) (s t : ScoredMarket F) → goes_after d s t ≡ true → Before d t s
  goes_after-Before true s t h =
      ground (arith, laws.le_total s.opportunity_score t.opportunity_score)
  goes_after-Before false s t h =
      ground (arith, laws.le_total s.opportunity_score t.opportunity_score)

  goes_first-Before : (d : Bool) (s t : ScoredMarket F) → goes_after d s t ≡ false → Before d s t
  goes_first-Before true s t h = ground arith
  goes_first-Before false s t h = ground arith

  All-Before :
      (d : Bool) (s t : ScoredMarket F) (ss : List (ScoredMarket F))
      → Before d s t
      → All (Before d t) ss
      → All (Before d s) ss
  All-Before d s t [] b h = tt
  All-Before d s t (u ∷ ss) b (a, h) = (Before-trans d s t u b a, All-Before d s t ss b h)

  pub All-insert_scored :
      (d : Bool) (P : ScoredMarket F → Type 0) (s : ScoredMarket F) (ss : List (ScoredMarket F))
      → P s
      → All P ss
      → All P (insert_scored d s ss)
  unfolding insert_scored
  All-insert_scored d P s [] p h = (p, tt)
  All-insert_scored d P s (t ∷ ts) p (q, h) = elim (Bool-cases (goes_after d s t)) [
    | inl e ↦ rw (e, insert_scored) (q, All-insert_scored d P s ts p h)
    | inr e ↦ rw (e, insert_scored) (p, (q, h))
  ]

  InOrder-insert_scored :
      (d : Bool) (s : ScoredMarket F) (ss : List (ScoredMarket F))
      → InOrder d ss
      → InOrder d (insert_scored d s ss)
  unfolding insert_scored
  InOrder-insert_scored d s [] h = (tt, tt)
  InOrder-insert_scored d s (t ∷ ts) (a, h) = elim (Bool-cases (goes_after d s t)) [
    | inl e ↦
        rw (e, insert_scored)
          (
            All-insert_scored d (Before d t) s ts (goes_after-Before d s t e) a,
            InOrder-insert_scored d s ts h,
          )
    | inr e ↦
        let first = goes_first-Before d s t e in
        rw (e, insert_scored) ((first, All-Before d s t ts first a), (a, h))
  ]

  pub InOrder-sort_scored : (d : Bool) (ss : List (ScoredMarket F)) → InOrder d (sort_scored d ss)
  unfolding sort_scored
  InOrder-sort_scored d [] = tt
  InOrder-sort_scored d (s ∷ ss) =
      InOrder-insert_scored d s (sort_scored d ss) (InOrder-sort_scored d ss)

  -- A batch that is ranked holds the accepted markets, each once; the scores go in the direction of
  -- the lens and the ranks count up from 1.
  pub score_markets_batch-InOrder :
      (markets : List (Market F)) (lens : ScoringLens F) (ranked : List (ScoredMarket F))
      → score_markets_batch markets lens ≡ ok ranked
      → InOrder lens.sort_descending ranked
        × RanksFrom 1 ranked
        × (accepted : List (ScoredMarket F)) × (score_accepted markets lens ≡ ok accepted)
        × Permᴰ (map unranked ranked) (map unranked accepted)
  unfolding score_markets_batch
  score_markets_batch-InOrder markets lens ranked e =
      let (accepted, f, g) = >>=-inv (score_accepted markets lens) _ e in
      let sorted = sort_scored lens.sort_descending accepted in
      rw (sym (ok-injective g)) (
        InOrder-ranked_from lens.sort_descending 1 sorted
            (InOrder-sort_scored lens.sort_descending accepted),
        ranked_from-RanksFrom 1 sorted,
        accepted,
        f,
        subst (λ r. Permᴰ r (map unranked accepted)) (sym (unranked-ranked_from 1 sorted))
            (Perm-unranked sorted accepted (Perm-sort_scored lens.sort_descending accepted)),
      )
