-- ===== src/Discovery/Portfolio.antt =====
-- src/domain/services/discovery_service.py: what a portfolio does to a ranking.
use whidby.Prelude.{
  ◌≡◌, refl, Bool, true, false, if◌then◌else◌, [], has, subst, sym, List, ◌∷◌, map,
}
use mathlib.Core.List.{Permᴰ}
use whidby.Num.Order.{Num, IsOrdered, of_int, ◌⊕◌, ◌⊖◌}
use whidby.Lenses.Entities.{Market, ScoredMarket}
use whidby.Lenses.Scoring.{sort_scored}
use whidby.Lenses.Ranking.{
  InOrder, RanksFrom, unranked, Perm-unranked, Perm-sort_scored, unranked-ranked_from,
  InOrder-sort_scored, InOrder-ranked_from, ranked_from-RanksFrom,
}
use whidby.Discovery.{has_codes, portfolio_score, adjusted, apply_portfolio_ranking}

module _ {F : Type 0} ⦃n : Num F⦄ where
  -- The score of a market, by whether its city and its service are in the portfolio.
  abbrev pub Bonus : Bool → Bool → F → F → Type 0
  Bonus false false old new = new ≡ old ⊕ of_int 0
  Bonus true false old new = new ≡ old ⊕ (of_int 0 ⊕ of_int 5)
  Bonus false true old new = new ≡ old ⊕ (of_int 0 ⊖ of_int 10)
  Bonus true true old new = new ≡ old ⊕ ((of_int 0 ⊕ of_int 5) ⊖ of_int 10)

  -- The same markets, in the same order, with their adjusted scores.
  abbrev pub Adjusted : List (Market F) → List (ScoredMarket F) → List (ScoredMarket F) → Type 0
  Adjusted context [] [] = Unit
  Adjusted context (s ∷ ss) (t ∷ ts) =
      (t.market ≡ s.market)
      × Bonus (has s.market.city.city_id (map (λ m. m.city.city_id) context))
          (has_codes s.market.service.service_id (map (λ m. m.service.service_id) context))
          s.opportunity_score t.opportunity_score
      × Adjusted context ss ts
  Adjusted context _ _ = ⊥

  if-Bonus :
      (b c : Bool) (old : F)
      → (let bonus : F = if b then of_int 0 ⊕ of_int 5 else of_int 0 in
          Bonus b c old (old ⊕ (if c then bonus ⊖ of_int 10 else bonus)))
  if-Bonus false false old = refl
  if-Bonus true false old = refl
  if-Bonus false true old = refl
  if-Bonus true true old = refl

  adjusted-Adjusted :
      (context : List (Market F)) (scored : List (ScoredMarket F))
      → Adjusted context scored (map (adjusted context) scored)
  unfolding adjusted portfolio_score
  adjusted-Adjusted context [] = tt
  adjusted-Adjusted context (s ∷ ss) =
      (refl, if-Bonus _ _ s.opportunity_score, adjusted-Adjusted context ss)

  -- The ranking for a portfolio that is not empty holds every scored market once, its score raised by
  -- 5 if the portfolio has its city and lowered by 10 if the portfolio has its service; the scores
  -- fall and the ranks count up from 1.
  pub apply_portfolio_ranking-InOrder :
      (laws : IsOrdered F) (scored : List (ScoredMarket F)) (m : Market F) (ms : List (Market F))
      → InOrder true (apply_portfolio_ranking scored (m ∷ ms))
        × RanksFrom 1 (apply_portfolio_ranking scored (m ∷ ms))
        × (new : List (ScoredMarket F)) × Permᴰ
            (map unranked (apply_portfolio_ranking scored (m ∷ ms)))
            (map unranked new)
        × Adjusted (m ∷ ms) scored new
  unfolding apply_portfolio_ranking
  apply_portfolio_ranking-InOrder laws scored m ms =
      let new = map (adjusted (m ∷ ms)) scored in
      let sorted = sort_scored true new in
      (
        InOrder-ranked_from true 1 sorted (InOrder-sort_scored laws true new),
        ranked_from-RanksFrom 1 sorted,
        new,
        subst (λ r. Permᴰ r (map unranked new)) (sym (unranked-ranked_from 1 sorted))
            (Perm-unranked sorted new (Perm-sort_scored true new)),
        adjusted-Adjusted (m ∷ ms) scored,
      )
