-- ===== src/Discovery/Ranked.antt =====
-- src/domain/services/discovery_service.py: the markets that are scored, and their order.
use whidby.Prelude.{
  ◌≡◌, ap, sym, ◌∙◌, subst, Bool, true, false, Bool-cases, inl, inr, List, [], ◌∷◌, ◌||◌, map,
  Option, none, some, String, All, Result, ok, raise, ok-injective, >>=-inv, Ensures, Ensures-elim,
  key_error, attribute_error, runner_error, if◌then◌else◌, type_error, value_error,
}
use whidby.Num.Order.{Num, IsOrdered}
use whidby.Signals.{Value, none_value, number, boolean, text, items, mapping, Signals, get}
use whidby.Lenses.{ScoringLens}
use whidby.Lenses.Entities.{Market, ScoredMarket}
use whidby.Lenses.Scoring.{
  score_market, score_accepted, score_markets_batch, Outcome, scored, missing_signals,
  filter_not_met, sort_scored, ranked_from,
}
use whidby.Lenses.Ranking.{
  InOrder, RanksFrom, All-insert_scored, InOrder-sort_scored, InOrder-ranked_from,
  ranked_from-RanksFrom,
}
use whidby.Lenses.Accepted.{score_market-Meets}
use whidby.Lenses.Projection.{StrategyProjection}
use whidby.Discovery.{
  MarketQuery, Platform, projected_or_none, projected_row, projected_by, project_strategy_market,
  project_markets, score_strategy_markets, adjusted, apply_portfolio_ranking, in_portfolio,
  is_strategy, score_found,
}
use whidby.Discovery.Lists.{All-ranked}

-- Whether there is a portfolio to consider.
abbrev pub considered {ℓ} : {A : Type ℓ} → Option (List A) → Bool
considered none = false
considered (some []) = false
considered (some (m ∷ ms)) = true

module _ {F : Type 0} ⦃n : Num F⦄ where
  -- The direction of the scores before a portfolio is considered.
  abbrev pub by_lens : Platform F → MarketQuery F → Bool
  by_lens platform query = is_strategy platform query.lens.lens_id || query.lens.sort_descending

-- Scored markets in one direction with the ranks from 1 on, all of them markets with `P`.
module _ {F : Type 0} ⦃n : Num F⦄ (laws : IsOrdered F) (P : Market F → Type 0) where
  abbrev pub Ranking : Bool → List (ScoredMarket F) → Type 0
  Ranking d ss = All (λ s. P s.market) ss × InOrder d ss × RanksFrom 1 ss

  All-sorted :
      (d : Bool) (ss : List (ScoredMarket F))
      → All (λ s. P s.market) ss
      → All (λ s. P s.market) (sort_scored d ss)
  unfolding sort_scored
  All-sorted d [] h = tt
  All-sorted d (s ∷ ss) (p, h) =
      All-insert_scored laws d (λ t. P t.market) s (sort_scored d ss) p (All-sorted d ss h)

  sorted-Ranking :
      (d : Bool) (ss : List (ScoredMarket F))
      → All (λ s. P s.market) ss
      → Ranking d (ranked_from 1 (sort_scored d ss))
  sorted-Ranking d ss h = (
    All-ranked P 1 (sort_scored d ss) (All-sorted d ss h),
    InOrder-ranked_from d 1 (sort_scored d ss) (InOrder-sort_scored laws d ss),
    ranked_from-RanksFrom 1 (sort_scored d ss),
  )

  abbrev Kept : Option (ScoredMarket F) → Type 0
  Kept none = Unit
  Kept (some s) = P s.market

  projected_or_none-Kept :
      (platform : Platform F) (ai : Bool) (m : Market F) (row : Signals F)
      (p : Result (StrategyProjection F))
      → P m
      → Ensures Kept (projected_or_none platform ai m row p)
  unfolding projected_or_none
  projected_or_none-Kept platform ai m row (ok p) h = h
  projected_or_none-Kept platform ai m row (raise type_error) h = tt
  projected_or_none-Kept platform ai m row (raise value_error) h = tt
  projected_or_none-Kept platform ai m row (raise key_error) h = tt
  projected_or_none-Kept platform ai m row (raise attribute_error) h = tt
  projected_or_none-Kept platform ai m row (raise runner_error) h = tt

  projected_row-Kept :
      (platform : Platform F) (ai : Bool) (m : Market F)
      (project : Signals F → Result (StrategyProjection F)) (v : Option (Value F))
      → P m
      → Ensures Kept (projected_row platform ai m project v)
  unfolding projected_row
  projected_row-Kept platform ai m project none h = tt
  projected_row-Kept platform ai m project (some none_value) h = tt
  projected_row-Kept platform ai m project (some (number x)) h = tt
  projected_row-Kept platform ai m project (some (boolean b)) h = tt
  projected_row-Kept platform ai m project (some (text t)) h = tt
  projected_row-Kept platform ai m project (some (items k)) h = tt
  projected_row-Kept platform ai m project (some (mapping row)) h =
      projected_or_none-Kept platform ai m row (project row) h

  projected_by-Kept :
      (platform : Platform F) (ai : Bool) (m : Market F)
      (project : Option (Signals F → Result (StrategyProjection F)))
      → P m
      → Ensures Kept (projected_by platform ai m project)
  unfolding projected_by
  projected_by-Kept platform ai m none h = tt
  projected_by-Kept platform ai m (some project) h =
      projected_row-Kept platform ai m project (get "strategy_row" m.signals) h

  with_projected :
      (o : Option (ScoredMarket F)) (rest : List (ScoredMarket F))
      → Kept o
      → All (λ s. P s.market) rest
      → All (λ s. P s.market) (elim o [ none ↦ rest | some s ↦ s ∷ rest ])
  with_projected none rest k h = h
  with_projected (some s) rest k h = (k, h)

  project_markets-All :
      (platform : Platform F) (lens_id : String) (ai : Bool) (ms : List (Market F))
      (r : List (ScoredMarket F))
      → All P ms
      → project_markets platform lens_id ai ms ≡ ok r
      → All (λ s. P s.market) r
  unfolding project_markets project_strategy_market
  project_markets-All platform lens_id ai [] r h e =
      subst (All (λ s. P s.market)) (ok-injective e) tt
  project_markets-All platform lens_id ai (m ∷ ms) r (p, h) e =
      let (o, t, f) = >>=-inv (project_strategy_market platform lens_id ai m) _ e in
      let (rest, u, g) = >>=-inv (project_markets platform lens_id ai ms) _ f in
      let kept = Ensures-elim Kept _ (projected_by-Kept platform ai m _ p) t in
      subst (All (λ s. P s.market)) (ok-injective g)
        (with_projected o rest kept (project_markets-All platform lens_id ai ms rest h u))

  accepted_or :
      (o : Outcome F) (m : Market F) (lens : ScoringLens F) (rest : List (ScoredMarket F))
      → score_market m lens ≡ ok o
      → P m
      → All (λ s. P s.market) rest
      → All (λ s. P s.market) (elim o [ scored s ↦ s ∷ rest | _ ↦ rest ])
  accepted_or (scored s) m lens rest e p h =
      let (scores, x, r, f, same, q, u) = score_market-Meets laws m lens s e in
      (subst P (sym same) p, h)
  accepted_or missing_signals m lens rest e p h = h
  accepted_or filter_not_met m lens rest e p h = h

  score_accepted-All :
      (lens : ScoringLens F) (ms : List (Market F)) (r : List (ScoredMarket F))
      → All P ms
      → score_accepted ms lens ≡ ok r
      → All (λ s. P s.market) r
  unfolding score_accepted
  score_accepted-All lens [] r h e = subst (All (λ s. P s.market)) (ok-injective e) tt
  score_accepted-All lens (m ∷ ms) r (p, h) e =
      let (o, t, f) = >>=-inv (score_market m lens) _ e in
      let (rest, u, g) = >>=-inv (score_accepted ms lens) _ f in
      subst (All (λ s. P s.market)) (ok-injective g)
        (accepted_or o m lens rest t p (score_accepted-All lens ms rest h u))

  project_markets-Ranking :
      (platform : Platform F) (lens_id : String) (ai : Bool) (ms : List (Market F))
      (r : List (ScoredMarket F))
      → All P ms
      → score_strategy_markets platform lens_id ai ms ≡ ok r
      → Ranking true r
  unfolding score_strategy_markets
  project_markets-Ranking platform lens_id ai ms r h e =
      let (ss, f, g) = >>=-inv (project_markets platform lens_id ai ms) _ e in
      subst (Ranking true) (ok-injective g)
        (sorted-Ranking true ss (project_markets-All platform lens_id ai ms ss h f))

  score_markets_batch-Ranking :
      (lens : ScoringLens F) (ms : List (Market F)) (r : List (ScoredMarket F))
      → All P ms
      → score_markets_batch ms lens ≡ ok r
      → Ranking lens.sort_descending r
  unfolding score_markets_batch
  score_markets_batch-Ranking lens ms r h e =
      let (ss, f, g) = >>=-inv (score_accepted ms lens) _ e in
      subst (Ranking lens.sort_descending) (ok-injective g)
        (sorted-Ranking lens.sort_descending ss (score_accepted-All lens ms ss h f))

  pub score_found-Ranking :
      (platform : Platform F) (query : MarketQuery F) (ms : List (Market F))
      (r : List (ScoredMarket F))
      → All P ms
      → score_found platform query ms ≡ ok r
      → Ranking (by_lens platform query) r
  unfolding score_found
  score_found-Ranking platform query [] r h e =
      subst (Ranking (by_lens platform query)) (ok-injective e) (tt, tt, tt)
  score_found-Ranking platform query (m ∷ ms) r h e =
      let strategy =
        score_strategy_markets platform query.lens.lens_id query.ai_resilience_filter (m ∷ ms) in
      let lens = score_markets_batch (m ∷ ms) query.lens in
      elim (Bool-cases (is_strategy platform query.lens.lens_id)) [
        | inl s ↦ rw s (
            project_markets-Ranking platform query.lens.lens_id query.ai_resilience_filter (m ∷ ms)
              r h (ap (λ b. if b then strategy else lens) (sym s) ∙ e))
        | inr s ↦ rw s (
            score_markets_batch-Ranking query.lens (m ∷ ms) r h
              (ap (λ b. if b then strategy else lens) (sym s) ∙ e))
      ]

  All-adjusted :
      (context : List (Market F)) (ss : List (ScoredMarket F))
      → All (λ s. P s.market) ss
      → All (λ s. P s.market) (map (adjusted context) ss)
  unfolding adjusted
  All-adjusted context [] h = tt
  All-adjusted context (s ∷ ss) (p, h) = (p, All-adjusted context ss h)

  pub in_portfolio-Ranking :
      (context : Option (List (Market F))) (d : Bool) (ss : List (ScoredMarket F))
      → Ranking d ss
      → Ranking (considered context || d) (in_portfolio context ss)
  unfolding in_portfolio apply_portfolio_ranking
  in_portfolio-Ranking none d ss h = h
  in_portfolio-Ranking (some []) d ss h = h
  in_portfolio-Ranking (some (m ∷ ms)) d ss (a, o, r) =
      sorted-Ranking true (map (adjusted (m ∷ ms)) ss) (All-adjusted (m ∷ ms) ss a)
