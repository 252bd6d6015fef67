-- ===== src/Discovery/Found.antt =====
-- src/domain/services/discovery_service.py: what a page of a discovery holds, and in which order.
use whidby.Prelude.{
  Result, ◌+◌, ◌≤◌, ◌≡◌, refl, sym, Bool, true, false, not, List, [], ◌∷◌, Elem, All-Elem, ◌||◌,
  Option, String, arith, All, length, drop, length-take, ok, ok-injective, >>=-inv,
}
use whidby.Num.Order.{Num, IsOrdered}
use whidby.Lenses.Entities.{Market, ScoredMarket}
use whidby.Lenses.Ranking.{InOrder, RanksFrom}
use whidby.Discovery.Predicates.{
  Operand, FieldFilter, city_field, service_field, passes_filters, passes_city_filters,
  passes_service_filters,
}
use whidby.Discovery.{
  is_empty, MarketQuery, Platform, has_city_filters, has_service_filters, passing_if, in_portfolio,
  filter_markets, score_found, discover,
}
use whidby.Discovery.Lists.{
  passing_if-All, All-take, All-drop, RanksFrom-take, RanksFrom-drop, InOrder-take, InOrder-drop,
}
use whidby.Discovery.Ranked.{by_lens, considered, score_found-Ranking, in_portfolio-Ranking}

module _ {F : Type 0} ⦃n : Num F⦄ (platform : Platform F) where
  -- A market of the store that passes the filters on its city and those on its service.
  abbrev pub Comes : MarketQuery F → List (Market F) → Market F → Type 0
  Comes query markets m =
      (Elem m markets
        × (passes_city_filters platform.operand_text m.city query.city_filters ≡ ok true))
      × (passes_service_filters platform.operand_text m.service query.service_filters ≡ ok true)

  no_filters :
      (field : String → Option (Operand F)) (fs : List (FieldFilter F))
      → not (is_empty fs) ≡ false
      → passes_filters platform.operand_text field fs ≡ ok true
  unfolding passes_filters
  no_filters field [] e = refl
  no_filters field (f ∷ fs) e = cc

  filter_markets-Comes :
      (query : MarketQuery F) (markets r : List (Market F))
      → filter_markets platform query markets ≡ ok r
      → All (Comes query markets) r
  unfolding filter_markets passes_city_filters passes_service_filters
  filter_markets-Comes query markets r e =
      let in_city : Market F → Result Bool =
        λ m. passes_city_filters platform.operand_text m.city query.city_filters in
      let in_service : Market F → Result Bool =
        λ m. passes_service_filters platform.operand_text m.service query.service_filters in
      let (found, f, g) = >>=-inv (passing_if (has_city_filters query) in_city markets) _ e in
      passing_if-All (λ (m : Market F). Elem m markets × (in_city m ≡ ok true)) in_service
        (has_service_filters query) found r
        (λ h m. no_filters (service_field m.service) query.service_filters h)
        (passing_if-All (λ (m : Market F). Elem m markets) in_city (has_city_filters query) markets
          found (λ h m. no_filters (city_field m.city) query.city_filters h)
          (All-Elem (λ (m : Market F). Elem m markets) markets (λ m e. e)) f)
        g

  -- The scores fall, unless the lens sorts upwards and there is no portfolio.
  abbrev pub direction : MarketQuery F → Bool
  direction query = considered query.portfolio_context || by_lens platform query

  -- A page that is returned holds markets of the store that pass the filters of the query, at most as
  -- many as its limit, with their scores in the direction of the query: falling for a strategy or for
  -- a portfolio that is not empty, otherwise as the lens says; the ranks count up from the offset
  -- plus one.
  pub discover-InOrder :
      (laws : IsOrdered F) (query : MarketQuery F) (markets : List (Market F))
      (page : List (ScoredMarket F))
      → discover platform query markets ≡ ok page
      → All (λ s. Comes query markets s.market) page
        × InOrder (direction query) page
        × RanksFrom (1 + query.offset) page
        × (length page ≤ query.limit)
  unfolding discover
  discover-InOrder laws query markets page e =
      let (found, f, g) = >>=-inv (filter_markets platform query markets) _ e in
      let (ss, u, k) = >>=-inv (score_found platform query found) _ g in
      let P = Comes query markets in
      let d = direction query in
      let all = in_portfolio query.portfolio_context ss in
      let later = drop query.offset all in
      let (a, o, r) =
        in_portfolio-Ranking laws P query.portfolio_context (by_lens platform query) ss (
          score_found-Ranking laws P platform query found ss
            (filter_markets-Comes query markets found f) u) in
      rw (sym (ok-injective k)) (
        All-take (λ s. P s.market) query.limit later
            (All-drop (λ s. P s.market) query.offset all a),
        InOrder-take d query.limit later (InOrder-drop d query.offset all o),
        RanksFrom-take query.limit (1 + query.offset) later (RanksFrom-drop query.offset 1 all r),
        omega (arith, length-take query.limit later),
      )
