-- ===== src/Scoring/Penalties.antt =====
-- src/scoring/confidence_score.py: when each penalty applies, read off the signals of the metro.
use whidby.Prelude.{
  Elem, ok-injective, subst, ◌≡◌, refl, sym, ◌∙◌, ◌↔◌, Bool, true, false, not, ok, Result, >>=-inv,
  after-inv, ◌&&◌,
}
use whidby.Num.Order.{Num, decimal, of_int, ◌≼◌, ◌≺◌}
use whidby.Signals.{Signals, codes, text_eq}
use whidby.Scoring.Confidence.{
  Flag, keyword_expansion_uncertain, ConfidenceInputs, Confidence, safe_int, safe_float,
  expansion_confidence, confidence_inputs, raised, confidence_formula, compute_confidence,
}
use whidby.Scoring.Flags.{flags_raised}

not-true : (b : Bool) → (not b ≡ true) ↔ (b ≡ false)
not-true true = (λ e. cc, λ e. cc)
not-true false = (λ e. refl, λ e. refl)

and-true : (b c : Bool) → (b && c ≡ true) ↔ ((b ≡ true) × (c ≡ true))
and-true true c = (λ e. (refl, e), λ p. p.1)
and-true false c = (λ e. cc, λ p. cc)

module _ {F : Type 0} ⦃n : Num F⦄ where
  abbrev pub IsZero : F → Type 0
  IsZero x = (x ≼ of_int 0) × (of_int 0 ≼ x)

  -- When a penalty applies to the signals `s`.
  abbrev pub Concerns : Signals F → Flag → Type 0
  Concerns s Flag.keyword_expansion_uncertain =
      text_eq (expansion_confidence s) (codes "low") ≡ true
  Concerns s Flag.incomplete_onpage_data =
      (x : F) × (safe_int "lighthouse_results_count" (of_int 3) s ≡ ok x) × (x ≺ of_int 3)
  Concerns s Flag.incomplete_backlink_data =
      (x : F) × (safe_int "backlink_results_count" (of_int 3) s ≡ ok x) × (x ≺ of_int 3)
  Concerns s Flag.no_serp_data =
      (x : F) × (safe_int "serp_results_count" (of_int 10) s ≡ ok x) × IsZero x
  Concerns s Flag.incomplete_review_data =
      (x : F) × (safe_int "review_results_count" (of_int 2) s ≡ ok x) × (x ≺ of_int 2)
  Concerns s Flag.incomplete_gbp_data =
      (x : F) × (safe_int "gbp_results_count" (of_int 3) s ≡ ok x) × (x ≺ of_int 3)
  Concerns s Flag.very_low_volume =
      (x : F) × (safe_float "total_search_volume" (decimal 1_000_000) s ≡ ok x)
      × (x ≺ decimal 500_000)
  Concerns s Flag.high_aio_exposure =
      (x : F) × (safe_float "aio_trigger_rate" (decimal 0) s ≡ ok x) × (decimal 3000 ≺ x)

  -- A test of the value that a reading gives.
  read_iff :
      (m : Result F) (x : F) (P : F → Type 0) (b : Bool)
      → m ≡ ok x
      → (b ≡ true) ↔ P x
      → (b ≡ true) ↔ ((y : F) × (m ≡ ok y) × P y)
  read_iff m x P b e h =
      (λ t. (x, e, h.0 t), λ (y, r, p). h.1 (subst P (ok-injective (sym r ∙ e)) p))

  -- The values that were read from the signals `s`.
  record ReadFrom (s : Signals F) (i : ConfidenceInputs F) : Type 0 where
    expansion : expansion_confidence s ≡ i.expansion
    lighthouse : safe_int "lighthouse_results_count" (of_int 3) s ≡ ok i.lighthouse
    backlink : safe_int "backlink_results_count" (of_int 3) s ≡ ok i.backlink
    serp : safe_int "serp_results_count" (of_int 10) s ≡ ok i.serp
    review : safe_int "review_results_count" (of_int 2) s ≡ ok i.review
    gbp : safe_int "gbp_results_count" (of_int 3) s ≡ ok i.gbp
    volume : safe_float "total_search_volume" (decimal 1_000_000) s ≡ ok i.total_search_volume
    aio : safe_float "aio_trigger_rate" (decimal 0) s ≡ ok i.aio_trigger_rate

  confidence_inputs-ReadFrom :
      (s : Signals F) (i : ConfidenceInputs F) → confidence_inputs s ≡ ok i → ReadFrom s i
  unfolding confidence_inputs
  confidence_inputs-ReadFrom s i e =
      let (a, ra, e1) = >>=-inv (safe_int "lighthouse_results_count" (of_int 3) s) _ e in
      let (b, rb, e2) = >>=-inv (safe_int "backlink_results_count" (of_int 3) s) _ e1 in
      let (c, rc, e3) = >>=-inv (safe_int "serp_results_count" (of_int 10) s) _ e2 in
      let (d, rd, e4) = >>=-inv (safe_int "review_results_count" (of_int 2) s) _ e3 in
      let (g, rg, e5) = >>=-inv (safe_int "gbp_results_count" (of_int 3) s) _ e4 in
      let (v, rv, e6) = >>=-inv (safe_float "total_search_volume" (decimal 1_000_000) s) _ e5 in
      let (w, rw_, e7) = >>=-inv (safe_float "aio_trigger_rate" (decimal 0) s) _ e6 in
      subst (ReadFrom s) (ok-injective e7) (record {
        expansion = refl;
        lighthouse = ra;
        backlink = rb;
        serp = rc;
        review = rd;
        gbp = rg;
        volume = rv;
        aio = rw_;
      })

  raised-Concerns :
      (s : Signals F) (i : ConfidenceInputs F) (f : Flag)
      → ReadFrom s i
      → (raised i f ≡ true) ↔ Concerns s f
  unfolding raised
  raised-Concerns s i Flag.keyword_expansion_uncertain r =
      subst (λ x. (text_eq x (codes "low") ≡ true) ↔ Concerns s keyword_expansion_uncertain)
        r.expansion (λ e. e, λ e. e)
  raised-Concerns s i Flag.incomplete_onpage_data r =
      read_iff _ i.lighthouse (λ x. x ≺ of_int 3) _ r.lighthouse (not-true _)
  raised-Concerns s i Flag.incomplete_backlink_data r =
      read_iff _ i.backlink (λ x. x ≺ of_int 3) _ r.backlink (not-true _)
  raised-Concerns s i Flag.no_serp_data r = read_iff _ i.serp IsZero _ r.serp (and-true _ _)
  raised-Concerns s i Flag.incomplete_review_data r =
      read_iff _ i.review (λ x. x ≺ of_int 2) _ r.review (not-true _)
  raised-Concerns s i Flag.incomplete_gbp_data r =
      read_iff _ i.gbp (λ x. x ≺ of_int 3) _ r.gbp (not-true _)
  raised-Concerns s i Flag.very_low_volume r =
      read_iff _ i.total_search_volume (λ x. x ≺ decimal 500_000) _ r.volume (not-true _)
  raised-Concerns s i Flag.high_aio_exposure r =
      read_iff _ i.aio_trigger_rate (λ x. decimal 3000 ≺ x) _ r.aio (not-true _)

  -- A flag is attached to a confidence that is returned exactly when its penalty applies to the
  -- signals that were read: the label of the expansion is "low"; fewer than 3 Lighthouse, 3 backlink,
  -- 2 review or 3 business profile results; no search results; a search volume below 50; or a trigger
  -- rate of AI overviews above 0.3. A missing or `None` value counts as "high", 3, 3, 2, 3, 10, 100
  -- and 0.
  pub flags_iff :
      (s : Signals F) (c : Confidence F) (f : Flag)
      → compute_confidence s ≡ ok c
      → Elem f c.flags ↔ Concerns s f
  unfolding compute_confidence
  flags_iff s c f e =
      let (i, r, q) = after-inv confidence_formula (confidence_inputs s) e in
      let here = flags_raised s i c f r e in
      let why = raised-Concerns s i f (confidence_inputs-ReadFrom s i r) in
      (λ m. why.0 (here.0 m), λ p. here.1 (why.1 p))
