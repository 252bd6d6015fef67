-- ===== src/Scoring/Confidence.antt =====
-- src/scoring/confidence_score.py: the penalties of one metro and the confidence that is left. The
-- flags are the codes whose test passes, in the order of the code.
use whidby.Prelude.{ℕ, ◌+◌, Bool, ◌&&◌, List, [], ◌∷◌, String, Result, ok, ◌>>=◌, after, filterb}
use whidby.Num.Order.{Num, decimal, of_int, le_num, lt_num, ◌⊖◌}
use whidby.Signals.{
  Signals, none_value, codes, text_eq, strip, lower, str_of, get_or, float_of, int_of,
}
use whidby.Scoring.Normalization.{clamp100}

pub data Flag : Type 0 where
  keyword_expansion_uncertain incomplete_onpage_data incomplete_backlink_data : Flag
  no_serp_data incomplete_review_data incomplete_gbp_data : Flag
  very_low_volume high_aio_exposure : Flag

-- The penalty of a flag, as a positive number.
unfoldable pub penalty : Flag → ℕ
penalty keyword_expansion_uncertain = 20
penalty incomplete_onpage_data = 10
penalty incomplete_backlink_data = 10
penalty no_serp_data = 40
penalty incomplete_review_data = 10
penalty incomplete_gbp_data = 10
penalty very_low_volume = 15
penalty high_aio_exposure = 10

-- The codes in the order of the tests.
abbrev pub all_flags : List Flag
all_flags =
    keyword_expansion_uncertain ∷ incomplete_onpage_data ∷ incomplete_backlink_data ∷ no_serp_data
    ∷ incomplete_review_data ∷ incomplete_gbp_data ∷ very_low_volume ∷ high_aio_exposure ∷ []

unfoldable pub total_penalty : List Flag → ℕ
unfolding penalty
total_penalty [] = 0
total_penalty (f ∷ fs) = penalty f + total_penalty fs

pub record ConfidenceInputs (F : Type 0) : Type 0 where
  pub expansion : List ℕ
  pub lighthouse : F
  pub backlink : F
  pub serp : F
  pub review : F
  pub gbp : F
  pub total_search_volume : F
  pub aio_trigger_rate : F

pub record Confidence (F : Type 0) : Type 0 where
  pub score : F
  pub flags : List Flag

module _ {F : Type 0} ⦃n : Num F⦄ where
  -- `_safe_int` and `_safe_float`: a missing or `None` value gives the default.
  unfoldable pub safe_int : String → F → Signals F → Result F
  unfolding get_or int_of
  safe_int k d s = elim (get_or k none_value s) [ none_value ↦ ok d | v ↦ int_of v ]

  unfoldable pub safe_float : String → F → Signals F → Result F
  unfolding get_or float_of
  safe_float k d s = elim (get_or k none_value s) [ none_value ↦ ok d | v ↦ float_of v ]

  -- `str(raw_conf).strip().lower() if raw_conf is not None else "high"`
  unfoldable pub expansion_confidence : Signals F → List ℕ
  unfolding get_or str_of strip lower
  expansion_confidence s = elim (get_or "expansion_confidence" none_value s) [
    | none_value ↦ codes "high"
    | v ↦ lower (strip (str_of v))
  ]

  unfoldable pub confidence_inputs : Signals F → Result (ConfidenceInputs F)
  unfolding safe_int safe_float expansion_confidence
  confidence_inputs s = do
    lighthouse ← safe_int "lighthouse_results_count" (of_int 3) s
    backlink ← safe_int "backlink_results_count" (of_int 3) s
    serp ← safe_int "serp_results_count" (of_int 10) s
    review ← safe_int "review_results_count" (of_int 2) s
    gbp ← safe_int "gbp_results_count" (of_int 3) s
    volume ← safe_float "total_search_volume" (decimal 1_000_000) s
    aio ← safe_float "aio_trigger_rate" (decimal 0) s
    ok (record {
      expansion = expansion_confidence s;
      lighthouse = lighthouse;
      backlink = backlink;
      serp = serp;
      review = review;
      gbp = gbp;
      total_search_volume = volume;
      aio_trigger_rate = aio;
    })

  -- The test under which each penalty is appended.
  unfoldable pub raised : ConfidenceInputs F → Flag → Bool
  raised i keyword_expansion_uncertain = text_eq i.expansion (codes "low")
  raised i incomplete_onpage_data = lt_num i.lighthouse (of_int 3)
  raised i incomplete_backlink_data = lt_num i.backlink (of_int 3)
  raised i no_serp_data = le_num i.serp (of_int 0) && le_num (of_int 0) i.serp
  raised i incomplete_review_data = lt_num i.review (of_int 2)
  raised i incomplete_gbp_data = lt_num i.gbp (of_int 3)
  raised i very_low_volume = lt_num i.total_search_volume (decimal 500_000)
  raised i high_aio_exposure = lt_num (decimal 3000) i.aio_trigger_rate

  -- `100.0 + sum(…)` of whole negative penalties is the exact difference.
  unfoldable pub confidence_formula : ConfidenceInputs F → Confidence F
  unfolding raised total_penalty
  confidence_formula i =
      let flags = filterb (raised i) all_flags in
      record { score = clamp100 (decimal 1_000_000 ⊖ of_int (total_penalty flags)); flags = flags }

  unfoldable pub compute_confidence : Signals F → Result (Confidence F)
  unfolding confidence_inputs confidence_formula
  compute_confidence s = after confidence_formula (confidence_inputs s)
