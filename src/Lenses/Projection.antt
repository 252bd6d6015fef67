-- ===== src/Lenses/Projection.antt =====
-- src/domain/strategy_projection.py: the score of a cached strategy row. A row is a mapping with any
-- values. This file has what the projections share and their tests; the scores are in Strategies.
use whidby.Prelude.{
  ℕ, Bool, true, false, not, ◌&&◌, ◌||◌, List, [], ◌∷◌, String, if◌then◌else◌, Result, ok, raise,
  type_error,
}
use whidby.Num.Order.{Num, decimal, of_int, lt_num, min_num, max_num, ◌⊘◌}
use whidby.Signals.{
  Value, none_value, number, boolean, text, items, mapping, Signals, end, entry, get_or, float_of,
  truthy, codes, text_eq,
}

pub record StrategyProjection (F : Type 0) : Type 0 where
  pub strategy_id : String
  pub score : F
  pub evidence : Signals F
  pub warnings : List String

abbrev competition_keys : List String
competition_keys =
    "organic_difficulty" ∷ "reference_organic_difficulty" ∷ "local_difficulty"
    ∷ "reference_local_difficulty" ∷ []

module _ {F : Type 0} where
  -- `{key: row.get(key), …}`
  unfoldable pub picked : List String → Signals F → Signals F
  unfolding get_or
  picked [] row = end
  picked (k ∷ ks) row = entry k (get_or k none_value row) (picked ks row)

  -- `row.get(key) is None`
  abbrev pub is_none : Value F → Bool
  is_none v = elim v [ none_value ↦ true | _ ↦ false ]

  unfoldable pub lacks : String → Signals F → Bool
  unfolding get_or
  lacks key row = is_none (get_or key none_value row)

  abbrev pub lacks_any : List String → Signals F → Bool
  lacks_any [] row = false
  lacks_any (k ∷ ks) row = lacks k row || lacks_any ks row

  -- `row.get(key) in {"low", "insufficient"}`, which hashes the value
  unfoldable pub is_low_label : Value F → Result Bool
  is_low_label v = elim v [
    | text t ↦ ok (text_eq t (codes "low") || text_eq t (codes "insufficient"))
    | items k ↦ raise type_error
    | mapping m ↦ raise type_error
    | _ ↦ ok false
  ]

module _ {F : Type 0} where
  unfoldable pub expand_evidence : Signals F → F → F → F → F → Signals F
  unfolding get_or
  expand_evidence row organic reference_organic local reference_local =
      entry "similarity_score" (get_or "similarity_score" none_value row) (
        entry "organic_difficulty" (number organic) (
          entry "reference_organic_difficulty" (number reference_organic) (
            entry "local_difficulty" (number local)
              (entry "reference_local_difficulty" (number reference_local) end))))

module _ {F : Type 0} ⦃n : Num F⦄ where
  -- `_clamp`, at its defaults
  unfoldable pub clamp_score : F → F
  clamp_score value = max_num (decimal 0) (min_num (of_int 100) value)

  unfoldable pub number_or_default : Signals F → String → F → Result F
  unfolding get_or float_of
  number_or_default row key default = elim (get_or key none_value row) [
    | none_value ↦ ok default
    | v ↦ float_of v
  ]

  -- A projection that stops with score 0 and one warning.
  abbrev pub stopped : String → Signals F → String → StrategyProjection F
  stopped name evidence warning = record {
    strategy_id = name;
    score = decimal 0;
    evidence = evidence;
    warnings = warning ∷ [];
  }

  -- The tests of a projection in order, each with what it returns early.
  unfoldable pub guarded :
      List (Bool × StrategyProjection F)
      → Result (StrategyProjection F)
      → Result (StrategyProjection F)
  guarded [] m = m
  guarded ((test, p) ∷ tests) m = if test then ok p else guarded tests m

  -- `min(x / scale, 1.0) * 100.0`
  abbrev pub share : F → F → F
  share x top = min_num (x ⊘ top) (of_int 1)

  -- The tests of each projection before its score.
  unfoldable pub gbp_blitz_tests : Signals F → List (Bool × StrategyProjection F)
  unfolding get_or truthy
  gbp_blitz_tests row =
      (
        not (truthy (get_or "local_pack_present" (boolean true) row)),
        stopped "gbp_blitz" (entry "local_pack_present" (boolean false) end)
            "no_local_pack_detected",
      )
      ∷ []

  unfoldable pub hijack_tests : Signals F → F → List (Bool × StrategyProjection F)
  unfolding get_or truthy
  hijack_tests row volume =
      (
        lt_num volume (of_int 200),
        stopped "keyword_hijack" (entry "search_volume_monthly" (number volume) end)
            "primary_keyword_volume_below_200",
      )
      ∷ (
        not (truthy (get_or "local_pack_present" (boolean false) row)),
        stopped "keyword_hijack" (entry "local_pack_present" (boolean false) end)
            "no_local_pack_detected",
      )
      ∷ (
        truthy (get_or "exact_match_name_taken" (boolean false) row),
        stopped "keyword_hijack" (entry "exact_match_name_available" (boolean false) end)
            "exact_match_gbp_name_taken",
      )
      ∷ []

  unfoldable pub hijack_missing_tests : Signals F → List (Bool × StrategyProjection F)
  unfolding lacks
  hijack_missing_tests row =
      (
        lacks "search_volume_monthly" row,
        stopped "keyword_hijack" (entry "search_volume_monthly" none_value end)
            "primary_keyword_volume_missing",
      )
      ∷ (
        lacks "local_pack_present" row,
        stopped "keyword_hijack" (entry "local_pack_present" none_value end)
            "local_pack_presence_missing",
      )
      ∷ (
        lacks "exact_match_name_taken" row,
        stopped "keyword_hijack" (entry "exact_match_name_available" none_value end)
            "exact_match_gbp_name_availability_missing",
      )
      ∷ []

  unfoldable pub expand_tests : (Value F → List ℕ) → Signals F → List (Bool × StrategyProjection F)
  unfolding lacks picked get_or truthy
  expand_tests text_of row =
      let city = get_or "cbsa_code" none_value row in
      let reference = get_or "reference_city_id" none_value row in
      (
        truthy reference && (truthy city && text_eq (text_of reference) (text_of city)),
        stopped "expand_conquer" (picked ("cbsa_code" ∷ "reference_city_id" ∷ []) row)
            "reference_city_not_candidate",
      )
      ∷ (
        lacks "similarity_score" row,
        stopped "expand_conquer" (entry "similarity_score" none_value end)
            "feature_vector_similarity_missing",
      )
      ∷ (
        lacks_any competition_keys row,
        stopped "expand_conquer" (picked competition_keys row) "competition_baseline_missing",
      )
      ∷ []
