-- ===== src/Keywords/Tests.antt =====
-- Keywords of a plumber: normalized, merged, and expanded with a model that replies and a service that
-- raises.
use whidby.Prelude.{
  ℕ, ◌≡◌, refl, ◌⊎◌, true, ◌&&◌, List, [], ◌∷◌, map, Option, none, some, String, Result, ok, raise,
  value_error, type_error,
}
use whidby.Signals.{codes}
use whidby.Keywords.{CandidateKeyword, normalize_keyword, dedupe_candidate_keywords}
use whidby.Keywords.Sources.{LlmRow, LlmReply, DfsReply}
use whidby.Keywords.Expansion.{ExpandedKeyword, KeywordExpansion, Waited, expand_keywords}
use whidby.Keywords.Distinct.{
  Distinct, has_keyword, is_text, offers, dedupe_candidate_keywords-Distinct,
}
use whidby.Keywords.Expanded.{IsExpansion, expand_keywords_total}

program : Unit {0}
unfolding expand_keywords
program = tt

normalized : normalize_keyword (codes "  Plumber   Near me!! ") ≡ codes "plumber near me"
unfolding program
normalized = refl

-- A second normalization may drop more.
normalized_once : normalize_keyword (codes "plumber! !") ≡ codes "plumber!"
unfolding program
normalized_once = refl

normalized_twice : normalize_keyword (codes "plumber!") ≡ codes "plumber"
unfolding program
normalized_twice = refl

abbrev candidate : String → String → Option ℕ → CandidateKeyword
candidate keyword source tier = record {
  keyword = some (codes keyword);
  source = some source;
  intent = none;
  tier = tier;
  aio_risk = none;
}

abbrev candidates : List CandidateKeyword
candidates =
    candidate "Plumber" "input" (some 1)
    ∷ candidate "plumber!" "llm" (some 3)
    ∷ candidate "!!" "llm" none
    ∷ candidate "drain" "dataforseo_suggestions" none
    ∷ []

merged_keywords :
    map (λ m. m.keyword) (dedupe_candidate_keywords candidates)
    ≡ codes "plumber" ∷ codes "drain" ∷ []
unfolding program
merged_keywords = refl

-- The tier of the later source replaces that of the input.
merged_tiers : map (λ m. m.tier) (dedupe_candidate_keywords candidates) ≡ some 3 ∷ none ∷ []
unfolding program
merged_tiers = refl

dedupe_candidate_keywords-Distinct_example :
    Distinct (dedupe_candidate_keywords candidates)
    × ((k : List ℕ)
        → has_keyword k (dedupe_candidate_keywords candidates) ≡ (is_text k && offers k candidates))
dedupe_candidate_keywords-Distinct_example = dedupe_candidate_keywords-Distinct candidates

abbrev llm_row : String → Option LlmRow
llm_row keyword = some (record {
  keyword = some (codes keyword);
  intent = some "local";
  tier = some 2;
  aio_risk = none;
})

abbrev llm_client : List ℕ → Result LlmReply
llm_client niche = ok (record {
  success = true;
  data_rows = some (llm_row "how to fix a drain" ∷ none ∷ llm_row "plumber! !" ∷ []);
})

abbrev failing_client : List ℕ → Result DfsReply
failing_client niche = raise type_error

abbrev both_done : Waited
both_done = record { llm_done = true; dfs_done = true }

abbrev rows_or_empty : Result KeywordExpansion → List ExpandedKeyword
rows_or_empty (ok x) = x.expanded_keywords
rows_or_empty (raise e) = []

-- Two texts of the candidates that are normalized once more become one keyword, twice.
expanded_twice :
    map
      (λ k. k.keyword)
      (rows_or_empty
        (expand_keywords (codes "Plumber") (some llm_client) (some failing_client) both_done))
    ≡ codes "plumber" ∷ codes "plumber" ∷ codes "how to fix a drain" ∷ []
unfolding program
expanded_twice = refl

no_niche : expand_keywords (codes " !") none none both_done ≡ raise value_error
unfolding program
no_niche = refl

expand_keywords_total_example :
    ((normalize_keyword (codes "Plumber") ≡ [])
      × (expand_keywords (codes "Plumber") (some llm_client) (some failing_client) both_done
          ≡ raise value_error))
    ⊎ ((x : KeywordExpansion) × (expand_keywords
            (codes "Plumber")
            (some llm_client)
            (some failing_client)
            both_done
          ≡ ok x)
        × (x.niche ≡ normalize_keyword (codes "Plumber"))
        × IsExpansion x)
expand_keywords_total_example =
    expand_keywords_total (codes "Plumber") (some llm_client) (some failing_client) both_done
