-- ===== src/Keywords/Expansion.antt =====
-- src/pipeline/keyword_expansion.py: the keywords of a niche from a language model and a keyword
-- service, merged, classified, sorted and counted. `Waited` says which of the two tasks ended before the
-- timeout.
use whidby.Prelude.{
  ℕ, ◌*◌, Bool, false, not, ◌&&◌, ◌||◌, List, [], ◌∷◌, ◌++◌, map, Option, none, some, String,
  str_eq, ltb, ◌==◌, le_text, has, length, take, countb, if◌then◌else◌, Result, ok, raise,
  value_error,
}
use whidby.Signals.{text_eq}
use whidby.Keywords.{
  CandidateKeyword, MergedKeyword, allowed_intents, allowed_aio_risk, known_source,
  normalize_keyword, dedupe_candidate_keywords,
}
use whidby.Keywords.Sources.{
  LlmReply, DfsReply, allowed_tier, keep_if, load_llm_candidates, load_dfs_keywords,
}
use whidby.Keywords.Intent.{
  any_occurs, infer_intent_from_rules, aio_risk_for_intent, is_actionable_intent,
}

pub record ExpandedKeyword : Type 0 where
  pub keyword : List ℕ
  pub tier : ℕ
  pub intent : String
  pub source : String
  pub aio_risk : String
  pub actionable : Bool

pub record KeywordExpansion : Type 0 where
  pub niche : List ℕ
  pub expanded_keywords : List ExpandedKeyword
  pub total_keywords : ℕ
  pub actionable_keywords : ℕ
  pub informational_keywords_excluded : ℕ
  pub expansion_confidence : String

pub record Waited : Type 0 where
  pub llm_done : Bool
  pub dfs_done : Bool

abbrev pub max_keywords : ℕ
max_keywords = 50

abbrev pub has_term : List ℕ → List (List ℕ) → Bool
has_term t [] = false
has_term t (u ∷ us) = text_eq u t || has_term t us

-- The set of the normalized terms that are not empty.
unfoldable pub term_set : List (List ℕ) → List (List ℕ)
unfolding normalize_keyword
term_set [] = []
term_set (t ∷ ts) =
    let rest = term_set ts in
    elim (normalize_keyword t) [
      | [] ↦ rest
      | c ∷ cs ↦ if has_term (c ∷ cs) rest then rest else (c ∷ cs) ∷ rest
    ]

-- The share of the terms that both sources have, against 0.30 and 0.60.
unfoldable pub confidence_from_overlap : List (List ℕ) → List (List ℕ) → Bool → Bool → String
confidence_from_overlap llm_terms dfs_terms llm_success dfs_success =
    let both = countb (λ t. has_term t dfs_terms) llm_terms in
    if not llm_success || not dfs_success
    then "low"
    else if length llm_terms == 0
    then "low"
    else if ltb (both * 10) (length llm_terms * 3)
    then "low"
    else if ltb (both * 10) (length llm_terms * 6)
    then "medium"
    else "high"

unfoldable pub infer_tier : List ℕ → List ℕ → ℕ
unfolding normalize_keyword
infer_tier keyword niche =
    let normalized = normalize_keyword keyword in
    if text_eq normalized (normalize_keyword niche) || any_occurs ("near me" ∷ []) normalized
    then 1
    else if any_occurs
        ("emergency" ∷ "repair" ∷ "services" ∷ "service" ∷ "installation" ∷ "install" ∷ [])
        normalized
    then 2
    else 3

abbrev pub given_or {ℓ} : {A : Type ℓ} → A → Option A → A
given_or a none = a
given_or a (some b) = b

-- The fields of a row, from what the candidate has and from its keyword.
unfoldable pub proposed_intent : Option String → List ℕ → String
unfolding infer_intent_from_rules
proposed_intent intent keyword =
    given_or (given_or "commercial" (infer_intent_from_rules keyword))
      (keep_if (λ i. has i allowed_intents) intent)

unfoldable pub chosen_intent : Option String → List ℕ → String
unfolding proposed_intent
chosen_intent intent keyword =
    let first = proposed_intent intent keyword in
    if has first allowed_intents then first else "commercial"

unfoldable pub chosen_aio_risk : Option String → String → String
unfolding aio_risk_for_intent
chosen_aio_risk risk intent =
    given_or (aio_risk_for_intent intent) (keep_if (λ r. has r allowed_aio_risk) risk)

unfoldable pub expanded_keyword : List ℕ → MergedKeyword → List ℕ → ExpandedKeyword
unfolding chosen_intent chosen_aio_risk infer_tier is_actionable_intent
expanded_keyword niche_norm c keyword =
    let intent = chosen_intent c.intent keyword in
    record {
      keyword = keyword;
      tier = given_or (infer_tier keyword niche_norm) (keep_if allowed_tier c.tier);
      intent = intent;
      source = known_source (some c.source);
      aio_risk = chosen_aio_risk c.aio_risk intent;
      actionable = is_actionable_intent intent;
    }

-- A candidate with its normalized keyword, before the rows of the others.
unfoldable pub expand_next :
    List ℕ → MergedKeyword → List ℕ → List ExpandedKeyword → List ExpandedKeyword
unfolding expanded_keyword
expand_next niche_norm c [] rest = rest
expand_next niche_norm c (k ∷ ks) rest = expanded_keyword niche_norm c (k ∷ ks) ∷ rest

-- The loop over the merged candidates.
unfoldable pub expanded_from : List ℕ → List MergedKeyword → List ExpandedKeyword
unfolding normalize_keyword expand_next
expanded_from niche_norm [] = []
expanded_from niche_norm (c ∷ cs) =
    expand_next niche_norm c (normalize_keyword c.keyword) (expanded_from niche_norm cs)

-- `M4_INTENT_PRIORITY.get(intent, 99)`
abbrev pub intent_priority : String → ℕ
intent_priority intent =
    if str_eq intent "transactional"
    then 0
    else if str_eq intent "commercial"
    then 1
    else if str_eq intent "informational"
    then 2
    else 99

-- The order of two numbers, and what comes after them where they are equal.
abbrev pub lex : ℕ → ℕ → Bool → Bool
lex x y later = ltb x y || x == y && later

-- The sort key of the first is at most that of the second.
abbrev pub le_key : ExpandedKeyword → ExpandedKeyword → Bool
le_key a b =
    lex a.tier b.tier
      (lex (intent_priority a.intent) (intent_priority b.intent) (le_text a.keyword b.keyword))

unfoldable pub insert_keyword : ExpandedKeyword → List ExpandedKeyword → List ExpandedKeyword
insert_keyword a [] = a ∷ []
insert_keyword a (b ∷ bs) =
    let rest = insert_keyword a bs in if le_key a b then a ∷ b ∷ bs else b ∷ rest

-- `list.sort`
unfoldable pub sort_keywords : List ExpandedKeyword → List ExpandedKeyword
unfolding insert_keyword
sort_keywords [] = []
sort_keywords (a ∷ as') = insert_keyword a (sort_keywords as')

-- The candidates of a source that ended in time.
abbrev pub in_time {ℓ} : {A : Type ℓ} → Bool → List A × Bool → List A × Bool
in_time finished loaded = if finished then loaded else ([], false)

abbrev pub seed_candidate : List ℕ → CandidateKeyword
seed_candidate niche = record {
  keyword = some niche;
  source = some "input";
  intent = none;
  tier = some 1;
  aio_risk = none;
}

abbrev pub dfs_candidate : List ℕ → CandidateKeyword
dfs_candidate keyword = record {
  keyword = some keyword;
  source = some "dataforseo_suggestions";
  intent = none;
  tier = none;
  aio_risk = none;
}

abbrev terms_of : List CandidateKeyword → List (List ℕ)
terms_of cs = map (λ c. given_or [] c.keyword) cs

-- The result from what the two sources gave.
unfoldable pub assembled :
    List ℕ → List CandidateKeyword × Bool → List (List ℕ) × Bool → KeywordExpansion
unfolding dedupe_candidate_keywords expanded_from sort_keywords term_set confidence_from_overlap
assembled niche_norm llm dfs =
    let deduped =
      dedupe_candidate_keywords (seed_candidate niche_norm ∷ llm.0 ++ map dfs_candidate dfs.0) in
    let keywords = take max_keywords (sort_keywords (expanded_from niche_norm deduped)) in
    record {
      niche = niche_norm;
      expanded_keywords = keywords;
      total_keywords = length keywords;
      actionable_keywords = countb (λ k. k.actionable) keywords;
      informational_keywords_excluded = countb (λ k. str_eq k.intent "informational") keywords;
      expansion_confidence =
          confidence_from_overlap (term_set (terms_of llm.0)) (term_set dfs.0) llm.1 dfs.1;
    }

-- `expand_keywords` on the normalized niche.
unfoldable pub expand_normalized :
    List ℕ
    → Option (List ℕ → Result LlmReply)
    → Option (List ℕ → Result DfsReply)
    → Waited
    → Result KeywordExpansion
unfolding load_llm_candidates load_dfs_keywords assembled
expand_normalized [] llm_client dataforseo_client waited = raise value_error
expand_normalized (n ∷ ns) llm_client dataforseo_client waited = ok (
    assembled (n ∷ ns) (in_time waited.llm_done (load_llm_candidates (n ∷ ns) llm_client))
      (in_time waited.dfs_done (load_dfs_keywords (n ∷ ns) dataforseo_client)))

unfoldable pub expand_keywords :
    List ℕ
    → Option (List ℕ → Result LlmReply)
    → Option (List ℕ → Result DfsReply)
    → Waited
    → Result KeywordExpansion
unfolding normalize_keyword expand_normalized
expand_keywords niche llm_client dataforseo_client waited =
    expand_normalized (normalize_keyword niche) llm_client dataforseo_client waited
