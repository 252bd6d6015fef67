-- ===== src/Keywords.antt =====
-- src/pipeline/keyword_deduplication.py: the keywords of a niche, normalized and merged by their text.
-- A text is a list of code points; case and white space are those of ASCII.
pub mod Intent
mod Distinct
pub mod Sources
pub mod Expansion
mod KeyOrder
mod Expanded
mod Tests
use whidby.Prelude.{
  ℕ, Bool, false, ◌&&◌, ◌||◌, List, [], ◌∷◌, Option, none, some, String, str_eq, leb, starts_with,
  occurs, has, if◌then◌else◌, Result, ok, raise,
}
use whidby.Signals.{codes, text_eq, is_space, strip, lower}

-- `re.sub(r"\s+", " ", text)`
unfoldable pub collapse_spaces : List ℕ → List ℕ
unfolding is_space
collapse_spaces [] = []
collapse_spaces (c ∷ []) = (if is_space c then b' ' else c) ∷ []
collapse_spaces (c ∷ d ∷ cs) =
    let rest = collapse_spaces (d ∷ cs) in
    if is_space c then (if is_space d then rest else b' ' ∷ rest) else c ∷ rest

-- `string.punctuation`
unfoldable pub is_punctuation : ℕ → Bool
is_punctuation c =
    (leb 33 c && leb c 47)
    || (leb 58 c && leb c 64)
    || (leb 91 c && leb c 96)
    || (leb 123 c && leb c 126)

-- The loop that drops the last character.
unfoldable pub drop_punctuation : List ℕ → List ℕ
unfolding is_punctuation
drop_punctuation [] = []
drop_punctuation (c ∷ cs) = elim (drop_punctuation cs) [
  | [] ↦ if is_punctuation c then [] else c ∷ []
  | d ∷ ds ↦ c ∷ d ∷ ds
]

unfoldable pub normalize_keyword : List ℕ → List ℕ
unfolding strip lower collapse_spaces drop_punctuation
normalize_keyword keyword = strip (drop_punctuation (collapse_spaces (lower (strip keyword))))

-- A candidate; every key of the dict may be missing.
pub record CandidateKeyword : Type 0 where
  pub keyword : Option (List ℕ)
  pub source : Option String
  pub intent : Option String
  pub tier : Option ℕ
  pub aio_risk : Option String

-- A record of the result of the deduplication, under its keyword.
pub record MergedKeyword : Type 0 where
  pub keyword : List ℕ
  pub source : String
  pub intent : Option String
  pub tier : Option ℕ
  pub aio_risk : Option String

abbrev pub allowed_sources : List String
allowed_sources = "input" ∷ "llm" ∷ "dataforseo_suggestions" ∷ "merged" ∷ []

abbrev pub allowed_intents : List String
allowed_intents = "transactional" ∷ "commercial" ∷ "informational" ∷ []

abbrev pub allowed_aio_risk : List String
allowed_aio_risk = "low" ∷ "moderate" ∷ "high" ∷ []

-- `source_rank.get(source, len(source_rank))`
abbrev pub source_rank : String → ℕ
source_rank source =
    if str_eq source "input"
    then 0
    else if str_eq source "llm"
    then 1
    else if str_eq source "dataforseo_suggestions"
    then 2
    else if str_eq source "merged"
    then 3
    else 4

abbrev pub keyword_text : Option (List ℕ) → List ℕ
keyword_text none = []
keyword_text (some t) = t

-- The source that is kept, `merged` for one that is missing or unknown.
abbrev pub known_source : Option String → String
known_source none = "merged"
known_source (some s) = if has s allowed_sources then s else "merged"

-- The record `current` of a candidate.
unfoldable pub current_of : List ℕ → CandidateKeyword → MergedKeyword
current_of normalized c = record {
  keyword = normalized;
  source = known_source c.source;
  intent = c.intent;
  tier = c.tier;
  aio_risk = c.aio_risk;
}

-- A key of the metadata in both records, or in one.
abbrev pub preferred_value {ℓ} : {A : Type ℓ} → Bool → Option A → Option A → Option A
preferred_value prefer_existing none new = new
preferred_value prefer_existing (some a) none = some a
preferred_value prefer_existing (some a) (some b) = if prefer_existing then some a else some b

-- What becomes of the existing record: its source first, and then its rank.
unfoldable pub merge : MergedKeyword → MergedKeyword → MergedKeyword
merge existing current =
    let source = if str_eq existing.source current.source then existing.source else "merged" in
    let prefer = leb (source_rank source) (source_rank current.source) in
    record {
      keyword = existing.keyword;
      source = source;
      intent = preferred_value prefer existing.intent current.intent;
      tier = preferred_value prefer existing.tier current.tier;
      aio_risk = preferred_value prefer existing.aio_risk current.aio_risk;
    }

-- The dict with one more record.
unfoldable pub merge_in : MergedKeyword → List MergedKeyword → List MergedKeyword
unfolding merge
merge_in current [] = current ∷ []
merge_in current (e ∷ es) =
    let rest = merge_in current es in
    if text_eq e.keyword current.keyword then merge e current ∷ es else e ∷ rest

-- A candidate with its normalized keyword.
unfoldable pub add_candidate : CandidateKeyword → List ℕ → List MergedKeyword → List MergedKeyword
unfolding current_of merge_in
add_candidate c [] deduped = deduped
add_candidate c (n ∷ ns) deduped = merge_in (current_of (n ∷ ns) c) deduped

unfoldable pub dedupe_from : List CandidateKeyword → List MergedKeyword → List MergedKeyword
unfolding normalize_keyword add_candidate
dedupe_from [] deduped = deduped
dedupe_from (c ∷ cs) deduped =
    dedupe_from cs (add_candidate c (normalize_keyword (keyword_text c.keyword)) deduped)

unfoldable pub dedupe_candidate_keywords : List CandidateKeyword → List MergedKeyword
unfolding dedupe_from
dedupe_candidate_keywords candidates = dedupe_from candidates []
