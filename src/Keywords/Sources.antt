-- ===== src/Keywords/Sources.antt =====
-- src/pipeline/keyword_expansion.py: the two sources of keywords, a language model and a keyword
-- service. A client is a function that returns or raises, or there is none. Of a payload, a value that
-- is no text, no tier or no dict is `none` where the code skips it, and a list that is missing is
-- empty. Times and logging are left out.
use whidby.Prelude.{
  ℕ, Bool, true, false, ◌||◌, List, [], ◌∷◌, ◌++◌, Option, none, some, String, ◌==◌, has,
  if◌then◌else◌, Result, ok, raise,
}
use whidby.Signals.{strip}
use whidby.Keywords.{CandidateKeyword, allowed_intents, allowed_aio_risk}

-- A row of the language model.
pub record LlmRow : Type 0 where
  pub keyword : Option (List ℕ)
  pub intent : Option String
  pub tier : Option ℕ
  pub aio_risk : Option String

pub record LlmReply : Type 0 where
  pub success : Bool
  pub data_rows : Option (List (Option LlmRow))

-- The blocks of a payload with their items, each the text of its keyword.
pub record DfsReply : Type 0 where
  pub is_ok : Bool
  pub blocks : List (Option (List (Option (List ℕ))))

abbrev pub allowed_tier : ℕ → Bool
allowed_tier t = t == 1 || t == 2 || t == 3

-- A text of more than white space.
abbrev pub is_blank : List ℕ → Bool
is_blank t = elim (strip t) [ [] ↦ true | c ∷ cs ↦ false ]

unfoldable pub item_keywords : List (Option (List ℕ)) → List (List ℕ)
unfolding strip
item_keywords [] = []
item_keywords (none ∷ items) = item_keywords items
item_keywords (some t ∷ items) =
    let rest = item_keywords items in if is_blank t then rest else t ∷ rest

unfoldable pub block_keywords : List (Option (List (Option (List ℕ)))) → List (List ℕ)
unfolding item_keywords
block_keywords [] = []
block_keywords (none ∷ blocks) = block_keywords blocks
block_keywords (some items ∷ blocks) = item_keywords items ++ block_keywords blocks

unfoldable pub extract_dfs_keywords : DfsReply → List (List ℕ)
unfolding block_keywords
extract_dfs_keywords r = if r.is_ok then block_keywords r.blocks else []

abbrev pub keep_if {ℓ} : {A : Type ℓ} → (A → Bool) → Option A → Option A
keep_if allowed none = none
keep_if allowed (some a) = if allowed a then some a else none

abbrev pub candidate_of : List ℕ → LlmRow → CandidateKeyword
candidate_of keyword row = record {
  keyword = some keyword;
  source = some "llm";
  intent = keep_if (λ i. has i allowed_intents) row.intent;
  tier = keep_if allowed_tier row.tier;
  aio_risk = keep_if (λ r. has r allowed_aio_risk) row.aio_risk;
}

unfoldable pub llm_candidates : List (Option LlmRow) → List CandidateKeyword
unfolding strip
llm_candidates [] = []
llm_candidates (none ∷ rows) = llm_candidates rows
llm_candidates (some row ∷ rows) =
    let rest = llm_candidates rows in
    elim (row.keyword) [
      | none ↦ rest
      | some t ↦ if is_blank t then rest else candidate_of t row ∷ rest
    ]

-- The candidates and whether the source succeeded.
unfoldable pub llm_loaded : Result LlmReply → List CandidateKeyword × Bool
unfolding llm_candidates
llm_loaded (raise e) = ([], false)
llm_loaded (ok r) = elim (r.data_rows) [
  | none ↦ ([], false)
  | some rows ↦ if r.success then (llm_candidates rows, true) else ([], false)
]

unfoldable pub load_llm_candidates :
    List ℕ → Option (List ℕ → Result LlmReply) → List CandidateKeyword × Bool
unfolding llm_loaded
load_llm_candidates niche none = ([], false)
load_llm_candidates niche (some keyword_expansion) = llm_loaded (keyword_expansion niche)

unfoldable pub dfs_loaded : Result DfsReply → List (List ℕ) × Bool
unfolding extract_dfs_keywords
dfs_loaded (raise e) = ([], false)
dfs_loaded (ok r) = (extract_dfs_keywords r, r.is_ok)

unfoldable pub load_dfs_keywords : List ℕ → Option (List ℕ → Result DfsReply) → List (List ℕ) × Bool
unfolding dfs_loaded
load_dfs_keywords niche none = ([], false)
load_dfs_keywords niche (some keyword_suggestions) = dfs_loaded (keyword_suggestions niche)
