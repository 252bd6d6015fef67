-- ===== src/Keywords/Distinct.antt =====
-- src/pipeline/keyword_deduplication.py: the records have the normalized keywords, each once.
use whidby.Prelude.{
  ℕ, ◌≡◌, refl, ap, ◌∙◌, Bool, true, false, ◌&&◌, ◌||◌, Bool-cases, inl, inr, List, [], ◌∷◌, arith,
  ==_iff,
}
use whidby.Signals.{text_eq}
use whidby.Keywords.{
  CandidateKeyword, MergedKeyword, normalize_keyword, keyword_text, current_of, merge, merge_in,
  add_candidate, dedupe_from, dedupe_candidate_keywords,
}

text_eq→eq : (s t : List ℕ) → text_eq s t ≡ true → s ≡ t
text_eq→eq [] [] h = refl
text_eq→eq [] (d ∷ ds) h = cc
text_eq→eq (c ∷ cs) [] h = cc
text_eq→eq (c ∷ cs) (d ∷ ds) h =
    ap (λ x. x ∷ cs) ((==_iff c d).0 (ground (arith, h)))
    ∙ ap (λ xs. d ∷ xs) (text_eq→eq cs ds (ground (arith, h)))

text_eq_sym : (s t : List ℕ) → text_eq s t ≡ text_eq t s
text_eq_sym [] [] = refl
text_eq_sym [] (d ∷ ds) = refl
text_eq_sym (c ∷ cs) [] = refl
text_eq_sym (c ∷ cs) (d ∷ ds) = ground (arith, text_eq_sym cs ds)

-- A record with this keyword.
abbrev pub has_keyword : List ℕ → List MergedKeyword → Bool
has_keyword k [] = false
has_keyword k (e ∷ es) = text_eq e.keyword k || has_keyword k es

-- No two records have the same keyword.
abbrev pub Distinct : List MergedKeyword → Type 0
Distinct [] = Unit
Distinct (e ∷ es) = (has_keyword e.keyword es ≡ false) × Distinct es

-- A candidate whose normalized keyword is this one.
abbrev pub offers : List ℕ → List CandidateKeyword → Bool
offers k [] = false
offers k (c ∷ cs) = text_eq (normalize_keyword (keyword_text c.keyword)) k || offers k cs

abbrev pub is_text : List ℕ → Bool
is_text [] = false
is_text (c ∷ cs) = true

merge-keyword : (e c : MergedKeyword) → (merge e c).keyword ≡ e.keyword
unfolding merge
merge-keyword e c = refl

has_keyword-merge_in :
    (k : List ℕ) (c : MergedKeyword) (es : List MergedKeyword)
    → has_keyword k (merge_in c es) ≡ (has_keyword k es || text_eq c.keyword k)
unfolding merge_in
has_keyword-merge_in k c [] = ground arith
has_keyword-merge_in k c (e ∷ es) = elim (Bool-cases (text_eq e.keyword c.keyword)) [
  | inl same ↦
      let as_first : text_eq e.keyword k ≡ text_eq c.keyword k =
        ap (λ t. text_eq t k) (text_eq→eq e.keyword c.keyword same) in
      rw (same, merge_in) (ground (arith, as_first))
  | inr other ↦ rw (other, merge_in) (ground (arith, has_keyword-merge_in k c es))
]

Distinct-merge_in :
    (c : MergedKeyword) (es : List MergedKeyword) → Distinct es → Distinct (merge_in c es)
unfolding merge_in
Distinct-merge_in c [] d = (refl, tt)
Distinct-merge_in c (e ∷ es) (n, d) = elim (Bool-cases (text_eq e.keyword c.keyword)) [
  | inl same ↦ rw (same, merge_in, merge) (n, d)
  | inr other ↦
      rw (other, merge_in)
        (
          ground (
            arith,
            has_keyword-merge_in e.keyword c es,
            n,
            other,
            text_eq_sym c.keyword e.keyword,
          ),
          Distinct-merge_in c es d,
        )
]

-- Adding a candidate keeps the records distinct and adds its keyword, if it is not empty.
add_candidate-Distinct :
    (c : CandidateKeyword) (n : List ℕ) (es : List MergedKeyword)
    → Distinct es
    → Distinct (add_candidate c n es)
      × ((k : List ℕ)
          → has_keyword k (add_candidate c n es) ≡ (has_keyword k es || is_text k && text_eq n k))
unfolding add_candidate current_of
add_candidate-Distinct c [] es d = (d, λ k. nothing k es)
  where
    nothing :
        (k : List ℕ) (es : List MergedKeyword)
        → has_keyword k es ≡ (has_keyword k es || is_text k && text_eq [] k)
    nothing [] es = ground arith
    nothing (x ∷ k) es = ground arith
add_candidate-Distinct c (n ∷ ns) es d = (
  Distinct-merge_in (current_of (n ∷ ns) c) es d,
  λ k.
      has_keyword-merge_in k (current_of (n ∷ ns) c) es ∙ ap (λ b. has_keyword k es || b) (whole k),
)
  where
    whole : (k : List ℕ) → text_eq (n ∷ ns) k ≡ (is_text k && text_eq (n ∷ ns) k)
    whole [] = refl
    whole (x ∷ k) = refl

dedupe_from-Distinct :
    (cs : List CandidateKeyword) (es : List MergedKeyword)
    → Distinct es
    → Distinct (dedupe_from cs es)
      × ((k : List ℕ)
          → has_keyword k (dedupe_from cs es) ≡ (has_keyword k es || is_text k && offers k cs))
unfolding dedupe_from
dedupe_from-Distinct [] es d = (d, λ k. ground arith)
dedupe_from-Distinct (c ∷ cs) es d =
    let n = normalize_keyword (keyword_text c.keyword) in
    let (d', h) = add_candidate-Distinct c n es d in
    let (d'', h') = dedupe_from-Distinct cs (add_candidate c n es) d' in
    (d'', λ k. ground (arith, h k, h' k))

-- The deduplication returns records with distinct keywords; a text is the keyword of one of them
-- exactly when it is not empty and is the normalized keyword of a candidate.
pub dedupe_candidate_keywords-Distinct :
    (candidates : List CandidateKeyword)
    → Distinct (dedupe_candidate_keywords candidates)
      × ((k : List ℕ)
          → has_keyword k (dedupe_candidate_keywords candidates)
            ≡ (is_text k && offers k candidates))
unfolding dedupe_candidate_keywords
dedupe_candidate_keywords-Distinct candidates = dedupe_from-Distinct candidates [] tt
