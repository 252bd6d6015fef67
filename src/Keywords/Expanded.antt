-- ===== src/Keywords/Expanded.antt =====
-- src/pipeline/keyword_expansion.py: what the expansion of a niche returns, whatever the sources do.
use whidby.Prelude.{
  ℕ, ◌+◌, ◌≤◌, ◌≡◌, refl, subst, Bool, true, not, Bool-cases, inl, inr, List, [], ◌∷◌, Option, none,
  some, String, str_eq, eq_iff, arith, has, All, length, take, length-take, countb, ok, raise,
  value_error, Result, ◌⊎◌, ◌++◌, map, if◌then◌else◌,
}
use whidby.Keywords.{
  CandidateKeyword, dedupe_candidate_keywords, MergedKeyword, allowed_sources, allowed_intents,
  allowed_aio_risk, normalize_keyword,
}
use whidby.Keywords.Intent.{aio_risk_for_intent, is_actionable_intent}
use whidby.Keywords.Sources.{
  LlmReply, DfsReply, allowed_tier, keep_if, load_llm_candidates, load_dfs_keywords,
}
use whidby.Keywords.Expansion.{
  in_time, seed_candidate, dfs_candidate, ExpandedKeyword, KeywordExpansion, Waited, infer_tier,
  given_or, proposed_intent, chosen_intent, chosen_aio_risk, expanded_keyword, expand_next,
  expanded_from, sort_keywords, max_keywords, expand_normalized, expand_keywords, assembled,
}
use whidby.Keywords.KeyOrder.{
  InKeyOrder, All-sort_keywords, InKeyOrder-sort_keywords, All-take, InKeyOrder-take,
}

-- The fields of a row are among the allowed ones, and its keyword is a text.
pub record IsKeyword (k : ExpandedKeyword) : Type 0 where
  tier_allowed : allowed_tier k.tier ≡ true
  intent_allowed : has k.intent allowed_intents ≡ true
  source_allowed : has k.source allowed_sources ≡ true
  aio_risk_allowed : has k.aio_risk allowed_aio_risk ≡ true
  acts : k.actionable ≡ not (str_eq k.intent "informational")

-- A value that is tested, or a default that would pass the test.
given_or-keep_if {ℓ} :
    {A : Type ℓ} (allowed : A → Bool) (d : A) (o : Option A)
    → allowed d ≡ true
    → allowed (given_or d (keep_if allowed o)) ≡ true
given_or-keep_if allowed d none h = h
given_or-keep_if allowed d (some a) h = elim (Bool-cases (allowed a)) [
  | inl e ↦ rw e e
  | inr e ↦ rw e h
]

allowed-else :
    (allowed : String → Bool) (s d : String)
    → allowed d ≡ true
    → allowed (if allowed s then s else d) ≡ true
allowed-else allowed s d h = elim (Bool-cases (allowed s)) [ inl e ↦ rw e e | inr e ↦ rw e h ]

infer_tier-allowed : (k niche : List ℕ) → allowed_tier (infer_tier k niche) ≡ true
unfolding infer_tier
infer_tier-allowed k niche = ground arith

aio_risk_for_intent-allowed : (i : String) → has (aio_risk_for_intent i) allowed_aio_risk ≡ true
unfolding aio_risk_for_intent
aio_risk_for_intent-allowed i = elim (Bool-cases (str_eq i "transactional")) [
  | inl e ↦ rw e refl
  | inr e ↦ elim (Bool-cases (str_eq i "informational")) [
    | inl f ↦ rw (e, f) refl
    | inr f ↦ rw (e, f) refl
  ]
]

is_actionable_intent-not :
    (i : String)
    → has i allowed_intents ≡ true
    → is_actionable_intent i ≡ not (str_eq i "informational")
unfolding is_actionable_intent
is_actionable_intent-not i h = elim (Bool-cases (str_eq "informational" i)) [
  | inl e ↦
      subst (λ j. is_actionable_intent j ≡ not (str_eq j "informational"))
        ((eq_iff "informational" i).0 e) refl
  | inr e ↦ ground (arith, h, e, eq_iff "informational" i, eq_iff i "informational")
]

expanded_keyword-IsKeyword :
    (niche : List ℕ) (c : MergedKeyword) (k : List ℕ) → IsKeyword (expanded_keyword niche c k)
unfolding expanded_keyword chosen_intent chosen_aio_risk
expanded_keyword-IsKeyword niche c k =
    let allowed : has (chosen_intent c.intent k) allowed_intents ≡ true =
      allowed-else (λ i. has i allowed_intents) (proposed_intent c.intent k) "commercial" refl in
    record {
      tier_allowed =
          given_or-keep_if allowed_tier (infer_tier k niche) c.tier (infer_tier-allowed k niche);
      intent_allowed = allowed;
      source_allowed = allowed-else (λ s. has s allowed_sources) c.source "merged" refl;
      aio_risk_allowed =
          given_or-keep_if (λ r. has r allowed_aio_risk)
            (aio_risk_for_intent (chosen_intent c.intent k)) c.aio_risk
            (aio_risk_for_intent-allowed (chosen_intent c.intent k));
      acts = is_actionable_intent-not (chosen_intent c.intent k) allowed;
    }

expand_next-IsKeyword :
    (niche : List ℕ) (c : MergedKeyword) (k : List ℕ) (rest : List ExpandedKeyword)
    → All IsKeyword rest
    → All IsKeyword (expand_next niche c k rest)
unfolding expand_next
expand_next-IsKeyword niche c [] rest h = h
expand_next-IsKeyword niche c (k ∷ ks) rest h = (expanded_keyword-IsKeyword niche c (k ∷ ks), h)

expanded_from-IsKeyword :
    (niche : List ℕ) (cs : List MergedKeyword) → All IsKeyword (expanded_from niche cs)
unfolding expanded_from
expanded_from-IsKeyword niche [] = tt
expanded_from-IsKeyword niche (c ∷ cs) =
    expand_next-IsKeyword niche c (normalize_keyword c.keyword) (expanded_from niche cs)
      (expanded_from-IsKeyword niche cs)

-- The two counts share out the keywords.
counts-length :
    (ks : List ExpandedKeyword)
    → All IsKeyword ks
    → countb (λ k. k.actionable) ks + countb (λ k. str_eq k.intent "informational") ks ≡ length ks
counts-length [] h = refl
counts-length (k ∷ ks) (i, h) = ground (arith, counts-length ks h, i.acts)

-- A result with at most 50 keywords in the order of tier, intent and text, each with allowed fields,
-- and with counts that add up.
pub record IsExpansion (x : KeywordExpansion) : Type 0 where
  keywords_allowed : All IsKeyword x.expanded_keywords
  in_order : InKeyOrder x.expanded_keywords
  counted : x.total_keywords ≡ length x.expanded_keywords
  bounded : x.total_keywords ≤ max_keywords
  shared_out : x.actionable_keywords + x.informational_keywords_excluded ≡ x.total_keywords

assembled-IsExpansion :
    (niche : List ℕ) (llm : List CandidateKeyword × Bool) (dfs : List (List ℕ) × Bool)
    → IsExpansion (assembled niche llm dfs)
unfolding assembled
assembled-IsExpansion niche llm dfs =
    let deduped =
      dedupe_candidate_keywords (seed_candidate niche ∷ llm.0 ++ map dfs_candidate dfs.0) in
    let rows = expanded_from niche deduped in
    let allowed =
      All-take IsKeyword max_keywords (sort_keywords rows)
        (All-sort_keywords IsKeyword rows (expanded_from-IsKeyword niche deduped)) in
    record {
      keywords_allowed = allowed;
      in_order = InKeyOrder-take max_keywords (sort_keywords rows) (InKeyOrder-sort_keywords rows);
      counted = refl;
      bounded = omega (arith, length-take max_keywords (sort_keywords rows));
      shared_out = counts-length (take max_keywords (sort_keywords rows)) allowed;
    }

-- A niche whose normalized text is empty is refused; for any other, whatever the clients return or
-- raise and whichever of them ends in time, there is an expansion with at most 50 keywords in the
-- order of tier, intent and text, with allowed tiers, intents, sources and risks, whose actionable
-- and informational keywords add up to the total.
pub expand_keywords_total :
    (niche : List ℕ) (llm : Option (List ℕ → Result LlmReply))
    (dfs : Option (List ℕ → Result DfsReply)) (waited : Waited)
    → ((normalize_keyword niche ≡ []) × (expand_keywords niche llm dfs waited ≡ raise value_error))
      ⊎ ((x : KeywordExpansion) × (expand_keywords niche llm dfs waited ≡ ok x)
          × (x.niche ≡ normalize_keyword niche)
          × IsExpansion x)
unfolding expand_keywords expand_normalized assembled
expand_keywords_total niche llm dfs waited = each (normalize_keyword niche)
  where
    each :
        (n : List ℕ)
        → ((n ≡ []) × (expand_normalized n llm dfs waited ≡ raise value_error))
          ⊎ ((x : KeywordExpansion) × (expand_normalized n llm dfs waited ≡ ok x)
              × (x.niche ≡ n)
              × IsExpansion x)
    each [] = inl (refl, refl)
    each (c ∷ cs) =
        let from_llm = in_time waited.llm_done (load_llm_candidates (c ∷ cs) llm) in
        let from_dfs = in_time waited.dfs_done (load_dfs_keywords (c ∷ cs) dfs) in
        inr (
          assembled (c ∷ cs) from_llm from_dfs,
          refl,
          refl,
          assembled-IsExpansion (c ∷ cs) from_llm from_dfs,
        )
