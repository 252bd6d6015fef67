-- ===== src/Keywords/KeyOrder.antt =====
-- src/pipeline/keyword_expansion.py: the order of the rows of an expansion.
use whidby.Prelude.{
  ℕ, zero, suc, ◌≡◌, Bool, true, false, Bool-cases, inl, inr, List, [], ◌∷◌, le_text_total,
  le_text_trans, arith, All, take,
}
use whidby.Keywords.Expansion.{
  ExpandedKeyword, lex, intent_priority, le_key, insert_keyword, sort_keywords,
}

-- Each row goes before those after it.
abbrev pub InKeyOrder : List ExpandedKeyword → Type 0
InKeyOrder [] = Unit
InKeyOrder (a ∷ as') = All (λ b. le_key a b ≡ true) as' × InKeyOrder as'

lex_total : (x y : ℕ) (p q : Bool) → (p ≡ false → q ≡ true) → lex x y p ≡ false → lex y x q ≡ true
lex_total x y p q k h = ground (arith, h, k)

lex_trans :
    (x y z : ℕ) (p q r : Bool)
    → (p ≡ true → q ≡ true → r ≡ true)
    → lex x y p ≡ true
    → lex y z q ≡ true
    → lex x z r ≡ true
lex_trans x y z p q r k h g = ground (arith, h, g, k)

le_key_total : (a b : ExpandedKeyword) → le_key a b ≡ false → le_key b a ≡ true
le_key_total a b = lex_total a.tier b.tier _ _ (
    lex_total (intent_priority a.intent) (intent_priority b.intent) _ _
      (λ e. ground (arith, e, le_text_total a.keyword b.keyword)))

le_key_trans : (a b c : ExpandedKeyword) → le_key a b ≡ true → le_key b c ≡ true → le_key a c ≡ true
le_key_trans a b c = lex_trans a.tier b.tier c.tier _ _ _ (
    lex_trans (intent_priority a.intent) (intent_priority b.intent) (intent_priority c.intent) _ _ _
      (le_text_trans a.keyword b.keyword c.keyword))

All-le_key :
    (a b : ExpandedKeyword) (cs : List ExpandedKeyword)
    → le_key a b ≡ true
    → All (λ c. le_key b c ≡ true) cs
    → All (λ c. le_key a c ≡ true) cs
All-le_key a b [] p h = tt
All-le_key a b (c ∷ cs) p (q, h) = (le_key_trans a b c p q, All-le_key a b cs p h)

All-insert_keyword :
    (P : ExpandedKeyword → Type 0) (a : ExpandedKeyword) (bs : List ExpandedKeyword)
    → P a
    → All P bs
    → All P (insert_keyword a bs)
unfolding insert_keyword
All-insert_keyword P a [] p h = (p, tt)
All-insert_keyword P a (b ∷ bs) p (q, h) = elim (Bool-cases (le_key a b)) [
  | inl e ↦ rw (e, insert_keyword) (p, (q, h))
  | inr e ↦ rw (e, insert_keyword) (q, All-insert_keyword P a bs p h)
]

InKeyOrder-insert_keyword :
    (a : ExpandedKeyword) (bs : List ExpandedKeyword)
    → InKeyOrder bs
    → InKeyOrder (insert_keyword a bs)
unfolding insert_keyword
InKeyOrder-insert_keyword a [] o = (tt, tt)
InKeyOrder-insert_keyword a (b ∷ bs) (h, o) = elim (Bool-cases (le_key a b)) [
  | inl e ↦ rw (e, insert_keyword) ((e, All-le_key a b bs e h), (h, o))
  | inr e ↦
      rw (e, insert_keyword)
        (
          All-insert_keyword (λ c. le_key b c ≡ true) a bs (le_key_total a b e) h,
          InKeyOrder-insert_keyword a bs o,
        )
]

pub InKeyOrder-sort_keywords : (ks : List ExpandedKeyword) → InKeyOrder (sort_keywords ks)
unfolding sort_keywords
InKeyOrder-sort_keywords [] = tt
InKeyOrder-sort_keywords (k ∷ ks) =
    InKeyOrder-insert_keyword k (sort_keywords ks) (InKeyOrder-sort_keywords ks)

pub All-sort_keywords :
    (P : ExpandedKeyword → Type 0) (ks : List ExpandedKeyword) → All P ks → All P (sort_keywords ks)
unfolding sort_keywords
All-sort_keywords P [] h = tt
All-sort_keywords P (k ∷ ks) (p, h) =
    All-insert_keyword P k (sort_keywords ks) p (All-sort_keywords P ks h)

pub All-take :
    (P : ExpandedKeyword → Type 0) (n : ℕ) (ks : List ExpandedKeyword)
    → All P ks
    → All P (take n ks)
All-take P zero ks h = tt
All-take P (suc n) [] h = tt
All-take P (suc n) (k ∷ ks) (p, h) = (p, All-take P n ks h)

pub InKeyOrder-take : (n : ℕ) (ks : List ExpandedKeyword) → InKeyOrder ks → InKeyOrder (take n ks)
InKeyOrder-take zero ks h = tt
InKeyOrder-take (suc n) [] h = tt
InKeyOrder-take (suc n) (k ∷ ks) (a, h) =
    (All-take (λ b. le_key k b ≡ true) n ks a, InKeyOrder-take n ks h)
