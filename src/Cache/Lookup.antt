-- ===== src/Cache/Lookup.antt =====
-- What a `get` returns: what was put last, and never an entry older than the TTL.
use whidby.Prelude.{
  ℕ, ◌+◌, ◌≤◌, ◌≡◌, refl, sym, ap, ◌∙◌, true, false, Bool-cases, Option-cases, inl, inr, List, [],
  ◌∷◌, ◌++◌, none, some, String, eq_iff, arith, length, ltb, ◌↔◌,
}
use whidby.Num.Order.{Num}
use whidby.Cache.{
  ResponseCache, find, remove, evict, prune_expired, get, put, is_expired, fits_from,
  fits_serialized_limit,
}
use whidby.Cache.Invariant.{find-append, find-removed, moved, moved_found}

some-injective {ℓ} : {A : Type ℓ} {a b : A} → some a ≡ some b → a ≡ b
some-injective e = cc

abbrev pub total : List ℕ → ℕ
total [] = 0
total (c ∷ chunks) = c + total chunks

fits_from_iff :
    (size limit : ℕ) (chunks : List ℕ)
    → size ≤ limit
    → (fits_from size chunks limit ≡ true) ↔ (size + total chunks ≤ limit)
unfolding fits_from
fits_from_iff size limit [] h = (λ e. omega arith, λ e. refl)
fits_from_iff size limit (c ∷ chunks) h = elim (Bool-cases (ltb limit (size + c))) [
  | inl e ↦ ground (arith)
  | inr e ↦ ground (arith, fits_from_iff (size + c) limit chunks (ground arith))
]

-- The size test, which stops early, passes exactly when the whole serialized size is at most the
-- limit.
pub fits_serialized_limit_iff :
    (limit : ℕ) (chunks : List ℕ)
    → (fits_serialized_limit chunks limit ≡ true) ↔ (total chunks ≤ limit)
unfolding fits_serialized_limit
fits_serialized_limit_iff limit chunks = ground (arith, fits_from_iff 0 limit chunks (omega arith))

module _ {F V : Type 0} where
  find-evict :
      (m : ℕ) (key : String) (e : F × V) (es : List (String × (F × V)))
      → 1 ≤ m
      → find key es ≡ none
      → find key (evict m (es ++ ((key, e) ∷ []))) ≡ some e
  unfolding find evict
  find-evict m key e [] p h = ground (arith, eq_iff key key)
  find-evict m key e ((k, d) ∷ es) p h =
      elim (Bool-cases (ltb m (length ((k, d) ∷ es ++ ((key, e) ∷ []))))) [
        | inl t ↦ rw t (find-evict m key e es p (ground arith))
        | inr t ↦ rw t (ground (arith, find-append key key e es, eq_iff key key))
      ]

module _ {F V : Type 0} ⦃n : Num F⦄ where
  find-put :
      (key : String) (now : F) (v : V) (chunks : V → List ℕ) (c : ResponseCache F V)
      → 1 ≤ c.max_entries
      → total (chunks v) ≤ c.max_value_bytes
      → find key (put key now (some v) chunks c).store ≡ some (now, v)
  unfolding put
  find-put key now v chunks c p q =
      let es = prune_expired c.ttl now c.store in
      let m = moved key (now, v) es in
      rw ((fits_serialized_limit_iff c.max_value_bytes (chunks v)).1 q, m)
        (find-evict c.max_entries key (now, v) (remove key es) p (find-removed key es))

  put-ttl :
      (key : String) (now : F) (v : V) (chunks : V → List ℕ) (c : ResponseCache F V)
      → (put key now (some v) chunks c).ttl ≡ c.ttl
  unfolding put
  put-ttl key now v chunks c =
      elim (Bool-cases (fits_serialized_limit (chunks v) c.max_value_bytes)) [
        | inl e ↦ rw e refl
        | inr e ↦ rw e refl
      ]

  get_missing :
      (key : String) (now : F) (c : ResponseCache F V)
      → find key c.store ≡ none
      → get key now c ≡ (c, none)
  unfolding get
  get_missing key now c h = rw (h, get) refl

  get_expired :
      (key : String) (now ts : F) (v : V) (c : ResponseCache F V)
      → find key c.store ≡ some (ts, v)
      → is_expired c.ttl now ts ≡ true
      → get key now c ≡ (record c { store = remove key c.store }, none)
  unfolding get
  get_expired key now ts v c h x = rw (h, get, x) refl

  get_found :
      (key : String) (now ts : F) (v : V) (c : ResponseCache F V)
      → find key c.store ≡ some (ts, v)
      → is_expired c.ttl now ts ≡ false
      → get key now c ≡ (record c { store = remove key c.store ++ ((key, (ts, v)) ∷ []) }, some v)
  unfolding get
  get_found key now ts v c h x = rw (h, get, x, moved_found key (ts, v) c.store h) refl

  -- A value that fits is found by the next `get` of its key, at any time at which it has not expired.
  pub get-put :
      (key : String) (now later : F) (v : V) (chunks : V → List ℕ) (c : ResponseCache F V)
      → 1 ≤ c.max_entries
      → total (chunks v) ≤ c.max_value_bytes
      → is_expired c.ttl later now ≡ false
      → (get key later (put key now (some v) chunks c)).1 ≡ some v
  get-put key now later v chunks c p q r =
      ap (λ x. x.1)
        (get_found key later now v (put key now (some v) chunks c) (find-put key now v chunks c p q)
          (ap (λ x. is_expired x later now) (put-ttl key now v chunks c) ∙ r))

  -- What `get` returns is stored under the key, and is not older than the TTL; afterwards it is the
  -- most recently used entry.
  pub get-some :
      (key : String) (now : F) (c : ResponseCache F V) {v : V}
      → (get key now c).1 ≡ some v
      → (ts : F) × (find key c.store ≡ some (ts, v))
        × (is_expired c.ttl now ts ≡ false)
        × ((get key now c).0.store ≡ remove key c.store ++ ((key, (ts, v)) ∷ []))
  get-some key now c {v} e = elim (Option-cases (find key c.store)) [
    | inl h ↦ let m = ap (λ x. x.1) (get_missing key now c h) in cc
    | inr ((ts, w), h) ↦ elim (Bool-cases (is_expired c.ttl now ts)) [
      | inl x ↦ let m = ap (λ y. y.1) (get_expired key now ts w c h x) in cc
      | inr x ↦
          let g = get_found key now ts w c h x in
          let s : w ≡ v = some-injective (sym (ap (λ y. y.1) g) ∙ e) in
          (
            ts,
            h ∙ ap (λ y. some (ts, y)) s,
            x,
            ap (λ y. y.0.store) g ∙ ap (λ y. remove key c.store ++ ((key, (ts, y)) ∷ [])) s,
          )
    ]
  ]
