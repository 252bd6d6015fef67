-- ===== src/Cache/Invariant.antt =====
-- The invariant of the cache: distinct keys, and no more entries than allowed.
use whidby.Prelude.{
  ℕ, ◌+◌, ◌≤◌, ◌≡◌, refl, sym, ap, subst, Bool-cases, Option-cases, inl, inr, List, [], ◌∷◌, ◌++◌,
  Option, none, some, String, str_eq, eq_iff, arith, ltb, length, length-append, if◌then◌else◌,
}
use whidby.Num.Order.{Num}
use whidby.Cache.{
  ResponseCache, find, remove, assign, move_to_end, remove_all, evict, expired_keys, prune_expired,
  get, put, clear, is_expired, fits_serialized_limit,
}

module _ {F V : Type 0} where
  abbrev pub Distinct : List (String × (F × V)) → Type 0
  Distinct [] = Unit
  Distinct ((k, e) ∷ es) = (find k es ≡ none) × Distinct es

  pub find-remove :
      (j key : String) (es : List (String × (F × V)))
      → find j (remove key es) ≡ (if str_eq key j then none else find j es)
  unfolding find remove
  find-remove j key [] = ground arith
  find-remove j key ((k, e) ∷ es) =
      ground (arith, eq_iff k key, eq_iff key j, eq_iff k j, find-remove j key es)

  pub find-append :
      (j key : String) (e : F × V) (es : List (String × (F × V)))
      → find j es ≡ none
      → find j (es ++ ((key, e) ∷ [])) ≡ (if str_eq key j then some e else none)
  unfolding find
  find-append j key e [] h = refl
  find-append j key e ((k, d) ∷ es) h = ground (arith, find-append j key e es)

  pub find-assign :
      (key : String) (e : F × V) (es : List (String × (F × V)))
      → find key (assign key e es) ≡ some e
  unfolding find assign
  find-assign key e [] = ground (arith, eq_iff key key)
  find-assign key e ((k, d) ∷ es) = ground (arith, eq_iff k key, find-assign key e es)

  pub remove-assign :
      (key : String) (e : F × V) (es : List (String × (F × V)))
      → remove key (assign key e es) ≡ remove key es
  unfolding remove assign
  remove-assign key e [] = ground (arith, eq_iff key key)
  remove-assign key e ((k, d) ∷ es) = ground (arith, remove-assign key e es)

  pub Distinct-remove :
      (key : String) (es : List (String × (F × V))) → Distinct es → Distinct (remove key es)
  unfolding remove
  Distinct-remove key [] d = tt
  Distinct-remove key ((k, e) ∷ es) (f, d) = elim (Bool-cases (str_eq k key)) [
    | inl t ↦ rw t (Distinct-remove key es d)
    | inr t ↦ rw t (ground (arith, find-remove k key es), Distinct-remove key es d)
  ]

  pub Distinct-append :
      (key : String) (e : F × V) (es : List (String × (F × V)))
      → find key es ≡ none
      → Distinct es
      → Distinct (es ++ ((key, e) ∷ []))
  unfolding find
  Distinct-append key e [] h d = (h, tt)
  Distinct-append key e ((k, c) ∷ es) h (f, d) = (
    ground (arith, find-append k key e es, eq_iff key k, eq_iff k key),
    Distinct-append key e es (ground arith) d,
  )

  pub length-remove :
      (key : String) (es : List (String × (F × V))) → length (remove key es) ≤ length es
  unfolding remove
  length-remove key [] = omega arith
  length-remove key ((k, e) ∷ es) = ground (arith, length-remove key es)

  pub length-remove_found :
      (key : String) (e : F × V) (es : List (String × (F × V)))
      → find key es ≡ some e
      → length (remove key es) + 1 ≤ length es
  unfolding remove find
  length-remove_found key e [] h = ground arith
  length-remove_found key e ((k, c) ∷ es) h =
      ground (arith, length-remove key es, length-remove_found key e es)

  Distinct-remove_all :
      (ks : List String) (es : List (String × (F × V))) → Distinct es → Distinct (remove_all ks es)
  unfolding remove_all
  Distinct-remove_all [] es d = d
  Distinct-remove_all (k ∷ ks) es d = Distinct-remove_all ks _ (Distinct-remove k es d)

  length-evict : (m : ℕ) (es : List (String × (F × V))) → length (evict m es) ≤ m
  unfolding evict
  length-evict m [] = omega arith
  length-evict m (e ∷ es) = ground (arith, length-evict m es)

  Distinct-evict : (m : ℕ) (es : List (String × (F × V))) → Distinct es → Distinct (evict m es)
  unfolding evict
  Distinct-evict m [] d = d
  Distinct-evict m (e ∷ es) (f, d) = elim (Bool-cases (ltb m (length (e ∷ es)))) [
    | inl t ↦ rw t (Distinct-evict m es d)
    | inr t ↦ rw t (f, d)
  ]

  pub moved_found :
      (key : String) (e : F × V) (es : List (String × (F × V)))
      → find key es ≡ some e
      → move_to_end key es ≡ remove key es ++ ((key, e) ∷ [])
  unfolding move_to_end
  moved_found key e es h = rw (h, move_to_end) refl

  -- An entry that is assigned and moved to the end is the last one.
  pub moved :
      (key : String) (e : F × V) (es : List (String × (F × V)))
      → move_to_end key (assign key e es) ≡ remove key es ++ ((key, e) ∷ [])
  unfolding move_to_end
  moved key e es = rw (find-assign key e es, remove-assign key e es, move_to_end) refl

-- A call of the cache, by its arguments.
pub data Call (F V : Type 0) : Type 0 where
  getting : String → F → Call F V
  putting : String → F → Option V → Call F V
  clearing : Call F V

module _ {F V : Type 0} ⦃n : Num F⦄ where
  -- Distinct keys, and no more entries than allowed.
  abbrev pub IsCache : ResponseCache F V → Type 0
  IsCache c = Distinct c.store × (length c.store ≤ c.max_entries)

  pub find-removed : (key : String) (es : List (String × (F × V))) → find key (remove key es) ≡ none
  find-removed key es = ground (arith, find-remove key key es, eq_iff key key)

  pub Distinct-prune_expired :
      (ttl now : F) (es : List (String × (F × V)))
      → Distinct es
      → Distinct (prune_expired ttl now es)
  unfolding prune_expired
  Distinct-prune_expired ttl now es d = Distinct-remove_all (expired_keys ttl now es) es d

  length-remove_all :
      (ks : List String) (es : List (String × (F × V))) → length (remove_all ks es) ≤ length es
  unfolding remove_all
  length-remove_all [] es = omega arith
  length-remove_all (k ∷ ks) es =
      omega (arith, length-remove_all ks (remove k es), length-remove k es)

  length-prune_expired :
      (ttl now : F) (es : List (String × (F × V))) → length (prune_expired ttl now es) ≤ length es
  unfolding prune_expired
  length-prune_expired ttl now es = length-remove_all (expired_keys ttl now es) es

  get-IsCache :
      (key : String) (now : F) (c : ResponseCache F V) → IsCache c → IsCache (get key now c).0
  unfolding get move_to_end
  get-IsCache key now c (d, l) = elim (Option-cases (find key c.store)) [
    | inl e ↦ rw (e, get) (d, l)
    | inr ((ts, v), e) ↦ elim (Bool-cases (is_expired c.ttl now ts)) [
      | inl x ↦
          rw (e, get, x) (Distinct-remove key c.store d, omega (arith, length-remove key c.store))
      | inr x ↦
          let m = moved_found key (ts, v) c.store e in
          rw (e, get, x)
            (
              subst Distinct (sym m) (
                  Distinct-append key (ts, v) _ (find-removed key c.store)
                    (Distinct-remove key c.store d)),
              omega (
                arith,
                ap length m,
                length-append (remove key c.store) ((key, (ts, v)) ∷ []),
                length-remove_found key (ts, v) c.store e,
              ),
            )
    ]
  ]

  put-IsCache :
      (key : String) (now : F) (o : Option V) (chunks : V → List ℕ) (c : ResponseCache F V)
      → IsCache c
      → IsCache (put key now o chunks c)
  unfolding put
  put-IsCache key now none chunks c i = i
  put-IsCache key now (some v) chunks c (d, l) =
      let es = prune_expired c.ttl now c.store in
      let dp = Distinct-prune_expired c.ttl now c.store d in
      elim (Bool-cases (fits_serialized_limit (chunks v) c.max_value_bytes)) [
        | inl x ↦ rw x (
          Distinct-evict c.max_entries _ (
              subst Distinct (sym (moved key (now, v) es))
                (Distinct-append key (now, v) _ (find-removed key es) (Distinct-remove key es dp))),
          length-evict c.max_entries _,
        )
        | inr x ↦ rw x (
          Distinct-remove key es dp,
          omega (arith, length-remove key es, length-prune_expired c.ttl now c.store, l),
        )
      ]

  unfoldable pub after_calls :
      (V → List ℕ) → List (Call F V) → ResponseCache F V → ResponseCache F V
  after_calls chunks [] c = c
  after_calls chunks (getting k now ∷ calls) c = after_calls chunks calls (get k now c).0
  after_calls chunks (putting k now v ∷ calls) c = after_calls chunks calls (put k now v chunks c)
  after_calls chunks (clearing ∷ calls) c = after_calls chunks calls (clear c)

  -- From a cache with distinct keys and no more entries than allowed, any sequence of `get`, `put`
  -- and `clear` leads to one: the cache never outgrows `max_entries`.
  pub after_calls-IsCache :
      (chunks : V → List ℕ) (calls : List (Call F V)) (c : ResponseCache F V)
      → IsCache c
      → IsCache (after_calls chunks calls c)
  unfolding after_calls clear
  after_calls-IsCache chunks [] c i = i
  after_calls-IsCache chunks (getting k now ∷ calls) c i =
      after_calls-IsCache chunks calls _ (get-IsCache k now c i)
  after_calls-IsCache chunks (putting k now v ∷ calls) c i =
      after_calls-IsCache chunks calls _ (put-IsCache k now v chunks c i)
  after_calls-IsCache chunks (clearing ∷ calls) c i =
      after_calls-IsCache chunks calls _ (tt, omega arith)
