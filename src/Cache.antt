-- ===== src/Cache.antt =====
-- src/clients/dataforseo/cache.py: the response cache, in memory, least recently used first. A key is
-- the hash of the endpoint and the parameters, times are read from the monotonic clock, and the sizes
-- of the chunks of a serialized value come from the JSON encoder: they are arguments. The keys of the
-- OrderedDict are distinct, so `remove` deletes at most one entry.
mod Invariant
mod Lookup
mod Tests
use whidby.Prelude.{
  ℕ, ◌+◌, Bool, true, false, List, [], ◌∷◌, ◌++◌, Option, none, some, String, str_eq, ltb, length,
  if◌then◌else◌,
}
use whidby.Num.Order.{Num, lt_num, ◌⊖◌}

-- `_fits_serialized_limit`, from the size so far: it stops at the first chunk beyond the limit.
unfoldable pub fits_from : ℕ → List ℕ → ℕ → Bool
fits_from size [] limit = true
fits_from size (c ∷ chunks) limit =
    if ltb limit (size + c) then false else fits_from (size + c) chunks limit

unfoldable pub fits_serialized_limit : List ℕ → ℕ → Bool
unfolding fits_from
fits_serialized_limit chunks limit = fits_from 0 chunks limit

pub record ResponseCache (F V : Type 0) : Type 0 where
  pub ttl : F
  pub max_entries : ℕ
  pub max_value_bytes : ℕ
  pub store : List (String × (F × V))

module _ {F V : Type 0} where
  -- `store.get(key)`
  unfoldable pub find : String → List (String × (F × V)) → Option (F × V)
  find key [] = none
  find key ((k, e) ∷ es) = if str_eq k key then some e else find key es

  -- `del store[key]` and `store.pop(key, None)`
  unfoldable pub remove : String → List (String × (F × V)) → List (String × (F × V))
  remove key [] = []
  remove key ((k, e) ∷ es) = if str_eq k key then remove key es else (k, e) ∷ remove key es

  -- `store[key] = e`
  unfoldable pub assign : String → F × V → List (String × (F × V)) → List (String × (F × V))
  assign key e [] = (key, e) ∷ []
  assign key e ((k, d) ∷ es) = if str_eq k key then (k, e) ∷ es else (k, d) ∷ assign key e es

  -- `store.move_to_end(key)`, of a key that is there
  unfoldable pub move_to_end : String → List (String × (F × V)) → List (String × (F × V))
  unfolding find remove
  move_to_end key es = elim (find key es) [ none ↦ es | some e ↦ remove key es ++ ((key, e) ∷ []) ]

  unfoldable pub remove_all : List String → List (String × (F × V)) → List (String × (F × V))
  unfolding remove
  remove_all [] es = es
  remove_all (k ∷ ks) es = remove_all ks (remove k es)

  -- `while len(store) > max_entries: store.popitem(last=False)`
  unfoldable pub evict : ℕ → List (String × (F × V)) → List (String × (F × V))
  evict max_entries [] = []
  evict max_entries (e ∷ es) =
      let rest = evict max_entries es in if ltb max_entries (length (e ∷ es)) then rest else e ∷ es

-- `now - ts > ttl`
abbrev pub is_expired : {F : Type 0} ⦃n : Num F⦄ → F → F → F → Bool
is_expired ttl now ts = lt_num ttl (now ⊖ ts)

module _ {F V : Type 0} ⦃n : Num F⦄ where
  unfoldable pub expired_keys : F → F → List (String × (F × V)) → List String
  expired_keys ttl now [] = []
  expired_keys ttl now ((k, (ts, v)) ∷ es) =
      let rest = expired_keys ttl now es in if is_expired ttl now ts then k ∷ rest else rest

  unfoldable pub prune_expired : F → F → List (String × (F × V)) → List (String × (F × V))
  unfolding expired_keys remove_all
  prune_expired ttl now es = remove_all (expired_keys ttl now es) es

  unfoldable pub get : String → F → ResponseCache F V → ResponseCache F V × Option V
  unfolding find remove move_to_end
  get key now cache = elim (find key cache.store) [
    | none ↦ (cache, none)
    | some (ts, value) ↦
        if is_expired cache.ttl now ts
        then (record cache { store = remove key cache.store }, none)
        else (record cache { store = move_to_end key cache.store }, some value)
  ]

  unfoldable pub put : String → F → Option V → (V → List ℕ) → ResponseCache F V → ResponseCache F V
  unfolding prune_expired fits_serialized_limit remove assign move_to_end evict
  put key now none chunks cache = cache
  put key now (some value) chunks cache =
      let pruned = prune_expired cache.ttl now cache.store in
      if fits_serialized_limit (chunks value) cache.max_value_bytes
      then record cache {
        store = evict cache.max_entries (move_to_end key (assign key (now, value) pruned));
      }
      else record cache { store = remove key pruned }

  unfoldable pub clear : ResponseCache F V → ResponseCache F V
  clear cache = record cache { store = [] }
