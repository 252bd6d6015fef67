-- ===== src/Cache/Tests.antt =====
-- A cache of two entries, with values whose size is the value.
use whidby.Prelude.{ℕ, ◌≤◌, ◌≡◌, ◌↔◌, refl, true, false, List, [], ◌∷◌, ◌++◌, some, arith}
use whidby.Num.Fixed.{ℤ, pos, fixed_num}
use whidby.Cache.{ResponseCache, find, remove, is_expired, get, put, clear, fits_serialized_limit}
use whidby.Cache.Invariant.{IsCache, Call, getting, putting, after_calls, after_calls-IsCache}
use whidby.Cache.Lookup.{total, fits_serialized_limit_iff, get-put, get-some}

abbrev chunks_of : ℕ → List ℕ
chunks_of v = 1 ∷ v ∷ []

abbrev empty_cache : ResponseCache ℤ ℕ
empty_cache = record { ttl = pos 100; max_entries = 2; max_value_bytes = 10; store = [] }

abbrev full_cache : ResponseCache ℤ ℕ
full_cache = record empty_cache { store = ("a", (pos 50, 7)) ∷ ("b", (pos 60, 8)) ∷ [] }

abbrev calls : List (Call ℤ ℕ)
calls =
    putting "a" (pos 10) (some 7)
    ∷ putting "b" (pos 20) (some 8)
    ∷ getting "a" (pos 30)
    ∷ putting "c" (pos 40) (some 9)
    ∷ putting "d" (pos 45) (some 99)
    ∷ []

program : Unit {0}
unfolding after_calls get put clear fits_serialized_limit find
program = tt

-- The least recently used entry is dropped, and the value that is too large is not kept.
calls_store :
    (after_calls chunks_of calls empty_cache).store ≡ ("a", (pos 10, 7)) ∷ ("c", (pos 40, 9)) ∷ []
unfolding program
calls_store = refl

full_cache-IsCache : IsCache full_cache
unfolding program
full_cache-IsCache = ((refl, (refl, tt)), omega arith)

after_calls-IsCache_example : IsCache (after_calls chunks_of calls full_cache)
after_calls-IsCache_example = after_calls-IsCache chunks_of calls full_cache full_cache-IsCache

get-put_example : (get "a" (pos 90) (put "a" (pos 70) (some 9) chunks_of full_cache)).1 ≡ some 9
get-put_example =
    get-put "a" (pos 70) (pos 90) 9 chunks_of full_cache (omega arith) (omega arith) refl

full_cache-get : (get "a" (pos 90) full_cache).1 ≡ some 7
unfolding program
full_cache-get = refl

get-some_example :
    (ts : ℤ) × (find "a" full_cache.store ≡ some (ts, 7))
    × (is_expired (pos 100) (pos 90) ts ≡ false)
    × ((get "a" (pos 90) full_cache).0.store ≡ remove "a" full_cache.store ++ (("a", (ts, 7)) ∷ []))
get-some_example = get-some "a" (pos 90) full_cache full_cache-get

nine_bytes_too_many : (fits_serialized_limit (4 ∷ 5 ∷ []) 8 ≡ true) ↔ (total (4 ∷ 5 ∷ []) ≤ 8)
nine_bytes_too_many = fits_serialized_limit_iff 8 (4 ∷ 5 ∷ [])
