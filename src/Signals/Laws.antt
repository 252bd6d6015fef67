-- ===== src/Signals/Laws.antt =====
-- Reading a signal dict after a write and after an update.
use whidby.Prelude.{◌≡◌, refl, Option, none, some, String, str_eq, eq_iff, arith, if◌then◌else◌}
use whidby.Signals.{Signals, Value, end, entry, get, put, update}

-- A Python dict has every key once.
abbrev pub IsDict : {F : Type 0} → Signals F → Type 0
IsDict end = Unit
IsDict (entry k v m) = (get k m ≡ none) × IsDict m

abbrev pub or_else : {A : Type 0} → Option A → Option A → Option A
or_else (some a) b = some a
or_else none b = b

module _ {F : Type 0} where
  pub get-put :
      (k j : String) (v : Value F) (m : Signals F)
      → get j (put k v m) ≡ (if str_eq k j then some v else get j m)
  unfolding get put
  get-put k j v end = refl
  get-put k j v (entry i w m) = ground (arith, eq_iff k j, eq_iff i k, eq_iff i j, get-put k j v m)

  -- After `m.update(others)` a key has its value in `others`, or else the one it had.
  pub get-update :
      (j : String) (others m : Signals F)
      → IsDict others
      → get j (update m others) ≡ or_else (get j others) (get j m)
  unfolding get update
  get-update j end m d = refl
  get-update j (entry k v others) m (fresh, d) =
      ground (arith, get-update j others (put k v m) d, get-put k j v m, eq_iff k j)
