-- ===== src/Signals.antt =====
-- The signal dicts that every scorer reads: values of a dynamic language, `dict.get`, `dict.update`,
-- and the conversions `float(v)`, `int(v)`, `str(v)` and `bool(v)`
-- (src/scoring/organic_competition_score.py, src/scoring/confidence_score.py, src/scoring/engine.py).
pub mod Laws
use Prim.Native.Char.{code}
use whidby.Prelude.{
  ℕ, ◌+◌, Bool, true, false, not, ◌&&◌, ◌||◌, List, [], ◌∷◌, map, Option, none, some, String,
  str_eq, leb, ltb, ◌==◌, if◌then◌else◌, Result, ok, raise, type_error, value_error,
}
use whidby.Num.Order.{Num, decimal, of_int, le_num}

mutual
  pub data Value (F : Type 0) : Type 0 where
    none_value : Value F
    number : F → Value F
    boolean : Bool → Value F
    text : List ℕ → Value F
    -- a list, of which the code reads no more than whether it is empty
    items : ℕ → Value F
    mapping : Signals F → Value F

  pub data Signals (F : Type 0) : Type 0 where
    end : Signals F
    entry : String → Value F → Signals F → Signals F

-- Texts are lists of code points.
abbrev pub codes : String → List ℕ
codes String.[] = []
codes (String.◌∷◌ c s) = code c ∷ codes s

abbrev pub text_eq : List ℕ → List ℕ → Bool
text_eq [] [] = true
text_eq (a ∷ as') (b ∷ bs) = a == b && text_eq as' bs
text_eq _ _ = false

-- `str.strip` and `str.lower`, on ASCII.
unfoldable pub is_space : ℕ → Bool
is_space c = leb 9 c && leb c 13 || leb 28 c && leb c 32

unfoldable pub strip_left : List ℕ → List ℕ
strip_left [] = []
strip_left (c ∷ cs) = if is_space c then strip_left cs else c ∷ cs

unfoldable pub strip_right : List ℕ → List ℕ
strip_right [] = []
strip_right (c ∷ cs) = elim (strip_right cs) [
  | [] ↦ if is_space c then [] else c ∷ []
  | d ∷ ds ↦ c ∷ d ∷ ds
]

unfoldable pub strip : List ℕ → List ℕ
unfolding strip_left strip_right is_space
strip s = strip_right (strip_left s)

unfoldable pub lower_char : ℕ → ℕ
lower_char c = if leb b'A' c && leb c b'Z' then c + 32 else c

unfoldable pub lower : List ℕ → List ℕ
unfolding lower_char
lower = map lower_char

module _ {F : Type 0} where
  -- `signals.get(key)`, and the entry of a dict literal or an assignment
  unfoldable pub get : String → Signals F → Option (Value F)
  get k end = none
  get k (entry j v m) = if str_eq j k then some v else get k m

  unfoldable pub put : String → Value F → Signals F → Signals F
  put k v end = entry k v end
  put k v (entry j w m) = if str_eq j k then entry j v m else entry j w (put k v m)

  unfoldable pub update : Signals F → Signals F → Signals F
  unfolding put
  update m end = m
  update m (entry k v others) = update (put k v m) others

  -- `signals.get(key, default)`
  unfoldable pub get_or : String → Value F → Signals F → Value F
  unfolding get
  get_or k d m = elim (get k m) [ none ↦ d | some v ↦ v ]

module _ {F : Type 0} ⦃n : Num F⦄ where
  -- `float(v)`
  unfoldable pub float_of : Value F → Result F
  float_of (number x) = ok x
  float_of (boolean b) = ok (if b then of_int 1 else of_int 0)
  float_of (text t) = elim (n.parse t) [ none ↦ raise value_error | some x ↦ ok x ]
  float_of _ = raise type_error

  -- `int(v)`
  unfoldable pub int_of : Value F → Result F
  int_of (number x) = ok (n.trunc x)
  int_of (boolean b) = ok (if b then of_int 1 else of_int 0)
  int_of (text t) = elim (n.parse_int t) [ none ↦ raise value_error | some x ↦ ok x ]
  int_of _ = raise type_error

  -- `bool(v)`
  unfoldable pub truthy : Value F → Bool
  truthy none_value = false
  truthy (number x) = not (le_num x (decimal 0) && le_num (decimal 0) x)
  truthy (boolean b) = b
  truthy (text t) = elim t [ [] ↦ false | c ∷ cs ↦ true ]
  truthy (items k) = ltb 0 k
  truthy (mapping m) = elim m [ end ↦ false | entry k v rest ↦ true ]

  -- `str(v)`; of a container only the opening bracket is kept, since the code compares the text
  -- with names that hold none.
  unfoldable pub str_of : Value F → List ℕ
  str_of none_value = codes "None"
  str_of (number x) = n.show x
  str_of (boolean b) = if b then codes "True" else codes "False"
  str_of (text t) = t
  str_of (items k) = codes "["
  str_of (mapping m) = codes "{"

  -- `float(signals.get(key, default))`
  unfoldable pub float_get : String → F → Signals F → Result F
  unfolding get_or float_of
  float_get k d m = float_of (get_or k (number d) m)

  -- `_number(signals.get(key), default)`: no exception gets out.
  unfoldable pub number_get : String → F → Signals F → F
  unfolding get_or float_of
  number_get k d m = elim (float_of (get_or k (none_value) m)) [ ok x ↦ x | raise e ↦ d ]

  -- `bool(signals.get(key, False))`
  unfoldable pub bool_get : String → Signals F → Bool
  unfolding get_or truthy
  bool_get k m = truthy (get_or k (boolean false) m)
