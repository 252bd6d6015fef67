-- ===== src/Collection/Members.antt =====
-- Lists of ids: membership, distinct ids, and how many there can be.
use whidby.Prelude.{
  has, suc, ◌≤◌, ◌≡◌, refl, subst, Bool, true, false, ◌&&◌, ◌||◌, Bool-cases, inl, inr, List, [],
  ◌∷◌, ◌++◌, String, str_eq, eq_iff, arith, length, filterb, if◌then◌else◌, All,
}

-- `set(xs) <= set(ys)`
abbrev pub Within : List String → List String → Type 0
Within xs ys = (x : String) → has x xs ≡ true → has x ys ≡ true

abbrev pub DistinctIds : List String → Type 0
DistinctIds [] = Unit
DistinctIds (x ∷ xs) = (has x xs ≡ false) × DistinctIds xs

pub has-append : (x : String) (xs ys : List String) → has x (xs ++ ys) ≡ (has x xs || has x ys)
has-append x [] ys = refl
has-append x (z ∷ xs) ys = ground (arith, has-append x xs ys)

pub has_self : (x : String) (xs : List String) → has x (x ∷ xs) ≡ true
has_self x xs = ground (arith, eq_iff x x)

pub has-filterb :
    (keep : String → Bool) (x : String) (xs : List String)
    → has x (filterb keep xs) ≡ (has x xs && keep x)
has-filterb keep x [] = refl
has-filterb keep x (y ∷ ys) = elim (Bool-cases (str_eq y x)) [
  | inl e ↦
      let same : y ≡ x = (eq_iff y x).0 e in
      rw same (ground (arith, has-filterb keep x ys, eq_iff x x))
  | inr e ↦ ground (arith, has-filterb keep x ys)
]

pub DistinctIds-filterb :
    (keep : String → Bool) (xs : List String) → DistinctIds xs → DistinctIds (filterb keep xs)
DistinctIds-filterb keep [] d = tt
DistinctIds-filterb keep (x ∷ xs) (f, d) = elim (Bool-cases (keep x)) [
  | inl e ↦ rw e (ground (arith, has-filterb keep x xs), DistinctIds-filterb keep xs d)
  | inr e ↦ rw e (DistinctIds-filterb keep xs d)
]

pub DistinctIds-snoc :
    (xs : List String) (x : String)
    → DistinctIds xs
    → has x xs ≡ false
    → DistinctIds (xs ++ (x ∷ []))
DistinctIds-snoc [] x d f = (refl, tt)
DistinctIds-snoc (y ∷ ys) x (g, d) f = (
  ground (arith, has-append y ys (x ∷ []), eq_iff x y, eq_iff y x),
  DistinctIds-snoc ys x d (ground arith),
)

-- One occurrence taken out.
abbrev without : String → List String → List String
without x [] = []
without x (y ∷ ys) = if str_eq y x then ys else y ∷ without x ys

length-without :
    (x : String) (ys : List String) → has x ys ≡ true → length ys ≡ suc (length (without x ys))
length-without x [] h = ground arith
length-without x (y ∷ ys) h = ground (arith, length-without x ys)

has-without :
    (z x : String) (ys : List String)
    → str_eq z x ≡ false
    → has z ys ≡ true
    → has z (without x ys) ≡ true
has-without z x [] f h = h
has-without z x (y ∷ ys) f h =
    ground (arith, has-without z x ys f, eq_iff y x, eq_iff y z, eq_iff z x)

Within-without :
    (x : String) (xs ys : List String)
    → has x xs ≡ false
    → Within (x ∷ xs) ys
    → Within xs (without x ys)
Within-without x xs ys f w z h = elim (Bool-cases (str_eq z x)) [
  | inl e ↦ let inside = subst (λ i. has i xs ≡ true) ((eq_iff z x).0 e) h in ground (arith, inside)
  | inr e ↦ has-without z x ys e (w z (ground arith))
]

-- Distinct ids that stand in `ys` are no more than `ys` has.
pub length-DistinctIds :
    (xs ys : List String) → DistinctIds xs → Within xs ys → length xs ≤ length ys
length-DistinctIds [] ys d w = omega arith
length-DistinctIds (x ∷ xs) ys (f, d) w =
    let first = length-without x ys (w x (has_self x xs)) in
    let later = length-DistinctIds xs (without x ys) d (Within-without x xs ys f w) in
    omega (arith, first, later)

pub All-has {κ} :
    (P : String → Type κ) (xs : List String) → ((x : String) → has x xs ≡ true → P x) → All P xs
All-has P [] h = tt
All-has P (x ∷ xs) h = (h x (has_self x xs), All-has P xs (λ y i. h y (ground arith)))
