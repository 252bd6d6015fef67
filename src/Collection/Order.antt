-- ===== src/Collection/Order.antt =====
-- Layers of ids as one order, in which every edge goes forward.
use whidby.Prelude.{
  has, ℕ, suc, ◌≤◌, ◌<◌, ◌≡◌, refl, sym, subst, true, false, Bool-cases, inl, inr, List, [], ◌∷◌,
  ◌++◌, String, str_eq, eq_iff, arith, length, if◌then◌else◌, All,
}
use mathlib.Core.List.{append_assoc}
use whidby.Collection.TaskGraph.{Edge}
use whidby.Collection.Members.{Within, DistinctIds, has-append, length-DistinctIds}
use whidby.Collection.Kahn.{IntoIds}
use whidby.Collection.Levels.{joined, Layered}

-- Distinct ids, as many as `ys` has, are all of `ys`.
pub Within-length :
    (xs ys : List String) → DistinctIds xs → Within xs ys → length ys ≤ length xs → Within ys xs
Within-length xs ys d w h y inside = elim (Bool-cases (has y xs)) [
  | inl e ↦ e
  | inr e ↦
      let more : Within (y ∷ xs) ys = λ z k. elim (Bool-cases (str_eq y z)) [
        | inl same ↦ subst (λ i. has i ys ≡ true) ((eq_iff y z).0 same) inside
        | inr other ↦ w z (ground arith)
      ] in
      absurd (omega (arith, h, length-DistinctIds (y ∷ xs) ys (e, d) more))
]

-- The place of the first occurrence.
abbrev pub position : String → List String → ℕ
position x [] = 0
position x (y ∷ ys) = if str_eq y x then 0 else suc (position x ys)

position_within :
    (x : String) (xs ys : List String) → has x xs ≡ true → position x (xs ++ ys) < length xs
position_within x [] ys h = ground arith
position_within x (y ∷ xs) ys h = ground (arith, position_within x xs ys)

position_after :
    (x : String) (xs ys : List String) → has x xs ≡ false → length xs ≤ position x (xs ++ ys)
position_after x [] ys h = ground arith
position_after x (y ∷ xs) ys h = ground (arith, position_after x xs ys)

-- Nothing of the second part stands in the first.
DistinctIds-apart :
    (xs ys : List String) (x : String) → DistinctIds (xs ++ ys) → has x ys ≡ true → has x xs ≡ false
DistinctIds-apart [] ys x d h = refl
DistinctIds-apart (z ∷ xs) ys x (f, d) h = elim (Bool-cases (str_eq z x)) [
  | inl e ↦
      let same = subst (λ i. has i (xs ++ ys) ≡ false) ((eq_iff z x).0 e) f in
      ground (arith, same, has-append x xs ys)
  | inr e ↦ ground (arith, DistinctIds-apart xs ys x d h)
]

-- An edge of a layered order goes forward.
edge_forward :
    (e : Edge) (ls : List (List String)) (earlier : List String)
    → Layered (e ∷ []) earlier ls
    → DistinctIds (earlier ++ joined ls)
    → has e.1 (joined ls) ≡ true
    → position e.0 (earlier ++ joined ls) < position e.1 (earlier ++ joined ls)
edge_forward e [] earlier y d h = ground arith
edge_forward e (l ∷ ls) earlier ((f, g), y) d h = elim (Bool-cases (has e.1 l)) [
  | inl inside ↦
      let before = position_within e.0 earlier (l ++ joined ls) (f inside) in
      let after =
        position_after e.1 earlier (l ++ joined ls)
          (DistinctIds-apart earlier (l ++ joined ls) e.1 d h) in
      omega (arith, before, after)
  | inr outside ↦
      let assoc = append_assoc earlier l (joined ls) in
      subst (λ xs. position e.0 xs < position e.1 xs) assoc
        (edge_forward e ls (earlier ++ l) y (subst DistinctIds (sym assoc) d)
          (ground (arith, has-append e.1 l (joined ls))))
]

Layered-head :
    (e : Edge) (es : List Edge) (earlier : List String) (ls : List (List String))
    → Layered (e ∷ es) earlier ls
    → Layered (e ∷ []) earlier ls × Layered es earlier ls
Layered-head e es earlier [] y = (tt, tt)
Layered-head e es earlier (l ∷ ls) ((f, g), y) =
    let (a, b) = Layered-head e es (earlier ++ l) ls y in (((f, tt), a), (g, b))

pub edges_forward :
    (es : List Edge) (ids : List String) (ls : List (List String))
    → Layered es [] ls
    → DistinctIds (joined ls)
    → IntoIds ids es
    → Within ids (joined ls)
    → All (λ e. position e.0 (joined ls) < position e.1 (joined ls)) es
edges_forward [] ids ls y d w c = tt
edges_forward (e ∷ es) ids ls y d (h, w) c =
    let (a, b) = Layered-head e es [] ls y in
    (edge_forward e ls [] a d (c e.1 h), edges_forward es ids ls b d w c)
