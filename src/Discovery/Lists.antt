-- ===== src/Discovery/Lists.antt =====
-- src/domain/services/discovery_service.py: what the loops over a list of markets keep.
use whidby.Prelude.{
  ℕ, zero, suc, ◌+◌, ◌≡◌, refl, subst, Bool, true, false, List, [], ◌∷◌, arith, All, take, drop,
  Result, ok, ok-injective, >>=-inv, if◌then◌else◌,
}
use whidby.Num.Order.{Num}
use whidby.Lenses.Entities.{Market, ScoredMarket}
use whidby.Lenses.Scoring.{ranked_from}
use whidby.Lenses.Ranking.{InOrder, Before, RanksFrom}
use whidby.Discovery.{passing, passing_if}

-- `passing` leaves elements that pass.
pub passing-All {ℓ} :
    {A : Type ℓ} (P : A → Type 0) (test : A → Result Bool) (ms r : List A)
    → All P ms
    → passing test ms ≡ ok r
    → All (λ m. P m × (test m ≡ ok true)) r
unfolding passing
passing-All P test [] r h e = subst (All (λ m. P m × (test m ≡ ok true))) (ok-injective e) tt
passing-All {A = A} P test (m ∷ ms) r (p, h) e =
    let (b, t, f) = >>=-inv (test m) _ e in
    let (rest, u, g) = >>=-inv (passing test ms) _ f in
    subst (All (λ x. P x × (test x ≡ ok true))) (ok-injective g)
      (kept b rest t (passing-All P test ms rest h u))
  where
    kept :
        (b : Bool) (rest : List A)
        → test m ≡ ok b
        → All (λ x. P x × (test x ≡ ok true)) rest
        → All (λ x. P x × (test x ≡ ok true)) (if b then m ∷ rest else rest)
    kept true rest t a = ((p, t), a)
    kept false rest t a = a

pub passing_if-All :
    {A : Type 0} (P : A → Type 0) (test : A → Result Bool) (b : Bool) (ms r : List A)
    → (b ≡ false → (m : A) → test m ≡ ok true)
    → All P ms
    → passing_if b test ms ≡ ok r
    → All (λ m. P m × (test m ≡ ok true)) r
unfolding passing_if
passing_if-All P test true ms r k h e = passing-All P test ms r h e
passing_if-All {A = A} P test false ms r k h e =
    subst (All (λ m. P m × (test m ≡ ok true))) (ok-injective e) (each ms h)
  where
    each : (xs : List A) → All P xs → All (λ m. P m × (test m ≡ ok true)) xs
    each [] h = tt
    each (x ∷ xs) (p, h) = ((p, k refl x), each xs h)

pub All-take {ℓ} :
    {A : Type ℓ} (P : A → Type 0) (k : ℕ) (xs : List A) → All P xs → All P (take k xs)
All-take P zero xs h = tt
All-take P (suc k) [] h = tt
All-take P (suc k) (x ∷ xs) (p, h) = (p, All-take P k xs h)

pub All-drop {ℓ} :
    {A : Type ℓ} (P : A → Type 0) (k : ℕ) (xs : List A) → All P xs → All P (drop k xs)
All-drop P zero xs h = h
All-drop P (suc k) [] h = tt
All-drop P (suc k) (x ∷ xs) (p, h) = All-drop P k xs h

module _ {F : Type 0} where
  pub RanksFrom-take :
      (k i : ℕ) (ss : List (ScoredMarket F)) → RanksFrom i ss → RanksFrom i (take k ss)
  RanksFrom-take zero i ss h = tt
  RanksFrom-take (suc k) i [] h = tt
  RanksFrom-take (suc k) i (s ∷ ss) (r, h) = (r, RanksFrom-take k (suc i) ss h)

  pub RanksFrom-drop :
      (k i : ℕ) (ss : List (ScoredMarket F)) → RanksFrom i ss → RanksFrom (i + k) (drop k ss)
  RanksFrom-drop zero i ss h = subst (λ j. RanksFrom j ss) (omega arith) h
  RanksFrom-drop (suc k) i [] h = tt
  RanksFrom-drop (suc k) i (s ∷ ss) (r, h) =
      subst (λ j. RanksFrom j (drop k ss)) (omega arith) (RanksFrom-drop k (suc i) ss h)

  pub All-ranked :
      (P : Market F → Type 0) (i : ℕ) (ss : List (ScoredMarket F))
      → All (λ s. P s.market) ss
      → All (λ s. P s.market) (ranked_from i ss)
  unfolding ranked_from
  All-ranked P i [] h = tt
  All-ranked P i (s ∷ ss) (p, h) = (p, All-ranked P (suc i) ss h)

module _ {F : Type 0} ⦃n : Num F⦄ where
  pub InOrder-take :
      (d : Bool) (k : ℕ) (ss : List (ScoredMarket F)) → InOrder d ss → InOrder d (take k ss)
  InOrder-take d zero ss h = tt
  InOrder-take d (suc k) [] h = tt
  InOrder-take d (suc k) (s ∷ ss) (a, h) = (All-take (Before d s) k ss a, InOrder-take d k ss h)

  pub InOrder-drop :
      (d : Bool) (k : ℕ) (ss : List (ScoredMarket F)) → InOrder d ss → InOrder d (drop k ss)
  InOrder-drop d zero ss h = h
  InOrder-drop d (suc k) [] h = tt
  InOrder-drop d (suc k) (s ∷ ss) (a, h) = InOrder-drop d k ss h
