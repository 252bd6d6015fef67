-- ===== src/Prelude/Outcome.antt =====
-- Python calls that return a value or raise, as values.
use mathlib.Core.Logic.{◌⊎◌, inl, inr}
use mathlib.Core.Path.{◌≡◌, refl, subst}

pub data Exception : Type 0 where
  type_error value_error key_error attribute_error runner_error : Exception

pub data Result {ℓ} (A : Type ℓ) : Type ℓ where
  ok : A → Result A
  raise : Exception → Result A

abbrev pub ◌>>=◌ {ℓ κ} : {A : Type ℓ} {B : Type κ} (m : Result A) → (A → Result B) → Result B
raise e >>= next = raise e
ok value >>= next = next value

infixl 5 ◌>>=◌
-- The value of a call, passed to code that cannot raise.
abbrev pub after {ℓ κ} : {A : Type ℓ} {B : Type κ} → (A → B) → Result A → Result B
after f (ok a) = ok (f a)
after f (raise e) = raise e

pub ok-injective {ℓ} : {A : Type ℓ} {a b : A} → ok a ≡ ok b → a ≡ b
ok-injective e = cc

-- What holds of every value of `f` holds of every value that `after f m` returns.
pub after-all {ℓ κ μ} :
    {A : Type ℓ} {B : Type κ} (P : B → Type μ) (f : A → B) (m : Result A) {b : B}
    → ((a : A) → P (f a))
    → after f m ≡ ok b
    → P b
after-all P f (ok a) h e = subst P (ok-injective e) (h a)
after-all P f (raise x) h e = cc

-- Inversion of a returned value.
pub after-inv {ℓ κ} :
    {A : Type ℓ} {B : Type κ} (f : A → B) (m : Result A) {b : B}
    → after f m ≡ ok b
    → (a : A) × (m ≡ ok a) × (f a ≡ b)
after-inv f (ok a) e = (a, refl, ok-injective e)
after-inv f (raise x) e = cc

pub >>=-inv {ℓ κ} :
    {A : Type ℓ} (call : Result A) {B : Type κ} (next : A → Result B) {result : B}
    → call >>= next ≡ ok result
    → (a : A) × (call ≡ ok a) × (next a ≡ ok result)
>>=-inv (raise e) f returned = cc
>>=-inv (ok a) f returned = (a, refl, returned)

-- `P` of the value, if there is one.
abbrev pub Ensures {ℓ κ} : {A : Type ℓ} → (A → Type κ) → Result A → Type κ
Ensures P (ok a) = P a
Ensures P (raise e) = Unit

pub Ensures-elim {ℓ κ} :
    {A : Type ℓ} (P : A → Type κ) (m : Result A) {a : A} → Ensures P m → m ≡ ok a → P a
Ensures-elim P (ok x) h e = subst P (ok-injective e) h
Ensures-elim P (raise x) h e = cc

pub Ensures->>= {ℓ κ μ} :
    {A : Type ℓ} {B : Type κ} (P : B → Type μ) (m : Result A) (f : A → Result B)
    → ((a : A) → Ensures P (f a))
    → Ensures P (m >>= f)
Ensures->>= P (ok a) f h = h a
Ensures->>= P (raise e) f h = tt

-- A relation between two values that `after f` returned.
pub after-both {ℓ κ μ} :
    {A : Type ℓ} {B : Type κ} (R : B → B → Type μ) (f : A → B) (m m' : Result A) (i j : A) {x y : B}
    → m ≡ ok i
    → m' ≡ ok j
    → after f m ≡ ok x
    → after f m' ≡ ok y
    → R (f i) (f j)
    → R x y
after-both R f m m' i j {x} {y} p q e d r =
    subst (λ b. R b y) (ok-injective (subst (λ a. after f a ≡ ok x) p e))
      (subst (R (f i)) (ok-injective (subst (λ a. after f a ≡ ok y) q d)) r)

pub Result-cases {ℓ} :
    {A : Type ℓ} (m : Result A) → ((a : A) × (m ≡ ok a)) ⊎ ((e : Exception) × (m ≡ raise e))
Result-cases (ok a) = inl (a, refl)
Result-cases (raise e) = inr (e, refl)
