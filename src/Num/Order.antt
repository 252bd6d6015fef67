-- ===== src/Num/Order.antt =====
-- The interface of floats, and `min`, `max` and `clamp`-like bounds over it.
use whidby.Prelude.{
  List, Option, ℕ, ◌*◌, ◌≤◌, ◌<◌, ◌≡◌, ◌⊎◌, Bool, true, false, not, arith, if◌then◌else◌,
}

pub record Num (F : Type 0) : Type 0 where
  pub decimal : ℕ → F
  pub add : F → F → F
  pub sub : F → F → F
  pub mul : F → F → F
  pub div : F → F → F
  pub le : F → F → Bool
  -- `int(x)`, as a number; `float(text)` and `int(text)`, `none` where they raise; `str(x)`.
  pub trunc : F → F
  -- `int(round(x))`, as a number
  pub nearest : F → F
  pub parse : List ℕ → Option F
  pub parse_int : List ℕ → Option F
  pub show : F → List ℕ

infixl 65 ◌⊕◌ ◌⊖◌
infixl 70 ◌⊗◌ ◌⊘◌
abbrev pub ◌⊕◌ : {F : Type 0} ⦃n : Num F⦄ → F → F → F
◌⊕◌ ⦃n⦄ = n.add

abbrev pub ◌⊖◌ : {F : Type 0} ⦃n : Num F⦄ → F → F → F
◌⊖◌ ⦃n⦄ = n.sub

abbrev pub ◌⊗◌ : {F : Type 0} ⦃n : Num F⦄ → F → F → F
◌⊗◌ ⦃n⦄ = n.mul

abbrev pub ◌⊘◌ : {F : Type 0} ⦃n : Num F⦄ → F → F → F
◌⊘◌ ⦃n⦄ = n.div

abbrev pub decimal : {F : Type 0} ⦃n : Num F⦄ → ℕ → F
decimal ⦃n⦄ = n.decimal

-- An `int` that takes part in float arithmetic.
abbrev pub of_int : {F : Type 0} ⦃n : Num F⦄ → ℕ → F
of_int ⦃n⦄ k = n.decimal (k * 10_000)

-- `a <= b` and `a < b`: away from NaN one is the negation of the other, turned round.
abbrev pub le_num : {F : Type 0} ⦃n : Num F⦄ → F → F → Bool
le_num ⦃n⦄ = n.le

abbrev pub lt_num : {F : Type 0} ⦃n : Num F⦄ → F → F → Bool
lt_num ⦃n⦄ a b = not (n.le b a)

infix 50 ◌≼◌ ◌≺◌
abbrev pub ◌≼◌ : {F : Type 0} ⦃n : Num F⦄ → F → F → Type 0
a ≼ b = le_num a b ≡ true

abbrev pub ◌≺◌ : {F : Type 0} ⦃n : Num F⦄ → F → F → Type 0
a ≺ b = le_num b a ≡ false

-- Python's `min(a, b)` and `max(a, b)`: the first argument unless the second beats it.
abbrev pub min_num : {F : Type 0} ⦃n : Num F⦄ → F → F → F
min_num a b = if lt_num b a then b else a

abbrev pub max_num : {F : Type 0} ⦃n : Num F⦄ → F → F → F
max_num a b = if lt_num a b then b else a

pub record IsOrdered (F : Type 0) ⦃n : Num F⦄ : Type 0 where
  pub le_refl : (a : F) → a ≼ a
  pub le_trans : (a b c : F) → a ≼ b → b ≼ c → a ≼ c
  pub le_total : (a b : F) → (a ≼ b) ⊎ (b ≼ a)
  pub add_mono : (a b c d : F) → a ≼ b → c ≼ d → a ⊕ c ≼ b ⊕ d
  pub sub_mono : (a b c d : F) → a ≼ b → d ≼ c → a ⊖ c ≼ b ⊖ d
  pub mul_mono : (a b c : F) → a ≼ b → decimal 0 ≼ c → a ⊗ c ≼ b ⊗ c
  pub mul_mono_right : (a b c : F) → a ≼ b → decimal 0 ≼ c → c ⊗ a ≼ c ⊗ b
  pub div_mono : (a b c : F) → a ≼ b → decimal 0 ≺ c → a ⊘ c ≼ b ⊘ c
  pub decimal_mono : (k m : ℕ) → k ≤ m → n.decimal k ≼ n.decimal m
  pub decimal_lt : (k m : ℕ) → k < m → m ≤ 10_000_000_000 → n.decimal k ≺ n.decimal m
  pub zero_le_mul : (a b : F) → decimal 0 ≼ a → decimal 0 ≼ b → decimal 0 ≼ a ⊗ b
  pub zero_le_div : (a b : F) → decimal 0 ≼ a → decimal 0 ≺ b → decimal 0 ≼ a ⊘ b
  pub zero_le_sub : (a b : F) → b ≼ a → decimal 0 ≼ a ⊖ b
  pub zero_lt_sub : (a b : F) → b ≺ a → decimal 0 ≺ a ⊖ b
  pub sub_le_self : (a b : F) → decimal 0 ≼ b → a ⊖ b ≼ a
  pub div_self_le : (a : F) → decimal 0 ≺ a → a ⊘ a ≼ decimal 10_000
  pub one_mul_le : (a : F) → decimal 10_000 ⊗ a ≼ a
  pub nearest_mono : (a b : F) → a ≼ b → n.nearest a ≼ n.nearest b
  pub nearest-of_int : (k : ℕ) → n.nearest (of_int k) ≡ of_int k
  pub zero_add_le : (a : F) → (decimal 0 ⊕ a ≼ a) × (a ≼ decimal 0 ⊕ a)

module _ {F : Type 0} ⦃n : Num F⦄ (laws : IsOrdered F) where
  open laws use {le_refl, le_trans, le_total}

  pub le_of_lt : (a b : F) → a ≺ b → a ≼ b
  le_of_lt a b h = ground (arith, le_total a b)

  pub min_num-le_left : (a b : F) → min_num a b ≼ a
  min_num-le_left a b = ground (arith, le_total a b, le_refl a)

  pub min_num-le_right : (a b : F) → min_num a b ≼ b
  min_num-le_right a b = ground (arith, le_total a b, le_refl b)

  pub le-min_num : (c a b : F) → c ≼ a → c ≼ b → c ≼ min_num a b
  le-min_num c a b h k = ground arith

  pub le-max_num_left : (a b : F) → a ≼ max_num a b
  le-max_num_left a b = ground (arith, le_total a b, le_refl a)

  pub le-max_num_right : (a b : F) → b ≼ max_num a b
  le-max_num_right a b = ground (arith, le_total a b, le_refl b)

  pub max_num-le : (a b c : F) → a ≼ c → b ≼ c → max_num a b ≼ c
  max_num-le a b c h k = ground arith

  pub min_num_mono : (a b c d : F) → a ≼ c → b ≼ d → min_num a b ≼ min_num c d
  min_num_mono a b c d h k =
      le-min_num c' c d (le_trans _ _ _ (min_num-le_left a b) h)
        (le_trans _ _ _ (min_num-le_right a b) k)
    where
      c' : F
      c' = min_num a b

  pub max_num_mono : (a b c d : F) → a ≼ c → b ≼ d → max_num a b ≼ max_num c d
  max_num_mono a b c d h k =
      max_num-le a b _ (le_trans _ _ _ h (le-max_num_left c d))
        (le_trans _ _ _ k (le-max_num_right c d))

  pub decimal_pos : (m : ℕ) → 0 < m → decimal 0 ≺ n.decimal m
  decimal_pos m h = ground (
    arith,
    le_trans (decimal 1) (decimal m) (decimal 0),
    laws.decimal_mono 1 m,
    laws.decimal_lt 0 1 (omega arith) (omega arith),
  )

  pub lt_of_le_of_lt : (a b c : F) → a ≼ b → b ≺ c → a ≺ c
  lt_of_le_of_lt a b c h k = ground (arith, le_trans c a b)
