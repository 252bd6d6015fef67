-- ===== src/Num/Fixed.antt =====
-- The laws can be met: fixed-point numbers with four decimals, rounded towards zero.
use native.Mathlib.Nat.{
  mul-le-mul_left, mul-le-mul_right, le-div_iff_mul-le, div-mul-le_self, le_trans, zero-div,
  mul-div_cancel_left,
}
use whidby.Prelude.{
  [], ◌∷◌, none, ℕ, zero, suc, ◌+◌, ◌-◌, ◌*◌, ◌/◌, ◌%◌, ◌≤◌, ◌≡◌, arith, leb, ltb, refl,
  if◌then◌else◌,
}
use whidby.Num.Order.{Num, IsOrdered, ◌≼◌, ◌≺◌}

-- `negsuc n` is -(n + 1), in units of 1/10000.
pub data ℤ : Type 0 where
  pos : ℕ → ℤ
  negsuc : ℕ → ℤ

abbrev pub pos_part : ℤ → ℕ
pos_part (pos n) = n
pos_part (negsuc n) = 0

abbrev pub neg_part : ℤ → ℕ
neg_part (pos n) = 0
neg_part (negsuc n) = suc n

abbrev pub sub_ℕ : ℕ → ℕ → ℤ
sub_ℕ a b = if leb b a then pos (a - b) else negsuc (b - a - 1)

-- A product or a quotient by a positive number scales both parts.
abbrev pub scaled : (ℕ → ℕ) → ℤ → ℤ
scaled f a = sub_ℕ (f (pos_part a)) (f (neg_part a))

abbrev pub negated : ℤ → ℤ
negated a = sub_ℕ (neg_part a) (pos_part a)

abbrev pub times : ℤ → ℤ → ℤ
times a (pos n) = scaled (λ k. k * n / 10_000) a
times a (negsuc n) = negated (scaled (λ k. k * suc n / 10_000) a)

abbrev pub over : ℤ → ℤ → ℤ
over a (pos n) = scaled (λ k. k * 10_000 / n) a
over a (negsuc n) = negated (scaled (λ k. k * 10_000 / suc n) a)

-- To the nearest multiple of one, and to the even one of two that are as near.
abbrev pub half_even : ℕ → ℕ
half_even k =
    (if ltb (k % 10_000) 5000
      then k / 10_000
      else if ltb 5000 (k % 10_000)
      then k / 10_000 + 1
      else k / 10_000 + k / 10_000 % 2)
    * 10_000

instance abbrev pub fixed_num : Num ℤ
fixed_num = record {
  decimal = pos;
  add = λ a b. sub_ℕ (pos_part a + pos_part b) (neg_part a + neg_part b);
  sub = λ a b. sub_ℕ (pos_part a + neg_part b) (neg_part a + pos_part b);
  mul = times;
  div = over;
  le = λ a b. leb (pos_part a + neg_part b) (pos_part b + neg_part a);
  trunc = scaled (λ k. k / 10_000 * 10_000);
  nearest = scaled half_even;
  parse = λ _. none;
  parse_int = λ _. none;
  show = λ a. pos_part a ∷ neg_part a ∷ [];
}

-- A monotone function that keeps 0 scales monotonically.
scaled_mono :
    (f : ℕ → ℕ) (a b : ℤ)
    → ((k m : ℕ) → k ≤ m → f k ≤ f m)
    → f 0 ≡ 0
    → a ≼ b
    → scaled f a ≼ scaled f b
scaled_mono f (pos a) (pos b) mono e h = ground (arith, mono a b)
scaled_mono f (pos a) (negsuc b) mono e h = absurd (ground arith)
scaled_mono f (negsuc a) (pos b) mono e h = ground arith
scaled_mono f (negsuc a) (negsuc b) mono e h = ground (arith, mono (suc b) (suc a))

div_mono : (c k m : ℕ) → k ≤ m → k / c ≤ m / c
div_mono zero k m h = omega arith
div_mono (suc c) k m h =
    (le-div_iff_mul-le {k = suc c} (omega arith)).1 (le_trans (div-mul-le_self k (suc c)) h)

times_mono : (a b c : ℤ) → a ≼ b → pos 0 ≼ c → times a c ≼ times b c
times_mono a b (pos n) h k =
    scaled_mono (λ i. i * n / 10_000) a b
      (λ i j le. div_mono 10_000 (i * n) (j * n) (mul-le-mul_right n le)) (omega arith) h
times_mono a b (negsuc n) h k = absurd (ground arith)

times_mono_right : (a b c : ℤ) → a ≼ b → pos 0 ≼ c → times c a ≼ times c b
times_mono_right (pos a) (pos b) (pos n) h k =
    ground (arith, div_mono 10_000 (n * a) (n * b) (mul-le-mul_left n (ground arith)))
times_mono_right (pos a) (negsuc b) (pos n) h k = absurd (ground arith)
times_mono_right (negsuc a) (pos b) (pos n) h k = ground arith
times_mono_right (negsuc a) (negsuc b) (pos n) h k =
    ground (arith, div_mono 10_000 (n * suc b) (n * suc a) (mul-le-mul_left n (ground arith)))
times_mono_right a b (negsuc n) h k = absurd (ground arith)

over_mono : (a b c : ℤ) → a ≼ b → pos 0 ≺ c → over a c ≼ over b c
over_mono a b (pos n) h k =
    scaled_mono (λ i. i * 10_000 / n) a b
      (λ i j le. div_mono n (i * 10_000) (j * 10_000) (mul-le-mul_right 10_000 le)) (zero-div n) h
over_mono a b (negsuc n) h k = absurd (ground arith)

zero_le_times : (a b : ℤ) → pos 0 ≼ a → pos 0 ≼ b → pos 0 ≼ times a b
zero_le_times (pos a) (pos b) h k = ground arith
zero_le_times (pos a) (negsuc b) h k = absurd (ground arith)
zero_le_times (negsuc a) b h k = absurd (ground arith)

zero_le_over : (a b : ℤ) → pos 0 ≼ a → pos 0 ≺ b → pos 0 ≼ over a b
zero_le_over (pos a) (pos b) h k = ground (arith, zero-div b)
zero_le_over (pos a) (negsuc b) h k = absurd (ground arith)
zero_le_over (negsuc a) b h k = absurd (ground arith)

over_self_le : (a : ℤ) → pos 0 ≺ a → over a a ≼ pos 10_000
over_self_le (pos zero) h = absurd (ground arith)
over_self_le (pos (suc a)) h =
    rw (mul-div_cancel_left 10_000 {n = suc a} (omega arith), zero-div) (ground arith)
over_self_le (negsuc a) h = absurd (ground arith)

one_times_le : (a : ℤ) → times (pos 10_000) a ≼ a
one_times_le (pos a) = ground arith
one_times_le (negsuc a) = ground arith

half_even_mono : (k m : ℕ) → k ≤ m → half_even k ≤ half_even m
half_even_mono k m h = ground arith

pub fixed-IsOrdered : IsOrdered ℤ
fixed-IsOrdered = record {
  le_refl = λ a. ground arith;
  le_trans = λ a b c h k. ground arith;
  le_total = λ a b. ground arith;
  add_mono = λ a b c d h k. ground arith;
  sub_mono = λ a b c d h k. ground arith;
  mul_mono = times_mono;
  mul_mono_right = times_mono_right;
  div_mono = over_mono;
  decimal_mono = λ k m h. ground arith;
  decimal_lt = λ k m h b. ground arith;
  zero_le_mul = zero_le_times;
  zero_le_div = zero_le_over;
  zero_le_sub = λ a b h. ground arith;
  zero_lt_sub = λ a b h. ground arith;
  sub_le_self = λ a b h. ground arith;
  div_self_le = over_self_le;
  one_mul_le = one_times_le;
  nearest_mono = λ a b h. scaled_mono half_even a b half_even_mono refl h;
  nearest-of_int = λ k. ground arith;
  zero_add_le = λ a. (ground arith, ground arith);
}
