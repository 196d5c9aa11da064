-- ===== src/Common/Samples.antt =====
-- A choice of the float operations that runs: whole numbers in place of doubles, so that a time
-- in seconds is its number of nanoseconds. The examples of the theorems use it.
use Prim.Native.Nat.{ℕ, zero, suc, ◌+◌, ◌-◌, ◌*◌, ◌/◌, ◌^◌}
use mathlib.Core.List.{[], ◌∷◌, foldl}
use digital_twin_based_on_un.Common.Int.{ℤ, pos, pos_part, neg_part, sub_ℕ, ltb_ℤ, leb_ℤ}
use digital_twin_based_on_un.Common.Floats.{Floats}

abbrev pub mul_ℤ : ℤ → ℤ → ℤ
mul_ℤ a b =
    sub_ℕ (pos_part a * pos_part b + neg_part a * neg_part b)
      (pos_part a * neg_part b + neg_part a * pos_part b)

abbrev pub pow_ℤ : ℤ → ℕ → ℤ
pow_ℤ a zero = pos 1
pow_ℤ a (suc n) = mul_ℤ a (pow_ℤ a n)

instance abbrev pub whole_floats : Floats ℤ
whole_floats = record {
  of_int = λ n. n;
  add = λ a b. sub_ℕ (pos_part a + pos_part b) (neg_part a + neg_part b);
  sub = λ a b. sub_ℕ (pos_part a + neg_part b) (neg_part a + pos_part b);
  mul = mul_ℤ;
  div = λ a b. pos (pos_part a / pos_part b);
  pow = pow_ℤ;
  lt = ltb_ℤ;
  le = leb_ℤ;
  abs = λ a. pos (pos_part a + neg_part a);
  truncate = λ a. a;
  decimal = λ a k. pos (pos_part a * 10 ^ (9 - k));
  nano = pos 1;
  giga = pos 1;
  half = pos 1;
  sqrt = λ a. a;
  sin = λ a. a;
  cos = λ a. a;
  degrees = λ a. a;
  unpack_double = λ bytes. pos (foldl (λ acc b. acc * 256 + b) 0 bytes);
  pack_double = λ a. 0 ∷ 0 ∷ 0 ∷ 0 ∷ 0 ∷ 0 ∷ 0 ∷ pos_part a ∷ [];
}
