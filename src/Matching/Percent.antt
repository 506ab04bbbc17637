-- ===== src/Matching/Percent.antt =====
-- The interface to floats, filled with whole hundredths that are rounded down.
use native.Mathlib.Nat.{div-le_of_le-mul, mul-le-mul_left, mul-le-mul_right}
use sm_artmatch.Prelude.{ℕ, ◌+◌, ◌*◌, ◌/◌, ◌≤◌, arith, ltb}
use sm_artmatch.Matching.{Floats}
use sm_artmatch.Matching.Laws.{IsMonotone}

abbrev pub percent : Floats ℕ
percent = record {
  add = λ a b. a + b;
  mul = λ a b. a * b / 100;
  div = λ a b. a * 100 / b;
  lt = ltb;
  hundredths = λ n. n;
}

quotient_le : (k m n : ℕ) → m ≤ k * n → m / k ≤ n
quotient_le k m n = div-le_of_le-mul k

pub percent-IsMonotone : IsMonotone percent
percent-IsMonotone = record {
  irrefl = λ a. ground arith;
  trans = λ a b c h k. ground arith;
  asym = λ a b h. ground arith;
  literal = λ n. ground arith;
  add_mono = λ a b c d h k. ground arith;
  add_pos = λ a b h k. ground arith;
  mul_pos = λ a b h k. ground arith;
  mul_le =
      λ a b h k. ground (arith, quotient_le 100 (a * b) a, mul-le-mul_left {m = b} {n = 100} a);
  div_pos = λ a b h k. ground arith;
  div_le =
      λ a b h k. ground (arith, quotient_le b (a * 100) 100, mul-le-mul_right {m = a} {n = b} 100);
}
