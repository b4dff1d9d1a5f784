-- ===== src/Tests/Numbers.antt =====
-- Numbers for the tests: thousandths, the infinities and NaN, with the laws of `float64`.
use Prim.Native.Nat.{◌/◌}
use veto.Shared.{refl, suc, ◌+◌, ◌*◌, ◌^◌, Bool, true, false, arith}
use veto.Shared.Int.{ℤ, pos, negsuc, pos_part, neg_part, sub_ℕ, ◌+ℤ◌, ltb_ℤ, eq_ℤ}
use veto.Shared.Float.{Float64, IsIeee}

-- `number n` is n / 1000.
pub data Milli : Type 0 where
  number : ℤ → Milli
  infinity : Milli
  minus_infinity : Milli
  nan : Milli

abbrev pub negate : Milli → Milli
negate (number n) = number (sub_ℕ (neg_part n) (pos_part n))
negate infinity = minus_infinity
negate minus_infinity = infinity
negate nan = nan

abbrev pub plus : Milli → Milli → Milli
plus nan b = nan
plus (number m) (number n) = number (m +ℤ n)
plus (number m) b = b
plus infinity minus_infinity = nan
plus infinity nan = nan
plus infinity b = infinity
plus minus_infinity infinity = nan
plus minus_infinity nan = nan
plus minus_infinity b = minus_infinity

-- The product of two numbers from 0 on, NaN elsewhere.
abbrev pub times : Milli → Milli → Milli
times (number (pos m)) (number (pos n)) = number (pos (m * n / 1000))
times a b = nan

abbrev pub over : Milli → Milli → Milli
over (number (pos m)) (number (pos (suc n))) = number (pos (m * 1000 / suc n))
over a b = nan

abbrev pub less : Milli → Milli → Bool
less nan b = false
less (number m) (number n) = ltb_ℤ m n
less (number m) infinity = true
less (number m) b = false
less infinity b = false
less minus_infinity (number n) = true
less minus_infinity infinity = true
less minus_infinity b = false

abbrev pub same : Milli → Milli → Bool
same (number m) (number n) = eq_ℤ m n
same infinity infinity = true
same minus_infinity minus_infinity = true
same a b = false

instance abbrev pub milli_float64 : Float64 Milli
milli_float64 = record {
  lit = λ n d. number (pos (n * 1000 / 10 ^ d));
  of_int = λ (n : ℤ). elim n [
    | pos m ↦ number (pos (m * 1000))
    | negsuc m ↦ number (negsuc (m * 1000 + 999))
  ];
  add = plus;
  sub = λ a b. plus a (negate b);
  mul = times;
  div = over;
  lt = less;
  eq = same;
  is_nan = λ (a : Milli). elim a [ nan ↦ true | _ ↦ false ];
  is_inf = λ (a : Milli). elim a [ infinity ↦ true | minus_infinity ↦ true | _ ↦ false ];
}

pub milli-IsIeee : IsIeee Milli
unfolding ◌+ℤ◌
milli-IsIeee = record {
  zero_finite = refl;
  eq_zero = refl;
  zero_lt_one = refl;
  lt_irrefl = λ a. ground arith;
  lt_trans = λ a b c p q. ground arith;
  lt_split = λ a b c p q. ground arith;
  number_of_lt = λ a b p. ground arith;
  eq_excludes = λ a b p. ground arith;
  total = λ a b p. ground arith;
  eq_symm = λ a b. ground arith;
  inf_outside = λ a p. ground arith;
  add_nonneg = λ a b p q. ground arith;
}
