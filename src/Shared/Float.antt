-- ===== src/Shared/Float.antt =====
-- Go's `float64`: the operations that the program uses, and the laws of IEEE 754 that proofs need.
-- The type and its operations are parameters: a value of any type with such an instance.
use Prim.Native.Nat.{ℕ, Ordering}
use mathlib.Core.Path.{◌≡◌}
use mathlib.Core.Logic.{◌⊎◌}
use mathlib.Core.Bool.{Bool, true, false, ◌||◌}
use veto.Shared.Int.{ℤ}
use veto.Shared.Tests.{if◌then◌else◌}

pub record Float64 (F : Type 0) : Type 0 where
  -- the constant that the source writes with `d` decimals: `lit 7 1` is 0.7
  pub lit : ℕ → ℕ → F
  -- float64(n)
  pub of_int : ℤ → F
  pub add : F → F → F
  pub sub : F → F → F
  pub mul : F → F → F
  pub div : F → F → F
  pub lt : F → F → Bool
  pub eq : F → F → Bool
  pub is_nan : F → Bool
  -- math.IsInf(x, 0)
  pub is_inf : F → Bool

module _ {F : Type 0} ⦃fl : Float64 F⦄ where
  abbrev pub fzero : F
  fzero = fl.lit 0 0

  abbrev pub le : F → F → Bool
  le a b = fl.lt a b || fl.eq a b

  abbrev pub gt : F → F → Bool
  gt a b = fl.lt b a

  -- math.IsNaN(x) || math.IsInf(x, 0)
  abbrev pub is_nonfinite : F → Bool
  is_nonfinite a = fl.is_nan a || fl.is_inf a

  -- cmp.Compare: NaN stands before every number.
  unfoldable pub fcompare : F → F → Ordering
  fcompare a b =
      if fl.is_nan a
      then if fl.is_nan b then Ordering.eq else Ordering.lt
      else if fl.is_nan b
      then Ordering.gt
      else if fl.lt a b
      then Ordering.lt
      else if fl.lt b a
      then Ordering.gt
      else Ordering.eq

-- The functions of Go's `math`, and the conversion int(x), that the evaluation uses.
pub record FloatMath (F : Type 0) : Type 0 where
  pub truncate : F → ℤ
  pub abs : F → F
  pub sqrt : F → F

-- The laws, each true of IEEE 754 arithmetic.
pub record IsIeee (F : Type 0) ⦃fl : Float64 F⦄ : Type 0 where
  pub zero_finite : is_nonfinite (fzero {F = F}) ≡ false
  pub eq_zero : fl.eq fzero fzero ≡ true
  pub zero_lt_one : fl.lt fzero (fl.lit 1 0) ≡ true
  pub lt_irrefl : (a : F) → fl.lt a a ≡ false
  pub lt_trans : (a b c : F) → fl.lt a b ≡ true → fl.lt b c ≡ true → fl.lt a c ≡ true
  pub lt_split :
      (a b c : F) → fl.lt a c ≡ true → fl.is_nan b ≡ false → (fl.lt a b ≡ true) ⊎ (fl.lt b c ≡ true)
  pub number_of_lt : (a b : F) → fl.lt a b ≡ true → fl.is_nan a || fl.is_nan b ≡ false
  pub eq_excludes :
      (a b : F)
      → fl.eq a b ≡ true
      → (fl.is_nan a ≡ false) × (fl.is_nan b ≡ false) × (fl.lt a b ≡ false) × (fl.lt b a ≡ false)
  pub total :
      (a b : F) → fl.is_nan a || fl.is_nan b ≡ false → fl.lt a b || fl.eq a b || fl.lt b a ≡ true
  pub eq_symm : (a b : F) → fl.eq a b ≡ fl.eq b a
  -- an infinity lies outside of the interval from 0 to 1
  pub inf_outside :
      (a : F) → fl.is_inf a ≡ true → (fl.lt a fzero ≡ true) ⊎ (fl.lt (fl.lit 1 0) a ≡ true)
  pub add_nonneg :
      (a b : F)
      → fl.is_nan a || fl.lt a fzero ≡ false
      → fl.is_nan b || fl.lt b fzero ≡ false
      → fl.is_nan (fl.add a b) || fl.lt (fl.add a b) fzero ≡ false
