-- ===== src/Shared/Order.antt =====
-- Comparison functions, as `cmp.Compare` and the callbacks of `slices.SortFunc`, and their laws.
use Prim.Native.Nat.{compare as compare_ℕ, Ordering}
use Prim.Native.Char.{code}
use Prim.Native.String.{String, compare as compare_string}
use Prim.Native.String.compare
use mathlib.Core.Path.{◌≡◌, refl}
use mathlib.Core.Bool.{Bool, true, false}
use native.Mathlib.Omega.{arith}
use veto.Shared.Float.{Float64, IsIeee, fcompare}

abbrev pub flip : Ordering → Ordering
flip Ordering.lt = Ordering.gt
flip Ordering.eq = Ordering.eq
flip Ordering.gt = Ordering.lt

-- c <= 0
abbrev pub is_le : Ordering → Bool
is_le Ordering.gt = false
is_le _ = true

-- The second comparison decides where the first finds no difference.
abbrev pub or_else : Ordering → Ordering → Ordering
or_else Ordering.eq o = o
or_else p o = p

pub record IsComparison {ℓ} {A : Type ℓ} (cmp : A → A → Ordering) : Type ℓ where
  pub swap : (a b : A) → cmp b a ≡ flip (cmp a b)
  pub trans : (a b c : A) → is_le (cmp a b) ≡ true → is_le (cmp b c) ≡ true → is_le (cmp a c) ≡ true

module _ {ℓ} {A : Type ℓ} where
  pub dual-IsComparison :
      {cmp : A → A → Ordering} → IsComparison cmp → IsComparison (λ a b. cmp b a)
  dual-IsComparison h = record { swap = λ a b. h.swap b a; trans = λ a b c p q. h.trans c b a q p }

  pub or_else-IsComparison :
      (f g : A → A → Ordering)
      → IsComparison f
      → IsComparison g
      → IsComparison (λ a b. or_else (f a b) (g a b))
  or_else-IsComparison f g hf hg = record {
    swap = λ a b. ground (arith, hf.swap a b, hg.swap a b);
    trans = λ a b c p q. ground (
      arith,
      hf.swap a b,
      hf.swap b c,
      hf.swap a c,
      hf.trans a b c,
      hf.trans b c a,
      hf.trans c a b,
      hg.trans a b c,
    );
  }

pub comap-IsComparison {ℓ} :
    {A B : Type ℓ} (f : A → B) (cmp : B → B → Ordering)
    → IsComparison cmp
    → IsComparison (λ a b. cmp (f a) (f b))
comap-IsComparison f cmp h = record {
  swap = λ a b. h.swap (f a) (f b);
  trans = λ a b c. h.trans (f a) (f b) (f c);
}

compare_ℕ-IsComparison : IsComparison compare_ℕ
compare_ℕ-IsComparison = record { swap = λ a b. ground arith; trans = λ a b c p q. ground arith }

string_swap : (s t : String) → compare_string t s ≡ flip (compare_string s t)
string_swap String.[] String.[] = rw compare.nil-nil
string_swap String.[] (String.◌∷◌ d t) = rw (compare.nil-cons, compare.cons-nil)
string_swap (String.◌∷◌ c s) String.[] = rw (compare.nil-cons, compare.cons-nil)
string_swap (String.◌∷◌ c s) (String.◌∷◌ d t) = ground (
  arith,
  compare.cons-cons c d s t,
  compare.cons-cons d c t s,
  compare_ℕ-IsComparison.swap (code c) (code d),
  string_swap s t,
)

string_trans :
    (s t u : String)
    → is_le (compare_string s t) ≡ true
    → is_le (compare_string t u) ≡ true
    → is_le (compare_string s u) ≡ true
string_trans String.[] t String.[] p q = refl
string_trans String.[] t (String.◌∷◌ e u) p q = rw compare.nil-cons
string_trans (String.◌∷◌ c s) String.[] u p q = ground (arith, compare.cons-nil c s)
string_trans (String.◌∷◌ c s) (String.◌∷◌ d t) String.[] p q = ground (arith, compare.cons-nil d t)
string_trans (String.◌∷◌ c s) (String.◌∷◌ d t) (String.◌∷◌ e u) p q = ground (
  arith,
  compare.cons-cons c d s t,
  compare.cons-cons d e t u,
  compare.cons-cons c e s u,
  string_trans s t u,
)

pub string-IsComparison : IsComparison compare_string
string-IsComparison = record { swap = string_swap; trans = string_trans }

module _ {F : Type 0} ⦃fl : Float64 F⦄ (laws : IsIeee F) where
  open laws use {lt_irrefl, lt_trans, lt_split, number_of_lt}

  fcompare_swap : (a b : F) → fcompare b a ≡ flip (fcompare a b)
  unfolding fcompare
  fcompare_swap a b = ground (arith, lt_trans a b a, lt_irrefl a)

  fcompare_trans :
      (a b c : F)
      → is_le (fcompare a b) ≡ true
      → is_le (fcompare b c) ≡ true
      → is_le (fcompare a c) ≡ true
  unfolding fcompare
  fcompare_trans a b c p q =
      ground (arith, lt_split c b a, lt_trans b c b, lt_irrefl b, lt_trans a b a, lt_irrefl a)

  pub fcompare-IsComparison : IsComparison (λ (a b : F). fcompare a b)
  fcompare-IsComparison = record { swap = fcompare_swap; trans = fcompare_trans }
