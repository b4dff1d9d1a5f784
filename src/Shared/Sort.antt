-- ===== src/Shared/Sort.antt =====
-- slices.SortFunc and sort.Slice: insertion by a comparison function.
use mathlib.Core.Path.{◌≡◌, refl, ap, ◌∙◌}
use mathlib.Core.Logic.{inl, inr}
use mathlib.Core.Bool.{true, false}
use mathlib.Core.List.{List, [], ◌∷◌, map, Perm}
use mathlib.Core.List.Perm
use veto.Shared.Tests.{if◌then◌else◌, Bool-cases}
use veto.Shared.Lists.{All}
use Prim.Native.Nat.{Ordering}
use veto.Shared.Order.{is_le, IsComparison}
use native.Mathlib.Omega.{arith}

module _ {ℓ} {A : Type ℓ} (cmp : A → A → Ordering) where
  unfoldable pub insert : A → List A → List A
  insert x [] = x ∷ []
  insert x (y ∷ ys) = let rest = insert x ys in if is_le (cmp x y) then x ∷ y ∷ ys else y ∷ rest

  unfoldable pub sort : List A → List A
  unfolding insert
  sort [] = []
  sort (x ∷ xs) = insert x (sort xs)

  -- Every element stands before all that come after it.
  abbrev pub IsSorted : List A → Type 0
  IsSorted [] = Unit
  IsSorted (x ∷ xs) = All (λ y. is_le (cmp x y) ≡ true) xs × IsSorted xs

  insert-perm : (x : A) (xs : List A) → Perm (insert x xs) (x ∷ xs)
  unfolding insert
  insert-perm x [] = Perm.refl _
  insert-perm x (y ∷ ys) = elim (Bool-cases (is_le (cmp x y))) [
    | inl e ↦ rw e (Perm.refl _)
    | inr e ↦ rw e (Perm.trans (Perm.cons y (insert-perm x ys)) (Perm.swap x y ys))
  ]

  pub sort-perm : (xs : List A) → Perm (sort xs) xs
  unfolding sort
  sort-perm [] = Perm.refl _
  sort-perm (x ∷ xs) = Perm.trans (insert-perm x (sort xs)) (Perm.cons x (sort-perm xs))

  module _ (laws : IsComparison cmp) where
    open laws use {swap, trans}

    -- What stands after a value that is not before `x` is not before `x` either.
    All-trans :
        (x y : A) (ys : List A)
        → is_le (cmp x y) ≡ true
        → All (λ z. is_le (cmp y z) ≡ true) ys
        → All (λ z. is_le (cmp x z) ≡ true) ys
    All-trans x y [] h a = tt
    All-trans x y (z ∷ zs) h a = (trans x y z h a.0, All-trans x y zs h a.1)

    insert-All : (P : A → Type 0) (x : A) (xs : List A) → P x → All P xs → All P (insert x xs)
    unfolding insert
    insert-All P x [] p a = (p, a)
    insert-All P x (y ∷ ys) p a = elim (Bool-cases (is_le (cmp x y))) [
      | inl e ↦ rw e (p, a)
      | inr e ↦ rw e (a.0, insert-All P x ys p a.1)
    ]

    le_of_not_le : (x y : A) → is_le (cmp x y) ≡ false → is_le (cmp y x) ≡ true
    le_of_not_le x y h = ground (arith, swap x y)

    insert-IsSorted : (x : A) (xs : List A) → IsSorted xs → IsSorted (insert x xs)
    unfolding insert
    insert-IsSorted x [] s = (tt, tt)
    insert-IsSorted x (y ∷ ys) s = elim (Bool-cases (is_le (cmp x y))) [
      | inl e ↦ rw e ((e, All-trans x y ys e s.0), s)
      | inr e ↦ rw e (
        insert-All (λ z. is_le (cmp y z) ≡ true) x ys (le_of_not_le x y e) s.0,
        insert-IsSorted x ys s.1,
      )
    ]

    pub sort-IsSorted : (xs : List A) → IsSorted (sort xs)
    unfolding sort
    sort-IsSorted [] = tt
    sort-IsSorted (x ∷ xs) = insert-IsSorted x (sort xs) (sort-IsSorted xs)

-- Sorting commutes with a map that the comparison sees through.
module _ {ℓ} {A B : Type ℓ} (f : A → B) (cmp : B → B → Ordering) where
  map-insert :
      (x : A) (xs : List A)
      → insert cmp (f x) (map f xs) ≡ map f (insert (λ a b. cmp (f a) (f b)) x xs)
  unfolding insert
  map-insert x [] = refl
  map-insert x (y ∷ ys) = elim (Bool-cases (is_le (cmp (f x) (f y)))) [
    | inl e ↦ rw e
    | inr e ↦ rw e (ap (◌∷◌ (f y)) (map-insert x ys))
  ]

  pub sort-map : (xs : List A) → sort cmp (map f xs) ≡ map f (sort (λ a b. cmp (f a) (f b)) xs)
  unfolding sort
  sort-map [] = refl
  sort-map (x ∷ xs) =
      ap (insert cmp (f x)) (sort-map xs) ∙ map-insert x (sort (λ a b. cmp (f a) (f b)) xs)
