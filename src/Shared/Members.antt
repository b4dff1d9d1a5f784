-- ===== src/Shared/Members.antt =====
-- Membership in lists that are searched and filtered by Boolean tests.
use mathlib.Core.Path.{◌≡◌, sym, ap, ◌∙◌}
use mathlib.Core.Logic.{◌↔◌, inl, inr}
use mathlib.Core.Logic.Or
use mathlib.Core.Bool.{Bool, true}
use mathlib.Core.List.{
  List, [], ◌∷◌, Mem, Mem-prop, mem-cons, mem-cons_self, mem-cons_of_mem, not-mem-nil,
}
use mathlib.Core.HLevel.{×_prop}
use Prim.Native.String.{String}
use native.Mathlib.Omega.{arith}
use veto.Shared.Tests.{Bool-cases}
use veto.Shared.Lists.{filter, All}
use veto.Shared.Text.{contains, eq_iff, ◌==◌}

pub Bool-eq_prop : {a b : Bool} → IsProp (a ≡ b)
Bool-eq_prop {a} {b} = let s : IsSet Bool = hlevel in s a b

mem_of_contains : (xs : List String) (a : String) → contains xs a ≡ true → Mem a xs
unfolding contains
mem_of_contains [] a h = cc
mem_of_contains (x ∷ xs) a h = elim (Bool-cases (x == a)) [
  | inl e ↦ rw ((eq_iff x a).0 e) mem-cons_self
  | inr e ↦ mem-cons_of_mem x (mem_of_contains xs a (ground arith))
]

contains_of_mem : (xs : List String) (a : String) → Mem a xs → contains xs a ≡ true
unfolding contains
contains_of_mem [] a m = absurd (not-mem-nil m)
contains_of_mem (x ∷ xs) a m =
    Or.elim Bool-eq_prop (mem-cons.0 m) (λ e. rw ((eq_iff x a).1 (sym e)))
      (λ r. ground (arith, contains_of_mem xs a r))

-- slices.Contains decides membership.
pub contains_iff : (xs : List String) (a : String) → (contains xs a ≡ true) ↔ Mem a xs
contains_iff xs a = (mem_of_contains xs a, contains_of_mem xs a)

module _ {ℓ} {A : Type ℓ} (p : A → Bool) where
  mem_of_mem-filter : (x : A) (xs : List A) → Mem x (filter p xs) → Mem x xs × (p x ≡ true)
  mem_of_mem-filter x [] m = absurd (not-mem-nil m)
  mem_of_mem-filter x (y ∷ ys) m = elim (Bool-cases (p y)) [
    | inl e ↦
        Or.elim (×_prop Mem-prop Bool-eq_prop) (mem-cons.0 (rw e at m))
          (λ q. (rw q mem-cons_self, ap p q ∙ e))
          (λ r. let (a, b) = mem_of_mem-filter x ys r in (mem-cons_of_mem y a, b))
    | inr e ↦ let (a, b) = mem_of_mem-filter x ys (rw e at m) in (mem-cons_of_mem y a, b)
  ]

  mem-filter_of_mem : (x : A) (xs : List A) → Mem x xs → p x ≡ true → Mem x (filter p xs)
  mem-filter_of_mem x [] m h = absurd (not-mem-nil m)
  mem-filter_of_mem x (y ∷ ys) m h =
      Or.elim Mem-prop (mem-cons.0 m) (λ q. rw (ap p (sym q) ∙ h) (rw q mem-cons_self))
        (λ r. elim (Bool-cases (p y)) [
          | inl e ↦ rw e (mem-cons_of_mem y (mem-filter_of_mem x ys r h))
          | inr e ↦ rw e (mem-filter_of_mem x ys r h)
        ])

  pub mem-filter_iff : (x : A) (xs : List A) → Mem x (filter p xs) ↔ (Mem x xs × (p x ≡ true))
  mem-filter_iff x xs = (mem_of_mem-filter x xs, λ h. mem-filter_of_mem x xs h.0 h.1)

pub All-of_mem {ℓ κ} :
    {A : Type ℓ} (P : A → Type κ) (xs : List A) → ((x : A) → Mem x xs → P x) → All P xs
All-of_mem P [] f = tt
All-of_mem P (x ∷ xs) f = (f x mem-cons_self, All-of_mem P xs (λ y m. f y (mem-cons_of_mem x m)))

pub mem_of_all {ℓ κ} :
    {A : Type ℓ} (P : A → Type κ)
    → ((x : A) → IsProp (P x))
    → (xs : List A) → All P xs
    → (x : A) → Mem x xs
    → P x
mem_of_all P prop [] a x m = absurd (not-mem-nil m)
mem_of_all P prop (y ∷ xs) a x m =
    Or.elim (prop x) (mem-cons.0 m) (λ e. rw e a.0) (λ r. mem_of_all P prop xs a.1 x r)
