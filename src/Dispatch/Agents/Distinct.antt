-- ===== src/Dispatch/Agents/Distinct.antt =====
-- unique of pkg/dispatch/policy.go: the lists of a decision without repetitions.
use mathlib.Core.List.{Mem, Nodup, Nodup-nil, Nodup-cons}
use veto.Shared.{
  ◌≡◌, refl, ap, ◌↔◌, String, true, false, not, ◌&&◌, Bool-cases, inl, inr, List, [], ◌∷◌, arith,
}
use veto.Shared.Text.{◌==◌, contains, eq_iff}
use veto.Shared.Members.{contains_iff}
use veto.Dispatch.Agents.{unique_after, unique}

contains-unique_after :
    (seen vs : List String) (a : String)
    → contains (unique_after seen vs) a
      ≡ (contains vs a && (not (a == "") && not (contains seen a)))
unfolding contains unique_after
contains-unique_after seen [] a = refl
contains-unique_after seen (v ∷ vs) a =
    let skipped = contains-unique_after seen vs a in
    let kept = contains-unique_after (v ∷ seen) vs a in
    let blank = λ (e : v == a ≡ true). ap (λ x. x == "") ((eq_iff v a).0 e) in
    let known = λ (e : v == a ≡ true). ap (λ x. contains seen x) ((eq_iff v a).0 e) in
    elim (Bool-cases (v == a)) [
      | inl e ↦
          let b = blank e in
          let k = known e in
          elim (Bool-cases (v == "")) [
            | inl f ↦ rw f (ground arith)
            | inr f ↦ rw f (elim (Bool-cases (contains seen v)) [
              | inl g ↦ rw g (ground arith)
              | inr g ↦ rw g (ground arith)
            ])
          ]
      | inr e ↦ elim (Bool-cases (v == "")) [
        | inl f ↦ rw f (ground arith)
        | inr f ↦ rw f (elim (Bool-cases (contains seen v)) [
          | inl g ↦ rw g (ground arith)
          | inr g ↦ rw g (ground arith)
        ])
      ]
    ]

unique_after-Nodup : (seen vs : List String) → Nodup (unique_after seen vs)
unfolding contains unique_after
unique_after-Nodup seen [] = Nodup-nil
unique_after-Nodup seen (v ∷ vs) = elim (Bool-cases (v == "")) [
  | inl f ↦ rw f (unique_after-Nodup seen vs)
  | inr f ↦ rw f (elim (Bool-cases (contains seen v)) [
    | inl g ↦ rw g (unique_after-Nodup seen vs)
    | inr g ↦ rw g (
        Nodup-cons.1 (
          λ m.
              let again = (contains_iff (unique_after (v ∷ seen) vs) v).1 m in
              let self = (eq_iff v v).1 refl in
              let kept = contains-unique_after (v ∷ seen) vs v in ground arith,
          unique_after-Nodup (v ∷ seen) vs,
        ))
  ])
]

mem-unique : (xs : List String) (a : String) → Mem a (unique xs) ↔ (Mem a xs × ((a == "") ≡ false))
unfolding unique contains
mem-unique xs a =
    let found = contains-unique_after [] xs a in
    let (all_of, of_all) = contains_iff xs a in
    let (kept_of, of_kept) = contains_iff (unique_after [] xs) a in
    (
      λ m. let c = of_kept m in (all_of (ground arith), ground arith),
      λ h. let c = of_all h.0 in let e = h.1 in kept_of (ground arith),
    )

-- unique keeps exactly the texts that are not empty, each once.
pub unique-Nodup :
    (xs : List String)
    → Nodup (unique xs) × ((a : String) → Mem a (unique xs) ↔ (Mem a xs × ((a == "") ≡ false)))
unfolding unique
unique-Nodup xs = (unique_after-Nodup [] xs, mem-unique xs)
