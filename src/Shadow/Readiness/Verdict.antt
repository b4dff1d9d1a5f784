-- ===== src/Shadow/Readiness/Verdict.antt =====
-- The verdict depends only on which statuses occur, not on the order of a map's entries.
use mathlib.Core.List.{Mem, Perm}
use mathlib.Core.List.Perm
use mathlib.Core.Path.{ap₂}
use veto.Shared.{
  ◌≡◌, ◌↔◌, refl, ◌∙◌, List, [], ◌∷◌, All, any, Bool, true, false, arith, if◌then◌else◌,
}
use veto.Shared.Members.{Bool-eq_prop, All-of_mem, mem_of_all}
use veto.Shadow.Readiness.{
  GateStatus, pass, fail, insufficient, ReadinessStatus, ready, not_ready, insufficient_data,
  verdict,
}

abbrev pub is_fail : GateStatus → Bool
is_fail fail = true
is_fail _ = false

abbrev pub is_insufficient : GateStatus → Bool
is_insufficient insufficient = true
is_insufficient _ = false

-- The verdict of the policy: a failure decides, then missing data.
abbrev pub worst : ReadinessStatus → List GateStatus → ReadinessStatus
worst otherwise gates =
    if any is_fail gates
    then not_ready
    else if any is_insufficient gates
    then insufficient_data
    else otherwise

verdict-worst :
    (status : ReadinessStatus) (gates : List GateStatus) → verdict status gates ≡ worst status gates
unfolding verdict
verdict-worst status [] = refl
verdict-worst status (fail ∷ gates) = refl
verdict-worst status (insufficient ∷ gates) = ground (arith, verdict-worst insufficient_data gates)
verdict-worst status (pass ∷ gates) = verdict-worst status gates

module _ {A : Type 0} (p : A → Bool) where
  any-false_iff : (xs : List A) → (any p xs ≡ false) ↔ All (λ x. p x ≡ false) xs
  any-false_iff [] = (λ h. tt, λ h. refl)
  any-false_iff (x ∷ xs) = (
    λ h. (ground (arith, h), (any-false_iff xs).0 (ground (arith, h))),
    λ h. ground (arith, (any-false_iff xs).1 h.1, h.0),
  )

  any-transfer :
      (xs ys : List A) → ((x : A) → Mem x ys → Mem x xs) → any p xs ≡ false → any p ys ≡ false
  any-transfer xs ys sub h = (any-false_iff ys).1 (
      All-of_mem _ ys
        (λ x m. mem_of_all _ (λ y. Bool-eq_prop) xs ((any-false_iff xs).0 h) x (sub x m)))

  any-perm : {xs ys : List A} → Perm xs ys → any p xs ≡ any p ys
  any-perm {xs} {ys} q = ground (
    arith,
    any-transfer xs ys (λ x. (Perm.mem_iff q).1),
    any-transfer ys xs (λ x. (Perm.mem_iff q).0),
  )

-- Whichever order the loop visits the gates in, the verdict is the same: not ready where a gate
-- fails, or else insufficient data where one lacks data, or else ready.
pub verdict-perm :
    (gates visited : List GateStatus)
    → Perm visited gates
    → verdict ready visited ≡ worst ready gates
verdict-perm gates visited q =
    verdict-worst ready visited
    ∙ ap₂ (λ f i. if f then not_ready else if i then insufficient_data else ready)
        (any-perm is_fail q) (any-perm is_insufficient q)

-- A verdict of readiness means that every gate passes.
pub worst-ready : (gates : List GateStatus) → worst ready gates ≡ ready → All (λ g. g ≡ pass) gates
worst-ready [] h = tt
worst-ready (pass ∷ gates) h = (refl, worst-ready gates h)
worst-ready (fail ∷ gates) h = ground (arith, h)
worst-ready (insufficient ∷ gates) h = ground (arith, h)
