-- ===== src/VerifiedRun/Complete.antt =====
-- What accepted evidence is: pkg/verifiedrun/verifiedrun.go.
use mathlib.Core.Path.{subst}
use veto.Shared.{
  ◌≡◌, refl, inl, inr, String, true, false, ◌||◌, Option, none, List, [], ◌∷◌, All, any, arith,
  Option-cases,
}
use veto.Shared.Text.{◌==◌, Unicode, contains}
use veto.VerifiedRun.{
  Evidence, EvidenceManifest, Checked, accepted, refused, cons, validate_criteria, valid_sha256,
  cleaned, is_incomplete, check_evidence, check_all, is_covered, all_covered, covered_evidence,
  evidence_for, parse_evidence,
}

cons-inv :
    {A : Type 0} (a : A) (x : Checked (List A)) (items : List A)
    → cons a x ≡ accepted items
    → (rest : List A) × ((x ≡ accepted rest) × (a ∷ rest ≡ items))
cons-inv a (accepted rest) items h = (rest, (refl, ground arith))
cons-inv a (refused e) items h = absurd (ground arith)

-- The ids are not among those that were seen, and differ from each other.
abbrev pub AreNew : List String → List Evidence → Type 0
AreNew seen [] = Unit
AreNew seen (e ∷ es) = (contains seen e.id ≡ false) × AreNew (e.id ∷ seen) es

-- An evidence with all its fields, for one of the criteria.
pub record IsValid (criteria : List String) (e : Evidence) : Type 0 where
  pub complete : is_incomplete e ≡ false
  pub known : contains criteria e.criterion ≡ true
  pub digest : e.sha256 == "" || valid_sha256 e.sha256 ≡ true

all_covered-All :
    (items : List Evidence) (criteria : List String)
    → all_covered items criteria ≡ true
    → All (λ c. any (λ e. e.criterion == c) items ≡ true) criteria
unfolding all_covered is_covered
all_covered-All items [] h = tt
all_covered-All items (c ∷ cs) h = (ground arith, all_covered-All items cs (ground arith))

-- Evidence for some criteria, in their normal form.
pub record IsComplete (criteria : List String) (items : List Evidence) : Type 0 where
  pub normalized : List String
  pub normal : validate_criteria criteria ≡ accepted normalized
  pub valid : All (IsValid normalized) items
  pub distinct : AreNew [] items
  pub covered : All (λ c. any (λ e. e.criterion == c) items ≡ true) normalized

covered-IsComplete :
    (criteria normalized : List String) (checked : Checked (List Evidence)) (items : List Evidence)
    → validate_criteria criteria ≡ accepted normalized
    → ((found : List Evidence)
        → checked ≡ accepted found
        → All (IsValid normalized) found × AreNew [] found)
    → covered_evidence normalized checked ≡ accepted items
    → IsComplete criteria items
unfolding covered_evidence
covered-IsComplete criteria normalized (refused e) items normal valid h = absurd (ground arith)
covered-IsComplete criteria normalized (accepted found) items normal valid h =
    let covered : all_covered found normalized ≡ true = ground arith in
    let same : found ≡ items = ground arith in
    let (valids, news) = valid found refl in
    subst (IsComplete criteria) same (record {
      normalized = normalized;
      normal = normal;
      valid = valids;
      distinct = news;
      covered = all_covered-All found normalized covered;
    })

module _ ⦃u : Unicode⦄ (redact : String → String) where
  check_evidence-IsValid :
      (criteria seen : List String) (raw : Evidence)
      → check_evidence redact criteria seen raw ≡ none
      → IsValid criteria (cleaned redact raw) × (contains seen (cleaned redact raw).id ≡ false)
  unfolding check_evidence
  check_evidence-IsValid criteria seen raw h = (
    record { complete = ground arith; known = ground arith; digest = ground arith },
    ground arith,
  )

  check_all-IsValid :
      (criteria seen : List String) (raws items : List Evidence)
      → check_all redact criteria seen raws ≡ accepted items
      → All (IsValid criteria) items × AreNew seen items
  unfolding check_all
  check_all-IsValid criteria seen [] items h =
      let none_left : [] ≡ items = ground arith in
      subst (λ es. All (IsValid criteria) es × AreNew seen es) none_left (tt, tt)
  check_all-IsValid criteria seen (raw ∷ raws) items h =
      elim (Option-cases (check_evidence redact criteria seen raw)) [
        | inr (e, bad) ↦ absurd (ground arith)
        | inl fine ↦
            let e = cleaned redact raw in
            let later = check_all redact criteria (e.id ∷ seen) raws in
            let joined : cons e later ≡ accepted items = ground arith in
            let (rest, (checked, same)) = cons-inv e later items joined in
            let (valid, fresh) = check_evidence-IsValid criteria seen raw fine in
            let (valids, news) = check_all-IsValid criteria (e.id ∷ seen) raws rest checked in
            subst (λ es. All (IsValid criteria) es × AreNew seen es) same
              ((valid, valids), (fresh, news))
      ]

  evidence_for-IsComplete :
      (criteria : List String) (result : Checked (List String)) (raws items : List Evidence)
      → validate_criteria criteria ≡ result
      → evidence_for redact result raws ≡ accepted items
      → IsComplete criteria items
  unfolding evidence_for
  evidence_for-IsComplete criteria (refused e) raws items normal h = absurd (ground arith)
  evidence_for-IsComplete criteria (accepted normalized) raws items normal h =
      covered-IsComplete criteria normalized (check_all redact normalized [] raws) items normal
        (check_all-IsValid normalized [] raws) h

  -- The evidence that ParseEvidence accepts has an id, a criterion, a type and a summary each, ids that
  -- all differ, a SHA-256 that is empty or valid, and criteria of the given ones in their normal form;
  -- and each of these criteria has evidence.
  pub parse_evidence-IsComplete :
      (decode : String → Option EvidenceManifest) (text : String) (criteria : List String)
      (items : List Evidence)
      → parse_evidence redact decode text criteria ≡ accepted items
      → IsComplete criteria items
  unfolding parse_evidence
  parse_evidence-IsComplete decode text criteria items h = elim (Option-cases (decode text)) [
    | inl bad ↦ absurd (ground arith)
    | inr (manifest, decoded) ↦
        evidence_for-IsComplete criteria (validate_criteria criteria) manifest.evidence items refl
          (ground arith)
  ]
