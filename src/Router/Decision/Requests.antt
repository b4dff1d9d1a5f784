-- ===== src/Router/Decision/Requests.antt =====
-- When DecisionRequest.Validate passes, said without its code.
use veto.Shared.{
  String, ◌≡◌, ◌≢◌, refl, ◌↔◌, ◌≤◌, false, none, List, [], ◌∷◌, length, All, All-imp, All-pair,
  arith,
}
use veto.Shared.Int.{pos}
use veto.Shared.Text.{eq_iff, contains, trim_space}
use veto.Router.Decision.{DecisionCandidate, DecisionRequest, validate_candidates, validate_request}

module _ {F : Type 0} where
  abbrev pub IsNamed : DecisionCandidate F → Type 0
  IsNamed c = trim_space c.model.name ≢ ""

  -- No two candidates have one name.
  abbrev pub IsDistinct : List (DecisionCandidate F) → Type 0
  IsDistinct [] = Unit
  IsDistinct (c ∷ cs) = All (λ d. c.model.name ≢ d.model.name) cs × IsDistinct cs

  pub record IsWellFormed (r : DecisionRequest F) : Type 0 where
    pub version : r.version ≡ pos 1
    pub count : (1 ≤ length r.candidates) × (length r.candidates ≤ 3)
    pub named : All IsNamed r.candidates
    pub distinct : IsDistinct r.candidates

  abbrev IsNew : List String → DecisionCandidate F → Type 0
  IsNew seen c = contains seen c.model.name ≡ false

  abbrev IsFresh : List String → List (DecisionCandidate F) → Type 0
  IsFresh seen cs = All IsNamed cs × IsDistinct cs × All (IsNew seen) cs

  not-IsNew :
      (seen : List String) (c d : DecisionCandidate F)
      → IsNew (c.model.name ∷ seen) d
      → (c.model.name ≢ d.model.name) × IsNew seen d
  unfolding contains
  not-IsNew seen c d h = (λ e. ground (arith, (eq_iff c.model.name d.model.name).1 e), ground arith)

  still-IsNew :
      (seen : List String) (c d : DecisionCandidate F)
      → (c.model.name ≢ d.model.name) × IsNew seen d
      → IsNew (c.model.name ∷ seen) d
  unfolding contains
  still-IsNew seen c d (h, k) = ground (arith, eq_iff c.model.name d.model.name)

  candidates_head :
      (seen : List String) (c : DecisionCandidate F) (cs : List (DecisionCandidate F))
      → (validate_candidates seen (c ∷ cs) ≡ none)
        ↔ (IsNamed c × IsNew seen c × (validate_candidates (c.model.name ∷ seen) cs ≡ none))
  unfolding validate_candidates
  candidates_head seen c cs = (
    λ h. (
      λ e. ground (arith, (eq_iff (trim_space c.model.name) "").1 e),
      ground arith,
      ground arith,
    ),
    λ (a, b, r). ground (arith, eq_iff (trim_space c.model.name) ""),
  )

  candidates_sound :
      (seen : List String) (cs : List (DecisionCandidate F))
      → validate_candidates seen cs ≡ none
      → IsFresh seen cs
  candidates_sound seen [] h = (tt, tt, tt)
  candidates_sound seen (c ∷ cs) h =
      let (named, new, rest) = (candidates_head seen c cs).0 h in
      let (a, b, d) = candidates_sound (c.model.name ∷ seen) cs rest in
      let apart =
        All-imp _ (λ x. c.model.name ≢ x.model.name) (λ x k. (not-IsNew seen c x k).0) cs d in
      let others = All-imp _ (IsNew seen) (λ x k. (not-IsNew seen c x k).1) cs d in
      ((named, a), (apart, b), (new, others))

  candidates_complete :
      (seen : List String) (cs : List (DecisionCandidate F))
      → IsFresh seen cs
      → validate_candidates seen cs ≡ none
  candidates_complete seen [] h = unfold validate_candidates in refl
  candidates_complete seen (c ∷ cs) ((named, a), (apart, b), (new, others)) =
      (candidates_head seen c cs).1 (
        named,
        new,
        candidates_complete (c.model.name ∷ seen) cs (
          a,
          b,
          All-imp _ (IsNew (c.model.name ∷ seen)) (still-IsNew seen c) cs
              (All-pair (λ x. c.model.name ≢ x.model.name) (IsNew seen) cs apart others),
        ),
      )

  request_parts :
      (r : DecisionRequest F)
      → (validate_request r ≡ none) ↔ (
          (r.version ≡ pos 1)
          × (1 ≤ length r.candidates)
          × (length r.candidates ≤ 3)
          × (validate_candidates [] r.candidates ≡ none))
  unfolding validate_request
  request_parts r = (λ h. ground arith, λ h. ground arith)

  All-IsNew : (cs : List (DecisionCandidate F)) → All (IsNew []) cs
  unfolding contains
  All-IsNew [] = tt
  All-IsNew (c ∷ cs) = (refl, All-IsNew cs)

  -- DecisionRequest.Validate accepts exactly the requests of version 1 with one to three
  -- candidates, none of them with a blank name and no two with the same name.
  pub validate_request_iff : (r : DecisionRequest F) → (validate_request r ≡ none) ↔ IsWellFormed r
  validate_request_iff r = (
    λ h.
        let (version, low, high, cs) = (request_parts r).0 h in
        let (named, distinct, _) = candidates_sound [] r.candidates cs in
        record { version = version; count = (low, high); named = named; distinct = distinct },
    λ v. (request_parts r).1 (
      v.version,
      v.count.0,
      v.count.1,
      candidates_complete [] r.candidates (v.named, v.distinct, All-IsNew r.candidates),
    ),
  )
