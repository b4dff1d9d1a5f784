-- ===== src/Application/Review/Consistent.antt =====
-- What an accepted review says.
use veto.Shared.{
  ℕ, suc, ◌≡◌, refl, sym, ap, ◌∙◌, ◌↔◌, inl, inr, String, Bool, true, false, ◌&&◌, ◌||◌, none, List,
  [], ◌∷◌, All, arith, length, Bool-cases,
}
use veto.Shared.Float.{Float64, fzero, gt}
use veto.Shared.Text.{eq_iff, trim_space}
use veto.Application.Review.{
  CriterionResult, ReviewResult, CriteriaCheck, mismatched, checked, check_criteria, check_verdict,
  validate_review_result,
}

-- One result for each criterion, in their order, up to white space around the texts.
abbrev pub Answers : List String → List CriterionResult → Type 0
Answers [] [] = Unit
Answers [] (got ∷ results) = ⊥
Answers (expected ∷ criteria) [] = ⊥
Answers (expected ∷ criteria) (got ∷ results) =
    (trim_space got.criterion ≡ trim_space expected) × Answers criteria results

abbrev all_met : List CriterionResult → Bool
all_met [] = true
all_met (got ∷ results) = got.met && all_met results

check_criteria-Answers :
    (i : ℕ) (criteria : List String) (results : List CriterionResult) (met : Bool)
    → Answers criteria results
    → check_criteria i criteria results met ≡ checked (met && all_met results)
unfolding check_criteria
check_criteria-Answers i [] [] met a = ground arith
check_criteria-Answers i [] (got ∷ results) met a = absurd a
check_criteria-Answers i (expected ∷ criteria) [] met a = absurd a
check_criteria-Answers i (expected ∷ criteria) (got ∷ results) met (same, a) = ground (
  arith,
  eq_iff (trim_space got.criterion) (trim_space expected),
  check_criteria-Answers (suc i) criteria results (met && got.met) a,
)

Answers-of_check :
    (i : ℕ) (criteria : List String) (results : List CriterionResult) (met all : Bool)
    → length results ≡ length criteria
    → check_criteria i criteria results met ≡ checked all
    → Answers criteria results
unfolding check_criteria
Answers-of_check i [] [] met all l h = tt
Answers-of_check i [] (got ∷ results) met all l h = absurd (omega arith)
Answers-of_check i (expected ∷ criteria) [] met all l h = absurd (omega arith)
Answers-of_check i (expected ∷ criteria) (got ∷ results) met all l h =
    let same : trim_space got.criterion ≡ trim_space expected =
      ground (arith, eq_iff (trim_space got.criterion) (trim_space expected)) in
    let later : check_criteria (suc i) criteria results (met && got.met) ≡ checked all =
      ground (arith, eq_iff (trim_space got.criterion) (trim_space expected)) in
    (same, Answers-of_check (suc i) criteria results (met && got.met) all (omega arith) later)

length-of_Answers :
    (criteria : List String) (results : List CriterionResult)
    → Answers criteria results
    → length results ≡ length criteria
length-of_Answers [] [] a = refl
length-of_Answers [] (got ∷ results) a = absurd a
length-of_Answers (expected ∷ criteria) [] a = absurd a
length-of_Answers (expected ∷ criteria) (got ∷ results) (same, a) =
    ap suc (length-of_Answers criteria results a)

all_met_iff :
    (results : List CriterionResult) → (all_met results ≡ true) ↔ All (λ c. c.met ≡ true) results
all_met_iff [] = (λ h. tt, λ h. refl)
all_met_iff (got ∷ results) =
    let (forth, back) = all_met_iff results in
    (λ h. (ground arith, forth (ground arith)), λ (met, rest). rw (met, back rest) refl)

verdict-accepts :
    (passed : Bool) (x : CriteriaCheck) → check_verdict passed x ≡ none → x ≡ checked passed
unfolding check_verdict
verdict-accepts passed (mismatched i) h = absurd (ground arith)
verdict-accepts true (checked true) h = refl
verdict-accepts true (checked false) h = absurd (ground arith)
verdict-accepts false (checked true) h = absurd (ground arith)
verdict-accepts false (checked false) h = refl

verdict-checked : (passed : Bool) → check_verdict passed (checked passed) ≡ none
unfolding check_verdict
verdict-checked true = refl
verdict-checked false = refl

all_met-passed :
    (passed : Bool) (results : List CriterionResult)
    → (passed ≡ true) ↔ All (λ c. c.met ≡ true) results
    → all_met results ≡ passed
all_met-passed passed results (forth, back) =
    let (met, all) = all_met_iff results in
    elim (Bool-cases passed) [
      | inl p ↦ all (forth p) ∙ sym p
      | inr p ↦ elim (Bool-cases (all_met results)) [
        | inl a ↦ a ∙ sym (back (met a))
        | inr a ↦ a ∙ sym p
      ]
    ]

abbrev all_of : CriteriaCheck → Bool
all_of (checked all) = all
all_of (mismatched i) = false

module _ {F : Type 0} ⦃fl : Float64 F⦄ where
  -- The score lies between 0 and 1, every criterion has its result, and the review passes exactly
  -- where all of them are met.
  pub record IsConsistent (criteria : List String) (result : ReviewResult F) : Type 0 where
    pub score : fl.lt result.score fzero || gt result.score (fl.lit 1 0) ≡ false
    pub answers : Answers criteria result.criteria
    pub verdict : (result.passed ≡ true) ↔ All (λ c. c.met ≡ true) result.criteria

  accepted-parts :
      (criteria : List String) (result : ReviewResult F)
      → validate_review_result criteria result ≡ none
      → (fl.lt result.score fzero || gt result.score (fl.lit 1 0) ≡ false)
        × ((length result.criteria ≡ length criteria)
            × (check_criteria 0 criteria result.criteria true ≡ checked result.passed))
  unfolding validate_review_result
  accepted-parts criteria result h = (
    ground arith,
    (
      ground arith,
      verdict-accepts result.passed (check_criteria 0 criteria result.criteria true) (ground arith),
    ),
  )

  consistent-accepted :
      (criteria : List String) (result : ReviewResult F)
      → IsConsistent criteria result
      → validate_review_result criteria result ≡ none
  unfolding validate_review_result
  consistent-accepted criteria result c =
      let check =
        check_criteria-Answers 0 criteria result.criteria true c.answers
        ∙ ap checked (all_met-passed result.passed result.criteria c.verdict) in
      rw (c.score, check, verdict-checked result.passed)
        (ground (arith, length-of_Answers criteria result.criteria c.answers))

  -- ValidateReviewResult accepts a result for some criteria exactly if its score lies between 0 and 1,
  -- it has one entry for each criterion in their order, up to the white space around the texts, and
  -- it passes exactly where every entry is met.
  pub validate_review_result_iff :
      (criteria : List String) (result : ReviewResult F)
      → (validate_review_result criteria result ≡ none) ↔ IsConsistent criteria result
  unfolding validate_review_result
  validate_review_result_iff criteria result = (
    λ h.
        let (score, (count, check)) = accepted-parts criteria result h in
        let answers = Answers-of_check 0 criteria result.criteria true result.passed count check in
        let same : all_met result.criteria ≡ result.passed =
          ap all_of
            (sym (check_criteria-Answers 0 criteria result.criteria true answers) ∙ check) in
        let (met, all) = all_met_iff result.criteria in
        record {
          score = score;
          answers = answers;
          verdict = (λ passed. met (same ∙ passed), λ a. sym same ∙ all a);
        },
    consistent-accepted criteria result,
  )
