-- ===== src/Application/Review.antt =====
-- internal/application/review.go: the acceptance review of an output by another model. The JSON
-- decoder, the JSON of the evidence and SHA-256 are parameters.
pub mod Consistent
pub mod Reviewer
use Prim.Native.Nat.{ℕ}
use Prim.Native.Char.{Char, code}
use Prim.Native.String.{slice}
use text.Mathlib.Text.{find?}
use veto.Shared.{
  suc, ◌+◌, String, Bool, true, false, not, ◌&&◌, ◌||◌, Option, none, some, List, [], ◌∷◌, length,
  nat_eq, leb, if◌then◌else◌,
}
use veto.Shared.Int.{ℤ, pos}
use veto.Shared.Float.{Float64, fzero, gt}
use veto.Shared.Text.{byte_length, ◌==◌, Unicode, concat, trim_space}
use veto.Router.Types.{TaskSpec, kind_review}
use veto.Application.Prompt.{build_review_prompt, build_review_admission_objective}
use veto.Application.Execution.{RunError}
use veto.Application.Runner.{
  Runner, Request, Call, Response, Outcome, rejected, selected, ran, Executed, execute,
}

pub record CriterionResult : Type 0 where
  pub criterion : String
  pub met : Bool
  pub note : String

pub record ReviewResult (F : Type 0) : Type 0 where
  pub passed : Bool
  pub score : F
  pub criteria : List CriterionResult

-- ReviewRequest, with the JSON of its evidence
pub record ReviewRequest (F : Type 0) : Type 0 where
  pub original : TaskSpec F
  pub output : String
  pub executor_model : String
  pub evidence : Option String
  pub task_id : String

-- The errors of ValidateReviewResult
pub data ReviewFault : Type 0 where
  bad_score wrong_count passed_unmet failed_met : ReviewFault
  mismatch : ℕ → ReviewFault

pub data ReviewError : Type 0 where
  unavailable : RunError → ReviewError
  unparseable : ReviewError
  invalid : ReviewFault → ReviewError

pub data Reviewed (F : Type 0) : Type 0 where
  reviewed : ReviewResult F → Reviewed F
  refused : ReviewError → Reviewed F

-- strings.LastIndex of a brace
unfoldable pub last_brace : String → Option ℕ
last_brace String.[] = none
last_brace (String.◌∷◌ c s) = elim (last_brace s) [
  | some i ↦ some (suc i)
  | none ↦ if nat_eq (code c) b'}' then some 0 else none
]

-- The loop over the criteria: the first that does not match, or whether all are met.
pub data CriteriaCheck : Type 0 where
  mismatched : ℕ → CriteriaCheck
  checked : Bool → CriteriaCheck

unfoldable pub check_criteria : ℕ → List String → List CriterionResult → Bool → CriteriaCheck
unfolding trim_space
check_criteria i [] results all_met = checked all_met
check_criteria i (expected ∷ criteria) [] all_met = checked all_met
check_criteria i (expected ∷ criteria) (got ∷ results) all_met =
    let rest = check_criteria (suc i) criteria results (all_met && got.met) in
    if not (trim_space got.criterion == trim_space expected) then mismatched (suc i) else rest

-- The verdict against the criteria
unfoldable pub check_verdict : Bool → CriteriaCheck → Option ReviewFault
check_verdict passed (mismatched i) = some (mismatch i)
check_verdict true (checked true) = none
check_verdict true (checked false) = some passed_unmet
check_verdict false (checked true) = some failed_met
check_verdict false (checked false) = none

-- reviewTaskID, where `hash` is the hex of the first eight bytes of SHA-256
abbrev pub review_task_id : (String → String) → String → String
review_task_id hash prompt = hash (concat prompt "|review|low|0.000000")

-- What Review returns, with the world and the calls
pub record ReviewRun (F W : Type 0) : Type 0 where
  pub world : W
  pub calls : List (Call F)
  pub answer : Reviewed F

module _ {F : Type 0} ⦃fl : Float64 F⦄ where
  -- ValidateReviewResult
  unfoldable pub validate_review_result : List String → ReviewResult F → Option ReviewFault
  unfolding check_criteria check_verdict
  validate_review_result criteria result =
      if fl.lt result.score fzero || gt result.score (fl.lit 1 0)
      then some bad_score
      else if not (nat_eq (length result.criteria) (length criteria))
      then some wrong_count
      else check_verdict result.passed (check_criteria 0 criteria result.criteria true)

  -- ParseReviewJSON
  unfoldable pub parse_review_json :
      (String → Option (ReviewResult F)) → String → Option (ReviewResult F)
  unfolding last_brace
  parse_review_json decode output = elim (find? output "{") [
    | none ↦ none
    | some start ↦ elim (last_brace output) [
      | none ↦ none
      | some end ↦ if leb end start then none else decode (slice output start (end + 1))
    ]
  ]

  -- The task that Review routes
  unfoldable pub review_task : (String → String) → ReviewRequest F → TaskSpec F
  unfolding build_review_prompt build_review_admission_objective byte_length
  review_task hash request =
      let prompt = build_review_prompt request.original request.output request.evidence in
      record {
        id = if request.task_id == "" then review_task_id hash prompt else request.task_id;
        kind = kind_review;
        role = "";
        complexity = "";
        objective = prompt;
        admission_objective =
            build_review_admission_objective request.original (byte_length prompt);
        context = "";
        constraints = [];
        required_tools = [];
        requires_executable_tools = false;
        success_criteria = [];
        risk = "low";
        max_cost_usd = fzero;
        max_tokens = pos 0;
        execution_max_output_tokens = pos 0;
        source = "";
        exclude_from_private_capture = false;
        private_capture_workspace_independent = false;
        skip_models = if request.executor_model == "" then [] else request.executor_model ∷ [];
        runtime_filter = "";
        provider_filter = "";
      }

  abbrev pub execution_request : TaskSpec F → Request F
  execution_request task = record {
    task = task;
    skills = [];
    admission_timeout = pos 0;
    max_output_tokens = pos 0;
    has_writer = false;
  }

  -- The answer of a reviewer, from its output on
  unfoldable pub judge_output :
      (String → Option (ReviewResult F)) → List String → String → Reviewed F
  unfolding parse_review_json validate_review_result
  judge_output decode criteria output = elim (parse_review_json decode output) [
    | none ↦ refused unparseable
    | some result ↦ elim (validate_review_result criteria result) [
      | some fault ↦ refused (invalid fault)
      | none ↦ reviewed result
    ]
  ]

  unfoldable pub judge_outcome :
      (String → Option (ReviewResult F)) → List String → Outcome F → Reviewed F
  unfolding judge_output
  judge_outcome decode criteria (rejected e) = refused (unavailable e)
  judge_outcome decode criteria (selected model decision e) = refused (unavailable e)
  judge_outcome decode criteria (ran r (some e)) = refused (unavailable e)
  judge_outcome decode criteria (ran r none) = judge_output decode criteria r.output

  -- Runner.Review
  unfoldable pub review :
      {W : Type 0}
      → ⦃u : Unicode⦄ → Runner F W
      → (String → Option (ReviewResult F))
      → (String → String)
      → ReviewRequest F
      → W
      → ReviewRun F W
  unfolding review_task execute judge_outcome
  review runner decode hash request w =
      let x = execute runner (execution_request (review_task hash request)) w in
      let answer = judge_outcome decode request.original.success_criteria x.outcome in
      if nat_eq (length request.original.success_criteria) 0
      then record {
        world = w;
        calls = [];
        answer = reviewed (record { passed = false; score = fzero; criteria = [] });
      }
      else record { world = x.world; calls = x.calls; answer = answer }
