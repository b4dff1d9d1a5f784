-- ===== src/Application/Arguments.antt =====
-- internal/application/controlplane_service.go: the arguments of an action and the task that they name.
-- time.ParseDuration and strconv are parameters.
use Prim.Native.Char.{code}
use veto.Shared.{
  String, Bool, true, false, not, ◌&&◌, ◌||◌, Option, none, some, List, [], ◌∷◌, nat_eq,
  if◌then◌else◌,
}
use veto.Shared.Int.{ℤ, pos, is_positive, is_zero, eq_ℤ}
use veto.Shared.Float.{Float64, fzero, is_nonfinite}
use veto.Shared.Text.{◌==◌, Unicode, trim_space}
use veto.Shared.Dict.{get}
use veto.Router.Types.{TaskSpec}
use veto.Router.Kind.{infer_kind, requires_executable_runtime}

-- ActionRequest
pub record ActionRequest : Type 0 where
  pub version : ℤ
  pub action_id : String
  pub arguments : List (String × String)

-- time.ParseDuration, strconv.ParseFloat and strconv.Atoi, `none` on an error
pub record Parsers (F : Type 0) : Type 0 where
  pub parse_duration : String → Option ℤ
  pub parse_float : String → Option F
  pub atoi : String → Option ℤ

-- What is wrong with a request
pub data ArgumentError : Type 0 where
  bad_version objective_required bad_timeout bad_admission_timeout : ArgumentError
  bad_max_cost bad_max_output_tokens : ArgumentError

-- request.Arguments[name]
unfoldable pub argument : ActionRequest → String → String
unfolding get
argument request name = elim (get name request.arguments) [ none ↦ "" | some value ↦ value ]

-- strings.FieldsFunc at ',', ';' and line ends: the first part and the others
unfoldable parts : String → String × List String
parts String.[] = ("", [])
parts (String.◌∷◌ c s) =
    let (part, rest) = parts s in
    let n = code c in
    if nat_eq n b',' || nat_eq n b';' || nat_eq n 10
    then ("", part ∷ rest)
    else (String.◌∷◌ c part, rest)

unfoldable trimmed : List String → List String
unfolding trim_space
trimmed [] = []
trimmed (part ∷ rest) =
    if trim_space part == "" then trimmed rest else trim_space part ∷ trimmed rest

-- splitRequestList: an empty field has no text of its own, so it is dropped with the blank ones.
unfoldable pub split_request_list : String → List String
unfolding parts trimmed
split_request_list value = let (part, rest) = parts value in trimmed (part ∷ rest)

abbrev pub is_routing : ActionRequest → Bool
is_routing request = request.action_id == "route" || request.action_id == "run"

pub data Parsed (A : Type 0) : Type 0 where
  parsed : A → Parsed A
  unparsed : ArgumentError → Parsed A

abbrev is_run : ActionRequest → Bool
is_run request = request.action_id == "run"

module _ {F : Type 0} ⦃fl : Float64 F⦄ (parsers : Parsers F) where
  -- The cost ceiling of a request, `none` where it is invalid.
  unfoldable pub max_cost_of : ActionRequest → Option F
  unfolding argument trim_space
  max_cost_of request =
      let raw = trim_space (argument request "max-cost") in
      if raw == "" then some fzero else elim (parsers.parse_float raw) [
        | none ↦ none
        | some value ↦ if fl.lt value fzero || is_nonfinite value then none else some value
      ]

  unfoldable pub output_tokens_valid : ActionRequest → Bool
  unfolding argument
  output_tokens_valid request =
      let raw = argument request "max-output-tokens" in
      if raw == ""
      then true
      else elim (parsers.atoi raw) [ none ↦ false | some value ↦ is_positive value ]

  unfoldable pub task_with_cost : ⦃u : Unicode⦄ → ActionRequest → String → F → TaskSpec F
  unfolding argument infer_kind requires_executable_runtime split_request_list
  task_with_cost request objective max_cost =
      let kind = argument request "kind" in
      let risk = argument request "risk" in
      record {
        id = argument request "task-id";
        kind = if kind == "" then infer_kind objective else kind;
        role = "";
        complexity = "";
        objective = objective;
        admission_objective = "";
        context = "";
        constraints = [];
        required_tools = split_request_list (argument request "required-tools");
        requires_executable_tools =
            argument request "requires-executable-tools" == "true"
            || requires_executable_runtime objective;
        success_criteria = split_request_list (argument request "criteria");
        risk = if risk == "" then "medium" else risk;
        max_cost_usd = max_cost;
        max_tokens = pos 0;
        execution_max_output_tokens = pos 0;
        source = "tui";
        exclude_from_private_capture = false;
        private_capture_workspace_independent = false;
        skip_models = [];
        runtime_filter = argument request "runtime";
        provider_filter = argument request "provider";
      }

  -- taskFromRequest
  unfoldable pub task_from_request : ⦃u : Unicode⦄ → ActionRequest → String → Parsed (TaskSpec F)
  unfolding max_cost_of output_tokens_valid task_with_cost
  task_from_request request objective = elim (max_cost_of request) [
    | none ↦ unparsed bad_max_cost
    | some max_cost ↦
        if output_tokens_valid request
        then parsed (task_with_cost request objective max_cost)
        else unparsed bad_max_output_tokens
  ]

  -- executionOptions: an argument that is no number counts as zero.
  unfoldable pub execution_options : ActionRequest → ℤ
  unfolding argument
  execution_options request = elim (parsers.atoi (argument request "max-output-tokens")) [
    | none ↦ pos 0
    | some tokens ↦ tokens
  ]

  -- A duration above zero
  unfoldable pub positive_duration : String → Option ℤ
  positive_duration raw = elim (parsers.parse_duration raw) [
    | none ↦ none
    | some d ↦ if is_positive d then some d else none
  ]

  -- The text of the admission timeout: for a route, the timeout stands in.
  unfoldable pub admission_timeout_text : ActionRequest → String
  unfolding argument trim_space
  admission_timeout_text request =
      let own = trim_space (argument request "admission-timeout") in
      if request.action_id == "route" && own == ""
      then trim_space (argument request "timeout")
      else own

  unfoldable pub admission_timeout_of : ActionRequest → Parsed ℤ
  unfolding admission_timeout_text positive_duration
  admission_timeout_of request =
      let raw = admission_timeout_text request in
      if is_routing request && not (raw == "")
      then elim (positive_duration raw) [
        | none ↦ unparsed bad_admission_timeout
        | some timeout ↦ parsed timeout
      ]
      else parsed (pos 0)

  unfoldable pub timeout_valid : ActionRequest → Bool
  unfolding argument trim_space positive_duration
  timeout_valid request =
      let raw = trim_space (argument request "timeout") in
      if is_run request && not (raw == "")
      then elim (positive_duration raw) [ none ↦ false | some timeout ↦ true ]
      else true

  -- The checks of Execute before the action becomes active, and the admission timeout.
  unfoldable pub check_request : ActionRequest → Parsed ℤ
  unfolding argument trim_space timeout_valid admission_timeout_of
  check_request request =
      if not (is_zero request.version) && not (eq_ℤ request.version (pos 1))
      then unparsed bad_version
      else if is_routing request && trim_space (argument request "objective") == ""
      then unparsed objective_required
      else if timeout_valid request
      then admission_timeout_of request
      else unparsed bad_timeout
