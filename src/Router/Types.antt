-- ===== src/Router/Types.antt =====
-- pkg/router/types.go: tasks, models, decisions and measurements. `F` is the type of float64.
-- A slice whose nil value has a meaning of its own is an `Option`, with `none` for nil.
use veto.Shared.{String, Bool, ◌||◌, Option, none, some, List, [], ◌∷◌, if◌then◌else◌}
use veto.Shared.Int.{ℤ}
use veto.Shared.Text.{◌==◌, Unicode, to_lower, trim_space, contains}

abbrev pub TaskKind : Type 0
TaskKind = String

abbrev pub TaskRole : Type 0
TaskRole = String

abbrev pub Risk : Type 0
Risk = String

abbrev pub Complexity : Type 0
Complexity = String

abbrev pub kind_extract : TaskKind
kind_extract = "extract"

abbrev pub kind_summarize : TaskKind
kind_summarize = "summarize"

abbrev pub kind_code_change : TaskKind
kind_code_change = "code-change"

abbrev pub kind_debug : TaskKind
kind_debug = "debug"

abbrev pub kind_plan : TaskKind
kind_plan = "plan"

abbrev pub kind_review : TaskKind
kind_review = "review"

abbrev pub kind_refactor : TaskKind
kind_refactor = "refactor"

abbrev pub roles : List TaskRole
roles =
    "unspecified" ∷ "orchestrator" ∷ "explorer" ∷ "worker" ∷ "tester" ∷ "reviewer" ∷ "researcher"
    ∷ []

-- NormalizeTaskRole; `none` is its error.
unfoldable pub normalize_task_role : ⦃u : Unicode⦄ → TaskRole → Option TaskRole
unfolding to_lower trim_space contains
normalize_task_role role =
    let normalized = to_lower (trim_space role) in
    if normalized == ""
    then some "unspecified"
    else if contains roles normalized
    then some normalized
    else none

-- TaskRole.IsZero
unfoldable pub role_is_zero : TaskRole → Bool
role_is_zero r = r == "" || r == "unspecified"

-- TaskRole.UnmarshalJSON, after the text has been decoded.
unfoldable pub role_of_text : ⦃u : Unicode⦄ → String → Option TaskRole
unfolding normalize_task_role
role_of_text raw = elim (normalize_task_role raw) [
  | none ↦ none
  | some normalized ↦ some (if normalized == "unspecified" then "" else normalized)
]

abbrev pub complexity_simple : Complexity
complexity_simple = "simple"

abbrev pub complexity_moderate : Complexity
complexity_moderate = "moderate"

abbrev pub complexity_complex : Complexity
complexity_complex = "complex"

abbrev pub reason_missing_tool : String
reason_missing_tool = "MISSING_REQUIRED_TOOL"

abbrev pub reason_context_too_large : String
reason_context_too_large = "CONTEXT_TOO_LARGE"

abbrev pub reason_cost_ceiling : String
reason_cost_ceiling = "COST_CEILING_EXCEEDED"

abbrev pub reason_complexity_ceiling : String
reason_complexity_ceiling = "COMPLEXITY_TOO_HIGH"

abbrev pub reason_weak_kind : String
reason_weak_kind = "TASK_KIND_OUTSIDE_STRENGTHS"

abbrev pub reason_policy_excluded : String
reason_policy_excluded = "USER_POLICY_EXCLUDED"

abbrev pub reason_execution_option : String
reason_execution_option = "UNSUPPORTED_EXECUTION_OPTION"

abbrev pub reason_parse_failure : String
reason_parse_failure = "PARSE_FAILURE"

abbrev pub reason_low_confidence : String
reason_low_confidence = "LOW_CONFIDENCE"

pub record TaskSpec (F : Type 0) : Type 0 where
  pub id : String
  pub kind : TaskKind
  pub role : TaskRole
  pub complexity : Complexity
  pub objective : String
  pub admission_objective : String
  pub context : String
  pub constraints : List String
  pub required_tools : List String
  pub requires_executable_tools : Bool
  pub success_criteria : List String
  pub risk : Risk
  pub max_cost_usd : F
  pub max_tokens : ℤ
  pub execution_max_output_tokens : ℤ
  pub source : String
  pub exclude_from_private_capture : Bool
  pub private_capture_workspace_independent : Bool
  pub skip_models : List String
  pub runtime_filter : String
  pub provider_filter : String

pub record ModelCapabilities (F : Type 0) : Type 0 where
  pub name : String
  pub source : String
  pub provider : String
  pub api_model : String
  pub runtime : String
  pub tier : String
  pub max_context_tokens : ℤ
  pub supports_tools : Option (List String)
  pub input_modalities : Option (List String)
  pub output_modalities : Option (List String)
  pub supported_parameters : Option (List String)
  pub cost_per_1k_input_usd : F
  pub cost_per_1k_output_usd : F
  pub cost_per_1k_input_unknown : Bool
  pub cost_per_1k_output_unknown : Bool
  pub strengths : List TaskKind
  pub weaknesses : List TaskKind

pub record ModelIdentity : Type 0 where
  pub source : String
  pub provider : String
  pub model : String
  pub runtime : String

-- ModelCapabilities.Identity
unfoldable pub identity : {F : Type 0} → ModelCapabilities F → ModelIdentity
identity m = record {
  source = m.source;
  provider = m.provider;
  model = if m.api_model == "" then m.name else m.api_model;
  runtime = m.runtime;
}

pub record AdmissionDecision (F : Type 0) : Type 0 where
  pub accept : Bool
  pub confidence : F
  pub confidence_unknown : Bool
  pub reason_codes : List String
  pub estimated_tokens : ℤ
  pub estimated_cost_usd : F
  pub suggested_alternative_model : String
  pub required_task_changes : List String
  pub shadow_route_id : String

pub record RoutingSignal (F : Type 0) : Type 0 where
  pub historical_success_rate : F
  pub historical_reject_rate : F
  pub avg_eval_score : F
  pub eval_score_known : Bool
  pub recent_cost_usd : F
  pub recent_latency_ms : F
  pub avg_input_tokens : F
  pub avg_output_tokens : F
  pub avg_total_tokens : F
  pub usage_known : Bool
  pub cost_known : Bool
  pub latency_known : Bool

pub record ExecutionMetrics (F : Type 0) : Type 0 where
  pub status : String
  pub score : F
  pub score_known : Bool
  pub input_tokens : ℤ
  pub cached_input_tokens : ℤ
  pub cached_input_known : Bool
  pub output_tokens : ℤ
  pub total_tokens : ℤ
  pub usage_known : Bool
  pub cost_usd : F
  pub cost_known : Bool
  pub latency_ms : ℤ
  pub latency_known : Bool
