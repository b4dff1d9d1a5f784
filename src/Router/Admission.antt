-- ===== src/Router/Admission.antt =====
-- pkg/router/admission.go: one admission check of one model.
-- `W` is the state of the world outside the router. What an executor answers, the clock, the
-- cancellation of the context and the JSON decoder are parameters.
pub mod Policy
use Prim.Native.Nat.{◌/◌}
use Prim.Native.String.{len, slice}
use veto.Shared.{
  ℕ, suc, ◌+◌, ◌^◌, String, Bool, true, false, not, ◌&&◌, ◌||◌, Option, none, some, List, [], ◌∷◌,
  if◌then◌else◌,
}
use veto.Shared.Int.{ℤ, pos, negsuc, sub_ℕ, is_positive, is_negative}
use veto.Shared.Float.{Float64, fzero, gt, is_nonfinite}
use veto.Shared.Text.{◌==◌, trim_space, concat}
use text.Mathlib.Text.{find?}
use veto.Router.Types.{
  TaskSpec, ModelCapabilities, AdmissionDecision, reason_parse_failure, reason_cost_ceiling,
  reason_low_confidence,
}
use veto.Router.Decision.{ToolCapabilities, DecisionTelemetry}
use veto.Router.Prompt.{build_admission_prompt}
use veto.Router.Executors.{AdmissionResult, AdmissionJson, Executor, Environment}
use veto.Router.Measurement.{milliseconds, no_telemetry, measured}

-- An answer to `AskWithTimeoutMeasured`: the decision, the telemetry and the error.
pub record Asked (F : Type 0) : Type 0 where
  pub decision : AdmissionDecision F
  pub telemetry : DecisionTelemetry F
  pub error : Option String

-- AdmissionGate, less its factory
pub record AdmissionGate : Type 0 where
  pub timeout : ℤ

abbrev pub admission_model_timeout : ℤ
admission_model_timeout = pos 20_000_000_000

unfoldable pub new_admission_gate : AdmissionGate
new_admission_gate = record { timeout = admission_model_timeout }

-- AdmissionGate.SetTimeout
unfoldable pub set_timeout : AdmissionGate → ℤ → AdmissionGate
set_timeout g timeout = if is_positive timeout then record g { timeout = timeout } else g

unfoldable pub effective_timeout : AdmissionGate → ℤ → ℤ
effective_timeout g override =
    let timeout = if is_positive override then override else g.timeout in
    if is_positive timeout then timeout else admission_model_timeout

module _ {F : Type 0} ⦃fl : Float64 F⦄ where
  abbrev pub no_decision : AdmissionDecision F
  no_decision = record {
    accept = false;
    confidence = fzero;
    confidence_unknown = false;
    reason_codes = [];
    estimated_tokens = pos 0;
    estimated_cost_usd = fzero;
    suggested_alternative_model = "";
    required_task_changes = [];
    shadow_route_id = "";
  }

  abbrev pub rejection : String → AdmissionDecision F
  rejection reason = record no_decision { reason_codes = reason ∷ [] }

  abbrev of_json : AdmissionJson F → AdmissionDecision F
  of_json j = record no_decision {
    accept = j.accept;
    confidence = j.confidence;
    reason_codes = j.reason_codes;
    estimated_tokens = j.estimated_tokens;
    estimated_cost_usd = j.estimated_cost_usd;
    suggested_alternative_model = j.suggested_alternative_model;
    required_task_changes = j.required_task_changes;
  }

  -- parseAdmissionJSON: the decoder is given the output from its first brace on.
  unfoldable pub parse_admission_json :
      (String → Option (AdmissionJson F)) → String → Option (AdmissionDecision F)
  parse_admission_json decode output = elim (find? output "{") [
    | none ↦ none
    | some start ↦ elim (decode (slice output start (len output))) [
      | none ↦ none
      | some j ↦ some (of_json j)
    ]
  ]

  -- What the gate makes of a parsed answer.
  unfoldable pub check_policy : TaskSpec F → AdmissionDecision F → AdmissionDecision F
  check_policy task decision =
      if decision.accept
        && gt task.max_cost_usd fzero
        && gt decision.estimated_cost_usd task.max_cost_usd
      then record (rejection reason_cost_ceiling) {
        confidence = decision.confidence;
        estimated_cost_usd = decision.estimated_cost_usd;
      }
      else if decision.accept && fl.lt decision.confidence (fl.lit 7 1)
      then rejection reason_low_confidence
      else decision

  -- The end of AskWithTimeoutMeasured, once the executor has answered.
  unfoldable pub judge :
      (String → Option (AdmissionJson F)) → TaskSpec F → AdmissionResult F → ℤ → Asked F
  unfolding measured parse_admission_json check_policy
  judge decode task result latency =
      let telemetry = measured result latency in
      elim result.error [
        | some e ↦ record {
          decision = rejection reason_parse_failure;
          telemetry = telemetry;
          error = some e;
        }
        | none ↦ record {
          decision = elim (parse_admission_json decode result.output) [
            | some decision ↦ check_policy task decision
            | none ↦ rejection reason_parse_failure
          ];
          telemetry = telemetry;
          error = none;
        }
      ]

  module _ {W : Type 0} (env : Environment F W) (g : AdmissionGate) where
    -- AdmissionGate.tools
    unfoldable pub gate_tools : ModelCapabilities F → ToolCapabilities
    gate_tools model = elim (env.executor_for model.name) [
      | none ↦ record { tools = []; known = false }
      | some exec ↦ elim exec.admission_tools [
        | none ↦ record { tools = []; known = true }
        | some capabilities ↦ capabilities
      ]
    ]

    -- AdmissionGate.SupportsExecutionOptions
    unfoldable pub supports_execution_options : TaskSpec F → ModelCapabilities F → Bool
    supports_execution_options task model =
        if not (is_positive task.execution_max_output_tokens)
        then true
        else elim (env.executor_for model.name) [
          | none ↦ true
          | some exec ↦ elim exec.accepts_options [
            | none ↦ true
            | some accepts ↦ accepts task.execution_max_output_tokens
          ]
        ]

    -- AdmissionGate.RuntimeIdentity
    unfoldable pub runtime_identity : ModelCapabilities F → String
    unfolding trim_space
    runtime_identity model =
        let by_model = concat "model:" model.name in
        elim (env.executor_for model.name) [
          | none ↦ by_model
          | some exec ↦ elim exec.admission_runtime_id [
            | none ↦ by_model
            | some id ↦ if trim_space id == "" then by_model else concat "runtime:" (trim_space id)
          ]
        ]

    -- The tools that the prompt names, and whether they are known.
    abbrev pub advertised : Executor F W → ToolCapabilities
    advertised exec = elim exec.admission_tools [
      | none ↦ record { tools = []; known = true }
      | some capabilities ↦ capabilities
    ]

    unfoldable pub call :
        Executor F W → TaskSpec F → ModelCapabilities F → ℤ → W → W × AdmissionResult F
    call exec task model override w =
        exec.run (effective_timeout g override)
          (build_admission_prompt task model (advertised exec).tools (advertised exec).known) w

    -- AdmissionGate.AskWithTimeoutMeasured, with what ExecutorFactory.For returned
    unfoldable pub ask_found :
        Option (Executor F W) → TaskSpec F → ModelCapabilities F → ℤ → W → W × Asked F
    unfolding judge call milliseconds
    ask_found none task model override w = (
      w,
      record {
        decision = rejection reason_parse_failure;
        telemetry = no_telemetry;
        error = some "no executor registered for model";
      },
    )
    ask_found (some exec) task model override w =
        let (w', result) = call exec task model override w in
        (w', judge env.decode task result (milliseconds (sub_ℕ (env.clock w') (env.clock w))))

    unfoldable pub ask_with_timeout_measured :
        TaskSpec F → ModelCapabilities F → ℤ → W → W × Asked F
    unfolding ask_found
    ask_with_timeout_measured task model override w =
        ask_found (env.executor_for model.name) task model override w
