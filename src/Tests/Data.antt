-- ===== src/Tests/Data.antt =====
-- A small world for the tests: two models, one that declines and one that accepts, and a clock.
use veto.Shared.{
  ℕ, ◌+◌, String, Bool, true, false, none, some, List, [], ◌∷◌, nat_eq, if◌then◌else◌,
}
use veto.Shared.Int.{pos}
use veto.Shared.Text.{Unicode, ◌==◌}
use veto.Router.Types.{TaskSpec, TaskKind, ModelCapabilities, RoutingSignal, ExecutionMetrics}
use veto.Router.Preferences.{CandidatePreferences}
use veto.Router.Registry.{neutral_signal}
use veto.Router.Decision.{DecisionCandidate, DecisionRequest, DecisionTelemetry}
use veto.Router.Executors.{Environment, Executor, AdmissionResult, AdmissionJson}
use veto.Router.Admission.{AdmissionGate}
use veto.Router.Measurement.{no_telemetry}
use Prim.Native.Char.{code}
use veto.Tests.Numbers.{Milli, number, milli_float64}

-- Letters without case.
instance abbrev pub caseless : Unicode
caseless = record { to_lower = λ c. c; folds = λ c d. nat_eq (code c) (code d) }

abbrev pub fix_bug : TaskSpec Milli
fix_bug = record {
  id = "t1";
  kind = "debug";
  role = "";
  complexity = "moderate";
  objective = "fix the bug";
  admission_objective = "";
  context = "";
  constraints = [];
  required_tools = "bash" ∷ [];
  requires_executable_tools = false;
  success_criteria = "tests pass" ∷ [];
  risk = "low";
  max_cost_usd = number (pos 500);
  max_tokens = pos 1000;
  execution_max_output_tokens = pos 0;
  source = "";
  exclude_from_private_capture = false;
  private_capture_workspace_independent = false;
  skip_models = [];
  runtime_filter = "";
  provider_filter = "";
}

abbrev pub large_model : String → ModelCapabilities Milli
large_model name = record {
  name = name;
  source = "builtin";
  provider = "xai";
  api_model = name;
  runtime = "";
  tier = "large";
  max_context_tokens = pos 100_000;
  supports_tools = some ("bash" ∷ "read" ∷ []);
  input_modalities = none;
  output_modalities = none;
  supported_parameters = none;
  cost_per_1k_input_usd = number (pos 2);
  cost_per_1k_output_usd = number (pos 6);
  cost_per_1k_input_unknown = false;
  cost_per_1k_output_unknown = false;
  strengths = "debug" ∷ [];
  weaknesses = [];
}

abbrev pub shy_model : ModelCapabilities Milli
shy_model = large_model "shy"

abbrev pub keen_model : ModelCapabilities Milli
keen_model = large_model "keen"

abbrev pub two_models : List (ModelCapabilities Milli)
two_models = shy_model ∷ keen_model ∷ []

abbrev pub answer : Bool → AdmissionJson Milli
answer accept = record {
  accept = accept;
  confidence = number (pos 900);
  reason_codes = [];
  estimated_tokens = pos 800;
  estimated_cost_usd = number (pos 10);
  suggested_alternative_model = "";
  required_task_changes = [];
}

abbrev pub answering : String → AdmissionResult Milli
answering output = record {
  output = output;
  error = none;
  usage = record {
    input_tokens = pos 10;
    cached_input_tokens = pos 0;
    cached_input_known = false;
    output_tokens = pos 5;
    total_tokens = pos 15;
    known = true;
  };
  cost_usd = number (pos 1);
  cost_known = true;
}

-- The world is the clock: each call takes five milliseconds.
abbrev pub speaker : String → Executor Milli ℕ
speaker output = record {
  run = λ timeout prompt w. (5_000_000 + w, answering output);
  admission_tools = none;
  accepts_options = none;
  admission_runtime_id = none;
}

abbrev pub idle_clock : Environment Milli ℕ
idle_clock = record {
  executor_for = λ name.
      if name == "keen"
      then some (speaker "{yes")
      else if name == "shy"
      then some (speaker "{no")
      else none;
  clock = λ w. w;
  context_error = λ w. none;
  decode = λ text. some (answer (text == "{yes"));
}

abbrev pub test_gate : AdmissionGate
test_gate = record { timeout = pos 20_000_000_000 }

abbrev pub neutral : String → TaskKind → RoutingSignal Milli
neutral name kind = neutral_signal

abbrev pub no_preferences : CandidatePreferences
no_preferences = record {
  pinned_models = [];
  pinned_providers = [];
  favorite_models = "keen" ∷ [];
  favorite_providers = [];
  allowed_models = [];
  allowed_providers = [];
  disabled_models = [];
  excluded_models = [];
  excluded_providers = [];
}

abbrev pub offered : ModelCapabilities Milli → DecisionCandidate Milli
offered m = record { model = m; tools = record { tools = []; known = true } }

abbrev pub two_offers : DecisionRequest Milli
two_offers = record {
  version = pos 1;
  task = fix_bug;
  candidates = offered shy_model ∷ offered keen_model ∷ [];
  shadow_route_id = "";
}

abbrev pub some_usage : DecisionTelemetry Milli
some_usage = record no_telemetry {
  input_tokens = pos 10;
  output_tokens = pos 5;
  total_tokens = pos 15;
  usage_known = true;
}

abbrev pub a_success : ExecutionMetrics Milli
a_success = record {
  status = "success";
  score = number (pos 800);
  score_known = true;
  input_tokens = pos 10;
  cached_input_tokens = pos 0;
  cached_input_known = false;
  output_tokens = pos 5;
  total_tokens = pos 15;
  usage_known = true;
  cost_usd = number (pos 3);
  cost_known = true;
  latency_ms = pos 40;
  latency_known = true;
}
