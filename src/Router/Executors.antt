-- ===== src/Router/Executors.antt =====
-- pkg/router/admission.go and pkg/execution/contracts.go: executors and what they answer.
-- `W` is the state of the world outside the router.
use veto.Shared.{ℕ, String, Bool, Option, List}
use veto.Shared.Int.{ℤ}
use veto.Router.Decision.{ToolCapabilities}
use veto.Router.Prompt.{AdmissionPrompt}

-- pkg/execution/contracts.go
pub record Usage : Type 0 where
  pub input_tokens : ℤ
  pub cached_input_tokens : ℤ
  pub cached_input_known : Bool
  pub output_tokens : ℤ
  pub total_tokens : ℤ
  pub known : Bool

pub record AdmissionResult (F : Type 0) : Type 0 where
  pub output : String
  pub error : Option String
  pub usage : Usage
  pub cost_usd : F
  pub cost_known : Bool

-- The wire format of a model's answer.
pub record AdmissionJson (F : Type 0) : Type 0 where
  pub accept : Bool
  pub confidence : F
  pub reason_codes : List String
  pub estimated_tokens : ℤ
  pub estimated_cost_usd : F
  pub suggested_alternative_model : String
  pub required_task_changes : List String

-- An executor: `run` is given the deadline of its context, in nanoseconds, and the prompt. The
-- other fields are the optional interfaces, `none` where the runtime lacks them.
pub record Executor (F W : Type 0) : Type 0 where
  pub run : ℤ → AdmissionPrompt → W → W × AdmissionResult F
  pub admission_tools : Option ToolCapabilities
  pub accepts_options : Option (ℤ → Bool)
  pub admission_runtime_id : Option String

pub record Environment (F W : Type 0) : Type 0 where
  -- ExecutorFactory.For
  pub executor_for : String → Option (Executor F W)
  -- the monotonic clock, in nanoseconds
  pub clock : W → ℕ
  -- ctx.Err()
  pub context_error : W → Option String
  -- json.Decoder.Decode
  pub decode : String → Option (AdmissionJson F)
