-- ===== src/Application/Ports.antt =====
-- internal/application/runner.go: the ports, the requests and the results of a run, and the calls that
-- leave it.
use veto.Shared.{ℕ, String, Bool, Option, List}
use veto.Shared.Int.{ℤ}
use veto.Router.Types.{TaskSpec, ModelCapabilities, AdmissionDecision, ExecutionMetrics}
use veto.Router.Routing.{RouteResult}
use veto.Application.Execution.{Runtime, RuntimeEvent, ExecutionResult, ContextError, RunError}

-- Router, with the optional interfaces timedRouter and decisionExecutionRecorder
pub record RouterPort (F W : Type 0) : Type 0 where
  pub route_task : TaskSpec F → W → W × RouteResult F
  pub route_with_admission_timeout : Option (TaskSpec F → ℤ → W → W × RouteResult F)
  pub record_execution : TaskSpec F → String → ExecutionMetrics F → W → W
  pub record_execution_for_decision :
      Option (TaskSpec F → String → AdmissionDecision F → ExecutionMetrics F → W → W)

-- Runner, with its clock and its context. `none` is a nil interface.
pub record Runner (F W : Type 0) : Type 0 where
  pub router : Option (RouterPort F W)
  pub runtime_for : Option (String → Option (Runtime F W))
  pub now : W → ℕ
  pub context_error : W → Option ContextError

-- Request. Of the writer only its presence counts.
pub record Request (F : Type 0) : Type 0 where
  pub task : TaskSpec F
  pub skills : List String
  pub admission_timeout : ℤ
  pub max_output_tokens : ℤ
  pub has_writer : Bool

pub data ExecutionEventKind : Type 0 where
  started completed failed : ExecutionEventKind

pub record ExecutionEvent (F : Type 0) : Type 0 where
  pub kind : ExecutionEventKind
  pub task_id : String
  pub model : ModelCapabilities F
  pub metrics : ExecutionMetrics F
  pub detail : Option RunError

-- The calls that leave the use case, in order: of a hook, the writer, or the router's recorder.
pub data Call (F : Type 0) : Type 0 where
  emitted : ExecutionEvent F → Call F
  runtime_emitted : String → ModelCapabilities F → RuntimeEvent → Call F
  wrote : String → Call F
  recorded : TaskSpec F → String → AdmissionDecision F → ExecutionMetrics F → Call F

pub record Response (F : Type 0) : Type 0 where
  pub model : ModelCapabilities F
  pub decision : AdmissionDecision F
  pub output : String
  pub result : ExecutionResult F
  pub output_written : Bool
  pub streamed : Bool

-- What Execute returns: an error with an empty response, one with the selection only, or a response
-- and its error.
pub data Outcome (F : Type 0) : Type 0 where
  rejected : RunError → Outcome F
  selected : ModelCapabilities F → AdmissionDecision F → RunError → Outcome F
  ran : Response F → Option RunError → Outcome F

pub record Executed (F W : Type 0) : Type 0 where
  pub world : W
  pub calls : List (Call F)
  pub outcome : Outcome F
