-- ===== src/Application/Runner.antt =====
-- internal/application/runner.go: Execute, from the route of a task to the record of its execution.
pub mod Given
pub mod Recorded
pub mod Accounted
use veto.Shared.{
  ℕ, String, Bool, true, false, Option, none, some, is_some, List, [], ◌∷◌, ◌++◌, map,
  if◌then◌else◌,
}
use veto.Shared.Int.{ℤ, pos, sub_ℕ, is_positive}
use veto.Shared.Float.{Float64, fzero}
use veto.Shared.Text.{concat, Unicode}
use veto.Router.Types.{TaskSpec, ModelCapabilities, AdmissionDecision, ExecutionMetrics}
use veto.Router.Executors.{Environment}
use veto.Router.Routing.{RouteResult, routed, not_routed, Manager, route}
pub use veto.Application.Ports.{
  RouterPort, Runner, Request, ExecutionEventKind, started, completed, failed, ExecutionEvent, Call,
  emitted, runtime_emitted, wrote, recorded, Response, Outcome, rejected, selected, ran, Executed,
}
use veto.Application.Prompt.{build_execution_prompt, text_only_instruction}
use veto.Application.Execution.{
  Runtime, RuntimeEvent, ExecutionResult, Chunk, text, reported, Performed, ContextError, RunError,
  nil_router, nil_runtime, route_failed, no_executor, not_supported, is_text_only_runtime,
  execution_status, validate_execution_result, execution_metrics, perform,
}

-- The kind of the last event of an execution.
abbrev pub final_kind : Option RunError → ExecutionEventKind
final_kind none = completed
final_kind (some e) = failed

module _ {F : Type 0} ⦃fl : Float64 F⦄ where
  -- The calls for what a runtime gave back.
  unfoldable pub chunk_calls : Bool → String → ModelCapabilities F → List Chunk → List (Call F)
  chunk_calls has_writer task_id model [] = []
  chunk_calls has_writer task_id model (text t ∷ chunks) =
      let rest = chunk_calls has_writer task_id model chunks in
      if has_writer then wrote t ∷ rest else rest
  chunk_calls has_writer task_id model (reported e ∷ chunks) =
      runtime_emitted task_id model e ∷ chunk_calls has_writer task_id model chunks

  abbrev pub started_metrics : ExecutionMetrics F
  started_metrics = record {
    status = "started";
    score = fzero;
    score_known = false;
    input_tokens = pos 0;
    cached_input_tokens = pos 0;
    cached_input_known = false;
    output_tokens = pos 0;
    total_tokens = pos 0;
    usage_known = false;
    cost_usd = fzero;
    cost_known = false;
    latency_ms = pos 0;
    latency_known = false;
  }

  abbrev pub started_event : TaskSpec F → ModelCapabilities F → Call F
  started_event task model = emitted (record {
    kind = started;
    task_id = task.id;
    model = model;
    metrics = started_metrics;
    detail = none;
  })

  -- The status of an execution
  unfoldable pub final_status : Option ContextError → ExecutionResult F → Option RunError → String
  unfolding execution_status
  final_status context result none = "completed"
  final_status context result (some e) =
      if result.truncated then "truncated" else execution_status context "error"

  abbrev pub final_event :
      TaskSpec F → ModelCapabilities F → ExecutionMetrics F → Option RunError → Call F
  final_event task model metrics err = emitted (record {
    kind = final_kind err;
    task_id = task.id;
    model = model;
    metrics = metrics;
    detail = err;
  })

  module _ {W : Type 0} where
    -- recordExecution
    unfoldable pub record_execution :
        RouterPort F W → TaskSpec F → String → AdmissionDecision F → ExecutionMetrics F → W → W
    record_execution port task name decision metrics w = elim port.record_execution_for_decision [
      | none ↦ port.record_execution task name metrics w
      | some record_for ↦ record_for task name decision metrics w
    ]

    -- The end of Execute, from the result of the runtime on.
    unfoldable pub finish :
        Runner F W
        → RouterPort F W
        → Request F
        → TaskSpec F
        → ModelCapabilities F
        → AdmissionDecision F
        → ℕ
        → W
        → Performed F
        → Executed F W
    unfolding record_execution chunk_calls final_status execution_metrics validate_execution_result
    finish runner port request task model decision start w p =
        let err = validate_execution_result p.result in
        let status = final_status (runner.context_error w) p.result err in
        let metrics = execution_metrics model p.result (sub_ℕ (runner.now w) start) status in
        record {
          world = record_execution port task model.name decision metrics w;
          calls =
              started_event task model ∷ chunk_calls request.has_writer task.id model p.chunks
              ++ recorded task model.name decision metrics
                ∷ final_event task model metrics err
                ∷ [];
          outcome =
              ran
                (record {
                  model = model;
                  decision = decision;
                  output = p.output;
                  result = p.result;
                  output_written = if is_some err then false else p.streamed;
                  streamed = p.streamed;
                })
                err;
        }

    -- The prompt that the runtime is given
    unfoldable pub prompt_for : ⦃u : Unicode⦄ → Runtime F W → TaskSpec F → List String → String
    unfolding build_execution_prompt is_text_only_runtime
    prompt_for runtime task skills =
        let prompt = build_execution_prompt task.objective skills in
        if is_text_only_runtime runtime then concat prompt text_only_instruction else prompt

    -- Execute on the runtime that was found for the model: with what the runtime did,
    unfoldable pub run_performed :
        Runner F W
        → RouterPort F W
        → Request F
        → TaskSpec F
        → ModelCapabilities F
        → AdmissionDecision F
        → W
        → Option (W × Performed F)
        → Executed F W
    unfolding finish
    run_performed runner port request task model decision w none = record {
      world = w;
      calls = started_event task model ∷ [];
      outcome = selected model decision (not_supported model.name);
    }
    run_performed runner port request task model decision w (some (w', p)) =
        finish runner port request task model decision (runner.now w) w' p

    -- and from there on, or without one.
    unfoldable pub run_on :
        ⦃u : Unicode⦄
        → Runner F W
        → RouterPort F W
        → Request F
        → TaskSpec F
        → ModelCapabilities F
        → AdmissionDecision F
        → W
        → Option (Runtime F W)
        → Executed F W
    unfolding perform run_performed prompt_for
    run_on runner port request task model decision w none = record {
      world = w;
      calls = [];
      outcome = selected model decision (no_executor model.name);
    }
    run_on runner port request task model decision w (some runtime) =
        run_performed runner port request task model decision w (
          perform request.has_writer runtime (prompt_for runtime task request.skills)
            request.max_output_tokens w)

    -- The choice between the two routes of the port
    unfoldable pub route_request : RouterPort F W → Request F → TaskSpec F → W → W × RouteResult F
    route_request port request task w =
        if is_positive request.admission_timeout
        then elim port.route_with_admission_timeout [
          | none ↦ port.route_task task w
          | some timed ↦ timed task request.admission_timeout w
        ]
        else port.route_task task w

    unfoldable pub run_routed :
        ⦃u : Unicode⦄
        → Runner F W
        → RouterPort F W
        → (String → Option (Runtime F W))
        → Request F
        → TaskSpec F
        → W × RouteResult F
        → Executed F W
    unfolding run_on
    run_routed runner port runtime_for request task (w, not_routed e) = record {
      world = w;
      calls = [];
      outcome = rejected (route_failed e);
    }
    run_routed runner port runtime_for request task (w, routed model decision) =
        run_on runner port request task model decision w (runtime_for model.name)

    -- Execute, with the two ports of the runner
    unfoldable pub execute_with :
        ⦃u : Unicode⦄
        → Runner F W
        → Option (RouterPort F W)
        → Option (String → Option (Runtime F W))
        → Request F
        → W
        → Executed F W
    unfolding run_routed route_request
    execute_with runner none runtime_for request w = record {
      world = w;
      calls = [];
      outcome = rejected nil_router;
    }
    execute_with runner (some port) none request w = record {
      world = w;
      calls = [];
      outcome = rejected nil_runtime;
    }
    execute_with runner (some port) (some runtime_for) request w =
        let task = record request.task {
          execution_max_output_tokens = request.max_output_tokens;
        } in
        run_routed runner port runtime_for request task (route_request port request task w)

    unfoldable pub execute : ⦃u : Unicode⦄ → Runner F W → Request F → W → Executed F W
    unfolding execute_with
    execute runner request w = execute_with runner runner.router runner.runtime_for request w

    -- The manager of pkg/router as the port, where `record_metrics` is its RecordExecutionForDecision
    abbrev pub manager_port :
        ⦃u : Unicode⦄
        → Environment F W
        → Manager F W
        → (TaskSpec F → String → ExecutionMetrics F → W → W)
        → (TaskSpec F → String → AdmissionDecision F → ExecutionMetrics F → W → W)
        → RouterPort F W
    manager_port env m record_metrics record_for = record {
      route_task = λ task w. let r = route env m task (pos 0) w in (r.world, r.result);
      route_with_admission_timeout =
          some (λ task timeout w. let r = route env m task timeout w in (r.world, r.result));
      record_execution = record_metrics;
      record_execution_for_decision = some record_for;
    }
