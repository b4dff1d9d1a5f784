-- ===== src/Application/Runner/Accounted.antt =====
-- Execute of internal/application/runner.go: every execution has one record and one last event, which
-- agree with its result.
use veto.Shared.{
  ◌≡◌, refl, ◌↔◌, inl, inr, String, Bool, true, false, Option, none, some, is_some, List, [], ◌∷◌,
  All, arith, if◌then◌else◌,
}
use veto.Shared.Int.{sub_ℕ}
use veto.Shared.Float.{Float64}
use veto.Shared.Text.{◌==◌, eq_iff, Unicode}
use veto.Router.Types.{TaskSpec, ModelCapabilities, AdmissionDecision, ExecutionMetrics}
use veto.Router.Routing.{RouteResult, routed, not_routed}
use veto.Application.Execution.{
  Runtime, ExecutionResult, Chunk, text, reported, Performed, ContextError, deadline_exceeded,
  canceled, RunError, execution_status, validate_execution_result, execution_metrics, perform,
}
use veto.Application.Runner.Given.{Runs, perform-Runs, chunk_calls-IsPassedOn}
use veto.Application.Runner.Recorded.{IsEnd, IsOutput, IsAccounted, task_of}
use veto.Application.Runner.{
  ExecutionEvent, started, RouterPort, Runner, Request, Executed, chunk_calls, started_metrics,
  final_kind, final_status, finish, run_performed, execute_with, run_on, run_routed, execute,
  prompt_for, route_request,
}

different : (a : String) → (a == "completed") ≡ false → ¬ (a ≡ "completed")
different a d h = ground (arith, eq_iff a "completed")

failed_status :
    (context : Option ContextError) (truncated : Bool)
    → ¬ ((if truncated then "truncated" else execution_status context "error") ≡ "completed")
unfolding execution_status
failed_status context true = different "truncated" refl
failed_status none false = different "error" refl
failed_status (some deadline_exceeded) false = different "timeout" refl
failed_status (some canceled) false = different "canceled" refl

output_written :
    (err : Option RunError) (streamed : Bool)
    → ((if is_some err then false else streamed) ≡ true) ↔ ((err ≡ none) × (streamed ≡ true))
output_written none streamed = (λ h. (refl, h), λ h. h.1)
output_written (some e) streamed = (λ h. cc, λ h. cc h.0)

final_kind-IsEnd : (err : Option RunError) → IsEnd err (final_kind err)
final_kind-IsEnd none = inl (refl, refl)
final_kind-IsEnd (some e) = inr (refl, refl)

module _ {F : Type 0} ⦃fl : Float64 F⦄ where
  chunk_calls-outputs :
      (has_writer : Bool) (id : String) (model : ModelCapabilities F) (chunks : List Chunk)
      → All IsOutput (chunk_calls has_writer id model chunks)
  unfolding chunk_calls
  chunk_calls-outputs has_writer id model [] = tt
  chunk_calls-outputs true id model (text t ∷ chunks) =
      (tt, chunk_calls-outputs true id model chunks)
  chunk_calls-outputs false id model (text t ∷ chunks) = chunk_calls-outputs false id model chunks
  chunk_calls-outputs has_writer id model (reported e ∷ chunks) =
      (tt, chunk_calls-outputs has_writer id model chunks)

  final_status-completed :
      (context : Option ContextError) (result : ExecutionResult F) (err : Option RunError)
      → (final_status context result err ≡ "completed") ↔ (err ≡ none)
  unfolding final_status
  final_status-completed context result none = (λ h. refl, λ h. refl)
  final_status-completed context result (some e) =
      (λ h. absurd (failed_status context result.truncated h), λ h. cc)

  abbrev start_of : TaskSpec F → ModelCapabilities F → ExecutionEvent F
  start_of task model = record {
    kind = started;
    task_id = task.id;
    model = model;
    metrics = started_metrics;
    detail = none;
  }

  abbrev end_of :
      TaskSpec F → ModelCapabilities F → ExecutionMetrics F → Option RunError → ExecutionEvent F
  end_of task model metrics err = record {
    kind = final_kind err;
    task_id = task.id;
    model = model;
    metrics = metrics;
    detail = err;
  }

  module _ {W : Type 0} ⦃u : Unicode⦄ where
    abbrev Accounts :
        Option (String → Option (Runtime F W)) → Request F → TaskSpec F → Executed F W → Type 0
    Accounts runtime_for request task x = IsAccounted runtime_for request task x.calls x.outcome

    run_performed-Accounts :
        (runner : Runner F W) (port : RouterPort F W) (find : String → Option (Runtime F W))
        (request : Request F) (task : TaskSpec F) (model : ModelCapabilities F)
        (decision : AdmissionDecision F) (w : W) (runtime : Runtime F W) (prompt : String)
        (done : Option (W × Performed F))
        → find model.name ≡ some runtime
        → Runs request.has_writer runtime prompt request.max_output_tokens w done
        → Accounts
            (some find)
            request
            task
            (run_performed runner port request task model decision w done)
    unfolding run_performed finish
    run_performed-Accounts runner port find request task model decision w runtime prompt none e
          run =
        inr (start_of task model, refl, refl, (refl, refl), refl)
    run_performed-Accounts runner port find request task model decision w runtime prompt
          (some (w', p)) e run =
        let err = validate_execution_result p.result in
        let context = runner.context_error w' in
        let metrics =
          execution_metrics model p.result (sub_ℕ (runner.now w') (runner.now w))
            (final_status context p.result err) in
        (
          find,
          refl,
          record {
            runtime = runtime;
            registered = e;
            prompt = prompt;
            before = w;
            given = p;
            run = run;
            response = (refl, refl, refl);
            begun = start_of task model;
            starts = (refl, (refl, refl));
            during = chunk_calls request.has_writer task.id model p.chunks;
            passed = chunk_calls-IsPassedOn request.has_writer task.id model p.chunks;
            outputs = chunk_calls-outputs request.has_writer task.id model p.chunks;
            metrics = metrics;
            ended = end_of task model metrics err;
            ends = (final_kind-IsEnd err, (refl, refl), refl, refl);
            in_order = refl;
            verdict = refl;
            status = final_status-completed context p.result err;
            delivered = output_written err p.streamed;
          },
        )

    run_on-Accounts :
        (runner : Runner F W) (port : RouterPort F W) (find : String → Option (Runtime F W))
        (request : Request F) (task : TaskSpec F) (model : ModelCapabilities F)
        (decision : AdmissionDecision F) (w : W) (runtime : Option (Runtime F W))
        → find model.name ≡ runtime
        → Accounts
            (some find)
            request
            task
            (run_on runner port request task model decision w runtime)
    unfolding run_on
    run_on-Accounts runner port find request task model decision w none e = inl (refl, refl)
    run_on-Accounts runner port find request task model decision w (some runtime) e =
        let prompt = prompt_for runtime task request.skills in
        let budget = request.max_output_tokens in
        run_performed-Accounts runner port find request task model decision w runtime prompt
          (perform request.has_writer runtime prompt budget w) e
          (perform-Runs runtime prompt budget w request.has_writer)

    run_routed-Accounts :
        (runner : Runner F W) (port : RouterPort F W) (find : String → Option (Runtime F W))
        (request : Request F) (task : TaskSpec F) (result : W × RouteResult F)
        → Accounts (some find) request task (run_routed runner port find request task result)
    unfolding run_routed
    run_routed-Accounts runner port find request task (w, not_routed e) = refl
    run_routed-Accounts runner port find request task (w, routed model decision) =
        run_on-Accounts runner port find request task model decision w (find model.name) refl

    execute_with-Accounts :
        (runner : Runner F W) (router : Option (RouterPort F W))
        (runtime_for : Option (String → Option (Runtime F W))) (request : Request F) (w : W)
        → Accounts runtime_for request
            (task_of request)
            (execute_with runner router runtime_for request w)
    unfolding execute_with
    execute_with-Accounts runner none runtime_for request w = refl
    execute_with-Accounts runner (some port) none request w = refl
    execute_with-Accounts runner (some port) (some find) request w =
        run_routed-Accounts runner port find request (task_of request)
          (route_request port request (task_of request) w)

    -- Execute makes no call where it returns an empty response. Where it returns only the selection it
    -- makes none, for want of an executor, or emits the start, for a runtime that executes no tasks.
    -- Otherwise the response is what the runtime that is registered for the model gave back: from its
    -- executor of events, or for a writer from its stream, or from its executor of tasks. Execute emits
    -- the start, passes on every event of the runtime, and its texts to a writer, in order, records the
    -- metrics once and emits them in one last event. That event is of the kind for completed, and the
    -- status of the metrics says so too, exactly where Execute returns no error, and of the kind for
    -- failed otherwise. The error is the one of ValidateExecutionResult, and the output counts as
    -- written exactly where there is no error and it was streamed.
    pub execute-IsAccounted :
        (runner : Runner F W) (request : Request F) (w : W)
        → let x = execute runner request w in
          IsAccounted runner.runtime_for request (task_of request) x.calls x.outcome
    unfolding execute
    execute-IsAccounted runner request w =
        execute_with-Accounts runner runner.router runner.runtime_for request w
