-- ===== src/Application/Runner/Recorded.antt =====
-- What Execute of internal/application/runner.go does, by its outcome: the calls that it makes, and the
-- runtime that its response comes from.
use veto.Shared.{◌≡◌, ◌↔◌, ◌⊎◌, String, true, Option, none, some, is_some, List, [], ◌∷◌, ◌++◌, All}
use veto.Shared.Float.{Float64}
use veto.Router.Types.{TaskSpec, ModelCapabilities, ExecutionMetrics}
use veto.Application.Execution.{
  Runtime, Performed, RunError, no_executor, not_supported, validate_execution_result,
}
use veto.Application.Runner.Given.{IsRun, IsPassedOn}
use veto.Application.Runner.{
  ExecutionEvent, ExecutionEventKind, started, completed, failed, Request, Call, wrote,
  runtime_emitted, emitted, recorded, Response, Outcome, rejected, selected, ran,
}

-- The kind of the last event of an execution, by the error that Execute returns.
abbrev pub IsEnd : Option RunError → ExecutionEventKind → Type 0
IsEnd err kind = ((err ≡ none) × (kind ≡ completed)) ⊎ ((is_some err ≡ true) × (kind ≡ failed))

module _ {F : Type 0} ⦃fl : Float64 F⦄ where
  -- A call that passes on what the runtime gives back.
  abbrev pub IsOutput : Call F → Type 0
  IsOutput (wrote t) = Unit
  IsOutput (runtime_emitted id model e) = Unit
  IsOutput (emitted e) = ⊥
  IsOutput (recorded task name decision metrics) = ⊥

  -- An event of an execution of the task on the model.
  abbrev pub IsOf : TaskSpec F → ModelCapabilities F → ExecutionEvent F → Type 0
  IsOf task model event = (event.task_id ≡ task.id) × (event.model ≡ model)

  -- The calls and the response of an execution on a runtime.
  pub record IsRecorded {W : Type 0} (find : String → Option (Runtime F W)) (request : Request F)
      (task : TaskSpec F) (calls : List (Call F)) (r : Response F) (err : Option RunError)
      : Type 0 where
    pub runtime : Runtime F W
    pub registered : find r.model.name ≡ some runtime
    pub prompt : String
    pub before : W
    pub given : Performed F
    pub run : IsRun request.has_writer runtime prompt request.max_output_tokens before given
    pub response :
        (r.result ≡ given.result) × (r.output ≡ given.output) × (r.streamed ≡ given.streamed)
    pub begun : ExecutionEvent F
    pub starts : (begun.kind ≡ started) × IsOf task r.model begun
    pub during : List (Call F)
    pub passed : IsPassedOn request.has_writer task.id r.model given.chunks during
    pub outputs : All IsOutput during
    pub metrics : ExecutionMetrics F
    pub ended : ExecutionEvent F
    pub ends :
        IsEnd err ended.kind
        × IsOf task r.model ended
        × (ended.metrics ≡ metrics)
        × (ended.detail ≡ err)
    pub in_order :
        calls
        ≡ emitted begun ∷ during
          ++ recorded task r.model.name r.decision metrics ∷ emitted ended ∷ []
    pub verdict : err ≡ validate_execution_result r.result
    pub status : (metrics.status ≡ "completed") ↔ (err ≡ none)
    pub delivered : (r.output_written ≡ true) ↔ ((err ≡ none) × (r.streamed ≡ true))

  abbrev pub IsAccounted :
      {W : Type 0}
      → Option (String → Option (Runtime F W))
      → Request F
      → TaskSpec F
      → List (Call F)
      → Outcome F
      → Type 0
  IsAccounted {W} runtime_for request task calls (rejected e) = calls ≡ []
  IsAccounted {W} runtime_for request task calls (selected model decision e) =
      ((calls ≡ []) × (e ≡ no_executor model.name))
      ⊎ ((begun : ExecutionEvent F) × (calls ≡ emitted begun ∷ [])
          × (begun.kind ≡ started)
          × IsOf task model begun
          × (e ≡ not_supported model.name))
  IsAccounted {W} runtime_for request task calls (ran r err) =
      (find : String → Option (Runtime F W)) × (runtime_for ≡ some find)
      × IsRecorded find request task calls r err

  -- The task that is routed, with the output budget of the request.
  abbrev pub task_of : Request F → TaskSpec F
  task_of request = record request.task { execution_max_output_tokens = request.max_output_tokens }
