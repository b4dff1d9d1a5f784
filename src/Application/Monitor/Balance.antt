-- ===== src/Application/Monitor/Balance.antt =====
-- The count of active sessions over a run, and the channels of the subscribers.
use veto.Shared.{
  ℕ, suc, ◌-◌, ◌≡◌, refl, ap, ◌∙◌, ◌⊎◌, inl, inr, String, Option, List, [], ◌∷◌, ◌++◌, All, arith,
  Bool-cases,
}
use veto.Shared.Int.{ℤ}
use veto.Shared.Float.{Float64}
use veto.Shared.Text.{◌==◌, Unicode}
use veto.Router.Types.{TaskSpec}
use veto.Application.Execution.{
  Runtime, RunError, no_executor, not_supported, RuntimeEventKind, tool_started, tool_completed,
  tool_error, approval_requested, approval_granted, approval_denied, artifact_created,
}
use veto.Application.Runner.{
  Runner, Request, Response, Outcome, rejected, selected, ran, Call, emitted, runtime_emitted,
  wrote, recorded, ExecutionEvent, started, execute,
}
use veto.Application.Runner.Accounted.{execute-IsAccounted}
use veto.Application.Runner.Recorded.{IsOutput, IsEnd, IsRecorded, IsAccounted, task_of}
use veto.Application.Monitor.{
  MonitorSnapshot, ControlState, publish, count_kind, count_runtime, count_end, count_execution,
  observe_call, observe_calls,
}

after_one : (n : ℕ) → suc n - 1 ≡ n
after_one n = omega arith

module _ {F : Type 0} ⦃fl : Float64 F⦄ where
  abbrev pub sessions : ControlState F → ℕ
  sessions s = s.snapshot.monitor.active_sessions

  count_kind-sessions :
      (kind : RuntimeEventKind) (count : ℤ) (m : MonitorSnapshot F)
      → (count_kind kind count m).active_sessions ≡ m.active_sessions
  unfolding count_kind
  count_kind-sessions tool_started count m = refl
  count_kind-sessions tool_completed count m = refl
  count_kind-sessions tool_error count m = refl
  count_kind-sessions approval_requested count m = refl
  count_kind-sessions approval_granted count m = refl
  count_kind-sessions approval_denied count m = refl
  count_kind-sessions artifact_created count m = refl

  output-sessions :
      (call : Call F) (s : ControlState F)
      → IsOutput call
      → sessions (observe_call call s) ≡ sessions s
  unfolding observe_call publish count_runtime
  output-sessions (emitted e) s o = absurd o
  output-sessions (recorded task name decision metrics) s o = absurd o
  output-sessions (wrote t) s o = elim (Bool-cases (t == "")) [
    | inl blank ↦ rw blank refl
    | inr more ↦ rw more refl
  ]
  output-sessions (runtime_emitted id model e) s o =
      count_kind-sessions e.kind e.count s.snapshot.monitor

  observe_calls-append :
      (xs ys : List (Call F)) (s : ControlState F)
      → observe_calls (xs ++ ys) s ≡ observe_calls ys (observe_calls xs s)
  unfolding observe_calls
  observe_calls-append [] ys s = refl
  observe_calls-append (x ∷ xs) ys s = observe_calls-append xs ys (observe_call x s)

  outputs-sessions :
      (calls : List (Call F)) (s : ControlState F)
      → All IsOutput calls
      → sessions (observe_calls calls s) ≡ sessions s
  unfolding observe_calls
  outputs-sessions [] s o = refl
  outputs-sessions (call ∷ calls) s (o, os) =
      outputs-sessions calls (observe_call call s) os ∙ output-sessions call s o

  start-sessions :
      (e : ExecutionEvent F) (s : ControlState F)
      → e.kind ≡ started
      → sessions (observe_call (emitted e) s) ≡ suc (sessions s)
  unfolding observe_call publish count_execution
  start-sessions e s h = rw h refl

  end-sessions :
      (e : ExecutionEvent F) (err : Option RunError) (s : ControlState F)
      → IsEnd err e.kind
      → sessions (observe_call (emitted e) s) ≡ sessions s - 1
  unfolding observe_call publish count_execution count_end
  end-sessions e err s (inl (fine, h)) = rw h refl
  end-sessions e err s (inr (wrong, h)) = rw h refl

  run-sessions :
      {W : Type 0} (find : String → Option (Runtime F W)) (request : Request F) (task : TaskSpec F)
      (calls : List (Call F)) (r : Response F) (err : Option RunError) (s : ControlState F)
      → IsRecorded find request task calls r err
      → sessions (observe_calls calls s) ≡ sessions s
  unfolding observe_calls observe_call
  run-sessions find request task calls r err s h =
      let begun = observe_call (emitted h.begun) s in
      let last = recorded task r.model.name r.decision h.metrics ∷ emitted h.ended ∷ [] in
      let ended = observe_calls h.during begun in
      ap (λ cs. sessions (observe_calls cs s)) h.in_order
      ∙ ap sessions (observe_calls-append h.during last begun)
      ∙ end-sessions h.ended err ended h.ends.0
      ∙ ap (λ n. n - 1)
          (outputs-sessions h.during begun h.outputs ∙ start-sessions h.begun s h.starts.0)
      ∙ after_one (sessions s)

  -- What a run makes of the count.
  abbrev pub Counts : Outcome F → ControlState F → ControlState F → Type 0
  Counts (rejected e) before after = sessions after ≡ sessions before
  Counts (selected model decision e) before after =
      ((e ≡ no_executor model.name) × (sessions after ≡ sessions before))
      ⊎ ((e ≡ not_supported model.name) × (sessions after ≡ suc (sessions before)))
  Counts (ran r err) before after = sessions after ≡ sessions before

  accounted-Counts :
      {W : Type 0} (runtime_for : Option (String → Option (Runtime F W))) (request : Request F)
      (task : TaskSpec F) (calls : List (Call F)) (o : Outcome F) (s : ControlState F)
      → IsAccounted runtime_for request task calls o
      → Counts o s (observe_calls calls s)
  unfolding observe_calls
  accounted-Counts runtime_for request task calls (rejected e) s none_made =
      ap (λ cs. sessions (observe_calls cs s)) none_made
  accounted-Counts runtime_for request task calls (selected model decision e) s
        (inl (none_made, missing)) =
      inl (missing, ap (λ cs. sessions (observe_calls cs s)) none_made)
  accounted-Counts runtime_for request task calls (selected model decision e) s
        (inr (begun, only, starts, of_model, unsupported)) =
      inr
        (unsupported, ap (λ cs. sessions (observe_calls cs s)) only ∙ start-sessions begun s starts)
  accounted-Counts runtime_for request task calls (ran r err) s (find, same, h) =
      run-sessions find request task calls r err s h

  -- The calls of one Execute leave the count of active sessions as they find it, whatever the run
  -- returns, with one exception: for a runtime that supports no task execution the count is one
  -- higher than before.
  pub execute-Counts :
      {W : Type 0}
      → ⦃u : Unicode⦄ → (runner : Runner F W) (request : Request F) (w : W) (s : ControlState F)
      → let x = execute runner request w in Counts x.outcome s (observe_calls x.calls s)
  execute-Counts runner request w s =
      let x = execute runner request w in
      accounted-Counts runner.runtime_for request (task_of request) x.calls x.outcome s
        (execute-IsAccounted runner request w)
