-- ===== src/Application/Control/Cases.antt =====
-- The cases of Execute keep the state of the control plane, and say ready after a success:
-- internal/application/controlplane_service.go.
use veto.Shared.{
  refl, inl, inr, String, Bool, true, false, not, Option, none, some, length, nat_eq, Bool-cases,
  if◌then◌else◌,
}
use veto.Shared.Int.{ℤ, pos}
use veto.Shared.Float.{Float64}
use veto.Shared.Text.{◌==◌, Unicode, trim_space}
use veto.Router.Types.{TaskSpec}
use veto.Router.Routing.{RouteResult, routed, not_routed}
use veto.Application.Runner.{Executed, execute}
use veto.Application.Arguments.{
  ActionRequest, ArgumentError, Parsed, parsed, unparsed, argument, is_routing, task_from_request,
}
use veto.Application.Monitor.{ControlState, publish, set_snapshot, observe_calls}
use veto.Application.Control.{
  ControlService, ControlError, bad_argument, ActionResult, Done, fails_with, execute_route,
  route_settled, route_with_timeout, handler_failed, refresh_failed, route_error,
}
use veto.Application.Control.Running.{
  completed_run, review_answered, review_run, write_run, run_executed, execute_run, resolve_skills,
  request_for, error_of, model_of, output_of, provider_of,
}
use veto.Application.Control.Executing.{
  handler_events, execute_handler, execute_case, execute_active,
}
use veto.Application.Control.Settled.{
  Keeps, Ready, Keeps-refl, Keeps-trans, publish-Keeps, set_snapshot-Keeps, observe_calls-Keeps,
  IsSettled, failed-IsSettled, if-IsSettled, elim-IsSettled, after-IsSettled,
}

module _ {F W : Type 0} ⦃fl : Float64 F⦄ (service : ControlService F W) where
  set_snapshot-Ready :
      (action provider model : String) (s : ControlState F)
      → Ready (set_snapshot action "ready" provider model s)
  unfolding set_snapshot
  set_snapshot-Ready action provider model s = refl

  parsed-IsSettled :
      {A : Type 0} (s : ControlState F) (p : Parsed A) (x : ArgumentError → Done F W)
      (y : A → Done F W)
      → ((e : ArgumentError) → IsSettled s (x e))
      → ((a : A) → IsSettled s (y a))
      → IsSettled s (elim p as (λ x. Done F W) [ unparsed e ↦ x e | parsed a ↦ y a ])
  parsed-IsSettled s (unparsed e) x y p q = p e
  parsed-IsSettled s (parsed a) x y p q = q a

  fails_with-IsSettled :
      (action : String) (e : ControlError) (w : W) (s : ControlState F)
      → IsSettled s (fails_with service action e w s)
  fails_with-IsSettled action e w s =
      failed-IsSettled s _ e refl (set_snapshot-Keeps action "error" "" "" s)

  route_settled-IsSettled :
      (result : W × RouteResult F) (s : ControlState F)
      → IsSettled s (route_settled service result s)
  unfolding route_settled publish set_snapshot
  route_settled-IsSettled (w, not_routed e) s = fails_with-IsSettled "route" (route_error e) w s
  route_settled-IsSettled (w, routed model decision) s = record {
    kept =
        Keeps-trans (set_snapshot-Keeps "route" "ready" model.provider model.name s)
          (publish-Keeps _ _);
    ready = λ fine. refl;
  }

  execute_route-IsSettled :
      ⦃u : Unicode⦄
      → (request : ActionRequest) (timeout : ℤ) (w : W) (s : ControlState F)
      → IsSettled s (execute_route service request timeout w s)
  unfolding execute_route
  execute_route-IsSettled request timeout w s =
      let task =
        task_from_request service.parsers request (trim_space (argument request "objective")) in
      elim-IsSettled s service.router _ _ (failed-IsSettled s _ _ refl (Keeps-refl s)) (λ port.
        parsed-IsSettled s task _ _ (λ e. fails_with-IsSettled "route" (bad_argument e) w s)
          (λ t. route_settled-IsSettled (route_with_timeout service port t timeout w) s))

  completed_run-IsSettled :
      (model output : String) (w : W) (s : ControlState F)
      → Ready s
      → IsSettled s (completed_run service model output w s)
  unfolding completed_run publish
  completed_run-IsSettled model output w s r = record {
    kept = publish-Keeps _ s;
    ready = λ fine. r;
  }

  review_answered-IsSettled :
      (passed : Option Bool) (model output : String) (w : W) (s : ControlState F)
      → Ready s
      → IsSettled s (review_answered service passed model output w s)
  unfolding review_answered publish
  review_answered-IsSettled none model output w s r =
      failed-IsSettled s _ _ refl
        (Keeps-trans (set_snapshot-Keeps "run" "error" "" "" s) (publish-Keeps _ _))
  review_answered-IsSettled (some false) model output w s r =
      failed-IsSettled s _ _ refl
        (Keeps-trans (set_snapshot-Keeps "run" "error" "" "" s) (publish-Keeps _ _))
  review_answered-IsSettled (some true) model output w s r =
      after-IsSettled (publish-Keeps _ s) (completed_run-IsSettled model output w _ r)

  review_run-IsSettled :
      (task : TaskSpec F) (model output : String) (w : W) (s : ControlState F)
      → Ready s
      → IsSettled s (review_run service task model output w s)
  unfolding review_run publish
  review_run-IsSettled task model output w s r =
      let completed = completed_run-IsSettled model output w s r in
      elim-IsSettled s service.callbacks.reviewer _ _ completed (λ reviewer.
        if-IsSettled s (nat_eq (length task.success_criteria) 0) _ _ completed (
          after-IsSettled (publish-Keeps _ s)
            (review_answered-IsSettled (reviewer task output model w).1 model output _ _ r)))

  write_run-IsSettled :
      (request : ActionRequest) (task : TaskSpec F) (model output : String) (w : W)
      (s : ControlState F)
      → Ready s
      → IsSettled s (write_run service request task model output w s)
  unfolding write_run publish
  write_run-IsSettled request task model output w s r =
      let path = trim_space (argument request "output") in
      if-IsSettled s (path == "") _ _ (review_run-IsSettled task model output w s r) (
        elim-IsSettled s service.callbacks.output_writer _ _
          (failed-IsSettled s _ _ refl (Keeps-refl s))
          (λ write.
            if-IsSettled s (write path output (argument request "force" == "true") w).1 _ _
              (after-IsSettled (publish-Keeps _ s) (review_run-IsSettled task model output _ _ r))
              (failed-IsSettled s _ _ refl (set_snapshot-Keeps "run" "error" "" "" s))))

  run_executed-IsSettled :
      (request : ActionRequest) (task : TaskSpec F) (x : Executed F W) (s : ControlState F)
      → IsSettled s (run_executed service request task x s)
  unfolding run_executed
  run_executed-IsSettled request task x s =
      let observed = observe_calls-Keeps x.calls s in
      let provider = provider_of x.outcome in
      let model = model_of x.outcome in
      elim-IsSettled s (error_of x.outcome) _ _
        (after-IsSettled (Keeps-trans observed (set_snapshot-Keeps "run" "ready" provider model _))
          (write_run-IsSettled request task model (output_of x.outcome) x.world _
            (set_snapshot-Ready "run" provider model (observe_calls x.calls s))))
        (λ e.
          failed-IsSettled s _ _ refl
            (Keeps-trans observed (set_snapshot-Keeps "run" "error" provider model _)))

  execute_run-IsSettled :
      ⦃u : Unicode⦄
      → (request : ActionRequest) (timeout : ℤ) (w : W) (s : ControlState F)
      → IsSettled s (execute_run service request timeout w s)
  unfolding execute_run
  execute_run-IsSettled request timeout w s =
      let task =
        task_from_request service.parsers request (trim_space (argument request "objective")) in
      elim-IsSettled s service.router _ _ (failed-IsSettled s _ _ refl (Keeps-refl s)) (λ port.
        parsed-IsSettled s task _ _ (λ e. fails_with-IsSettled "run" (bad_argument e) w s)
          (λ t.
            let (w', skills) = resolve_skills service t w in
            run_executed-IsSettled request t
              (execute service.runner (request_for service request t skills timeout) w') s))

  handler_events-Keeps :
      (action : String) (result : ActionResult) (s : ControlState F)
      → Keeps s (handler_events service action result s)
  unfolding handler_events
  handler_events-Keeps action result s = elim (Bool-cases (result.output == "")) [
    | inl blank ↦ rw blank (publish-Keeps _ s)
    | inr shown ↦ rw shown (Keeps-trans (publish-Keeps _ s) (publish-Keeps _ _))
  ]

  handler_events-Ready :
      (action : String) (result : ActionResult) (s : ControlState F)
      → Ready s
      → Ready (handler_events service action result s)
  unfolding handler_events publish
  handler_events-Ready action result s r = elim (Bool-cases (result.output == "")) [
    | inl blank ↦ rw blank r
    | inr shown ↦ rw shown r
  ]

  handled-IsSettled :
      (action : String) (result : ActionResult) (succeeded : Bool) (w : W) (s : ControlState F)
      → IsSettled s (record {
        world = w;
        state =
            if succeeded
            then handler_events service action result (set_snapshot action "ready" "" "" s)
            else set_snapshot action "error" "" "" s;
        result = result;
        err = if succeeded then none else some handler_failed;
      })
  handled-IsSettled action result false w s =
      failed-IsSettled s _ _ refl (set_snapshot-Keeps action "error" "" "" s)
  handled-IsSettled action result true w s = record {
    kept =
        Keeps-trans (set_snapshot-Keeps action "ready" "" "" s)
          (handler_events-Keeps action result _);
    ready = λ fine.
        handler_events-Ready action result (set_snapshot action "ready" "" "" s)
          (set_snapshot-Ready action "" "" s);
  }

  -- The cases of the switch, for any action.
  execute_handler-IsSettled :
      (request : ActionRequest) (w : W) (s : ControlState F)
      → IsSettled s (execute_handler service request w s)
  unfolding execute_handler
  execute_handler-IsSettled request w s =
      elim-IsSettled s (service.callbacks.handlers request.action_id) _ _
        (failed-IsSettled s _ _ refl (set_snapshot-Keeps request.action_id "unsupported" "" "" s))
        (λ handler.
          let run = handler (record request { version = pos 1 }) w in
          handled-IsSettled request.action_id run.1.0 run.1.1 run.0 s)

  execute_case-IsSettled :
      ⦃u : Unicode⦄
      → (request : ActionRequest) (timeout : ℤ) (w : W) (s : ControlState F)
      → IsSettled s (execute_case service request timeout w s)
  unfolding execute_case
  execute_case-IsSettled request timeout w s =
      if-IsSettled s (request.action_id == "route") _ _
        (execute_route-IsSettled request timeout w s)
        (if-IsSettled s (request.action_id == "run") _ _ (execute_run-IsSettled request timeout w s)
          (execute_handler-IsSettled request w s))

  pub execute_active-IsSettled :
      ⦃u : Unicode⦄
      → (request : ActionRequest) (timeout : ℤ) (w : W) (s : ControlState F)
      → IsSettled s (execute_active service request timeout w s)
  unfolding execute_active
  execute_active-IsSettled request timeout w s =
      let direct = execute_case-IsSettled request timeout w s in
      if-IsSettled s (not (is_routing request)) _ _ direct (
        elim-IsSettled s service.callbacks.routing_refresh _ _ direct (λ refresh.
          if-IsSettled s (refresh w).1 _ _ (execute_case-IsSettled request timeout (refresh w).0 s)
            (fails_with-IsSettled request.action_id refresh_failed (refresh w).0 s)))
