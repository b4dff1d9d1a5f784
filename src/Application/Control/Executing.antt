-- ===== src/Application/Control/Executing.antt =====
-- internal/application/controlplane_service.go: Execute, from the checks of a request to the deferred
-- end of its action.
use veto.Shared.{String, not, Option, none, some, ◌∷◌, filter, if◌then◌else◌}
use veto.Shared.Int.{ℤ, pos}
use veto.Shared.Float.{Float64}
use veto.Shared.Text.{◌==◌, Unicode, contains}
use veto.Application.Arguments.{ActionRequest, parsed, unparsed, is_routing, check_request}
use veto.Application.Monitor.{
  ControlState, plain, output, history_error, action_completed, publish, set_snapshot,
  control_event,
}
use veto.Application.Control.{
  ControlService, ControlError, bad_argument, already_active, refresh_failed, not_executable,
  handler_failed, history_failed, history_failed_after, ActionResult, no_action, Done, fails_with,
  execute_route,
}
use veto.Application.Control.Running.{execute_run}

module _ {F W : Type 0} ⦃fl : Float64 F⦄ (service : ControlService F W) where
  -- The events of a handler that succeeded
  unfoldable pub handler_events : String → ActionResult → ControlState F → ControlState F
  unfolding publish
  handler_events action result s =
      let shown =
        if result.output == ""
        then s
        else publish (control_event action output (plain result.output)) s in
      publish (control_event action (action_completed action) (plain result.summary)) shown

  -- The default case: a handler of the composition root
  unfoldable pub execute_handler : ActionRequest → W → ControlState F → Done F W
  unfolding handler_events set_snapshot
  execute_handler request w s = elim (service.callbacks.handlers request.action_id) [
    | none ↦ record {
      world = w;
      state = set_snapshot request.action_id "unsupported" "" "" s;
      result = no_action "";
      err = some not_executable;
    }
    | some handler ↦
        let (w', (result, succeeded)) = handler (record request { version = pos 1 }) w in
        let settled : String → ControlState F =
          λ status. set_snapshot request.action_id status "" "" s in
        record {
          world = w';
          state =
              if succeeded
              then handler_events request.action_id result (settled "ready")
              else settled "error";
          result = result;
          err = if succeeded then none else some handler_failed;
        }
  ]

  -- The switch of Execute
  unfoldable pub execute_case : ⦃u : Unicode⦄ → ActionRequest → ℤ → W → ControlState F → Done F W
  unfolding execute_route execute_run execute_handler
  execute_case request timeout w s =
      if request.action_id == "route"
      then execute_route service request timeout w s
      else if request.action_id == "run"
      then execute_run service request timeout w s
      else execute_handler request w s

  -- The refresh before a route or a run, and the switch
  unfoldable pub execute_active : ⦃u : Unicode⦄ → ActionRequest → ℤ → W → ControlState F → Done F W
  unfolding execute_case
  execute_active request timeout w s =
      let direct = execute_case request timeout w s in
      if not (is_routing request) then direct else elim service.callbacks.routing_refresh [
        | none ↦ direct
        | some refresh ↦
            let (w', refreshed) = refresh w in
            let later = execute_case request timeout w' s in
            if refreshed then later else fails_with service request.action_id refresh_failed w' s
      ]

  abbrev joined : Option ControlError → ControlError
  joined none = history_failed
  joined (some e) = history_failed_after e

  unfoldable pub deactivate : String → ControlState F → ControlState F
  deactivate action s = record s { active = filter (λ a. not (a == action)) s.active }

  -- The deferred end of an action, with the saver of the history
  unfoldable pub save_history : String → Done F W → Done F W
  unfolding publish set_snapshot
  save_history action d = elim service.callbacks.history_saver [
    | none ↦ d
    | some save ↦
        let (w', saved) = save d.world in
        if saved then record d { world = w' } else record {
          world = w';
          state =
              publish (control_event action history_error (plain ""))
                (set_snapshot action "error" "" "" d.state);
          result = d.result;
          err = some (joined d.err);
        }
  ]

  unfoldable pub conclude : String → Done F W → Done F W
  unfolding deactivate save_history
  conclude action d = save_history action (record d { state = deactivate action d.state })

  -- ControlService.Execute
  unfoldable pub execute_action : ⦃u : Unicode⦄ → ActionRequest → W → ControlState F → Done F W
  unfolding check_request execute_active conclude set_snapshot
  execute_action request w s = elim (check_request service.parsers request) [
    | unparsed e ↦ record {
      world = w;
      state = s;
      result = no_action "";
      err = some (bad_argument e);
    }
    | parsed timeout ↦
        let begun =
          set_snapshot request.action_id "running" "" ""
            (record s { active = request.action_id ∷ s.active }) in
        let done = conclude request.action_id (execute_active request timeout w begun) in
        if contains s.active request.action_id
        then record { world = w; state = s; result = no_action ""; err = some already_active }
        else done
  ]
