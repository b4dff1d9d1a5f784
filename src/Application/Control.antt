-- ===== src/Application/Control.antt =====
-- internal/application/controlplane_service.go: Execute, an action of the control plane from its
-- arguments to its result. time.ParseDuration, strconv and the callbacks of the composition root are
-- parameters. An action is one step here, with the calls of the others before or after it.
pub mod Running
pub mod Executing
pub mod Settled
pub mod Cases
pub mod Released
use veto.Shared.{
  ℕ, String, Bool, true, false, not, ◌&&◌, ◌||◌, Option, none, some, is_some, List, [], ◌∷◌, ◌++◌,
  length, filter, leb, nat_eq, if◌then◌else◌,
}
use veto.Shared.Int.{ℤ, pos, is_positive, is_zero, eq_ℤ}
use veto.Shared.Float.{Float64, fzero, is_nonfinite}
use veto.Shared.Text.{◌==◌, Unicode, trim_space, contains}
use veto.Router.Types.{TaskSpec, TaskKind, ModelCapabilities, AdmissionDecision}
use veto.Router.Routing.{RouteError, RouteResult, routed, not_routed}
use veto.Application.Execution.{RunError}
use veto.Application.Runner.{
  RouterPort, Runner, Request, Response, Outcome, rejected, selected, ran, Executed, execute,
}
use veto.Application.Arguments.{
  ActionRequest, Parsers, ArgumentError, parsed, unparsed, argument, is_routing, task_from_request,
  execution_options, check_request,
}
use veto.Application.Monitor.{
  ControlEvent, ControlKind, ControlState, Message, plain, accepted, criteria_count, output,
  output_saved, route_completed, run_completed, history_error, review_started, review_error,
  review_completed, action_completed, publish, set_snapshot, control_event, observe_calls,
}
use veto.Application.Monitor.Routes.{route_decision_reasons}

pub data ControlError : Type 0 where
  bad_argument : ArgumentError → ControlError
  already_active refresh_failed nil_router : ControlError
  no_output_writer write_failed review_failed not_met not_executable handler_failed : ControlError
  history_failed : ControlError
  history_failed_after : ControlError → ControlError
  route_error : RouteError → ControlError
  run_error : RunError → ControlError

-- ActionResult, less the native command of a handler
pub record ActionResult : Type 0 where
  pub action_id : String
  pub summary : String
  pub model : String
  pub output : String

-- The callbacks of the service: `none` where it has none. A reviewer answers whether the criteria are
-- met, or fails. The others say whether they succeed.
pub record Callbacks (F W : Type 0) : Type 0 where
  pub routing_refresh : Option (W → W × Bool)
  pub skill_resolver : Option (TaskSpec F → W → W × List String)
  pub output_writer : Option (String → String → Bool → W → W × Bool)
  pub reviewer : Option (TaskSpec F → String → String → W → W × Option Bool)
  pub history_saver : Option (W → W × Bool)
  pub handlers : String → Option (ActionRequest → W → W × (ActionResult × Bool))

abbrev pub no_action : String → ActionResult
no_action action = record { action_id = action; summary = ""; model = ""; output = "" }

-- ControlService. `router` is its own port, which need not be the runner's.
pub record ControlService (F W : Type 0) : Type 0 where
  pub runner : Runner F W
  pub router : Option (RouterPort F W)
  pub callbacks : Callbacks F W
  pub parsers : Parsers F

-- What Execute returns, with the world and the state.
pub record Done (F W : Type 0) : Type 0 where
  pub world : W
  pub state : ControlState F
  pub result : ActionResult
  pub err : Option ControlError

module _ {F W : Type 0} ⦃fl : Float64 F⦄ (service : ControlService F W) where
  -- A return, with the status that the snapshot gets.
  abbrev pub settle :
      String → String → String → ActionResult → Option ControlError → W → ControlState F → Done F W
  settle status provider model result err w s = record {
    world = w;
    state = set_snapshot result.action_id status provider model s;
    result = result;
    err = err;
  }

  abbrev pub fails_with : String → ControlError → W → ControlState F → Done F W
  fails_with action e w s = settle "error" "" "" (no_action action) (some e) w s

  -- routeWithTimeout
  unfoldable pub route_with_timeout : RouterPort F W → TaskSpec F → ℤ → W → W × RouteResult F
  route_with_timeout port task timeout w =
      if is_positive timeout
      then elim port.route_with_admission_timeout [
        | none ↦ port.route_task task w
        | some timed ↦ timed task timeout w
      ]
      else port.route_task task w

  -- The end of a route
  unfoldable pub route_settled : W × RouteResult F → ControlState F → Done F W
  unfolding route_decision_reasons publish
  route_settled (w, not_routed e) s = fails_with "route" (route_error e) w s
  route_settled (w, routed model decision) s =
      let confidence = if decision.confidence_unknown then none else some decision.confidence in
      record {
        world = w;
        state =
            publish
              (record (control_event "route" route_completed (accepted model.name confidence)) {
                model = model.name;
                confidence = decision.confidence;
                confidence_known = not decision.confidence_unknown;
                reasons = route_decision_reasons decision.reason_codes;
              })
              (set_snapshot "route" "ready" model.provider model.name s);
        result = record (no_action "route") { summary = "model selected"; model = model.name };
        err = none;
      }

  -- The case of a route
  unfoldable pub execute_route : ⦃u : Unicode⦄ → ActionRequest → ℤ → W → ControlState F → Done F W
  unfolding task_from_request route_with_timeout route_settled argument
  execute_route request timeout w s = elim service.router [
    | none ↦ record { world = w; state = s; result = no_action ""; err = some nil_router }
    | some port ↦
        elim (task_from_request service.parsers request
          (trim_space (argument request "objective"))) [
            | unparsed e ↦ fails_with "route" (bad_argument e) w s
            | parsed task ↦ route_settled (route_with_timeout port task timeout w) s
          ]
  ]
