-- ===== src/Application/Monitor/Routes.antt =====
-- internal/application/controlplane_service.go: publishRouteEvent, the handler of a route's events.
use veto.Shared.{
  String, Bool, true, false, not, ◌&&◌, ◌||◌, Option, none, some, List, [], ◌∷◌, if◌then◌else◌,
}
use veto.Shared.Float.{Float64, fzero, gt}
use veto.Shared.Text.{◌==◌}
use veto.Router.Events.{EventKind, ProgressEvent, ask_accept, is_decision_event}
use veto.Application.Monitor.{
  ModelSnapshot, ControlState, of_route, plain, route_event, decision_event, publish, control_event,
}

-- The first model of the snapshot with a name
unfoldable pub model_named : String → List ModelSnapshot → Option ModelSnapshot
model_named name [] = none
model_named name (m ∷ ms) =
    let rest = model_named name ms in if m.name == name then some m else rest

abbrev pub default_reasons : List String
default_reasons = "ranked highest among eligible candidates" ∷ "accepted by admission gate" ∷ []

-- routeDecisionReasons
unfoldable pub route_decision_reasons : List String → List String
route_decision_reasons [] = default_reasons
route_decision_reasons (r ∷ rs) = r ∷ rs

unfoldable pub is_ask_accept : EventKind → Bool
is_ask_accept ask_accept = true
is_ask_accept _ = false

module _ {F : Type 0} ⦃fl : Float64 F⦄ where
  -- The end of publishRouteEvent: the model that accepted
  unfoldable pub accept_model : String → F → List String → ControlState F → ControlState F
  unfolding model_named
  accept_model name confidence reasons s =
      let m = record s.snapshot.monitor {
        last_model = name;
        last_confidence = confidence;
        last_confidence_known = true;
        last_reasons = reasons;
      } in
      let snapshot = record s.snapshot { model = name; monitor = m } in
      elim (model_named name s.snapshot.models) [
        | none ↦ record s { snapshot = snapshot }
        | some found ↦ record s {
          snapshot = record snapshot {
            provider = found.provider;
            monitor = record m { last_provider = found.provider; last_runtime = found.runtime };
          };
        }
      ]

  -- publishRouteEvent
  unfoldable pub publish_route_event : ProgressEvent F → ControlState F → ControlState F
  unfolding publish is_decision_event is_ask_accept route_decision_reasons accept_model
  publish_route_event event s =
      let accepts = is_ask_accept event.kind in
      let reasons = if accepts then route_decision_reasons event.reasons else event.reasons in
      let known = accepts || gt event.confidence fzero in
      let published =
        publish
          (record (control_event "route" (route_event event.kind)
            (of_route event.model reasons event.detail)) {
              model = event.model;
              confidence = event.confidence;
              confidence_known = known;
              reasons = reasons;
            })
          s in
      if is_decision_event event.kind
      then publish
          (record (control_event "route" (decision_event event.kind) (plain "")) {
            decision = event.decision;
          })
          s
      else if accepts && not (event.model == "")
      then accept_model event.model event.confidence reasons published
      else published
