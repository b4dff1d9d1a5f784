-- ===== src/Router/Routing.antt =====
-- pkg/router/manager.go: `route`, for any decision engine, and `Route` with the engine of
-- sequential.go.
pub mod Trusted
pub mod Preflight
use veto.Shared.{
  ℕ, String, Bool, true, false, not, Option, none, some, List, [], ◌∷◌, ◌++◌, length, nat_eq, leb,
  if◌then◌else◌,
}
use veto.Shared.Int.{ℤ, pos}
use veto.Shared.Float.{Float64}
use veto.Shared.Text.{◌==◌, Unicode}
use veto.Router.Types.{TaskSpec, TaskKind, ModelCapabilities, AdmissionDecision, RoutingSignal}
use veto.Router.Preferences.{CandidatePreferences}
use veto.Router.Decision.{
  DecisionCandidate, DecisionRequest, DecisionOutcome, RequestError, OutcomeError, decision_version,
  validate_request, validate_outcome,
}
use veto.Router.Events.{
  Effect, emit, event, decision_started, decision_completed, decision_error, decision_progress,
}
use veto.Router.Executors.{Environment}
use veto.Router.Admission.{AdmissionGate, no_decision}
use veto.Router.Sequential.{DecideError, Decided, decided, failed, Progress, decide}
use veto.Router.Shortlist.{
  with_complexity, considered, preferred, preflight, preflight_rejects, candidates, filter_events,
}

pub data RouteError : Type 0 where
  no_candidate unsupported_execution_options : RouteError
  invalid_request : RequestError → RouteError
  engine_failed : DecideError → RouteError
  invalid_outcome : OutcomeError → RouteError

pub data RouteResult (F : Type 0) : Type 0 where
  routed : ModelCapabilities F → AdmissionDecision F → RouteResult F
  not_routed : RouteError → RouteResult F

-- The world after an engine has decided, its effects and its result.
pub record EngineRun (F W : Type 0) : Type 0 where
  pub world : W
  pub effects : List (Effect F)
  pub result : Decided F

-- DecisionEngine: a request and the admission timeout, which only the sequential engine reads.
abbrev pub DecisionEngine : Type 0 → Type 0 → Type 0
DecisionEngine F W = DecisionRequest F → ℤ → W → EngineRun F W

-- The fields of Manager that `route` reads. `new_route_id` is newShadowRouteID, `none` where the
-- manager has no shadow recorder.
pub record Manager (F W : Type 0) : Type 0 where
  pub models : List (ModelCapabilities F)
  pub gate : AdmissionGate
  pub engine : DecisionEngine F W
  pub signals : String → TaskKind → RoutingSignal F
  pub max_admissions : ℕ
  pub preferences : CandidatePreferences
  pub new_route_id : Option (W → W × String)

-- What `route` returns, with the world and the effects.
pub record Routed (F W : Type 0) : Type 0 where
  pub world : W
  pub effects : List (Effect F)
  pub result : RouteResult F

module _ {F : Type 0} ⦃fl : Float64 F⦄ where
  -- The decision that `route` returns for the selected candidate.
  unfoldable pub returned_decision : DecisionOutcome F → String → AdmissionDecision F
  returned_decision outcome route_id =
      record (elim outcome.admission [
        | none ↦ record no_decision {
          accept = true;
          confidence = outcome.confidence.value;
          confidence_unknown = not outcome.confidence.known;
        }
        | some admission ↦ admission
      ]) { shadow_route_id = route_id }

  -- The last loop of `route`, over the candidates.
  unfoldable pub select_candidate :
      DecisionOutcome F → String → List (DecisionCandidate F) → RouteResult F
  unfolding returned_decision
  select_candidate outcome route_id [] = not_routed no_candidate
  select_candidate outcome route_id (c ∷ cs) =
      let rest = select_candidate outcome route_id cs in
      if c.model.name == outcome.selected_candidate
      then routed c.model (returned_decision outcome route_id)
      else rest

  -- The error of the engine, or of its outcome.
  unfoldable pub outcome_error : Decided F → DecisionRequest F → Option RouteError
  unfolding validate_outcome
  outcome_error (failed e) request = some (engine_failed e)
  outcome_error (decided outcome) request = elim (validate_outcome outcome request) [
    | none ↦ none
    | some e ↦ some (invalid_outcome e)
  ]

  -- What `route` makes of an engine's result.
  unfoldable pub accept_result : Decided F → DecisionRequest F → RouteResult F
  unfolding outcome_error select_candidate
  accept_result result request = elim (outcome_error result request) [
    | some e ↦ not_routed e
    | none ↦ elim result [
      | failed e ↦ not_routed (engine_failed e)
      | decided outcome ↦
          if outcome.selected_candidate == ""
          then not_routed no_candidate
          else select_candidate outcome request.shadow_route_id request.candidates
    ]
  ]

  -- The event after the engine has returned.
  unfoldable pub result_event : Decided F → DecisionRequest F → Effect F
  unfolding outcome_error decision_progress
  result_event result request =
      let count = length request.candidates in
      let error_event = emit (record (event decision_error "") {
        decision = some (decision_progress count "error" none);
      }) in
      elim (outcome_error result request) [
        | some e ↦ error_event
        | none ↦ elim result [
          | failed e ↦ error_event
          | decided outcome ↦ emit (record (event decision_completed "") {
            decision = some (
                decision_progress count
                  (if outcome.selected_candidate == "" then "no_selection" else "selected")
                  (some outcome));
          })
        ]
      ]

  module _ {W : Type 0} (env : Environment F W) (m : Manager F W) where
    unfoldable pub consult : DecisionRequest F → ℤ → List (Effect F) → W → Routed F W
    unfolding accept_result result_event
    consult request timeout effects w =
        let started = emit (record (event decision_started "") {
          decision = some (decision_progress (length request.candidates) "started" none);
        }) in
        let run = m.engine request timeout w in
        record {
          world = run.world;
          effects = effects ++ (started ∷ run.effects) ++ result_event run.result request ∷ [];
          result = accept_result run.result request;
        }

    -- The second half of `route`, from the ranking on.
    unfoldable pub submit : DecisionRequest F → ℤ → List (Effect F) → W → Routed F W
    unfolding validate_request consult
    submit request timeout effects w =
        if nat_eq (length request.candidates) 0
        then record { world = w; effects = effects; result = not_routed no_candidate }
        else elim (validate_request request) [
          | some e ↦ record {
            world = w;
            effects = effects;
            result = not_routed (invalid_request e);
          }
          | none ↦ consult request timeout effects w
        ]

    unfoldable pub new_route : W → W × String
    new_route w = elim m.new_route_id [ none ↦ (w, "") | some fresh ↦ fresh w ]

    unfoldable pub submit_ranked :
        TaskSpec F
        → ℤ
        → List (ModelCapabilities F)
        → List (ModelCapabilities F)
        → List (Effect F)
        → W
        → Routed F W
    unfolding submit new_route candidates
    submit_ranked task timeout [] [] effects w = record {
      world = w;
      effects = effects;
      result = not_routed no_candidate;
    }
    submit_ranked task timeout [] (r ∷ rejected) effects w = record {
      world = w;
      effects = effects;
      result = not_routed unsupported_execution_options;
    }
    submit_ranked task timeout (c ∷ ranked) rejected effects w =
        let (w', route_id) = new_route w in
        submit
          (record {
            version = decision_version;
            task = task;
            candidates = candidates env m.gate task m.max_admissions (c ∷ ranked) [];
            shadow_route_id = route_id;
          })
          timeout effects w'

    -- Manager.route
    unfoldable pub route : ⦃u : Unicode⦄ → TaskSpec F → ℤ → W → Routed F W
    unfolding submit_ranked with_complexity considered preferred preflight preflight_rejects
        filter_events
    route asked timeout w =
        let task = with_complexity asked in
        let all = considered task m.models in
        let ranked = preferred m.preferences m.signals task all in
        let executable = preflight env m.gate task ranked in
        let rejected = preflight_rejects env m.gate task ranked in
        submit_ranked task timeout executable rejected (filter_events task all executable rejected)
          w

  -- SequentialAdmissionEngine, as the engine of a manager
  abbrev pub sequential_engine : {W : Type 0} → Environment F W → AdmissionGate → DecisionEngine F W
  sequential_engine env g request timeout w =
      let (p, result) = decide env g request timeout w in
      record { world = p.world; effects = p.effects; result = result }

  -- NewManager
  unfoldable pub new_manager :
      {W : Type 0}
      → Environment F W
      → List (ModelCapabilities F)
      → AdmissionGate
      → (String → TaskKind → RoutingSignal F)
      → Manager F W
  new_manager env models g signals = record {
    models = models;
    gate = g;
    engine = sequential_engine env g;
    signals = signals;
    max_admissions = 3;
    preferences = record {
      pinned_models = [];
      pinned_providers = [];
      favorite_models = [];
      favorite_providers = [];
      allowed_models = [];
      allowed_providers = [];
      disabled_models = [];
      excluded_models = [];
      excluded_providers = [];
    };
    new_route_id = none;
  }
