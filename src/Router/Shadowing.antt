-- ===== src/Router/Shadowing.antt =====
-- pkg/router/shadow.go: the engine that lets a second strategy observe an authority. The shadow runs
-- beside the authority; what the engine receives from it, its answer or the end of its time, is a
-- parameter. HMAC, the random ids and the clock are parameters too. The private witness is left out.
pub mod Bounds
pub mod Decisions
pub mod Offered
use veto.Shared.{
  ℕ, ◌-◌, String, Bool, true, false, not, ◌&&◌, ◌||◌, Option, none, some, is_some, List, [], ◌∷◌,
  ◌++◌, length, if◌then◌else◌,
}
use veto.Shared.Int.{ℤ, pos}
use veto.Shared.Float.{Float64, fzero}
use veto.Shared.Text.{◌==◌, concat, trim_space}
use veto.Shared.Dict.{get, set}
pub use veto.Router.ShadowRecords.{
  ShadowRecordStatus, selected, no_selection, error, unavailable, timeout, canceled, malformed,
  ShadowPrediction, ShadowDecisionRecord, ShadowComparisonRecord, ShadowError, deadline_exceeded,
  context_canceled, response_malformed, decider_unavailable, other, ShadowResult,
}
use veto.Router.Types.{TaskKind, Risk}
use veto.Router.Decision.{
  ToolCapabilities, DecisionCandidate, DecisionRequest, DecisionProbability, DecisionTelemetry,
  DecisionOutcome, OutcomeError, ◌or_next◌, probability_without_selection, unknown_candidate,
  sequential_admission, has_candidate, validate_probability, validate_telemetry,
}
use veto.Router.Events.{Effect}
use veto.Router.Sequential.{Decided, decided, failed}
use veto.Router.Routing.{DecisionEngine, EngineRun}
use veto.Router.ShadowRoutes.{drop, evict}

-- What HMAC makes of the engine's secret: the hex key of a route id, and the hex code of a candidate
-- under such a key. `none` where the secret could not be drawn.
pub record Keys (F : Type 0) : Type 0 where
  pub route_key : Option (String → String)
  pub code_of : String → DecisionCandidate F → String

-- The maps of the engine: the keys of the candidates of each route, and the order of the routes.
pub record CandidateMemory : Type 0 where
  pub candidate_keys : List (String × List (String × String))
  pub candidate_key_order : List String

abbrev pub max_candidate_routes : ℕ
max_candidate_routes = 256

abbrev pub status_for : String → ShadowRecordStatus
status_for candidate = if candidate == "" then no_selection else selected

module _ {F : Type 0} ⦃fl : Float64 F⦄ where
  abbrev pub no_probability : DecisionProbability F
  no_probability = record { value = fzero; known = false }

  abbrev pub no_telemetry : DecisionTelemetry F
  no_telemetry = record {
    input_tokens = pos 0;
    output_tokens = pos 0;
    total_tokens = pos 0;
    usage_known = false;
    cached_input_tokens = pos 0;
    cached_input_known = false;
    cost_usd = fzero;
    cost_known = false;
    latency_ms = pos 0;
    latency_known = false;
  }

  abbrev pub failure : ShadowRecordStatus → String → DecisionTelemetry F → ShadowDecisionRecord F
  failure status code telemetry = record {
    status = status;
    selected_candidate = "";
    probability = no_probability;
    confidence = no_probability;
    telemetry = telemetry;
    error_code = code;
  }

  -- authorityEvidence
  unfoldable pub authority_evidence : Decided F → ShadowDecisionRecord F
  authority_evidence (failed e) = failure error "AUTHORITY_ERROR" no_telemetry
  authority_evidence (decided outcome) = record {
    status = status_for outcome.selected_candidate;
    selected_candidate = outcome.selected_candidate;
    probability = outcome.probability;
    confidence = outcome.confidence;
    telemetry = outcome.telemetry;
    error_code = "";
  }

  -- The last checks of ShadowPrediction.validate: the selection is a candidate.
  unfoldable pub validate_choice : ShadowPrediction F → DecisionRequest F → Option OutcomeError
  unfolding has_candidate
  validate_choice p request =
      if p.selected_candidate == ""
      then if p.probability.known then some probability_without_selection else none
      else if has_candidate request.candidates p.selected_candidate
      then none
      else some unknown_candidate

  -- ShadowPrediction.validate
  unfoldable pub validate_prediction : ShadowPrediction F → DecisionRequest F → Option OutcomeError
  unfolding validate_probability validate_telemetry validate_choice
  validate_prediction p request =
      validate_probability p.probability
      or_next validate_probability p.confidence
      or_next validate_telemetry p.telemetry
      or_next validate_choice p request

  unfoldable pub error_evidence : ShadowError → DecisionTelemetry F → ShadowDecisionRecord F
  error_evidence deadline_exceeded telemetry = failure timeout "TIMEOUT" telemetry
  error_evidence context_canceled telemetry = failure canceled "CANCELED" telemetry
  error_evidence response_malformed telemetry = failure malformed "MALFORMED" telemetry
  error_evidence decider_unavailable telemetry = failure unavailable "UNAVAILABLE" telemetry
  error_evidence other telemetry = failure error "DECIDER_ERROR" telemetry

  -- The evidence of a prediction that came without an error.
  unfoldable pub prediction_evidence :
      DecisionRequest F → ShadowPrediction F → ShadowDecisionRecord F
  unfolding validate_prediction
  prediction_evidence request p = elim (validate_prediction p request) [
    | some e ↦ failure malformed "MALFORMED" p.telemetry
    | none ↦ record {
      status = status_for p.selected_candidate;
      selected_candidate = p.selected_candidate;
      probability = p.probability;
      confidence = p.confidence;
      telemetry = p.telemetry;
      error_code = "";
    }
  ]

  -- shadowEvidence
  unfoldable pub shadow_evidence : DecisionRequest F → ShadowResult F → ShadowDecisionRecord F
  unfolding error_evidence prediction_evidence
  shadow_evidence request result =
      if result.panicked then failure error "PANIC" no_telemetry else elim result.err [
        | some e ↦ error_evidence e result.prediction.telemetry
        | none ↦ prediction_evidence request result.prediction
      ]

module _ {F : Type 0} where
  -- ShadowingDecisionEngine.privateRouteKey
  unfoldable pub private_route_key : Keys F → String → String
  private_route_key keys route_id = elim keys.route_key [
    | none ↦ ""
    | some key_of ↦ if route_id == "" then "" else key_of route_id
  ]

  -- candidateKeyForCandidate, with PrivateCandidateKey: an empty route key does not decode.
  unfoldable pub candidate_key_for_candidate : Keys F → String → DecisionCandidate F → String
  unfolding private_route_key
  candidate_key_for_candidate keys route_id c =
      let route_key = private_route_key keys route_id in
      if c.model.name == "" || route_key == "" then "" else concat "c-" (keys.code_of route_key c)

  -- The loop over the candidates: their keys in order, and the map from their names.
  unfoldable pub keys_of : Keys F → String → List (DecisionCandidate F) → List String
  unfolding candidate_key_for_candidate
  keys_of keys route_id [] = []
  keys_of keys route_id (c ∷ cs) =
      candidate_key_for_candidate keys route_id c ∷ keys_of keys route_id cs

  unfoldable pub key_map :
      Keys F → String → List (DecisionCandidate F) → List (String × String) → List (String × String)
  unfolding candidate_key_for_candidate set
  key_map keys route_id [] m = m
  key_map keys route_id (c ∷ cs) m =
      key_map keys route_id cs (set c.model.name (candidate_key_for_candidate keys route_id c) m)

abbrev pub or_blank : Option String → String
or_blank none = ""
or_blank (some s) = s

-- candidateKeys[name]
unfoldable pub key_in : List (String × String) → String → String
unfolding get
key_in m name = or_blank (get name m)

-- ShadowingDecisionEngine.candidateKey
unfoldable pub candidate_key : CandidateMemory → String → String → String
unfolding get key_in
candidate_key memory route_id name = elim (get route_id memory.candidate_keys) [
  | none ↦ ""
  | some m ↦ key_in m name
]

-- rememberCandidateKeys
unfoldable pub remember_candidate_keys :
    String → List (String × String) → CandidateMemory → CandidateMemory
unfolding get set drop evict
remember_candidate_keys route_id m memory =
    let order =
      if is_some (get route_id memory.candidate_keys)
      then memory.candidate_key_order
      else memory.candidate_key_order ++ route_id ∷ [] in
    let excess = length order - max_candidate_routes in
    if route_id == "" then memory else record {
      candidate_keys = evict excess order (set route_id m memory.candidate_keys);
      candidate_key_order = drop excess order;
    }

-- The fields of ShadowingDecisionEngine that Decide reads. `observed` is what Decide receives of the
-- shadow's run beside the authority: the world after both, and the shadow's answer, or the error of
-- its context. `now` and `new_route_id` are the clock and newShadowRouteID.
pub record ShadowingEngine (F W : Type 0) : Type 0 where
  pub authority : DecisionEngine F W
  pub observed : DecisionRequest F → W → W × ShadowResult F
  pub authority_strategy : String
  pub shadow_strategy : String
  pub keys : Keys F
  pub now : W → ℤ
  pub new_route_id : W → W × String

-- NewShadowingDecisionEngine's defaults
unfoldable pub shadow_strategy_of : String → String
unfolding trim_space
shadow_strategy_of strategy = if trim_space strategy == "" then "shadow" else strategy

module _ {F W : Type 0} ⦃fl : Float64 F⦄ (e : ShadowingEngine F W) where
  -- The comparison that `record` builds, and the map of its keys.
  unfoldable pub comparison_of :
      String → ℤ → DecisionRequest F → Decided F → ShadowResult F → ShadowComparisonRecord F
  unfolding authority_evidence shadow_evidence keys_of key_map key_in
  comparison_of route_id now request result observed =
      let m = key_map e.keys route_id request.candidates [] in
      let authority = authority_evidence result in
      let shadow = shadow_evidence request observed in
      record {
        route_id = route_id;
        observed_at = now;
        task_kind = request.task.kind;
        risk = request.task.risk;
        candidates = keys_of e.keys route_id request.candidates;
        authority_strategy = e.authority_strategy;
        shadow_strategy = e.shadow_strategy;
        authority = record authority { selected_candidate = key_in m authority.selected_candidate };
        shadow = record shadow { selected_candidate = key_in m shadow.selected_candidate };
      }

-- The memory of an engine and its recorder. A recorder is RecordShadowComparison as a function of its
-- state `R`; `none` is an engine without one. Its error is discarded.
pub record ShadowMemory (R : Type 0) : Type 0 where
  pub keys : CandidateMemory
  pub recorder : R

module _ {F W R : Type 0} ⦃fl : Float64 F⦄ (e : ShadowingEngine F W)
    (recorder : Option (ShadowComparisonRecord F → R → R)) where
  -- What `record` does for a route id.
  unfoldable pub observe :
      (ShadowComparisonRecord F → R → R)
      → String
      → DecisionRequest F
      → Decided F
      → ShadowResult F
      → W
      → ShadowMemory R
      → ShadowMemory R
  unfolding comparison_of remember_candidate_keys key_map
  observe record_comparison route_id request result observed w memory = record {
    keys =
        remember_candidate_keys route_id (key_map e.keys route_id request.candidates [])
          memory.keys;
    recorder =
        record_comparison (comparison_of e route_id (e.now w) request result observed)
          memory.recorder;
  }

  -- The route id of a request, or a new one.
  unfoldable pub route_id_for : DecisionRequest F → W → W × String
  route_id_for request w =
      if request.shadow_route_id == "" then e.new_route_id w else (w, request.shadow_route_id)

  -- ShadowingDecisionEngine.record
  unfoldable pub record_observation :
      DecisionRequest F → Decided F → ShadowResult F → W → ShadowMemory R → W × ShadowMemory R
  unfolding observe route_id_for
  record_observation request result observed w memory = elim recorder [
    | none ↦ (w, memory)
    | some record_comparison ↦
        let (w', route_id) = route_id_for request w in
        (w', observe record_comparison route_id request result observed w' memory)
  ]

  -- ShadowingDecisionEngine.Decide, as an engine on the worlds with its memory
  unfoldable pub decide_shadowing : DecisionEngine F (W × ShadowMemory R)
  unfolding record_observation
  decide_shadowing request limit (w, memory) =
      let run = e.authority request limit w in
      let (w', observed) = e.observed request run.world in
      record {
        world = record_observation request run.result observed w' memory;
        effects = run.effects;
        result = run.result;
      }
