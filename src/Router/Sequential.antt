-- ===== src/Router/Sequential.antt =====
-- pkg/router/sequential.go: the engine that asks one candidate after the other.
pub mod Validity
pub mod Selection
use veto.Shared.{
  ℕ, zero, suc, ◌+◌, String, Bool, true, false, not, ◌&&◌, ◌||◌, Option, none, some, List, [], ◌∷◌,
  ◌++◌, leb, nat_eq, if◌then◌else◌,
}
use veto.Shared.Int.{ℤ, pos}
use veto.Shared.Float.{Float64, fzero, le}
use veto.Shared.Text.{contains}
use veto.Router.Types.{TaskSpec, ModelCapabilities, AdmissionDecision, reason_parse_failure}
use veto.Router.Decision.{
  DecisionCandidate, DecisionRequest, RequestError, DecisionOutcome, DecisionProbability,
  validate_request, decision_version, sequential_admission, max_decision_candidates,
}
use veto.Router.Telemetry.{merge_decision_telemetry}
use veto.Router.Events.{Effect, emit, log, event, ask_start, ask_accept, ask_reject, ask_error}
use veto.Router.Executors.{Environment}
use veto.Router.Admission.{AdmissionGate, Asked, ask_with_timeout_measured, rejection}
use veto.Router.Measurement.{no_telemetry}

pub data DecideError : Type 0 where
  bad_request : RequestError → DecideError
  canceled : String → DecideError
  -- an error of another engine
  engine_error : String → DecideError

pub data Decided (F : Type 0) : Type 0 where
  decided : DecisionOutcome F → Decided F
  failed : DecideError → Decided F

-- What the loop carries: the world, the calls made, the outcome so far and the effects so far.
pub record Progress (F W : Type 0) : Type 0 where
  pub world : W
  pub attempts : ℕ
  pub outcome : DecisionOutcome F
  pub effects : List (Effect F)

-- One round goes on to the next candidate, or ends the loop.
pub data Round (F W : Type 0) : Type 0 where
  next : Progress F W → Round F W
  stop : Progress F W → Decided F → Round F W

module _ {F : Type 0} ⦃fl : Float64 F⦄ where
  abbrev pub unknown_probability : DecisionProbability F
  unknown_probability = record { value = fzero; known = false }

  abbrev pub empty_outcome : DecisionOutcome F
  empty_outcome = record {
    admission = none;
    version = decision_version;
    selected_candidate = "";
    probability = unknown_probability;
    confidence = unknown_probability;
    telemetry = no_telemetry;
    mode = sequential_admission;
    reasons = [];
  }

  -- The outcome when `model` accepts.
  unfoldable pub select :
      DecisionOutcome F → ModelCapabilities F → AdmissionDecision F → DecisionOutcome F
  select o model decision = record o {
    selected_candidate = model.name;
    admission = some decision;
    confidence =
        if le fzero decision.confidence && le decision.confidence (fl.lit 1 0)
        then record { value = decision.confidence; known = true }
        else o.confidence;
  }

  -- The end of a round after an answer; the test is whether it accepts.
  unfoldable pub answered :
      {W : Type 0} → Bool → ModelCapabilities F → AdmissionDecision F → Progress F W → Round F W
  unfolding select
  answered true model decision p =
      stop
        (record p {
          effects =
              p.effects
              ++ log model.name decision
                ∷ emit (record (event ask_accept model.name) {
                  confidence = decision.confidence;
                  est_tokens = decision.estimated_tokens;
                  est_cost = decision.estimated_cost_usd;
                })
                ∷ [];
        })
        (decided (select p.outcome model decision))
  answered false model decision p = next (record p {
    effects =
        p.effects
        ++ log model.name decision
          ∷ emit (record (event ask_reject model.name) { reasons = decision.reason_codes })
          ∷ [];
  })

  -- The end of a round after an error, with the error of the context.
  unfoldable pub errored :
      {W : Type 0} → Option String → ModelCapabilities F → String → Progress F W → Round F W
  errored (some cause) model message p = stop p (failed (canceled cause))
  errored none model message p = next (record p {
    effects =
        p.effects
        ++ log model.name (rejection reason_parse_failure)
          ∷ emit (record (event ask_error model.name) { detail = message ∷ [] })
          ∷ [];
  })

  -- What a call adds before its answer is looked at.
  abbrev pub after_call :
      {W : Type 0} → ModelCapabilities F → W → Asked F → Progress F W → Progress F W
  after_call model world asked p = record {
    world = world;
    attempts = suc p.attempts;
    outcome = record p.outcome {
      telemetry =
          merge_decision_telemetry p.outcome.telemetry asked.telemetry (nat_eq (suc p.attempts) 1);
    };
    effects = p.effects ++ emit (event ask_start model.name) ∷ [];
  }

  module _ {W : Type 0} (env : Environment F W) (g : AdmissionGate) where
    -- The end of a round, with the error of the call.
    unfoldable pub conclude :
        Option String → ModelCapabilities F → AdmissionDecision F → Progress F W → Round F W
    unfolding answered errored
    conclude none model decision p = answered decision.accept model decision p
    conclude (some message) model decision p = errored (env.context_error p.world) model message p

    unfoldable pub ask : TaskSpec F → ModelCapabilities F → ℤ → Progress F W → Round F W
    unfolding conclude merge_decision_telemetry
    ask task model timeout p =
        let (world, asked) = ask_with_timeout_measured env g task model timeout p.world in
        conclude asked.error model asked.decision (after_call model world asked p)

    -- The body of the loop.
    unfoldable pub round : TaskSpec F → ModelCapabilities F → ℤ → Progress F W → Round F W
    unfolding ask contains
    round task model timeout p =
        if contains task.skip_models model.name
        then next p
        else if leb max_decision_candidates p.attempts
        then stop p (decided p.outcome)
        else elim (env.context_error p.world) [
          | some canceled_by ↦ stop p (failed (canceled canceled_by))
          | none ↦ ask task model timeout p
        ]

    unfoldable pub rounds :
        TaskSpec F → ℤ → List (DecisionCandidate F) → Progress F W → Progress F W × Decided F
    unfolding round
    rounds task timeout [] p = (p, decided p.outcome)
    rounds task timeout (c ∷ cs) p = elim (round task c.model timeout p) [
      | next p' ↦ rounds task timeout cs p'
      | stop p' result ↦ (p', result)
    ]

    -- SequentialAdmissionEngine.Decide
    unfoldable pub decide : DecisionRequest F → ℤ → W → Progress F W × Decided F
    unfolding validate_request rounds
    decide request timeout w = elim (validate_request request) [
      | some e ↦ (
        record { world = w; attempts = 0; outcome = empty_outcome; effects = [] },
        failed (bad_request e),
      )
      | none ↦
          rounds request.task timeout request.candidates
            (record { world = w; attempts = 0; outcome = empty_outcome; effects = [] })
    ]
