-- ===== src/Router/Decision.antt =====
-- pkg/router/decision.go: the contract between the router and a decision engine.
-- An error's text is not modelled; each place that makes one has a constructor.
pub mod Measured
pub mod Requests
use veto.Shared.{
  ℕ, String, Bool, true, false, not, ◌&&◌, ◌||◌, Option, none, some, List, [], ◌∷◌, length, ltb,
  nat_eq, if◌then◌else◌,
}
use veto.Shared.Int.{ℤ, pos, eq_ℤ, is_zero, is_negative}
use veto.Shared.Float.{Float64, fzero, gt, is_nonfinite}
use veto.Shared.Text.{◌==◌, contains, trim_space}
use veto.Router.Types.{TaskSpec, ModelCapabilities, AdmissionDecision}

abbrev pub decision_version : ℤ
decision_version = pos 1

abbrev pub max_decision_candidates : ℕ
max_decision_candidates = 3

-- pkg/router/admission.go
pub record ToolCapabilities : Type 0 where
  pub tools : List String
  pub known : Bool

pub record DecisionCandidate (F : Type 0) : Type 0 where
  pub model : ModelCapabilities F
  pub tools : ToolCapabilities

-- The private options of the sequential engine stand beside the request, in its own arguments.
pub record DecisionRequest (F : Type 0) : Type 0 where
  pub version : ℤ
  pub task : TaskSpec F
  pub candidates : List (DecisionCandidate F)
  pub shadow_route_id : String

pub data RequestError : Type 0 where
  unsupported_version candidate_count empty_name duplicate : RequestError

-- The loop over the candidates, with the names seen so far.
unfoldable pub validate_candidates :
    {F : Type 0} → List String → List (DecisionCandidate F) → Option RequestError
unfolding trim_space contains
validate_candidates seen [] = none
validate_candidates seen (c ∷ cs) =
    let rest = validate_candidates (c.model.name ∷ seen) cs in
    if trim_space c.model.name == ""
    then some empty_name
    else if contains seen c.model.name
    then some duplicate
    else rest

-- DecisionRequest.Validate; `none` is the nil error.
unfoldable pub validate_request : {F : Type 0} → DecisionRequest F → Option RequestError
unfolding validate_candidates
validate_request r =
    if not (eq_ℤ r.version decision_version)
    then some unsupported_version
    else if nat_eq (length r.candidates) 0 || ltb max_decision_candidates (length r.candidates)
    then some candidate_count
    else validate_candidates [] r.candidates

abbrev pub DecisionMode : Type 0
DecisionMode = String

abbrev pub sequential_admission : DecisionMode
sequential_admission = "sequential-admission"

pub record DecisionProbability (F : Type 0) : Type 0 where
  pub value : F
  pub known : Bool

pub record DecisionTelemetry (F : Type 0) : Type 0 where
  pub input_tokens : ℤ
  pub output_tokens : ℤ
  pub total_tokens : ℤ
  pub usage_known : Bool
  pub cached_input_tokens : ℤ
  pub cached_input_known : Bool
  pub cost_usd : F
  pub cost_known : Bool
  pub latency_ms : ℤ
  pub latency_known : Bool

pub record DecisionReason : Type 0 where
  pub code : String
  pub detail : String

pub record DecisionOutcome (F : Type 0) : Type 0 where
  pub admission : Option (AdmissionDecision F)
  pub version : ℤ
  pub selected_candidate : String
  pub probability : DecisionProbability F
  pub confidence : DecisionProbability F
  pub telemetry : DecisionTelemetry F
  pub mode : DecisionMode
  pub reasons : List DecisionReason

pub data OutcomeError : Type 0 where
  bad_request : RequestError → OutcomeError
  bad_version bad_mode not_a_probability unknown_probability_value : OutcomeError
  negative_telemetry bad_cost unknown_usage unknown_cached_input : OutcomeError
  unknown_cost unknown_latency empty_reason : OutcomeError
  admission_without_selection probability_without_selection unknown_candidate : OutcomeError

-- The first error of two checks in a row.
infixr 20 ◌or_next◌
abbrev pub ◌or_next◌ : Option OutcomeError → Option OutcomeError → Option OutcomeError
none or_next b = b
(some e) or_next b = some e

abbrev fail_if : Bool → OutcomeError → Option OutcomeError
fail_if b e = if b then some e else none

unfoldable pub validate_reasons : List DecisionReason → Option OutcomeError
unfolding trim_space
validate_reasons [] = none
validate_reasons (r ∷ rs) =
    let rest = validate_reasons rs in if trim_space r.code == "" then some empty_reason else rest

unfoldable pub has_candidate : {F : Type 0} → List (DecisionCandidate F) → String → Bool
has_candidate [] name = false
has_candidate (c ∷ cs) name = c.model.name == name || has_candidate cs name

abbrev pub of_request_error : Option RequestError → Option OutcomeError
of_request_error none = none
of_request_error (some e) = some (bad_request e)

module _ {F : Type 0} ⦃fl : Float64 F⦄ where
  -- DecisionProbability.validate
  unfoldable pub validate_probability : DecisionProbability F → Option OutcomeError
  validate_probability p =
      fail_if (is_nonfinite p.value || fl.lt p.value fzero || gt p.value (fl.lit 1 0))
        not_a_probability
      or_next fail_if (not p.known && not (fl.eq p.value fzero)) unknown_probability_value

  -- DecisionTelemetry.validate
  unfoldable pub validate_telemetry : DecisionTelemetry F → Option OutcomeError
  validate_telemetry t =
      fail_if
        (is_negative t.input_tokens
          || is_negative t.output_tokens
          || is_negative t.total_tokens
          || is_negative t.cached_input_tokens
          || is_negative t.latency_ms)
        negative_telemetry
      or_next fail_if (is_nonfinite t.cost_usd || fl.lt t.cost_usd fzero) bad_cost
      or_next fail_if
          (not t.usage_known
            && (not (is_zero t.input_tokens)
                || not (is_zero t.output_tokens)
                || not (is_zero t.total_tokens)))
          unknown_usage
      or_next fail_if (not t.cached_input_known && not (is_zero t.cached_input_tokens))
          unknown_cached_input
      or_next fail_if (not t.cost_known && not (fl.eq t.cost_usd fzero)) unknown_cost
      or_next fail_if (not t.latency_known && not (is_zero t.latency_ms)) unknown_latency

  -- o.Admission != nil && (o.SelectedCandidate == "" || !o.Admission.Accept)
  abbrev pub has_stray_admission : DecisionOutcome F → Bool
  has_stray_admission o = elim o.admission [
    | none ↦ false
    | some a ↦ o.selected_candidate == "" || not a.accept
  ]

  unfoldable pub validate_selection :
      DecisionOutcome F → List (DecisionCandidate F) → Option OutcomeError
  unfolding has_candidate
  validate_selection o candidates =
      if o.selected_candidate == ""
      then fail_if o.probability.known probability_without_selection
      else fail_if (not (has_candidate candidates o.selected_candidate)) unknown_candidate

  -- DecisionOutcome.Validate
  unfoldable pub validate_outcome : DecisionOutcome F → DecisionRequest F → Option OutcomeError
  validate_outcome o request =
      of_request_error (validate_request request)
      or_next fail_if (not (eq_ℤ o.version decision_version)) bad_version
      or_next fail_if (not (o.mode == sequential_admission)) bad_mode
      or_next validate_probability o.probability
      or_next validate_probability o.confidence
      or_next validate_telemetry o.telemetry
      or_next validate_reasons o.reasons
      or_next fail_if (has_stray_admission o) admission_without_selection
      or_next validate_selection o request.candidates
