-- ===== src/Router/Events.antt =====
-- pkg/router/events.go: the progress events of a route.
use veto.Shared.{ℕ, String, Bool, true, false, Option, none, some, List, [], if◌then◌else◌}
use veto.Shared.Int.{ℤ, pos}
use veto.Shared.Float.{Float64, fzero}
use veto.Router.Types.{AdmissionDecision}
use veto.Router.Decision.{DecisionMode, DecisionOutcome, decision_version, sequential_admission}

pub data EventKind : Type 0 where
  decision_started decision_completed decision_error filter_pass filter_fail : EventKind
  shortlist ask_start ask_accept ask_reject ask_error : EventKind

pub record DecisionProgress (F : Type 0) : Type 0 where
  pub version : ℤ
  pub mode : DecisionMode
  pub candidate_count : ℕ
  pub status : String
  pub selected_model : String
  pub input_tokens : Option ℤ
  pub output_tokens : Option ℤ
  pub total_tokens : Option ℤ
  pub cached_input_tokens : Option ℤ
  pub cost_usd : Option F
  pub latency_ms : Option ℤ

-- `detail` lists what the source joins to a text.
pub record ProgressEvent (F : Type 0) : Type 0 where
  pub decision : Option (DecisionProgress F)
  pub kind : EventKind
  pub model : String
  pub reasons : List String
  pub confidence : F
  pub est_tokens : ℤ
  pub est_cost : F
  pub detail : List String

unfoldable pub is_decision_event : EventKind → Bool
is_decision_event decision_started = true
is_decision_event decision_completed = true
is_decision_event decision_error = true
is_decision_event _ = false

-- What a route does to its surroundings, in order: an event for the handler, a line for the store.
pub data Effect (F : Type 0) : Type 0 where
  emit : ProgressEvent F → Effect F
  log : String → AdmissionDecision F → Effect F

abbrev when_known {ℓ} : {A : Type ℓ} → Bool → A → Option A
when_known known a = if known then some a else none

module _ {F : Type 0} ⦃fl : Float64 F⦄ where
  -- An event with its kind and model, all other fields zero.
  abbrev pub event : EventKind → String → ProgressEvent F
  event kind model = record {
    decision = none;
    kind = kind;
    model = model;
    reasons = [];
    confidence = fzero;
    est_tokens = pos 0;
    est_cost = fzero;
    detail = [];
  }

  -- decisionProgress
  unfoldable pub decision_progress : ℕ → String → Option (DecisionOutcome F) → DecisionProgress F
  decision_progress count status none = record {
    version = decision_version;
    mode = sequential_admission;
    candidate_count = count;
    status = status;
    selected_model = "";
    input_tokens = none;
    output_tokens = none;
    total_tokens = none;
    cached_input_tokens = none;
    cost_usd = none;
    latency_ms = none;
  }
  decision_progress count status (some outcome) = record {
    version = decision_version;
    mode = sequential_admission;
    candidate_count = count;
    status = status;
    selected_model = outcome.selected_candidate;
    input_tokens = when_known t.usage_known t.input_tokens;
    output_tokens = when_known t.usage_known t.output_tokens;
    total_tokens = when_known t.usage_known t.total_tokens;
    cached_input_tokens = when_known t.cached_input_known t.cached_input_tokens;
    cost_usd = when_known t.cost_known t.cost_usd;
    latency_ms = when_known t.latency_known t.latency_ms;
  }
    where
      open outcome use {telemetry as t}
