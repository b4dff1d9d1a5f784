-- ===== src/Shadow/Records.antt =====
-- pkg/shadow/evidence.go: the recorded evidence, and the replayed dataset of jsonl.go. A
-- time is its distance in nanoseconds from the zero time. An `other_status` is none of the seven.
use veto.Shared.{String, Bool, Option, List}
use veto.Shared.Int.{ℤ}

pub data DecisionStatus : Type 0 where
  selected no_selection error unavailable timeout canceled malformed : DecisionStatus
  other_status : String → DecisionStatus

abbrev pub status_text : DecisionStatus → String
status_text selected = "selected"
status_text no_selection = "no_selection"
status_text error = "error"
status_text unavailable = "unavailable"
status_text timeout = "timeout"
status_text canceled = "canceled"
status_text malformed = "malformed"
status_text (other_status text) = text

pub record KnownFloat (F : Type 0) : Type 0 where
  pub known : Bool
  pub value : F

pub record KnownBool : Type 0 where
  pub known : Bool
  pub value : Bool

pub record KnownUsage : Type 0 where
  pub known : Bool
  pub input_tokens : ℤ
  pub output_tokens : ℤ
  pub total_tokens : ℤ

pub record KnownDuration : Type 0 where
  pub known : Bool
  pub millis : ℤ

pub record Telemetry (F : Type 0) : Type 0 where
  pub usage : KnownUsage
  pub cost_usd : KnownFloat F
  pub latency : KnownDuration

pub record DecisionEvidence (F : Type 0) : Type 0 where
  pub status : DecisionStatus
  pub selected_candidate : String
  pub probability : KnownFloat F
  pub confidence : KnownFloat F
  pub telemetry : Telemetry F
  pub error_code : String

pub record RouteComparison (F : Type 0) : Type 0 where
  pub route_id : String
  pub observed_at : ℤ
  pub task_kind : String
  pub risk : String
  pub candidates : List String
  pub authority_strategy : String
  pub shadow_strategy : String
  pub authority : DecisionEvidence F
  pub shadow : DecisionEvidence F

pub record ExecutionLabel (F : Type 0) : Type 0 where
  pub route_id : String
  pub observed_at : ℤ
  pub candidate : String
  pub success : KnownBool
  pub score : KnownFloat F
  pub usage : KnownUsage
  pub cost_usd : KnownFloat F
  pub latency : KnownDuration

-- One line of the stream: of the two payloads exactly the one that the type names.
pub record Event (F : Type 0) : Type 0 where
  pub schema_version : ℤ
  pub type : String
  pub comparison : Option (RouteComparison F)
  pub label : Option (ExecutionLabel F)

-- RouteRecord: a comparison with the labels of its candidates.
pub record RouteRecord (F : Type 0) : Type 0 where
  pub comparison : RouteComparison F
  pub labels : List (String × ExecutionLabel F)

-- The routes of a Dataset.
abbrev pub Dataset : Type 0 → Type 0
Dataset F = List (RouteRecord F)
