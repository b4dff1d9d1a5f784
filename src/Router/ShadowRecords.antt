-- ===== src/Router/ShadowRecords.antt =====
-- pkg/router/shadow.go: the records of a shadow comparison, and what a shadow answers.
use veto.Shared.{String, Bool, Option, List}
use veto.Shared.Int.{ℤ}
use veto.Router.Types.{TaskKind, Risk}
use veto.Router.Decision.{DecisionProbability, DecisionTelemetry}

-- ShadowRecordStatus
pub data ShadowRecordStatus : Type 0 where
  selected no_selection error unavailable timeout canceled malformed : ShadowRecordStatus

pub record ShadowPrediction (F : Type 0) : Type 0 where
  pub selected_candidate : String
  pub probability : DecisionProbability F
  pub confidence : DecisionProbability F
  pub telemetry : DecisionTelemetry F

pub record ShadowDecisionRecord (F : Type 0) : Type 0 where
  pub status : ShadowRecordStatus
  pub selected_candidate : String
  pub probability : DecisionProbability F
  pub confidence : DecisionProbability F
  pub telemetry : DecisionTelemetry F
  pub error_code : String

pub record ShadowComparisonRecord (F : Type 0) : Type 0 where
  pub route_id : String
  pub observed_at : ℤ
  pub task_kind : TaskKind
  pub risk : Risk
  pub candidates : List String
  pub authority_strategy : String
  pub shadow_strategy : String
  pub authority : ShadowDecisionRecord F
  pub shadow : ShadowDecisionRecord F

-- The classes of a decider's error that errors.Is tells apart.
pub data ShadowError : Type 0 where
  deadline_exceeded context_canceled response_malformed decider_unavailable other : ShadowError

-- shadowResult
pub record ShadowResult (F : Type 0) : Type 0 where
  pub prediction : ShadowPrediction F
  pub err : Option ShadowError
  pub panicked : Bool
