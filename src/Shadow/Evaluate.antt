-- ===== src/Shadow/Evaluate.antt =====
-- pkg/shadow/report.go: Evaluate.
pub mod Total
use veto.Shared.{ℕ, String, true, false, ◌||◌, Option, none, some, List, length, if◌then◌else◌}
use veto.Shared.Float.{Float64, FloatMath, fzero, gt}
use veto.Shadow.Records.{Dataset}
use veto.Shadow.Report.{Rate, Side, Tally, tally_routes, no_tally, rate, distribution}
use veto.Shadow.Calibration.{Calibration, sample_metrics}
use veto.Shadow.Readiness.{ReadinessStatus, ready, ReadinessGate, DecisionMetrics, Report, verdict}
use veto.Shadow.Promotion.{divergent_outcome_coverage, pairing, gates, statuses}

-- The result of Evaluate: an error, a panic of an index out of range, or a report with its gates
-- and its verdict.
pub data Evaluation (F : Type 0) : Type 0 where
  bad_confidence panics : Evaluation F
  evaluated : Report F → List (String × ReadinessGate F) → ReadinessStatus → Evaluation F

module _ {F : Type 0} ⦃fl : Float64 F⦄ where
  unfoldable pub metrics : Side F → Rate F × Calibration F → DecisionMetrics F
  unfolding distribution
  metrics side m = record {
    selections = side.selections;
    labeled = side.labeled;
    success = m.0;
    latency_ms = distribution side.latencies;
    cost_usd = distribution side.costs;
    calibration = m.1;
  }

  unfoldable pub report_of :
      F → ℕ → Tally F → Rate F × Calibration F → Rate F × Calibration F → Report F
  unfolding metrics rate
  report_of threshold routes t authority shadow = record {
    routes = routes;
    labeled_routes = t.authority.labeled;
    labeled_by_kind = t.labeled_by_kind;
    selection_agreement = rate t.agreements t.comparable;
    unavailable_or_error = rate t.shadow_failures routes;
    simulated_fallback = rate t.fallbacks routes;
    fallback_threshold = threshold;
    authority = metrics t.authority authority;
    shadow = metrics t.shadow shadow;
  }

  -- The last lines of Evaluate, from the results of sampleMetrics on.
  unfoldable pub finish :
      ⦃m : FloatMath F⦄
      → F
      → Dataset F
      → Tally F
      → Option (Rate F × Calibration F)
      → Option (Rate F × Calibration F)
      → Evaluation F
  unfolding report_of divergent_outcome_coverage pairing gates verdict
  finish threshold dataset t none shadow = panics
  finish threshold dataset t (some authority) none = panics
  finish threshold dataset t (some authority) (some shadow) =
      let report = report_of threshold (length dataset) t authority shadow in
      let gs =
        gates report (divergent_outcome_coverage dataset (record { total = 0; labeled = 0 }))
          (pairing false threshold dataset) (pairing true threshold dataset) in
      evaluated report gs (verdict ready (statuses gs))

  -- Evaluate
  unfoldable pub evaluate : ⦃m : FloatMath F⦄ → Dataset F → F → Evaluation F
  unfolding tally_routes sample_metrics finish
  evaluate dataset threshold =
      let t = tally_routes threshold dataset no_tally in
      if fl.lt threshold fzero || gt threshold (fl.lit 1 0) || fl.is_nan threshold
      then bad_confidence
      else finish threshold dataset t (sample_metrics t.authority.samples)
          (sample_metrics t.shadow.samples)
