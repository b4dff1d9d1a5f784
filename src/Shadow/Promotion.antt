-- ===== src/Shadow/Promotion.antt =====
-- pkg/shadow/readiness.go: evaluateReadiness.
pub mod Thresholds
use veto.Shared.{
  ℕ, suc, ◌+◌, ◌*◌, String, Bool, true, false, not, ◌&&◌, ◌||◌, Option, none, some, List, [], ◌∷◌,
  map, length, ltb, leb, nat_eq, is_some, if◌then◌else◌,
}
use veto.Shared.Float.{Float64, FloatMath, fzero, le, gt}
use veto.Shared.Text.{◌==◌}
use veto.Shadow.Records.{RouteRecord, Dataset}
use veto.Shadow.Report.{is_selected, of_nat}
use veto.Shadow.Readiness.{
  GateStatus, pass, ReadinessStatus, ready, ReadinessGate, DecisionMetrics, Report, numeric_gate,
  all_of, covers, decision_success, paired_differences, mean, confidence_lower_bound, verdict,
}

-- The counts of divergentOutcomeCoverage.
pub record Coverage : Type 0 where
  pub total : ℕ
  pub labeled : ℕ

-- The evidence of one pairing: the number of differences, their lower bound, and for each kind the
-- number of differences and their mean.
pub record Pairing (F : Type 0) : Type 0 where
  pub count : ℕ
  pub lower : F
  pub kinds : List (ℕ × F)

module _ {F : Type 0} ⦃fl : Float64 F⦄ where
  -- The routes that divergentOutcomeCoverage counts.
  unfoldable pub is_divergent : RouteRecord F → Bool
  unfolding decision_success
  is_divergent r =
      is_selected r.comparison.authority.status
      && is_selected r.comparison.shadow.status
      && not (r.comparison.authority.selected_candidate == r.comparison.shadow.selected_candidate)
      && is_some (decision_success r r.comparison.authority)

  unfoldable pub divergent_outcome_coverage : Dataset F → Coverage → Coverage
  unfolding is_divergent decision_success
  divergent_outcome_coverage [] c = c
  divergent_outcome_coverage (r ∷ rs) c = divergent_outcome_coverage rs (
      if is_divergent r
      then record {
        total = suc c.total;
        labeled =
            if is_some (decision_success r r.comparison.shadow) then suc c.labeled else c.labeled;
      }
      else c)

  unfoldable pub pairing : ⦃m : FloatMath F⦄ → Bool → F → Dataset F → Pairing F
  unfolding paired_differences mean confidence_lower_bound
  pairing hybrid threshold dataset =
      let (all, by_kind) = paired_differences hybrid threshold dataset [] [] in
      record {
        count = length all;
        lower = confidence_lower_bound all;
        kinds = map (λ entry. (length entry.1, mean entry.1)) by_kind;
      }

  -- -0.02 and -0.05
  abbrev pub margin : F
  margin = fl.sub fzero (fl.lit 2 2)

  abbrev pub kind_margin : F
  kind_margin = fl.sub fzero (fl.lit 5 2)

  abbrev pub kinds_enough : Pairing F → Bool
  kinds_enough p = leb 5 (length p.kinds) && all_of (λ k. leb 30 k.0) p.kinds

  abbrev pub kinds_pass : Pairing F → Bool
  kinds_pass p = all_of (λ k. le kind_margin k.1) p.kinds

  unfoldable pub coverage_pass : Report F → Bool
  coverage_pass report =
      leb 500 report.labeled_routes
      && leb 5 (length report.labeled_by_kind)
      && all_of (λ k. leb 30 k.1) report.labeled_by_kind

  abbrev pub paired_enough : Report F → Pairing F → Bool
  paired_enough report p =
      leb 500 p.count && ltb 0 report.labeled_routes && covers p.count report.labeled_routes

  unfoldable pub noninferiority_gate : Report F → Pairing F → ReadinessGate F
  unfolding numeric_gate
  noninferiority_gate report p =
      numeric_gate (paired_enough report p && le margin p.lower && kinds_pass p)
        (paired_enough report p && kinds_enough p) p.lower p.count

  unfoldable pub calibration_gate : Report F → ReadinessGate F
  unfolding numeric_gate
  calibration_gate report =
      let s = report.shadow.calibration in
      let a = report.authority.calibration in
      numeric_gate (le s.brier_score a.brier_score && le s.ece (fl.lit 5 2))
        (leb 500 s.samples && leb 500 a.samples && covers s.samples report.labeled_routes) s.ece
        s.samples

  unfoldable pub latency_gate : Report F → ReadinessGate F
  unfolding numeric_gate
  latency_gate report =
      let l = report.shadow.latency_ms in
      numeric_gate (le l.p95 (fl.lit 750 0)) (ltb 0 report.routes && covers l.known report.routes)
        l.p95 l.known

  unfoldable pub availability_gate : Report F → ReadinessGate F
  unfolding numeric_gate
  availability_gate report =
      let value = report.unavailable_or_error.value in
      numeric_gate (le value (fl.lit 1 2)) (leb 500 report.routes) value report.routes

  abbrev pub cost_ratio : Report F → F
  cost_ratio report =
      if gt report.authority.cost_usd.average fzero
      then fl.div report.shadow.cost_usd.average report.authority.cost_usd.average
      else fzero

  unfoldable pub cost_gate : Report F → ReadinessGate F
  unfolding numeric_gate
  cost_gate report =
      let a = report.authority.cost_usd in
      let s = report.shadow.cost_usd in
      numeric_gate (le (cost_ratio report) (fl.lit 100000000001 12))
        (ltb 0 report.routes
          && covers a.known report.routes
          && covers s.known report.routes
          && gt a.average fzero)
        (cost_ratio report) (if leb a.known s.known then a.known else s.known)

  unfoldable pub hybrid_gate : Report F → Pairing F → ReadinessGate F
  unfolding numeric_gate
  hybrid_gate report p =
      numeric_gate
        (le report.simulated_fallback.value (fl.lit 20 2) && le margin p.lower && kinds_pass p)
        (paired_enough report p && kinds_enough p) report.simulated_fallback.value p.count

  unfoldable pub divergence_gate : Coverage → ReadinessGate F
  unfolding numeric_gate
  divergence_gate c =
      let complete = nat_eq c.labeled c.total in
      numeric_gate complete complete
        (if ltb 0 c.total then fl.div (of_nat c.labeled) (of_nat c.total) else fl.lit 1 0) c.total

  -- A gate that holds by the design of the schema.
  abbrev structural_gate : ReadinessGate F
  structural_gate = record { status = pass; observed = fl.lit 1 0; samples = 1 }

  -- The map of gates, by name.
  unfoldable pub gates :
      Report F → Coverage → Pairing F → Pairing F → List (String × ReadinessGate F)
  unfolding numeric_gate coverage_pass divergence_gate noninferiority_gate calibration_gate
  gates report c direct hybrid =
      (
        "labeled_coverage",
        numeric_gate (coverage_pass report) (coverage_pass report) (of_nat report.labeled_routes)
            report.labeled_routes,
      )
      ∷ ("divergent_outcome_coverage", divergence_gate c)
      ∷ ("routing_success_noninferiority", noninferiority_gate report direct)
      ∷ ("calibration", calibration_gate report)
      ∷ ("latency", latency_gate report)
      ∷ ("availability", availability_gate report)
      ∷ ("decision_cost", cost_gate report)
      ∷ ("simulated_hybrid", hybrid_gate report hybrid)
      ∷ ("privacy_schema", structural_gate)
      ∷ ("zero_routing_influence", structural_gate)
      ∷ []

  -- The statuses of the gates, in the order in which a loop over the map visits them.
  abbrev pub statuses : List (String × ReadinessGate F) → List GateStatus
  statuses gs = map (λ g. g.1.status) gs
