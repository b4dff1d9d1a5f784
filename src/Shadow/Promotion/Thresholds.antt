-- ===== src/Shadow/Promotion/Thresholds.antt =====
-- What a verdict of readiness says about the evidence.
use mathlib.Core.List.{Perm}
use veto.Shared.{◌*◌, ◌≤◌, ◌≡◌, sym, ◌∙◌, Bool, true, ◌&&◌, List, [], ◌∷◌, All, length, arith, leb}
use veto.Shared.Float.{Float64, fzero, le, gt}
use veto.Shadow.Readiness.{GateStatus, pass, ready, Report, numeric_gate, all_of, verdict}
use veto.Shadow.Readiness.Verdict.{verdict-perm, worst-ready}
use veto.Shadow.Promotion.{
  Coverage, Pairing, margin, kind_margin, kinds_enough, kinds_pass, coverage_pass, paired_enough,
  noninferiority_gate, calibration_gate, latency_gate, availability_gate, cost_ratio, cost_gate,
  hybrid_gate, divergence_gate, gates, statuses,
}

all_of-All :
    {A : Type 0} (p : A → Bool) (xs : List A) → all_of p xs ≡ true → All (λ x. p x ≡ true) xs
all_of-All p [] h = tt
all_of-All p (x ∷ xs) h = (ground (arith, h), all_of-All p xs (ground (arith, h)))

module _ {F : Type 0} ⦃fl : Float64 F⦄ where
  -- At least 500 pairs that cover 95% of the labeled routes, at least five kinds with 30 pairs
  -- each, a lower bound of -0.02 and a mean of -0.05 for each kind.
  pub record IsNoninferior (report : Report F) (p : Pairing F) : Type 0 where
    pub pairs : 500 ≤ p.count
    pub coverage : report.labeled_routes * 95 ≤ p.count * 100
    pub kinds : 5 ≤ length p.kinds
    pub each_kind : All (λ k. leb 30 k.0 ≡ true) p.kinds
    pub lower : le margin p.lower ≡ true
    pub each_mean : All (λ k. le kind_margin k.1 ≡ true) p.kinds

  -- The thresholds of the promotion policy. Apart from the bounds on the values, each value has to
  -- rest on enough evidence: 500 samples for each calibration, and known latencies and costs for 95%
  -- of the routes, of which there are some.
  pub record IsPromotable (report : Report F) (c : Coverage) (direct hybrid : Pairing F)
      : Type 0 where
    pub labeled : 500 ≤ report.labeled_routes
    pub kinds : 5 ≤ length report.labeled_by_kind
    pub each_kind : All (λ k. leb 30 k.1 ≡ true) report.labeled_by_kind
    pub divergent : c.labeled ≡ c.total
    pub noninferior : IsNoninferior report direct
    pub brier :
        le report.shadow.calibration.brier_score report.authority.calibration.brier_score ≡ true
    pub shadow_samples : 500 ≤ report.shadow.calibration.samples
    pub authority_samples : 500 ≤ report.authority.calibration.samples
    pub sampled : report.labeled_routes * 95 ≤ report.shadow.calibration.samples * 100
    pub ece : le report.shadow.calibration.ece (fl.lit 5 2) ≡ true
    pub latency : le report.shadow.latency_ms.p95 (fl.lit 750 0) ≡ true
    pub timed : report.routes * 95 ≤ report.shadow.latency_ms.known * 100
    pub available : le report.unavailable_or_error.value (fl.lit 1 2) ≡ true
    pub routes : 500 ≤ report.routes
    pub cost : le (cost_ratio report) (fl.lit 100000000001 12) ≡ true
    pub shadow_costs : report.routes * 95 ≤ report.shadow.cost_usd.known * 100
    pub authority_costs : report.routes * 95 ≤ report.authority.cost_usd.known * 100
    pub charged : gt report.authority.cost_usd.average fzero ≡ true
    pub fallback : le report.simulated_fallback.value (fl.lit 20 2) ≡ true
    pub hybrid_noninferior : IsNoninferior report hybrid

  IsNoninferior-of :
      (report : Report F) (p : Pairing F)
      → paired_enough report p && kinds_enough p ≡ true
      → le margin p.lower && kinds_pass p ≡ true
      → IsNoninferior report p
  IsNoninferior-of report p enough good = record {
    pairs = ground (arith, enough);
    coverage = ground (arith, enough);
    kinds = ground (arith, enough);
    each_kind = all_of-All _ p.kinds (ground (arith, enough));
    lower = ground (arith, good);
    each_mean = all_of-All _ p.kinds (ground (arith, good));
  }

  IsPromotable-of :
      (report : Report F) (c : Coverage) (direct hybrid : Pairing F)
      → All (λ g. g ≡ pass) (statuses (gates report c direct hybrid))
      → IsPromotable report c direct hybrid
  unfolding gates numeric_gate divergence_gate noninferiority_gate calibration_gate latency_gate
      availability_gate cost_gate hybrid_gate coverage_pass
  IsPromotable-of report c direct hybrid a = record {
    labeled = ground (arith, a.0);
    kinds = ground (arith, a.0);
    each_kind = all_of-All _ report.labeled_by_kind (ground (arith, a.0));
    divergent = ground (arith, a.1.0);
    noninferior =
        IsNoninferior-of report direct (ground (arith, a.1.1.0)) (ground (arith, a.1.1.0));
    brier = ground (arith, a.1.1.1.0);
    shadow_samples = ground (arith, a.1.1.1.0);
    authority_samples = ground (arith, a.1.1.1.0);
    sampled = ground (arith, a.1.1.1.0);
    ece = ground (arith, a.1.1.1.0);
    latency = ground (arith, a.1.1.1.1.0);
    timed = ground (arith, a.1.1.1.1.0);
    available = ground (arith, a.1.1.1.1.1.0);
    routes = ground (arith, a.1.1.1.1.1.0);
    cost = ground (arith, a.1.1.1.1.1.1.0);
    shadow_costs = ground (arith, a.1.1.1.1.1.1.0);
    authority_costs = ground (arith, a.1.1.1.1.1.1.0);
    charged = ground (arith, a.1.1.1.1.1.1.0);
    fallback = ground (arith, a.1.1.1.1.1.1.1.0);
    hybrid_noninferior =
        IsNoninferior-of report hybrid (ground (arith, a.1.1.1.1.1.1.1.0))
          (ground (arith, a.1.1.1.1.1.1.1.0));
  }

  -- Whichever order the gates are visited in, a verdict of readiness means that the evidence meets
  -- the thresholds of the promotion policy.
  pub ready-IsPromotable :
      (report : Report F) (c : Coverage) (direct hybrid : Pairing F) (visited : List GateStatus)
      → Perm visited (statuses (gates report c direct hybrid))
      → verdict ready visited ≡ ready
      → IsPromotable report c direct hybrid
  ready-IsPromotable report c direct hybrid visited q h =
      let all_gates = statuses (gates report c direct hybrid) in
      IsPromotable-of report c direct hybrid
        (worst-ready all_gates (sym (verdict-perm all_gates visited q) ∙ h))
