-- ===== src/Shadow/Evaluate/Total.antt =====
-- Evaluate of replayed evidence: no index of a calibration bin is out of range.
use veto.Shared.{
  ◌≡◌, refl, String, true, false, ◌&&◌, ◌||◌, Option, none, some, List, [], ◌∷◌, All, All-append,
  arith, Bool-cases, inl, inr,
}
use veto.Shared.Float.{Float64, FloatMath, IsIeee, fzero, le, gt}
use veto.Shared.Text.{Unicode}
use veto.Shadow.Records.{KnownFloat, KnownBool, DecisionEvidence, ExecutionLabel, Event, Dataset}
use veto.Shadow.Evidence.Checked.{IsFraction}
use veto.Shadow.Evidence.Sound.{validate_comparison-IsSound}
use veto.Shadow.Replay.{replayed, materialize}
use veto.Shadow.Replay.Consistent.{IsRecord, materialize-IsConsistent}
use veto.Shadow.Report.{
  Rate, Side, Tally, selected_label, tally_side, tally_route, tally_routes, no_tally,
}
use veto.Shadow.Readiness.{Report, ReadinessGate, ready, verdict}
use veto.Shadow.Promotion.{statuses}
use veto.Shadow.Calibration.{Calibration, estimate_of, sample_metrics}
use veto.Shadow.Calibration.Bins.{IsTruncation, IsProbable, sample_metrics-IsBinned}
use veto.Shadow.Evaluate.{evaluated, finish, evaluate}

module _ {F : Type 0} ⦃fl : Float64 F⦄ where
  abbrev pub IsEstimate : F → Type 0
  IsEstimate x = le fzero x && le x (fl.lit 1 0) ≡ true

  module _ (ieee : IsIeee F) where
    fraction-IsEstimate : (v : KnownFloat F) → IsFraction v → IsEstimate v.value
    fraction-IsEstimate v h = ground (
      arith,
      ieee.zero_finite,
      ieee.number_of_lt fzero (fl.lit 1 0) ieee.zero_lt_one,
      ieee.total fzero v.value,
      ieee.total v.value (fl.lit 1 0),
      ieee.eq_symm fzero v.value,
    )

    decision-IsProbable :
        (d : DecisionEvidence F) (success : KnownBool)
        → IsFraction d.probability
        → IsFraction d.confidence
        → IsProbable
            (record { probability = d.probability; confidence = d.confidence; success = success })
    unfolding estimate_of
    decision-IsProbable d success p c known = elim (Bool-cases d.probability.known) [
      | inl has ↦ rw (has, estimate_of) (fraction-IsEstimate d.probability p)
      | inr hasnt ↦ rw (hasnt, estimate_of) (fraction-IsEstimate d.confidence c)
    ]

    tally_side-IsProbable :
        (d : DecisionEvidence F) (label : Option (ExecutionLabel F)) (s : Side F)
        → IsFraction d.probability
        → IsFraction d.confidence
        → All IsProbable s.samples
        → All IsProbable (tally_side d label s).samples
    unfolding tally_side
    tally_side-IsProbable d none s p c h = h
    tally_side-IsProbable d (some l) s p c h =
        All-append IsProbable s.samples _ h (decision-IsProbable d l.success p c, tt)

    tally_routes-IsProbable :
        (threshold : F) (rs : Dataset F) (t : Tally F)
        → All IsRecord rs
        → All IsProbable t.authority.samples
        → All IsProbable t.shadow.samples
        → All IsProbable (tally_routes threshold rs t).authority.samples
          × All IsProbable (tally_routes threshold rs t).shadow.samples
    unfolding tally_routes tally_route
    tally_routes-IsProbable threshold [] t h a s = (a, s)
    tally_routes-IsProbable threshold (r ∷ rs) t (h, later) a s =
        let sound = validate_comparison-IsSound r.comparison h.valid in
        let authority = r.comparison.authority in
        let shadow = r.comparison.shadow in
        tally_routes-IsProbable threshold rs (tally_route threshold r t) later
          (tally_side-IsProbable authority (selected_label authority r.labels) t.authority
            sound.authority.probability sound.authority.confidence a)
          (tally_side-IsProbable shadow (selected_label shadow r.labels) t.shadow
            sound.shadow.probability sound.shadow.confidence s)

    module _ ⦃m : FloatMath F⦄ (law : IsTruncation m) where
      threshold_accepted :
          (x : F) → IsEstimate x → fl.lt x fzero || gt x (fl.lit 1 0) || fl.is_nan x ≡ false
      threshold_accepted x p = ground (
        arith,
        ieee.number_of_lt fzero x,
        ieee.eq_excludes fzero x,
        ieee.lt_trans fzero x fzero,
        ieee.lt_irrefl fzero,
        ieee.eq_excludes x (fl.lit 1 0),
        ieee.lt_trans x (fl.lit 1 0) x,
        ieee.lt_irrefl x,
      )

      finish-evaluated :
          (threshold : F) (dataset : Dataset F) (t : Tally F)
          (authority shadow : Rate F × Calibration F) (a s : Option (Rate F × Calibration F))
          → a ≡ some authority
          → s ≡ some shadow
          → (report : Report F) × (gs : List (String × ReadinessGate F)) × (finish threshold dataset
                t a s
              ≡ evaluated report gs (verdict ready (statuses gs)))
      unfolding finish
      finish-evaluated threshold dataset t authority shadow none s ha hs = cc
      finish-evaluated threshold dataset t authority shadow (some a) none ha hs = cc
      finish-evaluated threshold dataset t authority shadow (some a) (some s) ha hs = (_, _, refl)

      evaluate-evaluated :
          (threshold : F) (dataset : Dataset F)
          → IsEstimate threshold
          → All IsRecord dataset
          → (report : Report F) × (gs : List (String × ReadinessGate F)) × (evaluate dataset
                threshold
              ≡ evaluated report gs (verdict ready (statuses gs)))
      unfolding evaluate
      evaluate-evaluated threshold dataset p h =
          let (a, s) = tally_routes-IsProbable threshold dataset no_tally h tt tt in
          let t = tally_routes threshold dataset no_tally in
          let (ea, ra, _) = sample_metrics-IsBinned law t.authority.samples a in
          let (es, rs, _) = sample_metrics-IsBinned law t.shadow.samples s in
          rw (threshold_accepted threshold p) (
            finish-evaluated threshold dataset t _ _ (sample_metrics t.authority.samples)
              (sample_metrics t.shadow.samples) ra rs)

      -- For a confidence between 0 and 1, a stream that Materialize accepts is evaluated to a report
      -- with its gates and their verdict: Evaluate neither fails nor indexes a bin out of range,
      -- given the laws of IEEE 754 and that int(10 x) is between 0 and 10 for an x between 0 and 1.
      pub evaluate-materialize :
          ⦃u : Unicode⦄ (threshold : F) (events : List (Event F)) (dataset : Dataset F)
          → IsEstimate threshold
          → materialize events ≡ replayed dataset
          → (report : Report F) × (gs : List (String × ReadinessGate F)) × (evaluate dataset
                threshold
              ≡ evaluated report gs (verdict ready (statuses gs)))
      evaluate-materialize threshold events dataset p h =
          evaluate-evaluated threshold dataset p (materialize-IsConsistent events dataset h).records
