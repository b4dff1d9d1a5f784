-- ===== src/Shadow/Calibration.antt =====
-- pkg/shadow/report.go: sampleMetrics, the success rate and the calibration of a decision source.
pub mod Bins
use Prim.Native.Nat.{◌/◌}
use veto.Shared.{
  ℕ, suc, ◌+◌, ◌-◌, ◌*◌, String, Bool, true, false, not, ◌&&◌, ◌||◌, Option, none, some, List, [],
  ◌∷◌, ◌++◌, length, ltb, nat_eq, if◌then◌else◌,
}
use veto.Shared.Int.{ℤ, pos, negsuc}
use veto.Shared.Float.{Float64, FloatMath, fzero, le, gt, fcompare}
use veto.Shared.Sort.{sort}
use veto.Shared.Text.{◌==◌}
use veto.Shared.Dict.{get, set}
use veto.Shadow.Records.{
  DecisionStatus, selected, no_selection, status_text, KnownFloat, KnownBool, Telemetry,
  DecisionEvidence, RouteComparison, ExecutionLabel, RouteRecord, Dataset,
}
use veto.Shadow.Report.{Rate, DecisionSample, of_nat, rate}

-- One bin of the calibration.
pub record Bin (F : Type 0) : Type 0 where
  pub count : ℕ
  pub confidence : F
  pub outcomes : F

pub record Calibration (F : Type 0) : Type 0 where
  pub samples : ℕ
  pub brier_score : F
  pub ece : F

-- What the loop of sampleMetrics gathers.
pub record Estimates (F : Type 0) : Type 0 where
  pub successes : ℕ
  pub brier : F
  pub bins : List (Bin F)
  pub samples : ℕ

module _ {F : Type 0} ⦃fl : Float64 F⦄ where
  -- bins[index], with the sample added; `none` is the panic of an index that is out of range.
  unfoldable pub add_to_bin : ℕ → F → F → List (Bin F) → Option (List (Bin F))
  add_to_bin index estimate outcome [] = none
  add_to_bin index estimate outcome (b ∷ bins) =
      let rest = add_to_bin (index - 1) estimate outcome bins in
      if nat_eq index 0
      then some (
          record {
            count = suc b.count;
            confidence = fl.add b.confidence estimate;
            outcomes = fl.add b.outcomes outcome;
          }
          ∷ bins)
      else elim rest [ none ↦ none | some bins' ↦ some (b ∷ bins') ]

  unfoldable pub estimate_of : DecisionSample F → KnownFloat F
  estimate_of sample = if sample.probability.known then sample.probability else sample.confidence

  -- The index of an estimate, `none` where it is negative.
  unfoldable pub bin_index : ⦃m : FloatMath F⦄ → F → Option ℕ
  bin_index ⦃m⦄ value = elim (m.truncate (fl.mul value (fl.lit 10 0))) [
    | negsuc n ↦ none
    | pos n ↦ some (if nat_eq n 10 then 9 else n)
  ]

  -- The body of the loop of sampleMetrics.
  unfoldable pub add_sample :
      ⦃m : FloatMath F⦄ → DecisionSample F → Estimates F → Option (Estimates F)
  unfolding bin_index add_to_bin estimate_of
  add_sample sample e =
      let successes = if sample.success.value then suc e.successes else e.successes in
      let outcome = if sample.success.value then fl.lit 1 0 else fzero in
      let estimate = (estimate_of sample).value in
      let delta = fl.sub estimate outcome in
      if not (estimate_of sample).known
      then some (record e { successes = successes })
      else elim (bin_index estimate) [
        | none ↦ none
        | some index ↦ elim (add_to_bin index estimate outcome e.bins) [
          | none ↦ none
          | some bins ↦ some (record {
            successes = successes;
            brier = fl.add e.brier (fl.mul delta delta);
            bins = bins;
            samples = suc e.samples;
          })
        ]
      ]

  unfoldable pub add_samples :
      ⦃m : FloatMath F⦄ → List (DecisionSample F) → Estimates F → Option (Estimates F)
  unfolding add_sample
  add_samples [] e = some e
  add_samples (s ∷ samples) e = elim (add_sample s e) [
    | none ↦ none
    | some e' ↦ add_samples samples e'
  ]

  unfoldable pub expected_error : ⦃m : FloatMath F⦄ → ℕ → List (Bin F) → F → F
  expected_error samples [] total = total
  expected_error ⦃m⦄ samples (b ∷ bins) total =
      let skipped = expected_error samples bins total in
      let counted = expected_error samples bins (
        fl.add total (
          fl.mul (fl.div (of_nat b.count) (of_nat samples)) (
            m.abs (
              fl.sub (fl.div b.confidence (of_nat b.count))
                (fl.div b.outcomes (of_nat b.count)))))) in
      if nat_eq b.count 0 then skipped else counted

  abbrev no_bin : Bin F
  no_bin = record { count = 0; confidence = fzero; outcomes = fzero }

  abbrev pub no_estimates : Estimates F
  no_estimates = record {
    successes = 0;
    brier = fzero;
    bins =
        no_bin ∷ no_bin ∷ no_bin ∷ no_bin ∷ no_bin ∷ no_bin ∷ no_bin ∷ no_bin ∷ no_bin ∷ no_bin
        ∷ [];
    samples = 0;
  }

  unfoldable pub calibration_of : ⦃m : FloatMath F⦄ → Estimates F → Calibration F
  unfolding expected_error
  calibration_of e = record {
    samples = e.samples;
    brier_score = if ltb 0 e.samples then fl.div e.brier (of_nat e.samples) else fzero;
    ece = if ltb 0 e.samples then expected_error e.samples e.bins fzero else fzero;
  }

  -- sampleMetrics
  unfoldable pub sample_metrics :
      ⦃m : FloatMath F⦄ → List (DecisionSample F) → Option (Rate F × Calibration F)
  unfolding add_samples rate calibration_of
  sample_metrics samples = elim (add_samples samples no_estimates) [
    | none ↦ none
    | some e ↦ some (rate e.successes (length samples), calibration_of e)
  ]
