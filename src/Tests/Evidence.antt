-- ===== src/Tests/Evidence.antt =====
-- Shadow evaluation: the theorems on a small dataset.
use mathlib.Core.List.Perm
use Prim.Native.Nat.{◌/◌}
use veto.Shared.{
  ℕ, ◌≤◌, ◌&&◌, ◌≡◌, refl, Bool, true, false, Option, none, some, List, [], ◌∷◌, arith, All, length,
  leb, ltb, nat_eq, if◌then◌else◌,
}
use veto.Shared.Int.{ℤ, pos, negsuc}
use veto.Shared.Float.{FloatMath, fzero, le}
use veto.Shadow.Records.{selected, KnownFloat, DecisionEvidence, Dataset, ExecutionLabel}
use veto.Shadow.Report.{DecisionSample, rate, tally_routes, no_tally}
use veto.Shadow.Report.Counts.{IsTally, tally_routes-IsTally}
use veto.Shadow.Calibration.{Estimates, estimate_of, sample_metrics, calibration_of}
use veto.Shadow.Calibration.Bins.{IsTruncation, IsProbable, IsBinned, sample_metrics-IsBinned}
use veto.Shadow.Readiness.{fail, insufficient, ready, verdict, Report, DecisionMetrics}
use veto.Shadow.Readiness.Verdict.{worst, verdict-perm}
use veto.Shadow.Promotion.{Coverage, Pairing, gates, statuses}
use veto.Shadow.Promotion.Thresholds.{IsPromotable, ready-IsPromotable}
use veto.Tests.Numbers.{Milli, number, infinity, minus_infinity, nan, milli_float64}

abbrev thousands : ℤ → ℤ
thousands (pos n) = pos (n / 1000)
thousands (negsuc n) = pos 0

instance abbrev pub milli_math : FloatMath Milli
milli_math = record {
  truncate = λ (x : Milli). elim x [ number n ↦ thousands n | _ ↦ pos 0 ];
  abs = λ x. x;
  sqrt = λ x. x;
}

abbrev sure : Bool → KnownFloat Milli
sure known = record { known = known; value = number (pos 800) }

abbrev choice : DecisionEvidence Milli
choice = record {
  status = selected;
  selected_candidate = "c-1";
  probability = sure true;
  confidence = sure false;
  telemetry = record {
    usage = record {
      known = false;
      input_tokens = pos 0;
      output_tokens = pos 0;
      total_tokens = pos 0;
    };
    cost_usd = sure true;
    latency = record { known = true; millis = pos 40 };
  };
  error_code = "";
}

abbrev success_label : ExecutionLabel Milli
success_label = record {
  route_id = "r-1";
  observed_at = pos 7;
  candidate = "c-1";
  success = record { known = true; value = true };
  score = sure true;
  usage = record {
    known = false;
    input_tokens = pos 0;
    output_tokens = pos 0;
    total_tokens = pos 0;
  };
  cost_usd = sure true;
  latency = record { known = true; millis = pos 40 };
}

abbrev one_route : Dataset Milli
one_route =
    record {
      comparison = record {
        route_id = "r-1";
        observed_at = pos 7;
        task_kind = "debug";
        risk = "low";
        candidates = "c-1" ∷ [];
        authority_strategy = "sequential";
        shadow_strategy = "other";
        authority = choice;
        shadow = choice;
      };
      labels = ("c-1", success_label) ∷ [];
    }
    ∷ []

tally_routes-IsTally_example :
    IsTally (length one_route) (tally_routes (number (pos 800)) one_route no_tally)
tally_routes-IsTally_example = tally_routes-IsTally (number (pos 800)) one_route

verdict-perm_example :
    verdict ready (insufficient ∷ fail ∷ []) ≡ worst ready (fail ∷ insufficient ∷ [])
verdict-perm_example =
    verdict-perm (fail ∷ insufficient ∷ []) (insufficient ∷ fail ∷ []) (Perm.swap _ _ [])

ten_times :
    (x : Milli)
    → le fzero x && le x (milli_float64.lit 1 0) ≡ true
    → (n : ℕ) × (milli_math.truncate (milli_float64.mul x (milli_float64.lit 10 0)) ≡ pos n)
      × (n ≤ 10)
ten_times (number (pos k)) h = (_, refl, ground (arith, h))
ten_times (number (negsuc k)) h = ground (arith, h)
ten_times infinity h = ground (arith, h)
ten_times minus_infinity h = ground (arith, h)
ten_times nan h = ground (arith, h)

pub milli_math-IsTruncation : IsTruncation milli_math
milli_math-IsTruncation = record { in_range = ten_times }

abbrev one_sample : DecisionSample Milli
one_sample = record {
  probability = sure true;
  confidence = sure false;
  success = record { known = true; value = true };
}

one_sample-IsProbable : IsProbable one_sample
unfolding estimate_of
one_sample-IsProbable known = refl

sample_metrics-IsBinned_example :
    (e : Estimates Milli) × (sample_metrics (one_sample ∷ [])
      ≡ some (rate e.successes 1, calibration_of e))
    × IsBinned e
sample_metrics-IsBinned_example =
    sample_metrics-IsBinned milli_math-IsTruncation (one_sample ∷ []) (one_sample-IsProbable, tt)

abbrev good_metrics : DecisionMetrics Milli
good_metrics = record {
  selections = 500;
  labeled = 500;
  success = record { count = 500; total = 500; value = number (pos 1000) };
  latency_ms = record { known = 500; average = number (pos 1000); p95 = number (pos 1000) };
  cost_usd = record { known = 500; average = number (pos 1000); p95 = number (pos 1000) };
  calibration = record { samples = 500; brier_score = number (pos 10); ece = number (pos 10) };
}

abbrev good_report : Report Milli
good_report = record {
  routes = 500;
  labeled_routes = 500;
  labeled_by_kind = ("a", 100) ∷ ("b", 100) ∷ ("c", 100) ∷ ("d", 100) ∷ ("e", 100) ∷ [];
  selection_agreement = record { count = 500; total = 500; value = number (pos 1000) };
  unavailable_or_error = record { count = 0; total = 500; value = number (pos 0) };
  simulated_fallback = record { count = 0; total = 500; value = number (pos 0) };
  fallback_threshold = number (pos 800);
  authority = good_metrics;
  shadow = record good_metrics {
    cost_usd = record { known = 500; average = number (pos 10); p95 = number (pos 10) };
  };
}

abbrev good_pairing : Pairing Milli
good_pairing = record {
  count = 500;
  lower = number (pos 0);
  kinds =
      (100, number (pos 0))
      ∷ (100, number (pos 0))
      ∷ (100, number (pos 0))
      ∷ (100, number (pos 0))
      ∷ (100, number (pos 0))
      ∷ [];
}

abbrev no_divergence : Coverage
no_divergence = record { total = 0; labeled = 0 }

good_verdict :
    verdict ready (statuses (gates good_report no_divergence good_pairing good_pairing)) ≡ ready
unfolding gates verdict veto.Shared.Int.◌+ℤ◌ veto.Shadow.Promotion.latency_gate
    veto.Shadow.Promotion.availability_gate veto.Shadow.Promotion.cost_gate
    veto.Shadow.Promotion.hybrid_gate
good_verdict = refl

ready-IsPromotable_example : IsPromotable good_report no_divergence good_pairing good_pairing
ready-IsPromotable_example =
    ready-IsPromotable good_report no_divergence good_pairing good_pairing
      (statuses (gates good_report no_divergence good_pairing good_pairing))
      (Perm.refl (statuses (gates good_report no_divergence good_pairing good_pairing)))
      good_verdict
