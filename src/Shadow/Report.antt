-- ===== src/Shadow/Report.antt =====
-- pkg/shadow/report.go: the metrics of a dataset.
pub mod Counts
use Prim.Native.Nat.{◌/◌}
use veto.Shared.{
  ℕ, suc, ◌+◌, ◌-◌, ◌*◌, String, Bool, true, false, not, ◌&&◌, ◌||◌, Option, none, some, List, [],
  ◌∷◌, ◌++◌, length, ltb, nat_eq, if◌then◌else◌,
}
use veto.Shared.Int.{ℤ, pos, negsuc}
use veto.Shared.Float.{Float64, FloatMath, fzero, le, gt, fcompare}
use veto.Shared.Sort.{sort}
use veto.Shared.Text.{◌==◌}
use veto.Shared.Dict.{get, set}
use veto.Shadow.Records.{
  DecisionStatus, selected, no_selection, status_text, KnownFloat, KnownBool, Telemetry,
  DecisionEvidence, RouteComparison, ExecutionLabel, RouteRecord, Dataset,
}

pub record Rate (F : Type 0) : Type 0 where
  pub count : ℕ
  pub total : ℕ
  pub value : F

pub record Distribution (F : Type 0) : Type 0 where
  pub known : ℕ
  pub average : F
  pub p95 : F

pub record DecisionSample (F : Type 0) : Type 0 where
  pub probability : KnownFloat F
  pub confidence : KnownFloat F
  pub success : KnownBool

-- What the loop of Evaluate gathers on one of the two decisions.
pub record Side (F : Type 0) : Type 0 where
  pub selections : ℕ
  pub labeled : ℕ
  pub samples : List (DecisionSample F)
  pub latencies : List F
  pub costs : List F

-- What the loop gathers.
pub record Tally (F : Type 0) : Type 0 where
  pub authority : Side F
  pub shadow : Side F
  pub labeled_by_kind : List (String × ℕ)
  pub comparable : ℕ
  pub agreements : ℕ
  pub shadow_failures : ℕ
  pub fallbacks : ℕ

abbrev pub is_selected : DecisionStatus → Bool
is_selected selected = true
is_selected _ = false

abbrev is_no_selection : DecisionStatus → Bool
is_no_selection no_selection = true
is_no_selection _ = false

abbrev count_if : Bool → ℕ → ℕ
count_if b n = if b then suc n else n

unfoldable pub increment_kind : String → List (String × ℕ) → List (String × ℕ)
unfolding get set
increment_kind kind counts = elim (get kind counts) [
  | none ↦ set kind 1 counts
  | some n ↦ set kind (suc n) counts
]

-- The nearest rank int(math.Ceil(0.95 * n)) - 1, exactly.
abbrev p95_index : ℕ → ℕ
p95_index n = (95 * n + 99) / 100 - 1

module _ {F : Type 0} where
  unfoldable pub decision_comparable : DecisionEvidence F → Bool
  decision_comparable d = is_selected d.status || is_no_selection d.status

  unfoldable pub same_selection : DecisionEvidence F → DecisionEvidence F → Bool
  same_selection a b =
      status_text a.status == status_text b.status
      && (not (is_selected a.status) || a.selected_candidate == b.selected_candidate)

  -- The label of the selected candidate, where its success is known.
  unfoldable pub selected_label :
      DecisionEvidence F → List (String × ExecutionLabel F) → Option (ExecutionLabel F)
  unfolding get
  selected_label d labels =
      if is_selected d.status
      then elim (get d.selected_candidate labels) [
        | none ↦ none
        | some label ↦ if label.success.known then some label else none
      ]
      else none

module _ {F : Type 0} ⦃fl : Float64 F⦄ where
  abbrev pub of_nat : ℕ → F
  of_nat n = fl.of_int (pos n)

  unfoldable pub should_fallback : RouteComparison F → F → Bool
  should_fallback c threshold =
      c.risk == "high"
      || not (is_selected c.shadow.status)
      || not c.shadow.confidence.known
      || fl.lt c.shadow.confidence.value threshold

  -- One decision's part of the loop's body, with appendTelemetry.
  unfoldable pub tally_side : DecisionEvidence F → Option (ExecutionLabel F) → Side F → Side F
  tally_side d label s = record {
    selections = count_if (is_selected d.status) s.selections;
    labeled = elim label [ none ↦ s.labeled | some l ↦ suc s.labeled ];
    samples = elim label [
      | none ↦ s.samples
      | some l ↦
          s.samples
          ++ record { probability = d.probability; confidence = d.confidence; success = l.success }
            ∷ []
    ];
    latencies =
        if d.telemetry.latency.known
        then s.latencies ++ fl.of_int d.telemetry.latency.millis ∷ []
        else s.latencies;
    costs =
        if d.telemetry.cost_usd.known then s.costs ++ d.telemetry.cost_usd.value ∷ [] else s.costs;
  }

  -- The body of the loop of Evaluate.
  unfoldable pub tally_route : F → RouteRecord F → Tally F → Tally F
  unfolding tally_side selected_label increment_kind decision_comparable same_selection
      should_fallback
  tally_route threshold r t =
      let a = r.comparison.authority in
      let s = r.comparison.shadow in
      let label = selected_label a r.labels in
      let both = decision_comparable a && decision_comparable s in
      record {
        authority = tally_side a label t.authority;
        shadow = tally_side s (selected_label s r.labels) t.shadow;
        labeled_by_kind = elim label [
          | none ↦ t.labeled_by_kind
          | some l ↦ increment_kind r.comparison.task_kind t.labeled_by_kind
        ];
        comparable = count_if both t.comparable;
        agreements = count_if (both && same_selection a s) t.agreements;
        shadow_failures = count_if (not (decision_comparable s)) t.shadow_failures;
        fallbacks = count_if (should_fallback r.comparison threshold) t.fallbacks;
      }

  unfoldable pub tally_routes : F → Dataset F → Tally F → Tally F
  unfolding tally_route
  tally_routes threshold [] t = t
  tally_routes threshold (r ∷ rs) t = tally_routes threshold rs (tally_route threshold r t)

  abbrev pub no_side : Side F
  no_side = record { selections = 0; labeled = 0; samples = []; latencies = []; costs = [] }

  abbrev pub no_tally : Tally F
  no_tally = record {
    authority = no_side;
    shadow = no_side;
    labeled_by_kind = [];
    comparable = 0;
    agreements = 0;
    shadow_failures = 0;
    fallbacks = 0;
  }

  unfoldable pub rate : ℕ → ℕ → Rate F
  rate count total = record {
    count = count;
    total = total;
    value = if ltb 0 total then fl.div (of_nat count) (of_nat total) else fzero;
  }

  unfoldable pub sum : F → List F → F
  sum total [] = total
  sum total (x ∷ xs) = sum (fl.add total x) xs

  -- xs[n], and zero past the end, where the code does not go
  unfoldable pub nth : ℕ → List F → F
  nth n [] = fzero
  nth n (x ∷ xs) = let rest = nth (n - 1) xs in if nat_eq n 0 then x else rest

  unfoldable pub distribution : List F → Distribution F
  unfolding sum nth
  distribution [] = record { known = 0; average = fzero; p95 = fzero }
  distribution (x ∷ xs) =
      let values = x ∷ xs in
      let ordered = sort fcompare values in
      record {
        known = length values;
        average = fl.div (sum fzero ordered) (of_nat (length values));
        p95 = nth (p95_index (length values)) ordered;
      }
