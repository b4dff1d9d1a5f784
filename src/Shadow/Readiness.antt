-- ===== src/Shadow/Readiness.antt =====
-- pkg/shadow/readiness.go: the gates of the promotion policy, and their verdict. A threshold's text
-- is left out.
pub mod Verdict
use veto.Shared.{
  ℕ, suc, ◌+◌, ◌-◌, ◌*◌, String, Bool, true, false, not, ◌&&◌, ◌||◌, Option, none, some, List, [],
  ◌∷◌, ◌++◌, map, length, ltb, leb, nat_eq, if◌then◌else◌,
}
use veto.Shared.Int.{ℤ, pos}
use veto.Shared.Float.{Float64, FloatMath, fzero, le, gt}
use veto.Shared.Text.{◌==◌}
use veto.Shared.Dict.{get, set}
use veto.Shadow.Records.{
  DecisionStatus, selected, no_selection, error, unavailable, timeout, canceled, malformed,
  DecisionEvidence, RouteRecord, Dataset,
}
use veto.Shadow.Report.{Rate, Distribution, is_selected, should_fallback, of_nat, sum}
use veto.Shadow.Calibration.{Calibration}

pub data GateStatus : Type 0 where
  pass fail insufficient : GateStatus

pub data ReadinessStatus : Type 0 where
  ready not_ready insufficient_data : ReadinessStatus

pub record ReadinessGate (F : Type 0) : Type 0 where
  pub status : GateStatus
  pub observed : F
  pub samples : ℕ

pub record DecisionMetrics (F : Type 0) : Type 0 where
  pub selections : ℕ
  pub labeled : ℕ
  pub success : Rate F
  pub latency_ms : Distribution F
  pub cost_usd : Distribution F
  pub calibration : Calibration F

-- Report, less its schema version and its readiness, which is computed from it
pub record Report (F : Type 0) : Type 0 where
  pub routes : ℕ
  pub labeled_routes : ℕ
  pub labeled_by_kind : List (String × ℕ)
  pub selection_agreement : Rate F
  pub unavailable_or_error : Rate F
  pub simulated_fallback : Rate F
  pub fallback_threshold : F
  pub authority : DecisionMetrics F
  pub shadow : DecisionMetrics F

-- numericGate
unfoldable pub numeric_gate : {F : Type 0} → Bool → Bool → F → ℕ → ReadinessGate F
numeric_gate passes enough observed samples = record {
  status = if enough then if passes then pass else fail else insufficient;
  observed = observed;
  samples = samples;
}

abbrev pub all_of {ℓ} : {A : Type ℓ} → (A → Bool) → List A → Bool
all_of p [] = true
all_of p (x ∷ xs) = p x && all_of p xs

-- len(values) * 100 >= total * 95
abbrev pub covers : ℕ → ℕ → Bool
covers n total = leb (total * 95) (n * 100)

-- A recognized status without a selection.
abbrev is_other_known : DecisionStatus → Bool
is_other_known no_selection = true
is_other_known error = true
is_other_known unavailable = true
is_other_known timeout = true
is_other_known canceled = true
is_other_known malformed = true
is_other_known _ = false

module _ {F : Type 0} ⦃fl : Float64 F⦄ where
  -- decisionSuccess; `none` is an unknown outcome.
  unfoldable pub decision_success : RouteRecord F → DecisionEvidence F → Option F
  unfolding get
  decision_success r d =
      if is_selected d.status
      then elim (get d.selected_candidate r.labels) [
        | none ↦ none
        | some label ↦
            if label.success.known
            then some (if label.success.value then fl.lit 1 0 else fzero)
            else none
      ]
      else if is_other_known d.status
      then some fzero
      else none

  -- The decision that is compared with the authority's.
  abbrev pub compared : Bool → F → RouteRecord F → DecisionEvidence F
  compared hybrid threshold r =
      if hybrid && should_fallback r.comparison threshold
      then r.comparison.authority
      else r.comparison.shadow

  unfoldable pub difference : Bool → F → RouteRecord F → Option F
  unfolding decision_success should_fallback
  difference hybrid threshold r = elim (decision_success r r.comparison.authority) [
    | none ↦ none
    | some authority ↦ elim (decision_success r (compared hybrid threshold r)) [
      | none ↦ none
      | some candidate ↦ some (fl.sub candidate authority)
    ]
  ]

  abbrev pub or_nothing : Option (List F) → List F
  or_nothing none = []
  or_nothing (some xs) = xs

  -- The loop of pairedDifferences, with the differences and the differences by kind so far.
  unfoldable pub paired_differences :
      Bool → F → Dataset F → List F → List (String × List F) → List F × List (String × List F)
  unfolding difference get set
  paired_differences hybrid threshold [] all by_kind = (all, by_kind)
  paired_differences hybrid threshold (r ∷ rs) all by_kind = elim (difference hybrid threshold r) [
    | none ↦ paired_differences hybrid threshold rs all by_kind
    | some d ↦ paired_differences hybrid threshold rs (all ++ d ∷ []) (
        set r.comparison.task_kind (or_nothing (get r.comparison.task_kind by_kind) ++ d ∷ [])
          by_kind)
  ]

  unfoldable pub mean : List F → F
  unfolding sum
  mean [] = fzero
  mean (x ∷ xs) = fl.div (sum fzero (x ∷ xs)) (of_nat (length (x ∷ xs)))

  unfoldable pub confidence_lower_bound : ⦃m : FloatMath F⦄ → List F → F
  unfolding mean sum
  confidence_lower_bound ⦃m⦄ values =
      let average = mean values in
      let squares = sum fzero (map (λ v. fl.mul (fl.sub v average) (fl.sub v average)) values) in
      let n = length values in
      if ltb n 2
      then fzero
      else fl.sub average
          (fl.mul (fl.lit 196 2) (m.sqrt (fl.div (fl.div squares (of_nat (n - 1))) (of_nat n))))

-- The verdict's loop: a failure ends it, missing data is remembered.
unfoldable pub verdict : ReadinessStatus → List GateStatus → ReadinessStatus
verdict status [] = status
verdict status (fail ∷ gates) = not_ready
verdict status (insufficient ∷ gates) = verdict insufficient_data gates
verdict status (pass ∷ gates) = verdict status gates
