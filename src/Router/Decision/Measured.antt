-- ===== src/Router/Decision/Measured.antt =====
-- When DecisionTelemetry.validate passes, said without its code.
use veto.Shared.{◌≡◌, ◌↔◌, Bool, true, false, none, arith}
use veto.Shared.Int.{ℤ, pos, ◌≤ℤ◌}
use veto.Shared.Float.{Float64, fzero, is_nonfinite}
use veto.Router.Decision.{DecisionTelemetry, validate_telemetry}

-- A count is not negative, and is 0 where it is unknown.
abbrev pub IsCount : ℤ → Bool → Type 0
IsCount n known = (pos 0 ≤ℤ n) × (known ≡ false → n ≡ pos 0)

module _ {F : Type 0} ⦃fl : Float64 F⦄ where
  -- A cost is a finite number from 0 on, and is 0 where it is unknown.
  abbrev pub IsCost : F → Bool → Type 0
  IsCost c known =
      (is_nonfinite c ≡ false) × (fl.lt c fzero ≡ false) × (known ≡ false → fl.eq c fzero ≡ true)

  pub record IsMeasured (t : DecisionTelemetry F) : Type 0 where
    pub input : IsCount t.input_tokens t.usage_known
    pub output : IsCount t.output_tokens t.usage_known
    pub total : IsCount t.total_tokens t.usage_known
    pub cached_input : IsCount t.cached_input_tokens t.cached_input_known
    pub cost : IsCost t.cost_usd t.cost_known
    pub latency : IsCount t.latency_ms t.latency_known

  IsMeasured-of_valid : (t : DecisionTelemetry F) → validate_telemetry t ≡ none → IsMeasured t
  unfolding validate_telemetry
  IsMeasured-of_valid t h = ground arith

  valid_of_IsMeasured : (t : DecisionTelemetry F) → IsMeasured t → validate_telemetry t ≡ none
  unfolding validate_telemetry
  valid_of_IsMeasured t h = ground arith

  -- DecisionTelemetry.validate accepts exactly the measurements whose counts are not negative,
  -- whose cost is finite and not negative, and whose unknown values are zero.
  pub validate_telemetry_iff :
      (t : DecisionTelemetry F) → (validate_telemetry t ≡ none) ↔ IsMeasured t
  validate_telemetry_iff t = (IsMeasured-of_valid t, valid_of_IsMeasured t)
