-- ===== src/Router/Measurement.antt =====
-- pkg/router/admission.go: the telemetry of an admission call.
use Prim.Native.Nat.{◌/◌}
use veto.Shared.{suc, true, false, not, ◌||◌, if◌then◌else◌}
use veto.Shared.Int.{ℤ, pos, negsuc, sub_ℕ, is_negative}
use veto.Shared.Float.{Float64, fzero, is_nonfinite}
use veto.Router.Decision.{DecisionTelemetry}
use veto.Router.Executors.{AdmissionResult}

-- Duration.Milliseconds, which drops the fraction
unfoldable pub milliseconds : ℤ → ℤ
milliseconds (pos n) = pos (n / 1_000_000)
milliseconds (negsuc n) = sub_ℕ 0 (suc n / 1_000_000)

module _ {F : Type 0} ⦃fl : Float64 F⦄ where
  abbrev pub no_telemetry : DecisionTelemetry F
  no_telemetry = record {
    input_tokens = pos 0;
    output_tokens = pos 0;
    total_tokens = pos 0;
    usage_known = false;
    cached_input_tokens = pos 0;
    cached_input_known = false;
    cost_usd = fzero;
    cost_known = false;
    latency_ms = pos 0;
    latency_known = false;
  }

  unfoldable pub clean_usage : DecisionTelemetry F → DecisionTelemetry F
  clean_usage t =
      if not t.usage_known
      then record t { input_tokens = pos 0; output_tokens = pos 0; total_tokens = pos 0 }
      else if is_negative t.input_tokens
          || is_negative t.output_tokens
          || is_negative t.total_tokens
      then record t {
        input_tokens = pos 0;
        output_tokens = pos 0;
        total_tokens = pos 0;
        usage_known = false;
      }
      else t

  unfoldable pub clean_cached_input : DecisionTelemetry F → DecisionTelemetry F
  clean_cached_input t =
      if not t.cached_input_known
      then record t { cached_input_tokens = pos 0 }
      else if is_negative t.cached_input_tokens
      then record t { cached_input_tokens = pos 0; cached_input_known = false }
      else t

  unfoldable pub clean_cost : DecisionTelemetry F → DecisionTelemetry F
  clean_cost t =
      if not t.cost_known
      then record t { cost_usd = fzero }
      else if is_nonfinite t.cost_usd || fl.lt t.cost_usd fzero
      then record t { cost_usd = fzero; cost_known = false }
      else t

  -- The telemetry of a finished call.
  unfoldable pub measured : AdmissionResult F → ℤ → DecisionTelemetry F
  measured result latency = clean_cost (
      clean_cached_input (
        clean_usage (record {
          input_tokens = result.usage.input_tokens;
          output_tokens = result.usage.output_tokens;
          total_tokens = result.usage.total_tokens;
          usage_known = result.usage.known;
          cached_input_tokens = result.usage.cached_input_tokens;
          cached_input_known = result.usage.cached_input_known;
          cost_usd = result.cost_usd;
          cost_known = result.cost_known;
          latency_ms = latency;
          latency_known = true;
        })))
