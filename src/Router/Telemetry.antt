-- ===== src/Router/Telemetry.antt =====
-- pkg/router/sequential.go: sums of measurements.
pub mod Validity
use veto.Shared.{ℕ, Bool, true, false, not, ◌&&◌, ◌||◌, Option, none, some, if◌then◌else◌}
use veto.Shared.Int.{ℤ, pos, is_negative, max_int, ltb_ℤ, leb_ℤ, ◌+ℤ◌, ◌-ℤ◌, wrap}
use veto.Shared.Float.{Float64, fzero, is_nonfinite}
use veto.Router.Decision.{DecisionTelemetry}

-- addNonnegativeInt; `none` is `0, false`.
unfoldable pub add_nonnegative_int : ℤ → ℤ → Option ℤ
unfolding ◌+ℤ◌ ◌-ℤ◌ wrap
add_nonnegative_int left right =
    if is_negative left || is_negative right || ltb_ℤ (wrap (max_int -ℤ left)) right
    then none
    else some (wrap (left +ℤ right))

module _ {F : Type 0} ⦃fl : Float64 F⦄ where
  unfoldable pub merge_usage : DecisionTelemetry F → DecisionTelemetry F → DecisionTelemetry F
  merge_usage total current =
      if total.usage_known && current.usage_known
      then elim (add_nonnegative_int total.input_tokens current.input_tokens) [
        | none ↦ unknown
        | some input ↦ elim (add_nonnegative_int total.output_tokens current.output_tokens) [
          | none ↦ unknown
          | some output ↦ elim (add_nonnegative_int total.total_tokens current.total_tokens) [
            | none ↦ unknown
            | some combined ↦ record total {
              input_tokens = input;
              output_tokens = output;
              total_tokens = combined;
            }
          ]
        ]
      ]
      else unknown
    where
      unknown : DecisionTelemetry F
      unknown = record total {
        input_tokens = pos 0;
        output_tokens = pos 0;
        total_tokens = pos 0;
        usage_known = false;
      }

  unfoldable pub merge_cached_input :
      DecisionTelemetry F → DecisionTelemetry F → DecisionTelemetry F
  unfolding add_nonnegative_int
  merge_cached_input total current =
      if total.cached_input_known && current.cached_input_known
      then elim (add_nonnegative_int total.cached_input_tokens current.cached_input_tokens) [
        | none ↦ record total { cached_input_tokens = pos 0; cached_input_known = false }
        | some value ↦ record total { cached_input_tokens = value }
      ]
      else record total { cached_input_tokens = pos 0; cached_input_known = false }

  unfoldable pub merge_cost : DecisionTelemetry F → DecisionTelemetry F → DecisionTelemetry F
  merge_cost total current =
      if total.cost_known && current.cost_known
      then (if is_nonfinite (fl.add total.cost_usd current.cost_usd)
          then record total { cost_usd = fzero; cost_known = false }
          else record total { cost_usd = fl.add total.cost_usd current.cost_usd })
      else record total { cost_usd = fzero; cost_known = false }

  unfoldable pub merge_latency : DecisionTelemetry F → DecisionTelemetry F → DecisionTelemetry F
  unfolding ◌+ℤ◌ ◌-ℤ◌ wrap
  merge_latency total current =
      if total.latency_known && current.latency_known
      then (if leb_ℤ current.latency_ms (wrap (max_int -ℤ total.latency_ms))
          then record total { latency_ms = wrap (total.latency_ms +ℤ current.latency_ms) }
          else record total { latency_ms = pos 0; latency_known = false })
      else record total { latency_ms = pos 0; latency_known = false }

  -- mergeDecisionTelemetry: the blocks write to `total` one after the other.
  unfoldable pub merge_decision_telemetry :
      DecisionTelemetry F → DecisionTelemetry F → Bool → DecisionTelemetry F
  merge_decision_telemetry total current first =
      if first
      then current
      else merge_latency
          (merge_cost (merge_cached_input (merge_usage total current) current) current) current
