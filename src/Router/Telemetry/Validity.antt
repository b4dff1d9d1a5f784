-- ===== src/Router/Telemetry/Validity.antt =====
-- Sums of valid measurements are valid, and checked sums of `int`s.
use veto.Shared.{
  ◌≡◌, ◌↔◌, Bool, true, false, none, some, arith, refl, Bool-cases, ◌||◌, ◌⊎◌, inl, inr,
}
use veto.Shared.Int.{ℤ, pos, negsuc, max_int, is_negative, ltb_ℤ, ◌≤ℤ◌, ◌+ℤ◌, ◌-ℤ◌, wrap, wrap-fits}
use veto.Shared.Float.{Float64, IsIeee, fzero}
use veto.Router.Decision.{DecisionTelemetry, validate_telemetry}
use veto.Router.Decision.Measured.{IsMeasured, validate_telemetry_iff}
use veto.Router.Telemetry.{
  add_nonnegative_int, merge_usage, merge_cached_input, merge_cost, merge_latency,
  merge_decision_telemetry,
}

-- Where the guard lets two counts through, their sum does not wrap to a negative one.
guarded_sum :
    (a b : ℤ) → pos 0 ≤ℤ a → pos 0 ≤ℤ b → b ≤ℤ wrap (max_int -ℤ a) → pos 0 ≤ℤ wrap (a +ℤ b)
unfolding wrap ◌+ℤ◌ ◌-ℤ◌
guarded_sum (pos m) (pos n) p q h = ground arith
guarded_sum (pos m) (negsuc n) p q h = ground arith
guarded_sum (negsuc m) b p q h = ground arith

-- The room that is left above a count.
room : (a : ℤ) → pos 0 ≤ℤ a → a ≤ℤ max_int → wrap (max_int -ℤ a) ≡ max_int -ℤ a
unfolding ◌-ℤ◌
room (pos n) p h = wrap-fits (max_int -ℤ pos n) (ground arith) (ground arith)
room (negsuc n) p h = ground arith

-- addNonnegativeInt succeeds on two `int`s exactly where they are from 0 on and their sum is at most
-- the largest `int`, and returns that sum.
pub add_nonnegative_int_iff :
    (left right sum : ℤ)
    → left ≤ℤ max_int
    → (add_nonnegative_int left right ≡ some sum)
      ↔ ((pos 0 ≤ℤ left) × (pos 0 ≤ℤ right) × (left +ℤ right ≤ℤ max_int) × (sum ≡ left +ℤ right))
unfolding add_nonnegative_int ◌+ℤ◌ ◌-ℤ◌
add_nonnegative_int_iff left right sum fits = (
  λ h. ground (arith, room left, wrap-fits (left +ℤ right)),
  λ h. ground (arith, room left, wrap-fits (left +ℤ right)),
)

add_nonnegative_int-nonneg :
    (left right : ℤ)
    → (add_nonnegative_int left right ≡ none)
      ⊎ ((sum : ℤ) × (add_nonnegative_int left right ≡ some sum) × (pos 0 ≤ℤ sum))
unfolding add_nonnegative_int
add_nonnegative_int-nonneg left right =
    elim (Bool-cases
      (is_negative left || is_negative right || ltb_ℤ (wrap (max_int -ℤ left)) right)) [
        | inl refused ↦ inl (rw refused refl)
        | inr passed ↦ inr (
          wrap (left +ℤ right),
          rw passed refl,
          guarded_sum left right (ground arith) (ground arith) (ground arith),
        )
      ]

module _ {F : Type 0} ⦃fl : Float64 F⦄ where
  module _ (total current : DecisionTelemetry F) (a : IsMeasured total)
      (b : IsMeasured current) where
    merge_usage-IsMeasured : IsMeasured (merge_usage total current)
    unfolding merge_usage
    merge_usage-IsMeasured = ground (
      arith,
      add_nonnegative_int-nonneg total.input_tokens current.input_tokens,
      add_nonnegative_int-nonneg total.output_tokens current.output_tokens,
      add_nonnegative_int-nonneg total.total_tokens current.total_tokens,
    )

    merge_cached_input-IsMeasured : IsMeasured (merge_cached_input total current)
    unfolding merge_cached_input
    merge_cached_input-IsMeasured = ground arith

    merge_latency-IsMeasured : IsMeasured (merge_latency total current)
    unfolding merge_latency
    merge_latency-IsMeasured = ground (arith, guarded_sum total.latency_ms current.latency_ms)

    merge_cost-IsMeasured : IsIeee F → IsMeasured (merge_cost total current)
    unfolding merge_cost
    merge_cost-IsMeasured laws = ground (
      arith,
      laws.zero_finite,
      laws.eq_zero,
      laws.eq_excludes fzero fzero,
      laws.add_nonneg total.cost_usd current.cost_usd,
    )

  -- The sum of two valid measurements is valid, whatever overflows, given the laws of float64.
  pub merge-valid :
      IsIeee F
      → (total current : DecisionTelemetry F) (first : Bool) → validate_telemetry total ≡ none
      → validate_telemetry current ≡ none
      → validate_telemetry (merge_decision_telemetry total current first) ≡ none
  unfolding merge_decision_telemetry
  merge-valid laws total current true h k = k
  merge-valid laws total current false h k =
      let a = (validate_telemetry_iff total).0 h in
      let b = (validate_telemetry_iff current).0 k in
      let usage = merge_usage-IsMeasured total current a b in
      let cached = merge_cached_input-IsMeasured _ current usage b in
      let cost = merge_cost-IsMeasured _ current cached b laws in
      (validate_telemetry_iff _).1 (merge_latency-IsMeasured _ current cost b)
