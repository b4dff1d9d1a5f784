-- ===== src/Shadow/Calibration/Bins.antt =====
-- The ten bins of the calibration hold every sample, and no index is out of range.
use veto.Shared.{
  ℕ, suc, ◌+◌, ◌-◌, ◌≤◌, ◌<◌, ◌≡◌, refl, ap, ◌∙◌, if◌then◌else◌, true, ◌&&◌, none, some, List, [],
  ◌∷◌, length, arith, All, Bool-cases, inl, inr, nat_eq,
}
use veto.Shared.Int.{pos}
use veto.Shared.Float.{Float64, FloatMath, fzero, le}
use veto.Shadow.Report.{DecisionSample, rate}
use veto.Shadow.Calibration.{
  Bin, Estimates, add_to_bin, bin_index, add_sample, add_samples, estimate_of, no_estimates,
  sample_metrics, calibration_of,
}

module _ {F : Type 0} ⦃fl : Float64 F⦄ where
  abbrev pub bin_total : List (Bin F) → ℕ
  bin_total [] = 0
  bin_total (b ∷ bins) = b.count + bin_total bins

  -- int(10 x) lies between 0 and 10 for x between 0 and 1.
  pub record IsTruncation (m : FloatMath F) : Type 0 where
    pub in_range :
        (x : F)
        → le fzero x && le x (fl.lit 1 0) ≡ true
        → (n : ℕ) × (m.truncate (fl.mul x (fl.lit 10 0)) ≡ pos n) × (n ≤ 10)

  -- A known estimate is a probability.
  abbrev pub IsProbable : DecisionSample F → Type 0
  IsProbable s =
      (estimate_of s).known ≡ true
      → le fzero (estimate_of s).value && le (estimate_of s).value (fl.lit 1 0) ≡ true

  -- The bins agree with the number of samples.
  pub record IsBinned (e : Estimates F) : Type 0 where
    pub ten : length e.bins ≡ 10
    pub counted : bin_total e.bins ≡ e.samples

  add_to_bin-some :
      (index : ℕ) (x y : F) (bins : List (Bin F))
      → index < length bins
      → (bins' : List (Bin F)) × (add_to_bin index x y bins ≡ some bins')
        × (length bins' ≡ length bins)
        × (bin_total bins' ≡ suc (bin_total bins))
  unfolding add_to_bin
  add_to_bin-some index x y [] h = ground arith
  add_to_bin-some index x y (b ∷ bins) h = elim (Bool-cases (nat_eq index 0)) [
    | inl first ↦ rw first (_, refl, refl, omega arith)
    | inr later ↦
        let (bins', e, l, t) = add_to_bin-some (index - 1) x y bins (ground arith) in
        rw (later, e) (_, refl, omega (arith, l), omega (arith, t))
  ]

  module _ ⦃m : FloatMath F⦄ (law : IsTruncation m) where
    bin_index-some :
        (x : F)
        → le fzero x && le x (fl.lit 1 0) ≡ true
        → (n : ℕ) × (bin_index x ≡ some n) × (n < 10)
    unfolding bin_index
    bin_index-some x h =
        let (n, e, small) = law.in_range x h in rw (e, bin_index) (_, refl, ground arith)

    add_sample-some :
        (s : DecisionSample F) (e : Estimates F)
        → IsProbable s
        → IsBinned e
        → (e' : Estimates F) × (add_sample s e ≡ some e') × IsBinned e'
    unfolding add_sample
    add_sample-some s e p h = elim (Bool-cases (estimate_of s).known) [
      | inr unknown ↦
          rw (unknown, add_sample) (_, refl, record { ten = h.ten; counted = h.counted })
      | inl known ↦
          let (n, found, small) = bin_index-some (estimate_of s).value (p known) in
          let (bins, added, ten, counted) =
            add_to_bin-some n (estimate_of s).value (if s.success.value then fl.lit 1 0 else fzero)
              e.bins (omega (arith, small, h.ten)) in
          rw (known, found, added, add_sample)
            (_, refl, record { ten = ten ∙ h.ten; counted = omega (arith, counted, h.counted) })
    ]

    add_samples-some :
        (samples : List (DecisionSample F)) (e : Estimates F)
        → All IsProbable samples
        → IsBinned e
        → (e' : Estimates F) × (add_samples samples e ≡ some e') × IsBinned e'
    unfolding add_samples
    add_samples-some [] e a h = (e, refl, h)
    add_samples-some (s ∷ samples) e (p, a) h =
        let (e', added, binned) = add_sample-some s e p h in
        let (last, rest, good) = add_samples-some samples e' a binned in
        (last, ap (λ o. elim o [ none ↦ none | some x ↦ add_samples samples x ]) added ∙ rest, good)

    -- Where every known estimate is between 0 and 1, the metrics are computed without an index out
    -- of range, and the ten bins hold exactly the samples that are counted, given that int(10 x) is
    -- between 0 and 10 for such an x.
    pub sample_metrics-IsBinned :
        (samples : List (DecisionSample F))
        → All IsProbable samples
        → (e : Estimates F) × (sample_metrics samples
            ≡ some (rate e.successes (length samples), calibration_of e))
          × IsBinned e
    unfolding sample_metrics
    sample_metrics-IsBinned samples a =
        let (e, run, binned) =
          add_samples-some samples no_estimates a (record { ten = refl; counted = refl }) in
        (
          e,
          ap
              (λ o. elim o [
                | none ↦ none
                | some x ↦ some (rate x.successes (length samples), calibration_of x)
              ])
              run,
          binned,
        )
