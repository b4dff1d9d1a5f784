-- ===== src/Shadow/Evidence/Checked.antt =====
-- What the parts of valid evidence are: the checks of pkg/shadow/evidence.go on ids, statuses, usage,
-- amounts and the lists of candidates.
use mathlib.Core.List.{Mem, mem-cons_self, mem-cons_of_mem, Nodup, Nodup-nil, Nodup-cons}
use veto.Shared.{
  ◌≡◌, refl, ap, ◌≤◌, String, true, false, not, ◌||◌, Option, none, some, List, [], ◌∷◌, arith,
  Bool-cases, ◌⊎◌, inl, inr, ℕ, nat_eq, ltb, All,
}
use veto.Shared.Float.{Float64, fzero, gt, is_nonfinite}
use veto.Shared.Text.{◌==◌, contains, eq_iff, trim_space}
use veto.Shared.Members.{contains_iff}
use veto.Shadow.Records.{
  DecisionStatus, selected, no_selection, error, unavailable, timeout, canceled, malformed,
  other_status, KnownDuration, KnownFloat, KnownUsage, Telemetry, DecisionEvidence,
}
use veto.Shadow.Evidence.{
  Named, is_opaque_id, validate_nonnegative, validate_duration, EvidenceError, Role, authority_role,
  shadow_role, candidate_key, ◌or_next◌, is_selection, is_failure, is_machine_code,
  allowed_task_kinds, validate_id, validate_keys, validate_fraction, validate_usage,
  validate_telemetry, validate_selection, validate_failure, has_status, fail_if, unsupported_status,
  candidate_count, unsupported_task_kind, no_time, allowed_risks, unsupported_risk,
  validate_strategy,
}
use veto.Shared.Int.{ℤ, pos, is_zero, ◌≤ℤ◌}

-- An id of a route or of a candidate.
abbrev pub IsOpaque : String → Type 0
IsOpaque s = (is_opaque_id s ≡ true) × (trim_space s ≡ s)

-- The statuses that a decision of the role may have.
abbrev pub statuses_of : Role → List DecisionStatus
statuses_of authority_role = selected ∷ no_selection ∷ error ∷ []
statuses_of shadow_role =
    selected ∷ no_selection ∷ error ∷ unavailable ∷ timeout ∷ canceled ∷ malformed ∷ []

pub status_checked :
    (role : Role) (status : DecisionStatus)
    → has_status role status ≡ true
    → Mem status (statuses_of role)
unfolding has_status
status_checked authority_role selected h = mem-cons_self
status_checked authority_role no_selection h = search (mem-cons_self, mem-cons_of_mem) depth 9
status_checked authority_role error h = search (mem-cons_self, mem-cons_of_mem) depth 9
status_checked authority_role unavailable h = cc
status_checked authority_role timeout h = cc
status_checked authority_role canceled h = cc
status_checked authority_role malformed h = cc
status_checked authority_role (other_status text) h = cc
status_checked shadow_role selected h = mem-cons_self
status_checked shadow_role no_selection h = search (mem-cons_self, mem-cons_of_mem) depth 9
status_checked shadow_role error h = search (mem-cons_self, mem-cons_of_mem) depth 9
status_checked shadow_role unavailable h = search (mem-cons_self, mem-cons_of_mem) depth 9
status_checked shadow_role timeout h = search (mem-cons_self, mem-cons_of_mem) depth 9
status_checked shadow_role canceled h = search (mem-cons_self, mem-cons_of_mem) depth 9
status_checked shadow_role malformed h = search (mem-cons_self, mem-cons_of_mem) depth 9
status_checked shadow_role (other_status text) h = cc

pub status_passed :
    (role : Role) (status : DecisionStatus)
    → fail_if (not (has_status role status)) (unsupported_status role) ≡ none
    → has_status role status ≡ true
status_passed role status h = ground arith

pub id_checked : (name : Named) (s : String) → validate_id name s ≡ none → IsOpaque s
unfolding validate_id
id_checked name s h = (ground arith, ground (arith, eq_iff (trim_space s) s))

pub strategy_checked :
    (name : Named) (s : String) → validate_strategy name s ≡ none → (s ≡ "") ⊎ IsOpaque s
unfolding validate_strategy
strategy_checked name s h = elim (Bool-cases (s == "")) [
  | inl e ↦ inl ((eq_iff s "").0 e)
  | inr e ↦ inr (id_checked name s (rw e at h))
]

pub time_checked : (n : ℤ) → fail_if (is_zero n) no_time ≡ none → ¬ (n ≡ pos 0)
time_checked n h z = ground arith

pub risk_checked :
    (risk : String)
    → fail_if (not (contains allowed_risks risk)) unsupported_risk ≡ none
    → contains allowed_risks risk ≡ true
risk_checked risk h = ground arith

pub count_checked :
    (n : ℕ) → fail_if (nat_eq n 0 || ltb 3 n) candidate_count ≡ none → (1 ≤ n) × (n ≤ 3)
count_checked n h = (ground arith, ground arith)

pub kind_checked :
    (kind : String)
    → fail_if (not (contains allowed_task_kinds kind)) unsupported_task_kind ≡ none
    → contains allowed_task_kinds kind ≡ true
kind_checked kind h = ground arith

-- Counts from 0 on, which are 0 where they are not known.
pub record IsUsage (u : KnownUsage) : Type 0 where
  pub nonnegative :
      (pos 0 ≤ℤ u.input_tokens) × (pos 0 ≤ℤ u.output_tokens) × (pos 0 ≤ℤ u.total_tokens)
  pub unknown :
      u.known ≡ false
      → (u.input_tokens ≡ pos 0) × (u.output_tokens ≡ pos 0) × (u.total_tokens ≡ pos 0)

validate_usage-IsUsage : (u : KnownUsage) → validate_usage u ≡ none → IsUsage u
unfolding validate_usage
validate_usage-IsUsage u h = record {
  nonnegative = (ground arith, ground arith, ground arith);
  unknown = λ k. (ground arith, ground arith, ground arith);
}

-- A time from 0 on, which is 0 where it is not known.
pub record IsDuration (d : KnownDuration) : Type 0 where
  pub nonnegative : pos 0 ≤ℤ d.millis
  pub unknown : d.known ≡ false → d.millis ≡ pos 0

validate_duration-IsDuration : (d : KnownDuration) → validate_duration d ≡ none → IsDuration d
unfolding validate_duration
validate_duration-IsDuration d h = record {
  nonnegative = ground arith;
  unknown = λ k. ground arith;
}

pub or_next-eq-none : (a b : Option EvidenceError) → (a or_next b) ≡ none → (a ≡ none) × (b ≡ none)
or_next-eq-none none b h = (refl, h)
or_next-eq-none (some e) b h = cc

validate_keys-unseen :
    (seen keys : List String) (a : String)
    → validate_keys seen keys ≡ none
    → contains seen a ≡ true
    → contains keys a ≡ false
unfolding validate_keys contains
validate_keys-unseen seen [] a h s = refl
validate_keys-unseen seen (key ∷ keys) a h s =
    let (_, later) = or_next-eq-none (validate_id candidate_key key) _ h in
    elim (Bool-cases (contains seen key)) [
      | inl old ↦ cc (rw old at later)
      | inr new ↦
          let rest = validate_keys-unseen (key ∷ seen) keys a (rw new at later) (ground arith) in
          elim (Bool-cases (key == a)) [
            | inl same ↦ let again = ap (contains seen) ((eq_iff key a).0 same) in cc
            | inr other ↦ ground arith
          ]
    ]

pub validate_keys-Nodup : (seen keys : List String) → validate_keys seen keys ≡ none → Nodup keys
unfolding validate_keys contains
validate_keys-Nodup seen [] h = Nodup-nil
validate_keys-Nodup seen (key ∷ keys) h =
    let (_, later) = or_next-eq-none (validate_id candidate_key key) _ h in
    elim (Bool-cases (contains seen key)) [
      | inl old ↦ cc (rw old at later)
      | inr new ↦
          let rest = rw new at later in
          let self = (eq_iff key key).1 refl in
          let fresh = validate_keys-unseen (key ∷ seen) keys key rest (ground arith) in
          Nodup-cons.1 (
            λ m. let there = (contains_iff keys key).1 m in cc,
            validate_keys-Nodup (key ∷ seen) keys rest,
          )
    ]

pub validate_keys-IsOpaque :
    (seen keys : List String) → validate_keys seen keys ≡ none → All IsOpaque keys
unfolding validate_keys
validate_keys-IsOpaque seen [] h = tt
validate_keys-IsOpaque seen (key ∷ keys) h =
    let (id, later) = or_next-eq-none (validate_id candidate_key key) _ h in
    (
      id_checked candidate_key key id,
      elim (Bool-cases (contains seen key)) [
        | inl old ↦ absurd (cc (rw old at later))
        | inr new ↦ validate_keys-IsOpaque (key ∷ seen) keys (rw new at later)
      ],
    )

module _ {F : Type 0} ⦃fl : Float64 F⦄ where
  -- A number between 0 and 1.
  abbrev pub IsFraction : KnownFloat F → Type 0
  IsFraction v = is_nonfinite v.value || fl.lt v.value fzero || gt v.value (fl.lit 1 0) ≡ false

  -- A number that is 0 where it is not known.
  abbrev pub IsZeroUnknown : KnownFloat F → Type 0
  IsZeroUnknown v = (v.known || fl.eq v.value fzero) ≡ true

  -- A finite number from 0 on, which is 0 where it is not known.
  abbrev pub IsAmount : KnownFloat F → Type 0
  IsAmount v = (is_nonfinite v.value ≡ false) × (fl.lt v.value fzero ≡ false) × IsZeroUnknown v

  pub validate_fraction-IsZeroUnknown :
      (v : KnownFloat F) → validate_fraction v ≡ none → IsZeroUnknown v
  unfolding validate_fraction
  validate_fraction-IsZeroUnknown v h = ground arith

  validate_nonnegative-IsAmount : (v : KnownFloat F) → validate_nonnegative v ≡ none → IsAmount v
  unfolding validate_nonnegative
  validate_nonnegative-IsAmount v h = (ground arith, ground arith, ground arith)

  pub validate_fraction-IsFraction : (v : KnownFloat F) → validate_fraction v ≡ none → IsFraction v
  unfolding validate_fraction
  validate_fraction-IsFraction v h = ground arith

  pub selection_checked :
      (role : Role) (keys : List String) (d : DecisionEvidence F)
      → validate_selection role keys d ≡ none
      → (is_selection d.status ≡ true → contains keys d.selected_candidate ≡ true)
        × (is_selection d.status ≡ false
            → (d.selected_candidate ≡ "") × (d.probability.known ≡ false))
  unfolding validate_selection
  selection_checked role keys d h =
      (λ s. ground arith, λ s. ground (arith, eq_iff d.selected_candidate ""))

  pub failure_checked :
      (role : Role) (d : DecisionEvidence F)
      → validate_failure role d ≡ none
      → (is_failure d.status ≡ true
          → (is_machine_code d.error_code ≡ true) × (d.confidence.known ≡ false))
        × (is_failure d.status ≡ false → d.error_code ≡ "")
  unfolding validate_failure
  failure_checked role d h = (λ f. ground arith, λ f. ground (arith, eq_iff d.error_code ""))

  pub telemetry_checked :
      (t : Telemetry F)
      → validate_telemetry t ≡ none
      → IsUsage t.usage × IsAmount t.cost_usd × IsDuration t.latency
  unfolding validate_telemetry
  telemetry_checked t h =
      let (usage, rest) = or_next-eq-none (validate_usage t.usage) _ h in
      let (cost, latency) = or_next-eq-none (validate_nonnegative t.cost_usd) _ rest in
      (
        validate_usage-IsUsage t.usage usage,
        validate_nonnegative-IsAmount t.cost_usd cost,
        validate_duration-IsDuration t.latency latency,
      )
