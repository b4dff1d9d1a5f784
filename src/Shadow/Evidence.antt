-- ===== src/Shadow/Evidence.antt =====
-- pkg/shadow/evidence.go: validation of recorded evidence. An error's text is not modelled; each
-- place that makes one has a constructor.
pub mod Checked
pub mod Sound
use Prim.Native.Char.{Char, code}
use veto.Shared.{
  ℕ, zero, suc, String, Bool, true, false, not, ◌&&◌, ◌||◌, Option, none, some, List, [], ◌∷◌,
  length, ltb, leb, nat_eq, if◌then◌else◌,
}
use veto.Shared.Int.{ℤ, pos, eq_ℤ, is_zero, is_negative}
use veto.Shared.Float.{Float64, fzero, gt, is_nonfinite}
use veto.Shared.Text.{◌==◌, contains, trim_space}
use veto.Shadow.Records.{
  DecisionStatus, selected, no_selection, error, unavailable, timeout, canceled, malformed,
  other_status, KnownFloat, KnownBool, KnownUsage, KnownDuration, Telemetry, DecisionEvidence,
  RouteComparison, ExecutionLabel, Event,
}

abbrev pub schema_version : ℤ
schema_version = pos 1

abbrev pub route_comparison_type : String
route_comparison_type = "route_comparison"

abbrev pub execution_label_type : String
execution_label_type = "execution_label"

abbrev pub allowed_task_kinds : List String
allowed_task_kinds =
    "extract" ∷ "summarize" ∷ "code-change" ∷ "debug" ∷ "plan" ∷ "review" ∷ "refactor" ∷ []

abbrev pub allowed_risks : List String
allowed_risks = "low" ∷ "medium" ∷ "high" ∷ []

-- The two decisions of a comparison.
pub data Role : Type 0 where
  authority_role shadow_role : Role

pub data Named : Type 0 where
  route_id authority_strategy shadow_strategy candidate_key candidate : Named

pub data EvidenceError : Type 0 where
  unsupported_schema unsupported_type comparison_only label_only : EvidenceError
  invalid_id : Named → EvidenceError
  no_time unsupported_task_kind unsupported_risk : EvidenceError
  candidate_count duplicate_candidate unknown_success : EvidenceError
  unsupported_status unknown_selection stray_selection stray_probability : Role → EvidenceError
  no_error_code stray_confidence stray_error_code : Role → EvidenceError
  not_a_fraction negative_value unknown_value : EvidenceError
  negative_usage unknown_usage negative_latency unknown_latency : EvidenceError

-- The first error of two checks in a row.
infixr 20 ◌or_next◌
abbrev pub ◌or_next◌ : Option EvidenceError → Option EvidenceError → Option EvidenceError
none or_next b = b
(some e) or_next b = some e

abbrev pub fail_if : Bool → EvidenceError → Option EvidenceError
fail_if b e = if b then some e else none

abbrev is_digit : ℕ → Bool
is_digit n = leb 0x30 n && leb n 0x39

abbrev is_upper : ℕ → Bool
is_upper n = leb 0x41 n && leb n 0x5a

abbrev is_lower : ℕ → Bool
is_lower n = leb 0x61 n && leb n 0x7a

-- [A-Za-z0-9]
unfoldable pub is_alphanumeric : Char → Bool
is_alphanumeric c = let n = code c in is_upper n || is_lower n || is_digit n

-- [A-Za-z0-9._:-]
unfoldable pub is_id_char : Char → Bool
unfolding is_alphanumeric
is_id_char c =
    let n = code c in
    is_alphanumeric c || nat_eq n 0x2e || nat_eq n 0x5f || nat_eq n 0x3a || nat_eq n 0x2d

-- [A-Z0-9_]
unfoldable pub is_code_char : Char → Bool
is_code_char c = let n = code c in is_upper n || is_digit n || nat_eq n 0x5f

-- [...]{0,most}
unfoldable pub all_chars : (Char → Bool) → ℕ → String → Bool
all_chars p most String.[] = true
all_chars p zero (String.◌∷◌ c s) = false
all_chars p (suc most) (String.◌∷◌ c s) = p c && all_chars p most s

-- opaqueIDPattern
unfoldable pub is_opaque_id : String → Bool
unfolding is_id_char all_chars
is_opaque_id String.[] = false
is_opaque_id (String.◌∷◌ c s) = is_alphanumeric c && all_chars is_id_char 127 s

-- codePattern
unfoldable pub is_machine_code : String → Bool
unfolding is_code_char all_chars
is_machine_code String.[] = false
is_machine_code (String.◌∷◌ c s) = is_upper (code c) && all_chars is_code_char 63 s

-- validateID
unfoldable pub validate_id : Named → String → Option EvidenceError
unfolding is_opaque_id trim_space
validate_id name value =
    fail_if (not (is_opaque_id value) || not (trim_space value == value)) (invalid_id name)

-- The check of a strategy, which may be empty.
unfoldable pub validate_strategy : Named → String → Option EvidenceError
unfolding validate_id
validate_strategy name value = if value == "" then none else validate_id name value

-- The loop over the candidates, with the keys seen so far.
unfoldable pub validate_keys : List String → List String → Option EvidenceError
unfolding validate_id contains
validate_keys seen [] = none
validate_keys seen (key ∷ keys) =
    let rest = validate_keys (key ∷ seen) keys in
    validate_id candidate_key key
    or_next (if contains seen key then some duplicate_candidate else rest)

-- KnownUsage.validate
unfoldable pub validate_usage : KnownUsage → Option EvidenceError
validate_usage u =
    fail_if
      (is_negative u.input_tokens || is_negative u.output_tokens || is_negative u.total_tokens)
      negative_usage
    or_next fail_if
        (not u.known
          && (not (is_zero u.input_tokens)
              || not (is_zero u.output_tokens)
              || not (is_zero u.total_tokens)))
        unknown_usage

-- KnownDuration.validate
unfoldable pub validate_duration : KnownDuration → Option EvidenceError
validate_duration d =
    fail_if (is_negative d.millis) negative_latency
    or_next fail_if (not d.known && not (is_zero d.millis)) unknown_latency

-- The statuses that a decision of the role may have.
unfoldable pub has_status : Role → DecisionStatus → Bool
has_status role selected = true
has_status role no_selection = true
has_status role error = true
has_status role (other_status text) = false
has_status authority_role status = false
has_status shadow_role status = true

abbrev pub is_selection : DecisionStatus → Bool
is_selection selected = true
is_selection _ = false

abbrev pub is_failure : DecisionStatus → Bool
is_failure selected = false
is_failure no_selection = false
is_failure _ = true

module _ {F : Type 0} ⦃fl : Float64 F⦄ where
  -- KnownFloat.validate
  unfoldable pub validate_fraction : KnownFloat F → Option EvidenceError
  validate_fraction v =
      fail_if (is_nonfinite v.value || fl.lt v.value fzero || gt v.value (fl.lit 1 0))
        not_a_fraction
      or_next fail_if (not v.known && not (fl.eq v.value fzero)) unknown_value

  -- KnownFloat.validateNonnegative
  unfoldable pub validate_nonnegative : KnownFloat F → Option EvidenceError
  validate_nonnegative v =
      fail_if (is_nonfinite v.value || fl.lt v.value fzero) negative_value
      or_next fail_if (not v.known && not (fl.eq v.value fzero)) unknown_value

  -- Telemetry.validate
  unfoldable pub validate_telemetry : Telemetry F → Option EvidenceError
  unfolding validate_usage validate_nonnegative validate_duration
  validate_telemetry t =
      validate_usage t.usage
      or_next validate_nonnegative t.cost_usd
      or_next validate_duration t.latency

  -- DecisionEvidence.validate: its checks of the selection,
  unfoldable pub validate_selection : Role → List String → DecisionEvidence F → Option EvidenceError
  unfolding contains
  validate_selection role keys d =
      if is_selection d.status
      then fail_if (not (contains keys d.selected_candidate)) (unknown_selection role)
      else fail_if (not (d.selected_candidate == "")) (stray_selection role)
        or_next fail_if d.probability.known (stray_probability role)

  -- of the error code,
  unfoldable pub validate_failure : Role → DecisionEvidence F → Option EvidenceError
  unfolding is_machine_code
  validate_failure role d =
      if is_failure d.status
      then fail_if (not (is_machine_code d.error_code)) (no_error_code role)
        or_next fail_if d.confidence.known (stray_confidence role)
      else fail_if (not (d.error_code == "")) (stray_error_code role)

  -- and the whole.
  unfoldable pub validate_decision : Role → List String → DecisionEvidence F → Option EvidenceError
  unfolding has_status validate_fraction validate_telemetry validate_selection validate_failure
  validate_decision role keys d =
      fail_if (not (has_status role d.status)) (unsupported_status role)
      or_next validate_fraction d.probability
      or_next validate_fraction d.confidence
      or_next validate_telemetry d.telemetry
      or_next validate_selection role keys d
      or_next validate_failure role d

  -- RouteComparison.validate
  unfoldable pub validate_comparison : RouteComparison F → Option EvidenceError
  unfolding validate_id validate_strategy validate_keys validate_decision contains
  validate_comparison c =
      validate_id route_id c.route_id
      or_next fail_if (is_zero c.observed_at) no_time
      or_next fail_if (not (contains allowed_task_kinds c.task_kind)) unsupported_task_kind
      or_next fail_if (not (contains allowed_risks c.risk)) unsupported_risk
      or_next validate_strategy authority_strategy c.authority_strategy
      or_next validate_strategy shadow_strategy c.shadow_strategy
      or_next fail_if (nat_eq (length c.candidates) 0 || ltb 3 (length c.candidates))
          candidate_count
      or_next validate_keys [] c.candidates
      or_next validate_decision authority_role c.candidates c.authority
      or_next validate_decision shadow_role c.candidates c.shadow

  -- ExecutionLabel.validate
  unfoldable pub validate_label : ExecutionLabel F → Option EvidenceError
  unfolding validate_id validate_fraction validate_usage validate_nonnegative validate_duration
  validate_label l =
      validate_id route_id l.route_id
      or_next validate_id candidate l.candidate
      or_next fail_if (is_zero l.observed_at) no_time
      or_next fail_if (not l.success.known && l.success.value) unknown_success
      or_next validate_fraction l.score
      or_next validate_usage l.usage
      or_next validate_nonnegative l.cost_usd
      or_next validate_duration l.latency

  -- Event.Validate
  unfoldable pub validate_event : Event F → Option EvidenceError
  unfolding validate_comparison validate_label
  validate_event e =
      if not (eq_ℤ e.schema_version schema_version)
      then some unsupported_schema
      else if e.type == route_comparison_type
      then elim e.comparison [
        | none ↦ some comparison_only
        | some c ↦ elim e.label [ none ↦ validate_comparison c | some l ↦ some comparison_only ]
      ]
      else if e.type == execution_label_type
      then elim e.label [
        | none ↦ some label_only
        | some l ↦ elim e.comparison [ none ↦ validate_label l | some c ↦ some label_only ]
      ]
      else some unsupported_type
