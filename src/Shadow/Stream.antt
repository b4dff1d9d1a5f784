-- ===== src/Shadow/Stream.antt =====
-- pkg/shadow/jsonl.go: the stream of events as JSON lines, Append and Load. The encoder and the
-- decoder are parameters; a line that is longer than the scanner's buffer of 1 MiB, and a write that
-- breaks off, are not modelled.
pub mod Keys
pub mod RoundTrip
use Prim.Native.Char.{Char, code}
use veto.Shared.{
  String, Bool, true, false, not, ◌&&◌, ◌||◌, Option, none, some, List, [], ◌∷◌, ◌++◌, nat_eq,
  if◌then◌else◌,
}
use veto.Shared.Int.{ℤ}
use veto.Shared.Float.{Float64}
use veto.Shared.Text.{◌==◌, Unicode, to_lower, trim_space, contains}
use veto.Shadow.Records.{
  KnownFloat, KnownBool, KnownUsage, KnownDuration, Telemetry, DecisionEvidence, RouteComparison,
  ExecutionLabel, Event, status_text,
}
use veto.Shadow.Evidence.{EvidenceError, validate_event}

-- A decoded JSON value.
mutual
  pub data Json : Type 0 where
    null : Json
    boolean : Bool → Json
    number : String → Json
    text : String → Json
    array : Items → Json
    object : Fields → Json

  pub data Items : Type 0 where
    no_items : Items
    item : Json → Items → Items

  pub data Fields : Type 0 where
    no_fields : Fields
    field : String → Json → Fields → Fields

abbrev pub forbidden_evidence_fields : List String
forbidden_evidence_fields =
    "objective" ∷ "admission_objective" ∷ "constraints" ∷ "credential" ∷ "credentials" ∷ "api_key"
    ∷ "authorization" ∷ "secret" ∷ "response" ∷ "response_body" ∷ "raw_response"
    ∷ "provider_response_body" ∷ "detail" ∷ "explanation" ∷ "free_form_explanation"
    ∷ "filesystem_path" ∷ "path" ∷ "account_id" ∷ "account_identifier" ∷ []

-- strings.ReplaceAll(s, "-", "_")
unfoldable pub underscored : String → String
underscored String.[] = String.[]
underscored (String.◌∷◌ c s) = String.◌∷◌ (if nat_eq (code c) 0x2d then "_" else c) (underscored s)

module _ ⦃u : Unicode⦄ where
  unfoldable pub is_forbidden : String → Bool
  unfolding underscored to_lower trim_space contains
  is_forbidden key = contains forbidden_evidence_fields (to_lower (underscored (trim_space key)))

  -- The closure `visit` of rejectForbiddenFields, on a value, an array and an object.
  unfoldable mutual
    unfolding is_forbidden

    pub is_rejected : Json → Bool
    is_rejected null = false
    is_rejected (boolean b) = false
    is_rejected (number n) = false
    is_rejected (text s) = false
    is_rejected (array items) = is_rejected_items items
    is_rejected (object fields) = is_rejected_fields fields

    pub is_rejected_items : Items → Bool
    is_rejected_items no_items = false
    is_rejected_items (item v items) = is_rejected v || is_rejected_items items

    pub is_rejected_fields : Fields → Bool
    is_rejected_fields no_fields = false
    is_rejected_fields (field key v fields) =
        is_forbidden key || is_rejected v || is_rejected_fields fields

-- encoding/json for the type Event: Encode writes one line, `parse` decodes a line into any value,
-- `decode` its first value into an Event, and `ends` is whether nothing follows that value.
pub record Codec (F : Type 0) : Type 0 where
  pub encode : Event F → Option String
  pub parse : String → Option Json
  pub decode : String → Option (Event F)
  pub ends : String → Bool

pub data StreamError : Type 0 where
  invalid_event : EvidenceError → StreamError
  not_encoded not_json forbidden_field not_an_event multiple_values : StreamError

pub data Loaded (F : Type 0) : Type 0 where
  loaded : List (Event F) → Loaded F
  failed : StreamError → Loaded F

abbrev of_evidence : Option EvidenceError → Option StreamError
of_evidence none = none
of_evidence (some e) = some (invalid_event e)

module _ {F : Type 0} ⦃fl : Float64 F⦄ ⦃u : Unicode⦄ (codec : Codec F) where
  -- Append: the lines of the stream after it, or its error.
  unfoldable pub append : Event F → List String → List String × Option StreamError
  unfolding validate_event
  append event lines = elim (validate_event event) [
    | some bad ↦ (lines, some (invalid_event bad))
    | none ↦ elim (codec.encode event) [
      | none ↦ (lines, some not_encoded)
      | some line ↦ (lines ++ line ∷ [], none)
    ]
  ]

  -- rejectForbiddenFields
  unfoldable pub reject_forbidden_fields : String → Option StreamError
  unfolding is_rejected
  reject_forbidden_fields raw = elim (codec.parse raw) [
    | none ↦ some not_json
    | some v ↦ if is_rejected v then some forbidden_field else none
  ]

  -- What the loop of Load makes of a line that is not blank,
  unfoldable pub load_value : String → List (Event F) → Loaded F
  unfolding reject_forbidden_fields validate_event
  load_value raw events = elim (reject_forbidden_fields raw) [
    | some bad ↦ failed bad
    | none ↦ elim (codec.decode raw) [
      | none ↦ failed not_an_event
      | some event ↦
          if not (codec.ends raw) then failed multiple_values else elim (validate_event event) [
            | some bad ↦ failed (invalid_event bad)
            | none ↦ loaded (events ++ event ∷ [])
          ]
    ]
  ]

  -- and of any line: the events with the new one, or as they were.
  unfoldable pub load_line : String → List (Event F) → Loaded F
  unfolding load_value trim_space
  load_line line events =
      if trim_space line == "" then loaded events else load_value (trim_space line) events

  unfoldable pub load_lines : List String → List (Event F) → Loaded F
  unfolding load_line
  load_lines [] events = loaded events
  load_lines (line ∷ lines) events = elim (load_line line events) [
    | failed bad ↦ failed bad
    | loaded more ↦ load_lines lines more
  ]

  -- Load
  unfoldable pub load : List String → Loaded F
  unfolding load_lines
  load lines = load_lines lines []
