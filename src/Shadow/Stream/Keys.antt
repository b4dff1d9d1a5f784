-- ===== src/Shadow/Stream/Keys.antt =====
-- The JSON values of events, by the struct tags of evidence.go: none of their keys is forbidden.
use Prim.Native.Char.{Char, code}
use veto.Shared.{
  ◌≡◌, refl, ap, ◌∙◌, String, Bool, true, false, not, ◌&&◌, ◌||◌, none, some, List, [], ◌∷◌, leb,
  nat_eq, Bool-cases, Option-cases, inl, inr, if◌then◌else◌,
}
use veto.Shared.Int.{ℤ}
use veto.Shared.Text.{◌==◌, eq_iff, Unicode, to_lower, trim_space, contains}
use veto.Shadow.Records.{
  KnownFloat, KnownBool, KnownUsage, KnownDuration, Telemetry, DecisionEvidence, RouteComparison,
  ExecutionLabel, Event, status_text,
}
use veto.Shadow.Stream.{
  Json, null, boolean, number, text, array, object, Items, no_items, item, Fields, no_fields, field,
  forbidden_evidence_fields, underscored, is_forbidden, is_rejected, is_rejected_items,
  is_rejected_fields,
}

-- How encoding/json writes numbers and times.
pub record Format (F : Type 0) : Type 0 where
  pub of_int : ℤ → String
  pub of_float : F → String
  pub of_time : ℤ → String

-- `omitempty`
abbrev omit : String → String → Fields → Fields
omit key s rest = if s == "" then rest else field key (text s) rest

module _ {F : Type 0} (format : Format F) where
  -- The JSON values of the records, by their struct tags.
  abbrev float_json : KnownFloat F → Json
  float_json v =
      object (
        field "known" (boolean v.known)
          (field "value" (number (format.of_float v.value)) no_fields))

  abbrev bool_json : KnownBool → Json
  bool_json v = object (field "known" (boolean v.known) (field "value" (boolean v.value) no_fields))

  abbrev usage_json : KnownUsage → Json
  usage_json v = object (
      field "known" (boolean v.known) (
        field "input_tokens" (number (format.of_int v.input_tokens)) (
          field "output_tokens" (number (format.of_int v.output_tokens))
            (field "total_tokens" (number (format.of_int v.total_tokens)) no_fields))))

  abbrev duration_json : KnownDuration → Json
  duration_json v =
      object (
        field "known" (boolean v.known)
          (field "millis" (number (format.of_int v.millis)) no_fields))

  abbrev telemetry_json : Telemetry F → Json
  telemetry_json t = object (
      field "usage" (usage_json t.usage) (
        field "cost_usd" (float_json t.cost_usd)
          (field "latency" (duration_json t.latency) no_fields)))

  abbrev decision_json : DecisionEvidence F → Json
  decision_json d = object (
      field "status" (text (status_text d.status)) (
        omit "selected_candidate" d.selected_candidate (
          field "probability" (float_json d.probability) (
            field "confidence" (float_json d.confidence) (
              field "telemetry" (telemetry_json d.telemetry)
                (omit "error_code" d.error_code no_fields))))))

  candidates_json : List String → Items
  candidates_json [] = no_items
  candidates_json (key ∷ keys) =
      item (object (field "key" (text key) no_fields)) (candidates_json keys)

  abbrev comparison_json : RouteComparison F → Json
  comparison_json c = object (
      field "route_id" (text c.route_id) (
        field "observed_at" (text (format.of_time c.observed_at)) (
          field "task_kind" (text c.task_kind) (
            field "risk" (text c.risk) (
              field "candidates" (array (candidates_json c.candidates)) (
                field "authority_strategy" (text c.authority_strategy) (
                  field "shadow_strategy" (text c.shadow_strategy) (
                    field "authority" (decision_json c.authority)
                      (field "shadow" (decision_json c.shadow) no_fields)))))))))

  abbrev label_json : ExecutionLabel F → Json
  label_json l = object (
      field "route_id" (text l.route_id) (
        field "observed_at" (text (format.of_time l.observed_at)) (
          field "candidate" (text l.candidate) (
            field "success" (bool_json l.success) (
              field "score" (float_json l.score) (
                field "usage" (usage_json l.usage) (
                  field "cost_usd" (float_json l.cost_usd)
                    (field "latency" (duration_json l.latency) no_fields))))))))

  unfoldable pub event_json : Event F → Json
  unfolding candidates_json
  event_json e =
      let label = elim e.label as (λ _. Fields) [
        | none ↦ no_fields
        | some l ↦ field "label" (label_json l) no_fields
      ] in
      object (
        field "schema_version" (number (format.of_int e.schema_version)) (
          field "type" (text e.type) (elim e.comparison as (λ _. Fields) [
            | none ↦ label
            | some c ↦ field "comparison" (comparison_json c) label
          ])))

-- unicode.ToLower leaves lower case ASCII letters and the underscore alone.
abbrev is_plain : Char → Bool
is_plain c = let n = code c in (leb 0x61 n && leb n 0x7a) || nat_eq n 0x5f

pub record IsAscii (u : Unicode) : Type 0 where
  pub keeps : (c : Char) → is_plain c ≡ true → u.to_lower c ≡ c

all_plain : String → Bool
all_plain String.[] = true
all_plain (String.◌∷◌ c s) = is_plain c && all_plain s

-- A key that cannot be taken for a forbidden one.
is_allowed : String → Bool
unfolding all_plain underscored trim_space contains
is_allowed key =
    underscored (trim_space key) == key
    && (all_plain key && not (contains forbidden_evidence_fields key))

and_split : (a b : Bool) → a && b ≡ true → (a ≡ true) × (b ≡ true)
and_split true b h = (refl, h)
and_split false b h = cc

not-eq-true : (b : Bool) → not b ≡ true → b ≡ false
not-eq-true true h = cc
not-eq-true false h = refl

-- All keys of a value are allowed.
mutual
  unfolding is_allowed

  pub are_allowed : Json → Bool
  are_allowed null = true
  are_allowed (boolean b) = true
  are_allowed (number n) = true
  are_allowed (text s) = true
  are_allowed (array items) = are_allowed_items items
  are_allowed (object fields) = are_allowed_fields fields

  are_allowed_items : Items → Bool
  are_allowed_items no_items = true
  are_allowed_items (item v items) = are_allowed v && are_allowed_items items

  are_allowed_fields : Fields → Bool
  are_allowed_fields no_fields = true
  are_allowed_fields (field key v fields) =
      is_allowed key && (are_allowed v && are_allowed_fields fields)

module _ ⦃u : Unicode⦄ (ascii : IsAscii u) where
  to_lower-plain : (s : String) → all_plain s ≡ true → to_lower s ≡ s
  unfolding all_plain to_lower
  to_lower-plain String.[] h = refl
  to_lower-plain (String.◌∷◌ c s) h =
      let (first, rest) = and_split (is_plain c) (all_plain s) h in
      rw (ascii.keeps c first) (ap (String.◌∷◌ c) (to_lower-plain s rest))

  is_forbidden-allowed : (key : String) → is_allowed key ≡ true → is_forbidden key ≡ false
  unfolding is_allowed is_forbidden
  is_forbidden-allowed key h =
      let free = not (contains forbidden_evidence_fields key) in
      let (same, rest) =
        and_split (underscored (trim_space key) == key) (all_plain key && free) h in
      let (plain, fine) = and_split (all_plain key) free rest in
      ap (λ k. contains forbidden_evidence_fields (to_lower k))
        ((eq_iff (underscored (trim_space key)) key).0 same)
      ∙ ap (contains forbidden_evidence_fields) (to_lower-plain key plain)
      ∙ not-eq-true (contains forbidden_evidence_fields key) fine

  mutual
    unfolding is_rejected are_allowed

    pub is_rejected-allowed : (v : Json) → are_allowed v ≡ true → is_rejected v ≡ false
    is_rejected-allowed null h = refl
    is_rejected-allowed (boolean b) h = refl
    is_rejected-allowed (number n) h = refl
    is_rejected-allowed (text s) h = refl
    is_rejected-allowed (array items) h = items-allowed items h
    is_rejected-allowed (object fields) h = fields-allowed fields h

    items-allowed :
        (items : Items) → are_allowed_items items ≡ true → is_rejected_items items ≡ false
    items-allowed no_items h = refl
    items-allowed (item v items) h =
        let (p, q) = and_split (are_allowed v) (are_allowed_items items) h in
        rw (is_rejected-allowed v p) (items-allowed items q)

    fields-allowed :
        (fields : Fields) → are_allowed_fields fields ≡ true → is_rejected_fields fields ≡ false
    fields-allowed no_fields h = refl
    fields-allowed (field key v fields) h =
        let (a, rest) = and_split (is_allowed key) (are_allowed v && are_allowed_fields fields) h in
        let (p, q) = and_split (are_allowed v) (are_allowed_fields fields) rest in
        rw (is_forbidden-allowed key a) (rw (is_rejected-allowed v p) (fields-allowed fields q))

omit-allowed :
    (key s : String) (rest : Fields)
    → is_allowed key ≡ true
    → are_allowed_fields (omit key s rest) ≡ are_allowed_fields rest
unfolding are_allowed
omit-allowed key s rest a = elim (Bool-cases (s == "")) [
  | inl blank ↦ rw blank refl
  | inr full ↦ rw full (rw a refl)
]

module _ {F : Type 0} (format : Format F) where
  candidates-allowed : (keys : List String) → are_allowed_items (candidates_json format keys) ≡ true
  unfolding candidates_json are_allowed is_allowed
  candidates-allowed [] = refl
  candidates-allowed (key ∷ keys) = candidates-allowed keys

  decision-allowed : (d : DecisionEvidence F) → are_allowed (decision_json format d) ≡ true
  unfolding are_allowed is_allowed
  decision-allowed d =
      omit-allowed "selected_candidate" d.selected_candidate _ refl
      ∙ omit-allowed "error_code" d.error_code no_fields refl

  comparison-allowed : (c : RouteComparison F) → are_allowed (comparison_json format c) ≡ true
  unfolding are_allowed is_allowed
  comparison-allowed c =
      rw (candidates-allowed c.candidates)
        (rw (decision-allowed c.authority) (rw (decision-allowed c.shadow) refl))

  pub event-allowed : (e : Event F) → are_allowed (event_json format e) ≡ true
  unfolding are_allowed is_allowed event_json
  event-allowed e = elim (Option-cases e.comparison) [
    | inl no_comparison ↦ rw no_comparison (elim (Option-cases e.label) [
      | inl no_label ↦ rw no_label refl
      | inr (l, has) ↦ rw has refl
    ])
    | inr (c, has) ↦ rw has (
        rw (comparison-allowed c) (elim (Option-cases e.label) [
          | inl no_label ↦ rw no_label refl
          | inr (l, has_label) ↦ rw has_label refl
        ]))
  ]
