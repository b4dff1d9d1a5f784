-- ===== src/Shadow/Replay/Steps.antt =====
-- One round of Materialize's loop, as a relation.
use veto.Shared.{
  ◌≡◌, refl, Bool, true, false, not, Option, none, some, List, [], ◌∷◌, ◌++◌, Bool-cases,
  Option-cases, inl, inr, if◌then◌else◌,
}
use veto.Shared.Int.{eq_ℤ}
use veto.Shared.Float.{Float64}
use veto.Shared.Text.{◌==◌, Unicode}
use veto.Shadow.Records.{RouteComparison, ExecutionLabel, Event, RouteRecord, Dataset}
use veto.Shadow.Evidence.{
  EvidenceError, unsupported_schema, comparison_only, label_only, unsupported_type, schema_version,
  route_comparison_type, execution_label_type, validate_event, validate_comparison, validate_label,
}
use veto.Shadow.Replay.{
  Replayed, replayed, refused, record_of, offered, put_label, add_comparison, add_label, add_event,
  materialize_from,
}

abbrev pub unlabeled : {F : Type 0} → RouteComparison F → RouteRecord F
unlabeled c = record { comparison = c; labels = [] }

module _ {F : Type 0} ⦃fl : Float64 F⦄ where
  -- A valid event has exactly one payload.
  data Payload (e : Event F) : Type 0 where
    comparison :
        (c : RouteComparison F)
        → (e.type == route_comparison_type) ≡ true
        → e.comparison ≡ some c
        → e.label ≡ none
        → validate_comparison c ≡ none
        → Payload e
    label :
        (l : ExecutionLabel F)
        → (e.type == route_comparison_type) ≡ false
        → (e.type == execution_label_type) ≡ true
        → e.comparison ≡ none
        → e.label ≡ some l
        → validate_label l ≡ none
        → Payload e

  Payload-checked :
      (e : Event F) (s p q : Bool) (c : Option (RouteComparison F)) (l : Option (ExecutionLabel F))
      → (e.type == route_comparison_type) ≡ p
      → (e.type == execution_label_type) ≡ q
      → e.comparison ≡ c
      → e.label ≡ l
      → (if s
          then some unsupported_schema
          else if p
          then elim c as (λ _. Option EvidenceError) [
            | none ↦ some comparison_only
            | some c' ↦ elim l as (λ _. Option EvidenceError) [
              | none ↦ validate_comparison c'
              | some _ ↦ some comparison_only
            ]
          ]
          else if q
          then elim l as (λ _. Option EvidenceError) [
            | none ↦ some label_only
            | some l' ↦ elim c as (λ _. Option EvidenceError) [
              | none ↦ validate_label l'
              | some _ ↦ some label_only
            ]
          ]
          else some unsupported_type)
        ≡ none
      → Payload e
  Payload-checked e true p q c l hp hq hc hl h = cc
  Payload-checked e false true q none l hp hq hc hl h = cc
  Payload-checked e false true q (some c) none hp hq hc hl h = comparison c hp hc hl h
  Payload-checked e false true q (some c) (some l) hp hq hc hl h = cc
  Payload-checked e false false true c none hp hq hc hl h = cc
  Payload-checked e false false true none (some l) hp hq hc hl h = label l hp hq hc hl h
  Payload-checked e false false true (some c) (some l) hp hq hc hl h = cc
  Payload-checked e false false false c l hp hq hc hl h = cc

  validate_event-Payload : (e : Event F) → validate_event e ≡ none → Payload e
  unfolding validate_event
  validate_event-Payload e h =
      Payload-checked e (not (eq_ℤ e.schema_version schema_version))
        (e.type == route_comparison_type) (e.type == execution_label_type) e.comparison e.label refl
        refl refl refl h

module _ {F : Type 0} ⦃fl : Float64 F⦄ ⦃u : Unicode⦄ where
  -- What a round that does not fail has done to the dataset.
  pub data Added (e : Event F) (before after : Dataset F) : Type 0 where
    compared :
        (c : RouteComparison F)
        → e.comparison ≡ some c
        → e.label ≡ none
        → validate_comparison c ≡ none
        → record_of c.route_id before ≡ none
        → after ≡ before ++ unlabeled c ∷ []
        → Added e before after
    labeled :
        (l : ExecutionLabel F) (r : RouteRecord F)
        → e.comparison ≡ none
        → e.label ≡ some l
        → validate_label l ≡ none
        → record_of l.route_id before ≡ some r
        → offered r.comparison.candidates l.candidate ≡ true
        → after ≡ put_label l before
        → Added e before after

  add_comparison-Added :
      (e : Event F) (before after : Dataset F) (c : RouteComparison F)
      → e.comparison ≡ some c
      → e.label ≡ none
      → validate_comparison c ≡ none
      → add_comparison c before ≡ replayed after
      → Added e before after
  unfolding add_comparison
  add_comparison-Added e before after c hc hl valid h =
      elim (Option-cases (record_of c.route_id before)) [
        | inl new ↦ compared c hc hl valid new (cc (rw (new, add_comparison) at h))
        | inr (r, old) ↦ cc (rw (old, add_comparison) at h)
      ]

  add_label-Added :
      (e : Event F) (before after : Dataset F) (l : ExecutionLabel F)
      → e.comparison ≡ none
      → e.label ≡ some l
      → validate_label l ≡ none
      → add_label l before ≡ replayed after
      → Added e before after
  unfolding add_label
  add_label-Added e before after l hc hl valid h =
      elim (Option-cases (record_of l.route_id before)) [
        | inl unknown ↦ cc (rw (unknown, add_label) at h)
        | inr (r, known) ↦ elim (Bool-cases (offered r.comparison.candidates l.candidate)) [
          | inl has ↦
              labeled l r hc hl valid known has (cc (rw has at (rw (known, add_label) at h)))
          | inr hasnt ↦ cc (rw hasnt at (rw (known, add_label) at h))
        ]
      ]

  add_event-Added :
      (e : Event F) (before after : Dataset F)
      → Payload e
      → add_event e before ≡ replayed after
      → Added e before after
  unfolding add_event
  add_event-Added e before after (comparison c hp hc hl valid) h =
      add_comparison-Added e before after c hc hl valid (rw (hc, add_event) at (rw hp at h))
  add_event-Added e before after (label l hp hq hc hl valid) h =
      add_label-Added e before after l hc hl valid (rw (hl, add_event) at (rw hq at (rw hp at h)))

  -- The first round of a run that does not fail, and the rest of the run.
  pub materialize_from-Added :
      (e : Event F) (es : List (Event F)) (before last : Dataset F)
      → materialize_from (e ∷ es) before ≡ replayed last
      → (after : Dataset F) × Added e before after × (materialize_from es after ≡ replayed last)
  unfolding materialize_from
  materialize_from-Added e es before last h = elim (Option-cases (validate_event e)) [
    | inr (bad, invalid) ↦ cc (rw (invalid, materialize_from) at h)
    | inl valid ↦
        let run = rw (valid, materialize_from) at h in
        after_round valid (add_event e before) refl run
  ]
    where
      after_round :
          validate_event e ≡ none
          → (r : Replayed F) → add_event e before ≡ r
          → elim r as (λ _. Replayed F) [
            | refused bad ↦ refused bad
            | replayed next ↦ materialize_from es next
          ]
            ≡ replayed last
          → (after : Dataset F) × Added e before after × (materialize_from es after ≡ replayed last)
      after_round valid (refused bad) same run = cc
      after_round valid (replayed after) same run =
          (after, add_event-Added e before after (validate_event-Payload e valid) same, run)
