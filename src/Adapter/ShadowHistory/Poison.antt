-- ===== src/Adapter/ShadowHistory/Poison.antt =====
-- A shadow's answer with a negative count of input, output or total tokens is recorded as malformed,
-- with that count. The
-- file's recorder refuses the comparison, and every event after it.
use veto.Shared.{
  ◌≡◌, refl, ap, ◌||◌, Bool, String, true, false, Option, none, some, List, [], ◌∷◌, arith,
  Option-cases, inl, inr,
}
use veto.Shared.Int.{ℤ, is_negative}
use veto.Shared.Float.{Float64}
use veto.Shared.Text.{Unicode}
use veto.Shadow.Records.{Event, KnownUsage}
use veto.Shadow.Evidence.{EvidenceError, validate_event, validate_comparison}
use veto.Shadow.Evidence.Checked.{IsUsage}
use veto.Shadow.Evidence.Sound.{validate_comparison-IsSound}
use veto.Shadow.Stream.{Codec, StreamError, invalid_event, append}
use veto.Router.Decision.{
  DecisionRequest, OutcomeError, DecisionTelemetry, validate_telemetry, validate_probability,
  ◌or_next◌,
}
use veto.Router.Sequential.{Decided}
use veto.Router.Shadowing as Shadowing
use veto.Router.Shadowing.{
  ShadowPrediction, ShadowResult, ShadowComparisonRecord, ShadowingEngine, failure, malformed,
  validate_choice, validate_prediction, prediction_evidence, shadow_evidence,
}
use veto.Adapter.ShadowHistory.{
  FileRecorder, RecordError, Fault, not_appended, poison, append_event, append_result, append_line,
  comparison_of, comparison_event, decision, record_shadow_comparison,
}

or_next-right :
    (a b : Option OutcomeError)
    → ((e : OutcomeError) × (b ≡ some e))
    → (e : OutcomeError) × ((a or_next b) ≡ some e)
or_next-right none b (e, h) = (e, h)
or_next-right (some x) b h = (x, refl)

or_next-left :
    (a b : Option OutcomeError)
    → ((e : OutcomeError) × (a ≡ some e))
    → (e : OutcomeError) × ((a or_next b) ≡ some e)
or_next-left none b (e, h) = cc
or_next-left (some x) b h = (x, refl)

-- One of the counts of tokens is negative.
abbrev is_negative_usage : ℤ → ℤ → ℤ → Bool
is_negative_usage input output total = is_negative input || is_negative output || is_negative total

negative-IsUsage :
    (u : KnownUsage)
    → is_negative_usage u.input_tokens u.output_tokens u.total_tokens ≡ true
    → ¬ IsUsage u
negative-IsUsage u h p = ground (arith, p.nonnegative)

module _ {F : Type 0} ⦃fl : Float64 F⦄ where
  abbrev has_negative_usage : DecisionTelemetry F → Bool
  has_negative_usage t = is_negative_usage t.input_tokens t.output_tokens t.total_tokens

  -- An answer that came back, without a panic and without an error, with a negative count of input,
  -- output or total tokens.
  pub record IsNegative (result : ShadowResult F) : Type 0 where
    pub answered : result.panicked ≡ false
    pub no_error : result.err ≡ none
    pub negative : has_negative_usage result.prediction.telemetry ≡ true

  telemetry_refused :
      (t : DecisionTelemetry F)
      → has_negative_usage t ≡ true
      → (e : OutcomeError) × (validate_telemetry t ≡ some e)
  unfolding validate_telemetry
  telemetry_refused t h = elim (Option-cases (validate_telemetry t)) [
    | inl valid ↦ absurd (ground arith)
    | inr refused ↦ refused
  ]

  prediction_refused :
      (request : DecisionRequest F) (p : ShadowPrediction F)
      → has_negative_usage p.telemetry ≡ true
      → (e : OutcomeError) × (validate_prediction p request ≡ some e)
  unfolding validate_prediction
  prediction_refused request p h =
      let choice = validate_choice p request in
      let telemetry = validate_telemetry p.telemetry in
      let confidence = validate_probability p.confidence in
      or_next-right (validate_probability p.probability)
        (confidence or_next telemetry or_next choice)
        (or_next-right confidence (telemetry or_next choice)
          (or_next-left telemetry choice (telemetry_refused p.telemetry h)))

  -- The evidence is that of a malformed answer, with its telemetry as it came.
  negative_evidence :
      (request : DecisionRequest F) (result : ShadowResult F)
      → IsNegative result
      → shadow_evidence request result ≡ failure malformed "MALFORMED" result.prediction.telemetry
  unfolding shadow_evidence prediction_evidence
  negative_evidence request result n =
      let (e, refused) = prediction_refused request result.prediction n.negative in
      rw n.answered (rw n.no_error (rw (refused, prediction_evidence) refl))

  -- So its event is not valid.
  comparison_refused :
      (c : ShadowComparisonRecord F)
      → has_negative_usage c.shadow.telemetry ≡ true
      → (e : EvidenceError) × (validate_event (comparison_event c) ≡ some e)
  unfolding comparison_event validate_event comparison_of decision
  comparison_refused c h = elim (Option-cases (validate_comparison (comparison_of c))) [
    | inl valid ↦
        let sound = validate_comparison-IsSound (comparison_of c) valid in
        absurd (negative-IsUsage (comparison_of c).shadow.telemetry.usage h sound.shadow.tokens)
    | inr refused ↦ refused
  ]

module _ {F : Type 0} ⦃fl : Float64 F⦄ ⦃u : Unicode⦄ (codec : Codec F) where
  -- A recorder that has failed with `e`, and the file as it was.
  abbrev pub IsPoisoned : FileRecorder → RecordError → Option (List String) → Type 0
  IsPoisoned r e file = (r.failed ≡ some e) × (r.file ≡ file)

  append_line-failed :
      (f : Fault) (line : List String) (r : FileRecorder) (e : RecordError)
      → r.failed ≡ some e
      → append_line codec f line r ≡ (r, some e)
  unfolding append_line
  append_line-failed f line r e h = simp (h, append_line) refl

  poison-failed :
      (later : RecordError) (r : FileRecorder) (e : RecordError)
      → r.failed ≡ some e
      → poison later r ≡ r
  unfolding poison
  poison-failed later r e h = simp (h, poison) refl

  poison-fresh :
      (e : RecordError) (r : FileRecorder) → r.failed ≡ none → IsPoisoned (poison e r) e r.file
  unfolding poison
  poison-fresh e r h = simp (h, poison) (refl, refl)

  -- A poisoned recorder refuses every event.
  append_result-IsPoisoned :
      (f : Fault) (result : List String × Option StreamError) (r : FileRecorder) (e : RecordError)
      (file : Option (List String))
      → IsPoisoned r e file
      → IsPoisoned (append_result codec f result r).0 e file
        × ((later : RecordError) × ((append_result codec f result r).1 ≡ some later))
  unfolding append_result
  append_result-IsPoisoned f (line, some bad) r e file (h, same) =
      rw (poison-failed (not_appended bad) r e h) ((h, same), (not_appended bad, refl))
  append_result-IsPoisoned f (line, none) r e file (h, same) =
      rw (append_line-failed f line r e h) ((h, same), (e, refl))

  -- The recorder after a comparison that is not valid.
  refused-IsPoisoned :
      (f : Fault) (c : ShadowComparisonRecord F) (r : FileRecorder) (bad : EvidenceError)
      → validate_event (comparison_event c) ≡ some bad
      → r.failed ≡ none
      → IsPoisoned
          (record_shadow_comparison codec f c r).0
          (not_appended (invalid_event bad))
          r.file
  unfolding record_shadow_comparison append_event append append_result poison
  refused-IsPoisoned f c r bad refused fresh =
      rw (refused, record_shadow_comparison, append_event, append)
        (poison-fresh (not_appended (invalid_event bad)) r fresh)

  -- A refusal of one event, and what comes of it.
  append_event-IsPoisoned :
      (f : Fault) (event : Event F) (r : FileRecorder) (e : RecordError)
      (file : Option (List String))
      → IsPoisoned r e file
      → IsPoisoned (append_event codec f event r).0 e file
        × ((later : RecordError) × ((append_event codec f event r).1 ≡ some later))
  unfolding append_event append_result
  append_event-IsPoisoned f event r = append_result-IsPoisoned f (append codec event []) r

  -- Events that arrive one after the other, each with the fault of its call.
  unfoldable pub append_all : List (Fault × Event F) → FileRecorder → FileRecorder
  unfolding append_event
  append_all [] r = r
  append_all ((f, event) ∷ rest) r = append_all rest (append_event codec f event r).0

  append_all-IsPoisoned :
      (events : List (Fault × Event F)) (r : FileRecorder) (e : RecordError)
      (file : Option (List String))
      → IsPoisoned r e file
      → IsPoisoned (append_all events r) e file
  unfolding append_all append_event
  append_all-IsPoisoned [] r e file h = h
  append_all-IsPoisoned ((f, event) ∷ rest) r e file h =
      append_all-IsPoisoned rest (append_event codec f event r).0 e file
        (append_event-IsPoisoned f event r e file h).0

  -- Take an answer of the shadow with a negative count of input, output or total tokens, which came
  -- without an error and without a panic, and a recorder that has not failed. Once the comparison of this answer was recorded, the recorder has
  -- failed, the file is what it was, and no sequence of later events, whatever they are, changes
  -- either.
  pub negative-poisons :
      {W : Type 0} (engine : ShadowingEngine F W) (route_id : String) (now : ℤ)
      (request : DecisionRequest F) (result : Decided F) (observed : ShadowResult F) (f : Fault)
      (r : FileRecorder) (later : List (Fault × Event F))
      → IsNegative observed
      → r.failed ≡ none
      → (bad : EvidenceError) × IsPoisoned
          (append_all later
            (record_shadow_comparison codec f
              (Shadowing.comparison_of engine route_id now request result observed)
              r).0)
          (not_appended (invalid_event bad))
          r.file
  unfolding Shadowing.comparison_of record_shadow_comparison append_all append_event
  negative-poisons engine route_id now request result observed f r later n fresh =
      let c = Shadowing.comparison_of engine route_id now request result observed in
      let telemetry : c.shadow.telemetry ≡ observed.prediction.telemetry =
        ap (λ s. s.telemetry) (negative_evidence request observed n) in
      let (bad, refused) = comparison_refused c (rw telemetry n.negative) in
      let poisoned = refused-IsPoisoned f c r bad refused fresh in
      (
        bad,
        append_all-IsPoisoned later (record_shadow_comparison codec f c r).0
            (not_appended (invalid_event bad)) r.file poisoned,
      )
