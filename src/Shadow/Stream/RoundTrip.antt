-- ===== src/Shadow/Stream/RoundTrip.antt =====
-- The stream that Append writes is the one that Load reads.
use veto.Shared.{
  ◌≡◌, refl, sym, ap, ◌∙◌, String, true, false, Option, none, some, List, [], ◌∷◌, ◌++◌, All, inl,
  inr, ◌⊎◌,
}
use mathlib.Core.Path.{subst}
use mathlib.Core.List.{append-nil, append_assoc}
use veto.Shared.Float.{Float64}
use veto.Shared.Text.{◌==◌, Unicode, trim_space}
use veto.Shadow.Records.{Event}
use veto.Shadow.Evidence.{validate_event}
use veto.Shadow.Stream.{
  Codec, StreamError, Loaded, loaded, failed, append, load_line, load_value, load_lines, load,
  reject_forbidden_fields,
}
use veto.Shadow.Stream.Keys.{Format, event_json, IsAscii, is_rejected-allowed, event-allowed}

Loaded-cases :
    {F : Type 0} (r : Loaded F)
    → ((bad : StreamError) × (r ≡ failed bad)) ⊎ ((es : List (Event F)) × (r ≡ loaded es))
Loaded-cases (failed bad) = inl (bad, refl)
Loaded-cases (loaded es) = inr (es, refl)

module _ {F : Type 0} ⦃fl : Float64 F⦄ ⦃u : Unicode⦄ (codec : Codec F) where
  -- What encoding/json does to a valid event: it writes one line that is not blank, from which both
  -- decoders read back what was written, with nothing behind it.
  pub record IsWritten (format : Format F) (e : Event F) : Type 0 where
    pub valid : validate_event e ≡ none
    pub line : String
    pub encoded : codec.encode e ≡ some line
    pub trimmed : trim_space line ≡ line
    pub not_blank : (line == "") ≡ false
    pub parsed : codec.parse line ≡ some (event_json format e)
    pub decoded : codec.decode line ≡ some e
    pub ended : codec.ends line ≡ true

  -- Append on one event after the other, until one fails.
  pub append_each : List (Event F) → List String → List String × Option StreamError
  append_each [] lines = (lines, none)
  append_each (e ∷ es) lines = elim ((append codec e lines).1) [
    | some bad ↦ ((append codec e lines).0, some bad)
    | none ↦ append_each es (append codec e lines).0
  ]

  load_lines-append :
      (lines : List String) (line : String) (before events : List (Event F))
      → load_lines codec lines before ≡ loaded events
      → load_lines codec (lines ++ line ∷ []) before ≡ load_lines codec (line ∷ []) events
  unfolding load_lines
  load_lines-append [] line before events h =
      let same : before ≡ events = cc h in ap (load_lines codec (line ∷ [])) same
  load_lines-append (l ∷ lines) line before events h =
      elim (Loaded-cases (load_line codec l before)) [
        | inl (bad, fails) ↦ cc (rw (fails, load_lines) at h)
        | inr (more, works) ↦
            rw (works, load_lines)
              (load_lines-append lines line more events (rw (works, load_lines) at h))
      ]

  module _ (format : Format F) (ascii : IsAscii u) where
    line_allowed :
        (e : Event F) (w : IsWritten format e) → reject_forbidden_fields codec (w.line) ≡ none
    unfolding reject_forbidden_fields
    line_allowed e w =
        rw (w.parsed, reject_forbidden_fields)
          (rw (is_rejected-allowed ascii (event_json format e) (event-allowed format e)) refl)

    load_value-line_of :
        (e : Event F) (w : IsWritten format e) (before : List (Event F))
        → load_value codec (w.line) before ≡ loaded (before ++ e ∷ [])
    unfolding load_value
    load_value-line_of e w before =
        rw (line_allowed e w, load_value) (rw (w.decoded) (rw (w.ended) (rw w.valid refl)))

    load_line-line_of :
        (e : Event F) (w : IsWritten format e) (before : List (Event F))
        → load_line codec (w.line) before ≡ loaded (before ++ e ∷ [])
    unfolding load_line
    load_line-line_of e w before = rw (w.trimmed) (rw (w.not_blank) (load_value-line_of e w before))

    append-line_of :
        (e : Event F) (w : IsWritten format e) (lines : List String)
        → append codec e lines ≡ (lines ++ w.line ∷ [], none)
    unfolding append
    append-line_of e w lines = rw (w.valid, append) (rw (w.encoded) refl)

    one_line :
        (e : Event F) (w : IsWritten format e) (before : List (Event F))
        → load_lines codec (w.line ∷ []) before ≡ loaded (before ++ e ∷ [])
    unfolding load_lines
    one_line e w before = rw (load_line-line_of e w before, load_lines) refl

    append_each-cons :
        (e : Event F) (w : IsWritten format e) (es : List (Event F)) (lines : List String)
        → append_each (e ∷ es) lines ≡ append_each es (lines ++ w.line ∷ [])
    unfolding append_each
    append_each-cons e w es lines =
        ap
          (λ r. elim r.1 as (λ _. List String × Option StreamError) [
            | some bad ↦ (r.0, some bad)
            | none ↦ append_each es r.0
          ])
          (append-line_of e w lines)

    append_each-loaded :
        (es : List (Event F)) (lines : List String) (before : List (Event F))
        → All (IsWritten format) es
        → load_lines codec lines [] ≡ loaded before
        → ((append_each es lines).1 ≡ none)
          × (load_lines codec (append_each es lines).0 [] ≡ loaded (before ++ es))
    unfolding append_each
    append_each-loaded [] lines before h l = (refl, l ∙ ap loaded (sym (append-nil before)))
    append_each-loaded (e ∷ es) lines before (w, h) l =
        let line = w.line in
        let (worked, reads) =
          append_each-loaded es (lines ++ line ∷ []) (before ++ e ∷ []) h
            (load_lines-append lines line [] before l ∙ one_line e w before) in
        subst (λ r. (r.1 ≡ none) × (load_lines codec r.0 [] ≡ loaded (before ++ e ∷ es)))
          (sym (append_each-cons e w es lines))
          (worked, reads ∙ ap loaded (append_assoc before (e ∷ []) es))

    -- Valid events that are appended one after the other to an empty stream are all written, and
    -- Load reads exactly them back, given that the encoder writes a line for each from which the
    -- decoder reads it, and that lower case ASCII letters and the underscore are their own lower
    -- case.
    pub load-append_each :
        (events : List (Event F))
        → All (IsWritten format) events
        → ((append_each events []).1 ≡ none)
          × (load codec (append_each events []).0 ≡ loaded events)
    unfolding load load_lines
    load-append_each events h = append_each-loaded events [] [] h refl
