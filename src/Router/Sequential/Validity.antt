-- ===== src/Router/Sequential/Validity.antt =====
-- An outcome of the sequential engine passes the contract's own check.
use veto.Shared.{
  suc, String, ◌≡◌, ◌≢◌, refl, ap, Bool, true, false, ◌&&◌, Option, none, some, List, [], ◌∷◌, All,
  All-imp, All-pair, arith, leb, ◌++◌, Bool-cases, Option-cases, inl, inr, nat_eq,
}
use veto.Shared.Int.{ℤ}
use veto.Shared.Float.{Float64, IsIeee, fzero, le}
use veto.Shared.Text.{eq_iff, trim_space, contains}
use veto.Router.Types.{ModelCapabilities, AdmissionDecision}
use veto.Router.Decision.{
  DecisionCandidate, DecisionRequest, DecisionOutcome, validate_outcome, validate_telemetry,
  validate_probability, validate_reasons, validate_selection, validate_request, has_candidate,
  DecisionTelemetry,
}
use veto.Router.Decision.Requests.{IsNamed, validate_request_iff}
use veto.Router.Telemetry.{merge_decision_telemetry}
use veto.Router.Telemetry.Validity.{merge-valid}
use veto.Router.Events.{emit, event, ask_start}
use veto.Router.Executors.{Environment}
use veto.Router.Admission.{AdmissionGate, ask_with_timeout_measured}
use veto.Router.Measurement.{no_telemetry}
use veto.Router.Admission.Policy.{IsMonotonic, ask-telemetry_valid}
use veto.Router.Sequential.{
  Decided, decided, failed, Progress, Round, next, stop, unknown_probability, empty_outcome, select,
  answered, conclude, ask, round, rounds, decide,
}

module _ {F : Type 0} ⦃fl : Float64 F⦄ where
  -- The outcome before a model has accepted: nothing but the telemetry is set.
  abbrev pub pending : DecisionTelemetry F → DecisionOutcome F
  pending t = record empty_outcome { telemetry = t }

  module _ (laws : IsIeee F) where
    open laws use {
      zero_finite, eq_zero, zero_lt_one, lt_irrefl, lt_trans, eq_excludes, inf_outside,
      number_of_lt,
    }

    no_telemetry-valid : validate_telemetry (no_telemetry {F = F}) ≡ none
    unfolding validate_telemetry
    no_telemetry-valid = ground (arith, zero_finite, eq_zero, lt_irrefl fzero)

    unknown_probability-valid : validate_probability (unknown_probability {F = F}) ≡ none
    unfolding validate_probability
    unknown_probability-valid = ground (
      arith,
      zero_finite,
      eq_zero,
      zero_lt_one,
      lt_irrefl fzero,
      lt_trans fzero (fl.lit 1 0) fzero,
    )

    confidence-valid :
        (c : F)
        → le fzero c && le c (fl.lit 1 0) ≡ true
        → validate_probability (record { value = c; known = true }) ≡ none
    unfolding validate_probability
    confidence-valid c h = ground (
      arith,
      inf_outside c,
      eq_excludes fzero c,
      eq_excludes c (fl.lit 1 0),
      number_of_lt fzero c,
      number_of_lt c (fl.lit 1 0),
      lt_irrefl fzero,
      lt_irrefl (fl.lit 1 0),
      lt_trans fzero c fzero,
      lt_trans (fl.lit 1 0) c (fl.lit 1 0),
    )

    module _ (request : DecisionRequest F) (v : validate_request request ≡ none) where
      pending-valid :
          (t : DecisionTelemetry F)
          → validate_telemetry t ≡ none
          → validate_outcome (pending t) request ≡ none
      unfolding validate_outcome validate_reasons validate_selection
      pending-valid t h = ground (arith, unknown_probability-valid)

      select-valid :
          (t : DecisionTelemetry F)
          → validate_telemetry t ≡ none
          → (m : ModelCapabilities F) (d : AdmissionDecision F) → m.name ≢ ""
          → has_candidate request.candidates m.name ≡ true
          → d.accept ≡ true
          → validate_outcome (select (pending t) m d) request ≡ none
      unfolding validate_outcome select validate_reasons validate_selection
      select-valid t h m d named offered accepted =
          ground (arith, unknown_probability-valid, confidence-valid d.confidence, eq_iff m.name "")

-- The candidate has a name, and the request offers it.
abbrev IsOffered : {F : Type 0} → List (DecisionCandidate F) → DecisionCandidate F → Type 0
IsOffered offered c = (c.model.name ≢ "") × (has_candidate offered c.model.name ≡ true)

has_candidate_self :
    {F : Type 0} (cs : List (DecisionCandidate F))
    → All (λ c. has_candidate cs c.model.name ≡ true) cs
unfolding has_candidate
has_candidate_self [] = tt
has_candidate_self (c ∷ cs) = (
  ground (arith, (eq_iff c.model.name c.model.name).1 refl),
  All-imp (λ d. has_candidate cs d.model.name ≡ true)
      (λ d. has_candidate (c ∷ cs) d.model.name ≡ true) (λ d h. ground arith) cs
      (has_candidate_self cs),
)

All-IsOffered :
    {F : Type 0} (request : DecisionRequest F)
    → All IsNamed request.candidates
    → All (IsOffered request.candidates) request.candidates
unfolding trim_space
All-IsOffered request named =
    All-pair (λ c. c.model.name ≢ "") (λ c. has_candidate request.candidates c.model.name ≡ true)
      request.candidates
      (All-imp IsNamed (λ c. c.model.name ≢ "") (λ c n e. n (ap trim_space e)) request.candidates
        named)
      (has_candidate_self request.candidates)

module _ {F : Type 0} ⦃fl : Float64 F⦄ where
  abbrev IsPending : DecisionOutcome F → Type 0
  IsPending o = (o ≡ pending o.telemetry) × (validate_telemetry o.telemetry ≡ none)

  -- A result that the contract accepts: an error, or a valid outcome.
  abbrev pub IsContractual : DecisionRequest F → Decided F → Type 0
  IsContractual request (decided o) = validate_outcome o request ≡ none
  IsContractual request (failed e) = Unit

  module _ {W : Type 0} (env : Environment F W) (g : AdmissionGate) where
    abbrev KeepsContract : DecisionRequest F → Round F W → Type 0
    KeepsContract request (next p) = IsPending p.outcome
    KeepsContract request (stop p r) = IsContractual request r

    module _ (laws : IsIeee F) (mono : IsMonotonic env) (request : DecisionRequest F)
        (v : validate_request request ≡ none) (m : ModelCapabilities F) (named : m.name ≢ "")
        (offered : has_candidate request.candidates m.name ≡ true) where
      answered-KeepsContract :
          (accepts : Bool) (d : AdmissionDecision F) (p : Progress F W)
          → d.accept ≡ accepts
          → IsPending p.outcome
          → KeepsContract request (answered accepts m d p)
      unfolding answered
      answered-KeepsContract true d p a (e, h) =
          rw e (select-valid laws request v p.outcome.telemetry h m d named offered a)
      answered-KeepsContract false d p a h = h

      conclude-KeepsContract :
          (error : Option String) (d : AdmissionDecision F) (p : Progress F W)
          → IsPending p.outcome
          → KeepsContract request (conclude env g error m d p)
      unfolding conclude
      conclude-KeepsContract none d p h = answered-KeepsContract d.accept d p refl h
      conclude-KeepsContract (some message) d p h =
          elim (Option-cases (env.context_error p.world)) [
            | inl running ↦ rw running h
            | inr (cause, canceled_by) ↦ rw canceled_by tt
          ]

      ask-KeepsContract :
          (timeout : ℤ) (p : Progress F W)
          → IsPending p.outcome
          → KeepsContract request (ask env g request.task m timeout p)
      unfolding ask
      ask-KeepsContract timeout p (e, h) =
          let (world, asked) = ask_with_timeout_measured env g request.task m timeout p.world in
          let telemetry =
            merge_decision_telemetry p.outcome.telemetry asked.telemetry
              (nat_eq (suc p.attempts) 1) in
          conclude-KeepsContract asked.error asked.decision
            (record {
              world = world;
              attempts = suc p.attempts;
              outcome = record p.outcome { telemetry = telemetry };
              effects = p.effects ++ emit (event ask_start m.name) ∷ [];
            })
            (
              ap (λ (o : DecisionOutcome F). record o { telemetry = telemetry }) e,
              merge-valid laws p.outcome.telemetry asked.telemetry (nat_eq (suc p.attempts) 1) h
                  (ask-telemetry_valid env g laws mono request.task m timeout p.world),
            )

      round-KeepsContract :
          (timeout : ℤ) (p : Progress F W)
          → IsPending p.outcome
          → KeepsContract request (round env g request.task m timeout p)
      unfolding round
      round-KeepsContract timeout p (e, h) =
          elim (Bool-cases (contains request.task.skip_models m.name)) [
            | inl skipped ↦ rw (skipped, round) (e, h)
            | inr kept ↦
                rw (kept, round)
                  (elim (Bool-cases (leb 3 p.attempts)) [
                    | inl spent ↦
                        rw spent (rw e (pending-valid laws request v p.outcome.telemetry h))
                    | inr left ↦ rw left (elim (Option-cases (env.context_error p.world)) [
                      | inl running ↦ rw running (ask-KeepsContract timeout p (e, h))
                      | inr (cause, canceled_by) ↦ rw canceled_by tt
                    ])
                  ])
          ]

    rounds-IsContractual :
        IsIeee F
        → IsMonotonic env
        → (request : DecisionRequest F) → validate_request request ≡ none
        → (timeout : ℤ) (cs : List (DecisionCandidate F)) → All (IsOffered request.candidates) cs
        → (p : Progress F W) → IsPending p.outcome
        → IsContractual request (rounds env g request.task timeout cs p).1
    unfolding rounds
    rounds-IsContractual laws mono request v timeout [] a p (e, h) =
        rw e (pending-valid laws request v p.outcome.telemetry h)
    rounds-IsContractual laws mono request v timeout (c ∷ cs) ((named, offered), a) p h =
        go (round env g request.task c.model timeout p)
          (round-KeepsContract laws mono request v c.model named offered timeout p h)
          (rounds-IsContractual laws mono request v timeout cs a)
      where
        go :
            (r : Round F W)
            → KeepsContract request r
            → ((q : Progress F W)
                → IsPending q.outcome
                → IsContractual request (rounds env g request.task timeout cs q).1)
            → IsContractual request
                (elim r as (λ _. Progress F W × Decided F) [
                  | next q ↦ rounds env g request.task timeout cs q
                  | stop q result ↦ (q, result)
                ]).1
        go (next q) k rest = rest q k
        go (stop q result) k rest = k

    -- Whatever the models and the clock do, the sequential engine returns an error or an outcome
    -- that DecisionOutcome.Validate accepts for the same request, given the laws of float64 and a
    -- clock that does not go backwards.
    pub decide-IsContractual :
        IsIeee F
        → IsMonotonic env
        → (request : DecisionRequest F) (timeout : ℤ) (w : W)
        → IsContractual request (decide env g request timeout w).1
    unfolding decide
    decide-IsContractual laws mono request timeout w =
        elim (Option-cases (validate_request request)) [
          | inl v ↦
              rw (v, decide)
                (rounds-IsContractual laws mono request v timeout request.candidates
                  (All-IsOffered request ((validate_request_iff request).0 v).named)
                  (record { world = w; attempts = 0; outcome = empty_outcome; effects = [] })
                  (refl, no_telemetry-valid laws))
          | inr (e, bad) ↦ rw (bad, decide) tt
        ]
