-- ===== src/Router/Sequential/Selection.antt =====
-- The sequential engine against a short description of it: the first candidate that accepts.
use veto.Shared.{
  suc, ◌+◌, ◌≤◌, String, ◌≡◌, refl, sym, ap, ◌∙◌, true, false, Option, none, some, List, [], ◌∷◌,
  arith, leb, length, Bool-cases, inl, inr, if◌then◌else◌,
}
use veto.Shared.Int.{ℤ}
use veto.Shared.Float.{Float64}
use veto.Shared.Text.{contains}
use veto.Router.Types.{TaskSpec, ModelCapabilities, AdmissionDecision}
use veto.Router.Decision.{DecisionCandidate, DecisionRequest, validate_request}
use veto.Router.Decision.Requests.{validate_request_iff}
use veto.Router.Executors.{Environment}
use veto.Router.Admission.{AdmissionGate, ask_with_timeout_measured}
use veto.Router.Sequential.{
  Decided, decided, failed, Progress, Round, next, stop, select, answered, errored, after_call,
  conclude, ask, round, rounds, decide, empty_outcome,
}

abbrev pub or_later {ℓ} : {A : Type ℓ} → Option A → Option A → Option A
or_later (some a) later = some a
or_later none later = later

-- The model and its decision, where the call went well and the model accepts.
abbrev pub acceptance :
    {F : Type 0}
    → ModelCapabilities F
    → Option String
    → AdmissionDecision F
    → Option (ModelCapabilities F × AdmissionDecision F)
acceptance m (some e) decision = none
acceptance m none decision = if decision.accept then some (m, decision) else none

module _ {F : Type 0} ⦃fl : Float64 F⦄ where
  abbrev pub Selects : Option (ModelCapabilities F × AdmissionDecision F) → Decided F → Type 0
  Selects (some (m, d)) (decided o) = (o.selected_candidate ≡ m.name) × (o.admission ≡ some d)
  Selects none (decided o) = (o.selected_candidate ≡ "") × (o.admission ≡ none)
  Selects choice (failed e) = ⊥

  -- What the loop makes of the end of a round.
  abbrev resume :
      {W : Type 0}
      → (Progress F W → Progress F W × Decided F)
      → Round F W
      → Progress F W × Decided F
  resume continue (next p) = continue p
  resume continue (stop p r) = (p, r)

  module _ {W : Type 0} (env : Environment F W) (g : AdmissionGate) where
    -- The first candidate that is not skipped and accepts when it is asked in turn.
    unfoldable pub first_accepting :
        TaskSpec F
        → ℤ
        → List (DecisionCandidate F)
        → W
        → Option (ModelCapabilities F × AdmissionDecision F)
    first_accepting task timeout [] w = none
    first_accepting task timeout (c ∷ cs) w =
        let (w', asked) = ask_with_timeout_measured env g task c.model timeout w in
        let skipped = first_accepting task timeout cs w in
        let later = first_accepting task timeout cs w' in
        if contains task.skip_models c.model.name
        then skipped
        else or_later (acceptance c.model asked.error asked.decision) later

    -- ctx.Err() is nil throughout.
    abbrev pub IsRunning : Type 0
    IsRunning = (w : W) → env.context_error w ≡ none

    abbrev IsUnselected : Progress F W → Type 0
    IsUnselected p = (p.outcome.selected_candidate ≡ "") × (p.outcome.admission ≡ none)

    module _ (running : IsRunning) (task : TaskSpec F) (timeout : ℤ) where
      conclude-rounds :
          (m : ModelCapabilities F) (error : Option String) (d : AdmissionDecision F)
          (p : Progress F W) (later : Option (ModelCapabilities F × AdmissionDecision F))
          (continue : Progress F W → Progress F W × Decided F)
          → IsUnselected p
          → ((q : Progress F W)
              → q.world ≡ p.world
              → q.attempts ≡ p.attempts
              → IsUnselected q
              → Selects later (continue q).1)
          → Selects
              (or_later (acceptance m error d) later)
              (resume continue (conclude env g error m d p)).1
      unfolding conclude answered errored select
      conclude-rounds m (some message) d p later continue h f =
          rw (running p.world) (f _ refl refl h)
      conclude-rounds m none d p later continue h f = elim (Bool-cases d.accept) [
        | inl accepts ↦ rw accepts (refl, refl)
        | inr rejects ↦ rw rejects (f _ refl refl h)
      ]

      round-skips :
          (m : ModelCapabilities F) (p : Progress F W)
          → contains task.skip_models m.name ≡ true
          → round env g task m timeout p ≡ next p
      unfolding round
      round-skips m p tried = rw (tried, round) refl

      round-asks :
          (m : ModelCapabilities F) (p : Progress F W)
          → contains task.skip_models m.name ≡ false
          → leb 3 p.attempts ≡ false
          → round env g task m timeout p ≡ ask env g task m timeout p
      unfolding round
      round-asks m p fresh room = rw (fresh, room, running p.world, round) refl

      rounds-resume :
          (c : DecisionCandidate F) (cs : List (DecisionCandidate F)) (p : Progress F W)
          → rounds env g task timeout (c ∷ cs) p
            ≡ resume (rounds env g task timeout cs) (round env g task c.model timeout p)
      unfolding rounds
      rounds-resume c cs p = refl

      rounds-skips :
          (c : DecisionCandidate F) (cs : List (DecisionCandidate F)) (p : Progress F W)
          → contains task.skip_models c.model.name ≡ true
          → rounds env g task timeout (c ∷ cs) p ≡ rounds env g task timeout cs p
      rounds-skips c cs p tried =
          rounds-resume c cs p
          ∙ ap (resume (rounds env g task timeout cs)) (round-skips c.model p tried)

      rounds-asks :
          (c : DecisionCandidate F) (cs : List (DecisionCandidate F)) (p : Progress F W)
          → contains task.skip_models c.model.name ≡ false
          → leb 3 p.attempts ≡ false
          → rounds env g task timeout (c ∷ cs) p
            ≡ resume (rounds env g task timeout cs) (ask env g task c.model timeout p)
      rounds-asks c cs p fresh room =
          rounds-resume c cs p
          ∙ ap (resume (rounds env g task timeout cs)) (round-asks c.model p fresh room)

      at_end : (p : Progress F W) → IsUnselected p → Selects none (rounds env g task timeout [] p).1
      unfolding rounds
      at_end p k = k

      asked-Selects :
          (c : DecisionCandidate F) (cs : List (DecisionCandidate F)) (p : Progress F W)
          → IsUnselected p
          → (let after = ask_with_timeout_measured env g task c.model timeout p.world in
              (q : Progress F W)
              → q.world ≡ after.0
              → q.attempts ≡ suc p.attempts
              → IsUnselected q
              → Selects
                  (first_accepting task timeout cs after.0)
                  (rounds env g task timeout cs q).1)
          → (let after = ask_with_timeout_measured env g task c.model timeout p.world in
              Selects
                (or_later
                  (acceptance c.model after.1.error after.1.decision)
                  (first_accepting task timeout cs after.0))
                (resume (rounds env g task timeout cs) (ask env g task c.model timeout p)).1)
      unfolding ask
      asked-Selects c cs p k f =
          let (world, answer) = ask_with_timeout_measured env g task c.model timeout p.world in
          conclude-rounds c.model answer.error answer.decision (after_call c.model world answer p)
            (first_accepting task timeout cs world) (rounds env g task timeout cs) k f

      rounds-first_accepting :
          (cs : List (DecisionCandidate F)) (p : Progress F W)
          → p.attempts + length cs ≤ 3
          → IsUnselected p
          → Selects (first_accepting task timeout cs p.world) (rounds env g task timeout cs p).1
      unfolding first_accepting
      rounds-first_accepting [] p h k = at_end p k
      rounds-first_accepting (c ∷ cs) p h k =
          elim (Bool-cases (contains task.skip_models c.model.name)) [
            | inl tried ↦
                rw (tried, rounds-skips c cs p tried)
                  (rounds-first_accepting cs p (omega (arith, h)) k)
            | inr fresh ↦
                rw (fresh, rounds-asks c cs p fresh (ground (arith, h)))
                  (asked-Selects c cs p k
                    (λ q w a l. rw (sym w) (rounds-first_accepting cs q (omega (arith, h, a)) l)))
          ]

    -- For a valid request whose context is never canceled, Decide returns an outcome, never an
    -- error: it selects the first candidate that is not to be skipped and that accepts when it is
    -- asked, with that decision, and selects nothing where none accepts. The limit on the number
    -- of calls cuts no candidate off.
    pub decide-first_accepting :
        IsRunning
        → (request : DecisionRequest F) (timeout : ℤ) (w : W) → validate_request request ≡ none
        → Selects
            (first_accepting request.task timeout request.candidates w)
            (decide env g request timeout w).1
    unfolding decide
    decide-first_accepting running request timeout w valid =
        rw (valid, decide)
          (rounds-first_accepting running request.task timeout request.candidates
            (record { world = w; attempts = 0; outcome = empty_outcome; effects = [] })
            (omega (arith, ((validate_request_iff request).0 valid).count.1)) (refl, refl))
