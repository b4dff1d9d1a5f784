-- ===== src/Router/Routing/Trusted.antt =====
-- What a route guarantees, whatever its decision engine does.
use mathlib.Core.List.{Mem}
use veto.Shared.{
  ◌≡◌, true, false, none, List, [], ◌∷◌, String, All, All-imp, arith, length, nat_eq, Bool-cases,
  Option-cases, inl, inr, filter,
}
use veto.Shared.Int.{ℤ}
use veto.Shared.Float.{Float64}
use veto.Shared.Text.{Unicode, contains, ◌==◌}
use veto.Shared.Members.{mem-filter_iff, All-of_mem}
use veto.Router.Types.{TaskSpec, ModelCapabilities}
use veto.Router.Filter.Capable.{IsCapable}
use veto.Router.Preferences.{is_eligible}
use veto.Router.Decision.{
  decision_version, DecisionCandidate, DecisionRequest, DecisionOutcome, validate_outcome,
  validate_request,
}
use veto.Router.Executors.{Environment}
use veto.Router.Admission.{supports_execution_options}
use veto.Router.Sequential.{Decided, decided, failed}
use veto.Router.Shortlist.{
  with_complexity, considered, matches_filters, preferred, preflight, preflight_rejects, candidates,
  filter_events,
}
use veto.Router.Shortlist.Candidates.{mem-preferred_iff, candidates-All}
use veto.Router.Routing.{
  RouteResult, routed, not_routed, Manager, returned_decision, select_candidate, outcome_error,
  accept_result, consult, submit, submit_ranked, new_route, route,
}
use veto.Router.Events.{Effect}

module _ {F : Type 0} ⦃fl : Float64 F⦄ {W : Type 0} (env : Environment F W) (m : Manager F W) where
  -- The model is registered and passes every filter of the route for the task.
  pub record IsUsable ⦃u : Unicode⦄ (task : TaskSpec F) (c : ModelCapabilities F) : Type 0 where
    pub registered : Mem c m.models
    pub matches : matches_filters task c ≡ true
    pub allowed : is_eligible m.preferences c ≡ true
    pub capable : IsCapable task c
    pub supported : supports_execution_options env m.gate task c ≡ true
    pub untried : contains task.skip_models c.name ≡ false

  -- An error, or a usable model with a decision that accepts.
  abbrev pub IsTrusted : ⦃u : Unicode⦄ → TaskSpec F → RouteResult F → Type 0
  IsTrusted task (routed c decision) = IsUsable task c × (decision.accept ≡ true)
  IsTrusted task (not_routed e) = Unit

module _ {F : Type 0} ⦃fl : Float64 F⦄ (P : ModelCapabilities F → Type 0) where
  -- The same, for any predicate on models.
  abbrev Selects : RouteResult F → Type 0
  Selects (routed c decision) = P c × (decision.accept ≡ true)
  Selects (not_routed e) = Unit

  select_candidate-Selects :
      (outcome : DecisionOutcome F) (id : String) (cs : List (DecisionCandidate F))
      → (returned_decision outcome id).accept ≡ true
      → All (λ c. P c.model) cs
      → Selects (select_candidate outcome id cs)
  unfolding select_candidate
  select_candidate-Selects outcome id [] accepted a = tt
  select_candidate-Selects outcome id (c ∷ cs) accepted (p, a) =
      elim (Bool-cases (c.model.name == outcome.selected_candidate)) [
        | inl found ↦ rw (found, select_candidate) (p, accepted)
        | inr other ↦
            rw (other, select_candidate) (select_candidate-Selects outcome id cs accepted a)
      ]

  returned_decision-accept :
      (outcome : DecisionOutcome F) (id : String) (request : DecisionRequest F)
      → validate_outcome outcome request ≡ none
      → (returned_decision outcome id).accept ≡ true
  unfolding returned_decision validate_outcome
  returned_decision-accept outcome id request v = ground arith

  accept_result-Selects :
      (result : Decided F) (request : DecisionRequest F)
      → All (λ c. P c.model) request.candidates
      → Selects (accept_result result request)
  unfolding accept_result outcome_error
  accept_result-Selects (failed e) request a = tt
  accept_result-Selects (decided outcome) request a =
      elim (Option-cases (validate_outcome outcome request)) [
        | inr (e, bad) ↦ rw (bad, accept_result) tt
        | inl v ↦
            rw (v, accept_result)
              (elim (Bool-cases (outcome.selected_candidate == "")) [
                | inl nothing ↦ rw nothing tt
                | inr selected ↦ rw selected (
                    select_candidate-Selects outcome request.shadow_route_id request.candidates
                      (returned_decision-accept outcome request.shadow_route_id request v) a)
              ])
      ]

module _ {F : Type 0} ⦃fl : Float64 F⦄ {W : Type 0} (env : Environment F W) (m : Manager F W)
    (P : ModelCapabilities F → Type 0) where
  submit-Selects :
      (request : DecisionRequest F) (timeout : ℤ) (effects : List (Effect F)) (w : W)
      → All (λ c. P c.model) request.candidates
      → Selects P (submit env m request timeout effects w).result
  unfolding submit consult
  submit-Selects request timeout effects w a =
      elim (Bool-cases (nat_eq (length request.candidates) 0)) [
        | inl empty ↦ rw (empty, submit) tt
        | inr some_candidates ↦ elim (Option-cases (validate_request request)) [
          | inr (e, bad) ↦ rw (bad, some_candidates, submit) tt
          | inl v ↦
              rw (v, some_candidates, submit)
                (accept_result-Selects P (m.engine request timeout w).result request a)
        ]
      ]

  submit_ranked-Selects :
      (task : TaskSpec F) (timeout : ℤ) (ranked rejected : List (ModelCapabilities F))
      (effects : List (Effect F)) (w : W)
      → All (λ c. contains task.skip_models c.name ≡ false → P c) ranked
      → Selects P (submit_ranked env m task timeout ranked rejected effects w).result
  unfolding submit_ranked
  submit_ranked-Selects task timeout [] [] effects w a = tt
  submit_ranked-Selects task timeout [] (r ∷ rejected) effects w a = tt
  submit_ranked-Selects task timeout (c ∷ ranked) rejected effects w a =
      submit-Selects
        (record {
          version = decision_version;
          task = task;
          candidates = candidates env m.gate task m.max_admissions (c ∷ ranked) [];
          shadow_route_id = (new_route env m w).1;
        })
        timeout effects (new_route env m w).0
        (All-imp _ _ (λ d h. h.0 h.1) _
          (candidates-All env m.gate task _ m.max_admissions (c ∷ ranked) [] a tt))

module _ {F : Type 0} ⦃fl : Float64 F⦄ {W : Type 0} (env : Environment F W) (m : Manager F W)
    ⦃u : Unicode⦄ where
  usable :
      (task : TaskSpec F) (c : ModelCapabilities F)
      → Mem c (
          preflight env m.gate task
            (preferred m.preferences m.signals task (considered task m.models)))
      → contains task.skip_models c.name ≡ false
      → IsUsable env m task c
  unfolding preflight considered
  usable task c found fresh =
      let all = filter (matches_filters task) m.models in
      let ranked = preferred m.preferences m.signals task all in
      let (inside, supported) =
        (mem-filter_iff (supports_execution_options env m.gate task) c ranked).0 found in
      let ((considered_model, allowed), capable) =
        (mem-preferred_iff m.preferences m.signals task all c).0 inside in
      let (registered, matches) =
        (mem-filter_iff (matches_filters task) c m.models).0 considered_model in
      record {
        registered = registered;
        matches = matches;
        allowed = allowed;
        capable = capable;
        supported = supported;
        untried = fresh;
      }

  -- Whatever the decision engine answers, a route that returns a model returns a registered one
  -- that matches the task's runtime and provider filters, that the user's preferences allow, that
  -- is capable of the task, whose runtime supports the requested execution options and that is not
  -- to be skipped, together with a decision that accepts. The task is the request's, with its
  -- complexity inferred where it has none.
  pub route-IsTrusted :
      (task : TaskSpec F) (timeout : ℤ) (w : W)
      → IsTrusted env m (with_complexity task) (route env m task timeout w).result
  unfolding route
  route-IsTrusted asked timeout w =
      let task = with_complexity asked in
      let all = considered task m.models in
      let ranked = preferred m.preferences m.signals task all in
      let executable = preflight env m.gate task ranked in
      let rejected = preflight_rejects env m.gate task ranked in
      trusted _ (
        submit_ranked-Selects env m (IsUsable env m task) task timeout executable rejected
          (filter_events task all executable rejected) w (All-of_mem _ executable (usable task)))
    where
      trusted :
          (r : RouteResult F)
          → Selects (IsUsable env m (with_complexity asked)) r
          → IsTrusted env m (with_complexity asked) r
      trusted (routed c decision) h = h
      trusted (not_routed e) h = h
