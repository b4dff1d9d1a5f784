-- ===== src/Router/Routing/Preflight.antt =====
-- When a route fails because no runtime can honor the requested execution options.
use mathlib.Core.Bool.{false≢true}
use veto.Shared.{
  All, All-imp, filter-nil_iff, filter-All, ◌≡◌, ◌≢◌, refl, sym, ap, ◌∙◌, ◌↔◌, Bool, true, false,
  not, List, [], ◌∷◌, String, arith, Option-cases, filter,
}
use veto.Shared.Int.{ℤ}
use veto.Shared.Float.{Float64}
use veto.Shared.Text.{Unicode}
use veto.Router.Types.{TaskSpec, ModelCapabilities}
use veto.Router.Decision.{
  decision_version, DecisionCandidate, DecisionRequest, DecisionOutcome, validate_outcome,
  validate_request,
}
use veto.Router.Executors.{Environment}
use veto.Router.Admission.{supports_execution_options}
use veto.Router.Sequential.{Decided, decided, failed}
use veto.Router.Shortlist.{
  with_complexity, considered, preferred, preflight, preflight_rejects, filter_events, candidates,
}
use veto.Router.Routing.{
  RouteResult, not_routed, Manager, select_candidate, outcome_error, accept_result, consult, submit,
  submit_ranked, new_route, route, unsupported_execution_options,
}
use veto.Router.Events.{Effect}

module _ {F : Type 0} ⦃fl : Float64 F⦄ where
  abbrev is_unsupported : RouteResult F → Bool
  is_unsupported (not_routed unsupported_execution_options) = true
  is_unsupported _ = false

  select_candidate-supported :
      (outcome : DecisionOutcome F) (id : String) (cs : List (DecisionCandidate F))
      → is_unsupported (select_candidate outcome id cs) ≡ false
  unfolding select_candidate
  select_candidate-supported outcome id [] = refl
  select_candidate-supported outcome id (c ∷ cs) =
      ground (arith, select_candidate-supported outcome id cs)

  accept_result-supported :
      (result : Decided F) (request : DecisionRequest F)
      → is_unsupported (accept_result result request) ≡ false
  unfolding accept_result outcome_error
  accept_result-supported (failed e) request = refl
  accept_result-supported (decided outcome) request = ground (
    arith,
    Option-cases (validate_outcome outcome request),
    select_candidate-supported outcome request.shadow_route_id request.candidates,
  )

  -- The models that the preflight is applied to.
  abbrev pub ranking :
      ⦃u : Unicode⦄ → {W : Type 0} → Manager F W → TaskSpec F → List (ModelCapabilities F)
  ranking m task = preferred m.preferences m.signals task (considered task m.models)

  module _ {W : Type 0} (env : Environment F W) (m : Manager F W) where
    submit-supported :
        (request : DecisionRequest F) (timeout : ℤ) (effects : List (Effect F)) (w : W)
        → is_unsupported (submit env m request timeout effects w).result ≡ false
    unfolding submit consult
    submit-supported request timeout effects w = ground (
      arith,
      Option-cases (validate_request request),
      accept_result-supported (m.engine request timeout w).result request,
    )

    submit_ranked-supported_iff :
        (task : TaskSpec F) (timeout : ℤ) (ranked rejected : List (ModelCapabilities F))
        (effects : List (Effect F)) (w : W)
        → ((submit_ranked env m task timeout ranked rejected effects w).result
            ≡ not_routed unsupported_execution_options)
          ↔ ((ranked ≡ []) × (rejected ≢ []))
    unfolding submit_ranked
    submit_ranked-supported_iff task timeout [] [] effects w =
        (λ h. ground arith, λ h. absurd (h.1 refl))
    submit_ranked-supported_iff task timeout [] (r ∷ rejected) effects w =
        (λ h. (refl, λ e. ground arith), λ h. refl)
    submit_ranked-supported_iff task timeout (c ∷ ranked) rejected effects w =
        let never =
          submit-supported
            (record {
              version = decision_version;
              task = task;
              candidates = candidates env m.gate task m.max_admissions (c ∷ ranked) [];
              shadow_route_id = (new_route env m w).1;
            })
            timeout effects (new_route env m w).0 in
        (
          λ h. let marked = ap is_unsupported h in absurd (false≢true (sym never ∙ marked)),
          λ h. ground arith,
        )

    -- A route fails for unsupported execution options exactly when some model passes the filters,
    -- the preferences and the hard filter, and no such model has a runtime that supports them.
    pub route-unsupported_iff :
        ⦃u : Unicode⦄
        → (task : TaskSpec F) (timeout : ℤ) (w : W)
        → ((route env m task timeout w).result ≡ not_routed unsupported_execution_options) ↔ (
            (ranking m (with_complexity task) ≢ [])
            × All
                (λ c. supports_execution_options env m.gate (with_complexity task) c ≡ false)
                (ranking m (with_complexity task)))
    unfolding route preflight preflight_rejects
    route-unsupported_iff asked timeout w =
        let task = with_complexity asked in
        let p = supports_execution_options env m.gate task in
        let ranked = ranking m task in
        let executable = preflight env m.gate task ranked in
        let rejected = preflight_rejects env m.gate task ranked in
        let outcome =
          submit_ranked-supported_iff task timeout executable rejected
            (filter_events task (considered task m.models) executable rejected) w in
        (
          λ h.
              let unsupported = (filter-nil_iff p ranked).0 (outcome.0 h).0 in
              (
                λ none_ranked. (outcome.0 h).1 (ap (filter (λ c. not (p c))) none_ranked),
                unsupported,
              ),
          λ h. outcome.1 (
            (filter-nil_iff p ranked).1 h.1,
            λ none_rejected. h.0 (
                sym (filter-All (λ c. not (p c)) ranked (All-imp _ _ (λ c f. ap not f) ranked h.1))
                ∙ none_rejected),
          ),
        )
