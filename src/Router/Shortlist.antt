-- ===== src/Router/Shortlist.antt =====
-- pkg/router/manager.go: the first half of `route`, from the registry to the candidates that a
-- decision engine is asked about.
pub mod Candidates
use veto.Shared.{
  ℕ, String, Bool, true, false, not, ◌&&◌, ◌||◌, Option, none, some, List, [], ◌∷◌, ◌++◌, map,
  length, leb, filter, if◌then◌else◌,
}
use veto.Shared.Float.{Float64}
use veto.Shared.Text.{◌==◌, Unicode, equal_fold, contains}
use veto.Router.Types.{
  TaskSpec, TaskKind, ModelCapabilities, RoutingSignal, reason_execution_option,
  reason_policy_excluded,
}
use veto.Router.Complexity.{infer_complexity}
use veto.Router.Filter.{filter_reason}
use veto.Router.Preferences.{CandidatePreferences, filter_eligible, prioritize}
use veto.Router.Scorer.{rank_candidates}
use veto.Router.Decision.{DecisionCandidate, max_decision_candidates}
use veto.Router.Events.{Effect, emit, event, filter_pass, filter_fail, shortlist}
use veto.Router.Executors.{Environment}
use veto.Router.Admission.{AdmissionGate, gate_tools, supports_execution_options}

module _ {F : Type 0} where
  -- The task, with a complexity where it names none.
  unfoldable pub with_complexity : ⦃u : Unicode⦄ → TaskSpec F → TaskSpec F
  with_complexity task =
      if task.complexity == ""
      then record task { complexity = infer_complexity task.objective task.kind }
      else task

  -- The test of the loop over the runtime and provider filters.
  unfoldable pub matches_filters : ⦃u : Unicode⦄ → TaskSpec F → ModelCapabilities F → Bool
  unfolding equal_fold
  matches_filters task model =
      (task.runtime_filter == "" || equal_fold model.runtime task.runtime_filter)
      && (task.provider_filter == "" || equal_fold model.provider task.provider_filter)

  -- `all`, after the filters.
  unfoldable pub considered :
      ⦃u : Unicode⦄ → TaskSpec F → List (ModelCapabilities F) → List (ModelCapabilities F)
  considered task models = filter (matches_filters task) models

module _ {F : Type 0} ⦃fl : Float64 F⦄ where
  -- The ranking, before the preflight.
  unfoldable pub preferred :
      CandidatePreferences
      → (String → TaskKind → RoutingSignal F)
      → TaskSpec F
      → List (ModelCapabilities F)
      → List (ModelCapabilities F)
  unfolding filter_eligible prioritize rank_candidates
  preferred p signals task all = prioritize p (rank_candidates task (filter_eligible p all) signals)

  module _ {W : Type 0} (env : Environment F W) (g : AdmissionGate) where
    -- The models of the ranking that the preflight keeps, and those that it rejects.
    unfoldable pub preflight : TaskSpec F → List (ModelCapabilities F) → List (ModelCapabilities F)
    preflight task ranked = filter (supports_execution_options env g task) ranked

    unfoldable pub preflight_rejects :
        TaskSpec F → List (ModelCapabilities F) → List (ModelCapabilities F)
    preflight_rejects task ranked =
        filter (λ m. not (supports_execution_options env g task m)) ranked

    -- The candidates of a request: the models that are not skipped, `room` of them at most.
    unfoldable pub candidates :
        TaskSpec F
        → ℕ
        → List (ModelCapabilities F)
        → List (DecisionCandidate F)
        → List (DecisionCandidate F)
    candidates task max_admissions [] chosen = chosen
    candidates task max_admissions (m ∷ ms) chosen =
        let skipped = candidates task max_admissions ms chosen in
        let taken =
          candidates task max_admissions ms
            (chosen ++ record { model = m; tools = gate_tools env g m } ∷ []) in
        if contains task.skip_models m.name
        then skipped
        else if leb max_admissions (length chosen) || leb max_decision_candidates (length chosen)
        then chosen
        else taken

  -- The event on one model of `all`, where `passed` and `rejected` name the models of the ranking.
  unfoldable pub filter_event :
      TaskSpec F → List String → List String → ModelCapabilities F → Effect F
  unfolding contains filter_reason
  filter_event task passed rejected m =
      if contains passed m.name
      then emit (event filter_pass m.name)
      else let reason =
          if contains rejected m.name then reason_execution_option else filter_reason m task in
        emit (record (event filter_fail m.name) {
          reasons = (if reason == "" then reason_policy_excluded else reason) ∷ [];
        })

  unfoldable pub shortlist_event : List String → List (Effect F)
  shortlist_event [] = []
  shortlist_event (name ∷ names) = emit (record (event shortlist "") { detail = name ∷ names }) ∷ []

  abbrev pub names : List (ModelCapabilities F) → List String
  names ms = map (λ m. m.name) ms

  -- The events of the first half.
  unfoldable pub filter_events :
      TaskSpec F
      → List (ModelCapabilities F)
      → List (ModelCapabilities F)
      → List (ModelCapabilities F)
      → List (Effect F)
  unfolding filter_event shortlist_event
  filter_events task all executable rejected =
      map (filter_event task (names executable) (names rejected)) all
      ++ shortlist_event (names executable)
