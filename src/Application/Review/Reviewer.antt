-- ===== src/Application/Review/Reviewer.antt =====
-- A review that was accepted comes from a model other than the executor's.
use mathlib.Core.Path.{subst}
use veto.Shared.{
  ◌≡◌, refl, sym, ◌∙◌, ◌≢◌, inl, inr, String, false, Option, none, some, List, [], ◌∷◌, arith,
  length, nat_eq, Option-cases,
}
use veto.Shared.Int.{pos}
use veto.Shared.Float.{Float64}
use veto.Shared.Text.{◌==◌, eq_iff, Unicode, contains}
use veto.Router.Types.{TaskSpec, ModelCapabilities, AdmissionDecision, ExecutionMetrics}
use veto.Router.Executors.{Environment}
use veto.Router.Shortlist.{with_complexity}
use veto.Router.Routing.{Manager, RouteResult, routed, not_routed, route}
use veto.Router.Routing.Trusted.{IsTrusted, route-IsTrusted}
use veto.Application.Execution.{Runtime, Performed, perform}
use veto.Application.Runner.{
  RouterPort, Runner, Request, Response, Outcome, rejected, selected, ran, run_performed, run_on,
  run_routed, execute_with, execute, finish, prompt_for, manager_port, route_request,
}
use veto.Application.Review.{
  ReviewResult, ReviewRequest, reviewed, parse_review_json, validate_review_result, judge_output,
  judge_outcome, review, review_task, execution_request,
}
use veto.Application.Review.Consistent.{IsConsistent, validate_review_result_iff}

module _ {F : Type 0} ⦃fl : Float64 F⦄ where
  -- The model of an outcome, where there is one.
  abbrev pub Uses : (ModelCapabilities F → Type 0) → Outcome F → Type 0
  Uses P (rejected e) = Unit
  Uses P (selected model decision e) = P model
  Uses P (ran r err) = P r.model

  -- What holds of the model that is routed to.
  abbrev Picks : (ModelCapabilities F → Type 0) → RouteResult F → Type 0
  Picks P (routed model decision) = P model
  Picks P (not_routed e) = Unit

  judge_output-IsConsistent :
      (decode : String → Option (ReviewResult F)) (criteria : List String) (output : String)
      (result : ReviewResult F)
      → judge_output decode criteria output ≡ reviewed result
      → IsConsistent criteria result
  unfolding judge_output
  judge_output-IsConsistent decode criteria output result h =
      elim (Option-cases (parse_review_json decode output)) [
        | inl missing ↦ absurd (ground arith)
        | inr (parsed, found) ↦ elim (Option-cases (validate_review_result criteria parsed)) [
          | inr (fault, bad) ↦ absurd (ground arith)
          | inl valid ↦
              let same : parsed ≡ result = ground arith in
              rw⁻¹ same ((validate_review_result_iff criteria parsed).0 valid)
        ]
      ]

  judge_outcome-inv :
      (decode : String → Option (ReviewResult F)) (criteria : List String) (o : Outcome F)
      (result : ReviewResult F)
      → judge_outcome decode criteria o ≡ reviewed result
      → (r : Response F) × ((o ≡ ran r none)
          × (judge_output decode criteria r.output ≡ reviewed result))
  unfolding judge_outcome
  judge_outcome-inv decode criteria (rejected e) result h = absurd (ground arith)
  judge_outcome-inv decode criteria (selected model decision e) result h = absurd (ground arith)
  judge_outcome-inv decode criteria (ran r (some e)) result h = absurd (ground arith)
  judge_outcome-inv decode criteria (ran r none) result h = (r, (refl, h))

  uses-ran :
      (P : ModelCapabilities F → Type 0) (o : Outcome F) (r : Response F)
      → o ≡ ran r none
      → Uses P o
      → P r.model
  uses-ran P o r same u = subst (Uses P) same u

  module _ {W : Type 0} ⦃u : Unicode⦄ (runner : Runner F W)
      (decode : String → Option (ReviewResult F)) (hash : String → String)
      (request : ReviewRequest F) (w : W) where
    review-judged :
        nat_eq (length request.original.success_criteria) 0 ≡ false
        → (review runner decode hash request w).answer
          ≡ judge_outcome decode request.original.success_criteria
              (execute runner (execution_request (review_task hash request)) w).outcome
    unfolding review
    review-judged criteria = rw criteria refl

  module _ {W : Type 0} ⦃u : Unicode⦄ (P : ModelCapabilities F → Type 0) where
    run_performed-Uses :
        (runner : Runner F W) (port : RouterPort F W) (request : Request F) (task : TaskSpec F)
        (model : ModelCapabilities F) (decision : AdmissionDecision F) (w : W)
        (done : Option (W × Performed F))
        → P model
        → Uses P (run_performed runner port request task model decision w done).outcome
    unfolding run_performed finish
    run_performed-Uses runner port request task model decision w none p = p
    run_performed-Uses runner port request task model decision w (some (w', done)) p = p

    run_on-Uses :
        (runner : Runner F W) (port : RouterPort F W) (request : Request F) (task : TaskSpec F)
        (model : ModelCapabilities F) (decision : AdmissionDecision F) (w : W)
        (runtime : Option (Runtime F W))
        → P model
        → Uses P (run_on runner port request task model decision w runtime).outcome
    unfolding run_on
    run_on-Uses runner port request task model decision w none p = p
    run_on-Uses runner port request task model decision w (some runtime) p =
        run_performed-Uses runner port request task model decision w
          (perform request.has_writer runtime (prompt_for runtime task request.skills)
            request.max_output_tokens w)
          p

    run_routed-Uses :
        (runner : Runner F W) (port : RouterPort F W) (runtime_for : String → Option (Runtime F W))
        (request : Request F) (task : TaskSpec F) (w : W) (result : RouteResult F)
        → Picks P result
        → Uses P (run_routed runner port runtime_for request task (w, result)).outcome
    unfolding run_routed
    run_routed-Uses runner port runtime_for request task w (not_routed e) p = tt
    run_routed-Uses runner port runtime_for request task w (routed model decision) p =
        run_on-Uses runner port request task model decision w (runtime_for model.name) p

  module _ {W : Type 0} ⦃u : Unicode⦄ (env : Environment F W) (m : Manager F W) where
    -- Not the model that the task skips.
    trusted-Picks :
        (name : String) (task : TaskSpec F) (result : RouteResult F)
        → task.skip_models ≡ name ∷ []
        → IsTrusted env m task result
        → Picks (λ model. model.name ≢ name) result
    unfolding contains
    trusted-Picks name task (not_routed e) skip trusted = tt
    trusted-Picks name task (routed model decision) skip (usable, accepted) = λ same.
        let untried : contains (name ∷ []) model.name ≡ false =
          subst (λ xs. contains xs model.name ≡ false) skip usable.untried in
        ground (arith, eq_iff name model.name)

    module _ (runner : Runner F W)
        (record_metrics : TaskSpec F → String → ExecutionMetrics F → W → W)
        (record_for : TaskSpec F → String → AdmissionDecision F → ExecutionMetrics F → W → W) where
      -- The runner, on the manager.
      abbrev pub managed : Runner F W
      managed = record runner { router = some (manager_port env m record_metrics record_for) }

      reviewer-Uses :
          (runtime_for : Option (String → Option (Runtime F W))) (hash : String → String)
          (request : ReviewRequest F) (w : W)
          → request.executor_model == "" ≡ false
          → Uses
              (λ model. model.name ≢ request.executor_model)
              (execute_with managed
                (some (manager_port env m record_metrics record_for))
                runtime_for
                (execution_request (review_task hash request))
                w).outcome
      unfolding execute_with route_request review_task with_complexity
      reviewer-Uses none hash request w named = tt
      reviewer-Uses (some runtime_for) hash request w named =
          let task = review_task hash request in
          let r = route env m task (pos 0) w in
          run_routed-Uses (λ model. model.name ≢ request.executor_model) managed
            (manager_port env m record_metrics record_for) runtime_for (execution_request task) task
            r.world r.result
            (trusted-Picks request.executor_model (with_complexity task) r.result (rw named refl)
              (route-IsTrusted env m task (pos 0) w))

      -- Where the task has success criteria and the executor's model is named, a review that the manager
      -- routes and that returns a result rests on an execution without an error, of a model with
      -- another name than the executor's, and the result is consistent with the criteria.
      pub review-IsIndependent :
          (decode : String → Option (ReviewResult F)) (hash : String → String)
          (request : ReviewRequest F) (w : W) (result : ReviewResult F)
          → nat_eq (length request.original.success_criteria) 0 ≡ false
          → request.executor_model == "" ≡ false
          → (review managed decode hash request w).answer ≡ reviewed result
          → (r : Response F) × (((execute managed
                  (execution_request (review_task hash request))
                  w).outcome
                ≡ ran r none)
              × ((r.model.name ≢ request.executor_model)
                  × IsConsistent request.original.success_criteria result))
      unfolding execute
      review-IsIndependent decode hash request w result criteria named h =
          let x = execute managed (execution_request (review_task hash request)) w in
          let judged = sym (review-judged managed decode hash request w criteria) ∙ h in
          let (r, (same, output)) =
            judge_outcome-inv decode request.original.success_criteria x.outcome result judged in
          let differs =
            uses-ran (λ model. model.name ≢ request.executor_model) x.outcome r same
              (reviewer-Uses runner.runtime_for hash request w named) in
          let consistent =
            judge_output-IsConsistent decode request.original.success_criteria r.output result
              output in
          (r, (same, (differs, consistent)))
