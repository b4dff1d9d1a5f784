-- ===== src/Tests/Application.antt =====
-- A run and a review on the small manager.
use veto.Shared.{
  ℕ, ◌≡◌, ◌≢◌, ◌↔◌, refl, String, Bool, true, false, Option, none, some, List, [], ◌∷◌, length,
  nat_eq,
}
use veto.Shared.Int.{ℤ, pos}
use veto.Router.Routing.{new_manager}
use veto.Application.Prompt.{decimal}
use veto.Application.Execution.{Runtime, no_result}
use veto.Application.Runner.{Runner, Response, Request, ran, execute, manager_port}
use veto.Application.Runner.Accounted.{execute-IsAccounted}
use veto.Application.Runner.Recorded.{task_of, IsAccounted}
use veto.Application.Review.{
  ReviewResult, ReviewRequest, reviewed, review, validate_review_result, review_task,
  execution_request,
}
use veto.Application.Review.Consistent.{IsConsistent, validate_review_result_iff}
use veto.Application.Review.Reviewer.{managed, review-IsIndependent}
use veto.Tests.Numbers.{Milli, number, milli_float64}
use veto.Tests.Data.{caseless, fix_bug, idle_clock}
use veto.Tests.Shadowing.{small_manager}

decimal-42 : decimal 1042 ≡ "1042"
unfolding decimal
decimal-42 = refl

abbrev says : String → Runtime Milli ℕ
says output = record {
  effective_tools_known = none;
  effective_tools = none;
  execute_with_events = none;
  stream = none;
  execute = some (λ prompt budget w. (w, record no_result { output = output }));
}

abbrev pub small_runner : Runner Milli ℕ
small_runner = record {
  router = some (
      manager_port idle_clock small_manager (λ task name metrics w. w)
        (λ task name decision metrics w. w));
  runtime_for = some (λ name. some (says "{}"));
  now = λ w. w;
  context_error = λ w. none;
}

abbrev pub bug_request : Request Milli
bug_request = record {
  task = fix_bug;
  skills = [];
  admission_timeout = pos 0;
  max_output_tokens = pos 0;
  has_writer = true;
}

execute-IsAccounted_example :
    IsAccounted small_runner.runtime_for bug_request
      (task_of bug_request)
      (execute small_runner bug_request 7).calls
      (execute small_runner bug_request 7).outcome
execute-IsAccounted_example = execute-IsAccounted small_runner bug_request 7

abbrev one_met : ReviewResult Milli
one_met = record {
  passed = true;
  score = number (pos 1000);
  criteria = record { criterion = "works"; met = true; note = "" } ∷ [];
}

validate_review_result_iff_example :
    (validate_review_result ("works" ∷ []) one_met ≡ none) ↔ IsConsistent ("works" ∷ []) one_met
validate_review_result_iff_example = validate_review_result_iff ("works" ∷ []) one_met

abbrev of_other : ReviewRequest Milli
of_other = record {
  original = record fix_bug { success_criteria = "works" ∷ [] };
  output = "done";
  executor_model = "other";
  evidence = none;
  task_id = "t1";
}

abbrev plain_hash : String → String
plain_hash s = s

one_met-reviewed :
    (review
      (managed idle_clock small_manager small_runner
        (λ task name metrics w. w)
        (λ task name decision metrics w. w))
      (λ output. some one_met)
      plain_hash
      of_other
      7).answer
    ≡ reviewed one_met
unfolding review veto.Router.Complexity.infer_complexity veto.Router.Complexity.complexity_score
    veto.Router.Complexity.add_weights veto.Router.Complexity.kind_weight
    veto.Router.Complexity.complexity_of_score veto.Router.Routing.route new_manager
    veto.Shared.Sort.sort veto.Router.Filter.hard_filter veto.Router.Shortlist.matches_filters
    veto.Router.Preferences.is_eligible veto.Router.Preferences.matches_model
    veto.Router.Filter.passes_hard_filter veto.Router.Filter.has_required_tools
    veto.Router.Filter.context_known veto.Router.Filter.cost_known veto.Router.Filter.estimated_cost
    veto.Shared.Int.◌+ℤ◌ veto.Router.Complexity.tier_meets_complexity
    veto.Router.Filter.is_weak_kind veto.Shared.Float.fcompare veto.Router.Scorer.score
    veto.Router.Scorer.kind_match veto.Router.Scorer.cost_fit veto.Shared.Int.◌-ℤ◌
    veto.Shared.Sort.insert veto.Router.Sequential.decide veto.Router.Preferences.bucket
    veto.Router.Admission.supports_execution_options veto.Router.Admission.ask_with_timeout_measured
    veto.Router.Decision.validate_probability veto.Router.Decision.validate_telemetry
    veto.Router.Measurement.clean_cost veto.Router.Measurement.clean_cached_input
    veto.Router.Measurement.clean_usage veto.Router.Decision.validate_reasons
    veto.Router.Decision.validate_selection
one_met-reviewed = refl

review-IsIndependent_example :
    (r : Response Milli) × (((execute
          (managed idle_clock small_manager small_runner
            (λ task name metrics w. w)
            (λ task name decision metrics w. w))
          (execution_request (review_task plain_hash of_other))
          7).outcome
        ≡ ran r none)
      × ((r.model.name ≢ "other") × IsConsistent ("works" ∷ []) one_met))
review-IsIndependent_example =
    review-IsIndependent idle_clock small_manager small_runner (λ task name metrics w. w)
      (λ task name decision metrics w. w) (λ output. some one_met) plain_hash of_other 7 one_met
      refl refl one_met-reviewed
