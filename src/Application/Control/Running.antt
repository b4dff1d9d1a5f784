-- ===== src/Application/Control/Running.antt =====
-- internal/application/controlplane_service.go: the case "run" of Execute.
use veto.Shared.{
  String, Bool, true, false, Option, none, some, List, [], length, nat_eq, if◌then◌else◌,
}
use veto.Shared.Int.{ℤ}
use veto.Shared.Float.{Float64}
use veto.Shared.Text.{◌==◌, Unicode, trim_space}
use veto.Router.Types.{TaskSpec}
use veto.Application.Execution.{RunError}
use veto.Application.Runner.{Request, Outcome, rejected, selected, ran, Executed, execute}
use veto.Application.Arguments.{
  ActionRequest, parsed, unparsed, argument, task_from_request, execution_options,
}
use veto.Application.Monitor.{
  ControlKind, ControlState, Message, plain, criteria_count, output_saved, run_completed,
  review_started, review_error, review_completed, publish, set_snapshot, control_event,
  observe_calls,
}
use veto.Application.Control.{
  ControlService, bad_argument, nil_router, no_output_writer, write_failed, review_failed, not_met,
  run_error, ActionResult, no_action, Done, fails_with,
}

module _ {F : Type 0} where
  -- The error of a run, and the provider, the model and the output of its response.
  unfoldable pub error_of : Outcome F → Option RunError
  error_of (rejected e) = some e
  error_of (selected model decision e) = some e
  error_of (ran r err) = err

  unfoldable pub provider_of : Outcome F → String
  provider_of (rejected e) = ""
  provider_of (selected model decision e) = model.provider
  provider_of (ran r err) = r.model.provider

  unfoldable pub model_of : Outcome F → String
  model_of (rejected e) = ""
  model_of (selected model decision e) = model.name
  model_of (ran r err) = r.model.name

  unfoldable pub output_of : Outcome F → String
  output_of (rejected e) = ""
  output_of (selected model decision e) = ""
  output_of (ran r err) = r.output

module _ {F W : Type 0} ⦃fl : Float64 F⦄ (service : ControlService F W) where
  abbrev pub run_event : ControlKind → Message F → ControlState F → ControlState F
  run_event kind message s = publish (control_event "run" kind message) s

  -- The result of a run with its model and output.
  abbrev pub run_result : String → String → ActionResult
  run_result model output = record (no_action "run") { model = model; output = output }

  unfoldable pub completed_run : String → String → W → ControlState F → Done F W
  unfolding publish
  completed_run model output w s = record {
    world = w;
    state = run_event run_completed (plain "task completed") s;
    result = record (run_result model output) { summary = "task completed" };
    err = none;
  }

  -- What the reviewer's answer makes of the run: `none` is an error.
  unfoldable pub review_answered : Option Bool → String → String → W → ControlState F → Done F W
  unfolding completed_run publish set_snapshot
  review_answered none model output w s = record {
    world = w;
    state = run_event review_error (plain "") (set_snapshot "run" "error" "" "" s);
    result = run_result model output;
    err = some review_failed;
  }
  review_answered (some false) model output w s = record {
    world = w;
    state =
        run_event review_completed (plain "acceptance criteria not met")
          (set_snapshot "run" "error" "" "" s);
    result = run_result model output;
    err = some not_met;
  }
  review_answered (some true) model output w s =
      completed_run model output w
        (run_event review_completed (plain "acceptance criteria passed") s)

  -- The review, where there are a reviewer and criteria
  unfoldable pub review_run : TaskSpec F → String → String → W → ControlState F → Done F W
  unfolding review_answered completed_run publish
  review_run task model output w s = elim service.callbacks.reviewer [
    | none ↦ completed_run model output w s
    | some reviewer ↦
        let count = length task.success_criteria in
        let (w', passed) = reviewer task output model w in
        let answered =
          review_answered passed model output w'
            (run_event review_started (criteria_count count) s) in
        if nat_eq count 0 then completed_run model output w s else answered
  ]

  -- The output file, and what follows
  unfoldable pub write_run :
      ActionRequest → TaskSpec F → String → String → W → ControlState F → Done F W
  unfolding review_run argument publish set_snapshot
  write_run request task model output w s =
      let path = trim_space (argument request "output") in
      let without = review_run task model output w s in
      if path == "" then without else elim service.callbacks.output_writer [
        | none ↦ record {
          world = w;
          state = s;
          result = run_result model output;
          err = some no_output_writer;
        }
        | some write ↦
            let (w', done) = write path output (argument request "force" == "true") w in
            let saved = review_run task model output w' (run_event output_saved (plain path) s) in
            if done then saved else record {
              world = w';
              state = set_snapshot "run" "error" "" "" s;
              result = run_result model output;
              err = some write_failed;
            }
      ]

  -- What follows the execution
  unfoldable pub run_executed :
      ActionRequest → TaskSpec F → Executed F W → ControlState F → Done F W
  unfolding write_run observe_calls set_snapshot error_of provider_of model_of output_of
  run_executed request task x s =
      let o = x.outcome in
      let observed = observe_calls x.calls s in
      let settled : String → ControlState F =
        λ status. set_snapshot "run" status (provider_of o) (model_of o) observed in
      elim (error_of o) [
        | some e ↦ record {
          world = x.world;
          state = settled "error";
          result = run_result (model_of o) (output_of o);
          err = some (run_error e);
        }
        | none ↦ write_run request task (model_of o) (output_of o) x.world (settled "ready")
      ]

  -- The request of the runner
  abbrev pub request_for : ActionRequest → TaskSpec F → List String → ℤ → Request F
  request_for request task skills timeout = record {
    task = task;
    skills = skills;
    admission_timeout = timeout;
    max_output_tokens = execution_options service.parsers request;
    has_writer = true;
  }

  unfoldable pub resolve_skills : TaskSpec F → W → W × List String
  resolve_skills task w = elim service.callbacks.skill_resolver [
    | none ↦ (w, [])
    | some resolve ↦ resolve task w
  ]

  -- The case "run"
  unfoldable pub execute_run : ⦃u : Unicode⦄ → ActionRequest → ℤ → W → ControlState F → Done F W
  unfolding task_from_request run_executed execute argument resolve_skills execution_options
  execute_run request timeout w s = elim service.router [
    | none ↦ record { world = w; state = s; result = no_action ""; err = some nil_router }
    | some port ↦
        elim (task_from_request service.parsers request
          (trim_space (argument request "objective"))) [
            | unparsed e ↦ fails_with service "run" (bad_argument e) w s
            | parsed task ↦
                let (w', skills) = resolve_skills task w in
                run_executed request task
                  (execute service.runner (request_for request task skills timeout) w') s
          ]
  ]
