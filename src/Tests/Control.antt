-- ===== src/Tests/Control.antt =====
-- Actions of the control plane on the small manager.
use veto.Shared.{ℕ, ◌≡◌, refl, true, false, none, some, [], ◌∷◌}
use veto.Shared.Int.{pos}
use veto.Application.Runner.{execute}
use veto.Application.Arguments.{ActionRequest, Parsers, split_request_list}
use veto.Application.Monitor.{ControlState, MonitorSnapshot, observe_calls}
use veto.Application.Monitor.Balance.{Counts, execute-Counts}
use veto.Application.Control.{ControlService}
use veto.Application.Control.Executing.{execute_action}
use veto.Application.Control.Settled.{IsReleased}
use veto.Application.Control.Released.{execute_action-IsReleased}
use veto.Tests.Numbers.{Milli, number, milli_float64}
use veto.Tests.Data.{caseless}
use veto.Tests.Application.{small_runner, bug_request}

abbrev zeros : MonitorSnapshot Milli
zeros = record {
  active_sessions = 0;
  active_tools = 0;
  pending_approvals = 0;
  artifacts = 0;
  last_model = "";
  last_provider = "";
  last_runtime = "";
  last_confidence = number (pos 0);
  last_confidence_known = false;
  last_reasons = [];
  input_tokens = pos 0;
  cached_input_tokens = pos 0;
  cached_input_known = false;
  output_tokens = pos 0;
  total_tokens = pos 0;
  tokens_known = false;
  cost_usd = number (pos 0);
  cost_known = false;
  latency_ms = pos 0;
  latency_known = false;
}

-- One subscriber, and a route that is active.
abbrev busy_state : ControlState Milli
busy_state = record {
  active = "route" ∷ [];
  snapshot = record {
    active_action = "route";
    status = "running";
    provider = "";
    model = "";
    monitor = zeros;
    models = [];
  };
  subs = [] ∷ [];
}

abbrev no_parsers : Parsers Milli
no_parsers = record { parse_duration = λ s. none; parse_float = λ s. none; atoi = λ s. none }

abbrev small_service : ControlService Milli ℕ
small_service = record {
  runner = small_runner;
  router = small_runner.router;
  callbacks = record {
    routing_refresh = none;
    skill_resolver = none;
    output_writer = none;
    reviewer = none;
    history_saver = some (λ w. (w, true));
    handlers = λ name. none;
  };
  parsers = no_parsers;
}

abbrev fix_it : ActionRequest
fix_it = record {
  version = pos 1;
  action_id = "run";
  arguments = ("objective", "fix the bug") ∷ ("criteria", "works; , builds") ∷ [];
}

two_criteria : split_request_list "works; , builds" ≡ "works" ∷ "builds" ∷ []
unfolding split_request_list
two_criteria = refl

execute-Counts_example :
    Counts
      (execute small_runner bug_request 7).outcome
      busy_state
      (observe_calls (execute small_runner bug_request 7).calls busy_state)
execute-Counts_example = execute-Counts small_runner bug_request 7 busy_state

execute_action-IsReleased_example :
    IsReleased busy_state (execute_action small_service fix_it 7 busy_state)
execute_action-IsReleased_example = execute_action-IsReleased small_service fix_it 7 busy_state
