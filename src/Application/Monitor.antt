-- ===== src/Application/Monitor.antt =====
-- internal/application/controlplane_service.go and internal/controlplane/contract.go: the state of the
-- control service, with its snapshot, its counters and its subscribers. Of the snapshot the fields
-- that the service itself reads or writes are kept.
pub mod Routes
pub mod Balance
use veto.Shared.{
  ℕ, suc, ◌-◌, ◌+◌, String, Bool, true, false, not, ◌&&◌, ◌||◌, Option, none, some, List, [], ◌∷◌,
  ◌++◌, length, ltb, map, if◌then◌else◌,
}
use veto.Shared.Int.{ℤ, pos, is_positive, pos_part}
use veto.Shared.Float.{Float64, fzero, gt}
use veto.Shared.Text.{◌==◌}
use veto.Router.Types.{ModelCapabilities, ExecutionMetrics}
use veto.Router.Events as Events
use veto.Router.Events.{EventKind, ProgressEvent, DecisionProgress, ask_accept, is_decision_event}
use veto.Application.Execution.{
  RuntimeEvent, RuntimeEventKind, tool_started, tool_completed, tool_error, approval_requested,
  approval_granted, approval_denied, artifact_created,
}
use veto.Application.Runner.{
  ExecutionEvent, started, completed, failed, Call, emitted, runtime_emitted, wrote, recorded,
}

-- MonitorSnapshot. The counters start at zero and are never decreased below it.
pub record MonitorSnapshot (F : Type 0) : Type 0 where
  pub active_sessions : ℕ
  pub active_tools : ℕ
  pub pending_approvals : ℕ
  pub artifacts : ℕ
  pub last_model : String
  pub last_provider : String
  pub last_runtime : String
  pub last_confidence : F
  pub last_confidence_known : Bool
  pub last_reasons : List String
  pub input_tokens : ℤ
  pub cached_input_tokens : ℤ
  pub cached_input_known : Bool
  pub output_tokens : ℤ
  pub total_tokens : ℤ
  pub tokens_known : Bool
  pub cost_usd : F
  pub cost_known : Bool
  pub latency_ms : ℤ
  pub latency_known : Bool

-- ModelSnapshot
pub record ModelSnapshot : Type 0 where
  pub name : String
  pub provider : String
  pub runtime : String

pub record Snapshot (F : Type 0) : Type 0 where
  pub active_action : String
  pub status : String
  pub provider : String
  pub model : String
  pub monitor : MonitorSnapshot F
  pub models : List ModelSnapshot

-- The text of an event, as the values that its format puts in.
pub data Message (F : Type 0) : Type 0 where
  plain : String → Message F
  accepted : String → Option F → Message F
  criteria_count : ℕ → Message F
  of_execution : ExecutionEvent F → Message F
  of_runtime : RuntimeEvent → Message F
  of_route : String → List String → List String → Message F

-- The kinds of events, by their prefixes.
pub data ControlKind : Type 0 where
  execution_event : ControlKind
  runtime_event : ControlKind
  route_event : EventKind → ControlKind
  decision_event : EventKind → ControlKind
  output output_saved route_completed run_completed history_error : ControlKind
  review_started review_error review_completed : ControlKind
  action_completed : String → ControlKind

-- Event of the control plane
pub record ControlEvent (F : Type 0) : Type 0 where
  pub decision : Option (DecisionProgress F)
  pub action_id : String
  pub kind : ControlKind
  pub message : Message F
  pub model : String
  pub confidence : F
  pub confidence_known : Bool
  pub reasons : List String

-- ControlService: the actions that are active, the snapshot, and the channels of the subscribers with
-- what waits in them.
pub record ControlState (F : Type 0) : Type 0 where
  pub active : List String
  pub snapshot : Snapshot F
  pub subs : List (List (ControlEvent F))

abbrev pub channel_capacity : ℕ
channel_capacity = 64

module _ {F : Type 0} where
  -- The send to one channel, which drops the event where the channel is full.
  unfoldable pub send : ControlEvent F → List (ControlEvent F) → List (ControlEvent F)
  send event waiting =
      if ltb (length waiting) channel_capacity then waiting ++ event ∷ [] else waiting

  -- publish
  unfoldable pub publish : ControlEvent F → ControlState F → ControlState F
  unfolding send
  publish event s = record s { subs = map (send event) s.subs }

  -- Subscribe
  unfoldable pub subscribe : ControlState F → ControlState F
  subscribe s = record s { subs = s.subs ++ [] ∷ [] }

  -- setSnapshot
  unfoldable pub set_snapshot : String → String → String → String → ControlState F → ControlState F
  set_snapshot action status provider model s = record s {
    snapshot = record s.snapshot {
      active_action = action;
      status = status;
      provider = if provider == "" then s.snapshot.provider else provider;
      model = if model == "" then s.snapshot.model else model;
    };
  }

  -- recordRuntimeMonitor, on the counters
  unfoldable pub count_kind : RuntimeEventKind → ℤ → MonitorSnapshot F → MonitorSnapshot F
  count_kind tool_started count m = record m { active_tools = suc m.active_tools }
  count_kind tool_completed count m = record m { active_tools = m.active_tools - 1 }
  count_kind tool_error count m = record m { active_tools = m.active_tools - 1 }
  count_kind approval_requested count m = record m { pending_approvals = suc m.pending_approvals }
  count_kind approval_granted count m = record m { pending_approvals = m.pending_approvals - 1 }
  count_kind approval_denied count m = record m { pending_approvals = m.pending_approvals - 1 }
  count_kind artifact_created count m = record m {
    artifacts = m.artifacts + (if is_positive count then pos_part count else 1);
  }

  unfoldable pub count_runtime : RuntimeEvent → MonitorSnapshot F → MonitorSnapshot F
  unfolding count_kind
  count_runtime event m = count_kind event.kind event.count m

module _ {F : Type 0} ⦃fl : Float64 F⦄ where
  -- The end of an execution in recordExecutionMonitor
  unfoldable pub count_end :
      ModelCapabilities F → ExecutionMetrics F → MonitorSnapshot F → MonitorSnapshot F
  count_end model metrics m =
      let named = not (model.name == "") in
      let usage = metrics.usage_known in
      record m {
        active_sessions = m.active_sessions - 1;
        last_model = if named then model.name else m.last_model;
        last_provider = if named then model.provider else m.last_provider;
        last_runtime = if named then model.runtime else m.last_runtime;
        input_tokens = if usage then metrics.input_tokens else pos 0;
        cached_input_tokens = if usage then metrics.cached_input_tokens else pos 0;
        cached_input_known = if usage then metrics.cached_input_known else false;
        output_tokens = if usage then metrics.output_tokens else pos 0;
        total_tokens = if usage then metrics.total_tokens else pos 0;
        tokens_known = usage;
        cost_usd = if metrics.cost_known then metrics.cost_usd else fzero;
        cost_known = metrics.cost_known;
        latency_ms = if metrics.latency_known then metrics.latency_ms else pos 0;
        latency_known = metrics.latency_known;
      }

  -- recordExecutionMonitor, on the counters
  unfoldable pub count_execution : ExecutionEvent F → MonitorSnapshot F → MonitorSnapshot F
  unfolding count_end
  count_execution event m = elim event.kind [
    | started ↦ record m { active_sessions = suc m.active_sessions }
    | completed ↦ count_end event.model event.metrics m
    | failed ↦ count_end event.model event.metrics m
  ]

  abbrev pub with_monitor :
      (MonitorSnapshot F → MonitorSnapshot F) → ControlState F → ControlState F
  with_monitor change s = record s {
    snapshot = record s.snapshot { monitor = change s.snapshot.monitor };
  }

  abbrev pub control_event : String → ControlKind → Message F → ControlEvent F
  control_event action kind message = record {
    decision = none;
    action_id = action;
    kind = kind;
    message = message;
    model = "";
    confidence = fzero;
    confidence_known = false;
    reasons = [];
  }

  -- The hooks of wrapHooks, and outputWriter of a run. The record of the metrics is the router's.
  unfoldable pub observe_call : Call F → ControlState F → ControlState F
  unfolding publish count_execution count_runtime
  observe_call (emitted event) s =
      publish
        (record (control_event "run" execution_event (of_execution event)) {
          model = event.model.name;
        })
        (with_monitor (count_execution event) s)
  observe_call (runtime_emitted task_id model event) s =
      publish (control_event "run" runtime_event (of_runtime event))
        (with_monitor (count_runtime event) s)
  observe_call (wrote t) s = if t == "" then s else publish (control_event "run" output (plain t)) s
  observe_call (recorded task name decision metrics) s = s

  unfoldable pub observe_calls : List (Call F) → ControlState F → ControlState F
  unfolding observe_call
  observe_calls [] s = s
  observe_calls (call ∷ calls) s = observe_calls calls (observe_call call s)
