-- ===== src/Router/Store.antt =====
-- pkg/router/store.go: the store in memory. Its mutex makes each operation one step.
pub mod History
use veto.Shared.{
  String, Bool, true, false, not, ◌&&◌, ◌||◌, Option, none, some, List, [], ◌∷◌, ◌++◌,
  if◌then◌else◌,
}
use veto.Shared.Int.{ℤ, pos}
use veto.Shared.Float.{Float64, fzero, gt}
use veto.Shared.Text.{◌==◌}
use veto.Router.Types.{TaskKind, AdmissionDecision, RoutingSignal, ExecutionMetrics}
use veto.Router.Registry.{neutral_signal}
use veto.Router.Stats.{
  EventClass, decision, result, RoutingEvent, StatsKey, ModelStats, StatsMap, same_key, find, put,
  event_key, no_stats, update, or_no_stats, accumulate, accumulate_all,
}

pub record MemoryStore (F : Type 0) : Type 0 where
  pub events : List (RoutingEvent F)
  pub stats : StatsMap F

module _ {F : Type 0} ⦃fl : Float64 F⦄ where
  -- MemoryStore.rebuildStats
  unfoldable pub rebuild_stats : MemoryStore F → MemoryStore F
  unfolding accumulate_all
  rebuild_stats s = record s { stats = accumulate_all s.events [] }

  unfoldable pub new_memory_store : MemoryStore F
  new_memory_store = record { events = []; stats = [] }

  -- The end of the operations that record an event.
  unfoldable pub record_event : RoutingEvent F → MemoryStore F → MemoryStore F
  unfolding accumulate
  record_event e s = record { events = s.events ++ e ∷ []; stats = accumulate e s.stats }

  -- MemoryStore.LogDecisionForKind
  unfoldable pub log_decision_for_kind :
      String → String → TaskKind → AdmissionDecision F → MemoryStore F → MemoryStore F
  unfolding record_event
  log_decision_for_kind task_id model kind d = record_event (record {
    class = decision;
    task_id = task_id;
    model_name = model;
    task_kind = kind;
    accepted = d.accept;
    score = fzero;
    score_known = false;
    status = "";
    input_tokens = pos 0;
    output_tokens = pos 0;
    total_tokens = pos 0;
    usage_known = false;
    cost_usd = fzero;
    cost_known = false;
    latency_ms = pos 0;
    latency_known = false;
  })

  -- MemoryStore.LogDecision
  unfoldable pub log_decision :
      String → String → AdmissionDecision F → MemoryStore F → MemoryStore F
  unfolding log_decision_for_kind
  log_decision task_id model = log_decision_for_kind task_id model ""

  -- MemoryStore.RecordExecution
  unfoldable pub record_execution :
      String → String → TaskKind → ExecutionMetrics F → MemoryStore F → MemoryStore F
  unfolding record_event
  record_execution task_id model kind metrics = record_event (record {
    class = result;
    task_id = task_id;
    model_name = model;
    task_kind = kind;
    accepted = false;
    score = metrics.score;
    score_known = metrics.score_known;
    status = metrics.status;
    input_tokens = metrics.input_tokens;
    output_tokens = metrics.output_tokens;
    total_tokens = metrics.total_tokens;
    usage_known = metrics.usage_known;
    cost_usd = metrics.cost_usd;
    cost_known = metrics.cost_known;
    latency_ms = metrics.latency_ms;
    latency_known = metrics.latency_known;
  })

  -- MemoryStore.LogResult
  unfoldable pub log_result : String → String → F → String → MemoryStore F → MemoryStore F
  unfolding record_execution
  log_result task_id model score status = record_execution task_id model "" (record {
    status = status;
    score = score;
    score_known = status == "success";
    input_tokens = pos 0;
    cached_input_tokens = pos 0;
    cached_input_known = false;
    output_tokens = pos 0;
    total_tokens = pos 0;
    usage_known = false;
    cost_usd = fzero;
    cost_known = false;
    latency_ms = pos 0;
    latency_known = false;
  })

  -- total / count where the count is positive
  abbrev ratio : F → F → F → F
  ratio total count unknown = if gt count fzero then fl.div total count else unknown

  -- The signal of an entry that has events.
  unfoldable pub signal_of_stats : ModelStats F → RoutingSignal F
  signal_of_stats st = record {
    historical_success_rate = ratio st.completed st.known_results (fl.lit 5 1);
    historical_reject_rate = ratio (fl.sub st.decision_total st.accepted) st.decision_total fzero;
    avg_eval_score = ratio st.score_sum st.score_count (fl.lit 7 1);
    eval_score_known = gt st.score_count fzero;
    recent_cost_usd = ratio st.cost_sum st.cost_count fzero;
    recent_latency_ms = ratio st.latency_sum st.latency_count fzero;
    avg_input_tokens = ratio st.input_tokens st.usage_count fzero;
    avg_output_tokens = ratio st.output_tokens st.usage_count fzero;
    avg_total_tokens = ratio st.total_tokens st.usage_count fzero;
    usage_known = gt st.usage_count fzero;
    cost_known = gt st.cost_count fzero;
    latency_known = gt st.latency_count fzero;
  }

  unfoldable pub signal_of : Option (ModelStats F) → RoutingSignal F
  unfolding signal_of_stats
  signal_of none = neutral_signal
  signal_of (some st) =
      if fl.eq (fl.add st.decision_total st.result_total) fzero
      then neutral_signal
      else signal_of_stats st

  -- The entry of the kind, or else that of the events without a kind.
  abbrev pub fall_back : Option (ModelStats F) → Option (ModelStats F) → Option (ModelStats F)
  fall_back none second = second
  fall_back (some st) second = some st

  -- MemoryStore.Signal
  unfoldable pub signal : MemoryStore F → String → TaskKind → RoutingSignal F
  unfolding find signal_of
  signal s model kind = signal_of (
      fall_back (find (record { model_name = model; task_kind = kind }) s.stats)
        (find (record { model_name = model; task_kind = "" }) s.stats))
