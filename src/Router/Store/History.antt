-- ===== src/Router/Store/History.antt =====
-- The aggregates of the store against its event log.
use veto.Shared.{
  String, ◌≡◌, refl, sym, ap, ◌∙◌, Bool, Option, none, some, List, [], ◌∷◌, ◌++◌, filter,
}
use veto.Shared.Float.{Float64}
use veto.Router.Types.{TaskKind, AdmissionDecision, ExecutionMetrics}
use veto.Router.Stats.{
  RoutingEvent, StatsKey, ModelStats, StatsMap, same_key, event_key, update, or_no_stats,
  accumulate, accumulate_all,
}
use veto.Router.Store.{
  MemoryStore, rebuild_stats, new_memory_store, record_event, log_decision_for_kind, log_decision,
  record_execution, log_result,
}

-- The operations of a store.
pub data Operation (F : Type 0) : Type 0 where
  logs_decision : String → String → AdmissionDecision F → Operation F
  logs_decision_for_kind : String → String → TaskKind → AdmissionDecision F → Operation F
  logs_result : String → String → F → String → Operation F
  records_execution : String → String → TaskKind → ExecutionMetrics F → Operation F

module _ {F : Type 0} where
  abbrev pub is_for : StatsKey → RoutingEvent F → Bool
  is_for key e = same_key (event_key e) key

module _ {F : Type 0} ⦃fl : Float64 F⦄ where
  unfoldable pub run : Operation F → MemoryStore F → MemoryStore F
  run (logs_decision task_id model d) = log_decision task_id model d
  run (logs_decision_for_kind task_id model kind d) = log_decision_for_kind task_id model kind d
  run (logs_result task_id model score status) = log_result task_id model score status
  run (records_execution task_id model kind metrics) = record_execution task_id model kind metrics

  unfoldable pub run_all : List (Operation F) → MemoryStore F → MemoryStore F
  unfolding run
  run_all [] s = s
  run_all (o ∷ os) s = run_all os (run o s)

  -- The aggregates that a list of events of one key leads to; none without an event.
  unfoldable pub totals : Option (ModelStats F) → List (RoutingEvent F) → Option (ModelStats F)
  totals o [] = o
  totals o (e ∷ es) = totals (some (update e (or_no_stats o))) es

  abbrev pub history : StatsKey → List (RoutingEvent F) → Option (ModelStats F)
  history key es = totals none (filter (is_for key) es)

  accumulate_all-append :
      (es : List (RoutingEvent F)) (e : RoutingEvent F) (m : StatsMap F)
      → accumulate_all (es ++ e ∷ []) m ≡ accumulate e (accumulate_all es m)
  unfolding accumulate_all
  accumulate_all-append [] e m = refl
  accumulate_all-append (d ∷ es) e m = accumulate_all-append es e (accumulate d m)

  -- The aggregates are those that a rebuild from the events gives.
  abbrev pub IsRebuilt : MemoryStore F → Type 0
  IsRebuilt s = s.stats ≡ (rebuild_stats s).stats

  record_event-IsRebuilt :
      (e : RoutingEvent F) (s : MemoryStore F) → IsRebuilt s → IsRebuilt (record_event e s)
  unfolding record_event rebuild_stats
  record_event-IsRebuilt e s h = ap (accumulate e) h ∙ sym (accumulate_all-append s.events e [])

  run-IsRebuilt : (o : Operation F) (s : MemoryStore F) → IsRebuilt s → IsRebuilt (run o s)
  unfolding run log_decision log_decision_for_kind log_result record_execution
  run-IsRebuilt (logs_decision task_id model d) s h = record_event-IsRebuilt _ s h
  run-IsRebuilt (logs_decision_for_kind task_id model kind d) s h = record_event-IsRebuilt _ s h
  run-IsRebuilt (logs_result task_id model score status) s h = record_event-IsRebuilt _ s h
  run-IsRebuilt (records_execution task_id model kind metrics) s h = record_event-IsRebuilt _ s h

  run_all-IsRebuilt :
      (os : List (Operation F)) (s : MemoryStore F) → IsRebuilt s → IsRebuilt (run_all os s)
  unfolding run_all
  run_all-IsRebuilt [] s h = h
  run_all-IsRebuilt (o ∷ os) s h = run_all-IsRebuilt os (run o s) (run-IsRebuilt o s h)

  -- After any sequence of operations on a new store, the running aggregates are those that
  -- rebuildStats computes from the event log in one pass.
  pub run_all-rebuild_stats : (os : List (Operation F)) → IsRebuilt (run_all os new_memory_store)
  unfolding new_memory_store rebuild_stats
  run_all-rebuild_stats os = run_all-IsRebuilt os new_memory_store refl
