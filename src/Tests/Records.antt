-- ===== src/Tests/Records.antt =====
-- The store and the queues of shadow routes: the theorems on sequences of operations.
use veto.Shared.{String, ◌≡◌, ◌⊎◌, true, not, ◌&&◌, List, [], ◌∷◌}
use veto.Shared.Text.{◌==◌}
use veto.Router.Admission.{rejection}
use veto.Router.Store.{new_memory_store}
use veto.Router.Store.History as History
use veto.Router.Store.History.{IsRebuilt, run_all-rebuild_stats}
use veto.Router.ShadowRoutes.{ShadowState, queue, remember_shadow_route, take_shadow_route}
use veto.Router.ShadowRoutes.Queues.{
  IsRemembered, IsTaking, queue-remember_shadow_route, queue-take_shadow_route,
}
use veto.Router.ShadowRoutes.Bounds as Bounds
use veto.Router.ShadowRoutes.Bounds.{IsBounded, no_routes, run_all-IsBounded}
use veto.Tests.Numbers.{Milli, milli_float64}
use veto.Tests.Data.{a_success}

abbrev two_operations : List (History.Operation Milli)
two_operations =
    History.logs_decision "t1" "keen" (rejection "LOW_CONFIDENCE")
    ∷ History.records_execution "t1" "keen" "debug" a_success
    ∷ []

run_all-rebuild_stats_example : IsRebuilt (History.run_all two_operations new_memory_store)
run_all-rebuild_stats_example = run_all-rebuild_stats two_operations

abbrev two_ids : ShadowState Milli
two_ids = record { routes = ("k", "r-1" ∷ "r-2" ∷ []) ∷ []; metrics = []; metric_order = [] }

queue-remember_shadow_route_example :
    IsRemembered
      (not ("r-3" == "") && "k" == "k")
      "r-3"
      (queue "k" two_ids)
      (queue "k" (remember_shadow_route "k" "r-3" two_ids))
queue-remember_shadow_route_example = queue-remember_shadow_route "k" "k" "r-3" two_ids

abbrev queue_key : String
queue_key = "k"

queue-take_shadow_route_example :
    IsTaking "r-2"
      (queue "k" two_ids)
      (take_shadow_route "k" "r-2" two_ids).1
      (queue "k" (take_shadow_route "k" "r-2" two_ids).0)
    × ((queue_key ≡ "l") ⊎ (queue "l" (take_shadow_route "k" "r-2" two_ids).0 ≡ queue "l" two_ids))
queue-take_shadow_route_example = queue-take_shadow_route "l" "k" "r-2" two_ids

abbrev three_operations : List (Bounds.Operation Milli)
three_operations =
    Bounds.remembers "k" "r-1" ∷ Bounds.caches "r-1" true a_success ∷ Bounds.takes "k" "" ∷ []

run_all-IsBounded_example : IsBounded (Bounds.run_all three_operations no_routes)
run_all-IsBounded_example = run_all-IsBounded three_operations
