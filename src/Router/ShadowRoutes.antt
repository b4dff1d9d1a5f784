-- ===== src/Router/ShadowRoutes.antt =====
-- pkg/router/manager.go: the queues of shadow route ids and the cache of execution metrics that
-- connect later executions and reviews to routes. The mutex makes each operation one step.
pub mod Queues
pub mod Bounds
use veto.Shared.{
  ℕ, suc, ◌+◌, ◌-◌, String, Bool, true, false, not, ◌&&◌, ◌||◌, Option, none, some, List, [], ◌∷◌,
  ◌++◌, length, ltb, nat_eq, is_some, if◌then◌else◌,
}
use veto.Shared.Int.{ℤ, pos}
use veto.Shared.Float.{Float64, fzero}
use veto.Shared.Text.{◌==◌, contains}
use veto.Shared.Dict.{get, set, delete}
use veto.Router.Types.{TaskSpec, ExecutionMetrics}
use veto.Router.Decision.{DecisionProbability, DecisionTelemetry}

abbrev pub max_shadow_routes_per_key : ℕ
max_shadow_routes_per_key = 32

abbrev pub max_shadow_metrics : ℕ
max_shadow_metrics = 256

-- The fields of Manager that hold them.
pub record ShadowState (F : Type 0) : Type 0 where
  pub routes : List (String × List String)
  pub metrics : List (String × ExecutionMetrics F)
  pub metric_order : List String

abbrev pub or_empty : Option (List String) → List String
or_empty none = []
or_empty (some ids) = ids

-- m.shadowRoutes[key]
abbrev pub queue : {F : Type 0} → String → ShadowState F → List String
queue key s = or_empty (get key s.routes)

-- xs[n:]
unfoldable pub drop : ℕ → List String → List String
drop n [] = []
drop n (x ∷ xs) = let rest = drop (n - 1) xs in if nat_eq n 0 then x ∷ xs else rest

-- The first occurrence taken out.
unfoldable pub remove : String → List String → List String
remove a [] = []
remove a (x ∷ xs) = let rest = remove a xs in if x == a then xs else x ∷ rest

-- The last `n` elements.
unfoldable pub last_of : ℕ → List String → List String
unfolding drop
last_of n xs = if ltb n (length xs) then drop (length xs - n) xs else xs

-- The loop that drops the oldest entries of a map, `excess` of them.
unfoldable pub evict : {A : Type 0} → ℕ → List String → List (String × A) → List (String × A)
unfolding delete
evict excess [] entries = entries
evict excess (oldest ∷ order) entries =
    let rest = evict (excess - 1) order (delete oldest entries) in
    if nat_eq excess 0 then entries else rest

module _ {F : Type 0} where
  -- Manager.rememberShadowRoute, under the key of the task and the model
  unfoldable pub remember_shadow_route : String → String → ShadowState F → ShadowState F
  unfolding get set last_of
  remember_shadow_route key route_id s = if route_id == "" then s else record s {
    routes = set key (last_of max_shadow_routes_per_key (queue key s ++ route_id ∷ [])) s.routes;
  }

  -- A queue put back, or deleted when it is empty.
  unfoldable pub put_back : String → List String → ShadowState F → ShadowState F
  unfolding set delete
  put_back key [] s = record s { routes = delete key s.routes }
  put_back key (id ∷ ids) s = record s { routes = set key (id ∷ ids) s.routes }

  unfoldable pub take_first : String → List String → ShadowState F → ShadowState F × String
  unfolding put_back
  take_first key [] s = (s, "")
  take_first key (id ∷ ids) s = (put_back key ids s, id)

  -- Manager.takeShadowRoute
  unfoldable pub take_shadow_route : String → String → ShadowState F → ShadowState F × String
  unfolding get put_back remove take_first contains
  take_shadow_route key preferred s =
      if not (preferred == "")
      then if contains (queue key s) preferred
        then (put_back key (remove preferred (queue key s)) s, preferred)
        else (s, preferred)
      else take_first key (queue key s) s

  -- The first block of Manager.recordExecution, for a task with success criteria or without.
  unfoldable pub cache_metrics : String → Bool → ExecutionMetrics F → ShadowState F → ShadowState F
  unfolding get set evict drop
  cache_metrics route_id has_criteria metrics s =
      let order =
        if is_some (get route_id s.metrics)
        then s.metric_order
        else s.metric_order ++ route_id ∷ [] in
      let excess = length order - max_shadow_metrics in
      if route_id == "" || not has_criteria then s else record s {
        metrics = evict excess order (set route_id metrics s.metrics);
        metric_order = drop excess order;
      }

  -- The first block of Manager.RecordReviewForDecision: the metrics are taken out.
  unfoldable pub take_metrics : String → ShadowState F → ShadowState F × Option (ExecutionMetrics F)
  unfolding get delete remove
  take_metrics route_id s = (
    record s { metrics = delete route_id s.metrics; metric_order = remove route_id s.metric_order },
    get route_id s.metrics,
  )

-- ShadowKnownBool and the label of an execution, less the time that it is given
pub record ExecutionLabel (F : Type 0) : Type 0 where
  pub route_id : String
  pub candidate : String
  pub success : Option Bool
  pub score : DecisionProbability F
  pub telemetry : DecisionTelemetry F

-- The status of an execution, as its success where that is known.
unfoldable pub success_of : String → Option Bool
success_of status =
    if status == "success"
    then some true
    else if status == "failure"
        || status == "error"
        || status == "truncated"
        || status == "timeout"
        || status == "canceled"
    then some false
    else none

module _ {F : Type 0} where
  -- executionLabelRecord
  unfoldable pub execution_label_record : String → String → ExecutionMetrics F → ExecutionLabel F
  unfolding success_of
  execution_label_record route_id candidate metrics = record {
    route_id = route_id;
    candidate = candidate;
    success = success_of metrics.status;
    score = record { value = metrics.score; known = metrics.score_known };
    telemetry = record {
      input_tokens = metrics.input_tokens;
      output_tokens = metrics.output_tokens;
      total_tokens = metrics.total_tokens;
      usage_known = metrics.usage_known;
      cached_input_tokens = pos 0;
      cached_input_known = false;
      cost_usd = metrics.cost_usd;
      cost_known = metrics.cost_known;
      latency_ms = metrics.latency_ms;
      latency_known = metrics.latency_known;
    };
  }

  -- safeRecordExecution: the label that reaches the recorder.
  unfoldable pub recorded_label : ExecutionLabel F → Option (ExecutionLabel F)
  recorded_label label = if label.route_id == "" || label.candidate == "" then none else some label

  -- The metrics of a review: those of the execution, with the review's verdict.
  unfoldable pub reviewed : ExecutionMetrics F → Bool → F → ExecutionMetrics F
  reviewed metrics passed score = record metrics {
    status = if passed then "success" else "failure";
    score = score;
    score_known = true;
  }
