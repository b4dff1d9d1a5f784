-- ===== src/Router/ShadowRoutes/Bounds.antt =====
-- The memory that the queues and the cache of metrics take is bounded.
use veto.Shared.{
  ℕ, ◌-◌, ◌≤◌, ◌≡◌, refl, String, Bool, true, false, not, ◌||◌, List, [], ◌∷◌, ◌++◌, arith, length,
  nat_eq, is_some, Bool-cases, inl, inr, if◌then◌else◌,
}
use veto.Shared.Text.{◌==◌, eq_iff, contains}
use veto.Shared.Dict.{get, set, delete, get-set, get-delete}
use veto.Router.Types.{ExecutionMetrics}
use veto.Router.ShadowRoutes.{
  ShadowState, queue, drop, remove, remember_shadow_route, take_shadow_route, put_back, take_first,
  evict, cache_metrics, take_metrics,
}
use veto.Router.ShadowRoutes.Queues.{
  length-drop, length-last_of, length-remove, queue-remember_body, queue-take_body, left_over,
}

pub contains-append :
    (xs : List String) (a b : String) → contains (xs ++ a ∷ []) b ≡ (contains xs b || a == b)
unfolding contains
contains-append [] a b = ground arith
contains-append (x ∷ xs) a b = ground (arith, contains-append xs a b)

contains-remove :
    (xs : List String) (a b : String)
    → contains xs b ≡ true
    → a == b ≡ false
    → contains (remove a xs) b ≡ true
unfolding contains remove
contains-remove [] a b h d = h
contains-remove (x ∷ xs) a b h d =
    ground (arith, contains-remove xs a b, eq_iff x a, eq_iff x b, eq_iff a b)

length-left_over :
    (preferred : String) (ids : List String) → length (left_over preferred ids) ≤ length ids
length-left_over preferred [] = ground (arith, length-remove preferred [])
length-left_over preferred (id ∷ ids) = ground (arith, length-remove preferred (id ∷ ids))

module _ {A : Type 0} where
  -- Every id that has an entry stands in the order.
  abbrev pub IsOrdered : List String → List (String × A) → Type 0
  IsOrdered order metrics =
      (id : String) → is_some (get id metrics) ≡ true → contains order id ≡ true

  pub evict-IsOrdered :
      (excess : ℕ) (order : List String) (metrics : List (String × A))
      → IsOrdered order metrics
      → IsOrdered (drop excess order) (evict excess order metrics)
  unfolding evict drop contains
  evict-IsOrdered excess [] metrics h = h
  evict-IsOrdered excess (oldest ∷ order) metrics h = elim (Bool-cases (nat_eq excess 0)) [
    | inl done ↦ rw done h
    | inr more ↦ rw more (
        evict-IsOrdered (excess - 1) order (delete oldest metrics)
          (λ id. ground (arith, h id, get-delete id oldest metrics)))
  ]

module _ {F : Type 0} where
  -- The bounds of the source: 32 ids per queue, and 256 ids with metrics.
  pub record IsBounded (s : ShadowState F) : Type 0 where
    pub queues : (key : String) → length (queue key s) ≤ 32
    pub order : length s.metric_order ≤ 256
    pub cached : IsOrdered s.metric_order s.metrics

  remember-IsBounded :
      (key id : String) (s : ShadowState F)
      → IsBounded s
      → IsBounded (remember_shadow_route key id s)
  unfolding remember_shadow_route
  remember-IsBounded key id s h = record {
    queues = λ other. ground (
      arith,
      queue-remember_body other key id s,
      length-last_of 32 (queue other s ++ id ∷ []),
      h.queues other,
    );
    order = ground (arith, h.order);
    cached = λ other. ground (arith, h.cached other);
  }

  put_back-cache :
      (key : String) (ids : List String) (s : ShadowState F)
      → ((put_back key ids s).metrics ≡ s.metrics)
        × ((put_back key ids s).metric_order ≡ s.metric_order)
  unfolding put_back
  put_back-cache key [] s = (refl, refl)
  put_back-cache key (id ∷ ids) s = (refl, refl)

  take_first-cache :
      (key : String) (ids : List String) (s : ShadowState F)
      → ((take_first key ids s).0.metrics ≡ s.metrics)
        × ((take_first key ids s).0.metric_order ≡ s.metric_order)
  unfolding take_first
  take_first-cache key [] s = (refl, refl)
  take_first-cache key (id ∷ ids) s = put_back-cache key ids s

  take-cache :
      (key preferred : String) (s : ShadowState F)
      → ((take_shadow_route key preferred s).0.metrics ≡ s.metrics)
        × ((take_shadow_route key preferred s).0.metric_order ≡ s.metric_order)
  unfolding take_shadow_route
  take-cache key preferred s = ground (
    arith,
    put_back-cache key (remove preferred (queue key s)) s,
    take_first-cache key (queue key s) s,
  )

  take-IsBounded :
      (key preferred : String) (s : ShadowState F)
      → IsBounded s
      → IsBounded (take_shadow_route key preferred s).0
  take-IsBounded key preferred s h = record {
    queues = λ other. ground (
      arith,
      queue-take_body other key preferred s,
      length-left_over preferred (queue other s),
      h.queues other,
    );
    order = rw (take-cache key preferred s).1 h.order;
    cached = λ other.
        rw ((take-cache key preferred s).0, (take-cache key preferred s).1) (h.cached other);
  }

  -- What the cache keeps, once the new metrics are in it.
  store-IsOrdered :
      (id : String) (metrics : ExecutionMetrics F) (s : ShadowState F)
      → IsBounded s
      → (other : String) → is_some (get other (set id metrics s.metrics)) ≡ true
      → contains
          (if is_some (get id s.metrics) then s.metric_order else s.metric_order ++ id ∷ [])
          other
        ≡ true
  store-IsOrdered id metrics s h other stored = ground (
    arith,
    h.cached id,
    h.cached other,
    get-set other id metrics s.metrics,
    contains-append s.metric_order id other,
    eq_iff id other,
  )

  cache-IsBounded :
      (id : String) (criteria : Bool) (metrics : ExecutionMetrics F) (s : ShadowState F)
      → IsBounded s
      → IsBounded (cache_metrics id criteria metrics s)
  unfolding cache_metrics
  cache-IsBounded id criteria metrics s h =
      let order =
        if is_some (get id s.metrics) then s.metric_order else s.metric_order ++ id ∷ [] in
      let excess = length order - 256 in
      elim (Bool-cases (id == "" || not criteria)) [
        | inl ignored ↦ rw (ignored, cache_metrics) h
        | inr stored ↦
            rw (stored, cache_metrics)
              (record {
                queues = h.queues;
                order = omega (arith, length-drop excess order);
                cached =
                    evict-IsOrdered excess order (set id metrics s.metrics)
                      (store-IsOrdered id metrics s h);
              })
      ]

  take_metrics-IsBounded :
      (id : String) (s : ShadowState F) → IsBounded s → IsBounded (take_metrics id s).0
  unfolding take_metrics
  take_metrics-IsBounded id s h = record {
    queues = h.queues;
    order = omega (arith, length-remove id s.metric_order, h.order);
    cached = λ other. ground (
      arith,
      h.cached other,
      get-delete other id s.metrics,
      contains-remove s.metric_order id other,
    );
  }

-- The operations on the queues and on the cache.
pub data Operation (F : Type 0) : Type 0 where
  remembers takes : String → String → Operation F
  caches : String → Bool → ExecutionMetrics F → Operation F
  takes_metrics : String → Operation F

module _ {F : Type 0} where
  abbrev pub run : Operation F → ShadowState F → ShadowState F
  run (remembers key id) s = remember_shadow_route key id s
  run (takes key preferred) s = (take_shadow_route key preferred s).0
  run (caches id criteria metrics) s = cache_metrics id criteria metrics s
  run (takes_metrics id) s = (take_metrics id s).0

  abbrev pub run_all : List (Operation F) → ShadowState F → ShadowState F
  run_all [] s = s
  run_all (o ∷ os) s = run_all os (run o s)

  run-IsBounded : (o : Operation F) (s : ShadowState F) → IsBounded s → IsBounded (run o s)
  run-IsBounded (remembers key id) = remember-IsBounded key id
  run-IsBounded (takes key preferred) = take-IsBounded key preferred
  run-IsBounded (caches id criteria metrics) = cache-IsBounded id criteria metrics
  run-IsBounded (takes_metrics id) = take_metrics-IsBounded id

  abbrev pub no_routes : ShadowState F
  no_routes = record { routes = []; metrics = []; metric_order = [] }

  no_routes-IsBounded : IsBounded no_routes
  unfolding get
  no_routes-IsBounded = record {
    queues = λ key. omega arith;
    order = omega arith;
    cached = λ id h. ground arith;
  }

  IsBounded-run_all :
      (os : List (Operation F)) (s : ShadowState F) → IsBounded s → IsBounded (run_all os s)
  IsBounded-run_all [] s h = h
  IsBounded-run_all (o ∷ os) s h = IsBounded-run_all os (run o s) (run-IsBounded o s h)

  -- After any sequence of operations on an empty state, no queue holds more than 32 route ids, the
  -- cache orders at most 256 ids, and it holds metrics of no other id.
  pub run_all-IsBounded : (os : List (Operation F)) → IsBounded (run_all os no_routes)
  run_all-IsBounded os = IsBounded-run_all os no_routes no_routes-IsBounded
