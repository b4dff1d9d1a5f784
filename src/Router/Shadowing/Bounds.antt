-- ===== src/Router/Shadowing/Bounds.antt =====
-- The memory that the keys of the candidates take is bounded.
use veto.Shared.{
  ◌-◌, ◌≤◌, String, List, [], ◌∷◌, ◌++◌, arith, length, is_some, Bool-cases, inl, inr,
  if◌then◌else◌,
}
use veto.Shared.Text.{◌==◌, eq_iff}
use veto.Shared.Dict.{get, set, get-set}
use veto.Router.ShadowRoutes.{drop}
use veto.Router.ShadowRoutes.Queues.{length-drop}
use veto.Router.ShadowRoutes.Bounds.{IsOrdered, evict-IsOrdered, contains-append}
use veto.Router.Shadowing.{CandidateMemory, max_candidate_routes, remember_candidate_keys}

-- 256 routes in the order, in which every route stands that has keys.
pub record IsBounded (memory : CandidateMemory) : Type 0 where
  pub order : length memory.candidate_key_order ≤ 256
  pub ordered : IsOrdered memory.candidate_key_order memory.candidate_keys

set-IsOrdered :
    (route_id : String) (m : List (String × String)) (memory : CandidateMemory)
    → IsOrdered memory.candidate_key_order memory.candidate_keys
    → IsOrdered
        (if is_some (get route_id memory.candidate_keys)
          then memory.candidate_key_order
          else memory.candidate_key_order ++ route_id ∷ [])
        (set route_id m memory.candidate_keys)
set-IsOrdered route_id m memory h other = ground (
  arith,
  h other,
  h route_id,
  get-set other route_id m memory.candidate_keys,
  contains-append memory.candidate_key_order route_id other,
  eq_iff route_id other,
)

length-order :
    (order : List String) → length (drop (length order - max_candidate_routes) order) ≤ 256
length-order order = ground (arith, length-drop (length order - max_candidate_routes) order)

pub remember-IsBounded :
    (route_id : String) (m : List (String × String)) (memory : CandidateMemory)
    → IsBounded memory
    → IsBounded (remember_candidate_keys route_id m memory)
unfolding remember_candidate_keys
remember-IsBounded route_id m memory h =
    let order =
      if is_some (get route_id memory.candidate_keys)
      then memory.candidate_key_order
      else memory.candidate_key_order ++ route_id ∷ [] in
    elim (Bool-cases (route_id == "")) [
      | inl blank ↦ rw blank h
      | inr named ↦ rw named (record {
        order = length-order order;
        ordered = evict-IsOrdered _ _ _ (set-IsOrdered route_id m memory h.ordered);
      })
    ]

-- Routes that are remembered one after the other.
unfoldable pub remember_all :
    List (String × List (String × String)) → CandidateMemory → CandidateMemory
unfolding remember_candidate_keys
remember_all [] memory = memory
remember_all ((route_id, m) ∷ rest) memory =
    remember_all rest (remember_candidate_keys route_id m memory)

-- An engine that keeps 256 routes at most, and no keys of any other route, still does so after it has
-- remembered the candidates of any number of routes.
pub remember_all-IsBounded :
    (routes : List (String × List (String × String))) (memory : CandidateMemory)
    → IsBounded memory
    → IsBounded (remember_all routes memory)
unfolding remember_all
remember_all-IsBounded [] memory h = h
remember_all-IsBounded ((route_id, m) ∷ routes) memory h =
    remember_all-IsBounded routes (remember_candidate_keys route_id m memory)
      (remember-IsBounded route_id m memory h)
