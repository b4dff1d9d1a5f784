-- ===== src/Router/Shadowing/Offered.antt =====
-- The keys under which a comparison names the candidates of a request.
use mathlib.Core.List.{Mem, mem-cons_self, mem-cons_of_mem}
use veto.Shared.{◌≡◌, refl, String, true, false, some, List, [], ◌∷◌, arith, Bool-cases, inl, inr}
use veto.Shared.Dict.{get, set, get-set}
use veto.Router.Decision.{DecisionCandidate, has_candidate}
use veto.Router.Shadowing.{Keys, candidate_key_for_candidate, keys_of, key_map, key_in}

module _ {F : Type 0} (keys : Keys F) (route_id : String) where
  pub get-key_map :
      (cs : List (DecisionCandidate F)) (m : List (String × String)) (name : String)
      → has_candidate cs name ≡ false
      → get name (key_map keys route_id cs m) ≡ get name m
  unfolding key_map has_candidate
  get-key_map [] m name h = refl
  get-key_map (c ∷ cs) m name h =
      let key = candidate_key_for_candidate keys route_id c in
      ground (arith, get-key_map cs (set c.model.name key m) name, get-set name c.model.name key m)

  -- A name that a candidate of the request has is recorded under one of the keys that the comparison
  -- lists.
  pub key_in-offered :
      (cs : List (DecisionCandidate F)) (m : List (String × String)) (name : String)
      → has_candidate cs name ≡ true
      → Mem (key_in (key_map keys route_id cs m) name) (keys_of keys route_id cs)
  unfolding key_map has_candidate keys_of key_in
  key_in-offered [] m name h = absurd (ground arith)
  key_in-offered (c ∷ cs) m name h =
      let key = candidate_key_for_candidate keys route_id c in
      let after = set c.model.name key m in
      elim (Bool-cases (has_candidate cs name)) [
        | inl later ↦ mem-cons_of_mem _ (key_in-offered cs after name later)
        | inr last ↦
            let named : get name (key_map keys route_id cs after) ≡ some key =
              ground (arith, get-key_map cs after name, get-set name c.model.name key m) in
            rw named mem-cons_self
      ]
