-- ===== src/Shadow/Replay.antt =====
-- pkg/shadow/jsonl.go: Materialize.
pub mod Steps
pub mod Consistent
pub mod Latest
use veto.Shared.{
  String, Bool, true, false, not, ◌&&◌, ◌||◌, Option, none, some, List, [], ◌∷◌, ◌++◌,
  if◌then◌else◌,
}
use veto.Shared.Float.{Float64}
use veto.Shared.Text.{◌==◌, Unicode, equal_fold, contains}
use veto.Shared.Dict.{set}
use veto.Shadow.Records.{RouteComparison, ExecutionLabel, Event, RouteRecord, Dataset}
use veto.Shadow.Evidence.{
  EvidenceError, route_comparison_type, execution_label_type, validate_event,
}

pub data ReplayError : Type 0 where
  invalid_event : EvidenceError → ReplayError
  duplicate_comparison unknown_route unknown_candidate : ReplayError

pub data Replayed (F : Type 0) : Type 0 where
  replayed : Dataset F → Replayed F
  refused : ReplayError → Replayed F

-- offered
unfoldable pub offered : ⦃u : Unicode⦄ → List String → String → Bool
unfolding equal_fold
offered [] key = false
offered (candidate ∷ candidates) key =
    (equal_fold candidate key && candidate == key) || offered candidates key

module _ {F : Type 0} where
  -- The record of a route; the positions of the source are those of the records.
  unfoldable pub record_of : String → Dataset F → Option (RouteRecord F)
  record_of route [] = none
  record_of route (r ∷ rs) =
      let rest = record_of route rs in if r.comparison.route_id == route then some r else rest

  unfoldable pub put_label : ExecutionLabel F → Dataset F → Dataset F
  unfolding set
  put_label l [] = []
  put_label l (r ∷ rs) =
      let rest = put_label l rs in
      if r.comparison.route_id == l.route_id
      then record r { labels = set l.candidate l r.labels } ∷ rs
      else r ∷ rest

  unfoldable pub add_comparison : RouteComparison F → Dataset F → Replayed F
  unfolding record_of
  add_comparison c dataset = elim (record_of c.route_id dataset) [
    | some r ↦ refused duplicate_comparison
    | none ↦ replayed (dataset ++ record { comparison = c; labels = [] } ∷ [])
  ]

  unfoldable pub add_label : ⦃u : Unicode⦄ → ExecutionLabel F → Dataset F → Replayed F
  unfolding record_of offered put_label
  add_label l dataset = elim (record_of l.route_id dataset) [
    | none ↦ refused unknown_route
    | some r ↦
        if offered r.comparison.candidates l.candidate
        then replayed (put_label l dataset)
        else refused unknown_candidate
  ]

  -- The switch of the loop's body: a valid event has the payload of its type.
  unfoldable pub add_event : ⦃u : Unicode⦄ → Event F → Dataset F → Replayed F
  unfolding add_comparison add_label
  add_event e dataset =
      if e.type == route_comparison_type
      then elim e.comparison [ none ↦ replayed dataset | some c ↦ add_comparison c dataset ]
      else if e.type == execution_label_type
      then elim e.label [ none ↦ replayed dataset | some l ↦ add_label l dataset ]
      else replayed dataset

module _ {F : Type 0} ⦃fl : Float64 F⦄ ⦃u : Unicode⦄ where
  -- The loop of Materialize.
  unfoldable pub materialize_from : List (Event F) → Dataset F → Replayed F
  unfolding validate_event add_event
  materialize_from [] dataset = replayed dataset
  materialize_from (e ∷ es) dataset = elim (validate_event e) [
    | some bad ↦ refused (invalid_event bad)
    | none ↦ elim (add_event e dataset) [
      | refused bad ↦ refused bad
      | replayed next ↦ materialize_from es next
    ]
  ]

  -- Materialize
  unfoldable pub materialize : List (Event F) → Replayed F
  unfolding materialize_from
  materialize events = materialize_from events []
