-- ===== src/Shadow/Replay/Consistent.antt =====
-- What a replayed dataset satisfies.
use mathlib.Core.List.{Mem, Nodup, Nodup-nil, Nodup-cons, perm_append_comm, map-append}
use mathlib.Core.Path.{subst}
use mathlib.Core.List.Perm
use veto.Shared.{
  ◌≡◌, refl, sym, ap, String, true, none, some, is_some, List, [], ◌∷◌, map, All, All-append, arith,
  Bool-cases, inl, inr,
}
use veto.Shared.Float.{Float64}
use veto.Shared.Text.{◌==◌, Unicode, eq_iff, contains}
use veto.Shared.Dict.{set}
use veto.Shared.Members.{contains_iff}
use veto.Shadow.Records.{RouteComparison, ExecutionLabel, Event, RouteRecord, Dataset}
use veto.Shadow.Evidence.{validate_comparison, validate_label}
use veto.Shadow.Replay.{replayed, record_of, offered, put_label, materialize_from, materialize}
use veto.Shadow.Replay.Steps.{Added, compared, labeled, unlabeled, materialize_from-Added}

All-set :
    {A : Type 0} (P : String × A → Type 0) (key : String) (a : A) (d : List (String × A))
    → All P d
    → P (key, a)
    → All P (set key a d)
unfolding set
All-set P key a [] h p = (p, tt)
All-set P key a ((k, b) ∷ d) h p = elim (Bool-cases (k == key)) [
  | inl same ↦ rw same (rw ((eq_iff k key).0 same) p, h.1)
  | inr other ↦ rw other (h.0, All-set P key a d h.1 p)
]

offered-contains :
    ⦃u : Unicode⦄ (candidates : List String) (key : String)
    → offered candidates key ≡ true
    → contains candidates key ≡ true
unfolding offered contains
offered-contains [] key h = cc
offered-contains (c ∷ cs) key h = ground (arith, offered-contains cs key)

module _ {F : Type 0} ⦃fl : Float64 F⦄ where
  abbrev pub route_ids : Dataset F → List String
  route_ids dataset = map (λ (r : RouteRecord F). r.comparison.route_id) dataset

  -- A label stands under its candidate, which its route has offered.
  pub record IsLabel (c : RouteComparison F) (entry : String × ExecutionLabel F) : Type 0 where
    pub filed : entry.0 ≡ entry.1.candidate
    pub of_route : entry.1.route_id ≡ c.route_id
    pub of_candidate : Mem entry.1.candidate c.candidates
    pub valid : validate_label entry.1 ≡ none

  pub record IsRecord (r : RouteRecord F) : Type 0 where
    pub valid : validate_comparison r.comparison ≡ none
    pub labels : All (IsLabel r.comparison) r.labels

  pub record IsConsistent (dataset : Dataset F) : Type 0 where
    pub distinct : Nodup (route_ids dataset)
    pub records : All IsRecord dataset

  contains-route_ids :
      (route : String) (d : Dataset F) → contains (route_ids d) route ≡ is_some (record_of route d)
  unfolding contains record_of
  contains-route_ids route [] = refl
  contains-route_ids route (r ∷ d) = ground (arith, contains-route_ids route d)

  route_ids-put_label :
      (l : ExecutionLabel F) (d : Dataset F) → route_ids (put_label l d) ≡ route_ids d
  unfolding put_label
  route_ids-put_label l [] = refl
  route_ids-put_label l (r ∷ d) = elim (Bool-cases (r.comparison.route_id == l.route_id)) [
    | inl here ↦ rw here refl
    | inr there ↦ rw there (ap (◌∷◌ r.comparison.route_id) (route_ids-put_label l d))
  ]

  put_label-IsRecord :
      ⦃u : Unicode⦄ (l : ExecutionLabel F) (d : Dataset F) (r : RouteRecord F)
      → validate_label l ≡ none
      → record_of l.route_id d ≡ some r
      → offered r.comparison.candidates l.candidate ≡ true
      → All IsRecord d
      → All IsRecord (put_label l d)
  unfolding put_label record_of
  put_label-IsRecord l [] r valid known has h = cc
  put_label-IsRecord l (q ∷ d) r valid known has h =
      elim (Bool-cases (q.comparison.route_id == l.route_id)) [
        | inl here ↦ rw here (
          record {
            valid = h.0.valid;
            labels = All-set (IsLabel q.comparison) l.candidate l q.labels h.0.labels (record {
              filed = refl;
              of_route = sym ((eq_iff q.comparison.route_id l.route_id).0 here);
              of_candidate =
                  let same : q ≡ r = cc (rw here at known) in
                  (contains_iff q.comparison.candidates l.candidate).0
                    (rw same (offered-contains r.comparison.candidates l.candidate has));
              valid = valid;
            });
          },
          h.1,
        )
        | inr there ↦ rw there (h.0, put_label-IsRecord l d r valid (rw there at known) has h.1)
      ]

module _ {F : Type 0} ⦃fl : Float64 F⦄ ⦃u : Unicode⦄ where
  Added-IsConsistent :
      (e : Event F) (before after : Dataset F)
      → Added e before after
      → IsConsistent before
      → IsConsistent after
  Added-IsConsistent e before after (compared c hc hl valid new same) h =
      subst IsConsistent (sym same) (record {
        distinct =
            rw (map-append (λ (r : RouteRecord F). r.comparison.route_id) before (unlabeled c ∷ []))
              (Perm.nodup (perm_append_comm (c.route_id ∷ []) (route_ids before)) (
                Nodup-cons.1 (
                  λ m.
                      let there = (contains_iff (route_ids before) c.route_id).1 m in
                      let absent = ap is_some new in
                      let found = contains-route_ids c.route_id before in cc,
                  h.distinct,
                )));
        records =
            All-append IsRecord before (unlabeled c ∷ []) h.records
              (record { valid = valid; labels = tt }, tt);
      })
  Added-IsConsistent e before after (labeled l r hc hl valid known has same) h =
      subst IsConsistent (sym same) (record {
        distinct = rw (route_ids-put_label l before) h.distinct;
        records = put_label-IsRecord l before r valid known has h.records;
      })

  materialize_from-IsConsistent :
      (es : List (Event F)) (before last : Dataset F)
      → materialize_from es before ≡ replayed last
      → IsConsistent before
      → IsConsistent last
  unfolding materialize_from
  materialize_from-IsConsistent [] before last h consistent =
      let same : before ≡ last = cc h in subst IsConsistent same consistent
  materialize_from-IsConsistent (e ∷ es) before last h consistent =
      let (after, added, run) = materialize_from-Added e es before last h in
      materialize_from-IsConsistent es after last run
        (Added-IsConsistent e before after added consistent)

  -- In a replayed dataset no two routes share an id, every comparison is valid, and every label is
  -- valid, belongs to its route and stands under its candidate, which the route offered.
  pub materialize-IsConsistent :
      (events : List (Event F)) (dataset : Dataset F)
      → materialize events ≡ replayed dataset
      → IsConsistent dataset
  unfolding materialize
  materialize-IsConsistent events dataset h =
      materialize_from-IsConsistent events [] dataset h
        (record { distinct = Nodup-nil; records = tt })
