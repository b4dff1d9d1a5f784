-- ===== src/Shadow/Replay/Latest.antt =====
-- Materialize as a function of the stream: its comparisons in order, with the last label of each
-- candidate.
use mathlib.Core.Path.{subst}
use veto.Shared.{
  ◌≡◌, refl, sym, ap, ◌∙◌, String, Bool, ◌&&◌, Option, none, some, is_some, List, [], ◌∷◌, ◌++◌,
  map, arith, Bool-cases, Option-cases, inl, inr, if◌then◌else◌,
}
use veto.Shared.Float.{Float64}
use veto.Shared.Text.{◌==◌, Unicode, eq_iff}
use veto.Shared.Dict.{get, get-set}
use veto.Shadow.Records.{RouteComparison, ExecutionLabel, Event, RouteRecord, Dataset}
use veto.Shadow.Replay.{replayed, record_of, put_label, materialize_from, materialize}
use veto.Shadow.Replay.Steps.{Added, compared, labeled, unlabeled, materialize_from-Added}
use mathlib.Core.List.{append_assoc, append-nil, map-append}

module _ {F : Type 0} where
  abbrev pub comparisons : Dataset F → List (RouteComparison F)
  comparisons dataset = map (λ (r : RouteRecord F). r.comparison) dataset

  -- The comparisons of a stream, in its order.
  abbrev pub compared_in : List (Event F) → List (RouteComparison F)
  compared_in [] = []
  compared_in (e ∷ es) = elim e.comparison [ none ↦ compared_in es | some c ↦ c ∷ compared_in es ]

  -- The label of a candidate in the dataset.
  abbrev pub label_of : String → String → Dataset F → Option (ExecutionLabel F)
  label_of route key dataset = elim (record_of route dataset) [
    | none ↦ none
    | some r ↦ get key r.labels
  ]

  abbrev pub is_about : String → String → ExecutionLabel F → Bool
  is_about route key l = l.route_id == route && l.candidate == key

  -- The last label of a candidate in a stream, or the one before the stream.
  abbrev pub latest :
      String → String → List (Event F) → Option (ExecutionLabel F) → Option (ExecutionLabel F)
  latest route key [] before = before
  latest route key (e ∷ es) before =
      latest route key es
        (elim e.label [ none ↦ before | some l ↦ if is_about route key l then some l else before ])

  compared_in-cons :
      (e : Event F) (es : List (Event F))
      → compared_in (e ∷ es) ≡ compared_in (e ∷ []) ++ compared_in es
  compared_in-cons e es = elim (Option-cases e.comparison) [
    | inl without ↦ rw without refl
    | inr (c, has) ↦ rw has refl
  ]

  comparisons-put_label :
      (l : ExecutionLabel F) (d : Dataset F) → comparisons (put_label l d) ≡ comparisons d
  unfolding put_label
  comparisons-put_label l [] = refl
  comparisons-put_label l (r ∷ d) = elim (Bool-cases (r.comparison.route_id == l.route_id)) [
    | inl here ↦ rw here refl
    | inr there ↦ rw there (ap (◌∷◌ r.comparison) (comparisons-put_label l d))
  ]

  label_of-put_label :
      (route key : String) (l : ExecutionLabel F) (d : Dataset F)
      → label_of route key (put_label l d) ≡ (
          if is_about route key l && is_some (record_of l.route_id d)
          then some l
          else label_of route key d)
  unfolding put_label record_of
  label_of-put_label route key l [] = ground arith
  label_of-put_label route key l (r ∷ d) = ground (
    arith,
    label_of-put_label route key l d,
    get-set key l.candidate l r.labels,
    eq_iff r.comparison.route_id l.route_id,
    eq_iff r.comparison.route_id route,
    eq_iff l.route_id route,
  )

  label_of-append :
      (route key : String) (c : RouteComparison F) (d : Dataset F)
      → label_of route key (d ++ unlabeled c ∷ []) ≡ label_of route key d
  unfolding record_of get
  label_of-append route key c [] = ground arith
  label_of-append route key c (r ∷ d) = ground (arith, label_of-append route key c d)

module _ {F : Type 0} ⦃fl : Float64 F⦄ ⦃u : Unicode⦄ where
  -- What Materialize is to make of a stream, from a dataset on.
  pub record IsReplay (es : List (Event F)) (before last : Dataset F) : Type 0 where
    pub in_order : comparisons last ≡ comparisons before ++ compared_in es
    pub labels :
        (route key : String)
        → label_of route key last ≡ latest route key es (label_of route key before)

  Added-IsReplay :
      (e : Event F) (before after : Dataset F)
      → Added e before after
      → IsReplay (e ∷ []) before after
  Added-IsReplay e before after (compared c hc hl valid new same) = record {
    in_order =
        ap comparisons same
        ∙ map-append (λ (r : RouteRecord F). r.comparison) before (unlabeled c ∷ [])
        ∙ rw hc refl;
    labels =
        λ route key. ap (label_of route key) same ∙ label_of-append route key c before ∙ rw hl refl;
  }
  Added-IsReplay e before after (labeled l r hc hl valid known has same) = record {
    in_order =
        ap comparisons same
        ∙ comparisons-put_label l before
        ∙ rw hc (sym (append-nil (comparisons before)));
    labels = λ route key.
        ap (label_of route key) same
        ∙ label_of-put_label route key l before
        ∙ rw hl (rw known (ground arith));
  }

  materialize_from-IsReplay :
      (es : List (Event F)) (before last : Dataset F)
      → materialize_from es before ≡ replayed last
      → IsReplay es before last
  unfolding materialize_from
  materialize_from-IsReplay [] before last h =
      let same : before ≡ last = cc h in
      subst (λ x. IsReplay [] before x) same
        (record { in_order = sym (append-nil (comparisons before)); labels = λ route key. refl })
  materialize_from-IsReplay (e ∷ es) before last h =
      let (after, added, run) = materialize_from-Added e es before last h in
      let one = Added-IsReplay e before after added in
      let rest = materialize_from-IsReplay es after last run in
      record {
        in_order =
            rest.in_order
            ∙ ap (λ cs. cs ++ compared_in es) one.in_order
            ∙ append_assoc (comparisons before) (compared_in (e ∷ [])) (compared_in es)
            ∙ ap (λ cs. comparisons before ++ cs) (sym (compared_in-cons e es));
        labels =
            λ route key. rest.labels route key ∙ ap (latest route key es) (one.labels route key);
      }

  -- Materialize of a stream that it accepts has the comparisons of the stream in their order, and the
  -- label of a route's candidate is the last one in the stream, or none where the stream has none.
  pub materialize-latest :
      (events : List (Event F)) (dataset : Dataset F)
      → materialize events ≡ replayed dataset
      → (comparisons dataset ≡ compared_in events)
        × ((route key : String) → label_of route key dataset ≡ latest route key events none)
  unfolding materialize record_of
  materialize-latest events dataset h =
      let r = materialize_from-IsReplay events [] dataset h in (r.in_order, r.labels)
