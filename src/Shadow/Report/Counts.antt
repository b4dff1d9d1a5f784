-- ===== src/Shadow/Report/Counts.antt =====
-- The counts of a report fit together.
use mathlib.Core.Path.{subst}
use veto.Shared.{
  ℕ, suc, ◌+◌, ◌≤◌, ◌≡◌, refl, String, true, Option, none, some, List, [], ◌∷◌, length,
  length-append, arith, Option-cases, inl, inr,
}
use veto.Shared.Float.{Float64}
use veto.Shared.Dict.{get, set}
use veto.Shadow.Records.{DecisionEvidence, ExecutionLabel, RouteRecord, Dataset}
use veto.Shadow.Report.{
  DecisionSample, Side, Tally, is_selected, selected_label, increment_kind, tally_side, tally_route,
  tally_routes, no_side, no_tally,
}

abbrev pub sum_counts : List (String × ℕ) → ℕ
sum_counts [] = 0
sum_counts ((k, n) ∷ counts) = n + sum_counts counts

sum_counts-set :
    (kind : String) (counts : List (String × ℕ))
    → (get kind counts ≡ none → sum_counts (set kind 1 counts) ≡ suc (sum_counts counts))
      × ((n : ℕ)
          → get kind counts ≡ some n
          → sum_counts (set kind (suc n) counts) ≡ suc (sum_counts counts))
unfolding get set
sum_counts-set kind [] = (λ h. omega arith, λ n h. ground arith)
sum_counts-set kind ((k, m) ∷ counts) =
    let (absent, present) = sum_counts-set kind counts in
    (λ h. ground (arith, absent), λ n h. ground (arith, present n))

sum_counts-increment_kind :
    (kind : String) (counts : List (String × ℕ))
    → sum_counts (increment_kind kind counts) ≡ suc (sum_counts counts)
unfolding increment_kind
sum_counts-increment_kind kind counts =
    let (absent, present) = sum_counts-set kind counts in
    elim (Option-cases (get kind counts)) [
      | inl e ↦ rw (e, increment_kind) (absent e)
      | inr (n, e) ↦ rw (e, increment_kind) (present n e)
    ]

module _ {F : Type 0} where
  -- The counts of one decision: its labels are among its selections, and each has a sample.
  pub record IsSide (n : ℕ) (s : Side F) : Type 0 where
    pub labeled : s.labeled ≤ s.selections
    pub selections : s.selections ≤ n
    pub samples : length s.samples ≡ s.labeled
    pub latencies : length s.latencies ≤ n
    pub costs : length s.costs ≤ n

  -- The counts over `n` routes.
  pub record IsTally (n : ℕ) (t : Tally F) : Type 0 where
    pub authority : IsSide n t.authority
    pub shadow : IsSide n t.shadow
    pub kinds : sum_counts t.labeled_by_kind ≡ t.authority.labeled
    pub agreements : t.agreements ≤ t.comparable
    pub comparable : t.comparable + t.shadow_failures ≤ n
    pub fallbacks : t.fallbacks ≤ n

module _ {F : Type 0} ⦃fl : Float64 F⦄ where
  -- Only a selected candidate has a label.
  selected_label-selected :
      (d : DecisionEvidence F) (labels : List (String × ExecutionLabel F)) (l : ExecutionLabel F)
      → selected_label d labels ≡ some l
      → is_selected d.status ≡ true
  unfolding selected_label
  selected_label-selected d labels l h = ground (arith, h)

  tally_side-IsSide :
      (n : ℕ) (d : DecisionEvidence F) (label : Option (ExecutionLabel F)) (s : Side F)
      → ((l : ExecutionLabel F) → label ≡ some l → is_selected d.status ≡ true)
      → IsSide n s
      → IsSide (suc n) (tally_side d label s)
  unfolding tally_side
  tally_side-IsSide n d none s f h = record {
    labeled = ground (arith, h.labeled);
    selections = ground (arith, h.selections);
    samples = h.samples;
    latencies =
        ground (
          arith,
          h.latencies,
          length-append s.latencies (fl.of_int d.telemetry.latency.millis ∷ []),
        );
    costs = ground (arith, h.costs, length-append s.costs (d.telemetry.cost_usd.value ∷ []));
  }
  tally_side-IsSide n d (some l) s f h = record {
    labeled = ground (arith, h.labeled, f l refl);
    selections = ground (arith, h.selections);
    samples = omega (arith, h.samples, length-append s.samples (sample ∷ []));
    latencies =
        ground (
          arith,
          h.latencies,
          length-append s.latencies (fl.of_int d.telemetry.latency.millis ∷ []),
        );
    costs = ground (arith, h.costs, length-append s.costs (d.telemetry.cost_usd.value ∷ []));
  }
    where
      sample : DecisionSample F
      sample = record {
        probability = d.probability;
        confidence = d.confidence;
        success = l.success;
      }

  kinds-count :
      (label : Option (ExecutionLabel F)) (d : DecisionEvidence F) (kind : String)
      (counts : List (String × ℕ)) (s : Side F)
      → sum_counts counts ≡ s.labeled
      → sum_counts (elim label [ none ↦ counts | some l ↦ increment_kind kind counts ])
        ≡ (tally_side d label s).labeled
  unfolding tally_side
  kinds-count none d kind counts s h = h
  kinds-count (some l) d kind counts s h = omega (arith, h, sum_counts-increment_kind kind counts)

  tally_route-IsTally :
      (threshold : F) (n : ℕ) (r : RouteRecord F) (t : Tally F)
      → IsTally n t
      → IsTally (suc n) (tally_route threshold r t)
  unfolding tally_route
  tally_route-IsTally threshold n r t h =
      let a = r.comparison.authority in
      let s = r.comparison.shadow in
      record {
        authority =
            tally_side-IsSide n a (selected_label a r.labels) t.authority
              (selected_label-selected a r.labels) h.authority;
        shadow =
            tally_side-IsSide n s (selected_label s r.labels) t.shadow
              (selected_label-selected s r.labels) h.shadow;
        kinds =
            kinds-count (selected_label a r.labels) a r.comparison.task_kind t.labeled_by_kind
              t.authority h.kinds;
        agreements = ground (arith, h.agreements);
        comparable = ground (arith, h.comparable);
        fallbacks = ground (arith, h.fallbacks);
      }

  tally_routes-after :
      (threshold : F) (rs : Dataset F) (n : ℕ) (t : Tally F)
      → IsTally n t
      → IsTally (n + length rs) (tally_routes threshold rs t)
  unfolding tally_routes
  tally_routes-after threshold [] n t h = subst (λ k. IsTally k t) (omega arith) h
  tally_routes-after threshold (r ∷ rs) n t h =
      subst (λ k. IsTally k (tally_routes threshold rs (tally_route threshold r t))) (omega arith)
        (tally_routes-after threshold rs (suc n) (tally_route threshold r t)
          (tally_route-IsTally threshold n r t h))

  -- The counts of Evaluate over a dataset fit together: labels are among the selections and each
  -- gives one sample, the counts per kind add up to the labeled routes, agreements are among the
  -- comparable routes, which with the shadow's failures are among all routes, and so are fallbacks
  -- and measurements.
  pub tally_routes-IsTally :
      (threshold : F) (rs : Dataset F) → IsTally (length rs) (tally_routes threshold rs no_tally)
  tally_routes-IsTally threshold rs =
      subst (λ k. IsTally k (tally_routes threshold rs no_tally)) (omega arith)
        (tally_routes-after threshold rs 0 no_tally empty)
    where
      empty_side : IsSide 0 (no_side {F = F})
      empty_side = record {
        labeled = omega arith;
        selections = omega arith;
        samples = refl;
        latencies = omega arith;
        costs = omega arith;
      }

      empty : IsTally 0 (no_tally {F = F})
      empty = record {
        authority = empty_side;
        shadow = empty_side;
        kinds = refl;
        agreements = omega arith;
        comparable = omega arith;
        fallbacks = omega arith;
      }
