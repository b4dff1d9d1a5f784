-- ===== src/Router/Scorer/Ranking.antt =====
-- What RankCandidates returns: the hard filter's survivors, the best score first.
use mathlib.Core.List.{Perm}
use Prim.Native.Nat.{Ordering}
use Prim.Native.String.{compare}
use veto.Shared.{String, ◌≡◌, refl, ◌∙◌, ap, List, [], ◌∷◌, map}
use veto.Shared.Float.{Float64, IsIeee, fcompare}
use veto.Shared.Order.{
  or_else, IsComparison, or_else-IsComparison, dual-IsComparison, comap-IsComparison,
  fcompare-IsComparison, string-IsComparison,
}
use veto.Shared.Sort.{sort, IsSorted, sort-perm, sort-IsSorted, sort-map}
use veto.Router.Types.{TaskSpec, ModelCapabilities, RoutingSignal, TaskKind}
use veto.Router.Filter.{hard_filter}
use veto.Router.Scorer.{Scored, compare_scored, scored, rank_candidates, score}

module _ {F : Type 0} ⦃fl : Float64 F⦄ where
  -- The order of the ranking: the higher score first, and the name where the scores are equal.
  abbrev pub compare_models :
      TaskSpec F
      → (String → TaskKind → RoutingSignal F)
      → ModelCapabilities F
      → ModelCapabilities F
      → Ordering
  compare_models task signals a b =
      or_else
        (fcompare (score task b (signals b.name task.kind))
          (score task a (signals a.name task.kind)))
        (compare a.name b.name)

  map-model :
      (task : TaskSpec F) (signals : String → TaskKind → RoutingSignal F)
      (ms : List (ModelCapabilities F))
      → map (λ (s : Scored F). s.model) (map (scored task signals) ms) ≡ ms
  map-model task signals [] = refl
  map-model task signals (m ∷ ms) = ap (◌∷◌ m) (map-model task signals ms)

  pub rank_candidates-eq-sort :
      (task : TaskSpec F) (models : List (ModelCapabilities F))
      (signals : String → TaskKind → RoutingSignal F)
      → rank_candidates task models signals
        ≡ sort (compare_models task signals) (hard_filter task models)
  unfolding rank_candidates
  rank_candidates-eq-sort task models signals =
      ap (map (λ s. s.model))
        (sort-map (scored task signals) compare_scored (hard_filter task models))
      ∙ map-model task signals (sort (compare_models task signals) (hard_filter task models))

  compare_models-IsComparison :
      IsIeee F
      → (task : TaskSpec F) (signals : String → TaskKind → RoutingSignal F)
      → IsComparison (compare_models task signals)
  compare_models-IsComparison laws task signals =
      or_else-IsComparison _ _
        (comap-IsComparison (λ m. score task m (signals m.name task.kind)) (λ a b. fcompare b a)
          (dual-IsComparison (fcompare-IsComparison laws)))
        (comap-IsComparison (λ m. m.name) compare string-IsComparison)

  -- RankCandidates returns each survivor of the hard filter exactly as often as the filter does,
  -- in the order of descending score, and of names where scores are equal, given the laws of
  -- float64 comparison.
  pub rank_candidates-IsRanking :
      IsIeee F
      → (task : TaskSpec F) (models : List (ModelCapabilities F))
        (signals : String → TaskKind → RoutingSignal F)
      → Perm (rank_candidates task models signals) (hard_filter task models)
        × IsSorted (compare_models task signals) (rank_candidates task models signals)
  rank_candidates-IsRanking laws task models signals =
      let cmp = compare_models task signals in
      let survivors = hard_filter task models in
      rw rank_candidates-eq-sort (
        sort-perm cmp survivors,
        sort-IsSorted cmp (compare_models-IsComparison laws task signals) survivors,
      )
