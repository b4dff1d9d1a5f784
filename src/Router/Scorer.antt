-- ===== src/Router/Scorer.antt =====
-- pkg/router/scorer.go: the score of a candidate, and the ranking by it.
use Prim.Native.Nat.{Ordering}
use Prim.Native.String.{compare}
pub mod Ranking
use veto.Shared.{ℕ, String, Bool, true, false, not, List, [], ◌∷◌, map, if◌then◌else◌}
use veto.Shared.Float.{Float64, fzero, le, gt, fcompare}
use veto.Shared.Order.{or_else}
use veto.Shared.Sort.{sort}
use veto.Shared.Text.{contains}
use veto.Router.Types.{TaskSpec, ModelCapabilities, RoutingSignal, TaskKind}
use veto.Router.Filter.{cost_known, estimated_cost, hard_filter}

pub record Scored (F : Type 0) : Type 0 where
  pub model : ModelCapabilities F
  pub score : F

module _ {F : Type 0} ⦃fl : Float64 F⦄ where
  -- Go's built-in `max` on float64, up to the sign of zero: NaN if an argument is NaN.
  abbrev fmax : F → F → F
  fmax a b = if fl.is_nan a then a else if fl.is_nan b then b else if fl.lt a b then b else a

  unfoldable pub kind_match : ModelCapabilities F → TaskKind → F
  kind_match m kind =
      if contains m.strengths kind
      then fl.lit 1 0
      else if contains m.weaknesses kind
      then fzero
      else fl.lit 5 1

  -- The branch of costFit that has a ceiling.
  unfoldable pub cost_fit_below : F → F → F
  cost_fit_below ceiling est =
      if le ceiling est then fzero else fl.sub (fl.lit 1 0) (fl.div est ceiling)

  unfoldable pub cost_fit : ModelCapabilities F → TaskSpec F → F
  unfolding cost_fit_below
  cost_fit m task =
      if not (cost_known m)
      then fl.lit 5 2
      else if gt task.max_cost_usd fzero
      then cost_fit_below task.max_cost_usd (estimated_cost m task)
      else if le m.cost_per_1k_input_usd fzero
      then fl.lit 1 0
      else fmax (fl.lit 5 2) (fl.sub (fl.lit 1 0) (fl.div m.cost_per_1k_input_usd (fl.lit 15 3)))

  unfoldable pub score : TaskSpec F → ModelCapabilities F → RoutingSignal F → F
  score task model signal =
      let kind_score = kind_match model task.kind in
      let cost_score = cost_fit model task in
      let reject_score = fl.sub (fl.lit 1 0) signal.historical_reject_rate in
      fl.add
        (fl.add
          (fl.add
            (fl.add (fl.mul kind_score (fl.lit 20 2))
              (fl.mul signal.historical_success_rate (fl.lit 25 2)))
            (fl.mul cost_score (fl.lit 35 2)))
          (fl.mul reject_score (fl.lit 10 2)))
        (fl.mul signal.avg_eval_score (fl.lit 10 2))

  -- The callback of slices.SortFunc: the higher score first, then the name.
  abbrev pub compare_scored : Scored F → Scored F → Ordering
  compare_scored a b = or_else (fcompare b.score a.score) (compare a.model.name b.model.name)

  abbrev pub scored :
      TaskSpec F → (String → TaskKind → RoutingSignal F) → ModelCapabilities F → Scored F
  scored task signals m = record { model = m; score = score task m (signals m.name task.kind) }

  -- RankCandidates
  unfoldable pub rank_candidates :
      TaskSpec F
      → List (ModelCapabilities F)
      → (String → TaskKind → RoutingSignal F)
      → List (ModelCapabilities F)
  rank_candidates task models signals =
      map (λ s. s.model) (sort compare_scored (map (scored task signals) (hard_filter task models)))
