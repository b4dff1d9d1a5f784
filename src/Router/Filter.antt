-- ===== src/Router/Filter.antt =====
-- pkg/router/filter.go: the hard filter, and the reason that it gives for a model.
pub mod Capable
use veto.Shared.{
  ℕ, String, Bool, true, false, not, ◌&&◌, ◌||◌, Option, none, some, List, [], ◌∷◌, length, ltb,
  filter, if◌then◌else◌,
}
use veto.Shared.Int.{ℤ, pos, is_positive, ltb_ℤ}
use veto.Shared.Float.{Float64, fzero, gt}
use veto.Shared.Text.{◌==◌, contains}
use veto.Router.Types.{
  TaskSpec, ModelCapabilities, TaskKind, reason_missing_tool, reason_context_too_large,
  reason_cost_ceiling, reason_complexity_ceiling, reason_weak_kind,
}
use veto.Router.Complexity.{tier_meets_complexity}

-- A slice as the list of its elements.
abbrev pub elements {ℓ} : {A : Type ℓ} → Option (List A) → List A
elements none = []
elements (some xs) = xs

module _ {F : Type 0} where
  unfoldable pub has_executable_tools : ModelCapabilities F → Bool
  has_executable_tools m = elim m.supports_tools [ none ↦ true | some tools ↦ ltb 0 (length tools) ]

  unfoldable pub has_required_tools : ModelCapabilities F → List String → Bool
  unfolding contains
  has_required_tools m [] = true
  has_required_tools m (req ∷ required) =
      if not (contains (elements m.supports_tools) req)
      then false
      else has_required_tools m required

  unfoldable pub context_known : ModelCapabilities F → Bool
  context_known m = is_positive m.max_context_tokens

  unfoldable pub cost_known : ModelCapabilities F → Bool
  cost_known m = not m.cost_per_1k_input_unknown && not m.cost_per_1k_output_unknown

  unfoldable pub is_weak_kind : ModelCapabilities F → TaskKind → Bool
  unfolding contains
  is_weak_kind m kind = contains m.weaknesses kind

module _ {F : Type 0} ⦃fl : Float64 F⦄ where
  unfoldable pub estimated_cost : ModelCapabilities F → TaskSpec F → F
  estimated_cost m task =
      let input =
        if is_positive task.max_tokens then fl.of_int task.max_tokens else fl.lit 1000 0 in
      let output = fl.div input (fl.lit 10 0) in
      fl.add (fl.mul (fl.div input (fl.lit 1000 0)) m.cost_per_1k_input_usd)
        (fl.mul (fl.div output (fl.lit 1000 0)) m.cost_per_1k_output_usd)

  -- The body of HardFilter's loop: `false` is `continue`.
  unfoldable pub passes_hard_filter : TaskSpec F → ModelCapabilities F → Bool
  passes_hard_filter task m =
      if task.requires_executable_tools && not (has_executable_tools m)
      then false
      else if not (has_required_tools m task.required_tools)
      then false
      else if is_positive task.max_tokens
          && (not (context_known m) || ltb_ℤ m.max_context_tokens task.max_tokens)
      then false
      else if gt task.max_cost_usd fzero
          && (not (cost_known m) || gt (estimated_cost m task) task.max_cost_usd)
      then false
      else if not (tier_meets_complexity m.tier task.complexity)
      then false
      else if is_weak_kind m task.kind
      then false
      else true

  -- HardFilter
  unfoldable pub hard_filter : TaskSpec F → List (ModelCapabilities F) → List (ModelCapabilities F)
  hard_filter task models = filter (passes_hard_filter task) models

  -- FilterReason
  unfoldable pub filter_reason : ModelCapabilities F → TaskSpec F → String
  filter_reason m task =
      if task.requires_executable_tools && not (has_executable_tools m)
      then reason_missing_tool
      else if not (has_required_tools m task.required_tools)
      then reason_missing_tool
      else if is_positive task.max_tokens
          && (not (context_known m) || ltb_ℤ m.max_context_tokens task.max_tokens)
      then reason_context_too_large
      else if gt task.max_cost_usd fzero
          && (not (cost_known m) || gt (estimated_cost m task) task.max_cost_usd)
      then reason_cost_ceiling
      else if not (tier_meets_complexity m.tier task.complexity)
      then reason_complexity_ceiling
      else if is_weak_kind m task.kind
      then reason_weak_kind
      else ""
