-- ===== src/Router/Filter/Capable.antt =====
-- What it takes to survive the hard filter, said without the filter's code.
use mathlib.Core.List.{Mem}
use mathlib.Core.Logic.Iff
use mathlib.Core.Path.{fun_ext}
use mathlib.Core.Bool.{false≢true}
use veto.Shared.{
  String, ◌≡◌, refl, sym, ◌∙◌, ap, ◌≢◌, ◌↔◌, ◌⊎◌, inl, inr, Bool, true, false, not, ◌&&◌, ◌||◌,
  some, List, [], ◌∷◌, arith, All, Bool-cases, filter, if◌then◌else◌,
}
use veto.Shared.Int.{pos, is_positive, ◌≤ℤ◌, ltb_ℤ}
use veto.Shared.Float.{Float64, fzero, gt}
use veto.Shared.Members.{contains_iff, mem-filter_iff}
use veto.Shared.Text.{◌==◌, eq_iff, contains}
use veto.Router.Types.{
  TaskSpec, ModelCapabilities, TaskKind, Complexity, reason_missing_tool, reason_context_too_large,
  reason_cost_ceiling, reason_complexity_ceiling, reason_weak_kind,
}
use veto.Router.Complexity.{tier_meets_complexity}
use veto.Router.Filter.{
  elements, has_executable_tools, has_required_tools, context_known, cost_known, is_weak_kind,
  estimated_cost, passes_hard_filter, hard_filter, filter_reason,
}

abbrev pub FitsTier : String → Complexity → Type 0
FitsTier tier complexity =
    (complexity ≡ "complex" → tier ≡ "large")
    × (complexity ≡ "moderate" → (tier ≡ "mid") ⊎ (tier ≡ "large"))

module _ {F : Type 0} ⦃fl : Float64 F⦄ where
  -- The model can take the task: nothing that the task asks for is beyond it.
  pub record IsCapable (task : TaskSpec F) (m : ModelCapabilities F) : Type 0 where
    pub executable : task.requires_executable_tools ≡ true → m.supports_tools ≢ some []
    pub tools : All (λ req. Mem req (elements m.supports_tools)) task.required_tools
    pub context :
        pos 1 ≤ℤ task.max_tokens
        → (pos 1 ≤ℤ m.max_context_tokens) × (task.max_tokens ≤ℤ m.max_context_tokens)
    pub cost :
        gt task.max_cost_usd fzero ≡ true
        → (m.cost_per_1k_input_unknown ≡ false)
          × (m.cost_per_1k_output_unknown ≡ false)
          × (gt (estimated_cost m task) task.max_cost_usd ≡ false)
    pub tier : FitsTier m.tier task.complexity
    pub kind : ¬ Mem task.kind m.weaknesses

  executable_iff :
      (task : TaskSpec F) (m : ModelCapabilities F)
      → (task.requires_executable_tools && not (has_executable_tools m) ≡ false)
        ↔ (task.requires_executable_tools ≡ true → m.supports_tools ≢ some [])
  unfolding has_executable_tools
  executable_iff task m = (λ h. ground arith, λ h. ground arith)

  required_iff :
      (m : ModelCapabilities F) (required : List String)
      → (not (has_required_tools m required) ≡ false)
        ↔ All (λ req. Mem req (elements m.supports_tools)) required
  unfolding has_required_tools
  required_iff m [] = (λ h. tt, λ h. refl)
  required_iff m (r ∷ rs) = (
    λ h. (
      (contains_iff (elements m.supports_tools) r).0 (ground arith),
      (required_iff m rs).0 (ground arith),
    ),
    λ h.
        ground
          (arith, (contains_iff (elements m.supports_tools) r).1 h.0, (required_iff m rs).1 h.1),
  )

  context_iff :
      (task : TaskSpec F) (m : ModelCapabilities F)
      → (is_positive task.max_tokens
            && (not (context_known m) || ltb_ℤ m.max_context_tokens task.max_tokens)
          ≡ false)
        ↔ (pos 1 ≤ℤ task.max_tokens
            → (pos 1 ≤ℤ m.max_context_tokens) × (task.max_tokens ≤ℤ m.max_context_tokens))
  unfolding context_known
  context_iff task m = (λ h. ground arith, λ h. ground arith)

  cost_iff :
      (task : TaskSpec F) (m : ModelCapabilities F)
      → (gt task.max_cost_usd fzero
            && (not (cost_known m) || gt (estimated_cost m task) task.max_cost_usd)
          ≡ false)
        ↔ (gt task.max_cost_usd fzero ≡ true
            → (m.cost_per_1k_input_unknown ≡ false)
              × (m.cost_per_1k_output_unknown ≡ false)
              × (gt (estimated_cost m task) task.max_cost_usd ≡ false))
  unfolding cost_known
  cost_iff task m = (λ h. ground arith, λ h. ground arith)

tier_iff :
    (tier : String) (complexity : Complexity)
    → (not (tier_meets_complexity tier complexity) ≡ false) ↔ FitsTier tier complexity
unfolding tier_meets_complexity
tier_iff tier complexity = (
  λ h. ground (
    arith,
    eq_iff complexity "complex",
    eq_iff complexity "moderate",
    eq_iff tier "large",
    eq_iff tier "mid",
  ),
  λ h. ground (
    arith,
    eq_iff complexity "complex",
    eq_iff complexity "moderate",
    eq_iff tier "large",
    eq_iff tier "mid",
  ),
)

-- Six tests in a row leave the empty reason just when all fail.
no_reason :
    (a b c d e f : Bool)
    → (if a
        then false
        else if b
        then false
        else if c
        then false
        else if d
        then false
        else if e
        then false
        else if f
        then false
        else true)
      ≡ ((if a
            then reason_missing_tool
            else if b
            then reason_missing_tool
            else if c
            then reason_context_too_large
            else if d
            then reason_cost_ceiling
            else if e
            then reason_complexity_ceiling
            else if f
            then reason_weak_kind
            else "")
          == "")
no_reason true b c d e f = refl
no_reason false true c d e f = refl
no_reason false false true d e f = refl
no_reason false false false true e f = refl
no_reason false false false false true f = refl
no_reason false false false false false true = refl
no_reason false false false false false false = refl

module _ {F : Type 0} ⦃fl : Float64 F⦄ where
  kind_iff :
      (m : ModelCapabilities F) (kind : TaskKind)
      → (is_weak_kind m kind ≡ false) ↔ (¬ Mem kind m.weaknesses)
  unfolding is_weak_kind
  kind_iff m kind = (
    λ h w. false≢true (sym h ∙ (contains_iff m.weaknesses kind).1 w),
    λ h. elim (Bool-cases (contains m.weaknesses kind)) [
      | inl e ↦ absurd (h ((contains_iff m.weaknesses kind).0 e))
      | inr e ↦ e
    ],
  )

  -- The six tests, read as one statement.
  AllPass : TaskSpec F → ModelCapabilities F → Type 0
  AllPass task m =
      (task.requires_executable_tools && not (has_executable_tools m) ≡ false)
      × (not (has_required_tools m task.required_tools) ≡ false)
      × (is_positive task.max_tokens
            && (not (context_known m) || ltb_ℤ m.max_context_tokens task.max_tokens)
          ≡ false)
      × (gt task.max_cost_usd fzero
            && (not (cost_known m) || gt (estimated_cost m task) task.max_cost_usd)
          ≡ false)
      × (not (tier_meets_complexity m.tier task.complexity) ≡ false)
      × (is_weak_kind m task.kind ≡ false)

  passes_iff_AllPass :
      (task : TaskSpec F) (m : ModelCapabilities F)
      → (passes_hard_filter task m ≡ true) ↔ AllPass task m
  unfolding passes_hard_filter AllPass
  passes_iff_AllPass task m = (λ h. ground arith, λ h. ground arith)

  AllPass-iff_IsCapable :
      (task : TaskSpec F) (m : ModelCapabilities F) → AllPass task m ↔ IsCapable task m
  unfolding AllPass
  AllPass-iff_IsCapable task m = (
    λ (e, r, x, c, t, k). record {
      executable = (executable_iff task m).0 e;
      tools = (required_iff m task.required_tools).0 r;
      context = (context_iff task m).0 x;
      cost = (cost_iff task m).0 c;
      tier = (tier_iff m.tier task.complexity).0 t;
      kind = (kind_iff m task.kind).0 k;
    },
    λ c. (
      (executable_iff task m).1 c.executable,
      (required_iff m task.required_tools).1 c.tools,
      (context_iff task m).1 c.context,
      (cost_iff task m).1 c.cost,
      (tier_iff m.tier task.complexity).1 c.tier,
      (kind_iff m task.kind).1 c.kind,
    ),
  )

  pub passes_iff :
      (task : TaskSpec F) (m : ModelCapabilities F)
      → (passes_hard_filter task m ≡ true) ↔ IsCapable task m
  passes_iff task m = Iff.trans (passes_iff_AllPass task m) (AllPass-iff_IsCapable task m)

  -- A model survives the hard filter exactly when it was offered and is capable of the task: it
  -- has the tools, a known and large enough context, a known cost within the ceiling and a tier
  -- for the complexity, and the kind of the task is not among its weaknesses.
  pub mem-hard_filter_iff :
      (task : TaskSpec F) (models : List (ModelCapabilities F)) (m : ModelCapabilities F)
      → Mem m (hard_filter task models) ↔ (Mem m models × IsCapable task m)
  unfolding hard_filter
  mem-hard_filter_iff task models m =
      let members = mem-filter_iff (passes_hard_filter task) m models in
      (
        λ h. let (a, b) = members.0 h in (a, (passes_iff task m).0 b),
        λ h. members.1 (h.0, (passes_iff task m).1 h.1),
      )

  passes-eq-no_reason :
      (task : TaskSpec F) (m : ModelCapabilities F)
      → passes_hard_filter task m ≡ (filter_reason m task == "")
  unfolding passes_hard_filter filter_reason
  passes-eq-no_reason task m =
      no_reason (task.requires_executable_tools && not (has_executable_tools m))
        (not (has_required_tools m task.required_tools))
        (is_positive task.max_tokens
          && (not (context_known m) || ltb_ℤ m.max_context_tokens task.max_tokens))
        (gt task.max_cost_usd fzero
          && (not (cost_known m) || gt (estimated_cost m task) task.max_cost_usd))
        (not (tier_meets_complexity m.tier task.complexity)) (is_weak_kind m task.kind)

  -- HardFilter keeps, in order, just the models for which FilterReason gives no reason.
  pub hard_filter-filter_reason :
      (task : TaskSpec F) (models : List (ModelCapabilities F))
      → hard_filter task models ≡ filter (λ m. filter_reason m task == "") models
  unfolding hard_filter
  hard_filter-filter_reason task models =
      ap (λ p. filter p models) (fun_ext (passes-eq-no_reason task))
