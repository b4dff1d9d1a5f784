-- ===== src/Router/Complexity.antt =====
-- pkg/router/complexity.go: how demanding a task is, and which tiers may take it.
use veto.Shared.{String, Bool, true, ◌||◌, List, [], ◌∷◌, if◌then◌else◌}
use veto.Shared.Int.{ℤ, pos, negsuc, ◌+ℤ◌, leb_ℤ}
use veto.Shared.Text.{◌==◌, Unicode, to_lower, includes}
use veto.Router.Types.{
  TaskKind, Complexity, kind_extract, kind_summarize, kind_debug, kind_plan, complexity_simple,
  complexity_moderate, complexity_complex,
}

abbrev pub high_complex_keywords : List String
high_complex_keywords =
    "cqrs" ∷ "event sourcing" ∷ "event-driven" ∷ "microservice" ∷ "microservices"
    ∷ "distributed system" ∷ "distributed architecture" ∷ "multi-tenant" ∷ []

abbrev pub med_complex_keywords : List String
med_complex_keywords =
    "architecture" ∷ "infrastructure" ∷ "distributed" ∷ "orchestrat" ∷ "production-grade"
    ∷ "production grade" ∷ "system design" ∷ "from scratch" ∷ "full system" ∷ "scalable"
    ∷ "enterprise" ∷ []

abbrev pub low_complex_keywords : List String
low_complex_keywords =
    "e2e" ∷ "end-to-end" ∷ "end to end" ∷ "infra" ∷ "pipeline" ∷ "service" ∷ "implement" ∷ "deploy"
    ∷ "integrate" ∷ "all codex comments" ∷ "all review comments" ∷ "all review threads" ∷ []

abbrev pub simple_keywords : List String
simple_keywords = "simple" ∷ "basic" ∷ "quick" ∷ "hello world" ∷ []

-- One of the four loops: `weight` for each keyword that the objective contains.
unfoldable pub add_weights : ℤ → String → List String → ℤ → ℤ
add_weights weight s [] score = score
add_weights weight s (kw ∷ kws) score =
    add_weights weight s kws (if includes s kw then score +ℤ weight else score)

unfoldable pub kind_weight : TaskKind → ℤ
kind_weight kind =
    if kind == kind_plan
    then pos 2
    else if kind == kind_debug
    then pos 1
    else if kind == kind_extract || kind == kind_summarize
    then negsuc 1
    else pos 0

unfoldable pub complexity_of_score : ℤ → Complexity
complexity_of_score score =
    if leb_ℤ (pos 4) score
    then complexity_complex
    else if leb_ℤ (pos 1) score
    then complexity_moderate
    else complexity_simple

unfoldable pub complexity_score : String → TaskKind → ℤ
unfolding add_weights kind_weight ◌+ℤ◌
complexity_score s kind =
    let high = add_weights (pos 3) s high_complex_keywords (pos 0) in
    let med = add_weights (pos 2) s med_complex_keywords high in
    let low = add_weights (pos 1) s low_complex_keywords med in
    let simple = add_weights (negsuc 1) s simple_keywords low in simple +ℤ kind_weight kind

-- InferComplexity
unfoldable pub infer_complexity : ⦃u : Unicode⦄ → String → TaskKind → Complexity
unfolding to_lower complexity_of_score complexity_score
infer_complexity objective kind = complexity_of_score (complexity_score (to_lower objective) kind)

unfoldable pub tier_meets_complexity : String → Complexity → Bool
tier_meets_complexity tier complexity =
    if complexity == complexity_complex
    then tier == "large"
    else if complexity == complexity_moderate
    then tier == "mid" || tier == "large"
    else true
