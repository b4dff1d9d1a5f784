-- ===== src/Router/Shadowing/Decisions.antt =====
-- What ShadowingDecisionEngine of pkg/router/shadow.go leaves after a sequence of decisions: its memory
-- and the comparisons of its recorder.
use mathlib.Core.List.{Mem}
use veto.Shared.{◌≡◌, ◌⊎◌, String, Option, some, List, [], ◌∷◌, ◌++◌, length}
use veto.Shared.Int.{ℤ}
use veto.Shared.Float.{Float64}
use veto.Router.Decision.{DecisionRequest}
use veto.Router.Shadowing.{ShadowComparisonRecord, ShadowingEngine, ShadowMemory, decide_shadowing}
use veto.Router.Shadowing.Bounds.{IsBounded}

-- A name that a comparison may give: none, or one of its keys.
abbrev pub IsKey : String → List String → Type 0
IsKey name keys = (name ≡ "") ⊎ Mem name keys

module _ {F : Type 0} ⦃fl : Float64 F⦄ where
  -- A comparison of the request: with its kind and risk, and one key for each of its candidates, and
  -- both sides choose one of the keys or nothing.
  pub record IsObserved (request : DecisionRequest F) (c : ShadowComparisonRecord F) : Type 0 where
    pub kind : c.task_kind ≡ request.task.kind
    pub risk : c.risk ≡ request.task.risk
    pub keys : length c.candidates ≡ length request.candidates
    pub authority : IsKey c.authority.selected_candidate c.candidates
    pub shadow : IsKey c.shadow.selected_candidate c.candidates

  -- One comparison for each of the requests, in order.
  abbrev pub AreObserved : List (DecisionRequest F × ℤ) → List (ShadowComparisonRecord F) → Type 0
  AreObserved [] [] = Unit
  AreObserved [] (c ∷ cs) = ⊥
  AreObserved (asked ∷ requests) [] = ⊥
  AreObserved (asked ∷ requests) (c ∷ cs) = IsObserved asked.0 c × AreObserved requests cs

  module _ {W : Type 0} (e : ShadowingEngine F W) where
    -- A recorder that keeps the comparisons, in order.
    abbrev pub keeping : Option (
        ShadowComparisonRecord F
        → List (ShadowComparisonRecord F)
        → List (ShadowComparisonRecord F))
    keeping = some (λ c cs. cs ++ c ∷ [])

    abbrev pub EngineState : Type 0
    EngineState = W × ShadowMemory (List (ShadowComparisonRecord F))

    -- Decisions one after the other, each with its limit.
    unfoldable pub decide_all : List (DecisionRequest F × ℤ) → EngineState → EngineState
    unfolding decide_shadowing
    decide_all [] s = s
    decide_all ((request, limit) ∷ rest) s =
        decide_all rest (decide_shadowing e keeping request limit s).world

    -- What a sequence of decisions adds to the comparisons, and the bound on the memory.
    abbrev pub Observes : List (DecisionRequest F × ℤ) → EngineState → EngineState → Type 0
    Observes requests before after =
        (seen : List (ShadowComparisonRecord F)) × (after.1.recorder ≡ before.1.recorder ++ seen)
        × AreObserved requests seen
        × IsBounded after.1.keys
