-- ===== src/Router/Registry.antt =====
-- pkg/router/registry.go and source.go: the catalog of models, and the registry.
pub mod Lookup
use veto.Shared.{
  String, false, Option, none, some, List, [], ◌∷◌, length, nat_eq, filter, map, if◌then◌else◌,
}
use veto.Shared.Int.{ℤ, pos}
use veto.Shared.Float.{Float64}
use veto.Shared.Text.{◌==◌, contains}
use veto.Router.Types.{
  ModelCapabilities, RoutingSignal, TaskKind, kind_extract, kind_summarize, kind_code_change,
  kind_debug, kind_plan, kind_review, kind_refactor,
}

abbrev tier_small : String
tier_small = "small"

abbrev tier_mid : String
tier_mid = "mid"

abbrev tier_large : String
tier_large = "large"

abbrev four_tools : List String
four_tools = "bash" ∷ "read" ∷ "write" ∷ "edit" ∷ []

abbrev five_tools : List String
five_tools = "bash" ∷ "read" ∷ "write" ∷ "edit" ∷ "web-search" ∷ []

-- Registry
pub record Registry (F : Type 0) : Type 0 where
  pub models : List (ModelCapabilities F)

module _ {F : Type 0} ⦃fl : Float64 F⦄ where
  -- One entry of the catalog: the fields that it does not set are zero.
  abbrev entry :
      String
      → String
      → String
      → String
      → ℤ
      → List String
      → F
      → F
      → List TaskKind
      → List TaskKind
      → ModelCapabilities F
  entry name provider api_model tier context tools input output strengths weaknesses = record {
    name = name;
    source = "";
    provider = provider;
    api_model = api_model;
    runtime = "";
    tier = tier;
    max_context_tokens = context;
    supports_tools = some tools;
    input_modalities = none;
    output_modalities = none;
    supported_parameters = none;
    cost_per_1k_input_usd = input;
    cost_per_1k_output_usd = output;
    cost_per_1k_input_unknown = false;
    cost_per_1k_output_unknown = false;
    strengths = strengths;
    weaknesses = weaknesses;
  }

  unfoldable pub catalog : List (ModelCapabilities F)
  catalog =
      entry "haiku" "anthropic" "claude-haiku-4-5-20251001" tier_small (pos 200_000) four_tools
        (fl.lit 25 5) (fl.lit 125 5) (kind_extract ∷ kind_summarize ∷ kind_code_change ∷ [])
        (kind_debug ∷ kind_plan ∷ [])
      ∷ entry "sonnet" "anthropic" "claude-sonnet-4-6" tier_mid (pos 200_000) five_tools
          (fl.lit 3 3) (fl.lit 15 3) (kind_code_change ∷ kind_review ∷ kind_refactor ∷ []) []
      ∷ entry "opus" "anthropic" "claude-opus-4-8" tier_large (pos 200_000)
          ("bash" ∷ "read" ∷ "write" ∷ "edit" ∷ "web-search" ∷ "computer-use" ∷ []) (fl.lit 15 3)
          (fl.lit 75 3) (kind_debug ∷ kind_plan ∷ kind_code_change ∷ kind_refactor ∷ []) []
      ∷ entry "codex" "codex" "default" tier_large (pos 0) five_tools (fl.lit 0 0) (fl.lit 0 0)
          (kind_code_change ∷ kind_review ∷ kind_refactor ∷ kind_debug ∷ kind_plan ∷ []) []
      ∷ entry "gpt-4.1" "openai" "gpt-4.1" tier_mid (pos 1_047_576) five_tools (fl.lit 2 3)
          (fl.lit 8 3) (kind_code_change ∷ kind_review ∷ kind_refactor ∷ []) []
      ∷ entry "gpt-4.1-mini" "openai" "gpt-4.1-mini" tier_small (pos 1_047_576) four_tools
          (fl.lit 4 4) (fl.lit 16 4) (kind_extract ∷ kind_summarize ∷ [])
          (kind_debug ∷ kind_plan ∷ [])
      ∷ entry "sol" "openai" "gpt-5.6-sol" tier_large (pos 1_050_000) five_tools (fl.lit 5 3)
          (fl.lit 30 3) (kind_plan ∷ [])
          (kind_extract ∷ kind_summarize ∷ kind_code_change ∷ kind_debug ∷ kind_review
            ∷ kind_refactor ∷ [])
      ∷ entry "terra" "openai" "gpt-5.6-terra" tier_mid (pos 1_050_000) five_tools (fl.lit 25 4)
          (fl.lit 15 3) (kind_code_change ∷ kind_review ∷ kind_refactor ∷ []) []
      ∷ entry "luna" "openai" "gpt-5.6-luna" tier_small (pos 1_050_000) four_tools (fl.lit 1 3)
          (fl.lit 6 3) (kind_extract ∷ kind_summarize ∷ []) (kind_debug ∷ kind_plan ∷ [])
      ∷ entry "meta-llama/llama-4-maverick" "openrouter" "meta-llama/llama-4-maverick" tier_large
          (pos 1_000_000) four_tools (fl.lit 2 4) (fl.lit 6 4) (kind_code_change ∷ kind_plan ∷ [])
          []
      ∷ entry "grok-3-mini" "xai" "grok-3-mini" tier_small (pos 131_072) four_tools (fl.lit 3 4)
          (fl.lit 5 4) (kind_extract ∷ kind_summarize ∷ kind_code_change ∷ [])
          (kind_debug ∷ kind_plan ∷ [])
      ∷ entry "grok-3" "xai" "grok-3" tier_mid (pos 131_072) five_tools (fl.lit 3 3) (fl.lit 15 3)
          (kind_code_change ∷ kind_review ∷ kind_refactor ∷ kind_debug ∷ []) []
      ∷ entry "grok-4.3" "xai" "grok-4.3" tier_large (pos 1_000_000) five_tools (fl.lit 125 5)
          (fl.lit 25 4)
          (kind_code_change ∷ kind_review ∷ kind_refactor ∷ kind_debug ∷ kind_plan ∷ []) []
      ∷ entry "grok-4.5" "xai" "grok-4.5" tier_large (pos 500_000) five_tools (fl.lit 2 3)
          (fl.lit 6 3)
          (kind_code_change ∷ kind_review ∷ kind_refactor ∷ kind_debug ∷ kind_plan ∷ []) []
      ∷ []

  -- StaticModelSource.Models
  unfoldable pub static_models : List (ModelCapabilities F)
  unfolding catalog
  static_models = map {A = ModelCapabilities F} (λ m. record m { source = "builtin" }) catalog

  -- NewRegistry
  unfoldable pub new_registry : Registry F
  unfolding static_models
  new_registry = record { models = static_models }

  -- NewRegistryFor
  unfoldable pub new_registry_for : List String → Registry F
  unfolding new_registry catalog contains
  new_registry_for names =
      if nat_eq (length names) 0
      then new_registry
      else record { models = filter (λ m. contains names m.name) catalog }

  -- Registry.Signal
  abbrev pub neutral_signal : RoutingSignal F
  neutral_signal = record {
    historical_success_rate = fl.lit 5 1;
    historical_reject_rate = fl.lit 1 1;
    avg_eval_score = fl.lit 7 1;
    eval_score_known = false;
    recent_cost_usd = fl.lit 0 0;
    recent_latency_ms = fl.lit 0 0;
    avg_input_tokens = fl.lit 0 0;
    avg_output_tokens = fl.lit 0 0;
    avg_total_tokens = fl.lit 0 0;
    usage_known = false;
    cost_known = false;
    latency_known = false;
  }

-- Registry.ByName
unfoldable pub by_name :
    {F : Type 0} → List (ModelCapabilities F) → String → Option (ModelCapabilities F)
by_name [] name = none
by_name (m ∷ ms) name = let rest = by_name ms name in if m.name == name then some m else rest
