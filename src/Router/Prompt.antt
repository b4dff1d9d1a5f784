-- ===== src/Router/Prompt.antt =====
-- pkg/router/admission.go: the prompt of an admission check.
use veto.Shared.{String, Bool, true, false, not, Option, none, some, List, [], ◌∷◌, if◌then◌else◌}
use veto.Shared.Int.{ℤ, is_positive}
use veto.Shared.Text.{◌==◌, trim_space}
use veto.Router.Types.{TaskSpec, ModelCapabilities}

pub data ToolsLine : Type 0 where
  unresolved no_tools : ToolsLine
  listed : List String → ToolsLine

pub data RequiredLine : Type 0 where
  agent_runtime nothing : RequiredLine
  named : List String → RequiredLine

-- The prompt, as the values that its format puts in. A list stands for its elements joined by commas.
pub record AdmissionPrompt : Type 0 where
  pub name : String
  pub tier : String
  pub kind : String
  pub objective : String
  pub constraints : List String
  pub required : RequiredLine
  pub risk : String
  pub context_tokens : Option ℤ
  pub tools : ToolsLine

-- strings.Join(values, ", ") == "": no values, or the empty text alone
unfoldable pub joins_to_nothing : List String → Bool
joins_to_nothing [] = true
joins_to_nothing (x ∷ []) = x == ""
joins_to_nothing (x ∷ y ∷ rest) = false

module _ {F : Type 0} where
  -- buildAdmissionPromptWithToolStatus
  unfoldable pub build_admission_prompt :
      TaskSpec F → ModelCapabilities F → List String → Bool → AdmissionPrompt
  unfolding trim_space joins_to_nothing
  build_admission_prompt task model effective_tools tools_known = record {
    name = model.name;
    tier = model.tier;
    kind = task.kind;
    objective =
        if trim_space task.admission_objective == ""
        then task.objective
        else trim_space task.admission_objective;
    constraints = if joins_to_nothing task.constraints then "none" ∷ [] else task.constraints;
    required =
        if joins_to_nothing task.required_tools
        then if task.requires_executable_tools then agent_runtime else nothing
        else named task.required_tools;
    risk = task.risk;
    context_tokens =
        if is_positive model.max_context_tokens then some model.max_context_tokens else none;
    tools =
        if not tools_known
        then unresolved
        else elim effective_tools [ [] ↦ no_tools | tool ∷ tools ↦ listed (tool ∷ tools) ];
  }
