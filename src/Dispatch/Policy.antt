-- ===== src/Dispatch/Policy.antt =====
-- pkg/dispatch/policy.go: the fixed policy.
pub mod Choice
use Prim.Native.Nat.{Ordering}
use Prim.Native.String.{String, compare}
use veto.Shared.{
  ℕ, Bool, true, false, not, ◌&&◌, ◌||◌, Option, none, some, List, [], ◌∷◌, ◌++◌, filter,
  if◌then◌else◌,
}
use veto.Shared.Sort.{sort}
use veto.Shared.Text.{◌==◌, Unicode, to_lower, equal_fold, trim_space, contains, concat}
use veto.Dispatch.Agents.{
  Mode, AuthState, auth_unauthenticated, auth_unknown, BillingMode, billing_unknown, AgentStatus,
  Model, Request, Reason, Decision, DispatchError, Dispatched, normalize_mode, is_unauthenticated,
  ensure_available, unknowns, exclusion, unique_after, unique, manual, choose_agent, choose_model,
  other_mode, user_selected, fixed_model, native_default, default_agent, fixed_preference,
  agent_required, unknown_agent, not_installed, not_authenticated, temporarily_unavailable,
  unsupported_model, no_available_agent, dispatched, refused,
}

module _ ⦃u : Unicode⦄ where
  abbrev pub normalize : String → String
  normalize s = to_lower (trim_space s)

  unfoldable pub agent_by_name : List AgentStatus → String → Option AgentStatus
  unfolding equal_fold
  agent_by_name [] name = none
  agent_by_name (a ∷ agents) name =
      let rest = agent_by_name agents name in if equal_fold a.name name then some a else rest

  unfoldable pub preferred_agent : String → String
  unfolding to_lower trim_space
  preferred_agent kind =
      let k = normalize kind in
      if k == "code-change" || k == "debug" || k == "refactor" then "codex" else "claude"

  unfoldable pub reason_for_agent : Request → AgentStatus → Reason
  unfolding equal_fold
  reason_for_agent request selected =
      if not (request.default_agent == "") && equal_fold request.default_agent selected.name
      then default_agent
      else fixed_preference

  unfoldable pub model_for_kind : String → String → String → String
  unfolding to_lower trim_space equal_fold
  model_for_kind kind risk agent =
      let k = normalize kind in
      if not (agent == "claude")
      then ""
      else if k == "extract" || k == "summarize"
      then "haiku"
      else if k == "debug" || k == "plan"
      then "opus"
      else if k == "code-change" || k == "review" || k == "refactor"
      then "sonnet"
      else if equal_fold risk "high"
      then "opus"
      else "sonnet"

  unfoldable pub model_supported : List Model → String → String → Bool
  unfolding equal_fold
  model_supported [] agent model =
      if agent == "claude"
      then model == "haiku" || model == "sonnet" || model == "opus"
      else agent == "codex"
  model_supported (m ∷ models) agent model =
      (equal_fold m.agent agent && equal_fold m.name model && not (m.status == "unsupported"))
      || model_supported models agent model

  -- The test of the loop over the agents.
  unfoldable pub is_eligible : AgentStatus → Bool
  unfolding to_lower trim_space
  is_eligible status = not (
      normalize status.name == ""
      || not status.installed
      || is_unauthenticated status.auth
      || status.unavailable)

  -- The loop: the eligible agents, the exclusions of the others and what is unknown of the former.
  unfoldable pub eligible : List AgentStatus → List AgentStatus
  unfolding is_eligible
  eligible agents = filter is_eligible agents

  unfoldable pub exclusions : List AgentStatus → List String
  unfolding is_eligible exclusion
  exclusions [] = []
  exclusions (a ∷ agents) =
      let rest = exclusions agents in if is_eligible a then rest else exclusion a ∷ rest

  unfoldable pub all_unknowns : List AgentStatus → List String
  unfolding unknowns
  all_unknowns [] = []
  all_unknowns (a ∷ agents) = unknowns a ++ all_unknowns agents

  -- The first agent with the name, or else `fallback`.
  unfoldable pub select_named : AgentStatus → String → List AgentStatus → AgentStatus
  unfolding equal_fold
  select_named fallback name [] = fallback
  select_named fallback name (a ∷ agents) =
      let rest = select_named fallback name agents in if equal_fold a.name name then a else rest

  abbrev pub by_name : AgentStatus → AgentStatus → Ordering
  by_name a b = compare a.name b.name

  -- The name that the choice of an agent looks for.
  abbrev pub wanted : Request → String
  wanted request =
      if not (request.default_agent == "")
      then request.default_agent
      else preferred_agent request.kind

  unfoldable pub choose : Request → List AgentStatus → List AgentStatus → Dispatched
  unfolding reason_for_agent select_named exclusions all_unknowns unique preferred_agent
  choose request agents [] = refused no_available_agent
  choose request agents (first ∷ others) =
      let selected = select_named first (wanted request) (first ∷ others) in
      dispatched (record {
        mode = choose_agent;
        agent = selected.name;
        model = "";
        reason = reason_for_agent request selected;
        alternatives_excluded = unique (exclusions agents);
        unknown = unique (all_unknowns (eligible agents));
      })

  unfoldable pub decide_manual : Request → AgentStatus → Dispatched
  unfolding ensure_available unknowns
  decide_manual request status = elim (ensure_available status) [
    | some e ↦ refused e
    | none ↦ dispatched (record {
      mode = manual;
      agent = request.agent;
      model = request.model;
      reason = user_selected;
      alternatives_excluded = [];
      unknown = unknowns status;
    })
  ]

  unfoldable pub decide_model : Request → AgentStatus → List Model → Dispatched
  unfolding ensure_available unknowns model_for_kind model_supported unique
  decide_model request status models = elim (ensure_available status) [
    | some e ↦ refused e
    | none ↦
        let model =
          if request.model == ""
          then model_for_kind request.kind request.risk request.agent
          else request.model in
        if not (model == "") && not (model_supported models request.agent model)
        then refused unsupported_model
        else dispatched (record {
          mode = choose_model;
          agent = request.agent;
          model = model;
          reason = if model == "" then native_default else fixed_model;
          alternatives_excluded = [];
          unknown = unique (
              if model == ""
              then unknowns status ++ "model catalog/native default" ∷ []
              else unknowns status);
        })
  ]

  -- The modes in which the user names the agent.
  unfoldable pub with_agent : Request → List AgentStatus → (AgentStatus → Dispatched) → Dispatched
  unfolding agent_by_name
  with_agent request agents continue =
      if request.agent == ""
      then refused agent_required
      else elim (agent_by_name agents request.agent) [
        | none ↦ refused unknown_agent
        | some status ↦ continue status
      ]

  -- The request, as Decide first normalizes it.
  unfoldable pub normalized : Request → Request
  unfolding to_lower trim_space normalize_mode
  normalized request = record request {
    mode = normalize_mode request.mode;
    agent = normalize request.agent;
    default_agent = normalize request.default_agent;
  }

  unfoldable pub decide_normalized : Request → List AgentStatus → List Model → Dispatched
  unfolding with_agent decide_manual decide_model choose eligible
  decide_normalized request agents models = elim request.mode [
    | choose_model ↦ with_agent request agents (λ status. decide_model request status models)
    | choose_agent ↦ choose request agents (sort by_name (eligible agents))
    | _ ↦ with_agent request agents (λ status. decide_manual request status)
  ]

  -- Decide
  unfoldable pub decide : Request → List AgentStatus → List Model → Dispatched
  unfolding normalized decide_normalized
  decide request agents models = decide_normalized (normalized request) agents models
