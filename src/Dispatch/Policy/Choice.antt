-- ===== src/Dispatch/Policy/Choice.antt =====
-- What the fixed policy guarantees about the agent and the model that it chooses.
use mathlib.Core.List.{Mem, mem-cons_self, mem-cons_of_mem}
use mathlib.Core.List.Perm
use Prim.Native.String.{String, compare}
use veto.Shared.{
  ◌≡◌, ◌≢◌, refl, sym, ◌⊎◌, inl, inr, true, false, not, ◌&&◌, none, some, List, [], ◌∷◌, arith, All,
  Bool-cases, Option-cases, if◌then◌else◌,
}
use veto.Shared.Order.{is_le}
use veto.Shared.Sort.{sort, sort-perm}
use veto.Shared.Members.{mem-filter_iff}
use veto.Shared.Text.{◌==◌, eq_iff, Unicode, equal_fold}
use veto.Dispatch.Agents.{
  Mode, manual, choose_agent, choose_model, other_mode, AgentStatus, Model, Request, Dispatched,
  dispatched, refused, ensure_available, normalize_mode,
}
use veto.Dispatch.Policy.{
  agent_by_name, is_eligible, eligible, select_named, by_name, wanted, choose, decide_manual,
  decide_model, with_agent, normalized, decide_normalized, decide, model_for_kind, model_supported,
}

-- The agent can be started: it is installed, not known to be logged out, and not marked.
pub record IsAvailable (a : AgentStatus) : Type 0 where
  pub installed : a.installed ≡ true
  pub logged_in : a.auth ≢ "unauthenticated"
  pub unmarked : a.unavailable ≡ false

ensure_available-IsAvailable : (a : AgentStatus) → ensure_available a ≡ none → IsAvailable a
unfolding ensure_available
ensure_available-IsAvailable a h = record {
  installed = ground arith;
  logged_in = λ e. ground (arith, (eq_iff a.auth "unauthenticated").1 e);
  unmarked = ground arith;
}

module _ ⦃u : Unicode⦄ where
  -- An available agent of the list goes by the decision's name: exactly, or up to case where the
  -- user wrote the name.
  abbrev pub IsServable : List AgentStatus → Dispatched → Type 0
  IsServable agents (dispatched d) =
      (a : AgentStatus) × Mem a agents
      × IsAvailable a
      × ((a.name ≡ d.agent) ⊎ (equal_fold a.name d.agent ≡ true))
  IsServable agents (refused e) = Unit

  is_eligible-IsAvailable : (a : AgentStatus) → is_eligible a ≡ true → IsAvailable a
  unfolding is_eligible
  is_eligible-IsAvailable a h = record {
    installed = ground arith;
    logged_in = λ e. ground (arith, (eq_iff a.auth "unauthenticated").1 e);
    unmarked = ground arith;
  }

  agent_by_name-mem :
      (agents : List AgentStatus) (name : String) (a : AgentStatus)
      → agent_by_name agents name ≡ some a
      → Mem a agents × (equal_fold a.name name ≡ true)
  unfolding agent_by_name
  agent_by_name-mem [] name a h = ground arith
  agent_by_name-mem (b ∷ agents) name a h = elim (Bool-cases (equal_fold b.name name)) [
    | inl same ↦ let e : b ≡ a = ground (arith, h) in rw (sym e) (mem-cons_self, same)
    | inr other ↦
        let (inside, same) = agent_by_name-mem agents name a (ground (arith, h)) in
        (mem-cons_of_mem b inside, same)
  ]

  -- The selected agent is the first one with the name, or the fallback where there is none.
  select_named-cases :
      (fallback : AgentStatus) (name : String) (agents : List AgentStatus)
      → (Mem (select_named fallback name agents) agents
          × (equal_fold (select_named fallback name agents).name name ≡ true))
        ⊎ ((select_named fallback name agents ≡ fallback)
            × All (λ a. equal_fold a.name name ≡ false) agents)
  unfolding select_named
  select_named-cases fallback name [] = inr (refl, tt)
  select_named-cases fallback name (a ∷ agents) = elim (Bool-cases (equal_fold a.name name)) [
    | inl same ↦ rw (same, select_named) (inl (mem-cons_self, same))
    | inr other ↦
        rw (other, select_named)
          (elim (select_named-cases fallback name agents) [
            | inl (inside, same) ↦ inl (mem-cons_of_mem a inside, same)
            | inr (e, others) ↦ inr (e, (refl, others))
          ])
  ]

  select_named-mem :
      (first : AgentStatus) (name : String) (others : List AgentStatus)
      → Mem (select_named first name (first ∷ others)) (first ∷ others)
  select_named-mem first name others = elim (select_named-cases first name (first ∷ others)) [
    | inl (inside, same) ↦ inside
    | inr (e, none_named) ↦ rw e mem-cons_self
  ]

  manual-IsServable :
      (request : Request) (agents : List AgentStatus) (a : AgentStatus)
      → Mem a agents × (equal_fold a.name request.agent ≡ true)
      → IsServable agents (decide_manual request a)
  unfolding decide_manual
  manual-IsServable request agents a (inside, same) = elim (Option-cases (ensure_available a)) [
    | inr (e, bad) ↦ rw (bad, decide_manual) tt
    | inl fine ↦ rw (fine, decide_manual) (a, inside, ensure_available-IsAvailable a fine, inr same)
  ]

  model-IsServable :
      (request : Request) (agents : List AgentStatus) (models : List Model) (a : AgentStatus)
      → Mem a agents × (equal_fold a.name request.agent ≡ true)
      → IsServable agents (decide_model request a models)
  unfolding decide_model
  model-IsServable request agents models a (inside, same) =
      elim (Option-cases (ensure_available a)) [
        | inr (e, bad) ↦ rw (bad, decide_model) tt
        | inl fine ↦
            rw (fine, decide_model)
              (elim (Bool-cases (
                let model =
                  if request.model == ""
                  then model_for_kind request.kind request.risk request.agent
                  else request.model in
                not (model == "") && not (model_supported models request.agent model))) [
                  | inl unsupported ↦ rw unsupported tt
                  | inr supported ↦
                      rw supported (a, inside, ensure_available-IsAvailable a fine, inr same)
                ])
      ]

  choose-IsServable :
      (request : Request) (agents : List AgentStatus) (ranked : List AgentStatus)
      → ((a : AgentStatus) → Mem a ranked → Mem a agents × IsAvailable a)
      → IsServable agents (choose request agents ranked)
  unfolding choose
  choose-IsServable request agents [] f = tt
  choose-IsServable request agents (first ∷ others) f =
      let selected = select_named first (wanted request) (first ∷ others) in
      let (inside, available) = f selected (select_named-mem first (wanted request) others) in
      (selected, inside, available, inl refl)

  with_agent-IsServable :
      (request : Request) (agents : List AgentStatus) (continue : AgentStatus → Dispatched)
      → ((a : AgentStatus)
          → Mem a agents × (equal_fold a.name request.agent ≡ true)
          → IsServable agents (continue a))
      → IsServable agents (with_agent request agents continue)
  unfolding with_agent
  with_agent-IsServable request agents continue f = elim (Bool-cases (request.agent == "")) [
    | inl unnamed ↦ rw (unnamed, with_agent) tt
    | inr named ↦ elim (Option-cases (agent_by_name agents request.agent)) [
      | inl missing ↦ rw (named, missing, with_agent) tt
      | inr (a, found) ↦
          rw (named, found, with_agent) (f a (agent_by_name-mem agents request.agent a found))
    ]
  ]

  mem-sorted :
      (agents : List AgentStatus) (a : AgentStatus)
      → Mem a (sort by_name (eligible agents))
      → Mem a agents × IsAvailable a
  unfolding eligible
  mem-sorted agents a h =
      let unsorted = (Perm.mem_iff {a = a} (sort-perm by_name (eligible agents))).0 h in
      let (inside, fit) = (mem-filter_iff is_eligible a agents).0 unsorted in
      (inside, is_eligible-IsAvailable a fit)

  decide_normalized-IsServable :
      (mode : Mode) (request : Request) (agents : List AgentStatus) (models : List Model)
      → IsServable agents (decide_normalized (record request { mode = mode }) agents models)
  unfolding decide_normalized
  decide_normalized-IsServable manual request agents models =
      with_agent-IsServable (record request { mode = manual }) agents _
        (manual-IsServable (record request { mode = manual }) agents)
  decide_normalized-IsServable (other_mode text) request agents models =
      with_agent-IsServable (record request { mode = other_mode text }) agents _
        (manual-IsServable (record request { mode = other_mode text }) agents)
  decide_normalized-IsServable choose_model request agents models =
      with_agent-IsServable (record request { mode = choose_model }) agents _
        (model-IsServable (record request { mode = choose_model }) agents models)
  decide_normalized-IsServable choose_agent request agents models =
      choose-IsServable (record request { mode = choose_agent }) agents
        (sort by_name (eligible agents)) (mem-sorted agents)

  -- In every mode, a decision names an agent of the list, up to case where the user named it, that
  -- is installed, not known to be unauthenticated and not marked as unavailable.
  pub decide-IsServable :
      (request : Request) (agents : List AgentStatus) (models : List Model)
      → IsServable agents (decide request agents models)
  unfolding decide normalized
  decide-IsServable request agents models =
      decide_normalized-IsServable (normalize_mode request.mode) (normalized request) agents models

-- How the agent is chosen where the user names none.
module _ ⦃u : Unicode⦄ where
  -- The decision names an agent that goes by the wanted name, or no eligible one does and it is
  -- the first by name. A refusal means that no agent is eligible.
  abbrev pub IsPreferred : Request → List AgentStatus → Dispatched → Type 0
  IsPreferred request agents (dispatched d) =
      (equal_fold d.agent (wanted request) ≡ true)
      ⊎ ((a : AgentStatus)
          → Mem a (eligible agents)
          → (equal_fold a.name (wanted request) ≡ false) × (is_le (compare d.agent a.name) ≡ true))
  IsPreferred request agents (refused e) = (a : AgentStatus) → ¬ Mem a (eligible agents)
