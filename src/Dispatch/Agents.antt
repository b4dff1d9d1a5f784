-- ===== src/Dispatch/Agents.antt =====
-- pkg/dispatch/policy.go: requests, agents and decisions, and the tests on an agent. An explanation is
-- its case, and each error is a constructor.
pub mod Distinct
use Prim.Native.String.{String}
use veto.Shared.{Bool, not, Option, none, some, List, [], ◌∷◌, ◌++◌, if◌then◌else◌}
use veto.Shared.Text.{◌==◌, contains, concat}

pub data Mode : Type 0 where
  manual choose_agent choose_model : Mode
  other_mode : String → Mode

abbrev pub AuthState : Type 0
AuthState = String

abbrev pub auth_unauthenticated : AuthState
auth_unauthenticated = "unauthenticated"

abbrev pub auth_unknown : AuthState
auth_unknown = "unknown"

abbrev pub BillingMode : Type 0
BillingMode = String

abbrev pub billing_unknown : BillingMode
billing_unknown = "unknown"

pub record AgentStatus : Type 0 where
  pub name : String
  pub installed : Bool
  pub auth : AuthState
  pub billing : BillingMode
  pub unavailable : Bool
  pub warning : String

pub record Model : Type 0 where
  pub name : String
  pub agent : String
  pub status : String

pub record Request : Type 0 where
  pub mode : Mode
  pub agent : String
  pub model : String
  pub default_agent : String
  pub kind : String
  pub risk : String

-- The case of the explanation.
pub data Reason : Type 0 where
  user_selected fixed_model native_default default_agent fixed_preference : Reason

pub record Decision : Type 0 where
  pub mode : Mode
  pub agent : String
  pub model : String
  pub reason : Reason
  pub alternatives_excluded : List String
  pub unknown : List String

pub data DispatchError : Type 0 where
  agent_required unknown_agent not_installed not_authenticated : DispatchError
  temporarily_unavailable unsupported_model no_available_agent : DispatchError

pub data Dispatched : Type 0 where
  dispatched : Decision → Dispatched
  refused : DispatchError → Dispatched

unfoldable pub normalize_mode : Mode → Mode
normalize_mode (other_mode text) = manual
normalize_mode mode = mode

abbrev pub is_unauthenticated : AuthState → Bool
is_unauthenticated auth = auth == auth_unauthenticated

unfoldable pub ensure_available : AgentStatus → Option DispatchError
ensure_available status =
    if not status.installed
    then some not_installed
    else if is_unauthenticated status.auth
    then some not_authenticated
    else if status.unavailable
    then some temporarily_unavailable
    else none

unfoldable pub unknowns : AgentStatus → List String
unknowns status =
    (if status.auth == auth_unknown then concat status.name " authentication" ∷ [] else [])
    ++ (if status.billing == billing_unknown then concat status.name " billing/cost" ∷ [] else [])
    ++ (if status.warning == "" then [] else status.warning ∷ [])

unfoldable pub exclusion : AgentStatus → String
exclusion status = concat status.name (
    if not status.installed
    then " excluded: executable missing"
    else if is_unauthenticated status.auth
    then " excluded: not authenticated"
    else if status.unavailable
    then " excluded: temporarily unavailable"
    else " excluded")

-- The loop of unique, with the values seen so far.
unfoldable pub unique_after : List String → List String → List String
unfolding contains
unique_after seen [] = []
unique_after seen (v ∷ vs) =
    let skipped = unique_after seen vs in
    let kept = v ∷ unique_after (v ∷ seen) vs in
    if v == "" then skipped else if contains seen v then skipped else kept

unfoldable pub unique : List String → List String
unfolding unique_after
unique values = unique_after [] values
