-- ===== src/Tests/Agents.antt =====
-- Dispatch: the theorems on the fixed policy and the file of marks.
use mathlib.Core.List.{Mem, Nodup}
use veto.Shared.{◌≡◌, ◌↔◌, String, true, false, List, [], ◌∷◌, ◌++◌}
use veto.Shared.Int.{pos}
use veto.Shared.Text.{◌==◌, to_lower, trim_space}
use veto.Dispatch.Agents.{AgentStatus, Request, choose_agent, unique}
use veto.Dispatch.Agents.Distinct.{unique-Nodup}
use veto.Dispatch.Policy.{decide}
use veto.Dispatch.Policy.Choice.{IsServable, decide-IsServable}
use veto.Dispatch.Availability.{StateFile, stored, Faults, set, others}
use veto.Dispatch.Availability.Entries.{Leaves, listed, mark, set-Leaves}
use veto.Tests.Data.{caseless}

abbrev installed_agent : String → AgentStatus
installed_agent name = record {
  name = name;
  installed = true;
  auth = "authenticated";
  billing = "subscription";
  unavailable = false;
  warning = "";
}

abbrev two_agents : List AgentStatus
two_agents = installed_agent "codex" ∷ installed_agent "claude" ∷ []

abbrev any_agent : Request
any_agent = record {
  mode = choose_agent;
  agent = "";
  model = "";
  default_agent = "claude";
  kind = "debug";
  risk = "low";
}

decide-IsServable_example : IsServable two_agents (decide any_agent two_agents [])
decide-IsServable_example = decide-IsServable any_agent two_agents []

abbrev three_texts : List String
three_texts = "billing" ∷ "" ∷ "billing" ∷ []

unique_agents-Nodup :
    Nodup (unique three_texts)
    × ((a : String) → Mem a (unique three_texts) ↔ (Mem a three_texts × ((a == "") ≡ false)))
unique_agents-Nodup = unique-Nodup three_texts

abbrev no_faults : Faults
no_faults = record { lock = false; write = false; remove = false }

abbrev one_mark : StateFile
one_mark = stored (record { agent = "codex"; expires = 900; marked_at = 100 } ∷ [])

set-Leaves_example :
    Leaves one_mark
      (others (to_lower (trim_space "claude")) (listed 200 one_mark)
        ++ mark 200 "claude" (pos 50) ∷ [])
      (set no_faults 200 "claude" (pos 50) one_mark)
set-Leaves_example = set-Leaves no_faults 200 "claude" (pos 50) one_mark
