-- ===== src/Dispatch/Availability.antt =====
-- pkg/dispatch/availability.go: the file of agents that the user marked as unavailable for a time.
-- The file's JSON is the entries that it encodes; a file that does not decode is `invalid`. Times are nanoseconds.
pub mod Entries
use Prim.Native.Nat.{Ordering}
use Prim.Native.String.{String, compare}
use veto.Shared.{
  ℕ, zero, suc, ◌+◌, Bool, true, false, not, ◌&&◌, ◌||◌, List, [], ◌∷◌, ◌++◌, filter, any, ltb,
  if◌then◌else◌,
}
use veto.Shared.Int.{ℤ, pos, negsuc}
use veto.Shared.Sort.{sort}
use veto.Shared.Text.{◌==◌, Unicode, to_lower, equal_fold, trim_space}

pub record Unavailability : Type 0 where
  pub agent : String
  pub expires : ℕ
  pub marked_at : ℕ

-- What stands at the store's path.
pub data StateFile : Type 0 where
  missing invalid : StateFile
  stored : List Unavailability → StateFile

-- Which calls of the operating system fail: the lock, the replacement, the removal.
pub record Faults : Type 0 where
  pub lock : Bool
  pub write : Bool
  pub remove : Bool

pub data AvailabilityError : Type 0 where
  bad_duration unsupported_agent lock_failed invalid_state write_failed : AvailabilityError

-- A result with the file after it.
pub data Outcome (A : Type 0) : Type 0 where
  done : StateFile → A → Outcome A
  failed : StateFile → AvailabilityError → Outcome A

abbrev pub is_native_agent : String → Bool
is_native_agent agent = agent == "claude" || agent == "codex"

abbrev pub is_active : ℕ → Unavailability → Bool
is_active now entry = is_native_agent entry.agent && ltb now entry.expires

unfoldable pub active : ℕ → List Unavailability → List Unavailability
active now entries = filter (is_active now) entries

abbrev pub by_agent : Unavailability → Unavailability → Ordering
by_agent a b = compare a.agent b.agent

-- AvailabilityStore.write
unfoldable pub write : Faults → StateFile → List Unavailability → Outcome Unit
write faults file entries =
    if faults.write then failed file write_failed else done (stored (sort by_agent entries)) tt

-- AvailabilityStore.List
unfoldable pub list : ℕ → StateFile → Outcome (List Unavailability)
unfolding active
list now missing = done missing []
list now invalid = failed invalid invalid_state
list now (stored entries) = done (stored entries) (active now entries)

-- The entries that Set and Clear start from, where the file can be read.
unfoldable pub with_entries :
    {A : Type 0} → ℕ → StateFile → (List Unavailability → Outcome A) → Outcome A
unfolding active
with_entries now missing continue = continue []
with_entries now invalid continue = failed invalid invalid_state
with_entries now (stored entries) continue = continue (active now entries)

unfoldable pub returning : {A : Type 0} → A → Outcome Unit → Outcome A
returning a (done file u) = done file a
returning a (failed file e) = failed file e

abbrev pub others : String → List Unavailability → List Unavailability
others agent entries = filter (λ e. not (e.agent == agent)) entries

-- The end of Set, with the agent's name normalized.
unfoldable pub set_normalized : Faults → ℕ → String → ℕ → StateFile → Outcome Unavailability
unfolding with_entries returning write
set_normalized faults now agent duration file =
    let entry : Unavailability = record {
      agent = agent;
      expires = now + duration;
      marked_at = now;
    } in
    if not (is_native_agent agent)
    then failed file unsupported_agent
    else if faults.lock
    then failed file lock_failed
    else with_entries now file
        (λ entries. returning entry (write faults file (others agent entries ++ entry ∷ [])))

-- The end of Clear: an empty file is removed.
unfoldable pub store_rest : Faults → StateFile → List Unavailability → Outcome Unit
unfolding write
store_rest faults file [] = if faults.remove then failed file write_failed else done missing tt
store_rest faults file (e ∷ entries) = write faults file (e ∷ entries)

unfoldable pub clear_normalized : Faults → ℕ → String → StateFile → Outcome Unit
unfolding with_entries store_rest
clear_normalized faults now agent file =
    if faults.lock
    then failed file lock_failed
    else with_entries now file
        (λ entries. store_rest faults file (if agent == "" then [] else others agent entries))

module _ ⦃u : Unicode⦄ where
  -- AvailabilityStore.Set
  unfoldable pub set : Faults → ℕ → String → ℤ → StateFile → Outcome Unavailability
  unfolding set_normalized to_lower trim_space
  set faults now agent (pos zero) file = failed file bad_duration
  set faults now agent (pos (suc n)) file =
      set_normalized faults now (to_lower (trim_space agent)) (suc n) file
  set faults now agent (negsuc n) file = failed file bad_duration

  -- AvailabilityStore.Clear
  unfoldable pub clear : Faults → ℕ → String → StateFile → Outcome Unit
  unfolding clear_normalized to_lower trim_space
  clear faults now agent file = clear_normalized faults now (to_lower (trim_space agent)) file

  -- AvailabilityStore.IsUnavailable
  unfoldable pub is_unavailable : ℕ → String → StateFile → Bool
  unfolding list equal_fold
  is_unavailable now agent file = elim (list now file) [
    | failed f e ↦ false
    | done f entries ↦ any (λ e. equal_fold e.agent agent) entries
  ]
