-- ===== src/Dispatch/Availability/Entries.antt =====
-- What the file lists after an agent has been marked, or a mark cleared.
use mathlib.Core.List.{Mem}
use mathlib.Core.List.Perm
use Prim.Native.String.{String}
use veto.Shared.{ℕ, zero, suc, ◌+◌, ◌≡◌, refl, ◌↔◌, inl, inr, true, List, [], ◌∷◌, ◌++◌, Bool-cases}
use veto.Shared.Members.{mem-filter_iff}
use veto.Shared.Sort.{sort, sort-perm}
use veto.Shared.Int.{ℤ, pos, negsuc, pos_part}
use veto.Shared.Text.{Unicode, to_lower, trim_space}
use veto.Dispatch.Availability.{
  Unavailability, StateFile, missing, invalid, stored, Faults, Outcome, done, failed,
  is_native_agent, is_active, active, write, list, with_entries, returning, others, set_normalized,
  by_agent, set,
}

-- The entries that List returns; none where it fails.
unfoldable pub listed : ℕ → StateFile → List Unavailability
unfolding list
listed now file = elim (list now file) [ done f entries ↦ entries | failed f e ↦ [] ]

mem-listed-stored :
    (now : ℕ) (entries : List Unavailability) (e : Unavailability)
    → Mem e (listed now (stored (sort by_agent entries)))
      ↔ (Mem e entries × (is_active now e ≡ true))
unfolding listed list active
mem-listed-stored now entries e =
    let members = mem-filter_iff (is_active now) e (sort by_agent entries) in
    let sorted = Perm.mem_iff {a = e} (sort-perm by_agent entries) in
    (λ h. (sorted.0 (members.0 h).0, (members.0 h).1), λ h. members.1 (sorted.1 h.0, h.1))

-- The file lists, at any later time, just the entries of `kept` that have not expired by then.
abbrev pub Lists : StateFile → List Unavailability → Type 0
Lists file kept =
    (later : ℕ) (e : Unavailability)
    → Mem e (listed later file) ↔ (Mem e kept × (is_active later e ≡ true))

-- A finished operation leaves the entries; a failed one leaves the file as it was.
abbrev pub Leaves : {A : Type 0} → StateFile → List Unavailability → Outcome A → Type 0
Leaves before kept (done file a) = Lists file kept
Leaves before kept (failed file e) = file ≡ before

write-Leaves :
    (faults : Faults) (file : StateFile) (entries : List Unavailability)
    → Leaves file entries (write faults file entries)
unfolding write
write-Leaves faults file entries = elim (Bool-cases faults.write) [
  | inl fails ↦ rw fails refl
  | inr works ↦ rw works (λ later e. mem-listed-stored later entries e)
]

returning-Leaves :
    {A : Type 0} (a : A) (file : StateFile) (kept : List Unavailability) (o : Outcome Unit)
    → Leaves file kept o
    → Leaves file kept (returning a o)
unfolding returning
returning-Leaves a file kept (done f u) h = h
returning-Leaves a file kept (failed f e) h = h

with_entries-Leaves :
    {A : Type 0} (now : ℕ) (file : StateFile) (keep : List Unavailability → List Unavailability)
    (continue : List Unavailability → Outcome A)
    → ((entries : List Unavailability) → Leaves file (keep entries) (continue entries))
    → Leaves file (keep (listed now file)) (with_entries now file continue)
unfolding with_entries listed list
with_entries-Leaves now missing keep continue f = f []
with_entries-Leaves now invalid keep continue f = refl
with_entries-Leaves now (stored entries) keep continue f = f (active now entries)

set_normalized-Leaves :
    (faults : Faults) (now : ℕ) (agent : String) (duration : ℕ) (file : StateFile)
    → Leaves file
        (others agent (listed now file)
          ++ record { agent = agent; expires = now + duration; marked_at = now } ∷ [])
        (set_normalized faults now agent duration file)
unfolding set_normalized
set_normalized-Leaves faults now agent duration file = elim (Bool-cases (is_native_agent agent)) [
  | inr foreign ↦ rw (foreign, set_normalized) refl
  | inl native ↦
      rw (native, set_normalized)
        (elim (Bool-cases faults.lock) [
          | inl locked ↦ rw locked refl
          | inr free ↦ rw free (
              with_entries-Leaves now file (λ entries. others agent entries ++ entry ∷ []) _
                (λ entries.
                  returning-Leaves entry file (others agent entries ++ entry ∷ []) _
                    (write-Leaves faults file (others agent entries ++ entry ∷ []))))
        ])
]
  where
    entry : Unavailability
    entry = record { agent = agent; expires = now + duration; marked_at = now }

module _ ⦃u : Unicode⦄ where
  -- The entry that Set makes.
  abbrev pub mark : ℕ → String → ℤ → Unavailability
  mark now agent duration = record {
    agent = to_lower (trim_space agent);
    expires = now + pos_part duration;
    marked_at = now;
  }

  -- After Set at one time, the file lists at any later time just the new mark and the entries of
  -- other agents that it listed then, each until it expires. Where Set fails, for a duration that
  -- is not positive, for another agent than the two, or for the file system, the file stays.
  pub set-Leaves :
      (faults : Faults) (now : ℕ) (agent : String) (duration : ℤ) (file : StateFile)
      → Leaves file
          (others (to_lower (trim_space agent)) (listed now file) ++ mark now agent duration ∷ [])
          (set faults now agent duration file)
  unfolding set
  set-Leaves faults now agent (pos zero) file = refl
  set-Leaves faults now agent (pos (suc n)) file =
      set_normalized-Leaves faults now (to_lower (trim_space agent)) (suc n) file
  set-Leaves faults now agent (negsuc n) file = refl
