-- ===== src/Application/Control/Settled.antt =====
-- What the steps of an action of the control plane leave behind: internal/application/controlplane_service.go.
use veto.Shared.{
  ◌≤◌, ◌≡◌, refl, ◌∙◌, inl, inr, String, Bool, true, false, Option, none, some, List, [], ◌∷◌, All,
  arith, length, length-append, map, Bool-cases, if◌then◌else◌,
}
use veto.Shared.Float.{Float64}
use veto.Shared.Text.{◌==◌}
use veto.Application.Runner.{Call, emitted, runtime_emitted, wrote, recorded}
use veto.Application.Monitor.{
  ControlEvent, ControlState, channel_capacity, send, publish, set_snapshot, observe_call,
  observe_calls,
}
use veto.Application.Control.{ControlError, Done}

module _ {F : Type 0} where
  -- A channel holds 64 events at most.
  abbrev pub IsBounded : List (ControlEvent F) → Type 0
  IsBounded waiting = length waiting ≤ channel_capacity

  abbrev pub Ready : ControlState F → Type 0
  Ready s = s.snapshot.status ≡ "ready"

  -- The active actions stay, and the channels stay bounded.
  pub record Keeps (s t : ControlState F) : Type 0 where
    pub active : t.active ≡ s.active
    pub bounded : All IsBounded s.subs → All IsBounded t.subs

  pub Keeps-refl : (s : ControlState F) → Keeps s s
  Keeps-refl s = record { active = refl; bounded = λ b. b }

  pub Keeps-trans : {s t u : ControlState F} → Keeps s t → Keeps t u → Keeps s u
  Keeps-trans p q = record { active = q.active ∙ p.active; bounded = λ b. q.bounded (p.bounded b) }

  send-IsBounded :
      (event : ControlEvent F) (waiting : List (ControlEvent F))
      → IsBounded waiting
      → IsBounded (send event waiting)
  unfolding send
  send-IsBounded event waiting b = ground (arith, length-append waiting (event ∷ []))

  sends-IsBounded :
      (event : ControlEvent F) (subs : List (List (ControlEvent F)))
      → All IsBounded subs
      → All IsBounded (map (send event) subs)
  sends-IsBounded event [] b = tt
  sends-IsBounded event (waiting ∷ subs) (b, bs) =
      (send-IsBounded event waiting b, sends-IsBounded event subs bs)

  pub publish-Keeps : (event : ControlEvent F) (s : ControlState F) → Keeps s (publish event s)
  unfolding publish
  publish-Keeps event s = record { active = refl; bounded = sends-IsBounded event s.subs }

  pub set_snapshot-Keeps :
      (action status provider model : String) (s : ControlState F)
      → Keeps s (set_snapshot action status provider model s)
  unfolding set_snapshot
  set_snapshot-Keeps action status provider model s = record { active = refl; bounded = λ b. b }

  publish-status :
      (event : ControlEvent F) (s : ControlState F)
      → (publish event s).snapshot.status ≡ s.snapshot.status
  unfolding publish
  publish-status event s = refl

module _ {F : Type 0} ⦃fl : Float64 F⦄ where
  observe_call-Keeps : (call : Call F) (s : ControlState F) → Keeps s (observe_call call s)
  unfolding observe_call publish
  observe_call-Keeps (emitted e) s = record { active = refl; bounded = sends-IsBounded _ s.subs }
  observe_call-Keeps (runtime_emitted id model e) s = record {
    active = refl;
    bounded = sends-IsBounded _ s.subs;
  }
  observe_call-Keeps (recorded task name decision metrics) s = Keeps-refl s
  observe_call-Keeps (wrote t) s = elim (Bool-cases (t == "")) [
    | inl blank ↦ rw blank (Keeps-refl s)
    | inr more ↦ rw more (record { active = refl; bounded = sends-IsBounded _ s.subs })
  ]

  pub observe_calls-Keeps :
      (calls : List (Call F)) (s : ControlState F) → Keeps s (observe_calls calls s)
  unfolding observe_calls
  observe_calls-Keeps [] s = Keeps-refl s
  observe_calls-Keeps (call ∷ calls) s =
      Keeps-trans (observe_call-Keeps call s) (observe_calls-Keeps calls (observe_call call s))

module _ {F W : Type 0} ⦃fl : Float64 F⦄ where
  -- A return that keeps the state of before, and is ready where it has no error.
  pub record IsSettled (s : ControlState F) (d : Done F W) : Type 0 where
    pub kept : Keeps s d.state
    pub ready : d.err ≡ none → Ready d.state

  -- What Execute guarantees, from the state `s` to the end of the action.
  pub record IsReleased (s : ControlState F) (d : Done F W) : Type 0 where
    pub active : d.state.active ≡ s.active
    pub bounded : All IsBounded s.subs → All IsBounded d.state.subs
    pub ready : d.err ≡ none → Ready d.state

  pub failed-IsSettled :
      (s : ControlState F) (d : Done F W) (e : ControlError)
      → d.err ≡ some e
      → Keeps s d.state
      → IsSettled s d
  failed-IsSettled s d e failed kept = record { kept = kept; ready = λ fine. absurd (ground arith) }

  pub if-IsSettled :
      (s : ControlState F) (b : Bool) (x y : Done F W)
      → IsSettled s x
      → IsSettled s y
      → IsSettled s (if b then x else y)
  if-IsSettled s true x y p q = p
  if-IsSettled s false x y p q = q

  pub elim-IsSettled :
      {A : Type 0} (s : ControlState F) (o : Option A) (x : Done F W) (y : A → Done F W)
      → IsSettled s x
      → ((a : A) → IsSettled s (y a))
      → IsSettled s (elim o as (λ x. Done F W) [ none ↦ x | some a ↦ y a ])
  elim-IsSettled s none x y p q = p
  elim-IsSettled s (some a) x y p q = q a

  pub after-IsSettled :
      {s t : ControlState F} {d : Done F W} → Keeps s t → IsSettled t d → IsSettled s d
  after-IsSettled p q = record { kept = Keeps-trans p q.kept; ready = q.ready }
