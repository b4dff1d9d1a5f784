-- ===== src/Application/Control/Released.antt =====
-- Execute of the control plane releases its action, and the snapshot says ready after a success:
-- internal/application/controlplane_service.go.
use veto.Shared.{
  ◌≡◌, refl, ap, ◌∙◌, inl, inr, String, true, false, not, some, List, [], ◌∷◌, arith, filter,
  Bool-cases, if◌then◌else◌,
}
use veto.Shared.Int.{ℤ}
use veto.Shared.Float.{Float64}
use veto.Shared.Text.{◌==◌, eq_iff, Unicode, contains}
use veto.Application.Arguments.{
  ActionRequest, ArgumentError, Parsed, parsed, unparsed, check_request,
}
use veto.Application.Monitor.{ControlState, set_snapshot}
use veto.Application.Control.{
  ControlService, ControlError, bad_argument, already_active, Done, no_action,
}
use veto.Application.Control.Executing.{
  execute_active, deactivate, save_history, conclude, execute_action,
}
use veto.Application.Control.Settled.{
  IsReleased, Keeps-refl, Keeps-trans, publish-Keeps, set_snapshot-Keeps, IsSettled,
  failed-IsSettled, if-IsSettled, elim-IsSettled, after-IsSettled,
}
use veto.Application.Control.Cases.{execute_active-IsSettled}

module _ {F W : Type 0} ⦃fl : Float64 F⦄ (service : ControlService F W) where
  save_history-IsSettled :
      (action : String) (s : ControlState F) (d : Done F W)
      → IsSettled s d
      → IsSettled s (save_history service action d)
  unfolding save_history
  save_history-IsSettled action s d h =
      elim-IsSettled s service.callbacks.history_saver _ _ h (λ save.
        if-IsSettled s (save d.world).1 _ _ (record { kept = h.kept; ready = h.ready })
          (failed-IsSettled s _ _ refl (
            Keeps-trans h.kept
              (Keeps-trans (set_snapshot-Keeps action "error" "" "" d.state) (publish-Keeps _ _)))))

  -- The action goes, and the others stay.
  remove-head :
      (action : String) (others : List String)
      → contains others action ≡ false
      → filter (λ a. not (a == action)) others ≡ others
  unfolding contains
  remove-head action [] h = refl
  remove-head action (a ∷ others) h =
      let rest = remove-head action others (ground arith) in
      let differs : a == action ≡ false = ground arith in rw (differs, rest) refl

  deactivate-active :
      (action : String) (others : List String) (t : ControlState F)
      → contains others action ≡ false
      → t.active ≡ action ∷ others
      → (deactivate service action t).active ≡ others
  unfolding deactivate
  deactivate-active action others t idle h =
      let same : action == action ≡ true = ground (arith, eq_iff action action) in
      ap (filter (λ a. not (a == action))) h ∙ rw (same, remove-head action others idle) refl

  conclude-IsReleased :
      (action : String) (s : ControlState F) (d : Done F W)
      → contains s.active action ≡ false
      → IsSettled (record s { active = action ∷ s.active }) d
      → IsReleased s (conclude service action d)
  unfolding conclude deactivate
  conclude-IsReleased action s d idle h =
      let t = deactivate service action d.state in
      let settled : IsSettled t (conclude service action d) =
        save_history-IsSettled action t (record d { state = t })
          (record { kept = Keeps-refl t; ready = h.ready }) in
      record {
        active = settled.kept.active ∙ deactivate-active action s.active d.state idle h.kept.active;
        bounded = λ b. settled.kept.bounded (h.kept.bounded b);
        ready = settled.ready;
      }

  refused-IsReleased :
      (s : ControlState F) (w : W) (e : ControlError)
      → IsReleased s (record { world = w; state = s; result = no_action ""; err = some e })
  refused-IsReleased s w e = record {
    active = refl;
    bounded = λ b. b;
    ready = λ fine. absurd (ground arith);
  }

  parsed-IsReleased :
      (s : ControlState F) (p : Parsed ℤ) (x : ArgumentError → Done F W) (y : ℤ → Done F W)
      → ((e : ArgumentError) → IsReleased s (x e))
      → ((timeout : ℤ) → IsReleased s (y timeout))
      → IsReleased s (elim p as (λ x. Done F W) [ unparsed e ↦ x e | parsed a ↦ y a ])
  parsed-IsReleased s (unparsed e) x y p q = p e
  parsed-IsReleased s (parsed timeout) x y p q = q timeout

  idle-IsReleased :
      (s : ControlState F) (action : String) (x y : Done F W)
      → IsReleased s x
      → (contains s.active action ≡ false → IsReleased s y)
      → IsReleased s (if contains s.active action then x else y)
  idle-IsReleased s action x y p q = elim (Bool-cases (contains s.active action)) [
    | inl busy ↦ rw busy p
    | inr idle ↦ rw idle (q idle)
  ]

  -- After Execute of the control plane, for any request, state and callbacks, the active actions are
  -- those of before: the action itself is released on every branch, errors included. The channels of
  -- the subscribers still hold 64 events at most, if they did before. And the status of the snapshot
  -- is "ready" where Execute returns no error.
  pub execute_action-IsReleased :
      ⦃u : Unicode⦄
      → (request : ActionRequest) (w : W) (s : ControlState F)
      → IsReleased s (execute_action service request w s)
  unfolding execute_action
  execute_action-IsReleased request w s =
      let action = request.action_id in
      let begun = record s { active = action ∷ s.active } in
      parsed-IsReleased s (check_request service.parsers request) _ _
        (λ e. refused-IsReleased s w (bad_argument e))
        (λ timeout. idle-IsReleased s action _ _ (refused-IsReleased s w already_active) (λ idle.
          conclude-IsReleased action s
            (execute_active service request timeout w (set_snapshot action "running" "" "" begun))
            idle
            (after-IsSettled (set_snapshot-Keeps action "running" "" "" begun)
              (execute_active-IsSettled service request timeout w _))))
