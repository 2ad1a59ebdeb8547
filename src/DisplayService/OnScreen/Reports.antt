-- ===== src/DisplayService/OnScreen/Reports.antt =====
-- What a client of src/unity_display_service.cpp learns of the outputs behind src/mir_screen.cpp.
use unity_system_compositor.Prelude.{
  ℕ, ◌≡◌, refl, ap, subst, ◌∙◌, some, List, [], ◌∷◌, Str, arith, length,
}
use unity_system_compositor.MirScreen.{
  ActiveOutputs, Mir, MirScreen, register_active_outputs_handler, unregister_active_outputs_handler,
  init as start,
}
use unity_system_compositor.Prelude.Map
use unity_system_compositor.Dbus.{Dbus}
use unity_system_compositor.DisplayService.{
  init, run_action, dbus_emit_active_outputs, send, active_outputs_changed,
}
use unity_system_compositor.DisplayService.Signals.{last}
use unity_system_compositor.DisplayService.OnScreen.{
  Served, Event, construct, destruct, collect_enqueued, enqueue_told, run, run_actions,
}
use unity_system_compositor.DisplayService.OnScreen.InStep.{IsInStep, run-IsInStep}

module _ {D : Type 0} where
  action_takes :
      (a : ActiveOutputs) (queue : List ActiveOutputs) (s : Served D)
      → s.queue ≡ a ∷ queue
      → ((run_action s).queue ≡ queue)
        × ((run_action s).active_outputs ≡ a)
        × ((run_action s).screen ≡ s.screen)
  unfolding run_action dbus_emit_active_outputs send
  action_takes a queue s e = ground arith

  -- When the loop has run all waiting actions.
  run_actions_lem :
      (queue : List ActiveOutputs) (s : Served D)
      → s.queue ≡ queue
      → ((run_actions (length queue) s).queue ≡ [])
        × ((run_actions (length queue) s).active_outputs ≡ last s.active_outputs queue)
        × ((run_actions (length queue) s).screen ≡ s.screen)
  unfolding run_actions
  run_actions_lem [] s e = (e, refl, refl)
  run_actions_lem (a ∷ queue) s e =
      let (waiting, outputs, screen) = action_takes a queue s e in
      let (none_waiting, told, same) = run_actions_lem queue (run_action s) waiting in
      (none_waiting, told ∙ ap (λ b. last b queue) outputs, same ∙ screen)

module _ {D : Type 0} ⦃mir : Mir D⦄ where
  start_lem :
      (d : D) (world : List ActiveOutputs) (screen : MirScreen D (List ActiveOutputs))
      → start d world ≡ some screen
      → (screen.active_outputs_handlers ≡ []) × (screen.world ≡ world)
  unfolding start
  start_lem d world screen e = ground arith

  construct-IsInStep :
      (this : ℕ) (introspection : Str) (d : D) (screen : MirScreen D (List ActiveOutputs))
      → start d [] ≡ some screen
      → IsInStep this (construct this introspection screen)
  unfolding construct collect_enqueued enqueue_told active_outputs_changed
      register_active_outputs_handler init Map.insert
  construct-IsInStep this introspection d screen e =
      let (no_handlers, nothing) = start_lem d [] screen e in
      rw (no_handlers, nothing) (record { handlers = refl; nothing_left = refl; in_step = refl })

module _ {M D : Type 0} ⦃dbus : Dbus M⦄ ⦃mir : Mir D⦄ where
  -- A service is made on a screen that has just been constructed, and then messages, configurations
  -- of the screen, calls of turn_on and turn_off and actions of the loop follow in any order: the
  -- last counts that wait in the loop's queue, or the property ActiveOutputs if none wait, are the
  -- screen's own; and once the loop has run as many actions as wait, the queue is empty, the
  -- property equals the screen's counts, and the screen is as before.
  pub property_catches_up :
      (this : ℕ) (introspection : Str) (d : D) (screen : MirScreen D (List ActiveOutputs))
      → start d [] ≡ some screen
      → (es : List (Event M)) (s : Served D) → run es (construct this introspection screen) ≡ s
      → (last s.active_outputs s.queue ≡ s.screen.active_outputs)
        × ((run_actions (length s.queue) s).queue ≡ [])
        × ((run_actions (length s.queue) s).active_outputs ≡ s.screen.active_outputs)
        × ((run_actions (length s.queue) s).screen ≡ s.screen)
  property_catches_up this introspection d screen e es s reached =
      let i : IsInStep this s =
        subst (IsInStep this) reached
          (run-IsInStep this es _ (construct-IsInStep this introspection d screen e)) in
      let (empty, outputs, same) = run_actions_lem s.queue s refl in
      (i.in_step, empty, outputs ∙ i.in_step, same)

-- Behind the destructor no handler of the service is left at the screen.
destruct_unregisters :
    {D : Type 0} (this : ℕ) (s : Served D)
    → IsInStep this s
    → (destruct this s).screen.active_outputs_handlers ≡ []
unfolding destruct unregister_active_outputs_handler Map.erase
destruct_unregisters this s i = rw i.handlers (ground arith)
