-- ===== src/DisplayService/OnScreen.antt =====
-- src/unity_display_service.cpp over src/mir_screen.cpp: the service with the handler that its
-- constructor registers, and the actions that the handler enqueues on the loop.
pub mod InStep
pub mod Reports
mod Tests
use unity_system_compositor.Prelude.{ℕ, suc, zero, List, [], ◌∷◌, ◌++◌, Str}
use unity_system_compositor.MirScreen.{
  ActiveOutputs, Configuration, OutputFilter, Mir, MirScreen, ActiveOutputsHandler,
  register_active_outputs_handler, unregister_active_outputs_handler, configuration_applied,
  initial_configuration, turn_on, turn_off,
}
use unity_system_compositor.Dbus.{Dbus}
use unity_system_compositor.DisplayService.{
  Screen, DisplayService, mir_screen, init, active_outputs_changed, run_action, handle_dbus_message,
}

-- The screen's world: what its handlers have enqueued, the first one first.
abbrev pub Served : Type 0 → Type 0
Served D = DisplayService (MirScreen D (List ActiveOutputs))

abbrev pub enqueue_outputs : ActiveOutputsHandler (List ActiveOutputs)
enqueue_outputs a enqueued = enqueued ++ a ∷ []

pub data Event (M : Type 0) : Type 0 where
  message : M → Event M
  initially_configured configured : Configuration → Event M
  turned_on turned_off : OutputFilter → Event M
  action : Event M

module _ {D : Type 0} where
  pub enqueue_told : List ActiveOutputs → Served D → Served D
  enqueue_told [] s = s
  enqueue_told (a ∷ rest) s = enqueue_told rest (active_outputs_changed a s)

  -- What the screen's handlers have enqueued waits for the loop.
  pub collect_enqueued : Served D → Served D
  collect_enqueued s =
      enqueue_told s.screen.world (record s { screen = record s.screen { world = [] } })

  -- The constructor, where the connection and its name are had, and the destructor.
  pub construct : ℕ → Str → MirScreen D (List ActiveOutputs) → Served D
  construct this introspection screen =
      collect_enqueued
        (init introspection (register_active_outputs_handler this enqueue_outputs screen))

  pub destruct : ℕ → Served D → Served D
  destruct this s = record s { screen = unregister_active_outputs_handler this s.screen }

  -- The loop runs a number of actions.
  pub run_actions : ℕ → Served D → Served D
  run_actions zero s = s
  run_actions (suc n) s = run_actions n (run_action s)

module _ {M D : Type 0} ⦃dbus : Dbus M⦄ ⦃mir : Mir D⦄ where
  pub step : Event M → Served D → Served D
  step (message m) s = collect_enqueued (handle_dbus_message ⦃screen = mir_screen⦄ m s)
  step (initially_configured os) s =
      collect_enqueued (record s { screen = initial_configuration os s.screen })
  step (configured os) s =
      collect_enqueued (record s { screen = configuration_applied os s.screen })
  step (turned_on f) s = collect_enqueued (record s { screen = turn_on f s.screen })
  step (turned_off f) s = collect_enqueued (record s { screen = turn_off f s.screen })
  step action s = run_action s

  pub run : List (Event M) → Served D → Served D
  run [] s = s
  run (e ∷ es) s = run es (step e s)
