-- ===== src/MirScreen/Runs.antt =====
-- The calls on the screen of src/mir_screen.cpp, one after another: from the other components, and from
-- Mir, which reports its configurations. The observer's other methods do nothing.
use unity_system_compositor.Prelude.{ℕ, List, [], ◌∷◌}
use unity_system_compositor.MirScreen.{
  OutputFilter, Configuration, Mir, ActiveOutputsHandler, MirScreen,
  register_active_outputs_handler, unregister_active_outputs_handler, configuration_applied,
  initial_configuration, turn_on, turn_off,
}

pub data Event (W : Type 0) : Type 0 where
  registers : ℕ → ActiveOutputsHandler W → Event W
  unregisters : ℕ → Event W
  initially_configured configured : Configuration → Event W
  turned_on turned_off : OutputFilter → Event W

module _ {D W : Type 0} ⦃mir : Mir D⦄ where
  unfoldable pub step : Event W → MirScreen D W → MirScreen D W
  step (registers owner handler) s = register_active_outputs_handler owner handler s
  step (unregisters owner) s = unregister_active_outputs_handler owner s
  step (initially_configured os) s = initial_configuration os s
  step (configured os) s = configuration_applied os s
  step (turned_on filter) s = turn_on filter s
  step (turned_off filter) s = turn_off filter s

  unfoldable pub run : List (Event W) → MirScreen D W → MirScreen D W
  run [] s = s
  run (e ∷ es) s = run es (step e s)
