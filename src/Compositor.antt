-- ===== src/Compositor.antt =====
-- The session switcher on its screen: `set_screen` and the destructor of src/session_switcher.cpp over
-- src/mir_screen.cpp. The screen's handlers act on the switcher, which is `none` once it has gone
-- through a null pointer. The weak pointer to the screen is whether there is one.
pub mod Handlers
pub mod Current
pub mod Linked
pub mod Destroyed
mod Tests
use unity_system_compositor.Prelude.{
  ℕ, Bool, true, false, List, [], ◌∷◌, Option, ◌>>=◌, Str, if◌then◌else◌,
}
use unity_system_compositor.Session.{Scene}
use unity_system_compositor.Spinner.{Spinner}
use unity_system_compositor.Switcher.{Switcher, active_outputs_changed}
use unity_system_compositor.Switcher.Runs.{
  step as switcher_step, Event as SwitcherEvent, session_added, session_removed, session_ready,
  active_set, next_set,
}
use unity_system_compositor.MirScreen.{
  OutputFilter, Configuration, Mir, MirScreen, ActiveOutputsHandler,
  register_active_outputs_handler, unregister_active_outputs_handler, configuration_applied,
  initial_configuration, turn_on, turn_off,
}

pub record Compositor (D S : Type 0) : Type 0 where
  pub screen : MirScreen D (Option (Switcher S))
  pub has_screen : Bool

-- What is called on the switcher and on the screen. Another owner's handler leaves the switcher alone.
pub data Event : Type 0 where
  added removed ready : ℕ → Event
  active next : Str → Event
  turned_on turned_off : OutputFilter → Event
  initially_configured configured : Configuration → Event
  registered unregistered : ℕ → Event
  screen_set : Event

module _ ⦃scene : Scene⦄ {S : Type 0} ⦃spinner : Spinner S⦄ where
  abbrev pub outputs_handler : ActiveOutputsHandler (Option (Switcher S))
  outputs_handler a o = o >>= active_outputs_changed a.internal a.external

  abbrev pub other_handler : ActiveOutputsHandler (Option (Switcher S))
  other_handler a o = o

module _ ⦃scene : Scene⦄ {D S : Type 0} ⦃spinner : Spinner S⦄ (this : ℕ) where
  abbrev without_handler : Compositor D S → MirScreen D (Option (Switcher S))
  without_handler c =
      if c.has_screen then unregister_active_outputs_handler this c.screen else c.screen

  pub set_screen : Compositor D S → Compositor D S
  set_screen c = record {
    screen = register_active_outputs_handler this outputs_handler (without_handler c);
    has_screen = true;
  }

  -- The destructor of the switcher: what it leaves on the screen.
  pub destroy : Compositor D S → Compositor D S
  destroy c = record c { screen = without_handler c }

module _ ⦃scene : Scene⦄ {D S : Type 0} ⦃spinner : Spinner S⦄ (this : ℕ) ⦃mir : Mir D⦄ where
  abbrev call_switcher : SwitcherEvent → Compositor D S → Compositor D S
  call_switcher e c = record c {
    screen = record c.screen { world = c.screen.world >>= switcher_step e };
  }

  pub step : Event → Compositor D S → Compositor D S
  step (added p) c = call_switcher (session_added p) c
  step (removed p) c = call_switcher (session_removed p) c
  step (ready p) c = call_switcher (session_ready p) c
  step (active name) c = call_switcher (active_set name) c
  step (next name) c = call_switcher (next_set name) c
  step (turned_on filter) c = record c { screen = turn_on filter c.screen }
  step (turned_off filter) c = record c { screen = turn_off filter c.screen }
  step (initially_configured os) c = record c { screen = initial_configuration os c.screen }
  step (configured os) c = record c { screen = configuration_applied os c.screen }
  step (registered o) c = record c {
    screen = register_active_outputs_handler o other_handler c.screen;
  }
  step (unregistered o) c = record c { screen = unregister_active_outputs_handler o c.screen }
  step screen_set c = set_screen this c

  pub run : List Event → Compositor D S → Compositor D S
  run [] c = c
  run (e ∷ es) c = run es (step e c)
