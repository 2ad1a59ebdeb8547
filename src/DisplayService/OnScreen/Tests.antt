-- ===== src/DisplayService/OnScreen/Tests.antt =====
-- The service of src/unity_display_service.cpp with its screen at a concrete history.
use unity_system_compositor.Prelude.{
  ◌≡◌, refl, true, false, List, [], ◌∷◌, some, Str, bytes, length,
}
use unity_system_compositor.MirScreen.{
  ActiveOutputs, Configuration, Output, Mir, MirScreen, other_type, hdmia, on, off, OutputFilter,
  count_active_outputs, init as start,
}
use unity_system_compositor.DisplayService.Tests.{dbus}
use unity_system_compositor.DisplayService.Signals.{last}
use unity_system_compositor.DisplayService.OnScreen.{
  Served, Event, message, configured, turned_off, action, construct, run, run_actions,
}
use unity_system_compositor.DisplayService.OnScreen.Reports.{property_catches_up}

-- A device that keeps its configuration.
instance abbrev mir : Mir Configuration
mir = record {
  configuration = λ d. some d;
  configure = λ os d. (os, false);
  start = λ d. (d, false);
  stop = λ d. (d, false);
}

abbrev panel : Output
panel = record { type = other_type 7; connected = true; used = true; power_mode = on }

abbrev monitor : Output
monitor = record { type = hdmia; connected = true; used = true; power_mode = off }

abbrev screen : MirScreen Configuration (List ActiveOutputs)
screen = record {
  device = panel ∷ monitor ∷ [];
  active_outputs_handlers = [];
  active_outputs = count_active_outputs (panel ∷ monitor ∷ []);
  world = [];
}

abbrev history : List (Event Str)
history =
    message (bytes "TurnOn")
    ∷ action
    ∷ turned_off OutputFilter.external
    ∷ configured (panel ∷ [])
    ∷ message (bytes "TurnOff")
    ∷ []

abbrev service : Served Configuration
service = run history (construct 1 (bytes "<node/>") screen)

property_catches_up_example :
    (last service.active_outputs service.queue ≡ service.screen.active_outputs)
    × ((run_actions (length service.queue) service).queue ≡ [])
    × ((run_actions (length service.queue) service).active_outputs ≡ service.screen.active_outputs)
    × ((run_actions (length service.queue) service).screen ≡ service.screen)
unfolding start
property_catches_up_example =
    property_catches_up 1 (bytes "<node/>") (panel ∷ monitor ∷ []) screen refl history service refl
