-- ===== src/DisplayService/Tests.antt =====
-- The theorems about src/unity_display_service.cpp at concrete inputs.
use unity_system_compositor.Prelude.{
  ◌≡◌, refl, true, ◌&&◌, List, [], ◌∷◌, none, some, Str, str_eq, bytes,
}
use unity_system_compositor.MirScreen.{OutputFilter}
use unity_system_compositor.Dbus.{Dbus, IsDocumented}
use unity_system_compositor.DisplayService.{
  Screen, DisplayService, dbus_display_interface, init, handle_dbus_message,
}
use unity_system_compositor.DisplayService.Table.{handle_dbus_message-told}
use unity_system_compositor.DisplayService.Answers.{told_by_table}
use unity_system_compositor.DisplayService.Signals.{
  Event, message, changed, action, run, told, IsTelling, run-init-IsTelling,
}

-- A message is the member that it calls on the display interface, without arguments.
instance abbrev pub dbus : Dbus Str
dbus = record {
  is_method_call = λ m i n. true && str_eq i dbus_display_interface && str_eq n m;
  has_call_type = λ m. true;
  string_arg = λ m. none;
  string_args = λ m. none;
  boolean_arg = λ m. none;
  int32_arg = λ m. none;
}

abbrev documented : IsDocumented dbus
documented = record {
  interface = λ m. some dbus_display_interface;
  member_name = λ m. m;
  call_tests = λ m i n. refl;
}

-- The screen keeps the filters that were turned on.
instance abbrev screen : Screen (List OutputFilter)
screen = record { turn_on = ◌∷◌; turn_off = λ f s. s }

abbrev service : DisplayService (List OutputFilter)
service = init (bytes "<node/>") []

handle_dbus_message-told_example :
    handle_dbus_message (bytes "TurnOn") service ≡ told_by_table documented (bytes "TurnOn") service
handle_dbus_message-told_example = handle_dbus_message-told documented (bytes "TurnOn") service

abbrev events : List (Event Str)
events =
    changed (record { internal = 1; external = 0 })
    ∷ action
    ∷ message (bytes "TurnOn")
    ∷ changed (record { internal = 1; external = 1 })
    ∷ []

run-init-IsTelling_example : IsTelling (told events) (run events service)
run-init-IsTelling_example = run-init-IsTelling events (bytes "<node/>") []
