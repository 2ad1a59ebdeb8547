-- ===== src/InputService/Tests.antt =====
-- The theorems about src/unity_input_service.cpp at concrete inputs.
use unity_system_compositor.Prelude.{ℕ, ◌≡◌, refl, true, ◌&&◌, [], none, some, Str, str_eq, bytes}
use unity_system_compositor.Prelude.Map.{str_key}
use unity_system_compositor.Dbus.{Dbus, DoubleArgs, IsDocumented}
use unity_system_compositor.InputConfiguration.{InputConfiguration}
use unity_system_compositor.InputService.{InputService, dbus_input_interface, handle_dbus_message}
use unity_system_compositor.InputService.Table.{specified, handle_dbus_message-specified}

-- A message is the member that it calls on the input interface, with the argument `true`; the
-- configuration is the number of its changes.
instance abbrev dbus : Dbus Str
dbus = record {
  is_method_call = λ m i n. true && str_eq i dbus_input_interface && str_eq n m;
  has_call_type = λ m. true;
  string_arg = λ m. none;
  string_args = λ m. none;
  boolean_arg = λ m. some true;
  int32_arg = λ m. none;
}

instance abbrev doubles : DoubleArgs Str ℕ
doubles = record { double_arg = λ m. none }

instance abbrev config : InputConfiguration ℕ ℕ
config = record {
  set_mouse_primary_button = λ b. ℕ.suc;
  set_mouse_cursor_speed = λ b. ℕ.suc;
  set_mouse_scroll_speed = λ b. ℕ.suc;
  set_touchpad_primary_button = λ b. ℕ.suc;
  set_touchpad_cursor_speed = λ b. ℕ.suc;
  set_touchpad_scroll_speed = λ b. ℕ.suc;
  set_two_finger_scroll = λ b. ℕ.suc;
  set_tap_to_click = λ b. ℕ.suc;
  set_disable_touchpad_while_typing = λ b. ℕ.suc;
  set_disable_touchpad_with_mouse = λ b. ℕ.suc;
}

abbrev documented : IsDocumented dbus
documented = record {
  interface = λ m. some dbus_input_interface;
  member_name = λ m. m;
  call_tests = λ m i n. refl;
}

abbrev service : InputService ℕ
service = record { introspection = bytes "<node/>"; input_config = 0; sent = [] }

handle_dbus_message-specified_example :
    handle_dbus_message ℕ (bytes "setTouchpadTapToClick") service
    ≡ specified ℕ documented (bytes "setTouchpadTapToClick") service
handle_dbus_message-specified_example =
    handle_dbus_message-specified ℕ documented (bytes "setTouchpadTapToClick") service
