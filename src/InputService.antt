-- ===== src/InputService.antt =====
-- src/unity_input_service.h and src/unity_input_service.cpp: the D-Bus service that sets the input
-- configuration. libdbus is a parameter; adding the connection to the loop is in
-- DbusHandles/Connections.
pub mod Table
mod Tests
use unity_system_compositor.Prelude.{
  Bool, true, false, List, [], ◌∷◌, Option, none, some, Str, bytes, if◌then◌else◌,
}
use unity_system_compositor.Dbus.{
  Dbus, DoubleArgs, Value, string_value, Sent, method_return, error, introspectable,
}
use unity_system_compositor.InputConfiguration.{InputConfiguration}

abbrev pub dbus_input_interface : Str
dbus_input_interface = bytes "com.canonical.Unity.Input"

-- `unity_input_service_introspection` is generated, and `sent` has the last message first.
pub record InputService (S : Type 0) : Type 0 where
  pub introspection : Str
  pub input_config : S
  pub sent : List Sent

module _ {S : Type 0} where
  pub send : Sent → InputService S → InputService S
  send message s = record s { sent = message ∷ s.sent }

  -- The three `handle_message`, behind the reading of the argument.
  pub handle_message : {A : Type 0} → Option A → (A → S → S) → InputService S → InputService S
  handle_message none method s = s
  handle_message (some value) method s =
      send (method_return []) (record s { input_config = method value s.input_config })

  -- The end of `handle_dbus_message`.
  pub report_args_error : Bool → InputService S → InputService S
  report_args_error args_error s =
      if args_error then send (error (bytes "Invalid arguments")) s else s

module _ {M : Type 0} ⦃dbus : Dbus M⦄ where
  abbrev calls : M → Str → Bool
  calls m name = dbus.is_method_call m dbus_input_interface name

-- `D` is the type double.
module _ (D : Type 0) {M S : Type 0} ⦃dbus : Dbus M⦄ ⦃doubles : DoubleArgs M D⦄
    ⦃config : InputConfiguration D S⦄ where
  pub dispatch : M → InputService S → InputService S
  dispatch m s =
      if dbus.is_method_call m introspectable (bytes "Introspect")
      then send (method_return (string_value s.introspection ∷ [])) s
      else if calls m (bytes "setMousePrimaryButton")
      then handle_message (dbus.int32_arg m) config.set_mouse_primary_button s
      else if calls m (bytes "setMouseCursorSpeed")
      then handle_message (doubles.double_arg m) config.set_mouse_cursor_speed s
      else if calls m (bytes "setMouseScrollSpeed")
      then handle_message (doubles.double_arg m) config.set_mouse_scroll_speed s
      else if calls m (bytes "setTouchpadPrimaryButton")
      then handle_message (dbus.int32_arg m) config.set_touchpad_primary_button s
      else if calls m (bytes "setTouchpadCursorSpeed")
      then handle_message (doubles.double_arg m) config.set_touchpad_cursor_speed s
      else if calls m (bytes "setTouchpadScrollSpeed")
      then handle_message (doubles.double_arg m) config.set_touchpad_scroll_speed s
      else if calls m (bytes "setTouchpadDisableWhileTyping")
      then handle_message (dbus.boolean_arg m) config.set_disable_touchpad_while_typing s
      else if calls m (bytes "setTouchpadTapToClick")
      then handle_message (dbus.boolean_arg m) config.set_tap_to_click s
      else if calls m (bytes "setTouchpadTwoFingerScroll")
      then handle_message (dbus.boolean_arg m) config.set_two_finger_scroll s
      else if calls m (bytes "setTouchpadDisableWithMouse")
      then handle_message (dbus.boolean_arg m) config.set_disable_touchpad_with_mouse s
      else if dbus.has_call_type m
      then send (error (bytes "Not supported")) s
      else s

  -- Each `handle_message` has an error of its own: nothing sets the `args_error` that is tested here.
  pub handle_dbus_message : M → InputService S → InputService S
  handle_dbus_message m s = let args_error = false in report_args_error args_error (dispatch m s)
