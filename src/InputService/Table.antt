-- ===== src/InputService/Table.antt =====
-- The table that src/unity_input_service.cpp spells out: which method sets what, and how it is
-- answered.
use unity_system_compositor.Prelude.{
  ◌≡◌, Bool, not, ◌&&◌, List, [], ◌∷◌, Option, none, some, Str, str_eq, bytes, if◌then◌else◌, arith,
}
use unity_system_compositor.Prelude.Int.{ℤ}
use unity_system_compositor.Prelude.Map
use unity_system_compositor.Prelude.Map.{str_key}
use unity_system_compositor.Dbus.{
  Dbus, DoubleArgs, IsDocumented, fits, string_value, method_return, error, introspectable,
}
use unity_system_compositor.InputConfiguration.{InputConfiguration}
use unity_system_compositor.InputService.{
  InputService, dbus_input_interface, send, handle_message, report_args_error, dispatch,
  handle_dbus_message,
}

-- A method by the type of its argument.
pub data Method (D S : Type 0) : Type 0 where
  by_boolean : (Bool → S → S) → Method D S
  by_int32 : (ℤ → S → S) → Method D S
  by_double : (D → S → S) → Method D S

module _ {D S : Type 0} ⦃config : InputConfiguration D S⦄ where
  abbrev methods : List (Str × Method D S)
  methods =
      (bytes "setMousePrimaryButton", by_int32 config.set_mouse_primary_button)
      ∷ (bytes "setMouseCursorSpeed", by_double config.set_mouse_cursor_speed)
      ∷ (bytes "setMouseScrollSpeed", by_double config.set_mouse_scroll_speed)
      ∷ (bytes "setTouchpadPrimaryButton", by_int32 config.set_touchpad_primary_button)
      ∷ (bytes "setTouchpadCursorSpeed", by_double config.set_touchpad_cursor_speed)
      ∷ (bytes "setTouchpadScrollSpeed", by_double config.set_touchpad_scroll_speed)
      ∷ (bytes "setTouchpadDisableWhileTyping", by_boolean config.set_disable_touchpad_while_typing)
      ∷ (bytes "setTouchpadTapToClick", by_boolean config.set_tap_to_click)
      ∷ (bytes "setTouchpadTwoFingerScroll", by_boolean config.set_two_finger_scroll)
      ∷ (bytes "setTouchpadDisableWithMouse", by_boolean config.set_disable_touchpad_with_mouse)
      ∷ []

abbrev given : {A S : Type 0} → Option A → (A → S → S) → S → Option S
given none f c = none
given (some a) f c = some (f a c)

module _ {D M S : Type 0} ⦃dbus : Dbus M⦄ ⦃doubles : DoubleArgs M D⦄ where
  -- The configuration after the method; `none` if its argument cannot be read.
  abbrev applied : Method D S → M → S → Option S
  applied (by_boolean f) m c = given (dbus.boolean_arg m) f c
  applied (by_int32 f) m c = given (dbus.int32_arg m) f c
  applied (by_double f) m c = given (doubles.double_arg m) f c

abbrev answered : {S : Type 0} → Option S → InputService S → InputService S
answered none s = s
answered (some c) s = record s { input_config = c; sent = method_return [] ∷ s.sent }

module _ (D : Type 0) {M S : Type 0} ⦃dbus : Dbus M⦄ ⦃doubles : DoubleArgs M D⦄
    ⦃config : InputConfiguration D S⦄ where
  abbrev by_table : Option (Method D S) → M → InputService S → InputService S
  by_table none m s = record s { sent = error (bytes "Not supported") ∷ s.sent }
  by_table (some method) m s = answered (applied method m s.input_config) s

  abbrev pub specified : IsDocumented dbus → M → InputService S → InputService S
  specified documented m s =
      if not (dbus.has_call_type m)
      then s
      else if fits introspectable (documented.interface m)
          && str_eq (bytes "Introspect") (documented.member_name m)
      then record s { sent = method_return (string_value s.introspection ∷ []) ∷ s.sent }
      else if fits dbus_input_interface (documented.interface m)
      then by_table (Map.find (documented.member_name m) methods) m s
      else record s { sent = error (bytes "Not supported") ∷ s.sent }

  -- Where libdbus tests method calls as documented, so that a call without an interface is taken
  -- for one of any interface: a message that is no method call changes nothing. A call of
  -- Introspect is answered by the introspection text, and a call of the input interface, or of
  -- none, as the table of its ten methods says: an argument of the method's type is set and
  -- answered, any other argument changes nothing and gets no answer. Every other call is answered
  -- by the error "Not supported".
  pub handle_dbus_message-specified :
      (documented : IsDocumented dbus) (m : M) (s : InputService S)
      → handle_dbus_message D m s ≡ specified documented m s
  unfolding handle_dbus_message report_args_error dispatch handle_message send Map.find
  handle_dbus_message-specified documented m s = ground (
    arith,
    documented.call_tests m introspectable (bytes "Introspect"),
    documented.call_tests m dbus_input_interface (bytes "setMousePrimaryButton"),
    documented.call_tests m dbus_input_interface (bytes "setMouseCursorSpeed"),
    documented.call_tests m dbus_input_interface (bytes "setMouseScrollSpeed"),
    documented.call_tests m dbus_input_interface (bytes "setTouchpadPrimaryButton"),
    documented.call_tests m dbus_input_interface (bytes "setTouchpadCursorSpeed"),
    documented.call_tests m dbus_input_interface (bytes "setTouchpadScrollSpeed"),
    documented.call_tests m dbus_input_interface (bytes "setTouchpadDisableWhileTyping"),
    documented.call_tests m dbus_input_interface (bytes "setTouchpadTapToClick"),
    documented.call_tests m dbus_input_interface (bytes "setTouchpadTwoFingerScroll"),
    documented.call_tests m dbus_input_interface (bytes "setTouchpadDisableWithMouse"),
  )
