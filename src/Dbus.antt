-- ===== src/Dbus.antt =====
-- What src/unity_input_service.cpp and src/unity_display_service.cpp use of libdbus, which is not
-- modelled: what a message is asked, and what is put into the messages that are sent.
use unity_system_compositor.Prelude.{
  ℕ, ◌≡◌, Bool, true, ◌&&◌, List, Option, none, some, Str, str_eq, bytes,
}
use unity_system_compositor.Prelude.Int.{ℤ}

-- `M` is the type of messages. An argument is `none` where reading it sets
-- the error: it is missing or has another type.
pub record Dbus (M : Type 0) : Type 0 where
  pub is_method_call : M → Str → Str → Bool
  -- dbus_message_get_type(message) == DBUS_MESSAGE_TYPE_METHOD_CALL.
  pub has_call_type : M → Bool
  pub string_arg : M → Option Str
  pub string_args : M → Option (Str × Str)
  pub boolean_arg : M → Option Bool
  pub int32_arg : M → Option ℤ

-- `D` is the type double.
pub record DoubleArgs (M D : Type 0) : Type 0 where
  pub double_arg : M → Option D

-- The interface of a message against one that is asked for; a call may come without an interface, and
-- then any is taken for its own.
abbrev pub fits : Str → Option Str → Bool
fits i none = true
fits i (some j) = str_eq i j

-- dbus_message_is_method_call: it tests the type, the interface, where there is one, and the member.
pub record IsDocumented {M : Type 0} (dbus : Dbus M) : Type 0 where
  pub interface : M → Option Str
  pub member_name : M → Str
  pub call_tests :
      (m : M) (i n : Str)
      → dbus.is_method_call m i n
        ≡ (dbus.has_call_type m && fits i (interface m) && str_eq n (member_name m))

-- What is appended to a message.
pub data Value : Type 0 where
  string_value : Str → Value
  int32_value : ℕ → Value
  struct_value : Value → Value → Value
  variant_value : Value → Value
  dict_entry : Str → Value → Value
  array_of : Value → Value
  empty_array : Value

-- What is sent: a reply, an error of type DBUS_ERROR_FAILED with its text, or a signal of
-- org.freedesktop.DBus.Properties.
pub data Sent : Type 0 where
  method_return : List Value → Sent
  error : Str → Sent
  signal : Str → List Value → Sent

abbrev pub introspectable : Str
introspectable = bytes "org.freedesktop.DBus.Introspectable"

abbrev pub properties : Str
properties = bytes "org.freedesktop.DBus.Properties"
