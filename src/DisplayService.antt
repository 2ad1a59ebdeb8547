-- ===== src/DisplayService.antt =====
-- src/unity_display_service.h and src/unity_display_service.cpp: the D-Bus service that turns the
-- outputs on and off and says how many are active. libdbus is a parameter. Adding the connection to
-- the loop is in DbusHandles/Connections; flushing it is left out.
pub mod Answers
pub mod Table
pub mod Signals
pub mod OnScreen
mod Tests
use unity_system_compositor.Prelude.{
  Bool, true, false, List, [], ◌∷◌, ◌++◌, Option, none, some, Str, str_eq, bytes, if◌then◌else◌,
}
use unity_system_compositor.Dbus.{
  Dbus, Value, string_value, int32_value, struct_value, variant_value, dict_entry, array_of,
  empty_array, Sent, method_return, error, signal, introspectable, properties,
}
use unity_system_compositor.MirScreen.{
  ActiveOutputs, OutputFilter, all, internal, external, Mir, MirScreen, no_outputs,
  turn_on as mir_turn_on, turn_off as mir_turn_off,
}

abbrev pub dbus_display_interface : Str
dbus_display_interface = bytes "com.canonical.Unity.Display"

-- usc::Screen, as far as the service calls it in answer to a message.
pub record Screen (S : Type 0) : Type 0 where
  pub turn_on : OutputFilter → S → S
  pub turn_off : OutputFilter → S → S

-- The screen of src/mir_screen.cpp behind the interface.
mir_screen : {D W : Type 0} → ⦃mir : Mir D⦄ → Screen (MirScreen D W)
mir_screen = record { turn_on = mir_turn_on; turn_off = mir_turn_off }

-- `unity_display_service_introspection` is generated. `queue` holds the counts of the actions that the
-- loop has still to run, the next one first; `sent` has the last message first.
pub record DisplayService (S : Type 0) : Type 0 where
  pub introspection : Str
  pub screen : S
  pub active_outputs : ActiveOutputs
  pub queue : List ActiveOutputs
  pub sent : List Sent

-- usc_dbus_message_iter_append_active_outputs_variant.
active_outputs_variant : ActiveOutputs → Value
active_outputs_variant a =
    variant_value (struct_value (int32_value a.internal) (int32_value a.external))

-- usc_dbus_message_iter_append_active_outputs_dict_entry.
pub active_outputs_dict_entry : ActiveOutputs → Value
active_outputs_dict_entry a = dict_entry (bytes "ActiveOutputs") (active_outputs_variant a)

pub output_filter_from_string : Str → OutputFilter
output_filter_from_string filter =
    if str_eq filter (bytes "internal")
    then internal
    else if str_eq filter (bytes "external")
    then external
    else all

module _ {S : Type 0} where
  pub init : Str → S → DisplayService S
  init introspection screen = record {
    introspection = introspection;
    screen = screen;
    active_outputs = no_outputs;
    queue = [];
    sent = [];
  }

  pub send : Sent → DisplayService S → DisplayService S
  send message s = record s { sent = message ∷ s.sent }

  pub dbus_emit_active_outputs : DisplayService S → DisplayService S
  dbus_emit_active_outputs s =
      send
        (signal (bytes "PropertiesChanged") (
          string_value dbus_display_interface
          ∷ array_of (active_outputs_dict_entry s.active_outputs)
          ∷ empty_array
          ∷ []))
        s

  -- The handler that the constructor registers: it enqueues an action on the loop.
  pub active_outputs_changed : ActiveOutputs → DisplayService S → DisplayService S
  active_outputs_changed a s = record s { queue = s.queue ++ a ∷ [] }

  -- The loop runs the next action, if there is one.
  pub run_action : DisplayService S → DisplayService S
  run_action s = elim s.queue [
    | [] ↦ s
    | a ∷ queue ↦ dbus_emit_active_outputs (record s { active_outputs = a; queue = queue })
  ]

  -- What the reply of `Get` is given, and that of `GetAll`.
  dbus_properties_get : Str → DisplayService S → List Value
  dbus_properties_get property s =
      if str_eq property (bytes "ActiveOutputs")
      then active_outputs_variant s.active_outputs ∷ []
      else []

  dbus_properties_get_all : DisplayService S → List Value
  dbus_properties_get_all s = array_of (active_outputs_dict_entry s.active_outputs) ∷ []

  -- `Get` and `GetAll` behind the reading of the arguments.
  pub get_reply : Option (Str × Str) → DisplayService S → List Value
  get_reply none s = []
  get_reply (some (interface, property)) s =
      if str_eq interface dbus_display_interface then dbus_properties_get property s else []

  pub get_all_reply : Option Str → DisplayService S → List Value
  get_all_reply none s = []
  get_all_reply (some interface) s =
      if str_eq interface dbus_display_interface then dbus_properties_get_all s else []

-- For backward compatibility a call without a filter is about all outputs.
abbrev pub filter_or_all : Option Str → Str
filter_or_all none = bytes "all"
filter_or_all (some filter) = filter

-- `args_error` after the reading of an argument.
abbrev is_error {ℓ} : {A : Type ℓ} → Option A → Bool
is_error none = true
is_error (some a) = false

module _ {S : Type 0} ⦃screen : Screen S⦄ where
  pub dbus_turn_on : Str → DisplayService S → DisplayService S
  dbus_turn_on filter s = record s {
    screen = screen.turn_on (output_filter_from_string filter) s.screen;
  }

  pub dbus_turn_off : Str → DisplayService S → DisplayService S
  dbus_turn_off filter s = record s {
    screen = screen.turn_off (output_filter_from_string filter) s.screen;
  }

module _ {M : Type 0} ⦃dbus : Dbus M⦄ where
  abbrev calls : M → Str → Bool
  calls m name = dbus.is_method_call m dbus_display_interface name

module _ {M S : Type 0} ⦃dbus : Dbus M⦄ ⦃screen : Screen S⦄ where
  -- The branches of `handle_dbus_message`; the result says whether `args_error` is set.
  pub dispatch : M → DisplayService S → DisplayService S × Bool
  dispatch m s =
      if dbus.is_method_call m introspectable (bytes "Introspect")
      then (send (method_return (string_value s.introspection ∷ [])) s, false)
      else if calls m (bytes "TurnOn")
      then (
        send (method_return []) (dbus_turn_on (filter_or_all (dbus.string_arg m)) s),
        is_error (dbus.string_arg m),
      )
      else if calls m (bytes "TurnOff")
      then (
        send (method_return []) (dbus_turn_off (filter_or_all (dbus.string_arg m)) s),
        is_error (dbus.string_arg m),
      )
      else if dbus.is_method_call m properties (bytes "Get")
      then (
        send (method_return (get_reply (dbus.string_args m) s)) s,
        is_error (dbus.string_args m),
      )
      else if dbus.is_method_call m properties (bytes "GetAll")
      then (
        send (method_return (get_all_reply (dbus.string_arg m) s)) s,
        is_error (dbus.string_arg m),
      )
      else if dbus.has_call_type m
      then (send (error (bytes "Not supported")) s, false)
      else (s, false)

  pub handle_dbus_message : M → DisplayService S → DisplayService S
  handle_dbus_message m s =
      let (s', args_error) = dispatch m s in
      if args_error then send (error (bytes "Invalid arguments")) s' else s'
