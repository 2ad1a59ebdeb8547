-- ===== src/DisplayService/Answers.antt =====
-- The methods of src/unity_display_service.cpp and what is answered to each, as a table.
use unity_system_compositor.Prelude.{
  ◌≡◌, refl, ◌&&◌, List, [], ◌∷◌, Option, none, some, Str, str_eq, str_eq_iff, bytes, if◌then◌else◌,
  arith,
}
use unity_system_compositor.Prelude.Map
use unity_system_compositor.Prelude.Map.{str_key}
use unity_system_compositor.MirScreen.{ActiveOutputs, OutputFilter}
use unity_system_compositor.Dbus.{
  Dbus, IsDocumented, fits, Value, string_value, int32_value, struct_value, variant_value,
  dict_entry, array_of, Sent, method_return, error, introspectable, properties,
}
use unity_system_compositor.DisplayService.{
  Screen, DisplayService, dbus_display_interface, output_filter_from_string, filter_or_all,
  get_reply, get_all_reply, dbus_properties_get, dbus_properties_get_all, active_outputs_variant,
  active_outputs_dict_entry,
}

pub data Method : Type 0 where
  introspect turn_on turn_off get get_all : Method

-- Each method by its name, with its interface.
abbrev pub methods : List (Str × (Str × Method))
methods =
    (bytes "Introspect", (introspectable, introspect))
    ∷ (bytes "TurnOn", (dbus_display_interface, turn_on))
    ∷ (bytes "TurnOff", (dbus_display_interface, turn_off))
    ∷ (bytes "Get", (properties, get))
    ∷ (bytes "GetAll", (properties, get_all))
    ∷ []

abbrev pub filters : List (Str × OutputFilter)
filters = (bytes "internal", OutputFilter.internal) ∷ (bytes "external", OutputFilter.external) ∷ []

abbrev or_all : Option OutputFilter → OutputFilter
or_all none = OutputFilter.all
or_all (some f) = f

abbrev filter_of : Option Str → OutputFilter
filter_of none = OutputFilter.all
filter_of (some name) = or_all (Map.find name filters)

-- The property's value, two counts in a variant.
abbrev value_of : ActiveOutputs → Value
value_of a = variant_value (struct_value (int32_value a.internal) (int32_value a.external))

abbrev get_values : Option (Str × Str) → ActiveOutputs → List Value
get_values none a = []
get_values (some (interface, property)) a =
    if str_eq interface dbus_display_interface && str_eq property (bytes "ActiveOutputs")
    then value_of a ∷ []
    else []

abbrev get_all_values : Option Str → ActiveOutputs → List Value
get_all_values none a = []
get_all_values (some interface) a =
    if str_eq interface dbus_display_interface
    then array_of (dict_entry (bytes "ActiveOutputs") (value_of a)) ∷ []
    else []

-- The answers, the last one first: the error comes behind the return.
abbrev answers : {A : Type 0} → Option A → List Value → List Sent → List Sent
answers none vs sent = error (bytes "Invalid arguments") ∷ method_return vs ∷ sent
answers (some a) vs sent = method_return vs ∷ sent

module _ {M S : Type 0} ⦃dbus : Dbus M⦄ ⦃screen : Screen S⦄ where
  abbrev by_method : Method → M → DisplayService S → DisplayService S
  by_method introspect m s = record s {
    sent = method_return (string_value s.introspection ∷ []) ∷ s.sent;
  }
  by_method turn_on m s = record s {
    screen = screen.turn_on (filter_of (dbus.string_arg m)) s.screen;
    sent = answers (dbus.string_arg m) [] s.sent;
  }
  by_method turn_off m s = record s {
    screen = screen.turn_off (filter_of (dbus.string_arg m)) s.screen;
    sent = answers (dbus.string_arg m) [] s.sent;
  }
  by_method get m s = record s {
    sent = answers (dbus.string_args m) (get_values (dbus.string_args m) s.active_outputs) s.sent;
  }
  by_method get_all m s = record s {
    sent = answers (dbus.string_arg m) (get_all_values (dbus.string_arg m) s.active_outputs) s.sent;
  }

  abbrev by_table : Option Str → Option (Str × Method) → M → DisplayService S → DisplayService S
  by_table asked none m s = record s { sent = error (bytes "Not supported") ∷ s.sent }
  by_table asked (some (interface, method)) m s =
      if fits interface asked
      then by_method method m s
      else record s { sent = error (bytes "Not supported") ∷ s.sent }

  abbrev pub told_by_table : IsDocumented dbus → M → DisplayService S → DisplayService S
  told_by_table documented m s =
      if dbus.has_call_type m
      then by_table (documented.interface m) (Map.find (documented.member_name m) methods) m s
      else s

module _ {S : Type 0} where
  pub get_reply_lem :
      (o : Option (Str × Str)) (s : DisplayService S)
      → get_reply o s ≡ get_values o s.active_outputs
  unfolding get_reply dbus_properties_get active_outputs_variant
  get_reply_lem none s = refl
  get_reply_lem (some (interface, property)) s = ground arith

  pub get_all_reply_lem :
      (o : Option Str) (s : DisplayService S)
      → get_all_reply o s ≡ get_all_values o s.active_outputs
  unfolding get_all_reply dbus_properties_get_all active_outputs_dict_entry active_outputs_variant
  get_all_reply_lem none s = refl
  get_all_reply_lem (some interface) s = ground arith

str_eq_comm : (s t : Str) → str_eq s t ≡ str_eq t s
str_eq_comm s t = ground (arith, str_eq_iff s t, str_eq_iff t s)

pub output_filter_lem : (o : Option Str) → output_filter_from_string (filter_or_all o) ≡ filter_of o
unfolding output_filter_from_string Map.find str_eq
output_filter_lem none = refl
output_filter_lem (some name) =
    ground (arith, str_eq_comm name (bytes "internal"), str_eq_comm name (bytes "external"))
