-- ===== src/Server.antt =====
-- src/server.h and src/server.cpp: the parts that the server makes, each when it is first asked for.
-- A part that is made is held until the end, so that a CachedPtr finds it again. The arguments of a
-- constructor are evaluated from the left.
pub mod SystemCompositor
pub mod Order
pub mod Factories
pub mod Startup
pub mod Configured
mod Tests
use unity_system_compositor.Prelude.{
  ℕ, Bool, true, false, not, ◌&&◌, ◌||◌, List, [], ◌∷◌, Option, none, some, Str, bytes, ◌==◌,
  if◌then◌else◌,
}
use unity_system_compositor.Prelude.Int.{ℤ}

pub data Part : Type 0 where
  spinner session_switcher dm_connection input_configuration screen screen_event_handler : Part
  clock dbus_loop dbus_thread unity_display_service power_button_event_sink : Part
  user_activity_event_sink unity_input_service : Part

-- A part is made by what comes before it in this order.
abbrev pub number : Part → ℕ
number spinner = 0
number session_switcher = 1
number dm_connection = 2
number input_configuration = 3
number screen = 4
number power_button_event_sink = 5
number user_activity_event_sink = 6
number clock = 7
number screen_event_handler = 8
number dbus_loop = 9
number unity_display_service = 10
number unity_input_service = 11
number dbus_thread = 12

-- The options, as far as the code reads them, and the environment's DBUS_SYSTEM_BUS_ADDRESS.
pub record Options : Type 0 where
  pub from_dm_fd : Option ℤ
  pub to_dm_fd : Option ℤ
  pub debug_without_dm : Bool
  pub debug_active_session_name : Str
  pub blacklist_option : Option Str
  pub version : Bool
  pub spinner_option : Option Str
  pub public_socket_option : Option Bool
  pub no_file : Bool
  pub file : Option Str
  pub system_bus_address : Option Str

abbrev pub or_default {ℓ} : {A : Type ℓ} → Option A → A → A
or_default none default = default
or_default (some a) default = a

pub blacklist : Options → Str
blacklist o = or_default o.blacklist_option []

pub public_socket : Options → Bool
public_socket o = not o.no_file && or_default o.public_socket_option true

pub get_socket_file : Options → Str
get_socket_file o = or_default o.file (bytes "/tmp/mir_socket")

pub spinner_executable : Options → Str
spinner_executable o = or_default o.spinner_option []

pub dbus_bus_address : Options → Str
dbus_bus_address o =
    or_default o.system_bus_address (bytes "unix:path=/var/run/dbus/system_bus_socket")

-- The connection to the display manager: over pipes, or the stub with the session it makes active.
pub data ConnectionKind : Type 0 where
  asio : ℤ → ℤ → ConnectionKind
  null_handler : Str → ConnectionKind

abbrev stub_if : Bool → Str → Option ConnectionKind
stub_if stub name = if stub then some (null_handler name) else none

abbrev asio_or : Option ℤ → Option ℤ → Option ConnectionKind → Option ConnectionKind
asio_or (some from) (some to) other = some (asio from to)
asio_or (some from) none other = other
asio_or none to other = other

abbrev pub choose_connection : Options → Option ConnectionKind
choose_connection o =
    asio_or o.from_dm_fd o.to_dm_fd (stub_if o.debug_without_dm o.debug_active_session_name)

-- What happens while the parts are made and used. A spinner is made with the executable and the socket,
-- and what is on the bus with its address.
pub data Happening : Type 0 where
  makes : Part → Happening
  spinner_from : Str → Str → Happening
  connection_is : ConnectionKind → Happening
  on_bus : Str → Happening
  switcher_has_screen : Happening
  socket_is_public : Str → Happening
  dm_connection_starts : Happening
  active_session_set : Str → Happening
  filter_appended : Happening

-- The happenings so far, the last one first, and whether an exception has ended them.
pub data Outcome : Type 0 where
  done thrown : List Happening → Outcome

pub next : Outcome → (List Happening → Outcome) → Outcome
next (done h) go = go h
next (thrown h) go = thrown h

abbrev pub makes_part : Part → Happening → Bool
makes_part p (makes q) = number p == number q
makes_part p (spinner_from executable socket) = false
makes_part p (connection_is c) = false
makes_part p (on_bus address) = false
makes_part p switcher_has_screen = false
makes_part p (socket_is_public file) = false
makes_part p dm_connection_starts = false
makes_part p (active_session_set name) = false
makes_part p filter_appended = false

abbrev pub is_made : Part → List Happening → Bool
is_made p [] = false
is_made p (e ∷ h) = makes_part p e || is_made p h

-- `fails`: whose constructor throws.
module _ (fails : Part → Bool) where
  pub make : Part → List Happening → Outcome
  make p h = if fails p then thrown h else done (makes p ∷ h)

  -- CachedPtr: the part that is there, or a new one.
  abbrev pub cached : Part → Outcome → List Happening → Outcome
  cached p created h = if is_made p h then done h else created

module _ (fails : Part → Bool) (o : Options) where
  pub the_spinner : List Happening → Outcome
  the_spinner h =
      cached fails spinner
        (next (make fails spinner h)
          (λ g. done (spinner_from (spinner_executable o) (get_socket_file o) ∷ g)))
        h

  pub the_session_switcher : List Happening → Outcome
  the_session_switcher h =
      cached fails session_switcher (next (the_spinner h) (make fails session_switcher)) h

  pub the_dm_message_handler : List Happening → Outcome
  the_dm_message_handler = the_session_switcher

  abbrev connect : ConnectionKind → List Happening → Outcome
  connect c h =
      next (the_dm_message_handler h)
        (λ g. next (make fails dm_connection g) (λ f. done (connection_is c ∷ f)))

  abbrev pub connect_if : Option ConnectionKind → List Happening → Outcome
  connect_if none h = thrown h
  connect_if (some c) h = connect c h

  pub the_dm_connection : List Happening → Outcome
  the_dm_connection h = cached fails dm_connection (connect_if (choose_connection o) h) h

  pub the_input_configuration : List Happening → Outcome
  the_input_configuration h = cached fails input_configuration (make fails input_configuration h) h

  -- The switcher is given the new screen.
  pub the_screen : List Happening → Outcome
  the_screen h =
      cached fails screen
        (next (make fails screen h)
          (λ g. next (the_session_switcher g) (λ f. done (switcher_has_screen ∷ f))))
        h

  pub the_clock : List Happening → Outcome
  the_clock h = cached fails clock (make fails clock h) h

  abbrev pub on_the_bus : Part → List Happening → Outcome
  on_the_bus p h = next (make fails p h) (λ g. done (on_bus (dbus_bus_address o) ∷ g))

  pub the_power_button_event_sink : List Happening → Outcome
  the_power_button_event_sink h =
      cached fails power_button_event_sink (on_the_bus power_button_event_sink h) h

  pub the_user_activity_event_sink : List Happening → Outcome
  the_user_activity_event_sink h =
      cached fails user_activity_event_sink (on_the_bus user_activity_event_sink h) h

  pub the_screen_event_handler : List Happening → Outcome
  the_screen_event_handler h =
      cached fails screen_event_handler
        (next (the_power_button_event_sink h) (λ g.
          next (the_user_activity_event_sink g)
            (λ f. next (the_clock f) (make fails screen_event_handler))))
        h

  pub the_dbus_event_loop : List Happening → Outcome
  the_dbus_event_loop h = cached fails dbus_loop (make fails dbus_loop h) h

  pub the_dbus_connection_thread : List Happening → Outcome
  the_dbus_connection_thread h =
      cached fails dbus_thread (next (the_dbus_event_loop h) (make fails dbus_thread)) h

  pub the_unity_display_service : List Happening → Outcome
  the_unity_display_service h =
      cached fails unity_display_service
        (next (the_dbus_event_loop h) (λ g. next (the_screen g) (on_the_bus unity_display_service)))
        h

  pub the_unity_input_service : List Happening → Outcome
  the_unity_input_service h =
      cached fails unity_input_service
        (next (the_dbus_event_loop h)
          (λ g. next (the_input_configuration g) (on_the_bus unity_input_service)))
        h
