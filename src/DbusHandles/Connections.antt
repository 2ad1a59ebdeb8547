-- ===== src/DbusHandles/Connections.antt =====
-- src/dbus_connection_handle.cpp, the connections of src/dbus_event_loop.cpp, and the constructors of
-- src/unity_display_service.cpp, src/unity_input_service.cpp and of the two event sinks, which use
-- them. libdbus is a parameter that answers each call by the calls made before it.
pub mod Owed
pub mod GivenBack
use unity_system_compositor.Prelude.{
  ℕ, zero, suc, Bool, true, false, not, List, [], ◌∷◌, ◌++◌, Option, none, some, Str, bytes,
  if◌then◌else◌,
}
use unity_system_compositor.Outcome.{Run, ◌>>=◌, ◌>>◌, pure, ask, tell, throw, require, guarded}

-- The calls of libdbus that took effect, on a connection by its address, `refused` where
-- dbus_bus_register fails. `kept` is a connection put into the loop's vector, `loop_ended` the end of
-- that vector. A filter is for a service by its address.
pub data Call : Type 0 where
  opened refused closed unreffed : ℕ → Call
  named : ℕ → Str → Call
  matched : ℕ → Str → Call
  filtered : ℕ → ℕ → Call
  kept watched unwatched : ℕ → Call
  thread_started thread_joined loop_ended : Call

abbrev pub Calls : Type 0
Calls = List Call

-- `request_name` gives none on an error, and otherwise whether the caller is the primary owner.
pub record Bus : Type 0 where
  pub open_private : Str → Calls → Option ℕ
  pub register : ℕ → Calls → Bool
  pub is_connected : ℕ → Calls → Bool
  pub request_name : ℕ → Str → Calls → Option Bool
  pub add_match : ℕ → Str → Calls → Bool
  pub add_filter : ℕ → ℕ → Calls → Bool

abbrev M : Type 0 → Type 0
M A = Run Call A

-- The vector of the loop.
abbrev pub connections : Calls → List ℕ
connections [] = []
connections (kept c ∷ h) = connections h ++ c ∷ []
connections (loop_ended ∷ h) = []
connections (opened c ∷ h) = connections h
connections (refused c ∷ h) = connections h
connections (closed c ∷ h) = connections h
connections (unreffed c ∷ h) = connections h
connections (named c name ∷ h) = connections h
connections (matched c match ∷ h) = connections h
connections (filtered c this ∷ h) = connections h
connections (watched c ∷ h) = connections h
connections (unwatched c ∷ h) = connections h
connections (thread_started ∷ h) = connections h
connections (thread_joined ∷ h) = connections h

abbrev found : Option ℕ → M ℕ
found none = throw (bytes "dbus_connection_open: ")
found (some c) = do tell (opened c); pure c

abbrev is_owner : Option Bool → M (Unit {0})
is_owner none = throw (bytes "dbus_request_name: ")
is_owner (some primary) =
    require primary (bytes "dbus_request_name: Failed to become primary owner")

abbrev check_registered : Bool → ℕ → M ℕ
check_registered true c = pure c
check_registered false c = do tell (refused c); throw (bytes "dbus_bus_register: ")

module _ (bus : Bus) where
  -- The constructor of DBusConnectionHandle. Where the bus refuses, the destructor does not run.
  pub open_connection : Str → M ℕ
  open_connection address = do
    connection ← ask (bus.open_private address)
    c ← found connection
    registered ← ask (bus.register c)
    check_registered registered c

  -- The destructor.
  pub disconnect : ℕ → M (Unit {0})
  disconnect c = do
    connected ← ask (bus.is_connected c)
    if connected then tell (closed c) else pure tt
    tell (unreffed c)

  pub request_name : ℕ → Str → M (Unit {0})
  request_name c name = do
    owner ← ask (bus.request_name c name)
    is_owner owner
    tell (named c name)

  pub add_match : ℕ → Str → M (Unit {0})
  add_match c match = do
    added ← ask (bus.add_match c match)
    require added (bytes "dbus_add_match: ")
    tell (matched c match)

  pub add_filter : ℕ → ℕ → M (Unit {0})
  add_filter c this = do
    added ← ask (bus.add_filter c this)
    require added (bytes "dbus_connection_add_filter: Failed to add filter")
    tell (filtered c this)

  pub disconnect_all : List ℕ → M (Unit {0})
  disconnect_all [] = pure tt
  disconnect_all (c ∷ cs) = do disconnect c; disconnect_all cs

  pub unwatch_all : List ℕ → M (Unit {0})
  unwatch_all [] = pure tt
  unwatch_all (c ∷ cs) = do tell (unwatched c); unwatch_all cs

  -- The loop's destructor and its vector's, when no service has a connection any more.
  pub end_loop : M (Unit {0})
  end_loop = do
    kept_ones ← ask connections
    unwatch_all kept_ones
    tell loop_ended
    disconnect_all kept_ones

-- `running` is the loop's flag.
pub add_connection : Bool → ℕ → M (Unit {0})
add_connection running c = do
  require (not running) (bytes "Connection added after dbus event loop started")
  tell (kept c)
  tell (watched c)

module _ (bus : Bus) where
  -- The constructors of the two services, on the loop. Where the loop has not kept the connection,
  -- an exception ends it.
  pub make_service : Bool → Str → Str → ℕ → M ℕ
  make_service running address name this = do
    c ← open_connection bus address
    guarded (add_connection running c) (disconnect bus c)
    request_name bus c name
    add_filter bus c this
    pure c

  -- The constructors of the event sinks; their connection is their own.
  pub make_sink : Str → Str → M ℕ
  make_sink address name = do
    c ← open_connection bus address
    guarded (request_name bus c name) (disconnect bus c)
    pure c

  pub open_sinks : Str → List Str → List ℕ → M (List ℕ)
  open_sinks address [] made = pure made
  open_sinks address (name ∷ names) made = do
    c ← guarded (make_sink address name) (disconnect_all bus made)
    open_sinks address names (made ++ c ∷ [])

  -- The end of what the SystemCompositor keeps: its services, which keep the loop, and the sinks.
  pub finish : List ℕ → M (Unit {0})
  finish sinks = do end_loop bus; disconnect_all bus sinks

  -- What `SystemCompositor::run` brings up on the bus, until the SystemCompositor ends. The thread is
  -- joined before a service ends.
  pub serve : Str → M (Unit {0})
  serve address = do
    display ←
        guarded (make_service false address (bytes "com.canonical.Unity.Display") 1) (end_loop bus)
    sinks ←
        guarded
          (open_sinks address
            (bytes "com.canonical.Unity.PowerButton"
              ∷ bytes "com.canonical.Unity.UserActivity"
              ∷ [])
            [])
          (end_loop bus)
    input ←
        guarded (make_service false address (bytes "com.canonical.Unity.Input") 2) (finish sinks)
    tell thread_started
    tell thread_joined
    finish sinks
