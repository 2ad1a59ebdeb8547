-- ===== src/DbusHandles/Tests.antt =====
-- The theorems about src/dbus_message_handle.cpp and src/dbus_connection_handle.cpp at concrete handles.
use unity_system_compositor.Prelude.{
  ◌+◌, ◌≡◌, refl, true, false, bytes, length, List, [], ◌∷◌, some,
}
use unity_system_compositor.DbusHandles.{
  no_handles, hold, hold_with_args, take_from, move, remove_at, drop_handle,
}
use unity_system_compositor.Outcome.Endings.{Ending}
use unity_system_compositor.DbusHandles.Connections.{Bus, serve}
use unity_system_compositor.DbusHandles.Connections.GivenBack.{Settled, connections_given_back}
use unity_system_compositor.DbusHandles.Owned.{Event, holds, holds_with_args, moves, destroys, run}

-- One message is moved, and the arguments of another cannot be appended.
abbrev events : List Event
events = holds (some 7) ∷ moves 0 ∷ holds_with_args (some 8) false ∷ destroys 0 ∷ destroys 0 ∷ []

none_left : (run events no_handles).handles ≡ []
unfolding run no_handles hold hold_with_args take_from move remove_at drop_handle
none_left = refl

-- Every name is had, and a connection's address tells how much happened before it.
abbrev bus : Bus
bus = record {
  open_private = λ address h. some (length h + 1);
  register = λ c h. true;
  is_connected = λ c h. true;
  request_name = λ c name h. some true;
  add_match = λ c match h. true;
  add_filter = λ c this h. true;
}

connections_given_back_example :
    Ending (λ u k. Settled 1 k) (λ x k. Settled 1 k) (serve bus (bytes "unix:path=/bus") [])
connections_given_back_example = connections_given_back bus 1 (bytes "unix:path=/bus")
