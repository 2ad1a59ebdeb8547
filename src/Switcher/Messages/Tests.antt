-- ===== src/Switcher/Messages/Tests.antt =====
-- The theorem about the switcher behind src/asio_dm_connection.cpp at a concrete input.
use unity_system_compositor.Prelude.{refl, inl, inr, List, [], ◌∷◌, Option, some, bytes, arith}
use unity_system_compositor.Session.{Scene}
use unity_system_compositor.Prelude.Int.{pos}
use unity_system_compositor.Spinner.{
  Spinner, ExternalSpinner, external_spinner, init as spinner_init,
}
use unity_system_compositor.DmConnection.{Connection, header_pending, run as run_connection}
use unity_system_compositor.DmConnection.Frames.{Message, deliver}
use unity_system_compositor.Switcher.{Switcher, init}
use unity_system_compositor.Switcher.Messages.{dm_message_handler, IsNamedBy, run-deliver-IsNamedBy}
use unity_system_compositor.Switcher.Display.{listed}

instance abbrev scene : Scene
scene = record { scene_name = λ p. bytes "greeter"; process_id = λ p. pos p }

instance abbrev spinner : Spinner ExternalSpinner
spinner = external_spinner (λ n. pos 100)

abbrev switcher : Switcher ExternalSpinner
switcher = init (spinner_init (bytes "spin") (bytes "sock"))

abbrev connection : Connection (Option (Switcher ExternalSpinner))
connection = record {
  handler = some switcher;
  pending = header_pending;
  message_header_bytes = record { byte_0 = 0; byte_1 = 0; byte_2 = 0; byte_3 = 0 };
  message_payload_buffer = [];
  written = [];
}

abbrev messages : List Message
messages =
    record { id = 0; body = [] }
    ∷ record { id = 4; body = bytes "greeter" }
    ∷ record { id = 5; body = bytes "user" }
    ∷ []

run-deliver-IsNamedBy_example :
    IsNamedBy messages switcher (run_connection (deliver messages) connection).handler
unfolding listed init
run-deliver-IsNamedBy_example =
    run-deliver-IsNamedBy messages connection switcher
      (
        (omega arith, omega arith, inr refl),
        ((omega arith, omega arith, inl refl), ((omega arith, omega arith, inl refl), tt)),
      )
      refl refl refl (record { sound = tt; exclusive = λ q held. cc })
