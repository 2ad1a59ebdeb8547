-- ===== src/DmConnection/Tests.antt =====
-- The theorems about src/asio_dm_connection.cpp at concrete inputs.
use unity_system_compositor.Prelude.{ℕ, ◌≡◌, refl, List, [], ◌∷◌, Str, bytes, arith}
use unity_system_compositor.DmConnection.{
  DmMessageHandler, Connection, header, header_pending, start, read_header, send_ready, send, run,
}
use unity_system_compositor.DmConnection.Frames.{Message, deliver}
use unity_system_compositor.DmConnection.Failures.{stale_body_prefixes_name}

pub data Set : Type 0 where
  active next : Str → Set

-- A handler that keeps what it was told, the last first.
instance abbrev log : DmMessageHandler (List Set)
log = record {
  set_active_session = λ name sets. active name ∷ sets;
  set_next_session = λ name sets. next name ∷ sets;
}

abbrev connection : Connection (List Set)
connection = record {
  handler = [];
  pending = header_pending;
  message_header_bytes = record { byte_0 = 0; byte_1 = 0; byte_2 = 0; byte_3 = 0 };
  message_payload_buffer = [];
  written = [];
}

abbrev message : ℕ → Str → Message
message id body = record { id = id; body = body }

abbrev messages : List Message
messages = message 0 [] ∷ message 5 (bytes "user") ∷ message 4 (bytes "greeter") ∷ message 9 [] ∷ []

started : (start connection).written ≡ 0 ∷ 2 ∷ 0 ∷ 0 ∷ []
unfolding start send_ready read_header send header
started = refl

stale_body_prefixes_name_example :
    (run (deliver (message 3 (bytes "old-") ∷ message 4 (bytes "greeter") ∷ [])) connection).handler
    ≡ active (bytes "old-greeter") ∷ []
stale_body_prefixes_name_example =
    stale_body_prefixes_name (message 3 (bytes "old-")) (bytes "greeter") connection (omega arith)
      (omega arith) (omega arith) refl refl
