-- ===== src/DmConnection.antt =====
-- src/dm_connection.h and src/asio_dm_connection.cpp: the pipes to the display manager. Boost reads
-- the pipe: a completion is what it hands to the connection, and `pending` what it was asked for.
-- A write is taken to succeed; the logging is left out.
pub mod Frames
pub mod Failures
mod Tests
use unity_system_compositor.Prelude.{
  ℕ, ◌+◌, ◌*◌, ◌/◌, ◌%◌, ◌^◌, Bool, true, false, List, [], ◌∷◌, ◌++◌, Str, length, if◌then◌else◌,
  ◌==◌,
}

-- usc::DMMessageHandler, on a state `H`.
pub record DmMessageHandler (H : Type 0) : Type 0 where
  pub set_active_session : Str → H → H
  pub set_next_session : Str → H → H

-- USCMessageID. Any other number may arrive.
abbrev pub ping : ℕ
ping = 0

abbrev pub pong : ℕ
pong = 1

abbrev ready : ℕ
ready = 2

abbrev pub set_active_session : ℕ
set_active_session = 4

abbrev pub set_next_session : ℕ
set_next_session = 5

-- message_header_bytes.
pub record Header : Type 0 where
  pub byte_0 : ℕ
  pub byte_1 : ℕ
  pub byte_2 : ℕ
  pub byte_3 : ℕ

pub data Pending : Type 0 where
  nothing_pending header_pending : Pending
  payload_pending : ℕ → Pending

pub record Connection (H : Type 0) : Type 0 where
  pub handler : H
  pub pending : Pending
  pub message_header_bytes : Header
  pub message_payload_buffer : Str
  pub written : Str

-- `high << 8 | low`; the low byte is below 256, so the bits do not meet.
abbrev pub word : ℕ → ℕ → ℕ
word high low = high * 2 ^ 8 + low

-- The header that `send` writes: the id as a uint16_t and the low 16 bits of the size.
pub header : ℕ → ℕ → Header
header id size =
    let id' = id % 2 ^ 16 in
    record {
      byte_0 = id' / 2 ^ 8 % 2 ^ 8;
      byte_1 = id' % 2 ^ 8;
      byte_2 = size / 2 ^ 8 % 2 ^ 8;
      byte_3 = size % 2 ^ 8;
    }

abbrev header_bytes : Header → Str
header_bytes h = h.byte_0 ∷ h.byte_1 ∷ h.byte_2 ∷ h.byte_3 ∷ []

-- The bytes of one message.
abbrev pub frame : ℕ → Str → Str
frame id body = header_bytes (header id (length body)) ++ body

module _ {H : Type 0} where
  pub send : ℕ → Str → Connection H → Connection H
  send id body c = record c { written = c.written ++ frame id body }

  pub send_ready : Connection H → Connection H
  send_ready c = send ready [] c

  pub read_header : Connection H → Connection H
  read_header c = record c { pending = header_pending }

  pub start : Connection H → Connection H
  start c = read_header (send_ready c)

  -- `failed` is the error code's test.
  pub on_read_header : Bool → Connection H → Connection H
  on_read_header failed c = if failed then record c { pending = nothing_pending } else record c {
    pending = payload_pending (word c.message_header_bytes.byte_2 c.message_header_bytes.byte_3);
  }

-- What Boost hands over: the four header bytes, or an error; the payload behind what the buffer
-- holds already, whole or, with an error, in part.
pub data Completion : Type 0 where
  header_read : Header → Completion
  header_failed : Completion
  payload_read payload_failed : Str → Completion

module _ {H : Type 0} ⦃handler : DmMessageHandler H⦄ where
  -- `ss << &message_payload_buffer` takes all that the buffer holds.
  pub dispatch : ℕ → Connection H → Connection H
  dispatch id c =
      if id == ping
      then send pong [] c
      else if id == pong
      then c
      else if id == set_active_session
      then record c {
        handler = handler.set_active_session c.message_payload_buffer c.handler;
        message_payload_buffer = [];
      }
      else if id == set_next_session
      then record c {
        handler = handler.set_next_session c.message_payload_buffer c.handler;
        message_payload_buffer = [];
      }
      else c

  pub on_read_payload : Bool → Connection H → Connection H
  on_read_payload failed c = read_header (
      if failed
      then c
      else dispatch (word c.message_header_bytes.byte_0 c.message_header_bytes.byte_1) c)

  pub complete : Completion → Connection H → Connection H
  complete (header_read h) c = on_read_header false (record c { message_header_bytes = h })
  complete header_failed c = on_read_header true c
  complete (payload_read bytes) c =
      on_read_payload false
        (record c { message_payload_buffer = c.message_payload_buffer ++ bytes })
  complete (payload_failed bytes) c =
      on_read_payload true (record c { message_payload_buffer = c.message_payload_buffer ++ bytes })

  pub run : List Completion → Connection H → Connection H
  run [] c = c
  run (k ∷ ks) c = run ks (complete k c)
