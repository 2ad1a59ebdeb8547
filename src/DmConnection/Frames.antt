-- ===== src/DmConnection/Frames.antt =====
-- Messages that come whole: src/asio_dm_connection.cpp takes back what the other side wrote.
use mathlib.Core.List.{append-nil, append_assoc}
use unity_system_compositor.Prelude.{
  ℕ, ◌^◌, ◌<◌, ◌≡◌, refl, sym, ap, ◌∙◌, ◌⊎◌, Bool, true, List, [], ◌∷◌, ◌++◌, Str, length,
  if◌then◌else◌, ◌==◌, ◌||◌, arith, All,
}
use unity_system_compositor.DmConnection.{
  DmMessageHandler, ping, pong, set_active_session, set_next_session, header_pending,
  payload_pending, Connection, word, header, frame, send, read_header, on_read_header, dispatch,
  on_read_payload, Completion, header_read, payload_read, complete, run,
}

-- The two words of the header that send() writes are read back as the id and the size, where both
-- are below 2 ^ 16.
header_words :
    (id size : ℕ)
    → id < 2 ^ 16
    → size < 2 ^ 16
    → (word (header id size).byte_0 (header id size).byte_1 ≡ id)
      × (word (header id size).byte_2 (header id size).byte_3 ≡ size)
unfolding header
header_words id size hi hs = (omega arith, omega arith)

pub record Message : Type 0 where
  pub id : ℕ
  pub body : Str

-- Boost hands over the header, then the bytes that the connection asks for.
abbrev pub deliver : List Message → List Completion
deliver [] = []
deliver (m ∷ ms) = header_read (header m.id (length m.body)) ∷ payload_read m.body ∷ deliver ms

abbrev pub names_session : ℕ → Bool
names_session id = id == set_active_session || id == set_next_session

-- A message that fits its header, and has a body only where a name is expected.
abbrev pub IsPlain : Message → Type 0
IsPlain m =
    (m.id < 2 ^ 16) × (length m.body < 2 ^ 16) × ((names_session m.id ≡ true) ⊎ (m.body ≡ []))

-- The answers: a pong for each ping.
abbrev answer : Message → Str
answer m = if m.id == ping then frame pong [] else []

abbrev pub answers : List Message → Str
answers [] = []
answers (m ∷ ms) = answer m ++ answers ms

module _ {H : Type 0} ⦃handler : DmMessageHandler H⦄ where
  abbrev handle : Message → H → H
  handle m h =
      if m.id == set_active_session
      then handler.set_active_session m.body h
      else if m.id == set_next_session
      then handler.set_next_session m.body h
      else h

  abbrev pub handle_all : List Message → H → H
  handle_all [] h = h
  handle_all (m ∷ ms) h = handle_all ms (handle m h)

  -- The connection after one message that came whole.
  abbrev pub received : Message → Connection H → Connection H
  received m c = read_header (
      dispatch m.id (record c {
        pending = payload_pending (length m.body);
        message_header_bytes = header m.id (length m.body);
        message_payload_buffer = c.message_payload_buffer ++ m.body;
      }))

  -- The payload that is asked for is the body, and the message is dispatched by its id.
  complete-complete :
      (m : Message) (c : Connection H)
      → m.id < 2 ^ 16
      → length m.body < 2 ^ 16
      → complete (payload_read m.body) (complete (header_read (header m.id (length m.body))) c)
        ≡ received m c
  unfolding complete on_read_header on_read_payload
  complete-complete m c hi hs =
      let words = header_words m.id (length m.body) hi hs in rw words.0 (rw words.1 refl)

  pub run-message :
      (m : Message) (ms : List Message) (c : Connection H)
      → m.id < 2 ^ 16
      → length m.body < 2 ^ 16
      → run (deliver (m ∷ ms)) c ≡ run (deliver ms) (received m c)
  unfolding run
  run-message m ms c hi hs = ap (run (deliver ms)) (complete-complete m c hi hs)

  received_plain :
      (m : Message) (c : Connection H)
      → IsPlain m
      → c.message_payload_buffer ≡ []
      → ((received m c).handler ≡ handle m c.handler)
        × ((received m c).written ≡ c.written ++ answer m)
        × ((received m c).message_payload_buffer ≡ [])
        × ((received m c).pending ≡ header_pending)
  unfolding read_header dispatch send
  received_plain m c plain b = ground (arith, append-nil c.written)

  pub run-deliver :
      (ms : List Message) (c : Connection H)
      → All IsPlain ms
      → c.pending ≡ header_pending
      → c.message_payload_buffer ≡ []
      → ((run (deliver ms) c).handler ≡ handle_all ms c.handler)
        × ((run (deliver ms) c).written ≡ c.written ++ answers ms)
        × ((run (deliver ms) c).message_payload_buffer ≡ [])
        × ((run (deliver ms) c).pending ≡ header_pending)
  unfolding run
  run-deliver [] c plain p b = (refl, sym (append-nil c.written), b, p)
  run-deliver (m ∷ ms) c plain p b =
      let (h, w, e, q) = received_plain m c plain.0 b in
      let rest = run-deliver ms (received m c) plain.1 q e in
      rw (run-message m ms c plain.0.0 plain.0.1) (
        rest.0 ∙ ap (handle_all ms) h,
        rest.1 ∙ ap (λ t. t ++ answers ms) w ∙ append_assoc c.written (answer m) (answers ms),
        rest.2,
        rest.3,
      )
