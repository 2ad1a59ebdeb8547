-- ===== src/DmConnection/Failures.antt =====
-- Messages that src/asio_dm_connection.cpp ignores, and reads that fail.
use unity_system_compositor.Prelude.{
  ◌^◌, ◌<◌, ◌≡◌, refl, ◌∙◌, false, List, [], ◌∷◌, ◌++◌, Str, length, arith, All,
}
use unity_system_compositor.DmConnection.{
  DmMessageHandler, set_active_session, nothing_pending, header_pending, Connection, send,
  read_header, on_read_header, dispatch, on_read_payload, Completion, header_read, payload_read,
  header_failed, payload_failed, complete, run,
}
use unity_system_compositor.DmConnection.Frames.{
  Message, deliver, names_session, received, run-message,
}

abbrev IsNoPayload : Completion → Type 0
IsNoPayload (header_read h) = Unit
IsNoPayload header_failed = Unit
IsNoPayload (payload_read bytes) = ⊥
IsNoPayload (payload_failed bytes) = Unit

module _ {H : Type 0} ⦃handler : DmMessageHandler H⦄ where
  -- Where two messages fit their headers and the payload buffer is empty before them, the body of
  -- the first, which names no session, stays in the payload buffer: the second, which sets the
  -- active session, sets it to that body followed by the name that was sent.
  pub stale_body_prefixes_name :
      (m : Message) (name : Str) (c : Connection H)
      → m.id < 2 ^ 16
      → length m.body < 2 ^ 16
      → length name < 2 ^ 16
      → names_session m.id ≡ false
      → c.message_payload_buffer ≡ []
      → (run (deliver (m ∷ record { id = set_active_session; body = name } ∷ [])) c).handler
        ≡ handler.set_active_session (m.body ++ name) c.handler
  unfolding run read_header dispatch send
  stale_body_prefixes_name m name c hi hs hn ignored b =
      rw (run-message m (record { id = set_active_session; body = name } ∷ []) c hi hs) (
        rw
          (run-message (record { id = set_active_session; body = name }) [] (received m c)
            (omega arith) hn)
          (ground arith))

  complete_quiet :
      (k : Completion) (c : Connection H)
      → IsNoPayload k
      → ((complete k c).handler ≡ c.handler) × ((complete k c).written ≡ c.written)
  unfolding complete on_read_header on_read_payload read_header
  complete_quiet (header_read h) c q = (refl, refl)
  complete_quiet header_failed c q = (refl, refl)
  complete_quiet (payload_read bytes) c q = elim q [ ]
  complete_quiet (payload_failed bytes) c q = (refl, refl)

  -- Nothing reaches the handler, and nothing is answered, but by a payload that was read whole: any
  -- headers and failed reads leave both as they were.
  run_quiet :
      (ks : List Completion) (c : Connection H)
      → All IsNoPayload ks
      → ((run ks c).handler ≡ c.handler) × ((run ks c).written ≡ c.written)
  unfolding run
  run_quiet [] c q = (refl, refl)
  run_quiet (k ∷ ks) c q =
      let (h, w) = complete_quiet k c q.0 in
      let (hs, ws) = run_quiet ks (complete k c) q.1 in (hs ∙ h, ws ∙ w)

  -- A failed read of a header ends the reading; after a failed read of a payload the next header is
  -- asked for.
  complete_failed :
      (bytes : Str) (c : Connection H)
      → ((complete header_failed c).pending ≡ nothing_pending)
        × ((complete (payload_failed bytes) c).pending ≡ header_pending)
  unfolding complete on_read_header on_read_payload read_header
  complete_failed bytes c = (refl, refl)
