-- ===== src/Server/Factories.antt =====
-- Each factory of src/server.cpp makes its part behind what the part is constructed from, or ends with
-- an exception behind parts that are in order.
use unity_system_compositor.Prelude.{
  ◌≡◌, refl, ◌∙◌, Bool, true, false, List, ◌∷◌, Option, none, some, arith,
}
use unity_system_compositor.Server.{
  Part, spinner, session_switcher, dm_connection, input_configuration, screen, screen_event_handler,
  clock, dbus_loop, dbus_thread, unity_display_service, power_button_event_sink,
  user_activity_event_sink, unity_input_service, Options, ConnectionKind, Happening, spinner_from,
  connection_is, on_bus, switcher_has_screen, Outcome, done, thrown, next, is_made, make,
  the_spinner, the_session_switcher, the_dm_message_handler, choose_connection, connect_if,
  the_dm_connection, the_input_configuration, the_screen, the_clock, on_the_bus,
  the_power_button_event_sink, the_user_activity_event_sink, the_screen_event_handler,
  the_dbus_event_loop, the_dbus_connection_thread, the_unity_display_service,
  the_unity_input_service, spinner_executable, get_socket_file, dbus_bus_address,
}
use unity_system_compositor.Server.Order.{
  IsOrdered, AreMade, needs, Made, Result, next-Result, noted-Result, make-Result, cached-Result,
  single-Result,
}

module _ (fails : Part → Bool) (o : Options) where
  -- What is noted behind a part that was made.
  noted :
      (p : Part) (e : Happening) (h : List Happening) (out : Outcome)
      → Result p h out
      → ((g : List Happening) → Made p h g → Made p h (e ∷ g))
      → Result p h (next out (λ g. done (e ∷ g)))
  unfolding next
  noted p e h (done g) r note = note g r
  noted p e h (thrown g) r note = r

  pub the_spinner-Result :
      (h : List Happening) → IsOrdered h → Result spinner h (the_spinner fails o h)
  unfolding the_spinner
  the_spinner-Result h v = cached-Result fails spinner _ h v (λ new.
      noted spinner (spinner_from (spinner_executable o) (get_socket_file o)) h
        (make fails spinner h) (make-Result fails spinner h v new tt)
        (λ g m. noted-Result spinner _ h g m m.there (λ q. refl)))

  the_session_switcher-Result :
      (h : List Happening)
      → IsOrdered h
      → Result session_switcher h (the_session_switcher fails o h)
  unfolding the_session_switcher
  the_session_switcher-Result h v = cached-Result fails session_switcher _ h v (λ new.
      next-Result spinner session_switcher h (the_spinner fails o h) (make fails session_switcher)
        (omega arith) (omega arith) (the_spinner-Result h v)
        (λ g m.
          make-Result fails session_switcher g m.ordered
            (m.behind session_switcher (omega arith) ∙ new) (m.there, tt)))

  connect-Result :
      (c : Option ConnectionKind) (h : List Happening)
      → IsOrdered h
      → is_made dm_connection h ≡ false
      → Result dm_connection h (connect_if fails o c h)
  unfolding the_dm_message_handler
  connect-Result none h v new = record { ordered = v; no_thread = λ k. k }
  connect-Result (some c) h v new =
      next-Result session_switcher dm_connection h (the_session_switcher fails o h) _ (omega arith)
        (omega arith) (the_session_switcher-Result h v)
        (λ g m.
          noted dm_connection (connection_is c) g (make fails dm_connection g)
            (make-Result fails dm_connection g m.ordered
              (m.behind dm_connection (omega arith) ∙ new) (m.there, tt))
            (λ f n. noted-Result dm_connection (connection_is c) g f n n.there (λ q. refl)))

  pub the_dm_connection-Result :
      (h : List Happening) → IsOrdered h → Result dm_connection h (the_dm_connection fails o h)
  unfolding the_dm_connection
  the_dm_connection-Result h v =
      cached-Result fails dm_connection _ h v (connect-Result (choose_connection o) h v)

  -- The switcher is asked for behind the screen.
  with_screen :
      (h g : List Happening) (out : Outcome)
      → Made screen h g
      → Result session_switcher g out
      → Result screen h (next out (λ f. done (switcher_has_screen ∷ f)))
  unfolding next
  with_screen h g (done f) m r = record {
    ordered = ((r.keeps screen m.there, (r.there, tt)), r.ordered);
    there = r.keeps screen m.there;
    keeps = λ q k. r.keeps q (m.keeps q k);
    behind = λ q l. r.behind q (omega (arith, l)) ∙ m.behind q l;
  }
  with_screen h g (thrown f) m r = record {
    ordered = r.ordered;
    no_thread = λ k. r.no_thread (m.behind dbus_thread (omega arith) ∙ k);
  }

  screen-Result :
      (h : List Happening) (out : Outcome)
      → Result screen h out
      → Result screen h (
          next out
            (λ g. next (the_session_switcher fails o g) (λ f. done (switcher_has_screen ∷ f))))
  unfolding next
  screen-Result h (done g) m =
      with_screen h g (the_session_switcher fails o g) m (the_session_switcher-Result g m.ordered)
  screen-Result h (thrown g) b = b

  pub the_screen-Result :
      (h : List Happening) → IsOrdered h → Result screen h (the_screen fails o h)
  unfolding the_screen
  the_screen-Result h v =
      cached-Result fails screen _ h v
        (λ new. screen-Result h (make fails screen h) (make-Result fails screen h v new tt))

  on_the_bus-Result :
      (p : Part) (h : List Happening)
      → IsOrdered h
      → is_made p h ≡ false
      → AreMade (needs p) h
      → Result p h (on_the_bus fails o p h)
  on_the_bus-Result p h v new n =
      noted p (on_bus (dbus_bus_address o)) h (make fails p h) (make-Result fails p h v new n)
        (λ g m. noted-Result p (on_bus (dbus_bus_address o)) h g m tt (λ q. refl))

  the_power_button_event_sink-Result :
      (h : List Happening)
      → IsOrdered h
      → Result power_button_event_sink h (the_power_button_event_sink fails o h)
  unfolding the_power_button_event_sink
  the_power_button_event_sink-Result h v =
      cached-Result fails power_button_event_sink _ h v
        (λ new. on_the_bus-Result power_button_event_sink h v new tt)

  the_user_activity_event_sink-Result :
      (h : List Happening)
      → IsOrdered h
      → Result user_activity_event_sink h (the_user_activity_event_sink fails o h)
  unfolding the_user_activity_event_sink
  the_user_activity_event_sink-Result h v =
      cached-Result fails user_activity_event_sink _ h v
        (λ new. on_the_bus-Result user_activity_event_sink h v new tt)

  pub the_screen_event_handler-Result :
      (h : List Happening)
      → IsOrdered h
      → Result screen_event_handler h (the_screen_event_handler fails o h)
  unfolding the_screen_event_handler the_clock
  the_screen_event_handler-Result h v = cached-Result fails screen_event_handler _ h v (λ new.
      next-Result power_button_event_sink screen_event_handler h
        (the_power_button_event_sink fails o h) _ (omega arith) (omega arith)
        (the_power_button_event_sink-Result h v)
        (λ g m.
          next-Result user_activity_event_sink screen_event_handler g
            (the_user_activity_event_sink fails o g) _ (omega arith) (omega arith)
            (the_user_activity_event_sink-Result g m.ordered)
            (λ f n.
              next-Result clock screen_event_handler f (the_clock fails o f) _ (omega arith)
                (omega arith) (single-Result fails clock f n.ordered refl)
                (λ e k.
                  make-Result fails screen_event_handler e k.ordered
                    (k.behind screen_event_handler (omega arith)
                      ∙ n.behind screen_event_handler (omega arith)
                      ∙ m.behind screen_event_handler (omega arith)
                      ∙ new)
                    (
                      k.keeps power_button_event_sink (n.keeps power_button_event_sink m.there),
                      (k.keeps user_activity_event_sink n.there, (k.there, tt)),
                    )))))

  the_dbus_connection_thread-Result :
      (h : List Happening)
      → IsOrdered h
      → Result dbus_thread h (the_dbus_connection_thread fails o h)
  unfolding the_dbus_connection_thread the_dbus_event_loop
  the_dbus_connection_thread-Result h v = cached-Result fails dbus_thread _ h v (λ new.
      next-Result dbus_loop dbus_thread h (the_dbus_event_loop fails o h) _ (omega arith)
        (omega arith) (single-Result fails dbus_loop h v refl)
        (λ g m.
          make-Result fails dbus_thread g m.ordered (m.behind dbus_thread (omega arith) ∙ new)
            (m.there, tt)))

  pub the_unity_input_service-Result :
      (h : List Happening)
      → IsOrdered h
      → Result unity_input_service h (the_unity_input_service fails o h)
  unfolding the_unity_input_service the_dbus_event_loop the_input_configuration
  the_unity_input_service-Result h v = cached-Result fails unity_input_service _ h v (λ new.
      next-Result dbus_loop unity_input_service h (the_dbus_event_loop fails o h) _ (omega arith)
        (omega arith) (single-Result fails dbus_loop h v refl)
        (λ g m.
          next-Result input_configuration unity_input_service g (the_input_configuration fails o g)
            _ (omega arith) (omega arith) (single-Result fails input_configuration g m.ordered refl)
            (λ f n.
              on_the_bus-Result unity_input_service f n.ordered
                (n.behind unity_input_service (omega arith)
                  ∙ m.behind unity_input_service (omega arith)
                  ∙ new)
                (n.keeps dbus_loop m.there, (n.there, tt)))))

  display_service-Result :
      (g : List Happening) (out : Outcome)
      → IsOrdered g
      → is_made dbus_loop g ≡ true
      → is_made unity_display_service g ≡ false
      → Result screen g out
      → Result unity_display_service g (next out (on_the_bus fails o unity_display_service))
  display_service-Result g out v loop new r =
      next-Result screen unity_display_service g out _ (omega arith) (omega arith) r (λ f n.
        on_the_bus-Result unity_display_service f n.ordered
          (n.behind unity_display_service (omega arith) ∙ new)
          (n.keeps dbus_loop loop, (n.there, tt)))

  pub the_unity_display_service-Result :
      (h : List Happening)
      → IsOrdered h
      → Result unity_display_service h (the_unity_display_service fails o h)
  unfolding the_unity_display_service the_dbus_event_loop
  the_unity_display_service-Result h v = cached-Result fails unity_display_service _ h v (λ new.
      next-Result dbus_loop unity_display_service h (the_dbus_event_loop fails o h) _ (omega arith)
        (omega arith) (single-Result fails dbus_loop h v refl)
        (λ g m.
          display_service-Result g (the_screen fails o g) m.ordered m.there
            (m.behind unity_display_service (omega arith) ∙ new) (the_screen-Result g m.ordered)))
