-- ===== src/Server/Startup.antt =====
-- What src/system_compositor.cpp has when it runs, and what it leaves where an exception ends it.
use unity_system_compositor.Prelude.{
  ◌<◌, ◌≡◌, refl, ◌∙◌, Bool, false, List, [], ◌∷◌, Option, none, some, arith, if◌then◌else◌,
  Bool-cases, inl, inr,
}
use unity_system_compositor.Server.{
  Part, spinner, dm_connection, screen, screen_event_handler, dbus_loop, dbus_thread,
  unity_display_service, unity_input_service, number, Options, ConnectionKind, asio, null_handler,
  Happening, makes, socket_is_public, filter_appended, Outcome, done, thrown, next, is_made,
  makes_part, make, dm_connection_starts, active_session_set, get_socket_file, public_socket,
  blacklist, the_spinner, the_dm_connection, the_screen, the_unity_display_service,
  the_screen_event_handler, the_unity_input_service, the_dbus_connection_thread,
  the_dbus_event_loop,
}
use unity_system_compositor.Server.Order.{IsOrdered, AreMade, IsTimely, Made, Result, single-Result}
use unity_system_compositor.Server.Factories.{
  the_spinner-Result, the_dm_connection-Result, the_screen-Result, the_unity_display_service-Result,
  the_screen_event_handler-Result, the_unity_input_service-Result,
}
use unity_system_compositor.Server.SystemCompositor.{
  Regex, Driver, check_blacklist, start, bring_up, init_callback, run, program, start_dm,
  connection_of,
}

keeps_all :
    (p : Part) (h g : List Happening) (ps : List Part) → Made p h g → AreMade ps h → AreMade ps g
keeps_all p h g [] m a = tt
keeps_all p h g (q ∷ ps) m a = (m.keeps q a.0, keeps_all p h g ps m a.1)

-- In order, with the parts `ps`, and the loop's thread has not been made.
record IsReady (ps : List Part) (h : List Happening) : Type 0 where
  ordered : IsOrdered h
  has_parts : AreMade ps h
  no_thread : is_made dbus_thread h ≡ false

-- An exception: all is in order, and the loop's thread has not been made.
abbrev IsStopped : List Happening → Type 0
IsStopped h = IsOrdered h × (is_made dbus_thread h ≡ false)

-- The parts that the system compositor keeps.
abbrev kept : List Part
kept =
    unity_input_service ∷ screen_event_handler ∷ unity_display_service ∷ screen ∷ dm_connection ∷ []

-- The thread of the loop is the last to be made, behind the parts that are kept.
abbrev IsUp : List Happening → Type 0
IsUp h =
    (g : List Happening) × (h ≡ makes dbus_thread ∷ g)
    × IsOrdered h
    × AreMade kept g
    × (is_made dbus_thread g ≡ false)

abbrev pub IsUpOrStopped : Outcome → Type 0
IsUpOrStopped (done h) = IsUp h
IsUpOrStopped (thrown h) = IsStopped h

still_made :
    (e : Happening) (h : List Happening) (ps : List Part) → AreMade ps h → AreMade ps (e ∷ h)
still_made e h [] a = tt
still_made e h (q ∷ ps) a = (ground (arith, a.0), still_made e h ps a.1)

noted-IsReady :
    (e : Happening) (ps : List Part) (h : List Happening)
    → IsReady ps h
    → IsTimely e h
    → makes_part dbus_thread e ≡ false
    → IsReady ps (e ∷ h)
noted-IsReady e ps h i t n = record {
  ordered = (t, i.ordered);
  has_parts = still_made e h ps i.has_parts;
  no_thread = rw n i.no_thread;
}

start-IsReady :
    (c : Option ConnectionKind) (h : List Happening)
    → IsReady (dm_connection ∷ []) h
    → IsReady (dm_connection ∷ []) (start_dm c h)
start-IsReady none h i = i
start-IsReady (some (asio from to)) h i =
    noted-IsReady dm_connection_starts (dm_connection ∷ []) h i i.has_parts.0 refl
start-IsReady (some (null_handler name)) h i =
    noted-IsReady (active_session_set name) (dm_connection ∷ []) h i i.has_parts.0 refl

next-IsUpOrStopped :
    (p : Part) (ps : List Part) (h : List Happening) (out : Outcome) (go : List Happening → Outcome)
    → number p < 12
    → IsReady ps h
    → Result p h out
    → ((g : List Happening) → IsReady (p ∷ ps) g → IsUpOrStopped (go g))
    → IsUpOrStopped (next out go)
unfolding next
next-IsUpOrStopped p ps h (done g) go lt i m k = k g (record {
  ordered = m.ordered;
  has_parts = (m.there, keeps_all p h g ps m i.has_parts);
  no_thread = m.behind dbus_thread lt ∙ i.no_thread;
})
next-IsUpOrStopped p ps h (thrown g) go lt i b k = (b.ordered, b.no_thread i.no_thread)

public-IsReady :
    (o : Options) (h : List Happening)
    → IsReady (dm_connection ∷ []) h
    → IsReady (dm_connection ∷ []) (start o h)
public-IsReady o h i = elim (Bool-cases (public_socket o)) [
  | inl public ↦ rw public (
      start-IsReady (connection_of h) _ (
        noted-IsReady (socket_is_public (get_socket_file o)) (dm_connection ∷ []) h i i.has_parts.0
          refl))
  | inr private ↦ rw private (start-IsReady (connection_of h) h i)
]

module _ (fails : Part → Bool) (o : Options) where
  make_thread :
      (h : List Happening) (out : Outcome)
      → IsReady kept h
      → Result dbus_loop h out
      → IsUpOrStopped (next out (make fails dbus_thread))
  unfolding next make
  make_thread h (done g) i m =
      let none_yet : is_made dbus_thread g ≡ false =
        m.behind dbus_thread (omega arith) ∙ i.no_thread in
      elim (Bool-cases (fails dbus_thread)) [
        | inl bad ↦ rw bad (m.ordered, none_yet)
        | inr good ↦ rw good (
          g,
          refl,
          ((none_yet, (m.there, tt)), m.ordered),
          keeps_all dbus_loop h g kept m i.has_parts,
          none_yet,
        )
      ]
  make_thread h (thrown g) i b = (b.ordered, b.no_thread i.no_thread)

  thread-IsUpOrStopped :
      (h : List Happening) → IsReady kept h → IsUpOrStopped (the_dbus_connection_thread fails o h)
  unfolding the_dbus_connection_thread the_dbus_event_loop
  thread-IsUpOrStopped h i = rw i.no_thread (
      make_thread h (the_dbus_event_loop fails o h) i
        (single-Result fails dbus_loop h i.ordered refl))

  bring_up-IsUpOrStopped :
      (h : List Happening) → IsReady (dm_connection ∷ []) h → IsUpOrStopped (bring_up fails o h)
  unfolding bring_up
  bring_up-IsUpOrStopped h i =
      next-IsUpOrStopped screen _ h (the_screen fails o h) _ (omega arith) i
        (the_screen-Result fails o h i.ordered)
        (λ h₁ i₁.
          next-IsUpOrStopped unity_display_service _ h₁ (the_unity_display_service fails o h₁) _
            (omega arith) i₁ (the_unity_display_service-Result fails o h₁ i₁.ordered)
            (λ h₂ i₂.
              next-IsUpOrStopped screen_event_handler _ h₂ (the_screen_event_handler fails o h₂) _
                (omega arith) i₂ (the_screen_event_handler-Result fails o h₂ i₂.ordered)
                (λ h₃ i₃.
                  next-IsUpOrStopped unity_input_service _ (filter_appended ∷ h₃)
                    (the_unity_input_service fails o (filter_appended ∷ h₃))
                    (the_dbus_connection_thread fails o) (omega arith)
                    (noted-IsReady filter_appended _ h₃ i₃ i₃.has_parts.0 refl)
                    (the_unity_input_service-Result fails o (filter_appended ∷ h₃)
                      (i₃.has_parts.0, i₃.ordered))
                    (λ h₄ i₄. thread-IsUpOrStopped h₄ (record {
                      ordered = i₄.ordered;
                      has_parts = i₄.has_parts;
                      no_thread = i₄.no_thread;
                    })))))

  module _ ⦃regex : Regex⦄ (d : Driver) where
    init_callback-IsUpOrStopped :
        (h : List Happening) → IsReady [] h → IsUpOrStopped (init_callback fails o d h)
    unfolding init_callback
    init_callback-IsUpOrStopped h i = elim (Bool-cases (check_blacklist (blacklist o) d)) [
      | inl allowed ↦ rw allowed (
          next-IsUpOrStopped dm_connection [] h (the_dm_connection fails o h) _ (omega arith) i
            (the_dm_connection-Result fails o h i.ordered)
            (λ g j. bring_up-IsUpOrStopped (start o g) (public-IsReady o g j)))
      | inr refused ↦ rw refused (i.ordered, i.no_thread)
    ]

    spun-IsUpOrStopped :
        (version : Bool) (out : Outcome)
        → version ≡ false
        → Result spinner [] out
        → IsUpOrStopped (next out (λ h. if version then done h else init_callback fails o d h))
    unfolding next
    spun-IsUpOrStopped version (done g) v m = rw v (
        init_callback-IsUpOrStopped g (record {
          ordered = m.ordered;
          has_parts = tt;
          no_thread = m.behind dbus_thread (omega arith);
        }))
    spun-IsUpOrStopped version (thrown g) v b = (b.ordered, b.no_thread refl)

    -- Whatever the options, the video driver and the constructors that throw: unless it is to show
    -- its version, the program either has all the parts that it keeps, each part made once and
    -- behind what it is constructed from, and the thread of the D-Bus loop last, behind the two
    -- services whose connections the loop takes; or it ends with an exception, with the parts so
    -- far made in that order and no thread of the loop.
    pub program_up : o.version ≡ false → IsUpOrStopped (program fails o d)
    unfolding program run
    program_up v =
        spun-IsUpOrStopped o.version (the_spinner fails o []) v (the_spinner-Result fails o [] tt)
