-- ===== src/Switcher/Messages.antt =====
-- The session switcher of src/session_switcher.cpp behind the connection of src/asio_dm_connection.cpp:
-- what the messages of the display manager do to it.
mod Tests
use unity_system_compositor.Prelude.{
  ℕ, ◌^◌, ◌≡◌, refl, ◌∙◌, ap, subst, sym, true, false, List, [], ◌∷◌, Option, none, some, Str,
  length, if◌then◌else◌, ◌>>=◌, ◌==◌, All, arith, Bool-cases, inl, inr,
}
use unity_system_compositor.Session.{Scene}
use unity_system_compositor.Spinner.{Spinner}
use unity_system_compositor.DmConnection.{
  DmMessageHandler, header_pending, Connection, run as run_connection,
}
use unity_system_compositor.DmConnection.Frames.{Message, IsPlain, deliver, handle_all, run-deliver}
use unity_system_compositor.Switcher.{Switcher, set_active_session, set_next_session}
use unity_system_compositor.Switcher.Plan.{plan, perform}
use unity_system_compositor.Switcher.Refinement.{perform-Keeps, update-perform}
use unity_system_compositor.Switcher.History.{IsExclusive, perform-IsExclusive}

-- The body of the last message with the id, or else the name from before.
abbrev last_name : ℕ → List Message → Str → Str
last_name id [] name = name
last_name id (m ∷ ms) name = last_name id ms (if m.id == id then m.body else name)

module _ ⦃scene : Scene⦄ {S : Type 0} ⦃spinner : Spinner S⦄ where
  -- The switcher behind the interface; `none` once it has gone through a null pointer.
  instance abbrev pub dm_message_handler : DmMessageHandler (Option (Switcher S))
  dm_message_handler = record {
    set_active_session = λ name o. o >>= set_active_session name;
    set_next_session = λ name o. o >>= set_next_session name;
  }

  -- The switcher `t`, which shows nothing but what the two names or the spinner's allow, and holds the
  -- sessions that `s` holds.
  pub record IsNamed (active next : Str) (s t : Switcher S) : Type 0 where
    pub active_is : t.active_name ≡ active
    pub next_is : t.next_name ≡ next
    pub sessions_are : t.sessions ≡ s.sessions
    pub exclusive : IsExclusive t

  set_active_session-IsNamed :
      (name : Str) (s : Switcher S)
      → IsExclusive s
      → (t : Switcher S) × (set_active_session name s ≡ some t) × IsNamed name s.next_name s t
  unfolding set_active_session
  set_active_session-IsNamed name s i =
      let u : Switcher S = record s { active_name = name } in
      let kept = perform-Keeps (plan u) u in
      (
        perform (plan u) u,
        update-perform u i.sound,
        record {
          active_is = kept.active_kept;
          next_is = kept.next_kept;
          sessions_are = kept.sessions_kept;
          exclusive = perform-IsExclusive u i.sound;
        },
      )

  set_next_session-IsNamed :
      (name : Str) (s : Switcher S)
      → IsExclusive s
      → (t : Switcher S) × (set_next_session name s ≡ some t) × IsNamed s.active_name name s t
  unfolding set_next_session
  set_next_session-IsNamed name s i =
      let u : Switcher S = record s { next_name = name } in
      let kept = perform-Keeps (plan u) u in
      (
        perform (plan u) u,
        update-perform u i.sound,
        record {
          active_is = kept.active_kept;
          next_is = kept.next_kept;
          sessions_are = kept.sessions_kept;
          exclusive = perform-IsExclusive u i.sound;
        },
      )

  -- The messages `ms` come to `s` and leave a switcher with the names that they set last.
  abbrev pub IsNamedBy : List Message → Switcher S → Option (Switcher S) → Type 0
  IsNamedBy ms s o =
      (t : Switcher S) × (o ≡ some t)
      × IsNamed (last_name 4 ms s.active_name) (last_name 5 ms s.next_name) s t

  -- One message that leaves `u` of `s`, and the messages `ms` after it.
  then-IsNamedBy :
      (ms : List Message) (active next : Str) (s u : Switcher S) (o : Option (Switcher S))
      → IsNamed active next s u
      → IsNamedBy ms u o
      → (t : Switcher S) × (o ≡ some t) × IsNamed (last_name 4 ms active) (last_name 5 ms next) s t
  then-IsNamedBy ms active next s u o first (t, same, rest) = (
    t,
    same,
    record {
      active_is = rest.active_is ∙ ap (last_name 4 ms) first.active_is;
      next_is = rest.next_is ∙ ap (last_name 5 ms) first.next_is;
      sessions_are = rest.sessions_are ∙ first.sessions_are;
      exclusive = rest.exclusive;
    },
  )

  handle_all-IsNamedBy :
      (ms : List Message) (s : Switcher S) → IsExclusive s → IsNamedBy ms s (handle_all ms (some s))
  handle_all-IsNamedBy [] s i =
      (s, refl, record { active_is = refl; next_is = refl; sessions_are = refl; exclusive = i })
  handle_all-IsNamedBy (m ∷ ms) s i = elim (Bool-cases (m.id == 4)) [
    | inl active ↦
        let (u, set, first) = set_active_session-IsNamed m.body s i in
        let other : (m.id == 5) ≡ false = ground arith in
        rw (active, other, set)
          (then-IsNamedBy ms m.body s.next_name s u _ first
            (handle_all-IsNamedBy ms u first.exclusive))
    | inr other ↦ elim (Bool-cases (m.id == 5)) [
      | inl next ↦
          let (u, set, first) = set_next_session-IsNamed m.body s i in
          rw (other, next, set)
            (then-IsNamedBy ms s.active_name m.body s u _ first
              (handle_all-IsNamedBy ms u first.exclusive))
      | inr neither ↦ rw (other, neither) (handle_all-IsNamedBy ms s i)
    ]
  ]

  -- Messages that fit their headers, with a body only where a session name is expected, come to a
  -- switcher behind a connection that asks for a header and has nothing left in its payload buffer;
  -- the switcher's sessions are sound and it shows none but the active, the next and the spinner's
  -- one. It then has gone through no null pointer, holds the same sessions, its active session is
  -- the body of the last message 4 and its next session that of the last message 5, each as before
  -- if there was none, and it shows none but those two and the spinner's one.
  pub run-deliver-IsNamedBy :
      (ms : List Message) (c : Connection (Option (Switcher S))) (s : Switcher S)
      → All IsPlain ms
      → c.pending ≡ header_pending
      → c.message_payload_buffer ≡ []
      → c.handler ≡ some s
      → IsExclusive s
      → IsNamedBy ms s (run_connection (deliver ms) c).handler
  run-deliver-IsNamedBy ms c s plain p b h i =
      subst (IsNamedBy ms s) (sym ((run-deliver ms c plain p b).0 ∙ ap (handle_all ms) h))
        (handle_all-IsNamedBy ms s i)
