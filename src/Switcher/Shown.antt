-- ===== src/Switcher/Shown.antt =====
-- What an update of src/session_switcher.cpp leaves on the display.
use unity_system_compositor.Prelude.{
  ℕ, ◌≡◌, ◌≢◌, refl, ◌⊎◌, inl, inr, Bool, true, false, [], none, some, Str, str_eq_iff, arith,
  Option-cases,
}
use unity_system_compositor.Prelude.Int.{pos}
use unity_system_compositor.Prelude.Map
use unity_system_compositor.Prelude.Map.{str_key}
use unity_system_compositor.Session.{
  Scene, Session, name as session_name, show, hide, raise_and_focus,
}
use unity_system_compositor.Spinner.{Spinner}
use unity_system_compositor.Switcher.{
  Sessions, Switcher, is_session_ready_for_display, update_displayed_sessions,
}
use unity_system_compositor.Switcher.Sound.{IsSound, find-IsEntry}
use unity_system_compositor.Switcher.Plan.{plan, perform, ready_session}
use unity_system_compositor.Switcher.Refinement.{update-perform, entry_cases}
use unity_system_compositor.Switcher.Display.{
  visible, focused, listed, visible-hidden_all, visible-hidden_others,
}

module _ ⦃scene : Scene⦄ where
  -- A session that is found under a name has that name.
  ready_named :
      (key : Str) (m : Sessions)
      → IsSound m
      → (ready_session (Map.find key m) ≡ none)
        ⊎ ((x : Session) × (ready_session (Map.find key m) ≡ some x)
            × (scene.scene_name x.scene_session ≡ key))
  unfolding session_name
  ready_named key m v = elim (Option-cases (Map.find key m)) [
    | inl f ↦ rw f (inl refl)
    | inr (info, f) ↦ ground (arith, find-IsEntry key m v f)
  ]

  entry_named :
      (key : Str) (m : Sessions)
      → IsSound m
      → (Map.find key m ≡ none)
        ⊎ ((x : Session) × (ready : Bool) × (Map.find key m
              ≡ some (record { session = some x; ready = ready }))
            × (scene.scene_name x.scene_session ≡ key))
  unfolding session_name
  entry_named key m v = elim (entry_cases key m v) [
    | inl f ↦ inl f
    | inr (x, ready, f) ↦ ground (arith, find-IsEntry key m v f)
  ]

module _ ⦃scene : Scene⦄ {S : Type 0} ⦃spinner : Spinner S⦄ where
  -- The update leaves the state that the plan gives.
  update_result :
      (s t : Switcher S)
      → IsSound s.sessions
      → update_displayed_sessions s ≡ some t
      → t ≡ perform (plan s) s
  update_result s t v e = cc (update-perform s v)

  -- Where no session pointer is null and each session stands under its own name, after an update:
  -- without an output every session that the switcher holds is hidden, and nothing else changes.
  pub update_dark :
      (s t : Switcher S)
      → IsSound s.sessions
      → s.has_active_outputs ≡ false
      → update_displayed_sessions s ≡ some t
      → ((q : ℕ) → listed q s.sessions ≡ true → visible t.calls q ≡ some false)
        × (t ≡ record s { calls = t.calls })
  unfolding plan perform
  update_dark s t v unlit e = (
    (λ q h. ground (arith, update_result s t v e, visible-hidden_all s.sessions s.calls q)),
    ground (arith, update_result s t v e),
  )

  -- Where no session pointer is null and each session stands under its own name, after an update:
  -- with an output, a session that is held and has neither the active, nor the next, nor the
  -- spinner's name is hidden.
  pub update_hides_others :
      (s t : Switcher S) (q : ℕ)
      → IsSound s.sessions
      → s.has_active_outputs ≡ true
      → update_displayed_sessions s ≡ some t
      → listed q s.sessions ≡ true
      → scene.scene_name q ≢ s.active_name
      → scene.scene_name q ≢ s.next_name
      → scene.scene_name q ≢ s.spinner_name
      → visible t.calls q ≡ some false
  unfolding plan perform show hide raise_and_focus
  update_hides_others s t q v lit e held a n sp = ground (
    arith,
    update_result s t v e,
    visible-hidden_others s.active_name s.next_name s.sessions s.calls q v,
    ready_named s.active_name s.sessions v,
    ready_named s.next_name s.sessions v,
    str_eq_iff (scene.scene_name q) s.active_name,
    str_eq_iff (scene.scene_name q) s.next_name,
    entry_named s.spinner_name s.sessions v,
  )

  -- Where no session pointer is null and each session stands under its own name, after an update:
  -- with an output, a ready active session is shown last and has the focus, and booting is over, if
  -- booting was over already, or there is no next session to wait for, or the next one is ready.
  pub update_shows_active :
      (s t : Switcher S) (a : Session)
      → IsSound s.sessions
      → s.has_active_outputs ≡ true
      → Map.find s.active_name s.sessions ≡ some (record { session = some a; ready = true })
      → (s.booting ≡ false)
        ⊎ (s.next_name ≡ [])
        ⊎ (is_session_ready_for_display s.next_name s ≡ true)
      → update_displayed_sessions s ≡ some t
      → (visible t.calls a.scene_session ≡ some true)
        × (focused t.calls ≡ some a.scene_session)
        × (t.booting ≡ false)
  unfolding plan perform show hide raise_and_focus is_session_ready_for_display
  update_shows_active s t a v lit found wait e = ground (
    arith,
    update_result s t v e,
    ready_named s.next_name s.sessions v,
    entry_named s.next_name s.sessions v,
    entry_named s.spinner_name s.sessions v,
  )

  -- Where no session pointer is null and each session stands under its own name, after an update:
  -- with an output, while booting with a next session that is named and not ready, booting is not
  -- over, and a visible session was visible before or has the spinner's name.
  pub update_boot_waits :
      (s t : Switcher S)
      → IsSound s.sessions
      → s.has_active_outputs ≡ true
      → s.booting ≡ true
      → s.next_name ≢ []
      → is_session_ready_for_display s.next_name s ≡ false
      → update_displayed_sessions s ≡ some t
      → (t.booting ≡ true)
        × ((q : ℕ)
            → visible t.calls q ≡ some true
            → (visible s.calls q ≡ some true) ⊎ (scene.scene_name q ≡ s.spinner_name))
  unfolding plan perform show hide raise_and_focus is_session_ready_for_display
  update_boot_waits s t v lit boots named unready e = (
    ground (arith, update_result s t v e, entry_named s.next_name s.sessions v),
    (λ q shown. ground (
      arith,
      update_result s t v e,
      visible-hidden_others s.active_name s.next_name s.sessions s.calls q v,
      entry_named s.next_name s.sessions v,
      entry_named s.spinner_name s.sessions v,
    )),
  )

  -- Where no session pointer is null and each session stands under its own name, after an update:
  -- with an output, while the active session is named and not ready: a connected spinner session is
  -- shown last and has the focus; if there is none, the spinner process is made to run.
  pub update_awaits_active :
      (s t : Switcher S)
      → IsSound s.sessions
      → s.has_active_outputs ≡ true
      → s.active_name ≢ []
      → is_session_ready_for_display s.active_name s ≡ false
      → update_displayed_sessions s ≡ some t
      → ((Map.find s.spinner_name s.sessions ≡ none)
          × (t.spinner_process ≡ spinner.ensure_running s.spinner_process))
        ⊎ ((x : Session) × (scene.scene_name x.scene_session ≡ s.spinner_name)
            × (visible t.calls x.scene_session ≡ some true)
            × (focused t.calls ≡ some x.scene_session))
  unfolding plan perform show hide raise_and_focus is_session_ready_for_display
  update_awaits_active s t v lit named unready e = elim (entry_named s.spinner_name s.sessions v) [
    | inl f ↦ inl (f, ground (arith, update_result s t v e, entry_named s.active_name s.sessions v))
    | inr (x, r, f, n) ↦ inr (
      x,
      n,
      ground (arith, update_result s t v e, entry_named s.active_name s.sessions v),
      ground (arith, update_result s t v e, entry_named s.active_name s.sessions v),
    )
  ]

  -- Where no session pointer is null and each session stands under its own name, after an update:
  -- with an output, when the active session and the next one are each ready or not named, nothing
  -- is awaited and the spinner has been stopped: its pid is 0.
  update_stops_spinner :
      (s t : Switcher S)
      → IsSound s.sessions
      → s.has_active_outputs ≡ true
      → (is_session_ready_for_display s.active_name s ≡ true) ⊎ (s.active_name ≡ [])
      → (is_session_ready_for_display s.next_name s ≡ true) ⊎ (s.next_name ≡ [])
      → update_displayed_sessions s ≡ some t
      → spinner.pid t.spinner_process ≡ pos 0
  unfolding plan perform is_session_ready_for_display
  update_stops_spinner s t v lit active next e = ground (
    arith,
    update_result s t v e,
    entry_named s.active_name s.sessions v,
    entry_named s.next_name s.sessions v,
    spinner.pid-kill s.spinner_process,
  )

  -- Where no session pointer is null and each session stands under its own name, after an update:
  -- with an output and both the active and the next session ready, the next one is shown too, the
  -- active one has the focus, and the spinner has been stopped.
  update_shows_next :
      (s t : Switcher S) (a n : Session)
      → IsSound s.sessions
      → s.has_active_outputs ≡ true
      → Map.find s.active_name s.sessions ≡ some (record { session = some a; ready = true })
      → Map.find s.next_name s.sessions ≡ some (record { session = some n; ready = true })
      → update_displayed_sessions s ≡ some t
      → (visible t.calls n.scene_session ≡ some true)
        × (focused t.calls ≡ some a.scene_session)
        × (spinner.pid t.spinner_process ≡ pos 0)
  unfolding plan perform show hide raise_and_focus
  update_shows_next s t a n v lit fa fn e =
      ground (arith, update_result s t v e, spinner.pid-kill s.spinner_process)
