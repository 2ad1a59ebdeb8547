-- ===== src/Switcher/Tests.antt =====
-- The theorems about src/session_switcher.cpp at concrete inputs.
use unity_system_compositor.Prelude.{
  ℕ, ◌+◌, ◌≡◌, refl, ◌⊎◌, inr, Bool, true, false, List, [], ◌∷◌, none, some, Str, str_eq, bytes,
  ◌==◌, if◌then◌else◌,
}
use unity_system_compositor.Prelude.Int.{pos}
use unity_system_compositor.Prelude.Map
use unity_system_compositor.Prelude.Map.{str_key}
use unity_system_compositor.Session.{
  Scene, Session, shows, hides, raises, focuses, name as session_name, show, hide, raise_and_focus,
  corresponds_to,
}
use unity_system_compositor.Spinner.{
  Spinner, ExternalSpinner, external_spinner, init as spinner_init, kill,
}
use unity_system_compositor.Switcher.{
  SessionInfo, Switcher, init, update_displayed_sessions, is_session_ready_for_display,
  hide_uninteresting_sessions, hide_others, display_active, display_next, show_session,
  ensure_spinner_is_not_running,
}
use unity_system_compositor.Switcher.Sound.{IsSound}
use unity_system_compositor.Switcher.Plan.{plan, perform}
use unity_system_compositor.Switcher.Refinement.{update-perform}
use unity_system_compositor.Switcher.Display.{visible, focused, listed}
use unity_system_compositor.Switcher.Shown.{
  update_hides_others, update_shows_active, update_boot_waits, update_awaits_active,
}
use unity_system_compositor.Switcher.Runs.{
  Event, session_added, session_removed, session_ready, active_set, outputs, step, run,
}
use unity_system_compositor.Switcher.Assigned.{leaves_early, IsAfter, step-IsAfter}
use unity_system_compositor.Switcher.History.{IsExclusive, run-init-IsExclusive}

-- Session 1 is the greeter, 2 a user's session, 3 the spinner's and 4 one that nobody asked for.
instance abbrev scene : Scene
scene = record {
  scene_name = λ p.
      if p == 1
      then bytes "greeter"
      else if p == 2
      then bytes "user"
      else if p == 3
      then bytes "spin"
      else bytes "other";
  process_id = λ p. pos (p + 97);
}

instance abbrev spinner : Spinner ExternalSpinner
spinner = external_spinner (λ n. pos (n + 100))

abbrev idle : ExternalSpinner
idle = spinner_init (bytes "spin") (bytes "sock")

abbrev held : ℕ → Bool → Str × SessionInfo
held p ready =
    (scene.scene_name p, record { session = some (record { scene_session = p }); ready = ready })

-- The switcher with the greeter active and the user's session next.
abbrev switcher : Bool → Bool → Bool → Bool → Switcher ExternalSpinner
switcher lit boots active_ready next_ready = record (init idle) {
  sessions = held 1 active_ready ∷ held 4 true ∷ held 2 next_ready ∷ [];
  active_name = bytes "greeter";
  next_name = bytes "user";
  booting = boots;
  has_active_outputs = lit;
}

switcher-IsSound : (lit boots a n : Bool) → IsSound (switcher lit boots a n).sessions
unfolding session_name init
switcher-IsSound lit boots a n = (
  (record { scene_session = 1 }, refl, refl),
  ((record { scene_session = 4 }, refl, refl), ((record { scene_session = 2 }, refl, refl), tt)),
)

abbrev after : Switcher ExternalSpinner → Switcher ExternalSpinner
after s = perform (plan s) s

-- The code itself, run: the greeter on top of the user's session, the stray session hidden.
shows_both :
    update_displayed_sessions (switcher true true true true)
    ≡ some (record (switcher true true true true) {
      booting = false;
      calls = shows 2 ∷ shows 1 ∷ focuses 1 ∷ raises 1 ∷ hides 4 ∷ [];
    })
unfolding update_displayed_sessions hide_uninteresting_sessions hide_others display_active
    display_next show_session ensure_spinner_is_not_running is_session_ready_for_display Map.find
    str_eq init external_spinner spinner_init kill show hide raise_and_focus session_name
shows_both = refl

update-perform_example :
    update_displayed_sessions (switcher true true true false)
    ≡ some (after (switcher true true true false))
update-perform_example =
    update-perform (switcher true true true false) (switcher-IsSound true true true false)

step-IsAfter_example :
    ((leaves_early (session_removed 4) (switcher true true true true) ≡ true)
      × (step (session_removed 4) (switcher true true true true)
          ≡ some (switcher true true true true)))
    ⊎ ((leaves_early (session_removed 4) (switcher true true true true) ≡ false)
        × (t : Switcher ExternalSpinner) × IsAfter
            (session_removed 4)
            (switcher true true true true)
            t
        × (step (session_removed 4) (switcher true true true true) ≡ some (perform (plan t) t)))
step-IsAfter_example =
    step-IsAfter (session_removed 4) (switcher true true true true)
      (switcher-IsSound true true true true)

update_hides_others_example : visible (after (switcher true true true true)).calls 4 ≡ some false
unfolding listed corresponds_to init
update_hides_others_example =
    update_hides_others (switcher true true true true) (after (switcher true true true true)) 4
      (switcher-IsSound true true true true) refl
      (update-perform (switcher true true true true) (switcher-IsSound true true true true)) refl
      (λ e. cc) (λ e. cc) (λ e. cc)

update_shows_active_example :
    (visible (after (switcher true true true true)).calls 1 ≡ some true)
    × (focused (after (switcher true true true true)).calls ≡ some 1)
    × ((after (switcher true true true true)).booting ≡ false)
unfolding is_session_ready_for_display Map.find str_eq init
update_shows_active_example =
    update_shows_active (switcher true true true true) (after (switcher true true true true))
      (record { scene_session = 1 }) (switcher-IsSound true true true true) refl refl
      (inr (inr refl))
      (update-perform (switcher true true true true) (switcher-IsSound true true true true))

update_boot_waits_example :
    ((after (switcher true true true false)).booting ≡ true)
    × ((q : ℕ)
        → visible (after (switcher true true true false)).calls q ≡ some true
        → (visible (switcher true true true false).calls q ≡ some true)
          ⊎ (scene.scene_name q ≡ (switcher true true true false).spinner_name))
unfolding is_session_ready_for_display Map.find str_eq init
update_boot_waits_example =
    update_boot_waits (switcher true true true false) (after (switcher true true true false))
      (switcher-IsSound true true true false) refl refl (λ e. cc) refl
      (update-perform (switcher true true true false) (switcher-IsSound true true true false))

update_awaits_active_example :
    ((Map.find (switcher true true false true).spinner_name (switcher true true false true).sessions
        ≡ none)
      × ((after (switcher true true false true)).spinner_process
          ≡ spinner.ensure_running (switcher true true false true).spinner_process))
    ⊎ ((x : Session) × (scene.scene_name x.scene_session
          ≡ (switcher true true false true).spinner_name)
        × (visible (after (switcher true true false true)).calls x.scene_session ≡ some true)
        × (focused (after (switcher true true false true)).calls ≡ some x.scene_session))
unfolding is_session_ready_for_display Map.find str_eq init
update_awaits_active_example =
    update_awaits_active (switcher true true false true) (after (switcher true true false true))
      (switcher-IsSound true true false true) refl (λ e. cc) refl
      (update-perform (switcher true true false true) (switcher-IsSound true true false true))

-- The greeter boots: the spinner bridges the time until the greeter is ready.
abbrev boot : List Event
boot =
    active_set (bytes "greeter")
    ∷ session_added 3
    ∷ session_added 1
    ∷ session_ready 1
    ∷ session_added 4
    ∷ outputs 0 0
    ∷ outputs 1 0
    ∷ session_removed 3
    ∷ []

run-init-IsExclusive_example :
    (t : Switcher ExternalSpinner) × (run boot (init idle) ≡ some t) × IsExclusive t
run-init-IsExclusive_example = run-init-IsExclusive boot idle
