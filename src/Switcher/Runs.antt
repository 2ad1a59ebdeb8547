-- ===== src/Switcher/Runs.antt =====
-- src/session_switcher.cpp and src/window_manager.cpp over every history: what Mir, the display
-- manager and the screen call on the switcher, one call after another.
use unity_system_compositor.Prelude.{
  ℕ, ◌+◌, ◌==◌, not, ◌≡◌, refl, sym, subst, List, [], ◌∷◌, Option, none, some, Str, str_eq, arith,
  if◌then◌else◌, ◌>>=◌, Bool-cases, inl, inr, Bool, false,
}
use unity_system_compositor.Prelude.Map
use unity_system_compositor.Prelude.Map.{str_key}
use unity_system_compositor.Session.{Scene, name as session_name, corresponds_to, hide, hides}
use unity_system_compositor.Prelude.Int.{int_eq}
use unity_system_compositor.Spinner.{Spinner}
use unity_system_compositor.Switcher.{
  SessionInfo, Switcher, add, remove, remove_if_found, remove_found, mark_ready, mark_all,
  stands_for, set_active_session, set_next_session, active_outputs_changed,
}
use unity_system_compositor.Switcher.Sound.{
  IsSound, insert-IsSound, erase-IsSound, mark_all-IsSound,
}
use unity_system_compositor.Switcher.Plan.{plan, perform}
use unity_system_compositor.Switcher.Refinement.{perform-Keeps, update-perform}

-- A scene session is given by its address.
pub data Event : Type 0 where
  session_added session_removed session_ready : ℕ → Event
  active_set next_set : Str → Event
  outputs : ℕ → ℕ → Event

-- Whether what `find` gave is an entry of the scene session `p`.
abbrev pub holds : ℕ → Option SessionInfo → Bool
holds p none = false
holds p (some info) = stands_for info.session p

module _ ⦃scene : Scene⦄ {S : Type 0} ⦃spinner : Spinner S⦄ where
  -- WindowManager::on_session_added, on_session_removed and on_session_ready.
  on_session_added : ℕ → Switcher S → Option (Switcher S)
  on_session_added p s = add (record { scene_session = p }) (scene.process_id p) s

  on_session_removed : ℕ → Switcher S → Option (Switcher S)
  on_session_removed p s = remove p s

  on_session_ready : ℕ → Switcher S → Option (Switcher S)
  on_session_ready p s = mark_ready p s

  pub step : Event → Switcher S → Option (Switcher S)
  step (session_added p) s = on_session_added p s
  step (session_removed p) s = on_session_removed p s
  step (session_ready p) s = on_session_ready p s
  step (active_set name) s = set_active_session name s
  step (next_set name) s = set_next_session name s
  step (outputs internal external) s = active_outputs_changed internal external s

  step-active_set :
      (name : Str) (s : Switcher S) → step (active_set name) s ≡ set_active_session name s
  unfolding step
  step-active_set name s = refl

  step-next_set : (name : Str) (s : Switcher S) → step (next_set name) s ≡ set_next_session name s
  unfolding step
  step-next_set name s = refl

  unfoldable pub run : List Event → Switcher S → Option (Switcher S)
  run [] s = some s
  run (e ∷ es) s = step e s >>= run es

  abbrev without : ℕ → Switcher S → Switcher S
  without p s = record s {
    spinner_name = if str_eq (scene.scene_name p) s.spinner_name then [] else s.spinner_name;
    calls = hides p ∷ s.calls;
    sessions = Map.erase (scene.scene_name p) s.sessions;
  }

  -- What a call assigns before it updates the display; `none` if it returns early.
  unfoldable pub assigned : Event → Switcher S → Option (Switcher S)
  assigned (session_added p) s = some (record s {
    spinner_name =
        if int_eq (scene.process_id p) (spinner.pid s.spinner_process)
        then scene.scene_name p
        else s.spinner_name;
    sessions =
        Map.insert (scene.scene_name p)
          (record { session = some (record { scene_session = p }); ready = false }) s.sessions;
  })
  assigned (session_removed p) s =
      if holds p (Map.find (scene.scene_name p) s.sessions) then some (without p s) else none
  assigned (session_ready p) s = some (record s { sessions = mark_all p s.sessions })
  assigned (active_set name) s = some (record s { active_name = name })
  assigned (next_set name) s = some (record s { next_name = name })
  assigned (outputs internal external) s =
      some (record s { has_active_outputs = not (internal + external == 0) })

  abbrev pub displayed : Option (Switcher S) → Switcher S → Switcher S
  displayed none s = s
  displayed (some t) s = perform (plan t) t

  abbrev pub IsSoundIfAny : Option (Switcher S) → Type 0
  IsSoundIfAny none = Unit
  IsSoundIfAny (some t) = IsSound t.sessions

  pub assigned-IsSound :
      (e : Event) (s : Switcher S) → IsSound s.sessions → IsSoundIfAny (assigned e s)
  unfolding assigned session_name
  assigned-IsSound (session_added p) s v =
      insert-IsSound (record { scene_session = p }) false s.sessions v
  assigned-IsSound (session_removed p) s v =
      elim (Bool-cases (holds p (Map.find (scene.scene_name p) s.sessions))) [
        | inl found ↦ rw found (erase-IsSound _ s.sessions v)
        | inr other ↦ rw other tt
      ]
  assigned-IsSound (session_ready p) s v = mark_all-IsSound p s.sessions v
  assigned-IsSound (active_set name) s v = v
  assigned-IsSound (next_set name) s v = v
  assigned-IsSound (outputs internal external) s v = v

  pub displayed-IsSound :
      (o : Option (Switcher S)) (s : Switcher S)
      → IsSound s.sessions
      → IsSoundIfAny o
      → IsSound (displayed o s).sessions
  displayed-IsSound none s v w = v
  displayed-IsSound (some t) s v w = subst IsSound (sym (perform-Keeps (plan t) t).sessions_kept) w

  remove_lem :
      (p : ℕ) (s : Switcher S) (o : Option SessionInfo)
      → Map.find (scene.scene_name p) s.sessions ≡ o
      → IsSound s.sessions
      → remove_if_found (scene.scene_name p) p o s
        ≡ some (displayed (if holds p o then some (without p s) else none) s)
  unfolding remove_if_found remove_found corresponds_to hide
  remove_lem p s o e v =
      ground (arith, update-perform (without p s) (erase-IsSound (scene.scene_name p) s.sessions v))

  -- A call on a switcher whose sessions are sound goes through no null pointer: it makes its own
  -- assignments and then displays what the plan says, or returns early and changes nothing.
  pub step-displayed :
      (e : Event) (s : Switcher S)
      → IsSound s.sessions
      → step e s ≡ some (displayed (assigned e s) s)
  unfolding step assigned on_session_added on_session_removed on_session_ready add remove mark_ready
      set_active_session set_next_session active_outputs_changed session_name
  step-displayed (session_added p) s v =
      update-perform _ (insert-IsSound (record { scene_session = p }) false s.sessions v)
  step-displayed (session_removed p) s v = remove_lem p s _ refl v
  step-displayed (session_ready p) s v = update-perform _ (mark_all-IsSound p s.sessions v)
  step-displayed (active_set name) s v = update-perform _ v
  step-displayed (next_set name) s v = update-perform _ v
  step-displayed (outputs internal external) s v = update-perform _ v
