-- ===== src/Switcher/Assigned.antt =====
-- What each call on the switcher of src/session_switcher.cpp changes before it updates the display,
-- told by what is found under each name.
use unity_system_compositor.Prelude.{
  ℕ, ◌==◌, not, ◌≡◌, refl, ap, ◌∙◌, ◌&&◌, ◌⊎◌, inl, inr, Bool, true, false, ◌||◌, List, [], ◌∷◌,
  Option, none, some, Str, str_eq, arith, if◌then◌else◌, Bool-cases,
}
use unity_system_compositor.Prelude.Map
use unity_system_compositor.Prelude.Map.{str_key}
use unity_system_compositor.Prelude.Int.{int_eq}
use unity_system_compositor.Session.{Scene, hides, Call}
use unity_system_compositor.Spinner.{Spinner}
use unity_system_compositor.Switcher.{SessionInfo, Switcher, stands_for, mark_all}
use unity_system_compositor.Switcher.Sound.{IsSound}
use unity_system_compositor.Switcher.Plan.{plan, perform}
use unity_system_compositor.Switcher.Runs.{
  Event, session_added, session_removed, session_ready, active_set, next_set, outputs, holds, step,
  assigned, displayed, step-displayed,
}

-- An entry when the scene session `p` is ready.
abbrev with_ready : ℕ → Option SessionInfo → Option SessionInfo
with_ready p none = none
with_ready p (some info) =
    some (record { session = info.session; ready = stands_for info.session p || info.ready })

find-mark_all :
    (p : ℕ) (name : Str) (m : List (Str × SessionInfo))
    → Map.find name (mark_all p m) ≡ with_ready p (Map.find name m)
unfolding Map.find mark_all
find-mark_all p name [] = refl
find-mark_all p name ((key, info) ∷ m) = ground (arith, find-mark_all p name m)

-- A session that is removed is hidden first.
abbrev hidden : Event → List Call → List Call
hidden (session_added p) calls = calls
hidden (session_removed p) calls = hides p ∷ calls
hidden (session_ready p) calls = calls
hidden (active_set name) calls = calls
hidden (next_set name) calls = calls
hidden (outputs internal external) calls = calls

module _ ⦃scene : Scene⦄ {S : Type 0} ⦃spinner : Spinner S⦄ where
  -- A session is removed only by the scene session that stands under its name.
  abbrev pub leaves_early : Event → Switcher S → Bool
  leaves_early (session_added p) s = false
  leaves_early (session_removed p) s = not (holds p (Map.find (scene.scene_name p) s.sessions))
  leaves_early (session_ready p) s = false
  leaves_early (active_set name) s = false
  leaves_early (next_set name) s = false
  leaves_early (outputs internal external) s = false

  -- The entry under a name.
  abbrev entry : Event → Str → Switcher S → Option SessionInfo
  entry (session_added p) name s =
      if str_eq (scene.scene_name p) name
      then some (record { session = some (record { scene_session = p }); ready = false })
      else Map.find name s.sessions
  entry (session_removed p) name s =
      if str_eq (scene.scene_name p) name then none else Map.find name s.sessions
  entry (session_ready p) name s = with_ready p (Map.find name s.sessions)
  entry (active_set n) name s = Map.find name s.sessions
  entry (next_set n) name s = Map.find name s.sessions
  entry (outputs internal external) name s = Map.find name s.sessions

  abbrev active : Event → Switcher S → Str
  active (session_added p) s = s.active_name
  active (session_removed p) s = s.active_name
  active (session_ready p) s = s.active_name
  active (active_set name) s = name
  active (next_set name) s = s.active_name
  active (outputs internal external) s = s.active_name

  abbrev next : Event → Switcher S → Str
  next (session_added p) s = s.next_name
  next (session_removed p) s = s.next_name
  next (session_ready p) s = s.next_name
  next (active_set name) s = s.next_name
  next (next_set name) s = name
  next (outputs internal external) s = s.next_name

  -- The spinner's session is the one of the spinner's process.
  abbrev of_spinner : Event → Switcher S → Str
  of_spinner (session_added p) s =
      if int_eq (scene.process_id p) (spinner.pid s.spinner_process)
      then scene.scene_name p
      else s.spinner_name
  of_spinner (session_removed p) s =
      if str_eq (scene.scene_name p) s.spinner_name then [] else s.spinner_name
  of_spinner (session_ready p) s = s.spinner_name
  of_spinner (active_set name) s = s.spinner_name
  of_spinner (next_set name) s = s.spinner_name
  of_spinner (outputs internal external) s = s.spinner_name

  abbrev lit : Event → Switcher S → Bool
  lit (session_added p) s = s.has_active_outputs
  lit (session_removed p) s = s.has_active_outputs
  lit (session_ready p) s = s.has_active_outputs
  lit (active_set name) s = s.has_active_outputs
  lit (next_set name) s = s.has_active_outputs
  lit (outputs internal external) s = not (internal == 0 && external == 0)

  pub record IsAfter (e : Event) (s t : Switcher S) : Type 0 where
    pub entries : (name : Str) → Map.find name t.sessions ≡ entry e name s
    pub active_named : t.active_name ≡ active e s
    pub next_named : t.next_name ≡ next e s
    pub spinner_named : t.spinner_name ≡ of_spinner e s
    pub lit_up : t.has_active_outputs ≡ lit e s
    pub calls_made : t.calls ≡ hidden e s.calls
    pub still_booting : t.booting ≡ s.booting
    pub same_process : t.spinner_process ≡ s.spinner_process

  assigned-IsAfter :
      (e : Event) (s : Switcher S)
      → ((leaves_early e s ≡ true) × (assigned e s ≡ none))
        ⊎ ((leaves_early e s ≡ false) × (t : Switcher S) × (assigned e s ≡ some t) × IsAfter e s t)
  unfolding assigned
  assigned-IsAfter (session_added p) s = inr (
    refl,
    _,
    refl,
    record {
      entries = λ name. Map.find-insert (scene.scene_name p) name _ s.sessions;
      active_named = refl;
      next_named = refl;
      spinner_named = refl;
      lit_up = refl;
      calls_made = refl;
      still_booting = refl;
      same_process = refl;
    },
  )
  assigned-IsAfter (session_removed p) s =
      elim (Bool-cases (holds p (Map.find (scene.scene_name p) s.sessions))) [
        | inr other ↦ inl (ground (arith, other), rw other refl)
        | inl found ↦ inr (
          ground (arith, found),
          _,
          rw found refl,
          record {
            entries = λ name. Map.find-erase (scene.scene_name p) name s.sessions;
            active_named = refl;
            next_named = refl;
            spinner_named = refl;
            lit_up = refl;
            calls_made = refl;
            still_booting = refl;
            same_process = refl;
          },
        )
      ]
  assigned-IsAfter (session_ready p) s = inr (
    refl,
    _,
    refl,
    record {
      entries = λ name. find-mark_all p name s.sessions;
      active_named = refl;
      next_named = refl;
      spinner_named = refl;
      lit_up = refl;
      calls_made = refl;
      still_booting = refl;
      same_process = refl;
    },
  )
  assigned-IsAfter (active_set name) s = inr (
    refl,
    _,
    refl,
    record {
      entries = λ name. refl;
      active_named = refl;
      next_named = refl;
      spinner_named = refl;
      lit_up = refl;
      calls_made = refl;
      still_booting = refl;
      same_process = refl;
    },
  )
  assigned-IsAfter (next_set name) s = inr (
    refl,
    _,
    refl,
    record {
      entries = λ name. refl;
      active_named = refl;
      next_named = refl;
      spinner_named = refl;
      lit_up = refl;
      calls_made = refl;
      still_booting = refl;
      same_process = refl;
    },
  )
  assigned-IsAfter (outputs internal external) s = inr (
    refl,
    _,
    refl,
    record {
      entries = λ name. refl;
      active_named = refl;
      next_named = refl;
      spinner_named = refl;
      lit_up = ground arith;
      calls_made = refl;
      still_booting = refl;
      same_process = refl;
    },
  )

  -- A call on a switcher whose sessions are sound goes through no null pointer. It returns early
  -- and changes nothing just if it is to remove a scene session that does not stand under its name.
  -- Otherwise it displays what the plan says for a switcher of which this is said name by name:
  -- added, the new session stands under its name and is not ready; removed, nothing stands under
  -- the name, the session has been hidden and is not the spinner's any more; ready, each entry of
  -- the scene session is ready and every other entry is as before; and the active name, the next
  -- name, the spinner's session and the presence of outputs are what the call sets, all else as
  -- before.
  pub step-IsAfter :
      (e : Event) (s : Switcher S)
      → IsSound s.sessions
      → ((leaves_early e s ≡ true) × (step e s ≡ some s))
        ⊎ ((leaves_early e s ≡ false)
            × (t : Switcher S) × IsAfter e s t
            × (step e s ≡ some (perform (plan t) t)))
  step-IsAfter e s v = elim (assigned-IsAfter e s) [
    | inl (early, nothing) ↦
        inl (early, step-displayed e s v ∙ ap (λ o. some (displayed o s)) nothing)
    | inr (goes_on, t, made, after) ↦
        inr (goes_on, t, after, step-displayed e s v ∙ ap (λ o. some (displayed o s)) made)
  ]
