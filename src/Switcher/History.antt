-- ===== src/Switcher/History.antt =====
-- What src/session_switcher.cpp keeps over every history of calls.
use unity_system_compositor.Prelude.{
  ℕ, ◌≡◌, refl, subst, ◌⊎◌, inl, inr, true, false, List, [], ◌∷◌, Option, none, some, str_eq_iff,
  arith, Bool-cases,
}
use unity_system_compositor.Prelude.Map
use unity_system_compositor.Prelude.Map.{str_key}
use unity_system_compositor.Session.{Scene}
use unity_system_compositor.Spinner.{Spinner}
use unity_system_compositor.Switcher.{Switcher, init}
use unity_system_compositor.Switcher.Sound.{IsSound}
use unity_system_compositor.Switcher.Plan.{Plan, plan, perform}
use unity_system_compositor.Switcher.Refinement.{perform-Keeps, update-perform}
use unity_system_compositor.Switcher.Display.{visible, listed}
use unity_system_compositor.Switcher.Shown.{update_dark, update_hides_others}
use unity_system_compositor.Switcher.Runs.{
  Event, session_added, session_removed, session_ready, active_set, next_set, outputs, holds, run,
  assigned, displayed, assigned-IsSound, displayed-IsSound, IsSoundIfAny, step-displayed,
}

module _ ⦃scene : Scene⦄ {S : Type 0} ⦃spinner : Spinner S⦄ where
  -- A session that is held and visible is the active, the next or the spinner's one.
  pub record IsExclusive (s : Switcher S) : Type 0 where
    pub sound : IsSound s.sessions
    pub exclusive :
        (q : ℕ)
        → listed q s.sessions ≡ true
        → visible s.calls q ≡ some true
        → (scene.scene_name q ≡ s.active_name)
          ⊎ (scene.scene_name q ≡ s.next_name)
          ⊎ (scene.scene_name q ≡ s.spinner_name)

  hidden_or_named :
      (s : Switcher S) (q : ℕ)
      → IsSound s.sessions
      → listed q s.sessions ≡ true
      → (visible (perform (plan s) s).calls q ≡ some false)
        ⊎ ((scene.scene_name q ≡ s.active_name)
            ⊎ (scene.scene_name q ≡ s.next_name)
            ⊎ (scene.scene_name q ≡ s.spinner_name))
  hidden_or_named s q v held = elim (Bool-cases s.has_active_outputs) [
    | inl lit ↦ ground (
      arith,
      update_hides_others s (perform (plan s) s) q v lit (update-perform s v) held,
      str_eq_iff (scene.scene_name q) s.active_name,
      str_eq_iff (scene.scene_name q) s.next_name,
      str_eq_iff (scene.scene_name q) s.spinner_name,
    )
    | inr unlit ↦ inl ((update_dark s (perform (plan s) s) v unlit (update-perform s v)).0 q held)
  ]

  pub perform-IsExclusive : (s : Switcher S) → IsSound s.sessions → IsExclusive (perform (plan s) s)
  perform-IsExclusive s v = record {
    sound = displayed-IsSound (some s) s v v;
    exclusive = λ q held shown. ground (
      arith,
      perform-Keeps (plan s) s,
      hidden_or_named s q v
          (subst (λ m. listed q m ≡ true) (perform-Keeps (plan s) s).sessions_kept held),
    );
  }

  displayed-IsExclusive :
      (o : Option (Switcher S)) (s : Switcher S)
      → IsExclusive s
      → IsSoundIfAny o
      → IsExclusive (displayed o s)
  displayed-IsExclusive none s i v = i
  displayed-IsExclusive (some t) s i v = perform-IsExclusive t v

  run_from-IsExclusive :
      (es : List Event) (s : Switcher S)
      → IsExclusive s
      → (t : Switcher S) × (run es s ≡ some t) × IsExclusive t
  unfolding run
  run_from-IsExclusive [] s i = (s, refl, i)
  run_from-IsExclusive (e ∷ es) s i = rw (step-displayed e s i.sound) (
      run_from-IsExclusive es (displayed (assigned e s) s)
        (displayed-IsExclusive (assigned e s) s i (assigned-IsSound e s i.sound)))

  -- After any history of calls a new switcher has gone through no null session pointer, holds each
  -- session under that session's own name, and every session that it holds and that is visible has
  -- the name of the active, of the next or of the spinner's session.
  pub run-init-IsExclusive :
      (es : List Event) (spinner_process : S)
      → (t : Switcher S) × (run es (init spinner_process) ≡ some t) × IsExclusive t
  unfolding init listed
  run-init-IsExclusive es spinner_process =
      run_from-IsExclusive es (init spinner_process)
        (record { sound = tt; exclusive = λ q held. cc })

  booted_stays : (p : Plan) (s : Switcher S) → s.booting ≡ false → (perform p s).booting ≡ false
  unfolding perform
  booted_stays p s b = ground arith

  displayed_booted :
      (e : Event) (s : Switcher S)
      → s.booting ≡ false
      → (displayed (assigned e s) s).booting ≡ false
  unfolding assigned
  displayed_booted (session_removed p) s b =
      elim (Bool-cases (holds p (Map.find (scene.scene_name p) s.sessions))) [
        | inl found ↦ rw found (booted_stays _ _ b)
        | inr other ↦ rw other b
      ]
  displayed_booted (session_added p) s b = booted_stays _ _ b
  displayed_booted (session_ready p) s b = booted_stays _ _ b
  displayed_booted (active_set n) s b = booted_stays _ _ b
  displayed_booted (next_set n) s b = booted_stays _ _ b
  displayed_booted (outputs i e) s b = booted_stays _ _ b

  -- On a switcher without null session pointers, each session under its own name: once booting is
  -- over it stays over, whatever is called.
  run_booted :
      (es : List Event) (s t : Switcher S)
      → IsSound s.sessions
      → s.booting ≡ false
      → run es s ≡ some t
      → t.booting ≡ false
  unfolding run
  run_booted [] s t v b e = cc
  run_booted (event ∷ es) s t v b e =
      run_booted es (displayed (assigned event s) s) t
        (displayed-IsSound (assigned event s) s v (assigned-IsSound event s v))
        (displayed_booted event s b) (rw (step-displayed event s v) at e)
