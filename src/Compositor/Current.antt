-- ===== src/Compositor/Current.antt =====
-- The switcher of src/session_switcher.cpp goes by the counts that it was told last.
use unity_system_compositor.Prelude.{
  ℕ, ◌+◌, ◌==◌, not, ◌≡◌, refl, subst, Bool, true, false, Option, none, some, ◌∙◌, arith,
  Bool-cases, inl, inr,
}
use unity_system_compositor.Prelude.Map
use unity_system_compositor.Prelude.Map.{str_key, ptr_key}
use unity_system_compositor.Session.{Scene}
use unity_system_compositor.Spinner.{Spinner}
use unity_system_compositor.Switcher.{Switcher, active_outputs_changed}
use unity_system_compositor.Switcher.Plan.{plan, perform}
use unity_system_compositor.Switcher.Refinement.{perform-Keeps, update-perform}
use unity_system_compositor.Switcher.Sound.{IsSound}
use unity_system_compositor.Switcher.Display.{visible, listed}
use unity_system_compositor.Switcher.Shown.{update_dark}
use unity_system_compositor.Switcher.History.{IsExclusive, perform-IsExclusive}
use unity_system_compositor.Switcher.Runs.{
  step as switcher_step, Event as SwitcherEvent, session_removed, holds, assigned, displayed,
  assigned-IsSound, IsSoundIfAny, step-displayed,
}
use unity_system_compositor.MirScreen.{ActiveOutputs}
use unity_system_compositor.Compositor.{outputs_handler}

-- Whether any output is active, as the handler works it out.
abbrev is_lit : ActiveOutputs → Bool
is_lit a = not (a.internal + a.external == 0)

module _ ⦃scene : Scene⦄ {S : Type 0} ⦃spinner : Spinner S⦄ where
  -- The switcher goes by the counts `a`; without an output it shows none of its sessions.
  pub record IsCurrent (a : ActiveOutputs) (t : Switcher S) : Type 0 where
    pub exclusive : IsExclusive t
    pub counted : t.has_active_outputs ≡ is_lit a
    pub dark :
        t.has_active_outputs ≡ false
        → (q : ℕ) → listed q t.sessions ≡ true
        → visible t.calls q ≡ some false

  abbrev pub IsShowing : ActiveOutputs → Option (Switcher S) → Type 0
  IsShowing a o = (t : Switcher S) × (o ≡ some t) × IsCurrent a t

  performed-IsCurrent :
      (a : ActiveOutputs) (u : Switcher S)
      → IsSound u.sessions
      → u.has_active_outputs ≡ is_lit a
      → IsCurrent a (perform (plan u) u)
  performed-IsCurrent a u v lit = record {
    exclusive = perform-IsExclusive u v;
    counted = ground (arith, perform-Keeps (plan u) u);
    dark = λ unlit q held. ground (
      arith,
      (update_dark u (perform (plan u) u) v (ground (arith, perform-Keeps (plan u) u))
            (update-perform u v)).0
          q (subst (λ m. listed q m ≡ true) (perform-Keeps (plan u) u).sessions_kept held),
    );
  }

  pub handler-IsCurrent :
      (a : ActiveOutputs) (t : Switcher S)
      → IsSound t.sessions
      → IsShowing a (outputs_handler a (some t))
  unfolding active_outputs_changed
  handler-IsCurrent a t v =
      let u : Switcher S = record t { has_active_outputs = is_lit a } in
      (perform (plan u) u, update-perform u v, performed-IsCurrent a u v refl)

  -- What a call assigns leaves the outputs of the switcher alone.
  abbrev pub KeepsOutputs : Option (Switcher S) → Switcher S → Type 0
  KeepsOutputs none s = Unit
  KeepsOutputs (some t) s = t.has_active_outputs ≡ s.has_active_outputs

  displayed-IsCurrent :
      (a : ActiveOutputs) (o : Option (Switcher S)) (t : Switcher S)
      → IsCurrent a t
      → IsSoundIfAny o
      → KeepsOutputs o t
      → IsCurrent a (displayed o t)
  displayed-IsCurrent a none t i v k = i
  displayed-IsCurrent a (some u) t i v k = performed-IsCurrent a u v (k ∙ i.counted)

  pub called-IsCurrent :
      (e : SwitcherEvent) (a : ActiveOutputs) (t : Switcher S)
      → IsCurrent a t
      → KeepsOutputs (assigned e t) t
      → IsShowing a (switcher_step e t)
  called-IsCurrent e a t i k = (
    displayed (assigned e t) t,
    step-displayed e t i.exclusive.sound,
    displayed-IsCurrent a (assigned e t) t i (assigned-IsSound e t i.exclusive.sound) k,
  )

  pub removed-KeepsOutputs :
      (p : ℕ) (t : Switcher S) → KeepsOutputs (assigned (session_removed p) t) t
  unfolding assigned
  removed-KeepsOutputs p t =
      elim (Bool-cases (holds p (Map.find (scene.scene_name p) t.sessions))) [
        | inl found ↦ rw found refl
        | inr other ↦ rw other tt
      ]
