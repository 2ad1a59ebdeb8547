-- ===== src/Compositor/Destroyed.antt =====
-- The end of the switcher of src/session_switcher.cpp: its screen, src/mir_screen.cpp, lives on.
use unity_system_compositor.Prelude.{
  ℕ, ◌==◌, ◌≡◌, refl, ◌∙◌, true, false, List, [], ◌∷◌, Option, some, All,
}
use unity_system_compositor.Prelude.Map
use unity_system_compositor.Prelude.Map.{ptr_key}
use unity_system_compositor.Session.{Scene}
use unity_system_compositor.Spinner.{Spinner}
use unity_system_compositor.Switcher.{Switcher}
use unity_system_compositor.MirScreen.{
  Configuration, PowerMode, Mir, MirScreen, configuration_applied, initial_configuration, turn_on,
  turn_off, register_active_outputs_handler, unregister_active_outputs_handler,
  count_active_outputs,
}
use unity_system_compositor.MirScreen.Cases.{set_power_mode_cases}
use unity_system_compositor.Compositor.{
  Compositor, Event, added, removed, ready, active, next, turned_on, turned_off,
  initially_configured, configured, registered, unregistered, screen_set, other_handler, step, run,
  destroy,
}
use unity_system_compositor.Compositor.Linked.{IsApart, IsLinked, boot, run-boot-IsLinked}
use unity_system_compositor.Compositor.Handlers.{IsOther, tell_all-others, erase-this}

-- What is called on the screen alone, by others than the switcher `this`.
abbrev IsOnScreen : ℕ → Event → Type 0
IsOnScreen this (added p) = ⊥
IsOnScreen this (removed p) = ⊥
IsOnScreen this (ready p) = ⊥
IsOnScreen this (active name) = ⊥
IsOnScreen this (next name) = ⊥
IsOnScreen this (turned_on f) = Unit
IsOnScreen this (turned_off f) = Unit
IsOnScreen this (initially_configured os) = Unit
IsOnScreen this (configured os) = Unit
IsOnScreen this (registered o) = (o == this) ≡ false
IsOnScreen this (unregistered o) = (o == this) ≡ false
IsOnScreen this screen_set = ⊥

module _ {D S : Type 0} (this : ℕ) (w : Option (Switcher S)) where
  -- A screen whose handlers leave the switcher alone, over the world `w`.
  abbrev IsAlone : MirScreen D (Option (Switcher S)) → Type 0
  IsAlone s = All (IsOther this) s.active_outputs_handlers × (s.world ≡ w)

  applied-IsAlone :
      (os : Configuration) (s : MirScreen D (Option (Switcher S)))
      → IsAlone s
      → IsAlone (configuration_applied os s)
  unfolding configuration_applied
  applied-IsAlone os s (others, same) = (
    others,
    tell_all-others this s.active_outputs_handlers (count_active_outputs os) s.world others ∙ same,
  )

  module _ ⦃scene : Scene⦄ ⦃spinner : Spinner S⦄ ⦃mir : Mir D⦄ where
    step-IsAlone :
        (e : Event) (c : Compositor D S)
        → IsOnScreen this e
        → IsAlone c.screen
        → IsAlone (step this e c).screen
    unfolding step turn_on turn_off initial_configuration configuration_applied
        register_active_outputs_handler unregister_active_outputs_handler
    step-IsAlone (added p) c o a = elim o [ ]
    step-IsAlone (removed p) c o a = elim o [ ]
    step-IsAlone (ready p) c o a = elim o [ ]
    step-IsAlone (active n) c o a = elim o [ ]
    step-IsAlone (next n) c o a = elim o [ ]
    step-IsAlone (turned_on f) c o a =
        set_power_mode_cases IsAlone PowerMode.on f c.screen (λ d. a)
          (λ d os. applied-IsAlone os (record c.screen { device = d }) a)
    step-IsAlone (turned_off f) c o a =
        set_power_mode_cases IsAlone PowerMode.off f c.screen (λ d. a)
          (λ d os. applied-IsAlone os (record c.screen { device = d }) a)
    step-IsAlone (initially_configured os) c o a = applied-IsAlone os c.screen a
    step-IsAlone (configured os) c o a = applied-IsAlone os c.screen a
    step-IsAlone (registered k) c o (others, same) = (
      Map.insert-All (IsOther this) k other_handler c.screen.active_outputs_handlers
          (o, λ n v. refl) others,
      same,
    )
    step-IsAlone (unregistered k) c o (others, same) =
        (Map.erase-All (IsOther this) k c.screen.active_outputs_handlers others, same)
    step-IsAlone screen_set c o a = elim o [ ]

    run-IsAlone :
        (es : List Event) (c : Compositor D S)
        → All (IsOnScreen this) es
        → IsAlone c.screen
        → IsAlone (run this es c).screen
    unfolding run
    run-IsAlone [] c o a = a
    run-IsAlone (e ∷ es) c o a = run-IsAlone es (step this e c) o.1 (step-IsAlone e c o.0 a)

module _ ⦃scene : Scene⦄ {D S : Type 0} ⦃spinner : Spinner S⦄ (this : ℕ) ⦃mir : Mir D⦄ where
  destroy-IsAlone :
      (c : Compositor D S)
      → c.has_screen ≡ true
      → IsLinked this c.screen
      → IsAlone this c.screen.world (destroy this c).screen
  unfolding destroy unregister_active_outputs_handler
  destroy-IsAlone c h i = rw h (erase-this this c.screen.active_outputs_handlers i.handlers, refl)

  -- Where Mir's compositor starts: after any such calls on a switcher and its screen, with other
  -- owners' handlers that leave the switcher alone, and then the switcher's destructor, nothing
  -- that is called on the screen, by the other owners too, reaches the switcher that is gone. It
  -- stays as the destructor left it.
  pub run-destroy :
      (device : D) (spinner_process : S) (es later : List Event)
      → (mir.start device).1 ≡ false
      → All (IsApart this) es
      → All (IsOnScreen this) later
      → (c : Compositor D S) × (boot this device spinner_process ≡ some c)
        × ((run this later (destroy this (run this es c))).screen.world
            ≡ (run this es c).screen.world)
  run-destroy device spinner_process es later started apart o =
      let (c, made, has, linked) = run-boot-IsLinked this device spinner_process es started apart in
      let end : Compositor D S = run this es c in
      (
        c,
        made,
        (run-IsAlone this end.screen.world later (destroy this end) o
            (destroy-IsAlone end has linked)).1,
      )
