-- ===== src/Compositor/Linked.antt =====
-- The switcher of src/session_switcher.cpp stays linked to the screen of src/mir_screen.cpp: it goes by
-- the counts that the screen has now.
use unity_system_compositor.Prelude.{
  ℕ, ◌==◌, ◌≡◌, refl, true, false, List, [], ◌∷◌, Option, some, ◌>>=◌, Option-cases, inl, inr, All,
}
use unity_system_compositor.Prelude.Map
use unity_system_compositor.Prelude.Map.{str_key, ptr_key}
use unity_system_compositor.Session.{Scene}
use unity_system_compositor.Spinner.{Spinner}
use unity_system_compositor.Switcher.{Switcher, init as switcher_init}
use unity_system_compositor.Switcher.Runs.{
  Event as SwitcherEvent, session_added, session_removed, session_ready, active_set, next_set,
  assigned,
}
use unity_system_compositor.MirScreen.{
  ActiveOutputs, OutputFilter, PowerMode, Mir, MirScreen, tell_all, configuration_applied,
  initial_configuration, set_power_mode, no_outputs, turn_on, turn_off, count_active_outputs,
  init as screen_init, register_active_outputs_handler, unregister_active_outputs_handler,
}
use unity_system_compositor.MirScreen.Cases.{set_power_mode_cases}
use unity_system_compositor.Compositor.{
  Compositor, Event, added, removed, ready, active, next, turned_on, turned_off,
  initially_configured, configured, registered, unregistered, screen_set, outputs_handler,
  call_switcher, step, run, set_screen,
}
use unity_system_compositor.Compositor.Handlers.{
  HasHandler, tell_all-HasHandler, insert-HasHandler, insert-other, erase-other, erase-this,
}
use unity_system_compositor.Compositor.Current.{
  IsShowing, handler-IsCurrent, KeepsOutputs, called-IsCurrent, removed-KeepsOutputs,
}

-- Who else registers and unregisters does so as another owner than the switcher `this`.
abbrev pub IsApart : ℕ → Event → Type 0
IsApart this (registered o) = (o == this) ≡ false
IsApart this (unregistered o) = (o == this) ≡ false
IsApart this e = Unit

module _ ⦃scene : Scene⦄ {S : Type 0} ⦃spinner : Spinner S⦄ (this : ℕ) {D : Type 0} where
  -- The switcher's handler is registered once, whoever else has one, and the switcher goes by the
  -- counts that the screen has now.
  pub record IsLinked (s : MirScreen D (Option (Switcher S))) : Type 0 where
    pub handlers : HasHandler this s.active_outputs_handlers
    pub showing : IsShowing s.active_outputs s.world

  told-IsLinked :
      (a : ActiveOutputs) (s : MirScreen D (Option (Switcher S)))
      → IsLinked s
      → IsLinked
          (record s { active_outputs = a; world = tell_all s.active_outputs_handlers a s.world })
  unfolding tell_all
  told-IsLinked a s i = record {
    handlers = i.handlers;
    showing =
        let (t, world, current) = i.showing in
        rw (tell_all-HasHandler this s.active_outputs_handlers a s.world i.handlers, world)
          (handler-IsCurrent a t current.exclusive.sound);
  }

  -- A second `set_screen` registers the handler again.
  set_screen-IsLinked :
      (c : Compositor D S)
      → c.has_screen ≡ true
      → IsLinked c.screen
      → IsLinked (set_screen this c).screen
  unfolding set_screen register_active_outputs_handler unregister_active_outputs_handler
  set_screen-IsLinked c h i = rw h (record {
    handlers =
        insert-HasHandler this (Map.erase this c.screen.active_outputs_handlers)
          (erase-this this c.screen.active_outputs_handlers i.handlers);
    showing =
        let (t, world, current) = i.showing in
        rw world (handler-IsCurrent c.screen.active_outputs t current.exclusive.sound);
  })

  module _ ⦃mir : Mir D⦄ where
    set_power_mode-IsLinked :
        (mode : PowerMode) (f : OutputFilter) (s : MirScreen D (Option (Switcher S)))
        → IsLinked s
        → IsLinked (set_power_mode mode f s)
    unfolding configuration_applied
    set_power_mode-IsLinked mode f s i =
        set_power_mode_cases IsLinked mode f s
          (λ d. record { handlers = i.handlers; showing = i.showing })
          (λ d os.
            told-IsLinked (count_active_outputs os) (record s { device = d })
              (record { handlers = i.handlers; showing = i.showing }))

    call_switcher-IsLinked :
        (e : SwitcherEvent) (c : Compositor D S)
        → ((t : Switcher S) → KeepsOutputs (assigned e t) t)
        → IsLinked c.screen
        → IsLinked (call_switcher this e c).screen
    call_switcher-IsLinked e c k i = record {
      handlers = i.handlers;
      showing =
          let (t, world, current) = i.showing in
          rw world (called-IsCurrent e c.screen.active_outputs t current (k t));
    }

    step-IsLinked :
        (e : Event) (c : Compositor D S)
        → IsApart this e
        → c.has_screen ≡ true
        → IsLinked c.screen
        → IsLinked (step this e c).screen
    unfolding step assigned turn_on turn_off configuration_applied initial_configuration
        register_active_outputs_handler unregister_active_outputs_handler
    step-IsLinked (added p) c apart h i = call_switcher-IsLinked (session_added p) c (λ t. refl) i
    step-IsLinked (removed p) c apart h i =
        call_switcher-IsLinked (session_removed p) c (removed-KeepsOutputs p) i
    step-IsLinked (ready p) c apart h i = call_switcher-IsLinked (session_ready p) c (λ t. refl) i
    step-IsLinked (active name) c apart h i =
        call_switcher-IsLinked (active_set name) c (λ t. refl) i
    step-IsLinked (next name) c apart h i = call_switcher-IsLinked (next_set name) c (λ t. refl) i
    step-IsLinked (turned_on f) c apart h i = set_power_mode-IsLinked PowerMode.on f c.screen i
    step-IsLinked (turned_off f) c apart h i = set_power_mode-IsLinked PowerMode.off f c.screen i
    step-IsLinked (initially_configured os) c apart h i =
        told-IsLinked (count_active_outputs os) c.screen i
    step-IsLinked (configured os) c apart h i = told-IsLinked (count_active_outputs os) c.screen i
    step-IsLinked (registered o) c apart h i = record {
      handlers = insert-other this o c.screen.active_outputs_handlers apart i.handlers;
      showing = i.showing;
    }
    step-IsLinked (unregistered o) c apart h i = record {
      handlers = erase-other this o c.screen.active_outputs_handlers apart i.handlers;
      showing = i.showing;
    }
    step-IsLinked screen_set c apart h i = set_screen-IsLinked c h i

    step_keeps_screen :
        (e : Event) (c : Compositor D S) → c.has_screen ≡ true → (step this e c).has_screen ≡ true
    unfolding step set_screen
    step_keeps_screen (added p) c h = h
    step_keeps_screen (removed p) c h = h
    step_keeps_screen (ready p) c h = h
    step_keeps_screen (active name) c h = h
    step_keeps_screen (next name) c h = h
    step_keeps_screen (turned_on f) c h = h
    step_keeps_screen (turned_off f) c h = h
    step_keeps_screen (initially_configured os) c h = h
    step_keeps_screen (configured os) c h = h
    step_keeps_screen (registered o) c h = h
    step_keeps_screen (unregistered o) c h = h
    step_keeps_screen screen_set c h = refl

    run-IsLinked :
        (es : List Event) (c : Compositor D S)
        → All (IsApart this) es
        → c.has_screen ≡ true
        → IsLinked c.screen
        → ((run this es c).has_screen ≡ true) × IsLinked (run this es c).screen
    unfolding run
    run-IsLinked [] c apart h i = (h, i)
    run-IsLinked (e ∷ es) c apart h i =
        run-IsLinked es (step this e c) apart.1 (step_keeps_screen e c h)
          (step-IsLinked e c apart.0 h i)

    -- A new switcher on a new screen, as the server makes them.
    pub boot : D → S → Option (Compositor D S)
    boot device spinner_process = do
      screen ← screen_init device (some (switcher_init spinner_process))
      some (set_screen this (record { screen = screen; has_screen = false }))

    handled-IsLinked :
        (spinner_process : S) (started : D) (a : ActiveOutputs)
        → IsLinked (
            register_active_outputs_handler this outputs_handler (record {
              device = started;
              active_outputs_handlers = [];
              active_outputs = a;
              world = some (switcher_init spinner_process);
            }))
    unfolding register_active_outputs_handler switcher_init Map.insert
    handled-IsLinked spinner_process started a = record {
      handlers = insert-HasHandler this [] tt;
      showing = handler-IsCurrent a (switcher_init spinner_process) tt;
    }

    -- Where Mir's compositor starts, the switcher is linked to the screen from the beginning.
    boot-IsLinked :
        (device : D) (spinner_process : S)
        → (mir.start device).1 ≡ false
        → (c : Compositor D S) × (boot device spinner_process ≡ some c)
          × (c.has_screen ≡ true)
          × IsLinked c.screen
    unfolding boot set_screen screen_init
    boot-IsLinked device spinner_process started =
        elim (Option-cases (mir.configuration (mir.start device).0)) [
          | inl unread ↦
              rw (started, unread)
                (_, refl, refl, handled-IsLinked spinner_process (mir.start device).0 no_outputs)
          | inr (os, read) ↦
              rw (started, read)
                (
                  _,
                  refl,
                  refl,
                  handled-IsLinked spinner_process (mir.start device).0 (count_active_outputs os),
                )
        ]

    -- Where Mir's compositor starts: whatever sessions come, get ready and go on a new switcher,
    -- whatever names it is given, however often its screen is set again, whatever is turned on, off
    -- or configured on its new screen, and whichever other owners register and unregister handlers
    -- there that leave the switcher alone, in any order and whether Mir then refuses or throws: the
    -- switcher has gone through no null pointer, its handler is registered once, and it goes by the
    -- counts that the screen has now. What is visible of its sessions is the active, the next or
    -- the spinner's one, and nothing without an output.
    pub run-boot-IsLinked :
        (device : D) (spinner_process : S) (es : List Event)
        → (mir.start device).1 ≡ false
        → All (IsApart this) es
        → (c : Compositor D S) × (boot device spinner_process ≡ some c)
          × ((run this es c).has_screen ≡ true)
          × IsLinked (run this es c).screen
    run-boot-IsLinked device spinner_process es started apart =
        let (c, made, has, linked) = boot-IsLinked device spinner_process started in
        let (kept, ended) = run-IsLinked es c apart has linked in (c, made, kept, ended)
