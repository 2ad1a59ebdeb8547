-- ===== src/MirScreen/Told.antt =====
-- Who knows the counts of src/mir_screen.cpp: each registered handler was last told the present ones.
use unity_system_compositor.Prelude.{
  ℕ, ◌≡◌, ◌≢◌, refl, Bool, true, false, List, [], ◌∷◌, Option, none, some, arith, All, Bool-cases,
  if◌then◌else◌, ◌==◌,
}
use unity_system_compositor.Prelude.Map
use unity_system_compositor.Prelude.Map.{ptr_key}
use unity_system_compositor.MirScreen.{
  ActiveOutputs, OutputFilter, PowerMode, Configuration, Mir, ActiveOutputsHandler, MirScreen,
  tell_all, register_active_outputs_handler, unregister_active_outputs_handler,
  configuration_applied, initial_configuration, set_power_mode, turn_on, turn_off, init,
}
use unity_system_compositor.MirScreen.Cases.{set_power_mode_cases}
use unity_system_compositor.MirScreen.Runs.{
  Event, registers, unregisters, initially_configured, configured, turned_on, turned_off, step, run,
}

abbrev is_some {ℓ} : {A : Type ℓ} → Option A → Bool
is_some none = false
is_some (some a) = true

-- `heard k w`: what the owner `k` was last told in the world `w`. A handler keeps what it is told for
-- its owner, and lets alone what the others were told.
module _ {W : Type 0} (heard : ℕ → W → ActiveOutputs) where
  abbrev pub Reports : ℕ × ActiveOutputsHandler W → Type 0
  Reports (owner, handler) =
      ((a : ActiveOutputs) (w : W) → heard owner (handler a w) ≡ a)
      × ((k : ℕ) (a : ActiveOutputs) (w : W) → k ≢ owner → heard k (handler a w) ≡ heard k w)

  abbrev registered : ℕ → List (ℕ × ActiveOutputsHandler W) → Bool
  registered k [] = false
  registered k ((owner, handler) ∷ hs) = if owner == k then true else registered k hs

  tell_all_other :
      (k : ℕ) (hs : List (ℕ × ActiveOutputsHandler W)) (a : ActiveOutputs) (w : W)
      → All Reports hs
      → registered k hs ≡ false
      → heard k (tell_all hs a w) ≡ heard k w
  unfolding tell_all
  tell_all_other k [] a w r out = refl
  tell_all_other k ((owner, handler) ∷ hs) a w r out =
      ground (arith, tell_all_other k hs a (handler a w) r.1, r.0.1 k a w)

  tell_all_same :
      (k : ℕ) (hs : List (ℕ × ActiveOutputsHandler W)) (a : ActiveOutputs) (w : W)
      → All Reports hs
      → heard k w ≡ a
      → heard k (tell_all hs a w) ≡ a
  unfolding tell_all
  tell_all_same k [] a w r h = h
  tell_all_same k ((owner, handler) ∷ hs) a w r h = ground (
    arith,
    tell_all_same k hs a (handler a w) r.1,
    r.0.1 k a w,
    r.0.0 a w,
    Bool-cases (k == owner),
  )

  tell_all_told :
      (k : ℕ) (hs : List (ℕ × ActiveOutputsHandler W)) (a : ActiveOutputs) (w : W)
      → All Reports hs
      → registered k hs ≡ true
      → heard k (tell_all hs a w) ≡ a
  unfolding tell_all
  tell_all_told k [] a w r h = cc
  tell_all_told k ((owner, handler) ∷ hs) a w r h = ground (
    arith,
    tell_all_same k hs a (handler a w) r.1,
    tell_all_told k hs a (handler a w) r.1,
    r.0.0 a w,
  )

  registered-find :
      (k : ℕ) (hs : List (ℕ × ActiveOutputsHandler W)) → registered k hs ≡ is_some (Map.find k hs)
  unfolding Map.find
  registered-find k [] = refl
  registered-find k ((owner, handler) ∷ hs) = ground (arith, registered-find k hs)

  -- Every handler reports to its owner, and every owner was last told the present counts.
  pub record IsTold {D : Type 0} (s : MirScreen D W) : Type 0 where
    pub reports : All Reports s.active_outputs_handlers
    pub told :
        (k : ℕ) → registered k s.active_outputs_handlers ≡ true → heard k s.world ≡ s.active_outputs

  module _ {D : Type 0} where
    configuration_applied-IsTold :
        (os : Configuration) (s : MirScreen D W) → IsTold s → IsTold (configuration_applied os s)
    unfolding configuration_applied
    configuration_applied-IsTold os s i = record {
      reports = i.reports;
      told = λ k h. tell_all_told k s.active_outputs_handlers _ s.world i.reports h;
    }

    initial_configuration-IsTold :
        (os : Configuration) (s : MirScreen D W) → IsTold s → IsTold (initial_configuration os s)
    unfolding initial_configuration
    initial_configuration-IsTold os s i = record {
      reports = i.reports;
      told = λ k h. tell_all_told k s.active_outputs_handlers _ s.world i.reports h;
    }

    register-IsTold :
        (owner : ℕ) (handler : ActiveOutputsHandler W) (s : MirScreen D W)
        → Reports (owner, handler)
        → IsTold s
        → IsTold (register_active_outputs_handler owner handler s)
    unfolding register_active_outputs_handler
    register-IsTold owner handler s r i = record {
      reports = Map.insert-All Reports owner handler _ r i.reports;
      told = λ k h. ground (
        arith,
        registered-find k (Map.insert owner handler s.active_outputs_handlers),
        registered-find k s.active_outputs_handlers,
        Map.find-insert owner k handler s.active_outputs_handlers,
        i.told k,
        r.0 s.active_outputs s.world,
        r.1 k s.active_outputs s.world,
      );
    }

    unregister-IsTold :
        (owner : ℕ) (s : MirScreen D W)
        → IsTold s
        → IsTold (unregister_active_outputs_handler owner s)
    unfolding unregister_active_outputs_handler
    unregister-IsTold owner s i = record {
      reports = Map.erase-All Reports owner _ i.reports;
      told = λ k h. ground (
        arith,
        registered-find k (Map.erase owner s.active_outputs_handlers),
        registered-find k s.active_outputs_handlers,
        Map.find-erase owner k s.active_outputs_handlers,
        i.told k,
      );
    }

  -- A handler that is registered reports to its owner.
  abbrev IsReporting : Event W → Type 0
  IsReporting (registers owner handler) = Reports (owner, handler)
  IsReporting (unregisters owner) = Unit
  IsReporting (initially_configured os) = Unit
  IsReporting (configured os) = Unit
  IsReporting (turned_on f) = Unit
  IsReporting (turned_off f) = Unit

  module _ {D : Type 0} ⦃mir : Mir D⦄ where
    set_power_mode-IsTold :
        (mode : PowerMode) (f : OutputFilter) (s : MirScreen D W)
        → IsTold s
        → IsTold (set_power_mode mode f s)
    set_power_mode-IsTold mode f s i =
        set_power_mode_cases IsTold mode f s (λ d. record { reports = i.reports; told = i.told })
          (λ d os.
            configuration_applied-IsTold os (record s { device = d })
              (record { reports = i.reports; told = i.told }))

    step-IsTold : (e : Event W) (s : MirScreen D W) → IsReporting e → IsTold s → IsTold (step e s)
    unfolding step turn_on turn_off
    step-IsTold (registers owner handler) s r i = register-IsTold owner handler s r i
    step-IsTold (unregisters owner) s r i = unregister-IsTold owner s i
    step-IsTold (initially_configured os) s r i = initial_configuration-IsTold os s i
    step-IsTold (configured os) s r i = configuration_applied-IsTold os s i
    step-IsTold (turned_on f) s r i = set_power_mode-IsTold PowerMode.on f s i
    step-IsTold (turned_off f) s r i = set_power_mode-IsTold PowerMode.off f s i

    run-IsTold :
        (es : List (Event W)) (s : MirScreen D W)
        → All IsReporting es
        → IsTold s
        → IsTold (run es s)
    unfolding run
    run-IsTold [] s r i = i
    run-IsTold (e ∷ es) s r i = run-IsTold es (step e s) r.1 (step-IsTold e s r.0 i)

    init-IsTold :
        (device : D) (world : W) (s : MirScreen D W) → init device world ≡ some s → IsTold s
    unfolding init
    init-IsTold device world s e = record { reports = ground arith; told = ground arith }

    -- When each handler keeps what it is told for its owner and lets the others alone: after any
    -- calls on a new screen every owner with a handler was last told the present counts, also where
    -- reading or applying a configuration threw.
    pub run-init-IsTold :
        (device : D) (world : W) (s : MirScreen D W) (es : List (Event W))
        → init device world ≡ some s
        → All IsReporting es
        → IsTold (run es s)
    run-init-IsTold device world s es e r = run-IsTold es s r (init-IsTold device world s e)
