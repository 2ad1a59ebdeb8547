-- ===== src/MirScreen/Cases.antt =====
-- What a change of power in src/mir_screen.cpp leaves, whatever Mir answers: the screen with some
-- device, or the same with the new configuration applied.
use unity_system_compositor.Prelude.{if_either, Option-cases, inl, inr, not}
use unity_system_compositor.MirScreen.{
  OutputFilter, PowerMode, Configuration, Mir, MirScreen, has_active_outputs, configuration_applied,
  apply_configuration, set_power_mode, with_power_mode,
}

module _ {D W : Type 0} ⦃mir : Mir D⦄ (P : MirScreen D W → Type 0) where
  apply_configuration_cases :
      (os : Configuration) (s : MirScreen D W)
      → ((d : D) → P (record s { device = d }))
      → ((d : D) → P (configuration_applied os (record s { device = d })))
      → P (apply_configuration os s)
  unfolding apply_configuration
  apply_configuration_cases os s kept applied =
      let (stopped, stop_threw) = mir.stop s.device in
      let (configured, configure_threw) = mir.configure os stopped in
      let (started, start_threw) = mir.start configured in
      if_either P stop_threw (kept stopped) (
        if_either P configure_threw (kept configured) (
          if_either P (not (has_active_outputs os)) (applied configured)
            (if_either P start_threw (kept started) (applied started))))

  -- For any property of the screen that a new device keeps, and a configuration that was applied.
  pub set_power_mode_cases :
      (mode : PowerMode) (f : OutputFilter) (s : MirScreen D W)
      → ((d : D) → P (record s { device = d }))
      → ((d : D) (os : Configuration) → P (configuration_applied os (record s { device = d })))
      → P (set_power_mode mode f s)
  unfolding set_power_mode
  set_power_mode_cases mode f s kept applied = elim (Option-cases (mir.configuration s.device)) [
    | inl unread ↦ rw (unread, set_power_mode) (kept s.device)
    | inr (os, read) ↦
        rw (read, set_power_mode)
          (apply_configuration_cases (with_power_mode mode f os) s kept
            (λ d. applied d (with_power_mode mode f os)))
  ]
