-- ===== src/MirScreen/Power.antt =====
-- What turning outputs on and off in src/mir_screen.cpp leads to, and where an exception leaves it.
use unity_system_compositor.Prelude.{◌≡◌, ◌⊎◌, true, false, some, arith}
use unity_system_compositor.MirScreen.{
  OutputFilter, on, off, Configuration, Mir, MirScreen, no_outputs, count_active_outputs,
  has_active_outputs, with_power_mode, tell_all, configuration_applied, apply_configuration,
  set_power_mode, turn_on, turn_off,
}
use unity_system_compositor.MirScreen.Counts.{
  on_counts, off_counts, count_active_outputs-on, count_active_outputs-off, off_counts_all,
}

-- None of the calls on Mir throws.
pub record IsQuiet {D : Type 0} (mir : Mir D) : Type 0 where
  pub start_quiet : (d : D) → (mir.start d).1 ≡ false
  pub stop_quiet : (d : D) → (mir.stop d).1 ≡ false
  pub configure_quiet : (os : Configuration) (d : D) → (mir.configure os d).1 ≡ false

module _ {D : Type 0} ⦃mir : Mir D⦄ where
  -- The compositor stopped, then the configuration applied.
  abbrev reconfigured : Configuration → D → D
  reconfigured os d = (mir.configure os (mir.stop d).0).0

module _ {D W : Type 0} ⦃mir : Mir D⦄ where
  apply_lem :
      (os : Configuration) (s : MirScreen D W)
      → IsQuiet mir
      → ((apply_configuration os s).active_outputs ≡ count_active_outputs os)
        × ((apply_configuration os s).world
            ≡ tell_all s.active_outputs_handlers (count_active_outputs os) s.world)
        × (((has_active_outputs os ≡ false)
              × ((apply_configuration os s).device ≡ reconfigured os s.device))
            ⊎ ((has_active_outputs os ≡ true)
                × ((apply_configuration os s).device ≡ (mir.start (reconfigured os s.device)).0)))
  unfolding apply_configuration configuration_applied
  apply_lem os s q = ground (
    arith,
    q.stop_quiet s.device,
    q.configure_quiet os (mir.stop s.device).0,
    q.start_quiet (reconfigured os s.device),
  )

  -- Where the configuration can be read and Mir does not throw, turning the outputs of a filter on
  -- gives the counts with those outputs on, and turning them off the counts without them; the other
  -- outputs count as before. Each registered handler is told these counts.
  pub turn_counts :
      (f : OutputFilter) (os : Configuration) (s : MirScreen D W)
      → IsQuiet mir
      → mir.configuration s.device ≡ some os
      → ((turn_on f s).active_outputs ≡ on_counts f os)
        × ((turn_on f s).world ≡ tell_all s.active_outputs_handlers (on_counts f os) s.world)
        × ((turn_off f s).active_outputs ≡ off_counts f os)
        × ((turn_off f s).world ≡ tell_all s.active_outputs_handlers (off_counts f os) s.world)
  unfolding turn_on turn_off set_power_mode
  turn_counts f os s q read = ground (
    arith,
    apply_lem (with_power_mode on f os) s q,
    apply_lem (with_power_mode off f os) s q,
    count_active_outputs-on f os,
    count_active_outputs-off f os,
  )

  -- Where the configuration can be read and Mir does not throw, turning all outputs off leaves none
  -- active and the compositor stopped: it is not started again after the new configuration.
  turn_off_all :
      (os : Configuration) (s : MirScreen D W)
      → IsQuiet mir
      → mir.configuration s.device ≡ some os
      → ((turn_off OutputFilter.all s).active_outputs ≡ no_outputs)
        × ((turn_off OutputFilter.all s).device
            ≡ reconfigured (with_power_mode off OutputFilter.all os) s.device)
  unfolding turn_off set_power_mode has_active_outputs
  turn_off_all os s q read = ground (
    arith,
    apply_lem (with_power_mode off OutputFilter.all os) s q,
    count_active_outputs-off OutputFilter.all os,
    off_counts_all os,
  )
