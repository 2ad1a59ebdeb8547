-- ===== src/MirScreen/Tests.antt =====
-- The theorems about src/mir_screen.cpp at concrete inputs.
use unity_system_compositor.Prelude.{
  ℕ, ◌≡◌, refl, Bool, true, false, List, [], ◌∷◌, some, arith, if◌then◌else◌, ◌==◌,
}
use unity_system_compositor.MirScreen.{
  ActiveOutputs, internal, external, hdmia, other_type, on, off, Output, Configuration, Mir,
  ActiveOutputsHandler, MirScreen, no_outputs, init, count_active_outputs, count_from, count_output,
  tell_all, with_power_mode, turn_on, turn_off, passes, set_power_mode, apply_configuration,
  configuration_applied, has_active_outputs,
}
use unity_system_compositor.MirScreen.Counts.{on_counts, off_counts}
use unity_system_compositor.MirScreen.Runs.{
  Event, registers, unregisters, configured, turned_on, turned_off, run,
}
use unity_system_compositor.MirScreen.Told.{IsTold, Reports, run-init-IsTold}
use unity_system_compositor.MirScreen.Power.{IsQuiet, turn_counts}

-- A device: its configuration, and whether the compositor runs.
pub record Device : Type 0 where
  pub outputs : Configuration
  pub running : Bool

-- A broken device refuses each new configuration.
abbrev device_mir : Bool → Mir Device
device_mir broken = record {
  configuration = λ d. some d.outputs;
  configure = λ os d. (record d { outputs = if broken then d.outputs else os }, broken);
  start = λ d. (record d { running = true }, false);
  stop = λ d. (record d { running = false }, false);
}

abbrev panel : Output
panel = record { type = other_type 7; connected = true; used = true; power_mode = on }

abbrev monitor : Output
monitor = record { type = hdmia; connected = true; used = true; power_mode = off }

abbrev both : Configuration
both = panel ∷ monitor ∷ record monitor { connected = false } ∷ []

abbrev device : Device
device = record { outputs = both; running = false }

instance abbrev sturdy : Mir Device
sturdy = device_mir false

sturdy-IsQuiet : IsQuiet sturdy
sturdy-IsQuiet = record {
  start_quiet = λ d. refl;
  stop_quiet = λ d. refl;
  configure_quiet = λ os d. refl;
}

-- The world: what each owner was last told.
abbrev World : Type 0
World = ℕ → ActiveOutputs

abbrev keep_for : ℕ → ActiveOutputsHandler World
keep_for owner a w k = if owner == k then a else w k

abbrev heard : ℕ → World → ActiveOutputs
heard k w = w k

abbrev screen : MirScreen Device World
screen = record {
  device = record device { running = true };
  active_outputs_handlers = [];
  active_outputs = record { internal = 1; external = 0 };
  world = λ k. no_outputs;
}

keep_for-Reports : (owner : ℕ) → Reports heard (owner, keep_for owner)
keep_for-Reports owner = (λ a w. ground arith, λ k a w n. ground arith)

abbrev calls : List (Event World)
calls =
    registers 1 (keep_for 1)
    ∷ registers 2 (keep_for 2)
    ∷ turned_on external
    ∷ unregisters 1
    ∷ turned_off internal
    ∷ configured (panel ∷ [])
    ∷ []

run-init-IsTold_example : IsTold heard (run calls screen)
unfolding init count_active_outputs count_from count_output
run-init-IsTold_example =
    run-init-IsTold heard device (λ k. no_outputs) screen calls refl
      (keep_for-Reports 1, (keep_for-Reports 2, (tt, (tt, (tt, (tt, tt))))))

-- The monitor joins the panel, and the panel goes.
turn_on_external :
    (turn_on external screen).device.outputs
    ≡ panel ∷ record monitor { power_mode = on } ∷ record monitor { connected = false } ∷ []
unfolding turn_on set_power_mode apply_configuration configuration_applied has_active_outputs
    count_active_outputs count_from count_output with_power_mode passes
turn_on_external = refl

turn_counts_example :
    ((turn_on external screen).active_outputs ≡ on_counts external both)
    × ((turn_on external screen).world ≡ tell_all [] (on_counts external both) screen.world)
    × ((turn_off external screen).active_outputs ≡ off_counts external both)
    × ((turn_off external screen).world ≡ tell_all [] (off_counts external both) screen.world)
turn_counts_example = turn_counts external both screen sturdy-IsQuiet refl
