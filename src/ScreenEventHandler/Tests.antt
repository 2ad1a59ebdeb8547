-- ===== src/ScreenEventHandler/Tests.antt =====
-- The theorems about src/screen_event_handler.cpp at concrete inputs.
use unity_system_compositor.Prelude.{◌*◌, ◌≡◌, refl, false, List, [], ◌∷◌, arith}
use unity_system_compositor.Prelude.Int.{pos, ◌+ℤ◌}
use unity_system_compositor.ScreenEventHandler.{
  KeyCodes, Clock, down, up, MirEvent, key, touch, pointer, press, changing_power_state,
  extending_power_state, init, handle, handle_key, notify_power_button,
  notify_activity_changing_power_state, notify_activity_extending_power_state,
}
use unity_system_compositor.ScreenEventHandler.Rate.{run, IsSteady}
use unity_system_compositor.ScreenEventHandler.Reference.{empty, told, tell_each, run-tell_each}

instance abbrev linux : KeyCodes
linux = record { key_power = 116; key_volumedown = 114; key_volumeup = 115 }

-- A reading each 200 ms.
instance abbrev slow : Clock
slow = record { now = λ n. pos (n * 200_000_000) }

slow-IsSteady : IsSteady slow
slow-IsSteady = record { starts = omega arith; goes_on = λ n. omega arith }

abbrev moves : List MirEvent
moves = pointer ∷ pointer ∷ touch ∷ key 116 down ∷ pointer ∷ key 114 down ∷ key 30 up ∷ []

-- The second movement comes too early, the third is in time.
run-moves :
    (run moves init).notifications
    ≡ extending_power_state ∷ changing_power_state ∷ press ∷ extending_power_state
      ∷ changing_power_state ∷ []
unfolding run init handle handle_key notify_power_button notify_activity_changing_power_state
    notify_activity_extending_power_state ◌+ℤ◌
run-moves = refl

run-tell_each_example :
    ((run moves init).notifications
      ≡ told (tell_each moves (record { reads = 0; log = empty })).log)
    × ((e : MirEvent) → (handle e (run moves init)).1 ≡ false)
run-tell_each_example = run-tell_each moves
