-- ===== src/EventSinks/Tests.antt =====
-- The theorem about the signals of the event sinks at concrete inputs.
use unity_system_compositor.Prelude.{◌*◌, ◌≡◌, refl, List, [], ◌∷◌, arith, bytes}
use unity_system_compositor.Prelude.Int.{pos, ◌+ℤ◌, ◌≤ℤ◌}
use unity_system_compositor.ScreenEventHandler.{
  KeyCodes, Clock, MirEvent, key, touch, pointer, down, event_period, init, press,
  changing_power_state,
}
use unity_system_compositor.ScreenEventHandler.Rate.{IsSteady, run}
use unity_system_compositor.EventSinks.{
  signals_of, notify, activity, power_button, changing, extending, activities, signal_rate,
}

instance abbrev codes : KeyCodes
codes = record { key_power = 116; key_volumedown = 114; key_volumeup = 115 }

-- A reading each 300 ms.
instance abbrev clock : Clock
clock = record { now = λ n. pos (n * 300_000_000) }

clock-IsSteady : IsSteady clock
clock-IsSteady = record { starts = omega arith; goes_on = λ n. omega arith }

abbrev inputs : List MirEvent
inputs = pointer ∷ touch ∷ key 116 down ∷ pointer ∷ []

-- What two notifications are on the bus, the last one first.
sent_two :
    signals_of (changing_power_state ∷ press ∷ [])
    ≡ activity changing ∷ power_button (bytes "Press") ∷ []
unfolding signals_of notify
sent_two = refl

signal_rate_example :
    (pos (activities changing (signals_of (run inputs init).notifications) * 500_000_000)
      ≤ℤ clock.now (run inputs init).reads +ℤ event_period)
    × (pos (activities extending (signals_of (run inputs init).notifications) * 500_000_000)
        ≤ℤ clock.now (run inputs init).reads +ℤ event_period)
signal_rate_example = signal_rate clock-IsSteady inputs
