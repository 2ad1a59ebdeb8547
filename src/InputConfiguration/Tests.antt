-- ===== src/InputConfiguration/Tests.antt =====
-- The theorems about src/mir_input_configuration.cpp at concrete inputs. Speeds are percentages, and
-- settings are kept as the lists of what was set.
use unity_system_compositor.Prelude.{
  ℕ, ◌-◌, ◌*◌, ◌≡◌, refl, Bool, true, false, ◌||◌, List, [], ◌∷◌, ◌==◌, ltb, arith,
}
use unity_system_compositor.Prelude.Int.{pos}
use unity_system_compositor.InputConfiguration.{
  Double, PointerConfig, PointerScales, TouchpadConfig, Devices, Handedness, right_handed,
  left_handed, init, member,
}
use unity_system_compositor.InputConfiguration.Runs.{
  Event, adds, removes, mouse_button, touchpad_scroll, tap, run,
}
use unity_system_compositor.InputConfiguration.Current.{IsCurrent, run-init-IsCurrent}
use unity_system_compositor.InputConfiguration.Known.{run-init-Knows, IsOrdered}

instance abbrev percent : Double ℕ
percent = record { lt = ltb; times = ◌*◌; minus = ◌-◌; zero = 0; one = 100; two = 2 }

abbrev side : Handedness → ℕ
side right_handed = 0
side left_handed = 1

instance abbrev pointer : PointerConfig (List ℕ)
pointer = record { new_pointer_config = []; handedness = λ h p. side h ∷ p }

instance abbrev scales : PointerScales ℕ (List ℕ)
scales = record {
  cursor_acceleration_bias = ◌∷◌;
  horizontal_scroll_scale = ◌∷◌;
  vertical_scroll_scale = ◌∷◌;
}

instance abbrev touchpad : TouchpadConfig (List Bool)
touchpad = record {
  new_touchpad_config = [];
  scroll_mode = λ t. 0;
  with_scroll_mode = λ m t. t;
  two_finger_bit = 3;
  tap_to_click = ◌∷◌;
  disable_while_typing = ◌∷◌;
  disable_with_mouse = ◌∷◌;
}

-- Device 1 is a touchpad, which is a pointer too, and device 2 a mouse.
instance abbrev devices : Devices
devices = record { is_touchpad = λ d. d == 1; is_pointer = λ d. d == 1 || d == 2 }

abbrev events : List (Event ℕ)
events =
    adds 1 ∷ adds 2 ∷ adds 3 ∷ mouse_button (pos 0) ∷ touchpad_scroll 50 ∷ tap true ∷ removes 2 ∷ []

run-init-IsCurrent_example : IsCurrent (run events (init {P = List ℕ} {T = List Bool}))
run-init-IsCurrent_example = run-init-IsCurrent (List ℕ) (List Bool) events

run-init-Knows_example :
    (member 2 (run events (init {P = List ℕ} {T = List Bool})).touchpads ≡ false)
    × (member 2 (run events (init {P = List ℕ} {T = List Bool})).mice ≡ false)
run-init-Knows_example = run-init-Knows (List ℕ) (List Bool) events 2

percent-IsOrdered : IsOrdered percent
percent-IsOrdered = record { irreflexive = λ x. ground arith; one_zero = refl }

abbrev too_fast : ℕ
too_fast = 150
