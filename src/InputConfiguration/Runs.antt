-- ===== src/InputConfiguration/Runs.antt =====
-- The calls on src/mir_input_configuration.cpp, one after another: Mir's hub reports devices, the
-- D-Bus service sets.
use unity_system_compositor.Prelude.{ℕ, Bool, List, [], ◌∷◌}
use unity_system_compositor.Prelude.Int.{ℤ}
use unity_system_compositor.InputConfiguration.{
  Double, PointerConfig, PointerScales, TouchpadConfig, Devices, MirInputConfiguration,
  device_added, device_removed, set_mouse_primary_button, set_mouse_cursor_speed,
  set_mouse_scroll_speed, set_touchpad_primary_button, set_touchpad_cursor_speed,
  set_touchpad_scroll_speed, set_two_finger_scroll, set_tap_to_click,
  set_disable_touchpad_while_typing, set_disable_touchpad_with_mouse,
}

pub data Event (D : Type 0) : Type 0 where
  adds removes : ℕ → Event D
  mouse_button touchpad_button : ℤ → Event D
  mouse_cursor mouse_scroll touchpad_cursor touchpad_scroll : D → Event D
  two_finger tap while_typing with_mouse : Bool → Event D

module _ {D P T : Type 0} ⦃double : Double D⦄ ⦃pointer : PointerConfig P⦄
    ⦃scales : PointerScales D P⦄ ⦃touchpad : TouchpadConfig T⦄ ⦃devices : Devices⦄ where
  unfoldable pub step : Event D → MirInputConfiguration P T → MirInputConfiguration P T
  step (adds dev) s = device_added dev s
  step (removes dev) s = device_removed dev s
  step (mouse_button button) s = set_mouse_primary_button button s
  step (touchpad_button button) s = set_touchpad_primary_button button s
  step (mouse_cursor speed) s = set_mouse_cursor_speed speed s
  step (mouse_scroll speed) s = set_mouse_scroll_speed speed s
  step (touchpad_cursor speed) s = set_touchpad_cursor_speed speed s
  step (touchpad_scroll speed) s = set_touchpad_scroll_speed speed s
  step (two_finger enable) s = set_two_finger_scroll enable s
  step (tap enable) s = set_tap_to_click enable s
  step (while_typing enable) s = set_disable_touchpad_while_typing enable s
  step (with_mouse enable) s = set_disable_touchpad_with_mouse enable s

  unfoldable pub run : List (Event D) → MirInputConfiguration P T → MirInputConfiguration P T
  run [] s = s
  run (e ∷ es) s = run es (step e s)
