-- ===== src/InputConfiguration/Known.antt =====
-- Which devices src/mir_input_configuration.cpp knows, and which speeds it sets.
use unity_system_compositor.Prelude.{
  ℕ, ◌≡◌, refl, Bool, false, not, ◌&&◌, ◌||◌, List, [], ◌∷◌, arith, ◌==◌, ==_iff,
}
use unity_system_compositor.InputConfiguration.{
  Double, PointerConfig, PointerScales, TouchpadConfig, Devices, MirInputConfiguration, member,
  update_mice, update_touchpads, clamp, device_added, device_removed, set_mouse_primary_button,
  set_mouse_cursor_speed, set_mouse_scroll_speed, set_touchpad_primary_button,
  set_touchpad_cursor_speed, set_touchpad_scroll_speed, set_two_finger_scroll, set_tap_to_click,
  set_disable_touchpad_while_typing, set_disable_touchpad_with_mouse, init,
}
use unity_system_compositor.InputConfiguration.Runs.{
  Event, adds, removes, mouse_button, touchpad_button, mouse_cursor, mouse_scroll, touchpad_cursor,
  touchpad_scroll, two_finger, tap, while_typing, with_mouse, step, run,
}
use unity_system_compositor.InputConfiguration.Current.{member-set_insert, member-set_erase}

-- Whether the device is there, if it was before the events when `now` is true: it was added and not
-- removed since.
abbrev plugged : {D : Type 0} → List (Event D) → ℕ → Bool → Bool
plugged [] d now = now
plugged (adds dev ∷ es) d now = plugged es d (d == dev || now)
plugged (removes dev ∷ es) d now = plugged es d (not (d == dev) && now)
plugged (mouse_button button ∷ es) d now = plugged es d now
plugged (touchpad_button button ∷ es) d now = plugged es d now
plugged (mouse_cursor speed ∷ es) d now = plugged es d now
plugged (mouse_scroll speed ∷ es) d now = plugged es d now
plugged (touchpad_cursor speed ∷ es) d now = plugged es d now
plugged (touchpad_scroll speed ∷ es) d now = plugged es d now
plugged (two_finger enable ∷ es) d now = plugged es d now
plugged (tap enable ∷ es) d now = plugged es d now
plugged (while_typing enable ∷ es) d now = plugged es d now
plugged (with_mouse enable ∷ es) d now = plugged es d now

module _ {P T : Type 0} ⦃devices : Devices⦄ where
  -- The device is known if it is there: a touchpad as a touchpad, another pointer as a mouse.
  abbrev Knows : ℕ → Bool → MirInputConfiguration P T → Type 0
  Knows d now s =
      (member d s.touchpads ≡ (now && devices.is_touchpad d))
      × (member d s.mice ≡ (now && not (devices.is_touchpad d) && devices.is_pointer d))

  added_lem :
      (d dev : ℕ) (now : Bool) (s : MirInputConfiguration P T)
      → Knows d now s
      → Knows d (d == dev || now) (device_added dev s)
  unfolding device_added
  added_lem d dev now s k =
      ground
        (arith, ==_iff d dev, member-set_insert d dev s.touchpads, member-set_insert d dev s.mice)

  removed_lem :
      (d dev : ℕ) (now : Bool) (s : MirInputConfiguration P T)
      → Knows d now s
      → Knows d (not (d == dev) && now) (device_removed dev s)
  unfolding device_removed
  removed_lem d dev now s k =
      ground (arith, member-set_erase d dev s.touchpads, member-set_erase d dev s.mice)

module _ {D P T : Type 0} ⦃double : Double D⦄ ⦃pointer : PointerConfig P⦄
    ⦃scales : PointerScales D P⦄ ⦃touchpad : TouchpadConfig T⦄ ⦃devices : Devices⦄ where
  run-Knows :
      (es : List (Event D)) (d : ℕ) (now : Bool) (s : MirInputConfiguration P T)
      → Knows d now s
      → Knows d (plugged es d now) (run es s)
  unfolding run step set_mouse_primary_button set_mouse_cursor_speed set_mouse_scroll_speed
      set_touchpad_primary_button set_touchpad_cursor_speed set_touchpad_scroll_speed
      set_two_finger_scroll set_tap_to_click set_disable_touchpad_while_typing
      set_disable_touchpad_with_mouse update_mice update_touchpads
  run-Knows [] d now s k = k
  run-Knows (adds dev ∷ es) d now s k = run-Knows es d _ _ (added_lem d dev now s k)
  run-Knows (removes dev ∷ es) d now s k = run-Knows es d _ _ (removed_lem d dev now s k)
  run-Knows (mouse_button button ∷ es) d now s k = run-Knows es d now _ k
  run-Knows (touchpad_button button ∷ es) d now s k = run-Knows es d now _ k
  run-Knows (mouse_cursor speed ∷ es) d now s k = run-Knows es d now _ k
  run-Knows (mouse_scroll speed ∷ es) d now s k = run-Knows es d now _ k
  run-Knows (touchpad_cursor speed ∷ es) d now s k = run-Knows es d now _ k
  run-Knows (touchpad_scroll speed ∷ es) d now s k = run-Knows es d now _ k
  run-Knows (two_finger enable ∷ es) d now s k = run-Knows es d now _ k
  run-Knows (tap enable ∷ es) d now s k = run-Knows es d now _ k
  run-Knows (while_typing enable ∷ es) d now s k = run-Knows es d now _ k
  run-Knows (with_mouse enable ∷ es) d now s k = run-Knows es d now _ k

module _ (P T : Type 0) {D : Type 0} ⦃double : Double D⦄ ⦃pointer : PointerConfig P⦄
    ⦃scales : PointerScales D P⦄ ⦃touchpad : TouchpadConfig T⦄ ⦃devices : Devices⦄ where
  -- After any history a new configuration knows exactly the devices that were added and not removed
  -- since: those with the touchpad capability as touchpads, and of the others those with the
  -- pointer capability as mice. No setting changes what is known.
  pub run-init-Knows :
      (es : List (Event D)) (d : ℕ) → Knows d (plugged es d false) (run es (init {P = P} {T = T}))
  unfolding init member
  run-init-Knows es d = run-Knows es d false init (refl, refl)

-- What comparing doubles does: no number is below itself, and 1 is not below 0.
pub record IsOrdered {D : Type 0} (double : Double D) : Type 0 where
  pub irreflexive : (x : D) → double.lt x x ≡ false
  pub one_zero : double.lt double.one double.zero ≡ false

-- Where no number is below itself and 1 is not below 0: a cursor speed is brought between 0 and 1,
-- and one that is between them is kept.
clamp_bounds :
    {D : Type 0}
    → ⦃double : Double D⦄ → (speed : D) → IsOrdered double
    → (double.lt (clamp speed) double.zero ≡ false)
      × (double.lt double.one (clamp speed) ≡ false)
      × (double.lt speed double.zero ≡ false
          → double.lt double.one speed ≡ false
          → clamp speed ≡ speed)
unfolding clamp
clamp_bounds ⦃double⦄ speed o =
    ground (arith, o.irreflexive double.zero, o.irreflexive double.one, o.one_zero)
