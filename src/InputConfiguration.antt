-- ===== src/InputConfiguration.antt =====
-- src/input_configuration.h and src/mir_input_configuration.cpp: the settings of mice and touchpads,
-- and the devices that they are applied to. Mir's settings and devices and the type double are
-- parameters. A device is known by its address, and its capabilities do not change.
pub mod Runs
pub mod Current
pub mod Known
mod Tests
use unity_system_compositor.Prelude.{
  ℕ, ◌+◌, ◌-◌, ◌/◌, ◌%◌, ◌^◌, ◌==◌, Bool, false, ◌||◌, List, [], ◌∷◌, if◌then◌else◌,
}
use unity_system_compositor.Prelude.Int.{ℤ, pos, int_eq}

-- usc::InputConfiguration, on a state `S`; `D` is the type double.
pub record InputConfiguration (D S : Type 0) : Type 0 where
  pub set_mouse_primary_button : ℤ → S → S
  pub set_mouse_cursor_speed : D → S → S
  pub set_mouse_scroll_speed : D → S → S
  pub set_touchpad_primary_button : ℤ → S → S
  pub set_touchpad_cursor_speed : D → S → S
  pub set_touchpad_scroll_speed : D → S → S
  pub set_two_finger_scroll : Bool → S → S
  pub set_tap_to_click : Bool → S → S
  pub set_disable_touchpad_while_typing : Bool → S → S
  pub set_disable_touchpad_with_mouse : Bool → S → S

-- What the code uses of the type double.
pub record Double (D : Type 0) : Type 0 where
  pub lt : D → D → Bool
  pub times : D → D → D
  pub minus : D → D → D
  pub zero : D
  pub one : D
  pub two : D

pub data Handedness : Type 0 where
  right_handed left_handed : Handedness

-- MirPointerConfig: what a new one holds, and its setters.
pub record PointerConfig (P : Type 0) : Type 0 where
  pub new_pointer_config : P
  pub handedness : Handedness → P → P

pub record PointerScales (D P : Type 0) : Type 0 where
  pub cursor_acceleration_bias : D → P → P
  pub horizontal_scroll_scale : D → P → P
  pub vertical_scroll_scale : D → P → P

-- MirTouchpadConfig. The scroll modes are bits of a number; `two_finger_bit` is the place of
-- mir_touchpad_scroll_mode_two_finger_scroll.
pub record TouchpadConfig (T : Type 0) : Type 0 where
  pub new_touchpad_config : T
  pub scroll_mode : T → ℕ
  pub with_scroll_mode : ℕ → T → T
  pub two_finger_bit : ℕ
  pub tap_to_click : Bool → T → T
  pub disable_while_typing : Bool → T → T
  pub disable_with_mouse : Bool → T → T

-- The capabilities of the device at an address.
pub record Devices : Type 0 where
  pub is_touchpad : ℕ → Bool
  pub is_pointer : ℕ → Bool

-- The calls on a device.
pub data DeviceCall (P T : Type 0) : Type 0 where
  applies_pointer : ℕ → P → DeviceCall P T
  applies_touchpad : ℕ → T → DeviceCall P T

-- `calls` has the last one first.
pub record MirInputConfiguration (P T : Type 0) : Type 0 where
  pub touchpads : List ℕ
  pub mice : List ℕ
  pub mouse_pointer_config : P
  pub touchpad_pointer_config : P
  pub touchpad_config : T
  pub calls : List (DeviceCall P T)

-- std::unordered_set, in some order.
pub member : ℕ → List ℕ → Bool
member d [] = false
member d (e ∷ es) = d == e || member d es

pub set_insert : ℕ → List ℕ → List ℕ
set_insert d es = if member d es then es else d ∷ es

pub set_erase : ℕ → List ℕ → List ℕ
set_erase d [] = []
set_erase d (e ∷ es) = let rest = set_erase d es in if d == e then rest else e ∷ rest

module _ {P T : Type 0} where
  pub configure_mouse :
      MirInputConfiguration P T → ℕ → List (DeviceCall P T) → List (DeviceCall P T)
  configure_mouse s dev calls = applies_pointer dev s.mouse_pointer_config ∷ calls

  pub configure_touchpad :
      MirInputConfiguration P T → ℕ → List (DeviceCall P T) → List (DeviceCall P T)
  configure_touchpad s dev calls =
      applies_touchpad dev s.touchpad_config ∷ applies_pointer dev s.touchpad_pointer_config ∷ calls

  -- The loops of `update_mice` and `update_touchpads`.
  pub configure_mice :
      MirInputConfiguration P T → List ℕ → List (DeviceCall P T) → List (DeviceCall P T)
  configure_mice s [] calls = calls
  configure_mice s (mouse ∷ mice) calls = configure_mice s mice (configure_mouse s mouse calls)

  pub configure_touchpads :
      MirInputConfiguration P T → List ℕ → List (DeviceCall P T) → List (DeviceCall P T)
  configure_touchpads s [] calls = calls
  configure_touchpads s (touchpad ∷ touchpads) calls =
      configure_touchpads s touchpads (configure_touchpad s touchpad calls)

  pub update_mice : MirInputConfiguration P T → MirInputConfiguration P T
  update_mice s = record s { calls = configure_mice s s.mice s.calls }

  pub update_touchpads : MirInputConfiguration P T → MirInputConfiguration P T
  update_touchpads s = record s { calls = configure_touchpads s s.touchpads s.calls }

  pub device_removed : ℕ → MirInputConfiguration P T → MirInputConfiguration P T
  device_removed dev s = record s {
    touchpads = set_erase dev s.touchpads;
    mice = set_erase dev s.mice;
  }

  pub device_added : ⦃devices : Devices⦄ → ℕ → MirInputConfiguration P T → MirInputConfiguration P T
  device_added ⦃devices⦄ dev s =
      if devices.is_touchpad dev
      then record s {
        touchpads = set_insert dev s.touchpads;
        calls = configure_touchpad s dev s.calls;
      }
      else if devices.is_pointer dev
      then record s { mice = set_insert dev s.mice; calls = configure_mouse s dev s.calls }
      else s

-- `button == 0`.
abbrev handedness_of : ℤ → Handedness
handedness_of button = if int_eq button (pos 0) then right_handed else left_handed

module _ {D : Type 0} ⦃double : Double D⦄ where
  -- The two tests of the cursor speed.
  pub clamp : D → D
  clamp speed =
      let clamped = if double.lt speed double.zero then double.zero else speed in
      if double.lt double.one clamped then double.one else clamped

  abbrev bias : D → D
  bias speed = double.minus (double.times (clamp speed) double.two) double.one

-- `current | bit` and `current & ~bit` for the bit at a place.
with_bit : ℕ → ℕ → ℕ
with_bit place current = if current / 2 ^ place % 2 == 1 then current else current + 2 ^ place

without_bit : ℕ → ℕ → ℕ
without_bit place current = if current / 2 ^ place % 2 == 1 then current - 2 ^ place else current

module _ {P T : Type 0} ⦃pointer : PointerConfig P⦄ where
  pub set_mouse_primary_button : ℤ → MirInputConfiguration P T → MirInputConfiguration P T
  set_mouse_primary_button button s = update_mice (record s {
    mouse_pointer_config = pointer.handedness (handedness_of button) s.mouse_pointer_config;
  })

  pub set_touchpad_primary_button : ℤ → MirInputConfiguration P T → MirInputConfiguration P T
  set_touchpad_primary_button button s = update_touchpads (record s {
    touchpad_pointer_config = pointer.handedness (handedness_of button) s.touchpad_pointer_config;
  })

module _ {D P T : Type 0} ⦃double : Double D⦄ ⦃scales : PointerScales D P⦄ where
  pub set_mouse_cursor_speed : D → MirInputConfiguration P T → MirInputConfiguration P T
  set_mouse_cursor_speed speed s = update_mice (record s {
    mouse_pointer_config = scales.cursor_acceleration_bias (bias speed) s.mouse_pointer_config;
  })

  pub set_mouse_scroll_speed : D → MirInputConfiguration P T → MirInputConfiguration P T
  set_mouse_scroll_speed speed s = update_mice (record s {
    mouse_pointer_config =
        scales.vertical_scroll_scale speed
          (scales.horizontal_scroll_scale speed s.mouse_pointer_config);
  })

  pub set_touchpad_cursor_speed : D → MirInputConfiguration P T → MirInputConfiguration P T
  set_touchpad_cursor_speed speed s = update_touchpads (record s {
    touchpad_pointer_config =
        scales.cursor_acceleration_bias (bias speed) s.touchpad_pointer_config;
  })

  pub set_touchpad_scroll_speed : D → MirInputConfiguration P T → MirInputConfiguration P T
  set_touchpad_scroll_speed speed s = update_touchpads (record s {
    touchpad_pointer_config =
        scales.vertical_scroll_scale speed
          (scales.horizontal_scroll_scale speed s.touchpad_pointer_config);
  })

module _ {P T : Type 0} ⦃touchpad : TouchpadConfig T⦄ where
  pub set_two_finger_scroll : Bool → MirInputConfiguration P T → MirInputConfiguration P T
  set_two_finger_scroll enable s =
      let current = touchpad.scroll_mode s.touchpad_config in
      update_touchpads (record s {
        touchpad_config =
            touchpad.with_scroll_mode
              (if enable
                then with_bit touchpad.two_finger_bit current
                else without_bit touchpad.two_finger_bit current)
              s.touchpad_config;
      })

  pub set_tap_to_click : Bool → MirInputConfiguration P T → MirInputConfiguration P T
  set_tap_to_click enable s =
      update_touchpads
        (record s { touchpad_config = touchpad.tap_to_click enable s.touchpad_config })

  pub set_disable_touchpad_while_typing :
      Bool → MirInputConfiguration P T → MirInputConfiguration P T
  set_disable_touchpad_while_typing enable s =
      update_touchpads
        (record s { touchpad_config = touchpad.disable_while_typing enable s.touchpad_config })

  pub set_disable_touchpad_with_mouse : Bool → MirInputConfiguration P T → MirInputConfiguration P T
  set_disable_touchpad_with_mouse enable s =
      update_touchpads
        (record s { touchpad_config = touchpad.disable_with_mouse enable s.touchpad_config })

module _ {P T : Type 0} ⦃pointer : PointerConfig P⦄ ⦃touchpad : TouchpadConfig T⦄ where
  -- A new configuration. Mir tells it of the devices that are there already.
  pub init : MirInputConfiguration P T
  init = record {
    touchpads = [];
    mice = [];
    mouse_pointer_config = pointer.new_pointer_config;
    touchpad_pointer_config = pointer.new_pointer_config;
    touchpad_config = touchpad.new_touchpad_config;
    calls = [];
  }

  -- The configuration behind the interface.
  mir_input_configuration :
      {D : Type 0}
      → ⦃double : Double D⦄ → ⦃scales : PointerScales D P⦄
      → InputConfiguration D (MirInputConfiguration P T)
  mir_input_configuration = record {
    set_mouse_primary_button = set_mouse_primary_button;
    set_mouse_cursor_speed = set_mouse_cursor_speed;
    set_mouse_scroll_speed = set_mouse_scroll_speed;
    set_touchpad_primary_button = set_touchpad_primary_button;
    set_touchpad_cursor_speed = set_touchpad_cursor_speed;
    set_touchpad_scroll_speed = set_touchpad_scroll_speed;
    set_two_finger_scroll = set_two_finger_scroll;
    set_tap_to_click = set_tap_to_click;
    set_disable_touchpad_while_typing = set_disable_touchpad_while_typing;
    set_disable_touchpad_with_mouse = set_disable_touchpad_with_mouse;
  }
