-- ===== src/InputConfiguration/Current.antt =====
-- The devices that src/mir_input_configuration.cpp knows have the present settings.
use unity_system_compositor.Prelude.{
  ℕ, ◌≡◌, refl, true, false, not, ◌&&◌, ◌||◌, List, [], ◌∷◌, Option, none, some, arith,
  if◌then◌else◌, ◌==◌, ==_iff, Bool-cases, inl, inr,
}
use unity_system_compositor.InputConfiguration.{
  Double, PointerConfig, PointerScales, TouchpadConfig, Devices, DeviceCall, applies_pointer,
  applies_touchpad, MirInputConfiguration, member, set_insert, set_erase, configure_mouse,
  configure_touchpad, configure_mice, configure_touchpads, update_mice, update_touchpads,
  device_added, device_removed, set_mouse_primary_button, set_mouse_cursor_speed,
  set_mouse_scroll_speed, set_touchpad_primary_button, set_touchpad_cursor_speed,
  set_touchpad_scroll_speed, set_two_finger_scroll, set_tap_to_click,
  set_disable_touchpad_while_typing, set_disable_touchpad_with_mouse, init,
}
use unity_system_compositor.InputConfiguration.Runs.{
  Event, adds, removes, mouse_button, touchpad_button, mouse_cursor, mouse_scroll, touchpad_cursor,
  touchpad_scroll, two_finger, tap, while_typing, with_mouse, step, run,
}

-- What a device was configured with last.
abbrev last_pointer : {P T : Type 0} → List (DeviceCall P T) → ℕ → Option P
last_pointer [] dev = none
last_pointer (applies_pointer d p ∷ calls) dev = if dev == d then some p else last_pointer calls dev
last_pointer (applies_touchpad d t ∷ calls) dev = last_pointer calls dev

abbrev last_touchpad : {P T : Type 0} → List (DeviceCall P T) → ℕ → Option T
last_touchpad [] dev = none
last_touchpad (applies_pointer d p ∷ calls) dev = last_touchpad calls dev
last_touchpad (applies_touchpad d t ∷ calls) dev =
    if dev == d then some t else last_touchpad calls dev

pub member-set_insert :
    (d e : ℕ) (es : List ℕ) → member d (set_insert e es) ≡ (d == e || member d es)
unfolding member set_insert
member-set_insert d e es = ground (arith, ==_iff d e)

pub member-set_erase :
    (d e : ℕ) (es : List ℕ) → member d (set_erase e es) ≡ (not (d == e) && member d es)
unfolding member set_erase
member-set_erase d e [] = ground arith
member-set_erase d e (x ∷ es) = ground (arith, member-set_erase d e es)

module _ {P T : Type 0} where
  mice_lem :
      (s : MirInputConfiguration P T) (mice : List ℕ) (calls : List (DeviceCall P T)) (d : ℕ)
      → (last_pointer (configure_mice s mice calls) d
          ≡ (if member d mice then some s.mouse_pointer_config else last_pointer calls d))
        × (last_touchpad (configure_mice s mice calls) d ≡ last_touchpad calls d)
  unfolding configure_mice configure_mouse member
  mice_lem s [] calls d = (refl, refl)
  mice_lem s (m ∷ mice) calls d = ground (arith, mice_lem s mice (configure_mouse s m calls) d)

  touchpads_lem :
      (s : MirInputConfiguration P T) (touchpads : List ℕ) (calls : List (DeviceCall P T)) (d : ℕ)
      → (last_pointer (configure_touchpads s touchpads calls) d
          ≡ (if member d touchpads then some s.touchpad_pointer_config else last_pointer calls d))
        × (last_touchpad (configure_touchpads s touchpads calls) d
            ≡ (if member d touchpads then some s.touchpad_config else last_touchpad calls d))
  unfolding configure_touchpads configure_touchpad member
  touchpads_lem s [] calls d = (refl, refl)
  touchpads_lem s (m ∷ touchpads) calls d =
      ground (arith, touchpads_lem s touchpads (configure_touchpad s m calls) d)

module _ {P T : Type 0} ⦃devices : Devices⦄ where
  -- A known device was last configured with the present settings of its kind, and a touchpad is
  -- among the touchpads only.
  pub record IsCurrent (s : MirInputConfiguration P T) : Type 0 where
    pub mice_configured :
        (d : ℕ) → member d s.mice ≡ true → last_pointer s.calls d ≡ some s.mouse_pointer_config
    pub touchpads_pointed :
        (d : ℕ)
        → member d s.touchpads ≡ true
        → last_pointer s.calls d ≡ some s.touchpad_pointer_config
    pub touchpads_configured :
        (d : ℕ) → member d s.touchpads ≡ true → last_touchpad s.calls d ≡ some s.touchpad_config
    pub mice_kind : (d : ℕ) → member d s.mice ≡ true → devices.is_touchpad d ≡ false
    pub touchpads_kind : (d : ℕ) → member d s.touchpads ≡ true → devices.is_touchpad d ≡ true

  update_mice-IsCurrent :
      (s : MirInputConfiguration P T) (p : P)
      → IsCurrent s
      → IsCurrent (update_mice (record s { mouse_pointer_config = p }))
  unfolding update_mice
  update_mice-IsCurrent s p i =
      let new = record s { mouse_pointer_config = p } in
      record {
        mice_configured = λ d h. ground (arith, mice_lem new s.mice s.calls d);
        touchpads_pointed = λ d h. ground (
          arith,
          mice_lem new s.mice s.calls d,
          i.touchpads_pointed d h,
          i.touchpads_kind d h,
          i.mice_kind d,
        );
        touchpads_configured =
            λ d h. ground (arith, mice_lem new s.mice s.calls d, i.touchpads_configured d h);
        mice_kind = i.mice_kind;
        touchpads_kind = i.touchpads_kind;
      }

  update_touchpads-IsCurrent :
      (s : MirInputConfiguration P T) (p : P) (t : T)
      → IsCurrent s
      → IsCurrent (update_touchpads (record s { touchpad_pointer_config = p; touchpad_config = t }))
  unfolding update_touchpads
  update_touchpads-IsCurrent s p t i =
      let new = record s { touchpad_pointer_config = p; touchpad_config = t } in
      record {
        mice_configured = λ d h. ground (
          arith,
          touchpads_lem new s.touchpads s.calls d,
          i.mice_configured d h,
          i.mice_kind d h,
          i.touchpads_kind d,
        );
        touchpads_pointed = λ d h. ground (arith, touchpads_lem new s.touchpads s.calls d);
        touchpads_configured = λ d h. ground (arith, touchpads_lem new s.touchpads s.calls d);
        mice_kind = i.mice_kind;
        touchpads_kind = i.touchpads_kind;
      }

  device_removed-IsCurrent :
      (dev : ℕ) (s : MirInputConfiguration P T) → IsCurrent s → IsCurrent (device_removed dev s)
  unfolding device_removed
  device_removed-IsCurrent dev s i = record {
    mice_configured = λ d h. ground (arith, member-set_erase d dev s.mice, i.mice_configured d);
    touchpads_pointed =
        λ d h. ground (arith, member-set_erase d dev s.touchpads, i.touchpads_pointed d);
    touchpads_configured =
        λ d h. ground (arith, member-set_erase d dev s.touchpads, i.touchpads_configured d);
    mice_kind = λ d h. ground (arith, member-set_erase d dev s.mice, i.mice_kind d);
    touchpads_kind = λ d h. ground (arith, member-set_erase d dev s.touchpads, i.touchpads_kind d);
  }

  touchpad_added-IsCurrent :
      (dev : ℕ) (s : MirInputConfiguration P T)
      → IsCurrent s
      → devices.is_touchpad dev ≡ true
      → IsCurrent (record s {
        touchpads = set_insert dev s.touchpads;
        calls = configure_touchpad s dev s.calls;
      })
  unfolding configure_touchpad
  touchpad_added-IsCurrent dev s i k = record {
    mice_configured = λ d h. ground (arith, ==_iff d dev, i.mice_configured d h, i.mice_kind d h);
    touchpads_pointed =
        λ d h. ground (arith, member-set_insert d dev s.touchpads, i.touchpads_pointed d);
    touchpads_configured =
        λ d h. ground (arith, member-set_insert d dev s.touchpads, i.touchpads_configured d);
    mice_kind = i.mice_kind;
    touchpads_kind = λ d h.
        ground (arith, ==_iff d dev, member-set_insert d dev s.touchpads, i.touchpads_kind d);
  }

  mouse_added-IsCurrent :
      (dev : ℕ) (s : MirInputConfiguration P T)
      → IsCurrent s
      → devices.is_touchpad dev ≡ false
      → IsCurrent (record s { mice = set_insert dev s.mice; calls = configure_mouse s dev s.calls })
  unfolding configure_mouse
  mouse_added-IsCurrent dev s i k = record {
    mice_configured = λ d h. ground (arith, member-set_insert d dev s.mice, i.mice_configured d);
    touchpads_pointed =
        λ d h. ground (arith, ==_iff d dev, i.touchpads_pointed d h, i.touchpads_kind d h);
    touchpads_configured = i.touchpads_configured;
    mice_kind = λ d h. ground (arith, ==_iff d dev, member-set_insert d dev s.mice, i.mice_kind d);
    touchpads_kind = i.touchpads_kind;
  }

  device_added-IsCurrent :
      (dev : ℕ) (s : MirInputConfiguration P T) → IsCurrent s → IsCurrent (device_added dev s)
  unfolding device_added
  device_added-IsCurrent dev s i = elim (Bool-cases (devices.is_touchpad dev)) [
    | inl touchpad ↦ rw touchpad (touchpad_added-IsCurrent dev s i touchpad)
    | inr other ↦ elim (Bool-cases (devices.is_pointer dev)) [
      | inl mouse ↦ rw (other, mouse) (mouse_added-IsCurrent dev s i other)
      | inr none_of_both ↦ rw (other, none_of_both) i
    ]
  ]

module _ {P T : Type 0} ⦃pointer : PointerConfig P⦄ ⦃touchpad : TouchpadConfig T⦄
    ⦃devices : Devices⦄ where
  init-IsCurrent : IsCurrent (init {P = P} {T = T})
  unfolding init member
  init-IsCurrent = record {
    mice_configured = λ d h. cc;
    touchpads_pointed = λ d h. cc;
    touchpads_configured = λ d h. cc;
    mice_kind = λ d h. cc;
    touchpads_kind = λ d h. cc;
  }

module _ {D P T : Type 0} ⦃double : Double D⦄ ⦃pointer : PointerConfig P⦄
    ⦃scales : PointerScales D P⦄ ⦃touchpad : TouchpadConfig T⦄ ⦃devices : Devices⦄ where
  step-IsCurrent :
      (e : Event D) (s : MirInputConfiguration P T) → IsCurrent s → IsCurrent (step e s)
  unfolding step set_mouse_primary_button set_mouse_cursor_speed set_mouse_scroll_speed
      set_touchpad_primary_button set_touchpad_cursor_speed set_touchpad_scroll_speed
      set_two_finger_scroll set_tap_to_click set_disable_touchpad_while_typing
      set_disable_touchpad_with_mouse
  step-IsCurrent (adds dev) s i = device_added-IsCurrent dev s i
  step-IsCurrent (removes dev) s i = device_removed-IsCurrent dev s i
  step-IsCurrent (mouse_button button) s i = update_mice-IsCurrent s _ i
  step-IsCurrent (touchpad_button button) s i = update_touchpads-IsCurrent s _ _ i
  step-IsCurrent (mouse_cursor speed) s i = update_mice-IsCurrent s _ i
  step-IsCurrent (mouse_scroll speed) s i = update_mice-IsCurrent s _ i
  step-IsCurrent (touchpad_cursor speed) s i = update_touchpads-IsCurrent s _ _ i
  step-IsCurrent (touchpad_scroll speed) s i = update_touchpads-IsCurrent s _ _ i
  step-IsCurrent (two_finger enable) s i = update_touchpads-IsCurrent s _ _ i
  step-IsCurrent (tap enable) s i = update_touchpads-IsCurrent s _ _ i
  step-IsCurrent (while_typing enable) s i = update_touchpads-IsCurrent s _ _ i
  step-IsCurrent (with_mouse enable) s i = update_touchpads-IsCurrent s _ _ i

  run-IsCurrent :
      (es : List (Event D)) (s : MirInputConfiguration P T) → IsCurrent s → IsCurrent (run es s)
  unfolding run
  run-IsCurrent [] s i = i
  run-IsCurrent (e ∷ es) s i = run-IsCurrent es (step e s) (step-IsCurrent e s i)

module _ (P T : Type 0) {D : Type 0} ⦃double : Double D⦄ ⦃pointer : PointerConfig P⦄
    ⦃scales : PointerScales D P⦄ ⦃touchpad : TouchpadConfig T⦄ ⦃devices : Devices⦄ where
  -- After any history of devices that come and go and of settings, each device that a new
  -- configuration knows was last configured with the present settings of its kind: a mouse with the
  -- mouse settings, a touchpad with both touchpad settings.
  pub run-init-IsCurrent : (es : List (Event D)) → IsCurrent (run es (init {P = P} {T = T}))
  run-init-IsCurrent es = run-IsCurrent es (init {P = P} {T = T}) init-IsCurrent
