-- ===== src/ScreenEventHandler/Notified.antt =====
-- Which events src/screen_event_handler.cpp tells of, and as what.
use unity_system_compositor.Prelude.{ℕ, ◌≡◌, ◌≢◌, refl, ◌⊎◌, inl, inr, false, ◌∷◌, arith}
use unity_system_compositor.Prelude.Int.{◌+ℤ◌, ◌≤ℤ◌}
use native.Mathlib.Decide.{ℕ_discrete}
use unity_system_compositor.ScreenEventHandler.{
  KeyCodes, Clock, Action, down, up, other_action, MirEvent, not_input, key, touch, pointer,
  other_input, Notification, press, release, changing_power_state, extending_power_state,
  event_period, Handler, handle, handle_key, notify_power_button,
  notify_activity_changing_power_state, notify_activity_extending_power_state,
}

module _ ⦃codes : KeyCodes⦄ where
  -- What an event may give rise to.
  pub data TellsOf : MirEvent → Notification → Type 0 where
    power_down : (code : ℕ) → code ≡ codes.key_power → TellsOf (key code down) press
    power_up : (code : ℕ) → code ≡ codes.key_power → TellsOf (key code up) release
    key_down :
        (code : ℕ)
        → code ≢ codes.key_power
        → code ≢ codes.key_volumedown
        → code ≢ codes.key_volumeup
        → TellsOf (key code down) changing_power_state
    key_other :
        (code : ℕ) (action : Action)
        → action ≢ down
        → code ≢ codes.key_power
        → code ≢ codes.key_volumedown
        → code ≢ codes.key_volumeup
        → TellsOf (key code action) extending_power_state
    touched : TellsOf touch extending_power_state
    pointed : TellsOf pointer changing_power_state

module _ ⦃codes : KeyCodes⦄ ⦃clock : Clock⦄ where
  -- The period limits the two kinds of activity.
  abbrev IsDue : Notification → Handler → Type 0
  IsDue press s = Unit
  IsDue release s = Unit
  IsDue changing_power_state s = s.last_changing +ℤ event_period ≤ℤ clock.now s.reads
  IsDue extending_power_state s = s.last_extending +ℤ event_period ≤ℤ clock.now s.reads

  changing_lem :
      (s : Handler)
      → ((notify_activity_changing_power_state s).notifications ≡ s.notifications)
        ⊎ (((notify_activity_changing_power_state s).notifications
              ≡ changing_power_state ∷ s.notifications)
            × IsDue changing_power_state s)
  unfolding notify_activity_changing_power_state
  changing_lem s = ground arith

  extending_lem :
      (s : Handler)
      → ((notify_activity_extending_power_state s).notifications ≡ s.notifications)
        ⊎ (((notify_activity_extending_power_state s).notifications
              ≡ extending_power_state ∷ s.notifications)
            × IsDue extending_power_state s)
  unfolding notify_activity_extending_power_state
  extending_lem s = ground arith

  -- The three groups of keys.
  key_cases :
      (code : ℕ)
      → (code ≡ codes.key_power)
        ⊎ (((code ≡ codes.key_volumedown) ⊎ (code ≡ codes.key_volumeup)) × (code ≢ codes.key_power))
        ⊎ ((code ≢ codes.key_power) × (code ≢ codes.key_volumedown) × (code ≢ codes.key_volumeup))
  key_cases code = elim (ℕ_discrete code codes.key_power) [
    | yes power ↦ inl power
    | no p ↦ elim (ℕ_discrete code codes.key_volumedown) [
      | yes volume ↦ inr (inl (inl volume, p))
      | no d ↦ elim (ℕ_discrete code codes.key_volumeup) [
        | yes volume ↦ inr (inl (inr volume, p))
        | no u ↦ inr (inr (p, d, u))
      ]
    ]
  ]

  abbrev Outcome : MirEvent → Handler → Handler → Type 0
  Outcome e s t =
      (t.notifications ≡ s.notifications)
      ⊎ ((n : Notification) × (t.notifications ≡ n ∷ s.notifications) × TellsOf e n × IsDue n s)

  key_lem : (code : ℕ) (a : Action) (s : Handler) → Outcome (key code a) s (handle_key code a s)
  unfolding handle_key notify_power_button
  key_lem code down s = elim (key_cases code) [
    | inl power ↦ inr (press, ground arith, power_down code power, tt)
    | inr (inl (volume, p)) ↦ inl (ground arith)
    | inr (inr (p, d, u)) ↦ elim (changing_lem s) [
      | inl same ↦ inl (ground arith)
      | inr (told, due) ↦ inr (changing_power_state, ground arith, key_down code p d u, due)
    ]
  ]
  key_lem code up s = elim (key_cases code) [
    | inl power ↦ inr (release, ground arith, power_up code power, tt)
    | inr (inl (volume, p)) ↦ inl (ground arith)
    | inr (inr (p, d, u)) ↦ elim (extending_lem s) [
      | inl same ↦ inl (ground arith)
      | inr (told, due) ↦
          inr (extending_power_state, ground arith, key_other code up (λ e. cc) p d u, due)
    ]
  ]
  key_lem code other_action s = elim (key_cases code) [
    | inl power ↦ inl (ground arith)
    | inr (inl (volume, p)) ↦ inl (ground arith)
    | inr (inr (p, d, u)) ↦ elim (extending_lem s) [
      | inl same ↦ inl (ground arith)
      | inr (told, due) ↦
          inr
            (extending_power_state, ground arith, key_other code other_action (λ e. cc) p d u, due)
    ]
  ]

  -- Of the notifications of activity, one is due if 500 ms have gone by since the last of its kind.
  -- An event is never consumed, and it gives rise to one notification at most, one that the event's
  -- kind calls for and that is due.
  handle_rate_limited :
      (e : MirEvent) (s : Handler)
      → ((handle e s).1 ≡ false)
        × (((handle e s).0.notifications ≡ s.notifications)
            ⊎ ((n : Notification) × ((handle e s).0.notifications ≡ n ∷ s.notifications)
                × TellsOf e n
                × IsDue n s))
  unfolding handle
  handle_rate_limited not_input s = (refl, inl refl)
  handle_rate_limited (key code a) s = (refl, key_lem code a s)
  handle_rate_limited touch s = (
    refl,
    elim (extending_lem s) [
      | inl same ↦ inl same
      | inr (told, due) ↦ inr (extending_power_state, told, touched, due)
    ],
  )
  handle_rate_limited pointer s = (
    refl,
    elim (changing_lem s) [
      | inl same ↦ inl same
      | inr (told, due) ↦ inr (changing_power_state, told, pointed, due)
    ],
  )
  handle_rate_limited other_input s = (refl, inl refl)

  -- A notification that an event calls for and that is due is made at once.
  handle_all_due :
      (e : MirEvent) (s : Handler) (n : Notification)
      → TellsOf e n
      → IsDue n s
      → (handle e s).0.notifications ≡ n ∷ s.notifications
  unfolding handle handle_key notify_power_button notify_activity_changing_power_state
      notify_activity_extending_power_state
  handle_all_due e s n (power_down code p) due = ground arith
  handle_all_due e s n (power_up code p) due = ground arith
  handle_all_due e s n (key_down code a b c) due = ground arith
  handle_all_due e s n (key_other code action d a b c) due = ground arith
  handle_all_due e s n touched due = ground arith
  handle_all_due e s n pointed due = ground arith
