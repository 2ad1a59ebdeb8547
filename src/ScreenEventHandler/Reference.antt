-- ===== src/ScreenEventHandler/Reference.antt =====
-- What src/screen_event_handler.cpp is to tell of a whole history of events, by a log of what was told
-- and when.
use unity_system_compositor.Prelude.{
  ℕ, suc, ◌==◌, ◌≡◌, refl, false, List, [], ◌∷◌, Option, none, some, if◌then◌else◌, arith,
}
use unity_system_compositor.Prelude.Int.{ℤ, pos, negsuc, ◌+ℤ◌, ltb_ℤ}
use unity_system_compositor.ScreenEventHandler.{
  KeyCodes, Clock, Action, down, up, other_action, MirEvent, not_input, key, touch, pointer,
  other_input, Notification, press, release, changing_power_state, extending_power_state, Handler,
  init, handle, handle_key, notify_power_button, notify_activity_changing_power_state,
  notify_activity_extending_power_state,
}
use unity_system_compositor.ScreenEventHandler.Rate.{run}

module _ ⦃codes : KeyCodes⦄ where
  -- What an event calls for.
  abbrev wants_key : ℕ → Action → Option Notification
  wants_key code action =
      if code == codes.key_power
      then elim action [ down ↦ some press | up ↦ some release | other_action ↦ none ]
      else if code == codes.key_volumedown
      then none
      else if code == codes.key_volumeup
      then none
      else elim action [
        | down ↦ some changing_power_state
        | up ↦ some extending_power_state
        | other_action ↦ some extending_power_state
      ]

  abbrev wants : MirEvent → Option Notification
  wants not_input = none
  wants (key code action) = wants_key code action
  wants touch = some extending_power_state
  wants pointer = some changing_power_state
  wants other_input = none

-- What was told, the last first, with the time that the clock gave then; only activity has one.
pub data Log : Type 0 where
  empty : Log
  button : Notification → Log → Log
  changing_at extending_at : ℤ → Log → Log

abbrev pub told : Log → List Notification
told empty = []
told (button n log) = n ∷ told log
told (changing_at t log) = changing_power_state ∷ told log
told (extending_at t log) = extending_power_state ∷ told log

-- When each activity was told last; 500 ms before the clock's start if it has not been.
abbrev last_changing_in : Log → ℤ
last_changing_in empty = negsuc 499_999_999
last_changing_in (button n log) = last_changing_in log
last_changing_in (changing_at t log) = t
last_changing_in (extending_at t log) = last_changing_in log

abbrev last_extending_in : Log → ℤ
last_extending_in empty = negsuc 499_999_999
last_extending_in (button n log) = last_extending_in log
last_extending_in (changing_at t log) = last_extending_in log
last_extending_in (extending_at t log) = t

-- `reads` counts the readings of the clock, one for the test and one more for what is told.
pub record Teller : Type 0 where
  pub reads : ℕ
  pub log : Log

module _ ⦃clock : Clock⦄ where
  abbrev tell : Option Notification → Teller → Teller
  tell none s = s
  tell (some press) s = record s { log = button press s.log }
  tell (some release) s = record s { log = button release s.log }
  tell (some changing_power_state) s =
      if ltb_ℤ (clock.now s.reads) (last_changing_in s.log +ℤ pos 500_000_000)
      then record s { reads = suc s.reads }
      else record { reads = suc (suc s.reads); log = changing_at (clock.now (suc s.reads)) s.log }
  tell (some extending_power_state) s =
      if ltb_ℤ (clock.now s.reads) (last_extending_in s.log +ℤ pos 500_000_000)
      then record s { reads = suc s.reads }
      else record { reads = suc (suc s.reads); log = extending_at (clock.now (suc s.reads)) s.log }

module _ ⦃codes : KeyCodes⦄ ⦃clock : Clock⦄ where
  abbrev pub tell_each : List MirEvent → Teller → Teller
  tell_each [] s = s
  tell_each (e ∷ es) s = tell_each es (tell (wants e) s)

  record IsFollowed (s : Handler) (t : Teller) : Type 0 where
    same_reads : s.reads ≡ t.reads
    same_told : s.notifications ≡ told t.log
    same_changing : s.last_changing ≡ last_changing_in t.log
    same_extending : s.last_extending ≡ last_extending_in t.log

  changing-IsFollowed :
      (s : Handler) (t : Teller)
      → IsFollowed s t
      → IsFollowed (notify_activity_changing_power_state s) (tell (some changing_power_state) t)
  unfolding notify_activity_changing_power_state
  changing-IsFollowed s t i = ground (arith, i)

  extending-IsFollowed :
      (s : Handler) (t : Teller)
      → IsFollowed s t
      → IsFollowed (notify_activity_extending_power_state s) (tell (some extending_power_state) t)
  unfolding notify_activity_extending_power_state
  extending-IsFollowed s t i = ground (arith, i)

  key-IsFollowed :
      (code : ℕ) (action : Action) (s : Handler) (t : Teller)
      → IsFollowed s t
      → IsFollowed (handle_key code action s) (tell (wants_key code action) t)
  unfolding handle_key notify_power_button
  key-IsFollowed code down s t i = ground (arith, i, changing-IsFollowed s t i)
  key-IsFollowed code up s t i = ground (arith, i, extending-IsFollowed s t i)
  key-IsFollowed code other_action s t i = ground (arith, i, extending-IsFollowed s t i)

  handle-IsFollowed :
      (e : MirEvent) (s : Handler) (t : Teller)
      → IsFollowed s t
      → IsFollowed (handle e s).0 (tell (wants e) t)
  unfolding handle
  handle-IsFollowed not_input s t i = i
  handle-IsFollowed (key code action) s t i = key-IsFollowed code action s t i
  handle-IsFollowed touch s t i = extending-IsFollowed s t i
  handle-IsFollowed pointer s t i = changing-IsFollowed s t i
  handle-IsFollowed other_input s t i = i

  run-IsFollowed :
      (es : List MirEvent) (s : Handler) (t : Teller)
      → IsFollowed s t
      → IsFollowed (run es s) (tell_each es t)
  unfolding run
  run-IsFollowed [] s t i = i
  run-IsFollowed (e ∷ es) s t i = run-IsFollowed es _ _ (handle-IsFollowed e s t i)

  -- No event is consumed.
  handle_passes : (e : MirEvent) (s : Handler) → (handle e s).1 ≡ false
  unfolding handle
  handle_passes not_input s = refl
  handle_passes (key code action) s = refl
  handle_passes touch s = refl
  handle_passes pointer s = refl
  handle_passes other_input s = refl

  -- For every history of events a new handler notifies of just what a log of its notifications
  -- calls for: of each event what its kind calls for, a press or a release of the power button
  -- always, and an activity if 500 ms have gone by since the time that the log has for the last one
  -- of its kind, or since 500 ms before the clock's zero if there is none. No event is consumed.
  pub run-tell_each :
      (es : List MirEvent)
      → ((run es init).notifications ≡ told (tell_each es (record { reads = 0; log = empty })).log)
        × ((e : MirEvent) → (handle e (run es init)).1 ≡ false)
  unfolding init
  run-tell_each es = (
    (run-IsFollowed es init (record { reads = 0; log = empty })
        (record {
          same_reads = refl;
          same_told = refl;
          same_changing = refl;
          same_extending = refl;
        })).same_told,
    (λ e. handle_passes e (run es init)),
  )
