-- ===== src/ScreenEventHandler.antt =====
-- src/screen_event_handler.h and src/screen_event_handler.cpp: input events to notifications, at most
-- one of a kind in each period. Times are nanoseconds.
pub mod Rate
pub mod Notified
pub mod Reference
mod Tests
use unity_system_compositor.Prelude.{
  ℕ, suc, ◌+◌, Bool, true, false, not, ◌||◌, List, [], ◌∷◌, if◌then◌else◌, ◌==◌,
}
use unity_system_compositor.Prelude.Int.{ℤ, pos, negsuc, ◌+ℤ◌, ltb_ℤ}

-- KEY_POWER, KEY_VOLUMEDOWN and KEY_VOLUMEUP of linux/input.h.
pub record KeyCodes : Type 0 where
  pub key_power : ℕ
  pub key_volumedown : ℕ
  pub key_volumeup : ℕ

-- usc::Clock: what its n-th reading gives.
pub record Clock : Type 0 where
  pub now : ℕ → ℤ

-- What the handler asks of a MirEvent.
pub data Action : Type 0 where
  down up other_action : Action

pub data MirEvent : Type 0 where
  not_input : MirEvent
  key : ℕ → Action → MirEvent
  touch pointer other_input : MirEvent

-- The calls on PowerButtonEventSink and UserActivityEventSink.
pub data Notification : Type 0 where
  press release changing_power_state extending_power_state : Notification

-- 500 ms.
abbrev pub event_period : ℤ
event_period = pos 500_000_000

-- `reads` counts the readings of the clock; `notifications` has the last one first.
pub record Handler : Type 0 where
  pub last_changing : ℤ
  pub last_extending : ℤ
  pub reads : ℕ
  pub notifications : List Notification

pub init : Handler
init = record {
  last_changing = negsuc 499_999_999;
  last_extending = negsuc 499_999_999;
  reads = 0;
  notifications = [];
}

module _ ⦃clock : Clock⦄ where
  pub notify_activity_changing_power_state : Handler → Handler
  notify_activity_changing_power_state s =
      if not (ltb_ℤ (clock.now s.reads) (s.last_changing +ℤ event_period))
      then record s {
        last_changing = clock.now (suc s.reads);
        reads = suc (suc s.reads);
        notifications = changing_power_state ∷ s.notifications;
      }
      else record s { reads = suc s.reads }

  pub notify_activity_extending_power_state : Handler → Handler
  notify_activity_extending_power_state s =
      if not (ltb_ℤ (clock.now s.reads) (s.last_extending +ℤ event_period))
      then record s {
        last_extending = clock.now (suc s.reads);
        reads = suc (suc s.reads);
        notifications = extending_power_state ∷ s.notifications;
      }
      else record s { reads = suc s.reads }

pub notify_power_button : Action → Handler → Handler
notify_power_button down s = record s { notifications = press ∷ s.notifications }
notify_power_button up s = record s { notifications = release ∷ s.notifications }
notify_power_button other_action s = s

abbrev is_down : Action → Bool
is_down down = true
is_down up = false
is_down other_action = false

module _ ⦃codes : KeyCodes⦄ ⦃clock : Clock⦄ where
  pub handle_key : ℕ → Action → Handler → Handler
  handle_key scan_code action s =
      if scan_code == codes.key_power
      then notify_power_button action s
      else if scan_code == codes.key_volumedown || scan_code == codes.key_volumeup
      then s
      else if is_down action
      then notify_activity_changing_power_state s
      else notify_activity_extending_power_state s

  -- The result says whether the event was consumed.
  pub handle : MirEvent → Handler → Handler × Bool
  handle not_input s = (s, false)
  handle (key scan_code action) s = (handle_key scan_code action s, false)
  handle touch s = (notify_activity_extending_power_state s, false)
  handle pointer s = (notify_activity_changing_power_state s, false)
  handle other_input s = (s, false)
