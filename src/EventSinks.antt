-- ===== src/EventSinks.antt =====
-- src/unity_power_button_event_sink.cpp and src/unity_user_activity_event_sink.cpp: the signals on the
-- bus that the notifications of src/screen_event_handler.cpp become.
mod Tests
use unity_system_compositor.Prelude.{
  ℕ, suc, ◌*◌, ◌≡◌, ◌≢◌, refl, Bool, true, false, ◌&&◌, List, [], ◌∷◌, Option, none, some, Str,
  str_eq, bytes, ◌==◌, if◌then◌else◌, arith, ap,
}
use unity_system_compositor.Prelude.Int.{pos, ◌+ℤ◌, ◌≤ℤ◌}
use unity_system_compositor.ScreenEventHandler.{
  KeyCodes, Clock, MirEvent, Notification, press, release, changing_power_state,
  extending_power_state, event_period, init,
}
use unity_system_compositor.ScreenEventHandler.Rate.{
  IsSteady, changings, extendings, run, activity_rate,
}

-- A signal with its path, its interface, its name and its INT32 argument.
pub record Signal : Type 0 where
  pub path : Str
  pub interface : Str
  pub member_name : Str
  pub argument : Option ℕ

abbrev unity_power_button_path : Str
unity_power_button_path = bytes "/com/canonical/Unity/PowerButton"

abbrev unity_user_activity_path : Str
unity_user_activity_path = bytes "/com/canonical/Unity/UserActivity"

abbrev unity_power_button_iface : Str
unity_power_button_iface = bytes "com.canonical.Unity.PowerButton"

abbrev unity_user_activity_iface : Str
unity_user_activity_iface = bytes "com.canonical.Unity.UserActivity"

-- UnityUserActivityType.
pub data UnityUserActivityType : Type 0 where
  changing extending : UnityUserActivityType

abbrev as_int : UnityUserActivityType → ℕ
as_int changing = 0
as_int extending = 1

abbrev activity : UnityUserActivityType → Signal
activity t = record {
  path = unity_user_activity_path;
  interface = unity_user_activity_iface;
  member_name = bytes "Activity";
  argument = some (as_int t);
}

abbrev power_button : Str → Signal
power_button name = record {
  path = unity_power_button_path;
  interface = unity_power_button_iface;
  member_name = name;
  argument = none;
}

-- What a sink sends when it is notified.
notify : Notification → Signal
notify press = power_button (bytes "Press")
notify release = power_button (bytes "Release")
notify changing_power_state = activity changing
notify extending_power_state = activity extending

-- What has been sent, the last signal first.
pub signals_of : List Notification → List Signal
signals_of [] = []
signals_of (n ∷ ns) = notify n ∷ signals_of ns

abbrev is_activity : UnityUserActivityType → Option ℕ → Bool
is_activity t none = false
is_activity t (some n) = n == as_int t

-- How many signals say that there was activity of a type.
abbrev pub activities : UnityUserActivityType → List Signal → ℕ
activities t [] = 0
activities t (s ∷ ss) = if is_activity t s.argument then suc (activities t ss) else activities t ss

activities-changing : (ns : List Notification) → activities changing (signals_of ns) ≡ changings ns
unfolding signals_of notify
activities-changing [] = refl
activities-changing (press ∷ ns) = activities-changing ns
activities-changing (release ∷ ns) = activities-changing ns
activities-changing (changing_power_state ∷ ns) = ap suc (activities-changing ns)
activities-changing (extending_power_state ∷ ns) = activities-changing ns

activities-extending :
    (ns : List Notification) → activities extending (signals_of ns) ≡ extendings ns
unfolding signals_of notify
activities-extending [] = refl
activities-extending (press ∷ ns) = activities-extending ns
activities-extending (release ∷ ns) = activities-extending ns
activities-extending (changing_power_state ∷ ns) = activities-extending ns
activities-extending (extending_power_state ∷ ns) = ap suc (activities-extending ns)

module _ ⦃codes : KeyCodes⦄ ⦃clock : Clock⦄ (steady : IsSteady clock) where
  -- With a clock that starts at 0 or later and never goes back: by the time of the clock's next
  -- reading, the events that a new handler was given have led to at most one signal on the bus for
  -- each of the two types of activity, and one more for each 500 ms of that time.
  pub signal_rate :
      (es : List MirEvent)
      → (pos (activities changing (signals_of (run es init).notifications) * 500_000_000)
          ≤ℤ clock.now (run es init).reads +ℤ event_period)
        × (pos (activities extending (signals_of (run es init).notifications) * 500_000_000)
            ≤ℤ clock.now (run es init).reads +ℤ event_period)
  signal_rate es =
      rw
        (
          activities-changing (run es init).notifications,
          activities-extending (run es init).notifications,
        )
        (activity_rate steady es)
