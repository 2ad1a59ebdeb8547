-- ===== src/EventLoop/Timers.antt =====
-- The timeouts of src/dbus_event_loop.cpp, each with a timer's descriptor. timerfd and epoll are a
-- parameter; a timeout is known by its address.
pub mod Runs
pub mod Armed
mod Tests
use unity_system_compositor.Prelude.{
  ℕ, Bool, true, false, not, ◌&&◌, List, [], ◌∷◌, ◌++◌, Option, none, some, ◌==◌, if◌then◌else◌,
}
use unity_system_compositor.EventLoop.{
  Timespec, msec_to_timespec, Events, Flags, epoll_events_to_dbus_flags, EventLoop, Watches,
  enabled_watches_for,
}

-- timerfd_create gives `none` where it fails, as epoll_ctl then does; a result that is true says that a
-- call failed. `watch` and `unwatch` are epoll_ctl's ADD and DEL, and `close` what mir::Fd does at its end.
pub record Timerfd (K : Type 0) : Type 0 where
  pub create : K → K × Option ℕ
  pub watch : ℕ → K → K × Bool
  pub unwatch : ℕ → K → K
  pub close : ℕ → K → K
  pub set_time : ℕ → Timespec → K → K × Bool

-- dbus_timeout_get_interval, in milliseconds.
pub record Intervals : Type 0 where
  pub interval : ℕ → ℕ

-- `enabled` is libdbus' state: whether a timeout is enabled.
pub record Timers (K : Type 0) : Type 0 where
  pub timeouts : List (ℕ × ℕ)
  pub kernel : K
  pub enabled : ℕ → Bool

pub timer_fd_among : ℕ → List (ℕ × ℕ) → Option ℕ
timer_fd_among t [] = none
timer_fd_among t ((u, fd) ∷ ts) = if u == t then some fd else timer_fd_among t ts

-- The loop of `enabled_timeout_for`.
enabled_timeout_among : ℕ → (ℕ → Bool) → List (ℕ × ℕ) → Option ℕ
enabled_timeout_among fd enabled [] = none
enabled_timeout_among fd enabled ((t, g) ∷ ts) =
    if g == fd && enabled t then some t else enabled_timeout_among fd enabled ts

-- std::remove_if and erase.
pub without : ℕ → List (ℕ × ℕ) → List (ℕ × ℕ)
without t [] = []
without t ((u, fd) ∷ ts) = let rest = without t ts in if u == t then rest else (u, fd) ∷ rest

module _ {K : Type 0} where
  pub timer_fd_for : ℕ → Timers K → Option ℕ
  timer_fd_for t s = timer_fd_among t s.timeouts

  enabled_timeout_for : ℕ → Timers K → Option ℕ
  enabled_timeout_for fd s = enabled_timeout_among fd s.enabled s.timeouts

  pub init : K → (ℕ → Bool) → Timers K
  init kernel enabled = record { timeouts = []; kernel = kernel; enabled = enabled }

module _ {K : Type 0} ⦃timerfd : Timerfd K⦄ where
  -- The descriptors of the entries that `erase` takes away are closed.
  pub closed : ℕ → List (ℕ × ℕ) → K → K
  closed t [] k = k
  closed t ((u, fd) ∷ ts) k = closed t ts (if u == t then timerfd.close fd k else k)

  abbrev unwatch_if : Option ℕ → K → K
  unwatch_if none k = k
  unwatch_if (some fd) k = timerfd.unwatch fd k

  pub remove_timeout : ℕ → Timers K → Timers K
  remove_timeout t s = record s {
    timeouts = without t s.timeouts;
    kernel = closed t s.timeouts (unwatch_if (timer_fd_for t s) s.kernel);
  }

module _ ⦃info : Intervals⦄ where
  -- The timer's setting; all zeros stop it.
  pub setting : (ℕ → Bool) → ℕ → Timespec
  setting enabled t =
      if enabled t then msec_to_timespec (info.interval t) else record { sec = 0; nsec = 0 }

module _ {K : Type 0} ⦃timerfd : Timerfd K⦄ ⦃info : Intervals⦄ where
  abbrev set_timer : Option ℕ → ℕ → Timers K → Timers K × Bool
  set_timer none t s = (s, false)
  set_timer (some fd) t s =
      let (k, failed) = timerfd.set_time fd (setting s.enabled t) s.kernel in
      (record s { kernel = k }, not failed)

  pub update_timer_fd_for : ℕ → Timers K → Timers K × Bool
  update_timer_fd_for t s = set_timer (timer_fd_for t s) t s

  pub toggle_timeout : ℕ → Timers K → Timers K
  toggle_timeout t s = (update_timer_fd_for t s).0

  abbrev push_timeout : ℕ → Option ℕ → Timers K → Timers K × Bool
  push_timeout t none s = (s, false)
  push_timeout t (some fd) s =
      let (k, failed) = timerfd.watch fd s.kernel in
      if failed
      then (record s { kernel = timerfd.close fd k }, false)
      else update_timer_fd_for t (record s { timeouts = s.timeouts ++ (t, fd) ∷ []; kernel = k })

  -- The result says whether the timeout was taken.
  pub add_timeout : ℕ → Timers K → Timers K × Bool
  add_timeout t s =
      let (k, fd) = timerfd.create s.kernel in push_timeout t fd (record s { kernel = k })

-- What `run` has libdbus handle.
pub data Handled : Type 0 where
  watch_handled : ℕ → Flags → Handled
  timeout_handled : ℕ → Handled

handle_watches : List ℕ → Flags → List Handled
handle_watches [] flags = []
handle_watches (w ∷ ws) flags = watch_handled w flags ∷ handle_watches ws flags

abbrev handle_timeout : Option ℕ → List Handled
handle_timeout none = []
handle_timeout (some t) = timeout_handled t ∷ []

-- An event of another descriptor than the pipe's: the enabled watches for it, or else the timeout.
abbrev handle_matching : List ℕ → Flags → Option ℕ → List Handled
handle_matching [] flags timeout = handle_timeout timeout
handle_matching (w ∷ ws) flags timeout = handle_watches (w ∷ ws) flags

module _ {E K : Type 0} ⦃watches : Watches⦄ where
  handle_event : ℕ → Events → EventLoop E → Timers K → List Handled
  handle_event fd events loop timers =
      handle_matching (enabled_watches_for fd loop) (epoll_events_to_dbus_flags events)
        (enabled_timeout_for fd timers)
