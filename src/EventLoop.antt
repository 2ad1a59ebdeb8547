-- ===== src/EventLoop.antt =====
-- src/dbus_event_loop.h and src/dbus_event_loop.cpp: which file descriptors the loop waits for, and the
-- actions it runs. epoll and libdbus are parameters. A file descriptor is a number, and a watch is
-- known by its address.
pub mod Wanted
pub mod Watching
pub mod Actions
pub mod Loop
pub mod Timers
mod Tests
use unity_system_compositor.Prelude.{
  ℕ, ◌+◌, ◌*◌, ◌/◌, ◌%◌, ◌==◌, Bool, true, false, not, ◌&&◌, ◌||◌, List, [], ◌∷◌, ◌++◌,
  if◌then◌else◌,
}

-- The bits of epoll's events that the code uses.
pub record Events : Type 0 where
  pub epollin : Bool
  pub epollout : Bool
  pub epollhup : Bool
  pub epollerr : Bool

-- The bits of libdbus' flags.
pub record Flags : Type 0 where
  pub readable : Bool
  pub writable : Bool
  pub hangup : Bool
  pub error : Bool

-- epoll_ctl on the epoll set `E`; the second result says whether it failed.
pub record Epoll (E : Type 0) : Type 0 where
  pub ctl_add : ℕ → Events → E → E × Bool
  pub ctl_mod : ℕ → Events → E → E × Bool
  pub ctl_del : ℕ → E → E × Bool

-- What libdbus says of a watch and keeps.
pub record Watches : Type 0 where
  pub unix_fd : ℕ → ℕ
  pub wants_readable : ℕ → Bool
  pub wants_writable : ℕ → Bool

-- `enabled` is libdbus' state: whether a watch is enabled.
pub record EventLoop (E : Type 0) : Type 0 where
  pub watches : List ℕ
  pub epoll_set : E
  pub enabled : ℕ → Bool

abbrev pub no_events : Events
no_events = record { epollin = false; epollout = false; epollhup = false; epollerr = false }

-- `a | b`.
pub events_or : Events → Events → Events
events_or a b = record {
  epollin = a.epollin || b.epollin;
  epollout = a.epollout || b.epollout;
  epollhup = a.epollhup || b.epollhup;
  epollerr = a.epollerr || b.epollerr;
}

pub epoll_events_to_dbus_flags : Events → Flags
epoll_events_to_dbus_flags e = record {
  readable = e.epollin;
  writable = e.epollout;
  hangup = e.epollhup;
  error = e.epollerr;
}

-- A timespec: seconds and nanoseconds, for a number of milliseconds that is not negative.
pub record Timespec : Type 0 where
  pub sec : ℕ
  pub nsec : ℕ

pub msec_to_timespec : ℕ → Timespec
msec_to_timespec msec = record { sec = msec / 1000; nsec = msec % 1000 * 1_000_000 }

module _ ⦃info : Watches⦄ where
  pub dbus_flags_to_epoll_events : (ℕ → Bool) → ℕ → Events
  dbus_flags_to_epoll_events enabled w = if not (enabled w) then no_events else record {
    epollin = info.wants_readable w;
    epollout = info.wants_writable w;
    epollhup = true;
    epollerr = true;
  }

  pub is_watched : ℕ → List ℕ → Bool
  is_watched fd [] = false
  is_watched fd (w ∷ ws) = if info.unix_fd w == fd then true else is_watched fd ws

  -- The loop of `epoll_events_for_watch_fd`.
  pub events_from : ℕ → (ℕ → Bool) → Events → List ℕ → Events
  events_from fd enabled events [] = events
  events_from fd enabled events (w ∷ ws) =
      events_from fd enabled
        (if info.unix_fd w == fd
          then events_or events (dbus_flags_to_epoll_events enabled w)
          else events)
        ws

  -- The loop of `enabled_watches_for`.
  enabled_among : ℕ → (ℕ → Bool) → List ℕ → List ℕ
  enabled_among fd enabled [] = []
  enabled_among fd enabled (w ∷ ws) =
      let rest = enabled_among fd enabled ws in
      if info.unix_fd w == fd && enabled w then w ∷ rest else rest

-- std::remove and erase.
pub remove : ℕ → List ℕ → List ℕ
remove w [] = []
remove w (v ∷ vs) = let rest = remove w vs in if v == w then rest else v ∷ rest

-- A new loop on its epoll set, with libdbus' state of the watches to come.
pub init : {E : Type 0} → E → (ℕ → Bool) → EventLoop E
init epoll_set enabled = record { watches = []; epoll_set = epoll_set; enabled = enabled }

module _ {E : Type 0} ⦃info : Watches⦄ where
  pub epoll_events_for_watch_fd : ℕ → EventLoop E → Events
  epoll_events_for_watch_fd fd s = events_from fd s.enabled no_events s.watches

  pub enabled_watches_for : ℕ → EventLoop E → List ℕ
  enabled_watches_for fd s = enabled_among fd s.enabled s.watches

module _ {E : Type 0} ⦃epoll : Epoll E⦄ ⦃info : Watches⦄ where
  pub update_events_for_watch_fd : ℕ → EventLoop E → EventLoop E
  update_events_for_watch_fd fd s = record s {
    epoll_set = (epoll.ctl_mod fd (epoll_events_for_watch_fd fd s) s.epoll_set).0;
  }

  -- `add_watch` behind the adding of the descriptor.
  pub push_watch : ℕ → EventLoop E → EventLoop E
  push_watch w s =
      update_events_for_watch_fd (info.unix_fd w) (record s { watches = s.watches ++ w ∷ [] })

  -- The result says whether the watch was taken.
  pub add_watch : ℕ → EventLoop E → EventLoop E × Bool
  add_watch w s =
      let (epoll_set, failed) = epoll.ctl_add (info.unix_fd w) no_events s.epoll_set in
      if is_watched (info.unix_fd w) s.watches
      then (push_watch w s, true)
      else if failed
      then (record s { epoll_set = epoll_set }, false)
      else (push_watch w (record s { epoll_set = epoll_set }), true)

  pub remove_watch : ℕ → EventLoop E → EventLoop E
  remove_watch w s =
      let left = record s { watches = remove w s.watches } in
      if is_watched (info.unix_fd w) left.watches
      then update_events_for_watch_fd (info.unix_fd w) left
      else record left { epoll_set = (epoll.ctl_del (info.unix_fd w) left.epoll_set).0 }

  pub toggle_watch : ℕ → EventLoop E → EventLoop E
  toggle_watch w s = update_events_for_watch_fd (info.unix_fd w) s
