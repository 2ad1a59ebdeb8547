-- ===== src/EventLoop/Timers/Runs.antt =====
-- The histories of the timeouts of src/dbus_event_loop.cpp, over timerfd as documented.
use unity_system_compositor.Prelude.{
  ℕ, ◌≡◌, ◌≢◌, refl, Bool, true, false, not, List, [], ◌∷◌, ◌++◌, none, some, arith, ◌==◌,
  if◌then◌else◌, ◌&&◌, ◌||◌,
}
use unity_system_compositor.EventLoop.{Timespec}
use unity_system_compositor.EventLoop.Timers.{
  Timerfd, Intervals, Timers, timer_fd_among, without, remove_timeout, toggle_timeout, add_timeout,
}

-- timerfd as documented: which descriptors are open, and how each one's timer is set.
pub record IsTimerfd {K : Type 0} (timerfd : Timerfd K) : Type 0 where
  pub is_open : ℕ → K → Bool
  pub time : ℕ → K → Timespec
  pub create_fresh : (fd : ℕ) (k : K) → (timerfd.create k).1 ≡ some fd → is_open fd k ≡ false
  pub create_opens :
      (fd : ℕ) (k : K) → (timerfd.create k).1 ≡ some fd → is_open fd (timerfd.create k).0 ≡ true
  pub create_other :
      (fd : ℕ) (k : K)
      → is_open fd k ≡ true
      → (is_open fd (timerfd.create k).0 ≡ true) × (time fd (timerfd.create k).0 ≡ time fd k)
  pub watch_keeps :
      (fd g : ℕ) (k : K)
      → (is_open g (timerfd.watch fd k).0 ≡ is_open g k)
        × (time g (timerfd.watch fd k).0 ≡ time g k)
  pub unwatch_keeps :
      (fd g : ℕ) (k : K)
      → (is_open g (timerfd.unwatch fd k) ≡ is_open g k)
        × (time g (timerfd.unwatch fd k) ≡ time g k)
  pub close_other :
      (fd g : ℕ) (k : K)
      → g ≢ fd
      → (is_open g (timerfd.close fd k) ≡ is_open g k) × (time g (timerfd.close fd k) ≡ time g k)
  pub set_opened :
      (fd : ℕ) (time_set : Timespec) (k : K)
      → is_open fd k ≡ true
      → ((timerfd.set_time fd time_set k).1 ≡ false)
        × (is_open fd (timerfd.set_time fd time_set k).0 ≡ true)
        × (time fd (timerfd.set_time fd time_set k).0 ≡ time_set)
  pub set_other :
      (fd g : ℕ) (time_set : Timespec) (k : K)
      → g ≢ fd
      → (is_open g (timerfd.set_time fd time_set k).0 ≡ is_open g k)
        × (time g (timerfd.set_time fd time_set k).0 ≡ time g k)

-- What libdbus calls on the loop; it has set a timeout's state before it says that it was toggled.
pub data Event : Type 0 where
  adds removes : ℕ → Event
  toggles : ℕ → Bool → Event

abbrev pub toggled : {K : Type 0} → ℕ → Bool → Timers K → Timers K
toggled t now s = record s { enabled = λ u. if u == t then now else s.enabled u }

module _ {K : Type 0} ⦃timerfd : Timerfd K⦄ ⦃info : Intervals⦄ where
  unfoldable pub step : Event → Timers K → Timers K
  step (adds t) s = (add_timeout t s).0
  step (removes t) s = remove_timeout t s
  step (toggles t now) s = toggle_timeout t (toggled t now s)

  unfoldable pub run : List Event → Timers K → Timers K
  run [] s = s
  run (e ∷ es) s = run es (step e s)

-- Whether `fd` is a timer of the timeout `t`.
abbrev pub has : ℕ → ℕ → List (ℕ × ℕ) → Bool
has t fd [] = false
has t fd ((u, g) ∷ ts) = u == t && g == fd || has t fd ts

pub timer_fd_among-has :
    (t fd : ℕ) (ts : List (ℕ × ℕ)) → timer_fd_among t ts ≡ some fd → has t fd ts ≡ true
unfolding timer_fd_among
timer_fd_among-has t fd [] e = cc
timer_fd_among-has t fd ((u, g) ∷ ts) e = ground (arith, timer_fd_among-has t fd ts)

pub timer_fd_among-append :
    (t u fd : ℕ) (ts : List (ℕ × ℕ))
    → timer_fd_among t (ts ++ (u, fd) ∷ [])
      ≡ elim (timer_fd_among t ts) [ none ↦ if u == t then some fd else none | some g ↦ some g ]
unfolding timer_fd_among
timer_fd_among-append t u fd [] = refl
timer_fd_among-append t u fd ((v, g) ∷ ts) = ground (arith, timer_fd_among-append t u fd ts)

pub has-append :
    (t g u fd : ℕ) (ts : List (ℕ × ℕ))
    → has t g (ts ++ (u, fd) ∷ []) ≡ (has t g ts || u == t && fd == g)
has-append t g u fd [] = ground arith
has-append t g u fd ((v, h) ∷ ts) = ground (arith, has-append t g u fd ts)

pub timer_fd_among-without :
    (t u : ℕ) (ts : List (ℕ × ℕ))
    → timer_fd_among u (without t ts) ≡ (if u == t then none else timer_fd_among u ts)
unfolding timer_fd_among without
timer_fd_among-without t u [] = ground arith
timer_fd_among-without t u ((v, g) ∷ ts) = ground (arith, timer_fd_among-without t u ts)

pub has-without :
    (t u fd : ℕ) (ts : List (ℕ × ℕ)) → has u fd (without t ts) ≡ (not (u == t) && has u fd ts)
unfolding without
has-without t u fd [] = ground arith
has-without t u fd ((v, g) ∷ ts) = ground (arith, has-without t u fd ts)
