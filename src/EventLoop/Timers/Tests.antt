-- ===== src/EventLoop/Timers/Tests.antt =====
-- The theorem about the timeouts of src/dbus_event_loop.cpp at concrete timers.
use unity_system_compositor.Prelude.{
  ℕ, suc, ◌+◌, refl, Bool, true, false, List, [], ◌∷◌, none, some, arith, ◌==◌, if◌then◌else◌,
}
use unity_system_compositor.EventLoop.{Timespec}
use unity_system_compositor.EventLoop.Timers.{Timerfd, Intervals, init}
use unity_system_compositor.EventLoop.Timers.Armed.{IsTimed, run-init-IsTimed}
use unity_system_compositor.EventLoop.Timers.Runs.{IsTimerfd, Event, adds, removes, toggles, run}

-- A kernel: the open descriptors, how their timers are set, and the next descriptor to give.
record Kernel : Type 0 where
  opened : ℕ → Bool
  time_of : ℕ → Timespec
  next : ℕ

instance abbrev timerfd : Timerfd Kernel
timerfd = record {
  create = λ k. if k.opened k.next then (k, none) else (
    record k { opened = λ j. if j == k.next then true else k.opened j; next = suc k.next },
    some k.next,
  );
  watch = λ fd k. (k, false);
  unwatch = λ fd k. k;
  close = λ fd k. record k { opened = λ j. if j == fd then false else k.opened j };
  set_time = λ fd time k.
      if k.opened fd
      then (record k { time_of = λ j. if j == fd then time else k.time_of j }, false)
      else (k, true);
}

documented : IsTimerfd timerfd
documented = record {
  is_open = λ fd k. k.opened fd;
  time = λ fd k. k.time_of fd;
  create_fresh = λ fd k e. ground arith;
  create_opens = λ fd k e. ground arith;
  create_other = λ fd k o. ground arith;
  watch_keeps = λ fd g k. (refl, refl);
  unwatch_keeps = λ fd g k. (refl, refl);
  close_other = λ fd g k n. ground arith;
  set_opened = λ fd time k o. ground arith;
  set_other = λ fd g time k n. ground arith;
}

instance abbrev intervals : Intervals
intervals = record { interval = λ t. t + 1500 }

abbrev new : Kernel
new = record { opened = λ fd. false; time_of = λ fd. record { sec = 0; nsec = 0 }; next = 4 }

abbrev events : List Event
events = adds 1 ∷ adds 2 ∷ toggles 1 false ∷ removes 2 ∷ []

run-init-IsTimed_example : IsTimed documented (run events (init new (λ t. true)))
run-init-IsTimed_example = run-init-IsTimed documented new (λ t. true) events
