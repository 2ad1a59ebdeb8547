-- ===== src/EventLoop/Timers/Armed.antt =====
-- The timers of src/dbus_event_loop.cpp over every history of its timeouts.
use unity_system_compositor.Prelude.{
  ℕ, ◌≡◌, ◌≢◌, refl, inl, inr, Bool, true, false, List, [], ◌∷◌, ◌++◌, Option, none, some, arith,
  ◌==◌, Bool-cases, Option-cases, sym, subst, ◌+◌, ◌*◌, ◌<◌,
}
use unity_system_compositor.EventLoop.{Timespec, msec_to_timespec}
use unity_system_compositor.EventLoop.Timers.{
  Timerfd, Intervals, Timers, timer_fd_among, timer_fd_for, closed, init, remove_timeout,
  unwatch_if, setting, update_timer_fd_for, toggle_timeout, add_timeout,
}
use unity_system_compositor.EventLoop.Timers.Runs.{
  adds, removes, toggles, IsTimerfd, Event, toggled, step, run, has, timer_fd_among-has,
  timer_fd_among-append, has-append, timer_fd_among-without, has-without,
}

module _ {K : Type 0} ⦃timerfd : Timerfd K⦄ (documented : IsTimerfd timerfd) where
  -- What `g` shows in a kernel.
  abbrev IsSame : ℕ → K → K → Type 0
  IsSame g k l =
      (documented.is_open g l ≡ documented.is_open g k)
      × (documented.time g l ≡ documented.time g k)

  unwatched_other : (o : Option ℕ) (g : ℕ) (k : K) → IsSame g k (unwatch_if o k)
  unwatched_other none g k = (refl, refl)
  unwatched_other (some fd) g k = documented.unwatch_keeps fd g k

  closed_other :
      (t g : ℕ) (ts : List (ℕ × ℕ)) (k : K) → has t g ts ≡ false → IsSame g k (closed t ts k)
  unfolding closed
  closed_other t g [] k h = (refl, refl)
  closed_other t g ((u, fd) ∷ ts) k h = ground (
    arith,
    closed_other t g ts k,
    closed_other t g ts (timerfd.close fd k),
    documented.close_other fd g k,
  )

  -- Each timer is open and belongs to one timeout, and is set as its timeout wants it.
  module _ ⦃info : Intervals⦄ where
    pub record IsArmed (s : Timers K) : Type 0 where
      pub opened : (t fd : ℕ) → has t fd s.timeouts ≡ true → documented.is_open fd s.kernel ≡ true
      pub apart : (t u fd : ℕ) → has t fd s.timeouts ≡ true → has u fd s.timeouts ≡ true → t ≡ u
      pub armed :
          (t fd : ℕ)
          → timer_fd_among t s.timeouts ≡ some fd
          → documented.time fd s.kernel ≡ setting s.enabled t

    -- `t` may not be set yet.
    record IsArmedBut (t : ℕ) (s : Timers K) : Type 0 where
      opened : (u fd : ℕ) → has u fd s.timeouts ≡ true → documented.is_open fd s.kernel ≡ true
      apart : (u v fd : ℕ) → has u fd s.timeouts ≡ true → has v fd s.timeouts ≡ true → u ≡ v
      armed :
          (u fd : ℕ)
          → u ≢ t
          → timer_fd_among u s.timeouts ≡ some fd
          → documented.time fd s.kernel ≡ setting s.enabled u

    update_timer_fd_for-IsArmed :
        (t : ℕ) (s : Timers K) → IsArmedBut t s → IsArmed (update_timer_fd_for t s).0
    unfolding update_timer_fd_for timer_fd_for
    update_timer_fd_for-IsArmed t s i = elim (Option-cases (timer_fd_among t s.timeouts)) [
      | inl missing ↦ rw missing (record {
        opened = i.opened;
        apart = i.apart;
        armed = λ u fd e. ground (arith, i.armed u fd);
      })
      | inr (g, found) ↦ rw found (record {
        opened = λ u fd h. ground (
          arith,
          i.opened u fd,
          i.opened t g,
          timer_fd_among-has t g s.timeouts,
          documented.set_opened g (setting s.enabled t) s.kernel,
          documented.set_other g fd (setting s.enabled t) s.kernel,
          Bool-cases (fd == g),
        );
        apart = i.apart;
        armed = λ u fd e. ground (
          arith,
          i.armed u fd,
          i.opened t g,
          i.apart u t g,
          timer_fd_among-has t g s.timeouts,
          timer_fd_among-has u fd s.timeouts,
          documented.set_opened g (setting s.enabled t) s.kernel,
          documented.set_other g fd (setting s.enabled t) s.kernel,
          Bool-cases (fd == g),
        );
      })
    ]

    kept-IsArmed :
        (s : Timers K) (k : K)
        → ((t fd : ℕ) → has t fd s.timeouts ≡ true → IsSame fd s.kernel k)
        → IsArmed s
        → IsArmed (record s { kernel = k })
    kept-IsArmed s k same i = record {
      opened = λ t fd h. ground (arith, i.opened t fd h, same t fd h);
      apart = i.apart;
      armed = λ t fd e.
          ground (arith, i.armed t fd e, same t fd (timer_fd_among-has t fd s.timeouts e));
    }

    pushed-IsArmedBut :
        (t fd : ℕ) (s : Timers K)
        → IsArmed s
        → documented.is_open fd s.kernel ≡ true
        → ((u : ℕ) → has u fd s.timeouts ≡ false)
        → IsArmedBut t (record s { timeouts = s.timeouts ++ (t, fd) ∷ [] })
    pushed-IsArmedBut t fd s i o fresh = record {
      opened = λ u g h. ground (arith, i.opened u g, has-append u g t fd s.timeouts);
      apart = λ u v g h j. ground (
        arith,
        i.apart u v g,
        has-append u g t fd s.timeouts,
        has-append v g t fd s.timeouts,
        fresh u,
        fresh v,
      );
      armed = λ u g n e. ground (arith, i.armed u g, timer_fd_among-append u t fd s.timeouts);
    }

    created-fresh :
        (fd : ℕ) (s : Timers K)
        → IsArmed s
        → (timerfd.create s.kernel).1 ≡ some fd
        → (u : ℕ) → has u fd s.timeouts ≡ false
    created-fresh fd s i made u =
        ground (arith, i.opened u fd, documented.create_fresh fd s.kernel made)

    add_timeout-IsArmed : (t : ℕ) (s : Timers K) → IsArmed s → IsArmed (add_timeout t s).0
    unfolding add_timeout
    add_timeout-IsArmed t s i =
        let k = (timerfd.create s.kernel).0 in
        let j : IsArmed (record s { kernel = k }) =
          kept-IsArmed s k
            (λ u fd h. ground (arith, i.opened u fd h, documented.create_other fd s.kernel)) i in
        elim (Option-cases (timerfd.create s.kernel).1) [
          | inl missing ↦ rw missing j
          | inr (fd, made) ↦ rw made (elim (Bool-cases (timerfd.watch fd k).1) [
            | inl refused ↦ rw refused (
                kept-IsArmed s (timerfd.close fd (timerfd.watch fd k).0)
                  (λ u g h. ground (
                    arith,
                    i.opened u g h,
                    documented.create_other g s.kernel,
                    documented.watch_keeps fd g k,
                    documented.close_other fd g (timerfd.watch fd k).0,
                    created-fresh fd s i made u,
                  ))
                  i)
            | inr taken ↦ rw taken (
                update_timer_fd_for-IsArmed t
                  (record s {
                    timeouts = s.timeouts ++ (t, fd) ∷ [];
                    kernel = (timerfd.watch fd k).0;
                  })
                  (pushed-IsArmedBut t fd (record s { kernel = (timerfd.watch fd k).0 })
                    (kept-IsArmed (record s { kernel = k }) (timerfd.watch fd k).0
                      (λ u g h. documented.watch_keeps fd g k) j)
                    (ground (
                      arith,
                      documented.create_opens fd s.kernel made,
                      documented.watch_keeps fd fd k,
                    ))
                    (created-fresh fd s i made)))
          ])
        ]

    removed_other :
        (t u fd : ℕ) (s : Timers K)
        → IsArmed s
        → u ≢ t
        → has u fd s.timeouts ≡ true
        → IsSame fd s.kernel (remove_timeout t s).kernel
    unfolding remove_timeout
    removed_other t u fd s i n h = ground (
      arith,
      i.apart t u fd,
      closed_other t fd s.timeouts (unwatch_if (timer_fd_for t s) s.kernel),
      unwatched_other (timer_fd_for t s) fd s.kernel,
    )

    remove_timeout-IsArmed : (t : ℕ) (s : Timers K) → IsArmed s → IsArmed (remove_timeout t s)
    unfolding remove_timeout
    remove_timeout-IsArmed t s i = record {
      opened = λ u fd h.
          ground (arith, i.opened u fd, has-without t u fd s.timeouts, removed_other t u fd s i);
      apart = λ u v fd h j.
          ground
            (arith, i.apart u v fd, has-without t u fd s.timeouts, has-without t v fd s.timeouts);
      armed = λ u fd e. ground (
        arith,
        i.armed u fd,
        timer_fd_among-without t u s.timeouts,
        timer_fd_among-has u fd s.timeouts,
        removed_other t u fd s i,
      );
    }

    toggle_timeout-IsArmed :
        (t : ℕ) (now : Bool) (s : Timers K)
        → IsArmed s
        → IsArmed (toggle_timeout t (toggled t now s))
    unfolding toggle_timeout setting
    toggle_timeout-IsArmed t now s i = update_timer_fd_for-IsArmed t (toggled t now s) (record {
      opened = i.opened;
      apart = i.apart;
      armed = λ u fd n e. ground (arith, i.armed u fd e);
    })

    run-IsArmed : (es : List Event) (s : Timers K) → IsArmed s → IsArmed (run es s)
    unfolding run step
    run-IsArmed [] s i = i
    run-IsArmed (adds t ∷ es) s i = run-IsArmed es _ (add_timeout-IsArmed t s i)
    run-IsArmed (removes t ∷ es) s i = run-IsArmed es _ (remove_timeout-IsArmed t s i)
    run-IsArmed (toggles t now ∷ es) s i = run-IsArmed es _ (toggle_timeout-IsArmed t now s i)

    -- How a timer is to stand: at its timeout's interval of milliseconds, or still.
    pub record Times (enabled : Bool) (milliseconds : ℕ) (time : Timespec) : Type 0 where
      pub runs :
          enabled ≡ true
          → (time.sec * 1_000_000_000 + time.nsec ≡ milliseconds * 1_000_000)
            × (time.nsec < 1_000_000_000)
      pub stands : enabled ≡ false → (time.sec ≡ 0) × (time.nsec ≡ 0)

    setting-Times :
        (enabled : ℕ → Bool) (t : ℕ) → Times (enabled t) (info.interval t) (setting enabled t)
    unfolding setting msec_to_timespec
    setting-Times enabled t = record { runs = λ e. ground arith; stands = λ e. ground arith }

    pub record IsTimed (s : Timers K) : Type 0 where
      pub all_open : (t fd : ℕ) → has t fd s.timeouts ≡ true → documented.is_open fd s.kernel ≡ true
      pub one_timeout :
          (t u fd : ℕ) → has t fd s.timeouts ≡ true → has u fd s.timeouts ≡ true → t ≡ u
      pub timed :
          (t fd : ℕ)
          → timer_fd_among t s.timeouts ≡ some fd
          → Times (s.enabled t) (info.interval t) (documented.time fd s.kernel)

    -- With timerfd and epoll as documented: after libdbus has added, removed and toggled any
    -- timeouts of a new loop, whether the making and the watching of a timer failed or not, every
    -- timer of the loop is open and belongs to one timeout; the timer of a timeout is set to the
    -- timeout's interval, in seconds and nanoseconds below a second, if the timeout is enabled, and
    -- stands at zero if it is not.
    pub run-init-IsTimed :
        (kernel : K) (enabled : ℕ → Bool) (es : List Event) → IsTimed (run es (init kernel enabled))
    unfolding init timer_fd_among
    run-init-IsTimed kernel enabled es =
        let s : Timers K = run es (init kernel enabled) in
        let i : IsArmed s = run-IsArmed es (init kernel enabled) (record {
          opened = λ t fd h. ground arith;
          apart = λ t u fd h j. ground arith;
          armed = λ t fd e. ground arith;
        }) in
        record {
          all_open = i.opened;
          one_timeout = i.apart;
          timed = λ t fd e.
              subst (Times (s.enabled t) (info.interval t)) (sym (i.armed t fd e))
                (setting-Times s.enabled t);
        }
