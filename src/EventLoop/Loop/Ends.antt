-- ===== src/EventLoop/Loop/Ends.antt =====
-- No call of src/dbus_event_loop.cpp is missed while the loop waits, and a loop that is stopped ends.
use mathlib.Core.List.{append-nil}
use unity_system_compositor.Prelude.{
  ℕ, ◌+◌, ◌<◌, ◌≤◌, ◌≡◌, ◌≢◌, refl, ◌⊎◌, inl, inr, true, false, List, [], ◌∷◌, ◌++◌, length,
  Bool-cases, arith,
}
use unity_system_compositor.EventLoop.Actions.{dispatch_actions}
use unity_system_compositor.EventLoop.Loop.{
  Place, before, testing, waiting, handled, dispatched, ended, threw, Loop, init, enqueue_here,
  start, test_running, stop, enqueue_there, dispatch, LoopStep, starts, tests, interrupted, failed,
  woken, ready, dispatches, flushes, OtherStep, stops, enqueues, writes, wakes, Steps, here,
  by_loop, by_other,
}

module _ {A W : Type 0} where
  -- Outside an event's handling, a byte is in the pipe or on its way if an action waits; and also if
  -- the loop is stopped while its thread is in epoll_wait.
  record IsAwake (s : Loop A W) : Type 0 where
    acts : s.place ≢ handled → (s.queue.actions ≡ []) ⊎ (0 < s.pending + s.writers)
    stopped : s.place ≡ waiting → s.running ≡ false → 0 < s.pending + s.writers

empty_or_longer : {A : Type 0} (l : List A) → (l ≡ []) ⊎ (0 < length l)
empty_or_longer [] = inl refl
empty_or_longer (a ∷ l) = inr (omega arith)

append_longer : {A : Type 0} (l more : List A) → (l ++ more ≡ l) ⊎ (0 < length more)
append_longer l [] = inl (append-nil l)
append_longer l (a ∷ more) = inr (omega arith)

module _ {A W : Type 0} (act : A → W → W × List A) where
  LoopStep-IsAwake : {s t : Loop A W} → LoopStep act s t → IsAwake s → IsAwake t
  unfolding start test_running enqueue_here dispatch
  LoopStep-IsAwake (starts p) i = record { acts = ground arith; stopped = ground arith }
  LoopStep-IsAwake (tests p) i = record { acts = ground (arith, i.acts); stopped = ground arith }
  LoopStep-IsAwake (interrupted p) i = record {
    acts = ground (arith, i.acts);
    stopped = ground arith;
  }
  LoopStep-IsAwake (failed p) i = record { acts = ground (arith, i.acts); stopped = ground arith }
  LoopStep-IsAwake (woken n p e) i = record { acts = ground arith; stopped = ground arith }
  LoopStep-IsAwake (ready more p) i = record { acts = ground arith; stopped = ground arith }
  LoopStep-IsAwake {s = s} (dispatches p) i = record {
    acts = ground (arith, empty_or_longer (dispatch_actions act s.queue).actions);
    stopped = ground arith;
  }
  LoopStep-IsAwake {s = s} (flushes more p) i = record {
    acts = ground (arith, i.acts, append_longer s.queue.actions more);
    stopped = ground arith;
  }

  OtherStep-IsAwake : {s t : Loop A W} → OtherStep act s t → IsAwake s → IsAwake t
  unfolding stop enqueue_there
  OtherStep-IsAwake stops i = record { acts = ground arith; stopped = ground arith }
  OtherStep-IsAwake (enqueues a) i = record { acts = ground arith; stopped = ground arith }
  OtherStep-IsAwake (writes n e) i = record { acts = ground arith; stopped = ground arith }
  OtherStep-IsAwake wakes i = record { acts = ground arith; stopped = ground arith }

  Steps-IsAwake : {s : Loop A W} {n : ℕ} {t : Loop A W} → Steps act s n t → IsAwake s → IsAwake t
  Steps-IsAwake here i = i
  Steps-IsAwake (by_loop r st) i = LoopStep-IsAwake st (Steps-IsAwake r i)
  Steps-IsAwake (by_other r st) i = OtherStep-IsAwake st (Steps-IsAwake r i)

  init-IsAwake : (world : W) → IsAwake (init {A = A} world)
  unfolding init
  init-IsAwake world = record { acts = ground arith; stopped = ground arith }

  -- In whatever order the loop's thread and the threads that call it go on from a new loop: when
  -- the loop is in epoll_wait, with no byte in the pipe and no call that has yet to write one, then
  -- it has not been stopped and no action waits.
  pub no_missed_call :
      (world : W) {n : ℕ} {t : Loop A W}
      → Steps act (init world) n t
      → t.place ≡ waiting
      → t.pending ≡ 0
      → t.writers ≡ 0
      → (t.running ≡ true) × (t.queue.actions ≡ [])
  no_missed_call world {t = t} r p e w =
      let i = Steps-IsAwake r (init-IsAwake world) in
      ground (arith, i.acts, i.stopped, Bool-cases t.running)

  -- How many steps the loop's thread has yet to make once `running` is false.
  abbrev rank : Place → ℕ
  rank before = 5
  rank waiting = 4
  rank handled = 3
  rank dispatched = 2
  rank testing = 1
  rank ended = 0
  rank threw = 0

  record IsStopped (s : Loop A W) : Type 0 where
    not_running : s.running ≡ false
    begun : s.place ≢ before

  LoopStep-IsStopped :
      {s t : Loop A W}
      → LoopStep act s t
      → IsStopped s
      → IsStopped t × (rank t.place < rank s.place)
  unfolding start test_running enqueue_here dispatch
  LoopStep-IsStopped (starts p) i = ground (arith, i.begun)
  LoopStep-IsStopped (tests p) i = (
    record { not_running = i.not_running; begun = ground (arith, i.not_running) },
    ground (arith, i.not_running),
  )
  LoopStep-IsStopped (interrupted p) i = (
    record { not_running = i.not_running; begun = ground (arith, i.not_running) },
    ground (arith, i.not_running),
  )
  LoopStep-IsStopped (failed p) i = (
    record { not_running = i.not_running; begun = ground (arith, i.not_running) },
    ground (arith, i.not_running),
  )
  LoopStep-IsStopped (woken n p e) i = (
    record { not_running = i.not_running; begun = ground (arith, i.not_running) },
    ground (arith, i.not_running),
  )
  LoopStep-IsStopped (ready more p) i = (
    record { not_running = i.not_running; begun = ground (arith, i.not_running) },
    ground (arith, i.not_running),
  )
  LoopStep-IsStopped (dispatches p) i = (
    record { not_running = i.not_running; begun = ground (arith, i.not_running) },
    ground (arith, i.not_running),
  )
  LoopStep-IsStopped (flushes more p) i = (
    record { not_running = i.not_running; begun = ground (arith, i.not_running) },
    ground (arith, i.not_running),
  )

  OtherStep-IsStopped :
      {s t : Loop A W} → OtherStep act s t → IsStopped s → IsStopped t × (t.place ≡ s.place)
  unfolding stop enqueue_there
  OtherStep-IsStopped stops i = (record { not_running = refl; begun = i.begun }, refl)
  OtherStep-IsStopped (enqueues a) i =
      (record { not_running = i.not_running; begun = i.begun }, refl)
  OtherStep-IsStopped (writes n e) i =
      (record { not_running = i.not_running; begun = i.begun }, refl)
  OtherStep-IsStopped wakes i = (record { not_running = i.not_running; begun = i.begun }, refl)

  Steps-IsStopped :
      {s : Loop A W} {n : ℕ} {t : Loop A W}
      → Steps act s n t
      → IsStopped s
      → IsStopped t × (rank t.place + n ≤ rank s.place)
  Steps-IsStopped here i = (i, omega arith)
  Steps-IsStopped (by_loop r st) i =
      let (j, less) = Steps-IsStopped r i in
      let (k, lower) = LoopStep-IsStopped st j in (k, omega (arith, less, lower))
  Steps-IsStopped (by_other r st) i =
      let (j, less) = Steps-IsStopped r i in
      let (k, same) = OtherStep-IsStopped st j in (k, rw same less)

  rank-begun : (p : Place) → p ≢ before → (rank p ≤ 4) × (rank p ≡ 0 → (p ≡ ended) ⊎ (p ≡ threw))
  rank-begun before b = absurd (b refl)
  rank-begun waiting b = (omega arith, λ e. ground arith)
  rank-begun handled b = (omega arith, λ e. ground arith)
  rank-begun dispatched b = (omega arith, λ e. ground arith)
  rank-begun testing b = (omega arith, λ e. ground arith)
  rank-begun ended b = (omega arith, λ e. inl refl)
  rank-begun threw b = (omega arith, λ e. inr refl)

  -- Once a loop that has begun is stopped, its thread makes at most four more steps, whatever the
  -- other threads do meanwhile, and after four it has left the loop; and while it is in epoll_wait
  -- a byte is in the pipe, or a call has yet to write one, so that it does not wait for ever.
  pub stopped_ends :
      (world : W) {n m : ℕ} {t u : Loop A W}
      → Steps act (init world) n t
      → t.running ≡ false
      → t.place ≢ before
      → Steps act t m u
      → (m ≤ 4)
        × (m ≡ 4 → (u.place ≡ ended) ⊎ (u.place ≡ threw))
        × (u.place ≡ waiting → 0 < u.pending + u.writers)
  stopped_ends world {n = n} {m = m} {t = t} {u = u} r stopped begun q =
      let (i, less) = Steps-IsStopped q (record { not_running = stopped; begun = begun }) in
      let awake = Steps-IsAwake q (Steps-IsAwake r (init-IsAwake world)) in
      let (most, least) = rank-begun t.place begun in
      let (left, over) = rank-begun u.place i.begun in
      (
        omega (arith, less, most),
        (λ four. over (omega (arith, less, most, four))),
        (λ w. awake.stopped w i.not_running),
      )
