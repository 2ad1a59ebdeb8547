-- ===== src/EventLoop/Loop/Tests.antt =====
-- The theorems about the run of src/dbus_event_loop.cpp at a concrete run.
use unity_system_compositor.Prelude.{
  ℕ, ◌+◌, ◌≤◌, ◌<◌, ◌≡◌, refl, ◌⊎◌, true, false, List, [], ◌∷◌, arith,
}
use unity_system_compositor.EventLoop.Actions.{
  enqueue, dispatch_actions, call_all, call, enqueue_all,
}
use unity_system_compositor.EventLoop.Loop.{
  waiting, ended, threw, Loop, init, enqueue_here, start, test_running, stop, enqueue_there,
  dispatch, starts, tests, woken, dispatches, flushes, stops, enqueues, writes, Steps, here,
  by_loop, by_other,
}
use unity_system_compositor.EventLoop.Loop.Ends.{no_missed_call, stopped_ends}

-- An action adds a number to the world.
abbrev plus : ℕ → ℕ → ℕ × List ℕ
plus a w = (a + w, [])

-- The loop has run the action that another thread enqueued, and waits.
abbrev quiet : Loop ℕ ℕ
quiet = record {
  queue = record { actions = []; world = 12; ran = 5 ∷ [] };
  running = true;
  place = waiting;
  pending = 0;
  writers = 0;
}

quiet-Steps : Steps plus (init 7) 6 quiet
unfolding init enqueue_there enqueue start test_running dispatch dispatch_actions call_all call
    enqueue_all enqueue_here
quiet-Steps =
    by_loop
      (by_loop
        (by_loop
          (by_loop
            (by_loop (by_loop (by_other (by_other here (enqueues 5)) (writes 0 refl)) (starts refl))
              (tests refl))
            (woken 0 refl refl))
          (dispatches refl))
        (flushes [] refl))
      (tests refl)

no_missed_call_example : (quiet.running ≡ true) × (quiet.queue.actions ≡ [])
no_missed_call_example = no_missed_call plus 7 quiet-Steps refl refl refl

-- Stopped while it waits, and woken by the byte that `stop` writes.
abbrev stopped : Loop ℕ ℕ
stopped = record quiet { running = false; writers = 1 }

abbrev over : Loop ℕ ℕ
over = record quiet { running = false; place = ended }

stopped-Steps : Steps plus (init 7) 6 stopped
unfolding stop
stopped-Steps = by_other quiet-Steps stops

over-Steps : Steps plus stopped 4 over
unfolding test_running dispatch dispatch_actions call_all enqueue_here
over-Steps =
    by_loop
      (by_loop
        (by_loop (by_loop (by_other here (writes 0 refl)) (woken 0 refl refl)) (dispatches refl))
        (flushes [] refl))
      (tests refl)

stopped_ends_example :
    (4 ≤ 4)
    × (◌≡◌ {A = ℕ} 4 4 → (over.place ≡ ended) ⊎ (over.place ≡ threw))
    × (over.place ≡ waiting → 0 < over.pending + over.writers)
stopped_ends_example = stopped_ends plus 7 stopped-Steps refl (ground arith) over-Steps
