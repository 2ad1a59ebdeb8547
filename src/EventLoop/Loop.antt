-- ===== src/EventLoop/Loop.antt =====
-- `run`, `stop` and `wake_up_loop` of src/dbus_event_loop.cpp: the loop's own thread and the threads
-- that call it, one step of one of them after another. A write into the pipe succeeds.
pub mod Ends
mod Tests
use unity_system_compositor.Prelude.{
  ℕ, suc, ◌+◌, ◌≡◌, Bool, true, false, List, [], ◌∷◌, ◌++◌, length, if◌then◌else◌,
}
use unity_system_compositor.EventLoop.Actions.{Actions, enqueue, dispatch_actions}

-- Where the loop's thread stands in `run`: before it, at the test of `running`, in epoll_wait, behind
-- the event's handling, behind the actions, at the end, or out of it by an exception.
pub data Place : Type 0 where
  before testing waiting handled dispatched ended threw : Place

-- `pending` are the bytes in the pipe, and `writers` the calls that have yet to write theirs.
pub record Loop (A W : Type 0) : Type 0 where
  pub queue : Actions A W
  pub running : Bool
  pub place : Place
  pub pending : ℕ
  pub writers : ℕ

module _ {A W : Type 0} where
  pub init : W → Loop A W
  init world = record {
    queue = record { actions = []; world = world; ran = [] };
    running = false;
    place = before;
    pending = 0;
    writers = 0;
  }

  -- The loop's thread calls `enqueue` itself: from an action or from what libdbus calls.
  pub enqueue_here : List A → Loop A W → Loop A W
  enqueue_here more s = record s {
    queue = record s.queue { actions = s.queue.actions ++ more };
    pending = s.pending + length more;
  }

  pub start : Loop A W → Loop A W
  start s = record s { running = true; place = testing }

  pub test_running : Loop A W → Loop A W
  test_running s = record s { place = if s.running then waiting else ended }

  -- `stop` and `enqueue` of another thread, up to their `wake_up_loop`.
  pub stop : Loop A W → Loop A W
  stop s = record s { running = false; writers = s.writers + 1 }

  pub enqueue_there : A → Loop A W → Loop A W
  enqueue_there a s = record s { queue = enqueue a s.queue; writers = s.writers + 1 }

  -- The actions, with the bytes that those write which enqueue further ones.
  pub dispatch : (A → W → W × List A) → Loop A W → Loop A W
  dispatch act s =
      let queue = dispatch_actions act s.queue in
      record s { queue = queue; place = dispatched; pending = s.pending + length queue.actions }

module _ {A W : Type 0} (act : A → W → W × List A) where
  pub data LoopStep (s : Loop A W) : Loop A W → Type 0 where
    starts : s.place ≡ before → LoopStep s (start s)
    tests : s.place ≡ testing → LoopStep s (test_running s)
    -- epoll_wait: EINTR, another error, the pipe, or another descriptor, which libdbus handles.
    interrupted : s.place ≡ waiting → LoopStep s (record s { place = testing })
    failed : s.place ≡ waiting → LoopStep s (record s { place = threw })
    woken :
        (n : ℕ)
        → s.place ≡ waiting
        → s.pending ≡ suc n
        → LoopStep s (record s { place = handled; pending = n })
    ready :
        (more : List A)
        → s.place ≡ waiting
        → LoopStep s (record (enqueue_here more s) { place = handled })
    dispatches : s.place ≡ handled → LoopStep s (dispatch act s)
    -- The connections are flushed, and libdbus dispatches what they have.
    flushes :
        (more : List A)
        → s.place ≡ dispatched
        → LoopStep s (record (enqueue_here more s) { place = testing })

  pub data OtherStep (s : Loop A W) : Loop A W → Type 0 where
    stops : OtherStep s (stop s)
    enqueues : (a : A) → OtherStep s (enqueue_there a s)
    writes :
        (n : ℕ)
        → s.writers ≡ suc n
        → OtherStep s (record s { writers = n; pending = s.pending + 1 })
    -- libdbus calls `wake_up_loop`.
    wakes : OtherStep s (record s { writers = s.writers + 1 })

  -- The steps from one state to another, with how many the loop's thread made.
  pub data Steps (s : Loop A W) : ℕ → Loop A W → Type 0 where
    here : Steps s 0 s
    by_loop : {n : ℕ} {t u : Loop A W} → Steps s n t → LoopStep t u → Steps s (suc n) u
    by_other : {n : ℕ} {t u : Loop A W} → Steps s n t → OtherStep t u → Steps s n u
