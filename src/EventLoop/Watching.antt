-- ===== src/EventLoop/Watching.antt =====
-- What src/dbus_event_loop.cpp waits for over every history of its watches.
use unity_system_compositor.Prelude.{
  ℕ, ◌≡◌, ◌≢◌, refl, Bool, true, false, List, [], ◌∷◌, ◌++◌, Option, none, some, arith, ◌==◌,
  ==_iff, if◌then◌else◌, Bool-cases, inl, inr,
}
use unity_system_compositor.EventLoop.{
  Events, Epoll, Watches, EventLoop, no_events, is_watched, events_from, remove,
  epoll_events_for_watch_fd, update_events_for_watch_fd, push_watch, add_watch, remove_watch,
  toggle_watch, init,
}
use unity_system_compositor.EventLoop.Wanted.{
  wanted, none_or, events_from_lem, append_other, append_watched, watched_before, remove_other,
  toggle_other,
}

-- epoll_ctl as documented, on the events that an epoll set has for a descriptor.
pub record IsEpoll {E : Type 0} (epoll : Epoll E) : Type 0 where
  pub interest : E → ℕ → Option Events
  pub added :
      (fd g : ℕ) (ev : Events) (e : E)
      → (epoll.ctl_add fd ev e).1 ≡ false
      → interest (epoll.ctl_add fd ev e).0 g ≡ (if fd == g then some ev else interest e g)
  pub not_added :
      (fd g : ℕ) (ev : Events) (e : E)
      → (epoll.ctl_add fd ev e).1 ≡ true
      → interest (epoll.ctl_add fd ev e).0 g ≡ interest e g
  pub modified :
      (fd g : ℕ) (ev : Events) (e : E)
      → interest e fd ≢ none
      → interest (epoll.ctl_mod fd ev e).0 g ≡ (if fd == g then some ev else interest e g)
  pub not_modified :
      (fd g : ℕ) (ev : Events) (e : E)
      → interest e fd ≡ none
      → interest (epoll.ctl_mod fd ev e).0 g ≡ interest e g
  pub deleted :
      (fd g : ℕ) (e : E)
      → interest (epoll.ctl_del fd e).0 g ≡ (if fd == g then none else interest e g)

-- What libdbus calls on the loop; it has set a watch's state before it says that it was toggled.
pub data Event : Type 0 where
  adds removes : ℕ → Event
  toggles : ℕ → Bool → Event

abbrev toggled : {E : Type 0} → ℕ → Bool → EventLoop E → EventLoop E
toggled w now s = record s { enabled = λ v. if v == w then now else s.enabled v }

module _ {E : Type 0} ⦃epoll : Epoll E⦄ ⦃info : Watches⦄ where
  step : Event → EventLoop E → EventLoop E
  step (adds w) s = (add_watch w s).0
  step (removes w) s = remove_watch w s
  step (toggles w now) s = toggle_watch w (toggled w now s)

  pub run : List Event → EventLoop E → EventLoop E
  run [] s = s
  run (e ∷ es) s = run es (step e s)

-- The loop waits, for each descriptor that has a watch, for what the enabled ones among them want, and
-- for every other descriptor for what the epoll set had at the start.
module _ {E : Type 0} ⦃epoll : Epoll E⦄ ⦃info : Watches⦄ (kernel : IsEpoll epoll) (start : E) where
  abbrev awaited : ℕ → EventLoop E → Option Events
  awaited fd s =
      if is_watched fd s.watches
      then some (wanted fd s.enabled s.watches)
      else kernel.interest start fd

  abbrev pub IsWaiting : EventLoop E → Type 0
  IsWaiting s = (fd : ℕ) → kernel.interest s.epoll_set fd ≡ awaited fd s

  -- The update of one descriptor, where the others are as they should be.
  update-IsWaiting :
      (fd : ℕ) (s : EventLoop E)
      → is_watched fd s.watches ≡ true
      → kernel.interest s.epoll_set fd ≢ none
      → ((g : ℕ) → (fd == g) ≡ false → kernel.interest s.epoll_set g ≡ awaited g s)
      → IsWaiting (update_events_for_watch_fd fd s)
  unfolding update_events_for_watch_fd epoll_events_for_watch_fd
  update-IsWaiting fd s w present others g = ground (
    arith,
    kernel.modified fd g (events_from fd s.enabled no_events s.watches) s.epoll_set present,
    events_from_lem fd s.enabled no_events s.watches,
    none_or (wanted fd s.enabled s.watches),
    others g,
    ==_iff fd g,
  )

  push-IsWaiting :
      (w : ℕ) (s : EventLoop E)
      → kernel.interest s.epoll_set (info.unix_fd w) ≢ none
      → ((g : ℕ) → (info.unix_fd w == g) ≡ false → kernel.interest s.epoll_set g ≡ awaited g s)
      → IsWaiting (push_watch w s)
  unfolding push_watch
  push-IsWaiting w s present others =
      update-IsWaiting (info.unix_fd w) (record s { watches = s.watches ++ w ∷ [] })
        (append_watched w s.watches) present
        (λ g other. ground (arith, append_other g w s.enabled s.watches other, others g other))

  add_watch-IsWaiting : (w : ℕ) (s : EventLoop E) → IsWaiting s → IsWaiting (add_watch w s).0
  unfolding add_watch
  add_watch-IsWaiting w s i =
      let fd = info.unix_fd w in
      elim (Bool-cases (is_watched fd s.watches)) [
        | inl watched ↦ rw watched (push-IsWaiting w s (λ e. ground (arith, i fd)) (λ g other. i g))
        | inr new ↦ elim (Bool-cases (epoll.ctl_add fd no_events s.epoll_set).1) [
          | inl failed ↦
              rw (new, failed)
                (λ g. ground (arith, kernel.not_added fd g no_events s.epoll_set failed, i g))
          | inr taken ↦
              rw (new, taken)
                (push-IsWaiting w
                  (record s { epoll_set = (epoll.ctl_add fd no_events s.epoll_set).0 })
                  (λ e.
                    ground (arith, kernel.added fd fd no_events s.epoll_set taken, ==_iff fd fd))
                  (λ g other. ground (arith, kernel.added fd g no_events s.epoll_set taken, i g)))
        ]
      ]

  -- The epoll set has at the start none of the descriptors that watches are about.
  abbrev IsFresh : Type 0
  IsFresh = (w : ℕ) → kernel.interest start (info.unix_fd w) ≡ none

  remove_watch-IsWaiting :
      (w : ℕ) (s : EventLoop E) → IsFresh → IsWaiting s → IsWaiting (remove_watch w s)
  unfolding remove_watch
  remove_watch-IsWaiting w s fresh i =
      let fd = info.unix_fd w in
      let left = record s { watches = remove w s.watches } in
      elim (Bool-cases (is_watched fd (remove w s.watches))) [
        | inl watched ↦ rw watched (
            update-IsWaiting fd left watched
              (λ e. ground (arith, i fd, watched_before fd w s.watches watched))
              (λ g other. ground (arith, remove_other g w s.enabled s.watches other, i g)))
        | inr gone ↦ rw gone (λ g. ground (
          arith,
          kernel.deleted fd g s.epoll_set,
          ==_iff fd g,
          fresh w,
          remove_other g w s.enabled s.watches,
          i g,
        ))
      ]

  unwatched_none :
      (w : ℕ) (s : EventLoop E)
      → IsFresh
      → IsWaiting s
      → is_watched (info.unix_fd w) s.watches ≡ false
      → kernel.interest s.epoll_set (info.unix_fd w) ≡ none
  unwatched_none w s fresh i unwatched = ground (arith, i (info.unix_fd w), fresh w)

  toggle_watch-IsWaiting :
      (w : ℕ) (now : Bool) (s : EventLoop E)
      → IsFresh
      → IsWaiting s
      → IsWaiting (toggle_watch w (toggled w now s))
  unfolding toggle_watch update_events_for_watch_fd
  toggle_watch-IsWaiting w now s fresh i =
      let fd = info.unix_fd w in
      elim (Bool-cases (is_watched fd s.watches)) [
        | inl watched ↦
            update-IsWaiting fd (toggled w now s) watched (λ e. ground (arith, i fd))
              (λ g other. ground (arith, toggle_other g w now s.enabled s.watches other, i g))
        | inr unwatched ↦ λ g. ground (
          arith,
          kernel.not_modified fd g (epoll_events_for_watch_fd fd (toggled w now s)) s.epoll_set
              (unwatched_none w s fresh i unwatched),
          toggle_other g w now s.enabled s.watches,
          ==_iff fd g,
          i g,
        )
      ]

  step-IsWaiting : (e : Event) (s : EventLoop E) → IsFresh → IsWaiting s → IsWaiting (step e s)
  unfolding step
  step-IsWaiting (adds w) s fresh i = add_watch-IsWaiting w s i
  step-IsWaiting (removes w) s fresh i = remove_watch-IsWaiting w s fresh i
  step-IsWaiting (toggles w now) s fresh i = toggle_watch-IsWaiting w now s fresh i

  run_from-IsWaiting :
      (es : List Event) (s : EventLoop E) → IsFresh → IsWaiting s → IsWaiting (run es s)
  unfolding run
  run_from-IsWaiting [] s fresh i = i
  run_from-IsWaiting (e ∷ es) s fresh i =
      run_from-IsWaiting es (step e s) fresh (step-IsWaiting e s fresh i)

  -- Where epoll_ctl does what is documented and the epoll set has at the start none of the
  -- descriptors of libdbus' watches: after watches were added, removed and toggled in any order,
  -- the loop waits, for each descriptor that has a watch, for what the enabled ones among them
  -- want, and for every other descriptor as at the start.
  pub run-init-IsWaiting :
      (es : List Event) (enabled : ℕ → Bool) → IsFresh → IsWaiting (run es (init start enabled))
  unfolding init is_watched
  run-init-IsWaiting es enabled fresh =
      run_from-IsWaiting es (init start enabled) fresh (λ fd. refl)
