-- ===== src/EventLoop/Wanted.antt =====
-- What src/dbus_event_loop.cpp waits for: the events of the enabled watches, descriptor by descriptor.
use mathlib.Core.Bool.{or_assoc as bool_or_assoc}
use unity_system_compositor.Prelude.{
  ℕ, ◌≡◌, refl, sym, ap, ◌∙◌, Bool, true, false, ◌&&◌, ◌||◌, List, [], ◌∷◌, ◌++◌, arith, ◌==◌,
  ==_iff, if◌then◌else◌, Bool-cases, inl, inr, ◌+◌, ◌*◌, ◌<◌,
}
use unity_system_compositor.EventLoop.{
  Events, Watches, no_events, events_or, dbus_flags_to_epoll_events, is_watched, events_from,
  remove, msec_to_timespec,
}

-- Whether an enabled watch of the descriptor has a property.
abbrev any_enabled : ⦃info : Watches⦄ → ℕ → (ℕ → Bool) → (ℕ → Bool) → List ℕ → Bool
any_enabled fd enabled p [] = false
any_enabled ⦃info⦄ fd enabled p (w ∷ ws) =
    info.unix_fd w == fd && enabled w && p w || any_enabled fd enabled p ws

or_none : (a : Events) → events_or a no_events ≡ a
unfolding events_or
or_none a = ground arith

pub none_or : (a : Events) → events_or no_events a ≡ a
unfolding events_or
none_or a = ground arith

or_assoc : (a b c : Events) → events_or (events_or a b) c ≡ events_or a (events_or b c)
unfolding events_or
or_assoc a b c =
    rw
      (
        bool_or_assoc a.epollin b.epollin c.epollin,
        bool_or_assoc a.epollout b.epollout c.epollout,
        bool_or_assoc a.epollhup b.epollhup c.epollhup,
        bool_or_assoc a.epollerr b.epollerr c.epollerr,
      )
      refl

module _ ⦃info : Watches⦄ where
  -- What the enabled watches of a descriptor want, and the two events that each of them is told of.
  abbrev pub wanted : ℕ → (ℕ → Bool) → List ℕ → Events
  wanted fd enabled ws = record {
    epollin = any_enabled fd enabled info.wants_readable ws;
    epollout = any_enabled fd enabled info.wants_writable ws;
    epollhup = any_enabled fd enabled (λ w. true) ws;
    epollerr = any_enabled fd enabled (λ w. true) ws;
  }

  wanted_same :
      (fd w : ℕ) (enabled : ℕ → Bool) (ws : List ℕ)
      → (info.unix_fd w == fd) ≡ true
      → wanted fd enabled (w ∷ ws)
        ≡ events_or (dbus_flags_to_epoll_events enabled w) (wanted fd enabled ws)
  unfolding events_or dbus_flags_to_epoll_events
  wanted_same fd w enabled ws same =
      rw same (elim (Bool-cases (enabled w)) [ inl on ↦ rw on refl | inr off ↦ rw off refl ])

  wanted_other :
      (fd w : ℕ) (enabled : ℕ → Bool) (ws : List ℕ)
      → (info.unix_fd w == fd) ≡ false
      → wanted fd enabled (w ∷ ws) ≡ wanted fd enabled ws
  wanted_other fd w enabled ws other = rw other refl

  pub events_from_lem :
      (fd : ℕ) (enabled : ℕ → Bool) (events : Events) (ws : List ℕ)
      → events_from fd enabled events ws ≡ events_or events (wanted fd enabled ws)
  unfolding events_from
  events_from_lem fd enabled events [] = sym (or_none events)
  events_from_lem fd enabled events (w ∷ ws) = elim (Bool-cases (info.unix_fd w == fd)) [
    | inl same ↦
        ap
          (λ b.
            events_from fd enabled
              (if b then events_or events (dbus_flags_to_epoll_events enabled w) else events) ws)
          same
        ∙ events_from_lem fd enabled (events_or events (dbus_flags_to_epoll_events enabled w)) ws
        ∙ or_assoc events (dbus_flags_to_epoll_events enabled w) (wanted fd enabled ws)
        ∙ ap (events_or events) (sym (wanted_same fd w enabled ws same))
    | inr other ↦
        ap
          (λ b.
            events_from fd enabled
              (if b then events_or events (dbus_flags_to_epoll_events enabled w) else events) ws)
          other
        ∙ events_from_lem fd enabled events ws
        ∙ ap (events_or events) (sym (wanted_other fd w enabled ws other))
  ]

  -- Another descriptor's watch makes no difference.
  pub append_other :
      (fd w : ℕ) (enabled : ℕ → Bool) (ws : List ℕ)
      → (info.unix_fd w == fd) ≡ false
      → (is_watched fd (ws ++ w ∷ []) ≡ is_watched fd ws)
        × (wanted fd enabled (ws ++ w ∷ []) ≡ wanted fd enabled ws)
  unfolding is_watched
  append_other fd w enabled [] other = ground arith
  append_other fd w enabled (v ∷ ws) other = ground (arith, append_other fd w enabled ws other)

  pub append_watched : (w : ℕ) (ws : List ℕ) → is_watched (info.unix_fd w) (ws ++ w ∷ []) ≡ true
  unfolding is_watched
  append_watched w [] = ground (arith, ==_iff (info.unix_fd w) (info.unix_fd w))
  append_watched w (v ∷ ws) = ground (arith, append_watched w ws)

  pub remove_other :
      (fd w : ℕ) (enabled : ℕ → Bool) (ws : List ℕ)
      → (info.unix_fd w == fd) ≡ false
      → (is_watched fd (remove w ws) ≡ is_watched fd ws)
        × (wanted fd enabled (remove w ws) ≡ wanted fd enabled ws)
  unfolding is_watched remove
  remove_other fd w enabled [] other = ground arith
  remove_other fd w enabled (v ∷ ws) other =
      ground (arith, ==_iff v w, remove_other fd w enabled ws other)

  pub watched_before :
      (fd w : ℕ) (ws : List ℕ) → is_watched fd (remove w ws) ≡ true → is_watched fd ws ≡ true
  unfolding is_watched remove
  watched_before fd w [] h = h
  watched_before fd w (v ∷ ws) h = ground (arith, watched_before fd w ws)

  pub toggle_other :
      (fd w : ℕ) (now : Bool) (enabled : ℕ → Bool) (ws : List ℕ)
      → (info.unix_fd w == fd) ≡ false
      → wanted fd (λ v. if v == w then now else enabled v) ws ≡ wanted fd enabled ws
  toggle_other fd w now enabled [] other = refl
  toggle_other fd w now enabled (v ∷ ws) other =
      ground (arith, ==_iff v w, toggle_other fd w now enabled ws other)

-- For a number of milliseconds that is not negative, the seconds and nanoseconds of its timespec
-- make up the same time, and the nanoseconds are fewer than a second has.
msec_to_timespec_lem :
    (msec : ℕ)
    → ((msec_to_timespec msec).sec * 1_000_000_000 + (msec_to_timespec msec).nsec
        ≡ msec * 1_000_000)
      × ((msec_to_timespec msec).nsec < 1_000_000_000)
unfolding msec_to_timespec
msec_to_timespec_lem msec = (omega arith, omega arith)
