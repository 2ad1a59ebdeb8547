-- ===== src/EventLoop/Tests.antt =====
-- The theorems about src/dbus_event_loop.cpp at concrete inputs.
use unity_system_compositor.Prelude.{
  ◌≢◌, ℕ, ◌+◌, ◌≡◌, refl, Bool, true, false, List, [], ◌∷◌, Option, none, some, arith, ◌==◌,
  if◌then◌else◌,
}
use unity_system_compositor.EventLoop.{Events, Epoll, Watches, init}
use unity_system_compositor.EventLoop.Watching.{
  IsEpoll, IsWaiting, Event, adds, removes, toggles, run, run-init-IsWaiting,
}

-- An epoll set is what it has for each descriptor. Nothing fails but what is documented to.
abbrev Set : Type 0
Set = ℕ → Option Events

abbrev put : ℕ → Option Events → Set → Set
put fd o e g = if fd == g then o else e g

abbrev has : Option Events → Bool
has none = false
has (some ev) = true

instance abbrev epoll : Epoll Set
epoll = record {
  ctl_add = λ fd ev e. if has (e fd) then (e, true) else (put fd (some ev) e, false);
  ctl_mod = λ fd ev e. if has (e fd) then (put fd (some ev) e, false) else (e, true);
  ctl_del = λ fd e. (put fd none e, false);
}

set_added :
    (fd g : ℕ) (ev : Events) (e : Set)
    → (epoll.ctl_add fd ev e).1 ≡ false
    → (epoll.ctl_add fd ev e).0 g ≡ (if fd == g then some ev else e g)
set_added fd g ev e taken = ground arith

set_not_added :
    (fd g : ℕ) (ev : Events) (e : Set)
    → (epoll.ctl_add fd ev e).1 ≡ true
    → (epoll.ctl_add fd ev e).0 g ≡ e g
set_not_added fd g ev e failed = ground arith

set_modified :
    (fd g : ℕ) (ev : Events) (e : Set)
    → e fd ≢ none
    → (epoll.ctl_mod fd ev e).0 g ≡ (if fd == g then some ev else e g)
set_modified fd g ev e present = ground arith

set_not_modified :
    (fd g : ℕ) (ev : Events) (e : Set) → e fd ≡ none → (epoll.ctl_mod fd ev e).0 g ≡ e g
set_not_modified fd g ev e absent = ground arith

abbrev kernel : IsEpoll epoll
kernel = record {
  interest = λ e fd. e fd;
  added = set_added;
  not_added = set_not_added;
  modified = set_modified;
  not_modified = set_not_modified;
  deleted = λ fd g e. refl;
}

-- The descriptors of the watches start at 10.
instance abbrev info : Watches
info = record { unix_fd = λ w. w + 10; wants_readable = λ w. true; wants_writable = λ w. w == 2 }

-- The descriptor that wakes the loop up is 3.
abbrev start : Set
start fd =
    if fd == 3
    then some (record { epollin = true; epollout = false; epollhup = false; epollerr = false })
    else none

abbrev events : List Event
events = adds 1 ∷ adds 2 ∷ toggles 1 false ∷ removes 2 ∷ toggles 1 true ∷ []

run-init-IsWaiting_example : IsWaiting kernel start (run events (init start (λ w. true)))
run-init-IsWaiting_example = run-init-IsWaiting kernel start events (λ w. true) (λ w. ground arith)

-- An action adds its number to the world, and 5 enqueues 6.
abbrev act : ℕ → ℕ → ℕ × List ℕ
act a w = (w + a, if a == 5 then 6 ∷ [] else [])
