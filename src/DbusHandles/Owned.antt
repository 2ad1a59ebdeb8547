-- ===== src/DbusHandles/Owned.antt =====
-- What src/dbus_message_handle.cpp is given it gives back once.
use unity_system_compositor.Prelude.{
  ℕ, zero, suc, ◌+◌, ◌≡◌, refl, Bool, true, false, List, [], ◌∷◌, Option, none, some, ◌==◌,
  if◌then◌else◌, arith,
}
use unity_system_compositor.DbusHandles.{
  Handles, no_handles, hold, hold_with_args, take_from, move, remove_at, unref, drop_handle,
}

abbrev as_one : ℕ → ℕ → ℕ
as_one m n = if m == n then 1 else 0

abbrev held : ℕ → Option ℕ → ℕ
held m none = 0
held m (some n) = as_one m n

-- How many of the handles have the message `m`.
abbrev owners : ℕ → List (Option ℕ) → ℕ
owners m [] = 0
owners m (o ∷ hs) = held m o + owners m hs

abbrev times : ℕ → List ℕ → ℕ
times m [] = 0
times m (n ∷ ns) = as_one m n + times m ns

take_from-owners :
    (m i : ℕ) (hs : List (Option ℕ))
    → held m (take_from i hs).0 + owners m (take_from i hs).1 ≡ owners m hs
unfolding take_from
take_from-owners m i [] = omega arith
take_from-owners m zero (o ∷ hs) = omega arith
take_from-owners m (suc i) (o ∷ hs) = omega (arith, take_from-owners m i hs)

remove_at-owners :
    (m i : ℕ) (hs : List (Option ℕ))
    → held m (remove_at i hs).0 + owners m (remove_at i hs).1 ≡ owners m hs
unfolding remove_at
remove_at-owners m i [] = omega arith
remove_at-owners m zero (o ∷ hs) = omega arith
remove_at-owners m (suc i) (o ∷ hs) = omega (arith, remove_at-owners m i hs)

-- What is done with handles; `true` says that the arguments were appended.
pub data Event : Type 0 where
  holds : Option ℕ → Event
  holds_with_args : Option ℕ → Bool → Event
  moves destroys : ℕ → Event

unfoldable pub run : List Event → Handles → Handles
run [] s = s
run (holds message ∷ es) s = run es (hold message s)
run (holds_with_args message appended ∷ es) s = run es (hold_with_args message appended s)
run (moves i ∷ es) s = run es (move i s)
run (destroys i ∷ es) s = run es (drop_handle i s)

-- How many references to the message `m` the handles are given.
abbrev given : ℕ → List Event → ℕ
given m [] = 0
given m (holds message ∷ es) = held m message + given m es
given m (holds_with_args message appended ∷ es) = held m message + given m es
given m (moves i ∷ es) = given m es
given m (destroys i ∷ es) = given m es

abbrev references : ℕ → Handles → ℕ
references m s = owners m s.handles + times m s.unreffed

hold_with_args-references :
    (m : ℕ) (message : Option ℕ) (appended : Bool) (s : Handles)
    → references m (hold_with_args message appended s) ≡ held m message + references m s
unfolding hold_with_args hold
hold_with_args-references m none appended s = omega arith
hold_with_args-references m (some n) true s = omega arith
hold_with_args-references m (some n) false s = omega arith

unref-times : (m : ℕ) (o : Option ℕ) (ns : List ℕ) → times m (unref o ns) ≡ held m o + times m ns
unref-times m none ns = omega arith
unref-times m (some n) ns = refl

run-references :
    (m : ℕ) (es : List Event) (s : Handles) → references m (run es s) ≡ references m s + given m es
unfolding run hold move drop_handle
run-references m [] s = omega arith
run-references m (holds message ∷ es) s = omega (arith, run-references m es (hold message s))
run-references m (holds_with_args message appended ∷ es) s = omega (
  arith,
  run-references m es (hold_with_args message appended s),
  hold_with_args-references m message appended s,
)
run-references m (moves i ∷ es) s =
    omega (arith, run-references m es (move i s), take_from-owners m i s.handles)
run-references m (destroys i ∷ es) s = omega (
  arith,
  run-references m es (drop_handle i s),
  remove_at-owners m i s.handles,
  unref-times m (remove_at i s.handles).0 s.unreffed,
)

-- Whatever handles are made, with or without arguments that can be appended, moved and destroyed:
-- once none is left, each message has been given back as many times as handles were given it.
run_balanced :
    (m : ℕ) (es : List Event)
    → (run es no_handles).handles ≡ []
    → times m (run es no_handles).unreffed ≡ given m es
unfolding no_handles
run_balanced m es e = ground (arith, run-references m es no_handles)
