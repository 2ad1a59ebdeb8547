-- ===== src/DbusHandles.antt =====
-- src/dbus_message_handle.cpp: who owns a message of libdbus, known by its address, and when it is given
-- back.
pub mod Owned
pub mod Connections
mod Tests
use unity_system_compositor.Prelude.{
  ℕ, zero, suc, Bool, true, false, List, [], ◌∷◌, Option, none, some, if◌then◌else◌,
}

-- The DBusMessageHandles that live, each with its message or a null pointer, and the messages that
-- dbus_message_unref was called on, the last one first.
pub record Handles : Type 0 where
  pub handles : List (Option ℕ)
  pub unreffed : List ℕ

pub no_handles : Handles
no_handles = record { handles = []; unreffed = [] }

-- The constructor from a message alone.
pub hold : Option ℕ → Handles → Handles
hold message s = record s { handles = message ∷ s.handles }

-- The constructors that append arguments; where they throw no handle is made.
pub hold_with_args : Option ℕ → Bool → Handles → Handles
hold_with_args none appended s = s
hold_with_args (some message) appended s =
    if appended then hold (some message) s else record s { unreffed = message ∷ s.unreffed }

-- The message of the handle at a place, which is left with a null pointer.
pub take_from : ℕ → List (Option ℕ) → Option ℕ × List (Option ℕ)
take_from i [] = (none, [])
take_from zero (message ∷ rest) = (message, none ∷ rest)
take_from (suc i) (message ∷ rest) = let (taken, left) = take_from i rest in (taken, message ∷ left)

-- The move constructor.
pub move : ℕ → Handles → Handles
move i s = let (taken, left) = take_from i s.handles in record s { handles = taken ∷ left }

pub remove_at : ℕ → List (Option ℕ) → Option ℕ × List (Option ℕ)
remove_at i [] = (none, [])
remove_at zero (message ∷ rest) = (message, rest)
remove_at (suc i) (message ∷ rest) =
    let (removed, left) = remove_at i rest in (removed, message ∷ left)

abbrev pub unref : Option ℕ → List ℕ → List ℕ
unref none unreffed = unreffed
unref (some message) unreffed = message ∷ unreffed

-- The destructor of the handle at a place.
pub drop_handle : ℕ → Handles → Handles
drop_handle i s =
    let (removed, left) = remove_at i s.handles in
    record { handles = left; unreffed = unref removed s.unreffed }
