-- ===== src/MirEgl/Rules.antt =====
-- The resources that spinner/miregl.cpp acquires and gives back, and the surface that is current.
use unity_system_compositor.Prelude.{ℕ, ◌+◌, Bool, true, false, [], ◌∷◌, ◌==◌}
use unity_system_compositor.MirEgl.{
  Resource, connection, display, context, surface, window, acquired, released, bound, unbound,
  interval_set, drawn, swapped, fullscreen, Calls,
}

-- One resource, by its kind and its handle.
pub same : Resource → Resource → Bool
same connection connection = true
same display display = true
same (context a) (context b) = a == b
same (surface a) (surface b) = a == b
same (window a) (window b) = a == b
same r s = false

abbrev pub one : Bool → ℕ
one true = 1
one false = 0

-- How often a resource has been acquired, and given back.
abbrev pub taken : Resource → Calls → ℕ
taken r [] = 0
taken r (acquired s ∷ h) = one (same s r) + taken r h
taken r (released s ∷ h) = taken r h
taken r (c ∷ h) = taken r h

abbrev pub given : Resource → Calls → ℕ
given r [] = 0
given r (released s ∷ h) = one (same s r) + given r h
given r (acquired s ∷ h) = given r h
given r (c ∷ h) = given r h

-- The surface that the last eglMakeCurrent made current, 0 if there is none.
abbrev pub current : Calls → ℕ
current [] = 0
current (bound s ∷ h) = s
current (unbound ∷ h) = 0
current (acquired r ∷ h) = current h
current (released r ∷ h) = current h
current (interval_set n ∷ h) = current h
current (drawn d ∷ h) = current h
current (swapped s ∷ h) = current h
current (fullscreen w ∷ h) = current h
