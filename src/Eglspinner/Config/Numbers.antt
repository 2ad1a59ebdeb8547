-- ===== src/Eglspinner/Config/Numbers.antt =====
-- The numbers of the configuration file of spinner/eglspinner.cpp.
use unity_system_compositor.Prelude.{
  ◌≡◌, inl, inr, Bool, true, false, List, [], ◌∷◌, Option, none, some, Str, arith, ◌>>=◌,
  Option-cases, drop,
}
use unity_system_compositor.Prelude.Int.{ℤ, pos, negsuc, ◌≤ℤ◌}
use unity_system_compositor.Prelude.Map
use unity_system_compositor.Prelude.Map.{str_key}
use unity_system_compositor.Eglspinner.Config.{
  magnitude, stoi, get_int, signed, or_default, wsfront,
}

-- The range of an int.
abbrev IsInt : ℤ → Type 0
IsInt n = (negsuc 2_147_483_647 ≤ℤ n) × (n ≤ℤ pos 2_147_483_647)

magnitude-IsInt : (negative : Bool) (s : Str) (n : ℤ) → magnitude negative s ≡ some n → IsInt n
unfolding magnitude
magnitude-IsInt negative s n e = ground arith

signed-IsInt : (s : Str) (n : ℤ) → signed s ≡ some n → IsInt n
signed-IsInt [] n e = cc
signed-IsInt (c ∷ s) n e =
    ground
      (arith, magnitude-IsInt true s n, magnitude-IsInt false s n, magnitude-IsInt false (c ∷ s) n)

or_default-IsInt :
    (o : Option Str) (default_value : ℤ)
    → IsInt default_value
    → IsInt (or_default (o >>= stoi) default_value)
unfolding stoi
or_default-IsInt none default_value d = d
or_default-IsInt (some s) default_value d = elim (Option-cases (signed (drop (wsfront s) s))) [
  | inl e ↦ rw e d
  | inr (n, e) ↦ rw e (signed-IsInt (drop (wsfront s) s) n e)
]

-- A number that is read from the file, or the default value that stands for it, is one that an int
-- holds, whatever the file says, if the default value is one.
get_int-IsInt :
    (key : Str) (default_value : ℤ) (conf_map : List (Str × Str))
    → IsInt default_value
    → IsInt (get_int key default_value conf_map)
unfolding get_int
get_int-IsInt key default_value conf_map d =
    or_default-IsInt (Map.find key conf_map) default_value d
