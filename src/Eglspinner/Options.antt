-- ===== src/Eglspinner/Options.antt =====
-- The options of `mir_eglapp_init` in spinner/eglapp.cpp. The arguments are those behind the
-- program's name. sscanf of a float is a parameter; redirecting the output is left out.
pub mod Laws
use unity_system_compositor.Prelude.{
  ℕ, suc, ◌+◌, ◌-◌, ◌*◌, ◌%◌, ◌^◌, Bool, true, false, ◌&&◌, List, [], ◌∷◌, Option, none, some, Str,
  str_empty, drop, leb, ltb, ◌==◌, if◌then◌else◌, ◌>>=◌,
}
use unity_system_compositor.Eglspinner.Config.{is_digit, wsfront, digits_value, starts_with_digit}

-- sscanf(arg, "%f", ...), where it reads a number.
pub record Floats (F : Type 0) : Type 0 where
  pub scan_float : Str → Option F

-- What the options set: the global opacity, the swap interval, the socket, and of `surfaceparm` the
-- size and the output.
pub record Params (F : Type 0) : Type 0 where
  pub background_opacity : F
  pub swapinterval : ℕ
  pub mir_socket : Option Str
  pub width : ℕ
  pub height : ℕ
  pub output_id : ℕ

-- The text behind the digits.
unfoldable pub behind_digits : Str → Str
behind_digits [] = []
behind_digits (c ∷ s) = let rest = behind_digits s in if is_digit c then rest else c ∷ s

-- strtoul stops at ULONG_MAX, negates in 64 bits, and `%u` keeps 32 of them.
unfoldable pub unsigned_value : Bool → ℕ → ℕ
unsigned_value negative n =
    if ltb n (2 ^ 64) then (if negative then (2 ^ 64 - n) % 2 ^ 32 else n % 2 ^ 32) else 2 ^ 32 - 1

abbrev scan_digits : Bool → Str → Option (ℕ × Str)
scan_digits negative s =
    if starts_with_digit s
    then some (unsigned_value negative (digits_value 0 s), behind_digits s)
    else none

abbrev scan_signed : Str → Option (ℕ × Str)
scan_signed [] = none
scan_signed (c ∷ s) =
    if c == 45
    then scan_digits true s
    else if c == 43
    then scan_digits false s
    else scan_digits false (c ∷ s)

-- `%u`, with the text behind it.
unfoldable pub scan_unsigned : Str → Option (ℕ × Str)
scan_unsigned s = scan_signed (drop (wsfront s) s)

-- "%ux%u".
abbrev scan_x : ℕ × Str → Option (ℕ × ℕ)
scan_x (w, []) = none
scan_x (w, c ∷ s) = if c == 120 then (scan_unsigned s >>= λ h. some (w, h.0)) else none

unfoldable pub scan_size : Str → Option (ℕ × ℕ)
scan_size s = scan_unsigned s >>= scan_x

-- An option that takes an argument.
pub data Key : Type 0 where
  opacity output size : Key

-- What the loop waits for: the next option, the next argument for an option, or the socket.
pub data Waiting : Type 0 where
  idle socket : Waiting
  argument : Key → Waiting

-- The letters of the options.
abbrev key_of : ℕ → Option Key
key_of c =
    if c == 98
    then some opacity
    else if c == 111
    then some output
    else if c == 115
    then some size
    else none

module _ {F : Type 0} ⦃floats : Floats F⦄ where
  -- An option's argument; `none` where the usage is shown.
  unfoldable pub take_argument : Key → Str → Params F → Option (Params F)
  take_argument opacity arg p =
      floats.scan_float arg >>= λ alpha. some (record p { background_opacity = alpha })
  take_argument output arg p = scan_unsigned arg >>= λ id. some (record p { output_id = id.0 })
  take_argument size arg p = scan_size arg >>= λ wh. some (record p { width = wh.0; height = wh.1 })

  -- An option with an argument: the text attached to it, or the next argument.
  abbrev attached : Key → Str → Params F → Option (Waiting × Params F)
  attached key [] p = some (argument key, p)
  attached key (c ∷ s) p = take_argument key (c ∷ s) p >>= λ q. some (idle, q)

  abbrev by_letter : ℕ → Str → Params F → Option (Waiting × Params F)
  by_letter c rest p = elim (key_of c) [
    | some key ↦ attached key rest p
    | none ↦
        if c == 110
        then some (idle, record p { swapinterval = 0 })
        else if c == 109
        then some (socket, p)
        else if c == 113
        then some (idle, p)
        else none
  ]

  -- The switch: `none` where the usage is shown.
  unfoldable pub option : Str → Params F → Option (Waiting × Params F)
  option [] p = none
  option (dash ∷ []) p = none
  option (dash ∷ c ∷ rest) p = if dash == 45 then by_letter c rest p else none

  -- An option that is the last argument is read with an empty text, and a socket that is not there is
  -- the null pointer.
  unfoldable pub at_end : Waiting → Params F → Option (Params F)
  at_end idle p = some p
  at_end socket p = some (record p { mir_socket = none })
  at_end (argument key) p = take_argument key [] p

  -- The loop over the arguments.
  unfoldable pub options : List Str → Waiting → Params F → Option (Params F)
  options [] w p = at_end w p
  options (arg ∷ args) idle p = option arg p >>= λ r. options args r.0 r.1
  options (arg ∷ args) socket p = options args idle (record p { mir_socket = some arg })
  options (arg ∷ args) (argument key) p = take_argument key arg p >>= λ q. options args idle q
