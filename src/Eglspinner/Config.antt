-- ===== src/Eglspinner/Config.antt =====
-- `SessionConfig` of spinner/eglspinner.cpp: the session's configuration file. Its contents are
-- given; which file is opened is left out.
pub mod Trim
pub mod Numbers
pub mod File
use unity_system_compositor.Prelude.{
  ℕ, zero, suc, ◌+◌, ◌-◌, ◌*◌, ◌^◌, Bool, true, false, ◌&&◌, ◌||◌, List, [], ◌∷◌, Option, none,
  some, Str, length, take, drop, leb, ltb, ◌==◌, if◌then◌else◌, ◌>>=◌,
}
use unity_system_compositor.Prelude.Int.{ℤ, pos, sub_ℕ}
use unity_system_compositor.Prelude.Map
use unity_system_compositor.Prelude.Map.{str_key}

-- std::isspace in the C locale.
abbrev pub is_space : ℕ → Bool
is_space c = c == 32 || leb 9 c && leb c 13

-- The first position that holds no space, and the position behind the last one, which is 0 if there
-- is none.
unfoldable pub wsfront : Str → ℕ
wsfront [] = 0
wsfront (c ∷ s) = let rest = wsfront s in if is_space c then suc rest else 0

unfoldable pub wsback : Str → ℕ
wsback [] = 0
wsback (c ∷ s) = let rest = wsback s in if rest == 0 && is_space c then 0 else suc rest

pub trim : Str → Str
trim s = if leb (wsback s) (wsfront s) then [] else take (wsback s - wsfront s) (drop (wsfront s) s)

-- kv.find("=").
pub separator : Str → Option ℕ
separator [] = none
separator (c ∷ s) = let rest = separator s in if c == 61 then some 0 else rest >>= λ i. some (suc i)

abbrev pub pair_at : Option ℕ → Str → Str × Str
pair_at none kv = (trim kv, trim [])
pair_at (some i) kv = (trim (take i kv), trim (drop (suc i) kv))

pub parse_key_value_pair : Str → Str × Str
parse_key_value_pair kv = pair_at (separator kv) kv

-- The lines that std::getline gives: the newlines end them.
abbrev add_to_line : ℕ → List Str → List Str
add_to_line c [] = (c ∷ []) ∷ []
add_to_line c (line ∷ rest) = (c ∷ line) ∷ rest

pub lines : Str → List Str
lines [] = []
lines (c ∷ s) = let rest = lines s in if c == 10 then [] ∷ rest else add_to_line c rest

-- std::map::insert: a key that is there keeps its value.
pub insert_new : Str × Str → List (Str × Str) → List (Str × Str)
insert_new (key, value) conf_map = elim (Map.find key conf_map) [
  | none ↦ Map.insert key value conf_map
  | some old ↦ conf_map
]

-- The loop of `parse_session_conf_file`.
pub insert_lines : List Str → List (Str × Str) → List (Str × Str)
insert_lines [] conf_map = conf_map
insert_lines (line ∷ rest) conf_map =
    insert_lines rest (insert_new (parse_key_value_pair line) conf_map)

pub parse_session_conf_file : Str → List (Str × Str)
parse_session_conf_file contents = insert_lines (lines contents) []

abbrev pub or_default {ℓ} : {A : Type ℓ} → Option A → A → A
or_default none default_value = default_value
or_default (some value) default_value = value

pub get_string : Str → Str → List (Str × Str) → Str
get_string key default_value conf_map = or_default (Map.find key conf_map) default_value

-- std::stoi: spaces, a sign, digits; `none` where it throws, for want of a digit or for a number that
-- an int does not hold.
abbrev pub is_digit : ℕ → Bool
is_digit c = leb 48 c && leb c 57

unfoldable pub digits_value : ℕ → Str → ℕ
digits_value acc [] = acc
digits_value acc (c ∷ s) =
    let rest = digits_value (acc * 10 + (c - 48)) s in if is_digit c then rest else acc

abbrev pub starts_with_digit : Str → Bool
starts_with_digit [] = false
starts_with_digit (c ∷ s) = is_digit c

pub magnitude : Bool → Str → Option ℤ
magnitude negative s =
    let n = digits_value 0 s in
    if starts_with_digit s
    then (if negative
        then (if leb n (2 ^ 31) then some (sub_ℕ 0 n) else none)
        else if ltb n (2 ^ 31)
        then some (pos n)
        else none)
    else none

abbrev signed : Str → Option ℤ
signed [] = none
signed (c ∷ s) =
    if c == 45
    then magnitude true s
    else if c == 43
    then magnitude false s
    else magnitude false (c ∷ s)

pub stoi : Str → Option ℤ
stoi s = signed (drop (wsfront s) s)

pub get_int : Str → ℤ → List (Str × Str) → ℤ
get_int key default_value conf_map = or_default (Map.find key conf_map >>= stoi) default_value
