-- ===== src/Eglspinner/Config/File.antt =====
-- The configuration file of spinner/eglspinner.cpp: what was written into it is read back.
use unity_system_compositor.Prelude.{
  ℕ, suc, ◌≡◌, ◌≢◌, refl, ap, ◌∙◌, List, [], ◌∷◌, ◌++◌, Option, none, some, Str, str_eq, str_eq_iff,
  length, drop, if◌then◌else◌, arith, All, take-append,
}
use unity_system_compositor.Prelude.Map
use unity_system_compositor.Prelude.Map.{str_key}
use unity_system_compositor.Eglspinner.Config.{
  separator, parse_key_value_pair, lines, insert_new, insert_lines, parse_session_conf_file,
  get_string, pair_at, or_default,
}
use unity_system_compositor.Eglspinner.Config.Trim.{IsBlank, IsTrimmed, trim-append}

-- A line of the file, with the spaces around its key and its value.
pub record Entry : Type 0 where
  pub before_key : Str
  pub key : Str
  pub after_key : Str
  pub before_value : Str
  pub value : Str
  pub after_value : Str

abbrev left : Entry → Str
left e = e.before_key ++ (e.key ++ e.after_key)

abbrev right : Entry → Str
right e = e.before_value ++ (e.value ++ e.after_value)

abbrev line : Entry → Str
line e = left e ++ 61 ∷ right e

abbrev IsWithout : ℕ → Str → Type 0
IsWithout c = All (λ d. d ≢ c)

-- What can be written: no newline, and no equals sign in front of the one that ends the key.
pub record IsWritable (e : Entry) : Type 0 where
  pub key_trimmed : IsTrimmed e.key
  pub value_trimmed : IsTrimmed e.value
  pub blank_before_key : IsBlank e.before_key
  pub blank_after_key : IsBlank e.after_key
  pub blank_before_value : IsBlank e.before_value
  pub blank_after_value : IsBlank e.after_value
  pub one_line : IsWithout 10 (line e)
  pub no_equals : IsWithout 61 (left e)

abbrev pub file : List Entry → Str
file [] = []
file (e ∷ es) = line e ++ 10 ∷ file es

-- The value of the first line with the key.
abbrev pub first_value : Str → List Entry → Option Str
first_value key [] = none
first_value key (e ∷ es) = if str_eq e.key key then some e.value else first_value key es

lines-append : (l rest : Str) → IsWithout 10 l → lines (l ++ 10 ∷ rest) ≡ l ∷ lines rest
unfolding lines
lines-append [] rest w = refl
lines-append (c ∷ l) rest w = ground (arith, lines-append l rest w.1, w.0)

separator-append : (l v : Str) → IsWithout 61 l → separator (l ++ 61 ∷ v) ≡ some (length l)
unfolding separator
separator-append [] v w = refl
separator-append (c ∷ l) v w = ground (arith, separator-append l v w.1, w.0)

drop-suc : (l v : Str) → drop (suc (length l)) (l ++ 61 ∷ v) ≡ v
drop-suc [] v = refl
drop-suc (c ∷ l) v = drop-suc l v

parse_key_value_pair-line :
    (e : Entry) → IsWritable e → parse_key_value_pair (line e) ≡ (e.key, e.value)
unfolding parse_key_value_pair
parse_key_value_pair-line e w =
    ap (λ o. pair_at o (line e)) (separator-append (left e) (right e) w.no_equals)
    ∙ rw
        (
          take-append (left e) (61 ∷ right e),
          drop-suc (left e) (right e),
          trim-append e.before_key e.key e.after_key w.blank_before_key w.blank_after_key
              w.key_trimmed,
          trim-append e.before_value e.value e.after_value w.blank_before_value w.blank_after_value
              w.value_trimmed,
        )
        refl

abbrev or_else : Option Str → Option Str → Option Str
or_else none o = o
or_else (some v) o = some v

find-insert_new :
    (k v j : Str) (m : List (Str × Str))
    → Map.find j (insert_new (k, v) m)
      ≡ or_else (Map.find j m) (if str_eq k j then some v else none)
unfolding insert_new
find-insert_new k v j m = ground (arith, Map.find-insert k j v m, str_eq_iff k j)

find-insert_lines :
    (es : List Entry) (j : Str) (m : List (Str × Str))
    → All IsWritable es
    → Map.find j (insert_lines (lines (file es)) m) ≡ or_else (Map.find j m) (first_value j es)
unfolding insert_lines lines
find-insert_lines [] j m w = ground arith
find-insert_lines (e ∷ es) j m w =
    ap (λ ls. Map.find j (insert_lines ls m)) (lines-append (line e) (file es) w.0.one_line)
    ∙ ap (λ p. Map.find j (insert_lines (lines (file es)) (insert_new p m)))
        (parse_key_value_pair-line e w.0)
    ∙ find-insert_lines es j (insert_new (e.key, e.value) m) w.1
    ∙ (ground (arith, find-insert_new e.key e.value j m))

-- A file of lines with a key, an equals sign and a value, each with any spaces around it, gives for
-- a key the value of the first line that has it, without the spaces, and the default value if none
-- has it.
pub get_string-file :
    (es : List Entry) (key default_value : Str)
    → All IsWritable es
    → get_string key default_value (parse_session_conf_file (file es))
      ≡ or_default (first_value key es) default_value
unfolding get_string parse_session_conf_file Map.find
get_string-file es key default_value w =
    ap (λ o. or_default o default_value) (find-insert_lines es key [] w)
