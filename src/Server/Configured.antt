-- ===== src/Server/Configured.antt =====
-- The constructor of src/server.cpp and src/display_configuration_policy.cpp: the options that are
-- declared, and what is put in the place of Mir's own parts. Which of the two cursor listeners and of
-- the three layouts is used depends on the options' values.
pub mod Listener
use unity_system_compositor.Prelude.{
  zero, suc, length, ℕ, Bool, true, false, ◌||◌, List, [], ◌∷◌, ◌++◌, Option, none, some, Str,
  str_eq, bytes, ◌≡◌, refl, if◌then◌else◌,
}
use unity_system_compositor.Server.{Outcome, done, thrown}

-- An option's type; `with_default` is a text.
pub data OptionType : Type 0 where
  integer flag string boolean : OptionType
  with_default : Str → OptionType

abbrev Declared : Type 0
Declared = List (Str × OptionType)

add_configuration_option : Str → OptionType → Declared → Declared
add_configuration_option name type os = os ++ (name, type) ∷ []

add_display_configuration_options_to : Declared → Declared
add_display_configuration_options_to os =
    add_configuration_option (bytes "display-config") (with_default (bytes "sidebyside")) os

declare_options : Declared → Declared
declare_options os =
    let os1 = add_configuration_option (bytes "from-dm-fd") integer os in
    let os2 = add_configuration_option (bytes "to-dm-fd") integer os1 in
    let os3 = add_configuration_option (bytes "debug-without-dm") flag os2 in
    let os4 =
      add_configuration_option (bytes "debug-active-session-name")
        (with_default (bytes "nested-mir@:/run/user/1000/mir_socket")) os3 in
    let os5 = add_configuration_option (bytes "blacklist") string os4 in
    let os6 = add_configuration_option (bytes "version") flag os5 in
    let os7 = add_configuration_option (bytes "spinner") string os6 in
    let os8 = add_configuration_option (bytes "public-socket") boolean os7 in
    let os9 = add_configuration_option (bytes "enable-hardware-cursor") boolean os8 in
    add_display_configuration_options_to os9

abbrev is_declared : Str → Declared → Bool
is_declared name [] = false
is_declared name ((other, type) ∷ os) = str_eq other name || is_declared name os

-- The options that src/server.h and src/server.cpp read have been declared, but for Mir's own.
read_options_declared :
    (is_declared (bytes "from-dm-fd") (declare_options []) ≡ true)
    × (is_declared (bytes "to-dm-fd") (declare_options []) ≡ true)
    × (is_declared (bytes "debug-without-dm") (declare_options []) ≡ true)
    × (is_declared (bytes "debug-active-session-name") (declare_options []) ≡ true)
    × (is_declared (bytes "blacklist") (declare_options []) ≡ true)
    × (is_declared (bytes "version") (declare_options []) ≡ true)
    × (is_declared (bytes "spinner") (declare_options []) ≡ true)
    × (is_declared (bytes "public-socket") (declare_options []) ≡ true)
    × (is_declared (bytes "enable-hardware-cursor") (declare_options []) ≡ true)
    × (is_declared (bytes "display-config") (declare_options []) ≡ true)
unfolding declare_options add_configuration_option add_display_configuration_options_to str_eq
read_options_declared = (refl, refl, refl, refl, refl, refl, refl, refl, refl, refl)

-- The cursor listener: Mir's own, or the one that does nothing.
wrap_cursor_listener {ℓ} : {L : Type ℓ} → Option Bool → L → L → L
wrap_cursor_listener none null_listener default = null_listener
wrap_cursor_listener (some enable_hardware_cursor) null_listener default =
    if enable_hardware_cursor then default else null_listener

-- The layout that the option names, `wrapped` for any other name, so also for clone.
layout_selector {ℓ} : {P : Type ℓ} → Str → P → P → P → P
layout_selector display_layout wrapped side_by_side single =
    if str_eq display_layout (bytes "sidebyside")
    then side_by_side
    else if str_eq display_layout (bytes "single")
    then single
    else wrapped

-- A cookie that holds nothing; the authority makes it of a time stamp and of a raw cookie alike.
pub data StubCookie : Type 0 where
  stub_cookie : StubCookie

make_cookie {ℓ} : {A : Type ℓ} → A → StubCookie
make_cookie from = stub_cookie

timestamp : StubCookie → ℕ
timestamp stub_cookie = 0

abbrev zeros : ℕ → List ℕ
zeros zero = []
zeros (suc n) = 0 ∷ zeros n

serialize : StubCookie → List ℕ
serialize stub_cookie = zeros 29

-- Two cookies cannot be told apart, and each has the size that Mir's blobs have.
cookies_alike :
    (a b : ℕ) (raw : List ℕ)
    → (serialize (make_cookie a) ≡ serialize (make_cookie raw))
      × (timestamp (make_cookie a) ≡ timestamp (make_cookie b))
      × (length (serialize (make_cookie a)) ≡ 29)
unfolding make_cookie timestamp serialize
cookies_alike a b raw = (refl, refl, refl)

-- The program's exit code.
exit_code : Outcome → ℕ
exit_code (done h) = 0
exit_code (thrown h) = 1
