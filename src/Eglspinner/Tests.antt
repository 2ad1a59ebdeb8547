-- ===== src/Eglspinner/Tests.antt =====
-- The theorems about the spinner program at concrete inputs.
use unity_system_compositor.Prelude.{
  ℕ, ◌≡◌, ◌≢◌, refl, ◌⊎◌, true, [], ◌∷◌, none, some, Str, bytes, arith,
}
use unity_system_compositor.Eglspinner.Config.{
  or_default, get_string, parse_session_conf_file, wsfront, wsback, digits_value,
}
use unity_system_compositor.Eglspinner.Config.File.{
  Entry, IsWritable, file, first_value, get_string-file,
}
use unity_system_compositor.Eglspinner.Options.{
  Floats, Params, idle, options, option, take_argument, scan_size, scan_unsigned, unsigned_value,
  behind_digits, at_end,
}
use unity_system_compositor.Eglspinner.Options.Laws.{IsUnsigned}
use unity_system_compositor.Eglspinner.Surfaces.{Output, make_surface, surfaces}
use unity_system_compositor.Eglspinner.Surfaces.Made.{fullscreen, size_of, sized, surfaces_lem}

abbrev orientation : Entry
orientation = record {
  before_key = bytes " ";
  key = bytes "k";
  after_key = [];
  before_value = bytes " ";
  value = bytes "v";
  after_value = [];
}

orientation-IsWritable : IsWritable orientation
unfolding wsfront wsback
orientation-IsWritable = record {
  key_trimmed = record { front = refl; back = refl };
  value_trimmed = record { front = refl; back = refl };
  blank_before_key = (refl, tt);
  blank_after_key = tt;
  blank_before_value = (refl, tt);
  blank_after_value = tt;
  one_line = ground arith;
  no_equals = ground arith;
}

get_string-file_example :
    get_string (bytes "k") (bytes "d") (parse_session_conf_file (file (orientation ∷ [])))
    ≡ or_default (first_value (bytes "k") (orientation ∷ [])) (bytes "d")
get_string-file_example =
    get_string-file (orientation ∷ []) (bytes "k") (bytes "d") (orientation-IsWritable, tt)

-- Floats are read as a mark of their length.
instance abbrev floats : Floats Str
floats = record { scan_float = λ s. some s }

abbrev start : Params Str
start = record {
  background_opacity = bytes "1";
  swapinterval = 1;
  mir_socket = none;
  width = 0;
  height = 0;
  output_id = 9;
}

-- The code itself, run: an output whose number is read in 32 bits.
sized_64 :
    options (bytes "-s64x32" ∷ []) idle start ≡ some (record start { width = 64; height = 32 })
unfolding options option take_argument scan_size scan_unsigned unsigned_value behind_digits wsfront
    digits_value at_end
sized_64 = refl

abbrev read : Params Str
read = record start { width = 64; height = 32 }

start-IsUnsigned : IsUnsigned start
start-IsUnsigned = record {
  width_fits = omega arith;
  height_fits = omega arith;
  output_fits = omega arith;
}

abbrev screen : ℕ → Output
screen id = record {
  id = id;
  enabled = true;
  connected = true;
  num_modes = 2;
  current_mode = some (1920, 1080);
}

surfaces_lem_example :
    ((start.width ≢ 0)
      × (start.height ≢ 0)
      × (surfaces 9 start (screen 3 ∷ []) ≡ some (make_surface start ∷ [])))
    ⊎ (((start.width ≡ 0) ⊎ (start.height ≡ 0))
        × (start.output_id ≢ 9)
        × (surfaces 9 start (screen 3 ∷ [])
            ≡ some (make_surface (sized (size_of 9 (screen 3 ∷ []) (0, 0)) start) ∷ [])))
    ⊎ (((start.width ≡ 0) ⊎ (start.height ≡ 0))
        × (start.output_id ≡ 9)
        × (((fullscreen 1 (screen 3 ∷ []) ≡ []) × (surfaces 9 start (screen 3 ∷ []) ≡ none))
            ⊎ ((fullscreen 1 (screen 3 ∷ []) ≢ [])
                × (surfaces 9 start (screen 3 ∷ []) ≡ some (fullscreen 1 (screen 3 ∷ []))))))
surfaces_lem_example = surfaces_lem 9 start (screen 3 ∷ [])

abbrev turned : Str
turned = bytes "landscape"
