-- ===== src/Eglspinner/Paint.antt =====
-- What spinner/eglspinner.cpp draws: how the picture is turned, and which dots are lit. Drawing
-- itself is left out.
use unity_system_compositor.Prelude.{
  ℕ, ◌/◌, ◌%◌, ◌^◌, ◌≤◌, ◌<◌, ◌≡◌, refl, ◌⊎◌, Bool, true, false, not, ◌||◌, Str, str_eq, str_eq_iff,
  bytes, ltb, ◌==◌, if◌then◌else◌, arith,
}

-- In degrees.
rotation : Str → ℕ → ℕ → ℕ
rotation native_orientation width height =
    if ltb width height
    then (if str_eq native_orientation (bytes "landscape")
        then 90
        else if str_eq native_orientation (bytes "inverted_landscape")
        then 270
        else 0)
    else if ltb height width
    then (if str_eq native_orientation (bytes "portrait")
        then 90
        else if str_eq native_orientation (bytes "inverted_portrait")
        then 270
        else 0)
    else 0

-- `render_width` and `render_height`.
render_size : Str → ℕ → ℕ → ℕ × ℕ
render_size native_orientation width height =
    let turn = rotation native_orientation width height in
    if turn == 90 || turn == 270 then (height, width) else (width, height)

-- `sequence[counter%6]`.
unfoldable pub dot_mask : ℕ → ℕ
dot_mask counter =
    let i = counter % 6 in
    if i == 0
    then 0
    else if i == 1
    then 1
    else if i == 2
    then 3
    else if i == 3
    then 7
    else if i == 4
    then 15
    else 31

-- `anim.dot_mask >> (i + 2)`, for the dots 0 to 4.
pub is_orange : ℕ → ℕ → Bool
is_orange mask dot = not (mask / 2 ^ dot == 0)

abbrev is_one_of : Str → Str → Str → Bool
is_one_of s a b = str_eq s a || str_eq s b

distinct : (s a b : Str) → str_eq a b ≡ false → str_eq s a ≡ true → str_eq s b ≡ false
distinct s a b apart same = ground (arith, str_eq_iff s a, str_eq_iff s b, str_eq_iff a b)

-- The picture has the size of the surface or that size turned. It is at least as wide as high if
-- the native orientation is a landscape, at least as high as wide if it is a portrait, and it is
-- not turned if it is neither.
render_size_lem :
    (native_orientation : Str) (width height : ℕ)
    → ((render_size native_orientation width height ≡ (width, height))
        ⊎ (render_size native_orientation width height ≡ (height, width)))
      × (is_one_of native_orientation (bytes "landscape") (bytes "inverted_landscape") ≡ true
          → (render_size native_orientation width height).1
            ≤ (render_size native_orientation width height).0)
      × (is_one_of native_orientation (bytes "portrait") (bytes "inverted_portrait") ≡ true
          → (render_size native_orientation width height).0
            ≤ (render_size native_orientation width height).1)
      × (is_one_of native_orientation (bytes "landscape") (bytes "inverted_landscape") ≡ false
          → is_one_of native_orientation (bytes "portrait") (bytes "inverted_portrait") ≡ false
          → render_size native_orientation width height ≡ (width, height))
unfolding render_size rotation
render_size_lem native_orientation width height = (
  ground arith,
  (λ h. ground (
    arith,
    distinct native_orientation (bytes "landscape") (bytes "portrait") (unfold str_eq in refl),
    distinct native_orientation (bytes "landscape") (bytes "inverted_portrait")
        (unfold str_eq in refl),
    distinct native_orientation (bytes "inverted_landscape") (bytes "portrait")
        (unfold str_eq in refl),
    distinct native_orientation (bytes "inverted_landscape") (bytes "inverted_portrait")
        (unfold str_eq in refl),
  )),
  (λ h. ground (
    arith,
    distinct native_orientation (bytes "portrait") (bytes "landscape") (unfold str_eq in refl),
    distinct native_orientation (bytes "portrait") (bytes "inverted_landscape")
        (unfold str_eq in refl),
    distinct native_orientation (bytes "inverted_portrait") (bytes "landscape")
        (unfold str_eq in refl),
    distinct native_orientation (bytes "inverted_portrait") (bytes "inverted_landscape")
        (unfold str_eq in refl),
  )),
  (λ h k. ground arith),
)

small_cases : (dot : ℕ) → dot < 5 → (dot ≡ 0) ⊎ (dot ≡ 1) ⊎ (dot ≡ 2) ⊎ (dot ≡ 3) ⊎ (dot ≡ 4)
small_cases dot h = ground arith

-- Of the five dots as many are orange, from the first on, as the counter is past a multiple of 6.
pub is_orange-dot_mask :
    (counter dot : ℕ) → dot < 5 → is_orange (dot_mask counter) dot ≡ ltb dot (counter % 6)
unfolding is_orange dot_mask
is_orange-dot_mask counter dot h = ground (arith, small_cases dot h)
