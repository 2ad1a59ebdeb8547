-- ===== src/MirEgl/App.antt =====
-- The constructor of spinner/miregl.cpp's MirEglApp, however it ends.
use unity_system_compositor.Prelude.{
  ℕ, ◌*◌, ◌==◌, ◌≡◌, refl, ap, inl, inr, Bool, true, false, ◌&&◌, [], ◌∷◌, ◌++◌, Option, none, some,
  if◌then◌else◌, Bool-cases,
}
use unity_system_compositor.MirEgl.{
  display, context, surface, acquired, bound, Calls, Egl, MirEglApp, check_version, check_config,
  has_surfaceless, make_current, open_display, create_context, supports_surfaceless_context,
  create_pbuffer, make_mir_eglapp,
}
use unity_system_compositor.Outcome.{then_do, pure}
use unity_system_compositor.Outcome.Endings.{
  Ending, Ends, then_do-Ends, require-Ends, unless_zero-Ends,
}

-- What an application has acquired, the last first.
abbrev pub app_calls : MirEglApp → Calls
app_calls app =
    (if app.dummy_surface == 0 then [] else acquired (surface app.dummy_surface) ∷ [])
    ++ acquired (context app.eglctx) ∷ acquired display ∷ []

-- What a constructor that throws has acquired.
pub data IsLeft (h : Calls) : Calls → Type 0 where
  no_display : IsLeft h h
  only_display : IsLeft h (acquired display ∷ h)
  with_context : (ctx : ℕ) → IsLeft h (acquired (context ctx) ∷ acquired display ∷ h)
  with_surface :
      (s ctx : ℕ) → IsLeft h (acquired (surface s) ∷ acquired (context ctx) ∷ acquired display ∷ h)

check_version-Ends :
    (version : Option (ℕ × ℕ)) (h : Calls)
    → Ends (λ u g. g ≡ acquired display ∷ h) (λ x g. IsLeft h g) (check_version version h)
check_version-Ends none h = record { ending = no_display }
check_version-Ends (some (major, minor)) h = elim (Bool-cases ((major == 1) && (minor == 4))) [
  | inl known ↦ rw known (record { ending = refl })
  | inr other ↦ rw other (record { ending = only_display })
]

check_config-Ends :
    (count : Option ℕ) (h : Calls)
    → Ends
        (λ u g. g ≡ acquired display ∷ h)
        (λ x g. IsLeft h g)
        (check_config count (acquired display ∷ h))
check_config-Ends none h = record { ending = only_display }
check_config-Ends (some n) h = elim (Bool-cases (n == 0)) [
  | inl no_config ↦ rw no_config (record { ending = only_display })
  | inr config ↦ rw config (record { ending = refl })
]

module _ (egl : Egl) where
  open_display-Ends :
      (pixel_format : ℕ) (h : Calls)
      → Ends (λ u g. g ≡ acquired display ∷ h) (λ x g. IsLeft h g) (open_display egl pixel_format h)
  unfolding open_display
  open_display-Ends pixel_format h =
      require-Ends (egl.has_display h) _ h _
        (then_do-Ends (check_version (egl.initialize h) h) _
          (check_version-Ends (egl.initialize h) h)
          (λ u g e. rw e (
            check_config-Ends
              (egl.choose_config (8 * egl.bytes_per_pixel pixel_format) (acquired display ∷ h)) h)))
        no_display

  -- The end of the constructor: the dummy surface, or none, is made current.
  current-Ends :
      (ctx dummy : ℕ) (g h : Calls)
      → g ≡ app_calls (record { eglctx = ctx; dummy_surface = dummy }) ++ h
      → IsLeft h g
      → Ends
          (λ app k. k ≡ bound app.dummy_surface ∷ app_calls app ++ h)
          (λ x k. IsLeft h k)
          (then_do
            (make_current egl dummy g)
            (λ u. pure (record { eglctx = ctx; dummy_surface = dummy })))
  unfolding make_current
  current-Ends ctx dummy g h e left = elim (Bool-cases (egl.make_current dummy g)) [
    | inl ok ↦ rw ok (record { ending = ap (◌∷◌ (bound dummy)) e })
    | inr failed ↦ rw failed (record { ending = left })
  ]

  dummy-Ends :
      (surfaceless : Bool) (ctx : ℕ) (h : Calls)
      → Ends
          (λ app k. k ≡ bound app.dummy_surface ∷ app_calls app ++ h)
          (λ x k. IsLeft h k)
          (then_do
            ((if surfaceless then pure 0 else create_pbuffer egl)
              (acquired (context ctx) ∷ acquired display ∷ h))
            (λ dummy g.
              then_do
                (make_current egl dummy g)
                (λ u. pure (record { eglctx = ctx; dummy_surface = dummy }))))
  unfolding create_pbuffer
  dummy-Ends true ctx h =
      current-Ends ctx 0 (acquired (context ctx) ∷ acquired display ∷ h) h refl (with_context ctx)
  dummy-Ends false ctx h =
      let g : Calls = acquired (context ctx) ∷ acquired display ∷ h in
      elim (Bool-cases (egl.create_pbuffer g == 0)) [
        | inl refused ↦ rw refused (record { ending = with_context ctx })
        | inr made ↦ rw made (
            current-Ends ctx (egl.create_pbuffer g) (acquired (surface (egl.create_pbuffer g)) ∷ g)
              h (rw made refl) (with_surface (egl.create_pbuffer g) ctx))
      ]

  create_context-Ends :
      (h : Calls)
      → Ends
          (λ ctx g. g ≡ acquired (context ctx) ∷ acquired display ∷ h)
          (λ x g. IsLeft h g)
          (create_context egl (acquired display ∷ h))
  unfolding create_context
  create_context-Ends h =
      unless_zero-Ends (egl.create_context (acquired display ∷ h)) _ (acquired display ∷ h) _
        (record { ending = refl }) only_display

  pub make_mir_eglapp-Ends :
      (pixel_format : ℕ) (h : Calls)
      → Ends
          (λ app g. g ≡ bound app.dummy_surface ∷ app_calls app ++ h)
          (λ x g. IsLeft h g)
          (make_mir_eglapp egl pixel_format h)
  unfolding make_mir_eglapp supports_surfaceless_context
  make_mir_eglapp-Ends pixel_format h =
      then_do-Ends (open_display egl pixel_format h) _ (open_display-Ends pixel_format h) (λ u g e.
        rw e (
          then_do-Ends (create_context egl (acquired display ∷ h)) _ (create_context-Ends h)
            (λ ctx k e'. rw e' (
              dummy-Ends
                (has_surfaceless (egl.extensions (acquired (context ctx) ∷ acquired display ∷ h)))
                ctx h))))

  -- Whatever EGL answers, the constructor of MirEglApp ends in one of two ways. It returns, having
  -- acquired the display, the context and the dummy surface if there is one, in that order, and
  -- then made the dummy surface, or none, current. Or it throws, having made nothing current and
  -- acquired nothing, the display, the display and the context, or also the dummy surface, and
  -- given none of it back.
  pub constructor_ends :
      (pixel_format : ℕ) (h : Calls)
      → Ending
          (λ app g. g ≡ bound app.dummy_surface ∷ app_calls app ++ h)
          (λ x g. IsLeft h g)
          (make_mir_eglapp egl pixel_format h)
  constructor_ends pixel_format h = (make_mir_eglapp-Ends pixel_format h).ending
