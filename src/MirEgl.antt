-- ===== src/MirEgl.antt =====
-- spinner/miregl.h and spinner/miregl.cpp: the spinner's EGL context and its surfaces. EGL and the
-- Mir client library are a parameter that answers each call by the calls made before it.
pub mod Rules
pub mod App
pub mod Session
mod Tests
use unity_system_compositor.Prelude.{
  ℕ, suc, ◌*◌, ◌==◌, Bool, true, false, not, ◌&&◌, ◌||◌, List, [], ◌∷◌, ◌++◌, Option, none, some,
  Str, bytes, if◌then◌else◌,
}
use unity_system_compositor.Outcome.{Run, ◌>>=◌, ◌>>◌, pure, ask, tell, throw, require, unless_zero}

-- What has to be given back. A handle is a number; 0 is EGL_NO_SURFACE and EGL_NO_CONTEXT.
pub data Resource : Type 0 where
  connection display : Resource
  context surface window : ℕ → Resource

-- A call that took effect; `bound` is eglMakeCurrent, `unbound` that without surface and context.
pub data Call : Type 0 where
  acquired released : Resource → Call
  bound : ℕ → Call
  unbound : Call
  interval_set : ℕ → Call
  drawn : ℕ → Call
  swapped : ℕ → Call
  fullscreen : ℕ → Call

-- The last call first.
abbrev pub Calls : Type 0
Calls = List Call

-- MirWindowParameters, as far as it matters here.
pub record WindowParameters : Type 0 where
  pub width : ℕ
  pub height : ℕ
  pub output_id : ℕ
  pub pixel_format : ℕ

-- The answers of EGL and of the Mir client library. `create_window` says also whether the window is
-- valid, `choose_config` how many configurations there are for a buffer size.
pub record Egl : Type 0 where
  pub bytes_per_pixel : ℕ → ℕ
  pub invalid_output_id : ℕ
  pub has_display : Calls → Bool
  pub initialize : Calls → Option (ℕ × ℕ)
  pub choose_config : ℕ → Calls → Option ℕ
  pub create_context : Calls → ℕ
  pub extensions : Calls → Option Str
  pub create_pbuffer : Calls → ℕ
  pub create_window_surface : ℕ → Calls → ℕ
  pub make_current : ℕ → Calls → Bool
  pub current_surface : Calls → ℕ
  pub surface_size : ℕ → Calls → ℕ × ℕ
  pub create_window : WindowParameters → Calls → ℕ × Bool

abbrev pub M : Type 0 → Type 0
M A = Run Call A

-- std::strstr, whether it finds the text.
starts_with : Str → Str → Bool
starts_with [] s = true
starts_with (c ∷ text) [] = false
starts_with (c ∷ text) (d ∷ s) = (c == d) && starts_with text s

strstr : Str → Str → Bool
strstr [] text = starts_with text []
strstr (c ∷ s) text = starts_with text (c ∷ s) || strstr s text

-- MirEglApp.
pub record MirEglApp : Type 0 where
  pub eglctx : ℕ
  pub dummy_surface : ℕ

-- MirEglSurface without its application.
pub record MirEglSurface : Type 0 where
  pub window : ℕ
  pub eglsurface : ℕ
  pub width : ℕ
  pub height : ℕ

abbrev check_version : Option (ℕ × ℕ) → M (Unit {0})
check_version none = throw (bytes "Can't eglInitialize")
check_version (some (major, minor)) = do
  tell (acquired display)
  require ((major == 1) && (minor == 4)) (bytes "EGL version is not 1.4")

abbrev check_config : Option ℕ → M (Unit {0})
check_config none = throw (bytes "Could not eglChooseConfig")
check_config (some neglconfigs) = require (not (neglconfigs == 0)) (bytes "No EGL config available")

abbrev has_surfaceless : Option Str → Bool
has_surfaceless none = false
has_surfaceless (some extensions) = strstr extensions (bytes "EGL_KHR_surfaceless_context")

module _ (egl : Egl) where
  pub make_current : ℕ → M (Unit {0})
  make_current s = do
    current ← ask (egl.make_current s)
    require current (bytes "Can't eglMakeCurrent")
    tell (bound s)

  pub swap_buffers : ℕ → M (Unit {0})
  swap_buffers s = tell (swapped s)

  -- eglGetDisplay, eglInitialize and eglChooseConfig.
  pub open_display : ℕ → M (Unit {0})
  open_display pixel_format = do
    found ← ask egl.has_display
    require found (bytes "Can't eglGetDisplay")
    version ← ask egl.initialize
    check_version version
    count ← ask (egl.choose_config (8 * egl.bytes_per_pixel pixel_format))
    check_config count

  pub create_context : M ℕ
  create_context = do
    made ← ask egl.create_context
    ctx ← unless_zero made (bytes "eglCreateContext failed")
    tell (acquired (context ctx))
    pure ctx

  pub supports_surfaceless_context : M Bool
  supports_surfaceless_context = do
    extensions ← ask egl.extensions
    pure (has_surfaceless extensions)

  pub create_pbuffer : M ℕ
  create_pbuffer = do
    made ← ask egl.create_pbuffer
    s ← unless_zero made (bytes "eglCreatePbufferSurface failed")
    tell (acquired (surface s))
    pure s

  pub make_mir_eglapp : ℕ → M MirEglApp
  make_mir_eglapp pixel_format = do
    open_display pixel_format
    ctx ← create_context
    surfaceless ← supports_surfaceless_context
    dummy ← if surfaceless then pure 0 else create_pbuffer
    make_current dummy
    pure (record { eglctx = ctx; dummy_surface = dummy })

  -- `create_surface` of the application, and the free one.
  pub create_eglsurface : ℕ → M ℕ
  create_eglsurface w = do
    made ← ask (egl.create_window_surface w)
    s ← unless_zero made (bytes "eglCreateWindowSurface failed")
    tell (acquired (surface s))
    pure s

  pub create_window : WindowParameters → M ℕ
  create_window p = do
    made ← ask (egl.create_window p)
    tell (acquired (window made.0))
    require made.1 (bytes "Can't create a surface ")
    if p.output_id == egl.invalid_output_id then pure tt else tell (fullscreen made.0)
    pure made.0

  -- The surface that was current is so again.
  pub set_swap_interval : ℕ → ℕ → M (Unit {0})
  set_swap_interval s interval = do
    previous_surface ← ask egl.current_surface
    make_current s
    tell (interval_set interval)
    if previous_surface == 0 then pure tt else make_current previous_surface

  pub make_mir_eglsurface : WindowParameters → ℕ → M MirEglSurface
  make_mir_eglsurface p swapinterval = do
    w ← create_window p
    s ← create_eglsurface w
    set_swap_interval s swapinterval
    pure (record { window = w; eglsurface = s; width = 0; height = 0 })

  -- The size is asked for first; where this throws, the surface is not painted on again.
  pub egl_make_current : MirEglSurface → M MirEglSurface
  egl_make_current s = do
    size ← ask (egl.surface_size s.eglsurface)
    make_current s.eglsurface
    pure (record s { width = size.0; height = size.1 })

  -- A painter is the drawing that it makes for a width and a height.
  pub paint : (ℕ → ℕ → ℕ) → MirEglSurface → M MirEglSurface
  paint functor s = do
    t ← egl_make_current s
    tell (drawn (functor t.width t.height))
    swap_buffers t.eglsurface
    pure t

-- The destructors; they do not look at the answers.
pub destroy_surface : MirEglSurface → M (Unit {0})
destroy_surface s = do tell (released (surface s.eglsurface)); tell (released (window s.window))

pub destroy_mir_eglapp : MirEglApp → M (Unit {0})
destroy_mir_eglapp app = do
  tell unbound
  if app.dummy_surface == 0 then pure tt else tell (released (surface app.dummy_surface))
  tell (released (context app.eglctx))
  tell (released display)
  tell (released connection)
