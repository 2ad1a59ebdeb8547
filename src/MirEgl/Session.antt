-- ===== src/MirEgl/Session.antt =====
-- The run of the program of spinner/eglapp.cpp and spinner/eglspinner.cpp over spinner/miregl.cpp: the
-- surfaces that `mir_eglapp_init` makes, the rounds in which `main` paints them, and what is destroyed
-- at the end or where an exception unwinds.
pub mod Takes
pub mod Balance
pub mod Standing
pub mod Current
use unity_system_compositor.Prelude.{ℕ, suc, zero, List, [], ◌∷◌, ◌++◌, Str, bytes}
use unity_system_compositor.Eglspinner.Surfaces.{Surface}
use unity_system_compositor.MirEgl.{
  Calls, Egl, M, WindowParameters, MirEglApp, MirEglSurface, make_mir_eglsurface, make_mir_eglapp,
  paint, destroy_surface, destroy_mir_eglapp,
}
use unity_system_compositor.Outcome.{
  Outcome, done, threw, ◌>>=◌, ◌>>◌, then_do, either_way, pure, throw,
}

pub destroy_surfaces : List MirEglSurface → M (Unit {0})
destroy_surfaces [] = pure tt
destroy_surfaces (s ∷ ss) = do destroy_surface s; destroy_surfaces ss

-- The last surface keeps the application.
pub destroy_all : MirEglApp → List MirEglSurface → M (Unit {0})
destroy_all app ss = do destroy_surfaces ss; destroy_mir_eglapp app

-- An exception passes on when everything has been destroyed.
pub unwind : {A : Type 0} → MirEglApp → List MirEglSurface → Str → M A
unwind app ss x = do destroy_all app ss; throw x

-- `surfaceparm` for a surface of the list that Eglspinner/Surfaces makes.
abbrev pub window_parameters : ℕ → Surface → WindowParameters
window_parameters pixel_format p = record {
  width = p.width;
  height = p.height;
  output_id = p.output_id;
  pixel_format = pixel_format;
}

module _ (egl : Egl) where
  -- `result.push_back`: an exception unwinds what is there.
  pub push_surface : ℕ → MirEglApp → Surface → List MirEglSurface → M (List MirEglSurface)
  push_surface pixel_format app p result h =
      either_way (make_mir_eglsurface egl (window_parameters pixel_format p) p.swapinterval h)
        (λ s. pure (result ++ s ∷ [])) (λ x. unwind app result x)

  pub make_surfaces : ℕ → MirEglApp → List Surface → List MirEglSurface → M (List MirEglSurface)
  make_surfaces pixel_format app [] result = pure result
  make_surfaces pixel_format app (p ∷ ps) result = do
    result' ← push_surface pixel_format app p result
    make_surfaces pixel_format app ps result'

  -- One round of the loop.
  pub paint_all : (ℕ → ℕ → ℕ) → List MirEglSurface → M (List MirEglSurface)
  paint_all functor [] = pure []
  paint_all functor (s ∷ ss) = do t ← paint egl functor s; ts ← paint_all functor ss; pure (t ∷ ts)

  -- The loop runs until a signal clears `running`, here after a number of rounds. The painter is
  -- another one in each round, since the picture moves.
  pub paint_rounds : (ℕ → ℕ → ℕ → ℕ) → ℕ → List MirEglSurface → M (List MirEglSurface)
  paint_rounds functor zero ss = pure ss
  paint_rounds functor (suc n) ss = do ts ← paint_all (functor n) ss; paint_rounds functor n ts

  -- From the surfaces on, until everything has been destroyed.
  pub show : MirEglApp → (ℕ → ℕ → ℕ → ℕ) → ℕ → List MirEglSurface → M (Unit {0})
  show app functor rounds ss h =
      either_way (paint_rounds functor rounds ss h) (λ ts. destroy_all app ss)
        (λ x. unwind app ss x)

  -- The program once it is connected.
  pub spin : ℕ → List Surface → (ℕ → ℕ → ℕ → ℕ) → ℕ → M (Unit {0})
  spin pixel_format ps functor rounds = do
    app ← make_mir_eglapp egl pixel_format
    ss ← make_surfaces pixel_format app ps []
    show app functor rounds ss
