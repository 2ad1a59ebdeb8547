-- ===== src/MirEgl/Tests.antt =====
-- The theorems about spinner/miregl.cpp at concrete inputs.
use unity_system_compositor.Prelude.{
  ℕ, ◌+◌, ◌≡◌, refl, ◌⊎◌, true, List, [], ◌∷◌, ◌++◌, none, some, length,
}
use unity_system_compositor.Eglspinner.Surfaces.{Surface}
use unity_system_compositor.MirEgl.{Egl, bound, make_mir_eglapp}
use unity_system_compositor.Outcome.Endings.{Ending}
use unity_system_compositor.MirEgl.Rules.{current}
use unity_system_compositor.MirEgl.App.{app_calls, IsLeft, constructor_ends}
use unity_system_compositor.MirEgl.Session.{spin}
use unity_system_compositor.MirEgl.Session.Balance.{Settles, Unwinds, everything_given_back}
use unity_system_compositor.MirEgl.Session.Standing.{Ordered}
use unity_system_compositor.MirEgl.Session.Current.{swaps_are_current}

-- Nothing fails, and no context is current without a surface.
abbrev egl : Egl
egl = record {
  bytes_per_pixel = λ format. 4;
  invalid_output_id = 0;
  has_display = λ h. true;
  initialize = λ h. some (1, 4);
  choose_config = λ size h. some 1;
  create_context = λ h. 1;
  extensions = λ h. none;
  create_pbuffer = λ h. length h + 1;
  create_window_surface = λ w h. length h + 1;
  make_current = λ s h. true;
  current_surface = λ h. current h;
  surface_size = λ s h. (640, 480);
  create_window = λ p h. (length h + 1, true);
}

abbrev panel : Surface
panel = record { width = 0; height = 0; output_id = 3; swapinterval = 1 }

abbrev two_surfaces : List Surface
two_surfaces = panel ∷ record panel { output_id = 4 } ∷ []

abbrev functor : ℕ → ℕ → ℕ → ℕ
functor round width height = round

constructor_ends_example :
    Ending
      (λ app g. g ≡ bound app.dummy_surface ∷ app_calls app ++ [])
      (λ x g. IsLeft [] g)
      (make_mir_eglapp egl 1 [])
constructor_ends_example = constructor_ends egl 1 []

everything_given_back_example :
    Ending
      (λ u k. Settles (λ r. 0) [] k)
      (λ x k. IsLeft [] k ⊎ Unwinds [] k)
      (spin egl 1 two_surfaces functor 2 [])
everything_given_back_example = everything_given_back egl 1 two_surfaces functor 2 []

swaps_are_current_example :
    Ending (λ u k. Ordered k) (λ x k. Ordered k) (spin egl 1 two_surfaces functor 2 [])
swaps_are_current_example = swaps_are_current egl (λ h. refl) 1 two_surfaces functor 2
