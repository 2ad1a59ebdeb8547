-- ===== src/Eglspinner/Surfaces/Made.antt =====
-- Which surfaces spinner/eglapp.cpp makes.
use mathlib.Core.List.{append-nil, append_assoc}
use unity_system_compositor.Prelude.{
  ℕ, ◌≡◌, ◌≢◌, refl, sym, ◌∙◌, ◌⊎◌, inl, inr, Bool, List, [], ◌∷◌, ◌++◌, Option, none, some, ◌==◌,
  if◌then◌else◌, arith, Bool-cases,
}
use unity_system_compositor.Eglspinner.Options.{Params}
use unity_system_compositor.Eglspinner.Surfaces.{
  Output, Surface, make_surface, active_mode, if_active, for_each_active_output, take_size,
  add_surface, surfaces,
}

-- A surface for each active output, of its size, in the order of the outputs.
abbrev active_surface : ℕ → ℕ → Option (ℕ × ℕ) → List Surface → List Surface
active_surface swapinterval id none rest = rest
active_surface swapinterval id (some mode) rest =
    record { width = mode.0; height = mode.1; output_id = id; swapinterval = swapinterval } ∷ rest

abbrev pub fullscreen : ℕ → List Output → List Surface
fullscreen swapinterval [] = []
fullscreen swapinterval (o ∷ os) =
    active_surface swapinterval o.id (active_mode o) (fullscreen swapinterval os)

-- The size of the last active output with an id, or else the one given.
abbrev mode_or : Bool → Option (ℕ × ℕ) → ℕ × ℕ → ℕ × ℕ
mode_or wanted none size = size
mode_or wanted (some mode) size = if wanted then mode else size

abbrev pub size_of : ℕ → List Output → ℕ × ℕ → ℕ × ℕ
size_of id [] size = size
size_of id (o ∷ os) size = size_of id os (mode_or (o.id == id) (active_mode o) size)

abbrev pub sized : {F : Type 0} → ℕ × ℕ → Params F → Params F
sized size p = record p { width = size.0; height = size.1 }

abbrev Adds : Type 0 → List Output → Type 0
Adds F os =
    (p : Params F) (result : List Surface)
    → (for_each_active_output add_surface os (p, result)).1 ≡ result ++ fullscreen p.swapinterval os

abbrev Sizes : Type 0 → List Output → Type 0
Sizes F os =
    (p : Params F)
    → for_each_active_output take_size os p ≡ sized (size_of p.output_id os (p.width, p.height)) p

module _ {F : Type 0} where
  add_one :
      (o : Output) (os : List Output) (p : Params F) (result : List Surface) (m : Option (ℕ × ℕ))
      → Adds F os
      → (for_each_active_output add_surface os (if_active m (add_surface o) (p, result))).1
        ≡ result ++ active_surface p.swapinterval o.id m (fullscreen p.swapinterval os)
  unfolding add_surface make_surface
  add_one o os p result none ih = ih p result
  add_one o os p result (some mode) ih =
      ih (record p { width = mode.0; height = mode.1; output_id = o.id })
        (result ++ active_surface p.swapinterval o.id (some mode) [])
      ∙ append_assoc result (active_surface p.swapinterval o.id (some mode) [])
          (fullscreen p.swapinterval os)

  add_surface_lem : (os : List Output) → Adds F os
  unfolding for_each_active_output
  add_surface_lem [] p result = sym (append-nil result)
  add_surface_lem (o ∷ os) p result = add_one o os p result (active_mode o) (add_surface_lem os)

  size_one :
      (o : Output) (os : List Output) (p : Params F) (m : Option (ℕ × ℕ))
      → Sizes F os
      → for_each_active_output take_size os (if_active m (take_size o) p)
        ≡ sized (size_of p.output_id os (mode_or (o.id == p.output_id) m (p.width, p.height))) p
  unfolding take_size
  size_one o os p none ih = ih p
  size_one o os p (some mode) ih = elim (Bool-cases (o.id == p.output_id)) [
    | inl same ↦ rw same (ih (sized mode p))
    | inr other ↦ rw other (ih p)
  ]

  take_size_lem : (os : List Output) → Sizes F os
  unfolding for_each_active_output
  take_size_lem [] p = refl
  take_size_lem (o ∷ os) p = size_one o os p (active_mode o) (take_size_lem os)

  -- A forced size that is not zero gives one surface of that size. Otherwise a forced output gives
  -- one surface on it, of the size of the last active output with that id, and of the forced size
  -- if there is none. Otherwise each active output has a surface of its size, in the order of the
  -- outputs; if there is no active output, the program ends with an error.
  pub surfaces_lem :
      (invalid_id : ℕ) (p : Params F) (outputs : List Output)
      → ((p.width ≢ 0)
          × (p.height ≢ 0)
          × (surfaces invalid_id p outputs ≡ some (make_surface p ∷ [])))
        ⊎ (((p.width ≡ 0) ⊎ (p.height ≡ 0))
            × (p.output_id ≢ invalid_id)
            × (surfaces invalid_id p outputs
                ≡ some (
                    make_surface (sized (size_of p.output_id outputs (p.width, p.height)) p) ∷ [])))
        ⊎ (((p.width ≡ 0) ⊎ (p.height ≡ 0))
            × (p.output_id ≡ invalid_id)
            × (((fullscreen p.swapinterval outputs ≡ []) × (surfaces invalid_id p outputs ≡ none))
                ⊎ ((fullscreen p.swapinterval outputs ≢ [])
                    × (surfaces invalid_id p outputs ≡ some (fullscreen p.swapinterval outputs)))))
  unfolding surfaces
  surfaces_lem invalid_id p outputs =
      ground (arith, take_size_lem outputs p, add_surface_lem outputs p [])
