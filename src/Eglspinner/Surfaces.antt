-- ===== src/Eglspinner/Surfaces.antt =====
-- The surfaces that `mir_eglapp_init` of spinner/eglapp.cpp makes once it is connected. An output
-- is what the Mir client library says of it.
pub mod Made
use unity_system_compositor.Prelude.{
  ℕ, Bool, true, false, not, ◌&&◌, List, [], ◌∷◌, ◌++◌, Option, none, some, ◌==◌, if◌then◌else◌,
}
use unity_system_compositor.Eglspinner.Options.{Params}

-- MirOutput; the current mode, if there is one, is given by its width and its height.
pub record Output : Type 0 where
  pub id : ℕ
  pub enabled : Bool
  pub connected : Bool
  pub num_modes : ℕ
  pub current_mode : Option (ℕ × ℕ)

-- A surface by the parameters it is made with.
pub record Surface : Type 0 where
  pub width : ℕ
  pub height : ℕ
  pub output_id : ℕ
  pub swapinterval : ℕ

module _ {F : Type 0} where
  pub make_surface : Params F → Surface
  make_surface p = record {
    width = p.width;
    height = p.height;
    output_id = p.output_id;
    swapinterval = p.swapinterval;
  }

-- The test of `for_each_active_output`: the mode of an active output.
pub active_mode : Output → Option (ℕ × ℕ)
active_mode o = if o.enabled && o.connected && not (o.num_modes == 0) then o.current_mode else none

abbrev pub if_active {ℓ} : {S : Type ℓ} → Option (ℕ × ℕ) → (ℕ × ℕ → S → S) → S → S
if_active none handler s = s
if_active (some mode) handler s = handler mode s

-- `for_each_active_output`, with what the handler does to a state.
pub for_each_active_output {ℓ} : {S : Type ℓ} → (Output → ℕ × ℕ → S → S) → List Output → S → S
for_each_active_output handler [] s = s
for_each_active_output handler (o ∷ os) s =
    for_each_active_output handler os (if_active (active_mode o) (handler o) s)

abbrev unless_empty : List Surface → Option (List Surface)
unless_empty [] = none
unless_empty (surface ∷ rest) = some (surface ∷ rest)

module _ {F : Type 0} where
  -- The two handlers.
  pub take_size : Output → ℕ × ℕ → Params F → Params F
  take_size o mode p =
      if o.id == p.output_id then record p { width = mode.0; height = mode.1 } else p

  pub add_surface : Output → ℕ × ℕ → Params F × List Surface → Params F × List Surface
  add_surface o mode (p, result) =
      let q = record p { width = mode.0; height = mode.1; output_id = o.id } in
      (q, result ++ make_surface q ∷ [])

  -- `invalid_id` is Mir's mir_display_output_id_invalid; `none` where it throws.
  pub surfaces : ℕ → Params F → List Output → Option (List Surface)
  surfaces invalid_id p outputs =
      let result = (for_each_active_output add_surface outputs (p, [])).1 in
      if not (p.width == 0) && not (p.height == 0)
      then some (make_surface p ∷ [])
      else if not (p.output_id == invalid_id)
      then some (make_surface (for_each_active_output take_size outputs p) ∷ [])
      else unless_empty result
