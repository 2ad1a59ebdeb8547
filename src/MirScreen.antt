-- ===== src/MirScreen.antt =====
-- src/screen.h and src/mir_screen.cpp: the power of the outputs, and who is told how many are active.
-- The counts are plain numbers: an int holds as many outputs as a machine has. Logging is left out.
pub mod Counts
pub mod Runs
pub mod Cases
pub mod Told
pub mod Power
mod Tests
use unity_system_compositor.Prelude.{
  ℕ, ◌+◌, Bool, true, false, not, ◌&&◌, ◌||◌, List, [], ◌∷◌, Option, none, some, ltb, if◌then◌else◌,
}
use unity_system_compositor.Prelude.Map
use unity_system_compositor.Prelude.Map.{ptr_key}

pub record ActiveOutputs : Type 0 where
  pub internal : ℕ
  pub external : ℕ

pub data OutputFilter : Type 0 where
  all internal external : OutputFilter

-- Mir's types of output: those that the code names, and any other.
pub data OutputType : Type 0 where
  vga dvii dvid dvia composite svideo component ninepindin displayport hdmia hdmib tv : OutputType
  other_type : ℕ → OutputType

pub data PowerMode : Type 0 where
  on off : PowerMode
  other_mode : ℕ → PowerMode

-- DisplayConfigurationOutput, as far as the code reads it.
pub record Output : Type 0 where
  pub type : OutputType
  pub connected : Bool
  pub used : Bool
  pub power_mode : PowerMode

abbrev pub Configuration : Type 0
Configuration = List Output

-- Mir's display and compositor, on a state `D`. Reading the configuration gives `none` where it
-- throws; the other calls say whether they threw.
pub record Mir (D : Type 0) : Type 0 where
  pub configuration : D → Option Configuration
  pub configure : Configuration → D → D × Bool
  pub start : D → D × Bool
  pub stop : D → D × Bool

abbrev pub is_external : OutputType → Bool
is_external (other_type n) = false
is_external vga = true
is_external dvii = true
is_external dvid = true
is_external dvia = true
is_external composite = true
is_external svideo = true
is_external component = true
is_external ninepindin = true
is_external displayport = true
is_external hdmia = true
is_external hdmib = true
is_external tv = true

abbrev pub is_on : PowerMode → Bool
is_on on = true
is_on off = false
is_on (other_mode n) = false

-- The body of the loop of `count_active_outputs`.
pub count_output : ActiveOutputs → Output → ActiveOutputs
count_output a o =
    if o.connected && o.used && is_on o.power_mode
    then (if is_external o.type
        then record a { external = a.external + 1 }
        else record a { internal = a.internal + 1 })
    else a

pub count_from : ActiveOutputs → Configuration → ActiveOutputs
count_from a [] = a
count_from a (o ∷ os) = count_from (count_output a o) os

abbrev pub no_outputs : ActiveOutputs
no_outputs = record { internal = 0; external = 0 }

pub count_active_outputs : Configuration → ActiveOutputs
count_active_outputs os = count_from no_outputs os

pub has_active_outputs : Configuration → Bool
has_active_outputs os = let a = count_active_outputs os in ltb 0 (a.internal + a.external)

-- The filter that `get_power_mode_filter_for_output_filter` picks.
pub passes : OutputFilter → Output → Bool
passes all o = true
passes internal o = not (is_external o.type)
passes external o = is_external o.type

-- The loop of `set_power_mode`.
pub with_power_mode : PowerMode → OutputFilter → Configuration → Configuration
with_power_mode mode filter [] = []
with_power_mode mode filter (o ∷ os) =
    (if o.connected && o.used && passes filter o then record o { power_mode = mode } else o)
    ∷ with_power_mode mode filter os

abbrev pub ActiveOutputsHandler : Type 0 → Type 0
ActiveOutputsHandler W = ActiveOutputs → W → W

-- MirScreen. `device` is Mir's state and `world` the state that the handlers act on; a handler is
-- known by its owner's address.
pub record MirScreen (D W : Type 0) : Type 0 where
  pub device : D
  pub active_outputs_handlers : List (ℕ × ActiveOutputsHandler W)
  pub active_outputs : ActiveOutputs
  pub world : W

unfoldable pub tell_all : {W : Type 0} → List (ℕ × ActiveOutputsHandler W) → ActiveOutputs → W → W
tell_all [] a w = w
tell_all ((owner, handler) ∷ hs) a w = tell_all hs a (handler a w)

module _ {D W : Type 0} where
  unfoldable pub register_active_outputs_handler :
      ℕ → ActiveOutputsHandler W → MirScreen D W → MirScreen D W
  register_active_outputs_handler owner handler s = record s {
    active_outputs_handlers = Map.insert owner handler s.active_outputs_handlers;
    world = handler s.active_outputs s.world;
  }

  unfoldable pub unregister_active_outputs_handler : ℕ → MirScreen D W → MirScreen D W
  unregister_active_outputs_handler owner s = record s {
    active_outputs_handlers = Map.erase owner s.active_outputs_handlers;
  }

  unfoldable pub configuration_applied : Configuration → MirScreen D W → MirScreen D W
  configuration_applied os s = record s {
    active_outputs = count_active_outputs os;
    world = tell_all s.active_outputs_handlers (count_active_outputs os) s.world;
  }

  unfoldable pub initial_configuration : Configuration → MirScreen D W → MirScreen D W
  initial_configuration os s = record s {
    active_outputs = count_active_outputs os;
    world = tell_all s.active_outputs_handlers (count_active_outputs os) s.world;
  }

module _ {D W : Type 0} ⦃mir : Mir D⦄ where
  -- The constructor: `none` where the compositor's start throws. Where the configuration cannot be
  -- read the counts stay 0.
  unfoldable pub init : D → W → Option (MirScreen D W)
  init device world =
      let (started, threw) = mir.start device in
      let screen : ActiveOutputs → MirScreen D W = λ a. record {
        device = started;
        active_outputs_handlers = [];
        active_outputs = a;
        world = world;
      } in
      if threw then none else elim (mir.configuration started) [
        | none ↦ some (screen no_outputs)
        | some os ↦ some (screen (count_active_outputs os))
      ]

  -- `set_power_mode` behind the changed configuration; an exception ends it where it is.
  pub apply_configuration : Configuration → MirScreen D W → MirScreen D W
  apply_configuration os s =
      let (stopped, stop_threw) = mir.stop s.device in
      let (configured, configure_threw) = mir.configure os stopped in
      let (started, start_threw) = mir.start configured in
      if stop_threw
      then record s { device = stopped }
      else if configure_threw
      then record s { device = configured }
      else if not (has_active_outputs os)
      then configuration_applied os (record s { device = configured })
      else if start_threw
      then record s { device = started }
      else configuration_applied os (record s { device = started })

  pub set_power_mode : PowerMode → OutputFilter → MirScreen D W → MirScreen D W
  set_power_mode mode filter s = elim (mir.configuration s.device) [
    | none ↦ s
    | some os ↦ apply_configuration (with_power_mode mode filter os) s
  ]

  unfoldable pub turn_on : OutputFilter → MirScreen D W → MirScreen D W
  turn_on filter s = set_power_mode on filter s

  unfoldable pub turn_off : OutputFilter → MirScreen D W → MirScreen D W
  turn_off filter s = set_power_mode off filter s
