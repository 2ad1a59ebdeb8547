-- ===== src/MirScreen/Counts.antt =====
-- The counts of src/mir_screen.cpp against plain counting, before and after a change of power mode.
use unity_system_compositor.Prelude.{
  ℕ, suc, ◌+◌, ◌≡◌, refl, Bool, true, false, not, ◌&&◌, ◌||◌, [], ◌∷◌, if◌then◌else◌, arith,
}
use unity_system_compositor.MirScreen.{
  ActiveOutputs, OutputFilter, on, off, Output, Configuration, is_external, is_on, count_output,
  count_from, no_outputs, count_active_outputs, passes, with_power_mode,
}

-- How many outputs pass a test.
abbrev count : (Output → Bool) → Configuration → ℕ
count p [] = 0
count p (o ∷ os) = let rest = count p os in if p o then suc rest else rest

-- A connected output that is in use.
abbrev in_use : Output → Bool
in_use o = o.connected && o.used

abbrev active_internal : Output → Bool
active_internal o = in_use o && is_on o.power_mode && not (is_external o.type)

abbrev active_external : Output → Bool
active_external o = in_use o && is_on o.power_mode && is_external o.type

count_from_lem :
    (a : ActiveOutputs) (os : Configuration)
    → count_from a os ≡ record {
      internal = a.internal + count active_internal os;
      external = a.external + count active_external os;
    }
unfolding count_from count_output
count_from_lem a [] = ground arith
count_from_lem a (o ∷ os) = ground (arith, count_from_lem (count_output a o) os)

-- The counts are the numbers of the internal and of the external outputs that are connected, in use
-- and powered on.
count_active_outputs_lem :
    (os : Configuration)
    → count_active_outputs os
      ≡ record { internal = count active_internal os; external = count active_external os }
unfolding count_active_outputs
count_active_outputs_lem os = ground (arith, count_from_lem no_outputs os)

-- The counts that switching the outputs of a filter on leads to.
abbrev pub on_counts : OutputFilter → Configuration → ActiveOutputs
on_counts f os = record {
  internal =
      count (λ o. in_use o && (is_on o.power_mode || passes f o) && not (is_external o.type)) os;
  external = count (λ o. in_use o && (is_on o.power_mode || passes f o) && is_external o.type) os;
}

-- The counts that switching them off leads to.
abbrev pub off_counts : OutputFilter → Configuration → ActiveOutputs
off_counts f os = record {
  internal = count (λ o. active_internal o && not (passes f o)) os;
  external = count (λ o. active_external o && not (passes f o)) os;
}

on_lem :
    (f : OutputFilter) (os : Configuration)
    → (count active_internal (with_power_mode on f os) ≡ (on_counts f os).internal)
      × (count active_external (with_power_mode on f os) ≡ (on_counts f os).external)
unfolding with_power_mode
on_lem f [] = (refl, refl)
on_lem f (o ∷ os) = ground (arith, on_lem f os)

off_lem :
    (f : OutputFilter) (os : Configuration)
    → (count active_internal (with_power_mode off f os) ≡ (off_counts f os).internal)
      × (count active_external (with_power_mode off f os) ≡ (off_counts f os).external)
unfolding with_power_mode
off_lem f [] = (refl, refl)
off_lem f (o ∷ os) = ground (arith, off_lem f os)

pub count_active_outputs-on :
    (f : OutputFilter) (os : Configuration)
    → count_active_outputs (with_power_mode on f os) ≡ on_counts f os
count_active_outputs-on f os =
    ground (arith, count_active_outputs_lem (with_power_mode on f os), on_lem f os)

pub count_active_outputs-off :
    (f : OutputFilter) (os : Configuration)
    → count_active_outputs (with_power_mode off f os) ≡ off_counts f os
count_active_outputs-off f os =
    ground (arith, count_active_outputs_lem (with_power_mode off f os), off_lem f os)

none_pass : (p : Output → Bool) (os : Configuration) → ((o : Output) → p o ≡ false) → count p os ≡ 0
none_pass p [] h = refl
none_pass p (o ∷ os) h = rw (h o) (none_pass p os h)

and_false : (b : Bool) → (b && false) ≡ false
and_false true = refl
and_false false = refl

-- Switched off, all of them, no output is active.
pub off_counts_all : (os : Configuration) → off_counts OutputFilter.all os ≡ no_outputs
unfolding passes
off_counts_all os = λ i. record {
  internal = none_pass _ os (λ o. and_false (active_internal o)) i;
  external = none_pass _ os (λ o. and_false (active_external o)) i;
}
