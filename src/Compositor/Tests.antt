-- ===== src/Compositor/Tests.antt =====
-- The theorems about the switcher on its screen at concrete inputs.
use unity_system_compositor.Prelude.{◌+◌, ◌≡◌, refl, true, false, List, [], ◌∷◌, some, bytes, All}
use unity_system_compositor.Prelude.Int.{pos}
use unity_system_compositor.Session.{Scene}
use unity_system_compositor.Spinner.{
  Spinner, ExternalSpinner, external_spinner, init as spinner_init,
}
use unity_system_compositor.MirScreen.{Mir, Output, Configuration, OutputFilter, other_type, on}
use unity_system_compositor.Compositor.{
  Compositor, Event, added, ready, active, turned_on, turned_off, configured, registered,
  unregistered, screen_set, run, destroy,
}
use unity_system_compositor.Compositor.Linked.{IsApart, IsLinked, boot, run-boot-IsLinked}
use unity_system_compositor.Compositor.Destroyed.{run-destroy}

instance abbrev scene : Scene
scene = record { scene_name = λ p. bytes "user"; process_id = λ p. pos (p + 97) }

instance abbrev spinner : Spinner ExternalSpinner
spinner = external_spinner (λ n. pos (n + 100))

-- A device is its configuration; it refuses nothing.
instance abbrev mir : Mir Configuration
mir = record {
  configuration = λ d. some d;
  configure = λ os d. (os, false);
  start = λ d. (d, false);
  stop = λ d. (d, false);
}

abbrev panel : Output
panel = record { type = other_type 7; connected = true; used = true; power_mode = on }

abbrev idle : ExternalSpinner
idle = spinner_init (bytes "spin") (bytes "sock")

abbrev calls : List Event
calls =
    active (bytes "user")
    ∷ registered 8
    ∷ added 1
    ∷ screen_set
    ∷ ready 1
    ∷ turned_off OutputFilter.all
    ∷ []

abbrev later : List Event
later = turned_on OutputFilter.internal ∷ registered 9 ∷ unregistered 8 ∷ configured [] ∷ []

-- Nothing but `registered 8` is about another owner.
calls-IsApart : All (IsApart 7) calls
calls-IsApart = (tt, (refl, (tt, (tt, (tt, (tt, tt))))))

run-boot-IsLinked_example :
    (c : Compositor Configuration ExternalSpinner) × (boot 7 (panel ∷ []) idle ≡ some c)
    × ((run 7 calls c).has_screen ≡ true)
    × IsLinked 7 (run 7 calls c).screen
run-boot-IsLinked_example = run-boot-IsLinked 7 (panel ∷ []) idle calls refl calls-IsApart

run-destroy_example :
    (c : Compositor Configuration ExternalSpinner) × (boot 7 (panel ∷ []) idle ≡ some c)
    × ((run 7 later (destroy 7 (run 7 calls c))).screen.world ≡ (run 7 calls c).screen.world)
run-destroy_example =
    run-destroy 7 (panel ∷ []) idle calls later refl calls-IsApart (tt, (refl, (refl, (tt, tt))))
