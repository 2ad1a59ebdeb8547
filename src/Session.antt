-- ===== src/Session.antt =====
-- src/session_monitor.h and src/window_manager.cpp: a session as the compositor holds it, and the
-- calls that it makes on Mir's shell.
use unity_system_compositor.Prelude.{ℕ, Bool, List, ◌∷◌, Str, ◌==◌}
use unity_system_compositor.Prelude.Int.{ℤ}

-- What the code asks of a mir::scene::Session, which is known by its address. Mir is not modelled:
-- any name and any process id will do.
pub record Scene : Type 0 where
  pub scene_name : ℕ → Str
  pub process_id : ℕ → ℤ

-- UscSession, the one implementation of usc::Session.
pub record Session : Type 0 where
  pub scene_session : ℕ

-- A call on Mir's shell, with the scene session that it is about.
pub data Call : Type 0 where
  shows hides raises focuses : ℕ → Call

module _ ⦃scene : Scene⦄ where
  unfoldable pub name : Session → Str
  name session = scene.scene_name session.scene_session

-- The calls made so far, the last one first.
unfoldable pub show : Session → List Call → List Call
show session calls = shows session.scene_session ∷ calls

unfoldable pub hide : Session → List Call → List Call
hide session calls = hides session.scene_session ∷ calls

-- Raise the default surface, then set the focus to it.
unfoldable pub raise_and_focus : Session → List Call → List Call
raise_and_focus session calls = focuses session.scene_session ∷ raises session.scene_session ∷ calls

unfoldable pub corresponds_to : Session → ℕ → Bool
corresponds_to session s = session.scene_session == s
