-- ===== src/Switcher.antt =====
-- src/session_switcher.h and src/session_switcher.cpp. A method is a function from the switcher to
-- the switcher after it; it is `none` where the code would go through a null session pointer.
-- Every method but the outputs handler runs under the mutex, so each is one step.
pub mod Sound
pub mod Plan
pub mod Refinement
pub mod Display
pub mod Shown
pub mod Runs
pub mod Assigned
pub mod History
pub mod Messages
mod Tests
use unity_system_compositor.Prelude.{
  ℕ, ◌+◌, ◌==◌, Bool, true, false, not, ◌&&◌, ◌||◌, List, [], ◌∷◌, Option, none, some, Str, str_eq,
  str_empty, if◌then◌else◌, ◌>>=◌,
}
use unity_system_compositor.Prelude.Map
use unity_system_compositor.Prelude.Map.{str_key}
use unity_system_compositor.Prelude.Int.{ℤ, int_eq}
use unity_system_compositor.Session.{
  Scene, Session, Call, name as session_name, show, hide, raise_and_focus, corresponds_to,
}
use unity_system_compositor.Spinner.{Spinner}

-- SessionInfo; the pointer may be null.
pub record SessionInfo : Type 0 where
  pub session : Option Session
  pub ready : Bool

abbrev pub Sessions : Type 0
Sessions = List (Str × SessionInfo)

pub data ShowMode : Type 0 where
  as_active as_next : ShowMode

-- `calls` are those made on Mir's shell, the last one first.
pub record Switcher (S : Type 0) : Type 0 where
  pub spinner_process : S
  pub sessions : Sessions
  pub active_name : Str
  pub next_name : Str
  pub spinner_name : Str
  pub booting : Bool
  pub has_active_outputs : Bool
  pub calls : List Call

-- `show_spinner` and `show_spinner_mode` are one: `none` while the spinner is not to be shown.
pub record Locals : Type 0 where
  pub show_spinner : Option ShowMode
  pub show_active : Bool

-- SessionInfo().
abbrev no_info : SessionInfo
no_info = record { session = none; ready = false }

-- `sessions[name]` adds a missing entry.
abbrev pub at : Str → Sessions → SessionInfo × Sessions
at name m = elim (Map.find name m) [
  | none ↦ (no_info, Map.insert name no_info m)
  | some info ↦ (info, m)
]

pub is_session_expected_to_become_ready : Str → Bool
is_session_expected_to_become_ready name = not (str_empty name)

abbrev has_session : Option Session → Bool
has_session none = false
has_session (some session) = true

abbrev pub is_ready : Option SessionInfo → Bool
is_ready none = false
is_ready (some info) = has_session info.session && info.ready

pub hide_all : Sessions → List Call → Option (List Call)
hide_all [] calls = some calls
hide_all ((key, info) ∷ m) calls = do session ← info.session; hide_all m (hide session calls)

abbrev pub stands_for : Option Session → ℕ → Bool
stands_for none p = false
stands_for (some session) p = corresponds_to session p

-- The loop of `mark_ready`.
pub mark_all : ℕ → Sessions → Sessions
mark_all p [] = []
mark_all p ((key, info) ∷ m) =
    (key, if stands_for info.session p then record info { ready = true } else info) ∷ mark_all p m

module _ ⦃scene : Scene⦄ where
  -- The loop of `hide_uninteresting_sessions`.
  pub hide_others : Str → Str → Sessions → List Call → Option (List Call)
  hide_others active next [] calls = some calls
  hide_others active next ((key, info) ∷ m) calls = do
    session ← info.session
    hide_others active next m (
        if not (str_eq (session_name session) active) && not (str_eq (session_name session) next)
        then hide session calls
        else calls)

abbrev pub raise_if : ShowMode → Session → List Call → List Call
raise_if as_active session calls = raise_and_focus session calls
raise_if as_next session calls = calls

abbrev is_some {ℓ} : {A : Type ℓ} → Option A → Bool
is_some none = false
is_some (some a) = true

module _ {S : Type 0} where
  pub is_session_ready_for_display : Str → Switcher S → Bool
  is_session_ready_for_display name s = is_ready (Map.find name s.sessions)

  pub hide_all_sessions : Switcher S → Option (Switcher S)
  hide_all_sessions s = do calls ← hide_all s.sessions s.calls; some (record s { calls = calls })

  pub show_session : Str → ShowMode → Switcher S → Option (Switcher S)
  show_session name mode s =
      let (info, m) = at name s.sessions in
      info.session >>= λ session.
      some (record s { sessions = m; calls = show session (raise_if mode session s.calls) })

  pub hide_session : Str → Switcher S → Option (Switcher S)
  hide_session name s =
      let (info, m) = at name s.sessions in
      info.session >>= λ session. some (record s { sessions = m; calls = hide session s.calls })

  -- `find` first: the spinner's session may not have connected yet.
  abbrev show_spinner_session :
      Option SessionInfo → ShowMode → Spinner S → Switcher S → Option (Switcher S)
  show_spinner_session none mode spinner s =
      some (record s { spinner_process = spinner.ensure_running s.spinner_process })
  show_spinner_session (some info) mode spinner s = do
    session ← info.session
    some (record s { calls = show session (raise_if mode session s.calls) })

module _ {S : Type 0} where
  abbrev allowed_to_display_active : Switcher S → Bool
  allowed_to_display_active s =
      is_session_ready_for_display s.next_name s
      || not (is_session_expected_to_become_ready s.next_name)
      || not s.booting

  -- The first part of `update_displayed_sessions` behind the outputs test.
  pub display_active : Switcher S → Option (Switcher S × Locals)
  display_active s =
      if allowed_to_display_active s && is_session_ready_for_display s.active_name s
      then (show_session s.active_name as_active s >>= λ s'.
          some (record s' { booting = false }, record { show_spinner = none; show_active = true }))
      else if is_session_expected_to_become_ready s.active_name
      then some (s, record { show_spinner = some as_active; show_active = false })
      else some (s, record { show_spinner = none; show_active = false })

  pub display_next : Switcher S → Locals → Option (Switcher S × Locals)
  display_next s l =
      if not (is_some l.show_spinner) && l.show_active
      then (if is_session_ready_for_display s.next_name s
          then (show_session s.next_name as_next s >>= λ s'. some (s', l))
          else if is_session_expected_to_become_ready s.next_name
          then some (s, record l { show_spinner = some as_next })
          else some (s, l))
      else if is_session_ready_for_display s.next_name s
      then (hide_session s.next_name s >>= λ s'. some (s', l))
      else some (s, l)

module _ ⦃scene : Scene⦄ {S : Type 0} where
  pub hide_uninteresting_sessions : Switcher S → Option (Switcher S)
  hide_uninteresting_sessions s = do
    calls ← hide_others s.active_name s.next_name s.sessions s.calls
    some (record s { calls = calls })

module _ {S : Type 0} ⦃spinner : Spinner S⦄ where
  pub ensure_spinner_will_be_shown : ShowMode → Switcher S → Option (Switcher S)
  ensure_spinner_will_be_shown mode s =
      show_spinner_session (Map.find s.spinner_name s.sessions) mode spinner s

  pub ensure_spinner_is_not_running : Switcher S → Switcher S
  ensure_spinner_is_not_running s = record s { spinner_process = spinner.kill s.spinner_process }

  abbrev display_spinner : Switcher S → Option ShowMode → Option (Switcher S)
  display_spinner s none = some (ensure_spinner_is_not_running s)
  display_spinner s (some mode) = ensure_spinner_will_be_shown mode s

module _ ⦃scene : Scene⦄ {S : Type 0} ⦃spinner : Spinner S⦄ where
  pub update_displayed_sessions : Switcher S → Option (Switcher S)
  update_displayed_sessions s = if not s.has_active_outputs then hide_all_sessions s else do
    s₁ ← hide_uninteresting_sessions s
    (s₂, l₂) ← display_active s₁
    (s₃, l₃) ← display_next s₂ l₂
    display_spinner s₃ l₃.show_spinner

  -- The outputs handler that `set_screen` registers; the switcher reads the sum only.
  unfoldable pub active_outputs_changed : ℕ → ℕ → Switcher S → Option (Switcher S)
  active_outputs_changed internal external s =
      update_displayed_sessions (record s { has_active_outputs = not (internal + external == 0) })

  pub add : Session → ℤ → Switcher S → Option (Switcher S)
  add session pid s = update_displayed_sessions (record s {
    spinner_name =
        if int_eq pid (spinner.pid s.spinner_process) then session_name session else s.spinner_name;
    sessions =
        Map.insert (session_name session) (record { session = some session; ready = false })
          s.sessions;
  })

  -- The end of `remove`, where the session that was found is the one to remove.
  pub remove_found : Str → Session → Switcher S → Option (Switcher S)
  remove_found removed session s = update_displayed_sessions (record s {
    spinner_name = if str_eq removed s.spinner_name then [] else s.spinner_name;
    calls = hide session s.calls;
    sessions = Map.erase removed s.sessions;
  })

  -- The tests of `remove` on what `find` gave: no entry, a null pointer, another session.
  pub remove_if_found : Str → ℕ → Option SessionInfo → Switcher S → Option (Switcher S)
  remove_if_found removed p none s = some s
  remove_if_found removed p (some info) s = elim info.session [
    | none ↦ some s
    | some session ↦ if corresponds_to session p then remove_found removed session s else some s
  ]

  pub remove : ℕ → Switcher S → Option (Switcher S)
  remove p s =
      let removed = scene.scene_name p in remove_if_found removed p (Map.find removed s.sessions) s

  pub set_active_session : Str → Switcher S → Option (Switcher S)
  set_active_session active s = update_displayed_sessions (record s { active_name = active })

  pub set_next_session : Str → Switcher S → Option (Switcher S)
  set_next_session next s = update_displayed_sessions (record s { next_name = next })

  pub mark_ready : ℕ → Switcher S → Option (Switcher S)
  mark_ready p s = update_displayed_sessions (record s { sessions = mark_all p s.sessions })

-- A new switcher, with the state of its spinner.
unfoldable pub init : {S : Type 0} → S → Switcher S
init spinner_process = record {
  spinner_process = spinner_process;
  sessions = [];
  active_name = [];
  next_name = [];
  spinner_name = [];
  booting = true;
  has_active_outputs = true;
  calls = [];
}
