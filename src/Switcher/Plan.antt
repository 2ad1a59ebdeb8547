-- ===== src/Switcher/Plan.antt =====
-- What src/session_switcher.cpp promises to display: a decision from the state of the active and the
-- next session, and the calls that carry it out. Nothing here can fail.
use unity_system_compositor.Prelude.{
  Bool, true, false, not, ◌&&◌, ◌||◌, List, [], ◌∷◌, Option, none, some, Str, str_eq, str_empty,
  if◌then◌else◌,
}
use unity_system_compositor.Prelude.Map
use unity_system_compositor.Prelude.Map.{str_key}
use unity_system_compositor.Session.{Session, Call, show, hide, raise_and_focus}
use unity_system_compositor.Spinner.{Spinner}
use unity_system_compositor.Switcher.{
  SessionInfo, Sessions, Switcher, ShowMode, as_active, as_next, raise_if,
}

-- What is shown below the active session.
pub data Below : Type 0 where
  nothing_below spinner_below : Below
  session_below : Session → Below

pub data Plan : Type 0 where
  -- No output: every session is hidden, the rest stays.
  dark : Plan
  -- The active session on top.
  active_over : Session → Below → Plan
  -- The active session is awaited: the spinner on top, a ready next session hidden.
  splash : Option Session → Plan
  -- There is none to wait for: no spinner, a ready next session hidden.
  blank : Option Session → Plan

-- The session of an entry that may be displayed.
abbrev pub ready_session : Option SessionInfo → Option Session
ready_session none = none
ready_session (some info) = if info.ready then info.session else none

abbrev below : Option Session → Bool → Below
below (some next) named = session_below next
below none true = spinner_below
below none false = nothing_below

abbrev waiting : Bool → Option Session → Plan
waiting true next = splash next
waiting false next = blank next

abbrev pub awaited : Option Session → Bool → Bool
awaited none named = named
awaited (some next) named = false

-- While booting, an active session waits for the next one.
abbrev choose : Bool → Option Session → Bool → Option Session → Bool → Plan
choose booting none active_named next next_named = waiting active_named next
choose booting (some active) active_named next next_named =
    if booting && awaited next next_named
    then waiting active_named next
    else active_over active (below next next_named)

module _ {S : Type 0} where
  abbrev ready_of : Str → Switcher S → Option Session
  ready_of name s = ready_session (Map.find name s.sessions)

  unfoldable pub plan : Switcher S → Plan
  plan s =
      if s.has_active_outputs
      then choose s.booting (ready_of s.active_name s) (not (str_empty s.active_name))
          (ready_of s.next_name s) (not (str_empty s.next_name))
      else dark

abbrev pub hide_session_of : Option Session → List Call → List Call
hide_session_of none calls = calls
hide_session_of (some session) calls = hide session calls

unfoldable pub hidden_all : Sessions → List Call → List Call
hidden_all [] calls = calls
hidden_all ((key, info) ∷ m) calls = hidden_all m (hide_session_of info.session calls)

-- The sessions that are neither the active nor the next one.
unfoldable pub hidden_others : Str → Str → Sessions → List Call → List Call
hidden_others active next [] calls = calls
hidden_others active next ((key, info) ∷ m) calls =
    hidden_others active next m
      (if str_eq key active || str_eq key next then calls else hide_session_of info.session calls)

module _ {S : Type 0} ⦃spinner : Spinner S⦄ where
  abbrev with_spinner_session : Option SessionInfo → ShowMode → Switcher S → Switcher S
  with_spinner_session none mode s = record s {
    spinner_process = spinner.ensure_running s.spinner_process;
  }
  with_spinner_session (some info) mode s = elim info.session [
    | none ↦ s
    | some session ↦ record s { calls = show session (raise_if mode session s.calls) }
  ]

  -- The spinner's session is shown if it has connected, else its process is started.
  abbrev with_spinner : ShowMode → Switcher S → Switcher S
  with_spinner mode s = with_spinner_session (Map.find s.spinner_name s.sessions) mode s

  abbrev without_spinner : Switcher S → Switcher S
  without_spinner s = record s { spinner_process = spinner.kill s.spinner_process }

  abbrev show_below : Below → Switcher S → Switcher S
  show_below nothing_below s = without_spinner s
  show_below spinner_below s = with_spinner as_next s
  show_below (session_below next) s = without_spinner (record s { calls = show next s.calls })

  abbrev others_hidden : Switcher S → List Call
  others_hidden s = hidden_others s.active_name s.next_name s.sessions s.calls

  unfoldable pub perform : Plan → Switcher S → Switcher S
  perform dark s = record s { calls = hidden_all s.sessions s.calls }
  perform (active_over active b) s =
      show_below b (record s {
        booting = false;
        calls = show active (raise_and_focus active (others_hidden s));
      })
  perform (splash next) s =
      with_spinner as_active (record s { calls = hide_session_of next (others_hidden s) })
  perform (blank next) s =
      without_spinner (record s { calls = hide_session_of next (others_hidden s) })
