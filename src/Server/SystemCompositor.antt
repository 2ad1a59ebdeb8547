-- ===== src/Server/SystemCompositor.antt =====
-- src/system_compositor.cpp: what the program does once it runs. The driver's strings come from OpenGL,
-- and Mir's server calls the callback. Mir may ask for the session switcher before that, through the
-- builder of its window manager; here every part is made where the callback asks for it first.
-- Regular expressions are a parameter.
use unity_system_compositor.Prelude.{
  Bool, true, not, List, [], ◌∷◌, ◌++◌, Option, none, some, Str, str_empty, take, if◌then◌else◌,
}
use unity_system_compositor.Server.{
  Options, Part, blacklist, public_socket, get_socket_file, ConnectionKind, asio, null_handler,
  Happening, connection_is, active_session_set, socket_is_public, dm_connection_starts,
  filter_appended, Outcome, done, thrown, next, or_default, the_spinner, the_dm_connection,
  the_screen, the_unity_display_service, the_screen_event_handler, the_unity_input_service,
  the_dbus_connection_thread,
}

-- regcomp: `none` where it fails, or else what regexec matches.
pub record Regex : Type 0 where
  pub compile : Str → Option (Str → Bool)

-- glGetString of the vendor, the renderer and the version; null pointers are `none`.
pub record Driver : Type 0 where
  pub vendor : Option Str
  pub renderer : Option Str
  pub driver_version : Option Str

-- snprintf into 1024 bytes.
driver_string : Driver → Str
driver_string d =
    take 1023 (
      or_default d.vendor []
      ++ 10 ∷ or_default d.renderer []
      ++ 10 ∷ or_default d.driver_version [])

abbrev allowed : Option (Str → Bool) → Str → Bool
allowed none s = true
allowed (some matches) s = not (matches s)

-- `start` of the connection: the stub makes its session active.
abbrev start_connection : ConnectionKind → List Happening → List Happening
start_connection (asio from to) h = dm_connection_starts ∷ h
start_connection (null_handler name) h = active_session_set name ∷ h

abbrev made_connection : Happening → Option ConnectionKind → Option ConnectionKind
made_connection (connection_is c) rest = some c
made_connection e rest = rest

abbrev pub connection_of : List Happening → Option ConnectionKind
connection_of [] = none
connection_of (e ∷ h) = made_connection e (connection_of h)

abbrev pub start_dm : Option ConnectionKind → List Happening → List Happening
start_dm none h = h
start_dm (some c) h = start_connection c h

module _ ⦃regex : Regex⦄ where
  pub check_blacklist : Str → Driver → Bool
  check_blacklist list d =
      if str_empty list then true else allowed (regex.compile list) (driver_string d)

-- From the display manager's connection on.
abbrev pub start : Options → List Happening → List Happening
start o h =
    start_dm (connection_of h)
      (if public_socket o then socket_is_public (get_socket_file o) ∷ h else h)

module _ (fails : Part → Bool) (o : Options) where
  unfoldable pub bring_up : List Happening → Outcome
  bring_up h = next (the_screen fails o h) (λ h₁. next (the_unity_display_service fails o h₁) (λ h₂.
      next (the_screen_event_handler fails o h₂) (λ h₃.
        next (the_unity_input_service fails o (filter_appended ∷ h₃))
          (the_dbus_connection_thread fails o))))

module _ ⦃regex : Regex⦄ (fails : Part → Bool) (o : Options) (d : Driver) where
  unfoldable pub init_callback : List Happening → Outcome
  init_callback h =
      if not (check_blacklist (blacklist o) d)
      then thrown h
      else next (the_dm_connection fails o h) (λ g. bring_up fails o (start o g))

  -- `run`, and the program: the constructor and `run`.
  unfoldable pub run : List Happening → Outcome
  run h = if o.version then done h else init_callback h

  unfoldable pub program : Outcome
  program = next (the_spinner fails o []) run
