-- ===== src/Server/Tests.antt =====
-- The theorems about src/server.cpp and src/system_compositor.cpp at concrete options.
use unity_system_compositor.Prelude.{refl, Bool, false, [], none, some, bytes}
use unity_system_compositor.Prelude.Int.{pos}
use unity_system_compositor.Server.{Part, Options}
use unity_system_compositor.Server.SystemCompositor.{Regex, Driver, program}
use unity_system_compositor.Server.Startup.{IsUpOrStopped, program_up}

-- An expression that matches nothing.
instance abbrev regex : Regex
regex = record { compile = λ list. some (λ s. false) }

abbrev driver : Driver
driver = record { vendor = some (bytes "v"); renderer = none; driver_version = some (bytes "1") }

abbrev both_pipes : Options
both_pipes = record {
  from_dm_fd = some (pos 3);
  to_dm_fd = some (pos 4);
  debug_without_dm = false;
  debug_active_session_name = [];
  blacklist_option = none;
  version = false;
  spinner_option = none;
  public_socket_option = none;
  no_file = false;
  file = none;
  system_bus_address = none;
}

abbrev nothing_fails : Part → Bool
nothing_fails p = false

program_up_example : IsUpOrStopped (program nothing_fails both_pipes driver)
program_up_example = program_up nothing_fails both_pipes driver refl
