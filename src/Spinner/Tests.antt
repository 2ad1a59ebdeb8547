-- ===== src/Spinner/Tests.antt =====
-- The theorems about src/external_spinner.cpp at concrete inputs.
use unity_system_compositor.Prelude.{ℕ, ◌+◌, ◌≡◌, refl, List, [], ◌∷◌, bytes, arith}
use unity_system_compositor.Prelude.Int.{ℤ, pos, negsuc}
use unity_system_compositor.Spinner.{init, ensure_running, kill, forked, sigterm}
use unity_system_compositor.Spinner.Processes.{
  Processes, child_ends, ensure_times, Occurs, ended_spinner_stays,
}
use unity_system_compositor.Spinner.Laws.{
  Command, ensures, kills, run, step, OneChild, run-init-OneChild, failed_fork_terminates_all,
}

abbrev fork : ℕ → ℤ
fork n = pos (n + 100)

abbrev commands : List Command
commands = ensures ∷ ensures ∷ kills ∷ kills ∷ ensures ∷ []

-- A second call starts no second process, and a second kill() sends nothing.
run-commands :
    (run fork (init (bytes "spin") (bytes "sock")) commands).syscalls
    ≡ forked (pos 101) ∷ sigterm (pos 100) ∷ forked (pos 100) ∷ []
unfolding run step init ensure_running kill
run-commands = refl

run-init-OneChild_example : OneChild (run fork (init (bytes "spin") (bytes "sock")) commands)
run-init-OneChild_example =
    run-init-OneChild fork (λ n. (n + 99, ground arith)) (bytes "spin") (bytes "sock") commands

failed_fork_terminates_all_example :
    (kill (ensure_running (λ _. negsuc 0) (init (bytes "spin") (bytes "sock")))).syscalls
    ≡ sigterm (negsuc 0) ∷ forked (negsuc 0) ∷ []
unfolding init
failed_fork_terminates_all_example =
    failed_fork_terminates_all (λ _. negsuc 0) (init (bytes "spin") (bytes "sock")) refl refl refl

-- A spinner that runs.
abbrev running : Processes
running = record {
  spinner = record {
    executable = bytes "spin";
    mir_socket = bytes "sock";
    spinner_pid = pos 100;
    forks = 1;
    syscalls = forked (pos 100) ∷ [];
  };
  ended = [];
  reaped = [];
}

ended_spinner_stays_example :
    let t = ensure_times fork 3 (child_ends (pos 100) running) in
    (t.spinner ≡ running.spinner)
    × (t.ended ≡ [])
    × Occurs (pos 100) t.reaped
    × ((kill t.spinner).syscalls ≡ sigterm (pos 100) ∷ running.spinner.syscalls)
ended_spinner_stays_example = ended_spinner_stays fork 99 3 running refl
