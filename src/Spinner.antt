-- ===== src/Spinner.antt =====
-- src/spinner.h and src/external_spinner.cpp: the spinner as the session switcher sees it, and the
-- external process that implements it. Process ids are integers, since fork() may return -1.
pub mod Laws
pub mod Processes
mod Tests
use unity_system_compositor.Prelude.{
  ℕ, ◌+◌, ◌≡◌, ◌≢◌, Bool, true, false, ◌||◌, List, [], ◌∷◌, Str, str_empty, if◌then◌else◌, arith,
}
use unity_system_compositor.Prelude.Int.{ℤ, pos, negsuc}

-- usc::Spinner: its operations on a state `S`, and what its users rely on.
pub record Spinner (S : Type 0) : Type 0 where
  pub ensure_running : S → S
  pub kill : S → S
  pub pid : S → ℤ
  pub pid-kill : (s : S) → pid (kill s) ≡ pos 0

-- The calls on the operating system: fork() with its result, and kill(pid, SIGTERM).
pub data Syscall : Type 0 where
  forked sigterm : ℤ → Syscall

-- ExternalSpinner. `forks` counts the calls of fork(), `syscalls` has the last call first.
pub record ExternalSpinner : Type 0 where
  pub executable : Str
  pub mir_socket : Str
  pub spinner_pid : ℤ
  pub forks : ℕ
  pub syscalls : List Syscall

unfoldable pub init : Str → Str → ExternalSpinner
init executable mir_socket = record {
  executable = executable;
  mir_socket = mir_socket;
  spinner_pid = pos 0;
  forks = 0;
  syscalls = [];
}

-- `if (pid)`.
abbrev pub is_set : ℤ → Bool
is_set (pos ℕ.zero) = false
is_set (pos (ℕ.suc n)) = true
is_set (negsuc n) = true

-- `fork n` is what the n-th call of fork() gives the parent. The child's side, setenv and execlp,
-- is another process.
pub ensure_running : (ℕ → ℤ) → ExternalSpinner → ExternalSpinner
ensure_running fork s = if str_empty s.executable || is_set s.spinner_pid then s else record s {
  spinner_pid = fork s.forks;
  forks = s.forks + 1;
  syscalls = forked (fork s.forks) ∷ s.syscalls;
}

unfoldable pub kill : ExternalSpinner → ExternalSpinner
kill s =
    if is_set s.spinner_pid
    then record s { spinner_pid = pos 0; syscalls = sigterm s.spinner_pid ∷ s.syscalls }
    else s

pub pid : ExternalSpinner → ℤ
pid s = s.spinner_pid

pub pid-kill : (s : ExternalSpinner) → pid (kill s) ≡ pos 0
unfolding pid kill
pid-kill s = ground arith

-- The external process behind the interface.
unfoldable pub external_spinner : (ℕ → ℤ) → Spinner ExternalSpinner
external_spinner fork = record {
  ensure_running = ensure_running fork;
  kill = kill;
  pid = pid;
  pid-kill = pid-kill;
}
