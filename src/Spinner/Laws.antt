-- ===== src/Spinner/Laws.antt =====
-- What src/external_spinner.cpp keeps over every sequence of calls.
use unity_system_compositor.Prelude.{
  ℕ, suc, ◌≡◌, refl, ap, ◌∙◌, ◌⊎◌, inl, false, List, [], ◌∷◌, Str, str_empty, if◌then◌else◌, arith,
  All,
}
use unity_system_compositor.Prelude.Int.{ℤ, pos, negsuc, int_eq}
use unity_system_compositor.Spinner.{
  ExternalSpinner, Syscall, forked, sigterm, init, is_set, ensure_running, kill,
}

pub data Command : Type 0 where
  ensures kills : Command

unfoldable pub step : (ℕ → ℤ) → ExternalSpinner → Command → ExternalSpinner
step fork s ensures = ensure_running fork s
step fork s kills = kill s

unfoldable pub run : (ℕ → ℤ) → ExternalSpinner → List Command → ExternalSpinner
run fork s [] = s
run fork s (c ∷ cs) = run fork (step fork s c) cs

abbrev without : ℤ → List ℤ → List ℤ
without p [] = []
without p (q ∷ qs) = if int_eq q p then qs else q ∷ without p qs

-- The processes that were forked and not yet told to terminate.
abbrev children : List Syscall → List ℤ
children [] = []
children (forked p ∷ calls) = p ∷ children calls
children (sigterm p ∷ calls) = without p (children calls)

abbrev only : ℤ → List ℤ
only p = if is_set p then p ∷ [] else []

-- The signals go to single processes: a pid of 0 or below would mean a group, or everybody.
abbrev TargetsOne : Syscall → Type 0
TargetsOne (forked p) = Unit
TargetsOne (sigterm p) = (n : ℕ) × (p ≡ pos (suc n))

pub record OneChild (s : ExternalSpinner) : Type 0 where
  pub one_child : children s.syscalls ≡ only s.spinner_pid
  pub known_child : (s.spinner_pid ≡ pos 0) ⊎ ((n : ℕ) × (s.spinner_pid ≡ pos (suc n)))
  pub targets : All TargetsOne s.syscalls

-- fork() succeeds each time.
abbrev Forks : (ℕ → ℤ) → Type 0
Forks fork = (n : ℕ) → (p : ℕ) × (fork n ≡ pos (suc p))

module _ (fork : ℕ → ℤ) (forks : Forks fork) where
  ensure_running-OneChild : (s : ExternalSpinner) → OneChild s → OneChild (ensure_running fork s)
  unfolding ensure_running
  ensure_running-OneChild s v = ground (arith, forks s.forks)

  kill-OneChild : (s : ExternalSpinner) → OneChild s → OneChild (kill s)
  unfolding kill
  kill-OneChild s v = ground arith

  step-OneChild : (s : ExternalSpinner) (c : Command) → OneChild s → OneChild (step fork s c)
  unfolding step
  step-OneChild s ensures v = ensure_running-OneChild s v
  step-OneChild s kills v = kill-OneChild s v

  run-OneChild : (s : ExternalSpinner) (cs : List Command) → OneChild s → OneChild (run fork s cs)
  unfolding run
  run-OneChild s [] v = v
  run-OneChild s (c ∷ cs) v = run-OneChild (step fork s c) cs (step-OneChild s c v)

  -- While fork() succeeds: after any sequence of calls on a new spinner at most one spinner process
  -- has been started and not told to terminate, pid() is its id or 0 if there is none, and every
  -- SIGTERM went to a single process.
  pub run-init-OneChild :
      (executable mir_socket : Str) (cs : List Command)
      → OneChild (run fork (init executable mir_socket) cs)
  unfolding init
  run-init-OneChild executable mir_socket cs =
      run-OneChild _ cs (record { one_child = refl; known_child = inl refl; targets = tt })

-- If fork() fails (it returns -1) when an idle spinner with an executable is to run, the next
-- kill() sends SIGTERM to process id -1, which stands for every process.
pub failed_fork_terminates_all :
    (fork : ℕ → ℤ) (s : ExternalSpinner)
    → str_empty s.executable ≡ false
    → s.spinner_pid ≡ pos 0
    → fork s.forks ≡ negsuc 0
    → (kill (ensure_running fork s)).syscalls ≡ sigterm (negsuc 0) ∷ forked (negsuc 0) ∷ s.syscalls
unfolding kill ensure_running
failed_fork_terminates_all fork s named idle fails = rw (named, idle, fails)

step_unnamed :
    (fork : ℕ → ℤ) (s : ExternalSpinner) (c : Command)
    → s.executable ≡ []
    → s.spinner_pid ≡ pos 0
    → step fork s c ≡ s
unfolding step ensure_running kill
step_unnamed fork s ensures e idle = rw e
step_unnamed fork s kills e idle = rw idle

run_unnamed_from :
    (fork : ℕ → ℤ) (s : ExternalSpinner) (cs : List Command)
    → s.executable ≡ []
    → s.spinner_pid ≡ pos 0
    → run fork s cs ≡ s
unfolding run
run_unnamed_from fork s [] e idle = refl
run_unnamed_from fork s (c ∷ cs) e idle =
    ap (λ t. run fork t cs) (step_unnamed fork s c e idle) ∙ run_unnamed_from fork s cs e idle

-- With no executable configured a new spinner makes no system call, whatever is called on it.
run_unnamed :
    (fork : ℕ → ℤ) (mir_socket : Str) (cs : List Command)
    → (run fork (init [] mir_socket) cs).syscalls ≡ []
unfolding init
run_unnamed fork mir_socket cs = ap (λ s. s.syscalls) (run_unnamed_from fork _ cs refl refl)
