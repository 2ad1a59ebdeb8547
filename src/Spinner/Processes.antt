-- ===== src/Spinner/Processes.antt =====
-- The processes behind src/external_spinner.cpp: children that end by themselves, and the handler of
-- SIGCHLD that its constructor installs.
use unity_system_compositor.Prelude.{
  ℕ, suc, zero, ◌≡◌, refl, ap, ◌∙◌, Bool, true, false, ◌||◌, List, [], ◌∷◌, ◌++◌, Option, none,
  some, str_empty, if◌then◌else◌, arith,
}
use unity_system_compositor.Prelude.Int.{ℤ, pos}
use unity_system_compositor.Spinner.{ExternalSpinner, sigterm, is_set, ensure_running, kill}

-- The spinner, the children that have ended and wait for waitpid, and those it has returned, the last
-- one first.
pub record Processes : Type 0 where
  pub spinner : ExternalSpinner
  pub ended : List ℤ
  pub reaped : List ℤ

-- `wait_for_child`: waitpid with WNOHANG returns a child that has ended while there is one.
reap_all : List ℤ → List ℤ → List ℤ
reap_all [] reaped = reaped
reap_all (p ∷ ended) reaped = reap_all ended (p ∷ reaped)

wait_for_child : Processes → Processes
wait_for_child s = record s { ended = []; reaped = reap_all s.ended s.reaped }

-- A child ends, and SIGCHLD runs the handler.
pub child_ends : ℤ → Processes → Processes
child_ends p s = wait_for_child (record s { ended = p ∷ s.ended })

-- `ensure_running`, a number of times.
pub ensure_times : (ℕ → ℤ) → ℕ → Processes → Processes
ensure_times fork zero s = s
ensure_times fork (suc n) s =
    ensure_times fork n (record s { spinner = ensure_running fork s.spinner })

-- `ensure_running` as the forked child sees it, by whether execlp succeeds: none where the child has
-- become the spinner, and else the copy of the object with which the call returns.
child_ensure_running : Bool → ExternalSpinner → Option ExternalSpinner
child_ensure_running executed s =
    if str_empty s.executable || is_set s.spinner_pid
    then some s
    else if executed
    then none
    else some s

-- Where execlp fails there are two compositors.
child_goes_on : (s : ExternalSpinner) → child_ensure_running false s ≡ some s
unfolding child_ensure_running
child_goes_on s = ground arith

abbrev pub Occurs : ℤ → List ℤ → Type 0
Occurs p ps = (before after : List ℤ) × (ps ≡ before ++ p ∷ after)

reap_all-Occurs :
    (p : ℤ) (ended reaped : List ℤ) → Occurs p reaped → Occurs p (reap_all ended reaped)
unfolding reap_all
reap_all-Occurs p [] reaped o = o
reap_all-Occurs p (q ∷ ended) reaped o =
    reap_all-Occurs p ended (q ∷ reaped) (q ∷ o.0, o.1, ap (◌∷◌ q) o.2)

child_ends-Occurs :
    (p : ℤ) (s : Processes)
    → Occurs p (child_ends p s).reaped
      × ((child_ends p s).ended ≡ [])
      × ((child_ends p s).spinner ≡ s.spinner)
unfolding child_ends wait_for_child reap_all
child_ends-Occurs p s = (reap_all-Occurs p s.ended (p ∷ s.reaped) ([], s.reaped, refl), refl, refl)

ensure_set :
    (fork : ℕ → ℤ) (s : ExternalSpinner) → is_set s.spinner_pid ≡ true → ensure_running fork s ≡ s
unfolding ensure_running
ensure_set fork s set = ground arith

ensure_times_set :
    (fork : ℕ → ℤ) (n : ℕ) (s : Processes)
    → is_set s.spinner.spinner_pid ≡ true
    → ensure_times fork n s ≡ s
unfolding ensure_times
ensure_times_set fork zero s set = refl
ensure_times_set fork (suc n) s set =
    ap (λ t. ensure_times fork n (record s { spinner = t })) (ensure_set fork s.spinner set)
    ∙ ensure_times_set fork n s set

kill_signals :
    (p : ℕ) (s : ExternalSpinner)
    → s.spinner_pid ≡ pos (suc p)
    → (kill s).syscalls ≡ sigterm (pos (suc p)) ∷ s.syscalls
unfolding kill
kill_signals p s e = ground arith

-- Where the spinner's process ends by itself, the handler of SIGCHLD leaves no child that has ended
-- without waiting for it, and the spinner's process is among those waited for. However often
-- ensure_running is called then, nothing is started, and the next kill() sends SIGTERM to the id of
-- the process that is gone.
pub ended_spinner_stays :
    (fork : ℕ → ℤ) (p n : ℕ) (s : Processes)
    → s.spinner.spinner_pid ≡ pos (suc p)
    → let t = ensure_times fork n (child_ends (pos (suc p)) s) in
      (t.spinner ≡ s.spinner)
      × (t.ended ≡ [])
      × Occurs (pos (suc p)) t.reaped
      × ((kill t.spinner).syscalls ≡ sigterm (pos (suc p)) ∷ s.spinner.syscalls)
ended_spinner_stays fork p n s e =
    let ended : Processes = child_ends (pos (suc p)) s in
    let (reaped, empty, same) = child_ends-Occurs (pos (suc p)) s in
    let stays : ensure_times fork n ended ≡ ended =
      ensure_times_set fork n ended (rw (same, e) refl) in
    rw stays (same, empty, reaped, ap (λ t. (kill t).syscalls) same ∙ kill_signals p s.spinner e)
