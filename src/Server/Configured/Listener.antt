-- ===== src/Server/Configured/Listener.antt =====
-- ServerStatusListener of src/server.cpp: the sessions are told when the server pauses and resumes.
use unity_system_compositor.Prelude.{
  ℕ, ◌==◌, ◌≡◌, refl, sym, subst, Bool, true, false, ◌&&◌, List, [], ◌∷◌, Option, none, some,
  if◌then◌else◌, arith,
}

-- set_lifecycle_state, on a session by its address.
pub data Lifecycle : Type 0 where
  will_suspend are_resumed : ℕ → Lifecycle

-- The session that the shell's focus controller names.
paused : Option ℕ → List Lifecycle → List Lifecycle
paused none calls = calls
paused (some session) calls = will_suspend session ∷ calls

resumed : Option ℕ → List Lifecycle → List Lifecycle
resumed none calls = calls
resumed (some session) calls = are_resumed session ∷ calls

pub record Shell : Type 0 where
  pub focused : Option ℕ
  pub is_paused : Bool
  pub calls : List Lifecycle

start : Shell
start = record { focused = none; is_paused = false; calls = [] }

-- The server pauses and resumes by turns, and the focus moves meanwhile.
pub data Event : Type 0 where
  focus : Option ℕ → Event
  toggle : Event

step : Event → Shell → Shell
step (focus session) s = record s { focused = session }
step toggle s =
    if s.is_paused
    then record s { is_paused = false; calls = resumed s.focused s.calls }
    else record s { is_paused = true; calls = paused s.focused s.calls }

run : List Event → Shell → Shell
run [] s = s
run (e ∷ es) s = run es (step e s)

-- Whether a session was told last to suspend.
abbrev is_suspended : ℕ → List Lifecycle → Bool
is_suspended n [] = false
is_suspended n (will_suspend m ∷ calls) = if m == n then true else is_suspended n calls
is_suspended n (are_resumed m ∷ calls) = if m == n then false else is_suspended n calls

abbrev is_focused : ℕ → Option ℕ → Bool
is_focused n none = false
is_focused n (some m) = m == n

-- The focus does not move while the server is paused.
abbrev IsSteady : Bool → List Event → Type 0
IsSteady p [] = Unit
IsSteady p (focus session ∷ es) = (p ≡ false) × IsSteady p es
IsSteady p (toggle ∷ es) = IsSteady (if p then false else true) es

pub record IsFollowing (s : Shell) : Type 0 where
  pub following : (n : ℕ) → is_suspended n s.calls ≡ (s.is_paused && is_focused n s.focused)

toggle-IsFollowing :
    (session : Option ℕ) (p : Bool) (s : Shell)
    → s.focused ≡ session
    → s.is_paused ≡ p
    → IsFollowing s
    → IsFollowing (step toggle s)
unfolding step paused resumed
toggle-IsFollowing none false s e f i = record { following = λ n. ground (arith, i.following n) }
toggle-IsFollowing none true s e f i = record { following = λ n. ground (arith, i.following n) }
toggle-IsFollowing (some m) false s e f i = record {
  following = λ n. ground (arith, i.following n);
}
toggle-IsFollowing (some m) true s e f i = record { following = λ n. ground (arith, i.following n) }

toggled : (s : Shell) → (step toggle s).is_paused ≡ (if s.is_paused then false else true)
unfolding step
toggled s = ground arith

run-IsFollowing :
    (es : List Event) (s : Shell) → IsSteady s.is_paused es → IsFollowing s → IsFollowing (run es s)
unfolding run step
run-IsFollowing [] s steady i = i
run-IsFollowing (focus session ∷ es) s steady i =
    run-IsFollowing es _ steady.1
      (record { following = λ n. ground (arith, i.following n, steady.0) })
run-IsFollowing (toggle ∷ es) s steady i =
    run-IsFollowing es (step toggle s) (subst (λ p. IsSteady p es) (sym (toggled s)) steady)
      (toggle-IsFollowing s.focused s.is_paused s refl refl i)

-- Where the focus moves while the server is paused, the session that had it stays suspended, and the
-- other one, which was not suspended, is resumed.
stays_suspended :
    (m n : ℕ)
    → (m == n) ≡ false
    → let s = run (focus (some m) ∷ toggle ∷ focus (some n) ∷ toggle ∷ []) start in
      (is_suspended m s.calls ≡ true) × (s.is_paused ≡ false)
unfolding run step start paused resumed
stays_suspended m n apart = ground arith

-- After any history in which the focus does not move while the server is paused: a session was told
-- last to suspend if and only if the server is paused and the session has the focus.
run-start-IsFollowing : (es : List Event) → IsSteady false es → IsFollowing (run es start)
unfolding start
run-start-IsFollowing es steady = run-IsFollowing es _ steady (record { following = λ n. refl })
