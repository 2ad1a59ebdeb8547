-- ===== src/Switcher/Refinement.antt =====
-- `update_displayed_sessions` of src/session_switcher.cpp carries out the plan.
use unity_system_compositor.Prelude.{
  ◌≡◌, refl, ap, ◌∙◌, Bool, true, false, List, [], ◌∷◌, none, some, Str, arith, Bool-cases,
  Option-cases, inl, inr, ◌⊎◌,
}
use unity_system_compositor.Prelude.Map
use unity_system_compositor.Prelude.Map.{str_key}
use unity_system_compositor.Session.{Scene, Session, Call, hide}
use unity_system_compositor.Spinner.{Spinner}
use unity_system_compositor.Switcher.{
  Sessions, Switcher, hide_all, hide_others, hide_all_sessions, is_session_ready_for_display,
  hide_uninteresting_sessions, update_displayed_sessions, display_active, display_next,
  show_session, hide_session, ensure_spinner_is_not_running, ensure_spinner_will_be_shown,
  is_session_expected_to_become_ready, is_ready,
}
use unity_system_compositor.Switcher.Sound.{IsSound, find-IsEntry}
use unity_system_compositor.Switcher.Plan.{
  Plan, plan, perform, hidden_all, hidden_others, ready_session,
}

module _ ⦃scene : Scene⦄ where
  hide_all_lem :
      (m : Sessions) (calls : List Call) → IsSound m → hide_all m calls ≡ some (hidden_all m calls)
  unfolding hide_all hidden_all
  hide_all_lem [] calls v = refl
  hide_all_lem ((key, info) ∷ m) calls v = ground (arith, hide_all_lem m (hide v.0.0 calls) v.1)

  hide_others_lem :
      (active next : Str) (m : Sessions) (calls : List Call)
      → IsSound m
      → hide_others active next m calls ≡ some (hidden_others active next m calls)
  unfolding hide_others hidden_others
  hide_others_lem active next [] calls v = refl
  hide_others_lem active next ((key, info) ∷ m) calls v = ground (
    arith,
    hide_others_lem active next m calls v.1,
    hide_others_lem active next m (hide v.0.0 calls) v.1,
  )

  -- A name is that of a session that may be displayed, or of none.
  ready_cases :
      (key : Str) (m : Sessions)
      → IsSound m
      → ((session : Session) × (Map.find key m
            ≡ some (record { session = some session; ready = true })))
        ⊎ ((is_ready (Map.find key m) ≡ false) × (ready_session (Map.find key m) ≡ none))
  ready_cases key m v = elim (Option-cases (Map.find key m)) [
    | inl e ↦ rw e (inr (refl, refl))
    | inr (info, e) ↦ ground (arith, find-IsEntry key m v e)
  ]

  pub entry_cases :
      (key : Str) (m : Sessions)
      → IsSound m
      → (Map.find key m ≡ none)
        ⊎ ((session : Session) × (ready : Bool) × (Map.find key m
              ≡ some (record { session = some session; ready = ready })))
  entry_cases key m v = elim (Option-cases (Map.find key m)) [
    | inl e ↦ inl e
    | inr (info, e) ↦
        let entry = find-IsEntry key m v e in
        inr (entry.0, info.ready, e ∙ ap (λ x. some (record info { session = x })) entry.1)
  ]

module _ ⦃scene : Scene⦄ {S : Type 0} ⦃spinner : Spinner S⦄ where
  lit_lem :
      (s : Switcher S)
      → IsSound s.sessions
      → s.has_active_outputs ≡ true
      → update_displayed_sessions s ≡ some (perform (plan s) s)
  unfolding update_displayed_sessions hide_uninteresting_sessions display_active display_next
      perform plan show_session hide_session ensure_spinner_is_not_running
      ensure_spinner_will_be_shown is_session_ready_for_display is_session_expected_to_become_ready
  lit_lem s v lit = ground (
    arith,
    hide_others_lem s.active_name s.next_name s.sessions s.calls v,
    ready_cases s.active_name s.sessions v,
    ready_cases s.next_name s.sessions v,
    entry_cases s.spinner_name s.sessions v,
  )

  dark_lem :
      (s : Switcher S)
      → IsSound s.sessions
      → s.has_active_outputs ≡ false
      → update_displayed_sessions s ≡ some (perform (plan s) s)
  unfolding update_displayed_sessions hide_all_sessions perform plan
  dark_lem s v dark = ground (arith, hide_all_lem s.sessions s.calls v)

  -- When no session pointer is null and each session stands under its own name, the update goes
  -- through no null pointer and does what the plan says: the plan is one decision from the outputs,
  -- the booting flag and the state of the active and the next session.
  pub update-perform :
      (s : Switcher S)
      → IsSound s.sessions
      → update_displayed_sessions s ≡ some (perform (plan s) s)
  update-perform s v = elim (Bool-cases s.has_active_outputs) [
    | inl lit ↦ lit_lem s v lit
    | inr dark ↦ dark_lem s v dark
  ]

-- The plan changes neither the sessions nor the names.
module _ {S : Type 0} ⦃spinner : Spinner S⦄ where
  pub record Keeps (s t : Switcher S) : Type 0 where
    pub sessions_kept : t.sessions ≡ s.sessions
    pub active_kept : t.active_name ≡ s.active_name
    pub next_kept : t.next_name ≡ s.next_name
    pub spinner_kept : t.spinner_name ≡ s.spinner_name
    pub outputs_kept : t.has_active_outputs ≡ s.has_active_outputs

  pub perform-Keeps : (p : Plan) (s : Switcher S) → Keeps s (perform p s)
  unfolding perform
  perform-Keeps p s = ground arith
