-- ===== src/DisplayService/Signals.antt =====
-- The counts that src/unity_display_service.cpp tells its clients, over every history of messages, of
-- changes of the screen and of actions that the loop runs.
use unity_system_compositor.Prelude.{
  ◌≡◌, refl, sym, ap, subst, ◌∙◌, List, [], ◌∷◌, ◌++◌, Str, arith,
}
use mathlib.Core.List.{append-nil, append_assoc}
use unity_system_compositor.MirScreen.{ActiveOutputs, no_outputs}
use unity_system_compositor.Dbus.{
  Dbus, Value, string_value, array_of, empty_array, Sent, method_return, error, signal,
}
use unity_system_compositor.DisplayService.{
  Screen, DisplayService, dbus_display_interface, active_outputs_dict_entry, init, send,
  dbus_turn_on, dbus_turn_off, dbus_emit_active_outputs, active_outputs_changed, run_action,
  dispatch, handle_dbus_message,
}

pub data Event (M : Type 0) : Type 0 where
  message : M → Event M
  changed : ActiveOutputs → Event M
  action : Event M

module _ {M S : Type 0} ⦃dbus : Dbus M⦄ ⦃screen : Screen S⦄ where
  unfoldable pub step : Event M → DisplayService S → DisplayService S
  step (message m) s = handle_dbus_message m s
  step (changed a) s = active_outputs_changed a s
  step action s = run_action s

  unfoldable pub run : List (Event M) → DisplayService S → DisplayService S
  run [] s = s
  run (e ∷ es) s = run es (step e s)

-- What a change signal carries.
abbrev payload : ActiveOutputs → List Value
payload a =
    string_value dbus_display_interface ∷ array_of (active_outputs_dict_entry a) ∷ empty_array ∷ []

-- What the signals carry, the first one first.
abbrev signals : List Sent → List (List Value)
signals [] = []
signals (method_return vs ∷ sent) = signals sent
signals (error text ∷ sent) = signals sent
signals (signal name vs ∷ sent) = signals sent ++ vs ∷ []

abbrev payloads : List ActiveOutputs → List (List Value)
payloads [] = []
payloads (a ∷ xs) = payload a ∷ payloads xs

-- What the screen told the service, the first change first.
abbrev pub told : {M : Type 0} → List (Event M) → List ActiveOutputs
told [] = []
told (message m ∷ es) = told es
told (changed a ∷ es) = a ∷ told es
told (action ∷ es) = told es

-- The last one, or the start.
abbrev pub last : ActiveOutputs → List ActiveOutputs → ActiveOutputs
last a [] = a
last a (b ∷ ys) = last b ys

payloads-append : (xs ys : List ActiveOutputs) → payloads (xs ++ ys) ≡ payloads xs ++ payloads ys
payloads-append [] ys = refl
payloads-append (a ∷ xs) ys = ap (◌∷◌ (payload a)) (payloads-append xs ys)

pub last-append : (a b : ActiveOutputs) (xs : List ActiveOutputs) → last a (xs ++ b ∷ []) ≡ b
last-append a b [] = refl
last-append a b (c ∷ xs) = last-append c b xs

-- Of the counts `t` that the screen told, the first ones were signalled, each once and in order, the
-- others wait in the queue, and the property is the last that was signalled.
pub record IsTelling {S : Type 0} (t : List ActiveOutputs) (s : DisplayService S) : Type 0 where
  pub signalled : List ActiveOutputs
  pub split : t ≡ signalled ++ s.queue
  pub in_order : signals s.sent ≡ payloads signalled
  pub current : s.active_outputs ≡ last no_outputs signalled

module _ {M S : Type 0} ⦃dbus : Dbus M⦄ ⦃screen : Screen S⦄ where
  pub message_keeps :
      (m : M) (s : DisplayService S)
      → ((handle_dbus_message m s).queue ≡ s.queue)
        × ((handle_dbus_message m s).active_outputs ≡ s.active_outputs)
        × (signals (handle_dbus_message m s).sent ≡ signals s.sent)
  unfolding handle_dbus_message dispatch send dbus_turn_on dbus_turn_off
  message_keeps m s = ground arith

  message-IsTelling :
      (m : M) (t : List ActiveOutputs) (s : DisplayService S)
      → IsTelling t s
      → IsTelling t (handle_dbus_message m s)
  message-IsTelling m t s i =
      let (queue, outputs, sent) = message_keeps m s in
      record {
        signalled = i.signalled;
        split = i.split ∙ ap (λ q. i.signalled ++ q) (sym queue);
        in_order = sent ∙ i.in_order;
        current = outputs ∙ i.current;
      }

changed-IsTelling :
    {S : Type 0} (a : ActiveOutputs) (t : List ActiveOutputs) (s : DisplayService S)
    → IsTelling t s
    → IsTelling (t ++ a ∷ []) (active_outputs_changed a s)
unfolding active_outputs_changed
changed-IsTelling a t s i = record {
  signalled = i.signalled;
  split = ap (λ u. u ++ a ∷ []) i.split ∙ append_assoc i.signalled s.queue (a ∷ []);
  in_order = i.in_order;
  current = i.current;
}

pub action_none : {S : Type 0} (s : DisplayService S) → s.queue ≡ [] → run_action s ≡ s
unfolding run_action
action_none s e = ground arith

action_lem :
    {S : Type 0} (queue t : List ActiveOutputs) (s : DisplayService S)
    → s.queue ≡ queue
    → IsTelling t s
    → IsTelling t (run_action s)
unfolding run_action dbus_emit_active_outputs send
action_lem [] t s e i = subst (IsTelling t) (sym (action_none s e)) i
action_lem (a ∷ queue) t s e i = rw e (record {
  signalled = i.signalled ++ a ∷ [];
  split = i.split ∙ ap (λ q. i.signalled ++ q) e ∙ sym (append_assoc i.signalled (a ∷ []) queue);
  in_order =
      ap (λ vs. vs ++ payload a ∷ []) i.in_order ∙ sym (payloads-append i.signalled (a ∷ []));
  current = sym (last-append no_outputs a i.signalled);
})

module _ {M S : Type 0} ⦃dbus : Dbus M⦄ ⦃screen : Screen S⦄ where
  run-IsTelling :
      (es : List (Event M)) (t : List ActiveOutputs) (s : DisplayService S)
      → IsTelling t s
      → IsTelling (t ++ told es) (run es s)
  unfolding run step
  run-IsTelling [] t s i = subst (λ u. IsTelling u s) (sym (append-nil t)) i
  run-IsTelling (message m ∷ es) t s i = run-IsTelling es t _ (message-IsTelling m t s i)
  run-IsTelling (changed a ∷ es) t s i =
      subst (λ u. IsTelling u (run es (active_outputs_changed a s)))
        (append_assoc t (a ∷ []) (told es))
        (run-IsTelling es (t ++ a ∷ []) _ (changed-IsTelling a t s i))
  run-IsTelling (action ∷ es) t s i = run-IsTelling es t _ (action_lem s.queue t s refl i)

  -- After any history of a new service, with messages, changes of the screen and actions of the
  -- loop in any order: of the counts that the screen told, the first ones were signalled, each once
  -- and in order, the others wait in the queue, and the property ActiveOutputs is the last that was
  -- signalled.
  pub run-init-IsTelling :
      (es : List (Event M)) (introspection : Str) (screen_state : S)
      → IsTelling (told es) (run es (init introspection screen_state))
  unfolding init
  run-init-IsTelling es introspection screen_state =
      run-IsTelling es [] _
        (record { signalled = []; split = refl; in_order = refl; current = refl })
