-- ===== src/DisplayService/OnScreen/InStep.antt =====
-- What src/unity_display_service.cpp says of the screen's counts keeps up with src/mir_screen.cpp.
use unity_system_compositor.Prelude.{
  ℕ, ◌≡◌, refl, sym, ap, subst, ◌∙◌, ◌⊎◌, inl, inr, Bool, List, [], ◌∷◌, Str, if_either, bytes,
}
use unity_system_compositor.MirScreen.{
  ActiveOutputs, Configuration, OutputFilter, PowerMode, Mir, MirScreen, tell_all,
  configuration_applied, initial_configuration, set_power_mode, turn_on, turn_off,
}
use unity_system_compositor.MirScreen.Cases.{set_power_mode_cases}
use unity_system_compositor.Dbus.{Dbus, Sent, error, method_return, string_value}
use unity_system_compositor.DisplayService.{
  mir_screen, active_outputs_changed, run_action, handle_dbus_message, dispatch, filter_or_all,
  get_reply, get_all_reply, send, dbus_turn_on, dbus_turn_off, dbus_emit_active_outputs,
}
use unity_system_compositor.DisplayService.Signals.{last, last-append, action_none, message_keeps}
use unity_system_compositor.DisplayService.OnScreen.{
  Served, enqueue_outputs, Event, message, initially_configured, configured, turned_on, turned_off,
  action, enqueue_told, collect_enqueued, step, run,
}

-- A screen whose one handler is the service's, and which has told either nothing since its counts
-- were `counts`, or the counts that it has now.
record HasTold {D : Type 0} (this : ℕ) (counts : ActiveOutputs)
    (s : MirScreen D (List ActiveOutputs)) : Type 0 where
  handlers : s.active_outputs_handlers ≡ (this, enqueue_outputs) ∷ []
  told : ((s.world ≡ []) × (s.active_outputs ≡ counts)) ⊎ (s.world ≡ s.active_outputs ∷ [])

-- The call that leads from `s` to `t` has told what it was to tell.
record IsHandled {D : Type 0} (this : ℕ) (s t : Served D) : Type 0 where
  told : HasTold this (last s.active_outputs s.queue) t.screen

-- The service will have said what the screen's counts are when the waiting actions have run.
pub record IsInStep {D : Type 0} (this : ℕ) (s : Served D) : Type 0 where
  pub handlers : s.screen.active_outputs_handlers ≡ (this, enqueue_outputs) ∷ []
  pub nothing_left : s.screen.world ≡ []
  pub in_step : last s.active_outputs s.queue ≡ s.screen.active_outputs

module _ {D : Type 0} (this : ℕ) where
  applied-HasTold :
      (os : Configuration) (s : MirScreen D (List ActiveOutputs)) (counts : ActiveOutputs)
      → s.active_outputs_handlers ≡ (this, enqueue_outputs) ∷ []
      → s.world ≡ []
      → HasTold this counts (configuration_applied os s)
  unfolding configuration_applied tell_all
  applied-HasTold os s counts h w = record { handlers = h; told = inr (rw (h, w) refl) }

  collect_enqueued-IsInStep :
      (s : Served D)
      → HasTold this (last s.active_outputs s.queue) s.screen
      → IsInStep this (collect_enqueued s)
  unfolding collect_enqueued enqueue_told active_outputs_changed
  collect_enqueued-IsInStep s i = elim i.told [
    | inl (none_told, same) ↦
        rw none_told (record { handlers = i.handlers; nothing_left = refl; in_step = sym same })
    | inr one_told ↦ rw one_told (record {
      handlers = i.handlers;
      nothing_left = refl;
      in_step = last-append s.active_outputs s.screen.active_outputs s.queue;
    })
  ]

  send-IsHandled : (x : Sent) (s t : Served D) → IsHandled this s t → IsHandled this s (send x t)
  unfolding send
  send-IsHandled x s t h = record { told = h.told }

  kept-IsHandled : (s : Served D) → IsInStep this s → IsHandled this s s
  kept-IsHandled s i = record {
    told = record { handlers = i.handlers; told = inl (i.nothing_left, sym i.in_step) };
  }

  action-IsInStep :
      (queue : List ActiveOutputs) (s : Served D)
      → s.queue ≡ queue
      → IsInStep this s
      → IsInStep this (run_action s)
  unfolding run_action dbus_emit_active_outputs send
  action-IsInStep [] s e i = subst (IsInStep this) (sym (action_none s e)) i
  action-IsInStep (a ∷ queue) s e i = rw e (record {
    handlers = i.handlers;
    nothing_left = i.nothing_left;
    in_step = ap (last s.active_outputs) (sym e) ∙ i.in_step;
  })

module _ {D : Type 0} (this : ℕ) ⦃mir : Mir D⦄ where
  set_power_mode-HasTold :
      (mode : PowerMode) (f : OutputFilter) (s : Served D)
      → IsInStep this s
      → HasTold this (last s.active_outputs s.queue) (set_power_mode mode f s.screen)
  set_power_mode-HasTold mode f s i =
      set_power_mode_cases (HasTold this (last s.active_outputs s.queue)) mode f s.screen
        (λ d. record { handlers = i.handlers; told = inl (i.nothing_left, sym i.in_step) })
        (λ d os.
          applied-HasTold this os (record s.screen { device = d }) (last s.active_outputs s.queue)
            i.handlers i.nothing_left)

  dbus_turn_on-IsHandled :
      (filter : Str) (s : Served D)
      → IsInStep this s
      → IsHandled this s (dbus_turn_on ⦃screen = mir_screen⦄ filter s)
  unfolding dbus_turn_on mir_screen turn_on
  dbus_turn_on-IsHandled filter s i = record { told = set_power_mode-HasTold PowerMode.on _ s i }

  dbus_turn_off-IsHandled :
      (filter : Str) (s : Served D)
      → IsInStep this s
      → IsHandled this s (dbus_turn_off ⦃screen = mir_screen⦄ filter s)
  unfolding dbus_turn_off mir_screen turn_off
  dbus_turn_off-IsHandled filter s i = record { told = set_power_mode-HasTold PowerMode.off _ s i }

module _ {M D : Type 0} (this : ℕ) ⦃dbus : Dbus M⦄ ⦃mir : Mir D⦄ where
  dispatch-IsHandled :
      (m : M) (s : Served D)
      → IsInStep this s
      → IsHandled this s (dispatch ⦃screen = mir_screen⦄ m s).0
  unfolding dispatch
  dispatch-IsHandled m s i =
      let P : Served D × Bool → Type 0 = λ r. IsHandled this s r.0 in
      let kept : IsHandled this s s = kept-IsHandled this s i in
      let filter : Str = filter_or_all (dbus.string_arg m) in
      if_either P _
        (send-IsHandled this (method_return (string_value s.introspection ∷ [])) s s kept)
        (if_either P _
          (send-IsHandled this (method_return []) s _ (dbus_turn_on-IsHandled this filter s i))
          (if_either P _
            (send-IsHandled this (method_return []) s _ (dbus_turn_off-IsHandled this filter s i))
            (if_either P _
              (send-IsHandled this (method_return (get_reply (dbus.string_args m) s)) s s kept)
              (if_either P _
                (send-IsHandled this (method_return (get_all_reply (dbus.string_arg m) s)) s s kept)
                (if_either P _ (send-IsHandled this (error (bytes "Not supported")) s s kept)
                  kept)))))

  message-IsHandled :
      (m : M) (s : Served D)
      → IsInStep this s
      → IsHandled this s (handle_dbus_message ⦃screen = mir_screen⦄ m s)
  unfolding handle_dbus_message
  message-IsHandled m s i =
      if_either (IsHandled this s) (dispatch ⦃screen = mir_screen⦄ m s).1
        (send-IsHandled this (error (bytes "Invalid arguments")) s _ (dispatch-IsHandled m s i))
        (dispatch-IsHandled m s i)

  message-IsInStep :
      (m : M) (s : Served D)
      → IsInStep this s
      → IsInStep this (collect_enqueued (handle_dbus_message ⦃screen = mir_screen⦄ m s))
  message-IsInStep m s i =
      let (queue, outputs, sent) = message_keeps ⦃screen = mir_screen⦄ m s in
      let t : Served D = handle_dbus_message ⦃screen = mir_screen⦄ m s in
      collect_enqueued-IsInStep this t (
        subst (λ a. HasTold this a t.screen)
          (sym (ap (last t.active_outputs) queue ∙ ap (λ a. last a s.queue) outputs))
          (message-IsHandled m s i).told)

  step-IsInStep : (e : Event M) (s : Served D) → IsInStep this s → IsInStep this (step e s)
  unfolding step initial_configuration turn_on turn_off configuration_applied
  step-IsInStep (message m) s i = message-IsInStep m s i
  step-IsInStep (initially_configured os) s i =
      collect_enqueued-IsInStep this (record s { screen = initial_configuration os s.screen })
        (applied-HasTold this os s.screen _ i.handlers i.nothing_left)
  step-IsInStep (configured os) s i =
      collect_enqueued-IsInStep this (record s { screen = configuration_applied os s.screen })
        (applied-HasTold this os s.screen _ i.handlers i.nothing_left)
  step-IsInStep (turned_on f) s i =
      collect_enqueued-IsInStep this (record s { screen = turn_on f s.screen })
        (set_power_mode-HasTold this PowerMode.on f s i)
  step-IsInStep (turned_off f) s i =
      collect_enqueued-IsInStep this (record s { screen = turn_off f s.screen })
        (set_power_mode-HasTold this PowerMode.off f s i)
  step-IsInStep action s i = action-IsInStep this s.queue s refl i

  pub run-IsInStep :
      (es : List (Event M)) (s : Served D) → IsInStep this s → IsInStep this (run es s)
  unfolding run
  run-IsInStep [] s i = i
  run-IsInStep (e ∷ es) s i = run-IsInStep es _ (step-IsInStep e s i)
