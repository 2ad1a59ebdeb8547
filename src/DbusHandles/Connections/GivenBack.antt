-- ===== src/DbusHandles/Connections/GivenBack.antt =====
-- The connections that src/dbus_connection_handle.cpp opens for the services are given back.
use unity_system_compositor.Prelude.{
  ℕ, ◌+◌, ◌≡◌, refl, ap, false, List, [], ◌∷◌, Str, arith, Bool-cases, inl, inr,
}
use unity_system_compositor.Outcome.{guarded}
use unity_system_compositor.Outcome.Endings.{
  Ending, Ends, then_do-Ends, guarded-Ends, Ends-weaken, both-Ends, any-Ends,
}
use unity_system_compositor.DbusHandles.Connections.{
  loop_ended, Calls, Bus, connections, disconnect, disconnect_all, unwatch_all, end_loop,
  make_service, open_sinks, finish, serve,
}
use unity_system_compositor.DbusHandles.Connections.Owed.{
  opens, refusals, unrefs, times, Owes, end_loop-Owes, make_service-Owes, open_sinks-Owes,
  finish-Owes,
}

-- As often as the connection was opened it was given back or refused, and the loop keeps none.
pub record Settled (c : ℕ) (h : Calls) : Type 0 where
  pub given_back : opens c h ≡ unrefs c h + refusals c h
  pub none_kept : connections h ≡ []

settled : (c : ℕ) (h : Calls) → Owes c [] h → connections h ≡ [] → Settled c h
settled c h o empty = record {
  given_back = omega (arith, o.balance, ap (times c) empty);
  none_kept = empty;
}

module _ (bus : Bus) where
  disconnect-keeps :
      (d : ℕ) (h : Calls)
      → connections h ≡ []
      → Ends (λ u k. connections k ≡ []) (λ x k. Unit {0}) (disconnect bus d h)
  unfolding disconnect
  disconnect-keeps d h empty = elim (Bool-cases (bus.is_connected d h)) [
    | inl connected ↦ rw connected (record { ending = empty })
    | inr gone ↦ rw gone (record { ending = empty })
  ]

  disconnect_all-keeps :
      (ds : List ℕ) (h : Calls)
      → connections h ≡ []
      → Ends (λ u k. connections k ≡ []) (λ x k. Unit {0}) (disconnect_all bus ds h)
  unfolding disconnect_all
  disconnect_all-keeps [] h empty = record { ending = empty }
  disconnect_all-keeps (d ∷ ds) h empty =
      then_do-Ends (disconnect bus d h) _ (disconnect-keeps d h empty)
        (λ u k i. disconnect_all-keeps ds k i)

  end_loop-keeps : (h : Calls) → Ends (λ u k. connections k ≡ []) (λ x k. Unit {0}) (end_loop bus h)
  unfolding end_loop
  end_loop-keeps h =
      then_do-Ends (unwatch_all bus (connections h) h) _
        (any-Ends (unwatch_all bus (connections h) h))
        (λ u k i. disconnect_all-keeps (connections h) (loop_ended ∷ k) refl)

  module _ (c : ℕ) where
    finish-Settled :
        (sinks : List ℕ) (h : Calls)
        → Owes c sinks h
        → Ends (λ u k. Settled c k) (λ x k. Settled c k) (finish bus sinks h)
    unfolding finish
    finish-Settled sinks h o =
        Ends-weaken _ (λ x k. Settled c k) _
          (both-Ends (finish bus sinks h) (finish-Owes bus c (λ x k. Settled c k) sinks h o) (
            then_do-Ends (end_loop bus h) _ (end_loop-keeps h)
              (λ u k i. disconnect_all-keeps sinks k i)))
          (λ u k i. settled c k i.0 i.1) (λ x k i. i.0)

    end_loop-Settled :
        (h : Calls) → Owes c [] h → Ends (λ u k. Settled c k) (λ x k. Settled c k) (end_loop bus h)
    end_loop-Settled h o =
        Ends-weaken _ (λ x k. Settled c k) _
          (both-Ends (end_loop bus h) (end_loop-Owes bus c (λ x k. Settled c k) [] h o)
            (end_loop-keeps h))
          (λ u k i. settled c k i.0 i.1) (λ x k i. i.0)

    serve-Settled :
        (address : Str) (h : Calls)
        → Owes c [] h
        → Ends (λ u k. Settled c k) (λ x k. Settled c k) (serve bus address h)
    unfolding serve
    serve-Settled address h o =
        then_do-Ends (guarded (make_service bus false address _ 1) (end_loop bus) h) _
          (guarded-Ends (make_service bus false address _ 1) (end_loop bus) h
            (make_service-Owes bus c false address _ 1 [] h o) (λ x g j. end_loop-Settled g j))
          (λ d k i.
            then_do-Ends (guarded (open_sinks bus address _ []) (end_loop bus) k) _
              (guarded-Ends (open_sinks bus address _ []) (end_loop bus) k
                (open_sinks-Owes bus c address _ [] k i) (λ x g j. end_loop-Settled g j))
              (λ sinks g j.
                then_do-Ends (guarded (make_service bus false address _ 2) (finish bus sinks) g) _
                  (guarded-Ends (make_service bus false address _ 2) (finish bus sinks) g
                    (make_service-Owes bus c false address _ 2 sinks g j)
                    (λ x g' j'. finish-Settled sinks g' j'))
                  (λ input k' i'. finish-Settled sinks _ (record { balance = i'.balance }))))

    -- The display service, the event sinks, the input service and the thread of the loop are
    -- brought up, in this order, and ended, whatever libdbus answers. Whether all of this ends well
    -- or an exception unwinds it somewhere, each connection has been given back as often as it was
    -- opened, but for the times that the bus refused to register it, and the loop keeps none.
    pub connections_given_back :
        (address : Str) → Ending (λ u k. Settled c k) (λ x k. Settled c k) (serve bus address [])
    connections_given_back address =
        (serve-Settled address [] (record { balance = omega arith })).ending
