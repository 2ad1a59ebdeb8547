-- ===== src/DbusHandles/Connections/Owed.antt =====
-- What the calls of src/dbus_connection_handle.cpp leave to give back.
use unity_system_compositor.Prelude.{
  ℕ, ◌+◌, ◌==◌, ◌≡◌, refl, ap, Bool, true, false, not, List, [], ◌∷◌, ◌++◌, Option, none, some, Str,
  arith, Bool-cases, inl, inr,
}
use unity_system_compositor.Outcome.{Outcome, guarded}
use unity_system_compositor.Outcome.Endings.{Ends, then_do-Ends, guarded-Ends, require-Ends}
use unity_system_compositor.DbusHandles.Connections.{
  Call, opened, refused, unreffed, loop_ended, Calls, Bus, connections, found, is_owner,
  check_registered, open_connection, disconnect, request_name, add_filter, disconnect_all,
  unwatch_all, end_loop, add_connection, make_service, make_sink, open_sinks, finish,
}

abbrev one_if : Bool → ℕ
one_if true = 1
one_if false = 0

-- How often a connection was opened, was refused by the bus, and was given back.
abbrev pub opens : ℕ → Calls → ℕ
opens c [] = 0
opens c (opened d ∷ h) = one_if (d == c) + opens c h
opens c (a ∷ h) = opens c h

abbrev pub refusals : ℕ → Calls → ℕ
refusals c [] = 0
refusals c (refused d ∷ h) = one_if (d == c) + refusals c h
refusals c (a ∷ h) = refusals c h

abbrev pub unrefs : ℕ → Calls → ℕ
unrefs c [] = 0
unrefs c (unreffed d ∷ h) = one_if (d == c) + unrefs c h
unrefs c (a ∷ h) = unrefs c h

abbrev pub times : ℕ → List ℕ → ℕ
times c [] = 0
times c (d ∷ ds) = one_if (d == c) + times c ds

times-append : (c : ℕ) (ds es : List ℕ) → times c (ds ++ es) ≡ times c ds + times c es
times-append c [] es = omega arith
times-append c (d ∷ ds) es = omega (arith, times-append c ds es)

-- Of the times the connection was opened, those are still owed that it stands in the loop's vector
-- or in `own`.
pub record Owes (c : ℕ) (own : List ℕ) (h : Calls) : Type 0 where
  pub balance : opens c h ≡ unrefs c h + refusals c h + times c (connections h) + times c own

-- Behind a call that leaves this as it is, whichever way it ends.
abbrev Leaves : {A : Type 0} → ℕ → List ℕ → (Calls → Outcome Call A) → Calls → Type 0
Leaves c own m h = Ends (λ a k. Owes c own k) (λ x k. Owes c own k) (m h)

found-Owes :
    (c : ℕ) (answer : Option ℕ) (own : List ℕ) (h : Calls)
    → Owes c own h
    → Ends (λ d k. Owes c (d ∷ own) k) (λ x k. Owes c own k) (found answer h)
found-Owes c none own h o = record { ending = o }
found-Owes c (some d) own h o = record { ending = record { balance = omega (arith, o.balance) } }

check_registered-Owes :
    (c d : ℕ) (registered : Bool) (own : List ℕ) (h : Calls)
    → Owes c (d ∷ own) h
    → Ends (λ e k. Owes c (e ∷ own) k) (λ x k. Owes c own k) (check_registered registered d h)
check_registered-Owes c d true own h o = record { ending = o }
check_registered-Owes c d false own h o = record {
  ending = record { balance = omega (arith, o.balance) };
}

is_owner-Owes :
    (c : ℕ) (answer : Option Bool) (own : List ℕ) (h : Calls)
    → Owes c own h
    → Leaves c own (is_owner answer) h
is_owner-Owes c none own h o = record { ending = o }
is_owner-Owes c (some true) own h o = record { ending = o }
is_owner-Owes c (some false) own h o = record { ending = o }

module _ (bus : Bus) (c : ℕ) where
  open_connection-Owes :
      (address : Str) (own : List ℕ) (h : Calls)
      → Owes c own h
      → Ends (λ d k. Owes c (d ∷ own) k) (λ x k. Owes c own k) (open_connection bus address h)
  unfolding open_connection
  open_connection-Owes address own h o =
      then_do-Ends (found (bus.open_private address h) h) _
        (found-Owes c (bus.open_private address h) own h o)
        (λ d k i. check_registered-Owes c d (bus.register d k) own k i)

  request_name-Owes :
      (d : ℕ) (name : Str) (own : List ℕ) (h : Calls)
      → Owes c own h
      → Leaves c own (request_name bus d name) h
  unfolding request_name
  request_name-Owes d name own h o =
      then_do-Ends (is_owner (bus.request_name d name h) h) _
        (is_owner-Owes c (bus.request_name d name h) own h o)
        (λ u k i. record { ending = record { balance = i.balance } })

  add_filter-Owes :
      (d this : ℕ) (own : List ℕ) (h : Calls)
      → Owes c own h
      → Leaves c own (add_filter bus d this) h
  unfolding add_filter
  add_filter-Owes d this own h o =
      require-Ends (bus.add_filter d this h) _ h _
        (record { ending = record { balance = o.balance } }) o

  add_connection-Owes :
      (running : Bool) (d : ℕ) (own : List ℕ) (h : Calls)
      → Owes c (d ∷ own) h
      → Ends (λ u k. Owes c own k) (λ x k. Owes c (d ∷ own) k) (add_connection running d h)
  unfolding add_connection
  add_connection-Owes running d own h o =
      require-Ends (not running) _ h _
        (record {
          ending = record {
            balance = omega (arith, o.balance, times-append c (connections h) (d ∷ []));
          };
        })
        o

  module _ (e : Str → Calls → Type 0) where
    disconnect-Owes :
        (d : ℕ) (own : List ℕ) (h : Calls)
        → Owes c (d ∷ own) h
        → Ends (λ u k. Owes c own k) e (disconnect bus d h)
    unfolding disconnect
    disconnect-Owes d own h o = elim (Bool-cases (bus.is_connected d h)) [
      | inl connected ↦
          rw connected (record { ending = record { balance = omega (arith, o.balance) } })
      | inr gone ↦ rw gone (record { ending = record { balance = omega (arith, o.balance) } })
    ]

    disconnect_all-Owes :
        (ds own : List ℕ) (h : Calls)
        → Owes c (ds ++ own) h
        → Ends (λ u k. Owes c own k) e (disconnect_all bus ds h)
    unfolding disconnect_all
    disconnect_all-Owes [] own h o = record { ending = o }
    disconnect_all-Owes (d ∷ ds) own h o =
        then_do-Ends (disconnect bus d h) _ (disconnect-Owes d (ds ++ own) h o)
          (λ u k i. disconnect_all-Owes ds own k i)

    unwatch_all-Owes :
        (ds own vector : List ℕ) (h : Calls)
        → Owes c own h
        → connections h ≡ vector
        → Ends (λ u k. Owes c own k × (connections k ≡ vector)) e (unwatch_all bus ds h)
    unfolding unwatch_all
    unwatch_all-Owes [] own vector h o same = record { ending = (o, same) }
    unwatch_all-Owes (d ∷ ds) own vector h o same =
        unwatch_all-Owes ds own vector _ (record { balance = o.balance }) same

    pub end_loop-Owes :
        (own : List ℕ) (h : Calls) → Owes c own h → Ends (λ u k. Owes c own k) e (end_loop bus h)
    unfolding end_loop
    end_loop-Owes own h o =
        then_do-Ends (unwatch_all bus (connections h) h) _
          (unwatch_all-Owes (connections h) own (connections h) h o refl)
          (λ u k i. disconnect_all-Owes (connections h) own (loop_ended ∷ k) (record {
            balance =
                omega (arith, i.0.balance, times-append c (connections h) own, ap (times c) i.1);
          }))

  pub make_service-Owes :
      (running : Bool) (address name : Str) (this : ℕ) (own : List ℕ) (h : Calls)
      → Owes c own h
      → Leaves c own (make_service bus running address name this) h
  unfolding make_service
  make_service-Owes running address name this own h o =
      then_do-Ends (open_connection bus address h) _ (open_connection-Owes address own h o)
        (λ d k i.
          then_do-Ends (guarded (add_connection running d) (disconnect bus d) k) _
            (guarded-Ends (add_connection running d) (disconnect bus d) k
              (add_connection-Owes running d own k i)
              (λ x g j. disconnect-Owes (λ y g'. Owes c own g') d own g j))
            (λ u g j.
              then_do-Ends (request_name bus d name g) _ (request_name-Owes d name own g j)
                (λ v g' j'.
                  then_do-Ends (add_filter bus d this g') _ (add_filter-Owes d this own g' j')
                    (λ w k' i'. record { ending = i' }))))

  make_sink-Owes :
      (address name : Str) (own : List ℕ) (h : Calls)
      → Owes c own h
      → Ends (λ d k. Owes c (d ∷ own) k) (λ x k. Owes c own k) (make_sink bus address name h)
  unfolding make_sink
  make_sink-Owes address name own h o =
      then_do-Ends (open_connection bus address h) _ (open_connection-Owes address own h o)
        (λ d k i.
          then_do-Ends (guarded (request_name bus d name) (disconnect bus d) k) _
            (guarded-Ends (request_name bus d name) (disconnect bus d) k
              (request_name-Owes d name (d ∷ own) k i)
              (λ x g j. disconnect-Owes (λ y g'. Owes c own g') d own g j))
            (λ u g j. record { ending = j }))

  pub open_sinks-Owes :
      (address : Str) (names : List Str) (made : List ℕ) (h : Calls)
      → Owes c made h
      → Ends (λ sinks k. Owes c sinks k) (λ x k. Owes c [] k) (open_sinks bus address names made h)
  unfolding open_sinks
  open_sinks-Owes address [] made h o = record { ending = o }
  open_sinks-Owes address (name ∷ names) made h o =
      then_do-Ends (guarded (make_sink bus address name) (disconnect_all bus made) h) _
        (guarded-Ends (make_sink bus address name) (disconnect_all bus made) h
          (make_sink-Owes address name made h o)
          (λ x g j.
            disconnect_all-Owes (λ y g'. Owes c [] g') made [] g
              (record { balance = omega (arith, j.balance, times-append c made []) })))
        (λ d k i.
          open_sinks-Owes address names (made ++ d ∷ []) k
            (record { balance = omega (arith, i.balance, times-append c made (d ∷ [])) }))

  pub finish-Owes :
      (e : Str → Calls → Type 0) (sinks : List ℕ) (h : Calls)
      → Owes c sinks h
      → Ends (λ u k. Owes c [] k) e (finish bus sinks h)
  unfolding finish
  finish-Owes e sinks h o = then_do-Ends (end_loop bus h) _ (end_loop-Owes e sinks h o) (λ u k i.
      disconnect_all-Owes e sinks [] k
        (record { balance = omega (arith, i.balance, times-append c sinks []) }))
