-- ===== src/EventLoop/Actions.antt =====
-- The actions of src/dbus_event_loop.cpp: `enqueue` and `dispatch_actions`.
use mathlib.Core.List.{append-nil, append_assoc}
use unity_system_compositor.Prelude.{◌≡◌, sym, ap, ◌∙◌, List, [], ◌∷◌, ◌++◌}

-- The queue with what the actions act on, and those that ran, the first one first.
pub record Actions (A W : Type 0) : Type 0 where
  pub actions : List A
  pub world : W
  pub ran : List A

unfoldable pub enqueue : {A W : Type 0} → A → Actions A W → Actions A W
enqueue action s = record s { actions = s.actions ++ action ∷ [] }

-- `act` is what an action does: it changes the world, and may enqueue further actions.
module _ {A W : Type 0} (act : A → W → W × List A) where
  unfoldable pub enqueue_all : List A → Actions A W → Actions A W
  enqueue_all [] s = s
  enqueue_all (action ∷ actions) s = enqueue_all actions (enqueue action s)

  unfoldable pub call : A → Actions A W → Actions A W
  call action s =
      enqueue_all (act action s.world).1
        (record s { world = (act action s.world).0; ran = s.ran ++ action ∷ [] })

  unfoldable pub call_all : List A → Actions A W → Actions A W
  call_all [] s = s
  call_all (action ∷ actions_to_dispatch) s = call_all actions_to_dispatch (call action s)

  -- The queue is emptied first.
  unfoldable pub dispatch_actions : Actions A W → Actions A W
  dispatch_actions s = call_all s.actions (record s { actions = [] })

  -- The world after the actions, and what they enqueue.
  abbrev acted : List A → W → W × List A
  acted [] w = (w, [])
  acted (a ∷ rest) w =
      let (v, more) = act a w in let (u, later) = acted rest v in (u, more ++ later)

  enqueue_all_lem :
      (more : List A) (s : Actions A W)
      → enqueue_all more s ≡ record s { actions = s.actions ++ more }
  unfolding enqueue_all enqueue
  enqueue_all_lem [] s = ap (λ l. record s { actions = l }) (sym (append-nil s.actions))
  enqueue_all_lem (a ∷ more) s =
      enqueue_all_lem more (enqueue a s)
      ∙ ap (λ l. record s { actions = l }) (append_assoc s.actions (a ∷ []) more)

  call_all_lem :
      (l : List A) (s : Actions A W)
      → call_all l s ≡ record {
        actions = s.actions ++ (acted l s.world).1;
        world = (acted l s.world).0;
        ran = s.ran ++ l;
      }
  unfolding call_all call
  call_all_lem [] s =
      ap (λ l. record s { actions = l }) (sym (append-nil s.actions))
      ∙ ap (λ l. record { actions = s.actions ++ []; world = s.world; ran = l })
          (sym (append-nil s.ran))
  call_all_lem (a ∷ l) s =
      ap (call_all l) (enqueue_all_lem (act a s.world).1 _)
      ∙ call_all_lem l _
      ∙ ap
          (λ q. record {
            actions = q;
            world = (acted (a ∷ l) s.world).0;
            ran = (s.ran ++ a ∷ []) ++ l;
          })
          (append_assoc s.actions (act a s.world).1 (acted l (act a s.world).0).1)
      ∙ ap
          (λ r. record {
            actions = s.actions ++ (acted (a ∷ l) s.world).1;
            world = (acted (a ∷ l) s.world).0;
            ran = r;
          })
          (append_assoc s.ran (a ∷ []) l)

  -- A dispatch runs exactly the actions that wait when it starts, each once and in order, on one
  -- another's results; what they enqueue meanwhile waits, in order, for the next dispatch.
  dispatch_actions_lem :
      (s : Actions A W)
      → dispatch_actions s ≡ record {
        actions = (acted s.actions s.world).1;
        world = (acted s.actions s.world).0;
        ran = s.ran ++ s.actions;
      }
  unfolding dispatch_actions
  dispatch_actions_lem s = call_all_lem s.actions (record s { actions = [] })
