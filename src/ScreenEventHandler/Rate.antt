-- ===== src/ScreenEventHandler/Rate.antt =====
-- How often src/screen_event_handler.cpp notifies of activity.
use unity_system_compositor.Prelude.{
  ℕ, suc, ◌*◌, ◌≡◌, false, List, [], ◌∷◌, arith, Bool-cases, inl, inr,
}
use unity_system_compositor.Prelude.Int.{ℤ, pos, ◌+ℤ◌, ◌≤ℤ◌, ltb_ℤ}
use unity_system_compositor.ScreenEventHandler.{
  KeyCodes, Clock, Action, MirEvent, not_input, key, touch, pointer, other_input, Notification,
  press, release, changing_power_state, extending_power_state, event_period, Handler, init, handle,
  handle_key, notify_power_button, notify_activity_changing_power_state,
  notify_activity_extending_power_state,
}

unfoldable pub run : ⦃codes : KeyCodes⦄ ⦃clock : Clock⦄ → List MirEvent → Handler → Handler
run [] s = s
run (e ∷ es) s = run es (handle e s).0

abbrev pub changings : List Notification → ℕ
changings [] = 0
changings (changing_power_state ∷ ns) = suc (changings ns)
changings (press ∷ ns) = changings ns
changings (release ∷ ns) = changings ns
changings (extending_power_state ∷ ns) = changings ns

abbrev pub extendings : List Notification → ℕ
extendings [] = 0
extendings (extending_power_state ∷ ns) = suc (extendings ns)
extendings (press ∷ ns) = extendings ns
extendings (release ∷ ns) = extendings ns
extendings (changing_power_state ∷ ns) = extendings ns

-- A steady clock: it starts at 0 or later and does not go back.
pub record IsSteady (clock : Clock) : Type 0 where
  pub starts : pos 0 ≤ℤ clock.now 0
  pub goes_on : (n : ℕ) → clock.now n ≤ℤ clock.now (suc n)

-- The time that `count` notifications need has passed by the last of them.
pub record Paced (now last : ℤ) (count : ℕ) : Type 0 where
  pub paid : pos (count * 500_000_000) ≤ℤ last +ℤ event_period
  pub seen : last ≤ℤ now

Paced-notified :
    (t₀ t₁ t₂ last : ℤ) (count : ℕ)
    → Paced t₀ last count
    → ltb_ℤ t₀ (last +ℤ event_period) ≡ false
    → t₀ ≤ℤ t₁
    → t₁ ≤ℤ t₂
    → Paced t₂ t₁ (suc count)
unfolding ◌+ℤ◌
Paced-notified t₀ t₁ t₂ last count p h a b = ground arith

Paced-later : (t₀ t₁ last : ℤ) (count : ℕ) → Paced t₀ last count → t₀ ≤ℤ t₁ → Paced t₁ last count
unfolding ◌+ℤ◌
Paced-later t₀ t₁ last count p a = ground arith

module _ ⦃codes : KeyCodes⦄ ⦃clock : Clock⦄ (steady : IsSteady clock) where
  pub record Inv (s : Handler) : Type 0 where
    pub changing : Paced (clock.now s.reads) s.last_changing (changings s.notifications)
    pub extending : Paced (clock.now s.reads) s.last_extending (extendings s.notifications)

  changing-Inv : (s : Handler) → Inv s → Inv (notify_activity_changing_power_state s)
  unfolding notify_activity_changing_power_state
  changing-Inv s i =
      elim (Bool-cases (ltb_ℤ (clock.now s.reads) (s.last_changing +ℤ event_period))) [
        | inl early ↦ rw early (record {
          changing = Paced-later _ _ _ _ i.changing (steady.goes_on s.reads);
          extending = Paced-later _ _ _ _ i.extending (steady.goes_on s.reads);
        })
        | inr due ↦ rw due (record {
          changing =
              Paced-notified _ _ _ _ _ i.changing due (steady.goes_on s.reads)
                (steady.goes_on (suc s.reads));
          extending =
              Paced-later _ _ _ _ (Paced-later _ _ _ _ i.extending (steady.goes_on s.reads))
                (steady.goes_on (suc s.reads));
        })
      ]

  extending-Inv : (s : Handler) → Inv s → Inv (notify_activity_extending_power_state s)
  unfolding notify_activity_extending_power_state
  extending-Inv s i =
      elim (Bool-cases (ltb_ℤ (clock.now s.reads) (s.last_extending +ℤ event_period))) [
        | inl early ↦ rw early (record {
          changing = Paced-later _ _ _ _ i.changing (steady.goes_on s.reads);
          extending = Paced-later _ _ _ _ i.extending (steady.goes_on s.reads);
        })
        | inr due ↦ rw due (record {
          changing =
              Paced-later _ _ _ _ (Paced-later _ _ _ _ i.changing (steady.goes_on s.reads))
                (steady.goes_on (suc s.reads));
          extending =
              Paced-notified _ _ _ _ _ i.extending due (steady.goes_on s.reads)
                (steady.goes_on (suc s.reads));
        })
      ]

  power_button-Inv : (a : Action) (s : Handler) → Inv s → Inv (notify_power_button a s)
  unfolding notify_power_button
  power_button-Inv Action.down s i = record { changing = i.changing; extending = i.extending }
  power_button-Inv Action.up s i = record { changing = i.changing; extending = i.extending }
  power_button-Inv Action.other_action s i = i

  handle_key-Inv : (code : ℕ) (a : Action) (s : Handler) → Inv s → Inv (handle_key code a s)
  unfolding handle_key
  handle_key-Inv code a s i =
      ground (arith, power_button-Inv a s i, changing-Inv s i, extending-Inv s i)

  handle-Inv : (e : MirEvent) (s : Handler) → Inv s → Inv (handle e s).0
  unfolding handle
  handle-Inv not_input s i = i
  handle-Inv (key code a) s i = handle_key-Inv code a s i
  handle-Inv touch s i = extending-Inv s i
  handle-Inv pointer s i = changing-Inv s i
  handle-Inv other_input s i = i

  run-Inv : (es : List MirEvent) (s : Handler) → Inv s → Inv (run es s)
  unfolding run
  run-Inv [] s i = i
  run-Inv (e ∷ es) s i = run-Inv es (handle e s).0 (handle-Inv e s i)

  init-Inv : Inv init
  unfolding init ◌+ℤ◌
  init-Inv = record {
    changing = record { paid = omega arith; seen = omega (arith, steady.starts) };
    extending = record { paid = omega arith; seen = omega (arith, steady.starts) };
  }

  -- With a clock that starts at 0 or later and never goes back: by the time of the clock's next
  -- reading, a new handler has made at most one notification of each of the two kinds of activity,
  -- and one more for each 500 ms of that time, whatever the events were.
  pub activity_rate :
      (es : List MirEvent)
      → (pos (changings (run es init).notifications * 500_000_000)
          ≤ℤ clock.now (run es init).reads +ℤ event_period)
        × (pos (extendings (run es init).notifications * 500_000_000)
            ≤ℤ clock.now (run es init).reads +ℤ event_period)
  unfolding ◌+ℤ◌
  activity_rate es = ground (arith, run-Inv es init init-Inv)
