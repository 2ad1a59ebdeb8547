-- ===== src/Server/Order.antt =====
-- The order in which src/server.cpp makes its parts.
use unity_system_compositor.Prelude.{
  ◌<◌, ◌≤◌, ◌≡◌, refl, ◌∙◌, Bool, true, false, List, [], ◌∷◌, arith, ◌==◌, Bool-cases, inl, inr,
  All,
}
use unity_system_compositor.Server.{
  Part, spinner, session_switcher, dm_connection, input_configuration, screen, screen_event_handler,
  clock, dbus_loop, dbus_thread, unity_display_service, power_button_event_sink,
  user_activity_event_sink, unity_input_service, number, Happening, makes, spinner_from,
  connection_is, on_bus, switcher_has_screen, socket_is_public, dm_connection_starts,
  active_session_set, filter_appended, Outcome, done, thrown, next, makes_part, is_made, make,
  cached,
}

-- What a part is constructed from.
abbrev pub needs : Part → List Part
needs spinner = []
needs session_switcher = spinner ∷ []
needs dm_connection = session_switcher ∷ []
needs input_configuration = []
needs screen = []
needs power_button_event_sink = []
needs user_activity_event_sink = []
needs clock = []
needs screen_event_handler = power_button_event_sink ∷ user_activity_event_sink ∷ clock ∷ []
needs dbus_loop = []
needs unity_display_service = dbus_loop ∷ screen ∷ []
needs unity_input_service = dbus_loop ∷ input_configuration ∷ []
needs dbus_thread = dbus_loop ∷ []

abbrev pub AreMade : List Part → List Happening → Type 0
AreMade ps h = All (λ p. is_made p h ≡ true) ps

-- A part is made once, and behind what it is constructed from.
abbrev pub IsTimely : Happening → List Happening → Type 0
IsTimely (makes p) h = (is_made p h ≡ false) × AreMade (needs p) h
IsTimely (spinner_from executable socket) h = is_made spinner h ≡ true
IsTimely (connection_is c) h = is_made dm_connection h ≡ true
IsTimely (on_bus address) h = Unit
IsTimely switcher_has_screen h = AreMade (screen ∷ session_switcher ∷ []) h
IsTimely (socket_is_public file) h = is_made dm_connection h ≡ true
IsTimely dm_connection_starts h = is_made dm_connection h ≡ true
IsTimely (active_session_set name) h = is_made dm_connection h ≡ true
IsTimely filter_appended h = is_made screen_event_handler h ≡ true

abbrev pub IsOrdered : List Happening → Type 0
IsOrdered [] = Unit
IsOrdered (e ∷ h) = IsTimely e h × IsOrdered h

-- From the happenings `h` to `g`: the part `p` is made, and none that comes behind it.
pub record Made (p : Part) (h g : List Happening) : Type 0 where
  pub ordered : IsOrdered g
  pub there : is_made p g ≡ true
  pub keeps : (q : Part) → is_made q h ≡ true → is_made q g ≡ true
  pub behind : (q : Part) → number p < number q → is_made q g ≡ is_made q h

pub record Broken (h g : List Happening) : Type 0 where
  pub ordered : IsOrdered g
  pub no_thread : is_made dbus_thread h ≡ false → is_made dbus_thread g ≡ false

abbrev pub Result : Part → List Happening → Outcome → Type 0
Result p h (done g) = Made p h g
Result p h (thrown g) = Broken h g

trans-Result :
    (p q : Part) (h g : List Happening) (out : Outcome)
    → number p ≤ number q
    → number p < 12
    → Made p h g
    → Result q g out
    → Result q h out
trans-Result p q h g (done f) le lt m r = record {
  ordered = r.ordered;
  there = r.there;
  keeps = λ s k. r.keeps s (m.keeps s k);
  behind = λ s k. r.behind s k ∙ m.behind s (omega (arith, le, k));
}
trans-Result p q h g (thrown f) le lt m r = record {
  ordered = r.ordered;
  no_thread = λ k. r.no_thread (m.behind dbus_thread lt ∙ k);
}

pub next-Result :
    (p q : Part) (h : List Happening) (out : Outcome) (go : List Happening → Outcome)
    → number p ≤ number q
    → number p < 12
    → Result p h out
    → ((g : List Happening) → Made p h g → Result q g (go g))
    → Result q h (next out go)
unfolding next
next-Result p q h (done g) go le lt m k = trans-Result p q h g (go g) le lt m (k g m)
next-Result p q h (thrown g) go le lt b k = b

number-made : (p q : Part) → number p < number q → (number q == number p) ≡ false
number-made p q l = ground arith

pub noted-Result :
    (p : Part) (e : Happening) (h g : List Happening)
    → Made p h g
    → IsTimely e g
    → ((q : Part) → makes_part q e ≡ false)
    → Made p h (e ∷ g)
noted-Result p e h g m t n = record {
  ordered = (t, m.ordered);
  there = ground (arith, m.there);
  keeps = λ q k. ground (arith, m.keeps q k);
  behind = λ q l. rw (n q) (m.behind q l);
}

module _ (fails : Part → Bool) where
  pub make-Result :
      (p : Part) (h : List Happening)
      → IsOrdered h
      → is_made p h ≡ false
      → AreMade (needs p) h
      → Result p h (make fails p h)
  unfolding make
  make-Result p h v new n = elim (Bool-cases (fails p)) [
    | inl bad ↦ rw bad (record { ordered = v; no_thread = λ k. k })
    | inr good ↦ rw good (record {
      ordered = ((new, n), v);
      there = ground arith;
      keeps = λ q k. ground arith;
      behind = λ q l. rw (number-made p q l) refl;
    })
  ]

  pub cached-Result :
      (p : Part) (created : Outcome) (h : List Happening)
      → IsOrdered h
      → (is_made p h ≡ false → Result p h created)
      → Result p h (cached fails p created h)
  cached-Result p created h v new = elim (Bool-cases (is_made p h)) [
    | inl old ↦ rw old (record { ordered = v; there = old; keeps = λ q k. k; behind = λ q l. refl })
    | inr fresh ↦ rw fresh (new fresh)
  ]

  -- A part that needs no other.
  pub single-Result :
      (p : Part) (h : List Happening)
      → IsOrdered h
      → needs p ≡ []
      → Result p h (cached fails p (make fails p h) h)
  single-Result p h v n =
      cached-Result p (make fails p h) h v (λ new. make-Result p h v new (rw n tt))
