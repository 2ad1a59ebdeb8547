-- ===== src/Compositor/Handlers.antt =====
-- The handlers on the screen of src/mir_screen.cpp, one of which may be the switcher's.
use unity_system_compositor.Prelude.{
  ℕ, ◌==◌, ltb, ◌≡◌, refl, ◌⊎◌, true, false, List, [], ◌∷◌, Option, All, arith, Bool-cases, inl,
  inr,
}
use unity_system_compositor.Prelude.Map
use unity_system_compositor.Prelude.Map.{ptr_key}
use unity_system_compositor.Session.{Scene}
use unity_system_compositor.Spinner.{Spinner}
use unity_system_compositor.Switcher.{Switcher}
use unity_system_compositor.MirScreen.{ActiveOutputs, ActiveOutputsHandler, tell_all}
use unity_system_compositor.Compositor.{outputs_handler, other_handler}

-- An owner other than the switcher, whose handler leaves the switcher alone.
module _ {W : Type 0} (this : ℕ) where
  abbrev pub IsOther : ℕ × ActiveOutputsHandler W → Type 0
  IsOther (o, h) = ((o == this) ≡ false) × ((a : ActiveOutputs) (w : W) → h a w ≡ w)

  pub tell_all-others :
      (hs : List (ℕ × ActiveOutputsHandler W)) (a : ActiveOutputs) (w : W)
      → All IsOther hs
      → tell_all hs a w ≡ w
  unfolding tell_all
  tell_all-others [] a w q = refl
  tell_all-others ((o, h) ∷ hs) a w q = rw (q.0.1 a w) (tell_all-others hs a w q.1)

module _ ⦃scene : Scene⦄ {S : Type 0} ⦃spinner : Spinner S⦄ (this : ℕ) where
  abbrev IsThis : ℕ × ActiveOutputsHandler (Option (Switcher S)) → Type 0
  IsThis (o, h) = ((o == this) ≡ true) × (h ≡ outputs_handler)

  -- The switcher's handler is registered once, and all the others leave the switcher alone.
  abbrev pub HasHandler : List (ℕ × ActiveOutputsHandler (Option (Switcher S))) → Type 0
  HasHandler [] = ⊥
  HasHandler (e ∷ hs) = (IsThis e × All (IsOther this) hs) ⊎ (IsOther this e × HasHandler hs)

  pub tell_all-HasHandler :
      (hs : List (ℕ × ActiveOutputsHandler (Option (Switcher S)))) (a : ActiveOutputs)
      (w : Option (Switcher S))
      → HasHandler hs
      → tell_all hs a w ≡ outputs_handler a w
  unfolding tell_all
  tell_all-HasHandler [] a w i = elim i [ ]
  tell_all-HasHandler ((o, h) ∷ hs) a w (inl (e, q)) =
      rw (e.1) (tell_all-others this hs a (outputs_handler a w) q)
  tell_all-HasHandler ((o, h) ∷ hs) a w (inr (q, i)) = rw (q.1 a w) (tell_all-HasHandler hs a w i)

  pub insert-HasHandler :
      (hs : List (ℕ × ActiveOutputsHandler (Option (Switcher S))))
      → All (IsOther this) hs
      → HasHandler (Map.insert this outputs_handler hs)
  unfolding Map.insert
  insert-HasHandler [] q = inl ((ground arith, refl), tt)
  insert-HasHandler ((o, h) ∷ hs) q = rw (q.0.0) (elim (Bool-cases (ltb this o)) [
    | inl less ↦ rw less (inl ((ground arith, refl), q))
    | inr more ↦ rw more (inr (q.0, insert-HasHandler hs q.1))
  ])

  pub insert-other :
      (o : ℕ) (hs : List (ℕ × ActiveOutputsHandler (Option (Switcher S))))
      → (o == this) ≡ false
      → HasHandler hs
      → HasHandler (Map.insert o other_handler hs)
  unfolding Map.insert
  insert-other o [] q i = elim i [ ]
  insert-other o ((k, h) ∷ hs) q i =
      let kept : IsOther {W = Option (Switcher S)} this (o, other_handler) = (q, λ a w. refl) in
      elim (Bool-cases (k == o)) [
        | inl same ↦ rw same (elim i [
          | inl (e, others) ↦ (let absurd : ⊥ = ground (arith, e.0) in elim absurd [ ])
          | inr (e, j) ↦ inr (kept, j)
        ])
        | inr apart ↦ rw apart (elim (Bool-cases (ltb o k)) [
          | inl less ↦ rw less (inr (kept, i))
          | inr more ↦ rw more (elim i [
            | inl (e, others) ↦
                inl (e, Map.insert-All (IsOther this) o other_handler hs kept others)
            | inr (e, j) ↦ inr (e, insert-other o hs q j)
          ])
        ])
      ]

  pub erase-other :
      (o : ℕ) (hs : List (ℕ × ActiveOutputsHandler (Option (Switcher S))))
      → (o == this) ≡ false
      → HasHandler hs
      → HasHandler (Map.erase o hs)
  unfolding Map.erase
  erase-other o [] q i = elim i [ ]
  erase-other o ((k, h) ∷ hs) q i = elim (Bool-cases (k == o)) [
    | inl same ↦ rw same (elim i [
      | inl (e, others) ↦ (let absurd : ⊥ = ground (arith, e.0) in elim absurd [ ])
      | inr (e, j) ↦ erase-other o hs q j
    ])
    | inr apart ↦ rw apart (elim i [
      | inl (e, others) ↦ inl (e, Map.erase-All (IsOther this) o hs others)
      | inr (e, j) ↦ inr (e, erase-other o hs q j)
    ])
  ]

  pub erase-this :
      (hs : List (ℕ × ActiveOutputsHandler (Option (Switcher S))))
      → HasHandler hs
      → All (IsOther this) (Map.erase this hs)
  unfolding Map.erase
  erase-this [] i = elim i [ ]
  erase-this ((k, h) ∷ hs) (inl (e, others)) =
      rw (e.0) (Map.erase-All (IsOther this) this hs others)
  erase-this ((k, h) ∷ hs) (inr (e, i)) = rw (e.0) (e, erase-this hs i)
