-- ===== src/MirEgl/Session/Standing.antt =====
-- Which surface is current behind each call of spinner/miregl.cpp that makes a surface.
use unity_system_compositor.Prelude.{
  ℕ, ◌==◌, ◌≡◌, refl, sym, subst, ◌∙◌, ◌⊎◌, inl, inr, [], ◌∷◌, Str, if◌then◌else◌, Bool-cases,
}
use unity_system_compositor.MirEgl.{
  connection, display, context, surface, window, acquired, released, bound, unbound, interval_set,
  drawn, swapped, fullscreen, Calls, Egl, WindowParameters, make_current, create_eglsurface,
  create_window, set_swap_interval, make_mir_eglsurface,
}
use unity_system_compositor.Outcome.{pure}
use unity_system_compositor.Outcome.Endings.{
  Ends, then_do-Ends, require-Ends, unless_zero-Ends, Ends-weaken,
}
use unity_system_compositor.MirEgl.Rules.{current}

-- The EGL surface made last, 0 before the first.
abbrev pub newest : Calls → ℕ
newest [] = 0
newest (acquired (surface s) ∷ h) = s
newest (acquired (window w) ∷ h) = newest h
newest (acquired (context n) ∷ h) = newest h
newest (acquired connection ∷ h) = newest h
newest (acquired display ∷ h) = newest h
newest (released r ∷ h) = newest h
newest (bound s ∷ h) = newest h
newest (unbound ∷ h) = newest h
newest (interval_set n ∷ h) = newest h
newest (drawn d ∷ h) = newest h
newest (swapped s ∷ h) = newest h
newest (fullscreen w ∷ h) = newest h

-- Each swap was of the surface that was current, and each interval was set while the surface made
-- last was current.
abbrev pub IsOrdered : Calls → Type 0
IsOrdered [] = Unit
IsOrdered (swapped s ∷ h) = (current h ≡ s) × IsOrdered h
IsOrdered (interval_set n ∷ h) = (current h ≡ newest h) × IsOrdered h
IsOrdered (c ∷ h) = IsOrdered h

-- The same, with the surfaces that are current and newest.
pub record Stands (now last : ℕ) (h : Calls) : Type 0 where
  pub ordered : IsOrdered h
  pub now_current : current h ≡ now
  pub last_made : newest h ≡ last

pub record Ordered (h : Calls) : Type 0 where
  pub ordered : IsOrdered h

module _ (egl : Egl) where
  pub make_current-Stands :
      (s n l : ℕ) (h : Calls)
      → Stands n l h
      → Ends (λ u k. Stands s l k) (λ x k. Stands n l k) (make_current egl s h)
  unfolding make_current
  make_current-Stands s n l h t = elim (Bool-cases (egl.make_current s h)) [
    | inl ok ↦ rw ok (record {
      ending = record { ordered = t.ordered; now_current = refl; last_made = t.last_made };
    })
    | inr failed ↦ rw failed (record { ending = t })
  ]

  restored :
      (previous s n : ℕ) (k : Calls) (interval : ℕ)
      → Stands s s k
      → Ends
          (λ u k'. Stands (if previous == 0 then s else previous) s k')
          (λ x k'. (now : ℕ) × Stands now s k' × ((now ≡ n) ⊎ (now ≡ s)))
          ((if previous == 0 then pure tt else make_current egl previous)
            (interval_set interval ∷ k))
  restored previous s n k interval i =
      let set : Stands s s (interval_set interval ∷ k) = record {
        ordered = (i.now_current ∙ sym i.last_made, i.ordered);
        now_current = i.now_current;
        last_made = i.last_made;
      } in
      elim (Bool-cases (previous == 0)) [
        | inl no_surface ↦ rw no_surface (record { ending = set })
        | inr surface_before ↦ rw surface_before (
            Ends-weaken _ (λ x k'. (now : ℕ) × Stands now s k' × ((now ≡ n) ⊎ (now ≡ s))) _
              (make_current-Stands previous s s (interval_set interval ∷ k) set) (λ u k' j. j)
              (λ x k' j. (s, j, inr refl)))
      ]

  set_swap_interval-Stands :
      (s n interval : ℕ) (h : Calls)
      → Stands n s h
      → Ends
          (λ u k. Stands (if egl.current_surface h == 0 then s else egl.current_surface h) s k)
          (λ x k. (now : ℕ) × Stands now s k × ((now ≡ n) ⊎ (now ≡ s)))
          (set_swap_interval egl s interval h)
  unfolding set_swap_interval
  set_swap_interval-Stands s n interval h t =
      then_do-Ends (make_current egl s h) _
        (Ends-weaken _ (λ x k. (now : ℕ) × Stands now s k × ((now ≡ n) ⊎ (now ≡ s))) _
          (make_current-Stands s n s h t) (λ u k i. i) (λ x k i. (n, i, inl refl)))
        (λ u k i. restored (egl.current_surface h) s n k interval i)

  create_window-Stands :
      (p : WindowParameters) (n l : ℕ) (h : Calls)
      → Stands n l h
      → Ends (λ w k. Stands n l k) (λ x k. Stands n l k) (create_window egl p h)
  unfolding create_window
  create_window-Stands p n l h t =
      let w : ℕ = (egl.create_window p h).0 in
      let made : Stands n l (acquired (window w) ∷ h) = record {
        ordered = t.ordered;
        now_current = t.now_current;
        last_made = t.last_made;
      } in
      require-Ends (egl.create_window p h).1 _ (acquired (window w) ∷ h) _
        (elim (Bool-cases (p.output_id == egl.invalid_output_id)) [
          | inl no_output ↦ rw no_output (record { ending = made })
          | inr output ↦ rw output (record {
            ending = record {
              ordered = t.ordered;
              now_current = t.now_current;
              last_made = t.last_made;
            };
          })
        ])
        made

  create_eglsurface-Stands :
      (w n l : ℕ) (h : Calls)
      → Stands n l h
      → Ends (λ s k. Stands n s k) (λ x k. Stands n l k) (create_eglsurface egl w h)
  unfolding create_eglsurface
  create_eglsurface-Stands w n l h t =
      unless_zero-Ends (egl.create_window_surface w h) _ h _
        (record {
          ending = record { ordered = t.ordered; now_current = t.now_current; last_made = refl };
        })
        t

  -- EGL says which surface is current.
  module _ (documented : (h : Calls) → egl.current_surface h ≡ current h) where
    pub make_mir_eglsurface-Stands :
        (p : WindowParameters) (swapinterval n l : ℕ) (h : Calls)
        → Stands n l h
        → Ends
            (λ s k. Stands (if n == 0 then s.eglsurface else n) s.eglsurface k)
            (λ x k. (now last : ℕ) × Stands now last k × ((now ≡ n) ⊎ (now ≡ last)))
            (make_mir_eglsurface egl p swapinterval h)
    unfolding make_mir_eglsurface
    make_mir_eglsurface-Stands p swapinterval n l h t =
        let e : Str → Calls → Type 0 =
          λ x k. (now last : ℕ) × Stands now last k × ((now ≡ n) ⊎ (now ≡ last)) in
        then_do-Ends (create_window egl p h) _
          (Ends-weaken _ e _ (create_window-Stands p n l h t) (λ w k i. i)
            (λ x k i. (n, l, i, inl refl)))
          (λ w g i.
            then_do-Ends (create_eglsurface egl w g) _
              (Ends-weaken _ e _ (create_eglsurface-Stands w n l g i) (λ s k j. j)
                (λ x k j. (n, l, j, inl refl)))
              (λ s k j.
                then_do-Ends (set_swap_interval egl s swapinterval k) _
                  (Ends-weaken _ e _ (set_swap_interval-Stands s n swapinterval k j)
                    (λ u k' m.
                      subst (λ b. Stands (if b == 0 then s else b) s k')
                        (documented k ∙ j.now_current) m)
                    (λ x k' m. (m.0, s, m.1, m.2)))
                  (λ u k' m. record { ending = m })))
