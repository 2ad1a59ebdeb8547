-- ===== src/MirEgl/Session/Takes.antt =====
-- What each call of spinner/miregl.cpp acquires of a resource.
use unity_system_compositor.Prelude.{
  ℕ, suc, zero, ◌+◌, ◌==◌, ◌≡◌, refl, List, [], ◌∷◌, arith, Bool-cases, inl, inr,
}
use unity_system_compositor.MirEgl.{
  Resource, surface, window, acquired, interval_set, Calls, Egl, WindowParameters, MirEglSurface,
  make_current, swap_buffers, create_eglsurface, create_window, set_swap_interval,
  make_mir_eglsurface, egl_make_current, paint,
}
use unity_system_compositor.Outcome.Endings.{
  Ends, then_do-Ends, require-Ends, unless_zero-Ends, Ends-weaken,
}
use unity_system_compositor.MirEgl.Rules.{same, one, taken, given}
use unity_system_compositor.MirEgl.Session.{paint_all, paint_rounds}

-- From the calls `h` to the calls `g` each resource was acquired as often more as `n` says.
pub record Takes (n : Resource → ℕ) (h g : Calls) : Type 0 where
  pub took : (r : Resource) → taken r g ≡ n r + taken r h
  pub gave : (r : Resource) → given r g ≡ given r h

-- How often a surface has the resource.
abbrev pub held : Resource → MirEglSurface → ℕ
held r s = one (same (surface s.eglsurface) r) + one (same (window s.window) r)

abbrev pub all_held : Resource → List MirEglSurface → ℕ
all_held r [] = 0
all_held r (s ∷ ss) = held r s + all_held r ss

-- What a surface's constructor can lose: nothing, its window, or its EGL surface and its window.
pub data Loss : Type 0 where
  nothing : Loss
  a_window : ℕ → Loss
  a_surface : ℕ → ℕ → Loss

abbrev pub lost_of : Loss → Resource → ℕ
lost_of nothing r = 0
lost_of (a_window w) r = one (same (window w) r)
lost_of (a_surface s w) r = one (same (surface s) r) + one (same (window w) r)

pub record Loses (h g : Calls) : Type 0 where
  pub loss : Loss
  pub takes : Takes (lost_of loss) h g

module _ (egl : Egl) where
  make_current-Takes :
      (n : Resource → ℕ) (s : ℕ) (h g : Calls)
      → Takes n h g
      → Ends (λ u k. Takes n h k) (λ x k. Takes n h k) (make_current egl s g)
  unfolding make_current
  make_current-Takes n s h g t = elim (Bool-cases (egl.make_current s g)) [
    | inl ok ↦ rw ok (record { ending = record { took = t.took; gave = t.gave } })
    | inr failed ↦ rw failed (record { ending = t })
  ]

  set_swap_interval-Takes :
      (n : Resource → ℕ) (s interval : ℕ) (h g : Calls)
      → Takes n h g
      → Ends (λ u k. Takes n h k) (λ x k. Takes n h k) (set_swap_interval egl s interval g)
  unfolding set_swap_interval
  set_swap_interval-Takes n s interval h g t =
      then_do-Ends (make_current egl s g) _ (make_current-Takes n s h g t) (λ u k i.
        elim (Bool-cases (egl.current_surface g == 0)) [
          | inl no_surface ↦
              rw no_surface (record { ending = record { took = i.took; gave = i.gave } })
          | inr previous ↦ rw previous (
              make_current-Takes n (egl.current_surface g) h (interval_set interval ∷ k)
                (record { took = i.took; gave = i.gave }))
        ])

  egl_make_current-Takes :
      (s : MirEglSurface) (h g : Calls)
      → Takes (λ r. 0) h g
      → Ends (λ t k. Takes (λ r. 0) h k) (λ x k. Takes (λ r. 0) h k) (egl_make_current egl s g)
  unfolding egl_make_current
  egl_make_current-Takes s h g t =
      then_do-Ends (make_current egl s.eglsurface g) _
        (make_current-Takes (λ r. 0) s.eglsurface h g t) (λ u k i. record { ending = i })

  paint-Takes :
      (functor : ℕ → ℕ → ℕ) (s : MirEglSurface) (h g : Calls)
      → Takes (λ r. 0) h g
      → Ends (λ t k. Takes (λ r. 0) h k) (λ x k. Takes (λ r. 0) h k) (paint egl functor s g)
  unfolding paint swap_buffers
  paint-Takes functor s h g t =
      then_do-Ends (egl_make_current egl s g) _ (egl_make_current-Takes s h g t)
        (λ u k i. record { ending = record { took = i.took; gave = i.gave } })

  paint_all-Takes :
      (functor : ℕ → ℕ → ℕ) (ss : List MirEglSurface) (h g : Calls)
      → Takes (λ r. 0) h g
      → Ends (λ ts k. Takes (λ r. 0) h k) (λ x k. Takes (λ r. 0) h k) (paint_all egl functor ss g)
  unfolding paint_all
  paint_all-Takes functor [] h g t = record { ending = t }
  paint_all-Takes functor (s ∷ ss) h g t =
      then_do-Ends (paint egl functor s g) _ (paint-Takes functor s h g t) (λ u k i.
        then_do-Ends (paint_all egl functor ss k) _ (paint_all-Takes functor ss h k i)
          (λ ts k' i'. record { ending = i' }))

  pub paint_rounds-Takes :
      (functor : ℕ → ℕ → ℕ → ℕ) (n : ℕ) (ss : List MirEglSurface) (h g : Calls)
      → Takes (λ r. 0) h g
      → Ends
          (λ ts k. Takes (λ r. 0) h k)
          (λ x k. Takes (λ r. 0) h k)
          (paint_rounds egl functor n ss g)
  unfolding paint_rounds
  paint_rounds-Takes functor zero ss h g t = record { ending = t }
  paint_rounds-Takes functor (suc n) ss h g t =
      then_do-Ends (paint_all egl (functor n) ss g) _ (paint_all-Takes (functor n) ss h g t)
        (λ ts k i. paint_rounds-Takes functor n ts h k i)

  create_window-Takes :
      (p : WindowParameters) (h : Calls)
      → Ends (λ w k. Takes (lost_of (a_window w)) h k) (λ x k. Loses h k) (create_window egl p h)
  unfolding create_window
  create_window-Takes p h =
      let w : ℕ = (egl.create_window p h).0 in
      require-Ends (egl.create_window p h).1 _ (acquired (window w) ∷ h) _
        (elim (Bool-cases (p.output_id == egl.invalid_output_id)) [
          | inl no_output ↦
              rw no_output (record { ending = record { took = λ r. refl; gave = λ r. refl } })
          | inr output ↦
              rw output (record { ending = record { took = λ r. refl; gave = λ r. refl } })
        ])
        (record { loss = a_window w; takes = record { took = λ r. refl; gave = λ r. refl } })

  create_eglsurface-Takes :
      (w : ℕ) (h g : Calls)
      → Takes (lost_of (a_window w)) h g
      → Ends
          (λ s k. Takes (lost_of (a_surface s w)) h k)
          (λ x k. Loses h k)
          (create_eglsurface egl w g)
  unfolding create_eglsurface
  create_eglsurface-Takes w h g t =
      unless_zero-Ends (egl.create_window_surface w g) _ g _
        (record { ending = record { took = λ r. omega (arith, t.took r); gave = t.gave } })
        (record { loss = a_window w; takes = t })

  -- What a surface's constructor leaves where it throws: its window, or that and its EGL surface.
  pub make_mir_eglsurface-Takes :
      (p : WindowParameters) (swapinterval : ℕ) (h : Calls)
      → Ends
          (λ s k. Takes (λ r. held r s) h k)
          (λ x k. Loses h k)
          (make_mir_eglsurface egl p swapinterval h)
  unfolding make_mir_eglsurface
  make_mir_eglsurface-Takes p swapinterval h =
      then_do-Ends (create_window egl p h) _ (create_window-Takes p h) (λ w g i.
        then_do-Ends (create_eglsurface egl w g) _ (create_eglsurface-Takes w h g i) (λ s k j.
          then_do-Ends (set_swap_interval egl s swapinterval k) _
            (Ends-weaken _ (λ x k'. Loses h k') _ (set_swap_interval-Takes _ s swapinterval h k j)
              (λ u k' i'. i') (λ x k' i'. record { loss = a_surface s w; takes = i' }))
            (λ u k' i'. record { ending = i' })))
