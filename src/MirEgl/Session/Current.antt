-- ===== src/MirEgl/Session/Current.antt =====
-- Which surface is current when spinner/miregl.cpp swaps buffers and sets swap intervals.
use unity_system_compositor.Prelude.{
  ℕ, suc, zero, ◌==◌, ◌≡◌, refl, sym, subst, ◌∙◌, ◌⊎◌, inl, inr, List, [], ◌∷◌, ◌++◌, Str,
  if◌then◌else◌, Bool-cases,
}
use unity_system_compositor.Eglspinner.Surfaces.{Surface}
use unity_system_compositor.MirEgl.{
  Call, bound, Calls, Egl, WindowParameters, MirEglApp, MirEglSurface, make_current, swap_buffers,
  make_mir_eglsurface, egl_make_current, paint, destroy_surface, destroy_mir_eglapp,
  make_mir_eglapp,
}
use unity_system_compositor.Outcome.{Outcome}
use unity_system_compositor.Outcome.Endings.{
  Ending, Ends, then_do-Ends, either_way-Ends, Ends-weaken,
}
use unity_system_compositor.MirEgl.Rules.{current}
use unity_system_compositor.MirEgl.App.{
  app_calls, IsLeft, no_display, only_display, with_context, with_surface, make_mir_eglapp-Ends,
}
use unity_system_compositor.MirEgl.Session.{
  destroy_surfaces, destroy_all, unwind, window_parameters, push_surface, make_surfaces, paint_all,
  paint_rounds, show, spin,
}
use unity_system_compositor.MirEgl.Session.Standing.{
  newest, IsOrdered, Stands, Ordered, make_current-Stands, make_mir_eglsurface-Stands,
}

stands : (h : Calls) → Ordered h → Stands (current h) (newest h) h
stands h o = record { ordered = o.ordered; now_current = refl; last_made = refl }

-- Behind a call that keeps the order, whichever way it ends.
abbrev Keeps : {A : Type 0} → Outcome Call A → Type 0
Keeps o = Ends (λ a k. Ordered k) (λ x k. Ordered k) o

module _ (egl : Egl) where
  egl_make_current-Stands :
      (s : MirEglSurface) (l : ℕ) (h : Calls)
      → Stands (current h) l h
      → Ends (λ t k. Stands t.eglsurface l k) (λ x k. Ordered k) (egl_make_current egl s h)
  unfolding egl_make_current
  egl_make_current-Stands s l h t =
      then_do-Ends (make_current egl s.eglsurface h) _
        (Ends-weaken _ (λ x k. Ordered k) _ (make_current-Stands egl s.eglsurface (current h) l h t)
          (λ u k i. i) (λ x k i. record { ordered = i.ordered }))
        (λ u k i. record { ending = i })

  paint-Keeps :
      (functor : ℕ → ℕ → ℕ) (s : MirEglSurface) (h : Calls)
      → Ordered h
      → Keeps (paint egl functor s h)
  unfolding paint swap_buffers
  paint-Keeps functor s h o =
      then_do-Ends (egl_make_current egl s h) _
        (egl_make_current-Stands s (newest h) h (stands h o))
        (λ t k i. record { ending = record { ordered = (i.now_current, i.ordered) } })

  paint_all-Keeps :
      (functor : ℕ → ℕ → ℕ) (ss : List MirEglSurface) (h : Calls)
      → Ordered h
      → Keeps (paint_all egl functor ss h)
  unfolding paint_all
  paint_all-Keeps functor [] h o = record { ending = o }
  paint_all-Keeps functor (s ∷ ss) h o =
      then_do-Ends (paint egl functor s h) _ (paint-Keeps functor s h o) (λ t k i.
        then_do-Ends (paint_all egl functor ss k) _ (paint_all-Keeps functor ss k i)
          (λ ts k' j. record { ending = j }))

  paint_rounds-Keeps :
      (functor : ℕ → ℕ → ℕ → ℕ) (n : ℕ) (ss : List MirEglSurface) (h : Calls)
      → Ordered h
      → Keeps (paint_rounds egl functor n ss h)
  unfolding paint_rounds
  paint_rounds-Keeps functor zero ss h o = record { ending = o }
  paint_rounds-Keeps functor (suc n) ss h o =
      then_do-Ends (paint_all egl (functor n) ss h) _ (paint_all-Keeps (functor n) ss h o)
        (λ ts k i. paint_rounds-Keeps functor n ts k i)

destroy_surfaces-Keeps :
    (ss : List MirEglSurface) (h : Calls) → Ordered h → Keeps (destroy_surfaces ss h)
unfolding destroy_surfaces destroy_surface
destroy_surfaces-Keeps [] h o = record { ending = o }
destroy_surfaces-Keeps (s ∷ ss) h o = destroy_surfaces-Keeps ss _ (record { ordered = o.ordered })

destroy_all-Keeps :
    (app : MirEglApp) (ss : List MirEglSurface) (h : Calls)
    → Ordered h
    → Keeps (destroy_all app ss h)
unfolding destroy_all destroy_mir_eglapp
destroy_all-Keeps app ss h o =
    then_do-Ends (destroy_surfaces ss h) _ (destroy_surfaces-Keeps ss h o) (λ u k i.
      elim (Bool-cases (app.dummy_surface == 0)) [
        | inl none_made ↦ rw none_made (record { ending = record { ordered = i.ordered } })
        | inr made ↦ rw made (record { ending = record { ordered = i.ordered } })
      ])

unwind-Keeps :
    {A : Type 0} (app : MirEglApp) (ss : List MirEglSurface) (x : Str) (h : Calls)
    → Ordered h
    → Keeps {A = A} (unwind app ss x h)
unfolding unwind
unwind-Keeps app ss x h o =
    then_do-Ends (destroy_all app ss h) _ (destroy_all-Keeps app ss h o)
      (λ u k i. record { ending = i })

app-Ordered :
    (app : MirEglApp) (h : Calls)
    → Ordered h
    → Ordered (bound app.dummy_surface ∷ app_calls app ++ h)
app-Ordered app h o = elim (Bool-cases (app.dummy_surface == 0)) [
  | inl none_made ↦ rw none_made (record { ordered = o.ordered })
  | inr made ↦ rw made (record { ordered = o.ordered })
]

left-Ordered : (h k : Calls) → IsLeft h k → Ordered h → Ordered k
left-Ordered h _ no_display o = o
left-Ordered h _ only_display o = record { ordered = o.ordered }
left-Ordered h _ (with_context ctx) o = record { ordered = o.ordered }
left-Ordered h _ (with_surface s ctx) o = record { ordered = o.ordered }

module _ (egl : Egl) (documented : (h : Calls) → egl.current_surface h ≡ current h) where
  make_surfaces-Keeps :
      (pixel_format : ℕ) (app : MirEglApp) (ps : List Surface) (result : List MirEglSurface)
      (h : Calls)
      → Ordered h
      → Keeps (make_surfaces egl pixel_format app ps result h)
  unfolding make_surfaces push_surface
  make_surfaces-Keeps pixel_format app [] result h o = record { ending = o }
  make_surfaces-Keeps pixel_format app (p ∷ ps) result h o =
      then_do-Ends (push_surface egl pixel_format app p result h) _
        (either_way-Ends
          (make_mir_eglsurface egl (window_parameters pixel_format p) p.swapinterval h) _ _
          (make_mir_eglsurface-Stands egl documented (window_parameters pixel_format p)
            p.swapinterval (current h) (newest h) h (stands h o))
          (λ s k i. record { ending = record { ordered = i.ordered } })
          (λ x k i. unwind-Keeps app result x k (record { ordered = i.2.ordered })))
        (λ ss k i. make_surfaces-Keeps pixel_format app ps ss k i)

  show-Keeps :
      (app : MirEglApp) (functor : ℕ → ℕ → ℕ → ℕ) (rounds : ℕ) (ss : List MirEglSurface) (h : Calls)
      → Ordered h
      → Keeps (show egl app functor rounds ss h)
  unfolding show
  show-Keeps app functor rounds ss h o =
      either_way-Ends (paint_rounds egl functor rounds ss h) _ _
        (paint_rounds-Keeps egl functor rounds ss h o) (λ ts k i. destroy_all-Keeps app ss k i)
        (λ x k i. unwind-Keeps app ss x k i)

  spin-Keeps :
      (pixel_format : ℕ) (ps : List Surface) (functor : ℕ → ℕ → ℕ → ℕ) (rounds : ℕ) (h : Calls)
      → Ordered h
      → Keeps (spin egl pixel_format ps functor rounds h)
  unfolding spin
  spin-Keeps pixel_format ps functor rounds h o =
      then_do-Ends (make_mir_eglapp egl pixel_format h) _
        (Ends-weaken _ (λ x k. Ordered k) _ (make_mir_eglapp-Ends egl pixel_format h) (λ app g e. e)
          (λ x g left. left-Ordered h g left o))
        (λ app g e.
          then_do-Ends (make_surfaces egl pixel_format app ps [] g) _
            (make_surfaces-Keeps pixel_format app ps [] g
              (subst Ordered (sym e) (app-Ordered app h o)))
            (λ ss k i. show-Keeps app functor rounds ss k i))

  -- Where eglGetCurrentSurface tells what was last made current: over the whole run of the
  -- spinner's program, whether it returns or throws, each buffer swap is of the surface that is
  -- current at that time, and each swap interval is set while the surface made last is current.
  pub swaps_are_current :
      (pixel_format : ℕ) (ps : List Surface) (functor : ℕ → ℕ → ℕ → ℕ) (rounds : ℕ)
      → Ending (λ u k. Ordered k) (λ x k. Ordered k) (spin egl pixel_format ps functor rounds [])
  swaps_are_current pixel_format ps functor rounds =
      (spin-Keeps pixel_format ps functor rounds [] (record { ordered = tt })).ending

  -- Where eglGetCurrentSurface tells what was last made current, and swaps and intervals were in
  -- order before: if the constructor of MirEglSurface returns, the surface that was current before
  -- is so again, or the new one is current if there was none. If it throws, the surface that is
  -- current is the one from before or the EGL surface made last.
  surface_keeps_current :
      (p : WindowParameters) (swapinterval : ℕ) (h : Calls)
      → IsOrdered h
      → Ending
          (λ s k. current k ≡ (if current h == 0 then s.eglsurface else current h))
          (λ x k. (current k ≡ current h) ⊎ (current k ≡ newest k))
          (make_mir_eglsurface egl p swapinterval h)
  surface_keeps_current p swapinterval h o =
      (Ends-weaken (λ s k. current k ≡ (if current h == 0 then s.eglsurface else current h))
        (λ x k. (current k ≡ current h) ⊎ (current k ≡ newest k)) _
        (make_mir_eglsurface-Stands egl documented p swapinterval (current h) (newest h) h
          (stands h (record { ordered = o })))
        (λ s k i. i.now_current)
        (λ x k i. elim i.3 [
          | inl old ↦ inl (i.2.now_current ∙ old)
          | inr new ↦ inr (i.2.now_current ∙ new ∙ sym i.2.last_made)
        ])).ending
