-- ===== src/MirEgl/Session/Balance.antt =====
-- What the spinner acquires through spinner/miregl.cpp and gives back.
use unity_system_compositor.Prelude.{
  ℕ, ◌+◌, ◌==◌, ◌≡◌, refl, ◌⊎◌, List, [], ◌∷◌, ◌++◌, Str, arith, Bool-cases, inl, inr,
}
use unity_system_compositor.Eglspinner.Surfaces.{Surface}
use unity_system_compositor.MirEgl.{
  Resource, connection, bound, Calls, Egl, MirEglApp, MirEglSurface, make_mir_eglsurface,
  destroy_surface, destroy_mir_eglapp, make_mir_eglapp,
}
use unity_system_compositor.Outcome.Endings.{
  Ending, Ends, then_do-Ends, either_way-Ends, Ends-weaken,
}
use unity_system_compositor.MirEgl.Rules.{same, one, taken, given}
use unity_system_compositor.MirEgl.App.{app_calls, IsLeft, make_mir_eglapp-Ends}
use unity_system_compositor.MirEgl.Session.{
  destroy_surfaces, destroy_all, unwind, window_parameters, push_surface, make_surfaces,
  paint_rounds, show, spin,
}
use unity_system_compositor.MirEgl.Session.Takes.{
  Takes, held, all_held, Loss, nothing, lost_of, paint_rounds-Takes, make_mir_eglsurface-Takes,
}

-- From the calls `h` to the calls `g` each resource was given back as often more as `n` says.
record Frees (n : Resource → ℕ) (h g : Calls) : Type 0 where
  took : (r : Resource) → taken r g ≡ taken r h
  gave : (r : Resource) → given r g ≡ n r + given r h

-- Between `h` and `g` each resource was given back as often as acquired, but for what is lost and for
-- the connection, which was acquired before.
pub record Settles (lost : Resource → ℕ) (h g : Calls) : Type 0 where
  pub settled :
      (r : Resource)
      → taken r g + given r h + one (same connection r) ≡ given r g + taken r h + lost r

-- The end by an exception: at most what one surface has is lost.
pub record Unwinds (h g : Calls) : Type 0 where
  pub loss : Loss
  pub settles : Settles (lost_of loss) h g

module _ (e : Str → Calls → Type 0) where
  destroy_surfaces-Frees :
      (ss : List MirEglSurface) (m : Resource → ℕ) (h g : Calls)
      → Frees m h g
      → Ends (λ u k. Frees (λ r. all_held r ss + m r) h k) e (destroy_surfaces ss g)
  unfolding destroy_surfaces destroy_surface
  destroy_surfaces-Frees [] m h g f = record {
    ending = record { took = f.took; gave = λ r. omega (arith, f.gave r) };
  }
  destroy_surfaces-Frees (s ∷ ss) m h g f =
      Ends-weaken _ e _
        (destroy_surfaces-Frees ss (λ r. held r s + m r) h _
          (record { took = f.took; gave = λ r. omega (arith, f.gave r) }))
        (λ u k i. record { took = i.took; gave = λ r. omega (arith, i.gave r) }) (λ x k i. i)

  destroy_mir_eglapp-Frees :
      (app : MirEglApp) (m : Resource → ℕ) (h g : Calls)
      → Frees m h g
      → Ends
          (λ u k. Frees (λ r. one (same connection r) + taken r (app_calls app) + m r) h k)
          e
          (destroy_mir_eglapp app g)
  unfolding destroy_mir_eglapp
  destroy_mir_eglapp-Frees app m h g f = elim (Bool-cases (app.dummy_surface == 0)) [
    | inl none_made ↦
        rw none_made
          (record { ending = record { took = f.took; gave = λ r. omega (arith, f.gave r) } })
    | inr made ↦
        rw made (record { ending = record { took = f.took; gave = λ r. omega (arith, f.gave r) } })
  ]

  -- From the calls `h` on, the application and the surfaces were made, and nothing else.
  destroy_all-Settles :
      (app : MirEglApp) (ss : List MirEglSurface) (lost : Resource → ℕ) (h g : Calls)
      → Takes (λ r. all_held r ss + taken r (app_calls app) + lost r) h g
      → Ends (λ u k. Settles lost h k) e (destroy_all app ss g)
  unfolding destroy_all
  destroy_all-Settles app ss lost h g t =
      then_do-Ends (destroy_surfaces ss g) _
        (destroy_surfaces-Frees ss (λ r. 0) g g
          (record { took = λ r. refl; gave = λ r. omega arith }))
        (λ u k i.
          Ends-weaken _ e _ (destroy_mir_eglapp-Frees app (λ r. all_held r ss + 0) g k i)
            (λ v k' j. record {
              settled = λ r. omega (arith, t.took r, t.gave r, j.took r, j.gave r);
            })
            (λ x k' j. j))

app-Takes :
    (app : MirEglApp) (h : Calls)
    → Takes (λ r. 0 + taken r (app_calls app)) h (bound app.dummy_surface ∷ app_calls app ++ h)
app-Takes app h = elim (Bool-cases (app.dummy_surface == 0)) [
  | inl none_made ↦ rw none_made (record { took = λ r. omega arith; gave = λ r. refl })
  | inr made ↦ rw made (record { took = λ r. omega arith; gave = λ r. refl })
]

module _ where
  unwind-Unwinds :
      {A : Type 0} (q : A → Calls → Type 0) (app : MirEglApp) (ss : List MirEglSurface) (x : Str)
      (loss : Loss) (h g : Calls)
      → Takes (λ r. all_held r ss + taken r (app_calls app) + lost_of loss r) h g
      → Ends q (λ y k. Unwinds h k) (unwind app ss x g)
  unfolding unwind
  unwind-Unwinds q app ss x loss h g t =
      then_do-Ends (destroy_all app ss g) _
        (destroy_all-Settles (λ y k. Unwinds h k) app ss (lost_of loss) h g t)
        (λ u k i. record { ending = record { loss = loss; settles = i } })

  all_held-append :
      (r : Resource) (ss : List MirEglSurface) (s : MirEglSurface)
      → all_held r (ss ++ s ∷ []) ≡ all_held r ss + held r s
  all_held-append r [] s = omega arith
  all_held-append r (t ∷ ss) s = omega (arith, all_held-append r ss s)

  module _ (egl : Egl) where
    push_surface-Takes :
        (pixel_format : ℕ) (app : MirEglApp) (p : Surface) (result : List MirEglSurface)
        (h g : Calls)
        → Takes (λ r. all_held r result + taken r (app_calls app)) h g
        → Ends
            (λ ss k. Takes (λ r. all_held r ss + taken r (app_calls app)) h k)
            (λ x k. Unwinds h k)
            (push_surface egl pixel_format app p result g)
    unfolding push_surface
    push_surface-Takes pixel_format app p result h g t =
        either_way-Ends
          (make_mir_eglsurface egl (window_parameters pixel_format p) p.swapinterval g) _ _
          (make_mir_eglsurface-Takes egl (window_parameters pixel_format p) p.swapinterval g)
          (λ s k i. record {
            ending = record {
              took = λ r. omega (arith, t.took r, i.took r, all_held-append r result s);
              gave = λ r. omega (arith, t.gave r, i.gave r);
            };
          })
          (λ x k i.
            unwind-Unwinds (λ ss k'. Takes (λ r. all_held r ss + taken r (app_calls app)) h k') app
              result x i.loss h k
              (record {
                took = λ r. omega (arith, t.took r, i.takes.took r);
                gave = λ r. omega (arith, t.gave r, i.takes.gave r);
              }))

    make_surfaces-Takes :
        (pixel_format : ℕ) (app : MirEglApp) (ps : List Surface) (result : List MirEglSurface)
        (h g : Calls)
        → Takes (λ r. all_held r result + taken r (app_calls app)) h g
        → Ends
            (λ ss k. Takes (λ r. all_held r ss + taken r (app_calls app)) h k)
            (λ x k. Unwinds h k)
            (make_surfaces egl pixel_format app ps result g)
    unfolding make_surfaces
    make_surfaces-Takes pixel_format app [] result h g t = record { ending = t }
    make_surfaces-Takes pixel_format app (p ∷ ps) result h g t =
        then_do-Ends (push_surface egl pixel_format app p result g) _
          (push_surface-Takes pixel_format app p result h g t)
          (λ ss k i. make_surfaces-Takes pixel_format app ps ss h k i)

    show-Settles :
        (app : MirEglApp) (functor : ℕ → ℕ → ℕ → ℕ) (rounds : ℕ) (ss : List MirEglSurface)
        (h g : Calls)
        → Takes (λ r. all_held r ss + taken r (app_calls app)) h g
        → Ends (λ u k. Settles (λ r. 0) h k) (λ x k. Unwinds h k) (show egl app functor rounds ss g)
    unfolding show
    show-Settles app functor rounds ss h g t =
        either_way-Ends (paint_rounds egl functor rounds ss g) _ _
          (paint_rounds-Takes egl functor rounds ss g g
            (record { took = λ r. omega arith; gave = λ r. refl }))
          (λ ts k i.
            destroy_all-Settles (λ x k'. Unwinds h k') app ss (λ r. 0) h k
              (record {
                took = λ r. omega (arith, t.took r, i.took r);
                gave = λ r. omega (arith, t.gave r, i.gave r);
              }))
          (λ x k i.
            unwind-Unwinds (λ u k'. Settles (λ r. 0) h k') app ss x nothing h k
              (record {
                took = λ r. omega (arith, t.took r, i.took r);
                gave = λ r. omega (arith, t.gave r, i.gave r);
              }))

    spin-Settles :
        (pixel_format : ℕ) (ps : List Surface) (functor : ℕ → ℕ → ℕ → ℕ) (rounds : ℕ) (h : Calls)
        → Ends
            (λ u k. Settles (λ r. 0) h k)
            (λ x k. IsLeft h k ⊎ Unwinds h k)
            (spin egl pixel_format ps functor rounds h)
    unfolding spin
    spin-Settles pixel_format ps functor rounds h =
        then_do-Ends (make_mir_eglapp egl pixel_format h) _
          (Ends-weaken _ (λ x k. IsLeft h k ⊎ Unwinds h k) _
            (make_mir_eglapp-Ends egl pixel_format h) (λ app g e. e) (λ x g left. inl left))
          (λ app g e.
            Ends-weaken _ (λ x k. IsLeft h k ⊎ Unwinds h k) _
              (then_do-Ends (make_surfaces egl pixel_format app ps [] g) _
                (make_surfaces-Takes pixel_format app ps [] h g (rw e (app-Takes app h)))
                (λ ss k i. show-Settles app functor rounds ss h k i))
              (λ u k i. i) (λ x k i. inr i))

  -- The spinner's program from the making of its EGL context on, for any answers of EGL and Mir,
  -- any surfaces to make and any number of rounds. If the program returns, every resource was given
  -- back as often as it was acquired, and the connection once more. If an exception ends it, either
  -- the constructor of the application threw and nothing was given back, or the same holds but for
  -- one loss: nothing, one window, or one EGL surface with one window, whatever surfaces had been
  -- made before.
  pub everything_given_back :
      (egl : Egl) (pixel_format : ℕ) (ps : List Surface) (functor : ℕ → ℕ → ℕ → ℕ) (rounds : ℕ)
      (h : Calls)
      → Ending
          (λ u k. Settles (λ r. 0) h k)
          (λ x k. IsLeft h k ⊎ Unwinds h k)
          (spin egl pixel_format ps functor rounds h)
  everything_given_back egl pixel_format ps functor rounds h =
      (spin-Settles egl pixel_format ps functor rounds h).ending
