-- ===== src/Eglspinner/Animation.antt =====
-- `updateAnimation` of spinner/eglspinner.cpp: when the next dot is lit. The arithmetic of doubles is a
-- parameter.
use unity_system_compositor.Prelude.{
  ℕ, ◌+◌, ◌%◌, ◌<◌, ltb, ◌≤◌, ◌≡◌, refl, Bool, List, [], ◌∷◌, length, if◌then◌else◌, arith,
}
use unity_system_compositor.Eglspinner.Paint.{dot_mask, is_orange, is_orange-dot_mask}

-- `is_second x` is x >= 1.0.
pub record Seconds (D : Type 0) : Type 0 where
  pub no_time : D
  pub plus : D → D → D
  pub minus : D → D → D
  pub is_second : D → Bool

-- AnimationValues, and the two static variables of the function.
pub record AnimationValues (D : Type 0) : Type 0 where
  pub last_time_stamp : D
  pub mask : ℕ
  pub counter : ℕ
  pub second : D

module _ {D : Type 0} ⦃seconds : Seconds D⦄ where
  first_values : AnimationValues D
  first_values = record {
    last_time_stamp = seconds.no_time;
    mask = 0;
    counter = 0;
    second = seconds.no_time;
  }

  count_time : D → AnimationValues D → AnimationValues D
  count_time elapsed s =
      if seconds.is_second s.second
      then record s { second = seconds.no_time; counter = s.counter + 1 }
      else record s { second = seconds.plus s.second (seconds.minus elapsed s.last_time_stamp) }

  -- `elapsed` is what g_timer_elapsed gives.
  update_animation : D → AnimationValues D → AnimationValues D
  update_animation elapsed s =
      let counted = count_time elapsed s in
      record counted { mask = dot_mask counted.counter; last_time_stamp = elapsed }

  run_animation : List D → AnimationValues D → AnimationValues D
  run_animation [] s = s
  run_animation (elapsed ∷ times) s = run_animation times (update_animation elapsed s)

  record IsShowing (n : ℕ) (s : AnimationValues D) : Type 0 where
    shown : s.mask ≡ dot_mask s.counter
    at_most : s.counter ≤ n

  update_animation-IsShowing :
      (n : ℕ) (elapsed : D) (s : AnimationValues D)
      → IsShowing n s
      → IsShowing (n + 1) (update_animation elapsed s)
  unfolding update_animation count_time
  update_animation-IsShowing n elapsed s i = record {
    shown = refl;
    at_most = ground (arith, i.at_most);
  }

  run_animation-IsShowing :
      (times : List D) (n : ℕ) (s : AnimationValues D)
      → IsShowing n s
      → IsShowing (n + length times) (run_animation times s)
  unfolding run_animation
  run_animation-IsShowing [] n s i = record { shown = i.shown; at_most = omega (arith, i.at_most) }
  run_animation-IsShowing (elapsed ∷ times) n s i =
      let j : IsShowing (n + 1 + length times) (run_animation times (update_animation elapsed s)) =
        run_animation-IsShowing times (n + 1) _ (update_animation-IsShowing n elapsed s i) in
      record { shown = j.shown; at_most = omega (arith, j.at_most) }

  -- After any number of rounds, whatever the timer says: as many of the five dots are orange, from the
  -- first on, as the counter is past a multiple of 6, and each round lights at most one more.
  animation_lem :
      (times : List D) (dot : ℕ)
      → dot < 5
      → let s = run_animation times first_values in
        (is_orange s.mask dot ≡ ltb dot (s.counter % 6)) × (s.counter ≤ length times)
  unfolding first_values dot_mask
  animation_lem times dot h =
      let i : IsShowing (0 + length times) (run_animation times first_values) =
        run_animation-IsShowing times 0 first_values
          (record { shown = refl; at_most = omega arith }) in
      (
        rw i.shown (is_orange-dot_mask (run_animation times first_values).counter dot h),
        omega (arith, i.at_most),
      )
