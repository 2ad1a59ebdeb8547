-- ===== src/Outcome/Endings.antt =====
-- How a chain of calls ends, one link after the other.
use unity_system_compositor.Prelude.{ℕ, ◌==◌, Bool, true, false, List, Str, Bool-cases, inl, inr}
use unity_system_compositor.Outcome.{
  Outcome, Run, done, threw, then_do, either_way, guarded, require, unless_zero,
}

-- The outcome is `q` of a result and the calls made, or `e` of the exception and the calls made.
abbrev pub Ending :
    {C A : Type 0} → (A → List C → Type 0) → (Str → List C → Type 0) → Outcome C A → Type 0
Ending q e (done a h) = q a h
Ending q e (threw x h) = e x h

pub record Ends {C A : Type 0} (q : A → List C → Type 0) (e : Str → List C → Type 0)
    (o : Outcome C A) : Type 0 where
  pub ending : Ending q e o

module _ {C A : Type 0} {q : A → List C → Type 0} {e : Str → List C → Type 0} where
  pub then_do-Ends :
      {B : Type 0} {r : B → List C → Type 0} (o : Outcome C B) (f : B → Run C A)
      → Ends r e o
      → ((b : B) (h : List C) → r b h → Ends q e (f b h))
      → Ends q e (then_do o f)
  then_do-Ends (done b h) f i next = next b h i.ending
  then_do-Ends (threw x h) f i next = record { ending = i.ending }

  pub either_way-Ends :
      {B : Type 0} {r : B → List C → Type 0} {d : Str → List C → Type 0} (o : Outcome C B)
      (f : B → Run C A) (g : Str → Run C A)
      → Ends r d o
      → ((b : B) (h : List C) → r b h → Ends q e (f b h))
      → ((x : Str) (h : List C) → d x h → Ends q e (g x h))
      → Ends q e (either_way o f g)
  either_way-Ends (done b h) f g i next otherwise = next b h i.ending
  either_way-Ends (threw x h) f g i next otherwise = otherwise x h i.ending

  pub guarded-Ends :
      {d : Str → List C → Type 0} (m : Run C A) (clean : Run C (Unit {0})) (h : List C)
      → Ends q d (m h)
      → ((x : Str) (g : List C) → d x g → Ends (λ u k. e x k) e (clean g))
      → Ends q e (guarded m clean h)
  guarded-Ends m clean h i cleaned =
      either_way-Ends (m h) _ _ i (λ a g j. record { ending = j })
        (λ x g j. then_do-Ends (clean g) _ (cleaned x g j) (λ u k j'. record { ending = j' }))

  pub Ends-weaken :
      (r : A → List C → Type 0) (d : Str → List C → Type 0) (o : Outcome C A)
      → Ends q e o
      → ((a : A) (h : List C) → q a h → r a h)
      → ((x : Str) (h : List C) → e x h → d x h)
      → Ends r d o
  Ends-weaken r d (done a h) i f g = record { ending = f a h i.ending }
  Ends-weaken r d (threw x h) i f g = record { ending = g x h i.ending }

  -- A test that throws, and a handle that is tested.
  pub require-Ends :
      (ok : Bool) (x : Str) (h : List C) (f : Unit {0} → Run C A)
      → Ends q e (f tt h)
      → e x h
      → Ends q e (then_do (require ok x h) f)
  require-Ends true x h f i j = i
  require-Ends false x h f i j = record { ending = j }

  pub unless_zero-Ends :
      (n : ℕ) (x : Str) (h : List C) (f : ℕ → Run C A)
      → Ends q e (f n h)
      → e x h
      → Ends q e (then_do (unless_zero n x h) f)
  unless_zero-Ends n x h f i j = elim (Bool-cases (n == 0)) [
    | inl zero_handle ↦ rw zero_handle (record { ending = j })
    | inr handle ↦ rw handle i
  ]

-- Two facts about one end.
pub both-Ends :
    {C A : Type 0} {q r : A → List C → Type 0} {d e : Str → List C → Type 0} (o : Outcome C A)
    → Ends q d o
    → Ends r e o
    → Ends (λ a h. q a h × r a h) (λ x h. d x h × e x h) o
both-Ends (done a h) i j = record { ending = (i.ending, j.ending) }
both-Ends (threw x h) i j = record { ending = (i.ending, j.ending) }

pub any-Ends : {C A : Type 0} (o : Outcome C A) → Ends (λ a h. Unit {0}) (λ x h. Unit {0}) o
any-Ends (done a h) = record { ending = tt }
any-Ends (threw x h) = record { ending = tt }
