-- ===== src/Outcome.antt =====
-- Code that calls the outside and may throw: what it returns or throws, with the calls it made. The
-- other modules say which calls there are.
pub mod Endings
use unity_system_compositor.Prelude.{ℕ, ◌==◌, Bool, List, ◌∷◌, Str, if◌then◌else◌}

-- The last call first.
pub data Outcome (C A : Type 0) : Type 0 where
  done : A → List C → Outcome C A
  threw : Str → List C → Outcome C A

abbrev pub Run : Type 0 → Type 0 → Type 0
Run C A = List C → Outcome C A

module _ {C A : Type 0} where
  abbrev pub then_do : {B : Type 0} → Outcome C A → (A → Run C B) → Outcome C B
  then_do (done a h) f = f a h
  then_do (threw e h) f = threw e h

  -- What follows a call that returns, and one that throws.
  abbrev pub either_way : {B : Type 0} → Outcome C A → (A → Run C B) → (Str → Run C B) → Outcome C B
  either_way (done a h) f g = f a h
  either_way (threw x h) f g = g x h

  abbrev pub pure : A → Run C A
  pure a h = done a h

  abbrev pub ask : (List C → A) → Run C A
  ask answer h = done (answer h) h

  abbrev pub throw : Str → Run C A
  throw e h = threw e h

infixl 5 ◌>>=◌ ◌>>◌
abbrev pub ◌>>=◌ : {C A B : Type 0} → Run C A → (A → Run C B) → Run C B
◌>>=◌ m f h = then_do (m h) f

abbrev pub ◌>>◌ : {C B : Type 0} → Run C (Unit {0}) → Run C B → Run C B
m >> k = m >>= λ _. k

-- What an exception leaves behind is cleaned up before it passes on.
abbrev pub guarded : {C A : Type 0} → Run C A → Run C (Unit {0}) → Run C A
guarded m clean h = either_way (m h) pure (λ x. clean >> throw x)

module _ {C : Type 0} where
  abbrev pub tell : C → Run C (Unit {0})
  tell c h = done tt (c ∷ h)

  abbrev pub require : Bool → Str → Run C (Unit {0})
  require ok e = if ok then pure tt else throw e

  abbrev pub unless_zero : ℕ → Str → Run C ℕ
  unless_zero handle e = if handle == 0 then throw e else pure handle
