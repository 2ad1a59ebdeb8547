-- ===== src/Switcher/Sound.antt =====
-- The sessions that src/session_switcher.cpp holds: no null pointer, each under its own name.
use unity_system_compositor.Prelude.{
  ℕ, ◌≡◌, refl, Bool, [], ◌∷◌, some, Str, All, All-In, Bool-cases, inl, inr,
}
use unity_system_compositor.Prelude.Map
use unity_system_compositor.Prelude.Map.{str_key}
use unity_system_compositor.Session.{Scene, Session, name as session_name}
use unity_system_compositor.Switcher.{SessionInfo, Sessions, mark_all, stands_for}

module _ ⦃scene : Scene⦄ where
  -- An entry holds a session under that session's name.
  abbrev IsEntry : Str × SessionInfo → Type 0
  IsEntry (key, info) =
      (session : Session) × (info.session ≡ some session) × (session_name session ≡ key)

  abbrev pub IsSound : Sessions → Type 0
  IsSound = All IsEntry

  pub find-IsEntry :
      (key : Str) {info : SessionInfo} (m : Sessions)
      → IsSound m
      → Map.find key m ≡ some info
      → IsEntry (key, info)
  find-IsEntry key m v e = All-In IsEntry v (Map.find-In key m e)

  pub insert-IsSound :
      (session : Session) (ready : Bool) (m : Sessions)
      → IsSound m
      → IsSound
          (Map.insert (session_name session) (record { session = some session; ready = ready }) m)
  insert-IsSound session ready m v = Map.insert-All IsEntry _ _ m (session, refl, refl) v

  pub erase-IsSound : (key : Str) (m : Sessions) → IsSound m → IsSound (Map.erase key m)
  erase-IsSound key m v = Map.erase-All IsEntry key m v

  pub mark_all-IsSound : (p : ℕ) (m : Sessions) → IsSound m → IsSound (mark_all p m)
  unfolding mark_all
  mark_all-IsSound p [] v = v
  mark_all-IsSound p ((key, info) ∷ m) v = (
    elim (Bool-cases (stands_for info.session p)) [ inl it ↦ rw it v.0 | inr other ↦ rw other v.0 ],
    mark_all-IsSound p m v.1,
  )
