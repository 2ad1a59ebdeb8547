-- ===== src/Switcher/Display.antt =====
-- What stands on the display after the calls of src/session_switcher.cpp: the last word on each
-- session's visibility, and the last focus.
use unity_system_compositor.Prelude.{
  ℕ, ◌≡◌, refl, Bool, true, false, not, ◌&&◌, ◌||◌, List, [], ◌∷◌, Option, none, some, Str, str_eq,
  str_eq_iff, arith, if◌then◌else◌, ◌==◌,
}
use unity_system_compositor.Session.{
  Scene, Session, Call, shows, hides, raises, focuses, name as session_name, hide, corresponds_to,
}
use unity_system_compositor.Switcher.{Sessions, stands_for}
use unity_system_compositor.Switcher.Sound.{IsSound}
use unity_system_compositor.Switcher.Plan.{hidden_all, hidden_others, hide_session_of}

-- `none`: neither shown nor hidden so far.
abbrev pub visible : List Call → ℕ → Option Bool
visible [] q = none
visible (shows p ∷ calls) q = if p == q then some true else visible calls q
visible (hides p ∷ calls) q = if p == q then some false else visible calls q
visible (raises p ∷ calls) q = visible calls q
visible (focuses p ∷ calls) q = visible calls q

abbrev pub focused : List Call → Option ℕ
focused [] = none
focused (shows p ∷ calls) = focused calls
focused (hides p ∷ calls) = focused calls
focused (raises p ∷ calls) = focused calls
focused (focuses p ∷ calls) = some p

-- Whether the switcher holds the scene session `q`.
unfoldable pub listed : ℕ → Sessions → Bool
listed q [] = false
listed q ((key, info) ∷ m) = stands_for info.session q || listed q m

visible-hide_session_of :
    (o : Option Session) (calls : List Call) (q : ℕ)
    → visible (hide_session_of o calls) q ≡ (if stands_for o q then some false else visible calls q)
unfolding hide corresponds_to
visible-hide_session_of none calls q = refl
visible-hide_session_of (some x) calls q = refl

pub visible-hidden_all :
    (m : Sessions) (calls : List Call) (q : ℕ)
    → visible (hidden_all m calls) q ≡ (if listed q m then some false else visible calls q)
unfolding hidden_all listed
visible-hidden_all [] calls q = refl
visible-hidden_all ((key, info) ∷ m) calls q = ground (
  arith,
  visible-hidden_all m (hide_session_of info.session calls) q,
  visible-hide_session_of info.session calls q,
)

module _ ⦃scene : Scene⦄ where
  -- The active and the next session are spared.
  abbrev spared : Str → Str → ℕ → Bool
  spared active next q = str_eq (scene.scene_name q) active || str_eq (scene.scene_name q) next

  pub visible-hidden_others :
      (active next : Str) (m : Sessions) (calls : List Call) (q : ℕ)
      → IsSound m
      → visible (hidden_others active next m calls) q
        ≡ (if listed q m && not (spared active next q) then some false else visible calls q)
  unfolding hidden_others listed session_name corresponds_to hide
  visible-hidden_others active next [] calls q v = refl
  visible-hidden_others active next ((key, info) ∷ m) calls q v = ground (
    arith,
    visible-hidden_others active next m calls q v.1,
    visible-hidden_others active next m (hide v.0.0 calls) q v.1,
    str_eq_iff (scene.scene_name q) active,
    str_eq_iff (scene.scene_name q) next,
  )

focused-hidden_others :
    (active next : Str) (m : Sessions) (calls : List Call)
    → focused (hidden_others active next m calls) ≡ focused calls
unfolding hidden_others hide
focused-hidden_others active next [] calls = refl
focused-hidden_others active next ((key, info) ∷ m) calls = ground (
  arith,
  focused-hidden_others active next m calls,
  focused-hidden_others active next m (hide_session_of info.session calls),
)
