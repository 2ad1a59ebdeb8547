-- ===== src/Prelude/Map.antt =====
-- std::map as the list of its entries in the order of the keys.
use Prim.Native.Nat.{ℕ}
use mathlib.Core.Path.{◌≡◌, refl}
use mathlib.Core.Logic.{◌↔◌, inl, inr}
use mathlib.Core.Bool.{Bool, true}
use mathlib.Core.Option.{Option, none, some}
use mathlib.Core.List.{List, [], ◌∷◌}
use native.Mathlib.Omega.{arith}
use unity_system_compositor.Prelude.Tests.{◌==◌, ltb, ==_iff, if◌then◌else◌, Bool-cases}
use unity_system_compositor.Prelude.Text.{Str, str_eq, str_lt, str_eq_iff}
use unity_system_compositor.Prelude.Lists.{In, here, there, All}

-- A key type: its equality and its order.
pub record Key {ℓ} (K : Type ℓ) : Type ℓ where
  pub eq : K → K → Bool
  pub lt : K → K → Bool
  pub eq_iff : (a b : K) → (eq a b ≡ true) ↔ (a ≡ b)

instance abbrev pub str_key : Key Str
str_key = record { eq = str_eq; lt = str_lt; eq_iff = str_eq_iff }

-- Pointers, ordered by their addresses.
instance abbrev pub ptr_key : Key ℕ
ptr_key = record { eq = ◌==◌; lt = ltb; eq_iff = ==_iff }

module _ {ℓ κ} {K : Type ℓ} {V : Type κ} ⦃key : Key K⦄ where
  unfoldable pub find : K → List (K × V) → Option V
  find k [] = none
  find k ((j, v) ∷ m) = if key.eq j k then some v else find k m

  -- `m[k] = v`.
  unfoldable pub insert : K → V → List (K × V) → List (K × V)
  insert k v [] = (k, v) ∷ []
  insert k v ((j, w) ∷ m) =
      if key.eq j k
      then (k, v) ∷ m
      else if key.lt k j
      then (k, v) ∷ (j, w) ∷ m
      else (j, w) ∷ insert k v m

  unfoldable pub erase : K → List (K × V) → List (K × V)
  erase k [] = []
  erase k ((j, v) ∷ m) = if key.eq j k then erase k m else (j, v) ∷ erase k m

  pub find-insert :
      (k j : K) (v : V) (m : List (K × V))
      → find j (insert k v m) ≡ (if key.eq k j then some v else find j m)
  unfolding find insert
  find-insert k j v [] = refl
  find-insert k j v ((i, w) ∷ m) =
      ground (arith, key.eq_iff k j, key.eq_iff i k, key.eq_iff i j, find-insert k j v m)

  pub find-erase :
      (k j : K) (m : List (K × V)) → find j (erase k m) ≡ (if key.eq k j then none else find j m)
  unfolding find erase
  find-erase k j [] = ground arith
  find-erase k j ((i, w) ∷ m) =
      ground (arith, key.eq_iff k j, key.eq_iff i k, key.eq_iff i j, find-erase k j m)

  -- What `find` finds is an entry.
  pub find-In : (k : K) {v : V} (m : List (K × V)) → find k m ≡ some v → In (k, v) m
  unfolding find
  find-In k [] e = cc
  find-In k {v} ((j, w) ∷ m) e = elim (Bool-cases (key.eq j k)) [
    | inl hit ↦ rw (← (key.eq_iff j k).0 hit, ← (some_eq (rw hit at e))) here
    | inr miss ↦ there (find-In k m (rw miss at e))
  ]
    where
      some_eq : some w ≡ some v → w ≡ v
      some_eq h = cc

  module _ {μ} (P : K × V → Type μ) where
    pub insert-All : (k : K) (v : V) (m : List (K × V)) → P (k, v) → All P m → All P (insert k v m)
    unfolding insert
    insert-All k v [] p h = (p, h)
    insert-All k v ((j, w) ∷ m) p h = elim (Bool-cases (key.eq j k)) [
      | inl same ↦ rw same (p, h.1)
      | inr other ↦ rw other (elim (Bool-cases (key.lt k j)) [
        | inl less ↦ rw less (p, h)
        | inr more ↦ rw more (h.0, insert-All k v m p h.1)
      ])
    ]

    pub erase-All : (k : K) (m : List (K × V)) → All P m → All P (erase k m)
    unfolding erase
    erase-All k [] h = h
    erase-All k ((j, w) ∷ m) h = elim (Bool-cases (key.eq j k)) [
      | inl same ↦ rw same (erase-All k m h.1)
      | inr other ↦ rw other (h.0, erase-All k m h.1)
    ]
