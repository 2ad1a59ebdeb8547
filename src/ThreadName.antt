-- ===== src/ThreadName.antt =====
-- src/thread_name.cpp: the name that a thread is given is cut to what the system takes.
use unity_system_compositor.Prelude.{
  ℕ, zero, suc, ◌≤◌, ◌≡◌, refl, ap, [], ◌∷◌, ◌++◌, Str, take, length, arith,
}

proper_name : Str → Str
proper_name name = take 15 name

length-take : (n : ℕ) (s : Str) → length (take n s) ≤ n
length-take zero s = omega arith
length-take (suc n) [] = omega arith
length-take (suc n) (c ∷ s) = omega (arith, length-take n s)

take-start : (n : ℕ) (s : Str) → (rest : Str) × (s ≡ take n s ++ rest)
take-start zero s = (s, refl)
take-start (suc n) [] = ([], refl)
take-start (suc n) (c ∷ s) = let (rest, e) = take-start n s in (rest, ap (◌∷◌ c) e)

take-short : (n : ℕ) (s : Str) → length s ≤ n → take n s ≡ s
take-short zero [] h = refl
take-short zero (c ∷ s) h = ground arith
take-short (suc n) [] h = refl
take-short (suc n) (c ∷ s) h = ap (◌∷◌ c) (take-short n s (omega (arith, h)))

-- Of any name at most 15 bytes are used, its first ones, and all of it if it is not longer.
proper_name_lem :
    (name : Str)
    → (length (proper_name name) ≤ 15)
      × ((rest : Str) × (name ≡ proper_name name ++ rest))
      × (length name ≤ 15 → proper_name name ≡ name)
unfolding proper_name
proper_name_lem name = (length-take 15 name, take-start 15 name, λ h. take-short 15 name h)
