-- ===== src/Eglspinner/Config/Trim.antt =====
-- `trim` of spinner/eglspinner.cpp takes away the spaces around a text, and those only.
use unity_system_compositor.Prelude.{
  ℕ, suc, ◌+◌, ◌≡◌, refl, ap, ◌∙◌, true, [], ◌∷◌, ◌++◌, Str, length, take, drop, ◌==◌,
  if◌then◌else◌, arith, All, take-append, drop-append,
}
use unity_system_compositor.Eglspinner.Config.{is_space, wsfront, wsback, trim}

abbrev pub IsBlank : Str → Type 0
IsBlank = All (λ c. is_space c ≡ true)

-- No space stands in front or behind; the empty text is one of these.
pub record IsTrimmed (s : Str) : Type 0 where
  pub front : wsfront s ≡ 0
  pub back : wsback s ≡ length s

wsfront-append : (pre s : Str) → IsBlank pre → wsfront (pre ++ s) ≡ length pre + wsfront s
unfolding wsfront
wsfront-append [] s b = omega arith
wsfront-append (c ∷ pre) s b = ground (arith, wsfront-append pre s b.1)

wsback_blank : (s : Str) → IsBlank s → wsback s ≡ 0
unfolding wsback
wsback_blank [] b = refl
wsback_blank (c ∷ s) b = ground (arith, wsback_blank s b.1)

wsback-append_blank : (s post : Str) → IsBlank post → wsback (s ++ post) ≡ wsback s
unfolding wsback
wsback-append_blank [] post b = wsback_blank post b
wsback-append_blank (c ∷ s) post b = ground (arith, wsback-append_blank s post b)

wsback-blank_append :
    (pre s : Str)
    → IsBlank pre
    → wsback (pre ++ s) ≡ (if wsback s == 0 then 0 else length pre + wsback s)
unfolding wsback
wsback-blank_append [] s b = ground arith
wsback-blank_append (c ∷ pre) s b = ground (arith, wsback-blank_append pre s b.1)

wsfront_word : (c : ℕ) (s post : Str) → wsfront (c ∷ s) ≡ 0 → wsfront (c ∷ (s ++ post)) ≡ 0
unfolding wsfront
wsfront_word c s post f = ground arith

cut : (pre s post : Str) → take (length s) (drop (length pre) (pre ++ (s ++ post))) ≡ s
cut pre s post = ap (take (length s)) (drop-append pre (s ++ post)) ∙ take-append s post

-- A text that has no spaces around it is what is left of it when spaces are put around it and it is
-- trimmed.
pub trim-append :
    (pre s post : Str) → IsBlank pre → IsBlank post → IsTrimmed s → trim (pre ++ (s ++ post)) ≡ s
unfolding trim
trim-append pre [] post b e t =
    rw (wsback-blank_append pre post b, wsback_blank post e) (ground arith)
trim-append pre (c ∷ s) post b e t =
    let front : wsfront (pre ++ ((c ∷ s) ++ post)) ≡ length pre =
      wsfront-append pre ((c ∷ s) ++ post) b ∙ (omega (arith, wsfront_word c s post t.front)) in
    let back : wsback (pre ++ ((c ∷ s) ++ post)) ≡ length pre + suc (length s) = ground (
      arith,
      wsback-blank_append pre ((c ∷ s) ++ post) b,
      wsback-append_blank (c ∷ s) post e,
      t.back,
    ) in
    rw (front, back) (ground (arith, cut pre (c ∷ s) post))
