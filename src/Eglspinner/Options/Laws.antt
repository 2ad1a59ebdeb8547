-- ===== src/Eglspinner/Options/Laws.antt =====
-- How the options of spinner/eglapp.cpp may be written, and what ends them.
use unity_system_compositor.Prelude.{
  ℕ, ◌≡◌, Bool, true, false, List, [], ◌∷◌, some, Str, arith, ◌<◌, ◌^◌, drop, Option-cases, inl,
  inr,
}
use unity_system_compositor.Eglspinner.Config.{digits_value, wsfront}
use unity_system_compositor.Eglspinner.Options.{
  Floats, Params, Key, opacity, output, size, Waiting, idle, socket, argument, take_argument,
  option, at_end, options, unsigned_value, scan_unsigned, scan_size, scan_digits, scan_signed,
  scan_x, attached, by_letter, attached, by_letter,
}

abbrev letter : Key → ℕ
letter opacity = 98
letter output = 111
letter size = 115

module _ {F : Type 0} ⦃floats : Floats F⦄ where
  -- The argument of an option may be attached to it or follow it, and both are read alike.
  options_attached :
      (key : Key) (c : ℕ) (s : Str) (args : List Str) (p : Params F)
      → options ((45 ∷ letter key ∷ c ∷ s) ∷ args) idle p
        ≡ options ((45 ∷ letter key ∷ []) ∷ (c ∷ s) ∷ args) idle p
  unfolding options option
  options_attached opacity c s args p = ground arith
  options_attached output c s args p = ground arith
  options_attached size c s args p = ground arith

-- The numbers of the parameters are ones that an unsigned int holds.
pub record IsUnsigned {F : Type 0} (p : Params F) : Type 0 where
  pub width_fits : p.width < 2 ^ 32
  pub height_fits : p.height < 2 ^ 32
  pub output_fits : p.output_id < 2 ^ 32

unsigned_value-lt : (negative : Bool) (n : ℕ) → unsigned_value negative n < 2 ^ 32
unfolding unsigned_value
unsigned_value-lt negative n = ground arith

scan_digits-lt :
    (negative : Bool) (s : Str) (r : ℕ × Str) → scan_digits negative s ≡ some r → r.0 < 2 ^ 32
scan_digits-lt negative [] r e = cc
scan_digits-lt negative (c ∷ s) r e =
    ground (arith, unsigned_value-lt negative (digits_value 0 (c ∷ s)))

scan_signed-lt : (s : Str) (r : ℕ × Str) → scan_signed s ≡ some r → r.0 < 2 ^ 32
scan_signed-lt [] r e = cc
scan_signed-lt (c ∷ s) r e =
    ground
      (arith, scan_digits-lt true s r, scan_digits-lt false s r, scan_digits-lt false (c ∷ s) r)

scan_unsigned-lt : (s : Str) (r : ℕ × Str) → scan_unsigned s ≡ some r → r.0 < 2 ^ 32
unfolding scan_unsigned
scan_unsigned-lt s r e = scan_signed-lt (drop (wsfront s) s) r e

scan_x-lt :
    (r : ℕ × Str) (wh : ℕ × ℕ)
    → r.0 < 2 ^ 32
    → scan_x r ≡ some wh
    → (wh.0 < 2 ^ 32) × (wh.1 < 2 ^ 32)
scan_x-lt (w, []) wh h e = cc
scan_x-lt (w, c ∷ s) wh h e = elim (Option-cases (scan_unsigned s)) [
  | inl missing ↦ ground arith
  | inr (r, read) ↦ ground (arith, scan_unsigned-lt s r read)
]

scan_size-lt : (s : Str) (wh : ℕ × ℕ) → scan_size s ≡ some wh → (wh.0 < 2 ^ 32) × (wh.1 < 2 ^ 32)
unfolding scan_size
scan_size-lt s wh e = elim (Option-cases (scan_unsigned s)) [
  | inl missing ↦ ground arith
  | inr (r, read) ↦ scan_x-lt r wh (scan_unsigned-lt s r read) (rw read at e)
]

module _ {F : Type 0} ⦃floats : Floats F⦄ where
  take_argument-IsUnsigned :
      (key : Key) (arg : Str) (p q : Params F)
      → IsUnsigned p
      → take_argument key arg p ≡ some q
      → IsUnsigned q
  unfolding take_argument
  take_argument-IsUnsigned opacity arg p q u e = ground arith
  take_argument-IsUnsigned output arg p q u e = elim (Option-cases (scan_unsigned arg)) [
    | inl missing ↦ ground arith
    | inr (r, read) ↦ ground (arith, scan_unsigned-lt arg r read)
  ]
  take_argument-IsUnsigned size arg p q u e = elim (Option-cases (scan_size arg)) [
    | inl missing ↦ ground arith
    | inr (wh, read) ↦ ground (arith, scan_size-lt arg wh read)
  ]

  attached-IsUnsigned :
      (key : Key) (rest : Str) (p : Params F) (r : Waiting × Params F)
      → IsUnsigned p
      → attached key rest p ≡ some r
      → IsUnsigned r.1
  attached-IsUnsigned key [] p r u e = ground arith
  attached-IsUnsigned key (c ∷ s) p r u e = elim (Option-cases (take_argument key (c ∷ s) p)) [
    | inl missing ↦ ground arith
    | inr (q, read) ↦ ground (arith, take_argument-IsUnsigned key (c ∷ s) p q u read)
  ]

  by_letter-IsUnsigned :
      (c : ℕ) (rest : Str) (p : Params F) (r : Waiting × Params F)
      → IsUnsigned p
      → by_letter c rest p ≡ some r
      → IsUnsigned r.1
  by_letter-IsUnsigned c rest p r u e = ground (
    arith,
    attached-IsUnsigned opacity rest p r u,
    attached-IsUnsigned output rest p r u,
    attached-IsUnsigned size rest p r u,
  )

  option-IsUnsigned :
      (arg : Str) (p : Params F) (r : Waiting × Params F)
      → IsUnsigned p
      → option arg p ≡ some r
      → IsUnsigned r.1
  unfolding option
  option-IsUnsigned [] p r u e = cc
  option-IsUnsigned (dash ∷ []) p r u e = cc
  option-IsUnsigned (dash ∷ c ∷ rest) p r u e = ground (arith, by_letter-IsUnsigned c rest p r u)

  at_end-IsUnsigned :
      (w : Waiting) (p q : Params F) → IsUnsigned p → at_end w p ≡ some q → IsUnsigned q
  unfolding at_end
  at_end-IsUnsigned idle p q u e = ground arith
  at_end-IsUnsigned socket p q u e = ground arith
  at_end-IsUnsigned (argument key) p q u e = take_argument-IsUnsigned key [] p q u e

  -- Whatever the arguments are, the size and the output that the options leave are numbers that an
  -- unsigned int holds, if those are that they start from.
  options-IsUnsigned :
      (args : List Str) (w : Waiting) (p q : Params F)
      → IsUnsigned p
      → options args w p ≡ some q
      → IsUnsigned q
  unfolding options
  options-IsUnsigned [] w p q u e = at_end-IsUnsigned w p q u e
  options-IsUnsigned (arg ∷ args) idle p q u e = elim (Option-cases (option arg p)) [
    | inl bad ↦ ground arith
    | inr (r, read) ↦
        options-IsUnsigned args r.0 r.1 q (option-IsUnsigned arg p r u read) (rw read at e)
  ]
  options-IsUnsigned (arg ∷ args) socket p q u e =
      options-IsUnsigned args idle (record p { mir_socket = some arg }) q
        (record {
          width_fits = u.width_fits;
          height_fits = u.height_fits;
          output_fits = u.output_fits;
        })
        e
  options-IsUnsigned (arg ∷ args) (argument key) p q u e =
      elim (Option-cases (take_argument key arg p)) [
        | inl bad ↦ ground arith
        | inr (r, read) ↦
            options-IsUnsigned args idle r q (take_argument-IsUnsigned key arg p r u read)
              (rw read at e)
      ]
