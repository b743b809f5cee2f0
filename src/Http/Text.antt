-- ===== src/Http/Text.antt =====
-- About the hexadecimal numbers that http.c prints and reads.
use study_libevent.Prelude.{
  ℕ, zero, suc, ◌+◌, ◌*◌, ◌/◌, ◌%◌, ◌^◌, ◌≤◌, ◌<◌, ◌≡◌, ◌≢◌, refl, sym, ap, ◌∙◌, List, [], ◌∷◌,
  ◌++◌, append_assoc, append-nil, Bool, true, false, none, some, ltb, ◌==◌, All, All-append, length,
  length-append, Bool-cases, arith, inl, inr,
}
use study_libevent.Http.{
  is_space, is_xdigit, hex_value, scan_hex, skip_space, skip_prefix, skip_sign, signed_hex, strtoll,
  hex_digit, print_hex, strsep,
}

abbrev pub IsDigit : ℕ → Type 0
IsDigit c = is_xdigit c ≡ true

pub hex_digit-IsDigit : (upper : Bool) (d : ℕ) → d < 16 → IsDigit (hex_digit upper d)
unfolding hex_digit is_xdigit
hex_digit-IsDigit upper d h = ground arith

pub hex_value-hex_digit : (upper : Bool) (d : ℕ) → d < 16 → hex_value (hex_digit upper d) ≡ d
unfolding hex_digit hex_value
hex_value-hex_digit upper d h = ground arith

pub print_hex-IsDigit : (fuel n : ℕ) → All IsDigit (print_hex fuel n)
unfolding print_hex
print_hex-IsDigit zero n = tt
print_hex-IsDigit (suc fuel) n = elim (Bool-cases (ltb n 16)) [
  | inl e ↦ rw e (hex_digit-IsDigit false n (ground arith), tt)
  | inr e ↦ rw e (
      All-append IsDigit (print_hex fuel (n / 16)) _ (print_hex-IsDigit fuel (n / 16))
        (hex_digit-IsDigit false (n % 16) (omega arith), tt))
]

scan_digit :
    (acc d : ℕ) (rest : List ℕ)
    → d < 16
    → scan_hex acc (hex_digit false d ∷ rest) ≡ scan_hex (acc * 16 + d) rest
unfolding scan_hex
scan_digit acc d rest h = rw (hex_digit-IsDigit false d h, hex_value-hex_digit false d h) refl

scan_hex-print_hex :
    (fuel n : ℕ) (rest : List ℕ)
    → n < 16 ^ fuel
    → scan_hex 0 (print_hex fuel n ++ rest) ≡ scan_hex n rest
unfolding print_hex
scan_hex-print_hex zero n rest h = ap (λ k. scan_hex k rest) (omega arith)
scan_hex-print_hex (suc fuel) n rest h = elim (Bool-cases (ltb n 16)) [
  | inl e ↦ rw e (scan_digit 0 n rest (ground arith) ∙ ap (λ k. scan_hex k rest) (omega arith))
  | inr e ↦
      rw (e, append_assoc (print_hex fuel (n / 16)) (hex_digit false (n % 16) ∷ []) rest)
        (scan_hex-print_hex fuel (n / 16) (hex_digit false (n % 16) ∷ rest) (omega arith)
          ∙ scan_digit (n / 16) (n % 16) rest (omega arith)
          ∙ ap (λ k. scan_hex k rest) (omega arith))
]

skip_space_digit : (c : ℕ) (cs : List ℕ) → IsDigit c → skip_space (c ∷ cs) ≡ c ∷ cs
unfolding skip_space is_xdigit is_space
skip_space_digit c cs h = ground arith

skip_sign_digit : (c : ℕ) (cs : List ℕ) → IsDigit c → skip_sign (c ∷ cs) ≡ (false, c ∷ cs)
unfolding skip_sign is_xdigit
skip_sign_digit c cs h = ground arith

skip_prefix_digits : (cs : List ℕ) → All IsDigit cs → skip_prefix cs ≡ cs
unfolding skip_prefix is_xdigit
skip_prefix_digits [] h = refl
skip_prefix_digits (a ∷ []) h = refl
skip_prefix_digits (a ∷ b ∷ []) h = refl
skip_prefix_digits (a ∷ b ∷ c ∷ cs) h = ground arith

-- What `strtoll` makes of digits with a value below 2 ^ 63.
strtoll_digits :
    (c : ℕ) (cs : List ℕ) (n : ℕ)
    → All IsDigit (c ∷ cs)
    → scan_hex 0 (c ∷ cs) ≡ (n, [])
    → n < 2 ^ 63
    → strtoll (c ∷ cs) ≡ (some n, [])
unfolding strtoll signed_hex
strtoll_digits c cs n h value small =
    rw
      (
        skip_space_digit c cs h.0,
        skip_sign_digit c cs h.0,
        h.0,
        skip_prefix_digits (c ∷ cs) h,
        value,
      )
      (ground arith)

strtoll_text :
    (cs : List ℕ) (n : ℕ)
    → cs ≢ []
    → All IsDigit cs
    → scan_hex 0 cs ≡ (n, [])
    → n < 2 ^ 63
    → strtoll cs ≡ (some n, [])
strtoll_text [] n ne h value small = absurd (ne refl)
strtoll_text (c ∷ cs) n ne h value small = strtoll_digits c cs n h value small

pub print_hex_some : (fuel n : ℕ) → print_hex (suc fuel) n ≢ []
unfolding print_hex
print_hex_some fuel n e = elim (Bool-cases (ltb n 16)) [
  | inl t ↦ cc (rw t at e)
  | inr t ↦ append_ne_nil _ (print_hex fuel (n / 16)) (rw t at e)
]
  where
    append_ne_nil : (x : ℕ) (xs : List ℕ) → (xs ++ x ∷ []) ≡ [] → ⊥
    append_ne_nil x [] p = cc
    append_ne_nil x (y ∷ ys) p = cc

-- The digits that `%x` prints for an `unsigned int` are read back as it.
pub strtoll-print_hex : (n : ℕ) → n < 2 ^ 32 → strtoll (print_hex 8 n) ≡ (some n, [])
strtoll-print_hex n h =
    strtoll_text (print_hex 8 n) n (print_hex_some 7 n) (print_hex-IsDigit 8 n)
      (ap (scan_hex 0) (sym (append-nil (print_hex 8 n)))
        ∙ scan_hex-print_hex 8 n [] h
        ∙ (unfold scan_hex in refl))
      (omega arith)

pub length-print_hex : (fuel n : ℕ) → length (print_hex fuel n) ≤ fuel
unfolding print_hex
length-print_hex zero n = omega arith
length-print_hex (suc fuel) n = elim (Bool-cases (ltb n 16)) [
  | inl e ↦ rw e (omega arith)
  | inr e ↦ rw e (
      omega (
        arith,
        length-append (print_hex fuel (n / 16)) (hex_digit false (n % 16) ∷ []),
        length-print_hex fuel (n / 16),
      ))
]

-- No byte is `d`.
abbrev pub Without : ℕ → List ℕ → Type 0
Without d xs = All (λ c. (c == d) ≡ false) xs

pub strsep_found : (d : ℕ) (xs ys : List ℕ) → Without d xs → strsep d (xs ++ d ∷ ys) ≡ (xs, some ys)
unfolding strsep
strsep_found d [] ys h = let same : (d == d) ≡ true = ground arith in rw same refl
strsep_found d (c ∷ xs) ys (h, hs) = rw (h, strsep_found d xs ys hs) refl

pub strsep_last : (d : ℕ) (xs : List ℕ) → Without d xs → strsep d xs ≡ (xs, none)
unfolding strsep
strsep_last d [] h = refl
strsep_last d (c ∷ xs) (h, hs) = rw (h, strsep_last d xs hs) refl
