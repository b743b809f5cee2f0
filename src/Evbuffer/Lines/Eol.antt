-- ===== src/Evbuffer/Lines/Eol.antt =====
-- About the `switch` of `evbuffer_readln` of buffer.c: the end of a line, style by style.
use study_libevent.Prelude.{
  ℕ, zero, suc, ◌+◌, ◌-◌, ◌^◌, ◌≤◌, ◌<◌, ◌≡◌, ◌≢◌, refl, ap, ◌∙◌, List, Bool, true, false, ltb, leb,
  ltb→lt, ◌==◌, ==_iff, ◌&&◌, not, length, get_or, get_or-drop, drop, Ensures, Ensures-if,
  Ensures-bind, returns, arith, inl, inr, ◌⊎◌, Bool-cases, position, position-le,
  position-before_at, position-at, position-from, Option, none, some, subst, Option-cases,
  length-drop,
}
use study_libevent.Evbuffer.Lines.{
  add_uint, is_eol, memchr, EolStyle, any, crlf, crlf_strict, lf, other, any_bounds, crlf_bounds,
  eol_of_width, strict_loop, eol_bounds,
}
use study_libevent.Evbuffer.Lines.Scan.{scan-position, scan_start}

-- A CR directly before a LF at index `k`.
abbrev pub IsPair : List ℕ → ℕ → Type 0
IsPair bytes k = (suc k < length bytes) × (get_or bytes k 0 ≡ 13) × (get_or bytes (suc k) 0 ≡ 10)

-- There is no end of a line in the style.
abbrev pub NoEol : EolStyle → List ℕ → Type 0
NoEol any bytes = (k : ℕ) → k < length bytes → is_eol (get_or bytes k 0) ≡ false
NoEol crlf bytes = (k : ℕ) → k < length bytes → get_or bytes k 0 ≢ 10
NoEol crlf_strict bytes = (k : ℕ) → ¬ IsPair bytes k
NoEol lf bytes = (k : ℕ) → k < length bytes → get_or bytes k 0 ≢ 10
NoEol other bytes = Unit

-- The first end of a line in the style goes from index `s` to before index `e`.
abbrev pub IsEol : EolStyle → List ℕ → ℕ → ℕ → Type 0
IsEol any bytes s e =
    (s < e)
    × (e ≤ length bytes)
    × ((k : ℕ) → k < s → is_eol (get_or bytes k 0) ≡ false)
    × ((k : ℕ) → s ≤ k → k < e → is_eol (get_or bytes k 0) ≡ true)
    × (e < length bytes → is_eol (get_or bytes e 0) ≡ false)
IsEol crlf bytes s e =
    (k : ℕ) × (e ≡ suc k)
    × (k < length bytes)
    × (get_or bytes k 0 ≡ 10)
    × ((j : ℕ) → j < k → get_or bytes j 0 ≢ 10)
    × (((suc s ≡ k) × (get_or bytes s 0 ≡ 13))
        ⊎ ((s ≡ k) × ((j : ℕ) → suc j ≡ k → get_or bytes j 0 ≢ 13)))
IsEol crlf_strict bytes s e = (e ≡ s + 2) × IsPair bytes s × ((k : ℕ) → k < s → ¬ IsPair bytes k)
IsEol lf bytes s e =
    (e ≡ suc s)
    × (s < length bytes)
    × (get_or bytes s 0 ≡ 10)
    × ((k : ℕ) → k < s → get_or bytes k 0 ≢ 10)
IsEol other bytes s e = ⊥

abbrev pub Found : EolStyle → List ℕ → Option (ℕ × ℕ) → Type 0
Found style bytes none = NoEol style bytes
Found style bytes (some (s, e)) = IsEol style bytes s e

-- What `memchr` finds.
abbrev pub FoundByte : ℕ → List ℕ → Option ℕ → Type 0
FoundByte c bytes none = (k : ℕ) → k < length bytes → get_or bytes k 0 ≢ c
FoundByte c bytes (some k) =
    (k < length bytes) × (get_or bytes k 0 ≡ c) × ((j : ℕ) → j < k → get_or bytes j 0 ≢ c)

pub memchr-FoundByte : (c : ℕ) (bytes : List ℕ) → FoundByte c bytes (memchr c bytes)
unfolding memchr
memchr-FoundByte c bytes = elim (Bool-cases (position (λ x. x == c) bytes == length bytes)) [
  | inl e ↦ rw e λ k h. let miss = position-before_at (λ x. x == c) bytes k in ground arith
  | inr e ↦ rw e (
    ground (arith, position-le (λ x. x == c) bytes),
    (==_iff _ c).0
        (position-at (λ x. x == c) bytes (ground (arith, position-le (λ x. x == c) bytes))),
    λ j h. let miss = position-before_at (λ x. x == c) bytes j h in ground arith,
  )
]

not-true : {b : Bool} → not b ≡ true → b ≡ false
not-true {b} h = ground arith

not-false : {b : Bool} → not b ≡ false → b ≡ true
not-false {b} h = ground arith

any_bounds-Found :
    (bytes : List ℕ) → length bytes < 2 ^ 32 → Ensures (Found any bytes) (any_bounds bytes)
unfolding any_bounds
any_bounds-Found bytes small = rw (scan_start is_eol bytes small) (
    Ensures-if (i == length bytes)
      (λ e. returns λ k h. position-before_at is_eol bytes k (ground arith))
      λ e.
        let inside : i < length bytes = ground (arith, position-le is_eol bytes) in
        let next : add_uint i 1 ≡ suc i = omega arith in
        rw
          (
            next,
            scan-position (λ c. not (is_eol c)) (length bytes + 1) bytes (suc i) small inside
                (omega arith),
          )
          (let (le, run, stop) = position-from (λ c. not (is_eol c)) bytes (suc i) inside in
            returns (
              omega arith,
              le,
              position-before_at is_eol bytes,
              (λ k lo hi. elim (Bool-cases (k == i)) [
                | inl same ↦ rw ((==_iff k i).0 same) (position-at is_eol bytes inside)
                | inr later ↦ not-false (run k (ground arith) hi)
              ]),
              λ more. not-true (stop more),
            )))
  where
    i : ℕ
    i = position is_eol bytes

crlf_bounds-Found :
    (bytes : List ℕ) (r : Option ℕ) → FoundByte 10 bytes r → Found crlf bytes (crlf_bounds bytes r)
unfolding crlf_bounds
crlf_bounds-Found bytes none f = f
crlf_bounds-Found bytes (some k) (inside, at, before) =
    elim (Bool-cases (ltb 0 k && get_or bytes (k - 1) 0 == 13)) [
      | inl e ↦ rw e (k, omega arith, inside, at, before, inl (ground arith, ground arith))
      | inr e ↦ rw e (
        k,
        omega arith,
        inside,
        at,
        before,
        inr (
          refl,
          λ j h.
              let e' : k - 1 ≡ j = omega arith in
              let fact : get_or bytes (k - 1) 0 ≢ 13 = ground arith in
              subst (λ i. get_or bytes i 0 ≢ 13) e' fact,
        ),
      )
    ]

pub behind :
    (bytes : List ℕ) (cp j : ℕ) → cp ≤ j → get_or (drop cp bytes) (j - cp) 0 ≡ get_or bytes j 0
behind bytes cp j h = get_or-drop cp (j - cp) bytes 0 ∙ ap (λ i. get_or bytes i 0) (omega arith)

-- The next CR from `cp` on is at index `cp + k`, and there is no pair before it.
next_cr :
    (bytes : List ℕ) (cp k : ℕ)
    → ((j : ℕ) → j < cp → ¬ IsPair bytes j)
    → FoundByte 13 (drop cp bytes) (some k)
    → (cp + k < length bytes)
      × (get_or bytes (cp + k) 0 ≡ 13)
      × ((j : ℕ) → j < cp + k → ¬ IsPair bytes j)
next_cr bytes cp k passed (inside, at, before) = (
  omega (arith, length-drop cp bytes),
  rw get_or-drop at at,
  λ j h pair. elim (Bool-cases (ltb j cp)) [
    | inl e ↦ passed j (ltb→lt j cp e) pair
    | inr e ↦
        let late : cp ≤ j = ground arith in
        before (j - cp) (omega arith) (behind bytes cp j late ∙ pair.1)
  ],
)

no_more_cr :
    (bytes : List ℕ) (cp : ℕ)
    → ((j : ℕ) → j < cp → ¬ IsPair bytes j)
    → FoundByte 13 (drop cp bytes) none
    → (j : ℕ) → ¬ IsPair bytes j
no_more_cr bytes cp passed miss j pair = elim (Bool-cases (ltb j cp)) [
  | inl e ↦ passed j (ltb→lt j cp e) pair
  | inr e ↦
      let late : cp ≤ j = ground arith in
      miss (j - cp) (omega (arith, length-drop cp bytes, pair.0)) (behind bytes cp j late ∙ pair.1)
]

not_here :
    (bytes : List ℕ) (i : ℕ)
    → (ltb i (length bytes - 1) && get_or bytes (suc i) 0 == 10) ≡ false
    → ¬ IsPair bytes i
not_here bytes i t (inside, cr, lf') = ground arith

lf-Found :
    (bytes : List ℕ) (r : Option ℕ) → FoundByte 10 bytes r → Found lf bytes (eol_of_width 1 r)
unfolding eol_of_width
lf-Found bytes none f = f
lf-Found bytes (some k) (inside, at, before) = (omega arith, inside, at, before)

-- The loop has passed no pair so far.
strict_loop-Found :
    (fuel : ℕ) (bytes : List ℕ) (cp : ℕ)
    → cp ≤ length bytes
    → length bytes < cp + fuel
    → ((k : ℕ) → k < cp → ¬ IsPair bytes k)
    → Ensures (λ r. Found crlf_strict bytes (eol_of_width 2 r)) (strict_loop fuel bytes cp)
unfolding strict_loop eol_of_width
strict_loop-Found zero bytes cp le f passed = absurd (omega arith)
strict_loop-Found (suc fuel) bytes cp le f passed =
    let found = memchr-FoundByte 13 (drop cp bytes) in
    elim (Option-cases (memchr 13 (drop cp bytes))) [
      | inl e ↦
          rw (e, strict_loop)
            (returns (no_more_cr bytes cp passed (subst (FoundByte 13 (drop cp bytes)) e found)))
      | inr (k, e) ↦
          let (inside, at, before) =
            next_cr bytes cp k passed (subst (FoundByte 13 (drop cp bytes)) e found) in
          let next : cp + k + 1 ≡ suc (cp + k) = omega arith in
          rw (e, strict_loop, next)
            (Ensures-if (ltb (cp + k) (length bytes - 1) && get_or bytes (suc (cp + k)) 0 == 10)
              (λ t. returns (refl, (ground arith, at, ground arith), before))
              λ t.
                Ensures-if (leb (length bytes) (suc (cp + k)))
                  (λ over. returns λ j pair. before j (ground arith) pair)
                  λ more.
                    strict_loop-Found fuel bytes (suc (cp + k)) inside (omega arith) λ j h pair.
                      elim (Bool-cases (j == cp + k)) [
                        | inl same ↦
                            not_here bytes (cp + k) t
                              (subst (IsPair bytes) ((==_iff j _).0 same) pair)
                        | inr ne ↦ before j (ground arith) pair
                      ])
    ]

-- The ends that the `switch` finds are the first of their style, and it finds one if there is one;
-- its loops end.
pub eol_bounds-Found :
    (style : EolStyle) (bytes : List ℕ)
    → length bytes < 2 ^ 32
    → Ensures (Found style bytes) (eol_bounds style bytes)
unfolding eol_bounds
eol_bounds-Found any bytes small = any_bounds-Found bytes small
eol_bounds-Found crlf bytes small = returns (crlf_bounds-Found bytes _ (memchr-FoundByte 10 bytes))
eol_bounds-Found crlf_strict bytes small =
    Ensures-bind
      (strict_loop-Found (length bytes + 1) bytes 0 (omega arith) (omega arith)
        (λ j h. absurd (omega arith)))
      λ r found. returns found
eol_bounds-Found lf bytes small =
    returns (lf-Found bytes (memchr 10 bytes) (memchr-FoundByte 10 bytes))
eol_bounds-Found other bytes small = returns tt
