-- ===== src/Tagging/Integers.antt =====
-- `encode_int` against `decode_int_internal`.
use study_libevent.Prelude.{
  ℕ, zero, suc, ◌+◌, ◌-◌, ◌*◌, ◌/◌, ◌%◌, ◌^◌, ◌≤◌, ◌<◌, ◌≡◌, refl, ap, ◌∙◌, sym, List, [], ◌∷◌,
  ◌++◌, false, some, ltb, ◌==◌, if◌then◌else◌, length, length-take, length-append, get_or,
  get_or-take, get_or-append, take, replicate, Ensures, Ensures-bind, returns, arith, bit_and,
  bit_or, All,
}
use native.Mathlib.Nat.{pow-suc, pow-le-pow_right}
use study_libevent.Prelude.Disjoint.{or_below}
use study_libevent.Tagging.{
  put_nibble, get_nibble, finish_int, int_bytes, int_loop, int_of, int_length,
}
use study_libevent.Tagging.Nibbles.{
  IsByte, Written, nibble_loop-Written, nibbles_value, nibbles_value_snoc, nibbles_value_cong,
  get_nibble-lt, get-put_nibble, put_nibble-IsByte, length-put_nibble,
}

-- The bytes that stand for a number: its nibbles, behind their number less one.
pub record Encoded (number : ℕ) (bytes : List ℕ) : Type 0 where
  pub nibbles : ℕ
  pub at_least : 1 ≤ nibbles
  pub at_most : nibbles ≤ 8
  pub size : length bytes ≡ nibbles / 2 + 1
  pub are_bytes : All IsByte bytes
  pub header : get_nibble bytes 0 + 1 ≡ nibbles
  pub value : nibbles_value bytes 1 nibbles ≡ number

take-IsByte : (n : ℕ) (bytes : List ℕ) → All IsByte bytes → All IsByte (take n bytes)
take-IsByte zero bytes h = tt
take-IsByte (suc n) [] h = tt
take-IsByte (suc n) (b ∷ bytes) h = (h.0, take-IsByte n bytes h.1)

-- A nibble depends on its byte alone.
get_nibble_cong :
    (xs ys : List ℕ) (i : ℕ)
    → get_or xs (i / 2) 0 ≡ get_or ys (i / 2) 0
    → get_nibble xs i ≡ get_nibble ys i
unfolding get_nibble
get_nibble_cong xs ys i h = rw h

-- At least one nibble is sent.
at_least_one : ℕ → ℕ
at_least_one zero = 1
at_least_one (suc k) = suc k

at_least_one-bounds :
    (k : ℕ)
    → k ≤ 8
    → (1 ≤ at_least_one k)
      × (at_least_one k ≤ 8)
      × (at_least_one k / 2 ≡ k / 2)
      × ((if ltb 2 (1 + k) then 1 + k - 2 else 0) + 1 ≡ at_least_one k)
unfolding at_least_one
at_least_one-bounds zero h = (omega arith, omega arith, refl, refl)
at_least_one-bounds (suc k) h = (omega arith, omega arith, refl, ground arith)

zero_nibble : get_nibble (replicate 5 0) 1 ≡ 0
unfolding get_nibble
zero_nibble = refl

module _ (number header : ℕ) (r : ℕ × List ℕ) (w : Written 1 number (replicate 5 0) 8 r) where
  headed : List ℕ
  headed = put_nibble r.1 0 (header % 16)

  get_nibble-headed :
      (j : ℕ) → get_nibble headed j ≡ (if 0 == j then header % 16 else get_nibble r.1 j)
  unfolding headed
  get_nibble-headed j =
      get-put_nibble r.1 0 (header % 16) j w.are_bytes (omega arith) (omega (arith, w.size))

  value-headed : (k : ℕ) → w.count ≡ k → nibbles_value headed 1 (at_least_one k) ≡ number
  unfolding at_least_one
  value-headed zero e =
      let none_left : 0 ≡ number = ap (nibbles_value r.1 1) (sym e) ∙ w.value in
      omega (arith, get_nibble-headed 1, w.above 1 (omega (arith, e)), zero_nibble)
  value-headed (suc k) e =
      nibbles_value_cong headed r.1 1 (suc k) (λ j p q. ground (arith, get_nibble-headed j))
      ∙ ap (nibbles_value r.1 1) (sym e)
      ∙ w.value

  length-headed : length headed ≡ 5
  unfolding headed
  length-headed = length-put_nibble r.1 0 (header % 16) ∙ w.size

  headed-IsByte : All IsByte headed
  unfolding headed
  headed-IsByte = put_nibble-IsByte r.1 0 (header % 16) w.are_bytes (omega arith)

  -- What is sent of the array.
  cut-Encoded :
      (n : ℕ)
      → n ≡ at_least_one w.count / 2 + 1
      → header + 1 ≡ at_least_one w.count
      → Encoded number (take n headed)
  cut-Encoded n e g =
      let (lo, hi, half, head) = at_least_one-bounds w.count w.short in
      let same = λ (j : ℕ) (p : j / 2 < n).
        get_nibble_cong (take n headed) headed j (get_or-take n (j / 2) headed 0 p) in
      record {
        nibbles = at_least_one w.count;
        at_least = lo;
        at_most = hi;
        size = omega (arith, length-take n headed, length-headed);
        are_bytes = take-IsByte n headed headed-IsByte;
        header = omega (arith, same 0 (omega arith), get_nibble-headed 0);
        value =
            nibbles_value_cong (take n headed) headed 1 (at_least_one w.count)
              (λ j p q. same j (omega arith))
            ∙ value-headed w.count refl;
      }

finish_int-Encoded :
    (number off : ℕ) (bytes : List ℕ)
    → Written 1 number (replicate 5 0) 8 (off, bytes)
    → Encoded number (finish_int (off, bytes))
unfolding finish_int headed
finish_int-Encoded number off bytes w =
    let (lo, hi, half, head) = at_least_one-bounds w.count w.short in
    let nibbles = if ltb 2 off then off - 2 else 0 in
    cut-Encoded number nibbles (off, bytes) w ((off + 1) / 2) (omega (arith, w.ends, half))
      (ap (λ i. (if ltb 2 i then i - 2 else 0) + 1) w.ends ∙ head)

-- For a number below 2 ^ 32, `encode_int` ends within its array of five bytes; the bytes written
-- hold the number of nibbles less one in their first nibble, then the nibbles of the number, the
-- lowest first, at most eight.
pub int_bytes-Encoded : (number : ℕ) → number < 2 ^ 32 → Ensures (Encoded number) (int_bytes number)
unfolding int_bytes
int_bytes-Encoded number h =
    Ensures-bind (nibble_loop-Written 8 1 number (replicate 5 0) h (omega arith) refl (omega arith))
      λ r w. returns (finish_int-Encoded number r.0 r.1 w)

-- The loop of `decode_int_internal` does not overflow on `m` nibbles behind `j` others.
int_loop-value :
    (bytes : List ℕ) (m j number : ℕ)
    → All IsByte bytes
    → j + m ≤ 8
    → number < 16 ^ j
    → int_loop bytes m number ≡ number * 16 ^ m + nibbles_value bytes 1 m
unfolding int_loop
int_loop-value bytes zero j number h g small = omega arith
int_loop-value bytes (suc m) j number h g small =
    let d = get_nibble bytes (suc m) in
    let d_small = get_nibble-lt bytes (suc m) h in
    let wide : 16 ^ j ≤ 2 ^ 28 =
      pow-le-pow_right {n = 16} (omega arith) {i = j} {j = 7} (omega arith) in
    let fits : number * 16 % 2 ^ 32 ≡ number * 16 = omega arith in
    let joined : bit_or (number * 16 % 2 ^ 32) d ≡ number * 16 + d =
      rw fits (or_below 4 d number d_small) in
    let at : 1 + m ≡ suc m = omega arith in
    let ih =
      int_loop-value bytes m (suc j) (number * 16 + d) h (omega arith)
        (omega (arith, pow-suc 16 j)) in
    rw joined (
      omega (
        arith,
        ih,
        nibbles_value_snoc bytes 1 m,
        ap (λ i. 16 ^ m * get_nibble bytes i) at,
        ap (λ t. number * t) (pow-suc 16 m),
      ))

int_loop_cong :
    (xs ys : List ℕ) (m number : ℕ)
    → ((j : ℕ) → j ≤ m → get_nibble xs j ≡ get_nibble ys j)
    → int_loop xs m number ≡ int_loop ys m number
unfolding int_loop
int_loop_cong xs ys zero number h = refl
int_loop_cong xs ys (suc m) number h =
    rw (h (suc m) (omega arith)) (int_loop_cong xs ys m _ (λ j p. h j (omega arith)))

-- Where an encoded number stands in front of any bytes, fewer than 2 ^ 31 altogether,
-- `decode_int_internal` reads the number and the length of its encoding.
pub int_of-Encoded :
    (number : ℕ) (bytes rest : List ℕ)
    → Encoded number bytes
    → length (bytes ++ rest) < 2 ^ 31
    → int_of (bytes ++ rest) ≡ some (number, length bytes)
unfolding int_of int_length get_nibble
int_of-Encoded number bytes rest e small =
    let all = bytes ++ rest in
    let whole = length-append bytes rest in
    let same = λ (j : ℕ) (p : j / 2 < length bytes).
      get_nibble_cong all bytes j (get_or-append bytes rest (j / 2) 0 p) in
    let head : bit_and (get_or all 0 0) 0xf0 / 16 + 1 ≡ e.nibbles =
      omega (arith, same 0 (omega (arith, e.size)), e.header) in
    let long : ltb 8 e.nibbles ≡ false = ground (arith, e.at_most) in
    let len : int_length (length all) ≡ length all = ground arith in
    let cut : ltb (length all) (e.nibbles / 2 + 1) ≡ false = ground (arith, e.size, whole) in
    let nonempty : (length all == 0) ≡ false = ground (arith, e.size, whole) in
    let value : int_loop all e.nibbles 0 ≡ number =
      int_loop_cong all bytes e.nibbles 0 (λ j p. same j (omega (arith, e.size)))
      ∙ int_loop-value bytes e.nibbles 0 0 e.are_bytes (omega (arith, e.at_most)) (omega arith)
      ∙ omega (arith, e.value) in
    rw (len, head, nonempty, long, cut, value, e.size) refl
