-- ===== src/Tagging/Nibbles.antt =====
-- About the nibbles that `encode_int` writes and `decode_int_internal` reads.
use study_libevent.Prelude.{
  ℕ, zero, suc, ◌+◌, ◌*◌, ◌/◌, ◌%◌, ◌^◌, ◌≤◌, ◌<◌, ◌≡◌, refl, ap, ◌∙◌, sym, List, [], ◌∷◌, ◌==◌,
  if◌then◌else◌, length, length-set, get_or, get_or-set, set, Ensures, Ensures-if, Ensures-map,
  ==_iff, returns, arith, bit_and, bit_or, All,
}
use native.Mathlib.Nat.{pow-suc}
use study_libevent.Prelude.Bits.{and_0f, and_f0, or_low_half, or_high_half}
use study_libevent.Tagging.{put_nibble, get_nibble, nibble_loop}

abbrev pub IsByte : ℕ → Type 0
IsByte b = b < 256

pub get_or-IsByte : (bytes : List ℕ) (i : ℕ) → All IsByte bytes → get_or bytes i 0 < 256
get_or-IsByte [] i h = omega arith
get_or-IsByte (b ∷ bytes) zero h = h.0
get_or-IsByte (b ∷ bytes) (suc i) h = get_or-IsByte bytes i h.1

set-IsByte : (bytes : List ℕ) (i v : ℕ) → All IsByte bytes → v < 256 → All IsByte (set bytes i v)
set-IsByte [] i v h g = h
set-IsByte (b ∷ bytes) zero v h g = (g, h.1)
set-IsByte (b ∷ bytes) (suc i) v h g = (h.0, set-IsByte bytes i v h.1 g)

-- A byte with one half replaced.
low_half : (b d : ℕ) → b < 256 → d < 16 → bit_or (bit_and b 0xf0) d ≡ b / 16 * 16 + d
low_half b d h g =
    let k = b / 16 * 16 + d in
    let up : k / 16 * 16 ≡ b / 16 * 16 = omega arith in
    let down : k % 16 ≡ d = omega arith in
    rw (and_f0 b h) (rw (up, down) at (or_low_half k (omega arith)))

high_half : (b d : ℕ) → b < 256 → d < 16 → bit_or (bit_and b 0x0f) (d * 16) ≡ d * 16 + b % 16
high_half b d h g =
    let k = d * 16 + b % 16 in
    let up : k / 16 * 16 ≡ d * 16 = omega arith in
    let down : k % 16 ≡ b % 16 = omega arith in
    rw (and_0f b h) (rw (up, down) at (or_high_half k (omega arith)))

-- Nibbles as arithmetic.
pub get_nibble_lem :
    (bytes : List ℕ) (i : ℕ)
    → All IsByte bytes
    → get_nibble bytes i
      ≡ (if i % 2 == 1 then get_or bytes (i / 2) 0 % 16 else get_or bytes (i / 2) 0 / 16)
unfolding get_nibble
get_nibble_lem bytes i h =
    let b = get_or bytes (i / 2) 0 in
    let small = get_or-IsByte bytes (i / 2) h in ground (arith, and_0f b small, and_f0 b small)

put_nibble_lem :
    (bytes : List ℕ) (i d : ℕ)
    → All IsByte bytes
    → d < 16
    → put_nibble bytes i d
      ≡ set bytes (i / 2) (
          if i % 2 == 1
          then get_or bytes (i / 2) 0 / 16 * 16 + d
          else d * 16 + get_or bytes (i / 2) 0 % 16)
unfolding put_nibble
put_nibble_lem bytes i d h g =
    let b = get_or bytes (i / 2) 0 in
    let small = get_or-IsByte bytes (i / 2) h in
    ground (arith, low_half b d small g, high_half b d small g)

pub put_nibble-IsByte :
    (bytes : List ℕ) (i d : ℕ) → All IsByte bytes → d < 16 → All IsByte (put_nibble bytes i d)
put_nibble-IsByte bytes i d h g =
    rw (put_nibble_lem bytes i d h g)
      (set-IsByte bytes (i / 2) _ h (ground (arith, get_or-IsByte bytes (i / 2) h)))

pub length-put_nibble : (bytes : List ℕ) (i d : ℕ) → length (put_nibble bytes i d) ≡ length bytes
unfolding put_nibble
length-put_nibble bytes i d = length-set bytes (i / 2) _

-- Writing one nibble leaves the others.
pub get-put_nibble :
    (bytes : List ℕ) (i d j : ℕ)
    → All IsByte bytes
    → d < 16
    → i / 2 < length bytes
    → get_nibble (put_nibble bytes i d) j ≡ (if i == j then d else get_nibble bytes j)
get-put_nibble bytes i d j h g inside =
    rw
      (
        get_nibble_lem (put_nibble bytes i d) j (put_nibble-IsByte bytes i d h g),
        get_nibble_lem bytes j h,
        put_nibble_lem bytes i d h g,
        get_or-set bytes (i / 2) (j / 2) _ 0 inside,
      )
      (ground (arith, get_or-IsByte bytes (i / 2) h))

-- The number that the `k` nibbles from nibble `i` on stand for, the lowest first.
abbrev pub nibbles_value : List ℕ → ℕ → ℕ → ℕ
nibbles_value bytes i zero = 0
nibbles_value bytes i (suc k) = get_nibble bytes i + 16 * nibbles_value bytes (suc i) k

pub get_nibble-lt : (bytes : List ℕ) (i : ℕ) → All IsByte bytes → get_nibble bytes i < 16
get_nibble-lt bytes i h =
    rw (get_nibble_lem bytes i h) (ground (arith, get_or-IsByte bytes (i / 2) h))

pub nibbles_value_snoc :
    (bytes : List ℕ) (i k : ℕ)
    → nibbles_value bytes i (suc k) ≡ nibbles_value bytes i k + 16 ^ k * get_nibble bytes (i + k)
nibbles_value_snoc bytes i zero = let same : i + 0 ≡ i = omega arith in rw same (omega arith)
nibbles_value_snoc bytes i (suc k) =
    let shift : i + suc k ≡ suc i + k = omega arith in
    rw shift (
      omega (
        arith,
        nibbles_value_snoc bytes (suc i) k,
        ap (λ t. t * get_nibble bytes (suc i + k)) (pow-suc 16 k),
      ))

-- Equal nibbles stand for equal numbers.
pub nibbles_value_cong :
    (xs ys : List ℕ) (i k : ℕ)
    → ((j : ℕ) → i ≤ j → j < i + k → get_nibble xs j ≡ get_nibble ys j)
    → nibbles_value xs i k ≡ nibbles_value ys i k
nibbles_value_cong xs ys i zero h = refl
nibbles_value_cong xs ys i (suc k) h = omega (
  arith,
  h i (omega arith) (omega arith),
  nibbles_value_cong xs ys (suc i) k (λ j p q. h j (omega arith) (omega arith)),
)

-- What the loop of `encode_int` leaves, started at nibble `off` with `number`.
pub record Written (off number : ℕ) (bytes : List ℕ) (fuel : ℕ) (r : ℕ × List ℕ) : Type 0 where
  pub count : ℕ
  pub ends : r.0 ≡ off + count
  pub short : count ≤ fuel
  pub size : length r.1 ≡ 5
  pub are_bytes : All IsByte r.1
  pub value : nibbles_value r.1 off count ≡ number
  pub below : (j : ℕ) → j < off → get_nibble r.1 j ≡ get_nibble bytes j
  pub above : (j : ℕ) → off + count ≤ j → get_nibble r.1 j ≡ get_nibble bytes j

Written-none :
    (off fuel : ℕ) (bytes : List ℕ)
    → length bytes ≡ 5
    → All IsByte bytes
    → Written off 0 bytes fuel (off, bytes)
Written-none off fuel bytes size are_bytes = record {
  count = 0;
  ends = omega arith;
  short = omega arith;
  size = size;
  are_bytes = are_bytes;
  value = refl;
  below = λ j p. refl;
  above = λ j p. refl;
}

pub nibble_loop-Written :
    (fuel off number : ℕ) (bytes : List ℕ)
    → number < 16 ^ fuel
    → off + fuel ≤ 9
    → length bytes ≡ 5
    → All IsByte bytes
    → Ensures (Written off number bytes fuel) (nibble_loop (suc fuel) off number bytes)
unfolding nibble_loop
nibble_loop-Written zero off number bytes h g size are_bytes =
    let none_left : number ≡ 0 = omega arith in
    rw none_left (returns (Written-none off 0 bytes size are_bytes))
nibble_loop-Written (suc fuel) off number bytes h g size are_bytes =
    Ensures-if (number == 0)
      (λ z. rw ((==_iff number 0).0 z) (returns (Written-none off (suc fuel) bytes size are_bytes)))
      λ _.
        let d : number % 16 < 16 = omega arith in
        let inside : off / 2 < length bytes = omega arith in
        let put = put_nibble bytes off (number % 16) in
        let at = λ (j : ℕ). get-put_nibble bytes off (number % 16) j are_bytes d inside in
        Ensures-map
          (nibble_loop-Written fuel (off + 1) (number / 16) put (omega (arith, pow-suc 16 fuel))
            (omega arith) (length-put_nibble bytes off (number % 16) ∙ size)
            (put_nibble-IsByte bytes off (number % 16) are_bytes d))
          λ r w.
            let next : off + 1 ≡ suc off = omega arith in
            let here : get_nibble r.1 off ≡ number % 16 = ground (arith, w.below off, at off) in
            record {
              count = suc w.count;
              ends = omega (arith, w.ends);
              short = omega (arith, w.short);
              size = w.size;
              are_bytes = w.are_bytes;
              value =
                  omega (arith, here, ap (λ i. nibbles_value r.1 i w.count) (sym next), w.value);
              below = λ j p. ground (arith, w.below j, at j);
              above = λ j p. ground (arith, w.above j, at j);
            }
