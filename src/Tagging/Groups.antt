-- ===== src/Tagging/Groups.antt =====
-- `evtag_encode_tag` against `decode_tag_internal`.
use study_libevent.Prelude.{
  ℕ, zero, suc, ◌+◌, ◌*◌, ◌/◌, ◌%◌, ◌^◌, ◌≤◌, ◌<◌, ◌≡◌, refl, sym, subst, length-append, ap, ap₂,
  ◌∙◌, List, [], ◌∷◌, ◌++◌, true, false, leb, done, some, ◌==◌, ==_iff, length, take_all, Ensures,
  Ensures-if, Ensures-bind, returns, arith, bit_and, bit_or, All,
}
use native.Mathlib.Numerals.{towards_suc}
use native.Mathlib.Nat.{pow-suc}
use study_libevent.Prelude.Bits.{and_7f, and_80, or_80}
use study_libevent.Prelude.Disjoint.{or_above}
use study_libevent.Tagging.{group_loop, tag_bytes, tag_loop, tag_of, int_length}
use study_libevent.Tagging.Nibbles.{IsByte}

-- The bytes that stand for a tag: `decode_tag_internal` reads them back, whatever follows, on top of
-- the bits read so far, where no shift reaches 32. There are at most `most` of them.
pub record Grouped (most tag : ℕ) (bytes : List ℕ) : Type 0 where
  pub nonempty : 1 ≤ length bytes
  pub at_most : length bytes ≤ most
  pub are_bytes : All IsByte bytes
  pub reads :
      (rest : List ℕ) (number shift count : ℕ)
      → number < 2 ^ shift
      → number + tag * 2 ^ shift < 2 ^ 32
      → shift + 7 * length bytes ≤ 35
      → tag_loop (bytes ++ rest) number shift count
        ≡ done (some (number + tag * 2 ^ shift, count + length bytes))

pow_seven : (s : ℕ) → 2 ^ (s + 7) ≡ 128 * 2 ^ s
pow_seven s = simp towards_suc (omega arith)

-- One byte of `decode_tag_internal`.
joined :
    (number lower shift : ℕ)
    → number < 2 ^ shift
    → number + lower * 2 ^ shift < 2 ^ 32
    → bit_or number (lower * 2 ^ shift % 2 ^ 32) ≡ number + lower * 2 ^ shift
joined number lower shift h g =
    let fits : lower * 2 ^ shift % 2 ^ 32 ≡ lower * 2 ^ shift = omega arith in
    rw fits (or_above shift number lower h)

pub last-Grouped : (most tag : ℕ) → tag < 128 → Grouped (suc most) tag (tag ∷ [])
last-Grouped most tag h = record {
  at_most = omega arith;
  nonempty = omega arith;
  are_bytes = omega arith;
  reads = λ rest number shift count p q w.
      let defined : leb 32 shift ≡ false = ground arith in
      let low : bit_and tag 0x7f ≡ tag = omega (arith, and_7f tag) in
      let top : (bit_and tag 0x80 == 0) ≡ true = ground (arith, and_80 tag) in
      unfold tag_loop in rw (defined, low, top, joined number tag shift p q) refl;
}

-- The lowest group of seven bits and the rest, both shifted.
split_group : (tag s : ℕ) → tag * 2 ^ s ≡ tag % 128 * 2 ^ s + tag / 128 * 2 ^ (s + 7)
split_group tag s =
    let e : tag ≡ tag % 128 + tag / 128 * 128 = omega arith in
    omega (arith, ap (λ t. t * 2 ^ s) e, ap (λ t. tag / 128 * t) (pow_seven s))

lower_room : (lower p : ℕ) → lower < 128 → lower * p + p ≤ 128 * p
lower_room lower p h = grind arith

inner-Grouped :
    (most tag : ℕ) (bytes : List ℕ)
    → Grouped most (tag / 128) bytes
    → Grouped (suc most) tag (bit_or (tag % 128) 0x80 ∷ bytes)
inner-Grouped most tag bytes g =
    let lower = tag % 128 in
    let byte : bit_or lower 0x80 ≡ lower + 128 = or_80 lower (omega arith) in
    record {
      nonempty = omega arith;
      at_most = omega (arith, g.at_most);
      are_bytes = (omega (arith, byte), g.are_bytes);
      reads = λ rest number shift count p q w.
          let defined : leb 32 shift ≡ false = ground (arith, g.nonempty) in
          let low : bit_and (lower + 128) 0x7f ≡ lower = omega (arith, and_7f (lower + 128)) in
          let top : (bit_and (lower + 128) 0x80 == 0) ≡ false =
            ground (arith, and_80 (lower + 128)) in
          let split : tag * 2 ^ shift ≡ lower * 2 ^ shift + tag / 128 * 2 ^ (shift + 7) =
            split_group tag shift in
          let step = joined number lower shift p (omega (arith, split)) in
          unfold tag_loop in
          rw (defined, byte, low, top, step)
            (g.reads rest (number + lower * 2 ^ shift) (shift + 7) (count + 1)
                (omega (arith, pow_seven shift, lower_room (tag % 128) (2 ^ shift) (omega arith)))
                (omega (arith, split)) (omega arith)
              ∙ ap₂ (λ n k. done (some (n, k))) (omega (arith, split)) (omega arith));
    }

group_loop-Grouped :
    (fuel tag : ℕ)
    → tag < 128 ^ suc fuel
    → Ensures (Grouped (suc fuel) tag) (group_loop (suc fuel) tag)
unfolding group_loop
group_loop-Grouped zero tag h =
    let small : (tag / 128 == 0) ≡ true = ground arith in
    let same : tag % 128 ≡ tag = omega arith in rw (small, same) (returns (last-Grouped zero tag h))
group_loop-Grouped (suc fuel) tag h =
    Ensures-if (tag / 128 == 0)
      (λ e.
        let small : tag < 128 = omega (arith, (==_iff (tag / 128) 0).0 e) in
        let same : tag % 128 ≡ tag = omega arith in
        rw same (returns (last-Grouped (suc fuel) tag small)))
      λ _.
        Ensures-bind (group_loop-Grouped fuel (tag / 128) (omega (arith, pow-suc 128 (suc fuel))))
          λ bytes g. returns (inner-Grouped (suc fuel) tag bytes g)

-- For a tag below 2 ^ 32, `encode_tag` ends within its array of five bytes; what it writes is one
-- to five bytes, which the loop of `decode_tag_internal` reads as the tag, whatever follows them.
pub tag_bytes-Grouped : (tag : ℕ) → tag < 2 ^ 32 → Ensures (Grouped 5 tag) (tag_bytes tag)
unfolding tag_bytes
tag_bytes-Grouped tag h = group_loop-Grouped 4 tag (omega arith)

pub tag_of-Grouped :
    (tag : ℕ) (bytes rest : List ℕ)
    → Grouped 5 tag bytes
    → tag < 2 ^ 32
    → length (bytes ++ rest) < 2 ^ 31
    → tag_of (bytes ++ rest) ≡ done (some (tag, length bytes))
unfolding tag_of int_length
tag_of-Grouped tag bytes rest g small fits =
    let all = bytes ++ rest in
    let len : int_length (length all) ≡ length all = ground arith in
    rw (len, take_all (length all) all (omega arith))
      (g.reads rest 0 0 0 (omega arith) (omega arith) (omega (arith, g.at_most))
        ∙ ap₂ (λ n k. done (some (n, k))) (omega arith) (omega arith))

-- The number that groups of seven bits stand for, the lowest first.
abbrev pub group_value : List ℕ → ℕ
group_value [] = 0
group_value (byte ∷ bytes) = byte % 128 + 128 * group_value bytes

-- A byte that another one follows.
abbrev pub IsInner : ℕ → Type 0
IsInner byte = (128 ≤ byte) × (byte < 256)

groups-Grouped :
    (front : List ℕ) (last : ℕ)
    → All IsInner front
    → last < 128
    → Grouped (suc (length front)) (group_value (front ++ last ∷ [])) (front ++ last ∷ [])
groups-Grouped [] last h small =
    let same : last % 128 + 0 ≡ last = omega arith in rw same (last-Grouped 0 last small)
groups-Grouped (byte ∷ front) last (h, hs) small =
    let value = group_value (front ++ last ∷ []) in
    let tag = byte % 128 + 128 * value in
    let above : tag / 128 ≡ value = omega arith in
    let below : tag % 128 ≡ byte % 128 = omega arith in
    let whole : bit_or (byte % 128) 0x80 ≡ byte = omega (arith, or_80 (byte % 128) (omega arith)) in
    subst (λ b. Grouped (suc (length (byte ∷ front))) tag (b ∷ (front ++ last ∷ [])))
      (ap (λ l. bit_or l 0x80) below ∙ whole)
      (inner-Grouped (suc (length front)) tag (front ++ last ∷ []) (
        subst (λ n. Grouped (suc (length front)) n (front ++ last ∷ [])) (sym above)
          (groups-Grouped front last hs small)))

-- For at most four bytes with the high bit, a fifth without it, the number that the groups of seven
-- bits of these bytes stand for, lowest first, below 2 ^ 32, and any bytes behind them, fewer than
-- 2 ^ 31 altogether: `decode_tag_internal` reads that number and the number of these bytes.
pub tag_of-group_value :
    (front : List ℕ) (last : ℕ) (rest : List ℕ)
    → All IsInner front
    → length front ≤ 4
    → last < 128
    → group_value (front ++ last ∷ []) < 2 ^ 32
    → length ((front ++ last ∷ []) ++ rest) < 2 ^ 31
    → tag_of ((front ++ last ∷ []) ++ rest)
      ≡ done (some (group_value (front ++ last ∷ []), length front + 1))
tag_of-group_value front last rest inner few small value fits =
    let g = groups-Grouped front last inner small in
    tag_of-Grouped (group_value (front ++ last ∷ [])) (front ++ last ∷ []) rest
      (record {
        nonempty = g.nonempty;
        at_most = omega (arith, g.at_most);
        are_bytes = g.are_bytes;
        reads = g.reads;
      })
      value fits
    ∙ ap (λ n. done (some (group_value (front ++ last ∷ []), n))) (length-append front (last ∷ []))
