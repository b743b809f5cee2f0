-- ===== src/Tagging.antt =====
-- event_tagging.c: integers by nibbles, tags by groups of seven bits, and how they are read back.
--
-- `x & 0x0f` and `x & 0x7f` of a word are `x % 16` and `x % 128`, `<< 4` and `>> 4` are `* 16` and
-- `/ 16`. `int len = EVBUFFER_LENGTH(evbuf)` is `int_length`; where the int is negative both readers
-- answer -1 as they do for 0.
pub mod Nibbles
pub mod Integers
pub mod Groups
pub mod Messages
mod Tests
use study_libevent.Prelude.{
  ℕ, zero, suc, ◌+◌, ◌-◌, ◌*◌, ◌/◌, ◌%◌, ◌^◌, List, [], ◌∷◌, ◌++◌, Bool, true, false, ◌&&◌, ◌||◌,
  Option, none, some, ltb, leb, ◌==◌, if◌then◌else◌, length, get_or, set, take, replicate, Run,
  done, undefined, stuck, ◌>>=◌, Status, ok, fail, bit_and, bit_or,
}
use study_libevent.Evbuffer.{Evbuffer, Realloc, contents, add, drain}

abbrev pub uint_mod : ℕ
uint_mod = 2 ^ 32

unfoldable pub int_length : ℕ → ℕ
int_length n = let w = n % 2 ^ 32 in if ltb w (2 ^ 31) then w else 0

-- Nibble `off` of the array: the low half of byte `off / 2` if `off` is odd, the high half if not.
unfoldable pub put_nibble : List ℕ → ℕ → ℕ → List ℕ
put_nibble bytes off d =
    let old = get_or bytes (off / 2) 0 in
    set bytes (off / 2)
      (if off % 2 == 1 then bit_or (bit_and old 0xf0) d else bit_or (bit_and old 0x0f) (d * 16))

unfoldable pub get_nibble : List ℕ → ℕ → ℕ
get_nibble bytes off =
    let old = get_or bytes (off / 2) 0 in
    if off % 2 == 1 then bit_and old 0x0f else bit_and old 0xf0 / 16

-- `while (number) { … off++; }` of `encode_int`, with the array
unfoldable pub nibble_loop : ℕ → ℕ → ℕ → List ℕ → Run (ℕ × List ℕ)
nibble_loop zero off number bytes = stuck
nibble_loop (suc fuel) off number bytes =
    let on = nibble_loop fuel (off + 1) (number / 16) (put_nibble bytes off (number % 16)) in
    if number == 0 then done (off, bytes) else on

-- The first byte's high half, and how much of the array is sent.
unfoldable pub finish_int : ℕ × List ℕ → List ℕ
unfolding put_nibble
finish_int (off, bytes) =
    let nibbles = if ltb 2 off then off - 2 else 0 in
    take ((off + 1) / 2) (put_nibble bytes 0 (nibbles % 16))

-- What `encode_int` hands to `evbuffer_add`.
unfoldable pub int_bytes : ℕ → Run (List ℕ)
unfolding nibble_loop finish_int
int_bytes number = nibble_loop 9 1 number (replicate 5 0) >>= λ r. done (finish_int r)

-- `encode_int`, which ignores the status of `evbuffer_add`
unfoldable pub encode_int : Realloc → Evbuffer → ℕ → Run Evbuffer
encode_int realloc evbuf number =
    int_bytes number >>= λ bytes. add realloc evbuf bytes >>= λ r. done r.1

-- The `do … while (tag)` of `evtag_encode_tag`
unfoldable pub group_loop : ℕ → ℕ → Run (List ℕ)
group_loop zero tag = stuck
group_loop (suc fuel) tag =
    let lower = tag % 128 in
    let on : Run (List ℕ) =
      group_loop fuel (tag / 128) >>= λ bytes. done (bit_or lower 0x80 ∷ bytes) in
    if tag / 128 == 0 then done (lower ∷ []) else on

unfoldable pub tag_bytes : ℕ → Run (List ℕ)
unfolding group_loop
tag_bytes tag = group_loop 5 tag

-- `evtag_encode_tag` on a buffer: the number of bytes, and the buffer
unfoldable pub encode_tag : Realloc → Evbuffer → ℕ → Run (ℕ × Evbuffer)
encode_tag realloc evbuf tag =
    tag_bytes tag >>= λ bytes. add realloc evbuf bytes >>= λ r. done (length bytes, r.1)

-- The loop of `decode_tag_internal` over the bytes left: the number and the count. A shift by 32 and
-- more is undefined; bits that the shift by 28 moves out of the int are lost, as compilers do it.
unfoldable pub tag_loop : List ℕ → ℕ → ℕ → ℕ → Run (Option (ℕ × ℕ))
tag_loop [] number shift count = done none
tag_loop (lower ∷ bytes) number shift count =
    let number' = bit_or number (bit_and lower 0x7f * 2 ^ shift % 2 ^ 32) in
    let on = tag_loop bytes number' (shift + 7) (count + 1) in
    if leb 32 shift
    then undefined
    else if bit_and lower 0x80 == 0
    then done (some (number', count + 1))
    else on

unfoldable pub tag_of : List ℕ → Run (Option (ℕ × ℕ))
unfolding tag_loop
tag_of bytes = tag_loop (take (int_length (length bytes)) bytes) 0 0 0

-- `if (dodrain) evbuffer_drain(evbuf, …);` where something was decoded
unfoldable pub drain_decoded : Evbuffer → Bool → Option (ℕ × ℕ) → Option (ℕ × ℕ) × Evbuffer
drain_decoded evbuf dodrain none = (none, evbuf)
drain_decoded evbuf dodrain (some (number, len)) =
    (some (number, len), (if dodrain then drain evbuf len else evbuf))

-- `decode_tag_internal`: `*ptag` and the count, or none for -1
unfoldable pub decode_tag_internal : Evbuffer → Bool → Run (Option (ℕ × ℕ) × Evbuffer)
decode_tag_internal evbuf dodrain =
    tag_of (contents evbuf) >>= λ r. done (drain_decoded evbuf dodrain r)

-- `while (nibbles > 0)` of `decode_int_internal`
unfoldable pub int_loop : List ℕ → ℕ → ℕ → ℕ
int_loop bytes zero number = number
int_loop bytes (suc nibbles) number =
    int_loop bytes nibbles (bit_or (number * 16 % 2 ^ 32) (get_nibble bytes (suc nibbles)))

-- `*pnumber` and `len` of `decode_int_internal`
unfoldable pub int_of : List ℕ → Option (ℕ × ℕ)
unfolding int_loop get_nibble
int_of bytes =
    let len = int_length (length bytes) in
    let nibbles = bit_and (get_or bytes 0 0) 0xf0 / 16 + 1 in
    if len == 0
    then none
    else if ltb 8 nibbles || ltb len (nibbles / 2 + 1)
    then none
    else some (int_loop bytes nibbles 0, nibbles / 2 + 1)

unfoldable pub decode_int_internal : Evbuffer → Bool → Option (ℕ × ℕ) × Evbuffer
decode_int_internal evbuf dodrain = drain_decoded evbuf dodrain (int_of (contents evbuf))
