-- ===== src/Http.antt =====
-- http.c: the text layer of the HTTP library.
--
-- A C string is the list of its bytes before the NUL. `malloc`, `realloc` and `strdup` are arguments,
-- and answer anew at each call: an index counts the rounds of a loop.
pub mod Text
pub mod Lines
pub mod Output
pub mod Headers
pub mod Write
pub mod Chunks
pub mod Uri
pub mod FirstLine
mod Tests
use study_libevent.Prelude.{
  ℕ, zero, suc, ◌+◌, ◌-◌, ◌*◌, ◌/◌, ◌%◌, ◌^◌, List, [], ◌∷◌, ◌++◌, Bool, true, false, ◌&&◌, ◌||◌,
  not, Option, none, some, ltb, leb, ◌==◌, if◌then◌else◌, position, take,
}

-- `enum message_read_status`, the values that the readers return
pub data MessageRead : Type 0 where
  all_data_read more_data_expected data_corrupted : MessageRead

-- The C string at the start of a block of bytes that a NUL ends.
pub c_string : List ℕ → List ℕ
c_string bytes = take (position (λ c. c == 0) bytes) bytes

-- `isspace` of the C locale
pub is_space : ℕ → Bool
is_space c = (leb 9 c && leb c 13) || (c == 32)

-- `isxdigit`
pub is_xdigit : ℕ → Bool
is_xdigit c = (leb 48 c && leb c 57) || (leb 65 c && leb c 70) || (leb 97 c && leb c 102)

-- The value of a hexadecimal digit.
pub hex_value : ℕ → ℕ
hex_value c = if leb c 57 then c - 48 else if leb c 70 then c - 55 else c - 87

-- The digits at the front, behind the value `acc` of those before, and what follows them.
pub scan_hex : ℕ → List ℕ → ℕ × List ℕ
scan_hex acc [] = (acc, [])
scan_hex acc (c ∷ cs) =
    let rest = scan_hex (acc * 16 + hex_value c) cs in if is_xdigit c then rest else (acc, c ∷ cs)

pub skip_space : List ℕ → List ℕ
skip_space [] = []
skip_space (c ∷ cs) = let rest = skip_space cs in if is_space c then rest else c ∷ cs

-- The prefix `0x`, where a digit follows it.
pub skip_prefix : List ℕ → List ℕ
skip_prefix (z ∷ x ∷ d ∷ cs) =
    if (z == 48) && ((x == 120) || (x == 88)) && is_xdigit d then d ∷ cs else z ∷ x ∷ d ∷ cs
skip_prefix cs = cs

-- The sign: whether it is `-`, and what follows.
pub skip_sign : List ℕ → Bool × List ℕ
skip_sign [] = (false, [])
skip_sign (c ∷ cs) =
    if c == 45 then (true, cs) else if c == 43 then (false, cs) else (false, c ∷ cs)

-- Digits at the front, and none: what `strtoll` returns, none for a negative number, with `endp`.
pub signed_hex : List ℕ → Bool → List ℕ → Option ℕ × List ℕ
signed_hex start negative [] = (some 0, start)
signed_hex start negative (c ∷ cs) =
    let found = scan_hex 0 (skip_prefix (c ∷ cs)) in
    if not (is_xdigit c)
    then (some 0, start)
    else if found.0 == 0
    then (some 0, found.1)
    else if negative
    then (none, found.1)
    else ((some (if leb (2 ^ 63) found.0 then 2 ^ 63 - 1 else found.0)), found.1)

-- `evutil_strtoll(p, &endp, 16)`: none for a negative number, and the string at `endp`
pub strtoll : List ℕ → Option ℕ × List ℕ
strtoll p = let signed = skip_sign (skip_space p) in signed_hex p signed.0 signed.1

-- A digit of `%x` or, where `upper` holds, of `%X`
pub hex_digit : Bool → ℕ → ℕ
hex_digit upper d = if ltb d 10 then 48 + d else if upper then 55 + d else 87 + d

-- `%x` of a number below `16 ^ fuel`
pub print_hex : ℕ → ℕ → List ℕ
print_hex zero n = []
print_hex (suc fuel) n =
    let rest = print_hex fuel (n / 16) in
    if ltb n 16 then hex_digit false n ∷ [] else rest ++ (hex_digit false (n % 16) ∷ [])

-- `%02X` of a byte
pub print_byte : ℕ → List ℕ
print_byte c = hex_digit true (c / 16) ∷ hex_digit true (c % 16) ∷ []

-- `strsep(s, del)` of a string that is not NULL: the token, and `*s` if it is not NULL
pub strsep : ℕ → List ℕ → List ℕ × Option (List ℕ)
strsep del [] = ([], none)
strsep del (c ∷ cs) =
    let rest = strsep del cs in if c == del then ([], some cs) else (c ∷ rest.0, rest.1)
