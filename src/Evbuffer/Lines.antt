-- ===== src/Evbuffer/Lines.antt =====
-- `evbuffer_readline`, `evbuffer_readln` and `evbuffer_find` of buffer.c. Pointers into the data are
-- offsets from its start, and the counters `i`, `n_to_copy` and `n_to_drain` are `unsigned int`s.
-- `malloc` says for which sizes the C library has memory.
pub mod Scan
pub mod Readline
pub mod Eol
pub mod Readln
pub mod Find
use study_libevent.Prelude.{
  ℕ, zero, suc, ◌+◌, ◌-◌, ◌%◌, ◌^◌, List, [], ◌∷◌, Bool, true, false, ◌&&◌, ◌||◌, not, Option, none,
  some, ltb, leb, ◌==◌, if◌then◌else◌, length, get_or, take, drop, Run, done, stuck, ◌>>=◌,
  position,
}
use study_libevent.Prelude.Memory.{window}
use study_libevent.Evbuffer.{Evbuffer, contents, sub_size, drain}

-- `unsigned int` addition
abbrev pub add_uint : ℕ → ℕ → ℕ
add_uint a b = (a + b) % 2 ^ 32

-- `c == '\r' || c == '\n'`
unfoldable pub is_eol : ℕ → Bool
is_eol c = c == 13 || c == 10

-- `for (; i < len; i++) if (stop(data[i])) break;`
unfoldable pub scan : (ℕ → Bool) → ℕ → List ℕ → ℕ → Run ℕ
scan stop zero bytes i = stuck
scan stop (suc fuel) bytes i =
    let on = scan stop fuel bytes (add_uint i 1) in
    if ltb i (length bytes) then (if stop (get_or bytes i 0) then done i else on) else done i

-- `memchr` from the start of the bytes
unfoldable pub memchr : ℕ → List ℕ → Option ℕ
memchr c bytes = let k = position (λ x. x == c) bytes in if k == length bytes then none else some k

-- The test for a second byte of the line's end
unfoldable pub pair_eol : List ℕ → ℕ → Bool
unfolding is_eol
pair_eol bytes i =
    ltb i (sub_size (length bytes) 1)
    && is_eol (get_or bytes (i + 1) 0)
    && not (get_or bytes (i + 1) 0 == get_or bytes i 0)

-- `evbuffer_readline` behind its first loop
unfoldable pub readline_at : (ℕ → Bool) → Evbuffer → ℕ → Option (List ℕ) × Evbuffer
unfolding pair_eol
readline_at malloc b i =
    let bytes = contents b in
    if i == b.off
    then (none, b)
    else if not (malloc (add_uint i 1))
    then (none, b)
    else (some (take i bytes), drain b (add_uint (if pair_eol bytes i then add_uint i 1 else i) 1))

unfoldable pub readline : (ℕ → Bool) → Evbuffer → Run (Option (List ℕ) × Evbuffer)
unfolding scan readline_at
readline malloc b = scan is_eol (b.off + 1) (contents b) 0 >>= λ i. done (readline_at malloc b i)

-- `enum evbuffer_eol_style`; `other` is any other value of the parameter.
pub data EolStyle : Type 0 where
  any crlf crlf_strict lf other : EolStyle

-- The case EVBUFFER_EOL_ANY
unfoldable pub any_bounds : List ℕ → Run (Option (ℕ × ℕ))
any_bounds bytes = scan is_eol (length bytes + 1) bytes 0 >>= λ i.
    if i == length bytes
    then done none
    else (scan (λ c. not (is_eol c)) (length bytes + 1) bytes (add_uint i 1) >>= λ j.
        done (some (i, j)))

-- The case EVBUFFER_EOL_CRLF, from the offset of the LF
unfoldable pub crlf_bounds : List ℕ → Option ℕ → Option (ℕ × ℕ)
crlf_bounds bytes none = none
crlf_bounds bytes (some k) =
    if ltb 0 k && get_or bytes (k - 1) 0 == 13 then some (k - 1, k + 1) else some (k, k + 1)

-- `start_of_eol` with `end_of_eol` a number of bytes behind it
unfoldable pub eol_of_width : ℕ → Option ℕ → Option (ℕ × ℕ)
eol_of_width n none = none
eol_of_width n (some s) = some (s, s + n)

-- The loop of the case EVBUFFER_EOL_CRLF_STRICT, from offset `cp`
unfoldable pub strict_loop : ℕ → List ℕ → ℕ → Run (Option ℕ)
strict_loop zero bytes cp = stuck
strict_loop (suc fuel) bytes cp = elim (memchr 13 (drop cp bytes)) [
  | none ↦ done none
  | some k ↦
      let on = strict_loop fuel bytes (cp + k + 1) in
      if ltb (cp + k) (length bytes - 1) && get_or bytes (cp + k + 1) 0 == 10
      then done (some (cp + k))
      else if leb (length bytes) (cp + k + 1)
      then done none
      else on
]

-- `start_of_eol` and `end_of_eol`
unfoldable pub eol_bounds : EolStyle → List ℕ → Run (Option (ℕ × ℕ))
eol_bounds any bytes = any_bounds bytes
eol_bounds crlf bytes = done (crlf_bounds bytes (memchr 10 bytes))
eol_bounds crlf_strict bytes =
    strict_loop (length bytes + 1) bytes 0 >>= λ cp. done (eol_of_width 2 cp)
eol_bounds lf bytes = done (eol_of_width 1 (memchr 10 bytes))
eol_bounds other bytes = done none

-- `evbuffer_readln` behind its `switch`: the line, `*n_read_out` and the buffer
unfoldable pub readln_at : (ℕ → Bool) → Evbuffer → Option (ℕ × ℕ) → Option (List ℕ) × ℕ × Evbuffer
readln_at malloc b none = (none, 0, b)
readln_at malloc b (some (start, end)) =
    let n_to_copy = start % 2 ^ 32 in
    let n_to_drain = end % 2 ^ 32 in
    if malloc (add_uint n_to_copy 1)
    then (some (take n_to_copy (contents b)), n_to_copy, drain b n_to_drain)
    else (none, 0, b)

unfoldable pub readln : (ℕ → Bool) → Evbuffer → EolStyle → Run (Option (List ℕ) × ℕ × Evbuffer)
readln malloc b eol_style = eol_bounds eol_style (contents b) >>= λ r. done (readln_at malloc b r)

-- `memcmp(p, what, len) == 0`
unfoldable pub memcmp_eq : List ℕ → List ℕ → Bool
memcmp_eq [] [] = true
memcmp_eq (x ∷ xs) (y ∷ ys) = (x == y) && memcmp_eq xs ys
memcmp_eq _ _ = false

-- The loop of `evbuffer_find` for `what` with first byte `c`, from offset `search`
unfoldable pub find_loop : ℕ → ℕ → List ℕ → List ℕ → ℕ → Run (Option ℕ)
find_loop zero c what bytes search = stuck
find_loop (suc fuel) c what bytes search = elim (memchr c (drop search bytes)) [
  | none ↦ done none
  | some k ↦
      let p = search + k in
      let on = find_loop fuel c what bytes (p + 1) in
      if ltb (length bytes) (p + length what)
      then done none
      else if memcmp_eq (window p (length what) bytes) what
      then done (some p)
      else on
]

-- `evbuffer_find`, which reads the first byte of `what`: the offset of the result
unfoldable pub find : Evbuffer → List ℕ → Run (Option ℕ)
unfolding find_loop
find b what = find_loop (b.off + 1) (get_or what 0 0) what (contents b) 0
