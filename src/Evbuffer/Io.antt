-- ===== src/Evbuffer/Io.antt =====
-- `evbuffer_add_vprintf`, `evbuffer_read` and `evbuffer_write` of buffer.c.
--
-- The C library is an argument: `text` is the whole formatted output (none if vsnprintf fails
-- for another reason than a length that its int does not hold),
-- `avail` what FIONREAD reports (0 if the ioctl fails or reports nothing), `read` and `write` answer
-- the system calls (none for -1). `realloc k` answers the k-th call of `evbuffer_expand`. A negative
-- `howmuch` is none, and results below 0 are none.
pub mod Printf
pub mod Descriptor
use study_libevent.Prelude.{
  ℕ, zero, suc, ◌+◌, ◌-◌, ◌*◌, ◌%◌, ◌^◌, List, [], ◌∷◌, ◌++◌, Bool, true, false, ◌&&◌, ◌||◌, Option,
  none, some, ltb, leb, ◌==◌, if◌then◌else◌, length, take, Run, done, aborted, stuck, ◌>>=◌, Status,
  ok, fail, undefined,
}
use study_libevent.Prelude.Memory.{write}
use study_libevent.Evbuffer.{
  Evbuffer, Realloc, contents, add_size, sub_size, expand, notify, notify_change, store, drain,
}

-- `evutil_vsnprintf(buf->buffer + buf->off, space, …)`: what fits, a NUL, and a NUL in the last byte.
unfoldable pub format_into : Evbuffer → ℕ → List ℕ → Evbuffer
format_into b space text =
    let at = b.buffer + b.off in
    let printed = write at (take (space - 1) text ++ 0 ∷ []) b.memory in
    record b { memory = write (at + (space - 1)) (0 ∷ []) printed }

-- `if (evbuffer_expand(…) == -1) return (-1);`, and what follows
unfoldable pub or_error :
    (Evbuffer → Run (Option ℕ × Evbuffer)) → Status × Evbuffer → Run (Option ℕ × Evbuffer)
or_error go_on (ok, b) = go_on b
or_error go_on (fail, b) = done (none, b)

abbrev pub int_max : ℕ
int_max = 2 ^ 31 - 1

-- `evbuffer_expand(buf, sz + 1)`, where `sz` is an int
unfoldable pub expand_for : Realloc → Evbuffer → ℕ → Run (Status × Evbuffer)
expand_for realloc b sz =
    let expanded = expand realloc b (sz + 1) in if sz == int_max then undefined else expanded

-- The `for (;;)` of `evbuffer_add_vprintf`, in round `k`; vsnprintf returns a negative number where
-- the length of the output is above INT_MAX.
unfoldable pub printf_loop :
    ℕ → ℕ → (ℕ → Realloc) → List ℕ → ℕ → Evbuffer → Run (Option ℕ × Evbuffer)
printf_loop zero k realloc text oldoff b = stuck
printf_loop (suc fuel) k realloc text oldoff b =
    let used = add_size b.misalign b.off in
    let space = sub_size b.totallen used in
    let b' = format_into b space text in
    let sz = length text in
    let again : Run (Option ℕ × Evbuffer) =
      expand_for (realloc k) b' sz >>= or_error (printf_loop fuel (suc k) realloc text oldoff) in
    if ltb b.totallen used
    then aborted
    else if ltb int_max sz
    then done (none, b')
    else if ltb sz space
    then (let b'' = record b' { off = add_size b.off sz } in
        done (some sz, notify b'' oldoff b''.off))
    else again

-- A failing vsnprintf leaves the loop in its first round.
unfoldable pub printf_text :
    (ℕ → Realloc) → Option (List ℕ) → ℕ → Evbuffer → Run (Option ℕ × Evbuffer)
unfolding printf_loop expand_for
printf_text realloc none oldoff b = done (none, b)
printf_text realloc (some text) oldoff b = printf_loop 2 1 realloc text oldoff b

unfoldable pub add_vprintf : (ℕ → Realloc) → Option (List ℕ) → Evbuffer → Run (Option ℕ × Evbuffer)
add_vprintf realloc text b = expand (realloc 0) b 64 >>= or_error (printf_text realloc text b.off)

abbrev pub max_read : ℕ
max_read = 4096

-- `n > howmuch` and `howmuch < 0 || howmuch > n`
abbrev exceeds : ℕ → Option ℕ → Bool
exceeds n none = true
exceeds n (some h) = ltb h n

abbrev at_most : ℕ → Option ℕ → ℕ
at_most n none = n
at_most n (some h) = if ltb n h then n else h

-- `howmuch` as passed to read(2).
unfoldable pub read_size : ℕ → Option ℕ → ℕ → ℕ
read_size avail howmuch totallen =
    let room = totallen * 4 % 2 ^ 64 in
    let capped = if ltb room avail then room else avail in
    let n =
      if avail == 0
      then max_read
      else if ltb max_read avail && exceeds avail howmuch
      then (if ltb capped max_read then max_read else capped)
      else avail in
    at_most n howmuch

-- `evbuffer_read` behind read(2)
unfoldable pub took : Evbuffer → Option (List ℕ) → Option ℕ × Evbuffer
took b none = (none, b)
took b (some bytes) =
    if length bytes == 0
    then (some 0, b)
    else (some (length bytes), notify_change (store b bytes) b.off)

unfoldable pub read_expanded :
    (ℕ → Option (List ℕ)) → ℕ → Status × Evbuffer → Run (Option ℕ × Evbuffer)
read_expanded read n (ok, b) = done (took b (read n))
read_expanded read n (fail, b) = done (none, b)

unfoldable pub read_fd :
    Realloc → ℕ → (ℕ → Option (List ℕ)) → Evbuffer → Option ℕ → Run (Option ℕ × Evbuffer)
read_fd realloc avail read b howmuch =
    let n = read_size avail howmuch b.totallen in expand realloc b n >>= read_expanded read n

-- `evbuffer_write` behind write(2)
unfoldable pub wrote : Evbuffer → Option ℕ → Option ℕ × Evbuffer
wrote b none = (none, b)
wrote b (some n) = if n == 0 then (some 0, b) else (some n, drain b n)

unfoldable pub write_fd : (List ℕ → Option ℕ) → Evbuffer → Option ℕ × Evbuffer
write_fd answer b = wrote b (answer (contents b))
