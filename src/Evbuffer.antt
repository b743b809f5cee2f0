-- ===== src/Evbuffer.antt =====
-- buffer.c and `struct evbuffer` of event.h: the byte buffer.
--
-- `memory` is the block at `orig_buffer` ([] for NULL), `buffer` the distance of the pointer
-- `buffer` from it, and `size_t` has 64 bits. `realloc` is an argument of what allocates: for a
-- size it gives none (NULL) or the indeterminate bytes that the new block holds behind the old
-- ones. `cb` is a callback with its `cbarg`, by number; `calls` lists the calls made of it, as
-- (callback, old length, new length). What a callback does is not modelled.
pub mod Valid
pub mod Grow
pub mod Add
pub mod Transfer
pub mod Lines
pub mod Io
mod Tests
use study_libevent.Prelude.{
  ℕ, zero, suc, ◌+◌, ◌-◌, ◌*◌, ◌/◌, ◌%◌, ◌^◌, List, [], ◌∷◌, ◌++◌, Bool, true, false, ◌&&◌, not,
  Option, none, some, ltb, leb, ◌==◌, if◌then◌else◌, length, drop, take, Run, done, aborted, ◌>>=◌,
  Status, ok, fail,
}
use study_libevent.Prelude.Memory.{write, window, resize}

abbrev pub Call : Type 0
Call = ℕ × ℕ × ℕ

pub record Evbuffer : Type 0 where
  pub memory : List ℕ
  pub buffer : ℕ
  pub misalign : ℕ
  pub totallen : ℕ
  pub off : ℕ
  pub cb : Option ℕ
  pub calls : List Call

abbrev pub Realloc : Type 0
Realloc = ℕ → Option (ℕ → ℕ)

abbrev pub size_max : ℕ
size_max = 2 ^ 64 - 1

-- `size_t` addition and subtraction
abbrev pub add_size : ℕ → ℕ → ℕ
add_size a b = (a + b) % 2 ^ 64

abbrev pub sub_size : ℕ → ℕ → ℕ
sub_size a b = (a + 2 ^ 64 - b) % 2 ^ 64

-- The bytes that the buffer holds.
abbrev pub contents : Evbuffer → List ℕ
contents b = window b.buffer b.off b.memory

-- `evbuffer_new`, when calloc succeeds
unfoldable pub new : Evbuffer
new = record { memory = []; buffer = 0; misalign = 0; totallen = 0; off = 0; cb = none; calls = [] }

unfoldable pub setcb : Evbuffer → Option ℕ → Evbuffer
setcb b cb = record b { cb = cb }

-- `if (buf->cb != NULL) (*buf->cb)(buf, oldoff, newoff, buf->cbarg)`
unfoldable pub notify : Evbuffer → ℕ → ℕ → Evbuffer
notify b oldoff newoff = elim b.cb [
  | none ↦ b
  | some k ↦ record b { calls = b.calls ++ (k, oldoff, newoff) ∷ [] }
]

unfoldable pub align : Evbuffer → Evbuffer
align b = record b { memory = write 0 (contents b) b.memory; buffer = 0; misalign = 0 }

-- `while (length < need) length <<= 1;`
unfoldable pub grow_loop : ℕ → ℕ → ℕ → ℕ
grow_loop zero need length = length
grow_loop (suc fuel) need length =
    let again = grow_loop fuel need (length * 2 % 2 ^ 64) in
    if ltb length need then again else length

-- The size that `evbuffer_expand` asks for.
unfoldable pub grown_size : ℕ → ℕ → ℕ
grown_size totallen need =
    let length = if ltb totallen 256 then 256 else totallen in
    if ltb need (size_max / 2) then grow_loop 64 need length else need

-- `if (buf->orig_buffer != buf->buffer) evbuffer_align(buf);`
unfoldable pub fronted : Evbuffer → Evbuffer
fronted b = if b.buffer == 0 then b else align b

-- What `evbuffer_expand` does with the answer of `realloc` for `size` bytes.
unfoldable pub moved : Option (ℕ → ℕ) → ℕ → Evbuffer → Status × Evbuffer
moved none size b = (fail, b)
moved (some junk) size b =
    (ok, record b { memory = resize junk size b.memory; buffer = 0; totallen = size })

-- The `else` branch of `evbuffer_expand`.
unfoldable pub reallocate : Realloc → Evbuffer → ℕ → Status × Evbuffer
reallocate realloc b datlen =
    let size = grown_size b.totallen (add_size b.off datlen) in
    moved (realloc size) size (fronted b)

-- `evbuffer_expand`; a failed assert is `aborted`.
unfoldable pub expand : Realloc → Evbuffer → ℕ → Run (Status × Evbuffer)
expand realloc b datlen =
    let used = add_size b.misalign b.off in
    if ltb b.totallen used
    then aborted
    else if leb datlen (sub_size b.totallen used)
    then done (ok, b)
    else if ltb (sub_size size_max b.off) datlen
    then done (fail, b)
    else if leb datlen (sub_size b.totallen b.off)
    then done (ok, align b)
    else done (reallocate realloc b datlen)

-- `memcpy(buf->buffer + buf->off, data, datlen); buf->off += datlen;`
unfoldable pub store : Evbuffer → List ℕ → Evbuffer
store b bytes = record b {
  memory = write (b.buffer + b.off) bytes b.memory;
  off = add_size b.off (length bytes);
}

-- The part of `evbuffer_add` behind the check for room.
unfoldable pub append : Evbuffer → List ℕ → Evbuffer
append b bytes =
    let grown = store b bytes in if length bytes == 0 then grown else notify grown b.off grown.off

-- `evbuffer_add` behind its call of `evbuffer_expand`
unfoldable pub appended : List ℕ → Status × Evbuffer → Run (Status × Evbuffer)
appended bytes (ok, b) = done (ok, append b bytes)
appended bytes (fail, b) = done (fail, b)

unfoldable pub add : Realloc → Evbuffer → List ℕ → Run (Status × Evbuffer)
add realloc b bytes =
    let used = add_size b.misalign b.off in
    let expanded : Run (Status × Evbuffer) =
      if ltb (sub_size b.totallen used) (length bytes)
      then expand realloc b (length bytes)
      else done (ok, b) in
    expanded >>= appended bytes

-- `if (buf->off != oldoff && buf->cb != NULL) (*buf->cb)(buf, oldoff, buf->off, buf->cbarg)`
unfoldable pub notify_change : Evbuffer → ℕ → Evbuffer
notify_change b oldoff = if b.off == oldoff then b else notify b oldoff b.off

-- `evbuffer_drain` before its label `done`
unfoldable pub advance : Evbuffer → ℕ → Evbuffer
advance b len = if leb b.off len then record b { off = 0; buffer = 0; misalign = 0 } else record b {
  buffer = b.buffer + len;
  misalign = add_size b.misalign len;
  off = sub_size b.off len;
}

unfoldable pub drain : Evbuffer → ℕ → Evbuffer
drain b len = notify_change (advance b len) b.off

-- `evbuffer_remove`: the bytes copied to `data`, whose number is the result.
unfoldable pub remove : Evbuffer → ℕ → List ℕ × Evbuffer
remove b datlen =
    let nread = if leb b.off datlen then b.off else datlen in
    (take nread (drop b.buffer b.memory), drain b nread)

-- `SWAP(x, y)` copies the fields but the callback.
unfoldable pub swap_fields : Evbuffer → Evbuffer → Evbuffer
swap_fields x y = record x {
  memory = y.memory;
  buffer = y.buffer;
  misalign = y.misalign;
  totallen = y.totallen;
  off = y.off;
}

-- `if (res == 0) evbuffer_drain(inbuf, inbuf->off); return (res);`
unfoldable pub drain_added : Evbuffer → Status × Evbuffer → Run (Status × Evbuffer × Evbuffer)
drain_added inbuf (ok, outbuf) = done (ok, outbuf, drain inbuf inbuf.off)
drain_added inbuf (fail, outbuf) = done (fail, outbuf, inbuf)

-- The branch of `evbuffer_add_buffer` for an empty `outbuf`
unfoldable pub swapped : Evbuffer → Evbuffer → Status × Evbuffer × Evbuffer
unfolding swap_fields
swapped outbuf inbuf =
    let oldoff = inbuf.off in
    let out = swap_fields outbuf inbuf in
    let inb = swap_fields inbuf outbuf in
    (ok, (if oldoff == 0 then out else notify out 0 oldoff), notify_change inb oldoff)

-- `evbuffer_add_buffer`, with the new `outbuf` and `inbuf`
unfoldable pub add_buffer : Realloc → Evbuffer → Evbuffer → Run (Status × Evbuffer × Evbuffer)
add_buffer realloc outbuf inbuf =
    if outbuf.off == 0
    then done (swapped outbuf inbuf)
    else (add realloc outbuf (contents inbuf) >>= drain_added inbuf)
