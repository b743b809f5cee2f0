-- ===== src/Tagging/Messages.antt =====
-- The messages of event_tagging.c: a tag, a length and a payload, written to and read from buffers.
--
-- The static `_buf` is an argument and a result, once `evtag_init` has made it. Each call that
-- may allocate has a `realloc k` of its own. A result of -1 is none; the `int` that `evtag_unmarshal` returns
-- is -1 at a length of 2 ^ 32 - 1 too.
pub mod Wire
pub mod Safety
pub mod Ints
pub mod Read
pub mod RoundTrip
use study_libevent.Prelude.{
  ℕ, suc, ◌+◌, ◌-◌, ◌%◌, ◌^◌, List, Bool, true, false, Option, none, some, ltb, ◌==◌, not,
  if◌then◌else◌, length, take, Run, done, ◌>>=◌, Status, ok, fail,
}
use study_libevent.Evbuffer.{
  Evbuffer, Realloc, contents, sub_size, new, add, drain, remove, add_buffer,
}
use study_libevent.Tagging.{
  encode_int, encode_tag, decode_tag_internal, decode_int_internal, uint_mod,
}

-- `evtag_init` where calloc succeeds
unfoldable pub init : Option Evbuffer → Option Evbuffer
init none = some new
init (some buf) = some buf

unfoldable pub marshal : (ℕ → Realloc) → Evbuffer → ℕ → List ℕ → Run Evbuffer
marshal realloc evbuf tag payload = encode_tag (realloc 0) evbuf tag >>= λ r.
    encode_int (realloc 1) r.1 (length payload) >>= λ b. add (realloc 2) b payload >>= λ s. done s.1

-- `evtag_marshal_int`, with the new `evbuf` and `_buf`
unfoldable pub marshal_int : (ℕ → Realloc) → Evbuffer → Evbuffer → ℕ → ℕ → Run (Evbuffer × Evbuffer)
marshal_int realloc evbuf buf tag integer =
    encode_int (realloc 0) (drain buf buf.off) integer >>= λ coded.
    encode_tag (realloc 1) evbuf tag >>= λ r.
    encode_int (realloc 2) r.1 (coded.off % uint_mod) >>= λ b.
    add_buffer (realloc 3) b coded >>= λ s. done (s.1, s.2)

-- `evtag_marshal_string` for the bytes of the string before its NUL
unfoldable pub marshal_string : (ℕ → Realloc) → Evbuffer → ℕ → List ℕ → Run Evbuffer
marshal_string realloc buf tag string =
    marshal realloc buf tag (take (length string % uint_mod) string)

-- `evtag_marshal_timeval`; the two fields are the words that the conversions to 32 bits give.
unfoldable pub marshal_timeval :
    (ℕ → Realloc) → Evbuffer → Evbuffer → ℕ → ℕ × ℕ → Run (Evbuffer × Evbuffer)
marshal_timeval realloc evbuf buf tag tv =
    encode_int (realloc 3) (drain buf buf.off) (tv.0 % uint_mod) >>= λ b.
    encode_int (realloc 4) b (tv.1 % uint_mod) >>= λ coded.
    marshal realloc evbuf tag (contents coded) >>= λ out. done (out, coded)

-- `evtag_decode_tag`
unfoldable pub decode_tag : Evbuffer → Run (Option (ℕ × ℕ) × Evbuffer)
decode_tag evbuf = decode_tag_internal evbuf true

-- `evtag_decode_int`: `*pnumber` where it returns 0
unfoldable pub number_of : Option (ℕ × ℕ) × Evbuffer → Option ℕ × Evbuffer
number_of (none, evbuf) = (none, evbuf)
number_of (some (number, len), evbuf) = (some number, evbuf)

unfoldable pub decode_int : Evbuffer → Option ℕ × Evbuffer
decode_int evbuf = number_of (decode_int_internal evbuf true)

-- `evtag_peek`
unfoldable pub peek : Evbuffer → Run (Option (ℕ × ℕ))
peek evbuf = decode_tag_internal evbuf false >>= λ r. done r.0

-- `tmp = *evbuf; tmp.buffer += len; tmp.off -= len;`
unfoldable pub behind_tag : Evbuffer → ℕ → Evbuffer
behind_tag evbuf len = record evbuf { buffer = evbuf.buffer + len; off = sub_size evbuf.off len }

-- What `evtag_peek_length` and `evtag_payload_length` read: the payload's length, with the bytes of
-- the tag and of the length.
unfoldable pub with_tag : ℕ → Option (ℕ × ℕ) → Option (ℕ × ℕ × ℕ)
with_tag len none = none
with_tag len (some (number, res)) = some (number, len, res)

unfoldable pub lengths_behind : Evbuffer → Option (ℕ × ℕ) → Option (ℕ × ℕ × ℕ)
lengths_behind evbuf none = none
lengths_behind evbuf (some (tag, len)) =
    with_tag len (decode_int_internal (behind_tag evbuf len) false).0

unfoldable pub peek_lengths : Evbuffer → Run (Option (ℕ × ℕ × ℕ))
peek_lengths evbuf = decode_tag_internal evbuf false >>= λ r. done (lengths_behind evbuf r.0)

-- `evtag_peek_length`: `*plength` where it returns 0
unfoldable pub total_of : Option (ℕ × ℕ × ℕ) → Option ℕ
total_of none = none
total_of (some (number, len, res)) = some ((number + (res + len)) % uint_mod)

unfoldable pub peek_length : Evbuffer → Run (Option ℕ)
peek_length evbuf = peek_lengths evbuf >>= λ r. done (total_of r)

-- `evtag_payload_length`
unfoldable pub payload_of : Option (ℕ × ℕ × ℕ) → Option ℕ
payload_of none = none
payload_of (some (number, len, res)) = some number

unfoldable pub payload_length : Evbuffer → Run (Option ℕ)
payload_length evbuf = peek_lengths evbuf >>= λ r. done (payload_of r)

-- `evtag_consume`
unfoldable pub consume_payload : Option ℕ × Evbuffer → Status × Evbuffer
consume_payload (none, evbuf) = (fail, evbuf)
consume_payload (some len, evbuf) = (ok, drain evbuf len)

unfoldable pub consume_tagged : Option (ℕ × ℕ) × Evbuffer → Status × Evbuffer
consume_tagged (none, evbuf) = (fail, evbuf)
consume_tagged (some _, evbuf) = consume_payload (decode_int evbuf)

unfoldable pub consume : Evbuffer → Run (Status × Evbuffer)
consume evbuf = decode_tag_internal evbuf true >>= λ r. done (consume_tagged r)

-- The result, `*ptag` if it was written, `src` and `dst`
pub record Unmarshalled : Type 0 where
  pub result : Option ℕ
  pub tag : Option ℕ
  pub src : Evbuffer
  pub dst : Evbuffer

-- `evtag_unmarshal` behind its call of `evbuffer_add`
unfoldable pub copied : ℕ → ℕ → Evbuffer → Status × Evbuffer → Run Unmarshalled
copied tag len src (ok, dst) = done (record {
  result = if len == uint_mod - 1 then none else some len;
  tag = some tag;
  src = drain src len;
  dst = dst;
})
copied tag len src (fail, dst) =
    done (record { result = none; tag = some tag; src = src; dst = dst })

-- `evtag_unmarshal` behind its two decoders
unfoldable pub copy_payload : Realloc → ℕ → Evbuffer → Option ℕ × Evbuffer → Run Unmarshalled
copy_payload realloc tag dst (none, src) =
    done (record { result = none; tag = some tag; src = src; dst = dst })
copy_payload realloc tag dst (some len, src) =
    let copy = add realloc dst (take len (contents src)) >>= copied tag len src in
    if ltb src.off len
    then done (record { result = none; tag = some tag; src = src; dst = dst })
    else copy

unfoldable pub unmarshal_tagged : Realloc → Evbuffer → Option (ℕ × ℕ) × Evbuffer → Run Unmarshalled
unmarshal_tagged realloc dst (none, src) =
    done (record { result = none; tag = none; src = src; dst = dst })
unmarshal_tagged realloc dst (some (tag, count), src) =
    copy_payload realloc tag dst (decode_int src)

unfoldable pub unmarshal : Realloc → Evbuffer → Evbuffer → Run Unmarshalled
unmarshal realloc src dst = decode_tag_internal src true >>= unmarshal_tagged realloc dst

-- `evtag_unmarshal(…, _buf) == -1 || tag != need_tag`
unfoldable pub is_wanted : ℕ → Unmarshalled → Bool
is_wanted need_tag u = elim u.result [
  | none ↦ false
  | some n ↦ elim u.tag [ none ↦ false | some tag ↦ tag == need_tag ]
]

-- `evtag_unmarshal_fixed`: `data` where it returns 0, with the new `src` and `_buf`
unfoldable pub unmarshal_fixed :
    Realloc → Evbuffer → Evbuffer → ℕ → ℕ → Run (Option (List ℕ) × Evbuffer × Evbuffer)
unmarshal_fixed realloc src buf need_tag len = unmarshal realloc src (drain buf buf.off) >>= λ u.
    let same = not (is_wanted need_tag u) in
    done (
      (if same then none else if u.dst.off == len then some (take len (contents u.dst)) else none),
      u.src,
      u.dst,
    )

-- `evtag_unmarshal_string`: the bytes of `*pstring` before its NUL, where calloc succeeds
unfoldable pub unmarshal_string :
    Realloc → Evbuffer → Evbuffer → ℕ → Run (Option (List ℕ) × Evbuffer × Evbuffer)
unmarshal_string realloc src buf need_tag = unmarshal realloc src (drain buf buf.off) >>= λ u.
    let (string, rest) = remove u.dst u.dst.off in
    done (if is_wanted need_tag u then (some string, u.src, rest) else (none, u.src, u.dst))

-- The two integers of `evtag_unmarshal_timeval`
unfoldable pub second_int : ℕ → Option ℕ × Evbuffer → Option (ℕ × ℕ) × Evbuffer
second_int sec (none, buf) = (none, buf)
second_int sec (some usec, buf) = (some (sec, usec), buf)

unfoldable pub two_ints : Option ℕ × Evbuffer → Option (ℕ × ℕ) × Evbuffer
two_ints (none, buf) = (none, buf)
two_ints (some sec, buf) = second_int sec (decode_int buf)

unfoldable pub unmarshal_timeval :
    Realloc → Evbuffer → Evbuffer → ℕ → Run (Option (ℕ × ℕ) × Evbuffer × Evbuffer)
unmarshal_timeval realloc src buf need_tag = unmarshal realloc src (drain buf buf.off) >>= λ u.
    let (tv, rest) = two_ints (decode_int u.dst) in
    done (if is_wanted need_tag u then (tv, u.src, rest) else (none, u.src, u.dst))

-- The end of `evtag_unmarshal_int`: `evbuffer_drain(evbuf, len); return (evtag_decode_int(…));`
unfoldable pub copied_int : ℕ → Evbuffer → Status × Evbuffer → Run (Option ℕ × Evbuffer × Evbuffer)
copied_int len evbuf (ok, buf) = let (n, buf') = decode_int buf in done (n, drain evbuf len, buf')
copied_int len evbuf (fail, buf) = done (none, evbuf, buf)

-- `evtag_unmarshal_int` behind its two decoders
unfoldable pub copy_int :
    Realloc → Evbuffer → Option ℕ × Evbuffer → Run (Option ℕ × Evbuffer × Evbuffer)
copy_int realloc buf (none, evbuf) = done (none, evbuf, buf)
copy_int realloc buf (some len, evbuf) =
    let copy =
      add realloc (drain buf buf.off) (take len (contents evbuf)) >>= copied_int len evbuf in
    if ltb evbuf.off len then done (none, evbuf, buf) else copy

unfoldable pub int_tagged :
    Realloc → Evbuffer → ℕ → Option (ℕ × ℕ) × Evbuffer → Run (Option ℕ × Evbuffer × Evbuffer)
int_tagged realloc buf need_tag (none, evbuf) = done (none, evbuf, buf)
int_tagged realloc buf need_tag (some (tag, count), evbuf) =
    if need_tag == tag then copy_int realloc buf (decode_int evbuf) else done (none, evbuf, buf)

unfoldable pub unmarshal_int :
    Realloc → Evbuffer → Evbuffer → ℕ → Run (Option ℕ × Evbuffer × Evbuffer)
unmarshal_int realloc evbuf buf need_tag =
    decode_tag_internal evbuf true >>= int_tagged realloc buf need_tag
