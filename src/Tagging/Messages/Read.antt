-- ===== src/Tagging/Messages/Read.antt =====
-- Reading a message that stands at the front of a buffer.
use study_libevent.Prelude.{
  ℕ, ◌+◌, ◌-◌, ◌^◌, ◌≤◌, ◌<◌, ◌≡◌, refl, sym, ap, ◌∙◌, List, ◌++◌, append_assoc, Bool, true, false,
  done, if◌then◌else◌, ◌==◌, ltb, some, length, take, length-append, drop, Status, ok, fail,
  Ensures, Ensures-bind, returns, arith,
}
use study_libevent.Prelude.Memory.{drop-append_self, take-append_self, drop-window, window}
use study_libevent.Evbuffer.{Evbuffer, Realloc, size_max, contents, sub_size, drain}
use study_libevent.Evbuffer.Valid.{IsValid, length-contents}
use study_libevent.Evbuffer.Add.{Grants, add-stored, drain-Drained}
use study_libevent.Tagging.{
  uint_mod, tag_of, int_of, drain_decoded, decode_tag_internal, decode_int_internal,
}
use study_libevent.Tagging.Integers.{Encoded, int_of-Encoded}
use study_libevent.Tagging.Groups.{Grouped, tag_of-Grouped}
use study_libevent.Tagging.Messages.{
  decode_int, number_of, behind_tag, peek, consume_tagged, consume_payload, lengths_behind,
  with_tag, total_of, payload_of, peek_lengths, peek_length, payload_length, consume, Unmarshalled,
  copied, copy_payload, unmarshal_tagged, unmarshal,
}
use study_libevent.Tagging.Messages.Wire.{IsMessage}

-- Draining a front part leaves what follows it.
drained_front :
    (b : Evbuffer) (front rest : List ℕ)
    → IsValid b
    → contents b ≡ front ++ rest
    → IsValid (drain b (length front)) × (contents (drain b (length front)) ≡ rest)
drained_front b front rest v e =
    let d = drain-Drained b (length front) v in
    (d.valid, d.bytes ∙ ap (drop (length front)) e ∙ drop-append_self front rest)

tag_read :
    (b : Evbuffer) (tag : ℕ) (front rest : List ℕ)
    → contents b ≡ front ++ rest
    → Grouped 5 tag front
    → tag < 2 ^ 32
    → length (front ++ rest) < 2 ^ 31
    → tag_of (contents b) ≡ done (some (tag, length front))
tag_read b tag front rest e g small fits = rw e (tag_of-Grouped tag front rest g small fits)

int_read :
    (bytes : List ℕ) (number : ℕ) (front rest : List ℕ)
    → bytes ≡ front ++ rest
    → Encoded number front
    → length (front ++ rest) < 2 ^ 31
    → int_of bytes ≡ some (number, length front)
int_read bytes number front rest e c fits = rw e (int_of-Encoded number front rest c fits)

-- `evtag_decode_int` on a number at the front.
pub decode_int-front :
    (b : Evbuffer) (number : ℕ) (front rest : List ℕ)
    → contents b ≡ front ++ rest
    → Encoded number front
    → length (front ++ rest) < 2 ^ 31
    → decode_int b ≡ (some number, drain b (length front))
unfolding decode_int decode_int_internal drain_decoded number_of
decode_int-front b number front rest e c fits =
    ap (λ r. number_of (drain_decoded b true r)) (int_read (contents b) number front rest e c fits)

-- A buffer with a message at its front.
module _ (b : Evbuffer) (tag : ℕ) (payload wire rest : List ℕ) (v : IsValid b)
    (m : IsMessage tag payload wire) (e : contents b ≡ wire ++ rest)
    (fits : length (wire ++ rest) < 2 ^ 31) where
  behind : List ℕ
  behind = m.length_part ++ (payload ++ rest)

  split : contents b ≡ m.tag_part ++ behind
  unfolding behind
  split =
      e
      ∙ ap (λ w. w ++ rest) m.whole
      ∙ append_assoc m.tag_part (m.length_part ++ payload) rest
      ∙ ap (λ t. m.tag_part ++ t) (append_assoc m.length_part payload rest)

  whole_fits : length (m.tag_part ++ behind) < 2 ^ 31
  whole_fits = let same = ap length (sym e ∙ split) in omega arith

  behind_fits : length behind < 2 ^ 31
  behind_fits = omega (arith, whole_fits, length-append m.tag_part behind)

  first : Evbuffer
  first = drain b (length m.tag_part)

  second : Evbuffer
  second = drain first (length m.length_part)

  first_front : IsValid first × (contents first ≡ behind)
  unfolding first
  first_front = drained_front b m.tag_part behind v split

  second_front : IsValid second × (contents second ≡ payload ++ rest)
  unfolding second behind
  second_front = drained_front first m.length_part (payload ++ rest) first_front.0 first_front.1

  tag_at_front : tag_of (contents b) ≡ done (some (tag, length m.tag_part))
  tag_at_front = tag_read b tag m.tag_part behind split m.tagged m.tag_small whole_fits

  length_at_front : decode_int first ≡ (some (length payload), second)
  unfolding second behind
  length_at_front =
      decode_int-front first (length payload) m.length_part (payload ++ rest) first_front.1
        m.measured behind_fits

  tag_decoded :
      (dodrain : Bool)
      → decode_tag_internal b dodrain
        ≡ done (some (tag, length m.tag_part), (if dodrain then first else b))
  unfolding decode_tag_internal drain_decoded first
  tag_decoded dodrain = rw tag_at_front refl

  -- For a valid buffer of fewer than 2 ^ 31 bytes that starts with a message, `evtag_consume`
  -- returns 0 and leaves a valid buffer of exactly the bytes behind the message.
  pub consume_lem :
      Ensures
        (λ (r : Status × Evbuffer). (r.0 ≡ ok) × IsValid r.1 × (contents r.1 ≡ rest))
        (consume b)
  unfolding consume consume_tagged consume_payload
  consume_lem =
      let (valid, bytes) = drained_front second payload rest second_front.0 second_front.1 in
      rw (tag_decoded true, length_at_front) (returns (refl, valid, bytes))

  behind_tag-contents : contents (behind_tag b (length m.tag_part)) ≡ behind
  unfolding behind_tag
  behind_tag-contents =
      let n = length m.tag_part in
      let off : b.off ≡ n + sub_size b.off n =
        omega (arith, length-contents v, ap length split, length-append m.tag_part behind) in
      sym (drop-window n b.buffer (sub_size b.off n) b.memory)
      ∙ ap (λ k. drop n (window b.buffer k b.memory)) (sym off)
      ∙ ap (drop n) split
      ∙ drop-append_self m.tag_part behind

  lengths_read :
      peek_lengths b ≡ done (some (length payload, length m.tag_part, length m.length_part))
  unfolding peek_lengths lengths_behind with_tag decode_int_internal drain_decoded behind
  lengths_read = rw (tag_decoded false) (
      ap
        (λ r. done (
          with_tag (length m.tag_part)
            (drain_decoded (behind_tag b (length m.tag_part)) false r).0))
        (int_read (contents (behind_tag b (length m.tag_part))) (length payload) m.length_part
          (payload ++ rest) behind_tag-contents m.measured behind_fits))

  -- For a valid buffer of fewer than 2 ^ 31 bytes that starts with a message, `evtag_peek_length`
  -- finds the length of the whole message, `evtag_payload_length` that of the payload, and
  -- `evtag_peek` the tag and its number of bytes.
  pub peek_lem :
      (peek_length b ≡ done (some (length wire)))
      × (payload_length b ≡ done (some (length payload)))
      × (peek b ≡ done (some (tag, length m.tag_part)))
  unfolding peek_length payload_length peek total_of payload_of
  peek_lem =
      let size =
        ap length m.whole
        ∙ length-append m.tag_part (m.length_part ++ payload)
        ∙ ap (λ n. length m.tag_part + n) (length-append m.length_part payload) in
      rw lengths_read (
        ap (λ n. done (some n)) (omega (arith, size, length-append wire rest)),
        refl,
        rw (tag_decoded false) refl,
      )

  -- `evtag_unmarshal` where `evbuffer_add` has the memory it wants.
  pub record Received (dst : Evbuffer) (u : Unmarshalled) : Type 0 where
    pub src_valid : IsValid u.src
    pub dst_valid : IsValid u.dst
    pub result : u.result ≡ some (length payload)
    pub tag_read : u.tag ≡ some tag
    pub src_bytes : contents u.src ≡ rest
    pub dst_bytes : contents u.dst ≡ contents dst ++ payload

  payload_taken : take (length payload) (contents second) ≡ payload
  payload_taken = ap (take (length payload)) second_front.1 ∙ take-append_self payload rest

  copied-Received :
      (dst : Evbuffer) (r : Status × Evbuffer)
      → (r.0 ≡ ok)
        × IsValid r.1
        × (contents r.1 ≡ contents dst ++ take (length payload) (contents second))
      → Ensures (Received dst) (copied tag (length payload) second r)
  unfolding copied behind
  copied-Received dst (fail, d) (o, vd, stored) = cc
  copied-Received dst (ok, d) (o, vd, stored) =
      let (valid, bytes) = drained_front second payload rest second_front.0 second_front.1 in
      let short : (length payload == uint_mod - 1) ≡ false = ground (
        arith,
        behind_fits,
        length-append m.length_part (payload ++ rest),
        length-append payload rest,
      ) in
      rw short (
        returns (record {
          src_valid = valid;
          dst_valid = vd;
          result = refl;
          tag_read = refl;
          src_bytes = bytes;
          dst_bytes = stored ∙ ap (λ xs. contents dst ++ xs) payload_taken;
        }))

  -- For a valid `src` of fewer than 2 ^ 31 bytes that starts with a message, a valid `dst` with
  -- which the payload stays within `size_max`, and a `realloc` that never refuses,
  -- `evtag_unmarshal` returns the payload's length and the tag, leaves the bytes behind the
  -- message in `src` and the payload behind the old bytes of `dst`, both valid.
  pub unmarshal-Received :
      (realloc : Realloc) (dst : Evbuffer)
      → IsValid dst
      → Grants realloc
      → dst.off + length payload ≤ size_max
      → Ensures (Received dst) (unmarshal realloc b dst)
  unfolding unmarshal unmarshal_tagged copy_payload
  unmarshal-Received realloc dst vd grants room =
      let enough : ltb second.off (length payload) ≡ false = ground (
        arith,
        length-contents second_front.0,
        ap length second_front.1,
        length-append payload rest,
      ) in
      let size = ap length payload_taken in
      rw (tag_decoded true, length_at_front, enough)
        (Ensures-bind
          (add-stored realloc dst (take (length payload) (contents second)) vd grants
            (omega (arith, size)))
          (copied-Received dst))
