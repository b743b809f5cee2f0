-- ===== src/Tagging/Messages/Ints.antt =====
-- About `evtag_marshal_int` of event_tagging.c.
use study_libevent.Prelude.{
  ℕ, ◌+◌, ◌%◌, ◌^◌, ◌≤◌, ◌<◌, ◌≡◌, inl, inr, refl, ap, ◌∙◌, List, [], ◌++◌, length, Status, ok,
  fail, Ensures, Ensures-bind, returns, arith, subst,
}
use study_libevent.Evbuffer.{Evbuffer, Realloc, size_max, contents, drain}
use study_libevent.Evbuffer.Valid.{IsValid, length-contents}
use study_libevent.Evbuffer.Add.{Grants}
use study_libevent.Evbuffer.Transfer.{Moved, add_buffer-Moved}
use study_libevent.Tagging.{uint_mod}
use study_libevent.Tagging.Integers.{Encoded}
use study_libevent.Tagging.Groups.{Grouped}
use study_libevent.Tagging.Messages.{marshal_int}
use study_libevent.Tagging.Messages.Wire.{
  IsMessage, Grown, encode_int-Grown, encode_tag-Grown, off-Grown, three_parts,
}
use study_libevent.Tagging.Messages.RoundTrip.{emptied}

-- What `evtag_marshal_int` leaves of `evbuf` and `_buf`.
pub record IntSent (evbuf : Evbuffer) (tag integer : ℕ) (r : Evbuffer × Evbuffer) : Type 0 where
  pub payload : List ℕ
  pub coded : Encoded integer payload
  pub grown : Grown (IsMessage tag payload) evbuf r.0
  pub buf_valid : IsValid r.1
  pub buf_empty : contents r.1 ≡ []

-- `evbuffer_add_buffer` succeeds where memory is granted.
Moved-ok :
    (realloc : Realloc) (outbuf inbuf : Evbuffer) (r : Status × Evbuffer × Evbuffer)
    → Grants realloc
    → outbuf.off + inbuf.off ≤ size_max
    → Moved realloc outbuf inbuf r
    → r.0 ≡ ok
Moved-ok realloc outbuf inbuf (ok, out, inb) grants fits m = refl
Moved-ok realloc outbuf inbuf (fail, out, inb) grants fits m = elim (m.refused refl) [
  | inl over ↦ absurd (omega arith)
  | inr (size, le, null) ↦ absurd (grants size null)
]

-- For two valid buffers `evbuf` and `_buf`, a tag and an integer below 2 ^ 32, fifteen bytes left
-- below `size_max`, and calls of `realloc` that never refuse, `evtag_marshal_int` returns; it
-- leaves a valid `evbuf` with one message behind its old bytes, whose payload is an encoding of
-- the integer, and a valid `_buf` without bytes.
pub marshal_int-IntSent :
    (realloc : ℕ → Realloc) (evbuf buf : Evbuffer) (tag integer : ℕ)
    → IsValid evbuf
    → IsValid buf
    → ((k : ℕ) → Grants (realloc k))
    → tag < 2 ^ 32
    → integer < 2 ^ 32
    → evbuf.off + 15 ≤ size_max
    → Ensures (IntSent evbuf tag integer) (marshal_int realloc evbuf buf tag integer)
unfolding marshal_int
marshal_int-IntSent realloc evbuf buf tag integer v vb grants small short fits =
    let (v0, none_left, off0) = emptied buf vb in
    Ensures-bind
      (encode_int-Grown (realloc 0) (drain buf buf.off) integer v0 (grants 0) short
        (omega (arith, off0)))
      λ coded c.
        let bytes : contents coded ≡ c.added = c.bytes ∙ ap (λ x. x ++ c.added) none_left in
        let coff : coded.off ≡ length c.added =
          omega (arith, length-contents c.valid, ap length bytes) in
        let few = c.holds.size in
        let most = c.holds.at_most in
        let word : coded.off % uint_mod ≡ length c.added = omega arith in
        Ensures-bind (encode_tag-Grown (realloc 1) evbuf tag v (grants 1) small (omega arith))
          λ r g.
            let off1 = off-Grown (Grouped 5 tag) v g in
            let gmost = g.holds.at_most in
            Ensures-bind
              (encode_int-Grown (realloc 2) r.1 (coded.off % uint_mod) g.valid (grants 2)
                (omega arith) (omega arith))
              λ b l.
                let off2 = off-Grown (Encoded (coded.off % uint_mod)) g.valid l in
                let lsize = l.holds.size in
                let lmost = l.holds.at_most in
                Ensures-bind (add_buffer-Moved (realloc 3) b coded l.valid c.valid) λ s m.
                  let done_ok = Moved-ok (realloc 3) b coded s (grants 3) (omega arith) m in
                  returns (record {
                    payload = c.added;
                    coded = c.holds;
                    grown = record {
                      valid = m.out_valid;
                      added = g.added ++ (l.added ++ c.added);
                      bytes =
                          three_parts (contents evbuf) g.added l.added c.added
                            (m.out_ok done_ok ∙ ap (λ x. contents b ++ x) bytes) l.bytes g.bytes;
                      holds = record {
                        tag_part = g.added;
                        length_part = l.added;
                        whole = refl;
                        tagged = g.holds;
                        measured = subst (λ n. Encoded n l.added) word l.holds;
                        tag_small = small;
                      };
                    };
                    buf_valid = m.in_valid;
                    buf_empty = m.in_ok done_ok;
                  })
