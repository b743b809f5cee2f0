-- ===== src/Tagging/Messages/Wire.antt =====
-- About `evtag_marshal` of event_tagging.c: the bytes it appends.
use study_libevent.Prelude.{
  ℕ, ◌+◌, ◌^◌, ◌≤◌, ◌<◌, ◌≡◌, refl, ap, List, ◌++◌, append_assoc, length, length-append, Ensures,
  Ensures-bind, returns, arith,
}
use study_libevent.Evbuffer.{Evbuffer, Realloc, size_max, contents}
use study_libevent.Evbuffer.Valid.{IsValid, length-contents}
use study_libevent.Evbuffer.Add.{Grants, add-stored}
use study_libevent.Tagging.{encode_int, encode_tag}
use study_libevent.Tagging.Integers.{Encoded, int_bytes-Encoded}
use study_libevent.Tagging.Groups.{Grouped, tag_bytes-Grouped}
use study_libevent.Tagging.Messages.{marshal}

-- A tag, the length of the payload and the payload.
pub record IsMessage (tag : ℕ) (payload wire : List ℕ) : Type 0 where
  pub tag_part : List ℕ
  pub length_part : List ℕ
  pub whole : wire ≡ tag_part ++ (length_part ++ payload)
  pub tagged : Grouped 5 tag tag_part
  pub measured : Encoded (length payload) length_part
  pub tag_small : tag < 2 ^ 32

-- `b'` is `b` with some bytes added that satisfy `P`.
pub record Grown (P : List ℕ → Type 0) (b b' : Evbuffer) : Type 0 where
  pub valid : IsValid b'
  pub added : List ℕ
  pub bytes : contents b' ≡ contents b ++ added
  pub holds : P added

pub encode_int-Grown :
    (realloc : Realloc) (b : Evbuffer) (number : ℕ)
    → IsValid b
    → Grants realloc
    → number < 2 ^ 32
    → b.off + 5 ≤ size_max
    → Ensures (Grown (Encoded number) b) (encode_int realloc b number)
unfolding encode_int
encode_int-Grown realloc b number v grants small fits =
    Ensures-bind (int_bytes-Encoded number small) λ bytes e.
      Ensures-bind (add-stored realloc b bytes v grants (omega (arith, e.size, e.at_most)))
        λ r (o, v', stored).
          returns (record { valid = v'; added = bytes; bytes = stored; holds = e })

pub encode_tag-Grown :
    (realloc : Realloc) (b : Evbuffer) (tag : ℕ)
    → IsValid b
    → Grants realloc
    → tag < 2 ^ 32
    → b.off + 5 ≤ size_max
    → Ensures (λ r. Grown (Grouped 5 tag) b r.1) (encode_tag realloc b tag)
unfolding encode_tag
encode_tag-Grown realloc b tag v grants small fits =
    Ensures-bind (tag_bytes-Grouped tag small) λ bytes g.
      Ensures-bind (add-stored realloc b bytes v grants (omega (arith, g.at_most)))
        λ r (o, v', stored).
          returns (record { valid = v'; added = bytes; bytes = stored; holds = g })

pub three_parts :
    {d c b : List ℕ} (a x y z : List ℕ)
    → d ≡ c ++ z
    → c ≡ b ++ y
    → b ≡ a ++ x
    → d ≡ a ++ (x ++ (y ++ z))
three_parts a x y z p q r = rw (p, q, r, append_assoc (a ++ x) y z, append_assoc a x (y ++ z))

pub off-Grown :
    (P : List ℕ → Type 0) {b b' : Evbuffer}
    → IsValid b
    → (g : Grown P b b') → b'.off ≡ b.off + length g.added
off-Grown P {b} {b'} v g = omega (
  arith,
  length-contents v,
  length-contents g.valid,
  ap length g.bytes,
  length-append (contents b) g.added,
)

-- For a valid buffer, a tag and a payload length below 2 ^ 32, a total that leaves ten bytes
-- below `size_max`, and calls of `realloc` that never refuse, `evtag_marshal` returns and leaves
-- a valid buffer with one message behind the old bytes: the tag, the payload's length, the
-- payload.
pub marshal-IsMessage :
    (realloc : ℕ → Realloc) (b : Evbuffer) (tag : ℕ) (payload : List ℕ)
    → IsValid b
    → ((k : ℕ) → Grants (realloc k))
    → tag < 2 ^ 32
    → length payload < 2 ^ 32
    → b.off + length payload + 10 ≤ size_max
    → Ensures (Grown (IsMessage tag payload) b) (marshal realloc b tag payload)
unfolding marshal
marshal-IsMessage realloc b tag payload v grants small short fits =
    Ensures-bind (encode_tag-Grown (realloc 0) b tag v (grants 0) small (omega arith)) λ r g.
      let off1 = off-Grown (Grouped 5 tag) v g in
      let few = g.holds.at_most in
      Ensures-bind
        (encode_int-Grown (realloc 1) r.1 (length payload) g.valid (grants 1) short (omega arith))
        λ c e.
          let off2 = off-Grown (Encoded (length payload)) g.valid e in
          let size = e.holds.size in
          let most = e.holds.at_most in
          Ensures-bind (add-stored (realloc 2) c payload e.valid (grants 2) (omega arith))
            λ s (o, v', stored). returns (record {
              valid = v';
              added = g.added ++ (e.added ++ payload);
              bytes = three_parts (contents b) g.added e.added payload stored e.bytes g.bytes;
              holds = record {
                tag_part = g.added;
                length_part = e.added;
                whole = refl;
                tagged = g.holds;
                measured = e.holds;
                tag_small = small;
              };
            })
