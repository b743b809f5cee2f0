-- ===== src/Tagging/Messages/RoundTrip.antt =====
-- About `evtag_unmarshal` of what `evtag_marshal` wrote.
use study_libevent.Prelude.{
  ℕ, ◌+◌, ◌^◌, ◌≤◌, ◌<◌, ◌≡◌, sym, ap, ◌∙◌, List, [], ◌++◌, append-nil, some, length, length-append,
  drop_all, ◌>>=◌, Ensures, Ensures-bind, Ensures-map, arith,
}
use study_libevent.Evbuffer.{Evbuffer, Realloc, size_max, contents, drain}
use study_libevent.Evbuffer.Valid.{IsValid, length-contents}
use study_libevent.Evbuffer.Add.{Grants, drain-Drained}
use study_libevent.Tagging.Messages.{marshal, unmarshal, Unmarshalled}
use study_libevent.Tagging.Messages.Wire.{IsMessage, Grown, marshal-IsMessage}
use study_libevent.Tagging.Messages.Read.{unmarshal-Received}

-- An emptied buffer.
pub emptied :
    (b : Evbuffer)
    → IsValid b
    → IsValid (drain b b.off) × (contents (drain b b.off) ≡ []) × ((drain b b.off).off ≡ 0)
emptied b v =
    let d = drain-Drained b b.off v in
    let bytes = d.bytes ∙ drop_all b.off (contents b) (omega (arith, length-contents v)) in
    (d.valid, bytes, omega (arith, length-contents d.valid, ap length bytes))

-- The outcome of a transfer of `payload` under `tag` to a buffer `dst`.
pub record Delivered (tag : ℕ) (payload : List ℕ) (dst : Evbuffer) (u : Unmarshalled) : Type 0 where
  pub result : u.result ≡ some (length payload)
  pub tag_read : u.tag ≡ some tag
  pub src_valid : IsValid u.src
  pub dst_valid : IsValid u.dst
  pub src_bytes : contents u.src ≡ []
  pub dst_bytes : contents u.dst ≡ contents dst ++ payload

module _ (realloc : ℕ → Realloc) (grants : (k : ℕ) → Grants (realloc k)) (b : Evbuffer) (tag : ℕ)
    (payload : List ℕ) (v : IsValid b) (empty : contents b ≡ []) (small : tag < 2 ^ 32)
    (short : length payload + 10 < 2 ^ 31) where
  is_empty : b.off ≡ 0
  is_empty = omega (arith, length-contents v, ap length empty)

  length_wire : (wire : List ℕ) → IsMessage tag payload wire → length wire ≤ length payload + 10
  length_wire wire m = omega (
    arith,
    ap length m.whole,
    length-append m.tag_part (m.length_part ++ payload),
    length-append m.length_part payload,
    m.tagged.at_most,
    m.measured.size,
    m.measured.at_most,
  )

  marshalled : Ensures (Grown (IsMessage tag payload) b) (marshal realloc b tag payload)
  marshalled =
      marshal-IsMessage realloc b tag payload v grants small (omega arith) (omega (arith, is_empty))

  -- For a valid empty buffer, a tag below 2 ^ 32, a payload of fewer than 2 ^ 31 - 10 bytes, a
  -- valid `dst` with which the payload stays within `size_max`, and calls of `realloc` that never
  -- refuse: `evtag_marshal` to the buffer and then `evtag_unmarshal` of it returns the payload's
  -- length and the tag, puts the payload behind the old bytes of `dst`, and leaves the buffer
  -- empty, both valid.
  pub unmarshal-marshal :
      (answer : Realloc) (dst : Evbuffer)
      → Grants answer
      → IsValid dst
      → dst.off + length payload ≤ size_max
      → Ensures
          (Delivered tag payload dst)
          (marshal realloc b tag payload >>= λ src. unmarshal answer src dst)
  unmarshal-marshal answer dst g vd room = Ensures-bind marshalled λ src w.
      let bytes : contents src ≡ w.added ++ [] =
        w.bytes ∙ ap (λ xs. xs ++ w.added) empty ∙ sym (append-nil w.added) in
      Ensures-map
        (unmarshal-Received src tag payload w.added [] w.valid w.holds bytes
          (omega (arith, length-append w.added [], length_wire w.added w.holds)) answer dst vd g
          room)
        λ u r. record {
          result = r.result;
          tag_read = r.tag_read;
          src_valid = r.src_valid;
          dst_valid = r.dst_valid;
          src_bytes = r.src_bytes;
          dst_bytes = r.dst_bytes;
        }
