-- ===== src/Tagging/Messages/Safety.antt =====
-- About `evtag_unmarshal` of event_tagging.c on a source whose first tag is five bytes at most.
use study_libevent.Prelude.{
  ℕ, zero, suc, ◌∷◌, ◌*◌, ◌⊎◌, inl, inr, bit_and, leb, ◌+◌, ◌-◌, ◌^◌, ◌≤◌, ◌<◌, ◌≡◌, refl, sym, ap,
  ◌∙◌, List, [], ◌++◌, append_assoc, length-append, true, false, Option, none, some, length, take,
  take-append-drop, length-take, ltb, ◌==◌, Status, ok, fail, Ensures, Ensures-if, Ensures-bind,
  returns, arith,
}
use study_libevent.Evbuffer.{Evbuffer, Realloc, contents, drain}
use study_libevent.Evbuffer.Valid.{IsValid, length-contents}
use study_libevent.Evbuffer.Add.{Added, add-Added, drain-Drained}
use study_libevent.Tagging.{
  drain_decoded, decode_tag_internal, decode_int_internal, tag_of, int_of, uint_mod, tag_loop,
  int_length,
}
use study_libevent.Tagging.Messages.{
  decode_int, number_of, Unmarshalled, copied, copy_payload, unmarshal_tagged, unmarshal,
}

-- `b'` holds what is left of `b` behind some bytes.
record IsRest (b b' : Evbuffer) : Type 0 where
  pub valid : IsValid b'
  pub front : List ℕ
  pub bytes : contents b ≡ front ++ contents b'

drain-IsRest : (b : Evbuffer) (n : ℕ) → IsValid b → IsRest b (drain b n)
drain-IsRest b n v =
    let d = drain-Drained b n v in
    record {
      valid = d.valid;
      front = take n (contents b);
      bytes =
          sym (take-append-drop n (contents b)) ∙ ap (λ t. take n (contents b) ++ t) (sym d.bytes);
    }

IsRest-refl : (b : Evbuffer) → IsValid b → IsRest b b
IsRest-refl b v = record { valid = v; front = []; bytes = refl }

IsRest-trans : (a b c : Evbuffer) → IsRest a b → IsRest b c → IsRest a c
IsRest-trans a b c p q = record {
  valid = q.valid;
  front = p.front ++ q.front;
  bytes =
      p.bytes ∙ ap (λ t. p.front ++ t) q.bytes ∙ sym (append_assoc p.front q.front (contents c));
}

drain_decoded-IsRest :
    (b : Evbuffer) (r : Option (ℕ × ℕ)) → IsValid b → IsRest b (drain_decoded b true r).1
unfolding drain_decoded
drain_decoded-IsRest b none v = IsRest-refl b v
drain_decoded-IsRest b (some (n, len)) v = drain-IsRest b len v

number_of-kept : (r : Option (ℕ × ℕ) × Evbuffer) → (number_of r).1 ≡ r.1
unfolding number_of
number_of-kept (none, b) = refl
number_of-kept (some (n, len), b) = refl

decode_int-IsRest : (b : Evbuffer) → IsValid b → IsRest b (decode_int b).1
unfolding decode_int decode_int_internal
decode_int-IsRest b v =
    rw (number_of-kept (drain_decoded b true (int_of (contents b))))
      (drain_decoded-IsRest b (int_of (contents b)) v)

-- Of the first `most` bytes one has no high bit, or there are no more.
abbrev pub HasEnd : ℕ → List ℕ → Type 0
HasEnd most [] = Unit
HasEnd zero (byte ∷ bytes) = ⊥
HasEnd (suc most) (byte ∷ bytes) = (bit_and byte 0x80 ≡ 0) ⊎ HasEnd most bytes

take-HasEnd : (n most : ℕ) (bytes : List ℕ) → HasEnd most bytes → HasEnd most (take n bytes)
take-HasEnd zero most bytes h = tt
take-HasEnd (suc n) most [] h = tt
take-HasEnd (suc n) zero (byte ∷ bytes) h = absurd h
take-HasEnd (suc n) (suc most) (byte ∷ bytes) (inl h) = inl h
take-HasEnd (suc n) (suc most) (byte ∷ bytes) (inr h) = inr (take-HasEnd n most bytes h)

-- Where the tag ends soon enough, no shift reaches 32.
tag_loop-defined :
    (most : ℕ) (bytes : List ℕ) (number shift count : ℕ)
    → HasEnd most bytes
    → shift + 7 * most ≤ 35
    → Ensures {0, 0} (λ (r : Option (ℕ × ℕ)). Unit) (tag_loop bytes number shift count)
unfolding tag_loop
tag_loop-defined most [] number shift count h w = returns tt
tag_loop-defined zero (byte ∷ bytes) number shift count h w = absurd h
tag_loop-defined (suc most) (byte ∷ bytes) number shift count h w =
    Ensures-if (leb 32 shift) (λ t. absurd (ground arith))
      λ _.
        Ensures-if (bit_and byte 0x80 == 0) (λ _. returns tt)
          λ t. tag_loop-defined most bytes _ (shift + 7) (count + 1) (more h t) (omega arith)
  where
    more :
        (bit_and byte 0x80 ≡ 0) ⊎ HasEnd most bytes
        → (bit_and byte 0x80 == 0) ≡ false
        → HasEnd most bytes
    more (inl e) t = absurd (ground arith)
    more (inr h) t = h

tag_of-defined :
    (bytes : List ℕ) → HasEnd 5 bytes → Ensures {0, 0} (λ (r : Option (ℕ × ℕ)). Unit) (tag_of bytes)
unfolding tag_of
tag_of-defined bytes h =
    tag_loop-defined 5 _ 0 0 0 (take-HasEnd (int_length (length bytes)) 5 bytes h) (omega arith)

-- What `evtag_unmarshal` leaves, whatever its source holds.
pub record Handed (src dst : Evbuffer) (u : Unmarshalled) : Type 0 where
  pub src_valid : IsValid u.src
  pub dst_valid : IsValid u.dst
  pub on_error : u.result ≡ none → contents u.dst ≡ contents dst
  pub on_payload :
      (n : ℕ)
      → u.result ≡ some n
      → (front : List ℕ) × (payload : List ℕ) × (length payload ≡ n)
        × (contents src ≡ front ++ (payload ++ contents u.src))
        × (contents u.dst ≡ contents dst ++ payload)

module _ (realloc : Realloc) (src dst : Evbuffer) (small : src.off + 1 < 2 ^ 32) (vs : IsValid src)
    (vd : IsValid dst) where
  error-Handed :
      (tag : Option ℕ) (b d : Evbuffer)
      → IsRest src b
      → IsValid d
      → contents d ≡ contents dst
      → Handed src dst (record { result = none; tag = tag; src = b; dst = d })
  error-Handed tag b d w v same = record {
    src_valid = w.valid;
    dst_valid = v;
    on_error = λ _. same;
    on_payload = λ n p. cc;
  }

  payload-Handed :
      (tag len : ℕ) (b d : Evbuffer)
      → IsRest src b
      → len ≤ b.off
      → Added realloc dst (take len (contents b)) (ok, d)
      → Handed src dst (record { result = some len; tag = some tag; src = drain b len; dst = d })
  payload-Handed tag len b d w le a =
      let t = drain-Drained b len w.valid in
      record {
        src_valid = t.valid;
        dst_valid = a.valid;
        on_error = λ p. cc;
        on_payload = λ n p.
            let same : len ≡ n = grind arith in
            (
              w.front,
              take len (contents b),
              omega (arith, length-take len (contents b), length-contents w.valid),
              w.bytes
                  ∙ ap (λ x. w.front ++ x) (sym (take-append-drop len (contents b)))
                  ∙ ap (λ x. w.front ++ (take len (contents b) ++ x)) (sym t.bytes),
              a.stored refl,
            );
      }

  copied-Handed :
      (tag len : ℕ) (b : Evbuffer)
      → IsRest src b
      → len ≤ b.off
      → (r : Status × Evbuffer) → Added realloc dst (take len (contents b)) r
      → Ensures (Handed src dst) (copied tag len b r)
  unfolding copied
  copied-Handed tag len b w le (fail, d) a =
      returns (error-Handed (some tag) b d w a.valid (a.kept refl))
  copied-Handed tag len b w le (ok, d) a =
      let size = length-contents w.valid in
      let short : (len == uint_mod - 1) ≡ false =
        ground (
          arith,
          size,
          length-contents vs,
          ap length w.bytes,
          length-append w.front (contents b),
        ) in
      rw short (returns (payload-Handed tag len b d w le a))

  copy_payload-Handed :
      (tag : ℕ) (r : Option ℕ × Evbuffer)
      → IsRest src r.1
      → Ensures (Handed src dst) (copy_payload realloc tag dst r)
  unfolding copy_payload
  copy_payload-Handed tag (none, b) w = returns (error-Handed (some tag) b dst w vd refl)
  copy_payload-Handed tag (some len, b) w =
      Ensures-if (ltb b.off len) (λ _. returns (error-Handed (some tag) b dst w vd refl))
        λ t.
          Ensures-bind (add-Added realloc dst (take len (contents b)) vd)
            (copied-Handed tag len b w (ground arith))

  unmarshal_tagged-Handed :
      (r : Option (ℕ × ℕ) × Evbuffer)
      → IsRest src r.1
      → Ensures (Handed src dst) (unmarshal_tagged realloc dst r)
  unfolding unmarshal_tagged
  unmarshal_tagged-Handed (none, b) w = returns (error-Handed none b dst w vd refl)
  unmarshal_tagged-Handed (some (tag, count), b) w =
      copy_payload-Handed tag (decode_int b)
        (IsRest-trans src b (decode_int b).1 w (decode_int-IsRest b w.valid))

  -- For two valid buffers, the source of fewer than 2 ^ 32 - 1 bytes, of which one of the first
  -- five has no high bit if there are more, `evtag_unmarshal` returns, whatever else the source
  -- holds and whatever `realloc` answers, and leaves both buffers valid: with -1 the bytes of
  -- `dst` are unchanged; with n, n bytes of the source behind some front are put behind those of
  -- `dst`, and exactly what stands behind them stays in the source.
  pub unmarshal-Handed :
      HasEnd 5 (contents src) → Ensures (Handed src dst) (unmarshal realloc src dst)
  unfolding unmarshal decode_tag_internal
  unmarshal-Handed ends =
      Ensures-bind
        (Ensures-bind {Q = λ (s : Option (ℕ × ℕ) × Evbuffer). IsRest src s.1}
          (tag_of-defined (contents src) ends) λ r _. returns (drain_decoded-IsRest src r vs))
        unmarshal_tagged-Handed
