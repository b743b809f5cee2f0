-- ===== src/Evbuffer/Transfer.antt =====
-- About `evbuffer_add_buffer` of buffer.c.
use study_libevent.Prelude.{
  ℕ, ◌≤◌, ◌<◌, ◌⊎◌, ◌+◌, none, ◌≡◌, refl, sym, ap, ◌∙◌, [], ◌++◌, Status, ok, fail, drop_all, arith,
  ◌==◌, subst, if◌then◌else◌, ==_iff, Ensures, Ensures-if, Ensures-bind, returns,
}
use study_libevent.Evbuffer.{
  size_max, Evbuffer, Realloc, contents, notify, notify_change, swap_fields, swapped, drain_added,
  add_buffer,
}
use study_libevent.Evbuffer.Valid.{IsValid, length-contents}
use study_libevent.Evbuffer.Add.{
  Reported, Reported-refl, Added, add-Added, drain-Drained, notify_change-Reported,
}

-- What `evbuffer_add_buffer` leaves of `outbuf` and `inbuf`.
pub record Moved (realloc : Realloc) (outbuf inbuf : Evbuffer) (r : Status × Evbuffer × Evbuffer)
    : Type 0 where
  pub out_valid : IsValid r.1
  pub in_valid : IsValid r.2
  pub out_ok : r.0 ≡ ok → contents r.1 ≡ contents outbuf ++ contents inbuf
  pub in_ok : r.0 ≡ ok → contents r.2 ≡ []
  pub failed : r.0 ≡ fail → (contents r.1 ≡ contents outbuf) × (r.2 ≡ inbuf)
  pub refused :
      r.0 ≡ fail
      → (size_max < outbuf.off + inbuf.off)
        ⊎ ((size : ℕ) × (size ≤ size_max) × (realloc size ≡ none))
  pub out_reported : Reported outbuf r.1
  pub in_reported : Reported inbuf r.2

swap_fields-IsValid : (a : Evbuffer) {b : Evbuffer} → IsValid b → IsValid (swap_fields a b)
unfolding swap_fields
swap_fields-IsValid a v = ground arith

contents_empty : {b : Evbuffer} → IsValid b → b.off ≡ 0 → contents b ≡ []
contents_empty {b} v z = rw z

-- One of the two buffers after the exchange.
exchanged :
    (a b : Evbuffer)
    → IsValid b
    → IsValid (notify_change (swap_fields a b) a.off)
      × (contents (notify_change (swap_fields a b) a.off) ≡ contents b)
      × Reported a (notify_change (swap_fields a b) a.off)
unfolding swap_fields
exchanged a b v = notify_change-Reported a (swap_fields a b) (swap_fields-IsValid a v) refl refl

out_of_swap :
    (outbuf inbuf : Evbuffer)
    → outbuf.off ≡ 0
    → notify_change (swap_fields outbuf inbuf) outbuf.off ≡ (swapped outbuf inbuf).1
unfolding swapped notify_change
out_of_swap outbuf inbuf z =
    ap
      (λ k.
        if inbuf.off == k
        then swap_fields outbuf inbuf
        else notify (swap_fields outbuf inbuf) k inbuf.off)
      z

swapped-Moved :
    (realloc : Realloc) (outbuf inbuf : Evbuffer)
    → IsValid outbuf
    → IsValid inbuf
    → outbuf.off ≡ 0
    → Moved realloc outbuf inbuf (swapped outbuf inbuf)
unfolding swapped
swapped-Moved realloc outbuf inbuf vo vi z =
    let told = out_of_swap outbuf inbuf z in
    let (v1, same1, r1) = exchanged outbuf inbuf vi in
    let (v2, same2, r2) = exchanged inbuf outbuf vo in
    record {
      out_valid = subst IsValid told v1;
      in_valid = v2;
      out_ok = λ _.
          ap contents (sym told)
          ∙ same1
          ∙ ap (λ xs. xs ++ contents inbuf) (sym (contents_empty vo z));
      in_ok = λ _. same2 ∙ contents_empty vo z;
      failed = λ p. cc;
      refused = λ p. cc;
      out_reported = subst (Reported outbuf) told r1;
      in_reported = r2;
    }

drain_added-Moved :
    (realloc : Realloc) (outbuf inbuf : Evbuffer)
    → IsValid inbuf
    → (r : Status × Evbuffer) → Added realloc outbuf (contents inbuf) r
    → Ensures (Moved realloc outbuf inbuf) (drain_added inbuf r)
unfolding drain_added
drain_added-Moved realloc outbuf inbuf vi (ok, out) e =
    let d = drain-Drained inbuf inbuf.off vi in
    returns (record {
      out_valid = e.valid;
      in_valid = d.valid;
      out_ok = e.stored;
      in_ok =
          λ _. d.bytes ∙ drop_all inbuf.off (contents inbuf) (omega (arith, length-contents vi));
      failed = λ p. cc;
      refused = λ p. cc;
      out_reported = e.reported;
      in_reported = d.reported;
    })
drain_added-Moved realloc outbuf inbuf vi (fail, out) e = returns (record {
  out_valid = e.valid;
  in_valid = vi;
  out_ok = λ p. cc;
  in_ok = λ p. cc;
  failed = λ _. (e.kept refl, refl);
  refused = λ _. rw (length-contents vi) at (e.refused refl);
  out_reported = e.reported;
  in_reported = Reported-refl inbuf;
})

-- For two valid buffers, `evbuffer_add_buffer` returns and leaves two valid buffers: with 0 the
-- bytes of `inbuf` stand behind those of `outbuf` and `inbuf` is empty; with -1 the bytes of
-- `outbuf` and all of `inbuf` are unchanged; -1 is returned only where the total exceeds
-- `size_max` or `realloc` refused a size; each callback is told once if its buffer's length
-- changed and not otherwise.
pub add_buffer-Moved :
    (realloc : Realloc) (outbuf inbuf : Evbuffer)
    → IsValid outbuf
    → IsValid inbuf
    → Ensures (Moved realloc outbuf inbuf) (add_buffer realloc outbuf inbuf)
unfolding add_buffer
add_buffer-Moved realloc outbuf inbuf vo vi =
    Ensures-if (outbuf.off == 0)
      (λ e. returns (swapped-Moved realloc outbuf inbuf vo vi ((==_iff _ _).0 e)))
      λ _.
        Ensures-bind (add-Added realloc outbuf (contents inbuf) vo)
          (drain_added-Moved realloc outbuf inbuf vi)
