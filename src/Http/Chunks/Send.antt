-- ===== src/Http/Chunks/Send.antt =====
-- About `evhttp_send_reply_chunk` and `evhttp_send_reply_end` of http.c.
use study_libevent.Prelude.{
  ℕ, ◌+◌, ◌%◌, ◌^◌, ◌≤◌, ◌<◌, ◌≡◌, refl, sym, ap, ◌∙◌, List, [], ◌∷◌, ◌++◌, append_assoc, subst,
  Bool, false, Option, none, append-nil, map, length, length-append, true, false, some, none, Run,
  done, ◌>>=◌, Ensures, Ensures-bind, Ensures-map, returns, arith, All,
}
use study_libevent.Evbuffer.{add_buffer, Evbuffer, Realloc, size_max, contents}
use study_libevent.Evbuffer.Valid.{IsValid, length-contents}
use study_libevent.Evbuffer.Add.{Grants}
use study_libevent.Http.{print_hex}
use study_libevent.Http.Text.{length-print_hex}
use study_libevent.Http.Output.{
  Puts, Puts-off, Puts-trans, add-Puts, add_vprintf-Puts, add_buffer-Puts,
}
use study_libevent.Http.Chunks.{
  WriteCb, Reply, send_done, chunk_head, chunk_tail, send_reply_chunk, send_reply_end, write_buffer,
}
use study_libevent.Events.{Env}
use study_libevent.Events.Reserve.{IsModest}
use study_libevent.Http.Write.Scheduled.{IsReady, write_event-IsReady}
use study_libevent.Http.Chunks.Wire.{framed, wire, frames, framed_append, frames_end}

-- A reply in chunks whose connection can be scheduled.
pub record IsOpen {B : Type 0} (reply : Reply B) : Type 0 where
  pub valid : IsValid reply.output_buffer
  pub chunked : reply.chunked ≡ true
  pub ready : IsReady reply.evcon

-- A reply in chunks, after `bytes` were put on its output.
record Sent {B : Type 0} (reply : Reply B) (bytes : List ℕ) (reply' : Reply B) : Type 0 where
  pub output : Puts reply.output_buffer bytes reply'.output_buffer
  pub opened : IsOpen reply'

-- The end of a reply in chunks.
pub record LastSent {B : Type 0} (reply : Reply B) (bytes : List ℕ) (reply' : Reply B)
    : Type 0 where
  pub output : Puts reply.output_buffer bytes reply'.output_buffer
  pub chunked : reply'.chunked ≡ false
  pub scheduled : reply'.cb ≡ some send_done
  pub userdone : reply'.userdone ≡ true
  pub ready : IsReady reply'.evcon

-- The buffer calls of `evhttp_send_reply_chunk`, with what follows them.
chunk_put :
    {B : Type 0} (Q : Reply B × Evbuffer → Type 0) (realloc : ℕ → Realloc) (chunked : Bool)
    (out databuf : Evbuffer) (go_on : Evbuffer → Evbuffer → Run (Reply B × Evbuffer))
    → chunked ≡ true
    → ((k : ℕ) → Grants (realloc k))
    → IsValid out
    → IsValid databuf
    → databuf.off < 2 ^ 32
    → out.off + databuf.off + 76 ≤ size_max
    → ((last inbuf : Evbuffer)
        → Puts out (framed (contents databuf) []) last
        → Ensures Q (go_on last inbuf))
    → Ensures Q (
        chunk_head realloc chunked databuf.off out >>= λ headed.
        add_buffer (realloc 3) headed databuf >>= λ filled.
        chunk_tail (realloc 4) chunked filled.1 >>= λ last. go_on last filled.2)
unfolding chunk_head chunk_tail
chunk_put Q realloc false out databuf go_on on grants v vd small fits next = absurd cc
chunk_put Q realloc true out databuf go_on on grants v vd small fits next =
    let size = length-contents vd in
    let text = print_hex 8 (databuf.off % 2 ^ 32) in
    let head = text ++ 13 ∷ 10 ∷ [] in
    let digits = length-print_hex 8 (databuf.off % 2 ^ 32) in
    let head_size = length-append text (13 ∷ 10 ∷ []) in
    let same : databuf.off % 2 ^ 32 ≡ length (contents databuf) = omega (arith, size) in
    let whole : head ++ (contents databuf ++ 13 ∷ 10 ∷ []) ≡ framed (contents databuf) [] =
      append_assoc text (13 ∷ 10 ∷ []) (contents databuf ++ 13 ∷ 10 ∷ [])
      ∙ ap (λ n. print_hex 8 n ++ 13 ∷ 10 ∷ (contents databuf ++ 13 ∷ 10 ∷ [])) same in
    Ensures-bind
      (Ensures-bind
        (add_vprintf-Puts realloc out head grants v (omega (arith, digits, head_size))
          (omega (arith, digits, head_size)))
        λ r p. returns p)
      λ headed p.
        Ensures-bind
          (add_buffer-Puts (realloc 3) headed databuf (grants 3) p.valid vd
            (omega (arith, Puts-off v p, digits, head_size)))
          λ filled q.
            Ensures-bind
              (Ensures-bind
                (add-Puts (realloc 4) filled.1 (13 ∷ 10 ∷ []) (grants 4) q.valid
                  (omega (arith, Puts-off v p, Puts-off p.valid q, digits, head_size, size)))
                λ r t. returns t)
              λ last t.
                next last filled.2
                  (subst (λ x. Puts out x last) whole (Puts-trans p (Puts-trans q t)))

module _ {B : Type 0} (env : Env B) (modest : IsModest env.realloc) where
  -- The event is scheduled, and the buffers stay.
  record Written (reply : Reply B) (cb : Option WriteCb) (reply' : Reply B) : Type 0 where
    pub same : reply'.output_buffer ≡ reply.output_buffer
    pub chunked : reply'.chunked ≡ reply.chunked
    pub userdone : reply'.userdone ≡ reply.userdone
    pub told : reply'.cb ≡ cb
    pub ready : IsReady reply'.evcon

  write_buffer-Written :
      (reply : Reply B) (cb : Option WriteCb)
      → IsReady reply.evcon
      → Ensures (Written reply cb) (write_buffer env reply cb)
  unfolding write_buffer
  write_buffer-Written reply cb ready =
      Ensures-bind (write_event-IsReady env modest reply.evcon ready) λ c ready'.
        returns
          (record { same = refl; chunked = refl; userdone = refl; told = refl; ready = ready' })

  -- The call puts the chunk on the output and schedules it.
  send_reply_chunk-Sent :
      (realloc : ℕ → Realloc) (reply : Reply B) (databuf : Evbuffer)
      → ((k : ℕ) → Grants (realloc k))
      → IsOpen reply
      → IsValid databuf
      → databuf.off < 2 ^ 32
      → reply.output_buffer.off + databuf.off + 76 ≤ size_max
      → Ensures
          (λ (r : Reply B × Evbuffer). Sent reply (framed (contents databuf) []) r.0)
          (send_reply_chunk env realloc reply databuf)
  unfolding send_reply_chunk
  send_reply_chunk-Sent realloc reply databuf grants o vd small fits =
      chunk_put (λ r. Sent reply (framed (contents databuf) []) r.0) realloc reply.chunked
        reply.output_buffer databuf _ o.chunked grants o.valid vd small fits
        λ last inbuf p. Ensures-bind (write_buffer-Written _ none o.ready) λ w d. returns (record {
          output = subst (Puts reply.output_buffer (framed (contents databuf) [])) (sym d.same) p;
          opened = record {
            valid = rw d.same p.valid;
            chunked = d.chunked ∙ o.chunked;
            ready = d.ready;
          };
        })

  send_reply_end-LastSent :
      (realloc : Realloc) (reply : Reply B)
      → Grants realloc
      → IsOpen reply
      → reply.output_buffer.off + 5 ≤ size_max
      → Ensures (LastSent reply (wire [])) (send_reply_end env realloc reply)
  unfolding send_reply_end
  send_reply_end-LastSent realloc reply grants o fits = rw o.chunked (
      Ensures-bind (add-Puts realloc reply.output_buffer (wire []) grants o.valid fits) λ r p.
        Ensures-bind (write_buffer-Written _ (some send_done) o.ready) λ w d. returns (record {
          output = subst (Puts reply.output_buffer (wire [])) (sym d.same) p;
          chunked = refl;
          scheduled = d.told;
          userdone = d.userdone;
          ready = d.ready;
        }))

-- The calls of `evhttp_send_reply_chunk` for some buffers, in order.
pub send_chunks : {B : Type 0} → Env B → (ℕ → Realloc) → Reply B → List Evbuffer → Run (Reply B)
send_chunks env realloc reply [] = done reply
send_chunks env realloc reply (b ∷ bs) =
    send_reply_chunk env realloc reply b >>= λ r. send_chunks env realloc r.0 bs

-- A valid buffer with at least one byte, and fewer than 2 ^ 31.
pub record IsData (b : Evbuffer) : Type 0 where
  pub valid : IsValid b
  pub some_bytes : 0 < b.off
  pub small : b.off < 2 ^ 31

module _ {B : Type 0} (env : Env B) (modest : IsModest env.realloc) where
  send_chunks-Sent :
      (realloc : ℕ → Realloc) (reply : Reply B) (bs : List Evbuffer)
      → ((k : ℕ) → Grants (realloc k))
      → IsOpen reply
      → All IsData bs
      → reply.output_buffer.off + length (frames (map contents bs)) + 76 ≤ size_max
      → Ensures (Sent reply (frames (map contents bs))) (send_chunks env realloc reply bs)
  unfolding send_chunks
  send_chunks-Sent realloc reply [] grants o good fits = returns (record {
    output = record { valid = o.valid; stored = sym (append-nil (contents reply.output_buffer)) };
    opened = o;
  })
  send_chunks-Sent realloc reply (b ∷ bs) grants o (one, more) fits =
      let d = contents b in
      let rest = frames (map contents bs) in
      let size = length-contents one.valid in
      let split : length (framed d rest) ≡ length (framed d []) + length rest =
        ap length (sym (framed_append d [] rest)) ∙ length-append (framed d []) rest in
      let data_size : b.off ≤ length (framed d []) = omega (
        arith,
        size,
        length-append (print_hex 8 (length d)) (13 ∷ 10 ∷ (d ++ 13 ∷ 10 ∷ [])),
        length-append d (13 ∷ 10 ∷ []),
      ) in
      Ensures-bind
        (send_reply_chunk-Sent env modest realloc reply b grants o one.valid
          (omega (arith, one.small)) (omega (arith, split, data_size)))
        λ r t.
          Ensures-map
            (send_chunks-Sent realloc r.0 bs grants t.opened more
              (omega (arith, split, Puts-off o.valid t.output)))
            λ r' u. record {
              output =
                  subst (λ x. Puts reply.output_buffer x r'.output_buffer) (framed_append d [] rest)
                    (Puts-trans t.output u.output);
              opened = u.opened;
            }

  -- The chunks, the last chunk and the empty line stand on the output, and are scheduled.
  pub send_chunks-LastSent :
      (realloc : ℕ → Realloc) (reply : Reply B) (bs : List Evbuffer)
      → ((k : ℕ) → Grants (realloc k))
      → IsOpen reply
      → All IsData bs
      → reply.output_buffer.off + length (frames (map contents bs)) + 76 ≤ size_max
      → Ensures
          (λ (r : Reply B). LastSent reply (wire (map contents bs)) r)
          (send_chunks env realloc reply bs >>= send_reply_end env (realloc 0))
  send_chunks-LastSent realloc reply bs grants o good fits =
      Ensures-bind (send_chunks-Sent realloc reply bs grants o good fits) λ r t.
        Ensures-map
          (send_reply_end-LastSent env modest (realloc 0) r (grants 0) t.opened
            (omega (arith, Puts-off o.valid t.output)))
          λ r' e. record {
            output =
                subst (λ x. Puts reply.output_buffer x r'.output_buffer)
                  (frames_end (map contents bs)) (Puts-trans t.output e.output);
            chunked = e.chunked;
            scheduled = e.scheduled;
            userdone = e.userdone;
            ready = e.ready;
          }
