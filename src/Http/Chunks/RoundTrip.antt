-- ===== src/Http/Chunks/RoundTrip.antt =====
-- About `evhttp_handle_chunked_read` of http.c on what the sender of chunks wrote.
use study_libevent.Prelude.{
  ℕ, zero, suc, ◌+◌, ◌*◌, ◌-◌, ◌%◌, ◌^◌, ◌≤◌, ◌<◌, ◌≡◌, ◌≢◌, drop_all, Ensures-if, ap₂, refl, sym,
  ap, ◌∙◌, subst, List, [], ◌∷◌, ◌++◌, append_assoc, map, length, length-append, Bool, true, false,
  Option, some, none, ltb, ltb→lt, ◌==◌, if◌then◌else◌, Run, done, ◌>>=◌, Ensures, Ensures-bind,
  Ensures-map, returns, arith, All, take, drop, ==_iff, Bool-cases, inl, inr,
}
use study_libevent.Evbuffer.{Evbuffer, Realloc, contents}
use study_libevent.Evbuffer.Valid.{IsValid, length-contents}
use study_libevent.Evbuffer.Add.{Grants}
use study_libevent.Evbuffer.Lines.{is_eol}
use study_libevent.Http.{MessageRead, all_data_read, c_string, strtoll, print_hex, is_xdigit}
use study_libevent.Http.Text.{print_hex-IsDigit}
use study_libevent.Http.Chunks.{
  Request, Chunked, blank, of_size, size_line, on_size, chunk_loop, handle_chunked_read, Reply,
  send_reply_end,
}
use study_libevent.Events.{Env}
use study_libevent.Events.Reserve.{IsModest}
use study_libevent.Http.Chunks.Wire.{wire, frames, frames_end}
use study_libevent.Http.Chunks.Send.{send_chunks, IsData, IsOpen, send_chunks-LastSent}
use study_libevent.Http.Chunks.Rounds.{
  All-map, digit-NotEol, size_line-print_hex, length_lower, View, received, At, line_round,
  data_round,
}

module _ (cb : Option ℕ) where
  -- The end of a body: the size 0 is read, and an empty line is left.
  pub record Delivered (v : View) (r : Chunked) : Type 0 where
    pub status : r.0 ≡ all_data_read
    pub state : At cb (some 0) v (13 ∷ 10 ∷ []) r.1 r.2

module _ (malloc : ℕ → ℕ → Bool) (realloc : ℕ → Realloc) (memory : (k n : ℕ) → malloc k n ≡ true)
    (grants : (k : ℕ) → Grants (realloc k)) (cb : Option ℕ) where
  last_chunk :
      (fuel k : ℕ) (v : View) (req : Request) (buf : Evbuffer)
      → At cb none v (wire []) req buf
      → Ensures (Delivered cb v) (chunk_loop (suc fuel) k malloc realloc req buf)
  unfolding on_size print_hex study_libevent.Http.hex_digit
  last_chunk fuel k v req buf at =
      line_round malloc realloc memory grants cb (Delivered cb v) fuel k v (48 ∷ []) (13 ∷ 10 ∷ [])
        (of_size 0) req buf at (unfold is_eol in (refl, tt)) (size_line-print_hex 0 (omega arith))
        λ buf' at'. returns (record {
          status = refl;
          state = record {
            buf_valid = at'.buf_valid;
            input_valid = at'.input_valid;
            ntoread = refl;
            same_cb = at'.same_cb;
            input = at'.input;
            calls = at'.calls;
            left = at'.left;
            fits = at'.fits;
          };
        })

  -- The line of a size that is not 0.
  size_round :
      (Q : Chunked → Type 0) (fuel k n : ℕ) (v : View) (rest : List ℕ) (req : Request)
      (buf : Evbuffer)
      → At cb none v (print_hex 8 n ++ 13 ∷ 10 ∷ rest) req buf
      → 0 < n
      → n < 2 ^ 32
      → ((req' : Request) (buf' : Evbuffer)
          → At cb (some n) v rest req' buf'
          → Ensures Q (chunk_loop fuel (suc k) malloc realloc req' buf'))
      → Ensures Q (chunk_loop (suc fuel) k malloc realloc req buf)
  unfolding on_size
  size_round Q fuel k n v rest req buf at some_bytes small next =
      line_round malloc realloc memory grants cb Q fuel k v (print_hex 8 n) rest (of_size n) req buf
        at (All-map (print_hex 8 n) digit-NotEol (print_hex-IsDigit 8 n))
        (size_line-print_hex n small)
        λ buf' at'.
          Ensures-if (n == 0) (λ z. absurd (ground arith))
            λ _.
              next (record req { ntoread = some n }) buf'
                (record {
                  buf_valid = at'.buf_valid;
                  input_valid = at'.input_valid;
                  ntoread = refl;
                  same_cb = at'.same_cb;
                  input = at'.input;
                  calls = at'.calls;
                  left = at'.left;
                  fits = at'.fits;
                })

  received_cons :
      (c : Option ℕ) (v : View) (d : List ℕ) (ds : List (List ℕ))
      → received c (received c v (d ∷ [])) ds ≡ received c v (d ∷ ds)
  received_cons none v d ds = refl
  received_cons (some k) v d ds = refl

  -- The chunks are read one by one.
  wire-Delivered :
      (ds : List (List ℕ)) (fuel k : ℕ) (v : View) (req : Request) (buf : Evbuffer)
      → All (λ d. 0 < length d) ds
      → At cb none v (wire ds) req buf
      → length (wire ds) ≤ fuel
      → Ensures (Delivered cb (received cb v ds)) (chunk_loop fuel k malloc realloc req buf)
  unfolding on_size study_libevent.Prelude.Position.position
  wire-Delivered [] zero k v req buf h at enough = absurd (omega arith)
  wire-Delivered [] (suc fuel) k v req buf h at enough = last_chunk fuel k v req buf at
  wire-Delivered (d ∷ ds) zero k v req buf h at enough =
      absurd (omega (arith, length_lower d (wire ds)))
  wire-Delivered (d ∷ ds) (suc zero) k v req buf h at enough =
      absurd (omega (arith, length_lower d (wire ds)))
  wire-Delivered (d ∷ ds) (suc (suc zero)) k v req buf h at enough =
      absurd (omega (arith, length_lower d (wire ds)))
  wire-Delivered (d ∷ ds) (suc (suc (suc fuel))) k v req buf (h, hs) at enough =
      let Q = Delivered cb (received cb v (d ∷ ds)) in
      let low = length_lower d (wire ds) in
      size_round Q (suc (suc fuel)) k (length d) v (d ++ 13 ∷ 10 ∷ wire ds) req buf at h
        (omega (arith, low, at.fits))
        λ req1 buf1 at1.
          data_round malloc realloc memory grants cb Q (suc fuel) (suc k) v d (13 ∷ 10 ∷ wire ds)
            req1 buf1 at1 h
            λ req2 buf2 at2.
              line_round malloc realloc memory grants cb Q fuel (suc (suc k))
                (received cb v (d ∷ [])) [] (wire ds) blank req2 buf2 at2 tt
                (unfold size_line c_string in refl)
                λ buf3 at3. rw (← received_cons cb v d ds) (
                  wire-Delivered ds fuel (suc (suc (suc k))) (received cb v (d ∷ [])) req2 buf3 hs
                    at3 (omega (arith, low)))

-- For a reply in chunks with a valid empty output buffer and a connection whose event belongs to a
-- valid base, is not internal, is idle or has a timeout, and gets timeouts; an event loop whose
-- `realloc` gives no block of 2 ^ 31 slots; valid buffers of at least one and fewer than 2 ^ 31
-- bytes; a reader that waits for a size, with a valid input buffer, whose bytes and the output
-- together are fewer than 2 ^ 31; and buffer memory that is never refused: the calls of
-- `evhttp_send_reply_chunk` for the buffers and of `evhttp_send_reply_end`, and then of
-- `evhttp_handle_chunked_read` on the output, return ALL_DATA_READ; the bytes of all buffers, in
-- order, stand behind the old ones of the input buffer, or, with a callback, it was called once
-- for each buffer with its bytes, the first time behind the old ones; and the empty line that ends
-- the body is left.
pub handle_chunked_read-send_chunks :
    {B : Type 0} (env : Env B) (malloc : ℕ → ℕ → Bool) (realloc : ℕ → Realloc) (reply : Reply B)
    (bs : List Evbuffer) (req : Request)
    → IsModest env.realloc
    → ((k n : ℕ) → malloc k n ≡ true)
    → ((k : ℕ) → Grants (realloc k))
    → IsOpen reply
    → contents reply.output_buffer ≡ []
    → All IsData bs
    → IsValid req.input_buffer
    → req.ntoread ≡ none
    → req.input_buffer.off + length (wire (map contents bs)) < 2 ^ 31
    → Ensures
        (Delivered req.chunk_cb
          (received req.chunk_cb (contents req.input_buffer, req.chunks) (map contents bs)))
        (send_chunks env realloc reply bs >>= send_reply_end env (realloc 0) >>= λ r.
          handle_chunked_read malloc realloc req r.output_buffer)
unfolding handle_chunked_read
handle_chunked_read-send_chunks env malloc realloc reply bs req modest memory grants o empty good vi
      free fits =
    let ds = map contents bs in
    let whole = ap length (sym (frames_end ds)) ∙ length-append (frames ds) (wire []) in
    let nothing : reply.output_buffer.off ≡ 0 =
      omega (arith, length-contents o.valid, ap length empty) in
    Ensures-bind
      (send_chunks-LastSent env modest realloc reply bs grants o good
        (omega (arith, whole, nothing)))
      λ r p.
        let out : contents r.output_buffer ≡ wire ds =
          p.output.stored ∙ ap (λ t. t ++ wire ds) empty in
        wire-Delivered malloc realloc memory grants req.chunk_cb ds (2 * r.output_buffer.off + 2) 0
          (contents req.input_buffer, req.chunks) req r.output_buffer (nonempty bs good)
          (record {
            buf_valid = p.output.valid;
            input_valid = vi;
            ntoread = free;
            same_cb = refl;
            input = refl;
            calls = refl;
            left = out;
            fits = omega (arith, length-contents vi);
          })
          (omega (arith, length-contents p.output.valid, ap length out))
  where
    nonempty : (bs : List Evbuffer) → All IsData bs → All (λ d. 0 < length d) (map contents bs)
    nonempty [] h = tt
    nonempty (b ∷ bs) (h, hs) =
        (omega (arith, length-contents h.valid, h.some_bytes), nonempty bs hs)
