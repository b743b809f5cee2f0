-- ===== src/Http/Chunks/Handled.antt =====
-- About `evhttp_handle_chunked_read` of http.c on any input.
use study_libevent.Prelude.{
  ℕ, zero, suc, ◌+◌, ◌*◌, ◌^◌, ◌-◌, length-drop, ◌<◌, ◌≡◌, ◌≢◌, refl, sym, ap, ◌∙◌, subst, List, [],
  ◌∷◌, Bool, true, false, Option, none, some, ltb, ltb→lt, ◌==◌, ==_iff, All, length, take, Run,
  Ensures, Ensures-bind, Ensures-if, returns, inl, inr, ◌⊎◌, arith,
}
use study_libevent.Evbuffer.{Evbuffer, Realloc, contents, drain}
use study_libevent.Evbuffer.Valid.{IsValid, length-contents}
use study_libevent.Evbuffer.Add.{add-Added, drain-Drained}
use study_libevent.Evbuffer.Lines.Readline.{LineRead, readline-LineRead}
use study_libevent.Http.{all_data_read, more_data_expected, c_string}
use study_libevent.Http.Lines.{NotEol, EndsWith, EndsWith-trans, EndsWith-drop, line_taken}
use study_libevent.Http.Chunks.{
  Request, Chunked, int_length, SizeLine, blank, bad, of_size, size_line, call_chunk_cb, complete,
  on_size, on_line, chunk_step, chunk_loop, handle_chunked_read,
}

-- `int_length` is the length of a buffer that an `int` can count.
pub int_length_small : (off : ℕ) → off < 2 ^ 31 → int_length off ≡ off
unfolding int_length
int_length_small off h = ground arith

-- What the reader waits for: a line end, or the rest of a chunk.
abbrev pub Waits : (ℕ → ℕ → Bool) → Option ℕ → Evbuffer → Type 0
Waits malloc none buf = All NotEol (contents buf) ⊎ ((k : ℕ) × (n : ℕ) × (malloc k n ≡ false))
Waits malloc (some n) buf = buf.off < n

-- Where the reader stands between two rounds, for the bytes `bytes` at its start.
pub record Reading (chunk_cb : Option ℕ) (bytes : List ℕ) (req : Request) (buf : Evbuffer)
    : Type 0 where
  pub buf_valid : IsValid buf
  pub input_valid : IsValid req.input_buffer
  pub rest : EndsWith bytes (contents buf)
  pub same_cb : req.chunk_cb ≡ chunk_cb
  pub short : buf.off < 2 ^ 31

pub record Handled (malloc : ℕ → ℕ → Bool) (chunk_cb : Option ℕ) (bytes : List ℕ) (r : Chunked)
    : Type 0 where
  pub state : Reading chunk_cb bytes r.1 r.2
  pub on_last : r.0 ≡ all_data_read → r.1.ntoread ≡ some 0
  pub on_more : r.0 ≡ more_data_expected → Waits malloc r.1.ntoread r.2
  pub pending : r.0 ≢ all_data_read → r.1.ntoread ≢ some 0

-- The rounds left: one more behind a size that was read.
abbrev budget : Option ℕ → ℕ → ℕ
budget none off = 2 * off
budget (some n) off = 2 * off + 1

module _ (malloc : ℕ → ℕ → Bool) (realloc : ℕ → Realloc) (chunk_cb : Option ℕ)
    (bytes : List ℕ) where
  -- A continuation that ends well on what costs less than `fuel`.
  abbrev Continues : ℕ → (Request → Evbuffer → Run Chunked) → Type 0
  Continues fuel go_on =
      (req : Request) (buf : Evbuffer)
      → Reading chunk_cb bytes req buf
      → req.ntoread ≢ some 0
      → budget req.ntoread buf.off < fuel
      → Ensures (Handled malloc chunk_cb bytes) (go_on req buf)

  on_size-Handled :
      (fuel : ℕ) (go_on : Request → Evbuffer → Run Chunked)
      → Continues fuel go_on
      → (req : Request) (buf : Evbuffer) → Reading chunk_cb bytes req buf
      → req.ntoread ≡ none
      → 2 * buf.off + 1 < fuel
      → (s : SizeLine) → Ensures (Handled malloc chunk_cb bytes) (on_size go_on req buf s)
  unfolding on_size
  on_size-Handled fuel go_on go req buf at free cost blank =
      go req buf at (λ p. cc) (rw free (omega arith))
  on_size-Handled fuel go_on go req buf at free cost bad =
      returns (record { state = at; on_last = λ p. cc; on_more = λ p. cc; pending = λ _ p. cc })
  on_size-Handled fuel go_on go req buf at free cost (of_size n) =
      let at' : Reading chunk_cb bytes (record req { ntoread = some n }) buf = record {
        buf_valid = at.buf_valid;
        input_valid = at.input_valid;
        rest = at.rest;
        same_cb = at.same_cb;
        short = at.short;
      } in
      Ensures-if (n == 0)
        (λ z. returns (record {
          state = at';
          on_last = λ _. ap some ((==_iff n 0).0 z);
          on_more = λ p. cc;
          pending = λ p _. absurd (p refl);
        }))
        λ z. go _ buf at' (λ p. absurd (nonzero z p)) cost
    where
      nonzero : (n == 0) ≡ false → some n ≡ some 0 → ⊥
      nonzero z p = let e : n ≡ 0 = cc in ground arith

  on_line-Handled :
      (fuel k : ℕ) (go_on : Request → Evbuffer → Run Chunked)
      → Continues fuel go_on
      → (req : Request) (buf : Evbuffer) → Reading chunk_cb bytes req buf
      → req.ntoread ≡ none
      → 2 * buf.off < suc fuel
      → (r : Option (List ℕ) × Evbuffer) → LineRead (malloc k) buf r
      → Ensures (Handled malloc chunk_cb bytes) (on_line go_on req r)
  unfolding on_line
  on_line-Handled fuel k go_on go req buf at free cost (none, c) p =
      let (same, why) = p.on_null refl in
      returns (record {
        state = subst (Reading chunk_cb bytes req) (sym same) at;
        on_last = λ p. cc;
        on_more = λ _. rw (free, same) (reason why);
        pending = λ _ p. cc;
      })
    where
      reason : All NotEol (contents buf) ⊎ ((n : ℕ) × (malloc k n ≡ false)) → Waits malloc none buf
      reason (inl all) = inl all
      reason (inr (n, null)) = inr (k, n, null)
  on_line-Handled fuel k go_on go req buf at free cost (some line, c) p =
      let (less, left, clean) = line_taken at.buf_valid p line refl in
      on_size-Handled fuel go_on go req c
        (record {
          buf_valid = p.valid;
          input_valid = at.input_valid;
          rest = EndsWith-trans at.rest left;
          same_cb = at.same_cb;
          short = omega (arith, at.short);
        })
        free (omega arith) (size_line (c_string line))

  call_chunk_cb-Reading :
      (req : Request) (buf : Evbuffer) (cb : Option ℕ)
      → Reading chunk_cb bytes req buf
      → Reading chunk_cb bytes (call_chunk_cb req cb) buf
        × ((call_chunk_cb req cb).ntoread ≡ req.ntoread)
  unfolding call_chunk_cb
  call_chunk_cb-Reading req buf none at = (at, refl)
  call_chunk_cb-Reading req buf (some k) at = (
    record {
      buf_valid = at.buf_valid;
      input_valid = (drain-Drained req.input_buffer req.input_buffer.off at.input_valid).valid;
      rest = at.rest;
      same_cb = at.same_cb;
      short = at.short;
    },
    refl,
  )

  -- A completed chunk of `n` bytes.
  complete-Reading :
      (answer : Realloc) (req : Request) (buf : Evbuffer) (n : ℕ)
      → Reading chunk_cb bytes req buf
      → Ensures
          (λ r. Reading chunk_cb bytes r.0 r.1 × (r.0.ntoread ≡ none) × (r.1.off ≡ buf.off - n))
          (complete answer req buf n)
  unfolding complete
  complete-Reading answer req buf n at =
      Ensures-bind (add-Added answer req.input_buffer (take n (contents buf)) at.input_valid) λ r a.
        let d = drain-Drained buf n at.buf_valid in
        let left : (drain buf n).off ≡ buf.off - n = omega (
          arith,
          length-contents d.valid,
          length-contents at.buf_valid,
          ap length d.bytes,
          length-drop n (contents buf),
        ) in
        let (at', free) =
          call_chunk_cb-Reading (record req { input_buffer = r.1; ntoread = none }) (drain buf n)
            req.chunk_cb
            (record {
              buf_valid = d.valid;
              input_valid = a.valid;
              rest = rw d.bytes (EndsWith-trans at.rest (EndsWith-drop n (contents buf)));
              same_cb = at.same_cb;
              short = omega (arith, left, at.short);
            }) in
        returns (at', free, left)

  chunk_step-Handled :
      (fuel k : ℕ) (go_on : Request → Evbuffer → Run Chunked)
      → Continues fuel go_on
      → (req : Request) (buf : Evbuffer) → Reading chunk_cb bytes req buf
      → (n : Option ℕ) → req.ntoread ≡ n
      → n ≢ some 0
      → budget n buf.off < suc fuel
      → Ensures (Handled malloc chunk_cb bytes) (chunk_step go_on (malloc k) (realloc k) req buf n)
  unfolding chunk_step
  chunk_step-Handled fuel k go_on go req buf at none free ne cost =
      Ensures-bind (readline-LineRead (malloc k) buf at.buf_valid (omega (arith, at.short)))
        (on_line-Handled fuel k go_on go req buf at free cost)
  chunk_step-Handled fuel k go_on go req buf at (some n) free ne cost =
      let whole = int_length_small buf.off at.short in
      Ensures-if (ltb (int_length buf.off) n)
        (λ t. returns (record {
          state = at;
          on_last = λ p. cc;
          on_more = λ _. rw free (ltb→lt buf.off n (rw whole at t));
          pending = λ _ p. ne (sym free ∙ p);
        }))
        λ t.
          Ensures-bind (complete-Reading (realloc k) req buf n at)
            λ r (at', none', left). go r.0 r.1 at' (λ p. cc) (rw none' (omega (arith, left)))

  chunk_loop-Handled : (fuel k : ℕ) → Continues fuel (chunk_loop fuel k malloc realloc)
  unfolding chunk_loop
  chunk_loop-Handled zero k req buf at ne cost = absurd (omega arith)
  chunk_loop-Handled (suc fuel) k req buf at ne cost =
      let whole = int_length_small buf.off at.short in
      Ensures-if (int_length buf.off == 0)
        (λ z. returns (record {
          state = at;
          on_last = λ p. cc;
          on_more = λ _. nothing (rw whole at z) req.ntoread refl;
          pending = λ _. ne;
        }))
        λ z.
          chunk_step-Handled fuel k _ (chunk_loop-Handled fuel (suc k)) req buf at req.ntoread refl
            ne cost
    where
      nothing : (buf.off == 0) ≡ true → (n : Option ℕ) → req.ntoread ≡ n → Waits malloc n buf
      nothing z none e =
          inl (subst (All NotEol) (sym (is_nil z (contents buf) (length-contents at.buf_valid))) tt)
        where
          is_nil : (buf.off == 0) ≡ true → (xs : List ℕ) → length xs ≡ buf.off → xs ≡ []
          is_nil t [] e = refl
          is_nil t (x ∷ xs) e = absurd (ground arith)
      nothing z (some zero) e = absurd (ne e)
      nothing z (some (suc n)) e = ground arith

  -- For a valid buffer of fewer than 2 ^ 31 bytes that is the end of `bytes`, a valid input buffer
  -- and a size that is not 0: `evhttp_handle_chunked_read` returns, whatever the bytes are and
  -- whatever memory is refused. Both buffers stay valid, the first holds the end of `bytes`, and
  -- the callback is the same. With ALL_DATA_READ the size read is 0; otherwise it is not, and with
  -- MORE_DATA_EXPECTED the buffer holds fewer bytes than the size that was read or, with none read,
  -- no line end, or `malloc` refused a size.
  pub handle_chunked_read-Handled :
      (req : Request) (buf : Evbuffer)
      → Reading chunk_cb bytes req buf
      → req.ntoread ≢ some 0
      → Ensures (Handled malloc chunk_cb bytes) (handle_chunked_read malloc realloc req buf)
  unfolding handle_chunked_read
  handle_chunked_read-Handled req buf at ne =
      chunk_loop-Handled (2 * buf.off + 2) 0 req buf at ne (cost req.ntoread)
    where
      cost : (n : Option ℕ) → budget n buf.off < 2 * buf.off + 2
      cost none = omega arith
      cost (some n) = omega arith
