-- ===== src/Http/Chunks/Rounds.antt =====
-- About the rounds of `evhttp_handle_chunked_read` of http.c on whole chunks.
use study_libevent.Prelude.{
  ℕ, suc, ◌+◌, ◌^◌, ◌≤◌, ◌<◌, ◌≡◌, ◌≢◌, drop_all, Ensures-if, ap₂, refl, ap, ◌∙◌, subst, List, [],
  ◌∷◌, ◌++◌, length, length-append, Bool, true, false, Option, some, none, ltb, ltb→lt, ◌==◌,
  Ensures, Ensures-bind, returns, arith, All, take, drop,
}
use study_libevent.Prelude.Memory.{take-append_self}
use study_libevent.Evbuffer.{Evbuffer, Realloc, contents, drain}
use study_libevent.Evbuffer.Valid.{IsValid, length-contents}
use study_libevent.Evbuffer.Add.{Grants, drain-Drained}
use study_libevent.Evbuffer.Lines.{is_eol}
use study_libevent.Http.{c_string, strtoll, print_hex, is_xdigit}
use study_libevent.Http.Text.{IsDigit, print_hex-IsDigit, print_hex_some, strtoll-print_hex}
use study_libevent.Http.Lines.{NotEol, NotNul, NextLine, readline-NextLine, c_string_whole}
use study_libevent.Http.Output.{add-Puts}
use study_libevent.Http.Chunks.{
  Request, Chunked, int_length, SizeLine, of_size, size_line, checked_size, ends_badly,
  call_chunk_cb, complete, on_size, on_line, chunk_step, chunk_loop,
}
use study_libevent.Http.Chunks.Handled.{int_length_small}
use study_libevent.Http.Chunks.Wire.{framed}

drop-append_self : (xs ys : List ℕ) → drop (length xs) (xs ++ ys) ≡ ys
drop-append_self [] ys = refl
drop-append_self (x ∷ xs) ys = drop-append_self xs ys

pub All-map : {P Q : ℕ → Type 0} (xs : List ℕ) → ((x : ℕ) → P x → Q x) → All P xs → All Q xs
All-map [] k h = tt
All-map (x ∷ xs) k (h, hs) = (k x h, All-map xs k hs)

pub digit-NotEol : (c : ℕ) → IsDigit c → NotEol c
unfolding is_xdigit is_eol
digit-NotEol c h = ground arith

digit-NotNul : (c : ℕ) → IsDigit c → NotNul c
unfolding is_xdigit
digit-NotNul c h = ground arith

size_line_of :
    (line : List ℕ) (n : ℕ) → line ≢ [] → strtoll line ≡ (some n, []) → size_line line ≡ of_size n
unfolding size_line checked_size ends_badly
size_line_of [] n ne e = absurd (ne refl)
size_line_of (c ∷ cs) n ne e = rw e refl

-- The line that the sender writes says the size.
pub size_line-print_hex : (n : ℕ) → n < 2 ^ 32 → size_line (c_string (print_hex 8 n)) ≡ of_size n
size_line-print_hex n h =
    ap size_line (
      c_string_whole (print_hex 8 n) (All-map (print_hex 8 n) digit-NotNul (print_hex-IsDigit 8 n)))
    ∙ size_line_of (print_hex 8 n) n (print_hex_some 7 n) (strtoll-print_hex n h)

-- What the user sees: the bytes in `input_buffer` and the calls of the callback.
abbrev pub View : Type 0
View = List ℕ × List (ℕ × List ℕ)

-- What the user is to see of further chunks: the bytes put together without a callback, and one
-- call for each chunk with it.
abbrev pub received : Option ℕ → View → List (List ℕ) → View
received cb v [] = v
received none (bytes, calls) (d ∷ ds) = received none (bytes ++ d, calls) ds
received (some k) (bytes, calls) (d ∷ ds) = received (some k) ([], calls ++ (k, bytes ++ d) ∷ []) ds

-- A chunk has at least the two line ends, a digit, and its bytes.
pub length_lower : (d rest : List ℕ) → 4 + length d + length rest ≤ length (framed d rest)
length_lower d rest = omega (
  arith,
  length-append (print_hex 8 (length d)) (13 ∷ 10 ∷ (d ++ 13 ∷ 10 ∷ rest)),
  length-append d (13 ∷ 10 ∷ rest),
)

module _ (cb : Option ℕ) where
  -- The reader between two rounds: the size it is to read, what the user sees, and what is left.
  pub record At (n : Option ℕ) (v : View) (bytes : List ℕ) (req : Request) (buf : Evbuffer)
      : Type 0 where
    pub buf_valid : IsValid buf
    pub input_valid : IsValid req.input_buffer
    pub ntoread : req.ntoread ≡ n
    pub same_cb : req.chunk_cb ≡ cb
    pub input : contents req.input_buffer ≡ v.0
    pub calls : req.chunks ≡ v.1
    pub left : contents buf ≡ bytes
    pub fits : length v.0 + length bytes < 2 ^ 31

  pub At-off :
      {n : Option ℕ} {v : View} {bytes : List ℕ} {req : Request} {buf : Evbuffer}
      → At n v bytes req buf
      → buf.off ≡ length bytes
  At-off at = omega (arith, length-contents at.buf_valid, ap length at.left)

module _ (malloc : ℕ → ℕ → Bool) (realloc : ℕ → Realloc) (memory : (k n : ℕ) → malloc k n ≡ true)
    (grants : (k : ℕ) → Grants (realloc k)) (cb : Option ℕ) where
  -- A round of the loop at a buffer that is not empty.
  loop_round :
      (fuel k : ℕ) (n : Option ℕ) (v : View) (bytes : List ℕ) (req : Request) (buf : Evbuffer)
      → At cb n v bytes req buf
      → 0 < length bytes
      → chunk_loop (suc fuel) k malloc realloc req buf
        ≡ chunk_step (chunk_loop fuel (suc k) malloc realloc) (malloc k) (realloc k) req buf n
  unfolding chunk_loop
  loop_round fuel k n v bytes req buf at nonempty =
      let whole = int_length_small buf.off (omega (arith, At-off cb at, at.fits)) in
      let test : (int_length buf.off == 0) ≡ false = rw whole (ground (arith, At-off cb at)) in
      rw (test, at.ntoread) refl

  -- The line `line` is read, and the loop goes on as `on_size` says.
  pub line_round :
      (Q : Chunked → Type 0) (fuel k : ℕ) (v : View) (line rest : List ℕ) (s : SizeLine)
      (req : Request) (buf : Evbuffer)
      → At cb none v (line ++ 13 ∷ 10 ∷ rest) req buf
      → All NotEol line
      → size_line (c_string line) ≡ s
      → ((buf' : Evbuffer)
          → At cb none v rest req buf'
          → Ensures Q (on_size (chunk_loop fuel (suc k) malloc realloc) req buf' s))
      → Ensures Q (chunk_loop (suc fuel) k malloc realloc req buf)
  unfolding on_line
  line_round Q fuel k v line rest s req buf at clean says next =
      let size = length-append line (13 ∷ 10 ∷ rest) in
      rw (loop_round fuel k none v (line ++ 13 ∷ 10 ∷ rest) req buf at (omega (arith, size))) (
        unfold chunk_step in
        Ensures-bind
          (readline-NextLine (malloc k) buf line rest (memory k) at.buf_valid
            (omega (arith, At-off cb at, at.fits)) at.left clean)
          λ r p. go r p)
    where
      go :
          (r : Option (List ℕ) × Evbuffer)
          → NextLine line rest r
          → Ensures Q (on_line (chunk_loop fuel (suc k) malloc realloc) req r)
      go (none, c) p = absurd cc
      go (some l, c) p =
          let same : l ≡ line = cc in
          rw (same, says)
            (next c (record {
              buf_valid = p.valid;
              input_valid = at.input_valid;
              ntoread = at.ntoread;
              same_cb = at.same_cb;
              input = at.input;
              calls = at.calls;
              left = p.left;
              fits = omega (arith, at.fits, length-append line (13 ∷ 10 ∷ rest));
            }))

  -- The callback's call.
  called :
      (c : Option ℕ) (bytes d rest : List ℕ) (log : List (ℕ × List ℕ)) (req : Request)
      (buf : Evbuffer)
      → c ≡ cb
      → At cb none (bytes ++ d, log) rest req buf
      → At cb none (received c (bytes, log) (d ∷ [])) rest (call_chunk_cb req c) buf
  unfolding call_chunk_cb
  called none bytes d rest log req buf e at = at
  called (some k) bytes d rest log req buf e at =
      let dr = drain-Drained req.input_buffer req.input_buffer.off at.input_valid in
      record {
        buf_valid = at.buf_valid;
        input_valid = dr.valid;
        ntoread = at.ntoread;
        same_cb = at.same_cb;
        input =
            dr.bytes
            ∙ drop_all req.input_buffer.off (contents req.input_buffer)
                (omega (arith, length-contents at.input_valid));
        calls = rw (at.calls, at.input) refl;
        left = at.left;
        fits = omega (arith, at.fits, length-append bytes d);
      }

  -- A chunk is completed.
  complete-At :
      (k : ℕ) (v : View) (d rest : List ℕ) (req : Request) (buf : Evbuffer)
      → At cb (some (length d)) v (d ++ rest) req buf
      → Ensures
          (λ r. At cb none (received cb v (d ∷ [])) rest r.0 r.1)
          (complete (realloc k) req buf (length d))
  unfolding complete
  complete-At k (bytes, log) d rest req buf at =
      let front : take (length d) (contents buf) ≡ d =
        ap (take (length d)) at.left ∙ take-append_self d rest in
      let room = length-append d rest in
      Ensures-bind
        (add-Puts (realloc k) req.input_buffer (take (length d) (contents buf)) (grants k)
          at.input_valid
          (omega (
            arith,
            ap length front,
            at.fits,
            room,
            length-contents at.input_valid,
            ap length at.input,
          )))
        λ r p.
          let dr = drain-Drained buf (length d) at.buf_valid in
          let req' : Request = record req { input_buffer = r.1; ntoread = none } in
          returns (
            subst
              (λ c.
                At cb none (received c (bytes, log) (d ∷ [])) rest (call_chunk_cb req' req.chunk_cb)
                  (drain buf (length d)))
              at.same_cb
              (called req.chunk_cb bytes d rest log req' (drain buf (length d)) at.same_cb (record {
                buf_valid = dr.valid;
                input_valid = p.valid;
                ntoread = refl;
                same_cb = at.same_cb;
                input = p.stored ∙ ap₂ (λ x y. x ++ y) at.input front;
                calls = at.calls;
                left = dr.bytes ∙ ap (drop (length d)) at.left ∙ drop-append_self d rest;
                fits = omega (arith, at.fits, room, length-append bytes d);
              })))

  pub data_round :
      (Q : Chunked → Type 0) (fuel k : ℕ) (v : View) (d rest : List ℕ) (req : Request)
      (buf : Evbuffer)
      → At cb (some (length d)) v (d ++ rest) req buf
      → 0 < length d
      → ((req' : Request) (buf' : Evbuffer)
          → At cb none (received cb v (d ∷ [])) rest req' buf'
          → Ensures Q (chunk_loop fuel (suc k) malloc realloc req' buf'))
      → Ensures Q (chunk_loop (suc fuel) k malloc realloc req buf)
  data_round Q fuel k v d rest req buf at nonempty next =
      let size = length-append d rest in
      let whole = int_length_small buf.off (omega (arith, At-off cb at, at.fits)) in
      rw (loop_round fuel k (some (length d)) v (d ++ rest) req buf at (omega (arith, size))) (
        unfold chunk_step in
        Ensures-if (ltb (int_length buf.off) (length d))
          (λ t. absurd (short whole t (At-off cb at) size))
          λ _. Ensures-bind (complete-At k v d rest req buf at) λ r at'. next r.0 r.1 at')
    where
      short :
          int_length buf.off ≡ buf.off
          → ltb (int_length buf.off) (length d) ≡ true
          → buf.off ≡ length (d ++ rest)
          → length (d ++ rest) ≡ length d + length rest
          → ⊥
      short whole t off parts = omega (arith, ltb→lt (int_length buf.off) (length d) t)
