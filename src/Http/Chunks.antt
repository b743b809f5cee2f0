-- ===== src/Http/Chunks.antt =====
-- `evhttp_handle_chunked_read`, `evhttp_send_reply_chunk` and `evhttp_send_reply_end` of http.c: the
-- body of a message in chunks.
--
-- `ntoread` is none where the source has a negative number. `chunk_cb` is a callback with its
-- `cb_arg`, by number; `chunks` lists the calls made of it, with the bytes of `input_buffer` at the
-- call.
pub mod Handled
pub mod Wire
pub mod Send
pub mod Rounds
pub mod RoundTrip
use study_libevent.Prelude.{
  ℕ, zero, suc, ◌+◌, ◌*◌, ◌%◌, ◌^◌, List, [], ◌∷◌, ◌++◌, Bool, true, false, Option, none, some, ltb,
  ◌==◌, if◌then◌else◌, take, Run, done, stuck, ◌>>=◌,
}
use study_libevent.Evbuffer.{Evbuffer, Realloc, contents, add, add_buffer, drain}
use study_libevent.Evbuffer.Io.{add_vprintf}
use study_libevent.Evbuffer.Lines.{readline}
use study_libevent.Events.{Env}
use study_libevent.Http.Write.{Connection, is_writing, write_event}
use study_libevent.Http.{
  MessageRead, all_data_read, more_data_expected, data_corrupted, c_string, strtoll, print_hex,
}

-- The fields of `struct evhttp_request` that the reader of chunks uses
pub record Request : Type 0 where
  pub ntoread : Option ℕ
  pub input_buffer : Evbuffer
  pub chunk_cb : Option ℕ
  pub chunks : List (ℕ × List ℕ)

abbrev pub Chunked : Type 0
Chunked = MessageRead × Request × Evbuffer

-- `int len = EVBUFFER_LENGTH(buf)`, and 0 for a negative `len`
unfoldable pub int_length : ℕ → ℕ
int_length off = let n = off % 2 ^ 32 in if ltb n (2 ^ 31) then n else 0

-- What a line says of the next chunk.
pub data SizeLine : Type 0 where
  blank bad : SizeLine
  of_size : ℕ → SizeLine

-- `*endp != '\0' && *endp != ' '`, on the string at `endp`
unfoldable pub ends_badly : List ℕ → Bool
ends_badly [] = false
ends_badly (c ∷ cs) = if c == 32 then false else true

-- What the reader makes of the number and of `endp`.
unfoldable pub checked_size : Option ℕ → List ℕ → SizeLine
checked_size none endp = bad
checked_size (some n) endp = if ends_badly endp then bad else of_size n

unfoldable pub size_line : List ℕ → SizeLine
size_line [] = blank
size_line (c ∷ cs) = let found = strtoll (c ∷ cs) in checked_size found.0 found.1

-- The call of the callback `cb`, behind which `input_buffer` is drained
pub call_chunk_cb : Request → Option ℕ → Request
call_chunk_cb req none = req
call_chunk_cb req (some k) = record req {
  chunks = req.chunks ++ (k, contents req.input_buffer) ∷ [];
  input_buffer = drain req.input_buffer req.input_buffer.off;
}

-- The completed chunk of `n` bytes; the result of `evbuffer_add` is ignored.
pub complete : Realloc → Request → Evbuffer → ℕ → Run (Request × Evbuffer)
complete realloc req buf n = add realloc req.input_buffer (take n (contents buf)) >>= λ r.
    done
      (call_chunk_cb (record req { input_buffer = r.1; ntoread = none }) req.chunk_cb, drain buf n)

-- What follows a line that says `line`, from the buffer `buf`.
pub on_size : (Request → Evbuffer → Run Chunked) → Request → Evbuffer → SizeLine → Run Chunked
on_size go_on req buf blank = go_on req buf
on_size go_on req buf bad = done (data_corrupted, req, buf)
on_size go_on req buf (of_size n) =
    let req' = record req { ntoread = some n } in
    if n == 0 then done (all_data_read, req', buf) else go_on req' buf

-- What follows `evbuffer_readline`.
pub on_line :
    (Request → Evbuffer → Run Chunked) → Request → Option (List ℕ) × Evbuffer → Run Chunked
on_line go_on req (none, buf) = done (more_data_expected, req, buf)
on_line go_on req (some line, buf) = on_size go_on req buf (size_line (c_string line))

-- The body of the loop for a buffer that is not empty.
pub chunk_step :
    (Request → Evbuffer → Run Chunked)
    → (ℕ → Bool)
    → Realloc
    → Request
    → Evbuffer
    → Option ℕ
    → Run Chunked
chunk_step go_on malloc realloc req buf none = readline malloc buf >>= on_line go_on req
chunk_step go_on malloc realloc req buf (some n) =
    if ltb (int_length buf.off) n
    then done (more_data_expected, req, buf)
    else (complete realloc req buf n >>= λ r. go_on r.0 r.1)

-- The loop from round `k` on
pub chunk_loop : ℕ → ℕ → (ℕ → ℕ → Bool) → (ℕ → Realloc) → Request → Evbuffer → Run Chunked
chunk_loop zero k malloc realloc req buf = stuck
chunk_loop (suc fuel) k malloc realloc req buf =
    let next =
      chunk_step (chunk_loop fuel (suc k) malloc realloc) (malloc k) (realloc k) req buf
        req.ntoread in
    if int_length buf.off == 0 then done (more_data_expected, req, buf) else next

pub handle_chunked_read : (ℕ → ℕ → Bool) → (ℕ → Realloc) → Request → Evbuffer → Run Chunked
handle_chunked_read malloc realloc req buf = chunk_loop (2 * buf.off + 2) 0 malloc realloc req buf

-- The callbacks that a connection runs when its output is written.
pub data WriteCb : Type 0 where
  send_done : WriteCb

-- The fields of a request and its connection that the sender of chunks uses. `finished` says that
-- `evhttp_send_done` was called.
pub record Reply (B : Type 0) : Type 0 where
  pub chunked : Bool
  pub userdone : Bool
  pub output_buffer : Evbuffer
  pub cb : Option WriteCb
  pub evcon : Connection B
  pub finished : Bool

-- What `evhttp_send_reply_chunk` puts before the data
pub chunk_head : (ℕ → Realloc) → Bool → ℕ → Evbuffer → Run Evbuffer
chunk_head realloc false off out = done out
chunk_head realloc true off out =
    add_vprintf realloc (some (print_hex 8 (off % 2 ^ 32) ++ 13 ∷ 10 ∷ [])) out >>= λ r. done r.1

-- What it puts behind the data
pub chunk_tail : Realloc → Bool → Evbuffer → Run Evbuffer
chunk_tail realloc false out = done out
chunk_tail realloc true out = add realloc out (13 ∷ 10 ∷ []) >>= λ r. done r.1

module _ {B : Type 0} where
  -- `evhttp_write_buffer`
  pub write_buffer : Env B → Reply B → Option WriteCb → Run (Reply B)
  write_buffer env reply cb =
      write_event env reply.evcon >>= λ evcon. done (record reply { cb = cb; evcon = evcon })

  -- `evhttp_send_reply_chunk` for a request with a connection; the new `databuf` is the second result
  pub send_reply_chunk : Env B → (ℕ → Realloc) → Reply B → Evbuffer → Run (Reply B × Evbuffer)
  send_reply_chunk env realloc reply databuf =
      chunk_head realloc reply.chunked databuf.off reply.output_buffer >>= λ headed.
      add_buffer (realloc 3) headed databuf >>= λ filled.
      chunk_tail (realloc 4) reply.chunked filled.1 >>= λ out.
      write_buffer env (record reply { output_buffer = out }) none >>= λ written.
      done (written, filled.2)

  -- `evhttp_send_reply_end` for a request with a connection
  pub send_reply_end : Env B → Realloc → Reply B → Run (Reply B)
  send_reply_end env realloc reply =
      let reply' = record reply { userdone = true } in
      let last : Run (Reply B) =
        (add realloc reply.output_buffer (48 ∷ 13 ∷ 10 ∷ 13 ∷ 10 ∷ []) >>= λ r.
        write_buffer env (record reply' { output_buffer = r.1 }) (some send_done) >>= λ written.
        done (record written { chunked = false })) in
      if reply.chunked
      then last
      else if is_writing reply.evcon
      then done (record reply' { cb = some send_done })
      else done (record reply' { finished = true })
