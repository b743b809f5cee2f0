-- ===== src/Http/Tests/Bodies.antt =====
-- Bodies in chunks, of http.c.
use study_libevent.Prelude.{
  inl, ap, ◌∙◌, ltb, ◌≢◌, ℕ, ◌^◌, ◌<◌, ◌≡◌, refl, List, [], ◌∷◌, map, true, false, none, some,
  length, ◌>>=◌, ok, Ensures, All, arith,
}
use study_libevent.Evbuffer.{Evbuffer, contents}
use study_libevent.Http.{
  is_space, is_xdigit, hex_value, hex_digit, scan_hex, skip_space, skip_prefix, skip_sign,
  signed_hex, strtoll, print_hex,
}
use study_libevent.Http.Chunks.{
  Request, of_size, ends_badly, checked_size, size_line, Reply, send_reply_end, handle_chunked_read,
}
use study_libevent.Http.Chunks.Handled.{Handled, handle_chunked_read-Handled}
use study_libevent.Http.Chunks.Wire.{wire}
use study_libevent.Http.Chunks.Send.{IsData, send_chunks}
use study_libevent.Http.Chunks.RoundTrip.{Delivered, handle_chunked_read-send_chunks}
use study_libevent.Events.{Base, Env}
use study_libevent.Events.Calls.{base_new, event_set}
use study_libevent.Events.Reserve.{IsModest}
use study_libevent.Events.Setup.{base_new-IsValid, event_set-IsValid}
use study_libevent.Http.Write.{Connection, write_only}
use study_libevent.Http.Write.Scheduled.{IsReady}
use study_libevent.Http.Tests.{grant, grant-Grants, holding, holding_nothing, no_size}

abbrev fresh : Request
fresh = record { ntoread = none; input_buffer = holding []; chunk_cb = some 4; chunks = [] }

-- A back end that accepts every event, and callbacks that call nothing.
abbrev toy : Env ℕ
toy = record {
  sel_add = λ s e fd what. (ok, s);
  ev_signal = λ s e. none;
  sel_del = λ s e fd what. (ok, s);
  dispatch = λ b tv. (ok, [], b.evbase);
  callback = λ b e what. [];
  realloc = λ a. ltb a 1000;
  junk = λ i. 0;
  monotonic = λ k. some (record { tv_sec = k; tv_usec = 0 });
  wall = λ k. record { tv_sec = k; tv_usec = 0 };
}

toy_IsModest : IsModest toy.realloc
toy_IsModest a h = ground arith

abbrev started : Base ℕ
started = base_new toy 0 (λ e. 0)

started_queues : started.activequeues ≢ []
started_queues p = let one = (base_new-IsValid toy 0 (λ e. 0)).2 in omega (arith, ap length p)

-- Event 2 on a new base, for descriptor 5
abbrev connection : Connection ℕ
connection = record {
  base = event_set started 2 (some 5) write_only;
  ev = 2;
  fd = some 5;
  timeout = none;
  has_base = true;
}

connection-IsReady : IsReady connection
unfolding event_set
connection-IsReady =
    let start = base_new-IsValid toy 0 (λ e. 0) in
    let (v, mine, same) =
      event_set-IsValid started 2 (some 5) write_only start.0 started_queues (start.1 2) in
    record {
      valid = v;
      mine = mine;
      external = refl;
      stands = inl (same 2 ∙ start.1 2);
      timed = λ p. cc;
    }

abbrev reply : Reply ℕ
reply = record {
  chunked = true;
  userdone = false;
  output_buffer = holding [];
  cb = none;
  evcon = connection;
  finished = false;
}

-- "AB" and "C"
abbrev two_chunks : List Evbuffer
two_chunks = holding (65 ∷ 66 ∷ []) ∷ holding (67 ∷ []) ∷ []

two_chunks-IsData : All IsData two_chunks
two_chunks-IsData = (
  record { valid = omega arith; some_bytes = omega arith; small = omega arith },
  (record { valid = omega arith; some_bytes = omega arith; small = omega arith }, tt),
)

length-two_chunks : length (wire (map contents two_chunks)) < 2 ^ 31
unfolding print_hex hex_digit
length-two_chunks = omega arith

handle_chunked_read-send_chunks_example :
    Ensures (Delivered (some 4) ([], (4, 65 ∷ 66 ∷ []) ∷ (4, 67 ∷ []) ∷ [])) (
      send_chunks toy (λ k. grant) reply two_chunks >>= send_reply_end toy grant >>= λ r.
      handle_chunked_read (λ k n. true) (λ k. grant) fresh r.output_buffer)
unfolding print_hex
handle_chunked_read-send_chunks_example =
    handle_chunked_read-send_chunks toy (λ k n. true) (λ k. grant) reply two_chunks fresh
      toy_IsModest (λ k n. refl) (λ k. grant-Grants)
      (record { valid = holding_nothing; chunked = refl; ready = connection-IsReady }) refl
      two_chunks-IsData holding_nothing refl length-two_chunks

handle_chunked_read-Handled_example :
    Ensures
      (Handled (λ k n. true) (some 4) (contents no_size))
      (handle_chunked_read (λ k n. true) (λ k. grant) fresh no_size)
handle_chunked_read-Handled_example =
    handle_chunked_read-Handled (λ k n. true) (λ k. grant) (some 4) (contents no_size) fresh no_size
      (record {
        buf_valid = omega arith;
        input_valid = holding_nothing;
        rest = ([], refl);
        same_cb = refl;
        short = omega arith;
      })
      (λ e. cc)

-- A line that begins with a space, and has no number, is read as the size 0.
no_digits : size_line (32 ∷ 104 ∷ []) ≡ of_size 0
unfolding size_line checked_size ends_badly strtoll signed_hex skip_space skip_sign is_space
    is_xdigit
no_digits = refl

-- A space may follow the number.
size_with_blank : size_line (49 ∷ 102 ∷ 32 ∷ []) ≡ of_size 31
unfolding size_line checked_size ends_badly strtoll signed_hex skip_space skip_sign skip_prefix
    scan_hex hex_value is_space is_xdigit
size_with_blank = refl
