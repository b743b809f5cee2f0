-- ===== src/Http/Uri.antt =====
-- `uri_chars`, `evhttp_encode_uri`, `evhttp_decode_uri` and `evhttp_parse_query` of http.c.
--
-- The C library is an argument: `realloc` answers by the byte of the string that is written, and
-- `strdup` says whether it has memory.
pub mod RoundTrip
pub mod Query
use study_libevent.Prelude.{
  ℕ, zero, suc, ◌+◌, ◌*◌, List, [], ◌∷◌, Bool, true, false, ◌&&◌, ◌||◌, Option, none, some, leb,
  ◌==◌, if◌then◌else◌, length, Run, done, undefined, stuck, ◌>>=◌, ltb,
}
use study_libevent.Evbuffer.{Evbuffer, Realloc, new, contents, add}
use study_libevent.Evbuffer.Io.{int_max, add_vprintf}
use study_libevent.Http.{c_string, strsep, is_xdigit, hex_value, print_byte}
use study_libevent.Http.Headers.{Header, add_header_internal}

-- `uri_chars[c] != 0`, row by row of the table
unfoldable pub uri_chars : ℕ → Bool
uri_chars c =
    (c == 33)
    || (c == 36)
    || (leb 39 c && leb c 58)
    || (c == 61)
    || (leb 64 c && leb c 90)
    || (c == 95)
    || (leb 97 c && leb c 122)
    || (c == 126)

-- The loop of `evhttp_encode_uri`; the results of the buffer's calls are ignored.
pub encode_loop : (ℕ → ℕ → Realloc) → ℕ → List ℕ → Evbuffer → Run Evbuffer
encode_loop realloc k [] buf = done buf
encode_loop realloc k (c ∷ cs) buf =
    let plain : Run Evbuffer = (add (realloc k 0) buf (c ∷ []) >>= λ r. done r.1) in
    let escaped : Run Evbuffer =
      (add_vprintf (realloc k) (some (37 ∷ print_byte c)) buf >>= λ r. done r.1) in
    (if uri_chars c then plain else escaped) >>= encode_loop realloc (suc k) cs

-- `evhttp_encode_uri`: none where strdup returns NULL
pub encode_uri : (ℕ → ℕ → Realloc) → Bool → List ℕ → Run (Option (List ℕ))
encode_uri realloc strdup uri = encode_loop realloc 1 uri new >>= λ buf.
    add (realloc 0 0) buf (0 ∷ []) >>= λ r.
    done (if strdup then some (c_string (contents r.1)) else none)

-- `isxdigit((unsigned char)uri[i+1]) && isxdigit((unsigned char)uri[i+2])`, with the digits and what
-- follows them
pub two_digits : List ℕ → Option (ℕ × ℕ × List ℕ)
two_digits (x ∷ y ∷ cs) = if is_xdigit x && is_xdigit y then some (x, y, cs) else none
two_digits cs = none

-- The loop of `evhttp_decode_uri_internal`, with `uri + i` and the ints `i` and `j`. The indexes
-- `i + 1` and `i + 2` of the digits are ints too, and no larger than the next `i`, unless the round
-- behind them overflows.
unfoldable pub decode_loop : ℕ → ℕ → ℕ → Bool → List ℕ → Run (List ℕ)
decode_loop zero i j in_query uri = stuck
decode_loop (suc fuel) i j in_query [] = done []
decode_loop (suc fuel) i j in_query (c ∷ cs) =
    let next : ℕ → Bool → ℕ → List ℕ → Run (List ℕ) = (λ i' q d rest.
      let ret = decode_loop fuel i' (j + 1) q rest >>= λ ret. done (d ∷ ret) in
      if ltb int_max i' || ltb int_max (j + 1) then undefined else ret) in
    if c == 63
    then next (i + 1) true c cs
    else if (c == 43) && in_query
    then next (i + 1) in_query 32 cs
    else elim (if c == 37 then two_digits cs else none) [
      | none ↦ next (i + 1) in_query c cs
      | some (x, y, rest) ↦ next (i + 3) in_query (hex_value x * 16 + hex_value y) rest
    ]

-- `evhttp_decode_uri_internal`: the string in `ret`, whose length is the result
unfoldable pub decode_uri_internal : List ℕ → Bool → Run (List ℕ)
decode_uri_internal uri always_decode_plus = decode_loop (length uri + 1) 0 0 always_decode_plus uri

-- `evhttp_decode_uri`, when malloc succeeds: the C string in `ret`
pub decode_uri : List ℕ → Run (List ℕ)
decode_uri uri = decode_uri_internal uri false >>= λ ret. done (c_string ret)

-- One argument of a query, split at its `=`: none for `goto error`. `malloc` succeeds, and `alloc`
-- is the memory for the header.
pub query_argument :
    (ℕ → Bool) → List Header → List ℕ × Option (List ℕ) → Run (Option (List Header))
query_argument alloc headers (key, none) = done none
query_argument alloc headers (key, some value) = decode_uri_internal value true >>= λ ret.
    done (some (add_header_internal alloc headers key (c_string ret)).1)

-- What follows an argument: the next round with what `strsep` left, or the end.
pub after_argument :
    (List ℕ → List Header → Run (List Header))
    → List Header
    → Option (List ℕ)
    → Option (List Header)
    → Run (List Header)
after_argument go_on headers rest none = done headers
after_argument go_on headers none (some added) = done added
after_argument go_on headers (some rest) (some added) = go_on rest added

-- The loop of `evhttp_parse_query` from round `k` on
pub query_loop : ℕ → ℕ → (ℕ → ℕ → Bool) → List ℕ → List Header → Run (List Header)
query_loop zero k alloc p headers = stuck
query_loop (suc fuel) k alloc [] headers = done headers
query_loop (suc fuel) k alloc (c ∷ cs) headers =
    let argument = strsep 38 (c ∷ cs) in
    query_argument (alloc k) headers (strsep 61 argument.0)
    >>= after_argument (λ rest. query_loop fuel (suc k) alloc rest) headers argument.1

-- What follows the first `?`
pub query_of : (ℕ → ℕ → Bool) → Option (List ℕ) → Run (List Header)
query_of alloc none = done []
query_of alloc (some query) = query_loop (length query + 1) 0 alloc query []

-- `evhttp_parse_query`
pub parse_query : (ℕ → ℕ → Bool) → List ℕ → Run (List Header)
parse_query alloc uri = query_of alloc (strsep 63 uri).1
