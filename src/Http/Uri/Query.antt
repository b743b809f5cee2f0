-- ===== src/Http/Uri/Query.antt =====
-- About `evhttp_parse_query` of http.c.
use study_libevent.Prelude.{
  ℕ, zero, suc, ◌+◌, ◌<◌, ◌≡◌, refl, sym, ap, ◌∙◌, List, [], ◌∷◌, ◌++◌, append_assoc, append-nil,
  length, length-append, Bool, true, false, ◌==◌, some, done, ◌>>=◌, All, All-append, arith, none,
  Run, Ensures, Ensures-map, Ensures-bind, returns, ◌*◌, ◌≤◌,
}
use study_libevent.Evbuffer.{Realloc}
use study_libevent.Evbuffer.Add.{Grants}
use study_libevent.Evbuffer.Io.{int_max}
use study_libevent.Http.Text.{Without, strsep_found, strsep_last}
use study_libevent.Http.{strsep, hex_digit, print_byte}
use study_libevent.Http.Lines.{c_string_whole}
use study_libevent.Http.Headers.{Header, add_header_internal}
use study_libevent.Http.Uri.{
  uri_chars, encode_uri, decode_uri_internal, query_argument, after_argument, query_loop, query_of,
  parse_query,
}
use study_libevent.Http.Uri.RoundTrip.{
  encoded_byte, encoded, IsChar, IsKept, decode_loop-encoded, char-NotNul, length-le,
  length-encoded, encode_uri-encoded,
}

-- An argument of a query, with an encoded value.
abbrev argument : Header → List ℕ
argument h = h.key ++ 61 ∷ encoded h.value

-- The arguments, with `&` between them.
abbrev query_text : List Header → List ℕ
query_text [] = []
query_text (h ∷ []) = argument h
query_text (h ∷ i ∷ hs) = argument h ++ 38 ∷ query_text (i ∷ hs)

-- An argument as a caller makes it, with what `evhttp_encode_uri` returns for the value.
abbrev encoded_argument : (ℕ → ℕ → Realloc) → Header → Run (List ℕ)
encoded_argument realloc h = encode_uri realloc true h.value >>= λ r.
    done (h.key ++ 61 ∷ elim r [ none ↦ [] | some value ↦ value ])

abbrev pub encoded_query : (ℕ → ℕ → ℕ → Realloc) → List Header → Run (List ℕ)
encoded_query realloc [] = done []
encoded_query realloc (h ∷ []) = encoded_argument (realloc 0) h
encoded_query realloc (h ∷ i ∷ hs) = encoded_argument (realloc 0) h >>= λ first.
    encoded_query (λ k. realloc (k + 1)) (i ∷ hs) >>= λ rest. done (first ++ 38 ∷ rest)

-- A key that is not taken apart, and a value of a C string's bytes without `+`, whose text for a URI
-- has at most INT_MAX bytes.
pub record IsArgument (h : Header) : Type 0 where
  pub key_equals : Without 61 h.key
  pub key_and : Without 38 h.key
  pub value_kept : All (IsKept true) h.value
  pub value_fits : 3 * length h.value ≤ int_max

encoded_byte-Without : (c : ℕ) → IsChar c → Without 38 (encoded_byte c)
unfolding print_byte hex_digit uri_chars
encoded_byte-Without c h = ground arith

encoded-Without : (s : List ℕ) → All (IsKept true) s → Without 38 (encoded s)
encoded-Without [] h = tt
encoded-Without (c ∷ s) (h, hs) =
    All-append (λ x. (x == 38) ≡ false) (encoded_byte c) (encoded s) (encoded_byte-Without c h.0)
      (encoded-Without s hs)

argument-Without : (h : Header) → IsArgument h → Without 38 (argument h)
argument-Without h a =
    All-append (λ x. (x == 38) ≡ false) h.key (61 ∷ encoded h.value) a.key_and
      (refl, encoded-Without h.value a.value_kept)

kept-IsChar : (s : List ℕ) → All (IsKept true) s → All IsChar s
kept-IsChar [] h = tt
kept-IsChar (c ∷ s) (h, hs) = (h.0, kept-IsChar s hs)

module _ (alloc : ℕ → ℕ → Bool) (memory : (k n : ℕ) → alloc k n ≡ true) where
  -- One argument is added to the headers.
  argument_read :
      (k : ℕ) (headers : List Header) (h : Header)
      → IsArgument h
      → query_argument (alloc k) headers (strsep 61 (argument h)) ≡ done (some (headers ++ h ∷ []))
  unfolding query_argument decode_uri_internal add_header_internal
  argument_read k headers h a =
      let decoded =
        decode_loop-encoded h.value (length (encoded h.value) + 1) 0 0 true a.value_kept
          (omega (arith, length-le h.value)) (omega (arith, a.value_fits, length-encoded h.value))
          (omega arith) in
      let whole = c_string_whole h.value (char-NotNul h.value (kept-IsChar h.value a.value_kept)) in
      rw
        (
          strsep_found 61 h.key (encoded h.value) a.key_equals,
          decoded,
          whole,
          memory k 0,
          memory k 1,
          memory k 2,
        )
        refl

  -- A round of the loop, whose string is not empty.
  query_round :
      (fuel k : ℕ) (p : List ℕ) (headers : List Header)
      → 0 < length p
      → query_loop (suc fuel) k alloc p headers ≡ (
          query_argument (alloc k) headers (strsep 61 (strsep 38 p).0)
          >>= after_argument (query_loop fuel (suc k) alloc) headers (strsep 38 p).1)
  unfolding query_loop
  query_round fuel k [] headers h = absurd (omega arith)
  query_round fuel k (c ∷ cs) headers h = refl

  argument_some : (h : Header) (rest : List ℕ) → 0 < length (argument h ++ rest)
  argument_some h rest =
      omega (arith, length-append (argument h) rest, length-append h.key (61 ∷ encoded h.value))

  arguments_read :
      (hs headers : List Header) (fuel k : ℕ)
      → All IsArgument hs
      → length (query_text hs) < fuel
      → query_loop fuel k alloc (query_text hs) headers ≡ done (headers ++ hs)
  unfolding after_argument query_loop
  arguments_read hs headers zero k a enough = absurd (omega arith)
  arguments_read [] headers (suc fuel) k a enough = ap done (sym (append-nil headers))
  arguments_read (h ∷ []) headers (suc fuel) k (a, more) enough =
      query_round fuel k (argument h) headers
        (omega (arith, length-append h.key (61 ∷ encoded h.value)))
      ∙ rw (strsep_last 38 (argument h) (argument-Without h a), argument_read k headers h a) refl
  arguments_read (h ∷ i ∷ hs) headers (suc fuel) k (a, more) enough =
      query_round fuel k (argument h ++ 38 ∷ query_text (i ∷ hs)) headers
        (argument_some h (38 ∷ query_text (i ∷ hs)))
      ∙ rw
          (
            strsep_found 38 (argument h) (query_text (i ∷ hs)) (argument-Without h a),
            argument_read k headers h a,
          )
          (arguments_read (i ∷ hs) (headers ++ h ∷ []) fuel (suc k) more
              (omega (arith, length-append (argument h) (38 ∷ query_text (i ∷ hs))))
            ∙ ap done (append_assoc headers (h ∷ []) (i ∷ hs)))

encoded_argument-argument :
    (realloc : ℕ → ℕ → Realloc) (h : Header)
    → ((i j : ℕ) → Grants (realloc i j))
    → IsArgument h
    → Ensures (λ (text : List ℕ). text ≡ argument h) (encoded_argument realloc h)
encoded_argument-argument realloc h grants a =
    Ensures-bind
      (encode_uri-encoded realloc h.value grants (kept-IsChar h.value a.value_kept) a.value_fits)
      λ r same. returns (rw same refl)

encoded_query-query_text :
    (realloc : ℕ → ℕ → ℕ → Realloc) (hs : List Header)
    → ((k i j : ℕ) → Grants (realloc k i j))
    → All IsArgument hs
    → Ensures (λ (text : List ℕ). text ≡ query_text hs) (encoded_query realloc hs)
encoded_query-query_text realloc [] grants good = returns refl
encoded_query-query_text realloc (h ∷ []) grants (a, more) =
    encoded_argument-argument (realloc 0) h (grants 0) a
encoded_query-query_text realloc (h ∷ i ∷ hs) grants (a, more) =
    Ensures-bind (encoded_argument-argument (realloc 0) h (grants 0) a) λ first one.
      Ensures-bind
        (encoded_query-query_text (λ k. realloc (k + 1)) (i ∷ hs) (λ k. grants (k + 1)) more)
        λ rest two. returns (ap (λ t. t ++ 38 ∷ rest) one ∙ ap (λ t. argument h ++ 38 ∷ t) two)

-- For memory that is never refused, a path without `?`, and headers with keys without `=` and `&`
-- and values without NUL and `+` a third of INT_MAX bytes long at most: `evhttp_encode_uri` returns
-- a text for every value, and `evhttp_parse_query` of the path, `?` and the keys with `=` and these
-- texts, between them `&`, returns the headers in order.
pub parse_query-query_text :
    (realloc : ℕ → ℕ → ℕ → Realloc) (alloc : ℕ → ℕ → Bool) (path : List ℕ) (hs : List Header)
    → ((k i j : ℕ) → Grants (realloc k i j))
    → ((k n : ℕ) → alloc k n ≡ true)
    → Without 63 path
    → All IsArgument hs
    → Ensures
        (λ (text : List ℕ). parse_query alloc (path ++ 63 ∷ text) ≡ done hs)
        (encoded_query realloc hs)
unfolding parse_query query_of
parse_query-query_text realloc alloc path hs grants memory clean good =
    Ensures-map (encoded_query-query_text realloc hs grants good) λ text same.
      rw (same, strsep_found 63 path (query_text hs) clean)
        (arguments_read alloc memory hs [] (length (query_text hs) + 1) 0 good (omega arith))
