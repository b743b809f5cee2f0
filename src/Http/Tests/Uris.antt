-- ===== src/Http/Tests/Uris.antt =====
-- URIs and queries, of http.c.
use study_libevent.Prelude.{
  ℕ, ◌≤◌, ◌≡◌, refl, List, [], ◌∷◌, true, Option, some, length, done, Ensures, All, arith,
}
use study_libevent.Http.Lines.{NotNul}
use study_libevent.Http.Uri.{
  encode_uri, decode_uri, uri_chars, decode_uri_internal, decode_loop, parse_query,
}
use study_libevent.Http.Uri.RoundTrip.{decode_uri-encode_uri}
use study_libevent.Http.Uri.Query.{IsArgument, encoded_query, parse_query-query_text}
use study_libevent.Http.Tests.{grant, grant-Grants, header}

-- "a ?+"
decode_uri-encode_uri_example :
    Ensures
      (λ (r : Option (List ℕ)).
        (text : List ℕ) × (r ≡ some text)
        × All NotNul text
        × (length text ≤ 12)
        × (decode_uri text ≡ done (97 ∷ 32 ∷ 63 ∷ 43 ∷ [])))
      (encode_uri (λ i j. grant) true (97 ∷ 32 ∷ 63 ∷ 43 ∷ []))
decode_uri-encode_uri_example =
    decode_uri-encode_uri (λ i j. grant) (97 ∷ 32 ∷ 63 ∷ 43 ∷ []) (λ i j. grant-Grants)
      (
        (omega arith, omega arith),
        (
          (omega arith, omega arith),
          ((omega arith, omega arith), ((omega arith, omega arith), tt)),
        ),
      )
      (omega arith)

-- "/?Ab=x%20y&Ab=x%20y"
parse_query-query_text_example :
    Ensures
      (λ (text : List ℕ). parse_query (λ k n. true) (47 ∷ 63 ∷ text) ≡ done (header ∷ header ∷ []))
      (encoded_query (λ k i j. grant) (header ∷ header ∷ []))
parse_query-query_text_example =
    parse_query-query_text (λ k i j. grant) (λ k n. true) (47 ∷ []) (header ∷ header ∷ [])
      (λ k i j. grant-Grants) (λ k n. refl) (refl, tt) (argument_ok, (argument_ok, tt))
  where
    argument_ok : IsArgument header
    argument_ok = record {
      key_equals = (refl, (refl, tt));
      key_and = (refl, (refl, tt));
      value_kept = (
        ((omega arith, omega arith), refl),
        (((omega arith, omega arith), refl), (((omega arith, omega arith), refl), tt)),
      );
      value_fits = omega arith;
    }

-- A plus is not encoded, and decoded as a space in a query.
plus_kept : uri_chars 43 ≡ true
unfolding uri_chars
plus_kept = refl

plus_lost : decode_uri_internal (43 ∷ []) true ≡ done (32 ∷ [])
unfolding decode_uri_internal decode_loop
plus_lost = refl
