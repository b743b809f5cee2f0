-- ===== src/Http/Uri/RoundTrip.antt =====
-- About `evhttp_decode_uri` of http.c on what `evhttp_encode_uri` returns.
use study_libevent.Prelude.{
  ℕ, zero, suc, ◌+◌, ◌*◌, ◌/◌, ◌%◌, ◌≤◌, ◌<◌, ◌≡◌, refl, sym, ap, ◌∙◌, List, [], ◌∷◌, ◌++◌,
  append-nil, ltb, ◌||◌, length, length-append, Bool, true, false, ◌&&◌, ◌==◌, if◌then◌else◌,
  Option, some, done, ◌>>=◌, Ensures, Ensures-bind, Ensures-map, returns, All, All-append,
  Bool-cases, inl, inr, arith,
}
use study_libevent.Evbuffer.{Evbuffer, Realloc, size_max, contents, new, add}
use study_libevent.Evbuffer.Valid.{IsValid, new-IsValid}
use study_libevent.Evbuffer.Add.{Grants}
use study_libevent.Evbuffer.Io.{int_max, add_vprintf}
use study_libevent.Http.{c_string, hex_value, hex_digit, print_byte}
use study_libevent.Http.Text.{hex_digit-IsDigit, hex_value-hex_digit}
use study_libevent.Http.Lines.{NotNul, c_string_whole, c_string_ended}
use study_libevent.Http.Output.{Puts, Puts-off, Puts-trans, add-Puts, add_vprintf-Puts}
use study_libevent.Http.Uri.{
  uri_chars, encode_loop, encode_uri, two_digits, decode_loop, decode_uri_internal, decode_uri,
}

-- The text for one byte.
abbrev pub encoded_byte : ℕ → List ℕ
encoded_byte c = if uri_chars c then c ∷ [] else 37 ∷ print_byte c

abbrev pub encoded : List ℕ → List ℕ
encoded [] = []
encoded (c ∷ cs) = encoded_byte c ++ encoded cs

-- The bytes of a C string.
abbrev pub IsChar : ℕ → Type 0
IsChar c = (0 < c) × (c < 256)

length-encoded_byte : (c : ℕ) → length (encoded_byte c) ≤ 3
unfolding print_byte
length-encoded_byte c = ground arith

pub length-encoded : (s : List ℕ) → length (encoded s) ≤ 3 * length s
length-encoded [] = omega arith
length-encoded (c ∷ s) =
    omega
      (arith, length-append (encoded_byte c) (encoded s), length-encoded_byte c, length-encoded s)

encoded_byte_some : (c : ℕ) → 1 ≤ length (encoded_byte c)
encoded_byte_some c = ground arith

-- `evhttp_encode_uri`'s loop puts the text of each byte on the buffer.
encode_loop-Puts :
    (realloc : ℕ → ℕ → Realloc) (k : ℕ) (s : List ℕ) (buf : Evbuffer)
    → ((i j : ℕ) → Grants (realloc i j))
    → IsValid buf
    → buf.off + length (encoded s) + 64 ≤ size_max
    → Ensures (Puts buf (encoded s)) (encode_loop realloc k s buf)
unfolding encode_loop
encode_loop-Puts realloc k [] buf grants v fits =
    returns (record { valid = v; stored = sym (append-nil (contents buf)) })
encode_loop-Puts realloc k (c ∷ s) buf grants v fits =
    let split = length-append (encoded_byte c) (encoded s) in
    Ensures-bind {P = Puts buf (encoded_byte c)} (byte split (uri_chars c) refl) λ r p.
      Ensures-map
        (encode_loop-Puts realloc (suc k) s r grants p.valid (omega (arith, split, Puts-off v p)))
        λ b q. Puts-trans p q
  where
    byte :
        length (encoded_byte c ++ encoded s) ≡ length (encoded_byte c) + length (encoded s)
        → (b : Bool) → uri_chars c ≡ b
        → Ensures (Puts buf (encoded_byte c)) (
            if b
            then (add (realloc k 0) buf (c ∷ []) >>= λ r. done r.1)
            else (add_vprintf (realloc k) (some (37 ∷ print_byte c)) buf >>= λ r. done r.1))
    byte split true e =
        let same : encoded_byte c ≡ c ∷ [] = rw e refl in
        rw same (
          Ensures-bind
            (add-Puts (realloc k 0) buf (c ∷ []) (grants k 0) v
              (omega (arith, split, ap length same)))
            λ r p. returns p)
    byte split false e =
        let same : encoded_byte c ≡ 37 ∷ print_byte c = rw e refl in
        rw same (
          Ensures-bind
            (add_vprintf-Puts (realloc k) buf (37 ∷ print_byte c) (grants k) v
              (omega (arith, split, ap length same))
              (omega (arith, ap length same, length-encoded_byte c)))
            λ r p. returns p)

byte-NotNul : (c : ℕ) → IsChar c → All NotNul (encoded_byte c)
unfolding print_byte hex_digit
byte-NotNul c h = ground arith

encoded-NotNul : (s : List ℕ) → All IsChar s → All NotNul (encoded s)
encoded-NotNul [] h = tt
encoded-NotNul (c ∷ s) (h, hs) =
    All-append NotNul (encoded_byte c) (encoded s) (byte-NotNul c h) (encoded-NotNul s hs)

digits_of :
    (c : ℕ) (rest : List ℕ)
    → c < 256
    → two_digits (print_byte c ++ rest)
      ≡ some (hex_digit true (c / 16), hex_digit true (c % 16), rest)
unfolding two_digits print_byte
digits_of c rest h =
    rw
      (hex_digit-IsDigit true (c / 16) (omega arith), hex_digit-IsDigit true (c % 16) (omega arith))
      refl

print_byte_value :
    (c : ℕ)
    → c < 256
    → hex_value (hex_digit true (c / 16)) * 16 + hex_value (hex_digit true (c % 16)) ≡ c
print_byte_value c h =
    rw
      (
        hex_value-hex_digit true (c / 16) (omega arith),
        hex_value-hex_digit true (c % 16) (omega arith),
      )
      (omega arith)

-- What the decoder makes of a byte that stands for itself: no `?`, and no `%`.
uri_chars_plain : (c : ℕ) → uri_chars c ≡ true → ((c == 63) ≡ false) × ((c == 37) ≡ false)
unfolding uri_chars
uri_chars_plain c h = ground arith

-- A byte that the decoder does not take for a space.
abbrev pub IsKept : Bool → ℕ → Type 0
IsKept in_query c = IsChar c × (((c == 43) && in_query) ≡ false)

decode_byte :
    (fuel i j c : ℕ) (in_query : Bool) (rest : List ℕ)
    → IsKept in_query c
    → i + length (encoded_byte c) ≤ int_max
    → j < int_max
    → decode_loop (suc fuel) i j in_query (encoded_byte c ++ rest) ≡ (
        decode_loop fuel (i + length (encoded_byte c)) (j + 1) in_query rest >>= λ ret.
        done (c ∷ ret))
unfolding decode_loop print_byte
decode_byte fuel i j c in_query rest (h, plus) small less = elim (Bool-cases (uri_chars c)) [
  | inl e ↦
      let (no_mark, no_percent) = uri_chars_plain c e in
      let size : length (encoded_byte c) ≡ 1 = rw e refl in
      let in_int : (ltb int_max (i + 1) || ltb int_max (j + 1)) ≡ false = ground (arith, size) in
      rw (e, no_mark, plus, no_percent, in_int) refl
  | inr e ↦
      let size : length (encoded_byte c) ≡ 3 = rw e refl in
      let in_int : (ltb int_max (i + 3) || ltb int_max (j + 1)) ≡ false = ground (arith, size) in
      rw (e, digits_of c rest h.1, print_byte_value c h.1, in_int) refl
]

pub decode_loop-encoded :
    (s : List ℕ) (fuel i j : ℕ) (in_query : Bool)
    → All (IsKept in_query) s
    → length s < fuel
    → i + length (encoded s) ≤ int_max
    → j ≤ i
    → decode_loop fuel i j in_query (encoded s) ≡ done s
unfolding decode_loop
decode_loop-encoded s zero i j q h enough small less = absurd (omega arith)
decode_loop-encoded [] (suc fuel) i j q h enough small less = refl
decode_loop-encoded (c ∷ s) (suc fuel) i j q (h, hs) enough small less =
    let split = length-append (encoded_byte c) (encoded s) in
    let some_byte = encoded_byte_some c in
    decode_byte fuel i j c q (encoded s) h (omega (arith, split)) (omega (arith, split))
    ∙ ap (λ r. r >>= λ ret. done (c ∷ ret))
        (decode_loop-encoded s fuel (i + length (encoded_byte c)) (j + 1) q hs (omega arith)
          (omega (arith, split)) (omega arith))

char-IsKept : (s : List ℕ) → All IsChar s → All (IsKept false) s
char-IsKept [] h = tt
char-IsKept (c ∷ s) (h, hs) = ((h, ground arith), char-IsKept s hs)

pub char-NotNul : (s : List ℕ) → All IsChar s → All NotNul s
char-NotNul [] h = tt
char-NotNul (c ∷ s) (h, hs) = (ground arith, char-NotNul s hs)

pub length-le : (s : List ℕ) → length s ≤ length (encoded s)
length-le [] = omega arith
length-le (c ∷ s) =
    omega (arith, length-append (encoded_byte c) (encoded s), encoded_byte_some c, length-le s)

-- What is encoded is decoded to the same string.
decode_uri-encoded :
    (s : List ℕ) → All IsChar s → length (encoded s) ≤ int_max → decode_uri (encoded s) ≡ done s
unfolding decode_uri decode_uri_internal
decode_uri-encoded s h small =
    rw
      (decode_loop-encoded s (length (encoded s) + 1) 0 0 false (char-IsKept s h)
        (omega (arith, length-le s)) (omega arith) (omega arith))
      (ap done (c_string_whole s (char-NotNul s h)))

-- What `evhttp_encode_uri` returns.
pub encode_uri-encoded :
    (realloc : ℕ → ℕ → Realloc) (s : List ℕ)
    → ((i j : ℕ) → Grants (realloc i j))
    → All IsChar s
    → 3 * length s ≤ int_max
    → Ensures (λ (r : Option (List ℕ)). r ≡ some (encoded s)) (encode_uri realloc true s)
unfolding encode_uri
encode_uri-encoded realloc s grants h small =
    let size = length-encoded s in
    let empty : new.off ≡ 0 = unfold new in refl in
    let none_yet : contents new ≡ [] = unfold new in refl in
    Ensures-bind (encode_loop-Puts realloc 1 s new grants new-IsValid (omega (arith, size, empty)))
      λ buf p.
        Ensures-bind
          (add-Puts (realloc 0 0) buf (0 ∷ []) (grants 0 0) p.valid
            (omega (arith, size, empty, Puts-off new-IsValid p)))
          λ r q.
            let whole : contents r.1 ≡ encoded s ++ 0 ∷ [] =
              q.stored ∙ ap (λ t. t ++ 0 ∷ []) (p.stored ∙ ap (λ t. t ++ encoded s) none_yet) in
            returns (ap some (ap c_string whole ∙ c_string_ended (encoded s) (encoded-NotNul s h)))

-- Where memory is never refused, for a C string three times as long as which is at most INT_MAX
-- bytes: `evhttp_encode_uri` returns a
-- string without NUL bytes, at most three times as long, and `evhttp_decode_uri` of it returns the
-- given string.
pub decode_uri-encode_uri :
    (realloc : ℕ → ℕ → Realloc) (s : List ℕ)
    → ((i j : ℕ) → Grants (realloc i j))
    → All IsChar s
    → 3 * length s ≤ int_max
    → Ensures
        (λ (r : Option (List ℕ)).
          (text : List ℕ) × (r ≡ some text)
          × All NotNul text
          × (length text ≤ 3 * length s)
          × (decode_uri text ≡ done s))
        (encode_uri realloc true s)
decode_uri-encode_uri realloc s grants h small =
    let size = length-encoded s in
    Ensures-map (encode_uri-encoded realloc s grants h small) λ r same.
      (encoded s, same, encoded-NotNul s h, size, decode_uri-encoded s h (omega (arith, size)))
