-- ===== src/Http/Headers/RoundTrip.antt =====
-- About `evhttp_parse_headers` of http.c on what `evhttp_make_header` wrote.
use study_libevent.Prelude.{
  ℕ, zero, suc, ◌+◌, ◌^◌, ◌<◌, ◌≡◌, ◌≢◌, refl, sym, ap, ◌∙◌, subst, List, [], ◌∷◌, ◌++◌, append-nil,
  append_assoc, length, length-append, true, false, Option, none, some, Run, ◌>>=◌, Status, ok,
  fail, Ensures, Ensures-bind, Ensures-map, returns, All, All-append, arith,
}
use study_libevent.Evbuffer.{Evbuffer, Realloc, contents}
use study_libevent.Evbuffer.Valid.{IsValid, length-contents}
use study_libevent.Evbuffer.Add.{Grants}
use study_libevent.Evbuffer.Lines.{is_eol}
use study_libevent.Http.{all_data_read}
use study_libevent.Http.Text.{Without, strsep_found}
use study_libevent.Http.Lines.{NotEol, NotNul, NextLine, readline-NextLine, c_string_whole}
use study_libevent.Http.Headers.{
  Header, Memory, Parsed, starts_blank, skip_spaces, header_line, parse_line, after_line, on_header,
  on_header_line, parse_loop, parse_headers, print_header, make_header,
}
use study_libevent.Http.Headers.Offer.{Folded, add_header-Offered}
use study_libevent.Http.Headers.Print.{lines, make_header-Puts}

pub NotEol-Folded : (xs : List ℕ) → All NotEol xs → Folded xs
NotEol-Folded [] h = tt
NotEol-Folded (x ∷ xs) (h, hs) = (λ t. cc, NotEol-Folded xs hs)

-- The strings that one header line can carry: no CR, LF or NUL; a key that is not empty, has no
-- colon and does not start with a space or a tab; a value that does not start with a space.
pub record IsPlain (h : Header) : Type 0 where
  pub key_some : h.key ≢ []
  pub key_start : starts_blank h.key ≡ false
  pub key_line : All NotEol h.key
  pub key_string : All NotNul h.key
  pub key_colon : Without 58 h.key
  pub value_start : skip_spaces h.value ≡ h.value
  pub value_line : All NotEol h.value
  pub value_string : All NotNul h.value

starts_blank_front : (key rest : List ℕ) → key ≢ [] → starts_blank (key ++ rest) ≡ starts_blank key
unfolding starts_blank
starts_blank_front [] rest ne = absurd (ne refl)
starts_blank_front (c ∷ key) rest ne = refl

skip_one : (value : List ℕ) → skip_spaces (32 ∷ value) ≡ skip_spaces value
unfolding skip_spaces
skip_one value = refl

-- The text of a header without its line end.
abbrev text : Header → List ℕ
text h = h.key ++ 58 ∷ 32 ∷ h.value

text_some : (h : Header) → IsPlain h → text h ≢ []
text_some h p e = nonempty h.key p.key_some e
  where
    nonempty : (key : List ℕ) → key ≢ [] → (key ++ 58 ∷ 32 ∷ h.value) ≡ [] → ⊥
    nonempty [] ne e = ne refl
    nonempty (c ∷ cs) ne e = cc

header_append :
    (h : Header) (xs ys : List ℕ) → (print_header h ++ xs) ++ ys ≡ text h ++ 13 ∷ 10 ∷ (xs ++ ys)
header_append h xs ys = simp append_assoc

header_length : (h : Header) (xs : List ℕ) → length xs < length (print_header h ++ xs)
header_length h xs = omega (
  arith,
  length-append (print_header h) xs,
  length-append h.key (58 ∷ 32 ∷ (h.value ++ 13 ∷ 10 ∷ [])),
)

-- What the reader is to leave.
abbrev pub Finished : List Header → List ℕ → Parsed → Type 0
Finished headers rest r =
    (r.0 ≡ all_data_read) × (r.1 ≡ headers) × IsValid r.2 × (contents r.2 ≡ rest)

module _ (memory : ℕ → Memory) (malloc : (k n : ℕ) → (memory k).malloc n ≡ true)
    (alloc : (k n : ℕ) → (memory k).alloc n ≡ true) where
  parse_plain :
      (k : ℕ) (headers : List Header) (h : Header)
      → IsPlain h
      → Ensures
          (λ r. (r.0 ≡ ok) × (r.1 ≡ headers ++ h ∷ []))
          (parse_line (memory k) headers (text h))
  unfolding parse_line header_line
  parse_plain k headers h p =
      let start = starts_blank_front h.key (58 ∷ 32 ∷ h.value) p.key_some ∙ p.key_start in
      let cut = strsep_found 58 h.key (32 ∷ h.value) p.key_colon in
      let value : skip_spaces (32 ∷ h.value) ≡ h.value = skip_one h.value ∙ p.value_start in
      rw (start, cut, value)
        (Ensures-map (add_header-Offered (memory k).alloc headers h) λ r o.
          let good : r.0 ≡ ok =
            o.taken
              (record { key_line = p.key_line; value_lines = NotEol-Folded h.value p.value_line })
              (alloc k) in
          (good, (o.accepted good).1))

  -- The line of a header, and then the next round.
  header_round :
      (Q : Parsed → Type 0) (go_on : List Header → Evbuffer → Run Parsed) (k : ℕ)
      (headers : List Header) (h : Header) (buf : Evbuffer)
      → IsPlain h
      → Ensures Q (go_on (headers ++ h ∷ []) buf)
      → (line : List ℕ) → line ≡ text h
      → line ≢ []
      → Ensures Q (on_header go_on (memory k) headers buf line)
  unfolding on_header
  header_round Q go_on k headers h buf p next [] same ne = absurd (ne refl)
  header_round Q go_on k headers h buf p next (c ∷ cs) same ne =
      Ensures-bind
        (subst
          (λ l.
            Ensures (λ r. (r.0 ≡ ok) × (r.1 ≡ headers ++ h ∷ [])) (parse_line (memory k) headers l))
          (sym same) (parse_plain k headers h p))
        λ r (good, added). settled r good added
    where
      settled :
          (r : Status × List Header)
          → r.0 ≡ ok
          → r.1 ≡ headers ++ h ∷ []
          → Ensures Q (after_line go_on buf r)
      settled (ok, hs) good added = unfold after_line in rw added next
      settled (fail, hs) good added = absurd cc

  -- A round of the loop at a line that CR LF ends.
  line_round :
      (Q : Parsed → Type 0) (fuel k : ℕ) (headers : List Header) (buf : Evbuffer)
      (line rest : List ℕ)
      → IsValid buf
      → buf.off < 2 ^ 32
      → contents buf ≡ line ++ 13 ∷ 10 ∷ rest
      → All NotEol line
      → All NotNul line
      → ((buf' : Evbuffer)
          → IsValid buf'
          → contents buf' ≡ rest
          → Ensures Q (on_header (parse_loop fuel (suc k) memory) (memory k) headers buf' line))
      → Ensures Q (parse_loop (suc fuel) k memory headers buf)
  unfolding parse_loop on_header_line
  line_round Q fuel k headers buf line rest v small bytes clean string next =
      Ensures-bind
        (readline-NextLine (memory k).malloc buf line rest (malloc k) v small bytes clean)
        λ r p. go r p
    where
      go :
          (r : Option (List ℕ) × Evbuffer)
          → NextLine line rest r
          → Ensures Q (on_header_line (parse_loop fuel (suc k) memory) (memory k) headers r)
      go (none, c) p = absurd cc
      go (some l, c) p =
          let same : l ≡ line = cc in rw (same, c_string_whole line string) (next c p.valid p.left)

  pub lines-Finished :
      (hs headers : List Header) (fuel k : ℕ) (buf : Evbuffer) (rest : List ℕ)
      → All IsPlain hs
      → IsValid buf
      → contents buf ≡ lines hs ++ 13 ∷ 10 ∷ rest
      → length (lines hs ++ 13 ∷ 10 ∷ rest) < 2 ^ 32
      → length (lines hs) < fuel
      → Ensures (Finished (headers ++ hs) rest) (parse_loop fuel k memory headers buf)
  unfolding on_header
  lines-Finished hs headers zero k buf rest plain v bytes small enough = absurd (omega arith)
  lines-Finished [] headers (suc fuel) k buf rest plain v bytes small enough =
      line_round (Finished (headers ++ []) rest) fuel k headers buf [] rest v
        (omega (arith, length-contents v, ap length bytes)) bytes tt tt
        λ buf' v' left. returns (refl, sym (append-nil headers), v', left)
  lines-Finished (h ∷ hs) headers (suc fuel) k buf rest (p, ps) v bytes small enough =
      let after = lines hs ++ 13 ∷ 10 ∷ rest in
      let split : lines (h ∷ hs) ++ 13 ∷ 10 ∷ rest ≡ text h ++ 13 ∷ 10 ∷ after =
        header_append h (lines hs) (13 ∷ 10 ∷ rest) in
      let sized = ap length split ∙ length-append (text h) (13 ∷ 10 ∷ after) in
      line_round (Finished (headers ++ h ∷ hs) rest) fuel k headers buf (text h) after v
        (omega (arith, length-contents v, ap length bytes)) (bytes ∙ split)
        (All-append NotEol h.key (58 ∷ 32 ∷ h.value) p.key_line
          (unfold is_eol in (refl, (refl, p.value_line))))
        (All-append NotNul h.key (58 ∷ 32 ∷ h.value) p.key_string (refl, (refl, p.value_string)))
        λ buf' v' left.
          header_round (Finished (headers ++ h ∷ hs) rest) (parse_loop fuel (suc k) memory) k
            headers h buf' p
            (rw (← append_assoc headers (h ∷ []) hs) (
              lines-Finished hs (headers ++ h ∷ []) fuel (suc k) buf' rest ps v' left
                (omega (arith, sized)) (omega (arith, header_length h (lines hs)))))
            (text h) refl (text_some h p)

-- For calls of `realloc` and memory that are never refused, valid output and body buffers, an empty
-- output, headers that one line each can carry, and fewer than 2 ^ 31 bytes in all: the headers
-- and the body that `evhttp_make_header` writes are read by `evhttp_parse_headers`, which returns
-- ALL_DATA_READ, adds the same headers in order behind those it has, and leaves a valid buffer
-- with the body.
pub parse_headers-make_header :
    (memory : ℕ → Memory) (realloc : ℕ → ℕ → Realloc) (old hs : List Header) (out body : Evbuffer)
    → ((k n : ℕ) → (memory k).malloc n ≡ true)
    → ((k n : ℕ) → (memory k).alloc n ≡ true)
    → ((i j : ℕ) → Grants (realloc i j))
    → IsValid out
    → contents out ≡ []
    → IsValid body
    → All IsPlain hs
    → length (lines hs) + body.off + 2 < 2 ^ 31
    → Ensures
        (λ (r : Parsed).
          (r.0 ≡ all_data_read) × (r.1 ≡ old ++ hs) × IsValid r.2 × (contents r.2 ≡ contents body))
        (make_header realloc hs out body >>= λ sent. parse_headers memory old sent.0)
unfolding parse_headers
parse_headers-make_header memory realloc old hs out body malloc alloc grants v empty vb plain fits =
    let nothing : out.off ≡ 0 = omega (arith, length-contents v, ap length empty) in
    let sized = length-append (lines hs) (13 ∷ 10 ∷ contents body) in
    Ensures-bind
      (make_header-Puts realloc hs out body grants v vb (omega (arith, nothing)) (omega arith))
      λ sent p.
        let bytes = p.stored ∙ ap (λ t. t ++ (lines hs ++ 13 ∷ 10 ∷ contents body)) empty in
        lines-Finished memory malloc alloc hs old (sent.0.off + 1) 0 sent.0 (contents body) plain
          p.valid bytes (omega (arith, sized, length-contents vb))
          (omega (arith, length-contents p.valid, ap length bytes, sized))
