-- ===== src/Http/Headers/Parse.antt =====
-- About `evhttp_parse_headers` of http.c on any input.
use study_libevent.Prelude.{
  ℕ, zero, suc, ◌+◌, ◌^◌, ◌<◌, ◌≡◌, refl, sym, subst, List, [], ◌∷◌, take, Bool, true, false, ◌==◌,
  Option, none, some, Run, Status, ok, fail, Ensures, Ensures-bind, Ensures-map, Ensures-if,
  returns, All, All-append, Bool-cases, ◌⊎◌, inl, inr, arith,
}
use study_libevent.Prelude.Position.{position}
use study_libevent.Evbuffer.{Evbuffer, contents}
use study_libevent.Evbuffer.Valid.{IsValid}
use study_libevent.Evbuffer.Lines.Readline.{LineRead, readline-LineRead}
use study_libevent.Http.{more_data_expected, c_string, strsep}
use study_libevent.Http.Lines.{NotEol, EndsWith, EndsWith-trans, line_taken}
use study_libevent.Http.Headers.{
  Header, Memory, Parsed, behind, starts_blank, skip_spaces, append_to_last_header, header_line,
  parse_line, after_line, on_header, on_header_line, parse_loop, parse_headers,
}
use study_libevent.Http.Headers.Offer.{Offered, add_header-Offered}

-- A header without CR or LF.
pub record IsOneLine (h : Header) : Type 0 where
  pub key_line : All NotEol h.key
  pub value_line : All NotEol h.value

All-take : (n : ℕ) (xs : List ℕ) → All NotEol xs → All NotEol (take n xs)
All-take zero xs h = tt
All-take (suc n) [] h = tt
All-take (suc n) (x ∷ xs) (h, hs) = (h, All-take n xs hs)

c_string-NotEol : (xs : List ℕ) → All NotEol xs → All NotEol (c_string xs)
unfolding c_string
c_string-NotEol xs h = All-take (position (λ c. c == 0) xs) xs h

skip_spaces-NotEol : (xs : List ℕ) → All NotEol xs → All NotEol (skip_spaces xs)
unfolding skip_spaces
skip_spaces-NotEol [] h = tt
skip_spaces-NotEol (c ∷ cs) (h, hs) = elim (Bool-cases (c == 32)) [
  | inl e ↦ rw e (skip_spaces-NotEol cs hs)
  | inr e ↦ rw e (h, hs)
]

-- Both parts of a line are without line ends.
abbrev PartsNotEol : List ℕ × Option (List ℕ) → Type 0
PartsNotEol (key, none) = All NotEol key
PartsNotEol (key, some value) = All NotEol key × All NotEol value

strsep-NotEol : (xs : List ℕ) → All NotEol xs → PartsNotEol (strsep 58 xs)
unfolding strsep
strsep-NotEol [] h = tt
strsep-NotEol (c ∷ cs) (h, hs) = elim (Bool-cases (c == 58)) [
  | inl e ↦ rw e (tt, hs)
  | inr e ↦ rw e (under (strsep 58 cs) (strsep-NotEol cs hs))
]
  where
    under : (p : List ℕ × Option (List ℕ)) → PartsNotEol p → PartsNotEol (c ∷ p.0, p.1)
    under (key, none) g = (h, g)
    under (key, some value) (g, k) = ((h, g), k)

append_to_last-IsOneLine :
    (grow : Bool) (headers : List Header) (line : List ℕ)
    → All IsOneLine headers
    → All NotEol line
    → All IsOneLine (append_to_last_header grow headers line).1
unfolding append_to_last_header behind
append_to_last-IsOneLine grow [] line hs l = tt
append_to_last-IsOneLine true (h ∷ []) line (g, gs) l = (
  record { key_line = g.key_line; value_line = All-append NotEol h.value line g.value_line l },
  tt,
)
append_to_last-IsOneLine false (h ∷ []) line hs l = hs
append_to_last-IsOneLine grow (h ∷ i ∷ hs) line (g, gs) l =
    (g, append_to_last-IsOneLine grow (i ∷ hs) line gs l)

abbrev OneLines : Status × List Header → Type 0
OneLines r = All IsOneLine r.1

header_line-IsOneLine :
    (alloc : ℕ → Bool) (headers : List Header) (p : List ℕ × Option (List ℕ))
    → All IsOneLine headers
    → PartsNotEol p
    → Ensures OneLines (header_line alloc headers p)
unfolding header_line
header_line-IsOneLine alloc headers (key, none) hs g = returns hs
header_line-IsOneLine alloc headers (key, some value) hs (g, k) =
    let h : Header = record { key = key; value = skip_spaces value } in
    Ensures-map (add_header-Offered alloc headers h)
      λ r o. kept r o (record { key_line = g; value_line = skip_spaces-NotEol value k })
  where
    kept :
        {h : Header} (r : Status × List Header)
        → Offered alloc headers h r
        → IsOneLine h
        → OneLines r
    kept {h} (ok, hs') o one =
        subst (All IsOneLine) (sym (o.accepted refl).1)
          (All-append IsOneLine headers (h ∷ []) hs (one, tt))
    kept (fail, hs') o one = subst (All IsOneLine) (sym (o.refused refl)) hs

parse_line-IsOneLine :
    (memory : Memory) (headers : List Header) (line : List ℕ)
    → All IsOneLine headers
    → All NotEol line
    → Ensures OneLines (parse_line memory headers line)
unfolding parse_line
parse_line-IsOneLine memory headers line hs l =
    Ensures-if (starts_blank line)
      (λ _. returns (append_to_last-IsOneLine memory.grow headers line hs l))
      λ _. header_line-IsOneLine memory.alloc headers (strsep 58 line) hs (strsep-NotEol line l)

-- What `evhttp_parse_headers` leaves of a buffer with `bytes`.
pub record HeadersRead (memory : ℕ → Memory) (bytes : List ℕ) (r : Parsed) : Type 0 where
  pub one_line : All IsOneLine r.1
  pub valid : IsValid r.2
  pub rest : EndsWith bytes (contents r.2)
  pub on_more :
      r.0 ≡ more_data_expected
      → All NotEol (contents r.2) ⊎ ((k : ℕ) × (n : ℕ) × ((memory k).malloc n ≡ false))

module _ (memory : ℕ → Memory) (bytes : List ℕ) where
  -- A continuation that ends well on a buffer of fewer than `fuel` bytes.
  abbrev Continues : ℕ → (List Header → Evbuffer → Run Parsed) → Type 0
  Continues fuel go_on =
      (headers : List Header) (buf : Evbuffer)
      → All IsOneLine headers
      → IsValid buf
      → EndsWith bytes (contents buf)
      → buf.off < fuel
      → buf.off < 2 ^ 32
      → Ensures (HeadersRead memory bytes) (go_on headers buf)

  on_header-HeadersRead :
      (fuel : ℕ) (go_on : List Header → Evbuffer → Run Parsed)
      → Continues fuel go_on
      → (m : Memory) (headers : List Header) (buf : Evbuffer) → All IsOneLine headers
      → IsValid buf
      → EndsWith bytes (contents buf)
      → buf.off < fuel
      → buf.off < 2 ^ 32
      → (line : List ℕ) → All NotEol line
      → Ensures (HeadersRead memory bytes) (on_header go_on m headers buf line)
  unfolding on_header after_line
  on_header-HeadersRead fuel go_on go m headers buf hs v rest less small [] l =
      returns (record { one_line = hs; valid = v; rest = rest; on_more = λ p. cc })
  on_header-HeadersRead fuel go_on go m headers buf hs v rest less small (c ∷ cs) l =
      Ensures-bind (parse_line-IsOneLine m headers (c ∷ cs) hs l) λ r g. after r g
    where
      after :
          (r : Status × List Header)
          → OneLines r
          → Ensures (HeadersRead memory bytes) (after_line go_on buf r)
      after (ok, hs') g = go hs' buf g v rest less small
      after (fail, hs') g =
          returns (record { one_line = g; valid = v; rest = rest; on_more = λ p. cc })

  on_header_line-HeadersRead :
      (fuel k : ℕ) (go_on : List Header → Evbuffer → Run Parsed)
      → Continues fuel go_on
      → (headers : List Header) (buf : Evbuffer) → All IsOneLine headers
      → IsValid buf
      → EndsWith bytes (contents buf)
      → buf.off < suc fuel
      → buf.off < 2 ^ 32
      → (r : Option (List ℕ) × Evbuffer) → LineRead (memory k).malloc buf r
      → Ensures (HeadersRead memory bytes) (on_header_line go_on (memory k) headers r)
  unfolding on_header_line
  on_header_line-HeadersRead fuel k go_on go headers buf hs v rest less small (none, c) p =
      let (same, why) = p.on_null refl in
      returns (record {
        one_line = hs;
        valid = p.valid;
        rest = rw same rest;
        on_more = λ _. rw same (reason why);
      })
    where
      reason :
          All NotEol (contents buf) ⊎ ((n : ℕ) × ((memory k).malloc n ≡ false))
          → All NotEol (contents buf) ⊎ ((k : ℕ) × (n : ℕ) × ((memory k).malloc n ≡ false))
      reason (inl all) = inl all
      reason (inr (n, null)) = inr (k, n, null)
  on_header_line-HeadersRead fuel k go_on go headers buf hs v rest less small (some line, c) p =
      let (shorter, left, clean) = line_taken v p line refl in
      on_header-HeadersRead fuel go_on go (memory k) headers c hs p.valid (EndsWith-trans rest left)
        (omega arith) (omega arith) (c_string line) (c_string-NotEol line clean)

  parse_loop-HeadersRead : (fuel k : ℕ) → Continues fuel (parse_loop fuel k memory)
  unfolding parse_loop
  parse_loop-HeadersRead zero k headers buf hs v rest less small = absurd (omega arith)
  parse_loop-HeadersRead (suc fuel) k headers buf hs v rest less small =
      Ensures-bind (readline-LineRead (memory k).malloc buf v small) (
        on_header_line-HeadersRead fuel k _ (parse_loop-HeadersRead fuel (suc k)) headers buf hs v
          rest less small)

-- For headers without CR or LF and a valid buffer of fewer than 2 ^ 32 bytes:
-- `evhttp_parse_headers` returns; no header has a CR or LF in it; the buffer stays valid and holds
-- the end of its old bytes; and MORE_DATA_EXPECTED is returned only where no line end is left or
-- the line's `malloc` refused.
pub parse_headers-HeadersRead :
    (memory : ℕ → Memory) (headers : List Header) (buf : Evbuffer)
    → All IsOneLine headers
    → IsValid buf
    → buf.off < 2 ^ 32
    → Ensures (HeadersRead memory (contents buf)) (parse_headers memory headers buf)
unfolding parse_headers
parse_headers-HeadersRead memory headers buf hs v small =
    parse_loop-HeadersRead memory (contents buf) (buf.off + 1) 0 headers buf hs v ([], refl)
      (omega arith) small
