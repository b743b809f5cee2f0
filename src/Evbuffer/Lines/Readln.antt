-- ===== src/Evbuffer/Lines/Readln.antt =====
-- About `evbuffer_readln` of buffer.c.
use study_libevent.Prelude.{
  ℕ, ◌%◌, ◌^◌, ◌≤◌, ◌<◌, ◌≡◌, refl, List, Bool, false, Option, none, some, ◌⊎◌, inl, inr,
  Bool-cases, length, take, drop, Ensures, Ensures-bind, returns, arith,
}
use study_libevent.Evbuffer.{Evbuffer, contents}
use study_libevent.Evbuffer.Valid.{IsValid, length-contents}
use study_libevent.Evbuffer.Add.{Reported, Reported-refl, drain-Drained}
use study_libevent.Evbuffer.Lines.{
  add_uint, EolStyle, any, crlf, crlf_strict, lf, other, readln_at, readln,
}
use study_libevent.Evbuffer.Lines.Eol.{NoEol, IsEol, Found, eol_bounds-Found}

-- What `evbuffer_readln` returns: the line, `*n_read_out` and the buffer.
pub record LineTaken (malloc : ℕ → Bool) (style : EolStyle) (b : Evbuffer)
    (r : Option (List ℕ) × ℕ × Evbuffer) : Type 0 where
  pub valid : IsValid r.2
  pub reported : Reported b r.2
  pub on_null :
      r.0 ≡ none
      → (r.1 ≡ 0) × (r.2 ≡ b) × (NoEol style (contents b) ⊎ ((n : ℕ) × (malloc n ≡ false)))
  pub on_line :
      (line : List ℕ)
      → r.0 ≡ some line
      → (s : ℕ) × (e : ℕ) × IsEol style (contents b) s e
        × (line ≡ take s (contents b))
        × (r.1 ≡ s)
        × (contents r.2 ≡ drop e (contents b))

-- The end of a line lies inside the bytes.
IsEol-bounds :
    (style : EolStyle) (bytes : List ℕ) (s e : ℕ)
    → IsEol style bytes s e
    → (s ≤ length bytes) × (e ≤ length bytes)
IsEol-bounds any bytes s e (lt, le, p, q, r) = omega arith
IsEol-bounds crlf bytes s e (k, ek, inside, at, before, inl (p, q)) = omega arith
IsEol-bounds crlf bytes s e (k, ek, inside, at, before, inr (p, q)) = omega arith
IsEol-bounds crlf_strict bytes s e (es, (inside, p, q), before) = omega arith
IsEol-bounds lf bytes s e (es, inside, p, q) = omega arith
IsEol-bounds other bytes s e h = absurd h

readln_at-LineTaken :
    (malloc : ℕ → Bool) (style : EolStyle) (b : Evbuffer)
    → IsValid b
    → b.off < 2 ^ 32
    → (r : Option (ℕ × ℕ)) → Found style (contents b) r
    → LineTaken malloc style b (readln_at malloc b r)
unfolding readln_at
readln_at-LineTaken malloc style b v small none f = record {
  valid = v;
  reported = Reported-refl b;
  on_null = λ _. (refl, refl, inl f);
  on_line = λ line p. cc;
}
readln_at-LineTaken malloc style b v small (some (s, e)) f =
    let (hs, he) = IsEol-bounds style (contents b) s e f in
    let size = length-contents v in
    let ns : s % 2 ^ 32 ≡ s = omega arith in
    let ne : e % 2 ^ 32 ≡ e = omega arith in
    let d = drain-Drained b e v in
    rw (ns, ne)
      (elim (Bool-cases (malloc (add_uint s 1))) [
        | inl m ↦ rw m (record {
          valid = d.valid;
          reported = d.reported;
          on_null = λ p. cc;
          on_line = λ line p. (s, e, f, cc, refl, d.bytes);
        })
        | inr m ↦ rw m (record {
          valid = v;
          reported = Reported-refl b;
          on_null = λ _. (refl, refl, inr (add_uint s 1, m));
          on_line = λ line p. cc;
        })
      ])

-- For a valid buffer of fewer than 2 ^ 32 bytes and every style, `evbuffer_readln` ends and
-- leaves a valid buffer. A line is the bytes before the first end of line that the style knows,
-- which are drained with it, and `*n_read_out` its length; with NULL the count is 0, the buffer
-- unchanged, and there was no end of line or `malloc` refused. The callback is told once if the
-- length changed and not otherwise.
pub readln-LineTaken :
    (malloc : ℕ → Bool) (style : EolStyle) (b : Evbuffer)
    → IsValid b
    → b.off < 2 ^ 32
    → Ensures (LineTaken malloc style b) (readln malloc b style)
unfolding readln
readln-LineTaken malloc style b v small =
    Ensures-bind (eol_bounds-Found style (contents b) (omega (arith, length-contents v)))
      λ r f. returns (readln_at-LineTaken malloc style b v small r f)
