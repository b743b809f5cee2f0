-- ===== src/Http/Output.antt =====
-- About the buffer calls by which http.c writes, where `realloc` never refuses.
use study_libevent.Prelude.{
  ℕ, ◌+◌, ◌≤◌, ◌<◌, ◌≡◌, refl, ap, ◌∙◌, List, ◌++◌, append_assoc, length, length-append, Option,
  none, some, inl, inr, ◌⊎◌, Status, ok, fail, Ensures, Ensures-map, arith,
}
use study_libevent.Evbuffer.{Evbuffer, Realloc, size_max, contents, add, add_buffer}
use study_libevent.Evbuffer.Valid.{IsValid, length-contents}
use study_libevent.Evbuffer.Add.{Grants, add-stored}
use study_libevent.Evbuffer.Transfer.{Moved, add_buffer-Moved}
use study_libevent.Evbuffer.Io.{int_max, add_vprintf}
use study_libevent.Evbuffer.Io.Printf.{Printed, add_vprintf-Printed}

-- `b'` is valid and holds the bytes of `b` with `bytes` behind them.
pub record Puts (b : Evbuffer) (bytes : List ℕ) (b' : Evbuffer) : Type 0 where
  pub valid : IsValid b'
  pub stored : contents b' ≡ contents b ++ bytes

pub Puts-off :
    {b b' : Evbuffer} {bytes : List ℕ} → IsValid b → Puts b bytes b' → b'.off ≡ b.off + length bytes
Puts-off {b} {b'} {bytes} v p = omega (
  arith,
  length-contents v,
  length-contents p.valid,
  ap length p.stored,
  length-append (contents b) bytes,
)

pub Puts-trans :
    {b c d : Evbuffer} {xs ys : List ℕ} → Puts b xs c → Puts c ys d → Puts b (xs ++ ys) d
Puts-trans {b} {c} {d} {xs} {ys} p q = record {
  valid = q.valid;
  stored = q.stored ∙ ap (λ t. t ++ ys) p.stored ∙ append_assoc (contents b) xs ys;
}

pub add-Puts :
    (realloc : Realloc) (b : Evbuffer) (bytes : List ℕ)
    → Grants realloc
    → IsValid b
    → b.off + length bytes ≤ size_max
    → Ensures (λ (r : Status × Evbuffer). Puts b bytes r.1) (add realloc b bytes)
add-Puts realloc b bytes grants v fits =
    Ensures-map (add-stored realloc b bytes v grants fits)
      λ r (good, valid, stored). record { valid = valid; stored = stored }

pub add_vprintf-Puts :
    (realloc : ℕ → Realloc) (b : Evbuffer) (text : List ℕ)
    → ((k : ℕ) → Grants (realloc k))
    → IsValid b
    → b.off + length text + 64 ≤ size_max
    → length text < int_max
    → Ensures (λ (r : Option ℕ × Evbuffer). Puts b text r.1) (add_vprintf realloc (some text) b)
add_vprintf-Puts realloc b text grants v fits small =
    Ensures-map (add_vprintf-Printed realloc text b (λ e. absurd (omega arith)) v) λ r p. puts r p
  where
    puts : (r : Option ℕ × Evbuffer) → Printed realloc b text r → Puts b text r.1
    puts (some n, c) p = record { valid = p.valid; stored = (p.printed n refl).1 }
    puts (none, c) p = absurd (never (p.on_error refl).2)
      where
        never :
            (size_max < b.off + length text + 64)
              ⊎ (int_max < length text)
              ⊎ ((k : ℕ) × (size : ℕ) × (size ≤ size_max) × (realloc k size ≡ none))
            → ⊥
        never (inl over) = omega arith
        never (inr (inl long)) = omega arith
        never (inr (inr (k, size, le, null))) = grants k size null

pub add_buffer-Puts :
    (realloc : Realloc) (b inbuf : Evbuffer)
    → Grants realloc
    → IsValid b
    → IsValid inbuf
    → b.off + inbuf.off ≤ size_max
    → Ensures
        (λ (r : Status × Evbuffer × Evbuffer). Puts b (contents inbuf) r.1)
        (add_buffer realloc b inbuf)
add_buffer-Puts realloc b inbuf grants v vi fits =
    Ensures-map (add_buffer-Moved realloc b inbuf v vi) λ r m. puts r m
  where
    puts :
        (r : Status × Evbuffer × Evbuffer) → Moved realloc b inbuf r → Puts b (contents inbuf) r.1
    puts (ok, c, d) m = record { valid = m.out_valid; stored = m.out_ok refl }
    puts (fail, c, d) m = absurd (never (m.refused refl))
      where
        never :
            (size_max < b.off + inbuf.off)
              ⊎ ((size : ℕ) × (size ≤ size_max) × (realloc size ≡ none))
            → ⊥
        never (inl over) = omega arith
        never (inr (size, le, null)) = grants size null
