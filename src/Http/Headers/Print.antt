-- ===== src/Http/Headers/Print.antt =====
-- About the headers that `evhttp_make_header` of http.c writes.
use study_libevent.Prelude.{
  ℕ, suc, ◌+◌, ◌≤◌, ◌<◌, ◌≡◌, refl, sym, ap, ◌∙◌, List, [], ◌∷◌, ◌++◌, append-nil, append_assoc,
  length, length-append, Ensures, Ensures-bind, Ensures-map, Ensures-if, returns, ltb, arith, false,
}
use study_libevent.Evbuffer.{Evbuffer, Realloc, size_max, contents}
use study_libevent.Evbuffer.Valid.{IsValid, length-contents}
use study_libevent.Evbuffer.Add.{Grants}
use study_libevent.Evbuffer.Io.{int_max}
use study_libevent.Http.Output.{
  Puts, Puts-off, Puts-trans, add-Puts, add_vprintf-Puts, add_buffer-Puts,
}
use study_libevent.Http.Headers.{Header, print_header, print_loop, make_header}

-- The lines of the headers.
abbrev pub lines : List Header → List ℕ
lines [] = []
lines (h ∷ hs) = print_header h ++ lines hs

print_loop-Puts :
    (realloc : ℕ → ℕ → Realloc) (k : ℕ) (hs : List Header) (out : Evbuffer)
    → ((i j : ℕ) → Grants (realloc i j))
    → IsValid out
    → out.off + length (lines hs) + 64 ≤ size_max
    → length (lines hs) < int_max
    → Ensures (Puts out (lines hs)) (print_loop realloc k hs out)
unfolding print_loop
print_loop-Puts realloc k [] out grants v fits small =
    returns (record { valid = v; stored = sym (append-nil (contents out)) })
print_loop-Puts realloc k (h ∷ hs) out grants v fits small =
    let split = length-append (print_header h) (lines hs) in
    Ensures-bind
      (add_vprintf-Puts (realloc k) out (print_header h) (grants k) v (omega (arith, split))
        (omega (arith, split)))
      λ r p.
        Ensures-map
          (print_loop-Puts realloc (suc k) hs r.1 grants p.valid
            (omega (arith, split, Puts-off v p)) (omega (arith, split)))
          λ c q. Puts-trans p q

-- What a body leaves on the output behind the headers: all of it, and nothing of an empty one.
empty_contents : (b : Evbuffer) → IsValid b → ltb 0 b.off ≡ false → contents b ≡ []
empty_contents b v e = nil (contents b) (ground (arith, length-contents v))
  where
    nil : (xs : List ℕ) → length xs ≡ 0 → xs ≡ []
    nil [] h = refl
    nil (x ∷ xs) h = absurd (omega arith)

-- For valid buffers, a total that stays 64 bytes below `size_max`, and calls of `realloc` that
-- never refuse, and lines of fewer than INT_MAX bytes: `evhttp_make_header` puts on the output, for each header in order, its key, a
-- colon, a space, its value and CR LF, then an empty line, and then the bytes of the body.
pub make_header-Puts :
    (realloc : ℕ → ℕ → Realloc) (headers : List Header) (out body : Evbuffer)
    → ((i j : ℕ) → Grants (realloc i j))
    → IsValid out
    → IsValid body
    → out.off + length (lines headers) + body.off + 66 ≤ size_max
    → length (lines headers) < int_max
    → Ensures
        (λ (r : Evbuffer × Evbuffer). Puts out (lines headers ++ 13 ∷ 10 ∷ contents body) r.0)
        (make_header realloc headers out body)
unfolding make_header
make_header-Puts realloc headers out body grants v vb fits small =
    Ensures-bind (print_loop-Puts realloc 2 headers out grants v (omega arith) small) λ printed p.
      Ensures-bind
        (add-Puts (realloc 0 0) printed (13 ∷ 10 ∷ []) (grants 0 0) p.valid
          (omega (arith, Puts-off v p)))
        λ ended q.
          let pq = Puts-trans p q in
          Ensures-if (ltb 0 body.off)
            (λ _.
              Ensures-bind
                (add_buffer-Puts (realloc 1 0) ended.1 body (grants 1 0) q.valid vb
                  (omega (arith, Puts-off v p, Puts-off p.valid q)))
                λ r s. returns (record {
                  valid = s.valid;
                  stored =
                      (Puts-trans pq s).stored
                      ∙ ap (λ t. contents out ++ t)
                          (append_assoc (lines headers) (13 ∷ 10 ∷ []) (contents body));
                }))
            λ e. returns (record {
              valid = q.valid;
              stored =
                  pq.stored
                  ∙ ap (λ t. contents out ++ (lines headers ++ 13 ∷ 10 ∷ t))
                      (sym (empty_contents body vb e));
            })
