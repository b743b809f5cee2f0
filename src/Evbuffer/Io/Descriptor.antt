-- ===== src/Evbuffer/Io/Descriptor.antt =====
-- About `evbuffer_read` and `evbuffer_write` of buffer.c, given what the system calls answer.
use study_libevent.Prelude.{
  ℕ, ◌+◌, ◌*◌, ◌^◌, ◌≤◌, ◌<◌, ◌≡◌, refl, sym, ap, ◌∙◌, List, [], ◌++◌, append-nil, Option, none,
  some, length, drop, Bool-cases, inl, inr, ◌⊎◌, ◌==◌, ==_iff, Status, ok, fail, Ensures,
  Ensures-bind, returns, arith,
}
use study_libevent.Evbuffer.{Evbuffer, Realloc, size_max, contents, store}
use study_libevent.Evbuffer.Valid.{IsValid, SameView}
use study_libevent.Evbuffer.Grow.{Expanded, expand-Expanded}
use study_libevent.Evbuffer.Add.{
  Reported, Reported-refl, Reported-SameView, store_lem, notify_change-Reported, drain-Drained,
}
use study_libevent.Evbuffer.Io.{max_read, read_size, took, read_expanded, read_fd, wrote, write_fd}

-- For an answer of FIONREAD below 2 ^ 31 and a block of at most `size_max` bytes: `evbuffer_read`
-- asks for no more than `howmuch`, if that is given; for at most 4096 bytes or what FIONREAD
-- answered; and, without `howmuch`, for at most 4096 bytes or four times the block.
pub read_size_bounds :
    (avail totallen : ℕ) (howmuch : Option ℕ)
    → avail < 2 ^ 31
    → totallen ≤ size_max
    → ((h : ℕ) → howmuch ≡ some h → read_size avail howmuch totallen ≤ h)
      × ((read_size avail howmuch totallen ≤ max_read) ⊎ (read_size avail howmuch totallen ≤ avail))
      × (howmuch ≡ none
          → (read_size avail howmuch totallen ≤ max_read)
            ⊎ (read_size avail howmuch totallen ≤ totallen * 4))
unfolding read_size
read_size_bounds avail totallen none ha ht = ((λ h e. cc), ground arith, λ e. ground arith)
read_size_bounds avail totallen (some h) ha ht = ((λ k e. ground arith), ground arith, λ e. cc)

-- What `evbuffer_read` returns when it asks read(2) for `n` bytes.
pub record ReadIn (realloc : Realloc) (read : ℕ → Option (List ℕ)) (n : ℕ) (b : Evbuffer)
    (r : Option ℕ × Evbuffer) : Type 0 where
  pub valid : IsValid r.1
  pub reported : Reported b r.1
  pub failed :
      r.0 ≡ none
      → (contents r.1 ≡ contents b)
        × ((read n ≡ none)
            ⊎ (size_max < b.off + n)
            ⊎ ((size : ℕ) × (size ≤ size_max) × (realloc size ≡ none)))
  pub taken :
      (k : ℕ)
      → r.0 ≡ some k
      → (bytes : List ℕ) × (read n ≡ some bytes)
        × (k ≡ length bytes)
        × (contents r.1 ≡ contents b ++ bytes)

store-kept :
    (b : Evbuffer) (bytes : List ℕ)
    → ((store b bytes).cb ≡ b.cb) × ((store b bytes).calls ≡ b.calls)
unfolding store
store-kept b bytes = (refl, refl)

took-ReadIn :
    (realloc : Realloc) (read : ℕ → Option (List ℕ)) (n : ℕ) (b c : Evbuffer)
    → SameView b c
    → IsValid c
    → c.misalign + c.off + n ≤ c.totallen
    → (answer : Option (List ℕ)) → read n ≡ answer
    → ((bytes : List ℕ) → answer ≡ some bytes → length bytes ≤ n)
    → ReadIn realloc read n b (took c answer)
unfolding took
took-ReadIn realloc read n b c same v room none e short = record {
  valid = v;
  reported = Reported-SameView same (Reported-refl c);
  failed = λ _. (same.bytes, inl e);
  taken = λ k p. cc;
}
took-ReadIn realloc read n b c same v room (some bytes) e short =
    elim (Bool-cases (length bytes == 0)) [
      | inl z ↦
          let empty : bytes ≡ [] = grind (arith, (==_iff (length bytes) 0).0 z) in
          rw z (record {
            valid = v;
            reported = Reported-SameView same (Reported-refl c);
            failed = λ p. cc;
            taken = λ k p. (bytes, e, ground arith, same.bytes ∙ rw (empty, append-nil));
          })
      | inr z ↦
          let fits : c.misalign + c.off + length bytes ≤ c.totallen =
            omega (arith, short bytes refl) in
          let (v', stored, off) = store_lem c bytes v fits in
          let (v'', kept, r) =
            notify_change-Reported c (store c bytes) v' (store-kept c bytes).0
              (store-kept c bytes).1 in
          rw z (record {
            valid = v'';
            reported = Reported-SameView same r;
            failed = λ p. cc;
            taken = λ k p. (bytes, e, cc, kept ∙ stored ∙ ap (λ xs. xs ++ bytes) same.bytes);
          })
    ]

read_expanded-ReadIn :
    (realloc : Realloc) (read : ℕ → Option (List ℕ)) (n : ℕ) (b : Evbuffer)
    → ((m : ℕ) (bytes : List ℕ) → read m ≡ some bytes → length bytes ≤ m)
    → (r : Status × Evbuffer) → Expanded realloc b n r
    → Ensures (ReadIn realloc read n b) (read_expanded read n r)
unfolding read_expanded
read_expanded-ReadIn realloc read n b short (ok, c) e =
    returns (took-ReadIn realloc read n b c e.same e.valid (e.room refl) (read n) refl (short n))
read_expanded-ReadIn realloc read n b short (fail, c) e = returns (record {
  valid = e.valid;
  reported = Reported-SameView e.same (Reported-refl c);
  failed = λ _. (e.same.bytes, inr (e.refused refl));
  taken = λ k p. cc;
})

-- For a valid buffer, if read(2) never answers more bytes than asked for, `evbuffer_read` returns
-- and leaves a valid buffer: with k the k bytes read stand behind the old ones; with -1 the bytes
-- are unchanged, and the read failed, the total exceeds `size_max` or `realloc` refused a size.
-- The callback is told once if the length changed and not otherwise.
pub read_fd-ReadIn :
    (realloc : Realloc) (avail : ℕ) (read : ℕ → Option (List ℕ)) (b : Evbuffer) (howmuch : Option ℕ)
    → IsValid b
    → ((m : ℕ) (bytes : List ℕ) → read m ≡ some bytes → length bytes ≤ m)
    → Ensures
        (ReadIn realloc read (read_size avail howmuch b.totallen) b)
        (read_fd realloc avail read b howmuch)
unfolding read_fd
read_fd-ReadIn realloc avail read b howmuch v short =
    let n = read_size avail howmuch b.totallen in
    Ensures-bind (expand-Expanded realloc b n v) (read_expanded-ReadIn realloc read n b short)

wrote_lem :
    (b : Evbuffer)
    → IsValid b
    → (r : Option ℕ)
    → IsValid (wrote b r).1
      × ((wrote b r).0 ≡ r)
      × Reported b (wrote b r).1
      × (r ≡ none → (wrote b r).1 ≡ b)
      × ((n : ℕ) → r ≡ some n → contents (wrote b r).1 ≡ drop n (contents b))
unfolding wrote
wrote_lem b v none = (v, refl, Reported-refl b, (λ _. refl), λ n p. cc)
wrote_lem b v (some k) = elim (Bool-cases (k == 0)) [
  | inl z ↦
      let zero : k ≡ 0 = (==_iff k 0).0 z in
      rw z (
        v,
        ap some (sym zero),
        Reported-refl b,
        (λ p. cc),
        λ n p. let same : 0 ≡ n = grind arith in ap (λ j. drop j (contents b)) same,
      )
  | inr z ↦
      let d = drain-Drained b k v in
      rw z (
        d.valid,
        refl,
        d.reported,
        (λ p. cc),
        λ n p. let same : k ≡ n = grind arith in d.bytes ∙ ap (λ j. drop j (contents b)) same,
      )
]

-- For a valid buffer, `evbuffer_write` returns what write(2) answers for all its bytes and leaves
-- a valid buffer, without the first n bytes if the answer is n, and unchanged if it is -1; the
-- callback is told once if the length changed and not otherwise.
pub write_fd_lem :
    (answer : List ℕ → Option ℕ) (b : Evbuffer)
    → IsValid b
    → IsValid (write_fd answer b).1
      × ((write_fd answer b).0 ≡ answer (contents b))
      × Reported b (write_fd answer b).1
      × (answer (contents b) ≡ none → (write_fd answer b).1 ≡ b)
      × ((n : ℕ)
          → answer (contents b) ≡ some n
          → contents (write_fd answer b).1 ≡ drop n (contents b))
unfolding write_fd
write_fd_lem answer b v = wrote_lem b v (answer (contents b))
