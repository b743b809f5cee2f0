-- ===== src/Evbuffer/Grow.antt =====
-- About `evbuffer_expand` of buffer.c: the size it asks for, and what it leaves.
use study_libevent.Prelude.{
  ℕ, zero, suc, ◌+◌, ◌*◌, ◌%◌, ◌^◌, ◌≤◌, ◌<◌, ◌≡◌, refl, Option, none, some, length, arith, ap, ltb,
  leb, ◌==◌, Status, ok, fail, Ensures, Ensures-if, returns, sym, Bool-cases, ◌∙◌, ◌⊎◌, inl, inr,
}
use native.Mathlib.Nat.{pow-suc}
use study_libevent.Prelude.Memory.{window, resize, length-resize, window-resize}
use study_libevent.Evbuffer.{
  Evbuffer, Realloc, size_max, contents, align, grow_loop, grown_size, fronted, moved, reallocate,
  expand, add_size, sub_size,
}
use study_libevent.Evbuffer.Valid.{
  IsValid, SameView, SameView-refl, SameView-trans, align-IsValid, align-SameView,
}

-- The doubling loop ends by its own test once the fuel covers the distance in powers of two.
grow_loop_reaches :
    (k need length : ℕ)
    → need < 2 ^ 63
    → need ≤ length * 2 ^ k
    → length < 2 ^ 64
    → (need ≤ grow_loop k need length) × (grow_loop k need length < 2 ^ 64)
unfolding grow_loop
grow_loop_reaches zero need length h e g = omega arith
grow_loop_reaches (suc k) need length h e g =
    let half : need ≤ length * 2 * 2 ^ k = omega (arith, ap (λ t. length * t) (pow-suc 2 k)) in
    ground (arith, grow_loop_reaches k need (length * 2 % 2 ^ 64) h)

-- Where the old size and the size needed are at most `size_max`, the size computed by
-- `evbuffer_expand` is at least the size needed and at most `size_max`.
pub grown_size_fits :
    (totallen need : ℕ)
    → totallen ≤ size_max
    → need ≤ size_max
    → (need ≤ grown_size totallen need) × (grown_size totallen need ≤ size_max)
unfolding grown_size
grown_size_fits totallen need h g =
    ground (arith, grow_loop_reaches 64 need 256, grow_loop_reaches 64 need totallen)

-- What `evbuffer_expand` leaves: the same bytes in a valid buffer, with room where it returns 0.
pub record Expanded (realloc : Realloc) (b : Evbuffer) (n : ℕ) (r : Status × Evbuffer)
    : Type 0 where
  pub valid : IsValid r.1
  pub same : SameView b r.1
  pub room : r.0 ≡ ok → r.1.misalign + r.1.off + n ≤ r.1.totallen
  pub refused :
      r.0 ≡ fail → (size_max < b.off + n) ⊎ ((size : ℕ) × (size ≤ size_max) × (realloc size ≡ none))

-- What moves to the front of a larger block is the old contents.
resized_contents :
    (junk : ℕ → ℕ) (b : Evbuffer) (size : ℕ)
    → IsValid b
    → b.buffer ≡ 0
    → b.off ≤ size
    → window 0 b.off (resize junk size b.memory) ≡ contents b
resized_contents junk b size v z h =
    window-resize junk size b.off b.memory h (omega arith)
    ∙ ap (λ i. window i b.off b.memory) (sym z)

fronted-front :
    (b : Evbuffer)
    → IsValid b
    → IsValid (fronted b) × SameView b (fronted b) × ((fronted b).buffer ≡ 0)
unfolding fronted
fronted-front b v = elim (Bool-cases (b.buffer == 0)) [
  | inl e ↦ rw e (v, SameView-refl b, ground arith)
  | inr e ↦ rw e (align-IsValid v, align-SameView v, unfold align in refl)
]

moved-Expanded :
    (realloc : Realloc) (answer : Option (ℕ → ℕ)) (size n : ℕ) (b : Evbuffer)
    → realloc size ≡ answer
    → IsValid b
    → b.buffer ≡ 0
    → b.off + n ≤ size
    → size ≤ size_max
    → Expanded realloc b n (moved answer size b)
unfolding moved
moved-Expanded realloc none size n b a v z h g = record {
  valid = v;
  same = SameView-refl b;
  room = λ p. cc;
  refused = λ _. inr (size, g, a);
}
moved-Expanded realloc (some junk) size n b a v z h g = record {
  valid = ground (arith, length-resize junk size b.memory);
  same = record {
    bytes = resized_contents junk b size v z (omega arith);
    off = refl;
    cb = refl;
    calls = refl;
  };
  room = λ _. omega arith;
  refused = λ p. cc;
}

reallocate-Expanded :
    (realloc : Realloc) (b : Evbuffer) (n : ℕ)
    → IsValid b
    → b.off + n ≤ size_max
    → Expanded realloc b n (reallocate realloc b n)
unfolding reallocate
reallocate-Expanded realloc b n v h =
    let size = grown_size b.totallen (add_size b.off n) in
    let (v', same, front) = fronted-front b v in
    let wide = grown_size_fits b.totallen (add_size b.off n) v.small (omega arith) in
    let e =
      moved-Expanded realloc (realloc size) size n (fronted b) refl v' front
        (omega (arith, same.off)) wide.1 in
    record {
      valid = e.valid;
      same = SameView-trans same e.same;
      room = e.room;
      refused = λ p. rw same.off at (e.refused p);
    }

-- For a valid buffer, `evbuffer_expand` returns (its assert holds) and leaves a valid buffer with
-- the same bytes, length, callback and calls; with 0 it has room for `n` more bytes; with -1 the
-- total exceeds `size_max` or `realloc` refused a size.
pub expand-Expanded :
    (realloc : Realloc) (b : Evbuffer) (n : ℕ)
    → IsValid b
    → Ensures (Expanded realloc b n) (expand realloc b n)
unfolding expand
expand-Expanded realloc b n v =
    Ensures-if (ltb b.totallen (add_size b.misalign b.off)) (λ e. absurd (ground arith))
      λ _.
        Ensures-if (leb n (sub_size b.totallen (add_size b.misalign b.off)))
          (λ e. returns (record {
            valid = v;
            same = SameView-refl b;
            room = λ _. ground arith;
            refused = λ p. cc;
          }))
          λ _.
            Ensures-if (ltb (sub_size size_max b.off) n)
              (λ full. returns (record {
                valid = v;
                same = SameView-refl b;
                room = λ p. cc;
                refused = λ _. inl (ground arith);
              }))
              λ over.
                Ensures-if (leb n (sub_size b.totallen b.off))
                  (λ e. returns (record {
                    valid = align-IsValid v;
                    same = align-SameView v;
                    room = λ _. unfold align in ground arith;
                    refused = λ p. cc;
                  }))
                  λ _. returns (reallocate-Expanded realloc b n v (ground arith))
