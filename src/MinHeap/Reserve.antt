-- ===== src/MinHeap/Reserve.antt =====
-- About `min_heap_reserve` of min_heap.h.
use study_libevent.Prelude.{
  true, ℕ, ◌*◌, ◌%◌, ◌^◌, ◌≤◌, ◌<◌, ◌≡◌, ◌↔◌, inl, inr, refl, sym, ◌∙◌, false, length, Bool,
  Bool-cases, ◌==◌, ltb, ltb→lt, if◌then◌else◌, arith, Status, ok, fail,
}
use study_libevent.Prelude.Memory.{length-resize, get_or-resize}
use study_libevent.MinHeap.{Timeval, MinHeap, slot, parent, reserve}
use study_libevent.MinHeap.Order.{IsHeap}
use study_libevent.MinHeap.Place.{IsHeld}

-- The events stay, in a block that may have grown.
pub record Reserved (realloc : ℕ → Bool) (s : MinHeap) (n : ℕ) (r : Status × MinHeap) : Type 0 where
  pub sized : length r.1.p ≡ r.1.a
  pub count : r.1.n ≡ s.n
  pub index : r.1.min_heap_idx ≡ s.min_heap_idx
  pub slots : (i : ℕ) → i < s.n → slot r.1 i ≡ slot s i
  pub kept : s.n ≤ length r.1.p
  pub room : r.0 ≡ ok → n ≤ length r.1.p
  pub refused : r.0 ≡ fail → (r.1 ≡ s) × (a : ℕ) × (realloc a ≡ false)

pub reserve-Reserved :
    (realloc : ℕ → Bool) (junk : ℕ → ℕ) (s : MinHeap) (n : ℕ)
    → s.n ≤ length s.p
    → length s.p ≡ s.a
    → n < 2 ^ 32
    → Reserved realloc s n (reserve realloc junk s n)
unfolding reserve
reserve-Reserved realloc junk s n room sized small =
    let twice = if s.a == 0 then 8 else s.a * 2 % 2 ^ 32 in
    let a = if ltb twice n then n else twice in
    let wide : n ≤ a = ground arith in
    elim (Bool-cases (ltb s.a n)) [
      | inl t ↦ elim (Bool-cases (realloc a)) [
        | inl g ↦
            rw (t, g)
              (record {
                sized = length-resize junk a s.p;
                count = refl;
                index = refl;
                slots = λ i h.
                    get_or-resize junk a s.p i 0 (omega (arith, ltb→lt s.a n t)) (omega arith);
                kept = omega (arith, length-resize junk a s.p, ltb→lt s.a n t);
                room = λ _. omega (arith, length-resize junk a s.p);
                refused = λ p. cc;
              })
        | inr g ↦
            rw (t, g)
              (record {
                sized = sized;
                count = refl;
                index = refl;
                slots = λ i h. refl;
                kept = room;
                room = λ p. cc;
                refused = λ _. (refl, a, g);
              })
      ]
      | inr t ↦ rw t (record {
        sized = sized;
        count = refl;
        index = refl;
        slots = λ i h. refl;
        kept = room;
        room = λ _. ground arith;
        refused = λ p. cc;
      })
    ]

-- Where `realloc` gives no block of 2 ^ 31 slots or more, `min_heap_reserve` makes none.
pub reserve-modest :
    (realloc : ℕ → Bool) (junk : ℕ → ℕ) (s : MinHeap) (n : ℕ)
    → ((a : ℕ) → realloc a ≡ true → a < 2 ^ 31)
    → s.a < 2 ^ 31
    → (reserve realloc junk s n).1.a < 2 ^ 31
unfolding reserve
reserve-modest realloc junk s n modest h =
    let twice = if s.a == 0 then 8 else s.a * 2 % 2 ^ 32 in
    let a = if ltb twice n then n else twice in
    elim (Bool-cases (ltb s.a n)) [
      | inl t ↦ elim (Bool-cases (realloc a)) [
        | inl g ↦ rw (t, g) (modest a g)
        | inr g ↦ rw (t, g) h
      ]
      | inr t ↦ rw t h
    ]

module _ (timeout : ℕ → Timeval) where
  -- The heap behind `min_heap_reserve`
  pub reserve-IsHeap :
      (realloc : ℕ → Bool) (junk : ℕ → ℕ) (s : MinHeap) (n : ℕ)
      → IsHeap timeout s
      → n < 2 ^ 32
      → let r = reserve realloc junk s n in
        IsHeap timeout r.1
        × (r.1.n ≡ s.n)
        × ((x : ℕ) → IsHeld r.1 x ↔ IsHeld s x)
        × (r.0 ≡ ok → n ≤ r.1.a)
        × (r.0 ≡ fail → (r.1 ≡ s) × (a : ℕ) × (realloc a ≡ false))
  reserve-IsHeap realloc junk s n v small =
      let w = reserve-Reserved realloc junk s n v.room v.sized small in
      (
        record {
          room = omega (arith, w.kept, w.count);
          sized = w.sized;
          small = omega (arith, w.count, v.small);
          ordered = λ c p q.
              let h : c < s.n = omega (arith, w.count) in
              rw (w.slots c h, w.slots (parent c) (omega arith)) (v.ordered c p h);
          indexed = λ j q.
              let h : j < s.n = omega (arith, w.count) in rw (w.slots j h, w.index) (v.indexed j h);
        },
        w.count,
        (λ x. (
          (λ (j, q, z). let h : j < s.n = omega (arith, w.count) in (j, h, sym (w.slots j h) ∙ z)),
          λ (j, h, z). (j, omega (arith, w.count), w.slots j h ∙ z),
        )),
        (λ p. omega (arith, w.room p, w.sized)),
        w.refused,
      )
