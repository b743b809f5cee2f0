-- ===== src/MinHeap/Down.antt =====
-- About `min_heap_shift_down_` of min_heap.h.
use study_libevent.Prelude.{
  ℕ, zero, suc, ◌+◌, ◌^◌, ◌≤◌, ◌<◌, ◌≡◌, ◌≢◌, inl, inr, sym, ◌∙◌, subst, true, false, length,
  Bool-cases, ◌==◌, ==_iff, leb, leb→le, ◌&&◌, Ensures, Ensures-if, Ensures-map, arith,
}
use study_libevent.MinHeap.{
  Timeval, MinHeap, slot, place, parent, even_child, min_child, elem_greater, shift_down,
}
use study_libevent.MinHeap.Order.{IsBefore, IsBefore-trans}
use study_libevent.MinHeap.Place.{place-kept, IsRising, Filled}
use study_libevent.MinHeap.Move.{
  filled_at, filled_else, filled_indexed, filled_fresh, filled_others,
}
use study_libevent.MinHeap.Up.{shift_up-Filled}
use study_libevent.MinHeap.Child.{
  even_child_small, two_children, IsFirstChild, min_child-IsFirstChild,
}

module _ (timeout : ℕ → Timeval) where
  -- A heap but for the event `e` that is to go to the hole, above it or below it.
  pub record IsSinking (s : MinHeap) (hole e : ℕ) : Type 0 where
    pub inside : hole < s.n
    pub room : s.n ≤ length s.p
    pub sized : length s.p ≡ s.a
    pub small : s.n < 2 ^ 31
    pub ordered :
        (c : ℕ)
        → 0 < c
        → c < s.n
        → c ≢ hole
        → parent c ≢ hole
        → IsBefore timeout (slot s (parent c)) (slot s c)
    pub bridged :
        (c : ℕ)
        → 0 < c
        → c < s.n
        → parent c ≡ hole
        → 0 < hole
        → IsBefore timeout (slot s (parent hole)) (slot s c)
    pub indexed : (j : ℕ) → j < s.n → j ≢ hole → s.min_heap_idx (slot s j) ≡ j
    pub fresh : (j : ℕ) → j < s.n → j ≢ hole → slot s j ≢ e

  pub Rising-of_sinking :
      (s : MinHeap) (hole e : ℕ)
      → IsSinking s hole e
      → ((c : ℕ) → 0 < c → c < s.n → parent c ≡ hole → IsBefore timeout e (slot s c))
      → IsRising timeout s hole e
  Rising-of_sinking s hole e v below = record {
    inside = v.inside;
    room = v.room;
    sized = v.sized;
    small = v.small;
    ordered = v.ordered;
    below = below;
    bridged = v.bridged;
    indexed = v.indexed;
    fresh = v.fresh;
  }

  module _ (s : MinHeap) (hole e c : ℕ) (v : IsSinking s hole e)
      (f : IsFirstChild timeout s hole c) where
    apart : c ≢ hole
    apart z = omega (arith, f.under, f.pos)

    next : MinHeap
    next = place s hole (slot s c)

    next_at : slot next hole ≡ slot s c
    unfolding next
    next_at = filled_at s hole c e v.inside v.room f.there apart v.indexed v.fresh

    next_else : (j : ℕ) → j ≢ hole → slot next j ≡ slot s j
    unfolding next
    next_else = filled_else s hole c e v.inside v.room f.there apart v.indexed v.fresh

    next_ordered :
        (k : ℕ)
        → 0 < k
        → k < s.n
        → k ≢ c
        → parent k ≢ c
        → IsBefore timeout (slot next (parent k)) (slot next k)
    next_ordered k p q ne nu = elim (Bool-cases (k == hole)) [
      | inl t ↦
          let z : hole ≡ k = ground arith in
          let pos : 0 < hole = omega arith in
          subst (λ j. IsBefore timeout (slot next (parent j)) (slot next j)) z
            (rw (next_at, next_else (parent hole) (λ y. omega arith))
              (v.bridged c f.pos f.there f.under pos))
      | inr t ↦
          let nh : k ≢ hole = ground arith in
          elim (Bool-cases (parent k == hole)) [
            | inl u ↦
                let z : parent k ≡ hole = (==_iff (parent k) hole).0 u in
                rw (next_else k nh, z, next_at) (f.first k p q z)
            | inr u ↦
                let np : parent k ≢ hole = ground arith in
                rw (next_else k nh, next_else (parent k) np) (v.ordered k p q nh np)
          ]
    ]

    next_bridged :
        (k : ℕ)
        → 0 < k
        → k < s.n
        → parent k ≡ c
        → IsBefore timeout (slot next (parent c)) (slot next k)
    next_bridged k p q z =
        let nh : k ≢ hole = λ y. omega (arith, f.under, f.pos) in
        rw (f.under, next_at, next_else k nh)
          (subst (λ j. IsBefore timeout (slot s j) (slot s k)) z
            (v.ordered k p q nh (λ y. apart (sym z ∙ y))))

    next-IsSinking : IsSinking next c e
    unfolding next
    next-IsSinking =
        let (n, a, size) = place-kept s hole (slot s c) in
        record {
          inside = omega (arith, n, f.there);
          room = omega (arith, n, size, v.room);
          sized = size ∙ v.sized ∙ sym a;
          small = omega (arith, n, v.small);
          ordered = λ k p q. next_ordered k p (omega (arith, n));
          bridged = λ k p q z g. next_bridged k p (omega (arith, n)) z;
          indexed = λ j h.
              filled_indexed s hole c e v.inside v.room f.there apart v.indexed v.fresh j
                (omega (arith, n));
          fresh = λ j h.
              filled_fresh s hole c e v.inside v.room f.there apart v.indexed v.fresh j
                (omega (arith, n));
        }

    next-Filled : (r : MinHeap) → Filled timeout next c e r → Filled timeout s hole e r
    unfolding next
    next-Filled r w =
        let others = filled_others s hole c e v.inside v.room f.there apart v.indexed v.fresh in
        record {
          heap = w.heap;
          count = w.count ∙ (place-kept s hole (slot s c)).0;
          block = w.block ∙ (place-kept s hole (slot s c)).1;
          to = λ x h. elim (w.to x h) [ inl z ↦ inl z | inr o ↦ inr ((others x).0 o) ];
          from = λ x h. w.from x (elim h [ inl z ↦ inl z | inr o ↦ inr ((others x).1 o) ]);
        }

  -- Where the loop ends, the event is due no later than the children of its hole.
  settled :
      (s : MinHeap) (hole e : ℕ)
      → IsSinking s hole e
      → (leb (even_child hole) s.n && elem_greater timeout e (slot s (min_child timeout s hole)))
        ≡ false
      → (k : ℕ) → 0 < k
      → k < s.n
      → parent k ≡ hole
      → IsBefore timeout e (slot s k)
  settled s hole e v t k p q z =
      let even = even_child_small hole (omega (arith, v.inside, v.small)) in
      elim (Bool-cases (leb (even_child hole) s.n)) [
        | inl u ↦
            let fits = leb→le _ _ u in
            let f = min_child-IsFirstChild timeout s hole v.small v.inside fits in
            let b : elem_greater timeout e (slot s (min_child timeout s hole)) ≡ false =
              ground arith in
            IsBefore-trans timeout e (slot s (min_child timeout s hole)) (slot s k) b
              (f.first k p q z)
        | inr u ↦ absurd (ground (arith, even, two_children hole k p z))
      ]

  -- `min_heap_shift_down_` ends with the event in its place: a heap of the event and the others.
  pub shift_down-Filled :
      (fuel : ℕ) (s : MinHeap) (hole e : ℕ)
      → s.n < hole + fuel
      → IsSinking s hole e
      → Ensures (Filled timeout s hole e) (shift_down timeout fuel s hole e)
  unfolding shift_down next
  shift_down-Filled zero s hole e g v = absurd (omega (arith, v.inside))
  shift_down-Filled (suc fuel) s hole e g v =
      let c = min_child timeout s hole in
      Ensures-if (leb (even_child hole) s.n && elem_greater timeout e (slot s c))
        (λ t.
          let fits : leb (even_child hole) s.n ≡ true = ground arith in
          let f = min_child-IsFirstChild timeout s hole v.small v.inside (leb→le _ _ fits) in
          let n = (place-kept s hole (slot s c)).0 in
          Ensures-map
            (shift_down-Filled fuel (next s hole e c v f) c e (omega (arith, n, f.under, f.pos))
              (next-IsSinking s hole e c v f))
            (next-Filled s hole e c v f))
        λ t.
          shift_up-Filled timeout (hole + 1) s hole e (omega arith)
            (Rising-of_sinking s hole e v (settled s hole e v t))
