-- ===== src/MinHeap/Remove.antt =====
-- About the removal of the event at an index, which `min_heap_pop` and `min_heap_erase` share.
use study_libevent.Prelude.{
  ℕ, suc, ◌+◌, ◌-◌, ◌<◌, ◌≡◌, ◌≢◌, ◌↔◌, inl, inr, refl, sym, ap, ◌∙◌, subst, true, false,
  Bool-cases, ◌==◌, ==_iff, ltb, ltb→lt, leb, ◌&&◌, Ensures, Ensures-if, Ensures-map, returns,
  arith,
}
use study_libevent.MinHeap.{
  Timeval, MinHeap, slot, place, parent, even_child, elem_greater, elem_init, no_index, shift_up,
  shift_down,
}
use study_libevent.MinHeap.Order.{IsBefore, IsBefore-trans, IsBefore-of_greater, IsHeap}
use study_libevent.MinHeap.Place.{
  slot-place_else, index-place_else, place-kept, IsOther, IsHeld, Filled,
}
use study_libevent.MinHeap.Up.{shift_up-Filled}
use study_libevent.MinHeap.Child.{even_child_small}
use study_libevent.MinHeap.Down.{IsSinking, Rising-of_sinking, shift_down-Filled}

module _ (timeout : ℕ → Timeval) where
  -- A heap of the events but that at index `i`.
  pub record Taken (s : MinHeap) (i : ℕ) (r : MinHeap) : Type 0 where
    pub heap : IsHeap timeout r
    pub count : r.n ≡ s.n - 1
    pub block : r.a ≡ s.a
    pub to : (x : ℕ) → IsHeld r x → IsOther s i x
    pub from : (x : ℕ) → IsOther s i x → IsHeld r x

  -- A heap of the events but `e`, which has no index.
  pub record Removed (s : MinHeap) (e : ℕ) (r : MinHeap) : Type 0 where
    pub heap : IsHeap timeout r
    pub count : r.n ≡ s.n - 1
    pub block : r.a ≡ s.a
    pub held : (x : ℕ) → IsHeld r x ↔ (IsHeld s x × (x ≢ e))
    pub index : r.min_heap_idx e ≡ no_index

  module _ (s : MinHeap) (i : ℕ) (v : IsHeap timeout s) (inside : i < s.n) where
    abbrev last : ℕ
    last = slot s (s.n - 1)

    abbrev rest : MinHeap
    rest = record s { n = s.n - 1 }

    distinct : (j k : ℕ) → j < s.n → k < s.n → slot s j ≡ slot s k → j ≡ k
    distinct j k p q z = sym (v.indexed j p) ∙ ap s.min_heap_idx z ∙ v.indexed k q

    rest-IsSinking : i < s.n - 1 → IsSinking timeout rest i last
    rest-IsSinking h = record {
      inside = h;
      room = omega (arith, v.room);
      sized = v.sized;
      small = omega (arith, v.small);
      ordered = λ c p q ne nu. v.ordered c p (omega arith);
      bridged = λ c p q z g.
          IsBefore-trans timeout (slot s (parent i)) (slot s i) (slot s c) (v.ordered i g inside)
            (subst (λ k. IsBefore timeout (slot s k) (slot s c)) z (v.ordered c p (omega arith)));
      indexed = λ j q ne. v.indexed j (omega arith);
      fresh = λ j q ne z. let y = distinct j (s.n - 1) (omega arith) (omega arith) z in omega arith;
    }

    Taken-of_Filled : i < s.n - 1 → (r : MinHeap) → Filled timeout rest i last r → Taken s i r
    Taken-of_Filled h r f = record {
      heap = f.heap;
      count = f.count;
      block = f.block;
      to = λ x w. elim (f.to x w) [
        | inl z ↦ (s.n - 1, omega arith, (λ y. omega arith), z)
        | inr (j, q, ne, z) ↦ (j, omega arith, ne, z)
      ];
      from = λ x (j, q, ne, z). elim (Bool-cases (j == s.n - 1)) [
        | inl t ↦ f.from x (inl (ap (slot s) (sym ((==_iff j (s.n - 1)).0 t)) ∙ z))
        | inr t ↦ f.from x (inr (j, ground arith, ne, z))
      ];
    }

    -- The last event is removed itself: it is written to where it stands, behind the others.
    placed-Taken : i ≡ s.n - 1 → Taken s i (place rest i last)
    placed-Taken e =
        let (n, a, size) = place-kept rest i last in
        let at = λ (j : ℕ) (q : j < s.n - 1).
          slot-place_else rest i last j (omega (arith, v.room)) (λ y. omega arith) in
        record {
          heap = record {
            room = omega (arith, n, size, v.room);
            sized = size ∙ v.sized ∙ sym a;
            small = omega (arith, n, v.small);
            ordered = λ c p q.
                let h : c < s.n - 1 = omega (arith, n) in
                rw (at c h, at (parent c) (omega arith)) (v.ordered c p (omega arith));
            indexed = λ j q.
                let h : j < s.n - 1 = omega (arith, n) in
                let other : last ≢ slot s j =
                  λ z. let y = distinct (s.n - 1) j (omega arith) (omega arith) z in omega arith in
                ap (place rest i last).min_heap_idx (at j h)
                ∙ index-place_else rest i last (slot s j) other
                ∙ v.indexed j (omega arith);
          };
          count = n;
          block = a;
          to = λ x (j, q, z).
              let h : j < s.n - 1 = omega (arith, n) in
              (j, omega arith, (λ y. omega arith), sym (at j h) ∙ z);
          from = λ x (j, q, ne, z).
              let h : j < s.n - 1 = omega arith in (j, omega (arith, n), at j h ∙ z);
        }

    last_up :
        (fuel : ℕ) → i ≡ s.n - 1 → Ensures (Taken s i) (shift_up timeout (suc fuel) rest i last)
    unfolding shift_up
    last_up fuel e =
        Ensures-if (ltb 0 i && elem_greater timeout (slot s (parent i)) last)
          (λ t.
            let pos : 0 < i = ground arith in
            let gt : elem_greater timeout (slot s (parent i)) last ≡ true = ground arith in
            let le =
              subst (λ k. IsBefore timeout (slot s (parent i)) (slot s k)) e
                (v.ordered i pos inside) in
            absurd (cc (le, gt)))
          λ t. returns (placed-Taken e)

    last_down :
        (fuel : ℕ) → i ≡ s.n - 1 → Ensures (Taken s i) (shift_down timeout (suc fuel) rest i last)
    unfolding shift_down
    last_down fuel e =
        let even = even_child_small i (omega (arith, v.small)) in
        let over : leb (even_child i) (s.n - 1) ≡ false = ground (arith, even) in
        let one : i + 1 ≡ suc i = omega arith in rw (over, one) (last_up i e)

    pub down-Taken : Ensures (Taken s i) (shift_down timeout (s.n + 1) rest i last)
    down-Taken = elim (Bool-cases (ltb i (s.n - 1))) [
      | inl t ↦
          let h = ltb→lt _ _ t in
          Ensures-map
            (shift_down-Filled timeout (s.n + 1) rest i last (omega arith) (rest-IsSinking h))
            (Taken-of_Filled h)
      | inr t ↦ let one : s.n + 1 ≡ suc s.n = omega arith in rw one (last_down s.n (ground arith))
    ]

    pub up-Taken :
        0 < i
        → elem_greater timeout (slot s (parent i)) last ≡ true
        → Ensures (Taken s i) (shift_up timeout (i + 1) rest i last)
    up-Taken pos gt = elim (Bool-cases (ltb i (s.n - 1))) [
      | inl t ↦
          let h = ltb→lt _ _ t in
          let w = rest-IsSinking h in
          Ensures-map
            (shift_up-Filled timeout (i + 1) rest i last (omega arith) (
              Rising-of_sinking timeout rest i last w λ c p q z.
                IsBefore-trans timeout last (slot s (parent i)) (slot s c)
                  (IsBefore-of_greater timeout (slot s (parent i)) last gt)
                  (w.bridged c p q z pos)))
            (Taken-of_Filled h)
      | inr t ↦ let one : i + 1 ≡ suc i = omega arith in rw one (last_up i (ground arith))
    ]

    -- `e->min_heap_idx = -1`, at last
    pub Removed-of_Taken :
        (r : MinHeap) → Taken s i r → Removed s (slot s i) (elem_init r (slot s i))
    unfolding elem_init
    Removed-of_Taken r t = record {
      heap = record {
        room = t.heap.room;
        sized = t.heap.sized;
        small = t.heap.small;
        ordered = t.heap.ordered;
        indexed = λ j h.
            let other : (slot s i == slot r j) ≡ false =
              ground (arith, others (slot r j) (j, h, refl)) in
            rw other (t.heap.indexed j h);
      };
      count = t.count;
      block = t.block;
      held = λ x. (
        (λ w. let (j, h, ne, z) = t.to x w in ((j, h, z), λ y. others x w (sym y))),
        λ ((j, h, z), ne). t.from x (j, h, (λ y. ne (sym z ∙ ap (slot s) y)), z),
      );
      index = rw ((==_iff (slot s i) (slot s i)).1 refl) refl;
    }
      where
        others : (x : ℕ) → IsHeld r x → slot s i ≢ x
        others x w y = let (j, h, ne, z) = t.to x w in ne (distinct j i h inside (z ∙ sym y))
