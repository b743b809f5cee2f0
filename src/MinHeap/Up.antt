-- ===== src/MinHeap/Up.antt =====
-- About `min_heap_shift_up_` of min_heap.h.
use study_libevent.Prelude.{
  ℕ, zero, suc, ◌<◌, ◌≡◌, ◌≢◌, ◌↔◌, inl, inr, sym, ap, ◌∙◌, subst, true, length, Bool-cases, ◌==◌,
  ==_iff, ltb, ◌&&◌, Ensures, Ensures-if, Ensures-map, returns, arith,
}
use study_libevent.MinHeap.{Timeval, MinHeap, slot, place, parent, elem_greater, shift_up}
use study_libevent.MinHeap.Order.{IsBefore, IsBefore-trans, IsBefore-of_greater}
use study_libevent.MinHeap.Move.{filled_indexed, filled_fresh, filled_others}
use study_libevent.MinHeap.Place.{
  slot-place_at, slot-place_else, place-kept, IsOther, IsRising, Filled, in_block, placed-Filled,
}

module _ (timeout : ℕ → Timeval) where
  module _ (s : MinHeap) (hole e : ℕ) (v : IsRising timeout s hole e) where
    -- The parent's event goes down into the hole.
    module _ (pos : 0 < hole) (gt : elem_greater timeout (slot s (parent hole)) e ≡ true) where
      up : ℕ
      up = slot s (parent hole)

      next : MinHeap
      next = place s hole up

      next_at : slot next hole ≡ up
      unfolding next
      next_at = slot-place_at s hole up (in_block timeout s hole e v)

      next_else : (j : ℕ) → j ≢ hole → slot next j ≡ slot s j
      unfolding next
      next_else j ne = slot-place_else s hole up j (in_block timeout s hole e v) ne

      next_kept : (next.n ≡ s.n) × (next.a ≡ s.a) × (length next.p ≡ length s.p)
      unfolding next
      next_kept = place-kept s hole up

      -- A child of the hole's parent is below that parent.
      sibling :
          (c : ℕ)
          → 0 < c
          → c < s.n
          → parent c ≡ parent hole
          → c ≢ hole
          → IsBefore timeout up (slot s c)
      unfolding up
      sibling c p q z ne =
          subst (λ k. IsBefore timeout (slot s k) (slot s c)) z
            (v.ordered c p q ne (λ y. omega arith))

      next_ordered :
          (c : ℕ)
          → 0 < c
          → c < s.n
          → c ≢ parent hole
          → parent c ≢ parent hole
          → IsBefore timeout (slot next (parent c)) (slot next c)
      unfolding up
      next_ordered c p q ne nu =
          let not_hole : c ≢ hole = λ z. nu (ap parent z) in
          elim (Bool-cases (parent c == hole)) [
            | inl t ↦
                let z : parent c ≡ hole = (==_iff (parent c) hole).0 t in
                rw (next_else c not_hole, z, next_at) (v.bridged c p q z pos)
            | inr t ↦
                let np : parent c ≢ hole = ground arith in
                rw (next_else c not_hole, next_else (parent c) np) (v.ordered c p q not_hole np)
          ]

      -- Both the event that went down and its old other child stand below the parent now.
      next_child :
          (x : ℕ)
          → IsBefore timeout x up
          → (c : ℕ) → 0 < c
          → c < s.n
          → parent c ≡ parent hole
          → IsBefore timeout x (slot next c)
      next_child x b c p q z = elim (Bool-cases (c == hole)) [
        | inl t ↦
            let y : hole ≡ c = ground arith in
            subst (λ k. IsBefore timeout x (slot next k)) y (rw next_at b)
        | inr t ↦
            let ne : c ≢ hole = ground arith in
            rw (next_else c ne) (IsBefore-trans timeout x up (slot s c) b (sibling c p q z ne))
      ]

      above : 0 < parent hole → IsBefore timeout (slot s (parent (parent hole))) up
      unfolding up
      above p =
          v.ordered (parent hole) p (omega (arith, v.inside)) (λ z. omega arith) (λ z. omega arith)

      lower : parent hole < s.n
      lower = omega (arith, v.inside)

      apart : parent hole ≢ hole
      apart z = omega arith

      next_indexed : (j : ℕ) → j < s.n → j ≢ parent hole → next.min_heap_idx (slot next j) ≡ j
      unfolding next up
      next_indexed =
          filled_indexed s hole (parent hole) e v.inside v.room lower apart v.indexed v.fresh

      next_fresh : (j : ℕ) → j < s.n → j ≢ parent hole → slot next j ≢ e
      unfolding next up
      next_fresh = filled_fresh s hole (parent hole) e v.inside v.room lower apart v.indexed v.fresh

      next-IsRising : IsRising timeout next (parent hole) e
      next-IsRising =
          let (n, a, size) = next_kept in
          record {
            inside = omega (arith, n, v.inside);
            room = omega (arith, n, size, v.room);
            sized = size ∙ v.sized ∙ sym a;
            small = omega (arith, n, v.small);
            ordered = λ c p q. next_ordered c p (omega (arith, n));
            below = λ c p q.
                next_child e (IsBefore-of_greater timeout up e (unfold up in gt)) c p
                  (omega (arith, n));
            bridged = λ c p q z g.
                let b =
                  next_child (slot s (parent (parent hole))) (above g) c p (omega (arith, n)) z in
                rw (next_else (parent (parent hole)) (λ y. omega arith)) b;
            indexed = λ j h. next_indexed j (omega (arith, n));
            fresh = λ j h. next_fresh j (omega (arith, n));
          }

      next_others : (x : ℕ) → IsOther next (parent hole) x ↔ IsOther s hole x
      unfolding next up
      next_others =
          filled_others s hole (parent hole) e v.inside v.room lower apart v.indexed v.fresh

      next-Filled :
          (r : MinHeap) → Filled timeout next (parent hole) e r → Filled timeout s hole e r
      next-Filled r f = record {
        heap = f.heap;
        count = f.count ∙ next_kept.0;
        block = f.block ∙ next_kept.1;
        to = λ x w. elim (f.to x w) [ inl z ↦ inl z | inr o ↦ inr ((next_others x).0 o) ];
        from = λ x w. f.from x (elim w [ inl z ↦ inl z | inr o ↦ inr ((next_others x).1 o) ]);
      }

  -- `min_heap_shift_up_` ends with the event in its place: a heap of the event and the others.
  pub shift_up-Filled :
      (fuel : ℕ) (s : MinHeap) (hole e : ℕ)
      → hole < fuel
      → IsRising timeout s hole e
      → Ensures (Filled timeout s hole e) (shift_up timeout fuel s hole e)
  unfolding shift_up next up
  shift_up-Filled zero s hole e f v = absurd (omega arith)
  shift_up-Filled (suc fuel) s hole e f v =
      Ensures-if (ltb 0 hole && elem_greater timeout (slot s (parent hole)) e)
        (λ t.
          let pos : 0 < hole = ground arith in
          let gt : elem_greater timeout (slot s (parent hole)) e ≡ true = ground arith in
          Ensures-map
            (shift_up-Filled fuel (next s hole e v pos gt) (parent hole) e (omega arith)
              (next-IsRising s hole e v pos gt))
            (next-Filled s hole e v pos gt))
        λ t. returns (placed-Filled timeout s hole e v λ pos. ground arith)
