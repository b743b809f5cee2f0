-- ===== src/MinHeap/Child.antt =====
-- About the child of a hole that `min_heap_shift_down_` of min_heap.h compares with.
use study_libevent.Prelude.{
  ℕ, ◌+◌, ◌-◌, ◌*◌, ◌^◌, ◌≤◌, ◌<◌, ◌≡◌, ◌⊎◌, inl, inr, sym, subst, Bool-cases, ◌==◌, arith,
}
use study_libevent.MinHeap.{Timeval, MinHeap, slot, parent, even_child, min_child, elem_greater}
use study_libevent.MinHeap.Order.{IsBefore, IsBefore-of_greater, IsBefore-refl}

pub even_child_small : (hole : ℕ) → hole < 2 ^ 31 - 1 → even_child hole ≡ 2 * hole + 2
even_child_small hole h = omega arith

pub two_children : (hole k : ℕ) → 0 < k → parent k ≡ hole → (k ≡ 2 * hole + 1) ⊎ (k ≡ 2 * hole + 2)
two_children hole k p z = ground arith

module _ (timeout : ℕ → Timeval) where
  -- The child that is due first
  pub record IsFirstChild (s : MinHeap) (hole c : ℕ) : Type 0 where
    pub pos : 0 < c
    pub there : c < s.n
    pub under : parent c ≡ hole
    pub first : (k : ℕ) → 0 < k → k < s.n → parent k ≡ hole → IsBefore timeout (slot s c) (slot s k)

  odd_first :
      (s : MinHeap) (hole : ℕ)
      → 2 * hole + 1 < s.n
      → (2 * hole + 2 < s.n → IsBefore timeout (slot s (2 * hole + 1)) (slot s (2 * hole + 2)))
      → IsFirstChild s hole (2 * hole + 1)
  odd_first s hole h before = record {
    pos = omega arith;
    there = h;
    under = omega arith;
    first = λ k p q z. elim (two_children hole k p z) [
      | inl y ↦
          subst (λ j. IsBefore timeout (slot s (2 * hole + 1)) (slot s j)) (sym y)
            (IsBefore-refl timeout _)
      | inr y ↦
          subst (λ j. IsBefore timeout (slot s (2 * hole + 1)) (slot s j)) (sym y)
            (before (omega arith))
    ];
  }

  even_first :
      (s : MinHeap) (hole : ℕ)
      → 2 * hole + 2 < s.n
      → IsBefore timeout (slot s (2 * hole + 2)) (slot s (2 * hole + 1))
      → IsFirstChild s hole (2 * hole + 2)
  even_first s hole h before = record {
    pos = omega arith;
    there = h;
    under = omega arith;
    first = λ k p q z. elim (two_children hole k p z) [
      | inl y ↦ subst (λ j. IsBefore timeout (slot s (2 * hole + 2)) (slot s j)) (sym y) before
      | inr y ↦
          subst (λ j. IsBefore timeout (slot s (2 * hole + 2)) (slot s j)) (sym y)
            (IsBefore-refl timeout _)
    ];
  }

  pub min_child-IsFirstChild :
      (s : MinHeap) (hole : ℕ)
      → s.n < 2 ^ 31
      → hole < s.n
      → even_child hole ≤ s.n
      → IsFirstChild s hole (min_child timeout s hole)
  unfolding min_child
  min_child-IsFirstChild s hole small inside fits =
      let even = even_child_small hole (omega arith) in
      let odd : 2 * hole + 2 - 1 ≡ 2 * hole + 1 = omega arith in
      rw (even, odd)
        (elim (Bool-cases ((2 * hole + 2) == s.n)) [
          | inl t ↦ rw t (odd_first s hole (ground arith) (λ h. absurd (ground arith)))
          | inr t ↦
              elim (Bool-cases
                (elem_greater timeout (slot s (2 * hole + 2)) (slot s (2 * hole + 1)))) [
                  | inl g ↦
                      rw (t, g)
                        (odd_first s hole (omega arith) (λ h. IsBefore-of_greater timeout _ _ g))
                  | inr g ↦ rw (t, g) (even_first s hole (ground arith) g)
                ]
        ])
