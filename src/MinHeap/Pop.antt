-- ===== src/MinHeap/Pop.antt =====
-- About `min_heap_pop` and `min_heap_erase` of min_heap.h.
use study_libevent.Prelude.{
  ℕ, ◌-◌, ◌<◌, ◌≡◌, ◌⊎◌, inl, inr, refl, sym, ap, ◌∙◌, subst, false, Option, none, some, ◌==◌,
  ==_iff, ltb, ◌&&◌, Status, ok, fail, Ensures, Ensures-if, Ensures-bind, returns, arith,
}
use study_libevent.MinHeap.{
  Timeval, MinHeap, slot, parent, elem_greater, elem_init, no_index, pop, erase,
}
use study_libevent.MinHeap.Order.{IsBefore, IsHeap, least_upto}
use study_libevent.MinHeap.Place.{IsHeld}
use study_libevent.MinHeap.Remove.{Removed, Removed-of_Taken, down-Taken, up-Taken}

module _ (timeout : ℕ → Timeval) where
  -- What `min_heap_pop` returns.
  pub record Popped (s : MinHeap) (r : Option ℕ × MinHeap) : Type 0 where
    pub on_null : r.0 ≡ none → (s.n ≡ 0) × (r.1 ≡ s)
    pub on_event :
        (e : ℕ)
        → r.0 ≡ some e
        → IsHeld s e × ((x : ℕ) → IsHeld s x → IsBefore timeout e x) × Removed timeout s e r.1

  -- For a heap, `min_heap_pop` ends: with NULL the heap was empty and is unchanged; otherwise it
  -- returns an event that was in the heap and is due no later than any that was, and leaves a
  -- heap of the other events, one fewer, which know their indices, while that of the event
  -- returned is -1.
  pub pop-Popped : (s : MinHeap) → IsHeap timeout s → Ensures (Popped s) (pop timeout s)
  unfolding pop
  pop-Popped s v =
      Ensures-if (s.n == 0)
        (λ t. returns (record { on_null = λ _. ((==_iff s.n 0).0 t, refl); on_event = λ e p. cc }))
        λ t.
          let inside : 0 < s.n = ground arith in
          Ensures-bind (down-Taken timeout s 0 v inside) λ r w. returns (record {
            on_null = λ p. cc;
            on_event = λ e p.
                let z : slot s 0 ≡ e = grind arith in
                (
                  (0, inside, z),
                  (λ x (j, h, y).
                      let b = least_upto timeout s v j j (omega arith) h in
                      subst (λ k. IsBefore timeout e k) y
                        (subst (λ k. IsBefore timeout k (slot s j)) z b)),
                  subst (λ k. Removed timeout s k (elem_init r (slot s 0))) z
                      (Removed-of_Taken timeout s 0 v inside r w),
                );
          })

  -- What `min_heap_erase` returns.
  pub record Erased (s : MinHeap) (e : ℕ) (r : Status × MinHeap) : Type 0 where
    pub on_ok : r.0 ≡ ok → IsHeld s e × Removed timeout s e r.1
    pub on_fail : r.0 ≡ fail → (¬ IsHeld s e) × (r.1 ≡ s)

  -- An event in the heap is erased.
  erase_held :
      (s : MinHeap) (i : ℕ)
      → IsHeap timeout s
      → i < s.n
      → Ensures (Erased s (slot s i)) (erase timeout s (slot s i))
  unfolding erase
  erase_held s i v inside =
      let at : s.min_heap_idx (slot s i) ≡ i = v.indexed i inside in
      let known : (i == no_index) ≡ false = ground (arith, v.small) in
      rw (at, known)
        (Ensures-bind
          (Ensures-if (ltb 0 i && elem_greater timeout (slot s (parent i)) (slot s (s.n - 1)))
            (λ t. up-Taken timeout s i v inside (ground arith) (ground arith))
            λ _. down-Taken timeout s i v inside)
          λ r w. returns (record {
            on_ok = λ _. ((i, inside, refl), Removed-of_Taken timeout s i v inside r w);
            on_fail = λ p. cc;
          }))

  erase_absent :
      (s : MinHeap) (e : ℕ)
      → IsHeap timeout s
      → s.min_heap_idx e ≡ no_index
      → Ensures (Erased s e) (erase timeout s e)
  unfolding erase
  erase_absent s e v at = rw at (
      returns (record {
        on_ok = λ p. cc;
        on_fail = λ _. (
          (λ (j, h, z).
              let y = sym (v.indexed j h) ∙ ap s.min_heap_idx z ∙ at in omega (arith, v.small)),
          refl,
        );
      }))

  -- For a heap and an event that is in it or has the index -1, `min_heap_erase` ends: with 0 the
  -- event was in the heap, and what is left is a heap of the other events, one fewer, which know
  -- their indices, while that of the event is -1; with -1 the event was not in the heap, which is
  -- unchanged.
  pub erase-Erased :
      (s : MinHeap) (e : ℕ)
      → IsHeap timeout s
      → IsHeld s e ⊎ (s.min_heap_idx e ≡ no_index)
      → Ensures (Erased s e) (erase timeout s e)
  erase-Erased s e v (inl (i, inside, z)) =
      subst (λ k. Ensures (Erased s k) (erase timeout s k)) z (erase_held s i v inside)
  erase-Erased s e v (inr at) = erase_absent s e v at
