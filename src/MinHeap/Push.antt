-- ===== src/MinHeap/Push.antt =====
-- About `min_heap_reserve` and `min_heap_push` of min_heap.h.
use study_libevent.Prelude.{
  ℕ, ◌+◌, ◌%◌, ◌^◌, ◌≤◌, ◌<◌, ◌≡◌, ◌↔◌, ◌⊎◌, inl, inr, refl, sym, ◌∙◌, subst, false, length, Bool,
  ltb, Ensures, Ensures-bind, returns, arith, Status, ok, fail,
}
use study_libevent.MinHeap.{Timeval, MinHeap, slot, parent, reserve, push_reserved, push}
use study_libevent.MinHeap.Order.{IsHeap}
use study_libevent.MinHeap.Place.{IsRising, IsHeld, IsOther}
use study_libevent.MinHeap.Up.{shift_up-Filled}
use study_libevent.MinHeap.Reserve.{Reserved, reserve-Reserved}

module _ (timeout : ℕ → Timeval) where
  -- What `min_heap_push` leaves.
  pub record Pushed (realloc : ℕ → Bool) (s : MinHeap) (e : ℕ) (r : Status × MinHeap) : Type 0 where
    pub heap : IsHeap timeout r.1
    pub added : r.0 ≡ ok → (r.1.n ≡ s.n + 1) × ((x : ℕ) → IsHeld r.1 x ↔ ((e ≡ x) ⊎ IsHeld s x))
    pub refused : r.0 ≡ fail → (r.1 ≡ s) × (a : ℕ) × (realloc a ≡ false)

  module _ (realloc : ℕ → Bool) (s s' : MinHeap) (e : ℕ) (v : IsHeap timeout s) (new : ¬ IsHeld s e)
      (small : s.n + 1 < 2 ^ 31) (sized : length s'.p ≡ s'.a) (count : s'.n ≡ s.n)
      (index : s'.min_heap_idx ≡ s.min_heap_idx) (slots : (i : ℕ) → i < s.n → slot s' i ≡ slot s i)
      (room : s.n + 1 ≤ length s'.p) where
    opened : MinHeap
    opened = record s' { n = (s'.n + 1) % 2 ^ 32 }

    opened_count : opened.n ≡ s.n + 1
    unfolding opened
    opened_count = omega (arith, count)

    opened-IsRising : IsRising timeout opened s'.n e
    unfolding opened
    opened-IsRising = record {
      inside = omega (arith, count);
      room = omega (arith, count);
      sized = sized;
      small = omega (arith, count);
      ordered = λ c p q ne nu.
          let h : c < s.n = omega (arith, count) in
          rw (slots c h, slots (parent c) (omega arith)) (v.ordered c p h);
      below = λ c p q z. absurd (omega (arith, count));
      bridged = λ c p q z g. absurd (omega (arith, count));
      indexed =
          λ j h ne. let l : j < s.n = omega (arith, count) in rw (slots j l, index) (v.indexed j l);
      fresh = λ j h ne z. let l : j < s.n = omega (arith, count) in new (j, l, sym (slots j l) ∙ z);
    }

    opened-IsOther : (x : ℕ) → IsOther opened s'.n x ↔ IsHeld s x
    unfolding opened
    opened-IsOther x = (
      (λ (j, h, ne, z). let l : j < s.n = omega (arith, count) in (j, l, sym (slots j l) ∙ z)),
      λ (j, h, z). (j, omega (arith, count), (λ y. omega (arith, count)), slots j h ∙ z),
    )

    pushed : Ensures (Pushed realloc s e) (push_reserved timeout e (ok, s'))
    unfolding push_reserved opened
    pushed =
        Ensures-bind
          (shift_up-Filled timeout (s'.n + 1) opened s'.n e (omega arith) opened-IsRising)
          λ r f. returns (record {
            heap = f.heap;
            added = λ _. (
              f.count ∙ opened_count,
              λ x. (
                (λ w. elim (f.to x w) [ inl z ↦ inl z | inr o ↦ inr ((opened-IsOther x).0 o) ]),
                λ w. f.from x (elim w [ inl z ↦ inl z | inr o ↦ inr ((opened-IsOther x).1 o) ]),
              ),
            );
            refused = λ p. cc;
          })

  push_reserved-Pushed :
      (realloc : ℕ → Bool) (s : MinHeap) (e : ℕ) (r : Status × MinHeap)
      → IsHeap timeout s
      → ¬ IsHeld s e
      → s.n + 1 < 2 ^ 31
      → Reserved realloc s (s.n + 1) r
      → Ensures (Pushed realloc s e) (push_reserved timeout e r)
  unfolding push_reserved
  push_reserved-Pushed realloc s e (ok, s') v absent small w =
      pushed realloc s s' e v absent small w.sized w.count w.index w.slots (w.room refl)
  push_reserved-Pushed realloc s e (fail, s') v absent small w = returns (record {
    heap = subst (IsHeap timeout) (sym (w.refused refl).0) v;
    added = λ p. cc;
    refused = w.refused;
  })

  -- For a heap of fewer than 2 ^ 31 - 1 events that does not hold the event `e`, `min_heap_push`
  -- ends and leaves a heap whose events know their indices: with 0 it holds `e` and the events
  -- from before, and no other, one more than before; with -1 it is unchanged, and `realloc`
  -- refused a size.
  pub push-Pushed :
      (realloc : ℕ → Bool) (junk : ℕ → ℕ) (s : MinHeap) (e : ℕ)
      → IsHeap timeout s
      → ¬ IsHeld s e
      → s.n + 1 < 2 ^ 31
      → Ensures (Pushed realloc s e) (push timeout realloc junk s e)
  unfolding push
  push-Pushed realloc junk s e v absent small =
      let next : (s.n + 1) % 2 ^ 32 ≡ s.n + 1 = omega arith in
      rw next (
        push_reserved-Pushed realloc s e (reserve realloc junk s (s.n + 1)) v absent small
          (reserve-Reserved realloc junk s (s.n + 1) v.room v.sized (omega arith)))

  -- Where there is a free slot, `min_heap_reserve` does nothing, and the push succeeds.
  pub push_roomy :
      (realloc : ℕ → Bool) (junk : ℕ → ℕ) (s : MinHeap) (e : ℕ)
      → IsHeap timeout s
      → ¬ IsHeld s e
      → s.n + 1 ≤ s.a
      → s.a < 2 ^ 31
      → Ensures
          (λ r.
            IsHeap timeout r.1
            × (r.1.n ≡ s.n + 1)
            × (r.1.a ≡ s.a)
            × ((x : ℕ) → IsHeld r.1 x ↔ ((e ≡ x) ⊎ IsHeld s x)))
          (push timeout realloc junk s e)
  unfolding push reserve push_reserved opened
  push_roomy realloc junk s e v absent room modest =
      let next : (s.n + 1) % 2 ^ 32 ≡ s.n + 1 = omega arith in
      let enough : ltb s.a (s.n + 1) ≡ false = ground arith in
      rw (next, enough)
        (Ensures-bind
          (shift_up-Filled timeout (s.n + 1)
            (opened realloc s s e v absent (omega arith) v.sized refl refl (λ i h. refl)
              (omega (arith, v.sized)))
            s.n e (omega arith)
            (opened-IsRising realloc s s e v absent (omega arith) v.sized refl refl (λ i h. refl)
              (omega (arith, v.sized))))
          λ r f.
            let others =
              opened-IsOther realloc s s e v absent (omega arith) v.sized refl refl (λ i h. refl)
                (omega (arith, v.sized)) in
            returns (
              f.heap,
              f.count ∙ next,
              f.block,
              λ x. (
                (λ w. elim (f.to x w) [ inl z ↦ inl z | inr o ↦ inr ((others x).0 o) ]),
                λ w. f.from x (elim w [ inl z ↦ inl z | inr o ↦ inr ((others x).1 o) ]),
              ),
            ))
