-- ===== src/MinHeap/Order.antt =====
-- The order of events by their timeouts, and what makes the array a heap.
use study_libevent.Prelude.{
  ℕ, zero, suc, ◌^◌, ◌≤◌, ◌<◌, ◌≡◌, refl, true, true, false, length, Bool-cases, inl, inr, ◌==◌,
  subst, some, arith,
}
use study_libevent.MinHeap.{Timeval, timercmp_gt, MinHeap, slot, parent, elem_greater, top}

timercmp_gt_trans :
    (t u w : Timeval) → timercmp_gt t u ≡ false → timercmp_gt u w ≡ false → timercmp_gt t w ≡ false
unfolding timercmp_gt
timercmp_gt_trans t u w h g = ground arith

module _ (timeout : ℕ → Timeval) where
  -- `a` is due no later than `b`.
  abbrev pub IsBefore : ℕ → ℕ → Type 0
  IsBefore a b = elem_greater timeout a b ≡ false

  pub IsBefore-trans : (a b c : ℕ) → IsBefore a b → IsBefore b c → IsBefore a c
  unfolding elem_greater
  IsBefore-trans a b c h g = timercmp_gt_trans (timeout a) (timeout b) (timeout c) h g

  pub IsBefore-of_greater : (a b : ℕ) → elem_greater timeout a b ≡ true → IsBefore b a
  unfolding elem_greater timercmp_gt
  IsBefore-of_greater a b h = ground arith

  pub IsBefore-refl : (a : ℕ) → IsBefore a a
  unfolding elem_greater timercmp_gt
  IsBefore-refl a = ground arith

  -- The array is a heap, and each of its events knows its place.
  pub record IsHeap (s : MinHeap) : Type 0 where
    pub room : s.n ≤ length s.p
    pub sized : length s.p ≡ s.a
    pub small : s.n < 2 ^ 31
    pub ordered : (c : ℕ) → 0 < c → c < s.n → IsBefore (slot s (parent c)) (slot s c)
    pub indexed : (i : ℕ) → i < s.n → s.min_heap_idx (slot s i) ≡ i

  parent_lt : (k i : ℕ) → i ≤ suc k → 0 < i → parent i ≤ k
  parent_lt k i h g = omega arith

  pub least_upto :
      (s : MinHeap) → IsHeap s → (k i : ℕ) → i ≤ k → i < s.n → IsBefore (slot s 0) (slot s i)
  least_upto s v zero i h g =
      let e : 0 ≡ i = omega arith in
      subst (λ k. IsBefore (slot s 0) (slot s k)) e (IsBefore-refl (slot s 0))
  least_upto s v (suc k) i h g = elim (Bool-cases (i == 0)) [
    | inl z ↦
        let e : 0 ≡ i = ground arith in
        subst (λ k. IsBefore (slot s 0) (slot s k)) e (IsBefore-refl (slot s 0))
    | inr z ↦
        let pos : 0 < i = ground arith in
        IsBefore-trans (slot s 0) (slot s (parent i)) (slot s i)
          (least_upto s v k (parent i) (parent_lt k i h pos) (omega arith)) (v.ordered i pos g)
  ]

  -- In a heap, with events at the indices below `n`, `min_heap_top` gives an event, and none of
  -- these events is due before it.
  pub top_least :
      (s : MinHeap)
      → IsHeap s
      → (i : ℕ) → i < s.n
      → (e : ℕ) × (top s ≡ some e) × IsBefore e (slot s i)
  unfolding top
  top_least s v i h = (
    slot s 0,
    (let e : (s.n == 0) ≡ false = ground arith in rw e refl),
    least_upto s v i i (omega arith) h,
  )
