-- ===== src/MinHeap/Place.antt =====
-- The array where an event is put at an index, and a heap that lacks one event.
use study_libevent.Prelude.{
  ℕ, ◌^◌, ◌≤◌, ◌<◌, ◌≡◌, ◌≢◌, ◌⊎◌, inl, inr, refl, sym, ap, ◌∙◌, subst, false, length, length-set,
  get_or-set, Bool-cases, ◌==◌, ==_iff, arith,
}
use study_libevent.MinHeap.{Timeval, MinHeap, slot, place, parent}
use study_libevent.MinHeap.Order.{IsBefore, IsHeap}

pub slot-place_at : (s : MinHeap) (i e : ℕ) → i < length s.p → slot (place s i e) i ≡ e
unfolding place
slot-place_at s i e h = get_or-set s.p i i e 0 h ∙ rw ((==_iff i i).1 refl) refl

pub slot-place_else :
    (s : MinHeap) (i e j : ℕ) → i < length s.p → j ≢ i → slot (place s i e) j ≡ slot s j
unfolding place
slot-place_else s i e j h ne =
    let t : (i == j) ≡ false = ground arith in get_or-set s.p i j e 0 h ∙ rw t refl

pub index-place_at : (s : MinHeap) (i e : ℕ) → (place s i e).min_heap_idx e ≡ i
unfolding place
index-place_at s i e = rw ((==_iff e e).1 refl) refl

pub index-place_else :
    (s : MinHeap) (i e x : ℕ) → e ≢ x → (place s i e).min_heap_idx x ≡ s.min_heap_idx x
unfolding place
index-place_else s i e x ne = let t : (e == x) ≡ false = ground arith in rw t refl

pub place-kept :
    (s : MinHeap) (i e : ℕ)
    → ((place s i e).n ≡ s.n) × ((place s i e).a ≡ s.a) × (length (place s i e).p ≡ length s.p)
unfolding place
place-kept s i e = (refl, refl, length-set s.p i e)

-- The event `x` is in the array, and not at the hole.
abbrev pub IsOther : MinHeap → ℕ → ℕ → Type 0
IsOther s hole x = (j : ℕ) × (j < s.n) × (j ≢ hole) × (slot s j ≡ x)

abbrev pub IsHeld : MinHeap → ℕ → Type 0
IsHeld s x = (j : ℕ) × (j < s.n) × (slot s j ≡ x)

module _ (timeout : ℕ → Timeval) where
  -- A heap but for the event `e` that is to go to the hole or above it.
  pub record IsRising (s : MinHeap) (hole e : ℕ) : Type 0 where
    pub inside : hole < s.n
    pub room : s.n ≤ length s.p
    pub sized : length s.p ≡ s.a
    pub small : s.n < 2 ^ 31
    pub ordered :
        (c : ℕ)
        → 0 < c
        → c < s.n
        → c ≢ hole
        → parent c ≢ hole
        → IsBefore timeout (slot s (parent c)) (slot s c)
    pub below : (c : ℕ) → 0 < c → c < s.n → parent c ≡ hole → IsBefore timeout e (slot s c)
    pub bridged :
        (c : ℕ)
        → 0 < c
        → c < s.n
        → parent c ≡ hole
        → 0 < hole
        → IsBefore timeout (slot s (parent hole)) (slot s c)
    pub indexed : (j : ℕ) → j < s.n → j ≢ hole → s.min_heap_idx (slot s j) ≡ j
    pub fresh : (j : ℕ) → j < s.n → j ≢ hole → slot s j ≢ e

  -- A heap of `e` and the others.
  pub record Filled (s : MinHeap) (hole e : ℕ) (r : MinHeap) : Type 0 where
    pub heap : IsHeap timeout r
    pub count : r.n ≡ s.n
    pub block : r.a ≡ s.a
    pub to : (x : ℕ) → IsHeld r x → (e ≡ x) ⊎ IsOther s hole x
    pub from : (x : ℕ) → (e ≡ x) ⊎ IsOther s hole x → IsHeld r x

  module _ (s : MinHeap) (hole e : ℕ) (v : IsRising s hole e) where
    pub in_block : hole < length s.p
    in_block = omega (arith, v.inside, v.room)

    pub at : slot (place s hole e) hole ≡ e
    at = slot-place_at s hole e in_block

    pub off_hole : (j : ℕ) → j ≢ hole → slot (place s hole e) j ≡ slot s j
    off_hole j ne = slot-place_else s hole e j in_block ne

    placed_ordered :
        (0 < hole → IsBefore timeout (slot s (parent hole)) e)
        → (c : ℕ) → 0 < c
        → c < s.n
        → IsBefore timeout (slot (place s hole e) (parent c)) (slot (place s hole e) c)
    placed_ordered up c p q = elim (Bool-cases (c == hole)) [
      | inl t ↦
          let z : hole ≡ c = ground arith in
          subst (λ k. IsBefore timeout (slot (place s hole e) (parent k)) (slot (place s hole e) k))
            z (rw (at, off_hole (parent hole) (omega arith)) (up (omega arith)))
      | inr t ↦
          let ne : c ≢ hole = ground arith in
          elim (Bool-cases (parent c == hole)) [
            | inl u ↦
                let z : parent c ≡ hole = (==_iff (parent c) hole).0 u in
                rw (off_hole c ne, z, at) (v.below c p q z)
            | inr u ↦
                let nu : parent c ≢ hole = ground arith in
                rw (off_hole c ne, off_hole (parent c) nu) (v.ordered c p q ne nu)
          ]
    ]

    placed_indexed : (j : ℕ) → j < s.n → (place s hole e).min_heap_idx (slot (place s hole e) j) ≡ j
    placed_indexed j h = elim (Bool-cases (j == hole)) [
      | inl t ↦
          let z : hole ≡ j = ground arith in
          subst (λ k. (place s hole e).min_heap_idx (slot (place s hole e) k) ≡ k) z
            (rw at (index-place_at s hole e))
      | inr t ↦
          let ne : j ≢ hole = ground arith in
          let other : e ≢ slot s j = λ z. v.fresh j h ne (sym z) in
          rw (off_hole j ne, index-place_else s hole e (slot s j) other) (v.indexed j h ne)
    ]

    pub placed-Filled :
        (0 < hole → IsBefore timeout (slot s (parent hole)) e) → Filled s hole e (place s hole e)
    placed-Filled up =
        let (n, a, size) = place-kept s hole e in
        record {
          heap = record {
            room = omega (arith, n, size, v.room);
            sized = size ∙ v.sized ∙ sym a;
            small = omega (arith, n, v.small);
            ordered = λ c p q. placed_ordered up c p (omega (arith, n));
            indexed = λ j h. placed_indexed j (omega (arith, n));
          };
          count = n;
          block = a;
          to = λ x (j, h, z). elim (Bool-cases (j == hole)) [
            | inl t ↦ inl (sym at ∙ ap (slot (place s hole e)) (sym ((==_iff j hole).0 t)) ∙ z)
            | inr t ↦
                let ne : j ≢ hole = ground arith in
                inr (j, omega (arith, n), ne, sym (off_hole j ne) ∙ z)
          ];
          from = λ x w. elim w [
            | inl z ↦ (hole, omega (arith, n, v.inside), at ∙ z)
            | inr (j, h, ne, z) ↦ (j, omega (arith, n), off_hole j ne ∙ z)
          ];
        }
