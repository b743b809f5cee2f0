-- ===== src/MinHeap/Move.antt =====
-- About one round of the loops of min_heap.h: an event is copied into the hole, and leaves one.
use study_libevent.Prelude.{
  ℕ, ◌≤◌, ◌<◌, ◌≡◌, ◌≢◌, ◌↔◌, sym, ap, ◌∙◌, subst, length, Bool-cases, ◌==◌, inl, inr, arith,
}
use study_libevent.MinHeap.{MinHeap, slot, place}
use study_libevent.MinHeap.Place.{
  slot-place_at, slot-place_else, index-place_at, index-place_else, place-kept, IsOther,
}

module _ (s : MinHeap) (hole m e : ℕ) (inside : hole < s.n) (room : s.n ≤ length s.p)
    (there : m < s.n) (apart : m ≢ hole)
    (indexed : (j : ℕ) → j < s.n → j ≢ hole → s.min_heap_idx (slot s j) ≡ j)
    (fresh : (j : ℕ) → j < s.n → j ≢ hole → slot s j ≢ e) where
  abbrev pub filled : MinHeap
  filled = place s hole (slot s m)

  pub filled_at : slot filled hole ≡ slot s m
  filled_at = slot-place_at s hole (slot s m) (omega arith)

  pub filled_else : (j : ℕ) → j ≢ hole → slot filled j ≡ slot s j
  filled_else j ne = slot-place_else s hole (slot s m) j (omega arith) ne

  pub filled_indexed : (j : ℕ) → j < s.n → j ≢ m → filled.min_heap_idx (slot filled j) ≡ j
  filled_indexed j h ne = elim (Bool-cases (j == hole)) [
    | inl t ↦
        let z : hole ≡ j = ground arith in
        subst (λ k. filled.min_heap_idx (slot filled k) ≡ k) z
          (ap filled.min_heap_idx filled_at ∙ index-place_at s hole (slot s m))
    | inr t ↦
        let nh : j ≢ hole = ground arith in
        let other : slot s m ≢ slot s j =
          λ z. ne (sym (indexed j h nh) ∙ ap s.min_heap_idx (sym z) ∙ indexed m there apart) in
        ap filled.min_heap_idx (filled_else j nh)
        ∙ index-place_else s hole (slot s m) (slot s j) other
        ∙ indexed j h nh
  ]

  pub filled_fresh : (j : ℕ) → j < s.n → j ≢ m → slot filled j ≢ e
  filled_fresh j h ne w = elim (Bool-cases (j == hole)) [
    | inl t ↦
        let z : hole ≡ j = ground arith in
        fresh m there apart (sym filled_at ∙ ap (slot filled) z ∙ w)
    | inr t ↦ let nh : j ≢ hole = ground arith in fresh j h nh (sym (filled_else j nh) ∙ w)
  ]

  count : filled.n ≡ s.n
  count = (place-kept s hole (slot s m)).0

  -- The events but that at the hole are the same ones.
  pub filled_others : (x : ℕ) → IsOther filled m x ↔ IsOther s hole x
  filled_others x = (forth, back)
    where
      forth : IsOther filled m x → IsOther s hole x
      forth (j, h, ne, z) = elim (Bool-cases (j == hole)) [
        | inl t ↦
            let y : hole ≡ j = ground arith in
            (m, there, apart, sym filled_at ∙ ap (slot filled) y ∙ z)
        | inr t ↦
            let nh : j ≢ hole = ground arith in
            (j, omega (arith, count), nh, sym (filled_else j nh) ∙ z)
      ]

      back : IsOther s hole x → IsOther filled m x
      back (j, h, nh, z) = elim (Bool-cases (j == m)) [
        | inl t ↦
            let y : m ≡ j = ground arith in
            (hole, omega (arith, count), (λ q. apart (sym q)), filled_at ∙ ap (slot s) y ∙ z)
        | inr t ↦
            let ne : j ≢ m = ground arith in (j, omega (arith, count), ne, filled_else j nh ∙ z)
      ]
