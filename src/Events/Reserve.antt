-- ===== src/Events/Reserve.antt =====
-- About the reservation that `event_add` of event.c begins with.
use study_libevent.Prelude.{
  ℕ, ◌+◌, ◌%◌, ◌^◌, ◌≤◌, ◌<◌, ◌≡◌, ◌≢◌, refl, Bool, Bool-cases, inl, inr, true, false, arith,
  Option, none, some, Status, ok, fail,
}
use study_libevent.MinHeap.{Timeval, MinHeap, reserve}
use study_libevent.MinHeap.Reserve.{reserve-IsHeap, reserve-modest}
use study_libevent.Events.{Base, Env}
use study_libevent.Events.Calls.{reserved}
use study_libevent.Events.Valid.{IsTimed, IsValid}

-- `realloc` gives no block of 2 ^ 31 slots or more.
abbrev pub IsModest : (ℕ → Bool) → Type 0
IsModest realloc = (a : ℕ) → realloc a ≡ true → a < 2 ^ 31

module _ {B : Type 0} (env : Env B) where
  -- What stands in the base behind the reservation
  pub record Reserved (b : Base B) (e : ℕ) (tv : Option Timeval) (r : Status × MinHeap)
      : Type 0 where
    pub valid : IsValid (record b { timeheap = r.1 })
    pub count : r.1.n ≡ b.timeheap.n
    pub room : r.0 ≡ ok → tv ≢ none → b.on_timeout e ≡ false → r.1.n + 1 ≤ r.1.a
    pub refused : r.0 ≡ fail → (tv ≢ none) × (a : ℕ) × (env.realloc a ≡ false)

  with_heap :
      (b : Base B) (h : MinHeap)
      → IsValid b
      → IsTimed b.ev_timeout b.on_timeout h
      → h.n ≡ b.timeheap.n
      → IsValid (record b { timeheap = h })
  with_heap b h v t n = record {
    timed = t;
    inserted = v.inserted;
    active = v.active;
    actives = v.actives;
    priority = v.priority;
    based = v.based;
    untimed = v.untimed;
    counted = omega (arith, v.counted, n);
  }

  pub reserved-Reserved :
      (b : Base B) (e : ℕ) (tv : Option Timeval)
      → IsModest env.realloc
      → IsValid b
      → Reserved b e tv (reserved env b e tv)
  unfolding reserved
  reserved-Reserved b e none modest v = record {
    valid = with_heap b b.timeheap v v.timed refl;
    count = refl;
    room = λ p q. absurd (q refl);
    refused = λ p. cc;
  }
  reserved-Reserved b e (some tv) modest v = elim (Bool-cases (b.on_timeout e)) [
    | inl t ↦ rw t (record {
      valid = with_heap b b.timeheap v v.timed refl;
      count = refl;
      room = λ p q z. cc;
      refused = λ p. cc;
    })
    | inr t ↦
        let next : (1 + b.timeheap.n) % 2 ^ 32 ≡ 1 + b.timeheap.n =
          omega (arith, v.timed.heap.small) in
        let (heap, n, held, room, refused) =
          reserve-IsHeap b.ev_timeout env.realloc env.junk b.timeheap (1 + b.timeheap.n)
            v.timed.heap (omega (arith, v.timed.heap.small)) in
        let h = reserve env.realloc env.junk b.timeheap (1 + b.timeheap.n) in
        rw (t, next)
          (record {
            valid =
                with_heap b h.1 v
                  (record {
                    heap = heap;
                    modest =
                        reserve-modest env.realloc env.junk b.timeheap (1 + b.timeheap.n) modest
                          v.timed.modest;
                    to = λ x p. (held x).1 (v.timed.to x p);
                    from = λ x p. v.timed.from x ((held x).0 p);
                  })
                  n;
            count = n;
            room = λ p q z. omega (arith, room p, n);
            refused = λ p. let (same, a, g) = refused p in ((λ z. cc), a, g);
          })
  ]
