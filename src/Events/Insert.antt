-- ===== src/Events/Insert.antt =====
-- About `event_queue_insert` of event.c.
use study_libevent.Prelude.{
  ℕ, ◌+◌, ◌≤◌, ◌<◌, ◌≡◌, ◌≢◌, inl, inr, refl, ap, List, [], ◌∷◌, ◌++◌, Bool, Bool-cases, true,
  false, ◌==◌, ==_iff, ltb, length, length-append, length-set, get_or, get_or-set, set, assign,
  occurrences, weight, occurrences-append, weight-append, sum_of-set, Ensures, Ensures-bind,
  returns, arith,
}
use study_libevent.MinHeap.{Timeval, MinHeap, slot, parent, elem_greater}
use study_libevent.MinHeap.Place.{IsHeld}
use study_libevent.MinHeap.Push.{push_roomy}
use study_libevent.Events.{
  Base, Env, evlist_inserted, evlist_active, evlist_timeout, insert_at, queue_insert, counted,
}
use study_libevent.Events.Valid.{IsTimed, IsQueued, IsActivated, IsValid}

-- One more event at the end of a list
IsQueued-append :
    (flag : ℕ → Bool) (queue : List ℕ) (e : ℕ)
    → IsQueued flag queue
    → flag e ≡ false
    → IsQueued (assign flag e true) (queue ++ e ∷ [])
IsQueued-append flag queue e h z x = ground (arith, occurrences-append x queue (e ∷ []), h x)

IsActivated-append :
    (flag : ℕ → Bool) (pri : ℕ → ℕ) (queues : List (List ℕ)) (e : ℕ)
    → IsActivated flag pri queues
    → flag e ≡ false
    → pri e < length queues
    → IsActivated (assign flag e true) pri (set queues (pri e) (get_or queues (pri e) [] ++ e ∷ []))
IsActivated-append flag pri queues e h z inside x k =
    let queue = get_or queues (pri e) [] in
    ground (
      arith,
      ap (occurrences x) (get_or-set queues (pri e) k (queue ++ e ∷ []) [] inside),
      occurrences-append x queue (e ∷ []),
      h x k,
    )

-- A timeout set for an event that is not in the heap
pub IsTimed-assign :
    (timeout : ℕ → Timeval) (flag : ℕ → Bool) (h : MinHeap) (e : ℕ) (t : Timeval)
    → IsTimed timeout flag h
    → flag e ≡ false
    → IsTimed (assign timeout e t) flag h
unfolding elem_greater
IsTimed-assign timeout flag h e t w z =
    let other = λ (i : ℕ) (q : i < h.n).
      let p : e ≢ slot h i = λ y. cc (w.from (slot h i) (i, q, refl), z) in
      let u : (e == slot h i) ≡ false = ground arith in u in
    record {
      heap = record {
        room = w.heap.room;
        sized = w.heap.sized;
        small = w.heap.small;
        ordered = λ c p q. rw (other c q, other (parent c) (omega arith)) (w.heap.ordered c p q);
        indexed = w.heap.indexed;
      };
      modest = w.modest;
      to = w.to;
      from = w.from;
    }

module _ {B : Type 0} (env : Env B) where
  pub insert_inserted :
      (b : Base B) (e : ℕ)
      → IsValid b
      → b.is_inserted e ≡ false
      → Ensures
          (λ b'.
            IsValid b'
            × (b' ≡ record (counted b e) {
              is_inserted = assign b.is_inserted e true;
              eventqueue = b.eventqueue ++ e ∷ [];
            }))
          (queue_insert env b e evlist_inserted)
  unfolding queue_insert insert_at
  insert_inserted b e v z = rw z (
      returns (
        record {
          timed = v.timed;
          inserted = IsQueued-append b.is_inserted b.eventqueue e v.inserted z;
          active = v.active;
          actives = v.actives;
          priority = v.priority;
          based = v.based;
          untimed = v.untimed;
          counted = ground (arith, v.counted, weight-append b.is_internal b.eventqueue (e ∷ []));
        },
        refl,
      ))

  pub insert_active :
      (b : Base B) (e : ℕ)
      → IsValid b
      → b.is_active e ≡ false
      → b.ev_base e ≡ true
      → Ensures
          (λ b'.
            IsValid b'
            × (b' ≡ record (counted b e) {
              is_active = assign b.is_active e true;
              event_count_active = b.event_count_active + 1;
              activequeues =
                  set b.activequeues (b.ev_pri e) (get_or b.activequeues (b.ev_pri e) [] ++ e ∷ []);
            }))
          (queue_insert env b e evlist_active)
  unfolding queue_insert insert_at
  insert_active b e v z m =
      let queue = get_or b.activequeues (b.ev_pri e) [] in
      let inside = v.priority e m in
      let test : ltb (b.ev_pri e) (length b.activequeues) ≡ true = ground arith in
      rw (z, test)
        (returns (
          record {
            timed = v.timed;
            inserted = v.inserted;
            active = IsActivated-append b.is_active b.ev_pri b.activequeues e v.active z inside;
            actives = omega (
              arith,
              v.actives,
              sum_of-set length b.activequeues (b.ev_pri e) (queue ++ e ∷ []) inside,
              length-append queue (e ∷ []),
            );
            priority = λ x p.
                rw (length-set b.activequeues (b.ev_pri e) (queue ++ e ∷ [])) (v.priority x p);
            based = λ x p. ground (arith, v.based x, m);
            untimed = v.untimed;
            counted = ground (
              arith,
              v.counted,
              sum_of-set (weight b.is_internal) b.activequeues (b.ev_pri e) (queue ++ e ∷ [])
                  inside,
              weight-append b.is_internal queue (e ∷ []),
            );
          },
          refl,
        ))

  pub insert_timeout :
      (b : Base B) (e : ℕ)
      → IsValid b
      → b.on_timeout e ≡ false
      → b.ev_base e ≡ true
      → b.is_internal e ≡ false
      → b.timeheap.n + 1 ≤ b.timeheap.a
      → Ensures
          (λ b'.
            IsValid b'
            × (h : MinHeap) × (b'
                ≡ record (counted b e) { on_timeout = assign b.on_timeout e true; timeheap = h }))
          (queue_insert env b e evlist_timeout)
  unfolding queue_insert insert_at
  insert_timeout b e v z m i room =
      let absent : ¬ IsHeld b.timeheap e = λ w. cc (v.timed.from e w, z) in
      rw z (
        Ensures-bind
          (push_roomy b.ev_timeout env.realloc env.junk b.timeheap e v.timed.heap absent room
            v.timed.modest)
          λ r (heap, n, a, held). returns (
            record {
              timed = record {
                heap = heap;
                modest = omega (arith, a, v.timed.modest);
                to = λ x p. elim (Bool-cases (e == x)) [
                  | inl t ↦ (held x).1 (inl ((==_iff e x).0 t))
                  | inr t ↦ (held x).1 (inr (v.timed.to x (ground arith)))
                ];
                from = λ x p. elim ((held x).0 p) [
                  | inl y ↦ ground arith
                  | inr y ↦ ground (arith, v.timed.from x y)
                ];
              };
              inserted = v.inserted;
              active = v.active;
              actives = v.actives;
              priority = v.priority;
              based = λ x p. ground (arith, v.based x, m);
              untimed = λ x p. ground (arith, v.untimed x p, i);
              counted = ground (arith, v.counted, n, i);
            },
            r.1,
            refl,
          ))
