-- ===== src/Events/Remove.antt =====
-- About `event_queue_remove` of event.c.
use study_libevent.Prelude.{
  ℕ, ◌-◌, ◌≤◌, ◌<◌, ◌≡◌, inl, refl, ap, List, [], Bool, true, false, length, get_or, get_or-set,
  length-set, set, assign, occurrences, weight, occurrences-remove_first, length-remove_first,
  weight-remove_first, sum_of-set, sum_of-get_or, Ensures, Ensures-bind, returns, arith, Status, ok,
  fail,
}
use study_libevent.Prelude.Occurs.{remove_first}
use study_libevent.MinHeap.{Timeval, MinHeap}
use study_libevent.MinHeap.Place.{IsHeld}
use study_libevent.MinHeap.Remove.{Removed}
use study_libevent.MinHeap.Pop.{Erased, erase-Erased}
use study_libevent.Events.{
  Base, evlist_inserted, evlist_active, evlist_timeout, remove_from, queue_remove, discounted,
}
use study_libevent.Events.Valid.{IsQueued, IsActivated, IsValid}

IsQueued-remove_first :
    (flag : ℕ → Bool) (queue : List ℕ) (e : ℕ)
    → IsQueued flag queue
    → IsQueued (assign flag e false) (remove_first e queue)
IsQueued-remove_first flag queue e h x = ground (arith, occurrences-remove_first x e queue, h x)

IsActivated-remove_first :
    (flag : ℕ → Bool) (pri : ℕ → ℕ) (queues : List (List ℕ)) (e : ℕ)
    → IsActivated flag pri queues
    → pri e < length queues
    → IsActivated
        (assign flag e false)
        pri
        (set queues (pri e) (remove_first e (get_or queues (pri e) [])))
IsActivated-remove_first flag pri queues e h inside x k =
    let queue = get_or queues (pri e) [] in
    ground (
      arith,
      ap (occurrences x) (get_or-set queues (pri e) k (remove_first e queue) [] inside),
      occurrences-remove_first x e queue,
      h x k,
      h e k,
    )

-- An event in the heap is erased.
Erased-IsHeld :
    (timeout : ℕ → Timeval) (s : MinHeap) (e : ℕ) (r : Status × MinHeap)
    → IsHeld s e
    → Erased timeout s e r
    → Removed timeout s e r.1
Erased-IsHeld timeout s e (ok, h) held w = (w.on_ok refl).1
Erased-IsHeld timeout s e (fail, h) held w = absurd ((w.on_fail refl).0 held)

module _ {B : Type 0} where
  pub remove_inserted :
      (b : Base B) (e : ℕ)
      → IsValid b
      → b.is_inserted e ≡ true
      → Ensures
          (λ b'.
            IsValid b'
            × (b' ≡ record (discounted b e) {
              is_inserted = assign b.is_inserted e false;
              eventqueue = remove_first e b.eventqueue;
            }))
          (queue_remove b e evlist_inserted)
  unfolding queue_remove remove_from
  remove_inserted b e v z =
      let once : 1 ≤ occurrences e b.eventqueue = ground (arith, v.inserted e) in
      rw z (
        returns (
          record {
            timed = v.timed;
            inserted = IsQueued-remove_first b.is_inserted b.eventqueue e v.inserted;
            active = v.active;
            actives = v.actives;
            priority = v.priority;
            based = v.based;
            untimed = v.untimed;
            counted =
                ground (arith, v.counted, weight-remove_first b.is_internal e b.eventqueue once);
          },
          refl,
        ))

  pub remove_active :
      (b : Base B) (e : ℕ)
      → IsValid b
      → b.is_active e ≡ true
      → Ensures
          (λ b'.
            IsValid b'
            × (b' ≡ record (discounted b e) {
              is_active = assign b.is_active e false;
              event_count_active = b.event_count_active - 1;
              activequeues =
                  set b.activequeues
                    (b.ev_pri e)
                    (remove_first e (get_or b.activequeues (b.ev_pri e) []));
            }))
          (queue_remove b e evlist_active)
  unfolding queue_remove remove_from
  remove_active b e v z =
      let queue = get_or b.activequeues (b.ev_pri e) [] in
      let inside = v.priority e (v.based e (ground arith)) in
      let once : 1 ≤ occurrences e queue = ground (arith, v.active e (b.ev_pri e)) in
      let few = sum_of-get_or length b.activequeues (b.ev_pri e) inside in
      rw z (
        returns (
          record {
            timed = v.timed;
            inserted = v.inserted;
            active = IsActivated-remove_first b.is_active b.ev_pri b.activequeues e v.active inside;
            actives = omega (
              arith,
              v.actives,
              sum_of-set length b.activequeues (b.ev_pri e) (remove_first e queue) inside,
              length-remove_first e queue once,
            );
            priority = λ x p.
                rw (length-set b.activequeues (b.ev_pri e) (remove_first e queue)) (v.priority x p);
            based = λ x p. ground (arith, v.based x);
            untimed = v.untimed;
            counted = ground (
              arith,
              v.counted,
              sum_of-set (weight b.is_internal) b.activequeues (b.ev_pri e) (remove_first e queue)
                  inside,
              weight-remove_first b.is_internal e queue once,
            );
          },
          refl,
        ))

  pub remove_timeout :
      (b : Base B) (e : ℕ)
      → IsValid b
      → b.on_timeout e ≡ true
      → Ensures
          (λ b'.
            IsValid b'
            × (h : MinHeap) × (b' ≡ record (discounted b e) {
              on_timeout = assign b.on_timeout e false;
              timeheap = h;
            })
            × (h.n ≡ b.timeheap.n - 1)
            × (h.a ≡ b.timeheap.a)
            × (0 < b.timeheap.n))
          (queue_remove b e evlist_timeout)
  unfolding queue_remove remove_from
  remove_timeout b e v z =
      let held = v.timed.to e z in
      let counted : b.is_internal e ≡ false = ground (arith, v.untimed e) in
      let some_held : 0 < b.timeheap.n = omega (arith, held.1) in
      rw z (
        Ensures-bind (erase-Erased b.ev_timeout b.timeheap e v.timed.heap (inl held)) λ r w.
          let q = Erased-IsHeld b.ev_timeout b.timeheap e r held w in
          returns (
            record {
              timed = record {
                heap = q.heap;
                modest = omega (arith, q.block, v.timed.modest);
                to = λ x p. (q.held x).1 (v.timed.to x (ground arith), λ y. ground arith);
                from = λ x p. let (h, ne) = (q.held x).0 p in ground (arith, v.timed.from x h);
              };
              inserted = v.inserted;
              active = v.active;
              actives = v.actives;
              priority = v.priority;
              based = λ x p. ground (arith, v.based x);
              untimed = λ x p. ground (arith, v.untimed x p);
              counted = ground (arith, v.counted, q.count);
            },
            r.1,
            refl,
            q.count,
            q.block,
            some_held,
          ))
