-- ===== src/Events/Setup.antt =====
-- About `event_base_new` and `event_set` of event.c.
use study_libevent.Prelude.{
  ℕ, zero, suc, ◌+◌, ◌<◌, ◌≡◌, ◌≢◌, refl, sym, ap, ap₂, ◌∙◌, subst, List, [], ◌∷◌, Bool-cases, inl,
  inr, true, false, ◌&&◌, ◌==◌, ==_iff, length, get_or, replicate, bit, occurrences, weight-assign,
  sum_of-weight-assign, arith, Option, none,
}
use study_libevent.MinHeap.{Timeval, MinHeap, slot, ctor, no_index, update}
use study_libevent.MinHeap.Order.{IsHeap}
use study_libevent.MinHeap.Place.{IsHeld}
use study_libevent.Events.{Base, Env, What}
use study_libevent.Events.Calls.{priority_init, blank, base_new, event_set}
use study_libevent.Events.Valid.{IsValid, gettime_shape}
use study_libevent.Events.Delete.{view, idle}

ctor-IsHeap : (timeout : ℕ → Timeval) (idx : ℕ → ℕ) → IsHeap timeout (ctor idx)
unfolding ctor
ctor-IsHeap timeout idx = record {
  room = omega arith;
  sized = refl;
  small = omega arith;
  ordered = λ c p q. absurd (omega arith);
  indexed = λ i p. absurd (omega arith);
}

-- The index of an event outside of the heap does not matter.
IsHeap-update :
    (timeout : ℕ → Timeval) (h : MinHeap) (e v : ℕ)
    → IsHeap timeout h
    → (IsHeld h e → ⊥)
    → IsHeap timeout (record h { min_heap_idx = update h.min_heap_idx e v })
IsHeap-update timeout h e v w out = record {
  room = w.room;
  sized = w.sized;
  small = w.small;
  ordered = w.ordered;
  indexed = λ i p. elim (Bool-cases (e == slot h i)) [
    | inl t ↦ absurd (out (i, p, sym ((==_iff e (slot h i)).0 t)))
    | inr t ↦ rw t (w.indexed i p)
  ];
}

one_queue : (k : ℕ) (e : ℕ) → occurrences e (get_or (replicate 1 []) k []) ≡ 0
one_queue zero e = refl
one_queue (suc k) e = refl

pub has_length : (queues : List (List ℕ)) → queues ≢ [] → 0 < length queues
has_length [] h = absurd (h refl)
has_length (q ∷ queues) h = omega arith

module _ {B : Type 0} where
  -- `event_base_new`
  pub base_new-IsValid :
      (env : Env B) (evbase : B) (idx : ℕ → ℕ)
      → let b = base_new env evbase idx in
        IsValid b
        × ((e : ℕ) → view b e ≡ idle)
        × (length b.activequeues ≡ 1)
        × (b.event_count ≡ 0)
        × (b.event_count_active ≡ 0)
  unfolding base_new priority_init blank ctor
  base_new-IsValid env evbase idx =
      let (m, r, same) = gettime_shape env (blank evbase idx) in
      rw (same, base_new)
        (
          record {
            timed = record {
              heap = ctor-IsHeap _ idx;
              modest = omega arith;
              to = λ e p. cc;
              from = λ e (j, q, z). absurd (omega arith);
            };
            inserted = λ e. refl;
            active = λ e k. one_queue k e;
            actives = refl;
            priority = λ e p. cc;
            based = λ e p. cc;
            untimed = λ e p. refl;
            counted = refl;
          },
          (λ e. refl),
          refl,
          refl,
          refl,
        )

  pub untimed_idle : (b : Base B) (e : ℕ) → view b e ≡ idle → b.on_timeout e ≡ false
  untimed_idle b e calm =
      let timer : (view b e).timer ≡ none = ap (λ u. u.timer) calm in
      elim (Bool-cases (b.on_timeout e)) [ inl t ↦ absurd (cc) | inr t ↦ t ]

  -- For a valid base with a queue and an event that is on no queue and has no timeout, `event_set`
  -- leaves a valid base, to which the event belongs, and in which all events stand as before.
  pub event_set-IsValid :
      (b : Base B) (e : ℕ) (fd : Option ℕ) (events : What)
      → IsValid b
      → b.activequeues ≢ []
      → view b e ≡ idle
      → let b' = event_set b e fd events in
        IsValid b' × (b'.ev_base e ≡ true) × ((x : ℕ) → view b' x ≡ view b x)
  unfolding event_set
  event_set-IsValid b e fd events v some_queue calm =
      let out : b.is_inserted e ≡ false = ap (λ u. u.inserted) calm in
      let rest : b.is_active e ≡ false = ap (λ u. u.active) calm in
      let off = untimed_idle b e calm in
      let none_in : occurrences e b.eventqueue ≡ 0 = v.inserted e ∙ ap bit out in
      let none_at : (k : ℕ) → occurrences e (get_or b.activequeues k []) ≡ 0 =
        λ k. v.active e k ∙ ap (λ c. bit (c && (k == b.ev_pri e))) rest in
      let some_length = has_length b.activequeues some_queue in
      (
        record {
          timed = record {
            heap =
                IsHeap-update b.ev_timeout b.timeheap e no_index v.timed.heap
                  λ h. ground (arith, v.timed.from e h);
            modest = v.timed.modest;
            to = λ x p. v.timed.to x (ground arith);
            from = λ x h. ground (arith, v.timed.from x h);
          };
          inserted = λ x. ground (arith, v.inserted x);
          active = λ x k. ground (arith, v.active x k);
          actives = v.actives;
          priority = λ x p. ground (arith, v.priority x);
          based = λ x p. ground (arith, v.based x);
          untimed = λ x p. ground (arith, v.untimed x);
          counted =
              v.counted
              ∙ sym (
                  ap₂ (λ k l. k + l + b.timeheap.n)
                    (weight-assign b.is_internal e false b.eventqueue none_in)
                    (sum_of-weight-assign b.is_internal e false b.activequeues none_at));
        },
        ground arith,
        λ x. elim (Bool-cases (e == x)) [
          | inl t ↦ rw t (sym (subst (λ k. view b k ≡ idle) ((==_iff e x).0 t) calm))
          | inr t ↦ rw t refl
        ],
      )
