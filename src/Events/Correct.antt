-- ===== src/Events/Correct.antt =====
-- About `timeout_correct` of event.c: the heap of timeouts where the clock went back.
use study_libevent.Prelude.{
  ℕ, zero, suc, ◌+◌, ◌*◌, ◌≤◌, ◌<◌, ◌≡◌, ◌≢◌, refl, sym, ap, ap₂, ◌∙◌, subst, List, [], ◌∷◌, Bool,
  Bool-cases, inl, inr, true, false, ◌&&◌, not, ◌==◌, ==_iff, bit, if◌then◌else◌, length,
  length-take, get_or, get_or-take, take, assign, occurrences, arith,
}
use study_libevent.MinHeap.{Timeval, timercmp_gt, slot, parent, elem_greater}
use study_libevent.MinHeap.Order.{IsHeap}
use study_libevent.MinHeap.Place.{IsHeld}
use study_libevent.Events.{Base, Env, timersub, gettime}
use study_libevent.Events.Loop.{shift_all, timeout_correct}
use study_libevent.Events.Valid.{IsValid, quiet, gettime_shape}

shift_all-once :
    (es : List ℕ) (off : Timeval) (f : ℕ → Timeval) (x : ℕ)
    → occurrences x es ≤ 1
    → shift_all es off f x ≡ (if occurrences x es == 0 then f x else timersub (f x) off)
unfolding shift_all
shift_all-once [] off f x h = refl
shift_all-once (e ∷ es) off f x h =
    let rest = shift_all-once es off (assign f e (timersub (f e) off)) x (omega arith) in
    elim (Bool-cases (e == x)) [
      | inl t ↦
          let absent : (occurrences x es == 0) ≡ true = ground arith in
          let present : (occurrences x (e ∷ es) == 0) ≡ false = ground arith in
          rest
          ∙ ap
              (λ c.
                if c
                then assign f e (timersub (f e) off) x
                else timersub (assign f e (timersub (f e) off) x) off)
              absent
          ∙ ap (λ c. if c then timersub (f e) off else f x) t
          ∙ ap (λ k. timersub (f k) off) ((==_iff e x).0 t)
          ∙ ap (λ c. if c then f x else timersub (f x) off) (sym present)
      | inr t ↦
          let same : (occurrences x (e ∷ es) == 0) ≡ (occurrences x es == 0) =
            ap (λ c. (bit c + occurrences x es) == 0) t ∙ ap (λ n. n == 0) (omega arith) in
          let kept : assign f e (timersub (f e) off) x ≡ f x =
            ap (λ c. if c then timersub (f e) off else f x) t in
          rest
          ∙ ap (λ y. if occurrences x es == 0 then y else timersub y off) kept
          ∙ ap (λ c. if c then f x else timersub (f x) off) (sym same)
    ]

occurs_at :
    (xs : List ℕ) (x : ℕ) → occurrences x xs ≢ 0 → (j : ℕ) × (j < length xs) × (get_or xs j 0 ≡ x)
occurs_at [] x h = absurd (h refl)
occurs_at (y ∷ xs) x h = elim (Bool-cases (y == x)) [
  | inl t ↦ (0, omega arith, (==_iff y x).0 t)
  | inr t ↦ let (j, p, q) = occurs_at xs x (λ z. h (ground arith)) in (suc j, omega arith, q)
]

at_occurs : (xs : List ℕ) (j : ℕ) → j < length xs → occurrences (get_or xs j 0) xs ≢ 0
at_occurs [] j p z = absurd (omega arith)
at_occurs (y ∷ xs) zero p z = let self : (y == y) ≡ true = (==_iff y y).1 refl in ground arith
at_occurs (y ∷ xs) (suc j) p z = at_occurs xs j (omega arith) (omega arith)

-- Elements that know their places stand once.
placed_once :
    (xs : List ℕ) (idx : ℕ → ℕ) (k x : ℕ)
    → ((i : ℕ) → i < length xs → idx (get_or xs i 0) ≡ k + i)
    → occurrences x xs ≤ 1
placed_once [] idx k x h = omega arith
placed_once (y ∷ xs) idx k x h =
    let rest = placed_once xs idx (k + 1) x (λ i p. h (suc i) (omega arith) ∙ omega arith) in
    elim (Bool-cases (y == x)) [
      | inl t ↦ elim (Bool-cases (occurrences x xs == 0)) [
        | inl z ↦ ground arith
        | inr z ↦
            let (j, p, q) = occurs_at xs x (ground arith) in
            let here = h 0 (omega arith) in
            let there = h (suc j) (omega arith) in
            absurd (omega (arith, ap idx q, ap idx ((==_iff y x).0 t)))
      ]
      | inr t ↦ ground (arith, rest)
    ]

abbrev micros : Timeval → ℕ
micros t = t.tv_sec * 1000000 + t.tv_usec

micros_le : (t u : Timeval) → t.tv_usec < 1000000 → timercmp_gt t u ≡ false → micros t ≤ micros u
unfolding timercmp_gt
micros_le t u p h = ground arith

le_micros : (t u : Timeval) → u.tv_usec < 1000000 → micros t ≤ micros u → timercmp_gt t u ≡ false
unfolding timercmp_gt
le_micros t u p h = ground arith

micros-timersub :
    (t o : Timeval)
    → t.tv_usec < 1000000
    → o.tv_usec < 1000000
    → timercmp_gt o t ≡ false
    → micros (timersub t o) + micros o ≡ micros t
unfolding timersub timercmp_gt
micros-timersub t o p q h = ground arith

timersub_whole :
    (t u : Timeval) → t.tv_usec < 1000000 → u.tv_usec < 1000000 → (timersub t u).tv_usec < 1000000
unfolding timersub
timersub_whole t u p q = ground arith

timersub_cong :
    (t u o : Timeval)
    → t.tv_usec < 1000000
    → u.tv_usec < 1000000
    → o.tv_usec < 1000000
    → timercmp_gt o t ≡ false
    → timercmp_gt o u ≡ false
    → timercmp_gt t u ≡ false
    → timercmp_gt (timersub t o) (timersub u o) ≡ false
timersub_cong t u o p q r g h k =
    le_micros (timersub t o) (timersub u o) (timersub_whole u o q r)
      (omega (arith, micros-timersub t o p r g, micros-timersub u o q r h, micros_le t u p k))

if_either :
    {A : Type 0} (P : A → Type 0) (x y : A) (c : Bool)
    → (c ≡ true → P x)
    → (c ≡ false → P y)
    → P (if c then x else y)
if_either P x y true p q = p refl
if_either P x y false p q = q refl

module _ {B : Type 0} (env : Env B) where
  -- The timeouts behind the correction, with `now` the time read
  abbrev pub corrected : Timeval → Base B → ℕ → Timeval
  corrected now b x =
      if not b.use_monotonic && timercmp_gt b.event_tv now
      then timersub (b.ev_timeout x) (timersub b.event_tv now)
      else b.ev_timeout x

  chosen :
      (b : Base B) (now : Timeval) (x : ℕ) {c d : Bool}
      → b.use_monotonic ≡ c
      → timercmp_gt b.event_tv now ≡ d
      → (if not c && d then timersub (b.ev_timeout x) (timersub b.event_tv now) else b.ev_timeout x)
        ≡ corrected now b x
  chosen b now x p q = sym (
      ap₂
        (λ c d.
          if not c && d
          then timersub (b.ev_timeout x) (timersub b.event_tv now)
          else b.ev_timeout x)
        p q)

  last :
      (b : Base B) (now : Timeval) {c : Bool}
      → b.use_monotonic ≡ c
      → (if c then b.event_tv else now) ≡ (if b.use_monotonic then b.event_tv else now)
  last b now p = sym (ap (λ c. if c then b.event_tv else now) p)

  -- What `timeout_correct` leaves.
  abbrev pub IsCorrected : Base B → Base B → Type 0
  IsCorrected b b' =
      IsValid b'
      × ((x : ℕ) → b'.on_timeout x ≡ b.on_timeout x)
      × ((x : ℕ) → b.on_timeout x ≡ true → b'.ev_timeout x ≡ corrected (gettime env b).0 b x)
      × (b'.event_tv ≡ (if b.use_monotonic then b.event_tv else (gettime env b).0))

  shifted :
      (b : Base B) (off : Timeval) (x : ℕ)
      → IsValid b
      → IsHeld b.timeheap x
      → shift_all (take b.timeheap.n b.timeheap.p) off b.ev_timeout x
        ≡ timersub (b.ev_timeout x) off
  shifted b off x v (j, p, q) =
      let heap = b.timeheap in
      let used = take heap.n heap.p in
      let full : length used ≡ heap.n =
        omega (arith, length-take heap.n heap.p, v.timed.heap.room) in
      let once = placed_once used heap.min_heap_idx 0 x (λ i r.
        let inside : i < heap.n = omega (arith, full) in
        ap heap.min_heap_idx (get_or-take heap.n i heap.p 0 inside)
        ∙ v.timed.heap.indexed i inside
        ∙ omega arith) in
      let here : (occurrences x used == 0) ≡ false =
        let found =
          subst (λ k. occurrences k used ≢ 0) (get_or-take heap.n j heap.p 0 p ∙ q)
            (at_occurs used j (omega (arith, full))) in
        ground arith in
      shift_all-once used off b.ev_timeout x once
      ∙ ap (λ c. if c then b.ev_timeout x else timersub (b.ev_timeout x) off) here

  -- The heap stays one where every timeout in it is brought forward by the same time.
  shifted-IsHeap :
      (b : Base B) (off : Timeval)
      → IsValid b
      → ((x : ℕ) → (b.ev_timeout x).tv_usec < 1000000)
      → off.tv_usec < 1000000
      → ((x : ℕ) → b.on_timeout x ≡ true → timercmp_gt off (b.ev_timeout x) ≡ false)
      → IsHeap (shift_all (take b.timeheap.n b.timeheap.p) off b.ev_timeout) b.timeheap
  unfolding elem_greater
  shifted-IsHeap b off v whole whole_off late =
      let h = v.timed.heap in
      record {
        room = h.room;
        sized = h.sized;
        small = h.small;
        ordered = λ c p q.
            let child = slot b.timeheap c in
            let over = slot b.timeheap (parent c) in
            let held : IsHeld b.timeheap child = (c, q, refl) in
            let held_over : IsHeld b.timeheap over = (parent c, omega arith, refl) in
            rw (shifted b off child v held, shifted b off over v held_over)
              (timersub_cong (b.ev_timeout over) (b.ev_timeout child) off (whole over) (whole child)
                whole_off (late over (v.timed.from over held_over))
                (late child (v.timed.from child held)) (h.ordered c p q));
        indexed = h.indexed;
      }

  -- For a valid base, whose timeouts, last time and time read have fewer than 1000000
  -- microseconds, and no timeout of which is before the time by which the clock went back:
  -- `timeout_correct` leaves a valid base, in particular a heap by the new timeouts, with the same
  -- events timed. If the monotonic clock is not in use and the clock went back, each of their
  -- timeouts is brought forward by that time; otherwise they are as before. The last time is the
  -- time read, or as before with the monotonic clock.
  pub timeout_correct-IsCorrected :
      (b : Base B)
      → IsValid b
      → ((x : ℕ) → (b.ev_timeout x).tv_usec < 1000000)
      → b.event_tv.tv_usec < 1000000
      → (gettime env b).0.tv_usec < 1000000
      → ((x : ℕ)
          → b.on_timeout x ≡ true
          → timercmp_gt (timersub b.event_tv (gettime env b).0) (b.ev_timeout x) ≡ false)
      → IsCorrected b (timeout_correct env b)
  unfolding timeout_correct
  timeout_correct-IsCorrected b v whole whole_last whole_now late =
      let (m, r, same) = gettime_shape env b in
      let now = (gettime env b).0 in
      let off = timersub b.event_tv now in
      if_either (IsCorrected b) b _ b.use_monotonic
        (λ t. (v, (λ x. refl), (λ x p. chosen b now x t refl), last b now t))
        λ t. rw same (
          if_either (IsCorrected b) _ _ (timercmp_gt b.event_tv now)
            (λ u.
              let heap =
                shifted-IsHeap b off v whole (timersub_whole b.event_tv now whole_last whole_now)
                  late in
              (
                record {
                  timed = record {
                    heap = heap;
                    modest = v.timed.modest;
                    to = v.timed.to;
                    from = v.timed.from;
                  };
                  inserted = v.inserted;
                  active = v.active;
                  actives = v.actives;
                  priority = v.priority;
                  based = v.based;
                  untimed = v.untimed;
                  counted = v.counted;
                },
                (λ x. refl),
                (λ x p. shifted b off x v (v.timed.to x p) ∙ chosen b now x t u),
                last b now t,
              ))
            λ u. (quiet v, (λ x. refl), (λ x p. chosen b now x t u), last b now t))
