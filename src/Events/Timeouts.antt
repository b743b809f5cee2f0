-- ===== src/Events/Timeouts.antt =====
-- About `timeout_process` and `timeout_next` of event.c.
use study_libevent.Prelude.{
  ℕ, zero, suc, ◌+◌, ◌<◌, ◌≡◌, ◌≢◌, refl, sym, ap, ap₂, ◌∙◌, subst, Bool-cases, Option-cases, inl,
  inr, true, false, ◌&&◌, not, ◌==◌, ==_iff, if◌then◌else◌, bit, Ensures, Ensures-bind, Ensures-map,
  Ensures-if, returns, arith, Option, none, some,
}
use study_libevent.Events.Frame.{IsTidy}
use study_libevent.MinHeap.{Timeval, timercmp_gt, MinHeap, slot, top, elem_greater}
use study_libevent.MinHeap.Order.{IsHeap, least_upto}
use study_libevent.MinHeap.Place.{IsHeld}
use study_libevent.Events.{Base, Env, ev_timeout_bit, timerclear, timeradd, timersub, gettime}
use study_libevent.Events.Loop.{process_loop, timeout_process, timeout_next, timeout_correct}
use study_libevent.Events.Valid.{IsValid, quiet, gettime_shape, gettime-keeps}
use study_libevent.Events.Delete.{View, view, view_cong, idle, Left, event_del-Left}
use study_libevent.Events.Count.{Steady, Steady-refl, Steady-trans, refired-Steady}
use study_libevent.Events.Activate.{Fired, event_active-Fired}

-- What the top of a heap is
abbrev pub TopIs : (timeout : ℕ → Timeval) (h : MinHeap) → Option ℕ → Type 0
TopIs timeout h none = h.n ≡ 0
TopIs timeout h (some e) =
    IsHeld h e × ((x : ℕ) → IsHeld h x → timercmp_gt (timeout e) (timeout x) ≡ false)

pub top-TopIs : (timeout : ℕ → Timeval) (h : MinHeap) → IsHeap timeout h → TopIs timeout h (top h)
unfolding top elem_greater
top-TopIs timeout h v = elim (Bool-cases (h.n == 0)) [
  | inl t ↦ rw t ((==_iff h.n 0).0 t)
  | inr t ↦
      let pos : 0 < h.n = ground arith in
      rw t (
        (0, pos, refl),
        λ x (i, q, z).
            subst (λ k. timercmp_gt (timeout (slot h 0)) (timeout k) ≡ false) z
              (least_upto timeout h v i i (omega arith) q),
      )
]

module _ {B : Type 0} (env : Env B) where
  -- An event with a timeout by `now` is deleted and made active; the others stay as they are.
  abbrev pub expired : Timeval → Base B → ℕ → View
  expired now b x =
      if b.on_timeout x && not (timercmp_gt (b.ev_timeout x) now)
      then record idle { active = true }
      else view b x

  pub record Processed (now : Timeval) (b b' : Base B) : Type 0 where
    pub valid : IsValid b'
    pub ev_base : b'.ev_base ≡ b.ev_base
    pub ev_events : b'.ev_events ≡ b.ev_events
    pub is_internal : b'.is_internal ≡ b.is_internal
    pub tidy : IsTidy b → IsTidy b'
    pub steady : Steady b 0 b'
    pub views : (x : ℕ) → view b' x ≡ expired now b x

  -- Where no timeout is over, nothing is to be done.
  settled :
      (now : Timeval) (b : Base B)
      → IsValid b
      → ((x : ℕ) → IsHeld b.timeheap x → timercmp_gt (b.ev_timeout x) now ≡ true)
      → Processed now b b
  settled now b v late = record {
    valid = v;
    ev_base = refl;
    ev_events = refl;
    is_internal = refl;
    tidy = λ t. t;
    steady = Steady-refl b;
    views = λ x. elim (Bool-cases (b.on_timeout x)) [
      | inl t ↦ rw (t, late x (v.timed.to x t)) refl
      | inr t ↦ rw t refl
    ];
  }

  later_than :
      (t u now : Timeval)
      → timercmp_gt t now ≡ true
      → timercmp_gt t u ≡ false
      → timercmp_gt u now ≡ true
  unfolding timercmp_gt
  later_than t u now p q = ground arith

  -- One round of the loop
  Fired-expired :
      (now : Timeval) (b b1 b2 : Base B) (e : ℕ)
      → timercmp_gt (b.ev_timeout e) now ≡ false
      → b.on_timeout e ≡ true
      → Left b e true true true b1
      → Fired b1 e ev_timeout_bit 1 b2
      → (x : ℕ) → expired now b2 x ≡ expired now b x
  Fired-expired now b b1 b2 e due on w f x = elim (Bool-cases (e == x)) [
    | inl t ↦
        let self : (e == e) ≡ true = (==_iff e e).1 refl in
        let out : b1.is_inserted e ≡ false = ground (arith, w.inserts e) in
        let off1 : b1.on_timeout e ≡ false = ground (arith, w.timeouts e) in
        let off : b2.on_timeout e ≡ false = ap (λ g. g e) f.on_timeout ∙ off1 in
        let before = view_cong b1 e out refl off1 refl in
        let after : view b2 e ≡ record idle { active = true } =
          f.views e ∙ rw self (ap (λ (u : View). record u { active = true }) before) in
        let none_left : expired now b2 e ≡ view b2 e = rw off refl in
        let over : expired now b e ≡ record idle { active = true } = rw (on, due) refl in
        subst (λ k. expired now b2 k ≡ expired now b k) ((==_iff e x).0 t)
          (none_left ∙ after ∙ sym over)
    | inr t ↦
        let time = ap (λ g. g x) (f.ev_timeout ∙ w.frame.ev_timeout) in
        let still : b2.on_timeout x ≡ b.on_timeout x =
          ap (λ g. g x) f.on_timeout ∙ ground (arith, w.timeouts x) in
        let before =
          view_cong b1 x (ground (arith, w.inserts x)) (ground (arith, w.actives x))
            (ground (arith, w.timeouts x)) (ap (λ g. g x) w.frame.ev_timeout) in
        let same : view b2 x ≡ view b x = f.views x ∙ rw t before in
        ap₂ (λ c u. if c then record idle { active = true } else u)
          (ap₂ (λ c d. c && not (timercmp_gt d now)) still time) same
  ]

  process_loop-Processed :
      (fuel : ℕ) (now : Timeval) (b : Base B)
      → b.timeheap.n < fuel
      → IsValid b
      → Ensures (Processed now b) (process_loop env fuel now b)
  unfolding process_loop
  process_loop-Processed zero now b g v = absurd (omega arith)
  process_loop-Processed (suc fuel) now b g v =
      let first = top-TopIs b.ev_timeout b.timeheap v.timed.heap in
      elim (Option-cases (top b.timeheap)) [
        | inl n ↦
            let no_more = subst (TopIs b.ev_timeout b.timeheap) n first in
            rw (n, process_loop) (returns (settled now b v λ x (j, q, z). absurd (omega arith)))
        | inr (e, n) ↦
            let (held, least) = subst (TopIs b.ev_timeout b.timeheap) n first in
            rw (n, process_loop)
              (Ensures-if (timercmp_gt (b.ev_timeout e) now)
                (λ t. returns (
                  settled now b v
                    λ x h. later_than (b.ev_timeout e) (b.ev_timeout x) now t (least x h)))
                λ t.
                  let on = v.timed.from e held in
                  let m = v.based e (ground arith) in
                  Ensures-bind (event_del-Left env b e v m) λ r w.
                    Ensures-bind
                      (event_active-Fired env r.1 e ev_timeout_bit 1 w.valid
                        (ap (λ g. g e) w.frame.ev_base ∙ m))
                      λ b2 f.
                        Ensures-map
                          (process_loop-Processed fuel now b2
                            (omega (arith, w.count, ap bit on, ap (λ h. h.n) f.timeheap)) f.valid)
                          λ b' p. record {
                            valid = p.valid;
                            ev_base = p.ev_base ∙ f.ev_base ∙ w.frame.ev_base;
                            ev_events = p.ev_events ∙ f.ev_events ∙ w.frame.ev_events;
                            is_internal = p.is_internal ∙ f.is_internal ∙ w.frame.is_internal;
                            tidy = λ t. p.tidy (f.tidy (omega arith) (w.frame.tidy t));
                            steady =
                                Steady-trans b b2 b' 0 0
                                  (refired-Steady b r.1 b2 e ev_timeout_bit 1 v on w f) p.steady;
                            views = λ x. p.views x ∙ Fired-expired now b r.1 b2 e t on w f x;
                          })
      ]

  -- For a valid base and a monotonic clock that always answers, `timeout_process` ends and leaves
  -- a valid base with the same events and clock: every event with a timeout that is not after the
  -- time read is active, on no other queue and without a timeout; every other stands as before;
  -- active events and timeouts are together no more than before, and the requests to end the loop
  -- are as before.
  pub timeout_process-Processed :
      (b : Base B)
      → ((k : ℕ) → env.monotonic k ≢ none)
      → IsValid b
      → Ensures (Processed (gettime env b).0 b) (timeout_process env b)
  unfolding timeout_process
  timeout_process-Processed b clock v =
      let heap = b.timeheap in
      let now = (gettime env b).0 in
      let (m, r, same) = gettime_shape env b in
      let keeps = gettime-keeps env b clock in
      Ensures-if (heap.n == 0) (λ t. returns (settled now b v λ x (j, q, z). absurd (ground arith)))
        λ t. rw same (
          Ensures-map
            (process_loop-Processed (heap.n + 1) now (record b { use_monotonic = m; reads = r })
              (omega arith) (quiet v))
            λ b' p. record {
              valid = p.valid;
              ev_base = p.ev_base;
              ev_events = p.ev_events;
              is_internal = p.is_internal;
              tidy = λ t. p.tidy t;
              steady = record {
                event_break = p.steady.event_break;
                event_gotterm = p.steady.event_gotterm;
                use_monotonic =
                    p.steady.use_monotonic ∙ ap (λ c. c.use_monotonic) (sym same) ∙ keeps;
                count = p.steady.count;
              };
              views = p.views;
            })

  -- How long the loop waits: without end, not at all, or until `e` is due.
  abbrev pub Waits : Timeval → Base B → Option Timeval → Type 0
  Waits now b none = (x : ℕ) → b.on_timeout x ≡ false
  Waits now b (some wait) =
      (e : ℕ) × (b.on_timeout e ≡ true)
      × ((x : ℕ) → b.on_timeout x ≡ true → timercmp_gt (b.ev_timeout e) (b.ev_timeout x) ≡ false)
      × (if timercmp_gt (b.ev_timeout e) now
          then timeradd now wait ≡ b.ev_timeout e
          else (wait ≡ timerclear))

  abbrev the_time : ℕ → ℕ → Timeval
  the_time sec usec = record { tv_sec = sec; tv_usec = usec }

  timeradd-timersub :
      (t u : Timeval)
      → t.tv_usec < 1000000
      → u.tv_usec < 1000000
      → timercmp_gt t u ≡ true
      → timeradd u (timersub t u) ≡ t
  unfolding timeradd timersub timercmp_gt
  timeradd-timersub t u p q g =
      let sec : (timeradd u (timersub t u)).tv_sec ≡ t.tv_sec = ground arith in
      let usec : (timeradd u (timersub t u)).tv_usec ≡ t.tv_usec = ground arith in
      ap₂ (λ (x y : ℕ). the_time x y) sec usec

  -- For a valid base, where the timeouts and the time read have fewer than 1000000 microseconds:
  -- `timeout_next` gives no bound on the wait only where no event has a timeout; otherwise the
  -- bound belongs to an event than which none is due earlier, and is 0 if that is not due after
  -- the time read, and otherwise added to that time gives when it is due.
  pub timeout_next-Waits :
      (b : Base B)
      → IsValid b
      → ((x : ℕ) → (b.ev_timeout x).tv_usec < 1000000)
      → ((gettime env b).0).tv_usec < 1000000
      → Waits (gettime env b).0 b (timeout_next env b).0
  unfolding timeout_next
  timeout_next-Waits b v whole whole_now =
      let first = top-TopIs b.ev_timeout b.timeheap v.timed.heap in
      let (m, r, same) = gettime_shape env b in
      elim (Option-cases (top b.timeheap)) [
        | inl n ↦
            let no_more = subst (TopIs b.ev_timeout b.timeheap) n first in
            rw (n, timeout_next)
              (λ x. elim (Bool-cases (b.on_timeout x)) [
                | inl t ↦ let (j, q, z) = v.timed.to x t in absurd (omega arith)
                | inr t ↦ t
              ])
        | inr (e, n) ↦
            let (held, least) = subst (TopIs b.ev_timeout b.timeheap) n first in
            rw (n, timeout_next, same)
              (
                e,
                v.timed.from e held,
                (λ x t. least x (v.timed.to x t)),
                elim (Bool-cases (timercmp_gt (b.ev_timeout e) (gettime env b).0)) [
                  | inl t ↦
                      rw t
                        (timeradd-timersub (b.ev_timeout e) (gettime env b).0 (whole e) whole_now t)
                  | inr t ↦ rw t refl
                ],
              )
      ]

  -- With the monotonic clock in use there is nothing to correct.
  pub timeout_correct-monotonic : (b : Base B) → b.use_monotonic ≡ true → timeout_correct env b ≡ b
  unfolding timeout_correct
  timeout_correct-monotonic b m = elim (Bool-cases b.use_monotonic) [
    | inl t ↦ simp t
    | inr t ↦ absurd (cc)
  ]
