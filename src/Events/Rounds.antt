-- ===== src/Events/Rounds.antt =====
-- About `event_process_active` and `event_base_loop` of event.c, with callbacks that call the library.
use study_libevent.Prelude.{
  ◌≤◌, ◌-◌, ◌++◌, ◌∷◌, assign, ℕ, zero, suc, ◌≡◌, ◌≢◌, refl, sym, ap, ◌∙◌, subst, List, [], Bool,
  Bool-cases, Option-cases, List-cases, Status-cases, inl, inr, true, false, ◌&&◌, not, ◌==◌,
  ==_iff, get_or, occurrences, weight, sum_of-get_or, occurrences-weight, Ensures, Ensures-bind,
  Ensures-map, Ensures-if, returns, Safe, finished, unfinished, Safe-of_Ensures, Safe-bind, Safe-if,
  arith, Option,
}
use study_libevent.Events.Frame.{Single}
use study_libevent.MinHeap.{Timeval, top}
use study_libevent.Events.{Base, Env, What, gettime}
use study_libevent.Events.Loop.{
  LoopEnd, exited, no_events, failed, LoopFlags, first_active, timeout_next, call_loop, taken,
  called, run_queue, process_active, wait_for, uncached, dispatched, processed, loop_rounds,
  base_loop,
}
use study_libevent.Events.Valid.{IsValid, quiet, gettime_shape, gettime-keeps}
use study_libevent.Events.Delete.{view, idle, event_del-Left}
use study_libevent.Events.Remove.{remove_active}
use study_libevent.Events.Timeouts.{timeout_process-Processed, timeout_correct-monotonic}
use study_libevent.Events.Safety.{IsRunning, IsProper, run_ops-IsRunning}
use study_libevent.Events.First.{head_active, first_active_exists}

-- With no event counted, no event of the program is in the base.
idle_without :
    {B : Type 0} (b : Base B) (x : ℕ)
    → IsValid b
    → b.event_count ≡ 0
    → b.is_internal x ≡ false
    → view b x ≡ idle
idle_without b x v z i =
    let out : b.is_inserted x ≡ false =
      ground (arith, v.inserted x, v.counted, occurrences-weight b.is_internal x b.eventqueue i) in
    let untimed : b.on_timeout x ≡ false = elim (Bool-cases (b.on_timeout x)) [
      | inl t ↦ let (j, q, w) = v.timed.to x t in absurd (omega (arith, v.counted))
      | inr t ↦ t
    ] in
    let rest : b.is_active x ≡ false = elim (Bool-cases (b.is_active x)) [
      | inl t ↦
          let queue = get_or b.activequeues (b.ev_pri x) [] in
          let inside = v.priority x (v.based x (ground arith)) in
          let few = sum_of-get_or (weight b.is_internal) b.activequeues (b.ev_pri x) inside in
          let once : occurrences x queue ≡ 1 = ground (arith, v.active x (b.ev_pri x)) in
          absurd (omega (arith, v.counted, occurrences-weight b.is_internal x queue i))
      | inr t ↦ t
    ] in
    rw (out, untimed, rest) refl

module _ {B : Type 0} (env : Env B) (mine internal : ℕ → Bool)
    (proper : IsProper env mine internal) where
  abbrev Goes : Base B → Type 0
  Goes b = IsRunning env mine internal b

  steady :
      {b : Base B} {evbase : B} {event_gotterm event_break : Bool} {event_tv tv_cache : Timeval}
      {reads : ℕ} {is_processing : Bool} {trace : List (ℕ × What)}
      → Goes b
      → Goes (record b {
        evbase = evbase;
        event_gotterm = event_gotterm;
        event_break = event_break;
        event_tv = event_tv;
        tv_cache = tv_cache;
        reads = reads;
        is_processing = is_processing;
        trace = trace;
      })
  steady v = record {
    valid = quiet v.valid;
    ev_base = v.ev_base;
    descriptors = v.descriptors;
    tidy = v.tidy;
    is_internal = v.is_internal;
    use_monotonic = v.use_monotonic;
  }

  gettime-Goes : (b : Base B) → Goes b → Goes (gettime env b).1
  gettime-Goes b v =
      let (m, r, same) = gettime_shape env b in
      let keeps = gettime-keeps env b proper.clock in
      subst Goes (sym same) (record {
        valid = quiet v.valid;
        ev_base = v.ev_base;
        descriptors = v.descriptors;
        tidy = v.tidy;
        is_internal = v.is_internal;
        use_monotonic = ap (λ c. c.use_monotonic) (sym same) ∙ keeps ∙ v.use_monotonic;
      })

  taken-Goes : (b : Base B) (e : ℕ) → Goes b → b.is_active e ≡ true → Ensures Goes (taken env b e)
  unfolding taken
  taken-Goes b e v on =
      Ensures-if (b.ev_events e).persist
        (λ p. Ensures-map (remove_active b e v.valid on) λ b' (v', same).
          subst Goes (sym same) (record {
            valid = subst IsValid same v';
            ev_base = v.ev_base;
            descriptors = v.descriptors;
            tidy = v.tidy;
            is_internal = v.is_internal;
            use_monotonic = v.use_monotonic;
          }))
        λ p. Ensures-bind (event_del-Left env b e v.valid (v.valid.based e (ground arith))) λ r w.
          returns (record {
            valid = w.valid;
            ev_base = w.frame.ev_base ∙ v.ev_base;
            descriptors = λ x. ap (λ f. (f x).signal) w.frame.ev_events ∙ v.descriptors x;
            tidy = w.frame.tidy v.tidy;
            is_internal = w.frame.is_internal ∙ v.is_internal;
            use_monotonic = w.frame.use_monotonic ∙ v.use_monotonic;
          })

  -- The base in the calls for `e`, whose `ev_pncalls` is set.
  record Calling (e : ℕ) (b : Base B) : Type 0 where
    pub valid : IsValid b
    pub ev_base : b.ev_base ≡ mine
    pub descriptors : (x : ℕ) → (b.ev_events x).signal ≡ false
    pub is_internal : b.is_internal ≡ internal
    pub use_monotonic : b.use_monotonic ≡ true
    pub stray : b.stray ≡ 0
    pub few : b.ncalls ≤ 1
    pub others : (x : ℕ) → e ≢ x → Single b x
    pub last : b.ncalls ≡ 0 → Single b e

  Goes-Calling : (e : ℕ) (b : Base B) → Goes b → Calling e b
  Goes-Calling e b v = record {
    valid = v.valid;
    ev_base = v.ev_base;
    descriptors = v.descriptors;
    is_internal = v.is_internal;
    use_monotonic = v.use_monotonic;
    stray = v.tidy.0;
    few = v.tidy.1;
    others = λ x ne. v.tidy.2 x;
    last = λ z. v.tidy.2 e;
  }

  Calling-Goes : (e : ℕ) (b : Base B) → Calling e b → b.ncalls ≡ 0 → Goes b
  Calling-Goes e b v z = record {
    valid = v.valid;
    ev_base = v.ev_base;
    descriptors = v.descriptors;
    is_internal = v.is_internal;
    use_monotonic = v.use_monotonic;
    tidy = (
      v.stray,
      v.few,
      λ x. elim (Bool-cases (e == x)) [
        | inl t ↦ subst (Single b) ((==_iff e x).0 t) (v.last z)
        | inr t ↦ v.others x (ground arith)
      ],
    );
  }

  -- `ncalls` and `ev_pncalls` are set for `e`.
  start-Calling :
      (e : ℕ) (b : Base B)
      → Goes b
      → Calling e (record b { ncalls = b.ev_ncalls e; ev_pncalls = assign b.ev_pncalls e true })
  start-Calling e b v = record {
    valid = quiet v.valid;
    ev_base = v.ev_base;
    descriptors = v.descriptors;
    is_internal = v.is_internal;
    use_monotonic = v.use_monotonic;
    stray = v.tidy.0;
    few = at_most_one (v.tidy.2 e);
    others = λ x ne. let apart : (e == x) ≡ false = ground arith in rw apart (v.tidy.2 x);
    last = λ z. inl z;
  }
    where
      at_most_one : Single b e → b.ev_ncalls e ≤ 1
      at_most_one (inl z) = omega arith
      at_most_one (inr (one, unset)) = omega arith

  -- The last call is counted down.
  call-Goes :
      (e : ℕ) (b : Base B)
      → Calling e b
      → Goes (record b {
        ncalls = b.ncalls - 1;
        ev_ncalls = assign b.ev_ncalls e (b.ncalls - 1);
        trace = b.trace ++ (e, b.ev_res e) ∷ [];
      })
  call-Goes e b v = record {
    valid = quiet v.valid;
    ev_base = v.ev_base;
    descriptors = v.descriptors;
    is_internal = v.is_internal;
    use_monotonic = v.use_monotonic;
    tidy = (
      v.stray,
      omega (arith, v.few),
      λ x. elim (Bool-cases (e == x)) [
        | inl t ↦ rw t (inl (omega (arith, v.few)))
        | inr t ↦ rw t (v.others x (ground arith))
      ],
    );
  }

  call_loop-Goes :
      (fuel e : ℕ) (b : Base B) → Calling e b → Safe (λ r. Goes r.1) (call_loop env fuel e b)
  unfolding call_loop
  call_loop-Goes zero e b v = unfinished
  call_loop-Goes (suc fuel) e b v =
      Safe-if (b.ncalls == 0) (λ p. finished (Calling-Goes e b v ((==_iff b.ncalls 0).0 p)))
        λ p.
          let w = call-Goes e b v in
          Safe-bind
            (Safe-of_Ensures (
              run_ops-IsRunning env mine internal proper _ _ w
                (proper.callback _ e _ w.ev_base w.is_internal)))
            λ b2 w. elim (Bool-cases b2.event_break) [
              | inl t ↦ rw t (finished w)
              | inr t ↦ rw t (call_loop-Goes fuel e b2 (Goes-Calling e b2 w))
            ]

  run_queue-Goes : (fuel i : ℕ) (b : Base B) → Goes b → Safe Goes (run_queue env fuel i b)
  unfolding run_queue called
  run_queue-Goes zero i b v = unfinished
  run_queue-Goes (suc fuel) i b v = elim (List-cases (get_or b.activequeues i [])) [
    | inl p ↦ rw (p, run_queue) (finished v)
    | inr (e, es, p) ↦
        rw (p, run_queue)
          (Safe-bind
            (Safe-bind (Safe-of_Ensures (taken-Goes b e v (head_active b i e es v.valid p)))
              λ b1 w. call_loop-Goes _ e _ (start-Calling e b1 w))
            λ (stop, b2) u. elim (Bool-cases stop) [
              | inl t ↦ rw t (finished u)
              | inr t ↦ rw t (run_queue-Goes fuel i b2 u)
            ])
  ]

  -- Where the callbacks and the back end call the library only for events of the base, and with no
  -- timeout for internal ones, `realloc` gives no block of 2 ^ 31 slots and the monotonic clock
  -- answers, `event_process_active` from a valid base with that clock, tidy and without
  -- signal bits, and an active event fails no assert, and if it returns, the base is valid and has its events and its clock.
  process_active-IsRunning :
      (fuel : ℕ) (b : Base B)
      → IsRunning env mine internal b
      → b.event_count_active ≢ 0
      → Safe (IsRunning env mine internal) (process_active env fuel b)
  unfolding process_active
  process_active-IsRunning fuel b v h = elim (Option-cases (first_active b.activequeues)) [
    | inl n ↦ absurd (first_active_exists b.activequeues (λ z. h (sym v.valid.actives ∙ z)) n)
    | inr (i, n) ↦
        rw (n, process_active)
          (Safe-bind (run_queue-Goes fuel i _ (steady v)) λ b' w. finished (steady w))
  ]

  timeout_next-Goes : (b : Base B) → Goes b → Goes (timeout_next env b).1
  unfolding timeout_next
  timeout_next-Goes b v = elim (Option-cases (top b.timeheap)) [
    | inl n ↦ rw (n, timeout_next) v
    | inr (e, n) ↦ rw (n, timeout_next) (gettime-Goes b v)
  ]

  wait_for-Goes : (flags : LoopFlags) (b : Base B) → Goes b → Goes (wait_for env flags b).1
  unfolding wait_for
  wait_for-Goes flags b v = elim (Bool-cases ((b.event_count_active == 0) && not flags.nonblock)) [
    | inl t ↦ rw (t, wait_for) (timeout_next-Goes b v)
    | inr t ↦ rw (t, wait_for) v
  ]

  dispatched-Goes :
      (tv : Option Timeval) (b : Base B) → Goes b → Ensures (λ r. Goes r.1) (dispatched env tv b)
  unfolding dispatched
  dispatched-Goes tv b v =
      let w = gettime-Goes b v in
      Ensures-bind
        (run_ops-IsRunning env mine internal proper _ _ (steady w)
          (proper.dispatch _ tv w.ev_base w.is_internal))
        λ b3 u. returns u

  processed-Goes :
      (fuel : ℕ) (flags : LoopFlags) (b : Base B)
      → Goes b
      → Safe (λ r. Goes r.1) (processed env fuel flags b)
  unfolding processed
  processed-Goes fuel flags b v =
      let w = gettime-Goes b v in
      Safe-bind (Safe-of_Ensures (timeout_process-Processed env _ proper.clock (quiet w.valid)))
        λ b2 p.
          let u : Goes b2 = record {
            valid = p.valid;
            ev_base = p.ev_base ∙ w.ev_base;
            descriptors = λ x. ap (λ f. (f x).signal) p.ev_events ∙ w.descriptors x;
            tidy = p.tidy w.tidy;
            is_internal = p.is_internal ∙ w.is_internal;
            use_monotonic = p.steady.use_monotonic ∙ w.use_monotonic;
          } in
          Safe-if (b2.event_count_active == 0) (λ t. finished u)
            λ t. Safe-bind (process_active-IsRunning fuel b2 u (ground arith)) λ b3 z. finished z

  -- What `event_base_loop` leaves: the invariant, and an idle base where it returns 1.
  pub record Ended (r : LoopEnd × Base B) : Type 0 where
    pub running : IsRunning env mine internal r.1
    pub none_left : r.0 ≡ no_events → (x : ℕ) → internal x ≡ false → view r.1 x ≡ idle

  going : {b : Base B} → Goes b → (how : LoopEnd) → how ≢ no_events → Ended (how, b)
  going v how h = record { running = v; none_left = λ p. absurd (h p) }

  loop_rounds-Ended :
      (fuel : ℕ) (flags : LoopFlags) (b : Base B)
      → Goes b
      → Safe Ended (loop_rounds env fuel flags b)
  unfolding loop_rounds
  loop_rounds-Ended zero flags b v = unfinished
  loop_rounds-Ended (suc fuel) flags b v =
      let w = wait_for-Goes flags b v in
      let b1 = (wait_for env flags b).1 in
      rw (timeout_correct-monotonic env b v.use_monotonic) (
        Safe-if b.event_gotterm (λ t. finished (going (steady v) exited (λ p. cc)))
          λ t.
            Safe-if b.event_break (λ t. finished (going (steady v) exited (λ p. cc)))
              λ t.
                Safe-if (b1.event_count == 0)
                  (λ t. finished (record {
                    running = w;
                    none_left = λ p x i.
                        idle_without b1 x w.valid ((==_iff b1.event_count 0).0 t)
                          (ap (λ f. f x) w.is_internal ∙ i);
                  }))
                  λ t. Safe-bind (Safe-of_Ensures (dispatched-Goes _ b1 w)) λ r u.
                    elim (Status-cases r.0) [
                      | inr q ↦ rw q (finished (going u failed (λ p. cc)))
                      | inl q ↦ rw q (
                          Safe-bind (processed-Goes fuel flags r.1 u) λ s z. elim (Bool-cases s.0) [
                            | inl q' ↦ rw q' (finished (going (steady z) exited (λ p. cc)))
                            | inr q' ↦ rw q' (loop_rounds-Ended fuel flags s.1 z)
                          ])
                    ])

  -- Where callbacks and the back end call nothing of the library but `event_add`, `event_del`,
  -- `event_active`, `event_base_loopbreak` and `event_loopexit_cb`, the first three only for events of
  -- the base, with no timeout for internal ones and `ncalls` at most 1, `realloc` gives no block of
  -- 2 ^ 31 slots and the monotonic clock answers: `event_base_loop` from a valid base with that clock,
  -- in which no event has the signal bit, none is to be called more than once, and none that is to be
  -- called has its `ev_pncalls` set, fails no assert, never exits by `event_errx`, accesses no array
  -- out of bounds and writes through no stale `ev_pncalls`, however long it runs; if it returns, all
  -- this still holds of the base, it has the same events, and with 1 every event that is not internal
  -- is on no queue and has no timeout.
  pub base_loop-Ended :
      (fuel : ℕ) (flags : LoopFlags) (b : Base B)
      → IsRunning env mine internal b
      → Safe Ended (base_loop env fuel flags b)
  unfolding base_loop
  base_loop-Ended fuel flags b v = loop_rounds-Ended fuel flags (uncached env b) (steady v)
