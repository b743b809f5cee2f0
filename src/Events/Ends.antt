-- ===== src/Events/Ends.antt =====
-- About `event_base_loop` of event.c with EVLOOP_NONBLOCK: it comes to an end.
use study_libevent.Prelude.{
  ℕ, zero, suc, ◌+◌, ◌≤◌, ◌<◌, ◌≡◌, ◌≢◌, refl, sym, ap, ◌∙◌, subst, List, [], ◌∷◌, Bool, Bool-cases,
  inl, inr, true, false, ◌==◌, ==_iff, length, get_or, Ensures, Ensures-bind, Ensures-if, returns,
  arith, Option, none, some, ok,
}
use study_libevent.MinHeap.{Timeval}
use study_libevent.Events.{Base, Env, What, timerclear, gettime}
use study_libevent.Events.Loop.{
  exited, failed, LoopFlags, run_ops, wait_for, uncached, dispatched, processed, loop_rounds,
  base_loop,
}
use study_libevent.Events.Valid.{IsValid, quiet, gettime_shape, gettime-keeps}
use study_libevent.Events.Count.{Steady}
use study_libevent.Events.Timeouts.{timeout_process-Processed, timeout_correct-monotonic}
use study_libevent.Events.Order.{process_active-Emptied}

some_length : (es : List ℕ) → es ≢ [] → 1 ≤ length es
some_length [] h = absurd (h refl)
some_length (e ∷ es) h = omega arith

module _ {B : Type 0} (env : Env B)
    (silent : (b : Base B) (e : ℕ) (what : What) → env.callback b e what ≡ [])
    (answers : (b : Base B) (tv : Option Timeval)
      → ((env.dispatch b tv).0 ≡ ok) × ((env.dispatch b tv).1 ≡ []))
    (clock : (k : ℕ) → env.monotonic k ≢ none) where
  -- The active events and the timeouts, together
  abbrev left_over : Base B → ℕ
  left_over b = b.event_count_active + b.timeheap.n

  wait_for-nonblock :
      (flags : LoopFlags) (b : Base B)
      → flags.nonblock ≡ true
      → wait_for env flags b ≡ (some timerclear, b)
  unfolding wait_for
  wait_for-nonblock flags b h = elim (Bool-cases (b.event_count_active == 0)) [
    | inl t ↦ rw (t, h) refl
    | inr t ↦ rw t refl
  ]

  -- A reading of the time
  gettime-Steady :
      (b : Base B) → IsValid b → IsValid (gettime env b).1 × Steady b 0 (gettime env b).1
  gettime-Steady b v =
      let (m, r, same) = gettime_shape env b in
      let keeps = gettime-keeps env b clock in
      subst (λ c. IsValid c × Steady b 0 c) (sym same)
        (
          quiet v,
          record {
            event_break = refl;
            event_gotterm = refl;
            use_monotonic = ap (λ c. c.use_monotonic) (sym same) ∙ keeps;
            count = omega arith;
          },
        )

  dispatched-Steady :
      (tv : Option Timeval) (b : Base B)
      → IsValid b
      → Ensures (λ r. (r.0 ≡ ok) × IsValid r.1 × Steady b 0 r.1) (dispatched env tv b)
  unfolding dispatched run_ops
  dispatched-Steady tv b v =
      let (w, s) = gettime-Steady b v in
      let b2 = uncached env (record (gettime env b).1 { event_tv = (gettime env b).0 }) in
      let (well, quietly) = answers b2 tv in
      rw quietly (
        returns (
          well,
          quiet w,
          record {
            event_break = s.event_break;
            event_gotterm = s.event_gotterm;
            use_monotonic = s.use_monotonic;
            count = s.count;
          },
        ))

  -- A round ends the loop with no event active, or leaves fewer events.
  abbrev Went : Base B → Bool × Base B → Type 0
  Went b r =
      IsValid r.1 × (r.0 ≡ true → r.1.event_count_active ≡ 0) × (r.0 ≡ false → Steady b 1 r.1)

  processed-Went :
      (fuel : ℕ) (flags : LoopFlags) (b : Base B)
      → flags.nonblock ≡ true
      → IsValid b
      → b.event_break ≡ false
      → left_over b < fuel
      → Ensures (Went b) (processed env fuel flags b)
  unfolding processed
  processed-Went fuel flags b h v calm enough =
      let (w, s) = gettime-Steady b v in
      Ensures-bind (timeout_process-Processed env _ clock (quiet w)) λ b2 p.
        let here : Steady b 0 b2 = record {
          event_break = p.steady.event_break ∙ s.event_break;
          event_gotterm = p.steady.event_gotterm ∙ s.event_gotterm;
          use_monotonic = p.steady.use_monotonic ∙ s.use_monotonic;
          count = omega (arith, p.steady.count, s.count);
        } in
        Ensures-if (b2.event_count_active == 0)
          (λ t. returns (p.valid, (λ q. (==_iff b2.event_count_active 0).0 t), λ q. absurd (cc)))
          λ t.
            let (i, first, ran) =
              process_active-Emptied env silent fuel b2 p.valid (here.event_break ∙ calm)
                (ground arith) (omega (arith, here.count)) in
            Ensures-bind ran λ b3 z.
              let some_event = some_length (get_or b2.activequeues i []) first.0 in
              returns (
                z.valid,
                (λ q. ground arith),
                λ q. record {
                  event_break = z.steady.event_break ∙ here.event_break;
                  event_gotterm = z.steady.event_gotterm ∙ here.event_gotterm;
                  use_monotonic = z.steady.use_monotonic ∙ here.use_monotonic;
                  count = omega (arith, z.steady.count, here.count, some_event);
                },
              )

  loop_rounds-ends :
      (fuel : ℕ) (flags : LoopFlags) (b : Base B)
      → flags.nonblock ≡ true
      → IsValid b
      → b.use_monotonic ≡ true
      → b.event_break ≡ false
      → b.event_gotterm ≡ false
      → left_over b + 1 < fuel
      → Ensures
          (λ r. IsValid r.1 × (r.0 ≢ failed) × (r.0 ≡ exited → r.1.event_count_active ≡ 0))
          (loop_rounds env fuel flags b)
  unfolding loop_rounds
  loop_rounds-ends zero flags b h v m calm on enough = absurd (omega arith)
  loop_rounds-ends (suc fuel) flags b h v m calm on enough =
      rw (timeout_correct-monotonic env b m, wait_for-nonblock flags b h)
        (Ensures-if b.event_gotterm (λ t. absurd (cc))
          λ t.
            Ensures-if b.event_break (λ t. absurd (cc))
              λ t.
                Ensures-if (b.event_count == 0) (λ t. returns (v, (λ p. cc), λ p. cc))
                  λ t. Ensures-bind (dispatched-Steady (some timerclear) b v) λ r (well, v1, s1).
                    rw well (
                      Ensures-bind
                        (processed-Went fuel flags r.1 h v1 (s1.event_break ∙ calm)
                          (omega (arith, s1.count)))
                        λ q (v2, stopped, less). elim (Bool-cases q.0) [
                          | inl t ↦ rw t (returns (quiet v2, (λ p. cc), λ p. stopped t))
                          | inr t ↦
                              let s2 = less t in
                              rw t (
                                loop_rounds-ends fuel flags q.1 h v2
                                  (s2.use_monotonic ∙ s1.use_monotonic ∙ m)
                                  (s2.event_break ∙ s1.event_break ∙ calm)
                                  (s2.event_gotterm ∙ s1.event_gotterm ∙ on)
                                  (omega (arith, s1.count, s2.count)))
                        ]))

  -- With EVLOOP_NONBLOCK, callbacks that call nothing of the library, a back end whose `dispatch`
  -- succeeds and calls nothing of it, and a monotonic clock that answers and is in use,
  -- `event_base_loop` from a valid base that is not asked to end returns within as many rounds as
  -- the base has active events and timeouts, and two more: it leaves a valid base and does not
  -- return -1, and with 0 no event is active.
  pub base_loop-ends :
      (fuel : ℕ) (flags : LoopFlags) (b : Base B)
      → flags.nonblock ≡ true
      → IsValid b
      → b.use_monotonic ≡ true
      → b.event_break ≡ false
      → b.event_gotterm ≡ false
      → b.event_count_active + b.timeheap.n + 1 < fuel
      → Ensures
          (λ r. IsValid r.1 × (r.0 ≢ failed) × (r.0 ≡ exited → r.1.event_count_active ≡ 0))
          (base_loop env fuel flags b)
  unfolding base_loop
  base_loop-ends fuel flags b h v m calm on enough =
      loop_rounds-ends fuel flags (uncached env b) h (quiet v) m calm on enough
