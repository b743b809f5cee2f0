-- ===== src/Events/Timer.antt =====
-- About the part of `event_add` of event.c on the timeout.
use study_libevent.Prelude.{
  ℕ, ◌+◌, ◌≤◌, ◌≡◌, ◌≢◌, refl, sym, ap, ◌∙◌, subst, Bool-cases, inl, inr, true, false, ◌&&◌, ◌||◌,
  not, ◌==◌, if◌then◌else◌, assign, done, Ensures, Ensures-bind, Ensures-map, returns, arith,
  Option-cases, none, some, ok,
}
use study_libevent.MinHeap.{Timeval}
use study_libevent.Events.{
  Base, Env, timeradd, gettime, read_clock, read_wall, evlist_active, queue_remove,
}
use study_libevent.Events.Calls.{abort_calls, leave, unfired, scheduled, add_timeout}
use study_libevent.Events.Valid.{IsValid, gettime_shape, gettime-keeps}
use study_libevent.Events.Frame.{IsTidy, Frame-trans}
use study_libevent.Events.Delete.{Left, Left-refl, leave_timeout, leave_active, abort_calls-Left}
use study_libevent.Events.Insert.{IsTimed-assign, insert_timeout}

module _ {B : Type 0} (env : Env B) where
  unfired-Left :
      (b : Base B) (e : ℕ)
      → IsValid b
      → let res = b.ev_res e in Ensures (Left b e false res.by_time false) (unfired b e)
  unfolding unfired leave
  unfired-Left b e v =
      let res = b.ev_res e in
      let w0 = abort_calls-Left env b e v in
      elim (Bool-cases (b.is_active e)) [
        | inr t ↦
            rw t (returns (Left-refl b e false res.by_time false v refl (ground (arith, t)) refl))
        | inl t ↦ elim (Bool-cases res.by_time) [
          | inr u ↦ rw (t, u) (returns (Left-refl b e false false false v refl refl refl))
          | inl u ↦
              let still : (abort_calls b e).is_active e ≡ true = ground (arith, w0.actives e, t) in
              rw (t, u)
                (Ensures-map
                  (subst
                    (λ k. Ensures (Left (abort_calls b e) e false true false) (
                      if k
                      then queue_remove (abort_calls b e) e evlist_active
                      else done (abort_calls b e)))
                    still (leave_active (abort_calls b e) e w0.valid))
                  λ b1 w1. record {
                    valid = w1.valid;
                    frame = Frame-trans b (abort_calls b e) b1 w0.frame w1.frame;
                    timeouts = λ x. ground (arith, w0.timeouts x, w1.timeouts x);
                    actives = λ x. ground (arith, w0.actives x, w1.actives x);
                    inserts = λ x. ground (arith, w0.inserts x, w1.inserts x);
                    count = omega (arith, w0.count, w1.count);
                    block = w1.block ∙ w0.block;
                    queues =
                        w1.queues ∙ rw (still, t, w0.queues, ap (λ f. f e) w0.frame.ev_pri) refl;
                  })
        ]
      ]

  pub gettime_cong :
      (b b' : Base B)
      → b'.tv_cache ≡ b.tv_cache
      → b'.reads ≡ b.reads
      → b'.use_monotonic ≡ b.use_monotonic
      → (gettime env b').0 ≡ (gettime env b).0
  unfolding gettime read_clock read_wall
  gettime_cong b b' p q r =
      rw (p, q, r)
        (elim (Bool-cases (b.tv_cache.tv_sec == 0)) [
          | inr t ↦ rw t refl
          | inl t ↦ elim (Option-cases (env.monotonic b.reads)) [
            | inl n ↦ rw (t, n, read_clock) refl
            | inr (now, n) ↦ elim (Bool-cases b.use_monotonic) [
              | inl m ↦ rw (t, n, m, read_clock) refl
              | inr m ↦ rw (t, n, m, read_clock) refl
            ]
          ]
        ])

  -- The timeout is set, from the time that is read.
  record Scheduled (b : Base B) (e : ℕ) (tv : Timeval) (b' : Base B) : Type 0 where
    pub valid : IsValid b'
    pub timeouts : (x : ℕ) → b'.on_timeout x ≡ (b.on_timeout x || (e == x))
    pub times :
        (x : ℕ)
        → b'.ev_timeout x ≡ (if e == x then timeradd (gettime env b).0 tv else b.ev_timeout x)
    pub is_active : b'.is_active ≡ b.is_active
    pub is_inserted : b'.is_inserted ≡ b.is_inserted
    pub ev_base : b'.ev_base ≡ b.ev_base
    pub ev_events : b'.ev_events ≡ b.ev_events
    pub is_internal : b'.is_internal ≡ b.is_internal
    pub tidy : IsTidy b → IsTidy b'
    pub clock : ((k : ℕ) → env.monotonic k ≢ none) → b'.use_monotonic ≡ b.use_monotonic

  scheduled-Scheduled :
      (b : Base B) (e : ℕ) (tv : Timeval)
      → IsValid b
      → b.on_timeout e ≡ false
      → b.ev_base e ≡ true
      → b.is_internal e ≡ false
      → b.timeheap.n + 1 ≤ b.timeheap.a
      → Ensures (Scheduled b e tv) (scheduled env e tv b)
  unfolding scheduled
  scheduled-Scheduled b e tv v z m i room =
      let (mono, reads, same) = gettime_shape env b in
      let now = (gettime env b).0 in
      let c = record b {
        use_monotonic = mono;
        reads = reads;
        ev_timeout = assign b.ev_timeout e (timeradd now tv);
      } in
      let vc : IsValid c = record {
        timed = IsTimed-assign b.ev_timeout b.on_timeout b.timeheap e (timeradd now tv) v.timed z;
        inserted = v.inserted;
        active = v.active;
        actives = v.actives;
        priority = v.priority;
        based = v.based;
        untimed = v.untimed;
        counted = v.counted;
      } in
      rw same (
        Ensures-map (insert_timeout env c e vc z m i room) λ b' (v', h, eq).
          subst (Scheduled b e tv) (sym eq) (record {
            valid = subst IsValid eq v';
            timeouts = λ x. ground (arith, z);
            times = λ x. refl;
            is_active = refl;
            is_inserted = refl;
            ev_base = refl;
            ev_events = refl;
            is_internal = refl;
            tidy = λ t. t;
            clock = λ h. ap (λ d. d.use_monotonic) (sym same) ∙ gettime-keeps env b h;
          }))

  -- What `event_add` does with the timeout of an event.
  pub record Timed (b : Base B) (e : ℕ) (tv : Timeval) (b' : Base B) : Type 0 where
    pub valid : IsValid b'
    pub on_timeout : (x : ℕ) → b'.on_timeout x ≡ (b.on_timeout x || (e == x))
    pub times :
        (x : ℕ)
        → b'.ev_timeout x ≡ (if e == x then timeradd (gettime env b).0 tv else b.ev_timeout x)
    pub is_active :
        (x : ℕ)
        → let res = b.ev_res e in b'.is_active x ≡ (b.is_active x && not (res.by_time && (e == x)))
    pub is_inserted : (x : ℕ) → b'.is_inserted x ≡ b.is_inserted x
    pub ev_base : b'.ev_base ≡ b.ev_base
    pub ev_events : b'.ev_events ≡ b.ev_events
    pub is_internal : b'.is_internal ≡ b.is_internal
    pub tidy : IsTidy b → IsTidy b'
    pub clock : ((k : ℕ) → env.monotonic k ≢ none) → b'.use_monotonic ≡ b.use_monotonic

  pub add_timeout-Timed :
      (b : Base B) (e : ℕ) (tv : Timeval)
      → IsValid b
      → b.ev_base e ≡ true
      → b.is_internal e ≡ false
      → (b.on_timeout e ≡ false → b.timeheap.n + 1 ≤ b.timeheap.a)
      → Ensures (λ r. (r.0 ≡ ok) × Timed b e tv r.1) (add_timeout env e (some tv) (ok, b))
  unfolding add_timeout
  add_timeout-Timed b e tv v m i room = Ensures-bind (leave_timeout b e v) λ b1 w1.
      Ensures-bind (unfired-Left b1 e w1.valid) λ b2 w2.
        let f = Frame-trans b b1 b2 w1.frame w2.frame in
        let off : b2.on_timeout e ≡ false = ground (arith, w1.timeouts e, w2.timeouts e) in
        let time = gettime_cong b b2 f.tv_cache f.reads f.use_monotonic in
        let based : b2.ev_base e ≡ true = ap (λ g. g e) f.ev_base ∙ m in
        let counted : b2.is_internal e ≡ false = ap (λ g. g e) f.is_internal ∙ i in
        let by_time : b1.ev_res e ≡ b.ev_res e = ap (λ g. g e) w1.frame.ev_res in
        let same_time = ap (λ w. w.by_time) by_time in
        Ensures-bind
          (scheduled-Scheduled b2 e tv w2.valid off based counted
            (ground (arith, room, w1.count, w2.count, w1.block, w2.block, b.timeheap.n)))
          λ b3 w3. returns (
            refl,
            record {
              valid = w3.valid;
              on_timeout = λ x. ground (arith, w1.timeouts x, w2.timeouts x, w3.timeouts x);
              times = λ x. w3.times x ∙ rw (time, f.ev_timeout) refl;
              is_active = λ x.
                  ap (λ g. g x) w3.is_active
                  ∙ w2.actives x
                  ∙ rw same_time (ground (arith, w1.actives x));
              is_inserted =
                  λ x. ground (arith, ap (λ g. g x) w3.is_inserted, w1.inserts x, w2.inserts x);
              ev_base = w3.ev_base ∙ f.ev_base;
              ev_events = w3.ev_events ∙ f.ev_events;
              is_internal = w3.is_internal ∙ f.is_internal;
              tidy = λ t. w3.tidy (f.tidy t);
              clock = λ h. w3.clock h ∙ f.use_monotonic;
            },
          )
