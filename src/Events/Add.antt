-- ===== src/Events/Add.antt =====
-- About `event_add` of event.c.
use study_libevent.Prelude.{
  ℕ, ◌+◌, ◌≤◌, ◌≡◌, ◌≢◌, ◌⊎◌, refl, sym, ap, ◌∙◌, subst, inl, inr, true, false, ◌&&◌, ◌||◌, not,
  ◌==◌, ==_iff, Ensures, Ensures-bind, Ensures-map, returns, arith, Option, none, some, Status, ok,
  fail,
}
use study_libevent.Events.Frame.{IsTidy}
use study_libevent.MinHeap.{Timeval, MinHeap}
use study_libevent.Events.{Base, Env, is_io, timeradd, gettime}
use study_libevent.Events.Calls.{reserved, add_timeout, add_reserved, event_add}
use study_libevent.Events.Valid.{IsValid}
use study_libevent.Events.Delete.{view, view_cong}
use study_libevent.Events.Timer.{Timed, gettime_cong, add_timeout-Timed}
use study_libevent.Events.Reserve.{IsModest, Reserved, reserved-Reserved}
use study_libevent.Events.Io.{AddedIo, add_io-AddedIo}

module _ {B : Type 0} (env : Env B) where
  -- What `event_add` leaves; `now` is the time that it reads.
  pub record Added (b : Base B) (e : ℕ) (tv : Option Timeval) (r : Status × Base B) : Type 0 where
    pub valid : IsValid r.1
    pub ev_base : r.1.ev_base ≡ b.ev_base
    pub ev_events : r.1.ev_events ≡ b.ev_events
    pub is_internal : r.1.is_internal ≡ b.is_internal
    pub tidy : IsTidy b → IsTidy r.1
    pub clock : ((k : ℕ) → env.monotonic k ≢ none) → r.1.use_monotonic ≡ b.use_monotonic
    pub others : (x : ℕ) → e ≢ x → view r.1 x ≡ view b x
    pub on_fail :
        r.0 ≡ fail
        → ((x : ℕ) → view r.1 x ≡ view b x)
          × (((tv ≢ none) × (a : ℕ) × (env.realloc a ≡ false))
              ⊎ ((env.sel_add b.evbase e (b.ev_fd e) (b.ev_events e)).0 ≡ fail))
    pub on_ok :
        r.0 ≡ ok
        → let res = b.ev_res e in
          view r.1 e ≡ record {
            inserted = b.is_inserted e || is_io (b.ev_events e) && not (b.is_active e);
            active = elim tv [ none ↦ b.is_active e | some t ↦ b.is_active e && not res.by_time ];
            timer = elim tv [
              | none ↦ (view b e).timer
              | some t ↦ some (timeradd (gettime env b).0 t)
            ];
          }

  failed-Added :
      (b : Base B) (e : ℕ) (h : MinHeap) (tv : Option Timeval) (c : Base B)
      → AddedIo env (record b { timeheap = h }) e (fail, c)
      → Added b e tv (fail, c)
  failed-Added b e h tv c w =
      let same = λ (x : ℕ).
        view_cong c x (ap (λ f. f x) (w.on_fail refl).0) (ap (λ f. f x) w.is_active)
          (ap (λ f. f x) w.on_timeout) (ap (λ f. f x) w.frame.ev_timeout) in
      record {
        valid = w.valid;
        ev_base = w.frame.ev_base;
        ev_events = w.frame.ev_events;
        is_internal = w.frame.is_internal;
        tidy = λ t. w.frame.tidy t;
        clock = λ h. w.frame.use_monotonic;
        others = λ x ne. same x;
        on_fail = λ _. (same, inr (w.on_fail refl).1);
        on_ok = λ p. cc;
      }

  plain-Added :
      (b : Base B) (e : ℕ) (h : MinHeap) (c : Base B)
      → AddedIo env (record b { timeheap = h }) e (ok, c)
      → Added b e none (ok, c)
  plain-Added b e h c w = record {
    valid = w.valid;
    ev_base = w.frame.ev_base;
    ev_events = w.frame.ev_events;
    is_internal = w.frame.is_internal;
    tidy = λ t. w.frame.tidy t;
    clock = λ h. w.frame.use_monotonic;
    others = λ x ne.
        view_cong c x (ground (arith, w.on_ok refl x)) (ap (λ f. f x) w.is_active)
          (ap (λ f. f x) w.on_timeout) (ap (λ f. f x) w.frame.ev_timeout);
    on_fail = λ p. cc;
    on_ok = λ _.
        view_cong c e (ground (arith, w.on_ok refl e)) (ap (λ f. f e) w.is_active)
          (ap (λ f. f e) w.on_timeout) (ap (λ f. f e) w.frame.ev_timeout);
  }

  later-Added :
      (b : Base B) (e : ℕ) (h : MinHeap) (tv : Timeval) (c d : Base B)
      → AddedIo env (record b { timeheap = h }) e (ok, c)
      → Timed env c e tv d
      → Added b e (some tv) (ok, d)
  later-Added b e h tv c d w t =
      let time = gettime_cong env b c w.frame.tv_cache w.frame.reads w.frame.use_monotonic in
      let due = w.frame.ev_timeout in
      record {
        valid = t.valid;
        ev_base = t.ev_base ∙ w.frame.ev_base;
        ev_events = t.ev_events ∙ w.frame.ev_events;
        is_internal = t.is_internal ∙ w.frame.is_internal;
        tidy = λ z. t.tidy (w.frame.tidy z);
        clock = λ h. t.clock h ∙ w.frame.use_monotonic;
        others = λ x ne.
            let other : (e == x) ≡ false = ground arith in
            view_cong d x (ground (arith, t.is_inserted x, w.on_ok refl x))
              (ground (arith, t.is_active x, ap (λ f. f x) w.is_active))
              (ground (arith, t.on_timeout x, ap (λ f. f x) w.on_timeout))
              (t.times x ∙ rw other (ap (λ f. f x) due));
        on_fail = λ p. cc;
        on_ok = λ _.
            let self : (e == e) ≡ true = (==_iff e e).1 refl in
            let res = ap (λ f. f e) w.frame.ev_res in
            let on : d.on_timeout e ≡ true = ground (arith, t.on_timeout e, self) in
            view_cong d e (ground (arith, t.is_inserted e, w.on_ok refl e))
              (t.is_active e ∙ rw (res, ap (λ f. f e) w.is_active) (ground arith)) on
              (t.times e ∙ rw (self, time) refl);
      }

  with_timeout-Added :
      (b : Base B) (e : ℕ) (tv : Timeval) (h : MinHeap) (r : Status × Base B)
      → b.ev_base e ≡ true
      → b.is_internal e ≡ false
      → (b.on_timeout e ≡ false → h.n + 1 ≤ h.a)
      → AddedIo env (record b { timeheap = h }) e r
      → Ensures (Added b e (some tv)) (add_timeout env e (some tv) r)
  with_timeout-Added b e tv h (fail, c) m i room w =
      unfold add_timeout in returns (failed-Added b e h (some tv) c w)
  with_timeout-Added b e tv h (ok, c) m i room w =
      Ensures-map
        (add_timeout-Timed env c e tv w.valid (ap (λ f. f e) w.frame.ev_base ∙ m)
          (ap (λ f. f e) w.frame.is_internal ∙ i)
          (λ z.
            subst (λ g. g.n + 1 ≤ g.a) (sym w.timeheap)
              (room (ap (λ f. f e) (sym w.on_timeout) ∙ z))))
        λ r (o, t). ended r o t
    where
      ended : (r : Status × Base B) → r.0 ≡ ok → Timed env c e tv r.1 → Added b e (some tv) r
      ended (ok, d) o t = later-Added b e h tv c d w t
      ended (fail, d) o t = cc

  without_timeout-Added :
      (b : Base B) (e : ℕ) (h : MinHeap) (r : Status × Base B)
      → AddedIo env (record b { timeheap = h }) e r
      → Ensures (Added b e none) (add_timeout env e none r)
  unfolding add_timeout
  without_timeout-Added b e h (fail, c) w = returns (failed-Added b e h none c w)
  without_timeout-Added b e h (ok, c) w = returns (plain-Added b e h c w)

  add_reserved-Added :
      (b : Base B) (e : ℕ) (tv : Option Timeval) (r : Status × MinHeap)
      → IsValid b
      → b.ev_base e ≡ true
      → (b.is_internal e ≡ true → tv ≡ none)
      → (b.ev_events e).signal ≡ false
      → Reserved env b e tv r
      → Ensures (Added b e tv) (add_reserved env b e tv r)
  unfolding add_reserved
  add_reserved-Added b e tv (fail, h) v m i d w = returns (record {
    valid = w.valid;
    ev_base = refl;
    ev_events = refl;
    is_internal = refl;
    tidy = λ t. t;
    clock = λ h. refl;
    others = λ x ne. refl;
    on_fail = λ p. ((λ x. refl), inl (w.refused refl));
    on_ok = λ p. cc;
  })
  add_reserved-Added b e none (ok, h) v m i d w =
      Ensures-bind (add_io-AddedIo env (record b { timeheap = h }) e w.valid d)
        λ r q. without_timeout-Added b e h r q
  add_reserved-Added b e (some tv) (ok, h) v m i d w =
      Ensures-bind (add_io-AddedIo env (record b { timeheap = h }) e w.valid d)
        λ r q. with_timeout-Added b e tv h r m (ground (arith, i)) (w.room refl (λ z. cc)) q

  pub event_add-Added :
      (b : Base B) (e : ℕ) (tv : Option Timeval)
      → IsModest env.realloc
      → IsValid b
      → b.ev_base e ≡ true
      → (b.is_internal e ≡ true → tv ≡ none)
      → (b.ev_events e).signal ≡ false
      → Ensures (Added b e tv) (event_add env b e tv)
  unfolding event_add
  event_add-Added b e tv modest v m i d = rw m (
      add_reserved-Added b e tv (reserved env b e tv) v m i d
        (reserved-Reserved env b e tv modest v))
