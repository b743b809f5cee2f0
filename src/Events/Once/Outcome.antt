-- ===== src/Events/Once/Outcome.antt =====
-- About `event_base_once` of event.c.
use study_libevent.Prelude.{
  ℕ, ◌≡◌, ◌≢◌, refl, sym, ap, ◌∙◌, subst, [], Bool, true, false, ◌||◌, not, if◌then◌else◌, Ensures,
  Ensures-map, Ensures-if, returns, arith, Option, none, some, Status, ok, fail,
}
use study_libevent.MinHeap.{Timeval}
use study_libevent.Events.{Base, Env, What, nothing, is_io, timerclear, timeradd, gettime}
use study_libevent.Events.Calls.{event_set}
use study_libevent.Events.Valid.{IsValid}
use study_libevent.Events.Delete.{view, idle}
use study_libevent.Events.Setup.{event_set-IsValid}
use study_libevent.Events.Add.{event_add-Added}
use study_libevent.Events.Reserve.{IsModest}
use study_libevent.Events.Once.{is_timer, transfers, once_added, once_set, once_with, base_once}
use study_libevent.Events.Once.Settled.{
  base_set-event_set, seen_cong, settled, settled-IsValid, settled_lem, view-settled,
}

-- When an event that is scheduled at `now` is due; a mere timer without a timeout, at once.
abbrev pub due_at : Bool → Timeval → Option Timeval → Option Timeval
due_at timer now none = if timer then some (timeradd now timerclear) else none
due_at timer now (some t) = some (timeradd now t)

due_timer :
    (now : Timeval) (tv : Option Timeval)
    → some (timeradd now (elim tv as (λ _. Timeval) [ none ↦ timerclear | some t ↦ t ]))
      ≡ due_at true now tv
due_timer now none = refl
due_timer now (some t) = refl

due_io :
    (now : Timeval) (tv : Option Timeval)
    → elim tv as (λ _. Option Timeval) [ none ↦ none | some t ↦ some (timeradd now t) ]
      ≡ due_at false now tv
due_io now none = refl
due_io now (some t) = refl

module _ {B : Type 0} (env : Env B) where
  -- What `event_base_once` leaves for the event `e` of its structure
  pub record Once (b : Base B) (e : ℕ) (events : What) (tv : Option Timeval) (r : Status × Base B)
      : Type 0 where
    pub valid : IsValid r.1
    pub others : (x : ℕ) → e ≢ x → view r.1 x ≡ view b x
    pub on_fail : r.0 ≡ fail → view r.1 e ≡ idle
    pub on_ok :
        r.0 ≡ ok
        → (events.signal ≡ false)
          × (view r.1 e ≡ record {
            inserted = not (is_timer events);
            active = false;
            timer = due_at (is_timer events) (gettime env b).0 tv;
          })

  -- What `once_set` leaves of an idle event that was set to `w`
  record Set (b : Base B) (e : ℕ) (w : What) (tv : Option Timeval) (r : Status × Base B)
      : Type 0 where
    pub valid : IsValid r.1
    pub others : (x : ℕ) → e ≢ x → view r.1 x ≡ view b x
    pub on_fail : r.0 ≡ fail → view r.1 e ≡ idle
    pub on_ok :
        r.0 ≡ ok
        → view r.1 e ≡ record {
          inserted = is_io w;
          active = false;
          timer = elim tv [ none ↦ none | some t ↦ some (timeradd (gettime env b).0 t) ];
        }

  once_set-Set :
      (b : Base B) (e : ℕ) (fd : Option ℕ) (w : What) (tv : Option Timeval)
      → IsModest env.realloc
      → IsValid b
      → b.activequeues ≢ []
      → view b e ≡ idle
      → w.signal ≡ false
      → Ensures (Set b e w tv) (once_set env e tv (event_set b e fd w))
  unfolding once_set once_added
  once_set-Set b e fd w tv modest v some_queue calm plain =
      let (external, rest, out, events, mine) = settled_lem b e fd w in
      let same = (event_set-IsValid b e fd w v some_queue calm).2 in
      let valid = settled-IsValid b e fd w v some_queue calm in
      subst (λ r. Ensures (Set b e w tv) (once_added env e tv r))
        (sym (base_set-event_set b e fd w))
        (Ensures-map
          (event_add-Added env (settled b e fd w) e tv modest valid mine (λ p. absurd (cc))
            (ap (λ x. x.signal) events ∙ plain))
          λ r a. record {
            valid = a.valid;
            others = λ x p. a.others x p ∙ same x;
            on_fail = λ p. (a.on_fail p).0 e ∙ same e ∙ calm;
            on_ok = λ p. a.on_ok p ∙ view-settled env b e fd w tv (same e ∙ calm);
          })

  unchanged :
      (b : Base B) (e : ℕ) (events : What) (tv : Option Timeval)
      → IsValid b
      → view b e ≡ idle
      → Once b e events tv (fail, b)
  unchanged b e events tv v calm = record {
    valid = v;
    others = λ x p. refl;
    on_fail = λ p. calm;
    on_ok = λ p. absurd (cc);
  }

  -- For a valid base with a queue, an idle event in the new structure, and a `realloc` that gives
  -- no block of 2 ^ 31 slots, `event_base_once` returns and leaves a valid base in which the other
  -- events stand as before. With -1 the event is idle. With 0 no signal was asked for, and the
  -- event is inserted unless only EV_TIMEOUT was, is not active, and is due as long after the time
  -- read as the timeout says; without a timeout an event for a descriptor waits forever, as event.h
  -- says of NULL, but a mere timer is due at the time read.
  pub base_once-Once :
      (b : Base B) (e : ℕ) (fd : Option ℕ) (events : What) (tv : Option Timeval)
      → IsModest env.realloc
      → IsValid b
      → b.activequeues ≢ []
      → view b e ≡ idle
      → Ensures (Once b e events tv) (base_once env b (some e) fd events tv)
  unfolding base_once once_with
  base_once-Once b e fd events tv modest v some_queue calm =
      Ensures-if events.signal (λ s. returns (unchanged b e events tv v calm))
        λ s.
          Ensures-if (is_timer events)
            (λ t. Ensures-map (once_set-Set b e none nothing _ modest v some_queue calm refl) λ r w.
              record {
                valid = w.valid;
                others = w.others;
                on_fail = w.on_fail;
                on_ok = λ p. (
                  s,
                  w.on_ok p
                      ∙ seen_cong (ap not (sym t)) refl (
                          due_timer (gettime env b).0 tv
                          ∙ ap (λ c. due_at c (gettime env b).0 tv) (sym t)),
                );
              })
            λ t.
              Ensures-if (events.readable || events.writable)
                (λ u.
                  Ensures-map
                    (once_set-Set b e fd (transfers events) tv modest v some_queue calm refl)
                    λ r w. record {
                      valid = w.valid;
                      others = w.others;
                      on_fail = w.on_fail;
                      on_ok = λ p. (
                        s,
                        w.on_ok p
                            ∙ seen_cong (ground arith) refl (
                                due_io (gettime env b).0 tv
                                ∙ ap (λ c. due_at c (gettime env b).0 tv) (sym t)),
                      );
                    })
                λ u. returns (unchanged b e events tv v calm)
