-- ===== src/Http/Write/Scheduled.antt =====
-- About `evhttp_write_buffer` of http.c on the event loop.
use study_libevent.Prelude.{
  ℕ, zero, suc, ◌≡◌, ◌≢◌, ◌⊎◌, inl, inr, refl, ap, ◌∙◌, [], length, true, false, ◌==◌, ==_iff,
  if◌then◌else◌, Option, none, some, Bool-cases, done, ◌>>=◌, Status, ok, fail, Ensures,
  Ensures-bind, Ensures-if, Ensures-and, returns, arith,
}
use study_libevent.MinHeap.{Timeval}
use study_libevent.Events.{Base, Env}
use study_libevent.Events.Calls.{pending, event_del}
use study_libevent.Events.Valid.{IsValid}
use study_libevent.Events.Delete.{view, idle, event_del-idle, event_del-Left}
use study_libevent.Events.Setup.{event_set-IsValid}
use study_libevent.Events.Reserve.{IsModest}
use study_libevent.Events.Add.{Added, event_add-Added}
use study_libevent.Events.Once.Settled.{settled-IsValid, settled_lem, base_set-event_set}
use study_libevent.Http.Write.{
  Connection, event_timeout, write_only, http_write_timeout, is_writing, add_event, set_writing,
  write_event,
}

event_timeout-some :
    (timeout : Option ℕ) (default : ℕ)
    → timeout ≢ some 0
    → (tv : Timeval) × (event_timeout timeout default ≡ some tv)
unfolding event_timeout
event_timeout-some none default h = (_, refl)
event_timeout-some (some zero) default h = absurd (h refl)
event_timeout-some (some (suc n)) default h = (_, refl)

module _ {B : Type 0} where
  -- The connection's event belongs to a valid base, is idle or has a timeout, and new timeouts are
  -- not switched off.
  pub record IsReady (evcon : Connection B) : Type 0 where
    pub valid : IsValid evcon.base
    pub mine : evcon.base.ev_base evcon.ev ≡ true
    pub external : evcon.base.is_internal evcon.ev ≡ false
    pub stands : (view evcon.base evcon.ev ≡ idle) ⊎ (evcon.base.on_timeout evcon.ev ≡ true)
    pub timed : evcon.timeout ≢ some 0

  -- The connection's event is idle.
  record IsIdle (evcon : Connection B) : Type 0 where
    pub valid : IsValid evcon.base
    pub mine : evcon.base.ev_base evcon.ev ≡ true
    pub calm : view evcon.base evcon.ev ≡ idle
    pub timed : evcon.timeout ≢ some 0

  some_queue : (evcon : Connection B) → IsIdle evcon → evcon.base.activequeues ≢ []
  some_queue evcon i e = omega (arith, i.valid.priority evcon.ev i.mine, ap length e)

  timed_is_writing :
      (evcon : Connection B) → evcon.base.on_timeout evcon.ev ≡ true → is_writing evcon ≡ true
  unfolding is_writing pending
  timed_is_writing evcon h = rw h refl

  set_writing-IsIdle :
      (evcon : Connection B)
      → IsIdle evcon
      → let c = set_writing evcon in
        IsIdle c × (c.base.is_internal c.ev ≡ false) × ((c.base.ev_events c.ev).signal ≡ false)
  unfolding set_writing
  set_writing-IsIdle evcon i =
      let (v, mine, same) =
        event_set-IsValid evcon.base evcon.ev evcon.fd write_only i.valid (some_queue evcon i)
          i.calm in
      let set = settled_lem evcon.base evcon.ev evcon.fd write_only in
      elim (Bool-cases evcon.has_base) [
        | inl e ↦
            rw (e, base_set-event_set evcon.base evcon.ev evcon.fd write_only)
              (
                record {
                  valid =
                      settled-IsValid evcon.base evcon.ev evcon.fd write_only i.valid
                        (some_queue evcon i) i.calm;
                  mine = set.4;
                  calm = same evcon.ev ∙ i.calm;
                  timed = i.timed;
                },
                set.0,
                ap (λ w. w.signal) set.3,
              )
        | inr e ↦ rw e (
          record { valid = v; mine = mine; calm = same evcon.ev ∙ i.calm; timed = i.timed },
          set.0,
          ap (λ w. w.signal) set.3,
        )
      ]

  module _ (env : Env B) (modest : IsModest env.realloc) where
    event_add-IsReady :
        (evcon : Connection B) (tv : Timeval)
        → IsIdle evcon
        → evcon.base.is_internal evcon.ev ≡ false
        → (r : Status × Base B) → Added env evcon.base evcon.ev (some tv) r
        → IsReady (record evcon { base = r.1 })
    event_add-IsReady evcon tv i out (ok, b) a = record {
      valid = a.valid;
      mine = ap (λ f. f evcon.ev) a.ev_base ∙ i.mine;
      external = ap (λ f. f evcon.ev) a.is_internal ∙ out;
      stands = inr (on_timer b (ap (λ u. u.timer) (a.on_ok refl)));
      timed = i.timed;
    }
      where
        on_timer :
            (b : Base B) {t : Timeval}
            → (view b evcon.ev).timer ≡ some t
            → b.on_timeout evcon.ev ≡ true
        on_timer b h = ground arith
    event_add-IsReady evcon tv i out (fail, b) a = record {
      valid = a.valid;
      mine = ap (λ f. f evcon.ev) a.ev_base ∙ i.mine;
      external = ap (λ f. f evcon.ev) a.is_internal ∙ out;
      stands = inl ((a.on_fail refl).0 evcon.ev ∙ i.calm);
      timed = i.timed;
    }

    add_event-IsReady :
        (evcon : Connection B) (default : ℕ)
        → IsIdle evcon
        → evcon.base.is_internal evcon.ev ≡ false
        → (evcon.base.ev_events evcon.ev).signal ≡ false
        → Ensures IsReady (add_event env evcon default)
    unfolding add_event
    add_event-IsReady evcon default i out plain =
        let (tv, same) = event_timeout-some evcon.timeout default i.timed in
        rw same (
          Ensures-bind
            (event_add-Added env evcon.base evcon.ev (some tv) modest i.valid i.mine
              (λ p. absurd cc) plain)
            λ r a. returns (event_add-IsReady evcon tv i out r a))

    -- The event is deleted where it may be pending.
    cleared :
        (evcon : Connection B)
        → IsReady evcon
        → Ensures IsIdle (
            if is_writing evcon
            then (event_del env evcon.base evcon.ev >>= λ r. done (record evcon { base = r.1 }))
            else done evcon)
    cleared evcon r =
        Ensures-if (is_writing evcon)
          (λ _.
            Ensures-bind
              (Ensures-and (event_del-idle env evcon.base evcon.ev r.valid r.mine)
                (event_del-Left env evcon.base evcon.ev r.valid r.mine))
              λ s ((v, stands), left). returns (record {
                valid = v;
                mine = ap (λ f. f evcon.ev) left.frame.ev_base ∙ r.mine;
                calm =
                    let self : (evcon.ev == evcon.ev) ≡ true = (==_iff evcon.ev evcon.ev).1 refl in
                    rw self at (stands evcon.ev);
                timed = r.timed;
              }))
          λ waits. returns (record {
            valid = r.valid;
            mine = r.mine;
            calm = other waits r.stands;
            timed = r.timed;
          })
      where
        other :
            is_writing evcon ≡ false
            → (view evcon.base evcon.ev ≡ idle) ⊎ (evcon.base.on_timeout evcon.ev ≡ true)
            → view evcon.base evcon.ev ≡ idle
        other waits (inl calm) = calm
        other waits (inr on) = absurd (cc (timed_is_writing evcon on))

    pub write_event-IsReady :
        (evcon : Connection B) → IsReady evcon → Ensures IsReady (write_event env evcon)
    unfolding write_event
    write_event-IsReady evcon r = Ensures-bind (cleared evcon r) λ c i.
        let (set, out, plain) = set_writing-IsIdle c i in
        add_event-IsReady (set_writing c) http_write_timeout set out plain
