-- ===== src/Events/Delete.antt =====
-- About `event_del` of event.c.
use study_libevent.Prelude.{
  ℕ, ◌+◌, ◌≡◌, refl, sym, ap, ◌∙◌, subst, [], Bool, Bool-cases, inl, inr, true, false, ◌&&◌, not,
  ◌==◌, if◌then◌else◌, get_or, set, bit, Ensures, Ensures-bind, Ensures-map, returns, arith, Option,
  none, some,
}
use study_libevent.Prelude.Occurs.{remove_first}
use study_libevent.MinHeap.{Timeval}
use study_libevent.Events.{Base, Env, evlist_active, evlist_timeout}
use study_libevent.Events.Calls.{abort_calls, leave, uninserted, event_del}
use study_libevent.Events.Valid.{IsValid, quiet}
use study_libevent.Events.Frame.{Single, Frame, framed, Frame-trans}
use study_libevent.Events.Remove.{remove_inserted, remove_active, remove_timeout}

-- How an event stands in the base: in the lists, and until when it waits.
pub record View : Type 0 where
  pub inserted : Bool
  pub active : Bool
  pub timer : Option Timeval

abbrev pub idle : View
idle = record { inserted = false; active = false; timer = none }

module _ {B : Type 0} where
  abbrev pub view : Base B → ℕ → View
  view b e = record {
    inserted = b.is_inserted e;
    active = b.is_active e;
    timer = if b.on_timeout e then some (b.ev_timeout e) else none;
  }

  pub view_cong :
      (b : Base B) (e : ℕ) {inserted active timed : Bool} {due : Timeval}
      → b.is_inserted e ≡ inserted
      → b.is_active e ≡ active
      → b.on_timeout e ≡ timed
      → b.ev_timeout e ≡ due
      → view b e
        ≡ record { inserted = inserted; active = active; timer = if timed then some due else none }
  view_cong b e p q r s = rw (p, q, r, s) refl

  -- One queue is left; `t`, `a` and `i` say by which of the flags.
  pub record Left (b : Base B) (e : ℕ) (t a i : Bool) (b' : Base B) : Type 0 where
    pub valid : IsValid b'
    pub frame : Frame b b'
    pub timeouts : (x : ℕ) → b'.on_timeout x ≡ (b.on_timeout x && not (t && (e == x)))
    pub actives : (x : ℕ) → b'.is_active x ≡ (b.is_active x && not (a && (e == x)))
    pub inserts : (x : ℕ) → b'.is_inserted x ≡ (b.is_inserted x && not (i && (e == x)))
    pub count : b'.timeheap.n + bit (t && b.on_timeout e) ≡ b.timeheap.n
    pub block : b'.timeheap.a ≡ b.timeheap.a
    pub queues : b'.activequeues ≡ (
        if a && b.is_active e
        then set b.activequeues
            (b.ev_pri e)
            (remove_first e (get_or b.activequeues (b.ev_pri e) []))
        else b.activequeues)

  -- An event that is not on a queue has nothing to leave.
  pub Left-refl :
      (b : Base B) (e : ℕ) (t a i : Bool)
      → IsValid b
      → (t && b.on_timeout e) ≡ false
      → (a && b.is_active e) ≡ false
      → (i && b.is_inserted e) ≡ false
      → Left b e t a i b
  Left-refl b e t a i v p q r = record {
    valid = v;
    frame = framed;
    timeouts = λ x. ground arith;
    actives = λ x. ground arith;
    inserts = λ x. ground arith;
    count = ground arith;
    block = refl;
    queues = rw q refl;
  }

  pub leave_timeout :
      (b : Base B) (e : ℕ)
      → IsValid b
      → Ensures (Left b e true false false) (leave b e evlist_timeout)
  unfolding leave
  leave_timeout b e v = elim (Bool-cases (b.on_timeout e)) [
    | inl t ↦ rw t (
        Ensures-map (remove_timeout b e v t) λ b' (v', h, same, n, a, pos).
          subst (Left b e true false false) (sym same) (record {
            valid = subst IsValid same v';
            frame = framed;
            timeouts = λ x. ground arith;
            actives = λ x. ground arith;
            inserts = λ x. ground arith;
            count = ground arith;
            block = a;
            queues = refl;
          }))
    | inr t ↦ rw t (returns (Left-refl b e true false false v t refl refl))
  ]

  pub leave_active :
      (b : Base B) (e : ℕ)
      → IsValid b
      → Ensures (Left b e false true false) (leave b e evlist_active)
  unfolding leave
  leave_active b e v = elim (Bool-cases (b.is_active e)) [
    | inl t ↦ rw t (
        Ensures-map (remove_active b e v t) λ b' (v', same).
          subst (Left b e false true false) (sym same) (record {
            valid = subst IsValid same v';
            frame = framed;
            timeouts = λ x. ground arith;
            actives = λ x. ground arith;
            inserts = λ x. ground arith;
            count = omega arith;
            block = refl;
            queues = rw t refl;
          }))
    | inr t ↦ rw t (returns (Left-refl b e false true false v refl t refl))
  ]

  module _ (env : Env B) where
    uninserted-Left :
        (b : Base B) (e : ℕ)
        → IsValid b
        → Ensures (λ r. Left b e false false true r.1) (uninserted env e b)
    unfolding uninserted
    uninserted-Left b e v = elim (Bool-cases (b.is_inserted e)) [
      | inl t ↦ rw t (
          Ensures-bind (remove_inserted b e v t) λ b' (v', same). returns (
            subst
              (λ z.
                Left b e false false true
                  (record z { evbase = (env.sel_del z.evbase e (z.ev_fd e) (z.ev_events e)).1 }))
              (sym same)
              (record {
                valid = quiet (subst IsValid same v');
                frame = framed;
                timeouts = λ x. ground arith;
                actives = λ x. ground arith;
                inserts = λ x. ground arith;
                count = omega arith;
                block = refl;
                queues = refl;
              })))
      | inr t ↦ rw t (returns (Left-refl b e false false true v refl refl t))
    ]

    unset :
        (b : Base B) (e : ℕ) → Single b e → (not (b.ev_ncalls e == 0) && b.ev_pncalls e) ≡ true → ⊥
    unset b e (inl h) t = ground arith
    unset b e (inr (h, g)) t = ground (arith, g)

    pub abort_calls-Left :
        (b : Base B) (e : ℕ) → IsValid b → Left b e false false false (abort_calls b e)
    unfolding abort_calls
    abort_calls-Left b e v = elim (Bool-cases (not (b.ev_ncalls e == 0) && b.ev_pncalls e)) [
      | inl t ↦ elim (Bool-cases b.is_processing) [
        | inl p ↦
            rw (t, p)
              (record {
                valid = quiet v;
                frame = record {
                  event_gotterm = refl;
                  event_break = refl;
                  tv_cache = refl;
                  use_monotonic = refl;
                  reads = refl;
                  trace = refl;
                  ev_base = refl;
                  ev_events = refl;
                  ev_res = refl;
                  ev_ncalls = refl;
                  ev_timeout = refl;
                  tidy = λ d. absurd (unset b e (d.2 e) t);
                  ev_pri = refl;
                  is_internal = refl;
                };
                timeouts = λ x. ground arith;
                actives = λ x. ground arith;
                inserts = λ x. ground arith;
                count = omega arith;
                block = refl;
                queues = refl;
              })
        | inr p ↦
            rw (t, p)
              (record {
                valid = quiet v;
                frame = record {
                  event_gotterm = refl;
                  event_break = refl;
                  tv_cache = refl;
                  use_monotonic = refl;
                  reads = refl;
                  trace = refl;
                  ev_base = refl;
                  ev_events = refl;
                  ev_res = refl;
                  ev_ncalls = refl;
                  ev_timeout = refl;
                  tidy = λ d. absurd (unset b e (d.2 e) t);
                  ev_pri = refl;
                  is_internal = refl;
                };
                timeouts = λ x. ground arith;
                actives = λ x. ground arith;
                inserts = λ x. ground arith;
                count = omega arith;
                block = refl;
                queues = refl;
              })
      ]
      | inr t ↦ rw t (Left-refl b e false false false v refl refl refl)
    ]

    pub event_del-Left :
        (b : Base B) (e : ℕ)
        → IsValid b
        → b.ev_base e ≡ true
        → Ensures (λ r. Left b e true true true r.1) (event_del env b e)
    unfolding event_del
    event_del-Left b e v m = rw m (
        let w0 = abort_calls-Left b e v in
        Ensures-bind (leave_timeout (abort_calls b e) e w0.valid) λ b1 w1.
          Ensures-bind (leave_active b1 e w1.valid) λ b2 w2.
            Ensures-map (uninserted-Left b2 e w2.valid) λ r w3.
              let f1 = Frame-trans b (abort_calls b e) b1 w0.frame w1.frame in
              let on : b1.is_active e ≡ b.is_active e =
                ground (arith, w0.actives e, w1.actives e) in
              let same : b1.activequeues ≡ b.activequeues = w1.queues ∙ w0.queues in
              let pri : b1.ev_pri e ≡ b.ev_pri e = ap (λ f. f e) f1.ev_pri in
              record {
                valid = w3.valid;
                frame = Frame-trans b b2 r.1 (Frame-trans b b1 b2 f1 w2.frame) w3.frame;
                timeouts =
                    λ x. ground (arith, w0.timeouts x, w1.timeouts x, w2.timeouts x, w3.timeouts x);
                actives =
                    λ x. ground (arith, w0.actives x, w1.actives x, w2.actives x, w3.actives x);
                inserts =
                    λ x. ground (arith, w0.inserts x, w1.inserts x, w2.inserts x, w3.inserts x);
                count = ground (arith, w0.count, w1.count, w2.count, w3.count, w0.timeouts e);
                block = w3.block ∙ w2.block ∙ w1.block ∙ w0.block;
                queues = w3.queues ∙ w2.queues ∙ rw (on, same, pri) refl;
              })

    -- For a valid base and an event of it, `event_del` returns (no test of a queue fails) and
    -- leaves a valid base, in which the event is on no queue and has no timeout, and every other
    -- event stands as before.
    pub event_del-idle :
        (b : Base B) (e : ℕ)
        → IsValid b
        → b.ev_base e ≡ true
        → Ensures
            (λ r. IsValid r.1 × ((x : ℕ) → view r.1 x ≡ (if e == x then idle else view b x)))
            (event_del env b e)
    event_del-idle b e v m =
        Ensures-map (event_del-Left b e v m) λ r w. (w.valid, λ x. viewed b e r.1 w x)
      where
        viewed :
            (b : Base B) (e : ℕ) (b' : Base B)
            → Left b e true true true b'
            → (x : ℕ) → view b' x ≡ (if e == x then idle else view b x)
        viewed b e b' w x = elim (Bool-cases (e == x)) [
          | inl t ↦
              let off : b'.on_timeout x ≡ false = ground (arith, w.timeouts x) in
              let rest : b'.is_active x ≡ false = ground (arith, w.actives x) in
              let out : b'.is_inserted x ≡ false = ground (arith, w.inserts x) in
              rw (t, off, rest, out) refl
          | inr t ↦
              let off : b'.on_timeout x ≡ b.on_timeout x = ground (arith, w.timeouts x) in
              let rest : b'.is_active x ≡ b.is_active x = ground (arith, w.actives x) in
              let out : b'.is_inserted x ≡ b.is_inserted x = ground (arith, w.inserts x) in
              rw (t, off, rest, out, w.frame.ev_timeout) refl
        ]
