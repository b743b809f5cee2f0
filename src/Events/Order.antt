-- ===== src/Events/Order.antt =====
-- About the order in which `event_process_active` of event.c calls the callbacks.
use study_libevent.Prelude.{
  ℕ, zero, suc, ◌+◌, ◌<◌, ◌≡◌, ◌≢◌, refl, sym, ap, ap₂, ◌∙◌, subst, List, [], ◌∷◌, ◌++◌, append-nil,
  append_assoc, Bool, Bool-cases, Option-cases, inl, inr, true, false, ◌&&◌, ◌==◌, ==_iff,
  if◌then◌else◌, length, get_or, get_or-set, set, replicate, assign, bit, occurrences, Ensures,
  Ensures-bind, Ensures-map, returns, arith,
}
use study_libevent.Prelude.Occurs.{remove_first}
use study_libevent.Events.{Base, Env, What}
use study_libevent.Events.Loop.{first_active, called, run_queue, process_active}
use study_libevent.Events.Valid.{IsValid, quiet}
use study_libevent.Events.Delete.{view}
use study_libevent.Events.Count.{Steady, Steady-refl, Steady-trans}
use study_libevent.Events.First.{
  calls_of, calls_of_cong, head_removed, other_queue, IsFirst, first_active-IsFirst, length-get_or,
  on_false, head_active, first_active_exists,
}
use study_libevent.Events.Served.{served, one_more_served, Taken, taken-Taken, Rung, call_loop-Rung}

suc_as : (n : ℕ) → 1 + n ≡ suc n
suc_as n = omega arith

module _ {B : Type 0} (env : Env B)
    (silent : (b : Base B) (e : ℕ) (what : What) → env.callback b e what ≡ []) where
  -- What a run of the queue `i` leaves, where that held `es`
  pub record Emptied (i : ℕ) (es : List ℕ) (b b' : Base B) : Type 0 where
    pub valid : IsValid b'
    pub trace : b'.trace ≡ b.trace ++ calls_of b.ev_ncalls b.ev_res es
    pub queues :
        (k : ℕ) → get_or b'.activequeues k [] ≡ (if i == k then [] else get_or b.activequeues k [])
    pub views : (x : ℕ) → view b' x ≡ (if occurrences x es == 0 then view b x else served b x)
    pub steady : Steady b (length es) b'

  -- The base once the head of the queue `i` is taken and called
  record Called (b : Base B) (i e : ℕ) (es : List ℕ) (b' : Base B) : Type 0 where
    pub valid : IsValid b'
    pub steady : Steady b 1 b'
    pub trace : b'.trace ≡ b.trace ++ replicate (b.ev_ncalls e) (e, b.ev_res e)
    pub others : (x : ℕ) → e ≢ x → b'.ev_ncalls x ≡ b.ev_ncalls x
    pub res : b'.ev_res ≡ b.ev_res
    pub events : b'.ev_events ≡ b.ev_events
    pub views : (x : ℕ) → view b' x ≡ (if e == x then served b e else view b x)
    pub queues : b'.activequeues ≡ set b.activequeues i es
    pub next : get_or b'.activequeues i [] ≡ es

  step-Called :
      (b b1 : Base B) (i e : ℕ) (es : List ℕ) (r : Bool × Base B)
      → IsValid b
      → get_or b.activequeues i [] ≡ e ∷ es
      → b.is_active e ≡ true
      → Taken b e b1
      → Rung (record b1 { ncalls = b1.ev_ncalls e; ev_pncalls = assign b1.ev_pncalls e true }) e r
      → Called b i e es r.1
  step-Called b b1 i e es r v p on w u =
      let self : (e == e) ≡ true = (==_iff e e).1 refl in
      let place : b.ev_pri e ≡ i = ground (arith, v.active e i, ap (occurrences e) p) in
      let inside : i < length b.activequeues =
        omega (arith, v.priority e (v.based e (ground arith))) in
      let shorter : remove_first e (e ∷ es) ≡ es = head_removed e es in
      let queues : b1.activequeues ≡ set b.activequeues i es =
        w.queues ∙ rw (place, p, shorter) refl in
      subst (Called b i e es) (sym u.same) (record {
        valid = quiet w.valid;
        steady = record {
          event_break = w.steady.event_break;
          event_gotterm = w.steady.event_gotterm;
          use_monotonic = w.steady.use_monotonic;
          count = w.steady.count;
        };
        trace = rw (w.frame.trace, w.frame.ev_ncalls, w.frame.ev_res) refl;
        others = λ x q. u.others x q ∙ ap (λ f. f x) w.frame.ev_ncalls;
        res = w.frame.ev_res;
        events = w.frame.ev_events;
        views = w.views;
        queues = queues;
        next =
            ap (λ q. get_or q i []) queues
            ∙ get_or-set b.activequeues i i es [] inside
            ∙ ground arith;
      })

  emptied :
      (b b2 b' : Base B) (i e : ℕ) (es : List ℕ)
      → IsValid b
      → get_or b.activequeues i [] ≡ e ∷ es
      → b.is_active e ≡ true
      → Called b i e es b2
      → Emptied i es b2 b'
      → Emptied i (e ∷ es) b b'
  emptied b b2 b' i e es v p on c z =
      let here : occurrences e (e ∷ es) ≡ bit (b.is_active e && (i == b.ev_pri e)) =
        ap (occurrences e) (sym p) ∙ v.active e i in
      let once : occurrences e es ≡ 0 = ground arith in
      let place : b.ev_pri e ≡ i = ground arith in
      let inside : i < length b.activequeues =
        omega (arith, v.priority e (v.based e (ground arith))) in
      let apart : (x : ℕ) → occurrences x es ≢ 0 → e ≢ x =
        λ x q t. q (subst (λ y. occurrences y es ≡ 0) t once) in
      let calls : calls_of b2.ev_ncalls b2.ev_res es ≡ calls_of b.ev_ncalls b.ev_res es =
        calls_of_cong b2.ev_ncalls b.ev_ncalls b2.ev_res es (λ x q. c.others x (apart x q))
        ∙ ap (λ f. calls_of b.ev_ncalls f es) c.res in
      let now = replicate (b.ev_ncalls e) (e, b.ev_res e) in
      record {
        valid = z.valid;
        trace =
            z.trace
            ∙ ap₂ (λ l m. l ++ m) c.trace calls
            ∙ append_assoc b.trace now (calls_of b.ev_ncalls b.ev_res es);
        queues = λ k.
            z.queues k
            ∙ ap (λ q. if i == k then [] else get_or q k []) c.queues
            ∙ other_queue b.activequeues i k es inside;
        views = λ x. z.views x ∙ one_more_served b b2 e x es once c.events (c.views x);
        steady =
            subst (λ k. Steady b k b') (suc_as (length es))
              (Steady-trans b b2 b' 1 (length es) c.steady z.steady);
      }

  run_queue-Emptied :
      (fuel i : ℕ) (es : List ℕ) (b : Base B)
      → length es < fuel
      → IsValid b
      → b.event_break ≡ false
      → get_or b.activequeues i [] ≡ es
      → Ensures (Emptied i es b) (run_queue env fuel i b)
  unfolding run_queue called
  run_queue-Emptied zero i es b g v h p = absurd (omega arith)
  run_queue-Emptied (suc fuel) i [] b g v h p =
      rw (p, run_queue)
        (returns (record {
          valid = v;
          trace = sym (append-nil b.trace);
          queues = λ k. elim (Bool-cases (i == k)) [
            | inl t ↦ rw t (subst (λ j. get_or b.activequeues j [] ≡ []) ((==_iff i k).0 t) p)
            | inr t ↦ rw t refl
          ];
          views = λ x. refl;
          steady = Steady-refl b;
        }))
  run_queue-Emptied (suc fuel) i (e ∷ es) b g v h p =
      let on = head_active b i e es v p in
      rw (p, run_queue)
        (Ensures-bind {P = λ r. (r.0 ≡ false) × Called b i e es r.1}
          (Ensures-bind (taken-Taken env b e v on) λ b1 w.
            Ensures-map
              (call_loop-Rung env silent _ e
                (record b1 { ncalls = b1.ev_ncalls e; ev_pncalls = assign b1.ev_pncalls e true })
                (omega arith) (w.frame.event_break ∙ h))
              λ r u. (u.goes_on, step-Called b b1 i e es r v p on w u))
          λ r (stays, c). on_false _ _ r.0 stays (
            Ensures-map
              (run_queue-Emptied fuel i es r.1 (omega arith) c.valid (c.steady.event_break ∙ h)
                c.next)
              λ b' z. emptied b r.1 b' i e es v p on c z))

  -- `is_processing`, set in between, is nothing that the outcome speaks of.
  returned :
      (b b' : Base B) (i : ℕ) (es : List ℕ)
      → Emptied i es (record b { is_processing = true }) b'
      → Emptied i es b (record b' { is_processing = false })
  returned b b' i es z = record {
    valid = quiet z.valid;
    trace = z.trace;
    queues = z.queues;
    views = z.views;
    steady = record {
      event_break = z.steady.event_break;
      event_gotterm = z.steady.event_gotterm;
      use_monotonic = z.steady.use_monotonic;
      count = z.steady.count;
    };
  }

  -- For a valid base that is not to break, with an active event, callbacks that call nothing of
  -- the library, and fuel above the number of active events, `event_process_active` ends. With the
  -- queue `i` that is the first not empty, it calls the callbacks of that queue's events in the
  -- queue's order, each as often as its `ev_ncalls` says and with its result; it leaves a valid
  -- base in which that queue is empty and the others are unchanged, the queue's persistent events
  -- are no longer active, its other events are on no queue and have no timeout, and all others
  -- stand as before; active events and timeouts are together fewer by at least the queue's length,
  -- and the requests to end the loop are as before.
  pub process_active-Emptied :
      (fuel : ℕ) (b : Base B)
      → IsValid b
      → b.event_break ≡ false
      → b.event_count_active ≢ 0
      → b.event_count_active < fuel
      → (i : ℕ) × IsFirst b.activequeues i
        × Ensures (Emptied i (get_or b.activequeues i []) b) (process_active env fuel b)
  unfolding process_active
  process_active-Emptied fuel b v h some_active enough =
      elim (Option-cases (first_active b.activequeues)) [
        | inl n ↦
            absurd (first_active_exists b.activequeues (λ z. some_active (sym v.actives ∙ z)) n)
        | inr (i, n) ↦
            let short = length-get_or b.activequeues i in
            (
              i,
              first_active-IsFirst b.activequeues i n,
              rw (n, process_active)
                  (Ensures-bind
                    (run_queue-Emptied fuel i (get_or b.activequeues i [])
                      (record b { is_processing = true }) (omega (arith, v.actives)) (quiet v) h
                      refl)
                    λ b' z. returns (returned b b' i (get_or b.activequeues i []) z)),
            )
      ]
