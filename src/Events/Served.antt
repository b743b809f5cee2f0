-- ===== src/Events/Served.antt =====
-- About one event in `event_process_active` of event.c: how it leaves its queue, and its calls.
use study_libevent.Prelude.{
  ℕ, zero, suc, ◌+◌, ◌-◌, ◌<◌, ◌≡◌, ◌≢◌, refl, sym, ap, ap₂, ◌∙◌, subst, List, [], ◌∷◌, ◌++◌,
  append-nil, append_assoc, Bool, Bool-cases, inl, inr, true, false, ◌==◌, ==_iff, if◌then◌else◌,
  get_or, set, replicate, assign, bit, occurrences, Ensures, Ensures-bind, Ensures-map, Ensures-if,
  returns, arith,
}
use study_libevent.Prelude.Occurs.{remove_first}
use study_libevent.Events.{Base, Env, What}
use study_libevent.Events.Loop.{run_ops, call_loop, taken}
use study_libevent.Events.Valid.{IsValid}
use study_libevent.Events.Frame.{Frame, framed}
use study_libevent.Events.Delete.{View, view, idle, view_cong, event_del-Left}
use study_libevent.Events.Count.{Steady, count-remove, count-Left}
use study_libevent.Events.Remove.{remove_active}
use study_libevent.Events.First.{one_more, none_of, on_false}

module _ {B : Type 0} where
  -- How an event stands after its callback is called.
  abbrev pub served : Base B → ℕ → View
  served b e = if (b.ev_events e).persist then record (view b e) { active = false } else idle

  pub one_more_served :
      (b b2 : Base B) (e x : ℕ) (es : List ℕ)
      → occurrences e es ≡ 0
      → b2.ev_events ≡ b.ev_events
      → view b2 x ≡ (if e == x then served b e else view b x)
      → (if occurrences x es == 0 then view b2 x else served b2 x)
        ≡ (if occurrences x (e ∷ es) == 0 then view b x else served b x)
  one_more_served b b2 e x es once events w = elim (Bool-cases (e == x)) [
    | inl t ↦
        let same : e ≡ x = (==_iff e x).0 t in
        let absent : (occurrences x es == 0) ≡ true =
          subst (λ k. (occurrences k es == 0) ≡ true) same (ground arith) in
        let present : (occurrences x (e ∷ es) == 0) ≡ false = ground arith in
        let now : view b2 x ≡ served b x =
          w ∙ ap (λ c. if c then served b e else view b x) t ∙ ap (served b) same in
        ap (λ c. if c then view b2 x else served b2 x) absent
        ∙ now
        ∙ ap (λ c. if c then view b x else served b x) (sym present)
    | inr t ↦
        let still : view b2 x ≡ view b x = w ∙ ap (λ c. if c then served b e else view b x) t in
        let alike : served b2 x ≡ served b x =
          ap₂
            (λ (what : What) (u : View). if what.persist then record u { active = false } else idle)
            (ap (λ f. f x) events) still in
        let absent : (occurrences x (e ∷ es) == 0) ≡ (occurrences x es == 0) =
          ap (λ c. (bit c + occurrences x es) == 0) t ∙ ap (λ n. n == 0) (omega arith) in
        ap₂ (λ l r. if occurrences x es == 0 then l else r) still alike
        ∙ ap (λ c. if c then view b x else served b x) (sym absent)
  ]

  -- An event has left its active queue.
  pub record Taken (b : Base B) (e : ℕ) (b' : Base B) : Type 0 where
    pub valid : IsValid b'
    pub frame : Frame b b'
    pub views : (x : ℕ) → view b' x ≡ (if e == x then served b e else view b x)
    pub queues :
        b'.activequeues
        ≡ set b.activequeues (b.ev_pri e) (remove_first e (get_or b.activequeues (b.ev_pri e) []))
    pub steady : Steady b 1 b'

  -- The calls of a callback that calls nothing of the library
  pub record Rung (b : Base B) (e : ℕ) (r : Bool × Base B) : Type 0 where
    pub goes_on : r.0 ≡ false
    pub same : r.1 ≡ record b {
      ncalls = r.1.ncalls;
      ev_ncalls = r.1.ev_ncalls;
      trace = b.trace ++ replicate b.ncalls (e, b.ev_res e);
    }
    pub others : (x : ℕ) → e ≢ x → r.1.ev_ncalls x ≡ b.ev_ncalls x

  module _ (env : Env B) where
    pub taken-Taken :
        (b : Base B) (e : ℕ)
        → IsValid b
        → b.is_active e ≡ true
        → Ensures (Taken b e) (taken env b e)
    unfolding taken
    taken-Taken b e v on =
        Ensures-if (b.ev_events e).persist
          (λ p. Ensures-map (remove_active b e v on) λ b' (v', same).
            subst (Taken b e) (sym same) (record {
              valid = subst IsValid same v';
              frame = framed;
              views = λ x. elim (Bool-cases (e == x)) [
                | inl t ↦ let eq = (==_iff e x).0 t in rw (t, p, eq) refl
                | inr t ↦ rw t refl
              ];
              queues = refl;
              steady = record {
                event_break = refl;
                event_gotterm = refl;
                use_monotonic = refl;
                count =
                    let fewer = count-remove b _ e v (subst IsValid same v') on refl in omega arith;
              };
            }))
          λ p. Ensures-bind (event_del-Left env b e v (v.based e (ground arith))) λ r w.
            returns (record {
              valid = w.valid;
              frame = w.frame;
              views = λ x. elim (Bool-cases (e == x)) [
                | inl t ↦
                    let off : r.1.on_timeout x ≡ false = ground (arith, w.timeouts x) in
                    let rest : r.1.is_active x ≡ false = ground (arith, w.actives x) in
                    let out : r.1.is_inserted x ≡ false = ground (arith, w.inserts x) in
                    rw (t, p, off, rest, out) refl
                | inr t ↦ rw t (
                    view_cong r.1 x (ground (arith, w.inserts x)) (ground (arith, w.actives x))
                      (ground (arith, w.timeouts x)) (ap (λ f. f x) w.frame.ev_timeout))
              ];
              queues = w.queues ∙ rw on refl;
              steady = record {
                event_break = w.frame.event_break;
                event_gotterm = w.frame.event_gotterm;
                use_monotonic = w.frame.use_monotonic;
                count = omega (arith, count-Left b r.1 e true true true v w, w.count, ap bit on);
              };
            })

    module _ (silent : (b : Base B) (e : ℕ) (what : What) → env.callback b e what ≡ []) where
      pub call_loop-Rung :
          (fuel e : ℕ) (b : Base B)
          → b.ncalls < fuel
          → b.event_break ≡ false
          → Ensures (Rung b e) (call_loop env fuel e b)
      unfolding call_loop run_ops
      call_loop-Rung zero e b g h = absurd (omega arith)
      call_loop-Rung (suc fuel) e b g h =
          Ensures-if (b.ncalls == 0)
            (λ t.
              let no_call = none_of b.ncalls (e, b.ev_res e) ((==_iff b.ncalls 0).0 t) in
              returns (record {
                goes_on = refl;
                same =
                    ap (λ l. record b { trace = l })
                      (sym (append-nil b.trace) ∙ ap (λ l. b.trace ++ l) (sym no_call));
                others = λ x p. refl;
              }))
            λ t.
              let n = b.ncalls - 1 in
              let what = b.ev_res e in
              let b1 = record b {
                ncalls = n;
                ev_ncalls = assign b.ev_ncalls e n;
                trace = b.trace ++ (e, what) ∷ [];
              } in
              let longer : b1.trace ++ replicate n (e, what)
                  ≡ b.trace ++ replicate b.ncalls (e, what) =
                append_assoc b.trace ((e, what) ∷ []) (replicate n (e, what))
                ∙ ap (λ l. b.trace ++ l) (sym (one_more b.ncalls (e, what) (ground arith))) in
              rw (silent b1 e what) (
                on_false _ _ b.event_break h (
                  Ensures-map (call_loop-Rung fuel e b1 (ground arith) h) λ r w. record {
                    goes_on = w.goes_on;
                    same =
                        w.same
                        ∙ ap
                            (λ l. record b {
                              ncalls = r.1.ncalls;
                              ev_ncalls = r.1.ev_ncalls;
                              trace = l;
                            })
                            longer;
                    others = λ x p.
                        w.others x p ∙ (let q : (e == x) ≡ false = ground arith in rw q refl);
                  }))
