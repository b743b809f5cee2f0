-- ===== src/Events/Count.antt =====
-- The number of active events of event.c, where an event leaves its queues or becomes active.
use study_libevent.Prelude.{
  ℕ, ◌+◌, ◌≤◌, ◌≡◌, refl, sym, ap, ◌∙◌, List, [], ◌∷◌, ◌++◌, Bool, Bool-cases, inl, inr, true,
  false, ◌&&◌, ◌==◌, ==_iff, length, length-append, get_or, set, bit, occurrences, sum_of,
  sum_of-set, length-remove_first, arith,
}
use study_libevent.Prelude.Occurs.{remove_first}
use study_libevent.Events.{Base, What}
use study_libevent.Events.Valid.{IsValid}
use study_libevent.Events.Delete.{Left}
use study_libevent.Events.Activate.{Fired}

module _ {B : Type 0} where
  -- The loop goes on, and `fewer` events less are active or timed.
  pub record Steady (b : Base B) (fewer : ℕ) (b' : Base B) : Type 0 where
    pub event_break : b'.event_break ≡ b.event_break
    pub event_gotterm : b'.event_gotterm ≡ b.event_gotterm
    pub use_monotonic : b'.use_monotonic ≡ b.use_monotonic
    pub count : b'.event_count_active + b'.timeheap.n + fewer ≤ b.event_count_active + b.timeheap.n

  pub Steady-refl : (b : Base B) → Steady b 0 b
  Steady-refl b = record {
    event_break = refl;
    event_gotterm = refl;
    use_monotonic = refl;
    count = omega arith;
  }

  pub Steady-trans : (a b c : Base B) (m n : ℕ) → Steady a m b → Steady b n c → Steady a (m + n) c
  Steady-trans a b c m n p q = record {
    event_break = q.event_break ∙ p.event_break;
    event_gotterm = q.event_gotterm ∙ p.event_gotterm;
    use_monotonic = q.use_monotonic ∙ p.use_monotonic;
    count = omega (arith, p.count, q.count);
  }

  -- The number of active events, by the queues
  count_by :
      (b b' : Base B) (queues : List (List ℕ))
      → IsValid b'
      → b'.activequeues ≡ queues
      → b'.event_count_active ≡ sum_of length queues
  count_by b b' queues v p = sym v.actives ∙ ap (sum_of length) p

  -- One event less is active where an active one leaves its queue.
  pub count-remove :
      (b b' : Base B) (e : ℕ)
      → IsValid b
      → IsValid b'
      → b.is_active e ≡ true
      → b'.activequeues
        ≡ set b.activequeues (b.ev_pri e) (remove_first e (get_or b.activequeues (b.ev_pri e) []))
      → b'.event_count_active + 1 ≡ b.event_count_active
  count-remove b b' e v v' on p =
      let queue = get_or b.activequeues (b.ev_pri e) [] in
      let inside = v.priority e (v.based e (ground arith)) in
      let once : 1 ≤ occurrences e queue = ground (arith, v.active e (b.ev_pri e)) in
      omega (
        arith,
        count_by b b' _ v' p,
        v.actives,
        sum_of-set length b.activequeues (b.ev_pri e) (remove_first e queue) inside,
        length-remove_first e queue once,
      )

  pub count-Left :
      (b b' : Base B) (e : ℕ) (t a i : Bool)
      → IsValid b
      → Left b e t a i b'
      → b'.event_count_active + bit (a && b.is_active e) ≡ b.event_count_active
  count-Left b b' e t a i v w = elim (Bool-cases (a && b.is_active e)) [
    | inl p ↦
        let on : b.is_active e ≡ true = ground arith in
        ap (λ c. b'.event_count_active + bit c) p
        ∙ count-remove b b' e v w.valid on (w.queues ∙ rw p refl)
    | inr p ↦
        omega
          (arith, count_by b b' b.activequeues w.valid (w.queues ∙ rw p refl), v.actives, ap bit p)
  ]

  count-Fired :
      (b b' : Base B) (e : ℕ) (what : What) (calls : ℕ)
      → IsValid b
      → b.ev_base e ≡ true
      → b.is_active e ≡ false
      → Fired b e what calls b'
      → b'.event_count_active ≡ b.event_count_active + 1
  count-Fired b b' e what calls v m off w =
      let queue = get_or b.activequeues (b.ev_pri e) [] in
      omega (
        arith,
        count_by b b' (set b.activequeues (b.ev_pri e) (queue ++ e ∷ [])) w.valid
            (w.queues ∙ rw off refl),
        v.actives,
        sum_of-set length b.activequeues (b.ev_pri e) (queue ++ e ∷ []) (v.priority e m),
        length-append queue (e ∷ []),
      )

  -- An event that is deleted and then made active stays one of them.
  pub refired-Steady :
      (b b1 b2 : Base B) (e : ℕ) (what : What) (calls : ℕ)
      → IsValid b
      → b.on_timeout e ≡ true
      → Left b e true true true b1
      → Fired b1 e what calls b2
      → Steady b 0 b2
  refired-Steady b b1 b2 e what calls v on w f =
      let self : (e == e) ≡ true = (==_iff e e).1 refl in
      let off : b1.is_active e ≡ false = ground (arith, w.actives e) in
      let m : b1.ev_base e ≡ true = ap (λ g. g e) w.frame.ev_base ∙ v.based e (ground arith) in
      let one_more = count-Fired b1 b2 e what calls w.valid m off f in
      record {
        event_break = f.event_break ∙ w.frame.event_break;
        event_gotterm = f.event_gotterm ∙ w.frame.event_gotterm;
        use_monotonic = f.use_monotonic ∙ w.frame.use_monotonic;
        count = omega (
          arith,
          one_more,
          count-Left b b1 e true true true v w,
          w.count,
          ap bit on,
          ap (λ h. h.n) f.timeheap,
        );
      }
