-- ===== src/Events/Free/Shrunk.antt =====
-- About the loops of `event_base_free` of event.c, which delete events.
use study_libevent.Prelude.{
  ℕ, zero, suc, ◌+◌, ◌≤◌, ◌<◌, ◌≡◌, ◌≢◌, ◌⊎◌, refl, ap, ◌∙◌, subst, List, [], ◌∷◌, Bool, Bool-cases,
  Option-cases, inl, inr, true, false, ◌==◌, ==_iff, get_or, bit, occurrences, Ensures,
  Ensures-bind, Ensures-map, Ensures-if, Ensures-and, returns, arith,
}
use study_libevent.MinHeap.{top}
use study_libevent.Events.{Base, Env}
use study_libevent.Events.Calls.{event_del}
use study_libevent.Events.Valid.{IsValid}
use study_libevent.Events.Delete.{View, view, idle, event_del-Left, event_del-idle}
use study_libevent.Events.Timeouts.{TopIs, top-TopIs}
use study_libevent.Events.Free.{delete_each, delete_timers, delete_queues}

pub own_occurrence : (e : ℕ) (es : List ℕ) → occurrences e (e ∷ es) ≢ 0
own_occurrence e es z = let self : (e == e) ≡ true = (==_iff e e).1 refl in ground arith

module _ {B : Type 0} where
  -- Events have been deleted.
  pub record Shrunk (b b' : Base B) : Type 0 where
    pub valid : IsValid b'
    pub ev_base : b'.ev_base ≡ b.ev_base
    pub ev_pri : b'.ev_pri ≡ b.ev_pri
    pub is_internal : b'.is_internal ≡ b.is_internal
    pub views : (x : ℕ) → (view b' x ≡ view b x) ⊎ (view b' x ≡ idle)

  Shrunk-refl : (b : Base B) → IsValid b → Shrunk b b
  Shrunk-refl b v = record {
    valid = v;
    ev_base = refl;
    ev_pri = refl;
    is_internal = refl;
    views = λ x. inl refl;
  }

  Shrunk-trans : (a b c : Base B) → Shrunk a b → Shrunk b c → Shrunk a c
  Shrunk-trans a b c p q = record {
    valid = q.valid;
    ev_base = q.ev_base ∙ p.ev_base;
    ev_pri = q.ev_pri ∙ p.ev_pri;
    is_internal = q.is_internal ∙ p.is_internal;
    views = λ x. elim (q.views x) [
      | inr u ↦ inr u
      | inl u ↦ elim (p.views x) [ inl t ↦ inl (u ∙ t) | inr t ↦ inr (u ∙ t) ]
    ];
  }

  -- An idle event stays idle.
  pub Shrunk-idle : (b b' : Base B) (x : ℕ) → Shrunk b b' → view b x ≡ idle → view b' x ≡ idle
  Shrunk-idle b b' x p h = elim (p.views x) [ inl t ↦ t ∙ h | inr t ↦ t ]

  pub Shrunk-at :
      {A : Type 0} (f : View → A) (b b' : Base B) (x : ℕ)
      → Shrunk b b'
      → f (view b x) ≡ f idle
      → f (view b' x) ≡ f idle
  Shrunk-at f b b' x w h = elim (w.views x) [ inl t ↦ ap f t ∙ h | inr t ↦ ap f t ]

  -- The active events of the queues from `i` on are idle, `n` queues.
  abbrev pub IsCleared : Base B → Base B → ℕ → ℕ → Type 0
  IsCleared b b' n i =
      (x : ℕ)
      → b.is_internal x ≡ false
      → b.is_active x ≡ true
      → i ≤ b.ev_pri x
      → b.ev_pri x < i + n
      → view b' x ≡ idle

  module _ (env : Env B) where
    event_del-Shrunk :
        (b : Base B) (e : ℕ)
        → IsValid b
        → b.ev_base e ≡ true
        → Ensures
            (λ r.
              Shrunk b r.1
              × (view r.1 e ≡ idle)
              × (r.1.timeheap.n + bit (b.on_timeout e) ≡ b.timeheap.n))
            (event_del env b e)
    event_del-Shrunk b e v m =
        Ensures-map (Ensures-and (event_del-Left env b e v m) (event_del-idle env b e v m))
          λ r (w, u). (
            record {
              valid = w.valid;
              ev_base = w.frame.ev_base;
              ev_pri = w.frame.ev_pri;
              is_internal = w.frame.is_internal;
              views = λ x. elim (Bool-cases (e == x)) [
                | inl t ↦ inr (u.1 x ∙ rw t refl)
                | inr t ↦ inl (u.1 x ∙ rw t refl)
              ];
            },
            u.1 e ∙ (let self : (e == e) ≡ true = (==_iff e e).1 refl in rw self refl),
            w.count,
          )

    pub delete_each-Shrunk :
        (skip : ℕ → Bool) (es : List ℕ) (b : Base B)
        → IsValid b
        → ((x : ℕ) → occurrences x es ≢ 0 → b.ev_base x ≡ true)
        → Ensures
            (λ b'.
              Shrunk b b' × ((x : ℕ) → occurrences x es ≢ 0 → skip x ≡ false → view b' x ≡ idle))
            (delete_each env skip es b)
    unfolding delete_each
    delete_each-Shrunk skip [] b v m = returns (Shrunk-refl b v, λ x p. absurd (p refl))
    delete_each-Shrunk skip (e ∷ es) b v m =
        Ensures-if (skip e)
          (λ s.
            Ensures-map (delete_each-Shrunk skip es b v λ x p. m x (λ z. p (omega arith)))
              λ b' (w, u). (
                w,
                λ x p q. elim (Bool-cases (e == x)) [
                  | inl t ↦ let r = ap skip ((==_iff e x).0 t) in absurd (cc)
                  | inr t ↦ u x (λ z. p (ground arith)) q
                ],
              ))
          λ s. Ensures-bind (event_del-Shrunk b e v (m e (own_occurrence e es))) λ r (w, here, _).
            Ensures-map
              (delete_each-Shrunk skip es r.1 w.valid
                λ x p. ap (λ f. f x) w.ev_base ∙ m x (λ z. p (omega arith)))
              λ b' (w', u). (
                Shrunk-trans b r.1 b' w w',
                λ x p q. elim (Bool-cases (e == x)) [
                  | inl t ↦
                      Shrunk-idle r.1 b' x w'
                        (subst (λ k. view r.1 k ≡ idle) ((==_iff e x).0 t) here)
                  | inr t ↦ u x (λ z. p (ground arith)) q
                ],
              )

    pub delete_timers-Shrunk :
        (fuel : ℕ) (b : Base B)
        → b.timeheap.n < fuel
        → IsValid b
        → Ensures (λ b'. Shrunk b b' × (b'.timeheap.n ≡ 0)) (delete_timers env fuel b)
    unfolding delete_timers
    delete_timers-Shrunk zero b g v = absurd (omega arith)
    delete_timers-Shrunk (suc fuel) b g v =
        let first = top-TopIs b.ev_timeout b.timeheap v.timed.heap in
        elim (Option-cases (top b.timeheap)) [
          | inl n ↦
              rw (n, delete_timers)
                (returns (Shrunk-refl b v, subst (TopIs b.ev_timeout b.timeheap) n first))
          | inr (e, n) ↦
              let (held, least) = subst (TopIs b.ev_timeout b.timeheap) n first in
              let on = v.timed.from e held in
              rw (n, delete_timers)
                (Ensures-bind (event_del-Shrunk b e v (v.based e (ground arith))) λ r (w, _, fewer).
                  Ensures-map
                    (delete_timers-Shrunk fuel r.1 (omega (arith, fewer, ap bit on)) w.valid)
                    λ b' (w', none_left). (Shrunk-trans b r.1 b' w w', none_left))
        ]

    still_active :
        (b b' : Base B) (x : ℕ)
        → Shrunk b b'
        → (b'.is_active x ≡ b.is_active x) ⊎ (view b' x ≡ idle)
    still_active b b' x w = elim (w.views x) [ inl t ↦ inl (ap (λ u. u.active) t) | inr t ↦ inr t ]

    in_active_queue :
        (b : Base B) (x i : ℕ)
        → IsValid b
        → occurrences x (get_or b.activequeues i []) ≢ 0
        → b.ev_base x ≡ true
    in_active_queue b x i v p = v.based x (ground (arith, v.active x i))

    pub delete_queues-Shrunk :
        (n i : ℕ) (b : Base B)
        → IsValid b
        → Ensures (λ b'. Shrunk b b' × IsCleared b b' n i) (delete_queues env n i b)
    unfolding delete_queues
    delete_queues-Shrunk zero i b v = returns (Shrunk-refl b v, λ x p q r s. absurd (omega arith))
    delete_queues-Shrunk (suc n) i b v =
        let queue = get_or b.activequeues i [] in
        Ensures-bind (delete_each-Shrunk b.is_internal queue b v λ x. in_active_queue b x i v)
          λ b1 (w, gone). Ensures-map (delete_queues-Shrunk n (i + 1) b1 w.valid) λ b' (w', rest). (
            Shrunk-trans b b1 b' w w',
            λ x p q r s. elim (Bool-cases (i == b.ev_pri x)) [
              | inl t ↦
                  let once : occurrences x queue ≢ 0 = λ z. ground (arith, v.active x i) in
                  Shrunk-idle b1 b' x w' (gone x once p)
              | inr t ↦ elim (still_active b b1 x w) [
                | inr u ↦ Shrunk-idle b1 b' x w' u
                | inl u ↦
                    let same = ap (λ f. f x) w.ev_pri in
                    rest x (ap (λ f. f x) w.is_internal ∙ p) (u ∙ q) (ground arith) (omega arith)
              ]
            ],
          )
