-- ===== src/Events/Activate.antt =====
-- About `event_active` of event.c.
use study_libevent.Prelude.{
  ◌≤◌, ◌⊎◌, ==_iff, ℕ, ◌≡◌, refl, sym, subst, [], ◌∷◌, ◌++◌, Bool-cases, inl, inr, true, false,
  ◌&&◌, not, ◌==◌, if◌then◌else◌, get_or, set, assign, Ensures, Ensures-map, returns, arith,
}
use study_libevent.Events.Frame.{IsTidy, Single}
use study_libevent.Events.{Base, Env, What, joined}
use study_libevent.Events.Calls.{event_active}
use study_libevent.Events.Valid.{IsValid, quiet}
use study_libevent.Events.Delete.{view}
use study_libevent.Events.Insert.{insert_active}

module _ {B : Type 0} where
  -- What `event_active` leaves.
  pub record Fired (b : Base B) (e : ℕ) (what : What) (calls : ℕ) (b' : Base B) : Type 0 where
    pub valid : IsValid b'
    pub views :
        (x : ℕ) → view b' x ≡ (if e == x then record (view b x) { active = true } else view b x)
    pub res :
        (x : ℕ)
        → b'.ev_res x ≡ (
            if e == x
            then (if b.is_active e then joined (b.ev_res e) what else what)
            else b.ev_res x)
    pub ncalls :
        (x : ℕ)
        → b'.ev_ncalls x ≡ (if not (b.is_active e) && (e == x) then calls else b.ev_ncalls x)
    pub queues : b'.activequeues ≡ (
        if b.is_active e
        then b.activequeues
        else set b.activequeues (b.ev_pri e) (get_or b.activequeues (b.ev_pri e) [] ++ e ∷ []))
    pub timeheap : b'.timeheap ≡ b.timeheap
    pub on_timeout : b'.on_timeout ≡ b.on_timeout
    pub ev_timeout : b'.ev_timeout ≡ b.ev_timeout
    pub ev_base : b'.ev_base ≡ b.ev_base
    pub ev_events : b'.ev_events ≡ b.ev_events
    pub ev_pri : b'.ev_pri ≡ b.ev_pri
    pub is_internal : b'.is_internal ≡ b.is_internal
    pub tidy : calls ≤ 1 → IsTidy b → IsTidy b'
    pub event_break : b'.event_break ≡ b.event_break
    pub event_gotterm : b'.event_gotterm ≡ b.event_gotterm
    pub use_monotonic : b'.use_monotonic ≡ b.use_monotonic

  viewed :
      (b : Base B) (e : ℕ)
      → b.is_active e ≡ true
      → (x : ℕ) → view b x ≡ (if e == x then record (view b x) { active = true } else view b x)
  viewed b e t x = elim (Bool-cases (e == x)) [
    | inl u ↦ let on : b.is_active x ≡ true = ground arith in rw (u, on) refl
    | inr u ↦ rw u refl
  ]

  activated :
      (b : Base B) (e ncalls : ℕ)
      → ncalls ≤ 1
      → ((x : ℕ) → Single b x)
      → (x : ℕ)
      → (assign b.ev_ncalls e ncalls x ≡ 0)
        ⊎ ((assign b.ev_ncalls e ncalls x ≡ 1) × (assign b.ev_pncalls e false x ≡ false))
  activated b e ncalls h t x = elim (Bool-cases (e == x)) [
    | inl u ↦ rw u (elim (Bool-cases (ncalls == 0)) [
      | inl z ↦ inl ((==_iff ncalls 0).0 z)
      | inr z ↦ inr (ground arith, refl)
    ])
    | inr u ↦ rw u (t x)
  ]

  module _ (env : Env B) where
    -- For a valid base and an event of it, `event_active` returns and leaves a valid base in which
    -- the event is active and every event stands otherwise as before, with the same heap,
    -- timeouts, priorities, clock, events and requests to end the loop. If it was active, the bits
    -- are joined to its result and the queues and its number of calls are unchanged; otherwise it
    -- has the result and the number of calls given and stands behind the events of its priority's
    -- queue. The results and numbers of calls of the others are unchanged.
    pub event_active-Fired :
        (b : Base B) (e : ℕ) (res : What) (ncalls : ℕ)
        → IsValid b
        → b.ev_base e ≡ true
        → Ensures (Fired b e res ncalls) (event_active env b e res ncalls)
    unfolding event_active
    event_active-Fired b e res ncalls v m = elim (Bool-cases (b.is_active e)) [
      | inl t ↦ rw t (
          returns (record {
            valid = quiet v;
            views = viewed b e t;
            res = λ x. ground (arith, t);
            ncalls = λ x. ground (arith, t);
            queues = rw t refl;
            timeheap = refl;
            on_timeout = refl;
            ev_timeout = refl;
            ev_base = refl;
            ev_events = refl;
            ev_pri = refl;
            is_internal = refl;
            tidy = λ h t. t;
            event_break = refl;
            event_gotterm = refl;
            use_monotonic = refl;
          }))
      | inr t ↦
          rw (t, m)
            (Ensures-map
              (insert_active env
                (record b {
                  ev_res = assign b.ev_res e res;
                  ev_ncalls = assign b.ev_ncalls e ncalls;
                  ev_pncalls = assign b.ev_pncalls e false;
                })
                e (quiet v) t m)
              λ b' (v', same). subst (Fired b e res ncalls) (sym same) (record {
                valid = subst IsValid same v';
                views = λ x. elim (Bool-cases (e == x)) [ inl u ↦ rw u refl | inr u ↦ rw u refl ];
                res = λ x. rw t refl;
                ncalls = λ x. rw t refl;
                queues = rw t refl;
                timeheap = refl;
                on_timeout = refl;
                ev_timeout = refl;
                ev_base = refl;
                ev_events = refl;
                ev_pri = refl;
                is_internal = refl;
                tidy = λ h t. (t.0, t.1, activated b e ncalls h t.2);
                event_break = refl;
                event_gotterm = refl;
                use_monotonic = refl;
              }))
    ]
