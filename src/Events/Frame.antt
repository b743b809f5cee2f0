-- ===== src/Events/Frame.antt =====
-- What the queues of event.c do not touch.
use study_libevent.Prelude.{ℕ, ◌≡◌, ◌≤◌, ◌⊎◌, false, refl, ◌∙◌, List, Bool}
use study_libevent.MinHeap.{MinHeap}
use study_libevent.Events.{Base}

module _ {B : Type 0} where
  -- The event is to be called once at most, and if it is, its `ev_pncalls` is not set.
  abbrev pub Single : Base B → ℕ → Type 0
  Single b e = (b.ev_ncalls e ≡ 0) ⊎ ((b.ev_ncalls e ≡ 1) × (b.ev_pncalls e ≡ false))

  -- Nothing was written through a stale `ev_pncalls`, and nothing is written through any.
  abbrev pub IsTidy : Base B → Type 0
  IsTidy b = (b.stray ≡ 0) × (b.ncalls ≤ 1) × ((e : ℕ) → Single b e)

  -- The two bases differ at most in their queues, counters and flags of queues, and by a write
  -- through an `ev_pncalls` that is set.
  pub record Frame (b b' : Base B) : Type 0 where
    pub event_gotterm : b'.event_gotterm ≡ b.event_gotterm
    pub event_break : b'.event_break ≡ b.event_break
    pub tv_cache : b'.tv_cache ≡ b.tv_cache
    pub use_monotonic : b'.use_monotonic ≡ b.use_monotonic
    pub reads : b'.reads ≡ b.reads
    pub trace : b'.trace ≡ b.trace
    pub ev_base : b'.ev_base ≡ b.ev_base
    pub ev_events : b'.ev_events ≡ b.ev_events
    pub ev_res : b'.ev_res ≡ b.ev_res
    pub ev_ncalls : b'.ev_ncalls ≡ b.ev_ncalls
    pub ev_timeout : b'.ev_timeout ≡ b.ev_timeout
    pub tidy : IsTidy b → IsTidy b'
    pub ev_pri : b'.ev_pri ≡ b.ev_pri
    pub is_internal : b'.is_internal ≡ b.is_internal

  pub framed :
      {b : Base B} {evbase : B} {event_count event_count_active : ℕ} {activequeues : List (List ℕ)}
      {eventqueue : List ℕ} {timeheap : MinHeap} {on_timeout is_inserted is_active : ℕ → Bool}
      → Frame b (record b {
        evbase = evbase;
        event_count = event_count;
        event_count_active = event_count_active;
        activequeues = activequeues;
        eventqueue = eventqueue;
        timeheap = timeheap;
        on_timeout = on_timeout;
        is_inserted = is_inserted;
        is_active = is_active;
      })
  framed = record {
    event_gotterm = refl;
    event_break = refl;
    tv_cache = refl;
    use_monotonic = refl;
    reads = refl;
    trace = refl;
    ev_base = refl;
    ev_events = refl;
    ev_res = refl;
    ev_ncalls = refl;
    ev_timeout = refl;
    tidy = λ t. t;
    ev_pri = refl;
    is_internal = refl;
  }

  pub Frame-trans : (a b c : Base B) → Frame a b → Frame b c → Frame a c
  Frame-trans a b c p q = record {
    event_gotterm = q.event_gotterm ∙ p.event_gotterm;
    event_break = q.event_break ∙ p.event_break;
    tv_cache = q.tv_cache ∙ p.tv_cache;
    use_monotonic = q.use_monotonic ∙ p.use_monotonic;
    reads = q.reads ∙ p.reads;
    trace = q.trace ∙ p.trace;
    ev_base = q.ev_base ∙ p.ev_base;
    ev_events = q.ev_events ∙ p.ev_events;
    ev_res = q.ev_res ∙ p.ev_res;
    ev_ncalls = q.ev_ncalls ∙ p.ev_ncalls;
    ev_timeout = q.ev_timeout ∙ p.ev_timeout;
    tidy = λ t. q.tidy (p.tidy t);
    ev_pri = q.ev_pri ∙ p.ev_pri;
    is_internal = q.is_internal ∙ p.is_internal;
  }
