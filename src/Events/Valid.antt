-- ===== src/Events/Valid.antt =====
-- The invariant of `struct event_base`: the flags of the events against the queues and the counters.
use study_libevent.Prelude.{
  ℕ, ◌+◌, ◌^◌, ◌<◌, ◌≡◌, ◌≢◌, List, [], Bool, true, false, ◌&&◌, ◌||◌, ◌==◌, length, get_or, bit,
  occurrences, weight, sum_of, Option, Option-cases, Bool-cases, inl, inr, refl, none,
}
use study_libevent.MinHeap.{Timeval, MinHeap}
use study_libevent.MinHeap.Order.{IsHeap}
use study_libevent.MinHeap.Place.{IsHeld}
use study_libevent.Events.{What, Base, Env, gettime, read_clock, read_wall}

-- The heap holds the events with a timeout, and its block is below 2 ^ 31 slots.
pub record IsTimed (timeout : ℕ → Timeval) (flag : ℕ → Bool) (h : MinHeap) : Type 0 where
  pub heap : IsHeap timeout h
  pub modest : h.a < 2 ^ 31
  pub to : (e : ℕ) → flag e ≡ true → IsHeld h e
  pub from : (e : ℕ) → IsHeld h e → flag e ≡ true

-- The list holds the events with the flag, each once.
abbrev pub IsQueued : (ℕ → Bool) → List ℕ → Type 0
IsQueued flag queue = (e : ℕ) → occurrences e queue ≡ bit (flag e)

-- Each active event stands once in the queue of its priority, and in no other.
abbrev pub IsActivated : (ℕ → Bool) → (ℕ → ℕ) → List (List ℕ) → Type 0
IsActivated flag pri queues =
    (e k : ℕ) → occurrences e (get_or queues k []) ≡ bit (flag e && (k == pri e))

pub record IsValid {B : Type 0} (b : Base B) : Type 0 where
  pub timed : IsTimed b.ev_timeout b.on_timeout b.timeheap
  pub inserted : IsQueued b.is_inserted b.eventqueue
  pub active : IsActivated b.is_active b.ev_pri b.activequeues
  pub actives : sum_of length b.activequeues ≡ b.event_count_active
  pub priority : (e : ℕ) → b.ev_base e ≡ true → b.ev_pri e < length b.activequeues
  pub based : (e : ℕ) → (b.on_timeout e || b.is_active e) ≡ true → b.ev_base e ≡ true
  pub untimed : (e : ℕ) → b.is_internal e ≡ true → b.on_timeout e ≡ false
  pub counted :
      b.event_count
      ≡ weight b.is_internal b.eventqueue
        + sum_of (weight b.is_internal) b.activequeues
        + b.timeheap.n

module _ {B : Type 0} where
  -- The invariant does not depend on the other fields.
  pub quiet :
      {b : Base B} {evbase : B} {event_gotterm event_break use_monotonic is_processing : Bool}
      {event_tv tv_cache : Timeval} {reads ncalls stray : ℕ} {trace : List (ℕ × What)}
      {ev_fd : ℕ → Option ℕ} {ev_events ev_res : ℕ → What} {ev_ncalls : ℕ → ℕ}
      {ev_pncalls is_init : ℕ → Bool}
      → IsValid b
      → IsValid (record b {
        evbase = evbase;
        event_gotterm = event_gotterm;
        event_break = event_break;
        use_monotonic = use_monotonic;
        event_tv = event_tv;
        tv_cache = tv_cache;
        reads = reads;
        ncalls = ncalls;
        is_processing = is_processing;
        stray = stray;
        trace = trace;
        ev_fd = ev_fd;
        ev_events = ev_events;
        ev_res = ev_res;
        ev_ncalls = ev_ncalls;
        ev_pncalls = ev_pncalls;
        is_init = is_init;
      })
  quiet v = record {
    timed = v.timed;
    inserted = v.inserted;
    active = v.active;
    actives = v.actives;
    priority = v.priority;
    based = v.based;
    untimed = v.untimed;
    counted = v.counted;
  }

  -- A reading of the time changes no more than what is known of the clocks.
  pub gettime_shape :
      (env : Env B) (b : Base B)
      → (m : Bool) × (r : ℕ) × ((gettime env b).1 ≡ record b { use_monotonic = m; reads = r })
  unfolding gettime read_clock read_wall
  gettime_shape env b = elim (Bool-cases (b.tv_cache.tv_sec == 0)) [
    | inr t ↦ (b.use_monotonic, b.reads, rw t refl)
    | inl t ↦ elim (Option-cases (env.monotonic b.reads)) [
      | inl n ↦ (false, b.reads + 1, rw (t, n, read_clock) refl)
      | inr (now, n) ↦ elim (Bool-cases b.use_monotonic) [
        | inl m ↦ (b.use_monotonic, b.reads + 1, rw (t, n, m, read_clock) refl)
        | inr m ↦ (false, b.reads + 1, rw (t, n, m, read_clock) refl)
      ]
    ]
  ]

  -- A clock that always answers stays in use.
  pub gettime-keeps :
      (env : Env B) (b : Base B)
      → ((k : ℕ) → env.monotonic k ≢ none)
      → (gettime env b).1.use_monotonic ≡ b.use_monotonic
  unfolding gettime read_clock read_wall
  gettime-keeps env b clock = elim (Bool-cases (b.tv_cache.tv_sec == 0)) [
    | inr t ↦ rw t refl
    | inl t ↦ elim (Option-cases (env.monotonic b.reads)) [
      | inl n ↦ absurd (clock b.reads n)
      | inr (now, n) ↦ elim (Bool-cases b.use_monotonic) [
        | inl m ↦ rw (t, n, m, read_clock) refl
        | inr m ↦ rw (t, n, m, read_clock) refl
      ]
    ]
  ]
