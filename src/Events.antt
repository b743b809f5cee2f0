-- ===== src/Events.antt =====
-- event.c, `struct event` of event.h and `struct event_base` of event-internal.h: the queues of
-- events.
--
-- There is one base. An event is a number, and its fields are fields of the base indexed by that
-- number; `ev_base` says whether the event belongs to the base. The bits of `ev_flags` and of
-- `ev_events` are Booleans. `activequeues` are the lists by priority, `nactivequeues` of them.
-- `ncalls` is the variable of `event_process_active` that `ev_pncalls` points to, where that is set;
-- `is_processing` says whether that call has not returned, and `stray` counts the writes through an
-- `ev_pncalls` that is stale because it has.
-- `trace` lists the calls of callbacks, `reads` counts the readings of a clock. The counters, which
-- are `int` in C, do not overflow.
--
-- The back end (`struct eventop`), malloc, the clocks and the callbacks are the fields of `Env`; a
-- callback performs operations of the library. An exit by `event_errx` and an access outside of an
-- array or through NULL are `aborted`.
pub mod Calls
pub mod Loop
pub mod Valid
pub mod Insert
pub mod Remove
pub mod Frame
pub mod Delete
pub mod Activate
pub mod Count
pub mod Timer
pub mod Reserve
pub mod Io
pub mod Add
pub mod Timeouts
pub mod Safety
pub mod First
pub mod Rounds
pub mod Setup
pub mod Served
pub mod Order
pub mod Correct
pub mod Ends
pub mod Free
pub mod Once
mod Tests
use study_libevent.Prelude.{
  ℕ, zero, suc, ◌+◌, ◌-◌, ◌*◌, ◌/◌, ◌^◌, ◌%◌, List, [], ◌∷◌, ◌++◌, Bool, true, false, ◌&&◌, ◌||◌,
  not, Option, none, some, ltb, leb, ◌==◌, if◌then◌else◌, length, get_or, set, replicate, assign,
  Run, done, aborted, ◌>>=◌, Status, ok, fail,
}
use study_libevent.Prelude.Occurs.{remove_first}
use study_libevent.MinHeap.{
  Timeval, timercmp_gt, MinHeap, ctor, no_index, update, reserve, push, erase,
}

-- The bits EV_TIMEOUT, EV_READ, EV_WRITE, EV_SIGNAL and EV_PERSIST
pub record What : Type 0 where
  pub by_time : Bool
  pub readable : Bool
  pub writable : Bool
  pub signal : Bool
  pub persist : Bool

abbrev pub nothing : What
nothing = record {
  by_time = false;
  readable = false;
  writable = false;
  signal = false;
  persist = false;
}

abbrev pub ev_timeout_bit : What
ev_timeout_bit = record nothing { by_time = true }

-- `a | b`
abbrev pub joined : What → What → What
joined a b = record {
  by_time = a.by_time || b.by_time;
  readable = a.readable || b.readable;
  writable = a.writable || b.writable;
  signal = a.signal || b.signal;
  persist = a.persist || b.persist;
}

-- `events & (EV_READ|EV_WRITE|EV_SIGNAL)`
abbrev pub is_io : What → Bool
is_io w = w.readable || w.writable || w.signal

-- What a callback or a back end calls of the library; `op_gotterm` is `event_loopexit_cb`.
pub data Op : Type 0 where
  op_add : ℕ → Option Timeval → Op
  op_del : ℕ → Op
  op_active : ℕ → What → ℕ → Op
  op_loopbreak op_gotterm : Op

pub record Base (B : Type 0) : Type 0 where
  pub evbase : B
  pub event_count : ℕ
  pub event_count_active : ℕ
  pub event_gotterm : Bool
  pub event_break : Bool
  pub activequeues : List (List ℕ)
  pub eventqueue : List ℕ
  pub event_tv : Timeval
  pub timeheap : MinHeap
  pub tv_cache : Timeval
  pub use_monotonic : Bool
  pub reads : ℕ
  pub ncalls : ℕ
  pub is_processing : Bool
  pub stray : ℕ
  pub trace : List (ℕ × What)
  pub ev_base : ℕ → Bool
  pub ev_fd : ℕ → Option ℕ
  pub ev_events : ℕ → What
  pub ev_res : ℕ → What
  pub ev_ncalls : ℕ → ℕ
  pub ev_pncalls : ℕ → Bool
  pub ev_timeout : ℕ → Timeval
  pub ev_pri : ℕ → ℕ
  pub on_timeout : ℕ → Bool
  pub is_inserted : ℕ → Bool
  pub is_active : ℕ → Bool
  pub is_internal : ℕ → Bool
  pub is_init : ℕ → Bool

-- The back end's `add` and `del` take the event, its descriptor and its bits; `ev_signal` is the event
-- that `evsignal_add` adds before it takes a signal event, if it does; `dispatch` says what
-- it calls of the library.
pub record Env (B : Type 0) : Type 0 where
  pub sel_add : B → ℕ → Option ℕ → What → Status × B
  pub ev_signal : B → ℕ → Option ℕ
  pub sel_del : B → ℕ → Option ℕ → What → Status × B
  pub dispatch : Base B → Option Timeval → Status × List Op × B
  pub callback : Base B → ℕ → What → List Op
  pub realloc : ℕ → Bool
  pub junk : ℕ → ℕ
  pub monotonic : ℕ → Option Timeval
  pub wall : ℕ → Timeval

abbrev pub timerclear : Timeval
timerclear = record { tv_sec = 0; tv_usec = 0 }

unfoldable pub timeradd : Timeval → Timeval → Timeval
timeradd t u =
    let usec = t.tv_usec + u.tv_usec in
    if leb 1000000 usec
    then record { tv_sec = t.tv_sec + u.tv_sec + 1; tv_usec = usec - 1000000 }
    else record { tv_sec = t.tv_sec + u.tv_sec; tv_usec = usec }

-- `evutil_timersub(t, u, …)` where `t` is not before `u`
unfoldable pub timersub : Timeval → Timeval → Timeval
timersub t u =
    if ltb t.tv_usec u.tv_usec
    then record { tv_sec = t.tv_sec - u.tv_sec - 1; tv_usec = t.tv_usec + 1000000 - u.tv_usec }
    else record { tv_sec = t.tv_sec - u.tv_sec; tv_usec = t.tv_usec - u.tv_usec }

-- The queues EVLIST_INSERTED, EVLIST_ACTIVE and EVLIST_TIMEOUT
pub data Queue : Type 0 where
  evlist_inserted evlist_active evlist_timeout : Queue

module _ {B : Type 0} where
  unfoldable pub read_wall : Env B → Base B → Timeval × Base B
  read_wall env b = (env.wall b.reads, record b { reads = b.reads + 1; use_monotonic = false })

  unfoldable pub read_clock : Env B → Base B → Timeval × Base B
  read_clock env b = elim (env.monotonic b.reads) [
    | none ↦ read_wall env b
    | some t ↦ if b.use_monotonic then (t, record b { reads = b.reads + 1 }) else read_wall env b
  ]

  unfoldable pub gettime : Env B → Base B → Timeval × Base B
  gettime env b = if b.tv_cache.tv_sec == 0 then read_clock env b else (b.tv_cache, b)

  abbrev pub on_queue : Base B → ℕ → Queue → Bool
  on_queue b e evlist_inserted = b.is_inserted e
  on_queue b e evlist_active = b.is_active e
  on_queue b e evlist_timeout = b.on_timeout e

  -- `event_queue_insert` where the flag is not set
  unfoldable pub insert_at : Env B → Base B → ℕ → Queue → Run (Base B)
  insert_at env b e evlist_inserted =
      done (record b {
        is_inserted = assign b.is_inserted e true;
        eventqueue = b.eventqueue ++ e ∷ [];
      })
  insert_at env b e evlist_active =
      let queue = get_or b.activequeues (b.ev_pri e) [] in
      if ltb (b.ev_pri e) (length b.activequeues)
      then done (record b {
        is_active = assign b.is_active e true;
        event_count_active = b.event_count_active + 1;
        activequeues = set b.activequeues (b.ev_pri e) (queue ++ e ∷ []);
      })
      else aborted
  insert_at env b e evlist_timeout = push b.ev_timeout env.realloc env.junk b.timeheap e >>= λ r.
      done (record b { on_timeout = assign b.on_timeout e true; timeheap = r.1 })

  abbrev pub counted : Base B → ℕ → Base B
  counted b e = record b {
    event_count = if b.is_internal e then b.event_count else b.event_count + 1;
  }

  unfoldable pub queue_insert : Env B → Base B → ℕ → Queue → Run (Base B)
  queue_insert env b e queue =
      let inserted = insert_at env (counted b e) e queue in
      if on_queue b e queue then elim queue [ evlist_active ↦ done b | _ ↦ aborted ] else inserted

  -- `event_queue_remove` where the flag is set
  unfoldable pub remove_from : Base B → ℕ → Queue → Run (Base B)
  remove_from b e evlist_inserted = done (record b {
    is_inserted = assign b.is_inserted e false;
    eventqueue = remove_first e b.eventqueue;
  })
  remove_from b e evlist_active =
      let queue = get_or b.activequeues (b.ev_pri e) [] in
      done (record b {
        is_active = assign b.is_active e false;
        event_count_active = b.event_count_active - 1;
        activequeues = set b.activequeues (b.ev_pri e) (remove_first e queue);
      })
  remove_from b e evlist_timeout = erase b.ev_timeout b.timeheap e >>= λ r.
      done (record b { on_timeout = assign b.on_timeout e false; timeheap = r.1 })

  abbrev pub discounted : Base B → ℕ → Base B
  discounted b e = record b {
    event_count = if b.is_internal e then b.event_count else b.event_count - 1;
  }

  unfoldable pub queue_remove : Base B → ℕ → Queue → Run (Base B)
  queue_remove b e queue =
      let removed = remove_from (discounted b e) e queue in
      if on_queue b e queue then removed else aborted
