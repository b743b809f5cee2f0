-- ===== src/Events/Calls.antt =====
-- The calls of event.c that set up, add, delete and activate an event.
--
-- A callback and its argument are the number of the event. Priorities are not negative. The back
-- end's `init` and the mallocs of `event_base_priority_init`, whose failure ends the program, succeed.
use study_libevent.Prelude.{
  ℕ, ◌+◌, ◌/◌, ◌%◌, ◌^◌, [], true, false, ◌&&◌, ◌||◌, not, Option, none, some, leb, ◌==◌,
  if◌then◌else◌, length, replicate, assign, Run, done, aborted, ◌>>=◌, Status, ok, fail,
}
use study_libevent.MinHeap.{Timeval, MinHeap, ctor, no_index, update, reserve}
use study_libevent.Events.{
  What, nothing, joined, is_io, Base, Env, timerclear, timeradd, Queue, evlist_inserted,
  evlist_active, evlist_timeout, gettime, on_queue, queue_insert, queue_remove,
}

module _ {B : Type 0} where
  -- `event_base_priority_init`
  unfoldable pub priority_init : Base B → ℕ → Status × Base B
  priority_init b npriorities =
      if not (b.event_count_active == 0)
      then (fail, b)
      else if npriorities == length b.activequeues
      then (ok, b)
      else (ok, record b { activequeues = replicate npriorities [] })

  -- The base that calloc and the first lines of `event_base_new` make
  unfoldable pub blank : B → (ℕ → ℕ) → Base B
  blank evbase idx = record {
    evbase = evbase;
    event_count = 0;
    event_count_active = 0;
    event_gotterm = false;
    event_break = false;
    activequeues = [];
    eventqueue = [];
    event_tv = timerclear;
    timeheap = ctor idx;
    tv_cache = timerclear;
    use_monotonic = true;
    reads = 0;
    ncalls = 0;
    is_processing = false;
    stray = 0;
    trace = [];
    ev_base = λ e. false;
    ev_fd = λ e. none;
    ev_events = λ e. nothing;
    ev_res = λ e. nothing;
    ev_ncalls = λ e. 0;
    ev_pncalls = λ e. false;
    ev_timeout = λ e. timerclear;
    ev_pri = λ e. 0;
    on_timeout = λ e. false;
    is_inserted = λ e. false;
    is_active = λ e. false;
    is_internal = λ e. false;
    is_init = λ e. false;
  }

  -- `event_base_new`, before any event is set, with what the back end's `init` gave
  unfoldable pub base_new : Env B → B → (ℕ → ℕ) → Base B
  base_new env evbase idx =
      let (now, b) = gettime env (blank evbase idx) in
      (priority_init (record b { event_tv = now }) 1).1

  -- `event_set`, where `current_base` is the base
  unfoldable pub event_set : Base B → ℕ → Option ℕ → What → Base B
  event_set b e fd events = record b {
    ev_base = assign b.ev_base e true;
    ev_fd = assign b.ev_fd e fd;
    ev_events = assign b.ev_events e events;
    ev_res = assign b.ev_res e nothing;
    on_timeout = assign b.on_timeout e false;
    is_inserted = assign b.is_inserted e false;
    is_active = assign b.is_active e false;
    is_internal = assign b.is_internal e false;
    is_init = assign b.is_init e true;
    ev_ncalls = assign b.ev_ncalls e 0;
    ev_pncalls = assign b.ev_pncalls e false;
    timeheap = record b.timeheap { min_heap_idx = update b.timeheap.min_heap_idx e no_index };
    ev_pri = assign b.ev_pri e (length b.activequeues / 2);
  }

  -- `event_base_set`: `ev_flags != EVLIST_INIT` fails.
  unfoldable pub base_set : Base B → ℕ → Status × Base B
  base_set b e =
      if not (b.is_init e) || b.on_timeout e || b.is_inserted e || b.is_active e || b.is_internal e
      then (fail, b)
      else (
        ok,
        record b {
          ev_base = assign b.ev_base e true;
          ev_pri = assign b.ev_pri e (length b.activequeues / 2);
        },
      )

  -- `event_priority_set`
  unfoldable pub priority_set : Base B → ℕ → ℕ → Status × Base B
  priority_set b e pri =
      if b.is_active e
      then (fail, b)
      else if leb (length b.activequeues) pri
      then (fail, b)
      else (ok, record b { ev_pri = assign b.ev_pri e pri })

  -- `event_pending` without a `tv` to fill: the bits that are pending and asked for
  unfoldable pub pending : Base B → ℕ → What → What
  pending b e event =
      let inserted = b.is_inserted e in
      let active = b.is_active e in
      let events = b.ev_events e in
      let res = b.ev_res e in
      record {
        by_time = (b.on_timeout e || active && res.by_time) && event.by_time;
        readable = (inserted && events.readable || active && res.readable) && event.readable;
        writable = (inserted && events.writable || active && res.writable) && event.writable;
        signal = (inserted && events.signal || active && res.signal) && event.signal;
        persist = false;
      }

  -- `if (ev->ev_ncalls && ev->ev_pncalls) *ev->ev_pncalls = 0;`. Where `event_process_active` has
  -- returned, the pointer is stale, and the write goes to memory that is not of the base.
  unfoldable pub abort_calls : Base B → ℕ → Base B
  abort_calls b e =
      if not (b.ev_ncalls e == 0) && b.ev_pncalls e
      then (if b.is_processing then record b { ncalls = 0 } else record b { stray = b.stray + 1 })
      else b

  -- `if (ev->ev_flags & queue) event_queue_remove(base, ev, queue);`
  unfoldable pub leave : Base B → ℕ → Queue → Run (Base B)
  leave b e queue = if on_queue b e queue then queue_remove b e queue else done b

  -- The reservation that `event_add` begins with
  unfoldable pub reserved : Env B → Base B → ℕ → Option Timeval → Status × MinHeap
  reserved env b e none = (ok, b.timeheap)
  reserved env b e (some tv) =
      if b.on_timeout e
      then (ok, b.timeheap)
      else reserve env.realloc env.junk b.timeheap ((1 + b.timeheap.n) % 2 ^ 32)

  -- `event_add` behind the back end's answer
  unfoldable pub sel_added : Env B → Base B → ℕ → Status × B → Run (Status × Base B)
  sel_added env b e (fail, s) = done (fail, record b { evbase = s })
  sel_added env b e (ok, s) =
      queue_insert env (record b { evbase = s }) e evlist_inserted >>= λ b'. done (ok, b')

  unfoldable pub sel_asked : Env B → Base B → ℕ → Run (Status × Base B)
  sel_asked env b e = sel_added env b e (env.sel_add b.evbase e (b.ev_fd e) (b.ev_events e))

  -- `event_add(&sig->ev_signal, NULL)` of `evsignal_add`: `s` has no signal bit and no timeout.
  unfoldable pub add_reader : Env B → Base B → ℕ → Run (Status × Base B)
  add_reader env b s =
      let asked = sel_asked env b s in
      if not (b.ev_base s)
      then aborted
      else if is_io (b.ev_events s) && not (b.is_inserted s || b.is_active s)
      then asked
      else done (ok, b)

  unfoldable pub add_behind : Env B → ℕ → Status × Base B → Run (Status × Base B)
  add_behind env e (fail, b) = done (fail, b)
  add_behind env e (ok, b) = sel_asked env b e

  -- The back end's `add` of a signal event, which may add the event of the signals first
  unfoldable pub add_signal : Env B → Base B → ℕ → Run (Status × Base B)
  add_signal env b e = elim (env.ev_signal b.evbase e) [
    | none ↦ sel_asked env b e
    | some s ↦ add_reader env b s >>= add_behind env e
  ]

  unfoldable pub add_io : Env B → Base B → ℕ → Run (Status × Base B)
  add_io env b e =
      let asked = if (b.ev_events e).signal then add_signal env b e else sel_asked env b e in
      if is_io (b.ev_events e) && not (b.is_inserted e || b.is_active e)
      then asked
      else done (ok, b)

  -- An event that is active by its timeout is taken from its active queue.
  unfoldable pub unfired : Base B → ℕ → Run (Base B)
  unfired b e =
      let res = b.ev_res e in
      if b.is_active e && res.by_time
      then queue_remove (abort_calls b e) e evlist_active
      else done b

  unfoldable pub scheduled : Env B → ℕ → Timeval → Base B → Run (Base B)
  scheduled env e tv b =
      let (now, b') = gettime env b in
      queue_insert env (record b' { ev_timeout = assign b'.ev_timeout e (timeradd now tv) }) e
        evlist_timeout

  -- The part of `event_add` on the timeout
  unfoldable pub add_timeout : Env B → ℕ → Option Timeval → Status × Base B → Run (Status × Base B)
  add_timeout env e none (st, b) = done (st, b)
  add_timeout env e (some tv) (fail, b) = done (fail, b)
  add_timeout env e (some tv) (ok, b) = leave b e evlist_timeout >>= λ b1.
      unfired b1 e >>= λ b2. scheduled env e tv b2 >>= λ b3. done (ok, b3)

  unfoldable pub add_reserved :
      Env B → Base B → ℕ → Option Timeval → Status × MinHeap → Run (Status × Base B)
  add_reserved env b e tv (fail, h) = done (fail, record b { timeheap = h })
  add_reserved env b e tv (ok, h) =
      add_io env (record b { timeheap = h }) e >>= add_timeout env e tv

  unfoldable pub event_add : Env B → Base B → ℕ → Option Timeval → Run (Status × Base B)
  event_add env b e tv =
      let added = add_reserved env b e tv (reserved env b e tv) in
      if b.ev_base e then added else aborted

  -- `event_del` behind its first two queues
  unfoldable pub uninserted : Env B → ℕ → Base B → Run (Status × Base B)
  uninserted env e b =
      let removed : Run (Status × Base B) = queue_remove b e evlist_inserted >>= λ b'.
      let (st, s) = env.sel_del b'.evbase e (b'.ev_fd e) (b'.ev_events e) in
      done (st, record b' { evbase = s }) in
      if b.is_inserted e then removed else done (ok, b)

  unfoldable pub event_del : Env B → Base B → ℕ → Run (Status × Base B)
  event_del env b e =
      let deleted : Run (Status × Base B) = leave (abort_calls b e) e evlist_timeout >>= λ b1.
      leave b1 e evlist_active >>= uninserted env e in
      if b.ev_base e then deleted else done (fail, b)

  unfoldable pub event_active : Env B → Base B → ℕ → What → ℕ → Run (Base B)
  event_active env b e res ncalls =
      let b' = record b {
        ev_res = assign b.ev_res e res;
        ev_ncalls = assign b.ev_ncalls e ncalls;
        ev_pncalls = assign b.ev_pncalls e false;
      } in
      if b.is_active e
      then done (record b { ev_res = assign b.ev_res e (joined (b.ev_res e) res) })
      else if b.ev_base e
      then queue_insert env b' e evlist_active
      else aborted

  -- `event_base_loopbreak`
  unfoldable pub loopbreak : Base B → Base B
  loopbreak b = record b { event_break = true }
