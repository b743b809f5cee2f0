-- ===== src/Events/Loop.antt =====
-- The timeouts and the loop of event.c.
use study_libevent.Prelude.{
  ℕ, zero, suc, ◌+◌, ◌-◌, List, [], ◌∷◌, ◌++◌, Bool, true, false, ◌&&◌, not, Option, none, some,
  ◌==◌, if◌then◌else◌, get_or, take, assign, Run, done, aborted, stuck, ◌>>=◌, Status, ok, fail,
}
use study_libevent.MinHeap.{Timeval, timercmp_gt, top}
use study_libevent.Events.{
  ev_timeout_bit, Op, op_add, op_del, op_active, op_loopbreak, op_gotterm, Base, Env, timerclear,
  timersub, evlist_active, gettime, queue_remove,
}
use study_libevent.Events.Calls.{event_add, event_del, event_active, loopbreak}

-- What `event_base_loop` returns: 0, 1 and -1
pub data LoopEnd : Type 0 where
  exited no_events failed : LoopEnd

-- EVLOOP_ONCE and EVLOOP_NONBLOCK
pub record LoopFlags : Type 0 where
  pub once : Bool
  pub nonblock : Bool

-- `for (; size-- > 0; ++pev)` of `timeout_correct`
unfoldable pub shift_all : List ℕ → Timeval → (ℕ → Timeval) → ℕ → Timeval
shift_all [] off f = f
shift_all (e ∷ es) off f = shift_all es off (assign f e (timersub (f e) off))

-- The index of the first queue that is not empty
unfoldable pub first_active : List (List ℕ) → Option ℕ
first_active [] = none
first_active ([] ∷ queues) = elim (first_active queues) [ none ↦ none | some i ↦ some (suc i) ]
first_active ((e ∷ es) ∷ queues) = some 0

module _ {B : Type 0} (env : Env B) where
  -- The wait for the next timeout, none without one
  unfoldable pub timeout_next : Base B → Option Timeval × Base B
  timeout_next b = elim (top b.timeheap) [
    | none ↦ (none, b)
    | some e ↦
        let (now, b') = gettime env b in
        let due = b'.ev_timeout e in
        (some (if timercmp_gt due now then timersub due now else timerclear), b')
  ]

  -- `timeout_correct`, where the timeouts are not before the time by which the clock went back
  unfoldable pub timeout_correct : Base B → Base B
  timeout_correct b =
      let (tv, b') = gettime env b in
      let heap = b'.timeheap in
      let off = timersub b'.event_tv tv in
      if b.use_monotonic
      then b
      else if timercmp_gt b'.event_tv tv
      then record b' {
        ev_timeout = shift_all (take heap.n heap.p) off b'.ev_timeout;
        event_tv = tv;
      }
      else record b' { event_tv = tv }

  unfoldable pub process_loop : ℕ → Timeval → Base B → Run (Base B)
  process_loop zero now b = stuck
  process_loop (suc fuel) now b = elim (top b.timeheap) [
    | none ↦ done b
    | some e ↦
        let fired : Run (Base B) = event_del env b e >>= λ r.
        event_active env r.1 e ev_timeout_bit 1 >>= process_loop fuel now in
        if timercmp_gt (b.ev_timeout e) now then done b else fired
  ]

  unfoldable pub timeout_process : Base B → Run (Base B)
  timeout_process b =
      let (now, b') = gettime env b in
      let heap = b.timeheap in
      let processed = process_loop (heap.n + 1) now b' in if heap.n == 0 then done b else processed

  unfoldable pub run_op : Op → Base B → Run (Base B)
  run_op (op_add e tv) b = event_add env b e tv >>= λ r. done r.1
  run_op (op_del e) b = event_del env b e >>= λ r. done r.1
  run_op (op_active e res n) b = event_active env b e res n
  run_op op_loopbreak b = done (loopbreak b)
  run_op op_gotterm b = done (record b { event_gotterm = true })

  unfoldable pub run_ops : List Op → Base B → Run (Base B)
  run_ops [] b = done b
  run_ops (op ∷ ops) b = run_op op b >>= run_ops ops

  -- `while (ncalls)` of `event_process_active`, and whether it ended by `event_break`
  unfoldable pub call_loop : ℕ → ℕ → Base B → Run (Bool × Base B)
  call_loop zero e b = stuck
  call_loop (suc fuel) e b =
      let n = b.ncalls - 1 in
      let b1 = record b {
        ncalls = n;
        ev_ncalls = assign b.ev_ncalls e n;
        trace = b.trace ++ (e, b.ev_res e) ∷ [];
      } in
      let called : Run (Bool × Base B) = run_ops (env.callback b1 e (b.ev_res e)) b1 >>= λ b2.
      elim b2.event_break [ true ↦ done (true, b2) | false ↦ call_loop fuel e b2 ] in
      if b.ncalls == 0 then done (false, b) else called

  -- `event_queue_remove` of a persistent event, `event_del` of another
  unfoldable pub taken : Base B → ℕ → Run (Base B)
  taken b e =
      let events = b.ev_events e in
      if events.persist
      then queue_remove b e evlist_active
      else (event_del env b e >>= λ r. done r.1)

  unfoldable pub called : ℕ → Base B → Run (Bool × Base B)
  called e b =
      call_loop (b.ev_ncalls e + 1) e
        (record b { ncalls = b.ev_ncalls e; ev_pncalls = assign b.ev_pncalls e true })

  -- The outer loop of `event_process_active`, on queue `i`
  unfoldable pub run_queue : ℕ → ℕ → Base B → Run (Base B)
  run_queue zero i b = stuck
  run_queue (suc fuel) i b = elim (get_or b.activequeues i []) [
    | [] ↦ done b
    | e ∷ es ↦
        taken b e >>= called e >>= λ r. elim r.0 [ true ↦ done r.1 | false ↦ run_queue fuel i r.1 ]
  ]

  unfoldable pub process_active : ℕ → Base B → Run (Base B)
  process_active fuel b = elim (first_active b.activequeues) [
    | none ↦ aborted
    | some i ↦
        let ran : Run (Base B) = run_queue fuel i (record b { is_processing = true }) >>= λ b'.
        done (record b' { is_processing = false }) in
        ran
  ]

  -- `timeout_next` or no wait
  unfoldable pub wait_for : LoopFlags → Base B → Option Timeval × Base B
  wait_for flags b =
      if b.event_count_active == 0 && not flags.nonblock
      then timeout_next b
      else (some timerclear, b)

  abbrev pub uncached : Base B → Base B
  uncached b = record b { tv_cache = record b.tv_cache { tv_sec = 0 } }

  -- `evsel->dispatch(base, evbase, tv_p)`, with the times read before it
  unfoldable pub dispatched : Option Timeval → Base B → Run (Status × Base B)
  dispatched tv b =
      let (now, b1) = gettime env b in
      let b2 = uncached (record b1 { event_tv = now }) in
      let (st, ops, s) = env.dispatch b2 tv in
      run_ops ops (record b2 { evbase = s }) >>= λ b3. done (st, b3)

  -- A round of the loop behind a `dispatch` that succeeded: the new `done`, and the base
  unfoldable pub processed : ℕ → LoopFlags → Base B → Run (Bool × Base B)
  processed fuel flags b =
      let (now, b1) = gettime env b in
      timeout_process (record b1 { tv_cache = now }) >>= λ b2.
      let ran : Run (Bool × Base B) =
        process_active fuel b2 >>= λ b3. done ((b3.event_count_active == 0) && flags.once, b3) in
      if b2.event_count_active == 0 then done (flags.nonblock, b2) else ran

  unfoldable pub loop_rounds : ℕ → LoopFlags → Base B → Run (LoopEnd × Base B)
  loop_rounds zero flags b = stuck
  loop_rounds (suc fuel) flags b =
      let (tv, b1) = wait_for flags (timeout_correct b) in
      let round : Run (LoopEnd × Base B) = dispatched tv b1 >>= λ r. elim r.0 [
        | fail ↦ done (failed, r.1)
        | ok ↦ processed fuel flags r.1 >>= λ q. elim q.0 [
          | true ↦ done (exited, uncached q.1)
          | false ↦ loop_rounds fuel flags q.1
        ]
      ] in
      if b.event_gotterm
      then done (exited, uncached (record b { event_gotterm = false }))
      else if b.event_break
      then done (exited, uncached (record b { event_break = false }))
      else if b1.event_count == 0
      then done (no_events, b1)
      else round

  -- `event_base_loop`
  unfoldable pub base_loop : ℕ → LoopFlags → Base B → Run (LoopEnd × Base B)
  base_loop fuel flags b = loop_rounds fuel flags (uncached b)
