-- ===== src/Events/Tests.antt =====
-- The calls and the loop of event.c on concrete bases.
use study_libevent.Prelude.{
  inl, ◌≤◌, Bool, ℕ, ◌+◌, ◌-◌, ◌<◌, ◌≡◌, ◌≢◌, refl, sym, ap, ◌∙◌, [], ◌∷◌, true, false, ltb, ◌==◌,
  if◌then◌else◌, get_or, assign, length, Run, done, Ensures, returns, Safe, arith, none, some,
  Status, ok, fail,
}
use study_libevent.MinHeap.{
  Timeval, erase, shift_down, elem_init, ctor, place, reserve, timercmp_gt, elem_greater, shift_up,
  push_reserved, push,
}
use study_libevent.Events.{
  ev_timeout_bit, What, nothing, op_add, op_loopbreak, Base, Env, timerclear, timeradd, gettime,
  read_clock, read_wall, timersub, queue_insert, insert_at, queue_remove, remove_from,
}
use study_libevent.Events.Calls.{
  priority_init, blank, base_new, event_set, reserved, add_io, sel_asked, sel_added, add_timeout,
  add_reserved, leave, unfired, scheduled, event_add, event_del, event_active, abort_calls,
  uninserted, loopbreak,
}
use study_libevent.Events.Loop.{
  LoopFlags, exited, failed, timeout_correct, timeout_next, timeout_process, process_active,
  first_active, run_queue, called, taken, call_loop, run_ops, run_op, base_loop,
}
use study_libevent.Events.Valid.{IsValid, quiet}
use study_libevent.Events.Setup.{base_new-IsValid, event_set-IsValid}
use study_libevent.Events.Delete.{view, idle, event_del-idle}
use study_libevent.Events.Activate.{Fired, event_active-Fired}
use study_libevent.Events.Add.{Added, event_add-Added}
use study_libevent.Events.Reserve.{IsModest}
use study_libevent.Events.Timeouts.{Processed, Waits, timeout_process-Processed, timeout_next-Waits}
use study_libevent.Events.Safety.{IsRunning, IsProper}
use study_libevent.Events.Once.{base_once}
use study_libevent.Events.Once.Outcome.{Once, base_once-Once}
use study_libevent.Events.Free.{base_free}
use study_libevent.Events.Free.Idle.{base_free-idle}
use study_libevent.Events.Rounds.{Ended, base_loop-Ended}
use study_libevent.Events.First.{IsFirst}
use study_libevent.Events.Correct.{IsCorrected, timeout_correct-IsCorrected}
use study_libevent.Events.Ends.{base_loop-ends}
use study_libevent.Events.Order.{Emptied, process_active-Emptied}

abbrev tick : Timeval
tick = record { tv_sec = 1; tv_usec = 500000 }

-- A back end that counts its events, and callbacks that call nothing.
abbrev toy : Env ℕ
toy = record {
  sel_add = λ s e fd what. (ok, s + 1);
  ev_signal = λ s e. none;
  sel_del = λ s e fd what. (ok, s - 1);
  dispatch = λ b tv. (ok, [], b.evbase);
  callback = λ b e what. [];
  realloc = λ a. ltb a 1000;
  junk = λ i. 0;
  monotonic = λ k. some (record { tv_sec = k + 1; tv_usec = 0 });
  wall = λ k. timerclear;
}

toy_IsModest : IsModest toy.realloc
toy_IsModest a h = ground arith

toy_clock : (k : ℕ) → toy.monotonic k ≢ none
toy_clock k p = cc

abbrev reading : What
reading = record nothing { readable = true }

abbrev fresh : Base ℕ
fresh = base_new toy 0 (λ e. 0)

abbrev set_up : Base ℕ
set_up = event_set fresh 3 (some 5) reading

fresh_queues : fresh.activequeues ≢ []
fresh_queues p = let one = (base_new-IsValid toy 0 (λ e. 0)).2 in omega (arith, ap length p)

set_up_lem : IsValid set_up × (set_up.ev_base 3 ≡ true) × ((x : ℕ) → view set_up x ≡ view fresh x)
set_up_lem =
    let start = base_new-IsValid toy 0 (λ e. 0) in
    event_set-IsValid fresh 3 (some 5) reading start.0 fresh_queues (start.1 3)

external : set_up.is_internal 3 ≡ true → some tick ≡ none
unfolding event_set
external p = absurd (cc)

set_up_plain : (set_up.ev_events 3).signal ≡ false
unfolding event_set
set_up_plain = refl

set_up_all : (x : ℕ) (b : Bool) → (3 == x) ≡ b → (set_up.ev_events x).signal ≡ false
unfolding event_set base_new priority_init blank gettime read_clock
set_up_all x true e = rw e refl
set_up_all x false e = rw e refl

set_up_calls : (x : ℕ) (b : Bool) → (3 == x) ≡ b → set_up.ev_ncalls x ≡ 0
unfolding event_set base_new priority_init blank gettime read_clock
set_up_calls x true e = rw e refl
set_up_calls x false e = rw e refl

set_up_counts : (set_up.stray ≡ 0) × (set_up.ncalls ≤ 1) × ((x : ℕ) → set_up.ev_ncalls x ≡ 0)
unfolding event_set base_new priority_init blank gettime read_clock
set_up_counts = (refl, omega arith, λ x. set_up_calls x (3 == x) refl)

abbrev result_of : Run (Status × Base ℕ) → Status × Base ℕ
result_of (done r) = r
result_of _ = (fail, fresh)

Ensures-result_of :
    {P : Status × Base ℕ → Type 0} (r : Run (Status × Base ℕ)) → Ensures P r → P (result_of r)
Ensures-result_of r (returns p) = p

-- Event 3 waits for its descriptor and for its timeout.
abbrev waiting : Base ℕ
waiting = (result_of (event_add toy set_up 3 (some tick))).1

waiting_lem : Added toy set_up 3 (some tick) (result_of (event_add toy set_up 3 (some tick)))
waiting_lem = Ensures-result_of _ (
    event_add-Added toy set_up 3 (some tick) toy_IsModest set_up_lem.0 set_up_lem.1 external
      set_up_plain)

waiting_mine : waiting.ev_base 3 ≡ true
waiting_mine = ap (λ f. f 3) waiting_lem.ev_base ∙ set_up_lem.1

event_del-idle_example :
    Ensures
      (λ r. IsValid r.1 × ((x : ℕ) → view r.1 x ≡ (if 3 == x then idle else view waiting x)))
      (event_del toy waiting 3)
event_del-idle_example = event_del-idle toy waiting 3 waiting_lem.valid waiting_mine

event_active-Fired_example :
    Ensures (Fired waiting 3 reading 2) (event_active toy waiting 3 reading 2)
event_active-Fired_example =
    event_active-Fired toy waiting 3 reading 2 waiting_lem.valid waiting_mine

timeout_process-Processed_example :
    Ensures (Processed toy (gettime toy waiting).0 waiting) (timeout_process toy waiting)
timeout_process-Processed_example =
    timeout_process-Processed toy waiting toy_clock waiting_lem.valid

waiting_times :
    (waiting.ev_timeout ≡ assign (λ e. timerclear) 3 (record { tv_sec = 3; tv_usec = 500000 }))
    × ((gettime toy waiting).0 ≡ record { tv_sec = 3; tv_usec = 0 })
    × (waiting.use_monotonic ≡ true)
    × (waiting.is_inserted ≡ assign (assign (λ e. false) 3 false) 3 true)
    × (waiting.ev_base ≡ assign (λ e. false) 3 true)
    × (waiting.is_internal ≡ assign (λ e. false) 3 false)
unfolding event_add add_reserved reserved reserve add_io sel_asked sel_added queue_insert insert_at
    add_timeout leave unfired scheduled gettime read_clock timeradd push push_reserved shift_up
    place elem_greater event_set base_new priority_init blank ctor timercmp_gt
waiting_times = (refl, refl, refl, refl, refl, refl)

waiting_whole : (x : ℕ) → (waiting.ev_timeout x).tv_usec < 1000000
waiting_whole x = rw waiting_times.0 (ground arith)

timeout_next-Waits_example : Waits toy (gettime toy waiting).0 waiting (timeout_next toy waiting).0
timeout_next-Waits_example =
    timeout_next-Waits toy waiting waiting_lem.valid waiting_whole
      (rw waiting_times.1 (omega arith))

-- Event 3 is active as well, to be called twice.
abbrev base_of : Run (Base ℕ) → Base ℕ
base_of (done b) = b
base_of _ = fresh

Ensures-base_of : {P : Base ℕ → Type 0} (r : Run (Base ℕ)) → Ensures P r → P (base_of r)
Ensures-base_of r (returns p) = p

abbrev firing : Base ℕ
firing = base_of (event_active toy waiting 3 reading 2)

firing_lem : Fired waiting 3 reading 2 firing
firing_lem =
    Ensures-base_of _ (event_active-Fired toy waiting 3 reading 2 waiting_lem.valid waiting_mine)

firing_counts :
    (firing.event_break ≡ false)
    × (firing.event_count_active ≡ 1)
    × (firing.use_monotonic ≡ true)
    × (firing.event_gotterm ≡ false)
    × (firing.timeheap.n ≡ 1)
unfolding event_active event_add add_reserved reserved reserve add_io sel_asked sel_added
    queue_insert insert_at add_timeout leave unfired scheduled gettime read_clock timeradd push
    push_reserved shift_up place elem_greater event_set base_new priority_init blank ctor
    timercmp_gt
firing_counts = (refl, refl, refl, refl, refl)

-- A callback that schedules its event again and asks the loop to end
abbrev busy : Env ℕ
busy = record toy { callback = λ b e what. op_add 3 (some tick) ∷ op_loopbreak ∷ [] }

busy_IsProper : IsProper busy waiting.ev_base waiting.is_internal
busy_IsProper = record {
  modest = toy_IsModest;
  clock = toy_clock;
  callback = λ b e what p q.
      ((waiting_mine, λ h. external (sym (ap (λ f. f 3) waiting_lem.is_internal) ∙ h)), (tt, tt));
  dispatch = λ b tv p q. tt;
}

-- Event 3 is active, to be called once.
abbrev due_once : Base ℕ
due_once = base_of (event_active toy waiting 3 reading 1)

due_once_lem : Fired waiting 3 reading 1 due_once
due_once_lem =
    Ensures-base_of _ (event_active-Fired toy waiting 3 reading 1 waiting_lem.valid waiting_mine)

due_once-IsRunning : IsRunning busy waiting.ev_base waiting.is_internal due_once
due_once-IsRunning = record {
  valid = due_once_lem.valid;
  ev_base = due_once_lem.ev_base;
  descriptors = λ x.
      ap (λ f. (f x).signal) due_once_lem.ev_events
      ∙ ap (λ f. (f x).signal) waiting_lem.ev_events
      ∙ set_up_all x (3 == x) refl;
  tidy =
      due_once_lem.tidy (omega arith)
        (waiting_lem.tidy (set_up_counts.0, set_up_counts.1, λ x. inl (set_up_counts.2 x)));
  is_internal = due_once_lem.is_internal;
  use_monotonic = due_once_lem.use_monotonic ∙ waiting_times.2;
}

firing_active : firing.event_count_active ≢ 0
firing_active p = omega (arith, firing_counts.1)

base_loop-Ended_example :
    Safe
      (Ended busy waiting.ev_base waiting.is_internal busy_IsProper)
      (base_loop busy 9 (record { once = false; nonblock = false }) due_once)
base_loop-Ended_example =
    base_loop-Ended busy waiting.ev_base waiting.is_internal busy_IsProper 9
      (record { once = false; nonblock = false }) due_once due_once-IsRunning

process_active-Emptied_example :
    (i : ℕ) × IsFirst firing.activequeues i
    × Ensures
        (Emptied toy (λ b e what. refl) i (get_or firing.activequeues i []) firing)
        (process_active toy 9 firing)
process_active-Emptied_example =
    process_active-Emptied toy (λ b e what. refl) 9 firing firing_lem.valid firing_counts.0
      firing_active (omega (arith, firing_counts.1))

-- A mere EV_TIMEOUT with NULL, which event.h describes as waiting forever
base_once-Once_example :
    Ensures
      (Once toy fresh 8 ev_timeout_bit none)
      (base_once toy fresh (some 8) none ev_timeout_bit none)
base_once-Once_example =
    base_once-Once toy fresh 8 none ev_timeout_bit none toy_IsModest
      (base_new-IsValid toy 0 (λ e. 0)).0 fresh_queues ((base_new-IsValid toy 0 (λ e. 0)).1 8)

waiting_based : (x : ℕ) → waiting.is_inserted x ≡ true → waiting.ev_base x ≡ true
waiting_based x p =
    rw waiting_times.4 (let q = ap (λ f. f x) (sym waiting_times.3) ∙ p in ground arith)

waiting_external :
    (b : Base ℕ) (x : ℕ) → b.is_internal ≡ waiting.is_internal → b.is_internal x ≡ true → ⊥
waiting_external b x q i =
    let p : assign (λ e. false) 3 false x ≡ true =
      ap (λ f. f x) (sym waiting_times.5 ∙ sym q) ∙ i in
    ground arith

base_free-idle_example :
    Ensures (λ b'. IsValid b' × ((x : ℕ) → view b' x ≡ idle)) (base_free toy (λ b. []) waiting)
base_free-idle_example =
    base_free-idle toy (λ b. []) waiting waiting_lem.valid waiting_based
      λ b' p q. ((λ x r. absurd (r refl)), λ x i. absurd (waiting_external b' x q i))

-- One look at the descriptors, and no wait
abbrev glance : LoopFlags
glance = record { once = false; nonblock = true }

base_loop-ends_example :
    Ensures
      (λ r. IsValid r.1 × (r.0 ≢ failed) × (r.0 ≡ exited → r.1.event_count_active ≡ 0))
      (base_loop toy 9 glance firing)
base_loop-ends_example =
    base_loop-ends toy (λ b e what. refl) (λ b tv. (refl, refl)) toy_clock 9 glance firing refl
      firing_lem.valid firing_counts.2 firing_counts.0 firing_counts.3
      (omega (arith, firing_counts.1, firing_counts.4))

-- A clock without a monotonic one, and a base that read it a second ago
abbrev wound_back : Env ℕ
wound_back = record toy { monotonic = λ k. none; wall = λ k. record { tv_sec = 1; tv_usec = 0 } }

abbrev ahead : Base ℕ
ahead = record waiting { event_tv = record { tv_sec = 2; tv_usec = 0 }; use_monotonic = false }

ahead_times :
    ((gettime wound_back ahead).0 ≡ record { tv_sec = 1; tv_usec = 0 })
    × (waiting.on_timeout ≡ assign (assign (λ e. false) 3 false) 3 true)
unfolding event_add add_reserved reserved reserve add_io sel_asked sel_added queue_insert insert_at
    add_timeout leave unfired scheduled gettime read_clock read_wall timeradd push push_reserved
    shift_up place elem_greater event_set base_new priority_init blank ctor timercmp_gt
ahead_times = (refl, refl)

ahead_late :
    (x : ℕ)
    → ahead.on_timeout x ≡ true
    → timercmp_gt (timersub ahead.event_tv (gettime wound_back ahead).0) (ahead.ev_timeout x)
      ≡ false
unfolding timersub timercmp_gt
ahead_late x p =
    let q = ap (λ f. f x) (sym ahead_times.1) ∙ p in
    let here : (3 == x) ≡ true = ground arith in rw (ahead_times.0, waiting_times.0, here) refl

timeout_correct-IsCorrected_example :
    IsCorrected wound_back ahead (timeout_correct wound_back ahead)
timeout_correct-IsCorrected_example =
    timeout_correct-IsCorrected wound_back ahead (quiet waiting_lem.valid) waiting_whole
      (omega arith) (rw ahead_times.0 (omega arith)) ahead_late

-- The first of two calls breaks the loop, and the event is deleted afterwards: a write through the
-- stale `ev_pncalls`.
abbrev broken_off : Base ℕ
broken_off = base_of (process_active busy 9 firing)

stale_write : (result_of (event_del busy broken_off 3)).1.stray ≡ 1
unfolding event_active event_add add_reserved reserved reserve add_io sel_asked sel_added
    queue_insert insert_at add_timeout leave unfired scheduled gettime read_clock timeradd push
    push_reserved shift_up place elem_greater event_set base_new priority_init blank ctor
    timercmp_gt process_active first_active run_queue called taken call_loop run_ops run_op
    event_del abort_calls uninserted queue_remove remove_from erase loopbreak shift_down elem_init
stale_write = refl
