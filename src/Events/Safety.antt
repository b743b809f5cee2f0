-- ===== src/Events/Safety.antt =====
-- About `event_process_active` and `event_base_loop` of event.c, with callbacks that call the library.
use study_libevent.Prelude.{
  ◌≤◌, ℕ, ◌≡◌, ◌≢◌, sym, ap, ◌∙◌, List, [], ◌∷◌, Bool, true, false, All, Ensures, Ensures-bind,
  Ensures-map, returns, Option, none,
}
use study_libevent.Events.Frame.{IsTidy}
use study_libevent.MinHeap.{Timeval}
use study_libevent.Events.{Base, Env, What, Op, op_add, op_del, op_active, op_loopbreak, op_gotterm}
use study_libevent.Events.Calls.{loopbreak}
use study_libevent.Events.Loop.{run_op, run_ops}
use study_libevent.Events.Valid.{IsValid, quiet}
use study_libevent.Events.Delete.{event_del-Left}
use study_libevent.Events.Activate.{event_active-Fired}
use study_libevent.Events.Add.{event_add-Added}
use study_libevent.Events.Reserve.{IsModest}

-- A call on events of the base; an internal event gets no timeout, and an event is activated for one
-- call at most.
abbrev pub IsUsable : (ℕ → Bool) → (ℕ → Bool) → Op → Type 0
IsUsable mine internal (op_add e tv) = (mine e ≡ true) × (internal e ≡ true → tv ≡ none)
IsUsable mine internal (op_del e) = mine e ≡ true
IsUsable mine internal (op_active e res n) = (mine e ≡ true) × (n ≤ 1)
IsUsable mine internal op_loopbreak = Unit
IsUsable mine internal op_gotterm = Unit

module _ {B : Type 0} (env : Env B) (mine internal : ℕ → Bool) where
  -- The events of the base are `mine`, none of them waits for a signal or
  -- for more than one call, and the invariant holds.
  pub record IsRunning (b : Base B) : Type 0 where
    pub valid : IsValid b
    pub ev_base : b.ev_base ≡ mine
    pub descriptors : (x : ℕ) → (b.ev_events x).signal ≡ false
    pub tidy : IsTidy b
    pub is_internal : b.is_internal ≡ internal
    pub use_monotonic : b.use_monotonic ≡ true

  -- Callbacks and the back end call the library for events of the base, malloc gives no block of
  -- 2 ^ 31 slots, and the monotonic clock answers.
  pub record IsProper : Type 0 where
    pub modest : IsModest env.realloc
    pub clock : (k : ℕ) → env.monotonic k ≢ none
    pub callback :
        (b : Base B) (e : ℕ) (what : What)
        → b.ev_base ≡ mine
        → b.is_internal ≡ internal
        → All (IsUsable mine internal) (env.callback b e what)
    pub dispatch :
        (b : Base B) (tv : Option Timeval)
        → b.ev_base ≡ mine
        → b.is_internal ≡ internal
        → All (IsUsable mine internal) (env.dispatch b tv).1

  module _ (proper : IsProper) where
    run_op-IsRunning :
        (op : Op) (b : Base B)
        → IsRunning b
        → IsUsable mine internal op
        → Ensures IsRunning (run_op env op b)
    unfolding run_op loopbreak
    run_op-IsRunning (op_add e tv) b v (m, i) =
        Ensures-bind
          (event_add-Added env b e tv proper.modest v.valid (ap (λ f. f e) v.ev_base ∙ m)
            (λ p. i (ap (λ f. f e) (sym v.is_internal) ∙ p)) (v.descriptors e))
          λ r w. returns (record {
            valid = w.valid;
            ev_base = w.ev_base ∙ v.ev_base;
            descriptors = λ x. ap (λ f. (f x).signal) w.ev_events ∙ v.descriptors x;
            tidy = w.tidy v.tidy;
            is_internal = w.is_internal ∙ v.is_internal;
            use_monotonic = w.clock proper.clock ∙ v.use_monotonic;
          })
    run_op-IsRunning (op_del e) b v m =
        Ensures-bind (event_del-Left env b e v.valid (ap (λ f. f e) v.ev_base ∙ m)) λ r w.
          returns (record {
            valid = w.valid;
            ev_base = w.frame.ev_base ∙ v.ev_base;
            descriptors = λ x. ap (λ f. (f x).signal) w.frame.ev_events ∙ v.descriptors x;
            tidy = w.frame.tidy v.tidy;
            is_internal = w.frame.is_internal ∙ v.is_internal;
            use_monotonic = w.frame.use_monotonic ∙ v.use_monotonic;
          })
    run_op-IsRunning (op_active e res n) b v (m, few) =
        Ensures-map (event_active-Fired env b e res n v.valid (ap (λ f. f e) v.ev_base ∙ m)) λ b' w.
          record {
            valid = w.valid;
            ev_base = w.ev_base ∙ v.ev_base;
            descriptors = λ x. ap (λ f. (f x).signal) w.ev_events ∙ v.descriptors x;
            tidy = w.tidy few v.tidy;
            is_internal = w.is_internal ∙ v.is_internal;
            use_monotonic = w.use_monotonic ∙ v.use_monotonic;
          }
    run_op-IsRunning op_loopbreak b v m = returns (record {
      valid = quiet v.valid;
      ev_base = v.ev_base;
      descriptors = v.descriptors;
      tidy = v.tidy;
      is_internal = v.is_internal;
      use_monotonic = v.use_monotonic;
    })
    run_op-IsRunning op_gotterm b v m = returns (record {
      valid = quiet v.valid;
      ev_base = v.ev_base;
      descriptors = v.descriptors;
      tidy = v.tidy;
      is_internal = v.is_internal;
      use_monotonic = v.use_monotonic;
    })

    pub run_ops-IsRunning :
        (ops : List Op) (b : Base B)
        → IsRunning b
        → All (IsUsable mine internal) ops
        → Ensures IsRunning (run_ops env ops b)
    unfolding run_ops
    run_ops-IsRunning [] b v h = returns v
    run_ops-IsRunning (op ∷ ops) b v h =
        Ensures-bind (run_op-IsRunning op b v h.0) λ b' w. run_ops-IsRunning ops b' w h.1
