-- ===== src/Events/Free.antt =====
-- `event_base_free` of event.c up to its calls of `free`.
--
-- `dealloc` lists the events that the back end deletes when it is closed. The count of the deleted
-- events is left out: it is only printed.
pub mod Shrunk
pub mod Idle
use study_libevent.Prelude.{
  ℕ, zero, suc, ◌+◌, ◌≤◌, ◌<◌, ◌≡◌, ◌≢◌, ◌⊎◌, refl, ap, ◌∙◌, subst, List, [], ◌∷◌, Bool, Bool-cases,
  Option-cases, inl, inr, true, false, ◌&&◌, ◌==◌, ==_iff, if◌then◌else◌, length, get_or, bit,
  occurrences, Run, done, aborted, stuck, ◌>>=◌, Ensures, Ensures-bind, Ensures-map, Ensures-if,
  Ensures-and, returns, arith, Option, none, some,
}
use study_libevent.MinHeap.{Timeval, slot, top, empty}
use study_libevent.Events.{Base, Env}
use study_libevent.Events.Calls.{event_del}
use study_libevent.Events.Valid.{IsValid}
use study_libevent.Events.Delete.{View, view, idle, event_del-Left, event_del-idle}
use study_libevent.Events.Setup.{untimed_idle}
use study_libevent.Events.Timeouts.{TopIs, top-TopIs}

unfoldable pub all_empty : List (List ℕ) → Bool
all_empty [] = true
all_empty ([] ∷ queues) = all_empty queues
all_empty ((e ∷ es) ∷ queues) = false

module _ {B : Type 0} (env : Env B) where
  -- `event_del` of the events of a list that are not to be skipped
  unfoldable pub delete_each : (ℕ → Bool) → List ℕ → Base B → Run (Base B)
  delete_each skip [] b = done b
  delete_each skip (e ∷ es) b =
      let deleted : Run (Base B) = event_del env b e >>= λ r. delete_each skip es r.1 in
      let kept = delete_each skip es b in if skip e then kept else deleted

  -- `while ((ev = min_heap_top(&base->timeheap)) != NULL) event_del(ev);`
  unfoldable pub delete_timers : ℕ → Base B → Run (Base B)
  delete_timers zero b = stuck
  delete_timers (suc fuel) b = elim (top b.timeheap) [
    | none ↦ done b
    | some e ↦ event_del env b e >>= λ r. delete_timers fuel r.1
  ]

  -- The loop over `n` of the active queues, from `i` on
  unfoldable pub delete_queues : ℕ → ℕ → Base B → Run (Base B)
  delete_queues zero i b = done b
  delete_queues (suc n) i b =
      delete_each b.is_internal (get_or b.activequeues i []) b >>= delete_queues n (i + 1)

  -- The asserts behind `dealloc`
  unfoldable pub checked : Base B → Run (Base B)
  checked b =
      let queue = b.eventqueue in
      if all_empty b.activequeues && empty b.timeheap && (length queue == 0)
      then done b
      else aborted

  unfoldable pub base_free : (Base B → List ℕ) → Base B → Run (Base B)
  base_free dealloc b = delete_each b.is_internal b.eventqueue b >>= λ b1.
      delete_timers (b1.timeheap.n + 1) b1 >>= λ b2.
      delete_queues (length b2.activequeues) 0 b2 >>= λ b3.
      delete_each (λ e. false) (dealloc b3) b3 >>= checked
