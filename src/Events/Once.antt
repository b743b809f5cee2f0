-- ===== src/Events/Once.antt =====
-- `event_base_once` of event.c.
--
-- `block` is what calloc answers: the event of the new structure, or NULL. A structure that is
-- freed keeps its fields here. `event_once_cb` frees the structure behind the callback.
pub mod Settled
pub mod Outcome
use study_libevent.Prelude.{
  ℕ, ◌≡◌, ◌≢◌, refl, sym, ap, ◌∙◌, subst, [], Bool, true, false, ◌&&◌, ◌||◌, not, ◌==◌, ==_iff, ◌/◌,
  assign, length, if◌then◌else◌, Run, done, Ensures, Ensures-map, Ensures-if, returns, arith,
  Option, none, some, Status, ok, fail,
}
use study_libevent.MinHeap.{Timeval}
use study_libevent.Events.{Base, Env, What, nothing, is_io, timerclear, timeradd, gettime}
use study_libevent.Events.Calls.{event_set, base_set, event_add}
use study_libevent.Events.Valid.{IsValid}
use study_libevent.Events.Delete.{View, view, idle}
use study_libevent.Events.Setup.{event_set-IsValid, has_length}
use study_libevent.Events.Timer.{gettime_cong}
use study_libevent.Events.Add.{event_add-Added}
use study_libevent.Events.Reserve.{IsModest}

-- `events == EV_TIMEOUT`
abbrev pub is_timer : What → Bool
is_timer w = w.by_time && not (w.readable || w.writable || w.signal || w.persist)

-- `events & (EV_READ|EV_WRITE)`
abbrev pub transfers : What → What
transfers w = record nothing { readable = w.readable; writable = w.writable }

module _ {B : Type 0} (env : Env B) where
  -- `event_add`, where `event_base_set` answered 0
  unfoldable pub once_added : ℕ → Option Timeval → Status × Base B → Run (Status × Base B)
  once_added e tv (fail, b) = done (fail, b)
  once_added e tv (ok, b) = event_add env b e tv

  unfoldable pub once_set : ℕ → Option Timeval → Base B → Run (Status × Base B)
  once_set e tv b = once_added e tv (base_set b e)

  -- The part of `event_base_once` that has the structure
  unfoldable pub once_with : Base B → ℕ → Option ℕ → What → Option Timeval → Run (Status × Base B)
  once_with b e fd events tv =
      let until : Timeval = elim tv [ none ↦ timerclear | some t ↦ t ] in
      if is_timer events
      then once_set e (some until) (event_set b e none nothing)
      else if events.readable || events.writable
      then once_set e tv (event_set b e fd (transfers events))
      else done (fail, b)

  unfoldable pub base_once :
      Base B → Option ℕ → Option ℕ → What → Option Timeval → Run (Status × Base B)
  base_once b block fd events tv =
      if events.signal
      then done (fail, b)
      else elim block [ none ↦ done (fail, b) | some e ↦ once_with b e fd events tv ]
