-- ===== src/Http/Write.antt =====
-- `evhttp_add_event` and `evhttp_write_buffer` of http.c: a connection schedules its output on the
-- event loop.
--
-- The connection's base is the base of the event loop. `fd` is none for -1, and `timeout` for -1; other
-- negative values are left out.
pub mod Scheduled
use study_libevent.Prelude.{
  ℕ, zero, suc, Bool, true, ◌||◌, Option, none, some, if◌then◌else◌, Run, done, ◌>>=◌,
}
use study_libevent.MinHeap.{Timeval}
use study_libevent.Events.{Base, Env, What, nothing}
use study_libevent.Events.Calls.{event_set, base_set, pending, event_add, event_del}

-- The fields of `struct evhttp_connection` for its event: `has_base` says that its `base` is not NULL.
pub record Connection (B : Type 0) : Type 0 where
  pub base : Base B
  pub ev : ℕ
  pub fd : Option ℕ
  pub timeout : Option ℕ
  pub has_base : Bool

abbrev pub http_write_timeout : ℕ
http_write_timeout = 50

-- The `tv` of `evhttp_add_event`, none for NULL
pub event_timeout : Option ℕ → ℕ → Option Timeval
event_timeout none default = some (record { tv_sec = default; tv_usec = 0 })
event_timeout (some zero) default = none
event_timeout (some (suc n)) default = some (record { tv_sec = suc n; tv_usec = 0 })

-- EV_WRITE, and EV_WRITE|EV_TIMEOUT
abbrev pub write_only : What
write_only = record nothing { writable = true }

abbrev write_or_timeout : What
write_or_timeout = record nothing { writable = true; by_time = true }

module _ {B : Type 0} where
  -- `event_pending(&evcon->ev, EV_WRITE|EV_TIMEOUT, NULL)` is not 0.
  pub is_writing : Connection B → Bool
  is_writing evcon =
      let bits = pending evcon.base evcon.ev write_or_timeout in bits.by_time || bits.writable

  -- `evhttp_add_event` on the event of the connection; the result of `event_add` is ignored.
  pub add_event : Env B → Connection B → ℕ → Run (Connection B)
  add_event env evcon default =
      event_add env evcon.base evcon.ev (event_timeout evcon.timeout default) >>= λ r.
      done (record evcon { base = r.1 })

  -- `event_set` for writing, and EVHTTP_BASE_SET
  pub set_writing : Connection B → Connection B
  set_writing evcon =
      let b = event_set evcon.base evcon.ev evcon.fd write_only in
      record evcon { base = if evcon.has_base then (base_set b evcon.ev).1 else b }

  -- `evhttp_write_buffer` but for the callback of the connection
  pub write_event : Env B → Connection B → Run (Connection B)
  write_event env evcon =
      let deleted : Run (Connection B) =
        (event_del env evcon.base evcon.ev >>= λ r. done (record evcon { base = r.1 })) in
      (if is_writing evcon then deleted else done evcon) >>= λ c.
      add_event env (set_writing c) http_write_timeout
