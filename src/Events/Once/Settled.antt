-- ===== src/Events/Once/Settled.antt =====
-- About `event_set` and `event_base_set` of event.c on an idle event.
use study_libevent.Prelude.{
  ℕ, ◌≡◌, ◌≢◌, refl, ap, [], Bool, true, false, ◌&&◌, ◌||◌, not, ◌==◌, ==_iff, ◌/◌, assign, length,
  arith, Option, none, some, ok,
}
use study_libevent.MinHeap.{Timeval}
use study_libevent.Events.{Base, Env, What, is_io, timeradd, gettime}
use study_libevent.Events.Calls.{event_set, base_set}
use study_libevent.Events.Valid.{IsValid}
use study_libevent.Events.Delete.{View, view, idle}
use study_libevent.Events.Setup.{event_set-IsValid, has_length}
use study_libevent.Events.Timer.{gettime_cong}

abbrev pub seen : Bool → Bool → Option Timeval → View
seen inserted active timer = record { inserted = inserted; active = active; timer = timer }

pub seen_cong :
    {i j a c : Bool} {t u : Option Timeval} → i ≡ j → a ≡ c → t ≡ u → seen i a t ≡ seen j c u
seen_cong p q r = rw (p, q, r) refl

module _ {B : Type 0} where
  -- The priority of an idle event may change.
  rebased :
      (b : Base B) (e : ℕ)
      → IsValid b
      → b.activequeues ≢ []
      → b.is_active e ≡ false
      → IsValid (record b {
        ev_base = assign b.ev_base e true;
        ev_pri = assign b.ev_pri e (length b.activequeues / 2);
      })
  rebased b e v some_queue rest =
      let some_length = has_length b.activequeues some_queue in
      record {
        timed = v.timed;
        inserted = v.inserted;
        active = λ x k. ground (arith, v.active x k);
        actives = v.actives;
        priority = λ x p. ground (arith, v.priority x);
        based = λ x p. ground (arith, v.based x);
        untimed = v.untimed;
        counted = v.counted;
      }

  -- An event just set, with its base set
  abbrev pub settled : Base B → ℕ → Option ℕ → What → Base B
  settled b e fd w =
      let b1 = event_set b e fd w in
      record b1 {
        ev_base = assign b1.ev_base e true;
        ev_pri = assign b1.ev_pri e (length b1.activequeues / 2);
      }

  pub base_set-event_set :
      (b : Base B) (e : ℕ) (fd : Option ℕ) (w : What)
      → base_set (event_set b e fd w) e ≡ (ok, settled b e fd w)
  unfolding base_set event_set
  base_set-event_set b e fd w = let self : (e == e) ≡ true = (==_iff e e).1 refl in rw self refl

  pub settled_lem :
      (b : Base B) (e : ℕ) (fd : Option ℕ) (w : What)
      → let b2 = settled b e fd w in
        (b2.is_internal e ≡ false)
        × (b2.is_active e ≡ false)
        × (b2.is_inserted e ≡ false)
        × (b2.ev_events e ≡ w)
        × (b2.ev_base e ≡ true)
  unfolding event_set
  settled_lem b e fd w =
      let self : (e == e) ≡ true = (==_iff e e).1 refl in
      (rw self refl, rw self refl, rw self refl, rw self refl, rw self refl)

  pub settled-IsValid :
      (b : Base B) (e : ℕ) (fd : Option ℕ) (w : What)
      → IsValid b
      → b.activequeues ≢ []
      → view b e ≡ idle
      → IsValid (settled b e fd w)
  unfolding event_set
  settled-IsValid b e fd w v some_queue calm =
      rebased (event_set b e fd w) e (event_set-IsValid b e fd w v some_queue calm).0 some_queue
        (settled_lem b e fd w).1

  module _ (env : Env B) where
    settled_time :
        (b : Base B) (e : ℕ) (fd : Option ℕ) (w : What)
        → (gettime env (settled b e fd w)).0 ≡ (gettime env b).0
    unfolding event_set
    settled_time b e fd w = gettime_cong env b (settled b e fd w) refl refl refl

    inserted_as :
        (b : Base B) (e : ℕ) (fd : Option ℕ) (w : What)
        → let b2 = settled b e fd w in
          (b2.is_inserted e || is_io (b2.ev_events e) && not (b2.is_active e)) ≡ is_io w
    inserted_as b e fd w =
        let (external, rest, out, events, mine) = settled_lem b e fd w in
        ground (arith, ap is_io events)

    pub view-settled :
        (b : Base B) (e : ℕ) (fd : Option ℕ) (w : What) (tv : Option Timeval)
        → view (settled b e fd w) e ≡ idle
        → let b2 = settled b e fd w in
          let res = b2.ev_res e in
          seen
            (b2.is_inserted e || is_io (b2.ev_events e) && not (b2.is_active e))
            (elim tv [ none ↦ b2.is_active e | some t ↦ b2.is_active e && not res.by_time ])
            (elim tv [ none ↦ (view b2 e).timer | some t ↦ some (timeradd (gettime env b2).0 t) ])
          ≡ seen
              (is_io w)
              false
              (elim tv [ none ↦ none | some t ↦ some (timeradd (gettime env b).0 t) ])
    view-settled b e fd w none calm =
        seen_cong (inserted_as b e fd w) (settled_lem b e fd w).1 (ap (λ u. u.timer) calm)
    view-settled b e fd w (some t) calm =
        seen_cong (inserted_as b e fd w) (let rest = (settled_lem b e fd w).1 in ground arith)
          (ap (λ now. some (timeradd now t)) (settled_time b e fd w))
