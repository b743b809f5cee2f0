-- ===== src/Events/Io.antt =====
-- About the part of `event_add` of event.c on descriptors.
use study_libevent.Prelude.{
  ℕ, ◌≡◌, refl, sym, ap, subst, true, false, ◌&&◌, ◌||◌, not, ◌==◌, Ensures, Ensures-bind,
  Ensures-if, returns, arith, Status, ok, fail,
}
use study_libevent.Events.{Base, Env, is_io}
use study_libevent.Events.Calls.{sel_added, sel_asked, add_io}
use study_libevent.Events.Valid.{IsValid, quiet}
use study_libevent.Events.Frame.{Frame, framed}
use study_libevent.Events.Insert.{insert_inserted}

module _ {B : Type 0} (env : Env B) where
  -- The part on descriptors
  pub record AddedIo (b : Base B) (e : ℕ) (r : Status × Base B) : Type 0 where
    pub valid : IsValid r.1
    pub frame : Frame b r.1
    pub timeheap : r.1.timeheap ≡ b.timeheap
    pub on_timeout : r.1.on_timeout ≡ b.on_timeout
    pub is_active : r.1.is_active ≡ b.is_active
    pub on_ok :
        r.0 ≡ ok
        → (x : ℕ)
        → r.1.is_inserted x
          ≡ (b.is_inserted x || (e == x) && is_io (b.ev_events e) && not (b.is_active e))
    pub on_fail :
        r.0 ≡ fail
        → (r.1.is_inserted ≡ b.is_inserted)
          × ((env.sel_add b.evbase e (b.ev_fd e) (b.ev_events e)).0 ≡ fail)

  sel_added-AddedIo :
      (b : Base B) (e : ℕ) (answer : Status × B)
      → IsValid b
      → env.sel_add b.evbase e (b.ev_fd e) (b.ev_events e) ≡ answer
      → is_io (b.ev_events e) ≡ true
      → b.is_inserted e ≡ false
      → b.is_active e ≡ false
      → Ensures (AddedIo b e) (sel_added env b e answer)
  unfolding sel_added
  sel_added-AddedIo b e (fail, s) v z io i a = returns (record {
    valid = quiet v;
    frame = framed;
    timeheap = refl;
    on_timeout = refl;
    is_active = refl;
    on_ok = λ p. cc;
    on_fail = λ _. (refl, ap (λ r. r.0) z);
  })
  sel_added-AddedIo b e (ok, s) v z io i a =
      Ensures-bind (insert_inserted env (record b { evbase = s }) e (quiet v) i) λ b' (v', same).
        returns (
          subst (λ c. AddedIo b e (ok, c)) (sym same)
            (record {
              valid = subst IsValid same v';
              frame = framed;
              timeheap = refl;
              on_timeout = refl;
              is_active = refl;
              on_ok = λ _ x. rw (io, a) (ground (arith, i));
              on_fail = λ p. cc;
            }))

  pub add_io-AddedIo :
      (b : Base B) (e : ℕ)
      → IsValid b
      → (b.ev_events e).signal ≡ false
      → Ensures (AddedIo b e) (add_io env b e)
  unfolding add_io sel_asked
  add_io-AddedIo b e v d =
      Ensures-if (is_io (b.ev_events e) && not (b.is_inserted e || b.is_active e))
        (λ t.
          Ensures-if (b.ev_events e).signal (λ s. absurd (ground (arith, d)))
            λ _.
              sel_added-AddedIo b e (env.sel_add b.evbase e (b.ev_fd e) (b.ev_events e)) v refl
                (ground (arith, t)) (ground (arith, t)) (ground (arith, t)))
        λ t. returns (record {
          valid = v;
          frame = framed;
          timeheap = refl;
          on_timeout = refl;
          is_active = refl;
          on_ok = λ _ x. ground (arith, t);
          on_fail = λ p. cc;
        })
