-- ===== src/Evbuffer/Add.antt =====
-- About `evbuffer_add`, `evbuffer_drain` and `evbuffer_remove` of buffer.c.
use study_libevent.Prelude.{
  false, ℕ, ◌+◌, ◌-◌, ◌≤◌, ◌<◌, ◌≡◌, ◌≢◌, refl, Option, none, some, length, arith, ap, take, drop,
  drop_all, take_all, ltb, leb, ◌==◌, List, [], ◌∷◌, ◌++◌, append-nil, Status, ok, fail, Ensures,
  Ensures-if, Ensures-bind, Ensures-map, returns, sym, if◌then◌else◌, Bool-cases, ==_iff, leb→le,
  ◌∙◌, ◌⊎◌, inl, inr,
}
use study_libevent.Prelude.Memory.{window, window-write, length-write, drop-window, take-window}
use study_libevent.Evbuffer.{
  Evbuffer, Call, Realloc, size_max, contents, add_size, sub_size, store, append, appended, add,
  drain, remove, notify, notify_change, advance,
}
use study_libevent.Evbuffer.Valid.{
  IsValid, SameView, SameView-refl, length-contents, notify-IsValid, contents-notify,
}
use study_libevent.Evbuffer.Grow.{Expanded, expand-Expanded}

-- The calls that a change of the length from `m` to `n` is to make.
abbrev pub report : Option ℕ → ℕ → ℕ → List Call
report none m n = []
report (some k) m n = if m == n then [] else (k, m, n) ∷ []

-- The callback stays, and is told once of a change of the length, and of nothing else.
pub record Reported (b b' : Evbuffer) : Type 0 where
  pub cb : b'.cb ≡ b.cb
  pub calls : b'.calls ≡ b.calls ++ report b.cb b.off b'.off

report_same : (o : Option ℕ) (m : ℕ) (calls : List Call) → calls ≡ calls ++ report o m m
report_same none m calls = sym (append-nil calls)
report_same (some k) m calls = rw ((==_iff m m).1 refl) (sym (append-nil calls))

pub Reported-refl : (b : Evbuffer) → Reported b b
Reported-refl b = record { cb = refl; calls = report_same b.cb b.off b.calls }

notify-report :
    (b : Evbuffer) (m n : ℕ)
    → m ≢ n
    → ((notify b m n).cb ≡ b.cb)
      × ((notify b m n).calls ≡ b.calls ++ report b.cb m n)
      × ((notify b m n).off ≡ b.off)
unfolding notify
notify-report b m n h = ground (arith, append-nil b.calls)

-- `c` differs from `b` in its bytes, and the callback has not been told.
module _ (b c : Evbuffer) (v : IsValid c) (cb : c.cb ≡ b.cb) (calls : c.calls ≡ b.calls) where
  pub notify_change-Reported :
      IsValid (notify_change c b.off)
      × (contents (notify_change c b.off) ≡ contents c)
      × Reported b (notify_change c b.off)
  unfolding notify_change
  notify_change-Reported = elim (Bool-cases (c.off == b.off)) [
    | inl e ↦ rw e (
      v,
      refl,
      record {
        cb = cb;
        calls =
            calls
            ∙ report_same b.cb b.off b.calls
            ∙ ap (λ k. b.calls ++ report b.cb b.off k) (sym ((==_iff _ _).0 e));
      },
    )
    | inr e ↦ rw e (
      notify-IsValid b.off c.off v,
      contents-notify c b.off c.off,
      record {
        cb = (told (ground arith)).0 ∙ cb;
        calls = rw ((told (ground arith)).1, (told (ground arith)).2, cb, calls);
      },
    )
  ]
    where
      told :
          b.off ≢ c.off
          → ((notify c b.off c.off).cb ≡ c.cb)
            × ((notify c b.off c.off).calls ≡ c.calls ++ report c.cb b.off c.off)
            × ((notify c b.off c.off).off ≡ c.off)
      told = notify-report c b.off c.off

-- `evbuffer_drain` drops bytes from the front.
pub record Drained (b : Evbuffer) (n : ℕ) (b' : Evbuffer) : Type 0 where
  pub valid : IsValid b'
  pub bytes : contents b' ≡ drop n (contents b)
  pub reported : Reported b b'

advance-IsValid : (b : Evbuffer) (n : ℕ) → IsValid b → IsValid (advance b n)
unfolding advance
advance-IsValid b n v = ground arith

contents-advance : (b : Evbuffer) (n : ℕ) → IsValid b → contents (advance b n) ≡ drop n (contents b)
unfolding advance
contents-advance b n v = elim (Bool-cases (leb b.off n)) [
  | inl e ↦
      rw e (sym (drop_all n (contents b) (omega (arith, length-contents v, leb→le b.off n e))))
  | inr e ↦
      let less : sub_size b.off n ≡ b.off - n = ground arith in
      let split : b.off ≡ n + (b.off - n) = ground arith in
      rw (e, less)
        (sym (
          ap (λ k. drop n (window b.buffer k b.memory)) split
          ∙ drop-window n b.buffer (b.off - n) b.memory))
]

advance-kept : (b : Evbuffer) (n : ℕ) → ((advance b n).cb ≡ b.cb) × ((advance b n).calls ≡ b.calls)
unfolding advance
advance-kept b n = ground arith

-- For a valid buffer, `evbuffer_drain` leaves a valid buffer without its first `n` bytes (without
-- any if it has fewer); the callback is told once if the length changed and not otherwise.
pub drain-Drained : (b : Evbuffer) (n : ℕ) → IsValid b → Drained b n (drain b n)
unfolding drain
drain-Drained b n v =
    let (cb, calls) = advance-kept b n in
    let (v', bytes, r) = notify_change-Reported b (advance b n) (advance-IsValid b n v) cb calls in
    record { valid = v'; bytes = bytes ∙ contents-advance b n v; reported = r }

-- What `evbuffer_add` leaves: the bytes behind the old ones if it returns 0, the old ones if not.
pub record Added (realloc : Realloc) (b : Evbuffer) (bytes : List ℕ) (r : Status × Evbuffer)
    : Type 0 where
  pub valid : IsValid r.1
  pub stored : r.0 ≡ ok → contents r.1 ≡ contents b ++ bytes
  pub kept : r.0 ≡ fail → contents r.1 ≡ contents b
  pub reported : Reported b r.1
  pub refused :
      r.0 ≡ fail
      → (size_max < b.off + length bytes) ⊎ ((size : ℕ) × (size ≤ size_max) × (realloc size ≡ none))

-- What fits is stored behind the old bytes.
pub store_lem :
    (b : Evbuffer) (bytes : List ℕ)
    → IsValid b
    → b.misalign + b.off + length bytes ≤ b.totallen
    → IsValid (store b bytes)
      × (contents (store b bytes) ≡ contents b ++ bytes)
      × ((store b bytes).off ≡ b.off + length bytes)
unfolding store
store_lem b bytes v h =
    let room : b.buffer + b.off + length bytes ≤ length b.memory = omega arith in
    let wide : add_size b.off (length bytes) ≡ b.off + length bytes = omega arith in
    (
      ground (arith, length-write (b.buffer + b.off) bytes b.memory room),
      rw wide (window-write b.buffer b.off bytes b.memory room),
      wide,
    )

append-eq-notify_change :
    (b : Evbuffer) (bytes : List ℕ)
    → (store b bytes).off ≡ b.off + length bytes
    → append b bytes ≡ notify_change (store b bytes) b.off
unfolding append notify_change
append-eq-notify_change b bytes e = elim (Bool-cases (length bytes == 0)) [
  | inl z ↦ rw (z, (==_iff (store b bytes).off b.off).1 (ground arith))
  | inr z ↦ let ne : ((store b bytes).off == b.off) ≡ false = ground arith in rw (z, ne)
]

append-Added :
    (b : Evbuffer) (bytes : List ℕ)
    → IsValid b
    → b.misalign + b.off + length bytes ≤ b.totallen
    → IsValid (append b bytes)
      × (contents (append b bytes) ≡ contents b ++ bytes)
      × Reported b (append b bytes)
append-Added b bytes v h =
    let (v', stored, off) = store_lem b bytes v h in
    let (v'', same, r) =
      notify_change-Reported b (store b bytes) v' (unfold store in refl) (unfold store in refl) in
    rw (append-eq-notify_change b bytes off) (v'', same ∙ stored, r)

-- The bytes that a buffer with the same view holds, and what its callback was told.
pub Reported-SameView : {b c d : Evbuffer} → SameView b c → Reported c d → Reported b d
Reported-SameView {b} {c} {d} s r = record {
  cb = r.cb ∙ s.cb;
  calls = rw (← s.cb, ← s.off, ← s.calls) r.calls;
}

appended-Added :
    (realloc : Realloc) (b : Evbuffer) (bytes : List ℕ) (r : Status × Evbuffer)
    → Expanded realloc b (length bytes) r
    → Ensures (Added realloc b bytes) (appended bytes r)
unfolding appended
appended-Added realloc b bytes (ok, c) e =
    let (v, stored, r) = append-Added c bytes e.valid (e.room refl) in
    returns (record {
      valid = v;
      stored = λ _. stored ∙ ap (λ xs. xs ++ bytes) e.same.bytes;
      kept = λ p. cc;
      reported = Reported-SameView e.same r;
      refused = λ p. cc;
    })
appended-Added realloc b bytes (fail, c) e = returns (record {
  valid = e.valid;
  stored = λ p. cc;
  kept = λ _. e.same.bytes;
  reported = Reported-SameView e.same (Reported-refl c);
  refused = e.refused;
})

-- For a valid buffer, `evbuffer_add` returns (no assert fails) and leaves a valid buffer: with 0
-- the given bytes stand behind the old ones, with -1 the old bytes are unchanged; the callback is
-- told once if the length changed and not otherwise; -1 is returned only where the total exceeds
-- `size_max` or `realloc` refused a size.
pub add-Added :
    (realloc : Realloc) (b : Evbuffer) (bytes : List ℕ)
    → IsValid b
    → Ensures (Added realloc b bytes) (add realloc b bytes)
unfolding add
add-Added realloc b bytes v =
    Ensures-bind
      (Ensures-if (ltb (sub_size b.totallen (add_size b.misalign b.off)) (length bytes))
        (λ _. expand-Expanded realloc b (length bytes) v)
        (λ e. returns (record {
          valid = v;
          same = SameView-refl b;
          room = λ _. ground arith;
          refused = λ p. cc;
        })))
      (appended-Added realloc b bytes)

-- For a valid buffer, `evbuffer_remove` hands out its first `n` bytes, or all where there are
-- fewer, and leaves a valid buffer of the others; the callback is told once if the length changed
-- and not otherwise.
pub remove_lem :
    (b : Evbuffer) (n : ℕ)
    → IsValid b
    → ((remove b n).0 ≡ take n (contents b))
      × (contents (remove b n).1 ≡ drop n (contents b))
      × IsValid (remove b n).1
      × Reported b (remove b n).1
unfolding remove
remove_lem b n v = elim (Bool-cases (leb b.off n)) [
  | inl e ↦
      let d = drain-Drained b b.off v in
      let short : length (contents b) ≤ n = omega (arith, length-contents v, leb→le b.off n e) in
      rw e (
        sym (take_all n (contents b) short),
        d.bytes
            ∙ drop_all b.off (contents b) (omega (arith, length-contents v))
            ∙ sym (drop_all n (contents b) short),
        d.valid,
        d.reported,
      )
  | inr e ↦
      let d = drain-Drained b n v in
      rw e
        (sym (take-window n b.buffer b.off b.memory (ground arith)), d.bytes, d.valid, d.reported)
]

-- `realloc` never answers NULL.
abbrev pub Grants : Realloc → Type 0
Grants realloc = (size : ℕ) → realloc size ≢ none

-- For a valid buffer, where `realloc` never refuses and the total is at most `size_max`,
-- `evbuffer_add` returns 0 and leaves a valid buffer with the given bytes behind the old ones.
pub add-stored :
    (realloc : Realloc) (b : Evbuffer) (bytes : List ℕ)
    → IsValid b
    → Grants realloc
    → b.off + length bytes ≤ size_max
    → Ensures
        (λ r. (r.0 ≡ ok) × IsValid r.1 × (contents r.1 ≡ contents b ++ bytes))
        (add realloc b bytes)
add-stored realloc b bytes v grants fits =
    Ensures-map (add-Added realloc b bytes v) λ r a. stored_of r a
  where
    stored_of :
        (r : Status × Evbuffer)
        → Added realloc b bytes r
        → (r.0 ≡ ok) × IsValid r.1 × (contents r.1 ≡ contents b ++ bytes)
    stored_of (ok, c) a = (refl, a.valid, a.stored refl)
    stored_of (fail, c) a = absurd (granted (a.refused refl))
      where
        granted :
            (size_max < b.off + length bytes)
              ⊎ ((size : ℕ) × (size ≤ size_max) × (realloc size ≡ none))
            → ⊥
        granted (inl over) = omega arith
        granted (inr (size, le, null)) = grants size null
