-- ===== src/Events/Free/Idle.antt =====
-- About `event_base_free` of event.c: its asserts hold.
use study_libevent.Prelude.{
  ℕ, suc, ◌+◌, ◌≡◌, ◌≢◌, ◌⊎◌, refl, ap, ◌∙◌, List, [], ◌∷◌, Bool, Bool-cases, inl, inr, true, false,
  ◌&&◌, ◌==◌, length, get_or, bit, occurrences, Ensures, Ensures-bind, Ensures-if, returns, arith,
  Option, none,
}
use study_libevent.MinHeap.{Timeval, slot, empty}
use study_libevent.Events.{Base, Env}
use study_libevent.Events.Valid.{IsValid}
use study_libevent.Events.Delete.{view, idle}
use study_libevent.Events.Setup.{untimed_idle}
use study_libevent.Events.Free.{all_empty, checked, base_free}
use study_libevent.Events.Free.Shrunk.{
  IsCleared, Shrunk, Shrunk-at, Shrunk-idle, delete_each-Shrunk, delete_queues-Shrunk,
  delete_timers-Shrunk, own_occurrence,
}

no_occurrence : (es : List ℕ) → ((x : ℕ) → occurrences x es ≡ 0) → es ≡ []
no_occurrence [] h = refl
no_occurrence (e ∷ es) h = absurd (own_occurrence e es (h e))

all_empty-all :
    (queues : List (List ℕ)) → ((k : ℕ) → get_or queues k [] ≡ []) → all_empty queues ≡ true
unfolding all_empty
all_empty-all [] h = refl
all_empty-all ([] ∷ queues) h = all_empty-all queues λ k. h (suc k)
all_empty-all ((e ∷ es) ∷ queues) h = absurd (let p = h 0 in cc)

module _ {B : Type 0} (env : Env B) where
  -- Behind the three loops, the events of the program are idle.
  external_idle :
      (b b1 b2 b3 : Base B) (x : ℕ)
      → IsValid b
      → Shrunk b b1
      → (occurrences x b.eventqueue ≢ 0 → view b1 x ≡ idle)
      → Shrunk b1 b2
      → b2.timeheap.n ≡ 0
      → Shrunk b2 b3
      → IsCleared b2 b3 (length b2.activequeues) 0
      → b.is_internal x ≡ false
      → view b3 x ≡ idle
  external_idle b b1 b2 b3 x v w1 out w2 none_left w3 cleared i =
      let inserted : (view b1 x).inserted ≡ false = elim (Bool-cases (b.is_inserted x)) [
        | inl t ↦ ap (λ u. u.inserted) (out λ z. ground (arith, v.inserted x))
        | inr t ↦ Shrunk-at (λ u. u.inserted) b b1 x w1 t
      ] in
      let timer : (view b2 x).timer ≡ none = elim (Bool-cases (b2.on_timeout x)) [
        | inl t ↦ let (j, q, z) = w2.valid.timed.to x t in absurd (omega arith)
        | inr t ↦ rw t refl
      ] in
      let external : b2.is_internal x ≡ false =
        ap (λ f. f x) (w2.is_internal ∙ w1.is_internal) ∙ i in
      let active : (view b3 x).active ≡ false = elim (Bool-cases (b2.is_active x)) [
        | inl t ↦
            let mine = w2.valid.based x (ground arith) in
            ap (λ u. u.active)
              (cleared x external t (omega arith) (omega (arith, w2.valid.priority x mine)))
        | inr t ↦ Shrunk-at (λ u. u.active) b2 b3 x w3 t
      ] in
      let inserted3 =
        Shrunk-at (λ u. u.inserted) b2 b3 x w3 (Shrunk-at (λ u. u.inserted) b1 b2 x w2 inserted) in
      let timer3 = Shrunk-at (λ u. u.timer) b2 b3 x w3 timer in
      ap (λ (c : Bool). record (view b3 x) { inserted = c }) inserted3
      ∙ ap (λ (c : Bool). record (view b3 x) { inserted = false; active = c }) active
      ∙ ap (λ (t : Option Timeval). record idle { timer = t }) timer3

  checked-idle :
      (b : Base B)
      → IsValid b
      → ((x : ℕ) → view b x ≡ idle)
      → Ensures (λ b'. IsValid b' × ((x : ℕ) → view b' x ≡ idle)) (checked env b)
  unfolding checked empty
  checked-idle b v calm =
      let no_event : b.eventqueue ≡ [] =
        no_occurrence b.eventqueue λ x. v.inserted x ∙ ap (λ u. bit u.inserted) (calm x) in
      let no_active : all_empty b.activequeues ≡ true = all_empty-all b.activequeues λ k.
        no_occurrence _
          λ x. v.active x k ∙ ap (λ u. bit (u.active && (k == b.ev_pri x))) (calm x) in
      let no_timer : (b.timeheap.n == 0) ≡ true = elim (Bool-cases (b.timeheap.n == 0)) [
        | inl t ↦ t
        | inr t ↦
            let first = slot b.timeheap 0 in
            let on = v.timed.from first (0, ground arith, refl) in
            let off = untimed_idle b first (calm first) in absurd (cc)
      ] in
      let met : (all_empty b.activequeues && (b.timeheap.n == 0) && (length b.eventqueue == 0))
          ≡ true =
        rw (no_active, no_timer, no_event) refl in
      Ensures-if (all_empty b.activequeues && (b.timeheap.n == 0) && (length b.eventqueue == 0))
        (λ t. returns (v, calm)) λ t. absurd (cc)

  -- The back end deletes events of the base, and every internal one that is on a queue.
  abbrev pub IsClosing : Base B → List ℕ → Type 0
  IsClosing b es =
      ((x : ℕ) → occurrences x es ≢ 0 → b.ev_base x ≡ true)
      × ((x : ℕ) → b.is_internal x ≡ true → (view b x ≡ idle) ⊎ (occurrences x es ≢ 0))

  -- For a valid base whose inserted events belong to it, where the back end's `dealloc` deletes
  -- events of the base, among them every internal one that is not idle, `event_base_free` ends its
  -- loops, passes its asserts that the queues are empty, and leaves a valid base in which no event
  -- is on a queue or has a timeout.
  pub base_free-idle :
      (dealloc : Base B → List ℕ) (b : Base B)
      → IsValid b
      → ((x : ℕ) → b.is_inserted x ≡ true → b.ev_base x ≡ true)
      → ((b' : Base B)
          → b'.ev_base ≡ b.ev_base
          → b'.is_internal ≡ b.is_internal
          → IsClosing b' (dealloc b'))
      → Ensures (λ b'. IsValid b' × ((x : ℕ) → view b' x ≡ idle)) (base_free env dealloc b)
  unfolding base_free
  base_free-idle dealloc b v mine closing =
      Ensures-bind
        (delete_each-Shrunk env b.is_internal b.eventqueue b v
          λ x p. mine x (ground (arith, v.inserted x)))
        λ b1 (w1, out).
          Ensures-bind (delete_timers-Shrunk env (b1.timeheap.n + 1) b1 (omega arith) w1.valid)
            λ b2 (w2, none_left).
              Ensures-bind (delete_queues-Shrunk env (length b2.activequeues) 0 b2 w2.valid)
                λ b3 (w3, cleared).
                  let external : (x : ℕ) → b.is_internal x ≡ false → view b3 x ≡ idle = λ x i.
                    external_idle b b1 b2 b3 x v w1 (λ p. out x p i) w2 none_left w3 cleared i in
                  let same = w3.is_internal ∙ w2.is_internal ∙ w1.is_internal in
                  let (own, whole) = closing b3 (w3.ev_base ∙ w2.ev_base ∙ w1.ev_base) same in
                  Ensures-bind (delete_each-Shrunk env (λ e. false) (dealloc b3) b3 w3.valid own)
                    λ b4 (w4, closed). checked-idle b4 w4.valid λ x.
                      elim (Bool-cases (b.is_internal x)) [
                        | inr t ↦ Shrunk-idle b3 b4 x w4 (external x t)
                        | inl t ↦ elim (whole x (ap (λ f. f x) same ∙ t)) [
                          | inl u ↦ Shrunk-idle b3 b4 x w4 u
                          | inr u ↦ closed x u refl
                        ]
                      ]
