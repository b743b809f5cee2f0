-- ===== src/MinHeap/Tests.antt =====
-- The heap of min_heap.h on a concrete array.
use study_libevent.Prelude.{
  inl, ℕ, zero, suc, ◌-◌, ◌/◌, ◌<◌, ◌≡◌, ◌≢◌, refl, true, Ensures, [], ◌∷◌, arith, ◌==◌,
  if◌then◌else◌,
}
use study_libevent.MinHeap.{Timeval, timercmp_gt, MinHeap, slot, elem_greater, push, pop, erase}
use study_libevent.MinHeap.Order.{IsBefore, IsHeap}
use study_libevent.MinHeap.Pop.{Popped, Erased, pop-Popped, erase-Erased}
use study_libevent.MinHeap.Push.{Pushed, push-Pushed}

-- Event `e` is due at second `e`.
abbrev due : ℕ → Timeval
due e = record { tv_sec = e; tv_usec = 0 }

abbrev where_is : ℕ → ℕ
where_is e = if e == 4 then 0 else if e == 9 then 1 else 2

abbrev three_events : MinHeap
three_events = record { p = 4 ∷ 9 ∷ 6 ∷ []; n = 3; a = 3; min_heap_idx = where_is }

ordered_three :
    (c : ℕ) → 0 < c → c < 3 → IsBefore due (slot three_events ((c - 1) / 2)) (slot three_events c)
unfolding elem_greater timercmp_gt
ordered_three zero h g = absurd (omega arith)
ordered_three (suc zero) h g = refl
ordered_three (suc (suc zero)) h g = refl
ordered_three (suc (suc (suc c))) h g = absurd (omega arith)

indexed_three : (i : ℕ) → i < 3 → where_is (slot three_events i) ≡ i
indexed_three zero h = refl
indexed_three (suc zero) h = refl
indexed_three (suc (suc zero)) h = refl
indexed_three (suc (suc (suc c))) h = absurd (omega arith)

three_events-IsHeap : IsHeap due three_events
three_events-IsHeap = record {
  room = omega arith;
  sized = refl;
  small = omega arith;
  ordered = ordered_three;
  indexed = indexed_three;
}

five_absent : (j : ℕ) → j < 3 → slot three_events j ≢ 5
five_absent zero h z = omega arith
five_absent (suc zero) h z = omega arith
five_absent (suc (suc zero)) h z = omega arith
five_absent (suc (suc (suc j))) h z = omega arith

push-Pushed_example :
    Ensures (Pushed due (λ a. true) three_events 5) (push due (λ a. true) (λ i. 0) three_events 5)
push-Pushed_example =
    push-Pushed due (λ a. true) (λ i. 0) three_events 5 three_events-IsHeap
      (λ (j, h, z). five_absent j h z) (omega arith)

pop-Popped_example : Ensures (Popped due three_events) (pop due three_events)
pop-Popped_example = pop-Popped due three_events three_events-IsHeap

erase-Erased_example : Ensures (Erased due three_events 9) (erase due three_events 9)
erase-Erased_example =
    erase-Erased due three_events 9 three_events-IsHeap (inl (1, omega arith, refl))
