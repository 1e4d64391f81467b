-- ===== src/Timers/Queue.antt =====
-- src/rt/usched.c: usched_timer_add and heap_remove_at as operations on a priority queue.
use urbi_embedded.Shared.{
  ℕ, suc, ◌+◌, ◌-◌, ◌/◌, ◌^◌, ◌≤◌, ◌<◌, ◌≡◌, ◌≢◌, ◌↔◌, refl, sym, ap, ◌∙◌, subst, Bool, false, List,
  none, some, arith, length, get_or, set, length-set, get_or-set_ne, ℕ_discrete,
}
use urbi_embedded.Timers.{
  Timer, zeroed, Sched, due, heap_up, heap_down, usched_timer_add, heap_remove_at,
}
use urbi_embedded.Timers.Order.{IsHeap, root_least}
use urbi_embedded.Timers.Sift.{heap_up-IsHeap, length-heap_up}
use urbi_embedded.Timers.Sink.{SinksAt, heap_down-RisesAt, length-heap_down}
use urbi_embedded.Timers.Count.{one, count, count-set, count-heap_up, count-heap_down}
use urbi_embedded.Timers.Heap.{IsTimers, room-Roomy, put-IsTimers, add_parts, add-none}

-- On a well-formed heap whose capacity can be doubled in 32 bits, `usched_timer_add` fails exactly when
-- the array is full and cannot grow; otherwise the heap stays well formed and holds the records that it
-- held and the new one, whatever is counted of them.
pub usched_timer_add_lem :
    (served : Bool) (sc : Sched) (t : Timer)
    → IsTimers sc
    → sc.heap_cap < 2 ^ 31
    → ((usched_timer_add served sc t ≡ none) ↔ ((sc.heap_len ≡ sc.heap_cap) × (served ≡ false)))
      × ((sc' : Sched)
          → usched_timer_add served sc t ≡ some sc'
          → IsTimers sc'
            × ((test : Timer → Bool)
                → count test sc'.heap_len sc'.heap ≡ count test sc.heap_len sc.heap + one test t))
usched_timer_add_lem served sc t timers small = (
  add-none served sc t,
  λ sc' h.
      let (r, room, made) = add_parts served sc sc' t h in
      let roomy = room-Roomy served sc r timers small room in
      let (sound, counts) = put-IsTimers r t roomy.timers roomy.room in
      subst
        (λ m.
          IsTimers m
          × ((test : Timer → Bool)
              → count test m.heap_len m.heap ≡ count test sc.heap_len sc.heap + one test t))
        (sym made)
        (
          sound,
          λ test.
              counts test
              ∙ ap (λ c. c + one test t)
                  (ap (λ n. count test n r.heap) roomy.len_same ∙ roomy.counts test),
        ),
)

-- The last record put at `i`, with heap order broken there only.
moved-SinksAt :
    (n : ℕ) (h : List Timer) (i : ℕ)
    → i < n - 1
    → n ≤ length h
    → IsHeap n (due h)
    → SinksAt (n - 1) (due (set h i (get_or h (n - 1) zeroed))) i i
moved-SinksAt n h i inside room ordered = record {
  below = omega arith;
  others = λ j pos hj ne off.
      omega (arith, ordered j pos (omega arith), kept j ne, kept ((j - 1) / 2) off);
  nephews = grandparent;
  raised = λ ne up. absurd (ne refl);
  first = grandparent;
}
  where
    kept : (j : ℕ) → j ≢ i → due (set h i (get_or h (n - 1) zeroed)) j ≡ due h j
    kept j ne =
        ap (λ (t : Timer). t.due_us)
          (get_or-set_ne h i j (get_or h (n - 1) zeroed) zeroed (λ e. ne (sym e)))

    grandparent :
        (j : ℕ)
        → 0 < j
        → j < n - 1
        → (j - 1) / 2 ≡ i
        → 0 < i
        → due (set h i (get_or h (n - 1) zeroed)) ((i - 1) / 2)
          ≤ due (set h i (get_or h (n - 1) zeroed)) j
    grandparent j pos hj at up = omega (
      arith,
      ordered j pos (omega arith),
      ordered i up (omega arith),
      ap (due h) at,
      kept j (λ e. omega (arith, e)),
      kept ((i - 1) / 2) (λ e. omega (arith, e)),
    )

abbrev Removes : Sched → ℕ → Sched → Type 0
Removes sc i r =
    IsTimers r
    × (r.heap_len + 1 ≡ sc.heap_len)
    × ((test : Timer → Bool)
        → count test r.heap_len r.heap + one test (get_or sc.heap i zeroed)
          ≡ count test sc.heap_len sc.heap)

remove-last :
    (sc : Sched)
    → IsTimers sc
    → 0 < sc.heap_len
    → Removes sc (sc.heap_len - 1) (record sc { heap_len = sc.heap_len - 1 })
remove-last sc timers pos =
    let fits = timers.fits in
    (
      record {
        fits = omega arith;
        whole = timers.whole;
        ordered = λ j up hj. timers.ordered j up (omega arith);
      },
      omega arith,
      λ test. ap (λ m. count test m sc.heap) last_is,
    )
  where
    last_is : suc (sc.heap_len - 1) ≡ sc.heap_len
    last_is = omega arith

remove-inner :
    (sc : Sched) (i : ℕ)
    → IsTimers sc
    → i < sc.heap_len - 1
    → let n = sc.heap_len - 1 in
      let moved = set sc.heap i (get_or sc.heap n zeroed) in
      Removes sc i (record sc { heap = heap_up i (heap_down n moved n i) i; heap_len = n })
remove-inner sc i timers inside =
    let fits = timers.fits in
    let whole = timers.whole in
    let n = sc.heap_len - 1 in
    let moved = set sc.heap i (get_or sc.heap n zeroed) in
    let sunk = heap_down n moved n i in
    let size = length-set sc.heap i (get_or sc.heap n zeroed) in
    let size' = length-heap_down n n moved i in
    let rises =
      heap_down-RisesAt n n moved i i (omega arith) (omega arith) inside
        (moved-SinksAt sc.heap_len sc.heap i inside (omega arith) timers.ordered) in
    (
      record {
        fits = omega arith;
        whole = length-heap_up i sunk i ∙ size' ∙ size ∙ whole;
        ordered = heap_up-IsHeap i n sunk i (omega arith) inside (omega arith) rises;
      },
      omega arith,
      λ test. omega (
        arith,
        count-heap_up test i n sunk i inside (omega arith),
        count-heap_down test n n moved i inside (omega arith),
        count-set test n sc.heap i (get_or sc.heap n zeroed) inside (omega arith),
        ap (λ m. count test m sc.heap) last_is,
      ),
    )
  where
    last_is : suc (sc.heap_len - 1) ≡ sc.heap_len
    last_is = omega arith

-- On a well-formed heap and the index of a record in use, no record is due before the one at the root,
-- and `heap_remove_at` leaves a well-formed heap that holds one record less: all but that at the index,
-- whatever is counted of them.
pub heap_remove_at_lem :
    (sc : Sched) (i : ℕ)
    → IsTimers sc
    → i < sc.heap_len
    → (due sc.heap 0 ≤ due sc.heap i)
      × IsTimers (heap_remove_at sc i)
      × ((heap_remove_at sc i).heap_len + 1 ≡ sc.heap_len)
      × ((test : Timer → Bool)
          → count test (heap_remove_at sc i).heap_len (heap_remove_at sc i).heap
              + one test (get_or sc.heap i zeroed)
            ≡ count test sc.heap_len sc.heap)
heap_remove_at_lem sc i timers inside =
    let removed : Removes sc i (heap_remove_at sc i) = elim (ℕ_discrete i (sc.heap_len - 1)) [
      | yes last ↦
          let made : heap_remove_at sc i ≡ record sc { heap_len = sc.heap_len - 1 } =
            unfold heap_remove_at in ground arith in
          subst (Removes sc i) (sym made) (
            subst (λ k. Removes sc k (record sc { heap_len = sc.heap_len - 1 })) (sym last)
              (remove-last sc timers (omega arith)))
      | no inner ↦
          let n = sc.heap_len - 1 in
          let moved = set sc.heap i (get_or sc.heap n zeroed) in
          let made : heap_remove_at sc i
              ≡ record sc { heap = heap_up i (heap_down n moved n i) i; heap_len = n } =
            unfold heap_remove_at in ground arith in
          subst (Removes sc i) (sym made) (remove-inner sc i timers (omega arith))
    ] in
    (root_least sc.heap_len (due sc.heap) i timers.ordered inside, removed.0, removed.1, removed.2)
