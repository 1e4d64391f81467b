-- ===== src/Scheduler/Runs.antt =====
-- src/rt/usched.c and src/rt/utag.c: the scheduler's lists at small states, and the theorems at them.
use urbi_embedded.Shared.{
  ℕ, ◌≡◌, ◌≢◌, refl, arith, true, false, not, ◌&&◌, List, [], ◌∷◌, ◌++◌, ◌==◌, if◌then◌else◌,
  Bool-cases, inl, inr, none, All,
}
use urbi_embedded.Timers.{heap_find_sleeper, find_loop}
use urbi_embedded.Scheduler.{
  parked, is_dead, Strand, Vm, find_before, usched_enqueue, usched_dequeue, uexec_run_enter,
  uexec_run_leave, usched_unqueue, usched_park, usched_unlink_wait, usched_wake,
  usched_may_deschedule, drop_sleeper,
}
use urbi_embedded.Scheduler.Threads.{upd, has, erase}
use urbi_embedded.Scheduler.State.{IsWell}
use urbi_embedded.Scheduler.Queue.{first, tail_of, usched_dequeue_lem}
use urbi_embedded.Scheduler.Frame.{Stays}
use urbi_embedded.Scheduler.Settle.{joins, usched_enqueue-IsWell}
use urbi_embedded.Scheduler.Enqueue.{settled, usched_enqueue_lem}
use urbi_embedded.Scheduler.Unqueue.{Unqueued, usched_unqueue_lem}
use urbi_embedded.Scheduler.Park.{Parks, usched_park_lem}
use urbi_embedded.Scheduler.Reach.{
  enqueues, dispatches, leaves, parks, wakes, Reached, started, stepped, Reached-IsWell,
}
use urbi_embedded.Scheduler.Gates.{
  utag_gate, each_realm, each_strand, gate_strand, release_strand, utag_covers,
  utag_strand_gate_bits,
}
use urbi_embedded.Scheduler.Block.{in_realms, Numbers, utag_gate_lem}
use urbi_embedded.Scheduler.Turn.{Takes, over, enqueue, dequeue, dequeue-Takes}

abbrev idle : Strand
idle = record {
  state = parked;
  link = 0;
  waiting_on = 0;
  wake_us = 0;
  gates = 0;
  unwind = 0;
  transfer = none;
  is_spare = false;
  nboundary = 0;
  tag = 4;
  cleanup = [];
}

abbrev empty : Vm
empty = record {
  strands = λ k. idle;
  waiters = λ a. 0;
  run_head = 0;
  run_tail = 0;
  timers = record { heap = []; heap_len = 0; heap_cap = 0 };
  current = 0;
  flags = λ t. 0;
  realms = (3 ∷ 5 ∷ 7 ∷ []) ∷ [];
}

-- The strands 5 and 7 are queued, in that order.
abbrev one : Vm
one = usched_enqueue 5 empty

abbrev two : Vm
two = usched_enqueue 7 one

-- The strand 3 waits on the list at 9 besides.
abbrev waiting : Vm
waiting = (usched_park 3 9 0 two).1

two_heads : (two.run_head ≡ 5) × (two.run_tail ≡ 7) × ((two.strands 5).link ≡ 7)
unfolding usched_enqueue
two_heads = (refl, refl, refl)

takes_in_order : ((usched_dequeue two).0 ≡ 5) × ((usched_dequeue ((usched_dequeue two).1)).0 ≡ 7)
unfolding usched_dequeue usched_enqueue
takes_in_order = (refl, refl)

wakes_to_the_end :
    ((usched_wake 4 3 none waiting).run_tail ≡ 3) × ((usched_wake 4 3 none waiting).waiters 9 ≡ 0)
unfolding usched_wake usched_unlink_wait find_before usched_enqueue usched_park drop_sleeper
    heap_find_sleeper find_loop
wakes_to_the_end = (refl, refl)

abbrev no_lists : ℕ → List ℕ
no_lists a = []

abbrev one_lists : ℕ → List ℕ
one_lists = upd 0 (5 ∷ []) no_lists

abbrev two_lists : ℕ → List ℕ
two_lists = upd 0 (5 ∷ 7 ∷ []) one_lists

abbrev waiting_lists : ℕ → List ℕ
waiting_lists = upd 9 (3 ∷ []) two_lists

not_there : false ≡ true → ⊥
not_there e = cc

empty-IsWell : IsWell empty no_lists
empty-IsWell = record {
  threads = record {
    chain = λ a. ground arith;
    distinct = λ a. tt;
    apart = λ a b k h h'. absurd (not_there h);
    loose = λ k nz out. refl;
  };
  tail = refl;
  queued = λ k h. absurd (not_there h);
  waiting = λ a k nz h. absurd (not_there h);
}

one-IsWell : IsWell one one_lists
unfolding usched_enqueue
one-IsWell = usched_enqueue-IsWell 5 empty no_lists empty-IsWell (omega arith) (λ a nz. refl)

one_free : (a : ℕ) → a ≢ 0 → has 7 (one_lists a) ≡ false
one_free a nz = ground (arith, nz)

two-IsWell : IsWell two two_lists
unfolding usched_enqueue
two-IsWell = usched_enqueue-IsWell 7 one one_lists one-IsWell (omega arith) one_free

two_free : (a : ℕ) → has 3 (two_lists a) ≡ false
two_free a = elim (Bool-cases (a == 0)) [ inl e ↦ rw e refl | inr e ↦ rw e refl ]

usched_enqueue_lem_example :
    IsWell
      (usched_enqueue 7 one)
      (upd 0 (if joins one 7 (one_lists 0) then one_lists 0 ++ 7 ∷ [] else one_lists 0) one_lists)
    × ((usched_enqueue 7 one).strands 7 ≡ settled (one.strands 7) (has 7 (one_lists 0)))
    × Stays 7 one (usched_enqueue 7 one)
usched_enqueue_lem_example = usched_enqueue_lem 7 one one_lists one-IsWell (omega arith) one_free

usched_dequeue_lem_example :
    ((usched_dequeue two).0 ≡ first (two_lists 0))
    × IsWell ((usched_dequeue two).1) (upd 0 (tail_of (two_lists 0)) two_lists)
usched_dequeue_lem_example = usched_dequeue_lem two two_lists two-IsWell

usched_unqueue_lem_example :
    IsWell (usched_unqueue 2 7 two) (upd 0 (erase 7 (two_lists 0)) two_lists)
    × Unqueued (has 7 (two_lists 0)) two (usched_unqueue 2 7 two)
usched_unqueue_lem_example = usched_unqueue_lem 2 7 two two_lists two-IsWell (omega arith)

usched_park_lem_example :
    ((usched_park 3 9 0 two).0 ≡ (not (3 == 0) && usched_may_deschedule (two.strands 3)))
    × IsWell ((usched_park 3 9 0 two).1) (
        if (usched_park 3 9 0 two).0 && not (9 == 0)
        then upd 9 (3 ∷ two_lists 9) two_lists
        else two_lists)
    × Parks ((usched_park 3 9 0 two).0) 3 9 0 two ((usched_park 3 9 0 two).1)
usched_park_lem_example = usched_park_lem 3 9 0 two two_lists two-IsWell two_free

Reached-empty : Reached empty
Reached-empty = started refl refl (λ a. refl) (λ k. refl)

-- A strand is queued, runs, parks on the list at 9, and is woken.
abbrev runs_three : Vm
runs_three =
    uexec_run_enter ((usched_dequeue (usched_enqueue 3 empty)).0)
      ((usched_dequeue (usched_enqueue 3 empty)).1)

abbrev parked_three : Vm
parked_three = uexec_run_leave 0 ((usched_park 3 9 0 runs_three).1)

abbrev cycled : Vm
cycled = usched_wake 1 3 none parked_three

cycled_head : (cycled.run_head ≡ 3) × (cycled.run_tail ≡ 3) × (cycled.waiters 9 ≡ 0)
unfolding usched_enqueue usched_dequeue uexec_run_enter uexec_run_leave usched_park usched_wake
    usched_unlink_wait find_before drop_sleeper heap_find_sleeper find_loop
cycled_head = (refl, refl, refl)

Reached-parked_three : Reached parked_three
unfolding usched_enqueue usched_dequeue uexec_run_enter usched_park
Reached-parked_three =
    stepped
      (stepped
        (stepped (stepped Reached-empty (enqueues 3 (omega arith) refl)) (dispatches (omega arith)))
        (parks 3 9 0 refl))
      (leaves 0)

Reached-cycled : Reached cycled
unfolding usched_enqueue usched_dequeue uexec_run_enter uexec_run_leave usched_park
Reached-cycled = stepped Reached-parked_three (wakes 1 3 none (omega arith) refl refl)

Reached-IsWell_example : (lists : ℕ → List ℕ) × IsWell cycled lists
Reached-IsWell_example = Reached-IsWell cycled Reached-cycled

-- The strand 11 is queued before the 5 is taken.
abbrev taken : Vm
taken = (usched_dequeue (usched_enqueue 11 two)).1

Takes-one : Takes 1 two taken
unfolding usched_enqueue usched_dequeue
Takes-one = enqueue 11 (omega arith) refl (dequeue (over refl))

dequeue-Takes_example : (usched_dequeue taken).0 ≡ 7
dequeue-Takes_example = dequeue-Takes two taken two_lists (5 ∷ []) [] 7 two-IsWell refl Takes-one

-- The tag 4 covers the strands, which its block takes off the queue.
block_empties : (utag_gate 2 4 1 true two).run_head ≡ 0
unfolding utag_gate each_realm each_strand gate_strand utag_covers usched_enqueue usched_unqueue
    usched_park find_before
block_empties = refl

-- And its release queues them in the order of the realm, with the strand 3, which is parked on no list.
release_refills : (utag_gate 2 4 1 false (utag_gate 2 4 1 true two)).run_head ≡ 3
unfolding utag_gate each_realm each_strand gate_strand release_strand utag_covers
    utag_strand_gate_bits usched_enqueue usched_unqueue usched_park find_before heap_find_sleeper
    find_loop
release_refills = refl

no_current : (a : ℕ) → has two.current (two_lists a) ≡ false
unfolding usched_enqueue
no_current a = elim (Bool-cases (a == 0)) [ inl e ↦ rw e refl | inr e ↦ rw e refl ]

some_strands : All Numbers two.realms
unfolding usched_enqueue
some_strands = ((omega arith, (omega arith, (omega arith, tt))), tt)

seven_member :
    (in_realms 7 two.realms ≡ true)
    × (is_dead (two.strands 7).state ≡ false)
    × (utag_covers (two.strands 7) 4 ≡ true)
unfolding usched_enqueue utag_covers
seven_member = (refl, refl, refl)

utag_gate_lem_example :
    (lists' : ℕ → List ℕ) × IsWell (utag_gate 2 4 1 true two) lists'
    × (((utag_gate 2 4 1 true two).strands 7).gates ≢ 0)
    × (has 7 (lists' 0) ≡ false)
utag_gate_lem_example =
    utag_gate_lem 2 4 1 two two_lists 7 two-IsWell (omega arith) no_current some_strands
      (omega arith) (omega arith) (seven_member.0) (seven_member.1) (seven_member.2)
