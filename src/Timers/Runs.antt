-- ===== src/Timers/Runs.antt =====
-- src/rt/usched.c: a heap of three timers, and the theorems at it.
use urbi_embedded.Shared.{
  ℕ, zero, suc, ◌+◌, ◌≤◌, ◌≡◌, ◌↔◌, refl, arith, Bool, true, false, not, ◌&&◌, ◌==◌, [], ◌∷◌, none,
  some, get_or,
}
use urbi_embedded.Timers.{
  Timer, zeroed, Sched, due, heap_up, heap_down, least, timer_room, usched_timer_add,
  heap_remove_at, find_loop, heap_find_sleeper, usched_timers_drop_tag, usched_timers_drop_realm,
  usched_heap_rebuild, keep_loop,
}
use urbi_embedded.Timers.Order.{IsHeap}
use urbi_embedded.Timers.Count.{one, count}
use urbi_embedded.Timers.Heap.{IsTimers}
use urbi_embedded.Timers.Drop.{drop_timers-count}
use urbi_embedded.Timers.Sleeper.{Finds, heap_find_sleeper-Finds}
use urbi_embedded.Timers.Queue.{usched_timer_add_lem, heap_remove_at_lem}

abbrev at : ℕ → ℕ → Timer
at due_us strand = record zeroed { due_us = due_us; strand = strand }

abbrev three : Sched
three = record { heap = at 10 1 ∷ at 30 2 ∷ at 20 3 ∷ zeroed ∷ []; heap_len = 3; heap_cap = 4 }

added_first :
    usched_timer_add false three (at 5 4)
    ≡ some (record { heap = at 5 4 ∷ at 10 1 ∷ at 20 3 ∷ at 30 2 ∷ []; heap_len = 4; heap_cap = 4 })
unfolding usched_timer_add timer_room heap_up
added_first = refl

-- Records past `heap_len` keep what they held.
root_removed :
    heap_remove_at three 0
    ≡ record { heap = at 20 3 ∷ at 30 2 ∷ at 20 3 ∷ zeroed ∷ []; heap_len = 2; heap_cap = 4 }
unfolding heap_remove_at heap_up heap_down least
root_removed = refl

three-IsHeap : IsHeap 3 (due three.heap)
three-IsHeap zero up inside = absurd (omega (arith, up))
three-IsHeap (suc zero) up inside = omega arith
three-IsHeap (suc (suc zero)) up inside = omega arith
three-IsHeap (suc (suc (suc j))) up inside = absurd (omega (arith, inside))

three-IsTimers : IsTimers three
three-IsTimers = record { fits = omega arith; whole = refl; ordered = three-IsHeap }

usched_timer_add_lem_example :
    ((usched_timer_add false three (at 5 4) ≡ none)
      ↔ ((three.heap_len ≡ three.heap_cap) × (false ≡ false)))
    × ((sc' : Sched)
        → usched_timer_add false three (at 5 4) ≡ some sc'
        → IsTimers sc'
          × ((test : Timer → Bool)
              → count test sc'.heap_len sc'.heap ≡ count test 3 three.heap + one test (at 5 4)))
usched_timer_add_lem_example =
    usched_timer_add_lem false three (at 5 4) three-IsTimers (omega arith)

heap_remove_at_lem_example :
    (due three.heap 0 ≤ due three.heap 1)
    × IsTimers (heap_remove_at three 1)
    × ((heap_remove_at three 1).heap_len + 1 ≡ 3)
    × ((test : Timer → Bool)
        → count test (heap_remove_at three 1).heap_len (heap_remove_at three 1).heap
            + one test (get_or three.heap 1 zeroed)
          ≡ count test 3 three.heap)
heap_remove_at_lem_example = heap_remove_at_lem three 1 three-IsTimers (omega arith)

-- Timers 2 and 3 are periodic, of tag 7.
abbrev periodic : ℕ → ℕ → Timer
periodic due_us body = record zeroed { due_us = due_us; period_us = 5; body = body; tag = 7 }

abbrev tagged : Sched
tagged = record three { heap = at 10 1 ∷ periodic 30 2 ∷ periodic 20 3 ∷ zeroed ∷ [] }

tag_dropped : (usched_timers_drop_tag tagged 7).heap_len ≡ 1
unfolding usched_timers_drop_tag usched_heap_rebuild keep_loop
tag_dropped = refl

sleeper_found : heap_find_sleeper three 2 ≡ some 1
unfolding heap_find_sleeper find_loop
sleeper_found = refl

periodic_passed : heap_find_sleeper tagged 0 ≡ none
unfolding heap_find_sleeper find_loop
periodic_passed = refl

drop_timers-count_example :
    (count
        (λ t. true)
        (usched_timers_drop_tag three 7).heap_len
        (usched_timers_drop_tag three 7).heap
      ≡ count (λ t. not (not (t.period_us == 0) && (t.tag == 7)) && true) 3 three.heap)
    × (count
          (λ t. true)
          (usched_timers_drop_realm three 7).heap_len
          (usched_timers_drop_realm three 7).heap
        ≡ count (λ t. not (t.realm == 7) && true) 3 three.heap)
drop_timers-count_example =
    drop_timers-count three 7 (λ t. true) three-IsTimers (λ e. omega (arith, e))

heap_find_sleeper-Finds_example : Finds three.heap 2 0 3 (heap_find_sleeper three 2)
heap_find_sleeper-Finds_example = heap_find_sleeper-Finds three 2
