-- ===== src/Timers.antt =====
-- src/rt/usched.c: the timer heap, an array of records of which `heap_len` are in use. A strand, a
-- closure, a tag and a realm are the numbers of their objects, and `zeroed` is the record whose
-- bytes are zero. The object of number 0 is NULL.
pub mod Order
pub mod Sift
pub mod Sink
pub mod Count
pub mod Heap
pub mod Queue
pub mod Drop
pub mod Sleeper
mod Runs
use urbi_embedded.Shared.{
  ℕ, zero, suc, ◌+◌, ◌-◌, ◌*◌, ◌/◌, ◌%◌, ◌^◌, Bool, true, false, not, ◌&&◌, List, [], ◌++◌, Option,
  none, some, leb, ltb, ◌==◌, if◌then◌else◌, length, get_or, set, replicate,
}

-- `UTimer`
pub record Timer : Type 0 where
  pub due_us : ℕ
  pub period_us : ℕ
  pub strand : ℕ
  pub body : ℕ
  pub tag : ℕ
  pub realm : ℕ

abbrev pub zeroed : Timer
zeroed = record { due_us = 0; period_us = 0; strand = 0; body = 0; tag = 0; realm = 0 }

-- The fields of `USched` that the heap has.
pub record Sched : Type 0 where
  pub heap : List Timer
  pub heap_len : ℕ
  pub heap_cap : ℕ

abbrev pub due : List Timer → ℕ → ℕ
due heap i = (get_or heap i zeroed).due_us

abbrev pub heap_swap : List Timer → ℕ → ℕ → List Timer
heap_swap heap i j = set (set heap i (get_or heap j zeroed)) j (get_or heap i zeroed)

-- `while (i > 0)`: `i` halves, so `i` rounds are enough.
unfoldable pub heap_up : ℕ → List Timer → ℕ → List Timer
heap_up zero heap i = heap
heap_up (suc left) heap i =
    let p = (i - 1) / 2 in
    let rest = heap_up left (heap_swap heap p i) p in
    if i == 0 then heap else if leb (due heap p) (due heap i) then heap else rest

-- The least of a record and its children. A heap has fewer than 2 ^ 31 records, so that no index of a
-- child wraps.
unfoldable pub least : List Timer → ℕ → ℕ → ℕ
least heap len i =
    let l = 2 * i + 1 in
    let r = l + 1 in
    let m = if ltb l len && ltb (due heap l) (due heap i) then l else i in
    if ltb r len && ltb (due heap r) (due heap m) then r else m

-- `for (;;)`: `i` grows below `len`, so `len` rounds are enough.
unfoldable pub heap_down : ℕ → List Timer → ℕ → ℕ → List Timer
heap_down zero heap len i = heap
heap_down (suc left) heap len i =
    let m = least heap len i in
    let rest = heap_down left (heap_swap heap m i) len m in if m == i then heap else rest

-- `heap[heap_len] = t; heap_up(heap_len); heap_len++`
abbrev pub put_timer : Sched → Timer → Sched
put_timer sc t = record sc {
  heap = heap_up sc.heap_len (set sc.heap sc.heap_len t) sc.heap_len;
  heap_len = sc.heap_len + 1;
}

-- The array with room for one more record, or `none` for the return of -1.
unfoldable pub timer_room : Bool → Sched → Option Sched
timer_room served sc =
    let cap = if sc.heap_cap == 0 then 4 else sc.heap_cap * 2 % 2 ^ 32 in
    let more = replicate (cap - length sc.heap) zeroed in
    if not (sc.heap_len == sc.heap_cap)
    then some sc
    else if served
    then some (record sc { heap = sc.heap ++ more; heap_cap = cap })
    else none

-- `served` says whether the array could be grown.
unfoldable pub usched_timer_add : Bool → Sched → Timer → Option Sched
usched_timer_add served sc t = elim (timer_room served sc) [
  | none ↦ none
  | some roomy ↦ some (put_timer roomy t)
]

unfoldable pub heap_remove_at : Sched → ℕ → Sched
heap_remove_at sc i =
    let len = sc.heap_len - 1 in
    let moved = set sc.heap i (get_or sc.heap len zeroed) in
    if i == len
    then record sc { heap_len = len }
    else record sc { heap = heap_up i (heap_down len moved len i) i; heap_len = len }

-- The loop of a bulk drop: `left` records from `i` on are to be read, `w` have been kept.
unfoldable pub keep_loop : (Timer → Bool) → ℕ → List Timer → ℕ → ℕ → List Timer × ℕ
keep_loop keep zero heap i w = (heap, w)
keep_loop keep (suc left) heap i w =
    let t = get_or heap i zeroed in
    keep_loop keep left (if keep t then set heap w t else heap) (i + 1)
      (if keep t then w + 1 else w)

-- `for (i = w / 2; i > 0; i--)`
unfoldable pub rebuild_loop : ℕ → List Timer → ℕ → List Timer
rebuild_loop zero heap len = heap
rebuild_loop (suc i) heap len = rebuild_loop i (heap_down len heap len i) len

unfoldable pub usched_heap_rebuild : Sched → ℕ → Sched
usched_heap_rebuild sc w =
    if w == sc.heap_len
    then sc
    else record sc { heap = rebuild_loop (w / 2) sc.heap w; heap_len = w }

abbrev pub drop_timers : (Timer → Bool) → Sched → Sched
drop_timers keep sc =
    let kept = keep_loop keep sc.heap_len sc.heap 0 0 in
    usched_heap_rebuild (record sc { heap = kept.0 }) kept.1

abbrev pub keeps_tag : ℕ → Timer → Bool
keeps_tag tag t = not (not (t.period_us == 0) && (t.tag == tag))

abbrev pub keeps_realm : ℕ → Timer → Bool
keeps_realm realm t = not (t.realm == realm)

unfoldable pub usched_timers_drop_tag : Sched → ℕ → Sched
usched_timers_drop_tag sc tag = if tag == 0 then sc else drop_timers (keeps_tag tag) sc

unfoldable pub usched_timers_drop_realm : Sched → ℕ → Sched
usched_timers_drop_realm sc realm = if realm == 0 then sc else drop_timers (keeps_realm realm) sc

-- The return of `none` stands for -1.
unfoldable pub find_loop : ℕ → List Timer → ℕ → ℕ → Option ℕ
find_loop zero heap strand i = none
find_loop (suc left) heap strand i =
    let t = get_or heap i zeroed in
    let rest = find_loop left heap strand (i + 1) in
    if t.period_us == 0 && (t.strand == strand) then some i else rest

unfoldable pub heap_find_sleeper : Sched → ℕ → Option ℕ
heap_find_sleeper sc strand = find_loop sc.heap_len sc.heap strand 0

abbrev pub usched_has_timer : Sched → ℕ → Bool
usched_has_timer sc strand = elim (heap_find_sleeper sc strand) [ none ↦ false | some i ↦ true ]
