-- ===== src/Scheduler.antt =====
-- src/rt/usched.c: the run queue, parking and waking; Gates, Blocked and Block are about src/rt/utag.c. A strand and a wait list are the numbers of their
-- addresses, 0 is NULL, and `link` threads the queue and the lists through the strands.
pub mod Threads
pub mod Erase
pub mod Threaded
pub mod Joined
pub mod State
pub mod Frame
pub mod Queue
pub mod Unqueue
pub mod Settle
pub mod Enqueue
pub mod Park
pub mod Unlink
pub mod Wake
pub mod Gates
pub mod Blocked
pub mod Block
pub mod Enter
pub mod Reach
pub mod Turn
mod Runs
use urbi_embedded.Shared.{
  ℕ, zero, suc, ◌+◌, Bool, true, false, not, ◌&&◌, ◌||◌, List, [], ◌∷◌, Option, none, some, ◌==◌,
  if◌then◌else◌,
}
use urbi_embedded.Scheduler.Threads.{upd}
use urbi_embedded.Timers.{Timer, Sched, heap_find_sleeper, heap_remove_at}

-- `USTRAND_READY` to `USTRAND_DEAD`
pub data StrandState : Type 0 where
  ready running parked dead : StrandState

abbrev pub is_parked : StrandState → Bool
is_parked parked = true
is_parked ready = false
is_parked running = false
is_parked dead = false

abbrev pub is_dead : StrandState → Bool
is_dead dead = true
is_dead ready = false
is_dead running = false
is_dead parked = false

-- The fields of `UCleanup` that the tags read: whether the kind is `UCLEAN_TAG_SCOPE`, and the cell in
-- `saved`, which is the tag that the scope displaced.
pub record Cleanup : Type 0 where
  pub is_tag_scope : Bool
  pub saved : Option ℕ

-- The fields of `UStrand` that the scheduler reads and writes. A value is `none` for nil, and otherwise
-- a number that stands for it; `unwind` is 0 for `UUNWIND_NONE`.
pub record Strand : Type 0 where
  pub state : StrandState
  pub link : ℕ
  pub waiting_on : ℕ
  pub wake_us : ℕ
  pub gates : ℕ
  pub unwind : ℕ
  pub transfer : Option ℕ
  pub is_spare : Bool
  pub nboundary : ℕ
  pub tag : ℕ
  pub cleanup : List Cleanup

-- The store: the strands, the heads of the wait lists at their addresses, the fields of `USched`, the flags
-- of the tags, and the strands of each realm in turn.
pub record Vm : Type 0 where
  pub strands : ℕ → Strand
  pub waiters : ℕ → ℕ
  pub run_head : ℕ
  pub run_tail : ℕ
  pub timers : Sched
  pub current : ℕ
  pub flags : ℕ → ℕ
  pub realms : List (List ℕ)

abbrev pub set_strand : ℕ → Strand → Vm → Vm
set_strand s x vm = record vm { strands = upd s x vm.strands }

abbrev pub set_link : ℕ → ℕ → Vm → Vm
set_link s to vm = set_strand s (record (vm.strands s) { link = to }) vm

unfoldable pub usched_enqueue : ℕ → Vm → Vm
usched_enqueue s vm =
    let x = vm.strands s in
    if s == 0 || is_dead x.state
    then vm
    else if s == vm.run_tail || not (x.link == 0)
    then vm
    else if not (x.gates == 0)
    then (if is_parked x.state
        then vm
        else set_strand s (record x { state = parked; waiting_on = 0; wake_us = 0; link = 0 }) vm)
    else (let vm1 =
          set_strand s (record x { state = ready; waiting_on = 0; wake_us = 0; link = 0 }) vm in
        let vm2 =
          if not (vm1.run_tail == 0)
          then set_link vm1.run_tail s vm1
          else record vm1 { run_head = s } in
        record vm2 { run_tail = s })

-- The loops over a chain that stop at `s`: the strand before it, or `prev`. `none` when they come to NULL.
unfoldable pub find_before : ℕ → ℕ → (prev c : ℕ) → Vm → Option ℕ
find_before zero s prev c vm = none
find_before (suc left) s prev c vm =
    let rest = find_before left s c ((vm.strands c).link) vm in
    if c == 0 then none else if c == s then some prev else rest

-- `rounds` bounds the walk along the queue.
unfoldable pub usched_unqueue : ℕ → ℕ → Vm → Vm
usched_unqueue rounds s vm = if s == 0 then vm else elim (find_before rounds s 0 vm.run_head vm) [
  | none ↦ vm
  | some prev ↦
      let next = (vm.strands s).link in
      let vm1 = if not (prev == 0) then set_link prev next vm else record vm { run_head = next } in
      let vm2 = if vm1.run_tail == s then record vm1 { run_tail = prev } else vm1 in
      set_link s 0 vm2
]

unfoldable pub usched_dequeue : Vm → ℕ × Vm
usched_dequeue vm =
    let s = vm.run_head in
    if s == 0
    then (0, vm)
    else (let next = (vm.strands s).link in
        let vm1 = record vm { run_head = next; run_tail = if next == 0 then 0 else vm.run_tail } in
        (s, set_link s 0 vm1))

abbrev pub usched_may_deschedule : Strand → Bool
usched_may_deschedule x = not x.is_spare && x.nboundary == 0

-- Whether the strand parked. `waitlist` is the address of a head, or 0.
unfoldable pub usched_park : ℕ → (waitlist wake_us : ℕ) → Vm → Bool × Vm
usched_park s waitlist wake_us vm =
    let x = vm.strands s in
    if s == 0 || not (usched_may_deschedule x)
    then (false, vm)
    else (let parking = record x {
      state = parked;
      waiting_on = waitlist;
      wake_us = wake_us;
      link = 0;
    } in
        let vm1 = set_strand s parking vm in
        if waitlist == 0
        then (true, vm1)
        else (let vm2 = set_link s (vm1.waiters waitlist) vm1 in
            (true, record vm2 { waiters = upd waitlist s vm2.waiters })))

-- `rounds` bounds the walk along the wait list.
unfoldable pub usched_unlink_wait : ℕ → ℕ → Vm → Vm
usched_unlink_wait rounds s vm =
    let head = (vm.strands s).waiting_on in
    if head == 0
    then vm
    else (let vm1 : Vm = elim (find_before rounds s 0 (vm.waiters head) vm) [
      | none ↦ vm
      | some prev ↦
          let next = (vm.strands s).link in
          if prev == 0
          then record vm { waiters = upd head next vm.waiters }
          else set_link prev next vm
    ] in
        set_strand s (record (vm1.strands s) { waiting_on = 0; link = 0 }) vm1)

unfoldable pub drop_sleeper : ℕ → Sched → Sched
drop_sleeper s sc = elim (heap_find_sleeper sc s) [ none ↦ sc | some i ↦ heap_remove_at sc i ]

abbrev pub deliver : Option ℕ → Strand → Strand
deliver payload x = elim payload [
  | none ↦ x
  | some v ↦ if x.unwind == 0 then record x { transfer = some v } else x
]

unfoldable pub usched_wake : ℕ → ℕ → Option ℕ → Vm → Vm
usched_wake rounds s payload vm =
    if s == 0 || not (is_parked (vm.strands s).state)
    then vm
    else (let vm1 = usched_unlink_wait rounds s vm in
        let vm2 = record vm1 { timers = drop_sleeper s vm1.timers } in
        let vm3 = set_strand s (deliver payload (record (vm2.strands s) { wake_us = 0 })) vm2 in
        if not ((vm3.strands s).gates == 0) then set_link s 0 vm3 else usched_enqueue s vm3)

-- The first write of `uexec_run_inner`.
abbrev pub uexec_run_inner_enter : ℕ → Vm → Vm
uexec_run_inner_enter s vm = set_strand s (record (vm.strands s) { state = running }) vm

-- `uexec_run` up to the first instruction: the strand is the dispatching one, and RUNNING.
unfoldable pub uexec_run_enter : ℕ → Vm → Vm
uexec_run_enter s vm = uexec_run_inner_enter s (record vm { current = s })

-- How `uexec_run` ends: the strand before it is the dispatching one again.
unfoldable pub uexec_run_leave : ℕ → Vm → Vm
uexec_run_leave prev vm = record vm { current = prev }
