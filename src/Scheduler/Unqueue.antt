-- ===== src/Scheduler/Unqueue.antt =====
-- src/rt/usched.c: what usched_unqueue does to the strand, to the queue and to all else.
use urbi_embedded.Shared.{
  ℕ, ◌≤◌, ◌≡◌, refl, Bool, true, false, not, List, ◌==◌, if◌then◌else◌, Bool-cases, inl, inr,
  length, Option, none, some,
}
use urbi_embedded.Scheduler.{Vm, find_before, usched_unqueue, set_link}
use urbi_embedded.Scheduler.Threads.{upd, has, erase}
use urbi_embedded.Scheduler.State.{IsWell, find_before-none}
use urbi_embedded.Scheduler.Frame.{
  Stays, Stays-refl, Stays-trans, Stays-link, Stays-head, Stays-tail, Stays-if,
}
use urbi_embedded.Scheduler.Queue.{usched_unqueue-IsWell}

Stays-unqueue : (rounds s : ℕ) (vm : Vm) → Stays 0 vm (usched_unqueue rounds s vm)
unfolding usched_unqueue
Stays-unqueue rounds s vm =
    Stays-if (s == 0) (Stays-refl 0 vm) (found (find_before rounds s 0 vm.run_head vm))
  where
    found :
        (o : Option ℕ)
        → Stays 0 vm (elim o [
          | none ↦ vm
          | some prev ↦
              let next = (vm.strands s).link in
              let vm1 =
                if not (prev == 0) then set_link prev next vm else record vm { run_head = next } in
              let vm2 = if vm1.run_tail == s then record vm1 { run_tail = prev } else vm1 in
              set_link s 0 vm2
        ])
    found none = Stays-refl 0 vm
    found (some prev) =
        let next = (vm.strands s).link in
        let vm1 =
          if not (prev == 0) then set_link prev next vm else record vm { run_head = next } in
        let vm2 = if vm1.run_tail == s then record vm1 { run_tail = prev } else vm1 in
        Stays-trans (Stays-if (not (prev == 0)) (Stays-link 0 prev next vm) (Stays-head 0 next vm))
          (Stays-trans (Stays-if (vm1.run_tail == s) (Stays-tail 0 prev vm1) (Stays-refl 0 vm1))
            (Stays-link 0 s 0 vm2))

-- Of a queued strand, and of all others, only links change; for any other strand nothing does.
abbrev pub Unqueued : (queued : Bool) → Vm → Vm → Type 0
Unqueued true vm vm' = Stays 0 vm vm'
Unqueued false vm vm' = vm' ≡ vm

unqueue-Unqueued :
    (rounds s : ℕ) (vm : Vm) (lists : ℕ → List ℕ)
    → IsWell vm lists
    → Unqueued (has s (lists 0)) vm (usched_unqueue rounds s vm)
unfolding usched_unqueue
unqueue-Unqueued rounds s vm lists well = elim (Bool-cases (has s (lists 0))) [
  | inl inside ↦ rw inside (Stays-unqueue rounds s vm)
  | inr out ↦
      let missed =
        find_before-none rounds s 0 vm.run_head vm (lists 0) (well.threads.chain 0) out in
      rw out
        (elim (Bool-cases (s == 0)) [ inl null ↦ rw null refl | inr nz ↦ rw (nz, missed) refl ])
]

-- In a well-formed state with a queue of at most `rounds` strands: usched_unqueue takes the strand out of the
-- run queue and leaves the order of the others, every wait list, the timers, the dispatching strand, the
-- flags of the tags, the realms, and all but the links of all strands, its state included; for a strand
-- that is not queued the state is what it was.
pub usched_unqueue_lem :
    (rounds s : ℕ) (vm : Vm) (lists : ℕ → List ℕ)
    → IsWell vm lists
    → length (lists 0) ≤ rounds
    → IsWell (usched_unqueue rounds s vm) (upd 0 (erase s (lists 0)) lists)
      × Unqueued (has s (lists 0)) vm (usched_unqueue rounds s vm)
usched_unqueue_lem rounds s vm lists well few =
    (usched_unqueue-IsWell rounds s vm lists well few, unqueue-Unqueued rounds s vm lists well)
