-- ===== src/Scheduler/Enqueue.antt =====
-- src/rt/usched.c: what usched_enqueue does to the strand, to the lists and to all else.
use urbi_embedded.Shared.{
  ℕ, ◌≡◌, ◌≢◌, refl, ap, ◌∙◌, subst, arith, Bool, true, false, not, ◌||◌, List, [], ◌∷◌, ◌++◌, ◌==◌,
  if◌then◌else◌, Bool-cases, inl, inr,
}
use urbi_embedded.Scheduler.{
  ready, parked, is_parked, is_dead, Strand, Vm, usched_enqueue, set_link, set_strand,
}
use urbi_embedded.Scheduler.Threads.{upd, has}
use urbi_embedded.Scheduler.State.{IsWell}
use urbi_embedded.Scheduler.Frame.{
  Stays, Stays-refl, Stays-trans, Stays-link, Stays-strand, Stays-head, Stays-tail, Stays-if,
}
use urbi_embedded.Scheduler.Settle.{
  enqueued, gated, joins, is_ready, stays, comes_out, not_tail, null_link, usched_enqueue-IsWell,
}

Stays-enqueued : (s : ℕ) (vm : Vm) → Stays s vm (enqueued s vm)
Stays-enqueued s vm =
    let x = record (vm.strands s) { state = ready; waiting_on = 0; wake_us = 0; link = 0 } in
    let vm1 = set_strand s x vm in
    let vm2 =
      if not (vm1.run_tail == 0)
      then set_link vm1.run_tail s vm1
      else record vm1 { run_head = s } in
    Stays-trans (Stays-strand s x vm) (
      Stays-trans
        (Stays-if (not (vm1.run_tail == 0)) (Stays-link s vm1.run_tail s vm1) (Stays-head s s vm1))
        (Stays-tail s s vm2))

Stays-gated : (s : ℕ) (vm : Vm) → Stays s vm (gated s vm)
Stays-gated s vm = Stays-if (is_parked (vm.strands s).state) (Stays-refl s vm) (Stays-strand s _ vm)

Stays-enqueue : (s : ℕ) (vm : Vm) → Stays s vm (usched_enqueue s vm)
unfolding usched_enqueue
Stays-enqueue s vm =
    let x = vm.strands s in
    Stays-if (s == 0 || is_dead x.state) (Stays-refl s vm) (
      Stays-if (s == vm.run_tail || not (x.link == 0)) (Stays-refl s vm)
        (Stays-if (not (x.gates == 0)) (Stays-gated s vm) (Stays-enqueued s vm)))

-- What becomes of the strand itself.
abbrev pub settled : Strand → (queued : Bool) → Strand
settled x queued =
    if is_dead x.state || queued
    then x
    else if x.gates == 0
    then record x { state = ready; waiting_on = 0; wake_us = 0; link = 0 }
    else if is_parked x.state
    then x
    else record x { state = parked; waiting_on = 0; wake_us = 0; link = 0 }

enqueued_strand :
    (s : ℕ) (vm : Vm)
    → (s == vm.run_tail) ≡ false
    → (enqueued s vm).strands s
      ≡ record (vm.strands s) { state = ready; waiting_on = 0; wake_us = 0; link = 0 }
enqueued_strand s vm far =
    let here : (s == s) ≡ true = ground arith in
    elim (Bool-cases (vm.run_tail == 0)) [
      | inl e ↦ rw (e, here) refl
      | inr e ↦ rw (e, far, here) refl
    ]

gated_strand :
    (s : ℕ) (vm : Vm)
    → (gated s vm).strands s ≡ (
        if is_parked (vm.strands s).state
        then vm.strands s
        else record (vm.strands s) { state = parked; waiting_on = 0; wake_us = 0; link = 0 })
gated_strand s vm =
    let here : (s == s) ≡ true = ground arith in
    elim (Bool-cases (is_parked (vm.strands s).state)) [
      | inl e ↦ rw e refl
      | inr e ↦ rw (e, here) refl
    ]

enqueue_strand :
    (s : ℕ) (vm : Vm) (lists : ℕ → List ℕ)
    → IsWell vm lists
    → s ≢ 0
    → ((a : ℕ) → a ≢ 0 → has s (lists a) ≡ false)
    → (usched_enqueue s vm).strands s ≡ settled (vm.strands s) (has s (lists 0))
enqueue_strand s vm lists well nz idle = elim (Bool-cases (has s (lists 0))) [
  | inl inside ↦
      let (r, g) = well.queued s inside in
      let (alive, up) = is_ready (vm.strands s).state r in
      rw (inside, alive) (ap (λ (v : Vm). v.strands s) (stays s vm lists well nz inside))
  | inr out ↦
      let free = everywhere out in
      let far = not_tail well s nz free in
      let step = ap (λ (v : Vm). v.strands s) (comes_out s vm nz far (null_link well s nz free)) in
      elim (Bool-cases (is_dead (vm.strands s).state)) [
        | inl gone ↦ rw (out, gone) (step ∙ rw gone refl)
        | inr alive ↦ elim (Bool-cases ((vm.strands s).gates == 0)) [
          | inl clear ↦ rw (out, alive, clear) (step ∙ rw (alive, clear) (enqueued_strand s vm far))
          | inr held ↦ rw (out, alive, held) (step ∙ rw (alive, held) (gated_strand s vm))
        ]
      ]
]
  where
    everywhere : has s (lists 0) ≡ false → (a : ℕ) → has s (lists a) ≡ false
    everywhere out a = elim (Bool-cases (a == 0)) [
      | inl e ↦
          let is_zero : 0 ≡ a = ground (arith, e) in
          subst (λ m. has s (lists m) ≡ false) is_zero out
      | inr e ↦ idle a (ground (arith, e))
    ]

-- In a well-formed state and for a strand that is not on a wait list: usched_enqueue makes it READY at the end
-- of the run queue, unless it is dead or queued already, which changes nothing of it, or held by a gate, when
-- it is PARKED and in no list. The order of the others and every wait list stay, and so do the timers,
-- the dispatching strand, the flags of the tags, the realms, and all but the links of the other strands.
pub usched_enqueue_lem :
    (s : ℕ) (vm : Vm) (lists : ℕ → List ℕ)
    → IsWell vm lists
    → s ≢ 0
    → ((a : ℕ) → a ≢ 0 → has s (lists a) ≡ false)
    → IsWell
        (usched_enqueue s vm)
        (upd 0 (if joins vm s (lists 0) then lists 0 ++ s ∷ [] else lists 0) lists)
      × ((usched_enqueue s vm).strands s ≡ settled (vm.strands s) (has s (lists 0)))
      × Stays s vm (usched_enqueue s vm)
usched_enqueue_lem s vm lists well nz idle = (
  usched_enqueue-IsWell s vm lists well nz idle,
  enqueue_strand s vm lists well nz idle,
  Stays-enqueue s vm,
)
