-- ===== src/Scheduler/Gates.antt =====
-- src/rt/utag.c: blocking and freezing a tag.
use urbi_embedded.Shared.{
  ℕ, ◌-◌, Bool, true, false, not, ◌&&◌, ◌||◌, List, [], ◌∷◌, ◌==◌, if◌then◌else◌, none, some,
  bit_and, bit_or,
}
use urbi_embedded.Timers.{usched_has_timer}
use urbi_embedded.Scheduler.{
  StrandState, ready, running, parked, dead, is_parked, is_dead, Cleanup, Strand, Vm, set_strand,
  usched_enqueue, usched_unqueue, usched_park,
}
use urbi_embedded.Scheduler.Threads.{upd}

abbrev pub is_ready : StrandState → Bool
is_ready ready = true
is_ready running = false
is_ready parked = false
is_ready dead = false

abbrev pub displaced : ℕ → List Cleanup → Bool
displaced t [] = false
displaced t (c ∷ cs) =
    let rest = displaced t cs in
    if not c.is_tag_scope
    then rest
    else elim c.saved [ none ↦ rest | some u ↦ if u == t then true else rest ]

unfoldable pub utag_covers : Strand → ℕ → Bool
utag_covers x t = if t == 0 then false else if x.tag == t then true else displaced t x.cleanup

-- `UTAG_F_BLOCKED | UTAG_F_FROZEN` is 3.
abbrev pub utag_gate_bits : (ℕ → ℕ) → ℕ → ℕ
utag_gate_bits flags t = if t == 0 then 0 else bit_and (flags t) 3

abbrev pub displaced_bits : (ℕ → ℕ) → ℕ → List Cleanup → ℕ
displaced_bits flags g [] = g
displaced_bits flags g (c ∷ cs) =
    let here = displaced_bits flags g cs in
    if not c.is_tag_scope then here else elim c.saved [
      | none ↦ here
      | some u ↦ displaced_bits flags (bit_or g (utag_gate_bits flags u)) cs
    ]

unfoldable pub utag_strand_gate_bits : (ℕ → ℕ) → Strand → ℕ
utag_strand_gate_bits flags x = displaced_bits flags (utag_gate_bits flags x.tag) x.cleanup

-- The body of the loops of `utag_gate`, for `on`.
unfoldable pub gate_strand : ℕ → (t bit : ℕ) → ℕ → Vm → Vm
gate_strand rounds t bit s vm =
    let x = vm.strands s in
    if is_dead x.state || not (utag_covers x t)
    then vm
    else (let vm1 = set_strand s (record x { gates = bit_or x.gates bit }) vm in
        if is_ready x.state
        then (usched_park s 0 0 (usched_unqueue rounds s vm1)).1
        else if s == vm.current
        then (usched_park s 0 0 vm1).1
        else vm1)

-- The same, for `!on`.
unfoldable pub release_strand : ℕ → ℕ → Vm → Vm
release_strand t s vm =
    let x = vm.strands s in
    if is_dead x.state || not (utag_covers x t)
    then vm
    else (let vm1 = set_strand s (record x { gates = utag_strand_gate_bits vm.flags x }) vm in
        let y = vm1.strands s in
        if y.gates == 0
          && is_parked y.state
          && y.waiting_on == 0
          && not (usched_has_timer vm1.timers s)
        then usched_enqueue s vm1
        else vm1)

unfoldable pub each_strand : (ℕ → Vm → Vm) → List ℕ → Vm → Vm
each_strand f [] vm = vm
each_strand f (s ∷ rest) vm = each_strand f rest (f s vm)

unfoldable pub each_realm : (ℕ → Vm → Vm) → List (List ℕ) → Vm → Vm
each_realm f [] vm = vm
each_realm f (strands ∷ rest) vm = each_realm f rest (each_strand f strands vm)

-- `t->flags & ~bit`
abbrev pub without_bit : ℕ → ℕ → ℕ
without_bit flags bit = bit_and flags (255 - bit)

-- `rounds` bounds the walks along the run queue.
unfoldable pub utag_gate : ℕ → (t bit : ℕ) → Bool → Vm → Vm
utag_gate rounds t bit on vm =
    let flags = if on then bit_or (vm.flags t) bit else without_bit (vm.flags t) bit in
    let vm1 = record vm { flags = upd t flags vm.flags } in
    if t == 0
    then vm
    else if on
    then each_realm (gate_strand rounds t bit) vm.realms vm1
    else each_realm (release_strand t) vm.realms vm1
