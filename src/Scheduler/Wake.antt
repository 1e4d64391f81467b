-- ===== src/Scheduler/Wake.antt =====
-- src/rt/usched.c: waking a parked strand.
use urbi_embedded.Shared.{
  ℕ, ◌≤◌, ◌≡◌, ◌≢◌, refl, sym, ap, ◌∙◌, subst, arith, true, false, not, ◌||◌, List, [], ◌∷◌, ◌++◌,
  ◌==◌, if◌then◌else◌, Bool-cases, inl, inr, length, Option,
}
use urbi_embedded.Scheduler.{
  StrandState, parked, is_parked, is_dead, Vm, usched_unlink_wait, usched_wake, usched_enqueue,
  deliver, drop_sleeper, set_link, set_strand,
}
use urbi_embedded.Scheduler.Threads.{upd}
use urbi_embedded.Scheduler.State.{IsWell}
use urbi_embedded.Scheduler.Queue.{upd_same}
use urbi_embedded.Scheduler.Settle.{IsWell-strand, null_link, joins, usched_enqueue-IsWell}
use urbi_embedded.Scheduler.Unlink.{without, unlink-Detached, delivered, IsWell-timers}

-- The strand in the state before the last line of `usched_wake`.
abbrev woken : ℕ → Option ℕ → Vm → Vm
woken s payload vm1 =
    let vm2 = record vm1 { timers = drop_sleeper s vm1.timers } in
    set_strand s (deliver payload (record (vm2.strands s) { wake_us = 0 })) vm2

woken_self :
    (s : ℕ) (payload : Option ℕ) (vm1 : Vm)
    → (((woken s payload vm1).strands s).state ≡ (vm1.strands s).state)
      × (((woken s payload vm1).strands s).gates ≡ (vm1.strands s).gates)
woken_self s payload vm1 =
    let x = record (vm1.strands s) { wake_us = 0 } in
    let (l, st, g) = delivered payload x in
    let same : (s == s) ≡ true = ground arith in (rw same st, rw same g)

is_held : (x : StrandState) → x ≡ parked → (is_dead x ≡ false) × (is_parked x ≡ true)
is_held x e = subst (λ y. (is_dead y ≡ false) × (is_parked y ≡ true)) (sym e) (refl, refl)

enqueue-timers : (s : ℕ) (vm : Vm) → (usched_enqueue s vm).timers ≡ vm.timers
unfolding usched_enqueue
enqueue-timers s vm = ground arith

pub usched_wake_lem :
    (rounds s : ℕ) (payload : Option ℕ) (vm : Vm) (lists : ℕ → List ℕ)
    → IsWell vm lists
    → s ≢ 0
    → (vm.strands s).state ≡ parked
    → length (lists ((vm.strands s).waiting_on)) ≤ rounds
    → IsWell (usched_wake rounds s payload vm) (
        upd 0
          (if (vm.strands s).gates == 0
            then without s vm lists 0 ++ s ∷ []
            else without s vm lists 0)
          (without s vm lists))
      × ((usched_wake rounds s payload vm).timers ≡ drop_sleeper s vm.timers)
unfolding usched_wake
usched_wake_lem rounds s payload vm lists well nz held few =
    let ls = without s vm lists in
    let out = unlink-Detached rounds s vm lists well nz held few in
    let vm1 = usched_unlink_wait rounds s vm in
    let vm3 = woken s payload vm1 in
    let well2 = IsWell-timers (drop_sleeper s vm1.timers) out.well in
    let x = record (vm1.strands s) { wake_us = 0 } in
    let null : (deliver payload x).link ≡ 0 =
      (delivered payload x).0 ∙ null_link out.well s nz out.free in
    let well3 : IsWell vm3 ls = IsWell-strand well2 s nz out.free (deliver payload x) null in
    let (state3, gates3) = woken_self s payload vm1 in
    let gates_same : (vm3.strands s).gates ≡ (vm.strands s).gates = gates3 ∙ out.gates_same in
    let (alive3, up3) = is_held (vm3.strands s).state (state3 ∙ out.state_same ∙ held) in
    let (alive, up) = is_held (vm.strands s).state held in
    let goes : (s == 0 || not (is_parked (vm.strands s).state)) ≡ false = ground (arith, nz, up) in
    let timers3 : vm3.timers ≡ drop_sleeper s vm.timers = ap (drop_sleeper s) out.timers_same in
    elim (Bool-cases ((vm.strands s).gates == 0)) [
      | inl clear ↦
          let clear3 : ((vm3.strands s).gates == 0) ≡ true = ap (λ g. g == 0) gates_same ∙ clear in
          let joined = usched_enqueue-IsWell s vm3 ls well3 nz (λ a some_a. out.free a) in
          let yes : joins vm3 s (ls 0) ≡ true = rw (alive3, out.free 0, clear3) refl in
          rw (goes, clear3, clear)
            (
              subst
                  (λ b.
                    IsWell (usched_enqueue s vm3) (upd 0 (if b then ls 0 ++ s ∷ [] else ls 0) ls))
                  yes joined,
              enqueue-timers s vm3 ∙ timers3,
            )
      | inr gate ↦
          let gate3 : ((vm3.strands s).gates == 0) ≡ false = ap (λ g. g == 0) gates_same ∙ gate in
          rw (goes, gate3, gate)
            (
              subst (IsWell (set_link s 0 vm3)) (sym (upd_same 0 ls))
                  (IsWell-strand well3 s nz out.free _ refl),
              timers3,
            )
    ]
