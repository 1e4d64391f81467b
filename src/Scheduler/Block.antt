-- ===== src/Scheduler/Block.antt =====
-- src/rt/utag.c: utag_gate setting a bit of a tag, over the strands of all realms.
use urbi_embedded.Shared.{
  ℕ, ◌+◌, ◌≤◌, ◌≡◌, ◌≢◌, refl, sym, ap, ◌∙◌, subst, arith, Bool, true, false, not, ◌||◌, List, [],
  ◌∷◌, ◌==◌, Bool-cases, inl, inr, length, All, bit_or,
}
use urbi_embedded.Shared.Bits.{le-bit_or}
use urbi_embedded.Scheduler.{is_dead, Vm, usched_unqueue}
use urbi_embedded.Scheduler.Threads.{clash, upd, has}
use urbi_embedded.Scheduler.State.{IsWell}
use urbi_embedded.Scheduler.Gates.{
  is_ready, utag_covers, gate_strand, each_strand, each_realm, utag_gate,
}
use urbi_embedded.Scheduler.Blocked.{
  Same, Same-trans, Same-unqueue, Same-park, Going, gating, gate_strand-Going,
}

bit_or_some : (a b : ℕ) → b ≢ 0 → bit_or a b ≢ 0
bit_or_some a b nz =
    let (left, right) = le-bit_or (a + b) a b (omega arith) (omega arith) in
    omega (arith, right, nz)

or_stays : (a b : ℕ) → a ≢ 0 → bit_or a b ≢ 0
or_stays a b nz =
    let (left, right) = le-bit_or (a + b) a b (omega arith) (omega arith) in omega (arith, left, nz)

-- What a visit of `utag_gate` leaves of all strands: held ones stay held, the scopes stay, and so do the living.
record Holds (t : ℕ) (vm vm' : Vm) : Type 0 where
  pub held : (k : ℕ) → (vm.strands k).gates ≢ 0 → (vm'.strands k).gates ≢ 0
  pub covers : (k : ℕ) → utag_covers (vm'.strands k) t ≡ utag_covers (vm.strands k) t
  pub alive : (k : ℕ) → is_dead (vm.strands k).state ≡ false → is_dead (vm'.strands k).state ≡ false

Holds-refl : (t : ℕ) (vm : Vm) → Holds t vm vm
Holds-refl t vm = record { held = λ k h. h; covers = λ k. refl; alive = λ k h. h }

Holds-trans : {t : ℕ} {u v w : Vm} → Holds t u v → Holds t v w → Holds t u w
Holds-trans a b = record {
  held = λ k h. b.held k (a.held k h);
  covers = λ k. b.covers k ∙ a.covers k;
  alive = λ k h. b.alive k (a.alive k h);
}

Same-Holds : {t : ℕ} {vm vm' : Vm} → Same t vm vm' → Holds t vm vm'
Same-Holds same = record {
  held = λ k. subst (λ g. g ≢ 0) (sym (same.gates k));
  covers = same.covers;
  alive = same.alive;
}

gating-Holds : (t bit s : ℕ) (vm : Vm) → Holds t vm (gating bit s vm)
unfolding utag_covers
gating-Holds t bit s vm = record {
  held = λ k h. elim (Bool-cases (k == s)) [
    | inl same ↦
        let e : k ≡ s = ground (arith, same) in
        rw same (or_stays (vm.strands s).gates bit (subst (λ m. (vm.strands m).gates ≢ 0) e h))
    | inr far ↦ rw far h
  ];
  covers = λ k. elim (Bool-cases (k == s)) [
    | inl same ↦
        let e : s ≡ k = ground (arith, same) in rw same (ap (λ m. utag_covers (vm.strands m) t) e)
    | inr far ↦ rw far refl
  ];
  alive = λ k h. elim (Bool-cases (k == s)) [
    | inl same ↦
        let e : k ≡ s = ground (arith, same) in
        rw same (subst (λ m. is_dead (vm.strands m).state ≡ false) e h)
    | inr far ↦ rw far h
  ];
}

gating_held : (bit s : ℕ) (vm : Vm) → bit ≢ 0 → ((gating bit s vm).strands s).gates ≢ 0
gating_held bit s vm nz =
    let here : (s == s) ≡ true = ground arith in rw here (bit_or_some (vm.strands s).gates bit nz)

-- A visit holds the strand, if it lives and the tag covers it.
gate_strand-Holds :
    (rounds t bit s : ℕ) (vm : Vm)
    → bit ≢ 0
    → Holds t vm (gate_strand rounds t bit s vm)
      × (is_dead (vm.strands s).state ≡ false
          → utag_covers (vm.strands s) t ≡ true
          → ((gate_strand rounds t bit s vm).strands s).gates ≢ 0)
unfolding gate_strand
gate_strand-Holds rounds t bit s vm nz =
    let x = vm.strands s in
    let vm1 = gating bit s vm in
    let first = gating-Holds t bit s vm in
    let now = gating_held bit s vm nz in
    elim (Bool-cases (is_dead x.state || not (utag_covers x t))) [
      | inl skipped ↦
          rw skipped
            (Holds-refl t vm, λ lives covers. absurd (ground (arith, skipped, lives, covers)))
      | inr taken ↦ elim (Bool-cases (is_ready x.state)) [
        | inl up ↦
            let vm2 = usched_unqueue rounds s vm1 in
            let rest = Same-Holds (Same-trans (Same-unqueue t rounds s vm1) (Same-park t s vm2)) in
            rw (taken, up) (Holds-trans first rest, λ lives covers. rest.held s now)
        | inr down ↦ elim (Bool-cases (s == vm.current)) [
          | inl mine ↦
              let rest = Same-Holds (Same-park t s vm1) in
              rw (taken, down, mine) (Holds-trans first rest, λ lives covers. rest.held s now)
          | inr other ↦ rw (taken, down, other) (first, λ lives covers. now)
        ]
      ]
    ]

abbrev pub in_realms : ℕ → List (List ℕ) → Bool
in_realms k [] = false
in_realms k (strands ∷ rest) = has k strands || in_realms k rest

abbrev pub Numbers : List ℕ → Type 0
Numbers strands = All (λ s. s ≢ 0) strands

-- A strand of the tag's scope has been held by the time that the state `vm` has become `vm'`.
abbrev Caught : (t k : ℕ) → Vm → Vm → Type 0
Caught t k vm vm' =
    is_dead (vm.strands k).state ≡ false
    → utag_covers (vm.strands k) t ≡ true
    → (vm'.strands k).gates ≢ 0

record Visited (rounds t : ℕ) (vm vm' : Vm) (inside : ℕ → Bool) : Type 0 where
  pub lists : ℕ → List ℕ
  pub going : Going rounds vm' lists
  pub holds : Holds t vm vm'
  pub caught : (k : ℕ) → inside k ≡ true → Caught t k vm vm'

Visited-none :
    (rounds t : ℕ) (vm : Vm) (lists : ℕ → List ℕ)
    → Going rounds vm lists
    → Visited rounds t vm vm (λ k. false)
Visited-none rounds t vm lists going = record {
  lists = lists;
  going = going;
  holds = Holds-refl t vm;
  caught = λ k h. absurd (clash h);
}

Visited-then :
    {rounds t : ℕ} {u v w : Vm} {first rest : ℕ → Bool}
    → Holds t u v
    → ((k : ℕ) → first k ≡ true → Caught t k u v)
    → Visited rounds t v w rest
    → Visited rounds t u w (λ k. first k || rest k)
Visited-then {rounds} {t} {u} {v} {w} {first} {rest} holds caught later = record {
  lists = later.lists;
  going = later.going;
  holds = Holds-trans holds later.holds;
  caught = λ k h. elim (Bool-cases (first k)) [
    | inl here ↦ λ lives covers. later.holds.held k (caught k here lives covers)
    | inr away ↦ λ lives covers.
        later.caught k (ground (arith, away, h)) (holds.alive k lives) (holds.covers k ∙ covers)
  ];
}

each_strand-Visited :
    (rounds t bit : ℕ) (vm : Vm) (lists : ℕ → List ℕ) (strands : List ℕ)
    → bit ≢ 0
    → Numbers strands
    → Going rounds vm lists
    → Visited rounds t vm (each_strand (gate_strand rounds t bit) strands vm) (λ k. has k strands)
unfolding each_strand
each_strand-Visited rounds t bit vm lists [] nz numbers going = Visited-none rounds t vm lists going
each_strand-Visited rounds t bit vm lists (s ∷ rest) nz (some_s, numbers) going =
    let (lists', there) = gate_strand-Going rounds t bit s vm lists some_s going in
    let (holds, here) = gate_strand-Holds rounds t bit s vm nz in
    let vm' = gate_strand rounds t bit s vm in
    Visited-then holds
      (λ k same. let e : s ≡ k = ground (arith, same) in subst (λ m. Caught t m vm vm') e here)
      (each_strand-Visited rounds t bit vm' lists' rest nz numbers there)

each_realm-Visited :
    (rounds t bit : ℕ) (vm : Vm) (lists : ℕ → List ℕ) (realms : List (List ℕ))
    → bit ≢ 0
    → All Numbers realms
    → Going rounds vm lists
    → Visited rounds t vm
        (each_realm (gate_strand rounds t bit) realms vm)
        (λ k. in_realms k realms)
unfolding each_realm
each_realm-Visited rounds t bit vm lists [] nz numbers going = Visited-none rounds t vm lists going
each_realm-Visited rounds t bit vm lists (strands ∷ rest) nz (some_here, numbers) going =
    let here = each_strand-Visited rounds t bit vm lists strands nz some_here going in
    let vm' = each_strand (gate_strand rounds t bit) strands vm in
    Visited-then here.holds here.caught
      (each_realm-Visited rounds t bit vm' here.lists rest nz numbers here.going)

flagged-Going :
    {rounds : ℕ} {vm : Vm} {lists : ℕ → List ℕ} (flags : ℕ → ℕ)
    → IsWell vm lists
    → length (lists 0) ≤ rounds
    → ((a : ℕ) → has vm.current (lists a) ≡ false)
    → Going rounds (record vm { flags = flags }) lists
flagged-Going flags well few free = record {
  well = record {
    threads = well.threads;
    tail = well.tail;
    queued = well.queued;
    waiting = well.waiting;
  };
  few = few;
  current_free = free;
}

-- Setting a bit keeps the lists well formed.
pub utag_gate-IsWell :
    (rounds t bit : ℕ) (vm : Vm) (lists : ℕ → List ℕ)
    → IsWell vm lists
    → length (lists 0) ≤ rounds
    → ((a : ℕ) → has vm.current (lists a) ≡ false)
    → All Numbers vm.realms
    → t ≢ 0
    → bit ≢ 0
    → (lists' : ℕ → List ℕ) × IsWell (utag_gate rounds t bit true vm) lists'
unfolding utag_gate
utag_gate-IsWell rounds t bit vm lists well few free numbers some_t some_bit =
    let vm1 = record vm { flags = upd t (bit_or (vm.flags t) bit) vm.flags } in
    let seen =
      each_realm-Visited rounds t bit vm1 lists vm.realms some_bit numbers
        (flagged-Going vm1.flags well few free) in
    let null : (t == 0) ≡ false = ground (arith, some_t) in rw null (seen.lists, seen.going.well)

-- In a well-formed state with a queue of at most `rounds` strands, of which the dispatching one is not one, and for a
-- strand that lives, is in a realm and in the scope of the tag: after utag_gate has set a bit of the tag, the
-- state is well formed, and the strand is held by its gates and is not in the run queue.
pub utag_gate_lem :
    (rounds t bit : ℕ) (vm : Vm) (lists : ℕ → List ℕ) (k : ℕ)
    → IsWell vm lists
    → length (lists 0) ≤ rounds
    → ((a : ℕ) → has vm.current (lists a) ≡ false)
    → All Numbers vm.realms
    → t ≢ 0
    → bit ≢ 0
    → in_realms k vm.realms ≡ true
    → is_dead (vm.strands k).state ≡ false
    → utag_covers (vm.strands k) t ≡ true
    → (lists' : ℕ → List ℕ) × IsWell (utag_gate rounds t bit true vm) lists'
      × (((utag_gate rounds t bit true vm).strands k).gates ≢ 0)
      × (has k (lists' 0) ≡ false)
unfolding utag_gate
utag_gate_lem rounds t bit vm lists k well few free numbers some_t some_bit member lives covers =
    let vm1 = record vm { flags = upd t (bit_or (vm.flags t) bit) vm.flags } in
    let going : Going rounds vm1 lists = flagged-Going vm1.flags well few free in
    let seen = each_realm-Visited rounds t bit vm1 lists vm.realms some_bit numbers going in
    let held = seen.caught k member lives covers in
    let null : (t == 0) ≡ false = ground (arith, some_t) in
    rw null (
      seen.lists,
      seen.going.well,
      held,
      elim (Bool-cases (has k (seen.lists 0))) [
        | inr out ↦ out
        | inl inside ↦ absurd (held ((seen.going.well.queued k inside).1))
      ],
    )
