-- ===== src/Scheduler/Blocked.antt =====
-- src/rt/utag.c: the visit of one strand when a bit of a tag is set.
use urbi_embedded.Shared.{
  ℕ, ◌≤◌, ◌≡◌, ◌≢◌, refl, sym, ap, ◌∙◌, subst, arith, Bool, true, false, not, ◌&&◌, ◌||◌, List, [],
  ◌∷◌, ◌==◌, if◌then◌else◌, Bool-cases, inl, inr, length, Option, none, some, bit_or,
}
use urbi_embedded.Scheduler.{
  StrandState, ready, running, parked, dead, is_dead, Cleanup, Strand, Vm, find_before, set_link,
  set_strand, usched_unqueue, usched_park, usched_may_deschedule,
}
use urbi_embedded.Scheduler.Threads.{clash, upd, has, erase}
use urbi_embedded.Scheduler.Erase.{erased, erase-outside}
use urbi_embedded.Scheduler.State.{IsWell, IsWellBut, IsWellBut-IsWell, IsThreaded-cong}
use urbi_embedded.Scheduler.Queue.{unqueue-IsWell}
use urbi_embedded.Scheduler.Park.{usched_park-IsWell}
use urbi_embedded.Scheduler.Gates.{is_ready, displaced, utag_covers, gate_strand}

abbrev covered : (tag : ℕ) → List Cleanup → ℕ → Bool
covered tag cleanup t = if t == 0 then false else if tag == t then true else displaced t cleanup

covers-fields :
    (x y : Strand) (t : ℕ)
    → x.tag ≡ y.tag
    → x.cleanup ≡ y.cleanup
    → utag_covers x t ≡ utag_covers y t
unfolding utag_covers
covers-fields x y t e e' = λ i. covered (e i) (e' i) t

-- What moving a strand between the lists leaves of all strands: the gates, the scopes, and that they live.
pub record Same (t : ℕ) (vm vm' : Vm) : Type 0 where
  pub gates : (k : ℕ) → (vm'.strands k).gates ≡ (vm.strands k).gates
  pub covers : (k : ℕ) → utag_covers (vm'.strands k) t ≡ utag_covers (vm.strands k) t
  pub alive : (k : ℕ) → is_dead (vm.strands k).state ≡ false → is_dead (vm'.strands k).state ≡ false
  pub current : vm'.current ≡ vm.current

pub Same-refl : (t : ℕ) (vm : Vm) → Same t vm vm
Same-refl t vm = record { gates = λ k. refl; covers = λ k. refl; alive = λ k h. h; current = refl }

pub Same-trans : {t : ℕ} {u v w : Vm} → Same t u v → Same t v w → Same t u w
Same-trans a b = record {
  gates = λ k. b.gates k ∙ a.gates k;
  covers = λ k. b.covers k ∙ a.covers k;
  alive = λ k h. b.alive k (a.alive k h);
  current = b.current ∙ a.current;
}

Same-strand :
    (t s : ℕ) (y : Strand) (vm : Vm)
    → y.gates ≡ (vm.strands s).gates
    → y.tag ≡ (vm.strands s).tag
    → y.cleanup ≡ (vm.strands s).cleanup
    → (is_dead (vm.strands s).state ≡ false → is_dead y.state ≡ false)
    → Same t vm (set_strand s y vm)
Same-strand t s y vm g tag cleanup alive = record {
  gates = λ k. at k (λ x x'. x'.gates ≡ x.gates) g (λ j. refl);
  covers = λ k.
      at k (λ x x'. utag_covers x' t ≡ utag_covers x t)
        (covers-fields y (vm.strands s) t tag cleanup) (λ j. refl);
  alive = λ k. at k (λ x x'. is_dead x.state ≡ false → is_dead x'.state ≡ false) alive (λ j h. h);
  current = refl;
}
  where
    at :
        (k : ℕ) (P : Strand → Strand → Type 0)
        → P (vm.strands s) y
        → ((j : ℕ) → P (vm.strands j) (vm.strands j))
        → P (vm.strands k) ((set_strand s y vm).strands k)
    at k P here there = elim (Bool-cases (k == s)) [
      | inl same ↦
          let e : s ≡ k = ground (arith, same) in rw same (subst (λ m. P (vm.strands m) y) e here)
      | inr far ↦ rw far (there k)
    ]

Same-link : (t s to : ℕ) (vm : Vm) → Same t vm (set_link s to vm)
Same-link t s to vm =
    Same-strand t s (record (vm.strands s) { link = to }) vm refl refl refl (λ h. h)

Same-head : (t to : ℕ) (vm : Vm) → Same t vm (record vm { run_head = to })
Same-head t to vm = record {
  gates = λ k. refl;
  covers = λ k. refl;
  alive = λ k h. h;
  current = refl;
}

Same-tail : (t to : ℕ) (vm : Vm) → Same t vm (record vm { run_tail = to })
Same-tail t to vm = record {
  gates = λ k. refl;
  covers = λ k. refl;
  alive = λ k h. h;
  current = refl;
}

Same-if : {t : ℕ} {u v w : Vm} (b : Bool) → Same t u v → Same t u w → Same t u (if b then v else w)
Same-if true a c = a
Same-if false a c = c

pub Same-unqueue : (t rounds s : ℕ) (vm : Vm) → Same t vm (usched_unqueue rounds s vm)
unfolding usched_unqueue
Same-unqueue t rounds s vm =
    Same-if (s == 0) (Same-refl t vm) (found (find_before rounds s 0 vm.run_head vm))
  where
    found :
        (o : Option ℕ)
        → Same t vm (elim o [
          | none ↦ vm
          | some prev ↦
              let next = (vm.strands s).link in
              let vm1 =
                if not (prev == 0) then set_link prev next vm else record vm { run_head = next } in
              let vm2 = if vm1.run_tail == s then record vm1 { run_tail = prev } else vm1 in
              set_link s 0 vm2
        ])
    found none = Same-refl t vm
    found (some prev) =
        let next = (vm.strands s).link in
        let vm1 =
          if not (prev == 0) then set_link prev next vm else record vm { run_head = next } in
        let vm2 = if vm1.run_tail == s then record vm1 { run_tail = prev } else vm1 in
        Same-trans (Same-if (not (prev == 0)) (Same-link t prev next vm) (Same-head t next vm)) (
          Same-trans (Same-if (vm1.run_tail == s) (Same-tail t prev vm1) (Same-refl t vm1))
            (Same-link t s 0 vm2))

pub Same-park : (t s : ℕ) (vm : Vm) → Same t vm ((usched_park s 0 0 vm).1)
unfolding usched_park
Same-park t s vm = elim (Bool-cases (s == 0 || not (usched_may_deschedule (vm.strands s)))) [
  | inl refused ↦ rw refused (Same-refl t vm)
  | inr parks ↦ rw parks (Same-strand t s _ vm refl refl refl (λ h. refl))
]

length-erase : (s : ℕ) (xs : List ℕ) → length (erase s xs) ≤ length xs
length-erase s [] = omega arith
length-erase s (x ∷ xs) =
    let shorter = length-erase s xs in
    elim (Bool-cases (s == x)) [
      | inl same ↦ ground (arith, same)
      | inr apart ↦ ground (arith, apart, shorter)
    ]

-- What the state is like at each strand that `utag_gate` comes to.
pub record Going (rounds : ℕ) (vm : Vm) (lists : ℕ → List ℕ) : Type 0 where
  pub well : IsWell vm lists
  pub few : length (lists 0) ≤ rounds
  pub current_free : (a : ℕ) → has vm.current (lists a) ≡ false

abbrev pub gating : ℕ → ℕ → Vm → Vm
gating bit s vm =
    set_strand s (record (vm.strands s) { gates = bit_or (vm.strands s).gates bit }) vm

gating-IsWellBut :
    {vm : Vm} {lists : ℕ → List ℕ} (bit s : ℕ)
    → IsWell vm lists
    → IsWellBut s (gating bit s vm) lists
gating-IsWellBut {vm} {lists} bit s well = record {
  threads = IsThreaded-cong _ _ _ _ _ _ (λ k nz. ground arith) (λ a. refl) (λ a. refl) well.threads;
  tail = well.tail;
  queued = λ k far h. rw far (well.queued k h);
  waiting = λ a k nz h.
      let (p, w) = well.waiting a k nz h in
      elim (Bool-cases (k == s)) [
        | inl same ↦
            let e : k ≡ s = ground (arith, same) in
            rw same (
              subst (λ m. ((vm.strands m).state ≡ parked) × ((vm.strands m).waiting_on ≡ a)) e
                (p, w))
        | inr far ↦ rw far (p, w)
      ];
}

ready-parked : (x : StrandState) → is_ready x ≡ true → x ≡ parked → ⊥
ready-parked ready h e = cc
ready-parked running h e = cc
ready-parked parked h e = cc
ready-parked dead h e = cc

is_ready_ready : (x : StrandState) → x ≡ ready → is_ready x ≡ true
is_ready_ready x e = ap is_ready e

-- A strand that parks on no list leaves the lists as they are.
park-IsWell :
    {vm : Vm} {lists : ℕ → List ℕ} (s : ℕ)
    → IsWell vm lists
    → ((a : ℕ) → has s (lists a) ≡ false)
    → IsWell ((usched_park s 0 0 vm).1) lists
park-IsWell {vm} {lists} s well free =
    let (answer, parked_well) = usched_park-IsWell s 0 0 vm lists well free in
    subst (IsWell ((usched_park s 0 0 vm).1)) (neither ((usched_park s 0 0 vm).0)) parked_well
  where
    neither : (b : Bool) → (if b && not (0 == 0) then upd 0 (s ∷ lists 0) lists else lists) ≡ lists
    neither true = refl
    neither false = refl

pub gate_strand-Going :
    (rounds t bit s : ℕ) (vm : Vm) (lists : ℕ → List ℕ)
    → s ≢ 0
    → Going rounds vm lists
    → (lists' : ℕ → List ℕ) × Going rounds (gate_strand rounds t bit s vm) lists'
unfolding gate_strand
gate_strand-Going rounds t bit s vm lists nz going =
    let x = vm.strands s in
    let vm1 = gating bit s vm in
    let but = gating-IsWellBut bit s going.well in
    elim (Bool-cases (is_dead x.state || not (utag_covers x t))) [
      | inl skipped ↦ rw skipped (lists, going)
      | inr taken ↦ elim (Bool-cases (is_ready x.state)) [
        | inl up ↦
            let there = unqueue-IsWell rounds s vm1 lists but going.few in
            let vm2 = usched_unqueue rounds s vm1 in
            let same = Same-trans (Same-unqueue t rounds s vm1) (Same-park t s vm2) in
            rw (taken, up)
              (
                upd 0 (erase s (lists 0)) lists,
                record {
                  well = park-IsWell s there (gone up);
                  few = omega (arith, length-erase s (lists 0), going.few);
                  current_free = λ a.
                      subst (λ c. has c (upd 0 (erase s (lists 0)) lists a) ≡ false)
                        (sym same.current) (still_free vm.current going.current_free a);
                },
              )
        | inr down ↦
            let unqueued : has s (lists 0) ≡ false = not_queued down in
            let well1 = IsWellBut-IsWell s unqueued but in
            elim (Bool-cases (s == vm.current)) [
              | inl mine ↦
                  let e : vm.current ≡ s = ground (arith, mine) in
                  let free : (a : ℕ) → has s (lists a) ≡ false =
                    subst (λ c. (a : ℕ) → has c (lists a) ≡ false) e going.current_free in
                  rw (taken, down, mine)
                    (
                      lists,
                      record {
                        well = park-IsWell s well1 free;
                        few = going.few;
                        current_free = λ a.
                            subst (λ c. has c (lists a) ≡ false) (sym (Same-park t s vm1).current)
                              (going.current_free a);
                      },
                    )
              | inr other ↦
                  rw (taken, down, other)
                    (
                      lists,
                      record { well = well1; few = going.few; current_free = going.current_free },
                    )
            ]
      ]
    ]
  where
    not_queued : is_ready (vm.strands s).state ≡ false → has s (lists 0) ≡ false
    not_queued down = elim (Bool-cases (has s (lists 0))) [
      | inr out ↦ out
      | inl inside ↦
          absurd (
            clash (sym down ∙ is_ready_ready (vm.strands s).state ((going.well.queued s inside).0)))
    ]

    still_free :
        (c : ℕ)
        → ((a : ℕ) → has c (lists a) ≡ false)
        → (a : ℕ) → has c (upd 0 (erase s (lists 0)) lists a) ≡ false
    still_free c free a = elim (Bool-cases (a == 0)) [
      | inl e ↦ rw e (erase-outside c s (lists 0) (free 0))
      | inr e ↦ rw e (free a)
    ]

    gone :
        is_ready (vm.strands s).state ≡ true
        → (a : ℕ) → has s (upd 0 (erase s (lists 0)) lists a) ≡ false
    gone up a = elim (Bool-cases (a == 0)) [
      | inl e ↦ rw e (erased s (lists 0) (going.well.threads.distinct 0))
      | inr e ↦ rw e (elim (Bool-cases (has s (lists a))) [
        | inr out ↦ out
        | inl inside ↦ absurd (
            ready-parked (vm.strands s).state up
              ((going.well.waiting a s (ground (arith, e)) inside).0))
      ])
    ]
