-- ===== src/Scheduler/Park.antt =====
-- src/rt/usched.c: a strand parks, on a wait list or on none.
use urbi_embedded.Shared.{
  Bool, ap, ℕ, ◌≡◌, ◌≢◌, refl, sym, ◌∙◌, subst, arith, true, false, not, ◌&&◌, ◌||◌, List, ◌∷◌,
  ◌==◌, if◌then◌else◌, Bool-cases, inl, inr,
}
use urbi_embedded.Scheduler.{
  parked, Strand, Vm, usched_may_deschedule, usched_park, set_link, set_strand,
}
use urbi_embedded.Scheduler.Threads.{clash, upd, has}
use urbi_embedded.Scheduler.Joined.{IsThreaded-push}
use urbi_embedded.Scheduler.State.{links, heads, IsWell, IsThreaded-cong}
use urbi_embedded.Scheduler.Frame.{Stays, Stays-trans, Stays-link, Stays-strand, Stays-waiters}
use urbi_embedded.Scheduler.Settle.{other, IsWell-strand}

abbrev parking : ℕ → (waitlist wake_us : ℕ) → Vm → Strand
parking s waitlist wake_us vm = record (vm.strands s) {
  state = parked;
  waiting_on = waitlist;
  wake_us = wake_us;
  link = 0;
}

abbrev on_list : ℕ → (waitlist wake_us : ℕ) → Vm → Vm
on_list s waitlist wake_us vm =
    let vm1 = set_strand s (parking s waitlist wake_us vm) vm in
    let vm2 = set_link s (vm1.waiters waitlist) vm1 in
    record vm2 { waiters = upd waitlist s vm2.waiters }

on_list-links :
    (s w wake_us : ℕ) (vm : Vm) (k : ℕ)
    → w ≢ 0
    → upd s (heads vm w) (links vm) k ≡ links (on_list s w wake_us vm) k
on_list-links s w wake_us vm k nz = ground (arith, nz)

on_list-heads :
    (s w wake_us : ℕ) (vm : Vm) (a : ℕ)
    → w ≢ 0
    → upd w s (heads vm) a ≡ heads (on_list s w wake_us vm) a
on_list-heads s w wake_us vm a nz = ground (arith, nz)

on_list-fields :
    (s w wake_us : ℕ) (vm : Vm) (k : ℕ)
    → (k == s) ≡ false
    → (((on_list s w wake_us vm).strands k).state ≡ (vm.strands k).state)
      × (((on_list s w wake_us vm).strands k).gates ≡ (vm.strands k).gates)
      × (((on_list s w wake_us vm).strands k).waiting_on ≡ (vm.strands k).waiting_on)
on_list-fields s w wake_us vm k far = ground (arith, far)

on_list_self :
    (s w wake_us : ℕ) (vm : Vm)
    → (((on_list s w wake_us vm).strands s).state ≡ parked)
      × (((on_list s w wake_us vm).strands s).waiting_on ≡ w)
on_list_self s w wake_us vm = ground arith

IsWell-on_list :
    {vm : Vm} {lists : ℕ → List ℕ} (s w wake_us : ℕ)
    → IsWell vm lists
    → s ≢ 0
    → w ≢ 0
    → ((a : ℕ) → has s (lists a) ≡ false)
    → IsWell (on_list s w wake_us vm) (upd w (s ∷ lists w) lists)
IsWell-on_list {vm} {lists} s w wake_us well nz some_w free = record {
  threads =
      IsThreaded-cong _ _ _ _ _ _ (λ k some_k. on_list-links s w wake_us vm k some_w)
        (λ a. on_list-heads s w wake_us vm a some_w) (λ a. refl)
        (IsThreaded-push well.threads s nz free w);
  tail = let far : (0 == w) ≡ false = ground (arith, some_w) in rw far well.tail;
  queued = λ k h.
      let far : (0 == w) ≡ false = ground (arith, some_w) in
      let there : has k (lists 0) ≡ true = ground (arith, far, h) in
      let (r, g) = well.queued k there in
      let (state_same, gates_same, wait_same) =
        on_list-fields s w wake_us vm k (other well s nz free 0 k there) in
      (state_same ∙ r, gates_same ∙ g);
  waiting = λ a k some_a h. elim (Bool-cases (k == s)) [
    | inl same ↦
        let e : s ≡ k = ground (arith, same) in
        let is_w : w ≡ a = joined-self a k same h in
        let (p, v) = on_list_self s w wake_us vm in
        subst
          (λ m.
            (((on_list s w wake_us vm).strands m).state ≡ parked)
            × (((on_list s w wake_us vm).strands m).waiting_on ≡ a))
          e (p, v ∙ is_w)
    | inr far ↦
        let there : has k (lists a) ≡ true = joined-other a k far h in
        let (p, v) = well.waiting a k some_a there in
        let (state_same, gates_same, wait_same) = on_list-fields s w wake_us vm k far in
        (state_same ∙ p, wait_same ∙ v)
  ];
}
  where
    joined-self : (a k : ℕ) → (k == s) ≡ true → has k (upd w (s ∷ lists w) lists a) ≡ true → w ≡ a
    joined-self a k same h = elim (Bool-cases (a == w)) [
      | inl e ↦ ground (arith, e)
      | inr e ↦
          let is_s : s ≡ k = ground (arith, same) in
          let there : has k (lists a) ≡ true = ground (arith, e, h) in
          absurd (clash (sym (subst (λ m. has m (lists a) ≡ false) is_s (free a)) ∙ there))
    ]

    joined-other :
        (a k : ℕ)
        → (k == s) ≡ false
        → has k (upd w (s ∷ lists w) lists a) ≡ true
        → has k (lists a) ≡ true
    joined-other a k far h = elim (Bool-cases (a == w)) [
      | inl e ↦
          let is_w : w ≡ a = ground (arith, e) in
          let there : has k (lists w) ≡ true = ground (arith, e, far, h) in
          subst (λ m. has k (lists m) ≡ true) is_w there
      | inr e ↦ ground (arith, e, h)
    ]

pub usched_park-IsWell :
    (s waitlist wake_us : ℕ) (vm : Vm) (lists : ℕ → List ℕ)
    → IsWell vm lists
    → ((a : ℕ) → has s (lists a) ≡ false)
    → ((usched_park s waitlist wake_us vm).0
        ≡ (not (s == 0) && usched_may_deschedule (vm.strands s)))
      × IsWell ((usched_park s waitlist wake_us vm).1) (
          if (usched_park s waitlist wake_us vm).0 && not (waitlist == 0)
          then upd waitlist (s ∷ lists waitlist) lists
          else lists)
unfolding usched_park
usched_park-IsWell s waitlist wake_us vm lists well free =
    elim (Bool-cases (s == 0 || not (usched_may_deschedule (vm.strands s)))) [
      | inl refused ↦ rw refused (ground (arith, refused), well)
      | inr parks ↦
          let nz : s ≢ 0 = ground (arith, parks) in
          let yes : true ≡ (not (s == 0) && usched_may_deschedule (vm.strands s)) =
            ground (arith, parks) in
          elim (Bool-cases (waitlist == 0)) [
            | inl null ↦ rw (parks, null) (yes, IsWell-strand well s nz free _ refl)
            | inr listed ↦
                rw (parks, listed)
                  (yes, IsWell-on_list s waitlist wake_us well nz (ground (arith, listed)) free)
          ]
    ]

-- What becomes of the state: refused, nothing; and otherwise the strand is PARKED on the list until the deadline,
-- and keeps the rest.
abbrev pub Parks : (parks : Bool) → (s waitlist wake_us : ℕ) → Vm → Vm → Type 0
Parks true s waitlist wake_us vm vm' =
    (vm'.strands s ≡ record (vm.strands s) {
      state = parked;
      waiting_on = waitlist;
      wake_us = wake_us;
      link = if waitlist == 0 then 0 else vm.waiters waitlist;
    })
    × Stays s vm vm'
Parks false s waitlist wake_us vm vm' = vm' ≡ vm

Stays-on_list : (s w wake_us : ℕ) (vm : Vm) → Stays s vm (on_list s w wake_us vm)
Stays-on_list s w wake_us vm =
    let vm1 = set_strand s (parking s w wake_us vm) vm in
    let vm2 = set_link s (vm1.waiters w) vm1 in
    Stays-trans (Stays-strand s (parking s w wake_us vm) vm)
      (Stays-trans (Stays-link s s (vm1.waiters w) vm1) (Stays-waiters s (upd w s vm2.waiters) vm2))

on_list_strand :
    (s w wake_us : ℕ) (vm : Vm)
    → (on_list s w wake_us vm).strands s ≡ record (vm.strands s) {
      state = parked;
      waiting_on = w;
      wake_us = wake_us;
      link = vm.waiters w;
    }
on_list_strand s w wake_us vm = let here : (s == s) ≡ true = ground arith in rw here refl

off_list_strand :
    (s w wake_us : ℕ) (vm : Vm)
    → (set_strand s (parking s w wake_us vm) vm).strands s ≡ parking s w wake_us vm
off_list_strand s w wake_us vm = let here : (s == s) ≡ true = ground arith in rw here refl

park-Parks :
    (s waitlist wake_us : ℕ) (vm : Vm)
    → Parks
        ((usched_park s waitlist wake_us vm).0)
        s
        waitlist
        wake_us
        vm
        ((usched_park s waitlist wake_us vm).1)
unfolding usched_park
park-Parks s waitlist wake_us vm =
    elim (Bool-cases (s == 0 || not (usched_may_deschedule (vm.strands s)))) [
      | inl refused ↦ rw refused refl
      | inr parks ↦ elim (Bool-cases (waitlist == 0)) [
        | inl null ↦
            let next : (if waitlist == 0 then 0 else vm.waiters waitlist) ≡ 0 = rw null refl in
            rw (parks, null)
              (
                off_list_strand s waitlist wake_us vm ∙ ap parked_at (sym next),
                Stays-strand s (parking s waitlist wake_us vm) vm,
              )
        | inr listed ↦
            let next : (if waitlist == 0 then 0 else vm.waiters waitlist) ≡ vm.waiters waitlist =
              rw listed refl in
            rw (parks, listed)
              (
                on_list_strand s waitlist wake_us vm ∙ ap parked_at (sym next),
                Stays-on_list s waitlist wake_us vm,
              )
      ]
    ]
  where
    parked_at : ℕ → Strand
    parked_at next = record (parking s waitlist wake_us vm) { link = next }

-- In a well-formed state and for a strand that is in no list: usched_park refuses NULL, a spare strand and one inside a
-- boundary, and changes nothing then; it makes any other PARKED with the wait list and the deadline that it
-- is given, at the front of that list, or on none for NULL. The timers, the dispatching strand, the flags of
-- the tags, the realms, and all but the links of the other strands stay.
pub usched_park_lem :
    (s waitlist wake_us : ℕ) (vm : Vm) (lists : ℕ → List ℕ)
    → IsWell vm lists
    → ((a : ℕ) → has s (lists a) ≡ false)
    → ((usched_park s waitlist wake_us vm).0
        ≡ (not (s == 0) && usched_may_deschedule (vm.strands s)))
      × IsWell ((usched_park s waitlist wake_us vm).1) (
          if (usched_park s waitlist wake_us vm).0 && not (waitlist == 0)
          then upd waitlist (s ∷ lists waitlist) lists
          else lists)
      × Parks
          ((usched_park s waitlist wake_us vm).0)
          s
          waitlist
          wake_us
          vm
          ((usched_park s waitlist wake_us vm).1)
usched_park_lem s waitlist wake_us vm lists well free =
    let (answer, there) = usched_park-IsWell s waitlist wake_us vm lists well free in
    (answer, there, park-Parks s waitlist wake_us vm)
