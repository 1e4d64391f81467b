-- ===== src/Scheduler/Unlink.antt =====
-- src/rt/usched.c: a strand leaves the wait list that it is on, and is woken.
use urbi_embedded.Shared.{
  ℕ, ◌≤◌, ◌≡◌, ◌≢◌, refl, sym, ap, ◌∙◌, subst, arith, true, false, List, ◌==◌, if◌then◌else◌,
  Bool-cases, inl, inr, length, Option, none, some,
}
use urbi_embedded.Scheduler.{
  ready, parked, Strand, Vm, usched_unlink_wait, deliver, set_link, set_strand,
}
use urbi_embedded.Timers.{Sched}
use urbi_embedded.Scheduler.Threads.{clash, upd, has, erase, before, Linked}
use urbi_embedded.Scheduler.Erase.{erase_absent, erased, erase-inside}
use urbi_embedded.Scheduler.Threaded.{IsThreaded-remove}
use urbi_embedded.Scheduler.State.{
  links, heads, IsWell, IsThreaded-cong, find_before-before, find_before-none,
}
use urbi_embedded.Scheduler.Queue.{upd_same}
use urbi_embedded.Scheduler.Settle.{IsWell-strand}

-- The state behind `usched_unlink_wait`, `prev` being the strand before `s` on the list at `w`.
abbrev unlisted : (s w prev : ℕ) → Vm → Vm
unlisted s w prev vm =
    let next = (vm.strands s).link in
    let vm1 : Vm =
      if prev == 0 then record vm { waiters = upd w next vm.waiters } else set_link prev next vm in
    set_strand s (record (vm1.strands s) { waiting_on = 0; link = 0 }) vm1

unlisted-links :
    (s w prev : ℕ) (vm : Vm) (k : ℕ)
    → k ≢ 0
    → upd s 0 (upd prev (links vm s) (links vm)) k ≡ links (unlisted s w prev vm) k
unlisted-links s w prev vm k nz = ground (arith, nz)

unlisted-heads :
    (s w prev : ℕ) (vm : Vm) (a : ℕ)
    → w ≢ 0
    → upd w (if prev == 0 then links vm s else heads vm w) (heads vm) a
      ≡ heads (unlisted s w prev vm) a
unlisted-heads s w prev vm a nz = ground (arith, nz)

unlisted-fields :
    (s w prev : ℕ) (vm : Vm) (k : ℕ)
    → (((unlisted s w prev vm).strands k).state ≡ (vm.strands k).state)
      × (((unlisted s w prev vm).strands k).gates ≡ (vm.strands k).gates)
      × ((k == s) ≡ false
          → ((unlisted s w prev vm).strands k).waiting_on ≡ (vm.strands k).waiting_on)
unlisted-fields s w prev vm k = (ground arith, ground arith, λ far. ground (arith, far))

unlisted_rest :
    (s w prev : ℕ) (vm : Vm)
    → ((unlisted s w prev vm).run_tail ≡ vm.run_tail) × ((unlisted s w prev vm).timers ≡ vm.timers)
unlisted_rest s w prev vm = elim (Bool-cases (prev == 0)) [
  | inl e ↦ rw e (refl, refl)
  | inr e ↦ rw e (refl, refl)
]

-- What `usched_unlink_wait` leaves: a well-formed state in which the strand is in no list, parked and gated as before.
pub record Detached (s : ℕ) (vm vm' : Vm) (lists : ℕ → List ℕ) : Type 0 where
  pub well : IsWell vm' lists
  pub free : (a : ℕ) → has s (lists a) ≡ false
  pub state_same : (vm'.strands s).state ≡ (vm.strands s).state
  pub gates_same : (vm'.strands s).gates ≡ (vm.strands s).gates
  pub timers_same : vm'.timers ≡ vm.timers

Detached-unlisted :
    {vm : Vm} {lists : ℕ → List ℕ} (s w : ℕ)
    → IsWell vm lists
    → w ≢ 0
    → has s (lists w) ≡ true
    → Detached s vm (unlisted s w (before s 0 (lists w)) vm) (upd w (erase s (lists w)) lists)
Detached-unlisted {vm} {lists} s w well some_w inside =
    let prev = before s 0 (lists w) in
    let t = well.threads in
    let (state_s, gates_s, rest) = unlisted-fields s w prev vm s in
    record {
      well = record {
        threads =
            IsThreaded-cong _ _ _ _ _ _ (unlisted-links s w prev vm)
              (λ a. unlisted-heads s w prev vm a some_w) (λ a. refl)
              (IsThreaded-remove t s w inside);
        tail =
            let far : (0 == w) ≡ false = ground (arith, some_w) in
            rw far ((unlisted_rest s w prev vm).0 ∙ well.tail);
        queued = λ k h.
            let far : (0 == w) ≡ false = ground (arith, some_w) in
            let there : has k (lists 0) ≡ true = ground (arith, far, h) in
            let (r, g) = well.queued k there in
            let (state_same, gates_same, wait_same) = unlisted-fields s w prev vm k in
            (state_same ∙ r, gates_same ∙ g);
        waiting = λ a k some_a h.
            let there = left a k h in
            let (p, v) = well.waiting a k some_a there in
            let (state_same, gates_same, wait_same) = unlisted-fields s w prev vm k in
            (state_same ∙ p, wait_same (not_s a k h) ∙ v);
      };
      free = gone;
      state_same = state_s;
      gates_same = gates_s;
      timers_same = (unlisted_rest s w prev vm).1;
    }
  where
    gone : (a : ℕ) → has s (upd w (erase s (lists w)) lists a) ≡ false
    gone a = elim (Bool-cases (a == w)) [
      | inl e ↦ rw e (erased s (lists w) (well.threads.distinct w))
      | inr e ↦ rw e (elim (Bool-cases (has s (lists a))) [
        | inl h ↦ let same = well.threads.apart a w s h inside in absurd (ground (arith, same, e))
        | inr h ↦ h
      ])
    ]

    left : (a k : ℕ) → has k (upd w (erase s (lists w)) lists a) ≡ true → has k (lists a) ≡ true
    left a k h = elim (Bool-cases (a == w)) [
      | inl e ↦
          let is_w : w ≡ a = ground (arith, e) in
          let there : has k (erase s (lists w)) ≡ true = ground (arith, e, h) in
          subst (λ m. has k (lists m) ≡ true) is_w (erase-inside k s (lists w) there)
      | inr e ↦ ground (arith, e, h)
    ]

    not_s : (a k : ℕ) → has k (upd w (erase s (lists w)) lists a) ≡ true → (k == s) ≡ false
    not_s a k h = elim (Bool-cases (k == s)) [
      | inr far ↦ far
      | inl same ↦
          let e : s ≡ k = ground (arith, same) in
          absurd (
            clash
              (sym (subst (λ m. has m (upd w (erase s (lists w)) lists a) ≡ false) e (gone a)) ∙ h))
    ]

-- A parked strand is on the list that it says it waits on, or on none.
parked_free :
    {vm : Vm} {lists : ℕ → List ℕ} (s : ℕ)
    → IsWell vm lists
    → (vm.strands s).state ≡ parked
    → ((vm.strands s).waiting_on ≢ 0 → has s (lists ((vm.strands s).waiting_on)) ≡ false)
    → (a : ℕ) → has s (lists a) ≡ false
parked_free {vm} {lists} s well held unlisted a = elim (Bool-cases (has s (lists a))) [
  | inr out ↦ out
  | inl inside ↦ elim (Bool-cases (a == 0)) [
    | inl e ↦
        let is_zero : a ≡ 0 = ground (arith, e) in
        let (r, g) = well.queued s (subst (λ m. has s (lists m) ≡ true) is_zero inside) in
        absurd (differ (sym r ∙ held))
    | inr e ↦
        let (p, w) = well.waiting a s (ground (arith, e)) inside in
        absurd (
          clash (
            sym (unlisted (ground (arith, e, w)))
            ∙ subst (λ m. has s (lists m) ≡ true) (sym w) inside))
  ]
]
  where
    differ : ready ≡ parked → ⊥
    differ e = cc

-- `lists` when `s` has left the wait list that it says it is on.
abbrev pub without : ℕ → Vm → (ℕ → List ℕ) → ℕ → List ℕ
without s vm lists =
    let w = (vm.strands s).waiting_on in if w == 0 then lists else upd w (erase s (lists w)) lists

pub unlink-Detached :
    (rounds s : ℕ) (vm : Vm) (lists : ℕ → List ℕ)
    → IsWell vm lists
    → s ≢ 0
    → (vm.strands s).state ≡ parked
    → length (lists ((vm.strands s).waiting_on)) ≤ rounds
    → Detached s vm (usched_unlink_wait rounds s vm) (without s vm lists)
unfolding usched_unlink_wait
unlink-Detached rounds s vm lists well nz held few =
    let w = (vm.strands s).waiting_on in
    elim (Bool-cases (w == 0)) [
      | inl null ↦ rw null (record {
        well = well;
        free = parked_free s well held (λ n. absurd (ground (arith, n, null)));
        state_same = refl;
        gates_same = refl;
        timers_same = refl;
      })
      | inr listed ↦
          let some_w : w ≢ 0 = ground (arith, listed) in
          let at : heads vm w ≡ vm.waiters w = rw listed refl in
          let chain : Linked (links vm) (vm.waiters w) (lists w) =
            subst (λ h. Linked (links vm) h (lists w)) at (well.threads.chain w) in
          elim (Bool-cases (has s (lists w))) [
            | inl inside ↦
                let found =
                  find_before-before rounds s 0 (vm.waiters w) vm (lists w) chain inside few in
                rw (listed, found) (Detached-unlisted s w well some_w inside)
            | inr out ↦
                let missed = find_before-none rounds s 0 (vm.waiters w) vm (lists w) chain out in
                let free = parked_free s well held (λ n. out) in
                let same : upd w (erase s (lists w)) lists ≡ lists =
                  ap (λ xs. upd w xs lists) (erase_absent s (lists w) out) ∙ upd_same w lists in
                rw (listed, missed)
                  (subst
                    (λ ls.
                      Detached s vm
                        (set_strand s (record (vm.strands s) { waiting_on = 0; link = 0 }) vm) ls)
                    (sym same)
                    (record {
                      well = IsWell-strand well s nz free _ refl;
                      free = free;
                      state_same = ground arith;
                      gates_same = ground arith;
                      timers_same = refl;
                    }))
          ]
    ]

pub delivered :
    (payload : Option ℕ) (x : Strand)
    → ((deliver payload x).link ≡ x.link)
      × ((deliver payload x).state ≡ x.state)
      × ((deliver payload x).gates ≡ x.gates)
delivered none x = (refl, refl, refl)
delivered (some v) x = elim (Bool-cases (x.unwind == 0)) [
  | inl e ↦ rw e (refl, refl, refl)
  | inr e ↦ rw e (refl, refl, refl)
]

pub IsWell-timers :
    {vm : Vm} {lists : ℕ → List ℕ} (sc : Sched)
    → IsWell vm lists
    → IsWell (record vm { timers = sc }) lists
IsWell-timers sc well = record {
  threads = well.threads;
  tail = well.tail;
  queued = well.queued;
  waiting = well.waiting;
}
