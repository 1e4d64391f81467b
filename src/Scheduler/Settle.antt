-- ===== src/Scheduler/Settle.antt =====
-- src/rt/usched.c: a strand joins the run queue at its end, or stays out.
use urbi_embedded.Shared.{
  ℕ, ◌≡◌, ◌≢◌, refl, sym, ◌∙◌, subst, arith, Bool, true, false, not, ◌&&◌, List, [], ◌∷◌, ◌++◌,
  ◌==◌, if◌then◌else◌, Bool-cases, inl, inr,
}
use urbi_embedded.Scheduler.{
  StrandState, ready, parked, is_parked, is_dead, Strand, Vm, usched_enqueue, set_link, set_strand,
}
use urbi_embedded.Scheduler.Threads.{clash, upd, has, last}
use urbi_embedded.Scheduler.Erase.{last-or-linked}
use urbi_embedded.Scheduler.Joined.{IsThreaded-append, has-append, last-cases}
use urbi_embedded.Scheduler.State.{links, heads, IsWell, IsThreaded-cong}
use urbi_embedded.Scheduler.Queue.{upd_same}

-- The state behind the last line of `usched_enqueue`.
abbrev pub enqueued : ℕ → Vm → Vm
enqueued s vm =
    let vm1 =
      set_strand s (record (vm.strands s) { state = ready; waiting_on = 0; wake_us = 0; link = 0 })
        vm in
    let vm2 =
      if not (vm1.run_tail == 0)
      then set_link vm1.run_tail s vm1
      else record vm1 { run_head = s } in
    record vm2 { run_tail = s }

-- The state behind the gate's branch.
abbrev pub gated : ℕ → Vm → Vm
gated s vm =
    if is_parked (vm.strands s).state
    then vm
    else set_strand s
        (record (vm.strands s) { state = parked; waiting_on = 0; wake_us = 0; link = 0 }) vm

enqueued-links :
    (s : ℕ) (vm : Vm) (z k : ℕ)
    → k ≢ 0
    → vm.run_tail ≡ z
    → upd z s (upd s 0 (links vm)) k ≡ links (enqueued s vm) k
enqueued-links s vm z k nz e = ground (arith, nz, e)

enqueued-heads :
    (s : ℕ) (vm : Vm) (z a : ℕ)
    → vm.run_tail ≡ z
    → upd 0 (if z == 0 then s else heads vm 0) (heads vm) a ≡ heads (enqueued s vm) a
enqueued-heads s vm z a e = ground (arith, e)

enqueued-fields :
    (s : ℕ) (vm : Vm) (k : ℕ)
    → (k == s) ≡ false
    → (((enqueued s vm).strands k).state ≡ (vm.strands k).state)
      × (((enqueued s vm).strands k).gates ≡ (vm.strands k).gates)
      × (((enqueued s vm).strands k).waiting_on ≡ (vm.strands k).waiting_on)
enqueued-fields s vm k far = ground (arith, far)

enqueued_self :
    (s : ℕ) (vm : Vm)
    → (((enqueued s vm).strands s).state ≡ ready)
      × (((enqueued s vm).strands s).gates ≡ (vm.strands s).gates)
enqueued_self s vm = ground arith

last-end : (s : ℕ) (xs : List ℕ) → s ≢ 0 → last (xs ++ s ∷ []) ≡ s
last-end s [] nz = refl
last-end s (x ∷ xs) nz = ground (arith, nz, last-end s xs nz)

module _ {vm : Vm} {lists : ℕ → List ℕ} (well : IsWell vm lists) (s : ℕ) (nz : s ≢ 0)
    (free : (a : ℕ) → has s (lists a) ≡ false) where
  pub other : (a k : ℕ) → has k (lists a) ≡ true → (k == s) ≡ false
  other a k h = elim (Bool-cases (k == s)) [
    | inl same ↦
        let e : s ≡ k = ground (arith, same) in
        absurd (clash (sym (subst (λ m. has m (lists a) ≡ false) e (free a)) ∙ h))
    | inr apart ↦ apart
  ]

  pub IsWell-enqueued :
      (vm.strands s).gates ≡ 0 → IsWell (enqueued s vm) (upd 0 (lists 0 ++ s ∷ []) lists)
  IsWell-enqueued unheld =
      let z = last (lists 0) in
      record {
        threads =
            IsThreaded-cong _ _ _ _ _ _ (λ k some_k. enqueued-links s vm z k some_k well.tail)
              (λ a. enqueued-heads s vm z a well.tail) (λ a. refl)
              (IsThreaded-append well.threads s nz free 0);
        tail = sym (last-end s (lists 0) nz);
        queued = λ k h. elim (Bool-cases (k == s)) [
          | inl same ↦
              let e : s ≡ k = ground (arith, same) in
              let (r, g) = enqueued_self s vm in
              subst
                (λ m.
                  (((enqueued s vm).strands m).state ≡ ready)
                  × (((enqueued s vm).strands m).gates ≡ 0))
                e (r, g ∙ unheld)
          | inr far ↦
              let there : has k (lists 0) ≡ true =
                ground (arith, far, h, has-append k s (lists 0)) in
              let (r, g) = well.queued k there in
              let (state_same, gates_same, wait_same) = enqueued-fields s vm k far in
              (state_same ∙ r, gates_same ∙ g)
        ];
        waiting = λ a k some_a h.
            let out : (a == 0) ≡ false = ground (arith, some_a) in
            let there : has k (lists a) ≡ true = ground (arith, out, h) in
            let (p, w) = well.waiting a k some_a there in
            let (state_same, gates_same, wait_same) = enqueued-fields s vm k (other a k there) in
            (state_same ∙ p, wait_same ∙ w);
      }

  pub null_link : (vm.strands s).link ≡ 0
  null_link = well.threads.loose s nz free

  -- A strand in no sequence may change in all but its link.
  pub IsWell-strand : (x : Strand) → x.link ≡ 0 → IsWell (set_strand s x vm) lists
  IsWell-strand x null = record {
    threads =
        IsThreaded-cong _ _ _ _ _ _ (λ k some_k. ground (arith, null_link, null)) (λ a. refl)
          (λ a. refl) well.threads;
    tail = well.tail;
    queued = λ k h. let far = other 0 k h in rw far (well.queued k h);
    waiting = λ a k some_a h. let far = other a k h in rw far (well.waiting a k some_a h);
  }

  pub not_tail : (s == vm.run_tail) ≡ false
  not_tail = elim (Bool-cases (s == vm.run_tail)) [
    | inr apart ↦ apart
    | inl same ↦
        let e : s ≡ last (lists 0) = ground (arith, same, well.tail) in
        elim (last-cases (links vm) vm.run_head (lists 0) (well.threads.chain 0)) [
          | inl null ↦ absurd (nz (e ∙ null))
          | inr there ↦
              absurd (clash (sym (free 0) ∙ subst (λ m. has m (lists 0) ≡ true) (sym e) there))
        ]
  ]

gated-IsWell :
    {vm : Vm} {lists : ℕ → List ℕ}
    → IsWell vm lists
    → (s : ℕ) → s ≢ 0
    → ((a : ℕ) → has s (lists a) ≡ false)
    → IsWell (gated s vm) lists
gated-IsWell {vm} well s nz free = elim (Bool-cases (is_parked (vm.strands s).state)) [
  | inl held ↦ rw held well
  | inr held ↦ rw held (IsWell-strand well s nz free _ refl)
]

-- Whether `usched_enqueue` puts the strand at the end of the queue.
abbrev pub joins : Vm → ℕ → List ℕ → Bool
joins vm s queue =
    not (is_dead (vm.strands s).state) && (not (has s queue) && (vm.strands s).gates == 0)

pub is_ready : (x : StrandState) → x ≡ ready → (is_dead x ≡ false) × (is_parked x ≡ false)
is_ready x e = subst (λ y. (is_dead y ≡ false) × (is_parked y ≡ false)) (sym e) (refl, refl)

pub stays :
    (s : ℕ) (vm : Vm) (lists : ℕ → List ℕ)
    → IsWell vm lists
    → s ≢ 0
    → has s (lists 0) ≡ true
    → usched_enqueue s vm ≡ vm
unfolding usched_enqueue
stays s vm lists well nz inside =
    let (r, g) = well.queued s inside in
    let (alive, up) = is_ready (vm.strands s).state r in
    elim (last-or-linked (links vm) s vm.run_head (lists 0) (well.threads.chain 0) inside) [
      | inl e ↦
          let at_end : (s == vm.run_tail) ≡ true = ground (arith, e, well.tail) in
          ground (arith, nz, alive, at_end)
      | inr linked ↦ ground (arith, nz, alive, linked)
    ]

pub comes_out :
    (s : ℕ) (vm : Vm)
    → s ≢ 0
    → (s == vm.run_tail) ≡ false
    → (vm.strands s).link ≡ 0
    → usched_enqueue s vm ≡ (
        if is_dead (vm.strands s).state
        then vm
        else if not ((vm.strands s).gates == 0)
        then gated s vm
        else enqueued s vm)
unfolding usched_enqueue
comes_out s vm nz far null = ground (arith, nz, far, null)

pub usched_enqueue-IsWell :
    (s : ℕ) (vm : Vm) (lists : ℕ → List ℕ)
    → IsWell vm lists
    → s ≢ 0
    → ((a : ℕ) → a ≢ 0 → has s (lists a) ≡ false)
    → IsWell
        (usched_enqueue s vm)
        (upd 0 (if joins vm s (lists 0) then lists 0 ++ s ∷ [] else lists 0) lists)
usched_enqueue-IsWell s vm lists well nz idle =
    let out_of : joins vm s (lists 0) ≡ false
        → (vm' : Vm) → IsWell vm' lists
        → IsWell vm' (upd 0 (if joins vm s (lists 0) then lists 0 ++ s ∷ [] else lists 0) lists) =
      λ no vm' w. rw no (subst (IsWell vm') (sym (upd_same 0 lists)) w) in
    elim (Bool-cases (has s (lists 0))) [
      | inl inside ↦
          out_of (ground (arith, inside)) _
            (subst (λ v. IsWell v lists) (sym (stays s vm lists well nz inside)) well)
      | inr out ↦
          let free : (a : ℕ) → has s (lists a) ≡ false = λ a. elim (Bool-cases (a == 0)) [
            | inl e ↦
                let is_zero : 0 ≡ a = ground (arith, e) in
                subst (λ m. has s (lists m) ≡ false) is_zero out
            | inr e ↦ idle a (ground (arith, e))
          ] in
          let step = comes_out s vm nz (not_tail well s nz free) (null_link well s nz free) in
          elim (Bool-cases (is_dead (vm.strands s).state)) [
            | inl gone ↦
                out_of (ground (arith, gone)) _
                  (subst (λ v. IsWell v lists) (sym (step ∙ rw gone refl)) well)
            | inr alive ↦ elim (Bool-cases ((vm.strands s).gates == 0)) [
              | inl clear ↦
                  let yes : joins vm s (lists 0) ≡ true = ground (arith, alive, out, clear) in
                  rw yes (
                    subst (λ v. IsWell v (upd 0 (lists 0 ++ s ∷ []) lists))
                      (sym (step ∙ rw (alive, clear) refl))
                      (IsWell-enqueued well s nz free (ground (arith, clear))))
              | inr held ↦ out_of (ground (arith, held)) _ (
                  subst (λ v. IsWell v lists) (sym (step ∙ rw (alive, held) refl))
                    (gated-IsWell well s nz free))
            ]
          ]
    ]
