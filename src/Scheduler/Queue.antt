-- ===== src/Scheduler/Queue.antt =====
-- src/rt/usched.c: the run queue as a sequence of strands.
use urbi_embedded.Shared.{
  ℕ, ◌≤◌, ◌≡◌, ◌≢◌, refl, sym, ap, ◌∙◌, subst, arith, true, false, not, List, [], ◌∷◌, ◌==◌,
  if◌then◌else◌, Bool-cases, inl, inr, length,
}
use urbi_embedded.Scheduler.{Vm, usched_unqueue, usched_dequeue, set_link}
use urbi_embedded.Scheduler.Threads.{
  clash, upd, has, Distinct, last, erase, before, Linked, has-apart,
}
use urbi_embedded.Scheduler.Erase.{erased, Linked-nonzero, last-has, erase_absent, erase-inside}
use urbi_embedded.Scheduler.Threaded.{IsThreaded, IsThreaded-remove}
use urbi_embedded.Scheduler.State.{
  links, heads, IsWell, IsWellBut, IsWell-IsWellBut, IsWellBut-IsWell, IsThreaded-cong,
  find_before-before, find_before-none, last-erase,
}

pub upd_same : {A : Type 0} (b : ℕ) (f : ℕ → A) → upd b (f b) f ≡ f
upd_same b f = λ i a. pointwise a i
  where
    pointwise : (a : ℕ) → upd b (f b) f a ≡ f a
    pointwise a = elim (Bool-cases (a == b)) [
      | inl same ↦ let e : b ≡ a = ground (arith, same) in rw same (ap f e)
      | inr apart ↦ rw apart refl
    ]

-- The state behind the return of `usched_unqueue`, `prev` being the strand before `s`.
abbrev unqueued : ℕ → ℕ → Vm → Vm
unqueued s prev vm =
    let next = (vm.strands s).link in
    let vm1 = if not (prev == 0) then set_link prev next vm else record vm { run_head = next } in
    let vm2 = if vm1.run_tail == s then record vm1 { run_tail = prev } else vm1 in set_link s 0 vm2

unqueued-links :
    (s prev : ℕ) (vm : Vm) (k : ℕ)
    → k ≢ 0
    → upd s 0 (upd prev (links vm s) (links vm)) k ≡ links (unqueued s prev vm) k
unqueued-links s prev vm k nz = ground arith

unqueued-heads :
    (s prev : ℕ) (vm : Vm) (a : ℕ)
    → upd 0 (if prev == 0 then links vm s else heads vm 0) (heads vm) a
      ≡ heads (unqueued s prev vm) a
unqueued-heads s prev vm a = ground arith

unqueued-fields :
    (s prev : ℕ) (vm : Vm) (k : ℕ)
    → (((unqueued s prev vm).strands k).state ≡ (vm.strands k).state)
      × (((unqueued s prev vm).strands k).gates ≡ (vm.strands k).gates)
      × (((unqueued s prev vm).strands k).waiting_on ≡ (vm.strands k).waiting_on)
unqueued-fields s prev vm k = ground arith

unqueued-tail :
    (s prev : ℕ) (vm : Vm)
    → (unqueued s prev vm).run_tail ≡ (if vm.run_tail == s then prev else vm.run_tail)
unqueued-tail s prev vm = ground arith

last_of : (w m : ℕ) → m ≡ (if w == 0 then 0 else w) → m ≡ w
last_of w m e = ground arith

IsWell-unqueued :
    {vm : Vm} {lists : ℕ → List ℕ} (s : ℕ)
    → IsWellBut s vm lists
    → has s (lists 0) ≡ true
    → IsWell (unqueued s (before s 0 (lists 0)) vm) (upd 0 (erase s (lists 0)) lists)
IsWell-unqueued {vm} {lists} s well inside =
    let prev = before s 0 (lists 0) in
    let t = well.threads in
    record {
      threads =
          IsThreaded-cong _ _ _ _ _ _ (unqueued-links s prev vm) (unqueued-heads s prev vm)
            (λ a. refl) (IsThreaded-remove t s 0 inside);
      tail = last_of (last (erase s (lists 0))) _ (
          unqueued-tail s prev vm
          ∙ ap (λ m. if m == s then prev else m) well.tail
          ∙ last-erase (links vm) s 0 vm.run_head (lists 0) (t.chain 0) (t.distinct 0) inside);
      queued = λ k h.
          let (state_same, gates_same, wait_same) = unqueued-fields s prev vm k in
          let (r, g) = well.queued k (not_s k h) (erase-inside k s (lists 0) h) in
          (state_same ∙ r, gates_same ∙ g);
      waiting = λ a k nz h.
          let (state_same, gates_same, wait_same) = unqueued-fields s prev vm k in
          let far : (a == 0) ≡ false = ground (arith, nz) in
          let there : has k (lists a) ≡ true = ground (arith, far, h) in
          let (p, w) = well.waiting a k nz there in (state_same ∙ p, wait_same ∙ w);
    }
  where
    not_s : (k : ℕ) → has k (erase s (lists 0)) ≡ true → (k == s) ≡ false
    not_s k h = elim (Bool-cases (k == s)) [
      | inr far ↦ far
      | inl same ↦
          let e : s ≡ k = ground (arith, same) in
          absurd (
            clash (
              sym (
                subst (λ m. has m (erase s (lists 0)) ≡ false) e
                  (erased s (lists 0) (well.threads.distinct 0)))
              ∙ h))
    ]

pub unqueue-IsWell :
    (rounds s : ℕ) (vm : Vm) (lists : ℕ → List ℕ)
    → IsWellBut s vm lists
    → length (lists 0) ≤ rounds
    → IsWell (usched_unqueue rounds s vm) (upd 0 (erase s (lists 0)) lists)
unfolding usched_unqueue
unqueue-IsWell rounds s vm lists well few =
    let t = well.threads in
    elim (Bool-cases (has s (lists 0))) [
      | inl inside ↦
          let some_s = Linked-nonzero (links vm) s vm.run_head (lists 0) (t.chain 0) inside in
          let nz : (s == 0) ≡ false = ground (arith, some_s) in
          let found =
            find_before-before rounds s 0 vm.run_head vm (lists 0) (t.chain 0) inside few in
          rw (nz, found) (IsWell-unqueued s well inside)
      | inr out ↦
          let there = IsWellBut-IsWell s out well in
          let missed = find_before-none rounds s 0 vm.run_head vm (lists 0) (t.chain 0) out in
          let same : upd 0 (erase s (lists 0)) lists ≡ lists =
            ap (λ xs. upd 0 xs lists) (erase_absent s (lists 0) out) ∙ upd_same 0 lists in
          subst (λ ls. IsWell (usched_unqueue rounds s vm) ls) (sym same)
            (elim (Bool-cases (s == 0)) [
              | inl null ↦ rw null there
              | inr nz ↦ rw (nz, missed) there
            ])
    ]

pub usched_unqueue-IsWell :
    (rounds s : ℕ) (vm : Vm) (lists : ℕ → List ℕ)
    → IsWell vm lists
    → length (lists 0) ≤ rounds
    → IsWell (usched_unqueue rounds s vm) (upd 0 (erase s (lists 0)) lists)
usched_unqueue-IsWell rounds s vm lists well few =
    unqueue-IsWell rounds s vm lists (IsWell-IsWellBut s well) few

abbrev pub first : List ℕ → ℕ
first [] = 0
first (x ∷ xs) = x

abbrev pub tail_of : List ℕ → List ℕ
tail_of [] = []
tail_of (x ∷ xs) = xs

dequeued :
    (vm : Vm)
    → vm.run_head ≢ 0
    → ((vm.strands vm.run_head).link == 0) ≡ (vm.run_tail == vm.run_head)
    → usched_dequeue vm ≡ (vm.run_head, unqueued vm.run_head 0 vm)
unfolding usched_dequeue
dequeued vm nz same = ground (arith, nz, same)

only_last :
    (f : ℕ → ℕ) (s h : ℕ) (rest : List ℕ)
    → Linked f h (s ∷ rest)
    → Distinct (s ∷ rest)
    → (f s == 0) ≡ (last (s ∷ rest) == s)
only_last f s h [] (e, nz, l) d = ground (arith, l)
only_last f s h (y ∷ ys) (e, nz, l) (out, d) =
    let z = last (y ∷ ys) in
    let there = last-has f (f s) y ys l in
    let some_z : z ≢ 0 = Linked-nonzero f z (f s) (y ∷ ys) l there in
    let some_next = Linked-nonzero f (f s) (f s) (y ∷ ys) l (ground (arith, l)) in
    let is_z : last (s ∷ (y ∷ ys)) ≡ z = ground (arith, some_z) in
    let far : (s == z) ≡ false = has-apart s z (y ∷ ys) out there in
    let left : (f s == 0) ≡ false = ground (arith, some_next) in
    let right : (z == s) ≡ false = ground (arith, far) in left ∙ sym (ap (λ m. m == s) is_z ∙ right)

-- In a well-formed state: usched_dequeue answers the first strand of the run queue, or NULL, and takes it out; the
-- order of the others and every wait list stay.
pub usched_dequeue_lem :
    (vm : Vm) (lists : ℕ → List ℕ)
    → IsWell vm lists
    → ((usched_dequeue vm).0 ≡ first (lists 0))
      × IsWell ((usched_dequeue vm).1) (upd 0 (tail_of (lists 0)) lists)
unfolding usched_dequeue
usched_dequeue_lem vm lists well = go (lists 0) refl
  where
    t : IsThreaded (links vm) (heads vm) lists
    t = well.threads

    Claim : List ℕ → Type 0
    Claim xs =
        ((usched_dequeue vm).0 ≡ first xs)
        × IsWell ((usched_dequeue vm).1) (upd 0 (tail_of xs) lists)

    go : (xs : List ℕ) → lists 0 ≡ xs → Claim (lists 0)
    go [] e =
        let null : vm.run_head ≡ 0 = subst (λ xs. Linked (links vm) vm.run_head xs) e (t.chain 0) in
        let nz : (vm.run_head == 0) ≡ true = ground (arith, null) in
        let same : upd 0 [] lists ≡ lists = ap (λ xs. upd 0 xs lists) (sym e) ∙ upd_same 0 lists in
        subst Claim (sym e) (rw nz (refl, subst (IsWell vm) (sym same) well))
    go (x ∷ xs) e =
        let s = vm.run_head in
        let chain : Linked (links vm) s (x ∷ xs) =
          subst (λ zs. Linked (links vm) s zs) e (t.chain 0) in
        let distinct : Distinct (x ∷ xs) = subst Distinct e (t.distinct 0) in
        let is_x : s ≡ x = chain.0 in
        let nz : s ≢ 0 = ground (arith, is_x, chain.1) in
        let lone = only_last (links vm) x s xs chain distinct in
        let tail : vm.run_tail ≡ last (x ∷ xs) = well.tail ∙ ap last e in
        let same : ((vm.strands s).link == 0) ≡ (vm.run_tail == s) =
          ap (λ k. (vm.strands k).link == 0) is_x
          ∙ lone
          ∙ ap (λ m. m == x) (sym tail)
          ∙ ap (λ k. vm.run_tail == k) (sym is_x) in
        let inside : has s (lists 0) ≡ true = ap (has s) e ∙ ground (arith, is_x) in
        let at_front : before s 0 (lists 0) ≡ 0 = ap (before s 0) e ∙ ground (arith, is_x) in
        let left : erase s (lists 0) ≡ xs = ap (erase s) e ∙ ground (arith, is_x) in
        let done =
          subst (λ ls. IsWell (unqueued s 0 vm) (upd 0 ls lists)) left
            (subst (λ p. IsWell (unqueued s p vm) (upd 0 (erase s (lists 0)) lists)) at_front
              (IsWell-unqueued s (IsWell-IsWellBut s well) inside)) in
        subst Claim (sym e) (
          subst (λ (r : ℕ × Vm). (r.0 ≡ x) × IsWell (r.1) (upd 0 xs lists))
            (sym (dequeued vm nz same)) (is_x, done))
