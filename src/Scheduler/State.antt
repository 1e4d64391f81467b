-- ===== src/Scheduler/State.antt =====
-- What holds of the scheduler's lists between its operations, and the walks along them.
use urbi_embedded.Shared.{
  ℕ, zero, suc, ◌≤◌, ◌≡◌, ◌≢◌, refl, sym, ap, ◌∙◌, subst, arith, true, false, List, [], ◌∷◌, ◌==◌,
  if◌then◌else◌, Bool-cases, inl, inr, length, none, some,
}
use urbi_embedded.Scheduler.{ready, parked, Vm, find_before}
use urbi_embedded.Scheduler.Threads.{clash, has, Distinct, last, erase, before, Linked, has-apart}
use urbi_embedded.Scheduler.Erase.{Linked-nonzero, last-has}
use urbi_embedded.Scheduler.Threaded.{IsThreaded, Linked-cong}

abbrev pub links : Vm → ℕ → ℕ
links vm k = (vm.strands k).link

-- The run queue has the place 0, and a wait list the address of its head.
abbrev pub heads : Vm → ℕ → ℕ
heads vm a = if a == 0 then vm.run_head else vm.waiters a

-- `lists 0` is the run queue, in its order, and `lists a` the wait list at `a`.
pub record IsWell (vm : Vm) (lists : ℕ → List ℕ) : Type 0 where
  pub threads : IsThreaded (links vm) (heads vm) lists
  pub tail : vm.run_tail ≡ last (lists 0)
  pub queued :
      (k : ℕ) → has k (lists 0) ≡ true → ((vm.strands k).state ≡ ready) × ((vm.strands k).gates ≡ 0)
  pub waiting :
      (a k : ℕ)
      → a ≢ 0
      → has k (lists a) ≡ true
      → ((vm.strands k).state ≡ parked) × ((vm.strands k).waiting_on ≡ a)

-- As `IsWell`, but that the gates of the strand `s` may be any.
pub record IsWellBut (s : ℕ) (vm : Vm) (lists : ℕ → List ℕ) : Type 0 where
  pub threads : IsThreaded (links vm) (heads vm) lists
  pub tail : vm.run_tail ≡ last (lists 0)
  pub queued :
      (k : ℕ)
      → (k == s) ≡ false
      → has k (lists 0) ≡ true
      → ((vm.strands k).state ≡ ready) × ((vm.strands k).gates ≡ 0)
  pub waiting :
      (a k : ℕ)
      → a ≢ 0
      → has k (lists a) ≡ true
      → ((vm.strands k).state ≡ parked) × ((vm.strands k).waiting_on ≡ a)

pub IsWell-IsWellBut :
    {vm : Vm} {lists : ℕ → List ℕ} (s : ℕ) → IsWell vm lists → IsWellBut s vm lists
IsWell-IsWellBut s well = record {
  threads = well.threads;
  tail = well.tail;
  queued = λ k far. well.queued k;
  waiting = well.waiting;
}

-- The gates of a strand that is not in the queue do not matter.
pub IsWellBut-IsWell :
    {vm : Vm} {lists : ℕ → List ℕ} (s : ℕ)
    → has s (lists 0) ≡ false
    → IsWellBut s vm lists
    → IsWell vm lists
IsWellBut-IsWell {vm} {lists} s out well = record {
  threads = well.threads;
  tail = well.tail;
  queued = λ k h. well.queued k (other k h) h;
  waiting = well.waiting;
}
  where
    other : (k : ℕ) → has k (lists 0) ≡ true → (k == s) ≡ false
    other k h = elim (Bool-cases (k == s)) [
      | inr far ↦ far
      | inl same ↦
          let e : s ≡ k = ground (arith, same) in
          absurd (clash (sym (subst (λ m. has m (lists 0) ≡ false) e out) ∙ h))
    ]

pub IsThreaded-cong :
    (f g h h' : ℕ → ℕ) (lists lists' : ℕ → List ℕ)
    → ((k : ℕ) → k ≢ 0 → f k ≡ g k)
    → ((a : ℕ) → h a ≡ h' a)
    → ((a : ℕ) → lists a ≡ lists' a)
    → IsThreaded f h lists
    → IsThreaded g h' lists'
IsThreaded-cong f g h h' lists lists' links_same heads_same lists_same t = record {
  chain = λ a.
      subst (λ m. Linked g m (lists' a)) (heads_same a)
        (subst (λ xs. Linked g (h a) xs) (lists_same a)
          (Linked-cong f g (h a) (lists a) links_same (t.chain a)));
  distinct = λ a. subst Distinct (lists_same a) (t.distinct a);
  apart =
      λ a b k i j. t.apart a b k (ap (has k) (lists_same a) ∙ i) (ap (has k) (lists_same b) ∙ j);
  loose = λ k nz out. sym (links_same k nz) ∙ t.loose k nz (λ a. ap (has k) (lists_same a) ∙ out a);
}

pub find_before-before :
    (rounds s prev c : ℕ) (vm : Vm) (xs : List ℕ)
    → Linked (links vm) c xs
    → has s xs ≡ true
    → length xs ≤ rounds
    → find_before rounds s prev c vm ≡ some (before s prev xs)
unfolding find_before
find_before-before rounds s prev c vm [] l inside few = absurd (ground (arith, inside))
find_before-before zero s prev c vm (x ∷ xs) l inside few = absurd (omega (arith, few))
find_before-before (suc left) s prev c vm (x ∷ xs) (e, nz, l) inside few =
    elim (Bool-cases (s == x)) [
      | inl same ↦ ground (arith, same, e, nz)
      | inr apart ↦
          let far : (c == s) ≡ false = ground (arith, e, apart) in
          let next : (vm.strands x).link ≡ (vm.strands c).link =
            ap (λ k. (vm.strands k).link) (sym e) in
          let rest =
            find_before-before left s x ((vm.strands x).link) vm xs l
              (ground (arith, apart, inside)) (omega (arith, few)) in
          let there : find_before left s c ((vm.strands c).link) vm ≡ some (before s x xs) =
            subst (λ m. find_before left s c m vm ≡ some (before s x xs)) next
              (subst (λ k. find_before left s k ((vm.strands x).link) vm ≡ some (before s x xs))
                (sym e) rest) in
          ground (arith, far, apart, e, nz, there)
    ]

pub find_before-none :
    (rounds s prev c : ℕ) (vm : Vm) (xs : List ℕ)
    → Linked (links vm) c xs
    → has s xs ≡ false
    → find_before rounds s prev c vm ≡ none
unfolding find_before
find_before-none zero s prev c vm xs l out = refl
find_before-none (suc left) s prev c vm [] l out = ground (arith, l)
find_before-none (suc left) s prev c vm (x ∷ xs) (e, nz, l) out =
    let far : (c == s) ≡ false = ground (arith, e, out) in
    let later : has s xs ≡ false = ground (arith, out) in
    let l' : Linked (links vm) ((vm.strands c).link) xs =
      subst (λ k. Linked (links vm) ((vm.strands k).link) xs) (sym e) l in
    let there = find_before-none left s c ((vm.strands c).link) vm xs l' later in
    ground (arith, far, there)

last_stays :
    (m m' z s b prev : ℕ)
    → m ≡ z
    → m' ≡ z
    → (z == s) ≡ false
    → z ≢ 0
    → (if m == s then b else m) ≡ (if m' == 0 then prev else m')
last_stays m m' z s b prev e e' far nz = ground arith

last_follows :
    (m m' z w s x b b' prev : ℕ)
    → m ≡ z
    → b ≡ b'
    → m' ≡ (if w == 0 then x else w)
    → x ≢ 0
    → (if z == s then b' else z) ≡ (if w == 0 then x else w)
    → (if m == s then b else m) ≡ (if m' == 0 then prev else m')
last_follows m m' z w s x b b' prev e eb e' nz h = ground arith

-- The last one when `s` has been taken out.
pub last-erase :
    (f : ℕ → ℕ) (s prev h : ℕ) (xs : List ℕ)
    → Linked f h xs
    → Distinct xs
    → has s xs ≡ true
    → (if last xs == s then before s prev xs else last xs)
      ≡ (if last (erase s xs) == 0 then prev else last (erase s xs))
last-erase f s prev h [] l d inside = absurd (ground (arith, inside))
last-erase f s prev h (x ∷ []) (e, nz, l) d inside =
    let same : (s == x) ≡ true = ground (arith, inside) in
    let same' : (x == s) ≡ true = ground (arith, same) in
    let r : erase s (x ∷ []) ≡ [] = ground (arith, same) in
    let q : before s prev (x ∷ []) ≡ prev = ground (arith, same) in
    subst
      (λ zs.
        (if x == s then before s prev (x ∷ []) else x) ≡ (if last zs == 0 then prev else last zs))
      (sym r) (rw same' q)
last-erase f s prev h (x ∷ (y ∷ ys)) (e, nz, l) (out, d) inside =
    let z = last (y ∷ ys) in
    let there = last-has f (f x) y ys l in
    let some_z : z ≢ 0 = Linked-nonzero f z (f x) (y ∷ ys) l there in
    let is_z : last (x ∷ (y ∷ ys)) ≡ z = ground (arith, some_z) in
    elim (Bool-cases (s == x)) [
      | inl same ↦
          let far : (x == z) ≡ false = has-apart x z (y ∷ ys) out there in
          let r : erase s (x ∷ (y ∷ ys)) ≡ y ∷ ys = ground (arith, same) in
          last_stays _ _ z s (before s prev (x ∷ (y ∷ ys))) prev is_z (ap last r)
            (ground (arith, same, far)) some_z
      | inr apart ↦
          let rest = last-erase f s x (f x) (y ∷ ys) l d (ground (arith, apart, inside)) in
          let r : erase s (x ∷ (y ∷ ys)) ≡ x ∷ erase s (y ∷ ys) = ground (arith, apart) in
          let q : before s prev (x ∷ (y ∷ ys)) ≡ before s x (y ∷ ys) = ground (arith, apart) in
          last_follows _ _ z (last (erase s (y ∷ ys))) s x _ (before s x (y ∷ ys)) prev is_z q
            (ap last r) nz rest
    ]
