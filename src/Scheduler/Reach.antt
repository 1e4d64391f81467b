-- ===== src/Scheduler/Reach.antt =====
-- src/rt/usched.c, src/rt/utag.c and the ends of uexec_run in src/rt/uexec_ops.c: the states that their
-- calls lead to, in any order.
use urbi_embedded.Shared.{
  refl, All, ℕ, zero, suc, ◌≤◌, ◌≡◌, ◌≢◌, sym, ap, ◌∙◌, subst, arith, Bool, true, false, not, ◌&&◌,
  ◌||◌, List, [], ◌∷◌, ◌==◌, Bool-cases, inl, inr, length, Option,
}
use urbi_embedded.Scheduler.{
  StrandState, ready, running, parked, dead, is_parked, Strand, Vm, usched_enqueue, usched_dequeue,
  uexec_run_enter, uexec_run_leave, usched_unqueue, usched_park, usched_wake,
}
use urbi_embedded.Scheduler.Threads.{clash, upd, has, erase, Linked}
use urbi_embedded.Scheduler.Erase.{erased, Linked-nonzero}
use urbi_embedded.Scheduler.State.{links, heads, IsWell}
use urbi_embedded.Scheduler.Gates.{utag_gate}
use urbi_embedded.Scheduler.Block.{Numbers, utag_gate-IsWell}
use urbi_embedded.Scheduler.Enter.{enter-IsWell, leave-IsWell, dispatch-IsWell}
use urbi_embedded.Scheduler.Queue.{usched_unqueue-IsWell}
use urbi_embedded.Scheduler.Settle.{usched_enqueue-IsWell}
use urbi_embedded.Scheduler.Park.{usched_park-IsWell}
use urbi_embedded.Scheduler.Wake.{usched_wake_lem}

-- From `c` on, NULL comes within so many links.
abbrev pub ends_within : ℕ → ℕ → Vm → Bool
ends_within zero c vm = c == 0
ends_within (suc left) c vm = c == 0 || ends_within left ((vm.strands c).link) vm

-- A strand that does not wait on a list, as the callers of `usched_enqueue` ensure.
abbrev pub waits : Strand → Bool
waits x = is_parked x.state && not (x.waiting_on == 0)

abbrev pub is_running : StrandState → Bool
is_running running = true
is_running ready = false
is_running parked = false
is_running dead = false

-- No strand is dispatching, or it is RUNNING.
abbrev pub runs_or_none : Vm → Bool
runs_or_none vm = vm.current == 0 || is_running (vm.strands vm.current).state

-- One call, or the two that usched_step and usched_run_inline make to run a strand, with what the callers ensure.
pub data Step : Vm → Vm → Type 0 where
  enqueues :
      {vm : Vm} (s : ℕ) → s ≢ 0 → waits (vm.strands s) ≡ false → Step vm (usched_enqueue s vm)
  dispatches :
      {vm : Vm}
      → vm.run_head ≢ 0
      → Step vm (uexec_run_enter ((usched_dequeue vm).0) ((usched_dequeue vm).1))
  inlines :
      {vm : Vm} (rounds s : ℕ)
      → s ≢ 0
      → waits (vm.strands s) ≡ false
      → ends_within rounds vm.run_head vm ≡ true
      → Step vm (uexec_run_enter s (usched_unqueue rounds s vm))
  leaves : {vm : Vm} (prev : ℕ) → Step vm (uexec_run_leave prev vm)
  unqueues :
      {vm : Vm} (rounds s : ℕ)
      → ends_within rounds vm.run_head vm ≡ true
      → Step vm (usched_unqueue rounds s vm)
  parks :
      {vm : Vm} (s waitlist wake_us : ℕ)
      → (vm.strands s).state ≡ running
      → Step vm ((usched_park s waitlist wake_us vm).1)
  wakes :
      {vm : Vm} (rounds s : ℕ) (payload : Option ℕ)
      → s ≢ 0
      → (vm.strands s).state ≡ parked
      → ends_within rounds (heads vm ((vm.strands s).waiting_on)) vm ≡ true
      → Step vm (usched_wake rounds s payload vm)
  gates :
      {vm : Vm} (rounds t bit : ℕ)
      → ends_within rounds vm.run_head vm ≡ true
      → runs_or_none vm ≡ true
      → All Numbers vm.realms
      → t ≢ 0
      → bit ≢ 0
      → Step vm (utag_gate rounds t bit true vm)

-- The states that calls lead to from empty lists.
pub data Reached : Vm → Type 0 where
  started :
      {vm : Vm}
      → vm.run_head ≡ 0
      → vm.run_tail ≡ 0
      → ((a : ℕ) → vm.waiters a ≡ 0)
      → ((k : ℕ) → (vm.strands k).link ≡ 0)
      → Reached vm
  stepped : {vm vm' : Vm} → Reached vm → Step vm vm' → Reached vm'

length-ends :
    (rounds h : ℕ) (vm : Vm) (xs : List ℕ)
    → Linked (links vm) h xs
    → ends_within rounds h vm ≡ true
    → length xs ≤ rounds
length-ends rounds h vm [] l e = omega arith
length-ends zero h vm (x ∷ xs) (same, nz, l) e = absurd (ground (arith, same, nz, e))
length-ends (suc left) h vm (x ∷ xs) (same, nz, l) e =
    let later : ends_within left ((vm.strands h).link) vm ≡ true = ground (arith, same, nz, e) in
    let l' : Linked (links vm) ((vm.strands h).link) xs =
      subst (λ k. Linked (links vm) ((vm.strands k).link) xs) (sym same) l in
    let few = length-ends left ((vm.strands h).link) vm xs l' later in omega (arith, few)

waiting-waits :
    {vm : Vm} {lists : ℕ → List ℕ} (a s : ℕ)
    → IsWell vm lists
    → a ≢ 0
    → has s (lists a) ≡ true
    → waits (vm.strands s) ≡ true
waiting-waits {vm} a s well nz inside =
    let (p, w) = well.waiting a s nz inside in
    let held : is_parked (vm.strands s).state ≡ true = ap is_parked p in ground (arith, held, w, nz)

-- A strand that does not wait is on no wait list.
pub idle-free :
    {vm : Vm} {lists : ℕ → List ℕ} (s : ℕ)
    → IsWell vm lists
    → waits (vm.strands s) ≡ false
    → (a : ℕ) → a ≢ 0
    → has s (lists a) ≡ false
idle-free {vm} {lists} s well idle a nz = elim (Bool-cases (has s (lists a))) [
  | inr out ↦ out
  | inl inside ↦ absurd (clash (sym idle ∙ waiting-waits a s well nz inside))
]

-- A running strand is in no list.
running_free :
    {vm : Vm} {lists : ℕ → List ℕ} (s : ℕ)
    → IsWell vm lists
    → (vm.strands s).state ≡ running
    → (a : ℕ) → has s (lists a) ≡ false
running_free {vm} {lists} s well runs a = elim (Bool-cases (has s (lists a))) [
  | inr out ↦ out
  | inl inside ↦ elim (Bool-cases (a == 0)) [
    | inl e ↦
        let is_zero : a ≡ 0 = ground (arith, e) in
        absurd (
          not_ready
            (sym ((well.queued s (subst (λ m. has s (lists m) ≡ true) is_zero inside)).0) ∙ runs))
    | inr e ↦ absurd (not_parked (sym ((well.waiting a s (ground (arith, e)) inside).0) ∙ runs))
  ]
]
  where
    not_ready : ready ≡ running → ⊥
    not_ready e = cc

    not_parked : parked ≡ running → ⊥
    not_parked e = cc

is_running_running : (x : StrandState) → is_running x ≡ true → x ≡ running
is_running_running running h = refl
is_running_running ready h = absurd (clash h)
is_running_running parked h = absurd (clash h)
is_running_running dead h = absurd (clash h)

current_free :
    {vm : Vm} {lists : ℕ → List ℕ}
    → IsWell vm lists
    → runs_or_none vm ≡ true
    → (a : ℕ) → has vm.current (lists a) ≡ false
current_free {vm} {lists} well runs a = elim (Bool-cases (has vm.current (lists a))) [
  | inr out ↦ out
  | inl inside ↦
      let nz =
        Linked-nonzero (links vm) vm.current (heads vm a) (lists a) (well.threads.chain a) inside in
      let up : is_running (vm.strands vm.current).state ≡ true = ground (arith, runs, nz) in
      absurd (
        clash (
          sym (running_free vm.current well (is_running_running (vm.strands vm.current).state up) a)
          ∙ inside))
]

unqueued_free :
    {vm : Vm} {lists : ℕ → List ℕ} (s : ℕ)
    → IsWell vm lists
    → waits (vm.strands s) ≡ false
    → (a : ℕ) → has s (upd 0 (erase s (lists 0)) lists a) ≡ false
unqueued_free {vm} {lists} s well idle a = elim (Bool-cases (a == 0)) [
  | inl e ↦ rw e (erased s (lists 0) (well.threads.distinct 0))
  | inr e ↦ rw e (idle-free s well idle a (ground (arith, e)))
]

Step-IsWell :
    {vm vm' : Vm} (lists : ℕ → List ℕ)
    → IsWell vm lists
    → Step vm vm'
    → (lists' : ℕ → List ℕ) × IsWell vm' lists'
Step-IsWell {vm} lists well (enqueues s nz idle) =
    (_, usched_enqueue-IsWell s vm lists well nz (idle-free s well idle))
Step-IsWell {vm} lists well (dispatches some_head) = (_, dispatch-IsWell vm lists well some_head)
Step-IsWell {vm} lists well (inlines rounds s nz idle ends) =
    let few = length-ends rounds vm.run_head vm (lists 0) (well.threads.chain 0) ends in
    (
      _,
      enter-IsWell s (usched_unqueue-IsWell rounds s vm lists well few) nz
          (unqueued_free s well idle),
    )
Step-IsWell lists well (leaves prev) = (lists, leave-IsWell prev well)
Step-IsWell {vm} lists well (gates rounds t bit ends runs numbers some_t some_bit) =
    let few = length-ends rounds vm.run_head vm (lists 0) (well.threads.chain 0) ends in
    utag_gate-IsWell rounds t bit vm lists well few (current_free well runs) numbers some_t some_bit
Step-IsWell {vm} lists well (unqueues rounds s ends) = (
  _,
  usched_unqueue-IsWell rounds s vm lists well
      (length-ends rounds vm.run_head vm (lists 0) (well.threads.chain 0) ends),
)
Step-IsWell {vm} lists well (parks s waitlist wake_us runs) =
    (_, (usched_park-IsWell s waitlist wake_us vm lists well (running_free s well runs)).1)
Step-IsWell {vm} lists well (wakes rounds s payload nz held ends) =
    let w = (vm.strands s).waiting_on in
    (
      _,
      (usched_wake_lem rounds s payload vm lists well nz held
          (length-ends rounds (heads vm w) vm (lists w) (well.threads.chain w) ends)).0,
    )

-- In every state that enqueueing, unqueueing, dispatching, running inline, parking and waking strands and setting the
-- gates of tags, each with what its callers ensure, can lead to from empty lists, in any order: the run queue and every wait list are finite
-- chains without a repetition, no strand is in two of them, the tail is the last of the queue, the queued
-- strands are READY and under no gate, the listed ones are PARKED on that list, and the link of any other
-- strand is NULL.
pub Reached-IsWell : (vm : Vm) → Reached vm → (lists : ℕ → List ℕ) × IsWell vm lists
Reached-IsWell vm (started head tail none_waits loose) = (
  λ a. [],
  record {
    threads = record {
      chain = λ a. ground (arith, head, none_waits a);
      distinct = λ a. tt;
      apart = λ a b k h h'. absurd (clash h);
      loose = λ k nz out. loose k;
    };
    tail = tail;
    queued = λ k h. absurd (clash h);
    waiting = λ a k nz h. absurd (clash h);
  },
)
Reached-IsWell vm (stepped before step) =
    let (lists, well) = Reached-IsWell _ before in Step-IsWell lists well step
