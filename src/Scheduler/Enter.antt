-- ===== src/Scheduler/Enter.antt =====
-- src/rt/uexec_ops.c: the ends of uexec_run, and a strand that goes from the run queue to run.
use urbi_embedded.Shared.{
  ℕ, ◌≡◌, ◌≢◌, refl, sym, ap, ◌∙◌, subst, arith, true, false, List, [], ◌∷◌, ◌==◌, Bool-cases, inl,
  inr,
}
use urbi_embedded.Scheduler.{Vm, usched_dequeue, uexec_run_enter, uexec_run_leave}
use urbi_embedded.Scheduler.Threads.{upd, has, Distinct, Linked}
use urbi_embedded.Scheduler.State.{links, IsWell}
use urbi_embedded.Scheduler.Queue.{first, tail_of, usched_dequeue_lem}
use urbi_embedded.Scheduler.Settle.{IsWell-strand, null_link}

current-IsWell :
    {vm : Vm} {lists : ℕ → List ℕ} (s : ℕ)
    → IsWell vm lists
    → IsWell (record vm { current = s }) lists
current-IsWell s well = record {
  threads = well.threads;
  tail = well.tail;
  queued = well.queued;
  waiting = well.waiting;
}

pub enter-IsWell :
    {vm : Vm} {lists : ℕ → List ℕ} (s : ℕ)
    → IsWell vm lists
    → s ≢ 0
    → ((a : ℕ) → has s (lists a) ≡ false)
    → IsWell (uexec_run_enter s vm) lists
unfolding uexec_run_enter
enter-IsWell s well nz free =
    IsWell-strand (current-IsWell s well) s nz free _ (null_link well s nz free)

pub leave-IsWell :
    {vm : Vm} {lists : ℕ → List ℕ} (prev : ℕ)
    → IsWell vm lists
    → IsWell (uexec_run_leave prev vm) lists
unfolding uexec_run_leave
leave-IsWell prev well = current-IsWell prev well

-- The first of the queue is in no list once it is taken out.
first_out :
    (vm : Vm) (lists : ℕ → List ℕ)
    → IsWell vm lists
    → vm.run_head ≢ 0
    → (first (lists 0) ≢ 0)
      × ((a : ℕ) → has (first (lists 0)) (upd 0 (tail_of (lists 0)) lists a) ≡ false)
first_out vm lists well some_head = go (lists 0) refl
  where
    go :
        (xs : List ℕ)
        → lists 0 ≡ xs
        → (first xs ≢ 0) × ((a : ℕ) → has (first xs) (upd 0 (tail_of xs) lists a) ≡ false)
    go [] e = absurd (some_head (subst (Linked (links vm) vm.run_head) e (well.threads.chain 0)))
    go (x ∷ xs) e =
        let chain : Linked (links vm) vm.run_head (x ∷ xs) =
          subst (Linked (links vm) vm.run_head) e (well.threads.chain 0) in
        let distinct : Distinct (x ∷ xs) = subst Distinct e (well.threads.distinct 0) in
        let inside : has x (lists 0) ≡ true = ap (has x) e ∙ ground arith in
        (
          chain.1,
          λ a. elim (Bool-cases (a == 0)) [
            | inl here ↦ rw here (distinct.0)
            | inr away ↦ rw away (elim (Bool-cases (has x (lists a))) [
              | inr out ↦ out
              | inl there ↦
                  let same = well.threads.apart a 0 x there inside in
                  absurd (ground (arith, same, away))
            ])
          ],
        )

pub dispatch-IsWell :
    (vm : Vm) (lists : ℕ → List ℕ)
    → IsWell vm lists
    → vm.run_head ≢ 0
    → IsWell
        (uexec_run_enter ((usched_dequeue vm).0) ((usched_dequeue vm).1))
        (upd 0 (tail_of (lists 0)) lists)
dispatch-IsWell vm lists well some_head =
    let (answer, left) = usched_dequeue_lem vm lists well in
    let (nz, free) = first_out vm lists well some_head in
    subst
      (λ s. IsWell (uexec_run_enter s ((usched_dequeue vm).1)) (upd 0 (tail_of (lists 0)) lists))
      (sym answer) (enter-IsWell (first (lists 0)) left nz free)
