-- ===== src/Scheduler/Turn.antt =====
-- src/rt/usched.c: the turns of the strands in the run queue.
use urbi_embedded.Shared.{
  ℕ, suc, ◌≡◌, ◌≢◌, refl, sym, ap, ◌∙◌, arith, false, List, [], ◌∷◌, ◌++◌, append_assoc, Bool-cases,
  inl, inr, length,
}
use urbi_embedded.Scheduler.{Vm, usched_enqueue, usched_dequeue}
use urbi_embedded.Scheduler.State.{IsWell}
use urbi_embedded.Scheduler.Queue.{first, tail_of, usched_dequeue_lem}
use urbi_embedded.Scheduler.Settle.{joins, usched_enqueue-IsWell}
use urbi_embedded.Scheduler.Reach.{waits, idle-free}

-- Calls of `usched_dequeue`, so many of them, with calls of `usched_enqueue` between them.
pub data Takes : ℕ → Vm → Vm → Type 0 where
  over : {vm vm' : Vm} → vm ≡ vm' → Takes 0 vm vm'
  enqueue :
      {n : ℕ} {vm vm' : Vm} (s : ℕ)
      → s ≢ 0
      → waits (vm.strands s) ≡ false
      → Takes n (usched_enqueue s vm) vm'
      → Takes n vm vm'
  dequeue : {n : ℕ} {vm vm' : Vm} → Takes n ((usched_dequeue vm).1) vm' → Takes (suc n) vm vm'

-- A strand of the run queue with so many before it is what usched_dequeue answers after as many calls of
-- usched_dequeue, however many strands are enqueued meanwhile.
pub dequeue-Takes :
    (vm vm' : Vm) (lists : ℕ → List ℕ) (ahead behind : List ℕ) (s : ℕ)
    → IsWell vm lists
    → lists 0 ≡ ahead ++ s ∷ behind
    → Takes (length ahead) vm vm'
    → (usched_dequeue vm').0 ≡ s
dequeue-Takes vm vm' lists ahead behind s well queue takes =
    go lists ahead behind well queue refl takes
  where
    go :
        {n : ℕ} {v : Vm} (ls : ℕ → List ℕ) (xs ys : List ℕ)
        → IsWell v ls
        → ls 0 ≡ xs ++ s ∷ ys
        → n ≡ length xs
        → Takes n v vm'
        → (usched_dequeue vm').0 ≡ s
    go {n} {v} ls [] ys w q e (over same) =
        sym (ap (λ m. (usched_dequeue m).0) same) ∙ (usched_dequeue_lem v ls w).0 ∙ ap first q
    go ls (x ∷ xs) ys w q e (over same) = absurd (omega (arith, e))
    go {n} {v} ls xs ys w q e (enqueue k nz idle rest) =
        let w' = usched_enqueue-IsWell k v ls w nz (idle-free k w idle) in
        elim (Bool-cases (joins v k (ls 0))) [
          | inl joined ↦
              go _ xs (ys ++ k ∷ []) w'
                (rw joined (ap (λ zs. zs ++ k ∷ []) q ∙ append_assoc xs (s ∷ ys) (k ∷ []))) e rest
          | inr out ↦ go _ xs ys w' (rw out q) e rest
        ]
    go ls [] ys w q e (dequeue rest) = absurd (omega (arith, e))
    go {n} {v} ls (x ∷ xs) ys w q e (dequeue rest) =
        go _ xs ys ((usched_dequeue_lem v ls w).1) (ap tail_of q) (omega (arith, e)) rest
