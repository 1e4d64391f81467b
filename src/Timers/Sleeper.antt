-- ===== src/Timers/Sleeper.antt =====
-- src/rt/usched.c: the scan for the record of a sleeping strand.
use urbi_embedded.Shared.{
  ℕ, zero, suc, ◌+◌, ◌≤◌, ◌<◌, ◌≡◌, sym, ap, ◌∙◌, subst, inl, inr, Bool, true, false, List, Option,
  none, some, arith, ◌==◌, ◌&&◌, get_or, Bool-cases, ℕ_discrete, if◌then◌else◌,
}
use urbi_embedded.Timers.{Timer, zeroed, Sched, find_loop, heap_find_sleeper}

-- The record at `i` is the strand's sleeper.
abbrev pub sleeps : List Timer → ℕ → ℕ → Bool
sleeps heap strand i =
    ((get_or heap i zeroed).period_us == 0) && ((get_or heap i zeroed).strand == strand)

-- What a scan of the indices from `from` below `end` for the first such record answers.
unfoldable pub Finds : List Timer → ℕ → ℕ → ℕ → Option ℕ → Type 0
Finds heap strand from end none = (j : ℕ) → from ≤ j → j < end → sleeps heap strand j ≡ false
Finds heap strand from end (some i) =
    (from ≤ i)
    × (i < end)
    × (sleeps heap strand i ≡ true)
    × ((j : ℕ) → from ≤ j → j < i → sleeps heap strand j ≡ false)

not_before :
    (heap : List Timer) (strand i j : ℕ)
    → sleeps heap strand i ≡ false
    → (i + 1 ≤ j → sleeps heap strand j ≡ false)
    → i ≤ j
    → sleeps heap strand j ≡ false
not_before heap strand i j here rest from = elim (ℕ_discrete i j) [
  | yes same ↦ ap (sleeps heap strand) (sym same) ∙ here
  | no other ↦ rest (omega arith)
]

later :
    (left : ℕ) (heap : List Timer) (strand i : ℕ) (r : Option ℕ)
    → sleeps heap strand i ≡ false
    → Finds heap strand (i + 1) (i + 1 + left) r
    → Finds heap strand i (i + suc left) r
unfolding Finds
later left heap strand i none here found =
    λ j from inside. not_before heap strand i j here (λ above. found j above (omega arith)) from
later left heap strand i (some k) here (above, inside, there, first) = (
  omega arith,
  omega arith,
  there,
  λ j from before. not_before heap strand i j here (λ above'. first j above' before) from,
)

find_loop-Finds :
    (left : ℕ) (heap : List Timer) (strand i : ℕ)
    → Finds heap strand i (i + left) (find_loop left heap strand i)
unfolding find_loop Finds
find_loop-Finds zero heap strand i = λ j from inside. absurd (omega arith)
find_loop-Finds (suc left) heap strand i =
    let rest = find_loop left heap strand (i + 1) in
    let next : Bool → Option ℕ = λ b. if b then some i else rest in
    elim (Bool-cases (sleeps heap strand i)) [
      | inl here ↦
          subst (λ b. Finds heap strand i (i + suc left) (next b)) (sym here)
            (omega arith, omega arith, here, λ j from before. absurd (omega arith))
      | inr off ↦
          subst (λ b. Finds heap strand i (i + suc left) (next b)) (sym off)
            (later left heap strand i rest off (find_loop-Finds left heap strand (i + 1)))
    ]

-- heap_find_sleeper answers the first index in use whose record is the strand's sleeper, and -1 only
-- when no record in use is.
pub heap_find_sleeper-Finds :
    (sc : Sched) (strand : ℕ) → Finds sc.heap strand 0 sc.heap_len (heap_find_sleeper sc strand)
unfolding heap_find_sleeper
heap_find_sleeper-Finds sc strand =
    subst (λ end. Finds sc.heap strand 0 end (find_loop sc.heap_len sc.heap strand 0)) all
      (find_loop-Finds sc.heap_len sc.heap strand 0)
  where
    all : 0 + sc.heap_len ≡ sc.heap_len
    all = omega arith
