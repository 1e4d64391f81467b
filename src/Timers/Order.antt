-- ===== src/Timers/Order.antt =====
-- src/rt/usched.c: heap order on the due times alone, as functions of the index.
use urbi_embedded.Shared.{
  ℕ, zero, suc, ◌-◌, ◌/◌, ◌≤◌, ◌<◌, ◌≡◌, ◌≢◌, arith, ◌==◌, if◌then◌else◌, ℕ_discrete,
}

-- No record among the first `n` is due before its parent.
abbrev pub IsHeap : ℕ → (ℕ → ℕ) → Type 0
IsHeap n d = (j : ℕ) → 0 < j → j < n → d ((j - 1) / 2) ≤ d j

-- Heap order but for the record `i` and its parent, which `i`'s children respect.
pub record RisesAt (n : ℕ) (d : ℕ → ℕ) (i : ℕ) : Type 0 where
  pub others : (j : ℕ) → 0 < j → j < n → j ≢ i → d ((j - 1) / 2) ≤ d j
  pub nephews : (j : ℕ) → 0 < j → j < n → (j - 1) / 2 ≡ i → 0 < i → d ((i - 1) / 2) ≤ d j

abbrev pub swapped : (ℕ → ℕ) → ℕ → ℕ → ℕ → ℕ
swapped d p i j = if j == p then d i else if j == i then d p else d j

root_least_fuel : (left n : ℕ) (d : ℕ → ℕ) (j : ℕ) → IsHeap n d → j ≤ left → j < n → d 0 ≤ d j
root_least_fuel zero n d zero h f hj = omega arith
root_least_fuel zero n d (suc j) h f hj = absurd (omega arith)
root_least_fuel (suc left) n d zero h f hj = omega arith
root_least_fuel (suc left) n d (suc j) h f hj = omega (
  arith,
  root_least_fuel left n d ((suc j - 1) / 2) h (omega arith) (omega arith),
  h (suc j) (omega arith) hj,
)

-- The record at the root is due first.
pub root_least : (n : ℕ) (d : ℕ → ℕ) (j : ℕ) → IsHeap n d → j < n → d 0 ≤ d j
root_least n d j h hj = root_least_fuel j n d j h (omega arith) hj

module _ (n : ℕ) (d : ℕ → ℕ) (i : ℕ) (inside : i < n) (above : 0 < i) (rises : RisesAt n d i)
    (less : d i < d ((i - 1) / 2)) where
  p : ℕ
  p = (i - 1) / 2

  step_others : (j : ℕ) → 0 < j → j < n → j ≢ p → swapped d p i ((j - 1) / 2) ≤ swapped d p i j
  unfolding p
  step_others j pos hj ne = elim (ℕ_discrete j i) [
    | yes at ↦ ground arith
    | no other ↦ ground (arith, rises.others j pos hj other, rises.nephews j pos hj)
  ]

  step_nephews :
      (j : ℕ)
      → 0 < j
      → j < n
      → (j - 1) / 2 ≡ p
      → 0 < p
      → swapped d p i ((p - 1) / 2) ≤ swapped d p i j
  unfolding p
  step_nephews j pos hj at up = elim (ℕ_discrete j i) [
    | yes same ↦ ground (arith, rises.others ((i - 1) / 2) up)
    | no other ↦ ground (arith, rises.others ((i - 1) / 2) up, rises.others j pos hj other)
  ]

  pub RisesAt-swapped : RisesAt n (swapped d ((i - 1) / 2) i) ((i - 1) / 2)
  unfolding p
  RisesAt-swapped = record { others = step_others; nephews = step_nephews }
