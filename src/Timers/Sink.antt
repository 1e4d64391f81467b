-- ===== src/Timers/Sink.antt =====
-- src/rt/usched.c: a record that is due too late on its way down.
use urbi_embedded.Shared.{
  ℕ, zero, suc, ◌+◌, ◌-◌, ◌*◌, ◌/◌, ◌≤◌, ◌<◌, ◌≡◌, ◌≢◌, refl, sym, ap, ◌∙◌, subst, ◌⊎◌, inl, inr,
  List, arith, length, ℕ_discrete,
}
use urbi_embedded.Timers.{Timer, due, heap_swap, least, heap_down}
use urbi_embedded.Timers.Order.{RisesAt, swapped}
use urbi_embedded.Timers.Sift.{length-heap_swap, due-heap_swap}

-- A sift down that began at `i` has come to `k`: order holds but for `k`'s children and, at `i`, the
-- parent, and the children of both respect the parent of each.
pub record SinksAt (n : ℕ) (d : ℕ → ℕ) (i k : ℕ) : Type 0 where
  pub below : i ≤ k
  pub others : (j : ℕ) → 0 < j → j < n → j ≢ i → (j - 1) / 2 ≢ k → d ((j - 1) / 2) ≤ d j
  pub nephews : (j : ℕ) → 0 < j → j < n → (j - 1) / 2 ≡ k → 0 < k → d ((k - 1) / 2) ≤ d j
  pub raised : i ≢ k → 0 < i → d ((i - 1) / 2) ≤ d i
  pub first : (j : ℕ) → 0 < j → j < n → (j - 1) / 2 ≡ i → 0 < i → d ((i - 1) / 2) ≤ d j

-- The two children.
child_is :
    (d : ℕ → ℕ) (k j : ℕ)
    → 0 < j
    → (j - 1) / 2 ≡ k
    → ((j ≡ 2 * k + 1) × (d j ≡ d (2 * k + 1))) ⊎ ((j ≡ 2 * k + 1 + 1) × (d j ≡ d (2 * k + 1 + 1)))
child_is d k j pos at = elim (ℕ_discrete j (2 * k + 1)) [
  | yes e ↦ inl (e, ap d e)
  | no ne ↦ let e : j ≡ 2 * k + 1 + 1 = omega arith in inr (e, ap d e)
]

least_le :
    (h : List Timer) (n k j : ℕ) → 0 < j → j < n → (j - 1) / 2 ≡ k → due h (least h n k) ≤ due h j
unfolding least
least_le h n k j pos hj at = elim (child_is (due h) k j pos at) [
  | inl (e, same) ↦ ground (arith, e, same)
  | inr (e, same) ↦ ground (arith, e, same)
]

-- The choice of `heap_down` is the record or a child due before it.
pub least_child :
    (h : List Timer) (n k : ℕ)
    → least h n k ≢ k
    → (least h n k < n)
      × (k < least h n k)
      × ((least h n k - 1) / 2 ≡ k)
      × (due h (least h n k) < due h k)
unfolding least
least_child h n k ne = ground arith

module _ (n : ℕ) (d : ℕ → ℕ) (i k m : ℕ) (sinks : SinksAt n d i k) (inside : m < n)
    (child : (m - 1) / 2 ≡ k) (under : k < m) (less : d m < d k)
    (smallest : (j : ℕ) → 0 < j → j < n → (j - 1) / 2 ≡ k → d m ≤ d j) where
  sink_others :
      (j : ℕ)
      → 0 < j
      → j < n
      → j ≢ i
      → (j - 1) / 2 ≢ m
      → swapped d m k ((j - 1) / 2) ≤ swapped d m k j
  sink_others j pos hj ne other = elim (ℕ_discrete ((j - 1) / 2) k) [
    | yes at ↦ ground (arith, smallest j pos hj at, sinks.below)
    | no off ↦ elim (ℕ_discrete j k) [
      | yes same ↦ ground (arith, sinks.nephews m (omega arith) inside child, sinks.below)
      | no moved ↦ ground (arith, sinks.others j pos hj ne off)
    ]
  ]

  sink_nephews :
      (j : ℕ)
      → 0 < j
      → j < n
      → (j - 1) / 2 ≡ m
      → 0 < m
      → swapped d m k ((m - 1) / 2) ≤ swapped d m k j
  sink_nephews j pos hj at up =
      let i_le = sinks.below in
      let kept = sinks.others j pos hj (omega arith) (omega arith) in
      let parent : d ((j - 1) / 2) ≡ d m = ap d at in ground arith

  sink_first :
      (j : ℕ)
      → 0 < j
      → j < n
      → (j - 1) / 2 ≡ i
      → 0 < i
      → swapped d m k ((i - 1) / 2) ≤ swapped d m k j
  sink_first j pos hj at up =
      let i_le = sinks.below in
      let mine = sinks.first j pos hj at up in
      elim (ℕ_discrete j m) [
        | yes same ↦ ground (arith, mine)
        | no other ↦ elim (ℕ_discrete j k) [
          | yes here_is ↦
              let low = sinks.nephews m (omega arith) inside child in
              let up_i = sinks.raised (omega arith) up in
              let parent : d ((k - 1) / 2) ≡ d i = ap d (omega arith) in
              ground (arith, mine, low, up_i, parent)
          | no off ↦ ground (arith, mine)
        ]
      ]

  sink_raised : i ≢ m → 0 < i → swapped d m k ((i - 1) / 2) ≤ swapped d m k i
  sink_raised ne up =
      let i_le = sinks.below in
      elim (ℕ_discrete i k) [
        | yes start ↦
            let low = sinks.first m (omega arith) inside (child ∙ sym start) up in
            ground (arith, low)
        | no later ↦ let up_i = sinks.raised later up in ground (arith, up_i)
      ]

  pub SinksAt-swapped : SinksAt n (swapped d m k) i m
  SinksAt-swapped = record {
    below = omega (arith, sinks.below);
    others = sink_others;
    nephews = sink_nephews;
    raised = sink_raised;
    first = sink_first;
  }

SinksAt-cong :
    (n : ℕ) (d e : ℕ → ℕ) (i k : ℕ) → ((j : ℕ) → e j ≡ d j) → SinksAt n d i k → SinksAt n e i k
SinksAt-cong n d e i k same sinks = record {
  below = sinks.below;
  others =
      λ j pos hj ne off. omega (arith, same j, same ((j - 1) / 2), sinks.others j pos hj ne off);
  nephews =
      λ j pos hj at up. omega (arith, same j, same ((k - 1) / 2), sinks.nephews j pos hj at up);
  raised = λ ne up. omega (arith, same i, same ((i - 1) / 2), sinks.raised ne up);
  first = λ j pos hj at up. omega (arith, same j, same ((i - 1) / 2), sinks.first j pos hj at up);
}

sunk :
    (n : ℕ) (d : ℕ → ℕ) (i k : ℕ)
    → SinksAt n d i k
    → ((j : ℕ) → 0 < j → j < n → (j - 1) / 2 ≡ k → d k ≤ d j)
    → RisesAt n d i
sunk n d i k sinks fine = record {
  others = λ j pos hj ne. elim (ℕ_discrete ((j - 1) / 2) k) [
    | yes at ↦ omega (arith, ap d at, fine j pos hj at)
    | no off ↦ sinks.others j pos hj ne off
  ];
  nephews = sinks.first;
}

-- After `heap_down` order holds but for the record where it began and its parent.
pub heap_down-RisesAt :
    (left n : ℕ) (h : List Timer) (i k : ℕ)
    → n ≤ length h
    → n ≤ k + left
    → k < n
    → SinksAt n (due h) i k
    → RisesAt n (due (heap_down left h n k)) i
unfolding heap_down
heap_down-RisesAt zero n h i k room enough inside sinks = absurd (omega arith)
heap_down-RisesAt (suc left) n h i k room enough inside sinks = elim (ℕ_discrete (least h n k) k) [
  | yes at ↦
      let stays : heap_down (suc left) h n k ≡ h = ground arith in
      subst (λ l. RisesAt n (due l) i) (sym stays)
        (sunk n (due h) i k sinks
          (λ j pos hj up. omega (arith, ap (due h) at, least_le h n k j pos hj up)))
  | no ne ↦
      let m = least h n k in
      let (hm, under, child, less) = least_child h n k ne in
      let goes : heap_down (suc left) h n k ≡ heap_down left (heap_swap h m k) n m = ground arith in
      subst (λ l. RisesAt n (due l) i) (sym goes)
        (heap_down-RisesAt left n (heap_swap h m k) i m (omega (arith, length-heap_swap h m k))
          (omega arith) hm
          (SinksAt-cong n (swapped (due h) m k) (due (heap_swap h m k)) i m
            (λ j. due-heap_swap h m k j (omega arith) (omega arith))
            (SinksAt-swapped n (due h) i k m sinks hm child under less (least_le h n k))))
]

pub length-heap_down :
    (left n : ℕ) (h : List Timer) (k : ℕ) → length (heap_down left h n k) ≡ length h
unfolding heap_down
length-heap_down zero n h k = refl
length-heap_down (suc left) n h k = elim (ℕ_discrete (least h n k) k) [
  | yes at ↦ ground arith
  | no ne ↦ ground (
    arith,
    length-heap_down left n (heap_swap h (least h n k) k) (least h n k),
    length-heap_swap h (least h n k) k,
  )
]
