-- ===== src/Timers/Sift.antt =====
-- src/rt/usched.c: heap_up and heap_down on an array with one record out of order.
use urbi_embedded.Shared.{
  ℕ, zero, suc, ◌-◌, ◌/◌, ◌≤◌, ◌<◌, ◌≡◌, refl, sym, ap, ◌∙◌, subst, List, arith, length, get_or,
  set, length-set, get_or-set_self, get_or-set_ne, ℕ_discrete, dec_lt, dec_le,
}
use urbi_embedded.Timers.{Timer, zeroed, due, heap_swap, heap_up}
use urbi_embedded.Timers.Order.{IsHeap, RisesAt, swapped, RisesAt-swapped}

pub length-heap_swap : (h : List Timer) (p i : ℕ) → length (heap_swap h p i) ≡ length h
length-heap_swap h p i = length-set (set h p (get_or h i zeroed)) i _ ∙ length-set h p _

pub due-heap_swap :
    (h : List Timer) (p i j : ℕ)
    → p < length h
    → i < length h
    → due (heap_swap h p i) j ≡ swapped (due h) p i j
due-heap_swap h p i j hp hi = elim (ℕ_discrete j i) [
  | yes at ↦ elim (ℕ_discrete i p) [
    | yes same ↦
        let found =
          get_or-set_self (set h p (get_or h i zeroed)) i (get_or h p zeroed) zeroed
            (omega (arith, length-set h p (get_or h i zeroed))) in
        ap (λ k. due (heap_swap h p i) k) at ∙ ap (λ (t : Timer). t.due_us) found ∙ ground arith
    | no other ↦
        let found =
          get_or-set_self (set h p (get_or h i zeroed)) i (get_or h p zeroed) zeroed
            (omega (arith, length-set h p (get_or h i zeroed))) in
        ap (λ k. due (heap_swap h p i) k) at ∙ ap (λ (t : Timer). t.due_us) found ∙ ground arith
  ]
  | no ne ↦
      let kept =
        get_or-set_ne (set h p (get_or h i zeroed)) i j (get_or h p zeroed) zeroed
          (λ e. ne (sym e)) in
      ap (λ (t : Timer). t.due_us) kept ∙ elim (ℕ_discrete j p) [
        | yes at ↦
            let found = get_or-set_self h p (get_or h i zeroed) zeroed hp in
            ap (λ k. due (set h p (get_or h i zeroed)) k) at
            ∙ ap (λ (t : Timer). t.due_us) found
            ∙ ground arith
        | no other ↦
            let same = get_or-set_ne h p j (get_or h i zeroed) zeroed (λ e. other (sym e)) in
            ap (λ (t : Timer). t.due_us) same ∙ ground arith
      ]
]

RisesAt-cong : (n : ℕ) (d e : ℕ → ℕ) (i : ℕ) → ((j : ℕ) → e j ≡ d j) → RisesAt n d i → RisesAt n e i
RisesAt-cong n d e i same rises = record {
  others = λ j pos hj ne. omega (arith, same j, same ((j - 1) / 2), rises.others j pos hj ne);
  nephews =
      λ j pos hj at up. omega (arith, same j, same ((i - 1) / 2), rises.nephews j pos hj at up);
}

pub length-heap_up : (left : ℕ) (h : List Timer) (i : ℕ) → length (heap_up left h i) ≡ length h
unfolding heap_up
length-heap_up zero h i = refl
length-heap_up (suc left) h i = ground (
  arith,
  length-heap_up left (heap_swap h ((i - 1) / 2) i) ((i - 1) / 2),
  length-heap_swap h ((i - 1) / 2) i,
)

settled : (n : ℕ) (d : ℕ → ℕ) (i : ℕ) → RisesAt n d i → (0 < i → d ((i - 1) / 2) ≤ d i) → IsHeap n d
settled n d i rises fine j pos hj = elim (ℕ_discrete j i) [
  | yes at ↦ ground (arith, fine)
  | no ne ↦ rises.others j pos hj ne
]

-- A record that may be due before its parent rises to its place.
pub heap_up-IsHeap :
    (left n : ℕ) (h : List Timer) (i : ℕ)
    → n ≤ length h
    → i < n
    → i ≤ left
    → RisesAt n (due h) i
    → IsHeap n (due (heap_up left h i))
unfolding heap_up
heap_up-IsHeap zero n h i room inside enough rises =
    settled n (due h) i rises (λ up. absurd (omega arith))
heap_up-IsHeap (suc left) n h i room inside enough rises = elim (dec_lt 0 i) [
  | no root ↦
      let stays : heap_up (suc left) h i ≡ h = ground arith in
      subst (λ l. IsHeap n (due l)) (sym stays) (settled n (due h) i rises (λ up. absurd (root up)))
  | yes above ↦ elim (dec_le (due h ((i - 1) / 2)) (due h i)) [
    | yes fine ↦
        let stays : heap_up (suc left) h i ≡ h = ground arith in
        subst (λ l. IsHeap n (due l)) (sym stays) (settled n (due h) i rises (λ up. fine))
    | no early ↦
        let p = (i - 1) / 2 in
        let goes : heap_up (suc left) h i ≡ heap_up left (heap_swap h p i) p = ground arith in
        subst (λ l. IsHeap n (due l)) (sym goes)
          (heap_up-IsHeap left n (heap_swap h p i) p (omega (arith, length-heap_swap h p i))
            (omega arith) (omega arith)
            (RisesAt-cong n (swapped (due h) p i) (due (heap_swap h p i)) p
              (λ j. due-heap_swap h p i j (omega arith) (omega arith))
              (RisesAt-swapped n (due h) i inside above rises (omega arith))))
  ]
]
