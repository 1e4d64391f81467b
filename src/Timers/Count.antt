-- ===== src/Timers/Count.antt =====
-- src/rt/usched.c: the records that the sifts keep, counted by any test.
use urbi_embedded.Shared.{
  ℕ, zero, suc, ◌+◌, ◌-◌, ◌/◌, ◌≤◌, ◌<◌, ◌≡◌, ◌≢◌, refl, ap, ◌∙◌, Bool, List, arith, if◌then◌else◌,
  length, get_or, set, length-set, get_or-set_self, get_or-set_ne, ℕ_discrete, dec_lt,
}
use urbi_embedded.Timers.{Timer, zeroed, due, heap_swap, heap_up, least, heap_down}
use urbi_embedded.Timers.Sift.{length-heap_swap}
use urbi_embedded.Timers.Sink.{least_child}

module _ (test : Timer → Bool) where
  abbrev pub one : Timer → ℕ
  one t = if test t then 1 else 0

  -- How many of the first `n` records pass the test.
  abbrev pub count : ℕ → List Timer → ℕ
  count zero h = 0
  count (suc n) h = count n h + one (get_or h n zeroed)

  pub count-set_past :
      (n : ℕ) (h : List Timer) (i : ℕ) (v : Timer) → n ≤ i → count n (set h i v) ≡ count n h
  count-set_past zero h i v past = refl
  count-set_past (suc n) h i v past = omega (
    arith,
    count-set_past n h i v (omega arith),
    ap one (get_or-set_ne h i n v zeroed (λ e. omega (arith, e))),
  )

  pub count-set :
      (n : ℕ) (h : List Timer) (i : ℕ) (v : Timer)
      → i < n
      → n ≤ length h
      → count n (set h i v) + one (get_or h i zeroed) ≡ count n h + one v
  count-set zero h i v inside room = absurd (omega arith)
  count-set (suc n) h i v inside room = elim (ℕ_discrete i n) [
    | yes at ↦ omega (
      arith,
      count-set_past n h i v (omega arith),
      ap (λ k. one (get_or h k zeroed)) at,
      ap (λ k. one (get_or (set h i v) k zeroed)) at,
      ap one (get_or-set_self h i v zeroed (omega arith)),
    )
    | no ne ↦ omega (
      arith,
      count-set n h i v (omega arith) (omega arith),
      ap one (get_or-set_ne h i n v zeroed ne),
    )
  ]

  count-heap_swap :
      (n : ℕ) (h : List Timer) (p i : ℕ)
      → p < n
      → i < n
      → p ≢ i
      → n ≤ length h
      → count n (heap_swap h p i) ≡ count n h
  count-heap_swap n h p i hp hi ne room = omega (
    arith,
    count-set n h p (get_or h i zeroed) hp room,
    count-set n (set h p (get_or h i zeroed)) i (get_or h p zeroed) hi
        (omega (arith, length-set h p (get_or h i zeroed))),
    ap one (get_or-set_ne h p i (get_or h i zeroed) zeroed ne),
  )

  pub count-heap_up :
      (left n : ℕ) (h : List Timer) (i : ℕ)
      → i < n
      → n ≤ length h
      → count n (heap_up left h i) ≡ count n h
  unfolding heap_up
  count-heap_up zero n h i inside room = refl
  count-heap_up (suc left) n h i inside room = elim (dec_lt 0 i) [
    | no root ↦ let stays : heap_up (suc left) h i ≡ h = ground arith in ap (count n) stays
    | yes above ↦ elim (dec_lt (due h i) (due h ((i - 1) / 2))) [
      | no fine ↦ let stays : heap_up (suc left) h i ≡ h = ground arith in ap (count n) stays
      | yes early ↦
          let p = (i - 1) / 2 in
          let goes : heap_up (suc left) h i ≡ heap_up left (heap_swap h p i) p = ground arith in
          ap (count n) goes
          ∙ count-heap_up left n (heap_swap h p i) p (omega arith)
              (omega (arith, length-heap_swap h p i))
          ∙ count-heap_swap n h p i (omega arith) inside (λ e. omega (arith, e)) room
    ]
  ]

  pub count-heap_down :
      (left n : ℕ) (h : List Timer) (k : ℕ)
      → k < n
      → n ≤ length h
      → count n (heap_down left h n k) ≡ count n h
  unfolding heap_down
  count-heap_down zero n h k inside room = refl
  count-heap_down (suc left) n h k inside room = elim (ℕ_discrete (least h n k) k) [
    | yes at ↦ let stays : heap_down (suc left) h n k ≡ h = ground arith in ap (count n) stays
    | no ne ↦
        let m = least h n k in
        let (hm, under, child, less) = least_child h n k ne in
        let goes : heap_down (suc left) h n k ≡ heap_down left (heap_swap h m k) n m =
          ground arith in
        ap (count n) goes
        ∙ count-heap_down left n (heap_swap h m k) m hm (omega (arith, length-heap_swap h m k))
        ∙ count-heap_swap n h m k hm inside ne room
  ]
