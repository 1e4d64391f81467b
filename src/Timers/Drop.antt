-- ===== src/Timers/Drop.antt =====
-- src/rt/usched.c: the bulk drops of a tag's periodic timers and of a realm's timers.
use urbi_embedded.Shared.{
  ℕ, zero, suc, ◌+◌, ◌/◌, ◌≤◌, ◌≡◌, ◌≢◌, refl, sym, ap, ◌∙◌, subst, inl, inr, Bool, true, false,
  not, ◌&&◌, List, arith, ◌==◌, if◌then◌else◌, length, get_or, set, length-set, get_or-set_self,
  Bool-cases,
}
use urbi_embedded.Timers.{
  Timer, zeroed, Sched, heap_down, keep_loop, rebuild_loop, usched_heap_rebuild, drop_timers,
  keeps_tag, keeps_realm, usched_timers_drop_tag, usched_timers_drop_realm,
}
use urbi_embedded.Timers.Sink.{length-heap_down}
use urbi_embedded.Timers.Count.{one, count, count-set, count-set_past, count-heap_down}
use urbi_embedded.Timers.Heap.{IsTimers}

module _ (keep test : Timer → Bool) where
  abbrev both : Timer → Bool
  both t = keep t && test t

  both_kept : (t : Timer) → keep t ≡ true → one both t ≡ one test t
  both_kept t kept = ap (λ b. one (λ u. b && test u) t) kept

  both_dropped : (t : Timer) → keep t ≡ false → one both t ≡ 0
  both_dropped t dropped = ap (λ b. one (λ u. b && test u) t) dropped

  -- What a loop that ends with `r` does from `i` and `w` on.
  Keeps : ℕ → List Timer → ℕ → ℕ → List Timer × ℕ → Type 0
  Keeps left h i w r =
      (length r.0 ≡ length h)
      × (r.1 ≤ w + left)
      × (count test r.1 r.0 + count both i h ≡ count test w h + count both (i + left) h)

  step_kept :
      (left : ℕ) (h : List Timer) (i w : ℕ) (r : List Timer × ℕ)
      → w ≤ i
      → i + suc left ≤ length h
      → keep (get_or h i zeroed) ≡ true
      → Keeps left (set h w (get_or h i zeroed)) (i + 1) (w + 1) r
      → Keeps (suc left) h i w r
  unfolding Keeps
  step_kept left h i w r below room kept (size, few, counts) =
      let t = get_or h i zeroed in
      (
        size ∙ length-set h w t,
        omega arith,
        omega (
          arith,
          counts,
          ap (λ k. count both k h) next,
          ap (λ k. count both k (set h w t)) next,
          ap (λ k. count both k h) last,
          ap (λ k. count both k (set h w t)) last,
          ap (λ k. count both k h) span,
          ap (λ k. count test k (set h w t)) more,
          count-set_past test w h w t (omega arith),
          ap (one test) (get_or-set_self h w t zeroed (omega arith)),
          count-set both (suc i) h w t (omega arith) (omega arith),
          count-set both (suc (i + left)) h w t (omega arith) (omega arith),
          both_kept t kept,
        ),
      )
    where
      next : i + 1 ≡ suc i
      next = omega arith

      more : w + 1 ≡ suc w
      more = omega arith

      last : i + 1 + left ≡ suc (i + left)
      last = omega arith

      span : i + suc left ≡ suc (i + left)
      span = omega arith

  step_dropped :
      (left : ℕ) (h : List Timer) (i w : ℕ) (r : List Timer × ℕ)
      → keep (get_or h i zeroed) ≡ false
      → Keeps left h (i + 1) w r
      → Keeps (suc left) h i w r
  unfolding Keeps
  step_dropped left h i w r dropped (size, few, counts) = (
    size,
    omega arith,
    omega (
      arith,
      counts,
      ap (λ k. count both k h) next,
      ap (λ k. count both k h) last,
      both_dropped (get_or h i zeroed) dropped,
    ),
  )
    where
      next : i + 1 ≡ suc i
      next = omega arith

      last : i + 1 + left ≡ i + suc left
      last = omega arith

  keep_loop-Keeps :
      (left : ℕ) (h : List Timer) (i w : ℕ)
      → w ≤ i
      → i + left ≤ length h
      → Keeps left h i w (keep_loop keep left h i w)
  unfolding keep_loop Keeps
  keep_loop-Keeps zero h i w below room =
      (refl, omega arith, ap (λ k. count test w h + count both k h) (omega arith))
  keep_loop-Keeps (suc left) h i w below room =
      let t = get_or h i zeroed in
      let next : Bool → List Timer × ℕ =
        λ b. keep_loop keep left (if b then set h w t else h) (i + 1) (if b then w + 1 else w) in
      elim (Bool-cases (keep t)) [
        | inl kept ↦
            let size = length-set h w t in
            subst (λ b. Keeps (suc left) h i w (next b)) (sym kept)
              (step_kept left h i w (next true) below room kept
                (keep_loop-Keeps left (set h w t) (i + 1) (w + 1) (omega arith) (omega arith)))
        | inr dropped ↦
            subst (λ b. Keeps (suc left) h i w (next b)) (sym dropped)
              (step_dropped left h i w (next false) dropped
                (keep_loop-Keeps left h (i + 1) w (omega arith) (omega arith)))
      ]

  rebuild_loop-count :
      (i : ℕ) (h : List Timer) (len : ℕ)
      → i ≤ len
      → len ≤ length h
      → (length (rebuild_loop i h len) ≡ length h)
        × (count test len (rebuild_loop i h len) ≡ count test len h)
  unfolding rebuild_loop
  rebuild_loop-count zero h len below room = (refl, refl)
  rebuild_loop-count (suc i) h len below room =
      let size = length-heap_down len len h i in
      let (size', counts) =
        rebuild_loop-count i (heap_down len h len i) len (omega arith) (omega arith) in
      (size' ∙ size, counts ∙ count-heap_down test len len h i (omega arith) (omega arith))

  -- A rebuilt heap of `w` records.
  Rebuilds : Sched → ℕ → Sched → Type 0
  Rebuilds sc w r =
      (length r.heap ≡ length sc.heap)
      × (r.heap_len ≡ w)
      × (r.heap_cap ≡ sc.heap_cap)
      × (count test w r.heap ≡ count test w sc.heap)

  heap_rebuild-Rebuilds :
      (sc : Sched) (w : ℕ) → w ≤ length sc.heap → Rebuilds sc w (usched_heap_rebuild sc w)
  unfolding usched_heap_rebuild Rebuilds
  heap_rebuild-Rebuilds sc w room =
      let (size, counts) = rebuild_loop-count (w / 2) sc.heap w (omega arith) room in
      let next : Bool → Sched =
        λ b. if b then sc else record sc { heap = rebuild_loop (w / 2) sc.heap w; heap_len = w } in
      elim (Bool-cases (w == sc.heap_len)) [
        | inl same ↦
            subst (λ b. Rebuilds sc w (next b)) (sym same) (refl, ground (arith, same), refl, refl)
        | inr fewer ↦ subst (λ b. Rebuilds sc w (next b)) (sym fewer) (size, refl, refl, counts)
      ]

  drop-count :
      (sc : Sched)
      → IsTimers sc
      → let sc' = drop_timers keep sc in
        (length sc'.heap ≡ sc'.heap_cap)
        × (sc'.heap_len ≤ sc.heap_len)
        × (count test sc'.heap_len sc'.heap ≡ count both sc.heap_len sc.heap)
  unfolding Rebuilds Keeps
  drop-count sc timers =
      let r = keep_loop keep sc.heap_len sc.heap 0 0 in
      let sc' = drop_timers keep sc in
      let fits = timers.fits in
      let whole = timers.whole in
      let (size, few, counts) =
        keep_loop-Keeps sc.heap_len sc.heap 0 0 (omega arith) (omega arith) in
      let (size', len_is, cap_is, counts') =
        heap_rebuild-Rebuilds (record sc { heap = r.0 }) r.1 (omega arith) in
      (
        size' ∙ size ∙ whole ∙ sym cap_is,
        omega arith,
        ap (λ k. count test k sc'.heap) len_is
            ∙ counts'
            ∙ omega (arith, counts, ap (λ k. count both k sc.heap) all),
      )
    where
      all : 0 + sc.heap_len ≡ sc.heap_len
      all = omega arith

-- On a well-formed timer heap and an object that is not NULL: after usched_timers_drop_tag the records in
-- use are those that were not periodic timers of the tag, and after usched_timers_drop_realm those that were not
-- of the realm, whatever is counted of them.
pub drop_timers-count :
    (sc : Sched) (object : ℕ) (test : Timer → Bool)
    → IsTimers sc
    → object ≢ 0
    → (count test
          (usched_timers_drop_tag sc object).heap_len
          (usched_timers_drop_tag sc object).heap
        ≡ count
            (λ t. not (not (t.period_us == 0) && (t.tag == object)) && test t)
            sc.heap_len
            sc.heap)
      × (count test
            (usched_timers_drop_realm sc object).heap_len
            (usched_timers_drop_realm sc object).heap
          ≡ count (λ t. not (t.realm == object) && test t) sc.heap_len sc.heap)
unfolding usched_timers_drop_tag usched_timers_drop_realm
drop_timers-count sc object test timers some_object =
    let counts : (keep : Timer → Bool) → After keep (drop_timers keep sc) =
      λ keep. (drop-count keep test sc timers).2 in
    (
      subst (λ b. After (keeps_tag object) (if b then sc else drop_timers (keeps_tag object) sc))
          (sym off) (counts (keeps_tag object)),
      subst
          (λ b. After (keeps_realm object) (if b then sc else drop_timers (keeps_realm object) sc))
          (sym off) (counts (keeps_realm object)),
    )
  where
    off : (object == 0) ≡ false
    off = ground (arith, some_object)

    After : (Timer → Bool) → Sched → Type 0
    After keep r = count test r.heap_len r.heap ≡ count (both keep test) sc.heap_len sc.heap
