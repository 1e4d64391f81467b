-- ===== src/Timers/Heap.antt =====
-- src/rt/usched.c: making room in the timer heap, and one more record put into it.
use urbi_embedded.Shared.{
  ℕ, zero, suc, ◌+◌, ◌-◌, ◌*◌, ◌/◌, ◌%◌, ◌^◌, ◌≤◌, ◌<◌, ◌≡◌, ◌↔◌, refl, sym, ap, ◌∙◌, subst, inl,
  inr, Bool, true, false, List, ◌++◌, none, some, arith, ◌==◌, if◌then◌else◌, length, set,
  replicate, length-set, length-append, length-replicate, get_or-set_self, get_or-set_ne,
  get_or-append_left, Option-cases, ℕ_discrete,
}
use urbi_embedded.Timers.{Timer, zeroed, Sched, due, put_timer, timer_room, usched_timer_add}
use urbi_embedded.Timers.Order.{IsHeap, RisesAt}
use urbi_embedded.Timers.Sift.{heap_up-IsHeap, length-heap_up}
use urbi_embedded.Timers.Count.{one, count, count-set_past, count-heap_up}

-- The array has `heap_cap` records, those in use fit, and none is due before its parent.
pub record IsTimers (sc : Sched) : Type 0 where
  pub fits : sc.heap_len ≤ sc.heap_cap
  pub whole : length sc.heap ≡ sc.heap_cap
  pub ordered : IsHeap sc.heap_len (due sc.heap)

-- The same records in use, and room for one more.
pub record Roomy (sc r : Sched) : Type 0 where
  pub timers : IsTimers r
  pub len_same : r.heap_len ≡ sc.heap_len
  pub room : r.heap_len < r.heap_cap
  pub counts :
      (test : Timer → Bool) → count test sc.heap_len r.heap ≡ count test sc.heap_len sc.heap

count-append :
    (test : Timer → Bool) (n : ℕ) (h l : List Timer)
    → n ≤ length h
    → count test n (h ++ l) ≡ count test n h
count-append test zero h l room = refl
count-append test (suc n) h l room = omega (
  arith,
  count-append test n h l (omega arith),
  ap (one test) (get_or-append_left h l n zeroed (omega arith)),
)

IsHeap-append :
    (n : ℕ) (h l : List Timer) → n ≤ length h → IsHeap n (due h) → IsHeap n (due (h ++ l))
IsHeap-append n h l room ordered j pos hj = omega (
  arith,
  ordered j pos hj,
  ap (λ (t : Timer). t.due_us) (get_or-append_left h l j zeroed (omega arith)),
  ap (λ (t : Timer). t.due_us) (get_or-append_left h l ((j - 1) / 2) zeroed (omega arith)),
)

doubled : ℕ → ℕ
doubled cap = if cap == 0 then 4 else cap * 2 % 2 ^ 32

more_room : (c : ℕ) → c < 2 ^ 31 → c < doubled c
unfolding doubled
more_room c h = ground arith

room_parts :
    (served : Bool) (sc r : Sched)
    → sc.heap_len ≡ sc.heap_cap
    → timer_room served sc ≡ some r
    → r ≡ record sc {
      heap = sc.heap ++ replicate (doubled sc.heap_cap - length sc.heap) zeroed;
      heap_cap = doubled sc.heap_cap;
    }
unfolding timer_room doubled
room_parts served sc r full h = ground arith

pub room-Roomy :
    (served : Bool) (sc r : Sched)
    → IsTimers sc
    → sc.heap_cap < 2 ^ 31
    → timer_room served sc ≡ some r
    → Roomy sc r
room-Roomy served sc r timers small h = elim (ℕ_discrete sc.heap_len sc.heap_cap) [
  | no some_left ↦
      let same : sc ≡ r = unfold timer_room in ground arith in
      let fits = timers.fits in
      subst (Roomy sc) same
        (record { timers = timers; len_same = refl; room = omega arith; counts = λ test. refl })
  | yes full ↦
      let added = replicate (doubled sc.heap_cap - length sc.heap) zeroed in
      let fits = timers.fits in
      let whole = timers.whole in
      let more = more_room sc.heap_cap small in
      subst (Roomy sc) (sym (room_parts served sc r full h)) (record {
        timers = record {
          fits = omega arith;
          whole =
              length-append sc.heap added
              ∙ omega (arith, length-replicate (doubled sc.heap_cap - length sc.heap) zeroed);
          ordered = IsHeap-append sc.heap_len sc.heap added (omega arith) timers.ordered;
        };
        len_same = refl;
        room = omega arith;
        counts = λ test. count-append test sc.heap_len sc.heap added (omega arith);
      })
]

set-RisesAt :
    (n : ℕ) (h : List Timer) (t : Timer)
    → n < length h
    → IsHeap n (due h)
    → RisesAt (n + 1) (due (set h n t)) n
set-RisesAt n h t room ordered = record {
  others = λ j pos hj ne. omega (
    arith,
    ordered j pos (omega arith),
    ap (λ (t : Timer). t.due_us) (get_or-set_ne h n j t zeroed (λ e. omega (arith, e))),
    ap (λ (t : Timer). t.due_us) (get_or-set_ne h n ((j - 1) / 2) t zeroed (λ e. omega (arith, e))),
  );
  nephews = λ j pos hj at up. absurd (omega arith);
}

pub put-IsTimers :
    (sc : Sched) (t : Timer)
    → IsTimers sc
    → sc.heap_len < sc.heap_cap
    → IsTimers (put_timer sc t)
      × ((test : Timer → Bool)
          → count test (sc.heap_len + 1) (put_timer sc t).heap
            ≡ count test sc.heap_len sc.heap + one test t)
put-IsTimers sc t timers room =
    let whole = timers.whole in
    let n = sc.heap_len in
    let h = set sc.heap n t in
    let size = length-set sc.heap n t in
    (
      record {
        fits = omega arith;
        whole = length-heap_up n h n ∙ size ∙ whole;
        ordered =
            heap_up-IsHeap n (n + 1) h n (omega arith) (omega arith) (omega arith)
              (set-RisesAt n sc.heap t (omega arith) timers.ordered);
      },
      λ test.
          count-heap_up test n (n + 1) h n (omega arith) (omega arith)
          ∙ ap (λ m. count test m h) next_is
          ∙ omega (
            arith,
            count-set_past test n sc.heap n t (omega arith),
            ap (one test) (get_or-set_self sc.heap n t zeroed (omega arith)),
          ),
    )
  where
    next_is : sc.heap_len + 1 ≡ suc sc.heap_len
    next_is = omega arith

pub add_parts :
    (served : Bool) (sc sc' : Sched) (t : Timer)
    → usched_timer_add served sc t ≡ some sc'
    → (r : Sched) × (timer_room served sc ≡ some r) × (sc' ≡ put_timer r t)
unfolding usched_timer_add
add_parts served sc sc' t h = elim (Option-cases (timer_room served sc)) [
  | inl missing ↦ absurd (ground arith)
  | inr (r, room) ↦ (r, room, ground arith)
]

pub add-none :
    (served : Bool) (sc : Sched) (t : Timer)
    → (usched_timer_add served sc t ≡ none) ↔ ((sc.heap_len ≡ sc.heap_cap) × (served ≡ false))
unfolding usched_timer_add timer_room
add-none true sc t = ground arith
add-none false sc t = ground arith
