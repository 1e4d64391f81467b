-- ===== src/Scheduler/Erase.antt =====
-- Sequences of strands: taking one out, the last one, and what links say of them.
use urbi_embedded.Shared.{
  ℕ, ◌≡◌, ◌≢◌, refl, sym, ◌∙◌, subst, arith, true, false, List, [], ◌∷◌, ◌==◌, Bool-cases, ◌⊎◌, inl,
  inr,
}
use urbi_embedded.Scheduler.Threads.{
  clash, has, Distinct, last, erase, before, Linked, Linked-remove,
}

pub has-erase : (k s : ℕ) (xs : List ℕ) → (k == s) ≡ false → has k (erase s xs) ≡ has k xs
has-erase k s [] far = refl
has-erase k s (x ∷ xs) far = elim (Bool-cases (s == x)) [
  | inl same ↦ ground (arith, same, far)
  | inr apart ↦ ground (arith, apart, has-erase k s xs far)
]

pub erased : (s : ℕ) (xs : List ℕ) → Distinct xs → has s (erase s xs) ≡ false
erased s [] d = refl
erased s (x ∷ xs) (out, d) = elim (Bool-cases (s == x)) [
  | inl same ↦
      let e : x ≡ s = ground (arith, same) in
      ground (arith, same, subst (λ k. has k xs ≡ false) e out)
  | inr apart ↦ ground (arith, apart, erased s xs d)
]

-- What is left of a sequence was in it.
pub erase-outside : (k s : ℕ) (xs : List ℕ) → has k xs ≡ false → has k (erase s xs) ≡ false
erase-outside k s [] out = refl
erase-outside k s (x ∷ xs) out = elim (Bool-cases (s == x)) [
  | inl same ↦ ground (arith, same, out)
  | inr apart ↦
      let rest : has k xs ≡ false = ground (arith, out) in
      ground (arith, apart, out, erase-outside k s xs rest)
]

pub erase-inside : (k s : ℕ) (xs : List ℕ) → has k (erase s xs) ≡ true → has k xs ≡ true
erase-inside k s xs h = elim (Bool-cases (has k xs)) [
  | inl inside ↦ inside
  | inr out ↦ absurd (clash (sym (erase-outside k s xs out) ∙ h))
]

pub Distinct-erase : (s : ℕ) (xs : List ℕ) → Distinct xs → Distinct (erase s xs)
Distinct-erase s [] d = tt
Distinct-erase s (x ∷ xs) (out, d) = elim (Bool-cases (s == x)) [
  | inl same ↦ let r : erase s (x ∷ xs) ≡ xs = ground (arith, same) in subst Distinct (sym r) d
  | inr apart ↦
      let r : erase s (x ∷ xs) ≡ x ∷ erase s xs = ground (arith, apart) in
      subst Distinct (sym r) (erase-outside x s xs out, Distinct-erase s xs d)
]

pub erase_absent : (s : ℕ) (xs : List ℕ) → has s xs ≡ false → erase s xs ≡ xs
erase_absent s [] out = refl
erase_absent s (x ∷ xs) out =
    let apart : (s == x) ≡ false = ground (arith, out) in
    let rest : has s xs ≡ false = ground (arith, out) in
    ground (arith, apart, erase_absent s xs rest)

pub Linked-nonzero : (f : ℕ → ℕ) (k h : ℕ) (xs : List ℕ) → Linked f h xs → has k xs ≡ true → k ≢ 0
Linked-nonzero f k h [] l inside = absurd (ground (arith, inside))
Linked-nonzero f k h (x ∷ xs) (e, nz, l) inside = elim (Bool-cases (k == x)) [
  | inl same ↦ ground (arith, same, nz)
  | inr apart ↦ Linked-nonzero f k (f x) xs l (ground (arith, apart, inside))
]

pub last-has :
    (f : ℕ → ℕ) (h x : ℕ) (xs : List ℕ) → Linked f h (x ∷ xs) → has (last (x ∷ xs)) (x ∷ xs) ≡ true
last-has f h x [] l = ground arith
last-has f h x (y ∷ ys) (e, nz, l) =
    let inside = last-has f (f x) y ys l in
    let some_last = Linked-nonzero f (last (y ∷ ys)) (f x) (y ∷ ys) l inside in
    let q : last (x ∷ (y ∷ ys)) ≡ last (y ∷ ys) = ground (arith, some_last) in
    subst (λ k. has k (x ∷ (y ∷ ys)) ≡ true) (sym q) (ground (arith, inside))

-- The strand before `s` is in the sequence, or `s` is the first.
pub has-before :
    (f : ℕ → ℕ) (s h : ℕ) (xs : List ℕ)
    → Linked f h xs
    → Distinct xs
    → has s xs ≡ true
    → (before s 0 xs == 0) ≡ false
    → has (before s 0 xs) xs ≡ true
has-before f s h [] l d inside inner = absurd (ground (arith, inside))
has-before f s h (x ∷ xs) (e, nz, l) d inside inner = elim (Bool-cases (s == x)) [
  | inl same ↦ absurd (ground (arith, same, inner))
  | inr apart ↦
      let (there, rest) = Linked-remove f s x xs (refl, nz, l) d (ground (arith, apart, inside)) in
      let q : before s 0 (x ∷ xs) ≡ before s x xs = ground (arith, apart) in
      subst (λ k. has k (x ∷ xs) ≡ true) (sym q) there
]

-- A strand in the sequence is the last one, or its link is not NULL.
pub last-or-linked :
    (f : ℕ → ℕ) (s h : ℕ) (xs : List ℕ)
    → Linked f h xs
    → has s xs ≡ true
    → (s ≡ last xs) ⊎ (f s ≢ 0)
last-or-linked f s h [] l inside = absurd (ground (arith, inside))
last-or-linked f s h (x ∷ []) (e, nz, l) inside = inl (ground (arith, inside))
last-or-linked f s h (x ∷ (y ∷ ys)) (e, nz, (e', nz', l)) inside = elim (Bool-cases (s == x)) [
  | inl same ↦
      let is_x : x ≡ s = ground (arith, same) in
      inr (subst (λ k. f k ≢ 0) is_x (omega (arith, e', nz')))
  | inr apart ↦
      let here = last-has f y y ys (refl, nz', l) in
      let some_last = Linked-nonzero f (last (y ∷ ys)) y (y ∷ ys) (refl, nz', l) here in
      let q : last (x ∷ (y ∷ ys)) ≡ last (y ∷ ys) = ground (arith, some_last) in
      elim (last-or-linked f s (f x) (y ∷ ys) (e', nz', l) (ground (arith, apart, inside))) [
        | inl e ↦ inl (e ∙ sym q)
        | inr n ↦ inr n
      ]
]
