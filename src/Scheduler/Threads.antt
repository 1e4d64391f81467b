-- ===== src/Scheduler/Threads.antt =====
-- The lists that src/rt/usched.c threads through the `link` of the strands: a store of links, the heads, and the sequences.
use urbi_embedded.Shared.{
  ℕ, ◌≡◌, ◌≢◌, refl, sym, ◌∙◌, subst, arith, Bool, true, false, ◌||◌, List, [], ◌∷◌, ◌==◌,
  if◌then◌else◌, Bool-cases, inl, inr,
}

-- One cell of a store is overwritten.
abbrev pub upd {ℓ} : {A : Type ℓ} → ℕ → A → (ℕ → A) → ℕ → A
upd s a f k = if k == s then a else f k

abbrev pub has : ℕ → List ℕ → Bool
has s [] = false
has s (x ∷ xs) = s == x || has s xs

abbrev pub Distinct : List ℕ → Type 0
Distinct [] = Unit
Distinct (x ∷ xs) = (has x xs ≡ false) × Distinct xs

abbrev pub last : List ℕ → ℕ
last [] = 0
last (x ∷ xs) = if last xs == 0 then x else last xs

abbrev pub erase : ℕ → List ℕ → List ℕ
erase s [] = []
erase s (x ∷ xs) = if s == x then xs else x ∷ erase s xs

-- What stands before `s`, or `prev`.
abbrev pub before : ℕ → ℕ → List ℕ → ℕ
before s prev [] = prev
before s prev (x ∷ xs) = if s == x then prev else before s x xs

-- From the head `h` on the links go through `xs` and end in NULL.
abbrev pub Linked : (ℕ → ℕ) → ℕ → List ℕ → Type 0
Linked f h [] = h ≡ 0
Linked f h (x ∷ xs) = (h ≡ x) × (x ≢ 0) × Linked f (f x) xs

pub Linked-frame :
    (f : ℕ → ℕ) (s v h : ℕ) (xs : List ℕ)
    → has s xs ≡ false
    → Linked f h xs
    → Linked (upd s v f) h xs
Linked-frame f s v h [] out l = l
Linked-frame f s v h (x ∷ xs) out (e, nz, l) = elim (Bool-cases (s == x)) [
  | inl same ↦ absurd (ground (arith, same, out))
  | inr apart ↦
      let there : upd s v f x ≡ f x = ground (arith, apart) in
      (
        e,
        nz,
        subst (λ m. Linked (upd s v f) m xs) (sym there)
            (Linked-frame f s v (f x) xs (ground (arith, apart, out)) l),
      )
]

pub clash : false ≡ true → ⊥
clash e = cc

pub has-apart : (x p : ℕ) (zs : List ℕ) → has x zs ≡ false → has p zs ≡ true → (x == p) ≡ false
has-apart x p zs out h = elim (Bool-cases (x == p)) [
  | inl same ↦
      let e : x ≡ p = ground (arith, same) in
      absurd (clash (sym (subst (λ k. has k zs ≡ false) e out) ∙ h))
  | inr apart ↦ apart
]

-- `s` comes out of the list behind `x` by the link of `q`, and `rest` is left.
abbrev pub Unlinks : (ℕ → ℕ) → (s x : ℕ) → List ℕ → (q : ℕ) → List ℕ → Type 0
Unlinks f s x xs q rest = (has q (x ∷ xs) ≡ true) × Linked (upd q (f s) f) x (x ∷ rest)

-- A strand that is not the first comes out of a list by the link of the one before it.
pub Linked-remove :
    (f : ℕ → ℕ) (s x : ℕ) (xs : List ℕ)
    → Linked f x (x ∷ xs)
    → Distinct (x ∷ xs)
    → has s xs ≡ true
    → Unlinks f s x xs (before s x xs) (erase s xs)
Linked-remove f s x [] l d h = absurd (ground (arith, h))
Linked-remove f s x (y ∷ ys) (e, nz, (e', nz', l)) (out, (out', d)) h = elim (Bool-cases (s == y)) [
  | inl same ↦
      let is_y : y ≡ s = ground (arith, same) in
      let q : before s x (y ∷ ys) ≡ x = ground (arith, same) in
      let r : erase s (y ∷ ys) ≡ ys = ground (arith, same) in
      let there : upd x (f s) f x ≡ f s = ground arith in
      let tail : Linked (upd x (f s) f) (f s) ys =
        Linked-frame f x (f s) (f s) ys (ground (arith, out))
          (subst (λ k. Linked f (f k) ys) is_y l) in
      subst (λ k. Unlinks f s x (y ∷ ys) k (erase s (y ∷ ys))) (sym q)
        (subst (λ zs. Unlinks f s x (y ∷ ys) x zs) (sym r)
          (ground arith, (refl, nz, subst (λ m. Linked (upd x (f s) f) m ys) (sym there) tail)))
  | inr apart ↦
      let p = before s y ys in
      let (inside, (e'', nz'', rest)) =
        Linked-remove f s y ys (refl, nz', l) (out', d) (ground (arith, apart, h)) in
      let q : before s x (y ∷ ys) ≡ p = ground (arith, apart) in
      let r : erase s (y ∷ ys) ≡ y ∷ erase s ys = ground (arith, apart) in
      let far : (x == p) ≡ false = has-apart x p (y ∷ ys) out inside in
      let there : upd p (f s) f x ≡ y = ground (arith, far, e') in
      let within : has p (x ∷ (y ∷ ys)) ≡ true = ground (arith, inside) in
      subst (λ k. Unlinks f s x (y ∷ ys) k (erase s (y ∷ ys))) (sym q)
        (subst (λ zs. Unlinks f s x (y ∷ ys) p zs) (sym r)
          (within, (refl, nz, (there, nz'', rest))))
]
