-- ===== src/Containers/Search.antt =====
-- src/rt/ulist.c: what udict_find finds.
use urbi_embedded.Shared.{
  ℕ, zero, suc, ◌+◌, ◌≤◌, ◌<◌, ◌≡◌, refl, sym, ap, ◌∙◌, inl, inr, Bool, true, false, List, none,
  some, arith, get_or, Bool-cases, ℕ_discrete,
}
use urbi_embedded.Containers.{find_loop}

module _ {A : Type 0} (z : A) (eq : A → A → Bool) where
  -- The index found is in range, its key is equal, and none before it is.
  pub find_loop-some :
      (left i : ℕ) (keys : List A) (k : A) (idx : ℕ)
      → find_loop z eq left i keys k ≡ some idx
      → (i ≤ idx) × (idx < i + left) × (eq (get_or keys idx z) k ≡ true)
  unfolding find_loop
  find_loop-some zero i keys k idx h = cc
  find_loop-some (suc left) i keys k idx h = elim (Bool-cases (eq (get_or keys i z) k)) [
    | inl e ↦
        let at : i ≡ idx = ground arith in
        (omega arith, omega arith, ap (λ j. eq (get_or keys j z) k) (sym at) ∙ e)
    | inr ne ↦
        let (lo, hi, found) = find_loop-some left (i + 1) keys k idx (ground arith) in
        (omega arith, omega arith, found)
  ]

  pub find_loop-none :
      (left i : ℕ) (keys : List A) (k : A) (j : ℕ)
      → find_loop z eq left i keys k ≡ none
      → i ≤ j
      → j < i + left
      → eq (get_or keys j z) k ≡ false
  unfolding find_loop
  find_loop-none zero i keys k j h lo hi = absurd (omega arith)
  find_loop-none (suc left) i keys k j h lo hi = elim (Bool-cases (eq (get_or keys i z) k)) [
    | inl e ↦ absurd (ground arith)
    | inr ne ↦ elim (ℕ_discrete i j) [
      | yes at ↦ ap (λ m. eq (get_or keys m z) k) (sym at) ∙ ne
      | no other ↦ find_loop-none left (i + 1) keys k j (ground arith) (omega arith) (omega arith)
    ]
  ]

  pub find_loop-absent :
      (left i : ℕ) (keys : List A) (k : A)
      → ((j : ℕ) → i ≤ j → j < i + left → eq (get_or keys j z) k ≡ false)
      → find_loop z eq left i keys k ≡ none
  unfolding find_loop
  find_loop-absent zero i keys k h = refl
  find_loop-absent (suc left) i keys k h =
      let ne = h i (omega arith) (omega arith) in
      let rest =
        find_loop-absent left (i + 1) keys k (λ j lo hi. h j (omega arith) (omega arith)) in
      ground (arith, ne, rest)

  -- The only equal key is the one found.
  pub find_loop-only :
      (left i : ℕ) (keys : List A) (k : A) (m : ℕ)
      → i ≤ m
      → m < i + left
      → eq (get_or keys m z) k ≡ true
      → ((j : ℕ) → i ≤ j → j < m → eq (get_or keys j z) k ≡ false)
      → find_loop z eq left i keys k ≡ some m
  unfolding find_loop
  find_loop-only zero i keys k m lo hi e h = absurd (omega arith)
  find_loop-only (suc left) i keys k m lo hi e h = elim (ℕ_discrete i m) [
    | yes at ↦
        let e' : eq (get_or keys i z) k ≡ true = ap (λ m. eq (get_or keys m z) k) at ∙ e in
        ground arith
    | no other ↦
        let ne = h i (omega arith) (omega arith) in
        let rest =
          find_loop-only left (i + 1) keys k m (omega arith) (omega arith) e
            (λ j lo hi. h j (omega arith) hi) in
        ground (arith, ne, rest)
  ]

  -- The keys before the one found are not equal.
  pub find_loop-first :
      (left i : ℕ) (keys : List A) (k : A) (idx j : ℕ)
      → find_loop z eq left i keys k ≡ some idx
      → i ≤ j
      → j < idx
      → eq (get_or keys j z) k ≡ false
  unfolding find_loop
  find_loop-first zero i keys k idx j h lo hi = cc
  find_loop-first (suc left) i keys k idx j h lo hi = elim (Bool-cases (eq (get_or keys i z) k)) [
    | inl e ↦ let at : i ≡ idx = ground arith in absurd (omega arith)
    | inr ne ↦ elim (ℕ_discrete i j) [
      | yes at ↦ ap (λ m. eq (get_or keys m z) k) (sym at) ∙ ne
      | no other ↦ find_loop-first left (i + 1) keys k idx j (ground arith) (omega arith) hi
    ]
  ]
