-- ===== src/Containers/Shift.antt =====
-- src/rt/ulist.c: the shifting loops of insertion and removal on the array.
use urbi_embedded.Shared.{
  ℕ, zero, suc, ◌+◌, ◌-◌, ◌≤◌, ◌<◌, ◌≡◌, refl, sym, ap, ◌∙◌, subst, ◌&&◌, List, [], ◌∷◌, ◌++◌,
  arith, leb, ltb, ◌==◌, if◌then◌else◌, length, get_or, set, take, drop, length-set, length-append,
  length-take, length-drop, get_or-set_self, get_or-set_ne, get_or-take, get_or-ext, ℕ_discrete,
}
use urbi_embedded.Containers.{shift_up, shift_down}

module _ {A : Type 0} (z : A) where
  pub length-shift_up : (n at : ℕ) (l : List A) → length (shift_up z n at l) ≡ length l
  unfolding shift_up
  length-shift_up zero at l = refl
  length-shift_up (suc n) at l = length-shift_up n at _ ∙ length-set l _ _

  get_or-shift_up :
      (n at : ℕ) (l : List A) (j : ℕ)
      → at + n < length l
      → get_or (shift_up z n at l) j z
        ≡ (if ltb at j && leb j (at + n) then get_or l (j - 1) z else get_or l j z)
  unfolding shift_up
  get_or-shift_up zero at l j h = ground arith
  get_or-shift_up (suc n) at l j h =
      get_or-shift_up n at (set l (at + n + 1) (get_or l (at + n) z)) j
        (omega (arith, length-set l (at + n + 1) (get_or l (at + n) z)))
      ∙ elim (ℕ_discrete j (at + n + 1)) [
        | yes e ↦
            let found = get_or-set_self l (at + n + 1) (get_or l (at + n) z) z (omega arith) in
            ground (arith, found, e)
        | no ne ↦ ground (
          arith,
          get_or-set_ne l (at + n + 1) j (get_or l (at + n) z) z (λ e. ne (sym e)),
          get_or-set_ne l (at + n + 1) (j - 1) (get_or l (at + n) z) z,
        )
      ]

  pub length-shift_down : (n i : ℕ) (l : List A) → length (shift_down z n i l) ≡ length l
  unfolding shift_down
  length-shift_down zero i l = refl
  length-shift_down (suc n) i l = length-shift_down n (i + 1) _ ∙ length-set l _ _

  get_or-shift_down :
      (n i : ℕ) (l : List A) (j : ℕ)
      → i + n < length l
      → get_or (shift_down z n i l) j z
        ≡ (if leb i j && ltb j (i + n) then get_or l (j + 1) z else get_or l j z)
  unfolding shift_down
  get_or-shift_down zero i l j h = ground arith
  get_or-shift_down (suc n) i l j h =
      get_or-shift_down n (i + 1) (set l i (get_or l (i + 1) z)) j
        (omega (arith, length-set l i (get_or l (i + 1) z)))
      ∙ elim (ℕ_discrete j i) [
        | yes e ↦
            let found = get_or-set_self l i (get_or l (i + 1) z) z (omega arith) in
            ground (arith, found, e)
        | no ne ↦ ground (
          arith,
          get_or-set_ne l i j (get_or l (i + 1) z) z (λ e. ne (sym e)),
          get_or-set_ne l i (j + 1) (get_or l (i + 1) z) z,
        )
      ]

  get_or-inserted :
      (ys : List A) (at : ℕ) (v : A) (i : ℕ)
      → at ≤ length ys
      → get_or (take at ys ++ v ∷ drop at ys) i z
        ≡ (if ltb i at then get_or ys i z else if i == at then v else get_or ys (i - 1) z)
  get_or-inserted ys zero v zero h = refl
  get_or-inserted ys zero v (suc i) h = ground arith
  get_or-inserted [] (suc at) v i h = absurd (omega arith)
  get_or-inserted (y ∷ ys) (suc at) v zero h = ground arith
  get_or-inserted (y ∷ ys) (suc at) v (suc zero) h =
      get_or-inserted ys at v zero (omega arith) ∙ ground arith
  get_or-inserted (y ∷ ys) (suc at) v (suc (suc i)) h =
      get_or-inserted ys at v (suc i) (omega arith) ∙ ground arith

  length-inserted :
      (ys : List A) (at : ℕ) (v : A)
      → at ≤ length ys
      → length (take at ys ++ v ∷ drop at ys) ≡ length ys + 1
  length-inserted ys at v h =
      length-append (take at ys) (v ∷ drop at ys)
      ∙ omega (arith, length-take at ys, length-drop at ys)

  get_or-set-shift_up :
      (xs : List A) (n at : ℕ) (v : A) (i : ℕ)
      → at ≤ n
      → n < length xs
      → i ≤ n
      → get_or (set (shift_up z (n - at) at xs) at v) i z
        ≡ (if ltb i at then get_or xs i z else if i == at then v else get_or xs (i - 1) z)
  get_or-set-shift_up xs n at v i h room hi = elim (ℕ_discrete at i) [
    | yes e ↦
        let found =
          get_or-set_self (shift_up z (n - at) at xs) i v z
            (omega (arith, length-shift_up (n - at) at xs)) in
        subst
          (λ a.
            get_or (set (shift_up z (n - at) at xs) a v) i z
            ≡ (if ltb i at then get_or xs i z else if i == at then v else get_or xs (i - 1) z))
          (sym e) (found ∙ ground arith)
    | no ne ↦
        get_or-set_ne (shift_up z (n - at) at xs) at i v z ne
        ∙ get_or-shift_up (n - at) at xs i (omega arith)
        ∙ ground arith
  ]

  pub insert_list :
      (xs : List A) (n at : ℕ) (v : A)
      → at ≤ n
      → n < length xs
      → take (n + 1) (set (shift_up z (n - at) at xs) at v)
        ≡ take at (take n xs) ++ v ∷ drop at (take n xs)
  insert_list xs n at v h room =
      let size : length (take n xs) ≡ n = omega (arith, length-take n xs) in
      let moved = set (shift_up z (n - at) at xs) at v in
      let left : length (take (n + 1) moved) ≡ n + 1 = omega (
        arith,
        length-take (n + 1) moved,
        length-set (shift_up z (n - at) at xs) at v,
        length-shift_up (n - at) at xs,
      ) in
      get_or-ext (take (n + 1) moved) (take at (take n xs) ++ v ∷ drop at (take n xs)) z
        (left ∙ sym (length-inserted (take n xs) at v (omega arith) ∙ ap (λ m. m + 1) size))
        (λ i hi.
          get_or-take (n + 1) moved i z (omega arith)
          ∙ get_or-set-shift_up xs n at v i h room (omega arith)
          ∙ places xs n at v i (omega arith)
          ∙ sym (get_or-inserted (take n xs) at v i (omega arith)))
    where
      places :
          (xs : List A) (n at : ℕ) (v : A) (i : ℕ)
          → at ≤ n × (i ≤ n)
          → (if ltb i at then get_or xs i z else if i == at then v else get_or xs (i - 1) z) ≡ (
              if ltb i at
              then get_or (take n xs) i z
              else if i == at
              then v
              else get_or (take n xs) (i - 1) z)
      places xs n at v i h = ground (arith, get_or-take n xs i z, get_or-take n xs (i - 1) z)

  pub take-set_last :
      (xs : List A) (n : ℕ) (v : A)
      → n < length xs
      → take (suc n) (set xs n v) ≡ take n xs ++ v ∷ []
  take-set_last [] n v h = absurd (omega arith)
  take-set_last (x ∷ xs) zero v h = refl
  take-set_last (x ∷ xs) (suc n) v h = ap (◌∷◌ x) (take-set_last xs n v (omega arith))

  get_or-removed :
      (ys : List A) (at i : ℕ)
      → at < length ys
      → get_or (take at ys ++ drop (suc at) ys) i z
        ≡ (if ltb i at then get_or ys i z else get_or ys (suc i) z)
  get_or-removed [] at i h = absurd (omega arith)
  get_or-removed (y ∷ ys) zero i h = ground arith
  get_or-removed (y ∷ ys) (suc at) zero h = ground arith
  get_or-removed (y ∷ ys) (suc at) (suc i) h = get_or-removed ys at i (omega arith) ∙ ground arith

  pub remove_list :
      (xs : List A) (n at : ℕ)
      → at < n
      → n ≤ length xs
      → take (n - 1) (shift_down z (n - 1 - at) at xs)
        ≡ take at (take n xs) ++ drop (suc at) (take n xs)
  remove_list xs n at h room =
      let moved = shift_down z (n - 1 - at) at xs in
      let left : length (take (n - 1) moved) ≡ n - 1 =
        omega (arith, length-take (n - 1) moved, length-shift_down (n - 1 - at) at xs) in
      let right : length (take at (take n xs) ++ drop (suc at) (take n xs)) ≡ n - 1 = omega (
        arith,
        length-append (take at (take n xs)) (drop (suc at) (take n xs)),
        length-take at (take n xs),
        length-drop (suc at) (take n xs),
        length-take n xs,
      ) in
      get_or-ext (take (n - 1) moved) (take at (take n xs) ++ drop (suc at) (take n xs)) z
        (left ∙ sym right)
        (λ i hi.
          get_or-take (n - 1) moved i z (omega arith)
          ∙ get_or-shift_down (n - 1 - at) at xs i (omega arith)
          ∙ places xs n at i (omega arith)
          ∙ sym (get_or-removed (take n xs) at i (omega (arith, length-take n xs))))
    where
      places :
          (xs : List A) (n at i : ℕ)
          → at < n × (i < n - 1)
          → (if leb at i && ltb i (at + (n - 1 - at)) then get_or xs (i + 1) z else get_or xs i z)
            ≡ (if ltb i at then get_or (take n xs) i z else get_or (take n xs) (suc i) z)
      places xs n at i h = ground (arith, get_or-take n xs i z, get_or-take n xs (suc i) z)
