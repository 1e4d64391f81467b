-- ===== src/Containers/Removal.antt =====
-- src/rt/ulist.c: udict_remove, which moves the last entry into the hole.
use urbi_embedded.Shared.{
  ℕ, ◌-◌, ◌≤◌, ◌<◌, ◌≡◌, ◌≢◌, ◌↔◌, refl, sym, ap, ◌∙◌, subst, inl, inr, Bool, true, false, List,
  none, some, arith, ◌==◌, if◌then◌else◌, length, get_or, set, length-set, get_or-set_self,
  get_or-set_ne, Bool-cases, Option-cases, ℕ_discrete,
}
use urbi_embedded.Containers.{Dict, udict_find, udict_get, udict_remove}
use urbi_embedded.Containers.Room.{IsDict}
use urbi_embedded.Containers.Table.{
  Apart, IsUnique, get-found, get-missing, found-inside, found-equal,
}
use urbi_embedded.Containers.Search.{
  find_loop-some, find_loop-none, find_loop-absent, find_loop-only,
}

module _ {A : Type 0} (z : A) (eq : A → A → Bool) where
  -- The index in the old dictionary of the entry that stands at `j` of the new one.
  abbrev source : Dict A → ℕ → ℕ → ℕ
  source d m j = if j == m then d.len - 1 else j

  -- `r` is `d` without its entry `m`.
  record Without (d : Dict A) (m : ℕ) (r : Dict A) : Type 0 where
    dict : IsDict r
    shorter : r.len ≡ d.len - 1
    key_at : (j : ℕ) → j < r.len → get_or r.keys j z ≡ get_or d.keys (source d m j) z
    val_at : (j : ℕ) → j < r.len → get_or r.vals j z ≡ get_or d.vals (source d m j) z

  moved :
      (d : Dict A) (m j : ℕ) (l : List A)
      → m < d.len
      → d.len ≤ length l
      → get_or (set l m (get_or l (d.len - 1) z)) j z ≡ get_or l (source d m j) z
  moved d m j l inside room = elim (ℕ_discrete j m) [
    | yes at ↦
        let found = get_or-set_self l m (get_or l (d.len - 1) z) z (omega arith) in
        ground (arith, at, found)
    | no other ↦ ground (arith, get_or-set_ne l m j (get_or l (d.len - 1) z) z (λ e. other (sym e)))
  ]

  remove-Without :
      (d : Dict A) (k : A) (m : ℕ)
      → IsDict d
      → udict_find z eq d k ≡ some m
      → Without d m (udict_remove z eq d k).0 × ((udict_remove z eq d k).1 ≡ true)
  unfolding udict_remove
  remove-Without d k m (fits, keys, vals) e = elim (ℕ_discrete m (d.len - 1)) [
    | yes last ↦
        let made : udict_remove z eq d k ≡ (record d { len = d.len - 1 }, true) = ground arith in
        subst (λ r. Without d m r.0 × (r.1 ≡ true)) (sym made)
          (
            record {
              dict = (omega arith, keys, vals);
              shorter = refl;
              key_at = λ j h. ground arith;
              val_at = λ j h. ground arith;
            },
            refl,
          )
    | no before ↦
        let inside = found-inside z eq d k m e in
        let new_keys = set d.keys m (get_or d.keys (d.len - 1) z) in
        let new_vals = set d.vals m (get_or d.vals (d.len - 1) z) in
        let made : udict_remove z eq d k
            ≡ (record d { keys = new_keys; vals = new_vals; len = d.len - 1 }, true) =
          ground arith in
        subst (λ r. Without d m r.0 × (r.1 ≡ true)) (sym made)
          (
            record {
              dict = (
                omega arith,
                omega (arith, length-set d.keys m (get_or d.keys (d.len - 1) z)),
                omega (arith, length-set d.vals m (get_or d.vals (d.len - 1) z)),
              );
              shorter = refl;
              key_at = λ j h. moved d m j d.keys inside (omega arith);
              val_at = λ j h. moved d m j d.vals inside (omega arith);
            },
            refl,
          )
  ]

  source-injective :
      (d : Dict A) (m i j : ℕ) → i < d.len - 1 → source d m j ≡ source d m i → j < d.len - 1 → j ≡ i
  source-injective d m i j hi e hj = ground arith

  source-lt : (d : Dict A) (m j : ℕ) → j < d.len - 1 → (source d m j < d.len) × (source d m j ≢ m)
  source-lt d m j h = (ground arith, λ e. ground arith)

  -- Where the entry `n` of the old dictionary stands in the new one.
  abbrev place : Dict A → ℕ → ℕ → ℕ
  place d m n = if n == d.len - 1 then m else n

  source-place :
      (d : Dict A) (m n : ℕ)
      → m < d.len
      → n < d.len
      → n ≢ m
      → (place d m n < d.len - 1) × (source d m (place d m n) ≡ n)
  source-place d m n hm hn ne = (ground arith, ground arith)

  find-removed :
      (d r : Dict A) (k : A) (m : ℕ)
      → Without d m r
      → IsUnique z eq d k
      → m < d.len
      → eq (get_or d.keys m z) k ≡ true
      → udict_find z eq r k ≡ none
  unfolding udict_find
  find-removed d r k m w only inside e = find_loop-absent z eq r.len 0 r.keys k (λ j lo hi.
      elim (Bool-cases (eq (get_or r.keys j z) k)) [
        | inr ne ↦ ne
        | inl same ↦
            let (below, other) = source-lt d m j (omega (arith, w.shorter)) in
            let old = ap (λ s. eq s k) (sym (w.key_at j (omega arith))) ∙ same in
            absurd (other (only (source d m j) m below inside old e))
      ])

  find-kept :
      (d r : Dict A) (k : A) (m n : ℕ)
      → Without d m r
      → IsUnique z eq d k
      → m < d.len
      → n ≢ m
      → udict_find z eq d k ≡ some n
      → udict_find z eq r k ≡ some (place d m n)
  unfolding udict_find
  find-kept d r k m n w only inside ne e =
      let (lo, hi, found) = find_loop-some z eq d.len 0 d.keys k n e in
      let (room, back) = source-place d m n inside (omega arith) ne in
      find_loop-only z eq r.len 0 r.keys k (place d m n) (omega arith) (omega (arith, w.shorter))
        (ap (λ s. eq s k) (w.key_at (place d m n) (omega (arith, w.shorter)))
          ∙ ap (λ i. eq (get_or d.keys i z) k) back
          ∙ found)
        (λ j lo' before. elim (Bool-cases (eq (get_or r.keys j z) k)) [
          | inr other ↦ other
          | inl same ↦
              let (below, _) = source-lt d m j (omega arith) in
              let old = ap (λ s. eq s k) (sym (w.key_at j (omega (arith, w.shorter)))) ∙ same in
              let at = only (source d m j) n below (omega arith) old found in
              absurd (
                omega
                  (arith, source-injective d m (place d m n) j room (at ∙ sym back) (omega arith)))
        ])

  remove-missing :
      (d : Dict A) (k : A) → udict_find z eq d k ≡ none → udict_remove z eq d k ≡ (d, false)
  unfolding udict_remove
  remove-missing d k e = rw (e, udict_remove) refl

  get-absent :
      (d r : Dict A) (k : A) (m : ℕ)
      → Without d m r
      → m < d.len
      → udict_find z eq d k ≡ none
      → udict_find z eq r k ≡ none
  unfolding udict_find
  get-absent d r k m w inside e = find_loop-absent z eq r.len 0 r.keys k (λ j lo hi.
      let (below, _) = source-lt d m j (omega (arith, w.shorter)) in
      ap (λ s. eq s k) (w.key_at j (omega arith))
      ∙ find_loop-none z eq d.len 0 d.keys k (source d m j) e (omega arith) (omega arith))

  get-kept :
      (d r : Dict A) (k k' : A) (m : ℕ)
      → Without d m r
      → m < d.len
      → eq (get_or d.keys m z) k ≡ true
      → Apart z eq k k'
      → IsUnique z eq d k'
      → udict_get z eq r k' ≡ udict_get z eq d k'
  get-kept d r k k' m w inside e apart only = elim (Option-cases (udict_find z eq d k')) [
    | inl none_e ↦
        get-missing z eq r k' (get-absent d r k' m w inside none_e)
        ∙ sym (get-missing z eq d k' none_e)
    | inr (n, some_e) ↦
        let found = found-equal z eq d k' n some_e in
        let below = found-inside z eq d k' n some_e in
        let ne : n ≢ m = λ at.
          true-ne-false (sym (ap (λ i. eq (get_or d.keys i z) k') at) ∙ found)
            (apart (get_or d.keys m z) e) in
        let (room, back) = source-place d m n inside below ne in
        get-found z eq r k' (place d m n) (find-kept d r k' m n w only inside ne some_e)
        ∙ ap some
            (w.val_at (place d m n) (omega (arith, w.shorter)) ∙ ap (λ i. get_or d.vals i z) back)
        ∙ sym (get-found z eq d k' n some_e)
  ]
    where
      true-ne-false : {b : Bool} → b ≡ true → b ≢ false
      true-ne-false e h = cc

  abbrev Removes : Dict A → A → Dict A × Bool → Type 0
  Removes d k r =
      IsDict r.0
      × (udict_get z eq r.0 k ≡ none)
      × ((r.1 ≡ false) ↔ (udict_get z eq d k ≡ none))
      × ((k' : A)
          → Apart z eq k k'
          → IsUnique z eq d k'
          → udict_get z eq r.0 k' ≡ udict_get z eq d k')

  -- `udict_remove` on a well-formed dictionary and a key that at most one stored key equals: afterwards the key is found no more,
  -- the answer is false exactly when it was not found before, and the lookups of the keys apart from
  -- it, equal to one stored key at most, answer what they did, though the last entry has moved.
  pub udict_remove_lem :
      (d : Dict A) (k : A)
      → IsDict d
      → IsUnique z eq d k
      → let (d', removed) = udict_remove z eq d k in
        IsDict d'
        × (udict_get z eq d' k ≡ none)
        × ((removed ≡ false) ↔ (udict_get z eq d k ≡ none))
        × ((k' : A)
            → Apart z eq k k'
            → IsUnique z eq d k'
            → udict_get z eq d' k' ≡ udict_get z eq d k')
  udict_remove_lem d k dict only = elim (Option-cases (udict_find z eq d k)) [
    | inl e ↦
        let missing = get-missing z eq d k e in
        subst (Removes d k) (sym (remove-missing d k e))
          (dict, missing, (λ _. missing, λ _. refl), λ k' apart unique. refl)
    | inr (m, e) ↦
        let (w, done) = remove-Without d k m dict e in
        let r = (udict_remove z eq d k).0 in
        let inside = found-inside z eq d k m e in
        let same = found-equal z eq d k m e in
        (
          w.dict,
          get-missing z eq r k (find-removed d r k m w only inside same),
          (
            λ no. absurd (clash done no),
            λ none_e. absurd (some-none (sym (get-found z eq d k m e) ∙ none_e)),
          ),
          λ k' apart unique. get-kept d r k k' m w inside same apart unique,
        )
  ]
    where
      clash : {b : Bool} → b ≡ true → b ≢ false
      clash e h = cc

      some-none : {v : A} → some v ≢ none
      some-none h = cc
