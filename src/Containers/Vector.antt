-- ===== src/Containers/Vector.antt =====
-- src/rt/ulist.c: the List operations against the sequence of the elements in use.
use urbi_embedded.Shared.{
  ℕ, suc, ◌+◌, ◌-◌, ◌^◌, ◌≤◌, ◌<◌, ◌≡◌, ◌↔◌, ◌⊎◌, refl, sym, ap, ◌∙◌, subst, inl, inr, Bool, true,
  false, List, [], ◌∷◌, ◌++◌, none, some, arith, ltb, length, get_or, set, replicate, take, drop,
  length-set, length-append, length-replicate, length-take, get_or-take, get_or-append_left,
  get_or-ext, Option-cases, ℕ_discrete, dec_lt,
}
use urbi_embedded.Containers.{
  Cell, next_cap, grown, ulist_grow, ulist_room, ulist_push, shift_up, ulist_insert,
  ulist_remove_at,
}
use urbi_embedded.Containers.Capacity.{next_cap_bounds}
use urbi_embedded.Containers.Shift.{
  length-shift_up, length-shift_down, insert_list, take-set_last, remove_list,
}

module _ {A : Type 0} where
  -- The array has `cap` values, and the elements fit.
  abbrev pub IsCell : Cell A → Type 0
  IsCell l = (l.len ≤ l.cap) × (length l.items ≡ l.cap)

  abbrev pub elements : Cell A → List A
  elements l = take l.len l.items

module _ {A : Type 0} (z : A) where
  grow_parts :
      (served : Bool) (l r : Cell A)
      → l.len ≡ l.cap
      → ulist_room z served l ≡ some r
      → (r.cap ≡ next_cap l.cap)
        × (r.items ≡ l.items ++ replicate (next_cap l.cap - length l.items) z)
        × (r.len ≡ l.len)
  unfolding ulist_room ulist_grow grown
  grow_parts served l r full h = ground arith

  -- Room is made without moving or changing what is in use.
  ulist_room_lem :
      (served : Bool) (l r : Cell A)
      → IsCell l
      → l.cap < 2 ^ 31
      → ulist_room z served l ≡ some r
      → IsCell r
        × (r.len ≡ l.len)
        × (l.len < r.cap)
        × ((j : ℕ) → j < l.len → get_or r.items j z ≡ get_or l.items j z)
  ulist_room_lem served l r (fits, whole) small h = elim (ℕ_discrete l.len l.cap) [
    | yes full ↦
        let (cap_e, items_e, len_e) = grow_parts served l r full h in
        let more = next_cap_bounds l.cap small in
        let size : length r.items ≡ r.cap =
          ap length items_e
          ∙ length-append l.items (replicate (next_cap l.cap - length l.items) z)
          ∙ omega (arith, length-replicate (next_cap l.cap - length l.items) z) in
        (
          (omega arith, size),
          len_e,
          omega arith,
          λ j hj. ap (λ x. get_or x j z) items_e ∙ get_or-append_left l.items _ j z (omega arith),
        )
    | no some_left ↦
        let same : l ≡ r = unfold ulist_room in ground arith in
        subst
          (λ r.
            IsCell r
            × (r.len ≡ l.len)
            × (l.len < r.cap)
            × ((j : ℕ) → j < l.len → get_or r.items j z ≡ get_or l.items j z))
          same ((fits, whole), refl, omega arith, λ j hj. refl)
  ]

  get_or-elements : (l : Cell A) (j : ℕ) → j < l.len → get_or (elements l) j z ≡ get_or l.items j z
  get_or-elements l j h = get_or-take l.len l.items j z h

  length-elements : (l : Cell A) → IsCell l → length (elements l) ≡ l.len
  length-elements l (fits, whole) = omega (arith, length-take l.len l.items)

  insert_parts :
      (served : Bool) (l l' : Cell A) (at : ℕ) (v : A)
      → ulist_insert z served l at v ≡ some l'
      → (at ≤ l.len)
        × ((r : Cell A) × (ulist_room z served l ≡ some r)
            × (l' ≡ record r {
              items = set (shift_up z (r.len - at) at r.items) at v;
              len = r.len + 1;
            }))
  unfolding ulist_insert
  insert_parts served l l' at v h = elim (Option-cases (ulist_room z served l)) [
    | inl e ↦ absurd (ground arith)
    | inr (r, e) ↦ (ground arith, (r, e, ground arith))
  ]

  kept_elements :
      (l r : Cell A)
      → IsCell l
      → IsCell r
      → r.len ≡ l.len
      → ((j : ℕ) → j < l.len → get_or r.items j z ≡ get_or l.items j z)
      → elements r ≡ elements l
  kept_elements l r cell cell_r len_r kept =
      get_or-ext (elements r) (elements l) z
        (length-elements r cell_r ∙ len_r ∙ sym (length-elements l cell))
        (λ j hj.
          let inside : j < l.len = omega (arith, length-elements r cell_r) in
          get_or-elements r j (omega arith) ∙ kept j inside ∙ sym (get_or-elements l j inside))

  insert-inserts :
      (served : Bool) (l l' : Cell A) (at : ℕ) (v : A)
      → IsCell l
      → l.cap < 2 ^ 31
      → ulist_insert z served l at v ≡ some l'
      → IsCell l' × (elements l' ≡ take at (elements l) ++ v ∷ drop at (elements l))
  insert-inserts served l l' at v cell small h =
      let (inside, (r, room, made)) = insert_parts served l l' at v h in
      let (cell_r, len_r, space, kept) = ulist_room_lem served l r cell small room in
      let shifted = shift_up z (r.len - at) at r.items in
      let size : length (set shifted at v) ≡ r.cap =
        length-set shifted at v ∙ length-shift_up z (r.len - at) at r.items ∙ cell_r.1 in
      let same = kept_elements l r cell cell_r len_r kept in
      let list = insert_list z r.items r.len at v (omega arith) (omega arith) in
      subst (λ m. IsCell m × (elements m ≡ take at (elements l) ++ v ∷ drop at (elements l)))
        (sym made) ((omega arith, size), list ∙ ap (λ es. take at es ++ v ∷ drop at es) same)

  push_parts :
      (served : Bool) (l l' : Cell A) (v : A)
      → ulist_push z served l v ≡ some l'
      → (r : Cell A) × (ulist_room z served l ≡ some r)
        × (l' ≡ record r { items = set r.items r.len v; len = r.len + 1 })
  unfolding ulist_push
  push_parts served l l' v h = elim (Option-cases (ulist_room z served l)) [
    | inl e ↦ absurd (ground arith)
    | inr (r, e) ↦ (r, e, ground arith)
  ]

  push-appends :
      (served : Bool) (l l' : Cell A) (v : A)
      → IsCell l
      → l.cap < 2 ^ 31
      → ulist_push z served l v ≡ some l'
      → IsCell l' × (elements l' ≡ elements l ++ v ∷ [])
  push-appends served l l' v cell small h =
      let (r, room, made) = push_parts served l l' v h in
      let (cell_r, len_r, space, kept) = ulist_room_lem served l r cell small room in
      let size : length (set r.items r.len v) ≡ r.cap = length-set r.items r.len v ∙ cell_r.1 in
      let same = kept_elements l r cell cell_r len_r kept in
      let one_more : r.len + 1 ≡ suc r.len = omega arith in
      let last = take-set_last z r.items r.len v (omega arith) in
      subst (λ m. IsCell m × (elements m ≡ elements l ++ v ∷ [])) (sym made)
        (
          (omega arith, size),
          ap (λ n. take n (set r.items r.len v)) one_more ∙ last ∙ ap (λ es. es ++ v ∷ []) same,
        )

  push-none :
      (served : Bool) (l : Cell A) (v : A)
      → (ulist_push z served l v ≡ none) ↔ ((l.len ≡ l.cap) × (served ≡ false))
  unfolding ulist_push ulist_room ulist_grow
  push-none true l v = ground arith
  push-none false l v = ground arith

  insert-none :
      (served : Bool) (l : Cell A) (at : ℕ) (v : A)
      → (ulist_insert z served l at v ≡ none) ↔ (l.len < at ⊎ ((l.len ≡ l.cap) × (served ≡ false)))
  unfolding ulist_insert ulist_room ulist_grow
  insert-none true l at v = ground arith
  insert-none false l at v = ground arith

  -- On a well-formed list with room for twice its capacity in 32 bits, `ulist_push` fails exactly when
  -- the array is full and cannot grow; otherwise the list stays well formed and its elements are the
  -- old ones followed by the value.
  pub ulist_push_lem :
      (served : Bool) (l : Cell A) (v : A)
      → IsCell l
      → l.cap < 2 ^ 31
      → ((ulist_push z served l v ≡ none) ↔ ((l.len ≡ l.cap) × (served ≡ false)))
        × ((l' : Cell A)
            → ulist_push z served l v ≡ some l'
            → IsCell l' × (elements l' ≡ elements l ++ v ∷ []))
  ulist_push_lem served l v cell small =
      (push-none served l v, λ l'. push-appends served l l' v cell small)

  -- On such a list, `ulist_insert` fails exactly when the index is past the end or the array is full
  -- and cannot grow; otherwise the list stays well formed, the value stands at the index, what stood
  -- before it is where it was, and the rest has moved up by one.
  pub ulist_insert_lem :
      (served : Bool) (l : Cell A) (at : ℕ) (v : A)
      → IsCell l
      → l.cap < 2 ^ 31
      → ((ulist_insert z served l at v ≡ none)
          ↔ (l.len < at ⊎ ((l.len ≡ l.cap) × (served ≡ false))))
        × ((l' : Cell A)
            → ulist_insert z served l at v ≡ some l'
            → IsCell l' × (elements l' ≡ take at (elements l) ++ v ∷ drop at (elements l)))
  ulist_insert_lem served l at v cell small =
      (insert-none served l at v, λ l'. insert-inserts served l l' at v cell small)

  -- `ulist_remove_at` refuses an index past the last element and changes nothing then; otherwise it
  -- takes exactly that element out, and the ones behind it move down in their order.
  pub ulist_remove_at_lem :
      (l : Cell A) (at : ℕ)
      → IsCell l
      → let (l', removed) = ulist_remove_at z l at in
        IsCell l'
        × (removed ≡ ltb at l.len)
        × (removed ≡ false → l' ≡ l)
        × (removed ≡ true → elements l' ≡ take at (elements l) ++ drop (suc at) (elements l))
  unfolding ulist_remove_at
  ulist_remove_at_lem l at cell = elim (dec_lt at l.len) [
    | yes h ↦
        let list = remove_list z l.items l.len at h (omega arith) in
        let size = length-shift_down z (l.len - 1 - at) at l.items in ground arith
    | no past ↦ ground arith
  ]
