-- ===== src/Containers/Table.antt =====
-- src/rt/ulist.c: the Dict operations as a finite map, for any equality test of keys.
use urbi_embedded.Shared.{
  ℕ, ◌+◌, ◌^◌, ◌<◌, ◌≡◌, ◌≢◌, refl, sym, ap, ◌∙◌, subst, inl, inr, Bool, true, false, none, some,
  arith, get_or, set, length-set, get_or-set_self, get_or-set_ne, Bool-cases, Option-cases, dec_lt,
}
use urbi_embedded.Containers.{
  Dict, udict_room, append_entry, find_loop, udict_find, udict_set, udict_get,
}
use urbi_embedded.Containers.Room.{IsDict, Keeps, udict_room_lem}
use urbi_embedded.Containers.Search.{
  find_loop-some, find_loop-none, find_loop-absent, find_loop-only, find_loop-first,
}

module _ {A : Type 0} (z : A) (eq : A → A → Bool) where
  -- No key is equal to both.
  abbrev pub Apart : A → A → Type 0
  Apart k k' = (s : A) → eq s k ≡ true → eq s k' ≡ false

  -- At most one stored key is equal.
  abbrev pub IsUnique : Dict A → A → Type 0
  IsUnique d k =
      (i j : ℕ)
      → i < d.len
      → j < d.len
      → eq (get_or d.keys i z) k ≡ true
      → eq (get_or d.keys j z) k ≡ true
      → i ≡ j

  find-set_other :
      (d r : Dict A) (k v k' : A)
      → IsDict r
      → Keeps z d r
      → d.len < r.cap
      → eq k k' ≡ false
      → udict_find z eq (append_entry z eq r k v) k' ≡ udict_find z eq d k'
  unfolding udict_find
  find-set_other d r k v k' (fits, keys, vals) same room other =
      elim (Option-cases (find_loop z eq d.len 0 d.keys k')) [
        | inr (m, e) ↦
            let (lo, hi, found) = find_loop-some z eq d.len 0 d.keys k' m e in
            find_loop-only z eq (r.len + 1) 0 (set r.keys r.len k) k' m (omega arith)
              (omega (arith, same.len_same)) (rw (kept m (omega arith)) found)
              (λ j lo' hi'.
                rw (kept j (omega arith)) (find_loop-first z eq d.len 0 d.keys k' m j e lo' hi'))
            ∙ sym e
        | inl e ↦
            find_loop-absent z eq (r.len + 1) 0 (set r.keys r.len k) k' (λ j lo hi.
              elim (dec_lt j d.len) [
                | yes inside ↦
                    rw (kept j inside) (find_loop-none z eq d.len 0 d.keys k' j e lo (omega arith))
                | no past ↦
                    let at : r.len ≡ j = omega (arith, same.len_same) in
                    rw (← at, get_or-set_self r.keys r.len k z (omega (arith, same.len_same))) other
              ])
            ∙ sym e
      ]
    where
      kept : (j : ℕ) → j < d.len → get_or (set r.keys r.len k) j z ≡ get_or d.keys j z
      kept j h =
          get_or-set_ne r.keys r.len j k z (λ e. omega (arith, same.len_same, e))
          ∙ same.keys_same j h

  find-set_self :
      (d r : Dict A) (k v : A)
      → IsDict r
      → Keeps z d r
      → d.len < r.cap
      → eq k k ≡ true
      → udict_find z eq d k ≡ none
      → udict_find z eq (append_entry z eq r k v) k ≡ some r.len
  unfolding udict_find
  find-set_self d r k v (fits, keys, vals) same room self missing =
      find_loop-only z eq (r.len + 1) 0 (set r.keys r.len k) k r.len (omega arith) (omega arith)
        (rw (get_or-set_self r.keys r.len k z (omega (arith, same.len_same))) self)
        (λ j lo hi.
          let inside : j < d.len = omega (arith, same.len_same) in
          rw (get_or-set_ne r.keys r.len j k z (λ e. omega (arith, e)), same.keys_same j inside)
            (find_loop-none z eq d.len 0 d.keys k j missing lo (omega arith)))

  pub get-found :
      (d : Dict A) (k : A) (m : ℕ)
      → udict_find z eq d k ≡ some m
      → udict_get z eq d k ≡ some (get_or d.vals m z)
  unfolding udict_get
  get-found d k m e = rw (e, udict_get) refl

  pub get-missing : (d : Dict A) (k : A) → udict_find z eq d k ≡ none → udict_get z eq d k ≡ none
  unfolding udict_get
  get-missing d k e = rw (e, udict_get) refl

  pub found-inside : (d : Dict A) (k : A) (m : ℕ) → udict_find z eq d k ≡ some m → m < d.len
  unfolding udict_find
  found-inside d k m e = omega (arith, (find_loop-some z eq d.len 0 d.keys k m e).1)

  pub found-equal :
      (d : Dict A) (k : A) (m : ℕ) → udict_find z eq d k ≡ some m → eq (get_or d.keys m z) k ≡ true
  unfolding udict_find
  found-equal d k m e = (find_loop-some z eq d.len 0 d.keys k m e).2

  -- What a write of `v` under `k` does to the lookups.
  abbrev Written : Dict A → A → A → Dict A → Type 0
  Written d k v d' =
      IsDict d'
      × (udict_get z eq d' k ≡ some v)
      × ((k' : A) → Apart k k' → udict_get z eq d' k' ≡ udict_get z eq d k')

  overwrite-Written :
      (d : Dict A) (k v : A) (m : ℕ)
      → IsDict d
      → udict_find z eq d k ≡ some m
      → Written d k v (record d { vals = set d.vals m v })
  overwrite-Written d k v m (fits, keys, vals) e =
      let inside = found-inside d k m e in
      let d' = record d { vals = set d.vals m v } in
      (
        (fits, keys, omega (arith, length-set d.vals m v)),
        get-found d' k m (e' k m e) ∙ ap some (get_or-set_self d.vals m v z (omega arith)),
        λ k' apart. elim (Option-cases (udict_find z eq d k')) [
          | inl none_e ↦ get-missing d' k' (e'' k' none_e) ∙ sym (get-missing d k' none_e)
          | inr (m', some_e) ↦
              get-found d' k' m' (e' k' m' some_e)
              ∙ ap some (get_or-set_ne d.vals m m' v z (differ m' k' apart some_e))
              ∙ sym (get-found d k' m' some_e)
        ],
      )
    where
      e' :
          (k' : A) (m' : ℕ)
          → udict_find z eq d k' ≡ some m'
          → udict_find z eq (record d { vals = set d.vals m v }) k' ≡ some m'
      e' k' m' h = unfold udict_find in h

      e'' :
          (k' : A)
          → udict_find z eq d k' ≡ none
          → udict_find z eq (record d { vals = set d.vals m v }) k' ≡ none
      e'' k' h = unfold udict_find in h

      differ : (m' : ℕ) (k' : A) → Apart k k' → udict_find z eq d k' ≡ some m' → m ≢ m'
      differ m' k' apart h same =
          let one = apart (get_or d.keys m z) (found-equal d k m e) in
          let two = found-equal d k' m' h in
          let three : eq (get_or d.keys m z) k' ≡ true = rw same two in
          true-ne-false (sym three ∙ one)
        where
          true-ne-false : true ≢ false
          true-ne-false h = cc

  append-Written :
      (d r : Dict A) (k v : A)
      → IsDict d
      → IsDict r
      → Keeps z d r
      → d.len < r.cap
      → eq k k ≡ true
      → udict_find z eq d k ≡ none
      → Written d k v (append_entry z eq r k v)
  append-Written d r k v dict (fits, keys, vals) same room self missing =
      let d' = append_entry z eq r k v in
      (
        (
          omega (arith, same.len_same),
          omega (arith, length-set r.keys r.len k),
          omega (arith, length-set r.vals r.len v),
        ),
        get-found d' k r.len (find-set_self d r k v (fits, keys, vals) same room self missing)
            ∙ ap some (get_or-set_self r.vals r.len v z (omega (arith, same.len_same))),
        λ k' apart.
            let find_same = find-set_other d r k v k' (fits, keys, vals) same room (apart k self) in
            elim (Option-cases (udict_find z eq d k')) [
              | inl none_e ↦ get-missing d' k' (find_same ∙ none_e) ∙ sym (get-missing d k' none_e)
              | inr (m, e) ↦
                  get-found d' k' m (find_same ∙ e)
                  ∙ ap some (
                      get_or-set_ne r.vals r.len m v z
                        (λ at. omega (arith, same.len_same, at, found-inside d k' m e))
                      ∙ same.vals_same m (found-inside d k' m e))
                  ∙ sym (get-found d k' m e)
            ],
      )

  find-Keeps : (d r : Dict A) (k : A) → Keeps z d r → udict_find z eq r k ≡ udict_find z eq d k
  unfolding udict_find
  find-Keeps d r k same = elim (Option-cases (find_loop z eq d.len 0 d.keys k)) [
    | inr (m, e) ↦
        let (lo, hi, found) = find_loop-some z eq d.len 0 d.keys k m e in
        find_loop-only z eq r.len 0 r.keys k m (omega arith) (omega (arith, same.len_same))
          (rw (same.keys_same m (omega arith)) found)
          (λ j lo' hi'.
            rw (same.keys_same j (omega arith))
              (find_loop-first z eq d.len 0 d.keys k m j e lo' hi'))
        ∙ sym e
    | inl e ↦
        find_loop-absent z eq r.len 0 r.keys k (λ j lo hi.
          let inside : j < d.len = omega (arith, same.len_same) in
          rw (same.keys_same j inside) (find_loop-none z eq d.len 0 d.keys k j e lo (omega arith)))
        ∙ sym e
  ]

  get-Keeps : (d r : Dict A) (k : A) → Keeps z d r → udict_get z eq r k ≡ udict_get z eq d k
  get-Keeps d r k same = elim (Option-cases (udict_find z eq d k)) [
    | inl e ↦ get-missing r k (find-Keeps d r k same ∙ e) ∙ sym (get-missing d k e)
    | inr (m, e) ↦
        get-found r k m (find-Keeps d r k same ∙ e)
        ∙ ap some (same.vals_same m (found-inside d k m e))
        ∙ sym (get-found d k m e)
  ]

  abbrev Answers : Dict A → A → A → Dict A × Bool → Type 0
  Answers d k v r =
      IsDict r.0
      × (r.1 ≡ true → udict_get z eq r.0 k ≡ some v)
      × (r.1 ≡ true → (k' : A) → Apart k k' → udict_get z eq r.0 k' ≡ udict_get z eq d k')
      × (r.1 ≡ false → (k' : A) → udict_get z eq r.0 k' ≡ udict_get z eq d k')

  Written-Answers :
      (d : Dict A) (k v : A) (d' : Dict A) → Written d k v d' → Answers d k v (d', true)
  Written-Answers d k v d' (dict, self, others) = (dict, (λ e. self), (λ e. others), λ e. cc)

  set-overwrites :
      (ks vs : Bool) (d : Dict A) (k v : A) (m : ℕ)
      → udict_find z eq d k ≡ some m
      → udict_set z eq ks vs d k v ≡ (record d { vals = set d.vals m v }, true)
  unfolding udict_set
  set-overwrites ks vs d k v m e = rw (e, udict_set) refl

  set-appends :
      (ks vs : Bool) (d : Dict A) (k v : A)
      → udict_find z eq d k ≡ none
      → (udict_room z ks vs d).1 ≡ true
      → udict_set z eq ks vs d k v ≡ (append_entry z eq (udict_room z ks vs d).0 k v, true)
  unfolding udict_set
  set-appends ks vs d k v e ready = rw (e, ready, udict_set) refl

  set-fails :
      (ks vs : Bool) (d : Dict A) (k v : A)
      → udict_find z eq d k ≡ none
      → (udict_room z ks vs d).1 ≡ false
      → udict_set z eq ks vs d k v ≡ ((udict_room z ks vs d).0, false)
  unfolding udict_set
  set-fails ks vs d k v e full = rw (e, full, udict_set) refl

  -- `udict_set` on a well-formed dictionary with room for twice its capacity in 32 bits and a key that
  -- is equal to itself: when it succeeds a lookup of the key answers the
  -- value, and a lookup of any key apart from it answers what it did; when it fails, for want of
  -- memory, every lookup answers what it did. Either way the dictionary stays well formed.
  pub udict_set_lem :
      (ks vs : Bool) (d : Dict A) (k v : A)
      → IsDict d
      → d.cap < 2 ^ 31
      → eq k k ≡ true
      → let (d', done) = udict_set z eq ks vs d k v in
        IsDict d'
        × (done ≡ true → udict_get z eq d' k ≡ some v)
        × (done ≡ true → (k' : A) → Apart k k' → udict_get z eq d' k' ≡ udict_get z eq d k')
        × (done ≡ false → (k' : A) → udict_get z eq d' k' ≡ udict_get z eq d k')
  udict_set_lem ks vs d k v dict small self =
      let (room_dict, same, space) = udict_room_lem z ks vs d dict small in
      let r = udict_room z ks vs d in
      elim (Option-cases (udict_find z eq d k)) [
        | inr (m, e) ↦
            subst (Answers d k v) (sym (set-overwrites ks vs d k v m e))
              (Written-Answers d k v _ (overwrite-Written d k v m dict e))
        | inl e ↦ elim (Bool-cases r.1) [
          | inl ready ↦ subst (Answers d k v) (sym (set-appends ks vs d k v e ready)) (
              Written-Answers d k v _
                (append-Written d r.0 k v dict room_dict same (omega (arith, space ready)) self e))
          | inr full ↦
              subst (Answers d k v) (sym (set-fails ks vs d k v e full))
                (room_dict, (λ e'. cc), (λ e'. cc), λ e' k'. get-Keeps d r.0 k' same)
        ]
      ]
