-- ===== src/Containers/Room.antt =====
-- src/rt/ulist.c: making room for one more entry, whether it succeeds or not.
use urbi_embedded.Shared.{
  ℕ, ◌-◌, ◌^◌, ◌≤◌, ◌<◌, ◌≡◌, refl, sym, subst, inl, inr, Bool, true, false, List, arith, ◌==◌,
  length, get_or, replicate, length-append, length-replicate, get_or-append_left, Bool-cases,
}
use urbi_embedded.Containers.{Dict, next_cap, grown, udict_grow, udict_room}
use urbi_embedded.Containers.Capacity.{next_cap_bounds}

-- The entries fit, and both arrays have at least `cap` values: a growth that fails half way leaves the
-- keys with more.
abbrev pub IsDict : {A : Type 0} → Dict A → Type 0
IsDict d = (d.len ≤ d.cap) × (d.cap ≤ length d.keys) × (d.cap ≤ length d.vals)

module _ {A : Type 0} (z : A) where
  length-grown : (l : List A) (cap : ℕ) → cap ≤ length (grown z l cap)
  unfolding grown
  length-grown l cap =
      omega
        (arith, length-append l (replicate (cap - length l) z), length-replicate (cap - length l) z)

  get_or-grown : (l : List A) (cap j : ℕ) → j < length l → get_or (grown z l cap) j z ≡ get_or l j z
  unfolding grown
  get_or-grown l cap j h = get_or-append_left l _ j z h

  length-grown_mono : (l : List A) (cap : ℕ) → length l ≤ length (grown z l cap)
  unfolding grown
  length-grown_mono l cap = omega (arith, length-append l (replicate (cap - length l) z))

  -- The same entries.
  pub record Keeps (d r : Dict A) : Type 0 where
    pub len_same : r.len ≡ d.len
    pub keys_same : (j : ℕ) → j < d.len → get_or r.keys j z ≡ get_or d.keys j z
    pub vals_same : (j : ℕ) → j < d.len → get_or r.vals j z ≡ get_or d.vals j z

  pub Keeps-refl : (d : Dict A) → Keeps d d
  Keeps-refl d = record { len_same = refl; keys_same = λ j h. refl; vals_same = λ j h. refl }

  udict_grow_lem :
      (ks vs : Bool) (d : Dict A)
      → IsDict d
      → d.cap < 2 ^ 31
      → IsDict (udict_grow z ks vs d).0
        × Keeps d (udict_grow z ks vs d).0
        × ((udict_grow z ks vs d).1 ≡ true → d.cap < (udict_grow z ks vs d).0.cap)
  unfolding udict_grow
  udict_grow_lem false vs d (fits, keys, vals) small = ((fits, keys, vals), Keeps-refl d, λ e. cc)
  udict_grow_lem true false d (fits, keys, vals) small = (
    (fits, omega (arith, length-grown_mono d.keys (next_cap d.cap)), vals),
    record {
      len_same = refl;
      keys_same = λ j h. get_or-grown d.keys (next_cap d.cap) j (omega arith);
      vals_same = λ j h. refl;
    },
    λ e. cc,
  )
  udict_grow_lem true true d (fits, keys, vals) small =
      let more = next_cap_bounds d.cap small in
      (
        (omega arith, length-grown d.keys (next_cap d.cap), length-grown d.vals (next_cap d.cap)),
        record {
          len_same = refl;
          keys_same = λ j h. get_or-grown d.keys (next_cap d.cap) j (omega arith);
          vals_same = λ j h. get_or-grown d.vals (next_cap d.cap) j (omega arith);
        },
        λ e. more,
      )

  abbrev pub Room : Dict A → Dict A × Bool → Type 0
  Room d r = IsDict r.0 × Keeps d r.0 × (r.1 ≡ true → d.len < r.0.cap)

  pub udict_room_lem :
      (ks vs : Bool) (d : Dict A) → IsDict d → d.cap < 2 ^ 31 → Room d (udict_room z ks vs d)
  udict_room_lem ks vs d dict small = elim (Bool-cases (d.len == d.cap)) [
    | inl full ↦
        let (grown_dict, keeps, more) = udict_grow_lem ks vs d dict small in
        let same : udict_room z ks vs d ≡ udict_grow z ks vs d =
          unfold udict_room in rw full refl in
        let at : d.len ≡ d.cap = ground arith in
        subst (Room d) (sym same) (grown_dict, keeps, λ e. omega (arith, more e))
    | inr some_left ↦
        let same : udict_room z ks vs d ≡ (d, true) = unfold udict_room in rw some_left refl in
        subst (Room d) (sym same) (dict, Keeps-refl d, λ e. ground arith)
  ]
