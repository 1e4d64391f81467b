-- ===== src/Containers.antt =====
-- src/rt/ulist.c: the List and Dict cells. A value is an element of any type, `zeroed` the value whose
-- bytes are zero, and each `served` says whether one request to the allocator is served. The cells'
-- headers, prototypes and tracing belong to the collector and are left out.
pub mod Capacity
pub mod Shift
pub mod Vector
pub mod Search
pub mod Room
pub mod Table
pub mod Removal
mod Runs
use urbi_embedded.Shared.{
  ℕ, zero, suc, ◌+◌, ◌-◌, ◌*◌, ◌%◌, ◌^◌, ◌<◌, Bool, true, false, not, ◌&&◌, List, [], ◌++◌, Option,
  none, some, leb, ltb, ◌==◌, if◌then◌else◌, length, get_or, set, replicate,
}

-- `items` is the array of `cap` values, of which the first `len` are in use.
pub record Cell {ℓ} (A : Type ℓ) : Type ℓ where
  pub items : List A
  pub len : ℕ
  pub cap : ℕ

pub record Dict {ℓ} (A : Type ℓ) : Type ℓ where
  pub keys : List A
  pub vals : List A
  pub len : ℕ
  pub cap : ℕ

-- `cap ? cap * 2 : 4` on a `uint32_t`.
unfoldable pub next_cap : ℕ → ℕ
next_cap cap = if cap == 0 then 4 else cap * 2 % 2 ^ 32

-- `while (cap < cap_hint) cap *= 2`, which ends at once where the hint is at most 4. Doubling a
-- number `left` times passes every hint below 4 * 2 ^ left.
unfoldable pub cap_loop : ℕ → ℕ → ℕ → ℕ
cap_loop zero cap hint = cap
cap_loop (suc left) cap hint =
    let rest = cap_loop left (cap * 2 % 2 ^ 32) hint in if ltb cap hint then rest else cap

module _ {ℓ} {A : Type ℓ} (zeroed : A) where
  -- `ugc_raw_realloc` zeroes what it adds.
  unfoldable pub grown : List A → ℕ → List A
  grown items cap = items ++ replicate (cap - length items) zeroed

  -- The cell and the array are two requests; without the array the list starts with no room.
  unfoldable pub ulist_new : Bool → Bool → ℕ → Option (Cell A)
  ulist_new cell_served array_served cap_hint =
      let cap = cap_loop 30 4 cap_hint in
      if not cell_served
      then none
      else if not array_served
      then some (record { items = []; len = 0; cap = 0 })
      else some (record { items = replicate cap zeroed; len = 0; cap = cap })

  unfoldable pub ulist_grow : Bool → Cell A → Option (Cell A)
  ulist_grow served l =
      let cap = next_cap l.cap in
      if served then some (record l { items = grown l.items cap; cap = cap }) else none

  -- The list made ready for one more element, or `none` for the return of -1.
  unfoldable pub ulist_room : Bool → Cell A → Option (Cell A)
  ulist_room served l = if l.len == l.cap then ulist_grow served l else some l

  unfoldable pub ulist_push : Bool → Cell A → A → Option (Cell A)
  ulist_push served l v = elim (ulist_room served l) [
    | none ↦ none
    | some r ↦ some (record r { items = set r.items r.len v; len = r.len + 1 })
  ]

  -- `for (i = len; i > at; i--) items[i] = items[i - 1]`, with `n` rounds to go.
  unfoldable pub shift_up : ℕ → ℕ → List A → List A
  shift_up zero at items = items
  shift_up (suc n) at items = shift_up n at (set items (at + n + 1) (get_or items (at + n) zeroed))

  unfoldable pub ulist_insert : Bool → Cell A → ℕ → A → Option (Cell A)
  ulist_insert served l at v = if ltb l.len at then none else elim (ulist_room served l) [
    | none ↦ none
    | some r ↦
        some (record r { items = set (shift_up (r.len - at) at r.items) at v; len = r.len + 1 })
  ]

  -- `for (i = at; i + 1 < len; i++) items[i] = items[i + 1]`, with `n` rounds to go.
  unfoldable pub shift_down : ℕ → ℕ → List A → List A
  shift_down zero i items = items
  shift_down (suc n) i items = shift_down n (i + 1) (set items i (get_or items (i + 1) zeroed))

  unfoldable pub ulist_remove_at : Cell A → ℕ → Cell A × Bool
  ulist_remove_at l at =
      if leb l.len at
      then (l, false)
      else (record l { items = shift_down (l.len - 1 - at) at l.items; len = l.len - 1 }, true)

  abbrev pub udict_new : Dict A
  udict_new = record { keys = []; vals = []; len = 0; cap = 0 }

  -- The two arrays are grown one after the other; `cap` is raised when both have been.
  unfoldable pub udict_grow : Bool → Bool → Dict A → Dict A × Bool
  udict_grow keys_served vals_served d =
      let cap = next_cap d.cap in
      let keyed = record d { keys = grown d.keys cap } in
      if not keys_served
      then (d, false)
      else if not vals_served
      then (keyed, false)
      else (record keyed { vals = grown d.vals cap; cap = cap }, true)

  -- The dictionary made ready for one more entry, and whether it is.
  unfoldable pub udict_room : Bool → Bool → Dict A → Dict A × Bool
  udict_room keys_served vals_served d =
      if d.len == d.cap then udict_grow keys_served vals_served d else (d, true)

  module _ (uv_equal : A → A → Bool) where
    -- The first index from `i` on whose key is equal, among `left` keys.
    unfoldable pub find_loop : ℕ → ℕ → List A → A → Option ℕ
    find_loop zero i keys k = none
    find_loop (suc left) i keys k =
        let rest = find_loop left (i + 1) keys k in
        if uv_equal (get_or keys i zeroed) k then some i else rest

    unfoldable pub udict_find : Dict A → A → Option ℕ
    udict_find d k = find_loop d.len 0 d.keys k

    abbrev pub append_entry : Dict A → A → A → Dict A
    append_entry d k v = record d {
      keys = set d.keys d.len k;
      vals = set d.vals d.len v;
      len = d.len + 1;
    }

    unfoldable pub udict_set : Bool → Bool → Dict A → A → A → Dict A × Bool
    udict_set keys_served vals_served d k v = elim (udict_find d k) [
      | some idx ↦ (record d { vals = set d.vals idx v }, true)
      | none ↦
          let room = udict_room keys_served vals_served d in
          if room.1 then (append_entry room.0 k v, true) else (room.0, false)
    ]

    unfoldable pub udict_get : Dict A → A → Option A
    udict_get d k = elim (udict_find d k) [
      | none ↦ none
      | some idx ↦ some (get_or d.vals idx zeroed)
    ]

    -- The last entry moves into the hole.
    unfoldable pub udict_remove : Dict A → A → Dict A × Bool
    udict_remove d k = elim (udict_find d k) [
      | none ↦ (d, false)
      | some idx ↦
          let last = d.len - 1 in
          (
            if idx == last then record d { len = last } else record d {
              keys = set d.keys idx (get_or d.keys last zeroed);
              vals = set d.vals idx (get_or d.vals last zeroed);
              len = last;
            },
            true,
          )
    ]
