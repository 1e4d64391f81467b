-- ===== src/Containers/Runs.antt =====
-- src/rt/ulist.c: runs on small lists and dictionaries of numbers, and the theorems at them.
use urbi_embedded.Shared.{
  ℕ, zero, suc, ◌*◌, ◌≤◌, ◌<◌, ◌≡◌, ◌↔◌, ◌⊎◌, refl, arith, Bool, true, false, [], ◌∷◌, ◌++◌, none,
  some, ◌==◌, take, drop, replicate,
}
use urbi_embedded.Containers.{
  Cell, Dict, next_cap, cap_loop, grown, ulist_new, ulist_grow, ulist_room, ulist_push, shift_up,
  ulist_insert, shift_down, ulist_remove_at, udict_new, udict_grow, udict_room, find_loop,
  udict_find, udict_set, udict_get, udict_remove,
}
use urbi_embedded.Containers.Capacity.{ulist_new_cap}
use urbi_embedded.Containers.Vector.{
  IsCell, elements, ulist_push_lem, ulist_insert_lem, ulist_remove_at_lem,
}
use urbi_embedded.Containers.Room.{IsDict}
use urbi_embedded.Containers.Table.{Apart, IsUnique, udict_set_lem}
use urbi_embedded.Containers.Removal.{udict_remove_lem}

abbrev full : Cell ℕ
full = record { items = 5 ∷ 6 ∷ 7 ∷ 8 ∷ []; len = 4; cap = 4 }

abbrev same : ℕ → ℕ → Bool
same a b = a == b

abbrev pair : Dict ℕ
pair = record { keys = 1 ∷ 2 ∷ 0 ∷ 0 ∷ []; vals = 10 ∷ 20 ∷ 0 ∷ 0 ∷ []; len = 2; cap = 4 }

abbrev inserted : Cell ℕ
inserted = record { items = 5 ∷ 9 ∷ 6 ∷ 7 ∷ 8 ∷ 0 ∷ 0 ∷ 0 ∷ []; len = 5; cap = 8 }

abbrev pushed : Cell ℕ
pushed = record { items = 5 ∷ 6 ∷ 7 ∷ 8 ∷ 9 ∷ 0 ∷ 0 ∷ 0 ∷ []; len = 5; cap = 8 }

insert_grows : ulist_insert 0 true full 1 9 ≡ some inserted
unfolding ulist_insert ulist_room ulist_grow next_cap grown shift_up
insert_grows = refl

push_grows : ulist_push 0 true full 9 ≡ some pushed
unfolding ulist_push ulist_room ulist_grow next_cap grown
push_grows = refl

remove_first : (ulist_remove_at 0 full 0).0.items ≡ 6 ∷ 7 ∷ 8 ∷ 8 ∷ []
unfolding ulist_remove_at shift_down
remove_first = refl

overwrite_second : (udict_set 0 same true true pair 2 21).0.vals ≡ 10 ∷ 21 ∷ 0 ∷ 0 ∷ []
unfolding udict_set udict_find find_loop
overwrite_second = refl

-- A cell with no array yet cannot grow where the keys are served and the values are not.
half_grown : (udict_set 0 same true false (udict_new 0) 1 10).1 ≡ false
unfolding udict_set udict_find find_loop udict_room udict_grow
half_grown = refl

new_for_nine :
    ulist_new {A = ℕ} 0 true true 9
    ≡ some (record {
      items = 0 ∷ 0 ∷ 0 ∷ 0 ∷ 0 ∷ 0 ∷ 0 ∷ 0 ∷ 0 ∷ 0 ∷ 0 ∷ 0 ∷ 0 ∷ 0 ∷ 0 ∷ 0 ∷ [];
      len = 0;
      cap = 16;
    })
unfolding ulist_new cap_loop
new_for_nine = refl

ulist_new_cap_example :
    (cap : ℕ) × (9 ≤ cap)
    × (4 ≤ cap)
    × ((cap ≡ 4) ⊎ (cap < 2 * 9))
    × (ulist_new {A = ℕ} 0 true true 9
        ≡ some (record { items = replicate cap 0; len = 0; cap = cap }))
ulist_new_cap_example = ulist_new_cap 0 true true 9 (omega arith)

ulist_insert_lem_example :
    ((ulist_insert 0 true full 1 9 ≡ none)
      ↔ (full.len < 1 ⊎ ((full.len ≡ full.cap) × (true ≡ false))))
    × ((l' : Cell ℕ)
        → ulist_insert 0 true full 1 9 ≡ some l'
        → IsCell l' × (elements l' ≡ take 1 (elements full) ++ 9 ∷ drop 1 (elements full)))
ulist_insert_lem_example = ulist_insert_lem 0 true full 1 9 (omega arith, refl) (omega arith)

ulist_push_lem_example :
    ((ulist_push 0 false full 9 ≡ none) ↔ ((full.len ≡ full.cap) × (false ≡ false)))
    × ((l' : Cell ℕ)
        → ulist_push 0 false full 9 ≡ some l'
        → IsCell l' × (elements l' ≡ elements full ++ 9 ∷ []))
ulist_push_lem_example = ulist_push_lem 0 false full 9 (omega arith, refl) (omega arith)

ulist_remove_at_lem_example :
    let (l', removed) = ulist_remove_at 0 full 2 in
    IsCell l'
    × (removed ≡ true)
    × (removed ≡ false → l' ≡ full)
    × (removed ≡ true → elements l' ≡ take 2 (elements full) ++ drop 3 (elements full))
ulist_remove_at_lem_example = ulist_remove_at_lem 0 full 2 (omega arith, refl)

udict_set_lem_example :
    let (d', done) = udict_set 0 same true true pair 3 30 in
    IsDict d'
    × (done ≡ true → udict_get 0 same d' 3 ≡ some 30)
    × (done ≡ true
        → (k' : ℕ) → Apart 0 same 3 k'
        → udict_get 0 same d' k' ≡ udict_get 0 same pair k')
    × (done ≡ false → (k' : ℕ) → udict_get 0 same d' k' ≡ udict_get 0 same pair k')
udict_set_lem_example =
    udict_set_lem 0 same true true pair 3 30 (omega arith, omega arith, omega arith) (omega arith)
      refl

pair-IsUnique : (k : ℕ) → IsUnique 0 same pair k
pair-IsUnique k zero zero hi hj e e' = refl
pair-IsUnique k zero (suc zero) hi hj e e' = absurd (ground arith)
pair-IsUnique k (suc zero) zero hi hj e e' = absurd (ground arith)
pair-IsUnique k (suc zero) (suc zero) hi hj e e' = refl
pair-IsUnique k i (suc (suc j)) hi hj e e' = absurd (omega arith)
pair-IsUnique k (suc (suc i)) j hi hj e e' = absurd (omega arith)

udict_remove_lem_example :
    let (d', removed) = udict_remove 0 same pair 1 in
    IsDict d'
    × (udict_get 0 same d' 1 ≡ none)
    × ((removed ≡ false) ↔ (udict_get 0 same pair 1 ≡ none))
    × ((k' : ℕ)
        → Apart 0 same 1 k'
        → IsUnique 0 same pair k'
        → udict_get 0 same d' k' ≡ udict_get 0 same pair k')
udict_remove_lem_example =
    udict_remove_lem 0 same pair 1 (omega arith, omega arith, omega arith) (pair-IsUnique 1)
