-- ===== src/Containers/Capacity.antt =====
-- src/rt/ulist.c: the capacities that ulist_new and the growth of an array ask for.
use urbi_embedded.Shared.{
  ℕ, zero, suc, ◌*◌, ◌%◌, ◌^◌, ◌≤◌, ◌<◌, ◌≡◌, ◌⊎◌, inl, inr, refl, arith, dec_lt, Bool, not, none,
  some, [], if◌then◌else◌, replicate,
}
use urbi_embedded.Containers.{cap_loop, next_cap, ulist_new}
use native.Mathlib.Nat.{pow-suc}

pub next_cap_bounds : (c : ℕ) → c < 2 ^ 31 → c < next_cap c
unfolding next_cap
next_cap_bounds c h = ground arith

doubled : (c left : ℕ) → c * 2 ^ suc left ≡ c * 2 * 2 ^ left
doubled c left = rw pow-suc (omega arith)

-- The doubling from `cap` passes every hint up to 2 ^ 31 without wrapping, when there are rounds
-- enough, and stops below twice the hint.
pub cap_loop_lem :
    (left cap hint : ℕ)
    → hint ≤ 2 ^ 31
    → hint ≤ cap * 2 ^ left
    → (hint ≤ cap_loop left cap hint)
      × (cap ≤ cap_loop left cap hint)
      × ((cap_loop left cap hint ≡ cap) ⊎ (cap_loop left cap hint < 2 * hint))
unfolding cap_loop
cap_loop_lem zero cap hint small h = (omega arith, omega arith, inl refl)
cap_loop_lem (suc left) cap hint small h = elim (dec_lt cap hint) [
  | no big ↦ (ground arith, ground arith, inl (ground arith))
  | yes more ↦
      let next_cap : cap * 2 % 2 ^ 32 ≡ cap * 2 = omega arith in
      let (lo, up, end) =
        cap_loop_lem left (cap * 2) hint small (omega (arith, doubled cap left)) in
      let step : cap_loop (suc left) cap hint ≡ cap_loop left (cap * 2) hint =
        ground (arith, next_cap) in
      (
        omega arith,
        omega arith,
        inr (elim end [ inl same ↦ omega arith | inr below ↦ omega arith ]),
      )
]

-- For every hint up to 2 ^ 31 ulist_new takes one capacity, which holds the hint, is 4 at least, and is below
-- twice the hint where it is more than 4: it answers NULL where the cell is not allocated, an empty list of
-- capacity 0 where the array is not, and otherwise an empty list whose array has as many zeroed elements as
-- that capacity says.
pub ulist_new_cap {ℓ} :
    {A : Type ℓ} (zeroed : A) (cell_served array_served : Bool) (hint : ℕ)
    → hint ≤ 2 ^ 31
    → (cap : ℕ) × (hint ≤ cap)
      × (4 ≤ cap)
      × ((cap ≡ 4) ⊎ (cap < 2 * hint))
      × (ulist_new zeroed cell_served array_served hint ≡ (
          if not cell_served
          then none
          else if not array_served
          then some (record { items = []; len = 0; cap = 0 })
          else some (record { items = replicate cap zeroed; len = 0; cap = cap })))
unfolding ulist_new
ulist_new_cap zeroed cell_served array_served hint small =
    let (holds, least, bound) = cap_loop_lem 30 4 hint small (omega arith) in
    (cap_loop 30 4 hint, holds, least, bound, refl)
