-- ===== src/Chunk/Bitmap.antt =====
-- src/chunk/uchunk_verify.c: the bitmap of prelude words, NULL until the first one is met.
use urbi_embedded.Shared.{
  ℕ, zero, suc, ◌+◌, ◌/◌, ◌%◌, ◌^◌, ◌<◌, ◌≡◌, refl, bit_and, bit_or, Bool, false, not, ◌||◌, List,
  Option, none, some, arith, ◌==◌, get_or, set, length, replicate, [], ◌∷◌, All, length-set,
  get_or-set_ne, get_or-set_self, length-replicate, ℕ_discrete,
}
use urbi_embedded.Shared.Bits.{bit_or_digit, zero-bit_and}

unfoldable pub is_prelude_word : Option (List ℕ) → ℕ → Bool
is_prelude_word none pc = false
is_prelude_word (some bytes) pc =
    not (bit_and (get_or bytes (pc / 2 ^ 3) 0) (2 ^ (pc % 2 ^ 3)) == 0)

-- `prelude[j >> 3] |= (uint8_t)(1U << (j & 7U))`
unfoldable pub mark_word : List ℕ → ℕ → List ℕ
mark_word bytes j = set bytes (j / 2 ^ 3) (bit_or (get_or bytes (j / 2 ^ 3) 0) (2 ^ (j % 2 ^ 3)))

-- `nbytes` zero bytes for `instr_count` words.
unfoldable pub new_bitmap : ℕ → List ℕ
new_bitmap instr_count = replicate ((instr_count + 7) / 8) 0

abbrev pub IsByte : ℕ → Type 0
IsByte b = b < 256

get_or-IsByte : (bytes : List ℕ) (i : ℕ) → All IsByte bytes → get_or bytes i 0 < 256
get_or-IsByte [] i h = omega arith
get_or-IsByte (b ∷ bytes) zero h = h.0
get_or-IsByte (b ∷ bytes) (suc i) h = get_or-IsByte bytes i h.1

set-IsByte : (bytes : List ℕ) (i b : ℕ) → All IsByte bytes → b < 256 → All IsByte (set bytes i b)
set-IsByte [] i b h hb = tt
set-IsByte (x ∷ bytes) zero b h hb = (hb, h.1)
set-IsByte (x ∷ bytes) (suc i) b h hb = (h.0, set-IsByte bytes i b h.1 hb)

pub mark_word-IsByte : (bytes : List ℕ) (j : ℕ) → All IsByte bytes → All IsByte (mark_word bytes j)
unfolding mark_word
mark_word-IsByte bytes j h =
    set-IsByte bytes _ _ h
      (bit_or_digit (get_or bytes (j / 2 ^ 3) 0) (j % 2 ^ 3) 0 (get_or-IsByte bytes _ h)
        (omega arith) (omega arith)).1

pub length-mark_word : (bytes : List ℕ) (j : ℕ) → length (mark_word bytes j) ≡ length bytes
unfolding mark_word
length-mark_word bytes j = length-set bytes _ _

pub is_prelude_word-none : (pc : ℕ) → is_prelude_word none pc ≡ false
unfolding is_prelude_word
is_prelude_word-none pc = refl

-- Marking a word marks that word and no other.
pub is_prelude_word-mark_word :
    (bytes : List ℕ) (j pc : ℕ)
    → All IsByte bytes
    → j / 2 ^ 3 < length bytes
    → is_prelude_word (some (mark_word bytes j)) pc ≡ (pc == j || is_prelude_word (some bytes) pc)
unfolding is_prelude_word mark_word
is_prelude_word-mark_word bytes j pc h hj = elim (ℕ_discrete (j / 2 ^ 3) (pc / 2 ^ 3)) [
  | yes same ↦
      let old = get_or bytes (j / 2 ^ 3) 0 in
      rw (← same, get_or-set_self bytes (j / 2 ^ 3) (bit_or old (2 ^ (j % 2 ^ 3))) 0 hj)
        (ground (
          arith,
          bit_or_digit old (j % 2 ^ 3) (pc % 2 ^ 3) (get_or-IsByte bytes _ h) (omega arith)
              (omega arith),
        ))
  | no other ↦ ground (
    arith,
    get_or-set_ne bytes (j / 2 ^ 3) (pc / 2 ^ 3)
        (bit_or (get_or bytes (j / 2 ^ 3) 0) (2 ^ (j % 2 ^ 3))) 0 other,
  )
]

get_or-replicate : (n i : ℕ) → get_or {A = ℕ} (replicate n 0) i 0 ≡ 0
get_or-replicate zero i = refl
get_or-replicate (suc n) zero = refl
get_or-replicate (suc n) (suc i) = get_or-replicate n i

pub is_prelude_word-new_bitmap : (n pc : ℕ) → is_prelude_word (some (new_bitmap n)) pc ≡ false
unfolding is_prelude_word new_bitmap
is_prelude_word-new_bitmap n pc = rw (get_or-replicate ((n + 7) / 8) (pc / 2 ^ 3)) (rw zero-bit_and)

replicate-IsByte : (n : ℕ) → All IsByte (replicate n 0)
replicate-IsByte zero = tt
replicate-IsByte (suc n) = (omega arith, replicate-IsByte n)

pub new_bitmap-IsByte : (n : ℕ) → All IsByte (new_bitmap n)
unfolding new_bitmap
new_bitmap-IsByte n = replicate-IsByte _

pub length-new_bitmap : (n : ℕ) → length (new_bitmap n) ≡ (n + 7) / 8
unfolding new_bitmap
length-new_bitmap n = length-replicate _ 0
