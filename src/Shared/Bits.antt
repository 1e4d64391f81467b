-- ===== src/Shared/Bits.antt =====
-- Laws of the digit-wise operations at variables: one digit, disjoint parts, a complement by ones.
use Prim.Native.Nat.{ℕ, zero, suc, ◌+◌, ◌-◌, ◌*◌, ◌/◌, ◌%◌, ◌^◌, ◌≤◌, ◌<◌, max}
use Prim.Native.Nat.{bit_or, bit_xor, digits, differ, bit_or-bitwise, bit_xor-bitwise}
use Prim.Native.Nat.{bit_and, bit_and-bitwise}
use mathlib.Core.Path.{◌≡◌, refl, ap}
use mathlib.Core.Bool.{Bool, true, not, ◌&&◌, beq}
use native.Mathlib.Nat.{pow-suc}
use native.Mathlib.Omega.{arith}
use urbi_embedded.Shared.Tests.{ltb, ◌==◌}

-- An operation that keeps its second argument where the first has run out, and whose digits obey
-- `f`, may be computed one digit at a time.
module _ (f : ℕ → ℕ → ℕ) (zero_digit : (d : ℕ) → d < 2 → f 0 d ≡ d) where
  by_digits : ℕ → ℕ → ℕ → ℕ
  by_digits = digits (λ b. b) f

  by_digits_fuel : (n m a b : ℕ) → a ≤ n → a ≤ m → by_digits n a b ≡ by_digits m a b
  unfolding by_digits
  by_digits_fuel zero zero a b p q = refl
  by_digits_fuel zero (suc m) zero b p q = refl
  by_digits_fuel zero (suc m) (suc a) b p q = absurd (omega arith)
  by_digits_fuel (suc n) zero zero b p q = refl
  by_digits_fuel (suc n) zero (suc a) b p q = absurd (omega arith)
  by_digits_fuel (suc n) (suc m) zero b p q = refl
  by_digits_fuel (suc n) (suc m) (suc a) b p q =
      omega (arith, by_digits_fuel n m (suc a / 2) (b / 2) (omega arith) (omega arith))

  by_digits_step :
      (a b : ℕ) → by_digits a a b ≡ by_digits (a / 2) (a / 2) (b / 2) * 2 + f (a % 2) (b % 2)
  unfolding by_digits
  by_digits_step zero b = omega (arith, zero_digit (b % 2) (omega arith))
  by_digits_step (suc a) b =
      omega (arith, by_digits_fuel a (suc a / 2) (suc a / 2) (b / 2) (omega arith) (omega arith))

max_digit : (d : ℕ) → d < 2 → max 0 d ≡ d
max_digit d h = omega arith

pub bit_or_step : (a b : ℕ) → bit_or a b ≡ bit_or (a / 2) (b / 2) * 2 + max (a % 2) (b % 2)
unfolding by_digits
bit_or_step a b =
    omega
      (arith, bit_or-bitwise a b, bit_or-bitwise (a / 2) (b / 2), by_digits_step max max_digit a b)

differ_digit : (d : ℕ) → d < 2 → differ 0 d ≡ d
differ_digit d h = refl

pub bit_xor_step : (a b : ℕ) → bit_xor a b ≡ bit_xor (a / 2) (b / 2) * 2 + differ (a % 2) (b % 2)
unfolding by_digits
bit_xor_step a b = omega (
  arith,
  bit_xor-bitwise a b,
  bit_xor-bitwise (a / 2) (b / 2),
  by_digits_step differ differ_digit a b,
)

zero-bit_or : (b : ℕ) → bit_or 0 b ≡ b
zero-bit_or b = bit_or-bitwise 0 b

-- Parts that share no digit are added.
pub bit_or_disjoint : (s a b : ℕ) → a < 2 ^ s → bit_or a (b * 2 ^ s) ≡ a + b * 2 ^ s
bit_or_disjoint zero zero b h = omega (arith, zero-bit_or (b * 1))
bit_or_disjoint zero (suc a) b h = absurd (omega arith)
bit_or_disjoint (suc s) a b h = rw pow-suc (
    omega (
      arith,
      pow-suc 2 s,
      bit_or_step a (b * (2 ^ s * 2)),
      bit_or_disjoint s (a / 2) b (omega (arith, pow-suc 2 s)),
      ap (bit_or (a / 2)) halve,
    ))
  where
    halve : b * (2 ^ s * 2) / 2 ≡ b * 2 ^ s
    halve = omega arith

differ-one : (d : ℕ) → d < 2 → differ d 1 ≡ 1 - d
differ-one zero h = refl
differ-one (suc zero) h = refl
differ-one (suc (suc d)) h = absurd (omega arith)

differ-zero : (d : ℕ) → differ d 0 ≡ d
differ-zero zero = refl
differ-zero (suc d) = refl

-- An exclusive or with `s` ones is the complement below `2 ^ s`, and one with zero changes nothing.
pub bit_xor-ones : (s a : ℕ) → a < 2 ^ s → bit_xor a (2 ^ s - 1) ≡ 2 ^ s - 1 - a
bit_xor-ones zero zero h = bit_xor-bitwise 0 0
bit_xor-ones zero (suc a) h = absurd (omega arith)
bit_xor-ones (suc s) a h = omega (
  arith,
  bit_xor_step a (2 ^ suc s - 1),
  bit_xor-ones s (a / 2) (omega (arith, pow-suc 2 s)),
  differ-one (a % 2) (omega arith),
  ap (bit_xor (a / 2)) halve,
  ap (differ (a % 2)) odd,
  pow-suc 2 s,
)
  where
    halve : (2 ^ suc s - 1) / 2 ≡ 2 ^ s - 1
    halve = omega (arith, pow-suc 2 s)

    odd : (2 ^ suc s - 1) % 2 ≡ 1
    odd = omega (arith, pow-suc 2 s, h)

pub bit_xor-zero : (s a : ℕ) → a < 2 ^ s → bit_xor a 0 ≡ a
bit_xor-zero zero zero h = bit_xor-bitwise 0 0
bit_xor-zero zero (suc a) h = absurd (omega arith)
bit_xor-zero (suc s) a h = omega (
  arith,
  bit_xor_step a 0,
  bit_xor-zero s (a / 2) (omega (arith, pow-suc 2 s)),
  differ-zero (a % 2),
)

-- A statement about every number of a small range is checked by evaluation.
unfoldable pub all_below : ℕ → (ℕ → Bool) → Bool
all_below zero p = true
all_below (suc n) p = p n && all_below n p

pub all_below→ : (n : ℕ) (p : ℕ → Bool) → all_below n p ≡ true → (x : ℕ) → x < n → p x ≡ true
unfolding all_below
all_below→ zero p h x lt = absurd (omega arith)
all_below→ (suc n) p h x lt = ground (arith, all_below→ n p (ground arith) x)

-- Digit `k` of a byte after digit `j` has been set.
abbrev set_digit_agrees : ℕ → ℕ → ℕ → Bool
set_digit_agrees b j k =
    beq (bit_and (bit_or b (2 ^ j)) (2 ^ k) == 0) (not (k == j) && bit_and b (2 ^ k) == 0)
    && ltb (bit_or b (2 ^ j)) 256

set_digit_table :
    all_below 256 (λ b. all_below 8 (λ j. all_below 8 (λ k. set_digit_agrees b j k))) ≡ true
unfolding all_below
set_digit_table = refl

pub bit_or_digit :
    (b j k : ℕ)
    → b < 256
    → j < 8
    → k < 8
    → ((bit_and (bit_or b (2 ^ j)) (2 ^ k) == 0) ≡ (not (k == j) && bit_and b (2 ^ k) == 0))
      × (bit_or b (2 ^ j) < 256)
bit_or_digit b j k hb hj hk =
    let agrees : set_digit_agrees b j k ≡ true =
      all_below→ 8 _ (all_below→ 8 _ (all_below→ 256 _ set_digit_table b hb) j hj) k hk in
    ground (arith, agrees)

pub zero-bit_and : (b : ℕ) → bit_and 0 b ≡ 0
zero-bit_and b = bit_and-bitwise 0 b

-- The bits of either side are in the result.
pub le-bit_or : (n a b : ℕ) → a ≤ n → b ≤ n → (a ≤ bit_or a b) × (b ≤ bit_or a b)
le-bit_or zero a b ha hb = (omega arith, omega arith)
le-bit_or (suc n) a b ha hb =
    let (left, right) = le-bit_or n (a / 2) (b / 2) (omega arith) (omega arith) in
    let step = bit_or_step a b in (omega (arith, left, step), omega (arith, right, step))
