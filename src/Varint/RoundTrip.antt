-- ===== src/Varint/RoundTrip.antt =====
-- src/util/uvarint.c: the decoders on what the writers store.
use urbi_embedded.Shared.{
  ℕ, zero, suc, ◌+◌, ◌*◌, ◌/◌, ◌%◌, ◌^◌, ◌≤◌, ◌<◌, ◌≡◌, ap, List, ◌∷◌, ◌++◌, arith, length, drop,
}
use urbi_embedded.Shared.Bits.{bit_or_disjoint}
use urbi_embedded.Varint.{
  Decoded, ok, uvarint_size_u, uvarint_write_u, decode_loop, uvarint_decode_u,
}
use urbi_embedded.Varint.Encode.{leb128, drop-splice, size_u-leb128, write_u-leb128}
use native.Mathlib.Nat.{mul-le-mul_right}
use native.Mathlib.Numerals.{towards_suc}

top_group : (v shift result : ℕ) → result + v * 2 ^ shift < 2 ^ 64 → shift ≡ 63 → v < 2
top_group v shift result fits e = omega (arith, ap (λ (t : ℕ). v * 2 ^ t) e)

pub shift_seven : (s : ℕ) → 2 ^ (s + 7) ≡ 128 * 2 ^ s
shift_seven s = simp towards_suc (omega arith)

-- The lowest group of `v` and the others, all moved up by `s` digits.
split_low_group : (v s : ℕ) → v * 2 ^ s ≡ v % 128 * 2 ^ s + v / 128 * 2 ^ (s + 7)
split_low_group v s =
    let e : v ≡ v % 128 + v / 128 * 128 = omega arith in
    omega (arith, ap (λ (t : ℕ). t * 2 ^ s) e, ap (λ (t : ℕ). v / 128 * t) (shift_seven s))

pub group-lt : (g s r : ℕ) → g < 128 → r < 2 ^ s → r + g * 2 ^ s < 2 ^ (s + 7)
group-lt g s r hg hr =
    omega (arith, shift_seven s, mul-le-mul_right {m = g} {n = 127} (2 ^ s) (omega arith))

module _ (rest : List ℕ) (out : Decoded) where
  last_byte :
      (v i shift result : ℕ)
      → v < 128
      → result < 2 ^ shift
      → result + v * 2 ^ shift < 2 ^ 64
      → decode_loop (v ∷ rest) i shift result out
        ≡ record { rc = ok; value = result + v * 2 ^ shift; consumed = i + 1 }
  unfolding decode_loop
  last_byte v i shift result hv low fits =
      ground (arith, bit_or_disjoint shift result v low, top_group v shift result fits)

  inner_byte :
      (g i shift result : ℕ)
      → g < 128
      → shift < 57
      → result < 2 ^ shift
      → result + g * 2 ^ shift < 2 ^ 64
      → decode_loop ((g + 128) ∷ rest) i shift result out
        ≡ decode_loop rest (i + 1) (shift + 7) (result + g * 2 ^ shift) out
  unfolding decode_loop
  inner_byte g i shift result hg hs low fits = ground (arith, bit_or_disjoint shift result g low)

module _ (rest : List ℕ) (out : Decoded) where
  -- `v` is what is still to be read, and it counts from digit `shift` on.
  decode_loop-leb128 :
      (k j v i shift result : ℕ)
      → k + j ≡ 9
      → shift ≡ 7 * j
      → v < 128 ^ suc k
      → result < 2 ^ shift
      → result + v * 2 ^ shift < 2 ^ 64
      → decode_loop (leb128 k v ++ rest) i shift result out
        ≡ record { rc = ok; value = result + v * 2 ^ shift; consumed = i + length (leb128 k v) }
  unfolding leb128
  decode_loop-leb128 zero j v i shift result hj hs hv low fits =
      last_byte rest out v i shift result hv low fits
  decode_loop-leb128 (suc k) j v i shift result hj hs hv low fits = ground (
    arith,
    last_byte rest out v i shift result,
    inner_byte (leb128 k (v / 128) ++ rest) out (v % 128) i shift result,
    split_low_group v shift,
    group-lt (v % 128) shift result,
    decode_loop-leb128 k (j + 1) (v / 128) (i + 1) (shift + 7) (result + v % 128 * 2 ^ shift),
  )

pub decode_u-leb128 :
    (v : ℕ) (rest : List ℕ) (out : Decoded)
    → v < 2 ^ 64
    → uvarint_decode_u (leb128 9 v ++ rest) out
      ≡ record { rc = ok; value = v; consumed = length (leb128 9 v) }
unfolding uvarint_decode_u
decode_u-leb128 v rest out h = ground (arith, decode_loop-leb128 rest out 9 0 v 0 0 0)

-- `uvarint_decode_u` at the offset where `uvarint_write_u` stored a `uint64_t`, with room in the
-- buffer, returns that number and consumes `uvarint_size_u` bytes, whatever stands around them.
pub decode_u-write_u :
    (buf : List ℕ) (off v : ℕ) (out : Decoded)
    → v < 2 ^ 64
    → off + uvarint_size_u v ≤ length buf
    → uvarint_decode_u (drop off (uvarint_write_u buf off v).0) out
      ≡ record { rc = ok; value = v; consumed = uvarint_size_u v }
decode_u-write_u buf off v out h room =
    rw (write_u-leb128 buf off v h, size_u-leb128 v h)
      (rw (drop-splice buf off (leb128 9 v) (omega (arith, size_u-leb128 v h)))
        (decode_u-leb128 v (drop (off + length (leb128 9 v)) buf) out h))
