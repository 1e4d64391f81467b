-- ===== src/Varint/Zigzag.antt =====
-- src/util/uvarint.c: the zigzag forms, over `int64_t`s as bit patterns.
use urbi_embedded.Shared.{
  ℕ, ◌+◌, ◌-◌, ◌*◌, ◌/◌, ◌%◌, ◌^◌, ◌≤◌, ◌<◌, ◌≡◌, ap, arith, length, drop, ◌++◌, ◌≢◌, List,
}
use urbi_embedded.Shared.Bits.{bit_xor-ones, bit_xor-zero}
use urbi_embedded.Varint.{
  Decoded, ok, zigzag, unzigzag, uvarint_size_zz, uvarint_write_zz, uvarint_decode_u,
  uvarint_decode_zz,
}
use urbi_embedded.Varint.Encode.{leb128}
use urbi_embedded.Varint.RoundTrip.{decode_u-leb128, decode_u-write_u}
use urbi_embedded.Varint.Decode.{decode_u_bounds}

-- `n` is sent to 2 n, and -(n + 1), whose pattern is 2 ^ 64 - 1 - n, to 2 n + 1, for n < 2 ^ 63: so
-- numbers near 0, of either sign, have short encodings.
pub zigzag_values :
    (n : ℕ) → n < 2 ^ 63 → (zigzag n ≡ 2 * n) × (zigzag (2 ^ 64 - 1 - n) ≡ 2 * n + 1)
unfolding zigzag
zigzag_values n h = ground (
  arith,
  bit_xor-zero 64 (2 * n),
  bit_xor-ones 64 ((2 ^ 64 - 1 - n) * 2 % 2 ^ 64) (omega arith),
  bit_xor-zero 64 (n * 2 % 2 ^ 64) (omega arith),
)

pub zigzag-lt : (v : ℕ) → v < 2 ^ 64 → zigzag v < 2 ^ 64
unfolding zigzag
zigzag-lt v h = ground (
  arith,
  bit_xor-ones 64 (v * 2 % 2 ^ 64) (omega arith),
  bit_xor-zero 64 (v * 2 % 2 ^ 64) (omega arith),
)

-- The decoder's `(u >> 1) ^ -(u & 1)` undoes the encoder's `(v << 1) ^ sign` on every `int64_t`.
pub unzigzag-zigzag : (v : ℕ) → v < 2 ^ 64 → unzigzag (zigzag v) ≡ v
unfolding unzigzag
unzigzag-zigzag v h = ground (
  arith,
  zigzag_values v,
  zigzag_values (2 ^ 64 - 1 - v),
  ap zigzag (cancel),
  bit_xor-zero 64 (zigzag v / 2),
  bit_xor-ones 64 (zigzag v / 2),
)
  where
    cancel : 2 ^ 64 - 1 - (2 ^ 64 - 1 - v) ≡ v
    cancel = omega arith

pub decode_zz-leb128 :
    (v : ℕ) (rest : List ℕ) (out : Decoded)
    → v < 2 ^ 64
    → uvarint_decode_zz (leb128 9 (zigzag v) ++ rest) out
      ≡ record { rc = ok; value = v; consumed = length (leb128 9 (zigzag v)) }
unfolding uvarint_decode_zz
decode_zz-leb128 v rest out h = ground (
  arith,
  zigzag-lt v h,
  decode_u-leb128 (zigzag v) rest (record out { value = 0 }),
  unzigzag-zigzag v h,
)

-- `uvarint_decode_zz` at the offset where `uvarint_write_zz` stored an `int64_t`, with room in the
-- buffer, returns that number and consumes `uvarint_size_zz` bytes.
pub decode_zz-write_zz :
    (buf : List ℕ) (off v : ℕ) (out : Decoded)
    → v < 2 ^ 64
    → off + uvarint_size_zz v ≤ length buf
    → uvarint_decode_zz (drop off (uvarint_write_zz buf off v).0) out
      ≡ record { rc = ok; value = v; consumed = uvarint_size_zz v }
unfolding uvarint_decode_zz uvarint_write_zz uvarint_size_zz
decode_zz-write_zz buf off v out h room = ground (
  arith,
  zigzag-lt v h,
  decode_u-write_u buf off (zigzag v) (record out { value = 0 }),
  unzigzag-zigzag v h,
)

-- When `uvarint_decode_zz` fails it clears `*consumed`, leaves `*v`, and reports the error of the
-- unsigned decoder; when it succeeds it stays inside the buffer as that one does.
pub decode_zz_bounds :
    (buf : List ℕ) (out : Decoded)
    → let d = uvarint_decode_zz buf out in
      (d.rc ≡ ok → (1 ≤ d.consumed) × (d.consumed ≤ length buf) × (d.consumed ≤ 10))
      × (d.rc ≢ ok → (d.value ≡ out.value) × (d.consumed ≡ 0))
      × (d.rc ≡ (uvarint_decode_u buf (record out { value = 0 })).rc)
unfolding uvarint_decode_zz
decode_zz_bounds buf out = grind (arith, decode_u_bounds buf (record out { value = 0 }))

unzigzag-lt : (u : ℕ) → u < 2 ^ 64 → unzigzag u < 2 ^ 64
unfolding unzigzag
unzigzag-lt u h = ground (arith, bit_xor-zero 64 (u / 2), bit_xor-ones 64 (u / 2))

pub decode_zz_value :
    (buf : List ℕ) (out : Decoded)
    → (uvarint_decode_zz buf out).rc ≡ ok
    → (uvarint_decode_zz buf out).value < 2 ^ 64
unfolding uvarint_decode_zz
decode_zz_value buf out h =
    let r = uvarint_decode_u buf (record out { value = 0 }) in
    ground (arith, h, decode_u_bounds buf (record out { value = 0 }), unzigzag-lt r.value)
