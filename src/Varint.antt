-- ===== src/Varint.antt =====
-- src/util/uvarint.c: LEB128 numbers, unsigned and zigzag. A `uint64_t` is a number below 2 ^ 64, an
-- `int64_t` the bit pattern of its value, and a buffer the list of its bytes.
pub mod Encode
pub mod RoundTrip
pub mod Decode
pub mod Zigzag
pub mod Runs
use urbi_embedded.Shared.{
  ℕ, ◌+◌, ◌-◌, ◌*◌, ◌/◌, ◌%◌, ◌^◌, ◌<◌, bit_or, bit_xor, Bool, not, ◌&&◌, List, [], ◌∷◌, arith,
  dec_le, dite, leb, ◌==◌, if◌then◌else◌, set,
}
use urbi_embedded.Shared.Order.{lt_wf}
use mathlib.Core.WellFounded.{Acc}

-- `while (v >= 0x80U) { v >>= 7; n++; }`
size_loop : (n v : ℕ) → Acc ◌<◌ v → ℕ
size_loop n v (Acc.intro _ smaller) =
    dite (dec_le 0x80 v) (λ h. size_loop (n + 1) (v / 2 ^ 7) (smaller (v / 2 ^ 7) (omega arith)))
      (λ _. n)

pub uvarint_size_u : ℕ → ℕ
uvarint_size_u v = size_loop 1 v (lt_wf.apply v)

-- The negative `int64_t`s are the patterns with the top bit set.
abbrev pub is_negative : ℕ → Bool
is_negative v = leb (2 ^ 63) v

-- `((uint64_t)v << 1) ^ sign`, where `sign` is 0 or UINT64_MAX.
unfoldable pub zigzag : ℕ → ℕ
zigzag v = bit_xor (v * 2 % 2 ^ 64) (if is_negative v then 2 ^ 64 - 1 else 0)

unfoldable pub uvarint_size_zz : ℕ → ℕ
uvarint_size_zz v = uvarint_size_u (zigzag v)

-- The buffer and the offset after the writes.
write_loop : (buf : List ℕ) (off v : ℕ) → Acc ◌<◌ v → List ℕ × ℕ
write_loop buf off v (Acc.intro _ smaller) =
    dite (dec_le 0x80 v)
      (λ h.
        write_loop (set buf off (bit_or (v % 2 ^ 7) 0x80 % 256)) (off + 1) (v / 2 ^ 7)
          (smaller (v / 2 ^ 7) (omega arith)))
      (λ _. (set buf off (v % 256), off + 1))

pub uvarint_write_u : List ℕ → ℕ → ℕ → List ℕ × ℕ
uvarint_write_u buf off v = write_loop buf off v (lt_wf.apply v)

unfoldable pub uvarint_write_zz : List ℕ → ℕ → ℕ → List ℕ × ℕ
uvarint_write_zz buf off v = uvarint_write_u buf off (zigzag v)

pub data VarintError : Type 0 where
  ok truncated oversize : VarintError

-- A return code with what the two out-parameters hold afterwards.
pub record Decoded : Type 0 where
  pub rc : VarintError
  pub value : ℕ
  pub consumed : ℕ

-- The list is `buf[i .. size)`; `out` holds the out-parameters as the caller left them.
unfoldable pub decode_loop : List ℕ → (i shift result : ℕ) → Decoded → Decoded
decode_loop [] i shift result out = record out { rc = truncated }
decode_loop (b ∷ rest) i shift result out =
    let result' = bit_or result (b % 2 ^ 7 * 2 ^ shift % 2 ^ 64) in
    let more = decode_loop rest (i + 1) (shift + 7) result' out in
    if shift == 63 && not (b / 2 % 2 ^ 6 == 0)
    then record out { rc = oversize }
    else if b / 2 ^ 7 % 2 == 0
    then record { rc = ok; value = result'; consumed = i + 1 }
    else if leb 64 (shift + 7)
    then record out { rc = oversize }
    else more

unfoldable pub uvarint_decode_u : List ℕ → Decoded → Decoded
uvarint_decode_u buf out = decode_loop buf 0 0 0 out

-- `(u >> 1) ^ (0U - (u & 1U))`
pub unzigzag : ℕ → ℕ
unzigzag u = bit_xor (u / 2) (if u % 2 == 0 then 0 else 2 ^ 64 - 1)

-- The inner call decodes into the local `u = 0`; an error leaves `*v` and clears `*consumed`.
pub uvarint_decode_zz : List ℕ → Decoded → Decoded
uvarint_decode_zz buf out =
    let r = uvarint_decode_u buf (record out { value = 0 }) in
    elim r.rc [
      | ok ↦ record r { value = unzigzag r.value }
      | _ ↦ record r { value = out.value; consumed = 0 }
    ]
