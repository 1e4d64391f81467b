-- ===== src/Varint/Decode.antt =====
-- src/util/uvarint.c: the decoders on any bytes, well formed or not.
use urbi_embedded.Shared.{
  ℕ, ◌+◌, ◌*◌, ◌/◌, ◌%◌, ◌^◌, ◌≤◌, ◌<◌, ◌≡◌, refl, ap, ◌≢◌, bit_or, List, [], ◌∷◌, ◌++◌, arith,
  length, All, ◌↔◌, dec_le,
}
use urbi_embedded.Shared.Bits.{bit_or_disjoint}
use urbi_embedded.Varint.{Decoded, ok, truncated, decode_loop, uvarint_decode_u}
use urbi_embedded.Varint.RoundTrip.{group-lt}
use native.Mathlib.Nat.{mul-le-mul_right, pow-le-pow_right}

two_pow_seven : (j s : ℕ) → j ≤ 8 → s ≡ 7 * j → 2 ^ (s + 7) ≤ 2 ^ 63
two_pow_seven j s h e = pow-le-pow_right {n = 2} (omega arith) {i = s + 7} {j = 63} (omega arith)

-- One group is added to the result without overlap or overflow, at the shifts that the loop meets.
add_group :
    (b j s r : ℕ)
    → j ≤ 9
    → s ≡ 7 * j
    → r < 2 ^ s
    → (s ≡ 63 → b % 128 < 2)
    → (bit_or r (b % 2 ^ 7 * 2 ^ s % 2 ^ 64) ≡ r + b % 128 * 2 ^ s)
      × (r + b % 128 * 2 ^ s < 2 ^ 64)
      × (r + b % 128 * 2 ^ s < 2 ^ (s + 7))
add_group b j s r hj hs low top = elim (dec_le j 8) [
  | yes h ↦ ground (arith, group-lt (b % 128) s r, two_pow_seven j s, bit_or_disjoint s r (b % 128))
  | no h ↦
      let e : s ≡ 63 = omega arith in
      ground (
        arith,
        top e,
        ap (λ (t : ℕ). 2 ^ t) e,
        group-lt (b % 128) s r,
        bit_or_disjoint s r (b % 128),
        mul-le-mul_right {m = b % 128} {n = 1} (2 ^ s),
      )
]

-- What the loop promises about its out-parameters when it starts at byte `i`.
abbrev Keeps : ℕ → ℕ → Decoded → Decoded → Type 0
Keeps i size out d =
    (d.rc ≡ ok
      → (i < d.consumed) × (d.consumed ≤ i + size) × (d.consumed ≤ 10) × (d.value < 2 ^ 64))
    × (d.rc ≢ ok → (d.value ≡ out.value) × (d.consumed ≡ out.consumed))

decode_loop-Keeps :
    (src : List ℕ) (i shift r : ℕ) (out : Decoded)
    → i ≤ 9
    → shift ≡ 7 * i
    → r < 2 ^ shift
    → Keeps i (length src) out (decode_loop src i shift r out)
unfolding decode_loop
decode_loop-Keeps [] i shift r out hi hs low = ((λ e. cc), λ _. (refl, refl))
decode_loop-Keeps (b ∷ src) i shift r out hi hs low = ground (
  arith,
  add_group b i shift r hi hs low,
  decode_loop-Keeps src (i + 1) (shift + 7) (bit_or r (b % 2 ^ 7 * 2 ^ shift % 2 ^ 64)) out,
)

-- On any bytes: a successful `uvarint_decode_u` returns a `uint64_t` and consumes between one byte
-- and ten, never past the end of the buffer; a failed one leaves both out-parameters as they were.
pub decode_u_bounds :
    (buf : List ℕ) (out : Decoded)
    → let d = uvarint_decode_u buf out in
      (d.rc ≡ ok
        → (1 ≤ d.consumed) × (d.consumed ≤ length buf) × (d.consumed ≤ 10) × (d.value < 2 ^ 64))
      × (d.rc ≢ ok → (d.value ≡ out.value) × (d.consumed ≡ out.consumed))
unfolding uvarint_decode_u
decode_u_bounds buf out =
    grind (arith, decode_loop-Keeps buf 0 0 0 out (omega arith) refl (omega arith))

abbrev pub IsContinued : ℕ → Type 0
IsContinued b = b / 2 ^ 7 % 2 ≢ 0

decode_loop_truncated :
    (src : List ℕ) (i shift r : ℕ) (out : Decoded)
    → i ≤ 9
    → shift ≡ 7 * i
    → ((decode_loop src i shift r out).rc ≡ truncated)
      ↔ (All IsContinued src × (i + length src ≤ 9))
unfolding decode_loop
decode_loop_truncated [] i shift r out hi hs = ((λ _. (tt, omega arith)), λ _. refl)
decode_loop_truncated (b ∷ src) i shift r out hi hs = ground (
  arith,
  decode_loop_truncated src (i + 1) (shift + 7) (bit_or r (b % 2 ^ 7 * 2 ^ shift % 2 ^ 64)) out,
)

-- `uvarint_decode_u` answers `UVARINT_TRUNCATED` exactly when every byte asks for another and there
-- are at most nine of them.
pub decode_u_truncated :
    (buf : List ℕ) (out : Decoded)
    → ((uvarint_decode_u buf out).rc ≡ truncated) ↔ (All IsContinued buf × (length buf ≤ 9))
unfolding uvarint_decode_u
decode_u_truncated buf out = ground (arith, decode_loop_truncated buf 0 0 0 out)

decode_loop-append :
    (src more : List ℕ) (i shift r : ℕ) (out : Decoded)
    → (decode_loop src i shift r out).rc ≢ truncated
    → decode_loop (src ++ more) i shift r out ≡ decode_loop src i shift r out
unfolding decode_loop
decode_loop-append [] more i shift r out h = absurd (h refl)
decode_loop-append (b ∷ src) more i shift r out h = ground (
  arith,
  decode_loop-append src more (i + 1) (shift + 7) (bit_or r (b % 2 ^ 7 * 2 ^ shift % 2 ^ 64)) out,
)

-- `uvarint_decode_u` does not look past the number: bytes behind an input that it accepts, or that
-- it rejects as oversize, change nothing.
pub decode_u-append :
    (buf more : List ℕ) (out : Decoded)
    → (uvarint_decode_u buf out).rc ≢ truncated
    → uvarint_decode_u (buf ++ more) out ≡ uvarint_decode_u buf out
unfolding uvarint_decode_u
decode_u-append buf more out h = decode_loop-append buf more 0 0 0 out h
