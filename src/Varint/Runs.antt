-- ===== src/Varint/Runs.antt =====
-- src/util/uvarint.c: runs on concrete bytes, and the theorems at concrete inputs.
use urbi_embedded.Shared.{
  ℕ, ◌+◌, ◌-◌, ◌*◌, ◌^◌, ◌≤◌, ◌<◌, ◌≡◌, refl, arith, List, [], ◌∷◌, ◌++◌, length, drop, get_or, ◌≢◌,
  All, ◌↔◌, dec_le,
}
use urbi_embedded.Shared.Order.{lt_wf}
use urbi_embedded.Varint.{
  Decoded, ok, truncated, oversize, zigzag, unzigzag, size_loop, uvarint_size_u, uvarint_size_zz,
  write_loop, uvarint_write_u, uvarint_write_zz, decode_loop, uvarint_decode_u, uvarint_decode_zz,
}
use urbi_embedded.Varint.Encode.{size_u_width, write_u_range}
use urbi_embedded.Varint.RoundTrip.{decode_u-write_u}
use urbi_embedded.Varint.Decode.{decode_u_bounds, decode_u_truncated, decode_u-append, IsContinued}
use urbi_embedded.Varint.Zigzag.{
  zigzag_values, unzigzag-zigzag, decode_zz-write_zz, decode_zz_bounds,
}

abbrev untouched : Decoded
untouched = record { rc = ok; value = 77; consumed = 5 }

abbrev blank : List ℕ
blank = 1 ∷ 2 ∷ 3 ∷ 4 ∷ []

abbrev padded : List ℕ
padded = 0x80 ∷ 0x80 ∷ 0x80 ∷ 0x80 ∷ 0x80 ∷ 0x80 ∷ 0x80 ∷ 0x80 ∷ 0x80 ∷ []

write_300 : uvarint_write_u blank 1 300 ≡ (1 ∷ 0xac ∷ 0x02 ∷ 4 ∷ [], 3)
unfolding uvarint_write_u write_loop lt_wf dec_le
write_300 = refl

size_max : uvarint_size_u (2 ^ 64 - 1) ≡ 10
unfolding uvarint_size_u size_loop lt_wf dec_le
size_max = refl

decode_300 :
    uvarint_decode_u (0xac ∷ 0x02 ∷ 9 ∷ []) untouched
    ≡ record { rc = ok; value = 300; consumed = 2 }
unfolding uvarint_decode_u decode_loop
decode_300 = refl

-- The tenth byte has room for one digit.
decode_top : (uvarint_decode_u (padded ++ 2 ∷ []) untouched).rc ≡ oversize
unfolding uvarint_decode_u decode_loop
decode_top = refl

zigzag_minus_one : zigzag (2 ^ 64 - 1) ≡ 1
unfolding zigzag
zigzag_minus_one = refl

size_u_width_example :
    (1 ≤ uvarint_size_u 300)
    × (uvarint_size_u 300 ≤ 10)
    × ((uvarint_size_u 300 ≤ 1 + 1) ↔ (300 < 128 ^ 2))
size_u_width_example = size_u_width 300 1 (omega arith) (omega arith)

write_u_range_example :
    ((uvarint_write_u blank 1 300).1 ≡ 1 + uvarint_size_u 300)
    × (length (uvarint_write_u blank 1 300).0 ≡ 4)
    × (get_or (uvarint_write_u blank 1 300).0 0 0 ≡ 1)
write_u_range_example = write_u_range blank 1 300 0 (omega arith) (omega arith)

decode_u-write_u_example :
    uvarint_decode_u (drop 1 (uvarint_write_u blank 1 300).0) untouched
    ≡ record { rc = ok; value = 300; consumed = uvarint_size_u 300 }
unfolding uvarint_size_u size_loop lt_wf dec_le
decode_u-write_u_example = decode_u-write_u blank 1 300 untouched (omega arith) (omega arith)

decode_u_bounds_example :
    let d = uvarint_decode_u (0xac ∷ 0x02 ∷ []) untouched in
    (d.rc ≡ ok → (1 ≤ d.consumed) × (d.consumed ≤ 2) × (d.consumed ≤ 10) × (d.value < 2 ^ 64))
    × (d.rc ≢ ok → (d.value ≡ 77) × (d.consumed ≡ 5))
decode_u_bounds_example = decode_u_bounds (0xac ∷ 0x02 ∷ []) untouched

decode_u_truncated_example :
    ((uvarint_decode_u (0xac ∷ []) untouched).rc ≡ truncated)
    ↔ (All IsContinued (0xac ∷ []) × (1 ≤ 9))
decode_u_truncated_example = decode_u_truncated (0xac ∷ []) untouched

decode_u-append_example :
    uvarint_decode_u (0xac ∷ 0x02 ∷ 9 ∷ []) untouched
    ≡ uvarint_decode_u (0xac ∷ 0x02 ∷ []) untouched
unfolding uvarint_decode_u decode_loop
decode_u-append_example = decode_u-append (0xac ∷ 0x02 ∷ []) (9 ∷ []) untouched (λ e. cc)

zigzag_values_example : (zigzag 2 ≡ 2 * 2) × (zigzag (2 ^ 64 - 1 - 2) ≡ 2 * 2 + 1)
zigzag_values_example = zigzag_values 2 (omega arith)

unzigzag-zigzag_example : unzigzag (zigzag (2 ^ 64 - 3)) ≡ 2 ^ 64 - 3
unzigzag-zigzag_example = unzigzag-zigzag (2 ^ 64 - 3) (omega arith)

decode_zz-write_zz_example :
    uvarint_decode_zz (drop 1 (uvarint_write_zz blank 1 (2 ^ 64 - 3)).0) untouched
    ≡ record { rc = ok; value = 2 ^ 64 - 3; consumed = uvarint_size_zz (2 ^ 64 - 3) }
unfolding uvarint_size_zz zigzag uvarint_size_u size_loop lt_wf dec_le
decode_zz-write_zz_example =
    decode_zz-write_zz blank 1 (2 ^ 64 - 3) untouched (omega arith) (omega arith)

decode_zz_bounds_example :
    let d = uvarint_decode_zz (0xac ∷ []) untouched in
    (d.rc ≡ ok → (1 ≤ d.consumed) × (d.consumed ≤ 1) × (d.consumed ≤ 10))
    × (d.rc ≢ ok → (d.value ≡ 77) × (d.consumed ≡ 0))
    × (d.rc ≡ (uvarint_decode_u (0xac ∷ []) (record untouched { value = 0 })).rc)
decode_zz_bounds_example = decode_zz_bounds (0xac ∷ []) untouched
