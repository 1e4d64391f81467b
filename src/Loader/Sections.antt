-- ===== src/Loader/Sections.antt =====
-- src/chunk/uchunk_io.c: the header, the metadata, and the sections of a proto.
use urbi_embedded.Shared.{
  ℕ, zero, suc, ◌+◌, ◌*◌, ◌%◌, ◌^◌, bit_or, Bool, true, false, not, ◌&&◌, List, [], ◌∷◌, Option,
  some, ltb, leb, ◌==◌, if◌then◌else◌, length, drop, get_or,
}
use urbi_embedded.Chunk.Proto.{
  bad_magic, unsupported_version, flavor_mismatch, truncated, corrupt_tag, corrupt, oversized, Load,
  ok, err,
}
use urbi_embedded.Loader.Image.{Constant, int, float, str, AbsLine}
use urbi_embedded.Loader.Input.{
  Input, Reader, ◌>>=◌, ◌>>◌, ret, fail, refuse, size, advance, check_room, next_byte, copy_bytes,
  decode_varint_u, decode_varint_zz, request, make_room,
}

-- `urbi_memeq` on two regions of the same length
unfoldable pub bytes_eq : List ℕ → List ℕ → Bool
bytes_eq [] ys = true
bytes_eq (x ∷ xs) [] = false
bytes_eq (x ∷ xs) (y ∷ ys) = x == y && bytes_eq xs ys

abbrev pub magic : List ℕ
magic = b'U' ∷ b'R' ∷ b'B' ∷ b'I' ∷ []

-- `URBI_BYTECODE_CANARY`
abbrev pub canary : List ℕ
canary = 0x19 ∷ 0x93 ∷ 13 ∷ 10 ∷ 0x1A ∷ 10 ∷ []

abbrev pub version_byte : ℕ
version_byte = 2 * 2 ^ 4 + 0

abbrev pub reserved : List ℕ
reserved = 0 ∷ 0 ∷ 0 ∷ 0 ∷ 0 ∷ 0 ∷ 0 ∷ 0 ∷ []

-- The result is `arity_flag`.
unfoldable pub decode_header : Reader ℕ
decode_header d =
    let at = λ (i : ℕ). get_or d.rest i 0 in
    if ltb (size d) 24
    then err truncated
    else if not (bytes_eq magic d.rest)
    then err bad_magic
    else if not (at 4 == version_byte)
    then err unsupported_version
    else if not (bytes_eq canary (drop 6 d.rest))
    then err bad_magic
    else if not (at 12 == 8)
    then err flavor_mismatch
    else if not (at 13 == 8)
    then err flavor_mismatch
    else if not (at 14 == 4)
    then err flavor_mismatch
    else if not (at 15 == 0)
    then err flavor_mismatch
    else if not (bytes_eq reserved (drop 16 d.rest))
    then err corrupt
    else ok (at 5 % 2, advance 24 d)

-- `while ((d->off & 3U) != 0U)`
unfoldable pub skip_padding : List ℕ → ℕ → Load (Unit {0} × Input)
skip_padding [] off =
    if off % 4 == 0 then ok (tt, record { off = off; rest = [] }) else err truncated
skip_padding (b ∷ rest) off =
    let more = skip_padding rest (off + 1) in
    if off % 4 == 0
    then ok (tt, record { off = off; rest = b ∷ rest })
    else if not (b == 0)
    then err corrupt
    else more

unfoldable pub align4 : Reader (Unit {0})
align4 d = skip_padding d.rest d.off

-- `if (n > d->size - d->off) return UCHUNK_LOAD_CORRUPT;`
unfoldable pub check_left : ℕ → Reader (Unit {0})
check_left n d = if ltb (length d.rest) n then err corrupt else ok (tt, d)

unfoldable pub decode_word : Reader ℕ
decode_word = do
  check_room 4
  b0 ← next_byte
  b1 ← next_byte
  b2 ← next_byte
  b3 ← next_byte
  ret (bit_or (bit_or (bit_or b0 (b1 * 2 ^ 8)) (b2 * 2 ^ 16)) (b3 * 2 ^ 24))

unfoldable pub words_loop : ℕ → Reader (List ℕ)
words_loop zero = ret []
words_loop (suc left) = do w ← decode_word; ws ← words_loop left; ret (w ∷ ws)

-- `first` is `i == 0`.
unfoldable pub abs_lines_loop : ℕ → ℕ → Bool → ℕ → Reader (List AbsLine)
abs_lines_loop instr_count zero first prev = ret []
abs_lines_loop instr_count (suc left) first prev = do
  pc64 ← decode_varint_u
  line64 ← decode_varint_u
  refuse (leb instr_count pc64) corrupt
  refuse (not first && leb (pc64 % 2 ^ 32) prev) corrupt
  ls ← abs_lines_loop instr_count left false (pc64 % 2 ^ 32)
  ret (record { pc = pc64 % 2 ^ 32; line = line64 % 2 ^ 32 } ∷ ls)

module _ (alloc : ℕ → Bool) where
  unfoldable pub decode_metadata : Reader (List ℕ)
  decode_metadata = do
    src_len ← decode_varint_u
    check_room src_len
    if src_len == 0 then ret [] else do request alloc ((src_len + 1) % 2 ^ 64); copy_bytes src_len

  unfoldable pub decode_string : Reader Constant
  decode_string = do
    slen ← decode_varint_u
    check_room slen
    request alloc ((slen + 1) % 2 ^ 64)
    s ← copy_bytes slen
    ret (str s)

  unfoldable pub decode_payload : ℕ → Reader Constant
  decode_payload kind =
      if ltb 4 kind
      then fail corrupt_tag
      else if kind == 1
      then (do v ← decode_varint_zz; ret (int v))
      else if kind == 2
      then (do check_room 8; f ← copy_bytes 8; ret (float f))
      else if kind == 4
      then decode_string
      else fail corrupt_tag

  unfoldable pub decode_constant : Reader Constant
  decode_constant = do check_room 1; kind ← next_byte; decode_payload kind

  unfoldable pub constants_loop : ℕ → Reader (List Constant)
  constants_loop zero = ret []
  constants_loop (suc left) = do c ← decode_constant; cs ← constants_loop left; ret (c ∷ cs)

  -- A `UValue` has 16 bytes.
  unfoldable pub decode_constants_into : Reader (List Constant)
  decode_constants_into = do
    n_const ← decode_varint_u
    refuse (ltb (2 ^ 16) n_const) corrupt
    make_room alloc n_const 16
    constants_loop n_const

  unfoldable pub decode_instructions_into : Reader (List ℕ)
  decode_instructions_into = do
    n_instr ← decode_varint_u
    refuse (ltb (2 ^ 20) n_instr) oversized
    align4
    make_room alloc n_instr 4
    words_loop n_instr

  unfoldable pub decode_deltas : ℕ → Reader (List ℕ)
  decode_deltas n_deltas =
      if n_deltas == 0
      then ret []
      else do request alloc n_deltas; check_room n_deltas; copy_bytes n_deltas

  -- A `UAbsLine` has eight bytes.
  unfoldable pub decode_line_table_into : ℕ → Reader (List ℕ × List AbsLine)
  decode_line_table_into instr_count = do
    n_deltas ← decode_varint_u
    refuse (not (n_deltas == instr_count)) corrupt
    deltas ← decode_deltas n_deltas
    n_abs ← decode_varint_u
    refuse (ltb instr_count n_abs) corrupt
    make_room alloc n_abs 8
    lines ← abs_lines_loop instr_count n_abs true 0
    ret (deltas, lines)

  unfoldable pub decode_site_name : Reader (Option (List ℕ))
  decode_site_name = do
    nlen ← decode_varint_u
    refuse (ltb 256 nlen) corrupt
    check_room nlen
    request alloc (nlen + 1)
    name ← copy_bytes nlen
    ret (some name)

  unfoldable pub site_names_loop : ℕ → Reader (List (Option (List ℕ)))
  site_names_loop zero = ret []
  site_names_loop (suc left) = do n ← decode_site_name; ns ← site_names_loop left; ret (n ∷ ns)

  unfoldable pub decode_site_names_into : Reader (List (Option (List ℕ)))
  decode_site_names_into = do
    count ← decode_varint_u
    refuse (ltb 65535 count) corrupt
    check_left count
    if count == 0 then ret [] else do request alloc (count * 8); site_names_loop count
