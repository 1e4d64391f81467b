-- ===== src/Loader/Runs.antt =====
-- src/chunk/uchunk_io.c and src/emit/uemit_serialize.c: a small chunk written and read, and the theorems at it.
use urbi_embedded.Shared.{
  ℕ, ◌+◌, ◌-◌, ◌*◌, ◌^◌, ◌≡◌, refl, arith, Bool, ◌&&◌, true, List, [], ◌∷◌, ◌++◌, none, some,
  if◌then◌else◌, length, replicate, take, drop, ltb,
}
use urbi_embedded.Varint.{zigzag, uvarint_decode_u, decode_loop}
use urbi_embedded.Varint.Encode.{leb128}
use urbi_embedded.Chunk.Op
use urbi_embedded.Chunk.Proto.{ok, err, fault, truncated, oom}
use urbi_embedded.Chunk.Word.{uinstr_op, uinstr_a, uinstr_b, uinstr_c, uinstr_bx}
use urbi_embedded.Chunk.Walk.{
  walk_loop, walk_step, verify_shape, verify_abc, verify_abx, closure_skip, verify_byte_operand,
  verify_bx, verify_abc_rules, is_site, op_takes_site, not_joining_fork, bad_scope_pop,
  verify_walk_block, verify_proto_recursive,
}
use urbi_embedded.Chunk.Bitmap.{is_prelude_word, mark_word, new_bitmap}
use urbi_embedded.Chunk.Bounds.{
  verify_target, op_may_skip, bad_upvalue, mark_loop, bitmap_for, mark_prelude, prelude_step,
  prelude_loop, verify_preludes, jmp_target, is_handler, transfer_step, transfer_loop,
  verify_transfers, verify_bounds_block, verify_bounds_proto, verify_chunk,
}
use urbi_embedded.Loader.Image.{int, str, Body, image, none_left, nested, Chunk, view, view_nested}
use urbi_embedded.Loader.Valid.{IsBody, IsImage, AreImages, IsChunk}
use urbi_embedded.Loader.Input.{
  ◌>>=◌, request, decode_varint_u, after_varint, copy_bytes, check_room,
}
use urbi_embedded.Loader.Sections.{bytes_eq, decode_header, decode_metadata}
use urbi_embedded.Loader.Tree.{load_chunk, uchunk_deserialize}
use urbi_embedded.Loader.Round.{IsText}
use urbi_embedded.Loader.RoundTree.{HasTexts, HaveTexts}
use urbi_embedded.Loader.RoundTrip.{deserialize-serialize}
use urbi_embedded.Writer.Sink.{c_string}
use urbi_embedded.Writer.Emit.{need, too_small, written, uchunk_serialize}
use urbi_embedded.Writer.Format.{chunk_bytes, proto_bytes, body_bytes}
use urbi_embedded.Writer.Fits.{IsChunk-FitsChunk}
use urbi_embedded.Writer.Serialize.{uchunk_serialize_lem}

abbrev serving : ℕ → Bool
serving nbytes = true

-- An allocator that serves what an object can hold.
abbrev bounded : ℕ → Bool
bounded nbytes = ltb nbytes (2 ^ 63)

abbrev load_and_return : List ℕ
load_and_return =
    (Op.loadk + 1 * 2 ^ 8) ∷ Op.extarg ∷ (Op.getslot + 1 * 2 ^ 16) ∷ (Op.ret + 1 * 2 ^ 8) ∷ []

abbrev leaf : Body
leaf = record {
  max_reg = 2;
  nupvals = 0;
  nparams = 1;
  arity_prologue = 1;
  constants = int (2 ^ 64 - 3) ∷ str (b'h' ∷ b'i' ∷ []) ∷ [];
  instructions = load_and_return;
  line_deltas = 0 ∷ 255 ∷ 1 ∷ 1 ∷ [];
  abs_lines = record { pc = 1; line = 300 } ∷ [];
  site_names = some (b'a' ∷ []) ∷ [];
}

abbrev small : Chunk
small = record {
  source_name = b'u' ∷ [];
  root = image leaf (nested (image leaf none_left) none_left);
}

leaf-IsBody : IsBody 1 leaf
leaf-IsBody = record {
  flag = refl;
  frame = omega arith;
  const_count = omega arith;
  constants = omega arith;
  instr_count = omega arith;
  words = omega arith;
  deltas = refl;
  abs_count = omega arith;
  lines = (omega arith, refl, omega arith, tt);
  site_count = omega arith;
  names = omega arith;
}

small-IsChunk : IsChunk small
unfolding IsImage AreImages
small-IsChunk = record {
  arity_flag = 1;
  is_flag = omega arith;
  name = omega arith;
  root = (leaf-IsBody, omega arith, ((leaf-IsBody, omega arith, tt), tt));
}

small-length : length (chunk_bytes small) ≡ 109
unfolding chunk_bytes proto_bytes body_bytes leb128 c_string zigzag
small-length = refl

small_accepted : verify_chunk serving (view small.root) ≡ ok tt
unfolding view view_nested verify_chunk verify_bounds_proto verify_proto_recursive
    verify_bounds_block verify_transfers transfer_loop transfer_step is_handler jmp_target
    verify_preludes prelude_loop prelude_step mark_prelude bitmap_for mark_loop bad_upvalue
    op_may_skip verify_target is_prelude_word mark_word new_bitmap verify_walk_block walk_loop
    walk_step verify_shape verify_abc verify_abx closure_skip is_site op_takes_site not_joining_fork
    bad_scope_pop verify_abc_rules verify_bx verify_byte_operand uinstr_op uinstr_a uinstr_b
    uinstr_c uinstr_bx
small_accepted = refl

small-IsText : IsText small.source_name
unfolding c_string
small-IsText = refl

small-HasTexts : HasTexts small.root
unfolding c_string HasTexts HaveTexts
small-HasTexts = ((tt, (refl, tt)), (refl, tt), (((tt, (refl, tt)), (refl, tt), tt), tt))

-- A good header, and then the length of the source's name.
abbrev sevens : List ℕ
sevens = replicate 200 7

abbrev header_and : List ℕ → List ℕ
header_and bytes =
    b'U'
      ∷ b'R'
      ∷ b'B'
      ∷ b'I'
      ∷ 0x20
      ∷ 1
      ∷ 0x19
      ∷ 0x93
      ∷ 13
      ∷ 10
      ∷ 0x1A
      ∷ 10
      ∷ 8
      ∷ 8
      ∷ 4
      ∷ 0
      ∷ replicate 8 0
    ++ bytes

-- 2 ^ 64 - 30
abbrev huge_name : List ℕ
huge_name = header_and (226 ∷ replicate 8 255 ++ 1 ∷ [])

abbrev long_name : List ℕ
long_name = header_and (40 ∷ b'u' ∷ [])

truncated_name : uchunk_deserialize bounded 200 (some long_name) ≡ err truncated
unfolding uchunk_deserialize load_chunk ◌>>=◌ decode_header decode_metadata request bytes_eq
    decode_varint_u after_varint copy_bytes uvarint_decode_u decode_loop check_room
truncated_name = refl

-- The sum of the offset and the length wraps, so that the test for room passes, and the allocator is asked.
huge_name_oom : uchunk_deserialize bounded 200 (some huge_name) ≡ err oom
unfolding uchunk_deserialize load_chunk ◌>>=◌ decode_header decode_metadata request bytes_eq
    decode_varint_u after_varint copy_bytes uvarint_decode_u decode_loop check_room
huge_name_oom = refl

-- The copy then reads past the end of the buffer.
huge_name_overread : uchunk_deserialize serving 200 (some huge_name) ≡ fault
unfolding uchunk_deserialize load_chunk ◌>>=◌ decode_header decode_metadata request bytes_eq
    decode_varint_u after_varint copy_bytes uvarint_decode_u decode_loop check_room
huge_name_overread = refl

uchunk_serialize_lem_example :
    (uchunk_serialize small none ≡ need (length (chunk_bytes small)))
    × (uchunk_serialize small (some sevens) ≡ (
        if ltb (length sevens) (length (chunk_bytes small))
        then too_small
        else written
            (length (chunk_bytes small))
            (chunk_bytes small ++ drop (length (chunk_bytes small)) sevens)))
uchunk_serialize_lem_example =
    uchunk_serialize_lem small sevens (IsChunk-FitsChunk small small-IsChunk)

deserialize-serialize_example :
    (out : List ℕ) × (uchunk_serialize small (some sevens)
      ≡ written (length (chunk_bytes small)) out)
    × (uchunk_deserialize serving 200 (some (take (length (chunk_bytes small)) out)) ≡ ok small)
deserialize-serialize_example =
    deserialize-serialize serving (λ n. refl) 200 (omega arith) small (length (chunk_bytes small))
      sevens small-IsChunk small-IsText small-HasTexts small_accepted
      ((uchunk_serialize_lem small [] (IsChunk-FitsChunk small small-IsChunk)).0)
      (omega (arith, small-length)) (omega (arith, small-length))

abbrev all_small : List ℕ → Bool
all_small [] = true
all_small (x ∷ xs) = ltb x 256 && all_small xs
