-- ===== src/Loader/Tree.antt =====
-- src/chunk/uchunk_io.c: a proto with its nested protos, and uchunk_deserialize. Serial numbers, back
-- pointers and the release of what a failing load has allocated are left out.
use urbi_embedded.Shared.{
  ℕ, zero, suc, ◌+◌, ◌*◌, Bool, true, false, not, ◌&&◌, List, Option, none, some, ltb, leb, ◌==◌,
  if◌then◌else◌, length,
}
use urbi_embedded.Chunk.Proto.{corrupt, invalid_arg, Load, ok, err, fault}
use urbi_embedded.Chunk.Bounds.{verify_chunk}
use urbi_embedded.Loader.Image.{Image, image, Images, none_left, nested, Chunk, view}
use urbi_embedded.Loader.Input.{
  Input, Reader, ◌>>=◌, ◌>>◌, ret, fail, refuse, check_room, next_byte, decode_varint_u, request,
}
use urbi_embedded.Loader.Sections.{
  decode_header, decode_metadata, decode_constants_into, decode_instructions_into,
  decode_line_table_into, decode_site_names_into,
}

-- `*out_root`, with the return code.
abbrev pub answered : Load (Chunk × Input) → Load Chunk
answered (ok (c, d)) = ok c
answered (err rc) = err rc
answered fault = fault

-- `proto_size` is `sizeof(UProto)`.
module _ (alloc : ℕ → Bool) (proto_size : ℕ) where
  -- The capacity of the `nested` array, after the growth that one more entry may need.
  unfoldable pub nested_room : ℕ → ℕ → Reader ℕ
  nested_room count room =
      let new_cap = if room == 0 then 4 else room * 2 in
      if leb room count then (do request alloc (new_cap * 8); ret new_cap) else ret room

  -- `deeper` says whether the depth of a child is within UCHUNK_MAX_PROTO_DEPTH.
  unfoldable pub nested_loop : Bool → Reader Image → (left count room : ℕ) → Reader Images
  nested_loop deeper decode_child zero count room = ret none_left
  nested_loop deeper decode_child (suc left) count room = do
    refuse (not deeper) corrupt
    room' ← nested_room count room
    request alloc proto_size
    p ← decode_child
    ps ← nested_loop deeper decode_child left (count + 1) room'
    ret (nested p ps)

  unfoldable pub decode_nested_protos_into : Bool → Reader Image → Reader Images
  decode_nested_protos_into deeper decode_child = do
    n_nested ← decode_varint_u
    refuse (ltb 1024 n_nested) corrupt
    nested_loop deeper decode_child n_nested 0 0

  -- The fields before the nested protos, and these as `decode_child` reads them.
  unfoldable pub decode_fields : ℕ → Bool → Reader Image → Reader Image
  decode_fields arity_flag deeper decode_child = do
    check_room 3
    max_reg ← next_byte
    nupvals ← next_byte
    nparams ← next_byte
    refuse (ltb (max_reg + 1) (nparams + (if not (arity_flag == 0) && ltb 0 nparams then 1 else 0)))
        corrupt
    constants ← decode_constants_into alloc
    instructions ← decode_instructions_into alloc
    (line_deltas, abs_lines) ← decode_line_table_into alloc (length instructions)
    site_names ← decode_site_names_into alloc
    ps ← decode_nested_protos_into deeper decode_child
    ret (
        image
          (record {
            max_reg = max_reg;
            nupvals = nupvals;
            nparams = nparams;
            arity_prologue = arity_flag;
            constants = constants;
            instructions = instructions;
            line_deltas = line_deltas;
            abs_lines = abs_lines;
            site_names = site_names;
          })
          ps)

  -- `levels` is UCHUNK_MAX_PROTO_DEPTH less the depth of the proto.
  unfoldable pub decode_proto : ℕ → ℕ → Reader Image
  decode_proto arity_flag zero = decode_fields arity_flag false (fail corrupt)
  decode_proto arity_flag (suc levels) =
      decode_fields arity_flag true (decode_proto arity_flag levels)

  unfoldable pub decode_trailer : Reader (Unit {0})
  decode_trailer d = if not (length d.rest == 0) then err corrupt else ok (tt, d)

  unfoldable pub verify_root : Image → Reader (Unit {0})
  verify_root root d = elim (verify_chunk alloc (view root)) [
    | ok _ ↦ ok (tt, d)
    | err rc ↦ err rc
    | fault ↦ fault
  ]

  unfoldable pub load_chunk : Reader Chunk
  load_chunk = do
    request alloc proto_size
    arity_flag ← decode_header
    name ← decode_metadata alloc
    root ← decode_proto arity_flag 64
    decode_trailer
    verify_root root
    ret (record { source_name = name; root = root })

  -- A NULL `buf` is `none`.
  unfoldable pub uchunk_deserialize : Option (List ℕ) → Load Chunk
  uchunk_deserialize none = err invalid_arg
  uchunk_deserialize (some buf) = answered (load_chunk (record { off = 0; rest = buf }))
