-- ===== src/Chunk/Bounds.antt =====
-- src/chunk/uchunk_verify.c, pass 2: the upvalue preludes, and every control transfer's target.
-- `alloc nbytes` says whether the caller's allocator serves a request of that size.
pub mod Marks
pub mod Preludes
pub mod Transfers
pub mod Alloc
pub mod Exact
use urbi_embedded.Shared.{
  ℕ, zero, suc, ◌+◌, ◌-◌, ◌*◌, ◌/◌, ◌%◌, ◌^◌, Bool, true, false, not, ◌&&◌, ◌||◌, List, Option,
  none, some, leb, ltb, ◌==◌, if◌then◌else◌, length, get_elem?, get_or,
}
use urbi_embedded.Chunk.Op
use urbi_embedded.Chunk.Word.{uinstr_op, uinstr_a, uinstr_b, uinstr_c, uinstr_bx}
use urbi_embedded.Chunk.Shape.{
  OpcodeFormat, BxKind, OpcodeShape, abc, abx, opcode_shapes, handler_pc,
}
use urbi_embedded.Chunk.Proto.{
  LoadError, oom, truncated_upvalues, malformed_upvalue, jmp_out_of_bounds, call_nresults_zero,
  bad_extarg, bad_target, Load, ok, err, fault, ◌>>=◌, ◌>>◌, refuse, Block, Proto, Protos, proto,
  nil, absent, child, child_nupvals,
}
use urbi_embedded.Chunk.Walk.{no_shape, verify_proto_recursive}
use urbi_embedded.Chunk.Bitmap.{is_prelude_word, mark_word, new_bitmap}

unfoldable pub verify_target : Block → Option (List ℕ) → ℕ → ℕ → Load (Unit {0})
verify_target blk prelude op target =
    if leb (length blk.instructions) target
    then err (if op == Op.jmp then jmp_out_of_bounds else bad_target)
    else if is_prelude_word prelude target
    then err bad_target
    else refuse
        (ltb 0 target
          && not (is_prelude_word prelude (target - 1))
          && uinstr_op (get_or blk.instructions (target - 1) 0) == Op.extarg)
        bad_extarg

unfoldable pub op_may_skip : ℕ → Bool
op_may_skip ins =
    let op = uinstr_op ins in
    (op == Op.loadbool && not (uinstr_c ins == 0))
    || op == Op.test
    || op == Op.testset
    || op == Op.eq
    || op == Op.lt
    || op == Op.le

-- One prelude word: `in_stack` is 0 or 1, and `src_idx` names a register or an upvalue of `blk`.
unfoldable pub bad_upvalue : Block → ℕ → Bool
bad_upvalue blk pv =
    if uinstr_b pv == 0 then leb blk.nupvals (uinstr_c pv) else ltb blk.max_reg (uinstr_c pv)

-- `for (k = 1; k <= nupvals; k++)`, with `left` rounds to go.
unfoldable pub mark_loop : ℕ → Block → ℕ → ℕ → List ℕ → Load (List ℕ)
mark_loop zero blk vi k bytes = ok bytes
mark_loop (suc left) blk vi k bytes =
    let pv = get_or blk.instructions (vi + k) 0 in
    let rest = mark_loop left blk vi (k + 1) (mark_word bytes (vi + k)) in
    refuse (ltb 1 (uinstr_b pv)) malformed_upvalue
    >> refuse (bad_upvalue blk pv) malformed_upvalue
    >> rest

-- The bitmap, made at the first non-empty prelude.
unfoldable pub bitmap_for : (ℕ → Bool) → Block → Option (List ℕ) → Load (List ℕ)
bitmap_for alloc blk (some bytes) = ok bytes
bitmap_for alloc blk none =
    refuse (not (alloc ((length blk.instructions + 7) / 8))) oom
    >> ok (new_bitmap (length blk.instructions))

unfoldable pub mark_prelude : (ℕ → Bool) → Block → Option (List ℕ) → ℕ → ℕ → Load (Option (List ℕ))
mark_prelude alloc blk prelude vi zero = ok prelude
mark_prelude alloc blk prelude vi (suc n) = do
  zeroed ← bitmap_for alloc blk prelude
  bytes ← mark_loop (suc n) blk vi 1 zeroed
  ok (some bytes)

-- One round on the word at `vi`: the bitmap and the next `vi`.
unfoldable pub prelude_step :
    (ℕ → Bool) → Block → Protos → Option (List ℕ) → ℕ → ℕ → Load (Option (List ℕ) × ℕ)
prelude_step alloc blk nested prelude vi ins =
    if uinstr_op ins == Op.closure
    then elim (child_nupvals nested (uinstr_bx ins)) [
      | none ↦ fault
      | some nupvals ↦
          refuse (leb (length blk.instructions) (vi + nupvals)) truncated_upvalues
          >> (mark_prelude alloc blk prelude vi nupvals >>= λ p. ok (p, vi + nupvals + 1))
    ]
    else ok (prelude, vi + 1)

unfoldable pub prelude_loop :
    ℕ → (ℕ → Bool) → Block → Protos → Option (List ℕ) → ℕ → Load (Option (List ℕ))
prelude_loop zero alloc blk nested prelude vi = ok prelude
prelude_loop (suc fuel) alloc blk nested prelude vi = elim (get_elem? blk.instructions vi) [
  | none ↦ ok prelude
  | some ins ↦ prelude_step alloc blk nested prelude vi ins >>= λ r.
      prelude_loop fuel alloc blk nested r.0 r.1
]

unfoldable pub verify_preludes : (ℕ → Bool) → Block → Protos → Load (Option (List ℕ))
verify_preludes alloc blk nested = prelude_loop (length blk.instructions) alloc blk nested none 0

-- `Bx` is a signed offset with bias 32768; a forward one counts from the next instruction, a
-- backward one from the jump. `none` is a negative target.
unfoldable pub jmp_target : ℕ → ℕ → Option ℕ
jmp_target vi bx =
    if leb 32768 bx
    then some (vi + (bx - 32768) + 1)
    else if ltb (vi + bx) 32768
    then none
    else some (vi + bx - 32768)

unfoldable pub is_handler : OpcodeFormat → BxKind → Bool
is_handler abx handler_pc = true
is_handler _ _ = false

-- The rules for one real instruction.
unfoldable pub transfer_step : Block → Option (List ℕ) → ℕ → ℕ → Load (Unit {0})
transfer_step blk prelude vi ins =
    let op = uinstr_op ins in
    let shape = get_or opcode_shapes op no_shape in
    if op == Op.jmp
    then elim (jmp_target vi (uinstr_bx ins)) [
      | none ↦ err jmp_out_of_bounds
      | some target ↦ verify_target blk prelude op target
    ]
    else if op == Op.call
    then refuse (uinstr_c ins % 2 ^ 7 == 0) call_nresults_zero
    else if op_may_skip ins
    then verify_target blk prelude op (vi + 2)
    else if is_handler shape.format shape.bx_kind
    then verify_target blk prelude op (uinstr_bx ins)
    else ok tt

unfoldable pub transfer_loop : ℕ → Block → Option (List ℕ) → ℕ → Load (Unit {0})
transfer_loop zero blk prelude vi = ok tt
transfer_loop (suc left) blk prelude vi = elim (get_elem? blk.instructions vi) [
  | none ↦ ok tt
  | some ins ↦
      (if is_prelude_word prelude vi then ok tt else transfer_step blk prelude vi ins)
      >> transfer_loop left blk prelude (vi + 1)
]

unfoldable pub verify_transfers : Block → Option (List ℕ) → Load (Unit {0})
verify_transfers blk prelude = transfer_loop (length blk.instructions) blk prelude 0

unfoldable pub verify_bounds_block : (ℕ → Bool) → Block → Protos → Load (Unit {0})
verify_bounds_block alloc blk nested = verify_preludes alloc blk nested >>= verify_transfers blk

unfoldable mutual
  pub verify_bounds_proto : (ℕ → Bool) → Proto → Load (Unit {0})
  verify_bounds_proto alloc (proto blk nested) =
      let children = verify_bounds_nested alloc nested in
      verify_bounds_block alloc blk nested >> children

  pub verify_bounds_nested : (ℕ → Bool) → Protos → Load (Unit {0})
  verify_bounds_nested alloc nil = ok tt
  verify_bounds_nested alloc (absent ps) = verify_bounds_nested alloc ps
  verify_bounds_nested alloc (child p ps) =
      let rest = verify_bounds_nested alloc ps in verify_bounds_proto alloc p >> rest

-- The two passes as `uchunk_deserialize` runs them on the decoded root.
unfoldable pub verify_chunk : (ℕ → Bool) → Proto → Load (Unit {0})
verify_chunk alloc root = verify_proto_recursive root >> verify_bounds_proto alloc root
