-- ===== src/Chunk/Safety/Defined.antt =====
-- src/chunk/uchunk_verify.c, pass 1: its reads through a child of the proto, which is NULL for an absent
-- one. Its reads at an index take a default past the end here, and nothing is said of them.
use urbi_embedded.Shared.{
  ℕ, zero, suc, ◌≢◌, refl, inl, inr, Bool, true, false, List, arith, length, get_elem?, get_or,
  Option-cases,
}
use urbi_embedded.Chunk.Word.{uinstr_op, uinstr_a, uinstr_b, uinstr_bx, uinstr_c}
use urbi_embedded.Chunk.Shape.{
  OperandKind, BxKind, OpcodeShape, opcode_shapes, reg, reg_or_none, imm_bool, imm_mode, pool_index,
  nested_index, handler_pc,
}
use urbi_embedded.Chunk.Proto.{
  LoadError, Load, ok, err, fault, ◌>>=◌, refuse, Block, Protos, nested_count,
}
use urbi_embedded.Chunk.Walk.{
  no_shape, verify_byte_operand, verify_abc_rules, verify_bx, verify_abc, verify_abx, closure_skip,
  verify_shape, Walk, walk_start, walk_step, walk_loop, verify_walk_block,
}

pub refuse-defined : (b : Bool) (e : LoadError) → refuse b e ≢ fault
refuse-defined true e h = cc
refuse-defined false e h = cc

pub >>=-defined {ℓ κ} :
    {A : Type ℓ} {B : Type κ} (m : Load A) (f : A → Load B)
    → m ≢ fault
    → ((a : A) → f a ≢ fault)
    → (m >>= f) ≢ fault
>>=-defined (ok a) f h k = k a
>>=-defined (err e) f h k = λ e'. cc
>>=-defined fault f h k = absurd (h refl)

operand-defined : (v : ℕ) (k : OperandKind) (m : ℕ) → verify_byte_operand v k m ≢ fault
unfolding verify_byte_operand
operand-defined v reg m = refuse-defined _ _
operand-defined v reg_or_none m = refuse-defined _ _
operand-defined v imm_bool m = refuse-defined _ _
operand-defined v imm_mode m = refuse-defined _ _
operand-defined v _ m = λ e. cc

bx-defined : (bx : ℕ) (k : BxKind) (c i n : ℕ) → verify_bx bx k c i n ≢ fault
unfolding verify_bx
bx-defined bx pool_index c i n = refuse-defined _ _
bx-defined bx nested_index c i n = refuse-defined _ _
bx-defined bx handler_pc c i n = refuse-defined _ _
bx-defined bx _ c i n = λ e. cc

rules-defined : (op a b c : ℕ) (l : List ℕ) (vi m : ℕ) → verify_abc_rules op a b c l vi m ≢ fault
unfolding verify_abc_rules
rules-defined op a b c l vi m = λ h. ground arith

module _ (blk : Block) (nested : Protos) where
  abc-defined : (vi ext op : ℕ) (sh : OpcodeShape) (w : ℕ) → verify_abc blk vi ext op sh w ≢ fault
  unfolding verify_abc
  abc-defined vi ext op sh w h = ground (
    arith,
    operand-defined (uinstr_b w) sh.b_kind blk.max_reg,
    operand-defined (uinstr_c w) sh.c_kind blk.max_reg,
    rules-defined op (uinstr_a w) (uinstr_b w) (uinstr_c w) blk.instructions vi blk.max_reg,
  )

  skip-defined : (vi bx : ℕ) → closure_skip blk nested vi bx ≢ fault
  unfolding closure_skip
  skip-defined vi bx h = ground arith

  abx-defined : (vi op : ℕ) (sh : OpcodeShape) (w : ℕ) → verify_abx blk nested vi op sh w ≢ fault
  unfolding verify_abx
  abx-defined vi op sh w h = ground (
    arith,
    bx-defined (uinstr_bx w) sh.bx_kind blk.const_count (length blk.instructions)
        (nested_count nested),
    skip-defined vi (uinstr_bx w),
  )

  shape-defined :
      (vi ext op : ℕ) (sh : OpcodeShape) (w : ℕ) → verify_shape blk nested vi ext op sh w ≢ fault
  unfolding verify_shape
  shape-defined vi ext op sh w h = ground (
    arith,
    operand-defined (uinstr_a w) sh.a_kind blk.max_reg,
    abc-defined vi ext op sh w,
    abx-defined vi op sh w,
  )

  step-defined : (s : Walk) (w : ℕ) → walk_step blk nested s w ≢ fault
  unfolding walk_step
  step-defined s w h = ground (
    arith,
    shape-defined s.vi s.ext (uinstr_op w) (get_or opcode_shapes (uinstr_op w) no_shape) w,
  )

  loop-defined : (fuel : ℕ) (s : Walk) → walk_loop fuel blk nested s ≢ fault
  unfolding walk_loop
  loop-defined zero s h = cc
  loop-defined (suc fuel) s h = elim (Option-cases (get_elem? blk.instructions s.vi)) [
    | inl e ↦ ground arith
    | inr (w, e) ↦
        >>=-defined (walk_step blk nested s w) (walk_loop fuel blk nested) (step-defined s w)
          (loop-defined fuel) (rw (e, walk_loop) at h)
  ]

  pub verify_walk_block-defined : verify_walk_block blk nested ≢ fault
  unfolding verify_walk_block
  verify_walk_block-defined h = ground (arith, loop-defined (length blk.instructions) walk_start)
