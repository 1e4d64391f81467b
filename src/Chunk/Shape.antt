-- ===== src/Chunk/Shape.antt =====
-- src/chunk/uopcode_shape.h and src/chunk/uopcode_shape.c: how the verifier reads each opcode's
-- operands. The rows stand in the order of the opcodes.
use urbi_embedded.Shared.{List, [], ◌∷◌}

-- `UOpcodeFormat`
pub data OpcodeFormat : Type 0 where
  abc abx : OpcodeFormat

-- `UOperandKind`
pub data OperandKind : Type 0 where
  unused reg imm_bool imm_flags upval_idx reg_or_none imm_mode imm_site imm_depth : OperandKind

-- `UBxKind`
pub data BxKind : Type 0 where
  unused pool_index nested_index jump_signed handler_pc symbol_id extarg : BxKind

-- `UOpcodeShape`
pub record OpcodeShape : Type 0 where
  pub format : OpcodeFormat
  pub a_kind : OperandKind
  pub b_kind : OperandKind
  pub c_kind : OperandKind
  pub bx_kind : BxKind

abbrev abc_shape : OperandKind → OperandKind → OperandKind → OpcodeShape
abc_shape a b c = record {
  format = abc;
  a_kind = a;
  b_kind = b;
  c_kind = c;
  bx_kind = BxKind.unused;
}

abbrev abx_shape : OperandKind → BxKind → OpcodeShape
abx_shape a x = record {
  format = abx;
  a_kind = a;
  b_kind = OperandKind.unused;
  c_kind = OperandKind.unused;
  bx_kind = x;
}

-- `urbi_opcode_shapes`
abbrev pub opcode_shapes : List OpcodeShape
opcode_shapes =
    abx_shape reg pool_index
    ∷ abc_shape reg reg OperandKind.unused
    ∷ abc_shape reg reg reg
    ∷ abc_shape reg reg reg
    ∷ abc_shape reg reg reg
    ∷ abc_shape reg reg reg
    ∷ abc_shape reg reg OperandKind.unused
    ∷ abc_shape reg OperandKind.unused OperandKind.unused
    ∷ abc_shape reg OperandKind.unused OperandKind.unused
    ∷ abc_shape reg imm_bool imm_bool
    ∷ abc_shape reg OperandKind.unused OperandKind.unused
    ∷ abc_shape reg upval_idx OperandKind.unused
    ∷ abc_shape reg upval_idx OperandKind.unused
    ∷ abx_shape reg nested_index
    ∷ abc_shape reg OperandKind.unused OperandKind.unused
    ∷ abc_shape reg reg OperandKind.unused
    ∷ abx_shape OperandKind.unused jump_signed
    ∷ abc_shape reg OperandKind.unused imm_bool
    ∷ abc_shape reg reg imm_bool
    ∷ abc_shape imm_bool reg reg
    ∷ abc_shape imm_bool reg reg
    ∷ abc_shape imm_bool reg reg
    ∷ abc_shape OperandKind.unused OperandKind.unused OperandKind.unused
    ∷ abc_shape reg reg_or_none imm_bool
    ∷ abc_shape reg OperandKind.unused OperandKind.unused
    ∷ abc_shape reg reg imm_site
    ∷ abc_shape reg reg imm_site
    ∷ abc_shape reg reg imm_site
    ∷ abc_shape reg reg imm_site
    ∷ abc_shape reg reg imm_site
    ∷ abx_shape OperandKind.unused extarg
    ∷ abc_shape reg OperandKind.unused OperandKind.unused
    ∷ abx_shape imm_flags handler_pc
    ∷ abx_shape reg_or_none handler_pc
    ∷ abc_shape imm_flags OperandKind.unused OperandKind.unused
    ∷ abx_shape imm_depth handler_pc
    ∷ abc_shape OperandKind.unused OperandKind.unused OperandKind.unused
    ∷ abc_shape reg OperandKind.unused OperandKind.unused
    ∷ abc_shape reg imm_mode imm_flags
    ∷ abc_shape reg OperandKind.unused OperandKind.unused
    ∷ abc_shape reg OperandKind.unused OperandKind.unused
    ∷ []
