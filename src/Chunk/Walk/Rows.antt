-- ===== src/Chunk/Walk/Rows.antt =====
-- The shape table's rows against the dispatcher's arms, each checked for all 41 opcodes.
use urbi_embedded.Shared.{
  ℕ, zero, suc, ◌+◌, ◌≤◌, ◌≡◌, refl, ◌≢◌, Bool, true, false, not, ◌&&◌, ◌||◌, arith, ◌==◌, get_or,
  All,
}
use urbi_embedded.Shared.Bits.{all_below}
use urbi_embedded.Chunk.Op
use urbi_embedded.Chunk.Word.{uinstr_op, uinstr_a, uinstr_b}
use urbi_embedded.Chunk.Shape.{
  OpcodeFormat, OperandKind, OpcodeShape, abc, abx, reg, reg_or_none, opcode_shapes,
}
use urbi_embedded.Chunk.Proto.{ok}
use urbi_embedded.Chunk.Walk.{no_shape, is_site, verify_byte_operand}
use urbi_embedded.Chunk.Dispatch.{uses_a, uses_b, uses_c, more_registers, from_to}

pub is_reg : OperandKind → Bool
is_reg reg = true
is_reg _ = false

pub is_abc : OpcodeFormat → Bool
is_abc abc = true
is_abc abx = false

abbrev pub shape_at : ℕ → OpcodeShape
shape_at op = get_or opcode_shapes op no_shape

-- The rows of the table against the dispatcher's arms.
abbrev pub row_agrees : ℕ → Bool
row_agrees op =
    (not (uses_a op) || is_reg (shape_at op).a_kind)
    && (not (uses_b op) || (is_reg (shape_at op).b_kind && is_abc (shape_at op).format))
    && (not (uses_c op) || (is_reg (shape_at op).c_kind && is_abc (shape_at op).format))

pub rows_agree : all_below 41 row_agrees ≡ true
unfolding all_below uses_a uses_b is_reg is_abc
rows_agree = refl

pub reg-operand :
    (k : OperandKind) (v m : ℕ) → is_reg k ≡ true → verify_byte_operand v k m ≡ ok tt → v ≤ m
unfolding is_reg verify_byte_operand
reg-operand reg v m e h = ground arith
reg-operand _ v m e h = cc

pub reg_or_none-operand : (v m : ℕ) → verify_byte_operand v reg_or_none m ≡ ok tt → v ≢ 0xff → v ≤ m
unfolding verify_byte_operand
reg_or_none-operand v m h ne = ground arith

pub from_to-le : (n a m : ℕ) → a + n ≤ m + 1 → All (λ r. r ≤ m) (from_to a n)
from_to-le zero a m h = tt
from_to-le (suc n) a m h = (omega arith, from_to-le n (a + 1) m (omega arith))

pub call_registers :
    (w : ℕ) → uinstr_op w ≡ Op.call → more_registers w ≡ from_to (uinstr_a w) (uinstr_b w)
unfolding more_registers
call_registers w e = ground arith

pub is_abc-abc : (f : OpcodeFormat) → is_abc f ≡ true → f ≡ abc
unfolding is_abc
is_abc-abc abc e = refl
is_abc-abc abx e = cc

pub row_uses :
    (op : ℕ)
    → row_agrees op ≡ true
    → (uses_a op ≡ true → is_reg (shape_at op).a_kind ≡ true)
      × (uses_b op ≡ true
          → (is_reg (shape_at op).b_kind ≡ true) × (is_abc (shape_at op).format ≡ true))
      × (uses_c op ≡ true
          → (is_reg (shape_at op).c_kind ≡ true) × (is_abc (shape_at op).format ≡ true))
row_uses op h =
    and_uses (uses_a op) (uses_b op) (uses_c op) (is_reg (shape_at op).a_kind)
      (is_reg (shape_at op).b_kind) (is_reg (shape_at op).c_kind) (is_abc (shape_at op).format) h
  where
    and_uses :
        (a b c ra rb rc f : Bool)
        → ((not a || ra) && (not b || (rb && f)) && (not c || (rc && f))) ≡ true
        → (a ≡ true → ra ≡ true)
          × (b ≡ true → (rb ≡ true) × (f ≡ true))
          × (c ≡ true → (rc ≡ true) × (f ≡ true))
    and_uses a b c ra rb rc f h = ground arith

abbrev pub site_op : ℕ → Bool
site_op op =
    op == Op.getslot
    || op == Op.self
    || op == Op.setslot
    || op == Op.setslot_update
    || op == Op.getslot_change_event

abbrev pub site_row : ℕ → Bool
site_row op = not (site_op op) || (is_site (shape_at op).c_kind && is_abc (shape_at op).format)

pub site_rows : all_below 41 site_row ≡ true
unfolding all_below is_site is_abc
site_rows = refl

pub site_row_uses :
    (op : ℕ)
    → site_row op ≡ true
    → site_op op ≡ true
    → (is_site (shape_at op).c_kind ≡ true) × (is_abc (shape_at op).format ≡ true)
site_row_uses op h =
    both (site_op op) (is_site (shape_at op).c_kind) (is_abc (shape_at op).format) h
  where
    both : (t s f : Bool) → (not t || (s && f)) ≡ true → t ≡ true → (s ≡ true) × (f ≡ true)
    both t s f h e = ground arith
