-- ===== src/Chunk/Walk.antt =====
-- src/chunk/uchunk_verify.c, pass 1: each instruction against the shape table. The texts of the
-- diagnostics are left out.
pub mod Sound
pub mod Rows
pub mod Operands
use urbi_embedded.Shared.{
  ℕ, zero, suc, ◌+◌, ◌-◌, ◌*◌, ◌/◌, ◌%◌, ◌^◌, ◌≤◌, ◌<◌, bit_or, Bool, true, false, not, ◌&&◌, ◌||◌,
  List, Option, none, some, leb, ltb, ◌==◌, if◌then◌else◌, length, get_elem?, get_or,
}
use urbi_embedded.Chunk.Op
use urbi_embedded.Chunk.Word.{uinstr_op, uinstr_a, uinstr_b, uinstr_c, uinstr_bx}
use urbi_embedded.Chunk.Shape.{
  OpcodeFormat, OperandKind, BxKind, OpcodeShape, abc, abx, opcode_shapes, reg, reg_or_none,
  imm_bool, imm_mode, imm_site, pool_index, nested_index, handler_pc,
}
use urbi_embedded.Chunk.Proto.{
  LoadError, corrupt, bad_extarg, truncated_upvalues, Load, ok, err, ◌>>=◌, ◌>>◌, refuse, Block,
  Proto, Protos, proto, nil, absent, child, nested_count, child_nupvals,
}

unfoldable pub verify_byte_operand : ℕ → OperandKind → ℕ → Load (Unit {0})
verify_byte_operand value reg max_reg = refuse (ltb max_reg value) corrupt
verify_byte_operand value reg_or_none max_reg =
    refuse (not (value == 0xff) && ltb max_reg value) corrupt
verify_byte_operand value imm_bool max_reg = refuse (ltb 1 value) corrupt
verify_byte_operand value imm_mode max_reg = refuse (ltb value 1 || ltb 7 value) corrupt
verify_byte_operand value _ max_reg = ok tt

unfoldable pub op_takes_site : ℕ → Bool
op_takes_site op =
    op == Op.getslot
    || op == Op.setslot
    || op == Op.setslot_update
    || op == Op.self
    || op == Op.getslot_change_event

-- `vi == 0 || prev is no joining FORK with handle register a`, for the instruction before `vi`.
unfoldable pub not_joining_fork : List ℕ → ℕ → ℕ → Bool
not_joining_fork instructions vi a =
    let prev = if ltb 0 vi then get_or instructions (vi - 1) 0 else 0 in
    vi == 0
    || not (uinstr_op prev == Op.fork)
    || not (uinstr_c prev == 1)
    || not (uinstr_b prev == a)

-- The flag bits of `a` are 0x3 (the kind) and 0x4 (run the finally body).
unfoldable pub bad_scope_pop : ℕ → Bool
bad_scope_pop a =
    let kind = a % 2 ^ 2 in
    not (a / 2 ^ 3 == 0)
    || (not (kind == 1) && not (kind == 2))
    || (not (a / 2 ^ 2 % 2 == 0) && not (kind == 1))

unfoldable pub verify_abc_rules : ℕ → ℕ → ℕ → ℕ → List ℕ → ℕ → ℕ → Load (Unit {0})
verify_abc_rules op a b c instructions vi max_reg =
    if op == Op.self
    then refuse (ltb max_reg (a + 1)) corrupt
    else if op == Op.call
    then refuse (ltb (max_reg + 1) (a + b)) corrupt
    else if op == Op.install
    then (refuse (ltb max_reg (a + 2)) corrupt
        >> refuse (not (c / 2 ^ 2 == 0) || (b == 7 && not (c == 0))) corrupt)
    else if op == Op.fork
    then refuse ((c == 0 && not (b == 0xff)) || (c == 1 && b == 0xff)) corrupt
    else if op == Op.join_wait
    then refuse (not_joining_fork instructions vi a) corrupt
    else if op == Op.scope_pop
    then refuse (bad_scope_pop a) corrupt
    else ok tt

unfoldable pub verify_bx : ℕ → BxKind → ℕ → ℕ → ℕ → Load (Unit {0})
verify_bx bx pool_index const_count instr_count nested_count = refuse (leb const_count bx) corrupt
verify_bx bx nested_index const_count instr_count nested_count =
    refuse (leb nested_count bx) corrupt
verify_bx bx handler_pc const_count instr_count nested_count = refuse (leb instr_count bx) corrupt
verify_bx bx _ const_count instr_count nested_count = ok tt

-- The loop variables: `last_op` starts as OP_MAX, which no instruction has.
pub record Walk : Type 0 where
  pub vi : ℕ
  pub ext : ℕ
  pub ext_pending : Bool
  pub sites_seen : ℕ
  pub last_op : ℕ

abbrev pub walk_start : Walk
walk_start = record { vi = 0; ext = 0; ext_pending = false; sites_seen = 0; last_op = Op.op_max }

unfoldable pub is_site : OperandKind → Bool
is_site imm_site = true
is_site _ = false

-- The `UOPF_ABC` arm: the number of sites that the instruction bears.
unfoldable pub verify_abc : Block → ℕ → ℕ → ℕ → OpcodeShape → ℕ → Load ℕ
verify_abc blk vi ext op sh ins = do
  let b = uinstr_b ins
  let c = uinstr_c ins
  verify_byte_operand b sh.b_kind blk.max_reg
  verify_byte_operand c sh.c_kind blk.max_reg
  refuse (is_site sh.c_kind && leb blk.site_count (bit_or c ext)) corrupt
  verify_abc_rules op (uinstr_a ins) b c blk.instructions vi blk.max_reg
  ok (if is_site sh.c_kind then 1 else 0)

-- How many prelude words an OP_CLOSURE skips.
unfoldable pub closure_skip : Block → Protos → ℕ → ℕ → Load ℕ
closure_skip blk nested vi bx = elim (child_nupvals nested bx) [
  | none ↦ err corrupt
  | some nupvals ↦
      refuse (leb (length blk.instructions) (vi + nupvals)) truncated_upvalues >> ok nupvals
]

-- The `UOPF_ABX` arm: the number of words that the instruction skips. The flags of a SCOPE_TRY are
-- 1 (catch) or 2 (finally).
unfoldable pub verify_abx : Block → Protos → ℕ → ℕ → OpcodeShape → ℕ → Load ℕ
verify_abx blk nested vi op sh ins = do
  let a = uinstr_a ins
  let bx = uinstr_bx ins
  verify_bx bx sh.bx_kind blk.const_count (length blk.instructions) (nested_count nested)
  refuse (op == Op.scope_try && not (a == 1) && not (a == 2)) corrupt
  if op == Op.closure then closure_skip blk nested vi bx else ok 0

-- The sites and the skip of an instruction that is no OP_EXTARG.
unfoldable pub verify_shape : Block → Protos → ℕ → ℕ → ℕ → OpcodeShape → ℕ → Load (ℕ × ℕ)
verify_shape blk nested vi ext op sh ins =
    verify_byte_operand (uinstr_a ins) sh.a_kind blk.max_reg >> elim sh.format [
      | abc ↦ verify_abc blk vi ext op sh ins >>= λ n. ok (n, 0)
      | abx ↦ verify_abx blk nested vi op sh ins >>= λ k. ok (0, k)
    ]

abbrev pub no_shape : OpcodeShape
no_shape = record {
  format = abc;
  a_kind = OperandKind.unused;
  b_kind = OperandKind.unused;
  c_kind = OperandKind.unused;
  bx_kind = BxKind.unused;
}

-- One round of the loop on the word at `vi`, with the `vi++` of the `for` line.
unfoldable pub walk_step : Block → Protos → Walk → ℕ → Load Walk
walk_step blk nested s ins =
    let op = uinstr_op ins in
    let shaped = verify_shape blk nested s.vi s.ext op (get_or opcode_shapes op no_shape) ins in
    if leb Op.op_max op
    then err corrupt
    else if s.ext_pending && not (op_takes_site op)
    then err bad_extarg
    else if op == Op.extarg
    then (refuse (leb (length blk.instructions) (s.vi + 1)) bad_extarg
        >> ok (record s { vi = s.vi + 1; ext = uinstr_bx ins * 2 ^ 8; ext_pending = true }))
    else (shaped >>= λ r. ok (record {
      vi = s.vi + r.1 + 1;
      ext = 0;
      ext_pending = false;
      sites_seen = s.sites_seen + r.0;
      last_op = op;
    }))

-- `get_elem?` answers `none` exactly where the test `vi < instr_count` fails.
unfoldable pub walk_loop : ℕ → Block → Protos → Walk → Load Walk
walk_loop zero blk nested s = ok s
walk_loop (suc fuel) blk nested s = elim (get_elem? blk.instructions s.vi) [
  | none ↦ ok s
  | some ins ↦ walk_step blk nested s ins >>= walk_loop fuel blk nested
]

-- Each round moves `vi` on, so `instr_count` rounds are enough.
unfoldable pub verify_walk_block : Block → Protos → Load (Unit {0})
verify_walk_block blk nested = do
  s ← walk_loop (length blk.instructions) blk nested walk_start
  refuse (length blk.instructions == 0) corrupt
  refuse (not (s.last_op == Op.ret)) corrupt
  refuse (ltb s.sites_seen blk.site_count) corrupt

-- A NULL child is accepted here; a closure over one is refused above.
unfoldable mutual
  pub verify_proto_recursive : Proto → Load (Unit {0})
  verify_proto_recursive (proto blk nested) =
      let children = verify_nested nested in verify_walk_block blk nested >> children

  pub verify_nested : Protos → Load (Unit {0})
  verify_nested nil = ok tt
  verify_nested (absent ps) = verify_nested ps
  verify_nested (child p ps) = let rest = verify_nested ps in verify_proto_recursive p >> rest
