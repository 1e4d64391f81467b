-- ===== src/Chunk/Walk/Operands.antt =====
-- What the shape checks of pass 1 say about the operands that the dispatcher uses.
use urbi_embedded.Shared.{
  ℕ, ◌+◌, ◌/◌, ◌%◌, ◌≤◌, ◌<◌, ◌≡◌, refl, ◌≢◌, bit_or, true, some, arith, ◌==◌, length, All,
  Bool-cases, Option-cases, ℕ_discrete, subst, inl, inr,
}
use urbi_embedded.Shared.Bits.{all_below→}
use urbi_embedded.Chunk.Op
use urbi_embedded.Chunk.Word.{uinstr_op, uinstr_a, uinstr_b, uinstr_c, uinstr_bx}
use urbi_embedded.Chunk.Shape.{OpcodeShape, abc, abx}
use urbi_embedded.Chunk.Proto.{ok, Block, Protos, child_nupvals, nested_count, Load-cases}
use urbi_embedded.Chunk.Walk.{
  is_site, verify_byte_operand, verify_abc_rules, verify_bx, verify_abc, verify_abx, verify_shape,
  closure_skip,
}
use urbi_embedded.Chunk.Dispatch.{uses_a, uses_b, uses_c, more_registers, takes_site, site_of}
use urbi_embedded.Chunk.Walk.Rows.{
  reg-operand, reg_or_none-operand, from_to-le, call_registers, is_abc-abc, row_uses, site_row_uses,
  rows_agree, site_rows, shape_at, row_agrees, site_row,
}

module _ (blk : Block) (nested : Protos) (vi ext op w : ℕ) (sh : OpcodeShape) (r : ℕ × ℕ)
    (accepted : verify_shape blk nested vi ext op sh w ≡ ok r) where
  shape_a : verify_byte_operand (uinstr_a w) sh.a_kind blk.max_reg ≡ ok tt
  unfolding verify_shape
  shape_a = ground (arith, Load-cases (verify_byte_operand (uinstr_a w) sh.a_kind blk.max_reg))

  shape_abc :
      sh.format ≡ abc
      → (verify_byte_operand (uinstr_b w) sh.b_kind blk.max_reg ≡ ok tt)
        × (verify_byte_operand (uinstr_c w) sh.c_kind blk.max_reg ≡ ok tt)
        × (is_site sh.c_kind ≡ true → bit_or (uinstr_c w) ext < blk.site_count)
        × (verify_abc_rules op
              (uinstr_a w)
              (uinstr_b w)
              (uinstr_c w)
              blk.instructions
              vi
              blk.max_reg
            ≡ ok tt)
  unfolding verify_shape verify_abc
  shape_abc f = ground (
    arith,
    Load-cases (verify_byte_operand (uinstr_a w) sh.a_kind blk.max_reg),
    Load-cases (verify_byte_operand (uinstr_b w) sh.b_kind blk.max_reg),
    Load-cases (verify_byte_operand (uinstr_c w) sh.c_kind blk.max_reg),
    Load-cases (
        verify_abc_rules op (uinstr_a w) (uinstr_b w) (uinstr_c w) blk.instructions vi blk.max_reg),
  )

  shape_abx :
      sh.format ≡ abx
      → verify_bx
          (uinstr_bx w)
          sh.bx_kind
          blk.const_count
          (length blk.instructions)
          (nested_count nested)
        ≡ ok tt
  unfolding verify_shape verify_abx
  shape_abx f = ground (
    arith,
    Load-cases (verify_byte_operand (uinstr_a w) sh.a_kind blk.max_reg),
    Load-cases (
        verify_bx (uinstr_bx w) sh.bx_kind blk.const_count (length blk.instructions)
          (nested_count nested)),
  )

module _ (blk : Block) (nested : Protos) (vi ext w : ℕ) (r : ℕ × ℕ)
    (accepted : verify_shape blk nested vi ext (uinstr_op w) (shape_at (uinstr_op w)) w
      ≡ ok r) where
  rules_at :
      (op : ℕ)
      → uinstr_op w ≡ op
      → (shape_at op).format ≡ abc
      → verify_abc_rules op (uinstr_a w) (uinstr_b w) (uinstr_c w) blk.instructions vi blk.max_reg
        ≡ ok tt
  rules_at op e f =
      (shape_abc blk nested vi ext op w (shape_at op) r
        (subst (λ o. verify_shape blk nested vi ext o (shape_at o) w ≡ ok r) e accepted) f).3

  self_inside : uinstr_op w ≡ Op.self → uinstr_a w + 1 ≤ blk.max_reg
  unfolding verify_abc_rules
  self_inside e = let rules = rules_at Op.self e refl in ground arith

  call_inside : uinstr_op w ≡ Op.call → uinstr_a w + uinstr_b w ≤ blk.max_reg + 1
  unfolding verify_abc_rules
  call_inside e = let rules = rules_at Op.call e refl in ground arith

  install_inside : uinstr_op w ≡ Op.install → uinstr_a w + 2 ≤ blk.max_reg
  unfolding verify_abc_rules
  install_inside e = let rules = rules_at Op.install e refl in ground arith

  fork_inside : uinstr_op w ≡ Op.fork → uinstr_c w ≡ 1 → uinstr_b w ≤ blk.max_reg
  unfolding verify_abc_rules
  fork_inside e join =
      let rules = rules_at Op.fork e refl in
      let accepted' =
        subst (λ o. verify_shape blk nested vi ext o (shape_at o) w ≡ ok r) e accepted in
      let (b, c, _, _) =
        shape_abc blk nested vi ext Op.fork w (shape_at Op.fork) r accepted' refl in
      reg_or_none-operand (uinstr_b w) blk.max_reg b (λ none_b. ground arith)

  scope_tag_inside : uinstr_op w ≡ Op.scope_tag → uinstr_a w ≢ 0xff → uinstr_a w ≤ blk.max_reg
  scope_tag_inside e ne =
      let accepted' =
        subst (λ o. verify_shape blk nested vi ext o (shape_at o) w ≡ ok r) e accepted in
      reg_or_none-operand (uinstr_a w) blk.max_reg
        (shape_a blk nested vi ext Op.scope_tag w (shape_at Op.scope_tag) r accepted') ne

  pub more_registers_inside : All (λ v. v ≤ blk.max_reg) (more_registers w)
  unfolding more_registers
  more_registers_inside = elim (ℕ_discrete (uinstr_op w) Op.call) [
    | yes e ↦
        rw (call_registers w e) (from_to-le (uinstr_b w) (uinstr_a w) blk.max_reg (call_inside e))
    | no ne ↦ elim (ℕ_discrete (uinstr_op w) Op.install) [
      | yes e ↦ ground (
        arith,
        install_inside e,
        Bool-cases (uinstr_c w % 2 == 0),
        Bool-cases (uinstr_c w / 2 % 2 == 0),
      )
      | no ne' ↦ ground (arith, self_inside, fork_inside, scope_tag_inside)
    ]
  ]

  row : uinstr_op w < Op.op_max → row_agrees (uinstr_op w) ≡ true
  row h = all_below→ 41 row_agrees rows_agree (uinstr_op w) h

  -- Every register that the dispatcher addresses by a field lies in the frame's window.
  pub fields_inside :
      uinstr_op w < Op.op_max
      → (uses_a (uinstr_op w) ≡ true → uinstr_a w ≤ blk.max_reg)
        × (uses_b (uinstr_op w) ≡ true → uinstr_b w ≤ blk.max_reg)
        × (uses_c (uinstr_op w) ≡ true → uinstr_c w ≤ blk.max_reg)
  fields_inside h =
      let op = uinstr_op w in
      let sh = shape_at op in
      let a = shape_a blk nested vi ext op w sh r accepted in
      let rest = shape_abc blk nested vi ext op w sh r accepted in
      let (row_a, row_b, row_c) = row_uses op (row h) in
      (
        λ u. reg-operand sh.a_kind (uinstr_a w) blk.max_reg (row_a u) a,
        λ u.
            reg-operand sh.b_kind (uinstr_b w) blk.max_reg (row_b u).0
              (rest (is_abc-abc sh.format (row_b u).1)).0,
        λ u.
            reg-operand sh.c_kind (uinstr_c w) blk.max_reg (row_c u).0
              (rest (is_abc-abc sh.format (row_c u).1)).1,
      )

  -- The site that an arm of the dispatcher computes lies in the proto's table.
  pub site_inside : uinstr_op w < Op.op_max → takes_site w ≡ true → site_of ext w < blk.site_count
  unfolding takes_site site_of
  site_inside h t =
      let op = uinstr_op w in
      let sh = shape_at op in
      let row = all_below→ 41 site_row site_rows (uinstr_op w) h in
      let (s, f) = site_row_uses op row t in
      (shape_abc blk nested vi ext op w sh r accepted (is_abc-abc sh.format f)).2 s

  -- The constant that OP_LOADK loads lies in the pool.
  pub constant_inside : uinstr_op w ≡ Op.loadk → uinstr_bx w < blk.const_count
  unfolding verify_bx
  constant_inside e =
      let accepted' =
        subst (λ o. verify_shape blk nested vi ext o (shape_at o) w ≡ ok r) e accepted in
      let x = shape_abx blk nested vi ext Op.loadk w (shape_at Op.loadk) r accepted' refl in
      ground arith

  -- The child that OP_CLOSURE instantiates is there.
  pub child_there :
      uinstr_op w ≡ Op.closure → (k : ℕ) × (child_nupvals nested (uinstr_bx w) ≡ some k)
  unfolding verify_shape verify_abx closure_skip
  child_there e =
      let accepted' =
        subst (λ o. verify_shape blk nested vi ext o (shape_at o) w ≡ ok r) e accepted in
      elim (Option-cases (child_nupvals nested (uinstr_bx w))) [
        | inl none_e ↦ absurd (ground arith)
        | inr found ↦ found
      ]
