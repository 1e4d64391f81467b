-- ===== src/Chunk/Runs.antt =====
-- src/chunk/uchunk_verify.c: verdicts on small chunks, and the theorems at them.
use urbi_embedded.Shared.{
  ℕ, ◌+◌, ◌*◌, ◌^◌, ◌≡◌, ◌≢◌, refl, arith, Bool, true, false, List, [], ◌∷◌, none, some, ◌⊎◌, ◌↔◌,
  get_elem?,
}
use urbi_embedded.Chunk.Op
use urbi_embedded.Chunk.Word.{uinstr_op, uinstr_a, uinstr_b, uinstr_c, uinstr_bx}
use urbi_embedded.Chunk.Proto.{
  oom, bad_target, malformed_upvalue, ok, err, fault, Block, Proto, proto, nil, child,
}
use urbi_embedded.Chunk.Walk.{
  walk_start, walk_loop, walk_step, verify_shape, verify_abc, verify_abx, closure_skip,
  verify_byte_operand, verify_bx, verify_abc_rules, is_site, op_takes_site, not_joining_fork,
  bad_scope_pop, verify_walk_block, verify_proto_recursive,
}
use urbi_embedded.Chunk.Bitmap.{is_prelude_word, mark_word, new_bitmap}
use urbi_embedded.Chunk.Bounds.{
  verify_target, op_may_skip, bad_upvalue, mark_loop, bitmap_for, mark_prelude, prelude_step,
  prelude_loop, verify_preludes, jmp_target, is_handler, transfer_step, transfer_loop,
  verify_transfers, verify_bounds_block, verify_bounds_proto, verify_chunk,
}
use urbi_embedded.Chunk.Flow.{Config, entry, Scan}
use urbi_embedded.Chunk.Dispatch.{
  falls_through, falls, closes, prefix, Reaches, enters, dispatches, takes_site,
}
use urbi_embedded.Chunk.Safety.Frame.{SafeAt}
use urbi_embedded.Chunk.Safety.Tree.{at_root, verify_chunk-SafeAt}
use urbi_embedded.Chunk.Safety.NoFault.{verify_chunk-defined}
use urbi_embedded.Chunk.Safety.Fuel.{walk_loop_enough, prelude_loop_enough}
use urbi_embedded.Chunk.Bounds.Alloc.{verify_chunk-EndsAs}
use urbi_embedded.Chunk.Bounds.Exact.{verify_preludes-Scan}

abbrev word : ℕ → ℕ → ℕ → ℕ → ℕ
word op a b c = op + a * 2 ^ 8 + b * 2 ^ 16 + c * 2 ^ 24

abbrev word_bx : ℕ → ℕ → ℕ → ℕ
word_bx op a bx = op + a * 2 ^ 8 + bx * 2 ^ 16

abbrev serving : ℕ → Bool
serving nbytes = true

abbrev exhausted : ℕ → Bool
exhausted nbytes = false

-- A leaf that returns its second register.
abbrev leaf_block : Block
leaf_block = record {
  max_reg = 1;
  nupvals = 1;
  const_count = 1;
  site_count = 0;
  instructions = word_bx Op.loadk 1 0 ∷ word Op.ret 1 0 0 ∷ [];
}

abbrev leaf : Proto
leaf = proto leaf_block nil

-- A root that closes over the leaf, with one prelude word, loads a slot through a prefixed site and
-- jumps to its last word.
abbrev root_words : List ℕ
root_words =
    word_bx Op.closure 0 0
    ∷ word 0 0 1 1
    ∷ word_bx Op.extarg 0 0
    ∷ word Op.getslot 0 1 0
    ∷ word_bx Op.jmp 0 32769
    ∷ word Op.loadnil 0 0 0
    ∷ word Op.ret 0 0 0
    ∷ []

abbrev root_block : Block
root_block = record {
  max_reg = 1;
  nupvals = 0;
  const_count = 0;
  site_count = 1;
  instructions = root_words;
}

abbrev with_words : List ℕ → Block
with_words l = record root_block { site_count = 0; instructions = l }

abbrev root_proto : Proto
root_proto = proto root_block (child leaf nil)

accepts_root : verify_chunk serving root_proto ≡ ok tt
unfolding verify_chunk verify_bounds_proto verify_proto_recursive verify_bounds_block
    verify_transfers transfer_loop transfer_step is_handler jmp_target verify_preludes prelude_loop
    prelude_step mark_prelude bitmap_for mark_loop bad_upvalue op_may_skip verify_target
    is_prelude_word mark_word new_bitmap verify_walk_block walk_loop walk_step verify_shape
    verify_abc verify_abx closure_skip is_site op_takes_site not_joining_fork bad_scope_pop
    verify_abc_rules verify_bx verify_byte_operand uinstr_op uinstr_a uinstr_b uinstr_c uinstr_bx
accepts_root = refl

-- The bitmap is wanted for the prelude, and the allocator refuses.
out_of_memory : verify_chunk exhausted root_proto ≡ err oom
unfolding verify_chunk verify_bounds_proto verify_proto_recursive verify_bounds_block
    verify_transfers transfer_loop transfer_step is_handler jmp_target verify_preludes prelude_loop
    prelude_step mark_prelude bitmap_for mark_loop bad_upvalue op_may_skip verify_target
    is_prelude_word mark_word new_bitmap verify_walk_block walk_loop walk_step verify_shape
    verify_abc verify_abx closure_skip is_site op_takes_site not_joining_fork bad_scope_pop
    verify_abc_rules verify_bx verify_byte_operand uinstr_op uinstr_a uinstr_b uinstr_c uinstr_bx
out_of_memory = refl

-- A jump into the prelude.
jumps_into_prelude :
    verify_chunk serving (
      proto
        (with_words
          (word_bx Op.closure 0 0 ∷ word 0 0 1 1 ∷ word_bx Op.jmp 0 32767 ∷ word Op.ret 0 0 0 ∷ []))
        (child leaf nil))
    ≡ err bad_target
unfolding verify_chunk verify_bounds_proto verify_proto_recursive verify_bounds_block
    verify_transfers transfer_loop transfer_step is_handler jmp_target verify_preludes prelude_loop
    prelude_step mark_prelude bitmap_for mark_loop bad_upvalue op_may_skip verify_target
    is_prelude_word mark_word new_bitmap verify_walk_block walk_loop walk_step verify_shape
    verify_abc verify_abx closure_skip is_site op_takes_site not_joining_fork bad_scope_pop
    verify_abc_rules verify_bx verify_byte_operand uinstr_op uinstr_a uinstr_b uinstr_c uinstr_bx
jumps_into_prelude = refl

-- A captured register outside the window.
captures_outside :
    verify_chunk serving (
      proto
        (with_words (word_bx Op.closure 0 0 ∷ word 0 0 1 2 ∷ word Op.ret 0 0 0 ∷ []))
        (child leaf nil))
    ≡ err malformed_upvalue
unfolding verify_chunk verify_bounds_proto verify_proto_recursive verify_bounds_block
    verify_transfers transfer_loop transfer_step is_handler jmp_target verify_preludes prelude_loop
    prelude_step mark_prelude bitmap_for mark_loop bad_upvalue op_may_skip verify_target
    is_prelude_word mark_word new_bitmap verify_walk_block walk_loop walk_step verify_shape
    verify_abc verify_abx closure_skip is_site op_takes_site not_joining_fork bad_scope_pop
    verify_abc_rules verify_bx verify_byte_operand uinstr_op uinstr_a uinstr_b uinstr_c uinstr_bx
captures_outside = refl

-- The frame has made the closure and taken the prefixed site, and stands at the jump.
at_the_jump : Reaches root_block (child leaf nil) (record { pc = 4; ext = 0; pending = false })
unfolding falls_through takes_site uinstr_op uinstr_bx uinstr_c
at_the_jump =
    dispatches (word Op.getslot 0 1 0)
      (dispatches (word_bx Op.extarg 0 0)
        (dispatches (word_bx Op.closure 0 0) (enters refl) refl (closes 1 refl refl refl)) refl
        (prefix refl refl))
      refl (falls refl refl)

verify_chunk-SafeAt_example :
    (w : ℕ) × (get_elem? root_words 4 ≡ some w)
    × SafeAt root_block (child leaf nil) (record { pc = 4; ext = 0; pending = false }) w
verify_chunk-SafeAt_example =
    verify_chunk-SafeAt serving root_proto accepts_root at_root at_the_jump

verify_chunk-defined_example : verify_chunk exhausted root_proto ≢ fault
verify_chunk-defined_example = verify_chunk-defined exhausted root_proto

verify_chunk-EndsAs_example :
    (verify_chunk exhausted root_proto ≡ verify_chunk (λ _. true) root_proto)
    ⊎ (verify_chunk exhausted root_proto ≡ err oom)
verify_chunk-EndsAs_example = verify_chunk-EndsAs exhausted root_proto

walk_loop_enough_example :
    walk_loop 9 leaf_block nil walk_start ≡ walk_loop 2 leaf_block nil walk_start
walk_loop_enough_example =
    walk_loop_enough leaf_block nil 2 9 walk_start (omega arith) (omega arith)

prelude_loop_enough_example :
    prelude_loop 9 serving root_block (child leaf nil) none 0
    ≡ prelude_loop 7 serving root_block (child leaf nil) none 0
prelude_loop_enough_example =
    prelude_loop_enough root_block (child leaf nil) serving 7 9 none 0 (omega arith) (omega arith)

root_bitmap : verify_preludes serving root_block (child leaf nil) ≡ ok (some (2 ∷ []))
unfolding verify_chunk verify_bounds_proto verify_proto_recursive verify_bounds_block
    verify_transfers transfer_loop transfer_step is_handler jmp_target verify_preludes prelude_loop
    prelude_step mark_prelude bitmap_for mark_loop bad_upvalue op_may_skip verify_target
    is_prelude_word mark_word new_bitmap verify_walk_block walk_loop walk_step verify_shape
    verify_abc verify_abx closure_skip is_site op_takes_site not_joining_fork bad_scope_pop
    verify_abc_rules verify_bx verify_byte_operand uinstr_op uinstr_a uinstr_b uinstr_c uinstr_bx
root_bitmap = refl

verify_preludes-Scan_example :
    (is_prelude_word (some (2 ∷ [])) 3 ≡ false)
    ↔ ((c : Config) × Scan root_block (child leaf nil) entry c × (c.pc ≡ 3))
verify_preludes-Scan_example =
    verify_preludes-Scan serving root_block (child leaf nil) (some (2 ∷ [])) 3 root_bitmap
      (omega arith)
