-- ===== src/Chunk/Walk/Sound.antt =====
-- What an accepted pass 1 says about every real instruction.
use urbi_embedded.Shared.{
  ℕ, zero, suc, ◌+◌, ◌*◌, ◌^◌, ◌≤◌, ◌<◌, ◌≡◌, refl, ap, ◌≢◌, inl, inr, true, false, some, arith,
  length, get_elem?, get_or, lt_of_get_elem?, get_elem?_past, ℕ_discrete, subst, sym, ◌∙◌,
}
use urbi_embedded.Chunk.Op
use urbi_embedded.Chunk.Word.{uinstr_op, uinstr_bx}
use urbi_embedded.Chunk.Shape.{OpcodeShape, abc, opcode_shapes}
use urbi_embedded.Chunk.Proto.{ok, Block, Protos, child_nupvals, Load-cases, >>=-eq-ok}
use urbi_embedded.Chunk.Walk.{
  no_shape, op_takes_site, Walk, verify_shape, verify_abx, closure_skip, walk_step, walk_loop,
  walk_start, verify_walk_block,
}
use urbi_embedded.Chunk.Flow.{Scan-mono, Config, Scan, here, next, prelude_width, after, entry}

abbrev pub shape_of : ℕ → OpcodeShape
shape_of w = get_or opcode_shapes (uinstr_op w) no_shape

-- What pass 1 has checked of the word `w` when it stands at a real instruction.
pub record Fits (blk : Block) (nested : Protos) (c : Config) (w : ℕ) : Type 0 where
  pub opcode : uinstr_op w < Op.op_max
  pub takes_ext : c.pending ≡ true → op_takes_site (uinstr_op w) ≡ true
  pub inside : c.pc + prelude_width nested w < length blk.instructions
  pub prefix_inside : uinstr_op w ≡ Op.extarg → c.pc + 1 < length blk.instructions
  pub shaped :
      uinstr_op w ≢ Op.extarg
      → (r : ℕ × ℕ) × (verify_shape blk nested c.pc c.ext (uinstr_op w) (shape_of w) w ≡ ok r)

abbrev config_of : Walk → Config
config_of s = record { pc = s.vi; ext = s.ext; pending = s.ext_pending }

module _ (blk : Block) (nested : Protos) where
  closure_skip_lem :
      (vi bx k : ℕ)
      → closure_skip blk nested vi bx ≡ ok k
      → (child_nupvals nested bx ≡ some k) × (vi + k < length blk.instructions)
  unfolding closure_skip
  closure_skip_lem vi bx k h = ground arith

  verify_abx_skip :
      (vi w k : ℕ)
      → vi < length blk.instructions
      → verify_abx blk nested vi (uinstr_op w) (shape_of w) w ≡ ok k
      → (k ≡ prelude_width nested w) × (vi + k < length blk.instructions)
  unfolding verify_abx prelude_width
  verify_abx_skip vi w k hvi h = ground (arith, closure_skip_lem vi (uinstr_bx w) k)

  abc-ne-closure : (w : ℕ) → (shape_of w).format ≡ abc → uinstr_op w ≢ Op.closure
  abc-ne-closure w f e = cc

  verify_shape_skip :
      (vi ext w : ℕ) (r : ℕ × ℕ)
      → vi < length blk.instructions
      → verify_shape blk nested vi ext (uinstr_op w) (shape_of w) w ≡ ok r
      → (r.1 ≡ prelude_width nested w) × (vi + r.1 < length blk.instructions)
  unfolding verify_shape prelude_width
  verify_shape_skip vi ext w r hvi h =
      ground (arith, abc-ne-closure w, verify_abx_skip vi w r.1 hvi)

  extarg_width : (w : ℕ) → uinstr_op w ≡ Op.extarg → prelude_width nested w ≡ 0
  unfolding prelude_width
  extarg_width w e = ground arith

  walk_step-extarg :
      (s t : Walk) (w : ℕ)
      → uinstr_op w ≡ Op.extarg
      → walk_step blk nested s w ≡ ok t
      → (s.ext_pending ≡ false)
        × (s.vi + 1 < length blk.instructions)
        × (t ≡ record s { vi = s.vi + 1; ext = uinstr_bx w * 2 ^ 8; ext_pending = true })
  unfolding walk_step op_takes_site
  walk_step-extarg s t w e h = ground arith

  walk_step_shaped :
      (s t : Walk) (w : ℕ)
      → uinstr_op w ≢ Op.extarg
      → walk_step blk nested s w ≡ ok t
      → (uinstr_op w < Op.op_max)
        × (s.ext_pending ≡ true → op_takes_site (uinstr_op w) ≡ true)
        × ((r : ℕ × ℕ) × (verify_shape blk nested s.vi s.ext (uinstr_op w) (shape_of w) w ≡ ok r)
            × (t ≡ record {
              vi = s.vi + r.1 + 1;
              ext = 0;
              ext_pending = false;
              sites_seen = s.sites_seen + r.0;
              last_op = uinstr_op w;
            }))
  unfolding walk_step
  walk_step_shaped s t w ne h =
      elim (Load-cases (verify_shape blk nested s.vi s.ext (uinstr_op w) (shape_of w) w)) [
        | inl (r, e) ↦ (ground arith, ground arith, (r, e, ground arith))
        | inr (inl (x, e)) ↦ absurd (ground arith)
        | inr (inr e) ↦ absurd (ground arith)
      ]

  -- One accepted round checks the word at `vi` and moves to the next real instruction.
  walk_step_lem :
      (s t : Walk) (w : ℕ)
      → s.vi < length blk.instructions
      → walk_step blk nested s w ≡ ok t
      → Fits blk nested (config_of s) w
        × (config_of t ≡ after nested (config_of s) w)
        × (uinstr_op w ≢ Op.extarg → t.last_op ≡ uinstr_op w)
  unfolding after
  walk_step_lem s t w hvi h = elim (ℕ_discrete (uinstr_op w) Op.extarg) [
    | yes e ↦
        let (pending, room, moved) = walk_step-extarg s t w e h in
        (
          record {
            opcode = ground arith;
            takes_ext = λ p. cc;
            inside = ground (arith, extarg_width w);
            prefix_inside = λ _. room;
            shaped = λ ne. absurd (ne e);
          },
          ground (arith, extarg_width w),
          λ ne. absurd (ne e),
        )
    | no ne ↦
        let (opcode, takes, (r, shaped, moved)) = walk_step_shaped s t w ne h in
        let skip = verify_shape_skip s.vi s.ext w r hvi shaped in
        (
          record {
            opcode = opcode;
            takes_ext = takes;
            inside = ground arith;
            prefix_inside = λ e. absurd (ne e);
            shaped = λ _. (r, shaped);
          },
          ground arith,
          λ _. ground arith,
        )
  ]

  walk_loop_step :
      (fuel : ℕ) (s t : Walk) (v : ℕ)
      → get_elem? blk.instructions s.vi ≡ some v
      → walk_loop (suc fuel) blk nested s ≡ ok t
      → (u : Walk) × (walk_step blk nested s v ≡ ok u) × (walk_loop fuel blk nested u ≡ ok t)
  unfolding walk_loop
  walk_loop_step fuel s t v e h =
      >>=-eq-ok (walk_step blk nested s v) (walk_loop fuel blk nested) (rw (e, walk_loop) at h)

  walk_loop_done :
      (fuel : ℕ) (s t : Walk)
      → length blk.instructions ≤ s.vi
      → walk_loop fuel blk nested s ≡ ok t
      → t ≡ s
  unfolding walk_loop
  walk_loop_done zero s t h e = cc
  walk_loop_done (suc fuel) s t h e = ground (arith, get_elem?_past blk.instructions s.vi h)

  last_seen :
      (fuel : ℕ) (s u t : Walk) (w : ℕ)
      → Fits blk nested (config_of s) w
      → config_of u ≡ after nested (config_of s) w
      → (uinstr_op w ≢ Op.extarg → u.last_op ≡ uinstr_op w)
      → walk_loop fuel blk nested u ≡ ok t
      → length blk.instructions ≤ (after nested (config_of s) w).pc
      → t.last_op ≡ uinstr_op w
  last_seen fuel s u t w fits moved seen rest h =
      ap (λ (r : Walk). r.last_op)
        (walk_loop_done fuel u t (omega (arith, ap (λ (c : Config). c.pc) moved)) rest)
      ∙ seen λ e. absurd (unfold after in omega (arith, fits.prefix_inside e, extarg_width w e, h))

  abbrev Seen : Walk → ℕ → Config → Type 0
  Seen t w d =
      Fits blk nested d w
      × (length blk.instructions ≤ (after nested d w).pc → t.last_op ≡ uinstr_op w)

  -- Every real instruction from the loop's position on fits, and one that ends the words is the last
  -- that the loop sees.
  walk_loop-Seen :
      (fuel : ℕ) (s t : Walk) {c d : Config} (w : ℕ)
      → c ≡ config_of s
      → length blk.instructions ≤ s.vi + fuel
      → walk_loop fuel blk nested s ≡ ok t
      → Scan blk nested c d
      → get_elem? blk.instructions d.pc ≡ some w
      → Seen t w d
  walk_loop-Seen zero s t w ec hf e sc ew = absurd (
      omega
        (arith, Scan-mono sc, lt_of_get_elem? blk.instructions _ ew, ap (λ (c : Config). c.pc) ec))
  walk_loop-Seen (suc fuel) s t w ec hf e here ew =
      let at = subst (λ (c : Config). get_elem? blk.instructions c.pc ≡ some w) ec ew in
      let (u, step, rest) = walk_loop_step fuel s t w at e in
      let (fits, moved, seen) = walk_step_lem s u w (lt_of_get_elem? blk.instructions _ at) step in
      subst (Seen t w) (sym ec) (fits, last_seen fuel s u t w fits moved seen rest)
  walk_loop-Seen (suc fuel) s t w ec hf e (next v ev sc) ew =
      let at = subst (λ (c : Config). get_elem? blk.instructions c.pc ≡ some v) ec ev in
      let (u, step, rest) = walk_loop_step fuel s t v at e in
      let (fits, moved, seen) = walk_step_lem s u v (lt_of_get_elem? blk.instructions _ at) step in
      let room : length blk.instructions ≤ u.vi + fuel =
        unfold after in omega (arith, ap (λ (c : Config). c.pc) moved, hf) in
      walk_loop-Seen fuel u t w (ap (λ (c : Config). after nested c v) ec ∙ sym moved) room rest sc
        ew

  -- After an accepted pass 1 every real instruction fits, and one that ends the words is OP_RET.
  pub verify_walk_block-Fits :
      verify_walk_block blk nested ≡ ok tt
      → {d : Config} (w : ℕ) → Scan blk nested entry d
      → get_elem? blk.instructions d.pc ≡ some w
      → Fits blk nested d w
        × (length blk.instructions ≤ (after nested d w).pc → uinstr_op w ≡ Op.ret)
  unfolding verify_walk_block
  verify_walk_block-Fits h w sc ew =
      let (s, loop, checks) =
        >>=-eq-ok (walk_loop (length blk.instructions) blk nested walk_start) _ h in
      let (fits, last) =
        walk_loop-Seen (length blk.instructions) walk_start s w refl (omega arith) loop sc ew in
      let ret : s.last_op ≡ Op.ret = ground arith in (fits, λ past. cc (last past, ret))

  pub verify_walk_block-nonempty :
      verify_walk_block blk nested ≡ ok tt → 0 < length blk.instructions
  unfolding verify_walk_block
  verify_walk_block-nonempty h =
      let (s, loop, checks) =
        >>=-eq-ok (walk_loop (length blk.instructions) blk nested walk_start) _ h in
      ground arith
