-- ===== src/Chunk/Safety/Frame.antt =====
-- What one frame over a verified proto can rely on at every word that the dispatcher comes to.
use urbi_embedded.Shared.{
  ℕ, ◌+◌, ◌≤◌, ◌<◌, ◌≡◌, ◌≢◌, sym, subst, Bool, true, List, Option, none, some, arith, length,
  get_elem?, get_or, get_elem?_lt, All, ℕ_discrete,
}
use urbi_embedded.Chunk.Op
use urbi_embedded.Chunk.Word.{uinstr_op, uinstr_a, uinstr_b, uinstr_bx, uinstr_c}
use urbi_embedded.Chunk.Proto.{ok, Block, Protos, child_nupvals, >>=-eq-ok}
use urbi_embedded.Chunk.Flow.{Config, Scan, here, prelude_width, entry}
use urbi_embedded.Chunk.Walk.{verify_walk_block}
use urbi_embedded.Chunk.Walk.Sound.{Fits, verify_walk_block-nonempty}
use urbi_embedded.Chunk.Walk.Operands.{
  fields_inside, more_registers_inside, site_inside, constant_inside, child_there,
}
use urbi_embedded.Chunk.Bounds.{verify_transfers, verify_preludes, verify_bounds_block}
use urbi_embedded.Chunk.Bounds.Marks.{GoodUpvalue}
use urbi_embedded.Chunk.Bounds.Preludes.{Swept, verify_preludes-Swept}
use urbi_embedded.Chunk.Dispatch.{
  jump_pc, takes_site, site_of, uses_a, uses_b, uses_c, more_registers, Reaches, enters, dispatches,
}
use urbi_embedded.Chunk.Safety.Steps.{
  takes_site-op_takes_site, OnReal, Fits-OnReal, stepped-OnReal, Dispatch-OnReal, jump-target,
  closure-width,
}

-- The upvalue descriptors that creating the closure `bx` at `pc` reads.
pub record GoodClosure (blk : Block) (nested : Protos) (pc bx : ℕ) : Type 0 where
  pub nupvals : ℕ
  pub found : child_nupvals nested bx ≡ some nupvals
  pub room : pc + nupvals < length blk.instructions
  pub descriptors :
      (i : ℕ) → 1 ≤ i → i ≤ nupvals → GoodUpvalue blk (get_or blk.instructions (pc + i) 0)

-- Everything that the dispatcher reads without a test of its own when it runs `w` at `c`.
pub record SafeAt (blk : Block) (nested : Protos) (c : Config) (w : ℕ) : Type 0 where
  pub opcode : uinstr_op w < Op.op_max
  pub a_field : uses_a (uinstr_op w) ≡ true → uinstr_a w ≤ blk.max_reg
  pub b_field : uses_b (uinstr_op w) ≡ true → uinstr_b w ≤ blk.max_reg
  pub c_field : uses_c (uinstr_op w) ≡ true → uinstr_c w ≤ blk.max_reg
  pub window : All (λ v. v ≤ blk.max_reg) (more_registers w)
  pub consumes : c.pending ≡ true → takes_site w ≡ true
  pub site : takes_site w ≡ true → site_of c.ext w < blk.site_count
  pub constant : uinstr_op w ≡ Op.loadk → uinstr_bx w < blk.const_count
  pub closing : uinstr_op w ≡ Op.closure → GoodClosure blk nested c.pc (uinstr_bx w)
  pub jump :
      uinstr_op w ≡ Op.jmp
      → (pc : ℕ) × (jump_pc c.pc (uinstr_bx w) ≡ some pc) × (pc < length blk.instructions)

closure-ne-extarg : (w : ℕ) → uinstr_op w ≡ Op.closure → uinstr_op w ≢ Op.extarg
closure-ne-extarg w op e = cc

closure-descriptors :
    (alloc : ℕ → Bool) (blk : Block) (nested : Protos) (p : Option (List ℕ)) (c : Config) (w k : ℕ)
    → Swept alloc blk nested entry none p
    → Scan blk nested entry c
    → get_elem? blk.instructions c.pc ≡ some w
    → prelude_width nested w ≡ k
    → (i : ℕ) → 1 ≤ i
    → i ≤ k
    → GoodUpvalue blk (get_or blk.instructions (c.pc + i) 0)
closure-descriptors alloc blk nested p c w k swept s e width i lo hi =
    swept.goods c w i s e lo (omega (arith, width))

closure-room :
    (blk : Block) (nested : Protos) (c : Config) (w k : ℕ)
    → Fits blk nested c w
    → prelude_width nested w ≡ k
    → c.pc + k < length blk.instructions
closure-room blk nested c w k fits width = omega (arith, fits.inside, width)

module _ (alloc : ℕ → Bool) (blk : Block) (nested : Protos)
    (walked : verify_walk_block blk nested ≡ ok tt)
    (bounded : verify_bounds_block alloc blk nested ≡ ok tt) where
  bitmap :
      (p : Option (List ℕ)) × Swept alloc blk nested entry none p × (verify_transfers blk p ≡ ok tt)
  unfolding verify_bounds_block
  bitmap =
      let (p, made, rest) =
        >>=-eq-ok (verify_preludes alloc blk nested) (verify_transfers blk) bounded in
      (p, verify_preludes-Swept alloc blk nested p made, rest)

  Reaches-OnReal : {c : Config} → Reaches blk nested c → OnReal blk nested c
  Reaches-OnReal (enters e) =
      subst (OnReal blk nested) (sym e) (here, verify_walk_block-nonempty blk nested walked)
  Reaches-OnReal (dispatches {c} {d} w r e step) =
      let (p, swept, rest) = bitmap in
      Dispatch-OnReal alloc blk nested p walked swept rest c d w (Reaches-OnReal r) e step

  closure-GoodClosure :
      (c : Config) (w : ℕ)
      → OnReal blk nested c
      → get_elem? blk.instructions c.pc ≡ some w
      → uinstr_op w ≡ Op.closure
      → GoodClosure blk nested c.pc (uinstr_bx w)
  closure-GoodClosure c w (s, h) e op =
      let (p, swept, rest) = bitmap in
      let (fits, _) = Fits-OnReal alloc blk nested p walked swept rest c w (s, h) e in
      let (r, shaped) = fits.shaped (closure-ne-extarg w op) in
      let (k, found) = child_there blk nested c.pc c.ext w r shaped op in
      let (width, _, _) = closure-width nested w k op found in
      record {
        nupvals = k;
        found = found;
        room = closure-room blk nested c w k fits width;
        descriptors = closure-descriptors alloc blk nested p c w k swept s e width;
      }

  shaped-SafeAt :
      (c : Config) (w : ℕ)
      → OnReal blk nested c
      → get_elem? blk.instructions c.pc ≡ some w
      → uinstr_op w ≢ Op.extarg
      → SafeAt blk nested c w
  shaped-SafeAt c w on e ne =
      let (p, swept, rest) = bitmap in
      let (fits, _) = Fits-OnReal alloc blk nested p walked swept rest c w on e in
      let (r, shaped) = fits.shaped ne in
      let (a, b, d) = fields_inside blk nested c.pc c.ext w r shaped fits.opcode in
      record {
        opcode = fits.opcode;
        a_field = a;
        b_field = b;
        c_field = d;
        window = more_registers_inside blk nested c.pc c.ext w r shaped;
        consumes = λ set. takes_site-op_takes_site w (fits.takes_ext set);
        site = site_inside blk nested c.pc c.ext w r shaped fits.opcode;
        constant = constant_inside blk nested c.pc c.ext w r shaped;
        closing = closure-GoodClosure c w on e;
        jump = λ op.
            let (t, at, lands) =
              jump-target blk p c.pc w
                (stepped-OnReal alloc blk nested p walked swept rest c w on e) op in
            (t, at, lands.inside);
      }

  extarg-SafeAt :
      (c : Config) (w : ℕ)
      → OnReal blk nested c
      → get_elem? blk.instructions c.pc ≡ some w
      → uinstr_op w ≡ Op.extarg
      → SafeAt blk nested c w
  unfolding uses_a uses_b uses_c more_registers takes_site
  extarg-SafeAt c w on e op =
      let (p, swept, rest) = bitmap in
      let (fits, _) = Fits-OnReal alloc blk nested p walked swept rest c w on e in
      record {
        opcode = fits.opcode;
        a_field = λ u. absurd (ground arith);
        b_field = λ u. absurd (ground arith);
        c_field = λ u. absurd (ground arith);
        window = ground arith;
        consumes = λ set. takes_site-op_takes_site w (fits.takes_ext set);
        site = λ u. absurd (ground arith);
        constant = λ u. absurd (ground arith);
        closing = λ u. absurd (ground arith);
        jump = λ u. absurd (ground arith);
      }

  pub Reaches-SafeAt :
      {c : Config}
      → Reaches blk nested c
      → (w : ℕ) × (get_elem? blk.instructions c.pc ≡ some w) × SafeAt blk nested c w
  Reaches-SafeAt {c} r =
      let on = Reaches-OnReal r in
      let (w, e) = get_elem?_lt blk.instructions c.pc on.1 in
      (
        w,
        e,
        elim (ℕ_discrete (uinstr_op w) Op.extarg) [
          | yes op ↦ extarg-SafeAt c w on e op
          | no ne ↦ shaped-SafeAt c w on e ne
        ],
      )
