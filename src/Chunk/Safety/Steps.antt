-- ===== src/Chunk/Safety/Steps.antt =====
-- One dispatched word of an accepted proto, against the scan and the words.
use urbi_embedded.Shared.{
  ℕ, ◌+◌, ◌≤◌, ◌<◌, ◌≡◌, ◌≢◌, sym, ap, ◌∙◌, subst, inl, inr, Bool, true, List, Option, none, some,
  arith, length, get_elem?, Bool-cases, Option-cases, dec_lt,
}
use urbi_embedded.Chunk.Op
use urbi_embedded.Chunk.Word.{uinstr_op, uinstr_bx}
use urbi_embedded.Chunk.Proto.{ok, Block, Protos, child_nupvals}
use urbi_embedded.Chunk.Flow.{Config, Scan, Scan-snoc, prelude_width, after, entry}
use urbi_embedded.Chunk.Walk.{op_takes_site, verify_walk_block}
use urbi_embedded.Chunk.Walk.Sound.{Fits, verify_walk_block-Fits}
use urbi_embedded.Chunk.Bounds.{
  jmp_target, is_handler, op_may_skip, verify_target, transfer_step, verify_transfers,
}
use urbi_embedded.Chunk.Bounds.Preludes.{Swept}
use urbi_embedded.Chunk.Bounds.Transfers.{Lands, verify_target-Lands, verify_transfers_lem}
use urbi_embedded.Chunk.Dispatch.{
  jump_pc, takes_site, falls_through, steps_over, names_handler, goes_to, Dispatch, prefix, falls,
  closes, jumps, skips, handles,
}
use urbi_embedded.Chunk.Safety.Landing.{extarg_width, at_pc, Scan-unprefixed, Lands-Scan}

pub takes_site-op_takes_site : (w : ℕ) → op_takes_site (uinstr_op w) ≡ true → takes_site w ≡ true
unfolding takes_site op_takes_site
takes_site-op_takes_site w h = ground arith

-- The target that sweep 2 checks is the one that the dispatcher computes.
jump_pc-jmp_target : (pc bx : ℕ) → jmp_target pc bx ≡ jump_pc pc bx
unfolding jump_pc jmp_target
jump_pc-jmp_target pc bx = ground arith

falls-width :
    (nested : Protos) (w : ℕ)
    → falls_through w ≡ true
    → (prelude_width nested w ≡ 0) × (uinstr_op w ≢ Op.ret) × (uinstr_op w ≢ Op.extarg)
unfolding falls_through prelude_width
falls-width nested w h = ground arith

pub closure-width :
    (nested : Protos) (w k : ℕ)
    → uinstr_op w ≡ Op.closure
    → child_nupvals nested (uinstr_bx w) ≡ some k
    → (prelude_width nested w ≡ k) × (uinstr_op w ≢ Op.ret) × (uinstr_op w ≢ Op.extarg)
unfolding prelude_width
closure-width nested w k e h = ground arith

module _ (blk : Block) (p : Option (List ℕ)) (vi w : ℕ)
    (stepped : transfer_step blk p vi w ≡ ok tt) where
  pub jump-target :
      uinstr_op w ≡ Op.jmp → (t : ℕ) × (jump_pc vi (uinstr_bx w) ≡ some t) × Lands blk p t
  unfolding transfer_step
  jump-target e = elim (Option-cases (jmp_target vi (uinstr_bx w))) [
    | inl none_e ↦ absurd (ground arith)
    | inr (t, at) ↦
        let checked : verify_target blk p (uinstr_op w) t ≡ ok tt = ground arith in
        (
          t,
          sym (jump_pc-jmp_target vi (uinstr_bx w)) ∙ at,
          verify_target-Lands blk p (uinstr_op w) t checked,
        )
  ]

  skip-target : steps_over w ≡ true → Lands blk p (vi + 2)
  unfolding transfer_step steps_over op_may_skip
  skip-target h =
      let checked : verify_target blk p (uinstr_op w) (vi + 2) ≡ ok tt = ground arith in
      verify_target-Lands blk p (uinstr_op w) (vi + 2) checked

  handler-target : names_handler w ≡ true → Lands blk p (uinstr_bx w)
  unfolding transfer_step names_handler op_may_skip is_handler
  handler-target h =
      let checked : verify_target blk p (uinstr_op w) (uinstr_bx w) ≡ ok tt = ground arith in
      verify_target-Lands blk p (uinstr_op w) (uinstr_bx w) checked

-- What holds wherever the dispatcher stands.
abbrev pub OnReal : Block → Protos → Config → Type 0
OnReal blk nested c = Scan blk nested entry c × (c.pc < length blk.instructions)

module _ (alloc : ℕ → Bool) (blk : Block) (nested : Protos) (p : Option (List ℕ))
    (walked : verify_walk_block blk nested ≡ ok tt) (swept : Swept alloc blk nested entry none p)
    (bounded : verify_transfers blk p ≡ ok tt) where
  pub Fits-OnReal :
      (c : Config) (w : ℕ)
      → OnReal blk nested c
      → get_elem? blk.instructions c.pc ≡ some w
      → Fits blk nested c w
        × (length blk.instructions ≤ (after nested c w).pc → uinstr_op w ≡ Op.ret)
  Fits-OnReal c w (s, _) e = verify_walk_block-Fits blk nested walked w s e

  pub stepped-OnReal :
      (c : Config) (w : ℕ)
      → OnReal blk nested c
      → get_elem? blk.instructions c.pc ≡ some w
      → transfer_step blk p c.pc w ≡ ok tt
  stepped-OnReal c w (s, h) e = verify_transfers_lem blk p c.pc w bounded e (swept.reals c s h)

  -- Site digits never outlive the word behind their prefix.
  goes_to-at_pc :
      (c : Config) (w pc : ℕ)
      → OnReal blk nested c
      → get_elem? blk.instructions c.pc ≡ some w
      → goes_to c w pc ≡ at_pc pc
  goes_to-at_pc c w pc (s, h) e =
      let (fits, _) = Fits-OnReal c w (s, h) e in
      elim (Bool-cases c.pending) [
        | inl set ↦ let t = takes_site-op_takes_site w (fits.takes_ext set) in ground arith
        | inr clear ↦
            let zero_ext : c.ext ≡ 0 = ap (λ (x : Config). x.ext) (Scan-unprefixed s clear) in
            ground arith
      ]

  Lands-OnReal :
      (c d : Config) (w pc : ℕ)
      → OnReal blk nested c
      → get_elem? blk.instructions c.pc ≡ some w
      → d ≡ goes_to c w pc
      → Lands blk p pc
      → OnReal blk nested d
  Lands-OnReal c d w pc on e moved lands =
      subst (OnReal blk nested) (sym (moved ∙ goes_to-at_pc c w pc on e))
        (Lands-Scan alloc blk nested p swept pc lands, lands.inside)

  advances-OnReal :
      (c d : Config) (w : ℕ)
      → OnReal blk nested c
      → get_elem? blk.instructions c.pc ≡ some w
      → uinstr_op w ≢ Op.ret
      → uinstr_op w ≢ Op.extarg
      → d ≡ goes_to c w (c.pc + prelude_width nested w + 1)
      → OnReal blk nested d
  unfolding after
  advances-OnReal c d w on e ne_ret ne_ext moved =
      let same : d ≡ after nested c w = moved ∙ goes_to-at_pc c w _ on e ∙ ground arith in
      let (_, last) = Fits-OnReal c w on e in
      subst (OnReal blk nested) (sym same) (
        Scan-snoc w on.0 e,
        elim (dec_lt (after nested c w).pc (length blk.instructions)) [
          | yes h ↦ h
          | no past ↦ absurd (ne_ret (last (omega arith)))
        ],
      )

  pub Dispatch-OnReal :
      (c d : Config) (w : ℕ)
      → OnReal blk nested c
      → get_elem? blk.instructions c.pc ≡ some w
      → Dispatch blk nested c d w
      → OnReal blk nested d
  unfolding after
  Dispatch-OnReal c d w on e (prefix op moved) =
      let (fits, _) = Fits-OnReal c w on e in
      let same : d ≡ after nested c w = moved ∙ ground (arith, extarg_width nested w op) in
      subst (OnReal blk nested) (sym same)
        (Scan-snoc w on.0 e, omega (arith, fits.prefix_inside op, extarg_width nested w op))
  Dispatch-OnReal c d w on e (falls h moved) =
      let (width, ne_ret, ne_ext) = falls-width nested w h in
      advances-OnReal c d w on e ne_ret ne_ext (moved ∙ ap (goes_to c w) (omega (arith, width)))
  Dispatch-OnReal c d w on e (closes k op found moved) =
      let (width, ne_ret, ne_ext) = closure-width nested w k op found in
      advances-OnReal c d w on e ne_ret ne_ext (moved ∙ ap (goes_to c w) (omega (arith, width)))
  Dispatch-OnReal c d w on e (jumps pc op at moved) =
      let (t, at', lands) = jump-target blk p c.pc w (stepped-OnReal c w on e) op in
      let same : t ≡ pc = cc in Lands-OnReal c d w pc on e moved (subst (Lands blk p) same lands)
  Dispatch-OnReal c d w on e (skips h moved) =
      Lands-OnReal c d w (c.pc + 2) on e moved
        (skip-target blk p c.pc w (stepped-OnReal c w on e) h)
  Dispatch-OnReal c d w on e (handles h moved) =
      Lands-OnReal c d w (uinstr_bx w) on e moved
        (handler-target blk p c.pc w (stepped-OnReal c w on e) h)
