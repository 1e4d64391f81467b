-- ===== src/Chunk/Safety/NoFault.antt =====
-- src/chunk/uchunk_verify.c, pass 2 behind an accepted pass 1: its reads through a child of the proto.
use urbi_embedded.Shared.{
  ℕ, zero, suc, ◌+◌, ◌≡◌, ◌≢◌, refl, sym, subst, inl, inr, Bool, List, Option, none, some, arith,
  length, get_elem?, Option-cases, ℕ_discrete,
}
use urbi_embedded.Chunk.Op
use urbi_embedded.Chunk.Word.{uinstr_op, uinstr_bx}
use urbi_embedded.Chunk.Proto.{
  ok, fault, ◌>>=◌, Block, Proto, Protos, proto, nil, absent, child, child_nupvals, >>=-eq-ok,
  Load-cases,
}
use urbi_embedded.Chunk.Flow.{Config, Scan, here, entry, Scan-snoc, prelude_width, after}
use urbi_embedded.Chunk.Walk.{verify_walk_block, verify_proto_recursive, verify_nested}
use urbi_embedded.Chunk.Walk.Sound.{verify_walk_block-Fits}
use urbi_embedded.Chunk.Walk.Operands.{child_there}
use urbi_embedded.Chunk.Bitmap.{mark_word}
use urbi_embedded.Chunk.Bounds.{
  mark_loop, bitmap_for, mark_prelude, prelude_step, prelude_loop, verify_preludes, verify_target,
  jmp_target, transfer_step, transfer_loop, verify_transfers, verify_bounds_block,
  verify_bounds_proto, verify_bounds_nested, verify_chunk,
}
use urbi_embedded.Chunk.Safety.Defined.{>>=-defined, verify_walk_block-defined}

mark_loop-defined :
    (left : ℕ) (blk : Block) (vi k : ℕ) (bytes : List ℕ) → mark_loop left blk vi k bytes ≢ fault
unfolding mark_loop
mark_loop-defined zero blk vi k bytes h = cc
mark_loop-defined (suc left) blk vi k bytes h =
    ground (arith, mark_loop-defined left blk vi (k + 1) (mark_word bytes (vi + k)))

bitmap_for-defined :
    (alloc : ℕ → Bool) (blk : Block) (p : Option (List ℕ)) → bitmap_for alloc blk p ≢ fault
unfolding bitmap_for
bitmap_for-defined alloc blk (some bytes) h = cc
bitmap_for-defined alloc blk none h = ground arith

mark_prelude-defined :
    (alloc : ℕ → Bool) (blk : Block) (p : Option (List ℕ)) (vi n : ℕ)
    → mark_prelude alloc blk p vi n ≢ fault
unfolding mark_prelude
mark_prelude-defined alloc blk p vi zero h = cc
mark_prelude-defined alloc blk p vi (suc n) h =
    >>=-defined (bitmap_for alloc blk p) (λ l. mark_loop (suc n) blk vi 1 l >>= λ l. ok (some l))
      (bitmap_for-defined alloc blk p)
      (λ l.
        >>=-defined (mark_loop (suc n) blk vi 1 l) (λ l. ok (some l))
          (mark_loop-defined (suc n) blk vi 1 l) (λ l h'. cc))
      h

target-defined : (blk : Block) (p : Option (List ℕ)) (op t : ℕ) → verify_target blk p op t ≢ fault
unfolding verify_target
target-defined blk p op t h = ground arith

transfer_step-defined :
    (blk : Block) (p : Option (List ℕ)) (vi w : ℕ) → transfer_step blk p vi w ≢ fault
unfolding transfer_step
transfer_step-defined blk p vi w h = elim (Option-cases (jmp_target vi (uinstr_bx w))) [
  | inl e ↦ ground (
    arith,
    target-defined blk p (uinstr_op w) (vi + 2),
    target-defined blk p (uinstr_op w) (uinstr_bx w),
  )
  | inr (t, e) ↦ ground (
    arith,
    target-defined blk p (uinstr_op w) t,
    target-defined blk p (uinstr_op w) (vi + 2),
    target-defined blk p (uinstr_op w) (uinstr_bx w),
  )
]

transfer_loop-defined :
    (left : ℕ) (blk : Block) (p : Option (List ℕ)) (vi : ℕ) → transfer_loop left blk p vi ≢ fault
unfolding transfer_loop
transfer_loop-defined zero blk p vi h = cc
transfer_loop-defined (suc left) blk p vi h = elim (Option-cases (get_elem? blk.instructions vi)) [
  | inl e ↦ ground arith
  | inr (w, e) ↦
      ground (arith, transfer_step-defined blk p vi w, transfer_loop-defined left blk p (vi + 1))
]

module _ (alloc : ℕ → Bool) (blk : Block) (nested : Protos)
    (walked : verify_walk_block blk nested ≡ ok tt) where
  -- At a real instruction the child of an OP_CLOSURE is there.
  prelude_step-defined :
      (p : Option (List ℕ)) (c : Config) (w : ℕ)
      → Scan blk nested entry c
      → get_elem? blk.instructions c.pc ≡ some w
      → prelude_step alloc blk nested p c.pc w ≢ fault
  unfolding prelude_step
  prelude_step-defined p c w s e h = elim (ℕ_discrete (uinstr_op w) Op.closure) [
    | no ne ↦ ground arith
    | yes op ↦
        let (fits, _) = verify_walk_block-Fits blk nested walked w s e in
        let (r, shaped) = fits.shaped (closure-ne-extarg w op) in
        let (k, found) = child_there blk nested c.pc c.ext w r shaped op in
        closure_case p c.pc w k op found h
  ]
    where
      closure-ne-extarg : (w : ℕ) → uinstr_op w ≡ Op.closure → uinstr_op w ≢ Op.extarg
      closure-ne-extarg w op e = cc

      closure_case :
          (p : Option (List ℕ)) (vi w k : ℕ)
          → uinstr_op w ≡ Op.closure
          → child_nupvals nested (uinstr_bx w) ≡ some k
          → prelude_step alloc blk nested p vi w ≢ fault
      closure_case p vi w k op found h = ground (arith, mark_prelude-defined alloc blk p vi k)

  -- The loop moves to the next real instruction.
  prelude_step-moves :
      (p q : Option (List ℕ)) (vi w next_vi : ℕ)
      → prelude_step alloc blk nested p vi w ≡ ok (q, next_vi)
      → next_vi ≡ vi + prelude_width nested w + 1
  unfolding prelude_step prelude_width
  prelude_step-moves p q vi w next_vi h = elim (Option-cases (child_nupvals nested (uinstr_bx w))) [
    | inl none_e ↦ ground arith
    | inr (k, some_e) ↦ elim (Load-cases (mark_prelude alloc blk p vi k)) [
      | inl (l, m) ↦ ground arith
      | inr (inl (x, m)) ↦ ground arith
      | inr (inr m) ↦ ground arith
    ]
  ]

  prelude_loop-defined :
      (fuel : ℕ) (p : Option (List ℕ)) (vi : ℕ) (c : Config)
      → vi ≡ c.pc
      → Scan blk nested entry c
      → prelude_loop fuel alloc blk nested p vi ≢ fault
  unfolding prelude_loop
  prelude_loop-defined zero p vi c ev s h = cc
  prelude_loop-defined (suc fuel) p vi c ev s h =
      elim (Option-cases (get_elem? blk.instructions vi)) [
        | inl e ↦ ground arith
        | inr (w, e) ↦
            let at = subst (λ i. get_elem? blk.instructions i ≡ some w) ev e in
            let stepped =
              subst (λ i. prelude_step alloc blk nested p i w ≢ fault) (sym ev)
                (prelude_step-defined p c w s at) in
            elim (Load-cases (prelude_step alloc blk nested p vi w)) [
              | inl ((q, next_vi), step) ↦
                  let rest : prelude_loop fuel alloc blk nested q next_vi ≡ fault =
                    rw (e, step, prelude_loop) at h in
                  prelude_loop-defined fuel q next_vi (after nested c w)
                    (unfold after in omega (arith, prelude_step-moves p q vi w next_vi step, ev))
                    (Scan-snoc w s at) rest
              | inr (inl (x, step)) ↦ ground arith
              | inr (inr step) ↦ stepped step
            ]
      ]

  verify_bounds_block-defined : verify_bounds_block alloc blk nested ≢ fault
  unfolding verify_bounds_block verify_preludes verify_transfers
  verify_bounds_block-defined =
      >>=-defined (verify_preludes alloc blk nested) (verify_transfers blk)
        (prelude_loop-defined (length blk.instructions) none 0 entry refl here)
        (λ p. transfer_loop-defined (length blk.instructions) blk p 0)

mutual
  unfolding verify_proto_recursive

  walk-defined : (p : Proto) → verify_proto_recursive p ≢ fault
  walk-defined (proto blk nested) =
      >>=-defined (verify_walk_block blk nested) (λ _. verify_nested nested)
        (verify_walk_block-defined blk nested) (λ _. walk_nested-defined nested)

  walk_nested-defined : (ps : Protos) → verify_nested ps ≢ fault
  walk_nested-defined nil h = cc
  walk_nested-defined (absent ps) h = walk_nested-defined ps h
  walk_nested-defined (child p ps) h =
      >>=-defined (verify_proto_recursive p) (λ _. verify_nested ps) (walk-defined p)
        (λ _. walk_nested-defined ps) h

mutual
  unfolding verify_proto_recursive verify_bounds_proto

  bounds-defined :
      (alloc : ℕ → Bool) (p : Proto)
      → verify_proto_recursive p ≡ ok tt
      → verify_bounds_proto alloc p ≢ fault
  bounds-defined alloc (proto blk nested) walked =
      let (_, mine, rest) =
        >>=-eq-ok (verify_walk_block blk nested) (λ _. verify_nested nested) walked in
      >>=-defined (verify_bounds_block alloc blk nested) (λ _. verify_bounds_nested alloc nested)
        (verify_bounds_block-defined alloc blk nested mine)
        (λ _. bounds_nested-defined alloc nested rest)

  bounds_nested-defined :
      (alloc : ℕ → Bool) (ps : Protos)
      → verify_nested ps ≡ ok tt
      → verify_bounds_nested alloc ps ≢ fault
  bounds_nested-defined alloc nil walked h = cc
  bounds_nested-defined alloc (absent ps) walked h = bounds_nested-defined alloc ps walked h
  bounds_nested-defined alloc (child p ps) walked h =
      let (_, mine, rest) = >>=-eq-ok (verify_proto_recursive p) (λ _. verify_nested ps) walked in
      >>=-defined (verify_bounds_proto alloc p) (λ _. verify_bounds_nested alloc ps)
        (bounds-defined alloc p mine) (λ _. bounds_nested-defined alloc ps rest) h

-- On any decoded chunk and with any allocator, the verifier reads through no NULL child.
pub verify_chunk-defined : (alloc : ℕ → Bool) (p : Proto) → verify_chunk alloc p ≢ fault
unfolding verify_chunk
verify_chunk-defined alloc p h = elim (Load-cases (verify_proto_recursive p)) [
  | inl (_, walked) ↦ bounds-defined alloc p walked (rw (walked) at h)
  | inr (inl (e, refused)) ↦ ground arith
  | inr (inr faulted) ↦ walk-defined p faulted
]
