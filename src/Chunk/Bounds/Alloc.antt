-- ===== src/Chunk/Bounds/Alloc.antt =====
-- src/chunk/uchunk_verify.c: what the caller's allocator can change in the verdict.
use urbi_embedded.Shared.{
  ℕ, zero, suc, ◌+◌, ◌/◌, ◌≡◌, refl, ap, ◌∙◌, ◌⊎◌, inl, inr, Bool, true, List, Option, none, some,
  arith, length, get_elem?, Bool-cases, Option-cases, ◌==◌,
}
use urbi_embedded.Chunk.Op
use urbi_embedded.Chunk.Word.{uinstr_op, uinstr_bx}
use urbi_embedded.Chunk.Proto.{
  oom, Load, ok, err, fault, ◌>>=◌, Block, Proto, Protos, proto, nil, absent, child, child_nupvals,
}
use urbi_embedded.Chunk.Walk.{verify_proto_recursive}
use urbi_embedded.Chunk.Bounds.{
  bitmap_for, mark_loop, mark_prelude, prelude_step, prelude_loop, verify_preludes,
  verify_transfers, verify_bounds_block, verify_bounds_proto, verify_bounds_nested, verify_chunk,
}

-- The first run ends as the second does, or out of memory.
abbrev pub EndsAs {ℓ} : {A : Type ℓ} → Load A → Load A → Type ℓ
EndsAs m m' = (m ≡ m') ⊎ (m ≡ err oom)

>>=-EndsAs {ℓ κ} :
    {A : Type ℓ} {B : Type κ} (m m' : Load A) (f g : A → Load B)
    → EndsAs m m'
    → ((a : A) → EndsAs (f a) (g a))
    → EndsAs (m >>= f) (m' >>= g)
>>=-EndsAs m (ok a) f g (inl e) h = elim (h a) [
  | inl same ↦ inl (ap (λ x. x >>= f) e ∙ same)
  | inr out ↦ inr (ap (λ x. x >>= f) e ∙ out)
]
>>=-EndsAs m (err x) f g (inl e) h = inl (ap (λ x. x >>= f) e)
>>=-EndsAs m fault f g (inl e) h = inl (ap (λ x. x >>= f) e)
>>=-EndsAs m m' f g (inr out) h = inr (ap (λ x. x >>= f) out)

abbrev serves : ℕ → Bool
serves nbytes = true

module _ (alloc : ℕ → Bool) where
  bitmap_for-EndsAs :
      (blk : Block) (p : Option (List ℕ))
      → EndsAs (bitmap_for alloc blk p) (bitmap_for serves blk p)
  unfolding bitmap_for
  bitmap_for-EndsAs blk (some bytes) = inl refl
  bitmap_for-EndsAs blk none = elim (Bool-cases (alloc ((length blk.instructions + 7) / 8))) [
    | inl e ↦ inl (ground arith)
    | inr e ↦ inr (ground arith)
  ]

  mark_prelude-EndsAs :
      (blk : Block) (p : Option (List ℕ)) (vi n : ℕ)
      → EndsAs (mark_prelude alloc blk p vi n) (mark_prelude serves blk p vi n)
  unfolding mark_prelude
  mark_prelude-EndsAs blk p vi zero = inl refl
  mark_prelude-EndsAs blk p vi (suc n) =
      >>=-EndsAs (bitmap_for alloc blk p) (bitmap_for serves blk p)
        (λ l. mark_loop (suc n) blk vi 1 l >>= λ l. ok (some l))
        (λ l. mark_loop (suc n) blk vi 1 l >>= λ l. ok (some l)) (bitmap_for-EndsAs blk p)
        (λ l. inl refl)

  module _ (blk : Block) (nested : Protos) where
    prelude_step-EndsAs :
        (p : Option (List ℕ)) (vi w : ℕ)
        → EndsAs (prelude_step alloc blk nested p vi w) (prelude_step serves blk nested p vi w)
    unfolding prelude_step
    prelude_step-EndsAs p vi w = elim (Bool-cases (uinstr_op w == Op.closure)) [
      | inr other ↦ inl (rw (other, prelude_step) refl)
      | inl is ↦ elim (Option-cases (child_nupvals nested (uinstr_bx w))) [
        | inl none_e ↦ inl (rw (is, none_e, prelude_step) refl)
        | inr (k, some_e) ↦
            rw (is, some_e, prelude_step)
              (>>=-EndsAs _ _ _ _ (inl refl)
                (λ _. >>=-EndsAs _ _ _ _ (mark_prelude-EndsAs blk p vi k) (λ _. inl refl)))
      ]
    ]

    prelude_loop-EndsAs :
        (fuel : ℕ) (p : Option (List ℕ)) (vi : ℕ)
        → EndsAs
            (prelude_loop fuel alloc blk nested p vi)
            (prelude_loop fuel serves blk nested p vi)
    unfolding prelude_loop
    prelude_loop-EndsAs zero p vi = inl refl
    prelude_loop-EndsAs (suc fuel) p vi = elim (Option-cases (get_elem? blk.instructions vi)) [
      | inl past ↦ inl (rw (past, prelude_loop) refl)
      | inr (w, at) ↦
          rw (at, prelude_loop)
            (>>=-EndsAs (prelude_step alloc blk nested p vi w)
              (prelude_step serves blk nested p vi w)
              (λ r. prelude_loop fuel alloc blk nested r.0 r.1)
              (λ r. prelude_loop fuel serves blk nested r.0 r.1) (prelude_step-EndsAs p vi w)
              (λ r. prelude_loop-EndsAs fuel r.0 r.1))
    ]

    verify_bounds_block-EndsAs :
        EndsAs (verify_bounds_block alloc blk nested) (verify_bounds_block serves blk nested)
    unfolding verify_bounds_block verify_preludes
    verify_bounds_block-EndsAs =
        >>=-EndsAs (verify_preludes alloc blk nested) (verify_preludes serves blk nested)
          (verify_transfers blk) (verify_transfers blk)
          (prelude_loop-EndsAs (length blk.instructions) none 0) (λ p. inl refl)

  mutual
    unfolding verify_bounds_proto

    bounds_proto-EndsAs :
        (p : Proto) → EndsAs (verify_bounds_proto alloc p) (verify_bounds_proto serves p)
    bounds_proto-EndsAs (proto blk nested) =
        >>=-EndsAs (verify_bounds_block alloc blk nested) (verify_bounds_block serves blk nested)
          (λ _. verify_bounds_nested alloc nested) (λ _. verify_bounds_nested serves nested)
          (verify_bounds_block-EndsAs blk nested) (λ _. bounds_nested-EndsAs nested)

    bounds_nested-EndsAs :
        (ps : Protos) → EndsAs (verify_bounds_nested alloc ps) (verify_bounds_nested serves ps)
    bounds_nested-EndsAs nil = inl refl
    bounds_nested-EndsAs (absent ps) = bounds_nested-EndsAs ps
    bounds_nested-EndsAs (child p ps) =
        >>=-EndsAs (verify_bounds_proto alloc p) (verify_bounds_proto serves p)
          (λ _. verify_bounds_nested alloc ps) (λ _. verify_bounds_nested serves ps)
          (bounds_proto-EndsAs p) (λ _. bounds_nested-EndsAs ps)

  -- The allocator changes the verdict on a chunk only by running out: any verdict other than
  -- "out of memory" is the one reached with an allocator that serves every request.
  pub verify_chunk-EndsAs :
      (p : Proto)
      → (verify_chunk alloc p ≡ verify_chunk (λ _. true) p) ⊎ (verify_chunk alloc p ≡ err oom)
  unfolding verify_chunk
  verify_chunk-EndsAs p =
      >>=-EndsAs (verify_proto_recursive p) (verify_proto_recursive p)
        (λ _. verify_bounds_proto alloc p) (λ _. verify_bounds_proto serves p) (inl refl)
        (λ _. bounds_proto-EndsAs p)
