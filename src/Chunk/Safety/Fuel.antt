-- ===== src/Chunk/Safety/Fuel.antt =====
-- src/chunk/uchunk_verify.c: the bounds on the rounds of its loops.
use urbi_embedded.Shared.{
  ℕ, zero, suc, ◌+◌, ◌≤◌, ◌<◌, ◌≡◌, refl, inl, inr, Bool, List, Option, arith, length, get_elem?,
  get_or, get_elem?_past, Option-cases,
}
use urbi_embedded.Chunk.Word.{uinstr_op, uinstr_bx}
use urbi_embedded.Chunk.Shape.{opcode_shapes}
use urbi_embedded.Chunk.Proto.{
  Load, ok, err, fault, ◌>>=◌, Block, Protos, child_nupvals, Load-cases,
}
use urbi_embedded.Chunk.Walk.{Walk, no_shape, verify_shape, walk_step, walk_loop}
use urbi_embedded.Chunk.Bounds.{prelude_step, prelude_loop, mark_prelude}

module _ {ℓ κ} {A : Type ℓ} {B : Type κ} where
  >>=-cong :
      (m : Load A) (f g : A → Load B) → ((a : A) → m ≡ ok a → f a ≡ g a) → (m >>= f) ≡ (m >>= g)
  >>=-cong (ok a) f g h = h a refl
  >>=-cong (err e) f g h = refl
  >>=-cong fault f g h = refl

module _ (blk : Block) (nested : Protos) where
  walk_step-advances : (s t : Walk) (w : ℕ) → walk_step blk nested s w ≡ ok t → s.vi < t.vi
  unfolding walk_step
  walk_step-advances s t w h =
      elim (Load-cases (
        verify_shape blk nested s.vi s.ext (uinstr_op w)
          (get_or opcode_shapes (uinstr_op w) no_shape) w)) [
            | inl (r, e) ↦ ground arith
            | inr (inl (x, e)) ↦ ground arith
            | inr (inr e) ↦ ground arith
          ]

  walk_loop_end :
      (n : ℕ) (s : Walk) → length blk.instructions ≤ s.vi → walk_loop n blk nested s ≡ ok s
  unfolding walk_loop
  walk_loop_end zero s past = refl
  walk_loop_end (suc n) s past = rw (get_elem?_past blk.instructions s.vi past, walk_loop) refl

  -- Rounds beyond the number of words left change nothing: the walk over the words has ended.
  pub walk_loop_enough :
      (fuel more : ℕ) (s : Walk)
      → length blk.instructions ≤ s.vi + fuel
      → fuel ≤ more
      → walk_loop more blk nested s ≡ walk_loop fuel blk nested s
  unfolding walk_loop
  walk_loop_enough zero more s room h = walk_loop_end more s (omega arith)
  walk_loop_enough (suc fuel) zero s room h = absurd (omega arith)
  walk_loop_enough (suc fuel) (suc more) s room h =
      elim (Option-cases (get_elem? blk.instructions s.vi)) [
        | inl past ↦ rw (past, walk_loop) refl
        | inr (w, at) ↦
            rw (at, walk_loop)
              (>>=-cong (walk_step blk nested s w) (walk_loop more blk nested)
                (walk_loop fuel blk nested)
                (λ t step.
                  walk_loop_enough fuel more t (omega (arith, walk_step-advances s t w step))
                    (omega arith)))
      ]

  prelude_step-advances :
      (alloc : ℕ → Bool) (p q : Option (List ℕ)) (vi w next_vi : ℕ)
      → prelude_step alloc blk nested p vi w ≡ ok (q, next_vi)
      → vi < next_vi
  unfolding prelude_step
  prelude_step-advances alloc p q vi w next_vi h =
      elim (Option-cases (child_nupvals nested (uinstr_bx w))) [
        | inl none_e ↦ ground arith
        | inr (k, some_e) ↦ elim (Load-cases (mark_prelude alloc blk p vi k)) [
          | inl (l, m) ↦ ground arith
          | inr (inl (x, m)) ↦ ground arith
          | inr (inr m) ↦ ground arith
        ]
      ]

  prelude_loop_end :
      (alloc : ℕ → Bool) (n : ℕ) (p : Option (List ℕ)) (vi : ℕ)
      → length blk.instructions ≤ vi
      → prelude_loop n alloc blk nested p vi ≡ ok p
  unfolding prelude_loop
  prelude_loop_end alloc zero p vi past = refl
  prelude_loop_end alloc (suc n) p vi past =
      rw (get_elem?_past blk.instructions vi past, prelude_loop) refl

  -- The same of sweep 1 of pass 2.
  pub prelude_loop_enough :
      (alloc : ℕ → Bool) (fuel more : ℕ) (p : Option (List ℕ)) (vi : ℕ)
      → length blk.instructions ≤ vi + fuel
      → fuel ≤ more
      → prelude_loop more alloc blk nested p vi ≡ prelude_loop fuel alloc blk nested p vi
  unfolding prelude_loop
  prelude_loop_enough alloc zero more p vi room h = prelude_loop_end alloc more p vi (omega arith)
  prelude_loop_enough alloc (suc fuel) zero p vi room h = absurd (omega arith)
  prelude_loop_enough alloc (suc fuel) (suc more) p vi room h =
      elim (Option-cases (get_elem? blk.instructions vi)) [
        | inl past ↦ rw (past, prelude_loop) refl
        | inr (w, at) ↦
            rw (at, prelude_loop)
              (>>=-cong (prelude_step alloc blk nested p vi w)
                (λ r. prelude_loop more alloc blk nested r.0 r.1)
                (λ r. prelude_loop fuel alloc blk nested r.0 r.1)
                (λ (q, i) step.
                  prelude_loop_enough alloc fuel more q i
                    (omega (arith, prelude_step-advances alloc p q vi w i step)) (omega arith)))
      ]
