-- ===== src/Chunk/Bounds/Transfers.antt =====
-- Sweep 2 of pass 2: the rules for the control transfer of every unmarked word.
use urbi_embedded.Shared.{
  ℕ, zero, suc, ◌+◌, ◌-◌, ◌≤◌, ◌<◌, ◌≡◌, ◌≢◌, subst, false, List, Option, some, inl, inr, arith,
  length, get_elem?, get_or, lt_of_get_elem?, get_elem?-none, Option-cases, ℕ_discrete,
}
use urbi_embedded.Chunk.Op
use urbi_embedded.Chunk.Word.{uinstr_op}
use urbi_embedded.Chunk.Proto.{ok, Block}
use urbi_embedded.Chunk.Bitmap.{is_prelude_word}
use urbi_embedded.Chunk.Bounds.{verify_target, transfer_step, transfer_loop, verify_transfers}

module _ (blk : Block) (prelude : Option (List ℕ)) where
  transfer_loop_lem :
      (left vi j w : ℕ)
      → vi ≤ j
      → length blk.instructions ≤ vi + left
      → transfer_loop left blk prelude vi ≡ ok tt
      → get_elem? blk.instructions j ≡ some w
      → is_prelude_word prelude j ≡ false
      → transfer_step blk prelude j w ≡ ok tt
  unfolding transfer_loop
  transfer_loop_lem zero vi j w lo room h e m =
      absurd (omega (arith, lt_of_get_elem? blk.instructions j e))
  transfer_loop_lem (suc left) vi j w lo room h e m =
      elim (Option-cases (get_elem? blk.instructions vi)) [
        | inl past ↦ absurd (
            omega (
              arith,
              lt_of_get_elem? blk.instructions j e,
              get_elem?-none blk.instructions vi past,
            ))
        | inr (v, at) ↦ elim (ℕ_discrete vi j) [
          | yes same ↦
              let same_word : v ≡ w =
                let at' = subst (λ i. get_elem? blk.instructions i ≡ some v) same at in cc in
              ground (arith, same, same_word)
          | no ne ↦
              transfer_loop_lem left (vi + 1) j w (omega arith) (omega arith) (ground arith) e m
        ]
      ]

  pub verify_transfers_lem :
      (j w : ℕ)
      → verify_transfers blk prelude ≡ ok tt
      → get_elem? blk.instructions j ≡ some w
      → is_prelude_word prelude j ≡ false
      → transfer_step blk prelude j w ≡ ok tt
  unfolding verify_transfers
  verify_transfers_lem j w =
      transfer_loop_lem (length blk.instructions) 0 j w (omega arith) (omega arith)

  -- Where an accepted transfer lands.
  pub record Lands (target : ℕ) : Type 0 where
    pub inside : target < length blk.instructions
    pub real : is_prelude_word prelude target ≡ false
    pub unprefixed :
        0 < target
        → is_prelude_word prelude (target - 1) ≡ false
        → uinstr_op (get_or blk.instructions (target - 1) 0) ≢ Op.extarg

  pub verify_target-Lands :
      (op target : ℕ) → verify_target blk prelude op target ≡ ok tt → Lands target
  unfolding verify_target
  verify_target-Lands op target h = record {
    inside = ground arith;
    real = ground arith;
    unprefixed = λ pos m e. ground arith;
  }
