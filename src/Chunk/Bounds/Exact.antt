-- ===== src/Chunk/Bounds/Exact.antt =====
-- src/chunk/uchunk_verify.c, sweep 1: the bitmap against the linear scan.
use urbi_embedded.Shared.{ℕ, ◌<◌, ◌≡◌, ◌↔◌, Bool, false, List, Option, length, subst, sym, arith}
use urbi_embedded.Chunk.Proto.{ok, Block, Protos}
use urbi_embedded.Chunk.Flow.{Config, Scan, entry}
use urbi_embedded.Chunk.Bitmap.{is_prelude_word}
use urbi_embedded.Chunk.Bounds.{verify_preludes}
use urbi_embedded.Chunk.Bounds.Preludes.{verify_preludes-Swept}

-- When sweep 1 accepts, a word inside the proto is unmarked exactly where the scan from the entry,
-- stepping over the words that each closure owns, stands on it.
pub verify_preludes-Scan :
    (alloc : ℕ → Bool) (blk : Block) (nested : Protos) (p : Option (List ℕ)) (j : ℕ)
    → verify_preludes alloc blk nested ≡ ok p
    → j < length blk.instructions
    → (is_prelude_word p j ≡ false) ↔ ((c : Config) × Scan blk nested entry c × (c.pc ≡ j))
verify_preludes-Scan alloc blk nested p j h hj =
    let swept = verify_preludes-Swept alloc blk nested p h in
    (
      swept.covered j (omega arith) hj,
      λ (c, s, at).
          subst (λ i. is_prelude_word p i ≡ false) at
            (swept.reals c s (subst (λ i. i < length blk.instructions) (sym at) hj)),
    )
