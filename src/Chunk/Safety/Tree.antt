-- ===== src/Chunk/Safety/Tree.antt =====
-- src/chunk/uchunk_verify.c over a whole proto tree, from the root to every child.
use urbi_embedded.Shared.{ℕ, ◌≡◌, Bool, some, get_elem?}
use urbi_embedded.Chunk.Proto.{ok, Block, Proto, Protos, proto, absent, child, >>=-eq-ok}
use urbi_embedded.Chunk.Flow.{Config}
use urbi_embedded.Chunk.Walk.{verify_walk_block, verify_proto_recursive, verify_nested}
use urbi_embedded.Chunk.Bounds.{
  verify_bounds_block, verify_bounds_proto, verify_bounds_nested, verify_chunk,
}
use urbi_embedded.Chunk.Dispatch.{Reaches}
use urbi_embedded.Chunk.Safety.Frame.{SafeAt, Reaches-SafeAt}

-- The protos of a tree, each with its `nested` array.
mutual
  pub data Within (blk : Block) (nested : Protos) : Proto → Type 0 where
    at_root : Within blk nested (proto blk nested)
    below : {b : Block} {ps : Protos} → WithinNested blk nested ps → Within blk nested (proto b ps)

  pub data WithinNested (blk : Block) (nested : Protos) : Protos → Type 0 where
    past_null : {ps : Protos} → WithinNested blk nested ps → WithinNested blk nested (absent ps)
    first : {p : Proto} {ps : Protos} → Within blk nested p → WithinNested blk nested (child p ps)
    later :
        {p : Proto} {ps : Protos}
        → WithinNested blk nested ps
        → WithinNested blk nested (child p ps)

module _ {blk : Block} {nested : Protos} where
  mutual
    unfolding verify_proto_recursive

    walked-Within :
        {p : Proto}
        → Within blk nested p
        → verify_proto_recursive p ≡ ok tt
        → verify_walk_block blk nested ≡ ok tt
    walked-Within at_root h =
        (>>=-eq-ok (verify_walk_block blk nested) (λ _. verify_nested nested) h).1
    walked-Within (below {b} {ps} i) h =
        walked-WithinNested i (>>=-eq-ok (verify_walk_block b ps) (λ _. verify_nested ps) h).2

    walked-WithinNested :
        {ps : Protos}
        → WithinNested blk nested ps
        → verify_nested ps ≡ ok tt
        → verify_walk_block blk nested ≡ ok tt
    walked-WithinNested (past_null i) h = walked-WithinNested i h
    walked-WithinNested (first {p} {ps} i) h =
        walked-Within i (>>=-eq-ok (verify_proto_recursive p) (λ _. verify_nested ps) h).1
    walked-WithinNested (later {p} {ps} i) h =
        walked-WithinNested i (>>=-eq-ok (verify_proto_recursive p) (λ _. verify_nested ps) h).2

  mutual
    unfolding verify_bounds_proto

    bounded-Within :
        (alloc : ℕ → Bool) {p : Proto}
        → Within blk nested p
        → verify_bounds_proto alloc p ≡ ok tt
        → verify_bounds_block alloc blk nested ≡ ok tt
    bounded-Within alloc at_root h =
        (>>=-eq-ok (verify_bounds_block alloc blk nested) (λ _. verify_bounds_nested alloc nested)
          h).1
    bounded-Within alloc (below {b} {ps} i) h =
        bounded-WithinNested alloc i
          (>>=-eq-ok (verify_bounds_block alloc b ps) (λ _. verify_bounds_nested alloc ps) h).2

    bounded-WithinNested :
        (alloc : ℕ → Bool) {ps : Protos}
        → WithinNested blk nested ps
        → verify_bounds_nested alloc ps ≡ ok tt
        → verify_bounds_block alloc blk nested ≡ ok tt
    bounded-WithinNested alloc (past_null i) h = bounded-WithinNested alloc i h
    bounded-WithinNested alloc (first {p} {ps} i) h =
        bounded-Within alloc i
          (>>=-eq-ok (verify_bounds_proto alloc p) (λ _. verify_bounds_nested alloc ps) h).1
    bounded-WithinNested alloc (later {p} {ps} i) h =
        bounded-WithinNested alloc i
          (>>=-eq-ok (verify_bounds_proto alloc p) (λ _. verify_bounds_nested alloc ps) h).2

-- In a verified chunk, whatever proto of the tree a frame runs and wherever its dispatcher comes to,
-- there is a word, and all that the dispatcher reads for it lies inside the proto's tables.
pub verify_chunk-SafeAt :
    (alloc : ℕ → Bool) (root : Proto) {blk : Block} {nested : Protos} {c : Config}
    → verify_chunk alloc root ≡ ok tt
    → Within blk nested root
    → Reaches blk nested c
    → (w : ℕ) × (get_elem? blk.instructions c.pc ≡ some w) × SafeAt blk nested c w
unfolding verify_chunk
verify_chunk-SafeAt alloc root {blk} {nested} h i r =
    let (_, walked, bounded) =
      >>=-eq-ok (verify_proto_recursive root) (λ _. verify_bounds_proto alloc root) h in
    Reaches-SafeAt alloc blk nested (walked-Within i walked) (bounded-Within alloc i bounded) r
