-- ===== src/Loader/SoundTree.antt =====
-- src/chunk/uchunk_io.c on any bytes: the protos, the chunk and what uchunk_deserialize answers.
use urbi_embedded.Shared.{ℕ, ◌^◌, ◌≤◌, ◌≡◌, Bool, false}
use urbi_embedded.Chunk.Proto.{Load, ok, err, fault}
use urbi_embedded.Chunk.Bounds.{verify_chunk}
use urbi_embedded.Loader.Image.{Image, Chunk, view}
use urbi_embedded.Loader.Valid.{IsChunk}
use urbi_embedded.Loader.Input.{Input}
use urbi_embedded.Loader.Yields.{Yields}

module _ (alloc : ℕ → Bool) (sane : (n : ℕ) → 2 ^ 63 ≤ n → alloc n ≡ false) (proto_size : ℕ) where
  abbrev pub Loaded : Chunk → Type 0
  Loaded c = IsChunk c × (verify_chunk alloc (view c.root) ≡ ok tt)

  -- What every answer of the loader is: no fault, and no chunk that is not well formed.
  abbrev pub Answers : Load Chunk → Type 0
  Answers (ok c) = Loaded c
  Answers (err rc) = Unit {0}
  Answers fault = ⊥
