-- ===== src/Writer/Serialize.antt =====
-- src/emit/uemit_serialize.c: what uchunk_serialize answers and leaves in the caller's buffer.
use urbi_embedded.Shared.{
  ℕ, ◌+◌, ◌≤◌, ◌≡◌, sym, ap, ◌∙◌, arith, List, ◌++◌, none, some, ltb, if◌then◌else◌, length, drop,
  Bool-cases, inl, inr,
}
use urbi_embedded.Varint.Encode.{drop-splice}
use urbi_embedded.Loader.Image.{Chunk}
use urbi_embedded.Writer.Sink.{Sink, copy_in, put_bytes}
use urbi_embedded.Writer.Emit.{write_chunk, need, too_small, written, uchunk_serialize}
use urbi_embedded.Writer.Stores.{copy_in-splice}
use urbi_embedded.Writer.Format.{chunk_bytes}
use urbi_embedded.Writer.Agrees.{FitsChunk, chunk-Stores}

counted :
    (c : Chunk)
    → FitsChunk c
    → write_chunk none c ≡ record { buf = none; off = 0 + length (chunk_bytes c) }
unfolding put_bytes
counted c fits = (chunk-Stores none c fits).same

stored :
    (c : Chunk) (buf : List ℕ)
    → FitsChunk c
    → length (chunk_bytes c) ≤ length buf
    → write_chunk (some buf) c ≡ record {
      buf = some (chunk_bytes c ++ drop (length (chunk_bytes c)) buf);
      off = 0 + length (chunk_bytes c);
    }
unfolding put_bytes
stored c buf fits room =
    let bytes = chunk_bytes c in
    let here_is : copy_in buf 0 bytes ≡ bytes ++ drop (0 + length bytes) buf =
      sym (copy_in-splice buf 0 bytes) ∙ drop-splice buf 0 bytes (omega arith) in
    (chunk-Stores (some buf) c fits).same
    ∙ ap (λ b. record { buf = some b; off = 0 + length bytes })
        (here_is ∙ ap (λ k. bytes ++ drop k buf) (omega arith))

-- For a chunk whose numbers and counts are `uint64_t`s and any buffer: with a NULL buffer uchunk_serialize answers
-- the length of the chunk's bytes; with the buffer it answers UCHUNK_LOAD_TRUNCATED negated when the buffer is
-- shorter than that; otherwise it answers that length, has stored the bytes at the start, and has left the
-- rest as it was.
pub uchunk_serialize_lem :
    (c : Chunk) (buf : List ℕ)
    → FitsChunk c
    → (uchunk_serialize c none ≡ need (length (chunk_bytes c)))
      × (uchunk_serialize c (some buf) ≡ (
          if ltb (length buf) (length (chunk_bytes c))
          then too_small
          else written
              (length (chunk_bytes c))
              (chunk_bytes c ++ drop (length (chunk_bytes c)) buf)))
unfolding uchunk_serialize
uchunk_serialize_lem c buf fits =
    let n = length (chunk_bytes c) in
    let size : (write_chunk none c).off ≡ n =
      ap (λ (s : Sink). s.off) (counted c fits) ∙ omega arith in
    (
      ap need size,
      elim (Bool-cases (ltb (length buf) n)) [
        | inl short ↦ ground (arith, size, short)
        | inr room ↦
            let long : n ≤ length buf = ground (arith, room) in
            ground (arith, size, room, stored c buf fits long)
      ],
    )
