-- ===== src/Loader/RoundTrip.antt =====
-- src/chunk/uchunk_io.c: uchunk_deserialize on what uchunk_serialize writes.
use urbi_embedded.Shared.{
  ℕ, zero, suc, ◌+◌, ◌^◌, ◌≤◌, ◌<◌, ◌≡◌, ◌≢◌, refl, sym, ap, ◌∙◌, subst, arith, Bool, true, false,
  List, [], ◌∷◌, ◌++◌, none, some, ltb, ◌==◌, if◌then◌else◌, length, take, drop, length-append,
  append-nil,
}
use urbi_embedded.Chunk.Proto.{ok}
use urbi_embedded.Chunk.Bounds.{verify_chunk}
use urbi_embedded.Loader.Image.{Image, image, Chunk, body_of, view}
use urbi_embedded.Loader.Valid.{IsImage, IsChunk}
use urbi_embedded.Loader.Input.{Reader, ◌>>=◌, ◌>>◌, ret}
use urbi_embedded.Loader.Sections.{bytes_eq, decode_header, decode_metadata}
use urbi_embedded.Loader.Tree.{decode_trailer, verify_root, load_chunk, uchunk_deserialize}
use urbi_embedded.Loader.Reads.{
  take_append, Reads, Reads-ret, Reads-bind, Reads-then, Reads-room, Reads-bytes, Reads-varint_u,
  Reads-request,
}
use urbi_embedded.Loader.Round.{IsText}
use urbi_embedded.Loader.RoundTree.{HasTexts, Reads-proto}
use urbi_embedded.Writer.Emit.{need, too_small, written, uchunk_serialize}
use urbi_embedded.Writer.Format.{varint, text_bytes, proto_bytes, header_bytes, chunk_bytes}
use urbi_embedded.Writer.Fits.{IsChunk-FitsChunk}
use urbi_embedded.Writer.Serialize.{uchunk_serialize_lem}

Reads-header : (off flag : ℕ) → flag < 2 → Reads decode_header off (header_bytes flag) flag
unfolding decode_header bytes_eq
Reads-header off zero h = record {
  at = λ tail fits.
      let long : ltb (off + length (header_bytes 0 ++ tail)) 24 ≡ false = ground arith in
      rw (long, decode_header) refl;
}
Reads-header off (suc zero) h = record {
  at = λ tail fits.
      let long : ltb (off + length (header_bytes 1 ++ tail)) 24 ≡ false = ground arith in
      rw (long, decode_header) refl;
}
Reads-header off (suc (suc flag)) h = absurd (omega arith)

module _ (alloc : ℕ → Bool) (serves : (n : ℕ) → alloc n ≡ true) where
  metadata_of :
      (off : ℕ) (name : List ℕ)
      → length name < 2 ^ 63
      → Reads (decode_metadata alloc) off (varint (length name) ++ name) name
  unfolding decode_metadata
  metadata_of off [] h =
      Reads-bind _ (Reads-varint_u off 0 (omega arith))
        (Reads-room _ (omega arith) (Reads-ret _ []))
  metadata_of off (b ∷ bs) h =
      let named : (suc (length bs) == 0) ≡ false = ground arith in
      Reads-bind _ (Reads-varint_u off (suc (length bs)) (omega arith)) (
        Reads-room _ (omega arith) (
          rw named
            (Reads-then _ (Reads-request alloc serves _ _ (omega arith)) (Reads-bytes _ (b ∷ bs)))))

  Reads-metadata :
      (off : ℕ) (name : List ℕ)
      → IsText name
      → length name < 2 ^ 63
      → Reads (decode_metadata alloc) off (text_bytes name) name
  Reads-metadata off name text h =
      subst (λ u. Reads (decode_metadata alloc) off (varint (length u) ++ u) name) (sym text)
        (metadata_of off name h)

-- As `Reads`, at the end of the buffer.
record Ends {A : Type 0} (m : Reader A) (off : ℕ) (bytes : List ℕ) (a : A) : Type 0 where
  pub at :
      off + length bytes < 2 ^ 64
      → m (record { off = off; rest = bytes })
        ≡ ok (a, record { off = off + length bytes; rest = [] })

Ends-bind :
    {A B : Type 0} {m : Reader A} (f : A → Reader B) {off : ℕ} {xs ys : List ℕ} {a : A} {b : B}
    → Reads m off xs a
    → Ends (f a) (off + length xs) ys b
    → Ends (m >>= f) off (xs ++ ys) b
unfolding ◌>>=◌
Ends-bind {A} {B} {m} f {off} {xs} {ys} {a} {b} h k = record {
  at = λ fits.
      let size = length-append xs ys in
      let first = h.at ys (omega (arith, size)) in
      let second = k.at (omega (arith, size)) in
      rw (first, ◌>>=◌)
        (second ∙ ap (λ n. ok (b, record { off = n; rest = [] })) (omega (arith, size)));
}

flag_is : (flag levels : ℕ) (p : Image) → IsImage flag levels p → (body_of p).arity_prologue ≡ flag
unfolding IsImage
flag_is flag levels (image b ps) (valid, few, below) = valid.flag

module _ (alloc : ℕ → Bool) (serves : (n : ℕ) → alloc n ≡ true) (proto_size : ℕ)
    (sized : proto_size ≢ 0) where
  Ends-accepted :
      (name : List ℕ) (root : Image) (off : ℕ)
      → verify_chunk alloc (view root) ≡ ok tt
      → Ends {A = Chunk}
          (decode_trailer alloc proto_size
            >> (verify_root alloc proto_size root
                >> ret (record { source_name = name; root = root })))
          off
          []
          (record { source_name = name; root = root })
  unfolding ◌>>=◌ decode_trailer verify_root ret
  Ends-accepted name root off accepted = record {
    at = λ fits.
        rw (accepted, ◌>>=◌, verify_root)
          (ap (λ n. ok (record { source_name = name; root = root }, record { off = n; rest = [] }))
            (omega arith));
  }

  loads :
      (c : Chunk)
      → IsChunk c
      → IsText c.source_name
      → HasTexts c.root
      → verify_chunk alloc (view c.root) ≡ ok tt
      → Ends (load_chunk alloc proto_size) 0 (chunk_bytes c) c
  unfolding load_chunk chunk_bytes
  loads c valid name texts accepted =
      let flag = valid.arity_flag in
      let named = text_bytes c.source_name in
      let at = 0 + 0 + length (header_bytes flag) + length named in
      let read : Ends (load_chunk alloc proto_size) 0
          ([] ++ (header_bytes flag ++ (named ++ (proto_bytes at c.root ++ [])))) c =
        Ends-bind _ (Reads-request alloc serves 0 proto_size sized) (
          Ends-bind _ (Reads-header _ flag valid.is_flag) (
            Ends-bind _ (Reads-metadata alloc serves _ c.source_name name valid.name) (
              Ends-bind _
                (Reads-proto alloc serves proto_size sized c.root flag 64 at valid.root texts)
                (Ends-accepted c.source_name c.root _ accepted)))) in
      let here_is : at ≡ 24 + length named = omega arith in
      let bytes : proto_bytes at c.root ++ [] ≡ proto_bytes (24 + length named) c.root =
        append-nil (proto_bytes at c.root) ∙ ap (λ k. proto_bytes k c.root) here_is in
      subst
        (λ f.
          Ends (load_chunk alloc proto_size) 0
            (header_bytes f ++ (named ++ proto_bytes (24 + length named) c.root)) c)
        (sym (flag_is flag 64 c.root valid.root))
        (subst (λ xs. Ends (load_chunk alloc proto_size) 0 (header_bytes flag ++ (named ++ xs)) c)
          bytes read)

  deserialize-bytes :
      (c : Chunk)
      → IsChunk c
      → IsText c.source_name
      → HasTexts c.root
      → verify_chunk alloc (view c.root) ≡ ok tt
      → length (chunk_bytes c) < 2 ^ 64
      → uchunk_deserialize alloc proto_size (some (chunk_bytes c)) ≡ ok c
  unfolding uchunk_deserialize
  deserialize-bytes c valid name texts accepted fits =
      rw ((loads c valid name texts accepted).at (omega (arith, fits)), uchunk_deserialize) refl

  -- For a well-formed chunk whose strings and names have no NUL inside and which the verifier accepts, an
  -- allocator that serves every request, and a buffer of the length that uchunk_serialize asks for or more,
  -- within a `size_t`: it writes that many bytes, and uchunk_deserialize makes the same chunk of them.
  pub deserialize-serialize :
      (c : Chunk) (n : ℕ) (buf : List ℕ)
      → IsChunk c
      → IsText c.source_name
      → HasTexts c.root
      → verify_chunk alloc (view c.root) ≡ ok tt
      → uchunk_serialize c none ≡ need n
      → n ≤ length buf
      → n < 2 ^ 64
      → (out : List ℕ) × (uchunk_serialize c (some buf) ≡ written n out)
        × (uchunk_deserialize alloc proto_size (some (take n out)) ≡ ok c)
  deserialize-serialize c n buf valid name texts accepted asked room fits =
      let (counts, writes) = uchunk_serialize_lem c buf (IsChunk-FitsChunk c valid) in
      let bytes = chunk_bytes c in
      let n_is : length bytes ≡ n = needs (sym counts ∙ asked) in
      let out = bytes ++ drop (length bytes) buf in
      let long : ltb (length buf) (length bytes) ≡ false = ground (arith, n_is) in
      let kept : (if ltb (length buf) (length bytes) then too_small else written (length bytes) out)
          ≡ written (length bytes) out =
        rw long refl in
      let loaded = deserialize-bytes c valid name texts accepted (omega (arith, n_is)) in
      (
        out,
        writes ∙ kept ∙ ap (λ k. written k out) n_is,
        ap (λ k. uchunk_deserialize alloc proto_size (some (take k out))) (sym n_is)
            ∙ ap (λ xs. uchunk_deserialize alloc proto_size (some xs))
                (take_append bytes (drop (length bytes) buf))
            ∙ loaded,
      )
    where
      needs : {a b : ℕ} → need a ≡ need b → a ≡ b
      needs e = cc
