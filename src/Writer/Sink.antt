-- ===== src/Writer/Sink.antt =====
-- The stores of src/emit/uemit_serialize.c: with a NULL buffer they count and write nothing.
use urbi_embedded.Shared.{
  ℕ, zero, suc, ◌+◌, ◌%◌, List, [], ◌∷◌, Option, none, some, ◌==◌, if◌then◌else◌, length, set,
}
use urbi_embedded.Varint.{uvarint_size_u, uvarint_size_zz, uvarint_write_u, uvarint_write_zz}

pub record Sink : Type 0 where
  pub buf : Option (List ℕ)
  pub off : ℕ

-- `put(buf, off++, v)`
unfoldable pub put : Sink → ℕ → Sink
put s v = elim s.buf [
  | none ↦ record s { off = s.off + 1 }
  | some buf ↦ record { buf = some (set buf s.off v); off = s.off + 1 }
]

-- `emit_memcpy(buf + off, src, n)`, where `n` is the number of bytes at `src`.
unfoldable pub copy_in : List ℕ → ℕ → List ℕ → List ℕ
copy_in buf off [] = buf
copy_in buf off (x ∷ xs) = copy_in (set buf off x) (off + 1) xs

unfoldable pub put_bytes : Sink → List ℕ → Sink
put_bytes s src = elim s.buf [
  | none ↦ record s { off = s.off + length src }
  | some buf ↦ record { buf = some (copy_in buf s.off src); off = s.off + length src }
]

unfoldable pub put_varint_u : Sink → ℕ → Sink
put_varint_u s v = elim s.buf [
  | none ↦ record s { off = s.off + uvarint_size_u v }
  | some buf ↦ let w = uvarint_write_u buf s.off v in record { buf = some w.0; off = w.1 }
]

unfoldable pub put_varint_zz : Sink → ℕ → Sink
put_varint_zz s v = elim s.buf [
  | none ↦ record s { off = s.off + uvarint_size_zz v }
  | some buf ↦ let w = uvarint_write_zz buf s.off v in record { buf = some w.0; off = w.1 }
]

-- `while ((off & 3U) != 0U)`; three rounds reach the next multiple of four.
unfoldable pub align_loop : ℕ → Sink → Sink
align_loop zero s = s
align_loop (suc left) s = let more = align_loop left (put s 0) in if s.off % 4 == 0 then s else more

abbrev pub put_align4 : Sink → Sink
put_align4 s = align_loop 3 s

-- `urbi_strlen` stops at the first NUL of what stands before the closing one.
unfoldable pub c_string : List ℕ → List ℕ
c_string [] = []
c_string (b ∷ bs) = let more = b ∷ c_string bs in if b == 0 then [] else more
