-- ===== src/Writer/Emit.antt =====
-- src/emit/uemit_serialize.c: a chunk written section by section. The source name, the strings and the site names are C
-- strings, `line_deltas` has `instr_count` bytes.
use urbi_embedded.Shared.{
  ℕ, zero, suc, ◌/◌, ◌%◌, ◌^◌, not, List, [], ◌∷◌, Option, none, some, ltb, ◌==◌, if◌then◌else◌,
  length, take,
}
use urbi_embedded.Loader.Image.{
  Constant, int, float, str, bare, AbsLine, Body, Image, image, Images, none_left, hole, nested,
  Chunk, body_of,
}
use urbi_embedded.Loader.Valid.{nested_count}
use urbi_embedded.Loader.Sections.{canary, version_byte}
use urbi_embedded.Writer.Sink.{
  Sink, put, put_bytes, put_varint_u, put_varint_zz, put_align4, c_string,
}

abbrev pub name_of : Option (List ℕ) → List ℕ
name_of none = []
name_of (some name) = c_string name

unfoldable pub names_out : Sink → List (Option (List ℕ)) → Sink
names_out s [] = s
names_out s (n ∷ ns) = names_out (put_bytes (put_varint_u s (length (name_of n))) (name_of n)) ns

unfoldable pub write_site_names : Sink → List (Option (List ℕ)) → Sink
write_site_names s names = names_out (put_varint_u s (length names)) names

unfoldable pub write_constant : Sink → Constant → Sink
write_constant s (int v) = put_varint_zz (put s 1) v
write_constant s (float f) = put_bytes (put s 2) (take 8 f)
write_constant s (str t) = put_bytes (put_varint_u (put s 4) (length (c_string t))) (c_string t)
write_constant s (bare kind) = put s kind

unfoldable pub constants_out : Sink → List Constant → Sink
constants_out s [] = s
constants_out s (c ∷ cs) = constants_out (write_constant s c) cs

unfoldable pub words_out : Sink → List ℕ → Sink
words_out s [] = s
words_out s (w ∷ ws) =
    words_out
      (put (put (put (put s (w % 256)) (w / 2 ^ 8 % 256)) (w / 2 ^ 16 % 256)) (w / 2 ^ 24 % 256)) ws

unfoldable pub abs_lines_out : Sink → List AbsLine → Sink
abs_lines_out s [] = s
abs_lines_out s (l ∷ ls) = abs_lines_out (put_varint_u (put_varint_u s l.pc) l.line) ls

-- `write_proto` up to the nested protos.
unfoldable pub write_fields : Sink → Body → Sink
write_fields s b =
    let header = put (put (put s b.max_reg) b.nupvals) b.nparams in
    let constants = constants_out (put_varint_u header (length b.constants)) b.constants in
    let words =
      words_out (put_align4 (put_varint_u constants (length b.instructions))) b.instructions in
    let deltas =
      put_bytes (put_varint_u words (length b.instructions))
        (take (length b.instructions) b.line_deltas) in
    let lines = abs_lines_out (put_varint_u deltas (length b.abs_lines)) b.abs_lines in
    write_site_names lines b.site_names

-- What an empty slot goes out as.
unfoldable pub write_stub : Sink → Sink
write_stub s =
    let counts = put_align4 (put_varint_u (put_varint_u (put (put (put s 0) 0) 0) 0) 0) in
    put_varint_u (put_varint_u (put_varint_u (put_varint_u counts 0) 0) 0) 0

unfoldable mutual
  pub write_proto : Sink → Image → Sink
  write_proto s (image b ps) = write_nested (put_varint_u (write_fields s b) (nested_count ps)) ps

  pub write_nested : Sink → Images → Sink
  write_nested s none_left = s
  write_nested s (hole ps) = write_nested (write_stub s) ps
  write_nested s (nested p ps) = write_nested (write_proto s p) ps

-- `while (off < 24U)`; the fields before take 16 bytes.
unfoldable pub reserved_loop : ℕ → Sink → Sink
reserved_loop zero s = s
reserved_loop (suc left) s =
    let more = reserved_loop left (put s 0) in if ltb s.off 24 then more else s

unfoldable pub write_header : Sink → ℕ → Sink
write_header s arity_prologue =
    let start = put (put (put (put (put s b'U') b'R') b'B') b'I') version_byte in
    let flags = put start (if not (arity_prologue == 0) then 1 else 0) in
    reserved_loop 8 (put (put (put (put (put_bytes flags canary) 8) 8) 4) 0)

unfoldable pub write_chunk : Option (List ℕ) → Chunk → Sink
write_chunk buf c =
    let header = write_header (record { buf = buf; off = 0 }) (body_of c.root).arity_prologue in
    let name = c_string c.source_name in
    write_proto (put_bytes (put_varint_u header (length name)) name) c.root

-- The result of uchunk_serialize: the size asked for, UCHUNK_LOAD_TRUNCATED negated, or the number
-- of bytes written with the buffer.
pub data Serialized : Type 0 where
  need : ℕ → Serialized
  too_small : Serialized
  written : ℕ → List ℕ → Serialized

-- `cap` is the length of the caller's buffer.
unfoldable pub uchunk_serialize : Chunk → Option (List ℕ) → Serialized
uchunk_serialize c none = need (write_chunk none c).off
uchunk_serialize c (some buf) =
    let out = write_chunk (some buf) c in
    if ltb (length buf) (write_chunk none c).off
    then too_small
    else elim out.buf [ none ↦ too_small | some buf' ↦ written out.off buf' ]
