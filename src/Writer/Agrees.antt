-- ===== src/Writer/Agrees.antt =====
-- src/emit/uemit_serialize.c: the writer against the format, with a buffer and without.
use urbi_embedded.Shared.{
  ℕ, zero, suc, ◌+◌, ◌/◌, ◌%◌, ◌^◌, ◌≤◌, ◌<◌, ◌≡◌, refl, sym, ap, ◌∙◌, subst, arith, not, List, [],
  ◌∷◌, ◌++◌, Option, none, some, ◌==◌, if◌then◌else◌, length, take, All, replicate, lt→ltb,
}
use urbi_embedded.Loader.Image.{
  Constant, int, float, str, bare, AbsLine, Body, Image, image, Images, none_left, hole, nested,
  Chunk, body_of,
}
use urbi_embedded.Loader.Valid.{nested_count}
use urbi_embedded.Loader.Sections.{canary, version_byte}
use urbi_embedded.Writer.Sink.{Sink, put, put_bytes, put_varint_u, align_loop, put_align4, c_string}
use urbi_embedded.Writer.Emit.{
  name_of, names_out, write_site_names, write_constant, constants_out, words_out, abs_lines_out,
  write_fields, write_stub, write_proto, write_nested, reserved_loop, write_header, write_chunk,
}
use urbi_embedded.Writer.Stores.{
  Stores, Stores-nil, Stores-append, Stores-off, put-Stores, put_bytes-Stores, varint_u-Stores,
  varint_zz-Stores, padding, align4-Stores,
}
use urbi_embedded.Writer.Format.{
  varint, spread, text_bytes, constant_bytes, word_bytes, line_bytes, name_bytes, constants_bytes,
  instructions_bytes, line_table_bytes, frame_bytes, body_bytes, stub, proto_bytes, nested_bytes,
  header_bytes, chunk_bytes,
}

abbrev pub FitsConstant : Constant → Type 0
FitsConstant (int v) = v < 2 ^ 64
FitsConstant (float f) = Unit
FitsConstant (str t) = length t < 2 ^ 64
FitsConstant (bare kind) = Unit

abbrev pub FitsName : Option (List ℕ) → Type 0
FitsName none = Unit
FitsName (some name) = length name < 2 ^ 64

-- The numbers and counts of a proto are `uint64_t`s.
pub record FitsBody (b : Body) : Type 0 where
  pub const_count : length b.constants < 2 ^ 64
  pub constants : All FitsConstant b.constants
  pub instr_count : length b.instructions < 2 ^ 64
  pub abs_count : length b.abs_lines < 2 ^ 64
  pub lines : All (λ (l : AbsLine). (l.pc < 2 ^ 64) × (l.line < 2 ^ 64)) b.abs_lines
  pub site_count : length b.site_names < 2 ^ 64
  pub names : All FitsName b.site_names

unfoldable mutual
  pub FitsImage : Image → Type 0
  FitsImage (image b ps) = FitsBody b × (nested_count ps < 2 ^ 64) × FitImages ps

  pub FitImages : Images → Type 0
  FitImages none_left = Unit
  FitImages (hole ps) = FitImages ps
  FitImages (nested p ps) = FitsImage p × FitImages ps

length-c_string : (t : List ℕ) → length (c_string t) ≤ length t
unfolding c_string
length-c_string [] = omega arith
length-c_string (b ∷ bs) = ground (arith, length-c_string bs)

text-Stores :
    (s : Sink) (t : List ℕ)
    → length t < 2 ^ 64
    → Stores s (text_bytes t) (put_bytes (put_varint_u s (length (c_string t))) (c_string t))
text-Stores s t h =
    Stores-append (varint_u-Stores s (length (c_string t)) (omega (arith, length-c_string t)))
      (put_bytes-Stores _ (c_string t))

name-Stores :
    (s : Sink) (n : Option (List ℕ))
    → FitsName n
    → Stores s (name_bytes n) (put_bytes (put_varint_u s (length (name_of n))) (name_of n))
name-Stores s none h = Stores-append (varint_u-Stores s 0 (omega arith)) (put_bytes-Stores _ [])
name-Stores s (some name) h = text-Stores s name h

names-Stores :
    (ns : List (Option (List ℕ))) (s : Sink)
    → All FitsName ns
    → Stores s (spread name_bytes ns) (names_out s ns)
unfolding names_out
names-Stores [] s h = Stores-nil s
names-Stores (n ∷ ns) s (h, hs) = Stores-append (name-Stores s n h) (names-Stores ns _ hs)

constant-Stores :
    (s : Sink) (c : Constant) → FitsConstant c → Stores s (constant_bytes c) (write_constant s c)
unfolding write_constant
constant-Stores s (int v) h = Stores-append (put-Stores s 1) (varint_zz-Stores _ v h)
constant-Stores s (float f) h = Stores-append (put-Stores s 2) (put_bytes-Stores _ (take 8 f))
constant-Stores s (str t) h = Stores-append (put-Stores s 4) (text-Stores _ t h)
constant-Stores s (bare kind) h = put-Stores s kind

constants-Stores :
    (cs : List Constant) (s : Sink)
    → All FitsConstant cs
    → Stores s (spread constant_bytes cs) (constants_out s cs)
unfolding constants_out
constants-Stores [] s h = Stores-nil s
constants-Stores (c ∷ cs) s (h, hs) =
    Stores-append (constant-Stores s c h) (constants-Stores cs _ hs)

words-Stores : (ws : List ℕ) (s : Sink) → Stores s (spread word_bytes ws) (words_out s ws)
unfolding words_out
words-Stores [] s = Stores-nil s
words-Stores (w ∷ ws) s =
    Stores-append
      (Stores-append (put-Stores s (w % 256)) (
        Stores-append (put-Stores _ (w / 2 ^ 8 % 256))
          (Stores-append (put-Stores _ (w / 2 ^ 16 % 256)) (put-Stores _ (w / 2 ^ 24 % 256)))))
      (words-Stores ws _)

lines-Stores :
    (ls : List AbsLine) (s : Sink)
    → All (λ (l : AbsLine). (l.pc < 2 ^ 64) × (l.line < 2 ^ 64)) ls
    → Stores s (spread line_bytes ls) (abs_lines_out s ls)
unfolding abs_lines_out
lines-Stores [] s h = Stores-nil s
lines-Stores (l ∷ ls) s ((pc_fits, line_fits), hs) =
    Stores-append
      (Stores-append (varint_u-Stores s l.pc pc_fits) (varint_u-Stores _ l.line line_fits))
      (lines-Stores ls _ hs)

instructions-Stores :
    (off : ℕ) (s : Sink) (ws : List ℕ)
    → s.off ≡ off
    → length ws < 2 ^ 64
    → Stores s (instructions_bytes off ws) (words_out (put_align4 (put_varint_u s (length ws))) ws)
instructions-Stores off s ws e h =
    let counted = put_varint_u s (length ws) in
    let count = varint_u-Stores s (length ws) h in
    let at = Stores-off count ∙ ap (λ k. k + length (varint (length ws))) e in
    Stores-append count (
      Stores-append
        (subst (λ k. Stores counted (padding k) (align_loop 3 counted)) at (align4-Stores counted))
        (words-Stores ws _))

module _ (b : Body) (fits : FitsBody b) where
  line_table-Stores :
      (s : Sink)
      → Stores s (line_table_bytes b) (
          abs_lines_out
            (put_varint_u
              (put_bytes
                (put_varint_u s (length b.instructions))
                (take (length b.instructions) b.line_deltas))
              (length b.abs_lines))
            b.abs_lines)
  line_table-Stores s = Stores-append (varint_u-Stores s (length b.instructions) fits.instr_count) (
      Stores-append (put_bytes-Stores _ (take (length b.instructions) b.line_deltas)) (
        Stores-append (varint_u-Stores _ (length b.abs_lines) fits.abs_count)
          (lines-Stores b.abs_lines _ fits.lines)))

  fields-Stores :
      (off : ℕ) (s : Sink) → s.off ≡ off → Stores s (body_bytes off b) (write_fields s b)
  unfolding write_fields write_site_names body_bytes
  fields-Stores off s e =
      let frame =
        Stores-append (put-Stores s b.max_reg)
          (Stores-append (put-Stores _ b.nupvals) (put-Stores _ b.nparams)) in
      let constants =
        Stores-append (varint_u-Stores _ (length b.constants) fits.const_count)
          (constants-Stores b.constants _ fits.constants) in
      let at =
        Stores-off constants
        ∙ ap (λ k. k + length (constants_bytes b.constants))
            (Stores-off frame ∙ ap (λ k. k + length (frame_bytes b)) e) in
      Stores-append frame (
        Stores-append constants (
          Stores-append (instructions-Stores _ _ b.instructions at fits.instr_count) (
            Stores-append (line_table-Stores _) (
              Stores-append (varint_u-Stores _ (length b.site_names) fits.site_count)
                (names-Stores b.site_names _ fits.names)))))

stub-FitsBody : FitsBody stub
stub-FitsBody = record {
  const_count = omega arith;
  constants = tt;
  instr_count = omega arith;
  abs_count = omega arith;
  lines = tt;
  site_count = omega arith;
  names = tt;
}

put_bytes_none : (s : Sink) → put_bytes s [] ≡ s
put_bytes_none s = sym (Stores.same (Stores-nil s))

stub_is : (s : Sink) → write_stub s ≡ put_varint_u (write_fields s stub) 0
unfolding write_stub write_fields constants_out words_out abs_lines_out write_site_names names_out
stub_is s = ap (λ r. put_varint_u (put_varint_u (put_varint_u r 0) 0) 0) (sym (put_bytes_none _))

stub-Stores :
    (off : ℕ) (s : Sink) → s.off ≡ off → Stores s (body_bytes off stub ++ varint 0) (write_stub s)
stub-Stores off s e =
    subst (Stores s (body_bytes off stub ++ varint 0)) (sym (stub_is s))
      (Stores-append (fields-Stores stub stub-FitsBody off s e) (varint_u-Stores _ 0 (omega arith)))

mutual
  unfolding write_proto write_nested proto_bytes nested_bytes FitsImage FitImages

  proto-Stores :
      (p : Image) (off : ℕ) (s : Sink)
      → FitsImage p
      → s.off ≡ off
      → Stores s (proto_bytes off p) (write_proto s p)
  proto-Stores (image b ps) off s (fits, count_fits, nested_fit) e =
      let fields = fields-Stores b fits off s e in
      let count = varint_u-Stores (write_fields s b) (nested_count ps) count_fits in
      let at =
        Stores-off count
        ∙ ap (λ k. k + length (varint (nested_count ps)))
            (Stores-off fields ∙ ap (λ k. k + length (body_bytes off b)) e) in
      Stores-append fields (Stores-append count (nested-Stores ps _ _ nested_fit at))

  nested-Stores :
      (ps : Images) (off : ℕ) (s : Sink)
      → FitImages ps
      → s.off ≡ off
      → Stores s (nested_bytes off ps) (write_nested s ps)
  nested-Stores none_left off s fit e = Stores-nil s
  nested-Stores (hole ps) off s fit e =
      let p = stub-Stores off s e in
      let at = Stores-off p ∙ ap (λ k. k + length (body_bytes off stub ++ varint 0)) e in
      Stores-append p (nested-Stores ps _ _ fit at)
  nested-Stores (nested p ps) off s (fits, fit) e =
      let q = proto-Stores p off s fits e in
      let at = Stores-off q ∙ ap (λ k. k + length (proto_bytes off p)) e in
      Stores-append q (nested-Stores ps _ _ fit at)

reserved-Stores :
    (left : ℕ) (s : Sink) → s.off + left ≡ 24 → Stores s (replicate left 0) (reserved_loop left s)
unfolding reserved_loop
reserved-Stores zero s e = Stores-nil s
reserved-Stores (suc left) s e =
    let more = reserved-Stores left (put s 0) (omega (arith, e, Stores-off (put-Stores s 0))) in
    rw (lt→ltb s.off 24 (omega (arith, e))) (Stores-append (put-Stores s 0) more)

header-Stores :
    (s : Sink) (flag : ℕ) → s.off ≡ 0 → Stores s (header_bytes flag) (write_header s flag)
unfolding write_header
header-Stores s flag e =
    let start = Stores-append (put-Stores s b'U') (
      Stores-append (put-Stores _ b'R') (
        Stores-append (put-Stores _ b'B')
          (Stores-append (put-Stores _ b'I') (put-Stores _ version_byte)))) in
    let flags = Stores-append start (
      Stores-append (put-Stores _ (if not (flag == 0) then 1 else 0))
        (put_bytes-Stores _ canary)) in
    let fields = Stores-append flags (
      Stores-append (put-Stores _ 8)
        (Stores-append (put-Stores _ 8) (Stores-append (put-Stores _ 4) (put-Stores _ 0)))) in
    Stores-append fields
      (reserved-Stores 8 _ (ap (λ k. k + 8) (Stores-off fields) ∙ omega (arith, e)))

unfoldable pub FitsChunk : Chunk → Type 0
FitsChunk c = (length c.source_name < 2 ^ 64) × FitsImage c.root

-- The writer is one store of the format at the start of the buffer.
pub chunk-Stores :
    (buf : Option (List ℕ)) (c : Chunk)
    → FitsChunk c
    → Stores (record { buf = buf; off = 0 }) (chunk_bytes c) (write_chunk buf c)
unfolding write_chunk chunk_bytes FitsChunk
chunk-Stores buf c (name_fits, root_fits) =
    let flag = (body_of c.root).arity_prologue in
    let header = header-Stores (record { buf = buf; off = 0 }) flag refl in
    let name = text-Stores _ c.source_name name_fits in
    let at =
      Stores-off name ∙ ap (λ k. k + length (text_bytes c.source_name)) (Stores-off header) in
    Stores-append header (Stores-append name (proto-Stores c.root _ _ root_fits at))
