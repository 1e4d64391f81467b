-- ===== src/Writer/Format.antt =====
-- The chunk format as byte strings.
use urbi_embedded.Shared.{
  ℕ, ◌+◌, ◌/◌, ◌%◌, ◌^◌, not, List, [], ◌∷◌, ◌++◌, Option, ◌==◌, if◌then◌else◌, length, take,
}
use urbi_embedded.Varint.{zigzag}
use urbi_embedded.Varint.Encode.{leb128}
use urbi_embedded.Loader.Image.{
  Constant, int, float, str, bare, AbsLine, Body, Image, image, Images, none_left, hole, nested,
  Chunk, body_of,
}
use urbi_embedded.Loader.Valid.{nested_count}
use urbi_embedded.Loader.Sections.{magic, canary, version_byte, reserved}
use urbi_embedded.Writer.Sink.{c_string}
use urbi_embedded.Writer.Emit.{name_of}
use urbi_embedded.Writer.Stores.{padding}

abbrev pub varint : ℕ → List ℕ
varint v = leb128 9 v

abbrev pub spread : {A : Type 0} → (A → List ℕ) → List A → List ℕ
spread f [] = []
spread f (x ∷ xs) = f x ++ spread f xs

abbrev pub text_bytes : List ℕ → List ℕ
text_bytes t = varint (length (c_string t)) ++ c_string t

abbrev pub constant_bytes : Constant → List ℕ
constant_bytes (int v) = 1 ∷ [] ++ varint (zigzag v)
constant_bytes (float f) = 2 ∷ [] ++ take 8 f
constant_bytes (str t) = 4 ∷ [] ++ text_bytes t
constant_bytes (bare kind) = kind ∷ []

abbrev pub word_bytes : ℕ → List ℕ
word_bytes w =
    w % 256 ∷ [] ++ (w / 2 ^ 8 % 256 ∷ [] ++ (w / 2 ^ 16 % 256 ∷ [] ++ w / 2 ^ 24 % 256 ∷ []))

abbrev pub line_bytes : AbsLine → List ℕ
line_bytes l = varint l.pc ++ varint l.line

abbrev pub name_bytes : Option (List ℕ) → List ℕ
name_bytes n = varint (length (name_of n)) ++ name_of n

abbrev pub constants_bytes : List Constant → List ℕ
constants_bytes cs = varint (length cs) ++ spread constant_bytes cs

-- The words begin at a multiple of four.
abbrev pub instructions_bytes : ℕ → List ℕ → List ℕ
instructions_bytes off ws =
    varint (length ws) ++ (padding (off + length (varint (length ws))) ++ spread word_bytes ws)

abbrev pub line_table_bytes : Body → List ℕ
line_table_bytes b =
    varint (length b.instructions)
    ++ (take (length b.instructions) b.line_deltas
        ++ (varint (length b.abs_lines) ++ spread line_bytes b.abs_lines))

abbrev pub site_names_bytes : List (Option (List ℕ)) → List ℕ
site_names_bytes ns = varint (length ns) ++ spread name_bytes ns

abbrev pub frame_bytes : Body → List ℕ
frame_bytes b = b.max_reg ∷ [] ++ (b.nupvals ∷ [] ++ b.nparams ∷ [])

-- A proto's fields at the offset `off`.
unfoldable pub body_bytes : ℕ → Body → List ℕ
body_bytes off b =
    let constants = constants_bytes b.constants in
    frame_bytes b
    ++ (constants
        ++ (instructions_bytes (off + length (frame_bytes b) + length constants) b.instructions
            ++ (line_table_bytes b ++ site_names_bytes b.site_names)))

abbrev pub stub : Body
stub = record {
  max_reg = 0;
  nupvals = 0;
  nparams = 0;
  arity_prologue = 0;
  constants = [];
  instructions = [];
  line_deltas = [];
  abs_lines = [];
  site_names = [];
}

-- A proto, or the nested protos, at the offset `off`.
unfoldable mutual
  pub proto_bytes : ℕ → Image → List ℕ
  proto_bytes off (image b ps) =
      let fields = body_bytes off b in
      let count = varint (nested_count ps) in
      fields ++ (count ++ nested_bytes (off + length fields + length count) ps)

  pub nested_bytes : ℕ → Images → List ℕ
  nested_bytes off none_left = []
  nested_bytes off (hole ps) =
      let p = body_bytes off stub ++ varint 0 in p ++ nested_bytes (off + length p) ps
  nested_bytes off (nested p ps) =
      let q = proto_bytes off p in q ++ nested_bytes (off + length q) ps

abbrev pub header_bytes : ℕ → List ℕ
header_bytes arity_prologue =
    magic
    ++ (version_byte ∷ []
        ++ ((if not (arity_prologue == 0) then 1 else 0) ∷ []
            ++ (canary ++ (8 ∷ 8 ∷ 4 ∷ 0 ∷ reserved))))

unfoldable pub chunk_bytes : Chunk → List ℕ
chunk_bytes c =
    let name = text_bytes c.source_name in
    header_bytes (body_of c.root).arity_prologue ++ (name ++ proto_bytes (24 + length name) c.root)
