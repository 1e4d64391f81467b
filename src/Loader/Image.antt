-- ===== src/Loader/Image.antt =====
-- src/chunk/uproto.h as the wire format stores it: UValue in a constant pool, UAbsLine and UProto.
use urbi_embedded.Shared.{ℕ, List, Option, length}
use urbi_embedded.Chunk.Proto.{Block, Proto, Protos, proto, nil, absent, child}

-- An integer is the bit pattern of its `int64_t`, a float the eight bytes of its `double`, a string its
-- bytes before the closing NUL. `bare` is a value of another kind, of which only the kind is written.
pub data Constant : Type 0 where
  int : ℕ → Constant
  float : List ℕ → Constant
  str : List ℕ → Constant
  bare : ℕ → Constant

pub record AbsLine : Type 0 where
  pub pc : ℕ
  pub line : ℕ

-- `const_count`, `instr_count`, `abs_line_count` and `site_count` are the lengths of their lists. A line
-- delta is the byte of its `int8_t`. A site name that is NULL is `none`, and a NULL array of names has only such.
pub record Body : Type 0 where
  pub max_reg : ℕ
  pub nupvals : ℕ
  pub nparams : ℕ
  pub arity_prologue : ℕ
  pub constants : List Constant
  pub instructions : List ℕ
  pub line_deltas : List ℕ
  pub abs_lines : List AbsLine
  pub site_names : List (Option (List ℕ))

-- A proto with its `nested` array, whose entries may be NULL.
mutual
  pub data Image : Type 0 where
    image : Body → Images → Image

  pub data Images : Type 0 where
    none_left : Images
    hole : Images → Images
    nested : Image → Images → Images

-- A root proto with its `source_name`; NULL is the empty name.
pub record Chunk : Type 0 where
  pub source_name : List ℕ
  pub root : Image

abbrev pub body_of : Image → Body
body_of (image b ps) = b

abbrev pub block : Body → Block
block b = record {
  max_reg = b.max_reg;
  nupvals = b.nupvals;
  const_count = length b.constants;
  site_count = length b.site_names;
  instructions = b.instructions;
}

-- What the verifier reads of a proto.
unfoldable mutual
  pub view : Image → Proto
  view (image b ps) = proto (block b) (view_nested ps)

  pub view_nested : Images → Protos
  view_nested none_left = nil
  view_nested (hole ps) = absent (view_nested ps)
  view_nested (nested p ps) = child (view p) (view_nested ps)
