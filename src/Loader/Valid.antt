-- ===== src/Loader/Valid.antt =====
-- The images that the loader of src/chunk/uchunk_io.c lets through before the verifier sees them.
use urbi_embedded.Shared.{
  ℕ, zero, suc, ◌+◌, ◌^◌, ◌≤◌, ◌<◌, ◌≡◌, Bool, true, false, not, ◌&&◌, List, [], ◌∷◌, Option, none,
  some, ltb, leb, ◌==◌, if◌then◌else◌, length, All,
}
use urbi_embedded.Loader.Image.{
  Constant, int, float, str, bare, AbsLine, Body, Image, image, Images, none_left, hole, nested,
  Chunk,
}

abbrev pub IsConstant : Constant → Type 0
IsConstant (int v) = v < 2 ^ 64
IsConstant (float f) = length f ≡ 8
IsConstant (str t) = length t < 2 ^ 63
IsConstant (bare kind) = ⊥

-- The pcs rise, from above `prev` on unless the first may be any, and stay below `instr_count`.
abbrev pub AreLines : ℕ → Bool → ℕ → List AbsLine → Type 0
AreLines instr_count first prev [] = Unit
AreLines instr_count first prev (l ∷ ls) =
    (l.pc < instr_count)
    × ((not first && leb l.pc prev) ≡ false)
    × (l.line < 2 ^ 32)
    × AreLines instr_count false l.pc ls

abbrev pub IsSiteName : Option (List ℕ) → Type 0
IsSiteName none = ⊥
IsSiteName (some name) = length name ≤ 256

-- The register of the hidden argument count.
abbrev pub hidden : ℕ → ℕ → ℕ
hidden arity_flag nparams = if not (arity_flag == 0) && ltb 0 nparams then 1 else 0

pub record IsBody (arity_flag : ℕ) (b : Body) : Type 0 where
  pub flag : b.arity_prologue ≡ arity_flag
  pub frame : b.nparams + hidden arity_flag b.nparams ≤ b.max_reg + 1
  pub const_count : length b.constants ≤ 2 ^ 16
  pub constants : All IsConstant b.constants
  pub instr_count : length b.instructions ≤ 2 ^ 20
  pub words : All (λ w. w < 2 ^ 32) b.instructions
  pub deltas : length b.line_deltas ≡ length b.instructions
  pub abs_count : length b.abs_lines ≤ length b.instructions
  pub lines : AreLines (length b.instructions) true 0 b.abs_lines
  pub site_count : length b.site_names ≤ 65535
  pub names : All IsSiteName b.site_names

abbrev pub nested_count : Images → ℕ
nested_count none_left = 0
nested_count (hole ps) = suc (nested_count ps)
nested_count (nested p ps) = suc (nested_count ps)

-- A proto whose nested protos go `levels` deep at most, at most 1024 to a proto, with no empty slot.
unfoldable mutual
  pub IsImage : ℕ → ℕ → Image → Type 0
  IsImage arity_flag levels (image b ps) =
      IsBody arity_flag b × (nested_count ps ≤ 1024) × AreImages arity_flag levels ps

  pub AreImages : ℕ → ℕ → Images → Type 0
  AreImages arity_flag levels none_left = Unit
  AreImages arity_flag levels (hole ps) = ⊥
  AreImages arity_flag zero (nested p ps) = ⊥
  AreImages arity_flag (suc levels) (nested p ps) =
      IsImage arity_flag levels p × AreImages arity_flag (suc levels) ps

pub record IsChunk (c : Chunk) : Type 0 where
  pub arity_flag : ℕ
  pub is_flag : arity_flag < 2
  pub name : length c.source_name < 2 ^ 63
  pub root : IsImage arity_flag 64 c.root
