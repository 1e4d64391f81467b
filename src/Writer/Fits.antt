-- ===== src/Writer/Fits.antt =====
-- The numbers and counts of a valid image, against what the writer of src/emit/uemit_serialize.c can store.
use urbi_embedded.Shared.{
  ℕ, zero, suc, ◌^◌, ◌≤◌, ◌<◌, arith, Bool, true, false, List, [], ◌∷◌, Option, none, some, length,
  All,
}
use urbi_embedded.Loader.Image.{
  Constant, int, float, str, bare, AbsLine, Body, Image, image, Images, none_left, hole, nested,
  Chunk,
}
use urbi_embedded.Loader.Valid.{
  IsConstant, AreLines, IsSiteName, IsBody, IsImage, AreImages, IsChunk,
}
use urbi_embedded.Writer.Agrees.{FitsConstant, FitsName, FitsBody, FitsImage, FitImages, FitsChunk}

fits_of_constant : (c : Constant) → IsConstant c → FitsConstant c
fits_of_constant (int v) h = h
fits_of_constant (float f) h = tt
fits_of_constant (str t) h = omega arith
fits_of_constant (bare kind) h = tt

fits_of_name : (n : Option (List ℕ)) → IsSiteName n → FitsName n
fits_of_name none h = tt
fits_of_name (some name) h = omega arith

All-map :
    {A : Type 0} {P Q : A → Type 0} (xs : List A) → ((x : A) → P x → Q x) → All P xs → All Q xs
All-map [] f h = tt
All-map (x ∷ xs) f (h, hs) = (f x h, All-map xs f hs)

fits_of_lines :
    (n : ℕ) (first : Bool) (prev : ℕ) (ls : List AbsLine)
    → n ≤ 2 ^ 20
    → AreLines n first prev ls
    → All (λ (l : AbsLine). (l.pc < 2 ^ 64) × (l.line < 2 ^ 64)) ls
fits_of_lines n first prev [] few h = tt
fits_of_lines n first prev (l ∷ ls) few (below, rising, fits, hs) =
    ((omega arith, omega arith), fits_of_lines n false l.pc ls few hs)

fits_of_body : (flag : ℕ) (b : Body) → IsBody flag b → FitsBody b
fits_of_body flag b valid =
    let few = valid.instr_count in
    let consts = valid.const_count in
    let lines = valid.abs_count in
    let sites = valid.site_count in
    record {
      const_count = omega arith;
      constants = All-map b.constants fits_of_constant valid.constants;
      instr_count = omega arith;
      abs_count = omega arith;
      lines = fits_of_lines (length b.instructions) true 0 b.abs_lines few valid.lines;
      site_count = omega arith;
      names = All-map b.site_names fits_of_name valid.names;
    }

mutual
  unfolding IsImage AreImages FitsImage FitImages

  fits_of_image : (p : Image) (flag levels : ℕ) → IsImage flag levels p → FitsImage p
  fits_of_image (image b ps) flag levels (valid, few, below) =
      (fits_of_body flag b valid, omega arith, fits_of_images ps flag levels below)

  fits_of_images : (ps : Images) (flag levels : ℕ) → AreImages flag levels ps → FitImages ps
  fits_of_images none_left flag levels h = tt
  fits_of_images (hole ps) flag levels h = elim h [ ]
  fits_of_images (nested p ps) flag zero h = elim h [ ]
  fits_of_images (nested p ps) flag (suc levels) (h, hs) =
      (fits_of_image p flag levels h, fits_of_images ps flag (suc levels) hs)

pub IsChunk-FitsChunk : (c : Chunk) → IsChunk c → FitsChunk c
unfolding FitsChunk
IsChunk-FitsChunk c valid =
    let short = valid.name in (omega arith, fits_of_image c.root valid.arity_flag 64 valid.root)
