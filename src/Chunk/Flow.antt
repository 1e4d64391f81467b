-- ===== src/Chunk/Flow.antt =====
-- How the dispatcher of src/rt/uexec_ops.c moves through the words of one proto, and the linear scan
-- over its real instructions.
use urbi_embedded.Shared.{
  ℕ, ◌+◌, ◌*◌, ◌^◌, ◌≡◌, Bool, false, none, some, ◌==◌, if◌then◌else◌, get_elem?, ◌⊎◌, inl, inr,
  refl, subst, ◌≤◌, arith,
}
use urbi_embedded.Chunk.Op
use urbi_embedded.Chunk.Word.{uinstr_op, uinstr_bx}
use urbi_embedded.Chunk.Proto.{Block, Protos, child_nupvals}

-- The index that `f->pc` points at, the local `ext`, and whether an OP_EXTARG has just set it.
pub record Config : Type 0 where
  pub pc : ℕ
  pub ext : ℕ
  pub pending : Bool

abbrev pub entry : Config
entry = record { pc = 0; ext = 0; pending = false }

-- How many prelude words stand behind an instruction.
unfoldable pub prelude_width : Protos → ℕ → ℕ
prelude_width nested w =
    if uinstr_op w == Op.closure
    then elim (child_nupvals nested (uinstr_bx w)) [ none ↦ 0 | some nupvals ↦ nupvals ]
    else 0

-- The next real instruction in the order of the words.
unfoldable pub after : Protos → Config → ℕ → Config
after nested c w = record {
  pc = c.pc + prelude_width nested w + 1;
  ext = if uinstr_op w == Op.extarg then uinstr_bx w * 2 ^ 8 else 0;
  pending = uinstr_op w == Op.extarg;
}

-- `Scan c d`: `d` is met by walking from `c` over the words and skipping preludes.
pub data Scan (blk : Block) (nested : Protos) : Config → Config → Type 0 where
  here : {c : Config} → Scan blk nested c c
  next :
      {c d : Config} (w : ℕ)
      → get_elem? blk.instructions c.pc ≡ some w
      → Scan blk nested (after nested c w) d
      → Scan blk nested c d

module _ {blk : Block} {nested : Protos} where
  pub Scan-snoc :
      {c d : Config} (w : ℕ)
      → Scan blk nested c d
      → get_elem? blk.instructions d.pc ≡ some w
      → Scan blk nested c (after nested d w)
  Scan-snoc w here e = next w e here
  Scan-snoc w (next v h s) e = next v h (Scan-snoc w s e)

  pub Scan-split :
      {c d : Config} (w : ℕ)
      → get_elem? blk.instructions c.pc ≡ some w
      → Scan blk nested c d
      → (d ≡ c) ⊎ Scan blk nested (after nested c w) d
  Scan-split w e here = inl refl
  Scan-split {c} {d} w e (next v h s) =
      let same : v ≡ w = cc in inr (subst (λ x. Scan blk nested (after nested c x) d) same s)

  pub Scan-mono : {c d : Config} → Scan blk nested c d → c.pc ≤ d.pc
  unfolding after
  Scan-mono here = omega arith
  Scan-mono (next w e s) = omega (arith, Scan-mono s)
