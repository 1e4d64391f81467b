-- ===== src/Chunk/Safety/Landing.antt =====
-- Where the dispatcher of one accepted proto can go, against the scan.
use urbi_embedded.Shared.{
  ℕ, ◌+◌, ◌-◌, ◌≡◌, ◌≢◌, refl, sym, ap, ◌∙◌, subst, ◌⊎◌, inl, inr, Bool, false, List, Option, none,
  some, arith, get_elem?, get_or, lt_of_get_elem?, get_elem?-get_or, ℕ_discrete,
}
use urbi_embedded.Chunk.Op
use urbi_embedded.Chunk.Word.{uinstr_op}
use urbi_embedded.Chunk.Proto.{Block, Protos}
use urbi_embedded.Chunk.Flow.{Config, Scan, here, next, prelude_width, after, entry}
use urbi_embedded.Chunk.Bitmap.{is_prelude_word}
use urbi_embedded.Chunk.Bounds.Preludes.{Swept}
use urbi_embedded.Chunk.Bounds.Transfers.{Lands}

pub extarg_width : (nested : Protos) (w : ℕ) → uinstr_op w ≡ Op.extarg → prelude_width nested w ≡ 0
unfolding prelude_width
extarg_width nested w e = ground arith

abbrev pub at_pc : ℕ → Config
at_pc pc = record { pc = pc; ext = 0; pending = false }

after-at_pc :
    (nested : Protos) (c : Config) (w : ℕ)
    → uinstr_op w ≢ Op.extarg
    → after nested c w ≡ at_pc (c.pc + prelude_width nested w + 1)
unfolding after
after-at_pc nested c w ne = ground arith

module _ {blk : Block} {nested : Protos} where
  Scan-last :
      {c d : Config}
      → Scan blk nested c d
      → (d ≡ c)
        ⊎ ((e : Config) × (v : ℕ) × Scan blk nested c e
            × (get_elem? blk.instructions e.pc ≡ some v)
            × (d ≡ after nested e v))
  Scan-last here = inl refl
  Scan-last {c} {d} (next w e s) = elim (Scan-last s) [
    | inl same ↦ inr (c, w, here, e, same)
    | inr (m, v, t, at, same) ↦ inr (m, v, next w e t, at, same)
  ]

  pub Scan-unprefixed : {d : Config} → Scan blk nested entry d → d.pending ≡ false → d ≡ at_pc d.pc
  unfolding after
  Scan-unprefixed {d} s clear = elim (Scan-last s) [
    | inl same ↦ ground arith
    | inr (m, v, t, at, same) ↦ ground arith
  ]

module _ (nested : Protos) (target : ℕ) (d m : Config) (v : ℕ) (same : d ≡ after nested m v)
    (at : d.pc ≡ target) where
  pc_of : m.pc + prelude_width nested v + 1 ≡ target
  unfolding after
  pc_of = sym (ap (λ (c : Config). c.pc) same) ∙ at

  behind : uinstr_op v ≡ Op.extarg → m.pc + 1 ≡ target
  behind e = omega (arith, pc_of, extarg_width nested v e)

module _ (alloc : ℕ → Bool) (blk : Block) (nested : Protos) (p : Option (List ℕ))
    (swept : Swept alloc blk nested entry none p) where
  not_prefixed :
      (target : ℕ) (m : Config) (v : ℕ)
      → Lands blk p target
      → Scan blk nested entry m
      → get_elem? blk.instructions m.pc ≡ some v
      → m.pc + 1 ≡ target
      → uinstr_op v ≢ Op.extarg
  not_prefixed target m v lands t word at e =
      let inside = lt_of_get_elem? blk.instructions m.pc word in
      let found = get_elem?-get_or blk.instructions m.pc 0 inside in
      let same : get_or blk.instructions m.pc 0 ≡ v = cc in
      let before : m.pc ≡ target - 1 = omega arith in
      lands.unprefixed (omega arith)
        (subst (λ i. is_prelude_word p i ≡ false) before (swept.reals m t inside))
        (subst (λ i. uinstr_op (get_or blk.instructions i 0) ≡ Op.extarg) before
          (ap uinstr_op same ∙ e))

  -- A transfer that sweep 2 accepts lands on a real instruction that no OP_EXTARG precedes.
  pub Lands-Scan : (target : ℕ) → Lands blk p target → Scan blk nested entry (at_pc target)
  Lands-Scan target lands =
      let (d, s, at) = swept.covered target (omega arith) lands.inside lands.real in
      elim (Scan-last s) [
        | inl same ↦
            let zero_pc : 0 ≡ target = sym (ap (λ (c : Config). c.pc) same) ∙ at in
            subst (λ t. Scan blk nested entry (at_pc t)) zero_pc here
        | inr (m, v, t, word, same) ↦ elim (ℕ_discrete (uinstr_op v) Op.extarg) [
          | yes e ↦
              absurd (not_prefixed target m v lands t word (behind nested target d m v same at e) e)
          | no ne ↦
              subst (Scan blk nested entry)
                (same ∙ after-at_pc nested m v ne ∙ ap at_pc (pc_of nested target d m v same at)) s
        ]
      ]
