-- ===== src/Chunk/Bounds/Preludes.antt =====
-- Sweep 1 of pass 2: the bitmap against the words that are no real instructions.
use urbi_embedded.Shared.{
  ℕ, zero, suc, ◌+◌, ◌≤◌, ◌<◌, ◌≡◌, refl, ◌∙◌, subst, inl, inr, Bool, false, List, Option, none,
  some, arith, length, get_elem?, get_or, lt_of_get_elem?, get_elem?-none, Option-cases, ℕ_discrete,
  dec_lt,
}
use urbi_embedded.Chunk.Op
use urbi_embedded.Chunk.Word.{uinstr_op, uinstr_bx}
use urbi_embedded.Chunk.Proto.{ok, Block, Protos, child_nupvals, Load-cases, >>=-eq-ok}
use urbi_embedded.Chunk.Flow.{
  Scan-mono, Scan-split, Config, entry, Scan, here, next, prelude_width, after,
}
use urbi_embedded.Chunk.Bitmap.{is_prelude_word, is_prelude_word-none}
use urbi_embedded.Chunk.Bounds.Marks.{IsBitmap, GoodUpvalue, Marks, Marks-zero, mark_prelude_lem}
use urbi_embedded.Chunk.Bounds.{mark_prelude, prelude_step, prelude_loop, verify_preludes}

module _ (alloc : ℕ → Bool) (blk : Block) (nested : Protos) where
  prelude_step-closure :
      (prelude p : Option (List ℕ)) (vi w next_vi : ℕ)
      → uinstr_op w ≡ Op.closure
      → prelude_step alloc blk nested prelude vi w ≡ ok (p, next_vi)
      → (mark_prelude alloc blk prelude vi (prelude_width nested w) ≡ ok p)
        × (next_vi ≡ vi + prelude_width nested w + 1)
        × (vi + prelude_width nested w < length blk.instructions)
  unfolding prelude_step prelude_width
  prelude_step-closure prelude p vi w next_vi e h =
      elim (Option-cases (child_nupvals nested (uinstr_bx w))) [
        | inl none_e ↦ absurd (ground arith)
        | inr (k, some_e) ↦ elim (Load-cases (mark_prelude alloc blk prelude vi k)) [
          | inl (q, m) ↦ ground arith
          | inr (inl (x, m)) ↦ absurd (ground arith)
          | inr (inr m) ↦ absurd (ground arith)
        ]
      ]

  prelude_step_lem :
      (prelude p : Option (List ℕ)) (vi w next_vi : ℕ)
      → vi < length blk.instructions
      → IsBitmap (length blk.instructions) prelude
      → prelude_step alloc blk nested prelude vi w ≡ ok (p, next_vi)
      → Marks blk prelude p vi (prelude_width nested w)
        × (next_vi ≡ vi + prelude_width nested w + 1)
  prelude_step_lem prelude p vi w next_vi hvi b h = elim (ℕ_discrete (uinstr_op w) Op.closure) [
    | yes e ↦
        let (marked, moved, room) = prelude_step-closure prelude p vi w next_vi e h in
        (mark_prelude_lem blk alloc prelude p vi (prelude_width nested w) b room marked, moved)
    | no ne ↦
        let width : prelude_width nested w ≡ 0 = unfold prelude_width in ground arith in
        let same : p ≡ prelude = unfold prelude_step in ground arith in
        (
          rw (width, same) (Marks-zero blk prelude vi b),
          unfold prelude_step in ground (arith, width),
        )
  ]

  -- What the loop from `vi` on does to the bitmap.
  pub record Swept (c : Config) (prelude p : Option (List ℕ)) : Type 0 where
    pub kept : (j : ℕ) → j ≤ c.pc → is_prelude_word p j ≡ is_prelude_word prelude j
    pub reals :
        (d : Config)
        → Scan blk nested c d
        → d.pc < length blk.instructions
        → is_prelude_word p d.pc ≡ false
    pub covered :
        (j : ℕ)
        → c.pc ≤ j
        → j < length blk.instructions
        → is_prelude_word p j ≡ false
        → (d : Config) × Scan blk nested c d × (d.pc ≡ j)
    pub goods :
        (d : Config) (w i : ℕ)
        → Scan blk nested c d
        → get_elem? blk.instructions d.pc ≡ some w
        → 1 ≤ i
        → i < 1 + prelude_width nested w
        → GoodUpvalue blk (get_or blk.instructions (d.pc + i) 0)

  prelude_loop_round :
      (fuel vi w : ℕ) (prelude p : Option (List ℕ))
      → get_elem? blk.instructions vi ≡ some w
      → prelude_loop (suc fuel) alloc blk nested prelude vi ≡ ok p
      → (q : Option (List ℕ)) × (next_vi : ℕ) × (prelude_step alloc blk nested prelude vi w
          ≡ ok (q, next_vi))
        × (prelude_loop fuel alloc blk nested q next_vi ≡ ok p)
  unfolding prelude_loop
  prelude_loop_round fuel vi w prelude p e h =
      let (r, step, rest) =
        >>=-eq-ok (prelude_step alloc blk nested prelude vi w)
          (λ r. prelude_loop fuel alloc blk nested r.0 r.1) (rw (e, prelude_loop) at h) in
      (r.0, r.1, step, rest)

  Swept-past :
      (c : Config) (prelude : Option (List ℕ))
      → length blk.instructions ≤ c.pc
      → Swept c prelude prelude
  Swept-past c prelude past = record {
    kept = λ j h. refl;
    reals = λ d s h. absurd (omega (arith, Scan-mono s));
    covered = λ j lo hi e. absurd (omega arith);
    goods = λ d w i s e lo hi.
        absurd (omega (arith, Scan-mono s, lt_of_get_elem? blk.instructions _ e));
  }

  module _ (c : Config) (w : ℕ) (prelude q p : Option (List ℕ))
      (here_is : get_elem? blk.instructions c.pc ≡ some w)
      (clean : (j : ℕ) → c.pc ≤ j → is_prelude_word prelude j ≡ false)
      (step : Marks blk prelude q c.pc (prelude_width nested w))
      (rest : Swept (after nested c w) q p) where
    Swept_kept : (j : ℕ) → j ≤ c.pc → is_prelude_word p j ≡ is_prelude_word prelude j
    unfolding after
    Swept_kept j h = rest.kept j (omega arith) ∙ step.1 j ∙ ground arith

    Swept_reals :
        (d : Config)
        → Scan blk nested c d
        → d.pc < length blk.instructions
        → is_prelude_word p d.pc ≡ false
    Swept_reals d s h = elim (Scan-split w here_is s) [
      | inl e ↦ rw e (Swept_kept c.pc (omega arith) ∙ clean c.pc (omega arith))
      | inr s' ↦ rest.reals d s' h
    ]

    Swept_covered :
        (j : ℕ)
        → c.pc ≤ j
        → j < length blk.instructions
        → is_prelude_word p j ≡ false
        → (d : Config) × Scan blk nested c d × (d.pc ≡ j)
    unfolding after
    Swept_covered j lo hi e = elim (ℕ_discrete c.pc j) [
      | yes at ↦ (c, here, at)
      | no ne ↦ elim (dec_lt last j) [
        | yes beyond ↦
            let (d, s, at) = rest.covered j (omega arith) hi e in (d, next w here_is s, at)
        | no inside ↦ absurd (ground (arith, rest.kept j (omega arith), step.1 j, e))
      ]
    ]
      where
        last : ℕ
        last = c.pc + prelude_width nested w

    Swept_goods :
        (d : Config) (v i : ℕ)
        → Scan blk nested c d
        → get_elem? blk.instructions d.pc ≡ some v
        → 1 ≤ i
        → i < 1 + prelude_width nested v
        → GoodUpvalue blk (get_or blk.instructions (d.pc + i) 0)
    Swept_goods d v i s e lo hi = elim (Scan-split w here_is s) [
      | inl at ↦
          let e' : get_elem? blk.instructions c.pc ≡ some v =
            subst (λ (x : Config). get_elem? blk.instructions x.pc ≡ some v) at e in
          let same : v ≡ w = cc in
          rw at (step.2 i lo (subst (λ x. i < 1 + prelude_width nested x) same hi))
      | inr s' ↦ rest.goods d v i s' e lo hi
    ]

    Swept-round : Swept c prelude p
    Swept-round = record {
      kept = Swept_kept;
      reals = Swept_reals;
      covered = Swept_covered;
      goods = Swept_goods;
    }

  prelude_loop-Swept :
      (fuel vi : ℕ) (c : Config) (prelude p : Option (List ℕ))
      → vi ≡ c.pc
      → length blk.instructions ≤ vi + fuel
      → IsBitmap (length blk.instructions) prelude
      → ((j : ℕ) → c.pc ≤ j → is_prelude_word prelude j ≡ false)
      → prelude_loop fuel alloc blk nested prelude vi ≡ ok p
      → Swept c prelude p
  unfolding prelude_loop
  prelude_loop-Swept zero vi c prelude p ev room b clean h =
      let e : prelude ≡ p = cc in subst (Swept c prelude) e (Swept-past c prelude (omega arith))
  prelude_loop-Swept (suc fuel) vi c prelude p ev room b clean h =
      elim (Option-cases (get_elem? blk.instructions vi)) [
        | inl past ↦
            let e : prelude ≡ p = ground arith in
            subst (Swept c prelude) e
              (Swept-past c prelude (omega (arith, get_elem?-none blk.instructions vi past)))
        | inr (w, at) ↦
            let (q, next_vi, step, rest) = prelude_loop_round fuel vi w prelude p at h in
            let (marks, moved) =
              prelude_step_lem prelude q vi w next_vi (lt_of_get_elem? blk.instructions _ at) b
                step in
            let marks' : Marks blk prelude q c.pc (prelude_width nested w) =
              subst (λ i. Marks blk prelude q i (prelude_width nested w)) ev marks in
            Swept-round c w prelude q p (subst (λ i. get_elem? blk.instructions i ≡ some w) ev at)
              clean marks'
              (prelude_loop-Swept fuel next_vi (after nested c w) q p (unfold after in omega arith)
                (omega arith) marks'.0 (λ j h. marks'.1 j ∙ unfold after in ground (arith, clean j))
                rest)
      ]

  -- After an accepted sweep 1 the bitmap separates the real instructions from the prelude words.
  pub verify_preludes-Swept :
      (p : Option (List ℕ)) → verify_preludes alloc blk nested ≡ ok p → Swept entry none p
  unfolding verify_preludes
  verify_preludes-Swept p h =
      prelude_loop-Swept (length blk.instructions) 0 entry none p refl (omega arith) tt
        (λ j _. is_prelude_word-none j) h
