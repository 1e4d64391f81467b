-- ===== src/Chunk/Bounds/Marks.antt =====
-- Sweep 1 of pass 2: what the marking of one prelude does to the bitmap.
use urbi_embedded.Shared.{
  ℕ, zero, suc, ◌+◌, ◌/◌, ◌≤◌, ◌<◌, ◌≡◌, ◌∙◌, subst, ◌⊎◌, Bool, ◌&&◌, ◌||◌, List, Option, none,
  some, arith, leb, ltb, length, get_or, All, ℕ_discrete,
}
use urbi_embedded.Chunk.Word.{uinstr_b, uinstr_c}
use urbi_embedded.Chunk.Proto.{ok, ◌>>=◌, Block, >>=-eq-ok}
use urbi_embedded.Chunk.Bitmap.{
  is_prelude_word, mark_word, new_bitmap, IsByte, mark_word-IsByte, length-mark_word,
  is_prelude_word-mark_word, is_prelude_word-new_bitmap, is_prelude_word-none, new_bitmap-IsByte,
  length-new_bitmap,
}
use urbi_embedded.Chunk.Bounds.{bad_upvalue, mark_loop, bitmap_for, mark_prelude}

abbrev pub IsBitmap : ℕ → Option (List ℕ) → Type 0
IsBitmap n none = Unit {0}
IsBitmap n (some bytes) = All IsByte bytes × (length bytes ≡ (n + 7) / 8)

-- A prelude word that the closure creation can read.
pub record GoodUpvalue (blk : Block) (pv : ℕ) : Type 0 where
  pub in_stack : uinstr_b pv ≤ 1
  pub in_range :
      ((uinstr_b pv ≡ 1) × (uinstr_c pv ≤ blk.max_reg))
      ⊎ ((uinstr_b pv ≡ 0) × (uinstr_c pv < blk.nupvals))

module _ (blk : Block) where
  mark_step :
      (left vi k : ℕ) (bytes out : List ℕ)
      → mark_loop (suc left) blk vi k bytes ≡ ok out
      → GoodUpvalue blk (get_or blk.instructions (vi + k) 0)
        × (mark_loop left blk vi (k + 1) (mark_word bytes (vi + k)) ≡ ok out)
  unfolding mark_loop bad_upvalue
  mark_step left vi k bytes out h = ground arith

  mark_loop_lem :
      (left vi k : ℕ) (bytes out : List ℕ)
      → vi + k + left ≤ length blk.instructions
      → IsBitmap (length blk.instructions) (some bytes)
      → mark_loop left blk vi k bytes ≡ ok out
      → IsBitmap (length blk.instructions) (some out)
        × ((j : ℕ)
            → is_prelude_word (some out) j
              ≡ ((leb (vi + k) j && ltb j (vi + k + left)) || is_prelude_word (some bytes) j))
        × ((i : ℕ) → k ≤ i → i < k + left → GoodUpvalue blk (get_or blk.instructions (vi + i) 0))
  mark_loop_lem zero vi k bytes out room b h =
      let e : bytes ≡ out = unfold mark_loop in cc in
      (
        subst (λ l. IsBitmap (length blk.instructions) (some l)) e b,
        (λ j. rw (← e) (ground arith)),
        λ i lo hi. absurd (omega arith),
      )
  mark_loop_lem (suc left) vi k bytes out room b h =
      let (good, rest) = mark_step left vi k bytes out h in
      let (bitmap, marks, goods) =
        mark_loop_lem left vi (k + 1) (mark_word bytes (vi + k)) out (omega arith)
          (mark_word-IsByte bytes _ b.0, length-mark_word bytes _ ∙ b.1) rest in
      (
        bitmap,
        (λ j.
            marks j
            ∙ ground (arith, is_prelude_word-mark_word bytes (vi + k) j b.0 (omega (arith, b.1)))),
        λ i lo hi. elim (ℕ_discrete i k) [
          | yes e ↦ rw e good
          | no ne ↦ goods i (omega arith) (omega arith)
        ],
      )

  bitmap_for_lem :
      (alloc : ℕ → Bool) (prelude : Option (List ℕ)) (bytes : List ℕ)
      → IsBitmap (length blk.instructions) prelude
      → bitmap_for alloc blk prelude ≡ ok bytes
      → IsBitmap (length blk.instructions) (some bytes)
        × ((j : ℕ) → is_prelude_word (some bytes) j ≡ is_prelude_word prelude j)
  unfolding bitmap_for
  bitmap_for_lem alloc (some old) bytes b h =
      let e : old ≡ bytes = cc in
      (subst (λ l. IsBitmap (length blk.instructions) (some l)) e b, λ j. rw e)
  bitmap_for_lem alloc none bytes b h =
      let e : new_bitmap (length blk.instructions) ≡ bytes = ground arith in
      (
        subst (λ l. IsBitmap (length blk.instructions) (some l)) e
            (new_bitmap-IsByte _, length-new_bitmap _),
        λ j. rw (← e, is_prelude_word-none) (is_prelude_word-new_bitmap _ j),
      )

  -- What one round does to the bitmap: the `width` words behind `vi` are marked and well formed.
  abbrev pub Marks : Option (List ℕ) → Option (List ℕ) → ℕ → ℕ → Type 0
  Marks prelude p vi width =
      IsBitmap (length blk.instructions) p
      × ((j : ℕ)
          → is_prelude_word p j
            ≡ ((leb (vi + 1) j && ltb j (vi + 1 + width)) || is_prelude_word prelude j))
      × ((i : ℕ) → 1 ≤ i → i < 1 + width → GoodUpvalue blk (get_or blk.instructions (vi + i) 0))

  pub Marks-zero :
      (prelude : Option (List ℕ)) (vi : ℕ)
      → IsBitmap (length blk.instructions) prelude
      → Marks prelude prelude vi 0
  Marks-zero prelude vi b = (b, (λ j. ground arith), λ i lo hi. absurd (omega arith))

  pub mark_prelude_lem :
      (alloc : ℕ → Bool) (prelude p : Option (List ℕ)) (vi nupvals : ℕ)
      → IsBitmap (length blk.instructions) prelude
      → vi + nupvals < length blk.instructions
      → mark_prelude alloc blk prelude vi nupvals ≡ ok p
      → Marks prelude p vi nupvals
  unfolding mark_prelude
  mark_prelude_lem alloc prelude p vi zero b room h =
      let e : prelude ≡ p = cc in subst (λ q. Marks prelude q vi 0) e (Marks-zero prelude vi b)
  mark_prelude_lem alloc prelude p vi (suc n) b room h =
      let whole : (bitmap_for alloc blk prelude >>= λ l.
      mark_loop (suc n) blk vi 1 l >>= λ l. ok (some l))
          ≡ ok p =
        h in
      let (bytes, made, rest) = >>=-eq-ok (bitmap_for alloc blk prelude) _ whole in
      let (out, marked, last) = >>=-eq-ok (mark_loop (suc n) blk vi 1 bytes) _ rest in
      let (bitmap, same) = bitmap_for_lem alloc prelude bytes b made in
      let (b', marks, goods) = mark_loop_lem (suc n) vi 1 bytes out (omega arith) bitmap marked in
      let e : some out ≡ p = cc last in
      subst (λ q. Marks prelude q vi (suc n)) e (b', (λ j. marks j ∙ rw (same j)), goods)
