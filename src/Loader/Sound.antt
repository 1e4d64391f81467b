-- ===== src/Loader/Sound.antt =====
-- src/chunk/uchunk_io.c on any bytes: the sections, where they read and what they answer.
use urbi_embedded.Shared.{
  ℕ, zero, suc, ◌+◌, ◌*◌, ◌%◌, ◌^◌, ◌≤◌, ◌<◌, ◌≡◌, ◌≢◌, refl, ap, subst, arith, Bool, true, false,
  not, List, [], ◌∷◌, some, ltb, ◌==◌, length, All, Bool-cases, inl, inr, bit_or, dec_lt,
}
use urbi_embedded.Shared.Bits.{bit_or_disjoint}
use urbi_embedded.Chunk.Proto.{corrupt, corrupt_tag, oversized}
use urbi_embedded.Loader.Image.{int, float, str, AbsLine}
use urbi_embedded.Loader.Valid.{IsConstant, AreLines, IsSiteName}
use urbi_embedded.Loader.Input.{Reader, ◌>>=◌, check_room, request}
use urbi_embedded.Loader.Sections.{
  skip_padding, align4, check_left, decode_word, words_loop, abs_lines_loop, decode_metadata,
  decode_string, decode_payload, decode_constant, constants_loop, decode_constants_into,
  decode_instructions_into, decode_deltas, decode_line_table_into, decode_site_name,
  site_names_loop, decode_site_names_into,
}
use urbi_embedded.Loader.Yields.{
  Inside, Outcome, done, failed, Yields, Yields-bind, Yields-ret, Yields-fail, Yields-last,
  Yields-weaken, Yields-refuse, Yields-if, Outcome-if, Yields-room, Yields-check, Yields-byte,
  Yields-bytes, Yields-varint_u, Yields-varint_zz, Yields-request, Yields-make_room,
}

word-lt :
    (b0 b1 b2 b3 : ℕ)
    → b0 < 256
    → b1 < 256
    → b2 < 256
    → b3 < 256
    → bit_or (bit_or (bit_or b0 (b1 * 2 ^ 8)) (b2 * 2 ^ 16)) (b3 * 2 ^ 24) < 2 ^ 32
word-lt b0 b1 b2 b3 h0 h1 h2 h3 = rw (bit_or_disjoint 8 b0 b1 (omega arith)) (
    rw (bit_or_disjoint 16 (b0 + b1 * 2 ^ 8) b2 (omega arith))
      (rw (bit_or_disjoint 24 (b0 + b1 * 2 ^ 8 + b2 * 2 ^ 16) b3 (omega arith)) (omega arith)))

Yields-word : Yields 0 decode_word (λ w. w < 2 ^ 32)
unfolding decode_word
Yields-word = Yields-room 4 _ (omega arith) (
    Yields-byte _ λ b0 h0. Yields-byte _ λ b1 h1.
      Yields-byte _ λ b2 h2. Yields-byte _ λ b3 h3. Yields-ret _ (word-lt b0 b1 b2 b3 h0 h1 h2 h3))

Yields-words : (n : ℕ) → Yields 0 (words_loop n) (λ ws. (length ws ≡ n) × All (λ w. w < 2 ^ 32) ws)
unfolding words_loop
Yields-words zero = Yields-ret [] (refl, tt)
Yields-words (suc n) =
    Yields-bind _ Yields-word
      λ w h. Yields-last _ (Yields-words n) λ ws (e, hs). (ap suc e, (h, hs))

padding_outcome :
    (xs : List ℕ) (off : ℕ)
    → Inside (record { off = off; rest = xs })
    → Outcome (λ (u : Unit {0}). Unit {0}) (off + length xs) (skip_padding xs off)
unfolding skip_padding
padding_outcome [] off inside =
    Outcome-if (off % 4 == 0) _ _ (λ e. done tt inside refl) (λ e. failed)
padding_outcome (b ∷ xs) off inside =
    let fits = inside.fits in
    let next : Inside (record { off = off + 1; rest = xs }) = record {
      fits = omega arith;
      bytes = inside.bytes.1;
    } in
    Outcome-if (off % 4 == 0) _ _ (λ e. done tt inside refl)
      (λ e.
        Outcome-if (not (b == 0)) _ _ (λ bad. failed)
          (λ zeroed.
            subst (λ t. Outcome (λ (u : Unit {0}). Unit {0}) t (skip_padding xs (off + 1)))
              (omega arith) (padding_outcome xs (off + 1) next)))

Yields-align4 : Yields 0 align4 (λ u. Unit {0})
unfolding align4
Yields-align4 = record { at = λ d inside room. padding_outcome d.rest d.off inside }

Yields-left :
    {B : Type 0} {Q : B → Type 0} (n : ℕ) (f : Unit {0} → Reader B)
    → Yields 0 (f tt) Q
    → Yields 0 (check_left n >>= f) Q
unfolding ◌>>=◌ check_left
Yields-left n f h = record {
  at = λ d inside room. elim (Bool-cases (ltb (length d.rest) n)) [
    | inl short ↦ rw (short, ◌>>=◌, check_left) failed
    | inr enough ↦ rw (enough, ◌>>=◌, check_left) (h.at d inside room)
  ];
}

Yields-lines :
    (n left : ℕ) (first : Bool) (prev : ℕ)
    → n ≤ 2 ^ 20
    → Yields 0
        (abs_lines_loop n left first prev)
        (λ ls. (length ls ≡ left) × AreLines n first prev ls)
unfolding abs_lines_loop
Yields-lines n zero first prev few = Yields-ret [] (refl, tt)
Yields-lines n (suc left) first prev few = Yields-bind _ Yields-varint_u λ pc64 pc_range.
    Yields-bind _ Yields-varint_u λ line64 line_range. Yields-refuse _ corrupt _ λ below.
      Yields-refuse _ corrupt _ λ rising.
        Yields-last _ (Yields-lines n left false (pc64 % 2 ^ 32) few)
          λ ls (e, hs). (ap suc e, (ground (arith, below), rising, omega arith, hs))

module _ (alloc : ℕ → Bool) (sane : (n : ℕ) → 2 ^ 63 ≤ n → alloc n ≡ false) where
  refused :
      (k : ℕ)
      → k < 2 ^ 64
      → (k + 1) % 2 ^ 64 ≢ 0
      → alloc ((k + 1) % 2 ^ 64) ≡ true
      → ¬ (k < 2 ^ 63)
      → ⊥
  refused k range some_asked served large =
      ground (arith, served, sane ((k + 1) % 2 ^ 64) (omega arith))

  -- A text of `k` bytes: a length for which `off + k` wraps is one that no allocator serves.
  Yields-text :
      {B : Type 0} {Q : B → Type 0} (k : ℕ) (f : Unit {0} → Reader B)
      → k < 2 ^ 64
      → (k < 2 ^ 63 → Yields k (f tt) Q)
      → Yields 0 (check_room k >>= λ _. request alloc ((k + 1) % 2 ^ 64) >>= f) Q
  Yields-text k f range h = elim (dec_lt k (2 ^ 63)) [
    | yes small ↦ Yields-room k _ small (Yields-request alloc _ _ (λ some_asked served. h small))
    | no large ↦ Yields-check k _ (
        Yields-request alloc _ _
          (λ some_asked served. absurd (refused k range some_asked served large)))
  ]

  pub Yields-metadata : Yields 0 (decode_metadata alloc) (λ name. length name < 2 ^ 63)
  unfolding decode_metadata
  Yields-metadata = Yields-bind _ Yields-varint_u λ src_len range. elim (dec_lt src_len (2 ^ 63)) [
    | yes small ↦ Yields-room src_len _ small (
        Yields-if (src_len == 0) _ _ (λ e. Yields-ret [] (omega arith))
          (λ e. Yields-request alloc _ _ (λ some_asked served.
            Yields-weaken (Yields-bytes src_len) λ name e'. omega (arith, e'))))
    | no large ↦ Yields-check src_len _ (
        Yields-if (src_len == 0) _ _ (λ e. Yields-ret [] (omega arith))
          (λ e.
            Yields-request alloc _ _
              (λ some_asked served. absurd (refused src_len range some_asked served large))))
  ]

  Yields-string : Yields 0 (decode_string alloc) IsConstant
  unfolding decode_string
  Yields-string = Yields-bind _ Yields-varint_u λ slen range.
      Yields-text slen _ range λ small. Yields-last str (Yields-bytes slen) λ s e. omega (arith, e)

  Yields-payload : (kind : ℕ) → Yields 0 (decode_payload alloc kind) IsConstant
  unfolding decode_payload
  Yields-payload kind =
      Yields-if (ltb 4 kind) _ _ (λ e. Yields-fail corrupt_tag)
        λ e1.
          Yields-if (kind == 1) _ _ (λ e. Yields-last int Yields-varint_zz λ v range. range)
            λ e2.
              Yields-if (kind == 2) _ _
                (λ e.
                  Yields-room 8 _ (omega arith)
                    (Yields-last float (Yields-bytes 8) λ f size_is. size_is))
                λ e3. Yields-if (kind == 4) _ _ (λ e. Yields-string) λ e4. Yields-fail corrupt_tag

  Yields-IsConstant : Yields 0 (decode_constant alloc) IsConstant
  unfolding decode_constant
  Yields-IsConstant = Yields-room 1 _ (omega arith) (Yields-byte _ λ kind h. Yields-payload kind)

  Yields-constants_loop :
      (n : ℕ) → Yields 0 (constants_loop alloc n) (λ cs. (length cs ≡ n) × All IsConstant cs)
  unfolding constants_loop
  Yields-constants_loop zero = Yields-ret [] (refl, tt)
  Yields-constants_loop (suc n) =
      Yields-bind _ Yields-IsConstant
        λ c h. Yields-last _ (Yields-constants_loop n) λ cs (e, hs). (ap suc e, (h, hs))

  pub Yields-constants :
      Yields 0 (decode_constants_into alloc) (λ cs. (length cs ≤ 2 ^ 16) × All IsConstant cs)
  unfolding decode_constants_into
  Yields-constants = Yields-bind _ Yields-varint_u λ n range. Yields-refuse _ corrupt _ λ few.
      Yields-make_room alloc n 16 _
        (Yields-weaken (Yields-constants_loop n) λ cs (e, hs). (ground (arith, few, e), hs))

  pub Yields-instructions :
      Yields 0
        (decode_instructions_into alloc)
        (λ ws. (length ws ≤ 2 ^ 20) × All (λ w. w < 2 ^ 32) ws)
  unfolding decode_instructions_into
  Yields-instructions = Yields-bind _ Yields-varint_u λ n range. Yields-refuse _ oversized _ λ few.
      Yields-bind _ Yields-align4 λ u h.
        Yields-make_room alloc n 4 _
          (Yields-weaken (Yields-words n) λ ws (e, hs). (ground (arith, few, e), hs))

  Yields-deltas : (n : ℕ) → n < 2 ^ 63 → Yields 0 (decode_deltas alloc n) (λ xs. length xs ≡ n)
  unfolding decode_deltas
  Yields-deltas n small =
      Yields-if (n == 0) _ _ (λ e. Yields-ret [] (ground (arith, e)))
        (λ e.
          Yields-request alloc n _ (λ some_asked served. Yields-room n _ small (Yields-bytes n)))

  pub Yields-line_table :
      (n : ℕ)
      → n ≤ 2 ^ 20
      → Yields 0 (decode_line_table_into alloc n) (λ (t : List ℕ × List AbsLine).
        (length t.0 ≡ n) × (length t.1 ≤ n) × AreLines n true 0 t.1)
  unfolding decode_line_table_into
  Yields-line_table n few = Yields-bind _ Yields-varint_u λ n_deltas range.
      Yields-refuse _ corrupt _ λ same.
        Yields-bind _ (Yields-deltas n_deltas (ground (arith, same))) λ deltas size_is.
          Yields-bind _ Yields-varint_u λ n_abs range'. Yields-refuse _ corrupt _ λ abs_few.
            Yields-make_room alloc n_abs 8 _ (
              Yields-last _ (Yields-lines n n_abs true 0 few)
                λ ls (e, hs). (ground (arith, same, size_is), ground (arith, abs_few, e), hs))

  Yields-IsSiteName : Yields 0 (decode_site_name alloc) IsSiteName
  unfolding decode_site_name
  Yields-IsSiteName = Yields-bind _ Yields-varint_u λ nlen range. Yields-refuse _ corrupt _ λ few.
      Yields-room nlen _ (ground (arith, few)) (
        Yields-request alloc _ _ (λ some_asked served.
          Yields-last some (Yields-bytes nlen) λ name e. ground (arith, few, e)))

  Yields-names_loop :
      (n : ℕ) → Yields 0 (site_names_loop alloc n) (λ ns. (length ns ≡ n) × All IsSiteName ns)
  unfolding site_names_loop
  Yields-names_loop zero = Yields-ret [] (refl, tt)
  Yields-names_loop (suc n) =
      Yields-bind _ Yields-IsSiteName
        λ name h. Yields-last _ (Yields-names_loop n) λ ns (e, hs). (ap suc e, (h, hs))

  pub Yields-site_names :
      Yields 0 (decode_site_names_into alloc) (λ ns. (length ns ≤ 65535) × All IsSiteName ns)
  unfolding decode_site_names_into
  Yields-site_names = Yields-bind _ Yields-varint_u λ n range. Yields-refuse _ corrupt _ λ few.
      Yields-left n _ (
        Yields-if (n == 0) _ _ (λ e. Yields-ret [] (omega arith, tt))
          (λ e. Yields-request alloc _ _ (λ some_asked served.
            Yields-weaken (Yields-names_loop n) λ ns (e', hs). (ground (arith, few, e'), hs))))
