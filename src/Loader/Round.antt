-- ===== src/Loader/Round.antt =====
-- src/chunk/uchunk_io.c on what src/emit/uemit_serialize.c writes, section by section.
use urbi_embedded.Shared.{
  ℕ, zero, suc, ◌+◌, ◌-◌, ◌*◌, ◌/◌, ◌%◌, ◌^◌, ◌≤◌, ◌<◌, ◌≡◌, refl, sym, ap, ◌∙◌, subst, arith, Bool,
  true, false, not, ◌&&◌, List, [], ◌∷◌, ◌++◌, Option, none, some, ltb, leb, ◌==◌, length, take,
  All, replicate, length-replicate, length-append, bit_or,
}
use urbi_embedded.Shared.Bits.{bit_or_disjoint}
use urbi_embedded.Varint.Encode.{leb128}
use urbi_embedded.Chunk.Proto.{corrupt, oversized, ok}
use urbi_embedded.Loader.Image.{Constant, int, float, str, bare, AbsLine, Body}
use urbi_embedded.Loader.Valid.{IsConstant, AreLines, IsSiteName}
use urbi_embedded.Loader.Input.{Reader, ◌>>=◌, ◌>>◌, ret, refuse, check_room, copy_bytes}
use urbi_embedded.Loader.Sections.{
  skip_padding, align4, check_left, decode_word, words_loop, abs_lines_loop, decode_string,
  decode_payload, decode_constant, constants_loop, decode_constants_into, decode_instructions_into,
  decode_deltas, decode_line_table_into, decode_site_name, site_names_loop, decode_site_names_into,
}
use urbi_embedded.Loader.Reads.{
  Reads, Reads-ret, Reads-bind, Reads-then, Reads-assoc, Reads-last, Reads-refuse, Reads-room,
  Reads-byte, Reads-bytes, Reads-varint_u, Reads-varint_zz, Reads-request, Reads-make_room,
}
use urbi_embedded.Writer.Sink.{c_string}
use urbi_embedded.Writer.Emit.{name_of}
use urbi_embedded.Writer.Stores.{padding}
use urbi_embedded.Writer.Format.{
  varint, spread, text_bytes, constant_bytes, word_bytes, line_bytes, name_bytes, constants_bytes,
  instructions_bytes, line_table_bytes, site_names_bytes,
}

-- A text without a NUL is the C string of its bytes.
abbrev pub IsText : List ℕ → Type 0
IsText t = c_string t ≡ t

abbrev pub IsTextConstant : Constant → Type 0
IsTextConstant (int v) = Unit
IsTextConstant (float f) = Unit
IsTextConstant (str t) = IsText t
IsTextConstant (bare kind) = Unit

take_all : (xs : List ℕ) → take (length xs) xs ≡ xs
take_all [] = refl
take_all (x ∷ xs) = ap (◌∷◌ x) (take_all xs)

abbrev pub IsTextName : Option (List ℕ) → Type 0
IsTextName none = Unit
IsTextName (some name) = IsText name

word_value :
    (w : ℕ)
    → w < 2 ^ 32
    → bit_or
        (bit_or (bit_or (w % 256) (w / 2 ^ 8 % 256 * 2 ^ 8)) (w / 2 ^ 16 % 256 * 2 ^ 16))
        (w / 2 ^ 24 % 256 * 2 ^ 24)
      ≡ w
word_value w h =
    let b0 = w % 256 in
    let b1 = w / 2 ^ 8 % 256 in
    let b2 = w / 2 ^ 16 % 256 in
    let b3 = w / 2 ^ 24 % 256 in
    rw (bit_or_disjoint 8 b0 b1 (omega arith)) (
      rw (bit_or_disjoint 16 (b0 + b1 * 2 ^ 8) b2 (omega arith))
        (rw (bit_or_disjoint 24 (b0 + b1 * 2 ^ 8 + b2 * 2 ^ 16) b3 (omega arith)) (omega arith)))

Reads-word : (off w : ℕ) → w < 2 ^ 32 → Reads decode_word off (word_bytes w) w
unfolding decode_word
Reads-word off w h = subst (Reads decode_word off (word_bytes w)) (word_value w h) (
    Reads-room _ (omega arith) (
      Reads-bind _ (Reads-byte _ _) (
        Reads-bind _ (Reads-byte _ _)
          (Reads-bind _ (Reads-byte _ _) (Reads-last _ (Reads-byte _ _))))))

Reads-words :
    (ws : List ℕ) (off : ℕ)
    → All (λ w. w < 2 ^ 32) ws
    → Reads (words_loop (length ws)) off (spread word_bytes ws) ws
unfolding words_loop
Reads-words [] off h = Reads-ret off []
Reads-words (w ∷ ws) off (h, hs) =
    Reads-bind _ (Reads-word off w h) (Reads-last _ (Reads-words ws _ hs))

padding_loop :
    (k off : ℕ) (tail : List ℕ)
    → k ≡ (4 - off % 4) % 4
    → skip_padding (replicate k 0 ++ tail) off ≡ ok (tt, record { off = off + k; rest = tail })
unfolding skip_padding
padding_loop zero off [] e = ground (arith, e)
padding_loop zero off (b ∷ tail) e = ground (arith, e)
padding_loop (suc k) off tail e = ground (arith, e, padding_loop k (off + 1) tail)

Reads-padding : (off : ℕ) → Reads align4 off (padding off) tt
unfolding align4
Reads-padding off = record { at = λ tail fits. padded tail }
  where
    padded :
        (tail : List ℕ)
        → skip_padding (padding off ++ tail) off
          ≡ ok (tt, record { off = off + length (padding off); rest = tail })
    padded tail =
        padding_loop ((4 - off % 4) % 4) off tail refl
        ∙ ap (λ k. ok (tt, record { off = off + k; rest = tail })) (sym (length-replicate _ 0))

Reads-left :
    {B : Type 0} (f : Unit {0} → Reader B) {off n : ℕ} {bytes : List ℕ} {b : B}
    → n ≤ length bytes
    → Reads (f tt) off bytes b
    → Reads (check_left n >>= f) off bytes b
unfolding ◌>>=◌ check_left
Reads-left f {off} {n} {bytes} {b} h k = record {
  at = λ tail fits.
      let passes : ltb (length (bytes ++ tail)) n ≡ false =
        ground (arith, length-append bytes tail) in
      rw (passes, ◌>>=◌, check_left) (k.at tail fits);
}

leb128_pos : (k v : ℕ) → 1 ≤ length (leb128 k v)
unfolding leb128
leb128_pos zero v = omega arith
leb128_pos (suc k) v = ground arith

Reads-lines :
    (n : ℕ) (ls : List AbsLine) (off : ℕ) (first : Bool) (prev : ℕ)
    → n ≤ 2 ^ 20
    → AreLines n first prev ls
    → Reads (abs_lines_loop n (length ls) first prev) off (spread line_bytes ls) ls
unfolding abs_lines_loop
Reads-lines n [] off first prev few h = Reads-ret off []
Reads-lines n (l ∷ ls) off first prev few (below, rising, fits, hs) =
    let stored : ℕ → ℕ → Reader (List AbsLine) = λ q k.
      refuse (leb n l.pc) corrupt
      >> (refuse (not first && leb q prev) corrupt
          >> (abs_lines_loop n (length ls) false q >>= λ more.
              ret (record { pc = q; line = k } ∷ more))) in
    let at = off + length (varint l.pc) + length (varint l.line) in
    let inner : Reads (stored l.pc l.line) at (spread line_bytes ls) (l ∷ ls) =
      Reads-then _ (Reads-refuse _ _ corrupt (ground arith)) (
        Reads-then _ (Reads-refuse _ _ corrupt rising)
          (Reads-last (λ more. l ∷ more) (Reads-lines n ls _ false l.pc few hs))) in
    let q_is : l.pc ≡ l.pc % 2 ^ 32 = omega arith in
    let k_is : l.line ≡ l.line % 2 ^ 32 = omega arith in
    let narrowed : Reads (stored (l.pc % 2 ^ 32) (l.line % 2 ^ 32)) at (spread line_bytes ls)
        (l ∷ ls) =
      subst (λ q. Reads (stored q (l.line % 2 ^ 32)) at (spread line_bytes ls) (l ∷ ls)) q_is
        (subst (λ k. Reads (stored l.pc k) at (spread line_bytes ls) (l ∷ ls)) k_is inner) in
    Reads-assoc (varint l.pc) (varint l.line) (spread line_bytes ls) (
      Reads-bind _ (Reads-varint_u off l.pc (omega arith))
        (Reads-bind _ (Reads-varint_u _ l.line (omega arith)) narrowed))

module _ (alloc : ℕ → Bool) (serves : (n : ℕ) → alloc n ≡ true) where
  Reads-string :
      (off : ℕ) (t : List ℕ)
      → IsText t
      → length t < 2 ^ 63
      → Reads (decode_string alloc) off (text_bytes t) (str t)
  unfolding decode_string
  Reads-string off t text h =
      subst (λ u. Reads (decode_string alloc) off (varint (length u) ++ u) (str t)) (sym text)
        (Reads-bind _ (Reads-varint_u off (length t) (omega arith)) (
          Reads-room _ (omega arith) (
            Reads-then _ (Reads-request alloc serves _ _ (omega arith))
              (Reads-last str (Reads-bytes _ t)))))

  Reads-constant :
      (off : ℕ) (c : Constant)
      → IsConstant c
      → IsTextConstant c
      → Reads (decode_constant alloc) off (constant_bytes c) c
  unfolding decode_constant decode_payload
  Reads-constant off (int v) h text =
      Reads-room _ (omega arith)
        (Reads-bind _ (Reads-byte off 1) (Reads-last int (Reads-varint_zz _ v h)))
  Reads-constant off (float f) h text = Reads-room _ (omega arith) (
      Reads-bind _ (Reads-byte off 2) (
        subst
          (λ n.
            Reads (check_room n >>= λ _. copy_bytes n >>= λ g. ret (float g)) (off + 1) (take n f)
              (float f))
          h
          (subst
            (λ g.
              Reads (check_room (length f) >>= λ _. copy_bytes (length f) >>= λ g'. ret (float g'))
                (off + 1) g (float f))
            (sym (take_all f)) (Reads-room _ (omega arith) (Reads-last float (Reads-bytes _ f))))))
  Reads-constant off (str t) h text =
      Reads-room _ (omega arith) (Reads-bind _ (Reads-byte off 4) (Reads-string _ t text h))
  Reads-constant off (bare kind) h text = elim h [ ]

  Reads-constants_loop :
      (cs : List Constant) (off : ℕ)
      → All IsConstant cs
      → All IsTextConstant cs
      → Reads (constants_loop alloc (length cs)) off (spread constant_bytes cs) cs
  unfolding constants_loop
  Reads-constants_loop [] off h text = Reads-ret off []
  Reads-constants_loop (c ∷ cs) off (h, hs) (text, texts) =
      Reads-bind _ (Reads-constant off c h text) (Reads-last _ (Reads-constants_loop cs _ hs texts))

  pub Reads-constants :
      (off : ℕ) (cs : List Constant)
      → length cs ≤ 2 ^ 16
      → All IsConstant cs
      → All IsTextConstant cs
      → Reads (decode_constants_into alloc) off (constants_bytes cs) cs
  unfolding decode_constants_into
  Reads-constants off cs few h text = Reads-bind _ (Reads-varint_u off (length cs) (omega arith)) (
      Reads-then _ (Reads-refuse _ _ corrupt (ground arith)) (
        Reads-then _
          (Reads-make_room alloc serves _ (length cs) 16 (omega arith) (omega arith) (omega arith))
          (Reads-constants_loop cs _ h text)))

  pub Reads-instructions :
      (off : ℕ) (ws : List ℕ)
      → length ws ≤ 2 ^ 20
      → All (λ w. w < 2 ^ 32) ws
      → Reads (decode_instructions_into alloc) off (instructions_bytes off ws) ws
  unfolding decode_instructions_into
  Reads-instructions off ws few h = Reads-bind _ (Reads-varint_u off (length ws) (omega arith)) (
      Reads-then _ (Reads-refuse _ _ oversized (ground arith)) (
        Reads-bind _ (Reads-padding _) (
          Reads-then _
            (Reads-make_room alloc serves _ (length ws) 4 (omega arith) (omega arith) (omega arith))
            (Reads-words ws _ h))))

  Reads-deltas : (xs : List ℕ) (off : ℕ) → Reads (decode_deltas alloc (length xs)) off xs xs
  unfolding decode_deltas
  Reads-deltas [] off = Reads-ret off []
  Reads-deltas (x ∷ xs) off =
      let some_asked : (suc (length xs) == 0) ≡ false = ground arith in
      rw some_asked (
        Reads-then _ (Reads-request alloc serves _ _ (omega arith))
          (Reads-room _ (omega arith) (Reads-bytes off (x ∷ xs))))

  Reads-deltas_of :
      (off n : ℕ) (xs : List ℕ) → length xs ≡ n → Reads (decode_deltas alloc n) off (take n xs) xs
  Reads-deltas_of off n xs e =
      subst (λ k. Reads (decode_deltas alloc k) off (take k xs) xs) e
        (subst (λ ys. Reads (decode_deltas alloc (length xs)) off ys xs) (sym (take_all xs))
          (Reads-deltas xs off))

  pub Reads-line_table :
      (off : ℕ) (b : Body)
      → length b.instructions ≤ 2 ^ 20
      → length b.line_deltas ≡ length b.instructions
      → length b.abs_lines ≤ length b.instructions
      → AreLines (length b.instructions) true 0 b.abs_lines
      → Reads
          (decode_line_table_into alloc (length b.instructions))
          off
          (line_table_bytes b)
          (b.line_deltas, b.abs_lines)
  unfolding decode_line_table_into
  Reads-line_table off b few deltas abs_few h =
      let n = length b.instructions in
      Reads-bind _ (Reads-varint_u off n (omega arith)) (
        Reads-then _ (Reads-refuse _ _ corrupt (ground arith)) (
          Reads-bind _ (Reads-deltas_of _ n b.line_deltas deltas) (
            Reads-bind _ (Reads-varint_u _ (length b.abs_lines) (omega arith)) (
              Reads-then _ (Reads-refuse _ _ corrupt (ground arith)) (
                Reads-then _
                  (Reads-make_room alloc serves _ (length b.abs_lines) 8 (omega arith) (omega arith)
                    (omega arith))
                  (Reads-last _ (Reads-lines n b.abs_lines _ true 0 few h)))))))

  Reads-site_name :
      (off : ℕ) (name : List ℕ)
      → IsText name
      → length name ≤ 256
      → Reads (decode_site_name alloc) off (text_bytes name) (some name)
  unfolding decode_site_name
  Reads-site_name off name text h =
      subst (λ u. Reads (decode_site_name alloc) off (varint (length u) ++ u) (some name))
        (sym text)
        (Reads-bind _ (Reads-varint_u off (length name) (omega arith)) (
          Reads-then _ (Reads-refuse _ _ corrupt (ground arith)) (
            Reads-room _ (omega arith) (
              Reads-then _ (Reads-request alloc serves _ _ (omega arith))
                (Reads-last some (Reads-bytes _ name))))))

  Reads-names_loop :
      (ns : List (Option (List ℕ))) (off : ℕ)
      → All IsSiteName ns
      → All IsTextName ns
      → Reads (site_names_loop alloc (length ns)) off (spread name_bytes ns) ns
  unfolding site_names_loop
  Reads-names_loop [] off h text = Reads-ret off []
  Reads-names_loop (none ∷ ns) off (h, hs) text = elim h [ ]
  Reads-names_loop (some name ∷ ns) off (h, hs) (text, texts) =
      Reads-bind _ (Reads-site_name off name text h) (Reads-last _ (Reads-names_loop ns _ hs texts))

  -- Every name takes one byte at least.
  names_room : (ns : List (Option (List ℕ))) → length ns ≤ length (spread name_bytes ns)
  names_room [] = omega arith
  names_room (n ∷ ns) = omega (
    arith,
    names_room ns,
    length-append (name_bytes n) (spread name_bytes ns),
    length-append (varint (length (name_of n))) (name_of n),
    leb128_pos 9 (length (name_of n)),
  )

  pub Reads-site_names :
      (off : ℕ) (ns : List (Option (List ℕ)))
      → length ns ≤ 65535
      → All IsSiteName ns
      → All IsTextName ns
      → Reads (decode_site_names_into alloc) off (site_names_bytes ns) ns
  unfolding decode_site_names_into
  Reads-site_names off [] few h text = Reads-bind _ (Reads-varint_u off 0 (omega arith)) (
      Reads-then _ (Reads-refuse _ _ corrupt (ground arith))
        (Reads-left _ (omega arith) (Reads-ret _ [])))
  Reads-site_names off (n ∷ ns) few h text =
      let some_asked : (suc (length ns) == 0) ≡ false = ground arith in
      Reads-bind _ (Reads-varint_u off (length (n ∷ ns)) (omega arith)) (
        Reads-then _ (Reads-refuse _ _ corrupt (ground arith)) (
          Reads-left _ (names_room (n ∷ ns)) (
            rw some_asked (
              Reads-then _ (Reads-request alloc serves _ _ (omega arith))
                (Reads-names_loop (n ∷ ns) _ h text)))))
