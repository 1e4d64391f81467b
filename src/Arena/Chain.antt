-- ===== src/Arena/Chain.antt =====
-- src/util/uarena.c: the chain of chunks, and the chunk that a request is served from.
use urbi_embedded.Shared.{
  ℕ, ◌+◌, ◌^◌, ◌≤◌, ◌<◌, ◌≡◌, refl, sym, ap, ◌∙◌, subst, ◌⊎◌, inl, inr, true, List, [], ◌∷◌, ◌++◌,
  Option, none, some, arith, if◌then◌else◌, All, Bool-cases, Option-cases,
}
use urbi_embedded.Arena.{Chunk, Arena, has_room, scan_chain, new_chunk, link_new, find_chunk}
use urbi_embedded.Arena.Fits.{IsChunk, IsBlock, has_room_lem, scan_chain_lem, new_chunk_lem}

abbrev pub chain : Arena → List Chunk
chain a = a.before ++ a.rest

abbrev pub IsArena : Arena → Type 0
IsArena a = All IsChunk (chain a) × (a.chunk_size < 2 ^ 61)

append_assoc : (xs ys zs : List Chunk) → (xs ++ ys) ++ zs ≡ xs ++ (ys ++ zs)
append_assoc [] ys zs = refl
append_assoc (x ∷ xs) ys zs = ap (◌∷◌ x) (append_assoc xs ys zs)

append_nil : (xs : List Chunk) → xs ++ [] ≡ xs
append_nil [] = refl
append_nil (x ∷ xs) = ap (◌∷◌ x) (append_nil xs)

All-at : (xs : List Chunk) (c : Chunk) (ys : List Chunk) → All IsChunk (xs ++ c ∷ ys) → IsChunk c
All-at [] c ys h = h.0
All-at (x ∷ xs) c ys h = All-at xs c ys h.1

pub All-put :
    (xs : List Chunk) (c d : Chunk) (ys : List Chunk)
    → All IsChunk (xs ++ c ∷ ys)
    → IsChunk d
    → All IsChunk (xs ++ d ∷ ys)
All-put [] c d ys h hd = (hd, h.1)
All-put (x ∷ xs) c d ys h hd = (h.0, All-put xs c d ys h.1 hd)

pub All-link :
    (xs : List Chunk) (d : Chunk) (ys : List Chunk)
    → All IsChunk (xs ++ ys)
    → IsChunk d
    → All IsChunk (xs ++ d ∷ ys)
All-link [] d ys h hd = (hd, h)
All-link (x ∷ xs) d ys h hd = (h.0, All-link xs d ys h.1 hd)

-- The chunk `c` between `b` and `m` has room for the request; it is one of the arena's, or new, empty
-- and a block of the allocator's, and the others are the arena's.
pub record Placed (header : ℕ) (alloc : ℕ → Option ℕ) (a : Arena) (need : ℕ) (b : List Chunk)
    (c : Chunk) (m : List Chunk) : Type 0 where
  pub sound : IsChunk c
  pub room : c.used + need ≤ c.capacity
  pub linked : (chain a ≡ b ++ c ∷ m) ⊎ ((c.used ≡ 0) × IsBlock header alloc c × (chain a ≡ b ++ m))

module _ (header : ℕ) (alloc : ℕ → Option ℕ) (a : Arena) (need : ℕ) (small_header : header < 2 ^ 16)
    (arena : IsArena a) (small : need < 2 ^ 61) where
  from_new :
      (b m : List Chunk) (d : Chunk)
      → new_chunk header alloc a.chunk_size need ≡ some d
      → chain a ≡ b ++ m
      → Placed header alloc a need b d m
  from_new b m d e same =
      let (sound, empty, room, block) =
        new_chunk_lem header alloc a.chunk_size need d small_header arena.1 small e in
      record { sound = sound; room = omega arith; linked = inr (empty, block, same) }

  from_chain :
      (b m : List Chunk) (c : Chunk)
      → has_room need c ≡ true
      → chain a ≡ b ++ c ∷ m
      → Placed header alloc a need b c m
  from_chain b m c room same =
      let sound = All-at b c m (subst (All IsChunk) same arena.0) in
      record {
        sound = sound;
        room = has_room_lem need c sound (omega arith) room;
        linked = inl same;
      }

  abbrev pub Result : Option (List Chunk × Chunk × List Chunk) → Type 0
  Result r = (b m : List Chunk) (c : Chunk) → r ≡ some (b, c, m) → Placed header alloc a need b c m

  link_new-Result :
      (b m : List Chunk) → chain a ≡ b ++ m → Result (link_new header alloc a need b m)
  unfolding link_new
  link_new-Result b m same b' m' c e = elim (Bool-cases a.is_static) [
    | inl static ↦ absurd (ground arith)
    | inr dynamic ↦ elim (Option-cases (new_chunk header alloc a.chunk_size need)) [
      | inl missing ↦ absurd (ground arith)
      | inr (d, made) ↦
          let (eb, ec, em) : (b ≡ b') × (d ≡ c) × (m ≡ m') = ground arith in
          subst (λ x. Placed header alloc a need b' x m') ec
            (from_new b' m' d made (same ∙ ap (λ x. x ++ m) eb ∙ ap (λ x. b' ++ x) em))
    ]
  ]

  head-Result :
      (c : Chunk) (cs : List Chunk)
      → chain a ≡ a.before ++ c ∷ cs
      → Result (
          if has_room need c then some (a.before, c, cs) else elim (scan_chain need cs) [
            | some (skipped, d, more) ↦ some (a.before ++ c ∷ skipped, d, more)
            | none ↦ link_new header alloc a need (a.before ++ c ∷ []) cs
          ])
  head-Result c cs same b' m' c' e = elim (Bool-cases (has_room need c)) [
    | inl room ↦
        let (eb, ec, em) : (a.before ≡ b') × (c ≡ c') × (cs ≡ m') = ground arith in
        from_chain b' m' c' (ap (has_room need) (sym ec) ∙ room)
          (same ∙ ap (λ x. x ++ c ∷ cs) eb ∙ ap (λ x. b' ++ x ∷ cs) ec ∙ ap (λ x. b' ++ c' ∷ x) em)
    | inr full ↦ elim (Option-cases (scan_chain need cs)) [
      | inr ((s, d, m), found) ↦
          let (parts, room) = scan_chain_lem need cs s m d found in
          let (eb, ec, em) : (a.before ++ c ∷ s ≡ b') × (d ≡ c') × (m ≡ m') = ground arith in
          from_chain b' m' c' (ap (has_room need) (sym ec) ∙ room) (
            same
            ∙ ap (λ x. a.before ++ c ∷ x) parts
            ∙ sym (append_assoc a.before (c ∷ s) (d ∷ m))
            ∙ ap (λ x. x ++ d ∷ m) eb
            ∙ ap (λ x. b' ++ x ∷ m) ec
            ∙ ap (λ x. b' ++ c' ∷ x) em)
      | inl missing ↦
          link_new-Result (a.before ++ c ∷ []) cs (same ∙ sym (append_assoc a.before (c ∷ []) cs))
            b' m' c' (ground arith)
    ]
  ]

  -- `find_chunk` as a function of the chain from the head on.
  from_head : List Chunk → Option (List Chunk × Chunk × List Chunk)
  from_head [] = link_new header alloc a need a.before []
  from_head (c ∷ cs) =
      if has_room need c then some (a.before, c, cs) else elim (scan_chain need cs) [
        | some (skipped, d, more) ↦ some (a.before ++ c ∷ skipped, d, more)
        | none ↦ link_new header alloc a need (a.before ++ c ∷ []) cs
      ]

  from_head-Result : (l : List Chunk) → a.rest ≡ l → Result (from_head l)
  unfolding from_head
  from_head-Result [] e = link_new-Result a.before [] (ap (λ x. a.before ++ x) e)
  from_head-Result (c ∷ cs) e = head-Result c cs (ap (λ x. a.before ++ x) e)

  find_chunk-from_head : find_chunk header alloc a need ≡ from_head a.rest
  unfolding find_chunk from_head link_new
  find_chunk-from_head =
      elim a.rest as (λ l. find_chunk header alloc (record a { rest = l }) need ≡ from_head l) [
        | [] ↦ refl
        | c ∷ cs ↦ refl
      ]

  pub find_chunk-Result : Result (find_chunk header alloc a need)
  find_chunk-Result = subst Result (sym find_chunk-from_head) (from_head-Result a.rest refl)
