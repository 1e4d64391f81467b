-- ===== src/Arena/Bump.antt =====
-- src/util/uarena.c: what uarena_alloc hands out, and what reset and destroy do.
use urbi_embedded.Shared.{
  ℕ, ◌+◌, ◌%◌, ◌^◌, ◌≤◌, ◌<◌, ◌≡◌, refl, sym, ap, ◌∙◌, subst, ◌⊎◌, inl, inr, true, false, List, [],
  ◌∷◌, ◌++◌, Option, none, some, arith, All, Bool-cases, Option-cases,
}
use urbi_embedded.Arena.{
  Chunk, Arena, align_up, has_room, chunk_payload, find_chunk, uarena_alloc, uarena_reset, rewound,
  addresses,
}
use urbi_embedded.Arena.Fits.{IsChunk, IsBlock, align_up_lem, chunk_payload_lem}
use urbi_embedded.Arena.Chain.{chain, IsArena, All-put, All-link, find_chunk-Result}

-- What a successful request got: `n` bytes at `p`, in the chunk `c` behind all that has been consumed
-- of it, and the arena `a'` with that chunk at its head and its consumed part extended. A chunk that the
-- arena did not have is a block of the allocator's.
pub record Granted (header : ℕ) (alloc : ℕ → Option ℕ) (a a' : Arena) (n p : ℕ) : Type 0 where
  pub skipped : List Chunk
  pub c : Chunk
  pub more : List Chunk
  pub taken_from :
      (chain a ≡ skipped ++ c ∷ more)
      ⊎ ((c.used ≡ 0) × IsBlock header alloc c × (chain a ≡ skipped ++ more))
  pub starts : p ≡ chunk_payload header c.addr + c.used
  pub aligned : p % 16 ≡ 0
  pub fits : p + n ≤ chunk_payload header c.addr + c.capacity
  pub extended :
      (end : ℕ) × (c.used + n ≤ end)
      × (end ≤ c.capacity)
      × (a' ≡ record a { before = skipped; rest = record c { used = end } ∷ more })

module _ (header : ℕ) (alloc : ℕ → Option ℕ) (a : Arena) (n : ℕ) (small_header : header < 2 ^ 16)
    (arena : IsArena a) (small : n < 2 ^ 60) where
  alloc_fails :
      (a' : Arena) → uarena_alloc header alloc a n ≡ (a', none) → a' ≡ record a { oom = true }
  unfolding uarena_alloc
  alloc_fails a' h = elim (Bool-cases a.oom) [
    | inl out ↦ ground arith
    | inr clear ↦ elim (Option-cases (find_chunk header alloc a (align_up n))) [
      | inl missing ↦ ground arith
      | inr (r, found) ↦ absurd (ground arith)
    ]
  ]

  alloc_parts :
      (a' : Arena) (p : ℕ)
      → uarena_alloc header alloc a n ≡ (a', some p)
      → (b : List Chunk) × (c : Chunk) × (m : List Chunk) × (find_chunk header alloc a (align_up n)
          ≡ some (b, c, m))
        × (a' ≡ record a {
          before = b;
          rest = record c { used = (c.used + align_up n) % 2 ^ 64 } ∷ m;
        })
        × (p ≡ chunk_payload header c.addr + c.used)
  unfolding uarena_alloc
  alloc_parts a' p h = elim (Option-cases (find_chunk header alloc a (align_up n))) [
    | inl missing ↦ absurd (ground arith)
    | inr ((b, c, m), found) ↦ (b, c, m, found, ground arith, ground arith)
  ]

  extended_sound :
      (c : Chunk) (end : ℕ)
      → IsChunk c
      → end ≤ c.capacity
      → end % 16 ≡ 0
      → IsChunk (record c { used = end })
  extended_sound c end sound inside aligned = record {
    inside = inside;
    bounded = sound.bounded;
    aligned = aligned;
  }

  kept-IsArena :
      (b m : List Chunk) (c d : Chunk)
      → (chain a ≡ b ++ c ∷ m) ⊎ ((c.used ≡ 0) × IsBlock header alloc c × (chain a ≡ b ++ m))
      → IsChunk d
      → All IsChunk (b ++ d ∷ m)
  kept-IsArena b m c d (inl same) sound = All-put b c d m (subst (All IsChunk) same arena.0) sound
  kept-IsArena b m c d (inr (empty, block, same)) sound =
      All-link b d m (subst (All IsChunk) same arena.0) sound

  alloc_grants :
      (a' : Arena) (p : ℕ)
      → uarena_alloc header alloc a n ≡ (a', some p)
      → IsArena a' × Granted header alloc a a' n p
  alloc_grants a' p h =
      let (b, c, m, found, after, at) = alloc_parts a' p h in
      let (enough, close, whole) = align_up_lem n (omega arith) in
      let placed =
        find_chunk-Result header alloc a (align_up n) small_header arena (omega arith) b m c
          found in
      let room = placed.room in
      let bounded = placed.sound.bounded in
      let used_aligned = placed.sound.aligned in
      let (payload_aligned, _, _) = chunk_payload_lem header c.addr in
      let no_wrap : (c.used + align_up n) % 2 ^ 64 ≡ c.used + align_up n = omega arith in
      let after' : a'
          ≡ record a { before = b; rest = record c { used = c.used + align_up n } ∷ m } =
        after ∙ ap (λ e. record a { before = b; rest = record c { used = e } ∷ m }) no_wrap in
      let sound = extended_sound c (c.used + align_up n) placed.sound room (omega arith) in
      let all = kept-IsArena b m c (record c { used = c.used + align_up n }) placed.linked sound in
      (
        subst IsArena (sym after') (all, arena.1),
        record {
          skipped = b;
          c = c;
          more = m;
          taken_from = placed.linked;
          starts = at;
          aligned = omega arith;
          fits = omega arith;
          extended = (c.used + align_up n, omega arith, room, after');
        },
      )

  -- On a well-formed arena and a request below 2 ^ 60 bytes: when `uarena_alloc` returns an address, it
  -- is a multiple of 16, the bytes from it on lie in the payload of one chunk, behind what has been
  -- consumed of that chunk, which is one of the arena's or new, no other chunk changes, and the arena
  -- stays well formed; a new chunk is a block that the allocator gave, its payload lies behind its header
  -- and ends where the bytes end that the allocator was asked for; when it returns NULL it sets `oom` and changes nothing else.
  pub uarena_alloc_lem :
      ((a' : Arena) (p : ℕ)
        → uarena_alloc header alloc a n ≡ (a', some p)
        → IsArena a' × Granted header alloc a a' n p)
      × ((a' : Arena) → uarena_alloc header alloc a n ≡ (a', none) → a' ≡ record a { oom = true })
  uarena_alloc_lem = (alloc_grants, alloc_fails)

rewound-IsChunk : (l : List Chunk) → All IsChunk l → All IsChunk (rewound l)
rewound-IsChunk [] h = tt
rewound-IsChunk (c ∷ cs) h =
    (record { inside = omega arith; bounded = h.0.bounded; aligned = refl }, rewound-IsChunk cs h.1)

addresses-rewound : (l : List Chunk) → addresses (rewound l) ≡ addresses l
addresses-rewound [] = refl
addresses-rewound (c ∷ cs) = ap (◌∷◌ c.addr) (addresses-rewound cs)

first_fits :
    (header : ℕ) (alloc : ℕ → Option ℕ) (a : Arena) (c : Chunk) (cs : List Chunk) (n : ℕ)
    → a.oom ≡ false
    → a.rest ≡ c ∷ cs
    → c.used ≡ 0
    → n < 2 ^ 60
    → align_up n ≤ c.capacity
    → (uarena_alloc header alloc a n).1 ≡ some (chunk_payload header c.addr)
unfolding uarena_alloc find_chunk has_room
first_fits header alloc a c cs n clear at empty small room =
    let (enough, close, whole) = align_up_lem n (omega arith) in
    let roomy : has_room (align_up n) c ≡ true = ground arith in
    let found : find_chunk header alloc a (align_up n) ≡ some (a.before, c, cs) = ground arith in
    let base : chunk_payload header c.addr + c.used ≡ chunk_payload header c.addr = omega arith in
    let answer : (uarena_alloc header alloc a n).1 ≡ some (chunk_payload header c.addr + c.used) =
      ground arith in
    answer ∙ ap some base

-- `uarena_reset` keeps every chunk at its address and the arena well formed, and a request that the
-- first chunk can hold is then served from its start, with no call of the allocator.
pub uarena_reset_lem :
    (header : ℕ) (alloc : ℕ → Option ℕ) (a : Arena) (c : Chunk) (l : List Chunk) (n : ℕ)
    → IsArena a
    → chain a ≡ c ∷ l
    → n < 2 ^ 60
    → align_up n ≤ c.capacity
    → IsArena (uarena_reset a)
      × (addresses (chain (uarena_reset a)) ≡ addresses (chain a))
      × ((uarena_alloc header alloc (uarena_reset a) n).1 ≡ some (chunk_payload header c.addr))
uarena_reset_lem header alloc a c l n arena whole small room = (
  (rewound-IsChunk (chain a) arena.0, arena.1),
  addresses-rewound (chain a),
  first_fits header alloc (uarena_reset a) (record c { used = 0 }) (rewound l) n refl
      (ap rewound whole) refl small room,
)
