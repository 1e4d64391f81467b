-- ===== src/Arena.antt =====
-- src/util/uarena.c: the bump allocator of the compiler's front end. A `size_t` has 64 bits, an address
-- is a number, and `header` is `sizeof(UArenaChunk)`. `alloc raw` is the address that the backing
-- allocator answers to a request. The contents of the memory have no model.
pub mod Fits
pub mod Chain
pub mod Bump
mod Runs
use urbi_embedded.Shared.{
  ℕ, zero, suc, ◌+◌, ◌-◌, ◌*◌, ◌/◌, ◌%◌, ◌^◌, Bool, true, false, not, ◌&&◌, List, [], ◌∷◌, ◌++◌,
  Option, none, some, leb, ltb, ◌==◌, if◌then◌else◌, map, max,
}

-- `struct UArenaChunk`, with its own address in place of the link.
pub record Chunk : Type 0 where
  pub addr : ℕ
  pub capacity : ℕ
  pub used : ℕ

-- The chain from `first`: the chunks before `head`, and those from `head` on. `head` is NULL where
-- `rest` is empty.
pub record Arena : Type 0 where
  pub before : List Chunk
  pub rest : List Chunk
  pub chunk_size : ℕ
  pub oom : Bool
  pub is_static : Bool

-- `init_common`
abbrev pub uarena_init_ex : ℕ → Arena
uarena_init_ex chunk_size = record {
  before = [];
  rest = [];
  chunk_size = if chunk_size == 0 then 4096 else chunk_size;
  oom = false;
  is_static = false;
}

-- `if (need % ARENA_ALIGN) need += ARENA_ALIGN - (need % ARENA_ALIGN)`
unfoldable pub align_up : ℕ → ℕ
align_up n = if n % 16 == 0 then n else (n + (16 - n % 16)) % 2 ^ 64

-- `c->used + need > c->capacity`, negated, in `size_t`.
unfoldable pub has_room : ℕ → Chunk → Bool
has_room need c = not (ltb c.capacity ((c.used + need) % 2 ^ 64))

-- The first chunk of the chain that has room, with the ones before and behind it.
unfoldable pub scan_chain : ℕ → List Chunk → Option (List Chunk × Chunk × List Chunk)
scan_chain need [] = none
scan_chain need (c ∷ cs) =
    let found = scan_chain need cs in
    if has_room need c
    then some ([], c, cs)
    else elim found [ none ↦ none | some (skipped, d, more) ↦ some (c ∷ skipped, d, more) ]

module _ (header : ℕ) where
  -- `chunk_payload`: the address behind the header, rounded up.
  unfoldable pub chunk_payload : ℕ → ℕ
  chunk_payload addr =
      let base = addr + header in if base % 16 == 0 then base else base + (16 - base % 16)

  unfoldable pub uarena_init_static : ℕ → ℕ → Arena
  uarena_init_static buf bufsz = record {
    before = [];
    rest =
        if leb (header + 16) bufsz
        then record { addr = buf; capacity = bufsz - (chunk_payload buf - buf); used = 0 } ∷ []
        else [];
    chunk_size = 0;
    oom = false;
    is_static = true;
  }

  module _ (alloc : ℕ → Option ℕ) where
    unfoldable pub new_chunk : ℕ → ℕ → Option Chunk
    new_chunk chunk_size min_payload =
        let raw = (header + 16 + max chunk_size min_payload) % 2 ^ 64 in
        elim (alloc raw) [
          | none ↦ none
          | some mem ↦ some (record {
            addr = mem;
            capacity = (raw + 2 ^ 64 - (chunk_payload mem - mem)) % 2 ^ 64;
            used = 0;
          })
        ]

    -- A new chunk between `before` and `more`; a static arena makes none.
    unfoldable pub link_new :
        Arena → ℕ → List Chunk → List Chunk → Option (List Chunk × Chunk × List Chunk)
    link_new a need before more =
        if a.is_static
        then none
        else elim (new_chunk a.chunk_size need) [ none ↦ none | some c ↦ some (before, c, more) ]

    -- The chain with a chunk that has room at its head, or `none` where there is none to be had. The
    -- scan starts behind the head, and a new chunk is linked in behind it.
    unfoldable pub find_chunk : Arena → ℕ → Option (List Chunk × Chunk × List Chunk)
    find_chunk a need = elim a.rest [
      | [] ↦ link_new a need a.before []
      | c ∷ cs ↦ if has_room need c then some (a.before, c, cs) else elim (scan_chain need cs) [
        | some (skipped, d, more) ↦ some (a.before ++ c ∷ skipped, d, more)
        | none ↦ link_new a need (a.before ++ c ∷ []) cs
      ]
    ]

    -- The arena afterwards and the address returned, `none` for NULL.
    unfoldable pub uarena_alloc : Arena → ℕ → Arena × Option ℕ
    uarena_alloc a nbytes =
        let need = align_up nbytes in
        if a.oom
        then (a, none)
        else if ltb (2 ^ 64 - 1 - 15) nbytes
        then (record a { oom = true }, none)
        else elim (find_chunk a need) [
          | none ↦ (record a { oom = true }, none)
          | some (skipped, c, more) ↦ (
            record a {
              before = skipped;
              rest = record c { used = (c.used + need) % 2 ^ 64 } ∷ more;
            },
            some (chunk_payload c.addr + c.used),
          )
        ]

-- `for (c = first; c; c = c->next) c->used = 0`
abbrev pub rewound : List Chunk → List Chunk
rewound [] = []
rewound (c ∷ cs) = record c { used = 0 } ∷ rewound cs

abbrev pub uarena_reset : Arena → Arena
uarena_reset a = record a { before = []; rest = rewound (a.before ++ a.rest); oom = false }

abbrev pub addresses : List Chunk → List ℕ
addresses [] = []
addresses (c ∷ cs) = c.addr ∷ addresses cs

-- The arena afterwards, and the addresses handed to `free_fn` in their order.
unfoldable pub uarena_destroy : Arena → Arena × List ℕ
uarena_destroy a = (
  record a { before = []; rest = [] },
  if a.is_static then [] else addresses (a.before ++ a.rest),
)
