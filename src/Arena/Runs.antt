-- ===== src/Arena/Runs.antt =====
-- src/util/uarena.c: small arenas, and the theorems at them. The header has 24 bytes.
use urbi_embedded.Shared.{ℕ, ◌-◌, ◌^◌, ◌≡◌, refl, arith, true, false, [], ◌∷◌, Option, none, some}
use urbi_embedded.Arena.{
  Chunk, Arena, align_up, has_room, chunk_payload, new_chunk, link_new, find_chunk, uarena_alloc,
  uarena_init_ex, uarena_init_static, uarena_reset, uarena_destroy, addresses,
}
use urbi_embedded.Arena.Chain.{IsArena, chain}
use urbi_embedded.Arena.Bump.{Granted, uarena_alloc_lem, uarena_reset_lem}

abbrev at_4096 : ℕ → Option ℕ
at_4096 raw = some 4096

abbrev refuses : ℕ → Option ℕ
refuses raw = none

abbrev first_chunk : Chunk
first_chunk = record { addr = 4096; capacity = 72; used = 16 }

abbrev one_chunk : Arena
one_chunk = record {
  before = [];
  rest = first_chunk ∷ [];
  chunk_size = 64;
  oom = false;
  is_static = false;
}

-- The header ends at 4120, the payload starts at 4128, and 16 bytes of it are taken.
first_request : uarena_alloc 24 at_4096 (uarena_init_ex 64) 10 ≡ (one_chunk, some 4128)
unfolding uarena_alloc align_up find_chunk link_new new_chunk chunk_payload
first_request = refl

second_request : (uarena_alloc 24 refuses one_chunk 20).1 ≡ some 4144
unfolding uarena_alloc align_up find_chunk has_room chunk_payload
second_request = refl

-- A request that takes the sum of `used` and `need` past SIZE_MAX is granted.
huge_request : (uarena_alloc 24 refuses one_chunk (2 ^ 64 - 16)).1 ≡ some 4144
unfolding uarena_alloc align_up find_chunk has_room chunk_payload
huge_request = refl

too_small : (uarena_init_static 24 4096 39).rest ≡ []
unfolding uarena_init_static
too_small = refl

destroyed : (uarena_destroy one_chunk).1 ≡ 4096 ∷ []
unfolding uarena_destroy
destroyed = refl

one_chunk-IsArena : IsArena one_chunk
one_chunk-IsArena =
    ((record { inside = omega arith; bounded = omega arith; aligned = refl }, tt), omega arith)

uarena_alloc_lem_example :
    ((a' : Arena) (p : ℕ)
      → uarena_alloc 24 refuses one_chunk 20 ≡ (a', some p)
      → IsArena a' × Granted 24 refuses one_chunk a' 20 p)
    × ((a' : Arena)
        → uarena_alloc 24 refuses one_chunk 20 ≡ (a', none)
        → a' ≡ record one_chunk { oom = true })
uarena_alloc_lem_example =
    uarena_alloc_lem 24 refuses one_chunk 20 (omega arith) one_chunk-IsArena (omega arith)

uarena_reset_lem_example :
    IsArena (uarena_reset one_chunk)
    × (addresses (chain (uarena_reset one_chunk)) ≡ addresses (chain one_chunk))
    × ((uarena_alloc 24 refuses (uarena_reset one_chunk) 50).1 ≡ some (chunk_payload 24 4096))
unfolding align_up
uarena_reset_lem_example =
    uarena_reset_lem 24 refuses one_chunk first_chunk [] 50 one_chunk-IsArena refl (omega arith)
      (omega arith)
