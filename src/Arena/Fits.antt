-- ===== src/Arena/Fits.antt =====
-- src/util/uarena.c: the arithmetic of alignment, room and new chunks, and what the chain's scan finds.
use urbi_embedded.Shared.{
  ℕ, ◌+◌, ◌-◌, ◌%◌, ◌^◌, ◌≤◌, ◌<◌, ◌≡◌, subst, inl, inr, true, List, [], ◌∷◌, ◌++◌, Option, some,
  arith, max, Bool-cases, Option-cases,
}
use urbi_embedded.Arena.{Chunk, align_up, has_room, scan_chain, chunk_payload, new_chunk}

-- The consumed part of a chunk is inside its payload, and a whole number of alignment quanta.
pub record IsChunk (c : Chunk) : Type 0 where
  pub inside : c.used ≤ c.capacity
  pub bounded : c.capacity < 2 ^ 62
  pub aligned : c.used % 16 ≡ 0

pub align_up_lem :
    (n : ℕ) → n < 2 ^ 61 → (n ≤ align_up n) × (align_up n < n + 16) × (align_up n % 16 ≡ 0)
unfolding align_up
align_up_lem n h = ground arith

pub chunk_payload_lem :
    (header addr : ℕ)
    → (chunk_payload header addr % 16 ≡ 0)
      × (addr + header ≤ chunk_payload header addr)
      × (chunk_payload header addr ≤ addr + header + 15)
unfolding chunk_payload
chunk_payload_lem header addr = ground arith

pub has_room_lem :
    (need : ℕ) (c : Chunk)
    → IsChunk c
    → need < 2 ^ 62
    → has_room need c ≡ true
    → c.used + need ≤ c.capacity
unfolding has_room
has_room_lem need c ok_c small h =
    let inside = ok_c.inside in let bounded = ok_c.bounded in ground arith

pub scan_chain_lem :
    (need : ℕ) (cs skipped more : List Chunk) (d : Chunk)
    → scan_chain need cs ≡ some (skipped, d, more)
    → (cs ≡ skipped ++ d ∷ more) × (has_room need d ≡ true)
unfolding scan_chain
scan_chain_lem need [] skipped more d h = cc
scan_chain_lem need (c ∷ cs) skipped more d h = elim (Bool-cases (has_room need c)) [
  | inl room ↦ let (e, e', e'') : ([] ≡ skipped) × (c ≡ d) × (cs ≡ more) = ground arith in (cc, cc)
  | inr none_here ↦ elim (Option-cases (scan_chain need cs)) [
    | inl missing ↦ absurd (ground arith)
    | inr ((s, d', m), found) ↦
        let (parts, room) = scan_chain_lem need cs s m d' found in
        let (e, e', e'') : (c ∷ s ≡ skipped) × (d' ≡ d) × (m ≡ more) = ground arith in (cc, cc)
  ]
]

module _ (header : ℕ) (alloc : ℕ → Option ℕ) where
  -- The chunk is a block of the allocator's: its header and its payload lie in the `raw` bytes that the
  -- allocator was asked for, and the payload ends where these end.
  abbrev pub IsBlock : Chunk → Type 0
  IsBlock c =
      (raw : ℕ) × (alloc raw ≡ some c.addr)
      × (c.addr + header ≤ chunk_payload header c.addr)
      × (chunk_payload header c.addr + c.capacity ≡ c.addr + raw)

  -- A new chunk is empty and holds the request, whatever address the allocator answers.
  pub new_chunk_lem :
      (chunk_size need : ℕ) (d : Chunk)
      → header < 2 ^ 16
      → chunk_size < 2 ^ 61
      → need < 2 ^ 61
      → new_chunk header alloc chunk_size need ≡ some d
      → IsChunk d × (d.used ≡ 0) × (need ≤ d.capacity) × IsBlock d
  unfolding new_chunk
  new_chunk_lem chunk_size need d hh hs hn h =
      elim (Option-cases (alloc ((header + 16 + max chunk_size need) % 2 ^ 64))) [
        | inl missing ↦ absurd (ground arith)
        | inr (mem, found) ↦
            let (aligned, low, high) = chunk_payload_lem header mem in
            let raw = (header + 16 + max chunk_size need) % 2 ^ 64 in
            let (cap_e, used_e, at) : (d.capacity
                  ≡ ((header + 16 + max chunk_size need) % 2 ^ 64
                      + 2 ^ 64
                      - (chunk_payload header mem - mem))
                    % 2 ^ 64)
                × (d.used ≡ 0)
                × (mem ≡ d.addr) =
              ground arith in
            let block : IsBlock (record d { addr = mem }) = (raw, found, low, omega arith) in
            (
              record { inside = omega arith; bounded = omega arith; aligned = omega arith },
              used_e,
              omega arith,
              subst (λ k. IsBlock (record d { addr = k })) at block,
            )
      ]
