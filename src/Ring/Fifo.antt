-- ===== src/Ring/Fifo.antt =====
-- src/rt/uapi.c and src/rt/usched.c: the ring of injected events as a queue of records, at any counters.
use urbi_embedded.Shared.{
  ℕ, zero, suc, ◌+◌, ◌-◌, ◌%◌, ◌^◌, ◌≤◌, ◌<◌, ◌≡◌, ◌≢◌, refl, sym, ap, ◌∙◌, subst, arith, Bool,
  true, false, not, ◌&&◌, ◌||◌, List, [], ◌∷◌, ◌++◌, Option, none, some, ltb, leb, ◌==◌,
  if◌then◌else◌, Bool-cases, inl, inr,
}
use urbi_embedded.Ring.{
  IsrRec, Ring, Injected, ok, invalid_arg, oom, filled, pending, urbi_inject_event, take_isr,
}
use urbi_embedded.Ring.Record.{Covers, Holds, filled-Holds}

-- So many records from the counter `at` on.
unfoldable pub records : (ℕ → IsrRec) → (at count : ℕ) → List IsrRec
records isr at zero = []
records isr at (suc count) = isr (at % 16) ∷ records isr ((at + 1) % 2 ^ 32) count

pub record IsRing (ring : Ring) : Type 0 where
  pub head : ring.isr_head < 2 ^ 32
  pub tail : ring.isr_tail < 2 ^ 32
  pub room : pending ring ≤ 16

-- What the drain has yet to see, the oldest first.
abbrev pub queue : Ring → List IsrRec
queue ring = records ring.isr ring.isr_tail (pending ring)

next_slot : (at c : ℕ) → ((at + 1) % 2 ^ 32 + c) % 16 ≡ (at + suc c) % 16
next_slot at c = omega arith

records-suc :
    (isr : ℕ → IsrRec) (at c : ℕ)
    → records isr at (suc c) ≡ records isr at c ++ isr ((at + c) % 16) ∷ []
unfolding records
records-suc isr at zero = ap (λ k. isr (k % 16) ∷ []) (omega arith)
records-suc isr at (suc c) =
    let rest = records-suc isr ((at + 1) % 2 ^ 32) c in
    ap (◌∷◌ (isr (at % 16)))
      (rest ∙ ap (λ k. records isr ((at + 1) % 2 ^ 32) c ++ isr k ∷ []) (next_slot at c))

-- A slot that none of the records is in.
records_elsewhere :
    (isr : ℕ → IsrRec) (slot : ℕ) (r : IsrRec) (at c : ℕ)
    → c < 16
    → slot ≡ (at + c) % 16
    → records (λ i. if i == slot then r else isr i) at c ≡ records isr at c
unfolding records
records_elsewhere isr slot r at zero h e = refl
records_elsewhere isr slot r at (suc c) h e =
    let far : (at % 16 == slot) ≡ false = ground (arith, apart) in
    let rest =
      records_elsewhere isr slot r ((at + 1) % 2 ^ 32) c (omega (arith, h))
        (e ∙ sym (next_slot at c)) in
    rw (far, rest) refl
  where
    apart : at % 16 ≢ slot
    apart = omega (arith, h, e)

abbrev pub accepted : (id n : ℕ) → Ring → Bool
accepted id n ring =
    not (ltb 16 n) && (not (leb ring.event_count id) && not (leb 16 (pending ring)))

-- The counters when a record has come in, and when one has gone.
pending_in :
    (head tail : ℕ)
    → head < 2 ^ 32
    → tail < 2 ^ 32
    → (head + (2 ^ 32 - tail)) % 2 ^ 32 < 16
    → ((head + 1) % 2 ^ 32 + (2 ^ 32 - tail)) % 2 ^ 32 ≡ suc ((head + (2 ^ 32 - tail)) % 2 ^ 32)
pending_in head tail h t room = omega arith

pending_out :
    (head tail : ℕ)
    → head < 2 ^ 32
    → tail < 2 ^ 32
    → tail ≢ head
    → (head + (2 ^ 32 - tail)) % 2 ^ 32 ≡ suc ((head + (2 ^ 32 - (tail + 1) % 2 ^ 32)) % 2 ^ 32)
pending_out head tail h t apart = omega arith

slot_is :
    (head tail : ℕ)
    → head < 2 ^ 32
    → tail < 2 ^ 32
    → head % 16 ≡ (tail + (head + (2 ^ 32 - tail)) % 2 ^ 32) % 16
slot_is head tail h t = omega arith

inject_in :
    (id n : ℕ) (payload : Option (List ℕ)) (ring : Ring)
    → IsRing ring
    → accepted id n ring ≡ true
    → IsRing ((urbi_inject_event id n payload ring).1)
      × (queue ((urbi_inject_event id n payload ring).1)
          ≡ queue ring ++ filled ring id n payload ∷ [])
unfolding urbi_inject_event
inject_in id n payload ring h goes =
    let c = pending ring in
    let slot = ring.isr_head % 16 in
    let r = filled ring id n payload in
    let isr' : ℕ → IsrRec = λ i. if i == slot then r else ring.isr i in
    let small : ltb 16 n ≡ false = ground (arith, goes) in
    let known : leb ring.event_count id ≡ false = ground (arith, goes) in
    let some_room : leb 16 c ≡ false = ground (arith, goes) in
    let room : c < 16 = ground (arith, some_room) in
    let more = pending_in ring.isr_head ring.isr_tail h.head h.tail room in
    let here : slot ≡ (ring.isr_tail + c) % 16 =
      slot_is ring.isr_head ring.isr_tail h.head h.tail in
    let stored : isr' slot ≡ r = ground arith in
    rw (small, known, some_room)
      (
        record { head = omega arith; tail = h.tail; room = omega (arith, more, room) },
        ap (records isr' ring.isr_tail) more
            ∙ records-suc isr' ring.isr_tail c
            ∙ ap (λ xs. xs ++ isr' ((ring.isr_tail + c) % 16) ∷ [])
                (records_elsewhere ring.isr slot r ring.isr_tail c room here)
            ∙ ap (λ k. records ring.isr ring.isr_tail c ++ isr' k ∷ []) (sym here)
            ∙ ap (λ x. records ring.isr ring.isr_tail c ++ x ∷ []) stored,
      )

-- What a round of the drain answers and leaves, of the ring that it was: only the tail moves.
abbrev pub Taken : Ring → Option IsrRec × Ring → Type 0
Taken ring r =
    IsRing (r.1)
    × (queue ring ≡ elim r.0 [ none ↦ [] | some x ↦ x ∷ queue (r.1) ])
    × (r.1 ≡ record ring {
      isr_tail = elim r.0 [ none ↦ ring.isr_tail | some x ↦ (ring.isr_tail + 1) % 2 ^ 32 ];
    })

take_out : (ring : Ring) → IsRing ring → Taken ring (take_isr ring)
unfolding take_isr records
take_out ring h = elim (Bool-cases (ring.isr_tail == ring.isr_head)) [
  | inl same ↦
      let e : ring.isr_tail ≡ ring.isr_head = ground (arith, same) in
      let none_left : pending ring ≡ 0 = omega (arith, e, h.head) in
      let answer : take_isr ring ≡ (none, ring) = rw same refl in
      subst (Taken ring) (sym answer) (h, ap (records ring.isr ring.isr_tail) none_left, refl)
  | inr far ↦
      let apart : ring.isr_tail ≢ ring.isr_head = ground (arith, far) in
      let less = pending_out ring.isr_head ring.isr_tail h.head h.tail apart in
      let left : Ring = record ring { isr_tail = (ring.isr_tail + 1) % 2 ^ 32 } in
      let answer : take_isr ring ≡ (some (ring.isr (ring.isr_tail % 16)), left) = rw far refl in
      let ring_left : IsRing left = record {
        head = h.head;
        tail = omega arith;
        room = omega (arith, less, h.room);
      } in
      subst (Taken ring) (sym answer) (ring_left, ap (records ring.isr ring.isr_tail) less, refl)
]

-- The return code.
abbrev pub verdict : (id n : ℕ) → Ring → Injected
verdict id n ring =
    if ltb 16 n || leb ring.event_count id
    then invalid_arg
    else if leb 16 (pending ring)
    then oom
    else ok

-- What becomes of the ring: with no acceptance, nothing; and otherwise one slot holds the record, which
-- is the last of the queue, the head has moved by one, and the rest is as it was.
abbrev pub Injects : (accepted : Bool) → (id n : ℕ) → Option (List ℕ) → Ring → Ring → Type 0
Injects true id n payload ring ring' =
    let slot = ring.isr_head % 16 in
    Holds (ring.isr slot) (ring'.isr slot) id n payload
    × (queue ring' ≡ queue ring ++ ring'.isr slot ∷ [])
    × ((i : ℕ) → ring'.isr i ≡ (if i == slot then ring'.isr slot else ring.isr i))
    × (ring'.isr_head ≡ (ring.isr_head + 1) % 2 ^ 32)
    × (ring'.isr_tail ≡ ring.isr_tail)
    × (ring'.event_count ≡ ring.event_count)
Injects false id n payload ring ring' = ring' ≡ ring

abbrev with_record : (id n : ℕ) → Option (List ℕ) → Ring → Ring
with_record id n payload ring = record ring {
  isr = λ i. if i == ring.isr_head % 16 then filled ring id n payload else ring.isr i;
  isr_head = (ring.isr_head + 1) % 2 ^ 32;
}

inject_accepts :
    (id n : ℕ) (payload : Option (List ℕ)) (ring : Ring)
    → accepted id n ring ≡ true
    → urbi_inject_event id n payload ring ≡ (ok, with_record id n payload ring)
unfolding urbi_inject_event
inject_accepts id n payload ring goes =
    let small : ltb 16 n ≡ false = ground (arith, goes) in
    let known : leb ring.event_count id ≡ false = ground (arith, goes) in
    let some_room : leb 16 (pending ring) ≡ false = ground (arith, goes) in
    rw (small, known, some_room) refl

with_record-Injects :
    (id n : ℕ) (payload : Option (List ℕ)) (ring : Ring)
    → Covers payload n
    → queue (with_record id n payload ring) ≡ queue ring ++ filled ring id n payload ∷ []
    → Injects true id n payload ring (with_record id n payload ring)
with_record-Injects id n payload ring whole last =
    let ring' = with_record id n payload ring in
    let slot = ring.isr_head % 16 in
    let here : (slot == slot) ≡ true = ground arith in
    let stored : filled ring id n payload ≡ ring'.isr slot = rw here refl in
    (
      subst (λ r. Holds (ring.isr slot) r id n payload) stored
          (filled-Holds ring id n payload whole),
      last ∙ ap (λ r. queue ring ++ r ∷ []) stored,
      λ i. ap (λ r. if i == slot then r else ring.isr i) stored,
      refl,
      refl,
      refl,
    )

refused :
    (id n : ℕ) (payload : Option (List ℕ)) (ring : Ring)
    → accepted id n ring ≡ false
    → (urbi_inject_event id n payload ring).1 ≡ ring
unfolding urbi_inject_event
refused id n payload ring stays = elim (Bool-cases (ltb 16 n)) [
  | inl e ↦ rw e refl
  | inr e ↦ elim (Bool-cases (leb ring.event_count id)) [
    | inl e' ↦ rw (e, e') refl
    | inr e' ↦
        let full : leb 16 (pending ring) ≡ true = ground (arith, stays, e, e') in
        rw (e, e', full) refl
  ]
]

answers_verdict :
    (id n : ℕ) (payload : Option (List ℕ)) (ring : Ring)
    → (urbi_inject_event id n payload ring).0 ≡ verdict id n ring
unfolding urbi_inject_event
answers_verdict id n payload ring = elim (Bool-cases (ltb 16 n)) [
  | inl e ↦ rw e refl
  | inr e ↦ elim (Bool-cases (leb ring.event_count id)) [
    | inl e' ↦ rw (e, e') refl
    | inr e' ↦ elim (Bool-cases (leb 16 (pending ring))) [
      | inl full ↦ rw (e, e', full) refl
      | inr room ↦ rw (e, e', room) refl
    ]
  ]
]

-- For a ring with at most 16 records between two 32-bit counters and a payload that has its n bytes, where one is
-- given: urbi_inject_event answers URBI_ERR_INVALID_ARG for more than 16 bytes or an id that is not registered, URBI_ERR_OOM
-- where 16 records wait, and changes nothing then; otherwise it answers URBI_OK and writes the id, n and the bytes
-- of the payload into the slot at the head, the bytes that it is not given staying, so that this record is
-- the last in the queue, moves the head by one and leaves the rest. A round of the drain takes the oldest record and
-- moves the tail by one, or changes nothing when there is none. Both leave such a ring, also where a counter wraps.
pub isr_ring_lem :
    (id n : ℕ) (payload : Option (List ℕ)) (ring : Ring)
    → IsRing ring
    → Covers payload n
    → ((urbi_inject_event id n payload ring).0 ≡ verdict id n ring)
      × IsRing ((urbi_inject_event id n payload ring).1)
      × Injects (accepted id n ring) id n payload ring ((urbi_inject_event id n payload ring).1)
      × Taken ring (take_isr ring)
isr_ring_lem id n payload ring h whole =
    let code = answers_verdict id n payload ring in
    let taken = take_out ring h in
    elim (Bool-cases (accepted id n ring)) [
      | inl goes ↦
          let (ring_in, added) = inject_in id n payload ring h goes in
          let same : (urbi_inject_event id n payload ring).1 ≡ with_record id n payload ring =
            ap (λ r. r.1) (inject_accepts id n payload ring goes) in
          let change =
            with_record-Injects id n payload ring whole
              (subst (λ r. queue r ≡ queue ring ++ filled ring id n payload ∷ []) same added) in
          (
            code,
            ring_in,
            subst (λ b. Injects b id n payload ring ((urbi_inject_event id n payload ring).1))
                (sym goes) (subst (Injects true id n payload ring) (sym same) change),
            taken,
          )
      | inr stays ↦
          let same = refused id n payload ring stays in
          (
            code,
            subst IsRing (sym same) h,
            subst (λ b. Injects b id n payload ring ((urbi_inject_event id n payload ring).1))
                (sym stays) same,
            taken,
          )
    ]
