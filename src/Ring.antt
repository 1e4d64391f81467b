-- ===== src/Ring.antt =====
-- src/rt/uapi.c and src/rt/usched.c: the ring through which an interrupt handler injects events.
pub mod Record
pub mod Fifo
mod Runs
use urbi_embedded.Shared.{
  ℕ, ◌+◌, ◌-◌, ◌*◌, ◌%◌, ◌^◌, Bool, true, false, not, ◌&&◌, ◌||◌, List, [], ◌∷◌, ◌++◌, Option, none,
  some, take, drop, ltb, leb, ◌==◌, if◌then◌else◌,
}

-- `UIsrRec`, the payload as its bytes.
pub record IsrRec : Type 0 where
  pub id : ℕ
  pub n : ℕ
  pub payload : List ℕ

-- The fields of `USched` that the ring has. The counters have 32 bits.
pub record Ring : Type 0 where
  pub isr : ℕ → IsrRec
  pub isr_head : ℕ
  pub isr_tail : ℕ
  pub event_count : ℕ

pub data Injected : Type 0 where
  ok invalid_arg oom : Injected

-- `&sc->isr[head % USCHED_ISR_SLOTS]` as it is written.
abbrev pub filled : Ring → (id n : ℕ) → Option (List ℕ) → IsrRec
filled ring id n payload =
    let old = ring.isr (ring.isr_head % 16) in
    record {
      id = id;
      n = n;
      payload = elim payload [
        | none ↦ old.payload
        | some bytes ↦ take n bytes ++ drop n old.payload
      ];
    }

-- The number of records that are in the ring, `head - tail` on 32 bits.
abbrev pub pending : Ring → ℕ
pending ring = (ring.isr_head + (2 ^ 32 - ring.isr_tail)) % 2 ^ 32

unfoldable pub urbi_inject_event : (id n : ℕ) → Option (List ℕ) → Ring → Injected × Ring
urbi_inject_event id n payload ring =
    if ltb 16 n
    then (invalid_arg, ring)
    else if leb ring.event_count id
    then (invalid_arg, ring)
    else if leb 16 (pending ring)
    then (oom, ring)
    else (
      ok,
      record ring {
        isr = λ i. if i == ring.isr_head % 16 then filled ring id n payload else ring.isr i;
        isr_head = (ring.isr_head + 1) % 2 ^ 32;
      },
    )

-- One round of `usched_drain_isr` up to the record that it has taken, or its return.
unfoldable pub take_isr : Ring → Option IsrRec × Ring
take_isr ring = if ring.isr_tail == ring.isr_head then (none, ring) else (
  some (ring.isr (ring.isr_tail % 16)),
  record ring { isr_tail = (ring.isr_tail + 1) % 2 ^ 32 },
)
