-- ===== src/Ring/Runs.antt =====
-- src/rt/uapi.c and src/rt/usched.c: the ring of injected events at small states, and the theorem at one.
use urbi_embedded.Shared.{◌-◌, ◌^◌, ◌≡◌, refl, arith, true, [], ◌∷◌, none, some}
use urbi_embedded.Ring.{IsrRec, Ring, ok, oom, urbi_inject_event, take_isr}
use urbi_embedded.Ring.Fifo.{IsRing, Injects, Taken, isr_ring_lem}

abbrev blank : IsrRec
blank = record { id = 0; n = 0; payload = [] }

-- The next record makes the head wrap.
abbrev at_wrap : Ring
at_wrap = record { isr = λ i. blank; isr_head = 2 ^ 32 - 1; isr_tail = 2 ^ 32 - 1; event_count = 3 }

abbrev full : Ring
full = record { isr = λ i. blank; isr_head = 5; isr_tail = 2 ^ 32 - 11; event_count = 3 }

wraps : ((urbi_inject_event 2 0 none at_wrap).1).isr_head ≡ 0
unfolding urbi_inject_event
wraps = refl

drops_when_full : (urbi_inject_event 2 0 none full).0 ≡ oom
unfolding urbi_inject_event
drops_when_full = refl

at_wrap-IsRing : IsRing at_wrap
at_wrap-IsRing = record { head = omega arith; tail = omega arith; room = omega arith }

isr_ring_lem_example :
    ((urbi_inject_event 2 1 (some (9 ∷ [])) at_wrap).0 ≡ ok)
    × IsRing ((urbi_inject_event 2 1 (some (9 ∷ [])) at_wrap).1)
    × Injects true 2 1 (some (9 ∷ [])) at_wrap ((urbi_inject_event 2 1 (some (9 ∷ [])) at_wrap).1)
    × Taken at_wrap (take_isr at_wrap)
isr_ring_lem_example = isr_ring_lem 2 1 (some (9 ∷ [])) at_wrap at_wrap-IsRing (omega arith)
