-- ===== src/Ring/Record.antt =====
-- src/rt/uapi.c: the record that an injection writes into a slot, byte by byte.
use urbi_embedded.Shared.{
  ℕ, zero, suc, ◌%◌, ◌≤◌, ◌≡◌, refl, subst, dec_lt, Bool, true, false, ◌&&◌, List, [], ◌∷◌, ◌++◌,
  Option, none, some, arith, ltb, length, take, drop, get_or, if◌then◌else◌,
}
use urbi_embedded.Ring.{IsrRec, Ring, filled}

-- A payload that is given has the bytes that it is said to have.
abbrev pub Covers : Option (List ℕ) → ℕ → Type 0
Covers none n = Unit {0}
Covers (some bytes) n = n ≤ length bytes

abbrev pub given : Option (List ℕ) → Bool
given none = false
given (some bytes) = true

abbrev pub byte_of : Option (List ℕ) → ℕ → ℕ
byte_of none i = 0
byte_of (some bytes) i = get_or bytes i 0

-- The record `r` written over `old`: the id, the number of bytes, and each byte of the payload, which
-- is that of the payload given where it has one and the old byte elsewhere.
pub record Holds (old r : IsrRec) (id n : ℕ) (payload : Option (List ℕ)) : Type 0 where
  pub has_id : r.id ≡ id
  pub has_n : r.n ≡ n
  pub bytes :
      (i : ℕ)
      → get_or r.payload i 0
        ≡ (if ltb i n && given payload then byte_of payload i else get_or old.payload i 0)

drop_nil : (n : ℕ) → drop {A = ℕ} n [] ≡ []
drop_nil zero = refl
drop_nil (suc n) = refl

get_or-copy :
    (n i : ℕ) (bytes old : List ℕ)
    → n ≤ length bytes
    → get_or (take n bytes ++ drop n old) i 0
      ≡ (if ltb i n then get_or bytes i 0 else get_or old i 0)
get_or-copy zero i bytes old h = ground arith
get_or-copy (suc n) i [] old h = absurd (ground (arith, h))
get_or-copy (suc n) zero (b ∷ bytes) old h = ground arith
get_or-copy (suc n) (suc i) (b ∷ bytes) [] h =
    let rest : get_or (take n bytes ++ []) i 0 ≡ (if ltb i n then get_or bytes i 0 else 0) =
      subst (λ l. get_or (take n bytes ++ l) i 0 ≡ (if ltb i n then get_or bytes i 0 else 0))
        (drop_nil n) (get_or-copy n i bytes [] (omega (arith, h))) in
    elim (dec_lt i n) [ yes low ↦ ground (arith, rest, low) | no high ↦ ground (arith, rest, high) ]
get_or-copy (suc n) (suc i) (b ∷ bytes) (x ∷ old) h =
    let rest = get_or-copy n i bytes old (omega (arith, h)) in ground (arith, rest)

pub filled-Holds :
    (ring : Ring) (id n : ℕ) (payload : Option (List ℕ))
    → Covers payload n
    → Holds (ring.isr (ring.isr_head % 16)) (filled ring id n payload) id n payload
filled-Holds ring id n none h = record { has_id = refl; has_n = refl; bytes = λ i. ground arith }
filled-Holds ring id n (some bytes) h = record {
  has_id = refl;
  has_n = refl;
  bytes = λ i.
      let e = get_or-copy n i bytes ((ring.isr (ring.isr_head % 16)).payload) h in
      ground (arith, e);
}
