-- ===== src/Loader/Yields.antt =====
-- src/chunk/uchunk_io.c: what a step of the decoder may do on any bytes: where it reads, and what it
-- answers.
use urbi_embedded.Shared.{
  ℕ, zero, suc, ◌+◌, ◌%◌, ◌^◌, ◌≤◌, ◌<◌, ◌≡◌, ◌≢◌, refl, subst, arith, Bool, true, false, not, ◌&&◌,
  List, [], ◌∷◌, ltb, leb, ◌==◌, if◌then◌else◌, length, drop, All, length-take, length-drop,
  Bool-cases, Option-cases, inl, inr,
}
use urbi_embedded.Varint.{VarintError, Decoded, uvarint_decode_u, uvarint_decode_zz}
use urbi_embedded.Varint.Decode.{decode_u_bounds}
use urbi_embedded.Varint.Zigzag.{decode_zz_bounds, decode_zz_value}
use urbi_embedded.Chunk.Proto.{LoadError, Load, ok, err, fault}
use urbi_embedded.Loader.Input.{
  Input, Reader, go_on, ◌>>=◌, ret, fail, refuse, size, advance, check_room, next_byte, copy_bytes,
  after_varint, cleared, decode_varint_u, decode_varint_zz, request, module_grow_with_alloc,
  make_room,
}

abbrev pub IsByte : ℕ → Type 0
IsByte b = b < 256

-- A buffer of bytes that is no larger than an object can be.
pub record Inside (d : Input) : Type 0 where
  pub fits : size d < 2 ^ 63
  pub bytes : All IsByte d.rest

-- A fault is no outcome.
pub data Outcome {A : Type 0} (P : A → Type 0) (total : ℕ) : Load (A × Input) → Type 0 where
  done : {a : A} {d : Input} → P a → Inside d → size d ≡ total → Outcome P total (ok (a, d))
  failed : {rc : LoadError} → Outcome P total (err rc)

-- With `n` bytes left or more, `m` fails or answers something with the property `P`.
pub record Yields {A : Type 0} (n : ℕ) (m : Reader A) (P : A → Type 0) : Type 0 where
  pub at : (d : Input) → Inside d → n ≤ length d.rest → Outcome P (size d) (m d)

pub go_on-Outcome :
    {A B : Type 0} {P : A → Type 0} {Q : B → Type 0} {total : ℕ} (r : Load (A × Input))
    (f : A → Reader B)
    → Outcome P total r
    → ((a : A) → P a → Yields 0 (f a) Q)
    → Outcome Q total (go_on r f)
go_on-Outcome {A} {B} {P} {Q} {total} (ok (a, d)) f (done p inside same) k =
    subst (λ t. Outcome Q t (f a d)) same ((k a p).at d inside (omega arith))
go_on-Outcome (err rc) f failed k = failed
go_on-Outcome fault f h k = elim h [ ]

pub Yields-bind :
    {A B : Type 0} {P : A → Type 0} {Q : B → Type 0} {n : ℕ} {m : Reader A} (f : A → Reader B)
    → Yields n m P
    → ((a : A) → P a → Yields 0 (f a) Q)
    → Yields n (m >>= f) Q
unfolding ◌>>=◌
Yields-bind {A} {B} {P} {Q} {n} {m} f h k = record {
  at = λ d inside room. go_on-Outcome (m d) f (h.at d inside room) k;
}

weaken-Outcome :
    {A : Type 0} {P Q : A → Type 0} {total : ℕ} (r : Load (A × Input))
    → ((a : A) → P a → Q a)
    → Outcome P total r
    → Outcome Q total r
weaken-Outcome (ok (a, d)) k (done p inside same) = done (k a p) inside same
weaken-Outcome (err rc) k failed = failed
weaken-Outcome fault k h = elim h [ ]

pub Yields-weaken :
    {A : Type 0} {P Q : A → Type 0} {n : ℕ} {m : Reader A}
    → Yields n m P
    → ((a : A) → P a → Q a)
    → Yields n m Q
Yields-weaken {A} {P} {Q} {n} {m} h k = record {
  at = λ d inside room. weaken-Outcome (m d) k (h.at d inside room);
}

pub Yields-ret : {A : Type 0} {P : A → Type 0} {n : ℕ} (a : A) → P a → Yields n (ret a) P
unfolding ret
Yields-ret a p = record { at = λ d inside room. done p inside refl }

pub Yields-fail :
    {A : Type 0} {P : A → Type 0} {n : ℕ} (rc : LoadError) → Yields {A = A} n (fail rc) P
unfolding fail
Yields-fail rc = record { at = λ d inside room. failed }

pub Yields-last :
    {A B : Type 0} {P : A → Type 0} {Q : B → Type 0} {n : ℕ} {m : Reader A} (g : A → B)
    → Yields n m P
    → ((a : A) → P a → Q (g a))
    → Yields n (m >>= λ x. ret (g x)) Q
Yields-last g h k = Yields-bind _ h (λ a p. Yields-ret (g a) (k a p))

pub Yields-refuse :
    {B : Type 0} {Q : B → Type 0} {n : ℕ} (bad : Bool) (rc : LoadError) (f : Unit {0} → Reader B)
    → (bad ≡ false → Yields n (f tt) Q)
    → Yields n (refuse bad rc >>= f) Q
unfolding ◌>>=◌ refuse
Yields-refuse true rc f k = record { at = λ d inside room. failed }
Yields-refuse false rc f k = record { at = (k refl).at }

pub Yields-if :
    {A : Type 0} {P : A → Type 0} {n : ℕ} (b : Bool) (m m' : Reader A)
    → (b ≡ true → Yields n m P)
    → (b ≡ false → Yields n m' P)
    → Yields n (if b then m else m') P
Yields-if true m m' h h' = h refl
Yields-if false m m' h h' = h' refl

pub Outcome-if :
    {A : Type 0} {P : A → Type 0} {total : ℕ} (b : Bool) (r r' : Load (A × Input))
    → (b ≡ true → Outcome P total r)
    → (b ≡ false → Outcome P total r')
    → Outcome P total (if b then r else r')
Outcome-if true r r' h h' = h refl
Outcome-if false r r' h h' = h' refl

-- The test for room leaves `k` bytes, for a `k` with which no `size_t` wraps.
pub Yields-room :
    {B : Type 0} {Q : B → Type 0} (k : ℕ) (f : Unit {0} → Reader B)
    → k < 2 ^ 63
    → Yields k (f tt) Q
    → Yields 0 (check_room k >>= f) Q
unfolding ◌>>=◌ check_room
Yields-room k f small h = record {
  at = λ d inside room.
      let fits = inside.fits in
      elim (Bool-cases (ltb (size d) ((d.off + k) % 2 ^ 64))) [
        | inl short ↦ rw (short, ◌>>=◌, check_room) failed
        | inr enough ↦ rw (enough, ◌>>=◌, check_room) (h.at d inside (ground (arith, enough)))
      ];
}

-- The same for any `k`, with nothing known of what is left.
pub Yields-check :
    {B : Type 0} {Q : B → Type 0} (k : ℕ) (f : Unit {0} → Reader B)
    → Yields 0 (f tt) Q
    → Yields 0 (check_room k >>= f) Q
unfolding ◌>>=◌ check_room
Yields-check k f h = record {
  at = λ d inside room. elim (Bool-cases (ltb (size d) ((d.off + k) % 2 ^ 64))) [
    | inl short ↦ rw (short, ◌>>=◌, check_room) failed
    | inr enough ↦ rw (enough, ◌>>=◌, check_room) (h.at d inside room)
  ];
}

byte_outcome :
    {B : Type 0} {Q : B → Type 0} (n off : ℕ) (xs : List ℕ) (f : ℕ → Reader B)
    → Inside (record { off = off; rest = xs })
    → suc n ≤ length xs
    → ((b : ℕ) → b < 256 → Yields n (f b) Q)
    → Outcome Q (off + length xs) ((next_byte >>= f) (record { off = off; rest = xs }))
unfolding ◌>>=◌ next_byte
byte_outcome n off [] f inside room k = absurd (omega arith)
byte_outcome {B} {Q} n off (b ∷ xs) f inside room k =
    let fits = inside.fits in
    let (byte, bytes) = inside.bytes in
    let next : Inside (record { off = off + 1; rest = xs }) = record {
      fits = omega arith;
      bytes = bytes;
    } in
    subst (λ t. Outcome Q t (f b (record { off = off + 1; rest = xs }))) (omega arith)
      ((k b byte).at (record { off = off + 1; rest = xs }) next (omega arith))

pub Yields-byte :
    {B : Type 0} {Q : B → Type 0} {n : ℕ} (f : ℕ → Reader B)
    → ((b : ℕ) → b < 256 → Yields n (f b) Q)
    → Yields (suc n) (next_byte >>= f) Q
Yields-byte {B} {Q} {n} f k = record {
  at = λ d inside room. byte_outcome n d.off d.rest f inside room k;
}

All-drop : (n : ℕ) (xs : List ℕ) → All IsByte xs → All IsByte (drop n xs)
All-drop zero xs h = h
All-drop (suc n) [] h = tt
All-drop (suc n) (x ∷ xs) (h, hs) = All-drop n xs hs

pub advance-Inside : (d : Input) (n : ℕ) → Inside d → n ≤ length d.rest → Inside (advance n d)
advance-Inside d n inside room =
    let fits = inside.fits in
    record { fits = omega (arith, length-drop n d.rest); bytes = All-drop n d.rest inside.bytes }

pub size-advance : (d : Input) (n : ℕ) → n ≤ length d.rest → size (advance n d) ≡ size d
size-advance d n room = omega (arith, length-drop n d.rest)

pub Yields-bytes : (n : ℕ) → Yields n (copy_bytes n) (λ xs. length xs ≡ n)
unfolding copy_bytes
Yields-bytes n = record {
  at = λ d inside room.
      let enough : leb n (length d.rest) ≡ true = ground arith in
      rw enough (
        done (omega (arith, length-take n d.rest)) (advance-Inside d n inside room)
          (size-advance d n room));
}

after_at :
    (rc : VarintError) (v n : ℕ) (d : Input)
    → Inside d
    → (rc ≡ VarintError.ok → (v < 2 ^ 64) × (n ≤ length d.rest))
    → Outcome
        (λ u. u < 2 ^ 64)
        (size d)
        (after_varint (record { rc = rc; value = v; consumed = n }) d)
unfolding after_varint
after_at VarintError.ok v n d inside h =
    let (range, room) = h refl in
    done range (advance-Inside d n inside room) (size-advance d n room)
after_at VarintError.truncated v n d inside h = failed
after_at VarintError.oversize v n d inside h = failed

after-Outcome :
    (r : Decoded) (d : Input)
    → Inside d
    → (r.rc ≡ VarintError.ok → (r.value < 2 ^ 64) × (r.consumed ≤ length d.rest))
    → Outcome (λ v. v < 2 ^ 64) (size d) (after_varint r d)
after-Outcome r d inside h = after_at r.rc r.value r.consumed d inside h

pub Yields-varint_u : Yields 0 decode_varint_u (λ v. v < 2 ^ 64)
unfolding decode_varint_u
Yields-varint_u = record {
  at = λ d inside room.
      after-Outcome (uvarint_decode_u d.rest cleared) d inside
        (λ e. grind (arith, decode_u_bounds d.rest cleared, e));
}

pub Yields-varint_zz : Yields 0 decode_varint_zz (λ v. v < 2 ^ 64)
unfolding decode_varint_zz
Yields-varint_zz = record {
  at = λ d inside room.
      after-Outcome (uvarint_decode_zz d.rest cleared) d inside
        (λ e. grind (arith, decode_zz_bounds d.rest cleared, decode_zz_value d.rest cleared e, e));
}

module _ (alloc : ℕ → Bool) where
  pub Yields-request :
      {B : Type 0} {Q : B → Type 0} {n : ℕ} (k : ℕ) (f : Unit {0} → Reader B)
      → (k ≢ 0 → alloc k ≡ true → Yields n (f tt) Q)
      → Yields n (request alloc k >>= f) Q
  unfolding ◌>>=◌ request
  Yields-request k f h = record {
    at = λ d inside room. elim (Bool-cases (not (k == 0) && alloc k)) [
      | inl served ↦
          rw (served, ◌>>=◌, request)
            ((h (ground (arith, served)) (ground (arith, served))).at d inside room)
      | inr refused ↦ rw (refused, ◌>>=◌, request) failed
    ];
  }

  pub Yields-make_room :
      {B : Type 0} {Q : B → Type 0} {n : ℕ} (k elem_size : ℕ) (f : Unit {0} → Reader B)
      → Yields n (f tt) Q
      → Yields n (make_room alloc k elem_size >>= f) Q
  unfolding ◌>>=◌ make_room
  Yields-make_room k elem_size f h = record {
    at = λ d inside room. elim (Bool-cases (k == 0)) [
      | inl nothing ↦ rw (nothing, ◌>>=◌, make_room) (h.at d inside room)
      | inr something ↦ elim (Option-cases (module_grow_with_alloc alloc 0 k elem_size)) [
        | inl refused ↦ rw (something, ◌>>=◌, make_room) (rw (refused, make_room) failed)
        | inr (room', grown) ↦
            rw (something, ◌>>=◌, make_room) (rw (grown, make_room) (h.at d inside room))
      ]
    ];
  }
