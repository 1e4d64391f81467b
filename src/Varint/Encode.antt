-- ===== src/Varint/Encode.antt =====
-- What the writers of src/util/uvarint.c store: the groups of seven bits, lowest first.
use urbi_embedded.Shared.{
  ℕ, zero, suc, ◌+◌, ◌/◌, ◌%◌, ◌^◌, ◌≤◌, ◌<◌, ◌≡◌, refl, ap, ◌∙◌, bit_or, List, [], ◌∷◌, ◌++◌,
  arith, ltb, if◌then◌else◌, length, set, get_or, drop, length-set, get_or-set_ne, ◌⊎◌, inl,
  get_or-set_self, ◌↔◌,
}
use native.Mathlib.Nat.{pow-suc, one-le-pow}
use urbi_embedded.Shared.Bits.{bit_or_disjoint}
use urbi_embedded.Varint.{size_loop, uvarint_size_u, write_loop, uvarint_write_u}
use mathlib.Core.WellFounded.{Acc}

-- The reference encoding, for a number below 128 ^ (k + 1).
unfoldable pub leb128 : ℕ → ℕ → List ℕ
leb128 zero v = v ∷ []
leb128 (suc k) v =
    let rest = leb128 k (v / 128) in if ltb v 128 then v ∷ [] else (v % 128 + 128) ∷ rest

-- The buffer with the bytes stored one after the other from an offset on.
unfoldable pub splice : List ℕ → ℕ → List ℕ → List ℕ
splice buf off [] = buf
splice buf off (x ∷ xs) = splice (set buf off x) (off + 1) xs

continued : (v : ℕ) → bit_or (v % 2 ^ 7) 0x80 % 256 ≡ v % 128 + 128
continued v = omega (arith, bit_or_disjoint 7 (v % 128) 1 (omega arith))

size_loop-leb128 :
    (k n v : ℕ) (w : Acc ◌<◌ v) → v < 128 ^ suc k → size_loop n v w + 1 ≡ n + length (leb128 k v)
unfolding size_loop leb128
size_loop-leb128 zero n v (Acc.intro _ smaller) h = ground arith
size_loop-leb128 (suc k) n v (Acc.intro _ smaller) h =
    grind (arith, λ (w : Acc ◌<◌ (v / 128)). size_loop-leb128 k (n + 1) (v / 128) w (omega arith))

write_loop-leb128 :
    (k off v : ℕ) (buf : List ℕ) (w : Acc ◌<◌ v)
    → v < 128 ^ suc k
    → write_loop buf off v w ≡ (splice buf off (leb128 k v), off + length (leb128 k v))
unfolding write_loop leb128 splice
write_loop-leb128 zero off v buf (Acc.intro _ smaller) h = ground arith
write_loop-leb128 (suc k) off v buf (Acc.intro _ smaller) h = grind (
  arith,
  continued v,
  λ (w : Acc ◌<◌ (v / 128)).
      write_loop-leb128 k (off + 1) (v / 128) (set buf off (v % 128 + 128)) w (omega arith),
)

length-splice : (buf : List ℕ) (off : ℕ) (xs : List ℕ) → length (splice buf off xs) ≡ length buf
unfolding splice
length-splice buf off [] = refl
length-splice buf off (x ∷ xs) = length-splice (set buf off x) (off + 1) xs ∙ length-set buf off x

splice_outside :
    (buf : List ℕ) (off : ℕ) (xs : List ℕ) (j : ℕ)
    → (j < off) ⊎ (off + length xs ≤ j)
    → get_or (splice buf off xs) j 0 ≡ get_or buf j 0
unfolding splice
splice_outside buf off [] j h = refl
splice_outside buf off (x ∷ xs) j h =
    splice_outside (set buf off x) (off + 1) xs j (omega arith)
    ∙ get_or-set_ne buf off j x 0 (omega arith)

drop-set_lt : (buf : List ℕ) (off i x : ℕ) → i < off → drop off (set buf i x) ≡ drop off buf
drop-set_lt buf zero i x h = elim h [ ]
drop-set_lt [] (suc off) i x h = refl
drop-set_lt (b ∷ buf) (suc off) zero x h = refl
drop-set_lt (b ∷ buf) (suc off) (suc i) x h = drop-set_lt buf off i x (omega arith)

drop_cons : (xs : List ℕ) (i : ℕ) → i < length xs → drop i xs ≡ get_or xs i 0 ∷ drop (i + 1) xs
drop_cons [] i h = elim h [ ]
drop_cons (x ∷ xs) zero h = refl
drop_cons (x ∷ xs) (suc i) h =
    let e : suc i + 1 ≡ suc (i + 1) = omega arith in rw e (drop_cons xs i (omega arith))

pub drop-splice :
    (buf : List ℕ) (off : ℕ) (xs : List ℕ)
    → off + length xs ≤ length buf
    → drop off (splice buf off xs) ≡ xs ++ drop (off + length xs) buf
unfolding splice
drop-splice buf off [] h = ap (λ t. drop t buf) (omega arith)
drop-splice buf off (x ∷ xs) h =
    let out = splice (set buf off x) (off + 1) xs in
    let room : off < length out =
      omega (arith, length-splice (set buf off x) (off + 1) xs, length-set buf off x) in
    let head : get_or out off 0 ≡ x =
      splice_outside (set buf off x) (off + 1) xs off (inl (omega arith))
      ∙ get_or-set_self buf off x 0 (omega arith) in
    let tail : drop (off + 1) out ≡ xs ++ drop (off + 1 + length xs) buf =
      drop-splice (set buf off x) (off + 1) xs (omega (arith, length-set buf off x))
      ∙ ap (◌++◌ xs) (drop-set_lt buf _ off x (omega arith)) in
    drop_cons out off room ∙ rw (head, tail) (ap (λ t. x ∷ (xs ++ drop t buf)) (omega arith))

pub size_u-leb128 : (v : ℕ) → v < 2 ^ 64 → uvarint_size_u v ≡ length (leb128 9 v)
unfolding uvarint_size_u
size_u-leb128 v h = omega (arith, size_loop-leb128 9 1 v _ (omega arith))

pub write_u-leb128 :
    (buf : List ℕ) (off v : ℕ)
    → v < 2 ^ 64
    → uvarint_write_u buf off v ≡ (splice buf off (leb128 9 v), off + length (leb128 9 v))
unfolding uvarint_write_u
write_u-leb128 buf off v h = write_loop-leb128 9 off v buf _ (omega arith)

pub leb128_width :
    (k v : ℕ) → v < 128 ^ suc k → (1 ≤ length (leb128 k v)) × (length (leb128 k v) ≤ k + 1)
unfolding leb128
leb128_width zero v h = omega arith
leb128_width (suc k) v h = ground (arith, leb128_width k (v / 128) (omega arith))

-- A byte count of `n` says that the number lies in the `n`-th block of seven bits.
leb128_block :
    (k v : ℕ)
    → v < 128 ^ suc k
    → (n : ℕ) → n ≤ k
    → (length (leb128 k v) ≤ n + 1) ↔ (v < 128 ^ suc n)
unfolding leb128
leb128_block zero v h zero hn = omega arith
leb128_block zero v h (suc n) hn = elim hn [ ]
leb128_block (suc k) v h zero hn = ground (arith, leb128_width k (v / 128) (omega arith))
leb128_block (suc k) v h (suc n) hn = ground (
  arith,
  pow-suc 128 (suc n),
  one-le-pow (suc n) 128 (omega arith),
  leb128_block k (v / 128) (omega arith) n (omega arith),
)

-- `uvarint_size_u` of a `uint64_t` is between 1 and 10, and at most `n + 1` exactly when the number
-- is below 128 ^ (n + 1).
pub size_u_width :
    (v n : ℕ)
    → v < 2 ^ 64
    → n ≤ 9
    → (1 ≤ uvarint_size_u v)
      × (uvarint_size_u v ≤ 10)
      × ((uvarint_size_u v ≤ n + 1) ↔ (v < 128 ^ suc n))
size_u_width v n h hn = rw (size_u-leb128 v h) (
  omega (arith, leb128_width 9 v (omega arith)),
  omega (arith, leb128_width 9 v (omega arith)),
  leb128_block 9 v (omega arith) n hn,
)

-- `uvarint_write_u` moves the offset by `uvarint_size_u`, keeps the buffer's length, and changes no
-- byte outside the range that it moved over, for every buffer, offset and `uint64_t`.
pub write_u_range :
    (buf : List ℕ) (off v j : ℕ)
    → v < 2 ^ 64
    → (j < off) ⊎ (off + uvarint_size_u v ≤ j)
    → ((uvarint_write_u buf off v).1 ≡ off + uvarint_size_u v)
      × (length (uvarint_write_u buf off v).0 ≡ length buf)
      × (get_or (uvarint_write_u buf off v).0 j 0 ≡ get_or buf j 0)
write_u_range buf off v j h out =
    rw (write_u-leb128 buf off v h, size_u-leb128 v h)
      (refl, length-splice buf off _, splice_outside buf off _ j (omega (arith, size_u-leb128 v h)))
