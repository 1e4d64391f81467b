-- ===== src/Loader/Reads.antt =====
-- src/chunk/uchunk_io.c: which bytes a step of the decoder reads as which value.
use urbi_embedded.Shared.{
  ℕ, zero, suc, ◌+◌, ◌-◌, ◌*◌, ◌/◌, ◌%◌, ◌^◌, ◌≤◌, ◌<◌, ◌≡◌, ◌≢◌, refl, sym, ap, ◌∙◌, subst, arith,
  Bool, true, false, not, ◌&&◌, List, [], ◌∷◌, ◌++◌, ltb, leb, ◌==◌, length, take, drop,
  length-append, append_assoc, ℕ_discrete,
}
use urbi_embedded.Varint.{VarintError, zigzag}
use urbi_embedded.Varint.Encode.{leb128}
use urbi_embedded.Varint.RoundTrip.{decode_u-leb128}
use urbi_embedded.Varint.Zigzag.{decode_zz-leb128}
use native.Mathlib.Nat.{le-div_iff_mul-le, mul-le-mul}
use urbi_embedded.Chunk.Proto.{LoadError, ok}
use urbi_embedded.Loader.Input.{
  Reader, ◌>>=◌, ret, refuse, check_room, next_byte, copy_bytes, after_varint, cleared,
  decode_varint_u, decode_varint_zz, grow_loop, request, module_grow_with_alloc, make_room,
}

-- At the offset `off` of a buffer that a `size_t` measures, `m` takes `bytes` away and answers `a`.
pub record Reads {A : Type 0} (m : Reader A) (off : ℕ) (bytes : List ℕ) (a : A) : Type 0 where
  pub at :
      (tail : List ℕ)
      → off + length bytes + length tail < 2 ^ 64
      → m (record { off = off; rest = bytes ++ tail })
        ≡ ok (a, record { off = off + length bytes; rest = tail })

pub Reads-ret : {A : Type 0} (off : ℕ) (a : A) → Reads (ret a) off [] a
unfolding ret
Reads-ret off a = record {
  at = λ tail fits. ap (λ k. ok (a, record { off = k; rest = tail })) (omega arith);
}

pub Reads-bind :
    {A B : Type 0} {m : Reader A} (f : A → Reader B) {off : ℕ} {xs ys : List ℕ} {a : A} {b : B}
    → Reads m off xs a
    → Reads (f a) (off + length xs) ys b
    → Reads (m >>= f) off (xs ++ ys) b
unfolding ◌>>=◌
Reads-bind {A} {B} {m} f {off} {xs} {ys} {a} {b} h k = record {
  at = λ tail fits.
      let size = length-append xs ys in
      let more = length-append ys tail in
      let first = h.at (ys ++ tail) (omega (arith, size, more)) in
      let second = k.at tail (omega (arith, size)) in
      let end : off + length xs + length ys ≡ off + length (xs ++ ys) = omega (arith, size) in
      rw (append_assoc xs ys tail)
        (rw (first, ◌>>=◌) (second ∙ ap (λ n. ok (b, record { off = n; rest = tail })) end));
}

-- A step that takes no byte.
pub Reads-then :
    {A B : Type 0} {m : Reader A} (f : A → Reader B) {off : ℕ} {ys : List ℕ} {a : A} {b : B}
    → Reads m off [] a
    → Reads (f a) off ys b
    → Reads (m >>= f) off ys b
unfolding ◌>>=◌
Reads-then {A} {B} {m} f {off} {ys} {a} {b} h k = record {
  at = λ tail fits.
      let first = h.at (ys ++ tail) (omega (arith, length-append ys tail)) in
      let here_is : off + 0 ≡ off = omega arith in
      rw (first, ◌>>=◌)
        (ap (λ n. f a (record { off = n; rest = ys ++ tail })) here_is ∙ k.at tail fits);
}

-- The last step only packs the value.
pub Reads-last :
    {A B : Type 0} {m : Reader A} (g : A → B) {off : ℕ} {xs : List ℕ} {a : A}
    → Reads m off xs a
    → Reads (m >>= λ x. ret (g x)) off xs (g a)
unfolding ◌>>=◌ ret
Reads-last g {off} {xs} {a} h = record { at = λ tail fits. rw (h.at tail fits, ◌>>=◌) refl }

pub Reads-assoc :
    {A : Type 0} {m : Reader A} {off : ℕ} (xs ys zs : List ℕ) {a : A}
    → Reads m off (xs ++ (ys ++ zs)) a
    → Reads m off ((xs ++ ys) ++ zs) a
Reads-assoc {A} {m} {off} xs ys zs {a} h =
    subst (λ bytes. Reads m off bytes a) (sym (append_assoc xs ys zs)) h

pub Reads-refuse :
    (off : ℕ) (bad : Bool) (rc : LoadError) → bad ≡ false → Reads (refuse bad rc) off [] tt
unfolding refuse
Reads-refuse off bad rc h = record {
  at = λ tail fits. rw h (ap (λ k. ok (tt, record { off = k; rest = tail })) (omega arith));
}

-- The test for room passes where the bytes that are read next are there.
pub Reads-room :
    {B : Type 0} (f : Unit {0} → Reader B) {off n : ℕ} {bytes : List ℕ} {b : B}
    → n ≤ length bytes
    → Reads (f tt) off bytes b
    → Reads (check_room n >>= f) off bytes b
unfolding ◌>>=◌ check_room
Reads-room f {off} {n} {bytes} {b} h k = record {
  at = λ tail fits.
      let size = length-append bytes tail in
      let passes : ltb (off + length (bytes ++ tail)) ((off + n) % 2 ^ 64) ≡ false =
        ground (arith, size) in
      rw (passes, ◌>>=◌, check_room) (k.at tail fits);
}

pub Reads-byte : (off b : ℕ) → Reads next_byte off (b ∷ []) b
unfolding next_byte
Reads-byte off b = record { at = λ tail fits. refl }

pub take_append : (xs tail : List ℕ) → take (length xs) (xs ++ tail) ≡ xs
take_append [] tail = refl
take_append (x ∷ xs) tail = ap (◌∷◌ x) (take_append xs tail)

drop_append : (xs tail : List ℕ) → drop (length xs) (xs ++ tail) ≡ tail
drop_append [] tail = refl
drop_append (x ∷ xs) tail = drop_append xs tail

pub Reads-bytes : (off : ℕ) (xs : List ℕ) → Reads (copy_bytes (length xs)) off xs xs
unfolding copy_bytes
Reads-bytes off xs = record {
  at = λ tail fits.
      let inside : leb (length xs) (length (xs ++ tail)) ≡ true =
        ground (arith, length-append xs tail) in
      rw (inside, take_append xs tail, drop_append xs tail) refl;
}

after_varint-taken :
    (v off : ℕ) (xs tail : List ℕ)
    → after_varint
        (record { rc = VarintError.ok; value = v; consumed = length xs })
        (record { off = off; rest = xs ++ tail })
      ≡ ok (v, record { off = off + length xs; rest = tail })
unfolding after_varint
after_varint-taken v off xs tail = rw (drop_append xs tail) refl

pub Reads-varint_u : (off v : ℕ) → v < 2 ^ 64 → Reads decode_varint_u off (leb128 9 v) v
unfolding decode_varint_u
Reads-varint_u off v h = record {
  at = λ tail fits.
      ap (λ r. after_varint r (record { off = off; rest = leb128 9 v ++ tail }))
        (decode_u-leb128 v tail cleared h)
      ∙ after_varint-taken v off (leb128 9 v) tail;
}

pub Reads-varint_zz : (off v : ℕ) → v < 2 ^ 64 → Reads decode_varint_zz off (leb128 9 (zigzag v)) v
unfolding decode_varint_zz
Reads-varint_zz off v h = record {
  at = λ tail fits.
      ap (λ r. after_varint r (record { off = off; rest = leb128 9 (zigzag v) ++ tail }))
        (decode_zz-leb128 v tail cleared h)
      ∙ after_varint-taken v off (leb128 9 (zigzag v)) tail;
}

grow_loop-le :
    (left target n bound : ℕ) → target ≤ bound → 2 * n ≤ bound → grow_loop left target n ≤ bound
unfolding grow_loop
grow_loop-le zero target n bound h k = h
grow_loop-le (suc left) target n bound h k = ground (arith, grow_loop-le left (target * 2) n bound)

grow_loop-pos : (left target n : ℕ) → 0 < target → 0 < n → 0 < grow_loop left target n
unfolding grow_loop
grow_loop-pos zero target n h k = h
grow_loop-pos (suc left) target n h k = ground (arith, grow_loop-pos left (target * 2) n)

-- A product below `SIZE_MAX` passes the two tests for overflow.
size_fits :
    (n elem_size : ℕ) → 0 < elem_size → elem_size ≤ 16 → n ≤ 2 ^ 21 → n ≤ (2 ^ 64 - 1) / elem_size
size_fits n elem_size pos few h =
    (le-div_iff_mul-le {k = elem_size} {x = n} {y = 2 ^ 64 - 1} pos).1
      (omega (arith, mul-le-mul {n₁ = n} {m₁ = elem_size} {n₂ = 2 ^ 21} {m₂ = 16} h few))

module _ (alloc : ℕ → Bool) (serves : (n : ℕ) → alloc n ≡ true) where
  pub Reads-request : (off n : ℕ) → n ≢ 0 → Reads (request alloc n) off [] tt
  unfolding request
  Reads-request off n h = record {
    at = λ tail fits.
        let granted : (not (n == 0) && alloc n) ≡ true = ground (arith, serves n, h) in
        rw granted (ap (λ k. ok (tt, record { off = k; rest = tail })) (omega arith));
  }

  pub Reads-make_room :
      (off n elem_size : ℕ)
      → n ≤ 2 ^ 20
      → 0 < elem_size
      → elem_size ≤ 16
      → Reads (make_room alloc n elem_size) off [] tt
  unfolding make_room module_grow_with_alloc
  Reads-make_room off n elem_size h pos few = record {
    at = λ tail fits.
        let target = grow_loop 64 8 n in
        let low = grow_loop-le 64 8 n (2 ^ 21) (omega arith) (omega arith) in
        elim (ℕ_discrete n 0) [
          | yes none_asked ↦ ground (arith, none_asked)
          | no some_asked ↦
              let positive = grow_loop-pos 64 8 n (omega arith) (omega arith) in
              let asked : target * elem_size ≢ 0 = λ e. grind (arith, e) in
              ground (
                arith,
                size_fits n elem_size pos few,
                size_fits target elem_size pos few,
                serves (target * elem_size),
                asked,
              )
        ];
  }
