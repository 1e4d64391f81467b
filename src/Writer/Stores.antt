-- ===== src/Writer/Stores.antt =====
-- src/emit/uemit_serialize.c: each of the writer's stores as a store of bytes.
use urbi_embedded.Shared.{
  ℕ, zero, suc, ◌+◌, ◌-◌, ◌%◌, ◌^◌, ◌≤◌, ◌<◌, ◌≡◌, refl, sym, ap, ◌∙◌, arith, true, false, List, [],
  ◌∷◌, ◌++◌, Option, none, some, ◌==◌, length, set, replicate, length-append,
}
use urbi_embedded.Varint.{uvarint_size_zz, uvarint_write_zz, zigzag}
use urbi_embedded.Varint.Encode.{leb128, splice, size_u-leb128, write_u-leb128}
use urbi_embedded.Varint.Zigzag.{zigzag-lt}
use urbi_embedded.Writer.Sink.{
  Sink, put, copy_in, put_bytes, put_varint_u, put_varint_zz, align_loop,
}

pub copy_in-splice : (buf : List ℕ) (off : ℕ) (xs : List ℕ) → splice buf off xs ≡ copy_in buf off xs
unfolding splice copy_in
copy_in-splice buf off [] = refl
copy_in-splice buf off (x ∷ xs) = copy_in-splice (set buf off x) (off + 1) xs

copy_in-append :
    (buf : List ℕ) (off : ℕ) (xs ys : List ℕ)
    → copy_in (copy_in buf off xs) (off + length xs) ys ≡ copy_in buf off (xs ++ ys)
unfolding copy_in
copy_in-append buf off [] ys = ap (λ k. copy_in buf k ys) (omega arith)
copy_in-append buf off (x ∷ xs) ys =
    let e : off + suc (length xs) ≡ off + 1 + length xs = omega arith in
    ap (λ k. copy_in (copy_in (set buf off x) (off + 1) xs) k ys) e
    ∙ copy_in-append (set buf off x) (off + 1) xs ys

append_at :
    (b : Option (List ℕ)) (off : ℕ) (xs ys : List ℕ)
    → put_bytes (put_bytes (record { buf = b; off = off }) xs) ys
      ≡ put_bytes (record { buf = b; off = off }) (xs ++ ys)
unfolding put_bytes
append_at none off xs ys = ground (arith, length-append xs ys)
append_at (some b) off xs ys = ground (arith, length-append xs ys, copy_in-append b off xs ys)

-- Two stores one after the other are one store.
pub put_bytes-append :
    (s : Sink) (xs ys : List ℕ) → put_bytes (put_bytes s xs) ys ≡ put_bytes s (xs ++ ys)
put_bytes-append s xs ys = append_at s.buf s.off xs ys

put_at :
    (b : Option (List ℕ)) (off v : ℕ)
    → put (record { buf = b; off = off }) v ≡ put_bytes (record { buf = b; off = off }) (v ∷ [])
unfolding put put_bytes copy_in
put_at none off v = refl
put_at (some b) off v = refl

pub put-bytes : (s : Sink) (v : ℕ) → put s v ≡ put_bytes s (v ∷ [])
put-bytes s v = put_at s.buf s.off v

varint_u_at :
    (b : Option (List ℕ)) (off v : ℕ)
    → v < 2 ^ 64
    → put_varint_u (record { buf = b; off = off }) v
      ≡ put_bytes (record { buf = b; off = off }) (leb128 9 v)
unfolding put_varint_u put_bytes
varint_u_at none off v h = ground (arith, size_u-leb128 v h)
varint_u_at (some b) off v h =
    ground (arith, write_u-leb128 b off v h, copy_in-splice b off (leb128 9 v))

pub put_varint_u-bytes :
    (s : Sink) (v : ℕ) → v < 2 ^ 64 → put_varint_u s v ≡ put_bytes s (leb128 9 v)
put_varint_u-bytes s v h = varint_u_at s.buf s.off v h

varint_zz_at :
    (b : Option (List ℕ)) (off v : ℕ)
    → put_varint_zz (record { buf = b; off = off }) v
      ≡ put_varint_u (record { buf = b; off = off }) (zigzag v)
unfolding put_varint_zz put_varint_u uvarint_size_zz uvarint_write_zz
varint_zz_at none off v = refl
varint_zz_at (some b) off v = refl

pub put_varint_zz-bytes :
    (s : Sink) (v : ℕ) → zigzag v < 2 ^ 64 → put_varint_zz s v ≡ put_bytes s (leb128 9 (zigzag v))
put_varint_zz-bytes s v h = varint_zz_at s.buf s.off v ∙ put_varint_u-bytes s (zigzag v) h

nil_at :
    (b : Option (List ℕ)) (off : ℕ)
    → put_bytes (record { buf = b; off = off }) [] ≡ record { buf = b; off = off }
unfolding put_bytes copy_in
nil_at none off = ground arith
nil_at (some b) off = ground arith

pub put_bytes-nil : (s : Sink) → s ≡ put_bytes s []
put_bytes-nil s = sym (nil_at s.buf s.off)

off_at :
    (b : Option (List ℕ)) (off : ℕ) (xs : List ℕ)
    → (put_bytes (record { buf = b; off = off }) xs).off ≡ off + length xs
unfolding put_bytes
off_at none off xs = refl
off_at (some b) off xs = refl

pub off-put_bytes : (s : Sink) (xs : List ℕ) → (put_bytes s xs).off ≡ s.off + length xs
off-put_bytes s xs = off_at s.buf s.off xs

-- The sink `s'` is `s` after a store of `bytes`.
pub record Stores (s : Sink) (bytes : List ℕ) (s' : Sink) : Type 0 where
  pub same : s' ≡ put_bytes s bytes

pub Stores-nil : (s : Sink) → Stores s [] s
Stores-nil s = record { same = put_bytes-nil s }

pub Stores-append :
    {s s1 s2 : Sink} {xs ys : List ℕ} → Stores s xs s1 → Stores s1 ys s2 → Stores s (xs ++ ys) s2
Stores-append {s} {s1} {s2} {xs} {ys} e1 e2 = record {
  same = e2.same ∙ ap (λ r. put_bytes r ys) e1.same ∙ put_bytes-append s xs ys;
}

pub Stores-off : {s s' : Sink} {xs : List ℕ} → Stores s xs s' → s'.off ≡ s.off + length xs
Stores-off {s} {s'} {xs} e = ap (λ (r : Sink). r.off) e.same ∙ off-put_bytes s xs

pub put-Stores : (s : Sink) (v : ℕ) → Stores s (v ∷ []) (put s v)
put-Stores s v = record { same = put-bytes s v }

pub put_bytes-Stores : (s : Sink) (xs : List ℕ) → Stores s xs (put_bytes s xs)
put_bytes-Stores s xs = record { same = refl }

pub varint_u-Stores : (s : Sink) (v : ℕ) → v < 2 ^ 64 → Stores s (leb128 9 v) (put_varint_u s v)
varint_u-Stores s v h = record { same = put_varint_u-bytes s v h }

pub varint_zz-Stores :
    (s : Sink) (v : ℕ) → v < 2 ^ 64 → Stores s (leb128 9 (zigzag v)) (put_varint_zz s v)
varint_zz-Stores s v h = record { same = put_varint_zz-bytes s v (zigzag-lt v h) }

abbrev pub padding : ℕ → List ℕ
padding off = replicate ((4 - off % 4) % 4) 0

align_loop-Stores :
    (left k : ℕ) (s : Sink)
    → k ≡ (4 - s.off % 4) % 4
    → k ≤ left
    → Stores s (replicate k 0) (align_loop left s)
unfolding align_loop
align_loop-Stores zero zero s e h = Stores-nil s
align_loop-Stores zero (suc k) s e h = absurd (omega arith)
align_loop-Stores (suc left) zero s e h = rw (test (omega (arith, e))) (Stores-nil s)
  where
    test : s.off % 4 ≡ 0 → (s.off % 4 == 0) ≡ true
    test z = ground (arith, z)
align_loop-Stores (suc left) (suc k) s e h =
    let moved = Stores-off (put-Stores s 0) in
    let more = align_loop-Stores left k (put s 0) (omega (arith, e, moved)) (omega arith) in
    rw (test (omega (arith, e))) (Stores-append (put-Stores s 0) more)
  where
    test : 0 < s.off % 4 → (s.off % 4 == 0) ≡ false
    test z = ground (arith, z)

pub align4-Stores : (s : Sink) → Stores s (padding s.off) (align_loop 3 s)
align4-Stores s = align_loop-Stores 3 ((4 - s.off % 4) % 4) s refl (omega arith)
