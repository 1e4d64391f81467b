-- ===== src/Loader/Input.antt =====
-- The decode context of src/chunk/uchunk_io.c, and the steps that its sections are made of.
use urbi_embedded.Shared.{
  ℕ, zero, suc, ◌+◌, ◌-◌, ◌*◌, ◌/◌, ◌%◌, ◌^◌, Bool, not, ◌&&◌, List, [], ◌∷◌, Option, none, some,
  ltb, leb, ◌==◌, if◌then◌else◌, length, take, drop,
}
use urbi_embedded.Chunk.Proto.{LoadError, truncated, corrupt_varint, oom, Load, ok, err, fault}
use urbi_embedded.Varint.{VarintError, Decoded, uvarint_decode_u, uvarint_decode_zz}

-- `MDecCtx`: `off`, and the bytes from `buf + off` to the end of the buffer.
pub record Input : Type 0 where
  pub off : ℕ
  pub rest : List ℕ

abbrev pub Reader : Type 0 → Type 0
Reader A = Input → Load (A × Input)

abbrev pub go_on : {A B : Type 0} → Load (A × Input) → (A → Reader B) → Load (B × Input)
go_on (ok (a, d)) f = f a d
go_on (err rc) f = err rc
go_on fault f = fault

infixl 5 ◌>>=◌ ◌>>◌
unfoldable pub ◌>>=◌ : {A B : Type 0} → Reader A → (A → Reader B) → Reader B
◌>>=◌ m f d = go_on (m d) f

abbrev pub ◌>>◌ : {B : Type 0} → Reader (Unit {0}) → Reader B → Reader B
m >> k = m >>= λ _. k

unfoldable pub ret : {A : Type 0} → A → Reader A
ret a d = ok (a, d)

unfoldable pub fail : {A : Type 0} → LoadError → Reader A
fail rc d = err rc

-- `if (bad) return rc;`
unfoldable pub refuse : Bool → LoadError → Reader (Unit {0})
refuse bad rc d = if bad then err rc else ok (tt, d)

abbrev pub size : Input → ℕ
size d = d.off + length d.rest

abbrev pub advance : ℕ → Input → Input
advance n d = record { off = d.off + n; rest = drop n d.rest }

-- `if (d->off + n > d->size) return UCHUNK_LOAD_TRUNCATED;` in 64-bit arithmetic
unfoldable pub check_room : ℕ → Reader (Unit {0})
check_room n d = if ltb (size d) ((d.off + n) % 2 ^ 64) then err truncated else ok (tt, d)

-- `d->buf[d->off++]`
unfoldable pub next_byte : Reader ℕ
next_byte d = elim d.rest [
  | [] ↦ fault
  | b ∷ rest ↦ ok (b, record { off = d.off + 1; rest = rest })
]

-- `module_memcpy(dst, d->buf + d->off, n); d->off += n;`
unfoldable pub copy_bytes : ℕ → Reader (List ℕ)
copy_bytes n d = if leb n (length d.rest) then ok (take n d.rest, advance n d) else fault

-- `varint_error_to_module_error`, and `d->off += consumed`
unfoldable pub after_varint : Decoded → Reader ℕ
after_varint r d = elim r.rc [
  | VarintError.ok ↦ ok (r.value, advance r.consumed d)
  | VarintError.truncated ↦ err truncated
  | VarintError.oversize ↦ err corrupt_varint
]

abbrev pub cleared : Decoded
cleared = record { rc = VarintError.ok; value = 0; consumed = 0 }

-- `module_decode_varint_u` and `module_decode_varint_zz`
unfoldable pub decode_varint_u : Reader ℕ
decode_varint_u d = after_varint (uvarint_decode_u d.rest cleared) d

unfoldable pub decode_varint_zz : Reader ℕ
decode_varint_zz d = after_varint (uvarint_decode_zz d.rest cleared) d

-- The doubling of `module_grow_with_alloc`; 64 rounds take a target past every `size_t`.
unfoldable pub grow_loop : ℕ → ℕ → ℕ → ℕ
grow_loop zero target new_cap = target
grow_loop (suc left) target new_cap =
    let rest = grow_loop left (target * 2) new_cap in
    if not (ltb target new_cap)
    then target
    else if ltb ((2 ^ 64 - 1) / 2) target
    then new_cap
    else rest

-- The allocator is a function of the size that says which requests it serves; a request of no bytes gets NULL.
module _ (alloc : ℕ → Bool) where
  -- `alloc(NULL, nbytes, ud)`, and UCHUNK_LOAD_OOM for NULL.
  unfoldable pub request : ℕ → Reader (Unit {0})
  request nbytes d = if not (nbytes == 0) && alloc nbytes then ok (tt, d) else err oom

  -- The new capacity, or `none` for false.
  unfoldable pub module_grow_with_alloc : ℕ → ℕ → ℕ → Option ℕ
  module_grow_with_alloc cap new_cap elem_size =
      let target = grow_loop 64 (if cap == 0 then 8 else cap) new_cap in
      if leb new_cap cap
      then some cap
      else if not (elem_size == 0) && ltb ((2 ^ 64 - 1) / elem_size) new_cap
      then none
      else if not (elem_size == 0) && ltb ((2 ^ 64 - 1) / elem_size) target
      then none
      else if not (target * elem_size == 0) && alloc (target * elem_size)
      then some target
      else none

  -- An array of a new proto gets room for `n` elements, unless there are none.
  unfoldable pub make_room : ℕ → ℕ → Reader (Unit {0})
  make_room n elem_size d =
      if n == 0
      then ok (tt, d)
      else elim (module_grow_with_alloc 0 n elem_size) [ none ↦ err oom | some cap ↦ ok (tt, d) ]
