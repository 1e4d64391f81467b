-- ===== src/Chunk/Proto.antt =====
-- src/chunk/uproto.h as the verifier reads it, and the error codes of src/chunk/uchunk.h.
use urbi_embedded.Shared.{
  ℕ, zero, suc, List, Option, none, some, Bool, true, false, ◌≡◌, refl, ◌⊎◌, inl, inr,
}

-- `UChunkLoadError` without `UCHUNK_LOAD_OK`, which is the result `ok`.
pub data LoadError : Type 0 where
  bad_magic unsupported_version flavor_mismatch truncated corrupt_varint : LoadError
  corrupt_tag corrupt oom invalid_arg oversized truncated_upvalues : LoadError
  malformed_upvalue jmp_out_of_bounds call_nresults_zero reserved_opcode : LoadError
  bad_extarg bad_target : LoadError

-- A `fault` is a read that C leaves undefined. In the verifier only a read through a NULL child is one:
-- its reads at an index take a default past the end of the array. In the loader a read past the end of
-- the buffer is one.
pub data Load {ℓ} (A : Type ℓ) : Type ℓ where
  ok : A → Load A
  err : LoadError → Load A
  fault : Load A

-- `if (bad) return e;`
abbrev pub refuse : Bool → LoadError → Load (Unit {0})
refuse true e = err e
refuse false e = ok tt

-- `rc = m; if (rc != UCHUNK_LOAD_OK) return rc;`
infixl 5 ◌>>=◌
abbrev pub ◌>>=◌ {ℓ κ} : {A : Type ℓ} {B : Type κ} → Load A → (A → Load B) → Load B
fault >>= k = fault
err rc >>= k = err rc
ok x >>= k = k x

infixl 5 ◌>>◌
abbrev pub ◌>>◌ {κ} : {B : Type κ} → Load (Unit {0}) → Load B → Load B
check >> rest = check >>= λ _. rest

-- The fields of `UProto` that the verifier reads; `instr_count` is the length of `instructions`.
pub record Block : Type 0 where
  pub max_reg : ℕ
  pub nupvals : ℕ
  pub const_count : ℕ
  pub site_count : ℕ
  pub instructions : List ℕ

-- A proto with its `nested` array, whose entries may be NULL.
mutual
  pub data Proto : Type 0 where
    proto : Block → Protos → Proto

  pub data Protos : Type 0 where
    nil : Protos
    absent : Protos → Protos
    child : Proto → Protos → Protos

abbrev pub block_of : Proto → Block
block_of (proto b ps) = b

-- `nested_count`
abbrev pub nested_count : Protos → ℕ
nested_count nil = 0
nested_count (absent ps) = suc (nested_count ps)
nested_count (child p ps) = suc (nested_count ps)

-- `nested[bx]->nupvals`, or `none` where `nested[bx]` is NULL or outside the array.
abbrev pub child_nupvals : Protos → ℕ → Option ℕ
child_nupvals nil i = none
child_nupvals (absent ps) zero = none
child_nupvals (absent ps) (suc i) = child_nupvals ps i
child_nupvals (child p ps) zero = some (block_of p).nupvals
child_nupvals (child p ps) (suc i) = child_nupvals ps i

pub Load-cases {ℓ} :
    {A : Type ℓ} (m : Load A)
    → ((a : A) × (m ≡ ok a)) ⊎ ((e : LoadError) × (m ≡ err e)) ⊎ (m ≡ fault)
Load-cases (ok a) = inl (a, refl)
Load-cases (err e) = inr (inl (e, refl))
Load-cases fault = inr (inr refl)

-- A sequence that succeeds has succeeded in both parts.
pub >>=-eq-ok {ℓ κ} :
    {X : Type ℓ} {Y : Type κ} (m : Load X) (next : X → Load Y) {y : Y}
    → (m >>= next) ≡ ok y
    → (x : X) × (m ≡ ok x) × (next x ≡ ok y)
>>=-eq-ok fault next h = cc
>>=-eq-ok (err rc) next h = cc
>>=-eq-ok (ok x) next h = (x, refl, h)
