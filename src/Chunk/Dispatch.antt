-- ===== src/Chunk/Dispatch.antt =====
-- The dispatcher of src/rt/uexec_ops.c, as far as the verifier answers for it: which words it runs in
-- one frame, with which pending site digits, and which registers and tables each word addresses.
use urbi_embedded.Shared.{
  ℕ, zero, suc, ◌+◌, ◌-◌, ◌*◌, ◌/◌, ◌%◌, ◌^◌, ◌≡◌, bit_or, Bool, true, false, not, ◌&&◌, ◌||◌, List,
  [], ◌∷◌, ◌++◌, Option, none, some, leb, ltb, ◌==◌, if◌then◌else◌, get_elem?,
}
use urbi_embedded.Chunk.Op
use urbi_embedded.Chunk.Word.{uinstr_op, uinstr_a, uinstr_b, uinstr_c, uinstr_bx}
use urbi_embedded.Chunk.Proto.{Block, Protos, child_nupvals}
use urbi_embedded.Chunk.Flow.{Config, entry}

-- `int off = (int)OPBX(i) - UEXEC_JMP_BIAS`, added to a `pc` that has already passed the jump; a
-- backward jump subtracts one more. `none` is a `pc` before the first word.
unfoldable pub jump_pc : ℕ → ℕ → Option ℕ
jump_pc pc bx =
    if leb 32768 bx
    then some (pc + 1 + (bx - 32768))
    else if ltb (pc + bx) 32768
    then none
    else some (pc + bx - 32768)

-- The arms that take a site index, and reset `ext`.
unfoldable pub takes_site : ℕ → Bool
takes_site w =
    let op = uinstr_op w in
    op == Op.getslot
    || op == Op.self
    || op == Op.setslot
    || op == Op.setslot_update
    || op == Op.getslot_change_event

-- `uint32_t site = OPC(i) | ext`
unfoldable pub site_of : ℕ → ℕ → ℕ
site_of ext w = bit_or (uinstr_c w) ext

-- The arms that can end with the `pc` on the next word. The word after a RESUME is the one after the
-- SCOPE_POP that ran the finally body, which that pop reaches by itself.
unfoldable pub falls_through : ℕ → Bool
falls_through w =
    let op = uinstr_op w in
    not (
      op == Op.jmp
      || op == Op.ret
      || op == Op.closure
      || op == Op.extarg
      || op == Op.unwind_to
      || op == Op.resume
      || op == Op.throw
      || (op == Op.loadbool && not (uinstr_c w == 0)))

-- The arms that can step over one word, `f->pc++`.
unfoldable pub steps_over : ℕ → Bool
steps_over w =
    let op = uinstr_op w in
    (op == Op.loadbool && not (uinstr_c w == 0))
    || op == Op.test
    || op == Op.testset
    || op == Op.eq
    || op == Op.lt
    || op == Op.le

-- The arms whose Bx is an absolute index at which the frame may resume.
unfoldable pub names_handler : ℕ → Bool
names_handler w =
    let op = uinstr_op w in op == Op.scope_try || op == Op.scope_tag || op == Op.unwind_to

abbrev pub goes_to : Config → ℕ → ℕ → Config
goes_to c w pc = record { pc = pc; ext = if takes_site w then 0 else c.ext; pending = false }

-- One dispatched word.
pub data Dispatch (blk : Block) (nested : Protos) (c d : Config) (w : ℕ) : Type 0 where
  prefix :
      uinstr_op w ≡ Op.extarg
      → d ≡ record { pc = c.pc + 1; ext = uinstr_bx w * 2 ^ 8; pending = true }
      → Dispatch blk nested c d w
  falls : falls_through w ≡ true → d ≡ goes_to c w (c.pc + 1) → Dispatch blk nested c d w
  closes :
      (nupvals : ℕ)
      → uinstr_op w ≡ Op.closure
      → child_nupvals nested (uinstr_bx w) ≡ some nupvals
      → d ≡ goes_to c w (c.pc + 1 + nupvals)
      → Dispatch blk nested c d w
  jumps :
      (pc : ℕ)
      → uinstr_op w ≡ Op.jmp
      → jump_pc c.pc (uinstr_bx w) ≡ some pc
      → d ≡ goes_to c w pc
      → Dispatch blk nested c d w
  skips : steps_over w ≡ true → d ≡ goes_to c w (c.pc + 2) → Dispatch blk nested c d w
  handles : names_handler w ≡ true → d ≡ goes_to c w (uinstr_bx w) → Dispatch blk nested c d w

-- What one frame of the proto can come to.
pub data Reaches (blk : Block) (nested : Protos) : Config → Type 0 where
  enters : {c : Config} → c ≡ entry → Reaches blk nested c
  dispatches :
      {c d : Config} (w : ℕ)
      → Reaches blk nested c
      → get_elem? blk.instructions c.pc ≡ some w
      → Dispatch blk nested c d w
      → Reaches blk nested d

abbrev pub from_to : ℕ → ℕ → List ℕ
from_to a zero = []
from_to a (suc n) = a ∷ from_to (a + 1) n

-- The arms that address R[A], R[B] and R[C] whatever the other fields say.
unfoldable pub uses_a : ℕ → Bool
uses_a op = not (
    op == Op.jmp
    || op == Op.eq
    || op == Op.lt
    || op == Op.le
    || op == Op.yield
    || op == Op.extarg
    || op == Op.scope_try
    || op == Op.scope_tag
    || op == Op.scope_pop
    || op == Op.unwind_to
    || op == Op.resume)

unfoldable pub uses_c : ℕ → Bool
uses_c op = (leb Op.add op && leb op Op.div) || op == Op.eq || op == Op.lt || op == Op.le

unfoldable pub uses_b : ℕ → Bool
unfolding uses_c
uses_b op =
    uses_c op
    || op == Op.move
    || op == Op.neg
    || op == Op.testset
    || op == Op.getslot
    || op == Op.self
    || op == Op.setslot
    || op == Op.setslot_update
    || op == Op.getslot_change_event

-- The registers that an arm addresses besides: the receiver's copy of a method lookup, the window
-- R[A] to R[A + B - 1] of a call, a joined child's handle, the closures of a watcher that its flags
-- name, and the tag of a scope.
unfoldable pub more_registers : ℕ → List ℕ
more_registers w =
    let op = uinstr_op w in
    let a = uinstr_a w in
    let b = uinstr_b w in
    let c = uinstr_c w in
    if op == Op.self
    then (a + 1) ∷ []
    else if op == Op.call
    then from_to a b
    else if op == Op.fork
    then (if c == 1 then b ∷ [] else [])
    else if op == Op.install
    then (if c % 2 == 0 then [] else (a + 1) ∷ []) ++ (if c / 2 % 2 == 0 then [] else (a + 2) ∷ [])
    else if op == Op.scope_tag
    then (if a == 0xff then [] else a ∷ [])
    else []
