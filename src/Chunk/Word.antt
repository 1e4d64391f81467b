-- ===== src/Chunk/Word.antt =====
-- The instruction layout of src/chunk/uchunk.h: a 32-bit word whose fields are whole bytes.
use urbi_embedded.Shared.{ℕ, ◌/◌, ◌%◌, ◌^◌}

unfoldable pub uinstr_op : ℕ → ℕ
uinstr_op i = i % 2 ^ 8

unfoldable pub uinstr_a : ℕ → ℕ
uinstr_a i = i / 2 ^ 8 % 2 ^ 8

unfoldable pub uinstr_b : ℕ → ℕ
uinstr_b i = i / 2 ^ 16 % 2 ^ 8

unfoldable pub uinstr_c : ℕ → ℕ
uinstr_c i = i / 2 ^ 24 % 2 ^ 8

unfoldable pub uinstr_bx : ℕ → ℕ
uinstr_bx i = i / 2 ^ 16 % 2 ^ 16
